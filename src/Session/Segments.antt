-- ===== src/Session/Segments.antt =====
-- Received segments: seg, segRing and segList (internal/session/state.go, stream.go) with the
-- helpers of the receive path (internal/session/recv.go). A queue is the list of its segments, from
-- the front; a byte slice is the list of its bytes, and `span` and `charge` keep the capacities of
-- the slice and of its buffer, so that a ring's storage and the bytes behind a slice have no
-- counterpart. A segment ends at or below the right edge, an offset of 64 bits: `seg_end` does not
-- wrap.
pub mod Chain
pub mod Search
use rendr.Common.{
  ℕ, zero, suc, ◌+◌, ◌-◌, ◌/◌, min, max, Bool, true, false, ◌&&◌, Option, none, some, List, [], ◌∷◌,
  ◌++◌, ltb, leb, ◌==◌, if◌then◌else◌, length, get_or, take, drop, slice,
}

-- `span` is the capacity of the slice `bytes`, `charge` that of the buffer behind it.
pub record Seg : Type 0 where
  pub off : ℕ
  pub bytes : List ℕ
  pub span : ℕ
  pub charge : ℕ
  pub is_run : Bool

abbrev pub run_size : ℕ
run_size = 16384

abbrev pub run_cap : ℕ
run_cap = 16384 + 64

abbrev pub copy_budget : ℕ
copy_budget = 16383

abbrev pub seg_end : Seg → ℕ
seg_end sg = sg.off + length sg.bytes

unfoldable pub seg_room : Seg → ℕ
seg_room sg = if sg.is_run then run_size - length sg.bytes else sg.span - length sg.bytes

-- The segment grown, and the bytes copied.
unfoldable pub grow_seg : Seg → List ℕ → Seg × ℕ
grow_seg t q = let m = min (seg_room t) (length q) in (record t { bytes = t.bytes ++ take m q }, m)

-- A new run of the head of `q`, and the bytes copied.
unfoldable pub new_run : ℕ → List ℕ → Seg × ℕ
new_run off q =
    let m = min run_size (length q) in
    (record { off = off; bytes = take m q; span = run_cap; charge = run_cap; is_run = true }, m)

abbrev pub no_seg : Seg
no_seg = record { off = 0; bytes = []; span = 0; charge = 0; is_run = false }

-- The last segment of a queue, and a queue with the last segment replaced.
abbrev pub back : List Seg → Option Seg
back [] = none
back (sg ∷ []) = some sg
back (sg ∷ t ∷ l) = back (t ∷ l)

abbrev pub set_back : List Seg → Seg → List Seg
set_back [] t = []
set_back (sg ∷ []) t = t ∷ []
set_back (sg ∷ u ∷ l) t = sg ∷ set_back (u ∷ l) t

abbrev pub push : List Seg → Seg → List Seg
push l sg = l ++ (sg ∷ [])

-- `bytes.Equal`.
abbrev pub equal_bytes : List ℕ → List ℕ → Bool
equal_bytes [] [] = true
equal_bytes [] (y ∷ ys) = false
equal_bytes (x ∷ xs) [] = false
equal_bytes (x ∷ xs) (y ∷ ys) = x == y && equal_bytes xs ys

-- segRing.equal: `a` moves on with the bytes compared; a segment that ends at or before it is
-- passed, as one with no bytes to compare.
unfoldable pub ring_head : Seg → ℕ → List ℕ
ring_head sg a = if leb (seg_end sg) a then [] else drop (a - sg.off) sg.bytes

unfoldable pub ring_equal : List Seg → ℕ → List ℕ → Bool
ring_equal [] a q = true
ring_equal (sg ∷ l) a q =
    let h = ring_head sg a in
    let m = min (length h) (length q) in
    equal_bytes (take m h) (take m q) && ring_equal l (a + m) (drop m q)

-- The loop of segList.after between `lo` and `hi`; the fuel bounds their distance.
unfoldable pub after_between : ℕ → List Seg → ℕ → ℕ → ℕ → ℕ
after_between zero l x lo hi = lo
after_between (suc n) l x lo hi =
    let m = (lo + hi) / 2 in
    let low = leb (seg_end (get_or l m no_seg)) x in
    let rest = after_between n l x (if low then suc m else lo) (if low then hi else m) in
    if ltb lo hi then rest else lo

unfoldable pub after : List Seg → ℕ → ℕ
after l x = after_between (length l) l x 0 (length l)

-- The loop of segList.equal, from the first segment that ends after `off`.
unfoldable pub list_equal_from : List Seg → ℕ → List ℕ → Bool
list_equal_from [] off p = true
list_equal_from (sg ∷ l) off p =
    let a = max off sg.off in
    let b = min (off + length p) (seg_end sg) in
    let rest = list_equal_from l off p in
    if ltb sg.off (off + length p)
    then equal_bytes (slice sg.bytes (a - sg.off) (b - a)) (slice p (a - off) (b - a)) && rest
    else true

unfoldable pub list_equal : List Seg → ℕ → List ℕ → Bool
list_equal l off p = list_equal_from (drop (after l off) l) off p

-- segList.cut.
abbrev pub cut : List Seg → ℕ → ℕ → List Seg
cut l i j = if leb j i then l else take i l ++ drop j l

-- The capacity that segments charge.
abbrev pub charges : List Seg → ℕ
charges [] = 0
charges (sg ∷ l) = sg.charge + charges l
