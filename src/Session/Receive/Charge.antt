-- ===== src/Session/Receive/Charge.antt =====
-- The receive charge between frames (insertCopyLocked, keepRefLocked and shedLocked of
-- internal/session/recv.go).
use rendr.Common.{
  ℕ, zero, suc, ◌+◌, ◌-◌, ◌≤◌, ◌<◌, min, ◌≡◌, refl, ap, ap₂, ◌∙◌, ◌⊎◌, inl, inr, Bool, true, false,
  not, ◌&&◌, Option, none, some, List, [], ◌∷◌, arith, ltb, leb, ◌==◌, if◌then◌else◌, Bool-cases,
  lt→ltb, ltb→le, ==-eq, if-both, if-cases, length, get_or, take, drop, slice,
}
use native.Mathlib.Decide.{dec_le}
use rendr.Session.Segments.{Seg, seg_end, seg_room, grow_seg, back, run_cap, charges, no_seg, after}
use rendr.Session.Receive.State.{Recv, Buf}
use rendr.Session.Receive.Data.{place_piece, copy_step}
use rendr.Session.Receive.Place.{
  HeldRange, merge_followers, merge_at, append_head, grows_at, insert_loop, inserted, insert_copy,
  append_copy, keep_ref, release_ooo_range,
}

-- Nothing is held out of order, or the charge is at most the limit.
abbrev pub Bounded : ℕ → Recv → Type 0
Bounded limit st = (st.ooq ≡ []) ⊎ (st.ooo_cap ≤ limit)

merge_followers-le :
    (t : Seg) (l : List Seg) (held left : ℕ) → (merge_followers t l held left).2 ≤ held
unfolding merge_followers
merge_followers-le t [] held left = omega arith
merge_followers-le t (sg ∷ l) held left =
    if-both {A = Seg × List Seg × ℕ × ℕ} (λ r. r.2 ≤ held)
      ((sg.off == seg_end t) && (leb (length sg.bytes) (seg_room t) && leb (length sg.bytes) left))
      (merge_followers (grow_seg t sg.bytes).0 l (held - sg.charge) (left - length sg.bytes))
      (t, sg ∷ l, held, left)
      (omega (
        arith,
        merge_followers-le (grow_seg t sg.bytes).0 l (held - sg.charge) (left - length sg.bytes),
      ))
      (omega arith)

merge_at-le :
    (st : Recv) (b : Option Seg) (before l : List Seg) (left : ℕ)
    → (merge_at st b before l left).ooo_cap ≤ st.ooo_cap
unfolding merge_at
merge_at-le st none before l left = omega arith
merge_at-le st (some t) before l left = merge_followers-le t l st.ooo_cap left

-- Where a segment grows, no capacity is taken.
append_head-grows :
    (b : Option Seg) (l : List Seg) (pos : ℕ) (q : List ℕ)
    → grows_at b pos ≡ true
    → (append_head b l pos q).2 ≡ 0
unfolding append_head grows_at
append_head-grows none l pos q e = absurd cc
append_head-grows (some t) l pos q e = ground (arith, e)

taken_fits :
    (g : Bool) (b : Option Seg) (limit : ℕ) (l : List Seg) (pos : ℕ) (q : List ℕ) (held : ℕ)
    → grows_at b pos ≡ g
    → (not g && ltb limit (held + run_cap)) ≡ false
    → held ≤ limit
    → held + (append_head (if g then b else none) l pos q).2 ≤ limit
unfolding append_head
taken_fits true b limit l pos q held e f h = omega (arith, append_head-grows b l pos q e, h)
taken_fits false b limit l pos q held e f h = ltb→le limit (held + run_cap) f

insert_loop-le :
    (n limit : ℕ) (l : List Seg) (pos : ℕ) (q : List ℕ) (held : ℕ)
    → held ≤ limit
    → (insert_loop n limit l pos q held).1 ≤ limit
unfolding insert_loop
insert_loop-le zero limit l pos q held h = h
insert_loop-le (suc n) limit l pos q held h =
    if-both {A = List Seg × ℕ × Option ℕ} (λ r. r.1 ≤ limit) (ltb 0 (length q)) _ (l, held, none)
      (if-cases {A = List Seg × ℕ × Option ℕ} (λ r. r.1 ≤ limit)
        (not (grows_at (back l) pos) && ltb limit (held + run_cap)) (l, held, some (length q)) _
        (λ e. h)
        (λ e.
          insert_loop-le n limit
            (append_head (if grows_at (back l) pos then back l else none) l pos q).0
            (pos + (append_head (if grows_at (back l) pos then back l else none) l pos q).1)
            (drop (append_head (if grows_at (back l) pos then back l else none) l pos q).1 q)
            (held + (append_head (if grows_at (back l) pos then back l else none) l pos q).2)
            (taken_fits (grows_at (back l) pos) (back l) limit l pos q held refl e h)))
      h

-- Above the limit with nothing held, nothing is placed out of order.
insert_loop-none :
    (n limit : ℕ) (pos : ℕ) (q : List ℕ) (held : ℕ)
    → limit < held
    → (insert_loop n limit [] pos q held).0 ≡ []
unfolding insert_loop grows_at
insert_loop-none zero limit pos q held h = refl
insert_loop-none (suc n) limit pos q held h = rw (lt→ltb limit (held + run_cap) (omega arith)) (
    if-both {A = List Seg × ℕ × Option ℕ} (λ r. r.0 ≡ []) (ltb 0 (length q))
      ([], held, some (length q)) ([], held, none) refl refl)

inserted-le :
    (limit : ℕ) (st : Recv) (before l : List Seg) (held : ℕ) (dropped : Option ℕ) (left : ℕ)
    → held ≤ limit
    → (inserted st before l held dropped left).ooo_cap ≤ limit
unfolding inserted
inserted-le limit st before l held none left h =
    omega (arith, h, merge_at-le (record st { ooo_cap = held }) (back before) before l left)
inserted-le limit st before l held (some n) left h = h

inserted-none :
    (st : Recv) (held : ℕ) (dropped : Option ℕ) (left : ℕ)
    → (inserted st [] [] held dropped left).ooq ≡ []
unfolding inserted merge_at
inserted-none st held none left = refl
inserted-none st held (some n) left = refl

take_none : (i : ℕ) → take {A = Seg} i [] ≡ []
take_none zero = refl
take_none (suc i) = refl

drop_none : (i : ℕ) → drop {A = Seg} i [] ≡ []
drop_none zero = refl
drop_none (suc i) = refl

pub insert_copy-Bounded :
    (limit : ℕ) (st : Recv) (i pos : ℕ) (piece : List ℕ) (left : ℕ)
    → Bounded limit st
    → Bounded limit (insert_copy limit st i pos piece left)
unfolding insert_copy
insert_copy-Bounded limit st i pos piece left b = elim (dec_le st.ooo_cap limit) [
  | yes h ↦ inr (
      inserted-le limit st (insert_loop (length piece) limit (take i st.ooq) pos piece st.ooo_cap).0
        (drop i st.ooq) (insert_loop (length piece) limit (take i st.ooq) pos piece st.ooo_cap).1
        (insert_loop (length piece) limit (take i st.ooq) pos piece st.ooo_cap).2 left
        (insert_loop-le (length piece) limit (take i st.ooq) pos piece st.ooo_cap h))
  | no h ↦ inl (unheld (no_segments b h) (omega arith))
]
  where
    no_segments : Bounded limit st → ¬ (st.ooo_cap ≤ limit) → st.ooq ≡ []
    no_segments (inl e) h = e
    no_segments (inr w) h = absurd (h w)

    unheld : st.ooq ≡ [] → limit < st.ooo_cap → (insert_copy limit st i pos piece left).ooq ≡ []
    unheld e z =
        ap₂
          (λ u v. Recv.ooq (
            inserted st u v
              (insert_loop (length piece) limit (take i st.ooq) pos piece st.ooo_cap).1
              (insert_loop (length piece) limit (take i st.ooq) pos piece st.ooo_cap).2 left))
          (ap (λ u. (insert_loop (length piece) limit u pos piece st.ooo_cap).0)
              (ap (λ u. take i u) e ∙ take_none i)
            ∙ insert_loop-none (length piece) limit pos piece st.ooo_cap z)
          (ap (λ u. drop i u) e ∙ drop_none i)
        ∙ inserted-none st (insert_loop (length piece) limit (take i st.ooq) pos piece st.ooo_cap).1
            (insert_loop (length piece) limit (take i st.ooq) pos piece st.ooo_cap).2 left

-- A frame kept by reference out of order keeps the charge, and one in order moves the in-order end.
pub keep_ref-Bounded :
    (limit : ℕ) (st : Recv) (off : ℕ) (p : List ℕ) (buf : Buf) (h : HeldRange) (n left : ℕ)
    → (h.s0 ≡ st.r_tail → st.r_tail < (keep_ref limit st off p buf h n left).r_tail)
    → (keep_ref limit st off p buf h n left).r_tail ≡ st.r_tail
    → h.charge ≡ charges (take (h.b - h.a) (drop h.a st.ooq))
    → Bounded limit st
    → Bounded limit (keep_ref limit st off p buf h n left)
unfolding keep_ref release_ooo_range
keep_ref-Bounded limit st off p buf h n left m t c b = elim (Bool-cases (h.s0 == st.r_tail)) [
  | inl e ↦ absurd (omega (arith, m (==-eq h.s0 st.r_tail e), t))
  | inr e ↦ rw e (elim (Bool-cases (ltb limit (st.ooo_cap - h.charge + buf.capacity))) [
    | inl g ↦ rw g b
    | inr g ↦ rw g (
        inr (
          omega (
            arith,
            ltb→le limit (st.ooo_cap - h.charge + buf.capacity) g,
            c,
            merge_at-le _ _ _ _ left,
          )))
  ])
]

-- A round of the copy that does not move the in-order end.
abbrev pub Rests : ℕ → Recv → ℕ → Recv × ℕ → Type 0
Rests limit st pos r =
    (pos ≡ st.r_tail → st.r_tail < Recv.r_tail r.0)
    → Recv.r_tail r.0 ≡ st.r_tail
    → Bounded limit r.0

pub copy_step-Rests :
    (limit : ℕ) (st : Recv) (off : ℕ) (p : List ℕ) (left pos : ℕ)
    → Bounded limit st
    → Rests limit st pos (copy_step limit st off p left pos)
unfolding copy_step place_piece
copy_step-Rests limit st off p left pos b =
    if-both {A = Recv × ℕ} (λ r. Rests limit st pos r) (ltb pos st.r_tail) (st, st.r_tail) _
      (λ m t. b)
      (if-both {A = Recv × ℕ} (λ r. Rests limit st pos r)
        (ltb (after st.ooq pos) (length st.ooq)
          && leb (Seg.off (get_or st.ooq (after st.ooq pos) no_seg)) pos)
        (st, seg_end (get_or st.ooq (after st.ooq pos) no_seg)) _ (λ m t. b) (λ m t. placed m t))
  where
    stop : ℕ
    stop =
        if ltb (after st.ooq pos) (length st.ooq)
        then min (off + length p) (Seg.off (get_or st.ooq (after st.ooq pos) no_seg))
        else off + length p

    placed : Rests limit st pos (place_piece limit st (after st.ooq pos) off p left pos stop)
    placed =
        if-cases {A = Recv} (λ r. Rests limit st pos (r, stop)) (pos == st.r_tail)
          (append_copy st pos (slice p (pos - off) (stop - pos)) left)
          (insert_copy limit st (after st.ooq pos) pos (slice p (pos - off) (stop - pos)) left)
          (λ e m t. absurd (omega (arith, m (==-eq pos st.r_tail e), t)))
          (λ e m t.
            insert_copy-Bounded limit st (after st.ooq pos) pos (slice p (pos - off) (stop - pos))
              left b)
