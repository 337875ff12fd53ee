-- ===== src/Common/Bytes.antt =====
-- Byte slices as lists of numbers below 256, the big-endian integers of `encoding/binary`, and
-- writes into a caller's buffer.
use Prim.Native.Nat.{ℕ, suc, ◌+◌, ◌*◌, ◌/◌, ◌%◌, ◌^◌, ◌≤◌, ◌<◌}
use mathlib.Core.Path.{◌≡◌, refl, sym, ap, ap₂, ◌∙◌}
use mathlib.Core.Bool.{Bool, true, ◌&&◌}
use mathlib.Core.Option.{Option, none, some}
use mathlib.Core.List.{List, [], ◌∷◌, ◌++◌}
use native.Mathlib.Omega.{arith}
use rendr.Common.Tests.{ltb, ◌==◌, if◌then◌else◌, le→ltb}
use rendr.Common.Lists.{
  length, get_or, take, drop, All, take-append, drop-append, drop_all, take-drop_join,
  get_or-drop_join, get_or-append_right, All-get_or,
}

abbrev pub IsByte : ℕ → Type 0
IsByte b = b < 256

-- `b[i]`. Every use stands behind a check of the length.
abbrev pub byte : List ℕ → ℕ → ℕ
byte p i = get_or p i 0

-- `b[i:i+n]`.
abbrev pub slice : List ℕ → ℕ → ℕ → List ℕ
slice p i n = take n (drop i p)

-- `binary.BigEndian.Uint16(b[i:])` and its siblings.
abbrev pub uint16 : List ℕ → ℕ → ℕ
uint16 p i = byte p i * 256 + byte p (i + 1)

abbrev pub uint32 : List ℕ → ℕ → ℕ
uint32 p i = uint16 p i * 65536 + uint16 p (i + 2)

abbrev pub uint64 : List ℕ → ℕ → ℕ
uint64 p i = uint32 p i * 4294967296 + uint32 p (i + 4)

-- `binary.BigEndian.PutUint16` and its siblings: the bytes they write.
abbrev pub put_uint16 : ℕ → List ℕ
put_uint16 v = v / 256 % 256 ∷ v % 256 ∷ []

abbrev pub put_uint32 : ℕ → List ℕ
put_uint32 v = v / 16777216 % 256 ∷ v / 65536 % 256 ∷ v / 256 % 256 ∷ v % 256 ∷ []

abbrev pub put_uint64 : ℕ → List ℕ
put_uint64 v = put_uint32 (v / 4294967296) ++ put_uint32 v

-- A `Put` function writes its bytes to the front of `dst` and returns their number. It panics
-- (`none`) before it writes if `dst` is too small.
unfoldable pub put_front : List ℕ → List ℕ → Option (ℕ × List ℕ)
put_front dst bytes =
    if ltb (length dst) (length bytes)
    then none
    else some (length bytes, bytes ++ drop (length bytes) dst)

-- In a buffer that is large enough the bytes stand at the front, and the rest is as it was.
pub put_front-fits :
    (dst bytes : List ℕ)
    → length bytes ≤ length dst
    → put_front dst bytes ≡ some (length bytes, bytes ++ drop (length bytes) dst)
unfolding put_front
put_front-fits dst bytes h = rw (le→ltb _ _ h)

pub uint16-lt : (p : List ℕ) (i : ℕ) → All IsByte p → i + 2 ≤ length p → uint16 p i < 65536
uint16-lt p i a h =
    omega (
      arith,
      All-get_or IsByte i 0 p a (omega arith),
      All-get_or IsByte (i + 1) 0 p a (omega arith),
    )

-- One byte, and what follows it.
byte_join : (p : List ℕ) (i j : ℕ) → i < length p → j ≡ i + 1 → byte p i ∷ drop j p ≡ drop i p
byte_join p i j h e =
    ap (λ k. byte p i ∷ drop k p) {x = j} {y = suc i} (omega arith) ∙ get_or-drop_join i 0 p h

split2 : (x y : ℕ) → IsByte x → IsByte y → put_uint16 (x * 256 + y) ≡ x ∷ y ∷ []
split2 x y hx hy = ground arith

split4 :
    (x y z w : ℕ)
    → IsByte x
    → IsByte y
    → IsByte z
    → IsByte w
    → put_uint32 ((x * 256 + y) * 65536 + (z * 256 + w)) ≡ x ∷ y ∷ z ∷ w ∷ []
split4 x y z w hx hy hz hw = ground arith

split8 :
    (x y : ℕ)
    → x < 2 ^ 32
    → y < 2 ^ 32
    → put_uint64 (x * 4294967296 + y) ≡ put_uint32 x ++ put_uint32 y
split8 x y hx hy = ground arith

-- Reading a big-endian integer and writing it again gives the bytes that were there.
put_uint16_join :
    (p : List ℕ) (i j : ℕ)
    → All IsByte p
    → i + 2 ≤ length p
    → j ≡ i + 2
    → put_uint16 (uint16 p i) ++ drop j p ≡ drop i p
put_uint16_join p i j a h e =
    ap (λ t. t ++ drop j p)
      (split2 (byte p i) (byte p (i + 1)) (at i (omega arith)) (at (i + 1) (omega arith)))
    ∙ (ap (λ t. byte p i ∷ t) (byte_join p (i + 1) j (omega arith) (omega arith))
        ∙ byte_join p i (i + 1) (omega arith) refl)
  where
    at : (k : ℕ) → k < length p → IsByte (byte p k)
    at k hk = All-get_or IsByte k 0 p a hk

put_uint32_join :
    (p : List ℕ) (i j : ℕ)
    → All IsByte p
    → i + 4 ≤ length p
    → j ≡ i + 4
    → put_uint32 (uint32 p i) ++ drop j p ≡ drop i p
put_uint32_join p i j a h e =
    ap (λ t. t ++ drop j p)
      (split4 _ _ _ _ (at i (omega arith)) (at (i + 1) (omega arith)) (at (i + 2) (omega arith))
        (at (i + 2 + 1) (omega arith)))
    ∙ (ap (λ t. byte p i ∷ byte p (i + 1) ∷ byte p (i + 2) ∷ t)
          (byte_join p (i + 2 + 1) j (omega arith) (omega arith))
        ∙ ap (λ t. byte p i ∷ byte p (i + 1) ∷ t)
            (byte_join p (i + 2) (i + 2 + 1) (omega arith) refl)
        ∙ ap (λ t. byte p i ∷ t) (byte_join p (i + 1) (i + 2) (omega arith) (omega arith))
        ∙ byte_join p i (i + 1) (omega arith) refl)
  where
    at : (k : ℕ) → k < length p → IsByte (byte p k)
    at k hk = All-get_or IsByte k 0 p a hk

pub uint32-lt : (p : List ℕ) (i : ℕ) → All IsByte p → i + 4 ≤ length p → uint32 p i < 2 ^ 32
uint32-lt p i a h =
    omega (arith, uint16-lt p i a (omega arith), uint16-lt p (i + 2) a (omega arith))

pub uint64-lt : (p : List ℕ) (i : ℕ) → All IsByte p → i + 8 ≤ length p → uint64 p i < 2 ^ 64
uint64-lt p i a h =
    omega (arith, uint32-lt p i a (omega arith), uint32-lt p (i + 4) a (omega arith))

put_uint64_join :
    (p : List ℕ) (i j : ℕ)
    → All IsByte p
    → i + 8 ≤ length p
    → j ≡ i + 8
    → put_uint64 (uint64 p i) ++ drop j p ≡ drop i p
put_uint64_join p i j a h e =
    ap (λ t. t ++ drop j p)
      (split8 _ _ (uint32-lt p i a (omega arith)) (uint32-lt p (i + 4) a (omega arith)))
    ∙ (ap (λ t. put_uint32 (uint32 p i) ++ t)
          (put_uint32_join p (i + 4) j a (omega arith) (omega arith))
        ∙ put_uint32_join p i (i + 4) a (omega arith) refl)

-- Writing an integer of the field's width and reading it again gives that integer.
pub read16 : (v : ℕ) → v < 2 ^ 16 → v / 256 % 256 * 256 + v % 256 ≡ v
read16 v h = omega arith

pub read32 :
    (v : ℕ)
    → v < 2 ^ 32
    → (v / 16777216 % 256 * 256 + v / 65536 % 256) * 65536 + (v / 256 % 256 * 256 + v % 256) ≡ v
read32 v h = omega arith

pub read64 : (v : ℕ) → v < 2 ^ 64 → uint64 (put_uint64 v) 0 ≡ v
read64 v h =
    omega (arith, read32 (v / 4294967296) (omega arith), read32 (v % 4294967296) (omega arith))

pub put_uint16-IsByte : (v : ℕ) → All IsByte (put_uint16 v)
put_uint16-IsByte v = omega arith

pub put_uint32-IsByte : (v : ℕ) → All IsByte (put_uint32 v)
put_uint32-IsByte v = omega arith

pub put_uint64-IsByte : (v : ℕ) → All IsByte (put_uint64 v)
put_uint64-IsByte v = omega arith

-- Reading behind a field of known length.
module _ (n : ℕ) (xs ys : List ℕ) (fits : length xs ≡ n) where
  pub byte-append : (i k : ℕ) → i ≡ n + k → byte (xs ++ ys) i ≡ byte ys k
  byte-append i k e = ap (byte (xs ++ ys)) e ∙ get_or-append_right n k 0 xs ys fits

  pub uint16-append : (i k : ℕ) → i ≡ n + k → uint16 (xs ++ ys) i ≡ uint16 ys k
  uint16-append i k e =
      ap₂ (λ a b. a * 256 + b) (byte-append i k e) (byte-append (i + 1) (k + 1) (omega arith))

  pub uint32-append : (i k : ℕ) → i ≡ n + k → uint32 (xs ++ ys) i ≡ uint32 ys k
  uint32-append i k e =
      ap₂ (λ a b. a * 65536 + b) (uint16-append i k e) (uint16-append (i + 2) (k + 2) (omega arith))

  pub uint64-append : (i k : ℕ) → i ≡ n + k → uint64 (xs ++ ys) i ≡ uint64 ys k
  uint64-append i k e =
      ap₂ (λ a b. a * 4294967296 + b) (uint32-append i k e)
        (uint32-append (i + 4) (k + 4) (omega arith))

-- `b == [16]byte{}` on an array, and the zero check of a padding.
unfoldable pub all_zero : List ℕ → Bool
all_zero [] = true
all_zero (x ∷ xs) = x == 0 && all_zero xs

-- A `Put` function's bytes are read back by a parser `f` that reads them where they stand alone,
-- and the buffer behind them is as it was.
pub put_front_read {ℓ} :
    {A : Type ℓ} (f : List ℕ → A) (dst bytes : List ℕ) (n : ℕ) (x : A)
    → length bytes ≡ n
    → n ≤ length dst
    → f bytes ≡ x
    → (d : List ℕ) × (put_front dst bytes ≡ some (n, d))
      × (f (take n d) ≡ x)
      × (drop n d ≡ drop n dst)
put_front_read f dst bytes n x e h r = (
  bytes ++ drop n dst,
  rw (← e) (put_front-fits dst bytes (omega arith)),
  ap f (take-append n bytes (drop n dst) e) ∙ r,
  drop-append n bytes (drop n dst) e,
)

-- The fields of a layout, from the end of the input backwards: what a field's writer gives for the
-- value that was read at `i`, in front of the bytes behind the field, is the input from `i` on.
module _ (p : List ℕ) (i : ℕ) {ys : List ℕ} where
  pub byte_field : i < length p → ys ≡ drop (i + 1) p → byte p i ∷ ys ≡ drop i p
  byte_field h e = ap (λ t. byte p i ∷ t) e ∙ byte_join p i (i + 1) h refl

  pub slice_field : (n : ℕ) → ys ≡ drop (i + n) p → slice p i n ++ ys ≡ drop i p
  slice_field n e = ap (λ t. slice p i n ++ t) e ∙ take-drop_join i n p

  pub uint16_field :
      All IsByte p
      → i + 2 ≤ length p
      → ys ≡ drop (i + 2) p
      → put_uint16 (uint16 p i) ++ ys ≡ drop i p
  uint16_field a h e =
      ap (λ t. put_uint16 (uint16 p i) ++ t) e ∙ put_uint16_join p i (i + 2) a h refl

  pub uint32_field :
      All IsByte p
      → i + 4 ≤ length p
      → ys ≡ drop (i + 4) p
      → put_uint32 (uint32 p i) ++ ys ≡ drop i p
  uint32_field a h e =
      ap (λ t. put_uint32 (uint32 p i) ++ t) e ∙ put_uint32_join p i (i + 4) a h refl

  pub uint64_field :
      All IsByte p
      → i + 8 ≤ length p
      → ys ≡ drop (i + 8) p
      → put_uint64 (uint64 p i) ++ ys ≡ drop i p
  uint64_field a h e =
      ap (λ t. put_uint64 (uint64 p i) ++ t) e ∙ put_uint64_join p i (i + 8) a h refl

-- The input ends where the layout does.
pub no_more : (p : List ℕ) (n : ℕ) → length p ≤ n → [] ≡ drop n p
no_more p n h = sym (drop_all n p h)
