-- ===== src/Common/Int.antt =====
-- Signed integers: `negsuc n` is -(n + 1).
use Prim.Native.Nat.{ℕ}
use mathlib.Core.Path.{◌≡◌, refl}
use mathlib.Core.Bool.{Bool, true, false}
use rendr.Common.Tests.{ltb, ◌==◌}

pub data ℤ : Type 0 where
  pos : ℕ → ℤ
  negsuc : ℕ → ℤ

-- `max(v, 0)`.
abbrev pub pos_part : ℤ → ℕ
pos_part (pos n) = n
pos_part (negsuc n) = 0

abbrev pub lt_int : ℤ → ℤ → Bool
lt_int (pos a) (pos b) = ltb a b
lt_int (pos a) (negsuc b) = false
lt_int (negsuc a) (pos b) = true
lt_int (negsuc a) (negsuc b) = ltb b a

abbrev pub eq_int : ℤ → ℤ → Bool
eq_int (pos a) (pos b) = a == b
eq_int (pos a) (negsuc b) = false
eq_int (negsuc a) (pos b) = false
eq_int (negsuc a) (negsuc b) = a == b

-- `v > 0`.
abbrev pub positive : ℤ → Bool
positive (pos n) = ltb 0 n
positive (negsuc n) = false

pub lt_int-pos_part :
    (r s : ℤ) → positive r ≡ true → positive s ≡ true → lt_int r s ≡ ltb (pos_part r) (pos_part s)
lt_int-pos_part (pos a) (pos b) h k = refl
lt_int-pos_part (pos a) (negsuc b) h k = cc
lt_int-pos_part (negsuc a) s h k = cc

pub eq_int-pos_part :
    (r s : ℤ) → positive r ≡ true → positive s ≡ true → eq_int r s ≡ (pos_part r == pos_part s)
eq_int-pos_part (pos a) (pos b) h k = refl
eq_int-pos_part (pos a) (negsuc b) h k = cc
eq_int-pos_part (negsuc a) s h k = cc
