-- ===== src/Common/Lists.antt =====
-- Lists measured and indexed by native numbers, under the library's names.
use Prim.Native.Nat.{ℕ, zero, suc, ◌+◌, ◌-◌, ◌≤◌, ◌<◌, min}
use mathlib.Core.Path.{◌≡◌, refl, ap}
use mathlib.Core.List.{List, [], ◌∷◌, ◌++◌}
use native.Mathlib.Omega.{arith}
use Prim.Native.Nat.add

module _ {ℓ} {A : Type ℓ} where
  abbrev pub length : List A → ℕ
  length [] = 0
  length (x ∷ xs) = suc (length xs)

  abbrev pub get_or : List A → ℕ → A → A
  get_or [] i d = d
  get_or (x ∷ xs) zero d = x
  get_or (x ∷ xs) (suc i) d = get_or xs i d

  abbrev pub take : ℕ → List A → List A
  take zero xs = []
  take (suc n) [] = []
  take (suc n) (x ∷ xs) = x ∷ take n xs

  abbrev pub drop : ℕ → List A → List A
  drop zero xs = xs
  drop (suc n) [] = []
  drop (suc n) (x ∷ xs) = drop n xs

  abbrev pub replicate : ℕ → A → List A
  replicate zero a = []
  replicate (suc n) a = a ∷ replicate n a

  -- A write out of bounds changes nothing.
  abbrev pub set : List A → ℕ → A → List A
  set [] i v = []
  set (x ∷ xs) zero v = v ∷ xs
  set (x ∷ xs) (suc i) v = x ∷ set xs i v

  abbrev pub All {κ} : (A → Type κ) → List A → Type κ
  All P [] = Unit {κ}
  All P (x ∷ xs) = P x × All P xs

module _ {ℓ} {A : Type ℓ} where
  pub length-append : (xs ys : List A) → length (xs ++ ys) ≡ length xs + length ys
  length-append [] ys = omega arith
  length-append (x ∷ xs) ys = omega (arith, length-append xs ys)

  pub length-take : (n : ℕ) (xs : List A) → length (take n xs) ≡ min n (length xs)
  length-take zero xs = omega arith
  length-take (suc n) [] = omega arith
  length-take (suc n) (x ∷ xs) = omega (arith, length-take n xs)

  pub length-drop : (n : ℕ) (xs : List A) → length (drop n xs) ≡ length xs - n
  length-drop zero xs = omega arith
  length-drop (suc n) [] = omega arith
  length-drop (suc n) (x ∷ xs) = omega (arith, length-drop n xs)

  pub length-replicate : (n : ℕ) (a : A) → length (replicate n a) ≡ n
  length-replicate zero a = refl
  length-replicate (suc n) a = ap suc (length-replicate n a)

  pub take-append : (n : ℕ) (xs ys : List A) → length xs ≡ n → take n (xs ++ ys) ≡ xs
  take-append zero [] ys h = refl
  take-append zero (x ∷ xs) ys h = absurd (omega arith)
  take-append (suc n) [] ys h = absurd (omega arith)
  take-append (suc n) (x ∷ xs) ys h = ap (λ t. x ∷ t) (take-append n xs ys (omega arith))

  pub drop-append : (n : ℕ) (xs ys : List A) → length xs ≡ n → drop n (xs ++ ys) ≡ ys
  drop-append zero [] ys h = refl
  drop-append zero (x ∷ xs) ys h = absurd (omega arith)
  drop-append (suc n) [] ys h = absurd (omega arith)
  drop-append (suc n) (x ∷ xs) ys h = drop-append n xs ys (omega arith)

  pub take_all : (n : ℕ) (xs : List A) → length xs ≤ n → take n xs ≡ xs
  take_all zero [] h = refl
  take_all zero (x ∷ xs) h = absurd (omega arith)
  take_all (suc n) [] h = refl
  take_all (suc n) (x ∷ xs) h = ap (λ t. x ∷ t) (take_all n xs (omega arith))

  pub drop_all : (n : ℕ) (xs : List A) → length xs ≤ n → drop n xs ≡ []
  drop_all zero [] h = refl
  drop_all zero (x ∷ xs) h = absurd (omega arith)
  drop_all (suc n) [] h = refl
  drop_all (suc n) (x ∷ xs) h = drop_all n xs (omega arith)

  pub take-append-drop : (n : ℕ) (xs : List A) → take n xs ++ drop n xs ≡ xs
  take-append-drop zero xs = refl
  take-append-drop (suc n) [] = refl
  take-append-drop (suc n) (x ∷ xs) = rw (take-append-drop n xs)

  pub drop-drop : (i n : ℕ) (xs : List A) → drop n (drop i xs) ≡ drop (i + n) xs
  drop-drop zero n xs = rw (add.zero n) refl
  drop-drop (suc i) zero [] = rw (add.suc i 0) refl
  drop-drop (suc i) (suc n) [] = rw (add.suc i (suc n)) refl
  drop-drop (suc i) n (x ∷ xs) = rw (add.suc i n) (drop-drop i n xs)

  -- A part of a list, and what follows it.
  pub take-drop_join : (i n : ℕ) (xs : List A) → take n (drop i xs) ++ drop (i + n) xs ≡ drop i xs
  take-drop_join i n xs = rw (← drop-drop i n xs) (take-append-drop n (drop i xs))

  pub get_or-drop_join :
      (i : ℕ) (d : A) (xs : List A) → i < length xs → get_or xs i d ∷ drop (suc i) xs ≡ drop i xs
  get_or-drop_join i d [] h = absurd (omega arith)
  get_or-drop_join zero d (x ∷ xs) h = refl
  get_or-drop_join (suc i) d (x ∷ xs) h = get_or-drop_join i d xs (omega arith)

  pub All-get_or {κ} :
      (P : A → Type κ) (i : ℕ) (d : A) (xs : List A) → All P xs → i < length xs → P (get_or xs i d)
  All-get_or P i d [] a h = absurd (omega arith)
  All-get_or P zero d (x ∷ xs) a h = a.0
  All-get_or P (suc i) d (x ∷ xs) a h = All-get_or P i d xs a.1 (omega arith)

  pub All-append {κ} : (P : A → Type κ) (xs ys : List A) → All P xs → All P ys → All P (xs ++ ys)
  All-append P [] ys a b = b
  All-append P (x ∷ xs) ys a b = (a.0, All-append P xs ys a.1 b)

  pub All-take {κ} : (P : A → Type κ) (n : ℕ) (xs : List A) → All P xs → All P (take n xs)
  All-take P zero xs a = tt
  All-take P (suc n) [] a = tt
  All-take P (suc n) (x ∷ xs) a = (a.0, All-take P n xs a.1)

  pub All-drop {κ} : (P : A → Type κ) (n : ℕ) (xs : List A) → All P xs → All P (drop n xs)
  All-drop P zero xs a = a
  All-drop P (suc n) [] a = tt
  All-drop P (suc n) (x ∷ xs) a = All-drop P n xs a.1

  pub get_or-append_right :
      (n k : ℕ) (d : A) (xs ys : List A)
      → length xs ≡ n
      → get_or (xs ++ ys) (n + k) d ≡ get_or ys k d
  get_or-append_right zero k d [] ys h = ap (λ j. get_or ys j d) (add.zero k)
  get_or-append_right zero k d (x ∷ xs) ys h = absurd (omega arith)
  get_or-append_right (suc n) k d [] ys h = absurd (omega arith)
  get_or-append_right (suc n) k d (x ∷ xs) ys h =
      rw (add.suc n k) (get_or-append_right n k d xs ys (omega arith))

  pub take-append_more :
      (n k : ℕ) (xs ys : List A) → length xs ≡ k → take (k + n) (xs ++ ys) ≡ xs ++ take n ys
  take-append_more n zero [] ys h = ap (λ j. take j ys) (add.zero n)
  take-append_more n zero (x ∷ xs) ys h = absurd (omega arith)
  take-append_more n (suc k) [] ys h = absurd (omega arith)
  take-append_more n (suc k) (x ∷ xs) ys h =
      rw (add.suc k n) (ap (λ t. x ∷ t) (take-append_more n k xs ys (omega arith)))
