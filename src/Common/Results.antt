-- ===== src/Common/Results.antt =====
-- Fallible code: an error or a value, and chains of such steps.
use mathlib.Core.Path.{◌≡◌, refl, subst}
use mathlib.Core.Bool.{Bool, true, false}
use mathlib.Core.Option.{Option, none, some}

pub data Result {ℓ κ} (E : Type ℓ) (A : Type κ) : Type (ℓ ⊔ κ) where
  ok : A → Result E A
  err : E → Result E A

module _ {ℓ κ} {E : Type ℓ} {A : Type κ} where
  -- An early return under a test: `if b { return …, e }`, and the code goes on otherwise.
  abbrev pub fail_if : Bool → E → Result E A → Result E A
  fail_if true e rest = err e
  fail_if false e rest = rest

  pub fail_if-ok :
      (b : Bool) (e : E) (rest : Result E A) {a : A}
      → fail_if b e rest ≡ ok a
      → (b ≡ false) × (rest ≡ ok a)
  fail_if-ok true e rest h = cc
  fail_if-ok false e rest h = (refl, h)

-- `if err := check; err != nil { return err }`, and the code goes on otherwise.
module _ {ℓ κ} {E : Type ℓ} {A : Type κ} where
  abbrev pub check : Option E → Result E A → Result E A
  check (some e) rest = err e
  check none rest = rest

  pub check-ok :
      (c : Option E) (rest : Result E A) {a : A} → check c rest ≡ ok a → (c ≡ none) × (rest ≡ ok a)
  check-ok (some e) rest h = cc
  check-ok none rest h = (refl, h)

  pub ok-injective : {a b : A} → ◌≡◌ {A = Result E A} (ok a) (ok b) → a ≡ b
  ok-injective h = cc

  -- What an accepted value satisfies is proved of the value that the code built.
  pub ok_subst {μ} : (P : A → Type μ) {a b : A} → ◌≡◌ {A = Result E A} (ok a) (ok b) → P a → P b
  ok_subst P h x = subst P (ok-injective h) x

infixl 5 ◌>>=◌
abbrev pub ◌>>=◌ {ℓ κ μ} :
    {E : Type ℓ} {A : Type κ} {B : Type μ} → Result E A → (A → Result E B) → Result E B
ok a >>= f = f a
err e >>= f = err e

pub >>=-ok {ℓ κ μ} :
    {E : Type ℓ} {A : Type κ} {B : Type μ} (m : Result E A) (f : A → Result E B) {b : B}
    → (m >>= f) ≡ ok b
    → (a : A) × (m ≡ ok a) × (f a ≡ ok b)
>>=-ok (ok a) f h = (a, refl, h)
>>=-ok (err e) f h = cc
