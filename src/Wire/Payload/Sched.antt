-- ===== src/Wire/Payload/Sched.antt =====
-- The SCHED payload and its carrier IDs (internal/wire/payload.go).
pub mod RoundTrip
use rendr.Common.{
  ℕ, zero, suc, ◌+◌, ◌-◌, ◌*◌, ◌^◌, ◌≤◌, ◌<◌, ◌≡◌, refl, ◌≢◌, inl, inr, Bool, false, ◌||◌, Option,
  none, List, [], ◌∷◌, ◌++◌, arith, ltb, ◌==◌, if◌then◌else◌, Bool-cases, ==-ne, ne→==, length,
  take, drop, replicate, All, All-append, byte, uint32, uint64, put_uint32, put_uint64, put_front,
  fail_if, check, ok, err,
}
use rendr.Wire.Const
use rendr.Wire.Errors.{Decoded, err_short, err_value}
use rendr.Wire.Payload.Tail.{exact_tail}

-- `ids` is the array `IDs [MaxSchedIDs]uint32`, of which the first `n` are used.
pub record Sched : Type 0 where
  pub epoch : ℕ
  pub death : ℕ
  pub quality : ℕ
  pub explicit : ℕ
  pub n : ℕ
  pub ids : List ℕ

flat : List ℕ → List ℕ
flat [] = []
flat (x ∷ xs) = put_uint32 x ++ flat xs

unfoldable pub layout_sched : Sched → List ℕ
unfolding flat
layout_sched s =
    put_uint32 s.epoch
    ++ (put_uint64 s.death
        ++ (put_uint64 s.quality ++ (put_uint64 s.explicit ++ s.n ∷ flat (take s.n s.ids))))

-- `none` is the panic on a count outside 1..MaxSchedIDs, or on a buffer that is too small.
unfoldable pub put_sched : List ℕ → Sched → Option (ℕ × List ℕ)
put_sched dst s =
    if ltb s.n 1 || ltb Const.max_sched_ids s.n then none else put_front dst (layout_sched s)

-- `for _, prev := range s.IDs[:i] { if prev == id … }`.
contains : List ℕ → ℕ → Bool
contains [] id = false
contains (prev ∷ rest) id = prev == id || contains rest id

-- The loop over the carrier IDs: `k` rounds are left, `i` were made, and `seen` is `s.IDs[:i]`.
read_ids : ℕ → List ℕ → ℕ → List ℕ → Decoded (List ℕ)
unfolding contains
read_ids zero p i seen = ok seen
read_ids (suc k) p i seen =
    let id = uint32 p (29 + 4 * i) in
    let rest = read_ids k p (i + 1) (seen ++ id ∷ []) in
    fail_if (id == 0) err_value (fail_if (contains seen id) err_value rest)

-- The record around the IDs that were read; those beyond them are zero.
abbrev with_ids : List ℕ → Decoded (List ℕ) → Decoded Sched
with_ids p (err e) = err e
with_ids p (ok ids) = ok (record {
  epoch = uint32 p 0;
  death = uint64 p 4;
  quality = uint64 p 12;
  explicit = uint64 p 20;
  n = byte p 28;
  ids = ids ++ replicate (Const.max_sched_ids - byte p 28) 0;
})

unfoldable pub parse_sched : List ℕ → Decoded Sched
unfolding read_ids
parse_sched p = fail_if (ltb (length p) Const.sched_fixed_len) err_short (
    fail_if (ltb (byte p 28) 1 || ltb Const.max_sched_ids (byte p 28)) err_value (
      check (exact_tail (length p - Const.sched_fixed_len) (4 * byte p 28))
        (with_ids p (read_ids (byte p 28) p 0 []))))

-- No ID occurs twice.
abbrev pub Distinct : List ℕ → Type 0
Distinct [] = Unit {0}
Distinct (x ∷ xs) = (All (λ y. x ≢ y) xs) × Distinct xs

-- A carrier ID is a non-zero uint32.
abbrev pub IsId : ℕ → Type 0
IsId x = (x ≢ 0) × (x < 2 ^ 32)

pub record IsValid (s : Sched) : Type 0 where
  pub epoch_fits : s.epoch < 2 ^ 32
  pub death_fits : s.death < 2 ^ 64
  pub quality_fits : s.quality < 2 ^ 64
  pub explicit_fits : s.explicit < 2 ^ 64
  pub n_in : (1 ≤ s.n) × (s.n ≤ 16)
  pub ids_length : length s.ids ≡ 16
  pub ids_good : All IsId (take s.n s.ids)
  pub ids_distinct : Distinct (take s.n s.ids)
  pub ids_rest : drop s.n s.ids ≡ replicate (16 - s.n) 0

length-flat : (xs : List ℕ) → length (flat xs) ≡ 4 * length xs
unfolding flat
length-flat [] = refl
length-flat (x ∷ xs) = omega (arith, length-flat xs)

not_contained :
    (seen : List ℕ) (x : ℕ) (rest : List ℕ) → Distinct (seen ++ x ∷ rest) → contains seen x ≡ false
unfolding contains
not_contained [] x rest d = refl
not_contained (y ∷ seen) x rest d = rw (ne→== y x (head seen d.0)) (not_contained seen x rest d.1)
  where
    head : (seen : List ℕ) → All (λ z. y ≢ z) (seen ++ x ∷ rest) → y ≢ x
    head [] a = a.0
    head (z ∷ seen) a = head seen a.1

Distinct-snoc :
    (seen : List ℕ) (x : ℕ) → Distinct seen → contains seen x ≡ false → Distinct (seen ++ x ∷ [])
unfolding contains
Distinct-snoc [] x d c = (tt, tt)
Distinct-snoc (y ∷ seen) x d c = elim (Bool-cases (y == x)) [
  | inl e ↦ cc (c, e)
  | inr e ↦ (
    All-append (λ z. y ≢ z) seen (x ∷ []) d.0 (==-ne y x e, tt),
    Distinct-snoc seen x d.1 (rw e at c),
  )
]
