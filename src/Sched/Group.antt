-- ===== src/Sched/Group.antt =====
-- Fate groups: GroupFirst and OnePerGroup (internal/sched/group.go). A group is a uint8; the
-- result is returned, so the buffer that it is written to has no model.
use rendr.Common.{
  ℕ, zero, suc, ◌-◌, ◌/◌, ◌%◌, ◌^◌, ◌<◌, bit_or, ◌≡◌, refl, sym, ap, ◌∙◌, ◌≢◌, ◌⊎◌, inl, inr, Bool,
  false, not, ◌||◌, List, [], ◌∷◌, ◌++◌, arith, ◌==◌, if◌then◌else◌, Bool-cases, ==-eq, ==-ne,
  eq→==, ne→==, length, get_or, take, set, All,
}
use rendr.Common.Slots.{length-set, get_or-set, get_or-set_other, taken, taken-bit_or, taken_none}

-- One pass of GroupFirst over the candidates.
unfoldable pub select : (ℕ → Bool) → List ℕ → List ℕ
select keep [] = []
select keep (f ∷ rest) = if keep f then f ∷ select keep rest else select keep rest

unfoldable pub group_first : List ℕ → (ℕ → ℕ) → ℕ → List ℕ
group_first order group failed =
    if failed == 0
    then order
    else select (λ f. not (group f == failed)) order ++ select (λ f. group f == failed) order

-- `taken[g>>6]&(1<<(g&63)) != 0`.
unfoldable pub group_taken : List ℕ → ℕ → Bool
group_taken words g = taken (get_or words (g / 64) 0) (g % 64)

-- `taken[g>>6] |= 1 << (g & 63)`.
unfoldable pub take_group : List ℕ → ℕ → List ℕ
take_group words g = set words (g / 64) (bit_or (get_or words (g / 64) 0) (2 ^ (g % 64)))

-- The loop of OnePerGroup: `room` results may still be appended.
unfoldable pub one_per_group_from : List ℕ → (ℕ → ℕ) → ℕ → List ℕ → List ℕ
one_per_group_from [] group room taken = []
one_per_group_from (f ∷ rest) group room taken =
    if room == 0
    then []
    else if group f == 0
    then f ∷ one_per_group_from rest group (room - 1) taken
    else if group_taken taken (group f)
    then one_per_group_from rest group room taken
    else f ∷ one_per_group_from rest group (room - 1) (take_group taken (group f))

unfoldable pub one_per_group : List ℕ → (ℕ → ℕ) → ℕ → List ℕ
one_per_group order group most = one_per_group_from order group most (0 ∷ 0 ∷ 0 ∷ 0 ∷ [])

-- What is asked: the candidates that are of group 0 or the first of their group.
abbrev pub firsts : (ℕ → ℕ) → (ℕ → Bool) → List ℕ → List ℕ
firsts group used [] = []
firsts group used (f ∷ rest) =
    if group f == 0
    then f ∷ firsts group used rest
    else if used (group f)
    then firsts group used rest
    else f ∷ firsts group (λ g. g == group f || used g) rest

abbrev pub none_used : ℕ → Bool
none_used g = false

-- The bitmap says which groups are used.
record Marks (words : List ℕ) (used : ℕ → Bool) : Type 0 where
  four : length words ≡ 4
  says : (g : ℕ) → g < 256 → group_taken words g ≡ used g

take_group-Marks :
    (words : List ℕ) (used : ℕ → Bool) (g : ℕ)
    → Marks words used
    → g < 256
    → Marks (take_group words g) (λ j. j == g || used j)
unfolding take_group group_taken
take_group-Marks words used g m fits = record { four = length-set words _ _ ∙ m.four; says = says' }
  where
    new : ℕ
    new = bit_or (get_or words (g / 64) 0) (2 ^ (g % 64))

    says' : (j : ℕ) → j < 256 → group_taken (set words (g / 64) new) j ≡ (j == g || used j)
    says' j below = elim (Bool-cases (j / 64 == g / 64)) [
      | inl word ↦
          ap (λ i. taken (get_or (set words (g / 64) new) i 0) (j % 64))
            (==-eq (j / 64) (g / 64) word)
          ∙ ap (λ w. taken w (j % 64)) (get_or-set words (g / 64) new 0 (omega (arith, m.four)))
          ∙ taken-bit_or (get_or words (g / 64) 0) (g % 64) (j % 64)
          ∙ (elim (Bool-cases (j == g)) [
            | inl e ↦ rw (e, eq→== (j % 64) (g % 64) (omega (arith, ==-eq j g e))) refl
            | inr e ↦
                rw
                  (
                    e,
                    ne→== (j % 64) (g % 64)
                        (omega (arith, ==-ne j g e, ==-eq (j / 64) (g / 64) word)),
                  )
                  (ap (λ i. taken (get_or words i 0) (j % 64)) (sym (==-eq (j / 64) (g / 64) word))
                    ∙ m.says j below)
          ])
      | inr word ↦
          ap (λ w. taken w (j % 64))
            (get_or-set_other words (g / 64) (j / 64) new 0
              (λ e. ==-ne (j / 64) (g / 64) word (sym e)))
          ∙ m.says j below
          ∙ rw (ne→== j g (λ e. ==-ne (j / 64) (g / 64) word (ap (λ t. t / 64) e))) refl
    ]

one_per_group_from-firsts :
    (order : List ℕ) (group : ℕ → ℕ) (room : ℕ) (words : List ℕ) (used : ℕ → Bool)
    → ((f : ℕ) → group f < 256)
    → Marks words used
    → one_per_group_from order group room words ≡ take room (firsts group used order)
unfolding one_per_group_from
one_per_group_from-firsts [] group zero words used fits m = refl
one_per_group_from-firsts [] group (suc room) words used fits m = refl
one_per_group_from-firsts (f ∷ rest) group zero words used fits m = refl
one_per_group_from-firsts (f ∷ rest) group (suc room) words used fits m =
    rw (ne→== (suc room) 0 (omega arith), m.says (group f) (fits f))
      (elim (Bool-cases (group f == 0)) [
        | inl e ↦ rw e (
            ap (λ xs. f ∷ xs)
              (ap (λ r. one_per_group_from rest group r words) (one_less room)
                ∙ one_per_group_from-firsts rest group room words used fits m))
        | inr e ↦ rw e (elim (Bool-cases (used (group f))) [
          | inl old ↦ rw old (one_per_group_from-firsts rest group (suc room) words used fits m)
          | inr new ↦ rw new (
              ap (λ xs. f ∷ xs)
                (ap (λ r. one_per_group_from rest group r (take_group words (group f)))
                    (one_less room)
                  ∙ one_per_group_from-firsts rest group room (take_group words (group f))
                      (λ g. g == group f || used g) fits
                      (take_group-Marks words used (group f) m (fits f))))
        ])
      ])
  where
    one_less : (r : ℕ) → suc r - 1 ≡ r
    one_less r = omega arith

-- OnePerGroup returns the first `most` of the candidates that are of group 0 or the first of their
-- group in the order given, for every assignment of uint8 groups.
pub one_per_group-firsts :
    (order : List ℕ) (group : ℕ → ℕ) (most : ℕ)
    → ((f : ℕ) → group f < 256)
    → one_per_group order group most ≡ take most (firsts group none_used order)
unfolding one_per_group group_taken
one_per_group-firsts order group most fits =
    one_per_group_from-firsts order group most (0 ∷ 0 ∷ 0 ∷ 0 ∷ []) none_used fits
      (record { four = refl; says = says' })
  where
    says' : (g : ℕ) → g < 256 → taken (get_or (0 ∷ 0 ∷ 0 ∷ 0 ∷ []) (g / 64) 0) (g % 64) ≡ false
    says' g below = ap (λ w. taken w (g % 64)) (zeros (g / 64)) ∙ taken_none (g % 64)
      where
        zeros : (i : ℕ) → ◌≡◌ {A = ℕ} (get_or (0 ∷ 0 ∷ 0 ∷ 0 ∷ []) i 0) 0
        zeros zero = refl
        zeros (suc zero) = refl
        zeros (suc (suc zero)) = refl
        zeros (suc (suc (suc zero))) = refl
        zeros (suc (suc (suc (suc i)))) = refl

-- The third list is the first two merged, each in its sequence.
pub data Merged : List ℕ → List ℕ → List ℕ → Type 0 where
  nothing : Merged [] [] []
  of_first : {xs ys zs : List ℕ} (z : ℕ) → Merged xs ys zs → Merged (z ∷ xs) ys (z ∷ zs)
  of_second : {xs ys zs : List ℕ} (z : ℕ) → Merged xs ys zs → Merged xs (z ∷ ys) (z ∷ zs)

module _ (group : ℕ → ℕ) (failed : ℕ) where
  unfoldable others : List ℕ → List ℕ
  others order = select (λ f. not (group f == failed)) order

  unfoldable of_failed : List ℕ → List ℕ
  of_failed order = select (λ f. group f == failed) order

  others-All : (xs : List ℕ) → All (λ f. group f ≢ failed) (others xs)
  unfolding others select
  others-All [] = tt
  others-All (x ∷ xs) = elim (Bool-cases (group x == failed)) [
    | inl e ↦ rw e (others-All xs)
    | inr e ↦ rw e (==-ne (group x) failed e, others-All xs)
  ]

  of_failed-All : (xs : List ℕ) → All (λ f. group f ≡ failed) (of_failed xs)
  unfolding of_failed select
  of_failed-All [] = tt
  of_failed-All (x ∷ xs) = elim (Bool-cases (group x == failed)) [
    | inl e ↦ rw e (==-eq (group x) failed e, of_failed-All xs)
    | inr e ↦ rw e (of_failed-All xs)
  ]

  others-Merged : (xs : List ℕ) → Merged (others xs) (of_failed xs) xs
  unfolding others of_failed select
  others-Merged [] = nothing
  others-Merged (x ∷ xs) = elim (Bool-cases (group x == failed)) [
    | inl e ↦ rw e (of_second x (others-Merged xs))
    | inr e ↦ rw e (of_first x (others-Merged xs))
  ]

-- GroupFirst leaves the order as it is if the failed slot has no group. Otherwise it returns the
-- candidates that are not of the failed group and behind them those that are: the order is the two
-- merged, so that each keeps its sequence, and none is lost, added or repeated.
pub group_first_lem :
    (order : List ℕ) (group : ℕ → ℕ) (failed : ℕ)
    → ((failed ≡ 0) × (group_first order group failed ≡ order))
      ⊎ ((failed ≢ 0)
          × (front : List ℕ) × (back : List ℕ) × (group_first order group failed ≡ front ++ back)
          × All (λ f. group f ≢ failed) front
          × All (λ f. group f ≡ failed) back
          × Merged front back order)
unfolding group_first others of_failed
group_first_lem order group failed = elim (Bool-cases (failed == 0)) [
  | inl e ↦ rw e (inl (==-eq failed 0 e, refl))
  | inr e ↦ rw e (
      inr (
        ==-ne failed 0 e,
        others group failed order,
        of_failed group failed order,
        refl,
        others-All group failed order,
        of_failed-All group failed order,
        others-Merged group failed order,
      ))
]
