-- ===== src/Examples/Deciding.antt =====
-- Runs of the evidence, the fate groups and the race.
use rendr.Common.{
  ℕ, ◌%◌, ◌<◌, ◌≡◌, refl, ◌≢◌, ◌⊎◌, Bool, true, false, Option, none, some, List, [], ◌∷◌, ◌++◌,
  arith, ◌==◌, take, All,
}
use rendr.Common.Int.{pos}
use rendr.Sched.Evidence.{
  Summary, classify, next_change, first_change, breakpoints, valued, within, same_evidence, before,
  classify-next_change, next_change-ne,
}
use rendr.Sched.Group.{
  group_first, one_per_group, firsts, none_used, Merged, group_first_lem, one_per_group-firsts,
}
use rendr.Sched.Race.{Race, behind, next, scan, start_at, next-none}

-- A sample at 100 and a loaded one at 150.
abbrev sampled : Summary
sampled = record { seen = true; mean = pos 30; n = 2; at = some 100; loaded_at = some 150 }

classify-next_change_example : classify sampled 130 40 ≡ classify sampled 120 40
classify-next_change_example = classify-next_change sampled 120 40 130 (omega arith) not_yet
  where
    not_yet : before 130 (next_change sampled 120 40) ≡ true
    not_yet =
        unfold next_change first_change breakpoints classify valued within same_evidence in refl

changes_then : next_change sampled 120 40 ≡ some 141
unfolding next_change first_change breakpoints classify valued within same_evidence
changes_then = refl

next_change-ne_example : (120 < 141) × (classify sampled 141 40 ≢ classify sampled 120 40)
next_change-ne_example = next_change-ne sampled 120 40 141 changes_then

-- Groups by the last digit.
abbrev by_digit : ℕ → ℕ
by_digit f = f % 10

by_digit-lt : (f : ℕ) → by_digit f < 256
by_digit-lt f = omega arith

one_per_group-firsts_example :
    one_per_group (11 ∷ 20 ∷ 21 ∷ 30 ∷ 12 ∷ 2 ∷ []) by_digit 3
    ≡ take 3 (firsts by_digit none_used (11 ∷ 20 ∷ 21 ∷ 30 ∷ 12 ∷ 2 ∷ []))
one_per_group-firsts_example =
    one_per_group-firsts (11 ∷ 20 ∷ 21 ∷ 30 ∷ 12 ∷ 2 ∷ []) by_digit 3 by_digit-lt

group_first_lem_example :
    ((◌≡◌ {A = ℕ} 1 0) × (group_first (11 ∷ 20 ∷ 21 ∷ 12 ∷ []) by_digit 1 ≡ 11 ∷ 20 ∷ 21 ∷ 12 ∷ []))
    ⊎ ((◌≢◌ {A = ℕ} 1 0)
        × (front : List ℕ) × (back : List ℕ) × (group_first (11 ∷ 20 ∷ 21 ∷ 12 ∷ []) by_digit 1
            ≡ front ++ back)
        × All (λ f. by_digit f ≢ 1) front
        × All (λ f. by_digit f ≡ 1) back
        × Merged front back (11 ∷ 20 ∷ 21 ∷ 12 ∷ []))
group_first_lem_example = group_first_lem (11 ∷ 20 ∷ 21 ∷ 12 ∷ []) by_digit 1

abbrev running : Race
running = record { order = 4 ∷ 7 ∷ 9 ∷ []; cursor = 2; stagger = 50; last = 1000; started = true }

-- Candidate 7 alone is ready.
abbrev seven : ℕ → Bool × Option ℕ
seven c = (c == 7, some 2000)

abbrev nobody : ℕ → Bool × Option ℕ
nobody c = (false, some 2000)

nobody_starts : (next running 1060 1 nobody).0.chosen ≡ none
unfolding next scan start_at
nobody_starts = refl

next-none_example : (nobody (behind running 1)).0 ≡ false
next-none_example = next-none running 1060 1 nobody 1 (omega arith) refl nobody_starts
