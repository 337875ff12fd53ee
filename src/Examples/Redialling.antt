-- ===== src/Examples/Redialling.antt =====
-- The redial cadence on concrete attempts.
use rendr.Common.{
  ℕ, ◌+◌, ◌*◌, ◌/◌, max, ◌≡◌, refl, inr, true, some, List, [], ◌∷◌, ◌++◌, arith, leb,
}
use rendr.Sched.Cadence.{
  Cadence, failed, new_cadence, ready, start, backoff_step, backoff_delay, backoff, ended, finish,
}
use rendr.Sched.Cadence.Runs.{
  fresh, starts, finishes, Reached-countdown, countdown, ready-finish_failed, refusals,
  refusals-fails, refusals_recovering,
}

-- A jitter in whole tenths.
abbrev tenths : ℕ → ℕ → ℕ
tenths d u = d * (8 + u) / 10

abbrev started : Cadence
started = record new_cadence { running = true; attempt = 1; last_start = 1000 }

-- The fourth failure in a row is followed by a pause of 4 s, or by the cap.
pauses : ((backoff_step 3 0) ≡ 4000000000) × (backoff_step 3 2000000000 ≡ 2000000000)
unfolding backoff_step
pauses = (refl, refl)

-- A result that comes twice is taken once.
Reached-countdown_example : 1 ∷ [] ≡ countdown 1
unfolding start ready finish ended backoff
Reached-countdown_example =
    Reached-countdown tenths
      (finishes 3000 1 failed 0 2 (finishes 2000 1 failed 0 2 (starts 1000 fresh refl)))

ready-finish_failed_example :
    (ready (finish tenths started 2000 1 failed 0 2).1 400000000).0
    ≡ leb (max 2000 (1000 + backoff_delay tenths 0 0 2)) 400000000
ready-finish_failed_example = ready-finish_failed tenths started 2000 0 2 400000000 refl refl

abbrev two_refusals : List (ℕ × ℕ × ℕ)
two_refusals = (0, 10, 1) ∷ (600000000, 600000010, 2) ∷ []

refusals-fails_example :
    let d =
      refusals tenths (two_refusals ++ (2000000000, 2000000010, 3) ∷ []) 4000000000 new_cadence in
    (d.fails ≡ 0 + 2 + 1)
    × (d.next_at ≡ some (max 2000000010 (2000000000 + backoff_delay tenths (0 + 2) 4000000000 3)))
refusals-fails_example =
    refusals-fails tenths two_refusals 2000000000 2000000010 3 4000000000 new_cadence refl refl
      (inr refl)

abbrev recovered : Cadence
recovered = record new_cadence { fails = 7; was_refused = true; recover_from = some 0 }

refusals_recovering_example :
    let d =
      refusals tenths (two_refusals ++ (2000000000, 2000000010, 3) ∷ []) 4000000000 recovered in
    (d.fails ≡ 1)
    × (d.next_at ≡ some (max 2000000010 (2000000000 + backoff_delay tenths 0 4000000000 3)))
refusals_recovering_example =
    refusals_recovering tenths two_refusals 2000000000 2000000010 3 0 4000000000 recovered refl refl
      (omega arith, (omega arith, (omega arith, tt)))
