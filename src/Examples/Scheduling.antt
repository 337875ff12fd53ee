-- ===== src/Examples/Scheduling.antt =====
-- Runs of the scheduler's decisions.
use rendr.Common.{◌≡◌, ◌⊎◌, true, false, not, ◌&&◌, List, [], ◌∷◌, map, arith}
use rendr.Common.Int.{ℤ, pos, negsuc, pos_part}
use rendr.Sched.Insertion.{Same, Ordered, indices}
use rendr.Sched.Rank.{
  Candidate, ev_unknown, ev_fresh, ev_held, less, rank, positions, candidate_at, less_at, rank_lem,
  less_order,
}
use rendr.Sched.Lanes.{srtt_order, in_order, lane, srtt_order_lem}
use rendr.Sched.Rto.{rto_within, rto_within_lem}

abbrev unmeasured : Candidate
unmeasured = record {
  index = 0;
  ev = record { state = ev_unknown; rtt = pos 0 };
  failed = false;
  class = 0;
}

abbrev near : Candidate
near = record {
  index = 1;
  ev = record { state = ev_fresh; rtt = pos 20 };
  failed = false;
  class = 0;
}

abbrev far : Candidate
far = record { index = 2; ev = record { state = ev_held; rtt = pos 90 }; failed = false; class = 0 }

abbrev three : List Candidate
three = unmeasured ∷ far ∷ near ∷ []

rank_lem_example :
    Same (positions three) (indices 3)
    × Ordered (less_at three) (positions three)
    × (rank three ≡ map (λ p. (candidate_at three p).index) (positions three))
rank_lem_example = rank_lem three

less_order_example :
    (((less near far ≡ true) × (less far near ≡ false))
      ⊎ ((less near far ≡ false) × (less far near ≡ true)))
    × ((less near far && less far unmeasured && not (less near unmeasured)) ≡ false)
less_order_example = less_order near far unmeasured (omega arith)

abbrev lanes : List ℤ
lanes = pos 50 ∷ pos 0 ∷ pos 30 ∷ []

srtt_order_lem_example :
    Same (srtt_order lanes) (indices 3)
    × Ordered
        (λ a b. in_order (pos_part (lane lanes a)) (pos_part (lane lanes b)) a b)
        (srtt_order lanes)
srtt_order_lem_example = srtt_order_lem lanes

rto_within_lem_example : rto_within (pos 100) (negsuc 4) true 300 200 2000 ≡ 200
rto_within_lem_example = rto_within_lem (pos 100) (negsuc 4) true 300 200 2000 (omega arith)
