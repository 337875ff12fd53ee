-- ===== src/Examples/Payloads.antt =====
-- Runs of the payload codecs that carry a session's opening and scheduling.
use rendr.Common.{
  ℕ, ◌≤◌, ◌≡◌, refl, inr, some, List, [], ◌∷◌, ◌++◌, arith, take, drop, replicate, all_zero, ok,
}
use rendr.Common.Int.{pos}
use rendr.Examples.{id16, bytes}
use rendr.Wire.Payload.Tail.{exact_tail}
use rendr.Wire.Payload.Open
use rendr.Wire.Payload.OpenAck
use rendr.Wire.Payload.Join
use rendr.Wire.Payload.Sched
use rendr.Wire.Payload.Sched.RoundTrip

abbrev opening : Open.Open
opening = record {
  sid = id16;
  kind = 2;
  mode = 1;
  flags = 0;
  retain_ms = 500;
  window = 1400;
  pmtu = 1200;
  metadata = 65 ∷ 66 ∷ [];
}

opening-IsValid : Open.IsValid opening
unfolding all_zero
opening-IsValid = record {
  sid_length = refl;
  sid_bytes = bytes id16 refl;
  sid_nonzero = refl;
  mode_in = (omega arith, omega arith);
  retain_fits = omega arith;
  window_fits = omega arith;
  metadata_bytes = bytes opening.metadata refl;
  metadata_fits = omega arith;
  by_kind = inr (refl, refl, omega arith, omega arith, inr (omega arith, omega arith));
}

parse_open-put_open_example :
    (d : List ℕ) × (Open.put_open (replicate 35 9) opening ≡ some (34, d))
    × (Open.parse_open (take 34 d) (pos 16) ≡ ok opening)
    × (drop 34 d ≡ 9 ∷ [])
parse_open-put_open_example =
    Open.parse_open-put_open (replicate 35 9) opening (pos 16) opening-IsValid (omega arith)
      (omega arith)

opening_bytes : List ℕ
opening_bytes =
    id16 ++ 2 ∷ 1 ∷ 0 ∷ 0 ∷ 0 ∷ 0 ∷ 1 ∷ 244 ∷ 0 ∷ 0 ∷ 5 ∷ 120 ∷ 4 ∷ 176 ∷ 0 ∷ 2 ∷ 65 ∷ 66 ∷ []

opening_bytes-parsed : Open.parse_open opening_bytes (pos 16) ≡ ok opening
unfolding Open.parse_open Open.read_open Open.check_open exact_tail opening_bytes
opening_bytes-parsed = refl

layout_open-parse_open_example :
    Open.IsValid opening × (2 ≤ 16) × (Open.layout_open opening ≡ opening_bytes)
unfolding opening_bytes
layout_open-parse_open_example =
    Open.layout_open-parse_open opening_bytes (pos 16) opening (bytes opening_bytes refl)
      opening_bytes-parsed

abbrev refusal : OpenAck.OpenAck
refusal = record { status = 3; window = 77; code = 9; msg = 110 ∷ 111 ∷ [] }

refusal-IsValid : OpenAck.IsValid refusal
refusal-IsValid = record {
  status_known = omega arith;
  window_fits = omega arith;
  code_fits = omega arith;
  msg_bytes = bytes refusal.msg refl;
  msg_fits = omega arith;
}

refusal_bytes : List ℕ
refusal_bytes = 3 ∷ 0 ∷ 0 ∷ 0 ∷ 0 ∷ 0 ∷ 0 ∷ 0 ∷ 9 ∷ 2 ∷ 110 ∷ 111 ∷ []

abbrev refused : OpenAck.OpenAck
refused = record refusal { window = 0 }

refusal_bytes-parsed : OpenAck.parse_open_ack refusal_bytes ≡ ok refused
unfolding OpenAck.parse_open_ack OpenAck.read_open_ack OpenAck.check_open_ack exact_tail
    refusal_bytes
refusal_bytes-parsed = refl

abbrev joining : Join.Join
joining = record { sid = id16; mode = 3; rx_next = 258 }

joining-IsValid : Join.IsValid joining
unfolding all_zero
joining-IsValid = record {
  sid_length = refl;
  sid_bytes = bytes id16 refl;
  sid_nonzero = refl;
  mode_in = (omega arith, omega arith);
  rx_next_fits = omega arith;
}

abbrev two_ids : Sched.Sched
two_ids = record {
  epoch = 1;
  death = 2;
  quality = 3;
  explicit = 4;
  n = 2;
  ids = 10 ∷ 11 ∷ replicate 14 0;
}

two_ids-IsValid : Sched.IsValid two_ids
two_ids-IsValid = record {
  epoch_fits = omega arith;
  death_fits = omega arith;
  quality_fits = omega arith;
  explicit_fits = omega arith;
  n_in = (omega arith, omega arith);
  ids_length = refl;
  ids_good = ((omega arith, omega arith), ((omega arith, omega arith), tt));
  ids_distinct = ((omega arith, tt), (tt, tt));
  ids_rest = refl;
}

two_ids_bytes : List ℕ
two_ids_bytes =
    0
    ∷ 0
    ∷ 0
    ∷ 1
    ∷ (replicate 7 0
        ++ 2
          ∷ (replicate 7 0 ++ 3 ∷ (replicate 7 0 ++ 4 ∷ 2 ∷ 0 ∷ 0 ∷ 0 ∷ 10 ∷ 0 ∷ 0 ∷ 0 ∷ 11 ∷ [])))

two_ids_bytes-parsed : Sched.parse_sched two_ids_bytes ≡ ok two_ids
unfolding Sched.parse_sched exact_tail two_ids_bytes
two_ids_bytes-parsed = refl

layout_sched-parse_sched_example :
    Sched.IsValid two_ids × (Sched.layout_sched two_ids ≡ two_ids_bytes)
unfolding two_ids_bytes
layout_sched-parse_sched_example =
    RoundTrip.layout_sched-parse_sched two_ids_bytes two_ids (bytes two_ids_bytes refl)
      two_ids_bytes-parsed
