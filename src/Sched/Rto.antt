-- ===== src/Sched/Rto.antt =====
-- The retransmission timeout of the reliable control sublayer (internal/sched/rto.go). A Duration
-- is a number of nanoseconds below 2^63 in size; the arguments that no caller passes a negative
-- value for, which are the clamp and the timeout before the first sample, are natural numbers.
use rendr.Common.{
  ℕ, ◌+◌, ◌-◌, ◌*◌, ◌/◌, ◌%◌, ◌^◌, ◌≤◌, ◌<◌, min, max, ◌≡◌, ap, inl, inr, Bool, not, ◌||◌, arith,
  ltb, leb, ◌==◌, if◌then◌else◌, Bool-cases, ltb→lt, ltb→le, ne→==, pow_pos,
}
use rendr.Common.Int.{ℤ, pos, negsuc, pos_part}
use native.Mathlib.Nat.{div-lt_iff_lt-mul, le-div_iff_mul-le}

abbrev rto_min : ℕ
rto_min = 200 * 1000000

abbrev rto_max : ℕ
rto_max = 2000 * 1000000

abbrev rto_initial : ℕ
rto_initial = 300 * 1000000

-- The sum is one of 64 bits.
unfoldable pub rto_within : ℤ → ℤ → Bool → ℕ → ℕ → ℕ → ℕ
rto_within srtt rttvar sampled initial lo hi =
    let s = pos_part srtt in
    let v = pos_part rttvar in
    if not sampled
    then initial
    else if leb hi s || ltb ((hi - s) / 4) v
    then hi
    else min (max ((s + 4 * v) % 2 ^ 64) lo) hi

unfoldable pub rto : ℤ → ℤ → Bool → ℕ
rto srtt rttvar sampled = rto_within srtt rttvar sampled rto_initial rto_min rto_max

-- A shift by 64 or more leaves 0, as the remainder does.
unfoldable pub rto_backoff_within : ℤ → ℤ → ℕ → ℤ
rto_backoff_within (negsuc r) n hi = negsuc r
rto_backoff_within (pos r) n hi =
    if r == 0
    then pos r
    else if ltb (hi / 2 ^ pos_part n) r
    then pos hi
    else pos (r * 2 ^ pos_part n % 2 ^ 64)

unfoldable pub rto_backoff : ℤ → ℤ → ℤ
rto_backoff r n = rto_backoff_within r n rto_max

unfoldable pub rtt_var : ℤ → ℤ → ℤ → Bool → ℕ
rtt_var rttvar srtt rtt first =
    let r = pos_part rtt in
    let v = pos_part rttvar in
    let s = pos_part srtt in
    let d = (if ltb s r then r - s else s - r) in
    if first then r / 2 else 3 * (v / 4) + d / 4 + (3 * (v % 4) + d % 4) / 4

-- Once there is a sample the timeout is the exact sum of srtt and four times rttvar, each taken
-- as 0 if it is negative, raised to `lo` and cut at `hi`, for every `hi` that a Duration holds: no
-- sum overflows. Before the first sample it is `initial`.
pub rto_within_lem :
    (srtt rttvar : ℤ) (sampled : Bool) (initial lo hi : ℕ)
    → hi < 2 ^ 63
    → rto_within srtt rttvar sampled initial lo hi
      ≡ (if sampled then min (max (pos_part srtt + 4 * pos_part rttvar) lo) hi else initial)
unfolding rto_within
rto_within_lem srtt rttvar sampled initial lo hi h = ground arith

-- The timeout always lies between RTOMin and RTOMax.
pub rto_bounds :
    (srtt rttvar : ℤ) (sampled : Bool)
    → (200000000 ≤ rto srtt rttvar sampled) × (rto srtt rttvar sampled ≤ 2000000000)
unfolding rto
rto_bounds srtt rttvar sampled =
    rw (rto_within_lem srtt rttvar sampled 300000000 200000000 2000000000 (omega arith))
      (ground arith, ground arith)

-- The test on the quotient decides whether the product exceeds `hi`.
cut :
    (r a hi : ℕ)
    → 0 < a
    → hi < 2 ^ 63
    → (if ltb (hi / a) r then pos hi else pos (r * a % 2 ^ 64)) ≡ pos (min (r * a) hi)
cut r a hi p h = elim (Bool-cases (ltb (hi / a) r)) [
  | inl e ↦
      let over : hi < r * a = (div-lt_iff_lt-mul p).0 (ltb→lt (hi / a) r e) in
      rw e (ap pos (omega arith))
  | inr e ↦
      let within : r * a ≤ hi = (le-div_iff_mul-le p).0 (ltb→le (hi / a) r e) in
      rw e (ap pos (omega arith))
]

-- The timeout of the n-th retransmission of a positive timeout is the exact power-of-two multiple,
-- cut at `hi`, for every `n` and every `hi` that a Duration holds; a negative `n` counts as 0.
pub rto_backoff_within_lem :
    (r : ℕ) (n : ℤ) (hi : ℕ)
    → 0 < r
    → hi < 2 ^ 63
    → rto_backoff_within (pos r) n hi ≡ pos (min (r * 2 ^ pos_part n) hi)
unfolding rto_backoff_within
rto_backoff_within_lem r n hi p h =
    rw (ne→== r 0 (omega arith)) (cut r (2 ^ pos_part n) hi (pow_pos (pos_part n)) h)

-- The next RTTVAR is the floor of three quarters of the old one and a quarter of the distance of
-- srtt and rtt, or half of rtt for the first sample; computed by quarters it never overflows.
pub rtt_var_lem :
    (rttvar srtt rtt : ℕ) (first : Bool)
    → rttvar < 2 ^ 63
    → srtt < 2 ^ 63
    → rtt < 2 ^ 63
    → (rtt_var (pos rttvar) (pos srtt) (pos rtt) first
        ≡ (if first then rtt / 2 else (3 * rttvar + max (srtt - rtt) (rtt - srtt)) / 4))
      × (rtt_var (pos rttvar) (pos srtt) (pos rtt) first < 2 ^ 63)
unfolding rtt_var
rtt_var_lem rttvar srtt rtt first hv hs hr = ground arith
