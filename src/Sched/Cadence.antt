-- ===== src/Sched/Cadence.antt =====
-- The redial cadence of a slot (internal/sched/cadence.go). Times and durations are nanoseconds on
-- one clock; a zero time.Time is `none`; a cap of 0 stands for any that is not positive. The float
-- product with the jitter is a parameter, `jitter d u` for the duration d and the sample u.
pub mod Runs
use rendr.Common.{
  ℕ, suc, ◌+◌, ◌*◌, ◌^◌, max, Bool, true, false, not, ◌&&◌, ◌||◌, Option, none, some, ltb, leb,
  ◌==◌, if◌then◌else◌,
}

abbrev pub backoff_base : ℕ
backoff_base = 500000000

abbrev pub max_backoff_shift : ℕ
max_backoff_shift = 32

abbrev pub recover_span : ℕ
recover_span = 4

-- The step before the jitter: the cap is applied to it.
unfoldable pub backoff_step : ℕ → ℕ → ℕ
backoff_step n max =
    let d = backoff_base * 2 ^ (if ltb max_backoff_shift n then max_backoff_shift else n) in
    if ltb 0 max && ltb max d then max else d

pub data Outcome : Type 0 where
  failed : Outcome
  refused : Outcome
  attached : Outcome

pub record Cadence : Type 0 where
  pub fails : ℕ
  pub running : Bool
  pub immediate : Bool
  pub attempt : ℕ
  pub last_start : ℕ
  pub next_at : Option ℕ
  pub was_refused : Bool
  pub kicked : Bool
  pub recover_from : Option ℕ

-- The zero Cadence, of a slot that never dialled.
abbrev pub new_cadence : Cadence
new_cadence = record {
  fails = 0;
  running = false;
  immediate = false;
  attempt = 0;
  last_start = 0;
  next_at = none;
  was_refused = false;
  kicked = false;
  recover_from = none;
}

-- `!now.Before(at)`, and true for a zero time.
abbrev pub reached_by : Option ℕ → ℕ → Bool
reached_by none now = true
reached_by (some t) now = leb t now

-- Whether an attempt may start, and if not and none is running, when.
unfoldable pub ready : Cadence → ℕ → Bool × Option ℕ
ready c now =
    if c.running
    then (false, none)
    else (if c.immediate || reached_by c.next_at now then (true, none) else (false, c.next_at))

unfoldable pub start : Cadence → ℕ → Cadence
start c now = record c {
  running = true;
  immediate = false;
  kicked = false;
  recover_from = if c.kicked then some now else c.recover_from;
  attempt = suc c.attempt;
  last_start = now;
}

unfoldable pub in_window : Option ℕ → ℕ → ℕ → Bool
in_window none last max = false
in_window (some from) last max = ltb last (from + recover_span * max)

unfoldable pub recovering : Cadence → ℕ → Bool
recovering c max = in_window c.recover_from c.last_start max

unfoldable pub kick : Cadence → Cadence
kick c = record c { immediate = true; kicked = if ltb 0 c.attempt then true else c.kicked }

module _ {U : Type 0} (jitter : ℕ → U → ℕ) where
  unfoldable pub backoff_delay : ℕ → ℕ → U → ℕ
  backoff_delay n max u = jitter (backoff_step n max) u

  unfoldable pub backoff : Cadence → ℕ → ℕ → U → Cadence
  backoff c now max_wait u =
      let next = c.last_start + backoff_delay c.fails max_wait u in
      record c { next_at = some (if ltb next now then now else next); fails = suc c.fails }

  -- What an outcome does to an attempt that has ended.
  unfoldable pub ended : Cadence → ℕ → Outcome → ℕ → U → Cadence
  ended c now failed max_wait u = backoff c now max_wait u
  ended c now refused max_wait u =
      let n = if not c.was_refused || recovering c max_wait then 0 else c.fails in
      backoff (record c { fails = n; was_refused = true }) now max_wait u
  ended c now attached max_wait u = record c {
    fails = 0;
    was_refused = false;
    kicked = false;
    recover_from = none;
    next_at = none;
  }

  -- Whether the result of attempt `id` is taken, and the state.
  unfoldable pub finish : Cadence → ℕ → ℕ → Outcome → ℕ → U → Bool × Cadence
  finish c now id o max_wait u =
      if not c.running || not (id == c.attempt)
      then (false, c)
      else (true, ended (record c { running = false }) now o max_wait u)
