-- ===== src/Sched/Race.antt =====
-- The staggered race of candidates: NewRace and Race.Next (internal/sched/race.go). A time is a
-- number of nanoseconds, and `none` is the zero time.Time.
use rendr.Common.{
  ℕ, zero, suc, ◌+◌, ◌%◌, ◌≤◌, ◌<◌, ◌≡◌, refl, sym, ap, ◌∙◌, subst, inl, inr, Bool, true, false,
  ◌&&◌, Option, none, some, List, arith, ltb, ◌==◌, if◌then◌else◌, Bool-cases, ne→==, length,
  get_or, take,
}
use native.Mathlib.Decide.{dec_lt}

pub record Race : Type 0 where
  pub order : List ℕ
  pub cursor : ℕ
  pub stagger : ℕ
  pub last : ℕ
  pub started : Bool

-- What Next answers: the candidate to start, and when the race wants to look again.
pub record Answer : Type 0 where
  pub chosen : Option ℕ
  pub wake : Option ℕ

-- The order is cut to the 16 places of the array.
unfoldable pub new_race : List ℕ → ℕ → Race
new_race order stagger = record {
  order = take 16 order;
  cursor = 0;
  stagger = stagger;
  last = 0;
  started = false;
}

abbrev pub earlier : Option ℕ → Option ℕ → Option ℕ
earlier none b = b
earlier (some a) none = some a
earlier (some a) (some b) = if ltb b a then some b else some a

-- `at.After(now)`.
abbrev pub after : Option ℕ → ℕ → Bool
after none now = false
after (some t) now = ltb now t

abbrev future : ℕ → Option ℕ → Option ℕ → Option ℕ
future now at wake = if after at now then earlier wake at else wake

-- The loop of Next, `left` candidates from the `k`-th behind the cursor on: the position that
-- starts, or the earliest readiness. `ready` is whether a candidate may start now, and when it can.
unfoldable pub scan : Race → ℕ → (ℕ → Bool × Option ℕ) → Option ℕ → ℕ → ℕ → Option ℕ × Option ℕ
scan r now ready wake k zero = (none, wake)
scan r now ready wake k (suc left) =
    let position = (r.cursor + k) % length r.order in
    let answer = ready (get_or r.order position 0) in
    if answer.0
    then (some position, none)
    else scan r now ready (future now answer.1 wake) (k + 1) left

unfoldable pub start_at : Race → ℕ → Option ℕ × Option ℕ → Answer × Race
start_at r now (none, wake) = (record { chosen = none; wake = wake }, r)
start_at r now (some position, wake) = (
  record { chosen = some (get_or r.order position 0); wake = some (now + r.stagger) },
  record r { cursor = (position + 1) % length r.order; last = now; started = true },
)

unfoldable pub next : Race → ℕ → ℕ → (ℕ → Bool × Option ℕ) → Answer × Race
next r now outstanding ready =
    let n = length r.order in
    if n == 0
    then (record { chosen = none; wake = none }, r)
    else if ltb 0 outstanding && (r.started && ltb now (r.last + r.stagger))
    then (record { chosen = none; wake = some (r.last + r.stagger) }, r)
    else start_at r now (scan r now ready none 0 n)

-- The candidate `k` places behind the cursor.
abbrev pub behind : Race → ℕ → ℕ
behind r k = get_or r.order ((r.cursor + k) % length r.order) 0

-- An attempt is in flight and its stagger has not passed.
abbrev pub waits : Race → ℕ → ℕ → Bool
waits r now outstanding = ltb 0 outstanding && (r.started && ltb now (r.last + r.stagger))

scan-none :
    (r : Race) (now : ℕ) (ready : ℕ → Bool × Option ℕ) (wake : Option ℕ) (k left j : ℕ)
    → (scan r now ready wake k left).0 ≡ none
    → k ≤ j
    → j < k + left
    → (ready (behind r j)).0 ≡ false
unfolding scan
scan-none r now ready wake k zero j h a b = absurd (omega arith)
scan-none r now ready wake k (suc left) j h a b = elim (Bool-cases (ready (behind r k)).0) [
  | inl e ↦ cc (sym (found e) ∙ h)
  | inr e ↦ elim (dec_lt k j) [
    | yes further ↦
        scan-none r now ready (future now (ready (behind r k)).1 wake) (k + 1) left j
          (sym (
              ap
                (λ b.
                  (if b
                    then (some ((r.cursor + k) % length r.order), none)
                    else scan r now ready (future now (ready (behind r k)).1 wake) (k + 1) left).0)
                e)
            ∙ h)
          (omega arith) (omega arith)
    | no here ↦ subst (λ i. (ready (behind r i)).0 ≡ false) {x = k} {y = j} (omega arith) e
  ]
]
  where
    found :
        (ready (behind r k)).0 ≡ true
        → (scan r now ready wake k (suc left)).0 ≡ some ((r.cursor + k) % length r.order)
    found e = rw e refl

start_at-none :
    (r : Race) (now : ℕ) (x : Option ℕ × Option ℕ) → (start_at r now x).0.chosen ≡ none → x.0 ≡ none
unfolding start_at
start_at-none r now (none, wake) h = refl
start_at-none r now (some p, wake) h = cc

module _ (r : Race) (now outstanding : ℕ) (ready : ℕ → Bool × Option ℕ) where
  -- What Next does, by whether there is a candidate and whether the stagger is awaited.
  next_cases : (empty waiting : Bool) → Answer × Race
  next_cases empty waiting =
      if empty
      then (record { chosen = none; wake = none }, r)
      else if waiting
      then (record { chosen = none; wake = some (r.last + r.stagger) }, r)
      else start_at r now (scan r now ready none 0 (length r.order))

  -- If none is started although no stagger is awaited, no candidate of the order is ready.
  pub next-none :
      (j : ℕ)
      → j < length r.order
      → waits r now outstanding ≡ false
      → (next r now outstanding ready).0.chosen ≡ none
      → (ready (behind r j)).0 ≡ false
  unfolding next next_cases
  next-none j some_left go h =
      scan-none r now ready none 0 (length r.order) j
        (start_at-none r now _ (
          sym (
            ap (λ x. x.0.chosen)
              (reaches (length r.order == 0) (waits r now outstanding)
                (ne→== (length r.order) 0 (omega arith)) go))
          ∙ h))
        (omega arith) (omega arith)
    where
      reaches :
          (empty waiting : Bool)
          → empty ≡ false
          → waiting ≡ false
          → next_cases empty waiting ≡ start_at r now (scan r now ready none 0 (length r.order))
      reaches empty waiting a b = rw (a, b) refl
