-- ===== src/Sched/Cadence/Runs.antt =====
-- Runs of the redial cadence (internal/sched/cadence.go): one attempt at a time, and how the pauses
-- between attempts grow.
use rendr.Common.{
  ℕ, zero, suc, ◌+◌, ◌*◌, ◌<◌, max, ◌≡◌, refl, sym, ap, ◌∙◌, ◌⊎◌, inl, inr, Bool, true, false, not,
  ◌||◌, none, some, List, [], ◌∷◌, ◌++◌, arith, leb, ◌==◌, if◌then◌else◌, lt→ltb, ==-eq, eq→==,
  if-cases, length, All,
}
use rendr.Sched.Cadence.{
  Cadence, Outcome, failed, refused, attached, new_cadence, recover_span, ready, start, kick,
  in_window, recovering, backoff_delay, backoff, ended, finish,
}

-- The attempts from the latest back to the first.
abbrev pub countdown : ℕ → List ℕ
countdown zero = []
countdown (suc n) = suc n ∷ countdown n

module _ {U : Type 0} (jitter : ℕ → U → ℕ) where
  -- The states that a slot's cadence goes through, with the ids whose results were taken, the latest
  -- first: attempts start when Ready allows it, results come at any time, with any id, any number
  -- of times.
  pub data Reached : Cadence → List ℕ → Type 0 where
    fresh : Reached new_cadence []
    starts :
        {c : Cadence} {taken : List ℕ} (now : ℕ)
        → Reached c taken
        → (ready c now).0 ≡ true
        → Reached (start c now) taken
    finishes :
        {c : Cadence} {taken : List ℕ} (now id : ℕ) (o : Outcome) (max_wait : ℕ) (u : U)
        → Reached c taken
        → Reached
            (finish jitter c now id o max_wait u).1
            (if (finish jitter c now id o max_wait u).0 then id ∷ taken else taken)
    kicks : {c : Cadence} {taken : List ℕ} → Reached c taken → Reached (kick c) taken

  ended-attempt :
      (c : Cadence) (now : ℕ) (o : Outcome) (max_wait : ℕ) (u : U)
      → ((ended jitter c now o max_wait u).attempt ≡ c.attempt)
        × ((ended jitter c now o max_wait u).running ≡ c.running)
  unfolding ended backoff
  ended-attempt c now failed max_wait u = (refl, refl)
  ended-attempt c now refused max_wait u = (refl, refl)
  ended-attempt c now attached max_wait u = (refl, refl)

  ready-stopped : (c : Cadence) (now : ℕ) → (ready c now).0 ≡ true → c.running ≡ false
  unfolding ready
  ready-stopped c now e = ground (arith, e)

  -- In every run the attempts are numbered from 1, no two are in flight, and each attempt's result is
  -- taken exactly once and in order: the ids whose results were taken are, latest first, those of
  -- all the attempts started, but for the latest while it is running.
  pub Reached-countdown :
      {c : Cadence} {taken : List ℕ}
      → Reached c taken
      → (if c.running then c.attempt ∷ taken else taken) ≡ countdown c.attempt
  unfolding start finish kick
  Reached-countdown fresh = refl
  Reached-countdown (starts {c = c} {taken = taken} now r e) =
      ap (λ t. suc c.attempt ∷ t)
        (ap (λ b. if b then c.attempt ∷ taken else taken) (sym (ready-stopped c now e))
          ∙ Reached-countdown r)
  Reached-countdown (finishes {c = c} {taken = taken} now id o max_wait u r) =
      let k = Reached-countdown r in
      if-cases {A = Bool × Cadence}
        (λ r.
          (if r.1.running
            then r.1.attempt ∷ (if r.0 then id ∷ taken else taken)
            else if r.0
            then id ∷ taken
            else taken)
          ≡ countdown r.1.attempt)
        (not c.running || not (id == c.attempt)) (false, c)
        (true, ended jitter (record c { running = false }) now o max_wait u) (λ e. k)
        (λ e.
          let (a, b) = ended-attempt (record c { running = false }) now o max_wait u in
          rw (a, b, ==-eq id c.attempt (current c.running (id == c.attempt) e))
            (ap (λ b. if b then c.attempt ∷ taken else taken) (sym (runs c.running _ e)) ∙ k))
    where
      runs : (b d : Bool) → (not b || d) ≡ false → b ≡ true
      runs true d q = refl
      runs false d q = absurd cc

      current : (b d : Bool) → (not b || not d) ≡ false → d ≡ true
      current true true q = refl
      current true false q = absurd cc
      current false d q = absurd cc
  Reached-countdown (kicks {c = c} r) = Reached-countdown r

  -- When an attempt that failed is followed by no Kick, the next may start once both its end and
  -- the pause, counted from its start, are over, and not before: that is what Ready says.
  pub ready-finish_failed :
      (c : Cadence) (now max_wait : ℕ) (u : U) (t : ℕ)
      → c.running ≡ true
      → c.immediate ≡ false
      → (ready (finish jitter c now c.attempt failed max_wait u).1 t).0
        ≡ leb (max now (c.last_start + backoff_delay jitter c.fails max_wait u)) t
  unfolding ready finish ended backoff
  ready-finish_failed c now max_wait u t e i =
      rw (e, eq→== c.attempt c.attempt refl, i) (ground arith)

  -- Attempts one after the other that are all refused: each starts, and ends, at a time.
  unfoldable pub refusals : List (ℕ × ℕ × U) → ℕ → Cadence → Cadence
  refusals [] max_wait c = c
  refusals ((from, to, u) ∷ l) max_wait c =
      refusals l max_wait (finish jitter (start c from) to (suc c.attempt) refused max_wait u).1

  -- `resets`: the refusal is the first since the slot attached, or inside the recovery window.
  refused_once :
      (c : Cadence) (from to max_wait : ℕ) (u : U) (resets : Bool)
      → c.kicked ≡ false
      → (not c.was_refused || in_window c.recover_from from max_wait) ≡ resets
      → (let d = (finish jitter (start c from) to (suc c.attempt) refused max_wait u).1 in
          (d.kicked ≡ false)
          × (d.recover_from ≡ c.recover_from)
          × (d.was_refused ≡ true)
          × (d.fails ≡ suc (if resets then 0 else c.fails))
          × (d.next_at
              ≡ some (
                  max to (from + backoff_delay jitter (if resets then 0 else c.fails) max_wait u))))
  unfolding finish start ended backoff recovering
  refused_once c from to max_wait u resets k e =
      rw (k, eq→== (suc c.attempt) (suc c.attempt) refl, e)
        (refl, refl, refl, refl, ap some (ground arith))

  -- Outside every recovery window a refusal counts, whether or not it is the first.
  one_refusal :
      (c : Cadence) (from to max_wait : ℕ) (u : U)
      → c.kicked ≡ false
      → c.recover_from ≡ none
      → (c.was_refused ≡ true) ⊎ (c.fails ≡ 0)
      → (let d = (finish jitter (start c from) to (suc c.attempt) refused max_wait u).1 in
          (d.kicked ≡ false)
          × (d.recover_from ≡ c.recover_from)
          × (d.was_refused ≡ true)
          × (d.fails ≡ suc c.fails)
          × (d.next_at ≡ some (max to (from + backoff_delay jitter c.fails max_wait u))))
  unfolding in_window
  one_refusal c from to max_wait u k r w =
      let (k', r', w', f', n') = refused_once c from to max_wait u (not c.was_refused) k window in
      (
        k',
        r',
        w',
        f' ∙ ap (λ n. suc n) before,
        n' ∙ ap (λ n. some (max to (from + backoff_delay jitter n max_wait u))) before,
      )
    where
      or_false : (b : Bool) → (b || false) ≡ b
      or_false true = refl
      or_false false = refl

      window : (not c.was_refused || in_window c.recover_from from max_wait) ≡ not c.was_refused
      window =
          ap (λ y. not c.was_refused || in_window y from max_wait) r ∙ or_false (not c.was_refused)

      before : (if not c.was_refused then 0 else c.fails) ≡ c.fails
      before = by_case w
        where
          by_case :
              (c.was_refused ≡ true) ⊎ (c.fails ≡ 0)
              → (if not c.was_refused then 0 else c.fails) ≡ c.fails
          by_case (inl e) = rw e refl
          by_case (inr e) = ground (arith, e)

  -- A slot with no Kick pending and no recovery window, that was refused before or has no failure
  -- yet, counts every refusal as a failure: each refusal of a row raises the count by one, and the
  -- next attempt is due at the end of the last one or, if that is later, the pause of the count
  -- before it behind its start.
  pub refusals-fails :
      (l : List (ℕ × ℕ × U)) (from to : ℕ) (u : U) (max_wait : ℕ) (c : Cadence)
      → c.kicked ≡ false
      → c.recover_from ≡ none
      → (c.was_refused ≡ true) ⊎ (c.fails ≡ 0)
      → (let d = refusals (l ++ (from, to, u) ∷ []) max_wait c in
          (d.fails ≡ c.fails + length l + 1)
          × (d.next_at
              ≡ some (max to (from + backoff_delay jitter (c.fails + length l) max_wait u))))
  unfolding refusals
  refusals-fails [] from to u max_wait c k r w =
      let (k', r', w', f', n') = one_refusal c from to max_wait u k r w in
      (
        omega (arith, f'),
        n' ∙ ap (λ n. some (max to (from + backoff_delay jitter n max_wait u))) (omega arith),
      )
  refusals-fails ((from', to', u') ∷ l) from to u max_wait c k r w =
      let (k', r', w', f', n') = one_refusal c from' to' max_wait u' k r w in
      let (f, n) =
        refusals-fails l from to u max_wait
          (finish jitter (start c from') to' (suc c.attempt) refused max_wait u').1 k' (r' ∙ r)
          (inl w') in
      (
        omega (arith, f, f'),
        n ∙ ap (λ n. some (max to (from + backoff_delay jitter n max_wait u))) (omega (arith, f')),
      )

  inside :
      (c : Cadence) (from max_wait opened : ℕ)
      → c.recover_from ≡ some opened
      → from < opened + recover_span * max_wait
      → (not c.was_refused || in_window c.recover_from from max_wait) ≡ true
  unfolding in_window
  inside c from max_wait opened r w =
      ap (λ y. not c.was_refused || in_window y from max_wait) r
      ∙ ap (λ b. not c.was_refused || b) (lt→ltb from (opened + recover_span * max_wait) w)
      ∙ or_true (not c.was_refused)
    where
      or_true : (b : Bool) → (b || true) ≡ true
      or_true true = refl
      or_true false = refl

  -- With no Kick pending, refusals of attempts that all start inside a recovery window, of which
  -- there is at least one, leave the count at 1 whatever it was, and the next attempt is due at the end of the last one or,
  -- if that is later, the first pause behind its start: the slot keeps redialling at that pause.
  pub refusals_recovering :
      (l : List (ℕ × ℕ × U)) (from to : ℕ) (u : U) (opened max_wait : ℕ) (c : Cadence)
      → c.kicked ≡ false
      → c.recover_from ≡ some opened
      → All (λ a. a.0 < opened + recover_span * max_wait) (l ++ (from, to, u) ∷ [])
      → (let d = refusals (l ++ (from, to, u) ∷ []) max_wait c in
          (d.fails ≡ 1) × (d.next_at ≡ some (max to (from + backoff_delay jitter 0 max_wait u))))
  unfolding refusals
  refusals_recovering [] from to u opened max_wait c k r w =
      let (k', r', w', f', n') =
        refused_once c from to max_wait u true k (inside c from max_wait opened r w.0) in
      (f', n')
  refusals_recovering ((from', to', u') ∷ l) from to u opened max_wait c k r w =
      let (k', r', w', f', n') =
        refused_once c from' to' max_wait u' true k (inside c from' max_wait opened r w.0) in
      refusals_recovering l from to u opened max_wait
        (finish jitter (start c from') to' (suc c.attempt) refused max_wait u').1 k' (r' ∙ r) w.1
