-- ===== src/Sched/Evidence.antt =====
-- The evidence of a factory's samples at a time: Classify and NextChange
-- (internal/sched/evidence.go). A time is a number of nanoseconds that no sum with a Duration
-- takes past its type, and `none` is the zero time.Time.
use rendr.Common.{
  ℕ, ◌+◌, ◌≤◌, ◌<◌, ◌≡◌, refl, sym, ap, ◌∙◌, ◌≢◌, inl, inr, Bool, true, false, not, ◌&&◌, Option,
  none, some, List, [], ◌∷◌, ◌++◌, arith, ltb, leb, if◌then◌else◌, Bool-cases, eq→==,
}
use rendr.Common.Int.{ℤ, pos, negsuc, positive, eq_int}
use rendr.Sched.Rank.{Evidence, EvState, ev_unknown, ev_fresh, ev_held, ev_stale}

-- The time-independent state of a factory's samples.
pub record Summary : Type 0 where
  pub seen : Bool
  pub mean : ℤ
  pub n : ℕ
  pub at : Option ℕ
  pub loaded_at : Option ℕ

abbrev is_set : Option ℕ → Bool
is_set none = false
is_set (some t) = true

unfoldable pub valued : Summary → Bool
valued s = ltb 0 s.n && positive s.mean && is_set s.at

-- `now - t <= fresh`, with the terms on the sides that keep them natural.
unfoldable pub within : ℕ → Option ℕ → ℕ → Bool
within now none fresh = false
within now (some t) fresh = leb now (t + fresh)

abbrev no_rtt : ℤ
no_rtt = pos 0

unfoldable pub classify : Summary → ℕ → ℕ → Evidence
classify s now fresh =
    if not s.seen
    then record { state = ev_unknown; rtt = no_rtt }
    else if valued s && within now s.at fresh
    then record { state = ev_fresh; rtt = s.mean }
    else if within now s.loaded_at fresh
    then record { state = ev_held; rtt = if valued s then s.mean else no_rtt }
    else record { state = ev_stale; rtt = no_rtt }

abbrev same_state : EvState → EvState → Bool
same_state ev_unknown ev_unknown = true
same_state ev_fresh ev_fresh = true
same_state ev_held ev_held = true
same_state ev_stale ev_stale = true
same_state _ _ = false

-- `==` on Evidence.
unfoldable pub same_evidence : Evidence → Evidence → Bool
same_evidence a b = same_state a.state b.state && eq_int a.rtt b.rtt

-- `t + fresh + 1`, the first time at which a sample of `t` is too old.
abbrev too_old : Option ℕ → ℕ → List ℕ
too_old none fresh = []
too_old (some t) fresh = (t + fresh + 1) ∷ []

abbrev sort_two : List ℕ → List ℕ
sort_two (a ∷ b ∷ []) = if ltb b a then b ∷ a ∷ [] else a ∷ b ∷ []
sort_two xs = xs

-- The array of NextChange.
unfoldable pub breakpoints : Summary → ℕ → List ℕ
breakpoints s fresh =
    sort_two ((if valued s then too_old s.at fresh else []) ++ too_old s.loaded_at fresh)

unfoldable pub first_change : Summary → ℕ → ℕ → List ℕ → Option ℕ
first_change s now fresh [] = none
first_change s now fresh (c ∷ rest) =
    if ltb now c && not (same_evidence (classify s c fresh) (classify s now fresh))
    then some c
    else first_change s now fresh rest

unfoldable pub next_change : Summary → ℕ → ℕ → Option ℕ
next_change s now fresh =
    if not s.seen then none else first_change s now fresh (breakpoints s fresh)

-- The time is before the one given, if one is.
abbrev pub before : ℕ → Option ℕ → Bool
before t none = true
before t (some c) = ltb t c

eq_int_refl : (a : ℤ) → eq_int a a ≡ true
eq_int_refl (pos a) = eq→== a a refl
eq_int_refl (negsuc a) = eq→== a a refl

by_fields :
    (seen : Bool) (mean : ℤ) (n : ℕ) (at loaded_at : Option ℕ) (now fresh t : ℕ)
    → now ≤ t
    → before t (
        next_change
          (record { seen = seen; mean = mean; n = n; at = at; loaded_at = loaded_at })
          now
          fresh)
      ≡ true
    → classify (record { seen = seen; mean = mean; n = n; at = at; loaded_at = loaded_at }) t fresh
      ≡ classify
          (record { seen = seen; mean = mean; n = n; at = at; loaded_at = loaded_at })
          now
          fresh
unfolding classify next_change first_change breakpoints valued within same_evidence
by_fields false mean n at loaded_at now fresh t le h = refl
by_fields true mean n none none now fresh t le h = ground (arith, eq_int_refl mean)
by_fields true mean n none (some q) now fresh t le h = ground (arith, eq_int_refl mean)
by_fields true mean n (some p) none now fresh t le h = ground (arith, eq_int_refl mean)
by_fields true mean n (some p) (some q) now fresh t le h = ground (arith, eq_int_refl mean)

-- Up to the time that NextChange names, and for ever if it names none, the evidence is that of
-- `now`.
pub classify-next_change :
    (s : Summary) (now fresh t : ℕ)
    → now ≤ t
    → before t (next_change s now fresh) ≡ true
    → classify s t fresh ≡ classify s now fresh
classify-next_change s now fresh t le h =
    by_fields s.seen s.mean s.n s.at s.loaded_at now fresh t le h

same_state_refl : (a : EvState) → same_state a a ≡ true
same_state_refl ev_unknown = refl
same_state_refl ev_fresh = refl
same_state_refl ev_held = refl
same_state_refl ev_stale = refl

same_evidence_refl : (a : Evidence) → same_evidence a a ≡ true
unfolding same_evidence
same_evidence_refl a = rw (same_state_refl a.state, eq_int_refl a.rtt) refl

first_change_lem :
    (s : Summary) (now fresh : ℕ) (cs : List ℕ) (c : ℕ)
    → first_change s now fresh cs ≡ some c
    → (now < c) × (same_evidence (classify s c fresh) (classify s now fresh) ≡ false)
unfolding first_change
first_change_lem s now fresh [] c h = cc
first_change_lem s now fresh (b ∷ rest) c h = ground (arith, first_change_lem s now fresh rest c)

-- The time that NextChange names is after `now`, and the evidence differs there.
pub next_change-ne :
    (s : Summary) (now fresh c : ℕ)
    → next_change s now fresh ≡ some c
    → (now < c) × (classify s c fresh ≢ classify s now fresh)
unfolding next_change
next_change-ne s now fresh c h = elim (Bool-cases s.seen) [
  | inr e ↦ cc (h, no_change e)
  | inl e ↦
      let (after, differs) = first_change_lem s now fresh (breakpoints s fresh) c (looked e) in
      (
        after,
        λ same. cc (
          differs,
          ap (λ x. same_evidence x (classify s now fresh)) same,
          same_evidence_refl (classify s now fresh),
        ),
      )
]
  where
    no_change : s.seen ≡ false → next_change s now fresh ≡ none
    no_change e = rw e refl

    looked : s.seen ≡ true → first_change s now fresh (breakpoints s fresh) ≡ some c
    looked e =
        sym (ap (λ b. if not b then none else first_change s now fresh (breakpoints s fresh)) e) ∙ h
