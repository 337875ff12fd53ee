-- ===== src/Carrier/Receiver/Order/Steps.antt =====
-- The frames that a REL in order releases.
use rendr.Common.{
  ℕ, zero, suc, ◌+◌, ◌%◌, ◌^◌, ◌≤◌, ◌<◌, ◌≡◌, refl, ap, ◌∙◌, ◌⊎◌, inl, inr, Bool, true, false, List,
  arith, if◌then◌else◌, Bool-cases, get_or, ok,
}
use rendr.Wire.Payload.Rel.{RelHead, parse_rel}
use rendr.Common.Slots.{taken}
use rendr.Carrier.Receiver.{
  RelReceiver, Dispatched, nothing_held, dispatch_at, dispatch_held, rel_advance, drain,
}
use rendr.Carrier.Receiver.Order.{Numbered, Delivers, here, next, Delivers-trans, Inv}
use rendr.Carrier.Receiver.Order.Moves.{joined, joined_same, slot_of, advance-Inv}

module _ {S : Type 0} (mux : Bool) (closed : S → Bool)
    (dispatch : S → RelHead → List ℕ → ℕ → Dispatched S) (first : ℕ) (payload : ℕ → List ℕ)
    (head : ℕ → RelHead) (inner : ℕ → List ℕ) where
  -- From the state `s` behind the n-th frame on, the dispatch of each frame in its turn, under
  -- whatever frame number, lets the reader continue.
  abbrev pub Obeys : ℕ → S → Type 0
  Obeys n s =
      (k : ℕ) (t : S) (fseq : ℕ)
      → Delivers dispatch head inner n s k t
      → (dispatch t (head (k + 1)) (inner (k + 1)) fseq).continues ≡ true

  -- From the state `s` behind the n-th frame on, no dispatch of the frames in their turn closes.
  abbrev pub Never : ℕ → S → Type 0
  Never n s = (k : ℕ) (t : S) → Delivers dispatch head inner n s k t → closed t ≡ false

  -- The reader stops, by a dispatch or for the reason `Far`, or the invariant holds and no frame that is due is left.
  pub data Outcome (Far : Type 0) (seen : ℕ → Bool) (n : ℕ) (s : S) (out : RelReceiver S × Bool)
      : Type 0 where
    stopped :
        (m : ℕ)
        → Delivers dispatch head inner n s m out.0.rest
        → out.1 ≡ false
        → (Obeys n s → Far)
        → Outcome Far seen n s out
    going :
        (m : ℕ)
        → Inv first payload seen m out.0
        → Delivers dispatch head inner n s m out.0.rest
        → out.1 ≡ true
        → (closed out.0.rest ≡ true) ⊎ (seen (m + 1) ≡ false)
        → Outcome Far seen n s out

  abbrev pub then_drain : ℕ → RelReceiver S × Bool → RelReceiver S × Bool
  then_drain fuel one = if one.1 then drain mux closed dispatch fuel one.0 else one

  abbrev pub Rest : Type 0 → (ℕ → Bool) → ℕ → ℕ → Type 0
  Rest Far seen n fuel =
      (r : RelReceiver S)
      → Inv first payload seen n r
      → Outcome Far seen n r.rest (drain mux closed dispatch fuel r)

  prefixed :
      {Far : Type 0} {seen : ℕ → Bool} {n : ℕ} {s t : S} {out : RelReceiver S × Bool} (fseq : ℕ)
      → t ≡ (dispatch s (head (n + 1)) (inner (n + 1)) fseq).after
      → Outcome Far seen (n + 1) t out
      → Outcome Far seen n s out
  prefixed fseq e (stopped m d p b) =
      stopped m (Delivers-trans dispatch head inner (next fseq here refl e) d) p (λ obeys.
        b (λ k u f c. obeys k u f (Delivers-trans dispatch head inner (next fseq here refl e) c)))
  prefixed fseq e (going m v d p g) =
      going m v (Delivers-trans dispatch head inner (next fseq here refl e) d) p g

  pub then_drain_lem :
      {Far : Type 0} {seen seen' : ℕ → Bool} {n : ℕ} {r : RelReceiver S} (fuel fseq : ℕ)
      → Inv first payload seen n r
      → ((j : ℕ) → seen' j ≡ joined (n + 1) seen j)
      → n + 1 < 2 ^ 31
      → Rest Far seen' (n + 1) fuel
      → Outcome Far seen' n r.rest (
          then_drain fuel (
            dispatch_at mux closed dispatch r
              ((first + (n + 1)) % 2 ^ 32)
              (head (n + 1))
              (inner (n + 1))
              fseq))
  unfolding dispatch_at rel_advance
  then_drain_lem {seen' = seen'} {n = n} {r = r} fuel fseq v agree near rest =
      elim (Bool-cases (dispatch r.rest (head (n + 1)) (inner (n + 1)) fseq).continues) [
        | inl e ↦ rw e (
            prefixed {t = (dispatch r.rest (head (n + 1)) (inner (n + 1)) fseq).after} fseq refl
              (rest _ (advance-Inv first payload v agree near _ _)))
        | inr e ↦ rw e (
            stopped (n + 1) (next fseq here refl refl) refl
              (λ obeys. cc (e, obeys n r.rest fseq here)))
      ]

  dispatch_held-parsed :
      (r : RelReceiver S) (c : ℕ) (x : RelHead × List ℕ)
      → parse_rel (get_or r.held (c % 8) nothing_held).bytes ≡ ok x
      → dispatch_held mux closed dispatch r c
        ≡ dispatch_at mux closed dispatch r c x.0 x.1 (get_or r.held (c % 8) nothing_held).fseq
  unfolding dispatch_held dispatch_at
  dispatch_held-parsed r c x e = rw (dispatch_held, e) refl

  dispatch_held_lem :
      {seen : ℕ → Bool} {n : ℕ} {r : RelReceiver S}
      → Numbered mux first payload head inner
      → Inv first payload seen n r
      → seen (n + 1) ≡ true
      → dispatch_held mux closed dispatch r ((r.cum + 1) % 2 ^ 32)
        ≡ dispatch_at mux closed dispatch r
            ((first + (n + 1)) % 2 ^ 32)
            (head (n + 1))
            (inner (n + 1))
            (get_or r.held ((first + (n + 1)) % 2 ^ 32 % 8) nothing_held).fseq
  dispatch_held_lem {n = n} {r = r} w v e =
      ap (dispatch_held mux closed dispatch r) {x = (r.cum + 1) % 2 ^ 32}
        {y = (first + (n + 1)) % 2 ^ 32} (rw (v.cum_is) (omega arith))
      ∙ dispatch_held-parsed r ((first + (n + 1)) % 2 ^ 32) (head (n + 1), inner (n + 1)) read
    where
      read :
          parse_rel (get_or r.held ((first + (n + 1)) % 2 ^ 32 % 8) nothing_held).bytes
          ≡ ok (head (n + 1), inner (n + 1))
      read =
          ap (λ i. parse_rel (get_or r.held i nothing_held).bytes) (slot_of first (n + 1))
          ∙ ap parse_rel (v.kept (n + 1) (omega arith) (omega arith) e)
          ∙ w.reads (n + 1)

  pub drain_lem :
      {Far : Type 0} {seen : ℕ → Bool} (limit fuel n : ℕ)
      → Numbered mux first payload head inner
      → ((k : ℕ) → limit < k → seen k ≡ false)
      → limit ≤ n + fuel
      → Rest Far seen n fuel
  unfolding drain
  drain_lem limit zero n w above enough r v =
      going n v here refl (inr (above (n + 1) (omega arith)))
  drain_lem {seen = seen} limit (suc fuel) n w above enough r v =
      elim (Bool-cases (closed r.rest)) [
        | inl e ↦ rw e (going n v here refl (inl e))
        | inr e ↦
            rw (e, mark)
              (elim (Bool-cases (seen (n + 1))) [
                | inr none_due ↦ rw none_due (going n v here refl (inr none_due))
                | inl is_due ↦
                    rw (is_due, dispatch_held_lem w v is_due)
                      (then_drain_lem fuel _ v (joined_same (n + 1) seen is_due)
                        (v.near (n + 1) is_due)
                        (drain_lem limit fuel (n + 1) w above (omega arith)))
              ])
      ]
    where
      due : (r.cum + 1) % 2 ^ 32 % 8 ≡ (first + (n + 1)) % 8
      due = rw (v.cum_is) (omega arith)

      mark : taken r.held_mask ((r.cum + 1) % 2 ^ 32 % 8) ≡ seen (n + 1)
      mark = rw due (v.marks (n + 1) (omega arith) (omega arith))
