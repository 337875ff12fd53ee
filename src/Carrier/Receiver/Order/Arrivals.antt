-- ===== src/Carrier/Receiver/Order/Arrivals.antt =====
-- One REL that arrives.
use rendr.Common.{
  ℕ, ◌+◌, ◌-◌, ◌%◌, ◌^◌, ◌<◌, ◌≡◌, refl, sym, ◌∙◌, subst, ◌⊎◌, inl, inr, Bool, true, false, not,
  ◌&&◌, ◌||◌, List, arith, ltb, leb, ◌==◌, if◌then◌else◌, Bool-cases, lt→ltb, le→ltb, ne→==, le→leb,
  lt→leb,
}
use native.Mathlib.Decide.{dec_lt}
use rendr.Wire.Payload.Rel.{RelHead}
use rendr.Common.Slots.{taken}
use rendr.Carrier.Receiver.{
  RelReceiver, Dispatched, of_handshake, on_head, hold, dispatch_at, dispatch_next,
}
use rendr.Carrier.Receiver.Order.{Numbered, here, Inv}
use rendr.Carrier.Receiver.Order.Steps.{
  Outcome, stopped, going, then_drain, then_drain_lem, drain_lem,
}
use rendr.Carrier.Receiver.Order.Moves.{
  joined, joined_other, slot_of, distance_old, distance_ahead, hold-Inv,
}

module _ {S : Type 0} (mux : Bool) (closed : S → Bool)
    (dispatch : S → RelHead → List ℕ → ℕ → Dispatched S) (first : ℕ) (payload : ℕ → List ℕ)
    (head : ℕ → RelHead) (inner : ℕ → List ℕ) where
  same_Inv :
      {seen : ℕ → Bool} {n : ℕ} {r : RelReceiver S}
      → Inv first payload seen n r
      → (due : Bool) (dropped : ℕ)
      → Inv first payload seen n (record r { rack_due = due; dropped = dropped })
  same_Inv v due dropped = record {
    reach = v.reach;
    cum_is = v.cum_is;
    slots = v.slots;
    marks = v.marks;
    kept = v.kept;
    before = v.before;
    beyond = v.beyond;
    near = v.near;
  }

  abbrev Out : Type 0 → (ℕ → Bool) → ℕ → S → RelReceiver S × Bool → Type 0
  Out Far seen n s out = Outcome mux closed dispatch first payload head inner Far seen n s out

  -- Behind one REL: the frames taken are those of before, since this one is among them or the peer
  -- has closed, or this one is taken.
  pub data Took (seen : ℕ → Bool) (n : ℕ) (r : RelReceiver S) (k : ℕ) (out : RelReceiver S × Bool)
      : Type 0 where
    unchanged :
        Out (n + 8 < k) seen n r.rest out
        → (seen k ≡ true) ⊎ (closed r.rest ≡ true)
        → Took seen n r k out
    added : Out (n + 8 < k) (joined k seen) n r.rest out → Took seen n r k out

  module _ {seen : ℕ → Bool} {n : ℕ} {r : RelReceiver S} (k fseq : ℕ)
      (w : Numbered mux first payload head inner) (v : Inv first payload seen n r)
      (gap : (closed r.rest ≡ true) ⊎ (seen (n + 1) ≡ false)) where
    again : seen k ≡ true → Took seen n r k (record r { rack_due = true }, true)
    again e = unchanged (going n (same_Inv v true r.dropped) here refl gap) (inl e)

    dropped_one :
        closed r.rest ≡ true → Took seen n r k (record r { dropped = r.dropped + 1 }, true)
    dropped_one e =
        unchanged (going n (same_Inv v r.rack_due (r.dropped + 1)) here refl gap) (inr e)

    in_order_lem :
        k ≡ n + 1
        → k < 2 ^ 31
        → Took seen n r k (dispatch_next mux closed dispatch r (head k) (inner k) fseq)
    unfolding dispatch_next
    in_order_lem e near =
        subst (λ c. Took seen n r k (released c k)) (sym (w.numbered k))
          (subst (λ j. Took seen n r j (released ((first + j) % 2 ^ 32) j)) (sym e)
            (added (
              then_drain_lem mux closed dispatch first payload head inner 8 fseq v (λ j. refl)
                (omega arith)
                (drain_lem mux closed dispatch first payload head inner (n + 8) 8 (n + 1) w
                  (λ j p. rw (ne→== j (n + 1) (omega arith)) (v.beyond j p)) (omega arith)))))
      where
        released : ℕ → ℕ → RelReceiver S × Bool
        released c j =
            then_drain mux closed dispatch first payload head inner 8
              (dispatch_at mux closed dispatch r c (head j) (inner j) fseq)

    not_due :
        (closed r.rest ≡ true) ⊎ (seen (n + 1) ≡ false)
        → closed r.rest ≡ false
        → seen (n + 1) ≡ false
    not_due (inl c) e = cc
    not_due (inr s) e = s

    -- What relOnRel does with a frame ahead of the cumulative point, by its distance.
    abbrev tests : ℕ → ℕ → RelReceiver S × Bool
    tests c d =
        if (d == 0 || leb (2 ^ 31) d) || (leb d 8 && leb 2 d && taken r.held_mask (c % 8))
        then (record r { rack_due = true }, true)
        else if closed r.rest
        then (record r { dropped = r.dropped + 1 }, true)
        else if ltb 8 d
        then (r, false)
        else if of_handshake (head k).type && not mux
        then (r, false)
        else if leb 2 d
        then (hold r c (payload k) fseq, true)
        else dispatch_next mux closed dispatch r (head k) (inner k) fseq

    tests_lem :
        (d : ℕ) → d + n ≡ k → 0 < d → k < 2 ^ 31 → Took seen n r k (tests ((first + k) % 2 ^ 32) d)
    tests_lem d e pos near =
        rw (ne→== d 0 (omega arith), lt→leb (2 ^ 31) d (omega arith))
          (elim (dec_lt 8 d) [
            | yes far ↦
                rw (lt→leb d 8 (omega arith), lt→ltb 8 d far)
                  (elim (Bool-cases (closed r.rest)) [
                    | inl c ↦ rw c (dropped_one c)
                    | inr c ↦ rw c (added (stopped n here refl (λ obeys. omega arith)))
                  ])
            | no in_window ↦
                rw (le→leb d 8 (omega arith), le→ltb 8 d (omega arith), w.fine k)
                  (elim (dec_lt d 2) [
                    | yes due ↦ rw (lt→leb 2 d due) (elim (Bool-cases (closed r.rest)) [
                      | inl c ↦ rw c (dropped_one c)
                      | inr c ↦ rw c (in_order_lem (omega arith) near)
                    ])
                    | no later ↦
                        rw
                          (
                            le→leb 2 d (omega arith),
                            slot_of first k,
                            v.marks k (omega arith) (omega arith),
                          )
                          (elim (Bool-cases (seen k)) [
                            | inl s ↦ rw s (again s)
                            | inr s ↦ rw s (elim (Bool-cases (closed r.rest)) [
                              | inl c ↦ rw c (dropped_one c)
                              | inr c ↦ rw c (
                                  added (
                                    going n
                                      (hold-Inv first payload v k fseq (omega arith) (omega arith)
                                        near (w.small k))
                                      (unfold hold in here) refl
                                      (inr (
                                        joined_other k seen (n + 1) (ne→== (n + 1) k (omega arith))
                                        ∙ not_due gap c))))
                            ])
                          ])
                  ])
          ])

    pub on_head_lem :
        0 < k
        → k < 2 ^ 31
        → Took seen n r k (on_head mux closed dispatch r (head k) (inner k) (payload k) fseq)
    unfolding on_head
    on_head_lem pos near =
        subst (λ c. Took seen n r k (tests c ((c + 2 ^ 32 - r.cum) % 2 ^ 32))) (sym (w.numbered k))
          (elim (dec_lt n k) [
            | no q ↦
                rw (distance_old first payload v k (omega arith))
                  (again (v.before k pos (omega arith)))
            | yes p ↦
                rw (distance_ahead first payload v k p near)
                  (tests_lem (k - n) (omega arith) (omega arith) near)
          ])
