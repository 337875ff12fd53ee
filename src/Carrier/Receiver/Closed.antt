-- ===== src/Carrier/Receiver/Closed.antt =====
-- The peer's CLOSE is the last frame that is taken (internal/carrier/rel.go).
use rendr.Common.{
  ℕ, ◌+◌, ◌-◌, ◌%◌, ◌^◌, ◌≡◌, refl, ap, ◌∙◌, Bool, true, false, not, ◌&&◌, List, [], ◌∷◌, ltb, leb,
  if◌then◌else◌, ok, err,
}
use rendr.Wire.Errors.{Decoded}
use rendr.Wire.Payload.Rel.{RelHead, parse_rel}
use rendr.Carrier.Receiver.{
  RelReceiver, Dispatched, of_handshake, on_rel, on_head, dispatch_next, hold,
}

-- The two receivers have taken the same frames.
pub record Same {S : Type 0} (r t : RelReceiver S) : Type 0 where
  pub same_rest : t.rest ≡ r.rest
  pub same_cum : t.cum ≡ r.cum
  pub same_mask : t.held_mask ≡ r.held_mask
  pub same_held : t.held ≡ r.held

module _ {S : Type 0} (mux : Bool) (closed : S → Bool)
    (dispatch : S → RelHead → List ℕ → ℕ → Dispatched S) where
  Same-refl : (r : RelReceiver S) → Same r r
  Same-refl r = record { same_rest = refl; same_cum = refl; same_mask = refl; same_held = refl }

  Same-marked :
      (r : RelReceiver S) (due : Bool) (dropped : ℕ)
      → Same r (record r { rack_due = due; dropped = dropped })
  Same-marked r due dropped = record {
    same_rest = refl;
    same_cum = refl;
    same_mask = refl;
    same_held = refl;
  }

  -- The answers of relOnRel that take nothing.
  on_head-Same :
      (r : RelReceiver S) (h : RelHead) (inner payload : List ℕ) (fseq : ℕ)
      → closed r.rest ≡ true
      → Same r (on_head mux closed dispatch r h inner payload fseq).0
  unfolding on_head
  on_head-Same r h inner payload fseq c = by_test _
    where
      by_test :
          (old : Bool)
          → Same r
              (if old
                then (record r { rack_due = true }, true)
                else if closed r.rest
                then (record r { dropped = r.dropped + 1 }, true)
                else if ltb 8 ((h.cseq + 2 ^ 32 - r.cum) % 2 ^ 32)
                then (r, false)
                else if of_handshake h.type && not mux
                then (r, false)
                else if leb 2 ((h.cseq + 2 ^ 32 - r.cum) % 2 ^ 32)
                then (hold r h.cseq payload fseq, true)
                else dispatch_next mux closed dispatch r h inner fseq).0
      by_test true = Same-marked r true r.dropped
      by_test false = rw c (Same-marked r r.rack_due (r.dropped + 1))

  on_rel-Same :
      (r : RelReceiver S) (payload : List ℕ) (fseq : ℕ)
      → closed r.rest ≡ true
      → Same r (on_rel mux closed dispatch r payload fseq).0
  unfolding on_rel
  on_rel-Same r payload fseq c = by_parse (parse_rel payload)
    where
      by_parse :
          (p : Decoded (RelHead × List ℕ))
          → Same r
              (elim p as (λ q. RelReceiver S × Bool) [
                | ok x ↦ on_head mux closed dispatch r x.0 x.1 payload fseq
                | err e ↦ (r, false)
              ]).0
      by_parse (ok x) = on_head-Same r x.0 x.1 payload fseq c
      by_parse (err e) = Same-refl r

  -- Every payload of a list, with the number of its frame, until the reader stops.
  abbrev pub takes_all : RelReceiver S → List (List ℕ × ℕ) → RelReceiver S × Bool
  takes_all r [] = (r, true)
  takes_all r (p ∷ rest) =
      let one = on_rel mux closed dispatch r p.0 p.1 in
      let more = takes_all one.0 rest in if one.1 then more else one

  -- Once the peer has closed, no bytes that arrive as RELs change what was dispatched, the
  -- cumulative point or the frames held.
  pub takes_all-Same :
      (r : RelReceiver S) (payloads : List (List ℕ × ℕ))
      → closed r.rest ≡ true
      → Same r (takes_all r payloads).0
  takes_all-Same r [] c = Same-refl r
  takes_all-Same r (p ∷ rest) c =
      let s = on_rel-Same r p.0 p.1 c in
      more _ s
        (takes_all-Same (on_rel mux closed dispatch r p.0 p.1).0 rest (ap closed (s.same_rest) ∙ c))
    where
      more :
          (o : RelReceiver S × Bool)
          → Same r o.0
          → Same o.0 (takes_all o.0 rest).0
          → Same r (if o.1 then takes_all o.0 rest else o).0
      more o s t = by_answer o.1
        where
          by_answer : (b : Bool) → Same r (if b then takes_all o.0 rest else o).0
          by_answer true = record {
            same_rest = t.same_rest ∙ s.same_rest;
            same_cum = t.same_cum ∙ s.same_cum;
            same_mask = t.same_mask ∙ s.same_mask;
            same_held = t.same_held ∙ s.same_held;
          }
          by_answer false = s
