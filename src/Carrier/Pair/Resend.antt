-- ===== src/Carrier/Pair/Resend.antt =====
-- The receiver's RACK, the sender's timer and a retransmission take the receiver past the next REL.
use rendr.Common.{
  ℕ, ◌+◌, ◌%◌, ◌^◌, ◌<◌, max, ◌≡◌, refl, sym, ap, ap₂, ◌∙◌, subst, ◌⊎◌, inl, inr, Bool, true, false,
  Option, none, some, List, [], ◌∷◌, arith, lt→ltb, eq→==, le→leb, length, get_or, take,
}
use native.Mathlib.Decide.{dec_lt}
use rendr.Wire.Payload.Rel.{RelHead}
use rendr.Carrier.Receiver.{RelReceiver, Dispatched, on_rel, rack}
use rendr.Carrier.Receiver.Order.Moves.{joined}
use rendr.Carrier.Receiver.Order.{here, Delivers-trans}
use rendr.Carrier.Receiver.Order.Steps.{stopped, going, Obeys, Never}
use rendr.Carrier.Receiver.Order.Arrivals.{Took, unchanged, added, on_head_lem}
use rendr.Carrier.Receiver.Order.Runs.{on_rel-on_head}
use rendr.Carrier.Sender.{
  RelSender, outstanding, rel_retx_due, retransmission, rel_attempted, on_rack,
}
use rendr.Carrier.Sender.Window.{
  outstanding_lem, retransmission_lem, rel_attempted-Outstanding, on_rack_fields-Outstanding,
}
use rendr.Carrier.Pair.{
  Message, Sendable, payload, head, inner, Sendable-Numbered, System, retransmits, attempts,
  rel_arrives, racks_out, rack_arrives, Reached, later,
}
use rendr.Carrier.Pair.Safe.{Safe, Delivers-le}
use rendr.Carrier.Pair.Racks.{rack_read, rack_written, rack_names}

-- An attempted round leaves the timer armed while a REL is outstanding.
attempted-armed :
    (s : RelSender) (rto rto_max at : ℕ)
    → outstanding s ≡ true
    → (t : ℕ) × ((rel_attempted s none rto rto_max at).due ≡ some t)
unfolding rel_attempted
attempted-armed s rto rto_max at e = by_due s.due refl
  where
    by_due :
        (d : Option ℕ) → s.due ≡ d → (t : ℕ) × ((rel_attempted s none rto rto_max at).due ≡ some t)
    by_due none q = (at + rto, rw (e, q) refl)
    by_due (some t) q = (t, rw (e, q) refl)

-- An armed timer is due at its time.
retransmission-due :
    (s : RelSender) (t : ℕ)
    → outstanding s ≡ true
    → s.due ≡ some t
    → (p : List ℕ) × (c : ℕ) × (retransmission s t ≡ some (p, c))
unfolding retransmission rel_retx_due
retransmission-due s t e d =
    (get_or s.slot (s.una % 8) [], s.una, rw (e, d, le→leb t t (omega arith)) refl)

module _ {S : Type 0} (mux : Bool) (closed : S → Bool)
    (dispatch : S → RelHead → List ℕ → ℕ → Dispatched S) (first : ℕ) (messages : ℕ → Message)
    (rest : S) (fine : (k : ℕ) → Sendable mux (messages k))
    (obeys : Obeys mux closed dispatch first
      (payload mux first messages)
      (head mux first messages)
      (inner mux first messages)
      0
      rest)
    (never : Never mux closed dispatch first
      (payload mux first messages)
      (head mux first messages)
      (inner mux first messages)
      0
      rest) where
  Obeys-now :
      {x : System S} (v : Safe mux closed dispatch first messages rest x)
      → Obeys mux closed dispatch first
          (payload mux first messages)
          (head mux first messages)
          (inner mux first messages)
          v.m
          x.receiver.rest
  Obeys-now v k t f d =
      obeys k t f
        (Delivers-trans dispatch (head mux first messages) (inner mux first messages) v.delivered d)

  Never-now :
      {x : System S} (v : Safe mux closed dispatch first messages rest x)
      → Never mux closed dispatch first
          (payload mux first messages)
          (head mux first messages)
          (inner mux first messages)
          v.m
          x.receiver.rest
  Never-now v k t d =
      never k t
        (Delivers-trans dispatch (head mux first messages) (inner mux first messages) v.delivered d)

  -- The receiver answers, the sender hears it, and sends the next REL again.
  resend :
      (o : System S) {x : System S}
      → Reached mux closed dispatch first messages o x
      → (v : Safe mux closed dispatch first messages rest x) → v.m + 1 < x.number
      → x.number + 16 < 2 ^ 31
      → (y : System S) × Reached mux closed dispatch first messages o y
        × (y.number ≡ x.number)
        × (y.receiver ≡ x.receiver)
        × (0 < length y.rels)
        × (get_or y.rels 0 [] ≡ payload mux first messages (v.m + 1))
  resend o {x = x} run v more small =
      let (p, out) = rack_written v.recv in
      let x1 : System S = record x { racks = take 8 p ∷ x.racks } in
      let (s1, wake, progress, e, o1) =
        on_rack_fields-Outstanding first (payload mux first messages) v.send v.m
          (rack x.receiver).sack 300 0 (omega arith) (v.send.ordered) small
          (λ j t. v.below (v.m + 2 + j) (rack_names v.recv j t)) in
      let x2 : System S = record x1 { sender = s1 } in
      let o2 = rel_attempted-Outstanding first (payload mux first messages) o1 none 300 2000 0 in
      let s3 : RelSender = rel_attempted s1 none 300 2000 0 in
      let open1 =
        outstanding_lem first (payload mux first messages) o1
        ∙ lt→ltb (max v.lo (v.m + 1)) x.number (omega (arith, v.behind)) in
      let open2 =
        outstanding_lem first (payload mux first messages) o2
        ∙ lt→ltb (max v.lo (v.m + 1)) x.number (omega (arith, v.behind)) in
      let (t, armed) = attempted-armed s1 300 2000 0 open1 in
      let (q, c, again) = retransmission-due s3 t open2 armed in
      let x3 : System S = record x2 { sender = s3 } in
      let x4 : System S = record x3 { rels = q ∷ x.rels } in
      (
        x4,
        later {y = x3}
            (later {y = x2}
              (later {y = x1} (later {y = x} run (racks_out p out)) (
                rack_arrives 0 300 0 s1 wake progress (omega arith)
                  (unfold on_rack in rw (on_rack, rack_read v.recv p out) e)))
              (attempts none 300 2000 0))
            (retransmits t q c again),
        refl,
        refl,
        omega arith,
        (retransmission_lem first (payload mux first messages) o2 t q c again).0
            ∙ ap (payload mux first messages) (omega (arith, v.behind)),
      )

  -- The REL behind the cumulative point advances it.
  advanced :
      {x : System S} {o : RelReceiver S × Bool} (v : Safe mux closed dispatch first messages rest x)
      → Took mux closed dispatch first
          (payload mux first messages)
          (head mux first messages)
          (inner mux first messages)
          v.seen
          v.m
          x.receiver
          (v.m + 1)
          o
      → (o.1 ≡ true) × (m : ℕ) × (v.m < m) × (m < 2 ^ 31) × (o.0.cum ≡ (first + m) % 2 ^ 32)
  advanced {x = x} v (unchanged out (inl seen)) = not_both v.gap
    where
      not_both : {A : Type 0} → (closed x.receiver.rest ≡ true) ⊎ (v.seen (v.m + 1) ≡ false) → A
      not_both (inl c) = cc (c, Never-now v v.m x.receiver.rest here)
      not_both (inr e) = cc (e, seen)
  advanced {x = x} v (unchanged out (inr c)) = cc (c, Never-now v v.m x.receiver.rest here)
  advanced v (added (stopped m d e b)) = absurd (omega (arith, b (Obeys-now v)))
  advanced {o = o} v (added (going m i d e (inl c))) = cc (c, Never-now v m o.0.rest d)
  advanced v (added (going m i d e (inr g))) = (
    e,
    m,
    elim (dec_lt v.m m) [
      | yes p ↦ p
      | no q ↦ cc (
        sym (
              ap (joined (v.m + 1) v.seen) {x = m + 1} {y = v.m + 1}
                (omega (arith, Delivers-le mux closed dispatch first messages rest d)))
            ∙ g,
        rw_one (v.m + 1),
      )
    ],
    i.reach,
    i.cum_is,
  )
    where
      rw_one : (k : ℕ) → joined k v.seen k ≡ true
      rw_one k = rw (eq→== k k refl) refl

  pub next_one :
      (o : System S) {x : System S}
      → Reached mux closed dispatch first messages o x
      → (v : Safe mux closed dispatch first messages rest x) → v.m + 1 < x.number
      → x.number + 16 < 2 ^ 31
      → (y : System S) × Reached mux closed dispatch first messages o y
        × (y.number ≡ x.number)
        × (m : ℕ) × (v.m < m)
        × (m < 2 ^ 31)
        × (y.receiver.cum ≡ (first + m) % 2 ^ 32)
  next_one o {x = x} run v more small =
      let (y, on, number, same, some_rel, it) = resend o run v more small in
      let took =
        subst
          (λ a.
            Took mux closed dispatch first (payload mux first messages) (head mux first messages)
              (inner mux first messages) v.seen v.m x.receiver (v.m + 1) a)
          (sym (
            ap₂ (λ r p. on_rel mux closed dispatch r p 0) same it
            ∙ on_rel-on_head mux closed dispatch first (payload mux first messages)
                (head mux first messages) (inner mux first messages)
                (Sendable-Numbered mux first messages fine) x.receiver (v.m + 1) 0))
          (on_head_lem mux closed dispatch first (payload mux first messages)
            (head mux first messages) (inner mux first messages) (v.m + 1) 0
            (Sendable-Numbered mux first messages fine) v.recv v.gap (omega arith) (omega arith)) in
      let (goes, m, further, fits, cum) = advanced v took in
      (
        record y { receiver = (on_rel mux closed dispatch y.receiver (get_or y.rels 0 []) 0).0 },
        later {y = y} on (rel_arrives 0 0 some_rel goes),
        number,
        m,
        further,
        fits,
        cum,
      )
