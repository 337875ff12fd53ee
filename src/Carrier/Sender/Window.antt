-- ===== src/Carrier/Sender/Window.antt =====
-- The sender's window: at most eight RELs are outstanding, and each keeps its slot.
use rendr.Common.{
  ℕ, zero, suc, ◌+◌, ◌-◌, ◌%◌, ◌^◌, ◌≤◌, ◌<◌, max, ◌≡◌, refl, sym, ap, ◌∙◌, subst, ◌⊎◌, inl, inr,
  Bool, true, false, not, ◌&&◌, Option, none, some, List, [], arith, ltb, if◌then◌else◌, Bool-cases,
  lt→ltb, le→ltb, ltb→lt, eq→==, ne→==, le→leb, length, get_or, take, set, take_all,
}
use rendr.Common.Int.{pos}
use native.Mathlib.Decide.{dec_lt}
use rendr.Wire.Frame.{seq_less}
use rendr.Common.Slots.{taken, length-set, get_or-set, get_or-set_other}
use rendr.Carrier.Sender.{
  RelSender, room, outstanding, rel_payload, seal_one, rel_retx_due, retransmission, reached,
  rel_attempted, sack_sent, rack_progress, rack_taken, on_rack_fields,
}

-- The RELs `lo` to `hi - 1` are outstanding.
pub record Outstanding (first : ℕ) (payload : ℕ → List ℕ) (lo hi : ℕ) (s : RelSender) : Type 0 where
  pub una_is : s.una ≡ (first + lo) % 2 ^ 32
  pub next_is : s.next ≡ (first + hi) % 2 ^ 32
  pub ordered : lo ≤ hi
  pub window : hi ≤ lo + 8
  pub slots : length s.slot ≡ 8
  pub kept : (k : ℕ) → lo ≤ k → k < hi → get_or s.slot ((first + k) % 8) [] ≡ payload k

-- Counters of numbers below half the range of a uint32 are ordered as the numbers are.
pub seq_less-numbers :
    (first i j : ℕ)
    → i < 2 ^ 31
    → j < 2 ^ 31
    → seq_less ((first + i) % 2 ^ 32) ((first + j) % 2 ^ 32) ≡ ltb i j
unfolding seq_less
seq_less-numbers first i j a b = elim (dec_lt i j) [
  | yes p ↦ rw (
    ne→== ((first + i) % 2 ^ 32) ((first + j) % 2 ^ 32) (omega arith),
    distance p,
    lt→ltb 0 (j - i) (omega arith),
    lt→ltb (j - i) (2 ^ 31) (omega arith),
    lt→ltb i j p,
  )
  | no q ↦ rw (le→ltb i j (omega arith)) (elim (dec_lt j i) [
    | no q' ↦ rw (
        eq→== ((first + i) % 2 ^ 32) ((first + j) % 2 ^ 32)
          (ap (λ t. (first + t) % 2 ^ 32) (omega arith)))
    | yes p ↦
        rw
          (le→ltb (((first + j) % 2 ^ 32 + 2 ^ 32 - (first + i) % 2 ^ 32) % 2 ^ 32) (2 ^ 31)
            (omega arith))
          (ground arith)
  ])
]
  where
    distance : i < j → ((first + j) % 2 ^ 32 + 2 ^ 32 - (first + i) % 2 ^ 32) % 2 ^ 32 ≡ j - i
    distance p = omega arith

same_slot : (first k : ℕ) → (first + k) % 2 ^ 32 % 8 ≡ (first + k) % 8
same_slot first k = omega arith

if_some :
    {A : Type 0} {y : A} (b : Bool) (x : A)
    → (if b then some x else none) ≡ some y
    → (b ≡ true) × (x ≡ y)
if_some true x e = (refl, cc)
if_some false x e = cc

and_left : (a b : Bool) → (a && b) ≡ true → a ≡ true
and_left true b e = refl
and_left false b e = cc

una-rel_attempted :
    (s : RelSender) (retx : Option ℕ) (rto rto_max at : ℕ)
    → (rel_attempted s retx rto rto_max at).una ≡ s.una
unfolding rel_attempted
una-rel_attempted s retx rto rto_max at = ground arith

next-rel_attempted :
    (s : RelSender) (retx : Option ℕ) (rto rto_max at : ℕ)
    → (rel_attempted s retx rto rto_max at).next ≡ s.next
unfolding rel_attempted
next-rel_attempted s retx rto rto_max at = ground arith

slot-rel_attempted :
    (s : RelSender) (retx : Option ℕ) (rto rto_max at : ℕ)
    → (rel_attempted s retx rto rto_max at).slot ≡ s.slot
unfolding rel_attempted
slot-rel_attempted s retx rto rto_max at = ground arith

-- A RACK's progress moves una, and neither next nor the slots.
una-rack_progress :
    (s : RelSender) (c rto now : ℕ) → (rack_progress s c rto now).0.una ≡ (c + 1) % 2 ^ 32
unfolding rack_progress
una-rack_progress s c rto now = ground arith

next-rack_progress : (s : RelSender) (c rto now : ℕ) → (rack_progress s c rto now).0.next ≡ s.next
unfolding rack_progress
next-rack_progress s c rto now = ground arith

slot-rack_progress : (s : RelSender) (c rto now : ℕ) → (rack_progress s c rto now).0.slot ≡ s.slot
unfolding rack_progress
slot-rack_progress s c rto now = ground arith

module _ (first : ℕ) (payload : ℕ → List ℕ) {lo hi : ℕ} {s : RelSender}
    (v : Outstanding first payload lo hi s) where
  -- The room that the sender computes is what the window leaves, and never negative.
  pub room_lem : room s ≡ pos (lo + 8 - hi)
  unfolding room
  room_lem =
      rw (out, le→leb (hi - lo) 8 (omega (arith, v.window)))
        (ap pos (omega (arith, v.ordered, v.window)))
    where
      out : (s.next + 2 ^ 32 - s.una) % 2 ^ 32 ≡ hi - lo
      out = rw (v.next_is, v.una_is) (omega (arith, v.ordered, v.window))

  pub outstanding_lem : outstanding s ≡ ltb lo hi
  unfolding outstanding
  outstanding_lem =
      rw (v.una_is, v.next_is)
        (elim (dec_lt lo hi) [
          | yes p ↦
              rw
                (
                  ne→== ((first + lo) % 2 ^ 32) ((first + hi) % 2 ^ 32) (omega (arith, v.window)),
                  lt→ltb lo hi p,
                )
                refl
          | no q ↦
              rw
                (
                  eq→== ((first + lo) % 2 ^ 32) ((first + hi) % 2 ^ 32)
                      (ap (λ t. (first + t) % 2 ^ 32) (omega (arith, v.ordered))),
                  le→ltb lo hi (omega arith),
                )
                refl
        ])

  -- A REL is sealed while there is room.
  pub seal_one-Outstanding :
      (now : ℕ) (p : List ℕ)
      → hi < lo + 8
      → rel_payload p ((first + hi) % 2 ^ 32) ≡ payload hi
      → length (payload hi) ≤ 275
      → Outstanding first payload lo (hi + 1) (seal_one now s p)
  unfolding seal_one
  seal_one-Outstanding now p free stamped small = record {
    una_is = v.una_is;
    next_is = rw (v.next_is) (omega arith);
    ordered = omega (arith, v.ordered);
    window = omega arith;
    slots = length-set s.slot _ _ ∙ v.slots;
    kept = kept';
  }
    where
      written : take 275 (rel_payload p s.next) ≡ payload hi
      written =
          ap (λ c. take 275 (rel_payload p c)) (v.next_is)
          ∙ ap (take 275) stamped
          ∙ take_all 275 (payload hi) small

      where_next : s.next % 8 ≡ (first + hi) % 8
      where_next = rw (v.next_is) (same_slot first hi)

      kept' :
          (k : ℕ)
          → lo ≤ k
          → k < hi + 1
          → get_or (set s.slot (s.next % 8) (take 275 (rel_payload p s.next))) ((first + k) % 8) []
            ≡ payload k
      kept' k a b =
          rw (where_next, written)
            (elim (dec_lt k hi) [
              | yes old ↦
                  get_or-set_other s.slot ((first + hi) % 8) ((first + k) % 8) (payload hi) []
                    (omega arith)
                  ∙ v.kept k a old
              | no q ↦
                  subst
                    (λ j.
                      get_or (set s.slot ((first + hi) % 8) (payload hi)) ((first + j) % 8) []
                      ≡ payload j)
                    (omega arith)
                    (get_or-set s.slot ((first + hi) % 8) (payload hi) [] (omega (arith, v.slots)))
            ])

  -- A retransmission is the payload of the oldest REL that is outstanding.
  pub retransmission_lem :
      (now : ℕ) (q : List ℕ) (c : ℕ)
      → retransmission s now ≡ some (q, c)
      → (q ≡ payload lo) × (c ≡ (first + lo) % 2 ^ 32) × (lo < hi)
  unfolding retransmission rel_retx_due
  retransmission_lem now q c e =
      let (is_due, same) = if_some (outstanding s && reached s.due now) _ e in
      let some_left = sym outstanding_lem ∙ and_left (outstanding s) _ is_due in
      (
        sym (ap (λ x. x.0) same)
            ∙ ap (λ i. get_or s.slot i []) (rw (v.una_is) (same_slot first lo))
            ∙ v.kept lo (omega arith) (ltb→lt lo hi some_left),
        sym (ap (λ x. x.1) same) ∙ v.una_is,
        ltb→lt lo hi some_left,
      )

  -- A round that was attempted moves only the timer.
  pub rel_attempted-Outstanding :
      (retx : Option ℕ) (rto rto_max at : ℕ)
      → Outstanding first payload lo hi (rel_attempted s retx rto rto_max at)
  rel_attempted-Outstanding retx rto rto_max at = record {
    una_is = una-rel_attempted s retx rto rto_max at ∙ v.una_is;
    next_is = next-rel_attempted s retx rto rto_max at ∙ v.next_is;
    ordered = v.ordered;
    window = v.window;
    slots = ap length (slot-rel_attempted s retx rto rto_max at) ∙ v.slots;
    kept = λ k p q.
        ap (λ l. get_or l ((first + k) % 8) []) (slot-rel_attempted s retx rto rto_max at)
        ∙ v.kept k p q;
  }

  sack_sent_lem :
      (a sack i n : ℕ)
      → hi < 2 ^ 31
      → a + 2 + i + n < 2 ^ 31
      → ((j : ℕ) → i ≤ j → taken sack j ≡ true → a + 2 + j < hi)
      → sack_sent s.next ((first + a) % 2 ^ 32) sack i n ≡ true
  unfolding sack_sent taken
  sack_sent_lem a sack i zero small near named = refl
  sack_sent_lem a sack i (suc n) small near named =
      rw (passes (Bool-cases (taken sack i)))
        (sack_sent_lem a sack (i + 1) n small (omega arith) (λ j p q. named j (omega arith) q))
    where
      number : ((first + a) % 2 ^ 32 + 2 + i) % 2 ^ 32 ≡ (first + (a + 2 + i)) % 2 ^ 32
      number = omega arith

      passes :
          (taken sack i ≡ true) ⊎ (taken sack i ≡ false)
          → (taken sack i && not (seq_less (((first + a) % 2 ^ 32 + 2 + i) % 2 ^ 32) s.next))
            ≡ false
      passes (inr e) = rw e refl
      passes (inl e) =
          rw
            (
              e,
              number,
              v.next_is,
              seq_less-numbers first (a + 2 + i) hi (omega arith) small,
              lt→ltb (a + 2 + i) hi (named i (omega arith) e),
            )
            refl

  -- Any RACK of numbers that were sent is taken: the oldest outstanding REL is the one behind its
  -- cumulative point, or stays, and the rest of the window stays.
  pub on_rack_fields-Outstanding :
      (a sack rto now : ℕ)
      → a < hi
      → lo ≤ hi
      → hi + 16 < 2 ^ 31
      → ((j : ℕ) → taken sack j ≡ true → a + 2 + j < hi)
      → (s' : RelSender) × (wake : Bool) × (progress : Bool) × (on_rack_fields s
            (record { cum_ack = (first + a) % 2 ^ 32; sack = sack })
            rto
            now
          ≡ rack_taken s' wake progress)
        × Outstanding first payload (max lo (a + 1)) hi s'
  unfolding on_rack_fields
  on_rack_fields-Outstanding a sack rto now sent le small named = elim (dec_lt a lo) [
    | yes stale ↦ (
      s,
      false,
      false,
      rw (not_beyond, named_sent, order ∙ lt→ltb a lo stale) refl,
      subst (λ l. Outstanding first payload l hi s) (omega arith) v,
    )
    | no fresh ↦ (
      (rack_progress s ((first + a) % 2 ^ 32) rto now).0,
      (rack_progress s ((first + a) % 2 ^ 32) rto now).1,
      true,
      rw (not_beyond, named_sent, order ∙ le→ltb a lo (omega arith)) refl,
      subst (λ l. Outstanding first payload l hi (rack_progress s ((first + a) % 2 ^ 32) rto now).0)
          {x = a + 1} (omega arith)
          (record {
            una_is = una-rack_progress s ((first + a) % 2 ^ 32) rto now ∙ omega arith;
            next_is = next-rack_progress s ((first + a) % 2 ^ 32) rto now ∙ v.next_is;
            ordered = omega arith;
            window = omega (arith, v.window);
            slots = ap length (slot-rack_progress s ((first + a) % 2 ^ 32) rto now) ∙ v.slots;
            kept = λ k p q.
                ap (λ l. get_or l ((first + k) % 8) [])
                  (slot-rack_progress s ((first + a) % 2 ^ 32) rto now)
                ∙ v.kept k (omega arith) q;
          }),
    )
  ]
    where
      order : seq_less ((first + a) % 2 ^ 32) s.una ≡ ltb a lo
      order =
          ap (seq_less ((first + a) % 2 ^ 32)) (v.una_is)
          ∙ seq_less-numbers first a lo (omega arith) (omega arith)

      last : (s.next + 2 ^ 32 - 1) % 2 ^ 32 ≡ (first + (hi - 1)) % 2 ^ 32
      last = rw (v.next_is) (omega arith)

      not_beyond : seq_less ((s.next + 2 ^ 32 - 1) % 2 ^ 32) ((first + a) % 2 ^ 32) ≡ false
      not_beyond =
          rw
            (
              last,
              seq_less-numbers first (hi - 1) a (omega arith) (omega arith),
              le→ltb (hi - 1) a (omega arith),
            )
            refl

      named_sent : sack_sent s.next ((first + a) % 2 ^ 32) sack 0 7 ≡ true
      named_sent = sack_sent_lem a sack 0 7 (omega arith) (omega arith) (λ j p q. named j q)
