-- ===== src/Carrier/Receiver/Order/Runs.antt =====
-- RELs that arrive late, twice, out of order or not at all.
use rendr.Common.{
  ℕ, zero, suc, ◌+◌, ◌%◌, ◌^◌, ◌≤◌, ◌<◌, ◌≡◌, refl, sym, ◌∙◌, subst, ◌⊎◌, inl, inr, Bool, true,
  false, ◌&&◌, ◌||◌, List, [], ◌∷◌, arith, ◌==◌, if◌then◌else◌, length, All,
}
use rendr.Wire.Payload.Rel.{RelHead}
use rendr.Common.Slots.{taken_none}
use rendr.Carrier.Receiver.{RelReceiver, Dispatched, on_rel, on_head, init_recv}
use rendr.Carrier.Receiver.Order.{Numbered, Delivers, here, Delivers-trans, Inv}
use rendr.Carrier.Receiver.Order.Moves.{joined, joined_same}
use rendr.Carrier.Receiver.Order.Steps.{Outcome, stopped, going, Never}
use rendr.Carrier.Receiver.Order.Arrivals.{Took, unchanged, added, on_head_lem}

-- A number of a REL and the number of the frame around it.
abbrev pub Arrival : Type 0
Arrival = ℕ × ℕ

abbrev pub arrived : List Arrival → ℕ → Bool
arrived [] j = false
arrived (a ∷ rest) j = j == a.0 || arrived rest j

-- The RELs 1 to `m` have arrived.
abbrev pub arrived_to : List Arrival → ℕ → Bool
arrived_to arrivals zero = true
arrived_to arrivals (suc m) = arrived arrivals (suc m) && arrived_to arrivals m

-- The numbers are from 1 on and below half the range of a uint32.
abbrev pub InReach : List Arrival → Type 0
InReach arrivals = All (λ a. (0 < a.0) × (a.0 < 2 ^ 31)) arrivals

up_to :
    (arrivals : List Arrival) (m : ℕ)
    → ((k : ℕ) → 0 < k → k ≤ m → arrived arrivals k ≡ true)
    → arrived_to arrivals m ≡ true
up_to arrivals zero h = refl
up_to arrivals (suc m) h =
    rw (h (suc m) (omega arith) (omega arith)) (up_to arrivals m (λ k p q. h k p (omega arith)))

module _ {S : Type 0} (mux : Bool) (closed : S → Bool)
    (dispatch : S → RelHead → List ℕ → ℕ → Dispatched S) (payload : ℕ → List ℕ) where
  -- The reader takes one REL after the other until it stops.
  abbrev pub receives : RelReceiver S → List Arrival → RelReceiver S × Bool
  receives r [] = (r, true)
  receives r (a ∷ rest) =
      let one = on_rel mux closed dispatch r (payload a.0) a.1 in
      let more = receives one.0 rest in if one.1 then more else one

module _ {S : Type 0} (mux : Bool) (closed : S → Bool)
    (dispatch : S → RelHead → List ℕ → ℕ → Dispatched S) (first : ℕ) (payload : ℕ → List ℕ)
    (head : ℕ → RelHead) (inner : ℕ → List ℕ) (w : Numbered mux first payload head inner) where
  -- What a run ends in.
  data Ended (arrivals : List Arrival) (seen : ℕ → Bool) (n : ℕ) (s : S)
      (out : RelReceiver S × Bool) : Type 0 where
    halted :
        (m : ℕ)
        → Delivers dispatch head inner n s m out.0.rest
        → out.1 ≡ false
        → Ended arrivals seen n s out
    open_end :
        (seen' : ℕ → Bool) (m : ℕ)
        → Inv first payload seen' m out.0
        → Delivers dispatch head inner n s m out.0.rest
        → (closed out.0.rest ≡ true) ⊎ (seen' (m + 1) ≡ false)
        → (Never mux closed dispatch first payload head inner n s
            → (j : ℕ) → seen' j ≡ (seen j || arrived arrivals j))
        → Ended arrivals seen n s out

  Later : List Arrival → Type 0
  Later rest =
      (seen : ℕ → Bool) (n : ℕ) (r : RelReceiver S)
      → Inv first payload seen n r
      → (closed r.rest ≡ true) ⊎ (seen (n + 1) ≡ false)
      → Ended rest seen n r.rest (receives mux closed dispatch payload r rest)

  -- A REL in front of a run.
  one_more :
      {Far : Type 0} (a : Arrival) (rest : List Arrival) (seen seen' : ℕ → Bool) (n : ℕ) (s : S)
      (out : RelReceiver S × Bool)
      → Outcome mux closed dispatch first payload head inner Far seen' n s out
      → (Never mux closed dispatch first payload head inner n s
          → (j : ℕ) → seen' j ≡ (if j == a.0 then true else seen j))
      → Later rest
      → Ended
          (a ∷ rest)
          seen
          n
          s
          (if out.1 then receives mux closed dispatch payload out.0 rest else out)
  unfolding Later
  one_more a rest seen seen' n s out (stopped m d e b) agree later =
      subst
        (λ b.
          Ended (a ∷ rest) seen n s
            (if b then receives mux closed dispatch payload out.0 rest else out))
        (sym e) (halted m d e)
  one_more a rest seen seen' n s out (going m v d e gap) agree later =
      subst
        (λ b.
          Ended (a ∷ rest) seen n s
            (if b then receives mux closed dispatch payload out.0 rest else out))
        (sym e) (extend (later seen' m out.0 v gap))
    where
      extend :
          {o : RelReceiver S × Bool} → Ended rest seen' m out.0.rest o → Ended (a ∷ rest) seen n s o
      extend (halted k x y) = halted k (Delivers-trans dispatch head inner d x) y
      extend (open_end seen'' k i x g same) =
          open_end seen'' k i (Delivers-trans dispatch head inner d x) g (λ never j.
            same (λ k t c. never k t (Delivers-trans dispatch head inner d c)) j
            ∙ rw (agree never j) (split (j == a.0) (seen j) (arrived rest j)))
        where
          split : (t x y : Bool) → ((if t then true else x) || y) ≡ (x || (t || y))
          split true true y = refl
          split true false y = refl
          split false x y = refl

  Took-more :
      (a : Arrival) (rest : List Arrival) (seen : ℕ → Bool) (n : ℕ) (r : RelReceiver S)
      (o : RelReceiver S × Bool)
      → Took mux closed dispatch first payload head inner seen n r a.0 o
      → Later rest
      → Ended
          (a ∷ rest)
          seen
          n
          r.rest
          (if o.1 then receives mux closed dispatch payload o.0 rest else o)
  Took-more a rest seen n r o (added out) later =
      one_more a rest seen (joined a.0 seen) n r.rest o out (λ never j. refl) later
  Took-more a rest seen n r o (unchanged out (inl is)) later =
      one_more a rest seen seen n r.rest o out (λ never j. joined_same a.0 seen is j) later
  Took-more a rest seen n r o (unchanged out (inr c)) later =
      one_more a rest seen seen n r.rest o out (λ never j. cc (c, never n r.rest here)) later

  pub on_rel-on_head :
      (r : RelReceiver S) (k fseq : ℕ)
      → on_rel mux closed dispatch r (payload k) fseq
        ≡ on_head mux closed dispatch r (head k) (inner k) (payload k) fseq
  unfolding on_rel on_head
  on_rel-on_head r k fseq = rw (on_rel, w.reads k) refl

  receives_lem : (arrivals : List Arrival) → InReach arrivals → Later arrivals
  unfolding Later
  receives_lem [] near seen n r v gap = open_end seen n v here gap (λ never j. by_cases (seen j))
    where
      by_cases : (b : Bool) → b ≡ (b || false)
      by_cases true = refl
      by_cases false = refl
  receives_lem (a ∷ rest) (is_near, near) seen n r v gap =
      subst
        (λ o.
          Ended (a ∷ rest) seen n r.rest
            (if o.1 then receives mux closed dispatch payload o.0 rest else o))
        (sym (on_rel-on_head r a.0 a.1))
        (Took-more a rest seen n r _
          (on_head_lem mux closed dispatch first payload head inner a.0 a.1 w v gap is_near.0
            is_near.1)
          (receives_lem rest near))

  module _ (r : RelReceiver S) (arrivals : List Arrival) (first_fits : first < 2 ^ 32)
      (slots : length r.held ≡ 8) (near : InReach arrivals) where
    abbrev none_seen : ℕ → Bool
    none_seen j = false

    init_recv-Inv : Inv first payload none_seen 0 (init_recv r first)
    unfolding init_recv
    init_recv-Inv = record {
      reach = omega arith;
      cum_is = omega arith;
      slots = slots;
      marks = λ k p q. taken_none ((first + k) % 8);
      kept = λ k p q e. cc;
      before = λ k p q. absurd (omega arith);
      beyond = λ k p. refl;
      near = λ k e. cc;
    }

    ended :
        Ended arrivals none_seen 0 r.rest
          (receives mux closed dispatch payload (init_recv r first) arrivals)
    unfolding init_recv Later
    ended = receives_lem arrivals near none_seen 0 (init_recv r first) init_recv-Inv (inr refl)

    -- When RELs of one sender arrive at a receiver of eight slots, numbered from 1 to 2^31 - 1
    -- behind a uint32 cseq, each readable and of at most 275 bytes, and none a handshake frame
    -- unless the carrier is a MUX trunk: in whatever order and however often they arrive, what
    -- the carrier's state goes through is the dispatch of the sender's RELs 1 to some m, in order
    -- and each once, also if the reader stops at a violation.
    pub receives-Delivers :
        (m : ℕ) × Delivers dispatch head inner 0 r.rest m
          (receives mux closed dispatch payload (init_recv r first) arrivals).0.rest
    receives-Delivers = delivered ended
      where
        delivered :
            {o : RelReceiver S × Bool}
            → Ended arrivals none_seen 0 r.rest o
            → (m : ℕ) × Delivers dispatch head inner 0 r.rest m o.0.rest
        delivered (halted m d e) = (m, d)
        delivered (open_end seen m v d gap same) = (m, d)

    -- When RELs of one sender arrive at a receiver of eight slots, numbered from 1 to 2^31 - 1
    -- behind a uint32 cseq, each readable and of at most 275 bytes, and none a handshake frame
    -- unless the carrier is a MUX trunk: if no state that the dispatch of those RELs, in order
    -- from the first state, leads to has the peer closed, and the reader has not stopped, every REL up to the first that has not arrived was dispatched, in order and once, and the
    -- cumulative point is the number before that one.
    pub receives-arrived :
        Never mux closed dispatch first payload head inner 0 r.rest
        → (receives mux closed dispatch payload (init_recv r first) arrivals).1 ≡ true
        → (m : ℕ) × Delivers dispatch head inner 0 r.rest m
            (receives mux closed dispatch payload (init_recv r first) arrivals).0.rest
          × ((receives mux closed dispatch payload (init_recv r first) arrivals).0.cum
              ≡ (first + m) % 2 ^ 32)
          × (arrived_to arrivals m ≡ true)
          × (arrived arrivals (m + 1) ≡ false)
    receives-arrived never goes = complete ended goes
      where
        complete :
            {o : RelReceiver S × Bool}
            → Ended arrivals none_seen 0 r.rest o
            → o.1 ≡ true
            → (m : ℕ) × Delivers dispatch head inner 0 r.rest m o.0.rest
              × (o.0.cum ≡ (first + m) % 2 ^ 32)
              × (arrived_to arrivals m ≡ true)
              × (arrived arrivals (m + 1) ≡ false)
        complete (halted m d e) yes_on = cc
        complete {o = o} (open_end seen m v d gap same) yes_on = (
          m,
          d,
          v.cum_is,
          up_to arrivals m (λ k p q. sym (same never k) ∙ v.before k p q),
          sym (same never (m + 1)) ∙ missing gap,
        )
          where
            missing : (closed o.0.rest ≡ true) ⊎ (seen (m + 1) ≡ false) → seen (m + 1) ≡ false
            missing (inl c) = cc (c, never m o.0.rest d)
            missing (inr e) = e
