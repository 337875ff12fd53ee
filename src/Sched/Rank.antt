-- ===== src/Sched/Rank.antt =====
-- The ranking of a peer's factories: Less and Rank (internal/sched/rank.go) over the evidence
-- states of evidence.go.
use rendr.Common.{
  ℕ, ◌≡◌, refl, sym, ap, ap₂, ◌∙◌, ◌≢◌, ◌⊎◌, inl, inr, Bool, true, false, not, ◌&&◌, List, [], ◌∷◌,
  map, arith, ltb, ◌==◌, if◌then◌else◌, Bool-cases, length, get_or,
}
use rendr.Common.Int.{ℤ, pos, pos_part, lt_int, eq_int, positive, lt_int-pos_part, eq_int-pos_part}
use rendr.Sched.Insertion.{
  Same, Ordered, indices, insertion_sort, insertion_sort-Same, insertion_sort-Ordered,
}

pub data EvState : Type 0 where
  ev_unknown ev_fresh ev_held ev_stale : EvState

pub record Evidence : Type 0 where
  pub state : EvState
  pub rtt : ℤ

pub record Candidate : Type 0 where
  pub index : ℕ
  pub ev : Evidence
  pub failed : Bool
  pub class : ℕ

abbrev differ : Bool → Bool → Bool
differ true b = not b
differ false b = b

-- EvFresh or EvHeld.
abbrev recent : EvState → Bool
recent ev_unknown = false
recent ev_fresh = true
recent ev_held = true
recent ev_stale = false

unfoldable pub measured : Candidate → Bool
measured c = recent c.ev.state && positive c.ev.rtt

unfoldable pub less : Candidate → Candidate → Bool
less x y =
    if differ x.failed y.failed
    then y.failed
    else if not (x.class == y.class)
    then ltb x.class y.class
    else if not x.failed
    then (if differ (measured x) (measured y)
        then measured x
        else if measured x && not (eq_int x.ev.rtt y.ev.rtt)
        then lt_int x.ev.rtt y.ev.rtt
        else ltb x.index y.index)
    else ltb x.index y.index

-- `cs[p]`; every position that occurs is below `len(cs)`.
abbrev nobody : Candidate
nobody = record {
  index = 0;
  ev = record { state = ev_unknown; rtt = pos 0 };
  failed = false;
  class = 0;
}

abbrev pub candidate_at : List Candidate → ℕ → Candidate
candidate_at cs p = get_or cs p nobody

abbrev pub less_at : List Candidate → ℕ → ℕ → Bool
less_at cs p q = less (candidate_at cs p) (candidate_at cs q)

-- The array `out` before the last loop.
unfoldable pub positions : List Candidate → List ℕ
positions cs = insertion_sort (less_at cs) (length cs)

-- The result depends on the buffer `out` in its capacity only, which is left out.
unfoldable pub rank : List Candidate → List ℕ
rank cs = map (λ p. (candidate_at cs p).index) (positions cs)

-- The key that the comment on Less describes, most significant part first.
abbrev pub key : Candidate → List ℕ
key c =
    (if c.failed then 1 else 0)
    ∷ c.class
    ∷ (if c.failed then 0 else if measured c then 0 else 1)
    ∷ (if c.failed then 0 else if measured c then pos_part c.ev.rtt else 0)
    ∷ c.index
    ∷ []

-- The lexicographic order of keys.
abbrev pub lex : List ℕ → List ℕ → Bool
lex [] ys = false
lex (x ∷ xs) [] = false
lex (x ∷ xs) (y ∷ ys) = let later = lex xs ys in if x == y then later else ltb x y

measured-positive : (c : Candidate) → measured c ≡ true → positive c.ev.rtt ≡ true
unfolding measured
measured-positive c h = ground arith

less-keys :
    (x y : Candidate)
    → (measured x && measured y) ≡ true
    → (eq_int x.ev.rtt y.ev.rtt ≡ (pos_part x.ev.rtt == pos_part y.ev.rtt))
      × (lt_int x.ev.rtt y.ev.rtt ≡ ltb (pos_part x.ev.rtt) (pos_part y.ev.rtt))
less-keys x y h =
    let a : positive x.ev.rtt ≡ true = measured-positive x (ground arith) in
    let b : positive y.ev.rtt ≡ true = measured-positive y (ground arith) in
    (eq_int-pos_part x.ev.rtt y.ev.rtt a b, lt_int-pos_part x.ev.rtt y.ev.rtt a b)

-- Less compares the keys of two candidates lexicographically.
pub less-lex : (x y : Candidate) → less x y ≡ lex (key x) (key y)
unfolding less
less-lex x y = elim (Bool-cases (measured x && measured y)) [
  | inl e ↦ let (same_rtt, less_rtt) = less-keys x y e in ground arith
  | inr e ↦ ground arith
]

lex-asym : (a b : List ℕ) → lex a b ≡ true → lex b a ≡ false
lex-asym [] b h = cc
lex-asym (x ∷ a) [] h = cc
lex-asym (x ∷ a) (y ∷ b) h = ground (arith, lex-asym a b)

lex_neg_trans :
    (a b c : List ℕ) → length a ≡ length b → lex a b ≡ false → lex b c ≡ false → lex a c ≡ false
lex_neg_trans [] b c n h k = refl
lex_neg_trans (x ∷ a) [] c n h k = absurd (omega arith)
lex_neg_trans (x ∷ a) (y ∷ b) [] n h k = refl
lex_neg_trans (x ∷ a) (y ∷ b) (z ∷ c) n h k = ground (arith, lex_neg_trans a b c)

lex-antisym : (a b : List ℕ) → length a ≡ length b → lex a b ≡ false → lex b a ≡ false → a ≡ b
lex-antisym [] [] n h k = refl
lex-antisym [] (y ∷ b) n h k = absurd (omega arith)
lex-antisym (x ∷ a) [] n h k = absurd (omega arith)
lex-antisym (x ∷ a) (y ∷ b) n h k =
    let head : x ≡ y = ground arith in
    let tail : a ≡ b = lex-antisym a b (omega arith) (ground arith) (ground arith) in
    ap₂ (λ t ts. t ∷ ts) head tail

less-asym : (x y : Candidate) → less x y ≡ true → less y x ≡ false
less-asym x y h = less-lex y x ∙ lex-asym (key x) (key y) (sym (less-lex x y) ∙ h)

less_neg_trans : (x y z : Candidate) → less x y ≡ false → less y z ≡ false → less x z ≡ false
less_neg_trans x y z h k =
    less-lex x z
    ∙ lex_neg_trans (key x) (key y) (key z) refl (sym (less-lex x y) ∙ h) (sym (less-lex y z) ∙ k)

-- Less is a strict total order on candidates of different indexes: of two such candidates exactly
-- one is before the other, and what is before `y` is before everything that `y` is before.
pub less_order :
    (x y z : Candidate)
    → x.index ≢ y.index
    → (((less x y ≡ true) × (less y x ≡ false)) ⊎ ((less x y ≡ false) × (less y x ≡ true)))
      × ((less x y && less y z && not (less x z)) ≡ false)
less_order x y z d = (one, through)
  where
    apart : less x y ≡ false → less y x ≡ false → ⊥
    apart h k = d (
        ap (λ t. get_or t 4 0)
          (lex-antisym (key x) (key y) refl (sym (less-lex x y) ∙ h) (sym (less-lex y x) ∙ k)))

    one : ((less x y ≡ true) × (less y x ≡ false)) ⊎ ((less x y ≡ false) × (less y x ≡ true))
    one = elim (Bool-cases (less x y)) [
      | inl e ↦ inl (e, less-asym x y e)
      | inr e ↦ elim (Bool-cases (less y x)) [ inl k ↦ inr (e, k) | inr k ↦ absurd (apart e k) ]
    ]

    through : (less x y && less y z && not (less x z)) ≡ false
    through = ground (arith, less_neg_trans x z y, less-asym y z)

-- Rank orders the positions of the candidates by Less: each position once, and none whose
-- candidate is before that of a position in front of it. It returns the candidates' indexes in
-- that order.
pub rank_lem :
    (cs : List Candidate)
    → Same (positions cs) (indices (length cs))
      × Ordered (less_at cs) (positions cs)
      × (rank cs ≡ map (λ p. (candidate_at cs p).index) (positions cs))
unfolding positions rank
rank_lem cs = (
  insertion_sort-Same (less_at cs) (length cs),
  insertion_sort-Ordered (less_at cs) (λ p q. less-asym (candidate_at cs p) (candidate_at cs q))
      (λ p q r. less_neg_trans (candidate_at cs p) (candidate_at cs q) (candidate_at cs r))
      (length cs),
  refl,
)
