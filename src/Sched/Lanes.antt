-- ===== src/Sched/Lanes.antt =====
-- The order of a bond's lanes by round-trip time: srttLess and SRTTOrder (internal/sched/formula.go).
use rendr.Common.{
  ℕ, ◌≡◌, refl, sym, ◌∙◌, subst, inl, inr, Bool, true, false, not, ◌&&◌, ◌||◌, List, arith, ltb,
  ◌==◌, if◌then◌else◌, Bool-cases, length, get_or,
}
use rendr.Common.Int.{
  ℤ, pos, negsuc, lt_int, eq_int, positive, pos_part, lt_int-pos_part, eq_int-pos_part,
}
use rendr.Sched.Insertion.{
  Same, Ordered, indices, insertion_sort, insertion_sort-Same, insertion_sort-Ordered,
}

abbrev differ : Bool → Bool → Bool
differ true b = not b
differ false b = b

-- `srtt[a]`; every lane that occurs is below `len(srtt)`.
abbrev pub lane : List ℤ → ℕ → ℤ
lane srtt a = get_or srtt a (pos 0)

unfoldable pub srtt_less : List ℤ → ℕ → ℕ → Bool
srtt_less srtt a b =
    let ka = positive (lane srtt a) in
    let kb = positive (lane srtt b) in
    if differ ka kb
    then ka
    else if ka && not (eq_int (lane srtt a) (lane srtt b))
    then lt_int (lane srtt a) (lane srtt b)
    else ltb a b

-- The result does not depend on the buffer `out` but for its capacity, which is left out.
unfoldable pub srtt_order : List ℤ → List ℕ
srtt_order srtt = insertion_sort (srtt_less srtt) (length srtt)

-- Known round-trip times by value, then unknown ones, and lanes of equal times by index.
abbrev pub in_order : ℕ → ℕ → ℕ → ℕ → Bool
in_order r s a b = if r == 0 then s == 0 && ltb a b else s == 0 || (ltb r s || (r == s && ltb a b))

positive-pos_part : (r : ℤ) → positive r ≡ not (pos_part r == 0)
positive-pos_part (pos n) = ground arith
positive-pos_part (negsuc n) = refl

srtt_less-in_order :
    (srtt : List ℤ) (a b : ℕ)
    → srtt_less srtt a b ≡ in_order (pos_part (lane srtt a)) (pos_part (lane srtt b)) a b
unfolding srtt_less
srtt_less-in_order srtt a b = elim (Bool-cases (positive (lane srtt a) && positive (lane srtt b))) [
  | inl e ↦
      let same_rtt = eq_int-pos_part (lane srtt a) (lane srtt b) (ground arith) (ground arith) in
      let less_rtt = lt_int-pos_part (lane srtt a) (lane srtt b) (ground arith) (ground arith) in
      ground (arith, positive-pos_part (lane srtt a), positive-pos_part (lane srtt b))
  | inr e ↦ ground (arith, positive-pos_part (lane srtt a), positive-pos_part (lane srtt b))
]

in_order-asym : (r s a b : ℕ) → in_order r s a b ≡ true → in_order s r b a ≡ false
in_order-asym r s a b h = ground arith

in_order_neg_trans :
    (r s t a b c : ℕ)
    → in_order r s a b ≡ false
    → in_order s t b c ≡ false
    → in_order r t a c ≡ false
in_order_neg_trans r s t a b c h k = ground arith

srtt_less-asym : (srtt : List ℤ) (a b : ℕ) → srtt_less srtt a b ≡ true → srtt_less srtt b a ≡ false
srtt_less-asym srtt a b h =
    srtt_less-in_order srtt b a
    ∙ in_order-asym (pos_part (lane srtt a)) (pos_part (lane srtt b)) a b
        (sym (srtt_less-in_order srtt a b) ∙ h)

srtt_less_neg_trans :
    (srtt : List ℤ) (a b c : ℕ)
    → srtt_less srtt a b ≡ false
    → srtt_less srtt b c ≡ false
    → srtt_less srtt a c ≡ false
srtt_less_neg_trans srtt a b c h k =
    srtt_less-in_order srtt a c
    ∙ in_order_neg_trans (pos_part (lane srtt a)) (pos_part (lane srtt b)) (pos_part (lane srtt c))
        a b c (sym (srtt_less-in_order srtt a b) ∙ h) (sym (srtt_less-in_order srtt b c) ∙ k)

-- SRTTOrder returns the lanes, each once. None is before one that stands in front of it, where the
-- lanes of positive round-trip time come first, by its value, and equal ones by index.
pub srtt_order_lem :
    (srtt : List ℤ)
    → Same (srtt_order srtt) (indices (length srtt))
      × Ordered
          (λ a b. in_order (pos_part (lane srtt a)) (pos_part (lane srtt b)) a b)
          (srtt_order srtt)
unfolding srtt_order
srtt_order_lem srtt = (
  insertion_sort-Same (srtt_less srtt) (length srtt),
  subst (λ before. Ordered before (insertion_sort (srtt_less srtt) (length srtt)))
      (λ i a b. srtt_less-in_order srtt a b i)
      (insertion_sort-Ordered (srtt_less srtt) (srtt_less-asym srtt) (srtt_less_neg_trans srtt)
        (length srtt)),
)
