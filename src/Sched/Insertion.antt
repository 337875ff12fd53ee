-- ===== src/Sched/Insertion.antt =====
-- The insertion sort of positions in Rank (internal/sched/rank.go) and SRTTOrder (formula.go), for
-- any comparison of positions.
use rendr.Common.{
  ℕ, zero, suc, ◌+◌, ◌-◌, ◌≡◌, refl, ap, ◌∙◌, inl, inr, Bool, true, false, List, [], ◌∷◌, arith,
  ◌==◌, if◌then◌else◌, Bool-cases, length, get_or, set, All,
}

-- Two lists have the same elements, each as often.
abbrev pub count : ℕ → List ℕ → ℕ
count x [] = 0
count x (y ∷ ys) = (if x == y then 1 else 0) + count x ys

abbrev pub Same : List ℕ → List ℕ → Type 0
Same xs ys = (x : ℕ) → count x xs ≡ count x ys

abbrev pub indices_from : ℕ → ℕ → List ℕ
indices_from i zero = []
indices_from i (suc n) = i ∷ indices_from (suc i) n

-- `for i := range out { out[i] = i }`.
abbrev pub indices : ℕ → List ℕ
indices n = indices_from 0 n

module _ (before : ℕ → ℕ → Bool) where
  -- The inner loop from `j` on, and the store of `p` behind it.
  abbrev shift : ℕ → ℕ → List ℕ → List ℕ
  shift p zero out = set out 0 p
  shift p (suc j) out =
      let more = shift p j (set out (suc j) (get_or out j 0)) in
      if before p (get_or out j 0) then more else set out (suc j) p

  -- The outer loop: `k` rounds are left and the next is for position `i`.
  abbrev rounds : ℕ → ℕ → List ℕ → List ℕ
  rounds zero i out = out
  rounds (suc k) i out = rounds k (suc i) (shift (get_or out i 0) i out)

  unfoldable pub insertion_sort : ℕ → List ℕ
  insertion_sort n = rounds (n - 1) 1 (indices n)

  -- No element is before one that stands in front of it.
  abbrev pub Ordered : List ℕ → Type 0
  Ordered [] = Unit {0}
  Ordered (x ∷ xs) = All (λ y. before y x ≡ false) xs × Ordered xs

  -- The sorted part, last element first.
  abbrev Descends : List ℕ → Type 0
  Descends [] = Unit {0}
  Descends (y ∷ ys) = All (λ z. before y z ≡ false) ys × Descends ys

  abbrev insert : ℕ → List ℕ → List ℕ
  insert p [] = p ∷ []
  insert p (y ∷ ys) = if before p y then y ∷ insert p ys else p ∷ y ∷ ys

  abbrev insert_all : List ℕ → List ℕ → List ℕ
  insert_all front [] = front
  insert_all front (x ∷ rest) = insert_all (insert x front) rest

abbrev onto : List ℕ → List ℕ → List ℕ
onto [] zs = zs
onto (y ∷ ys) zs = onto ys (y ∷ zs)

get-onto : (ys zs : List ℕ) (k j : ℕ) → j ≡ length ys + k → get_or (onto ys zs) j 0 ≡ get_or zs k 0
get-onto [] zs k j h = ap (λ n. get_or zs n 0) {x = j} {y = k} (omega arith)
get-onto (y ∷ ys) zs k j h = get-onto ys (y ∷ zs) (suc k) j (omega arith)

set-onto :
    (ys zs : List ℕ) (k v j : ℕ) → j ≡ length ys + k → set (onto ys zs) j v ≡ onto ys (set zs k v)
set-onto [] zs k v j h = ap (λ n. set zs n v) {x = j} {y = k} (omega arith)
set-onto (y ∷ ys) zs k v j h = set-onto ys (y ∷ zs) (suc k) v j (omega arith)

count-onto : (x : ℕ) (ys zs : List ℕ) → count x (onto ys zs) ≡ count x ys + count x zs
count-onto x [] zs = omega arith
count-onto x (y ∷ ys) zs = omega (arith, count-onto x ys (y ∷ zs))

module _ (before : ℕ → ℕ → Bool) where
  length-insert : (p : ℕ) (ys : List ℕ) → length (insert before p ys) ≡ suc (length ys)
  length-insert p [] = refl
  length-insert p (y ∷ ys) = ground (arith, length-insert p ys)

  count-insert : (x p : ℕ) (ys : List ℕ) → count x (insert before p ys) ≡ count x (p ∷ ys)
  count-insert x p [] = refl
  count-insert x p (y ∷ ys) = ground (arith, count-insert x p ys)

  count-insert_all :
      (x : ℕ) (front rest : List ℕ)
      → count x (insert_all before front rest) ≡ count x front + count x rest
  count-insert_all x front [] = omega arith
  count-insert_all x front (p ∷ rest) =
      omega (arith, count-insert_all x (insert before p front) rest, count-insert x p front)

  -- The loop over the array is the insertion into the sorted part.
  shift-onto :
      (p : ℕ) (ys : List ℕ) (x : ℕ) (rest : List ℕ)
      → shift before p (length ys) (onto ys (x ∷ rest)) ≡ onto (insert before p ys) rest
  shift-onto p [] x rest = refl
  shift-onto p (y ∷ ys) x rest =
      rw
        (
          get-onto ys (y ∷ x ∷ rest) 0 (length ys) (omega arith),
          set-onto ys (y ∷ x ∷ rest) 1 y (suc (length ys)) (omega arith),
          set-onto ys (y ∷ x ∷ rest) 1 p (suc (length ys)) (omega arith),
          shift-onto p ys y (y ∷ rest),
        )
        (elim (Bool-cases (before p y)) [ inl e ↦ rw e refl | inr e ↦ rw e refl ])

  rounds-onto :
      (ys rest : List ℕ) (i : ℕ)
      → i ≡ length ys
      → rounds before (length rest) i (onto ys rest) ≡ onto (insert_all before ys rest) []
  rounds-onto ys [] i h = refl
  rounds-onto ys (x ∷ rest) i h =
      ap (λ t. rounds before (length rest) (suc i) t) step
      ∙ rounds-onto (insert before x ys) rest (suc i) (omega (arith, length-insert x ys))
    where
      step :
          shift before (get_or (onto ys (x ∷ rest)) i 0) i (onto ys (x ∷ rest))
          ≡ onto (insert before x ys) rest
      step =
          ap (λ t. shift before t i (onto ys (x ∷ rest))) (get-onto ys (x ∷ rest) 0 i (omega arith))
          ∙ ap (λ t. shift before x t (onto ys (x ∷ rest))) h
          ∙ shift-onto x ys x rest

  length-indices_from : (i n : ℕ) → length (indices_from i n) ≡ n
  length-indices_from i zero = refl
  length-indices_from i (suc n) = ap (λ t. suc t) (length-indices_from (suc i) n)

  -- The sorted array, by insertion into a list.
  sorted :
      (n : ℕ)
      → insertion_sort before (suc n) ≡ onto (insert_all before (0 ∷ []) (indices_from 1 n)) []
  unfolding insertion_sort
  sorted n =
      ap (λ k. rounds before k 1 (indices (suc n))) {x = suc n - 1} {y = length (indices_from 1 n)}
        (omega (arith, length-indices_from 1 n))
      ∙ rounds-onto (0 ∷ []) (indices_from 1 n) 1 refl

  -- The result holds the positions, each once.
  pub insertion_sort-Same : (n : ℕ) → Same (insertion_sort before n) (indices n)
  insertion_sort-Same zero x = unfold insertion_sort in refl
  insertion_sort-Same (suc n) x = rw (sorted n) (
      omega (
        arith,
        count-onto x (insert_all before (0 ∷ []) (indices_from 1 n)) [],
        count-insert_all x (0 ∷ []) (indices_from 1 n),
      ))

module _ (before : ℕ → ℕ → Bool) (asym : (x y : ℕ) → before x y ≡ true → before y x ≡ false)
    (neg_trans : (x y z : ℕ) → before x y ≡ false → before y z ≡ false → before x z ≡ false) where
  All-behind :
      (p y : ℕ) (ys : List ℕ)
      → before p y ≡ false
      → All (λ z. before y z ≡ false) ys
      → All (λ z. before p z ≡ false) ys
  All-behind p y [] h a = tt
  All-behind p y (z ∷ ys) h a = (neg_trans p y z h a.0, All-behind p y ys h a.1)

  All-insert :
      (p y : ℕ) (ys : List ℕ)
      → before y p ≡ false
      → All (λ z. before y z ≡ false) ys
      → All (λ z. before y z ≡ false) (insert before p ys)
  All-insert p y [] h a = (h, tt)
  All-insert p y (z ∷ ys) h a = elim (Bool-cases (before p z)) [
    | inl e ↦ rw e (a.0, All-insert p y ys h a.1)
    | inr e ↦ rw e (h, a)
  ]

  insert-Descends :
      (p : ℕ) (ys : List ℕ) → Descends before ys → Descends before (insert before p ys)
  insert-Descends p [] d = (tt, tt)
  insert-Descends p (y ∷ ys) d = elim (Bool-cases (before p y)) [
    | inl e ↦ rw e (All-insert p y ys (asym p y e) d.0, insert-Descends p ys d.1)
    | inr e ↦ rw e ((e, All-behind p y ys e d.0), d)
  ]

  insert_all-Descends :
      (front rest : List ℕ) → Descends before front → Descends before (insert_all before front rest)
  insert_all-Descends front [] d = d
  insert_all-Descends front (x ∷ rest) d =
      insert_all-Descends (insert before x front) rest (insert-Descends x front d)

  -- Every element of the second list is not before any of the first.
  abbrev Apart : List ℕ → List ℕ → Type 0
  Apart [] zs = Unit {0}
  Apart (y ∷ ys) zs = All (λ z. before z y ≡ false) zs × Apart ys zs

  Apart-cons :
      (y : ℕ) (ys zs : List ℕ) → All (λ w. before y w ≡ false) ys → Apart ys zs → Apart ys (y ∷ zs)
  Apart-cons y [] zs a p = tt
  Apart-cons y (w ∷ ys) zs a p = ((a.0, p.0), Apart-cons y ys zs a.1 p.1)

  onto-Ordered :
      (ys zs : List ℕ)
      → Descends before ys
      → Ordered before zs
      → Apart ys zs
      → Ordered before (onto ys zs)
  onto-Ordered [] zs d o p = o
  onto-Ordered (y ∷ ys) zs d o p =
      onto-Ordered ys (y ∷ zs) d.1 (p.0, o) (Apart-cons y ys zs d.0 p.1)

  Apart-nil : (ys : List ℕ) → Apart ys []
  Apart-nil [] = tt
  Apart-nil (y ∷ ys) = (tt, Apart-nil ys)

  -- No position of the result is before one that stands in front of it.
  pub insertion_sort-Ordered : (n : ℕ) → Ordered before (insertion_sort before n)
  insertion_sort-Ordered zero = unfold insertion_sort in tt
  insertion_sort-Ordered (suc n) =
      let ys = insert_all before (0 ∷ []) (indices_from 1 n) in
      rw (sorted before n) (
        onto-Ordered ys [] (insert_all-Descends (0 ∷ []) (indices_from 1 n) (tt, tt)) tt
          (Apart-nil ys))
