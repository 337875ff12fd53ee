-- ===== src/Session/Segments/Search.antt =====
-- The binary search of a segment list (segList.after of internal/session/stream.go).
use rendr.Common.{
  ℕ, zero, suc, ◌+◌, ◌/◌, ◌≤◌, ◌<◌, ◌≡◌, inl, inr, List, [], ◌∷◌, arith, leb, if◌then◌else◌,
  Bool-cases, lt→ltb, le→ltb, leb→le, leb→lt, le→leb, lt→leb, length, get_or, take, drop,
}
use native.Mathlib.Decide.{dec_lt}
use rendr.Session.Segments.{Seg, seg_end, no_seg, after_between, after}
use rendr.Session.Segments.Chain.{Spread}

-- How many segments, from the front, end at or before `x`.
unfoldable pub passed : List Seg → ℕ → ℕ
passed [] x = 0
passed (sg ∷ l) x = if leb (seg_end sg) x then suc (passed l x) else 0

module _ (content : ℕ → ℕ) where
  pub passed-le_length : (l : List Seg) (x : ℕ) → passed l x ≤ length l
  unfolding passed
  passed-le_length [] x = omega arith
  passed-le_length (sg ∷ l) x = ground (arith, passed-le_length l x)

  end-le :
      (lo hi x : ℕ) (l : List Seg) (m : ℕ)
      → Spread content lo l hi
      → m < length l
      → lo ≤ seg_end (get_or l m no_seg)
  end-le lo hi x [] m s h = absurd (omega arith)
  end-le lo hi x (sg ∷ l) zero s h = omega (arith, s.0)
  end-le lo hi x (sg ∷ l) (suc m) s h =
      omega (arith, s.0, end-le (seg_end sg) hi x l m s.2 (omega arith))

  below-passed :
      (lo hi x : ℕ) (l : List Seg) (m : ℕ)
      → Spread content lo l hi
      → m < length l
      → seg_end (get_or l m no_seg) ≤ x
      → m < passed l x
  unfolding passed
  below-passed lo hi x [] m s h e = absurd (omega arith)
  below-passed lo hi x (sg ∷ l) zero s h e = rw (le→leb (seg_end sg) x e) (omega arith)
  below-passed lo hi x (sg ∷ l) (suc m) s h e =
      rw (le→leb (seg_end sg) x (omega (arith, end-le (seg_end sg) hi x l m s.2 (omega arith))))
        (omega (arith, below-passed (seg_end sg) hi x l m s.2 (omega arith) e))

  passed-le :
      (x : ℕ) (l : List Seg) (m : ℕ)
      → x < seg_end (get_or l m no_seg)
      → m < length l
      → passed l x ≤ m
  unfolding passed
  passed-le x [] m e h = omega arith
  passed-le x (sg ∷ l) zero e h = rw (lt→leb (seg_end sg) x e) (omega arith)
  passed-le x (sg ∷ l) (suc m) e h = ground (arith, passed-le x l m e (omega arith))

  after_between-passed :
      (n lo hi x : ℕ) (l : List Seg) (a b : ℕ)
      → Spread content lo l hi
      → a ≤ passed l x
      → passed l x ≤ b
      → b ≤ length l
      → b ≤ a + n
      → after_between n l x a b ≡ passed l x
  unfolding after_between
  after_between-passed zero lo hi x l a b s p q r f = omega arith
  after_between-passed (suc n) lo hi x l a b s p q r f = elim (dec_lt a b) [
    | no g ↦ rw (le→ltb a b (omega arith)) (omega arith)
    | yes g ↦
        rw (lt→ltb a b g) (elim (Bool-cases (leb (seg_end (get_or l ((a + b) / 2) no_seg)) x)) [
          | inl e ↦ rw e (
              after_between-passed n lo hi x l (suc ((a + b) / 2)) b s
                (omega (
                  arith,
                  below-passed lo hi x l ((a + b) / 2) s (omega arith)
                      (leb→le (seg_end (get_or l ((a + b) / 2) no_seg)) x e),
                ))
                q r (omega arith))
          | inr e ↦ rw e (
              after_between-passed n lo hi x l a ((a + b) / 2) s p
                (passed-le x l ((a + b) / 2) (leb→lt (seg_end (get_or l ((a + b) / 2) no_seg)) x e)
                  (omega arith))
                (omega arith) (omega arith))
        ])
  ]

  -- On segments that lie between two offsets, do not overlap and ascend, the binary search of
  -- segList.after returns how many segments, counted from the front, end at or before `x`.
  pub after-passed : (lo hi x : ℕ) (l : List Seg) → Spread content lo l hi → after l x ≡ passed l x
  unfolding after
  after-passed lo hi x l s =
      after_between-passed (length l) lo hi x l 0 (length l) s (omega arith) (passed-le_length l x)
        (omega arith) (omega arith)

  pub take-passed :
      (lo hi x : ℕ) (l : List Seg)
      → Spread content lo l hi
      → lo ≤ x
      → Spread content lo (take (passed l x) l) x
  unfolding passed
  take-passed lo hi x [] s h = h
  take-passed lo hi x (sg ∷ l) s h = elim (Bool-cases (leb (seg_end sg) x)) [
    | inl e ↦ rw e (s.0, s.1, take-passed (seg_end sg) hi x l s.2 (leb→le (seg_end sg) x e))
    | inr e ↦ rw e h
  ]

  pub passed_end :
      (x : ℕ) (l : List Seg) → passed l x < length l → x < seg_end (get_or l (passed l x) no_seg)
  unfolding passed
  passed_end x [] h = absurd (omega arith)
  passed_end x (sg ∷ l) h = elim (Bool-cases (leb (seg_end sg) x)) [
    | inl e ↦ rw e (passed_end x l (omega (arith, rw e at h)))
    | inr e ↦ rw e (leb→lt (seg_end sg) x e)
  ]

  -- The segments from the `i`-th on, seen from any position up to where that one begins.
  pub Spread-drop :
      (lo hi stop : ℕ) (l : List Seg) (i : ℕ)
      → Spread content lo l hi
      → stop ≤ hi
      → (i < length l → stop ≤ Seg.off (get_or l i no_seg))
      → Spread content stop (drop i l) hi
  Spread-drop lo hi stop [] zero s e f = e
  Spread-drop lo hi stop [] (suc i) s e f = e
  Spread-drop lo hi stop (sg ∷ l) zero s e f = (f (omega arith), s.1, s.2)
  Spread-drop lo hi stop (sg ∷ l) (suc i) s e f =
      Spread-drop (seg_end sg) hi stop l i s.2 e (λ g. f (omega arith))

  -- The segments up to the `i`-th, and those after it.
  pub Spread-split :
      (lo hi : ℕ) (l : List Seg) (i : ℕ)
      → Spread content lo l hi
      → i < length l
      → Spread content lo (take (suc i) l) (seg_end (get_or l i no_seg))
        × Spread content (seg_end (get_or l i no_seg)) (drop (suc i) l) hi
  Spread-split lo hi [] i s h = absurd (omega arith)
  Spread-split lo hi (sg ∷ l) zero s h = ((s.0, s.1, omega arith), s.2)
  Spread-split lo hi (sg ∷ l) (suc i) s h =
      let (a, b) = Spread-split (seg_end sg) hi l i s.2 (omega arith) in ((s.0, s.1, a), b)
