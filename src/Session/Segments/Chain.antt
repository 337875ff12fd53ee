-- ===== src/Session/Segments/Chain.antt =====
-- Segments one after the other that hold the bytes of a stream.
use rendr.Common.{
  ℕ, zero, suc, ◌+◌, ◌-◌, ◌≤◌, ◌<◌, min, ◌≡◌, refl, sym, ap, ap₂, ◌∙◌, subst, some, List, [], ◌∷◌,
  ◌++◌, arith, length, take, drop, length-append, slice,
}
use rendr.Session.Segments.{back, set_back, push, Seg, seg_end}

-- The bytes of a stream from `off` on.
abbrev pub stretch : (ℕ → ℕ) → ℕ → ℕ → List ℕ
stretch content off zero = []
stretch content off (suc n) = content off ∷ stretch content (suc off) n

pub length-stretch : (content : ℕ → ℕ) (off n : ℕ) → length (stretch content off n) ≡ n
length-stretch content off zero = refl
length-stretch content off (suc n) = ap suc (length-stretch content (suc off) n)

pub drop-stretch :
    (content : ℕ → ℕ) (off n k : ℕ)
    → drop k (stretch content off n) ≡ stretch content (off + k) (n - k)
drop-stretch content off n zero = ap₂ (λ u v. stretch content u v) (omega arith) (omega arith)
drop-stretch content off zero (suc k) =
    ap (λ t. stretch content (off + suc k) t) {x = 0} (omega arith)
drop-stretch content off (suc n) (suc k) =
    drop-stretch content (suc off) n k
    ∙ ap₂ (λ u v. stretch content u v) (omega arith) (omega arith)

pub take-stretch :
    (content : ℕ → ℕ) (off n k : ℕ) → take k (stretch content off n) ≡ stretch content off (min k n)
take-stretch content off n zero = ap (λ t. stretch content off t) {x = 0} (omega arith)
take-stretch content off zero (suc k) = ap (λ t. stretch content off t) {x = 0} (omega arith)
take-stretch content off (suc n) (suc k) =
    ap (λ t. content off ∷ t) (take-stretch content (suc off) n k)
    ∙ ap (λ t. stretch content off t) {x = suc (min k n)} (omega arith)

pub append-stretch :
    (content : ℕ → ℕ) (off n k : ℕ)
    → stretch content off n ++ stretch content (off + n) k ≡ stretch content off (n + k)
append-stretch content off zero k = ap₂ (λ u v. stretch content u v) (omega arith) (omega arith)
append-stretch content off (suc n) k =
    ap (λ t. content off ∷ (stretch content (suc off) n ++ stretch content t k)) {x = off + suc n}
      {y = suc off + n} (omega arith)
    ∙ ap (λ t. content off ∷ t) (append-stretch content (suc off) n k)
    ∙ ap (λ t. stretch content off t) {x = suc (n + k)} (omega arith)

-- `p` holds the stream's bytes at `off`.
abbrev pub Agrees : (ℕ → ℕ) → ℕ → List ℕ → Type 0
Agrees content off p = p ≡ stretch content off (length p)

pub Agrees-stretch : (content : ℕ → ℕ) (off n : ℕ) → Agrees content off (stretch content off n)
Agrees-stretch content off n = ap (λ t. stretch content off t) (sym (length-stretch content off n))

pub Agrees-slice :
    (content : ℕ → ℕ) (off : ℕ) (p : List ℕ) (i n : ℕ)
    → Agrees content off p
    → slice p i n ≡ stretch content (off + i) (min n (length p - i))
Agrees-slice content off p i n h =
    ap (λ t. slice t i n) h
    ∙ ap (λ t. take n t) (drop-stretch content off (length p) i)
    ∙ take-stretch content (off + i) (length p - i) n

pub Agrees-append :
    (content : ℕ → ℕ) (off : ℕ) (p q : List ℕ)
    → Agrees content off p
    → Agrees content (off + length p) q
    → Agrees content off (p ++ q)
Agrees-append content off p q h k =
    ap₂ (λ u v. u ++ v) h k
    ∙ append-stretch content off (length p) (length q)
    ∙ ap (λ t. stretch content off t) (sym (length-append p q))

pub Agrees-take :
    (content : ℕ → ℕ) (off : ℕ) (p : List ℕ) (n : ℕ)
    → Agrees content off p
    → Agrees content off (take n p)
Agrees-take content off p n h =
    subst (λ t. Agrees content off t)
      (sym (ap (λ t. take n t) h ∙ take-stretch content off (length p) n))
      (Agrees-stretch content off (min n (length p)))

pub Agrees-drop :
    (content : ℕ → ℕ) (off : ℕ) (p : List ℕ) (n : ℕ)
    → Agrees content off p
    → Agrees content (off + n) (drop n p)
Agrees-drop content off p n h =
    subst (λ t. Agrees content (off + n) t)
      (sym (ap (λ t. drop n t) h ∙ drop-stretch content off (length p) n))
      (Agrees-stretch content (off + n) (length p - n))

-- A segment with bytes, all of them the stream's.
abbrev pub Sound : (ℕ → ℕ) → Seg → Type 0
Sound content sg = (0 < length sg.bytes) × Agrees content sg.off sg.bytes

-- Segments that begin where the one before them ends, the first at `lo`, the last ending at `hi`.
abbrev pub Covers : (ℕ → ℕ) → ℕ → List Seg → ℕ → Type 0
Covers content lo [] hi = ◌≡◌ {A = ℕ} lo hi
Covers content lo (sg ∷ l) hi = (sg.off ≡ lo) × Sound content sg × Covers content (seg_end sg) l hi

-- Segments between `lo` and `hi` that do not overlap, in ascending order.
abbrev pub Spread : (ℕ → ℕ) → ℕ → List Seg → ℕ → Type 0
Spread content lo [] hi = ◌≤◌ lo hi
Spread content lo (sg ∷ l) hi = (lo ≤ sg.off) × Sound content sg × Spread content (seg_end sg) l hi

module _ (content : ℕ → ℕ) where
  Covers-append :
      (lo mid hi : ℕ) (l r : List Seg)
      → Covers content lo l mid
      → Covers content mid r hi
      → Covers content lo (l ++ r) hi
  Covers-append lo mid hi [] r c d = subst (λ t. Covers content t r hi) (sym c) d
  Covers-append lo mid hi (sg ∷ l) r c d = (c.0, c.1, Covers-append (seg_end sg) mid hi l r c.2 d)

  pub Covers-push :
      (lo : ℕ) (l : List Seg) (sg : Seg)
      → Covers content lo l sg.off
      → Sound content sg
      → Covers content lo (push l sg) (seg_end sg)
  Covers-push lo l sg c s = Covers-append lo sg.off (seg_end sg) l (sg ∷ []) c (refl, s, refl)

  pub Covers-le : (lo hi : ℕ) (l : List Seg) → Covers content lo l hi → lo ≤ hi
  Covers-le lo hi [] c = omega arith
  Covers-le lo hi (sg ∷ l) c = omega (arith, Covers-le (seg_end sg) hi l c.2)

  -- The last segment may be replaced by one that begins at the same byte.
  pub Covers-set_back :
      (lo hi : ℕ) (l : List Seg) (t u : Seg)
      → Covers content lo l hi
      → back l ≡ some t
      → u.off ≡ t.off
      → Sound content u
      → Covers content lo (set_back l u) (seg_end u)
  Covers-set_back lo hi [] t u c e o s = absurd cc
  Covers-set_back lo hi (sg ∷ []) t u c e o s =
      let q : sg ≡ t = cc in (o ∙ ap (λ x. Seg.off x) (sym q) ∙ c.0, s, refl)
  Covers-set_back lo hi (sg ∷ v ∷ l) t u c e o s =
      (c.0, c.1, Covers-set_back (seg_end sg) hi (v ∷ l) t u c.2 e o s)

  pub Spread-weaken :
      (lo lo' hi hi' : ℕ) (l : List Seg)
      → Spread content lo l hi
      → lo' ≤ lo
      → hi ≤ hi'
      → Spread content lo' l hi'
  Spread-weaken lo lo' hi hi' [] c p q = omega arith
  Spread-weaken lo lo' hi hi' (sg ∷ l) c p q =
      (omega arith, c.1, Spread-weaken (seg_end sg) (seg_end sg) hi hi' l c.2 (omega arith) q)

  pub Spread-le : (lo hi : ℕ) (l : List Seg) → Spread content lo l hi → lo ≤ hi
  Spread-le lo hi [] c = c
  Spread-le lo hi (sg ∷ l) c = omega (arith, Spread-le (seg_end sg) hi l c.2)

  pub Spread-append :
      (lo mid hi : ℕ) (l r : List Seg)
      → Spread content lo l mid
      → Spread content mid r hi
      → Spread content lo (l ++ r) hi
  Spread-append lo mid hi [] r c d = Spread-weaken mid lo hi hi r d c (omega arith)
  Spread-append lo mid hi (sg ∷ l) r c d = (c.0, c.1, Spread-append (seg_end sg) mid hi l r c.2 d)

  pub Spread-push :
      (lo : ℕ) (l : List Seg) (sg : Seg)
      → Spread content lo l sg.off
      → Sound content sg
      → Spread content lo (push l sg) (seg_end sg)
  Spread-push lo l sg c s =
      Spread-append lo sg.off (seg_end sg) l (sg ∷ []) c (omega arith, s, omega arith)

  pub Spread-set_back :
      (lo hi : ℕ) (l : List Seg) (t u : Seg)
      → Spread content lo l hi
      → back l ≡ some t
      → u.off ≡ t.off
      → Sound content u
      → Spread content lo (set_back l u) (seg_end u)
  Spread-set_back lo hi [] t u c e o s = absurd cc
  Spread-set_back lo hi (sg ∷ []) t u c e o s =
      let q : sg ≡ t = cc in
      (subst (λ x. lo ≤ x) (ap (λ x. Seg.off x) q ∙ sym o) c.0, s, omega arith)
  Spread-set_back lo hi (sg ∷ v ∷ l) t u c e o s =
      (c.0, c.1, Spread-set_back (seg_end sg) hi (v ∷ l) t u c.2 e o s)

  pub Covers_back :
      (lo hi : ℕ) (l : List Seg) (t : Seg)
      → Covers content lo l hi
      → back l ≡ some t
      → (seg_end t ≡ hi) × Sound content t
  Covers_back lo hi [] t c e = absurd cc
  Covers_back lo hi (sg ∷ []) t c e =
      let q : sg ≡ t = cc in (ap (λ x. seg_end x) (sym q) ∙ c.2, subst (λ x. Sound content x) q c.1)
  Covers_back lo hi (sg ∷ v ∷ l) t c e = Covers_back (seg_end sg) hi (v ∷ l) t c.2 e

  pub Spread_back :
      (lo hi : ℕ) (l : List Seg) (t : Seg)
      → Spread content lo l hi
      → back l ≡ some t
      → (seg_end t ≤ hi) × Sound content t
  Spread_back lo hi [] t c e = absurd cc
  Spread_back lo hi (sg ∷ []) t c e =
      let q : sg ≡ t = cc in (subst (λ x. seg_end x ≤ hi) q c.2, subst (λ x. Sound content x) q c.1)
  Spread_back lo hi (sg ∷ v ∷ l) t c e = Spread_back (seg_end sg) hi (v ∷ l) t c.2 e
