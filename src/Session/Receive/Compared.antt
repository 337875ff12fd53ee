-- ===== src/Session/Receive/Compared.antt =====
-- The comparison of a frame with the held bytes (segRing.equal and segList.equal of
-- internal/session/stream.go).
use rendr.Common.{
  ℕ, zero, suc, ◌+◌, ◌-◌, ◌≤◌, min, max, ◌≡◌, refl, sym, ap, ap₂, ◌∙◌, subst, inl, inr, Bool, true,
  false, ◌&&◌, List, [], ◌∷◌, arith, ◌==◌, Bool-cases, lt→ltb, le→ltb, ==-eq, eq→==, le→leb, lt→leb,
  length, take, drop, All, length-take, length-drop, take_all, drop_all, take-append-drop, All-drop,
  slice,
}
use native.Mathlib.Decide.{dec_lt, dec_le}
use rendr.Session.Segments.{
  Seg, seg_end, equal_bytes, ring_head, ring_equal, after, list_equal_from, list_equal,
}
use rendr.Session.Segments.Chain.{
  stretch, Agrees, Agrees-append, Agrees-drop, Agrees-take, Agrees-slice, Sound, Covers, Spread,
}

equal_bytes_refl : (xs : List ℕ) → equal_bytes xs xs ≡ true
equal_bytes_refl [] = refl
equal_bytes_refl (x ∷ xs) = rw (eq→== x x refl) (equal_bytes_refl xs)

equal_bytes-eq : (xs ys : List ℕ) → equal_bytes xs ys ≡ true → xs ≡ ys
equal_bytes-eq [] [] h = refl
equal_bytes-eq [] (y ∷ ys) h = absurd cc
equal_bytes-eq (x ∷ xs) [] h = absurd cc
equal_bytes-eq (x ∷ xs) (y ∷ ys) h = elim (Bool-cases (x == y)) [
  | inl e ↦ ap₂ (λ u v. u ∷ v) (==-eq x y e) (equal_bytes-eq xs ys (rw e at h))
  | inr e ↦ absurd (false_true (sym (rw e at h)))
]
  where
    false_true : true ≡ false → ⊥
    false_true q = absurd cc

take_nil : (n : ℕ) → take {A = ℕ} n [] ≡ []
take_nil zero = refl
take_nil (suc n) = refl

drop_nil : (n : ℕ) → drop {A = ℕ} n [] ≡ []
drop_nil zero = refl
drop_nil (suc n) = refl

module _ (content : ℕ → ℕ) where
  Agrees-eq :
      (a : ℕ) (p q : List ℕ) → Agrees content a p → Agrees content a q → length p ≡ length q → p ≡ q
  Agrees-eq a p q h k e = h ∙ ap (λ n. stretch content a n) e ∙ sym k

  take-equal :
      (a m : ℕ) (h q : List ℕ)
      → Agrees content a h
      → Agrees content a q
      → m ≡ min (length h) (length q)
      → equal_bytes (take m h) (take m q) ≡ true
  take-equal a m h q x y e =
      rw
        (Agrees-eq a (take m h) (take m q) (Agrees-take content a h m x)
          (Agrees-take content a q m y) (omega (arith, length-take m h, length-take m q, e)))
        (equal_bytes_refl (take m q))

  -- The bytes of a segment from `a` on, and how far they reach.
  ring_head_lem :
      (sg : Seg) (a : ℕ)
      → Sound content sg
      → sg.off ≤ a
      → Agrees content a (ring_head sg a) × (max a (seg_end sg) ≡ a + length (ring_head sg a))
  unfolding ring_head
  ring_head_lem sg a s o = elim (dec_le (seg_end sg) a) [
    | yes e ↦ rw (le→leb (seg_end sg) a e) (refl, omega arith)
    | no e ↦ rw (lt→leb (seg_end sg) a (omega arith)) (
      subst (λ x. Agrees content x (drop (a - sg.off) sg.bytes)) {x = sg.off + (a - sg.off)}
          (omega arith) (Agrees-drop content sg.off sg.bytes (a - sg.off) s.1),
      omega (arith, length-drop (a - sg.off) sg.bytes),
    )
  ]

  ring_equal_nil : (l : List Seg) (a : ℕ) → ring_equal l a [] ≡ true
  unfolding ring_equal
  ring_equal_nil [] a = refl
  ring_equal_nil (sg ∷ l) a =
      rw
        (
          take_nil (min (length (ring_head sg a)) 0),
          drop_nil (min (length (ring_head sg a)) 0),
          ring_equal_nil l (a + min (length (ring_head sg a)) 0),
        )
        (ap (λ n. equal_bytes (take n (ring_head sg a)) [] && true)
          {x = min (length (ring_head sg a)) 0} {y = 0} (omega arith))

  -- Bytes of the stream agree with the in-order queue.
  pub ring_equal-Agrees :
      (from hi a : ℕ) (l : List Seg) (q : List ℕ)
      → Covers content from l hi
      → from ≤ a
      → Agrees content a q
      → ring_equal l a q ≡ true
  unfolding ring_equal
  ring_equal-Agrees from hi a [] q c f g = refl
  ring_equal-Agrees from hi a (sg ∷ l) q c f g =
      let (x, y) = ring_head_lem sg a c.1 (omega (arith, c.0)) in
      rw (take-equal a (min (length (ring_head sg a)) (length q)) (ring_head sg a) q x g refl)
        (elim (dec_le (length (ring_head sg a)) (length q)) [
          | yes e ↦
              ring_equal-Agrees (seg_end sg) hi (a + min (length (ring_head sg a)) (length q)) l
                (drop (min (length (ring_head sg a)) (length q)) q) c.2 (omega (arith, y))
                (Agrees-drop content a q (min (length (ring_head sg a)) (length q)) g)
          | no e ↦
              rw (drop_all (min (length (ring_head sg a)) (length q)) q (omega arith))
                (ring_equal_nil l (a + min (length (ring_head sg a)) (length q)))
        ])

  -- And bytes inside the queue that it finds equal are the stream's.
  pub ring_equal_sound :
      (from hi a : ℕ) (l : List Seg) (q : List ℕ)
      → Covers content from l hi
      → from ≤ a
      → a + length q ≤ hi
      → ring_equal l a q ≡ true
      → Agrees content a q
  unfolding ring_equal
  ring_equal_sound from hi a [] q c f w e = no_bytes q (omega arith)
    where
      no_bytes : (q : List ℕ) → length q ≤ 0 → Agrees content a q
      no_bytes [] h = refl
      no_bytes (b ∷ q) h = absurd (omega arith)
  ring_equal_sound from hi a (sg ∷ l) q c f w e =
      let (x, y) = ring_head_lem sg a c.1 (omega (arith, c.0)) in
      let m = min (length (ring_head sg a)) (length q) in
      let (u, v) =
        both (equal_bytes (take m (ring_head sg a)) (take m q)) (ring_equal l (a + m) (drop m q))
          e in
      let front : Agrees content a (take m q) =
        subst (λ t. Agrees content a t) (equal_bytes-eq (take m (ring_head sg a)) (take m q) u)
          (Agrees-take content a (ring_head sg a) m x) in
      elim (dec_le (length (ring_head sg a)) (length q)) [
        | yes g ↦
            let back_part =
              ring_equal_sound (seg_end sg) hi (a + m) l (drop m q) c.2 (omega (arith, y, g))
                (omega (arith, length-drop m q, w, g)) v in
            subst (λ t. Agrees content a t) (take-append-drop m q)
              (Agrees-append content a (take m q) (drop m q) front (
                subst (λ t. Agrees content t (drop m q)) {x = a + m}
                  (omega (arith, length-take m q, g)) back_part))
        | no g ↦ subst (λ t. Agrees content a t) (take_all m q (omega arith)) front
      ]
    where
      both : (b c : Bool) → (b && c) ≡ true → (b ≡ true) × (c ≡ true)
      both true c h = (refl, h)
      both false c h = absurd cc

  equal_stretches :
      (u v n m : ℕ) → u ≡ v → n ≡ m → equal_bytes (stretch content u n) (stretch content v m) ≡ true
  equal_stretches u v n m e f =
      rw (ap₂ (λ x y. stretch content x y) e f) (equal_bytes_refl (stretch content v m))

  -- A frame of the stream agrees with the out-of-order segments.
  list_equal_from-Agrees :
      (off : ℕ) (p : List ℕ) (l : List Seg)
      → All (Sound content) l
      → Agrees content off p
      → list_equal_from l off p ≡ true
  unfolding list_equal_from
  list_equal_from-Agrees off p [] s g = refl
  list_equal_from-Agrees off p (sg ∷ l) s g = elim (dec_lt sg.off (off + length p)) [
    | no f ↦ rw (le→ltb sg.off (off + length p) (omega arith)) refl
    | yes f ↦
        rw (lt→ltb sg.off (off + length p) f, list_equal_from-Agrees off p l s.1 g)
          (same (max off sg.off) (min (off + length p) (seg_end sg)) refl refl)
  ]
    where
      same :
          (a b : ℕ)
          → a ≡ max off sg.off
          → b ≡ min (off + length p) (seg_end sg)
          → (equal_bytes (slice sg.bytes (a - sg.off) (b - a)) (slice p (a - off) (b - a)) && true)
            ≡ true
      same a b x y =
          rw
            (
              Agrees-slice content sg.off sg.bytes (a - sg.off) (b - a) s.0.1,
              Agrees-slice content off p (a - off) (b - a) g,
            )
            (rw
              (equal_stretches (sg.off + (a - sg.off)) (off + (a - off))
                (min (b - a) (length sg.bytes - (a - sg.off))) (min (b - a) (length p - (a - off)))
                (omega (arith, x)) (omega (arith, x, y)))
              refl)

  Spread-All : (lo hi : ℕ) (l : List Seg) → Spread content lo l hi → All (Sound content) l
  Spread-All lo hi [] s = tt
  Spread-All lo hi (sg ∷ l) s = (s.1, Spread-All (seg_end sg) hi l s.2)

  pub list_equal-Agrees :
      (lo hi off : ℕ) (p : List ℕ) (l : List Seg)
      → Spread content lo l hi
      → Agrees content off p
      → list_equal l off p ≡ true
  unfolding list_equal
  list_equal-Agrees lo hi off p l s g =
      list_equal_from-Agrees off p (drop (after l off) l)
        (All-drop (Sound content) (after l off) l (Spread-All lo hi l s)) g
