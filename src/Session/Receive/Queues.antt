-- ===== src/Session/Receive/Queues.antt =====
-- The in-order queue and the out-of-order segments through the loops of the placement
-- (appendCopyLocked, insertCopyLocked, mergeFollowersLocked and promoteLocked of
-- internal/session/recv.go).
use rendr.Common.{
  ℕ, zero, suc, ◌+◌, ◌≤◌, ◌<◌, ◌≡◌, refl, subst, inl, inr, not, ◌&&◌, Option, none, some, List, [],
  ◌∷◌, arith, ltb, ◌==◌, if◌then◌else◌, Bool-cases, lt→ltb, ==-eq, length, drop, length-drop,
}
use rendr.Session.Segments.{Seg, seg_end, seg_room, back, set_back, charges, run_cap}
use rendr.Session.Segments.Chain.{
  Agrees, Agrees-drop, Sound, Covers, Covers-push, Covers-set_back, Covers_back, Spread,
  Spread-push, Spread-set_back, Spread_back,
}
use rendr.Session.Receive.Loops.{Appended, appended, append_fresh, append_back}
use rendr.Session.Receive.Place.{append_head, append_loop, grows_at, insert_loop}

module _ (content : ℕ → ℕ) where
  append_head-Covers :
      (from : ℕ) (l : List Seg) (pos : ℕ) (q : List ℕ)
      → Covers content from l pos
      → Agrees content pos q
      → 0 < length q
      → Appended content (Covers content from) l pos q (append_head (back l) l pos q)
  append_head-Covers from l pos q c a h = by_back (back l) refl
    where
      regrown :
          (l : List Seg) (t u : Seg) (pos : ℕ)
          → Covers content from l pos
          → back l ≡ some t
          → u.off ≡ t.off
          → Sound content u
          → Covers content from (set_back l u) (seg_end u)
      regrown l t u pos c b o s = Covers-set_back content from pos l t u c b o s

      by_back :
          (b : Option Seg)
          → back l ≡ b
          → Appended content (Covers content from) l pos q (append_head b l pos q)
      by_back none e =
          append_fresh content (Covers content from) (Covers-push content from) regrown l pos q c a
            h
      by_back (some t) e =
          let (d, s) = Covers_back content from pos l t c e in
          append_back content (Covers content from) (Covers-push content from) regrown l t pos q c a
            h e s d

  -- With fuel for its bytes, the loop leaves a queue that ends with them, and counts the capacity.
  abbrev pub AppendsAll : ℕ → ℕ → Type 0
  AppendsAll from n =
      (l : List Seg) (pos : ℕ) (q : List ℕ) (held k : ℕ)
      → Covers content from l pos
      → Agrees content pos q
      → length q ≤ n
      → held ≡ charges l + k
      → Covers content from (append_loop n l pos q held).0 (pos + length q)
        × ((append_loop n l pos q held).1 ≡ charges (append_loop n l pos q held).0 + k)

  append_loop_more :
      (from n : ℕ) (l : List Seg) (pos : ℕ) (q : List ℕ) (held k : ℕ) {r : List Seg × ℕ × ℕ}
      → AppendsAll from n
      → Agrees content pos q
      → length q ≤ suc n
      → held ≡ charges l + k
      → Appended content (Covers content from) l pos q r
      → (let z = append_loop n r.0 (pos + r.1) (drop r.1 q) (held + r.2) in
          Covers content from z.0 (pos + length q) × (z.1 ≡ charges z.0 + k))
  append_loop_more from n l pos q held k again a h e (appended l' m c' p z w y) =
      let (u, v) =
        again l' (pos + m) (drop m q) (held + c') k p (Agrees-drop content pos q m a)
          (omega (arith, length-drop m q, z, h)) (omega (arith, y, e)) in
      (
        subst (λ t. Covers content from (append_loop n l' (pos + m) (drop m q) (held + c')).0 t)
            (omega (arith, length-drop m q, w)) u,
        v,
      )

  pub append_loop-Covers : (from n : ℕ) → AppendsAll from n
  unfolding append_loop
  append_loop-Covers from zero l pos q held k c a h e =
      (subst (λ t. Covers content from l t) (omega arith) c, e)
  append_loop-Covers from (suc n) l pos [] held k c a h e =
      (subst (λ t. Covers content from l t) (omega arith) c, e)
  append_loop-Covers from (suc n) l pos (b ∷ q) held k c a h e =
      rw (lt→ltb 0 (suc (length q)) (omega arith)) (
        append_loop_more from n l pos (b ∷ q) held k (append_loop-Covers from n) a h e
          (append_head-Covers from l pos (b ∷ q) c a (omega arith)))

  -- What the loop before a segment leaves: all bytes placed, or a rest of them dropped.
  pub data Inserted (lo : ℕ) (pos : ℕ) (q : List ℕ) (k : ℕ) : List Seg × ℕ × Option ℕ → Type 0 where
    placed :
        (l : List Seg) (held : ℕ)
        → Spread content lo l (pos + length q)
        → held ≡ charges l + k
        → Inserted lo pos q k (l, held, none)
    cut_off :
        (l : List Seg) (held to n : ℕ)
        → Spread content lo l to
        → to ≤ pos + length q
        → held ≡ charges l + k
        → Inserted lo pos q k (l, held, some n)

  Inserted-later :
      (lo pos m : ℕ) (q : List ℕ) (k : ℕ) {r : List Seg × ℕ × Option ℕ}
      → m ≤ length q
      → Inserted lo (pos + m) (drop m q) k r
      → Inserted lo pos q k r
  Inserted-later lo pos m q k w (placed l held p e) =
      placed l held (subst (λ t. Spread content lo l t) (omega (arith, length-drop m q, w)) p) e
  Inserted-later lo pos m q k w (cut_off l held to n p g e) =
      cut_off l held to n p (omega (arith, length-drop m q, w, g)) e

  abbrev pub InsertsAll : ℕ → ℕ → Type 0
  InsertsAll lo n =
      (limit : ℕ) (l : List Seg) (pos : ℕ) (q : List ℕ) (held k : ℕ)
      → Spread content lo l pos
      → Agrees content pos q
      → length q ≤ n
      → held ≡ charges l + k
      → Inserted lo pos q k (insert_loop n limit l pos q held)

  insert_loop_more :
      (lo n limit : ℕ) (l : List Seg) (pos : ℕ) (q : List ℕ) (held k : ℕ) {r : List Seg × ℕ × ℕ}
      → InsertsAll lo n
      → Agrees content pos q
      → length q ≤ suc n
      → held ≡ charges l + k
      → Appended content (Spread content lo) l pos q r
      → Inserted lo pos q k (insert_loop n limit r.0 (pos + r.1) (drop r.1 q) (held + r.2))
  insert_loop_more lo n limit l pos q held k again a h e (appended l' m c' p z w y) =
      Inserted-later lo pos m q k w (
        again limit l' (pos + m) (drop m q) (held + c') k p (Agrees-drop content pos q m a)
          (omega (arith, length-drop m q, z, h)) (omega (arith, y, e)))

  -- The round of the loop that places the head of the bytes.
  insert_head-Spread :
      (lo : ℕ) (l : List Seg) (pos : ℕ) (q : List ℕ)
      → Spread content lo l pos
      → Agrees content pos q
      → 0 < length q
      → Appended content
          (Spread content lo)
          l
          pos
          q
          (append_head (if grows_at (back l) pos then back l else none) l pos q)
  unfolding grows_at
  insert_head-Spread lo l pos q c a h = by_back (back l) refl
    where
      regrown :
          (l : List Seg) (t u : Seg) (pos : ℕ)
          → Spread content lo l pos
          → back l ≡ some t
          → u.off ≡ t.off
          → Sound content u
          → Spread content lo (set_back l u) (seg_end u)
      regrown l t u pos c b o s = Spread-set_back content lo pos l t u c b o s

      fresh : Appended content (Spread content lo) l pos q (append_head none l pos q)
      fresh =
          append_fresh content (Spread content lo) (Spread-push content lo) regrown l pos q c a h

      by_back :
          (b : Option Seg)
          → back l ≡ b
          → Appended content
              (Spread content lo)
              l
              pos
              q
              (append_head (if grows_at b pos then b else none) l pos q)
      by_back none e = fresh
      by_back (some t) e = elim (Bool-cases (seg_end t == pos)) [
        | inr f ↦ rw f fresh
        | inl f ↦ elim (Bool-cases (ltb 0 (seg_room t))) [
          | inr g ↦ rw (f, g) fresh
          | inl g ↦
              rw (f, g)
                (append_back content (Spread content lo) (Spread-push content lo) regrown l t pos q
                  c a h e (Spread_back content lo pos l t c e).1 (==-eq (seg_end t) pos f))
        ]
      ]

  pub insert_loop-Inserted : (lo n : ℕ) → InsertsAll lo n
  unfolding insert_loop
  insert_loop-Inserted lo zero limit l pos q held k c a h e =
      placed l held (subst (λ t. Spread content lo l t) (omega arith) c) e
  insert_loop-Inserted lo (suc n) limit l pos [] held k c a h e =
      placed l held (subst (λ t. Spread content lo l t) (omega arith) c) e
  insert_loop-Inserted lo (suc n) limit l pos (b ∷ q) held k c a h e =
      rw (lt→ltb 0 (suc (length q)) (omega arith))
        (elim (Bool-cases (not (grows_at (back l) pos) && ltb limit (held + run_cap))) [
          | inl f ↦ rw f (cut_off l held pos (suc (length q)) c (omega arith) e)
          | inr f ↦ rw f (
              insert_loop_more lo n limit l pos (b ∷ q) held k (insert_loop-Inserted lo n) a h e
                (insert_head-Spread lo l pos (b ∷ q) c a (omega arith)))
        ])
