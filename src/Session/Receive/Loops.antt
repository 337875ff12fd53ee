-- ===== src/Session/Receive/Loops.antt =====
-- What the loops of the placement leave (internal/session/recv.go): growing a segment, appending to a
-- queue, merging followers and promoting.
use rendr.Common.{
  ℕ, ◌+◌, ◌≤◌, ◌<◌, min, ◌≡◌, refl, sym, ap, ◌∙◌, subst, true, none, some, List, [], ◌∷◌, ◌++◌,
  arith, lt→ltb, le→ltb, length, take, length-append, length-take,
}
use native.Mathlib.Decide.{dec_lt}
use rendr.Session.Segments.{
  Seg, run_size, run_cap, seg_end, seg_room, grow_seg, new_run, back, set_back, push, charges,
}
use rendr.Session.Segments.Chain.{Agrees, Agrees-append, Agrees-take, Sound}
use rendr.Session.Receive.Place.{append_head}

pub charges-append : (l r : List Seg) → charges (l ++ r) ≡ charges l + charges r
charges-append [] r = omega arith
charges-append (sg ∷ l) r = omega (arith, charges-append l r)

pub charges-push : (l : List Seg) (sg : Seg) → charges (push l sg) ≡ charges l + sg.charge
charges-push l sg = omega (arith, charges-append l (sg ∷ []))

pub charges-set_back :
    (l : List Seg) (t u : Seg)
    → back l ≡ some t
    → u.charge ≡ t.charge
    → charges (set_back l u) ≡ charges l
charges-set_back [] t u e c = absurd cc
charges-set_back (sg ∷ []) t u e c =
    let q : sg ≡ t = cc in omega (arith, c, ap (λ x. Seg.charge x) q)
charges-set_back (sg ∷ v ∷ l) t u e c = omega (arith, charges-set_back (v ∷ l) t u e c)

module _ (content : ℕ → ℕ) where
  -- A grown segment, and how many bytes it took.
  pub data Grown (t : Seg) (q : List ℕ) : Seg × ℕ → Type 0 where
    grown :
        (u : Seg) (m : ℕ)
        → u.off ≡ t.off
        → u.charge ≡ t.charge
        → Sound content u
        → seg_end u ≡ seg_end t + m
        → m ≡ min (seg_room t) (length q)
        → Grown t q (u, m)

  pub grow_seg-Grown :
      (t : Seg) (q : List ℕ)
      → Sound content t
      → Agrees content (seg_end t) q
      → Grown t q (grow_seg t q)
  unfolding grow_seg
  grow_seg-Grown t q s a =
      let m = min (seg_room t) (length q) in
      grown (record t { bytes = t.bytes ++ take m q }) m refl refl
        (
          omega (arith, length-append t.bytes (take m q), s.0),
          Agrees-append content t.off t.bytes (take m q) s.1
              (Agrees-take content (seg_end t) q m a),
        )
        (omega (arith, length-append t.bytes (take m q), length-take m q)) refl

  new_run-Grown :
      (pos : ℕ) (q : List ℕ)
      → Agrees content pos q
      → 0 < length q
      → (u : Seg) × (m : ℕ) × (new_run pos q ≡ (u, m))
        × (u.off ≡ pos)
        × (u.charge ≡ run_cap)
        × Sound content u
        × (seg_end u ≡ pos + m)
        × (0 < m)
        × (m ≤ length q)
  unfolding new_run
  new_run-Grown pos q a h =
      let m = min run_size (length q) in
      (
        record { off = pos; bytes = take m q; span = run_cap; charge = run_cap; is_run = true },
        m,
        refl,
        refl,
        refl,
        (omega (arith, length-take m q), Agrees-take content pos q m a),
        omega (arith, length-take m q),
        omega arith,
        omega arith,
      )

  -- A queue that ends at `pos`, after the head of `q` is placed there: the bytes placed, and the
  -- capacity taken for them.
  pub data Appended (P : List Seg → ℕ → Type 0) (l : List Seg) (pos : ℕ) (q : List ℕ)
      : List Seg × ℕ × ℕ → Type 0 where
    appended :
        (l' : List Seg) (m c : ℕ)
        → P l' (pos + m)
        → 0 < m
        → m ≤ length q
        → charges l' ≡ charges l + c
        → Appended P l pos q (l', m, c)

  module _ (P : List Seg → ℕ → Type 0)
      (pushed : (l : List Seg) (sg : Seg)
        → P l sg.off
        → Sound content sg
        → P (push l sg) (seg_end sg))
      (regrown : (l : List Seg) (t u : Seg) (pos : ℕ)
        → P l pos
        → back l ≡ some t
        → u.off ≡ t.off
        → Sound content u
        → P (set_back l u) (seg_end u)) where
    pub append_fresh :
        (l : List Seg) (pos : ℕ) (q : List ℕ)
        → P l pos
        → Agrees content pos q
        → 0 < length q
        → Appended P l pos q (append_head none l pos q)
    unfolding append_head
    append_fresh l pos q p a h =
        let (u, m, e, o, c, s, d, z, w) = new_run-Grown pos q a h in
        rw e (
          appended (push l u) m run_cap
            (subst (λ t. P (push l u) t) d (pushed l u (subst (λ t. P l t) (sym o) p) s)) z w
            (omega (arith, charges-push l u, c)))

    pub append_back :
        (l : List Seg) (t : Seg) (pos : ℕ) (q : List ℕ)
        → P l pos
        → Agrees content pos q
        → 0 < length q
        → back l ≡ some t
        → Sound content t
        → seg_end t ≡ pos
        → Appended P l pos q (append_head (some t) l pos q)
    unfolding append_head
    append_back l t pos q p a h b s d = elim (dec_lt 0 (seg_room t)) [
      | yes r ↦
          rw (lt→ltb 0 (seg_room t) r)
            (taken_by (grow_seg-Grown t q s (subst (λ x. Agrees content x q) (sym d) a)) r)
      | no r ↦ rw (le→ltb 0 (seg_room t) (omega arith)) (append_fresh l pos q p a h)
    ]
      where
        taken_by :
            {g : Seg × ℕ}
            → Grown t q g
            → 0 < seg_room t
            → Appended P l pos q (set_back l g.0, g.1, 0)
        taken_by (grown u m o c y e w) r =
            appended (set_back l u) m 0
              (subst (λ x. P (set_back l u) x) (e ∙ ap (λ x. x + m) d) (regrown l t u pos p b o y))
              (omega (arith, w, h, r)) (omega (arith, w))
              (omega (arith, charges-set_back l t u b c))
