-- ===== src/Session/Receive/Range.antt =====
-- The range of a frame among the held segments, and the frame kept by reference (heldIn and
-- keepRefLocked of internal/session/recv.go).
use rendr.Common.{
  ℕ, suc, ◌+◌, ◌≤◌, ◌<◌, ◌≡◌, refl, sym, ap, ◌∙◌, subst, some, List, [], ◌∷◌, ◌++◌, arith, lt→ltb,
  le→ltb, le→leb, lt→leb, length, get_or, take, drop, take-append-drop, drop-drop,
}
use native.Mathlib.Decide.{dec_lt}
use rendr.Session.Segments.{Seg, seg_end, no_seg, back, push, charges, cut}
use rendr.Session.Segments.Chain.{Spread}
use rendr.Session.Segments.Search.{
  passed, passed-le_length, after-passed, take-passed, passed_end, Spread-drop, Spread-split,
}
use rendr.Session.Receive.State.{Recv}
use rendr.Session.Receive.Merging.{Held}
use rendr.Session.Receive.Place.{HeldRange, held_from, held_in}

pub back-push : (l : List Seg) (sg : Seg) → back (push l sg) ≡ some sg
back-push [] sg = refl
back-push (u ∷ []) sg = refl
back-push (u ∷ v ∷ l) sg = back-push (v ∷ l) sg

pub cut_lem : (l : List Seg) (a k : ℕ) → cut l a (a + k) ≡ take a l ++ drop k (drop a l)
cut_lem l a k = elim (dec_lt 0 k) [
  | yes h ↦ rw (lt→leb (a + k) a (omega arith), drop-drop a k l) refl
  | no h ↦
      rw (le→leb (a + k) a (omega arith))
        (sym (take-append-drop a l) ∙ ap (λ x. take a l ++ drop x (drop a l)) {x = 0} (omega arith))
]

module _ (content : ℕ → ℕ) where
  -- Where the loop of heldIn stops in `l`: the segments inside the range, and the one that
  -- straddles its end or begins there.
  pub data Stop (end : ℕ) (l : List Seg) (x : ℕ) : Type 0 where
    at_end : x ≡ end → Stop end l x
    at_straddler :
        (sg : Seg) (r : List Seg) → l ≡ sg ∷ r → sg.off ≡ x → end < seg_end sg → Stop end l x

  pub record Ranged (end : ℕ) (hi : ℕ) (l : List Seg) (h r : HeldRange) : Type 0 where
    pub k : ℕ
    pub same_s0 : r.s0 ≡ h.s0
    pub same_a : r.a ≡ h.a
    pub inside : r.b ≡ h.b + k
    pub charged : r.charge ≡ h.charge + charges (take k l)
    pub below : r.x ≤ end
    pub after_it : Spread content r.x (drop k l) hi
    pub stop : Stop end (drop k l) r.x

  held_from-Ranged :
      (lo end hi : ℕ) (l : List Seg) (h : HeldRange)
      → Spread content lo l hi
      → h.x ≡ end
      → end ≤ hi
      → Ranged end hi l h (held_from l end h)
  unfolding held_from
  held_from-Ranged lo end hi [] h s e w = record {
    k = 0;
    same_s0 = refl;
    same_a = refl;
    inside = omega arith;
    charged = omega arith;
    below = omega (arith, e);
    after_it = omega (arith, e);
    stop = at_end e;
  }
  held_from-Ranged lo end hi (sg ∷ l) h s e w = elim (dec_lt sg.off end) [
    | no f ↦ rw (le→ltb sg.off end (omega arith)) (record {
      k = 0;
      same_s0 = refl;
      same_a = refl;
      inside = omega arith;
      charged = omega arith;
      below = omega (arith, e);
      after_it = (omega (arith, e), s.1, s.2);
      stop = at_end e;
    })
    | yes f ↦ rw (lt→ltb sg.off end f) (elim (dec_lt end (seg_end sg)) [
      | yes g ↦ rw (lt→ltb end (seg_end sg) g) (record {
        k = 0;
        same_s0 = refl;
        same_a = refl;
        inside = omega arith;
        charged = omega arith;
        below = omega arith;
        after_it = (omega arith, s.1, s.2);
        stop = at_straddler sg l refl refl g;
      })
      | no g ↦ rw (le→ltb end (seg_end sg) (omega arith)) (
          let z =
            held_from-Ranged (seg_end sg) end hi l
              (record h {
                b = suc h.b;
                bytes = h.bytes + length sg.bytes;
                charge = h.charge + sg.charge;
              })
              s.2 e w in
          record {
            k = suc z.k;
            same_s0 = z.same_s0;
            same_a = z.same_a;
            inside = omega (arith, z.inside);
            charged = omega (arith, z.charged);
            below = z.below;
            after_it = z.after_it;
            stop = z.stop;
          })
    ])
  ]

  -- The range of a frame: the segments before it, those inside it and those after it.
  pub record Within (st : Recv) (start end : ℕ) (h : HeldRange) : Type 0 where
    pub k : ℕ
    pub starts : start ≤ h.s0
    pub unless_straddled :
        ((i : ℕ) → i < length st.ooq → start ≤ Seg.off (get_or st.ooq i no_seg)) → h.s0 ≡ start
    pub fits : h.a ≤ length st.ooq
    pub before : Spread content st.r_tail (take h.a st.ooq) h.s0
    pub inside : h.b ≡ h.a + k
    pub charged : h.charge ≡ charges (take k (drop h.a st.ooq))
    pub below : h.x ≤ end
    pub after_it : Spread content h.x (drop k (drop h.a st.ooq)) st.right_edge
    pub stop : Stop end (drop k (drop h.a st.ooq)) h.x

  from_range :
      (st : Recv) (start end s0 a : ℕ)
      → start ≤ s0
      → (((i : ℕ) → i < length st.ooq → start ≤ Seg.off (get_or st.ooq i no_seg)) → s0 ≡ start)
      → a ≤ length st.ooq
      → Spread content st.r_tail (take a st.ooq) s0
      → Spread content s0 (drop a st.ooq) st.right_edge
      → end ≤ st.right_edge
      → Within st start end (
          held_from
            (drop a st.ooq)
            end
            (record { s0 = s0; x = end; a = a; b = a; bytes = 0; charge = 0 }))
  from_range st start end s0 a g u f s d w =
      let h : HeldRange = record { s0 = s0; x = end; a = a; b = a; bytes = 0; charge = 0 } in
      let z = held_from-Ranged s0 end st.right_edge (drop a st.ooq) h d refl w in
      by_range (held_from (drop a st.ooq) end h) z
    where
      by_range :
          (r : HeldRange)
          → Ranged end st.right_edge
              (drop a st.ooq)
              (record { s0 = s0; x = end; a = a; b = a; bytes = 0; charge = 0 })
              r
          → Within st start end r
      by_range r z = record {
        k = z.k;
        starts = omega (arith, z.same_s0);
        unless_straddled = λ q. z.same_s0 ∙ u q;
        fits = omega (arith, z.same_a);
        before =
            subst (λ x. Spread content st.r_tail (take x st.ooq) r.s0) (sym z.same_a)
              (subst (λ x. Spread content st.r_tail (take a st.ooq) x) (sym z.same_s0) s);
        inside = omega (arith, z.inside, z.same_a);
        charged =
            subst (λ x. r.charge ≡ charges (take z.k (drop x st.ooq))) (sym z.same_a)
              (omega (arith, z.charged));
        below = z.below;
        after_it =
            subst (λ x. Spread content r.x (drop z.k (drop x st.ooq)) st.right_edge) (sym z.same_a)
              z.after_it;
        stop = subst (λ x. Stop end (drop z.k (drop x st.ooq)) r.x) (sym z.same_a) z.stop;
      }

  pub held_in-Within :
      (st : Recv) (start end : ℕ)
      → Held content st
      → st.r_tail ≤ start
      → start < end
      → end ≤ st.right_edge
      → Within st start end (held_in st.ooq start end)
  unfolding held_in
  held_in-Within st start end h t m e =
      rw (after-passed content st.r_tail st.right_edge start st.ooq h.ahead)
        (elim (dec_lt (passed st.ooq start) (length st.ooq)) [
          | no k ↦
              rw (le→ltb (passed st.ooq start) (length st.ooq) (omega arith))
                (begins (λ z. absurd (omega arith)))
          | yes k ↦
              rw (lt→ltb (passed st.ooq start) (length st.ooq) k)
                (elim (dec_lt (Seg.off (get_or st.ooq (passed st.ooq start) no_seg)) start) [
                  | no g ↦
                      rw
                        (le→ltb (Seg.off (get_or st.ooq (passed st.ooq start) no_seg)) start
                          (omega arith))
                        (begins (λ z. omega arith))
                  | yes g ↦
                      rw (lt→ltb (Seg.off (get_or st.ooq (passed st.ooq start) no_seg)) start g) (
                        let (x, y) =
                          Spread-split content st.r_tail st.right_edge st.ooq (passed st.ooq start)
                            h.ahead k in
                        from_range st start end
                          (seg_end (get_or st.ooq (passed st.ooq start) no_seg))
                          (suc (passed st.ooq start))
                          (omega (arith, passed_end content start st.ooq k))
                          (λ q. absurd (omega (arith, q (passed st.ooq start) k, g))) k x y e)
                ])
        ])
    where
      begins :
          (passed st.ooq start < length st.ooq
            → start ≤ Seg.off (get_or st.ooq (passed st.ooq start) no_seg))
          → Within st start end (
              held_from (drop (passed st.ooq start) st.ooq) end (record {
                s0 = start;
                x = end;
                a = passed st.ooq start;
                b = passed st.ooq start;
                bytes = 0;
                charge = 0;
              }))
      begins f =
          from_range st start end start (passed st.ooq start) (omega arith) (λ q. refl)
            (passed-le_length content st.ooq start)
            (take-passed content st.r_tail st.right_edge start st.ooq h.ahead t)
            (Spread-drop content st.r_tail st.right_edge start st.ooq (passed st.ooq start) h.ahead
              (omega arith) f)
            e
