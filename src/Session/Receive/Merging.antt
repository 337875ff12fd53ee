-- ===== src/Session/Receive/Merging.antt =====
-- The invariant of the receive side, the merging of segments into one another, and the promotion of
-- what became contiguous (mergeFollowersLocked and promoteLocked of internal/session/recv.go).
use rendr.Common.{
  ℕ, suc, ◌+◌, ◌-◌, ◌≤◌, ◌<◌, ◌≡◌, refl, sym, ap, ◌∙◌, subst, inl, inr, Option, none, some, List,
  [], ◌∷◌, arith, leb, ◌==◌, Bool-cases, ==-eq, leb→le, length,
}
use rendr.Session.Segments.{Seg, seg_end, seg_room, back, set_back, push, charges}
use rendr.Session.Segments.Chain.{
  Agrees, Sound, Covers, Covers-push, Covers-set_back, Covers_back, Spread, Spread-weaken,
}
use rendr.Session.Receive.State.{Recv}
use rendr.Session.Receive.Loops.{charges-push, charges-set_back, Grown, grown, grow_seg-Grown}
use rendr.Session.Receive.Place.{merge_followers, promote_into}

-- The first segment begins after `tail`.
abbrev pub Gap : ℕ → List Seg → Type 0
Gap tail [] = Unit
Gap tail (sg ∷ l) = tail < sg.off

module _ (content : ℕ → ℕ) where
  -- The queues hold the bytes of the stream, in order up to `r_tail` and beyond it with a gap, the
  -- unread bytes among them, below the right edge; their buffers are what is charged.
  pub record Held (st : Recv) : Type 0 where
    pub from : ℕ
    pub covered : Covers content from st.inq st.r_tail
    pub kept : from ≤ st.r_read
    pub unread : st.r_read ≤ st.r_tail
    pub ahead : Spread content st.r_tail st.ooq st.right_edge
    pub gap : Gap st.r_tail st.ooq
    pub charged : st.ooo_cap ≡ charges st.inq + charges st.ooq

  pub Spread-gap :
      (tail hi : ℕ) (l : List Seg)
      → Spread content tail l hi
      → Gap tail l
      → tail < hi
      → Spread content (suc tail) l hi
  Spread-gap tail hi [] s g h = h
  Spread-gap tail hi (sg ∷ l) s g h = (g, s.1, s.2)

  pub Gap-Spread : (tail hi : ℕ) (l : List Seg) → Spread content (suc tail) l hi → Gap tail l
  Gap-Spread tail hi [] s = tt
  Gap-Spread tail hi (sg ∷ l) s = s.0

  -- A merged segment, what follows it, and the capacity charged after the merges.
  pub data Merged (t : Seg) (hi k : ℕ) : Seg × List Seg × ℕ × ℕ → Type 0 where
    merged :
        (u : Seg) (l : List Seg) (held left : ℕ)
        → u.off ≡ t.off
        → u.charge ≡ t.charge
        → Sound content u
        → Spread content (seg_end u) l hi
        → held ≡ charges l + k
        → Merged t hi k (u, l, held, left)

  abbrev MergesAll : List Seg → Type 0
  MergesAll l =
      (t : Seg) (hi held left k : ℕ)
      → Sound content t
      → Spread content (seg_end t) l hi
      → held ≡ charges l + k
      → Merged t hi k (merge_followers t l held left)

  Merged-later :
      (t u : Seg) (hi k : ℕ) {r : Seg × List Seg × ℕ × ℕ}
      → u.off ≡ t.off
      → u.charge ≡ t.charge
      → Merged u hi k r
      → Merged t hi k r
  Merged-later t u hi k o c (merged v l held left p q s m e) =
      merged v l held left (p ∙ o) (q ∙ c) s m e

  merge_one :
      (sg : Seg) (l : List Seg) (t : Seg) (hi held left k : ℕ) {g : Seg × ℕ}
      → MergesAll l
      → Spread content (seg_end t) (sg ∷ l) hi
      → held ≡ charges (sg ∷ l) + k
      → sg.off ≡ seg_end t
      → length sg.bytes ≤ seg_room t
      → Grown content t sg.bytes g
      → Merged t hi k (merge_followers g.0 l (held - sg.charge) (left - length sg.bytes))
  merge_one sg l t hi held left k again s e o h (grown u m p q y z w) = Merged-later t u hi k p q (
      again u hi (held - sg.charge) (left - length sg.bytes) k y
        (Spread-weaken content (seg_end sg) (seg_end u) hi hi l s.2 (omega (arith, z, w, h, o))
          (omega arith))
        (omega (arith, e)))

  pub merge_followers-Merged : (l : List Seg) → MergesAll l
  unfolding merge_followers
  merge_followers-Merged [] t hi held left k s m e = merged t [] held left refl refl s m e
  merge_followers-Merged (sg ∷ l) t hi held left k s m e = elim (Bool-cases (sg.off == seg_end t)) [
    | inr f ↦ rw f stay
    | inl f ↦ elim (Bool-cases (leb (length sg.bytes) (seg_room t))) [
      | inr g ↦ rw (f, g) stay
      | inl g ↦ elim (Bool-cases (leb (length sg.bytes) left)) [
        | inr h ↦ rw (f, g, h) stay
        | inl h ↦
            rw (f, g, h)
              (merge_one sg l t hi held left k (merge_followers-Merged l) m e
                (==-eq sg.off (seg_end t) f) (leb→le (length sg.bytes) (seg_room t) g)
                (grow_seg-Grown content t sg.bytes s
                  (subst (λ x. Agrees content x sg.bytes) (==-eq sg.off (seg_end t) f) m.1.1)))
      ]
    ]
  ]
    where
      stay : Merged t hi k (t, sg ∷ l, held, left)
      stay = merged t (sg ∷ l) held left refl refl s m e

  -- A segment moved to the in-order queue.
  pub data Promoted (from tail k : ℕ) : List Seg × ℕ × ℕ → Type 0 where
    promoted :
        (l : List Seg) (held left : ℕ)
        → Covers content from l tail
        → held ≡ charges l + k
        → Promoted from tail k (l, held, left)

  pub promote_into-Promoted :
      (from tail : ℕ) (l : List Seg) (sg : Seg) (held left k : ℕ)
      → Covers content from l tail
      → sg.off ≡ tail
      → Sound content sg
      → held ≡ charges l + (sg.charge + k)
      → Promoted from (tail + length sg.bytes) k (promote_into (back l) l sg held left)
  unfolding promote_into
  promote_into-Promoted from tail l sg held left k c o s e = by_back (back l) refl
    where
      pushed : Promoted from (tail + length sg.bytes) k (push l sg, held, left)
      pushed =
          promoted (push l sg) held left
            (subst (λ x. Covers content from (push l sg) x) (ap (λ x. x + length sg.bytes) o)
              (Covers-push content from l sg (subst (λ x. Covers content from l x) (sym o) c) s))
            (omega (arith, charges-push l sg, e))

      joined :
          (t : Seg) (b : back l ≡ some t) {g : Seg × ℕ}
          → length sg.bytes ≤ seg_room t
          → Grown content t sg.bytes g
          → Promoted from
              (tail + length sg.bytes)
              k
              (set_back l g.0, held - sg.charge, left - length sg.bytes)
      joined t b h (grown u m p q y z w) =
          promoted (set_back l u) (held - sg.charge) (left - length sg.bytes)
            (subst (λ x. Covers content from (set_back l u) x)
              (omega (arith, z, w, h, (Covers_back content from tail l t c b).0))
              (Covers-set_back content from tail l t u c b p y))
            (omega (arith, charges-set_back l t u b q, e))

      by_back :
          (b : Option Seg)
          → back l ≡ b
          → Promoted from (tail + length sg.bytes) k (promote_into b l sg held left)
      by_back none b = pushed
      by_back (some t) b =
          let (d, y) = Covers_back content from tail l t c b in
          elim (Bool-cases (leb (length sg.bytes) (seg_room t))) [
            | inr g ↦ rw g pushed
            | inl g ↦ elim (Bool-cases (leb (length sg.bytes) left)) [
              | inr h ↦ rw (g, h) pushed
              | inl h ↦
                  rw (g, h)
                    (joined t b (leb→le (length sg.bytes) (seg_room t) g) (
                      grow_seg-Grown content t sg.bytes y
                        (subst (λ x. Agrees content x sg.bytes) (o ∙ sym d) s.1)))
            ]
          ]
