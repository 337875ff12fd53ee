-- ===== src/Session/Receive/Reading.antt =====
-- A Read of the application (Read of internal/session/app.go): what it decides under the lock, the
-- slices of the in-order queue it copies from, and the commit.
use rendr.Common.{
  ℕ, ◌+◌, ◌-◌, ◌≤◌, ◌<◌, min, ◌≡◌, refl, sym, subst, inl, inr, Bool, true, false, ◌&&◌, Option,
  none, some, List, [], ◌∷◌, ◌++◌, arith, ltb, leb, ◌==◌, if◌then◌else◌, Bool-cases, lt→ltb, le→ltb,
  le→leb, lt→leb, if-cases, length, take, drop, length-append, length-take, length-drop,
}
use native.Mathlib.Decide.{dec_le}
use rendr.Session.Segments.{Seg, seg_end}
use rendr.Session.Segments.Chain.{Agrees, Agrees-append, Agrees-drop, Agrees-take, Covers}
use rendr.Session.Receive.State.{Recv}
use rendr.Session.Receive.Data.{release_consumed}
use rendr.Session.Receive.Merging.{Held}
use rendr.Session.Receive.Shed.{Later, release_consumed-Held}

pub data ReadVerdict : Type 0 where
  err_closed : ReadVerdict
  eof : ReadVerdict
  end_err : ReadVerdict
  err_deadline : ReadVerdict
  copies : ReadVerdict
  waits : ReadVerdict

unfoldable pub at_fin : Option ℕ → ℕ → Bool
at_fin none r_read = false
at_fin (some fin) r_read = r_read == fin

-- The switch of Read's loop.
unfoldable pub read_verdict : Bool → Bool → Bool → Recv → ReadVerdict
read_verdict closed ended deadline st =
    if closed
    then err_closed
    else (if at_fin st.peer_fin st.r_read
        then eof
        else (if ended
            then end_err
            else (if deadline
                then err_deadline
                else (if ltb st.r_read st.r_tail then copies else waits))))

abbrev pub max_views : ℕ
max_views = 8

-- The part of a segment from `x` on, at most `want` bytes.
unfoldable pub view : Seg → ℕ → ℕ → List ℕ
view sg x want = if leb (seg_end sg) x then [] else take want (drop (x - sg.off) sg.bytes)

-- The bytes of the views, `nv` of them at most: a segment that ends at or before `x` gives none.
unfoldable pub views : ℕ → List Seg → ℕ → ℕ → List ℕ
views nv [] x want = []
views nv (sg ∷ l) x want =
    let v = view sg x want in
    let left = if leb (seg_end sg) x then nv else nv - 1 in
    let rest = views left l (x + length v) (want - length v) in
    if ltb 0 nv && ltb 0 want then v ++ rest else []

unfoldable pub read_views : Recv → ℕ → List ℕ
read_views st n = views max_views st.inq st.r_read (min n (st.r_tail - st.r_read))

-- The commit of a Read of `n` bytes on a session that is neither closed nor ended.
unfoldable pub read_commit : Recv → ℕ → Recv
read_commit st n =
    release_consumed
      (record st { r_copying = false; r_read = st.r_read + n; delivered = st.delivered + n })

module _ (content : ℕ → ℕ) where
  view_lem :
      (sg : Seg) (x want : ℕ)
      → Agrees content sg.off sg.bytes
      → sg.off ≤ x
      → Agrees content x (view sg x want) × (length (view sg x want) ≡ min want (seg_end sg - x))
  unfolding view
  view_lem sg x want a o = elim (dec_le (seg_end sg) x) [
    | yes e ↦ rw (le→leb (seg_end sg) x e) (refl, omega arith)
    | no e ↦ rw (lt→leb (seg_end sg) x (omega arith)) (
      Agrees-take content x (drop (x - sg.off) sg.bytes) want (
          subst (λ t. Agrees content t (drop (x - sg.off) sg.bytes)) {x = sg.off + (x - sg.off)}
            (omega arith) (Agrees-drop content sg.off sg.bytes (x - sg.off) a)),
      omega
          (arith, length-take want (drop (x - sg.off) sg.bytes), length-drop (x - sg.off) sg.bytes),
    )
  ]

  -- What views hold: the stream's bytes, at most as many as wanted, and some if any are.
  abbrev Viewed : ℕ → ℕ → ℕ → List Seg → Type 0
  Viewed nv x want l =
      Agrees content x (views nv l x want)
      × (length (views nv l x want) ≤ want)
      × (0 < want → 0 < nv → 0 < length (views nv l x want))

  no_views : (nv x want : ℕ) (l : List Seg) → want ≡ 0 → Viewed nv x want l
  unfolding views
  no_views nv x want [] w = (refl, omega arith, λ q z. absurd (omega arith))
  no_views nv x want (sg ∷ l) w = rw (le→ltb 0 want (omega arith)) (
      if-cases (λ t. Agrees content x t × (length t ≤ want) × (0 < want → 0 < nv → 0 < length t))
        (ltb 0 nv && false)
        (view sg x want
          ++ views (if leb (seg_end sg) x then nv else nv - 1) l (x + length (view sg x want))
              (want - length (view sg x want)))
        [] (λ q. absurd (and_false (ltb 0 nv) q))
        (λ y. (refl, omega arith, λ q z. absurd (omega arith))))
    where
      and_false : (b : Bool) → (b && false) ≡ true → ⊥
      and_false true q = absurd cc
      and_false false q = absurd cc

  -- The views hold the stream's bytes from `x` on, and some if there are any.
  views-Agrees :
      (nv from hi x want : ℕ) (l : List Seg)
      → Covers content from l hi
      → from ≤ x
      → x + want ≤ hi
      → Agrees content x (views nv l x want)
        × (length (views nv l x want) ≤ want)
        × (0 < want → 0 < nv → 0 < length (views nv l x want))
  unfolding views
  views-Agrees nv from hi x want [] c f w = (refl, omega arith, λ q z. absurd (omega arith))
  views-Agrees nv from hi x want (sg ∷ l) c f w = elim (Bool-cases (ltb 0 nv && ltb 0 want)) [
    | inr e ↦ rw e (
      refl,
      omega arith,
      λ q z. absurd (both_ways (sym (rw (lt→ltb 0 nv z, lt→ltb 0 want q) at e))),
    )
    | inl e ↦ rw e (
        let (a, b) = view_lem sg x want c.1.1 (omega (arith, c.0)) in
        let left = if leb (seg_end sg) x then nv else nv - 1 in
        joined left a b
          (elim (dec_le (seg_end sg - x) want) [
            | yes g ↦
                views-Agrees left (seg_end sg) hi (x + length (view sg x want))
                  (want - length (view sg x want)) l c.2 (omega (arith, b, g)) (omega (arith, b, w))
            | no g ↦
                no_views left (x + length (view sg x want)) (want - length (view sg x want)) l
                  (omega (arith, b, g))
          ])
          (λ z. passes z))
  ]
    where
      both_ways : ◌≡◌ {A = Bool} false true → ⊥
      both_ways q = absurd cc

      passes : seg_end sg ≤ x → (if leb (seg_end sg) x then nv else nv - 1) ≡ nv
      passes z = rw (le→leb (seg_end sg) x z) refl

      joined :
          (left : ℕ)
          → Agrees content x (view sg x want)
          → length (view sg x want) ≡ min want (seg_end sg - x)
          → Viewed left (x + length (view sg x want)) (want - length (view sg x want)) l
          → (seg_end sg ≤ x → left ≡ nv)
          → Agrees content x (
              view sg x want
              ++ views left l (x + length (view sg x want)) (want - length (view sg x want)))
            × (length (
                  view sg x want
                  ++ views left l (x + length (view sg x want)) (want - length (view sg x want)))
                ≤ want)
            × (0 < want
                → 0 < nv
                → 0
                  < length (
                      view sg x want
                      ++ views left l
                          (x + length (view sg x want))
                          (want - length (view sg x want))))
      joined left a b (p, q, r) k =
          let size =
            length-append (view sg x want)
              (views left l (x + length (view sg x want)) (want - length (view sg x want))) in
          (
            Agrees-append content x (view sg x want)
                (views left l (x + length (view sg x want)) (want - length (view sg x want))) a p,
            omega (arith, size, q, b),
            λ y z. elim (dec_le (seg_end sg) x) [
              | yes g ↦ omega (arith, size, r (omega (arith, b, y, g)) (omega (arith, k g, z)))
              | no g ↦ omega (arith, size, b, y, g)
            ],
          )

  pub read_views-Agrees :
      (st : Recv) (n : ℕ)
      → Held content st
      → Agrees content st.r_read (read_views st n)
        × (length (read_views st n) ≤ min n (st.r_tail - st.r_read))
        × (0 < n → st.r_read < st.r_tail → 0 < length (read_views st n))
  unfolding read_views
  read_views-Agrees st n h =
      let (a, b, c) =
        views-Agrees max_views h.from st.r_tail st.r_read (min n (st.r_tail - st.r_read)) st.inq
          h.covered h.kept (omega (arith, h.unread)) in
      (a, b, λ y z. c (omega arith) (omega arith))

  pub read_commit-Later :
      (st : Recv) (n : ℕ)
      → Held content st
      → n ≤ st.r_tail - st.r_read
      → Later content st (read_commit st n) × ((read_commit st n).r_read ≡ st.r_read + n)
  unfolding read_commit release_consumed
  read_commit-Later st n h w =
      let read : Recv = record st {
        r_copying = false;
        r_read = st.r_read + n;
        delivered = st.delivered + n;
      } in
      let z = release_consumed-Held content read (record {
        from = h.from;
        covered = h.covered;
        kept = omega (arith, h.kept);
        unread = omega (arith, w, h.unread);
        ahead = h.ahead;
        gap = h.gap;
        charged = h.charged;
      }) in
      (record { held = z; read = omega arith; edge = refl; mode = refl; tail = omega arith }, refl)
