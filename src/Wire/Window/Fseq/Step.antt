-- ===== src/Wire/Window/Fseq/Step.antt =====
-- One frame offered to FseqWindow, and to the set.
use rendr.Common.{
  ℕ, ◌+◌, ◌-◌, ◌*◌, ◌/◌, ◌%◌, ◌^◌, ◌≤◌, ◌<◌, bit_or, ◌≡◌, refl, sym, ap₂, ◌∙◌, subst, inl, inr,
  false, ◌&&◌, List, arith, ltb, if◌then◌else◌, Bool-cases, lt→ltb, le→ltb, le→leb, lt→leb, bit,
  length, get_or, set,
}
use native.Mathlib.Decide.{dec_lt}
use rendr.Wire.Window.{
  WindowVerdict, window_new, window_duplicate, window_late, window_ahead, FseqWindow, accept,
  accept_inside, set_ring, clear_ring, word_index,
}
use rendr.Wire.Window.Ring.{length-set_ring, length-clear_ring}
use rendr.Wire.Window.Cells.{ring, index, mark_ring-ring}
use rendr.Wire.Window.Sweep.{ring-clear_ring}
use rendr.Wire.Window.Views.{
  with_one, Views, Below, forward-Views, inside-Views, forward-Below, inside-Below,
}
use rendr.Wire.Window.Fseq.{Taken, offer_frame}

pub record Agrees (w : FseqWindow) (t : Taken) : Type 0 where
  pub len : length w.bits ≡ 2 ^ 7
  pub top_is : w.top ≡ t.newest % 2 ^ 32
  pub views : Views 7 w.bits t.newest (t.seen)
  pub beyond : Below t.newest (t.seen)

unfoldable pub Follows : (WindowVerdict × FseqWindow) → (WindowVerdict × Taken) → Type 0
Follows r s = (r.0 ≡ s.0) × Agrees r.1 s.1

-- Numbers that agree in the last 13 bits share their bit of the bitmap.
module _ (bits : List ℕ) (n : length bits ≡ 2 ^ 7) (x y : ℕ) (same : x % 8192 ≡ y % 8192) where
  same_index : word_index bits x ≡ word_index bits y
  same_index = index 7 bits n x ∙ words ∙ sym (index 7 bits n y)
    where
      words : x / 64 % 128 ≡ y / 64 % 128
      words = omega arith

  same_bit : x % 64 ≡ y % 64
  same_bit = omega arith

  same_ring : ring bits x ≡ ring bits y
  unfolding ring
  same_ring = ap₂ (λ w o. bit (get_or bits w 0) o) same_index same_bit

  pub same_set : set_ring bits x ≡ set_ring bits y
  unfolding set_ring
  same_set = ap₂ (λ w o. set bits w (bit_or (get_or bits w 0) (2 ^ o))) same_index same_bit

module _ (w : FseqWindow) (t : Taken) (a : Agrees w t) (f : ℕ) (near : f < t.newest + 2 ^ 31)
    (far : t.newest ≤ f + 2 ^ 31) where
  unfoldable pub g : ℕ
  g = f % 2 ^ 32

  -- The difference on 32 bits, in both directions.
  ahead_by : t.newest ≤ f → (g + 2 ^ 32 - w.top) % 2 ^ 32 ≡ f - t.newest
  unfolding g
  ahead_by le = omega (arith, a.top_is)

  behind_by : f ≤ t.newest → (w.top + 2 ^ 32 - g) % 2 ^ 32 ≡ t.newest - f
  unfolding g
  behind_by le = omega (arith, a.top_is)

  back_by : f < t.newest → (g + 2 ^ 32 - w.top) % 2 ^ 32 ≡ 2 ^ 32 - (t.newest - f)
  unfolding g
  back_by lt = omega (arith, a.top_is)

  accept-ahead : t.newest < f → 8192 ≤ f - t.newest → accept w g ≡ (window_ahead, w)
  unfolding accept
  accept-ahead lt big = rw (ahead_by (omega arith)) (ground arith)

  accept-forward :
      t.newest < f
      → f - t.newest < 8192
      → accept w g ≡ (
        window_new,
        record { top = g; bits = set_ring (clear_ring w.bits (w.top + 1) (f - t.newest)) g },
      )
  unfolding accept
  accept-forward lt small = rw (ahead_by (omega arith)) (ground arith)

  not_forward :
      f ≤ t.newest
      → (ltb 0 ((g + 2 ^ 32 - w.top) % 2 ^ 32) && ltb ((g + 2 ^ 32 - w.top) % 2 ^ 32) (2 ^ 31))
        ≡ false
  not_forward le = elim (dec_lt f t.newest) [
    | yes lt ↦ rw (back_by lt) (ground arith)
    | no ge ↦ rw (ahead_by (omega arith)) (ground arith)
  ]

  accept-behind : f ≤ t.newest → 8192 ≤ t.newest - f → accept w g ≡ (window_late, w)
  unfolding accept
  accept-behind le big = rw (not_forward le, behind_by le) (ground arith)

  accept-within : f ≤ t.newest → t.newest - f < 8192 → accept w g ≡ accept_inside w g
  unfolding accept
  accept-within le small = rw (not_forward le, behind_by le) (ground arith)

  -- The bits that a forward move clears, by the unbounded numbers.
  clears :
      f - t.newest < 8192
      → t.newest < f
      → (j : ℕ) → t.newest < j
      → j ≤ t.newest + 64 * 2 ^ 7
      → ring (clear_ring w.bits (w.top + 1) (f - t.newest)) j
        ≡ (if ltb j (f + 1) then 0 else ring w.bits j)
  clears small lt j after within =
      same_ring moved len_c j (j - moved_top) (omega arith)
      ∙ ring-clear_ring 7 w.bits (w.top + 1) (f - t.newest) (j - moved_top) a.len (omega arith)
          (omega (arith, a.top_is)) (omega (arith, whole)) (omega (arith, whole))
      ∙ ap₂ (λ b r. if b then 0 else r) test
          (same_ring w.bits a.len (j - moved_top) j (omega arith))
    where
      moved_top : ℕ
      moved_top = 2 ^ 32 * (t.newest / 2 ^ 32)

      whole : moved_top + w.top ≡ t.newest
      whole = omega (arith, a.top_is)

      moved : List ℕ
      moved = clear_ring w.bits (w.top + 1) (f - t.newest)

      len_c : length moved ≡ 2 ^ 7
      len_c = length-clear_ring w.bits (w.top + 1) (f - t.newest) ∙ a.len

      test : ltb (j - moved_top) (w.top + 1 + (f - t.newest)) ≡ ltb j (f + 1)
      test = ground (arith, whole)

  same_low : g % 8192 ≡ f % 8192
  unfolding g
  same_low = omega arith

  moves :
      t.newest < f
      → f - t.newest < 8192
      → Agrees
          (record { top = g; bits = set_ring (clear_ring w.bits (w.top + 1) (f - t.newest)) g })
          (record { newest = f; seen = with_one f t.seen })
  moves lt small = record {
    len = length-set_ring moved g ∙ len_c;
    top_is = unfold g in refl;
    views =
        subst (λ b. Views 7 b f (with_one f t.seen)) (sym (same_set moved len_c g f same_low))
          (forward-Views 7 t.seen w.bits moved t.newest f a.len len_c (clears small lt) a.views
            a.beyond lt (omega arith));
    beyond = forward-Below 7 t.seen t.newest f a.beyond lt;
  }
    where
      moved : List ℕ
      moved = clear_ring w.bits (w.top + 1) (f - t.newest)

      len_c : length moved ≡ 2 ^ 7
      len_c = length-clear_ring w.bits (w.top + 1) (f - t.newest) ∙ a.len

  marks :
      f ≤ t.newest
      → t.newest - f < 8192
      → Agrees
          (record { top = w.top; bits = set_ring w.bits g })
          (record { newest = t.newest; seen = with_one f t.seen })
  marks le small = record {
    len = length-set_ring w.bits g ∙ a.len;
    top_is = a.top_is;
    views =
        subst (λ b. Views 7 b t.newest (with_one f t.seen))
          (sym (same_set w.bits a.len g f same_low))
          (inside-Views 7 t.seen w.bits t.newest f a.len a.views le (omega arith));
    beyond = inside-Below 7 t.seen t.newest f a.beyond le;
  }

  within :
      f ≤ t.newest
      → t.newest - f < 8192
      → Follows (accept_inside w g) (
          if t.seen f
          then (window_duplicate, t)
          else (window_new, record { newest = t.newest; seen = with_one f t.seen }))
  unfolding accept_inside Follows
  within le small =
      rw (mark_ring-ring w.bits g, same_ring w.bits a.len g f same_low, a.views f le (omega arith))
        (elim (Bool-cases (t.seen f)) [
          | inl e ↦ rw e (refl, a)
          | inr e ↦ rw e (refl, marks le small)
        ])

  pub step : Follows (accept w g) (offer_frame t f)
  unfolding offer_frame
  step = elim (dec_lt t.newest f) [
    | yes lt ↦ elim (dec_lt (f - t.newest) 8192) [
      | yes small ↦
          rw (accept-forward lt small, lt→ltb t.newest f lt, lt→leb 8192 (f - t.newest) small)
            (unfold Follows in (refl, moves lt small))
      | no big ↦
          rw
            (
              accept-ahead lt (omega arith),
              lt→ltb t.newest f lt,
              le→leb 8192 (f - t.newest) (omega arith),
            )
            (unfold Follows in (refl, a))
    ]
    | no ge ↦
        let le : f ≤ t.newest = omega arith in
        elim (dec_lt (t.newest - f) 8192) [
          | yes small ↦
              rw (accept-within le small, le→ltb t.newest f le, lt→leb 8192 (t.newest - f) small)
                (within le small)
          | no big ↦
              rw
                (
                  accept-behind le (omega arith),
                  le→ltb t.newest f le,
                  le→leb 8192 (t.newest - f) (omega arith),
                )
                (unfold Follows in (refl, a))
        ]
  ]
