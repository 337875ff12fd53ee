-- ===== src/Wire/Window/Replay.antt =====
-- No frame passes the anti-replay window again (internal/wire/window.go).
use rendr.Common.{
  ℕ, ◌+◌, ◌-◌, ◌%◌, ◌^◌, ◌≤◌, ◌<◌, bit_and, ◌≡◌, refl, sym, ap, ◌∙◌, subst, ◌≢◌, ◌⊎◌, inl, inr,
  Bool, true, false, not, ◌&&◌, List, arith, ltb, leb, ◌==◌, if◌then◌else◌, Bool-cases, length,
  get_or, replicate,
}
use rendr.Wire.Window.{
  window_new, window_duplicate, window_late, window_ahead, FseqWindow, IsValid, word_index,
  clear_ring, set_ring, mark_ring, init, accept_inside, accept, jump,
}
use rendr.Wire.Window.Ring.{mark_ring-set_ring, length-clear_ring, mark_ring-ones}

forward : ℕ → ℕ → Bool
forward top f = let d = (f + 2 ^ 32 - top) % 2 ^ 32 in ltb 0 d && ltb d (2 ^ 31)

accept-inside :
    (w : FseqWindow) (f : ℕ)
    → forward w.top f ≡ false
    → ltb ((w.top + 2 ^ 32 - f) % 2 ^ 32) 8192 ≡ true
    → accept w f ≡ accept_inside w f
unfolding accept forward
accept-inside w f h k = ground arith

accept-late :
    (w : FseqWindow) (f : ℕ)
    → forward w.top f ≡ false
    → leb 8192 ((w.top + 2 ^ 32 - f) % 2 ^ 32) ≡ true
    → accept w f ≡ (window_late, w)
unfolding accept forward
accept-late w f h k = rw (h, k) refl

-- The newest frame is a duplicate once its bit is set.
accept-newest :
    (b : List ℕ) (f : ℕ)
    → length b ≡ 128
    → f < 2 ^ 32
    → accept (record { top = f; bits = set_ring b f }) f
      ≡ (window_duplicate, record { top = f; bits = set_ring b f })
unfolding accept_inside
accept-newest b f n h =
    accept-inside (record { top = f; bits = set_ring b f }) f (unfold forward in ground arith)
      (ground arith)
    ∙ ap (λ r. (r.0, record { top = f; bits = r.1 })) (mark_ring-set_ring b n f)

-- Where the bit is set already it stays the same window.
inside_again :
    (w : FseqWindow) (f : ℕ)
    → length w.bits ≡ 128
    → forward w.top f ≡ false
    → ltb ((w.top + 2 ^ 32 - f) % 2 ^ 32) 8192 ≡ true
    → accept (record { top = w.top; bits = set_ring w.bits f }) f
      ≡ (window_duplicate, record { top = w.top; bits = set_ring w.bits f })
unfolding accept_inside
inside_again w f n h k =
    accept-inside (record { top = w.top; bits = set_ring w.bits f }) f h k
    ∙ ap (λ r. (r.0, record { top = w.top; bits = r.1 })) (mark_ring-set_ring w.bits n f)

marked_inside :
    (w : FseqWindow) (f : ℕ)
    → (accept_inside w f).0 ≡ window_new
    → (accept_inside w f).1 ≡ record { top = w.top; bits = set_ring w.bits f }
unfolding accept_inside mark_ring
marked_inside w f e =
    elim (Bool-cases (not (bit_and (get_or w.bits (word_index w.bits f) 0) (2 ^ (f % 64)) == 0))) [
      | inl k ↦ cc (k, e)
      | inr k ↦ rw k refl
    ]

-- The two ways in which a frame is accepted.
Accepted : FseqWindow → ℕ → Type 0
Accepted w f =
    (((accept w f).1 ≡ record {
      top = f;
      bits = set_ring (clear_ring w.bits (w.top + 1) ((f + 2 ^ 32 - w.top) % 2 ^ 32)) f;
    }))
    ⊎ ((forward w.top f ≡ false)
        × (ltb ((w.top + 2 ^ 32 - f) % 2 ^ 32) 8192 ≡ true)
        × ((accept w f).1 ≡ record { top = w.top; bits = set_ring w.bits f }))

accept-Accepted : (w : FseqWindow) (f : ℕ) → (accept w f).0 ≡ window_new → Accepted w f
unfolding accept forward Accepted
accept-Accepted w f e = elim (Bool-cases (forward w.top f)) [
  | inl a ↦ elim (Bool-cases (leb 8192 ((f + 2 ^ 32 - w.top) % 2 ^ 32))) [
    | inl b ↦ absurd (ahead_new (rw (a, b) at e))
    | inr b ↦ inl (rw (a, b) refl)
  ]
  | inr a ↦ elim (Bool-cases (leb 8192 ((w.top + 2 ^ 32 - f) % 2 ^ 32))) [
    | inl b ↦ absurd (late_new (rw (a, b) at e))
    | inr b ↦ inr (a, ground arith, rw (a, b) (marked_inside w f (rw (a, b) at e)))
  ]
]
  where
    ahead_new : window_ahead ≢ window_new
    ahead_new h = cc

    late_new : window_late ≢ window_new
    late_new h = cc

-- What Accept answers WindowNew for it marks: offered again to the window it left, the frame is a
-- duplicate and the window stays as it is.
pub accept_again :
    (w : FseqWindow) (f : ℕ)
    → IsValid w
    → f < 2 ^ 32
    → (accept w f).0 ≡ window_new
    → accept (accept w f).1 f ≡ (window_duplicate, (accept w f).1)
unfolding Accepted
accept_again w f v h e = elim (accept-Accepted w f e) [
  | inl q ↦
      subst (λ x. accept x f ≡ (window_duplicate, x)) (sym q)
        (accept-newest (clear_ring w.bits (w.top + 1) ((f + 2 ^ 32 - w.top) % 2 ^ 32)) f
          (length-clear_ring w.bits (w.top + 1) ((f + 2 ^ 32 - w.top) % 2 ^ 32) ∙ v.bits_length) h)
  | inr (a, b, q) ↦
      subst (λ x. accept x f ≡ (window_duplicate, x)) (sym q) (inside_again w f v.bits_length a b)
]

-- The frame that a jump takes is marked.
pub accept-jump :
    (w : FseqWindow) (f : ℕ) → f < 2 ^ 32 → accept (jump w f) f ≡ (window_duplicate, jump w f)
unfolding jump
accept-jump w f h = accept-newest (replicate 128 0) f refl h

-- The number `back` before `first`, and the newest that a direction starts with.
abbrev before_first : ℕ → ℕ → ℕ
before_first first back = (first + 2 ^ 32 - back) % 2 ^ 32

behind :
    (first back : ℕ)
    → first < 2 ^ 32
    → 1 ≤ back
    → back ≤ 2 ^ 31
    → (before_first first 1 + 2 ^ 32 - before_first first back) % 2 ^ 32 ≡ back - 1
behind first back h one far = omega arith

behind-forward :
    (first back : ℕ)
    → first < 2 ^ 32
    → 1 ≤ back
    → back ≤ 2 ^ 31
    → forward (before_first first 1) (before_first first back) ≡ false
unfolding forward
behind-forward first back h one far = ground arith

-- Nothing from before a direction's first frame is accepted: of the 2^31 numbers before it the
-- nearest 8,192 are duplicates, the others are late, and the window stays as it is.
pub accept-init :
    (first back : ℕ)
    → first < 2 ^ 32
    → 1 ≤ back
    → back ≤ 2 ^ 31
    → accept (init first) ((first + 2 ^ 32 - back) % 2 ^ 32)
      ≡ ((if leb back 8192 then window_duplicate else window_late), init first)
unfolding init
accept-init first back h one far = elim (Bool-cases (leb back 8192)) [
  | inl e ↦ rw e (
      accept-inside (init first) (before_first first back) (behind-forward first back h one far)
        (rw (behind first back h one far) (ground arith))
      ∙ inside)
  | inr e ↦ rw e (late e)
]
  where
    inside : accept_inside (init first) (before_first first back) ≡ (window_duplicate, init first)
    inside =
        unfold accept_inside in
        ap (λ r. (r.0, record { top = before_first first 1; bits = r.1 }))
          (mark_ring-ones (before_first first back))

    late :
        leb back 8192 ≡ false
        → accept (init first) (before_first first back) ≡ (window_late, init first)
    late e =
        accept-late (init first) (before_first first back) (behind-forward first back h one far)
          (rw (behind first back h one far) (ground arith))
