-- ===== src/Wire/Window/Seq.antt =====
-- SeqWindow answers like a list of the numbers accepted so far (internal/wire/window.go).
use rendr.Common.{
  ℕ, zero, suc, ◌+◌, ◌-◌, ◌*◌, ◌%◌, ◌^◌, ◌≤◌, ◌<◌, bit_and, ◌≡◌, refl, sym, ap, ap₂, ◌∙◌, inl, inr,
  Bool, true, false, ◌||◌, some, List, [], ◌∷◌, arith, ltb, leb, if◌then◌else◌, Bool-cases, lt→ltb,
  le→ltb, ne→==, leb→le, leb→lt, le→leb, lt→leb, bit_and-mask, length, replicate, All,
  length-replicate,
}
use native.Mathlib.Nat.{pow-suc, mod_self}
use native.Mathlib.Decide.{dec_lt}
use rendr.Wire.Window.{
  WindowVerdict, window_new, window_duplicate, window_late, SeqWindow, seq_accept, seq_newest,
  seq_inside, seq_init, set_ring, clear_ring,
}
use rendr.Wire.Window.Ring.{length-set_ring, length-clear_ring}
use rendr.Wire.Window.Cells.{ring, mark_ring-ring, ring-zeros}
use rendr.Wire.Window.Sweep.{ring-clear_ring}
use rendr.Wire.Window.Views.{
  holds, newest, with_one, Views, Below, forward-Views, far-Views, inside-Views,
}

abbrev is_empty : List ℕ → Bool
is_empty [] = true
is_empty (x ∷ xs) = false

-- What is asked of a window of `width` numbers: the first number and every number after the newest
-- are new, one that is a width or more behind the newest is late, and between them a number is new
-- exactly if it was not accepted before.
unfoldable pub offer : ℕ → List ℕ → ℕ → WindowVerdict × List ℕ
offer width h seq =
    if is_empty h || ltb (newest h) seq
    then (window_new, seq ∷ h)
    else if leb width (newest h - seq)
    then (window_late, h)
    else if holds h seq
    then (window_duplicate, h)
    else (window_new, seq ∷ h)

-- The answers to a run of numbers.
abbrev pub offers : ℕ → List ℕ → List ℕ → List WindowVerdict
offers width h [] = []
offers width h (seq ∷ rest) = (offer width h seq).0 ∷ offers width (offer width h seq).1 rest

abbrev pub seq_accepts : SeqWindow → List ℕ → List WindowVerdict
seq_accepts w [] = []
seq_accepts w (seq ∷ rest) = (seq_accept w seq).0 ∷ seq_accepts (seq_accept w seq).1 rest

record Agrees (m : ℕ) (w : SeqWindow) (h : List ℕ) : Type 0 where
  going : w.started ≡ true
  taken : is_empty h ≡ false
  len : length w.bits ≡ 2 ^ m
  top_is : w.top ≡ newest h
  top_fits : w.top < 2 ^ 64
  views : Views m w.bits w.top (holds h)

-- Before the first number the bitmap is empty.
record Blank (m : ℕ) (w : SeqWindow) : Type 0 where
  len : length w.bits ≡ 2 ^ m
  not_started : w.started ≡ false
  zeros : w.bits ≡ replicate (length w.bits) 0

holds-newest : (h : List ℕ) → Below (newest h) (holds h)
holds-newest [] j lt = refl
holds-newest (x ∷ xs) j lt = rw (ne→== j x (omega arith)) (holds-newest xs j (omega arith))

-- The verdict and the next states agree.
Follows : ℕ → (WindowVerdict × SeqWindow) → (WindowVerdict × List ℕ) → Type 0
Follows m r s = (r.0 ≡ s.0) × Agrees m r.1 s.1

nothing : ℕ → Bool
nothing j = false

module _ (m : ℕ) where
  started_at :
      (cleared : List ℕ) (seq : ℕ) (h : List ℕ)
      → length cleared ≡ 2 ^ m
      → seq < 2 ^ 64
      → newest h ≤ seq
      → Views m (set_ring cleared seq) seq (with_one seq (holds h))
      → Follows m (seq_newest cleared seq) (window_new, seq ∷ h)
  unfolding seq_newest Follows
  started_at cleared seq h len fits le v = (
    refl,
    record {
      going = refl;
      taken = refl;
      len = length-set_ring cleared seq ∙ len;
      top_is = omega arith;
      top_fits = fits;
      views = v;
    },
  )

  first :
      (w : SeqWindow) (seq : ℕ)
      → Blank m w
      → seq < 2 ^ 64
      → Follows m (seq_accept w seq) (offer (2 ^ m * 64) [] seq)
  unfolding seq_accept offer
  first w seq b fits = rw b.not_started (
      started_at w.bits seq [] b.len fits (omega arith) (
        far-Views m (holds []) w.bits seq b.len
          (λ j. ap (λ t. ring t j) b.zeros ∙ ring-zeros (length w.bits) j) (λ j near. refl)))

  module _ (w : SeqWindow) (h : List ℕ) (a : Agrees m w h) (seq : ℕ) (fits : seq < 2 ^ 64) where
    below : Below w.top (holds h)
    below j lt = holds-newest h j (omega (arith, a.top_is))

    -- What the bitmap is before the newest number is marked.
    abbrev passed : List ℕ
    passed =
        if leb (length w.bits * 64) (seq - w.top)
        then replicate (length w.bits) 0
        else clear_ring w.bits ((w.top + 1) % 2 ^ 64) (seq - w.top)

    forwards : w.top < seq → Follows m (seq_newest passed seq) (window_new, seq ∷ h)
    forwards lt = elim (Bool-cases (leb (length w.bits * 64) (seq - w.top))) [
      | inl e ↦ rw e (
          started_at (replicate (length w.bits) 0) seq h
            (length-replicate (length w.bits) 0 ∙ a.len) fits (omega (arith, a.top_is))
            (far-Views m (holds h) (replicate (length w.bits) 0) seq
              (length-replicate (length w.bits) 0 ∙ a.len) (ring-zeros (length w.bits))
              (λ j near. below j (omega (arith, leb→le _ _ e, a.len)))))
      | inr e ↦ rw e (
          started_at (clear_ring w.bits ((w.top + 1) % 2 ^ 64) (seq - w.top)) seq h len_c fits
            (omega (arith, a.top_is))
            (forward-Views m (holds h) w.bits
              (clear_ring w.bits ((w.top + 1) % 2 ^ 64) (seq - w.top)) w.top seq a.len len_c
              (λ j after near. clears j after near (leb→lt _ _ e)) a.views below lt
              (omega (arith, leb→lt _ _ e, a.len))))
    ]
      where
        len_c : length (clear_ring w.bits ((w.top + 1) % 2 ^ 64) (seq - w.top)) ≡ 2 ^ m
        len_c = length-clear_ring w.bits ((w.top + 1) % 2 ^ 64) (seq - w.top) ∙ a.len

        clears :
            (j : ℕ)
            → w.top < j
            → j ≤ w.top + 64 * 2 ^ m
            → seq - w.top < length w.bits * 64
            → ring (clear_ring w.bits ((w.top + 1) % 2 ^ 64) (seq - w.top)) j
              ≡ (if ltb j (seq + 1) then 0 else ring w.bits j)
        clears j after near less =
            ap (λ t. ring (clear_ring w.bits t (seq - w.top)) j) {x = (w.top + 1) % 2 ^ 64}
              {y = w.top + 1} (omega arith)
            ∙ ring-clear_ring m w.bits (w.top + 1) (seq - w.top) j a.len (omega (arith, a.len))
                (omega arith) (omega arith) (omega arith)
            ∙ ap (λ t. if ltb j t then 0 else ring w.bits j) {x = w.top + 1 + (seq - w.top)}
                {y = seq + 1} (omega arith)

    inside :
        seq ≤ w.top
        → w.top - seq < 2 ^ m * 64
        → Follows m
            (seq_inside w seq)
            (if holds h seq then (window_duplicate, h) else (window_new, seq ∷ h))
    unfolding seq_inside Follows
    inside le near =
        rw (mark_ring-ring w.bits seq, a.views seq le (omega arith))
          (elim (Bool-cases (holds h seq)) [ inl e ↦ rw e (refl, a) | inr e ↦ rw e (refl, marked) ])
      where
        marked : Agrees m (record w { bits = set_ring w.bits seq }) (seq ∷ h)
        marked = record {
          going = a.going;
          taken = refl;
          len = length-set_ring w.bits seq ∙ a.len;
          top_is = omega (arith, a.top_is);
          top_fits = a.top_fits;
          views = inside-Views m (holds h) w.bits w.top seq a.len a.views le (omega arith);
        }

    accept-forwards : w.top < seq → seq_accept w seq ≡ seq_newest passed seq
    unfolding seq_accept
    accept-forwards lt = rw (a.going, lt→ltb w.top seq lt) refl

    accept-late : seq ≤ w.top → 2 ^ m * 64 ≤ w.top - seq → seq_accept w seq ≡ (window_late, w)
    unfolding seq_accept
    accept-late le far =
        rw
          (
            a.going,
            le→ltb w.top seq le,
            le→leb (length w.bits * 64) (w.top - seq) (omega (arith, a.len)),
          )
          refl

    accept-inside : seq ≤ w.top → w.top - seq < 2 ^ m * 64 → seq_accept w seq ≡ seq_inside w seq
    unfolding seq_accept
    accept-inside le near =
        rw
          (
            a.going,
            le→ltb w.top seq le,
            lt→leb (length w.bits * 64) (w.top - seq) (omega (arith, a.len)),
          )
          refl

  step :
      (w : SeqWindow) (h : List ℕ) (seq : ℕ)
      → Agrees m w h
      → seq < 2 ^ 64
      → Follows m (seq_accept w seq) (offer (2 ^ m * 64) h seq)
  unfolding offer
  step w h seq a fits = elim (dec_lt w.top seq) [
    | yes lt ↦
        rw
          (
            accept-forwards w h a seq fits lt,
            a.taken,
            lt→ltb (newest h) seq (omega (arith, a.top_is)),
          )
          (forwards w h a seq fits lt)
    | no ge ↦
        let le : seq ≤ w.top = omega arith in
        elim (dec_lt (w.top - seq) (2 ^ m * 64)) [
          | yes near ↦
              rw
                (
                  accept-inside w h a seq fits le near,
                  a.taken,
                  le→ltb (newest h) seq (omega (arith, a.top_is)),
                  lt→leb (2 ^ m * 64) (newest h - seq) (omega (arith, a.top_is)),
                )
                (inside w h a seq fits le near)
          | no far ↦
              rw
                (
                  accept-late w h a seq fits le (omega arith),
                  a.taken,
                  le→ltb (newest h) seq (omega (arith, a.top_is)),
                  le→leb (2 ^ m * 64) (newest h - seq) (omega (arith, a.top_is)),
                )
                (unfold Follows in (refl, a))
        ]
  ]

  follows :
      (w : SeqWindow) (h seqs : List ℕ)
      → Agrees m w h
      → All (λ s. s < 2 ^ 64) seqs
      → seq_accepts w seqs ≡ offers (2 ^ m * 64) h seqs
  unfolding Follows
  follows w h [] a fits = refl
  follows w h (seq ∷ rest) a fits =
      let (same, next) = step w h seq a fits.0 in
      ap₂ (λ v vs. v ∷ vs) same
        (follows (seq_accept w seq).1 (offer (2 ^ m * 64) h seq).1 rest next fits.1)

  from_Blank :
      (w : SeqWindow) (seqs : List ℕ)
      → Blank m w
      → All (λ s. s < 2 ^ 64) seqs
      → seq_accepts w seqs ≡ offers (2 ^ m * 64) [] seqs
  unfolding Follows
  from_Blank w [] b fits = refl
  from_Blank w (seq ∷ rest) b fits =
      let (same, next) = first w seq b fits.0 in
      ap₂ (λ v vs. v ∷ vs) same
        (follows (seq_accept w seq).1 (offer (2 ^ m * 64) [] seq).1 rest next fits.1)

pow_large : (m : ℕ) → 4 ≤ m → 16 ≤ 2 ^ m
pow_large zero h = absurd (omega arith)
pow_large (suc m) h = elim (dec_lt 3 m) [
  | yes more ↦ omega (arith, pow-suc 2 m, pow_large m (omega arith))
  | no last ↦ omega (arith, ap (λ t. 2 ^ t) {x = suc m} {y = 4} (omega arith))
]

-- On any storage of a power of two of at least 16 words, the answers of a SeqWindow to a run of
-- uint64 numbers are those of the list of the numbers accepted so far.
pub seq_accepts-offers :
    (m : ℕ) (storage seqs : List ℕ)
    → 4 ≤ m
    → length storage ≡ 2 ^ m
    → All (λ s. s < 2 ^ 64) seqs
    → (w : SeqWindow) × (seq_init storage ≡ some w)
      × (seq_accepts w seqs ≡ offers (2 ^ m * 64) [] seqs)
seq_accepts-offers m storage seqs large len fits = (
  record { top = 0; started = false; bits = replicate (length storage) 0 },
  made,
  from_Blank m _ seqs blank fits,
)
  where
    blank : Blank m (record { top = 0; started = false; bits = replicate (length storage) 0 })
    blank = record {
      len = length-replicate (length storage) 0 ∙ len;
      not_started = refl;
      zeros = ap (λ n. replicate n 0) (sym (length-replicate (length storage) 0));
    }

    power : bit_and (length storage) (length storage - 1) ≡ 0
    power = rw len (bit_and-mask m (2 ^ m) ∙ mod_self (2 ^ m))

    made :
        seq_init storage
        ≡ some (record { top = 0; started = false; bits = replicate (length storage) 0 })
    made =
        unfold seq_init in
        rw (le→ltb (length storage) 16 (omega (arith, len, pow_large m large)), power) refl
