-- ===== src/Wire/Window.antt =====
-- The anti-replay window of a datagram carrier's direction: FseqWindow and its circular bitmap
-- (internal/wire/window.go). The bitmap is a list of 64-bit words.
pub mod Ring
mod Words
pub mod Cells
pub mod Sweep
pub mod Views
pub mod Seq
pub mod Fseq
pub mod Replay
use rendr.Common.{
  ℕ, zero, suc, ◌+◌, ◌-◌, ◌*◌, ◌/◌, ◌%◌, ◌^◌, ◌<◌, min, bit_and, bit_or, ◌≡◌, Bool, true, false,
  not, ◌&&◌, ◌||◌, Option, none, some, List, ltb, leb, ◌==◌, if◌then◌else◌, and_not, length, get_or,
  replicate, set,
}
use rendr.Wire.Const

pub data WindowVerdict : Type 0 where
  window_new window_duplicate window_late window_ahead : WindowVerdict

pub record FseqWindow : Type 0 where
  pub top : ℕ
  pub bits : List ℕ

-- `(i/64) & uint64(len(bits)-1)`: the word that holds bit `i`.
abbrev pub word_index : List ℕ → ℕ → ℕ
word_index bits i = bit_and (i / 64) (length bits - 1)

-- One round of clearRing: `k` bits of the word of bit `from`.
unfoldable pub clear_word : List ℕ → ℕ → ℕ → List ℕ
clear_word bits from k =
    let w = word_index bits from in
    set bits w (and_not (get_or bits w 0) ((2 ^ 64 - 1) / 2 ^ (64 - k) * 2 ^ (from % 64) % 2 ^ 64))

-- The loop of clearRing, on fuel.
unfoldable pub clear_rounds : ℕ → List ℕ → ℕ → ℕ → List ℕ
clear_rounds zero bits from n = bits
clear_rounds (suc fuel) bits from n =
    let k = min (64 - from % 64) n in
    let rest = clear_rounds fuel (clear_word bits from k) ((from + k) % 2 ^ 64) (n - k) in
    if n == 0 then bits else rest

-- Every round clears a bit at least, so `n` rounds are enough.
unfoldable pub clear_ring : List ℕ → ℕ → ℕ → List ℕ
clear_ring bits from n = clear_rounds n bits from n

unfoldable pub set_ring : List ℕ → ℕ → List ℕ
set_ring bits i = let w = word_index bits i in set bits w (bit_or (get_or bits w 0) (2 ^ (i % 64)))

unfoldable pub mark_ring : List ℕ → ℕ → WindowVerdict × List ℕ
mark_ring bits i =
    if not (bit_and (get_or bits (word_index bits i) 0) (2 ^ (i % 64)) == 0)
    then (window_duplicate, bits)
    else (window_new, set_ring bits i)

unfoldable pub init : ℕ → FseqWindow
init first = record {
  top = (first + 2 ^ 32 - 1) % 2 ^ 32;
  bits = replicate (8192 / 64) (2 ^ 64 - 1);
}

-- The last case of Accept: the frame is inside the window.
unfoldable pub accept_inside : FseqWindow → ℕ → WindowVerdict × FseqWindow
accept_inside w f = let r = mark_ring w.bits f in (r.0, record { top = w.top; bits = r.1 })

unfoldable pub accept : FseqWindow → ℕ → WindowVerdict × FseqWindow
accept w f =
    let d = (f + 2 ^ 32 - w.top) % 2 ^ 32 in
    if ltb 0 d && ltb d (2 ^ 31)
    then (if leb Const.fseq_window_bits d
        then (window_ahead, w)
        else (window_new, record { top = f; bits = set_ring (clear_ring w.bits (w.top + 1) d) f }))
    else if leb Const.fseq_window_bits ((w.top + 2 ^ 32 - f) % 2 ^ 32)
    then (window_late, w)
    else accept_inside w f

unfoldable pub jump : FseqWindow → ℕ → FseqWindow
jump w f = record { top = f; bits = set_ring (replicate (8192 / 64) 0) f }

pub record IsValid (w : FseqWindow) : Type 0 where
  pub top_fits : w.top < 2 ^ 32
  pub bits_length : length w.bits ≡ 128

pub record SeqWindow : Type 0 where
  pub top : ℕ
  pub started : Bool
  pub bits : List ℕ

-- `none` is the panic on a length that is not a power of two of at least minSeqWindowWords.
unfoldable pub seq_init : List ℕ → Option SeqWindow
seq_init storage =
    if ltb (length storage) 16 || not (bit_and (length storage) (length storage - 1) == 0)
    then none
    else some (record { top = 0; started = false; bits = replicate (length storage) 0 })

-- The end of SeqWindow.Accept: the number becomes the newest and is marked.
unfoldable pub seq_newest : List ℕ → ℕ → WindowVerdict × SeqWindow
seq_newest bits seq = (window_new, record { top = seq; started = true; bits = set_ring bits seq })

unfoldable pub seq_inside : SeqWindow → ℕ → WindowVerdict × SeqWindow
seq_inside w seq = let r = mark_ring w.bits seq in (r.0, record w { bits = r.1 })

unfoldable pub seq_accept : SeqWindow → ℕ → WindowVerdict × SeqWindow
seq_accept w seq =
    let width = length w.bits * 64 in
    if not w.started
    then seq_newest w.bits seq
    else if ltb w.top seq
    then (let d = seq - w.top in
        seq_newest
          (if leb width d
            then replicate (length w.bits) 0
            else clear_ring w.bits ((w.top + 1) % 2 ^ 64) d)
          seq)
    else if leb width (w.top - seq)
    then (window_late, w)
    else seq_inside w seq
