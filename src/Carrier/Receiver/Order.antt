-- ===== src/Carrier/Receiver/Order.antt =====
-- The receiver dispatches what the sender numbered in order and once, whatever arrives.
pub mod Moves
pub mod Steps
pub mod Arrivals
pub mod Runs
use rendr.Common.{
  ℕ, ◌+◌, ◌%◌, ◌^◌, ◌≤◌, ◌<◌, ◌≡◌, Bool, true, false, not, ◌&&◌, List, length, get_or, ok,
}
use rendr.Common.Int
use rendr.Wire.Payload.Rel.{RelHead, parse_rel}
use rendr.Common.Slots.{taken}
use rendr.Carrier.Receiver.{RelHeld, RelReceiver, Dispatched, nothing_held, of_handshake, on_rel}

-- A sender's RELs, numbered from 1: the k-th carries a head with the cseq `first + k`.
pub record Numbered (mux : Bool) (first : ℕ) (payload : ℕ → List ℕ) (head : ℕ → RelHead)
    (inner : ℕ → List ℕ) : Type 0 where
  pub reads : (k : ℕ) → parse_rel (payload k) ≡ ok (head k, inner k)
  pub numbered : (k : ℕ) → (head k).cseq ≡ (first + k) % 2 ^ 32
  pub small : (k : ℕ) → length (payload k) ≤ 275
  pub fine : (k : ℕ) → (of_handshake (head k).type && not mux) ≡ false

-- From the state `s` behind the n-th frame to the state behind the m-th: each frame between is
-- dispatched, in order and once.
pub data Delivers {S : Type 0} (dispatch : S → RelHead → List ℕ → ℕ → Dispatched S)
    (head : ℕ → RelHead) (inner : ℕ → List ℕ) (n : ℕ) (s : S) : ℕ → S → Type 0 where
  here : Delivers dispatch head inner n s n s
  next :
      {m k : ℕ} {t u : S} (fseq : ℕ)
      → Delivers dispatch head inner n s m t
      → k ≡ m + 1
      → u ≡ (dispatch t (head k) (inner k) fseq).after
      → Delivers dispatch head inner n s k u

module _ {S : Type 0} (dispatch : S → RelHead → List ℕ → ℕ → Dispatched S) (head : ℕ → RelHead)
    (inner : ℕ → List ℕ) where
  pub Delivers-trans :
      {n m : ℕ} {s t : S} {k : ℕ} {u : S}
      → Delivers dispatch head inner n s m t
      → Delivers dispatch head inner m t k u
      → Delivers dispatch head inner n s k u
  Delivers-trans d here = d
  Delivers-trans d (next fseq e p q) = next fseq (Delivers-trans d e) p q

-- `n` frames are dispatched, and `seen` holds of those and of the frames held.
pub record Inv {S : Type 0} (first : ℕ) (payload : ℕ → List ℕ) (seen : ℕ → Bool) (n : ℕ)
    (r : RelReceiver S) : Type 0 where
  pub reach : n < 2 ^ 31
  pub cum_is : r.cum ≡ (first + n) % 2 ^ 32
  pub slots : length r.held ≡ 8
  pub marks : (k : ℕ) → n < k → k ≤ n + 8 → taken r.held_mask ((first + k) % 8) ≡ seen k
  pub kept :
      (k : ℕ)
      → n < k
      → k ≤ n + 8
      → seen k ≡ true
      → (get_or r.held ((first + k) % 8) nothing_held).bytes ≡ payload k
  pub before : (k : ℕ) → 0 < k → k ≤ n → seen k ≡ true
  pub beyond : (k : ℕ) → n + 8 < k → seen k ≡ false
  pub near : (k : ℕ) → seen k ≡ true → k < 2 ^ 31
