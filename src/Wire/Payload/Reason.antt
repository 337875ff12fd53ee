-- ===== src/Wire/Payload/Reason.antt =====
-- The carrier-level payloads of one or two fields: CLOSE and GOAWAY (internal/wire/payload.go),
-- DETACH (detach.go) and DOWN (down.go).
use rendr.Common.{
  ℕ, ◌^◌, ◌≤◌, ◌<◌, ◌≡◌, refl, ap, ◌∙◌, ◌≢◌, ◌||◌, Option, some, List, [], ◌∷◌, ◌++◌, arith, ltb,
  ◌==◌, if◌then◌else◌, length, take, drop, byte, uint32, put_uint32, put_front, put_front-fits,
  read32, put_front_read, fail_if, check, ok, err,
}
use rendr.Wire.Const
use rendr.Wire.Errors.{Decoded, err_value}
use rendr.Wire.Payload.Tail.{exact_tail}

-- `none` is the panic on an empty buffer.
unfoldable pub put_reason : List ℕ → ℕ → Option (ℕ × List ℕ)
put_reason dst r = put_front dst (r ∷ [])

unfoldable pub parse_close : List ℕ → Decoded ℕ
parse_close p = check (exact_tail (length p) Const.reason_len) (
    if byte p 0 == Const.close_retire || byte p 0 == Const.close_capacity
    then ok (byte p 0)
    else err err_value)

unfoldable pub parse_go_away : List ℕ → Decoded ℕ
parse_go_away p =
    check (exact_tail (length p) Const.reason_len)
      (if byte p 0 == Const.go_away_shutdown then ok (byte p 0) else err err_value)

pub record Detach : Type 0 where
  pub handle : ℕ
  pub reason : ℕ

unfoldable pub put_detach : List ℕ → Detach → Option (ℕ × List ℕ)
put_detach dst d = put_front dst (put_uint32 d.handle ++ d.reason ∷ [])

unfoldable pub check_detach : Detach → Decoded Detach
check_detach d =
    fail_if
      (d.handle == 0 || (ltb d.reason Const.detach_ended || ltb Const.detach_retired d.reason))
      err_value (ok d)

unfoldable pub parse_detach : List ℕ → Decoded Detach
parse_detach p =
    check (exact_tail (length p) Const.detach_len)
      (check_detach (record { handle = uint32 p 0; reason = byte p 4 }))

unfoldable pub put_down : List ℕ → ℕ → Option (ℕ × List ℕ)
put_down dst carrier_id = put_front dst (put_uint32 carrier_id)

unfoldable pub parse_down : List ℕ → Decoded ℕ
parse_down p =
    check (exact_tail (length p) Const.down_len)
      (fail_if (uint32 p 0 == 0) err_value (ok (uint32 p 0)))

-- A reason that PutReason wrote is read back by ParseClose exactly if it is one of CLOSE's two,
-- and by ParseGoAway exactly if it is GOAWAY's one; any other is ErrValue to it.
pub parse_close-parse_go_away :
    (dst : List ℕ) (r : ℕ)
    → 1 ≤ length dst
    → (d : List ℕ) × (put_reason dst r ≡ some (1, d))
      × (parse_close (take 1 d) ≡ (if r == 1 || r == 2 then ok r else err err_value))
      × (parse_go_away (take 1 d) ≡ (if r == 1 then ok r else err err_value))
unfolding put_reason parse_close parse_go_away exact_tail
parse_close-parse_go_away dst r h = (r ∷ drop 1 dst, put_front-fits dst (r ∷ []) h, refl, refl)

pub record IsValid (d : Detach) : Type 0 where
  pub handle_in : (d.handle ≢ 0) × (d.handle < 2 ^ 32)
  pub reason_in : (1 ≤ d.reason) × (d.reason ≤ 2)

check_detach-eq : (d : Detach) → IsValid d → check_detach d ≡ ok d
unfolding check_detach
check_detach-eq d v = ground arith

-- PutDetach writes a valid DETACH, ParseDetach reads it back from those bytes, and the rest of the
-- buffer is unchanged.
pub parse_detach-put_detach :
    (dst : List ℕ) (x : Detach)
    → IsValid x
    → 5 ≤ length dst
    → (d : List ℕ) × (put_detach dst x ≡ some (5, d))
      × (parse_detach (take 5 d) ≡ ok x)
      × (drop 5 d ≡ drop 5 dst)
unfolding put_detach
parse_detach-put_detach dst x v h =
    put_front_read parse_detach dst (put_uint32 x.handle ++ x.reason ∷ []) 5 (ok x) refl h read
  where
    again : Detach
    again = record { handle = uint32 (put_uint32 x.handle) 0; reason = x.reason }

    same : again ≡ x
    same = λ i. record { handle = read32 x.handle v.handle_in.1 i; reason = x.reason }

    read : parse_detach (put_uint32 x.handle ++ x.reason ∷ []) ≡ ok x
    read = unfold parse_detach exact_tail in ap check_detach same ∙ check_detach-eq x v

-- PutDown writes a carrier ID, ParseDown reads it back from those bytes if it is not 0 and is
-- ErrValue if it is.
pub parse_down-put_down :
    (dst : List ℕ) (id : ℕ)
    → id < 2 ^ 32
    → 4 ≤ length dst
    → (d : List ℕ) × (put_down dst id ≡ some (4, d))
      × (parse_down (take 4 d) ≡ (if id == 0 then err err_value else ok id))
      × (drop 4 d ≡ drop 4 dst)
unfolding put_down
parse_down-put_down dst id f h =
    put_front_read parse_down dst (put_uint32 id) 4 (if id == 0 then err err_value else ok id) refl
      h read
  where
    read : parse_down (put_uint32 id) ≡ (if id == 0 then err err_value else ok id)
    read =
        unfold parse_down exact_tail in
        ap (λ t. fail_if (t == 0) err_value (ok t)) (read32 id f) ∙ ground arith
