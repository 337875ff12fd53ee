-- ===== src/Wire/FrameType.antt =====
-- The frame type byte: its code points, classes and flags (internal/wire/const.go, dgram.go).
pub mod Table
use rendr.Common.{ℕ, ◌+◌, ◌*◌, Bool, true, false, not, ◌||◌, leb, ◌==◌, if◌then◌else◌}
use rendr.Wire.Const

abbrev pub type_open : ℕ
type_open = 0x01

abbrev pub type_open_ack : ℕ
type_open_ack = 0x02

abbrev pub type_join : ℕ
type_join = 0x03

abbrev pub type_join_ack : ℕ
type_join_ack = 0x04

abbrev pub type_data : ℕ
type_data = 0x10

abbrev pub type_ack : ℕ
type_ack = 0x11

abbrev pub type_fin : ℕ
type_fin = 0x12

abbrev pub type_rst : ℕ
type_rst = 0x13

abbrev pub type_sched : ℕ
type_sched = 0x14

abbrev pub type_dgram : ℕ
type_dgram = 0x20

abbrev pub type_pack : ℕ
type_pack = 0x21

abbrev pub type_ping : ℕ
type_ping = 0x30

abbrev pub type_pong : ℕ
type_pong = 0x31

abbrev pub type_close : ℕ
type_close = 0x32

abbrev pub type_go_away : ℕ
type_go_away = 0x33

abbrev pub type_rel : ℕ
type_rel = 0x34

abbrev pub type_rack : ℕ
type_rack = 0x35

abbrev pub type_detach : ℕ
type_detach = 0x36

abbrev pub type_down : ℕ
type_down = 0x37

abbrev pub type_reserved_r : ℕ
type_reserved_r = 0x52

abbrev same : Bool → Bool → Bool
same true b = b
same false b = not b

-- `t >= 0x80`: the ignorable extension range.
unfoldable pub extension : ℕ → Bool
extension t = leb 0x80 t

unfoldable pub carrier_level : ℕ → Bool
carrier_level t =
    t == type_ping
    || (t == type_pong
        || (t == type_close
            || (t == type_go_away
                || (t == type_rel || (t == type_rack || (t == type_detach || t == type_down))))))

unfoldable pub known : ℕ → Bool
known t =
    t == type_open
    || (t == type_open_ack
        || (t == type_join
            || (t == type_join_ack
                || (t == type_data
                    || (t == type_ack
                        || (t == type_fin
                            || (t == type_rst
                                || (t == type_sched
                                    || (t == type_ping
                                        || (t == type_pong
                                            || (t == type_close
                                                || (t == type_go_away
                                                    || (t == type_dgram
                                                        || (t == type_pack
                                                            || (t == type_rel
                                                            || (t == type_rack
                                                            || (t == type_detach
                                                            || t == type_down)))))))))))))))))

-- The flag bits defined for a type: the masks are `FIN_DELIVERED | DONE` of ACK and PACK, BUSY of
-- PING and the cause bits of SCHED.
unfoldable pub allowed_flags : ℕ → ℕ
unfolding extension
allowed_flags t =
    if extension t
    then 0xff
    else if t == type_ack
    then 3
    else if t == type_pack
    then 3
    else if t == type_ping
    then 1
    else if t == type_sched
    then 3
    else 0

-- The handle of a core type: 0 for a carrier-level type, anything but 0 for a session type.
unfoldable pub handle_ok : ℕ → ℕ → Bool
handle_ok t handle = same (carrier_level t) (handle == 0)

-- The types that a REL may carry.
unfoldable pub wrappable : ℕ → Bool
wrappable t =
    t == type_open
    || (t == type_open_ack
        || (t == type_join
            || (t == type_join_ack
                || (t == type_fin
                    || (t == type_rst
                        || (t == type_sched
                            || (t == type_close
                                || (t == type_go_away
                                    || (t == type_pack
                                        || (t == type_detach || t == type_down))))))))))

-- The inclusive payload length bounds of a type, and whether the type is one of the codec's.
unfoldable pub payload_bounds : ℕ → ℕ × ℕ × Bool
unfolding extension
payload_bounds t =
    if extension t
    then (0, Const.max_frame_payload, true)
    else if t == type_open
    then (Const.open_fixed_len, Const.open_fixed_len + Const.max_metadata, true)
    else if t == type_open_ack
    then (Const.open_ack_fixed_len, Const.open_ack_fixed_len + Const.max_msg, true)
    else if t == type_join
    then (Const.join_len, Const.join_len, true)
    else if t == type_join_ack
    then (Const.join_ack_len, Const.join_ack_len, true)
    else if t == type_data
    then (Const.data_prefix_len + 1, Const.max_frame_payload, true)
    else if t == type_ack
    then (Const.ack_len, Const.ack_len, true)
    else if t == type_fin
    then (Const.fin_len, Const.fin_len, true)
    else if t == type_rst
    then (Const.rst_fixed_len, Const.rst_fixed_len + Const.max_msg, true)
    else if t == type_sched
    then (Const.sched_fixed_len + 4, Const.sched_fixed_len + 4 * Const.max_sched_ids, true)
    else if t == type_ping || t == type_pong
    then (Const.ping_fixed_len, Const.ping_fixed_len + Const.max_ping_pad, true)
    else if t == type_close || t == type_go_away
    then (Const.reason_len, Const.reason_len, true)
    else if t == type_dgram
    then (Const.dgram_prefix_len, Const.max_frame_payload, true)
    else if t == type_pack
    then (Const.pack_len, Const.pack_len, true)
    else if t == type_rel
    then (Const.rel_head_len, Const.max_frame_payload, true)
    else if t == type_rack
    then (Const.rack_len, Const.rack_len, true)
    else if t == type_detach
    then (Const.detach_len, Const.detach_len, true)
    else if t == type_down
    then (Const.down_len, Const.down_len, true)
    else (0, 0, false)
