-- ===== src/Wire/Const.antt =====
-- Sizes, limits and code points of wire format v2 (internal/wire/const.go, dgram.go, detach.go,
-- down.go). A value of a Go `uint8`, `uint16` or `uint32` type is a number.
use rendr.Common.{ℕ, ◌+◌, ◌^◌}

abbrev pub major : ℕ
major = 2

abbrev pub preface_len : ℕ
preface_len = 40

abbrev pub header_len : ℕ
header_len = 13

abbrev pub trailer_len : ℕ
trailer_len = 4

abbrev pub frame_overhead : ℕ
frame_overhead = header_len + trailer_len

abbrev pub max_frame_payload : ℕ
max_frame_payload = 2 ^ 20

abbrev pub data_prefix_len : ℕ
data_prefix_len = 8

abbrev pub open_fixed_len : ℕ
open_fixed_len = 32

abbrev pub open_ack_fixed_len : ℕ
open_ack_fixed_len = 10

abbrev pub join_len : ℕ
join_len = 25

abbrev pub join_ack_len : ℕ
join_ack_len = 9

abbrev pub ack_len : ℕ
ack_len = 16

abbrev pub fin_len : ℕ
fin_len = 8

abbrev pub rst_fixed_len : ℕ
rst_fixed_len = 5

abbrev pub sched_fixed_len : ℕ
sched_fixed_len = 29

abbrev pub ping_fixed_len : ℕ
ping_fixed_len = 20

abbrev pub reason_len : ℕ
reason_len = 1

abbrev pub max_sched_ids : ℕ
max_sched_ids = 16

abbrev pub max_msg : ℕ
max_msg = 255

abbrev pub max_metadata : ℕ
max_metadata = 65535

-- `64<<10 - PingFixedLen`, in which Go's `<<` binds tighter than `-`.
abbrev pub max_ping_pad : ℕ
max_ping_pad = 65516

abbrev pub known_required : ℕ
known_required = 0

abbrev pub opt_mux : ℕ
opt_mux = 1

abbrev pub opt_end_code : ℕ
opt_end_code = 2

-- `OptMux | OptEndCode`.
abbrev pub known_optional : ℕ
known_optional = 3

abbrev pub max_mode : ℕ
max_mode = 3

abbrev pub kind_stream : ℕ
kind_stream = 1

abbrev pub kind_datagram : ℕ
kind_datagram = 2

abbrev pub role_dialer : ℕ
role_dialer = 1

abbrev pub role_passive : ℕ
role_passive = 2

abbrev pub preface_capacity : ℕ
preface_capacity = 4

abbrev pub status_ok : ℕ
status_ok = 0

abbrev pub status_going_away : ℕ
status_going_away = 5

abbrev pub open_flag_early : ℕ
open_flag_early = 1

abbrev pub close_retire : ℕ
close_retire = 1

abbrev pub close_capacity : ℕ
close_capacity = 2

abbrev pub go_away_shutdown : ℕ
go_away_shutdown = 1

abbrev pub dgram_prefix_len : ℕ
dgram_prefix_len = 8

abbrev pub dgram_overhead : ℕ
dgram_overhead = frame_overhead + dgram_prefix_len

abbrev pub pack_len : ℕ
pack_len = 20

abbrev pub rel_head_len : ℕ
rel_head_len = 10

abbrev pub rack_len : ℕ
rack_len = 8

abbrev pub rel_window : ℕ
rel_window = 8

abbrev pub flow_header_len : ℕ
flow_header_len = 9

abbrev pub flow_version : ℕ
flow_version = 2

abbrev pub min_packet_payload : ℕ
min_packet_payload = 512

abbrev pub max_packet_payload : ℕ
max_packet_payload = 65507

abbrev pub min_frame_budget : ℕ
min_frame_budget = min_packet_payload + dgram_overhead

abbrev pub max_datagram : ℕ
max_datagram = 65507

abbrev pub fseq_window_bits : ℕ
fseq_window_bits = 8192

abbrev pub detach_len : ℕ
detach_len = 5

abbrev pub detach_ended : ℕ
detach_ended = 1

abbrev pub detach_retired : ℕ
detach_retired = 2

abbrev pub down_len : ℕ
down_len = 4
