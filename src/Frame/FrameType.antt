-- ===== src/Frame/FrameType.antt =====
-- The DWNX_FRAME_* types and the flag bits of a STREAM type, of lib/dwnx_frame.h.
use dwnx.Prelude.{ℕ, Bool, not, bit_and, ◌==◌}

abbrev pub qx_transport_parameters : ℕ
qx_transport_parameters = 0x3F5153300D0A0D0A

abbrev pub qx_ping_request : ℕ
qx_ping_request = 0x348C67529EF8C7BD

abbrev pub qx_ping_response : ℕ
qx_ping_response = 0x348C67529EF8C7BE

abbrev pub padding : ℕ
padding = 0x00

abbrev pub reset_stream : ℕ
reset_stream = 0x04

abbrev pub stop_sending : ℕ
stop_sending = 0x05

abbrev pub stream : ℕ
stream = 0x08

abbrev pub max_data : ℕ
max_data = 0x10

abbrev pub max_stream_data : ℕ
max_stream_data = 0x11

abbrev pub max_streams_bidi : ℕ
max_streams_bidi = 0x12

abbrev pub max_streams_uni : ℕ
max_streams_uni = 0x13

abbrev pub data_blocked : ℕ
data_blocked = 0x14

abbrev pub stream_data_blocked : ℕ
stream_data_blocked = 0x15

abbrev pub streams_blocked_bidi : ℕ
streams_blocked_bidi = 0x16

abbrev pub streams_blocked_uni : ℕ
streams_blocked_uni = 0x17

abbrev pub connection_close : ℕ
connection_close = 0x1c

abbrev pub connection_close_app : ℕ
connection_close_app = 0x1d

abbrev pub datagram : ℕ
datagram = 0x30

abbrev pub datagram_len : ℕ
datagram_len = 0x31

-- DWNX_STREAM_FIN_BIT, DWNX_STREAM_LEN_BIT, DWNX_STREAM_OFF_BIT
abbrev pub fin_bit : ℕ
fin_bit = 0x01

abbrev pub len_bit : ℕ
len_bit = 0x02

abbrev pub off_bit : ℕ
off_bit = 0x04

-- `type & bit`, as a test
abbrev pub has_bit : ℕ → ℕ → Bool
has_bit type bit = not (bit_and type bit == 0)
