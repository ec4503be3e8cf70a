-- ===== src/TransportParams/ParamId.antt =====
-- The DWNX_TRANSPORT_PARAM_* identifiers and DWNX_MAX_STREAMS of lib/dwnx_transport_params.h.
use dwnx.Prelude.{ℕ, ◌^◌, Bool, ◌||◌, ◌==◌}

abbrev pub max_idle_timeout : ℕ
max_idle_timeout = 0x01

abbrev pub initial_max_data : ℕ
initial_max_data = 0x04

abbrev pub initial_max_stream_data_bidi_local : ℕ
initial_max_stream_data_bidi_local = 0x05

abbrev pub initial_max_stream_data_bidi_remote : ℕ
initial_max_stream_data_bidi_remote = 0x06

abbrev pub initial_max_stream_data_uni : ℕ
initial_max_stream_data_uni = 0x07

abbrev pub initial_max_streams_bidi : ℕ
initial_max_streams_bidi = 0x08

abbrev pub initial_max_streams_uni : ℕ
initial_max_streams_uni = 0x09

abbrev pub max_record_size : ℕ
max_record_size = 0x0571C59429CD0845

abbrev pub max_datagram_frame_size : ℕ
max_datagram_frame_size = 0x20

-- The parameters of QUIC that QMux prohibits.
pub is_prohibited : ℕ → Bool
is_prohibited id =
    id == 0x03
    || id == 0x02
    || id == 0x0a
    || id == 0x0d
    || id == 0x0c
    || id == 0x00
    || id == 0x10
    || id == 0x0f
    || id == 0x0b
    || id == 0x0e

-- DWNX_MAX_STREAMS
abbrev pub max_streams : ℕ
max_streams = 2 ^ 60
