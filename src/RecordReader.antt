-- ===== src/RecordReader.antt =====
-- The record reader of lib/dwnx_record_reader.h and lib/dwnx_record_reader.c: how far the record and the
-- frame have been read. The union `fr` is a record with every member; a state reads only the member that
-- the states before it have written. The buffer `buf` is the bytes in it and its size.
use dwnx.Prelude.{ℕ, ◌-◌, List, [], ◌++◌, Bool, true, false, min, ◌==◌, if◌then◌else◌, length}
use dwnx.Frame

pub data State : Type 0 where
  record_size frame_type : State
  qx_transport_parameters_len qx_transport_parameters_params qx_ping_seq : State
  stream_stream_id stream_offset stream_length stream_data : State
  reset_stream_stream_id reset_stream_app_error_code reset_stream_final_size : State
  stop_sending_stream_id stop_sending_app_error_code : State
  max_data_max_data max_stream_data_stream_id max_stream_data_max_stream_data : State
  max_streams_max_streams : State
  data_blocked_offset stream_data_blocked_stream_id stream_data_blocked_offset : State
  streams_blocked_max_streams : State
  connection_close_error_code connection_close_frame_type : State
  connection_close_reasonlen connection_close_reason : State
  datagram_len datagram_data : State
  draining closing : State

abbrev pub is_record_size : State → Bool
is_record_size State.record_size = true
is_record_size _ = false

-- The members of `fr`.
pub record Frames : Type 0 where
  pub qx_ping : Frame.QxPing
  pub padding : Frame.Padding
  pub stream : Frame.Stream
  pub reset_stream : Frame.ResetStream
  pub stop_sending : Frame.StopSending
  pub max_data : Frame.MaxData
  pub max_stream_data : Frame.MaxStreamData
  pub max_streams : Frame.MaxStreams
  pub data_blocked : Frame.DataBlocked
  pub stream_data_blocked : Frame.StreamDataBlocked
  pub streams_blocked : Frame.StreamsBlocked
  pub connection_close : Frame.ConnectionClose
  pub datagram : Frame.Datagram

-- `dwnx_buf`: what has been written to it, of `size` bytes.
pub record Buf : Type 0 where
  pub bytes : List ℕ
  pub size : ℕ

pub record RecordReader : Type 0 where
  pub state : State
  pub fr : Frames
  pub typelen : ℕ
  pub record_left : ℕ
  pub field_left : ℕ
  pub buf : Buf

abbrev pub no_buf : Buf
no_buf = record { bytes = []; size = 0 }

-- dwnx_buf_left
abbrev pub buf_left : Buf → ℕ
buf_left buf = buf.size - length buf.bytes

-- dwnx_cpymem to `buf.last`
abbrev pub buf_append : List ℕ → Buf → Buf
buf_append bytes buf = record buf { bytes = buf.bytes ++ bytes }

abbrev pub next_frame : RecordReader → RecordReader
next_frame rcrd = record rcrd {
  buf = no_buf;
  state = State.frame_type;
  typelen = 0;
  field_left = 0;
}

abbrev pub reset : RecordReader → RecordReader
reset rcrd =
    if rcrd.record_left == 0
    then record (next_frame rcrd) { state = State.record_size }
    else next_frame rcrd

abbrev pub avail : RecordReader → ℕ → ℕ
avail rcrd len = min len rcrd.record_left

abbrev pub field_avail : RecordReader → ℕ → ℕ
field_avail rcrd len = min rcrd.field_left (avail rcrd len)

abbrev pub buf_avail : RecordReader → ℕ → ℕ
buf_avail rcrd len = min (buf_left rcrd.buf) (avail rcrd len)
