-- ===== src/Conn/Read/Runs.antt =====
-- dwnx_conn_read on concrete input.
use dwnx.Prelude.{
  ℕ, ◌≡◌, ◌≢◌, refl, arith, List, [], ◌∷◌, true, false, inl, none, ok, fault, are_bytes-IsByte,
  ◌>>=◌, Holds,
}
use dwnx.Conv.Wire.{varint_bytes}
use dwnx.Frame.{Frame}
use dwnx.Frame.Wire.{wire}
use dwnx.VarintReader
use dwnx.RecordReader.{State, Frames, no_buf}
use dwnx.Conn.Runs.{new_conn, new_conn-IsConn, new_conn-time}
use dwnx.Conn.Read.{Reading}
use dwnx.Conn.Read.Loop.{rounds, conn_read}
use dwnx.Conn.Read.Steps.{reset-IsHeld}
use dwnx.Conn.Read.Invariant.{IsReading, IsCode}
use dwnx.Conn.Read.LoopEnds.{conn_read-IsReading}
use dwnx.Conn.Read.Fuel.{rounds-enough}
use dwnx.Conn.Read.Dispatch.{between, view, record_bytes}
use dwnx.Conn.Read.Integers.{handler}
use dwnx.Conn.Read.Handlers.{conn_read-handler}

abbrev no_frames : Frames
no_frames = record {
  qx_ping = record { type = 0; seq = 0 };
  padding = record { len = 0 };
  stream = record { flags = 0; fin = false; stream_id = 0; offset = 0; len = 0; vecs = [] };
  reset_stream = record { stream_id = 0; app_error_code = 0; final_size = 0 };
  stop_sending = record { stream_id = 0; app_error_code = 0 };
  max_data = record { max_data = 0 };
  max_stream_data = record { stream_id = 0; max_stream_data = 0 };
  max_streams = record { type = 0; max_streams = 0 };
  data_blocked = record { max_data = 0 };
  stream_data_blocked = record { stream_id = 0; max_stream_data = 0 };
  streams_blocked = record { type = 0; max_streams = 0 };
  connection_close = record { type = 0; error_code = 0; frame_type = 0; reason = [] };
  datagram = record { type = 0; len = 0; vecs = [] };
}

-- A server that has the client's transport parameters, with its clock at 200.
abbrev pub reading : Reading
reading = record {
  conn = new_conn;
  seen = true;
  vird = VarintReader.reset;
  rcrd = record {
    state = State.record_size;
    fr = no_frames;
    typelen = 0;
    record_left = 0;
    field_left = 0;
    buf = no_buf;
  };
  idle_ts = 100;
  last_ts = 200;
  p = [];
}

reading-IsReading : IsReading reading
reading-IsReading = (
  ((new_conn-IsConn, (new_conn-IsConn.0.5, new_conn-time)), refl, reset-IsHeld, tt, omega arith),
  inl refl,
)

-- RESET_STREAM of the stream 0 with the code 7 and the size 5, cut within the record.
abbrev input : List ℕ
input = 4 ∷ 4 ∷ 0 ∷ 7 ∷ []

conn_read-IsReading_example :
    Holds
      (λ out. IsReading out.1 × (out.1.last_ts ≡ 300) × IsCode out.0 out.1)
      (conn_read input 300 reading)
conn_read-IsReading_example =
    conn_read-IsReading input 300 reading reading-IsReading (are_bytes-IsByte input refl)
      (omega arith)

abbrev with_input : Reading
with_input = record reading { p = input }

with_input-IsReading : IsReading with_input
with_input-IsReading = (
  (
    (new_conn-IsConn, (new_conn-IsConn.0.5, new_conn-time)),
    refl,
    reset-IsHeld,
    are_bytes-IsByte input refl,
    omega arith,
  ),
  inl refl,
)

rounds-enough_example :
    (rounds 4 200 with_input ≡ rounds 100 200 with_input) × (rounds 4 200 with_input ≢ fault)
rounds-enough_example =
    rounds-enough 4 100 with_input with_input-IsReading (omega arith) (omega arith)

abbrev reset_frame : Frame
reset_frame = Frame.reset_stream (record { stream_id = 0; app_error_code = 7; final_size = 0 })

conn_read-handler_example :
    (conn_read (record_bytes (wire reset_frame)) 300 (between reading) >>= view)
    ≡ (handler reset_frame 300 new_conn >>= (λ conn. ok (none, conn, State.record_size, 300)))
unfolding wire varint_bytes
conn_read-handler_example =
    conn_read-handler reset_frame 300 reading tt (omega arith, omega arith, omega arith)
      (omega arith) refl
