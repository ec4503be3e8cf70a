-- ===== src/Conn/Credits.antt =====
-- The handlers of lib/dwnx_conn.c for the frames that give or ask for credit, and that stop a stream.
use dwnx.Prelude.{ℕ, ◌==◌, List, Bool, true, not, ◌||◌, if◌then◌else◌, ltb, leb, Option, none, some}
use dwnx.Prelude.{
  Result, ok, err, ◌>>=◌, ◌>>◌, guard, stream_limit, proto, flow_control, frame_encoding,
}
use dwnx.Strm.{Strm}
use dwnx.Frame
use dwnx.Frame.FrameType
use dwnx.Gaptr.{idtr_is_open}
use dwnx.Conn.{Conn, Event, local_stream, max_streams_limit, call, find_stream, put_strm}
use dwnx.Conn.Shutdown.{reset_stream}
use dwnx.Conn.Receive.{check_recv, check_send, idtr, stream_for, glitch}

-- No RESET_STREAM is needed where the side is shut.
unfoldable pub stopped : Frame.StopSending → Strm → Conn → Conn
stopped fr strm conn =
    if strm.flags.shut_wr
    then put_strm
        (record strm { flags = record strm.flags { shut_wr = true; stop_sending_recved = true } })
        conn
    else reset_stream
        (record strm {
          flags = record strm.flags {
            reset_stream = true;
            shut_wr = true;
            stop_sending_recved = true;
          };
        })
        fr.app_error_code conn

unfoldable pub stop_frame : Frame.StopSending → ℕ → Option Strm × Conn → Result Conn
unfolding stopped
stop_frame fr ts (none, conn) = glitch ts conn
stop_frame fr ts (some strm, conn) =
    if strm.flags.stop_sending_recved
    then glitch ts conn
    else call (Event.recv_stop_sending fr.stream_id fr.app_error_code) conn
      >>= (λ conn. ok (stopped fr strm conn))

unfoldable pub recv_stop_sending : Frame.StopSending → ℕ → Conn → Result Conn
unfolding stopped
recv_stop_sending fr ts conn = do
  check_send conn fr.stream_id
  stream_for fr.stream_id (ok tt) conn >>= stop_frame fr ts

unfoldable pub recv_max_data : Frame.MaxData → Conn → Result Conn
recv_max_data fr conn = do
  guard (ltb conn.tx.max_offset fr.max_data) proto
  ok (record conn { tx = record conn.tx { max_offset = fr.max_data } })

abbrev pub raised : Frame.MaxStreamData → Strm → Strm
raised fr strm = record strm { tx = record strm.tx { max_offset = fr.max_stream_data } }

abbrev pub max_data_frame : Frame.MaxStreamData → ℕ → Option Strm × Conn → Result Conn
max_data_frame fr ts (none, conn) = glitch ts conn
max_data_frame fr ts (some strm, conn) =
    guard (ltb strm.tx.max_offset fr.max_stream_data) proto
    >> (if strm.flags.shut_wr
        then glitch ts (put_strm (raised fr strm) conn)
        else call (Event.extend_max_stream_data fr.stream_id fr.max_stream_data)
            (put_strm (raised fr strm) conn))

unfoldable pub recv_max_stream_data : Frame.MaxStreamData → ℕ → Conn → Result Conn
recv_max_stream_data fr ts conn = do
  check_send conn fr.stream_id
  stream_for fr.stream_id (ok tt) conn >>= max_data_frame fr ts

unfoldable pub recv_max_streams : Frame.MaxStreams → Conn → Result Conn
recv_max_streams fr conn = do
  guard (leb fr.max_streams max_streams_limit) frame_encoding
  if fr.type == FrameType.max_streams_bidi
      then (do
        guard (ltb conn.tx.bidi.max_streams fr.max_streams) proto
        call (Event.extend_max_local_streams_bidi fr.max_streams) (record conn {
          tx = record conn.tx { bidi = record conn.tx.bidi { max_streams = fr.max_streams } };
        }))
      else (do
        guard (ltb conn.tx.uni.max_streams fr.max_streams) proto
        call (Event.extend_max_local_streams_uni fr.max_streams) (record conn {
          tx = record conn.tx { uni = record conn.tx.uni { max_streams = fr.max_streams } };
        }))

-- The handlers of the three frames that tell of a limit change nothing.
unfoldable pub recv_streams_blocked : Frame.StreamsBlocked → Conn → Result (Unit {0})
recv_streams_blocked fr conn =
    if fr.type == FrameType.streams_blocked_bidi
    then guard (leb fr.max_streams conn.rx.bidi.max_streams) stream_limit
    else guard (leb fr.max_streams conn.rx.uni.max_streams) stream_limit

unfoldable pub recv_data_blocked : Frame.DataBlocked → Conn → Result (Unit {0})
recv_data_blocked fr conn = guard (leb fr.max_data conn.rx.max_offset) flow_control

-- A stream that is not there may have been closed.
abbrev pub blocked_frame : Frame.StreamDataBlocked → Conn → Option Strm → Result (Unit {0})
blocked_frame fr conn none = if local_stream conn fr.stream_id then err proto else (do
  closed ← idtr_is_open (idtr conn fr.stream_id) fr.stream_id
  guard (not closed) proto
  guard (fr.max_stream_data == 0) proto)
blocked_frame fr conn (some strm) =
    guard (not (strm.flags.shut_rd || not (strm.rx.last_offset == fr.max_stream_data))) proto

unfoldable pub recv_stream_data_blocked : Frame.StreamDataBlocked → Conn → Result (Unit {0})
recv_stream_data_blocked fr conn = do
  check_recv conn fr.stream_id
  blocked_frame fr conn (find_stream conn fr.stream_id)

-- A datagram, or a piece of it at `offset`.
unfoldable pub recv_datagram : Bool → ℕ → ℕ → List ℕ → Conn → Result Conn
recv_datagram fin dgramlen offset bytes conn =
    call (Event.recv_datagram fin dgramlen offset bytes) conn
