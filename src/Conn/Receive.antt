-- ===== src/Conn/Receive.antt =====
-- The handlers of lib/dwnx_conn.c for the frames that the peer sends. A length of data is that of the
-- frame; the timestamp is in nanoseconds. The two sets of checks on a stream ID that stand in front of
-- the handlers, and the way in which they come to a stream, are functions of their own here.
use dwnx.Prelude.{
  ℕ, ◌+◌, ◌%◌, ◌^◌, ◌==◌, List, [], Bool, true, false, not, ◌&&◌, ◌||◌, if◌then◌else◌, ltb, leb,
  Option, none, some, length,
}
use dwnx.Prelude.{
  Result, ok, err, fault, ◌>>=◌, ◌>>◌, guard, stream_state, stream_limit, stream_in_use, proto,
  flow_control, final_size, internal,
}
use dwnx.Strm.{Strm, shutdown}
use dwnx.Vec.{max_varint}
use dwnx.Ratelim.{drain}
use dwnx.Gaptr.{Range, idtr_open}
use dwnx.Err.{err_is_fatal}
use dwnx.Frame
use dwnx.Conv.{ord_stream_id}
use dwnx.Conn.{Conn, Event, local_stream, bidi_stream, sub64, call, find_stream, put_strm}
use dwnx.Conn.Credit.{max_data_violated, extend_max_offset}
use dwnx.Conn.Streams.{create_stream, close_stream_if_shut_rdwr}

-- A bidirectional stream ID: one of the peer's that is allowed, or one of ours that has been opened.
abbrev pub check_bidi : Conn → ℕ → Result (Unit {0})
check_bidi conn stream_id =
    if local_stream conn stream_id
    then guard (ltb stream_id conn.tx.bidi.next_stream_id) stream_state
    else guard (leb (ord_stream_id stream_id) conn.rx.bidi.max_streams) stream_limit

-- A stream on which the peer may send.
unfoldable pub check_recv : Conn → ℕ → Result (Unit {0})
check_recv conn stream_id =
    if bidi_stream stream_id
    then check_bidi conn stream_id
    else if local_stream conn stream_id
    then err stream_state
    else guard (leb (ord_stream_id stream_id) conn.rx.uni.max_streams) stream_limit

-- A stream on which the peer may receive.
unfoldable pub check_send : Conn → ℕ → Result (Unit {0})
check_send conn stream_id =
    if bidi_stream stream_id
    then check_bidi conn stream_id
    else guard (local_stream conn stream_id && ltb stream_id conn.tx.uni.next_stream_id)
        stream_state

abbrev pub idtr : Conn → ℕ → List Range
idtr conn stream_id = if bidi_stream stream_id then conn.bidi_idtr else conn.uni_idtr

abbrev pub with_idtr : ℕ → List Range → Conn → Conn
with_idtr stream_id gaps conn =
    if bidi_stream stream_id
    then record conn { bidi_idtr = gaps }
    else record conn { uni_idtr = gaps }

-- Whether the stream ID has been opened now, or has been before.
abbrev pub opens : Result (List Range) → Result (Option (List Range))
opens (ok gaps) = ok (some gaps)
opens (err stream_in_use) = ok none
opens (err e) = if err_is_fatal e then err e else fault
opens fault = fault

abbrev pub open_result : ℕ → Conn → Option (List Range) → Bool × Conn
open_result stream_id conn none = (false, conn)
open_result stream_id conn (some gaps) = (true, with_idtr stream_id gaps conn)

-- dwnx_idtr_open
unfoldable pub open_id : ℕ → Conn → Result (Bool × Conn)
open_id stream_id conn = do
  found ← opens (idtr_open (idtr conn stream_id) stream_id)
  ok (open_result stream_id conn found)

-- dwnx_conn_create_stream and conn_call_stream_open
abbrev pub begin_stream : ℕ → Conn → Result (Strm × Conn)
begin_stream stream_id conn = do
  (strm, conn) ← create_stream stream_id conn
  conn ← call (Event.stream_open stream_id) conn
  ok (strm, conn)

-- `if (dwnx_ratelim_drain(&conn->glitch_rlim, 1, ts) != 0) return DWNX_ERR_INTERNAL;`
unfoldable pub glitch : ℕ → Conn → Result Conn
glitch ts conn = do
  (drained, rlim) ← drain conn.glitch_rlim 1 ts
  guard drained internal
  ok (record conn { glitch_rlim = rlim })

abbrev pub begin_opened : ℕ → Result (Unit {0}) → Bool × Conn → Result (Option Strm × Conn)
begin_opened stream_id allowed (false, conn) = ok (none, conn)
begin_opened stream_id allowed (true, conn) = do
  allowed
  (strm, conn) ← begin_stream stream_id conn
  ok (some strm, conn)

abbrev pub found_strm : ℕ → Result (Unit {0}) → Conn → Option Strm → Result (Option Strm × Conn)
found_strm stream_id allowed conn (some strm) = ok (some strm, conn)
found_strm stream_id allowed conn none =
    if local_stream conn stream_id
    then ok (none, conn)
    else open_id stream_id conn >>= begin_opened stream_id allowed

-- The stream of a frame, which the peer's frame opens where `allowed` lets it; `none` if it has been
-- closed.
unfoldable pub stream_for : ℕ → Result (Unit {0}) → Conn → Result (Option Strm × Conn)
stream_for stream_id allowed conn = found_strm stream_id allowed conn (find_stream conn stream_id)

-- A frame on a stream that has been closed is an error of the protocol.
abbrev pub live : Option Strm → Result Strm
live none = err proto
live (some strm) = ok strm

-- The bytes of a frame are counted before they come.
unfoldable pub account : Frame.Stream → Strm → Conn → Result (Strm × Conn)
account fr strm conn =
    let end = (fr.offset + fr.len) % 2 ^ 64 in
    guard (not (ltb strm.rx.max_offset end || max_data_violated conn fr.len)) flow_control
    >> (let strm = record strm { rx = record strm.rx { last_offset = end } } in
        ok (
          strm,
          put_strm strm
              (record conn { rx = record conn.rx { offset = (conn.rx.offset + fr.len) % 2 ^ 64 } }),
        ))

-- A frame without data that ends a stream.
unfoldable pub end_of_stream : Frame.Stream → Strm → Conn → Result Conn
end_of_stream fr strm conn =
    if not fr.fin
    then ok conn
    else if fr.len == 0
    then (let strm = shutdown true false strm in
        call (Event.recv_stream_data true strm.stream_id fr.offset []) (put_strm strm conn)
        >>= close_stream_if_shut_rdwr strm)
    else close_stream_if_shut_rdwr strm conn

-- A frame on the stream that its stream ID leads to.
abbrev pub stream_frame : Frame.Stream → Option Strm × Conn → Result Conn
stream_frame fr (found, conn) = do
  strm ← live found
  guard (not (strm.flags.shut_rd || not (strm.rx.last_offset == fr.offset))) proto
  (strm, conn) ← account fr strm conn
  end_of_stream fr strm conn

unfoldable pub recv_stream : Frame.Stream → Conn → Result Conn
unfolding account end_of_stream
recv_stream fr conn = do
  check_recv conn fr.stream_id
  guard (not (ltb (sub64 max_varint fr.len) fr.offset)) flow_control
  stream_for fr.stream_id (ok tt) conn >>= stream_frame fr

-- The data goes to the application, or is dropped once the application has asked the peer to stop.
unfoldable pub deliver : Strm → Bool → ℕ → List ℕ → Conn → Result Conn
deliver strm fin offset bytes conn =
    if strm.flags.stop_sending
    then ok (extend_max_offset (length bytes) conn)
    else call (Event.recv_stream_data fin strm.stream_id offset bytes) conn

unfoldable pub recv_stream_data : Strm → Bool → ℕ → List ℕ → Conn → Result Conn
unfolding deliver
recv_stream_data strm fin offset bytes conn = do
  conn ← deliver strm fin offset bytes conn
  let strm' = shutdown true false strm
  if fin then close_stream_if_shut_rdwr strm' (put_strm strm' conn) else ok conn

abbrev pub reset_strm : Frame.ResetStream → Strm → Strm
reset_strm fr strm = record strm {
  flags = record strm.flags {
    shut_rd = true;
    reset_stream_recved = true;
    rx_app_error_code_set = true;
  };
  rx = record strm.rx { app_error_code = fr.app_error_code };
}

abbrev pub reset_frame : Frame.ResetStream → Option Strm × Conn → Result Conn
reset_frame fr (found, conn) = do
  strm ← live found
  guard (not strm.flags.shut_rd) proto
  guard (strm.rx.last_offset == fr.final_size) final_size
  conn ← call (Event.stream_reset fr.stream_id fr.final_size fr.app_error_code) conn
  close_stream_if_shut_rdwr (reset_strm fr strm) (put_strm (reset_strm fr strm) conn)

unfoldable pub recv_reset_stream : Frame.ResetStream → Conn → Result Conn
recv_reset_stream fr conn = do
  check_recv conn fr.stream_id
  stream_for fr.stream_id (guard (fr.final_size == 0) final_size) conn >>= reset_frame fr
