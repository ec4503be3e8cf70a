-- ===== src/Conn/Clock/Frames.antt =====
-- The rate limiter and the clock in the handlers of frames with data.
use dwnx.Prelude.{
  ℕ, List, Bool, true, false, not, ◌||◌, ltb, ◌==◌, if◌then◌else◌, Option, none, some,
}
use dwnx.Prelude.{
  ok, ◌>>=◌, ◌>>◌, guard, proto, final_size, flow_control, OnOk, OnOk-bind, OnOk-then, OnOk-guard,
  OnOk-if, OnOk-ok,
}
use dwnx.Strm.{Strm, shutdown}
use dwnx.Frame
use dwnx.Vec.{max_varint}
use dwnx.Conn.{Conn, Event, call, put_strm, sub64}
use dwnx.Conn.Streams.{close_stream_if_shut_rdwr}
use dwnx.Conn.Receive.{
  check_recv, reset_strm, stream_for, account, end_of_stream, stream_frame, recv_stream, deliver,
  recv_stream_data, reset_frame, recv_reset_stream,
}
use dwnx.Conn.Credits.{recv_datagram}
use dwnx.Conn.Setup.{}
use dwnx.Conn.Clock.{Clock, Clock2, call-Clock, close-Clock, stream_for-Clock}

account-Clock :
    (ts : ℕ) (fr : Frame.Stream) (strm : Strm) (conn : Conn)
    → Clock ts conn
    → OnOk (Clock2 ts) (account fr strm conn)
unfolding account
account-Clock ts fr strm conn h = OnOk-guard (Clock2 ts) _ _ _ (OnOk-ok (Clock2 ts) _ h)

end_of_stream-Clock :
    (ts : ℕ) (fr : Frame.Stream) (strm : Strm) (conn : Conn)
    → Clock ts conn
    → OnOk (Clock ts) (end_of_stream fr strm conn)
unfolding end_of_stream
end_of_stream-Clock ts fr strm conn h = OnOk-if (Clock ts) _ _ _ (OnOk-ok (Clock ts) conn h) (
    OnOk-if (Clock ts) _ _ _
      (OnOk-bind (Clock ts) (Clock ts) _ _
        (call-Clock ts _ (put_strm (shutdown true false strm) conn) h)
        (λ c k. close-Clock ts (shutdown true false strm) c k))
      (close-Clock ts strm conn h))

stream_frame-Clock :
    (ts : ℕ) (fr : Frame.Stream) (r : Option Strm × Conn)
    → Clock2 ts r
    → OnOk (Clock ts) (stream_frame fr r)
unfolding OnOk
stream_frame-Clock ts fr (none, conn) h = tt
stream_frame-Clock ts fr (some strm, conn) h =
    let rest = λ (r : Strm × Conn). end_of_stream fr r.0 r.1 in
    OnOk-guard (Clock ts) (not (strm.flags.shut_rd || not (strm.rx.last_offset == fr.offset))) proto
      (account fr strm conn >>= rest)
      (OnOk-bind (Clock2 ts) (Clock ts) (account fr strm conn) rest
        (account-Clock ts fr strm conn h) (λ c k. end_of_stream-Clock ts fr c.0 c.1 k))

pub recv_stream-Clock :
    (ts : ℕ) (fr : Frame.Stream) (conn : Conn)
    → Clock ts conn
    → OnOk (Clock ts) (recv_stream fr conn)
unfolding recv_stream
recv_stream-Clock ts fr conn h =
    let found = stream_for fr.stream_id (ok tt) conn in
    let test = not (ltb (sub64 max_varint fr.len) fr.offset) in
    OnOk-then (λ u. Unit {0}) (Clock ts) (check_recv conn fr.stream_id)
      (λ u. guard test flow_control >> (found >>= stream_frame fr))
      (λ u. OnOk-guard (Clock ts) test flow_control (found >>= stream_frame fr) (
        OnOk-bind (Clock2 ts) (Clock ts) found (stream_frame fr)
          (stream_for-Clock ts fr.stream_id (ok tt) conn h) (stream_frame-Clock ts fr)))

pub recv_stream_data-Clock :
    (ts : ℕ) (strm : Strm) (fin : Bool) (offset : ℕ) (bytes : List ℕ) (conn : Conn)
    → Clock ts conn
    → OnOk (Clock ts) (recv_stream_data strm fin offset bytes conn)
unfolding recv_stream_data deliver
recv_stream_data-Clock ts strm fin offset bytes conn h =
    let strm' = shutdown true false strm in
    OnOk-bind (Clock ts) (Clock ts) (deliver strm fin offset bytes conn)
      (λ c. if fin then close_stream_if_shut_rdwr strm' (put_strm strm' c) else ok c)
      (OnOk-if (Clock ts) _ _ _ (OnOk-ok (Clock ts) _ h) (call-Clock ts _ conn h))
      (λ c k.
        OnOk-if (Clock ts) fin _ _ (close-Clock ts strm' (put_strm strm' c) k)
          (OnOk-ok (Clock ts) c k))

reset_frame-Clock :
    (ts : ℕ) (fr : Frame.ResetStream) (r : Option Strm × Conn)
    → Clock2 ts r
    → OnOk (Clock ts) (reset_frame fr r)
unfolding OnOk
reset_frame-Clock ts fr (none, conn) h = tt
reset_frame-Clock ts fr (some strm, conn) h =
    let strm' = reset_strm fr strm in
    let event = Event.stream_reset fr.stream_id fr.final_size fr.app_error_code in
    let rest = λ (c : Conn). close_stream_if_shut_rdwr strm' (put_strm strm' c) in
    OnOk-guard (Clock ts) (not strm.flags.shut_rd) proto _ (
      OnOk-guard (Clock ts) (strm.rx.last_offset == fr.final_size) final_size
        (call event conn >>= rest)
        (OnOk-bind (Clock ts) (Clock ts) (call event conn) rest (call-Clock ts event conn h)
          (λ c k. close-Clock ts strm' (put_strm strm' c) k)))

pub recv_reset_stream-Clock :
    (ts : ℕ) (fr : Frame.ResetStream) (conn : Conn)
    → Clock ts conn
    → OnOk (Clock ts) (recv_reset_stream fr conn)
unfolding recv_reset_stream
recv_reset_stream-Clock ts fr conn h =
    OnOk-then (λ u. Unit {0}) (Clock ts) _ _
      (λ u.
        OnOk-bind (Clock2 ts) (Clock ts) _ _ (stream_for-Clock ts fr.stream_id _ conn h)
          (λ r k. reset_frame-Clock ts fr r k))

pub recv_datagram-Clock :
    (ts : ℕ) (fin : Bool) (dgramlen offset : ℕ) (bytes : List ℕ) (conn : Conn)
    → Clock ts conn
    → OnOk (Clock ts) (recv_datagram fin dgramlen offset bytes conn)
unfolding recv_datagram
recv_datagram-Clock ts fin dgramlen offset bytes conn h = call-Clock ts _ conn h
