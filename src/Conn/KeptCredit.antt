-- ===== src/Conn/KeptCredit.antt =====
-- The handlers of frames that give credit, and of pings, leave the state in order, and no assertion in
-- them fails.
use dwnx.Prelude.{
  ℕ, ◌≤◌, sym, subst, arith, ◌∷◌, Bool, true, false, not, ltb, leb, leb→le, ◌==◌, if◌then◌else◌,
  Option, none, some,
}
use dwnx.Prelude.{
  Result, ok, err, ◌>>=◌, ◌>>◌, guard, proto, internal, frame_encoding, Holds, Holds-bind,
  Holds-guard, Holds-if, Holds-ok, Holds-err,
}
use dwnx.Strm.{Strm}
use dwnx.Vec.{max_varint}
use dwnx.Ratelim.{Ratelim}
use dwnx.Ratelim.Bucket.{drain-spend}
use dwnx.Frame
use dwnx.Frame.FrameType
use dwnx.Gaptr.Gaps.{is_pushed-pushed, pushed}
use dwnx.Gaptr.{id_from_stream_id}
use dwnx.Conn.{Conn, Event, find, put_strm, local_stream, call, max_streams_limit}
use dwnx.Conn.Shutdown.{reset_stream}
use dwnx.Conn.Receive.{check_recv, check_send, stream_for, glitch, idtr}
use dwnx.Conn.Credits.{
  stopped, stop_frame, recv_stop_sending, recv_max_data, raised, max_data_frame,
  recv_max_stream_data, recv_max_streams, recv_streams_blocked, recv_data_blocked, blocked_frame,
  recv_stream_data_blocked,
}
use dwnx.Conn.Setup.{before, recv_qx_ping}
use dwnx.Conn.Invariant.{IsConn, call-Holds, Holds-call}
use dwnx.Conn.Queue.{put_strm-IsConn, push_if_not-IsConn}
use dwnx.Conn.Open.{Found}
use dwnx.Conn.OpenId.{Reached, stream_for-Reached, idtr-IsGaps}
use dwnx.Conn.Kept.{Passes, guard-Passes, if-Passes, check_recv-Passes, check_send-Passes}

pub glitch-IsConn :
    (ts : ℕ) (conn : Conn) → IsConn conn → conn.glitch_rlim.ts ≤ ts → Holds IsConn (glitch ts conn)
unfolding glitch
glitch-IsConn ts conn h t =
    let (drained, rlim, e, v, follows, exact) = drain-spend conn.glitch_rlim 1 ts h.0.5 t in
    subst (λ m. Holds IsConn (m >>= next)) (sym e)
      (Holds-guard IsConn drained internal (ok (record conn { glitch_rlim = rlim })) (λ g.
        Holds-ok IsConn (record conn { glitch_rlim = rlim })
          ((h.0.0, h.0.1, h.0.2, h.0.3, h.0.4, v), h.1, h.2, h.3)))
  where
    next : Bool × Ratelim → Result Conn
    next r = guard r.0 internal >> ok (record conn { glitch_rlim = r.1 })

stopped-IsConn :
    (fr : Frame.StopSending) (id ts : ℕ) (strm : Strm) (conn : Conn)
    → Found id ts strm conn
    → IsConn (stopped fr strm conn)
unfolding stopped
stopped-IsConn fr id ts strm conn f = either strm.flags.shut_wr
  where
    shut : Strm
    shut = record strm { flags = record strm.flags { shut_wr = true; stop_sending_recved = true } }

    stops : Strm
    stops = record strm {
      flags = record strm.flags { reset_stream = true; shut_wr = true; stop_sending_recved = true };
    }

    either :
        (b : Bool)
        → IsConn (if b then put_strm shut conn else reset_stream stops fr.app_error_code conn)
    either true = put_strm-IsConn shut conn f.0 f.1.0
    either false = push_if_not-IsConn _ conn f.0 f.1

stop_frame-IsConn :
    (fr : Frame.StopSending) (id ts : ℕ) (r : Option Strm × Conn)
    → Reached id ts r
    → Holds IsConn (stop_frame fr ts r)
unfolding stop_frame
stop_frame-IsConn fr id ts (none, conn) h = glitch-IsConn ts conn h.0 h.1
stop_frame-IsConn fr id ts (some strm, conn) h =
    let event = Event.recv_stop_sending fr.stream_id fr.app_error_code in
    let stops = λ (conn : Conn). ok (stopped fr strm conn) in
    Holds-if IsConn strm.flags.stop_sending_recved (glitch ts conn) (call event conn >>= stops)
      (λ t. glitch-IsConn ts conn h.0 h.3)
      (λ f. Holds-call IsConn event conn stops (
        Holds-ok IsConn _
          (stopped-IsConn fr id ts strm (record conn { calls = event ∷ conn.calls }) h)))

-- A STOP_SENDING frame with a stream ID that a varint holds leaves the state in order or is an error, and
-- no assertion in its handler fails, at any time not before the rate limiter's.
pub recv_stop_sending-IsConn :
    (fr : Frame.StopSending) (ts : ℕ) (conn : Conn)
    → IsConn conn
    → conn.glitch_rlim.ts ≤ ts
    → fr.stream_id ≤ max_varint
    → Holds IsConn (recv_stop_sending fr ts conn)
unfolding recv_stop_sending
recv_stop_sending-IsConn fr ts conn h t l =
    let id = fr.stream_id in
    Holds-bind (λ (u : Unit {0}). Unit {0}) IsConn (check_send conn id)
      (λ u. stream_for id (ok tt) conn >>= stop_frame fr ts) (check_send-Passes conn id)
      (λ u v.
        Holds-bind (Reached id ts) IsConn (stream_for id (ok tt) conn) (stop_frame fr ts)
          (stream_for-Reached id ts (ok tt) conn h t (omega arith) (Holds-ok (λ u. Unit {0}) tt tt))
          (λ r reached. stop_frame-IsConn fr id ts r reached))

max_data_frame-IsConn :
    (fr : Frame.MaxStreamData) (id ts : ℕ) (r : Option Strm × Conn)
    → Reached id ts r
    → Holds IsConn (max_data_frame fr ts r)
max_data_frame-IsConn fr id ts (none, conn) h = glitch-IsConn ts conn h.0 h.1
max_data_frame-IsConn fr id ts (some strm, conn) h =
    let event = Event.extend_max_stream_data fr.stream_id fr.max_stream_data in
    let conn' = put_strm (raised fr strm) conn in
    let h' = put_strm-IsConn (raised fr strm) conn h.0 h.1.0 in
    Holds-guard IsConn (ltb strm.tx.max_offset fr.max_stream_data) proto
      (if strm.flags.shut_wr then glitch ts conn' else call event conn')
      (λ g.
        Holds-if IsConn strm.flags.shut_wr (glitch ts conn') (call event conn')
          (λ t. glitch-IsConn ts conn' h' h.3) (λ f. call-Holds IsConn event conn' h'))

-- A MAX_STREAM_DATA frame with a stream ID that a varint holds leaves the state in order or is an error,
-- and no assertion in its handler fails, at any time not before the rate limiter's.
pub recv_max_stream_data-IsConn :
    (fr : Frame.MaxStreamData) (ts : ℕ) (conn : Conn)
    → IsConn conn
    → conn.glitch_rlim.ts ≤ ts
    → fr.stream_id ≤ max_varint
    → Holds IsConn (recv_max_stream_data fr ts conn)
unfolding recv_max_stream_data
recv_max_stream_data-IsConn fr ts conn h t l =
    let id = fr.stream_id in
    Holds-bind (λ (u : Unit {0}). Unit {0}) IsConn (check_send conn id)
      (λ u. stream_for id (ok tt) conn >>= max_data_frame fr ts) (check_send-Passes conn id)
      (λ u v.
        Holds-bind (Reached id ts) IsConn (stream_for id (ok tt) conn) (max_data_frame fr ts)
          (stream_for-Reached id ts (ok tt) conn h t (omega arith) (Holds-ok (λ u. Unit {0}) tt tt))
          (λ r reached. max_data_frame-IsConn fr id ts r reached))

pub recv_max_data-IsConn :
    (fr : Frame.MaxData) (conn : Conn) → IsConn conn → Holds IsConn (recv_max_data fr conn)
unfolding recv_max_data
recv_max_data-IsConn fr conn h =
    let conn' = record conn { tx = record conn.tx { max_offset = fr.max_data } } in
    Holds-guard IsConn (ltb conn.tx.max_offset fr.max_data) proto (ok conn')
      (λ g. Holds-ok IsConn conn' h)

pub recv_max_streams-IsConn :
    (fr : Frame.MaxStreams) (conn : Conn) → IsConn conn → Holds IsConn (recv_max_streams fr conn)
unfolding recv_max_streams
recv_max_streams-IsConn fr conn h =
    let bidi = record conn {
      tx = record conn.tx { bidi = record conn.tx.bidi { max_streams = fr.max_streams } };
    } in
    let uni = record conn {
      tx = record conn.tx { uni = record conn.tx.uni { max_streams = fr.max_streams } };
    } in
    let bidi_event = Event.extend_max_local_streams_bidi fr.max_streams in
    let uni_event = Event.extend_max_local_streams_uni fr.max_streams in
    let bidi_call =
      guard (ltb conn.tx.bidi.max_streams fr.max_streams) proto >> call bidi_event bidi in
    let uni_call = guard (ltb conn.tx.uni.max_streams fr.max_streams) proto >> call uni_event uni in
    let is_bidi = fr.type == FrameType.max_streams_bidi in
    Holds-guard IsConn (leb fr.max_streams max_streams_limit) frame_encoding
      (if is_bidi then bidi_call else uni_call)
      (λ g.
        let m = leb→le fr.max_streams max_streams_limit g in
        let b = h.0.2.0 in
        let u = h.0.2.1 in
        Holds-if IsConn is_bidi bidi_call uni_call
          (λ t.
            Holds-guard IsConn (ltb conn.tx.bidi.max_streams fr.max_streams) proto
              (call bidi_event bidi)
              (λ g'.
                call-Holds IsConn bidi_event bidi
                  ((h.0.0, h.0.1, ((m, b.1, b.2), u), h.0.3, h.0.4, h.0.5), h.1, h.2, h.3)))
          (λ f.
            Holds-guard IsConn (ltb conn.tx.uni.max_streams fr.max_streams) proto
              (call uni_event uni)
              (λ g'.
                call-Holds IsConn uni_event uni
                  ((h.0.0, h.0.1, (b, (m, u.1, u.2)), h.0.3, h.0.4, h.0.5), h.1, h.2, h.3))))

pub recv_streams_blocked-Passes :
    (fr : Frame.StreamsBlocked) (conn : Conn) → Passes (recv_streams_blocked fr conn)
unfolding recv_streams_blocked
recv_streams_blocked-Passes fr conn = if-Passes _ _ _ (guard-Passes _ _) (guard-Passes _ _)

pub recv_data_blocked-Passes :
    (fr : Frame.DataBlocked) (conn : Conn) → Passes (recv_data_blocked fr conn)
unfolding recv_data_blocked
recv_data_blocked-Passes fr conn = guard-Passes _ _

blocked_frame-Passes :
    (fr : Frame.StreamDataBlocked) (conn : Conn) (o : Option Strm)
    → IsConn conn
    → fr.stream_id ≤ max_varint
    → Passes (blocked_frame fr conn o)
blocked_frame-Passes fr conn (some strm) h l = guard-Passes _ _
blocked_frame-Passes fr conn none h l =
    let q = id_from_stream_id fr.stream_id in
    let gaps = idtr conn fr.stream_id in
    if-Passes (local_stream conn fr.stream_id) (err proto) _ (Holds-err (λ u. Unit {0}) proto) (
      subst (λ m. Passes (m >>= rest))
        (sym (is_pushed-pushed gaps q (idtr-IsGaps conn fr.stream_id h) (omega arith)))
        (Holds-guard (λ u. Unit {0}) (not (pushed q gaps)) proto
          (guard (fr.max_stream_data == 0) proto) (λ g. guard-Passes _ _)))
  where
    rest : Bool → Result (Unit {0})
    rest closed = guard (not closed) proto >> guard (fr.max_stream_data == 0) proto

pub recv_stream_data_blocked-Passes :
    (fr : Frame.StreamDataBlocked) (conn : Conn)
    → IsConn conn
    → fr.stream_id ≤ max_varint
    → Passes (recv_stream_data_blocked fr conn)
unfolding recv_stream_data_blocked
recv_stream_data_blocked-Passes fr conn h l =
    Holds-bind (λ (u : Unit {0}). Unit {0}) (λ (u : Unit {0}). Unit {0})
      (check_recv conn fr.stream_id) (λ u. blocked_frame fr conn (find fr.stream_id conn.strms))
      (check_recv-Passes conn fr.stream_id)
      (λ u v. blocked_frame-Passes fr conn (find fr.stream_id conn.strms) h l)

pub recv_qx_ping-IsConn :
    (fr : Frame.QxPing) (ts : ℕ) (conn : Conn)
    → IsConn conn
    → conn.glitch_rlim.ts ≤ ts
    → Holds IsConn (recv_qx_ping fr ts conn)
unfolding recv_qx_ping
recv_qx_ping-IsConn fr ts conn h t =
    let seen =
      λ (conn : Conn). record conn { rx = record conn.rx { ping_last_seq = some fr.seq } } in
    let sets = λ (conn : Conn). ok (seen conn) in
    let answer = guard (not (before conn.tx.ping_last_seq fr.seq)) proto >> ok conn in
    let request = guard (before conn.rx.ping_last_seq fr.seq) proto >> (glitch ts conn >>= sets) in
    Holds-if IsConn (fr.type == FrameType.qx_ping_response) answer request
      (λ r.
        Holds-guard IsConn (not (before conn.tx.ping_last_seq fr.seq)) proto (ok conn)
          (λ g. Holds-ok IsConn conn h))
      (λ r.
        Holds-guard IsConn (before conn.rx.ping_last_seq fr.seq) proto (glitch ts conn >>= sets)
          (λ g.
            Holds-bind IsConn IsConn (glitch ts conn) sets (glitch-IsConn ts conn h t)
              (λ c k. Holds-ok IsConn (seen c) k)))
