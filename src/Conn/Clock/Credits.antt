-- ===== src/Conn/Clock/Credits.antt =====
-- The rate limiter and the clock in the handlers of frames that give credit, and of pings.
use dwnx.Prelude.{ℕ, ltb, leb, ◌==◌, if◌then◌else◌, Option, none, some}
use dwnx.Prelude.{
  ◌>>◌, guard, proto, frame_encoding, OnOk, OnOk-bind, OnOk-then, OnOk-guard, OnOk-if, OnOk-ok,
}
use dwnx.Strm.{Strm}
use dwnx.Frame
use dwnx.Frame.FrameType
use dwnx.Conn.{Conn, Event, call, put_strm, max_streams_limit}
use dwnx.Conn.Streams.{}
use dwnx.Conn.Receive.{}
use dwnx.Conn.Credits.{
  stopped, stop_frame, recv_stop_sending, recv_max_data, raised, max_data_frame,
  recv_max_stream_data, recv_max_streams,
}
use dwnx.Conn.Setup.{recv_qx_ping}
use dwnx.Conn.Clock.{
  Clock, Clock2, call-Clock, glitch-Clock, if-Clock, push-Clock, stream_for-Clock,
}

stopped-Clock :
    (ts : ℕ) (fr : Frame.StopSending) (strm : Strm) (conn : Conn)
    → Clock ts conn
    → Clock ts (stopped fr strm conn)
unfolding stopped
stopped-Clock ts fr strm conn h = if-Clock ts strm.flags.shut_wr _ _ h (push-Clock ts _ conn h)

stop_frame-Clock :
    (ts : ℕ) (fr : Frame.StopSending) (r : Option Strm × Conn)
    → Clock2 ts r
    → OnOk (Clock ts) (stop_frame fr ts r)
unfolding stop_frame
stop_frame-Clock ts fr (none, conn) h = glitch-Clock ts conn h
stop_frame-Clock ts fr (some strm, conn) h =
    OnOk-if (Clock ts) strm.flags.stop_sending_recved _ _ (glitch-Clock ts conn h) (
      OnOk-bind (Clock ts) (Clock ts) _ _ (call-Clock ts _ conn h)
        (λ c k. OnOk-ok (Clock ts) (stopped fr strm c) (stopped-Clock ts fr strm c k)))

pub recv_stop_sending-Clock :
    (ts : ℕ) (fr : Frame.StopSending) (conn : Conn)
    → Clock ts conn
    → OnOk (Clock ts) (recv_stop_sending fr ts conn)
unfolding recv_stop_sending
recv_stop_sending-Clock ts fr conn h =
    OnOk-then (λ u. Unit {0}) (Clock ts) _ _
      (λ u.
        OnOk-bind (Clock2 ts) (Clock ts) _ _ (stream_for-Clock ts fr.stream_id _ conn h)
          (λ r k. stop_frame-Clock ts fr r k))

pub recv_max_data-Clock :
    (ts : ℕ) (fr : Frame.MaxData) (conn : Conn)
    → Clock ts conn
    → OnOk (Clock ts) (recv_max_data fr conn)
unfolding recv_max_data
recv_max_data-Clock ts fr conn h = OnOk-guard (Clock ts) _ _ _ (OnOk-ok (Clock ts) _ h)

max_data_frame-Clock :
    (ts : ℕ) (fr : Frame.MaxStreamData) (r : Option Strm × Conn)
    → Clock2 ts r
    → OnOk (Clock ts) (max_data_frame fr ts r)
max_data_frame-Clock ts fr (none, conn) h = glitch-Clock ts conn h
max_data_frame-Clock ts fr (some strm, conn) h =
    let conn' = put_strm (raised fr strm) conn in
    OnOk-guard (Clock ts) _ _ _ (
      OnOk-if (Clock ts) strm.flags.shut_wr _ _ (glitch-Clock ts conn' h) (call-Clock ts _ conn' h))

pub recv_max_stream_data-Clock :
    (ts : ℕ) (fr : Frame.MaxStreamData) (conn : Conn)
    → Clock ts conn
    → OnOk (Clock ts) (recv_max_stream_data fr ts conn)
unfolding recv_max_stream_data
recv_max_stream_data-Clock ts fr conn h =
    OnOk-then (λ u. Unit {0}) (Clock ts) _ _
      (λ u.
        OnOk-bind (Clock2 ts) (Clock ts) _ _ (stream_for-Clock ts fr.stream_id _ conn h)
          (λ r k. max_data_frame-Clock ts fr r k))

pub recv_max_streams-Clock :
    (ts : ℕ) (fr : Frame.MaxStreams) (conn : Conn)
    → Clock ts conn
    → OnOk (Clock ts) (recv_max_streams fr conn)
unfolding recv_max_streams
recv_max_streams-Clock ts fr conn h =
    OnOk-guard (Clock ts) (leb fr.max_streams max_streams_limit) frame_encoding
      (if fr.type == FrameType.max_streams_bidi
        then guard (ltb conn.tx.bidi.max_streams fr.max_streams) proto >> call bidi_event bidi
        else guard (ltb conn.tx.uni.max_streams fr.max_streams) proto >> call uni_event uni)
      (OnOk-if (Clock ts) (fr.type == FrameType.max_streams_bidi) _ _
        (OnOk-guard (Clock ts) (ltb conn.tx.bidi.max_streams fr.max_streams) proto
          (call bidi_event bidi) (call-Clock ts bidi_event bidi h))
        (OnOk-guard (Clock ts) (ltb conn.tx.uni.max_streams fr.max_streams) proto
          (call uni_event uni) (call-Clock ts uni_event uni h)))
  where
    bidi : Conn
    bidi = record conn {
      tx = record conn.tx { bidi = record conn.tx.bidi { max_streams = fr.max_streams } };
    }

    uni : Conn
    uni = record conn {
      tx = record conn.tx { uni = record conn.tx.uni { max_streams = fr.max_streams } };
    }

    bidi_event : Event
    bidi_event = Event.extend_max_local_streams_bidi fr.max_streams

    uni_event : Event
    uni_event = Event.extend_max_local_streams_uni fr.max_streams

pub recv_qx_ping-Clock :
    (ts : ℕ) (fr : Frame.QxPing) (conn : Conn)
    → Clock ts conn
    → OnOk (Clock ts) (recv_qx_ping fr ts conn)
unfolding recv_qx_ping
recv_qx_ping-Clock ts fr conn h =
    OnOk-if (Clock ts) _ _ _ (OnOk-guard (Clock ts) _ _ _ (OnOk-ok (Clock ts) conn h)) (
      OnOk-guard (Clock ts) _ _ _ (
        OnOk-bind (Clock ts) (Clock ts) _ _ (glitch-Clock ts conn h)
          (λ c k. OnOk-ok (Clock ts) _ k)))
