-- ===== src/Conn/Clock.antt =====
-- The rate limiter of a connection is not ahead of the clock: every handler of a frame leaves it where it
-- is or brings it to the time of the call. Here, the steps that the handlers share.
pub mod Frames
pub mod Credits
pub mod Params
use dwnx.Prelude.{
  ℕ, ◌≤◌, ◌≡◌, refl, sym, subst, arith, List, [], ◌∷◌, Bool, true, false, not, ◌||◌, ltb, leb, ◌==◌,
  if◌then◌else◌, Option, none, some, length,
}
use dwnx.Prelude.{
  Result, ok, err, ◌>>=◌, ◌>>◌, guard, check, callback_failure, internal, malformed_transport_param,
  proto, final_size, flow_control, frame_encoding, OnOk, OnOk-bind, OnOk-then, OnOk-guard, OnOk-if,
  OnOk-ok,
}
use dwnx.Strm.{Strm, shutdown, is_tx_queued}
use dwnx.Ratelim.{Ratelim, drain}
use dwnx.Ratelim.Bucket
use dwnx.Ratelim.Bucket.{drain-spend}
use dwnx.Frame
use dwnx.Frame.FrameType
use dwnx.Vec.{max_varint}
use dwnx.TransportParams
use dwnx.TransportParams.{TransportParams, default_max_record_size}
use dwnx.Gaptr.{Range}
use dwnx.Conn.{
  Conn, Event, call, find, put_strm, bidi_stream, local_stream, sub64, max_streams_limit,
}
use dwnx.Conn.Streams.{
  create_stream, close_stream, close_stream_if_shut_rdwr, dequeue, tx_strmq_push_if_not,
}
use dwnx.Conn.Shutdown.{reset_stream}
use dwnx.Conn.Receive.{
  open_id, open_result, check_recv, live, reset_strm, begin_stream, begin_opened, found_strm,
  stream_for, glitch, account, end_of_stream, stream_frame, recv_stream, deliver, recv_stream_data,
  reset_frame, recv_reset_stream,
}
use dwnx.Conn.Credits.{
  stopped, stop_frame, recv_stop_sending, recv_max_data, raised, max_data_frame,
  recv_max_stream_data, recv_max_streams, recv_datagram,
}
use dwnx.Conn.Setup.{
  recv_qx_ping, with_max_offset, raise_offset, set_max_stream_offset, set_all, call_if, announce,
  with_params, recv_transport_params,
}

abbrev pub Clock : ℕ → Conn → Type 0
Clock ts conn = Bucket.IsValid conn.glitch_rlim × (conn.glitch_rlim.ts ≤ ts)

-- The connection of a pair.
abbrev pub Clock2 {ℓ} : {A : Type ℓ} → ℕ → A × Conn → Type 0
Clock2 ts r = Clock ts r.1

pub call-Clock :
    (ts : ℕ) (event : Event) (conn : Conn) → Clock ts conn → OnOk (Clock ts) (call event conn)
unfolding OnOk
call-Clock ts event conn h = either (conn.accepts event)
  where
    either :
        (b : Bool)
        → OnOk
            (Clock ts)
            (if b then ok (record conn { calls = event ∷ conn.calls }) else err callback_failure)
    either true = h
    either false = tt

pub glitch-Clock : (ts : ℕ) (conn : Conn) → Clock ts conn → OnOk (Clock ts) (glitch ts conn)
unfolding glitch OnOk
glitch-Clock ts conn h =
    let (drained, rlim, e, v, follows, exact) = drain-spend conn.glitch_rlim 1 ts h.0 h.1 in
    subst (λ m. OnOk (Clock ts) (m >>= next)) (sym e)
      (OnOk-guard (Clock ts) drained internal (ok (record conn { glitch_rlim = rlim }))
        (v, subst (λ t. t ≤ ts) (sym follows.now) (le_self ts)))
  where
    next : Bool × Ratelim → Result Conn
    next r = guard r.0 internal >> ok (record conn { glitch_rlim = r.1 })

    le_self : (n : ℕ) → n ≤ n
    le_self n = omega arith

pub if-Clock :
    (ts : ℕ) (b : Bool) (x y : Conn) → Clock ts x → Clock ts y → Clock ts (if b then x else y)
if-Clock ts true x y h k = h
if-Clock ts false x y h k = k

pub push-Clock :
    (ts : ℕ) (strm : Strm) (conn : Conn) → Clock ts conn → Clock ts (tx_strmq_push_if_not strm conn)
unfolding tx_strmq_push_if_not
push-Clock ts strm conn h = if-Clock ts (is_tx_queued strm) _ _ h h

dequeue-Clock :
    (ts : ℕ) (strm : Strm) (conn : Conn) → Clock ts conn → OnOk (Clock ts) (dequeue strm conn)
unfolding dequeue
dequeue-Clock ts strm conn h =
    OnOk-if (Clock ts) _ _ _
      (OnOk-then (λ q. Unit {0}) (Clock ts) _ _ (λ q. OnOk-ok (Clock ts) _ h))
      (OnOk-ok (Clock ts) conn h)

pub close-Clock :
    (ts : ℕ) (strm : Strm) (conn : Conn)
    → Clock ts conn
    → OnOk (Clock ts) (close_stream_if_shut_rdwr strm conn)
unfolding close_stream_if_shut_rdwr close_stream
close-Clock ts strm conn h =
    OnOk-if (Clock ts) _ _ _
      (OnOk-bind (Clock ts) (Clock ts) _ _ (call-Clock ts _ conn h) (λ c k.
        OnOk-then (λ (strms : List Strm). Unit {0}) (Clock ts) _ _
          (λ strms. dequeue-Clock ts strm _ k)))
      (OnOk-ok (Clock ts) conn h)

create-Clock : (ts id : ℕ) (conn : Conn) → Clock ts conn → OnOk (Clock2 ts) (create_stream id conn)
unfolding create_stream
create-Clock ts id conn h = OnOk-then (λ u. Unit {0}) (Clock2 ts) _ _ (λ u. OnOk-ok (Clock2 ts) _ h)

begin-Clock : (ts id : ℕ) (conn : Conn) → Clock ts conn → OnOk (Clock2 ts) (begin_stream id conn)
begin-Clock ts id conn h = OnOk-bind (Clock2 ts) (Clock2 ts) _ _ (create-Clock ts id conn h) (λ r k.
    OnOk-bind (Clock ts) (Clock2 ts) _ _ (call-Clock ts _ r.1 k)
      (λ c k. OnOk-ok (Clock2 ts) (r.0, c) k))

open_id-Clock : (ts id : ℕ) (conn : Conn) → Clock ts conn → OnOk (Clock2 ts) (open_id id conn)
unfolding open_id
open_id-Clock ts id conn h =
    OnOk-then (λ o. Unit {0}) (Clock2 ts) _ _ (λ found. OnOk-ok (Clock2 ts) _ (opened found))
  where
    gaps :
        (b : Bool) (g : List Range)
        → Clock ts (if b then record conn { bidi_idtr = g } else record conn { uni_idtr = g })
    gaps true g = h
    gaps false g = h

    opened : (o : Option (List Range)) → Clock2 ts (open_result id conn o)
    opened none = h
    opened (some g) = gaps (bidi_stream id) g

pub stream_for-Clock :
    (ts id : ℕ) (allowed : Result (Unit {0})) (conn : Conn)
    → Clock ts conn
    → OnOk (Clock2 ts) (stream_for id allowed conn)
unfolding stream_for
stream_for-Clock ts id allowed conn h = found (find id conn.strms)
  where
    begun : (r : Bool × Conn) → Clock2 ts r → OnOk (Clock2 ts) (begin_opened id allowed r)
    begun (false, c) k = OnOk-ok (Clock2 ts) _ k
    begun (true, c) k =
        OnOk-then (λ u. Unit {0}) (Clock2 ts) _ _
          (λ u.
            OnOk-bind (Clock2 ts) (Clock2 ts) _ _ (begin-Clock ts id c k)
              (λ r k. OnOk-ok (Clock2 ts) (some r.0, r.1) k))

    found : (o : Option Strm) → OnOk (Clock2 ts) (found_strm id allowed conn o)
    found (some strm) = OnOk-ok (Clock2 ts) _ h
    found none =
        OnOk-if (Clock2 ts) _ _ _ (OnOk-ok (Clock2 ts) _ h)
          (OnOk-bind (Clock2 ts) (Clock2 ts) _ _ (open_id-Clock ts id conn h) begun)
