-- ===== src/Conn/Runs.antt =====
-- A server that gets five bytes on the client's first stream, and then a frame for it.
use dwnx.Prelude.{
  ℕ, ◌+◌, ◌≤◌, ◌≡◌, refl, arith, [], ◌∷◌, Bool, true, false, ◌||◌, ltb, if◌then◌else◌, some,
}
use dwnx.Prelude.{Result, ok, err, flow_control, proto, Holds}
use dwnx.TransportParams.{TransportParams}
use dwnx.Strm.{Strm}
use dwnx.Ratelim.Bucket.{init-ts}
use dwnx.Frame
use dwnx.Gaptr.{idtr_open, is_pushed, push}
use dwnx.Gaptr.Gaps.{push-IsGaps}
use dwnx.Conn.{Conn, Event, find, put_strm}
use dwnx.Conn.Credit.{enforce_flow_control, get_streams_bidi_left, streams_left}
use dwnx.Pq
use dwnx.Conn.Turns.{Queued, none_queued, pushed, tx_strmq_top-least}
use dwnx.Conn.Streams.{
  create_stream, new_strm, tx_strmq_top, tx_strmq_push_if_not, tx_strmq_first_cycle,
}
use dwnx.Conn.Shutdown.{open_bidi_stream}
use dwnx.Conn.Receive.{
  check_recv, account, end_of_stream, recv_stream, recv_stream_data, stream_for, open_id,
}
use dwnx.Conn.Setup.{Settings, fresh, server_new}
use dwnx.Conn.Invariant.{IsConn}
use dwnx.Prelude.{are_bytes-IsByte}
use dwnx.Conn.Setup.{recv_transport_params}
use dwnx.Conn.KeptParams.{recv_transport_params-IsConn}
use dwnx.Conn.Reach.{Reachable, new_server, next_step, Step, stream, Reachable-IsConn}
use dwnx.Conn.Kept.{recv_stream-IsConn, recv_stream_data-IsConn}
use dwnx.Conn.Refused.{recv_stream-limits, recv_stream-closed}
use dwnx.Conn.Spend.{enforce_flow_control-limits, open_bidi_stream-left}

abbrev params : TransportParams
params = record {
  initial_max_stream_data_bidi_local = 10;
  initial_max_stream_data_bidi_remote = 10;
  initial_max_stream_data_uni = 10;
  initial_max_data = 12;
  initial_max_streams_bidi = 2;
  initial_max_streams_uni = 2;
  max_idle_timeout = 0;
  max_record_size = 16382;
  max_datagram_frame_size = 0;
}

abbrev settings : Settings
settings = record { glitch_ratelim_burst = 10; glitch_ratelim_rate = 1; initial_ts = 100 }

abbrev accepts_all : Event → Bool
accepts_all event = true

abbrev pub new_conn : Conn
new_conn = fresh true 1 3 accepts_all settings params

abbrev frame : ℕ → ℕ → ℕ → Frame.Stream
frame stream_id offset len = record {
  flags = 0;
  fin = false;
  stream_id = stream_id;
  offset = offset;
  len = len;
  vecs = [];
}

abbrev conn_of : Result Conn → Conn
conn_of (ok conn) = conn
conn_of r = new_conn

abbrev after_five : Conn
after_five = conn_of (recv_stream (frame 0 0 5) new_conn)

new_conn-Reachable : Reachable new_conn
unfolding server_new
new_conn-Reachable = new_server accepts_all settings params (omega arith) refl

pub new_conn-IsConn : IsConn new_conn
new_conn-IsConn = Reachable-IsConn new_conn new_conn-Reachable

pub new_conn-time : new_conn.glitch_rlim.ts ≤ 200
new_conn-time = omega (arith, init-ts 10 1 100)

after_five-Step : Step new_conn after_five
unfolding recv_stream stream_for open_id idtr_open is_pushed push create_stream new_strm check_recv
    account end_of_stream
after_five-Step = stream (frame 0 0 5) (omega arith) (omega arith) refl

after_five-Reachable : Reachable after_five
after_five-Reachable = next_step new_conn-Reachable after_five-Step

after_five-IsConn : IsConn after_five
after_five-IsConn = Reachable-IsConn after_five after_five-Reachable

recv_stream-IsConn_example : Holds IsConn (recv_stream (frame 0 5 5) after_five)
recv_stream-IsConn_example =
    recv_stream-IsConn (frame 0 5 5) after_five after_five-IsConn (omega arith) (omega arith)

-- The client's first stream with the five bytes.
abbrev first_strm : Strm
first_strm = record (new_strm new_conn 0) {
  rx = record (new_strm new_conn 0).rx { last_offset = 5 };
}

first_strm-found : find 0 after_five.strms ≡ some first_strm
unfolding recv_stream stream_for open_id idtr_open is_pushed push create_stream new_strm check_recv
    account end_of_stream
first_strm-found = refl

recv_stream_data-IsConn_example :
    Holds IsConn (recv_stream_data first_strm true 0 (1 ∷ 2 ∷ 3 ∷ 4 ∷ 5 ∷ []) after_five)
unfolding new_strm
recv_stream_data-IsConn_example =
    recv_stream_data-IsConn first_strm true 0 (1 ∷ 2 ∷ 3 ∷ 4 ∷ 5 ∷ []) after_five after_five-IsConn
      first_strm-found

recv_stream-limits_example : recv_stream (frame 0 5 6) after_five ≡ (
    if ltb first_strm.rx.max_offset (5 + 6)
      || ltb after_five.rx.max_offset (after_five.rx.offset + 6)
    then err flow_control
    else ok (
        put_strm
          (record first_strm { rx = record first_strm.rx { last_offset = 5 + 6 } })
          (record after_five { rx = record after_five.rx { offset = after_five.rx.offset + 6 } })))
unfolding recv_stream stream_for open_id idtr_open is_pushed push create_stream new_strm check_recv
    account end_of_stream
recv_stream-limits_example =
    recv_stream-limits (frame 0 5 6) after_five first_strm after_five-IsConn refl first_strm-found
      refl refl (omega arith) refl

-- The same server, where the client's first stream has been closed.
abbrev closed_conn : Conn
closed_conn = record new_conn { bidi_idtr = push [] 0 1 }

closed_conn-IsConn : IsConn closed_conn
closed_conn-IsConn =
    let h = new_conn-IsConn in
    (
      (h.0.0, h.0.1, h.0.2, (push-IsGaps [] 0 1 tt (omega arith) (omega arith), tt), h.0.4, h.0.5),
      h.1,
      h.2,
      h.3,
    )

recv_stream-closed_example : recv_stream (frame 0 0 5) closed_conn ≡ err proto
unfolding push
recv_stream-closed_example =
    recv_stream-closed (frame 0 0 5) closed_conn closed_conn-IsConn (omega arith) (omega arith) refl
      (omega arith) refl refl

enforce_flow_control-limits_example :
    (enforce_flow_control new_conn first_strm 3 ≤ 3)
    × (first_strm.tx.offset + enforce_flow_control new_conn first_strm 3 ≤ first_strm.tx.max_offset)
    × (new_conn.tx.offset + enforce_flow_control new_conn first_strm 3 ≤ new_conn.tx.max_offset)
unfolding new_strm
enforce_flow_control-limits_example =
    enforce_flow_control-limits new_conn first_strm 3 (omega arith) (omega arith) (omega arith)
      (omega arith)

-- A server that the client lets open three streams.
abbrev with_streams : Conn
with_streams = record new_conn {
  tx = record new_conn.tx { bidi = record new_conn.tx.bidi { max_streams = 3 } };
}

with_streams-IsConn : IsConn with_streams
with_streams-IsConn =
    let h = new_conn-IsConn in
    (
      (h.0.0, h.0.1, ((omega arith, refl, omega arith), h.0.2.1), h.0.3, h.0.4, h.0.5),
      h.1,
      h.2,
      h.3,
    )

open_bidi_stream-left_example :
    (conn' : Conn) × (open_bidi_stream with_streams ≡ ok (1, conn'))
    × (get_streams_bidi_left conn' ≡ 2)
unfolding get_streams_bidi_left streams_left
open_bidi_stream-left_example = open_bidi_stream-left with_streams 2 with_streams-IsConn refl

-- The client lets the server open three bidirectional streams.
recv_transport_params-IsConn_example :
    Holds IsConn (recv_transport_params (8 ∷ 1 ∷ 3 ∷ []) new_conn)
recv_transport_params-IsConn_example =
    recv_transport_params-IsConn (8 ∷ 1 ∷ 3 ∷ []) new_conn (are_bytes-IsByte (8 ∷ 1 ∷ 3 ∷ []) refl)
      new_conn-IsConn refl tt

-- The server with the client's first two streams, of which the second has been queued first.
abbrev two_streams : Conn
two_streams = record new_conn { strms = new_strm new_conn 0 ∷ new_strm new_conn 4 ∷ [] }

abbrev one_queued : Conn
one_queued = tx_strmq_push_if_not (new_strm new_conn 4) two_streams

abbrev both_queued : Conn
both_queued = tx_strmq_push_if_not (new_strm new_conn 0) one_queued

both-Queued : Queued both_queued.tx.strmq
both-Queued =
    pushed (new_strm new_conn 0) one_queued (pushed (new_strm new_conn 4) two_streams none_queued)

tx_strmq_top-least_example : 0 ≤ 4
unfolding tx_strmq_top tx_strmq_push_if_not Pq.push Pq.top new_strm tx_strmq_first_cycle
tx_strmq_top-least_example =
    tx_strmq_top-least both_queued (record (new_strm new_conn 0) { queued = true })
      (record { stream_id = 4; cycle = 0 }) 1 both-Queued refl refl
