-- ===== src/Conn/Read/Handlers.antt =====
-- The handlers that dwnx_conn_read comes to, frame by frame.
use dwnx.Prelude.{
  ℕ, ◌-◌, ◌≤◌, ◌<◌, ◌≡◌, refl, ◌∙◌, ◌⊎◌, inl, inr, arith, [], ◌++◌, true, leb, length, IsByte,
  All-append, length-append, none,
}
use dwnx.Prelude.{ok, ◌>>=◌, ◌>>◌}
use dwnx.Conv.Wire.{varint_bytes, IsVarint, varint_bytes-IsByte, length-varint_bytes}
use dwnx.Frame
use dwnx.Frame.{Frame}
use dwnx.Frame.FrameType
use dwnx.Frame.Wire.{wire, IsEncodable}
use dwnx.RecordReader.{State}
use dwnx.Conn.Receive.{recv_reset_stream}
use dwnx.Conn.Credits.{recv_max_streams, recv_streams_blocked}
use dwnx.Conn.Read.{Reading, varint_field, with_state, with_fr}
use dwnx.Conn.Read.Control.{
  reset_stream_id, reset_app_error_code, reset_final_size, max_streams, streams_blocked,
}
use dwnx.Conn.Read.Start.{type_switch, max_streams_type, streams_blocked_type, begin}
use dwnx.Conn.Read.Loop.{cases, conn_read}
use dwnx.Conn.Read.Whole.{at, field-whole, field-last}
use dwnx.Conn.Read.Dispatch.{between, view, record_bytes, typed, two_rounds}
use dwnx.Conn.Read.Pings.{qx_ping-Dispatches}
use dwnx.Conn.Read.Integers.{
  Dispatches, IsIntegers, handler, checked-handled, some_bytes, self, goes_on, size_three,
  two-IsByte, max_data-Dispatches, data_blocked-Dispatches, stop_sending-Dispatches,
  max_stream_data-Dispatches, stream_data_blocked-Dispatches,
}

module _ (ts : ℕ) (r : Reading) (l : r.last_ts ≤ ts) where
  reset_stream-Dispatches :
      (fr : Frame.ResetStream)
      → IsVarint fr.stream_id
      → IsVarint fr.app_error_code
      → IsVarint fr.final_size
      → leb (length (wire (Frame.reset_stream fr))) r.conn.local_params.max_record_size ≡ true
      → Dispatches ts r (Frame.reset_stream fr)
  unfolding wire type_switch cases reset_stream_id reset_app_error_code reset_final_size
  reset_stream-Dispatches fr h k j fits =
      let a = varint_bytes fr.stream_id in
      let b = varint_bytes fr.app_error_code in
      let c = varint_bytes fr.final_size in
      let n = size_three fr.stream_id fr.app_error_code fr.final_size in
      let m = length-append b c in
      let na = length-varint_bytes fr.stream_id in
      let nb = length-varint_bytes fr.app_error_code in
      let nc = length-varint_bytes fr.final_size in
      let bc = two-IsByte fr.app_error_code fr.final_size 0 k j in
      let body = a ++ (b ++ c) in
      let left1 = length body - length a in
      let left2 = left1 - length b in
      let r1 = typed ts body r in
      let x = with_state State.reset_stream_stream_id r1 in
      let fr1 = record r.rcrd.fr.reset_stream { stream_id = fr.stream_id } in
      let x1 = with_fr (record r.rcrd.fr { reset_stream = fr1 }) (at left1 (b ++ c) x) in
      let x2 = with_state State.reset_stream_app_error_code x1 in
      let fr2 = record fr1 { app_error_code = fr.app_error_code } in
      let x3 = with_fr (record r.rcrd.fr { reset_stream = fr2 }) (at left2 c x2) in
      let x4 = with_state State.reset_stream_final_size x3 in
      let y = with_fr (record r.rcrd.fr { reset_stream = fr }) x4 in
      two_rounds FrameType.reset_stream ts body State.reset_stream_stream_id r r1 y
        (recv_reset_stream fr r.conn) (left2 - length c) (omega arith) (omega (arith, n, na))
        (omega (arith, n, na, nb, nc))
        (omega arith, All-append IsByte a (b ++ c) (varint_bytes-IsByte fr.stream_id h) bc) l fits
        refl refl refl
        (field-whole (λ vint vlen. reset_stream_id ts vint) fr.stream_id (length body) (b ++ c) x h
            bc (omega (arith, n))
          ∙ goes_on (at left1 (b ++ c) x) x1 State.reset_stream_app_error_code
              (varint_field (reset_app_error_code ts)) (omega (arith, n, nb)) (omega (arith, m, nb))
          ∙ field-whole (λ vint vlen. reset_app_error_code ts vint) fr.app_error_code left1 c x2 k
              (varint_bytes-IsByte fr.final_size j) (omega (arith, n))
          ∙ goes_on (at left2 c x2) x3 State.reset_stream_final_size
              (varint_field (reset_final_size ts)) (omega (arith, n, nc)) (omega (arith, nc))
          ∙ field-last (λ vint vlen. reset_final_size ts vint) fr.final_size left2 x4 j
              (omega (arith, n)))
        (omega (arith, n))

  max_streams-begin :
      (fr : Frame.MaxStreams) (t : ℕ)
      → (t ≡ FrameType.max_streams_bidi) ⊎ (t ≡ FrameType.max_streams_uni)
      → type_switch ts t (typed ts (varint_bytes fr.max_streams) r)
        ≡ begin State.max_streams_max_streams (
            with_fr
              (record r.rcrd.fr { max_streams = record r.rcrd.fr.max_streams { type = t } })
              (typed ts (varint_bytes fr.max_streams) r))
  unfolding type_switch max_streams_type
  max_streams-begin fr t (inl e) = rw e refl
  max_streams-begin fr t (inr e) = rw e refl

  max_streams-Dispatches :
      (fr : Frame.MaxStreams)
      → (fr.type ≡ FrameType.max_streams_bidi) ⊎ (fr.type ≡ FrameType.max_streams_uni)
      → IsVarint fr.max_streams
      → leb (length (wire (Frame.max_streams fr))) r.conn.local_params.max_record_size ≡ true
      → Dispatches ts r (Frame.max_streams fr)
  unfolding wire cases max_streams
  max_streams-Dispatches fr t h fits =
      let body = varint_bytes fr.max_streams in
      let fr1 = record r.rcrd.fr.max_streams { type = fr.type } in
      let r1 = with_fr (record r.rcrd.fr { max_streams = fr1 }) (typed ts body r) in
      let x = with_state State.max_streams_max_streams r1 in
      let y = with_fr (record r.rcrd.fr { max_streams = fr }) x in
      two_rounds fr.type ts body State.max_streams_max_streams r r1 y (recv_max_streams fr r.conn)
        (length body - length body) (one_byte fr.type t) (some_bytes fr.max_streams)
        (omega (arith, length-varint_bytes fr.max_streams))
        (omega (arith, one_byte fr.type t), varint_bytes-IsByte fr.max_streams h) l fits
        (max_streams-begin fr fr.type t) refl refl
        (field-last (λ vint vlen. max_streams ts vint) fr.max_streams (length body) x h
          (self (length body)))
        (omega arith)
    where
      one_byte :
          (t : ℕ) → (t ≡ FrameType.max_streams_bidi) ⊎ (t ≡ FrameType.max_streams_uni) → t < 64
      one_byte t (inl e) = omega arith
      one_byte t (inr e) = omega arith

  streams_blocked-begin :
      (fr : Frame.StreamsBlocked) (t : ℕ)
      → (t ≡ FrameType.streams_blocked_bidi) ⊎ (t ≡ FrameType.streams_blocked_uni)
      → type_switch ts t (typed ts (varint_bytes fr.max_streams) r)
        ≡ begin State.streams_blocked_max_streams (
            with_fr
              (record r.rcrd.fr { streams_blocked = record r.rcrd.fr.streams_blocked { type = t } })
              (typed ts (varint_bytes fr.max_streams) r))
  unfolding type_switch streams_blocked_type
  streams_blocked-begin fr t (inl e) = rw e refl
  streams_blocked-begin fr t (inr e) = rw e refl

  streams_blocked-Dispatches :
      (fr : Frame.StreamsBlocked)
      → (fr.type ≡ FrameType.streams_blocked_bidi) ⊎ (fr.type ≡ FrameType.streams_blocked_uni)
      → IsVarint fr.max_streams
      → leb (length (wire (Frame.streams_blocked fr))) r.conn.local_params.max_record_size ≡ true
      → Dispatches ts r (Frame.streams_blocked fr)
  unfolding wire cases streams_blocked
  streams_blocked-Dispatches fr t h fits =
      let body = varint_bytes fr.max_streams in
      let fr1 = record r.rcrd.fr.streams_blocked { type = fr.type } in
      let r1 = with_fr (record r.rcrd.fr { streams_blocked = fr1 }) (typed ts body r) in
      let x = with_state State.streams_blocked_max_streams r1 in
      let y = with_fr (record r.rcrd.fr { streams_blocked = fr }) x in
      two_rounds fr.type ts body State.streams_blocked_max_streams r r1 y
        (recv_streams_blocked fr r.conn >> ok r.conn) (length body - length body)
        (one_byte fr.type t) (some_bytes fr.max_streams)
        (omega (arith, length-varint_bytes fr.max_streams))
        (omega (arith, one_byte fr.type t), varint_bytes-IsByte fr.max_streams h) l fits
        (streams_blocked-begin fr fr.type t) refl refl
        (field-last (λ vint vlen. streams_blocked ts vint) fr.max_streams (length body) x h
            (self (length body))
          ∙ checked-handled ts (recv_streams_blocked fr r.conn)
              (at (length body - length body) [] y))
        (omega arith)
    where
      one_byte :
          (t : ℕ)
          → (t ≡ FrameType.streams_blocked_bidi) ⊎ (t ≡ FrameType.streams_blocked_uni)
          → t < 64
      one_byte t (inl e) = omega arith
      one_byte t (inr e) = omega arith

-- A frame of a type and integers (RESET_STREAM, STOP_SENDING, MAX_DATA, MAX_STREAM_DATA, MAX_STREAMS,
-- DATA_BLOCKED, STREAM_DATA_BLOCKED, STREAMS_BLOCKED or QX_PING) that can be encoded, sent by itself as a record that is no longer than we allow,
-- and read by a reader between two records at a time that is not before the last one, comes to the
-- frame's handler: where the handler succeeds the read returns 0 with the handler's state of the
-- connection, is between two records again, and the idle timer starts at that time; where it fails, so
-- does the read.
pub conn_read-handler :
    (fr : Frame) (ts : ℕ) (r : Reading)
    → IsIntegers fr
    → IsEncodable fr
    → r.last_ts ≤ ts
    → leb (length (wire fr)) r.conn.local_params.max_record_size ≡ true
    → (conn_read (record_bytes (wire fr)) ts (between r) >>= view)
      ≡ (handler fr ts r.conn >>= (λ conn. ok (none, conn, State.record_size, ts)))
conn_read-handler (Frame.reset_stream fr) ts r i e l fits =
    reset_stream-Dispatches ts r l fr e.0 e.1 e.2 fits
conn_read-handler (Frame.stop_sending fr) ts r i e l fits =
    stop_sending-Dispatches ts r l fr e.0 e.1 fits
conn_read-handler (Frame.max_data fr) ts r i e l fits = max_data-Dispatches ts r l fr e fits
conn_read-handler (Frame.max_stream_data fr) ts r i e l fits =
    max_stream_data-Dispatches ts r l fr e.0 e.1 fits
conn_read-handler (Frame.max_streams fr) ts r i e l fits =
    max_streams-Dispatches ts r l fr e.0 e.1 fits
conn_read-handler (Frame.data_blocked fr) ts r i e l fits = data_blocked-Dispatches ts r l fr e fits
conn_read-handler (Frame.stream_data_blocked fr) ts r i e l fits =
    stream_data_blocked-Dispatches ts r l fr e.0 e.1 fits
conn_read-handler (Frame.streams_blocked fr) ts r i e l fits =
    streams_blocked-Dispatches ts r l fr e.0 e.1 fits
conn_read-handler (Frame.qx_transport_parameters fr) ts r i e l fits = elim i [ ]
conn_read-handler (Frame.qx_ping fr) ts r i e l fits = qx_ping-Dispatches ts r l fr e.0 e.1 fits
conn_read-handler (Frame.padding fr) ts r i e l fits = elim i [ ]
conn_read-handler (Frame.stream fr) ts r i e l fits = elim i [ ]
conn_read-handler (Frame.connection_close fr) ts r i e l fits = elim i [ ]
conn_read-handler (Frame.datagram fr) ts r i e l fits = elim i [ ]
