-- ===== src/Conn/Read/ControlEnds.antt =====
-- The cases of frames of integers keep what a read keeps.
use dwnx.Prelude.{ℕ, ◌≤◌, ◌<◌, ◌≡◌, true, length}
use dwnx.Vec.{max_varint}
use dwnx.Conn.Kept.{recv_reset_stream-IsConn}
use dwnx.Conn.KeptCredit.{
  recv_stop_sending-IsConn, recv_max_data-IsConn, recv_max_stream_data-IsConn,
  recv_max_streams-IsConn, recv_qx_ping-IsConn, recv_streams_blocked-Passes,
  recv_data_blocked-Passes, recv_stream_data_blocked-Passes,
}
use dwnx.Conn.Clock.Frames.{recv_reset_stream-Clock}
use dwnx.Conn.Clock.Credits.{
  recv_stop_sending-Clock, recv_max_data-Clock, recv_max_stream_data-Clock, recv_max_streams-Clock,
  recv_qx_ping-Clock,
}
use dwnx.VarintReader
use dwnx.RecordReader.{State}
use dwnx.Conn.Read.{Reading, with_fr, with_state}
use dwnx.Conn.Read.Control.{
  ping_seq, reset_stream_id, reset_app_error_code, reset_final_size, stop_stream_id,
  stop_app_error_code, max_data, max_data_stream_id, max_stream_data, max_streams, blocked_offset,
  stream_blocked_id, stream_blocked_offset, streams_blocked,
}
use dwnx.Conn.Read.Invariant.{IsBase, Ends}
use dwnx.Conn.Read.Steps.{handled-Ends, checked-Ends, more-Ends, next_field-Ends, after}

module _ (n ts : ℕ) where
  pub ping_seq-Ends :
      (vint : ℕ) (r : Reading)
      → IsBase ts r
      → r.seen ≡ true
      → length r.p < n
      → Ends n ts (ping_seq ts vint r)
  unfolding ping_seq
  ping_seq-Ends vint r b s l =
      let fr = record r.rcrd.fr.qx_ping { seq = vint } in
      handled-Ends n ts _ _ b s l (recv_qx_ping-IsConn fr ts r.conn b.0.0 b.0.1.1)
        (recv_qx_ping-Clock ts fr r.conn b.0.1)

  pub reset_final_size-Ends :
      (vint : ℕ) (r : Reading)
      → IsBase ts r
      → r.seen ≡ true
      → r.rcrd.fr.reset_stream.stream_id ≤ max_varint
      → length r.p < n
      → Ends n ts (reset_final_size ts vint r)
  unfolding reset_final_size
  reset_final_size-Ends vint r b s i l =
      let fr = record r.rcrd.fr.reset_stream { final_size = vint } in
      handled-Ends n ts _ _ b s l (recv_reset_stream-IsConn fr r.conn b.0.0 i)
        (recv_reset_stream-Clock ts fr r.conn b.0.1)

  pub reset_app_error_code-Ends :
      (vint : ℕ) (r : Reading)
      → IsBase ts r
      → r.seen ≡ true
      → r.rcrd.fr.reset_stream.stream_id ≤ max_varint
      → length r.p < n
      → Ends n ts (reset_app_error_code ts vint r)
  unfolding reset_app_error_code
  reset_app_error_code-Ends vint r b s i l =
      let fr = record r.rcrd.fr.reset_stream { app_error_code = vint } in
      let r' = with_fr (record r.rcrd.fr { reset_stream = fr }) r in
      let at = with_state State.reset_stream_final_size r' in
      more-Ends n ts r _ (λ g.
        next_field-Ends n ts State.reset_stream_final_size (reset_final_size ts) r' b l g
          ((g, s), i) (λ vird left q k. ((k, s), i))
          (λ v left q m shorter c.
            reset_final_size-Ends v (after VarintReader.reset left q at) c s i shorter))

  pub reset_stream_id-Ends :
      (vint : ℕ) (r : Reading)
      → IsBase ts r
      → r.seen ≡ true
      → vint ≤ max_varint
      → length r.p < n
      → Ends n ts (reset_stream_id ts vint r)
  unfolding reset_stream_id
  reset_stream_id-Ends vint r b s i l =
      let fr = record r.rcrd.fr.reset_stream { stream_id = vint } in
      let r' = with_fr (record r.rcrd.fr { reset_stream = fr }) r in
      let at = with_state State.reset_stream_app_error_code r' in
      more-Ends n ts r _ (λ g.
        next_field-Ends n ts State.reset_stream_app_error_code (reset_app_error_code ts) r' b l g
          ((g, s), i) (λ vird left q k. ((k, s), i))
          (λ v left q m shorter c.
            reset_app_error_code-Ends v (after VarintReader.reset left q at) c s i shorter))

  pub stop_app_error_code-Ends :
      (vint : ℕ) (r : Reading)
      → IsBase ts r
      → r.seen ≡ true
      → r.rcrd.fr.stop_sending.stream_id ≤ max_varint
      → length r.p < n
      → Ends n ts (stop_app_error_code ts vint r)
  unfolding stop_app_error_code
  stop_app_error_code-Ends vint r b s i l =
      let fr = record r.rcrd.fr.stop_sending { app_error_code = vint } in
      handled-Ends n ts _ _ b s l (recv_stop_sending-IsConn fr ts r.conn b.0.0 b.0.1.1 i)
        (recv_stop_sending-Clock ts fr r.conn b.0.1)

  pub stop_stream_id-Ends :
      (vint : ℕ) (r : Reading)
      → IsBase ts r
      → r.seen ≡ true
      → vint ≤ max_varint
      → length r.p < n
      → Ends n ts (stop_stream_id ts vint r)
  unfolding stop_stream_id
  stop_stream_id-Ends vint r b s i l =
      let fr = record r.rcrd.fr.stop_sending { stream_id = vint } in
      let r' = with_fr (record r.rcrd.fr { stop_sending = fr }) r in
      let at = with_state State.stop_sending_app_error_code r' in
      more-Ends n ts r _ (λ g.
        next_field-Ends n ts State.stop_sending_app_error_code (stop_app_error_code ts) r' b l g
          ((g, s), i) (λ vird left q k. ((k, s), i))
          (λ v left q m shorter c.
            stop_app_error_code-Ends v (after VarintReader.reset left q at) c s i shorter))

  pub max_data-Ends :
      (vint : ℕ) (r : Reading)
      → IsBase ts r
      → r.seen ≡ true
      → length r.p < n
      → Ends n ts (max_data ts vint r)
  unfolding max_data
  max_data-Ends vint r b s l =
      let fr = record r.rcrd.fr.max_data { max_data = vint } in
      handled-Ends n ts _ _ b s l (recv_max_data-IsConn fr r.conn b.0.0)
        (recv_max_data-Clock ts fr r.conn b.0.1)

  pub max_stream_data-Ends :
      (vint : ℕ) (r : Reading)
      → IsBase ts r
      → r.seen ≡ true
      → r.rcrd.fr.max_stream_data.stream_id ≤ max_varint
      → length r.p < n
      → Ends n ts (max_stream_data ts vint r)
  unfolding max_stream_data
  max_stream_data-Ends vint r b s i l =
      let fr = record r.rcrd.fr.max_stream_data { max_stream_data = vint } in
      handled-Ends n ts _ _ b s l (recv_max_stream_data-IsConn fr ts r.conn b.0.0 b.0.1.1 i)
        (recv_max_stream_data-Clock ts fr r.conn b.0.1)

  pub max_data_stream_id-Ends :
      (vint : ℕ) (r : Reading)
      → IsBase ts r
      → r.seen ≡ true
      → vint ≤ max_varint
      → length r.p < n
      → Ends n ts (max_data_stream_id ts vint r)
  unfolding max_data_stream_id
  max_data_stream_id-Ends vint r b s i l =
      let fr = record r.rcrd.fr.max_stream_data { stream_id = vint } in
      let r' = with_fr (record r.rcrd.fr { max_stream_data = fr }) r in
      let at = with_state State.max_stream_data_max_stream_data r' in
      more-Ends n ts r _ (λ g.
        next_field-Ends n ts State.max_stream_data_max_stream_data (max_stream_data ts) r' b l g
          ((g, s), i) (λ vird left q k. ((k, s), i))
          (λ v left q m shorter c.
            max_stream_data-Ends v (after VarintReader.reset left q at) c s i shorter))

  pub max_streams-Ends :
      (vint : ℕ) (r : Reading)
      → IsBase ts r
      → r.seen ≡ true
      → length r.p < n
      → Ends n ts (max_streams ts vint r)
  unfolding max_streams
  max_streams-Ends vint r b s l =
      let fr = record r.rcrd.fr.max_streams { max_streams = vint } in
      handled-Ends n ts _ _ b s l (recv_max_streams-IsConn fr r.conn b.0.0)
        (recv_max_streams-Clock ts fr r.conn b.0.1)

  pub blocked_offset-Ends :
      (vint : ℕ) (r : Reading)
      → IsBase ts r
      → r.seen ≡ true
      → length r.p < n
      → Ends n ts (blocked_offset ts vint r)
  unfolding blocked_offset
  blocked_offset-Ends vint r b s l =
      let fr = record r.rcrd.fr.data_blocked { max_data = vint } in
      checked-Ends n ts _ _ b s l (recv_data_blocked-Passes fr r.conn)

  pub stream_blocked_offset-Ends :
      (vint : ℕ) (r : Reading)
      → IsBase ts r
      → r.seen ≡ true
      → r.rcrd.fr.stream_data_blocked.stream_id ≤ max_varint
      → length r.p < n
      → Ends n ts (stream_blocked_offset ts vint r)
  unfolding stream_blocked_offset
  stream_blocked_offset-Ends vint r b s i l =
      let fr = record r.rcrd.fr.stream_data_blocked { max_stream_data = vint } in
      checked-Ends n ts _ _ b s l (recv_stream_data_blocked-Passes fr r.conn b.0.0 i)

  pub stream_blocked_id-Ends :
      (vint : ℕ) (r : Reading)
      → IsBase ts r
      → r.seen ≡ true
      → vint ≤ max_varint
      → length r.p < n
      → Ends n ts (stream_blocked_id ts vint r)
  unfolding stream_blocked_id
  stream_blocked_id-Ends vint r b s i l =
      let fr = record r.rcrd.fr.stream_data_blocked { stream_id = vint } in
      let r' = with_fr (record r.rcrd.fr { stream_data_blocked = fr }) r in
      let at = with_state State.stream_data_blocked_offset r' in
      more-Ends n ts r _ (λ g.
        next_field-Ends n ts State.stream_data_blocked_offset (stream_blocked_offset ts) r' b l g
          ((g, s), i) (λ vird left q k. ((k, s), i))
          (λ v left q m shorter c.
            stream_blocked_offset-Ends v (after VarintReader.reset left q at) c s i shorter))

  pub streams_blocked-Ends :
      (vint : ℕ) (r : Reading)
      → IsBase ts r
      → r.seen ≡ true
      → length r.p < n
      → Ends n ts (streams_blocked ts vint r)
  unfolding streams_blocked
  streams_blocked-Ends vint r b s l =
      let fr = record r.rcrd.fr.streams_blocked { max_streams = vint } in
      checked-Ends n ts _ _ b s l (recv_streams_blocked-Passes fr r.conn)
