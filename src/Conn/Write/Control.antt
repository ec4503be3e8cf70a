-- ===== src/Conn/Write/Control.antt =====
-- dwnx_conn_write_ctrl_frames of lib/dwnx_conn.c: the frames that the connection and the streams in the
-- transmission queue have to send before data. A function that has a `next` goes on with it, unless the
-- record has no room for its frame.
use dwnx.Prelude.{
  ℕ, zero, suc, ◌+◌, List, [], ◌∷◌, Bool, true, false, not, ◌&&◌, ◌||◌, if◌then◌else◌, ltb, length,
  Option, none, some,
}
use dwnx.Prelude.{Result, fault, ◌>>=◌}
use dwnx.Frame.FrameType
use dwnx.Frame.{Frame}
use dwnx.Strm.{Strm, should_close_stream}
use dwnx.Conn.{Entry, Event}
use dwnx.Conn.Credit.{strm_should_send_max_stream_data, should_send_max_data}
use dwnx.Conn.Streams.{tx_strmq_top, tx_strmq_pop, close_stream}
use dwnx.Conn.Write.{
  fatal_call, Writing, Wrote, on_zero, with_conn, store, write_fr, write_data_blocked,
  write_stream_data_blocked, write_max_streams,
}

abbrev pub told_max_data : Writing → Writing
told_max_data w =
    with_conn (record w.conn { rx = record w.conn.rx { max_offset = w.conn.rx.unsent_max_offset } })
      w

unfoldable pub write_max_data : (Writing → Result Wrote) → Writing → Result Wrote
unfolding write_fr
write_max_data next w =
    if should_send_max_data w.conn
    then write_fr (Frame.max_data (record { max_data = w.conn.rx.unsent_max_offset })) w
      >>= on_zero (λ w. next (told_max_data w))
    else next w

-- The request to answer, if `last_seq > last_resp_seq`.
abbrev pub unanswered : Option ℕ → Option ℕ → Option ℕ
unanswered none resp = none
unanswered (some seq) none = some seq
unanswered (some seq) (some resp) = if ltb resp seq then some seq else none

unfoldable pub write_ping_response : (Writing → Result Wrote) → Option ℕ → Writing → Result Wrote
unfolding write_fr
write_ping_response next none w = next w
write_ping_response next (some seq) w =
    write_fr (Frame.qx_ping (record { type = FrameType.qx_ping_response; seq = seq })) w
    >>= on_zero (λ w. next (record w { last_resp_seq = w.conn.rx.ping_last_seq }))

-- The rounds of the loop over the queue. `again` is the `continue`, and the end of the body.
abbrev pub reset_sent : Strm → Strm
reset_sent strm = record strm { flags = record strm.flags { send_reset_stream = false } }

unfoldable pub pop_and_close : (Writing → Result Wrote) → Strm → Writing → Result Wrote
pop_and_close again strm w = do
  conn ← tx_strmq_pop w.conn
  conn ← close_stream (record strm { queued = false }) conn
  again (with_conn conn w)

unfoldable pub write_reset :
    (Writing → Result Wrote) → (Strm → Writing → Result Wrote) → Strm → Writing → Result Wrote
unfolding write_fr pop_and_close
write_reset again next strm w =
    if strm.flags.send_reset_stream
    then write_fr
        (Frame.reset_stream (record {
          stream_id = strm.stream_id;
          app_error_code = strm.tx.reset_stream_app_error_code;
          final_size = strm.tx.offset;
        }))
        w
      >>= on_zero (λ w.
        let strm = reset_sent strm in
        let w = store strm w in
        if should_close_stream strm then pop_and_close again strm w else next strm w)
    else next strm w

abbrev pub stop_sent : Strm → Strm
stop_sent strm = record strm { flags = record strm.flags { send_stop_sending = false } }

unfoldable pub write_stop_sending : (Strm → Writing → Result Wrote) → Strm → Writing → Result Wrote
unfolding write_fr
write_stop_sending next strm w =
    let id = strm.stream_id in
    let code = strm.tx.stop_sending_app_error_code in
    if strm.flags.send_stop_sending
    then (if not strm.flags.shut_rd
        then fatal_call (Event.stream_stop_sending id code) w.conn >>= (λ conn.
          write_fr (Frame.stop_sending (record { stream_id = id; app_error_code = code }))
            (with_conn conn w)
          >>= on_zero (λ w. next (stop_sent strm) (store (stop_sent strm) w)))
        else next (stop_sent strm) (store (stop_sent strm) w))
    else next strm w

abbrev pub told_stream_data : Strm → Strm
told_stream_data strm = record strm {
  rx = record strm.rx { max_offset = strm.rx.unsent_max_offset };
}

unfoldable pub write_max_stream_data :
    (Strm → Writing → Result Wrote) → Strm → Writing → Result Wrote
unfolding write_fr
write_max_stream_data next strm w =
    if not (strm.flags.shut_rd || strm.flags.stop_sending) && strm_should_send_max_stream_data strm
    then write_fr
        (Frame.max_stream_data
          (record { stream_id = strm.stream_id; max_stream_data = strm.rx.unsent_max_offset }))
        w
      >>= on_zero (λ w. next (told_stream_data strm) (store (told_stream_data strm) w))
    else next strm w

abbrev pub blocked_sent : Strm → Strm
blocked_sent strm = record strm { flags = record strm.flags { send_stream_data_blocked = false } }

unfoldable pub blocked_frames : (Strm → Writing → Result Wrote) → Strm → Writing → Result Wrote
unfolding write_data_blocked write_stream_data_blocked
blocked_frames next strm w =
    let sent =
      λ (strm : Strm) (w : Writing). next (blocked_sent strm) (store (blocked_sent strm) w) in
    if strm.flags.send_stream_data_blocked
    then (if not strm.flags.shut_wr
        then write_data_blocked w >>= on_zero (write_stream_data_blocked sent strm)
        else sent strm w)
    else next strm w

abbrev pub pop_strm : (Writing → Result Wrote) → Strm → Writing → Result Wrote
pop_strm again strm w = tx_strmq_pop w.conn >>= (λ conn. again (with_conn conn w))

-- The body of the loop for the first stream of the queue; a pointer to no stream is a fault.
unfoldable pub stream_frames : (Writing → Result Wrote) → Option Strm → Writing → Result Wrote
unfolding write_reset write_stop_sending write_max_stream_data blocked_frames
stream_frames again none w = fault
stream_frames again (some strm) w =
    write_reset again (write_stop_sending (write_max_stream_data (blocked_frames (pop_strm again))))
      strm w

abbrev pub is_empty : List Entry → Bool
is_empty [] = true
is_empty (e ∷ q) = false

-- Each round takes an entry out of the queue.
unfoldable pub queue_rounds : ℕ → Writing → Result Wrote
unfolding stream_frames write_max_streams
queue_rounds zero w = fault
queue_rounds (suc fuel) w =
    if is_empty w.conn.tx.strmq
    then write_max_streams w
    else tx_strmq_top w.conn >>= (λ strm. stream_frames (queue_rounds fuel) strm w)

unfoldable pub write_ctrl_frames : Writing → Result Wrote
unfolding write_max_data write_ping_response queue_rounds
write_ctrl_frames w =
    write_max_data
      (λ w.
        write_ping_response (λ w. queue_rounds (length w.conn.tx.strmq + 1) w)
          (unanswered w.conn.rx.ping_last_seq w.last_resp_seq) w)
      w
