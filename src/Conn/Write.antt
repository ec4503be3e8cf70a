-- ===== src/Conn/Write.antt =====
-- The write side of lib/dwnx_conn.c: its state, what a call that writes frames into a record comes to, and
-- the frames that say that data are blocked or that more streams may be opened.
pub mod Control
pub mod Data
pub mod Message
mod Invariant
mod Frames
mod Queue
mod Rounds
mod Sent
pub mod Returned
pub mod Calls
mod Runs
use dwnx.Prelude.{ℕ, Bool, ◌||◌, ◌==◌, if◌then◌else◌, ltb, Option, none, some}
use dwnx.Prelude.{Error, Result, ok, err, fault, ◌>>=◌, ◌>>◌, check}
use dwnx.Frame
use dwnx.Frame.FrameType
use dwnx.Frame.{Frame}
use dwnx.Qre.{Qre, encode_frame}
use dwnx.Err.{err_is_fatal}
use dwnx.Strm.{Strm}
use dwnx.Conn.{Conn, Event, put_strm, call}

-- What the write side reads and writes: the connection's state, `tx.qre`, `flags &
-- DWNX_CONN_FLAG_QX_TRANSPORT_PARAMETERS_SENT`, `rx.ping.last_resp_seq` with -1 as `none`, `idle_ts` and
-- `log.last_ts`, and what the pointers `pdatalen`, with -1 as `none`, and `paccepted` are to;
-- `nwrite` is what dwnx_conn_write_vmsg returns where there is no error.
pub record Writing : Type 0 where
  pub conn : Conn
  pub qre : Qre
  pub params_sent : Bool
  pub last_resp_seq : Option ℕ
  pub idle_ts : ℕ
  pub last_ts : ℕ
  pub pdatalen : Option ℕ
  pub accepted : Bool
  pub nwrite : ℕ

-- The value that a call returns, 0 or an error code that leaves the connection in use, with the state.
-- With an error of a callback the state is not kept: the connection is closed.
abbrev pub Wrote : Type 0
Wrote = Option Error × Writing

abbrev pub return_zero : Writing → Result Wrote
return_zero w = ok (none, w)

-- `if (rv != 0) return rv;`
abbrev pub on_zero : (Writing → Result Wrote) → Wrote → Result Wrote
on_zero next (none, w) = next w
on_zero next (some code, w) = ok (some code, w)

abbrev pub with_conn : Conn → Writing → Writing
with_conn conn w = record w { conn = conn }

abbrev pub with_qre : Qre → Writing → Writing
with_qre qre w = record w { qre = qre }

-- What is written through the pointer to a stream.
abbrev pub store : Strm → Writing → Writing
store strm w = with_conn (put_strm strm w.conn) w

abbrev pub encoded : Writing → Result Qre → Result Wrote
encoded w (ok qre) = return_zero (with_qre qre w)
encoded w (err code) = ok (some code, w)
encoded w fault = fault

-- The calls of callbacks behind which `dwnx_err_is_fatal(rv)` is asserted.
abbrev pub asserted_fatal : Result Conn → Result Conn
asserted_fatal (ok conn) = ok conn
asserted_fatal (err code) = if err_is_fatal code then err code else fault
asserted_fatal fault = fault

abbrev pub fatal_call : Event → Conn → Result Conn
fatal_call event conn = asserted_fatal (call event conn)

-- dwnx_qre_encode_frame on `tx.qre`.
unfoldable pub write_fr : Frame → Writing → Result Wrote
write_fr fr w = encoded w (encode_frame w.qre fr)

abbrev pub data_blocked_at : Writing → Writing
data_blocked_at w =
    with_conn (record w.conn { tx = record w.conn.tx { last_blocked_offset = w.conn.tx.offset } }) w

unfoldable pub write_data_blocked : Writing → Result Wrote
unfolding write_fr
write_data_blocked w =
    let tx = w.conn.tx in
    if ltb tx.offset tx.max_offset || tx.offset == tx.last_blocked_offset
    then return_zero w
    else check (tx.offset == tx.max_offset)
      >> (write_fr (Frame.data_blocked (record { max_data = tx.offset })) w
          >>= on_zero (λ w. return_zero (data_blocked_at w)))

abbrev pub blocked_at : Strm → Strm
blocked_at strm = record strm { tx = record strm.tx { last_blocked_offset = strm.tx.offset } }

-- dwnx_conn_write_stream_data_blocked, and what follows where it returns 0.
unfoldable pub write_stream_data_blocked :
    (Strm → Writing → Result Wrote) → Strm → Writing → Result Wrote
unfolding write_fr
write_stream_data_blocked next strm w =
    if ltb strm.tx.offset strm.tx.max_offset || strm.tx.offset == strm.tx.last_blocked_offset
    then next strm w
    else check (strm.tx.offset == strm.tx.max_offset)
      >> (write_fr
            (Frame.stream_data_blocked
              (record { stream_id = strm.stream_id; max_stream_data = strm.tx.offset }))
            w
          >>= on_zero (λ w. next (blocked_at strm) (store (blocked_at strm) w)))

-- `rx.bidi.max_streams` and `rx.uni.max_streams` after the frame that tells the peer.
abbrev pub told_bidi : Writing → Writing
told_bidi w =
    let bidi = w.conn.rx.bidi in
    with_conn
      (record w.conn {
        rx = record w.conn.rx { bidi = record bidi { max_streams = bidi.unsent_max_streams } };
      })
      w

abbrev pub told_uni : Writing → Writing
told_uni w =
    let uni = w.conn.rx.uni in
    with_conn
      (record w.conn {
        rx = record w.conn.rx { uni = record uni { max_streams = uni.unsent_max_streams } };
      })
      w

unfoldable pub write_max_streams_bidi : (Writing → Result Wrote) → Writing → Result Wrote
unfolding write_fr
write_max_streams_bidi next w =
    let n = w.conn.rx.bidi.unsent_max_streams in
    if ltb w.conn.rx.bidi.max_streams n
    then fatal_call (Event.extend_max_remote_streams_bidi n) w.conn >>= (λ conn.
      write_fr (Frame.max_streams (record { type = FrameType.max_streams_bidi; max_streams = n }))
        (with_conn conn w)
      >>= on_zero (λ w. next (told_bidi w)))
    else next w

unfoldable pub write_max_streams_uni : Writing → Result Wrote
unfolding write_fr
write_max_streams_uni w =
    let n = w.conn.rx.uni.unsent_max_streams in
    if ltb w.conn.rx.uni.max_streams n
    then fatal_call (Event.extend_max_remote_streams_uni n) w.conn >>= (λ conn.
      write_fr (Frame.max_streams (record { type = FrameType.max_streams_uni; max_streams = n }))
        (with_conn conn w)
      >>= on_zero (λ w. return_zero (told_uni w)))
    else return_zero w

unfoldable pub write_max_streams : Writing → Result Wrote
unfolding write_max_streams_bidi write_max_streams_uni
write_max_streams w = write_max_streams_bidi write_max_streams_uni w
