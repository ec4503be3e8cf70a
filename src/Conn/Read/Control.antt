-- ===== src/Conn/Read/Control.antt =====
-- The cases of dwnx_conn_read of lib/dwnx_conn.c that read frames of integers. A function is what a case
-- does with the integer it has read, up to the case's end.
use dwnx.Prelude.{ℕ, ◌>>◌, Result}
use dwnx.RecordReader.{State}
use dwnx.Conn.Receive.{recv_reset_stream}
use dwnx.Conn.Credits.{
  recv_stop_sending, recv_max_data, recv_max_stream_data, recv_max_streams, recv_streams_blocked,
  recv_data_blocked, recv_stream_data_blocked,
}
use dwnx.Conn.Setup.{recv_qx_ping}
use dwnx.Conn.Read.{Reading, Flow, with_fr, more, fall_through, handled, checked, varint_field}

unfoldable pub ping_seq : ℕ → ℕ → Reading → Result Flow
ping_seq ts vint r =
    let fr = record r.rcrd.fr.qx_ping { seq = vint } in
    handled ts (recv_qx_ping fr ts r.conn) (with_fr (record r.rcrd.fr { qx_ping = fr }) r)

abbrev pub read_qx_ping_seq : ℕ → Reading → Result Flow
read_qx_ping_seq ts = varint_field (ping_seq ts)

unfoldable pub reset_final_size : ℕ → ℕ → Reading → Result Flow
reset_final_size ts vint r =
    let fr = record r.rcrd.fr.reset_stream { final_size = vint } in
    handled ts (recv_reset_stream fr r.conn) (with_fr (record r.rcrd.fr { reset_stream = fr }) r)

abbrev pub read_reset_stream_final_size : ℕ → Reading → Result Flow
read_reset_stream_final_size ts = varint_field (reset_final_size ts)

unfoldable pub reset_app_error_code : ℕ → ℕ → Reading → Result Flow
unfolding reset_final_size
reset_app_error_code ts vint r =
    let fr = record r.rcrd.fr.reset_stream { app_error_code = vint } in
    more r
    >> fall_through State.reset_stream_final_size (read_reset_stream_final_size ts)
        (with_fr (record r.rcrd.fr { reset_stream = fr }) r)

abbrev pub read_reset_stream_app_error_code : ℕ → Reading → Result Flow
read_reset_stream_app_error_code ts = varint_field (reset_app_error_code ts)

unfoldable pub reset_stream_id : ℕ → ℕ → Reading → Result Flow
unfolding reset_app_error_code
reset_stream_id ts vint r =
    let fr = record r.rcrd.fr.reset_stream { stream_id = vint } in
    more r
    >> fall_through State.reset_stream_app_error_code (read_reset_stream_app_error_code ts)
        (with_fr (record r.rcrd.fr { reset_stream = fr }) r)

abbrev pub read_reset_stream_stream_id : ℕ → Reading → Result Flow
read_reset_stream_stream_id ts = varint_field (reset_stream_id ts)

unfoldable pub stop_app_error_code : ℕ → ℕ → Reading → Result Flow
stop_app_error_code ts vint r =
    let fr = record r.rcrd.fr.stop_sending { app_error_code = vint } in
    handled ts (recv_stop_sending fr ts r.conn) (with_fr (record r.rcrd.fr { stop_sending = fr }) r)

abbrev pub read_stop_sending_app_error_code : ℕ → Reading → Result Flow
read_stop_sending_app_error_code ts = varint_field (stop_app_error_code ts)

unfoldable pub stop_stream_id : ℕ → ℕ → Reading → Result Flow
unfolding stop_app_error_code
stop_stream_id ts vint r =
    let fr = record r.rcrd.fr.stop_sending { stream_id = vint } in
    more r
    >> fall_through State.stop_sending_app_error_code (read_stop_sending_app_error_code ts)
        (with_fr (record r.rcrd.fr { stop_sending = fr }) r)

abbrev pub read_stop_sending_stream_id : ℕ → Reading → Result Flow
read_stop_sending_stream_id ts = varint_field (stop_stream_id ts)

unfoldable pub max_data : ℕ → ℕ → Reading → Result Flow
max_data ts vint r =
    let fr = record r.rcrd.fr.max_data { max_data = vint } in
    handled ts (recv_max_data fr r.conn) (with_fr (record r.rcrd.fr { max_data = fr }) r)

abbrev pub read_max_data_max_data : ℕ → Reading → Result Flow
read_max_data_max_data ts = varint_field (max_data ts)

unfoldable pub max_stream_data : ℕ → ℕ → Reading → Result Flow
max_stream_data ts vint r =
    let fr = record r.rcrd.fr.max_stream_data { max_stream_data = vint } in
    handled ts (recv_max_stream_data fr ts r.conn)
      (with_fr (record r.rcrd.fr { max_stream_data = fr }) r)

abbrev pub read_max_stream_data_max_stream_data : ℕ → Reading → Result Flow
read_max_stream_data_max_stream_data ts = varint_field (max_stream_data ts)

unfoldable pub max_data_stream_id : ℕ → ℕ → Reading → Result Flow
unfolding max_stream_data
max_data_stream_id ts vint r =
    let fr = record r.rcrd.fr.max_stream_data { stream_id = vint } in
    more r
    >> fall_through State.max_stream_data_max_stream_data (read_max_stream_data_max_stream_data ts)
        (with_fr (record r.rcrd.fr { max_stream_data = fr }) r)

abbrev pub read_max_stream_data_stream_id : ℕ → Reading → Result Flow
read_max_stream_data_stream_id ts = varint_field (max_data_stream_id ts)

unfoldable pub max_streams : ℕ → ℕ → Reading → Result Flow
max_streams ts vint r =
    let fr = record r.rcrd.fr.max_streams { max_streams = vint } in
    handled ts (recv_max_streams fr r.conn) (with_fr (record r.rcrd.fr { max_streams = fr }) r)

abbrev pub read_max_streams_max_streams : ℕ → Reading → Result Flow
read_max_streams_max_streams ts = varint_field (max_streams ts)

unfoldable pub blocked_offset : ℕ → ℕ → Reading → Result Flow
blocked_offset ts vint r =
    let fr = record r.rcrd.fr.data_blocked { max_data = vint } in
    checked ts (recv_data_blocked fr r.conn) (with_fr (record r.rcrd.fr { data_blocked = fr }) r)

abbrev pub read_data_blocked_offset : ℕ → Reading → Result Flow
read_data_blocked_offset ts = varint_field (blocked_offset ts)

unfoldable pub stream_blocked_offset : ℕ → ℕ → Reading → Result Flow
stream_blocked_offset ts vint r =
    let fr = record r.rcrd.fr.stream_data_blocked { max_stream_data = vint } in
    checked ts (recv_stream_data_blocked fr r.conn)
      (with_fr (record r.rcrd.fr { stream_data_blocked = fr }) r)

abbrev pub read_stream_data_blocked_offset : ℕ → Reading → Result Flow
read_stream_data_blocked_offset ts = varint_field (stream_blocked_offset ts)

unfoldable pub stream_blocked_id : ℕ → ℕ → Reading → Result Flow
unfolding stream_blocked_offset
stream_blocked_id ts vint r =
    let fr = record r.rcrd.fr.stream_data_blocked { stream_id = vint } in
    more r
    >> fall_through State.stream_data_blocked_offset (read_stream_data_blocked_offset ts)
        (with_fr (record r.rcrd.fr { stream_data_blocked = fr }) r)

abbrev pub read_stream_data_blocked_stream_id : ℕ → Reading → Result Flow
read_stream_data_blocked_stream_id ts = varint_field (stream_blocked_id ts)

unfoldable pub streams_blocked : ℕ → ℕ → Reading → Result Flow
streams_blocked ts vint r =
    let fr = record r.rcrd.fr.streams_blocked { max_streams = vint } in
    checked ts (recv_streams_blocked fr r.conn)
      (with_fr (record r.rcrd.fr { streams_blocked = fr }) r)

abbrev pub read_streams_blocked_max_streams : ℕ → Reading → Result Flow
read_streams_blocked_max_streams ts = varint_field (streams_blocked ts)
