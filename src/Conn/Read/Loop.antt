-- ===== src/Conn/Read/Loop.antt =====
-- dwnx_conn_read of lib/dwnx_conn.c: the `switch` over the states, and the loop over the bytes. The fuel
-- is the number of the bytes.
use dwnx.Prelude.{ℕ, zero, suc, List, if◌then◌else◌, leb, length, Option, none, some}
use dwnx.Prelude.{Error, Result, ok, fault, ◌>>=◌, ◌>>◌, check, draining, closing}
use dwnx.RecordReader.{State}
use dwnx.Conn.Read.{Reading, Flow, returns, again, at_end}
use dwnx.Conn.Read.Control.{
  read_qx_ping_seq, read_reset_stream_stream_id, read_reset_stream_app_error_code,
  read_reset_stream_final_size, read_stop_sending_stream_id, read_stop_sending_app_error_code,
  read_max_data_max_data, read_max_stream_data_stream_id, read_max_stream_data_max_stream_data,
  read_max_streams_max_streams, read_data_blocked_offset, read_stream_data_blocked_stream_id,
  read_stream_data_blocked_offset, read_streams_blocked_max_streams,
}
use dwnx.Conn.Read.Data.{
  read_stream_stream_id, read_stream_offset, read_stream_length, stream_data, read_datagram_len,
  datagram_data,
}
use dwnx.Conn.Read.Long.{
  read_qx_transport_parameters_len, params_bytes, read_connection_close_error_code,
  read_connection_close_frame_type, read_connection_close_reasonlen, close_reason,
}
use dwnx.Conn.Read.Start.{record_size, read_frame_type}

-- The `switch`.
unfoldable pub cases : ℕ → State → Reading → Result Flow
cases ts State.record_size r = record_size ts r
cases ts State.frame_type r = read_frame_type ts r
cases ts State.qx_transport_parameters_len r = read_qx_transport_parameters_len ts r
cases ts State.qx_transport_parameters_params r = params_bytes ts r
cases ts State.qx_ping_seq r = read_qx_ping_seq ts r
cases ts State.stream_stream_id r = read_stream_stream_id ts r
cases ts State.stream_offset r = read_stream_offset ts r
cases ts State.stream_length r = read_stream_length ts r
cases ts State.stream_data r = stream_data ts r
cases ts State.reset_stream_stream_id r = read_reset_stream_stream_id ts r
cases ts State.reset_stream_app_error_code r = read_reset_stream_app_error_code ts r
cases ts State.reset_stream_final_size r = read_reset_stream_final_size ts r
cases ts State.stop_sending_stream_id r = read_stop_sending_stream_id ts r
cases ts State.stop_sending_app_error_code r = read_stop_sending_app_error_code ts r
cases ts State.max_data_max_data r = read_max_data_max_data ts r
cases ts State.max_stream_data_stream_id r = read_max_stream_data_stream_id ts r
cases ts State.max_stream_data_max_stream_data r = read_max_stream_data_max_stream_data ts r
cases ts State.max_streams_max_streams r = read_max_streams_max_streams ts r
cases ts State.data_blocked_offset r = read_data_blocked_offset ts r
cases ts State.stream_data_blocked_stream_id r = read_stream_data_blocked_stream_id ts r
cases ts State.stream_data_blocked_offset r = read_stream_data_blocked_offset ts r
cases ts State.streams_blocked_max_streams r = read_streams_blocked_max_streams ts r
cases ts State.connection_close_error_code r = read_connection_close_error_code r
cases ts State.connection_close_frame_type r = read_connection_close_frame_type r
cases ts State.connection_close_reasonlen r = read_connection_close_reasonlen r
cases ts State.connection_close_reason r = close_reason r
cases ts State.datagram_len r = read_datagram_len ts r
cases ts State.datagram_data r = datagram_data ts r
cases ts State.draining r = ok (returns (some draining) r)
cases ts State.closing r = ok (returns (some closing) r)

-- What is returned, with the state.
abbrev pub Returned : Type 0
Returned = Option Error × Reading

abbrev pub go_on : (Reading → Result Returned) → Flow → Result Returned
go_on loop (returns code r) = ok (code, r)
go_on loop (again r) = loop r

-- `for (; p != end;)`
unfoldable pub rounds : ℕ → ℕ → Reading → Result Returned
unfolding cases
rounds zero ts r = if at_end r.p then ok (none, r) else fault
rounds (suc fuel) ts r =
    if at_end r.p then ok (none, r) else cases ts r.rcrd.state r >>= go_on (rounds fuel ts)

-- What a call without data returns.
abbrev pub idle_code : State → Option Error
idle_code State.draining = some draining
idle_code State.closing = some closing
idle_code _ = none

unfoldable pub conn_read : List ℕ → ℕ → Reading → Result Returned
unfolding rounds
conn_read bytes ts r =
    check (leb r.last_ts ts)
    >> (let r = record r { last_ts = ts; p = bytes } in
        if at_end bytes then ok (idle_code r.rcrd.state, r) else rounds (length bytes) ts r)
