-- ===== src/Conn/Read/Long.antt =====
-- The cases of dwnx_conn_read of lib/dwnx_conn.c that may keep bytes in a buffer: those of the transport
-- parameters and of CONNECTION_CLOSE.
use dwnx.Prelude.{ℕ, List, [], not, ◌==◌, if◌then◌else◌, leb, length, take, none, some}
use dwnx.Prelude.{Result, ok, ◌>>◌, guard, draining, frame_encoding}
use dwnx.Frame
use dwnx.Frame.FrameType
use dwnx.RecordReader.{State, Buf, no_buf, buf_left, buf_append, buf_avail}
use dwnx.Conn.Setup.{recv_transport_params}
use dwnx.Conn.Read.{
  Reading, Flow, returns, with_state, with_fr, advance, more, break_to, fall_through, handled,
  varint_field,
}

abbrev pub with_buf : Buf → Reading → Reading
with_buf buf r = record r { rcrd = record r.rcrd { buf = buf } }

-- dwnx_buf_init
abbrev pub with_new_buf : ℕ → Reading → Reading
with_new_buf size r = with_buf (record no_buf { size = size }) r

-- What comes is copied to the buffer, as far as it goes.
abbrev pub buffered : Reading → Reading
buffered r =
    let len = buf_avail r.rcrd (length r.p) in
    advance len (with_buf (buf_append (take len r.p) r.rcrd.buf) r)

unfoldable pub params_kept : ℕ → Reading → Result Flow
params_kept ts r =
    if not (buf_left r.rcrd.buf == 0)
    then ok (returns none r)
    else handled ts (recv_transport_params r.rcrd.buf.bytes r.conn) r

unfoldable pub params_bytes : ℕ → Reading → Result Flow
unfolding params_kept
params_bytes ts r = params_kept ts (buffered r)

unfoldable pub params_len : ℕ → ℕ → Reading → Result Flow
unfolding params_bytes
params_len ts vint r =
    guard (leb vint r.rcrd.record_left) frame_encoding
    >> (if vint == 0
        then handled ts (recv_transport_params [] r.conn) r
        else if leb vint (length r.p)
        then handled ts (recv_transport_params (take vint r.p) r.conn) (advance vint r)
        else fall_through State.qx_transport_parameters_params (params_bytes ts)
            (with_new_buf vint r))

abbrev pub read_qx_transport_parameters_len : ℕ → Reading → Result Flow
read_qx_transport_parameters_len ts = varint_field (params_len ts)

abbrev pub with_close : Frame.ConnectionClose → Reading → Reading
with_close fr r = with_fr (record r.rcrd.fr { connection_close = fr }) r

-- `rcrd->state = DWNX_RECORD_READ_STATE_DRAINING; return DWNX_ERR_DRAINING;`, with the reason.
abbrev pub drained : List ℕ → Reading → Result Flow
drained reason r = ok (
    returns (some draining) (
      with_state State.draining
        (with_close (record r.rcrd.fr.connection_close { reason = reason }) r)))

unfoldable pub reason_kept : Reading → Result Flow
reason_kept r =
    if not (buf_left r.rcrd.buf == 0) then ok (returns none r) else drained r.rcrd.buf.bytes r

unfoldable pub close_reason : Reading → Result Flow
unfolding reason_kept
close_reason r = reason_kept (buffered r)

-- A reason that is there as a whole is not taken off the input.
unfoldable pub close_reasonlen : ℕ → Reading → Result Flow
unfolding close_reason
close_reasonlen vint r =
    guard (leb vint r.rcrd.record_left) frame_encoding
    >> (if leb vint (length r.p)
        then drained (take vint r.p) r
        else fall_through State.connection_close_reason close_reason (with_new_buf vint r))

abbrev pub read_connection_close_reasonlen : Reading → Result Flow
read_connection_close_reasonlen = varint_field close_reasonlen

unfoldable pub close_frame_type : ℕ → Reading → Result Flow
unfolding close_reasonlen
close_frame_type vint r =
    more r
    >> fall_through State.connection_close_reasonlen read_connection_close_reasonlen
        (with_close (record r.rcrd.fr.connection_close { frame_type = vint }) r)

abbrev pub read_connection_close_frame_type : Reading → Result Flow
read_connection_close_frame_type = varint_field close_frame_type

unfoldable pub close_error_code : ℕ → Reading → Result Flow
unfolding close_frame_type
close_error_code vint r =
    let r' = with_close (record r.rcrd.fr.connection_close { error_code = vint }) r in
    more r
    >> (if r.rcrd.fr.connection_close.type == FrameType.connection_close_app
        then break_to State.connection_close_reasonlen r'
        else fall_through State.connection_close_frame_type read_connection_close_frame_type r')

abbrev pub read_connection_close_error_code : Reading → Result Flow
read_connection_close_error_code = varint_field close_error_code
