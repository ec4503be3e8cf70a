-- ===== src/Conn/Close.antt =====
-- How the application ends a connection: dwnx_ccerr of includes/dwnx/dwnx.h, the error that a connection is
-- closed with, its setters and dwnx_conn_write_connection_close of lib/dwnx_conn.c.
mod Record
mod Runs
use dwnx.Prelude.{
  ℕ, Bool, true, false, not, ◌==◌, ◌||◌, if◌then◌else◌, ltb, leb, List, [], Option, none, some,
  length,
}
use dwnx.Prelude.{Error, Result, ok, err, ◌>>=◌, ◌>>◌, check, nobuf}
use dwnx.Err.{infer_quic_transport_error_code}
use dwnx.Frame
use dwnx.Frame.FrameType
use dwnx.Frame.{Frame}
use dwnx.Qre
use dwnx.Qre.{Qre, recordlen_size, start, encode_frame}
use dwnx.RecordReader.{State}
use dwnx.Conn.Read.{Reading, with_state}

pub data CcerrType : Type 0 where
  transport application idle_close : CcerrType

-- `reason` has `reasonlen` bytes.
pub record Ccerr : Type 0 where
  pub type : CcerrType
  pub error_code : ℕ
  pub frame_type : ℕ
  pub reason : List ℕ

-- ccerr_init
abbrev pub ccerr_init : CcerrType → ℕ → List ℕ → Ccerr
ccerr_init type error_code reason = record {
  type = type;
  error_code = error_code;
  frame_type = 0;
  reason = reason;
}

abbrev pub set_transport_error : ℕ → List ℕ → Ccerr
set_transport_error = ccerr_init CcerrType.transport

-- dwnx_ccerr_set_liberr
unfoldable pub set_liberr : Error → List ℕ → Ccerr
set_liberr Error.idle_close reason = ccerr_init CcerrType.idle_close 0 reason
set_liberr liberr reason = set_transport_error (infer_quic_transport_error_code liberr) reason

abbrev pub set_application_error : ℕ → List ℕ → Ccerr
set_application_error = ccerr_init CcerrType.application

-- The frame of dwnx_conn_write_connection_close, if it writes one.
abbrev pub close_frame : Ccerr → CcerrType → Option Frame.ConnectionClose
close_frame ccerr CcerrType.transport = some (record {
  type = FrameType.connection_close;
  error_code = ccerr.error_code;
  frame_type = ccerr.frame_type;
  reason = ccerr.reason;
})
close_frame ccerr CcerrType.application = some (record {
  type = FrameType.connection_close_app;
  error_code = ccerr.error_code;
  frame_type = 0;
  reason = ccerr.reason;
})
close_frame ccerr CcerrType.idle_close = none

abbrev pub is_ended : State → Bool
is_ended State.draining = true
is_ended State.closing = true
is_ended state = false

-- dwnx_qre_init
abbrev pub qre_init : Qre
qre_init = record { started = false; written = []; size = 0 }

-- The record with the frame, in the memory of `dest`, and its length.
abbrev pub write_frame : List ℕ → Frame → Result (ℕ × Qre)
write_frame dest fr = do
  qre ← start qre_init dest
  qre ← encode_frame qre fr
  (nwrite, qre) ← Qre.final qre
  check (not (nwrite == 0))
  ok (nwrite, qre)

-- The rest of dwnx_conn_write_connection_close from its `switch` on.
abbrev pub write_close :
    List ℕ → Option Frame.ConnectionClose → Reading → Result (ℕ × (List ℕ × Reading))
write_close dest none r = ok (0, ([], r))
write_close dest (some fr) r = do
  (nwrite, qre) ← write_frame dest (Frame.connection_close fr)
  ok (nwrite, (qre.written, with_state State.closing r))

-- dwnx_conn_write_connection_close on a buffer `dest`: the number that it returns, the bytes that it
-- writes and the state. With an error the state, of which the clock alone has moved, is left out.
unfoldable pub write_connection_close :
    List ℕ → Ccerr → ℕ → Reading → Result (ℕ × (List ℕ × Reading))
write_connection_close dest ccerr ts r =
    check (leb r.last_ts ts)
    >> (let r = record r { last_ts = ts } in
        if is_ended r.rcrd.state
        then ok (0, ([], r))
        else if leb (length dest) recordlen_size
        then err nobuf
        else write_close dest (close_frame ccerr ccerr.type) r)
