-- ===== src/Err.antt =====
-- lib/dwnx_err.c: the codes of includes/dwnx/dwnx.h without their sign, and the transport errors of QUIC
-- that stand for them. `dwnx_strerror` names them for people and is left out.
use dwnx.Prelude.{ℕ, Bool, ltb, Error}
use dwnx.Prelude.{
  invalid_argument, nobuf, proto, invalid_state, stream_id_blocked, stream_in_use,
  stream_data_blocked, flow_control, stream_limit, final_size, required_transport_param,
  malformed_transport_param, frame_encoding, stream_shut_wr, stream_not_found, stream_state,
  closing, draining, transport_param, internal, write_more, idle_close, fatal, nomem,
  callback_failure, failure,
}

-- A code is the negative of this number.
abbrev pub liberr : Error → ℕ
liberr invalid_argument = 201
liberr nobuf = 202
liberr proto = 203
liberr invalid_state = 204
liberr stream_id_blocked = 206
liberr stream_in_use = 207
liberr stream_data_blocked = 208
liberr flow_control = 209
liberr stream_limit = 211
liberr final_size = 212
liberr required_transport_param = 215
liberr malformed_transport_param = 216
liberr frame_encoding = 217
liberr stream_shut_wr = 219
liberr stream_not_found = 220
liberr stream_state = 221
liberr closing = 223
liberr draining = 224
liberr transport_param = 225
liberr internal = 228
liberr write_more = 230
liberr idle_close = 238
liberr fatal = 500
liberr nomem = 501
liberr callback_failure = 502
liberr failure = 1

-- `liberr < DWNX_ERR_FATAL`
abbrev pub err_is_fatal : Error → Bool
err_is_fatal e = ltb (liberr fatal) (liberr e)

-- dwnx_err_infer_quic_transport_error_code of an error.
unfoldable pub infer_quic_transport_error_code : Error → ℕ
infer_quic_transport_error_code frame_encoding = 0x7
infer_quic_transport_error_code flow_control = 0x3
infer_quic_transport_error_code stream_limit = 0x4
infer_quic_transport_error_code final_size = 0x6
infer_quic_transport_error_code required_transport_param = 0x8
infer_quic_transport_error_code malformed_transport_param = 0x8
infer_quic_transport_error_code transport_param = 0x8
infer_quic_transport_error_code invalid_argument = 0x1
infer_quic_transport_error_code nomem = 0x1
infer_quic_transport_error_code callback_failure = 0x1
infer_quic_transport_error_code internal = 0x1
infer_quic_transport_error_code stream_state = 0x5
infer_quic_transport_error_code e = 0xA
