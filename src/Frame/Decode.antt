-- ===== src/Frame/Decode.antt =====
-- The decoders of lib/dwnx_frame.c, from `payload`, all of it bytes of the buffer. A decoder returns
-- the frame and the number of bytes that it takes. It first walks over the variable-length fields to
-- see that they fit, and then reads them from the start.
pub mod Fields
pub mod Control
pub mod Data
pub mod Close
pub mod Long
pub mod Sound
use dwnx.Prelude.{ℕ, ◌+◌, ◌-◌, ◌%◌, ◌^◌, bit_and, List, [], ◌∷◌, Bool, not, ◌||◌, ◌&&◌}
use dwnx.Prelude.{ltb, leb, ◌==◌, if◌then◌else◌, length, take}
use dwnx.Prelude.{Result, ok, err, fault, ◌>>=◌, ◌>>◌, guard, check, on_error, frame_encoding}
use dwnx.Conv.{advance, get_uvarint, get_varint, get_uvarintlen}
use dwnx.TransportParams
use dwnx.Frame
use dwnx.Frame.{Frame, QxTransportParameters, QxPing, Padding, Stream, ResetStream, StopSending}
use dwnx.Frame.{MaxData, MaxStreamData, MaxStreams, DataBlocked, StreamDataBlocked, StreamsBlocked}
use dwnx.Frame.{ConnectionClose, Datagram}
use dwnx.Frame.FrameType

abbrev pub Decoded : Type 0
Decoded = Result (Frame × ℕ)

-- `n = dwnx_get_uvarintlen(p); len += n - 1; if (payloadlen < len) return ...;`, with `n` and `len`.
pub scan : ℕ → ℕ → List ℕ → Result (ℕ × ℕ)
scan payloadlen len p = do
  n ← get_uvarintlen p
  guard (leb (len + n - 1) payloadlen) frame_encoding
  ok (n, len + n - 1)

-- `if (payloadlen < len) return DWNX_ERR_FRAME_ENCODING;`
pub need : ℕ → ℕ → Result (Unit {0})
need len payloadlen = guard (leb len payloadlen) frame_encoding

-- `assert((size_t)(p - payload) == len); return len;`
pub finish : List ℕ → ℕ → List ℕ → Frame → Decoded
finish payload len p fr = do check (length payload - length p == len); ok (fr, len)

-- `for (; p != ep && *p == DWNX_FRAME_PADDING; ++p);`
pub skip_padding : List ℕ → List ℕ
skip_padding [] = []
skip_padding (b ∷ p) = let rest = skip_padding p in if b == FrameType.padding then rest else b ∷ p

pub decode_padding : List ℕ → Decoded
decode_padding payload = do
  check (ltb 0 (length payload))
  p ← advance 1 payload
  let len = length payload - length (skip_padding p)
  ok (Frame.padding (record { len = len }), len)

pub decode_qx_transport_parameters : List ℕ → Decoded
decode_qx_transport_parameters payload = do
  need 2 (length payload)
  (n, len) ← scan (length payload) 2 payload
  p ← advance n payload
  (n, len) ← scan (length payload) len p
  (vi, _) ← get_uvarint p
  guard (leb vi (length payload - len)) frame_encoding
  (type, p) ← get_uvarint payload
  p ← advance n p
  params ← on_error frame_encoding (TransportParams.decode (take vi p))
  p ← advance vi p
  finish payload (len + vi) p
      (Frame.qx_transport_parameters (record { type = type; params = params }))

pub decode_qx_ping : List ℕ → Decoded
decode_qx_ping payload = do
  need 2 (length payload)
  (n, len) ← scan (length payload) 2 payload
  p ← advance n payload
  (n, len) ← scan (length payload) len p
  (type, p) ← get_uvarint payload
  (seq, p) ← get_uvarint p
  finish payload len p (Frame.qx_ping (record { type = type; seq = seq }))

-- The type byte, `payload[0]`.
pub first_byte : List ℕ → Result ℕ
first_byte [] = fault
first_byte (b ∷ p) = ok b

-- One vector of `datalen` bytes at `p`, or none.
pub data_at : ℕ → List ℕ → List (List ℕ)
data_at datalen p = if datalen == 0 then [] else take datalen p ∷ []

-- The offset field of a STREAM frame, where its type says that there is one.
pub scan_offset : Bool → ℕ → ℕ → List ℕ → Result (ℕ × List ℕ)
scan_offset off payloadlen len p =
    if off
    then (do
      need (len + 1) payloadlen
      (n, len) ← scan payloadlen (len + 1) p
      p ← advance n p
      ok (len, p))
    else ok (len, p)

-- The length field, or all that is left: `(ndatalen, datalen, len)`.
pub scan_length : Bool → ℕ → ℕ → List ℕ → Result (ℕ × ℕ × ℕ)
scan_length has_len payloadlen len p =
    if has_len
    then (do
      need (len + 1) payloadlen
      (n, len) ← scan payloadlen (len + 1) p
      (vi, _) ← get_uvarint p
      guard (leb vi (payloadlen - len)) frame_encoding
      ok (n, vi, len + vi))
    else ok (0, 0, payloadlen)

pub decode_stream : List ℕ → Decoded
decode_stream payload = do
  need 2 (length payload)
  type ← first_byte payload
  let off = FrameType.has_bit type FrameType.off_bit
  let has_len = FrameType.has_bit type FrameType.len_bit
  start ← advance 1 payload
  (n, len) ← scan (length payload) 2 start
  p ← advance n start
  (len, p) ← scan_offset off (length payload) len p
  (ndatalen, datalen, len) ← scan_length has_len (length payload) len p
  (stream_id, p) ← get_varint start
  (offset, p) ← if off then get_uvarint p else ok (0, p)
  p ← if has_len then advance ndatalen p else ok p
  let datalen = if has_len then datalen else length p
  rest ← advance datalen p
  finish payload len rest (
      Frame.stream (record {
        flags = bit_and type (2 ^ 64 - 1 - FrameType.stream) % 2 ^ 8;
        fin = FrameType.has_bit type FrameType.fin_bit;
        stream_id = stream_id;
        offset = offset;
        len = datalen;
        vecs = data_at datalen p;
      }))

pub decode_reset_stream : List ℕ → Decoded
decode_reset_stream payload = do
  need 4 (length payload)
  start ← advance 1 payload
  (n, len) ← scan (length payload) 4 start
  p ← advance n start
  (n, len) ← scan (length payload) len p
  p ← advance n p
  (n, len) ← scan (length payload) len p
  (stream_id, p) ← get_varint start
  (app_error_code, p) ← get_uvarint p
  (final_size, p) ← get_uvarint p
  finish payload len p (
      Frame.reset_stream (record {
        stream_id = stream_id;
        app_error_code = app_error_code;
        final_size = final_size;
      }))

pub decode_stop_sending : List ℕ → Decoded
decode_stop_sending payload = do
  need 3 (length payload)
  start ← advance 1 payload
  (n, len) ← scan (length payload) 3 start
  p ← advance n start
  (n, len) ← scan (length payload) len p
  (stream_id, p) ← get_varint start
  (app_error_code, p) ← get_uvarint p
  finish payload len p
      (Frame.stop_sending (record { stream_id = stream_id; app_error_code = app_error_code }))

pub decode_max_data : List ℕ → Decoded
decode_max_data payload = do
  need 2 (length payload)
  p ← advance 1 payload
  (n, len) ← scan (length payload) 2 p
  (max_data, p) ← get_uvarint p
  finish payload len p (Frame.max_data (record { max_data = max_data }))

pub decode_max_stream_data : List ℕ → Decoded
decode_max_stream_data payload = do
  need 3 (length payload)
  start ← advance 1 payload
  (n, len) ← scan (length payload) 3 start
  p ← advance n start
  (n, len) ← scan (length payload) len p
  (stream_id, p) ← get_varint start
  (max_stream_data, p) ← get_uvarint p
  finish payload len p
      (Frame.max_stream_data (record { stream_id = stream_id; max_stream_data = max_stream_data }))

pub decode_max_streams : List ℕ → Decoded
decode_max_streams payload = do
  need 2 (length payload)
  p ← advance 1 payload
  (n, len) ← scan (length payload) 2 p
  type ← first_byte payload
  (max_streams, p) ← get_uvarint p
  finish payload len p (Frame.max_streams (record { type = type; max_streams = max_streams }))

pub decode_data_blocked : List ℕ → Decoded
decode_data_blocked payload = do
  need 2 (length payload)
  p ← advance 1 payload
  (n, len) ← scan (length payload) 2 p
  (max_data, p) ← get_uvarint p
  finish payload len p (Frame.data_blocked (record { max_data = max_data }))

pub decode_stream_data_blocked : List ℕ → Decoded
decode_stream_data_blocked payload = do
  need 3 (length payload)
  start ← advance 1 payload
  (n, len) ← scan (length payload) 3 start
  p ← advance n start
  (n, len) ← scan (length payload) len p
  (stream_id, p) ← get_varint start
  (max_stream_data, p) ← get_uvarint p
  finish payload len p (
      Frame.stream_data_blocked
        (record { stream_id = stream_id; max_stream_data = max_stream_data }))

pub decode_streams_blocked : List ℕ → Decoded
decode_streams_blocked payload = do
  need 2 (length payload)
  p ← advance 1 payload
  (n, len) ← scan (length payload) 2 p
  type ← first_byte payload
  (max_streams, p) ← get_uvarint p
  finish payload len p (Frame.streams_blocked (record { type = type; max_streams = max_streams }))

-- The frame type field of the CONNECTION_CLOSE of the transport; `++len` comes without a test.
pub scan_frame_type : Bool → ℕ → ℕ → List ℕ → Result (ℕ × List ℕ)
scan_frame_type transport payloadlen len p =
    if transport
    then (do (n, len) ← scan payloadlen (len + 1) p; p ← advance n p; ok (len, p))
    else ok (len, p)

pub decode_connection_close : List ℕ → Decoded
decode_connection_close payload = do
  need 3 (length payload)
  type ← first_byte payload
  let transport = type == FrameType.connection_close
  start ← advance 1 payload
  (n, len) ← scan (length payload) 3 start
  p ← advance n start
  (len, p) ← scan_frame_type transport (length payload) len p
  (nreasonlen, len) ← scan (length payload) len p
  (reasonlen, _) ← get_uvarint p
  guard (leb reasonlen (length payload - len)) frame_encoding
  (error_code, p) ← get_uvarint start
  (frame_type, p) ← if transport then get_uvarint p else ok (0, p)
  p ← advance nreasonlen p
  rest ← advance reasonlen p
  finish payload (len + reasonlen) rest (
      Frame.connection_close (record {
        type = type;
        error_code = error_code;
        frame_type = frame_type;
        reason = take reasonlen p;
      }))

-- `(datalen, len, p)` of a DATAGRAM frame.
pub scan_datagram : Bool → ℕ → List ℕ → Result (ℕ × ℕ × List ℕ)
scan_datagram has_len payloadlen p =
    if has_len
    then (do
      need 2 payloadlen
      (n, len) ← scan payloadlen 2 p
      (vi, p) ← get_uvarint p
      guard (leb vi (payloadlen - len)) frame_encoding
      ok (vi, len + vi, p))
    else ok (length p, payloadlen, p)

pub decode_datagram : List ℕ → Decoded
decode_datagram payload = do
  check (ltb 0 (length payload))
  type ← first_byte payload
  p ← advance 1 payload
  (datalen, len, p) ← scan_datagram (type == FrameType.datagram_len) (length payload) p
  rest ← advance datalen p
  finish payload len rest
      (Frame.datagram (record { type = type; len = datalen; vecs = data_at datalen p }))

-- The `switch` over a type that takes more than one byte.
pub decode_long_type : ℕ → List ℕ → Decoded
decode_long_type long_type payload =
    if long_type == FrameType.qx_transport_parameters
    then decode_qx_transport_parameters payload
    else if long_type == FrameType.qx_ping_request || long_type == FrameType.qx_ping_response
    then decode_qx_ping payload
    else err frame_encoding

-- The default case: the type as a variable-length integer.
pub decode_long : List ℕ → Decoded
decode_long payload = do
  vintlen ← get_uvarintlen payload
  guard (leb vintlen (length payload)) frame_encoding
  (long_type, _) ← get_uvarint payload
  decode_long_type long_type payload

-- The `switch` over the first byte; `type & ~(DWNX_FRAME_STREAM - 1)` clears the three low bits.
pub decode_type : ℕ → List ℕ → Decoded
decode_type type payload =
    if type == FrameType.padding
    then decode_padding payload
    else if type == FrameType.reset_stream
    then decode_reset_stream payload
    else if type == FrameType.stop_sending
    then decode_stop_sending payload
    else if type == FrameType.max_data
    then decode_max_data payload
    else if type == FrameType.max_stream_data
    then decode_max_stream_data payload
    else if type == FrameType.max_streams_bidi || type == FrameType.max_streams_uni
    then decode_max_streams payload
    else if type == FrameType.data_blocked
    then decode_data_blocked payload
    else if type == FrameType.stream_data_blocked
    then decode_stream_data_blocked payload
    else if type == FrameType.streams_blocked_bidi || type == FrameType.streams_blocked_uni
    then decode_streams_blocked payload
    else if type == FrameType.connection_close || type == FrameType.connection_close_app
    then decode_connection_close payload
    else if type == FrameType.datagram || type == FrameType.datagram_len
    then decode_datagram payload
    else if bit_and type (2 ^ 64 - FrameType.stream) == FrameType.stream
    then decode_stream payload
    else decode_long payload

-- dwnx_frd_decode
pub decode : List ℕ → Decoded
decode [] = err frame_encoding
decode (type ∷ p) = decode_type type (type ∷ p)
