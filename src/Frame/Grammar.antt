-- ===== src/Frame/Grammar.antt =====
-- The frames as a grammar, read field by field from the front: what the decoders are to compute.
use dwnx.Prelude.{ℕ, zero, suc, ◌-◌, ◌/◌, ◌%◌, ◌^◌, bit_and, List, [], ◌∷◌, Bool, ◌||◌}
use dwnx.Prelude.{Option, none, some}
use dwnx.Prelude.{leb, ◌==◌, if◌then◌else◌, length, take, drop, Result, ok, err, fault}
use dwnx.Conv.Wire.{parse_varint}
use dwnx.TransportParams.{TransportParams}
use dwnx.TransportParams
use dwnx.Frame.{Frame}
use dwnx.Frame.FrameType

module _ {ℓ κ} {A : Type ℓ} {B : Type κ} where
  infixl 5 ◌>>=◌
  abbrev pub ◌>>=◌ : Option A → (A → Option B) → Option B
  none >>= next = none
  some field >>= next = next field

abbrev pub Parsed : Type 0
Parsed = Option (Frame × List ℕ)

-- `n` bytes, if there are as many.
abbrev pub parse_bytes : ℕ → List ℕ → Option (List ℕ × List ℕ)
parse_bytes n p = if leb n (length p) then some (take n p, drop n p) else none

unfoldable pub parse_max_data : List ℕ → Parsed
parse_max_data p = do
  (max_data, p) ← parse_varint p
  some (Frame.max_data (record { max_data = max_data }), p)

unfoldable pub parse_data_blocked : List ℕ → Parsed
parse_data_blocked p = do
  (max_data, p) ← parse_varint p
  some (Frame.data_blocked (record { max_data = max_data }), p)

unfoldable pub parse_max_streams : ℕ → List ℕ → Parsed
parse_max_streams type p = do
  (max_streams, p) ← parse_varint p
  some (Frame.max_streams (record { type = type; max_streams = max_streams }), p)

unfoldable pub parse_streams_blocked : ℕ → List ℕ → Parsed
parse_streams_blocked type p = do
  (max_streams, p) ← parse_varint p
  some (Frame.streams_blocked (record { type = type; max_streams = max_streams }), p)

unfoldable pub parse_stop_sending : List ℕ → Parsed
parse_stop_sending p = do
  (id, p) ← parse_varint p
  (code, p) ← parse_varint p
  some (Frame.stop_sending (record { stream_id = id; app_error_code = code }), p)

unfoldable pub parse_max_stream_data : List ℕ → Parsed
parse_max_stream_data p = do
  (id, p) ← parse_varint p
  (limit, p) ← parse_varint p
  some (Frame.max_stream_data (record { stream_id = id; max_stream_data = limit }), p)

unfoldable pub parse_stream_data_blocked : List ℕ → Parsed
parse_stream_data_blocked p = do
  (id, p) ← parse_varint p
  (limit, p) ← parse_varint p
  some (Frame.stream_data_blocked (record { stream_id = id; max_stream_data = limit }), p)

unfoldable pub parse_reset_stream : List ℕ → Parsed
parse_reset_stream p = do
  (id, p) ← parse_varint p
  (code, p) ← parse_varint p
  (size, p) ← parse_varint p
  some (Frame.reset_stream (record { stream_id = id; app_error_code = code; final_size = size }), p)

-- A field that stands in the frame only under a condition.
unfoldable pub parse_if : Bool → List ℕ → Option (ℕ × List ℕ)
parse_if there p = if there then parse_varint p else some (0, p)

-- A length field, or all that is left.
unfoldable pub parse_length : Bool → List ℕ → Option (ℕ × List ℕ)
parse_length there p = if there then parse_varint p else some (length p, p)

unfoldable pub parse_stream : ℕ → List ℕ → Parsed
parse_stream type p = do
  (id, p) ← parse_varint p
  (offset, p) ← parse_if (FrameType.has_bit type FrameType.off_bit) p
  (len, p) ← parse_length (FrameType.has_bit type FrameType.len_bit) p
  (bytes, rest) ← parse_bytes len p
  some (
    Frame.stream (record {
      flags = bit_and type (2 ^ 64 - 1 - FrameType.stream) % 2 ^ 8;
      fin = FrameType.has_bit type FrameType.fin_bit;
      stream_id = id;
      offset = offset;
      len = len;
      vecs = if len == 0 then [] else bytes ∷ [];
    }),
    rest,
  )

unfoldable pub parse_connection_close : ℕ → List ℕ → Parsed
parse_connection_close type p = do
  (code, p) ← parse_varint p
  (frame_type, p) ← parse_if (type == FrameType.connection_close) p
  (len, p) ← parse_varint p
  (reason, rest) ← parse_bytes len p
  some (
    Frame.connection_close
        (record { type = type; error_code = code; frame_type = frame_type; reason = reason }),
    rest,
  )

unfoldable pub parse_datagram : ℕ → List ℕ → Parsed
parse_datagram type p = do
  (len, p) ← parse_length (type == FrameType.datagram_len) p
  (bytes, rest) ← parse_bytes len p
  some (
    Frame.datagram (record { type = type; len = len; vecs = if len == 0 then [] else bytes ∷ [] }),
    rest,
  )

-- The zeros at the front.
unfoldable pub zeros : List ℕ → ℕ
zeros [] = 0
zeros (zero ∷ p) = suc (zeros p)
zeros (suc b ∷ p) = 0

-- Contiguous PADDING frames are one.
unfoldable pub parse_padding : List ℕ → Parsed
parse_padding p = some (Frame.padding (record { len = suc (zeros p) }), drop (zeros p) p)

abbrev pub to_option {ℓ} : {A : Type ℓ} → Result A → Option A
to_option (ok a) = some a
to_option (err e) = none
to_option fault = none

unfoldable pub parse_params : List ℕ → Option TransportParams
parse_params p = to_option (TransportParams.decode p)

-- The frames of types that take eight bytes, from the type on.
unfoldable pub parse_qx_transport_parameters : List ℕ → Parsed
parse_qx_transport_parameters p = do
  (type, p) ← parse_varint p
  (len, p) ← parse_varint p
  (bytes, rest) ← parse_bytes len p
  params ← parse_params bytes
  some (Frame.qx_transport_parameters (record { type = type; params = params }), rest)

unfoldable pub parse_qx_ping : List ℕ → Parsed
parse_qx_ping p = do
  (type, p) ← parse_varint p
  (seq, p) ← parse_varint p
  some (Frame.qx_ping (record { type = type; seq = seq }), p)

unfoldable pub parse_long : ℕ → List ℕ → Parsed
parse_long long_type p =
    if long_type == FrameType.qx_transport_parameters
    then parse_qx_transport_parameters p
    else if long_type == FrameType.qx_ping_request || long_type == FrameType.qx_ping_response
    then parse_qx_ping p
    else none

-- A frame by the first byte of its type, with `p` the bytes behind that.
unfoldable pub parse_type : ℕ → List ℕ → Parsed
parse_type type p =
    if type == FrameType.padding
    then parse_padding p
    else if type == FrameType.reset_stream
    then parse_reset_stream p
    else if type == FrameType.stop_sending
    then parse_stop_sending p
    else if type == FrameType.max_data
    then parse_max_data p
    else if type == FrameType.max_stream_data
    then parse_max_stream_data p
    else if type == FrameType.max_streams_bidi || type == FrameType.max_streams_uni
    then parse_max_streams type p
    else if type == FrameType.data_blocked
    then parse_data_blocked p
    else if type == FrameType.stream_data_blocked
    then parse_stream_data_blocked p
    else if type == FrameType.streams_blocked_bidi || type == FrameType.streams_blocked_uni
    then parse_streams_blocked type p
    else if type == FrameType.connection_close || type == FrameType.connection_close_app
    then parse_connection_close type p
    else if type == FrameType.datagram || type == FrameType.datagram_len
    then parse_datagram type p
    else if type / 8 == 1
    then parse_stream type p
    else ◌>>=◌ (parse_varint (type ∷ p)) (λ t. parse_long t.0 (type ∷ p))

unfoldable pub parse_frame : List ℕ → Parsed
parse_frame [] = none
parse_frame (type ∷ p) = parse_type type p
