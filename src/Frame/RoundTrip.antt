-- ===== src/Frame/RoundTrip.antt =====
-- A frame that is encoded and decoded again, with other frames behind it.
use dwnx.Prelude.{ℕ, zero, suc, ◌≡◌, ap, arith, List, ◌++◌, some}
use dwnx.Prelude.{
  Bool, true, false, not, ◌==◌, length, take, replicate, length-append, All, IsByte, All-append,
  All-take,
}
use dwnx.Conv.Wire.{IsVarint, varint_bytes, varint_bytes-IsByte}
use dwnx.TransportParams.Encoding.{params_bytes, length-params_bytes}
use dwnx.TransportParams.RoundTrip.{params_bytes-IsByte}
use dwnx.Frame.{Frame}
use dwnx.Frame.FrameType
use dwnx.Frame.Wire.{concat, wire, stream_type, varint_if, IsEncodable, MayFollow, received}
use dwnx.Prelude.{ok}
use dwnx.Prelude.{◌>>=◌, ◌≤◌, le→leb}
use dwnx.Frame.Parse.{parse_frame-wire}
use dwnx.Frame.Encode
use dwnx.Frame.Decode
use dwnx.Frame.Encode.Sound.{encode-wire}
use dwnx.Frame.Decode.Fields.{report}
use dwnx.Frame.Decode.Sound.{decode-parse_frame}

bytes_row : (xs ys : List ℕ) → All IsByte xs → All IsByte ys → All IsByte (xs ++ ys)
bytes_row xs ys = All-append IsByte xs ys

zeros-IsByte : (n : ℕ) → All IsByte (replicate n 0)
zeros-IsByte zero = tt
zeros-IsByte (suc n) = (omega arith, zeros-IsByte n)

varint_if-IsByte : (there : Bool) (n : ℕ) → IsVarint n → All IsByte (varint_if there n)
varint_if-IsByte true n h = varint_bytes-IsByte n h
varint_if-IsByte false n h = tt

two-IsByte : (m n : ℕ) → IsVarint m → IsVarint n → All IsByte (varint_bytes m ++ varint_bytes n)
two-IsByte m n h k =
    bytes_row (varint_bytes m) (varint_bytes n) (varint_bytes-IsByte m h) (varint_bytes-IsByte n k)

stream_type-IsByte : (fin off : Bool) → IsByte (stream_type fin off)
stream_type-IsByte fin off = ground arith

wire-IsByte : (fr : Frame) → IsEncodable fr → All IsByte (wire fr)
unfolding wire
wire-IsByte (Frame.qx_transport_parameters fr) (e, h) =
    let bytes = params_bytes fr.params in
    bytes_row (varint_bytes fr.type) (varint_bytes (length bytes) ++ bytes)
      (varint_bytes-IsByte fr.type (omega arith))
      (bytes_row (varint_bytes (length bytes)) bytes
        (varint_bytes-IsByte (length bytes) (omega (arith, length-params_bytes fr.params)))
        (params_bytes-IsByte fr.params h))
wire-IsByte (Frame.qx_ping fr) (e, h) = two-IsByte fr.type fr.seq (omega arith) h
wire-IsByte (Frame.padding fr) h = zeros-IsByte fr.len
wire-IsByte (Frame.stream fr) (h, k, l, m, b) =
    let off = not (fr.offset == 0) in
    let bytes = take fr.len (concat fr.vecs) in
    (
      stream_type-IsByte fr.fin off,
      bytes_row (varint_bytes fr.stream_id)
          (varint_if off fr.offset ++ (varint_bytes fr.len ++ bytes))
          (varint_bytes-IsByte fr.stream_id h)
          (bytes_row (varint_if off fr.offset) (varint_bytes fr.len ++ bytes)
            (varint_if-IsByte off fr.offset k)
            (bytes_row (varint_bytes fr.len) bytes (varint_bytes-IsByte fr.len l)
              (All-take IsByte fr.len (concat fr.vecs) b))),
    )
wire-IsByte (Frame.reset_stream fr) (h, k, l) = (
  omega arith,
  bytes_row (varint_bytes fr.stream_id)
      (varint_bytes fr.app_error_code ++ varint_bytes fr.final_size)
      (varint_bytes-IsByte fr.stream_id h) (two-IsByte fr.app_error_code fr.final_size k l),
)
wire-IsByte (Frame.stop_sending fr) (h, k) =
    (omega arith, two-IsByte fr.stream_id fr.app_error_code h k)
wire-IsByte (Frame.max_data fr) h = (omega arith, varint_bytes-IsByte fr.max_data h)
wire-IsByte (Frame.max_stream_data fr) (h, k) =
    (omega arith, two-IsByte fr.stream_id fr.max_stream_data h k)
wire-IsByte (Frame.max_streams fr) (e, h) = (omega arith, varint_bytes-IsByte fr.max_streams h)
wire-IsByte (Frame.data_blocked fr) h = (omega arith, varint_bytes-IsByte fr.max_data h)
wire-IsByte (Frame.stream_data_blocked fr) (h, k) =
    (omega arith, two-IsByte fr.stream_id fr.max_stream_data h k)
wire-IsByte (Frame.streams_blocked fr) (e, h) = (omega arith, varint_bytes-IsByte fr.max_streams h)
wire-IsByte (Frame.connection_close fr) (e, h, k, l, b) =
    let transport = fr.type == FrameType.connection_close in
    (
      omega arith,
      bytes_row (varint_bytes fr.error_code)
          (varint_if transport fr.frame_type ++ (varint_bytes (length fr.reason) ++ fr.reason))
          (varint_bytes-IsByte fr.error_code h)
          (bytes_row (varint_if transport fr.frame_type)
            (varint_bytes (length fr.reason) ++ fr.reason)
            (varint_if-IsByte transport fr.frame_type k)
            (bytes_row (varint_bytes (length fr.reason)) fr.reason
              (varint_bytes-IsByte (length fr.reason) l) b)),
    )
wire-IsByte (Frame.datagram fr) (e, h, k, b) = (
  omega arith,
  bytes_row (varint_if (fr.type == FrameType.datagram_len) fr.len) (concat fr.vecs)
      (varint_if-IsByte (fr.type == FrameType.datagram_len) fr.len h) b,
)

report-append :
    (bytes rest : List ℕ) (fr : Frame)
    → report (length (bytes ++ rest)) (some (fr, rest)) ≡ ok (fr, length bytes)
unfolding report
report-append bytes rest fr = ap (λ n. ok (fr, n)) (omega (arith, length-append bytes rest))

-- What dwnx_frame_encode writes for an encodable frame into a buffer with room for it, dwnx_frd_decode
-- reads again with any bytes behind it that may follow the frame: the two succeed, and the decoder
-- returns the frame as a receiver sees it and the number of bytes that the frame takes.
pub decode-encode :
    (outlen : ℕ) (fr : Frame) (rest : List ℕ)
    → IsEncodable fr
    → MayFollow fr rest
    → All IsByte rest
    → length (wire fr) ≤ outlen
    → (do out ← Encode.encode outlen fr; Decode.decode (out ++ rest))
      ≡ ok (received fr, length (wire fr))
decode-encode outlen fr rest h m b fits = rw (
  encode-wire outlen fr h,
  le→leb (length (wire fr)) outlen fits,
  decode-parse_frame (wire fr ++ rest) (bytes_row (wire fr) rest (wire-IsByte fr h) b),
  parse_frame-wire rest fr h m,
  report-append (wire fr) rest (received fr),
)
