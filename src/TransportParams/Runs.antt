-- ===== src/TransportParams/Runs.antt =====
-- The transport parameters of a small endpoint, written and read.
use dwnx.Prelude.{
  ℕ, ◌≡◌, refl, arith, [], ◌∷◌, List, ok, err, nobuf, ◌>>=◌, are_bytes-IsByte, length, leb,
  if◌then◌else◌,
}
use dwnx.TransportParams.{TransportParams, encode, decode, default_params}
use dwnx.TransportParams.Bounds.{IsValid, Decoded, decode-Decoded}
use dwnx.TransportParams.Encoding.{params_bytes, encode-bytes, length-params_bytes}
use dwnx.TransportParams.RoundTrip.{decode-encode_params}

-- An idle timeout of 30 seconds, ten streams and a large record.
abbrev small_params : TransportParams
small_params = record default_params {
  initial_max_stream_data_bidi_local = 65536;
  initial_max_data = 1048576;
  initial_max_streams_bidi = 10;
  max_idle_timeout = 30000000000;
  max_record_size = 32768;
}

small_params-IsValid : IsValid small_params
small_params-IsValid = record {
  bidi_local = omega arith;
  bidi_remote = omega arith;
  uni = omega arith;
  data_limit = omega arith;
  streams_bidi = omega arith;
  streams_uni = omega arith;
  idle = omega arith;
  idle_unit = refl;
  record_size = omega arith;
  datagram = omega arith;
}

-- An initial_max_data of two bytes, and a parameter that is cut short.
abbrev cut_params : List ℕ
cut_params = 4 ∷ 2 ∷ 0x7b ∷ 0xbd ∷ 8 ∷ 1 ∷ []

decode-encode_params_example : (encode 256 small_params >>= decode) ≡ ok small_params
decode-encode_params_example =
    decode-encode_params 256 small_params small_params-IsValid
      (omega (arith, length-params_bytes small_params))

decode-Decoded_example : Decoded (decode cut_params)
decode-Decoded_example = decode-Decoded cut_params (are_bytes-IsByte cut_params refl)

encode-bytes_example : encode 8 small_params ≡ (
    if leb (length (params_bytes small_params)) 8
    then ok (params_bytes small_params)
    else err nobuf)
encode-bytes_example = encode-bytes small_params 8 small_params-IsValid
