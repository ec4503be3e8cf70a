-- ===== src/Frame/Parse/Long.antt =====
-- PADDING and the frames of QMux, parsed back.
use dwnx.Prelude.{ℕ, zero, suc, ◌≤◌, ◌≡◌, inl, inr, refl, ap, arith, List, ◌++◌, append_assoc, some}
use dwnx.Prelude.{length, drop, replicate}
use dwnx.Conv.Wire.{varint_bytes, parse_varint-varint_bytes}
use dwnx.Prelude.{ok}
use dwnx.TransportParams
use dwnx.TransportParams.{TransportParams}
use dwnx.TransportParams.Encoding.{params_bytes, length-params_bytes}
use dwnx.TransportParams.RoundTrip.{decode-params_bytes}
use dwnx.Frame
use dwnx.Frame.{Frame}
use dwnx.Frame.FrameType
use dwnx.Frame.Grammar.{
  parse_frame, parse_type, parse_padding, zeros, parse_qx_ping, parse_qx_transport_parameters,
  parse_params, parse_long,
}
use dwnx.Frame.Wire.{wire, IsEncodable, MayFollow, received}
use dwnx.Frame.Parse.Base.{RoundTrips, parse_bytes-append, parse_frame-long}

parse_params-ok :
    (bytes : List ℕ) (s : TransportParams)
    → TransportParams.decode bytes ≡ ok s
    → parse_params bytes ≡ some s
unfolding parse_params
parse_params-ok bytes s e = rw e

module _ (rest : List ℕ) where
  zeros-replicate : (n : ℕ) → zeros rest ≡ 0 → zeros (replicate n 0 ++ rest) ≡ n
  unfolding zeros
  zeros-replicate zero m = m
  zeros-replicate (suc n) m = ap suc (zeros-replicate n m)

  drop-replicate : (n : ℕ) → drop n (replicate n 0 ++ rest) ≡ rest
  drop-replicate zero = refl
  drop-replicate (suc n) = drop-replicate n

  padding_row :
      (n : ℕ)
      → 1 ≤ n
      → zeros rest ≡ 0
      → parse_frame (replicate n 0 ++ rest) ≡ some (Frame.padding (record { len = n }), rest)
  unfolding parse_frame parse_type parse_padding
  padding_row zero h m = ground arith
  padding_row (suc n) h m = rw (zeros-replicate n m, drop-replicate n)

  pub padding_lem :
      (fr : Frame.Padding)
      → IsEncodable (Frame.padding fr)
      → MayFollow (Frame.padding fr) rest
      → RoundTrips (Frame.padding fr) rest
  unfolding wire received
  padding_lem fr h m = padding_row fr.len h m

  pub qx_ping_lem :
      (fr : Frame.QxPing) → IsEncodable (Frame.qx_ping fr) → RoundTrips (Frame.qx_ping fr) rest
  unfolding parse_qx_ping parse_long wire received
  qx_ping_lem fr (inl e, h) = rw (
    append_assoc,
    parse_frame-long fr.type (varint_bytes fr.seq ++ rest) (inr (inl e)),
    e,
    parse_varint-varint_bytes FrameType.qx_ping_request (varint_bytes fr.seq ++ rest) (omega arith),
    parse_varint-varint_bytes fr.seq rest h,
  )
  qx_ping_lem fr (inr e, h) = rw (
    append_assoc,
    parse_frame-long fr.type (varint_bytes fr.seq ++ rest) (inr (inr e)),
    e,
    parse_varint-varint_bytes FrameType.qx_ping_response (varint_bytes fr.seq ++ rest)
        (omega arith),
    parse_varint-varint_bytes fr.seq rest h,
  )

  pub qx_transport_parameters_lem :
      (fr : Frame.QxTransportParameters)
      → IsEncodable (Frame.qx_transport_parameters fr)
      → RoundTrips (Frame.qx_transport_parameters fr) rest
  unfolding parse_qx_transport_parameters parse_params parse_long wire received
  qx_transport_parameters_lem fr (e, v) =
      let bytes = params_bytes fr.params in
      rw (
        append_assoc,
        append_assoc,
        parse_frame-long fr.type (varint_bytes (length bytes) ++ (bytes ++ rest)) (inl e),
        e,
        parse_varint-varint_bytes FrameType.qx_transport_parameters
            (varint_bytes (length bytes) ++ (bytes ++ rest)) (omega arith),
        parse_varint-varint_bytes (length bytes) (bytes ++ rest)
            (omega (arith, length-params_bytes fr.params)),
        parse_bytes-append _ bytes rest refl,
        parse_params-ok bytes fr.params (decode-params_bytes fr.params v),
      )
