-- ===== src/Frame/Parse/Base.antt =====
-- What it is to parse a frame back, and the parsers of types and of data.
use dwnx.Prelude.{ℕ, ◌≡◌, ◌⊎◌, inl, inr, refl, subst, arith, List, [], ◌++◌, append-nil, some}
use dwnx.Prelude.{le→leb, length, length-append, take-append, drop-append}
use dwnx.Conv.Wire.{IsVarint, varint_bytes, parse_varint, parse_varint-varint_bytes}
use dwnx.Frame.{Frame}
use dwnx.Frame.FrameType
use dwnx.Frame.Grammar
use dwnx.Frame.Grammar.{
  parse_frame, parse_type, parse_max_data, parse_data_blocked, parse_max_streams,
  parse_streams_blocked, parse_stop_sending, parse_max_stream_data, parse_stream_data_blocked,
  parse_reset_stream, parse_if, parse_length, parse_bytes, parse_stream, parse_connection_close,
  parse_datagram, parse_padding, zeros, parse_qx_ping, parse_qx_transport_parameters, parse_params,
  parse_long,
}
use dwnx.Frame.Wire.{wire, received}

-- Parsing what a frame is on the wire gives what its receiver sees, and leaves the rest.
abbrev pub RoundTrips : Frame → List ℕ → Type 0
RoundTrips fr rest = parse_frame (wire fr ++ rest) ≡ some (received fr, rest)

pub parse_bytes-append :
    (n : ℕ) (bytes rest : List ℕ)
    → n ≡ length bytes
    → parse_bytes n (bytes ++ rest) ≡ some (bytes, rest)
parse_bytes-append n bytes rest e = rw (
  e,
  le→leb (length bytes) (length (bytes ++ rest)) (omega (arith, length-append bytes rest)),
  take-append bytes rest,
  drop-append bytes rest,
)

pub parse_bytes_all : (bytes : List ℕ) → parse_bytes (length bytes) bytes ≡ some (bytes, [])
parse_bytes_all bytes =
    subst (λ l. parse_bytes (length bytes) l ≡ some (bytes, [])) (append-nil bytes)
      (parse_bytes-append (length bytes) bytes [] refl)

abbrev pub IsLongType : ℕ → Type 0
IsLongType type =
    (type ≡ FrameType.qx_transport_parameters)
    ⊎ ((type ≡ FrameType.qx_ping_request) ⊎ (type ≡ FrameType.qx_ping_response))

IsVarint-IsLongType : (type : ℕ) → IsLongType type → IsVarint type
IsVarint-IsLongType type (inl e) = rw e (omega arith)
IsVarint-IsLongType type (inr (inl e)) = rw e (omega arith)
IsVarint-IsLongType type (inr (inr e)) = rw e (omega arith)

parse_frame-default :
    (type : ℕ) (q : List ℕ)
    → IsLongType type
    → parse_frame (varint_bytes type ++ q)
      ≡ Grammar.◌>>=◌
          (parse_varint (varint_bytes type ++ q))
          (λ t. parse_long t.0 (varint_bytes type ++ q))
unfolding parse_frame parse_type varint_bytes
parse_frame-default type q (inl e) = rw e
parse_frame-default type q (inr (inl e)) = rw e
parse_frame-default type q (inr (inr e)) = rw e

-- The frames whose types take eight bytes are parsed from the type on.
pub parse_frame-long :
    (type : ℕ) (q : List ℕ)
    → IsLongType type
    → parse_frame (varint_bytes type ++ q) ≡ parse_long type (varint_bytes type ++ q)
parse_frame-long type q h =
    rw (parse_frame-default type q h, parse_varint-varint_bytes type q (IsVarint-IsLongType type h))
