-- ===== src/Frame/Runs.antt =====
-- Concrete frames, written and read.
use dwnx.Prelude.{
  ℕ, ◌≡◌, refl, arith, [], ◌∷◌, ◌++◌, List, true, ok, ◌>>=◌, length, are_bytes-IsByte,
}
use dwnx.Frame
use dwnx.Frame.{Frame}
use dwnx.Frame.FrameType
use dwnx.Frame.Encode
use dwnx.Frame.Encode.{datagram_framelen}
use dwnx.Frame.Decode
use dwnx.Frame.Wire.{concat, wire, received}
use dwnx.Frame.Grammar.{parse_frame}
use dwnx.Frame.Encode.Bytes.{placed}
use dwnx.Frame.Encode.Sound.{encode-wire}
use dwnx.Frame.Decode.Fields.{report}
use dwnx.Frame.Decode.Sound.{decode-parse_frame}
use dwnx.Frame.RoundTrip.{decode-encode}

abbrev stream_vecs : List (List ℕ)
stream_vecs = (1 ∷ 2 ∷ 3 ∷ []) ∷ (4 ∷ 5 ∷ 6 ∷ []) ∷ []

-- The last five bytes of a stream, of which the sender has two vectors.
abbrev stream_frame : Frame
stream_frame =
    Frame.stream
      (record { flags = 0; fin = true; stream_id = 4; offset = 1000; len = 5; vecs = stream_vecs })

-- A MAX_DATA frame behind it.
abbrev behind : List ℕ
behind = 0x10 ∷ 0x40 ∷ 0x64 ∷ []

length-stream_frame : length (wire stream_frame) ≡ 10
unfolding wire dwnx.Conv.Wire.varint_bytes
length-stream_frame = refl

decode-encode_example :
    (do out ← Encode.encode 64 stream_frame; Decode.decode (out ++ behind))
    ≡ ok (received stream_frame, length (wire stream_frame))
decode-encode_example =
    decode-encode 64 stream_frame behind
      (
        omega arith,
        omega arith,
        omega arith,
        omega arith,
        are_bytes-IsByte (concat stream_vecs) refl,
      )
      tt (are_bytes-IsByte behind refl) (omega (arith, length-stream_frame))

decode-parse_frame_example : Decode.decode behind ≡ report (length behind) (parse_frame behind)
decode-parse_frame_example = decode-parse_frame behind (are_bytes-IsByte behind refl)

encode-wire_example : Encode.encode 64 stream_frame ≡ placed 64 (wire stream_frame)
encode-wire_example =
    encode-wire 64 stream_frame (
      omega arith,
      omega arith,
      omega arith,
      omega arith,
      are_bytes-IsByte (concat stream_vecs) refl,
    )

abbrev small_datagram : Frame.Datagram
small_datagram = record { type = FrameType.datagram_len; len = 2; vecs = (7 ∷ 8 ∷ []) ∷ [] }
