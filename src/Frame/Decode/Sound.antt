-- ===== src/Frame/Decode/Sound.antt =====
-- dwnx_frd_decode as a whole.
use dwnx.Prelude.{
  ℕ, suc, ◌-◌, ◌/◌, ◌^◌, ◌≡◌, refl, arith, List, [], ◌∷◌, true, bit_and, ◌==◌, ◌||◌, if◌then◌else◌,
  passes, passes-below,
}
use dwnx.Prelude.{not, length, All, IsByte}
use dwnx.Frame.FrameType
use dwnx.Frame.Decode.{decode_type, decode}
use dwnx.Frame.Decode.Fields.{report, if_report}
use dwnx.Frame.Decode.Control.{decode_max_data-parse, decode_data_blocked-parse}
use dwnx.Frame.Decode.Control.{decode_max_streams-parse, decode_streams_blocked-parse}
use dwnx.Frame.Decode.Control.{decode_stop_sending-parse, decode_max_stream_data-parse}
use dwnx.Frame.Decode.Control.{decode_stream_data_blocked-parse, decode_reset_stream-parse}
use dwnx.Frame.Decode.Data.{decode_stream-parse}
use dwnx.Frame.Decode.Close.{decode_padding-parse, decode_connection_close-parse}
use dwnx.Frame.Decode.Close.{decode_datagram-parse}
use dwnx.Frame.Decode.Long.{decode_long-parse}
use dwnx.Frame.Grammar.{parse_type, parse_frame}

-- `(type & ~(DWNX_FRAME_STREAM - 1)) == DWNX_FRAME_STREAM` of a byte
is_stream_table :
    passes
      (λ b.
        let mask = bit_and b (2 ^ 64 - FrameType.stream) == FrameType.stream in
        let high = b / 8 == 1 in if mask then high else not high)
      256
    ≡ true
unfolding passes
is_stream_table = refl

is_stream :
    (b : ℕ) → IsByte b → (bit_and b (2 ^ 64 - FrameType.stream) == FrameType.stream) ≡ (b / 8 == 1)
is_stream b h = ground (arith, passes-below _ 256 b h is_stream_table)

decode_type-parse :
    (b : ℕ) (p : List ℕ)
    → IsByte b
    → All IsByte p
    → decode_type b (b ∷ p) ≡ report (suc (length p)) (parse_type b p)
unfolding decode_type parse_type
decode_type-parse b p hb h = if_report _ (b == FrameType.padding) _ _ (decode_padding-parse b p h) (
    if_report _ (b == FrameType.reset_stream) _ _ (decode_reset_stream-parse b p h) (
      if_report _ (b == FrameType.stop_sending) _ _ (decode_stop_sending-parse b p h) (
        if_report _ (b == FrameType.max_data) _ _ (decode_max_data-parse b p h) (
          if_report _ (b == FrameType.max_stream_data) _ _ (decode_max_stream_data-parse b p h) (
            if_report _ (b == FrameType.max_streams_bidi || b == FrameType.max_streams_uni) _ _
              (decode_max_streams-parse b p h)
              (if_report _ (b == FrameType.data_blocked) _ _ (decode_data_blocked-parse b p h) (
                if_report _ (b == FrameType.stream_data_blocked) _ _
                  (decode_stream_data_blocked-parse b p h)
                  (if_report _
                    (b == FrameType.streams_blocked_bidi || b == FrameType.streams_blocked_uni) _ _
                    (decode_streams_blocked-parse b p h)
                    (if_report _
                      (b == FrameType.connection_close || b == FrameType.connection_close_app) _ _
                      (decode_connection_close-parse b p h)
                      (if_report _ (b == FrameType.datagram || b == FrameType.datagram_len) _ _
                        (decode_datagram-parse b p h)
                        (rw (is_stream b hb) (
                          if_report _ (b / 8 == 1) _ _ (decode_stream-parse b p h)
                            (decode_long-parse (b ∷ p) (hb, h) (omega arith))))))))))))))

-- On any buffer of bytes dwnx_frd_decode returns what the grammar of frames says: the frame at the
-- front and the number of bytes that it takes, or DWNX_ERR_FRAME_ENCODING where no frame can be
-- parsed. In particular it neither reads outside of the buffer nor fails an assertion.
pub decode-parse_frame :
    (payload : List ℕ)
    → All IsByte payload
    → decode payload ≡ report (length payload) (parse_frame payload)
unfolding decode parse_frame report
decode-parse_frame [] h = refl
decode-parse_frame (b ∷ p) h = decode_type-parse b p h.0 h.1
