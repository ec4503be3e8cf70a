-- ===== src/Frame/Encode/Sound.antt =====
-- dwnx_frame_encode as a whole, with the frames that carry data.
use dwnx.Prelude.{ap, ok}
use dwnx.Frame.Encode.{datagram_framelen}
use dwnx.Prelude.{
  ℕ, ◌+◌, ◌%◌, ◌^◌, ◌<◌, ◌≡◌, refl, ==_iff, arith, [], List, ◌++◌, Bool, true, false, not, ◌==◌,
  if◌then◌else◌,
}
use dwnx.Prelude.{ap, ok}
use dwnx.Frame.Encode.{datagram_framelen}
use dwnx.Prelude.{ok, length, take, length-take, length-append}
use dwnx.Conv.{put_uvarint, put_uvarintlen}
use dwnx.Conv.Wire.{IsVarint, varint_bytes}
use dwnx.Frame
use dwnx.Frame.{Frame}
use dwnx.Frame.FrameType
use dwnx.Frame.Encode.{encode, encode_stream, encode_connection_close, encode_datagram}
use dwnx.Frame.Encode.CopyLoop.{copy_data-take, copy_all-concat, vec_len-concat}
use dwnx.Frame.Encode.Bytes.{placed, finish-placed, put, stream_flags-type}
use dwnx.Frame.Encode.Bytes.{
  encode_qx_transport_parameters-wire, encode_qx_ping-wire, encode_padding-wire,
  encode_reset_stream-wire, encode_stop_sending-wire, encode_max_data-wire,
  encode_max_stream_data-wire, encode_max_streams-wire, encode_data_blocked-wire,
  encode_stream_data_blocked-wire, encode_streams_blocked-wire,
}
use dwnx.Frame.Wire.{concat, wire, varint_if, IsEncodable}

-- The two calls for a field that stands in the frame only under a condition.
pub record PutIf (there : Bool) (n : ℕ) : Type 0 where
  pub written : (if there then put_uvarint n else ok []) ≡ ok (varint_if there n)
  pub counted : (if there then put_uvarintlen n else ok 0) ≡ ok (length (varint_if there n))

pub put_if : (there : Bool) (n : ℕ) → IsVarint n → PutIf there n
put_if true n h = record { written = (put n h).written; counted = (put n h).counted }
put_if false n h = record { written = refl; counted = refl }

pub length-row :
    (a b c d : List ℕ) → length (a ++ (b ++ (c ++ d))) ≡ length a + length b + length c + length d
length-row a b c d =
    omega (arith, length-append a (b ++ (c ++ d)), length-append b (c ++ d), length-append c d)

byte_type : (type : ℕ) → type < 256 → type % 2 ^ 8 ≡ type
byte_type type h = omega arith

module _ (outlen : ℕ) where
  encode_stream-wire :
      (fr : Frame.Stream)
      → IsEncodable (Frame.stream fr)
      → encode_stream outlen fr ≡ placed outlen (wire (Frame.stream fr))
  unfolding encode_stream wire
  encode_stream-wire fr (hi, ho, hl, fits, bytes) =
      let off = not (fr.offset == 0) in
      let po = put_if off fr.offset ho in
      rw
        (
          po.counted,
          (put fr.stream_id hi).counted,
          (put fr.len hl).counted,
          po.written,
          (put fr.stream_id hi).written,
          (put fr.len hl).written,
          stream_flags-type fr.fin off,
          copy_data-take fr.len fr.vecs,
        )
        (finish-placed outlen _ _ (
          omega (
            arith,
            length-row (varint_bytes fr.stream_id) (varint_if off fr.offset) (varint_bytes fr.len)
                (take fr.len (concat fr.vecs)),
            length-take fr.len (concat fr.vecs),
          )))

  encode_connection_close-wire :
      (fr : Frame.ConnectionClose)
      → IsEncodable (Frame.connection_close fr)
      → encode_connection_close outlen fr ≡ placed outlen (wire (Frame.connection_close fr))
  unfolding encode_connection_close wire
  encode_connection_close-wire fr (ht, hc, hf, hr, bytes) =
      let transport = fr.type == FrameType.connection_close in
      let pt = put_if transport fr.frame_type hf in
      rw
        (
          byte_type fr.type (omega arith),
          pt.counted,
          (put fr.error_code hc).counted,
          (put (length fr.reason) hr).counted,
          pt.written,
          (put fr.error_code hc).written,
          (put (length fr.reason) hr).written,
        )
        (finish-placed outlen _ _ (
          omega (
            arith,
            length-row (varint_bytes fr.error_code) (varint_if transport fr.frame_type)
                (varint_bytes (length fr.reason)) fr.reason,
          )))

  encode_datagram-wire :
      (fr : Frame.Datagram)
      → IsEncodable (Frame.datagram fr)
      → encode_datagram outlen fr ≡ placed outlen (wire (Frame.datagram fr))
  unfolding encode_datagram wire
  encode_datagram-wire fr (ht, hl, e, bytes) =
      let has_len = fr.type == FrameType.datagram_len in
      let pl = put_if has_len fr.len hl in
      rw
        (
          vec_len-concat fr.vecs (omega arith),
          (==_iff fr.len (length (concat fr.vecs))).1 e,
          byte_type fr.type (omega arith),
          pl.counted,
          pl.written,
          copy_all-concat fr.vecs,
        )
        (finish-placed outlen _ _
          (omega (arith, length-append (varint_if has_len fr.len) (concat fr.vecs))))

  -- dwnx_frame_encode writes the bytes of an encodable frame into a buffer that has room for them, and
  -- otherwise refuses with DWNX_ERR_NOBUF; its assertions on the length hold.
  pub encode-wire : (fr : Frame) → IsEncodable fr → encode outlen fr ≡ placed outlen (wire fr)
  unfolding encode
  encode-wire (Frame.qx_transport_parameters fr) h = encode_qx_transport_parameters-wire outlen fr h
  encode-wire (Frame.qx_ping fr) h = encode_qx_ping-wire outlen fr h
  encode-wire (Frame.padding fr) h = encode_padding-wire outlen fr h
  encode-wire (Frame.stream fr) h = encode_stream-wire fr h
  encode-wire (Frame.reset_stream fr) h = encode_reset_stream-wire outlen fr h
  encode-wire (Frame.stop_sending fr) h = encode_stop_sending-wire outlen fr h
  encode-wire (Frame.max_data fr) h = encode_max_data-wire outlen fr h
  encode-wire (Frame.max_stream_data fr) h = encode_max_stream_data-wire outlen fr h
  encode-wire (Frame.max_streams fr) h = encode_max_streams-wire outlen fr h
  encode-wire (Frame.data_blocked fr) h = encode_data_blocked-wire outlen fr h
  encode-wire (Frame.stream_data_blocked fr) h = encode_stream_data_blocked-wire outlen fr h
  encode-wire (Frame.streams_blocked fr) h = encode_streams_blocked-wire outlen fr h
  encode-wire (Frame.connection_close fr) h = encode_connection_close-wire fr h
  encode-wire (Frame.datagram fr) h = encode_datagram-wire fr h

-- The length that dwnx_frame_datagram_framelen computes is that of the bytes of a DATAGRAM frame with
-- its length in it.
pub datagram_framelen-wire :
    (fr : Frame.Datagram)
    → IsEncodable (Frame.datagram fr)
    → fr.type ≡ FrameType.datagram_len
    → datagram_framelen fr.len ≡ ok (length (wire (Frame.datagram fr)))
unfolding datagram_framelen wire
datagram_framelen-wire fr (ht, hl, e, bytes) t =
    rw (t, (put fr.len hl).counted)
      (ap ok (omega (arith, length-append (varint_bytes fr.len) (concat fr.vecs))))
