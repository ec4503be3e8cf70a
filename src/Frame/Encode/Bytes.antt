-- ===== src/Frame/Encode/Bytes.antt =====
-- The encoders write the bytes of `Wire.wire`, or refuse a buffer that is too small.
use dwnx.Prelude.{ℕ, ◌≡◌, refl, arith, List, ◌++◌}
use dwnx.Prelude.{
  Bool, true, false, leb, if◌then◌else◌, Result, ok, err, nobuf, length, length-append,
  length-replicate,
}
use dwnx.Prelude.{guard, ◌>>◌, bit_or}
use dwnx.Conv.{put_uvarint, put_uvarintlen}
use dwnx.Conv.Wire.{IsVarint, varint_bytes}
use dwnx.Conv.RoundTrip.{put_uvarint-varint_bytes, put_uvarintlen-varint_bytes}
use dwnx.TransportParams.Encoding.{
  params_bytes, encode-bytes, encode_len-bytes, length-params_bytes,
}
use dwnx.Frame
use dwnx.Frame.{Frame}
use dwnx.Frame.FrameType
use dwnx.Frame.Encode.{
  finish, stream_flags, encode_qx_transport_parameters, encode_qx_ping, encode_padding,
  encode_reset_stream, encode_stop_sending, encode_max_data, encode_max_stream_data,
  encode_max_streams, encode_data_blocked, encode_stream_data_blocked, encode_streams_blocked,
}
use dwnx.Frame.Wire.{wire, stream_type, IsEncodable}

-- A buffer of `outlen` bytes gets the frame whole, or nothing.
abbrev pub placed : ℕ → List ℕ → Result (List ℕ)
placed outlen bytes = if leb (length bytes) outlen then ok bytes else err nobuf

-- What the two writers of a varint do on a number that has an encoding.
pub record Put (n : ℕ) : Type 0 where
  pub written : put_uvarint n ≡ ok (varint_bytes n)
  pub counted : put_uvarintlen n ≡ ok (length (varint_bytes n))

pub put : (n : ℕ) → IsVarint n → Put n
put n h = record {
  written = put_uvarint-varint_bytes n h;
  counted = put_uvarintlen-varint_bytes n h;
}

-- The last assertion holds where the bytes are as many as counted.
pub finish-placed :
    (outlen len : ℕ) (bytes : List ℕ)
    → len ≡ length bytes
    → (guard (leb len outlen) nobuf >> finish len bytes) ≡ placed outlen bytes
unfolding finish
finish-placed outlen len bytes e = ground arith

pub stream_flags-type :
    (fin off : Bool) → bit_or (stream_flags fin off) FrameType.stream ≡ stream_type fin off
unfolding stream_flags
stream_flags-type true true = refl
stream_flags-type true false = refl
stream_flags-type false true = refl
stream_flags-type false false = refl

module _ (outlen : ℕ) where
  pub encode_max_data-wire :
      (fr : Frame.MaxData)
      → IsEncodable (Frame.max_data fr)
      → encode_max_data outlen fr ≡ placed outlen (wire (Frame.max_data fr))
  unfolding encode_max_data finish wire
  encode_max_data-wire fr h = let p0 = put fr.max_data h in ground (arith, p0.written, p0.counted)

  pub encode_data_blocked-wire :
      (fr : Frame.DataBlocked)
      → IsEncodable (Frame.data_blocked fr)
      → encode_data_blocked outlen fr ≡ placed outlen (wire (Frame.data_blocked fr))
  unfolding encode_data_blocked finish wire
  encode_data_blocked-wire fr h =
      let p0 = put fr.max_data h in ground (arith, p0.written, p0.counted)

  pub encode_max_streams-wire :
      (fr : Frame.MaxStreams)
      → IsEncodable (Frame.max_streams fr)
      → encode_max_streams outlen fr ≡ placed outlen (wire (Frame.max_streams fr))
  unfolding encode_max_streams finish wire
  encode_max_streams-wire fr h =
      let p0 = put fr.max_streams h.1 in ground (arith, p0.written, p0.counted)

  pub encode_streams_blocked-wire :
      (fr : Frame.StreamsBlocked)
      → IsEncodable (Frame.streams_blocked fr)
      → encode_streams_blocked outlen fr ≡ placed outlen (wire (Frame.streams_blocked fr))
  unfolding encode_streams_blocked finish wire
  encode_streams_blocked-wire fr h =
      let p0 = put fr.max_streams h.1 in ground (arith, p0.written, p0.counted)

  pub encode_stop_sending-wire :
      (fr : Frame.StopSending)
      → IsEncodable (Frame.stop_sending fr)
      → encode_stop_sending outlen fr ≡ placed outlen (wire (Frame.stop_sending fr))
  unfolding encode_stop_sending finish wire
  encode_stop_sending-wire fr h =
      let p0 = put fr.stream_id h.0 in
      let p1 = put fr.app_error_code h.1 in
      ground (
        arith,
        p0.written,
        p0.counted,
        p1.written,
        p1.counted,
        length-append (varint_bytes fr.stream_id) (varint_bytes fr.app_error_code),
      )

  pub encode_max_stream_data-wire :
      (fr : Frame.MaxStreamData)
      → IsEncodable (Frame.max_stream_data fr)
      → encode_max_stream_data outlen fr ≡ placed outlen (wire (Frame.max_stream_data fr))
  unfolding encode_max_stream_data finish wire
  encode_max_stream_data-wire fr h =
      let p0 = put fr.stream_id h.0 in
      let p1 = put fr.max_stream_data h.1 in
      ground (
        arith,
        p0.written,
        p0.counted,
        p1.written,
        p1.counted,
        length-append (varint_bytes fr.stream_id) (varint_bytes fr.max_stream_data),
      )

  pub encode_stream_data_blocked-wire :
      (fr : Frame.StreamDataBlocked)
      → IsEncodable (Frame.stream_data_blocked fr)
      → encode_stream_data_blocked outlen fr ≡ placed outlen (wire (Frame.stream_data_blocked fr))
  unfolding encode_stream_data_blocked finish wire
  encode_stream_data_blocked-wire fr h =
      let p0 = put fr.stream_id h.0 in
      let p1 = put fr.max_stream_data h.1 in
      ground (
        arith,
        p0.written,
        p0.counted,
        p1.written,
        p1.counted,
        length-append (varint_bytes fr.stream_id) (varint_bytes fr.max_stream_data),
      )

  pub encode_reset_stream-wire :
      (fr : Frame.ResetStream)
      → IsEncodable (Frame.reset_stream fr)
      → encode_reset_stream outlen fr ≡ placed outlen (wire (Frame.reset_stream fr))
  unfolding encode_reset_stream finish wire
  encode_reset_stream-wire fr h =
      let p0 = put fr.stream_id h.0 in
      let p1 = put fr.app_error_code h.1 in
      let p2 = put fr.final_size h.2 in
      ground (
        arith,
        p0.written,
        p0.counted,
        p1.written,
        p1.counted,
        p2.written,
        p2.counted,
        length-append (varint_bytes fr.stream_id)
            (varint_bytes fr.app_error_code ++ (varint_bytes fr.final_size)),
        length-append (varint_bytes fr.app_error_code) (varint_bytes fr.final_size),
      )

  pub encode_qx_ping-wire :
      (fr : Frame.QxPing)
      → IsEncodable (Frame.qx_ping fr)
      → encode_qx_ping outlen fr ≡ placed outlen (wire (Frame.qx_ping fr))
  unfolding encode_qx_ping finish wire
  encode_qx_ping-wire fr h =
      let p0 = put fr.type (omega arith) in
      let p1 = put fr.seq h.1 in
      ground (
        arith,
        p0.written,
        p0.counted,
        p1.written,
        p1.counted,
        length-append (varint_bytes fr.type) (varint_bytes fr.seq),
      )

  pub encode_padding-wire :
      (fr : Frame.Padding)
      → IsEncodable (Frame.padding fr)
      → encode_padding outlen fr ≡ placed outlen (wire (Frame.padding fr))
  unfolding encode_padding finish wire
  encode_padding-wire fr h = ground (arith, length-replicate {A = ℕ} fr.len 0)

  pub encode_qx_transport_parameters-wire :
      (fr : Frame.QxTransportParameters)
      → IsEncodable (Frame.qx_transport_parameters fr)
      → encode_qx_transport_parameters outlen fr
        ≡ placed outlen (wire (Frame.qx_transport_parameters fr))
  unfolding encode_qx_transport_parameters finish wire
  encode_qx_transport_parameters-wire fr h =
      let n = length (params_bytes fr.params) in
      let p0 = put fr.type (omega arith) in
      let p1 = put n (omega (arith, length-params_bytes fr.params)) in
      ground (
        arith,
        p0.written,
        p0.counted,
        p1.written,
        p1.counted,
        encode_len-bytes fr.params h.1,
        encode-bytes fr.params n h.1,
        length-append (varint_bytes fr.type) (varint_bytes n ++ params_bytes fr.params),
        length-append (varint_bytes n) (params_bytes fr.params),
      )
