-- ===== src/TransportParams/Encoding.antt =====
-- What the encoder of transport parameters writes, and the lengths that it computes first.
use dwnx.Prelude.{ℕ, ◌+◌, ◌/◌, ◌≤◌, ◌≡◌, ap, arith}
use dwnx.Prelude.{List, [], ◌++◌, append_assoc, append-nil, Bool, true, false, not, if◌then◌else◌}
use dwnx.Prelude.{leb, ◌==◌, length, length-append, All, IsByte, All-append}
use dwnx.Prelude.{ok, err, nobuf}
use dwnx.Conv.Wire.{IsVarint, varint_bytes, varint_bytes-IsByte, length-varint_bytes}
use dwnx.Conv.RoundTrip.{put_uvarint-varint_bytes, put_uvarintlen-varint_bytes}
use dwnx.TransportParams.{TransportParams, default_max_record_size, milliseconds}
use dwnx.TransportParams.{
  varint_paramlen, write_varint_param, add_len, add_param, encode_len, write_params, encode,
}
use dwnx.TransportParams.Bounds.{IsValid}
use dwnx.TransportParams.ParamId

-- A parameter on the wire: its identifier, the length of its value, and its value.
abbrev pub value_bytes : ℕ → List ℕ
value_bytes v = varint_bytes (length (varint_bytes v)) ++ varint_bytes v

unfoldable pub entry : Bool → ℕ → ℕ → List ℕ
entry present id v = if present then varint_bytes id ++ value_bytes v else []

-- The encoding of parameters: those that differ from their defaults, in the order of the source.
unfoldable pub params_bytes : TransportParams → List ℕ
params_bytes s =
    entry (not (s.initial_max_stream_data_bidi_local == 0))
      ParamId.initial_max_stream_data_bidi_local s.initial_max_stream_data_bidi_local
    ++ (entry (not (s.initial_max_stream_data_bidi_remote == 0))
          ParamId.initial_max_stream_data_bidi_remote s.initial_max_stream_data_bidi_remote
        ++ (entry (not (s.initial_max_stream_data_uni == 0)) ParamId.initial_max_stream_data_uni
              s.initial_max_stream_data_uni
            ++ (entry (not (s.initial_max_data == 0)) ParamId.initial_max_data s.initial_max_data
                ++ (entry (not (s.initial_max_streams_bidi == 0)) ParamId.initial_max_streams_bidi
                      s.initial_max_streams_bidi
                    ++ (entry (not (s.initial_max_streams_uni == 0)) ParamId.initial_max_streams_uni
                          s.initial_max_streams_uni
                        ++ (entry (not (s.max_idle_timeout == 0)) ParamId.max_idle_timeout
                              (s.max_idle_timeout / milliseconds)
                            ++ (entry (not (s.max_record_size == default_max_record_size))
                                  ParamId.max_record_size s.max_record_size
                                ++ (entry (not (s.max_datagram_frame_size == 0))
                                      ParamId.max_datagram_frame_size s.max_datagram_frame_size
                                    ++ []))))))))

write_varint_param-bytes :
    (id v : ℕ)
    → IsVarint id
    → IsVarint v
    → write_varint_param id v ≡ ok (varint_bytes id ++ value_bytes v)
unfolding write_varint_param
write_varint_param-bytes id v hi hv = ground (
  arith,
  put_uvarint-varint_bytes id,
  put_uvarintlen-varint_bytes v,
  put_uvarint-varint_bytes v,
  length-varint_bytes v,
  put_uvarint-varint_bytes (length (varint_bytes v)),
)

add_param-entry :
    (present : Bool) (id v : ℕ) (out : List ℕ)
    → IsVarint id
    → IsVarint v
    → add_param present id v out ≡ ok (out ++ entry present id v)
unfolding add_param entry
add_param-entry true id v out hi hv = rw (write_varint_param-bytes id v hi hv)
add_param-entry false id v out hi hv = rw (append-nil out)

add_len-entry :
    (present : Bool) (id v len : ℕ)
    → IsVarint id
    → IsVarint v
    → add_len present id v len ≡ ok (len + length (entry present id v))
unfolding entry add_len varint_paramlen
add_len-entry false id v len hi hv = ap ok (omega arith)
add_len-entry true id v len hi hv = ground (
  arith,
  put_uvarintlen-varint_bytes id,
  put_uvarintlen-varint_bytes v,
  length-varint_bytes v,
  put_uvarintlen-varint_bytes (length (varint_bytes v)),
  length-append (varint_bytes id) (value_bytes v),
  length-append (varint_bytes (length (varint_bytes v))) (varint_bytes v),
)

write_params-bytes : (s : TransportParams) → IsValid s → write_params s ≡ ok (params_bytes s)
unfolding write_params params_bytes
write_params-bytes s h =
    rw
      (
        add_param-entry _ ParamId.initial_max_stream_data_bidi_local _ _ (omega arith) h.bidi_local,
        add_param-entry _ ParamId.initial_max_stream_data_bidi_remote _ _ (omega arith)
            h.bidi_remote,
        add_param-entry _ ParamId.initial_max_stream_data_uni _ _ (omega arith) h.uni,
        add_param-entry _ ParamId.initial_max_data _ _ (omega arith) h.data_limit,
        add_param-entry _ ParamId.initial_max_streams_bidi s.initial_max_streams_bidi _
            (omega arith) (omega arith),
        add_param-entry _ ParamId.initial_max_streams_uni s.initial_max_streams_uni _ (omega arith)
            (omega arith),
        add_param-entry _ ParamId.max_idle_timeout (s.max_idle_timeout / milliseconds) _
            (omega arith) (omega arith),
        add_param-entry _ ParamId.max_record_size _ _ (omega arith) h.record_size,
        add_param-entry _ ParamId.max_datagram_frame_size _ _ (omega arith) h.datagram,
      )
      (simp (append_assoc, append-nil))

pub encode_len-bytes :
    (s : TransportParams) → IsValid s → encode_len s ≡ ok (length (params_bytes s))
unfolding encode_len params_bytes
encode_len-bytes s h =
    rw
      (
        add_len-entry _ ParamId.initial_max_stream_data_bidi_local _ _ (omega arith) h.bidi_local,
        add_len-entry _ ParamId.initial_max_stream_data_bidi_remote _ _ (omega arith) h.bidi_remote,
        add_len-entry _ ParamId.initial_max_stream_data_uni _ _ (omega arith) h.uni,
        add_len-entry _ ParamId.initial_max_data _ _ (omega arith) h.data_limit,
        add_len-entry _ ParamId.initial_max_streams_bidi s.initial_max_streams_bidi _ (omega arith)
            (omega arith),
        add_len-entry _ ParamId.initial_max_streams_uni s.initial_max_streams_uni _ (omega arith)
            (omega arith),
        add_len-entry _ ParamId.max_idle_timeout (s.max_idle_timeout / milliseconds) _ (omega arith)
            (omega arith),
        add_len-entry _ ParamId.max_record_size _ _ (omega arith) h.record_size,
        add_len-entry _ ParamId.max_datagram_frame_size _ _ (omega arith) h.datagram,
      )
      (simp length-append (ap ok (omega arith)))

-- For parameters in range the two halves of dwnx_transport_params_encode agree, so that its last
-- `assert` holds: a buffer of `destlen` bytes gets the encoding, or is refused when it is too small.
pub encode-bytes :
    (s : TransportParams) (destlen : ℕ)
    → IsValid s
    → encode destlen s
      ≡ (if leb (length (params_bytes s)) destlen then ok (params_bytes s) else err nobuf)
unfolding encode
encode-bytes s destlen h = ground (arith, encode_len-bytes s h, write_params-bytes s h)

pub value_bytes-IsByte : (v : ℕ) → IsVarint v → All IsByte (value_bytes v)
value_bytes-IsByte v h =
    All-append IsByte (varint_bytes (length (varint_bytes v))) _
      (varint_bytes-IsByte _ (omega (arith, length-varint_bytes v))) (varint_bytes-IsByte v h)

pub entry-IsByte :
    (present : Bool) (id v : ℕ) → IsVarint id → IsVarint v → All IsByte (entry present id v)
unfolding entry
entry-IsByte false id v hi hv = tt
entry-IsByte true id v hi hv =
    All-append IsByte (varint_bytes id) _ (varint_bytes-IsByte id hi) (value_bytes-IsByte v hv)

length-entry : (present : Bool) (id v : ℕ) → length (entry present id v) ≤ 24
unfolding entry
length-entry false id v = omega arith
length-entry true id v = omega (
  arith,
  length-append (varint_bytes id) (value_bytes v),
  length-append (varint_bytes (length (varint_bytes v))) (varint_bytes v),
  length-varint_bytes id,
  length-varint_bytes v,
  length-varint_bytes (length (varint_bytes v)),
)

-- Nine parameters of at most 24 bytes.
pub length-params_bytes : (s : TransportParams) → length (params_bytes s) ≤ 216
unfolding params_bytes
length-params_bytes s = simp length-append (omega (arith, length-entry))
