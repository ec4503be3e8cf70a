-- ===== src/TransportParams/RoundTrip.antt =====
-- What is encoded decodes to the parameters that it was made from.
use dwnx.Prelude.{◌>>=◌}
use dwnx.TransportParams.{encode}
use dwnx.TransportParams.Encoding.{encode-bytes}
use dwnx.Prelude.{ℕ, zero, suc, ◌+◌, ◌/◌, ◌%◌, ◌≤◌, ◌<◌, ◌≡◌, refl, ap, ◌∙◌, arith}
use dwnx.Prelude.{List, [], ◌++◌, append_assoc, Bool, true, false, not}
use dwnx.Prelude.{leb, ◌==◌, le→leb, length, length-append, All, IsByte, All-append}
use dwnx.Prelude.{ok, ◌>>=◌}
use dwnx.Conv.Wire.{IsVarint, varint_bytes, varint_bytes-IsByte, length-varint_bytes}
use dwnx.Conv.Field.{Whole-varint_bytes}
use dwnx.TransportParams.{
  TransportParams, default_params, default_max_record_size, milliseconds, uint64_max, idle_timeout,
}
use dwnx.TransportParams.{encode}
use dwnx.TransportParams.{decode_varint, decode_varint_param, read_param, decode_value}
use dwnx.TransportParams.{decode_param, decode_loop, decode, any_value}
use dwnx.TransportParams.Bounds.{IsValid}
use dwnx.TransportParams.ParamId
use dwnx.TransportParams.Encoding.{
  value_bytes-IsByte, value_bytes, entry, params_bytes, entry-IsByte, value_bytes-IsByte,
  encode-bytes,
}

decode_varint-varint_bytes :
    (v : ℕ) (rest : List ℕ)
    → IsVarint v
    → All IsByte rest
    → decode_varint (varint_bytes v ++ rest) ≡ ok (v, rest)
unfolding decode_varint
decode_varint-varint_bytes v rest h b =
    let w = Whole-varint_bytes v rest h b in ground (arith, w.len, w.got, w.size, w.pos)

decode_varint_param-value_bytes :
    (v : ℕ) (rest : List ℕ)
    → IsVarint v
    → All IsByte rest
    → decode_varint_param (value_bytes v ++ rest) ≡ ok (v, rest)
unfolding decode_varint_param
decode_varint_param-value_bytes v rest h b =
    let w = Whole-varint_bytes v rest h b in
    ground (
      arith,
      append_assoc (varint_bytes (length (varint_bytes v))) (varint_bytes v) rest,
      decode_varint-varint_bytes (length (varint_bytes v)) (varint_bytes v ++ rest),
      length-varint_bytes v,
      All-append IsByte (varint_bytes v) rest (varint_bytes-IsByte v h) b,
      w.len,
      w.got,
      w.size,
      w.pos,
    )

read_param-value_bytes :
    (test : ℕ → Bool) (store : ℕ → TransportParams) (v : ℕ)
    → IsVarint v
    → test v ≡ true
    → (rest : List ℕ) → All IsByte rest
    → read_param test store (value_bytes v ++ rest) ≡ ok (store v, rest)
unfolding read_param
read_param-value_bytes test store v h t rest b = rw (decode_varint_param-value_bytes v rest h b, t)

idle_timeout-div :
    (t : ℕ) → t ≤ uint64_max → t % milliseconds ≡ 0 → idle_timeout (t / milliseconds) ≡ t
unfolding idle_timeout
idle_timeout-div t h e = ground arith

-- The idle timeout is rounded to milliseconds on the wire, and comes back whole.
idle_stored :
    (store : ℕ → TransportParams) (t : ℕ)
    → t ≤ uint64_max
    → t % milliseconds ≡ 0
    → (rest : List ℕ) → All IsByte rest
    → read_param any_value (λ v. store (idle_timeout v)) (value_bytes (t / milliseconds) ++ rest)
      ≡ ok (store t, rest)
idle_stored store t h e rest b =
    read_param-value_bytes any_value (λ v. store (idle_timeout v)) (t / milliseconds) (omega arith)
      (unfold any_value in refl) rest b
    ∙ ap (λ u. ok (store u, rest)) (idle_timeout-div t h e)

-- From `d` on, the bytes `p` decode to `s`, given enough fuel.
record Decodes (d : TransportParams) (p : List ℕ) (s : TransportParams) : Type 0 where
  bytes : All IsByte p
  run : (fuel : ℕ) → length p < fuel → decode_loop fuel d p ≡ ok s

decode_loop-nil : (s : TransportParams) (fuel : ℕ) → 0 < fuel → decode_loop fuel s [] ≡ ok s
unfolding decode_loop
decode_loop-nil s zero h = elim h [ ]
decode_loop-nil s (suc fuel) h = refl

Decodes-nil : (s : TransportParams) → Decodes s [] s
Decodes-nil s = record { bytes = tt; run = decode_loop-nil s }

decode_loop-step :
    (fuel : ℕ) (d : TransportParams) {d' : TransportParams} (p : List ℕ) {q : List ℕ}
    → 2 ≤ length p
    → decode_param d p ≡ ok (d', q)
    → decode_loop (suc fuel) d p ≡ decode_loop fuel d' q
unfolding decode_loop
decode_loop-step fuel d p h e = rw (le→leb 2 (length p) h, e)

length-entry : (id v : ℕ) (rest : List ℕ) → length rest + 2 ≤ length (entry true id v ++ rest)
unfolding entry
length-entry id v rest = omega (
  arith,
  length-append (varint_bytes id ++ value_bytes v) rest,
  length-append (varint_bytes id) (value_bytes v),
  length-append (varint_bytes (length (varint_bytes v))) (varint_bytes v),
  length-varint_bytes id,
  length-varint_bytes v,
)

-- A field that is left out has its default already; one that is there is stored.
module _ (d d' : TransportParams) (id v : ℕ) (hi : IsVarint id) (hv : IsVarint v) where
  module _
      (stored : (rest : List ℕ)
        → All IsByte rest
        → decode_value id d (value_bytes v ++ rest) ≡ ok (d', rest))
      {rest : List ℕ} {s : TransportParams} (next : Decodes d' rest s) where
    decode_param-entry : decode_param d (entry true id v ++ rest) ≡ ok (d', rest)
    unfolding decode_param entry
    decode_param-entry =
        rw
          (
            append_assoc (varint_bytes id) (value_bytes v) rest,
            decode_varint-varint_bytes id (value_bytes v ++ rest) hi
                (All-append IsByte (value_bytes v) rest (value_bytes-IsByte v hv) next.bytes),
          )
          (stored rest next.bytes)

    decode_loop-entry :
        (fuel : ℕ)
        → length (entry true id v ++ rest) < fuel
        → decode_loop fuel d (entry true id v ++ rest) ≡ ok s
    decode_loop-entry zero h = elim h [ ]
    decode_loop-entry (suc fuel) h =
        decode_loop-step fuel d (entry true id v ++ rest) (omega (arith, length-entry id v rest))
          decode_param-entry
        ∙ next.run fuel (omega (arith, length-entry id v rest))

    Decodes-entry :
        (present : Bool) → (present ≡ false → d' ≡ d) → Decodes d (entry present id v ++ rest) s
    Decodes-entry false same = unfold entry in rw (same refl) at next
    Decodes-entry true same = record {
      bytes = All-append IsByte _ rest (entry-IsByte true id v hi hv) next.bytes;
      run = decode_loop-entry;
    }

eq_of_absent : (n k : ℕ) → not (n == k) ≡ false → n ≡ k
eq_of_absent n k h = ground arith

-- One field of the encoder and the decoder: `x` is its value, `k` its default, `v` the wire value.
Decodes-field :
    (store : ℕ → TransportParams) (id x k v : ℕ)
    → IsVarint id
    → IsVarint v
    → ((rest : List ℕ)
        → All IsByte rest
        → decode_value id (store k) (value_bytes v ++ rest) ≡ ok (store x, rest))
    → {rest : List ℕ} {s : TransportParams} → Decodes (store x) rest s
    → Decodes (store k) (entry (not (x == k)) id v ++ rest) s
Decodes-field store id x k v hi hv stored next =
    Decodes-entry (store k) (store x) id v hi hv stored next (not (x == k))
      (λ e. ap store (eq_of_absent x k e))

-- The decoder's switch finds each field under the identifier that the encoder gives it.
Decodes-params_bytes : (s : TransportParams) → IsValid s → Decodes default_params (params_bytes s) s
unfolding params_bytes decode_value any_value
Decodes-params_bytes s h =
    let store1 : ℕ → TransportParams =
      λ t. record (default_params) { initial_max_stream_data_bidi_local = t } in
    let store2 : ℕ → TransportParams = λ t. record (store1 s.initial_max_stream_data_bidi_local) {
      initial_max_stream_data_bidi_remote = t;
    } in
    let store3 : ℕ → TransportParams = λ t. record (store2 s.initial_max_stream_data_bidi_remote) {
      initial_max_stream_data_uni = t;
    } in
    let store4 : ℕ → TransportParams =
      λ t. record (store3 s.initial_max_stream_data_uni) { initial_max_data = t } in
    let store5 : ℕ → TransportParams =
      λ t. record (store4 s.initial_max_data) { initial_max_streams_bidi = t } in
    let store6 : ℕ → TransportParams =
      λ t. record (store5 s.initial_max_streams_bidi) { initial_max_streams_uni = t } in
    let store7 : ℕ → TransportParams =
      λ t. record (store6 s.initial_max_streams_uni) { max_idle_timeout = t } in
    let store8 : ℕ → TransportParams =
      λ t. record (store7 s.max_idle_timeout) { max_record_size = t } in
    let store9 : ℕ → TransportParams =
      λ t. record (store8 s.max_record_size) { max_datagram_frame_size = t } in
    let from9 =
      Decodes-field store9 ParamId.max_datagram_frame_size s.max_datagram_frame_size 0
        s.max_datagram_frame_size (omega arith) h.datagram
        (read_param-value_bytes any_value store9 s.max_datagram_frame_size h.datagram refl)
        (Decodes-nil s) in
    let from8 =
      Decodes-field store8 ParamId.max_record_size s.max_record_size default_max_record_size
        s.max_record_size (omega arith) h.record_size
        (read_param-value_bytes any_value store8 s.max_record_size h.record_size refl) from9 in
    let from7 =
      Decodes-field store7 ParamId.max_idle_timeout s.max_idle_timeout 0
        (s.max_idle_timeout / milliseconds) (omega arith) (omega arith)
        (idle_stored store7 s.max_idle_timeout h.idle h.idle_unit) from8 in
    let from6 =
      Decodes-field store6 ParamId.initial_max_streams_uni s.initial_max_streams_uni 0
        s.initial_max_streams_uni (omega arith) (omega arith)
        (read_param-value_bytes (λ v. leb v ParamId.max_streams) store6 s.initial_max_streams_uni
          (omega arith) (le→leb _ _ h.streams_uni))
        from7 in
    let from5 =
      Decodes-field store5 ParamId.initial_max_streams_bidi s.initial_max_streams_bidi 0
        s.initial_max_streams_bidi (omega arith) (omega arith)
        (read_param-value_bytes (λ v. leb v ParamId.max_streams) store5 s.initial_max_streams_bidi
          (omega arith) (le→leb _ _ h.streams_bidi))
        from6 in
    let from4 =
      Decodes-field store4 ParamId.initial_max_data s.initial_max_data 0 s.initial_max_data
        (omega arith) h.data_limit
        (read_param-value_bytes any_value store4 s.initial_max_data h.data_limit refl) from5 in
    let from3 =
      Decodes-field store3 ParamId.initial_max_stream_data_uni s.initial_max_stream_data_uni 0
        s.initial_max_stream_data_uni (omega arith) h.uni
        (read_param-value_bytes any_value store3 s.initial_max_stream_data_uni h.uni refl) from4 in
    let from2 =
      Decodes-field store2 ParamId.initial_max_stream_data_bidi_remote
        s.initial_max_stream_data_bidi_remote 0 s.initial_max_stream_data_bidi_remote (omega arith)
        h.bidi_remote
        (read_param-value_bytes any_value store2 s.initial_max_stream_data_bidi_remote h.bidi_remote
          refl)
        from3 in
    let from1 =
      Decodes-field store1 ParamId.initial_max_stream_data_bidi_local
        s.initial_max_stream_data_bidi_local 0 s.initial_max_stream_data_bidi_local (omega arith)
        h.bidi_local
        (read_param-value_bytes any_value store1 s.initial_max_stream_data_bidi_local h.bidi_local
          refl)
        from2 in
    from1

pub decode-params_bytes : (s : TransportParams) → IsValid s → decode (params_bytes s) ≡ ok s
unfolding decode
decode-params_bytes s h =
    (Decodes-params_bytes s h).run (suc (length (params_bytes s))) (omega arith)

pub params_bytes-IsByte : (s : TransportParams) → IsValid s → All IsByte (params_bytes s)
params_bytes-IsByte s h = (Decodes-params_bytes s h).bytes

-- Decoding what dwnx_transport_params_encode writes for parameters in range, into a buffer with room
-- for them, gives the parameters back: both succeed.
pub decode-encode_params :
    (destlen : ℕ) (s : TransportParams)
    → IsValid s
    → length (params_bytes s) ≤ destlen
    → (encode destlen s >>= decode) ≡ ok s
decode-encode_params destlen s h fits =
    rw (encode-bytes s destlen h, le→leb (length (params_bytes s)) destlen fits)
      (decode-params_bytes s h)
