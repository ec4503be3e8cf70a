-- ===== src/TransportParams.antt =====
-- lib/dwnx_transport_params.c: QMux transport parameters, written and read as a sequence of
-- (id, length, value) triples. Durations are nanoseconds, on the wire milliseconds.
pub mod ParamId
pub mod Bounds
pub mod Encoding
pub mod RoundTrip
mod Runs
use dwnx.Prelude.{ℕ, zero, suc, ◌+◌, ◌*◌, ◌/◌, ◌-◌, ◌^◌, List, [], ◌∷◌, ◌++◌, Bool, true, not}
use dwnx.Prelude.{ltb, leb, ◌==◌, if◌then◌else◌, length}
use dwnx.Prelude.{Result, ok, err, fault, ◌>>=◌, ◌>>◌, guard, check, on_error, nobuf, failure}
use dwnx.Prelude.{malformed_transport_param}
use dwnx.Conv.{get_uvarint, get_uvarintlen, put_uvarint, put_uvarintlen, advance}
use dwnx.TransportParams.ParamId

pub record TransportParams : Type 0 where
  pub initial_max_stream_data_bidi_local : ℕ
  pub initial_max_stream_data_bidi_remote : ℕ
  pub initial_max_stream_data_uni : ℕ
  pub initial_max_data : ℕ
  pub initial_max_streams_bidi : ℕ
  pub initial_max_streams_uni : ℕ
  pub max_idle_timeout : ℕ
  pub max_record_size : ℕ
  pub max_datagram_frame_size : ℕ

-- DWNX_DEFAULT_MAX_RECORD_SIZE
abbrev pub default_max_record_size : ℕ
default_max_record_size = 16382

-- DWNX_MILLISECONDS, in nanoseconds
abbrev pub milliseconds : ℕ
milliseconds = 1000000

-- UINT64_MAX
abbrev pub uint64_max : ℕ
uint64_max = 2 ^ 64 - 1

-- dwnx_transport_params_default: the fields that the initialiser leaves out are 0.
abbrev pub default_params : TransportParams
default_params = record {
  initial_max_stream_data_bidi_local = 0;
  initial_max_stream_data_bidi_remote = 0;
  initial_max_stream_data_uni = 0;
  initial_max_data = 0;
  initial_max_streams_bidi = 0;
  initial_max_streams_uni = 0;
  max_idle_timeout = 0;
  max_record_size = default_max_record_size;
  max_datagram_frame_size = 0;
}

pub varint_paramlen : ℕ → ℕ → Result ℕ
varint_paramlen id param = do
  valuelen ← put_uvarintlen param
  idlen ← put_uvarintlen id
  lenlen ← put_uvarintlen valuelen
  ok (idlen + lenlen + valuelen)

pub write_varint_param : ℕ → ℕ → Result (List ℕ)
write_varint_param id value = do
  idbytes ← put_uvarint id
  valuelen ← put_uvarintlen value
  lenbytes ← put_uvarint valuelen
  bytes ← put_uvarint value
  ok (idbytes ++ (lenbytes ++ bytes))

-- `if (present) len += varint_paramlen(id, value);`
pub add_len : Bool → ℕ → ℕ → ℕ → Result ℕ
unfolding varint_paramlen
add_len present id value len =
    if present then (do n ← varint_paramlen id value; ok (len + n)) else ok len

-- `if (present) p = write_varint_param(p, id, value);`, with what was written so far.
pub add_param : Bool → ℕ → ℕ → List ℕ → Result (List ℕ)
unfolding write_varint_param
add_param present id value out =
    if present then (do bytes ← write_varint_param id value; ok (out ++ bytes)) else ok out

-- dwnx_transport_params_encode(NULL, 0, params): the length of the encoding.
pub encode_len : TransportParams → Result ℕ
encode_len s = do
  len ←
      add_len (not (s.initial_max_stream_data_bidi_local == 0))
        ParamId.initial_max_stream_data_bidi_local s.initial_max_stream_data_bidi_local 0
  len ←
      add_len (not (s.initial_max_stream_data_bidi_remote == 0))
        ParamId.initial_max_stream_data_bidi_remote s.initial_max_stream_data_bidi_remote len
  len ←
      add_len (not (s.initial_max_stream_data_uni == 0)) ParamId.initial_max_stream_data_uni
        s.initial_max_stream_data_uni len
  len ← add_len (not (s.initial_max_data == 0)) ParamId.initial_max_data s.initial_max_data len
  len ←
      add_len (not (s.initial_max_streams_bidi == 0)) ParamId.initial_max_streams_bidi
        s.initial_max_streams_bidi len
  len ←
      add_len (not (s.initial_max_streams_uni == 0)) ParamId.initial_max_streams_uni
        s.initial_max_streams_uni len
  len ←
      add_len (not (s.max_idle_timeout == 0)) ParamId.max_idle_timeout
        (s.max_idle_timeout / milliseconds) len
  len ←
      add_len (not (s.max_record_size == default_max_record_size)) ParamId.max_record_size
        s.max_record_size len
  add_len (not (s.max_datagram_frame_size == 0)) ParamId.max_datagram_frame_size
      s.max_datagram_frame_size len

-- The second half of dwnx_transport_params_encode: the bytes written.
pub write_params : TransportParams → Result (List ℕ)
write_params s = do
  p ←
      add_param (not (s.initial_max_stream_data_bidi_local == 0))
        ParamId.initial_max_stream_data_bidi_local s.initial_max_stream_data_bidi_local []
  p ←
      add_param (not (s.initial_max_stream_data_bidi_remote == 0))
        ParamId.initial_max_stream_data_bidi_remote s.initial_max_stream_data_bidi_remote p
  p ←
      add_param (not (s.initial_max_stream_data_uni == 0)) ParamId.initial_max_stream_data_uni
        s.initial_max_stream_data_uni p
  p ← add_param (not (s.initial_max_data == 0)) ParamId.initial_max_data s.initial_max_data p
  p ←
      add_param (not (s.initial_max_streams_bidi == 0)) ParamId.initial_max_streams_bidi
        s.initial_max_streams_bidi p
  p ←
      add_param (not (s.initial_max_streams_uni == 0)) ParamId.initial_max_streams_uni
        s.initial_max_streams_uni p
  p ←
      add_param (not (s.max_idle_timeout == 0)) ParamId.max_idle_timeout
        (s.max_idle_timeout / milliseconds) p
  p ←
      add_param (not (s.max_record_size == default_max_record_size)) ParamId.max_record_size
        s.max_record_size p
  add_param (not (s.max_datagram_frame_size == 0)) ParamId.max_datagram_frame_size
      s.max_datagram_frame_size p

-- dwnx_transport_params_encode into a buffer of `destlen` bytes.
pub encode : ℕ → TransportParams → Result (List ℕ)
encode destlen s = do
  len ← encode_len s
  guard (leb len destlen) nobuf
  p ← write_params s
  check (length p == len)
  ok p

-- The pointer stays before `end`, and reading at `end` is what the first test excludes.
pub decode_varint : List ℕ → Result (ℕ × List ℕ)
decode_varint p = do
  guard (ltb 0 (length p)) failure
  len ← get_uvarintlen p
  guard (leb len (length p)) failure
  get_uvarint p

pub decode_varint_param : List ℕ → Result (ℕ × List ℕ)
unfolding decode_varint
decode_varint_param p = do
  (valuelen, p) ← decode_varint p
  guard (ltb 0 (length p)) failure
  guard (leb valuelen (length p)) failure
  len ← get_uvarintlen p
  guard (len == valuelen) failure
  get_uvarint p

-- The parameter is read at `p`, checked by `test`, and stored by `store`.
pub read_param : (ℕ → Bool) → (ℕ → TransportParams) → List ℕ → Result (TransportParams × List ℕ)
unfolding decode_varint_param
read_param test store p = do
  (value, p) ← on_error malformed_transport_param (decode_varint_param p)
  guard (test value) malformed_transport_param
  ok (store value, p)

pub any_value : ℕ → Bool
any_value value = true

pub idle_timeout : ℕ → ℕ
idle_timeout value =
    if ltb (uint64_max / milliseconds) value
    then uint64_max / milliseconds * milliseconds
    else value * milliseconds

-- An unknown parameter is passed over.
pub skip_param : TransportParams → List ℕ → Result (TransportParams × List ℕ)
unfolding decode_varint
skip_param dest p = do
  (valuelen, p) ← on_error malformed_transport_param (decode_varint p)
  guard (leb valuelen (length p)) malformed_transport_param
  p ← advance valuelen p
  ok (dest, p)

-- The `switch` of the decoder's loop, at the bytes behind the identifier.
pub decode_value : ℕ → TransportParams → List ℕ → Result (TransportParams × List ℕ)
decode_value id d p =
    if id == ParamId.initial_max_stream_data_bidi_local
    then read_param any_value (λ v. record d { initial_max_stream_data_bidi_local = v }) p
    else if id == ParamId.initial_max_stream_data_bidi_remote
    then read_param any_value (λ v. record d { initial_max_stream_data_bidi_remote = v }) p
    else if id == ParamId.initial_max_stream_data_uni
    then read_param any_value (λ v. record d { initial_max_stream_data_uni = v }) p
    else if id == ParamId.initial_max_data
    then read_param any_value (λ v. record d { initial_max_data = v }) p
    else if id == ParamId.initial_max_streams_bidi
    then read_param (λ v. leb v ParamId.max_streams)
        (λ v. record d { initial_max_streams_bidi = v }) p
    else if id == ParamId.initial_max_streams_uni
    then read_param (λ v. leb v ParamId.max_streams) (λ v. record d { initial_max_streams_uni = v })
        p
    else if id == ParamId.max_idle_timeout
    then read_param any_value (λ v. record d { max_idle_timeout = idle_timeout v }) p
    else if id == ParamId.max_record_size
    then read_param any_value (λ v. record d { max_record_size = v }) p
    else if id == ParamId.max_datagram_frame_size
    then read_param any_value (λ v. record d { max_datagram_frame_size = v }) p
    else if ParamId.is_prohibited id
    then err malformed_transport_param
    else skip_param d p

-- One round of the decoder's loop.
pub decode_param : TransportParams → List ℕ → Result (TransportParams × List ℕ)
decode_param d p = do
  (id, p) ← on_error malformed_transport_param (decode_varint p)
  decode_value id d p

-- The loop, and the test behind it. Out of fuel it is a `fault`.
pub decode_loop : ℕ → TransportParams → List ℕ → Result TransportParams
decode_loop zero d p = fault
decode_loop (suc fuel) d p =
    let more = decode_param d p >>= (λ (r : TransportParams × List ℕ). decode_loop fuel r.0 r.1) in
    if leb 2 (length p) then more else if length p == 0 then ok d else err malformed_transport_param

-- A round takes a byte at least.
pub decode : List ℕ → Result TransportParams
unfolding decode_loop
decode p = decode_loop (suc (length p)) default_params p
