-- ===== src/Conn/Read/Start.antt =====
-- The cases of dwnx_conn_read of lib/dwnx_conn.c that begin a record and a frame.
use dwnx.Prelude.{
  ℕ, zero, suc, ◌+◌, ◌-◌, ◌%◌, ◌^◌, bit_and, List, [], ◌∷◌, Bool, true, not, ◌||◌, ◌==◌,
  if◌then◌else◌, ltb, leb, drop, Option, none,
}
use dwnx.Prelude.{Result, ok, err, fault, ◌>>=◌, ◌>>◌, guard, check, proto, frame_encoding}
use dwnx.Frame.FrameType
use dwnx.VarintReader
use dwnx.VarintReader.{VarintReader}
use dwnx.RecordReader.{State}
use dwnx.Conn.Read.{
  Reading, Flow, returns, with_fr, advance, frame_done, more, break_to, fall_through, acc_value,
  varint_len_field,
}
use dwnx.Conn.Read.Data.{with_stream, with_datagram, datagram_begin}
use dwnx.Conn.Read.Long.{with_close}

-- The member of a frame is begun with its type, where the record goes on.
abbrev pub begin : State → Reading → Result Flow
begin state r = more r >> break_to state r

-- The bytes of padding, at most as many as the record has left.
abbrev pub zeros : ℕ → List ℕ → ℕ
zeros record_left [] = 0
zeros zero (b ∷ p) = 0
zeros (suc record_left) (b ∷ p) = if b == FrameType.padding then suc (zeros record_left p) else 0

unfoldable pub padding_type : ℕ → Reading → Result Flow
unfolding frame_done
padding_type ts r =
    let n = zeros r.rcrd.record_left r.p in
    frame_done ts (advance n (with_fr (record r.rcrd.fr { padding = record { len = 1 + n } }) r))

unfoldable pub params_type : Reading → Result Flow
params_type r =
    guard (not r.seen) proto >> begin State.qx_transport_parameters_len (record r { seen = true })

unfoldable pub ping_type : ℕ → Reading → Result Flow
ping_type vint r =
    let fr = record r.rcrd.fr.qx_ping { type = vint } in
    begin State.qx_ping_seq (with_fr (record r.rcrd.fr { qx_ping = fr }) r)

unfoldable pub max_streams_type : ℕ → Reading → Result Flow
max_streams_type vint r =
    let fr = record r.rcrd.fr.max_streams { type = vint } in
    begin State.max_streams_max_streams (with_fr (record r.rcrd.fr { max_streams = fr }) r)

unfoldable pub streams_blocked_type : ℕ → Reading → Result Flow
streams_blocked_type vint r =
    let fr = record r.rcrd.fr.streams_blocked { type = vint } in
    begin State.streams_blocked_max_streams (with_fr (record r.rcrd.fr { streams_blocked = fr }) r)

unfoldable pub close_type : ℕ → Reading → Result Flow
close_type vint r =
    begin State.connection_close_error_code
      (with_close (record r.rcrd.fr.connection_close { type = vint }) r)

-- A datagram without a length takes the rest of the record.
unfoldable pub datagram_type : ℕ → ℕ → Reading → Result Flow
unfolding datagram_begin
datagram_type ts vint r =
    let limit = r.conn.local_params.max_datagram_frame_size in
    let fr = record r.rcrd.fr.datagram { type = vint; len = r.rcrd.record_left } in
    guard (not (limit == 0 || ltb limit ((r.rcrd.typelen + r.rcrd.record_left) % 2 ^ 64))) proto
    >> datagram_begin ts r.rcrd.record_left (break_to State.datagram_data) (with_datagram fr r)

unfoldable pub datagram_len_type : ℕ → Reading → Result Flow
datagram_len_type vint r =
    let fr = record r.rcrd.fr.datagram { type = vint } in
    guard (not (leb r.conn.local_params.max_datagram_frame_size r.rcrd.typelen)) proto
    >> begin State.datagram_len (with_datagram fr r)

-- `vint & 0x7` are the flags of a STREAM frame.
unfoldable pub stream_type : ℕ → Reading → Result Flow
stream_type vint r =
    let flags = bit_and vint 7 in
    let fr = record r.rcrd.fr.stream {
      flags = flags;
      fin = FrameType.has_bit flags FrameType.fin_bit;
    } in
    begin State.stream_stream_id (with_stream fr r)

-- The types whose cases have no more than the test of the record and the state.
abbrev pub simple_state : ℕ → Option State
simple_state vint =
    if vint == FrameType.reset_stream
    then Option.some State.reset_stream_stream_id
    else if vint == FrameType.stop_sending
    then Option.some State.stop_sending_stream_id
    else if vint == FrameType.max_data
    then Option.some State.max_data_max_data
    else if vint == FrameType.max_stream_data
    then Option.some State.max_stream_data_stream_id
    else if vint == FrameType.data_blocked
    then Option.some State.data_blocked_offset
    else if vint == FrameType.stream_data_blocked
    then Option.some State.stream_data_blocked_stream_id
    else none

-- The default case: `vint & ~(DWNX_FRAME_STREAM - 1)` clears the three low bits.
unfoldable pub other_type : ℕ → Reading → Result Flow
unfolding stream_type
other_type vint r =
    if bit_and vint (2 ^ 64 - FrameType.stream) == FrameType.stream
    then stream_type vint r
    else err frame_encoding

abbrev pub simple_or_other : ℕ → Reading → Option State → Result Flow
simple_or_other vint r none = other_type vint r
simple_or_other vint r (Option.some state) = begin state r

-- The `switch` over the type.
unfoldable pub type_switch : ℕ → ℕ → Reading → Result Flow
unfolding other_type
type_switch ts vint r =
    if vint == FrameType.qx_transport_parameters
    then params_type r
    else if vint == FrameType.qx_ping_request || vint == FrameType.qx_ping_response
    then ping_type vint r
    else if vint == FrameType.padding
    then padding_type ts r
    else if vint == FrameType.max_streams_bidi || vint == FrameType.max_streams_uni
    then max_streams_type vint r
    else if vint == FrameType.streams_blocked_bidi || vint == FrameType.streams_blocked_uni
    then streams_blocked_type vint r
    else if vint == FrameType.connection_close || vint == FrameType.connection_close_app
    then close_type vint r
    else if vint == FrameType.datagram
    then datagram_type ts vint r
    else if vint == FrameType.datagram_len
    then datagram_len_type vint r
    else simple_or_other vint r (simple_state vint)

-- The first frame is that of the transport parameters.
unfoldable pub frame_type : ℕ → ℕ → ℕ → Reading → Result Flow
unfolding type_switch
frame_type ts vint vlen r =
    guard (r.seen || vint == FrameType.qx_transport_parameters) proto
    >> type_switch ts vint (record r { rcrd = record r.rcrd { typelen = vlen } })

abbrev pub read_frame_type : ℕ → Reading → Result Flow
read_frame_type ts = varint_len_field (frame_type ts)

-- A call that may not fail.
abbrev pub must {ℓ} : {A : Type ℓ} → Result A → Result A
must (ok a) = ok a
must (err e) = fault
must fault = fault

-- The size of a record that is not empty, and not larger than we allow.
unfoldable pub sized : ℕ → ℕ → Reading → Result Flow
unfolding frame_type
sized ts vint r =
    guard (not (ltb r.conn.local_params.max_record_size vint || vint == 0)) frame_encoding
    >> fall_through State.frame_type (read_frame_type ts)
        (record r { rcrd = record r.rcrd { record_left = vint } })

unfoldable pub size_read : ℕ → Reading → Result Flow
unfolding sized
size_read ts r =
    if VarintReader.done r.vird
    then acc_value r.vird.acc >>= (λ vint. sized ts vint (record r { vird = VarintReader.reset }))
    else ok (returns none r)

-- The size is not a part of the record.
unfoldable pub record_size : ℕ → Reading → Result Flow
unfolding size_read
record_size ts r = do
  (nread, vird) ← must (VarintReader.read r.vird r.p Bool.false)
  check (ltb 0 nread)
  size_read ts (record r { vird = vird; p = drop nread r.p })
