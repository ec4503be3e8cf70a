-- ===== src/Frame/Encode.antt =====
-- The encoders of lib/dwnx_frame.c. An encoder returns the bytes that it writes at `out`; their
-- number is the C function's return value.
pub mod CopyLoop
pub mod Bytes
pub mod Sound
use dwnx.Prelude.{ℕ, ◌+◌, ◌-◌, ◌%◌, ◌^◌, min, bit_or, List, [], ◌∷◌, ◌++◌, Bool, not}
use dwnx.Prelude.{leb, ◌==◌, if◌then◌else◌, length, take, replicate}
use dwnx.Prelude.{Result, ok, ◌>>=◌, ◌>>◌, guard, check, nobuf}
use dwnx.Conv.{put_uvarint, put_uvarintlen}
use dwnx.TransportParams
use dwnx.Frame
use dwnx.Frame.{Frame, QxTransportParameters, QxPing, Padding, Stream, ResetStream, StopSending}
use dwnx.Frame.{MaxData, MaxStreamData, MaxStreams, DataBlocked, StreamDataBlocked, StreamsBlocked}
use dwnx.Frame.{ConnectionClose, Datagram}
use dwnx.Frame.FrameType

-- `assert((size_t)(p - out) == len); return len;`
pub finish : ℕ → List ℕ → Result (List ℕ)
finish len out = do check (length out == len); ok out

pub encode_qx_transport_parameters : ℕ → QxTransportParameters → Result (List ℕ)
encode_qx_transport_parameters outlen fr = do
  paramslen ← TransportParams.encode_len fr.params
  typelen ← put_uvarintlen fr.type
  lenlen ← put_uvarintlen paramslen
  let len = typelen + lenlen + paramslen
  guard (leb len outlen) nobuf
  typebytes ← put_uvarint fr.type
  lenbytes ← put_uvarint paramslen
  params ← TransportParams.encode paramslen fr.params
  check (length params == paramslen)
  finish len (typebytes ++ (lenbytes ++ params))

pub encode_qx_ping : ℕ → QxPing → Result (List ℕ)
encode_qx_ping outlen fr = do
  typelen ← put_uvarintlen fr.type
  seqlen ← put_uvarintlen fr.seq
  let len = typelen + seqlen
  guard (leb len outlen) nobuf
  typebytes ← put_uvarint fr.type
  seqbytes ← put_uvarint fr.seq
  finish len (typebytes ++ seqbytes)

pub encode_padding : ℕ → Padding → Result (List ℕ)
encode_padding outlen fr = do guard (leb fr.len outlen) nobuf; finish fr.len (replicate fr.len 0)

-- The copy loop: empty vectors are passed over, and `left` bytes at most are copied.
pub copy_data : ℕ → List (List ℕ) → List ℕ
copy_data left [] = []
copy_data left (vec ∷ vecs) =
    let skipped = copy_data left vecs in
    let copied = copy_data (left - min left (length vec)) vecs in
    if left == 0
    then []
    else if length vec == 0
    then skipped
    else take (min left (length vec)) vec ++ copied

-- The flag bits of a STREAM type; the length is always written.
pub stream_flags : Bool → Bool → ℕ
stream_flags fin off =
    let flags = if fin then bit_or FrameType.len_bit FrameType.fin_bit else FrameType.len_bit in
    if off then bit_or flags FrameType.off_bit else flags

pub encode_stream : ℕ → Stream → Result (List ℕ)
encode_stream outlen fr = do
  let off = not (fr.offset == 0)
  let flags = stream_flags fr.fin off
  offsetlen ← if off then put_uvarintlen fr.offset else ok 0
  idlen ← put_uvarintlen fr.stream_id
  lenlen ← put_uvarintlen fr.len
  let len = 1 + offsetlen + idlen + lenlen + fr.len
  guard (leb len outlen) nobuf
  idbytes ← put_uvarint fr.stream_id
  offsetbytes ← if off then put_uvarint fr.offset else ok []
  lenbytes ← put_uvarint fr.len
  finish len (
      bit_or flags FrameType.stream
      ∷ (idbytes ++ (offsetbytes ++ (lenbytes ++ copy_data fr.len fr.vecs))))

pub encode_reset_stream : ℕ → ResetStream → Result (List ℕ)
encode_reset_stream outlen fr = do
  idlen ← put_uvarintlen fr.stream_id
  codelen ← put_uvarintlen fr.app_error_code
  sizelen ← put_uvarintlen fr.final_size
  let len = 1 + idlen + codelen + sizelen
  guard (leb len outlen) nobuf
  idbytes ← put_uvarint fr.stream_id
  codebytes ← put_uvarint fr.app_error_code
  sizebytes ← put_uvarint fr.final_size
  finish len (FrameType.reset_stream ∷ (idbytes ++ (codebytes ++ sizebytes)))

pub encode_stop_sending : ℕ → StopSending → Result (List ℕ)
encode_stop_sending outlen fr = do
  idlen ← put_uvarintlen fr.stream_id
  codelen ← put_uvarintlen fr.app_error_code
  let len = 1 + idlen + codelen
  guard (leb len outlen) nobuf
  idbytes ← put_uvarint fr.stream_id
  codebytes ← put_uvarint fr.app_error_code
  finish len (FrameType.stop_sending ∷ (idbytes ++ codebytes))

pub encode_max_data : ℕ → MaxData → Result (List ℕ)
encode_max_data outlen fr = do
  n ← put_uvarintlen fr.max_data
  let len = 1 + n
  guard (leb len outlen) nobuf
  bytes ← put_uvarint fr.max_data
  finish len (FrameType.max_data ∷ bytes)

pub encode_max_stream_data : ℕ → MaxStreamData → Result (List ℕ)
encode_max_stream_data outlen fr = do
  idlen ← put_uvarintlen fr.stream_id
  maxlen ← put_uvarintlen fr.max_stream_data
  let len = 1 + idlen + maxlen
  guard (leb len outlen) nobuf
  idbytes ← put_uvarint fr.stream_id
  maxbytes ← put_uvarint fr.max_stream_data
  finish len (FrameType.max_stream_data ∷ (idbytes ++ maxbytes))

-- `(uint8_t)fr->type` is `fr.type % 2 ^ 8`.
pub encode_max_streams : ℕ → MaxStreams → Result (List ℕ)
encode_max_streams outlen fr = do
  n ← put_uvarintlen fr.max_streams
  let len = 1 + n
  guard (leb len outlen) nobuf
  bytes ← put_uvarint fr.max_streams
  finish len (fr.type % 2 ^ 8 ∷ bytes)

pub encode_data_blocked : ℕ → DataBlocked → Result (List ℕ)
encode_data_blocked outlen fr = do
  n ← put_uvarintlen fr.max_data
  let len = 1 + n
  guard (leb len outlen) nobuf
  bytes ← put_uvarint fr.max_data
  finish len (FrameType.data_blocked ∷ bytes)

pub encode_stream_data_blocked : ℕ → StreamDataBlocked → Result (List ℕ)
encode_stream_data_blocked outlen fr = do
  idlen ← put_uvarintlen fr.stream_id
  maxlen ← put_uvarintlen fr.max_stream_data
  let len = 1 + idlen + maxlen
  guard (leb len outlen) nobuf
  idbytes ← put_uvarint fr.stream_id
  maxbytes ← put_uvarint fr.max_stream_data
  finish len (FrameType.stream_data_blocked ∷ (idbytes ++ maxbytes))

pub encode_streams_blocked : ℕ → StreamsBlocked → Result (List ℕ)
encode_streams_blocked outlen fr = do
  n ← put_uvarintlen fr.max_streams
  let len = 1 + n
  guard (leb len outlen) nobuf
  bytes ← put_uvarint fr.max_streams
  finish len (fr.type % 2 ^ 8 ∷ bytes)

pub encode_connection_close : ℕ → ConnectionClose → Result (List ℕ)
encode_connection_close outlen fr = do
  let transport = fr.type == FrameType.connection_close
  codelen ← put_uvarintlen fr.error_code
  lenlen ← put_uvarintlen (length fr.reason)
  typelen ← if transport then put_uvarintlen fr.frame_type else ok 0
  let len = 1 + codelen + lenlen + length fr.reason + typelen
  guard (leb len outlen) nobuf
  codebytes ← put_uvarint fr.error_code
  typebytes ← if transport then put_uvarint fr.frame_type else ok []
  lenbytes ← put_uvarint (length fr.reason)
  finish len (fr.type % 2 ^ 8 ∷ (codebytes ++ (typebytes ++ (lenbytes ++ fr.reason))))

-- dwnx_vec_len of lib/dwnx_vec.c
pub vec_len : List (List ℕ) → ℕ
vec_len [] = 0
vec_len (vec ∷ vecs) = (length vec + vec_len vecs) % 2 ^ 64

-- The copy loop of DATAGRAM, which copies every vector that is not empty.
pub copy_all : List (List ℕ) → List ℕ
copy_all [] = []
copy_all (vec ∷ vecs) = let rest = copy_all vecs in if length vec == 0 then rest else vec ++ rest

pub encode_datagram : ℕ → Datagram → Result (List ℕ)
encode_datagram outlen fr = do
  check (fr.len == vec_len fr.vecs)
  let has_len = fr.type == FrameType.datagram_len
  lenlen ← if has_len then put_uvarintlen fr.len else ok 0
  let len = 1 + fr.len + lenlen
  guard (leb len outlen) nobuf
  lenbytes ← if has_len then put_uvarint fr.len else ok []
  finish len (fr.type % 2 ^ 8 ∷ (lenbytes ++ copy_all fr.vecs))

-- dwnx_frame_encode
pub encode : ℕ → Frame → Result (List ℕ)
encode outlen (Frame.qx_transport_parameters fr) = encode_qx_transport_parameters outlen fr
encode outlen (Frame.qx_ping fr) = encode_qx_ping outlen fr
encode outlen (Frame.padding fr) = encode_padding outlen fr
encode outlen (Frame.stream fr) = encode_stream outlen fr
encode outlen (Frame.reset_stream fr) = encode_reset_stream outlen fr
encode outlen (Frame.stop_sending fr) = encode_stop_sending outlen fr
encode outlen (Frame.max_data fr) = encode_max_data outlen fr
encode outlen (Frame.max_stream_data fr) = encode_max_stream_data outlen fr
encode outlen (Frame.max_streams fr) = encode_max_streams outlen fr
encode outlen (Frame.data_blocked fr) = encode_data_blocked outlen fr
encode outlen (Frame.stream_data_blocked fr) = encode_stream_data_blocked outlen fr
encode outlen (Frame.streams_blocked fr) = encode_streams_blocked outlen fr
encode outlen (Frame.connection_close fr) = encode_connection_close outlen fr
encode outlen (Frame.datagram fr) = encode_datagram outlen fr

-- dwnx_frame_datagram_framelen: the length of a DATAGRAM frame that encodes its length.
pub datagram_framelen : ℕ → Result ℕ
datagram_framelen datalen = do n ← put_uvarintlen datalen; ok (1 + n + datalen)
