-- ===== src/Frame/Wire.antt =====
-- The bytes of a frame on the wire, which frames have them, and what a receiver sees of a frame.
use dwnx.Prelude.{ℕ, ◌+◌, ◌≤◌, ◌≡◌, ◌⊎◌, List, [], ◌∷◌, ◌++◌, Bool, not}
use dwnx.Prelude.{◌==◌, if◌then◌else◌, length, take, replicate, All, IsByte}
use dwnx.Conv.Wire.{IsVarint, varint_bytes}
use dwnx.TransportParams.Bounds.{IsValid}
use dwnx.TransportParams.Encoding.{params_bytes}
use dwnx.Frame.{Frame}
use dwnx.Frame.FrameType
use dwnx.Frame.Grammar.{zeros}

-- The data of vectors, in a row.
abbrev pub concat : List (List ℕ) → List ℕ
concat [] = []
concat (vec ∷ vecs) = vec ++ concat vecs

-- The type of a STREAM frame: 0x0a, and a bit for the offset and one for the end of the stream.
abbrev pub stream_type : Bool → Bool → ℕ
stream_type fin off = 0x0a + (if fin then 1 else 0) + (if off then 4 else 0)

abbrev pub varint_if : Bool → ℕ → List ℕ
varint_if there n = if there then varint_bytes n else []

unfoldable pub wire : Frame → List ℕ
wire (Frame.qx_transport_parameters fr) =
    varint_bytes fr.type
    ++ (varint_bytes (length (params_bytes fr.params)) ++ params_bytes fr.params)
wire (Frame.qx_ping fr) = varint_bytes fr.type ++ varint_bytes fr.seq
wire (Frame.padding fr) = replicate fr.len 0
wire (Frame.stream fr) =
    stream_type fr.fin (not (fr.offset == 0))
    ∷ (varint_bytes fr.stream_id
        ++ (varint_if (not (fr.offset == 0)) fr.offset
            ++ (varint_bytes fr.len ++ take fr.len (concat fr.vecs))))
wire (Frame.reset_stream fr) =
    FrameType.reset_stream
    ∷ (varint_bytes fr.stream_id ++ (varint_bytes fr.app_error_code ++ varint_bytes fr.final_size))
wire (Frame.stop_sending fr) =
    FrameType.stop_sending ∷ (varint_bytes fr.stream_id ++ varint_bytes fr.app_error_code)
wire (Frame.max_data fr) = FrameType.max_data ∷ varint_bytes fr.max_data
wire (Frame.max_stream_data fr) =
    FrameType.max_stream_data ∷ (varint_bytes fr.stream_id ++ varint_bytes fr.max_stream_data)
wire (Frame.max_streams fr) = fr.type ∷ varint_bytes fr.max_streams
wire (Frame.data_blocked fr) = FrameType.data_blocked ∷ varint_bytes fr.max_data
wire (Frame.stream_data_blocked fr) =
    FrameType.stream_data_blocked ∷ (varint_bytes fr.stream_id ++ varint_bytes fr.max_stream_data)
wire (Frame.streams_blocked fr) = fr.type ∷ varint_bytes fr.max_streams
wire (Frame.connection_close fr) =
    fr.type
    ∷ (varint_bytes fr.error_code
        ++ (varint_if (fr.type == FrameType.connection_close) fr.frame_type
            ++ (varint_bytes (length fr.reason) ++ fr.reason)))
wire (Frame.datagram fr) =
    fr.type ∷ (varint_if (fr.type == FrameType.datagram_len) fr.len ++ concat fr.vecs)

-- The frames that the encoders accept: numbers that a varint holds, a type of the right member, and
-- as much data as the frame says.
abbrev pub IsEncodable : Frame → Type 0
IsEncodable (Frame.qx_transport_parameters fr) =
    (fr.type ≡ FrameType.qx_transport_parameters) × IsValid fr.params
IsEncodable (Frame.qx_ping fr) =
    ((fr.type ≡ FrameType.qx_ping_request) ⊎ (fr.type ≡ FrameType.qx_ping_response))
    × IsVarint fr.seq
IsEncodable (Frame.padding fr) = 1 ≤ fr.len
IsEncodable (Frame.stream fr) =
    IsVarint fr.stream_id
    × IsVarint fr.offset
    × IsVarint fr.len
    × (fr.len ≤ length (concat fr.vecs))
    × All IsByte (concat fr.vecs)
IsEncodable (Frame.reset_stream fr) =
    IsVarint fr.stream_id × IsVarint fr.app_error_code × IsVarint fr.final_size
IsEncodable (Frame.stop_sending fr) = IsVarint fr.stream_id × IsVarint fr.app_error_code
IsEncodable (Frame.max_data fr) = IsVarint fr.max_data
IsEncodable (Frame.max_stream_data fr) = IsVarint fr.stream_id × IsVarint fr.max_stream_data
IsEncodable (Frame.max_streams fr) =
    ((fr.type ≡ FrameType.max_streams_bidi) ⊎ (fr.type ≡ FrameType.max_streams_uni))
    × IsVarint fr.max_streams
IsEncodable (Frame.data_blocked fr) = IsVarint fr.max_data
IsEncodable (Frame.stream_data_blocked fr) = IsVarint fr.stream_id × IsVarint fr.max_stream_data
IsEncodable (Frame.streams_blocked fr) =
    ((fr.type ≡ FrameType.streams_blocked_bidi) ⊎ (fr.type ≡ FrameType.streams_blocked_uni))
    × IsVarint fr.max_streams
IsEncodable (Frame.connection_close fr) =
    ((fr.type ≡ FrameType.connection_close) ⊎ (fr.type ≡ FrameType.connection_close_app))
    × IsVarint fr.error_code
    × IsVarint fr.frame_type
    × IsVarint (length fr.reason)
    × All IsByte fr.reason
IsEncodable (Frame.datagram fr) =
    ((fr.type ≡ FrameType.datagram) ⊎ (fr.type ≡ FrameType.datagram_len))
    × IsVarint fr.len
    × (fr.len ≡ length (concat fr.vecs))
    × All IsByte (concat fr.vecs)

-- Two frames have no end of their own: PADDING goes on with the next zero, and a DATAGRAM without a
-- length to the end of the buffer.
abbrev pub MayFollow : Frame → List ℕ → Type 0
MayFollow (Frame.padding fr) rest = zeros rest ≡ 0
MayFollow (Frame.datagram fr) rest = fr.type ≡ FrameType.datagram → rest ≡ []
MayFollow fr rest = Unit

abbrev one_vec : ℕ → List ℕ → List (List ℕ)
one_vec len bytes = if len == 0 then [] else bytes ∷ []

-- The frame that a receiver sees: its data in one vector, the flags of its type, and no frame type
-- in the CONNECTION_CLOSE of an application.
unfoldable pub received : Frame → Frame
received (Frame.stream fr) = Frame.stream (record {
  flags = 0x02 + (if fr.fin then 1 else 0) + (if not (fr.offset == 0) then 4 else 0);
  fin = fr.fin;
  stream_id = fr.stream_id;
  offset = fr.offset;
  len = fr.len;
  vecs = one_vec fr.len (take fr.len (concat fr.vecs));
})
received (Frame.connection_close fr) = Frame.connection_close (record {
  type = fr.type;
  error_code = fr.error_code;
  frame_type = if fr.type == FrameType.connection_close then fr.frame_type else 0;
  reason = fr.reason;
})
received (Frame.datagram fr) =
    Frame.datagram (record { type = fr.type; len = fr.len; vecs = one_vec fr.len (concat fr.vecs) })
received fr = fr
