-- ===== src/Frame/Parse/Numbers.antt =====
-- The frames of numbers, parsed back.
use dwnx.Prelude.{ℕ, inl, inr, List, append_assoc}
use dwnx.Conv.Wire.{parse_varint-varint_bytes}
use dwnx.Frame
use dwnx.Frame.{Frame}
use dwnx.Frame.Grammar.{
  parse_frame, parse_type, parse_max_data, parse_data_blocked, parse_max_streams,
  parse_streams_blocked, parse_stop_sending, parse_max_stream_data, parse_stream_data_blocked,
  parse_reset_stream,
}
use dwnx.Frame.Wire.{wire, IsEncodable, received}
use dwnx.Frame.Parse.Base.{RoundTrips}

module _ (rest : List ℕ) where
  pub max_data_lem :
      (fr : Frame.MaxData) → IsEncodable (Frame.max_data fr) → RoundTrips (Frame.max_data fr) rest
  unfolding parse_frame parse_type parse_max_data wire received
  max_data_lem fr h = rw (parse_varint-varint_bytes _ _ h)

  pub data_blocked_lem :
      (fr : Frame.DataBlocked)
      → IsEncodable (Frame.data_blocked fr)
      → RoundTrips (Frame.data_blocked fr) rest
  unfolding parse_frame parse_type parse_data_blocked wire received
  data_blocked_lem fr h = rw (parse_varint-varint_bytes _ _ h)

  pub max_streams_lem :
      (fr : Frame.MaxStreams)
      → IsEncodable (Frame.max_streams fr)
      → RoundTrips (Frame.max_streams fr) rest
  unfolding parse_frame parse_type parse_max_streams wire received
  max_streams_lem fr (inl e, h) = rw (e, parse_varint-varint_bytes _ _ h)
  max_streams_lem fr (inr e, h) = rw (e, parse_varint-varint_bytes _ _ h)

  pub streams_blocked_lem :
      (fr : Frame.StreamsBlocked)
      → IsEncodable (Frame.streams_blocked fr)
      → RoundTrips (Frame.streams_blocked fr) rest
  unfolding parse_frame parse_type parse_streams_blocked wire received
  streams_blocked_lem fr (inl e, h) = rw (e, parse_varint-varint_bytes _ _ h)
  streams_blocked_lem fr (inr e, h) = rw (e, parse_varint-varint_bytes _ _ h)

  pub stop_sending_lem :
      (fr : Frame.StopSending)
      → IsEncodable (Frame.stop_sending fr)
      → RoundTrips (Frame.stop_sending fr) rest
  unfolding parse_frame parse_type parse_stop_sending wire received
  stop_sending_lem fr (h, k) =
      rw (append_assoc, parse_varint-varint_bytes _ _ h, parse_varint-varint_bytes _ _ k)

  pub max_stream_data_lem :
      (fr : Frame.MaxStreamData)
      → IsEncodable (Frame.max_stream_data fr)
      → RoundTrips (Frame.max_stream_data fr) rest
  unfolding parse_frame parse_type parse_max_stream_data wire received
  max_stream_data_lem fr (h, k) =
      rw (append_assoc, parse_varint-varint_bytes _ _ h, parse_varint-varint_bytes _ _ k)

  pub stream_data_blocked_lem :
      (fr : Frame.StreamDataBlocked)
      → IsEncodable (Frame.stream_data_blocked fr)
      → RoundTrips (Frame.stream_data_blocked fr) rest
  unfolding parse_frame parse_type parse_stream_data_blocked wire received
  stream_data_blocked_lem fr (h, k) =
      rw (append_assoc, parse_varint-varint_bytes _ _ h, parse_varint-varint_bytes _ _ k)

  pub reset_stream_lem :
      (fr : Frame.ResetStream)
      → IsEncodable (Frame.reset_stream fr)
      → RoundTrips (Frame.reset_stream fr) rest
  unfolding parse_frame parse_type parse_reset_stream wire received
  reset_stream_lem fr (h, k, l) = rw (
    append_assoc,
    parse_varint-varint_bytes _ _ h,
    append_assoc,
    parse_varint-varint_bytes _ _ k,
    parse_varint-varint_bytes _ _ l,
  )
