-- ===== src/Frame/Parse.antt =====
-- The bytes of any frame parse as the frame.
pub mod Base
pub mod Numbers
pub mod Data
pub mod Long
use dwnx.Prelude.{
  ℕ, zero, suc, ◌+◌, ◌-◌, ◌≤◌, ◌≡◌, ◌⊎◌, inl, inr, refl, ap, sym, subst, ◌∙◌, arith, List, [], ◌∷◌,
  ◌++◌, append_assoc, append-nil, none, some,
}
use dwnx.Prelude.{
  Bool, true, false, not, ◌==◌, ==_iff, le→leb, lt→leb, if◌then◌else◌, length, take, drop,
  replicate, length-append, length-take, take-append, drop-append, All, IsByte, All-append,
  All-take,
}
use dwnx.Conv.Wire.{
  IsVarint, varint_bytes, parse_varint, parse_varint-varint_bytes, varint_bytes-IsByte,
  length-varint_bytes,
}
use dwnx.TransportParams.Bounds.{IsValid}
use dwnx.TransportParams.Encoding.{params_bytes, length-params_bytes}
use dwnx.TransportParams.RoundTrip.{decode-params_bytes, params_bytes-IsByte}
use dwnx.Frame
use dwnx.Frame.{Frame}
use dwnx.Frame.FrameType
use dwnx.Frame.Grammar
use dwnx.Frame.Grammar.{
  parse_frame, parse_type, parse_max_data, parse_data_blocked, parse_max_streams,
  parse_streams_blocked, parse_stop_sending, parse_max_stream_data, parse_stream_data_blocked,
  parse_reset_stream, parse_if, parse_length, parse_bytes, parse_stream, parse_connection_close,
  parse_datagram, parse_padding, zeros, parse_qx_ping, parse_qx_transport_parameters, parse_params,
  parse_long,
}
use dwnx.Frame.Wire.{concat, wire, stream_type, varint_if, IsEncodable, MayFollow, received}
use dwnx.Frame.Parse.Base.{RoundTrips}
use dwnx.Frame.Parse.Numbers.{
  max_data_lem, data_blocked_lem, max_streams_lem, streams_blocked_lem, stop_sending_lem,
  max_stream_data_lem, stream_data_blocked_lem, reset_stream_lem,
}
use dwnx.Frame.Parse.Data.{connection_close_lem, stream_lem, datagram_lem}
use dwnx.Frame.Parse.Long.{padding_lem, qx_ping_lem, qx_transport_parameters_lem}

module _ (rest : List ℕ) where
  -- Parsing a frame's bytes gives the frame that its receiver sees, and leaves what follows.
  pub parse_frame-wire : (fr : Frame) → IsEncodable fr → MayFollow fr rest → RoundTrips fr rest
  parse_frame-wire (Frame.qx_transport_parameters fr) h m = qx_transport_parameters_lem rest fr h
  parse_frame-wire (Frame.qx_ping fr) h m = qx_ping_lem rest fr h
  parse_frame-wire (Frame.padding fr) h m = padding_lem rest fr h m
  parse_frame-wire (Frame.stream fr) h m = stream_lem rest fr h
  parse_frame-wire (Frame.reset_stream fr) h m = reset_stream_lem rest fr h
  parse_frame-wire (Frame.stop_sending fr) h m = stop_sending_lem rest fr h
  parse_frame-wire (Frame.max_data fr) h m = max_data_lem rest fr h
  parse_frame-wire (Frame.max_stream_data fr) h m = max_stream_data_lem rest fr h
  parse_frame-wire (Frame.max_streams fr) h m = max_streams_lem rest fr h
  parse_frame-wire (Frame.data_blocked fr) h m = data_blocked_lem rest fr h
  parse_frame-wire (Frame.stream_data_blocked fr) h m = stream_data_blocked_lem rest fr h
  parse_frame-wire (Frame.streams_blocked fr) h m = streams_blocked_lem rest fr h
  parse_frame-wire (Frame.connection_close fr) h m = connection_close_lem rest fr h
  parse_frame-wire (Frame.datagram fr) h m = datagram_lem rest fr h m
