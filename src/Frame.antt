-- ===== src/Frame.antt =====
-- The frames of lib/dwnx_frame.h. A `dwnx_frame` is a union whose member is told by `hd.type`: here
-- the member is the constructor, and a struct keeps `type` where its member has two types. Data are
-- lists of vectors (`dwnx_vec`), each the list of its bytes; a stream ID is the bit pattern of its
-- `int64_t`.
pub mod FrameType
pub mod Encode
pub mod Decode
pub mod Grammar
pub mod Wire
pub mod Parse
pub mod RoundTrip
mod Runs
use dwnx.Prelude.{ℕ, Bool, List}
use dwnx.TransportParams.{TransportParams}

pub record QxTransportParameters : Type 0 where
  pub type : ℕ
  pub params : TransportParams

pub record QxPing : Type 0 where
  pub type : ℕ
  pub seq : ℕ

pub record Padding : Type 0 where
  pub len : ℕ

pub record Stream : Type 0 where
  pub flags : ℕ
  pub fin : Bool
  pub stream_id : ℕ
  pub offset : ℕ
  pub len : ℕ
  pub vecs : List (List ℕ)

pub record ResetStream : Type 0 where
  pub stream_id : ℕ
  pub app_error_code : ℕ
  pub final_size : ℕ

pub record StopSending : Type 0 where
  pub stream_id : ℕ
  pub app_error_code : ℕ

pub record MaxData : Type 0 where
  pub max_data : ℕ

pub record MaxStreamData : Type 0 where
  pub stream_id : ℕ
  pub max_stream_data : ℕ

pub record MaxStreams : Type 0 where
  pub type : ℕ
  pub max_streams : ℕ

pub record DataBlocked : Type 0 where
  pub max_data : ℕ

pub record StreamDataBlocked : Type 0 where
  pub stream_id : ℕ
  pub max_stream_data : ℕ

pub record StreamsBlocked : Type 0 where
  pub type : ℕ
  pub max_streams : ℕ

-- `reason` has `reasonlen` bytes.
pub record ConnectionClose : Type 0 where
  pub type : ℕ
  pub error_code : ℕ
  pub frame_type : ℕ
  pub reason : List ℕ

pub record Datagram : Type 0 where
  pub type : ℕ
  pub len : ℕ
  pub vecs : List (List ℕ)

pub data Frame : Type 0 where
  qx_transport_parameters : QxTransportParameters → Frame
  qx_ping : QxPing → Frame
  padding : Padding → Frame
  stream : Stream → Frame
  reset_stream : ResetStream → Frame
  stop_sending : StopSending → Frame
  max_data : MaxData → Frame
  max_stream_data : MaxStreamData → Frame
  max_streams : MaxStreams → Frame
  data_blocked : DataBlocked → Frame
  stream_data_blocked : StreamDataBlocked → Frame
  streams_blocked : StreamsBlocked → Frame
  connection_close : ConnectionClose → Frame
  datagram : Datagram → Frame
