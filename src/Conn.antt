-- ===== src/Conn.antt =====
-- The state of lib/dwnx_conn.c and lib/dwnx_conn.h. The hash map `strms` is the list of its streams,
-- found by their stream ID, with the last one inserted in front; the queue holds the stream ID and the
-- cycle of each stream in it. A callback is told by the event that calls it: `accepts` says whether it
-- returns 0, a callback that is not set accepts, and `calls` lists the events, the last one in front.
-- Callbacks do not call back into the connection, and memory does not run out.
pub mod Credit
pub mod Streams
mod Strms
mod Invariant
mod Queue
mod Dequeue
mod Turns
mod Open
mod OpenId
mod Kept
mod KeptCredit
mod KeptApp
mod KeptOpen
mod Clock
mod Present
mod KeptParams
pub mod Reach
mod Refused
mod Spend
mod Runs
pub mod Shutdown
pub mod Receive
pub mod Credits
pub mod Setup
pub mod Read
pub mod Expiry
pub mod Close
pub mod Write
use dwnx.Prelude.{
  ℕ, ◌+◌, ◌-◌, ◌/◌, ◌%◌, ◌^◌, ◌*◌, ◌==◌, List, [], ◌∷◌, Bool, true, false, not, ◌&&◌, ◌||◌,
}
use dwnx.Prelude.{if◌then◌else◌, ltb, leb, Option, none, some}
use dwnx.Prelude.{Result, ok, err, fault, callback_failure}
use dwnx.TransportParams.{TransportParams}
use dwnx.Ratelim.{Ratelim}
use dwnx.Gaptr.{Range}
use dwnx.Strm.{Strm}

-- The callbacks with their arguments, less `user_data` and `stream_user_data`.
pub data Event : Type 0 where
  recv_transport_params : TransportParams → Event
  stream_open : ℕ → Event
  recv_stream_data : Bool → ℕ → ℕ → List ℕ → Event
  stream_close : Bool → Bool → ℕ → ℕ → ℕ → Event
  stream_reset : ℕ → ℕ → ℕ → Event
  recv_stop_sending : ℕ → ℕ → Event
  extend_max_stream_data : ℕ → ℕ → Event
  extend_max_local_streams_bidi : ℕ → Event
  extend_max_local_streams_uni : ℕ → Event
  recv_datagram : Bool → ℕ → ℕ → List ℕ → Event
  stream_stop_sending : ℕ → ℕ → Event
  extend_max_remote_streams_bidi : ℕ → Event
  extend_max_remote_streams_uni : ℕ → Event
  write_stream_data_offset : ℕ → ℕ → ℕ → Event

-- `rx.bidi`, `rx.uni`
pub record RxStreams : Type 0 where
  pub unsent_max_streams : ℕ
  pub max_streams : ℕ

-- `tx.bidi`, `tx.uni`
pub record TxStreams : Type 0 where
  pub max_streams : ℕ
  pub next_stream_id : ℕ

-- A sequence number that starts as -1 is `none` until one is set.
pub record Rx : Type 0 where
  pub unsent_max_offset : ℕ
  pub offset : ℕ
  pub max_offset : ℕ
  pub window : ℕ
  pub ping_last_seq : Option ℕ
  pub bidi : RxStreams
  pub uni : RxStreams

pub record Entry : Type 0 where
  pub stream_id : ℕ
  pub cycle : ℕ

pub record Tx : Type 0 where
  pub strmq : List Entry
  pub offset : ℕ
  pub max_offset : ℕ
  pub last_blocked_offset : ℕ
  pub ping_last_seq : Option ℕ
  pub bidi : TxStreams
  pub uni : TxStreams

pub record Conn : Type 0 where
  pub server : Bool
  pub early_transport_params_set : Bool
  pub local_params : TransportParams
  pub remote_params : TransportParams
  pub bidi_idtr : List Range
  pub uni_idtr : List Range
  pub rx : Rx
  pub tx : Tx
  pub glitch_rlim : Ratelim
  pub strms : List Strm
  pub accepts : Event → Bool
  pub calls : List Event

-- DWNX_MAX_STREAMS
abbrev pub max_streams_limit : ℕ
max_streams_limit = 2 ^ 60

-- `a - b` of `uint64_t`
abbrev pub sub64 : ℕ → ℕ → ℕ
sub64 a b = (a + 2 ^ 64 - b) % 2 ^ 64

-- conn_local_stream
abbrev pub local_stream : Conn → ℕ → Bool
local_stream conn stream_id = if conn.server then stream_id % 2 == 1 else stream_id % 2 == 0

abbrev pub bidi_stream : ℕ → Bool
bidi_stream stream_id = stream_id / 2 % 2 == 0

-- conn_call_*
abbrev pub call : Event → Conn → Result Conn
call event conn =
    if conn.accepts event
    then ok (record conn { calls = event ∷ conn.calls })
    else err callback_failure

abbrev find : ℕ → List Strm → Option Strm
find stream_id [] = none
find stream_id (strm ∷ strms) =
    if strm.stream_id == stream_id then some strm else find stream_id strms

abbrev pub absent : Option Strm → Bool
absent none = true
absent (some strm) = false

-- dwnx_conn_find_stream
abbrev pub find_stream : Conn → ℕ → Option Strm
find_stream conn stream_id = find stream_id conn.strms

abbrev pub replace : Strm → List Strm → List Strm
replace strm [] = []
replace strm (other ∷ strms) =
    if other.stream_id == strm.stream_id then strm ∷ strms else other ∷ replace strm strms

-- What is written through the pointer to a stream in the map.
abbrev pub put_strm : Strm → Conn → Conn
put_strm strm conn = record conn { strms = replace strm conn.strms }

abbrev pub without_strm : ℕ → List Strm → List Strm
without_strm stream_id [] = []
without_strm stream_id (strm ∷ strms) =
    if strm.stream_id == stream_id then strms else strm ∷ without_strm stream_id strms

-- dwnx_map_remove; DWNX_ERR_INVALID_ARGUMENT, for a stream ID that is not there, is `none`.
abbrev pub remove_strm : ℕ → List Strm → Option (List Strm)
remove_strm stream_id strms =
    if absent (find stream_id strms) then none else some (without_strm stream_id strms)
