-- ===== src/Conn/Setup.antt =====
-- lib/dwnx_conn.c: a new connection, the peer's transport parameters and pings. The settings that are
-- not in the model are the seed, the logger and the idle timer.
use dwnx.Prelude.{
  ℕ, ◌/◌, ◌==◌, List, [], ◌∷◌, Bool, true, false, not, ◌&&◌, if◌then◌else◌, ltb, leb, Option, none,
  some,
}
use dwnx.Prelude.{Result, ok, ◌>>=◌, ◌>>◌, guard, check, proto, malformed_transport_param}
use dwnx.TransportParams
use dwnx.TransportParams.{
  TransportParams, default_params, default_max_record_size, milliseconds, uint64_max,
}
use dwnx.Ratelim
use dwnx.Vec.{max_varint}
use dwnx.Strm.{Strm}
use dwnx.Frame
use dwnx.Frame.FrameType
use dwnx.Conn.{Conn, Event, local_stream, bidi_stream, max_streams_limit, call, put_strm}
use dwnx.Conn.Receive.{glitch}

-- The part of `dwnx_settings` that the connection reads here.
pub record Settings : Type 0 where
  pub glitch_ratelim_burst : ℕ
  pub glitch_ratelim_rate : ℕ
  pub initial_ts : ℕ

-- The assertions of conn_new.
abbrev pub may_start : TransportParams → Bool
may_start params =
    leb params.initial_max_stream_data_bidi_local max_varint
    && leb params.initial_max_stream_data_bidi_remote max_varint
    && leb params.initial_max_data max_varint
    && leb params.initial_max_streams_bidi max_streams_limit
    && leb params.initial_max_streams_uni max_streams_limit
    && not (params.max_idle_timeout == uint64_max)
    && leb (params.max_idle_timeout / milliseconds) max_varint
    && leb params.max_record_size max_varint
    && leb default_max_record_size params.max_record_size

-- The state of a new connection, with the stream IDs that it opens first.
abbrev pub fresh : Bool → ℕ → ℕ → (Event → Bool) → Settings → TransportParams → Conn
fresh server bidi_id uni_id accepts settings params = record {
  server = server;
  early_transport_params_set = false;
  local_params = record params { max_record_size = default_max_record_size };
  remote_params = default_params;
  bidi_idtr = [];
  uni_idtr = [];
  rx = record {
    unsent_max_offset = params.initial_max_data;
    offset = 0;
    max_offset = params.initial_max_data;
    window = params.initial_max_data;
    ping_last_seq = none;
    bidi = record {
      unsent_max_streams = params.initial_max_streams_bidi;
      max_streams = params.initial_max_streams_bidi;
    };
    uni = record {
      unsent_max_streams = params.initial_max_streams_uni;
      max_streams = params.initial_max_streams_uni;
    };
  };
  tx = record {
    strmq = [];
    offset = 0;
    max_offset = 0;
    last_blocked_offset = uint64_max;
    ping_last_seq = none;
    bidi = record { max_streams = 0; next_stream_id = bidi_id };
    uni = record { max_streams = 0; next_stream_id = uni_id };
  };
  glitch_rlim =
      Ratelim.init settings.glitch_ratelim_burst settings.glitch_ratelim_rate settings.initial_ts;
  strms = [];
  accepts = accepts;
  calls = [];
}

unfoldable pub server_new : (Event → Bool) → Settings → TransportParams → Result Conn
server_new accepts settings params = do
  check (may_start params)
  ok (fresh true 1 3 accepts settings params)

unfoldable pub client_new : (Event → Bool) → Settings → TransportParams → Result Conn
client_new accepts settings params = do
  check (may_start params)
  ok (fresh false 0 2 accepts settings params)

-- A limit that the peer gives now is not below the one that was remembered.
unfoldable pub validate_early_transport_params :
    Bool → TransportParams → TransportParams → Result (Unit {0})
validate_early_transport_params server early_params params = do
  check (not server)
  guard
      (leb early_params.initial_max_data params.initial_max_data
        && leb early_params.initial_max_stream_data_bidi_local
            params.initial_max_stream_data_bidi_local
        && leb early_params.initial_max_stream_data_bidi_remote
            params.initial_max_stream_data_bidi_remote
        && leb early_params.initial_max_stream_data_uni params.initial_max_stream_data_uni
        && leb early_params.initial_max_streams_bidi params.initial_max_streams_bidi
        && leb early_params.initial_max_streams_uni params.initial_max_streams_uni
        && leb early_params.max_datagram_frame_size params.max_datagram_frame_size)
      proto

abbrev pub with_max_offset : ℕ → Strm → Strm
with_max_offset max_offset strm = record strm { tx = record strm.tx { max_offset = max_offset } }

-- set_max_stream_offset behind its assertions, with the peer's limit.
unfoldable pub raise_offset : ℕ → Strm → Conn → Result Conn
raise_offset max_offset strm conn =
    if not (ltb strm.tx.max_offset max_offset)
    then ok conn
    else if strm.flags.shut_wr
    then ok (put_strm (with_max_offset max_offset strm) conn)
    else call (Event.extend_max_stream_data strm.stream_id max_offset)
        (put_strm (with_max_offset max_offset strm) conn)

-- For one stream of early data.
unfoldable pub set_max_stream_offset : Strm → Conn → Result Conn
unfolding raise_offset
set_max_stream_offset strm conn =
    check (not conn.server)
    >> (check (local_stream conn strm.stream_id)
        >> raise_offset
            (if bidi_stream strm.stream_id
              then conn.remote_params.initial_max_stream_data_bidi_remote
              else conn.remote_params.initial_max_stream_data_uni)
            strm conn)

-- The order in which the hash map is gone through is that of the list.
abbrev pub set_all : List Strm → Conn → Result Conn
set_all [] conn = ok conn
set_all (strm ∷ strms) conn = set_max_stream_offset strm conn >>= set_all strms

-- `if (n) rv = callback(conn, n);`
abbrev pub call_if : ℕ → Event → Conn → Result Conn
call_if n event conn = if n == 0 then ok conn else call event conn

-- The state with the peer's parameters, and its limits taken from them.
abbrev pub with_params : TransportParams → Conn → Conn
with_params params conn = record conn {
  remote_params = params;
  tx = record conn.tx {
    bidi = record conn.tx.bidi { max_streams = params.initial_max_streams_bidi };
    uni = record conn.tx.uni { max_streams = params.initial_max_streams_uni };
    max_offset = params.initial_max_data;
  };
}

-- The calls to the application.
abbrev pub announce : TransportParams → Conn → Result Conn
announce params conn =
    call (Event.recv_transport_params params) conn
    >>= call_if params.initial_max_streams_bidi
        (Event.extend_max_local_streams_bidi params.initial_max_streams_bidi)
    >>= call_if params.initial_max_streams_uni
        (Event.extend_max_local_streams_uni params.initial_max_streams_uni)

-- The streams of a client that were opened in early data are raised to the new limits.
abbrev pub accept_params : TransportParams → Conn → Result Conn
accept_params params conn =
    (if conn.server
      then ok (with_params params conn)
      else set_all conn.strms (with_params params conn))
    >>= announce params

unfoldable pub recv_transport_params : List ℕ → Conn → Result Conn
recv_transport_params bytes conn = do
  params ← TransportParams.decode bytes
  guard (leb default_max_record_size params.max_record_size) malformed_transport_param
  if conn.early_transport_params_set
      then validate_early_transport_params conn.server conn.remote_params params
      else ok tt
  accept_params params conn

-- `last < seq`, where `last` may be -1.
abbrev pub before : Option ℕ → ℕ → Bool
before none seq = true
before (some last) seq = ltb last seq

unfoldable pub recv_qx_ping : Frame.QxPing → ℕ → Conn → Result Conn
recv_qx_ping fr ts conn =
    if fr.type == FrameType.qx_ping_response
    then (do guard (not (before conn.tx.ping_last_seq fr.seq)) proto; ok conn)
    else (do
      guard (before conn.rx.ping_last_seq fr.seq) proto
      conn ← glitch ts conn
      ok (record conn { rx = record conn.rx { ping_last_seq = some fr.seq } }))
