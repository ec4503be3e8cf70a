-- ===== src/Conn/Reach.antt =====
-- The states that a connection comes to: a new one, what the peer sends, and what the application asks,
-- in any order.
use dwnx.Prelude.{All, IsByte, ◌||◌, ◌&&◌}
use dwnx.Prelude.{
  ℕ, ◌≤◌, ◌≡◌, refl, subst, arith, List, Bool, true, false, Option, some, ok, ◌>>◌, check,
  Holds-result,
}
use dwnx.Prelude.{if◌then◌else◌}
use dwnx.Vec.{max_varint}
use dwnx.TransportParams.{TransportParams}
use dwnx.Ratelim.Bucket.{init-IsValid}
use dwnx.Frame
use dwnx.Strm.{Strm}
use dwnx.Conn.{local_stream, Conn, Event, find, max_streams_limit}
use dwnx.Conn.Credit.{extend_max_offset, extend_max_streams_bidi, extend_max_streams_uni}
use dwnx.Conn.Shutdown.{
  shutdown_stream, extend_max_stream_offset, open_bidi_stream, open_uni_stream,
}
use dwnx.Conn.Receive.{recv_stream, recv_stream_data, recv_reset_stream}
use dwnx.Conn.Credits.{recv_stop_sending, recv_max_data, recv_max_stream_data, recv_max_streams}
use dwnx.Conn.Setup.{
  Settings, may_start, fresh, server_new, client_new, recv_qx_ping, recv_transport_params,
}
use dwnx.Conn.Invariant.{IsConn, IsTxStreams}
use dwnx.Conn.Kept.{
  recv_stream-IsConn, recv_stream_data-IsConn, recv_reset_stream-IsConn, extend_max_offset-IsConn,
}
use dwnx.Conn.KeptCredit.{
  recv_stop_sending-IsConn, recv_max_data-IsConn, recv_max_stream_data-IsConn,
  recv_max_streams-IsConn, recv_qx_ping-IsConn,
}
use dwnx.Conn.KeptParams.{recv_transport_params-IsConn}
use dwnx.Conn.KeptApp.{
  shutdown_stream-IsConn, extend_max_stream_offset-IsConn, extend_max_streams_bidi-IsConn,
  extend_max_streams_uni-IsConn,
}
use dwnx.Frame.Wire.{concat}
use dwnx.Conn.Write.{Writing, Wrote}
use dwnx.Conn.Write.Message.{writev_stream, writev_datagram}
use dwnx.Conn.Write.Returned.{Lasting, IsReturn}
use dwnx.Conn.Write.Calls.{writev_stream-IsReturn, writev_datagram-IsReturn}
use dwnx.Conn.KeptOpen.{open_bidi_stream-IsConn, open_uni_stream-IsConn}

-- One operation that succeeds. The stream IDs and lengths of frames are varints, and the clock does not go
-- back. The transport parameters come to a server that remembers no early ones, or to a client of which all
-- streams are its own. A call that writes is one from a state in which it is known to end well.
pub data Step : Conn → Conn → Type 0 where
  stream :
      {conn conn' : Conn} (fr : Frame.Stream)
      → fr.stream_id ≤ max_varint
      → fr.len ≤ max_varint
      → recv_stream fr conn ≡ ok conn'
      → Step conn conn'
  stream_data :
      {conn conn' : Conn} (strm : Strm) (fin : Bool) (offset : ℕ) (bytes : List ℕ)
      → find strm.stream_id conn.strms ≡ some strm
      → recv_stream_data strm fin offset bytes conn ≡ ok conn'
      → Step conn conn'
  reset_stream :
      {conn conn' : Conn} (fr : Frame.ResetStream)
      → fr.stream_id ≤ max_varint
      → recv_reset_stream fr conn ≡ ok conn'
      → Step conn conn'
  stop_sending :
      {conn conn' : Conn} (fr : Frame.StopSending) (ts : ℕ)
      → fr.stream_id ≤ max_varint
      → conn.glitch_rlim.ts ≤ ts
      → recv_stop_sending fr ts conn ≡ ok conn'
      → Step conn conn'
  max_data :
      {conn conn' : Conn} (fr : Frame.MaxData) → recv_max_data fr conn ≡ ok conn' → Step conn conn'
  max_stream_data :
      {conn conn' : Conn} (fr : Frame.MaxStreamData) (ts : ℕ)
      → fr.stream_id ≤ max_varint
      → conn.glitch_rlim.ts ≤ ts
      → recv_max_stream_data fr ts conn ≡ ok conn'
      → Step conn conn'
  max_streams :
      {conn conn' : Conn} (fr : Frame.MaxStreams)
      → recv_max_streams fr conn ≡ ok conn'
      → Step conn conn'
  qx_ping :
      {conn conn' : Conn} (fr : Frame.QxPing) (ts : ℕ)
      → conn.glitch_rlim.ts ≤ ts
      → recv_qx_ping fr ts conn ≡ ok conn'
      → Step conn conn'
  transport_params :
      {conn conn' : Conn} (bytes : List ℕ)
      → All IsByte bytes
      → (conn.early_transport_params_set && conn.server) ≡ false
      → All (λ s. (conn.server || local_stream conn s.stream_id) ≡ true) conn.strms
      → recv_transport_params bytes conn ≡ ok conn'
      → Step conn conn'
  open_bidi : {conn : Conn} (r : ℕ × Conn) → open_bidi_stream conn ≡ ok r → Step conn r.1
  open_uni : {conn : Conn} (r : ℕ × Conn) → open_uni_stream conn ≡ ok r → Step conn r.1
  shutdown : {conn : Conn} (id code : ℕ) → Step conn (shutdown_stream id code conn)
  extend_stream :
      {conn conn' : Conn} (id n : ℕ)
      → extend_max_stream_offset id n conn ≡ ok conn'
      → Step conn conn'
  extend_conn : {conn : Conn} (n : ℕ) → Step conn (extend_max_offset n conn)
  extend_bidi : {conn : Conn} (n : ℕ) → Step conn (extend_max_streams_bidi n conn)
  extend_uni : {conn : Conn} (n : ℕ) → Step conn (extend_max_streams_uni n conn)
  write_stream :
      (dest : List ℕ) (flag_fin : Bool) (stream_id : Option ℕ) (datav : List (List ℕ)) (ts : ℕ)
      (w : Writing) (out : Wrote)
      → Lasting w
      → w.last_ts ≤ ts
      → All IsByte (concat datav)
      → writev_stream dest flag_fin stream_id datav ts w ≡ ok out
      → Step w.conn out.1.conn
  write_datagram :
      (dest : List ℕ) (datav : List (List ℕ)) (ts : ℕ) (w : Writing) (out : Wrote)
      → Lasting w
      → w.last_ts ≤ ts
      → All IsByte (concat datav)
      → writev_datagram dest datav ts w ≡ ok out
      → Step w.conn out.1.conn

pub data Reachable : Conn → Type 0 where
  new_server :
      {conn : Conn} (accepts : Event → Bool) (settings : Settings) (params : TransportParams)
      → params.initial_max_stream_data_uni ≤ max_varint
      → server_new accepts settings params ≡ ok conn
      → Reachable conn
  new_client :
      {conn : Conn} (accepts : Event → Bool) (settings : Settings) (params : TransportParams)
      → params.initial_max_stream_data_uni ≤ max_varint
      → client_new accepts settings params ≡ ok conn
      → Reachable conn
  next_step : {conn conn' : Conn} → Reachable conn → Step conn conn' → Reachable conn'

Step-IsConn : (conn conn' : Conn) → IsConn conn → Step conn conn' → IsConn conn'
Step-IsConn conn conn' h (stream fr l k e) =
    Holds-result IsConn (recv_stream fr conn) conn' (recv_stream-IsConn fr conn h l k) e
Step-IsConn conn conn' h (stream_data strm fin offset bytes f e) =
    Holds-result IsConn (recv_stream_data strm fin offset bytes conn) conn'
      (recv_stream_data-IsConn strm fin offset bytes conn h f) e
Step-IsConn conn conn' h (reset_stream fr l e) =
    Holds-result IsConn (recv_reset_stream fr conn) conn' (recv_reset_stream-IsConn fr conn h l) e
Step-IsConn conn conn' h (stop_sending fr ts l t e) =
    Holds-result IsConn (recv_stop_sending fr ts conn) conn'
      (recv_stop_sending-IsConn fr ts conn h t l) e
Step-IsConn conn conn' h (max_data fr e) =
    Holds-result IsConn (recv_max_data fr conn) conn' (recv_max_data-IsConn fr conn h) e
Step-IsConn conn conn' h (max_stream_data fr ts l t e) =
    Holds-result IsConn (recv_max_stream_data fr ts conn) conn'
      (recv_max_stream_data-IsConn fr ts conn h t l) e
Step-IsConn conn conn' h (max_streams fr e) =
    Holds-result IsConn (recv_max_streams fr conn) conn' (recv_max_streams-IsConn fr conn h) e
Step-IsConn conn conn' h (qx_ping fr ts t e) =
    Holds-result IsConn (recv_qx_ping fr ts conn) conn' (recv_qx_ping-IsConn fr ts conn h t) e
Step-IsConn conn conn' h (transport_params bytes b s l e) =
    Holds-result IsConn (recv_transport_params bytes conn) conn'
      (recv_transport_params-IsConn bytes conn b h s l) e
Step-IsConn conn conn' h (open_bidi r e) =
    (Holds-result (λ (r : ℕ × Conn). (r.0 ≡ conn.tx.bidi.next_stream_id) × IsConn r.1)
      (open_bidi_stream conn) r (open_bidi_stream-IsConn conn h) e).1
Step-IsConn conn conn' h (open_uni r e) =
    (Holds-result (λ (r : ℕ × Conn). (r.0 ≡ conn.tx.uni.next_stream_id) × IsConn r.1)
      (open_uni_stream conn) r (open_uni_stream-IsConn conn h) e).1
Step-IsConn conn conn' h (shutdown id code) = shutdown_stream-IsConn id code conn h
Step-IsConn conn conn' h (extend_stream id n e) =
    Holds-result IsConn (extend_max_stream_offset id n conn) conn'
      (extend_max_stream_offset-IsConn id n conn h) e
Step-IsConn conn conn' h (extend_conn n) = extend_max_offset-IsConn n conn h
Step-IsConn conn conn' h (extend_bidi n) = extend_max_streams_bidi-IsConn n conn h
Step-IsConn conn conn' h (extend_uni n) = extend_max_streams_uni-IsConn n conn h
Step-IsConn conn conn' h (write_stream dest flag_fin stream_id datav ts w out lasting l b e) =
    (Holds-result IsReturn (writev_stream dest flag_fin stream_id datav ts w) out
      (writev_stream-IsReturn dest flag_fin stream_id datav ts w lasting l b) e).0.0.0
Step-IsConn conn conn' h (write_datagram dest datav ts w out lasting l b e) =
    (Holds-result IsReturn (writev_datagram dest datav ts w) out
      (writev_datagram-IsReturn dest datav ts w lasting l b) e).0.0.0

-- A new connection of either side.
fresh-IsConn :
    (server : Bool) (accepts : Event → Bool) (settings : Settings) (params : TransportParams)
    → params.initial_max_stream_data_uni ≤ max_varint
    → may_start params ≡ true
    → IsConn
        (fresh server (if server then 1 else 0) (if server then 3 else 2) accepts settings params)
fresh-IsConn server accepts settings params l e = (
  (
    (omega arith, omega arith, limits.2),
    ((omega arith, limits.3), (omega arith, limits.4)),
    (first server, first_uni server),
    (tt, tt),
    (limits.0, limits.1, l),
    (init-IsValid settings.glitch_ratelim_burst settings.glitch_ratelim_rate settings.initial_ts).0,
  ),
  tt,
  tt,
  λ id. omega arith,
)
  where
    limits :
        (params.initial_max_stream_data_bidi_local ≤ max_varint)
        × (params.initial_max_stream_data_bidi_remote ≤ max_varint)
        × (params.initial_max_data ≤ max_varint)
        × (params.initial_max_streams_bidi ≤ max_streams_limit)
        × (params.initial_max_streams_uni ≤ max_streams_limit)
    limits = (ground arith, ground arith, ground arith, ground arith, ground arith)

    first :
        (b : Bool)
        → IsTxStreams
            (if b then 1 else 0)
            (record { max_streams = 0; next_stream_id = if b then 1 else 0 })
    first true = (omega arith, refl, omega arith)
    first false = (omega arith, refl, omega arith)

    first_uni :
        (b : Bool)
        → IsTxStreams
            (if b then 3 else 2)
            (record { max_streams = 0; next_stream_id = if b then 3 else 2 })
    first_uni true = (omega arith, refl, omega arith)
    first_uni false = (omega arith, refl, omega arith)

-- A connection starts in order, where the assertions hold: the state of `new` and its test.
started :
    (test : Bool) (fresh_conn conn : Conn)
    → (check test >> ok fresh_conn) ≡ ok conn
    → (test ≡ true) × (fresh_conn ≡ conn)
started true c conn e = (refl, cc e)
started false c conn e = cc e

pub Reachable-IsConn : (conn : Conn) → Reachable conn → IsConn conn
unfolding server_new client_new
Reachable-IsConn conn (new_server accepts settings params l e) =
    let s = started (may_start params) (fresh true 1 3 accepts settings params) conn e in
    subst IsConn s.1 (fresh-IsConn true accepts settings params l s.0)
Reachable-IsConn conn (new_client accepts settings params l e) =
    let s = started (may_start params) (fresh false 0 2 accepts settings params) conn e in
    subst IsConn s.1 (fresh-IsConn false accepts settings params l s.0)
Reachable-IsConn conn (next_step before step) = Step-IsConn _ conn (Reachable-IsConn _ before) step
