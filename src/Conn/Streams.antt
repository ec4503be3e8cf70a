-- ===== src/Conn/Streams.antt =====
-- The life of a stream in lib/dwnx_conn.c: opened, created, put into the transmission queue, shut down
-- and closed.
use dwnx.Prelude.{ℕ, suc, ◌==◌, List, [], ◌∷◌, Bool, true, false, ◌||◌}
use dwnx.Prelude.{if◌then◌else◌, ltb, leb, Option, none, some}
use dwnx.Prelude.{Result, ok, fault, ◌>>=◌, ◌>>◌, check}
use dwnx.Strm.{Strm, no_flags, init, shutdown, is_tx_queued, should_close_stream}
use dwnx.Pq
use dwnx.Conn.{Conn, Entry, Event, stream_close, sub64, local_stream, bidi_stream, call}
use dwnx.Conn.{find_stream, put_strm, remove_strm, absent}

-- The order of the transmission queue.
abbrev pub cycle_less : Entry → Entry → Bool
cycle_less ls rs =
    if ls.cycle == rs.cycle then ltb ls.stream_id rs.stream_id else leb (sub64 rs.cycle ls.cycle) 1

-- Where the entry of a stream stands in the queue: its `pe.index`.
abbrev pub pe_index : ℕ → List Entry → ℕ
pe_index stream_id [] = 0
pe_index stream_id (e ∷ q) = if e.stream_id == stream_id then 0 else suc (pe_index stream_id q)

abbrev pub entry : Strm → Entry
entry strm = record { stream_id = strm.stream_id; cycle = strm.cycle }

abbrev pub with_strmq : List Entry → Conn → Conn
with_strmq q conn = record conn { tx = record conn.tx { strmq = q } }

unfoldable pub tx_strmq_first_cycle : Conn → ℕ
tx_strmq_first_cycle conn = first conn.tx.strmq
  where
    first : List Entry → ℕ
    first [] = 0
    first (e ∷ q) = e.cycle

unfoldable pub tx_strmq_top : Conn → Result (Option Strm)
tx_strmq_top conn = do e ← Pq.top conn.tx.strmq; ok (find_stream conn e.stream_id)

abbrev pub tx_strmq_push : Strm → Conn → Conn
tx_strmq_push strm conn =
    with_strmq (Pq.push cycle_less (entry strm) conn.tx.strmq)
      (put_strm (record strm { queued = true }) conn)

-- The stream as it is changed is in the map already, or is put there by the push.
unfoldable pub tx_strmq_push_if_not : Strm → Conn → Conn
unfolding tx_strmq_first_cycle
tx_strmq_push_if_not strm conn =
    if is_tx_queued strm
    then put_strm strm conn
    else tx_strmq_push (record strm { cycle = tx_strmq_first_cycle conn }) conn

-- The entry of the queue belongs to a stream; a pointer to no stream is a fault.
unfoldable pub tx_strmq_pop : Conn → Result Conn
tx_strmq_pop conn = do
  e ← Pq.top conn.tx.strmq
  q ← Pq.pop cycle_less conn.tx.strmq
  conn ← unqueued (find_stream conn e.stream_id)
  ok (with_strmq q conn)
  where
    unqueued : Option Strm → Result Conn
    unqueued none = fault
    unqueued (some strm) = ok (put_strm (record strm { queued = false }) conn)

-- The offsets that a new stream starts with: what may be received, and what may be sent.
abbrev pub max_rx_offset : Conn → ℕ → ℕ
max_rx_offset conn stream_id =
    if bidi_stream stream_id
    then (if local_stream conn stream_id
        then conn.local_params.initial_max_stream_data_bidi_local
        else conn.local_params.initial_max_stream_data_bidi_remote)
    else if local_stream conn stream_id
    then 0
    else conn.local_params.initial_max_stream_data_uni

abbrev pub max_tx_offset : Conn → ℕ → ℕ
max_tx_offset conn stream_id =
    if bidi_stream stream_id
    then (if local_stream conn stream_id
        then conn.remote_params.initial_max_stream_data_bidi_remote
        else conn.remote_params.initial_max_stream_data_bidi_local)
    else if local_stream conn stream_id
    then conn.remote_params.initial_max_stream_data_uni
    else 0

-- A new stream; a unidirectional one is shut on one side.
unfoldable pub new_strm : Conn → ℕ → Strm
new_strm conn stream_id =
    let strm =
      init stream_id no_flags (max_rx_offset conn stream_id) (max_tx_offset conn stream_id) in
    if bidi_stream stream_id
    then strm
    else if local_stream conn stream_id
    then shutdown true false strm
    else shutdown false true strm

-- The insertion into the map asserts that the stream ID is not there.
unfoldable pub create_stream : ℕ → Conn → Result (Strm × Conn)
unfolding new_strm
create_stream stream_id conn = do
  check (absent (find_stream conn stream_id))
  ok (new_strm conn stream_id, record conn { strms = new_strm conn stream_id ∷ conn.strms })

-- The event of conn_call_stream_close, with what its flags say of the error codes.
abbrev pub close_event : Strm → Event
close_event strm =
    stream_close (strm.flags.tx_stop_sending_app_error_code_set || strm.flags.rx_app_error_code_set)
      strm.flags.tx_reset_stream_app_error_code_set strm.stream_id
      (if strm.flags.tx_stop_sending_app_error_code_set
        then strm.tx.stop_sending_app_error_code
        else if strm.flags.rx_app_error_code_set
        then strm.rx.app_error_code
        else 0)
      strm.tx.reset_stream_app_error_code

-- dwnx_pq_remove asserts that the entry stands where its `pe.index` says.
unfoldable pub take_out : ℕ → List Entry → Option Entry → Result (List Entry)
take_out index q none = fault
take_out index q (some e) = Pq.remove cycle_less e index q

unfoldable pub dequeue : Strm → Conn → Result Conn
unfolding take_out
dequeue strm conn =
    let q = conn.tx.strmq in
    let index = pe_index strm.stream_id q in
    if is_tx_queued strm
    then (do q ← take_out index q (Pq.get_elem? q index); ok (with_strmq q conn))
    else ok conn

-- The removal from the map asserts that the stream ID is there.
abbrev pub was_there : Option (List Strm) → Result (List Strm)
was_there none = fault
was_there (some strms) = ok strms

unfoldable pub close_stream : Strm → Conn → Result Conn
unfolding dequeue
close_stream strm conn = do
  conn ← call (close_event strm) conn
  strms ← was_there (remove_strm strm.stream_id conn.strms)
  dequeue strm (record conn { strms = strms })

-- `strm` is in the map as it is here.
unfoldable pub close_stream_if_shut_rdwr : Strm → Conn → Result Conn
unfolding close_stream
close_stream_if_shut_rdwr strm conn =
    if should_close_stream strm then close_stream strm conn else ok conn
