-- ===== src/Conn/Invariant.antt =====
-- What every operation on a connection keeps.
use dwnx.Prelude.{
  ℕ, ◌+◌, ◌%◌, ◌^◌, ◌≤◌, ◌<◌, ◌≡◌, List, ◌∷◌, Bool, true, false, ◌==◌, ltb, if◌then◌else◌, All,
  Result, ok, err, callback_failure, ◌>>=◌, Holds,
}
use dwnx.Vec.{max_varint}
use dwnx.TransportParams.{TransportParams}
use dwnx.Strm.{Strm}
use dwnx.Ratelim.Bucket
use dwnx.Gaptr.Gaps.{IsGaps}
use dwnx.Gaptr.Idtr.{opened}
use dwnx.Pq.Count.{count}
use dwnx.Conn.{
  Conn, Entry, Event, RxStreams, TxStreams, local_stream, bidi_stream, max_streams_limit, absent,
  find, call,
}
use dwnx.Conn.Receive.{idtr}
use dwnx.Conn.Strms.{Unique}

-- What the peer may send on a stream: what it has sent is within what it was told, which is within what
-- it may be told.
abbrev pub IsCredit : Strm → Type 0
IsCredit strm =
    (strm.rx.last_offset ≤ strm.rx.max_offset)
    × (strm.rx.max_offset ≤ strm.rx.unsent_max_offset)
    × (strm.rx.unsent_max_offset ≤ max_varint)

-- A stream ID of ours is below the next one, and one of the peer's has been opened.
abbrev pub known : Conn → ℕ → Bool
known conn id =
    if local_stream conn id
    then ltb id (if bidi_stream id then conn.tx.bidi.next_stream_id else conn.tx.uni.next_stream_id)
    else opened id (idtr conn id)

-- The entries of a stream in the transmission queue.
abbrev pub entries : ℕ → List Entry → ℕ
entries id q = count (λ e. e.stream_id == id) q

abbrev pub IsStrm : Conn → Strm → Type 0
IsStrm conn strm =
    IsCredit strm
    × (strm.stream_id < 2 ^ 62)
    × (known conn strm.stream_id ≡ true)
    × (entries strm.stream_id conn.tx.strmq ≡ (if strm.queued then 1 else 0))

abbrev pub IsRxStreams : RxStreams → Type 0
IsRxStreams streams =
    (streams.max_streams ≤ streams.unsent_max_streams)
    × (streams.unsent_max_streams ≤ max_streams_limit)

-- The stream IDs that are opened are `first`, and every fourth one after it.
abbrev pub IsTxStreams : ℕ → TxStreams → Type 0
IsTxStreams first streams =
    (streams.max_streams ≤ max_streams_limit)
    × (streams.next_stream_id % 4 ≡ first)
    × (streams.next_stream_id ≤ 2 ^ 62 + 3)

abbrev pub IsLimits : TransportParams → Type 0
IsLimits params =
    (params.initial_max_stream_data_bidi_local ≤ max_varint)
    × (params.initial_max_stream_data_bidi_remote ≤ max_varint)
    × (params.initial_max_stream_data_uni ≤ max_varint)

-- The numbers of the connection itself.
abbrev pub IsBook : Conn → Type 0
IsBook conn =
    ((conn.rx.offset ≤ conn.rx.max_offset)
      × (conn.rx.max_offset ≤ conn.rx.unsent_max_offset)
      × (conn.rx.unsent_max_offset ≤ max_varint))
    × (IsRxStreams conn.rx.bidi × IsRxStreams conn.rx.uni)
    × (IsTxStreams (if conn.server then 1 else 0) conn.tx.bidi
        × IsTxStreams (if conn.server then 3 else 2) conn.tx.uni)
    × (IsGaps conn.bidi_idtr × IsGaps conn.uni_idtr)
    × IsLimits conn.local_params
    × Bucket.IsValid conn.glitch_rlim

-- The entries that a stream ID may have in the queue.
abbrev pub seats : Bool → ℕ
seats true = 0
seats false = 1

-- A state in which the connection can be: its numbers are in order, no stream stands twice, each stream is
-- in order, and a stream ID that is not in the map is not in the queue.
abbrev pub IsConn : Conn → Type 0
IsConn conn =
    IsBook conn
    × (Unique conn.strms)
    × All (IsStrm conn) conn.strms
    × ((id : ℕ) → entries id conn.tx.strmq ≤ seats (absent (find id conn.strms)))

-- A stream of the map, as it stands there or changed.
abbrev pub IsIn : Conn → Strm → Type 0
IsIn conn strm = IsStrm conn strm × (absent (find strm.stream_id conn.strms) ≡ false)

-- A callback changes nothing but the list of the calls.
pub call-Holds :
    (P : Conn → Type 0) (event : Event) (conn : Conn)
    → P (record conn { calls = event ∷ conn.calls })
    → Holds P (call event conn)
unfolding Holds
call-Holds P event conn h = either (conn.accepts event)
  where
    either :
        (b : Bool)
        → Holds P
            (if b then ok (record conn { calls = event ∷ conn.calls }) else err callback_failure)
    either true = h
    either false = tt

-- A call, and what comes after it where the callback accepts.
pub Holds-call {ℓ} :
    {A : Type ℓ} (P : A → Type 0) (event : Event) (conn : Conn) (f : Conn → Result A)
    → Holds P (f (record conn { calls = event ∷ conn.calls }))
    → Holds P (call event conn >>= f)
unfolding Holds
Holds-call P event conn f h = either (conn.accepts event)
  where
    either :
        (b : Bool)
        → Holds P (
            (if b then ok (record conn { calls = event ∷ conn.calls }) else err callback_failure)
            >>= f)
    either true = h
    either false = tt
