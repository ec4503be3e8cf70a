-- ===== src/Conn/Read/Invariant.antt =====
-- What every state of dwnx_conn_read keeps, and what a round of its loop ends with.
use dwnx.Prelude.{
  ℕ, ◌-◌, ◌≤◌, ◌<◌, ◌≡◌, ◌⊎◌, List, [], true, false, ◌||◌, ◌&&◌, length, All, IsByte, Option, none,
  some, Error, Result, Holds,
}
use dwnx.Vec.{max_varint}
use dwnx.Conv.Wire.{parse_varint}
use dwnx.VarintReader.{VarintReader}
use dwnx.VarintReader.Pieces.{held}
use dwnx.RecordReader.{State}
use dwnx.Conn.{Conn, local_stream}
use dwnx.Conn.Invariant.{IsConn}
use dwnx.Conn.Clock.{Clock}
use dwnx.Conn.Present.{Present}
use dwnx.Conn.Read.{Reading, Flow, returns, again}
use dwnx.Conn.Read.Loop.{idle_code}

-- A reader at the start or in the middle of an integer.
abbrev pub IsHeld : VarintReader → Type 0
IsHeld vird = (seen : List ℕ) × (vird ≡ held seen) × (parse_varint seen ≡ none) × All IsByte seen

-- Before the peer's transport parameters, a side that remembers early ones is a client, and every stream
-- of a client is its own.
abbrev pub IsEarly : Conn → Type 0
IsEarly conn =
    ((conn.early_transport_params_set && conn.server) ≡ false)
    × All (λ s. (conn.server || local_stream conn s.stream_id) ≡ true) conn.strms

-- What does not depend on the state of the reader, at the time `ts`.
abbrev pub IsBase : ℕ → Reading → Type 0
IsBase ts r =
    (IsConn r.conn × Clock ts r.conn)
    × (r.last_ts ≡ ts)
    × IsHeld r.vird
    × All IsByte r.p
    × (r.rcrd.record_left ≤ max_varint)

-- The record goes on, behind the transport parameters.
abbrev pub GoesOn : Reading → Type 0
GoesOn r = (0 < r.rcrd.record_left) × (r.seen ≡ true)

-- The field and the record go on.
abbrev pub InField : Reading → Type 0
InField r = (0 < r.rcrd.field_left) × (r.rcrd.field_left ≤ r.rcrd.record_left) × (r.seen ≡ true)

-- The buffer is not full, and the record has what it wants.
abbrev pub InBuf : Reading → Type 0
InBuf r =
    (length r.rcrd.buf.bytes < r.rcrd.buf.size)
    × (r.rcrd.buf.size - length r.rcrd.buf.bytes ≤ r.rcrd.record_left)
    × (r.seen ≡ true)

-- What a state of the reader keeps, whatever the input.
abbrev FitsIn : State → Reading → Type 0
FitsIn State.record_size r = (r.seen ≡ true) ⊎ IsEarly r.conn
FitsIn State.frame_type r = (0 < r.rcrd.record_left) × ((r.seen ≡ true) ⊎ IsEarly r.conn)
FitsIn State.qx_transport_parameters_len r = GoesOn r × IsEarly r.conn
FitsIn State.qx_transport_parameters_params r =
    InBuf r × All IsByte r.rcrd.buf.bytes × IsEarly r.conn
FitsIn State.stream_offset r = GoesOn r × (r.rcrd.fr.stream.stream_id ≤ max_varint)
FitsIn State.stream_length r = GoesOn r × (r.rcrd.fr.stream.stream_id ≤ max_varint)
FitsIn State.stream_data r = InField r × Present r.rcrd.fr.stream.stream_id r.conn
FitsIn State.reset_stream_app_error_code r =
    GoesOn r × (r.rcrd.fr.reset_stream.stream_id ≤ max_varint)
FitsIn State.reset_stream_final_size r = GoesOn r × (r.rcrd.fr.reset_stream.stream_id ≤ max_varint)
FitsIn State.stop_sending_app_error_code r =
    GoesOn r × (r.rcrd.fr.stop_sending.stream_id ≤ max_varint)
FitsIn State.max_stream_data_max_stream_data r =
    GoesOn r × (r.rcrd.fr.max_stream_data.stream_id ≤ max_varint)
FitsIn State.stream_data_blocked_offset r =
    GoesOn r × (r.rcrd.fr.stream_data_blocked.stream_id ≤ max_varint)
FitsIn State.connection_close_reason r = InBuf r
FitsIn State.datagram_data r = InField r
FitsIn State.draining r = Unit
FitsIn State.closing r = Unit
FitsIn _ r = GoesOn r

abbrev pub Fits : State → Reading → Type 0
Fits state r = FitsIn state (record r { last_ts = 0; p = [] })

-- A state in which a read starts.
abbrev pub IsReading : Reading → Type 0
IsReading r = IsBase r.last_ts r × Fits r.rcrd.state r

-- A read that returns 0 has taken all the bytes; an error code is that of a state that reads no more.
abbrev pub IsCode : Option Error → Reading → Type 0
IsCode none r = r.p ≡ []
IsCode (some code) r = idle_code r.rcrd.state ≡ some code

abbrev pub IsEnd : ℕ → Option Error → Reading → Type 0
IsEnd ts code r = IsBase ts r × Fits r.rcrd.state r × IsCode code r

-- A round that started with at most `n` bytes goes on with fewer.
abbrev pub Outcome : ℕ → ℕ → Flow → Type 0
Outcome n ts (returns code r) = IsEnd ts code r
Outcome n ts (again r) = IsBase ts r × Fits r.rcrd.state r × (length r.p < n)

abbrev pub Ends : ℕ → ℕ → Result Flow → Type 0
Ends n ts m = Holds (Outcome n ts) m
