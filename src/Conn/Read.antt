-- ===== src/Conn/Read.antt =====
-- The steps that the states of dwnx_conn_read of lib/dwnx_conn.c have in common: the state of a read,
-- what a case of its `switch` ends with, and the opening of a case that reads an integer.
pub mod Control
pub mod Data
pub mod Long
pub mod Start
pub mod Loop
mod Invariant
mod Steps
mod ControlEnds
mod DataEnds
mod DatagramEnds
mod StreamEnds
mod LongEnds
mod TypeEnds
mod StartEnds
mod LoopEnds
mod Fuel
mod Whole
mod Dispatch
mod Integers
mod Pings
mod Handlers
pub mod Runs
use dwnx.Prelude.{
  ℕ, ◌-◌, List, [], ◌∷◌, Bool, true, false, not, ◌==◌, if◌then◌else◌, length, take, drop,
}
use dwnx.Prelude.{
  Error, Result, ok, err, fault, ◌>>=◌, ◌>>◌, guard, on_error, frame_encoding, Option, none, some,
}
use dwnx.VarintReader
use dwnx.VarintReader.{VarintReader, Acc}
use dwnx.RecordReader
use dwnx.RecordReader.{State, Frames, RecordReader, avail, is_record_size}
use dwnx.Conn.{Conn}

-- What dwnx_conn_read reads and writes: of the connection its state `conn`, `flags &
-- DWNX_CONN_FLAG_QX_TRANSPORT_PARAMETERS_SEEN`, `rx.vird`, `rx.rcrd`, `idle_ts` and `log.last_ts`, and the
-- bytes `p` up to `end`.
pub record Reading : Type 0 where
  pub conn : Conn
  pub seen : Bool
  pub vird : VarintReader
  pub rcrd : RecordReader
  pub idle_ts : ℕ
  pub last_ts : ℕ
  pub p : List ℕ

-- A case ends with a `return`, of 0 or of an error code, or goes on with the loop. The state that an error
-- of a handler or of a malformed frame leaves is not kept: the connection is closed.
pub data Flow : Type 0 where
  returns : Option Error → Reading → Flow
  again : Reading → Flow

abbrev pub with_state : State → Reading → Reading
with_state state r = record r { rcrd = record r.rcrd { state = state } }

abbrev pub with_fr : Frames → Reading → Reading
with_fr fr r = record r { rcrd = record r.rcrd { fr = fr } }

abbrev pub with_conn : Conn → Reading → Reading
with_conn conn r = record r { conn = conn }

-- `p == end`
abbrev pub at_end : List ℕ → Bool
at_end [] = true
at_end (b ∷ p) = false

-- `p += len; rcrd->record_left -= len;`
abbrev pub advance : ℕ → Reading → Reading
advance len r = record r {
  p = drop len r.p;
  rcrd = record r.rcrd { record_left = r.rcrd.record_left - len };
}

abbrev pub with_rcrd : ℕ → RecordReader → Reading → Reading
with_rcrd ts rcrd r = record r {
  rcrd = rcrd;
  idle_ts = if is_record_size rcrd.state then ts else r.idle_ts;
}

-- The label `frame_done`.
unfoldable pub frame_done : ℕ → Reading → Result Flow
frame_done ts r = ok (again (with_rcrd ts (RecordReader.reset r.rcrd) r))

-- `if (rcrd->record_left == 0) return DWNX_ERR_FRAME_ENCODING;`
abbrev pub more : Reading → Result (Unit {0})
more r = guard (not (r.rcrd.record_left == 0)) frame_encoding

-- `rcrd->state = state; break;`
abbrev pub break_to : State → Reading → Result Flow
break_to state r = ok (again (with_state state r))

-- `rcrd->state = state; if (p == end) return 0;`, and the next case.
unfoldable pub fall_through : State → (Reading → Result Flow) → Reading → Result Flow
fall_through state next r =
    if at_end r.p then ok (returns none (with_state state r)) else next (with_state state r)

-- `rv = ...; if (rv != 0) return rv; goto frame_done;`
unfoldable pub handled : ℕ → Result Conn → Reading → Result Flow
unfolding frame_done
handled ts result r = do conn ← result; frame_done ts (with_conn conn r)

-- The same for a handler that changes nothing.
unfoldable pub checked : ℕ → Result (Unit {0}) → Reading → Result Flow
unfolding frame_done
checked ts result r = do result; frame_done ts r

-- `vird->acc`, which is a number of the host once the integer is complete.
abbrev pub acc_value : Acc → Result ℕ
acc_value (Acc.number n) = ok n
acc_value (Acc.network bytes) = fault

-- `if (!dwnx_varint_reader_done(vird)) return 0;`, the number and its length, and the reset.
unfoldable pub varint_read : (ℕ → ℕ → Reading → Result Flow) → Reading → Result Flow
varint_read next r =
    if VarintReader.done r.vird
    then (do
      vint ← acc_value r.vird.acc
      next vint r.vird.vlen (record r { vird = VarintReader.reset }))
    else ok (returns none r)

-- The opening of a case that reads an integer within the record.
unfoldable pub varint_len_field : (ℕ → ℕ → Reading → Result Flow) → Reading → Result Flow
unfolding varint_read
varint_len_field next r = do
  let len = avail r.rcrd (length r.p)
  (nread, vird) ←
      on_error frame_encoding (VarintReader.read r.vird (take len r.p) (r.rcrd.record_left == len))
  varint_read next (advance nread (record r { vird = vird }))

abbrev pub varint_field : (ℕ → Reading → Result Flow) → Reading → Result Flow
varint_field next = varint_len_field (λ vint vlen. next vint)
