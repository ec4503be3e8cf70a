-- ===== src/Conn/Read/LoopEnds.antt =====
-- The loop of dwnx_conn_read ends, keeps the connection and the reader in order, and no assertion in it or
-- in what it calls fails.
use dwnx.Prelude.{
  ℕ, zero, suc, ◌≤◌, ◌<◌, ◌≡◌, refl, sym, subst, ap, arith, List, [], ◌∷◌, true, false, true≢false,
  leb, le→leb, length, All, IsByte, Option, none, some,
}
use dwnx.Prelude.{
  Error, Result, ok, fault, ◌>>=◌, draining, closing, Holds, Holds-bind, Holds-check, Holds-if,
  Holds-ok, Holds-map,
}
use dwnx.Vec.{max_varint}
use dwnx.VarintReader
use dwnx.VarintReader.{VarintReader}
use dwnx.RecordReader.{State}
use dwnx.Conn.Read.{Reading, Flow, returns, again, at_end, varint_len_field}
use dwnx.Conn.Read.Loop.{cases, Returned, go_on, rounds, idle_code, conn_read}
use dwnx.Conn.Read.Start.{frame_type}
use dwnx.Conn.Read.Invariant.{IsBase, IsReading, IsCode, IsEnd, Fits, Ends, Outcome}
use dwnx.Conn.Read.Steps.{after, field-Ends}
use dwnx.Conn.Read.Control
use dwnx.Conn.Read.Data
use dwnx.Conn.Read.Long
use dwnx.Conn.Read.ControlEnds
use dwnx.Conn.Read.DataEnds
use dwnx.Conn.Read.StreamEnds
use dwnx.Conn.Read.LongEnds
use dwnx.Conn.Read.StartEnds
use dwnx.Conn.Read.TypeEnds
use dwnx.Conn.Read.DatagramEnds

module _ (n ts : ℕ) (r : Reading) (b : IsBase ts r) (h : 0 < length r.p) (l : length r.p ≤ n) where
  -- A case that reads an integer in the middle of a record.
  field :
      (state : State) (next : ℕ → ℕ → Reading → Result Flow)
      → r.rcrd.state ≡ state
      → 0 < r.rcrd.record_left
      → ((vird : VarintReader) (left : ℕ) (p : List ℕ)
          → 0 < left
          → Fits state (after vird left p r))
      → ((vint vlen left : ℕ) (p : List ℕ)
          → vint ≤ max_varint
          → length p < n
          → IsBase ts (after VarintReader.reset left p r)
          → Ends n ts (next vint vlen (after VarintReader.reset left p r)))
      → Ends n ts (varint_len_field next r)
  field state next e g stay go =
      field-Ends n ts next r b h l g
        (λ vird left q k. subst (λ s. Fits s (after vird left q r)) (sym e) (stay vird left q k)) go

  pub cases-Ends :
      (state : State) → r.rcrd.state ≡ state → Fits state r → Ends n ts (cases ts state r)
  unfolding cases
  cases-Ends State.record_size e f = StartEnds.record_size-Ends n ts r b e f h l
  cases-Ends State.frame_type e f =
      field State.frame_type (frame_type ts) e f.0 (λ vird left q k. (k, f.1))
        (λ v vlen left q m s c.
          TypeEnds.frame_type-Ends n ts v vlen (after VarintReader.reset left q r) c f.1 s)
  cases-Ends State.qx_transport_parameters_len e f =
      field State.qx_transport_parameters_len (λ vint vlen. Long.params_len ts vint) e f.0.0
        (λ vird left q k. ((k, f.0.1), f.1))
        (λ v vlen left q m s c.
          LongEnds.params_len-Ends n ts v (after VarintReader.reset left q r) c f.0.1 f.1 s)
  cases-Ends State.qx_transport_parameters_params e f =
      LongEnds.params_bytes-Ends n ts r b e f.0 f.1 f.2 h l
  cases-Ends State.qx_ping_seq e f =
      field State.qx_ping_seq (λ vint vlen. Control.ping_seq ts vint) e f.0
        (λ vird left q k. (k, f.1))
        (λ v vlen left q m s c.
          ControlEnds.ping_seq-Ends n ts v (after VarintReader.reset left q r) c f.1 s)
  cases-Ends State.draining e f =
      Holds-ok (Outcome n ts) (returns (some draining) r)
        (b, subst (λ s. Fits s r) (sym e) tt, ap idle_code e)
  cases-Ends State.closing e f =
      Holds-ok (Outcome n ts) (returns (some closing) r)
        (b, subst (λ s. Fits s r) (sym e) tt, ap idle_code e)
  cases-Ends State.stream_data e f = DataEnds.stream_data-Ends n ts r b e f h l
  cases-Ends State.datagram_data e f = DatagramEnds.datagram_data-Ends n ts r b e f h l
  cases-Ends State.connection_close_reason e f = LongEnds.close_reason-Ends n ts r b e f
  cases-Ends State.datagram_len e f =
      field State.datagram_len (Data.datagram_len ts) e f.0 (λ vird left q k. (k, f.1))
        (λ v vlen left q m s c.
          DatagramEnds.datagram_len-Ends n ts v vlen (after VarintReader.reset left q r) c f.1 s)
  cases-Ends State.stream_stream_id e f =
      field State.stream_stream_id (λ vint vlen. Data.stream_stream_id ts vint) e f.0
        (λ vird left q k. (k, f.1))
        (λ v vlen left q m s c.
          StreamEnds.stream_stream_id-Ends n ts v (after VarintReader.reset left q r) c f.1 m s)
  cases-Ends State.reset_stream_stream_id e f =
      field State.reset_stream_stream_id (λ vint vlen. Control.reset_stream_id ts vint) e f.0
        (λ vird left q k. (k, f.1))
        (λ v vlen left q m s c.
          ControlEnds.reset_stream_id-Ends n ts v (after VarintReader.reset left q r) c f.1 m s)
  cases-Ends State.stop_sending_stream_id e f =
      field State.stop_sending_stream_id (λ vint vlen. Control.stop_stream_id ts vint) e f.0
        (λ vird left q k. (k, f.1))
        (λ v vlen left q m s c.
          ControlEnds.stop_stream_id-Ends n ts v (after VarintReader.reset left q r) c f.1 m s)
  cases-Ends State.max_data_max_data e f =
      field State.max_data_max_data (λ vint vlen. Control.max_data ts vint) e f.0
        (λ vird left q k. (k, f.1))
        (λ v vlen left q m s c.
          ControlEnds.max_data-Ends n ts v (after VarintReader.reset left q r) c f.1 s)
  cases-Ends State.max_stream_data_stream_id e f =
      field State.max_stream_data_stream_id (λ vint vlen. Control.max_data_stream_id ts vint) e f.0
        (λ vird left q k. (k, f.1))
        (λ v vlen left q m s c.
          ControlEnds.max_data_stream_id-Ends n ts v (after VarintReader.reset left q r) c f.1 m s)
  cases-Ends State.max_streams_max_streams e f =
      field State.max_streams_max_streams (λ vint vlen. Control.max_streams ts vint) e f.0
        (λ vird left q k. (k, f.1))
        (λ v vlen left q m s c.
          ControlEnds.max_streams-Ends n ts v (after VarintReader.reset left q r) c f.1 s)
  cases-Ends State.data_blocked_offset e f =
      field State.data_blocked_offset (λ vint vlen. Control.blocked_offset ts vint) e f.0
        (λ vird left q k. (k, f.1))
        (λ v vlen left q m s c.
          ControlEnds.blocked_offset-Ends n ts v (after VarintReader.reset left q r) c f.1 s)
  cases-Ends State.stream_data_blocked_stream_id e f =
      field State.stream_data_blocked_stream_id (λ vint vlen. Control.stream_blocked_id ts vint) e
        f.0 (λ vird left q k. (k, f.1))
        (λ v vlen left q m s c.
          ControlEnds.stream_blocked_id-Ends n ts v (after VarintReader.reset left q r) c f.1 m s)
  cases-Ends State.streams_blocked_max_streams e f =
      field State.streams_blocked_max_streams (λ vint vlen. Control.streams_blocked ts vint) e f.0
        (λ vird left q k. (k, f.1))
        (λ v vlen left q m s c.
          ControlEnds.streams_blocked-Ends n ts v (after VarintReader.reset left q r) c f.1 s)
  cases-Ends State.connection_close_error_code e f =
      field State.connection_close_error_code (λ vint vlen. Long.close_error_code vint) e f.0
        (λ vird left q k. (k, f.1))
        (λ v vlen left q m s c.
          LongEnds.close_error_code-Ends n ts v (after VarintReader.reset left q r) c f.1 s)
  cases-Ends State.connection_close_frame_type e f =
      field State.connection_close_frame_type (λ vint vlen. Long.close_frame_type vint) e f.0
        (λ vird left q k. (k, f.1))
        (λ v vlen left q m s c.
          LongEnds.close_frame_type-Ends n ts v (after VarintReader.reset left q r) c f.1 s)
  cases-Ends State.connection_close_reasonlen e f =
      field State.connection_close_reasonlen (λ vint vlen. Long.close_reasonlen vint) e f.0
        (λ vird left q k. (k, f.1))
        (λ v vlen left q m s c.
          LongEnds.close_reasonlen-Ends n ts v (after VarintReader.reset left q r) c f.1 s)
  cases-Ends State.stream_offset e f =
      field State.stream_offset (λ vint vlen. Data.stream_offset ts vint) e f.0.0
        (λ vird left q k. ((k, f.0.1), f.1))
        (λ v vlen left q m s c.
          StreamEnds.stream_offset-Ends n ts v (after VarintReader.reset left q r) c f.0.1 f.1 s)
  cases-Ends State.stream_length e f =
      field State.stream_length (λ vint vlen. Data.stream_length ts vint) e f.0.0
        (λ vird left q k. ((k, f.0.1), f.1))
        (λ v vlen left q m s c.
          StreamEnds.stream_length-Ends n ts v (after VarintReader.reset left q r) c f.0.1 f.1 s)
  cases-Ends State.reset_stream_app_error_code e f =
      field State.reset_stream_app_error_code (λ vint vlen. Control.reset_app_error_code ts vint) e
        f.0.0 (λ vird left q k. ((k, f.0.1), f.1))
        (λ v vlen left q m s c.
          ControlEnds.reset_app_error_code-Ends n ts v (after VarintReader.reset left q r) c f.0.1
            f.1 s)
  cases-Ends State.reset_stream_final_size e f =
      field State.reset_stream_final_size (λ vint vlen. Control.reset_final_size ts vint) e f.0.0
        (λ vird left q k. ((k, f.0.1), f.1))
        (λ v vlen left q m s c.
          ControlEnds.reset_final_size-Ends n ts v (after VarintReader.reset left q r) c f.0.1 f.1
            s)
  cases-Ends State.stop_sending_app_error_code e f =
      field State.stop_sending_app_error_code (λ vint vlen. Control.stop_app_error_code ts vint) e
        f.0.0 (λ vird left q k. ((k, f.0.1), f.1))
        (λ v vlen left q m s c.
          ControlEnds.stop_app_error_code-Ends n ts v (after VarintReader.reset left q r) c f.0.1
            f.1 s)
  cases-Ends State.max_stream_data_max_stream_data e f =
      field State.max_stream_data_max_stream_data (λ vint vlen. Control.max_stream_data ts vint) e
        f.0.0 (λ vird left q k. ((k, f.0.1), f.1))
        (λ v vlen left q m s c.
          ControlEnds.max_stream_data-Ends n ts v (after VarintReader.reset left q r) c f.0.1 f.1 s)
  cases-Ends State.stream_data_blocked_offset e f =
      field State.stream_data_blocked_offset (λ vint vlen. Control.stream_blocked_offset ts vint) e
        f.0.0 (λ vird left q k. ((k, f.0.1), f.1))
        (λ v vlen left q m s c.
          ControlEnds.stream_blocked_offset-Ends n ts v (after VarintReader.reset left q r) c f.0.1
            f.1 s)

at_end-nil : (p : List ℕ) → at_end p ≡ true → p ≡ []
at_end-nil [] e = refl
at_end-nil (x ∷ p) e = absurd (true≢false (sym e))

pub at_end-more : (p : List ℕ) → at_end p ≡ false → 0 < length p
at_end-more [] e = absurd (true≢false e)
at_end-more (x ∷ p) e = omega arith

abbrev pub End : ℕ → Returned → Type 0
End ts out = IsEnd ts out.0 out.1

pub rounds-End :
    (fuel ts : ℕ) (r : Reading)
    → IsBase ts r
    → Fits r.rcrd.state r
    → length r.p ≤ fuel
    → Holds (End ts) (rounds fuel ts r)
unfolding rounds
rounds-End zero ts r b f l =
    Holds-if (End ts) (at_end r.p) (ok (none, r)) fault
      (λ e. Holds-ok (End ts) (none, r) (b, f, at_end-nil r.p e))
      (λ e. absurd (omega (arith, at_end-more r.p e)))
rounds-End (suc fuel) ts r b f l =
    Holds-if (End ts) (at_end r.p) (ok (none, r))
      (cases ts r.rcrd.state r >>= go_on (rounds fuel ts))
      (λ e. Holds-ok (End ts) (none, r) (b, f, at_end-nil r.p e))
      (λ e.
        Holds-bind (Outcome (suc fuel) ts) (End ts) (cases ts r.rcrd.state r)
          (go_on (rounds fuel ts))
          (cases-Ends (suc fuel) ts r b (at_end-more r.p e) l r.rcrd.state refl f)
          (goes (λ r' b' f' l'. rounds-End fuel ts r' b' f' l')))
  where
    goes :
        ((r' : Reading)
          → IsBase ts r'
          → Fits r'.rcrd.state r'
          → length r'.p ≤ fuel
          → Holds (End ts) (rounds fuel ts r'))
        → (a : Flow) → Outcome (suc fuel) ts a
        → Holds (End ts) (go_on (rounds fuel ts) a)
    goes rec (returns code r') o = Holds-ok (End ts) (code, r') o
    goes rec (again r') o = rec r' o.0 o.1 (omega (arith, o.2))

-- A read that starts in order, with bytes and at a time that is not before the last one, does not fail an
-- assertion and does not run out of fuel. What it leaves is in order again, at that time; where it returns
-- 0, all the bytes have been read, and where it returns that the connection is draining or closing, the
-- reader is in that state.
pub conn_read-IsReading :
    (bytes : List ℕ) (ts : ℕ) (r : Reading)
    → IsReading r
    → All IsByte bytes
    → r.last_ts ≤ ts
    → Holds
        (λ out. IsReading out.1 × (out.1.last_ts ≡ ts) × IsCode out.0 out.1)
        (conn_read bytes ts r)
unfolding conn_read
conn_read-IsReading bytes ts r i k t = Holds-check P (leb r.last_ts ts) _ (le→leb r.last_ts ts t) (
    Holds-if P (at_end bytes) (ok (idle_code r.rcrd.state, r')) (rounds (length bytes) ts r')
      (λ e.
        Holds-ok P (idle_code r.rcrd.state, r')
          ((b', i.1), refl, idle (idle_code r.rcrd.state) refl (at_end-nil bytes e)))
      (λ e.
        Holds-map P (End ts) (rounds (length bytes) ts r')
          (rounds-End (length bytes) ts r' b' i.1 (omega arith))
          (λ out h. ((subst (λ t. IsBase t out.1) (sym h.0.1) h.0, h.1), h.0.1, h.2))))
  where
    P : Returned → Type 0
    P out = IsReading out.1 × (out.1.last_ts ≡ ts) × IsCode out.0 out.1

    r' : Reading
    r' = record r { last_ts = ts; p = bytes }

    b' : IsBase ts r'
    b' = ((i.0.0.0, (i.0.0.1.0, omega (arith, i.0.0.1.1))), refl, i.0.2, k, i.0.4)

    idle : (o : Option Error) → idle_code r.rcrd.state ≡ o → bytes ≡ [] → IsCode o r'
    idle none e n = n
    idle (some code) e n = e
