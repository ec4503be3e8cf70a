-- ===== src/Conn/Read/DatagramEnds.antt =====
-- The cases of DATAGRAM frames keep what a read keeps.
use dwnx.Prelude.{
  ℕ, ◌-◌, ◌≤◌, ◌<◌, ◌≡◌, refl, sym, subst, arith, List, true, false, ◌==◌, leb, leb→le, length,
  take,
}
use dwnx.Prelude.{
  Result, ◌>>=◌, Holds-bind, Holds-guard, Holds-if, Holds-and, frame_encoding, proto,
}
use dwnx.Conn.{Conn, Event, sub64}
use dwnx.Conn.Invariant.{IsConn, call-Holds}
use dwnx.Conn.Clock.{Clock}
use dwnx.Conn.Clock.Frames.{recv_datagram-Clock}
use dwnx.Conn.Credits.{recv_datagram}
use dwnx.RecordReader.{State, field_avail}
use dwnx.Conn.Read.{Reading, Flow, with_state, with_conn, advance, frame_done, fall_through}
use dwnx.Conn.Read.Data.{with_datagram, with_field, datagram_data, datagram_begin, datagram_len}
use dwnx.Conn.Read.Invariant.{IsBase, Fits, InField, Ends, Outcome}
use dwnx.Conn.Read.Steps.{frame_done-Ends, fall_through-Ends}
use dwnx.Conn.Read.DataEnds.{field_taken-Ends}

module _ (n ts : ℕ) where
  pub datagram_data-Ends :
      (r : Reading)
      → IsBase ts r
      → r.rcrd.state ≡ State.datagram_data
      → InField r
      → 0 < length r.p
      → length r.p ≤ n
      → Ends n ts (datagram_data ts r)
  unfolding datagram_data recv_datagram
  datagram_data-Ends r b e f h l =
      Holds-bind (λ c. IsConn c × Clock ts c) (Outcome n ts) received _
        (Holds-and IsConn (Clock ts) received (call-Holds IsConn event r.conn b.0.0)
          (recv_datagram-Clock ts _ _ _ _ r.conn b.0.1))
        (λ c i.
          field_taken-Ends n ts (with_conn c r) (i, b.1, b.2, b.3, b.4) f h l
            (λ z.
              subst
                (λ s. Fits s (with_field (r.rcrd.field_left - len) (advance len (with_conn c r))))
                (sym e) (positive (r.rcrd.field_left - len) z, omega (arith, f.1), f.2)))
    where
      len : ℕ
      len = field_avail r.rcrd (length r.p)

      event : Event
      event =
          Event.recv_datagram (r.rcrd.field_left == len) r.rcrd.fr.datagram.len
            (sub64 r.rcrd.fr.datagram.len r.rcrd.field_left) (take len r.p)

      received : Result Conn
      received =
          recv_datagram (r.rcrd.field_left == len) r.rcrd.fr.datagram.len
            (sub64 r.rcrd.fr.datagram.len r.rcrd.field_left) (take len r.p) r.conn

      positive : (n : ℕ) → (n == 0) ≡ false → 0 < n
      positive n z = ground arith

  pub datagram_begin-Ends :
      (len : ℕ) (next : Reading → Result Flow) (r : Reading)
      → IsBase ts r
      → r.seen ≡ true
      → length r.p < n
      → (0 < len → Ends n ts (next (with_field len r)))
      → Ends n ts (datagram_begin ts len next r)
  unfolding datagram_begin recv_datagram
  datagram_begin-Ends len next r b s l k =
      Holds-if (Outcome n ts) (len == 0) (received >>= (λ conn. frame_done ts (with_conn conn r)))
        (next (with_field len r))
        (λ z.
          Holds-bind (λ c. IsConn c × Clock ts c) (Outcome n ts) received _
            (Holds-and IsConn (Clock ts) received (call-Holds IsConn event r.conn b.0.0)
              (recv_datagram-Clock ts true 0 0 List.[] r.conn b.0.1))
            (λ c i. frame_done-Ends n ts (with_conn c r) (i, b.1, b.2, b.3, b.4) s l))
        (λ z. k (positive len z))
    where
      event : Event
      event = Event.recv_datagram true 0 0 List.[]

      received : Result Conn
      received = recv_datagram true 0 0 List.[] r.conn

      positive : (n : ℕ) → (n == 0) ≡ false → 0 < n
      positive n z = ground arith

  pub datagram_len-Ends :
      (vint vlen : ℕ) (r : Reading)
      → IsBase ts r
      → r.seen ≡ true
      → length r.p < n
      → Ends n ts (datagram_len ts vint vlen r)
  unfolding datagram_len
  datagram_len-Ends vint vlen r b s l =
      let fr = record r.rcrd.fr.datagram { len = vint } in
      let r' = with_field vint (with_datagram fr r) in
      Holds-guard (Outcome n ts) _ proto _ (λ g.
        Holds-guard (Outcome n ts) (leb vint r.rcrd.record_left) frame_encoding _ (λ g'.
          let fits = leb→le vint r.rcrd.record_left g' in
          datagram_begin-Ends vint (fall_through State.datagram_data (datagram_data ts))
            (with_datagram fr r) b s l
            (λ some_data.
              fall_through-Ends n ts State.datagram_data (datagram_data ts) r' b
                (some_data, fits, s)
                (λ p.
                  datagram_data-Ends (with_state State.datagram_data r') b refl (some_data, fits, s)
                    p (omega arith)))))
