-- ===== src/Conn/Read/DataEnds.antt =====
-- The case of the data of a STREAM frame keeps what a read keeps.
use dwnx.Prelude.{
  ℕ, ◌-◌, ◌≤◌, ◌<◌, ◌≡◌, refl, sym, subst, ap, ◌∙◌, arith, Bool, true, false, true≢false, ◌&&◌, min,
  ◌==◌, length, take, IsByte, All-drop, length-drop, Option, none, some,
}
use dwnx.Prelude.{Result, ok, Holds-bind, Holds-if, Holds-ok, OnOk, OnOk-all, OnOk-map, Holds-and}
use dwnx.Strm.{Strm}
use dwnx.Conn.{Conn, find, absent, sub64}
use dwnx.Conn.Strms.{find-All}
use dwnx.Conn.Invariant.{IsConn, IsStrm}
use dwnx.Conn.Kept.{recv_stream_data-IsConn}
use dwnx.Conn.Clock.{Clock}
use dwnx.Conn.Clock.Frames.{recv_stream_data-Clock}
use dwnx.Conn.Present.{Present, recv_stream_data-Present}
use dwnx.Conn.Receive.{recv_stream_data}
use dwnx.RecordReader.{State, field_avail}
use dwnx.Conn.Read.{Reading, returns, with_conn, advance, frame_done}
use dwnx.Conn.Read.Data.{with_field, field_taken, found_data, stream_data}
use dwnx.Conn.Read.Invariant.{IsBase, Fits, InField, Ends, Outcome}
use dwnx.Conn.Read.Steps.{drop-all, frame_done-Ends}

module _ (n ts : ℕ) where
  -- What a field has of the data.
  pub field_taken-Ends :
      (r : Reading)
      → IsBase ts r
      → InField r
      → 0 < length r.p
      → length r.p ≤ n
      → ((r.rcrd.field_left - field_avail r.rcrd (length r.p) == 0) ≡ false
          → Fits r.rcrd.state (
              with_field
                (r.rcrd.field_left - field_avail r.rcrd (length r.p))
                (advance (field_avail r.rcrd (length r.p)) r)))
      → Ends n ts (field_taken ts (field_avail r.rcrd (length r.p)) r)
  unfolding field_taken
  field_taken-Ends r b f h l stay =
      Holds-if (Outcome n ts) (r.rcrd.field_left - len == 0) (frame_done ts r')
        (ok (returns none r'))
        (λ z. frame_done-Ends n ts r' b' f.2 (omega (arith, length-drop len r.p, f.0, f.1)))
        (λ z. Holds-ok (Outcome n ts) (returns none r') (
          b',
          stay z,
          drop-all len r.p (short r.rcrd.field_left r.rcrd.record_left (length r.p) f.1 z),
        ))
    where
      len : ℕ
      len = field_avail r.rcrd (length r.p)

      r' : Reading
      r' = with_field (r.rcrd.field_left - len) (advance len r)

      b' : IsBase ts r'
      b' = (b.0, b.1, b.2, All-drop IsByte len r.p b.3, omega (arith, b.4))

      short : (a c d : ℕ) → a ≤ c → (a - min a (min d c) == 0) ≡ false → d ≤ min a (min d c)
      short a c d h z = ground arith

  found_data-Ends :
      (r : Reading) (o : Option Strm)
      → find r.rcrd.fr.stream.stream_id r.conn.strms ≡ o
      → IsBase ts r
      → r.rcrd.state ≡ State.stream_data
      → InField r × Present r.rcrd.fr.stream.stream_id r.conn
      → 0 < length r.p
      → length r.p ≤ n
      → Ends n ts (found_data ts r o)
  found_data-Ends r none w b e f h l = absurd (true≢false (ap absent (sym w) ∙ f.1))
  found_data-Ends r (some strm) w b e f h l =
      Holds-bind (λ c. (IsConn c × Clock ts c) × (ends ≡ false → Present id c)) (Outcome n ts)
        received _
        (Holds-and (λ c. IsConn c × Clock ts c) (λ c. ends ≡ false → Present id c) received
          (Holds-and IsConn (Clock ts) received
            (recv_stream_data-IsConn strm ends _ _ r.conn b.0.0
              (subst (λ i. find i r.conn.strms ≡ some strm) (sym same) w))
            (recv_stream_data-Clock ts strm ends _ _ r.conn b.0.1))
          (stays ends))
        (λ c i.
          field_taken-Ends (with_conn c r) (i.0, b.1, b.2, b.3, b.4) f.0 h l
            (λ z.
              subst
                (λ s. Fits s (with_field (r.rcrd.field_left - len) (advance len (with_conn c r))))
                (sym e)
                (
                  (positive (r.rcrd.field_left - len) z, omega (arith, f.0.1), f.0.2),
                  i.1 (not_last r.rcrd.fr.stream.fin r.rcrd.field_left len z),
                )))
    where
      id : ℕ
      id = r.rcrd.fr.stream.stream_id

      same : strm.stream_id ≡ id
      same = (find-All (IsStrm r.conn) id r.conn.strms strm b.0.0.2 w).1

      len : ℕ
      len = field_avail r.rcrd (length r.p)

      ends : Bool
      ends = r.rcrd.fr.stream.fin && r.rcrd.field_left == len

      received : Result Conn
      received =
          recv_stream_data strm ends (sub64 strm.rx.last_offset r.rcrd.field_left) (take len r.p)
            r.conn

      stays :
          (last : Bool)
          → OnOk
              (λ c. last ≡ false → Present id c)
              (recv_stream_data strm last
                (sub64 strm.rx.last_offset r.rcrd.field_left)
                (take len r.p)
                r.conn)
      stays true = OnOk-all (λ c. true ≡ false → Present id c) _ (λ c q. absurd (true≢false q))
      stays false =
          OnOk-map (λ c. false ≡ false → Present id c) (Present id) _ (λ c here q. here)
            (recv_stream_data-Present strm id _ _ r.conn f.1)

      positive : (n : ℕ) → (n == 0) ≡ false → 0 < n
      positive n z = ground arith

      not_last : (fin : Bool) (a c : ℕ) → (a - c == 0) ≡ false → (fin && a == c) ≡ false
      not_last fin a c z = ground arith

  pub stream_data-Ends :
      (r : Reading)
      → IsBase ts r
      → r.rcrd.state ≡ State.stream_data
      → InField r × Present r.rcrd.fr.stream.stream_id r.conn
      → 0 < length r.p
      → length r.p ≤ n
      → Ends n ts (stream_data ts r)
  unfolding stream_data
  stream_data-Ends r b e f h l =
      found_data-Ends r (find r.rcrd.fr.stream.stream_id r.conn.strms) refl b e f h l
