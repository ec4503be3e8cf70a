-- ===== src/Conn/Read/Pings.antt =====
-- A ping, whose type takes eight bytes, comes to its handler.
use dwnx.Prelude.{
  ℕ, ◌-◌, ◌≤◌, ◌≡◌, refl, ◌⊎◌, inl, inr, arith, true, leb, length, IsByte, All-append,
  length-append,
}
use dwnx.Conv.Wire.{varint_bytes, IsVarint, varint_bytes-IsByte, length-varint_bytes}
use dwnx.Frame
use dwnx.Frame.{Frame}
use dwnx.Frame.FrameType
use dwnx.Frame.Wire.{wire}
use dwnx.RecordReader.{State}
use dwnx.Conn.Setup.{recv_qx_ping}
use dwnx.Conn.Read.{Reading, with_state, with_fr}
use dwnx.Conn.Read.Control.{ping_seq}
use dwnx.Conn.Read.Start.{type_switch, ping_type, begin}
use dwnx.Conn.Read.Loop.{cases}
use dwnx.Conn.Read.Whole.{field-last}
use dwnx.Conn.Read.Dispatch.{typed_by, typed_rounds}
use dwnx.Conn.Read.Integers.{Dispatches, some_bytes, self}

module _ (ts : ℕ) (r : Reading) (l : r.last_ts ≤ ts) where
  ping-begin :
      (fr : Frame.QxPing) (t n : ℕ)
      → (t ≡ FrameType.qx_ping_request) ⊎ (t ≡ FrameType.qx_ping_response)
      → type_switch ts t (typed_by n ts (varint_bytes fr.seq) r)
        ≡ begin State.qx_ping_seq (
            with_fr
              (record r.rcrd.fr { qx_ping = record r.rcrd.fr.qx_ping { type = t } })
              (typed_by n ts (varint_bytes fr.seq) r))
  unfolding type_switch ping_type
  ping-begin fr t n (inl e) = rw e refl
  ping-begin fr t n (inr e) = rw e refl

  pub qx_ping-Dispatches :
      (fr : Frame.QxPing)
      → (fr.type ≡ FrameType.qx_ping_request) ⊎ (fr.type ≡ FrameType.qx_ping_response)
      → IsVarint fr.seq
      → leb (length (wire (Frame.qx_ping fr))) r.conn.local_params.max_record_size ≡ true
      → Dispatches ts r (Frame.qx_ping fr)
  unfolding wire cases ping_seq
  qx_ping-Dispatches fr t h fits =
      let body = varint_bytes fr.seq in
      let t_bytes = varint_bytes fr.type in
      let fr1 = record r.rcrd.fr.qx_ping { type = fr.type } in
      let r1 = with_fr (record r.rcrd.fr { qx_ping = fr1 }) (typed_by (length t_bytes) ts body r) in
      let x = with_state State.qx_ping_seq r1 in
      let y = with_fr (record r.rcrd.fr { qx_ping = fr }) x in
      let b = varint_bytes-IsByte fr.seq h in
      let k = ping_type-IsVarint fr.type t in
      typed_rounds fr.type ts t_bytes body State.qx_ping_seq r r1 y (recv_qx_ping fr ts r.conn)
        (length body - length body) refl k (some_bytes fr.seq)
        (omega (
          arith,
          length-append t_bytes body,
          length-varint_bytes fr.type,
          length-varint_bytes fr.seq,
        ))
        (All-append IsByte t_bytes body (varint_bytes-IsByte fr.type k) b) b l fits
        (ping-begin fr fr.type (length t_bytes) t) refl refl
        (field-last (λ vint vlen. ping_seq ts vint) fr.seq (length body) x h (self (length body)))
        (omega arith)
    where
      ping_type-IsVarint :
          (t : ℕ) → (t ≡ FrameType.qx_ping_request) ⊎ (t ≡ FrameType.qx_ping_response) → IsVarint t
      ping_type-IsVarint t (inl e) = omega arith
      ping_type-IsVarint t (inr e) = omega arith
