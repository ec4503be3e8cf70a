-- ===== src/Conn/Read/LongEnds.antt =====
-- The cases that may keep bytes in a buffer keep what a read keeps.
use dwnx.Prelude.{
  ℕ, ◌+◌, ◌-◌, ◌≤◌, ◌<◌, ◌≡◌, refl, sym, subst, arith, List, [], ◌++◌, true, false, not, ◌==◌,
  if◌then◌else◌, min, leb, leb→le, length, take, All, IsByte, All-append, All-take, All-drop,
  length-append, length-take, length-drop, some, none, draining,
}
use dwnx.Prelude.{Result, ok, Holds-guard, Holds-if, Holds-ok, frame_encoding}
use dwnx.Conn.Setup.{recv_transport_params}
use dwnx.Conn.KeptParams.{recv_transport_params-IsConn}
use dwnx.Conn.Clock.Params.{recv_transport_params-Clock}
use dwnx.Frame.FrameType
use dwnx.VarintReader
use dwnx.RecordReader.{State, buf_left, buf_avail}
use dwnx.Conn.Read.{
  Reading, Flow, returns, again, with_state, advance, break_to, fall_through, handled, varint_field,
}
use dwnx.Conn.Read.Long.{
  with_new_buf, buffered, params_kept, params_bytes, params_len, with_close, drained, reason_kept,
  close_reason, close_reasonlen, close_frame_type, close_error_code,
}
use dwnx.Conn.Read.Invariant.{IsBase, IsEarly, Fits, InBuf, Ends, Outcome}
use dwnx.Conn.Read.Steps.{
  drop-all, handled-Ends, more-Ends, fall_through-Ends, next_field-Ends, after,
}

module _ (n ts : ℕ) where
  params-Ends :
      (bytes : List ℕ) (r : Reading)
      → IsBase ts r
      → All IsByte bytes
      → (r.seen ≡ true) × IsEarly r.conn
      → length r.p < n
      → Ends n ts (handled ts (recv_transport_params bytes r.conn) r)
  params-Ends bytes r b k e l =
      handled-Ends n ts _ r b e.0 l (recv_transport_params-IsConn bytes r.conn k b.0.0 e.1.0 e.1.1)
        (recv_transport_params-Clock ts bytes r.conn b.0.1)

  -- What the copy to the buffer leaves: it has taken all the bytes, or the buffer is full.
  buffered-IsBase : (r : Reading) → IsBase ts r → IsBase ts (buffered r)
  buffered-IsBase r b =
      (b.0, b.1, b.2, All-drop IsByte (buf_avail r.rcrd (length r.p)) r.p b.3, omega (arith, b.4))

  buffered-shorter :
      (r : Reading) → InBuf r → 0 < length r.p → length r.p ≤ n → length (buffered r).p < n
  buffered-shorter r f h l =
      omega (arith, length-drop (buf_avail r.rcrd (length r.p)) r.p, f.0, f.1)

  module _ (r : Reading) (f : InBuf r) (z : not (buf_left (buffered r).rcrd.buf == 0) ≡ true) where
    len : ℕ
    len = buf_avail r.rcrd (length r.p)

    pub all_taken : (buffered r).p ≡ []
    unfolding len
    all_taken = drop-all len r.p (
        copied r.rcrd.buf.size (length r.rcrd.buf.bytes) r.rcrd.record_left (length r.p)
          (length (r.rcrd.buf.bytes ++ take len r.p)) (length (take len r.p))
          (length-append r.rcrd.buf.bytes (take len r.p)) (length-take len r.p) f.1 z)
      where
        copied :
            (size had left n now m : ℕ)
            → now ≡ had + m
            → m ≡ min (min (size - had) (min n left)) n
            → size - had ≤ left
            → not (size - now == 0) ≡ true
            → n ≤ min (size - had) (min n left)
        copied size had left n now m e m' fits z = ground arith

    pub still_InBuf : InBuf (buffered r)
    unfolding len
    still_InBuf =
        let a = length-append r.rcrd.buf.bytes (take len r.p) in
        let t = length-take len r.p in
        (room r.rcrd.buf.size _ z, omega (arith, a, t, f.0, f.1), f.2)
      where
        room : (size now : ℕ) → not (size - now == 0) ≡ true → now < size
        room size now z = ground arith

  pub params_bytes-Ends :
      (r : Reading)
      → IsBase ts r
      → r.rcrd.state ≡ State.qx_transport_parameters_params
      → InBuf r
      → All IsByte r.rcrd.buf.bytes
      → IsEarly r.conn
      → 0 < length r.p
      → length r.p ≤ n
      → Ends n ts (params_bytes ts r)
  unfolding params_bytes params_kept
  params_bytes-Ends r b e f k early h l =
      let r' = buffered r in
      let b' = buffered-IsBase r b in
      let k' =
        All-append IsByte r.rcrd.buf.bytes (take (buf_avail r.rcrd (length r.p)) r.p) k
          (All-take IsByte (buf_avail r.rcrd (length r.p)) r.p b.3) in
      Holds-if (Outcome n ts) (not (buf_left r'.rcrd.buf == 0)) (ok (returns none r'))
        (handled ts (recv_transport_params r'.rcrd.buf.bytes r'.conn) r')
        (λ z.
          Holds-ok (Outcome n ts) (returns none r')
            (b', subst (λ s. Fits s r') (sym e) (still_InBuf r f z, k', early), all_taken r f z))
        (λ z. params-Ends r'.rcrd.buf.bytes r' b' k' (f.2, early) (buffered-shorter r f h l))

  pub params_len-Ends :
      (vint : ℕ) (r : Reading)
      → IsBase ts r
      → r.seen ≡ true
      → IsEarly r.conn
      → length r.p < n
      → Ends n ts (params_len ts vint r)
  unfolding params_len
  params_len-Ends vint r b s early l =
      Holds-guard (Outcome n ts) (leb vint r.rcrd.record_left) frame_encoding _ (λ g.
        let fits = leb→le vint r.rcrd.record_left g in
        Holds-if (Outcome n ts) (vint == 0) (handled ts (recv_transport_params [] r.conn) r) later
          (λ z. params-Ends [] r b tt (s, early) l)
          (λ z.
            Holds-if (Outcome n ts) (leb vint (length r.p))
              (handled ts (recv_transport_params (take vint r.p) r.conn) (advance vint r))
              (fall_through State.qx_transport_parameters_params (params_bytes ts) r')
              (λ w.
                params-Ends (take vint r.p) (advance vint r)
                  (b.0, b.1, b.2, All-drop IsByte vint r.p b.3, omega (arith, b.4))
                  (All-take IsByte vint r.p b.3) (s, early) (omega (arith, length-drop vint r.p)))
              (λ w.
                fall_through-Ends n ts State.qx_transport_parameters_params (params_bytes ts) r' b
                  ((positive vint z, omega arith, s), tt, early)
                  (λ p.
                    params_bytes-Ends (with_state State.qx_transport_parameters_params r') b refl
                      (positive vint z, omega arith, s) tt early p (omega arith)))))
    where
      r' : Reading
      r' = with_new_buf vint r

      later : Result Flow
      later =
          if leb vint (length r.p)
          then handled ts (recv_transport_params (take vint r.p) r.conn) (advance vint r)
          else fall_through State.qx_transport_parameters_params (params_bytes ts) r'

      positive : (n : ℕ) → (n == 0) ≡ false → 0 < n
      positive n z = ground arith

  drained-Ends : (reason : List ℕ) (r : Reading) → IsBase ts r → Ends n ts (drained reason r)
  drained-Ends reason r b =
      Holds-ok (Outcome n ts)
        (returns (some draining) (
          with_state State.draining
            (with_close (record r.rcrd.fr.connection_close { reason = reason }) r)))
        (b, tt, refl)

  pub close_reason-Ends :
      (r : Reading)
      → IsBase ts r
      → r.rcrd.state ≡ State.connection_close_reason
      → InBuf r
      → Ends n ts (close_reason r)
  unfolding close_reason reason_kept
  close_reason-Ends r b e f =
      let r' = buffered r in
      let b' = buffered-IsBase r b in
      Holds-if (Outcome n ts) (not (buf_left r'.rcrd.buf == 0)) (ok (returns none r'))
        (drained r'.rcrd.buf.bytes r')
        (λ z.
          Holds-ok (Outcome n ts) (returns none r')
            (b', subst (λ s. Fits s r') (sym e) (still_InBuf r f z), all_taken r f z))
        (λ z. drained-Ends r'.rcrd.buf.bytes r' b')

  pub close_reasonlen-Ends :
      (vint : ℕ) (r : Reading)
      → IsBase ts r
      → r.seen ≡ true
      → length r.p < n
      → Ends n ts (close_reasonlen vint r)
  unfolding close_reasonlen
  close_reasonlen-Ends vint r b s l =
      let r' = with_new_buf vint r in
      Holds-guard (Outcome n ts) (leb vint r.rcrd.record_left) frame_encoding _ (λ g.
        let fits = leb→le vint r.rcrd.record_left g in
        Holds-if (Outcome n ts) (leb vint (length r.p)) (drained (take vint r.p) r)
          (fall_through State.connection_close_reason close_reason r')
          (λ w. drained-Ends (take vint r.p) r b)
          (λ w.
            fall_through-Ends n ts State.connection_close_reason close_reason r' b
              (beyond vint (length r.p) w, omega arith, s)
              (λ p.
                close_reason-Ends (with_state State.connection_close_reason r') b refl
                  (beyond vint (length r.p) w, omega arith, s))))
    where
      beyond : (n m : ℕ) → leb n m ≡ false → 0 < n
      beyond n m w = ground arith

  pub close_frame_type-Ends :
      (vint : ℕ) (r : Reading)
      → IsBase ts r
      → r.seen ≡ true
      → length r.p < n
      → Ends n ts (close_frame_type vint r)
  unfolding close_frame_type
  close_frame_type-Ends vint r b s l =
      let r' = with_close (record r.rcrd.fr.connection_close { frame_type = vint }) r in
      let at = with_state State.connection_close_reasonlen r' in
      more-Ends n ts r _ (λ g.
        next_field-Ends n ts State.connection_close_reasonlen close_reasonlen r' b l g (g, s)
          (λ vird left q k. (k, s))
          (λ v left q m shorter c.
            close_reasonlen-Ends v (after VarintReader.reset left q at) c s shorter))

  pub close_error_code-Ends :
      (vint : ℕ) (r : Reading)
      → IsBase ts r
      → r.seen ≡ true
      → length r.p < n
      → Ends n ts (close_error_code vint r)
  unfolding close_error_code
  close_error_code-Ends vint r b s l =
      let r' = with_close (record r.rcrd.fr.connection_close { error_code = vint }) r in
      let at = with_state State.connection_close_frame_type r' in
      more-Ends n ts r _ (λ g.
        Holds-if (Outcome n ts) (r.rcrd.fr.connection_close.type == FrameType.connection_close_app)
          (break_to State.connection_close_reasonlen r')
          (fall_through State.connection_close_frame_type (varint_field close_frame_type) r')
          (λ t.
            Holds-ok (Outcome n ts) (again (with_state State.connection_close_reasonlen r'))
              (b, (g, s), l))
          (λ t.
            next_field-Ends n ts State.connection_close_frame_type close_frame_type r' b l g (g, s)
              (λ vird left q k. (k, s))
              (λ v left q m shorter c.
                close_frame_type-Ends v (after VarintReader.reset left q at) c s shorter)))
