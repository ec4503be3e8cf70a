-- ===== src/Conn/Read/StreamEnds.antt =====
-- The cases that begin a STREAM frame keep what a read keeps.
use dwnx.Prelude.{
  ℕ, ◌≤◌, ◌<◌, ◌≡◌, refl, sym, ◌∙◌, arith, true, false, true≢false, ◌==◌, Bool-cases, inl, inr,
  if◌then◌else◌, leb, leb→le, length,
}
use dwnx.Prelude.{
  Result, ◌>>◌, Holds, Holds-bind, Holds-guard, Holds-if, Holds-ok, Holds-and, OnOk, frame_encoding,
}
use dwnx.Vec.{max_varint}
use dwnx.Frame
use dwnx.Frame.FrameType
use dwnx.Conn.{Conn}
use dwnx.Conn.Invariant.{IsConn}
use dwnx.Conn.Kept.{recv_stream-IsConn}
use dwnx.Conn.Clock.{Clock}
use dwnx.Conn.Clock.Frames.{recv_stream-Clock}
use dwnx.Conn.Present.{Present, recv_stream-Present}
use dwnx.Conn.Receive.{recv_stream}
use dwnx.VarintReader
use dwnx.RecordReader.{State}
use dwnx.Conn.Read.{
  Reading, Flow, again, with_state, with_conn, frame_done, break_to, more, fall_through,
  varint_field,
}
use dwnx.Conn.Read.Data.{
  with_stream, with_field, stream_data, stream_taken, stream_begin, stream_length, stream_offset,
  stream_stream_id,
}
use dwnx.Conn.Read.Invariant.{IsBase, Ends, Outcome}
use dwnx.Conn.Read.Steps.{frame_done-Ends, more-Ends, fall_through-Ends, next_field-Ends, after}
use dwnx.Conn.Read.DataEnds.{stream_data-Ends}

-- The state once the handler has taken the frame.
abbrev started : ℕ → Reading → Conn → Reading
started len r c =
    with_conn c (with_field len (with_stream (record r.rcrd.fr.stream { len = len }) r))

module _ (n ts : ℕ) where
  -- The handler of the frame, and what comes after it where the frame has data.
  stream_begin-Ends :
      (len : ℕ) (next : Reading → Result Flow) (r : Reading)
      → IsBase ts r
      → r.seen ≡ true
      → r.rcrd.fr.stream.stream_id ≤ max_varint
      → len ≤ max_varint
      → length r.p < n
      → ((c : Conn)
          → 0 < len
          → IsBase ts (started len r c)
          → Present r.rcrd.fr.stream.stream_id c
          → Ends n ts (next (started len r c)))
      → Ends n ts (stream_begin ts len next r)
  unfolding stream_begin stream_taken
  stream_begin-Ends len next r b s i m l k = elim (Bool-cases (len == 0)) [
    | inl z ↦
        Holds-bind (λ c. IsConn c × Clock ts c) (Outcome n ts) received taken
          (Holds-and IsConn (Clock ts) received kept timed)
          (λ c h.
            Holds-if (Outcome n ts) (len == 0) (frame_done ts (at c)) (next (at c))
              (λ z'. frame_done-Ends n ts (at c) (h, b.1, b.2, b.3, b.4) s l)
              (λ z'. absurd (true≢false (sym z ∙ z'))))
    | inr z ↦
        Holds-bind (λ c. (IsConn c × Clock ts c) × Present fr.stream_id c) (Outcome n ts) received
          taken
          (Holds-and (λ c. IsConn c × Clock ts c) (Present fr.stream_id) received
            (Holds-and IsConn (Clock ts) received kept timed)
            (recv_stream-Present fr r.conn b.0.0 i z))
          (λ c h.
            Holds-if (Outcome n ts) (len == 0) (frame_done ts (at c)) (next (at c))
              (λ z'. absurd (true≢false (sym z' ∙ z)))
              (λ z'. k c (positive len z) (h.0, b.1, b.2, b.3, b.4) h.1))
  ]
    where
      fr : Frame.Stream
      fr = record r.rcrd.fr.stream { len = len }

      at : Conn → Reading
      at = started len r

      received : Result Conn
      received = recv_stream fr r.conn

      taken : Conn → Result Flow
      taken c = stream_taken ts next (at c)

      kept : Holds IsConn received
      kept = recv_stream-IsConn fr r.conn b.0.0 i m

      timed : OnOk (Clock ts) received
      timed = recv_stream-Clock ts fr r.conn b.0.1

      positive : (n : ℕ) → (n == 0) ≡ false → 0 < n
      positive n z = ground arith

  pub stream_length-Ends :
      (vint : ℕ) (r : Reading)
      → IsBase ts r
      → r.seen ≡ true
      → r.rcrd.fr.stream.stream_id ≤ max_varint
      → length r.p < n
      → Ends n ts (stream_length ts vint r)
  unfolding stream_length
  stream_length-Ends vint r b s i l =
      Holds-guard (Outcome n ts) (leb vint r.rcrd.record_left) frame_encoding _ (λ g.
        let fits = leb→le vint r.rcrd.record_left g in
        stream_begin-Ends vint (fall_through State.stream_data (stream_data ts)) r b s i
          (omega (arith, b.4)) l
          (λ c some_data b' here.
            let r' = started vint r c in
            fall_through-Ends n ts State.stream_data (stream_data ts) r' b'
              ((some_data, fits, s), here)
              (λ p.
                stream_data-Ends n ts (with_state State.stream_data r') b' refl
                  ((some_data, fits, s), here) p (omega arith))))

  -- A frame without a length.
  stream_rest-Ends :
      (r : Reading)
      → IsBase ts r
      → r.seen ≡ true
      → r.rcrd.fr.stream.stream_id ≤ max_varint
      → length r.p < n
      → Ends n ts (stream_begin ts r.rcrd.record_left (break_to State.stream_data) r)
  stream_rest-Ends r b s i l =
      stream_begin-Ends r.rcrd.record_left (break_to State.stream_data) r b s i b.4 l
        (λ c some_data b' here.
          Holds-ok (Outcome n ts)
            (again (with_state State.stream_data (started r.rcrd.record_left r c)))
            (b', ((some_data, omega arith, s), here), l))

  pub stream_offset-Ends :
      (vint : ℕ) (r : Reading)
      → IsBase ts r
      → r.seen ≡ true
      → r.rcrd.fr.stream.stream_id ≤ max_varint
      → length r.p < n
      → Ends n ts (stream_offset ts vint r)
  unfolding stream_offset
  stream_offset-Ends vint r b s i l =
      let r' = with_stream (record r.rcrd.fr.stream { offset = vint }) r in
      let at = with_state State.stream_length r' in
      Holds-if (Outcome n ts) (FrameType.has_bit r'.rcrd.fr.stream.flags FrameType.len_bit)
        (more r' >> fall_through State.stream_length (varint_field (stream_length ts)) r')
        (stream_begin ts r'.rcrd.record_left (break_to State.stream_data) r')
        (λ t. more-Ends n ts r' _ (λ g.
          next_field-Ends n ts State.stream_length (stream_length ts) r' b l g ((g, s), i)
            (λ vird left q k. ((k, s), i))
            (λ v left q m shorter c.
              stream_length-Ends v (after VarintReader.reset left q at) c s i shorter)))
        (λ t. stream_rest-Ends r' b s i l)

  pub stream_stream_id-Ends :
      (vint : ℕ) (r : Reading)
      → IsBase ts r
      → r.seen ≡ true
      → vint ≤ max_varint
      → length r.p < n
      → Ends n ts (stream_stream_id ts vint r)
  unfolding stream_stream_id
  stream_stream_id-Ends vint r b s i l =
      let r' = with_stream (record r.rcrd.fr.stream { stream_id = vint }) r in
      let r0 = with_stream (record r'.rcrd.fr.stream { offset = 0 }) r' in
      let at = with_state State.stream_offset r' in
      let has_len = FrameType.has_bit r'.rcrd.fr.stream.flags FrameType.len_bit in
      let to_length = more r' >> break_to State.stream_length r0 in
      let rest = stream_begin ts r'.rcrd.record_left (break_to State.stream_data) r0 in
      Holds-if (Outcome n ts) (FrameType.has_bit r'.rcrd.fr.stream.flags FrameType.off_bit)
        (more r' >> fall_through State.stream_offset (varint_field (stream_offset ts)) r')
        (if has_len then to_length else rest)
        (λ t. more-Ends n ts r' _ (λ g.
          next_field-Ends n ts State.stream_offset (stream_offset ts) r' b l g ((g, s), i)
            (λ vird left q k. ((k, s), i))
            (λ v left q m shorter c.
              stream_offset-Ends v (after VarintReader.reset left q at) c s i shorter)))
        (λ t.
          Holds-if (Outcome n ts) has_len to_length rest
            (λ t'. more-Ends n ts r' (break_to State.stream_length r0) (λ g.
              Holds-ok (Outcome n ts) (again (with_state State.stream_length r0))
                (b, ((g, s), i), l)))
            (λ t'. stream_rest-Ends r0 b s i l))
