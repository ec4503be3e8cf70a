-- ===== src/Conn/Refused.antt =====
-- What the handlers of frames on streams refuse, in a state that is in order, and what they count.
use dwnx.Prelude.{
  ℕ, ◌+◌, ◌%◌, ◌^◌, ◌≤◌, ◌≡◌, refl, sym, ap, ◌∙◌, arith, Bool, true, false, not, ◌||◌, ltb, leb,
  le→leb, ==_iff, if◌then◌else◌, none, some,
}
use dwnx.Prelude.{Result, ok, err, ◌>>=◌, guard, stream_limit, stream_state, flow_control, proto}
use dwnx.Strm.{Strm}
use dwnx.Vec.{max_varint}
use dwnx.Frame
use dwnx.Gaptr.Idtr.{opened, idtr_open-push}
use dwnx.Conv.{ord_stream_id}
use dwnx.Conn.{Conn, find, put_strm, sub64, local_stream, bidi_stream}
use dwnx.Conn.Credit.{max_data_violated}
use dwnx.Conn.Receive.{check_recv, account, end_of_stream, recv_stream, stream_for, open_id, idtr}
use dwnx.Conn.Invariant.{IsConn}
use dwnx.Conn.OpenId.{idtr-IsGaps}

-- The greatest ordinal number that the peer may use.
abbrev pub stream_limit_of : Conn → ℕ → ℕ
stream_limit_of conn id =
    if bidi_stream id then conn.rx.bidi.max_streams else conn.rx.uni.max_streams

check_recv-allowed :
    (conn : Conn) (id : ℕ)
    → local_stream conn id ≡ false
    → check_recv conn id ≡ guard (leb (ord_stream_id id) (stream_limit_of conn id)) stream_limit
unfolding check_recv
check_recv-allowed conn id l = either (bidi_stream id) (local_stream conn id) l
  where
    either :
        (b c : Bool)
        → c ≡ false
        → (if b
            then (if c
                then guard (ltb id conn.tx.bidi.next_stream_id) stream_state
                else guard (leb (ord_stream_id id) conn.rx.bidi.max_streams) stream_limit)
            else if c
            then err stream_state
            else guard (leb (ord_stream_id id) conn.rx.uni.max_streams) stream_limit)
          ≡ guard
              (leb
                (ord_stream_id id)
                (if b then conn.rx.bidi.max_streams else conn.rx.uni.max_streams))
              stream_limit
    either b true e = cc e
    either true false e = refl
    either false false e = refl

-- A stream of the peer's that has been closed, which is no longer in the map but has been opened.
closed_stream :
    (conn : Conn) (id : ℕ) (allowed : Result (Unit {0}))
    → IsConn conn
    → id ≤ max_varint
    → local_stream conn id ≡ false
    → find id conn.strms ≡ none
    → opened id (idtr conn id) ≡ true
    → stream_for id allowed conn ≡ ok (none, conn)
unfolding stream_for open_id
closed_stream conn id allowed h k l e o =
    rw (e, l, idtr_open-push (idtr conn id) id (idtr-IsGaps conn id h) (omega arith), o) refl

in_varint : (offset len : ℕ) → offset + len ≤ max_varint → ltb (sub64 max_varint len) offset ≡ false
in_varint offset len h = ground arith

-- A stream of the peer's that has been closed does not come back: a STREAM frame for it is an error of the
-- protocol, where its stream ID is within the limit and its end within a varint.
pub recv_stream-closed :
    (fr : Frame.Stream) (conn : Conn)
    → IsConn conn
    → fr.stream_id ≤ max_varint
    → fr.offset + fr.len ≤ max_varint
    → local_stream conn fr.stream_id ≡ false
    → ord_stream_id fr.stream_id ≤ stream_limit_of conn fr.stream_id
    → find fr.stream_id conn.strms ≡ none
    → opened fr.stream_id (idtr conn fr.stream_id) ≡ true
    → recv_stream fr conn ≡ err proto
unfolding recv_stream
recv_stream-closed fr conn h k w l m e o =
    rw
      (
        check_recv-allowed conn fr.stream_id l,
        le→leb (ord_stream_id fr.stream_id) (stream_limit_of conn fr.stream_id) m,
        in_varint fr.offset fr.len w,
        closed_stream conn fr.stream_id (ok tt) h k l e o,
      )
      refl

-- Data on a stream of the map that follows what came before, up to the two limits.
not_over :
    (fr : Frame.Stream) (conn : Conn) (strm : Strm)
    → IsConn conn
    → check_recv conn fr.stream_id ≡ ok tt
    → find fr.stream_id conn.strms ≡ some strm
    → strm.flags.shut_rd ≡ false
    → fr.offset ≡ strm.rx.last_offset
    → fr.offset + fr.len ≤ max_varint
    → recv_stream fr conn ≡ (account fr strm conn >>= (λ r. end_of_stream fr r.0 r.1))
unfolding recv_stream stream_for
not_over fr conn strm h c e s o w =
    rw (c, in_varint fr.offset fr.len w, e, s, (==_iff strm.rx.last_offset fr.offset).1 (sym o))
      refl

-- Whether a limit is exceeded, in numbers that do not wrap.
over_cases :
    (max sent len smax end : ℕ)
    → sent ≤ max
    → max ≤ max_varint
    → len ≤ max_varint
    → end ≤ max_varint
    → not (ltb smax (end % 2 ^ 64) || ltb (sub64 max sent) len)
      ≡ not (ltb smax end || ltb max (sent + len))
over_cases max sent len smax end a b c d = ground arith

-- On a connection in order, a STREAM frame without FIN, whose stream ID may be received, whose stream is in the
-- map and not shut for reading, and whose data follow what came before and end within a varint, is refused
-- with a flow control error exactly if the data go beyond the limit of the stream or that of the connection;
-- otherwise they are counted on both, and nothing else changes.
pub recv_stream-limits :
    (fr : Frame.Stream) (conn : Conn) (strm : Strm)
    → IsConn conn
    → check_recv conn fr.stream_id ≡ ok tt
    → find fr.stream_id conn.strms ≡ some strm
    → strm.flags.shut_rd ≡ false
    → fr.offset ≡ strm.rx.last_offset
    → fr.offset + fr.len ≤ max_varint
    → fr.fin ≡ false
    → recv_stream fr conn ≡ (
        if ltb strm.rx.max_offset (fr.offset + fr.len)
          || ltb conn.rx.max_offset (conn.rx.offset + fr.len)
        then err flow_control
        else ok (
            put_strm
              (record strm { rx = record strm.rx { last_offset = fr.offset + fr.len } })
              (record conn { rx = record conn.rx { offset = conn.rx.offset + fr.len } })))
unfolding account end_of_stream
recv_stream-limits fr conn strm h c e s o w f =
    not_over fr conn strm h c e s o w
    ∙ counted
        (ltb strm.rx.max_offset (fr.offset + fr.len)
          || ltb conn.rx.max_offset (conn.rx.offset + fr.len))
        refl
  where
    end : ℕ
    end = (fr.offset + fr.len) % 2 ^ 64

    no_wrap : (fr.offset + fr.len) % 2 ^ 64 ≡ fr.offset + fr.len
    no_wrap = omega arith

    book : conn.rx.max_offset ≤ max_varint
    book = omega (arith, h.0.0.1, h.0.0.2)

    cases :
        not (ltb strm.rx.max_offset end || max_data_violated conn fr.len)
        ≡ not (
            ltb strm.rx.max_offset (fr.offset + fr.len)
            || ltb conn.rx.max_offset (conn.rx.offset + fr.len))
    cases =
        over_cases conn.rx.max_offset conn.rx.offset fr.len strm.rx.max_offset (fr.offset + fr.len)
          h.0.0.0 book (omega arith) w

    below : (a x c : ℕ) (b : Bool) → (b || ltb a x) ≡ false → a ≤ c → x ≤ c
    below a x c b e l = ground arith

    conn_no_wrap :
        (ltb strm.rx.max_offset (fr.offset + fr.len)
            || ltb conn.rx.max_offset (conn.rx.offset + fr.len))
          ≡ false
        → (conn.rx.offset + fr.len) % 2 ^ 64 ≡ conn.rx.offset + fr.len
    conn_no_wrap t =
        let small = below conn.rx.max_offset (conn.rx.offset + fr.len) max_varint _ t book in
        omega (arith, small)

    counted :
        (b : Bool)
        → (ltb strm.rx.max_offset (fr.offset + fr.len)
            || ltb conn.rx.max_offset (conn.rx.offset + fr.len))
          ≡ b
        → (account fr strm conn >>= (λ r. end_of_stream fr r.0 r.1)) ≡ (
            if b
            then err flow_control
            else ok (
                put_strm
                  (record strm { rx = record strm.rx { last_offset = fr.offset + fr.len } })
                  (record conn { rx = record conn.rx { offset = conn.rx.offset + fr.len } })))
    counted true t = rw (cases ∙ ap not t) refl
    counted false t = rw (cases ∙ ap not t, no_wrap, conn_no_wrap t, f) refl
