-- ===== src/Conn/KeptApp.antt =====
-- What the application asks for leaves the state in order, and no assertion in it fails.
use dwnx.Prelude.{
  ℕ, ◌+◌, min, ◌≤◌, ◌≡◌, refl, sym, subst, ap, arith, Bool, true, false, not, ◌&&◌, ◌||◌,
  if◌then◌else◌, Option, none, some,
}
use dwnx.Prelude.{ok, invalid_argument, Holds, Holds-guard, Holds-ok}
use dwnx.Strm.{Strm}
use dwnx.Conn.{
  Conn, RxStreams, absent, find, put_strm, local_stream, bidi_stream, max_streams_limit,
}
use dwnx.Conn.Credit.{
  extend_offset, extend_streams, extend_max_streams_bidi, extend_max_streams_uni,
  strm_should_send_max_stream_data,
}
use dwnx.Conn.Streams.{tx_strmq_push_if_not}
use dwnx.Conn.Shutdown.{
  reset_stream, stop_sending, shutdown_write, shutdown_read, on_found, on_stream, shutdown_stream,
  extended, extend_max_stream_offset,
}
use dwnx.Conn.Strms.{find-All}
use dwnx.Conn.Invariant.{IsConn, IsStrm, IsIn}
use dwnx.Conn.Queue.{put_strm-IsConn, push_if_not-IsConn}
use dwnx.Conn.Kept.{extend_offset-min}

-- A stream that is found in the map.
on_stream-IsConn :
    (f : Strm → Conn → Conn) (id : ℕ) (conn : Conn)
    → IsConn conn
    → ((strm : Strm) → IsIn conn strm → IsConn (f strm conn))
    → IsConn (on_stream f id conn)
on_stream-IsConn f id conn h k = found (find id conn.strms) refl
  where
    found : (o : Option Strm) → find id conn.strms ≡ o → IsConn (on_found f conn o)
    found none e = h
    found (some strm) e =
        let p = find-All (IsStrm conn) id conn.strms strm h.2 e in
        k strm (p.0, subst (λ i. absent (find i conn.strms) ≡ false) (sym p.1) (ap absent e))

shutdown_write-IsConn :
    (strm : Strm) (code : ℕ) (conn : Conn)
    → IsConn conn
    → IsIn conn strm
    → IsConn (shutdown_write strm code conn)
shutdown_write-IsConn strm code conn h s = either strm.flags.shut_wr
  where
    shut : Strm
    shut = record strm { flags = record strm.flags { shut_wr = true; reset_stream = true } }

    either : (b : Bool) → IsConn (if b then conn else reset_stream shut code conn)
    either true = h
    either false = push_if_not-IsConn _ conn h s

shutdown_read-IsConn :
    (strm : Strm) (code : ℕ) (conn : Conn)
    → IsConn conn
    → IsIn conn strm
    → IsConn (shutdown_read strm code conn)
shutdown_read-IsConn strm code conn h s = either (strm.flags.stop_sending || strm.flags.shut_rd)
  where
    stops : Strm
    stops = record strm { flags = record strm.flags { stop_sending = true } }

    either : (b : Bool) → IsConn (if b then conn else stop_sending stops code conn)
    either true = h
    either false = push_if_not-IsConn _ conn h s

if-IsConn : (b : Bool) (x y : Conn) → IsConn x → IsConn y → IsConn (if b then x else y)
if-IsConn true x y h k = h
if-IsConn false x y h k = k

-- Shutting a stream down leaves the state in order.
pub shutdown_stream-IsConn :
    (id code : ℕ) (conn : Conn) → IsConn conn → IsConn (shutdown_stream id code conn)
unfolding shutdown_stream
shutdown_stream-IsConn id code conn h = if-IsConn _ _ _ (writes _ read) read
  where
    writes : (c : Conn) → IsConn c → IsConn (on_stream (λ strm. shutdown_write strm code) id c)
    writes c k =
        on_stream-IsConn (λ strm. shutdown_write strm code) id c k
          (λ strm s. shutdown_write-IsConn strm code c k s)

    reads : IsConn (on_stream (λ strm. shutdown_read strm code) id conn)
    reads =
        on_stream-IsConn (λ strm. shutdown_read strm code) id conn h
          (λ strm s. shutdown_read-IsConn strm code conn h s)

    read : IsConn (
        if bidi_stream id || not (local_stream conn id)
        then on_stream (λ strm. shutdown_read strm code) id conn
        else conn)
    read = if-IsConn (bidi_stream id || not (local_stream conn id)) _ conn reads h

extended-IsConn :
    (n : ℕ) (strm : Strm) (conn : Conn)
    → IsConn conn
    → IsIn conn strm
    → IsConn (extended n strm conn)
unfolding extended
extended-IsConn n strm conn h s =
    if-IsConn
      (not (strm.flags.shut_rd || strm.flags.stop_sending)
        && strm_should_send_max_stream_data strm')
      (tx_strmq_push_if_not strm' conn) (put_strm strm' conn)
      (push_if_not-IsConn strm' conn h (s', s.1)) (put_strm-IsConn strm' conn h s')
  where
    strm' : Strm
    strm' = record strm {
      rx = record strm.rx { unsent_max_offset = extend_offset strm.rx.unsent_max_offset n };
    }

    s' : IsStrm conn strm'
    s' =
        let e = extend_offset-min strm.rx.unsent_max_offset n s.0.0.2 in
        ((s.0.0.0, omega (arith, s.0.0.1, s.0.0.2, e), omega (arith, e)), s.0.1, s.0.2, s.0.3)

-- Letting the peer send more on a stream leaves the state in order.
pub extend_max_stream_offset-IsConn :
    (id n : ℕ) (conn : Conn) → IsConn conn → Holds IsConn (extend_max_stream_offset id n conn)
unfolding extend_max_stream_offset
extend_max_stream_offset-IsConn id n conn h =
    Holds-guard IsConn (bidi_stream id || not (local_stream conn id)) invalid_argument
      (ok (on_stream (extended n) id conn))
      (λ g.
        Holds-ok IsConn _
          (on_stream-IsConn (extended n) id conn h (λ strm s. extended-IsConn n strm conn h s)))

extend_streams-min :
    (n : ℕ) (streams : RxStreams)
    → streams.unsent_max_streams ≤ max_streams_limit
    → (extend_streams n streams).unsent_max_streams
      ≡ min (streams.unsent_max_streams + n) max_streams_limit
extend_streams-min n streams h = ground arith

pub extend_max_streams_bidi-IsConn :
    (n : ℕ) (conn : Conn) → IsConn conn → IsConn (extend_max_streams_bidi n conn)
extend_max_streams_bidi-IsConn n conn h =
    let b = h.0.1.0 in
    let e = extend_streams-min n conn.rx.bidi b.1 in
    (
      (
        h.0.0,
        ((omega (arith, b.0, b.1, e), omega (arith, e)), h.0.1.1),
        h.0.2,
        h.0.3,
        h.0.4,
        h.0.5,
      ),
      h.1,
      h.2,
      h.3,
    )

pub extend_max_streams_uni-IsConn :
    (n : ℕ) (conn : Conn) → IsConn conn → IsConn (extend_max_streams_uni n conn)
extend_max_streams_uni-IsConn n conn h =
    let b = h.0.1.1 in
    let e = extend_streams-min n conn.rx.uni b.1 in
    (
      (
        h.0.0,
        (h.0.1.0, (omega (arith, b.0, b.1, e), omega (arith, e))),
        h.0.2,
        h.0.3,
        h.0.4,
        h.0.5,
      ),
      h.1,
      h.2,
      h.3,
    )
