-- ===== src/Conn/Spend.antt =====
-- What this side may still send and open.
use dwnx.Prelude.{
  ℕ, suc, ◌+◌, ◌-◌, min, ◌^◌, ◌≤◌, ◌<◌, ◌≡◌, refl, ◌∙◌, arith, ◌∷◌, true, false, ◌==◌,
}
use dwnx.Prelude.{ok}
use dwnx.Strm.{Strm}
use dwnx.Conv.{ord_stream_id}
use dwnx.Conn.{Conn, sub64}
use dwnx.Conn.Credit.{fc_credits, enforce_flow_control, get_streams_bidi_left, streams_left}
use dwnx.Conn.Streams.{create_stream, new_strm}
use dwnx.Conn.Shutdown.{open_bidi_stream}
use dwnx.Conn.Invariant.{IsConn}
use dwnx.Conn.KeptOpen.{no_next, known_at, ours, not_below}

no_wrap : (max off : ℕ) → off ≤ max → max < 2 ^ 64 → sub64 max off ≡ max - off
no_wrap max off h k = omega arith

allowed :
    (conn : Conn) (strm : Strm) (len : ℕ)
    → conn.tx.offset ≤ conn.tx.max_offset
    → conn.tx.max_offset < 2 ^ 64
    → strm.tx.offset ≤ strm.tx.max_offset
    → strm.tx.max_offset < 2 ^ 64
    → enforce_flow_control conn strm len
      ≡ min len (min (strm.tx.max_offset - strm.tx.offset) (conn.tx.max_offset - conn.tx.offset))
unfolding enforce_flow_control fc_credits
allowed conn strm len h k s t =
    rw
      (no_wrap strm.tx.max_offset strm.tx.offset s t, no_wrap conn.tx.max_offset conn.tx.offset h k)
      refl

-- Where what has been sent is within the limits of the stream and of the connection, which 64 bits hold,
-- sending what is allowed of some bytes keeps it so.
pub enforce_flow_control-limits :
    (conn : Conn) (strm : Strm) (len : ℕ)
    → conn.tx.offset ≤ conn.tx.max_offset
    → conn.tx.max_offset < 2 ^ 64
    → strm.tx.offset ≤ strm.tx.max_offset
    → strm.tx.max_offset < 2 ^ 64
    → (enforce_flow_control conn strm len ≤ len)
      × (strm.tx.offset + enforce_flow_control conn strm len ≤ strm.tx.max_offset)
      × (conn.tx.offset + enforce_flow_control conn strm len ≤ conn.tx.max_offset)
enforce_flow_control-limits conn strm len h k s t =
    let e = allowed conn strm len h k s t in (omega (arith, e), omega (arith, e), omega (arith, e))

one_less :
    (id max left : ℕ)
    → streams_left (ord_stream_id id) max ≡ suc left
    → streams_left (ord_stream_id (id + 4)) max ≡ left
unfolding streams_left
one_less id max left e = ground arith

-- While bidirectional streams are left, one is opened, with the next stream ID, and one less is left after
-- it.
pub open_bidi_stream-left :
    (conn : Conn) (left : ℕ)
    → IsConn conn
    → get_streams_bidi_left conn ≡ suc left
    → (conn' : Conn) × (open_bidi_stream conn ≡ ok (conn.tx.bidi.next_stream_id, conn'))
      × (get_streams_bidi_left conn' ≡ left)
unfolding open_bidi_stream create_stream get_streams_bidi_left
open_bidi_stream-left conn left h e =
    let o = ours conn.server next h.0.2.0.1 in
    let a = no_next conn next h (known_at conn next true o.0 o.1 ∙ not_below next) in
    (conn', rw (e, some_left left, a) refl, one_less next conn.tx.bidi.max_streams left e)
  where
    next : ℕ
    next = conn.tx.bidi.next_stream_id

    some_left : (n : ℕ) → (suc n == 0) ≡ false
    some_left n = ground arith

    conn' : Conn
    conn' = record conn {
      strms = new_strm conn next ∷ conn.strms;
      tx = record conn.tx { bidi = record conn.tx.bidi { next_stream_id = next + 4 } };
    }
