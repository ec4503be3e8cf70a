-- ===== src/Conn/Write/Data.antt =====
-- dwnx_conn_write_stream_frame and dwnx_conn_write_datagram_frame of lib/dwnx_conn.c.
use dwnx.Prelude.{
  ℕ, ◌+◌, List, Bool, true, false, not, ◌&&◌, ◌==◌, if◌then◌else◌, ltb, Option, none, some,
}
use dwnx.Prelude.{Result, ok, fault, ◌>>=◌}
use dwnx.Prelude.{nobuf, stream_data_blocked}
use dwnx.Frame
use dwnx.Frame.FrameType
use dwnx.Frame.{Frame}
use dwnx.Frame.Encode.{vec_len, stream_flags}
use dwnx.Qre.{Qre, stream_max_datalen, encode_frame}
use dwnx.Strm.{Strm, shutdown}
use dwnx.Conn.{Conn, Event, call}
use dwnx.Conn.Credit.{enforce_flow_control}
use dwnx.Conn.Streams.{tx_strmq_push_if_not, close_stream_if_shut_rdwr}
use dwnx.Conn.Write.{
  Writing, Wrote, return_zero, on_zero, with_conn, with_qre, store, write_fr, write_data_blocked,
  write_stream_data_blocked,
}

abbrev pub to_be_blocked : Strm → Strm
to_be_blocked strm = record strm { flags = record strm.flags { send_stream_data_blocked = true } }

-- Where the record has no room for them, the frames wait in the transmission queue.
abbrev pub or_queue : Strm → (Writing → Result Wrote) → Wrote → Result Wrote
or_queue strm next (none, w) = next w
or_queue strm next (some nobuf, w) =
    next (with_conn (tx_strmq_push_if_not (to_be_blocked strm) w.conn) w)
or_queue strm next (some code, w) = fault

unfoldable pub write_blocked : Strm → (Writing → Result Wrote) → Writing → Result Wrote
unfolding write_data_blocked write_stream_data_blocked
write_blocked strm next w =
    write_data_blocked w
    >>= on_zero (write_stream_data_blocked (λ strm w. return_zero w) strm)
    >>= or_queue strm next

-- Not even a byte may be sent.
unfoldable pub stream_blocked : Strm → Writing → Result Wrote
unfolding write_blocked
stream_blocked strm w =
    write_blocked strm
      (λ w.
        if strm.tx.max_offset == strm.tx.offset
        then ok (some stream_data_blocked, w)
        else return_zero w)
      w

abbrev pub data_frame : Strm → Bool → ℕ → List (List ℕ) → Frame.Stream
data_frame strm fin wdatalen datav = record {
  flags = stream_flags fin (not (strm.tx.offset == 0));
  fin = fin;
  stream_id = strm.stream_id;
  offset = strm.tx.offset;
  len = wdatalen;
  vecs = datav;
}

-- The stream and the connection after `n` bytes.
abbrev pub sent_strm : ℕ → Strm → Strm
sent_strm n strm = record strm {
  flags = record strm.flags { any_sent = true };
  tx = record strm.tx { offset = strm.tx.offset + n };
}

abbrev pub sent_conn : ℕ → Conn → Conn
sent_conn n conn = record conn { tx = record conn.tx { offset = conn.tx.offset + n } }

abbrev pub set_pdatalen : ℕ → Writing → Result Wrote
set_pdatalen n w = return_zero (record w { pdatalen = some n })

-- From `if (fr.stream.fin)` on; `limited` is `ndatalen < datalen`.
unfoldable pub after_frame : Strm → Bool → Bool → ℕ → Writing → Result Wrote
unfolding write_blocked
after_frame strm fin limited n w =
    if fin
    then (do
      let strm = shutdown false true strm
      let w = store strm w
      conn ← close_stream_if_shut_rdwr strm w.conn
      set_pdatalen n (with_conn conn w))
    else if limited
    then write_blocked strm (set_pdatalen n) w
    else set_pdatalen n w

-- The frame, for which the record has room.
unfoldable pub send_frame : Strm → Bool → Bool → ℕ → List (List ℕ) → Writing → Result Wrote
unfolding after_frame
send_frame strm fin limited n datav w =
    put_frame (encode_frame w.qre (Frame.stream (data_frame strm fin n datav)))
  where
    put_frame : Result Qre → Result Wrote
    put_frame (ok qre) = do
      conn ← call (Event.write_stream_data_offset strm.stream_id strm.tx.offset n) w.conn
      let strm = sent_strm n strm
      after_frame strm fin limited n (store strm (with_conn (sent_conn n conn) (with_qre qre w)))
    put_frame r = fault

-- The data that the record has room for; -1 is `none`.
unfoldable pub send_data : Strm → Bool → ℕ → ℕ → List (List ℕ) → Writing → Option ℕ → Result Wrote
unfolding send_frame
send_data strm flag_fin datalen ndatalen datav w none = ok (some nobuf, w)
send_data strm flag_fin datalen ndatalen datav w (some wdatalen) =
    if wdatalen == 0 && not (datalen == 0)
    then ok (some nobuf, w)
    else send_frame strm (flag_fin && datalen == wdatalen) (ltb ndatalen datalen) wdatalen datav w

-- dwnx_conn_write_stream_frame; `flag_fin` is `flags & DWNX_WRITE_STREAM_FLAG_FIN`.
unfoldable pub write_stream_frame : Strm → Bool → List (List ℕ) → Writing → Result Wrote
unfolding stream_blocked send_data
write_stream_frame strm flag_fin datav w =
    let datalen = vec_len datav in
    let ndatalen = enforce_flow_control w.conn strm datalen in
    if ndatalen == 0 && not (datalen == 0)
    then stream_blocked strm w
    else stream_max_datalen w.qre strm.stream_id strm.tx.offset ndatalen
      >>= send_data strm flag_fin datalen ndatalen datav w

abbrev pub accept : Writing → Writing
accept w = record w { accepted = true }

unfoldable pub write_datagram_frame : List (List ℕ) → Writing → Result Wrote
unfolding write_fr
write_datagram_frame datav w =
    write_fr
      (Frame.datagram (record { type = FrameType.datagram_len; len = vec_len datav; vecs = datav }))
      w
    >>= on_zero (λ w. return_zero (accept w))
