-- ===== src/Conn/Write/Message.antt =====
-- The calls of the application that write a record, and dwnx_conn_write_vmsg of lib/dwnx_conn.c, which
-- they share. `dest` is what the buffer holds before.
use dwnx.Prelude.{
  ℕ, min, List, Bool, true, false, not, ◌&&◌, ◌||◌, ◌==◌, if◌then◌else◌, ltb, leb, length, Option,
  none, some,
}
use dwnx.Prelude.{Result, ok, fault, ◌>>=◌, ◌>>◌, check}
use dwnx.Prelude.{
  nobuf, invalid_argument, invalid_state, stream_not_found, stream_shut_wr, write_more,
}
use dwnx.TransportParams.{default_max_record_size}
use dwnx.Vec.{max_varint, vec_len_varint}
use dwnx.Frame.FrameType
use dwnx.Frame.{Frame}
use dwnx.Frame.Encode.{datagram_framelen}
use dwnx.Qre
use dwnx.Qre.{Qre, left, start, final, recordlen_size}
use dwnx.Strm.{Strm}
use dwnx.Conn.{sub64, find_stream}
use dwnx.Conn.Write.{Writing, Wrote, return_zero, with_qre, write_fr, write_max_streams}
use dwnx.Conn.Write.Control.{write_ctrl_frames}
use dwnx.Conn.Write.Data.{write_stream_frame, write_datagram_frame}

-- dwnx_vmsg; the pointer to a stream is the stream ID that leads to it in the map.
pub data Vmsg : Type 0 where
  stream : ℕ → Bool → List (List ℕ) → Vmsg
  datagram : List (List ℕ) → Vmsg

-- `if (rv < 0 && rv != DWNX_ERR_NOBUF) return rv;`, and whether `rv` is 0 behind it.
abbrev pub or_full : (Bool → Writing → Result Wrote) → Wrote → Result Wrote
or_full next (none, w) = next true w
or_full next (some nobuf, w) = next false w
or_full next (some code, w) = ok (some code, w)

unfoldable pub write_transport_params : Writing → Result Wrote
unfolding write_fr
write_transport_params w =
    write_fr
      (Frame.qx_transport_parameters
        (record { type = FrameType.qx_transport_parameters; params = w.conn.local_params }))
      w

abbrev pub or_reset : (Writing → Result Wrote) → Wrote → Result Wrote
or_reset next (none, w) = next w
or_reset next (some code, w) = ok (some code, with_qre (Qre.reset w.qre) w)

unfoldable pub write_params_frame : (Writing → Result Wrote) → Writing → Result Wrote
unfolding write_transport_params
write_params_frame next w =
    if w.params_sent
    then next w
    else write_transport_params w >>= or_reset (λ w. next (record w { params_sent = true }))

-- Whether `rv` is not DWNX_ERR_NOBUF goes to `next`.
unfoldable pub begin_record : (Bool → Writing → Result Wrote) → List ℕ → Writing → Result Wrote
unfolding write_params_frame
begin_record next dest w =
    if w.qre.started
    then next true w
    else start w.qre dest
      >>= (λ qre. write_params_frame (λ w. write_ctrl_frames w >>= or_full next) (with_qre qre w))

-- Behind a frame that has been written, more can be while there is room.
abbrev pub or_more : (Writing → Result Wrote) → Wrote → Result Wrote
or_more next (none, w) = if not (left w.qre == 0) then ok (some write_more, w) else next w
or_more next (some nobuf, w) = next w
or_more next (some code, w) = ok (some code, w)

-- A pointer to a stream that is no more is a fault.
unfoldable pub through_pointer : Option Strm → (Strm → Result Wrote) → Result Wrote
through_pointer none use_strm = fault
through_pointer (some strm) use_strm = use_strm strm

unfoldable pub write_message :
    (Writing → Result Wrote) → Option Vmsg → Bool → Writing → Result Wrote
unfolding through_pointer
write_message next none room w = next w
write_message next (some vmsg) false w = next w
write_message next (some (stream stream_id flag_fin datav)) true w =
    through_pointer (find_stream w.conn stream_id)
      (λ strm. write_stream_frame strm flag_fin datav w)
    >>= or_more next
write_message next (some (datagram datav)) true w = write_datagram_frame datav w >>= or_more next

unfoldable pub finish_record : ℕ → Writing → Result Wrote
finish_record ts w = final w.qre >>= finished
  where
    finished : ℕ × Qre → Result Wrote
    finished (nwrite, qre) =
        if nwrite == 0
        then return_zero (record w { qre = qre; nwrite = 0 })
        else return_zero (record w { qre = qre; nwrite = nwrite; idle_ts = ts })

unfoldable pub write_vmsg : List ℕ → Option Vmsg → ℕ → Writing → Result Wrote
unfolding begin_record write_message finish_record
write_vmsg dest vmsg ts w =
    if leb (length dest) recordlen_size
    then ok (some nobuf, w)
    else begin_record
        (write_message (λ w. write_max_streams w >>= or_full (λ room w. finish_record ts w)) vmsg)
        dest w

-- A message of `datalen` bytes for `strm`.
unfoldable pub write_to :
    List ℕ → Strm → Bool → List (List ℕ) → ℕ → Writing → Option ℕ → Result Wrote
unfolding write_vmsg
write_to dest strm flag_fin datav ts w none = ok (some invalid_argument, w)
write_to dest strm flag_fin datav ts w (some datalen) =
    if datalen == 0 && (not flag_fin && strm.flags.any_sent)
    then write_vmsg dest none ts w
    else if ltb (sub64 max_varint strm.tx.offset) datalen
        || ltb (sub64 max_varint w.conn.tx.offset) datalen
    then ok (some invalid_argument, w)
    else write_vmsg dest (some (stream strm.stream_id flag_fin datav)) ts w

unfoldable pub write_found :
    List ℕ → Bool → List (List ℕ) → ℕ → Writing → Option Strm → Result Wrote
unfolding write_to
write_found dest flag_fin datav ts w none = ok (some stream_not_found, w)
write_found dest flag_fin datav ts w (some strm) =
    if strm.flags.shut_wr
    then ok (some stream_shut_wr, w)
    else write_to dest strm flag_fin datav ts w (vec_len_varint datav)

-- dwnx_conn_writev_stream; a `stream_id` of -1 is `none`.
unfoldable pub writev_stream : List ℕ → Bool → Option ℕ → List (List ℕ) → ℕ → Writing → Result Wrote
unfolding write_vmsg write_found
writev_stream dest flag_fin stream_id datav ts w =
    check (leb w.last_ts ts) >> on_id stream_id (record w { last_ts = ts; pdatalen = none })
  where
    on_id : Option ℕ → Writing → Result Wrote
    on_id none w = write_vmsg dest none ts w
    on_id (some id) w = write_found dest flag_fin datav ts w (find_stream w.conn id)

unfoldable pub datagram_to : List ℕ → List (List ℕ) → ℕ → Writing → Option ℕ → Result Wrote
unfolding write_vmsg
datagram_to dest datav ts w none = ok (some invalid_argument, w)
datagram_to dest datav ts w (some datalen) = do
  framelen ← datagram_framelen datalen
  if ltb (min w.conn.remote_params.max_datagram_frame_size default_max_record_size) framelen
      then ok (some invalid_argument, w)
      else write_vmsg dest (some (datagram datav)) ts w

unfoldable pub writev_datagram : List ℕ → List (List ℕ) → ℕ → Writing → Result Wrote
unfolding datagram_to
writev_datagram dest datav ts w =
    check (leb w.last_ts ts)
    >> (let w = record w { last_ts = ts; accepted = false } in
        if w.conn.remote_params.max_datagram_frame_size == 0
        then ok (some invalid_state, w)
        else datagram_to dest datav ts w (vec_len_varint datav))
