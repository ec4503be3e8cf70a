-- ===== src/Conn/Write/Calls.antt =====
-- dwnx_conn_writev_stream and dwnx_conn_writev_datagram from a connection in order.
use dwnx.Prelude.{
  ℕ, ◌≤◌, ◌≡◌, ◌≢◌, ◌⊎◌, refl, sym, ap, ◌∙◌, arith, List, [], ◌∷◌, Bool, true, false, false≢true,
  not, ◌&&◌, ◌||◌, ◌==◌, ==_iff, ltb, leb, length, min, Option, none, some, inl, inr, All, IsByte,
  Bool-cases, le→leb, leb→le,
}
use dwnx.Prelude.{Result, ◌>>=◌, Holds, Holds-ok, Holds-if, Holds-bind, Holds-check}
use dwnx.Vec.{max_varint, vec_len_varint}
use dwnx.Vec.Copy.{vec_len_varint-concat}
use dwnx.Frame
use dwnx.Frame.{Frame}
use dwnx.Frame.FrameType
use dwnx.Frame.Encode.Sound.{datagram_framelen-wire}
use dwnx.TransportParams.{default_max_record_size}
use dwnx.Frame.Wire.{concat, wire}
use dwnx.Qre
use dwnx.Qre.{Qre, append, start, recordlen_size}
use dwnx.Qre.Bounds.{IsOpen, start-IsOpen, encode_frame-wire}
use dwnx.Strm.{Strm}
use dwnx.Conn.{Conn, find, absent, find_stream, sub64}
use dwnx.Conn.Strms.{Unique, All-absent, find-All}
use dwnx.Conn.Write.{Writing, Wrote, with_qre, write_max_streams}
use dwnx.Conn.Write.Control.{write_ctrl_frames}
use dwnx.Conn.Write.Message.{
  Vmsg, or_full, write_params_frame, write_transport_params, begin_record, write_vmsg, write_to,
  write_found, writev_stream, datagram_to, writev_datagram,
}
use dwnx.Conn.Write.Invariant.{IsSender, IsSpent, Ready}
use dwnx.Conn.Write.Rounds.{write_ctrl_frames-Holds}
use dwnx.Conn.Write.Returned.{
  Lasting, IsReturn, Tried, or_full-Holds, weaken, write_vmsg_end, IsMessage, pointer,
  write_message-Holds,
}

-- A state between two calls, with a stream that is to stay.
abbrev Rests : Option ℕ → Writing → Type 0
Rests watched w = IsSender watched w.conn × ((w.qre.started ≡ false) ⊎ IsOpen w.qre)

module _ (watched : Option ℕ) (next : Bool → Writing → Result Wrote)
    (k : (room : Bool) (w : Writing) → Ready watched w → Holds IsReturn (next room w)) where
  ctrl_frames-Holds :
      (w : Writing) → Ready watched w → Holds IsReturn (write_ctrl_frames w >>= or_full next)
  ctrl_frames-Holds w r =
      Holds-bind (Tried watched) IsReturn _ _
        (write_ctrl_frames-Holds watched (Tried watched) (λ w r. (inr refl, r)) w r
          (λ w r. (inl refl, r)))
        (λ out t. or_full-Holds IsReturn watched next k out.0 out.1 t.0 t.1)

  -- The transport parameters are the first frame of the first record.
  params_frame-Holds :
      (w : Writing)
      → Ready watched w
      → Holds IsReturn (write_params_frame (λ w. write_ctrl_frames w >>= or_full next) w)
  unfolding write_params_frame write_transport_params dwnx.Conn.Write.write_fr Qre.reset
  params_frame-Holds w r =
      Holds-if IsReturn w.params_sent _ _ (λ t. ctrl_frames-Holds w r)
        (λ f. elim (encode_frame-wire w.qre fr r.1 (refl, r.0.1.3)) [
          | inl e ↦ rw e.1 (
              ctrl_frames-Holds (record w { qre = append w.qre (wire fr); params_sent = true })
                (r.0, e.2))
          | inr e ↦ rw e.1 (Holds-ok IsReturn _ ((weaken watched w.conn r.0, inl refl), tt))
        ])
    where
      fr : Frame
      fr =
          Frame.qx_transport_parameters
            (record { type = FrameType.qx_transport_parameters; params = w.conn.local_params })

  begin_record-Holds :
      (dest : List ℕ) (w : Writing)
      → recordlen_size ≤ length dest
      → Rests watched w
      → Holds IsReturn (begin_record next dest w)
  unfolding begin_record
  begin_record-Holds dest w l r =
      Holds-if IsReturn w.qre.started _ _ (λ t. k true w (r.0, opened t r.1))
        (λ f.
          let s = start-IsOpen w.qre dest l in
          rw s.1 (params_frame-Holds (with_qre s.0 w) (r.0, s.2)))
    where
      opened : w.qre.started ≡ true → (w.qre.started ≡ false) ⊎ IsOpen w.qre → IsOpen w.qre
      opened t (inl f) = absurd (false≢true (sym f ∙ t))
      opened t (inr o) = o

write_vmsg-Holds :
    (dest : List ℕ) (vmsg : Option Vmsg) (ts : ℕ) (w : Writing)
    → IsMessage vmsg
    → Rests (pointer vmsg) w
    → Holds IsReturn (write_vmsg dest vmsg ts w)
unfolding write_vmsg
write_vmsg-Holds dest vmsg ts w m r = elim (Bool-cases (leb (length dest) recordlen_size)) [
  | inl t ↦ rw t (Holds-ok IsReturn _ ((weaken (pointer vmsg) w.conn r.0, r.1), tt))
  | inr f ↦ rw f (
      begin_record-Holds (pointer vmsg) _
        (λ room w r. write_message-Holds _ vmsg room w (write_vmsg_end ts) m r) dest w
        (large (length dest) f) r)
]
  where
    large : (n : ℕ) → leb n recordlen_size ≡ false → recordlen_size ≤ n
    large n f = ground arith

-- A stream that is open for writing is watched.
watch :
    (id : ℕ) (strms : List Strm) (strm : Strm)
    → Unique strms
    → All (IsSpent none) strms
    → find id strms ≡ some strm
    → strm.flags.shut_wr ≡ false
    → All (IsSpent (some id)) strms
watch id [] strm u a f o = tt
watch id (s ∷ strms) strm u a f o = elim (Bool-cases (s.stream_id == id)) [
  | inl t ↦
      let same : s ≡ strm = cc (t, f) in
      let here = (==_iff s.stream_id id).0 t in
      let open_here = ap (λ (s : Strm). s.flags.shut_wr) same ∙ o in
      let behind = ap (λ id. absent (find id strms)) (sym here) ∙ u.0 in
      (
        (a.0.0, a.0.1, a.0.2, a.0.3, λ p. open_here),
        All-absent (IsSpent none) (IsSpent (some id)) id other strms behind a.1,
      )
  | inr n ↦ (
    other s (λ p. false≢true (sym n ∙ (==_iff s.stream_id id).1 p)) a.0,
    watch id strms strm u.1 a.1 (cc (n, f)) o,
  )
]
  where
    other : (s : Strm) → s.stream_id ≢ id → IsSpent none s → IsSpent (some id) s
    other s n t = (t.0, t.1, t.2, t.3, λ p. absurd (n p))

write_to-Holds :
    (dest : List ℕ) (strm : Strm) (flag_fin : Bool) (datav : List (List ℕ)) (ts : ℕ) (w : Writing)
    → Lasting w
    → find strm.stream_id w.conn.strms ≡ some strm
    → strm.flags.shut_wr ≡ false
    → All IsByte (concat datav)
    → Holds IsReturn (write_to dest strm flag_fin datav ts w (vec_len_varint datav))
unfolding write_to
write_to-Holds dest strm flag_fin datav ts w h f o bytes =
    elim (Bool-cases (leb (length (concat datav)) max_varint)) [
      | inl t ↦
          let len = length (concat datav) in
          let watched = watch strm.stream_id w.conn.strms strm h.0.0.1 h.0.2 f o in
          rw (vec_len_varint-concat datav, t)
            (Holds-if IsReturn (len == 0 && (not flag_fin && strm.flags.any_sent)) _ _
              (λ e. write_vmsg-Holds dest none ts w tt h)
              (λ e.
                Holds-if IsReturn
                  (ltb (sub64 max_varint strm.tx.offset) len
                    || ltb (sub64 max_varint w.conn.tx.offset) len)
                  _ _ (λ e. Holds-ok IsReturn _ (h, tt))
                  (λ e.
                    write_vmsg-Holds dest (some (Vmsg.stream strm.stream_id flag_fin datav)) ts w
                      (bytes, leb→le len max_varint t)
                      ((h.0.0, (h.0.1.0, h.0.1.1, h.0.1.2, h.0.1.3, ap absent f), watched), h.1))))
      | inr n ↦ rw (vec_len_varint-concat datav, n) (Holds-ok IsReturn _ (h, tt))
    ]

write_found-Holds :
    (dest : List ℕ) (flag_fin : Bool) (id : ℕ) (datav : List (List ℕ)) (ts : ℕ) (w : Writing)
    (o : Option Strm)
    → Lasting w
    → find id w.conn.strms ≡ o
    → All IsByte (concat datav)
    → Holds IsReturn (write_found dest flag_fin datav ts w o)
unfolding write_found
write_found-Holds dest flag_fin id datav ts w none h f bytes = Holds-ok IsReturn _ (h, tt)
write_found-Holds dest flag_fin id datav ts w (some strm) h f bytes =
    let s = find-All (IsSpent none) id w.conn.strms strm h.0.2 f in
    Holds-if IsReturn strm.flags.shut_wr _ _ (λ t. Holds-ok IsReturn _ (h, tt))
      (λ o.
        write_to-Holds dest strm flag_fin datav ts w h (ap (λ id. find id w.conn.strms) s.1 ∙ f) o
          bytes)

-- A call that writes stream data, or a record without, with bytes, at a time that is not before the last one
-- and on a connection in order, where what has been sent is within the limits, on the whole and on each
-- stream, the limits, the error codes of streams and the number of the last ping request are varints, the
-- local transport parameters are valid, and a record that is open is in bounds, does not fail an
-- assertion, does not write through the pointer of a stream that has been closed, and ends its loop. The
-- state that it returns, with an error or without, meets the same conditions, those on time and bytes apart.
-- Where it returns 0 there is no record or a whole one, which starts with its length; with
-- DWNX_ERR_WRITE_MORE the record is open with room for more.
pub writev_stream-IsReturn :
    (dest : List ℕ) (flag_fin : Bool) (stream_id : Option ℕ) (datav : List (List ℕ)) (ts : ℕ)
    (w : Writing)
    → Lasting w
    → w.last_ts ≤ ts
    → All IsByte (concat datav)
    → Holds IsReturn (writev_stream dest flag_fin stream_id datav ts w)
unfolding writev_stream
writev_stream-IsReturn dest flag_fin none datav ts w h clock bytes =
    Holds-check IsReturn _ _ (le→leb w.last_ts ts clock)
      (write_vmsg-Holds dest none ts (record w { last_ts = ts; pdatalen = none }) tt h)
writev_stream-IsReturn dest flag_fin (some id) datav ts w h clock bytes =
    Holds-check IsReturn _ _ (le→leb w.last_ts ts clock) (
      write_found-Holds dest flag_fin id datav ts (record w { last_ts = ts; pdatalen = none })
        (find id w.conn.strms) h refl bytes)

-- A call that writes a datagram, with bytes, at a time that is not before the last one and on a connection in
-- order, where what has been sent is within the limits, on the whole and on each stream, the limits, the error
-- codes of streams and the number of the last ping request are varints, the local transport parameters are
-- valid, and a record that is open is in bounds, does not fail an assertion and ends its loop.
-- The state that it returns, with an error or without, meets the same conditions, those on time and bytes
-- apart. Where it returns 0 there is no record or a whole one, which starts with its length; with
-- DWNX_ERR_WRITE_MORE the record is open with room for more.
pub writev_datagram-IsReturn :
    (dest : List ℕ) (datav : List (List ℕ)) (ts : ℕ) (w : Writing)
    → Lasting w
    → w.last_ts ≤ ts
    → All IsByte (concat datav)
    → Holds IsReturn (writev_datagram dest datav ts w)
unfolding writev_datagram datagram_to
writev_datagram-IsReturn dest datav ts w h clock bytes =
    Holds-check IsReturn _ _ (le→leb w.last_ts ts clock) (
      Holds-if IsReturn (w.conn.remote_params.max_datagram_frame_size == 0) _ _
        (λ e. Holds-ok IsReturn _ (h, tt))
        (λ e. sized (Bool-cases (leb (length (concat datav)) max_varint))))
  where
    fr : Frame.Datagram
    fr = record { type = FrameType.datagram_len; len = length (concat datav); vecs = datav }

    at : Writing
    at = record w { last_ts = ts; accepted = false }

    sized :
        (leb (length (concat datav)) max_varint ≡ true)
          ⊎ (leb (length (concat datav)) max_varint ≡ false)
        → Holds IsReturn (datagram_to dest datav ts at (vec_len_varint datav))
    sized (inr n) = rw (vec_len_varint-concat datav, n) (Holds-ok IsReturn _ (h, tt))
    sized (inl t) =
        let small = leb→le (length (concat datav)) max_varint t in
        rw
          (
            vec_len_varint-concat datav,
            t,
            datagram_framelen-wire fr (inr refl, omega (arith, small), refl, bytes) refl,
          )
          (Holds-if IsReturn
            (ltb (min w.conn.remote_params.max_datagram_frame_size default_max_record_size)
              (length (wire (Frame.datagram fr))))
            _ _ (λ e. Holds-ok IsReturn _ (h, tt))
            (λ e. write_vmsg-Holds dest (some (Vmsg.datagram datav)) ts at (bytes, small) h))
