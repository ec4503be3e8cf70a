-- ===== src/Conn/Write/Sent.antt =====
-- A STREAM or a DATAGRAM frame keeps what is kept: no more is sent than the peer allows.
use dwnx.Prelude.{
  ℕ, ◌+◌, ◌≤◌, ◌<◌, ◌^◌, ◌≡◌, ◌⊎◌, refl, arith, List, Bool, true, false, not, ◌&&◌, ◌==◌,
  if◌then◌else◌, ltb, length, Option, none, some, inl, inr, All, IsByte,
}
use dwnx.Prelude.{
  Result, ok, ◌>>=◌, Holds, Holds-ok, Holds-if, Holds-bind, nobuf, stream_data_blocked,
}
use dwnx.Vec.{max_varint}
use dwnx.Frame.{Frame}
use dwnx.Frame.Encode.{vec_len}
use dwnx.Frame.Encode.CopyLoop.{vec_len-concat}
use dwnx.Frame.Wire.{concat, IsEncodable}
use dwnx.Qre.{Qre, encode_frame, stream_max_datalen}
use dwnx.Qre.Bounds.{IsOpen, encode_frame-wire}
use dwnx.Qre.MaxDatalen.{stream_max_datalen-fits, stream_max_datalen-cases}
use dwnx.Strm.{Strm, shutdown}
use dwnx.Conn.{Conn, put_strm}
use dwnx.Conn.Credit.{enforce_flow_control}
use dwnx.Conn.Spend.{enforce_flow_control-limits}
use dwnx.Conn.Streams.{tx_strmq_first_cycle, tx_strmq_push, tx_strmq_push_if_not}
use dwnx.Conn.Queue.{push_if_not-IsConn}
use dwnx.Conn.Strms.{All-replace}
use dwnx.Conn.Invariant.{Holds-call}
use dwnx.Conn.Write.{Writing, Wrote, return_zero}
use dwnx.Conn.Write.Data.{
  to_be_blocked, or_queue, write_blocked, stream_blocked, data_frame, sent_strm, sent_conn,
  after_frame, send_frame, send_data, write_stream_frame, write_datagram_frame,
}
use dwnx.Conn.Write.Invariant.{
  IsSender, IsSpent, Here, Ready, put_strm-IsSender, close-IsSender, Rest,
}
use dwnx.Conn.Write.Frames.{write_fr-Holds, data_blocked-Holds, stream_data_blocked-Holds}

queue-IsSender :
    (strm : Strm) (conn : Conn)
    → IsSender none conn
    → Here none conn strm
    → IsSender none (tx_strmq_push_if_not strm conn)
unfolding tx_strmq_push_if_not
queue-IsSender strm conn h s =
    let k = either strm.queued in (push_if_not-IsConn strm conn h.0 s.0, k.0, k.1)
  where
    cycled : Strm
    cycled = record strm { cycle = tx_strmq_first_cycle conn }

    stored : (new : Strm) → IsSpent none new → All (IsSpent none) (put_strm new conn).strms
    stored new t =
        All-replace (IsSpent none) (IsSpent none) new.stream_id (λ s n p. p) conn.strms new refl
          h.0.1 h.2 t

    either : (b : Bool) → Rest none (if b then put_strm strm conn else tx_strmq_push cycled conn)
    either true = (h.1, stored strm s.1)
    either false = (h.1, stored (record cycled { queued = true }) s.1)

module _ (P : Wrote → Type 0) (full : (w : Writing) → Ready none w → P (some nobuf, w)) where
  -- The result of the frames that say that data are blocked, before the stream is queued.
  abbrev Tried : Strm → Wrote → Type 0
  Tried strm out =
      ((out.0 ≡ none) ⊎ (out.0 ≡ some nobuf)) × Ready none out.1 × Here none out.1.conn strm

  write_blocked-Holds :
      (strm : Strm) (w : Writing) (next : Writing → Result Wrote)
      → Ready none w
      → Here none w.conn strm
      → ((w : Writing) → Ready none w → Holds P (next w))
      → Holds P (write_blocked strm next w)
  unfolding write_blocked
  write_blocked-Holds strm w next r s k =
      Holds-bind (Tried strm) P _ _
        (data_blocked-Holds none (Tried strm) w _ r (inr refl, r, s)
          (λ w r t p.
            stream_data_blocked-Holds none (Tried strm)
              (λ (strm : Strm) (w : Writing). return_zero w) strm w r (inr refl, r, t strm s)
              (t strm s) (Holds-ok (Tried strm) (none, w) (inl refl, r, t strm s))
              (λ w r s p. Holds-ok (Tried strm) (none, w) (inl refl, r, s))))
        (λ out t. queued out.0 out.1 t.0 t.1 t.2)
    where
      queued :
          (code : Option _) (w : Writing)
          → (code ≡ none) ⊎ (code ≡ some nobuf)
          → Ready none w
          → Here none w.conn strm
          → Holds P (or_queue strm next (code, w))
      queued code w (inl e) r s = rw e (k w r)
      queued code w (inr e) r s = rw e (k _ (queue-IsSender (to_be_blocked strm) w.conn r.0 s, r.1))

  -- Where data are refused, or have been taken, the result is as it is to be.
  module _ (end : (w : Writing) → Ready none w → P (none, w))
      (refused : (w : Writing) → Ready none w → P (some stream_data_blocked, w)) where
    stream_blocked-Holds :
        (strm : Strm) (w : Writing)
        → Ready none w
        → Here none w.conn strm
        → Holds P (stream_blocked strm w)
    unfolding stream_blocked
    stream_blocked-Holds strm w r s = write_blocked-Holds strm w _ r s (λ w r.
        Holds-if P (strm.tx.max_offset == strm.tx.offset) _ _ (λ e. Holds-ok P _ (refused w r))
          (λ e. Holds-ok P _ (end w r)))

    after_frame-Holds :
        (strm : Strm) (fin limited : Bool) (n : ℕ) (w : Writing)
        → Ready none w
        → Here none w.conn strm
        → Holds P (after_frame strm fin limited n w)
    unfolding after_frame
    after_frame-Holds strm fin limited n w r s =
        let shut = shutdown false true strm in
        let t = put_strm-IsSender none shut w.conn r.0 s in
        Holds-if P fin _ _
          (λ e.
            Holds-bind (IsSender none) P _ _
              (close-IsSender none shut (put_strm shut w.conn) t.0 t.1)
              (λ conn h. Holds-ok P _ (end _ (h, r.1))))
          (λ e.
            Holds-if P limited _ _
              (λ l. write_blocked-Holds strm w _ r s (λ w r. Holds-ok P _ (end _ r)))
              (λ l. Holds-ok P _ (end _ r)))

    -- A frame for which the record has room, of bytes that may be sent.
    send_frame-Holds :
        (strm : Strm) (fin limited : Bool) (n : ℕ) (datav : List (List ℕ)) (w : Writing) (qre : Qre)
        → Ready none w
        → Here none w.conn strm
        → encode_frame w.qre (Frame.stream (data_frame strm fin n datav)) ≡ ok qre
        → IsOpen qre
        → strm.tx.offset + n ≤ strm.tx.max_offset
        → w.conn.tx.offset + n ≤ w.conn.tx.max_offset
        → Holds P (send_frame strm fin limited n datav w)
    unfolding send_frame
    send_frame-Holds strm fin limited n datav w qre r s e o h k = rw e (
        Holds-call P _ w.conn _ (
          let own = r.0.1 in
          let t =
            put_strm-IsSender none (sent_strm n strm) (sent_conn n w.conn)
              (r.0.0, (k, own.1, own.2, own.3, own.4), r.0.2)
              (s.0, (h, s.1.1, s.1.2, s.1.3, s.1.4)) in
          after_frame-Holds (sent_strm n strm) fin limited n _ (t.0, o) t.1))

    send_data-Holds :
        (strm : Strm) (flag_fin : Bool) (datalen ndatalen : ℕ) (datav : List (List ℕ)) (w : Writing)
        → Ready none w
        → Here none w.conn strm
        → All IsByte (concat datav)
        → ndatalen ≤ length (concat datav)
        → length (concat datav) ≤ max_varint
        → strm.tx.offset + ndatalen ≤ strm.tx.max_offset
        → w.conn.tx.offset + ndatalen ≤ w.conn.tx.max_offset
        → Holds P (
            stream_max_datalen w.qre strm.stream_id strm.tx.offset ndatalen
            >>= send_data strm flag_fin datalen ndatalen datav w)
    unfolding send_data
    send_data-Holds strm flag_fin datalen ndatalen datav w r s bytes fits small h k =
        let id = s.0.0.1 in
        let off : strm.tx.offset < 2 ^ 62 = omega (arith, s.1.0, s.1.1) in
        elim (stream_max_datalen-cases w.qre strm.stream_id strm.tx.offset ndatalen r.1 id off) [
          | inl e ↦ rw e (Holds-ok P _ (full w r))
          | inr (d, e, l) ↦
              let fin = flag_fin && datalen == d in
              let fr = data_frame strm fin d datav in
              let enc : IsEncodable (Frame.stream fr) =
                (id, off, omega arith, omega arith, bytes) in
              let fit = stream_max_datalen-fits w.qre fr ndatalen r.1 enc e in
              rw e (
                Holds-if P (d == 0 && not (datalen == 0)) _ _ (λ z. Holds-ok P _ (full w r))
                  (λ z. elim (encode_frame-wire w.qre (Frame.stream fr) r.1 enc) [
                    | inl f ↦
                        send_frame-Holds strm fin (ltb ndatalen datalen) d datav w _ r s f.1 f.2
                          (omega arith) (omega arith)
                    | inr f ↦ cc (f.1, fit.1)
                  ]))
        ]

    pub write_stream_frame-Holds :
        (strm : Strm) (flag_fin : Bool) (datav : List (List ℕ)) (w : Writing)
        → Ready none w
        → Here none w.conn strm
        → All IsByte (concat datav)
        → length (concat datav) ≤ max_varint
        → Holds P (write_stream_frame strm flag_fin datav w)
    unfolding write_stream_frame
    write_stream_frame-Holds strm flag_fin datav w r s bytes small =
        let len = vec_len-concat datav (omega arith) in
        let n = enforce_flow_control w.conn strm (vec_len datav) in
        let g =
          enforce_flow_control-limits w.conn strm (vec_len datav) r.0.1.0 (omega (arith, r.0.1.1))
            s.1.0 (omega (arith, s.1.1)) in
        Holds-if P (n == 0 && not (vec_len datav == 0)) _ _ (λ e. stream_blocked-Holds strm w r s)
          (λ e.
            send_data-Holds strm flag_fin (vec_len datav) n datav w r s bytes
              (omega (arith, len, g.0)) small g.1 g.2)

  pub write_datagram_frame-Holds :
      (datav : List (List ℕ)) (w : Writing)
      → ((w : Writing) → Ready none w → P (none, w))
      → Ready none w
      → All IsByte (concat datav)
      → length (concat datav) ≤ max_varint
      → Holds P (write_datagram_frame datav w)
  unfolding write_datagram_frame
  write_datagram_frame-Holds datav w end r bytes small =
      let len = vec_len-concat datav (omega arith) in
      write_fr-Holds none P _ w _ r (full w r) (inr refl, omega (arith, len), len, bytes)
        (λ qre o. Holds-ok P _ (end _ (r.0, o)))
