-- ===== src/Conn/Write/Rounds.antt =====
-- The loop of dwnx_conn_write_ctrl_frames ends, with no assertion failed, and keeps what is kept.
use dwnx.Prelude.{
  ℕ, zero, suc, ◌+◌, ◌<◌, ◌≡◌, refl, ap, ◌∙◌, arith, List, [], ◌∷◌, Bool, true, false, not, ◌&&◌,
  ◌||◌, if◌then◌else◌, ltb, length, Option, none, some, inr,
}
use dwnx.Prelude.{Result, Holds, Holds-if, Holds-bind, nobuf}
use dwnx.Strm.{Strm, should_close_stream}
use dwnx.Conn.{Conn, Entry}
use dwnx.Conn.Credit.{strm_should_send_max_stream_data, should_send_max_data}
use dwnx.Conn.Write.{Writing, Wrote, with_conn, store, blocked_at}
use dwnx.Conn.Write.Control.{
  told_max_data, write_max_data, unanswered, write_ping_response, reset_sent, pop_and_close,
  write_reset, stop_sent, write_stop_sending, told_stream_data, write_max_stream_data, blocked_sent,
  blocked_frames, pop_strm, stream_frames, is_empty, queue_rounds, write_ctrl_frames,
}
use dwnx.Conn.Write.Invariant.{
  Holds-fatal_call, IsSender, IsPing, Here, Ready, put_strm-IsSender, close_unqueued-IsSender,
}
use dwnx.Conn.Write.Queue.{first_stream, top_found, IsLeft, pop-IsLeft}
use dwnx.Conn.Write.Frames.{
  write_fr-Holds, stream_fr-Holds, data_blocked-Holds, stream_data_blocked-Holds,
  write_max_streams-Holds,
}

module _ (watched : Option ℕ) (P : Wrote → Type 0)
    (full : (w : Writing) → Ready watched w → P (some nobuf, w)) where
  -- The frames of the stream of the first entry `e`, in a queue that stays as it is.
  module _ (e : Entry) (q : List Entry) where
    abbrev Follows : (Strm → Writing → Result Wrote) → Type 0
    Follows next =
        (strm : Strm) (w : Writing)
        → Ready watched w
        → Here watched w.conn strm
        → strm.stream_id ≡ e.stream_id
        → w.conn.tx.strmq ≡ e ∷ q
        → Holds P (next strm w)

    abbrev Again : (Writing → Result Wrote) → Type 0
    Again again =
        (w : Writing) → Ready watched w → length w.conn.tx.strmq ≡ length q → Holds P (again w)

    stored :
        (next : Strm → Writing → Result Wrote) (strm : Strm) (w : Writing)
        → Follows next
        → Ready watched w
        → Here watched w.conn strm
        → strm.stream_id ≡ e.stream_id
        → w.conn.tx.strmq ≡ e ∷ q
        → Holds P (next strm (store strm w))
    stored next strm w k r s i p =
        let t = put_strm-IsSender watched strm w.conn r.0 s in
        k strm (store strm w) (t.0, r.1) t.1 i p

    pop_strm-Follows : (again : Writing → Result Wrote) → Again again → Follows (pop_strm again)
    pop_strm-Follows again k strm w r s i p =
        Holds-bind (IsLeft watched w.conn e q) P _ _ (pop-IsLeft watched w.conn e q r.0 p)
          (λ conn l. k (with_conn conn w) (l.0, r.1) l.1)

    blocked_frames-Follows :
        (next : Strm → Writing → Result Wrote) → Follows next → Follows (blocked_frames next)
    unfolding blocked_frames
    blocked_frames-Follows next k strm w r s i p =
        let sent =
          λ (strm : Strm) (w : Writing). next (blocked_sent strm) (store (blocked_sent strm) w) in
        Holds-if P strm.flags.send_stream_data_blocked _ _
          (λ e.
            Holds-if P (not strm.flags.shut_wr) _ _
              (λ f. data_blocked-Holds watched P w _ r (full w r) (λ w r' t p'.
                stream_data_blocked-Holds watched P sent strm w r' (full w r') (t strm s)
                  (stored next (blocked_sent strm) w k r' (t strm s) i (p' ∙ p))
                  (λ w r'' s'' p''.
                    stored next (blocked_sent (blocked_at strm)) w k r'' s'' i (p'' ∙ p' ∙ p))))
              (λ f. stored next (blocked_sent strm) w k r s i p))
          (λ e. k strm w r s i p)

    write_max_stream_data-Follows :
        (next : Strm → Writing → Result Wrote) → Follows next → Follows (write_max_stream_data next)
    unfolding write_max_stream_data
    write_max_stream_data-Follows next k strm w r s i p =
        let c = s.0.0.0 in
        Holds-if P
          (not (strm.flags.shut_rd || strm.flags.stop_sending)
            && strm_should_send_max_stream_data strm)
          _ _
          (λ e.
            stream_fr-Holds watched P _ (told_stream_data strm) w next r (full _ r)
              (omega (arith, s.0.0.1), omega (arith, c.2))
              (
                (((omega (arith, c.0, c.1), omega arith, c.2), s.0.0.1, s.0.0.2, s.0.0.3), s.0.1),
                s.1,
              )
              (λ w r' s' p'. k _ w r' s' i (p' ∙ p)))
          (λ e. k strm w r s i p)

    write_stop_sending-Follows :
        (next : Strm → Writing → Result Wrote) → Follows next → Follows (write_stop_sending next)
    unfolding write_stop_sending
    write_stop_sending-Follows next k strm w r s i p =
        Holds-if P strm.flags.send_stop_sending _ _
          (λ e.
            Holds-if P (not strm.flags.shut_rd) _ _
              (λ f. Holds-fatal_call P _ w.conn _ (
                stream_fr-Holds watched P _ (stop_sent strm) _ next r (full _ r)
                  (omega (arith, s.0.0.1), omega (arith, s.1.3)) s
                  (λ w r' s' p'. k _ w r' s' i (p' ∙ p))))
              (λ f. stored next (stop_sent strm) w k r s i p))
          (λ e. k strm w r s i p)

    pop_and_close-Holds :
        (again : Writing → Result Wrote) (strm : Strm) (w : Writing)
        → Again again
        → Ready watched w
        → Here watched w.conn strm
        → strm.stream_id ≡ e.stream_id
        → w.conn.tx.strmq ≡ e ∷ q
        → should_close_stream strm ≡ true
        → Holds P (pop_and_close again strm w)
    unfolding pop_and_close
    pop_and_close-Holds again strm w g r s i p f =
        Holds-bind (IsLeft watched w.conn e q) P _ _ (pop-IsLeft watched w.conn e q r.0 p)
          (λ conn l.
            let h = l.2 strm s i in
            let IsClosed = λ (c : Conn). IsSender watched c × (c.tx.strmq ≡ conn.tx.strmq) in
            Holds-bind IsClosed P _ _
              (close_unqueued-IsSender watched (record strm { queued = false }) conn l.0 h f refl)
              (λ c k. g (with_conn c w) (k.0, r.1) (ap length k.1 ∙ l.1)))

    write_reset-Follows :
        (again : Writing → Result Wrote) (next : Strm → Writing → Result Wrote)
        → Again again
        → Follows next
        → Follows (write_reset again next)
    unfolding write_reset pop_and_close
    write_reset-Follows again next g k strm w r s i p =
        let behind = λ (strm : Strm) (w : Writing).
          if should_close_stream strm then pop_and_close again strm w else next strm w in
        Holds-if P strm.flags.send_reset_stream _ _
          (λ t.
            stream_fr-Holds watched P _ (reset_sent strm) w behind r (full _ r)
              (omega (arith, s.0.0.1), omega (arith, s.1.2), omega (arith, s.1.0, s.1.1)) s
              (λ w r' s' p'.
                Holds-if P (should_close_stream (reset_sent strm)) _ _
                  (pop_and_close-Holds again (reset_sent strm) w g r' s' i (p' ∙ p))
                  (λ f. k _ w r' s' i (p' ∙ p))))
          (λ t. k strm w r s i p)

    stream_frames-Follows :
        (again : Writing → Result Wrote)
        → Again again
        → Follows (λ strm w. stream_frames again (some strm) w)
    unfolding stream_frames
    stream_frames-Follows again g = write_reset-Follows again _ g (
        write_stop_sending-Follows _
          (write_max_stream_data-Follows _ (blocked_frames-Follows _ (pop_strm-Follows again g))))

  first_entry :
      (q : List Entry) → is_empty q ≡ false → (e : Entry) × (rest : List Entry) × (q ≡ e ∷ rest)
  first_entry [] f = cc f
  first_entry (e ∷ q) f = (e, q, refl)

  -- The fuel is more than there are entries.
  pub queue_rounds-Holds :
      ((w : Writing) → Ready watched w → P (none, w))
      → (fuel : ℕ) (w : Writing) → Ready watched w
      → length w.conn.tx.strmq < fuel
      → Holds P (queue_rounds fuel w)
  unfolding queue_rounds
  queue_rounds-Holds end zero w r f = elim f [ ]
  queue_rounds-Holds end (suc fuel) w r f =
      Holds-if P (is_empty w.conn.tx.strmq) _ _
        (λ t. write_max_streams-Holds watched P full w r end)
        (λ t.
          let (e, q, p) = first_entry w.conn.tx.strmq t in
          let (strm, found, i, s) = first_stream watched w.conn e q r.0 p in
          rw (top_found watched w.conn e q strm p found) (
            stream_frames-Follows e q (queue_rounds fuel)
              (λ w' r' l. queue_rounds-Holds end fuel w' r' (omega (arith, f, l, ap length p))) strm
              w r s i p))

  write_ping_response-Holds :
      (next : Writing → Result Wrote) (seq : Option ℕ) (w : Writing)
      → Ready watched w
      → IsPing seq
      → ((w : Writing) → Ready watched w → Holds P (next w))
      → Holds P (write_ping_response next seq w)
  unfolding write_ping_response
  write_ping_response-Holds next none w r s k = k w r
  write_ping_response-Holds next (some seq) w r s k =
      write_fr-Holds watched P _ w _ r (full w r) (inr refl, omega (arith, s))
        (λ qre o. k _ (r.0, o))

  unanswered-IsPing : (seq resp : Option ℕ) → IsPing seq → IsPing (unanswered seq resp)
  unanswered-IsPing none resp s = tt
  unanswered-IsPing (some seq) none s = s
  unanswered-IsPing (some seq) (some resp) s = either (ltb resp seq)
    where
      either : (b : Bool) → IsPing (if b then some seq else none)
      either true = s
      either false = tt

  told_max_data-IsSender :
      (w : Writing) → IsSender watched w.conn → IsSender watched (told_max_data w).conn
  told_max_data-IsSender w h =
      let b = h.0.0 in
      (
        (
          ((omega (arith, b.0.0, b.0.1), omega arith, b.0.2), b.1, b.2, b.3, b.4, b.5),
          h.0.1,
          h.0.2,
          h.0.3,
        ),
        h.1,
        h.2,
      )

  pub write_ctrl_frames-Holds :
      (w : Writing)
      → Ready watched w
      → ((w : Writing) → Ready watched w → P (none, w))
      → Holds P (write_ctrl_frames w)
  unfolding write_ctrl_frames write_max_data
  write_ctrl_frames-Holds w r end =
      let rest = λ (w : Writing) (r : Ready watched w).
        write_ping_response-Holds _ (unanswered w.conn.rx.ping_last_seq w.last_resp_seq) w r
          (unanswered-IsPing w.conn.rx.ping_last_seq w.last_resp_seq r.0.1.2)
          (λ w r. queue_rounds-Holds end (length w.conn.tx.strmq + 1) w r (omega arith)) in
      Holds-if P (should_send_max_data w.conn) _ _
        (λ e.
          write_fr-Holds watched P _ w _ r (full w r) (omega (arith, r.0.0.0.0.2))
            (λ qre o. rest _ (told_max_data-IsSender w r.0, o)))
        (λ e. rest w r)
