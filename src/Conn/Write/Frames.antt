-- ===== src/Conn/Write/Frames.antt =====
-- A frame that is written into a record, and what is then return_zero, keep what is kept.
use dwnx.Prelude.{
  ℕ, ◌≤◌, ◌≡◌, refl, arith, Bool, true, false, ◌||◌, ◌==◌, if◌then◌else◌, ltb, Option, none, some,
  inl, inr,
}
use dwnx.Prelude.{Result, ◌>>=◌, Holds, Holds-ok, Holds-if, Holds-check, nobuf}
use dwnx.Frame.{Frame}
use dwnx.Frame.Wire.{wire, IsEncodable}
use dwnx.Qre.{Qre, append}
use dwnx.Qre.Bounds.{IsOpen, encode_frame-wire}
use dwnx.Strm.{Strm}
use dwnx.Conn.Write.{
  Writing, Wrote, on_zero, with_qre, store, write_fr, data_blocked_at, write_data_blocked,
  blocked_at, write_stream_data_blocked, told_bidi, told_uni, write_max_streams_bidi,
  write_max_streams_uni, write_max_streams,
}
use dwnx.Conn.Write.Invariant.{Holds-fatal_call, IsSender, Here, Ready, put_strm-IsSender}

-- Where nothing is left to send, the offset is at its limit.
at_limit : (a b : ℕ) (c : Bool) → a ≤ b → (ltb a b || c) ≡ false → (a == b) ≡ true
at_limit a b c h e = ground arith

told_bidi-IsSender :
    (watched : Option ℕ) (w : Writing)
    → IsSender watched w.conn
    → IsSender watched (told_bidi w).conn
told_bidi-IsSender watched w h =
    let b = h.0.0 in
    (((b.0, ((omega arith, b.1.0.1), b.1.1), b.2, b.3, b.4, b.5), h.0.1, h.0.2, h.0.3), h.1, h.2)

told_uni-IsSender :
    (watched : Option ℕ) (w : Writing)
    → IsSender watched w.conn
    → IsSender watched (told_uni w).conn
told_uni-IsSender watched w h =
    let b = h.0.0 in
    (((b.0, (b.1.0, (omega arith, b.1.1.1)), b.2, b.3, b.4, b.5), h.0.1, h.0.2, h.0.3), h.1, h.2)

-- `P` is what a result is to be.
module _ (watched : Option ℕ) (P : Wrote → Type 0) where
  pub write_fr-Holds :
      (fr : Frame) (w : Writing) (next : Writing → Result Wrote)
      → Ready watched w
      → P (some nobuf, w)
      → IsEncodable fr
      → ((qre : Qre) → IsOpen qre → Holds P (next (with_qre qre w)))
      → Holds P (write_fr fr w >>= on_zero next)
  unfolding write_fr
  write_fr-Holds fr w next r stuck e k = elim (encode_frame-wire w.qre fr r.1 e) [
    | inl f ↦ rw f.1 (k (append w.qre (wire fr)) f.2)
    | inr f ↦ rw f.1 (Holds-ok P (some nobuf, w) stuck)
  ]

  -- A frame of a stream, which is changed then.
  pub stream_fr-Holds :
      (fr : Frame) (strm : Strm) (w : Writing) (next : Strm → Writing → Result Wrote)
      → Ready watched w
      → P (some nobuf, w)
      → IsEncodable fr
      → Here watched w.conn strm
      → ((w' : Writing)
          → Ready watched w'
          → Here watched w'.conn strm
          → w'.conn.tx.strmq ≡ w.conn.tx.strmq
          → Holds P (next strm w'))
      → Holds P (write_fr fr w >>= on_zero (λ w. next strm (store strm w)))
  stream_fr-Holds fr strm w next r stuck e s k = write_fr-Holds fr w _ r stuck e (λ qre o.
      let p = put_strm-IsSender watched strm w.conn r.0 s in
      k (store strm (with_qre qre w)) (p.0, o) p.1 refl)

  if-bind :
      (b : Bool) (x y : Result Wrote) (g : Wrote → Result Wrote)
      → (b ≡ true → Holds P (x >>= g))
      → (b ≡ false → Holds P (y >>= g))
      → Holds P ((if b then x else y) >>= g)
  if-bind true x y g h k = h refl
  if-bind false x y g h k = k refl

  pub data_blocked-Holds :
      (w : Writing) (next : Writing → Result Wrote)
      → Ready watched w
      → P (some nobuf, w)
      → ((w' : Writing)
          → Ready watched w'
          → ((strm : Strm) → Here watched w.conn strm → Here watched w'.conn strm)
          → w'.conn.tx.strmq ≡ w.conn.tx.strmq
          → Holds P (next w'))
      → Holds P (write_data_blocked w >>= on_zero next)
  unfolding write_data_blocked
  data_blocked-Holds w next r stuck k =
      let tx = w.conn.tx in
      let own = r.0.1 in
      let fr = Frame.data_blocked (record { max_data = tx.offset }) in
      if-bind (ltb tx.offset tx.max_offset || tx.offset == tx.last_blocked_offset) _ _ _
        (λ e. k w r (λ strm s. s) refl)
        (λ e.
          rw (at_limit tx.offset tx.max_offset (tx.offset == tx.last_blocked_offset) own.0 e)
            (elim (encode_frame-wire w.qre fr r.1 (omega (arith, own.0, own.1))) [
              | inl f ↦ rw f.1 (
                  k (data_blocked_at (with_qre (append w.qre (wire fr)) w)) (r.0, f.2) (λ strm s. s)
                    refl)
              | inr f ↦ rw f.1 (Holds-ok P (some nobuf, w) stuck)
            ]))

  pub stream_data_blocked-Holds :
      (next : Strm → Writing → Result Wrote) (strm : Strm) (w : Writing)
      → Ready watched w
      → P (some nobuf, w)
      → Here watched w.conn strm
      → Holds P (next strm w)
      → ((w' : Writing)
          → Ready watched w'
          → Here watched w'.conn (blocked_at strm)
          → w'.conn.tx.strmq ≡ w.conn.tx.strmq
          → Holds P (next (blocked_at strm) w'))
      → Holds P (write_stream_data_blocked next strm w)
  unfolding write_stream_data_blocked
  stream_data_blocked-Holds next strm w r stuck s h k =
      let tx = strm.tx in
      Holds-if P (ltb tx.offset tx.max_offset || tx.offset == tx.last_blocked_offset) _ _ (λ e. h)
        (λ e.
          Holds-check P _ _
            (at_limit tx.offset tx.max_offset (tx.offset == tx.last_blocked_offset) s.1.0 e)
            (stream_fr-Holds _ (blocked_at strm) w next r stuck
              (omega (arith, s.0.0.1), omega (arith, s.1.0, s.1.1)) s k))

-- A record without room is as a result is to be.
module _ (watched : Option ℕ) (P : Wrote → Type 0)
    (full : (w : Writing) → Ready watched w → P (some nobuf, w)) where
  write_max_streams_bidi-Holds :
      (next : Writing → Result Wrote) (w : Writing)
      → Ready watched w
      → ((w' : Writing) → Ready watched w' → Holds P (next w'))
      → Holds P (write_max_streams_bidi next w)
  unfolding write_max_streams_bidi
  write_max_streams_bidi-Holds next w r k =
      let limit = r.0.0.0.1.0.1 in
      Holds-if P (ltb w.conn.rx.bidi.max_streams w.conn.rx.bidi.unsent_max_streams) _ _
        (λ e. Holds-fatal_call P _ w.conn _ (
          write_fr-Holds watched P _ _ _ r (full _ r) (inl refl, omega (arith, limit))
            (λ qre o. k _ (told_bidi-IsSender watched w r.0, o))))
        (λ e. k w r)

  -- The frames that let the peer open more streams.
  pub write_max_streams-Holds :
      (w : Writing)
      → Ready watched w
      → ((w' : Writing) → Ready watched w' → P (none, w'))
      → Holds P (write_max_streams w)
  unfolding write_max_streams write_max_streams_uni
  write_max_streams-Holds w r k = write_max_streams_bidi-Holds write_max_streams_uni w r (λ w r.
      let limit = r.0.0.0.1.1.1 in
      Holds-if P (ltb w.conn.rx.uni.max_streams w.conn.rx.uni.unsent_max_streams) _ _
        (λ e. Holds-fatal_call P _ w.conn _ (
          write_fr-Holds watched P _ _ _ r (full _ r) (inr refl, omega (arith, limit))
            (λ qre o. Holds-ok P _ (k _ (told_uni-IsSender watched w r.0, o)))))
        (λ e. Holds-ok P _ (k w r)))
