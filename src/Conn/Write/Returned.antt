-- ===== src/Conn/Write/Returned.antt =====
-- What the calls of the application that write come to.
use dwnx.Prelude.{
  ℕ, ◌+◌, ◌-◌, ◌≤◌, ◌<◌, ◌≡◌, ◌⊎◌, refl, ap, ◌∙◌, arith, List, Bool, true, false, not, ◌==◌, ==_iff,
  length, length-drop, Option, none, some, inl, inr, All, All-map, IsByte,
}
use dwnx.Prelude.{
  Error, Result, ok, ◌>>=◌, Holds, Holds-ok, Holds-if, Holds-bind, nobuf, stream_data_blocked,
  write_more,
}
use dwnx.Vec.{max_varint}
use dwnx.Frame.Wire.{concat}
use dwnx.Conv.{get_uvarint}
use dwnx.Qre.{Qre, left, final, recordlen_size}
use dwnx.Qre.Bounds.{IsOpen, payload, final-payload}
use dwnx.Strm.{Strm}
use dwnx.Conn.{Conn, find, absent}
use dwnx.Conn.Strms.{find-All}
use dwnx.Conn.Invariant.{IsStrm}
use dwnx.Conn.Write.{Writing, Wrote, write_max_streams}
use dwnx.Conn.Write.Message.{Vmsg, or_full, or_more, through_pointer, write_message, finish_record}
use dwnx.Conn.Write.Invariant.{IsSender, IsSpent, Ready}
use dwnx.Conn.Write.Frames.{write_max_streams-Holds}
use dwnx.Conn.Write.Sent.{write_stream_frame-Holds, write_datagram_frame-Holds}

-- `written` is a record of `n` bytes, its length and its payload.
abbrev pub IsRecord : ℕ → List ℕ → Type 0
IsRecord n written =
    (frames : List ℕ) × (n ≡ recordlen_size + length frames)
    × (length written ≡ n)
    × (get_uvarint written ≡ ok (length frames, frames))

-- Between two calls: a record is open, or none has been started.
abbrev pub Lasting : Writing → Type 0
Lasting w = IsSender none w.conn × ((w.qre.started ≡ false) ⊎ IsOpen w.qre)

-- A return of 0 ends the record, which is empty or whole; DWNX_ERR_WRITE_MORE leaves it open, with room.
abbrev pub Returned : Option Error → Writing → Type 0
Returned none w = (w.qre.started ≡ false) × ((w.nwrite ≡ 0) ⊎ IsRecord w.nwrite w.qre.written)
Returned (some write_more) w = IsOpen w.qre × (0 < left w.qre)
Returned (some code) w = Unit {0}

abbrev pub IsReturn : Wrote → Type 0
IsReturn out = Lasting out.1 × Returned out.0 out.1

pub full_record : (w : Writing) → Ready none w → IsReturn (some nobuf, w)
full_record w r = ((r.0, inr r.1), tt)

final-empty :
    (qre : Qre)
    → length qre.written ≡ recordlen_size
    → final qre ≡ ok (0, record qre { started = false })
unfolding final
final-empty qre e = rw ((==_iff (length qre.written) recordlen_size).1 e) refl

empty_or_not : (n : ℕ) → recordlen_size ≤ n → (n ≡ recordlen_size) ⊎ (0 < n - recordlen_size)
empty_or_not n h = omega arith

not_zero : (n : ℕ) → 0 < n → (n == 0) ≡ false
not_zero n h = ground arith

finish_record-Holds : (ts : ℕ) (w : Writing) → Ready none w → Holds IsReturn (finish_record ts w)
unfolding finish_record
finish_record-Holds ts w r =
    let o = r.1 in
    elim (empty_or_not (length w.qre.written) o.has_space) [
      | inl e ↦ rw (final-empty w.qre e) (Holds-ok IsReturn _ ((r.0, inl refl), (refl, inl refl)))
      | inr p ↦
          let d = length-drop recordlen_size w.qre.written in
          let (qre, e, g, l, s) = final-payload w.qre o (omega (arith, p, d)) in
          rw (e, not_zero (length w.qre.written) (omega (arith, p)))
            (Holds-ok IsReturn _
              ((r.0, inl s), (s, inr (payload w.qre, omega (arith, p, d), l, g))))
    ]

-- What is between DWNX_ERR_NOBUF and success goes on.
abbrev pub Tried : Option ℕ → Wrote → Type 0
Tried watched out = ((out.0 ≡ none) ⊎ (out.0 ≡ some nobuf)) × Ready watched out.1

pub or_full-Holds :
    (P : Wrote → Type 0) (watched : Option ℕ) (next : Bool → Writing → Result Wrote)
    → ((room : Bool) (w : Writing) → Ready watched w → Holds P (next room w))
    → (code : Option Error) (w : Writing) → (code ≡ none) ⊎ (code ≡ some nobuf)
    → Ready watched w
    → Holds P (or_full next (code, w))
or_full-Holds P watched next k code w (inl e) r = rw e (k true w r)
or_full-Holds P watched next k code w (inr e) r = rw e (k false w r)

pub weaken : (watched : Option ℕ) (conn : Conn) → IsSender watched conn → IsSender none conn
weaken watched conn h = (
  h.0,
  (h.1.0, h.1.1, h.1.2, h.1.3, tt),
  All-map (IsSpent watched) (IsSpent none) (λ strm t. (t.0, t.1, t.2, t.3, tt)) conn.strms h.2,
)

pub write_vmsg_end :
    (ts : ℕ) (w : Writing)
    → Ready none w
    → Holds IsReturn (write_max_streams w >>= or_full (λ room w. finish_record ts w))
write_vmsg_end ts w r =
    Holds-bind (Tried none) IsReturn _ _
      (write_max_streams-Holds none (Tried none) (λ w r. (inr refl, r)) w r (λ w r. (inl refl, r)))
      (λ out t.
        or_full-Holds IsReturn none _ (λ room w r. finish_record-Holds ts w r) out.0 out.1 t.0 t.1)

-- The data of a message, and the stream that it has a pointer to.
abbrev pub IsMessage : Option Vmsg → Type 0
IsMessage none = Unit {0}
IsMessage (some (Vmsg.stream id fin datav)) =
    All IsByte (concat datav) × (length (concat datav) ≤ max_varint)
IsMessage (some (Vmsg.datagram datav)) =
    All IsByte (concat datav) × (length (concat datav) ≤ max_varint)

abbrev pub pointer : Option Vmsg → Option ℕ
pointer none = none
pointer (some (Vmsg.stream id fin datav)) = some id
pointer (some (Vmsg.datagram datav)) = none

-- The results of the frame of a message.
abbrev Framed : Wrote → Type 0
Framed out =
    ((out.0 ≡ none) ⊎ ((out.0 ≡ some nobuf) ⊎ (out.0 ≡ some stream_data_blocked)))
    × Ready none out.1

or_more-Holds :
    (next : Writing → Result Wrote)
    → ((w : Writing) → Ready none w → Holds IsReturn (next w))
    → (code : Option Error) (w : Writing)
    → (code ≡ none) ⊎ ((code ≡ some nobuf) ⊎ (code ≡ some stream_data_blocked))
    → Ready none w
    → Holds IsReturn (or_more next (code, w))
or_more-Holds next k code w (inl e) r = rw e (
    Holds-if IsReturn (not (left w.qre == 0)) _ _
      (λ t. Holds-ok IsReturn _ ((r.0, inr r.1), (r.1, some_left (left w.qre) t))) (λ f. k w r))
  where
    some_left : (n : ℕ) → not (n == 0) ≡ true → 0 < n
    some_left n t = ground arith
or_more-Holds next k code w (inr (inl e)) r = rw e (k w r)
or_more-Holds next k code w (inr (inr e)) r = rw e (Holds-ok IsReturn _ ((r.0, inr r.1), tt))

there : (o : Option Strm) → absent o ≡ false → (strm : Strm) × (o ≡ some strm)
there none e = cc e
there (some strm) e = (strm, refl)

pub write_message-Holds :
    (next : Writing → Result Wrote) (vmsg : Option Vmsg) (room : Bool) (w : Writing)
    → ((w : Writing) → Ready none w → Holds IsReturn (next w))
    → IsMessage vmsg
    → Ready (pointer vmsg) w
    → Holds IsReturn (write_message next vmsg room w)
unfolding write_message through_pointer
write_message-Holds next none room w k m r = k w r
write_message-Holds next (some vmsg) false w k m r =
    k w (weaken (pointer (some vmsg)) w.conn r.0, r.1)
write_message-Holds next (some (Vmsg.stream id fin datav)) true w k m r =
    let h = weaken (some id) w.conn r.0 in
    let (strm, f) = there (find id w.conn.strms) r.0.1.4 in
    let s = find-All (IsStrm w.conn) id w.conn.strms strm h.0.2 f in
    let t = find-All (IsSpent none) id w.conn.strms strm h.2 f in
    let present = ap (λ id. absent (find id w.conn.strms)) s.1 ∙ ap absent f in
    rw f (
      Holds-bind Framed IsReturn _ _
        (write_stream_frame-Holds Framed (λ w r. (inr (inl refl), r)) (λ w r. (inl refl, r))
          (λ w r. (inr (inr refl), r)) strm fin datav w (h, r.1) ((s.0, present), t.0) m.0 m.1)
        (λ out t. or_more-Holds next k out.0 out.1 t.0 t.1))
write_message-Holds next (some (Vmsg.datagram datav)) true w k m r =
    Holds-bind Framed IsReturn _ _
      (write_datagram_frame-Holds Framed (λ w r. (inr (inl refl), r)) datav w (λ w r. (inl refl, r))
        r m.0 m.1)
      (λ out t. or_more-Holds next k out.0 out.1 t.0 t.1)
