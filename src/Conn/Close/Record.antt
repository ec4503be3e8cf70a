-- ===== src/Conn/Close/Record.antt =====
-- What dwnx_conn_write_connection_close writes.
use dwnx.Prelude.{
  sym, ◌∙◌, ℕ, ◌≡◌, ◌<◌, ◌≤◌, ◌+◌, ◌-◌, ◌⊎◌, inl, inr, arith, min, false, ◌==◌, le→leb, lt→leb,
  List, length, ◌++◌, drop, length-append, length-drop, some, ok, err, nobuf, drop-append,
}
use dwnx.Conv.{get_uvarint}
use dwnx.Frame
use dwnx.Frame.{Frame}
use dwnx.Frame.Wire.{wire, IsEncodable}
use dwnx.TransportParams.{default_max_record_size}
use dwnx.Qre.{Qre, append, recordlen_size}
use dwnx.Qre.Bounds.{IsOpen, start-IsOpen, encode_frame-wire, final-payload, payload}
use dwnx.RecordReader.{State}
use dwnx.Conn.Read.{Reading, with_state}
use dwnx.Conn.Close.{Ccerr, close_frame, is_ended, qre_init, write_frame, write_connection_close}

-- The bytes for frames in a record at `dest`.
abbrev pub room : List ℕ → ℕ
room dest = min (length dest - recordlen_size) default_max_record_size

-- `written` is a record of `frames`.
abbrev pub IsRecord : List ℕ → List ℕ → Type 0
IsRecord frames written =
    (length written ≡ recordlen_size + length frames)
    × (get_uvarint written ≡ ok (length frames, frames))

positive : (n : ℕ) → 0 < n → (n == 0) ≡ false
positive n h = ground arith

drop-exact : (n : ℕ) (xs ys : List ℕ) → length xs ≡ n → drop n (xs ++ ys) ≡ ys
drop-exact n xs ys e = rw (sym e, drop-append xs ys)

written_size :
    (qre : Qre) → IsOpen qre → length (payload qre) ≡ 0 → length qre.written ≡ recordlen_size
written_size qre o e =
    let h = o.has_space in omega (arith, h, e, length-drop recordlen_size qre.written)

write_frame-IsRecord :
    (dest : List ℕ) (fr : Frame)
    → recordlen_size ≤ length dest
    → IsEncodable fr
    → 0 < length (wire fr)
    → ((length (wire fr) ≤ room dest)
        × (qre : Qre) × (write_frame dest fr ≡ ok (recordlen_size + length (wire fr), qre))
        × IsRecord (wire fr) qre.written)
      ⊎ ((room dest < length (wire fr)) × (write_frame dest fr ≡ err nobuf))
write_frame-IsRecord dest fr h encodable some_bytes =
    let s = start-IsOpen qre_init dest h in
    let two = written_size s.0 s.2 s.3 in
    elim (encode_frame-wire s.0 fr s.2 encodable) [
      | inl e ↦
          let frames = drop-exact recordlen_size s.0.written (wire fr) two in
          let whole : length (s.0.written ++ wire fr) ≡ recordlen_size + length (wire fr) =
            omega (arith, two, length-append s.0.written (wire fr)) in
          let f = final-payload (append s.0 (wire fr)) e.2 (rw frames some_bytes) in
          inl (
            omega (arith, e.0, s.4),
            f.0,
            rw (s.1, e.1, f.1, whole, positive (recordlen_size + length (wire fr)) (omega arith)),
            (f.3 ∙ whole, (rw frames at f.2)),
          )
      | inr e ↦ inr (omega (arith, e.0, s.4), rw (s.1, e.1))
    ]

-- A connection that is not draining or closing, at a time that is not before the last one, closed with an
-- error that has a frame with encodable fields, in a buffer of more than two bytes: if the frame fits, the
-- call returns the length of a record of the CONNECTION_CLOSE frame, which is what it writes, and the
-- connection is closing; else it fails with DWNX_ERR_NOBUF.
pub write_connection_close-IsRecord :
    (dest : List ℕ) (ccerr : Ccerr) (ts : ℕ) (r : Reading) (fr : Frame.ConnectionClose)
    → r.last_ts ≤ ts
    → is_ended r.rcrd.state ≡ false
    → close_frame ccerr ccerr.type ≡ some fr
    → IsEncodable (Frame.connection_close fr)
    → recordlen_size < length dest
    → ((length (wire (Frame.connection_close fr)) ≤ room dest)
        × (written : List ℕ) × (write_connection_close dest ccerr ts r
            ≡ ok (
              recordlen_size + length (wire (Frame.connection_close fr)),
              (written, with_state State.closing (record r { last_ts = ts })),
            ))
        × IsRecord (wire (Frame.connection_close fr)) written)
      ⊎ ((room dest < length (wire (Frame.connection_close fr)))
          × (write_connection_close dest ccerr ts r ≡ err nobuf))
unfolding write_connection_close wire
write_connection_close-IsRecord dest ccerr ts r fr clock state e encodable h =
    elim (write_frame-IsRecord dest (Frame.connection_close fr) (omega (arith, h)) encodable
      (omega arith)) [
        | inl f ↦ inl (
          f.0,
          f.1.written,
          rw (le→leb (r.last_ts) ts clock, state, lt→leb recordlen_size (length dest) h, e, f.2),
          f.3,
        )
        | inr f ↦ inr (
          f.0,
          rw (le→leb (r.last_ts) ts clock, state, lt→leb recordlen_size (length dest) h, e, f.1),
        )
      ]
