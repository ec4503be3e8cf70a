-- ===== src/Qre/MaxDatalen.antt =====
-- dwnx_qre_stream_max_datalen is the length of the longest STREAM frame that fits into the record.
use dwnx.Prelude.{
  min, none, ap, inl, inr, ◌⊎◌, Option-cases, ◌&&◌, ℕ, ◌+◌, ◌-◌, ◌≤◌, ◌<◌, ◌≡◌, arith, sym, ◌∙◌,
  not, Option, some, length, take, length-take, le→leb, ltb, if◌then◌else◌, ◌==◌, ok,
}
use dwnx.Conv.Wire.{IsVarint, varint_bytes}
use dwnx.Conv.RoundTrip.{put_uvarintlen-varint_bytes}
use dwnx.Frame
use dwnx.Frame.{Frame}
use dwnx.Frame.Wire.{concat, wire, varint_if, IsEncodable}
use dwnx.Frame.Encode.Sound.{encode-wire, put_if, length-row}
use dwnx.TransportParams.{default_max_record_size}
use dwnx.Qre.Bounds.{IsOpen}
use dwnx.Qre.{Qre, append, encode_frame, left, max_datalen, stream_max_datalen}

-- The bytes of a STREAM frame in front of the length of its data.
abbrev header : ℕ → ℕ → ℕ
header stream_id offset =
    1 + length (varint_bytes stream_id) + length (varint_if (not (offset == 0)) offset)

length-wire :
    (fr : Frame.Stream)
    → IsEncodable (Frame.stream fr)
    → length (wire (Frame.stream fr))
      ≡ header fr.stream_id fr.offset + length (varint_bytes fr.len) + fr.len
unfolding wire
length-wire fr (hi, ho, hl, fits, bytes) = omega (
  arith,
  length-row (varint_bytes fr.stream_id) (varint_if (not (fr.offset == 0)) fr.offset)
      (varint_bytes fr.len) (take fr.len (concat fr.vecs)),
  length-take fr.len (concat fr.vecs),
)

stream_max_datalen-header :
    (qre : Qre) (stream_id offset len : ℕ)
    → IsVarint stream_id
    → IsVarint offset
    → left qre ≤ default_max_record_size
    → stream_max_datalen qre stream_id offset len
      ≡ ok (max_datalen (left qre) (header stream_id offset) len)
unfolding stream_max_datalen
stream_max_datalen-header qre stream_id offset len hi ho h = rw (
  put_uvarintlen-varint_bytes stream_id hi,
  (put_if (not (offset == 0)) offset ho).counted,
  le→leb _ _ h,
)

max_datalen-fits :
    (left n len m : ℕ)
    → left ≤ default_max_record_size
    → max_datalen left n len ≡ some m
    → (m ≤ len) × (n + length (varint_bytes m) + m ≤ left)
unfolding max_datalen varint_bytes
max_datalen-fits left n len m h e = (ground arith, ground arith)

abbrev room : ℕ → ℕ → ℕ → ℕ
room left n len =
    if ltb 65 (left - n) && ltb 63 len
    then min (min len 16383) (left - n - 2)
    else min (min len 63) (left - n - 1)

max_datalen-room : (left n len : ℕ) → n < left → max_datalen left n len ≡ some (room left n len)
unfolding max_datalen
max_datalen-room left n len h = ground arith

room-greatest :
    (left n len m : ℕ)
    → left ≤ default_max_record_size
    → m ≤ len
    → n + length (varint_bytes m) + m ≤ left
    → (n < left) × (m ≤ room left n len)
unfolding varint_bytes
room-greatest left n len m h hm fits = (ground arith, ground arith)

some_eq : {a b : Option ℕ} → ok a ≡ ok b → a ≡ b
some_eq e = cc

-- A STREAM frame with as much data as dwnx_qre_stream_max_datalen says for an open record takes no more
-- than there is, and its encoding into the record succeeds.
pub stream_max_datalen-fits :
    (qre : Qre) (fr : Frame.Stream) (len : ℕ)
    → IsOpen qre
    → IsEncodable (Frame.stream fr)
    → stream_max_datalen qre fr.stream_id fr.offset len ≡ ok (some fr.len)
    → (fr.len ≤ len)
      × (encode_frame qre (Frame.stream fr) ≡ ok (append qre (wire (Frame.stream fr))))
unfolding encode_frame
stream_max_datalen-fits qre fr len o h e =
    let small =
      max_datalen-fits (left qre) (header fr.stream_id fr.offset) len fr.len (omega arith) (
        some_eq (
          sym (stream_max_datalen-header qre fr.stream_id fr.offset len h.0 h.1 (omega arith))
          ∙ e)) in
    (
      small.0,
      rw (
        encode-wire (left qre) (Frame.stream fr) h,
        le→leb (length (wire (Frame.stream fr))) (left qre)
            (omega (arith, length-wire fr h, small.1)),
      ),
    )

-- Where a STREAM frame of at most `len` bytes of data fits into an open record,
-- dwnx_qre_stream_max_datalen returns a length, and not a smaller one.
pub stream_max_datalen-greatest :
    (qre : Qre) (fr : Frame.Stream) (len : ℕ)
    → IsOpen qre
    → IsEncodable (Frame.stream fr)
    → fr.len ≤ len
    → length (wire (Frame.stream fr)) ≤ left qre
    → (d : ℕ) × (stream_max_datalen qre fr.stream_id fr.offset len ≡ ok (some d)) × (fr.len ≤ d)
stream_max_datalen-greatest qre fr len o h hl fits =
    let n = header fr.stream_id fr.offset in
    let g =
      room-greatest (left qre) n len fr.len (omega arith) hl
        (omega (arith, length-wire fr h, fits)) in
    (
      room (left qre) n len,
      rw (
        stream_max_datalen-header qre fr.stream_id fr.offset len h.0 h.1 (omega arith),
        max_datalen-room (left qre) n len g.0,
      ),
      g.1,
    )

-- dwnx_qre_stream_max_datalen on an open record says that not even the header fits, or a length that is
-- no more than `len`.
pub stream_max_datalen-cases :
    (qre : Qre) (stream_id offset len : ℕ)
    → IsOpen qre
    → IsVarint stream_id
    → IsVarint offset
    → (stream_max_datalen qre stream_id offset len ≡ ok none)
      ⊎ ((d : ℕ) × (stream_max_datalen qre stream_id offset len ≡ ok (some d)) × (d ≤ len))
stream_max_datalen-cases qre stream_id offset len o hi ho =
    let n = header stream_id offset in
    let e = stream_max_datalen-header qre stream_id offset len hi ho (omega arith) in
    elim (Option-cases (max_datalen (left qre) n len)) [
      | inl none_left ↦ inl (e ∙ ap ok none_left)
      | inr (d, some_left) ↦
          inr (
            d,
            e ∙ ap ok some_left,
            (max_datalen-fits (left qre) n len d (omega arith) some_left).0,
          )
    ]
