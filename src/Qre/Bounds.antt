-- ===== src/Qre/Bounds.antt =====
-- A record that is written holds its length in two bytes and then the frames.
use dwnx.Prelude.{
  ◌∙◌, ◌/◌, ◌%◌, [], ◌∷◌, ◌==◌, ◌⊎◌, ℕ, ◌+◌, ◌-◌, ◌≤◌, ◌<◌, ◌≡◌, refl, arith, ap, min, List, ◌++◌,
  length, take, drop, true, false,
}
use dwnx.Prelude.{
  length-append, length-take, length-drop, leb, le→leb, ok, err, nobuf, inl, inr, refl,
}
use dwnx.Conv.{get_uvarint}
use dwnx.Conv.RoundTrip.{put_uvarintw-two, get_uvarint-put_uvarintw}
use dwnx.Frame.{Frame}
use dwnx.Frame.Wire.{wire, IsEncodable}
use dwnx.Frame.Encode.Sound.{encode-wire}
use dwnx.TransportParams.{default_max_record_size}
use dwnx.Qre.{Qre, opened, append, start, encode_frame, final, left, recordlen_size}

-- A record between `start` and `final`.
pub record IsOpen (qre : Qre) : Type 0 where
  pub started : qre.started ≡ true
  pub has_space : recordlen_size ≤ length qre.written
  pub in_buffer : length qre.written ≤ qre.size
  pub size_le : qre.size ≤ recordlen_size + default_max_record_size

-- The frames in a record.
abbrev pub payload : Qre → List ℕ
payload qre = drop recordlen_size qre.written

-- A record that is started in a buffer with room for its length is open and has no frames; what is
-- left for them is the rest of the buffer, up to the greatest record size.
pub start-IsOpen :
    (qre : Qre) (memory : List ℕ)
    → recordlen_size ≤ length memory
    → (qre' : Qre) × (start qre memory ≡ ok qre')
      × IsOpen qre'
      × (length (payload qre') ≡ 0)
      × (left qre' ≡ min (length memory - recordlen_size) default_max_record_size)
unfolding start
start-IsOpen qre memory h =
    let e = length-take 2 memory in
    (
      opened memory,
      rw (le→leb _ _ h),
      record {
        started = refl;
        has_space = omega (arith, e);
        in_buffer = omega (arith, e);
        size_le = omega arith;
      },
      omega (arith, e, length-drop 2 (take 2 memory)),
      omega (arith, e),
    )

fits_or_not : (a b : ℕ) → (a ≤ b) ⊎ (b < a)
fits_or_not a b = omega arith

-- An encodable frame goes whole to the end of an open record, which stays open, if it fits into what
-- is left, and otherwise the call is refused with DWNX_ERR_NOBUF.
pub encode_frame-wire :
    (qre : Qre) (fr : Frame)
    → IsOpen qre
    → IsEncodable fr
    → ((length (wire fr) ≤ left qre)
        × (encode_frame qre fr ≡ ok (append qre (wire fr)))
        × IsOpen (append qre (wire fr)))
      ⊎ ((left qre < length (wire fr)) × (encode_frame qre fr ≡ err nobuf))
unfolding encode_frame
encode_frame-wire qre fr o h = elim (fits_or_not (length (wire fr)) (left qre)) [
  | inl fits ↦ inl (
    fits,
    rw (encode-wire (left qre) fr h, le→leb _ _ fits),
    record {
      started = o.started;
      has_space = omega (arith, length-append qre.written (wire fr));
      in_buffer = omega (arith, length-append qre.written (wire fr));
      size_le = o.size_le;
    },
  )
  | inr over ↦ inr (over, rw (encode-wire (left qre) fr h, too_long _ _ over))
]
  where
    too_long : (a b : ℕ) → b < a → leb a b ≡ false
    too_long a b h = ground arith

-- Ending an open record with frames in it gives the length of the whole record; the record is then the
-- length of its frames, which a varint reader reads, and the frames.
pub final-payload :
    (qre : Qre)
    → IsOpen qre
    → 0 < length (payload qre)
    → (qre' : Qre) × (final qre ≡ ok (length qre.written, qre'))
      × (get_uvarint qre'.written ≡ ok (length (payload qre), payload qre))
      × (length qre'.written ≡ length qre.written)
      × (qre'.started ≡ false)
unfolding final
final-payload qre o h =
    let n = length qre.written - recordlen_size in
    let head = (n / 256 + 64) ∷ n % 256 ∷ [] in
    let e = put_uvarintw-two n (omega arith) in
    let l = length-drop recordlen_size qre.written in
    (
      record { started = false; written = head ++ payload qre; size = qre.size },
      rw (differ (length qre.written) recordlen_size (omega (arith, l)), e),
      (rw e at (get_uvarint-put_uvarintw n 2 (payload qre) (inr (inl (refl, omega arith)))))
          ∙ ap (λ m. ok (m, payload qre)) (omega (arith, l)),
      omega (arith, l),
      refl,
    )
  where
    differ : (a b : ℕ) → b < a → (a == b) ≡ false
    differ a b h = ground arith
