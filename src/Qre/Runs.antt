-- ===== src/Qre/Runs.antt =====
-- A record in a buffer of 64 bytes.
use dwnx.Prelude.{
  ℕ, ◌≡◌, ◌≤◌, ◌<◌, ◌⊎◌, refl, arith, [], ◌∷◌, true, false, some, ok, err, nobuf, length,
  are_bytes-IsByte,
}
use dwnx.Conv.{get_uvarint}
use dwnx.Frame
use dwnx.Frame.{Frame}
use dwnx.Frame.Wire.{wire}
use dwnx.Qre.{Qre, append, left, encode_frame, final, stream_max_datalen}
use dwnx.Qre.Bounds.{IsOpen, payload, encode_frame-wire, final-payload}
use dwnx.Qre.MaxDatalen.{stream_max_datalen-fits, stream_max_datalen-greatest}

-- A MAX_DATA frame is in it.
abbrev record_begun : Qre
record_begun = record { started = true; written = 0 ∷ 0 ∷ 0x10 ∷ 0x40 ∷ 0x64 ∷ []; size = 64 }

record_begun-IsOpen : IsOpen record_begun
record_begun-IsOpen = record {
  started = refl;
  has_space = omega arith;
  in_buffer = omega arith;
  size_le = omega arith;
}

-- The last three bytes of a stream.
abbrev last_bytes : Frame.Stream
last_bytes = record {
  flags = 0;
  fin = true;
  stream_id = 4;
  offset = 1000;
  len = 3;
  vecs = (1 ∷ 2 ∷ 3 ∷ []) ∷ [];
}

length-last_bytes : length (wire (Frame.stream last_bytes)) ≡ 8
unfolding wire dwnx.Conv.Wire.varint_bytes
length-last_bytes = refl

three_fit : stream_max_datalen record_begun 4 1000 3 ≡ ok (some 3)
unfolding stream_max_datalen dwnx.Conv.put_uvarintlen
three_fit = refl

encode_frame-wire_example :
    ((length (wire (Frame.stream last_bytes)) ≤ left record_begun)
      × (encode_frame record_begun (Frame.stream last_bytes)
          ≡ ok (append record_begun (wire (Frame.stream last_bytes))))
      × IsOpen (append record_begun (wire (Frame.stream last_bytes))))
    ⊎ ((left record_begun < length (wire (Frame.stream last_bytes)))
        × (encode_frame record_begun (Frame.stream last_bytes) ≡ err nobuf))
encode_frame-wire_example =
    encode_frame-wire record_begun (Frame.stream last_bytes) record_begun-IsOpen
      (omega arith, omega arith, omega arith, omega arith, are_bytes-IsByte (1 ∷ 2 ∷ 3 ∷ []) refl)

final-payload_example :
    (qre' : Qre) × (final record_begun ≡ ok (5, qre'))
    × (get_uvarint qre'.written ≡ ok (3, payload record_begun))
    × (length qre'.written ≡ 5)
    × (qre'.started ≡ false)
final-payload_example = final-payload record_begun record_begun-IsOpen (omega arith)

stream_max_datalen-fits_example :
    (3 ≤ 3)
    × (encode_frame record_begun (Frame.stream last_bytes)
        ≡ ok (append record_begun (wire (Frame.stream last_bytes))))
stream_max_datalen-fits_example =
    stream_max_datalen-fits record_begun last_bytes 3 record_begun-IsOpen
      (omega arith, omega arith, omega arith, omega arith, are_bytes-IsByte (1 ∷ 2 ∷ 3 ∷ []) refl)
      three_fit

stream_max_datalen-greatest_example :
    (d : ℕ) × (stream_max_datalen record_begun 4 1000 20 ≡ ok (some d)) × (3 ≤ d)
stream_max_datalen-greatest_example =
    stream_max_datalen-greatest record_begun last_bytes 20 record_begun-IsOpen
      (omega arith, omega arith, omega arith, omega arith, are_bytes-IsByte (1 ∷ 2 ∷ 3 ∷ []) refl)
      (omega arith) (omega (arith, length-last_bytes))
