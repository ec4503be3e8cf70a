-- ===== src/Frame/Decode/Data.antt =====
-- The decoders of the frames that carry bytes are the grammar's parsers.
use dwnx.Prelude.{ℕ, suc, ◌+◌, ◌-◌, ◌≤◌, ◌<◌, ◌≡◌, inl, inr, refl, arith, List, [], ◌∷◌, none, some}
use dwnx.Prelude.{Bool, true, false, if◌then◌else◌, le→leb, lt→leb}
use dwnx.Prelude.{ok, err, frame_encoding, length, drop, All, IsByte, length-drop}
use native.Mathlib.Decide.{dec_le}
use dwnx.Conv.{advance, get_uvarint, get_varint}
use dwnx.Conv.Wire.{parse_varint}
use dwnx.Conv.Field.{field_cases, advance-drop}
use dwnx.Frame.FrameType
use dwnx.Frame.Decode.{first_byte, data_at, scan_offset, scan_length}
use dwnx.Frame.Decode.{decode_stream}
use dwnx.Frame.Decode.Fields.{report, advance_one, Needs-zero, Needs-varint, scan-ok, scan-err}
use dwnx.Frame.Decode.Fields.{scan_step, need_step, need_ok, need_err, finish_step}
use dwnx.Frame.Grammar.{parse_if, parse_length, parse_stream}

-- What a decoder knows when the first `len` of `payloadlen` bytes are used, and `q` is left.
record Read (payloadlen len : ℕ) (q : List ℕ) : Type 0 where
  counted : len + length q ≡ payloadlen
  bytes : All IsByte q

-- The scan of an offset, where there is one.
data OffsetScan (off : Bool) (payloadlen len : ℕ) (p : List ℕ) : Type 0 where
  taken :
      (v len' : ℕ) (q : List ℕ)
      → scan_offset off payloadlen len p ≡ ok (len', q)
      → parse_if off p ≡ some (v, q)
      → (if off then get_uvarint p else ok (0, p)) ≡ ok (v, q)
      → Read payloadlen len' q
      → OffsetScan off payloadlen len p
  refused :
      scan_offset off payloadlen len p ≡ err frame_encoding
      → parse_if off p ≡ none
      → OffsetScan off payloadlen len p

offset_cases :
    (off : Bool) (payloadlen len : ℕ) (p : List ℕ)
    → Read payloadlen len p
    → OffsetScan off payloadlen len p
unfolding scan_offset parse_if
offset_cases false payloadlen len p r = taken 0 len p refl refl refl r
offset_cases true payloadlen len [] r =
    refused (rw (need_err (len + 1) payloadlen (omega (arith, r.counted))))
      (unfold parse_varint in refl)
offset_cases true payloadlen len (b ∷ p) r = elim (field_cases (b ∷ p) r.bytes (omega arith)) [
  | inl (v, n, q, w) ↦
      taken v (len + 1 + n - 1) q
        (rw (
          need_ok (len + 1) payloadlen (omega (arith, r.counted)),
          scan-ok payloadlen (len + 1) w (omega (arith, r.counted, w.size)),
          w.skipped,
        ))
        w.parsed w.got (record { counted = omega (arith, r.counted, w.size); bytes = w.bytes })
  | inr (n, c) ↦
      refused
        (rw (
          need_ok (len + 1) payloadlen (omega (arith, r.counted)),
          scan-err payloadlen (len + 1) (b ∷ p) c.len (omega (arith, r.counted, c.short)),
        ))
        c.parsed
]

-- The scan of a length, where there is one, and of the `size` bytes of data at `q`.
data LengthScan (there : Bool) (payloadlen len : ℕ) (p : List ℕ) : Type 0 where
  taken :
      (n d len' size : ℕ) (q : List ℕ)
      → scan_length there payloadlen len p ≡ ok (n, d, len')
      → parse_length there p ≡ some (size, q)
      → (if there then advance n p else ok p) ≡ ok q
      → (if there then d else length q) ≡ size
      → size ≤ length q
      → len' + length q ≡ payloadlen + size
      → LengthScan there payloadlen len p
  refused :
      scan_length there payloadlen len p ≡ err frame_encoding
      → parse_length there p ≡ none
      → LengthScan there payloadlen len p
  overrun :
      (size : ℕ) (q : List ℕ)
      → scan_length there payloadlen len p ≡ err frame_encoding
      → parse_length there p ≡ some (size, q)
      → length q < size
      → LengthScan there payloadlen len p

length_cases :
    (there : Bool) (payloadlen len : ℕ) (p : List ℕ)
    → Read payloadlen len p
    → LengthScan there payloadlen len p
unfolding scan_length parse_length
length_cases false payloadlen len p r =
    taken 0 0 payloadlen (length p) p refl refl refl refl (omega arith) (omega arith)
length_cases true payloadlen len [] r =
    refused (rw (need_err (len + 1) payloadlen (omega (arith, r.counted))))
      (unfold parse_varint in refl)
length_cases true payloadlen len (b ∷ p) r = elim (field_cases (b ∷ p) r.bytes (omega arith)) [
  | inr (n, c) ↦
      refused
        (rw (
          need_ok (len + 1) payloadlen (omega (arith, r.counted)),
          scan-err payloadlen (len + 1) (b ∷ p) c.len (omega (arith, r.counted, c.short)),
        ))
        c.parsed
  | inl (v, n, q, w) ↦ elim (dec_le v (length q)) [
    | yes fits ↦
        taken n v (len + 1 + n - 1 + v) v q
          (rw (
            need_ok (len + 1) payloadlen (omega (arith, r.counted)),
            scan-ok payloadlen (len + 1) w (omega (arith, r.counted, w.size)),
            w.got,
            le→leb v (payloadlen - (len + 1 + n - 1)) (omega (arith, r.counted, w.size)),
          ))
          w.parsed w.skipped refl fits (omega (arith, r.counted, w.size))
    | no over ↦
        overrun v q
          (rw (
            need_ok (len + 1) payloadlen (omega (arith, r.counted)),
            scan-ok payloadlen (len + 1) w (omega (arith, r.counted, w.size)),
            w.got,
            lt→leb (payloadlen - (len + 1 + n - 1)) v (omega (arith, r.counted, w.size)),
          ))
          w.parsed (omega arith)
  ]
]

module _ (b : ℕ) (p : List ℕ) (h : All IsByte p) where
  pub decode_stream-parse : decode_stream (b ∷ p) ≡ report (suc (length p)) (parse_stream b p)
  unfolding decode_stream parse_stream get_varint first_byte data_at
  decode_stream-parse = need_step 1 _ p _ _ refl (Needs-varint 0 _ (λ v. Needs-zero _)) λ fits.
      rw (advance_one b p) (
        scan_step _ 2 0 p _ _ h fits (omega arith) (λ v. Needs-zero _)
          λ v n q w in_v.
            rw w.skipped
              (elim (offset_cases (FrameType.has_bit b FrameType.off_bit) (suc (length p))
                (2 + n - 1) q
                (record { counted = omega (arith, w.size, w.pos); bytes = w.bytes })) [
                  | refused e f ↦ rw (e, f) (unfold report in refl)
                  | taken o len' r e f g rd ↦
                      rw (e, f)
                        (elim (length_cases (FrameType.has_bit b FrameType.len_bit) (suc (length p))
                          len' r rd) [
                            | refused e' f' ↦ rw (e', f') (unfold report in refl)
                            | overrun size t e' f' over ↦
                                rw (e', f', lt→leb (length t) size over) (unfold report in refl)
                            | taken n' d len'' size t e' f' g' s le sum ↦
                                rw
                                  (
                                    e',
                                    w.got,
                                    g,
                                    f',
                                    g',
                                    s,
                                    le→leb size (length t) le,
                                    advance-drop size t le,
                                  )
                                  (finish_step (b ∷ p) len'' (drop size t) _
                                    (omega (arith, length-drop size t)))
                          ])
                ]))
