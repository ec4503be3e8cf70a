-- ===== src/Frame/Decode/Close.antt =====
-- The decoders of CONNECTION_CLOSE, DATAGRAM and PADDING are the grammar's parsers.
use dwnx.Prelude.{
  ℕ, zero, suc, ◌+◌, ◌-◌, ◌≤◌, ◌<◌, ◌≡◌, inl, inr, refl, arith, List, [], ◌∷◌, none, some,
}
use dwnx.Prelude.{Bool, true, false, if◌then◌else◌, le→leb, lt→leb, lt→ltb, ◌==◌}
use dwnx.Prelude.{ok, err, ◌>>=◌, frame_encoding, length, drop, All, IsByte, length-drop}
use native.Mathlib.Decide.{dec_le}
use dwnx.Conv.{advance, get_uvarint}
use dwnx.Conv.Wire.{parse_varint}
use dwnx.Conv.Field.{field_cases, advance-drop}
use dwnx.Frame.{Frame}
use dwnx.Frame.FrameType
use dwnx.Prelude.{guard, ◌>>◌, take, leb}
use dwnx.Frame.Decode.{finish}
use dwnx.Frame.Grammar.{parse_bytes}
use dwnx.Frame.Decode.{first_byte, data_at, skip_padding, scan_frame_type, scan_datagram}
use dwnx.Frame.Decode.{decode_padding, decode_connection_close, decode_datagram}
use dwnx.Frame.Decode.Fields.{
  report, advance_one, Needs, Needs-zero, Needs-varint, scan-ok, scan-err,
}
use dwnx.Frame.Decode.Fields.{scan_step, need_step, need_ok, need_err, finish_step}
use dwnx.Frame.Decode.Control.{Needs-one}
use dwnx.Frame.Grammar
use dwnx.Frame.Grammar.{
  parse_if, parse_length, zeros, parse_padding, parse_connection_close, parse_datagram, Parsed,
}

-- The scan of a frame type, where there is one, with one more field to come.
data TypeScan (there : Bool) (payloadlen len : ℕ) (p : List ℕ) : Type 0 where
  taken :
      (v len' : ℕ) (q : List ℕ)
      → scan_frame_type there payloadlen len p ≡ ok (len', q)
      → parse_if there p ≡ some (v, q)
      → (if there then get_uvarint p else ok (0, p)) ≡ ok (v, q)
      → len' + length q ≡ suc payloadlen
      → 0 < length q
      → All IsByte q
      → TypeScan there payloadlen len p
  refused :
      scan_frame_type there payloadlen len p ≡ err frame_encoding
      → parse_if there p ≡ none
      → TypeScan there payloadlen len p
  last :
      (v : ℕ)
      → scan_frame_type there payloadlen len p ≡ err frame_encoding
      → parse_if there p ≡ some (v, [])
      → TypeScan there payloadlen len p

type_cases :
    (there : Bool) (payloadlen len : ℕ) (p : List ℕ)
    → len + length p ≡ suc payloadlen
    → 0 < length p
    → All IsByte p
    → TypeScan there payloadlen len p
unfolding scan_frame_type parse_if
type_cases false payloadlen len p e h b = taken 0 len p refl refl refl e h b
type_cases true payloadlen len p e h b = elim (field_cases p b h) [
  | inr (n, c) ↦
      refused (rw (scan-err payloadlen (len + 1) p c.len (omega (arith, c.short)))) c.parsed
  | inl (v, n, [], w) ↦
      last v (rw (scan-err payloadlen (len + 1) p w.len (omega (arith, w.size)))) w.parsed
  | inl (v, n, x ∷ q, w) ↦
      taken v (len + 1 + n - 1) (x ∷ q)
        (rw (scan-ok payloadlen (len + 1) w (omega (arith, w.size)), w.skipped)) w.parsed w.got
        (omega (arith, w.size)) (omega arith) w.bytes
]

-- The scan of a length that a DATAGRAM has, and of the `size` bytes of data at `q`.
data DatagramScan (there : Bool) (payloadlen : ℕ) (p : List ℕ) : Type 0 where
  taken :
      (size len : ℕ) (q : List ℕ)
      → scan_datagram there payloadlen p ≡ ok (size, len, q)
      → parse_length there p ≡ some (size, q)
      → size ≤ length q
      → len + length q ≡ payloadlen + size
      → DatagramScan there payloadlen p
  refused :
      scan_datagram there payloadlen p ≡ err frame_encoding
      → parse_length there p ≡ none
      → DatagramScan there payloadlen p
  overrun :
      (size : ℕ) (q : List ℕ)
      → scan_datagram there payloadlen p ≡ err frame_encoding
      → parse_length there p ≡ some (size, q)
      → length q < size
      → DatagramScan there payloadlen p

datagram_cases :
    (there : Bool) (payloadlen : ℕ) (p : List ℕ)
    → payloadlen ≡ suc (length p)
    → All IsByte p
    → DatagramScan there payloadlen p
unfolding scan_datagram parse_length
datagram_cases false payloadlen p e b =
    taken (length p) payloadlen p refl refl (omega arith) (omega arith)
datagram_cases true payloadlen [] e b =
    refused (rw (need_err 2 payloadlen (omega arith))) (unfold parse_varint in refl)
datagram_cases true payloadlen (x ∷ p) e b = elim (field_cases (x ∷ p) b (omega arith)) [
  | inr (n, c) ↦
      refused
        (rw (
          need_ok 2 payloadlen (omega arith),
          scan-err payloadlen 2 (x ∷ p) c.len (omega (arith, c.short)),
        ))
        c.parsed
  | inl (v, n, q, w) ↦ elim (dec_le v (length q)) [
    | yes fits ↦
        taken v (2 + n - 1 + v) q
          (rw (
            need_ok 2 payloadlen (omega arith),
            scan-ok payloadlen 2 w (omega (arith, w.size)),
            w.got,
            le→leb v (payloadlen - (2 + n - 1)) (omega (arith, w.size)),
          ))
          w.parsed fits (omega (arith, w.size, w.pos))
    | no over ↦
        overrun v q
          (rw (
            need_ok 2 payloadlen (omega arith),
            scan-ok payloadlen 2 w (omega (arith, w.size)),
            w.got,
            lt→leb (payloadlen - (2 + n - 1)) v (omega (arith, w.size)),
          ))
          w.parsed (omega arith)
  ]
]

skip_padding-zeros : (p : List ℕ) → skip_padding p ≡ drop (zeros p) p
unfolding skip_padding zeros
skip_padding-zeros [] = refl
skip_padding-zeros (zero ∷ p) = skip_padding-zeros p
skip_padding-zeros (suc b ∷ p) = ground arith

zeros-le-length : (p : List ℕ) → zeros p ≤ length p
unfolding zeros
zeros-le-length [] = omega arith
zeros-le-length (zero ∷ p) = omega (arith, zeros-le-length p)
zeros-le-length (suc b ∷ p) = omega arith

padding_len : (b : ℕ) (p : List ℕ) → suc (length p) - length (drop (zeros p) p) ≡ suc (zeros p)
padding_len b p = omega (arith, length-drop (zeros p) p, zeros-le-length p)

-- `t` bytes of data at `z`, where the test says that there are as many.
bytes_step :
    (payload : List ℕ) (len t : ℕ) (z : List ℕ) (fr : List ℕ → Frame)
    → len + length z ≡ length payload
    → (guard (leb t (length payload - len)) frame_encoding
        >> (advance t z >>= λ rest. finish payload (len + t) rest (fr (take t z))))
      ≡ report (length payload) (Grammar.◌>>=◌ (parse_bytes t z) (λ x. some (fr x.0, x.1)))
bytes_step payload len t z fr e = elim (dec_le t (length z)) [
  | yes fits ↦
      rw
        (
          le→leb t (length payload - len) (omega arith),
          le→leb t (length z) fits,
          advance-drop t z fits,
        )
        (finish_step payload (len + t) (drop t z) _ (omega (arith, length-drop t z)))
  | no over ↦
      rw (lt→leb (length payload - len) t (omega arith), lt→leb (length z) t (omega arith))
        (unfold report in refl)
]

-- An optional field takes nothing away from what the field behind it needs.
Needs-if :
    (there : Bool) (J : ℕ × List ℕ → Parsed)
    → ((v : ℕ) → Needs 1 (λ q. J (v, q)))
    → Needs 1 (λ p. Grammar.◌>>=◌ (parse_if there p) J)
unfolding parse_if
Needs-if false J needs = needs 0
Needs-if true J needs = record { fails = λ p h. (Needs-varint 1 J needs).fails p (omega arith) }

module _ (b : ℕ) (p : List ℕ) (h : All IsByte p) where
  pub decode_padding-parse : decode_padding (b ∷ p) ≡ report (suc (length p)) (parse_padding p)
  unfolding decode_padding parse_padding report
  decode_padding-parse = rw (
    lt→ltb 0 (suc (length p)) (omega arith),
    advance_one b p,
    skip_padding-zeros p,
    padding_len b p,
  )

  pub decode_datagram-parse : decode_datagram (b ∷ p) ≡ report (suc (length p)) (parse_datagram b p)
  unfolding decode_datagram parse_datagram first_byte data_at
  decode_datagram-parse =
      rw (lt→ltb 0 (suc (length p)) (omega arith), advance_one b p)
        (elim (datagram_cases (b == FrameType.datagram_len) (suc (length p)) p refl h) [
          | refused e f ↦ rw (e, f) (unfold report in refl)
          | overrun size q e f over ↦ rw (e, f, lt→leb (length q) size over) (unfold report in refl)
          | taken size len q e f le sum ↦
              rw (e, f, le→leb size (length q) le, advance-drop size q le)
                (finish_step (b ∷ p) len (drop size q) _ (omega (arith, length-drop size q)))
        ])

  pub decode_connection_close-parse :
      decode_connection_close (b ∷ p) ≡ report (suc (length p)) (parse_connection_close b p)
  unfolding decode_connection_close parse_connection_close first_byte
  decode_connection_close-parse =
      need_step 2 _ p _ _ refl (Needs-varint 1 _ (λ v. Needs-if _ _ (λ u. Needs-one _))) λ fits.
        rw (advance_one b p) (
          scan_step _ 3 1 p _ _ h (omega arith) (omega arith) (λ v. Needs-if _ _ (λ u. Needs-one _))
            λ v n q w in_v.
              rw w.skipped
                (elim (type_cases (b == FrameType.connection_close) (suc (length p)) (3 + n - 1) q
                  (omega (arith, w.size, w.pos)) (omega (arith, w.size)) w.bytes) [
                    | refused e f ↦ rw (e, f) (unfold report in refl)
                    | last u e f ↦ rw (e, f) (unfold report parse_varint in refl)
                    | taken u len r e f g sum pos bytes ↦
                        rw (e, f)
                          (scan_step _ len 0 r _ _ bytes pos (omega arith) (λ t. Needs-zero _)
                            λ t k z x in_t.
                              rw (x.got, w.got, g, x.skipped)
                                (bytes_step (b ∷ p) (len + k - 1) t z
                                  (λ reason. Frame.connection_close (record {
                                    type = b;
                                    error_code = v;
                                    frame_type = u;
                                    reason = reason;
                                  }))
                                  (omega (arith, x.size, x.pos))))
                  ]))
