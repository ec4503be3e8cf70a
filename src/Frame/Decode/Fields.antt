-- ===== src/Frame/Decode/Fields.antt =====
-- The two passes of a decoder over its variable-length fields against one parse of them: the rules by
-- which the equations of the decoders are put together.
use dwnx.Prelude.{ℕ, suc, ◌+◌, ◌-◌, ◌≤◌, ◌<◌, ◌≡◌, arith, inl, inr, List, [], ◌∷◌, none, some}
use dwnx.Prelude.{Bool, true, false, if◌then◌else◌}
use dwnx.Prelude.{ok, err, ◌>>=◌, ◌>>◌, frame_encoding, length, All, IsByte, le→leb, lt→leb}
use native.Mathlib.Decide.{dec_le}
use dwnx.Conv.{advance, get_uvarintlen}
use dwnx.Conv.Wire.{parse_varint, extra_bytes}
use dwnx.Conv.Field.{Whole, field_cases, advance-drop}
use dwnx.Prelude.{length-drop, Option-cases}
use dwnx.Frame.{Frame}
use dwnx.Frame.Decode.{Decoded, scan, need, finish}
use dwnx.Frame.Grammar
use dwnx.Frame.Grammar.{Parsed}

-- A parse of `payload` as the decoder reports it.
unfoldable pub report : ℕ → Parsed → Decoded
report payloadlen none = err frame_encoding
report payloadlen (some (fr, rest)) = ok (fr, payloadlen - length rest)

pub advance_one : (b : ℕ) (p : List ℕ) → advance 1 (b ∷ p) ≡ ok p
advance_one b p = advance-drop 1 (b ∷ p) (omega arith)

-- A parse that cannot succeed on fewer than `k` bytes.
pub record Needs (k : ℕ) (parse : List ℕ → Parsed) : Type 0 where
  pub fails : (p : List ℕ) → length p < k → parse p ≡ none

pub Needs-zero : (parse : List ℕ → Parsed) → Needs 0 parse
Needs-zero parse = record { fails = λ p h. elim h [ ] }

parse_varint_shorter :
    (p : List ℕ) {v : ℕ} {q : List ℕ} → parse_varint p ≡ some (v, q) → length q < length p
unfolding parse_varint
parse_varint_shorter [] e = cc
parse_varint_shorter (b ∷ p) e = ground (arith, length-drop (extra_bytes b) p)

pub Needs-varint :
    (k : ℕ) (J : ℕ × List ℕ → Parsed)
    → ((v : ℕ) → Needs k (λ q. J (v, q)))
    → Needs (suc k) (λ p. Grammar.◌>>=◌ (parse_varint p) J)
Needs-varint k J needs = record { fails = go }
  where
    go : (p : List ℕ) → length p < suc k → Grammar.◌>>=◌ (parse_varint p) J ≡ none
    go p h = elim (Option-cases (parse_varint p)) [
      | inl e ↦ rw e
      | inr ((v, q), e) ↦ rw e ((needs v).fails q (omega (arith, parse_varint_shorter p e)))
    ]

-- The scan of a field that ends within `payloadlen`, and of one that does not.
pub scan-ok :
    (payloadlen len : ℕ) {p : List ℕ} {v n : ℕ} {q : List ℕ}
    → Whole p v n q
    → len + n - 1 ≤ payloadlen
    → scan payloadlen len p ≡ ok (n, len + n - 1)
unfolding scan
scan-ok payloadlen len {n = n} w h = rw (w.len, le→leb (len + n - 1) payloadlen h)

pub scan-err :
    (payloadlen len : ℕ) (p : List ℕ) {n : ℕ}
    → get_uvarintlen p ≡ ok n
    → payloadlen < len + n - 1
    → scan payloadlen len p ≡ err frame_encoding
unfolding scan
scan-err payloadlen len p {n = n} e h = rw (e, lt→leb payloadlen (len + n - 1) h)

-- One field of the first pass. `len` counts the bytes before `p`, and one for each of the `suc k`
-- fields from there on.
module _ (payloadlen len k : ℕ) (p : List ℕ) (K : ℕ × ℕ → Decoded) (J : ℕ × List ℕ → Parsed) where
  pub scan_step :
      All IsByte p
      → 0 < length p
      → len + length p ≡ suc (payloadlen + k)
      → ((v : ℕ) → Needs k (λ q. J (v, q)))
      → ((v n : ℕ) (q : List ℕ)
          → Whole p v n q
          → len + n - 1 ≤ payloadlen
          → K (n, len + n - 1) ≡ report payloadlen (J (v, q)))
      → (scan payloadlen len p >>= K) ≡ report payloadlen (Grammar.◌>>=◌ (parse_varint p) J)
  unfolding report
  scan_step bytes pos counted needs next = elim (field_cases p bytes pos) [
    | inr (n, c) ↦ rw (c.parsed, scan-err payloadlen len p c.len (omega (arith, c.short)))
    | inl (v, n, q, w) ↦ elim (dec_le (len + n - 1) payloadlen) [
      | yes fits ↦ rw (scan-ok payloadlen len w fits, w.parsed) (next v n q w fits)
      | no over ↦ rw (
        scan-err payloadlen len p w.len (omega arith),
        w.parsed,
        (needs v).fails q (omega (arith, w.size)),
      )
    ]
  ]

pub need_ok : (len payloadlen : ℕ) → len ≤ payloadlen → need len payloadlen ≡ ok tt
unfolding need
need_ok len payloadlen h = rw (le→leb len payloadlen h)

pub need_err : (len payloadlen : ℕ) → payloadlen < len → need len payloadlen ≡ err frame_encoding
unfolding need
need_err len payloadlen h = rw (lt→leb payloadlen len h)

-- The test on the least length in front of all: one byte for the type and one for each field.
pub need_step :
    (k payloadlen : ℕ) (p : List ℕ) (parse : List ℕ → Parsed) (r : Decoded)
    → payloadlen ≡ suc (length p)
    → Needs k parse
    → (k ≤ length p → r ≡ report payloadlen (parse p))
    → (need (suc k) payloadlen >> r) ≡ report payloadlen (parse p)
unfolding report
need_step k payloadlen p parse r e needs next = elim (dec_le k (length p)) [
  | yes fits ↦ rw (need_ok (suc k) payloadlen (omega arith)) (next fits)
  | no over ↦ rw (need_err (suc k) payloadlen (omega arith), needs.fails p (omega arith))
]

-- The last step: the bytes taken are those counted.
pub finish_step :
    (payload : List ℕ) (len : ℕ) (p : List ℕ) (fr : Frame)
    → len ≡ length payload - length p
    → finish payload len p fr ≡ report (length payload) (some (fr, p))
unfolding finish report
finish_step payload len p fr e = ground arith

-- A test that the decoder and the grammar make alike.
pub if_report :
    (payloadlen : ℕ) (b : Bool) {r t : Decoded} (x y : Parsed)
    → r ≡ report payloadlen x
    → t ≡ report payloadlen y
    → (if b then r else t) ≡ report payloadlen (if b then x else y)
if_report payloadlen true x y h k = h
if_report payloadlen false x y h k = k
