-- ===== src/Conv/Field.antt =====
-- How a decoder meets one variable-length integer: a case split that hands it all that its calls
-- of the readers come to.
use dwnx.Prelude.{ℕ, suc, ◌+◌, ◌/◌, ◌^◌, ◌≤◌, ◌<◌, ◌≡◌, ap, arith, ◌⊎◌, inl, inr}
use dwnx.Prelude.{List, [], ◌∷◌, none, some, ok, length, drop, All, IsByte, length-drop, All-drop}
use dwnx.Prelude.{take, le→leb, lt→leb, ◌%◌}
use native.Mathlib.Decide.{dec_le}
use dwnx.Conv.{advance, get_uvarint, get_uvarintlen}
use dwnx.Conv.Wire.{extra_bytes, big_endian, parse_varint, IsVarint, varint_bytes}
use dwnx.Conv.Wire.{parse_varint-varint_bytes, varint_bytes-IsByte, length-varint_bytes}
use dwnx.Prelude.{◌++◌, All-append, length-append}
use dwnx.Conv.RoundTrip.{get_uvarint-parse_varint, parse_varint-IsVarint}

-- A whole integer stands at `p`: `v`, in `n` bytes, before `q`.
pub record Whole (p : List ℕ) (v n : ℕ) (q : List ℕ) : Type 0 where
  pub parsed : parse_varint p ≡ some (v, q)
  pub len : get_uvarintlen p ≡ ok n
  pub got : get_uvarint p ≡ ok (v, q)
  pub skipped : advance n p ≡ ok q
  pub size : length p ≡ n + length q
  pub pos : 1 ≤ n
  pub bytes : All IsByte q
  pub range : IsVarint v

-- The input ends inside an integer whose first byte says that it takes `n` bytes.
pub record Cut (p : List ℕ) (n : ℕ) : Type 0 where
  pub parsed : parse_varint p ≡ none
  pub len : get_uvarintlen p ≡ ok n
  pub short : length p < n

pub advance-drop : (n : ℕ) (p : List ℕ) → n ≤ length p → advance n p ≡ ok (drop n p)
unfolding advance
advance-drop n p h = rw (le→leb n (length p) h)

pow_at : (t k : ℕ) → t ≡ k → 2 ^ t ≡ 2 ^ k
pow_at t k e = ap (λ (i : ℕ). 2 ^ i) e

pub get_uvarintlen-extra_bytes :
    (b : ℕ) (p : List ℕ) → IsByte b → get_uvarintlen (b ∷ p) ≡ ok (suc (extra_bytes b))
unfolding get_uvarintlen
get_uvarintlen-extra_bytes b p h =
    ground (arith, pow_at (b / 64) 0, pow_at (b / 64) 1, pow_at (b / 64) 2, pow_at (b / 64) 3)

-- What parsing `b ∷ p` comes to, by the bytes that there are.
pub parse_whole :
    (b : ℕ) (p : List ℕ)
    → extra_bytes b ≤ length p
    → parse_varint (b ∷ p)
      ≡ some (big_endian (b % 64) (take (extra_bytes b) p), drop (extra_bytes b) p)
unfolding parse_varint
parse_whole b p h = rw (le→leb (extra_bytes b) (length p) h)

pub parse_cut : (b : ℕ) (p : List ℕ) → length p < extra_bytes b → parse_varint (b ∷ p) ≡ none
unfolding parse_varint
parse_cut b p h = rw (lt→leb (length p) (extra_bytes b) h)

pub field_cases :
    (p : List ℕ)
    → All IsByte p
    → 0 < length p
    → ((v : ℕ) × (n : ℕ) × (q : List ℕ) × Whole p v n q) ⊎ ((n : ℕ) × Cut p n)
field_cases [] h l = elim l [ ]
field_cases (b ∷ p) h l = elim (dec_le (extra_bytes b) (length p)) [
  | yes fits ↦ inl (
    big_endian (b % 64) (take (extra_bytes b) p),
    suc (extra_bytes b),
    drop (extra_bytes b) p,
    whole fits,
  )
  | no cut ↦ inr (
    suc (extra_bytes b),
    record {
      parsed = parse_cut b p (omega arith);
      len = get_uvarintlen-extra_bytes b p h.0;
      short = omega arith;
    },
  )
]
  where
    whole :
        extra_bytes b ≤ length p
        → Whole
            (b ∷ p)
            (big_endian (b % 64) (take (extra_bytes b) p))
            (suc (extra_bytes b))
            (drop (extra_bytes b) p)
    whole fits = record {
      parsed = parse_whole b p fits;
      len = get_uvarintlen-extra_bytes b p h.0;
      got = get_uvarint-parse_varint (b ∷ p) h (parse_whole b p fits);
      skipped = advance-drop (suc (extra_bytes b)) (b ∷ p) (omega arith);
      size = omega (arith, length-drop (extra_bytes b) p);
      pos = omega arith;
      bytes = All-drop IsByte (extra_bytes b) p h.1;
      range = parse_varint-IsVarint (b ∷ p) h (parse_whole b p fits);
    }

0-lt-varint_bytes : (n : ℕ) (rest : List ℕ) → 0 < length (varint_bytes n ++ rest)
0-lt-varint_bytes n rest = omega (arith, length-append (varint_bytes n) rest, length-varint_bytes n)

-- A reader at the shortest encoding of `v` gets `v`, whatever bytes follow.
pub Whole-varint_bytes :
    (v : ℕ) (rest : List ℕ)
    → IsVarint v
    → All IsByte rest
    → Whole (varint_bytes v ++ rest) v (length (varint_bytes v)) rest
Whole-varint_bytes v rest h b = elim (field_cases p bytes (0-lt-varint_bytes v rest)) [
  | inr (n, c) ↦ absurd (cc (c.parsed, parsed))
  | inl (u, n, q, w) ↦ at_same u n q w (same u n q w)
]
  where
    p : List ℕ
    p = varint_bytes v ++ rest

    parsed : parse_varint p ≡ some (v, rest)
    parsed = parse_varint-varint_bytes v rest h

    bytes : All IsByte p
    bytes = All-append IsByte (varint_bytes v) rest (varint_bytes-IsByte v h) b

    same :
        (u n : ℕ) (q : List ℕ)
        → Whole p u n q
        → (u ≡ v) × (q ≡ rest) × (n ≡ length (varint_bytes v))
    same u n q w = ground (arith, w.parsed, parsed, w.size, length-append (varint_bytes v) rest)

    at_same :
        (u n : ℕ) (q : List ℕ)
        → Whole p u n q
        → (u ≡ v) × (q ≡ rest) × (n ≡ length (varint_bytes v))
        → Whole p v (length (varint_bytes v)) rest
    at_same u n q w (e, f, g) = rw e at (rw f at (rw g at w))
