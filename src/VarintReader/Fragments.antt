-- ===== src/VarintReader/Fragments.antt =====
-- The reader's state is what the bytes before it were; what it reads of all pieces together is what is
-- parsed of them in a row.
use dwnx.Prelude.{
  ℕ, suc, ◌+◌, ◌-◌, ◌%◌, ◌≤◌, ◌<◌, ◌≡◌, sym, ap, ◌∙◌, arith, List, [], ◌∷◌, ◌++◌, Bool, false, none,
}
use dwnx.Prelude.{◌==◌, if◌then◌else◌, length, take, drop, replicate, All, IsByte}
use dwnx.Prelude.{
  length-drop, length-replicate, take-all, take-append, drop-append, replicate-add, suc_sub,
  zero_add,
}
use dwnx.Prelude.{ok, err, invalid_argument, le→leb, lt→leb}
use native.Mathlib.Decide.{dec_le}
use dwnx.Conv.Wire.{extra_bytes, big_endian, parse_varint}
use dwnx.Conv.Field.{parse_whole, parse_cut, get_uvarintlen-extra_bytes}
use dwnx.Conv.RoundTrip.{get_uvarint-parse_varint}
use dwnx.VarintReader.{reset, begin_read, read}
use dwnx.VarintReader.Pieces.{
  held, complete, read_result, reads, extra_bytes-le, min_left, min_right, some_left, goes_on,
}

begins-whole :
    (b : ℕ) (s : List ℕ) (fin : Bool)
    → All IsByte (b ∷ s)
    → extra_bytes b ≤ length s
    → begin_read reset (b ∷ s) fin
      ≡ ok (
        suc (extra_bytes b),
        complete (big_endian (b % 64) (take (extra_bytes b) s)) (suc (extra_bytes b)),
      )
unfolding begin_read
begins-whole b s fin k h = rw (
  get_uvarintlen-extra_bytes b s k.0,
  min_left (suc (extra_bytes b)) (suc (length s)) (omega arith),
  le→leb (suc (extra_bytes b)) (suc (extra_bytes b)) (omega arith),
  get_uvarint-parse_varint (b ∷ s) k (parse_whole b s h),
)

zeros-end :
    (n e : ℕ)
    → n ≤ e
    → e ≤ 7
    → drop (8 - suc e + suc n) (replicate {A = ℕ} 8 0) ≡ replicate (e - n) 0
zeros-end n e h k =
    ap (λ (z : ℕ). drop (8 - suc e + suc n) (replicate {A = ℕ} z 0)) (split_sum n e h k)
    ∙ ap (drop (8 - suc e + suc n)) (replicate-add (8 - suc e + suc n) (e - n) 0)
    ∙ ap (λ (z : ℕ). drop z (replicate (8 - suc e + suc n) 0 ++ replicate (e - n) 0))
        (sym (length-replicate {A = ℕ} (8 - suc e + suc n) 0))
    ∙ drop-append (replicate (8 - suc e + suc n) 0) (replicate (e - n) 0)
  where
    split_sum : (n e : ℕ) → n ≤ e → e ≤ 7 → 8 ≡ 8 - suc e + suc n + (e - n)
    split_sum n e h k = omega arith

zeros-start : (n : ℕ) → n ≤ 8 → take n (replicate {A = ℕ} 8 0) ≡ replicate n 0
zeros-start n h =
    ap (λ (z : ℕ). take n (replicate {A = ℕ} z 0)) (split_sum n h)
    ∙ ap (take n) (replicate-add n (8 - n) 0)
    ∙ ap (λ (z : ℕ). take z (replicate n 0 ++ replicate (8 - n) 0))
        (sym (length-replicate {A = ℕ} n 0))
    ∙ take-append (replicate n 0) (replicate (8 - n) 0)
  where
    split_sum : (n : ℕ) → n ≤ 8 → 8 ≡ n + (8 - n)
    split_sum n h = omega arith

begins-cut :
    (b : ℕ) (s : List ℕ) (fin : Bool)
    → All IsByte (b ∷ s)
    → length s < extra_bytes b
    → begin_read reset (b ∷ s) fin
      ≡ (if fin then err invalid_argument else ok (suc (length s), held (b ∷ s)))
unfolding begin_read
begins-cut b s fin k h = rw (
  get_uvarintlen-extra_bytes b s k.0,
  min_right (suc (extra_bytes b)) (suc (length s)) (omega arith),
  lt→leb (suc (length s)) (suc (extra_bytes b)) (omega arith),
  take-all (length s) s (omega arith),
  zeros-start (8 - suc (extra_bytes b)) (omega arith),
  zeros-end (length s) (extra_bytes b) (omega arith) (extra_bytes-le b),
  suc_sub (extra_bytes b) (length s),
)

not_empty : (n : ℕ) → 0 < n → (n == 0) ≡ false
not_empty n h = ground arith

pub not_whole : (b : ℕ) (s : List ℕ) → parse_varint (b ∷ s) ≡ none → length s < extra_bytes b
not_whole b s e = elim (dec_le (extra_bytes b) (length s)) [
  | yes fits ↦ cc (parse_whole b s fits, e)
  | no cut ↦ omega arith
]

begins :
    (b : ℕ) (s : List ℕ) (fin : Bool)
    → All IsByte (b ∷ s)
    → begin_read reset (b ∷ s) fin ≡ reads [] (b ∷ s) fin
begins b s fin k = elim (dec_le (extra_bytes b) (length s)) [
  | yes fits ↦
      begins-whole b s fin k fits
      ∙ sym (
          ap (read_result [] (b ∷ s) fin) (parse_whole b s fits)
          ∙ rw (
            length-drop (extra_bytes b) s,
            zero_add (suc (length s)),
            same_sum (length s) (extra_bytes b) fits,
          ))
  | no cut ↦
      begins-cut b s fin k (omega arith)
      ∙ sym (ap (read_result [] (b ∷ s) fin) (parse_cut b s (omega arith)))
]
  where
    same_sum : (n e : ℕ) → e ≤ n → suc n - (n - e) ≡ suc e
    same_sum n e h = omega arith

-- However a varint is cut into pieces, a read after the bytes `seen`, which hold no whole varint as yet,
-- takes of a piece that is not empty what belongs to it: it ends with the number that all the bytes are
-- parsed as and with its length, or goes on, or fails on the last piece of a varint that is not whole.
pub read-reads :
    (seen bytes : List ℕ) (fin : Bool)
    → parse_varint seen ≡ none
    → 0 < length bytes
    → All IsByte (seen ++ bytes)
    → read (held seen) bytes fin ≡ reads seen bytes fin
unfolding read
read-reads [] [] fin e h k = elim h [ ]
read-reads [] (b ∷ s) fin e h k = rw (not_empty (suc (length s)) h) (begins b s fin k)
read-reads (b ∷ s) bytes fin e h k =
    let cut = not_whole b s e in
    rw (not_empty (length bytes) h, some_left (extra_bytes b) (length s) cut)
      (goes_on b s bytes fin cut)
