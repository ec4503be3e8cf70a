-- ===== src/VarintReader/Pieces.antt =====
-- A reader in the middle of an integer: its memory, and a piece that is the last one or not.
use dwnx.Prelude.{
  ℕ, zero, suc, ◌+◌, ◌-◌, ◌%◌, ◌≤◌, ◌<◌, ◌≡◌, refl, sym, ap, ◌∙◌, arith, List, [], ◌∷◌, ◌++◌, Bool,
  true, false, min, Option, none, some,
}
use dwnx.Prelude.{◌==◌, if◌then◌else◌, length, take, replicate, append_assoc, append-nil}
use dwnx.Prelude.{
  length-append, length-take, length-drop, length-replicate, take-long, drop-long, take-all,
  take-append, drop-append, replicate-add,
}
use dwnx.Prelude.{Result, ok, err, invalid_argument}
use native.Mathlib.Decide.{dec_le}
use dwnx.Conv.Wire.{extra_bytes, big_endian, parse_varint}
use dwnx.Conv.Field.{parse_whole, parse_cut}
use dwnx.VarintReader.{number, network, VarintReader, reset, memory, write_at, go_on}

-- The reader after the bytes `seen` of an integer that is not complete.
abbrev pub held : List ℕ → VarintReader
held [] = reset
held (b ∷ s) = record {
  acc = network (
      replicate (8 - suc (extra_bytes b)) 0
      ++ ((b % 64 ∷ s) ++ replicate (extra_bytes b - length s) 0));
  left = extra_bytes b - length s;
  vlen = suc (extra_bytes b);
}

-- The reader after an integer `v` of `n` bytes.
abbrev pub complete : ℕ → ℕ → VarintReader
complete v n = record { acc = number v; left = 0; vlen = n }

abbrev pub read_result : List ℕ → List ℕ → Bool → Option (ℕ × List ℕ) → Result (ℕ × VarintReader)
read_result seen bytes fin none =
    if fin then err invalid_argument else ok (length bytes, held (seen ++ bytes))
read_result seen bytes fin (some (v, rest)) =
    ok (length bytes - length rest, complete v (length seen + length bytes - length rest))

-- What a read of `bytes` after `seen` is to do.
abbrev pub reads : List ℕ → List ℕ → Bool → Result (ℕ × VarintReader)
reads seen bytes fin = read_result seen bytes fin (parse_varint (seen ++ bytes))

same_length : (pre old : List ℕ) (n : ℕ) → n ≡ length pre + length old → n - length pre ≡ length old
same_length pre old n e = omega arith

write_at-append :
    (at : ℕ) (src pre old post : List ℕ)
    → at ≡ length pre
    → length src ≡ length old
    → write_at at src (pre ++ (old ++ post)) ≡ pre ++ (src ++ post)
write_at-append at src pre old post e h = rw (
  e,
  h,
  take-append pre (old ++ post),
  drop-long (length pre + length old) pre (old ++ post) (omega arith),
  same_length pre old (length pre + length old) refl,
  drop-append old post,
)

big_endian-zeros :
    (n : ℕ) (bytes : List ℕ) → big_endian 0 (replicate n 0 ++ bytes) ≡ big_endian 0 bytes
big_endian-zeros zero bytes = refl
big_endian-zeros (suc n) bytes = big_endian-zeros n bytes

pub extra_bytes-le : (b : ℕ) → extra_bytes b ≤ 7
extra_bytes-le b = ground arith

-- The bytes in front of what is left to read.
abbrev front : ℕ → List ℕ → List ℕ
front b s = replicate (8 - suc (extra_bytes b)) 0 ++ b % 64 ∷ s

length-front :
    (b : ℕ) (s : List ℕ)
    → length s < extra_bytes b
    → length (front b s) ≡ 8 - (extra_bytes b - length s)
length-front b s h = omega (
  arith,
  length-append (replicate (8 - suc (extra_bytes b)) 0) (b % 64 ∷ s),
  length-replicate {A = ℕ} (8 - suc (extra_bytes b)) 0,
  extra_bytes-le b,
)

big_endian-front :
    (b : ℕ) (s rest : List ℕ) → big_endian 0 (front b s ++ rest) ≡ big_endian (b % 64) (s ++ rest)
big_endian-front b s rest =
    ap (big_endian 0) (append_assoc (replicate (8 - suc (extra_bytes b)) 0) (b % 64 ∷ s) rest)
    ∙ big_endian-zeros (8 - suc (extra_bytes b)) ((b % 64 ∷ s) ++ rest)
    ∙ ap (λ (n : ℕ). big_endian n (s ++ rest)) (omega arith)

-- What is written into the memory of a reader in the middle of an integer.
written :
    (b : ℕ) (s src : List ℕ)
    → length s < extra_bytes b
    → length src ≤ extra_bytes b - length s
    → write_at (8 - (extra_bytes b - length s)) src (memory (held (b ∷ s)).acc)
      ≡ front b s ++ (src ++ replicate (extra_bytes b - length s - length src) 0)
written b s src h k =
    let l = extra_bytes b - length s in
    let zeros = replicate (8 - suc (extra_bytes b)) 0 in
    ap (λ (n : ℕ). write_at (8 - l) src (zeros ++ ((b % 64 ∷ s) ++ replicate n 0)))
      (split_sum l (length src) k)
    ∙ ap (λ t. write_at (8 - l) src (zeros ++ ((b % 64 ∷ s) ++ t)))
        (replicate-add (length src) (l - length src) 0)
    ∙ ap (write_at (8 - l) src) (
        sym (
          append_assoc zeros (b % 64 ∷ s)
            (replicate (length src) 0 ++ replicate (l - length src) 0)))
    ∙ write_at-append (8 - l) src (front b s) (replicate (length src) 0)
        (replicate (l - length src) 0) (sym (length-front b s h))
        (sym (length-replicate (length src) 0))
  where
    split_sum : (a c : ℕ) → c ≤ a → a ≡ c + (a - c)
    split_sum a c h = omega arith

pub min_left : (a b : ℕ) → a ≤ b → min a b ≡ a
min_left a b h = omega arith

pub min_right : (a b : ℕ) → b ≤ a → min a b ≡ b
min_right a b h = omega arith

is_none_left : (a : ℕ) → (a - a == 0) ≡ true
is_none_left a = ground arith

pub some_left : (a b : ℕ) → b < a → (a - b == 0) ≡ false
some_left a b h = ground arith

-- The last piece.
go_on-last :
    (b : ℕ) (s bytes : List ℕ) (fin : Bool)
    → length s < extra_bytes b
    → extra_bytes b - length s ≤ length bytes
    → go_on (held (b ∷ s)) bytes fin
      ≡ ok (
        extra_bytes b - length s,
        complete (big_endian (b % 64) (take (extra_bytes b) (s ++ bytes))) (suc (extra_bytes b)),
      )
unfolding go_on
go_on-last b s bytes fin h fits =
    let l = extra_bytes b - length s in
    let n = length-take l bytes in
    rw (
      min_left l (length bytes) fits,
      is_none_left l,
      written b s (take l bytes) h (omega (arith, n)),
      big_endian-front b s (take l bytes ++ replicate (l - length (take l bytes)) 0),
      no_zeros (l - length (take l bytes)) (omega (arith, n)),
      append-nil,
      take-long (extra_bytes b) s bytes (omega arith),
    )
  where
    no_zeros : (n : ℕ) → n ≡ 0 → replicate {A = ℕ} n 0 ≡ []
    no_zeros n e = rw e

go_on-cut :
    (b : ℕ) (s bytes : List ℕ) (fin : Bool)
    → length s < extra_bytes b
    → length bytes < extra_bytes b - length s
    → go_on (held (b ∷ s)) bytes fin
      ≡ (if fin then err invalid_argument else ok (length bytes, held (b ∷ (s ++ bytes))))
unfolding go_on
go_on-cut b s bytes fin h cut =
    let l = extra_bytes b - length s in
    rw (
      min_right l (length bytes) (omega arith),
      some_left l (length bytes) cut,
      take-all (length bytes) bytes (omega arith),
      written b s bytes h (omega arith),
      rest_left (extra_bytes b) (length s) (length bytes) (length (s ++ bytes))
          (length-append s bytes),
      append_assoc (replicate (8 - suc (extra_bytes b)) 0) (b % 64 ∷ s),
      append_assoc s bytes,
    )
  where
    rest_left : (a c d e : ℕ) → e ≡ c + d → a - e ≡ a - c - d
    rest_left a c d e h = omega arith

reads-last :
    (b : ℕ) (s bytes : List ℕ) (fin : Bool)
    → extra_bytes b ≤ length s + length bytes
    → reads (b ∷ s) bytes fin
      ≡ ok (
        length bytes - (length s + length bytes - extra_bytes b),
        complete (big_endian (b % 64) (take (extra_bytes b) (s ++ bytes))) (suc (extra_bytes b)),
      )
reads-last b s bytes fin h =
    let l = length-append s bytes in
    let n = length-drop (extra_bytes b) (s ++ bytes) in
    ap (read_result (b ∷ s) bytes fin) (parse_whole b (s ++ bytes) (omega (arith, l)))
    ∙ rw (n, l, same_sum (length s) (length bytes) (extra_bytes b) h)
  where
    same_sum : (a c d : ℕ) → d ≤ a + c → suc a + c - (a + c - d) ≡ suc d
    same_sum a c d h = omega arith

pub goes_on :
    (b : ℕ) (s bytes : List ℕ) (fin : Bool)
    → length s < extra_bytes b
    → go_on (held (b ∷ s)) bytes fin ≡ reads (b ∷ s) bytes fin
goes_on b s bytes fin h = elim (dec_le (extra_bytes b - length s) (length bytes)) [
  | yes fits ↦
      go_on-last b s bytes fin h fits
      ∙ ap
          (λ (n : ℕ). ok (
            n,
            complete (big_endian (b % 64) (take (extra_bytes b) (s ++ bytes)))
                (suc (extra_bytes b)),
          ))
          (omega arith)
      ∙ sym (reads-last b s bytes fin (omega arith))
  | no cut ↦
      go_on-cut b s bytes fin h (omega arith)
      ∙ sym (
          ap (read_result (b ∷ s) bytes fin)
            (parse_cut b (s ++ bytes) (omega (arith, length-append s bytes))))
]
