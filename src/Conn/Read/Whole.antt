-- ===== src/Conn/Read/Whole.antt =====
-- What dwnx_conn_read does with an integer that is there as a whole.
use dwnx.Prelude.{
  ℕ, ◌-◌, ◌+◌, ◌≤◌, ◌≡◌, refl, sym, ap, ◌∙◌, arith, List, [], ◌++◌, Bool, false, min, length, take,
  All, IsByte, All-append, All-take, length-append, append-nil, take-long, drop-append, zero_add,
  Result, ok,
}
use dwnx.Prelude.{◌==◌, lt→ltb}
use dwnx.Conv.Wire.{
  varint_bytes, parse_varint, IsVarint, varint_bytes-IsByte, length-varint_bytes,
  parse_varint-varint_bytes,
}
use dwnx.VarintReader
use dwnx.VarintReader.Pieces.{complete, read_result}
use dwnx.VarintReader.Fragments.{read-reads}
use dwnx.Conn.Read.{Reading, Flow, varint_read, varint_len_field}
use dwnx.Conn.Read.Start.{sized, size_read, record_size}
use dwnx.Conn.Read.Steps.{after}

-- The reader at the start of an integer, with `left` bytes in the record and `p` to read.
abbrev pub at : ℕ → List ℕ → Reading → Reading
at left p r = after VarintReader.reset left p r

same_length : (a b : ℕ) → a + b - b ≡ a
same_length a b = omega arith

-- One read takes the integer and leaves the rest.
read-whole :
    (v : ℕ) (rest : List ℕ) (fin : Bool)
    → IsVarint v
    → All IsByte rest
    → VarintReader.read VarintReader.reset (varint_bytes v ++ rest) fin
      ≡ ok (length (varint_bytes v), complete v (length (varint_bytes v)))
unfolding parse_varint
read-whole v rest fin h k =
    read-reads [] (varint_bytes v ++ rest) fin refl
      (omega (arith, length-varint_bytes v, length-append (varint_bytes v) rest))
      (All-append IsByte (varint_bytes v) rest (varint_bytes-IsByte v h) k)
    ∙ ap (read_result [] (varint_bytes v ++ rest) fin) (parse_varint-varint_bytes v rest h)
    ∙ rw
        (
          length-append (varint_bytes v) rest,
          zero_add (length (varint_bytes v) + length rest),
          same_length (length (varint_bytes v)) (length rest),
        )
        refl

pub field-whole :
    (next : ℕ → ℕ → Reading → Result Flow) (v left : ℕ) (rest : List ℕ) (r : Reading)
    → IsVarint v
    → All IsByte rest
    → length (varint_bytes v) ≤ left
    → varint_len_field next (at left (varint_bytes v ++ rest) r)
      ≡ next v (length (varint_bytes v)) (at (left - length (varint_bytes v)) rest r)
unfolding varint_len_field varint_read
field-whole next v left rest r h k fits = rw (
  take-long (min (length (varint_bytes v ++ rest)) left) (varint_bytes v) rest
      (omega (arith, length-append (varint_bytes v) rest)),
  read-whole v (take (min (length (varint_bytes v ++ rest)) left - length (varint_bytes v)) rest)
      (left == min (length (varint_bytes v ++ rest)) left) h (All-take IsByte _ rest k),
  drop-append (varint_bytes v) rest,
)

-- The same for the last integer of the input.
pub field-last :
    (next : ℕ → ℕ → Reading → Result Flow) (v left : ℕ) (r : Reading)
    → IsVarint v
    → length (varint_bytes v) ≤ left
    → varint_len_field next (at left (varint_bytes v) r)
      ≡ next v (length (varint_bytes v)) (at (left - length (varint_bytes v)) [] r)
field-last next v left r h fits =
    ap (λ p. varint_len_field next (at left p r)) (sym (append-nil (varint_bytes v)))
    ∙ field-whole next v left [] r h tt fits

-- The size of a record.
pub size-whole :
    (ts n : ℕ) (rest : List ℕ) (r : Reading)
    → IsVarint n
    → All IsByte rest
    → record_size ts (record r { vird = VarintReader.reset; p = varint_bytes n ++ rest })
      ≡ sized ts n (record r { vird = VarintReader.reset; p = rest })
unfolding record_size size_read
size-whole ts n rest r h k = rw (
  read-whole n rest false h k,
  lt→ltb 0 (length (varint_bytes n)) (omega (arith, length-varint_bytes n)),
  drop-append (varint_bytes n) rest,
)
