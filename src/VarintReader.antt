-- ===== src/VarintReader.antt =====
-- The varint reader of lib/dwnx_record_reader.c, which reads a varint that comes in pieces.
pub mod Pieces
pub mod Fragments
pub mod Took
mod Runs
use dwnx.Prelude.{ℕ, ◌+◌, ◌-◌, ◌%◌, List, [], ◌∷◌, ◌++◌, Bool, true, not, ◌&&◌, min}
use dwnx.Prelude.{leb, ◌==◌, if◌then◌else◌, length, take, drop, replicate}
use dwnx.Prelude.{Result, ok, err, ◌>>=◌, ◌>>◌, check, invalid_argument}
use dwnx.Conv.{get_uvarint, get_uvarintlen}
use dwnx.Conv.Wire.{big_endian}

-- The eight bytes of `acc`: a number of the host, or bytes that stand in network order as yet.
pub data Acc : Type 0 where
  number : ℕ → Acc
  network : List ℕ → Acc

pub record VarintReader : Type 0 where
  pub acc : Acc
  pub left : ℕ
  pub vlen : ℕ

abbrev pub reset : VarintReader
reset = record { acc = number 0; left = 0; vlen = 0 }

-- `acc == 0`
is_zero : Acc → Bool
is_zero (number n) = n == 0
is_zero (network []) = true
is_zero (network (b ∷ bs)) = b == 0 && is_zero (network bs)

-- The memory of `acc`; a number is read as bytes only when it is 0.
abbrev memory : Acc → List ℕ
memory (number n) = replicate 8 0
memory (network bytes) = bytes

-- `memcpy` of `src` to the offset `at`.
abbrev write_at : ℕ → List ℕ → List ℕ → List ℕ
write_at at src bytes = take at bytes ++ (src ++ drop (at + length src) bytes)

-- `*p &= 0x3F`, at the first byte that is copied.
abbrev mask_first : List ℕ → List ℕ
mask_first [] = []
mask_first (b ∷ bs) = b % 64 ∷ bs

-- A read that begins an integer.
begin_read : VarintReader → List ℕ → Bool → Result (ℕ × VarintReader)
unfolding is_zero
begin_read vird bytes fin = do
  check (is_zero vird.acc)
  check (vird.vlen == 0)
  vlen ← get_uvarintlen bytes
  let len = min vlen (length bytes)
  if leb vlen len
      then (do
        (n, _) ← get_uvarint bytes
        ok (vlen, record { acc = number n; left = 0; vlen = vlen }))
      else if fin
      then err invalid_argument
      else ok (
        len,
        record {
          acc = network (write_at (8 - vlen) (mask_first (take len bytes)) (memory vird.acc));
          left = vlen - len;
          vlen = vlen;
        },
      )

-- A read that goes on with one.
pub go_on : VarintReader → List ℕ → Bool → Result (ℕ × VarintReader)
go_on vird bytes fin =
    let len = min vird.left (length bytes) in
    let acc = write_at (8 - vird.left) (take len bytes) (memory vird.acc) in
    if vird.left - len == 0
    then ok (len, record { acc = number (big_endian 0 acc); left = 0; vlen = vird.vlen })
    else if fin
    then err invalid_argument
    else ok (len, record { acc = network acc; left = vird.left - len; vlen = vird.vlen })

-- The bytes that are read of `bytes`, and the reader; on an error the reader is not used again.
unfoldable pub read : VarintReader → List ℕ → Bool → Result (ℕ × VarintReader)
unfolding begin_read go_on
read vird bytes fin = do
  check (not (length bytes == 0))
  if vird.left == 0 then begin_read vird bytes fin else go_on vird bytes fin

abbrev pub done : VarintReader → Bool
done vird = vird.left == 0
