-- ===== src/Conv/Wire.antt =====
-- The variable-length integers of RFC 9000, section 16, described without the library's code: the
-- two top bits of the first byte say how many bytes follow, and the rest is the number, big endian.
use dwnx.Prelude.{ℕ, ◌+◌, ◌*◌, ◌/◌, ◌%◌, ◌^◌, ◌≤◌, ◌<◌, ◌≡◌, arith}
use dwnx.Prelude.{List, [], ◌∷◌, ◌++◌, Option, none, some, ltb, leb, if◌then◌else◌}
use dwnx.Prelude.{length, take, drop, All, IsByte}

-- The bytes behind a first byte `b`.
abbrev pub extra_bytes : ℕ → ℕ
extra_bytes b = if ltb b 64 then 0 else if ltb b 128 then 1 else if ltb b 192 then 3 else 7

abbrev pub big_endian : ℕ → List ℕ → ℕ
big_endian acc [] = acc
big_endian acc (b ∷ bs) = big_endian (acc * 256 + b) bs

unfoldable pub parse_varint : List ℕ → Option (ℕ × List ℕ)
parse_varint [] = none
parse_varint (b ∷ p) =
    if leb (extra_bytes b) (length p)
    then some (big_endian (b % 64) (take (extra_bytes b) p), drop (extra_bytes b) p)
    else none

-- The shortest encoding of a number below 2 ^ 62.
unfoldable pub varint_bytes : ℕ → List ℕ
varint_bytes n =
    if ltb n 64
    then n ∷ []
    else if ltb n 16384
    then (n / 256 + 64) ∷ n % 256 ∷ []
    else if ltb n 1073741824
    then (n / 256 ^ 3 + 128) ∷ n / 256 ^ 2 % 256 ∷ n / 256 % 256 ∷ n % 256 ∷ []
    else (n / 256 ^ 7 + 192)
      ∷ n / 256 ^ 6 % 256
      ∷ n / 256 ^ 5 % 256
      ∷ n / 256 ^ 4 % 256
      ∷ n / 256 ^ 3 % 256
      ∷ n / 256 ^ 2 % 256
      ∷ n / 256 % 256
      ∷ n % 256
      ∷ []

abbrev pub IsVarint : ℕ → Type 0
IsVarint n = n < 2 ^ 62

pub varint_bytes-IsByte : (n : ℕ) → IsVarint n → All IsByte (varint_bytes n)
unfolding varint_bytes
varint_bytes-IsByte n h = ground arith

pub length-varint_bytes : (n : ℕ) → (1 ≤ length (varint_bytes n)) × (length (varint_bytes n) ≤ 8)
unfolding varint_bytes
length-varint_bytes n = ground arith

-- Parsing the shortest encoding gives the number back, and leaves what follows.
pub parse_varint-varint_bytes :
    (n : ℕ) (rest : List ℕ) → IsVarint n → parse_varint (varint_bytes n ++ rest) ≡ some (n, rest)
unfolding parse_varint varint_bytes
parse_varint-varint_bytes n rest h = ground arith
