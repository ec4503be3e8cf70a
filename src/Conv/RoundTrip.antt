-- ===== src/Conv/RoundTrip.antt =====
-- The readers and writers of lib/dwnx_conv.c against the format.
use dwnx.Prelude.{◌>>=◌, ◌⊎◌, inl, inr, ◌++◌, All-append}
use dwnx.Conv.{
  put_uvarintw, get_uint16be, get_uint24be, get_uint32be, get_uint64be, put_uint16be, put_uint24be,
  put_uint32be, put_uint64be,
}
use dwnx.Conv.Wire.{varint_bytes-IsByte, parse_varint-varint_bytes}
use dwnx.Prelude.{ℕ, zero, suc, ◌+◌, ◌*◌, ◌/◌, ◌%◌, ◌^◌, ◌≤◌, ◌<◌, ◌≡◌, refl, ap, arith}
use dwnx.Prelude.{List, [], ◌∷◌, some, ok}
use dwnx.Prelude.{length, take, drop, All, IsByte, or_0x40, or_0x80, or_0xc0, length-take, All-take}
use native.Mathlib.Nat.{pow-suc}
use dwnx.Conv.{load_be, get_uvarint, put_uvarint, put_uvarintlen}
use dwnx.Conv.Wire.{big_endian, parse_varint, varint_bytes, IsVarint}

-- `put_uvarint` writes the shortest encoding of every number that has one.
pub put_uvarint-varint_bytes : (n : ℕ) → IsVarint n → put_uvarint n ≡ ok (varint_bytes n)
unfolding put_uvarint varint_bytes
put_uvarint-varint_bytes n h =
    ground
      (arith, or_0x40 (n / 256 % 256), or_0x80 (n / 256 ^ 3 % 256), or_0xc0 (n / 256 ^ 7 % 256))

pub put_uvarintlen-varint_bytes :
    (n : ℕ) → IsVarint n → put_uvarintlen n ≡ ok (length (varint_bytes n))
unfolding put_uvarintlen varint_bytes
put_uvarintlen-varint_bytes n h = ground arith

load_be-big_endian :
    (k acc : ℕ) (p : List ℕ)
    → k ≤ length p
    → load_be k acc p ≡ ok (big_endian acc (take k p), drop k p)
unfolding load_be
load_be-big_endian zero acc p h = refl
load_be-big_endian (suc k) acc [] h = elim h [ ]
load_be-big_endian (suc k) acc (b ∷ p) h = load_be-big_endian k (acc * 256 + b) p (omega arith)

big_endian-add :
    (acc : ℕ) (bs : List ℕ) → big_endian acc bs ≡ acc * 256 ^ length bs + big_endian 0 bs
big_endian-add acc [] = grind (arith)
big_endian-add acc (b ∷ bs) = omega (
  arith,
  big_endian-add (acc * 256 + b) bs,
  big_endian-add (0 * 256 + b) bs,
  pow-suc 256 (length bs),
  ap (λ (t : ℕ). acc * t) (pow-suc 256 (length bs)),
)

big_endian-lt : (bs : List ℕ) → All IsByte bs → big_endian 0 bs < 256 ^ length bs
big_endian-lt [] h = omega arith
big_endian-lt (b ∷ bs) h =
    grind (arith, big_endian-add b bs, big_endian-lt bs h.1, pow-suc 256 (length bs))

-- The mask takes the two top bits off a number whose first byte is `b`.
big_endian-mask :
    (k b : ℕ) (p : List ℕ)
    → length (take k p) ≡ k
    → All IsByte p
    → (big_endian b (take k p) ≡ b * 256 ^ k + big_endian 0 (take k p))
      × (big_endian (b % 64) (take k p) ≡ b % 64 * 256 ^ k + big_endian 0 (take k p))
      × (big_endian 0 (take k p) < 256 ^ k)
big_endian-mask k b p e h = (
  rw e at (big_endian-add b (take k p)),
  rw e at (big_endian-add (b % 64) (take k p)),
  rw e at (big_endian-lt (take k p) (All-take IsByte k p h)),
)

-- Where a list of bytes starts with a whole varint, `get_uvarint` returns its number and what follows.
pub get_uvarint-parse_varint :
    (p : List ℕ) {v : ℕ} {q : List ℕ}
    → All IsByte p
    → parse_varint p ≡ some (v, q)
    → get_uvarint p ≡ ok (v, q)
unfolding get_uvarint parse_varint
get_uvarint-parse_varint [] h e = cc
get_uvarint-parse_varint (b ∷ p) h e = ground (
  arith,
  load_be-big_endian 1 b p,
  load_be-big_endian 3 b p,
  load_be-big_endian 7 b p,
  length-take 1 p,
  length-take 3 p,
  length-take 7 p,
  big_endian-mask 1 b p,
  big_endian-mask 3 b p,
  big_endian-mask 7 b p,
)

-- What is parsed always has an encoding.
pub parse_varint-IsVarint :
    (p : List ℕ) {v : ℕ} {q : List ℕ} → All IsByte p → parse_varint p ≡ some (v, q) → IsVarint v
unfolding parse_varint
parse_varint-IsVarint [] h e = cc
parse_varint-IsVarint (b ∷ p) h e = ground (
  arith,
  length-take 1 p,
  length-take 3 p,
  length-take 7 p,
  big_endian-mask 1 b p,
  big_endian-mask 3 b p,
  big_endian-mask 7 b p,
)

-- `get_uvarint` reads what `put_uvarint` writes, and leaves the bytes behind it: both succeed on every
-- number below 2 ^ 62.
pub get_uvarint-put_uvarint :
    (n : ℕ) (rest : List ℕ)
    → IsVarint n
    → All IsByte rest
    → (do out ← put_uvarint n; get_uvarint (out ++ rest)) ≡ ok (n, rest)
get_uvarint-put_uvarint n rest h b = rw (
  put_uvarint-varint_bytes n h,
  get_uvarint-parse_varint (varint_bytes n ++ rest)
      (All-append IsByte (varint_bytes n) rest (varint_bytes-IsByte n h) b)
      (parse_varint-varint_bytes n rest h),
)

-- The widths that dwnx_put_uvarintw takes for a number.
abbrev pub IsWidth : ℕ → ℕ → Type 0
IsWidth n width =
    ((width ≡ 1) × (n < 2 ^ 6))
    ⊎ (((width ≡ 2) × (n < 2 ^ 14)) ⊎ (((width ≡ 4) × (n < 2 ^ 30)) ⊎ ((width ≡ 8) × (n < 2 ^ 62))))

-- `get_uvarint` reads what `put_uvarintw` writes in a width that the number has, shortest or not, and
-- leaves the bytes behind it.
pub get_uvarint-put_uvarintw :
    (n width : ℕ) (rest : List ℕ)
    → IsWidth n width
    → (do out ← put_uvarintw n width; get_uvarint (out ++ rest)) ≡ ok (n, rest)
unfolding put_uvarintw get_uvarint
get_uvarint-put_uvarintw n width rest (inl (e, h)) = rw e (ground arith)
get_uvarint-put_uvarintw n width rest (inr (inl (e, h))) =
    rw e (ground (arith, or_0x40 (n / 256 % 256)))
get_uvarint-put_uvarintw n width rest (inr (inr (inl (e, h)))) =
    rw e (ground (arith, or_0x80 (n / 256 ^ 3 % 256)))
get_uvarint-put_uvarintw n width rest (inr (inr (inr (e, h)))) =
    rw e (ground (arith, or_0xc0 (n / 256 ^ 7 % 256)))

-- The readers of 16, 24, 32 and 64 bits read what the writers of the same width write, which is the
-- number cut to that width, and leave the bytes behind it.
pub get_uint-put_uint :
    (n : ℕ) (rest : List ℕ)
    → (get_uint16be (put_uint16be n ++ rest) ≡ ok (n % 2 ^ 16, rest))
      × (get_uint24be (put_uint24be n ++ rest) ≡ ok (n % 2 ^ 24, rest))
      × (get_uint32be (put_uint32be n ++ rest) ≡ ok (n % 2 ^ 32, rest))
      × (get_uint64be (put_uint64be n ++ rest) ≡ ok (n % 2 ^ 64, rest))
unfolding get_uint16be get_uint24be get_uint32be get_uint64be put_uint16be put_uint24be put_uint32be
    put_uint64be
get_uint-put_uint n rest = (ground arith, ground arith, ground arith, ground arith)

pub put_uvarintw-two : (n : ℕ) → n < 2 ^ 14 → put_uvarintw n 2 ≡ ok ((n / 256 + 64) ∷ n % 256 ∷ [])
unfolding put_uvarintw
put_uvarintw-two n h = ground (arith, or_0x40 (n / 256 % 256))
