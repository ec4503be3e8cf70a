-- ===== src/Conv.antt =====
-- lib/dwnx_conv.c and the inline readers of lib/dwnx_conv.h. A pointer into a buffer is the list of
-- the bytes from there to the buffer's end, so that a read past the end is a `fault`. A writer
-- returns the bytes that it writes from its pointer `p` on.
pub mod Wire
pub mod RoundTrip
pub mod Field
mod Runs
use dwnx.Prelude.{
  ℕ, zero, suc, ◌+◌, ◌*◌, ◌/◌, ◌%◌, ◌^◌, bit_or, List, [], ◌∷◌, ltb, leb, length, drop,
}
use dwnx.Prelude.{if◌then◌else◌, ◌==◌, Result, ok, fault, ◌>>=◌, ◌>>◌, check}

-- `p += n`: a pointer may reach the end of its buffer, and not pass it.
pub advance : ℕ → List ℕ → Result (List ℕ)
advance n p = if leb n (length p) then ok (drop n p) else fault

-- `memcpy` of `k` bytes into an integer and its conversion from network byte order.
load_be : ℕ → ℕ → List ℕ → Result (ℕ × List ℕ)
load_be zero acc p = ok (acc, p)
load_be (suc k) acc [] = fault
load_be (suc k) acc (b ∷ p) = load_be k (acc * 256 + b) p

-- Conversion to network byte order and `dwnx_cpymem` of the last `k` bytes.
store_be : ℕ → ℕ → List ℕ
store_be zero n = []
store_be (suc k) n = n / 256 ^ k % 256 ∷ store_be k n

pub get_uint64be : List ℕ → Result (ℕ × List ℕ)
unfolding load_be
get_uint64be p = load_be 8 0 p

pub get_uint32be : List ℕ → Result (ℕ × List ℕ)
unfolding load_be
get_uint32be p = load_be 4 0 p

pub get_uint24be : List ℕ → Result (ℕ × List ℕ)
unfolding load_be
get_uint24be p = load_be 3 0 p

pub get_uint16be : List ℕ → Result (ℕ × List ℕ)
unfolding load_be
get_uint16be p = load_be 2 0 p

pub put_uint64be : ℕ → List ℕ
unfolding store_be
put_uint64be n = store_be 8 n

pub put_uint32be : ℕ → List ℕ
unfolding store_be
put_uint32be n = store_be 4 n

pub put_uint24be : ℕ → List ℕ
unfolding store_be
put_uint24be n = store_be 3 n

pub put_uint16be : ℕ → List ℕ
unfolding store_be
put_uint16be n = store_be 2 n

-- `*p >> 6` of a byte selects the case; `& 0x3FFF` and its like are `% 2 ^ w`.
pub get_uvarint : List ℕ → Result (ℕ × List ℕ)
unfolding get_uint16be get_uint32be get_uint64be
get_uvarint [] = fault
get_uvarint (b ∷ p) =
    let tag = b / 64 in
    if tag == 0
    then ok (b, p)
    else if tag == 1
    then (do (n16, q) ← get_uint16be (b ∷ p); ok (n16 % 2 ^ 14, q))
    else if tag == 2
    then (do (n32, q) ← get_uint32be (b ∷ p); ok (n32 % 2 ^ 30, q))
    else if tag == 3
    then (do (n64, q) ← get_uint64be (b ∷ p); ok (n64 % 2 ^ 62, q))
    else fault

-- The cast to `int64_t` keeps a number below 2 ^ 62.
unfoldable pub get_varint : List ℕ → Result (ℕ × List ℕ)
unfolding get_uvarint
get_varint p = get_uvarint p

-- `1U << (*p >> 6)`
pub get_uvarintlen : List ℕ → Result ℕ
get_uvarintlen [] = fault
get_uvarintlen (b ∷ p) = ok (2 ^ (b / 64))

-- `*p |= mask`, at the start of what was written.
or_first : ℕ → List ℕ → List ℕ
or_first mask [] = []
or_first mask (b ∷ bs) = bit_or b mask ∷ bs

pub put_uvarint : ℕ → Result (List ℕ)
unfolding or_first put_uint16be put_uint32be put_uint64be
put_uvarint n =
    if ltb n 64
    then ok (n % 2 ^ 8 ∷ [])
    else if ltb n 16384
    then ok (or_first 0x40 (put_uint16be (n % 2 ^ 16)))
    else if ltb n 1073741824
    then ok (or_first 0x80 (put_uint32be (n % 2 ^ 32)))
    else do check (ltb n 4611686018427387904); ok (or_first 0xc0 (put_uint64be n))

-- A width other than 1, 2, 4 and 8 is `dwnx_unreachable`.
pub put_uvarintw : ℕ → ℕ → Result (List ℕ)
unfolding or_first put_uint16be put_uint32be put_uint64be
put_uvarintw n width =
    if width == 1
    then (do check (ltb n 64); ok (n % 2 ^ 8 ∷ []))
    else if width == 2
    then (do check (ltb n 16384); ok (or_first 0x40 (put_uint16be (n % 2 ^ 16))))
    else if width == 4
    then (do check (ltb n 1073741824); ok (or_first 0x80 (put_uint32be (n % 2 ^ 32))))
    else if width == 8
    then (do check (ltb n 4611686018427387904); ok (or_first 0xc0 (put_uint64be n)))
    else fault

unfoldable pub put_uvarintlen : ℕ → Result ℕ
put_uvarintlen n =
    if ltb n 64
    then ok 1
    else if ltb n 16384
    then ok 2
    else if ltb n 1073741824
    then ok 4
    else (do check (ltb n 4611686018427387904); ok 8)

-- `(uint64_t)(stream_id >> 2) + 1`, for a stream ID that is not negative.
abbrev pub ord_stream_id : ℕ → ℕ
ord_stream_id stream_id = stream_id / 4 + 1
