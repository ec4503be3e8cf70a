-- ===== src/Conv/Runs.antt =====
-- The conversions at concrete numbers.
use dwnx.Prelude.{
  ℕ, ◌≡◌, refl, arith, [], ◌∷◌, ◌++◌, List, ok, some, ◌>>=◌, inl, inr, are_bytes-IsByte,
}
use dwnx.Conv.{
  get_uvarint, put_uvarint, put_uvarintw, get_uint16be, get_uint24be, get_uint32be, get_uint64be,
  put_uint16be, put_uint24be, put_uint32be, put_uint64be,
}
use dwnx.Conv.Wire.{varint_bytes, parse_varint}
use dwnx.Conv.RoundTrip.{
  get_uvarint-put_uvarint, get_uvarint-put_uvarintw, get_uvarint-parse_varint,
  put_uvarint-varint_bytes, get_uint-put_uint,
}

-- 15293 takes two bytes.
abbrev packet : List ℕ
packet = 0x7b ∷ 0xbd ∷ 9 ∷ []

packet_parse : parse_varint packet ≡ some (15293, 9 ∷ [])
unfolding parse_varint
packet_parse = refl

get_uvarint-put_uvarint_example :
    (do out ← put_uvarint 15293; get_uvarint (out ++ (9 ∷ []))) ≡ ok (15293, 9 ∷ [])
get_uvarint-put_uvarint_example =
    get_uvarint-put_uvarint 15293 (9 ∷ []) (omega arith) (omega arith, tt)

get_uvarint-put_uvarintw_example :
    (do out ← put_uvarintw 37 2; get_uvarint (out ++ (9 ∷ []))) ≡ ok (37, 9 ∷ [])
get_uvarint-put_uvarintw_example =
    get_uvarint-put_uvarintw 37 2 (9 ∷ []) (inr (inl (refl, omega arith)))

get_uvarint-parse_varint_example : get_uvarint packet ≡ ok (15293, 9 ∷ [])
get_uvarint-parse_varint_example =
    get_uvarint-parse_varint packet (are_bytes-IsByte packet refl) packet_parse

put_uvarint-varint_bytes_example : put_uvarint 494878333 ≡ ok (varint_bytes 494878333)
put_uvarint-varint_bytes_example = put_uvarint-varint_bytes 494878333 (omega arith)

get_uint-put_uint_example :
    (get_uint16be (put_uint16be 70000 ++ []) ≡ ok (4464, []))
    × (get_uint24be (put_uint24be 70000 ++ []) ≡ ok (70000, []))
    × (get_uint32be (put_uint32be 70000 ++ []) ≡ ok (70000, []))
    × (get_uint64be (put_uint64be 70000 ++ []) ≡ ok (70000, []))
get_uint-put_uint_example = get_uint-put_uint 70000 []
