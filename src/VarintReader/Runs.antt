-- ===== src/VarintReader/Runs.antt =====
-- The varint reader on a varint of four bytes in two pieces, with a byte behind it.
use dwnx.Prelude.{◌≡◌, refl, [], ◌∷◌, false, ok, are_bytes-IsByte, arith}
use dwnx.Conv.Wire.{parse_varint}
use dwnx.VarintReader.{read}
use dwnx.VarintReader.Pieces.{held, complete}
use dwnx.VarintReader.Fragments.{read-reads}

read-reads_example : read (held (0x80 ∷ 1 ∷ [])) (2 ∷ 3 ∷ 9 ∷ []) false ≡ ok (2, complete 66051 4)
unfolding parse_varint
read-reads_example =
    read-reads (0x80 ∷ 1 ∷ []) (2 ∷ 3 ∷ 9 ∷ []) false refl (omega arith)
      (are_bytes-IsByte (0x80 ∷ 1 ∷ 2 ∷ 3 ∷ 9 ∷ []) refl)
