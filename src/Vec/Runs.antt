-- ===== src/Vec/Runs.antt =====
-- Three vectors, of which five bytes are wanted.
use dwnx.Prelude.{ℕ, ◌≡◌, arith, [], ◌∷◌, List, some, none, leb, if◌then◌else◌, length, take}
use dwnx.Frame.Wire.{concat}
use dwnx.Vec.{max_varint, vec_len_varint, copy_at_most}
use dwnx.Vec.Copy.{vec_len_varint-concat, concat-copy_at_most}

abbrev three_vecs : List (List ℕ)
three_vecs = (1 ∷ 2 ∷ 3 ∷ []) ∷ [] ∷ (4 ∷ 5 ∷ 6 ∷ []) ∷ []

vec_len_varint-concat_example : vec_len_varint three_vecs ≡ (
    if leb (length (concat three_vecs)) max_varint then some (length (concat three_vecs)) else none)
vec_len_varint-concat_example = vec_len_varint-concat three_vecs

concat-copy_at_most_example : concat (copy_at_most 3 three_vecs 5) ≡ take 5 (concat three_vecs)
concat-copy_at_most_example = concat-copy_at_most 3 three_vecs 5 (omega arith)
