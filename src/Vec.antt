-- ===== src/Vec.antt =====
-- lib/dwnx_vec.c: arrays of vectors, each the list of its bytes, as lists. dwnx_vec_len is
-- `Frame.Encode.vec_len`.
pub mod Copy
mod Runs
use dwnx.Prelude.{
  ℕ, ◌+◌, ◌-◌, ◌^◌, List, [], ◌∷◌, Option, none, some, ltb, ◌==◌, ◌||◌, if◌then◌else◌, length, take,
}

-- DWNX_MAX_VARINT
abbrev pub max_varint : ℕ
max_varint = 2 ^ 62 - 1

-- The loop of dwnx_vec_len_varint, on the length so far; -1 is `none`.
add_lengths : ℕ → List (List ℕ) → Option ℕ
add_lengths res [] = some res
add_lengths res (vec ∷ vecs) =
    let sum = add_lengths (res + length vec) vecs in
    if ltb (max_varint - res) (length vec) then none else sum

pub vec_len_varint : List (List ℕ) → Option ℕ
vec_len_varint vecs = add_lengths 0 vecs

-- The vectors that dwnx_vec_copy_at_most leaves in `dst`, which has room for `dstcnt`.
pub copy_at_most : ℕ → List (List ℕ) → ℕ → List (List ℕ)
copy_at_most dstcnt [] left = []
copy_at_most dstcnt (vec ∷ src) left =
    let skipped = copy_at_most dstcnt src left in
    let copied = vec ∷ copy_at_most (dstcnt - 1) src (left - length vec) in
    if left == 0 || dstcnt == 0
    then []
    else if length vec == 0
    then skipped
    else if ltb left (length vec)
    then take left vec ∷ []
    else copied
