-- ===== src/Frame/Encode/CopyLoop.antt =====
-- The copy loops of STREAM and DATAGRAM copy the data of their vectors in a row.
use dwnx.Prelude.{ℕ, zero, suc, ◌-◌, ◌^◌, ◌<◌, ◌≡◌, refl, sym, ap, arith, min, List, [], ◌∷◌, ◌++◌}
use dwnx.Prelude.{length, take, length-append}
use native.Mathlib.Nat.{sub-zero, zero-min, min-zero, suc-min-suc, suc-sub-suc}
use dwnx.Frame.Encode.{copy_data, copy_all, vec_len}
use dwnx.Frame.Wire.{concat}

take-append_min :
    (n : ℕ) (xs ys : List ℕ)
    → take n (xs ++ ys) ≡ take (min n (length xs)) xs ++ take (n - min n (length xs)) ys
take-append_min zero xs ys = rw zero-min
take-append_min (suc n) [] ys = rw (min-zero, sub-zero)
take-append_min (suc n) (x ∷ xs) ys =
    rw (suc-min-suc, suc-sub-suc) (ap (λ t. x ∷ t) (take-append_min n xs ys))

take-nil : (n : ℕ) → take {A = ℕ} n [] ≡ []
take-nil zero = refl
take-nil (suc n) = refl

pub copy_data-take :
    (left : ℕ) (vecs : List (List ℕ)) → copy_data left vecs ≡ take left (concat vecs)
unfolding copy_data
copy_data-take left [] = sym (take-nil left)
copy_data-take zero (vec ∷ vecs) = refl
copy_data-take (suc n) ([] ∷ vecs) = ground (arith, copy_data-take (suc n) vecs)
copy_data-take (suc n) ((b ∷ vec) ∷ vecs) = ground (
  arith,
  take-append_min (suc n) (b ∷ vec) (concat vecs),
  copy_data-take (suc n - min (suc n) (suc (length vec))) vecs,
)

pub copy_all-concat : (vecs : List (List ℕ)) → copy_all vecs ≡ concat vecs
unfolding copy_all
copy_all-concat [] = refl
copy_all-concat ([] ∷ vecs) = copy_all-concat vecs
copy_all-concat ((b ∷ vec) ∷ vecs) = ground (arith, copy_all-concat vecs)

-- dwnx_vec_len does not wrap for data that fits in memory.
pub vec_len-concat :
    (vecs : List (List ℕ)) → length (concat vecs) < 2 ^ 64 → vec_len vecs ≡ length (concat vecs)
unfolding vec_len
vec_len-concat [] h = refl
vec_len-concat (vec ∷ vecs) h = omega (
  arith,
  length-append vec (concat vecs),
  vec_len-concat vecs (omega (arith, length-append vec (concat vecs))),
)
