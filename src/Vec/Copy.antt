-- ===== src/Vec/Copy.antt =====
-- What the vector functions mean for the bytes that the vectors hold in a row.
use dwnx.Prelude.{
  take-nil, take-short, take-long, ◌⊎◌, inl, inr, ℕ, zero, suc, ◌+◌, ◌-◌, ◌≤◌, ◌<◌, ◌≡◌, refl, ap,
  sym, ◌∙◌, arith, List, [], ◌∷◌, ◌++◌, append-nil, none, some,
}
use dwnx.Prelude.{leb, if◌then◌else◌, length, take, length-append, length-take}
use dwnx.Frame.Wire.{concat}
use dwnx.Vec.{max_varint, add_lengths, vec_len_varint, copy_at_most}

add_lengths-concat :
    (res : ℕ) (vecs : List (List ℕ))
    → res ≤ max_varint
    → add_lengths res vecs ≡ (
        if leb (res + length (concat vecs)) max_varint
        then some (res + length (concat vecs))
        else none)
unfolding add_lengths
add_lengths-concat res [] h = ground arith
add_lengths-concat res (vec ∷ vecs) h =
    ground (arith, length-append vec (concat vecs), add_lengths-concat (res + length vec) vecs)

-- dwnx_vec_len_varint is the number of bytes in the vectors if a varint can hold it, and -1 otherwise.
pub vec_len_varint-concat :
    (vecs : List (List ℕ))
    → vec_len_varint vecs
      ≡ (if leb (length (concat vecs)) max_varint then some (length (concat vecs)) else none)
unfolding vec_len_varint
vec_len_varint-concat vecs = ground (arith, add_lengths-concat 0 vecs)

-- One step of the copy, which ends, skips an empty vector, or takes a vector in part or whole.
copy_cases :
    (dstcnt : ℕ) (vec : List ℕ) (src : List (List ℕ)) (left : ℕ)
    → 0 < dstcnt
    → ((left ≡ 0) × (copy_at_most dstcnt (vec ∷ src) left ≡ []))
      ⊎ (((length vec ≡ 0) × (copy_at_most dstcnt (vec ∷ src) left ≡ copy_at_most dstcnt src left))
          ⊎ (((left ≤ length vec) × (copy_at_most dstcnt (vec ∷ src) left ≡ take left vec ∷ []))
              ⊎ ((length vec ≤ left)
                  × (copy_at_most dstcnt (vec ∷ src) left
                      ≡ vec ∷ copy_at_most (dstcnt - 1) src (left - length vec)))))
unfolding copy_at_most
copy_cases dstcnt vec src left h = ground arith

no_bytes : (vec : List ℕ) → length vec ≡ 0 → vec ≡ []
no_bytes [] e = refl
no_bytes (b ∷ vec) e = ground arith

-- With as much room as there are vectors, dwnx_vec_copy_at_most selects the first `left` bytes.
pub concat-copy_at_most :
    (dstcnt : ℕ) (src : List (List ℕ)) (left : ℕ)
    → length src ≤ dstcnt
    → concat (copy_at_most dstcnt src left) ≡ take left (concat src)
unfolding copy_at_most
concat-copy_at_most dstcnt [] left h = sym (take-nil left)
concat-copy_at_most dstcnt (vec ∷ src) left h =
    elim (copy_cases dstcnt vec src left (omega arith)) [
      | inl (z, e) ↦ ap concat e ∙ (rw z)
      | inr (inl (z, e)) ↦
          ap concat e ∙ (rw (no_bytes vec z) (concat-copy_at_most dstcnt src left (omega arith)))
      | inr (inr (inl (l, e))) ↦
          ap concat e ∙ append-nil (take left vec) ∙ sym (take-short left vec (concat src) l)
      | inr (inr (inr (l, e))) ↦
          ap concat e
          ∙ ap (λ t. vec ++ t)
              (concat-copy_at_most (dstcnt - 1) src (left - length vec) (omega arith))
          ∙ sym (take-long left vec (concat src) l)
    ]

-- dwnx_vec_copy_at_most writes at most `dstcnt` vectors, with at most `left` bytes in them together.
pub copy_at_most-bounds :
    (dstcnt : ℕ) (src : List (List ℕ)) (left : ℕ)
    → (length (copy_at_most dstcnt src left) ≤ dstcnt)
      × (length (concat (copy_at_most dstcnt src left)) ≤ left)
unfolding copy_at_most
copy_at_most-bounds dstcnt [] left = (omega arith, omega arith)
copy_at_most-bounds zero (vec ∷ src) left = (ground arith, ground arith)
copy_at_most-bounds (suc n) (vec ∷ src) left =
    elim (copy_cases (suc n) vec src left (omega arith)) [
      | inl (z, e) ↦ rw e (omega arith, omega arith)
      | inr (inl (z, e)) ↦ rw e (copy_at_most-bounds (suc n) src left)
      | inr (inr (inl (l, e))) ↦
          rw e (omega arith, omega (arith, length-append (take left vec) [], length-take left vec))
      | inr (inr (inr (l, e))) ↦
          let (c, b) = copy_at_most-bounds (suc n - 1) src (left - length vec) in
          rw e (
            omega (arith, c),
            omega (
              arith,
              b,
              length-append vec (concat (copy_at_most (suc n - 1) src (left - length vec))),
            ),
          )
    ]
