-- ===== src/Pq/Runs.antt =====
-- A queue of numbers, the smallest first.
use dwnx.Prelude.{ℕ, ◌+◌, ◌≡◌, refl, List, [], ◌∷◌, ltb, ◌==◌, if◌then◌else◌, ok}
use dwnx.Pq.{push, pop, remove}
use dwnx.Pq.Count.{count, count-remove, left_of}

abbrev numbers : List ℕ
numbers = 1 ∷ 4 ∷ 2 ∷ 7 ∷ []

two_up : push ltb 0 numbers ≡ (0 ∷ 1 ∷ 2 ∷ 7 ∷ 4 ∷ [])
unfolding push
two_up = refl

popped_numbers : pop ltb numbers ≡ ok (2 ∷ 4 ∷ 7 ∷ [])
unfolding pop
popped_numbers = refl

count-remove_example :
    count (λ n. n == 4) (left_of (remove ltb 4 1 numbers)) + (if 4 == 4 then 1 else 0)
    ≡ count (λ n. n == 4) numbers
count-remove_example = count-remove (λ n. n == 4) ltb 4 1 numbers refl
