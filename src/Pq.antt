-- ===== src/Pq.antt =====
-- lib/dwnx_pq.c: a binary heap in an array, which is a list here. The `index` of an entry is where the
-- entry stands in the list.
pub mod Count
pub mod Keys
pub mod Heap
pub mod Order
mod Runs
use dwnx.Prelude.{
  ℕ, zero, suc, ◌+◌, ◌-◌, ◌*◌, ◌/◌, List, [], ◌∷◌, ◌++◌, Bool, true, false, not, ◌&&◌,
}
use dwnx.Prelude.{
  leb, ◌==◌, if◌then◌else◌, length, take, Option, none, some, Result, ok, fault, ◌>>=◌, ◌>>◌, check,
}

module _ {ℓ} {A : Type ℓ} where
  abbrev pub get_elem? : List A → ℕ → Option A
  get_elem? [] i = none
  get_elem? (x ∷ q) zero = some x
  get_elem? (x ∷ q) (suc i) = get_elem? q i

  -- `q[i] = x`
  abbrev pub set : List A → ℕ → A → List A
  set [] i x = []
  set (y ∷ q) zero x = x ∷ q
  set (y ∷ q) (suc i) x = y ∷ set q i x

  abbrev swap_found : List A → ℕ → ℕ → Option A → Option A → List A
  swap_found q i j (some a) (some b) = set (set q i b) j a
  swap_found q i j a b = q

  abbrev pub swap : List A → ℕ → ℕ → List A
  swap q i j = swap_found q i j (get_elem? q i) (get_elem? q j)

  -- `less(q[i], q[j])`
  less_at : (A → A → Bool) → Option A → Option A → Bool
  less_at less (some a) (some b) = less a b
  less_at less a b = false

  module _ (less : A → A → Bool) where
    -- Each round goes to the parent, whose index is smaller: as many rounds as `index` are enough.
    pub bubble_up : ℕ → ℕ → List A → List A
    unfolding less_at
    bubble_up zero index q = q
    bubble_up (suc rounds) index q =
        let parent = (index - 1) / 2 in
        let rest = bubble_up rounds parent (swap q parent index) in
        if index == 0
        then q
        else if not (less_at less (get_elem? q index) (get_elem? q parent))
        then q
        else rest

    -- The smaller of `minindex` and the child at `j`.
    smaller : ℕ → ℕ → List A → ℕ
    unfolding less_at
    smaller j minindex q =
        if less_at less (get_elem? q j) (get_elem? q minindex) then j else minindex

    -- The index grows with each round and stays below the length.
    pub bubble_down : ℕ → ℕ → List A → List A
    unfolding smaller
    bubble_down zero index q = q
    bubble_down (suc rounds) index q =
        let j = index * 2 + 1 in
        let minindex = smaller (j + 1) (smaller j index q) q in
        let rest = bubble_down rounds minindex (swap q index minindex) in
        if minindex == index then q else rest

    unfoldable pub push : A → List A → List A
    unfolding bubble_up
    push item q = bubble_up (length q) (length q) (q ++ (item ∷ []))

    -- The last entry takes the place of the one at `index`, and the array gets shorter by one.
    abbrev move_last : ℕ → List A → List A
    move_last index q = move_found (get_elem? q (length q - 1))
      where
        move_found : Option A → List A
        move_found none = []
        move_found (some x) = take (length q - 1) (set q index x)

    unfoldable pub pop : List A → Result (List A)
    unfolding bubble_down
    pop [] = fault
    pop (x ∷ q) = ok (bubble_down (length q) 0 (move_last 0 (x ∷ q)))

    -- `item` stands at `index`.
    remove_at : A → ℕ → List A → List A
    unfolding bubble_up bubble_down less_at
    remove_at item index q =
        let moved = move_last index q in
        if less_at less (some item) (get_elem? moved index)
        then bubble_down (length moved) index moved
        else bubble_up index index moved

    unfoldable pub remove : A → ℕ → List A → Result (List A)
    unfolding remove_at
    remove item index q =
        if index == 0
        then pop q
        else if index == (length q - 1)
        then ok (take index q)
        else ok (remove_at item index q)

unfoldable pub top {ℓ} : {A : Type ℓ} → List A → Result A
top [] = fault
top (x ∷ q) = ok x
