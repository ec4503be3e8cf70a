-- ===== src/Pq/Count.antt =====
-- The entries of the queue, counted by any test: what moves in the array is neither lost nor doubled.
use dwnx.Prelude.{
  ℕ, zero, suc, ◌+◌, ◌-◌, ◌*◌, ◌/◌, ◌<◌, ◌≡◌, refl, sym, ap, ◌∙◌, arith, List, [], ◌∷◌, ◌++◌, Bool,
  true, false, not,
}
use dwnx.Prelude.{
  ◌==◌, if◌then◌else◌, length, take, Option, none, some, Result, ok, Bool-cases, subst, ==_iff, inl,
  inr,
}
use dwnx.Pq.{
  get_elem?, set, swap, swap_found, less_at, bubble_up, bubble_down, smaller, move_last, push, pop,
  remove, remove_at,
}

abbrev pub one : Bool → ℕ
one b = if b then 1 else 0

-- The queue that a removal leaves.
abbrev pub left_of {ℓ} : {A : Type ℓ} → Result (List A) → List A
left_of (ok q) = q
left_of r = []

module _ {ℓ} {A : Type ℓ} (test : A → Bool) where
  -- The number of entries that pass the test.
  abbrev pub count : List A → ℕ
  count [] = 0
  count (x ∷ q) = one (test x) + count q

  pub count-append : (p q : List A) → count (p ++ q) ≡ count p + count q
  count-append [] q = omega arith
  count-append (x ∷ p) q = omega (arith, count-append p q)

  some_eq : (y a : A) → some y ≡ some a → y ≡ a
  some_eq y a e = cc e

  count-set :
      (q : List A) (i : ℕ) (x a : A)
      → get_elem? q i ≡ some a
      → count (set q i x) + one (test a) ≡ count q + one (test x)
  count-set [] i x a e = cc e
  count-set (y ∷ q) zero x a e = rw (some_eq y a e) (omega arith)
  count-set (y ∷ q) (suc i) x a e = omega (arith, count-set q i x a e)

  get_elem?-set :
      (q : List A) (i j : ℕ) (b : A) → get_elem? q j ≡ some b → get_elem? (set q i b) j ≡ some b
  get_elem?-set [] i j b e = e
  get_elem?-set (y ∷ q) zero zero b e = refl
  get_elem?-set (y ∷ q) zero (suc j) b e = e
  get_elem?-set (y ∷ q) (suc i) zero b e = e
  get_elem?-set (y ∷ q) (suc i) (suc j) b e = get_elem?-set q i j b e

  pub count-swap : (q : List A) (i j : ℕ) → count (swap q i j) ≡ count q
  count-swap q i j = go (get_elem? q i) (get_elem? q j) refl refl
    where
      go :
          (x y : Option A)
          → get_elem? q i ≡ x
          → get_elem? q j ≡ y
          → count (swap_found q i j x y) ≡ count q
      go none y e h = refl
      go (some a) none e h = refl
      go (some a) (some b) e h =
          omega (arith, count-set (set q i b) j a b (get_elem?-set q i j b h), count-set q i b a e)

  module _ (less : A → A → Bool) where
    count-bubble_up :
        (rounds index : ℕ) (q : List A) → count (bubble_up less rounds index q) ≡ count q
    unfolding bubble_up
    count-bubble_up zero index q = refl
    count-bubble_up (suc rounds) index q =
        let parent = (index - 1) / 2 in
        either (index == 0) (less_at less (get_elem? q index) (get_elem? q parent))
          (bubble_up less rounds parent (swap q parent index))
          (count-bubble_up rounds parent (swap q parent index) ∙ count-swap q parent index)
      where
        either :
            (stop moves : Bool) (rest : List A)
            → count rest ≡ count q
            → count (if stop then q else if not moves then q else rest) ≡ count q
        either true moves rest e = refl
        either false false rest e = refl
        either false true rest e = e

    count-bubble_down :
        (rounds index : ℕ) (q : List A) → count (bubble_down less rounds index q) ≡ count q
    unfolding bubble_down
    count-bubble_down zero index q = refl
    count-bubble_down (suc rounds) index q =
        let minindex = smaller less (index * 2 + 1 + 1) (smaller less (index * 2 + 1) index q) q in
        either (minindex == index) (bubble_down less rounds minindex (swap q index minindex))
          (count-bubble_down rounds minindex (swap q index minindex) ∙ count-swap q index minindex)
      where
        either :
            (stop : Bool) (rest : List A)
            → count rest ≡ count q
            → count (if stop then q else rest) ≡ count q
        either true rest e = refl
        either false rest e = e

    -- A push adds its item and nothing else, whatever the order of the queue.
    pub count-push : (item : A) (q : List A) → count (push less item q) ≡ count q + one (test item)
    unfolding push
    count-push item q =
        count-bubble_up (length q) (length q) (q ++ (item ∷ []))
        ∙ count-append q (item ∷ [])
        ∙ omega arith

  pub length-set : (q : List A) (i : ℕ) (x : A) → length (set q i x) ≡ length q
  length-set [] i x = refl
  length-set (y ∷ q) zero x = refl
  length-set (y ∷ q) (suc i) x = ap suc (length-set q i x)

  -- The array without its last entry.
  count-init :
      (n : ℕ) (q : List A) (x : A)
      → length q ≡ suc n
      → get_elem? q n ≡ some x
      → count (take n q) + one (test x) ≡ count q
  count-init n [] x h e = omega (arith, h)
  count-init zero (y ∷ []) x h e = rw (some_eq y x e) (omega arith)
  count-init zero (y ∷ z ∷ q) x h e = omega (arith, h)
  count-init (suc n) (y ∷ q) x h e = omega (arith, count-init n q x (omega (arith, h)) e)

  pub get_elem?-some : (n : ℕ) (q : List A) → n < length q → (x : A) × (get_elem? q n ≡ some x)
  get_elem?-some n [] h = elim h [ ]
  get_elem?-some zero (y ∷ q) h = (y, refl)
  get_elem?-some (suc n) (y ∷ q) h = get_elem?-some n q (omega (arith, h))

  count-move_found :
      (less : A → A → Bool) (n : ℕ) (q : List A) (i : ℕ) (a : A)
      → length q ≡ suc n
      → get_elem? q i ≡ some a
      → (count (move_last less i q) + one (test a) ≡ count q)
  count-move_found less n q i a h e = let l = get_elem?-some n q (omega (arith, h)) in go l.0 l.1
    where
      m : length q - 1 ≡ n
      m = omega (arith, h)

      go : (x : A) → get_elem? q n ≡ some x → count (move_last less i q) + one (test a) ≡ count q
      go x last =
          rw (m, last, m)
            (omega (
              arith,
              count-set q i x a e,
              count-init n (set q i x) x (length-set q i x ∙ h) (get_elem?-set q i n x last),
            ))

  pub count-move_last :
      (less : A → A → Bool) (q : List A) (i : ℕ) (a : A)
      → get_elem? q i ≡ some a
      → count (move_last less i q) + one (test a) ≡ count q
  count-move_last less [] i a e = cc e
  count-move_last less (y ∷ q) i a e = count-move_found less (length q) (y ∷ q) i a refl e

  -- Where no entry passes the test, the one at an index does not.
  pub none_at : (q : List A) (i : ℕ) (a : A) → count q ≡ 0 → get_elem? q i ≡ some a → test a ≡ false
  none_at [] i a z e = cc e
  none_at (y ∷ q) zero a z e = rw (sym (some_eq y a e)) (none_here (test y) (count q) z)
    where
      none_here : (b : Bool) (n : ℕ) → one b + n ≡ 0 → b ≡ false
      none_here b n z = ground arith
  none_at (y ∷ q) (suc i) a z e = none_at q i a (omega (arith, z)) e

  pub count-pop :
      (less : A → A → Bool) (q : List A) (a : A)
      → get_elem? q 0 ≡ some a
      → count (left_of (pop less q)) + one (test a) ≡ count q
  unfolding pop
  count-pop less [] a e = cc e
  count-pop less (y ∷ q) a e =
      rw (count-bubble_down less (length q) 0 (move_last less 0 (y ∷ q)))
        (count-move_last less (y ∷ q) 0 a e)

  count-remove_at :
      (less : A → A → Bool) (item : A) (index : ℕ) (q : List A)
      → get_elem? q index ≡ some item
      → count (remove_at less item index q) + one (test item) ≡ count q
  unfolding remove_at
  count-remove_at less item index q e =
      let moved = move_last less index q in
      either (less_at less (some item) (get_elem? moved index))
        (bubble_down less (length moved) index moved) (bubble_up less index index moved)
        (count-bubble_down less (length moved) index moved) (count-bubble_up less index index moved)
    where
      either :
          (b : Bool) (down up : List A)
          → count down ≡ count (move_last less index q)
          → count up ≡ count (move_last less index q)
          → count (if b then down else up) + one (test item) ≡ count q
      either true down up d u = rw d (count-move_last less q index item e)
      either false down up d u = rw u (count-move_last less q index item e)

  -- A removal takes its item away and nothing else, whatever the order of the queue.
  pub count-remove :
      (less : A → A → Bool) (item : A) (index : ℕ) (q : List A)
      → get_elem? q index ≡ some item
      → count (left_of (remove less item index q)) + one (test item) ≡ count q
  unfolding remove
  count-remove less item index q e = elim (Bool-cases (index == 0)) [
    | inl z ↦ rw z (count-pop less q item (at_zero index q z e))
    | inr nz ↦ elim (Bool-cases (index == (length q - 1))) [
      | inl l ↦ rw (nz, l) (count-init index q item (at_last index q l e) e)
      | inr nl ↦ rw (nz, nl) (count-remove_at less item index q e)
    ]
  ]
    where
      at_zero :
          (i : ℕ) (q : List A)
          → (i == 0) ≡ true
          → get_elem? q i ≡ some item
          → get_elem? q 0 ≡ some item
      at_zero i q z e = subst (λ (n : ℕ). get_elem? q n ≡ some item) ((==_iff i 0).0 z) e

      at_last :
          (i : ℕ) (q : List A)
          → (i == (length q - 1)) ≡ true
          → get_elem? q i ≡ some item
          → length q ≡ suc i
      at_last i [] l e = cc e
      at_last i (y ∷ q) l e = omega (arith, (==_iff i (length (y ∷ q) - 1)).0 l)

-- A removal at the place of an entry does not fail.
pub remove-ok {ℓ} :
    {A : Type ℓ} (less : A → A → Bool) (item : A) (index : ℕ) (q : List A)
    → get_elem? q index ≡ some item
    → remove less item index q ≡ ok (left_of (remove less item index q))
unfolding remove pop
remove-ok less item index [] e = cc e
remove-ok {A = A} less item index (y ∷ q) e = go (index == 0) (index == (suc (length q) - 1)) _ _ _
  where
    go :
        (b c : Bool) (x y z : List A)
        → (if b then ok x else if c then ok y else ok z)
          ≡ ok (left_of (if b then ok x else if c then ok y else ok z))
    go true c x y z = refl
    go false true x y z = refl
    go false false x y z = refl
