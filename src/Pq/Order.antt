-- ===== src/Pq/Order.antt =====
-- The operations of the queue keep the order of the heap, and its first entry has the smallest key.
use dwnx.Prelude.{
  ℕ, zero, suc, ◌-◌, ◌/◌, ◌≤◌, ◌<◌, ◌≡◌, refl, ap, arith, List, [], ◌∷◌, ◌++◌, Bool, true, false,
  ltb, ◌==◌, if◌then◌else◌, length, take, length-append, length-take, some,
}
use dwnx.Prelude.{ok, Bool-cases, inl, inr}
use dwnx.Pq.{get_elem?, set, less_at, move_last, push, pop, remove, remove_at, top}
use dwnx.Pq.Count.{
  length-set, get_elem?-some, left_of, one, count, count-append, count-move_last, none_at,
}
use dwnx.Pq.Keys.{key_at, IsHeap, key_at-get_elem?, key_at-set}
use dwnx.Pq.Heap.{bubble_up-IsHeap, bubble_down-IsHeap}

module _ {ℓ} {A : Type ℓ} (key : A → ℕ) where
  key_at-append :
      (q : List A) (x : A) (c : ℕ) → c < length q → key_at key (q ++ (x ∷ [])) c ≡ key_at key q c
  key_at-append [] x c h = elim h [ ]
  key_at-append (y ∷ q) x zero h = refl
  key_at-append (y ∷ q) x (suc c) h = key_at-append q x c (omega arith)

  key_at-take : (n : ℕ) (q : List A) (c : ℕ) → c < n → key_at key (take n q) c ≡ key_at key q c
  key_at-take zero q c h = elim h [ ]
  key_at-take (suc n) [] c h = refl
  key_at-take (suc n) (x ∷ q) zero h = refl
  key_at-take (suc n) (x ∷ q) (suc c) h = key_at-take n q c (omega arith)

  take-IsHeap : (n : ℕ) (q : List A) → n ≤ length q → IsHeap key q → IsHeap key (take n q)
  take-IsHeap n q h v = λ c x y.
      ground (arith, length-take n q, key_at-take n q c, key_at-take n q ((c - 1) / 2), v c)

  root_below :
      (k : ℕ) (q : List A) (i : ℕ)
      → IsHeap key q
      → i < k
      → i < length q
      → key_at key q 0 ≤ key_at key q i
  root_below zero q i v f h = absurd (omega arith)
  root_below (suc k) q i v f h = ground (arith, v i, root_below k q ((i - 1) / 2) v)

  in_range : (i : ℕ) (q : List A) (x : A) → get_elem? q i ≡ some x → i < length q
  in_range i [] x e = cc e
  in_range zero (y ∷ q) x e = omega arith
  in_range (suc i) (y ∷ q) x e = omega (arith, in_range i q x e)

  module _ (apart : A → Bool) (less : A → A → Bool)
      (by_key : (a b : A)
        → apart a ≡ false
        → apart b ≡ false
        → less a b ≡ ltb (key a) (key b)) where
    pub push-IsHeap :
        (item : A) (q : List A)
        → apart item ≡ false
        → count apart q ≡ 0
        → IsHeap key q
        → IsHeap key (push less item q)
    unfolding push
    push-IsHeap item q a z v =
        let n = length q in
        let size : length (q ++ (item ∷ [])) ≡ suc n = omega (arith, length-append q (item ∷ [])) in
        bubble_up-IsHeap key apart less by_key n n (q ++ (item ∷ []))
          (omega (arith, count-append apart q (item ∷ []), z, ap one a)) (omega arith)
          (record {
            inside = omega (arith, size);
            edges = λ c x y z.
                ground
                  (arith, size, key_at-append q item c, key_at-append q item ((c - 1) / 2), v c);
            bridged = λ c x y z t. absurd (omega (arith, size));
          })

    -- What `move_last` leaves: one entry less, with the last one at `i`.
    module _ (q : List A) (i : ℕ) (h : i < length q) where
      last : (x : A) × (get_elem? q (length q - 1) ≡ some x)
      last = get_elem?-some (λ (x : A). true) (length q - 1) q (omega (arith, h))

      abbrev moved : List A
      moved = move_last less i q

      moved-take : moved ≡ take (length q - 1) (set q i last.0)
      moved-take = rw last.1 refl

      length-moved : length moved ≡ length q - 1
      length-moved = rw moved-take (
          omega (
            arith,
            h,
            length-take (length q - 1) (set q i last.0),
            length-set (λ (x : A). true) q i last.0,
          ))

      key_at-moved :
          (c : ℕ)
          → c < length q - 1
          → key_at key moved c ≡ (if i == c then key_at key q (length q - 1) else key_at key q c)
      key_at-moved c l =
          rw
            (
              moved-take,
              key_at-take (length q - 1) (set q i last.0) c l,
              key_at-set key q i c last.0 h,
              key_at-get_elem? key q (length q - 1) last.0 last.1,
            )
            refl

    pub pop-IsHeap :
        (q : List A) → count apart q ≡ 0 → IsHeap key q → IsHeap key (left_of (pop less q))
    unfolding pop
    pop-IsHeap [] z v = λ c x y. absurd (omega arith)
    pop-IsHeap (e ∷ q) z v =
        let first : 0 < length (e ∷ q) = omega arith in
        let size = length-moved (e ∷ q) 0 first in
        let at = key_at-moved (e ∷ q) 0 first in
        bubble_down-IsHeap key apart less by_key (length q) 0 (move_last less 0 (e ∷ q))
          (omega (arith, count-move_last apart less (e ∷ q) 0 e refl, z)) (omega (arith, size))
          (record {
            edges = λ c x y z. ground (arith, size, at c, at ((c - 1) / 2), v c);
            bridged = λ c x y z t. absurd (omega (arith, t));
          })

    item_less :
        (item : A) (q : List A) (i : ℕ)
        → apart item ≡ false
        → count apart q ≡ 0
        → i < length q
        → less_at less (some item) (get_elem? q i) ≡ ltb (key item) (key_at key q i)
    unfolding less_at
    item_less item q i a z h =
        let (x, e) = get_elem?-some (λ (x : A). true) i q h in
        rw (e, by_key item x a (none_at apart q i x z e), key_at-get_elem? key q i x e) refl

    remove_at-IsHeap :
        (item : A) (i : ℕ) (q : List A)
        → get_elem? q i ≡ some item
        → 0 < i
        → i < length q - 1
        → count apart q ≡ 0
        → IsHeap key q
        → IsHeap key (remove_at less item i q)
    unfolding remove_at
    remove_at-IsHeap item i q e pos inside z v =
        let h : i < length q = omega arith in
        let size = length-moved q i h in
        let at = key_at-moved q i h in
        let it = key_at-get_elem? key q i item e in
        let m = move_last less i q in
        let c0 : count apart m ≡ 0 = omega (arith, count-move_last apart less q i item e, z) in
        let l = item_less item m i (none_at apart q i item z e) c0 (omega (arith, size)) in
        elim (Bool-cases (ltb (key item) (key_at key m i))) [
          | inl t ↦
              rw (l, t)
                (bubble_down-IsHeap key apart less by_key (length m) i m c0 (omega arith) (record {
                  edges = λ c x y z. ground (arith, size, it, at i, at c, at ((c - 1) / 2), v c);
                  bridged = λ c x y z w. ground (arith, size, at c, at ((i - 1) / 2), v c, v i);
                }))
          | inr f ↦
              rw (l, f)
                (bubble_up-IsHeap key apart less by_key i i m c0 (omega arith) (record {
                  inside = omega (arith, size);
                  edges = λ c x y z. ground (arith, size, it, at i, at c, at ((c - 1) / 2), v c);
                  bridged = λ c x y z w. ground (arith, size, at c, at ((i - 1) / 2), v c, v i);
                }))
        ]

    pub remove-IsHeap :
        (item : A) (i : ℕ) (q : List A)
        → get_elem? q i ≡ some item
        → count apart q ≡ 0
        → IsHeap key q
        → IsHeap key (left_of (remove less item i q))
    unfolding remove
    remove-IsHeap item i q e c0 v =
        let h = in_range i q item e in
        elim (Bool-cases (i == 0)) [
          | inl z ↦ rw z (pop-IsHeap q c0 v)
          | inr n ↦ elim (Bool-cases (i == (length q - 1))) [
            | inl l ↦ rw (n, l) (take-IsHeap i q (omega (arith, h)) v)
            | inr k ↦
                rw (n, k) (remove_at-IsHeap item i q e (ground arith) (ground (arith, h)) c0 v)
          ]
        ]

  -- The first entry of a heap has the smallest key of all.
  pub top-least :
      (q : List A) (x y : A) (i : ℕ)
      → IsHeap key q
      → top q ≡ ok x
      → get_elem? q i ≡ some y
      → key x ≤ key y
  unfolding top
  top-least [] x y i v t e = cc t
  top-least (z ∷ q) x y i v t e =
      let same : z ≡ x = cc t in
      let r = root_below (suc i) (z ∷ q) i v (omega arith) (in_range i (z ∷ q) y e) in
      omega (arith, r, ap key same, key_at-get_elem? key (z ∷ q) i y e)
