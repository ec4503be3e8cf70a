-- ===== src/Pq/Heap.antt =====
-- Going up and going down restore the order of the heap.
use dwnx.Prelude.{
  ℕ, zero, suc, ◌+◌, ◌-◌, ◌*◌, ◌/◌, ◌≤◌, ◌<◌, ◌≡◌, ◌≢◌, ◌⊎◌, refl, sym, ◌∙◌, arith, List, [], ◌∷◌,
  Bool, true, false, ◌&&◌, ltb, ◌==◌, if◌then◌else◌, length, Option,
}
use dwnx.Prelude.{Bool-cases, inl, inr, ==_iff, false≢true}
use dwnx.Pq.{get_elem?, swap, less_at, bubble_up, bubble_down, smaller}
use dwnx.Pq.Count.{get_elem?-some, count, count-swap, none_at}
use dwnx.Pq.Keys.{key_at, IsHeap, key_at-get_elem?, length-swap, key_at-swap}

module _ {ℓ} {A : Type ℓ} (key : A → ℕ) where
  -- Only the edge above `i` may be out of order.
  pub record UpInv (q : List A) (i : ℕ) : Type 0 where
    pub inside : i < length q
    pub edges : (c : ℕ) → 0 < c → c < length q → c ≢ i → key_at key q ((c - 1) / 2) ≤ key_at key q c
    pub bridged :
        (c : ℕ)
        → 0 < c
        → c < length q
        → (c - 1) / 2 ≡ i
        → 0 < i
        → key_at key q ((i - 1) / 2) ≤ key_at key q c

  -- Only the edges below `i` may be out of order.
  pub record DownInv (q : List A) (i : ℕ) : Type 0 where
    pub edges :
        (c : ℕ)
        → 0 < c
        → c < length q
        → (c - 1) / 2 ≢ i
        → key_at key q ((c - 1) / 2) ≤ key_at key q c
    pub bridged :
        (c : ℕ)
        → 0 < c
        → c < length q
        → (c - 1) / 2 ≡ i
        → 0 < i
        → key_at key q ((i - 1) / 2) ≤ key_at key q c

  swap-UpInv :
      (q : List A) (i : ℕ)
      → UpInv q i
      → 0 < i
      → key_at key q i < key_at key q ((i - 1) / 2)
      → UpInv (swap q ((i - 1) / 2) i) ((i - 1) / 2)
  swap-UpInv q i v pos below =
      let p = (i - 1) / 2 in
      let above : p < length q = omega (arith, v.inside) in
      let size = length-swap key q p i above v.inside in
      let at = key_at-swap key q p i above v.inside in
      record {
        inside = omega (arith, size);
        edges = λ c x y z. ground (arith, size, at c, at ((c - 1) / 2), v.edges c, v.bridged c);
        bridged = λ c x y z t. ground (arith, size, at c, at ((p - 1) / 2), v.edges c, v.edges p);
      }

  -- The comparison is one of keys, except for the entries that `apart` picks out.
  module _ (apart : A → Bool) (less : A → A → Bool)
      (by_key : (a b : A)
        → apart a ≡ false
        → apart b ≡ false
        → less a b ≡ ltb (key a) (key b)) where
    less_at-ltb :
        (q : List A) (i j : ℕ)
        → count apart q ≡ 0
        → i < length q
        → j < length q
        → less_at less (get_elem? q i) (get_elem? q j) ≡ ltb (key_at key q i) (key_at key q j)
    unfolding less_at
    less_at-ltb q i j z h k =
        let (a, e) = get_elem?-some (λ (x : A). true) i q h in
        let (b, f) = get_elem?-some (λ (x : A). true) j q k in
        rw
          (
            e,
            f,
            by_key a b (none_at apart q i a z e) (none_at apart q j b z f),
            key_at-get_elem? key q i a e,
            key_at-get_elem? key q j b f,
          )
          refl

    less_at-end :
        (q : List A) (j : ℕ) (o : Option A) → length q ≤ j → less_at less (get_elem? q j) o ≡ false
    unfolding less_at
    less_at-end [] j o h = refl
    less_at-end (x ∷ q) zero o h = absurd (omega arith)
    less_at-end (x ∷ q) (suc j) o h = less_at-end q j o (omega arith)

    pub bubble_up-IsHeap :
        (rounds index : ℕ) (q : List A)
        → count apart q ≡ 0
        → index ≤ rounds
        → UpInv q index
        → IsHeap key (bubble_up less rounds index q)
    unfolding bubble_up
    bubble_up-IsHeap zero index q c0 h v = λ c x y. v.edges c x y (omega arith)
    bubble_up-IsHeap (suc rounds) index q c0 h v = elim (Bool-cases (index == 0)) [
      | inl z ↦ rw z (λ c x y. v.edges c x y (ground arith))
      | inr n ↦
          let p = (index - 1) / 2 in
          let l = less_at-ltb q index p c0 v.inside (omega (arith, v.inside)) in
          rw n (elim (Bool-cases (ltb (key_at key q index) (key_at key q p))) [
            | inl t ↦
                rw (l, t)
                  (bubble_up-IsHeap rounds p (swap q p index) (count-swap apart q p index ∙ c0)
                    (ground arith) (swap-UpInv q index v (ground arith) (ground arith)))
            | inr f ↦ rw (l, f) (λ c x y. ground (arith, v.edges c))
          ])
    ]

    -- `m` is `i`, or the child of `i` with the smallest key.
    record IsSmallest (q : List A) (i m : ℕ) : Type 0 where
      place : (m ≡ i) ⊎ ((m ≡ i * 2 + 1) ⊎ (m ≡ i * 2 + 2))
      inside : m < length q
      not_above : key_at key q m ≤ key_at key q i
      below : m ≢ i → key_at key q m < key_at key q i
      least : (c : ℕ) → 0 < c → c < length q → (c - 1) / 2 ≡ i → key_at key q m ≤ key_at key q c

    child_cases : (c i : ℕ) → 0 < c → (c - 1) / 2 ≡ i → (c ≡ i * 2 + 1) ⊎ (c ≡ i * 2 + 1 + 1)
    child_cases c i h e = omega arith

    smaller-ltb :
        (q : List A) (j m : ℕ)
        → count apart q ≡ 0
        → m < length q
        → smaller less j m q
          ≡ (if ltb j (length q) && ltb (key_at key q j) (key_at key q m) then j else m)
    unfolding smaller
    smaller-ltb q j m z h = elim (Bool-cases (ltb j (length q))) [
      | inl t ↦ rw (less_at-ltb q j m z (ground arith) h, t) refl
      | inr f ↦ rw (less_at-end q j (get_elem? q m) (ground arith), f) refl
    ]

    abbrev minindex : List A → ℕ → ℕ
    minindex q i = smaller less (i * 2 + 1 + 1) (smaller less (i * 2 + 1) i q) q

    minindex-IsSmallest :
        (q : List A) (i : ℕ) → count apart q ≡ 0 → i < length q → IsSmallest q i (minindex q i)
    minindex-IsSmallest q i z h =
        let m = smaller less (i * 2 + 1) i q in
        let e = smaller-ltb q (i * 2 + 1) i z h in
        let inside : m < length q = ground (arith, e) in
        let f = smaller-ltb q (i * 2 + 1 + 1) m z inside in
        record {
          place = ground (arith, e, f);
          inside = ground (arith, e, f);
          not_above = ground (arith, e, f);
          below = ground (arith, e, f);
          least = λ c x y z. elim (child_cases c i x z) [
            | inl k ↦ rw k (ground (arith, e, f))
            | inr k ↦ rw k (ground (arith, e, f))
          ];
        }

    swap-DownInv :
        (q : List A) (i m : ℕ)
        → i < length q
        → DownInv q i
        → IsSmallest q i m
        → m ≢ i
        → DownInv (swap q i m) m
    swap-DownInv q i m h v s n =
        let size = length-swap key q i m h s.inside in
        let at = key_at-swap key q i m h s.inside in
        let under = s.below n in
        record {
          edges = λ c x y z. ground (
            arith,
            size,
            s.place,
            under,
            at c,
            at ((c - 1) / 2),
            v.edges c,
            v.bridged m,
            s.least c,
          );
          bridged =
              λ c x y z t. ground (arith, size, s.place, under, at c, at ((m - 1) / 2), v.edges c);
        }

    settled : (q : List A) (i m : ℕ) → DownInv q i → IsSmallest q i m → m ≡ i → IsHeap key q
    settled q i m v s same c x y = elim (Bool-cases (((c - 1) / 2) == i)) [
      | inl t ↦
          let p : (c - 1) / 2 ≡ i = (==_iff ((c - 1) / 2) i).0 t in
          rw (p, sym same) (s.least c x y p)
      | inr f ↦ v.edges c x y (λ p. false≢true (sym f ∙ (==_iff ((c - 1) / 2) i).1 p))
    ]

    smaller-end : (q : List A) (j m : ℕ) → length q ≤ j → smaller less j m q ≡ m
    unfolding smaller
    smaller-end q j m h = rw (less_at-end q j (get_elem? q m) h) refl

    pub bubble_down-IsHeap :
        (rounds index : ℕ) (q : List A)
        → count apart q ≡ 0
        → length q ≤ rounds + index
        → DownInv q index
        → IsHeap key (bubble_down less rounds index q)
    unfolding bubble_down
    bubble_down-IsHeap zero index q c0 h v = λ c x y. v.edges c x y (omega arith)
    bubble_down-IsHeap (suc rounds) index q c0 h v = elim (Bool-cases (ltb index (length q))) [
      | inl inside ↦
          let i : index < length q = ground arith in
          let m = minindex q index in
          let s = minindex-IsSmallest q index c0 i in
          elim (Bool-cases (m == index)) [
            | inl e ↦ rw e (λ c x y. settled q index m v s ((==_iff m index).0 e) c x y)
            | inr n ↦
                let other : m ≢ index = ground arith in
                let size = length-swap key q index m i s.inside in
                rw n (
                  bubble_down-IsHeap rounds m (swap q index m) (count-swap apart q index m ∙ c0)
                    (ground (arith, size, s.place)) (swap-DownInv q index m i v s other))
          ]
      | inr outside ↦
          rw
            (
              smaller-end q (index * 2 + 1) index (ground arith),
              smaller-end q (index * 2 + 1 + 1) index (ground arith),
              (==_iff index index).1 refl,
            )
            (λ c x y. v.edges c x y (ground arith))
    ]
