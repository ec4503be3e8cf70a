-- ===== src/Pq/Keys.antt =====
-- The keys of the entries in the array, what a swap does to them, and the order of the heap.
use dwnx.Prelude.{
  ℕ, zero, suc, ◌-◌, ◌/◌, ◌≤◌, ◌<◌, ◌≡◌, refl, sym, ap, ◌∙◌, arith, List, [], ◌∷◌, true, ◌==◌,
  if◌then◌else◌, length, some,
}
use dwnx.Pq.{get_elem?, set, swap}
use dwnx.Pq.Count.{length-set, get_elem?-some}

module _ {ℓ} {A : Type ℓ} (key : A → ℕ) where
  -- The key of the entry at an index, 0 behind the end.
  abbrev pub key_at : List A → ℕ → ℕ
  key_at [] i = 0
  key_at (x ∷ q) zero = key x
  key_at (x ∷ q) (suc i) = key_at q i

  abbrev pub IsHeap : List A → Type 0
  IsHeap q = (c : ℕ) → 0 < c → c < length q → key_at q ((c - 1) / 2) ≤ key_at q c

  pub key_at-get_elem? : (q : List A) (i : ℕ) (x : A) → get_elem? q i ≡ some x → key_at q i ≡ key x
  key_at-get_elem? [] i x e = cc e
  key_at-get_elem? (y ∷ q) zero x e = let same : y ≡ x = cc e in ap key same
  key_at-get_elem? (y ∷ q) (suc i) x e = key_at-get_elem? q i x e

  pub key_at-set :
      (q : List A) (i j : ℕ) (x : A)
      → i < length q
      → key_at (set q i x) j ≡ (if i == j then key x else key_at q j)
  key_at-set [] i j x h = elim h [ ]
  key_at-set (y ∷ q) zero zero x h = refl
  key_at-set (y ∷ q) (suc i) (suc j) x h = ground (arith, key_at-set q i j x)
  key_at-set (y ∷ q) zero (suc j) x h = ground arith
  key_at-set (y ∷ q) (suc i) zero x h = ground arith

  swap-set :
      (q : List A) (i j : ℕ)
      → i < length q
      → j < length q
      → (a : A) × (b : A) × (swap q i j ≡ set (set q i b) j a)
        × (key a ≡ key_at q i)
        × (key b ≡ key_at q j)
  swap-set q i j h k =
      let (a, e) = get_elem?-some (λ (x : A). true) i q h in
      let (b, f) = get_elem?-some (λ (x : A). true) j q k in
      (a, b, rw (e, f) refl, sym (key_at-get_elem? q i a e), sym (key_at-get_elem? q j b f))

  module _ (q : List A) (i j : ℕ) (h : i < length q) (k : j < length q) where
    pub length-swap : length (swap q i j) ≡ length q
    length-swap =
        let (a, b, e, ka, kb) = swap-set q i j h k in
        rw e (length-set (λ (x : A). true) (set q i b) j a ∙ length-set (λ (x : A). true) q i b)

    pub key_at-swap :
        (c : ℕ)
        → key_at (swap q i j) c
          ≡ (if j == c then key_at q i else if i == c then key_at q j else key_at q c)
    key_at-swap c =
        let (a, b, e, ka, kb) = swap-set q i j h k in
        let long : j < length (set q i b) = omega (arith, length-set (λ (x : A). true) q i b) in
        rw (e, key_at-set (set q i b) j c a long, key_at-set q i c b h, ka, kb) refl
