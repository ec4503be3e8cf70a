-- ===== src/Conn/Strms.antt =====
-- The map of the streams: what holds of each of them is kept when one of them is replaced or removed.
use dwnx.Prelude.{
  ℕ, ◌≡◌, ◌≢◌, refl, sym, ap, ◌∙◌, List, [], ◌∷◌, Bool, true, false, false≢true, if◌then◌else◌, All,
  subst, Option, some, ◌==◌, ==_iff, Bool-cases, inl, inr,
}
use dwnx.Strm.{Strm}
use dwnx.Conn.{find, replace, without_strm, absent}

-- No stream ID stands twice.
abbrev pub Unique : List Strm → Type 0
Unique [] = Unit {0}
Unique (strm ∷ strms) = (absent (find strm.stream_id strms) ≡ true) × Unique strms

module _ (P : Strm → Type 0) where
  pub find-All :
      (id : ℕ) (strms : List Strm) (strm : Strm)
      → All P strms
      → find id strms ≡ some strm
      → P strm × (strm.stream_id ≡ id)
  find-All id [] strm a e = cc e
  find-All id (s ∷ strms) strm a e = elim (Bool-cases (s.stream_id == id)) [
    | inl t ↦
        let same : s ≡ strm = cc (t, e) in
        subst (λ s. P s × (s.stream_id ≡ id)) same (a.0, (==_iff s.stream_id id).0 t)
    | inr f ↦ find-All id strms strm a.1 (cc (f, e))
  ]

differ : (a b : ℕ) → (a == b) ≡ false → a ≢ b
differ a b f p = false≢true (sym f ∙ (==_iff a b).1 p)

equal : (a b : ℕ) → (a == b) ≡ true → a ≡ b
equal a b t = (==_iff a b).0 t

module _ (P Q : Strm → Type 0) (id : ℕ) (step : (s : Strm) → s.stream_id ≢ id → P s → Q s) where
  pub All-absent : (strms : List Strm) → absent (find id strms) ≡ true → All P strms → All Q strms
  All-absent [] e a = tt
  All-absent (s ∷ strms) e a = elim (Bool-cases (s.stream_id == id)) [
    | inl t ↦ cc (t, e)
    | inr f ↦ (step s (differ s.stream_id id f) a.0, All-absent strms (cc (f, e)) a.1)
  ]

  pub All-replace :
      (strms : List Strm) (strm : Strm)
      → strm.stream_id ≡ id
      → Unique strms
      → All P strms
      → Q strm
      → All Q (replace strm strms)
  All-replace [] strm e u a q = tt
  All-replace (s ∷ strms) strm e u a q = elim (Bool-cases (s.stream_id == strm.stream_id)) [
    | inl t ↦
        let same = equal s.stream_id strm.stream_id t ∙ e in
        rw t (q, All-absent strms (subst (λ n. absent (find n strms) ≡ true) same u.0) a.1)
    | inr f ↦ rw f (
      step s (λ p. differ s.stream_id strm.stream_id f (p ∙ sym e)) a.0,
      All-replace strms strm e u.1 a.1 q,
    )
  ]

  pub All-remove : (strms : List Strm) → Unique strms → All P strms → All Q (without_strm id strms)
  All-remove [] u a = tt
  All-remove (s ∷ strms) u a = elim (Bool-cases (s.stream_id == id)) [
    | inl t ↦
        let same = equal s.stream_id id t in
        rw t (All-absent strms (subst (λ n. absent (find n strms) ≡ true) same u.0) a.1)
    | inr f ↦ rw f (step s (differ s.stream_id id f) a.0, All-remove strms u.1 a.1)
  ]

pub find-replace :
    (id : ℕ) (strm : Strm) (strms : List Strm)
    → absent (find id (replace strm strms)) ≡ absent (find id strms)
find-replace id strm [] = refl
find-replace id strm (s ∷ strms) = elim (Bool-cases (s.stream_id == strm.stream_id)) [
  | inl t ↦ rw t (
      ap (λ (n : ℕ). absent (if n == id then some strm else find id strms))
        (sym (equal s.stream_id strm.stream_id t))
      ∙ either (s.stream_id == id) strm s (find id strms))
  | inr f ↦ rw f (
      behind (s.stream_id == id) (find id (replace strm strms)) (find id strms)
        (find-replace id strm strms))
]
  where
    either :
        (b : Bool) (x y : Strm) (o : Option Strm)
        → absent (if b then some x else o) ≡ absent (if b then some y else o)
    either true x y o = refl
    either false x y o = refl

    behind :
        (b : Bool) (o o' : Option Strm)
        → absent o ≡ absent o'
        → absent (if b then some s else o) ≡ absent (if b then some s else o')
    behind true o o' e = refl
    behind false o o' e = e

pub Unique-replace : (strm : Strm) (strms : List Strm) → Unique strms → Unique (replace strm strms)
Unique-replace strm [] u = tt
Unique-replace strm (s ∷ strms) u = elim (Bool-cases (s.stream_id == strm.stream_id)) [
  | inl t ↦
      let same = equal s.stream_id strm.stream_id t in
      rw t (subst (λ n. absent (find n strms) ≡ true) same u.0, u.1)
  | inr f ↦ rw f (find-replace s.stream_id strm strms ∙ u.0, Unique-replace strm strms u.1)
]

pub find-remove-other :
    (id id' : ℕ) (strms : List Strm) → id ≢ id' → find id (without_strm id' strms) ≡ find id strms
find-remove-other id id' [] n = refl
find-remove-other id id' (s ∷ strms) n = elim (Bool-cases (s.stream_id == id')) [
  | inl t ↦ rw (t, other s.stream_id (λ e. n (sym e ∙ equal s.stream_id id' t))) refl
  | inr f ↦
      rw f (ap (λ o. if s.stream_id == id then some s else o) (find-remove-other id id' strms n))
]
  where
    other : (a : ℕ) → a ≢ id → (a == id) ≡ false
    other a m = elim (Bool-cases (a == id)) [ inl t ↦ absurd (m (equal a id t)) | inr f ↦ f ]

find-remove :
    (id id' : ℕ) (strms : List Strm)
    → absent (find id strms) ≡ true
    → absent (find id (without_strm id' strms)) ≡ true
find-remove id id' [] e = refl
find-remove id id' (s ∷ strms) e = elim (Bool-cases (s.stream_id == id)) [
  | inl t ↦ cc (t, e)
  | inr f ↦ elim (Bool-cases (s.stream_id == id')) [
    | inl t' ↦ rw t' (cc (f, e))
    | inr f' ↦ rw (f', f) (find-remove id id' strms (cc (f, e)))
  ]
]

pub Unique-remove : (id : ℕ) (strms : List Strm) → Unique strms → Unique (without_strm id strms)
Unique-remove id [] u = tt
Unique-remove id (s ∷ strms) u = elim (Bool-cases (s.stream_id == id)) [
  | inl t ↦ rw t u.1
  | inr f ↦ rw f (find-remove s.stream_id id strms u.0, Unique-remove id strms u.1)
]
