-- ===== src/Prelude/Tests.antt =====
-- Boolean tests on the native numbers, the conditional, and tables over a byte.
use Prim.Native.Nat.{ℕ, zero, suc, ◌+◌, ◌<◌, ◌≤◌, compare, Ordering, bit_or}
use mathlib.Core.Path.{◌≡◌, refl}
use mathlib.Core.Logic.{◌↔◌, ◌⊎◌, inl, inr}
use mathlib.Core.Bool.{Bool, true, false}
use mathlib.Core.Option.{Option, none, some}
use native.Mathlib.Omega.{arith}

abbrev pub ltb : ℕ → ℕ → Bool
ltb a b = elim (compare a b) [ Ordering.lt ↦ true | _ ↦ false ]

abbrev pub leb : ℕ → ℕ → Bool
leb a b = elim (compare a b) [ Ordering.gt ↦ false | _ ↦ true ]

infix 50 ◌==◌
abbrev pub ◌==◌ : ℕ → ℕ → Bool
a == b = elim (compare a b) [ Ordering.eq ↦ true | _ ↦ false ]

infix 1 if◌then◌else◌
abbrev pub if◌then◌else◌ {ℓ} : {A : Type ℓ} → Bool → A → A → A
if true then x else y = x
if false then x else y = y

pub lt→ltb : (a b : ℕ) → a < b → ltb a b ≡ true
lt→ltb a b h = ground arith

pub le→leb : (a b : ℕ) → a ≤ b → leb a b ≡ true
le→leb a b h = ground arith

pub lt→leb : (a b : ℕ) → a < b → leb b a ≡ false
lt→leb a b h = ground arith

pub leb→le : (a b : ℕ) → leb a b ≡ true → a ≤ b
leb→le a b h = ground arith

pub ==_iff : (a b : ℕ) → ((a == b) ≡ true) ↔ (a ≡ b)
==_iff a b = ground arith

pub Bool-cases : (b : Bool) → (b ≡ true) ⊎ (b ≡ false)
Bool-cases true = inl refl
Bool-cases false = inr refl

pub Option-cases {ℓ} : {A : Type ℓ} (o : Option A) → (o ≡ none) ⊎ ((a : A) × (o ≡ some a))
Option-cases none = inl refl
Option-cases (some a) = inr (a, refl)

-- A test of the numbers below `limit`, run on each of them.
unfoldable pub passes : (ℕ → Bool) → ℕ → Bool
passes test zero = true
passes test (suc limit) = if test limit then passes test limit else false

pub passes-below :
    (test : ℕ → Bool) (limit n : ℕ) → n < limit → passes test limit ≡ true → test n ≡ true
unfolding passes
passes-below test zero n below e = elim below [ ]
passes-below test (suc limit) n below e = ground (arith, passes-below test limit n)

or_0x40_table : passes (λ b. bit_or b 0x40 == (b + 64)) 64 ≡ true
unfolding passes
or_0x40_table = refl

or_0x80_table : passes (λ b. bit_or b 0x80 == (b + 128)) 64 ≡ true
unfolding passes
or_0x80_table = refl

or_0xc0_table : passes (λ b. bit_or b 0xc0 == (b + 192)) 64 ≡ true
unfolding passes
or_0xc0_table = refl

-- The two top bits of a byte, set by `|=` where they are clear.
pub or_0x40 : (b : ℕ) → b < 64 → bit_or b 0x40 ≡ b + 64
or_0x40 b h = (==_iff _ _).0 (passes-below _ 64 b h or_0x40_table)

pub or_0x80 : (b : ℕ) → b < 64 → bit_or b 0x80 ≡ b + 128
or_0x80 b h = (==_iff _ _).0 (passes-below _ 64 b h or_0x80_table)

pub or_0xc0 : (b : ℕ) → b < 64 → bit_or b 0xc0 ≡ b + 192
or_0xc0 b h = (==_iff _ _).0 (passes-below _ 64 b h or_0xc0_table)

-- What holds of both branches holds of an `if`.
pub if_intro {ℓ κ} :
    {A : Type ℓ} (P : A → Type κ) (b : Bool) (x y : A)
    → (b ≡ true → P x)
    → (b ≡ false → P y)
    → P (if b then x else y)
if_intro P true x y h k = h refl
if_intro P false x y h k = k refl
