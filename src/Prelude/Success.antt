-- ===== src/Prelude/Success.antt =====
-- What is true of a call's result if the call succeeds, whatever else it comes to.
use dwnx.Prelude.Outcome.{Error, Result, ok, err, fault, ◌>>=◌, ◌>>◌, guard}
use dwnx.Prelude.NoFault.{Holds}
use dwnx.Prelude.Tests.{if◌then◌else◌}
use mathlib.Core.Path.{◌≡◌, refl}
use mathlib.Core.Bool.{Bool, true, false}

unfoldable pub OnOk {ℓ} : {A : Type ℓ} → (A → Type 0) → Result A → Type 0
OnOk P fault = Unit {0}
OnOk P (err code) = Unit {0}
OnOk P (ok value) = P value

module _ {ℓ κ} {A : Type ℓ} {B : Type κ} (P : A → Type 0) (Q : B → Type 0) where
  pub OnOk-bind :
      (m : Result A) (f : A → Result B)
      → OnOk P m
      → ((a : A) → P a → OnOk Q (f a))
      → OnOk Q (m >>= f)
  unfolding OnOk
  OnOk-bind fault f h k = tt
  OnOk-bind (err code) f h k = tt
  OnOk-bind (ok a) f h k = k a h

  -- A call of which nothing is known.
  pub OnOk-then : (m : Result A) (f : A → Result B) → ((a : A) → OnOk Q (f a)) → OnOk Q (m >>= f)
  unfolding OnOk
  OnOk-then fault f k = tt
  OnOk-then (err code) f k = tt
  OnOk-then (ok a) f k = k a

module _ {ℓ} {A : Type ℓ} (P : A → Type 0) where
  pub OnOk-guard :
      (test : Bool) (code : Error) (m : Result A) → OnOk P m → OnOk P (guard test code >> m)
  unfolding OnOk
  OnOk-guard false code m h = tt
  OnOk-guard true code m h = h

  -- What comes after a test that has been passed.
  pub OnOk-passed :
      (test : Bool) (code : Error) (m : Result A)
      → (test ≡ true → OnOk P m)
      → OnOk P (guard test code >> m)
  unfolding OnOk
  OnOk-passed false code m h = tt
  OnOk-passed true code m h = h refl

  pub OnOk-if :
      (test : Bool) (x y : Result A) → OnOk P x → OnOk P y → OnOk P (if test then x else y)
  unfolding OnOk
  OnOk-if true x y h k = h
  OnOk-if false x y h k = k

  pub OnOk-ok : (a : A) → P a → OnOk P (ok a)
  unfolding OnOk
  OnOk-ok a h = h

  pub OnOk-err : (code : Error) → OnOk P (err code)
  unfolding OnOk
  OnOk-err code = tt

  pub OnOk-all : (m : Result A) → ((a : A) → P a) → OnOk P m
  unfolding OnOk
  OnOk-all fault h = tt
  OnOk-all (err code) h = tt
  OnOk-all (ok a) h = h a

  pub OnOk-map : (Q : A → Type 0) (m : Result A) → ((a : A) → Q a → P a) → OnOk Q m → OnOk P m
  unfolding OnOk
  OnOk-map Q fault f h = tt
  OnOk-map Q (err code) f h = tt
  OnOk-map Q (ok a) f h = f a h

  -- A call that does not fault, and one whose result has one more property.
  pub Holds-and : (Q : A → Type 0) (m : Result A) → Holds P m → OnOk Q m → Holds (λ a. P a × Q a) m
  unfolding Holds OnOk
  Holds-and Q fault h k = h
  Holds-and Q (err code) h k = tt
  Holds-and Q (ok a) h k = (h, k)

  pub Holds-OnOk : (m : Result A) → Holds P m → OnOk P m
  unfolding Holds OnOk
  Holds-OnOk fault h = tt
  Holds-OnOk (err code) h = tt
  Holds-OnOk (ok a) h = h
