-- ===== src/Prelude/NoFault.antt =====
-- What is true of a call's result, if the call does not fail, where it does not fault at all: every
-- assertion in it holds.
use dwnx.Prelude.Outcome.{Error, Result, ok, err, fault, ◌>>=◌, ◌>>◌, guard, check}
use dwnx.Prelude.Tests.{if◌then◌else◌}
use mathlib.Core.Path.{◌≡◌, refl, sym, subst}
use mathlib.Core.Bool.{Bool, true, false}

unfoldable pub Holds {ℓ} : {A : Type ℓ} → (A → Type 0) → Result A → Type 0
Holds P fault = ⊥
Holds P (err code) = Unit {0}
Holds P (ok value) = P value

module _ {ℓ κ} {A : Type ℓ} {B : Type κ} (P : A → Type 0) (Q : B → Type 0) where
  pub Holds-bind :
      (m : Result A) (f : A → Result B)
      → Holds P m
      → ((a : A) → P a → Holds Q (f a))
      → Holds Q (m >>= f)
  unfolding Holds
  Holds-bind fault f h k = h
  Holds-bind (err code) f h k = tt
  Holds-bind (ok a) f h k = k a h

module _ {ℓ} {A : Type ℓ} (P : A → Type 0) where
  pub Holds-guard :
      (test : Bool) (code : Error) (m : Result A)
      → (test ≡ true → Holds P m)
      → Holds P (guard test code >> m)
  unfolding Holds
  Holds-guard false code m h = tt
  Holds-guard true code m h = h refl

  pub Holds-check :
      (test : Bool) (m : Result A) → test ≡ true → Holds P m → Holds P (check test >> m)
  unfolding Holds
  Holds-check test m e h = subst (λ b. Holds P (check b >> m)) (sym e) h

  pub Holds-if :
      (test : Bool) (x y : Result A)
      → (test ≡ true → Holds P x)
      → (test ≡ false → Holds P y)
      → Holds P (if test then x else y)
  unfolding Holds
  Holds-if true x y h k = h refl
  Holds-if false x y h k = k refl

  pub Holds-map : (Q : A → Type 0) (m : Result A) → Holds Q m → ((a : A) → Q a → P a) → Holds P m
  unfolding Holds
  Holds-map Q fault h f = h
  Holds-map Q (err code) h f = tt
  Holds-map Q (ok a) h f = f a h

  -- A call that does not fail, and one that does.
  pub Holds-ok : (a : A) → P a → Holds P (ok a)
  unfolding Holds
  Holds-ok a h = h

  pub Holds-err : (code : Error) → Holds P (err code)
  unfolding Holds
  Holds-err code = tt

  pub Holds-result : (m : Result A) (a : A) → Holds P m → m ≡ ok a → P a
  unfolding Holds
  Holds-result fault a h e = absurd h
  Holds-result (err code) a h e = cc e
  Holds-result (ok b) a h e = subst P (cc e) h
