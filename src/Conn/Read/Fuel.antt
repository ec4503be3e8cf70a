-- ===== src/Conn/Read/Fuel.antt =====
-- The fuel of the loop of dwnx_conn_read.
use dwnx.Prelude.{
  ℕ, zero, suc, ◌≤◌, ◌≡◌, refl, arith, Bool, true, false, if◌then◌else◌, length, none, Result, ok,
  err, fault, ◌>>=◌, ◌≢◌, Holds,
}
use dwnx.Conn.Read.{Reading, Flow, returns, again, at_end}
use dwnx.Conn.Read.Loop.{cases, go_on, rounds}
use dwnx.Conn.Read.Invariant.{IsBase, IsReading, Fits, Outcome}
use dwnx.Conn.Read.LoopEnds.{cases-Ends, at_end-more, End, rounds-End}

Holds-cong {ℓ κ} :
    {A : Type ℓ} {B : Type κ} (P : A → Type 0) (m : Result A) (f g : A → Result B)
    → Holds P m
    → ((a : A) → P a → f a ≡ g a)
    → (m >>= f) ≡ (m >>= g)
unfolding Holds
Holds-cong P fault f g h k = refl
Holds-cong P (err code) f g h k = refl
Holds-cong P (ok a) f g h k = k a h

Holds-ne-fault {ℓ} : {A : Type ℓ} (P : A → Type 0) (m : Result A) → Holds P m → m ≢ fault
unfolding Holds
Holds-ne-fault P fault h e = h
Holds-ne-fault P (err code) h e = cc e
Holds-ne-fault P (ok a) h e = cc e

if_cong {ℓ} :
    {A : Type ℓ} (b : Bool) (x y z : A)
    → (b ≡ false → y ≡ z)
    → (if b then x else y) ≡ (if b then x else z)
if_cong true x y z h = refl
if_cong false x y z h = h refl

any_fuel :
    (a b ts : ℕ) (r : Reading)
    → IsBase ts r
    → Fits r.rcrd.state r
    → length r.p ≤ a
    → length r.p ≤ b
    → rounds a ts r ≡ rounds b ts r
unfolding rounds
any_fuel zero zero ts r i f h k = refl
any_fuel zero (suc b) ts r i f h k =
    if_cong (at_end r.p) (ok (none, r)) fault (cases ts r.rcrd.state r >>= go_on (rounds b ts))
      (λ e. absurd (omega (arith, at_end-more r.p e)))
any_fuel (suc a) zero ts r i f h k =
    if_cong (at_end r.p) (ok (none, r)) (cases ts r.rcrd.state r >>= go_on (rounds a ts)) fault
      (λ e. absurd (omega (arith, at_end-more r.p e)))
any_fuel (suc a) (suc b) ts r i f h k =
    if_cong (at_end r.p) (ok (none, r)) (cases ts r.rcrd.state r >>= go_on (rounds a ts))
      (cases ts r.rcrd.state r >>= go_on (rounds b ts))
      (λ e.
        Holds-cong (Outcome (length r.p) ts) (cases ts r.rcrd.state r) (go_on (rounds a ts))
          (go_on (rounds b ts))
          (cases-Ends (length r.p) ts r i (at_end-more r.p e) (omega arith) r.rcrd.state refl f)
          (goes (λ r' i' f' h' k'. any_fuel a b ts r' i' f' h' k')))
  where
    goes :
        ((r' : Reading)
          → IsBase ts r'
          → Fits r'.rcrd.state r'
          → length r'.p ≤ a
          → length r'.p ≤ b
          → rounds a ts r' ≡ rounds b ts r')
        → (o : Flow) → Outcome (length r.p) ts o
        → go_on (rounds a ts) o ≡ go_on (rounds b ts) o
    goes rec (returns code r') o = refl
    goes rec (again r') o = rec r' o.0 o.1 (omega (arith, o.2)) (omega (arith, o.2))

-- On a reader and a connection in order, the loop ends: with any two fuels that are no less than the bytes
-- to be read it comes to the same, and never to the end of the fuel.
pub rounds-enough :
    (a b : ℕ) (r : Reading)
    → IsReading r
    → length r.p ≤ a
    → length r.p ≤ b
    → (rounds a r.last_ts r ≡ rounds b r.last_ts r) × (rounds a r.last_ts r ≢ fault)
rounds-enough a b r i h k = (
  any_fuel a b r.last_ts r i.0 i.1 h k,
  Holds-ne-fault (End r.last_ts) (rounds a r.last_ts r) (rounds-End a r.last_ts r i.0 i.1 h),
)
