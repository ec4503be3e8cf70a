-- ===== src/Prelude/Outcome.antt =====
-- What a C call of the library can come to. `err` is a negative return value; `fault` is behaviour
-- that C leaves undefined or that stops the program: a read out of bounds, a failed `assert`,
-- `dwnx_unreachable`.
use mathlib.Core.Bool.{Bool, true, false}

-- The DWNX_ERR_* codes of includes/dwnx/dwnx.h. `failure` is the plain -1 of static helpers.
pub data Error : Type 0 where
  invalid_argument nobuf proto invalid_state stream_id_blocked stream_in_use : Error
  stream_data_blocked flow_control stream_limit final_size required_transport_param : Error
  malformed_transport_param frame_encoding stream_shut_wr stream_not_found stream_state : Error
  closing draining transport_param internal write_more idle_close : Error
  fatal nomem callback_failure : Error
  failure : Error

pub data Result {ℓ} (A : Type ℓ) : Type ℓ where
  fault : Result A
  err : Error → Result A
  ok : A → Result A

module _ {ℓ κ} {A : Type ℓ} {B : Type κ} where
  infixl 5 ◌>>=◌
  -- The next call, unless the last one failed.
  abbrev pub ◌>>=◌ : Result A → (A → Result B) → Result B
  fault >>= next = fault
  err code >>= next = err code
  ok value >>= next = next value

module _ {ℓ} {A : Type ℓ} where
  infixl 5 ◌>>◌
  abbrev pub ◌>>◌ : Result (Unit {0}) → Result A → Result A
  test >> next = test >>= (λ passed. next)

-- `if (!test) return code;`
abbrev pub guard : Bool → Error → Result (Unit {0})
guard false code = err code
guard true code = ok tt

-- `assert(test);`
abbrev pub check : Bool → Result (Unit {0})
check true = ok tt
check false = fault

-- `if (call != 0) return e;`
abbrev pub on_error {ℓ} : {A : Type ℓ} → Error → Result A → Result A
on_error e (ok a) = ok a
on_error e (err x) = err e
on_error e fault = fault
