-- ===== src/Ratelim.antt =====
-- lib/dwnx_ratelim.c: a token bucket over a clock in nanoseconds, on 64-bit numbers.
pub mod Bucket
mod Runs
use dwnx.Prelude.{ℕ, ◌+◌, ◌*◌, ◌-◌, ◌/◌, ◌%◌, ◌^◌, min, Bool, true, false, ◌&&◌}
use dwnx.Prelude.{if◌then◌else◌, ltb, leb, ◌==◌, Result, ok, ◌>>◌, ◌>>=◌, check}

abbrev pub seconds : ℕ
seconds = 1000000000

abbrev pub uint64_max : ℕ
uint64_max = 2 ^ 64 - 1

abbrev pub max_burst : ℕ
max_burst = uint64_max / seconds

pub record Ratelim : Type 0 where
  pub burst : ℕ
  pub rate : ℕ
  pub tokens : ℕ
  pub carry : ℕ
  pub ts : ℕ

pub init : ℕ → ℕ → ℕ → Ratelim
init burst rate ts =
    let burst = min burst max_burst in
    record { burst = burst; rate = rate; tokens = burst; carry = 0; ts = ts }

-- The bucket gets full.
abbrev fill : Ratelim → Ratelim
fill rlim = record rlim { tokens = rlim.burst; carry = 0 }

-- The branch where the gain fits in 64 bits.
gained : Ratelim → ℕ → Ratelim
gained rlim d =
    let gain = (rlim.rate * d % 2 ^ 64 + rlim.carry) % 2 ^ 64 in
    let gps = gain / seconds in
    if ltb gps rlim.burst && ltb rlim.tokens (rlim.burst - gps)
    then record rlim { tokens = (rlim.tokens + gps) % 2 ^ 64; carry = gain % seconds }
    else fill rlim

-- ratelim_update behind its assertion.
pub updated : Ratelim → ℕ → Ratelim
unfolding gained
updated rlim ts =
    if ts == rlim.ts
    then rlim
    else let d = ts - rlim.ts in
      let later = record rlim { ts = ts } in
      if leb rlim.rate ((uint64_max - rlim.carry) / d) then gained later d else fill later

pub update : Ratelim → ℕ → Result Ratelim
update rlim ts = do check (leb rlim.ts ts); ok (updated rlim ts)

-- 0 is `true`, and -1 is `false`.
take_tokens : Ratelim → ℕ → Bool × Ratelim
take_tokens rlim n =
    if ltb rlim.tokens n then (false, rlim) else (true, record rlim { tokens = rlim.tokens - n })

pub drain : Ratelim → ℕ → ℕ → Result (Bool × Ratelim)
unfolding take_tokens
drain rlim n ts = do rlim ← update rlim ts; ok (take_tokens rlim n)
