-- ===== src/Ratelim/Runs.antt =====
-- A rate limiter of 100 tokens that gains ten in a second.
use dwnx.Prelude.{◌≡◌, arith, Bool, ok}
use dwnx.Ratelim.{Ratelim, update, drain}
use dwnx.Ratelim.Bucket.{IsValid, Follows, level, accrued, spend, update-accrued, drain-spend}

-- Half of its tokens are spent, and half of a token is carried.
abbrev half_full : Ratelim
half_full = record { burst = 100; rate = 10; tokens = 50; carry = 500000000; ts = 1000 }

half_full-IsValid : IsValid half_full
half_full-IsValid = record {
  burst_le = omega arith;
  carry_lt = omega arith;
  level_le = omega arith;
}

update-accrued_example :
    (rlim' : Ratelim) × (update half_full 250001000 ≡ ok rlim')
    × IsValid rlim'
    × Follows half_full 250001000 rlim'
    × (level rlim' ≡ accrued half_full 250000000)
update-accrued_example = update-accrued half_full 250001000 half_full-IsValid (omega arith)

drain-spend_example :
    (done : Bool) × (rlim' : Ratelim) × (drain half_full 52 250001000 ≡ ok (done, rlim'))
    × IsValid rlim'
    × Follows half_full 250001000 rlim'
    × ((done, level rlim') ≡ spend (accrued half_full 250000000) 52)
drain-spend_example = drain-spend half_full 52 250001000 half_full-IsValid (omega arith)
