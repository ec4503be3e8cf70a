-- ===== src/Ratelim/Bucket.antt =====
-- The rate limiter as an ideal bucket that is measured in parts of a token, a second's worth of
-- nanoseconds to each token: it gains `rate` parts in a nanosecond up to the burst, with no overflow.
use dwnx.Prelude.{
  ◌⊎◌, inl, inr, ◌==◌, ℕ, ◌+◌, ◌*◌, ◌-◌, ◌/◌, ◌≤◌, ◌<◌, ◌≡◌, refl, min, arith, Bool, true, false,
}
use dwnx.Prelude.{if◌then◌else◌, leb, ok}
use native.Mathlib.Nat.{le-div_iff_mul-le}
use dwnx.Prelude.{==_iff, sym, ap, ◌∙◌, le→leb}
use dwnx.Ratelim.{
  Ratelim, take_tokens, fill, gained, init, updated, update, drain, seconds, max_burst, uint64_max,
}

-- The parts in the bucket, and the parts that it has room for.
abbrev pub level : Ratelim → ℕ
level rlim = rlim.tokens * seconds + rlim.carry

abbrev pub capacity : Ratelim → ℕ
capacity rlim = rlim.burst * seconds

pub record IsValid (rlim : Ratelim) : Type 0 where
  pub burst_le : rlim.burst ≤ max_burst
  pub carry_lt : rlim.carry < seconds
  pub level_le : level rlim ≤ capacity rlim

-- The bucket `d` nanoseconds later.
abbrev pub accrued : Ratelim → ℕ → ℕ
accrued rlim d = min (capacity rlim) (level rlim + rlim.rate * d)

-- What `update` and `drain` leave as it is, and the clock.
pub record Follows (rlim : Ratelim) (ts : ℕ) (rlim' : Ratelim) : Type 0 where
  pub same_burst : rlim'.burst ≡ rlim.burst
  pub same_rate : rlim'.rate ≡ rlim.rate
  pub now : rlim'.ts ≡ ts

-- A new bucket is valid and full, with a burst that is cut to DWNX_RATELIM_MAX_BURST.
pub init-IsValid :
    (burst rate ts : ℕ)
    → IsValid (init burst rate ts) × (level (init burst rate ts) ≡ min burst max_burst * seconds)
unfolding init
init-IsValid burst rate ts =
    (record { burst_le = omega arith; carry_lt = omega arith; level_le = omega arith }, omega arith)

pub init-ts : (burst rate ts : ℕ) → (init burst rate ts).ts ≡ ts
unfolding init
init-ts burst rate ts = refl

-- What an update of `d` nanoseconds does to the bucket.
record Gains (rlim : Ratelim) (d : ℕ) (rlim' : Ratelim) : Type 0 where
  valid : IsValid rlim'
  exact : level rlim' ≡ accrued rlim d
  same_burst : rlim'.burst ≡ rlim.burst
  same_rate : rlim'.rate ≡ rlim.rate
  same_ts : rlim'.ts ≡ rlim.ts

fill-Gains :
    (rlim : Ratelim) (d : ℕ)
    → IsValid rlim
    → capacity rlim ≤ level rlim + rlim.rate * d
    → Gains rlim d (fill rlim)
fill-Gains rlim d v h = record {
  valid = record { burst_le = v.burst_le; carry_lt = omega arith; level_le = omega arith };
  exact = omega arith;
  same_burst = refl;
  same_rate = refl;
  same_ts = refl;
}

gained-Gains :
    (rlim : Ratelim) (d : ℕ)
    → IsValid rlim
    → rlim.rate * d + rlim.carry ≤ uint64_max
    → Gains rlim d (gained rlim d)
unfolding gained
gained-Gains rlim d v h = record {
  valid = record { burst_le = ground arith; carry_lt = ground arith; level_le = ground arith };
  exact = ground arith;
  same_burst = ground arith;
  same_rate = ground arith;
  same_ts = ground arith;
}

-- The test before the multiplication tells whether the gain fits in 64 bits.
fits_test :
    (rate carry d : ℕ)
    → 0 < d
    → carry ≤ uint64_max
    → (leb rate ((uint64_max - carry) / d) ≡ leb (rate * d + carry) uint64_max)
fits_test rate carry d h c =
    ground (arith, le-div_iff_mul-le {k = d} {x = rate} {y = uint64_max - carry} h)

if_fits :
    (b : Bool) (rlim : Ratelim) (d : ℕ)
    → IsValid rlim
    → leb (rlim.rate * d + rlim.carry) uint64_max ≡ b
    → Gains rlim d (if b then gained rlim d else fill rlim)
if_fits true rlim d v e = gained-Gains rlim d v (ground arith)
if_fits false rlim d v e = fill-Gains rlim d v (ground arith)

idle-exact : (rlim : Ratelim) (d : ℕ) → IsValid rlim → d ≡ 0 → level rlim ≡ accrued rlim d
idle-exact rlim d v e = rw e (omega arith)

later_or_now : (a b : ℕ) → a ≤ b → (b ≡ a) ⊎ (a < b)
later_or_now a b h = omega arith

updated-Gains :
    (rlim : Ratelim) (ts : ℕ)
    → IsValid rlim
    → rlim.ts ≤ ts
    → Gains (record rlim { ts = ts }) (ts - rlim.ts) (updated rlim ts)
unfolding updated
updated-Gains rlim ts v h = elim (later_or_now rlim.ts ts h) [
  | inl e ↦ rw ((==_iff ts rlim.ts).1 e) (record {
    valid = v;
    exact = idle-exact rlim (ts - rlim.ts) v (omega arith);
    same_burst = refl;
    same_rate = refl;
    same_ts = sym e;
  })
  | inr l ↦
      rw
        (
          differ ts rlim.ts l,
          fits_test rlim.rate rlim.carry (ts - rlim.ts) (omega arith) (omega arith),
        )
        (if_fits _ (record rlim { ts = ts }) (ts - rlim.ts)
          (record { burst_le = v.burst_le; carry_lt = v.carry_lt; level_le = v.level_le }) refl)
]
  where
    differ : (a b : ℕ) → b < a → (a == b) ≡ false
    differ a b l = ground arith

-- On a valid bucket and a clock that does not go back, ratelim_update returns: its bucket is valid
-- again and at the given time, its burst and rate are the same, and the parts in it are exactly those
-- of the ideal bucket, so that no 64-bit operation overflows in a way that shows.
pub update-accrued :
    (rlim : Ratelim) (ts : ℕ)
    → IsValid rlim
    → rlim.ts ≤ ts
    → (rlim' : Ratelim) × (update rlim ts ≡ ok rlim')
      × IsValid rlim'
      × Follows rlim ts rlim'
      × (level rlim' ≡ accrued rlim (ts - rlim.ts))
unfolding update
update-accrued rlim ts v h =
    let g = updated-Gains rlim ts v h in
    (
      updated rlim ts,
      rw (le→leb rlim.ts ts h),
      g.valid,
      record { same_burst = g.same_burst; same_rate = g.same_rate; now = g.same_ts },
      g.exact,
    )

-- What is left of `parts` in a bucket that is asked for `n` tokens, and whether they were there.
abbrev pub spend : ℕ → ℕ → Bool × ℕ
spend parts n = if leb (n * seconds) parts then (true, parts - n * seconds) else (false, parts)

record Takes (rlim : Ratelim) (n : ℕ) (r : Bool × Ratelim) : Type 0 where
  valid : IsValid r.1
  exact : (r.0, level r.1) ≡ spend (level rlim) n
  same_burst : r.1.burst ≡ rlim.burst
  same_rate : r.1.rate ≡ rlim.rate
  same_ts : r.1.ts ≡ rlim.ts

take_tokens-spend : (rlim : Ratelim) (n : ℕ) → IsValid rlim → Takes rlim n (take_tokens rlim n)
unfolding take_tokens
take_tokens-spend rlim n v = record {
  valid = record { burst_le = ground arith; carry_lt = ground arith; level_le = ground arith };
  exact = ground arith;
  same_burst = ground arith;
  same_rate = ground arith;
  same_ts = ground arith;
}

-- On a valid bucket and a clock that does not go back, dwnx_ratelim_drain returns: it succeeds exactly
-- if the ideal bucket holds `n` tokens at that time, and takes them then and nothing otherwise; the
-- bucket is valid again and at the given time, with the same burst and rate.
pub drain-spend :
    (rlim : Ratelim) (n ts : ℕ)
    → IsValid rlim
    → rlim.ts ≤ ts
    → (done : Bool) × (rlim' : Ratelim) × (drain rlim n ts ≡ ok (done, rlim'))
      × IsValid rlim'
      × Follows rlim ts rlim'
      × ((done, level rlim') ≡ spend (accrued rlim (ts - rlim.ts)) n)
unfolding drain
drain-spend rlim n ts v h =
    let (rlim', e, v', f, exact) = update-accrued rlim ts v h in
    let t = take_tokens-spend rlim' n v' in
    (
      (take_tokens rlim' n).0,
      (take_tokens rlim' n).1,
      rw e,
      t.valid,
      record {
        same_burst = t.same_burst ∙ f.same_burst;
        same_rate = t.same_rate ∙ f.same_rate;
        now = t.same_ts ∙ f.now;
      },
      t.exact ∙ ap (λ parts. spend parts n) exact,
    )
