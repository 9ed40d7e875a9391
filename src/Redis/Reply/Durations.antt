-- ===== src/Redis/Reply/Durations.antt =====
-- redis/command.go: a `DurationCmd` multiplies by its unit and `FormatDuration` divides by it.
use smartproxy.Common.{ℕ, suc, ◌-◌, ◌*◌, ◌/◌, ◌%◌, ◌^◌, ◌≤◌, ◌<◌, ◌≡◌, ap, arith}
use native.Mathlib.Nat.{mul-div_cancel}
use smartproxy.Common.Int.{ℤ, pos, negsuc}
use smartproxy.Redis.Format.{quotient}
use smartproxy.Redis.Reply.Commands.{signed64, times64}

-- A number of units fits a `time.Duration` of int64.
abbrev pub FitsScaled : ℤ → ℕ → Type 0
FitsScaled (pos n) p = n * p < 2 ^ 63
FitsScaled (negsuc n) p = suc n * p ≤ 2 ^ 63

below_zero :
    (m p k : ℕ) → 0 < m → m ≤ 2 ^ 63 → m / p ≡ suc k → quotient (signed64 (2 ^ 64 - m)) p ≡ negsuc k
unfolding quotient signed64
below_zero m p k some_units le h =
    let back : suc (2 ^ 64 - (2 ^ 64 - m) - 1) ≡ m = omega arith in
    ground (arith, ap (λ j. j / p) back)

-- The unit divides out again, below zero too.
pub quotient-times64 : (t : ℤ) (p : ℕ) → 0 < p → FitsScaled t p → quotient (times64 t p) p ≡ t
unfolding quotient times64 signed64
quotient-times64 (pos n) p hp h =
    let exact : n * p / p ≡ n = mul-div_cancel n hp in
    let small : n * p % 2 ^ 64 ≡ n * p = omega arith in rw small (ground arith)
quotient-times64 (negsuc n) p hp h =
    let exact : suc n * p / p ≡ suc n = mul-div_cancel (suc n) hp in
    let some_units : 0 < suc n * p = omega arith in
    let small : (2 ^ 64 - suc n * p % 2 ^ 64) % 2 ^ 64 ≡ 2 ^ 64 - suc n * p = omega arith in
    rw small (below_zero (suc n * p) p n some_units h exact)
