-- ===== src/Common/Int64.antt =====
-- Go's int64 and time.Duration as bit patterns: numbers below 2 ^ 64 that stand for a signed value.
use Prim.Native.Nat.{ℕ, ◌+◌, ◌-◌, ◌*◌, ◌%◌, ◌<◌}
use mathlib.Core.Path.{◌≡◌}
use mathlib.Core.Bool.{Bool}
use native.Mathlib.Omega.{arith}
use server_monitor.Common.Tests.{ltb, if◌then◌else◌}

abbrev pub two63 : ℕ
two63 = 9223372036854775808

abbrev pub two64 : ℕ
two64 = 18446744073709551616

-- a < b on signed values: the patterns are compared after an offset of 2 ^ 63.
abbrev pub lt_i64 : ℕ → ℕ → Bool
lt_i64 a b = ltb ((a + two63) % two64) ((b + two63) % two64)

abbrev pub mul_i64 : ℕ → ℕ → ℕ
mul_i64 a b = (a * b) % two64

-- t.Add(d): a pattern from 2 ^ 63 on stands for a negative duration.
abbrev pub time_add : ℕ → ℕ → ℕ
time_add t d = if ltb d two63 then t + d else t - (two64 - d)

-- On values below 2 ^ 63 the signed order is the order of numbers.
pub lt_i64-ltb : (a b : ℕ) → a < two63 → b < two63 → lt_i64 a b ≡ ltb a b
lt_i64-ltb a b ha hb = ground arith

pub time_add-add : (t d : ℕ) → d < two63 → time_add t d ≡ t + d
time_add-add t d h = ground arith
