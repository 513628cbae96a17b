-- ===== src/Alerting/Floats.antt =====
-- internal/server/alerting/evaluator.go: compare, over float64 values as their 64-bit patterns.
use server_monitor.Common.{
  ℕ, ◌+◌, ◌^◌, ◌%◌, ◌<◌, ◌≡◌, refl, arith, Bool, false, not, ◌&&◌, ◌||◌, ltb, leb, if◌then◌else◌,
  ◌==◌,
}
use server_monitor.Alerting.{Comparator, gt, lt, ge, le, eq, ne, other}

-- A float64 without its sign.
abbrev pub magnitude : ℕ → ℕ
magnitude x = x % 2 ^ 63

abbrev pub is_negative : ℕ → Bool
is_negative x = leb (2 ^ 63) x

-- The pattern of an infinity is the last that is not a NaN.
abbrev pub is_nan : ℕ → Bool
is_nan x = ltb 0x7ff0000000000000 (magnitude x)

-- Go's < on float64: nothing is less than a NaN, and the two zeros are equal.
unfoldable pub float_lt : ℕ → ℕ → Bool
float_lt x y =
    if is_nan x || is_nan y
    then false
    else if is_negative x
    then (if is_negative y
        then ltb (magnitude y) (magnitude x)
        else ltb 0 (magnitude x + magnitude y))
    else if is_negative y
    then false
    else ltb (magnitude x) (magnitude y)

unfoldable pub float_eq : ℕ → ℕ → Bool
float_eq x y =
    if is_nan x || is_nan y then false else (magnitude x == 0 && magnitude y == 0) || (x == y)

unfoldable pub float_le : ℕ → ℕ → Bool
float_le x y = float_lt x y || float_eq x y

unfoldable pub compare : Comparator → ℕ → ℕ → Bool
compare gt threshold value = float_lt threshold value
compare lt threshold value = float_lt value threshold
compare ge threshold value = float_le threshold value
compare le threshold value = float_le value threshold
compare eq threshold value = float_eq value threshold
compare ne threshold value = not (float_eq value threshold)
compare other threshold value = false

-- A comparator against the one that tells the opposite.
abbrev pub Opposite : Comparator → Comparator → ℕ → ℕ → Type 0
Opposite c d threshold value =
    compare c threshold value
    ≡ not (is_nan threshold) && not (is_nan value) && not (compare d threshold value)

abbrev pub Compared : Comparator → ℕ → ℕ → Type 0
Compared gt t v = Opposite gt le t v
Compared lt t v = Opposite lt ge t v
Compared ge t v = Opposite ge lt t v
Compared le t v = Opposite le gt t v
Compared eq t v = compare eq t v ≡ compare ge t v && compare le t v
Compared ne t v = compare ne t v ≡ not (compare eq t v)
Compared other t v = compare other t v ≡ false

float_lt-opposite :
    (x y : ℕ)
    → x < 2 ^ 64
    → y < 2 ^ 64
    → float_lt x y ≡ not (is_nan x) && not (is_nan y) && not (float_le y x)
unfolding float_lt float_le float_eq
float_lt-opposite x y hx hy = ground arith

float_le-opposite :
    (x y : ℕ)
    → x < 2 ^ 64
    → y < 2 ^ 64
    → float_le x y ≡ not (is_nan x) && not (is_nan y) && not (float_lt y x)
unfolding float_lt float_le float_eq
float_le-opposite x y hx hy = ground arith

float_eq-le : (x y : ℕ) → x < 2 ^ 64 → y < 2 ^ 64 → float_eq x y ≡ float_le y x && float_le x y
unfolding float_lt float_le float_eq
float_eq-le x y hx hy = ground arith

-- On float64 patterns, each of >, <, >= and <= holds exactly where neither side is a NaN and the opposite one
-- fails; == holds exactly where both >= and <= do, != is its negation, and an unknown comparator never holds.
pub compare-Compared :
    (c : Comparator) (threshold value : ℕ)
    → threshold < 2 ^ 64
    → value < 2 ^ 64
    → Compared c threshold value
unfolding compare
compare-Compared gt t v ht hv = ground (arith, float_lt-opposite t v ht hv)
compare-Compared lt t v ht hv = ground (arith, float_lt-opposite v t hv ht)
compare-Compared ge t v ht hv = ground (arith, float_le-opposite t v ht hv)
compare-Compared le t v ht hv = ground (arith, float_le-opposite v t hv ht)
compare-Compared eq t v ht hv = float_eq-le v t hv ht
compare-Compared ne t v ht hv = refl
compare-Compared other t v ht hv = refl
