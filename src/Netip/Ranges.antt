-- ===== src/Netip/Ranges.antt =====
-- Shifts of an address: masks, and the IPv4 part of an IPv4-mapped address.
use native.Mathlib.Nat.{
  pow-suc, pow-zero, suc-add, mul_assoc, one-le-pow, mul-div_cancel, mul-add-div, div-add-mod,
  div-div-eq-div-mul,
}
use mathlib.Core.Path.{subst}
use server_monitor.Common.{
  ℕ, zero, suc, ◌+◌, ◌-◌, ◌*◌, ◌/◌, ◌%◌, ◌^◌, ◌≤◌, ◌<◌, ◌≡◌, sym, ap, ◌∙◌, arith, ◌==◌,
}
use server_monitor.Netip.{mask}

pub pow2_pos : (k : ℕ) → 0 < 2 ^ k
pow2_pos k = one-le-pow k 2 (omega arith)

pub pow2-add : (m n : ℕ) → 2 ^ (m + n) ≡ 2 ^ m * 2 ^ n
pow2-add zero n = grind (arith, pow-zero)
pow2-add (suc m) n =
    rw (suc-add, pow-suc, pow-suc) (omega (arith, ap (λ (t : ℕ). t * 2) (pow2-add m n)))

-- A mask keeps the bits above the cut.
pub div-mask : (k a : ℕ) → mask k a / 2 ^ k ≡ a / 2 ^ k
div-mask k a = mul-div_cancel (a / 2 ^ k) (pow2_pos k)

-- The upper part of a number splits off under a shift by fewer bits.
div-split : (p q a : ℕ) → 0 < p → a / p ≡ q * (a / (p * q)) + a % (p * q) / p
div-split p q a h =
    ap (λ (n : ℕ). n / p)
      (sym (div-add-mod a (p * q)) ∙ ap (λ (n : ℕ). n + a % (p * q)) (mul_assoc p q (a / (p * q))))
    ∙ mul-add-div h _ _

low_same :
    (p q x y : ℕ)
    → 0 < p
    → x / (p * q) ≡ y / (p * q)
    → (x / p == y / p) ≡ (x % (p * q) / p == y % (p * q) / p)
low_same p q x y h e = ground (arith, div-split p q x h, div-split p q y h, ap (λ (n : ℕ). q * n) e)

-- Two numbers with the same bits above 32 agree above k ≤ 32 as soon as their last 32 bits do.
pub low_bits-same :
    (k x y : ℕ)
    → k ≤ 32
    → x / 2 ^ 32 ≡ y / 2 ^ 32
    → (x / 2 ^ k == y / 2 ^ k) ≡ (x % 2 ^ 32 / 2 ^ k == y % 2 ^ 32 / 2 ^ k)
low_bits-same k x y h =
    subst (λ (w : ℕ). x / w ≡ y / w → (x / 2 ^ k == y / 2 ^ k) ≡ (x % w / 2 ^ k == y % w / 2 ^ k))
      (sym (pow2-add k (32 - k)) ∙ ap (λ (n : ℕ). 2 ^ n) {y = 32} (omega arith))
      (low_same (2 ^ k) (2 ^ (32 - k)) x y (pow2_pos k))

-- What two numbers share above k ≤ 32 bits they share above 32.
pub high_bits-same : (k x y : ℕ) → k ≤ 32 → x / 2 ^ k ≡ y / 2 ^ k → x / 2 ^ 32 ≡ y / 2 ^ 32
high_bits-same k x y h e =
    subst (λ (w : ℕ). x / w ≡ y / w)
      (sym (pow2-add k (32 - k)) ∙ ap (λ (n : ℕ). 2 ^ n) {y = 32} (omega arith))
      (sym (div-div-eq-div-mul x (2 ^ k) (2 ^ (32 - k)))
        ∙ ap (λ (n : ℕ). n / 2 ^ (32 - k)) e
        ∙ div-div-eq-div-mul y (2 ^ k) (2 ^ (32 - k)))
