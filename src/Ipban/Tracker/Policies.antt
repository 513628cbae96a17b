-- ===== src/Ipban/Tracker/Policies.antt =====
-- The policy as the tracker keeps it, and the duration of a ban.
use native.Mathlib.Nat.{pow-suc, pow-zero}
use server_monitor.Common.{
  ℕ, zero, suc, ◌*◌, ◌^◌, ◌≤◌, ◌<◌, ◌≡◌, ap, ◌∙◌, inl, inr, ◌⊎◌, min, arith, Bool-cases,
}
use server_monitor.Common.Int64.{lt_i64, mul_i64, two63, two64, lt_i64-ltb}
use server_monitor.Netip.Ranges.{pow2_pos}
use server_monitor.Ipban.Tracker.{Policy, normalized, escalate, ban_duration}

-- The fields are int64 patterns.
pub record InRange (p : Policy) : Type 0 where
  pub max_retry : p.max_retry < two64
  pub find_time : p.find_time < two64
  pub ban_time : p.ban_time < two64
  pub ban_time_max : p.ban_time_max < two64

-- Every field is positive as a signed value, and the longest ban is no shorter than the first.
pub record IsNormal (p : Policy) : Type 0 where
  pub max_retry_pos : 1 ≤ p.max_retry
  pub max_retry_lt : p.max_retry < two63
  pub find_time_pos : 1 ≤ p.find_time
  pub find_time_lt : p.find_time < two63
  pub ban_time_pos : 1 ≤ p.ban_time
  pub ban_time-le : p.ban_time ≤ p.ban_time_max
  pub ban_time_max_lt : p.ban_time_max < two63

pub normalized-IsNormal : (p : Policy) → InRange p → IsNormal (normalized p)
unfolding normalized
normalized-IsNormal p r = ground arith

-- What becomes of a field that has to be positive as a signed value: it is kept, or the standard takes its place.
abbrev pub KeptOr : ℕ → ℕ → ℕ → Type 0
KeptOr standard x y = ((1 ≤ x) × (x < two63) × (y ≡ x)) ⊎ (((x ≡ 0) ⊎ (two63 ≤ x)) × (y ≡ standard))

-- What a policy becomes.
pub record Normalizes (p q : Policy) : Type 0 where
  pub normal : IsNormal q
  pub max_retry : KeptOr 1 p.max_retry q.max_retry
  pub find_time : KeptOr (600 * 10 ^ 9) p.find_time q.find_time
  pub ban_time : KeptOr (3600 * 10 ^ 9) p.ban_time q.ban_time
  pub ban_time_max :
      ((p.ban_time_max < two63) × (q.ban_time ≤ p.ban_time_max) × (q.ban_time_max ≡ p.ban_time_max))
      ⊎ (((p.ban_time_max < q.ban_time) ⊎ (two63 ≤ p.ban_time_max)) × (q.ban_time_max ≡ q.ban_time))

-- A policy of int64 patterns becomes a normal one. Its positive fields are kept; in place of the others stand one retry,
-- ten minutes and an hour. Its longest ban is kept where it is not shorter than the ban time, which is taken otherwise.
pub normalized-Normalizes : (p : Policy) → InRange p → Normalizes p (normalized p)
unfolding normalized
normalized-Normalizes p r = record {
  normal = normalized-IsNormal p r;
  max_retry = ground arith;
  find_time = ground arith;
  ban_time = ground arith;
  ban_time_max = ground arith;
}

pub normalized_of_IsNormal : (p : Policy) → IsNormal p → normalized p ≡ p
unfolding normalized
normalized_of_IsNormal p n = ground arith

le-mul_pos : (a b : ℕ) → 0 < b → a ≤ a * b
le-mul_pos a b h = grind arith

-- While the maximum leaves room for one doubling, no doubling wraps.
pub escalate_lem :
    (bans dur top : ℕ)
    → top ≤ 2 ^ 62
    → dur < two63
    → (min (escalate bans dur top) top ≡ min (dur * 2 ^ bans) top) × (escalate bans dur top < two63)
unfolding escalate
escalate_lem zero dur top ht hd = (omega (arith, pow-zero 2), hd)
escalate_lem (suc bans) dur top ht hd = elim (Bool-cases (lt_i64 dur top)) [
  | inl less ↦
      let l : dur < top = ground (arith, lt_i64-ltb dur top hd) in
      let e : mul_i64 dur 2 ≡ dur * 2 = ground arith in
      let ih = escalate_lem bans (mul_i64 dur 2) top ht (ground arith) in
      let f : mul_i64 dur 2 * 2 ^ bans ≡ dur * 2 ^ suc bans =
        omega (arith, ap (λ (t : ℕ). t * 2 ^ bans) e, ap (λ (t : ℕ). dur * t) (pow-suc 2 bans)) in
      rw (less, escalate) (ih.0 ∙ ap (λ (n : ℕ). min n top) f, ih.1)
  | inr more ↦
      let l : top ≤ dur = ground (arith, lt_i64-ltb dur top hd) in
      rw (more, escalate) (omega (arith, le-mul_pos dur (2 ^ suc bans) (pow2_pos (suc bans))), hd)
]

-- The ban after `bans` earlier ones lasts the first ban's time doubled as often, cut at the maximum.
-- The condition, a maximum of at most 2 ^ 62 ns (146 years), keeps the doublings inside int64.
pub ban_duration-min :
    (p : Policy) (bans : ℕ)
    → IsNormal p
    → p.ban_time_max ≤ 2 ^ 62
    → ban_duration p bans ≡ min (p.ban_time * 2 ^ bans) p.ban_time_max
unfolding ban_duration
ban_duration-min p bans n h =
    let r = escalate_lem bans p.ban_time p.ban_time_max h (omega arith) in
    ground (arith, r, lt_i64-ltb p.ban_time_max (escalate bans p.ban_time p.ban_time_max))

-- So no ban is shorter than the policy's ban time, or longer than its maximum.
pub ban_duration_bounds :
    (p : Policy) (bans : ℕ)
    → IsNormal p
    → p.ban_time_max ≤ 2 ^ 62
    → (p.ban_time ≤ ban_duration p bans) × (ban_duration p bans ≤ p.ban_time_max)
ban_duration_bounds p bans n h =
    omega (arith, ban_duration-min p bans n h, le-mul_pos p.ban_time (2 ^ bans) (pow2_pos bans))
