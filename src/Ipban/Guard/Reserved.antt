-- ===== src/Ipban/Guard/Reserved.antt =====
-- The fixed ranges as intervals of addresses, and the forms of an address that the guard identifies.
use server_monitor.Common.{
  ℕ, ◌+◌, ◌*◌, ◌^◌, ◌<◌, ◌≡◌, ◌≢◌, ◌↔◌, refl, ap, arith, Bool, true, false, none, List, [], ◌∷◌,
  leb, any, not, ◌&&◌, ◌||◌, map,
}
use mathlib.Core.List.{Memᴰ}
use server_monitor.Netip.{Addr, invalid, v4, v6, unmap, in_some}
use server_monitor.Ipban.Guard.{
  Guard, set_local, configured_reason, protected_unmapped, protected, is_private,
  is_always_protected, is_routable, is_local,
}

-- The IPv4 addresses that no host on the internet has, as intervals of numbers.
abbrev pub reserved4 : List (ℕ × ℕ)
reserved4 =
    (0, 16777215)
    ∷ (2130706432, 2147483647)
    ∷ (2851995648, 2852061183)
    ∷ (3758096384, 4026531839)
    ∷ (4294967295, 4294967295)
    ∷ (167772160, 184549375)
    ∷ (2886729728, 2887778303)
    ∷ (3232235520, 3232301055)
    ∷ (1681915904, 1686110207)
    ∷ []

abbrev pub is_between : ℕ → ℕ × ℕ → Bool
is_between a (lo, hi) = leb lo a && leb a hi

unmap-mapped : (a z : ℕ) → a < 2 ^ 32 → unmap (v6 (65535 * 2 ^ 32 + a) z) ≡ v4 a
unmap-mapped a z h = ground arith

unmap-unmap : (ip : Addr) → unmap (unmap ip) ≡ unmap ip
unmap-unmap invalid = refl
unmap-unmap (v4 a) = refl
unmap-unmap (v6 a z) = ground arith

routable4 : (a : ℕ) → a < 2 ^ 32 → is_routable (v4 a) ≡ not (any (is_between a) reserved4)
unfolding is_routable is_private is_always_protected
routable4 a h = ground arith

-- An IPv4 address, given as such or in IPv4-mapped form with any zone, counts as routable exactly when
-- it lies in none of the nine reserved intervals.
pub routable-reserved :
    (a z : ℕ)
    → a < 2 ^ 32
    → (is_routable (v4 a) ≡ not (any (is_between a) reserved4))
      × (is_routable (v6 (65535 * 2 ^ 32 + a) z) ≡ not (any (is_between a) reserved4))
unfolding is_routable is_private is_always_protected
routable-reserved a z h = (routable4 a h, rw (unmap-mapped a z h) (routable4 a h))

-- The guard takes an IPv4 address and its IPv4-mapped form for the same address.
pub protected-mapped :
    (g : Guard) (a z : ℕ)
    → a < 2 ^ 32
    → protected g (v6 (65535 * 2 ^ 32 + a) z) ≡ protected g (v4 a)
unfolding protected
protected-mapped g a z h = rw (unmap-mapped a z h)

-- For a routable address the guard's answer depends on the local addresses and the allowlist alone: it
-- is not protected exactly when neither holds it. Private networks and `ban_private` play no part.
pub protected-routable :
    (g : Guard) (ip : Addr)
    → is_routable ip ≡ true
    → (protected g ip ≡ none)
      ↔ ((is_local g.local (unmap ip) || in_some g.allowlist (unmap ip)) ≡ false)
unfolding protected protected_unmapped configured_reason is_routable
protected-routable g ip h = ground (arith, unmap-unmap ip)

is_local-mem :
    (addrs : List Addr) (ip : Addr) → Memᴰ ip addrs → is_local (map unmap addrs) (unmap ip) ≡ true
is_local-mem [] ip m = elim m [ ]
is_local-mem (a ∷ as') ip (Memᴰ.head e) = ground (arith, ap unmap e)
is_local-mem (a ∷ as') ip (Memᴰ.tail m) = ground (arith, is_local-mem as' ip m)

-- Every address given to SetLocal is protected from then on, in each of its forms.
pub set_local_protects :
    (g : Guard) (addrs : List Addr) (ip ip' : Addr)
    → Memᴰ ip addrs
    → unmap ip' ≡ unmap ip
    → protected (set_local addrs g) ip' ≢ none
unfolding protected protected_unmapped configured_reason set_local
set_local_protects g addrs ip ip' m e = ground (arith, is_local-mem addrs ip m)
