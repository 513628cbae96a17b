-- ===== src/Fleet/Routability.antt =====
-- internal/server/ipban/service.go and internal/agent/ipban/guard.go: the service and the agents agree on the addresses
-- that a fleet ban may hold.
use server_monitor.Common.{
  ℕ, ◌≡◌, refl, sym, ap, ◌∙◌, ◌^◌, ◌/◌, ◌==◌, arith, Bool-cases, inl, inr, true, false,
}
use server_monitor.Netip.{Addr, invalid, v4, v6}
use server_monitor.Ipban.Guard.{is_routable, is_private, is_always_protected}
use server_monitor.Fleet.{routable}

-- An address without a zone.
abbrev pub HasNoZone : Addr → Type 0
HasNoZone invalid = Unit
HasNoZone (v4 a) = Unit
HasNoZone (v6 a z) = z ≡ 0

routable-v4 : (a : ℕ) → routable (v4 a) ≡ is_routable (v4 a)
unfolding routable is_routable is_private is_always_protected
routable-v4 a = ground arith

routable-v6 : (a : ℕ) → (a / 2 ^ 32 == 65535) ≡ false → routable (v6 a 0) ≡ is_routable (v6 a 0)
unfolding routable is_routable is_private is_always_protected
routable-v6 a h = ground (arith, h)

routable-mapped : (a : ℕ) → (a / 2 ^ 32 == 65535) ≡ true → routable (v6 a 0) ≡ is_routable (v6 a 0)
unfolding routable is_routable is_private is_always_protected
routable-mapped a h = ground (arith, h)

-- An address without a zone is routable for the service exactly when it is for the agent: the tests of net/netip, the
-- zero network and the broadcast address in the one, the table of protected networks in the other.
pub routable-is_routable : (ip : Addr) → HasNoZone ip → routable ip ≡ is_routable ip
unfolding routable is_routable
routable-is_routable invalid h = refl
routable-is_routable (v4 a) h = routable-v4 a
routable-is_routable (v6 a z) h = elim (Bool-cases (a / 2 ^ 32 == 65535)) [
  | inl e ↦
      ap (λ w. routable (v6 a w)) h ∙ routable-mapped a e ∙ ap (λ w. is_routable (v6 a w)) (sym h)
  | inr e ↦ ap (λ w. routable (v6 a w)) h ∙ routable-v6 a e ∙ ap (λ w. is_routable (v6 a w)) (sym h)
]
