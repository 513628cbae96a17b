-- ===== src/Ipban/Guard.antt =====
-- internal/agent/ipban/guard.go: the addresses that are never banned. A map used as a set is the
-- list of its elements; the mutex makes each method one step.
pub mod Allowlist
pub mod Reserved
use Prim.Native.String.{String}
use server_monitor.Common.{
  ℕ, ◌+◌, ◌-◌, ◌*◌, ◌^◌, Bool, true, false, not, ◌&&◌, ◌||◌, ltb, if◌then◌else◌, Option, none, some,
  List, [], ◌∷◌, ◌++◌, map, any, is_some,
}
use server_monitor.Netip.{
  Addr, invalid, v4, v6, Prefix, Addr-discrete, is_valid, is_4in6, unmap, bit_len, prefix_from,
  masked, contains, in_some,
}

-- An IPv4 network, from its four bytes and its length.
abbrev pub net4 : ℕ → ℕ → ℕ → ℕ → ℕ → Prefix
net4 a b c d n = record { base = v4 (((a * 256 + b) * 256 + c) * 256 + d); bits = n }

-- An IPv6 network, from the first 16 bits of its address.
abbrev pub net6 : ℕ → ℕ → Prefix
net6 a n = record { base = v6 (a * 2 ^ 112) 0; bits = n }

abbrev pub always_protected : List (Prefix × String)
always_protected =
    (net4 0 0 0 0 8, "unspecified")
    ∷ (net4 127 0 0 0 8, "loopback")
    ∷ (net4 169 254 0 0 16, "link-local")
    ∷ (net4 224 0 0 0 4, "multicast")
    ∷ (net4 255 255 255 255 32, "broadcast")
    ∷ (net6 0 128, "unspecified")
    ∷ (record { base = v6 1 0; bits = 128 }, "loopback")
    ∷ (net6 0xfe80 10, "link-local")
    ∷ (net6 0xff00 8, "multicast")
    ∷ []

abbrev pub private_ranges : List Prefix
private_ranges =
    net4 10 0 0 0 8
    ∷ net4 172 16 0 0 12
    ∷ net4 192 168 0 0 16
    ∷ net4 100 64 0 0 10
    ∷ net6 0xfc00 7
    ∷ []

-- The loop over `alwaysProtected`: the reason of the first range that holds the address.
abbrev pub first_reason : List (Prefix × String) → Addr → Option String
first_reason [] ip = none
first_reason ((p, reason) ∷ ps) ip = if contains p ip then some reason else first_reason ps ip

unfoldable pub is_private : Addr → Bool
is_private ip = in_some private_ranges (unmap ip)

unfoldable pub is_always_protected : Addr → Option String
is_always_protected ip = first_reason always_protected ip

unfoldable pub is_routable : Addr → Bool
is_routable ip =
    let ip' = unmap ip in
    is_valid ip' && not (is_some (is_always_protected ip')) && not (is_private ip')

pub record Guard : Type 0 where
  pub allowlist : List Prefix
  pub local : List Addr
  pub ban_private : Bool

unfoldable pub new_guard : Guard
new_guard = record { allowlist = []; local = []; ban_private = false }

unfoldable pub set_allowlist : List Prefix → Guard → Guard
set_allowlist prefixes g = record g { allowlist = prefixes }

unfoldable pub set_local : List Addr → Guard → Guard
set_local addrs g = record g { local = map unmap addrs }

unfoldable pub set_ban_private : Bool → Guard → Guard
set_ban_private v g = record g { ban_private = v }

abbrev pub is_local : List Addr → Addr → Bool
is_local [] ip = false
is_local (a ∷ as') ip = elim (Addr-discrete a ip) [ yes _ ↦ true | no _ ↦ is_local as' ip ]

-- The part of Protected under the lock.
unfoldable pub configured_reason : Guard → Addr → Option String
configured_reason g ip =
    if not g.ban_private && is_private ip
    then some "private"
    else if is_local g.local ip
    then some "local address"
    else if in_some g.allowlist ip
    then some "allowlisted"
    else none

unfoldable pub protected_unmapped : Guard → Addr → Option String
protected_unmapped g ip =
    if is_valid ip
    then elim (is_always_protected ip) [ some reason ↦ some reason | none ↦ configured_reason g ip ]
    else some "invalid"

-- Protected: the reason for which an address is not banned, if there is one.
unfoldable pub protected : Guard → Addr → Option String
protected g ip = protected_unmapped g (unmap ip)

-- ParseAllowlist. The parsers of net/netip are parameters. The result has the prefixes and the
-- entries that were refused.
abbrev pub allow_prefix : Prefix → Option Prefix
allow_prefix p =
    if is_4in6 p.base
    then (if ltb p.bits 96 then none else some (masked (prefix_from (unmap p.base) (p.bits - 96))))
    else some (masked p)

abbrev pub allow_addr : Addr → Prefix
allow_addr a = prefix_from (unmap a) (bit_len (unmap a))

abbrev pub add_entry :
    String → Option Prefix → List Prefix × List String → List Prefix × List String
add_entry e (some p) (out, bad) = (p ∷ out, bad)
add_entry e none (out, bad) = (out, e ∷ bad)

module _ (parse_prefix : String → Option Prefix) (parse_addr : String → Option Addr) where
  unfoldable pub allow_entry : String → Option Prefix
  allow_entry e = elim (parse_prefix e) [
    | some p ↦ allow_prefix p
    | none ↦ elim (parse_addr e) [ some a ↦ some (allow_addr a) | none ↦ none ]
  ]

  unfoldable pub parse_allowlist : List String → List Prefix × List String
  parse_allowlist [] = ([], [])
  parse_allowlist (e ∷ es) = add_entry e (allow_entry e) (parse_allowlist es)
