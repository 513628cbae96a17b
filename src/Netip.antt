-- ===== src/Netip.antt =====
-- What the agent uses of Go's net/netip: addresses, their IPv4 form, and prefixes. An address is a
-- number; a zone is a number too, 0 for none. Text is parsed by net/netip, a parameter elsewhere.
pub mod Ranges
use server_monitor.Common.{
  ℕ, ◌+◌, ◌-◌, ◌*◌, ◌/◌, ◌%◌, ◌^◌, Bool, true, false, ◌&&◌, ◌==◌, leb, if◌then◌else◌, List, any,
  ℕ_discrete,
}

pub data Addr : Type 0 where
  invalid : Addr
  v4 : ℕ → Addr
  v6 : ℕ → ℕ → Addr

pub record Prefix : Type 0 where
  pub base : Addr
  pub bits : ℕ

unfoldable pub Addr-discrete : Discrete Addr
Addr-discrete = hlevel ℕ_discrete

-- Addr.IsValid
abbrev pub is_valid : Addr → Bool
is_valid invalid = false
is_valid (v4 a) = true
is_valid (v6 a z) = true

-- Addr.Is4In6: the upper 96 bits are ::ffff.
abbrev pub is_4in6 : Addr → Bool
is_4in6 invalid = false
is_4in6 (v4 a) = false
is_4in6 (v6 a z) = a / 2 ^ 32 == 65535

-- Addr.Unmap
abbrev pub unmap : Addr → Addr
unmap invalid = invalid
unmap (v4 a) = v4 a
unmap (v6 a z) = if a / 2 ^ 32 == 65535 then v4 (a % 2 ^ 32) else v6 a z

-- Addr.BitLen
abbrev pub bit_len : Addr → ℕ
bit_len invalid = 0
bit_len (v4 a) = 32
bit_len (v6 a z) = 128

-- A prefix holds no zone.
abbrev pub without_zone : Addr → Addr
without_zone invalid = invalid
without_zone (v4 a) = v4 a
without_zone (v6 a z) = v6 a 0

-- PrefixFrom, for a length that fits the address
abbrev pub prefix_from : Addr → ℕ → Prefix
prefix_from a n = record { base = without_zone a; bits = n }

-- The bits of `a` above the last `k`, with zeros after them.
abbrev pub mask : ℕ → ℕ → ℕ
mask k a = a / 2 ^ k * 2 ^ k

abbrev mask_addr : ℕ → Addr → Addr
mask_addr n invalid = invalid
mask_addr n (v4 a) = v4 (mask (32 - n) a)
mask_addr n (v6 a z) = v6 (mask (128 - n) a) z

-- Prefix.Masked
abbrev pub masked : Prefix → Prefix
masked p = record p { base = mask_addr p.bits p.base }

abbrev pub same_net : ℕ → Addr → Addr → Bool
same_net n (v4 a) (v4 x) = x / 2 ^ (32 - n) == a / 2 ^ (32 - n)
same_net n (v6 a z) (v6 x y) = y == 0 && x / 2 ^ (128 - n) == a / 2 ^ (128 - n)
same_net n _ _ = false

-- Prefix.Contains: the families agree, the address has no zone, and the first bits are equal.
abbrev pub contains : Prefix → Addr → Bool
contains p ip = same_net p.bits p.base ip

abbrev pub in_some : List Prefix → Addr → Bool
in_some ps ip = any (λ p. contains p ip) ps
