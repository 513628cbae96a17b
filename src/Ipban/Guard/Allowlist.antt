-- ===== src/Ipban/Guard/Allowlist.antt =====
-- The allowlist and the addresses that its entries cover (ParseAllowlist, Protected).
use Prim.Native.String.{String}
use mathlib.Core.List.{Memᴰ}
use server_monitor.Common.{
  ℕ, ◌-◌, ◌/◌, ◌%◌, ◌^◌, ◌≤◌, ◌≡◌, ◌≢◌, refl, sym, ◌∙◌, arith, Bool, true, false, Option, none,
  some, List, [], ◌∷◌, ◌==◌, ==_iff,
}
use server_monitor.Netip.{
  Addr, v4, v6, Prefix, is_4in6, unmap, masked, contains, prefix_from, bit_len, invalid, same_net,
  in_some,
}
use server_monitor.Netip.Ranges.{div-mask, low_bits-same, high_bits-same}
use server_monitor.Ipban.Guard.{
  Guard, set_allowlist, configured_reason, protected_unmapped, protected, allow_prefix, allow_addr,
  allow_entry, parse_allowlist,
}

contains-masked :
    (b : Addr) (n : ℕ) (ip : Addr)
    → contains (masked (record { base = b; bits = n })) ip
      ≡ contains (record { base = b; bits = n }) ip
contains-masked (v4 a) n (v4 x) = rw (div-mask (32 - n) a)
contains-masked (v6 a z) n (v6 x y) = rw (div-mask (128 - n) a)
contains-masked _ n _ = refl

-- An IPv4-mapped network of at least 96 bits holds an IPv4-mapped address exactly when the IPv4
-- network holds its IPv4 part.
mapped-same :
    (n a z x y : ℕ)
    → 96 ≤ n
    → a / 2 ^ 32 ≡ 65535
    → same_net n (v6 a z) (v6 x y) ≡ true
    → same_net (n - 96) (v4 (a % 2 ^ 32)) (unmap (v6 x y)) ≡ true
mapped-same n a z x y h m e =
    let k : 32 - (n - 96) ≡ 128 - n = omega arith in
    let top : x / 2 ^ (128 - n) ≡ a / 2 ^ (128 - n) = ground arith in
    let high : x / 2 ^ 32 ≡ 65535 = high_bits-same (128 - n) x a (omega arith) top ∙ m in
    let low : (x % 2 ^ 32 / 2 ^ (128 - n) == a % 2 ^ 32 / 2 ^ (128 - n)) ≡ true =
      sym (low_bits-same (128 - n) x a (omega arith) (high ∙ sym m)) ∙ (==_iff _ _).1 top in
    rw ((==_iff _ _).1 high, k) low

-- What an entry covers, on the form of the address that the guard looks at: the addresses of its
-- prefix, and for an IPv4-mapped prefix of at least 96 bits those that it holds in mapped form.
pub data Covers (p : Prefix) (ip : Addr) : Type 0 where
  plain : is_4in6 p.base ≡ false → contains p (unmap ip) ≡ true → Covers p ip
  mapped : is_4in6 p.base ≡ true → 96 ≤ p.bits → contains p ip ≡ true → Covers p ip

Covers-allow_prefix :
    (b : Addr) (n : ℕ) (ip : Addr)
    → Covers (record { base = b; bits = n }) ip
    → (q : Prefix) × (allow_prefix (record { base = b; bits = n }) ≡ some q)
      × (contains q (unmap ip) ≡ true)
Covers-allow_prefix b n ip (plain e c) =
    (masked (record { base = b; bits = n }), rw e, contains-masked b n (unmap ip) ∙ c)
Covers-allow_prefix (v6 a z) n (v6 x y) (mapped e h c) =
    let m : a / 2 ^ 32 ≡ 65535 = ground arith in
    (
      masked (record { base = v4 (a % 2 ^ 32); bits = n - 96 }),
      ground arith,
      contains-masked (v4 (a % 2 ^ 32)) (n - 96) (unmap (v6 x y)) ∙ mapped-same n a z x y h m c,
    )
Covers-allow_prefix _ n _ (mapped e h c) = absurd (cc)

-- An address without a zone.
abbrev pub is_zoneless : Addr → Bool
is_zoneless (v4 a) = true
is_zoneless (v6 a z) = z == 0
is_zoneless invalid = false

-- It is in the prefix of all its bits.
contains_self :
    (ip : Addr) → is_zoneless ip ≡ true → contains (prefix_from ip (bit_len ip)) ip ≡ true
contains_self (v4 a) v = ground arith
contains_self (v6 a z) v = ground arith
contains_self invalid v = absurd (ground (arith, v))

in_some-protected :
    (g : Guard) (ip : Addr) → in_some g.allowlist (unmap ip) ≡ true → protected g ip ≢ none
unfolding protected protected_unmapped configured_reason
in_some-protected g ip h = ground arith

module _ (parse_prefix : String → Option Prefix) (parse_addr : String → Option Addr) where
  parse_allowlist-in_some :
      (entries : List String) (e : String) (q : Prefix) (ip : Addr)
      → Memᴰ e entries
      → allow_entry parse_prefix parse_addr e ≡ some q
      → contains q ip ≡ true
      → in_some (parse_allowlist parse_prefix parse_addr entries).0 ip ≡ true
  unfolding parse_allowlist
  parse_allowlist-in_some [] e q ip m h c = elim m [ ]
  parse_allowlist-in_some (x ∷ es) e q ip (Memᴰ.head s) h c =
      rw (sym s) (rw (h, parse_allowlist) (rw c refl))
  parse_allowlist-in_some (x ∷ es) e q ip (Memᴰ.tail m) h c =
      grind (arith, parse_allowlist-in_some es e q ip m h c)

  -- An entry allows an address: as a prefix that covers it, or as that address, which has no zone.
  pub data Allows (e : String) (ip : Addr) : Type 0 where
    by_prefix : (p : Prefix) → parse_prefix e ≡ some p → Covers p ip → Allows e ip
    by_address :
        (a : Addr)
        → parse_prefix e ≡ none
        → parse_addr e ≡ some a
        → unmap a ≡ unmap ip
        → is_zoneless (unmap ip) ≡ true
        → Allows e ip

  Allows-entry :
      (e : String) (ip : Addr)
      → Allows e ip
      → (q : Prefix) × (allow_entry parse_prefix parse_addr e ≡ some q)
        × (contains q (unmap ip) ≡ true)
  unfolding allow_entry
  Allows-entry e ip (by_prefix p h c) =
      let (q, eq, cq) = Covers-allow_prefix p.base p.bits ip c in (q, rw (h, allow_entry) eq, cq)
  Allows-entry e ip (by_address a h k s v) =
      (allow_addr a, rw (h, k, allow_entry) refl, rw s (contains_self (unmap ip) v))

  -- Once an allowlist is set, an address that one of its entries allows, as a prefix that covers it or as the address, is
  -- protected, whatever the rest of the guard says.
  pub allowlist_protects :
      (g : Guard) (entries : List String) (e : String) (ip : Addr)
      → Memᴰ e entries
      → Allows e ip
      → protected (set_allowlist (parse_allowlist parse_prefix parse_addr entries).0 g) ip ≢ none
  unfolding set_allowlist
  allowlist_protects g entries e ip m h =
      let (q, eq, cq) = Allows-entry e ip h in
      in_some-protected _ ip (parse_allowlist-in_some entries e q (unmap ip) m eq cq)
