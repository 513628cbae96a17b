-- ===== src/Ipban/Tracker/Listing.antt =====
-- The list of the active bans.
use server_monitor.Common.{
  ℕ, ◌≤◌, ◌≡◌, refl, ◌∙◌, arith, ltb, Option, none, some, List, [], ◌∷◌, ite, if◌then◌else◌,
}
use server_monitor.Common.Assoc.{lookup, UniqueKeys}
use server_monitor.Netip.{Addr, Addr-discrete}
use server_monitor.Ipban.Tracker.{
  IpState, Ban, Tracker, ban_of, insert_by_until, collect_bans, active_bans, banned,
}
use server_monitor.Ipban.Tracker.Invariant.{Inv, state_of}

-- The bans end one after the other, and none before `at`.
abbrev pub IsSorted : ℕ → List Ban → Type 0
IsSorted at [] = Unit
IsSorted at (b ∷ bs) = (at ≤ b.until) × IsSorted b.until bs

abbrev pub find_ban : Addr → List Ban → Option Ban
find_ban ip [] = none
find_ban ip (b ∷ bs) = ite (Addr-discrete b.ip ip) (some b) (find_ban ip bs)

insert_by_until-IsSorted :
    (at : ℕ) (b : Ban) (bs : List Ban)
    → at ≤ b.until
    → IsSorted at bs
    → IsSorted at (insert_by_until b bs)
unfolding insert_by_until
insert_by_until-IsSorted at b [] h s = (h, tt)
insert_by_until-IsSorted at b (c ∷ cs) h s = ground (arith, insert_by_until-IsSorted c.until b cs)

collect_bans-IsSorted : (now : ℕ) (m : List (Addr × IpState)) → IsSorted now (collect_bans now m)
unfolding collect_bans
collect_bans-IsSorted now [] = tt
collect_bans-IsSorted now ((ip, st) ∷ m) = ground (
  arith,
  collect_bans-IsSorted now m,
  insert_by_until-IsSorted now (ban_of ip st) (collect_bans now m),
)

find_ban-insert_by_until :
    (ip : Addr) (b : Ban) (bs : List Ban)
    → find_ban b.ip bs ≡ none
    → find_ban ip (insert_by_until b bs) ≡ ite (Addr-discrete b.ip ip) (some b) (find_ban ip bs)
unfolding insert_by_until
find_ban-insert_by_until ip b [] h = refl
find_ban-insert_by_until ip b (c ∷ cs) h = ground (arith, find_ban-insert_by_until ip b cs)

abbrev listed : ℕ → Addr → Option IpState → Option Ban
listed now ip none = none
listed now ip (some st) = if ltb now st.banned_until then some (ban_of ip st) else none

find_ban-collect_bans :
    (now : ℕ) (ip : Addr) (m : List (Addr × IpState))
    → UniqueKeys Addr-discrete m
    → find_ban ip (collect_bans now m) ≡ listed now ip (lookup Addr-discrete ip m)
unfolding collect_bans lookup
find_ban-collect_bans now ip [] u = refl
find_ban-collect_bans now ip ((j, st) ∷ m) u = ground (
  arith,
  find_ban-collect_bans now ip m u.1,
  find_ban-collect_bans now j m u.1,
  find_ban-insert_by_until ip (ban_of j st) (collect_bans now m),
)

-- The list of the active bans is sorted by their ends, all of them after `now`, and holds an address
-- exactly when it is banned at the time, with the end and the count of its state.
pub active_bans_exact :
    (t : Tracker) (now : ℕ) (ip : Addr)
    → Inv t
    → IsSorted now (active_bans now t)
      × (find_ban ip (active_bans now t)
          ≡ (if banned ip now t then some (ban_of ip (state_of ip t)) else none))
unfolding active_bans banned
active_bans_exact t now ip v = (
  collect_bans-IsSorted now t.states,
  find_ban-collect_bans now ip t.states v.unique ∙ ground arith,
)
