-- ===== src/Fleet/Announced.antt =====
-- internal/server/ipban/service.go: what AgentConfig tells the agents, and the version that announces it.
pub mod Loop
pub mod Runs
use Prim.Native.String.{String}
use server_monitor.Common.{
  ℕ, ◌≡◌, refl, sym, ap, ◌∙◌, ◌≤◌, ◌+◌, ◌*◌, ◌/◌, Bool, true, false, not, ◌&&◌, ◌||◌, ◌==◌, ltb,
  if-holds, if-holds_given, if◌then◌else◌, List, [], ◌∷◌, arith, any, keep, Option, none, some,
  take, ite, length, is_some, inl, inr, ℕ_discrete, Bool-cases,
}
use server_monitor.Common.Assoc.{lookup, insert, lookup-insert_self, lookup-insert_ne}
use server_monitor.Netip.{Addr, Addr-discrete, in_some}
use server_monitor.Settings.{Text, Settings, HostPolicy}
use server_monitor.Fleet.{
  Db, Command, FleetRow, Status, HostRow, HostIp-discrete, routable, second, same_ip, cmd_retention,
  host_policy, policy_of, max_events_per_post, bump_version,
}
use server_monitor.Fleet.Propagation.{
  refreshed, logged, is_due, propagate, upsert, evidence, distinct_hosts,
}
use server_monitor.Fleet.Ingest.{
  Sender, WireEvent, Taken, banned, lifted, take_ban, take_unban, process, process_all, take_event,
  ban_row, add_event, active_row, has_event, ingest_events, sender, report_status,
}
use server_monitor.Fleet.Frames.{propagate-holds, process_all-SameRest, SameRest}

-- Whether AgentConfig names the address.
unfoldable pub is_banned : ℕ → Addr → List (Addr × FleetRow) → Bool
is_banned now ip fleet = any (λ (k, row). same_ip k ip && ltb now row.expires_at) fleet

-- A command that sweep keeps.
abbrev pub is_recent : ℕ → Command → Bool
is_recent now c = not (ltb (c.created_at + cmd_retention) now)

-- The agents are told the same, expiry times and commands of more than a day ago apart.
pub record Unchanged (now : ℕ) (d d' : Db) : Type 0 where
  pub settings : d'.settings ≡ d.settings
  pub policies : (host : ℕ) → host_policy host d' ≡ host_policy host d
  pub fleet : (ip : Addr) → is_banned now ip d'.fleet ≡ is_banned now ip d.fleet
  pub commands : keep (is_recent now) d'.commands ≡ keep (is_recent now) d.commands

pub Unchanged-refl : (now : ℕ) (d : Db) → Unchanged now d d
Unchanged-refl now d = record {
  settings = refl;
  policies = λ _. refl;
  fleet = λ _. refl;
  commands = refl;
}

pub Unchanged-trans :
    (now : ℕ) (d d' d'' : Db) → Unchanged now d d' → Unchanged now d' d'' → Unchanged now d d''
Unchanged-trans now d d' d'' p q = record {
  settings = q.settings ∙ p.settings;
  policies = λ host. q.policies host ∙ p.policies host;
  fleet = λ ip. q.fleet ip ∙ p.fleet ip;
  commands = q.commands ∙ p.commands;
}

-- A live row that is replaced by a live row.
pub is_banned-insert :
    (now : ℕ) (ip k : Addr) (old new : FleetRow) (m : List (Addr × FleetRow))
    → lookup Addr-discrete k m ≡ some old
    → ltb now old.expires_at ≡ true
    → ltb now new.expires_at ≡ true
    → is_banned now ip (insert Addr-discrete k new m) ≡ is_banned now ip m
unfolding is_banned insert lookup
is_banned-insert now ip k old new [] h l l' = ground (arith, h)
is_banned-insert now ip k old new ((j, w) ∷ m) h l l' =
    ground (arith, is_banned-insert now ip k old new m)

pub is_banned-keep :
    (now : ℕ) (ip : Addr) (m : List (Addr × FleetRow))
    → is_banned now ip (keep (λ (k, r). not (ltb r.expires_at now)) m) ≡ is_banned now ip m
unfolding is_banned
is_banned-keep now ip [] = refl
is_banned-keep now ip ((j, w) ∷ m) = ground (arith, is_banned-keep now ip m)

pub keep_twice :
    (now : ℕ) (cs : List Command)
    → keep (is_recent now) (keep (is_recent now) cs) ≡ keep (is_recent now) cs
keep_twice now [] = refl
keep_twice now (c ∷ cs) = ground (arith, keep_twice now cs)
