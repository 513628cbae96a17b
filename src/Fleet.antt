-- ===== src/Fleet.antt =====
-- internal/server/ipban/service.go: the tables of the ban service, and what it keeps in memory. A transaction is one
-- step: where one of its statements fails it is rolled back. SQL's now() and time.Now() are one clock, in nanoseconds
-- since the zero time. Notes, actors and messages are left out.
pub mod Propagation
pub mod Ingest
pub mod Changes
pub mod Outcomes
pub mod Frames
pub mod Growth
pub mod Redelivery
pub mod Announced
pub mod Coherence
pub mod Routability
pub mod Justified
pub mod Pages
pub mod Enforcement
pub mod Runs
use Prim.Native.String.{String}
use server_monitor.Common.{
  ℕ, ◌+◌, ◌-◌, ◌*◌, ◌^◌, ◌/◌, Bool, true, false, not, ◌&&◌, ◌||◌, ltb, leb, if◌then◌else◌, ◌==◌,
  Option, none, some, List, [], ◌∷◌, any, keep, length, ℕ_discrete, ite,
}
use server_monitor.Common.Assoc.{lookup}
use server_monitor.Netip.{
  Addr, invalid, v4, v6, Prefix, Addr-discrete, is_valid, is_4in6, unmap, prefix_from, bit_len,
  contains, in_some,
}
use server_monitor.Ipban.Guard.{private_ranges}
use server_monitor.Settings.{Text, Settings, HostPolicy, given}

-- A row of ipban_hosts: the overrides of a host, and what it reported last, without the time.
pub record Status : Type 0 where
  pub supported : Bool
  pub detect_state : String
  pub enforce_state : String
  pub active_local : ℕ
  pub applied_version : ℕ

pub record HostRow : Type 0 where
  pub policy : HostPolicy
  pub status : Option Status

pub data Action : Type 0 where
  ban unban fleet_ban manual_ban fleet_unban manual_unban : Action

-- A row of ipban_events; an empty agent id is none.
pub record EventRow : Type 0 where
  pub id : ℕ
  pub time : ℕ
  pub host : Option ℕ
  pub ip : Addr
  pub action : Action
  pub expires_at : Option ℕ
  pub enforced : Bool
  pub failures : ℕ
  pub repeat_count : ℕ
  pub agent_event_id : List ℕ
  pub contributed : Bool

pub record ActiveRow : Type 0 where
  pub banned_at : ℕ
  pub expires_at : ℕ
  pub enforced : Bool
  pub failures : ℕ
  pub repeat_count : ℕ

-- A row of ipban_fleet; its source is manual or auto.
pub record FleetRow : Type 0 where
  pub first_seen : ℕ
  pub last_seen : ℕ
  pub host_count : ℕ
  pub ban_count : ℕ
  pub expires_at : ℕ
  pub manual : Bool

pub record Command : Type 0 where
  pub host : ℕ
  pub ip : Addr
  pub created_at : ℕ

-- The tables; `known` are the hosts that are not deleted.
pub record Db : Type 0 where
  pub settings : Settings
  pub known : List ℕ
  pub hosts : List (ℕ × HostRow)
  pub events : List EventRow
  pub next_id : ℕ
  pub active : List ((ℕ × Addr) × ActiveRow)
  pub fleet : List (Addr × FleetRow)
  pub suppress : List (Addr × ℕ)
  pub commands : List Command

-- The service: its tables, and its memory.
pub record Service : Type 0 where
  pub db : Db
  pub version : ℕ
  pub cached : Settings

pub data Error : Type 0 where
  err_validation err_not_found err_db : Error

abbrev pub second : ℕ
second = 10 ^ 9

abbrev pub evidence_window : ℕ
evidence_window = 7 * 86400 * second

abbrev pub cmd_retention : ℕ
cmd_retention = 86400 * second

abbrev pub max_events_per_post : ℕ
max_events_per_post = 500

unfoldable pub HostIp-discrete : Discrete (ℕ × Addr)
HostIp-discrete = hlevel (ℕ_discrete, Addr-discrete)

abbrev pub same_ip : Addr → Addr → Bool
same_ip a b = ite (Addr-discrete a b) true false

abbrev pub no_policy : HostPolicy
no_policy = record { detect = none; enforce = none; contribute = none; apply_fleet = none }

abbrev pub policy_of : Option HostRow → HostPolicy
policy_of none = no_policy
policy_of (some row) = row.policy

-- hostPolicy
unfoldable pub host_policy : ℕ → Db → HostPolicy
host_policy host db = policy_of (lookup ℕ_discrete host db.hosts)

abbrev pub effective_enforce : Settings → HostPolicy → Bool
effective_enforce st p = given p.enforce st.enforce

abbrev pub effective_contribute : Settings → HostPolicy → Bool
effective_contribute st p = given p.contribute st.contribute

-- bumpVersion
abbrev pub bump_version : Db → Db
bump_version db = record db { settings = record db.settings { version = db.settings.version + 1 } }

-- publishVersion
unfoldable pub publish_version : ℕ → Service → Service
publish_version v s =
    let cached = if ltb s.cached.version v then record s.cached { version = v } else s.cached in
    if leb v s.version then s else record s { version = v; cached = cached }

-- The end of UpdateSettings: the settings that it saved are published.
unfoldable pub publish_settings : Settings → Service → Service
publish_settings next s = record s {
  cached = if leb s.cached.version next.version then next else s.cached;
  version = if ltb s.version next.version then next.version else s.version;
}

-- sweep; each statement may fail by itself. An event retention of 0 is none.
unfoldable pub sweep : ℕ → ℕ → Bool → Bool → Bool → Bool → Bool → Db → Db
sweep now retention f_active f_fleet f_suppress f_commands f_events db = record db {
  active = if f_active then db.active else keep (λ (k, r). not (ltb r.expires_at now)) db.active;
  fleet = if f_fleet then db.fleet else keep (λ (k, r). not (ltb r.expires_at now)) db.fleet;
  suppress =
      if f_suppress then db.suppress else keep (λ (k, until). not (ltb until now)) db.suppress;
  commands =
      if f_commands
      then db.commands
      else keep (λ c. not (ltb (c.created_at + cmd_retention) now)) db.commands;
  events =
      if f_events || retention == 0
      then db.events
      else keep (λ e. not (ltb (e.time + retention) now)) db.events;
}

-- IsRoutable: the tests of net/netip on an address that is not IPv4-mapped.
abbrev pub is_loopback : Addr → Bool
is_loopback invalid = false
is_loopback (v4 a) = a / 2 ^ 24 == 127
is_loopback (v6 a z) = a == 1

abbrev pub is_unspecified : Addr → Bool
is_unspecified invalid = false
is_unspecified (v4 a) = a == 0
is_unspecified (v6 a z) = a == 0 && z == 0

abbrev pub is_multicast : Addr → Bool
is_multicast invalid = false
is_multicast (v4 a) = a / 2 ^ 28 == 14
is_multicast (v6 a z) = a / 2 ^ 120 == 255

abbrev pub is_link_local : Addr → Bool
is_link_local invalid = false
is_link_local (v4 a) = a / 2 ^ 16 == 43518
is_link_local (v6 a z) = a / 2 ^ 118 == 1018

abbrev pub is_zero_or_broadcast : Addr → Bool
is_zero_or_broadcast invalid = false
is_zero_or_broadcast (v4 a) = a / 2 ^ 24 == 0 || a == 4294967295
is_zero_or_broadcast (v6 a z) = false

-- The multicast scopes that the code tests too are among the multicast addresses.
unfoldable pub routable : Addr → Bool
routable addr =
    let ip = unmap addr in
    if not (is_valid ip)
      || is_loopback ip
      || is_unspecified ip
      || is_multicast ip
      || is_link_local ip
    then false
    else if is_zero_or_broadcast ip
    then false
    else not (in_some private_ranges ip)

-- parsePrefixes
abbrev pub allowed_prefix : Prefix → Prefix
allowed_prefix p =
    if is_4in6 p.base && leb 96 p.bits then prefix_from (unmap p.base) (p.bits - 96) else p

unfoldable pub parse_prefixes : Text → List String → List Prefix
parse_prefixes text [] = []
parse_prefixes text (e ∷ es) = elim (text.parse_prefix e) [
  | some p ↦ allowed_prefix p ∷ parse_prefixes text es
  | none ↦ elim (text.parse_addr e) [
    | some a ↦ prefix_from (unmap a) (bit_len (unmap a)) ∷ parse_prefixes text es
    | none ↦ parse_prefixes text es
  ]
]
