-- ===== src/Fleet/Changes.antt =====
-- internal/server/ipban/service.go: what administrators change. Of the flags, f_read is that a statement that reads
-- fails, and f_write that one that writes or the commit does: then nothing is committed. A lifetime is an int64 pattern,
-- in nanoseconds.
use Prim.Native.String.{String}
use server_monitor.Common.{
  ℕ, ◌+◌, ◌*◌, Bool, true, false, not, ◌&&◌, ◌||◌, ltb, if◌then◌else◌, ◌==◌, Option, none, some,
  List, [], ◌∷◌, ◌++◌, any, keep, length, ℕ_discrete, is_some,
}
use server_monitor.Common.Assoc.{lookup, insert, delete}
use server_monitor.Common.Int64.{lt_i64}
use server_monitor.Netip.{Addr, Addr-discrete, unmap, in_some}
use server_monitor.Settings.{Text, SettingsInput, HostPolicy, apply_input, validate}
use server_monitor.Fleet.{
  Db, Status, HostRow, Action, manual_ban, fleet_unban, manual_unban, EventRow, ActiveRow, FleetRow,
  Command, Service, Error, err_db, err_validation, err_not_found, second, same_ip, host_policy,
  effective_enforce, bump_version, publish_version, publish_settings, routable, parse_prefixes,
}
use server_monitor.Fleet.Ingest.{add_event}

-- Whether an override turns enforcement on.
abbrev pub is_on : Option Bool → Bool
is_on none = false
is_on (some b) = b

abbrev pub host_enforcing : List (ℕ × HostRow) → Bool
host_enforcing hosts = any (λ (h, row). is_on row.policy.enforce) hosts

-- UpdateSettings
unfoldable pub update_settings :
    Text → Bool → Bool → SettingsInput → Service → Service × Option Error
update_settings text f_read f_write input s =
    let (checked, err) = validate text (apply_input text s.db.settings input) in
    let next = record checked { version = s.db.settings.version + 1 } in
    let s₁ = record s { db = record s.db { settings = next } } in
    if f_read
    then (s, some err_db)
    else if is_some err
    then (s, some err_validation)
    else if length next.allowlist == 0 && host_enforcing s.db.hosts
    then (s, some err_validation)
    else if f_write
    then (s, some err_db)
    else (publish_settings next s₁, none)

-- The end of a transaction that bumps the version.
abbrev pub commit : Db → Service → Service
commit db s =
    let db' = bump_version db in publish_version db'.settings.version (record s { db = db' })

abbrev pub override : Option Bool → Option Bool → Option Bool
override none old = old
override (some b) old = some b

abbrev pub merged_policy : HostPolicy → HostPolicy → HostPolicy
merged_policy current patch = record {
  detect = override patch.detect current.detect;
  enforce = override patch.enforce current.enforce;
  contribute = override patch.contribute current.contribute;
  apply_fleet = override patch.apply_fleet current.apply_fleet;
}

abbrev pub status_of : Option HostRow → Option Status
status_of none = none
status_of (some row) = row.status

abbrev pub is_known : ℕ → Db → Bool
is_known host db = any (λ k. k == host) db.known

-- The upsert of a host's overrides, which leaves its status alone.
abbrev pub save_policy : ℕ → HostPolicy → Db → Db
save_policy host p db = record db {
  hosts =
      insert ℕ_discrete host
        (record { policy = p; status = status_of (lookup ℕ_discrete host db.hosts) }) db.hosts;
}

-- UpdateHostPolicy
unfoldable pub update_host_policy : Bool → Bool → ℕ → HostPolicy → Service → Service × Option Error
update_host_policy f_read f_write host patch s =
    let merged = merged_policy (host_policy host s.db) patch in
    if f_read
    then (s, some err_db)
    else if not (is_known host s.db)
    then (s, some err_not_found)
    else if effective_enforce s.db.settings merged && length s.db.settings.allowlist == 0
    then (s, some err_validation)
    else if f_write
    then (s, some err_db)
    else (commit (save_policy host merged s.db) s, none)

abbrev pub admin_event : ℕ → Option ℕ → Addr → Action → Option ℕ → ℕ → EventRow
admin_event now host ip action expires id = record {
  id = id;
  time = now;
  host = host;
  ip = ip;
  action = action;
  expires_at = expires;
  enforced = false;
  failures = 0;
  repeat_count = 0;
  agent_event_id = [];
  contributed = false;
}

abbrev pub manual_min_ttl : ℕ
manual_min_ttl = 60 * second

abbrev pub manual_max_ttl : ℕ
manual_max_ttl = 365 * 86400 * second

-- The row of ipban_fleet after the upsert of ManualBan.
abbrev pub manual_row : ℕ → ℕ → Option FleetRow → FleetRow
manual_row now expires none = record {
  first_seen = now;
  last_seen = now;
  host_count = 0;
  ban_count = 0;
  expires_at = expires;
  manual = true;
}
manual_row now expires (some row) = record row {
  last_seen = now;
  expires_at = expires;
  manual = true;
}

-- The transaction of ManualBan.
unfoldable pub ban_by_hand : ℕ → Addr → ℕ → Db → Db
ban_by_hand now ip expires db =
    let row = manual_row now expires (lookup Addr-discrete ip db.fleet) in
    add_event (admin_event now none ip manual_ban (some expires) db.next_id) (record db {
      suppress = delete Addr-discrete ip db.suppress;
      fleet = insert Addr-discrete ip row db.fleet;
    })

-- What is done with an address, where it parses.
abbrev pub on_addr :
    Option Addr → Service → (Addr → Service × Option Error) → Service × Option Error
on_addr none s f = (s, some err_validation)
on_addr (some ip) s f = f (unmap ip)

-- ManualBan of an address that parses.
unfoldable pub ban_addr : Text → ℕ → Bool → Addr → ℕ → Service → Service × Option Error
ban_addr text now f_write ip ttl s =
    if not (routable ip)
    then (s, some err_validation)
    else if in_some (parse_prefixes text s.cached.allowlist) ip
    then (s, some err_validation)
    else if lt_i64 ttl manual_min_ttl || lt_i64 manual_max_ttl ttl
    then (s, some err_validation)
    else if f_write
    then (s, some err_db)
    else (commit (ban_by_hand now ip (now + ttl) s.db) s, none)

-- ManualBan
unfoldable pub manual_ban_ip : Text → ℕ → Bool → String → ℕ → Service → Service × Option Error
manual_ban_ip text now f_write raw ttl s =
    on_addr (text.parse_addr (text.trim_space raw)) s (λ ip. ban_addr text now f_write ip ttl s)

-- The commands of FleetUnban: one for each host that has the address banned.
unfoldable pub unban_commands : ℕ → Addr → List ((ℕ × Addr) × ActiveRow) → List Command
unban_commands now ip [] = []
unban_commands now ip (((host, a), row) ∷ rows) =
    if same_ip a ip && ltb now row.expires_at
    then record { host = host; ip = a; created_at = now } ∷ unban_commands now ip rows
    else unban_commands now ip rows

-- The transaction of FleetUnban, with the time to live of the cached settings.
unfoldable pub unban_fleet : ℕ → Addr → ℕ → Db → Db
unban_fleet now ip ttl db =
    add_event (admin_event now none ip fleet_unban none db.next_id) (record db {
      fleet = delete Addr-discrete ip db.fleet;
      suppress = insert Addr-discrete ip (now + ttl) db.suppress;
      commands = db.commands ++ unban_commands now ip db.active;
      active = keep (λ ((h, a), row). not (same_ip a ip)) db.active;
    })

unfoldable pub unban_addr : ℕ → Bool → Bool → Addr → Service → Service × Option Error
unban_addr now f_read f_write ip s =
    if f_read
    then (s, some err_db)
    else if not (is_some (lookup Addr-discrete ip s.db.fleet))
    then (s, some err_not_found)
    else if f_write
    then (s, some err_db)
    else (commit (unban_fleet now ip (s.cached.fleet_ttl_s * second) s.db) s, none)

-- FleetUnban
unfoldable pub fleet_unban_ip : Text → ℕ → Bool → Bool → String → Service → Service × Option Error
fleet_unban_ip text now f_read f_write raw s =
    on_addr (text.parse_addr (text.trim_space raw)) s (λ ip. unban_addr now f_read f_write ip s)

-- The transaction of HostUnban; the host's agent reports that it lifted the ban.
unfoldable pub unban_host : ℕ → ℕ → Addr → Db → Db
unban_host now host ip db =
    add_event (admin_event now (some host) ip manual_unban none db.next_id) (record db {
      commands = db.commands ++ (record { host = host; ip = ip; created_at = now } ∷ []);
    })

unfoldable pub host_unban_addr : ℕ → Bool → Bool → ℕ → Addr → Service → Service × Option Error
host_unban_addr now f_read f_write host ip s =
    if f_read
    then (s, some err_db)
    else if not (is_known host s.db)
    then (s, some err_not_found)
    else if f_write
    then (s, some err_db)
    else (commit (unban_host now host ip s.db) s, none)

-- HostUnban
unfoldable pub host_unban_ip :
    Text → ℕ → Bool → Bool → ℕ → String → Service → Service × Option Error
host_unban_ip text now f_read f_write host raw s =
    on_addr (text.parse_addr (text.trim_space raw)) s
      (λ ip. host_unban_addr now f_read f_write host ip s)
