-- ===== src/Fleet/Ingest.antt =====
-- internal/server/ipban/service.go: Ingest, for the report of one host.
use Prim.Native.String.{String}
use server_monitor.Common.{
  ℕ, ◌+◌, ◌*◌, Bool, false, not, ◌&&◌, ◌||◌, ltb, if◌then◌else◌, ◌==◌, Option, none, some, List, [],
  ◌∷◌, length, take, ℕ_discrete,
}
use server_monitor.Common.Assoc.{insert, delete}
use server_monitor.Netip.{Addr, Prefix, unmap, in_some}
use server_monitor.Repository.Paths.{Name, same}
use server_monitor.Settings.{Text, Settings}
use server_monitor.Fleet.{
  Db, Status, ban, unban, EventRow, ActiveRow, Service, Error, err_db, second, max_events_per_post,
  HostIp-discrete, host_policy, effective_contribute, bump_version, publish_version, routable,
  parse_prefixes,
}
use server_monitor.Fleet.Propagation.{propagate}

-- The action of a reported event; one that is neither is skipped.
pub data Reported : Type 0 where
  reports_ban reports_unban reports_other : Reported

-- wire.IPBanEvent, where the time 0 is absent.
pub record WireEvent : Type 0 where
  pub id : Name
  pub time : ℕ
  pub ip : String
  pub action : Reported
  pub expires_at : Option ℕ
  pub enforced : Bool
  pub failures : ℕ
  pub count : ℕ

pub record Report : Type 0 where
  pub status : Status
  pub events : List WireEvent

-- Whether the host has sent an event with this id.
unfoldable pub has_event : ℕ → Name → List EventRow → Bool
has_event host id [] = false
has_event host id (e ∷ es) =
    (elim (e.host) [
      | none ↦ false
      | some h ↦ h == host && not (same id []) && same e.agent_event_id id
    ])
    || has_event host id es

-- What the loop of Ingest takes from an event: its address, and the end of a ban, or that it lifts one.
pub data Taken : Type 0 where
  banned : Addr → ℕ → Taken
  lifted : Addr → Taken

abbrev pub take_action : Reported → Option ℕ → Addr → Option Taken
take_action reports_ban none ip = none
take_action reports_ban (some expires) ip = some (banned ip expires)
take_action reports_unban e ip = some (lifted ip)
take_action reports_other e ip = none

unfoldable pub take_event : Text → WireEvent → Option Taken
take_event text ev = if ltb 128 (length ev.id) then none else elim (text.parse_addr ev.ip) [
  | none ↦ none
  | some ip ↦ take_action ev.action ev.expires_at (unmap ip)
]

abbrev pub event_time : ℕ → WireEvent → ℕ
event_time now ev = if ev.time == 0 || ltb (now + 120 * second) ev.time then now else ev.time

-- What Ingest holds of its transaction's start.
pub record Sender : Type 0 where
  pub host : ℕ
  pub now : ℕ
  pub settings : Settings
  pub contribute : Bool
  pub allow : List Prefix

abbrev pub ban_row : Sender → WireEvent → Addr → ℕ → ℕ → EventRow
ban_row c ev ip expires id = record {
  id = id;
  time = event_time c.now ev;
  host = some c.host;
  ip = ip;
  action = ban;
  expires_at = some expires;
  enforced = ev.enforced;
  failures = ev.failures;
  repeat_count = ev.count;
  agent_event_id = ev.id;
  contributed = c.contribute;
}

abbrev pub unban_row : Sender → WireEvent → Addr → ℕ → EventRow
unban_row c ev ip id = record {
  id = id;
  time = event_time c.now ev;
  host = some c.host;
  ip = ip;
  action = unban;
  expires_at = none;
  enforced = false;
  failures = 0;
  repeat_count = 0;
  agent_event_id = ev.id;
  contributed = c.contribute;
}

abbrev pub active_row : Sender → WireEvent → ℕ → ActiveRow
active_row c ev expires = record {
  banned_at = event_time c.now ev;
  expires_at = expires;
  enforced = ev.enforced;
  failures = ev.failures;
  repeat_count = ev.count;
}

abbrev pub add_event : EventRow → Db → Db
add_event row db = record db { events = row ∷ db.events; next_id = db.next_id + 1 }

-- The two cases of the loop, for an event that is new.
unfoldable pub take_ban : Sender → WireEvent → Addr → ℕ → Db → Db × Bool
take_ban c ev ip expires db =
    let db₁ = add_event (ban_row c ev ip expires db.next_id) db in
    let db₂ = record db₁ {
      active = insert HostIp-discrete (c.host, ip) (active_row c ev expires) db₁.active;
    } in
    if c.contribute && routable ip && not (in_some c.allow ip)
    then propagate c.settings ip c.now db₂
    else (db₂, false)

unfoldable pub take_unban : Sender → WireEvent → Addr → Db → Db
take_unban c ev ip db =
    let db₁ = add_event (unban_row c ev ip db.next_id) db in
    record db₁ { active = delete HostIp-discrete (c.host, ip) db₁.active }

-- The body of the loop, and whether the fleet set changed.
unfoldable pub process : Sender → WireEvent → Option Taken → Db → Db × Bool
process c ev none db = (db, false)
process c ev (some (banned ip expires)) db =
    if has_event c.host ev.id db.events then (db, false) else take_ban c ev ip expires db
process c ev (some (lifted ip)) db =
    (if has_event c.host ev.id db.events then db else take_unban c ev ip db, false)

unfoldable pub process_all : Text → Sender → List WireEvent → Db → Db × Bool
process_all text c [] db = (db, false)
process_all text c (ev ∷ evs) db =
    let (db', changed) = process c ev (take_event text ev) db in
    let (db'', more) = process_all text c evs db' in (db'', changed || more)

-- The upsert of the host's row, which leaves its overrides alone.
unfoldable pub report_status : ℕ → Status → Db → Db
report_status host status db = record db {
  hosts =
      insert ℕ_discrete host (record { policy = host_policy host db; status = some status })
        db.hosts;
}

abbrev pub sender : Text → ℕ → ℕ → Db → Sender
sender text now host db = record {
  host = host;
  now = now;
  settings = db.settings;
  contribute = effective_contribute db.settings (host_policy host db);
  allow = parse_prefixes text db.settings.allowlist;
}

abbrev pub finish : Db × Bool → Db
finish (db, changed) = if changed then bump_version db else db

-- The transaction of Ingest.
unfoldable pub ingest_events : Text → ℕ → ℕ → List WireEvent → Db → Db × Bool
ingest_events text now host evs db =
    let (db', changed) =
      process_all text (sender text now host db) (take max_events_per_post evs) db in
    (finish (db', changed), changed)

-- Ingest, where the first statement or the transaction may fail.
unfoldable pub ingest : Text → ℕ → Bool → Bool → ℕ → Report → Service → Service × Option Error
ingest text now f_status f_events host r s =
    let db₁ = report_status host r.status s.db in
    let s₁ = record s { db = db₁ } in
    let (db₂, changed) = ingest_events text now host r.events db₁ in
    let s₂ = record s { db = db₂ } in
    if f_status
    then (s, some err_db)
    else if length r.events == 0
    then (s₁, none)
    else if f_events
    then (s₁, some err_db)
    else (if changed then publish_version db₂.settings.version s₂ else s₂, none)
