-- ===== src/Fleet/Propagation.antt =====
-- internal/server/ipban/service.go: propagate, the evidence against an address.
use server_monitor.Common.{
  ℕ, ◌+◌, ◌*◌, ◌/◌, Bool, true, false, not, ◌&&◌, ltb, if◌then◌else◌, ◌==◌, Option, none, some,
  List, [], ◌∷◌, any, keep, length, is_some,
}
use server_monitor.Common.Assoc.{lookup, insert}
use server_monitor.Netip.{Addr, Addr-discrete}
use server_monitor.Settings.{Settings}
use server_monitor.Fleet.{
  Db, Action, ban, unban, fleet_ban, EventRow, FleetRow, second, evidence_window, same_ip,
}

abbrev pub is_ban : Action → Bool
is_ban ban = true
is_ban unban = false
is_ban fleet_ban = false
is_ban Action.manual_ban = false
is_ban Action.fleet_unban = false
is_ban Action.manual_unban = false

-- The evidence of propagate: a contributed ban of the address by a host, inside the window.
abbrev pub is_evidence : Addr → ℕ → EventRow → Bool
is_evidence ip now e =
    same_ip e.ip ip
    && is_ban e.action
    && e.contributed
    && is_some e.host
    && ltb now (e.time + evidence_window)

-- How many hosts are among the rows, each counted once.
abbrev pub other_host : Option ℕ → EventRow → Bool
other_host none e = true
other_host (some h) e = elim (e.host) [ none ↦ true | some k ↦ not (k == h) ]

unfoldable pub distinct_hosts : List EventRow → ℕ
distinct_hosts [] = 0
distinct_hosts (e ∷ es) =
    if is_some e.host && not (any (λ d. not (other_host e.host d)) es)
    then distinct_hosts es + 1
    else distinct_hosts es

-- The row of ipban_fleet after the upsert of propagate.
abbrev pub refreshed : ℕ → ℕ → ℕ → ℕ → Option FleetRow → FleetRow
refreshed now hosts bans expires none = record {
  first_seen = now;
  last_seen = now;
  host_count = hosts;
  ban_count = bans;
  expires_at = expires;
  manual = false;
}
refreshed now hosts bans expires (some row) = record row {
  last_seen = now;
  host_count = hosts;
  ban_count = bans;
  expires_at = if ltb row.expires_at expires then expires else row.expires_at;
}

abbrev pub fleet_event : ℕ → ℕ → Addr → ℕ → EventRow
fleet_event id now ip expires = record {
  id = id;
  time = now;
  host = none;
  ip = ip;
  action = fleet_ban;
  expires_at = some expires;
  enforced = false;
  failures = 0;
  repeat_count = 0;
  agent_event_id = [];
  contributed = false;
}

abbrev pub is_manual : Option FleetRow → Bool
is_manual none = false
is_manual (some row) = row.manual

abbrev pub is_suppressed : ℕ → Option ℕ → Bool
is_suppressed now none = false
is_suppressed now (some until) = ltb now until

-- Whether an upsert by propagate is to reach the agents: the row is new, or half of its time has passed.
abbrev pub is_due : ℕ → ℕ → Option FleetRow → Bool
is_due now ttl none = true
is_due now ttl (some row) = ltb row.expires_at (now + ttl / 2)

abbrev pub logged : ℕ → ℕ → Addr → Option FleetRow → Db → Db
logged now expires ip none db = record db {
  events = fleet_event db.next_id now ip expires ∷ db.events;
  next_id = db.next_id + 1;
}
logged now expires ip (some row) db = db

abbrev pub evidence : Addr → ℕ → Db → List EventRow
evidence ip now db = keep (is_evidence ip now) db.events

abbrev pub too_few : Settings → List EventRow → Bool
too_few st es = ltb (distinct_hosts es) st.fleet_min_hosts && ltb (length es) st.fleet_min_bans

-- The upsert of propagate, and whether the fleet set changed. A time to live that Validate admits does not wrap.
unfoldable pub upsert : Settings → Addr → ℕ → Db → Db × Bool
upsert st ip now db =
    let es = evidence ip now db in
    let previous = lookup Addr-discrete ip db.fleet in
    let ttl = st.fleet_ttl_s * second in
    let row = refreshed now (distinct_hosts es) (length es) (now + ttl) previous in
    (
      logged now (now + ttl) ip previous
          (record db { fleet = insert Addr-discrete ip row db.fleet }),
      is_due now ttl previous,
    )

-- propagate
unfoldable pub propagate : Settings → Addr → ℕ → Db → Db × Bool
propagate st ip now db =
    if too_few st (evidence ip now db)
    then (db, false)
    else if is_suppressed now (lookup Addr-discrete ip db.suppress)
    then (db, false)
    else if is_manual (lookup Addr-discrete ip db.fleet)
    then (db, false)
    else upsert st ip now db
