-- ===== src/Fleet/Announced/Loop.antt =====
-- internal/server/ipban/service.go: what the loop of Ingest changes of what agents are told.
use server_monitor.Common.{
  ℕ, ◌≡◌, refl, ◌≤◌, ◌+◌, ◌*◌, Bool, true, false, not, ◌&&◌, ltb, if-holds, List, [], ◌∷◌, arith,
  Option, none, some, length,
}
use server_monitor.Common.Assoc.{lookup, insert}
use server_monitor.Netip.{Addr, Addr-discrete, in_some}
use server_monitor.Settings.{Text, Settings}
use server_monitor.Fleet.{Db, FleetRow, HostIp-discrete, routable, second, host_policy}
use server_monitor.Fleet.Propagation.{
  refreshed, logged, is_due, propagate, upsert, evidence, distinct_hosts,
}
use server_monitor.Fleet.Ingest.{
  Sender, WireEvent, Taken, banned, lifted, take_ban, take_unban, process, process_all, take_event,
  ban_row, add_event, active_row, has_event,
}
use server_monitor.Fleet.Frames.{propagate-holds}
use server_monitor.Fleet.Announced.{Unchanged, Unchanged-refl, Unchanged-trans, is_banned-insert}

upsert-Unchanged :
    (now hosts bans ttl : ℕ) (ip : Addr) (previous : Option FleetRow) (db : Db)
    → lookup Addr-discrete ip db.fleet ≡ previous
    → 2 ≤ ttl
    → is_due now ttl previous ≡ false
    → Unchanged now db (
        logged now (now + ttl) ip previous (record db {
          fleet = insert Addr-discrete ip (refreshed now hosts bans (now + ttl) previous) db.fleet;
        }))
unfolding host_policy
upsert-Unchanged now hosts bans ttl ip none db e t due = ground (arith, due)
upsert-Unchanged now hosts bans ttl ip (some row) db e t due =
    let new = refreshed now hosts bans (now + ttl) (some row) in
    let old_live : ltb now row.expires_at ≡ true = ground (arith, due, t) in
    let new_live : ltb now new.expires_at ≡ true = ground (arith, due, t) in
    record {
      settings = refl;
      policies = λ _. refl;
      fleet = λ a. is_banned-insert now a ip row new db.fleet e old_live new_live;
      commands = refl;
    }

propagate-Unchanged :
    (st : Settings) (ip : Addr) (now : ℕ) (db : Db)
    → 1 ≤ st.fleet_ttl_s
    → (propagate st ip now db).1 ≡ false
    → Unchanged now db (propagate st ip now db).0
unfolding upsert
propagate-Unchanged st ip now db t =
    let es = evidence ip now db in
    propagate-holds (λ r. r.1 ≡ false → Unchanged now db r.0) st ip now db
      (λ _. Unchanged-refl now db)
      (λ _ _ _ due.
        upsert-Unchanged now (distinct_hosts es) (length es) (st.fleet_ttl_s * second) ip
          (lookup Addr-discrete ip db.fleet) db refl (omega (arith, t)) due)

take_ban-Unchanged :
    (c : Sender) (ev : WireEvent) (ip : Addr) (expires : ℕ) (db : Db)
    → 1 ≤ (c.settings).fleet_ttl_s
    → (take_ban c ev ip expires db).1 ≡ false
    → Unchanged c.now db (take_ban c ev ip expires db).0
unfolding take_ban host_policy
take_ban-Unchanged c ev ip expires db t =
    let db₁ = add_event (ban_row c ev ip expires db.next_id) db in
    let db₂ = record db₁ {
      active = insert HostIp-discrete (c.host, ip) (active_row c ev expires) db₁.active;
    } in
    let logs : Unchanged c.now db db₂ = record {
      settings = refl;
      policies = λ _. refl;
      fleet = λ _. refl;
      commands = refl;
    } in
    if-holds {A = Db × Bool} (λ r. r.1 ≡ false → Unchanged c.now db r.0)
      (c.contribute && routable ip && not (in_some c.allow ip)) (propagate c.settings ip c.now db₂)
      (db₂, false)
      (λ same.
        Unchanged-trans c.now db db₂ (propagate c.settings ip c.now db₂).0 logs
          (propagate-Unchanged c.settings ip c.now db₂ t same))
      (λ _. logs)

process-Unchanged :
    (c : Sender) (ev : WireEvent) (t : Option Taken) (db : Db)
    → 1 ≤ (c.settings).fleet_ttl_s
    → (process c ev t db).1 ≡ false
    → Unchanged c.now db (process c ev t db).0
unfolding process take_unban host_policy
process-Unchanged c ev none db t = λ _. Unchanged-refl c.now db
process-Unchanged c ev (some (banned ip expires)) db t =
    if-holds {A = Db × Bool} (λ r. r.1 ≡ false → Unchanged c.now db r.0)
      (has_event c.host ev.id db.events) (db, false) (take_ban c ev ip expires db)
      (λ _. Unchanged-refl c.now db) (take_ban-Unchanged c ev ip expires db t)
process-Unchanged c ev (some (lifted ip)) db t = λ _.
    if-holds (λ d. Unchanged c.now db d) (has_event c.host ev.id db.events) db
      (take_unban c ev ip db) (Unchanged-refl c.now db)
      (record { settings = refl; policies = λ _. refl; fleet = λ _. refl; commands = refl })

-- The loop, where it does not report that the fleet set changed.
pub process_all-Unchanged :
    (text : Text) (c : Sender) (evs : List WireEvent) (db : Db)
    → 1 ≤ (c.settings).fleet_ttl_s
    → (process_all text c evs db).1 ≡ false
    → Unchanged c.now db (process_all text c evs db).0
unfolding process_all
process_all-Unchanged text c [] db t same = Unchanged-refl c.now db
process_all-Unchanged text c (ev ∷ evs) db t same =
    let r = process c ev (take_event text ev) db in
    let rest = process_all text c evs r.0 in
    Unchanged-trans c.now db r.0 rest.0
      (process-Unchanged c ev (take_event text ev) db t (ground (arith, same)))
      (process_all-Unchanged text c evs r.0 t (ground (arith, same)))
