-- ===== src/Fleet/Justified/Loop.antt =====
-- internal/server/ipban/service.go: the loop of Ingest, and the addresses that it bans on every host.
use server_monitor.Common.{
  ℕ, ◌≡◌, refl, Bool, true, false, not, ◌&&◌, if-holds, if-holds_given, ◌+◌, ◌*◌, List, [], ◌∷◌,
  arith, Option, none, some, Bool-cases, inl, inr,
}
use server_monitor.Common.Assoc.{lookup, insert}
use server_monitor.Netip.{Addr, Addr-discrete, in_some}
use server_monitor.Repository.Paths.{same}
use server_monitor.Settings.{Text}
use server_monitor.Fleet.{Db, second, HostIp-discrete, routable}
use server_monitor.Fleet.Propagation.{upsert, propagate}
use server_monitor.Fleet.Frames.{propagate-holds}
use server_monitor.Fleet.Ingest.{
  Sender, WireEvent, Taken, banned, lifted, take_ban, take_unban, process, process_all, take_event,
  ban_row, add_event, active_row, has_event,
}
use server_monitor.Common.{ite, take}
use mathlib.Core.Path.{subst}
use server_monitor.Fleet.{max_events_per_post}
use server_monitor.Fleet.Propagation.{too_few, evidence, is_suppressed, is_manual}
use server_monitor.Fleet.Ingest.{ingest_events, sender, finish}
use server_monitor.Fleet.Frames.{SameRest, process-SameRest, process_all-SameRest}
use server_monitor.Fleet.Growth.{logged-Extends, process_all-Extends}
use server_monitor.Fleet.Growth.{propagate-Extends}
use server_monitor.Fleet.Justified.{
  Justified, Explained, Explained-trans, too_few-Extends, upsert-other,
}

upsert-Justified :
    (c : Sender) (ip : Addr) (db : Db)
    → (c.contribute && routable ip && not (in_some c.allow ip)) ≡ true
    → too_few c.settings (evidence ip c.now db) ≡ false
    → is_suppressed c.now (lookup Addr-discrete ip db.suppress) ≡ false
    → is_manual (lookup Addr-discrete ip db.fleet) ≡ false
    → Justified c ip db (upsert c.settings ip c.now db).0
unfolding upsert
upsert-Justified c ip db g few free auto =
    let ttl = c.settings.fleet_ttl_s * second in
    let previous = lookup Addr-discrete ip db.fleet in
    record {
      contributes = ground (arith, g);
      outside = ground (arith, g);
      unlisted = ground (arith, g);
      free = free;
      not_manual = auto;
      enough =
          too_few-Extends c.settings ip c.now db (upsert c.settings ip c.now db).0
            (logged-Extends c.now (c.now + ttl) ip previous db _ refl) few;
    }

upsert-Explained :
    (c : Sender) (ip a : Addr) (db : Db)
    → Justified c ip db (upsert c.settings ip c.now db).0
    → Explained c a db (upsert c.settings ip c.now db).0
upsert-Explained c ip a db j = elim (Bool-cases (ite (Addr-discrete ip a) true false)) [
  | inl same ↦
      let e : ip ≡ a = ground (arith, same) in
      inr (subst (λ x. Justified c x db (upsert c.settings ip c.now db).0) e j)
  | inr other ↦ inl (upsert-other c.settings ip a c.now db other)
]

propagate-Explained :
    (c : Sender) (ip a : Addr) (db : Db)
    → (c.contribute && routable ip && not (in_some c.allow ip)) ≡ true
    → Explained c a db (propagate c.settings ip c.now db).0
propagate-Explained c ip a db g =
    propagate-holds (λ r. Explained c a db r.0) c.settings ip c.now db (inl refl)
      (λ few free auto. upsert-Explained c ip a db (upsert-Justified c ip db g few free auto))

take_ban-Explained :
    (c : Sender) (ev : WireEvent) (ip a : Addr) (expires : ℕ) (db : Db)
    → Explained c a db (take_ban c ev ip expires db).0
unfolding take_ban
take_ban-Explained c ev ip a expires db =
    let db₁ = add_event (ban_row c ev ip expires db.next_id) db in
    let db₂ = record db₁ {
      active = insert HostIp-discrete (c.host, ip) (active_row c ev expires) db₁.active;
    } in
    let rest : SameRest db db₂ = record {
      settings = refl;
      known = refl;
      hosts = refl;
      suppress = refl;
      commands = refl;
    } in
    if-holds_given {A = Db × Bool} (λ r. Explained c a db r.0)
      (c.contribute && routable ip && not (in_some c.allow ip)) (propagate c.settings ip c.now db₂)
      (db₂, false)
      (λ g.
        Explained-trans c a db db₂ (propagate c.settings ip c.now db₂).0 rest
          (propagate-Extends c.settings ip c.now db₂) (inl refl) (propagate-Explained c ip a db₂ g))
      (λ _. inl refl)

process-Explained :
    (c : Sender) (ev : WireEvent) (t : Option Taken) (a : Addr) (db : Db)
    → Explained c a db (process c ev t db).0
unfolding process take_unban
process-Explained c ev none a db = inl refl
process-Explained c ev (some (banned ip expires)) a db =
    if-holds {A = Db × Bool} (λ r. Explained c a db r.0) (has_event c.host ev.id db.events)
      (db, false) (take_ban c ev ip expires db) (inl refl) (take_ban-Explained c ev ip a expires db)
process-Explained c ev (some (lifted ip)) a db =
    if-holds (λ d. Explained c a db d) (has_event c.host ev.id db.events) db (take_unban c ev ip db)
      (inl refl) (inl refl)

process_all-Explained :
    (text : Text) (c : Sender) (evs : List WireEvent) (a : Addr) (db : Db)
    → Explained c a db (process_all text c evs db).0
unfolding process_all
process_all-Explained text c [] a db = inl refl
process_all-Explained text c (ev ∷ evs) a db =
    let db' = (process c ev (take_event text ev) db).0 in
    Explained-trans c a db db' (process_all text c evs db').0
      (process-SameRest c ev (take_event text ev) db) (process_all-Extends text c evs db')
      (process-Explained c ev (take_event text ev) a db) (process_all-Explained text c evs a db')

finish-events : (r : Db × Bool) → (finish r).events ≡ r.0.events
finish-events (d, true) = refl
finish-events (d, false) = refl

finish-fleet :
    (r : Db × Bool) (ip : Addr)
    → lookup Addr-discrete ip (finish r).fleet ≡ lookup Addr-discrete ip r.0.fleet
finish-fleet (d, true) ip = refl
finish-fleet (d, false) ip = refl

-- The transaction of Ingest leaves the fleet entry of an address as it was, or the host contributes under its effective
-- policy, the address is routable and not in the allowlist, it was not suppressed, its entry was not a manual ban, and
-- the contributed bans of the last seven days reach the least number of hosts or of bans.
pub ingest_events-Explained :
    (text : Text) (now host : ℕ) (evs : List WireEvent) (db : Db) (ip : Addr)
    → Explained (sender text now host db) ip db (ingest_events text now host evs db).0
unfolding ingest_events
ingest_events-Explained text now host evs db ip =
    let c = sender text now host db in
    let es = take max_events_per_post evs in
    let r = process_all text c es db in
    Explained-trans c ip db r.0 (finish r) (process_all-SameRest text c es db) ([], finish-events r)
      (process_all-Explained text c es ip db) (inl (finish-fleet r ip))
