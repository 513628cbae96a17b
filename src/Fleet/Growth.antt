-- ===== src/Fleet/Growth.antt =====
-- internal/server/ipban/service.go: the loop of Ingest adds events and removes none.
use server_monitor.Common.{
  ℕ, ◌≡◌, refl, sym, ap, ◌∙◌, true, false, not, ◌&&◌, if-holds, if-holds_given, ◌+◌, ◌*◌, List, [],
  ◌∷◌, ◌++◌, arith, Option, none, some,
}
use server_monitor.Common.Assoc.{lookup, insert}
use server_monitor.Netip.{Addr, Addr-discrete, in_some}
use server_monitor.Repository.Paths.{Name, same}
use server_monitor.Settings.{Text, Settings}
use server_monitor.Fleet.{Db, FleetRow, second, EventRow, HostIp-discrete, routable}
use server_monitor.Fleet.Propagation.{fleet_event, logged, upsert, propagate}
use server_monitor.Fleet.Frames.{propagate-holds}
use server_monitor.Fleet.Ingest.{
  Sender, WireEvent, Taken, banned, lifted, take_ban, take_unban, process, process_all, take_event,
  ban_row, unban_row, add_event, active_row, has_event,
}

-- The second tables hold the events of the first, after newer ones.
abbrev pub Extends : Db → Db → Type 0
Extends d d' = (new : List EventRow) × (d'.events ≡ new ++ d.events)

append_assoc : (xs ys zs : List EventRow) → (xs ++ ys) ++ zs ≡ xs ++ (ys ++ zs)
append_assoc [] ys zs = refl
append_assoc (x ∷ xs) ys zs = ap (λ l. x ∷ l) (append_assoc xs ys zs)

pub Extends-trans : (d d' d'' : Db) → Extends d d' → Extends d' d'' → Extends d d''
Extends-trans d d' d'' (new, e) (newer, e') =
    (newer ++ new, e' ∙ ap (λ l. newer ++ l) e ∙ sym (append_assoc newer new d.events))

pub logged-Extends :
    (now expires : ℕ) (ip : Addr) (previous : Option FleetRow) (db d : Db)
    → d.events ≡ db.events
    → Extends db (logged now expires ip previous d)
logged-Extends now expires ip none db d e = (
  fleet_event d.next_id now ip expires ∷ [],
  ap (λ l. fleet_event d.next_id now ip expires ∷ l) e,
)
logged-Extends now expires ip (some row) db d e = ([], e)

pub propagate-Extends :
    (st : Settings) (ip : Addr) (now : ℕ) (db : Db) → Extends db (propagate st ip now db).0
unfolding upsert
propagate-Extends st ip now db =
    propagate-holds (λ r. Extends db r.0) st ip now db ([], refl)
      (λ _ _ _.
        logged-Extends now (now + st.fleet_ttl_s * second) ip (lookup Addr-discrete ip db.fleet) db
          _ refl)

take_ban-Extends :
    (c : Sender) (ev : WireEvent) (ip : Addr) (expires : ℕ) (db : Db)
    → Extends (add_event (ban_row c ev ip expires db.next_id) db) (take_ban c ev ip expires db).0
unfolding take_ban
take_ban-Extends c ev ip expires db =
    let db₁ = add_event (ban_row c ev ip expires db.next_id) db in
    let db₂ = record db₁ {
      active = insert HostIp-discrete (c.host, ip) (active_row c ev expires) db₁.active;
    } in
    if-holds (λ r. Extends db₁ r.0) (c.contribute && routable ip && not (in_some c.allow ip))
      (propagate c.settings ip c.now db₂) (db₂, false) (propagate-Extends c.settings ip c.now db₂)
      ([], refl)

pub process-Extends :
    (c : Sender) (ev : WireEvent) (t : Option Taken) (db : Db) → Extends db (process c ev t db).0
unfolding process take_unban
process-Extends c ev none db = ([], refl)
process-Extends c ev (some (banned ip expires)) db =
    let row = ban_row c ev ip expires db.next_id in
    if-holds (λ r. Extends db r.0) (has_event c.host ev.id db.events) (db, false)
      (take_ban c ev ip expires db) ([], refl)
      (Extends-trans db (add_event row db) (take_ban c ev ip expires db).0 (row ∷ [], refl)
        (take_ban-Extends c ev ip expires db))
process-Extends c ev (some (lifted ip)) db =
    if-holds (λ d. Extends db d) (has_event c.host ev.id db.events) db (take_unban c ev ip db)
      ([], refl) (unban_row c ev ip db.next_id ∷ [], refl)

pub process_all-Extends :
    (text : Text) (c : Sender) (evs : List WireEvent) (db : Db)
    → Extends db (process_all text c evs db).0
unfolding process_all
process_all-Extends text c [] db = ([], refl)
process_all-Extends text c (ev ∷ evs) db =
    let db' = (process c ev (take_event text ev) db).0 in
    Extends-trans db db' (process_all text c evs db').0
      (process-Extends c ev (take_event text ev) db) (process_all-Extends text c evs db')

has_event-append :
    (host : ℕ) (id : Name) (new old : List EventRow)
    → has_event host id old ≡ true
    → has_event host id (new ++ old) ≡ true
unfolding has_event
has_event-append host id [] old h = h
has_event-append host id (e ∷ new) old h = ground (arith, has_event-append host id new old h)

pub has_event-Extends :
    (host : ℕ) (id : Name) (d d' : Db)
    → Extends d d'
    → has_event host id d.events ≡ true
    → has_event host id d'.events ≡ true
has_event-Extends host id d d' (new, e) h =
    ap (λ l. has_event host id l) e ∙ has_event-append host id new d.events h

has_event-ban_row :
    (c : Sender) (ev : WireEvent) (ip : Addr) (expires id : ℕ) (es : List EventRow)
    → same ev.id [] ≡ false
    → has_event c.host ev.id (ban_row c ev ip expires id ∷ es) ≡ true
unfolding has_event
has_event-ban_row c ev ip expires id es h = ground arith

has_event-unban_row :
    (c : Sender) (ev : WireEvent) (ip : Addr) (id : ℕ) (es : List EventRow)
    → same ev.id [] ≡ false
    → has_event c.host ev.id (unban_row c ev ip id ∷ es) ≡ true
unfolding has_event
has_event-unban_row c ev ip id es h = ground arith

-- An event with an id that the loop takes is among the events after it.
pub has_event-process :
    (c : Sender) (ev : WireEvent) (t : Taken) (db : Db)
    → same ev.id [] ≡ false
    → has_event c.host ev.id (process c ev (some t) db).0.events ≡ true
unfolding process take_unban
has_event-process c ev (banned ip expires) db h =
    let row = ban_row c ev ip expires db.next_id in
    if-holds_given (λ r. has_event c.host ev.id (r.0).events ≡ true)
      (has_event c.host ev.id db.events) (db, false) (take_ban c ev ip expires db) (λ seen. seen)
      (λ _.
        has_event-Extends c.host ev.id (add_event row db) (take_ban c ev ip expires db).0
          (take_ban-Extends c ev ip expires db)
          (has_event-ban_row c ev ip expires db.next_id db.events h))
has_event-process c ev (lifted ip) db h =
    if-holds_given (λ d. has_event c.host ev.id d.events ≡ true) (has_event c.host ev.id db.events)
      db (take_unban c ev ip db) (λ seen. seen)
      (λ _. has_event-unban_row c ev ip db.next_id db.events h)
