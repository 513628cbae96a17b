-- ===== src/Fleet/Frames.antt =====
-- internal/server/ipban/service.go: what the transaction of Ingest leaves alone.
use server_monitor.Common.{
  ℕ, ◌≡◌, refl, ◌∙◌, not, ◌&&◌, Bool, if-holds, if-holds_given, if◌then◌else◌, false, List, [], ◌∷◌,
  arith, Option, none, some,
}
use server_monitor.Netip.{Addr-discrete, Addr, in_some}
use server_monitor.Common.Assoc.{lookup, insert}
use server_monitor.Settings.{Text, Settings}
use server_monitor.Fleet.{Db, HostIp-discrete, routable}
use server_monitor.Fleet.Propagation.{
  too_few, evidence, is_suppressed, is_manual, upsert, propagate,
}
use server_monitor.Fleet.Ingest.{
  Sender, WireEvent, Taken, banned, lifted, take_ban, take_unban, process, process_all, take_event,
  ban_row, add_event, active_row, has_event,
}

-- The parts of the tables that the loop of Ingest does not write.
pub record SameRest (d d' : Db) : Type 0 where
  pub settings : d'.settings ≡ d.settings
  pub known : d'.known ≡ d.known
  pub hosts : d'.hosts ≡ d.hosts
  pub suppress : d'.suppress ≡ d.suppress
  pub commands : d'.commands ≡ d.commands

pub SameRest-refl : (d : Db) → SameRest d d
SameRest-refl d = record {
  settings = refl;
  known = refl;
  hosts = refl;
  suppress = refl;
  commands = refl;
}

pub SameRest-trans : (d d' d'' : Db) → SameRest d d' → SameRest d' d'' → SameRest d d''
SameRest-trans d d' d'' p q = record {
  settings = q.settings ∙ p.settings;
  known = q.known ∙ p.known;
  hosts = q.hosts ∙ p.hosts;
  suppress = q.suppress ∙ p.suppress;
  commands = q.commands ∙ p.commands;
}

-- What holds of unchanged tables and, where the guards pass, of the upsert holds of propagate.
pub propagate-holds {ℓ} :
    (P : Db × Bool → Type ℓ) (st : Settings) (ip : Addr) (now : ℕ) (db : Db)
    → P (db, false)
    → (too_few st (evidence ip now db) ≡ false
        → is_suppressed now (lookup Addr-discrete ip db.suppress) ≡ false
        → is_manual (lookup Addr-discrete ip db.fleet) ≡ false
        → P (upsert st ip now db))
    → P (propagate st ip now db)
unfolding propagate
propagate-holds P st ip now db same up =
    let manual = is_manual (lookup Addr-discrete ip db.fleet) in
    let suppressed = is_suppressed now (lookup Addr-discrete ip db.suppress) in
    let guarded = if manual then (db, false) else upsert st ip now db in
    if-holds_given P (too_few st (evidence ip now db)) (db, false)
      (if suppressed then (db, false) else guarded) (λ _. same)
      (λ few.
        if-holds_given P suppressed (db, false) guarded (λ _. same)
          (λ free.
            if-holds_given P manual (db, false) (upsert st ip now db) (λ _. same) (up few free)))

propagate-SameRest :
    (st : Settings) (ip : Addr) (now : ℕ) (db : Db) → SameRest db (propagate st ip now db).0
unfolding upsert
propagate-SameRest st ip now db =
    propagate-holds (λ r. SameRest db r.0) st ip now db (SameRest-refl db)
      (λ _ _ _. record {
        settings = ground arith;
        known = ground arith;
        hosts = ground arith;
        suppress = ground arith;
        commands = ground arith;
      })

take_ban-SameRest :
    (c : Sender) (ev : WireEvent) (ip : Addr) (expires : ℕ) (db : Db)
    → SameRest db (take_ban c ev ip expires db).0
unfolding take_ban
take_ban-SameRest c ev ip expires db =
    let row = ban_row c ev ip expires db.next_id in
    let db₁ = add_event row db in
    let db₂ = record db₁ {
      active = insert HostIp-discrete (c.host, ip) (active_row c ev expires) db₁.active;
    } in
    let rest : SameRest db db₂ = record {
      settings = refl;
      known = refl;
      hosts = refl;
      suppress = refl;
      commands = refl;
    } in
    if-holds (λ r. SameRest db r.0) (c.contribute && routable ip && not (in_some c.allow ip))
      (propagate c.settings ip c.now db₂) (db₂, false)
      (SameRest-trans db db₂ (propagate c.settings ip c.now db₂).0 rest
        (propagate-SameRest c.settings ip c.now db₂))
      rest

take_unban-SameRest :
    (c : Sender) (ev : WireEvent) (ip : Addr) (db : Db) → SameRest db (take_unban c ev ip db)
unfolding take_unban
take_unban-SameRest c ev ip db = record {
  settings = refl;
  known = refl;
  hosts = refl;
  suppress = refl;
  commands = refl;
}

pub process-SameRest :
    (c : Sender) (ev : WireEvent) (t : Option Taken) (db : Db) → SameRest db (process c ev t db).0
unfolding process
process-SameRest c ev none db = SameRest-refl db
process-SameRest c ev (some (banned ip expires)) db =
    if-holds (λ r. SameRest db r.0) (has_event c.host ev.id db.events) (db, false)
      (take_ban c ev ip expires db) (SameRest-refl db) (take_ban-SameRest c ev ip expires db)
process-SameRest c ev (some (lifted ip)) db =
    if-holds (λ d. SameRest db d) (has_event c.host ev.id db.events) db (take_unban c ev ip db)
      (SameRest-refl db) (take_unban-SameRest c ev ip db)

pub process_all-SameRest :
    (text : Text) (c : Sender) (evs : List WireEvent) (db : Db)
    → SameRest db (process_all text c evs db).0
unfolding process_all
process_all-SameRest text c [] db = SameRest-refl db
process_all-SameRest text c (ev ∷ evs) db =
    let db' = (process c ev (take_event text ev) db).0 in
    SameRest-trans db db' (process_all text c evs db').0
      (process-SameRest c ev (take_event text ev) db) (process_all-SameRest text c evs db')
