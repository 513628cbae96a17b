-- ===== src/Fleet/Justified.antt =====
-- internal/server/ipban/service.go: what Ingest needs to ban an address on every host.
pub mod Loop
use server_monitor.Common.{
  ℕ, ◌≡◌, refl, sym, ap, ◌∙◌, Bool, true, false, not, ◌&&◌, ◌||◌, if-holds, if-holds_given, ◌+◌,
  ◌*◌, List, [], ◌∷◌, ◌++◌, arith, Option, none, some, is_some, Bool-cases, inl, inr,
}
use server_monitor.Common.Assoc.{lookup, insert}
use server_monitor.Netip.{Addr, Addr-discrete, in_some}
use server_monitor.Repository.Paths.{Name, same}
use server_monitor.Settings.{Text, Settings}
use server_monitor.Fleet.{Db, FleetRow, second, EventRow, HostIp-discrete, routable}
use server_monitor.Fleet.Propagation.{fleet_event, logged, upsert, propagate}
use server_monitor.Fleet.Frames.{propagate-holds}
use server_monitor.Fleet.Ingest.{
  Sender, WireEvent, Taken, banned, lifted, take_ban, take_unban, process, process_all, take_event,
  ban_row, unban_row, add_event, active_row, has_event,
}
use server_monitor.Common.{ite, length, keep, ltb, if◌then◌else◌, take}
use mathlib.Core.Path.{subst}
use mathlib.Core.Logic.{◌⊎◌}
use server_monitor.Common.Assoc.{lookup-insert}
use server_monitor.Fleet.{bump_version, max_events_per_post}
use server_monitor.Fleet.Propagation.{
  too_few, evidence, is_evidence, is_suppressed, is_manual, distinct_hosts, refreshed,
}
use server_monitor.Fleet.Ingest.{ingest_events, sender}
use server_monitor.Fleet.Frames.{SameRest, SameRest-trans, process-SameRest, process_all-SameRest}
use server_monitor.Fleet.Growth.{
  Extends, Extends-trans, logged-Extends, process_all-Extends, process-Extends,
}

-- What stands behind an entry of the fleet set that the loop wrote, from the tables d to the tables d'.
pub record Justified (c : Sender) (ip : Addr) (d d' : Db) : Type 0 where
  pub contributes : c.contribute ≡ true
  pub outside : routable ip ≡ true
  pub unlisted : in_some c.allow ip ≡ false
  pub free : is_suppressed c.now (lookup Addr-discrete ip d.suppress) ≡ false
  pub not_manual : is_manual (lookup Addr-discrete ip d.fleet) ≡ false
  pub enough : too_few c.settings (evidence ip c.now d') ≡ false

-- The entry of the address is as it was, or justified.
abbrev pub Explained : Sender → Addr → Db → Db → Type 0
Explained c ip d d' =
    (lookup Addr-discrete ip d'.fleet ≡ lookup Addr-discrete ip d.fleet) ⊎ Justified c ip d d'

too_few-∷ :
    (st : Settings) (p : EventRow → Bool) (e : EventRow) (es : List EventRow)
    → too_few st (keep p es) ≡ false
    → too_few st (keep p (e ∷ es)) ≡ false
unfolding distinct_hosts
too_few-∷ st p e es h = ground (arith, h)

too_few-append :
    (st : Settings) (p : EventRow → Bool) (new old : List EventRow)
    → too_few st (keep p old) ≡ false
    → too_few st (keep p (new ++ old)) ≡ false
too_few-append st p [] old h = h
too_few-append st p (e ∷ new) old h = too_few-∷ st p e (new ++ old) (too_few-append st p new old h)

pub too_few-Extends :
    (st : Settings) (ip : Addr) (now : ℕ) (d d' : Db)
    → Extends d d'
    → too_few st (evidence ip now d) ≡ false
    → too_few st (evidence ip now d') ≡ false
too_few-Extends st ip now d d' (new, e) h =
    ap (λ es. too_few st (keep (is_evidence ip now) es)) e
    ∙ too_few-append st (is_evidence ip now) new d.events h

pub Explained-trans :
    (c : Sender) (ip : Addr) (d d' d'' : Db)
    → SameRest d d'
    → Extends d' d''
    → Explained c ip d d'
    → Explained c ip d' d''
    → Explained c ip d d''
Explained-trans c ip d d' d'' rest ext (inl e) (inl e') = inl (e' ∙ e)
Explained-trans c ip d d' d'' rest ext (inr j) _ = inr (record {
  contributes = j.contributes;
  outside = j.outside;
  unlisted = j.unlisted;
  free = j.free;
  not_manual = j.not_manual;
  enough = too_few-Extends c.settings ip c.now d' d'' ext j.enough;
})
Explained-trans c ip d d' d'' rest ext (inl e) (inr j) = inr (record {
  contributes = j.contributes;
  outside = j.outside;
  unlisted = j.unlisted;
  free = ap (λ s. is_suppressed c.now (lookup Addr-discrete ip s)) (sym rest.suppress) ∙ j.free;
  not_manual = ap is_manual (sym e) ∙ j.not_manual;
  enough = j.enough;
})

logged-fleet :
    (now expires : ℕ) (ip : Addr) (previous : Option FleetRow) (d : Db)
    → (logged now expires ip previous d).fleet ≡ d.fleet
logged-fleet now expires ip none d = refl
logged-fleet now expires ip (some row) d = refl

pub upsert-other :
    (st : Settings) (ip a : Addr) (now : ℕ) (db : Db)
    → ite (Addr-discrete ip a) true false ≡ false
    → lookup Addr-discrete a (upsert st ip now db).0.fleet ≡ lookup Addr-discrete a db.fleet
unfolding upsert
upsert-other st ip a now db ne =
    let es = evidence ip now db in
    let previous = lookup Addr-discrete ip db.fleet in
    let ttl = st.fleet_ttl_s * second in
    let row = refreshed now (distinct_hosts es) (length es) (now + ttl) previous in
    let d = record db { fleet = insert Addr-discrete ip row db.fleet } in
    ap (λ m. lookup Addr-discrete a m) (logged-fleet now (now + ttl) ip previous d)
    ∙ ground (arith, lookup-insert Addr-discrete ip a row db.fleet, ne)
