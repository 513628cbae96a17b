-- ===== src/Fleet/Announced/Runs.antt =====
-- internal/server/ipban/service.go: the operations that announce a change.
use server_monitor.Common.{
  ℕ, ◌≡◌, refl, sym, ap, ◌≤◌, ◌+◌, ◌*◌, Bool, if-holds, if-holds_given, if◌then◌else◌, List, arith,
  some, take, ℕ_discrete,
}
use server_monitor.Common.Assoc.{lookup, lookup-insert}
use server_monitor.Settings.{Text}
use server_monitor.Fleet.{
  Db, Status, second, host_policy, policy_of, max_events_per_post, bump_version,
}
use server_monitor.Fleet.Ingest.{WireEvent, process_all, ingest_events, sender, report_status}
use server_monitor.Fleet.Frames.{process_all-SameRest}
use server_monitor.Fleet.Announced.{
  Unchanged, Unchanged-refl, Unchanged-trans, is_banned-keep, keep_twice,
}
use server_monitor.Fleet.{Service, publish_settings, publish_version, sweep}
use server_monitor.Settings.{SettingsInput, apply_input, validate}
use server_monitor.Fleet.Ingest.{Report}
use server_monitor.Fleet.Changes.{
  merged_policy, save_policy, manual_ban_ip, fleet_unban_ip, host_unban_ip, commit, unban_host,
  unban_fleet, ban_by_hand,
}
use server_monitor.Fleet.Runs.{
  Op, op_ingest, op_settings, op_host_policy, op_manual_ban, op_fleet_unban, op_host_unban,
  op_sweep, perform,
}
use server_monitor.Fleet.Enforcement.{publish_version-db}
use server_monitor.Fleet.Outcomes.{
  ingest-holds, update_settings-holds, update_host_policy-holds, ban_addr-holds, unban_addr-holds,
  host_unban_addr-holds, on_addr-holds,
}
use server_monitor.Fleet.Announced.Loop.{process_all-Unchanged}
use mathlib.Core.Path.{subst}

report_status-Unchanged :
    (now host : ℕ) (st : Status) (db : Db) → Unchanged now db (report_status host st db)
unfolding report_status host_policy
report_status-Unchanged now host st db = record {
  settings = refl;
  policies = λ k. ground (
    arith,
    lookup-insert ℕ_discrete host k
        (record { policy = policy_of (lookup ℕ_discrete host db.hosts); status = some st })
        db.hosts,
  );
  fleet = λ _. refl;
  commands = refl;
}

ingest_events-Unchanged :
    (text : Text) (now host : ℕ) (evs : List WireEvent) (db : Db)
    → 1 ≤ db.settings.fleet_ttl_s
    → (ingest_events text now host evs db).0.settings.version ≡ db.settings.version
    → Unchanged now db (ingest_events text now host evs db).0
unfolding ingest_events
ingest_events-Unchanged text now host evs db t =
    let c = sender text now host db in
    let es = take max_events_per_post evs in
    let r = process_all text c es db in
    let v = ap (λ st. st.version) (process_all-SameRest text c es db).settings in
    if-holds_given (λ d. d.settings.version ≡ db.settings.version → Unchanged now db d) r.1
      (bump_version r.0) r.0 (λ _ same. ground (arith, same, v))
      (λ no _. process_all-Unchanged text c es db t no)

-- The result of an operation announces what it changes.
abbrev Announces : ℕ → Service → Service → Type 0
Announces now s s' = s'.db.settings.version ≡ s.db.settings.version → Unchanged now s.db s'.db

stays : (now : ℕ) (s : Service) → Announces now s s
stays now s _ = Unchanged-refl now s.db

commit-Announces :
    (now : ℕ) (db : Db) (s : Service)
    → db.settings.version ≡ s.db.settings.version
    → Announces now s (commit db s)
commit-Announces now db s v same =
    let db' = bump_version db in
    let e =
      ap (λ d. d.settings.version)
        (publish_version-db db'.settings.version (record s { db = db' })) in
    ground (arith, e, v, same)

sweep-Unchanged :
    (now retention : ℕ) (fa ff fs fc fe : Bool) (db : Db)
    → Unchanged now db (sweep now retention fa ff fs fc fe db)
unfolding sweep host_policy
sweep-Unchanged now retention fa ff fs fc fe db = record {
  settings = refl;
  policies = λ _. refl;
  fleet = λ ip. ground (arith, is_banned-keep now ip db.fleet);
  commands = ground (arith, keep_twice now db.commands);
}

ingest-Announces :
    (text : Text) (now host : ℕ) (r : Report) (s : Service)
    → 1 ≤ s.db.settings.fleet_ttl_s
    → (let d = ingest_events text now host r.events (report_status host r.status s.db) in
        let s₂ = record s { db = d.0 } in
        Announces now s (if d.1 then publish_version (d.0).settings.version s₂ else s₂))
unfolding report_status
ingest-Announces text now host r s t =
    let db₁ = report_status host r.status s.db in
    let d = ingest_events text now host r.events db₁ in
    let s₂ = record s { db = d.0 } in
    let v = (d.0).settings.version in
    let taken : Announces now s s₂ = (λ same.
      Unchanged-trans now s.db db₁ d.0 (report_status-Unchanged now host r.status s.db)
        (ingest_events-Unchanged text now host r.events db₁ t same)) in
    if-holds (λ x. Announces now s x) d.1 (publish_version v s₂) s₂
      (subst (λ x. x.settings.version ≡ s.db.settings.version → Unchanged now s.db x)
        (sym (publish_version-db v s₂)) taken)
      taken

settings-Announces :
    (text : Text) (now : ℕ) (i : SettingsInput) (s : Service)
    → (let next = record (validate text (apply_input text s.db.settings i)).0 {
      version = s.db.settings.version + 1;
    } in
        Announces now s (publish_settings next (record s { db = record s.db { settings = next } })))
unfolding publish_settings
settings-Announces text now i s same = ground (arith, same)

-- Where the saved time to live of fleet bans is not 0, an operation that leaves the version leaves what AgentConfig
-- tells at its time: the settings, the policy of every host, the addresses banned by the fleet, and the commands of the
-- last day. It may move the expiry of a fleet ban, and failing statements are included.
pub perform-Announces :
    (text : Text) (retention now : ℕ) (op : Op) (s : Service)
    → 1 ≤ s.db.settings.fleet_ttl_s
    → (perform text retention now op s).db.settings.version ≡ s.db.settings.version
    → Unchanged now s.db (perform text retention now op s).db
unfolding perform manual_ban_ip fleet_unban_ip host_unban_ip ban_by_hand unban_fleet unban_host
perform-Announces text retention now (op_ingest fs fe host r) s t =
    ingest-holds (λ x. Announces now s x) text now fs fe host r s (stays now s)
      (λ _. report_status-Unchanged now host r.status s.db) (ingest-Announces text now host r s t)
perform-Announces text retention now (op_settings fr fw i) s t =
    update_settings-holds (λ x. Announces now s x) text fr fw i s (stays now s)
      (λ _ _. settings-Announces text now i s)
perform-Announces text retention now (op_host_policy fr fw host p) s t =
    update_host_policy-holds (λ x. Announces now s x) fr fw host p s (stays now s)
      (λ _.
        commit-Announces now (save_policy host (merged_policy (host_policy host s.db) p) s.db) s
          refl)
perform-Announces text retention now (op_manual_ban fw raw ttl) s t =
    on_addr-holds (λ x. Announces now s x) (text.parse_addr (text.trim_space raw)) s _ (stays now s)
      (λ ip.
        ban_addr-holds (λ x. Announces now s x) text now fw ip ttl s (stays now s)
          (λ _ _. commit-Announces now (ban_by_hand now ip (now + ttl) s.db) s refl))
perform-Announces text retention now (op_fleet_unban fr fw raw) s t =
    on_addr-holds (λ x. Announces now s x) (text.parse_addr (text.trim_space raw)) s _ (stays now s)
      (λ ip.
        unban_addr-holds (λ x. Announces now s x) now fr fw ip s (stays now s)
          (commit-Announces now (unban_fleet now ip (s.cached.fleet_ttl_s * second) s.db) s refl))
perform-Announces text retention now (op_host_unban fr fw host raw) s t =
    on_addr-holds (λ x. Announces now s x) (text.parse_addr (text.trim_space raw)) s _ (stays now s)
      (λ ip.
        host_unban_addr-holds (λ x. Announces now s x) now fr fw host ip s (stays now s)
          (commit-Announces now (unban_host now host ip s.db) s refl))
perform-Announces text retention now (op_sweep fa ff fs fc fe) s t =
    λ _. sweep-Unchanged now retention fa ff fs fc fe s.db
