-- ===== src/Fleet/Enforcement.antt =====
-- internal/server/ipban/service.go: no agent enforces bans without an allowlist.
pub mod Runs
use Prim.Native.String.{String}
use mathlib.Core.Path.{subst}
use server_monitor.Common.{
  ℕ, ◌≡◌, refl, sym, ap, ◌∙◌, Bool, true, false, not, ◌&&◌, ◌||◌, ◌==◌, if-holds, if-holds_given,
  List, [], ◌∷◌, any, ◌+◌, ◌*◌, take, if◌then◌else◌, arith, Option, none, some, length, ℕ_discrete,
  ite, is_some, Bool-cases, inl, inr, Option-cases,
}
use server_monitor.Common.Int64.{lt_i64}
use server_monitor.Netip.{Addr, Addr-discrete, unmap, in_some}
use server_monitor.Common.Assoc.{lookup, insert}
use server_monitor.Settings.{
  Text, Settings, SettingsInput, HostPolicy, apply_input, validate, wire_policy,
}
use server_monitor.Settings.Bounds.{validate-allowlist}
use server_monitor.Fleet.{
  Status, second, routable, parse_prefixes, err_db, err_validation, err_not_found,
  max_events_per_post, Db, HostRow, Service, Error, host_policy, policy_of, effective_enforce,
  bump_version, publish_version, publish_settings, sweep,
}
use server_monitor.Fleet.Ingest.{
  WireEvent, Report, ingest, ingest_events, report_status, finish, process_all, sender,
}
use server_monitor.Fleet.Changes
use server_monitor.Fleet.Changes.{
  is_on, host_enforcing, update_settings, update_host_policy, merged_policy, save_policy, is_known,
  status_of, manual_ban_ip, fleet_unban_ip, host_unban_ip, ban_addr, unban_addr, host_unban_addr,
  on_addr, commit, unban_host, unban_fleet, ban_by_hand, manual_min_ttl, manual_max_ttl,
}
use server_monitor.Fleet.Runs.{
  Op, op_ingest, op_settings, op_host_policy, op_manual_ban, op_fleet_unban, op_host_unban,
  op_sweep, perform, perform_all, guarded_policy, agent_config,
}
use server_monitor.Fleet.Frames.{SameRest, process_all-SameRest}

-- Without an allowlist, neither the settings nor a host's override turn enforcement on.
pub record IsGuarded (db : Db) : Type 0 where
  pub settings_off : (db.settings.enforce && length db.settings.allowlist == 0) ≡ false
  pub hosts_off : (length db.settings.allowlist == 0 && host_enforcing db.hosts) ≡ false

host_enforcing-insert :
    (host : ℕ) (row : HostRow) (hosts : List (ℕ × HostRow))
    → host_enforcing hosts ≡ false
    → is_on row.policy.enforce ≡ false
    → host_enforcing (insert ℕ_discrete host row hosts) ≡ false
unfolding insert
host_enforcing-insert host row [] h off = ground arith
host_enforcing-insert host row ((k, r) ∷ hosts) h off =
    ground (arith, host_enforcing-insert host row hosts)

pub host_enforcing-lookup :
    (host : ℕ) (hosts : List (ℕ × HostRow))
    → host_enforcing hosts ≡ false
    → is_on (policy_of (lookup ℕ_discrete host hosts)).enforce ≡ false
unfolding lookup
host_enforcing-lookup host [] h = refl
host_enforcing-lookup host ((k, r) ∷ hosts) h = ground (arith, host_enforcing-lookup host hosts)

pub report_status-IsGuarded :
    (host : ℕ) (st : Status) (db : Db) → IsGuarded db → IsGuarded (report_status host st db)
unfolding report_status host_policy
report_status-IsGuarded host st db g = record {
  settings_off = g.settings_off;
  hosts_off =
      let row : HostRow = record { policy = host_policy host db; status = some st } in
      ground (
        arith,
        g.hosts_off,
        host_enforcing-lookup host db.hosts,
        host_enforcing-insert host row db.hosts,
      );
}

IsGuarded-bump_version : (db : Db) → IsGuarded db → IsGuarded (bump_version db)
IsGuarded-bump_version db g = record { settings_off = g.settings_off; hosts_off = g.hosts_off }

IsGuarded-same :
    (db db' : Db) → db'.settings ≡ db.settings → db'.hosts ≡ db.hosts → IsGuarded db → IsGuarded db'
IsGuarded-same db db' es eh g = record {
  settings_off = ap (λ st. st.enforce && length st.allowlist == 0) es ∙ g.settings_off;
  hosts_off =
      ap (λ st. length st.allowlist == 0 && host_enforcing db'.hosts) es
      ∙ ap (λ hs. length db.settings.allowlist == 0 && host_enforcing hs) eh
      ∙ g.hosts_off;
}

ingest_events-IsGuarded :
    (text : Text) (now host : ℕ) (evs : List WireEvent) (db : Db)
    → IsGuarded db
    → IsGuarded (ingest_events text now host evs db).0
unfolding ingest_events
ingest_events-IsGuarded text now host evs db g =
    let c = sender text now host db in
    let es = take max_events_per_post evs in
    let r = process_all text c es db in
    let same = process_all-SameRest text c es db in
    let g' = IsGuarded-same db r.0 same.settings same.hosts g in
    if-holds (λ d. IsGuarded d) r.1 (bump_version r.0) r.0 (IsGuarded-bump_version r.0 g') g'

pub publish_version-db : (v : ℕ) (s : Service) → (publish_version v s).db ≡ s.db
unfolding publish_version
publish_version-db v s = ground arith

pub commit-IsGuarded : (db : Db) (s : Service) → IsGuarded db → IsGuarded (commit db s).db
commit-IsGuarded db s g =
    let db' = bump_version db in
    subst (λ d. IsGuarded d) (sym (publish_version-db db'.settings.version (record s { db = db' })))
      (IsGuarded-bump_version db g)

pub ingest_events-published :
    (text : Text) (now host : ℕ) (r : Report) (s : Service)
    → IsGuarded s.db
    → (let d = ingest_events text now host r.events (report_status host r.status s.db) in
        let s₂ = record s { db = d.0 } in
        IsGuarded (if d.1 then publish_version (d.0).settings.version s₂ else s₂).db)
ingest_events-published text now host r s g =
    let db₁ = report_status host r.status s.db in
    let d = ingest_events text now host r.events db₁ in
    let s₂ = record s { db = d.0 } in
    let v = (d.0).settings.version in
    let g₂ =
      ingest_events-IsGuarded text now host r.events db₁
        (report_status-IsGuarded host r.status s.db g) in
    if-holds {A = Service} (λ x. IsGuarded x.db) d.1 (publish_version v s₂) s₂
      (subst (λ x. IsGuarded x) (sym (publish_version-db v s₂)) g₂) g₂

pub validate-apply_input_lem :
    (text : Text) (st : Settings)
    → (validate text st).1 ≡ none
    → ((validate text st).0.enforce && length (validate text st).0.allowlist == 0) ≡ false
validate-apply_input_lem text st ok = elim (Bool-cases (validate text st).0.enforce) [
  | inl on ↦ ground (arith, on, validate-allowlist text st ok on)
  | inr off ↦ ground (arith, off)
]

pub publish_settings-db : (next : Settings) (s : Service) → (publish_settings next s).db ≡ s.db
unfolding publish_settings
publish_settings-db next s = refl

pub is_some-none {ℓ} : {A : Type ℓ} (o : Option A) → is_some o ≡ false → o ≡ none
is_some-none o h = ground (arith, h)

pub save_policy-IsGuarded :
    (host : ℕ) (p : HostPolicy) (db : Db)
    → (effective_enforce db.settings p && length db.settings.allowlist == 0) ≡ false
    → IsGuarded db
    → IsGuarded (save_policy host p db)
save_policy-IsGuarded host p db safe g = record {
  settings_off = g.settings_off;
  hosts_off =
      let row : HostRow = record {
        policy = p;
        status = status_of (lookup ℕ_discrete host db.hosts);
      } in
      ground (arith, g.hosts_off, host_enforcing-insert host row db.hosts);
}
