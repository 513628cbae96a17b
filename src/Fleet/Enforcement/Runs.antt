-- ===== src/Fleet/Enforcement/Runs.antt =====
-- internal/server/ipban/service.go: any operations, in which no agent enforces bans without an allowlist.
use server_monitor.Common.{
  length, false, ◌==◌, ◌&&◌, ℕ, ◌≡◌, List, [], ◌∷◌, ◌+◌, ◌*◌, arith, is_some,
}
use server_monitor.Settings.{Text, wire_policy}
use server_monitor.Fleet.{second, Service, host_policy, sweep}
use server_monitor.Fleet.Changes.{
  host_enforcing, manual_ban_ip, fleet_unban_ip, host_unban_ip, unban_host, unban_fleet,
  ban_by_hand,
}
use server_monitor.Fleet.Runs.{
  Op, op_ingest, op_settings, op_host_policy, op_manual_ban, op_fleet_unban, op_host_unban,
  op_sweep, perform, perform_all, guarded_policy,
}
use server_monitor.Settings.{SettingsInput, apply_input, validate}
use server_monitor.Fleet.{publish_settings}
use server_monitor.Fleet.Changes.{merged_policy, save_policy}
use server_monitor.Common.{sym}
use mathlib.Core.Path.{subst}
use server_monitor.Fleet.Outcomes.{
  ingest-holds, update_settings-holds, update_host_policy-holds, ban_addr-holds, unban_addr-holds,
  host_unban_addr-holds, on_addr-holds,
}
use server_monitor.Fleet.Enforcement.{
  IsGuarded, commit-IsGuarded, report_status-IsGuarded, ingest_events-published,
  publish_settings-db, validate-apply_input_lem, is_some-none, save_policy-IsGuarded,
  host_enforcing-lookup,
}

-- The predicate of a service.
abbrev Kept : Service → Type 0
Kept s = IsGuarded s.db

settings-IsGuarded :
    (text : Text) (i : SettingsInput) (s : Service)
    → (let v = validate text (apply_input text s.db.settings i) in
        let next = record v.0 { version = s.db.settings.version + 1 } in
        is_some v.1 ≡ false
        → (length next.allowlist == 0 && host_enforcing s.db.hosts) ≡ false
        → Kept (publish_settings next (record s { db = record s.db { settings = next } })))
settings-IsGuarded text i s ok full =
    let v = validate text (apply_input text s.db.settings i) in
    let next = record v.0 { version = s.db.settings.version + 1 } in
    subst (λ d. IsGuarded d)
      (sym (publish_settings-db next (record s { db = record s.db { settings = next } })))
      (record {
        settings_off =
            validate-apply_input_lem text (apply_input text s.db.settings i) (is_some-none v.1 ok);
        hosts_off = full;
      })

perform-IsGuarded :
    (text : Text) (retention now : ℕ) (op : Op) (s : Service)
    → Kept s
    → Kept (perform text retention now op s)
unfolding perform manual_ban_ip fleet_unban_ip host_unban_ip ban_by_hand unban_fleet unban_host
    sweep
perform-IsGuarded text retention now (op_ingest fs fe host r) s g =
    ingest-holds Kept text now fs fe host r s g (report_status-IsGuarded host r.status s.db g)
      (ingest_events-published text now host r s g)
perform-IsGuarded text retention now (op_settings fr fw i) s g =
    update_settings-holds Kept text fr fw i s g (settings-IsGuarded text i s)
perform-IsGuarded text retention now (op_host_policy fr fw host p) s g =
    update_host_policy-holds Kept fr fw host p s g (λ safe.
      let merged = merged_policy (host_policy host s.db) p in
      commit-IsGuarded (save_policy host merged s.db) s
        (save_policy-IsGuarded host merged s.db safe g))
perform-IsGuarded text retention now (op_manual_ban fw raw ttl) s g =
    on_addr-holds Kept (text.parse_addr (text.trim_space raw)) s _ g (λ ip.
      ban_addr-holds Kept text now fw ip ttl s g (λ _ _.
        commit-IsGuarded (ban_by_hand now ip (now + ttl) s.db) s
          (record { settings_off = g.settings_off; hosts_off = g.hosts_off })))
perform-IsGuarded text retention now (op_fleet_unban fr fw raw) s g =
    on_addr-holds Kept (text.parse_addr (text.trim_space raw)) s _ g (λ ip.
      unban_addr-holds Kept now fr fw ip s g (
        commit-IsGuarded (unban_fleet now ip (s.cached.fleet_ttl_s * second) s.db) s
          (record { settings_off = g.settings_off; hosts_off = g.hosts_off })))
perform-IsGuarded text retention now (op_host_unban fr fw host raw) s g =
    on_addr-holds Kept (text.parse_addr (text.trim_space raw)) s _ g (λ ip.
      host_unban_addr-holds Kept now fr fw host ip s g (
        commit-IsGuarded (unban_host now host ip s.db) s
          (record { settings_off = g.settings_off; hosts_off = g.hosts_off })))
perform-IsGuarded text retention now (op_sweep fa ff fs fc fe) s g = record {
  settings_off = g.settings_off;
  hosts_off = g.hosts_off;
}

-- Whatever operations the service performs, failing statements included: where enforcement needs an allowlist at the
-- start, it does at the end, in the settings and in the override of every host.
pub perform_all-IsGuarded :
    (text : Text) (retention : ℕ) (ops : List (ℕ × Op)) (s : Service)
    → IsGuarded s.db
    → IsGuarded (perform_all text retention ops s).db
unfolding perform_all
perform_all-IsGuarded text retention [] s g = g
perform_all-IsGuarded text retention ((now, op) ∷ ops) s g =
    perform_all-IsGuarded text retention ops (perform text retention now op s)
      (perform-IsGuarded text retention now op s g)

-- AgentConfig never has to turn enforcement off: whatever operations the service performs from tables in which
-- enforcement needs an allowlist, the policy that it tells a host is the host's effective policy.
pub guarded_policy-wire_policy :
    (text : Text) (retention : ℕ) (ops : List (ℕ × Op)) (s : Service) (host : ℕ)
    → IsGuarded s.db
    → let db = (perform_all text retention ops s).db in
      guarded_policy text db.settings (host_policy host db)
      ≡ wire_policy text db.settings (host_policy host db)
unfolding guarded_policy wire_policy host_policy
guarded_policy-wire_policy text retention ops s host g₀ =
    let db = (perform_all text retention ops s).db in
    let g = perform_all-IsGuarded text retention ops s g₀ in
    ground (arith, g.settings_off, g.hosts_off, host_enforcing-lookup host db.hosts)
