-- ===== src/Fleet/Coherence.antt =====
-- internal/server/ipban/service.go: any operations one after the other, and what the service keeps in memory.
use server_monitor.Common.{ℕ, ◌≡◌, List, [], ◌∷◌, ◌+◌, ◌*◌, arith}
use server_monitor.Settings.{Text}
use server_monitor.Fleet.{second, Service, host_policy, sweep}
use server_monitor.Fleet.Changes.{
  manual_ban_ip, fleet_unban_ip, host_unban_ip, unban_host, unban_fleet, ban_by_hand,
}
use server_monitor.Fleet.Runs.{
  Op, op_ingest, op_settings, op_host_policy, op_manual_ban, op_fleet_unban, op_host_unban,
  op_sweep, perform, perform_all,
}
use server_monitor.Settings.{Settings, SettingsInput, apply_input, validate}
use server_monitor.Fleet.{
  publish_settings, publish_version, Service, Db, bump_version, max_events_per_post, second,
  host_policy,
}
use server_monitor.Fleet.Ingest.{Report, sender, process_all, ingest_events, report_status, finish}
use server_monitor.Fleet.Frames.{process_all-SameRest}
use server_monitor.Fleet.Changes.{commit}
use server_monitor.Common.{if-holds_given, ap, ◌∙◌, refl, take, if◌then◌else◌}
use server_monitor.Fleet.Changes.{merged_policy, save_policy}
use server_monitor.Common.{sym}
use mathlib.Core.Path.{subst}
use server_monitor.Fleet.Outcomes.{
  ingest-holds, update_settings-holds, update_host_policy-holds, ban_addr-holds, unban_addr-holds,
  host_unban_addr-holds, on_addr-holds,
}

-- What the service keeps in memory is what its tables hold.
pub record IsCoherent (s : Service) : Type 0 where
  pub cached : s.cached ≡ s.db.settings
  pub version : s.version ≡ s.db.settings.version

publish_version-plain :
    (db : Db) (st : Settings)
    → db.settings ≡ record st { version = st.version + 1 }
    → IsCoherent (
        publish_version db.settings.version (record { db = db; version = st.version; cached = st }))
unfolding publish_version
publish_version-plain db st e =
    let v = ap (λ x. x.version) e in
    let newer = record st { version = db.settings.version } in
    let eq : newer ≡ db.settings = ap (λ n. record st { version = n }) v ∙ sym e in
    record { cached = ground (arith, v, eq); version = ground (arith, v) }

-- A transaction that saves the settings with the next version, and the publication of that version.
publish_version-next :
    (s : Service) (db : Db)
    → IsCoherent s
    → db.settings ≡ record s.db.settings { version = s.db.settings.version + 1 }
    → IsCoherent (publish_version db.settings.version (record s { db = db }))
publish_version-next s db h e =
    let P : ℕ → Settings → Type 0 = (λ v c.
      IsCoherent
        (publish_version db.settings.version (record { db = db; version = v; cached = c }))) in
    let plain : P s.db.settings.version s.db.settings = publish_version-plain db s.db.settings e in
    subst (λ v. P v s.cached) (sym h.version)
      (subst (λ c. P s.db.settings.version c) (sym h.cached) plain)

abbrev next_version : Settings → Settings
next_version st = record st { version = st.version + 1 }

commit-IsCoherent :
    (s : Service) (db : Db) → IsCoherent s → db.settings ≡ s.db.settings → IsCoherent (commit db s)
commit-IsCoherent s db h e = publish_version-next s (bump_version db) h (ap next_version e)

ingest-IsCoherent :
    (text : Text) (now host : ℕ) (r : Report) (s : Service)
    → IsCoherent s
    → (let d = ingest_events text now host r.events (report_status host r.status s.db) in
        let s₂ = record s { db = d.0 } in
        IsCoherent (if d.1 then publish_version (d.0).settings.version s₂ else s₂))
unfolding ingest_events report_status
ingest-IsCoherent text now host r s h =
    let db₁ = report_status host r.status s.db in
    let c = sender text now host db₁ in
    let es = take max_events_per_post r.events in
    let d = process_all text c es db₁ in
    let e = (process_all-SameRest text c es db₁).settings in
    let db₂ = finish d in
    let s₂ = record s { db = db₂ } in
    if-holds_given {A = Service} IsCoherent d.1 (publish_version db₂.settings.version s₂) s₂
      (λ yes.
        publish_version-next s db₂ h (ap (λ b. (finish (d.0, b)).settings) yes ∙ ap next_version e))
      (λ no.
        let kept : db₂.settings ≡ s.db.settings = ap (λ b. (finish (d.0, b)).settings) no ∙ e in
        record {
          cached = h.cached ∙ sym kept;
          version = h.version ∙ ap (λ st. st.version) (sym kept);
        })

settings-IsCoherent :
    (text : Text) (i : SettingsInput) (s : Service)
    → IsCoherent s
    → (let next = record (validate text (apply_input text s.db.settings i)).0 {
      version = s.db.settings.version + 1;
    } in
        IsCoherent (publish_settings next (record s { db = record s.db { settings = next } })))
unfolding publish_settings
settings-IsCoherent text i s h =
    let v = ap (λ st. st.version) h.cached in
    record { cached = ground (arith, v); version = ground (arith, h.version) }

perform-IsCoherent :
    (text : Text) (retention now : ℕ) (op : Op) (s : Service)
    → IsCoherent s
    → IsCoherent (perform text retention now op s)
unfolding perform manual_ban_ip fleet_unban_ip host_unban_ip ban_by_hand unban_fleet unban_host
    sweep report_status
perform-IsCoherent text retention now (op_ingest fs fe host r) s g =
    ingest-holds IsCoherent text now fs fe host r s g
      (record { cached = g.cached; version = g.version }) (ingest-IsCoherent text now host r s g)
perform-IsCoherent text retention now (op_settings fr fw i) s g =
    update_settings-holds IsCoherent text fr fw i s g (λ _ _. settings-IsCoherent text i s g)
perform-IsCoherent text retention now (op_host_policy fr fw host p) s g =
    update_host_policy-holds IsCoherent fr fw host p s g (λ _.
      commit-IsCoherent s (save_policy host (merged_policy (host_policy host s.db) p) s.db) g refl)
perform-IsCoherent text retention now (op_manual_ban fw raw ttl) s g =
    on_addr-holds IsCoherent (text.parse_addr (text.trim_space raw)) s _ g (λ ip.
      ban_addr-holds IsCoherent text now fw ip ttl s g
        (λ _ _. commit-IsCoherent s (ban_by_hand now ip (now + ttl) s.db) g refl))
perform-IsCoherent text retention now (op_fleet_unban fr fw raw) s g =
    on_addr-holds IsCoherent (text.parse_addr (text.trim_space raw)) s _ g (λ ip.
      unban_addr-holds IsCoherent now fr fw ip s g
        (commit-IsCoherent s (unban_fleet now ip (s.cached.fleet_ttl_s * second) s.db) g refl))
perform-IsCoherent text retention now (op_host_unban fr fw host raw) s g =
    on_addr-holds IsCoherent (text.parse_addr (text.trim_space raw)) s _ g (λ ip.
      host_unban_addr-holds IsCoherent now fr fw host ip s g
        (commit-IsCoherent s (unban_host now host ip s.db) g refl))
perform-IsCoherent text retention now (op_sweep fa ff fs fc fe) s g = record {
  cached = g.cached;
  version = g.version;
}

-- Operations that do not overlap, failing statements included, leave the cached settings and the version that the
-- service keeps in memory those of its tables, where they are so at the start.
pub perform_all-IsCoherent :
    (text : Text) (retention : ℕ) (ops : List (ℕ × Op)) (s : Service)
    → IsCoherent s
    → IsCoherent (perform_all text retention ops s)
unfolding perform_all
perform_all-IsCoherent text retention [] s g = g
perform_all-IsCoherent text retention ((now, op) ∷ ops) s g =
    perform_all-IsCoherent text retention ops (perform text retention now op s)
      (perform-IsCoherent text retention now op s g)
