-- ===== src/Fleet/Outcomes.antt =====
-- internal/server/ipban/service.go: how each operation ends. A predicate holds after it where it holds of each end that
-- the guards allow.
use server_monitor.Common.{
  ℕ, ◌≡◌, ◌+◌, ◌*◌, Bool, false, not, ◌&&◌, ◌||◌, ◌==◌, if◌then◌else◌, if-holds, if-holds_given,
  Option, none, some, is_some, length,
}
use server_monitor.Common.Int64.{lt_i64}
use server_monitor.Common.Assoc.{lookup}
use server_monitor.Netip.{Addr, Addr-discrete, unmap, in_some}
use server_monitor.Settings.{Text, SettingsInput, HostPolicy, apply_input, validate}
use server_monitor.Fleet.{
  Service, Error, err_db, err_validation, err_not_found, second, host_policy, effective_enforce,
  publish_version, publish_settings, routable, parse_prefixes,
}
use server_monitor.Fleet.Ingest.{Report, ingest, ingest_events, report_status}
use server_monitor.Fleet.Changes.{
  host_enforcing, on_addr, update_settings, update_host_policy, merged_policy, save_policy,
  is_known, ban_addr, unban_addr, host_unban_addr, commit, unban_host, unban_fleet, ban_by_hand,
  manual_min_ttl, manual_max_ttl,
}

module _ {ℓ} (P : Service → Type ℓ) where
  abbrev Ends : Service × Option Error → Type ℓ
  Ends r = P r.0

  pub ingest-holds :
      (text : Text) (now : ℕ) (fs fe : Bool) (host : ℕ) (r : Report) (s : Service)
      → P s
      → P (record s { db = report_status host r.status s.db })
      → (let d = ingest_events text now host r.events (report_status host r.status s.db) in
          let s₂ = record s { db = d.0 } in
          P (if d.1 then publish_version (d.0).settings.version s₂ else s₂))
      → P (ingest text now fs fe host r s).0
  unfolding ingest
  ingest-holds text now fs fe host r s p stored taken =
      let s₁ = record s { db = report_status host r.status s.db } in
      let d = ingest_events text now host r.events (report_status host r.status s.db) in
      let s₂ = record s { db = d.0 } in
      let s₃ = if d.1 then publish_version (d.0).settings.version s₂ else s₂ in
      if-holds Ends fs (s, some err_db) _ p
        (if-holds Ends (length r.events == 0) (s₁, none) _ stored
          (if-holds Ends fe (s₁, some err_db) (s₃, none) stored taken))

  pub update_settings-holds :
      (text : Text) (fr fw : Bool) (i : SettingsInput) (s : Service)
      → P s
      → (let v = validate text (apply_input text s.db.settings i) in
          let next = record v.0 { version = s.db.settings.version + 1 } in
          is_some v.1 ≡ false
          → (length next.allowlist == 0 && host_enforcing s.db.hosts) ≡ false
          → P (publish_settings next (record s { db = record s.db { settings = next } })))
      → P (update_settings text fr fw i s).0
  unfolding update_settings
  update_settings-holds text fr fw i s p saved =
      let v = validate text (apply_input text s.db.settings i) in
      let next = record v.0 { version = s.db.settings.version + 1 } in
      let empty = length next.allowlist == 0 && host_enforcing s.db.hosts in
      let s₁ = record s { db = record s.db { settings = next } } in
      if-holds Ends fr (s, some err_db) _ p
        (if-holds_given Ends (is_some v.1) (s, some err_validation) _ (λ _. p)
          (λ ok.
            if-holds_given Ends empty (s, some err_validation) _ (λ _. p)
              (λ full.
                if-holds Ends fw (s, some err_db) (publish_settings next s₁, none) p
                  (saved ok full))))

  pub update_host_policy-holds :
      (fr fw : Bool) (host : ℕ) (p : HostPolicy) (s : Service)
      → P s
      → (let merged = merged_policy (host_policy host s.db) p in
          (effective_enforce s.db.settings merged && length s.db.settings.allowlist == 0) ≡ false
          → P (commit (save_policy host merged s.db) s))
      → P (update_host_policy fr fw host p s).0
  unfolding update_host_policy
  update_host_policy-holds fr fw host patch s p saved =
      let merged = merged_policy (host_policy host s.db) patch in
      let bare = effective_enforce s.db.settings merged && length s.db.settings.allowlist == 0 in
      if-holds Ends fr (s, some err_db) _ p
        (if-holds Ends (not (is_known host s.db)) (s, some err_not_found) _ p
          (if-holds_given Ends bare (s, some err_validation) _ (λ _. p)
            (λ safe.
              if-holds Ends fw (s, some err_db) (commit (save_policy host merged s.db) s, none) p
                (saved safe))))

  pub ban_addr-holds :
      (text : Text) (now : ℕ) (fw : Bool) (ip : Addr) (ttl : ℕ) (s : Service)
      → P s
      → (not (routable ip) ≡ false
          → in_some (parse_prefixes text s.cached.allowlist) ip ≡ false
          → P (commit (ban_by_hand now ip (now + ttl) s.db) s))
      → P (ban_addr text now fw ip ttl s).0
  unfolding ban_addr
  ban_addr-holds text now fw ip ttl s p saved =
      let long = lt_i64 ttl manual_min_ttl || lt_i64 manual_max_ttl ttl in
      if-holds_given Ends (not (routable ip)) (s, some err_validation) _ (λ _. p)
        (λ out.
          if-holds_given Ends (in_some (parse_prefixes text s.cached.allowlist) ip)
            (s, some err_validation) _ (λ _. p)
            (λ no.
              if-holds Ends long (s, some err_validation) _ p
                (if-holds Ends fw (s, some err_db)
                  (commit (ban_by_hand now ip (now + ttl) s.db) s, none) p (saved out no))))

  pub unban_addr-holds :
      (now : ℕ) (fr fw : Bool) (ip : Addr) (s : Service)
      → P s
      → P (commit (unban_fleet now ip (s.cached.fleet_ttl_s * second) s.db) s)
      → P (unban_addr now fr fw ip s).0
  unfolding unban_addr
  unban_addr-holds now fr fw ip s p saved =
      if-holds Ends fr (s, some err_db) _ p
        (if-holds Ends (not (is_some (lookup Addr-discrete ip s.db.fleet))) (s, some err_not_found)
          _ p
          (if-holds Ends fw (s, some err_db)
            (commit (unban_fleet now ip (s.cached.fleet_ttl_s * second) s.db) s, none) p saved))

  pub host_unban_addr-holds :
      (now : ℕ) (fr fw : Bool) (host : ℕ) (ip : Addr) (s : Service)
      → P s
      → P (commit (unban_host now host ip s.db) s)
      → P (host_unban_addr now fr fw host ip s).0
  unfolding host_unban_addr
  host_unban_addr-holds now fr fw host ip s p saved =
      if-holds Ends fr (s, some err_db) _ p
        (if-holds Ends (not (is_known host s.db)) (s, some err_not_found) _ p
          (if-holds Ends fw (s, some err_db) (commit (unban_host now host ip s.db) s, none) p
            saved))

  pub on_addr-holds :
      (o : Option Addr) (s : Service) (f : Addr → Service × Option Error)
      → P s
      → ((ip : Addr) → P (f ip).0)
      → P (on_addr o s f).0
  on_addr-holds none s f p q = p
  on_addr-holds (some ip) s f p q = q (unmap ip)
