-- ===== src/Ipban/Manager/Safety.antt =====
-- What holds after the server's configuration was applied, and after the protected addresses were
-- reconciled.
use server_monitor.Common.{
  ℕ, ◌-◌, ◌≡◌, refl, ◌∙◌, inl, inr, arith, Bool, true, not, ◌&&◌, ◌==◌, List, [], ◌∷◌, length,
  Option-cases,
}
use server_monitor.Netip.{Addr, Prefix, unmap}
use server_monitor.Ipban.Guard.{set_local, set_allowlist, set_ban_private, parse_allowlist}
use server_monitor.Ipban.Tracker.{Ban, active_bans, import_ban, unban, normalized, set_policy}
use server_monitor.Ipban.Manager.{
  Env, Manager, add_local, remove_local, create, setup, current_enforcer, want_enforce, ActiveEntry,
  WireConfig, WireFleetEntry, WireUnban, push_event, call,
}
use server_monitor.Ipban.Manager.Enforcement.{
  import_entry, import_entries, adopt_enforcer, start_enforcer, ensure_enforcer, close_existing,
  unban_entry, unban_one, add_bans, sync_local_from_tracker, disable_enforcement, finish_unban,
  unban_loop, apply_unbans, apply_fleet, reconcile_one, reconcile_bans, reconcile_protected,
  refresh_local_addrs,
}
use server_monitor.Ipban.Manager.Handling.{
  tracker_policy, install_policy, switch_enforcement, apply,
}

-- The policy, that of the tracker, and the guard's settings are those of another manager.
abbrev pub SamePolicy : Manager → Manager → Type 0
SamePolicy m m' =
    (m'.policy ≡ m.policy)
    × (m'.guard.allowlist ≡ m.guard.allowlist)
    × (m'.have_policy ≡ m.have_policy)
    × (m'.applied ≡ m.applied)
    × (m'.guard.ban_private ≡ m.guard.ban_private)
    × (m'.tracker.policy ≡ m.tracker.policy)

SamePolicy-trans : (a b c : Manager) → SamePolicy a b → SamePolicy b c → SamePolicy a c
SamePolicy-trans a b c h k = (k.0 ∙ h.0, k.1 ∙ h.1, k.2 ∙ h.2, k.3 ∙ h.3, k.4 ∙ h.4, k.5 ∙ h.5)

module _ (env : Env) where
  import_entries-SamePolicy :
      (now : ℕ) (entries : List ActiveEntry) (m : Manager)
      → SamePolicy m (import_entries env now entries m).0
  unfolding import_entries import_entry import_ban
  import_entries-SamePolicy now [] m = (refl, refl, refl, refl, refl, refl)
  import_entries-SamePolicy now (entry ∷ entries) m = ground (
    arith,
    import_entries-SamePolicy now entries (import_entry now entry m),
    import_entries-SamePolicy now entries (call env (remove_local entry.ip) m).0,
  )

  add_bans-SamePolicy :
      (now : ℕ) (bans : List Ban) (m : Manager) → SamePolicy m (add_bans env now bans m)
  unfolding add_bans
  add_bans-SamePolicy now [] m = (refl, refl, refl, refl, refl, refl)
  add_bans-SamePolicy now (ban ∷ bans) m =
      ground
        (arith, add_bans-SamePolicy now bans (call env (add_local ban.ip (ban.until - now)) m).0)

  reconcile_one-SamePolicy :
      (live : Bool) (ban : Ban) (m : Manager) → SamePolicy m (reconcile_one env live ban m).0
  unfolding reconcile_one unban
  reconcile_one-SamePolicy live ban m = ground arith

  reconcile_bans-SamePolicy :
      (live : Bool) (bans : List Ban) (m : Manager) → SamePolicy m (reconcile_bans env live bans m)
  unfolding reconcile_bans
  reconcile_bans-SamePolicy live [] m = (refl, refl, refl, refl, refl, refl)
  reconcile_bans-SamePolicy live (ban ∷ bans) m =
      let r = reconcile_one env live ban m in
      ground (arith, reconcile_one-SamePolicy live ban m, reconcile_bans-SamePolicy live bans r.0)

  start_enforcer-SamePolicy : (now : ℕ) (m : Manager) → SamePolicy m (start_enforcer env now m).0
  unfolding start_enforcer adopt_enforcer
  start_enforcer-SamePolicy now m =
      let m₂ = (call env setup (call env create m).0).0 in
      ground (arith, import_entries-SamePolicy now (env.active_local m₂.calls) m₂)

  ensure_enforcer-SamePolicy : (now : ℕ) (m : Manager) → SamePolicy m (ensure_enforcer env now m).0
  unfolding ensure_enforcer
  ensure_enforcer-SamePolicy now m =
      ground (arith, start_enforcer-SamePolicy now (close_existing env m))

  sync-SamePolicy : (now : ℕ) (m : Manager) → SamePolicy m (sync_local_from_tracker env now m)
  unfolding sync_local_from_tracker
  sync-SamePolicy now m = ground (arith, add_bans-SamePolicy now (active_bans now m.tracker) m)

  disable-SamePolicy : (m : Manager) → SamePolicy m (disable_enforcement env m)
  unfolding disable_enforcement
  disable-SamePolicy m = ground arith

  switch-SamePolicy :
      (now : ℕ) (prev : Bool) (m : Manager) → SamePolicy m (switch_enforcement env now prev m)
  unfolding switch_enforcement
  switch-SamePolicy now prev m = ground (
    arith,
    disable-SamePolicy m,
    ensure_enforcer-SamePolicy now m,
    sync-SamePolicy now (ensure_enforcer env now m).0,
  )

  apply_fleet-SamePolicy :
      (now : ℕ) (entries : List WireFleetEntry) (m : Manager)
      → SamePolicy m (apply_fleet env now entries m)
  unfolding apply_fleet
  apply_fleet-SamePolicy now entries m = ground arith

  finish_unban-SamePolicy :
      (now : ℕ) (ip : Addr) (at : ℕ) (m : Manager) → SamePolicy m (finish_unban env now ip at m)
  unfolding finish_unban push_event unban
  finish_unban-SamePolicy now ip at m = ground arith

  unban_entry-SamePolicy :
      (now : ℕ) (want live : Bool) (u : WireUnban) (m : Manager)
      → SamePolicy m (unban_entry env now want live u m).0
  unfolding unban_entry unban_one
  unban_entry-SamePolicy now want live u m = elim (Option-cases (env.parse_addr u.ip)) [
    | inl e ↦ rw (e, unban_entry) (refl, refl, refl, refl, refl, refl)
    | inr (parsed, e) ↦
        let ip = unmap parsed in
        rw (e, unban_entry)
          (ground (
            arith,
            finish_unban-SamePolicy now ip u.at (call env (remove_local ip) m).0,
            finish_unban-SamePolicy now ip u.at m,
          ))
  ]

  unban_loop-SamePolicy :
      (now : ℕ) (want live : Bool) (us : List WireUnban) (m : Manager)
      → SamePolicy m (unban_loop env now want live us m)
  unfolding unban_loop
  unban_loop-SamePolicy now want live [] m = (refl, refl, refl, refl, refl, refl)
  unban_loop-SamePolicy now want live (u ∷ us) m =
      let r = unban_entry env now want live u m in
      SamePolicy-trans m r.0 (unban_loop env now want r.1 us r.0)
        (unban_entry-SamePolicy now want live u m) (unban_loop-SamePolicy now want r.1 us r.0)

  refresh-SamePolicy :
      (now : ℕ) (addrs : List Addr) (m : Manager)
      → SamePolicy m (refresh_local_addrs env now addrs m)
  unfolding refresh_local_addrs reconcile_protected set_local
  refresh-SamePolicy now addrs m =
      let m₁ = record m { guard = set_local addrs m.guard } in
      let m₂ = reconcile_bans env (current_enforcer m₁) (active_bans now m₁.tracker) m₁ in
      SamePolicy-trans m m₂ (apply_fleet env now m₂.fleet_entries m₂)
        (reconcile_bans-SamePolicy (current_enforcer m₁) (active_bans now m₁.tracker) m₁)
        (apply_fleet-SamePolicy now m₂.fleet_entries m₂)

  apply-SamePolicy :
      (now : ℕ) (addrs : List Addr) (cfg : WireConfig) (m : Manager)
      → SamePolicy (install_policy env cfg m) (apply env now addrs cfg m)
  unfolding apply reconcile_protected apply_unbans
  apply-SamePolicy now addrs cfg m0 =
      let m = install_policy env cfg m0 in
      let m₁ = refresh_local_addrs env now addrs m in
      let m₂ = record m₁ { has_source = cfg.policy.detect } in
      let m₃ = switch_enforcement env now (want_enforce m0) m₂ in
      let m₄ = reconcile_bans env (current_enforcer m₃) (active_bans now m₃.tracker) m₃ in
      let m₅ = unban_loop env now (want_enforce m₄) (current_enforcer m₄) cfg.unban m₄ in
      let m₆ = apply_fleet env now cfg.fleet m₅ in
      SamePolicy-trans m m₁ m₆ (refresh-SamePolicy now addrs m) (
        SamePolicy-trans m₁ m₃ m₆ (switch-SamePolicy now (want_enforce m0) m₂) (
          SamePolicy-trans m₃ m₄ m₆
            (reconcile_bans-SamePolicy (current_enforcer m₃) (active_bans now m₃.tracker) m₃)
            (SamePolicy-trans m₄ m₅ m₆
              (unban_loop-SamePolicy now (want_enforce m₄) (current_enforcer m₄) cfg.unban m₄)
              (apply_fleet-SamePolicy now cfg.fleet m₅))))

-- The prefixes of a configuration's allowlist that could be read.
abbrev pub read_allowlist : Env → WireConfig → List Prefix
read_allowlist env cfg = (parse_allowlist env.parse_prefix env.parse_addr cfg.allowlist).0

-- A configuration is in place in a manager: its version; its allowlist and whether private addresses may be banned, in
-- the guard; its thresholds, made normal, in the tracker; and its policy but for `enforce`, which holds exactly when the
-- server asks for it and some entry of the allowlist was read.
pub record Installed (env : Env) (cfg : WireConfig) (m : Manager) : Type 0 where
  pub version : m.applied ≡ cfg.version
  pub present : m.have_policy ≡ true
  pub allowlist : m.guard.allowlist ≡ read_allowlist env cfg
  pub policy : m.policy ≡ record (cfg.policy) {
    enforce = cfg.policy.enforce && not (length (read_allowlist env cfg) == 0);
  }
  pub ban_private : m.guard.ban_private ≡ cfg.policy.ban_private
  pub thresholds : m.tracker.policy ≡ normalized (tracker_policy cfg.policy)

install_policy-Installed :
    (env : Env) (cfg : WireConfig) (m : Manager) → Installed env cfg (install_policy env cfg m)
unfolding install_policy set_allowlist set_ban_private set_policy
install_policy-Installed env cfg m = ground arith

-- After a configuration was applied it is in place, whatever the enforcer answered on the way: its version, its
-- allowlist and ban_private in the guard, its thresholds, made normal, in the tracker, and its policy, which asks for
-- enforcement only if the server does and some entry of the allowlist was read.
pub apply-Installed :
    (env : Env) (now : ℕ) (addrs : List Addr) (cfg : WireConfig) (m : Manager)
    → Installed env cfg (apply env now addrs cfg m)
apply-Installed env now addrs cfg m =
    let s = apply-SamePolicy env now addrs cfg m in
    let i = install_policy-Installed env cfg m in
    record {
      version = s.3 ∙ i.version;
      present = s.2 ∙ i.present;
      allowlist = s.1 ∙ i.allowlist;
      policy = s.0 ∙ i.policy;
      ban_private = s.4 ∙ i.ban_private;
      thresholds = s.5 ∙ i.thresholds;
    }
