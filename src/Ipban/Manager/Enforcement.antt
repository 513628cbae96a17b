-- ===== src/Ipban/Manager/Enforcement.antt =====
-- internal/agent/ipban/manager.go: what the manager does to the kernel's table.
use server_monitor.Common.{
  ℕ, ◌+◌, ◌-◌, Bool, true, false, not, ◌&&◌, ltb, leb, if◌then◌else◌, Option, none, some, List, [],
  ◌∷◌, length, is_some, ◌==◌, ℕ_discrete,
}
use server_monitor.Common.Assoc.{lookup, insert}
use server_monitor.Netip.{Addr, Addr-discrete, unmap}
use server_monitor.Ipban.Guard.{protected, is_routable, set_local}
use server_monitor.Ipban.Tracker.{Ban, active_bans, import_ban, unban}
use server_monitor.Ipban.Manager.{
  WireFleetEntry, WireUnban, unban_action, FleetEntry, ActiveEntry, enforce_ok, is_enforce_ok,
  no_permission, unsupported, create, setup, add_local, remove_local, flush_local, replace_fleet,
  close, Env, Manager, call, set_enforce_error, current_enforcer, want_enforce, push_event,
  max_fleet_entries,
}

-- The key of seenUnbans: an address, and the time of the request.
unfoldable pub UnbanKey-discrete : Discrete (Addr × ℕ)
UnbanKey-discrete = hlevel (Addr-discrete, ℕ_discrete)

-- The tracker learns of an entry that has time left.
unfoldable pub import_entry : ℕ → ActiveEntry → Manager → Manager
import_entry now entry m =
    if ltb 0 entry.expires
    then record m { tracker = import_ban entry.ip (now + entry.expires) m.tracker }
    else m

module _ (env : Env) where
  -- The loop of ensureEnforcer over the entries that the kernel holds; `false` when a removal failed.
  unfoldable pub import_entries : ℕ → List ActiveEntry → Manager → Manager × Bool
  import_entries now [] m = (m, true)
  import_entries now (entry ∷ entries) m =
      let removed = call env (remove_local entry.ip) m in
      let after_removal = import_entries now entries removed.0 in
      let kept = import_entries now entries (import_entry now entry m) in
      if is_some (protected m.guard entry.ip)
      then elim removed.1 [
        | none ↦ after_removal
        | some kind ↦ (set_enforce_error kind (call env close removed.0).0, false)
      ]
      else kept

  -- The new enforcer takes over what the kernel holds.
  unfoldable pub adopt_enforcer : ℕ → Manager → Manager × Bool
  adopt_enforcer now m =
      let fleet = env.active_fleet m.calls in
      let (m', done) = import_entries now (env.active_local m.calls) m in
      if done
      then (
        record m' { has_enforcer = true; enforce_state = enforce_ok; fleet_applied = length fleet },
        true,
      )
      else (m', false)

  -- NewEnforcer and Setup. An enforcer that was made and could not be set up is closed.
  unfoldable pub start_enforcer : ℕ → Manager → Manager × Bool
  start_enforcer now m =
      let (m₁, created) = call env create m in
      elim created [
        | some kind ↦ (record m₁ { enforce_state = kind }, false)
        | none ↦
            let (m₂, set) = call env setup m₁ in
            elim set [
              | some kind ↦ (record (call env close m₂).0 { enforce_state = kind }, false)
              | none ↦ adopt_enforcer now m₂
            ]
      ]

  abbrev pub close_existing : Manager → Manager
  close_existing m =
      if m.has_enforcer then (call env close (record m { has_enforcer = false })).0 else m

  unfoldable pub ensure_enforcer : ℕ → Manager → Manager × Bool
  ensure_enforcer now m =
      if m.has_enforcer && current_enforcer m
      then (m, true)
      else if not m.supported
      then (record m { enforce_state = unsupported }, false)
      else if m.cap_known && not m.cap_net_admin
      then (record m { enforce_state = no_permission }, false)
      else start_enforcer now (close_existing m)

  unfoldable pub add_bans : ℕ → List Ban → Manager → Manager
  add_bans now [] m = m
  add_bans now (ban ∷ bans) m =
      let (m', err) = call env (add_local ban.ip (ban.until - now)) m in
      let rest = add_bans now bans m' in
      elim err [ some kind ↦ set_enforce_error kind m' | none ↦ rest ]

  unfoldable pub sync_local_from_tracker : ℕ → Manager → Manager
  sync_local_from_tracker now m =
      if current_enforcer m then add_bans now (active_bans now m.tracker) m else m

  unfoldable pub disable_enforcement : Manager → Manager
  disable_enforcement m =
      let (m₁, flushed) = call env flush_local m in
      let (m₂, replaced) = call env (replace_fleet []) m₁ in
      if m.has_enforcer && current_enforcer m
      then elim flushed [
        | some kind ↦ set_enforce_error kind m₁
        | none ↦ elim replaced [
          | some kind ↦ set_enforce_error kind m₂
          | none ↦ record m₂ { fleet_applied = 0 }
        ]
      ]
      else m

  -- The end of the body of the loop of applyUnbans: the tracker, the memory of the request, the event.
  unfoldable pub finish_unban : ℕ → Addr → ℕ → Manager → Manager
  finish_unban now ip at m =
      let (tracker, was) = unban ip m.tracker in
      let m' = record m {
        tracker = tracker;
        seen_unbans = insert UnbanKey-discrete (ip, at) now m.seen_unbans;
      } in
      if was
      then push_event env
          (record {
            id = 0;
            time = now;
            ip = ip;
            action = unban_action;
            source = "server";
            failures = 0;
            user = "";
            expires_at = none;
            enforced = false;
            count = 0;
          })
          m'
      else m'

  -- The body of the loop of applyUnbans for an address, and whether the enforcer still works for the loop.
  unfoldable pub unban_one : ℕ → Bool → Bool → Addr → ℕ → Manager → Manager × Bool
  unban_one now want live ip at m =
      let (m', err) = call env (remove_local ip) m in
      if is_some (lookup UnbanKey-discrete (ip, at) m.seen_unbans)
      then (m, live)
      else if want && not live
      then (m, live)
      else if live
      then elim err [
        | some kind ↦ (set_enforce_error kind m', false)
        | none ↦ (finish_unban now ip at m', true)
      ]
      else (finish_unban now ip at m, false)

  unfoldable pub unban_entry : ℕ → Bool → Bool → WireUnban → Manager → Manager × Bool
  unban_entry now want live u m = elim (env.parse_addr u.ip) [
    | none ↦ (m, live)
    | some parsed ↦ unban_one now want live (unmap parsed) u.at m
  ]

  unfoldable pub unban_loop : ℕ → Bool → Bool → List WireUnban → Manager → Manager
  unban_loop now want live [] m = m
  unban_loop now want live (u ∷ us) m =
      let (m', live') = unban_entry now want live u m in unban_loop now want live' us m'

  unfoldable pub apply_unbans : ℕ → List WireUnban → Manager → Manager
  apply_unbans now list m = unban_loop now (want_enforce m) (current_enforcer m) list m

  -- The body of the loop of applyFleet: what goes to the kernel for an entry, if anything.
  unfoldable pub fleet_entry : ℕ → Manager → WireFleetEntry → Option FleetEntry
  fleet_entry now m entry = elim (env.parse_addr entry.ip) [
    | none ↦ none
    | some parsed ↦
        let ip = unmap parsed in
        if not (is_routable ip)
        then none
        else if is_some (protected m.guard ip)
        then none
        else if leb entry.expires_at now
        then none
        else some (record { ip = ip; timeout = entry.expires_at - now })
  ]

  -- The loop, with the number of entries that still fit.
  unfoldable pub fleet_list : ℕ → Manager → ℕ → List WireFleetEntry → List FleetEntry
  fleet_list now m room [] = []
  fleet_list now m room (entry ∷ entries) =
      let skipped = fleet_list now m room entries in
      let rest = fleet_list now m (room - 1) entries in
      if room == 0
      then []
      else elim (fleet_entry now m entry) [ none ↦ skipped | some e ↦ e ∷ rest ]

  -- The list for ReplaceFleet: empty unless the policy enforces and applies the fleet's list.
  unfoldable pub fleet_request : ℕ → List WireFleetEntry → Manager → List FleetEntry
  fleet_request now entries m =
      if want_enforce m && m.policy.apply_fleet
      then fleet_list now m max_fleet_entries entries
      else []

  unfoldable pub apply_fleet : ℕ → List WireFleetEntry → Manager → Manager
  apply_fleet now entries m0 =
      let m = record m0 { fleet_entries = entries } in
      let list = fleet_request now entries m0 in
      let (m', err) = call env (replace_fleet list) m in
      if current_enforcer m
      then elim err [
        | some kind ↦ set_enforce_error kind m'
        | none ↦ record m' { fleet_applied = length list }
      ]
      else m

  -- retryEnforcer
  unfoldable pub retry_enforcer : ℕ → Manager → Manager
  retry_enforcer now m =
      let (m', ready) = ensure_enforcer now m in
      let synced = sync_local_from_tracker now m' in
      if want_enforce m && not (is_enforce_ok m.enforce_state)
      then (if ready then apply_fleet now synced.fleet_entries synced else m')
      else m

  -- The body of the loop of reconcileProtected, and whether the loop goes on.
  unfoldable pub reconcile_one : Bool → Ban → Manager → Manager × Bool
  reconcile_one live ban m =
      let (m', err) = call env (remove_local ban.ip) m in
      if not (is_some (protected m.guard ban.ip))
      then (m, true)
      else if live
      then elim err [
        | some kind ↦ (set_enforce_error kind m', false)
        | none ↦ (record m' { tracker = (unban ban.ip m.tracker).0 }, true)
      ]
      else (record m { tracker = (unban ban.ip m.tracker).0 }, true)

  unfoldable pub reconcile_bans : Bool → List Ban → Manager → Manager
  reconcile_bans live [] m = m
  reconcile_bans live (ban ∷ bans) m =
      let (m', go) = reconcile_one live ban m in
      let rest = reconcile_bans live bans m' in if go then rest else m'

  unfoldable pub reconcile_protected : ℕ → Manager → Manager
  reconcile_protected now m = reconcile_bans (current_enforcer m) (active_bans now m.tracker) m

  -- refreshLocalAddrs, for the addresses that the interfaces and the server's name gave.
  unfoldable pub refresh_local_addrs : ℕ → List Addr → Manager → Manager
  refresh_local_addrs now addrs m0 =
      let m = reconcile_protected now (record m0 { guard = set_local addrs m0.guard }) in
      apply_fleet now m.fleet_entries m
