-- ===== src/Ipban/Manager/Handling.antt =====
-- internal/agent/ipban/manager.go: failures, the server's configuration, and the reports to the server.
use Prim.Native.String.{String}
use server_monitor.Common.{
  ℕ, ◌+◌, ◌-◌, ◌*◌, ◌^◌, Bool, true, false, not, ◌&&◌, ◌||◌, ltb, leb, if◌then◌else◌, Option, none,
  some, List, length, is_some, ◌==◌, min, take, keep, any,
}
use server_monitor.Common.Int64.{lt_i64, mul_i64, time_add}
use server_monitor.Common.Assoc.{update_all}
use server_monitor.Netip.{Addr}
use server_monitor.Ipban.Guard.{protected, parse_allowlist, set_allowlist, set_ban_private}
use server_monitor.Ipban.Tracker.{
  Policy, Ban, second, active_bans, observe, add_stamp, set_policy, prune,
}
use server_monitor.Ipban.Manager.{
  WirePolicy, WireConfig, Event, ban_action, add_local, close, Env, Manager, call,
  set_enforce_error, current_enforcer, want_enforce, push_event, max_local_entries,
  max_events_per_report,
}
use server_monitor.Ipban.Manager.Enforcement.{
  ensure_enforcer, sync_local_from_tracker, disable_enforcement, reconcile_protected, apply_unbans,
  apply_fleet, refresh_local_addrs, retry_enforcer,
}

pub record Failure : Type 0 where
  pub time : ℕ
  pub ip : Addr
  pub user : String
  pub source : String

-- failureEventTime: two minutes ahead of the clock at most.
unfoldable pub failure_event_time : ℕ → ℕ → ℕ
failure_event_time at now = if at == 0 || ltb (now + 120000000000) at then now else at

-- The policy of the tracker in nanoseconds; a product wraps.
abbrev pub tracker_policy : WirePolicy → Policy
tracker_policy p = record {
  max_retry = p.max_retry;
  find_time = mul_i64 p.find_time_s second;
  ban_time = mul_i64 p.ban_time_s second;
  ban_time_max = mul_i64 p.ban_time_max_s second;
}

-- A failure from before the window, which handleFailure ignores.
unfoldable pub is_stale : Manager → ℕ → Failure → Bool
is_stale m now f =
    let find_time = mul_i64 m.policy.find_time_s second in
    not (f.time == 0) && lt_i64 0 find_time && ltb (time_add f.time find_time) now

module _ (env : Env) where
  -- The enforcement of a new ban, and whether the kernel took it.
  unfoldable pub enforce_ban : ℕ → Ban → Manager → Manager × Bool
  enforce_ban now ban m =
      let (m', err) = call env (add_local ban.ip (ban.until - now)) m in
      if want_enforce m
        && current_enforcer m
        && leb (length (active_bans now m.tracker)) max_local_entries
      then elim err [ some kind ↦ (set_enforce_error kind m', false) | none ↦ (m', true) ]
      else (m, false)

  abbrev ban_event : ℕ → Failure → Ban → Bool → Event
  ban_event now f ban enforced = record {
    id = 0;
    time = failure_event_time f.time now;
    ip = ban.ip;
    action = ban_action;
    source = f.source;
    failures = ban.failures;
    user = ban.user;
    expires_at = some ban.until;
    enforced = enforced;
    count = ban.count;
  }

  -- handleFailure after a failure that led to a ban.
  unfoldable pub handle_ban : ℕ → Failure → Ban → Manager → Manager
  handle_ban now f ban m =
      let (m', enforced) =
        enforce_ban now ban (record m { bans_window = add_stamp now m.bans_window }) in
      push_event env (ban_event now f ban enforced) m'

  unfoldable pub handle_failure : ℕ → Failure → Manager → Manager
  handle_failure now f m =
      let counted = record m { failures_window = add_stamp now m.failures_window } in
      let (tracker, ban) = observe f.ip f.user now m.tracker in
      let observed = record counted { tracker = tracker } in
      if is_stale m now f
      then m
      else if is_some (protected m.guard f.ip)
      then counted
      else elim ban [ none ↦ observed | some b ↦ handle_ban now f b observed ]

  -- apply, up to the point where the policy is in place: an enforcing policy without an allowlist is
  -- taken as one that observes.
  unfoldable pub install_policy : WireConfig → Manager → Manager
  install_policy cfg m =
      let prefixes = (parse_allowlist env.parse_prefix env.parse_addr cfg.allowlist).0 in
      record m {
        tracker = set_policy (tracker_policy cfg.policy) m.tracker;
        guard = set_ban_private cfg.policy.ban_private (set_allowlist prefixes m.guard);
        policy =
            (if cfg.policy.enforce && length prefixes == 0
              then record pol { enforce = false }
              else pol);
        have_policy = true;
        applied = cfg.version;
      }
    where
      pol : WirePolicy
      pol = cfg.policy

  -- The step of apply that turns enforcement on or off.
  unfoldable pub switch_enforcement : ℕ → Bool → Manager → Manager
  switch_enforcement now prev_enforce m =
      let (m', ready) = ensure_enforcer env now m in
      if m.policy.enforce
      then (if ready && not prev_enforce then sync_local_from_tracker env now m' else m')
      else disable_enforcement env m

  unfoldable pub apply : ℕ → List Addr → WireConfig → Manager → Manager
  apply now addrs cfg m0 =
      let m₁ = refresh_local_addrs env now addrs (install_policy cfg m0) in
      let m₂ = record m₁ { has_source = cfg.policy.detect } in
      let m₃ = switch_enforcement now (want_enforce m0) m₂ in
      let m₄ = reconcile_protected env now m₃ in
      apply_fleet env now cfg.fleet (apply_unbans env now cfg.unban m₄)

  -- The ticks of Run: pruning, and the retry of a broken enforcer.
  unfoldable pub prune_tick : ℕ → Manager → Manager
  prune_tick now m = retry_enforcer env now (record m {
    tracker = (prune now m.tracker).0;
    seen_unbans =
        update_all (λ seen. if ltb (seen + 86400000000000) now then none else some seen)
          m.seen_unbans;
  })

  unfoldable pub shutdown : Manager → Manager
  shutdown m =
      let m' = record m { has_source = false; has_enforcer = false } in
      if m.has_enforcer then (call env close m').0 else m'

-- The wait after the n-th failed fetch in a row: 5 seconds, doubled up to six times, 5 minutes at most.
unfoldable pub fetch_wait : ℕ → ℕ
fetch_wait n =
    let wait = 5000000000 * 2 ^ min (n - 1) 6 in
    if ltb 300000000000 wait then 300000000000 else wait

-- fetch, when the server did not answer: the failure is counted, and the next attempt waits.
unfoldable pub fetch_failed : Manager → Manager × ℕ
unfolding fetch_wait
fetch_failed m = let n = m.fetch_failures + 1 in (record m { fetch_failures = n }, fetch_wait n)

unfoldable pub fetch_done : Env → ℕ → List Addr → Option WireConfig → Manager → Manager
fetch_done env now addrs cfg m0 =
    let m = record m0 { fetch_failures = 0 } in
    elim cfg [ none ↦ m | some c ↦ apply env now addrs c m ]

-- The events of Report: the oldest ones, up to a limit.
unfoldable pub reported_events : Manager → List Event
reported_events m = take max_events_per_report m.events

abbrev pub is_acked : List Event → Event → Bool
is_acked acked ev = any (λ a. a.id == ev.id) acked

-- AcknowledgeEvents
unfoldable pub acknowledge_events : List Event → Manager → Manager
acknowledge_events acked m = record m { events = keep (λ ev. not (is_acked acked ev)) m.events }
