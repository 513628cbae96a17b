-- ===== src/Tests/Agents.antt =====
-- The manager of internal/agent/ipban at concrete inputs.
use mathlib.Core.List.{Memᴰ}
use server_monitor.Common.{
  ◌+◌, ◌≤◌, ◌≡◌, ◌⊎◌, refl, arith, true, false, not, ◌&&◌, none, some, [], ◌∷◌, is_some, length,
  All, List, ◌++◌, ltb, drop, if◌then◌else◌,
}
use server_monitor.Netip.{Addr, v4}
use server_monitor.Ipban.Guard.{protected}
use server_monitor.Ipban.Tracker.{Policy, Ban, banned, active_bans, new_tracker}
use server_monitor.Ipban.Tracker.Invariant.{Call, imports, run, run-new_tracker-Inv}
use server_monitor.Ipban.Manager.{
  Env, Manager, WireConfig, WirePolicy, Event, ban_action, new_manager, enforce_ok,
  current_enforcer, flush_local, push_event, want_enforce,
}
use server_monitor.Ipban.Manager.Enforcement.{
  refresh_local_addrs, fleet_request, apply_unbans, reconcile_protected,
}
use server_monitor.Ipban.Manager.Handling.{Failure, handle_failure, install_policy, apply}
use server_monitor.Ipban.Manager.Events.{EventsInv, push_event-EventsInv}
use server_monitor.Ipban.Manager
use server_monitor.Ipban.Manager.Disabling.{lifts, apply_disables}
use server_monitor.Ipban.Manager.Safety.{Installed, apply-Installed}
use server_monitor.Ipban.Manager.Unbans.{apply_unbans_again}
use server_monitor.Ipban.Manager.Reconciling.{removals, reconcile_protected-banned}
use server_monitor.Ipban.Manager.Fleet.{
  Admissible, fleet_request-Admissible, BanCall, handle_failure-BanCall,
}

abbrev attacker : Addr
attacker = v4 3405803785

-- The kernel takes every call and holds nothing at first; every text is the attacker's address.
abbrev quiet : Env
quiet = record {
  parse_prefix = λ _. none;
  parse_addr = λ _. some attacker;
  outcome = λ _ _. none;
  active_local = λ _. [];
  active_fleet = λ _. [];
  new_id = λ n. n;
}

abbrev enforcing : WirePolicy
enforcing = record {
  detect = true;
  enforce = true;
  apply_fleet = true;
  aggressive = false;
  max_retry = 3;
  find_time_s = 600;
  ban_time_s = 3600;
  ban_time_max_s = 86400;
  ban_private = false;
}

abbrev config : WireConfig
config = record {
  version = 4;
  policy = enforcing;
  allowlist = "198.51.100.7" ∷ [];
  fleet = record { ip = "203.0.113.9"; expires_at = 900 } ∷ [];
  unban = record { ip = "203.0.113.9"; at = 5 } ∷ [];
}

abbrev started : Manager
started = new_manager true

apply-Installed_example : Installed quiet config (apply quiet 100 [] config started)
apply-Installed_example = apply-Installed quiet 100 [] config started

-- An enforcer works, and an attacker and a visitor are banned, of which the visitor is an address of the host.
abbrev visitor : Addr
visitor = v4 3405803786

abbrev imported : List Call
imported = imports attacker 500 ∷ imports visitor 500 ∷ []

abbrev working : Manager
working = record started {
  policy = enforcing;
  have_policy = true;
  enforce_state = enforce_ok;
  has_enforcer = true;
  tracker = run (new_tracker two_retries) imported;
  guard = record started.guard { local = visitor ∷ [] };
}
  where
    two_retries : Policy
    two_retries = record { max_retry = 2; find_time = 600; ban_time = 100; ban_time_max = 300 }

reconcile_protected-banned_example :
    (banned visitor 100 (reconcile_protected quiet 100 working).tracker
      ≡ (banned visitor 100 working.tracker && not (is_some (protected working.guard visitor))))
    × ((reconcile_protected quiet 100 working).calls ≡ (
        if current_enforcer working
        then removals working.guard (active_bans 100 working.tracker) working.calls
        else working.calls))
reconcile_protected-banned_example =
    reconcile_protected-banned quiet 100 working visitor (λ _ _. refl)
      (run-new_tracker-Inv _ imported (omega arith) (omega arith))

-- The server no longer asks for enforcement.
abbrev released : WireConfig
released = record config { policy = record enforcing { enforce = false } }

apply_disables_example :
    (new : List Manager.Call) × ((apply quiet 100 [] released working).calls ≡ new ++ working.calls)
    × All (λ c. lifts c ≡ true) new
    × ((current_enforcer (refresh_local_addrs quiet 100 [] (install_policy quiet released working))
          ≡ false)
        ⊎ Memᴰ flush_local new)
apply_disables_example = apply_disables quiet 100 [] released working refl

apply_unbans_again_example :
    apply_unbans quiet 200 config.unban (apply_unbans quiet 100 config.unban working)
    ≡ apply_unbans quiet 100 config.unban working
apply_unbans_again_example =
    apply_unbans_again quiet 100 200 config.unban working (λ _ _. refl) (λ _. refl)

abbrev sample_event : Event
sample_event = record {
  id = 0;
  time = 100;
  ip = attacker;
  action = ban_action;
  source = "sshd";
  failures = 3;
  user = "root";
  expires_at = some 900;
  enforced = true;
  count = 1;
}

push_event-EventsInv_example :
    EventsInv quiet (push_event quiet sample_event started)
    × (length (push_event quiet sample_event started).events
          + (push_event quiet sample_event started).dropped_events
        ≡ length started.events + started.dropped_events + 1)
    × ((push_event quiet sample_event started).events
        ≡ (if ltb (length started.events) 2000 then started.events else drop 1 started.events)
          ++ (record sample_event { id = quiet.new_id started.ids_drawn } ∷ []))
push_event-EventsInv_example =
    push_event-EventsInv quiet sample_event started (λ a b e. e) (unfold new_manager in omega arith)

abbrev holding : Manager
holding = record started { events = sample_event ∷ [] }

abbrev enforced : Manager
enforced = apply quiet 100 [] config started

fleet_request-Admissible_example :
    (length (fleet_request quiet 100 config.fleet enforced) ≤ 50000)
    × All (Admissible enforced.guard) (fleet_request quiet 100 config.fleet enforced)
    × (((want_enforce enforced && enforced.policy.apply_fleet) ≡ true)
        ⊎ (fleet_request quiet 100 config.fleet enforced ≡ []))
fleet_request-Admissible_example = fleet_request-Admissible quiet 100 config.fleet enforced

abbrev failure : Failure
failure = record { time = 99; ip = attacker; user = "root"; source = "sshd" }

handle_failure-BanCall_example :
    ((handle_failure quiet 100 failure enforced).calls ≡ enforced.calls)
    ⊎ ((b : Ban) × BanCall 100 failure enforced (handle_failure quiet 100 failure enforced) b)
handle_failure-BanCall_example = handle_failure-BanCall quiet 100 failure enforced
