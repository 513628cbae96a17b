-- ===== src/Ipban/Manager.antt =====
-- internal/agent/ipban/manager.go, enforcer.go and the types of pkg/wire that they exchange: the state of
-- the manager, and its calls of the enforcer. A handler reads its clock once: `now`. Log lines and the
-- texts that only explain a state are left out; an address stands for its printed form.
pub mod Enforcement
pub mod Handling
pub mod Events
pub mod Fleet
pub mod Safety
pub mod Disabling
pub mod Unbans
pub mod Reconciling
use Prim.Native.String.{String}
use server_monitor.Common.{
  ℕ, ◌+◌, ◌-◌, Bool, true, false, not, ◌&&◌, leb, if◌then◌else◌, Option, none, some, List, [], ◌∷◌,
  ◌++◌, drop, length,
}
use server_monitor.Netip.{Addr, Prefix}
use server_monitor.Ipban.Guard.{Guard, new_guard}
use server_monitor.Ipban.Tracker.{Policy, Tracker, RateWindow, new_tracker, second}

-- wire.IPBanPolicy; the numbers are int64 patterns.
pub record WirePolicy : Type 0 where
  pub detect : Bool
  pub enforce : Bool
  pub apply_fleet : Bool
  pub aggressive : Bool
  pub max_retry : ℕ
  pub find_time_s : ℕ
  pub ban_time_s : ℕ
  pub ban_time_max_s : ℕ
  pub ban_private : Bool

pub record WireFleetEntry : Type 0 where
  pub ip : String
  pub expires_at : ℕ

pub record WireUnban : Type 0 where
  pub ip : String
  pub at : ℕ

pub record WireConfig : Type 0 where
  pub version : ℕ
  pub policy : WirePolicy
  pub allowlist : List String
  pub fleet : List WireFleetEntry
  pub unban : List WireUnban

pub data Action : Type 0 where
  ban_action unban_action : Action

pub record Event : Type 0 where
  pub id : ℕ
  pub time : ℕ
  pub ip : Addr
  pub action : Action
  pub source : String
  pub failures : ℕ
  pub user : String
  pub expires_at : Option ℕ
  pub enforced : Bool
  pub count : ℕ

pub record FleetEntry : Type 0 where
  pub ip : Addr
  pub timeout : ℕ

pub record ActiveEntry : Type 0 where
  pub ip : Addr
  pub expires : ℕ

-- The values of enforceState; `unset` is the empty text.
pub data EnforceState : Type 0 where
  unset enforce_ok no_permission unsupported enforce_error : EnforceState

abbrev pub is_enforce_ok : EnforceState → Bool
is_enforce_ok enforce_ok = true
is_enforce_ok unset = false
is_enforce_ok no_permission = false
is_enforce_ok unsupported = false
is_enforce_ok enforce_error = false

-- The calls of the Enforcer interface that change the kernel's table.
pub data Call : Type 0 where
  create : Call
  setup : Call
  add_local : Addr → ℕ → Call
  remove_local : Addr → Call
  flush_local : Call
  replace_fleet : List FleetEntry → Call
  close : Call

-- What the manager takes from outside: the parsers of net/netip; the enforcer's answers, which may
-- depend on all calls so far (the latest first), an error being given by its class
-- (classifyEnforceError); and the random event ids, by how many were drawn before.
pub record Env : Type 0 where
  pub parse_prefix : String → Option Prefix
  pub parse_addr : String → Option Addr
  pub outcome : List Call → Call → Option EnforceState
  pub active_local : List Call → List ActiveEntry
  pub active_fleet : List Call → List ActiveEntry
  pub new_id : ℕ → ℕ

pub record Manager : Type 0 where
  pub tracker : Tracker
  pub guard : Guard
  pub failures_window : RateWindow
  pub bans_window : RateWindow
  pub supported : Bool
  pub cap_net_admin : Bool
  pub cap_known : Bool
  pub applied : ℕ
  pub have_policy : Bool
  pub policy : WirePolicy
  pub fetch_failures : ℕ
  pub has_source : Bool
  pub has_enforcer : Bool
  pub enforce_state : EnforceState
  pub fleet_entries : List WireFleetEntry
  pub fleet_applied : ℕ
  pub events : List Event
  pub dropped_events : ℕ
  pub dropped_fails : ℕ
  pub seen_unbans : List ((Addr × ℕ) × ℕ)
  pub calls : List Call
  pub ids_drawn : ℕ

abbrev pub no_policy : WirePolicy
no_policy = record {
  detect = false;
  enforce = false;
  apply_fleet = false;
  aggressive = false;
  max_retry = 0;
  find_time_s = 0;
  ban_time_s = 0;
  ban_time_max_s = 0;
  ban_private = false;
}

abbrev pub zero_policy : Policy
zero_policy = record { max_retry = 0; find_time = 0; ban_time = 0; ban_time_max = 0 }

-- New; `supported` is whether the platform is Linux.
unfoldable pub new_manager : Bool → Manager
new_manager supported = record {
  tracker = new_tracker zero_policy;
  guard = new_guard;
  failures_window = record { window = 60000000000; stamps = [] };
  bans_window = record { window = 3600000000000; stamps = [] };
  supported = supported;
  cap_net_admin = false;
  cap_known = false;
  applied = 0;
  have_policy = false;
  policy = no_policy;
  fetch_failures = 0;
  has_source = false;
  has_enforcer = false;
  enforce_state = unset;
  fleet_entries = [];
  fleet_applied = 0;
  events = [];
  dropped_events = 0;
  dropped_fails = 0;
  seen_unbans = [];
  calls = [];
  ids_drawn = 0;
}

abbrev pub max_buffered_events : ℕ
max_buffered_events = 2000

abbrev pub max_events_per_report : ℕ
max_events_per_report = 500

abbrev pub max_local_entries : ℕ
max_local_entries = 10000

abbrev pub max_fleet_entries : ℕ
max_fleet_entries = 50000

-- One call of the enforcer: it is recorded, and `none` means that it succeeded.
abbrev pub call : Env → Call → Manager → Manager × Option EnforceState
call env c m = (record m { calls = c ∷ m.calls }, env.outcome m.calls c)

-- setEnforceError
abbrev pub set_enforce_error : EnforceState → Manager → Manager
set_enforce_error kind m = record m { enforce_state = kind }

-- currentEnforcer: whether there is an enforcer in working order.
abbrev pub current_enforcer : Manager → Bool
current_enforcer m = is_enforce_ok m.enforce_state && m.has_enforcer

abbrev pub want_enforce : Manager → Bool
want_enforce m = m.have_policy && m.policy.enforce

-- pushEvent: the event gets a new id, and a full buffer drops its oldest event.
unfoldable pub push_event : Env → Event → Manager → Manager
push_event env ev0 m0 =
    let ev = record ev0 { id = env.new_id m0.ids_drawn } in
    let m = record m0 { ids_drawn = m0.ids_drawn + 1 } in
    if leb max_buffered_events (length m.events)
    then record m { events = drop 1 m.events ++ (ev ∷ []); dropped_events = m.dropped_events + 1 }
    else record m { events = m.events ++ (ev ∷ []) }
