-- ===== src/Tests/Fleets.antt =====
-- The ban service of internal/server/ipban/service.go at concrete inputs.
use server_monitor.Common.{
  ◌==◌, ◌≡◌, refl, arith, true, false, none, some, [], ◌∷◌, ◌+◌, ◌*◌, ℕ, List,
}
use server_monitor.Netip.{Addr, v4}
use server_monitor.Settings.{Text, wire_policy}
use server_monitor.Ipban.Guard.{is_routable}
use server_monitor.Tests.Policies.{shipped, home}
use server_monitor.Fleet.{
  EventRow, unban, Db, FleetRow, sweep, Service, Status, routable, second, host_policy,
}
use server_monitor.Fleet.Ingest.{WireEvent, Report, reports_ban, ingest_events, sender}
use server_monitor.Fleet.Runs.{
  Op, op_ingest, op_manual_ban, op_fleet_unban, op_sweep, perform, perform_all, guarded_policy,
}
use server_monitor.Fleet.Enforcement.{IsGuarded}
use server_monitor.Fleet.Enforcement.Runs.{guarded_policy-wire_policy}
use server_monitor.Fleet.Coherence.{IsCoherent, perform_all-IsCoherent}
use server_monitor.Fleet.Announced.{Unchanged}
use server_monitor.Fleet.Announced.Runs.{perform-Announces}
use server_monitor.Fleet.Justified.{Explained}
use server_monitor.Fleet.Justified.Loop.{ingest_events-Explained}
use server_monitor.Fleet.Pages.{EventFilter, ip_filter, select_events, stream_events}
use server_monitor.Fleet.Pages.Rounds.{Streams}
use server_monitor.Fleet.Pages.Streaming.{stream_events-StreamsFilter}
use server_monitor.Fleet.Routability.{routable-is_routable}

-- Every text is the address 8.8.8.8, and the prefix of the home network.
abbrev resolver : Addr
resolver = v4 0x08080808

abbrev words : Text
words = record {
  same = λ _ _. true;
  trim_space = λ s. s;
  lower = λ s. s;
  parse_prefix = λ _. some home;
  parse_addr = λ _. some resolver;
  show_prefix = λ _. "192.168.0.0/16";
}

abbrev spent : FleetRow
spent = record {
  first_seen = 1;
  last_seen = 1;
  host_count = 1;
  ban_count = 1;
  expires_at = 2;
  manual = false;
}

abbrev tables : Db
tables = record {
  settings = record shipped { fleet_min_hosts = 1 };
  known = 7 ∷ [];
  hosts = [];
  events = [];
  next_id = 1;
  active = [];
  fleet = (v4 0x01010101, spent) ∷ [];
  suppress = [];
  commands = [];
}

abbrev service : Service
service = record { db = tables; version = 1; cached = record shipped { fleet_min_hosts = 1 } }

abbrev noon : ℕ
noon = 1000000 * second

abbrev attack : WireEvent
attack = record {
  id = 97 ∷ [];
  time = noon;
  ip = "8.8.8.8";
  action = reports_ban;
  expires_at = some (noon + 600 * second);
  enforced = true;
  failures = 5;
  count = 1;
}

abbrev healthy : Status
healthy = record {
  supported = true;
  detect_state = "ok";
  enforce_state = "ok";
  active_local = 1;
  applied_version = 1;
}

abbrev attacked : Report
attacked = record { status = healthy; events = attack ∷ [] }

abbrev day : List (ℕ × Op)
day =
    (noon, op_ingest false false 7 attacked)
    ∷ (noon + second, op_manual_ban false "8.8.8.8" (3600 * second))
    ∷ (noon + 2 * second, op_fleet_unban false false "8.8.8.8")
    ∷ (noon + 3 * second, op_sweep false false false false true)
    ∷ []

abbrev guarded : IsGuarded tables
guarded = record { settings_off = refl; hosts_off = refl }

guarded_policy-wire_policy_example :
    let db = (perform_all words 0 day service).db in
    guarded_policy words db.settings (host_policy 7 db)
    ≡ wire_policy words db.settings (host_policy 7 db)
guarded_policy-wire_policy_example = guarded_policy-wire_policy words 0 day service 7 guarded

perform_all-IsCoherent_example : IsCoherent (perform_all words 0 day service)
perform_all-IsCoherent_example =
    perform_all-IsCoherent words 0 day service (record { cached = refl; version = refl })

abbrev quiet : Op
quiet = op_sweep false false false false false

perform-Announces_example : Unchanged noon tables (perform words second noon quiet service).db
unfolding perform sweep
perform-Announces_example = perform-Announces words second noon quiet service (omega arith) refl

ingest_events-Explained_example :
    Explained
      (sender words noon 7 tables)
      resolver
      tables
      (ingest_events words noon 7 (attack ∷ []) tables).0
ingest_events-Explained_example = ingest_events-Explained words noon 7 (attack ∷ []) tables resolver

routable-is_routable_example : routable resolver ≡ is_routable resolver
routable-is_routable_example = routable-is_routable resolver tt

abbrev unban_filter : EventFilter
unban_filter = record { host = 7; ip = "8.8.8.8"; before = noon; before_id = 9; limit = 5 }

abbrev unban_logged : EventRow
unban_logged = record {
  id = 4;
  time = 12;
  host = some 7;
  ip = resolver;
  action = unban;
  expires_at = none;
  enforced = false;
  failures = 0;
  repeat_count = 0;
  agent_event_id = [];
  contributed = false;
}

stream_events-StreamsFilter_example :
    Streams
      (λ n. n == 0)
      (λ _. true)
      (select_events 7 (some resolver) noon 9 (unban_logged ∷ []))
      (stream_events words (λ n. n == 0) (λ _. true) unban_filter (unban_logged ∷ []))
unfolding ip_filter
stream_events-StreamsFilter_example =
    stream_events-StreamsFilter words (λ n. n == 0) (λ _. true) unban_filter (unban_logged ∷ [])
      (tt, tt) ((omega arith, (omega arith, omega arith)), tt)
