-- ===== src/Tests/Policies.antt =====
-- The settings of internal/server/ipban at concrete inputs.
use server_monitor.Common.{◌≡◌, refl, arith, true, false, none, some, [], ◌∷◌}
use server_monitor.Netip.{v4, Prefix}
use server_monitor.Ipban.Manager.Handling.{tracker_policy}
use server_monitor.Settings.{
  Text, Settings, HostPolicy, validate, wire_policy, first_invalid, normalize_allowlist,
  normalize_loop,
}
use server_monitor.Ipban.Guard.{allow_entry}
use server_monitor.Settings.Bounds.{IsPattern, Accepted, validate-Accepted}

abbrev pub home : Prefix
home = record { base = v4 0xc0a80000; bits = 16 }

-- Every text is the mode normal, and the prefix of the home network.
abbrev plain : Text
plain = record {
  same = λ _ _. true;
  trim_space = λ s. s;
  lower = λ s. s;
  parse_prefix = λ _. some home;
  parse_addr = λ _. none;
  show_prefix = λ _. "192.168.0.0/16";
}

abbrev pub shipped : Settings
shipped = record {
  enabled = true;
  enforce = true;
  contribute = true;
  apply_fleet = true;
  mode = "normal";
  max_retry = 5;
  find_time_s = 600;
  ban_time_s = 600;
  ban_time_max_s = 604800;
  ban_private = false;
  fleet_min_hosts = 2;
  fleet_min_bans = 3;
  fleet_ttl_s = 86400;
  allowlist = "192.168.0.0/16" ∷ [];
  version = 1;
}

abbrev pub no_override : HostPolicy
no_override = record { detect = none; enforce = none; contribute = none; apply_fleet = none }

abbrev shipped_patterns : IsPattern shipped
shipped_patterns = record {
  max_retry = omega arith;
  find_time_s = omega arith;
  ban_time_s = omega arith;
  ban_time_max_s = omega arith;
}

shipped_valid : (validate plain shipped).1 ≡ none
unfolding validate first_invalid normalize_allowlist normalize_loop allow_entry
shipped_valid = refl

validate-Accepted_example :
    Accepted (tracker_policy (wire_policy plain (validate plain shipped).0 no_override))
validate-Accepted_example =
    validate-Accepted plain shipped no_override shipped_patterns shipped_valid
