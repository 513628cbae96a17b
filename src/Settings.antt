-- ===== src/Settings.antt =====
-- internal/server/ipban/service.go: the settings of the ban service, and their validation. Integers are
-- int64 patterns. What the code uses of the packages strings and net/netip is a record of parameters.
pub mod Bounds
use Prim.Native.String.{String}
use server_monitor.Common.{
  ℕ, Bool, true, false, not, ◌&&◌, ◌||◌, ltb, if◌then◌else◌, ◌==◌, Option, none, some, List, [],
  ◌∷◌, any, length,
}
use server_monitor.Common.Int64.{lt_i64}
use server_monitor.Netip.{Addr, Prefix}
use server_monitor.Ipban.Guard.{allow_entry}
use server_monitor.Ipban.Tracker.{is_empty}
use server_monitor.Ipban.Manager.{WirePolicy}

-- Strings and addresses: equality, TrimSpace, ToLower, and the parsers and the printer of prefixes.
pub record Text : Type 0 where
  pub same : String → String → Bool
  pub trim_space : String → String
  pub lower : String → String
  pub parse_prefix : String → Option Prefix
  pub parse_addr : String → Option Addr
  pub show_prefix : Prefix → String

pub record Settings : Type 0 where
  pub enabled : Bool
  pub enforce : Bool
  pub contribute : Bool
  pub apply_fleet : Bool
  pub mode : String
  pub max_retry : ℕ
  pub find_time_s : ℕ
  pub ban_time_s : ℕ
  pub ban_time_max_s : ℕ
  pub ban_private : Bool
  pub fleet_min_hosts : ℕ
  pub fleet_min_bans : ℕ
  pub fleet_ttl_s : ℕ
  pub allowlist : List String
  pub version : ℕ

-- A field that is absent is none.
pub record SettingsInput : Type 0 where
  pub enabled : Option Bool
  pub enforce : Option Bool
  pub contribute : Option Bool
  pub apply_fleet : Option Bool
  pub mode : Option String
  pub max_retry : Option ℕ
  pub find_time_s : Option ℕ
  pub ban_time_s : Option ℕ
  pub ban_time_max_s : Option ℕ
  pub ban_private : Option Bool
  pub fleet_min_hosts : Option ℕ
  pub fleet_min_bans : Option ℕ
  pub fleet_ttl_s : Option ℕ
  pub allowlist : Option (List String)

abbrev pub given {ℓ} : {A : Type ℓ} → Option A → A → A
given none old = old
given (some new) old = new

unfoldable pub apply_input : Text → Settings → SettingsInput → Settings
apply_input text st i = record {
  enabled = given i.enabled st.enabled;
  enforce = given i.enforce st.enforce;
  contribute = given i.contribute st.contribute;
  apply_fleet = given i.apply_fleet st.apply_fleet;
  mode = elim (i.mode) [ some mode ↦ text.lower (text.trim_space mode) | none ↦ st.mode ];
  max_retry = given i.max_retry st.max_retry;
  find_time_s = given i.find_time_s st.find_time_s;
  ban_time_s = given i.ban_time_s st.ban_time_s;
  ban_time_max_s = given i.ban_time_max_s st.ban_time_max_s;
  ban_private = given i.ban_private st.ban_private;
  fleet_min_hosts = given i.fleet_min_hosts st.fleet_min_hosts;
  fleet_min_bans = given i.fleet_min_bans st.fleet_min_bans;
  fleet_ttl_s = given i.fleet_ttl_s st.fleet_ttl_s;
  allowlist = given i.allowlist st.allowlist;
  version = st.version;
}

pub data Invalid : Type 0 where
  bad_mode bad_max_retry bad_find_time bad_ban_time bad_ban_time_max bad_min_hosts bad_min_bans
        bad_ttl bad_entry long_list no_allowlist :
      Invalid

-- One iteration of the loop of NormalizeAllowlist: the texts so far, the latest first.
abbrev pub add_text : Text → String → List String → List String
add_text text t out = if any (text.same t) out then out else t ∷ out

unfoldable pub normalize_loop : Text → List String → List String → Option (List String)
normalize_loop text out [] = some out
normalize_loop text out (raw ∷ raws) =
    let e = text.trim_space raw in
    let skipped = normalize_loop text out raws in
    elim (allow_entry text.parse_prefix text.parse_addr e) [
      | none ↦ if is_empty e then skipped else none
      | some p ↦
          if is_empty e
          then skipped
          else normalize_loop text (add_text text (text.show_prefix p) out) raws
    ]

abbrev pub reversed : List String → List String → List String
reversed [] out = out
reversed (x ∷ xs) out = reversed xs (x ∷ out)

unfoldable pub normalize_allowlist : Text → List String → List String × Option Invalid
normalize_allowlist text entries = elim (normalize_loop text [] entries) [
  | none ↦ ([], some bad_entry)
  | some out ↦ if ltb 1000 (length out) then ([], some long_list) else (reversed out [], none)
]

-- The tests of the scalar fields, in order.
unfoldable pub first_invalid : Text → Settings → Option Invalid
first_invalid text st =
    if not (text.same st.mode "normal") && not (text.same st.mode "aggressive")
    then some bad_mode
    else if lt_i64 st.max_retry 1 || lt_i64 100 st.max_retry
    then some bad_max_retry
    else if lt_i64 st.find_time_s 60 || lt_i64 86400 st.find_time_s
    then some bad_find_time
    else if lt_i64 st.ban_time_s 60 || lt_i64 2592000 st.ban_time_s
    then some bad_ban_time
    else if lt_i64 st.ban_time_max_s st.ban_time_s || lt_i64 31536000 st.ban_time_max_s
    then some bad_ban_time_max
    else if lt_i64 st.fleet_min_hosts 1 || lt_i64 1000 st.fleet_min_hosts
    then some bad_min_hosts
    else if lt_i64 st.fleet_min_bans 1 || lt_i64 10000 st.fleet_min_bans
    then some bad_min_bans
    else if lt_i64 st.fleet_ttl_s 300 || lt_i64 2592000 st.fleet_ttl_s
    then some bad_ttl
    else none

-- Validate: the settings, and the error if there is one.
unfoldable pub validate : Text → Settings → Settings × Option Invalid
validate text st =
    let (list, err) = normalize_allowlist text st.allowlist in
    let st' = record st { allowlist = list } in
    elim (first_invalid text st) [
      | some e ↦ (st, some e)
      | none ↦ elim err [
        | some e ↦ (st, some e)
        | none ↦ if st'.enforce && length list == 0 then (st', some no_allowlist) else (st', none)
      ]
    ]

-- effectiveFor, on the values of the host's policy.
pub record HostPolicy : Type 0 where
  pub detect : Option Bool
  pub enforce : Option Bool
  pub contribute : Option Bool
  pub apply_fleet : Option Bool

-- The policy of AgentConfig, with the effective policy of the host.
unfoldable pub wire_policy : Text → Settings → HostPolicy → WirePolicy
wire_policy text st host = record {
  detect = given host.detect st.enabled;
  enforce = given host.enforce st.enforce;
  apply_fleet = given host.apply_fleet st.apply_fleet;
  aggressive = text.same st.mode "aggressive";
  max_retry = st.max_retry;
  find_time_s = st.find_time_s;
  ban_time_s = st.ban_time_s;
  ban_time_max_s = st.ban_time_max_s;
  ban_private = st.ban_private;
}
