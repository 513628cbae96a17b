-- ===== src/Tests/Bans.antt =====
-- The guard and the tracker of internal/agent/ipban at concrete inputs.
use Prim.Native.String.{String}
use mathlib.Core.List.{Memᴰ}
use server_monitor.Common.{
  ◌+◌, ◌*◌, ◌^◌, ◌≡◌, ◌≢◌, refl, arith, not, ◌&&◌, leb, Option, none, some, List, [], ◌∷◌, is_some,
  ℕ_discrete,
}
use server_monitor.Common.Assoc.{lookup, insert}
use server_monitor.Netip.{Addr, v4, v6, Prefix, Addr-discrete}
use server_monitor.Ipban.Guard.{new_guard, set_allowlist, parse_allowlist, protected}
use server_monitor.Ipban.Guard.Allowlist.{mapped, by_prefix, allowlist_protects}
use server_monitor.Ipban.Tracker.{
  Policy, Ban, Tracker, normalized, ban_duration, counted_bans, new_tracker, observe, observe_state,
  ban_now, recent_failures, escalate, banned, prune,
}
use server_monitor.Ipban.Tracker.Policies.{IsNormal, Normalizes, normalized-Normalizes}
use server_monitor.Ipban.Tracker.Invariant.{Call, observes, imports, run, Inv, run-new_tracker-Inv}
use server_monitor.Ipban.Tracker.Observation.{failure_count, observe-bans_iff}
use server_monitor.Ipban.Tracker.Pruning.{verdicts, verdicts-prune}

-- Two failures within 600 ns lead to a ban of 100 ns, then 200 ns, then 300 ns.
abbrev sample_policy : Policy
sample_policy = record { max_retry = 2; find_time = 600; ban_time = 100; ban_time_max = 300 }

-- 203.0.113.9
abbrev attacker : Addr
attacker = v4 3405803785

abbrev visitor : Addr
visitor = v4 3405803786

abbrev history : List Call
history =
    observes attacker "root" 10
    ∷ observes visitor "bob" 12
    ∷ observes attacker "" 20
    ∷ observes attacker "root" 30
    ∷ imports visitor 90
    ∷ observes attacker "root" 200
    ∷ []

abbrev sample_tracker : Tracker
sample_tracker = run (new_tracker sample_policy) history

sample_tracker-Inv : Inv sample_tracker
sample_tracker-Inv = run-new_tracker-Inv sample_policy history (omega arith) (omega arith)

run-new_tracker-Inv_example : Inv (run (new_tracker sample_policy) history)
run-new_tracker-Inv_example = run-new_tracker-Inv sample_policy history (omega arith) (omega arith)

verdicts-prune_example :
    verdicts
      ((attacker, "root", 750) ∷ (visitor, "bob", 760) ∷ (attacker, "", 800) ∷ [])
      (prune 700 sample_tracker).0
    ≡ verdicts
        ((attacker, "root", 750) ∷ (visitor, "bob", 760) ∷ (attacker, "", 800) ∷ [])
        sample_tracker
verdicts-prune_example = verdicts-prune sample_tracker 700 _ sample_tracker-Inv (omega arith)

observe-bans_iff_example : is_some (observe attacker "root" 210 sample_tracker).1 ≡ (
    not (banned attacker 210 sample_tracker)
    && leb sample_tracker.policy.max_retry (failure_count sample_tracker attacker 210))
observe-bans_iff_example = observe-bans_iff sample_tracker attacker "root" 210 sample_tracker-Inv

-- The tracker with one failure of the attacker, and its second one.
abbrev warned : Tracker
warned = (observe attacker "root" 10 (new_tracker sample_policy)).0

abbrev first_ban : Ban
first_ban = record { ip = attacker; until = 120; failures = 2; user = "root"; count = 1 }

warned_banned : (observe attacker "root" 20 warned).1 ≡ some first_ban
unfolding observe observe_state ban_now recent_failures counted_bans ban_duration escalate
    new_tracker normalized lookup insert Addr-discrete ℕ_discrete
warned_banned = refl

warned_policy-IsNormal : IsNormal warned.policy
unfolding observe new_tracker normalized
warned_policy-IsNormal = omega arith

-- 203.0.113.0/24, in IPv4-mapped form as ::ffff:203.0.113.0/120.
abbrev mapped_net : Prefix
mapped_net = record { base = v6 (65535 * 2 ^ 32 + 3405803776) 0; bits = 120 }

abbrev read_prefix : String → Option Prefix
read_prefix e = some mapped_net

abbrev read_addr : String → Option Addr
read_addr e = none

allowlist_protects_example :
    protected
      (set_allowlist
        (parse_allowlist read_prefix read_addr ("::ffff:203.0.113.0/120" ∷ [])).0
        new_guard)
      (v6 (65535 * 2 ^ 32 + 3405803785) 0)
    ≢ none
allowlist_protects_example =
    allowlist_protects read_prefix read_addr new_guard ("::ffff:203.0.113.0/120" ∷ [])
      "::ffff:203.0.113.0/120" (v6 (65535 * 2 ^ 32 + 3405803785) 0) (Memᴰ.head refl)
      (by_prefix mapped_net refl (mapped refl (omega arith) refl))

-- Without a ban time, and with a longest ban that is shorter than the standard one.
abbrev partial_policy : Policy
partial_policy = record { max_retry = 4; find_time = 600; ban_time = 0; ban_time_max = 300 }

normalized-Normalizes_example : Normalizes partial_policy (normalized partial_policy)
normalized-Normalizes_example = normalized-Normalizes partial_policy (omega arith)
