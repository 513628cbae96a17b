-- ===== src/Ipban/Tracker/Invariant.antt =====
-- What holds of a tracker between two calls, as long as its policy stays.
use Prim.Native.String.{String}
use server_monitor.Common.{
  ℕ, ◌≤◌, ◌<◌, ◌≡◌, ◌⊎◌, inl, inr, arith, ltb, none, List, [], ◌∷◌, ◌++◌, length, length-append,
  length-keep-le, Option-cases,
}
use server_monitor.Common.Int64.{lt_i64-ltb, time_add}
use server_monitor.Common.Assoc.{lookup, insert, UniqueKeys, lookup-insert, lookup-delete}
use server_monitor.Common.Assoc.Laws.{
  insert-UniqueKeys, delete-UniqueKeys, update_all-UniqueKeys, lookup-update_all,
}
use server_monitor.Netip.{Addr, Addr-discrete}
use server_monitor.Ipban.Tracker.{
  Policy, IpState, Tracker, or_empty, recent_failures, ban_now, normalized, observe_state, observe,
  import_ban, unban, prune_state, prune, new_tracker,
}
use server_monitor.Ipban.Tracker.Policies.{IsNormal, InRange, normalized-IsNormal}

abbrev pub state_of : Addr → Tracker → IpState
state_of ip t = or_empty (lookup Addr-discrete ip t.states)

-- Fewer failures are held than lead to a ban, and an address with bans has the time of the last one.
pub record StateOk (p : Policy) (st : IpState) : Type 0 where
  pub below : length st.failures < p.max_retry
  pub dated : (st.bans ≡ 0) ⊎ (0 < st.last_ban)

pub record Inv (t : Tracker) : Type 0 where
  pub normal : IsNormal t.policy
  pub unique : UniqueKeys Addr-discrete t.states
  pub states : (ip : Addr) → StateOk t.policy (state_of ip t)

pub length-recent :
    (p : Policy) (now : ℕ) (fs : List ℕ) → length (recent_failures p now fs) ≤ length fs
unfolding recent_failures
length-recent p now fs = length-keep-le (λ f. ltb now (time_add f p.find_time)) fs

observe_state-StateOk :
    (p : Policy) (ip : Addr) (user : String) (now : ℕ) (st : IpState)
    → IsNormal p
    → 0 < now
    → StateOk p st
    → StateOk p (observe_state p ip user now st).0
unfolding observe_state ban_now
observe_state-StateOk p ip user now st n h o = ground (
  arith,
  length-recent p now st.failures,
  length-append (recent_failures p now st.failures) (now ∷ []),
  lt_i64-ltb (length (recent_failures p now st.failures ++ now ∷ [])) p.max_retry,
)

prune_state-StateOk :
    (p : Policy) (now : ℕ) (st : IpState)
    → IsNormal p
    → StateOk p st
    → StateOk p (or_empty (prune_state p now st))
unfolding prune_state
prune_state-StateOk p now st n o = ground arith

empty-StateOk : (p : Policy) → IsNormal p → StateOk p (or_empty none)
empty-StateOk p n = ground arith

-- Replacing the state of one address by a good one.
insert-Inv :
    (t : Tracker) (ip : Addr) (st : IpState)
    → Inv t
    → StateOk t.policy st
    → Inv (record t { states = insert Addr-discrete ip st t.states })
insert-Inv t ip st v o = record {
  normal = v.normal;
  unique = insert-UniqueKeys Addr-discrete ip st t.states v.unique;
  states = λ j. ground (arith, v.states j, lookup-insert Addr-discrete ip j st t.states);
}

pub new_tracker-Inv : (p : Policy) → InRange p → Inv (new_tracker p)
unfolding new_tracker lookup
new_tracker-Inv p r = record {
  normal = normalized-IsNormal p r;
  unique = tt;
  states = λ j. empty-StateOk (normalized p) (normalized-IsNormal p r);
}

pub observe-Inv :
    (t : Tracker) (ip : Addr) (user : String) (now : ℕ)
    → 0 < now
    → Inv t
    → Inv (observe ip user now t).0
unfolding observe
observe-Inv t ip user now h v =
    insert-Inv t ip _ v
      (observe_state-StateOk t.policy ip user now (state_of ip t) v.normal h (v.states ip))

import_ban-Inv : (t : Tracker) (ip : Addr) (until : ℕ) → Inv t → Inv (import_ban ip until t)
unfolding import_ban
import_ban-Inv t ip until v = insert-Inv t ip _ v (ground (arith, v.states ip))

unban-Inv : (t : Tracker) (ip : Addr) → Inv t → Inv (unban ip t).0
unfolding unban
unban-Inv t ip v = record {
  normal = v.normal;
  unique = delete-UniqueKeys Addr-discrete ip t.states v.unique;
  states = λ j. ground (
    arith,
    v.states j,
    lookup-delete Addr-discrete ip j t.states,
    empty-StateOk t.policy v.normal,
  );
}

pub prune-Inv : (t : Tracker) (now : ℕ) → Inv t → Inv (prune now t).0
unfolding prune
prune-Inv t now v = record {
  normal = v.normal;
  unique = update_all-UniqueKeys Addr-discrete (prune_state t.policy now) t.states v.unique;
  states = λ j. elim (Option-cases (lookup Addr-discrete j t.states)) [
    | inl e ↦
        rw (lookup-update_all Addr-discrete (prune_state t.policy now) j t.states v.unique, e)
          (empty-StateOk t.policy v.normal)
    | inr (st, e) ↦
        rw (lookup-update_all Addr-discrete (prune_state t.policy now) j t.states v.unique, e)
          (prune_state-StateOk t.policy now st v.normal (rw e at (v.states j)))
  ];
}

-- The calls that change a tracker and leave its policy.
pub data Call : Type 0 where
  observes : Addr → String → ℕ → Call
  imports : Addr → ℕ → Call
  unbans : Addr → Call
  prunes : ℕ → Call

unfoldable pub step : Tracker → Call → Tracker
step t (observes ip user now) = (observe ip user now t).0
step t (imports ip until) = import_ban ip until t
step t (unbans ip) = (unban ip t).0
step t (prunes now) = (prune now t).0

unfoldable pub run : Tracker → List Call → Tracker
run t [] = t
run t (c ∷ cs) = run (step t c) cs

-- Failures come at times after the zero time.
abbrev pub IsDated : List Call → Type 0
IsDated [] = Unit
IsDated (observes ip user now ∷ cs) = (0 < now) × IsDated cs
IsDated (c ∷ cs) = IsDated cs

run-Inv : (t : Tracker) (cs : List Call) → IsDated cs → Inv t → Inv (run t cs)
unfolding run step
run-Inv t [] d v = v
run-Inv t (observes ip user now ∷ cs) d v =
    run-Inv (observe ip user now t).0 cs d.1 (observe-Inv t ip user now d.0 v)
run-Inv t (imports ip until ∷ cs) d v =
    run-Inv (import_ban ip until t) cs d (import_ban-Inv t ip until v)
run-Inv t (unbans ip ∷ cs) d v = run-Inv (unban ip t).0 cs d (unban-Inv t ip v)
run-Inv t (prunes now ∷ cs) d v = run-Inv (prune now t).0 cs d (prune-Inv t now v)

-- After any failures, imports, unbans and prunings on a new tracker, under the policy that it was made with, that
-- policy is normal, each address has one state, it holds fewer
-- failures than lead to a ban, and an address with bans has the time of its last ban.
pub run-new_tracker-Inv :
    (p : Policy) (cs : List Call) → InRange p → IsDated cs → Inv (run (new_tracker p) cs)
run-new_tracker-Inv p cs r d = run-Inv (new_tracker p) cs d (new_tracker-Inv p r)
