-- ===== src/Settings/Bounds.antt =====
-- What validated settings promise to the agents.
use Prim.Native.String.{String}
use mathlib.Core.Path.{subst}
use server_monitor.Common.{
  sym, inl, inr, Option-cases, ◌+◌, ◌^◌, ◌≤◌, ◌<◌, ◌≡◌, arith, true, none, List, [], ◌∷◌, length,
}
use server_monitor.Common.Int64.{two64}
use server_monitor.Ipban.Tracker.{Policy, normalized}
use server_monitor.Ipban.Tracker.Policies.{IsNormal, normalized_of_IsNormal}
use server_monitor.Ipban.Manager.Handling.{tracker_policy}
use server_monitor.Settings.{
  Text, Settings, HostPolicy, validate, first_invalid, normalize_allowlist, normalize_loop,
  reversed, wire_policy,
}

-- The fields of a policy are int64 patterns.
pub record IsPattern (st : Settings) : Type 0 where
  pub max_retry : st.max_retry < two64
  pub find_time_s : st.find_time_s < two64
  pub ban_time_s : st.ban_time_s < two64
  pub ban_time_max_s : st.ban_time_max_s < two64

record Bounded (st : Settings) : Type 0 where
  max_retry_pos : 1 ≤ st.max_retry
  max_retry_le : st.max_retry ≤ 100
  find_time_pos : 60 ≤ st.find_time_s
  find_time_le : st.find_time_s ≤ 86400
  ban_time_pos : 60 ≤ st.ban_time_s
  ban_time_le : st.ban_time_s ≤ st.ban_time_max_s
  ban_time_max_le : st.ban_time_max_s ≤ 31536000

first_invalid-Bounded :
    (text : Text) (st : Settings) → IsPattern st → first_invalid text st ≡ none → Bounded st
unfolding first_invalid
first_invalid-Bounded text st p h =
    ground (arith, p.max_retry, p.find_time_s, p.ban_time_s, p.ban_time_max_s)

-- What the agent's tracker makes of a policy: it takes it as it is, and no doubling of its ban times can wrap.
pub record Accepted (p : Policy) : Type 0 where
  pub normal : IsNormal p
  pub unchanged : normalized p ≡ p
  pub room : p.ban_time_max ≤ 2 ^ 62

wire_policy-IsNormal :
    (text : Text) (st : Settings) (host : HostPolicy)
    → Bounded st
    → IsNormal (tracker_policy (wire_policy text st host))
      × ((tracker_policy (wire_policy text st host)).ban_time_max ≤ 2 ^ 62)
unfolding wire_policy
wire_policy-IsNormal text st host b = ground (
  arith, b.max_retry_pos, b.max_retry_le, b.find_time_pos, b.find_time_le, b.ban_time_pos,
  b.ban_time_le, b.ban_time_max_le,
)

validate-first_invalid :
    (text : Text) (st : Settings) → (validate text st).1 ≡ none → first_invalid text st ≡ none
unfolding validate
validate-first_invalid text st h = ground arith

validate-result :
    (text : Text) (st : Settings)
    → (validate text st).1 ≡ none
    → (validate text st).0 ≡ record st { allowlist = (normalize_allowlist text st.allowlist).0 }
unfolding validate
validate-result text st h = ground arith

-- The integers of the settings are int64 patterns. Where validation accepts settings, the policy that an agent gets
-- of any host is one that its tracker takes unchanged, and under which no doubling of the ban time wraps.
pub validate-Accepted :
    (text : Text) (st : Settings) (host : HostPolicy)
    → IsPattern st
    → (validate text st).1 ≡ none
    → Accepted (tracker_policy (wire_policy text (validate text st).0 host))
unfolding wire_policy
validate-Accepted text st host p h =
    let e = validate-first_invalid text st h in
    let b = first_invalid-Bounded text st p e in
    let n = wire_policy-IsNormal text st host b in
    let accepted : Accepted (tracker_policy (wire_policy text st host)) = record {
      normal = n.0;
      unchanged = normalized_of_IsNormal (tracker_policy (wire_policy text st host)) n.0;
      room = n.1;
    } in
    subst (λ s. Accepted (tracker_policy (wire_policy text s host)))
      (sym (validate-result text st h)) accepted

length-reversed : (xs out : List String) → length (reversed xs out) ≡ length xs + length out
length-reversed [] out = omega arith
length-reversed (x ∷ xs) out = omega (arith, length-reversed xs (x ∷ out))

length-normalize_allowlist :
    (text : Text) (es : List String) → (length (normalize_allowlist text es).0 ≤ 1000)
unfolding normalize_allowlist
length-normalize_allowlist text es = elim (Option-cases (normalize_loop text [] es)) [
  | inl e ↦ ground (arith, e)
  | inr (out, e) ↦ ground (arith, e, length-reversed out [])
]

-- Settings that validation accepts with enforcement on have an allowlist, of at most 1000 entries.
pub validate-allowlist :
    (text : Text) (st : Settings)
    → (validate text st).1 ≡ none
    → (validate text st).0.enforce ≡ true
    → (1 ≤ length (validate text st).0.allowlist) × (length (validate text st).0.allowlist ≤ 1000)
unfolding validate
validate-allowlist text st h on = ground (arith, length-normalize_allowlist text st.allowlist)
