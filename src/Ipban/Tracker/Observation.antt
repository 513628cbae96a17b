-- ===== src/Ipban/Tracker/Observation.antt =====
-- When a failure leads to a ban, what the ban says, and what stays as it was.
use Prim.Native.String.{String}
use server_monitor.Common.{
  ℕ, ◌+◌, ◌^◌, ◌≤◌, ◌<◌, ◌≡◌, ◌≢◌, refl, sym, ap, ◌∙◌, arith, false, not, ◌&&◌, ltb, leb, none,
  some, List, [], if◌then◌else◌, ◌∷◌, ◌++◌, is_some, length, length-append, ◌||◌,
}
use server_monitor.Common.Int64.{two63, lt_i64-ltb, time_add-add, time_add}
use server_monitor.Common.Assoc.{
  lookup, lookup-insert, lookup-insert_self, lookup-insert_ne, lookup-delete_self, lookup-delete_ne,
}
use server_monitor.Netip.{Addr, Addr-discrete}
use server_monitor.Ipban.Tracker.{
  Policy, IpState, Ban, Tracker, or_empty, recent_failures, counted_bans, ban_now, ban_duration,
  observe_state, observe, import_ban, unban, banned,
}
use server_monitor.Ipban.Tracker.Invariant.{Inv, state_of, length-recent}
use server_monitor.Ipban.Tracker.Policies.{IsNormal, ban_duration_bounds}

-- How many of the times are less than the window before `now`.
unfoldable pub within : ℕ → ℕ → List ℕ → ℕ
within window now [] = 0
within window now (time ∷ times) =
    if ltb now (time + window) then 1 + within window now times else within window now times

-- The failures of an address inside the window, the new one included.
abbrev pub failure_count : Tracker → Addr → ℕ → ℕ
failure_count t ip now = within t.policy.find_time now (state_of ip t).failures + 1

length-recent_within :
    (p : Policy) (now : ℕ) (times : List ℕ)
    → p.find_time < two63
    → length (recent_failures p now times) ≡ within p.find_time now times
unfolding recent_failures within
length-recent_within p now [] h = refl
length-recent_within p now (time ∷ times) h =
    ground (arith, time_add-add time p.find_time h, length-recent_within p now times h)

banned-state_of :
    (t : Tracker) (ip : Addr) (now : ℕ) → banned ip now t ≡ ltb now (state_of ip t).banned_until
unfolding banned
banned-state_of t ip now = ground arith

observe_state_lem :
    (p : Policy) (ip : Addr) (user : String) (now : ℕ) (st : IpState)
    → IsNormal p
    → length (recent_failures p now st.failures) + 1 < two63
    → is_some (observe_state p ip user now st).1 ≡ (
        not (ltb now st.banned_until)
        && leb p.max_retry (length (recent_failures p now st.failures) + 1))
unfolding observe_state ban_now
observe_state_lem p ip user now st n h = ground (
  arith,
  length-append (recent_failures p now st.failures) (now ∷ []),
  lt_i64-ltb (length (recent_failures p now st.failures ++ now ∷ [])) p.max_retry,
)

-- Between calls, while the policy stays, a failure leads to a ban exactly when its address is not banned at the time and
-- of the failures that are held for it, with the new one, at least `max_retry` are inside the window.
pub observe-bans_iff :
    (t : Tracker) (ip : Addr) (user : String) (now : ℕ)
    → Inv t
    → is_some (observe ip user now t).1
      ≡ (not (banned ip now t) && leb t.policy.max_retry (failure_count t ip now))
unfolding observe
observe-bans_iff t ip user now v =
    let o = v.states ip in
    observe_state_lem t.policy ip user now (state_of ip t) v.normal (
      omega (
        arith,
        o.below,
        v.normal.max_retry_lt,
        length-recent t.policy now (state_of ip t).failures,
      ))
    ∙ ap
        (λ b.
          not b
          && leb t.policy.max_retry
              (length (recent_failures t.policy now (state_of ip t).failures) + 1))
        (sym (banned-state_of t ip now))
    ∙ ap (λ n. not (banned ip now t) && leb t.policy.max_retry (n + 1))
        (length-recent_within t.policy now (state_of ip t).failures v.normal.find_time_lt)

-- What a ban says, and the tracker that it leaves.
pub record BanFacts (t t' : Tracker) (ip : Addr) (now : ℕ) (b : Ban) : Type 0 where
  pub address : b.ip ≡ ip
  pub end : b.until ≡ now + ban_duration t.policy (counted_bans now (state_of ip t))
  pub failures : b.failures ≡ failure_count t ip now
  pub count : b.count ≡ counted_bans now (state_of ip t) + 1
  pub reset : (state_of ip t').failures ≡ []
  pub in_force : (later : ℕ) → banned ip later t' ≡ ltb later b.until

state_of-observe :
    (t : Tracker) (ip : Addr) (user : String) (now : ℕ)
    → state_of ip (observe ip user now t).0 ≡ (observe_state t.policy ip user now (state_of ip t)).0
unfolding observe
state_of-observe t ip user now = ground (
  arith,
  lookup-insert Addr-discrete ip ip (observe_state t.policy ip user now (state_of ip t)).0 t.states,
)

observe_state-ban :
    (p : Policy) (ip : Addr) (user : String) (now : ℕ) (st : IpState) (b : Ban)
    → (observe_state p ip user now st).1 ≡ some b
    → let st' = (observe_state p ip user now st).0 in
      (b.ip ≡ ip)
      × (b.until ≡ time_add now (ban_duration p (counted_bans now st)))
      × (b.failures ≡ length (recent_failures p now st.failures ++ (now ∷ [])))
      × (b.count ≡ counted_bans now st + 1)
      × (st'.failures ≡ [])
      × (st'.banned_until ≡ b.until)
unfolding observe_state ban_now counted_bans
observe_state-ban p ip user now st b e = ground arith

-- A ban that a failure leads to names the address, ends after the duration that the earlier bans call for,
-- counts the failures and one ban more, starts the count of failures anew, and is in force exactly until its
-- end. The policy is normal, with a maximum of at most 2 ^ 62 ns.
pub observe-BanFacts :
    (t : Tracker) (ip : Addr) (user : String) (now : ℕ) (b : Ban)
    → IsNormal t.policy
    → t.policy.ban_time_max ≤ 2 ^ 62
    → (observe ip user now t).1 ≡ some b
    → BanFacts t (observe ip user now t).0 ip now b
unfolding observe
observe-BanFacts t ip user now b n h e =
    let f = observe_state-ban t.policy ip user now (state_of ip t) b e in
    let d = ban_duration_bounds t.policy (counted_bans now (state_of ip t)) n h in
    let s = state_of-observe t ip user now in
    record {
      address = f.0;
      end = f.1 ∙ time_add-add now _ (omega arith);
      failures =
          f.2
          ∙ length-append (recent_failures t.policy now (state_of ip t).failures) (now ∷ [])
          ∙ ap (λ k. k + 1)
              (length-recent_within t.policy now (state_of ip t).failures n.find_time_lt);
      count = f.3;
      reset = ap (λ (st : IpState). st.failures) s ∙ f.4;
      in_force = λ later.
          banned-state_of (observe ip user now t).0 ip later
          ∙ ap (λ (st : IpState). ltb later st.banned_until) s
          ∙ ap (ltb later) f.5;
    }

-- A call for one address leaves every other address as it was.
pub calls_frame :
    (t : Tracker) (ip j : Addr) (user : String) (now until : ℕ)
    → ip ≢ j
    → (lookup Addr-discrete j (observe ip user now t).0.states ≡ lookup Addr-discrete j t.states)
      × (lookup Addr-discrete j (import_ban ip until t).states ≡ lookup Addr-discrete j t.states)
      × (lookup Addr-discrete j (unban ip t).0.states ≡ lookup Addr-discrete j t.states)
unfolding observe import_ban unban
calls_frame t ip j user now until ne = (
  lookup-insert_ne Addr-discrete ip j _ t.states ne,
  lookup-insert_ne Addr-discrete ip j _ t.states ne,
  lookup-delete_ne Addr-discrete ip j t.states ne,
)

-- An imported ban extends the one at hand and never shortens it; after Unban the address is not banned
-- at any time, and is treated as one that was never seen.
pub import-unban :
    (t : Tracker) (ip : Addr) (until later : ℕ)
    → (banned ip later (import_ban ip until t) ≡ (banned ip later t || ltb later until))
      × (banned ip later (unban ip t).0 ≡ false)
      × (state_of ip (unban ip t).0 ≡ or_empty none)
unfolding import_ban unban banned
import-unban t ip until later = (
  rw (lookup-insert_self Addr-discrete ip) (ground arith),
  rw (lookup-delete_self Addr-discrete ip),
  rw (lookup-delete_self Addr-discrete ip),
)
