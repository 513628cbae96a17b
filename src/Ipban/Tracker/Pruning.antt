-- ===== src/Ipban/Tracker/Pruning.antt =====
-- The verdicts of a tracker with and without Prune.
use Prim.Native.String.{String}
use mathlib.Core.Path.{ap₂, subst}
use server_monitor.Common.{
  ℕ, ◌≤◌, ◌<◌, ◌≡◌, refl, sym, ap, ◌∙◌, inl, inr, arith, false, ltb, any, Option, none, some, List,
  [], ◌∷◌, Option-cases, ite,
}
use server_monitor.Common.Int64.{time_add}
use server_monitor.Common.Assoc.{lookup, lookup-insert}
use server_monitor.Common.Assoc.Laws.{lookup-update_all}
use server_monitor.Netip.{Addr, Addr-discrete}
use server_monitor.Ipban.Tracker.{
  Policy, IpState, Ban, Tracker, or_empty, recent_failures, counted_bans, ban_now, observe_state,
  observe, prune_state, prune,
}
use server_monitor.Ipban.Tracker.Invariant.{Inv, StateOk, state_of}

-- What a ban decides: all but the user name that it reports, which a forgotten address loses.
abbrev pub verdict : Option Ban → Option (ℕ × ℕ × ℕ)
verdict none = none
verdict (some b) = some (b.until, b.failures, b.count)

-- Two states that no call from time `now` on can tell apart.
record Same (p : Policy) (now : ℕ) (a b : IpState) : Type 0 where
  recent : recent_failures p now a.failures ≡ recent_failures p now b.failures
  bans : counted_bans now a ≡ counted_bans now b
  dates : 0 < counted_bans now a → a.last_ban ≡ b.last_ban
  in_force : ltb now a.banned_until ≡ ltb now b.banned_until
  until : now < a.banned_until → a.banned_until ≡ b.banned_until

-- A later window keeps a part of an earlier one.
recent-recent :
    (p : Policy) (now later : ℕ) (fs : List ℕ)
    → now ≤ later
    → recent_failures p later (recent_failures p now fs) ≡ recent_failures p later fs
unfolding recent_failures
recent-recent p now later [] h = refl
recent-recent p now later (f ∷ fs) h = ground (arith, recent-recent p now later fs h)

Same-later :
    (p : Policy) (now later : ℕ) (a b : IpState) → now ≤ later → Same p now a b → Same p later a b
unfolding counted_bans
Same-later p now later a b h s = record {
  recent =
      sym (recent-recent p now later a.failures h)
      ∙ ap (recent_failures p later) s.recent
      ∙ recent-recent p now later b.failures h;
  bans = ground arith;
  dates = ground arith;
  in_force = ground arith;
  until = ground arith;
}

observe_state-Same :
    (p : Policy) (ip : Addr) (user : String) (now : ℕ) (a b : IpState)
    → Same p now a b
    → (verdict (observe_state p ip user now a).1 ≡ verdict (observe_state p ip user now b).1)
      × Same p now (observe_state p ip user now a).0 (observe_state p ip user now b).0
unfolding observe_state ban_now counted_bans
observe_state-Same p ip user now a b s = ground arith

recent_none :
    (p : Policy) (now : ℕ) (fs : List ℕ)
    → any (λ f. ltb now (time_add f p.find_time)) fs ≡ false
    → recent_failures p now fs ≡ []
unfolding recent_failures
recent_none p now [] h = refl
recent_none p now (f ∷ fs) h = ground (arith, recent_none p now fs)

recent_nil : (p : Policy) (now : ℕ) → recent_failures p now [] ≡ []
unfolding recent_failures
recent_nil p now = refl

prune_state-Same :
    (p : Policy) (now : ℕ) (st : IpState)
    → StateOk p st
    → Same p now (or_empty (prune_state p now st)) st
unfolding prune_state counted_bans
prune_state-Same p now st o = ground (arith, recent_none p now st.failures, recent_nil p now)

Same-refl : (p : Policy) (now : ℕ) (a : IpState) → Same p now a a
Same-refl p now a = record {
  recent = refl;
  bans = refl;
  dates = λ _. refl;
  in_force = refl;
  until = λ _. refl;
}

-- Two trackers under one policy whose states no later call can tell apart.
record SameTracker (now : ℕ) (t u : Tracker) : Type 0 where
  policy : t.policy ≡ u.policy
  states : (ip : Addr) → Same t.policy now (state_of ip t) (state_of ip u)

prune-SameTracker : (t : Tracker) (now : ℕ) → Inv t → SameTracker now (prune now t).0 t
unfolding prune
prune-SameTracker t now v = record {
  policy = refl;
  states = λ ip. elim (Option-cases (lookup Addr-discrete ip t.states)) [
    | inl e ↦
        rw (lookup-update_all Addr-discrete (prune_state t.policy now) ip t.states v.unique, e)
          (Same-refl t.policy now (or_empty none))
    | inr (st, e) ↦
        rw (lookup-update_all Addr-discrete (prune_state t.policy now) ip t.states v.unique, e)
          (prune_state-Same t.policy now st (rw e at (v.states ip)))
  ];
}

state_of-observe :
    (t : Tracker) (ip j : Addr) (user : String) (now : ℕ)
    → state_of j (observe ip user now t).0
      ≡ ite
          (Addr-discrete ip j)
          (observe_state t.policy ip user now (state_of ip t)).0
          (state_of j t)
unfolding observe
state_of-observe t ip j user now = ground (
  arith,
  lookup-insert Addr-discrete ip j (observe_state t.policy ip user now (state_of ip t)).0 t.states,
)

ite-Same :
    (p : Policy) (now : ℕ) {P : Type 0} (d : Dec P) {a b a' b' : IpState}
    → Same p now a b
    → Same p now a' b'
    → Same p now (ite d a a') (ite d b b')
ite-Same p now (yes _) s s' = s
ite-Same p now (no _) s s' = s'

observe-SameTracker :
    (t u : Tracker) (ip : Addr) (user : String) (now later : ℕ)
    → now ≤ later
    → SameTracker now t u
    → (verdict (observe ip user later t).1 ≡ verdict (observe ip user later u).1)
      × SameTracker later (observe ip user later t).0 (observe ip user later u).0
unfolding observe observe_state
observe-SameTracker t u ip user now later h s =
    let p = t.policy in
    let o =
      observe_state-Same p ip user later (state_of ip t) (state_of ip u)
        (Same-later p now later _ _ h (s.states ip)) in
    (
      o.0 ∙ ap (λ q. verdict (observe_state q ip user later (state_of ip u)).1) s.policy,
      record {
        policy = s.policy;
        states = λ j.
            simp (state_of-observe t ip j user later, state_of-observe u ip j user later)
              (subst
                (λ q.
                  Same p later
                    (ite (Addr-discrete ip j) (observe_state p ip user later (state_of ip t)).0
                      (state_of j t))
                    (ite (Addr-discrete ip j) (observe_state q ip user later (state_of ip u)).0
                      (state_of j u)))
                s.policy
                (ite-Same p later (Addr-discrete ip j) o.1
                  (Same-later p now later _ _ h (s.states j))));
      },
    )

-- The failures that a tracker is shown, each with its address, its user and its time, and the verdicts.
pub verdicts : List (Addr × String × ℕ) → Tracker → List (Option (ℕ × ℕ × ℕ))
verdicts [] t = []
verdicts ((ip, user, at) ∷ fs) t =
    verdict (observe ip user at t).1 ∷ verdicts fs (observe ip user at t).0

-- The times do not go back, from `now` on.
abbrev pub IsTimely : ℕ → List (Addr × String × ℕ) → Type 0
IsTimely now [] = Unit
IsTimely now ((ip, user, at) ∷ fs) = (now ≤ at) × IsTimely at fs

verdicts-SameTracker :
    (fs : List (Addr × String × ℕ)) (now : ℕ) (t u : Tracker)
    → IsTimely now fs
    → SameTracker now t u
    → verdicts fs t ≡ verdicts fs u
unfolding verdicts
verdicts-SameTracker [] now t u h s = refl
verdicts-SameTracker ((ip, user, at) ∷ fs) now t u h s =
    let r = observe-SameTracker t u ip user now at h.0 s in
    ap₂ ◌∷◌ r.0 (verdicts-SameTracker fs at _ _ h.1 r.1)

-- Whatever failures come at or after the time of a Prune, the pruned tracker gives the same verdicts as
-- the tracker that forgot nothing: the same bans, with the same ends, failures and counts.
pub verdicts-prune :
    (t : Tracker) (now : ℕ) (fs : List (Addr × String × ℕ))
    → Inv t
    → IsTimely now fs
    → verdicts fs (prune now t).0 ≡ verdicts fs t
verdicts-prune t now fs v h =
    verdicts-SameTracker fs now (prune now t).0 t h (prune-SameTracker t now v)
