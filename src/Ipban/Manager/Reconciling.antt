-- ===== src/Ipban/Manager/Reconciling.antt =====
-- The bans after the allowlist or the local addresses changed (reconcileProtected).
use server_monitor.Common.{
  ℕ, ◌≡◌, ap, ◌∙◌, arith, Bool, true, false, not, ◌&&◌, List, [], ◌∷◌, is_some, ite, if◌then◌else◌,
}
use server_monitor.Common.Assoc.{lookup-delete}
use server_monitor.Netip.{Addr, Addr-discrete}
use server_monitor.Ipban.Guard.{Guard, protected}
use server_monitor.Ipban.Tracker.{Ban, Tracker, active_bans, banned, unban}
use server_monitor.Ipban.Tracker.Invariant.{Inv}
use server_monitor.Ipban.Tracker.Listing.{find_ban, active_bans_exact}
use server_monitor.Ipban.Manager.{Env, Manager, Call, remove_local, current_enforcer}
use server_monitor.Ipban.Manager.Enforcement.{reconcile_one, reconcile_bans, reconcile_protected}
use server_monitor.Ipban.Manager.Unbans.{RemovalsSucceed}

banned-unban :
    (t : Tracker) (ip j : Addr) (now : ℕ)
    → banned j now (unban ip t).0 ≡ ite (Addr-discrete ip j) false (banned j now t)
unfolding banned unban
banned-unban t ip j now = ground (arith, lookup-delete Addr-discrete ip j t.states)

reconcile_one-banned :
    (env : Env) (live : Bool) (ban : Ban) (m : Manager) (ip : Addr) (now : ℕ)
    → RemovalsSucceed env
    → let r = reconcile_one env live ban m in
      (r.1 ≡ true)
      × (r.0.guard ≡ m.guard)
      × (banned ip now r.0.tracker ≡ (
          if is_some (protected m.guard ban.ip)
          then ite (Addr-discrete ban.ip ip) false (banned ip now m.tracker)
          else banned ip now m.tracker))
unfolding reconcile_one
reconcile_one-banned env live ban m ip now ok =
    ground (arith, ok m.calls ban.ip, banned-unban m.tracker ban.ip ip now)

reconcile_bans-banned :
    (env : Env) (live : Bool) (bans : List Ban) (m : Manager) (ip : Addr) (now : ℕ)
    → RemovalsSucceed env
    → banned ip now (reconcile_bans env live bans m).tracker ≡ (
        banned ip now m.tracker
        && not (is_some (find_ban ip bans) && is_some (protected m.guard ip)))
unfolding reconcile_bans
reconcile_bans-banned env live [] m ip now ok = ground arith
reconcile_bans-banned env live (ban ∷ bans) m ip now ok =
    let r = reconcile_one env live ban m in
    let f = reconcile_one-banned env live ban m ip now ok in
    rw f.0 (
      reconcile_bans-banned env live bans r.0 ip now ok
      ∙ ap
          (λ g.
            banned ip now r.0.tracker
            && not (is_some (find_ban ip bans) && is_some (protected g ip)))
          f.1
      ∙ ap (λ b. b && not (is_some (find_ban ip bans) && is_some (protected m.guard ip))) f.2
      ∙ ground arith)

-- The removals of the protected addresses among some bans, before which there were `calls`.
unfoldable pub removals : Guard → List Ban → List Call → List Call
removals g [] calls = calls
removals g (ban ∷ bans) calls =
    removals g bans (if is_some (protected g ban.ip) then remove_local ban.ip ∷ calls else calls)

reconcile_one-calls :
    (env : Env) (live : Bool) (ban : Ban) (m : Manager)
    → RemovalsSucceed env
    → let r = reconcile_one env live ban m in
      r.0.calls ≡ (
        if live && is_some (protected m.guard ban.ip)
        then remove_local ban.ip ∷ m.calls
        else m.calls)
unfolding reconcile_one
reconcile_one-calls env live ban m ok = ground (arith, ok m.calls ban.ip)

reconcile_bans-calls :
    (env : Env) (live : Bool) (bans : List Ban) (m : Manager)
    → RemovalsSucceed env
    → (reconcile_bans env live bans m).calls
      ≡ (if live then removals m.guard bans m.calls else m.calls)
unfolding reconcile_bans removals
reconcile_bans-calls env live [] m ok = ground arith
reconcile_bans-calls env live (ban ∷ bans) m ok =
    let r = reconcile_one env live ban m in
    let f = reconcile_one-banned env live ban m ban.ip 0 ok in
    rw f.0 (
      reconcile_bans-calls env live bans r.0 ok
      ∙ ap (λ g. if live then removals g bans r.0.calls else r.0.calls) f.1
      ∙ ap (λ calls. if live then removals m.guard bans calls else calls)
          (reconcile_one-calls env live ban m ok)
      ∙ ground arith)

-- The kernel takes every removal, and the tracker satisfies its invariant, which holds while its policy stays. Then
-- reconcileProtected lifts the bans of the protected addresses and leaves all others: afterwards an address is banned
-- exactly if it was and is not protected. While the enforcer works, the kernel is told to remove the addresses of just
-- these bans, and nothing else; otherwise there is no call.
pub reconcile_protected-banned :
    (env : Env) (now : ℕ) (m : Manager) (ip : Addr)
    → RemovalsSucceed env
    → Inv m.tracker
    → (banned ip now (reconcile_protected env now m).tracker
        ≡ (banned ip now m.tracker && not (is_some (protected m.guard ip))))
      × ((reconcile_protected env now m).calls ≡ (
          if current_enforcer m
          then removals m.guard (active_bans now m.tracker) m.calls
          else m.calls))
unfolding reconcile_protected
reconcile_protected-banned env now m ip ok v = (
  ground (
    arith,
    reconcile_bans-banned env (current_enforcer m) (active_bans now m.tracker) m ip now ok,
    (active_bans_exact m.tracker now ip v).1,
  ),
  reconcile_bans-calls env (current_enforcer m) (active_bans now m.tracker) m ok,
)
