-- ===== src/Ipban/Manager/Fleet.antt =====
-- What applyFleet and handleFailure ask of the kernel.
use server_monitor.Common.{
  ℕ, ◌-◌, ◌≤◌, ◌<◌, ◌≡◌, ◌⊎◌, refl, inl, inr, arith, true, false, ◌&&◌, Option, none, some, List,
  [], ◌∷◌, length, All, Option-cases, Bool-cases,
}
use server_monitor.Ipban.Guard.{Guard, protected, is_routable}
use server_monitor.Ipban.Tracker.{Ban, observe, active_bans}
use server_monitor.Ipban.Manager.{
  Env, Manager, add_local, WireFleetEntry, FleetEntry, current_enforcer, want_enforce, push_event,
  max_fleet_entries, max_local_entries, EnforceState,
}
use server_monitor.Ipban.Manager.Enforcement.{fleet_entry, fleet_list, fleet_request}
use server_monitor.Ipban.Manager.Handling.{
  Failure, handle_failure, handle_ban, enforce_ban, is_stale,
}

abbrev pub or_state : EnforceState → Option EnforceState → EnforceState
or_state s none = s
or_state s (some kind) = kind

-- An entry that may go to the kernel: the address is routable and not protected, and time is left.
abbrev pub Admissible : Guard → FleetEntry → Type 0
Admissible g e = (is_routable e.ip ≡ true) × (protected g e.ip ≡ none) × (0 < e.timeout)

fleet_entry-Admissible :
    (env : Env) (now : ℕ) (m : Manager) (entry : WireFleetEntry) (e : FleetEntry)
    → fleet_entry env now m entry ≡ some e
    → Admissible m.guard e
unfolding fleet_entry
fleet_entry-Admissible env now m entry e h = ground arith

fleet_list-Admissible :
    (env : Env) (now : ℕ) (m : Manager) (room : ℕ) (entries : List WireFleetEntry)
    → (length (fleet_list env now m room entries) ≤ room)
      × All (Admissible m.guard) (fleet_list env now m room entries)
unfolding fleet_list
fleet_list-Admissible env now m room [] = (omega arith, tt)
fleet_list-Admissible env now m room (entry ∷ entries) =
    elim (Option-cases (fleet_entry env now m entry)) [
      | inl e ↦ rw e (ground (arith, fleet_list-Admissible env now m room entries))
      | inr (f, e) ↦ rw e (
          ground (
            arith,
            fleet_list-Admissible env now m (room - 1) entries,
            fleet_entry-Admissible env now m entry f e,
          ))
    ]

-- The request of applyFleet has at most 50000 entries, all routable, unprotected and not expired, and is
-- empty unless the policy enforces and applies the fleet's list.
pub fleet_request-Admissible :
    (env : Env) (now : ℕ) (entries : List WireFleetEntry) (m : Manager)
    → (length (fleet_request env now entries m) ≤ max_fleet_entries)
      × All (Admissible m.guard) (fleet_request env now entries m)
      × (((want_enforce m && m.policy.apply_fleet) ≡ true) ⊎ (fleet_request env now entries m ≡ []))
unfolding fleet_request
fleet_request-Admissible env now entries m =
    elim (Bool-cases (want_enforce m && m.policy.apply_fleet)) [
      | inl want ↦
          let l = fleet_list-Admissible env now m max_fleet_entries entries in
          rw want (l.0, l.1, inl refl)
      | inr off ↦ rw off (omega arith, tt, inr refl)
    ]

-- The one call that a failure may lead to.
pub record BanCall (now : ℕ) (f : Failure) (m m' : Manager) (b : Ban) : Type 0 where
  pub banned : (observe f.ip f.user now m.tracker).1 ≡ some b
  pub call : m'.calls ≡ add_local b.ip (b.until - now) ∷ m.calls
  pub unprotected : protected m.guard f.ip ≡ none
  pub wanted : want_enforce m ≡ true
  pub working : current_enforcer m ≡ true
  pub room : length (active_bans now (observe f.ip f.user now m.tracker).0) ≤ max_local_entries
  pub fresh : is_stale m now f ≡ false

-- A failure makes no call of the enforcer, or one: it adds the address of the new ban until the ban's end,
-- and happens only if the failure is not stale, its address is not protected, the policy enforces, the
-- enforcer works and at most 10000 bans are active.
pub handle_failure-BanCall :
    (env : Env) (now : ℕ) (f : Failure) (m : Manager)
    → ((handle_failure env now f m).calls ≡ m.calls)
      ⊎ ((b : Ban) × BanCall now f m (handle_failure env now f m) b)
handle_failure-BanCall env now f m = elim (Option-cases (observe f.ip f.user now m.tracker).1) [
  | inl e ↦ inl (unfold handle_failure in ground arith)
  | inr (b, e) ↦ unfold handle_failure handle_ban enforce_ban push_event in ground arith
]
