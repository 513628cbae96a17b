-- ===== src/Ipban/Manager/Disabling.antt =====
-- What apply does to the kernel under a policy that does not enforce.
use mathlib.Core.List.{Memᴰ, append_assoc}
use server_monitor.Common.{
  ℕ, ◌≡◌, ◌⊎◌, refl, sym, ap, ◌∙◌, inl, inr, arith, Bool, true, false, not, ◌&&◌, ◌==◌, List, [],
  ◌∷◌, ◌++◌, length, All, if◌then◌else◌, Option-cases,
}
use server_monitor.Netip.{Addr, unmap}
use server_monitor.Ipban.Guard.{set_local}
use server_monitor.Ipban.Tracker.{Ban, active_bans}
use server_monitor.Ipban.Manager.{
  Call, add_local, remove_local, flush_local, replace_fleet, create, setup, close, Env, Manager,
  call, current_enforcer, want_enforce, WireConfig, WireFleetEntry, WireUnban, push_event,
}
use server_monitor.Ipban.Manager.Enforcement.{
  fleet_request, apply_fleet, finish_unban, unban_one, unban_entry, unban_loop, apply_unbans,
  reconcile_one, reconcile_bans, reconcile_protected, refresh_local_addrs, disable_enforcement,
}
use server_monitor.Ipban.Manager.Handling.{install_policy, switch_enforcement, apply}
use server_monitor.Ipban.Manager.Safety.{read_allowlist}

-- A call that bans no address in the kernel.
abbrev pub lifts : Call → Bool
lifts (remove_local ip) = true
lifts flush_local = true
lifts (replace_fleet []) = true
lifts (replace_fleet (e ∷ es)) = false
lifts (add_local ip timeout) = false
lifts create = false
lifts setup = false
lifts close = false

-- From one manager to another there are only such calls, and the policy stays.
abbrev Quiet : Manager → Manager → Type 0
Quiet m m' =
    (m'.policy ≡ m.policy)
    × (new : List Call) × (m'.calls ≡ new ++ m.calls)
    × All (λ c. lifts c ≡ true) new

All-append {ℓ κ} :
    {A : Type ℓ} (P : A → Type κ) (xs ys : List A) → All P xs → All P ys → All P (xs ++ ys)
All-append P [] ys hx hy = hy
All-append P (x ∷ xs) ys hx hy = (hx.0, All-append P xs ys hx.1 hy)

Quiet-refl : (m : Manager) → Quiet m m
Quiet-refl m = (refl, [], refl, tt)

Quiet-trans : (a b c : Manager) → Quiet a b → Quiet b c → Quiet a c
Quiet-trans a b c (p, xs, e, h) (q, ys, f, k) = (
  q ∙ p,
  ys ++ xs,
  f ∙ ap (λ l. ys ++ l) e ∙ sym (append_assoc ys xs a.calls),
  All-append (λ x. lifts x ≡ true) ys xs k h,
)

Quiet_step :
    (c : Call) (m m' : Manager)
    → lifts c ≡ true
    → (m'.policy ≡ m.policy) × ((m'.calls ≡ m.calls) ⊎ (m'.calls ≡ c ∷ m.calls))
    → Quiet m m'
Quiet_step c m m' l (p, inl e) = (p, [], e, tt)
Quiet_step c m m' l (p, inr e) = (p, c ∷ [], e, (l, tt))

module _ (env : Env) where
  reconcile_one-Quiet :
      (live : Bool) (ban : Ban) (m : Manager) → Quiet m (reconcile_one env live ban m).0
  unfolding reconcile_one
  reconcile_one-Quiet live ban m =
      Quiet_step (remove_local ban.ip) m (reconcile_one env live ban m).0 refl (ground arith)

  reconcile_bans-Quiet :
      (live : Bool) (bans : List Ban) (m : Manager) → Quiet m (reconcile_bans env live bans m)
  unfolding reconcile_bans
  reconcile_bans-Quiet live [] m = Quiet-refl m
  reconcile_bans-Quiet live (ban ∷ bans) m =
      let r = reconcile_one env live ban m in
      let here = reconcile_one-Quiet live ban m in
      elim r.1 as (λ b. Quiet m (if◌then◌else◌ b (reconcile_bans env live bans r.0) r.0)) [
        | true ↦
            Quiet-trans m r.0 (reconcile_bans env live bans r.0) here
              (reconcile_bans-Quiet live bans r.0)
        | false ↦ here
      ]

  fleet_request_off :
      (now : ℕ) (entries : List WireFleetEntry) (m : Manager)
      → m.policy.enforce ≡ false
      → fleet_request env now entries m ≡ []
  unfolding fleet_request
  fleet_request_off now entries m h = ground (arith, h)

  apply_fleet-Quiet :
      (now : ℕ) (entries : List WireFleetEntry) (m : Manager)
      → m.policy.enforce ≡ false
      → Quiet m (apply_fleet env now entries m)
  unfolding apply_fleet
  apply_fleet-Quiet now entries m h =
      Quiet_step (replace_fleet []) m (apply_fleet env now entries m) refl
        (ground (arith, fleet_request_off now entries m h))

  finish_unban_same :
      (now : ℕ) (ip : Addr) (at : ℕ) (m : Manager)
      → ((finish_unban env now ip at m).policy ≡ m.policy)
        × ((finish_unban env now ip at m).calls ≡ m.calls)
  unfolding finish_unban push_event
  finish_unban_same now ip at m = ground arith

  unban_entry-Quiet :
      (now : ℕ) (want live : Bool) (u : WireUnban) (m : Manager)
      → Quiet m (unban_entry env now want live u m).0
  unfolding unban_entry unban_one
  unban_entry-Quiet now want live u m = elim (Option-cases (env.parse_addr u.ip)) [
    | inl e ↦ rw (e, unban_entry) (Quiet-refl m)
    | inr (parsed, e) ↦
        let ip = unmap parsed in
        rw (e, unban_entry)
          (Quiet_step (remove_local ip) m (unban_one env now want live ip u.at m).0 refl (
            ground (
              arith,
              finish_unban_same now ip u.at (call env (remove_local ip) m).0,
              finish_unban_same now ip u.at m,
            )))
  ]

  unban_loop-Quiet :
      (now : ℕ) (want live : Bool) (us : List WireUnban) (m : Manager)
      → Quiet m (unban_loop env now want live us m)
  unfolding unban_loop
  unban_loop-Quiet now want live [] m = Quiet-refl m
  unban_loop-Quiet now want live (u ∷ us) m =
      let r = unban_entry env now want live u m in
      Quiet-trans m r.0 (unban_loop env now want r.1 us r.0) (unban_entry-Quiet now want live u m)
        (unban_loop-Quiet now want r.1 us r.0)

  refresh-Quiet :
      (now : ℕ) (addrs : List Addr) (m : Manager)
      → m.policy.enforce ≡ false
      → Quiet m (refresh_local_addrs env now addrs m)
  unfolding refresh_local_addrs reconcile_protected set_local
  refresh-Quiet now addrs m h =
      let m₁ = record m { guard = set_local addrs m.guard } in
      let m₂ = reconcile_bans env (current_enforcer m₁) (active_bans now m₁.tracker) m₁ in
      let q = reconcile_bans-Quiet (current_enforcer m₁) (active_bans now m₁.tracker) m₁ in
      Quiet-trans m m₂ (apply_fleet env now m₂.fleet_entries m₂) q
        (apply_fleet-Quiet now m₂.fleet_entries m₂ (ap (λ p. p.enforce) q.0 ∙ h))

  -- The same calls, with the flush among them if the enforcer works.
  abbrev Flushed : Manager → Manager → Type 0
  Flushed m m' =
      (m'.policy ≡ m.policy)
      × (new : List Call) × (m'.calls ≡ new ++ m.calls)
      × All (λ c. lifts c ≡ true) new
      × ((current_enforcer m ≡ false) ⊎ Memᴰ flush_local new)

  Flushed-step :
      (m m' : Manager)
      → (m'.policy ≡ m.policy)
        × (((m'.calls ≡ m.calls) × (current_enforcer m ≡ false))
            ⊎ ((m'.calls ≡ flush_local ∷ m.calls)
                ⊎ (m'.calls ≡ replace_fleet [] ∷ flush_local ∷ m.calls)))
      → Flushed m m'
  Flushed-step m m' (p, inl (e, off)) = (p, [], e, tt, inl off)
  Flushed-step m m' (p, inr (inl e)) = (p, flush_local ∷ [], e, (refl, tt), inr (Memᴰ.head refl))
  Flushed-step m m' (p, inr (inr e)) = (
    p,
    replace_fleet [] ∷ flush_local ∷ [],
    e,
    (refl, (refl, tt)),
    inr (Memᴰ.tail (Memᴰ.head refl)),
  )

  disable-Flushed : (m : Manager) → Flushed m (disable_enforcement env m)
  unfolding disable_enforcement
  disable-Flushed m = Flushed-step m (disable_enforcement env m) (ground arith)

  Memᴰ-append : (c : Call) (xs ys : List Call) → Memᴰ c ys → Memᴰ c (xs ++ ys)
  Memᴰ-append c [] ys h = h
  Memᴰ-append c (x ∷ xs) ys h = Memᴰ.tail (Memᴰ-append c xs ys h)

  Memᴰ-append_left : (c : Call) (xs ys : List Call) → Memᴰ c xs → Memᴰ c (xs ++ ys)
  Memᴰ-append_left c [] ys h = elim h [ ]
  Memᴰ-append_left c (x ∷ xs) ys (Memᴰ.head e) = Memᴰ.head e
  Memᴰ-append_left c (x ∷ xs) ys (Memᴰ.tail h) = Memᴰ.tail (Memᴰ-append_left c xs ys h)

  -- What comes before and after it.
  Flushed-between :
      (a b c d : Manager)
      → Quiet a b
      → Flushed b c
      → Quiet c d
      → (new : List Call) × (d.calls ≡ new ++ a.calls)
        × All (λ c. lifts c ≡ true) new
        × ((current_enforcer b ≡ false) ⊎ Memᴰ flush_local new)
  unfolding Quiet-trans
  Flushed-between a b c d (p, xs, e, h) (q, ys, f, k, told) (r, zs, g, l) =
      let first : Quiet a c = Quiet-trans a b c (p, xs, e, h) (q, ys, f, k) in
      let whole : Quiet a d = Quiet-trans a c d first (r, zs, g, l) in
      (
        whole.1,
        whole.2,
        whole.3,
        elim told [
          | inl off ↦ inl off
          | inr inside ↦
              inr
                (Memᴰ-append flush_local zs (ys ++ xs) (Memᴰ-append_left flush_local ys xs inside))
        ],
      )

  -- The configuration does not ask for enforcement, or no entry of its allowlist was read. Then apply makes no call of the
  -- enforcer but removals, flushes and an empty fleet set; and if the enforcer works once the local addresses are known,
  -- the flush, which lifts all bans of the agent, is one of them.
  pub apply_disables :
      (now : ℕ) (addrs : List Addr) (cfg : WireConfig) (m : Manager)
      → (cfg.policy.enforce && not (length (read_allowlist env cfg) == 0)) ≡ false
      → (new : List Call) × ((apply env now addrs cfg m).calls ≡ new ++ m.calls)
        × All (λ c. lifts c ≡ true) new
        × ((current_enforcer (refresh_local_addrs env now addrs (install_policy env cfg m)) ≡ false)
            ⊎ Memᴰ flush_local new)
  unfolding apply install_policy switch_enforcement reconcile_protected apply_unbans
  apply_disables now addrs cfg m0 h =
      let m = install_policy env cfg m0 in
      let off : m.policy.enforce ≡ false = ground (arith, h) in
      let m₁ = refresh_local_addrs env now addrs m in
      let before = refresh-Quiet now addrs m off in
      let m₂ = record m₁ { has_source = cfg.policy.detect } in
      let off₂ : m₂.policy.enforce ≡ false = ap (λ p. p.enforce) before.0 ∙ off in
      let m₃ = disable_enforcement env m₂ in
      let flush = disable-Flushed m₂ in
      let m₄ = reconcile_bans env (current_enforcer m₃) (active_bans now m₃.tracker) m₃ in
      let lifted = reconcile_bans-Quiet (current_enforcer m₃) (active_bans now m₃.tracker) m₃ in
      let m₅ = unban_loop env now (want_enforce m₄) (current_enforcer m₄) cfg.unban m₄ in
      let unbanned = unban_loop-Quiet now (want_enforce m₄) (current_enforcer m₄) cfg.unban m₄ in
      let off₅ : m₅.policy.enforce ≡ false =
        ap (λ p. p.enforce) (unbanned.0 ∙ lifted.0 ∙ flush.0) ∙ off₂ in
      let m₆ = apply_fleet env now cfg.fleet m₅ in
      let after =
        Quiet-trans m₃ m₄ m₆ lifted
          (Quiet-trans m₄ m₅ m₆ unbanned (apply_fleet-Quiet now cfg.fleet m₅ off₅)) in
      rw off₂ (Flushed-between m m₂ m₃ m₆ before flush after)
