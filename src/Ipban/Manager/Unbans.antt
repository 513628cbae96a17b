-- ===== src/Ipban/Manager/Unbans.antt =====
-- The unban requests that the server repeats (applyUnbans).
use server_monitor.Common.{
  ℕ, ◌≡◌, refl, ap, ◌∙◌, inl, inr, arith, Bool, true, none, some, List, [], ◌∷◌, All, is_some,
  Option-cases,
}
use server_monitor.Common.Assoc.{lookup, lookup-insert, lookup-insert_self}
use server_monitor.Netip.{Addr, unmap}
use server_monitor.Ipban.Manager.{
  Env, Manager, Call, remove_local, WireUnban, push_event, call, want_enforce, current_enforcer,
}
use server_monitor.Ipban.Manager.Enforcement.{
  UnbanKey-discrete, finish_unban, unban_one, unban_entry, unban_loop, apply_unbans,
}

-- The kernel takes every removal.
abbrev pub RemovalsSucceed : Env → Type 0
RemovalsSucceed env = (calls : List Call) (ip : Addr) → env.outcome calls (remove_local ip) ≡ none

module _ (env : Env) where
  abbrev key_seen : Addr → ℕ → Manager → Bool
  key_seen ip at m = is_some (lookup UnbanKey-discrete (ip, at) m.seen_unbans)

  -- A request that the manager has acted on, or that names no address.
  abbrev pub is_seen : WireUnban → Manager → Bool
  is_seen u m = elim (env.parse_addr u.ip) [
    | none ↦ true
    | some parsed ↦ key_seen (unmap parsed) u.at m
  ]

  finish_unban-seen :
      (now : ℕ) (ip : Addr) (at : ℕ) (m : Manager)
      → key_seen ip at (finish_unban env now ip at m) ≡ true
  unfolding finish_unban push_event
  finish_unban-seen now ip at m =
      ground (arith, lookup-insert_self UnbanKey-discrete (ip, at) now m.seen_unbans)

  finish_unban-seen_mono :
      (now : ℕ) (ip j : Addr) (at k : ℕ) (m : Manager)
      → key_seen j k m ≡ true
      → key_seen j k (finish_unban env now ip at m) ≡ true
  unfolding finish_unban push_event
  finish_unban-seen_mono now ip j at k m h =
      ground (arith, lookup-insert UnbanKey-discrete (ip, at) (j, k) now m.seen_unbans)

  unban_one_facts :
      (now : ℕ) (want live : Bool) (ip : Addr) (at : ℕ) (m : Manager)
      → RemovalsSucceed env
      → (want ≡ true → live ≡ true)
      → ((unban_one env now want live ip at m).1 ≡ live)
        × (key_seen ip at (unban_one env now want live ip at m).0 ≡ true)
  unfolding unban_one
  unban_one_facts now want live ip at m ok h = ground (
    arith,
    ok m.calls ip,
    finish_unban-seen now ip at m,
    finish_unban-seen now ip at (call env (remove_local ip) m).0,
  )

  unban_one-seen_mono :
      (now : ℕ) (want live : Bool) (ip j : Addr) (at k : ℕ) (m : Manager)
      → key_seen j k m ≡ true
      → key_seen j k (unban_one env now want live ip at m).0 ≡ true
  unfolding unban_one
  unban_one-seen_mono now want live ip j at k m h = ground (
    arith,
    finish_unban-seen_mono now ip j at k m,
    finish_unban-seen_mono now ip j at k (call env (remove_local ip) m).0,
  )

  unban_one_of_seen :
      (now : ℕ) (want live : Bool) (ip : Addr) (at : ℕ) (m : Manager)
      → key_seen ip at m ≡ true
      → unban_one env now want live ip at m ≡ (m, live)
  unfolding unban_one
  unban_one_of_seen now want live ip at m h = rw h

  entry_facts :
      (now : ℕ) (want live : Bool) (u : WireUnban) (m : Manager)
      → RemovalsSucceed env
      → (want ≡ true → live ≡ true)
      → ((unban_entry env now want live u m).1 ≡ live)
        × (is_seen u (unban_entry env now want live u m).0 ≡ true)
  unfolding unban_entry
  entry_facts now want live u m ok h = elim (Option-cases (env.parse_addr u.ip)) [
    | inl e ↦ rw (e, unban_entry, is_seen) (refl, refl)
    | inr (parsed, e) ↦
        let f = unban_one_facts now want live (unmap parsed) u.at m ok h in
        (rw (e, unban_entry) f.0, rw (e, unban_entry) (rw (e, is_seen) f.1))
  ]

  entry-seen_mono :
      (now : ℕ) (want live : Bool) (u v : WireUnban) (m : Manager)
      → is_seen v m ≡ true
      → is_seen v (unban_entry env now want live u m).0 ≡ true
  unfolding unban_entry
  entry-seen_mono now want live u v m h = elim (Option-cases (env.parse_addr u.ip)) [
    | inl e ↦ rw (e, unban_entry) h
    | inr (parsed, e) ↦
        rw (e, unban_entry)
          (elim (Option-cases (env.parse_addr v.ip)) [
            | inl f ↦ rw (f, is_seen) refl
            | inr (other, f) ↦
                rw (f, is_seen)
                  (unban_one-seen_mono now want live (unmap parsed) (unmap other) u.at v.at m
                    (rw (f, is_seen) at h))
          ])
  ]

  entry_of_seen :
      (now : ℕ) (want live : Bool) (u : WireUnban) (m : Manager)
      → is_seen u m ≡ true
      → unban_entry env now want live u m ≡ (m, live)
  unfolding unban_entry
  entry_of_seen now want live u m h = elim (Option-cases (env.parse_addr u.ip)) [
    | inl e ↦ rw (e, unban_entry) refl
    | inr (parsed, e) ↦
        rw (e, unban_entry)
          (unban_one_of_seen now want live (unmap parsed) u.at m (rw (e, is_seen) at h))
  ]

  loop-seen_mono :
      (us : List WireUnban) (now : ℕ) (want live : Bool) (v : WireUnban) (m : Manager)
      → is_seen v m ≡ true
      → is_seen v (unban_loop env now want live us m) ≡ true
  unfolding unban_loop
  loop-seen_mono [] now want live v m h = h
  loop-seen_mono (u ∷ us) now want live v m h =
      let r = unban_entry env now want live u m in
      loop-seen_mono us now want r.1 v r.0 (entry-seen_mono now want live u v m h)

  loop-seen :
      (us : List WireUnban) (now : ℕ) (want live : Bool) (m : Manager)
      → RemovalsSucceed env
      → (want ≡ true → live ≡ true)
      → All (λ u. is_seen u (unban_loop env now want live us m) ≡ true) us
  unfolding unban_loop
  loop-seen [] now want live m ok h = tt
  loop-seen (u ∷ us) now want live m ok h =
      let r = unban_entry env now want live u m in
      let f = entry_facts now want live u m ok h in
      (loop-seen_mono us now want r.1 u r.0 f.1, loop-seen us now want r.1 r.0 ok (λ w. f.0 ∙ h w))

  loop_of_seen :
      (us : List WireUnban) (now : ℕ) (want live : Bool) (m : Manager)
      → All (λ u. is_seen u m ≡ true) us
      → unban_loop env now want live us m ≡ m
  unfolding unban_loop
  loop_of_seen [] now want live m h = refl
  loop_of_seen (u ∷ us) now want live m h =
      ap (λ r. unban_loop env now want r.1 us r.0) (entry_of_seen now want live u m h.0)
      ∙ loop_of_seen us now want live m h.1

  -- Where the kernel takes every removal, and the enforcer works if the policy enforces, a list of requests that is
  -- applied twice with nothing in between, whatever the clock shows, changes nothing the second time: no call, no unban,
  -- no event.
  pub apply_unbans_again :
      (now later : ℕ) (us : List WireUnban) (m : Manager)
      → RemovalsSucceed env
      → (want_enforce m ≡ true → current_enforcer m ≡ true)
      → apply_unbans env later us (apply_unbans env now us m) ≡ apply_unbans env now us m
  unfolding apply_unbans
  apply_unbans_again now later us m ok h =
      loop_of_seen us later _ _ _ (loop-seen us now (want_enforce m) (current_enforcer m) m ok h)
