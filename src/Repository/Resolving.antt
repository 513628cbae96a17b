-- ===== src/Repository/Resolving.antt =====
-- The cache of the backup targets and their rows.
use server_monitor.Common.{
  ℕ, ◌-◌, ◌≤◌, ◌≡◌, ◌⊎◌, inl, inr, refl, sym, ap, ◌∙◌, arith, Bool, true, false, ◌||◌, ltb,
  if◌then◌else◌, ◌==◌, Option, Option-cases, All, ◌+◌, none, some, List, [], ◌∷◌, ℕ_discrete,
}
use server_monitor.Common.Assoc.{lookup, insert}
use server_monitor.Repository.Paths.{Name, Name-discrete}
use server_monitor.Repository.Holders.{Holder, answer-Holder}
use server_monitor.Repository.Targets.{
  Row, Auth, Targets, new_targets, cache_ttl, auth_of, load_rows, refresh, update_row, with_used,
  bump, update_cached, change_used, where_id, answer, resolve_target, Call, creates, rotates,
  revokes, deletes, sets_usage, sets_quota, reserves, releases, resolves, call, unless, change_rows,
  with_secret, with_quota, as_revoked, always, may_reserve, create_target, rotate_target,
  revoke_target, delete_target, set_usage, set_quota, reserve_target, release_target,
}

update_cached-insert :
    (id : ℕ) (h : ℕ → ℕ) (n : Name) (a : Auth) (m : List (Name × Auth))
    → update_cached id h (insert Name-discrete n a m)
      ≡ insert Name-discrete n (bump id h a) (update_cached id h m)
unfolding update_cached insert
update_cached-insert id h n a [] = refl
update_cached-insert id h n a ((k, b) ∷ m) = ground (arith, update_cached-insert id h n a m)

-- The step of the loop of refresh at a row, before and after the update.
load_row : ℕ → Row → List (Name × Auth) → List (Name × Auth)
load_row i row m = if row.served then insert Name-discrete row.name (auth_of i row) m else m

load_row-with_used :
    (id : ℕ) (h : ℕ → ℕ) (i : ℕ) (row : Row) (m : List (Name × Auth))
    → load_row i (if i == id then with_used h row else row) (update_cached id h m)
      ≡ update_cached id h (load_row i row m)
unfolding load_row
load_row-with_used id h i row m =
    ground (arith, update_cached-insert id h row.name (auth_of i row) m)

load_rows-update_row :
    (id : ℕ) (h : ℕ → ℕ) (rows : List (ℕ × Row)) (m : List (Name × Auth))
    → load_rows (update_row id (with_used h) rows) (update_cached id h m)
      ≡ update_cached id h (load_rows rows m)
unfolding load_rows update_row load_row
load_rows-update_row id h [] m = refl
load_rows-update_row id h ((i, row) ∷ rows) m =
    ap (load_rows (update_row id (with_used h) rows)) (load_row-with_used id h i row m)
    ∙ load_rows-update_row id h rows (load_row i row m)

-- The cache is invalid, or it is what refresh would load.
abbrev pub Coherent : Targets → Type 0
Coherent s = (s.cached_at ≡ 0) ⊎ (s.by_name ≡ load_rows s.rows [])

pub change_used-Coherent :
    (id : ℕ) (h : ℕ → ℕ) (s : Targets) → Coherent s → Coherent (change_used id h s)
unfolding update_cached
change_used-Coherent id h s (inl z) = inl z
change_used-Coherent id h s (inr e) =
    inr (ap (update_cached id h) e ∙ sym (load_rows-update_row id h s.rows []))

where_id-Coherent :
    (p : Row → Bool) (o : Option Row) (changed s : Targets)
    → Coherent changed
    → Coherent s
    → Coherent (where_id p o changed s)
where_id-Coherent p none changed s h k = k
where_id-Coherent p (some row) changed s h k =
    elim (p row) as (λ b. Coherent (if b then changed else s)) [ true ↦ h | false ↦ k ]

unless-Coherent :
    (fails : Bool) (s s' : Targets) → Coherent s → Coherent s' → Coherent (unless fails s s')
unless-Coherent true s s' h k = h
unless-Coherent false s s' h k = k

-- The methods that update rows with an id, through the cache or not.
changed-Coherent :
    (fails : Bool) (id : ℕ) (p : Row → Bool) (f : Row → Row) (s : Targets)
    → Coherent s
    → Coherent (unless fails s (where_id p (lookup ℕ_discrete id s.rows) (change_rows id f s) s))
changed-Coherent fails id p f s c =
    unless-Coherent fails s (where_id p (lookup ℕ_discrete id s.rows) (change_rows id f s) s) c
      (where_id-Coherent p (lookup ℕ_discrete id s.rows) (change_rows id f s) s (inl refl) c)

used-Coherent :
    (fails : Bool) (id : ℕ) (p : Row → Bool) (h : ℕ → ℕ) (s : Targets)
    → Coherent s
    → Coherent (unless fails s (where_id p (lookup ℕ_discrete id s.rows) (change_used id h s) s))
used-Coherent fails id p h s c =
    unless-Coherent fails s (where_id p (lookup ℕ_discrete id s.rows) (change_used id h s) s) c (
      where_id-Coherent p (lookup ℕ_discrete id s.rows) (change_used id h s) s
        (change_used-Coherent id h s c) c)

-- The clock of a call that resolves is past the lifetime of the cache since the zero time.
abbrev pub Clocked : Call → Type 0
Clocked (resolves fails now repo secret) = cache_ttl ≤ now
Clocked (creates fails id name secret served quota) = Unit
Clocked (rotates fails id secret) = Unit
Clocked (revokes fails id) = Unit
Clocked (deletes fails id) = Unit
Clocked (sets_usage fails id used) = Unit
Clocked (sets_quota fails id quota) = Unit
Clocked (reserves fails id delta) = Unit
Clocked (releases fails id delta) = Unit

module _ (token_hash : Name → Name) where
  -- What reading the rows at once would answer.
  abbrev direct : Name → Name → Targets → Option (ℕ × ℕ × ℕ)
  direct repo secret s = answer token_hash repo secret (load_rows s.rows [])

  -- The answer of ResolveTarget, for whether the cache is fresh.
  pub record Resolved (fails : Bool) (repo secret : Name) (s : Targets)
      (x : Targets × Option (Option (ℕ × ℕ × ℕ))) : Type 0 where
    pub coherent : Coherent x.0
    pub answered : (x.1 ≡ some (direct repo secret s)) ⊎ ((fails ≡ true) × (x.1 ≡ none))

  resolve-Resolved :
      (now : ℕ) (fresh fails : Bool) (repo secret : Name) (s : Targets)
      → (fresh ≡ true → s.by_name ≡ load_rows s.rows [])
      → Coherent s
      → Resolved fails repo secret s (
          if fresh
          then (s, some (answer token_hash repo secret s.by_name))
          else if (refresh now fails s).1
          then ((refresh now fails s).0, none)
          else (
            (refresh now fails s).0,
            some (answer token_hash repo secret (refresh now fails s).0.by_name),
          ))
  unfolding refresh
  resolve-Resolved now true fails repo secret s h c = record {
    coherent = c;
    answered = inl (ap (λ m. some (answer token_hash repo secret m)) (h refl));
  }
  resolve-Resolved now false true repo secret s h c = record {
    coherent = c;
    answered = inr (refl, refl);
  }
  resolve-Resolved now false false repo secret s h c = record {
    coherent = inr refl;
    answered = inl refl;
  }

  fresh-by_name :
      (now : ℕ) (s : Targets)
      → cache_ttl ≤ now
      → Coherent s
      → ltb (now - s.cached_at) cache_ttl ≡ true
      → s.by_name ≡ load_rows s.rows []
  fresh-by_name now s t (inl z) f = absurd (ground (arith, z, f, t))
  fresh-by_name now s t (inr e) f = e

  pub resolve_target-Resolved :
      (now : ℕ) (fails : Bool) (repo secret : Name) (s : Targets)
      → cache_ttl ≤ now
      → Coherent s
      → Resolved fails repo secret s (resolve_target token_hash now fails repo secret s)
  unfolding resolve_target
  resolve_target-Resolved now fails repo secret s t c =
      resolve-Resolved now (ltb (now - s.cached_at) cache_ttl) fails repo secret s
        (fresh-by_name now s t c) c

  call-Coherent : (k : Call) (s : Targets) → Clocked k → Coherent s → Coherent (call token_hash k s)
  unfolding call create_target rotate_target revoke_target delete_target set_usage set_quota
      reserve_target release_target
  call-Coherent (creates fails id name secret served quota) s l c =
      unless-Coherent fails s (create_target token_hash false id name secret served quota s) c
        (inl refl)
  call-Coherent (rotates fails id secret) s l c =
      changed-Coherent fails id always (with_secret (token_hash secret)) s c
  call-Coherent (revokes fails id) s l c =
      unless-Coherent fails s (change_rows id as_revoked s) c (inl refl)
  call-Coherent (deletes fails id) s l c =
      unless-Coherent fails s (delete_target false id s) c (inl refl)
  call-Coherent (sets_usage fails id used) s l c = used-Coherent fails id always (λ _. used) s c
  call-Coherent (sets_quota fails id quota) s l c =
      changed-Coherent fails id always (with_quota quota) s c
  call-Coherent (reserves fails id delta) s l c =
      used-Coherent (fails || delta == 0) id (may_reserve delta) (λ u. u + delta) s c
  call-Coherent (releases fails id delta) s l c =
      used-Coherent (fails || delta == 0) id always (λ u. u - delta) s c
  call-Coherent (resolves fails now repo secret) s l c =
      (resolve_target-Resolved now fails repo secret s l c).coherent

  -- Calls, the latest first.
  unfoldable pub run : List (Call) → Targets → Targets
  run [] s = s
  run (k ∷ ks) s = call token_hash k (run ks s)

  run-Coherent : (ks : List (Call)) → All Clocked ks → Coherent (run ks new_targets)
  unfolding run
  run-Coherent [] l = inl refl
  run-Coherent (k ∷ ks) l = call-Coherent k (run ks new_targets) l.0 (run-Coherent ks l.1)

  given-Holder :
      (repo secret : Name) (rows : List (ℕ × Row))
      → (answer token_hash repo secret (load_rows rows []) ≡ none)
        ⊎ Holder token_hash repo secret rows
  given-Holder repo secret rows =
      elim (Option-cases (answer token_hash repo secret (load_rows rows []))) [
        | inl e ↦ inl e
        | inr (x, e) ↦ inr (answer-Holder token_hash repo secret rows x e)
      ]

  -- After any calls, each after the other, ResolveTarget answers with its cache as if it read the rows at once, unless
  -- its query fails and it answers with an error. And what the rows answer is a target only where one of them, which the
  -- server itself stores, has the name and the hash of the secret and is not revoked.
  pub resolve_target-direct :
      (ks : List (Call)) (now : ℕ) (fails : Bool) (repo secret : Name)
      → All Clocked ks
      → cache_ttl ≤ now
      → (((resolve_target token_hash now fails repo secret (run ks new_targets)).1
            ≡ some (answer token_hash repo secret (load_rows (run ks new_targets).rows [])))
          ⊎ ((fails ≡ true)
              × ((resolve_target token_hash now fails repo secret (run ks new_targets)).1 ≡ none)))
        × ((answer token_hash repo secret (load_rows (run ks new_targets).rows []) ≡ none)
            ⊎ Holder token_hash repo secret (run ks new_targets).rows)
  resolve_target-direct ks now fails repo secret l t = (
    (resolve_target-Resolved now fails repo secret (run ks new_targets) t
        (run-Coherent ks l)).answered,
    given-Holder repo secret (run ks new_targets).rows,
  )
