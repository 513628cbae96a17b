-- ===== src/Repository/Targets.antt =====
-- internal/server/storage/backuptargets.go: the rows of the backup targets that the server itself stores, and the
-- cache from which it resolves them. A method is one step; `fails` is whether its statement fails, and times are since
-- the zero time. tokenHash is a parameter.
use server_monitor.Common.{
  ℕ, ◌+◌, ◌-◌, ◌*◌, ◌^◌, Bool, true, false, not, ◌&&◌, ◌||◌, ltb, if◌then◌else◌, ◌==◌, Option, none,
  some, List, [], ◌∷◌, ℕ_discrete,
}
use server_monitor.Common.Assoc.{lookup, insert, delete}
use server_monitor.Repository.Paths.{Name, Name-discrete, same}
use server_monitor.Repository.Requests.{Target, has_room}

-- A row of backup_targets; a served one has no node and no destination.
pub record Row : Type 0 where
  pub name : Name
  pub hash : Name
  pub served : Bool
  pub target : Target

pub record Auth : Type 0 where
  pub id : ℕ
  pub hash : Name
  pub quota : ℕ
  pub used : ℕ
  pub revoked : Bool

pub record Targets : Type 0 where
  pub rows : List (ℕ × Row)
  pub by_name : List (Name × Auth)
  pub cached_at : ℕ

abbrev pub new_targets : Targets
new_targets = record { rows = []; by_name = []; cached_at = 0 }

abbrev pub cache_ttl : ℕ
cache_ttl = 30 * 10 ^ 9

abbrev pub auth_of : ℕ → Row → Auth
auth_of i row = record {
  id = i;
  hash = row.hash;
  quota = row.target.quota;
  used = row.target.used;
  revoked = row.target.revoked;
}

-- The loop of refresh.
unfoldable pub load_rows : List (ℕ × Row) → List (Name × Auth) → List (Name × Auth)
load_rows [] m = m
load_rows ((i, row) ∷ rows) m =
    load_rows rows (if row.served then insert Name-discrete row.name (auth_of i row) m else m)

-- refresh, and whether it failed.
unfoldable pub refresh : ℕ → Bool → Targets → Targets × Bool
refresh now fails s =
    if fails
    then (s, true)
    else (record s { by_name = load_rows s.rows []; cached_at = now }, false)

abbrev pub invalidate : Targets → Targets
invalidate s = record s { cached_at = 0 }

-- The id, the quota and the usage, if the secret matches.
abbrev pub match_target : Auth → Name → Option (ℕ × ℕ × ℕ)
match_target a candidate =
    if not (same a.hash candidate)
    then none
    else if a.revoked
    then none
    else some (a.id, a.quota, a.used)

abbrev pub match_hit : Option Auth → Name → Option (ℕ × ℕ × ℕ)
match_hit none candidate = none
match_hit (some a) candidate = match_target a candidate

-- The statements WHERE id = $1.
unfoldable pub update_row : ℕ → (Row → Row) → List (ℕ × Row) → List (ℕ × Row)
update_row id f [] = []
update_row id f ((i, row) ∷ rows) = (i, if i == id then f row else row) ∷ update_row id f rows

abbrev pub with_used : (ℕ → ℕ) → Row → Row
with_used h row = record row { target = record row.target { used = h row.target.used } }

-- The loops over the cache in ReserveUsage, ReleaseUsage and SetUsage.
abbrev pub bump : ℕ → (ℕ → ℕ) → Auth → Auth
bump id h a = if a.id == id then record a { used = h a.used } else a

unfoldable pub update_cached : ℕ → (ℕ → ℕ) → List (Name × Auth) → List (Name × Auth)
update_cached id h [] = []
update_cached id h ((n, a) ∷ m) = (n, bump id h a) ∷ update_cached id h m

abbrev pub change_used : ℕ → (ℕ → ℕ) → Targets → Targets
change_used id h s = record s {
  rows = update_row id (with_used h) s.rows;
  by_name = update_cached id h s.by_name;
}

abbrev pub change_rows : ℕ → (Row → Row) → Targets → Targets
change_rows id f s = invalidate (record s { rows = update_row id f s.rows })

abbrev pub with_secret : Name → Row → Row
with_secret hash row = record row { hash = hash; target = record row.target { revoked = false } }

abbrev pub as_revoked : Row → Row
as_revoked row = record row { target = record row.target { revoked = true } }

abbrev pub with_quota : ℕ → Row → Row
with_quota quota row = record row { target = record row.target { quota = quota } }

abbrev pub always : Row → Bool
always row = true

-- The condition of the statement in ReserveUsage.
abbrev pub may_reserve : ℕ → Row → Bool
may_reserve delta row = not row.target.revoked && has_room delta row.target

-- What a statement does that changes rows with an id, if there is one for which the condition holds.
abbrev pub where_id : (Row → Bool) → Option Row → Targets → Targets → Targets
where_id p none changed s = s
where_id p (some row) changed s = if p row then changed else s

abbrev pub unless : Bool → Targets → Targets → Targets
unless fails s s' = if fails then s else s'

unfoldable pub revoke_target : Bool → ℕ → Targets → Targets
revoke_target fails id s = unless fails s (change_rows id as_revoked s)

unfoldable pub delete_target : Bool → ℕ → Targets → Targets
delete_target fails id s =
    unless fails s (invalidate (record s { rows = delete ℕ_discrete id s.rows }))

unfoldable pub set_usage : Bool → ℕ → ℕ → Targets → Targets
set_usage fails id used s =
    unless fails s (where_id always (lookup ℕ_discrete id s.rows) (change_used id (λ _. used) s) s)

unfoldable pub set_quota : Bool → ℕ → ℕ → Targets → Targets
set_quota fails id quota s =
    unless fails s
      (where_id always (lookup ℕ_discrete id s.rows) (change_rows id (with_quota quota) s) s)

-- ReserveUsage and ReleaseUsage with the cache.
unfoldable pub reserve_target : Bool → ℕ → ℕ → Targets → Targets
reserve_target fails id delta s = unless (fails || delta == 0) s (
    where_id (may_reserve delta) (lookup ℕ_discrete id s.rows) (change_used id (λ u. u + delta) s)
      s)

unfoldable pub release_target : Bool → ℕ → ℕ → Targets → Targets
release_target fails id delta s =
    unless (fails || delta == 0) s
      (where_id always (lookup ℕ_discrete id s.rows) (change_used id (λ u. u - delta) s) s)

module _ (token_hash : Name → Name) where
  abbrev pub answer : Name → Name → List (Name × Auth) → Option (ℕ × ℕ × ℕ)
  answer repo secret m = match_hit (lookup Name-discrete repo m) (token_hash secret)

  -- ResolveTarget; the outer none is an error.
  unfoldable pub resolve_target :
      ℕ → Bool → Name → Name → Targets → Targets × Option (Option (ℕ × ℕ × ℕ))
  resolve_target now fails repo secret s =
      let (s', failed) = refresh now fails s in
      if ltb (now - s.cached_at) cache_ttl
      then (s, some (answer repo secret s.by_name))
      else if failed
      then (s', none)
      else (s', some (answer repo secret s'.by_name))

  -- Create, with the id that the database gives.
  unfoldable pub create_target : Bool → ℕ → Name → Name → Bool → ℕ → Targets → Targets
  create_target fails id name secret served quota s =
      let row : Row = record {
        name = name;
        hash = token_hash secret;
        served = served;
        target = record { quota = quota; used = 0; revoked = false };
      } in
      unless fails s (invalidate (record s { rows = (id, row) ∷ s.rows }))

  unfoldable pub rotate_target : Bool → ℕ → Name → Targets → Targets
  rotate_target fails id secret s = unless fails s (
      where_id always (lookup ℕ_discrete id s.rows)
        (change_rows id (with_secret (token_hash secret)) s) s)

-- The methods that change the state.
pub data Call : Type 0 where
  creates : Bool → ℕ → Name → Name → Bool → ℕ → Call
  rotates : Bool → ℕ → Name → Call
  revokes : Bool → ℕ → Call
  deletes : Bool → ℕ → Call
  sets_usage : Bool → ℕ → ℕ → Call
  sets_quota : Bool → ℕ → ℕ → Call
  reserves : Bool → ℕ → ℕ → Call
  releases : Bool → ℕ → ℕ → Call
  resolves : Bool → ℕ → Name → Name → Call

unfoldable pub call : (Name → Name) → Call → Targets → Targets
call token_hash (creates fails id name secret served quota) s =
    create_target token_hash fails id name secret served quota s
call token_hash (rotates fails id secret) s = rotate_target token_hash fails id secret s
call token_hash (revokes fails id) s = revoke_target fails id s
call token_hash (deletes fails id) s = delete_target fails id s
call token_hash (sets_usage fails id used) s = set_usage fails id used s
call token_hash (sets_quota fails id quota) s = set_quota fails id quota s
call token_hash (reserves fails id delta) s = reserve_target fails id delta s
call token_hash (releases fails id delta) s = release_target fails id delta s
call token_hash (resolves fails now repo secret) s =
    (resolve_target token_hash now fails repo secret s).0
