-- ===== src/Repository/Requests.antt =====
-- pkg/restserver/server.go: the handlers of an authorized request, and the usage that they account for in
-- internal/server/storage/backuptargets.go. A quota of 0 is none.
use server_monitor.Common.{
  ℕ, ◌+◌, ◌-◌, Bool, true, false, not, ◌&&◌, ◌||◌, ltb, leb, if◌then◌else◌, ◌==◌, Option, none,
  some, is_some,
}
use server_monitor.Repository.Paths.{Name, ObjectType, valid_type, deletable_type, config, dir}
use server_monitor.Repository.Store.{
  Content, Files, StoreError, err_exists, err_identical, err_corrupt, err_not_found,
  err_invalid_ref, err_too_large, err_io, Faults, Incoming, create, stat_object, open_object,
  delete_lock, limit_body,
}

pub record Target : Type 0 where
  pub quota : ℕ
  pub used : ℕ
  pub revoked : Bool

-- A repository: its files and its target. What ambiguous failures reserved stays in the target's usage.
pub record Repo : Type 0 where
  pub files : Files
  pub target : Target

-- Whether the calls of the registry fail, in addition to the file system's.
pub record Answers : Type 0 where
  pub store : Faults
  pub reserve_fails : Bool
  pub release_fails : Bool

abbrev pub has_room : ℕ → Target → Bool
has_room delta t = t.quota == 0 || leb (t.used + delta) t.quota

-- ReserveUsage: the target, whether the usage was reserved, and whether the call failed.
unfoldable pub reserve_usage : Bool → ℕ → Target → Target × Bool × Bool
reserve_usage fails delta t =
    if delta == 0
    then (t, true, false)
    else if fails
    then (t, false, true)
    else if not t.revoked && has_room delta t
    then (record t { used = t.used + delta }, true, false)
    else (t, false, false)

-- ReleaseUsage
unfoldable pub release_usage : Bool → ℕ → Target → Target
release_usage fails delta t = if fails then t else record t { used = t.used - delta }

-- The statuses of storeError.
abbrev pub store_status : StoreError → ℕ
store_status err_not_found = 404
store_status err_exists = 403
store_status err_identical = 403
store_status err_corrupt = 403
store_status err_invalid_ref = 400
store_status err_too_large = 413
store_status err_io = 500

-- An error after which the object was surely not written.
abbrev pub not_committed : StoreError → Bool
not_committed err_exists = true
not_committed err_corrupt = true
not_committed err_invalid_ref = true
not_committed err_too_large = true
not_committed err_identical = false
not_committed err_not_found = false
not_committed err_io = false

-- The part of post after Create.
unfoldable pub after_create : Answers → Bool → ℕ → Repo → Files × Option StoreError → Repo × ℕ
after_create a reserved size r (files, none) =
    let t = if reserved then r.target else (reserve_usage a.reserve_fails size r.target).0 in
    (record { files = files; target = t }, 200)
after_create a reserved size r (files, some err_identical) =
    let t = if reserved then release_usage a.release_fails size r.target else r.target in
    (record { files = files; target = t }, 200)
after_create a reserved size r (files, some e) =
    let t =
      if reserved && not_committed e
      then release_usage a.release_fails size r.target
      else r.target in
    (record { files = files; target = t }, store_status e)

-- A request, after auth.
pub data Request : Type 0 where
  post_config : Option ℕ → Incoming → Request
  post_object : ObjectType → Name → Option ℕ → Incoming → Request
  get_config : Request
  get_object : ObjectType → Name → Request
  head_object : ObjectType → Name → Request
  delete_object : ObjectType → Name → Request
  delete_repo : Request

abbrev pub read_status : Option StoreError → ℕ
read_status none = 200
read_status (some e) = store_status e

abbrev pub deleted : Answers → Repo → Files × ℕ × Option StoreError → Repo × ℕ
deleted a r (files, freed, none) =
    (record { files = files; target = release_usage a.release_fails freed r.target }, 200)
deleted a r (files, freed, some e) = (record r { files = files }, store_status e)

module _ (digest : Content → Name) (max_blob : ℕ) where
  -- post, for a request whose length is announced.
  unfoldable pub post : Answers → ObjectType → Name → ℕ → Incoming → Repo → Repo × ℕ
  post a t name size body r =
      let (target, reserved, failed) = reserve_usage a.reserve_fails size r.target in
      let r' = record r { target = target } in
      let present = not (is_some (stat_object a.store t name r.files).1) in
      if ltb max_blob size
      then (r, 413)
      else if failed
      then (r, 500)
      else if not reserved && (deletable_type t || not present)
      then (r, 413)
      else after_create a reserved size r'
          (create digest a.store t name size (limit_body size body) r.files)

  abbrev pub post_sized : Answers → ObjectType → Name → Option ℕ → Incoming → Repo → Repo × ℕ
  post_sized a t name none body r = (r, 411)
  post_sized a t name (some size) body r = post a t name size body r

  -- The handlers: the repository afterwards, and the status.
  unfoldable pub handle : Answers → Request → Repo → Repo × ℕ
  handle a (post_config size body) r = post_sized a config (dir config) size body r
  handle a (post_object t name size body) r =
      if valid_type t then post_sized a t name size body r else (r, 404)
  handle a get_config r = (r, read_status (open_object a.store config (dir config) r.files).1)
  handle a (get_object t name) r =
      if valid_type t then (r, read_status (open_object a.store t name r.files).1) else (r, 404)
  handle a (head_object t name) r =
      if valid_type t then (r, read_status (stat_object a.store t name r.files).1) else (r, 404)
  handle a (delete_object t name) r =
      if not (valid_type t)
      then (r, 404)
      else if not (deletable_type t)
      then (r, 403)
      else deleted a r (delete_lock a.store name r.files)
  handle a delete_repo r = (r, 403)
