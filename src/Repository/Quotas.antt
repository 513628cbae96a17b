-- ===== src/Repository/Quotas.antt =====
-- The usage of a repository, its quota, and what it stores.
use server_monitor.Common.{
  ℕ, ◌+◌, ◌≤◌, ◌≡◌, ◌⊎◌, refl, arith, Bool, true, false, not, ◌&&◌, ◌||◌, ltb, if◌then◌else◌,
  Option, none, some, List, [], ◌∷◌, is_some,
}
use server_monitor.Repository.Paths.{
  Name, ObjectType, locks, config, deletable_type, object_path, dir,
}
use server_monitor.Repository.Store.{
  Content, Files, StoreError, err_exists, err_identical, err_corrupt, err_not_found,
  err_invalid_ref, err_too_large, err_io, Incoming, limit_body, create, delete_lock, repo_usage,
  stat_object,
}
use server_monitor.Repository.Requests.{
  Target, Answers, Repo, reserve_usage, release_usage, after_create, post, Request, post_config,
  post_object, get_config, get_object, head_object, delete_object, delete_repo, handle, deleted,
  post_sized, not_committed,
}
use server_monitor.Repository.Appending.{serve}
use server_monitor.Repository.Usage.{Grown, create-Grown, present-create, Shrunk, delete_on-Shrunk}

-- What is stored is at most what is accounted for, and that is within the quota, where there is one.
pub record Within (quota : ℕ) (r : Repo) : Type 0 where
  pub same_quota : r.target.quota ≡ quota
  pub stored : repo_usage r.files ≤ r.target.used
  pub within : (quota ≡ 0) ⊎ (r.target.used ≤ quota)

-- What the reservation does to the target.
reserve_usage-used :
    (fails : Bool) (size quota : ℕ) (t : Target)
    → t.quota ≡ quota
    → (quota ≡ 0) ⊎ (t.used ≤ quota)
    → ((reserve_usage fails size t).0.used
        ≡ (if (reserve_usage fails size t).1 then t.used + size else t.used))
      × ((reserve_usage fails size t).0.quota ≡ quota)
      × ((quota ≡ 0) ⊎ ((reserve_usage fails size t).0.used ≤ quota))
unfolding reserve_usage
reserve_usage-used fails size quota t e w = (ground arith, ground arith, ground arith)

-- After an error, for whether the reservation is released.
after_error-Within :
    (fails release : Bool) (quota size : ℕ) (files files' : Files) (t : Target)
    → t.quota ≡ quota
    → (quota ≡ 0) ⊎ (t.used ≤ quota)
    → repo_usage files ≤ t.used
    → (release ≡ true → repo_usage files + size ≤ t.used)
    → files' ≡ files
    → Within quota
        (record { files = files'; target = if release then release_usage fails size t else t })
unfolding release_usage
after_error-Within fails release quota size files files' t e w b r g = record {
  same_quota = ground (arith, e);
  stored = ground (arith, g, b, r);
  within = ground (arith, w);
}

-- After Create, with the usage of the object reserved or not.
after_create-Within :
    (a : Answers) (quota size : ℕ) (reserved : Bool) (files files' : Files) (o : Option StoreError)
    (t : Target)
    → t.quota ≡ quota
    → (quota ≡ 0) ⊎ (t.used ≤ quota)
    → (if reserved then repo_usage files + size ≤ t.used else repo_usage files ≤ t.used)
    → Grown size files (files', o)
    → (reserved ≡ false → is_some o ≡ true)
    → Within quota
        (after_create a reserved size (record { files = files; target = t }) (files', o)).0
unfolding after_create
after_create-Within a quota size true files files' none t e w b g n = record {
  same_quota = e;
  stored = omega (arith, g, b);
  within = w;
}
after_create-Within a quota size false files files' none t e w b g n =
    absurd (ground (arith, n refl))
after_create-Within a quota size reserved files files' (some err_exists) t e w b g n =
    after_error-Within a.release_fails (reserved && not_committed err_exists) quota size files
      files' t e w (ground (arith, b)) (λ r. ground (arith, b, r)) g
after_create-Within a quota size reserved files files' (some err_identical) t e w b g n =
    after_error-Within a.release_fails reserved quota size files files' t e w (ground (arith, b))
      (λ r. ground (arith, b, r)) g
after_create-Within a quota size reserved files files' (some err_corrupt) t e w b g n =
    after_error-Within a.release_fails (reserved && not_committed err_corrupt) quota size files
      files' t e w (ground (arith, b)) (λ r. ground (arith, b, r)) g
after_create-Within a quota size reserved files files' (some err_not_found) t e w b g n =
    after_error-Within a.release_fails (reserved && not_committed err_not_found) quota size files
      files' t e w (ground (arith, b)) (λ r. ground (arith, b, r)) g
after_create-Within a quota size reserved files files' (some err_invalid_ref) t e w b g n =
    after_error-Within a.release_fails (reserved && not_committed err_invalid_ref) quota size files
      files' t e w (ground (arith, b)) (λ r. ground (arith, b, r)) g
after_create-Within a quota size reserved files files' (some err_too_large) t e w b g n =
    after_error-Within a.release_fails (reserved && not_committed err_too_large) quota size files
      files' t e w (ground (arith, b)) (λ r. ground (arith, b, r)) g
after_create-Within a quota size reserved files files' (some err_io) t e w b g n =
    after_error-Within a.release_fails (reserved && not_committed err_io) quota size files files' t
      e w (ground (arith, b)) (λ r. ground (arith, b, r)) g

if-Within :
    (quota : ℕ) (b : Bool) (x y : Repo × ℕ)
    → Within quota x.0
    → (b ≡ false → Within quota y.0)
    → Within quota (if b then x else y).0
if-Within quota true x y w v = w
if-Within quota false x y w v = v refl

post-Within :
    (digest : Content → Name) (max_blob : ℕ) (a : Answers) (quota : ℕ) (t : ObjectType)
    (name : Name) (size : ℕ) (body : Incoming) (r : Repo)
    → Within quota r
    → Within quota (post digest max_blob a t name size body r).0
unfolding post
post-Within digest max_blob a quota t name size body r w =
    let target = (reserve_usage a.reserve_fails size r.target).0 in
    let reserved = (reserve_usage a.reserve_fails size r.target).1 in
    let made = create digest a.store t name size (limit_body size body) r.files in
    let u = reserve_usage-used a.reserve_fails size quota r.target w.same_quota w.within in
    let present = not (is_some (stat_object a.store t name r.files).1) in
    let last = after_create a reserved size (record r { target = target }) made in
    let full = not reserved && (deletable_type t || not present) in
    let failed = (reserve_usage a.reserve_fails size r.target).2 in
    if-Within quota (ltb max_blob size) (r, 413)
      (if failed then (r, 500) else if full then (r, 413) else last) w
      (λ _.
        if-Within quota failed (r, 500) (if full then (r, 413) else last) w
          (λ _.
            if-Within quota full (r, 413) last w
              (λ free.
                after_create-Within a quota size reserved r.files made.0 made.1 target u.1 u.2
                  (ground (arith, w.stored, u.0))
                  (create-Grown digest a.store t name size body r.files)
                  (λ n.
                    present-create digest a.store t name size (limit_body size body) r.files
                      (ground (arith, free, n))))))

post_sized-Within :
    (digest : Content → Name) (max_blob : ℕ) (a : Answers) (quota : ℕ) (t : ObjectType)
    (name : Name) (size : Option ℕ) (body : Incoming) (r : Repo)
    → Within quota r
    → Within quota (post_sized digest max_blob a t name size body r).0
post_sized-Within digest max_blob a quota t name none body r w = w
post_sized-Within digest max_blob a quota t name (some size) body r w =
    post-Within digest max_blob a quota t name size body r w

deleted-Within :
    (a : Answers) (quota : ℕ) (r : Repo) (files : Files) (freed : ℕ) (o : Option StoreError)
    → Within quota r
    → Shrunk r.files (files, freed, o)
    → Within quota (deleted a r (files, freed, o)).0
unfolding release_usage
deleted-Within a quota r files freed none w s = record {
  same_quota = ground (arith, w.same_quota);
  stored = ground (arith, w.stored, s);
  within = ground (arith, w.within);
}
deleted-Within a quota r files freed (some e) w s = record {
  same_quota = w.same_quota;
  stored = ground (arith, w.stored, s);
  within = w.within;
}

delete-Within :
    (a : Answers) (quota : ℕ) (name : Name) (r : Repo)
    → Within quota r
    → Within quota (deleted a r (delete_lock a.store name r.files)).0
unfolding delete_lock
delete-Within a quota name r w =
    let x = delete_lock a.store name r.files in
    deleted-Within a quota r x.0 x.1 x.2 w
      (delete_on-Shrunk a.store (object_path locks name) r.files a.store.stat_fails)

handle-Within :
    (digest : Content → Name) (max_blob : ℕ) (a : Answers) (quota : ℕ) (q : Request) (r : Repo)
    → Within quota r
    → Within quota (handle digest max_blob a q r).0
unfolding handle
handle-Within digest max_blob a quota (post_config size body) r w =
    post_sized-Within digest max_blob a quota config (dir config) size body r w
handle-Within digest max_blob a quota (post_object t name size body) r w =
    grind (arith, w, post_sized-Within digest max_blob a quota t name size body r w)
handle-Within digest max_blob a quota get_config r w = w
handle-Within digest max_blob a quota (get_object t name) r w = grind (arith, w)
handle-Within digest max_blob a quota (head_object t name) r w = grind (arith, w)
handle-Within digest max_blob a quota (delete_object t name) r w =
    grind (arith, w, delete-Within a quota name r w)
handle-Within digest max_blob a quota delete_repo r w = w

-- Whatever the registry and the file system answer: where what is stored was accounted for and within the quota, it is
-- so after every sequence of requests. So a repository never stores more than its quota.
pub serve-Within :
    (digest : Content → Name) (max_blob quota : ℕ) (qs : List (Answers × Request)) (r : Repo)
    → Within quota r
    → Within quota (serve digest max_blob qs r)
unfolding serve
serve-Within digest max_blob quota [] r w = w
serve-Within digest max_blob quota ((a, q) ∷ qs) r w =
    handle-Within digest max_blob a quota q (serve digest max_blob qs r)
      (serve-Within digest max_blob quota qs r w)
