-- ===== src/Repository/Appending.antt =====
-- The files of a repository over sequences of requests.
use server_monitor.Common.{
  ℕ, ◌≡◌, ◌≢◌, refl, ap, ◌∙◌, arith, Bool, true, false, not, if◌then◌else◌, Option, none, some,
  List, [], ◌∷◌,
}
use server_monitor.Common.Assoc.{lookup, lookup-insert_ne, lookup-delete_ne}
use server_monitor.Repository.Paths.{
  Name, ObjectType, locks, config, valid_type, deletable_type, FilePath, object_path, dir,
}
use server_monitor.Repository.Injectivity.{object_path-injective}
use server_monitor.Repository.Store.{
  Content, FilePath-discrete, Files, StoreError, Faults, Incoming, arrived, broken, oversized,
  write_file, create_at, create, limit_body, delete_lock, remove_file,
}
use server_monitor.Repository.Requests.{
  Answers, Repo, reserve_usage, after_create, post, Request, post_config, post_object, get_config,
  get_object, head_object, delete_object, delete_repo, handle, deleted, post_sized,
}

-- A file has a content.
abbrev pub Holds : FilePath → Content → Files → Type 0
Holds p bs files = lookup FilePath-discrete p files ≡ some bs

write_file-Holds :
    (p q : FilePath) (bs : Content) (body : Incoming) (fails : Bool) (files : Files)
    → lookup FilePath-discrete q files ≡ none
    → Holds p bs files
    → Holds p bs (write_file q body fails files).0
write_file-Holds p q bs (arrived cs) true files n h = h
write_file-Holds p q bs broken fails files n h = h
write_file-Holds p q bs oversized fails files n h = h
write_file-Holds p q bs (arrived cs) false files n h =
    let ne : q ≢ p = λ e. ground (arith, e, n, h) in
    lookup-insert_ne FilePath-discrete q p cs files ne ∙ h

create_at-Holds :
    (digest : Content → Name) (f : Faults) (t : ObjectType) (name : Name) (size : ℕ)
    (body : Incoming) (p q : FilePath) (bs : Content) (o : Option Content) (files : Files)
    → lookup FilePath-discrete q files ≡ o
    → Holds p bs files
    → Holds p bs (create_at digest f t name size body q o files).0
unfolding create_at
create_at-Holds digest f t name size body p q bs (some stored) files e h = ground (arith, h)
create_at-Holds digest f t name size body p q bs none files e h =
    ground (arith, h, write_file-Holds p q bs body f.write_fails files e h)

create_on-Holds :
    (digest : Content → Name) (f : Faults) (t : ObjectType) (name : Name) (size : ℕ)
    (body : Incoming) (p : FilePath) (bs : Content) (o : Option FilePath) (files : Files)
    → Holds p bs files
    → Holds p bs
        (elim o as (λ _. Files × Option StoreError) [
          | none ↦ (files, some StoreError.err_invalid_ref)
          | some q ↦ create_at digest f t name size body q (lookup FilePath-discrete q files) files
        ]).0
create_on-Holds digest f t name size body p bs none files h = h
create_on-Holds digest f t name size body p bs (some q) files h =
    create_at-Holds digest f t name size body p q bs (lookup FilePath-discrete q files) files refl h

create-Holds :
    (digest : Content → Name) (f : Faults) (t : ObjectType) (name : Name) (size : ℕ)
    (body : Incoming) (p : FilePath) (bs : Content) (files : Files)
    → Holds p bs files
    → Holds p bs (create digest f t name size body files).0
unfolding create
create-Holds digest f t name size body p bs files h =
    create_on-Holds digest f t name size body p bs (object_path t name) files h

after_create-files :
    (a : Answers) (reserved : Bool) (size : ℕ) (r : Repo) (files : Files) (o : Option StoreError)
    → (after_create a reserved size r (files, o)).0.files ≡ files
unfolding after_create
after_create-files a reserved size r files none = refl
after_create-files a reserved size r files (some e) = ground arith

post-Holds :
    (digest : Content → Name) (max_blob : ℕ) (a : Answers) (t : ObjectType) (name : Name)
    (size : Option ℕ) (body : Incoming) (p : FilePath) (bs : Content) (r : Repo)
    → Holds p bs r.files
    → Holds p bs (post_sized digest max_blob a t name size body r).0.files
unfolding post
post-Holds digest max_blob a t name none body p bs r h = h
post-Holds digest max_blob a t name (some size) body p bs r h =
    let target = (reserve_usage a.reserve_fails size r.target).0 in
    let reserved = (reserve_usage a.reserve_fails size r.target).1 in
    let made = create digest a.store t name size (limit_body size body) r.files in
    ground (
      arith,
      h,
      after_create-files a reserved size (record r { target = target }) made.0 made.1,
      create-Holds digest a.store t name size (limit_body size body) p bs r.files h,
    )

remove_file-Holds :
    (f : Faults) (p q : FilePath) (bs : Content) (o : Option Content) (files : Files)
    → q ≢ p
    → Holds p bs files
    → Holds p bs (remove_file f q o files).0
remove_file-Holds f p q bs none files ne h = h
remove_file-Holds f p q bs (some cs) files ne h =
    ground (arith, h, lookup-delete_ne FilePath-discrete q p files ne)

delete_on-Holds :
    (f : Faults) (p : FilePath) (bs : Content) (o : Option FilePath) (files : Files)
    → o ≢ some p
    → Holds p bs files
    → Holds p bs
        (elim o as (λ _. Files × ℕ × Option StoreError) [
          | none ↦ (files, 0, some StoreError.err_invalid_ref)
          | some q ↦
              if f.stat_fails
              then (files, 0, some StoreError.err_io)
              else remove_file f q (lookup FilePath-discrete q files) files
        ]).0
delete_on-Holds f p bs none files ne h = h
delete_on-Holds f p bs (some q) files ne h =
    let ne' : q ≢ p = λ e. ne (ap some e) in
    ground (arith, h, remove_file-Holds f p q bs (lookup FilePath-discrete q files) files ne' h)

delete_lock-Holds :
    (f : Faults) (name : Name) (p : FilePath) (bs : Content) (files : Files)
    → object_path locks name ≢ some p
    → Holds p bs files
    → Holds p bs (delete_lock f name files).0
unfolding delete_lock
delete_lock-Holds f name p bs files ne h =
    delete_on-Holds f p bs (object_path locks name) files ne h

deleted-files :
    (a : Answers) (r : Repo) (x : Files × ℕ × Option StoreError) → (deleted a r x).0.files ≡ x.0
deleted-files a r (files, freed, none) = refl
deleted-files a r (files, freed, some e) = refl

delete-Holds :
    (a : Answers) (t : ObjectType) (name : Name) (p : FilePath) (bs : Content) (r : Repo)
    → object_path locks name ≢ some p
    → Holds p bs r.files
    → Holds p bs
        (if not (valid_type t)
          then (r, 404)
          else if not (deletable_type t)
          then (r, 403)
          else deleted a r (delete_lock a.store name r.files)).0.files
delete-Holds a t name p bs r ne h = ground (
  arith,
  h,
  deleted-files a r (delete_lock a.store name r.files),
  delete_lock-Holds a.store name p bs r.files ne h,
)

handle-Holds :
    (digest : Content → Name) (max_blob : ℕ) (a : Answers) (q : Request) (p : FilePath)
    (bs : Content) (r : Repo)
    → ((name : Name) → object_path locks name ≢ some p)
    → Holds p bs r.files
    → Holds p bs (handle digest max_blob a q r).0.files
unfolding handle
handle-Holds digest max_blob a (post_config size body) p bs r ne h =
    post-Holds digest max_blob a config (dir config) size body p bs r h
handle-Holds digest max_blob a (post_object t name size body) p bs r ne h =
    ground (arith, h, post-Holds digest max_blob a t name size body p bs r h)
handle-Holds digest max_blob a get_config p bs r ne h = h
handle-Holds digest max_blob a (get_object t name) p bs r ne h = ground (arith, h)
handle-Holds digest max_blob a (head_object t name) p bs r ne h = ground (arith, h)
handle-Holds digest max_blob a (delete_object t name) p bs r ne h =
    delete-Holds a t name p bs r (ne name) h
handle-Holds digest max_blob a delete_repo p bs r ne h = h

-- Requests with what the registry and the file system answer to them, the latest first.
unfoldable pub serve : (Content → Name) → ℕ → List (Answers × Request) → Repo → Repo
serve digest max_blob [] r = r
serve digest max_blob ((a, q) ∷ qs) r = (handle digest max_blob a q (serve digest max_blob qs r)).0

-- An object that is not a lock keeps its content under every sequence of requests, whatever fails.
pub serve-keeps :
    (digest : Content → Name) (max_blob : ℕ) (qs : List (Answers × Request)) (t : ObjectType)
    (name : Name) (p : FilePath) (bs : Content) (r : Repo)
    → t ≢ locks
    → object_path t name ≡ some p
    → lookup FilePath-discrete p r.files ≡ some bs
    → lookup FilePath-discrete p (serve digest max_blob qs r).files ≡ some bs
unfolding serve
serve-keeps digest max_blob [] t name p bs r ne e h = h
serve-keeps digest max_blob ((a, q) ∷ qs) t name p bs r ne e h =
    handle-Holds digest max_blob a q p bs (serve digest max_blob qs r)
      (λ lock e'. ne (object_path-injective t locks name lock p e e').0)
      (serve-keeps digest max_blob qs t name p bs r ne e h)
