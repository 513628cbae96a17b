-- ===== src/Repository/Usage.antt =====
-- The usage of the files of a repository: what Create and Delete do to it.
use server_monitor.Common.{
  ℕ, ◌+◌, ◌≤◌, ◌≡◌, refl, arith, Bool, true, false, ltb, ◌==◌, if◌then◌else◌, Option, none, some,
  [], ◌∷◌, length, is_some,
}
use server_monitor.Common.Assoc.{lookup, insert, delete}
use server_monitor.Repository.Paths.{Name, ObjectType, FilePath, object_path}
use server_monitor.Repository.Store.{
  Content, FilePath-discrete, Files, StoreError, err_invalid_ref, err_io, Faults, Incoming, arrived,
  broken, oversized, limit_body, write_file, create_at, create, remove_file, repo_usage,
  stat_object, classify_duplicate,
}

repo_usage-insert :
    (p : FilePath) (bs : Content) (files : Files)
    → lookup FilePath-discrete p files ≡ none
    → repo_usage (insert FilePath-discrete p bs files) ≡ length bs + repo_usage files
unfolding repo_usage insert lookup
repo_usage-insert p bs [] n = refl
repo_usage-insert p bs ((q, cs) ∷ files) n = ground (arith, n, repo_usage-insert p bs files)

repo_usage-delete-le :
    (p : FilePath) (files : Files)
    → repo_usage (delete FilePath-discrete p files) ≤ repo_usage files
unfolding repo_usage delete
repo_usage-delete-le p [] = omega arith
repo_usage-delete-le p ((q, cs) ∷ files) = ground (arith, repo_usage-delete-le p files)

repo_usage-delete :
    (p : FilePath) (bs : Content) (files : Files)
    → lookup FilePath-discrete p files ≡ some bs
    → repo_usage (delete FilePath-discrete p files) + length bs ≤ repo_usage files
unfolding repo_usage delete lookup
repo_usage-delete p bs [] e = absurd (ground arith)
repo_usage-delete p bs ((q, cs) ∷ files) e =
    ground (arith, e, repo_usage-delete-le p files, repo_usage-delete p bs files)

-- What Create does to the usage: it is the announced size more, or the files are the same.
abbrev pub Grown : ℕ → Files → Files × Option StoreError → Type 0
Grown size files (files', none) = repo_usage files' ≡ repo_usage files + size
Grown size files (files', some e) = files' ≡ files

if-Grown :
    (size : ℕ) (files : Files) (b : Bool) (x y : Files × Option StoreError)
    → Grown size files x
    → Grown size files y
    → Grown size files (if b then x else y)
if-Grown size files true x y g h = g
if-Grown size files false x y g h = h

limited-Grown :
    (p : FilePath) (size : ℕ) (bs : Content) (fits long fails : Bool) (files : Files)
    → (fits ≡ true → length bs ≡ size)
    → lookup FilePath-discrete p files ≡ none
    → Grown size files
        (write_file p (if fits then arrived bs else if long then oversized else broken) fails files)
limited-Grown p size bs true long false files e n =
    omega (arith, repo_usage-insert p bs files n, e refl)
limited-Grown p size bs true long true files e n = refl
limited-Grown p size bs false true fails files e n = refl
limited-Grown p size bs false false fails files e n = refl

write_file-Grown :
    (p : FilePath) (size : ℕ) (body : Incoming) (fails : Bool) (files : Files)
    → lookup FilePath-discrete p files ≡ none
    → Grown size files (write_file p (limit_body size body) fails files)
unfolding limit_body
write_file-Grown p size (arrived bs) fails files n =
    limited-Grown p size bs (length bs == size) (ltb size (length bs)) fails files
      (λ e. ground (arith, e)) n
write_file-Grown p size broken fails files n = refl
write_file-Grown p size oversized fails files n = refl

create_at-Grown :
    (digest : Content → Name) (f : Faults) (t : ObjectType) (name : Name) (size : ℕ)
    (body : Incoming) (p : FilePath) (o : Option Content) (files : Files)
    → lookup FilePath-discrete p files ≡ o
    → Grown size files (create_at digest f t name size (limit_body size body) p o files)
unfolding create_at
create_at-Grown digest f t name size body p (some stored) files e =
    if-Grown size files f.stat_fails (files, some err_io)
      (
        files,
        some (classify_duplicate digest t name (limit_body size body) size stored f.open_fails),
      )
      refl refl
create_at-Grown digest f t name size body p none files e =
    if-Grown size files f.stat_fails (files, some err_io)
      (write_file p (limit_body size body) f.write_fails files) refl
      (write_file-Grown p size body f.write_fails files e)

create_on-Grown :
    (digest : Content → Name) (f : Faults) (t : ObjectType) (name : Name) (size : ℕ)
    (body : Incoming) (o : Option FilePath) (files : Files)
    → Grown size files (elim o as (λ _. Files × Option StoreError) [
      | none ↦ (files, some err_invalid_ref)
      | some q ↦
          create_at digest f t name size
            (limit_body size body)
            q
            (lookup FilePath-discrete q files)
            files
    ])
create_on-Grown digest f t name size body none files = refl
create_on-Grown digest f t name size body (some q) files =
    create_at-Grown digest f t name size body q (lookup FilePath-discrete q files) files refl

pub create-Grown :
    (digest : Content → Name) (f : Faults) (t : ObjectType) (name : Name) (size : ℕ)
    (body : Incoming) (files : Files)
    → Grown size files (create digest f t name size (limit_body size body) files)
unfolding create
create-Grown digest f t name size body files =
    create_on-Grown digest f t name size body (object_path t name) files

-- Nothing is created where Stat finds an object.
pub present-create :
    (digest : Content → Name) (f : Faults) (t : ObjectType) (name : Name) (size : ℕ)
    (body : Incoming) (files : Files)
    → is_some (stat_object f t name files).1 ≡ false
    → is_some (create digest f t name size body files).1 ≡ true
unfolding create stat_object create_at
present-create digest f t name size body files h = ground arith

-- What a deletion frees.
abbrev pub Shrunk : Files → Files × ℕ × Option StoreError → Type 0
Shrunk files (files', freed, none) = repo_usage files' + freed ≤ repo_usage files
Shrunk files (files', freed, some e) = files' ≡ files

remove_file-Shrunk :
    (f : Faults) (p : FilePath) (o : Option Content) (files : Files)
    → lookup FilePath-discrete p files ≡ o
    → Shrunk files (remove_file f p o files)
remove_file-Shrunk f p none files e = omega arith
remove_file-Shrunk f p (some bs) files e =
    elim f.write_fails
      as (λ b. Shrunk files (
        if b
        then (files, 0, some err_io)
        else (delete FilePath-discrete p files, length bs, none))) [
          | true ↦ refl
          | false ↦ repo_usage-delete p bs files e
        ]

pub delete_on-Shrunk :
    (f : Faults) (o : Option FilePath) (files : Files) (down : Bool)
    → Shrunk files (elim o as (λ _. Files × ℕ × Option StoreError) [
      | none ↦ (files, 0, some err_invalid_ref)
      | some q ↦
          if down
          then (files, 0, some err_io)
          else remove_file f q (lookup FilePath-discrete q files) files
    ])
delete_on-Shrunk f none files down = refl
delete_on-Shrunk f (some q) files true = refl
delete_on-Shrunk f (some q) files false =
    remove_file-Shrunk f q (lookup FilePath-discrete q files) files refl
