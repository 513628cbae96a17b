-- ===== src/Repository/Store.antt =====
-- pkg/restserver/diskstore.go and blobstore.go: the files of one repository. Each call is one step; what the
-- file system answers, and the bytes of a request's body, are given. SHA-256 in hexadecimal is a parameter.
use server_monitor.Common.{
  ℕ, ◌+◌, Bool, true, false, not, ltb, if◌then◌else◌, ◌==◌, Option, none, some, List, [], ◌∷◌,
  length, ℕ_discrete,
}
use server_monitor.Common.Assoc.{lookup, insert, delete}
use server_monitor.Repository.Paths.{Name, same, ObjectType, config, locks, FilePath, object_path}

abbrev pub Content : Type 0
Content = List ℕ

unfoldable pub FilePath-discrete : Discrete FilePath
FilePath-discrete = hlevel ℕ_discrete

-- The files of a repository by their paths; the temporary files of uploads are not among them.
abbrev pub Files : Type 0
Files = List (FilePath × Content)

pub data StoreError : Type 0 where
  err_exists err_identical err_corrupt err_not_found err_invalid_ref err_too_large err_io :
      StoreError

-- What the file system answers: whether looking a file up fails, whether writing or removing one does, and whether
-- opening one does.
pub record Faults : Type 0 where
  pub stat_fails : Bool
  pub write_fails : Bool
  pub open_fails : Bool

-- A body as it arrives: the bytes, or an error before its end, or more than was announced.
pub data Incoming : Type 0 where
  arrived : Content → Incoming
  broken : Incoming
  oversized : Incoming

-- http.MaxBytesReader at the announced length, over a body that net/http ends with an error where it is shorter.
unfoldable pub limit_body : ℕ → Incoming → Incoming
limit_body size (arrived bs) =
    if length bs == size then arrived bs else if ltb size (length bs) then oversized else broken
limit_body size broken = broken
limit_body size oversized = oversized

abbrev pub write_file : FilePath → Incoming → Bool → Files → Files × Option StoreError
write_file p (arrived bs) false files = (insert FilePath-discrete p bs files, none)
write_file p (arrived bs) true files = (files, some err_io)
write_file p broken fails files = (files, some err_io)
write_file p oversized fails files = (files, some err_too_large)

module _ (digest : Content → Name) where
  -- The end of classifyDuplicate, for a body that was read.
  unfoldable pub classify_read : ObjectType → Name → Content → Bool → Content → StoreError
  classify_read config name stored open_fails bs =
      if open_fails
      then err_exists
      else if same (digest stored) (digest bs)
      then err_identical
      else err_exists
  classify_read t name stored open_fails bs =
      if not (same (digest bs) name)
      then err_exists
      else if open_fails
      then err_exists
      else if same (digest stored) name
      then err_identical
      else err_corrupt

  -- classifyDuplicate, for a disk store, which verifies the stored digest.
  unfoldable pub classify_duplicate : ObjectType → Name → Incoming → ℕ → Content → Bool → StoreError
  classify_duplicate t name (arrived bs) size stored open_fails =
      if not (length stored == size)
      then err_exists
      else if not (length bs == size)
      then err_exists
      else classify_read t name stored open_fails bs
  classify_duplicate t name broken size stored open_fails = err_exists
  classify_duplicate t name oversized size stored open_fails = err_exists

  -- Create at a path.
  unfoldable pub create_at :
      Faults
      → ObjectType
      → Name
      → ℕ
      → Incoming
      → FilePath
      → Option Content
      → Files
      → Files × Option StoreError
  create_at f t name size body p (some stored) files =
      if f.stat_fails
      then (files, some err_io)
      else (files, some (classify_duplicate t name body size stored f.open_fails))
  create_at f t name size body p none files =
      if f.stat_fails then (files, some err_io) else write_file p body f.write_fails files

  -- Create; none is success.
  unfoldable pub create :
      Faults → ObjectType → Name → ℕ → Incoming → Files → Files × Option StoreError
  unfolding create_at
  create f t name size body files = elim (object_path t name) [
    | none ↦ (files, some err_invalid_ref)
    | some p ↦ create_at f t name size body p (lookup FilePath-discrete p files) files
  ]

-- Stat: the size, or the error.
unfoldable pub stat_object : Faults → ObjectType → Name → Files → ℕ × Option StoreError
stat_object f t name files = elim (object_path t name) [
  | none ↦ (0, some err_invalid_ref)
  | some p ↦ if f.stat_fails then (0, some err_io) else elim (lookup FilePath-discrete p files) [
    | none ↦ (0, some err_not_found)
    | some bs ↦ (length bs, none)
  ]
]

-- Open, and a read to the end.
unfoldable pub open_object : Faults → ObjectType → Name → Files → Option Content × Option StoreError
open_object f t name files = elim (object_path t name) [
  | none ↦ (none, some err_invalid_ref)
  | some p ↦ if f.open_fails then (none, some err_io) else elim (lookup FilePath-discrete p files) [
    | none ↦ (none, some err_not_found)
    | some bs ↦ (some bs, none)
  ]
]

abbrev pub remove_file : Faults → FilePath → Option Content → Files → Files × ℕ × Option StoreError
remove_file f p none files = (files, 0, none)
remove_file f p (some bs) files =
    if f.write_fails
    then (files, 0, some err_io)
    else (delete FilePath-discrete p files, length bs, none)

-- DeleteLock: the bytes that it freed, and the error if there is one.
unfoldable pub delete_lock : Faults → Name → Files → Files × ℕ × Option StoreError
delete_lock f name files = elim (object_path locks name) [
  | none ↦ (files, 0, some err_invalid_ref)
  | some p ↦
      if f.stat_fails
      then (files, 0, some err_io)
      else remove_file f p (lookup FilePath-discrete p files) files
]

-- RepoUsage, where the walk does not fail.
unfoldable pub repo_usage : Files → ℕ
repo_usage [] = 0
repo_usage ((p, bs) ∷ files) = length bs + repo_usage files
