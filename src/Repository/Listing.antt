-- ===== src/Repository/Listing.antt =====
-- List in pkg/restserver/diskstore.go, and handleList in server.go: which files a listing gives. The files come in
-- their own order, not in that of their names.
use mathlib.Core.List.{Memᴰ}
use server_monitor.Common.{
  ℕ, ◌<◌, ◌≡◌, ◌≢◌, ◌⊎◌, inl, inr, refl, ap, ◌∙◌, arith, true, false, not, ◌&&◌, if◌then◌else◌,
  Option, none, some, List, [], ◌∷◌, length, take,
}
use server_monitor.Common.Assoc.{lookup}
use server_monitor.Repository.Paths.{
  Name, same, dot_dot, ObjectType, blobs, index, keys, locks, snapshots, config, other, valid_type,
  valid_name, is_upload_temp, dir, FilePath, object_path,
}
use server_monitor.Repository.Store.{
  Content, FilePath-discrete, Files, StoreError, err_invalid_ref, err_io, Faults,
}
use server_monitor.Repository.Locations.{Located, object_path-Located}

abbrev pub entry : ObjectType → Name → Name → Option Name
entry t d name = if same d (dir t) && not (is_upload_temp name) then some name else none

-- The name under which the loops of List give a file: for data in a directory of a directory, else in the directory.
unfoldable pub listed_name : ObjectType → FilePath → Option Name
listed_name blobs [] = none
listed_name blobs (name ∷ []) = none
listed_name blobs (name ∷ fan ∷ []) = none
listed_name blobs (name ∷ fan ∷ d ∷ []) = entry blobs d name
listed_name blobs (name ∷ fan ∷ d ∷ e ∷ p) = none
listed_name t [] = none
listed_name t (name ∷ []) = none
listed_name t (name ∷ d ∷ []) = entry t d name
listed_name t (name ∷ d ∷ e ∷ p) = none

abbrev pub onto : Option Name → ℕ → List (Name × ℕ) → List (Name × ℕ)
onto none size infos = infos
onto (some name) size infos = (name, size) ∷ infos

unfoldable pub list_files : ObjectType → Files → List (Name × ℕ)
list_files t [] = []
list_files t ((p, bs) ∷ files) = onto (listed_name t p) (length bs) (list_files t files)

-- List, and the error if there is one.
unfoldable pub list_objects : Faults → ObjectType → Files → List (Name × ℕ) × Option StoreError
list_objects f t files =
    if not (valid_type t)
    then ([], some err_invalid_ref)
    else if f.stat_fails
    then ([], some err_io)
    else (list_files t files, none)

onto-Memᴰ :
    (x : Name × ℕ) (o : Option Name) (size : ℕ) (infos : List (Name × ℕ))
    → Memᴰ x infos
    → Memᴰ x (onto o size infos)
onto-Memᴰ x none size infos h = h
onto-Memᴰ x (some name) size infos h = Memᴰ.tail h

list_files-Memᴰ :
    (t : ObjectType) (name : Name) (p : FilePath) (bs : Content) (files : Files)
    → listed_name t p ≡ some name
    → lookup FilePath-discrete p files ≡ some bs
    → Memᴰ (name, length bs) (list_files t files)
unfolding list_files lookup
list_files-Memᴰ t name p bs [] e h = absurd (ground (arith, h))
list_files-Memᴰ t name p bs ((q, cs) ∷ files) e h = elim (FilePath-discrete q p) [
  | yes same_path ↦
      let named : listed_name t q ≡ some name = ap (listed_name t) same_path ∙ e in
      rw named (Memᴰ.head (ap (λ n. (name, n)) (ap length (ground (arith, h, same_path)))))
  | no ne ↦
      onto-Memᴰ (name, length bs) (listed_name t q) (length cs) (list_files t files)
        (list_files-Memᴰ t name p bs files e (ground (arith, h, ne)))
]

-- A valid name is no upload's, so a file in its directory is listed.
entry-dir :
    (t : ObjectType) (name : Name) → valid_name name ≡ true → entry t (dir t) name ≡ some name
unfolding valid_name
entry-dir t name v = ground (arith, v)

object_path-valid_name :
    (t : ObjectType) (name : Name) (p : FilePath)
    → t ≢ config
    → object_path t name ≡ some p
    → valid_name name ≡ true
unfolding object_path
object_path-valid_name config name p ne e = absurd (ne refl)
object_path-valid_name other name p ne e = absurd (ground (arith, e))
object_path-valid_name blobs name p ne e = ground (arith, e)
object_path-valid_name index name p ne e = ground (arith, e)
object_path-valid_name keys name p ne e = ground (arith, e)
object_path-valid_name locks name p ne e = ground (arith, e)
object_path-valid_name snapshots name p ne e = ground (arith, e)

-- The names of data objects that have no directory of their first two characters.
abbrev pub Unlisted : ObjectType → Name → Type 0
Unlisted t name = (t ≡ blobs) × ((length name < 2) ⊎ (take 2 name ≡ dot_dot))

listed_name-Located :
    (t : ObjectType) (name : Name) (p : FilePath)
    → t ≢ config
    → valid_name name ≡ true
    → Located t name p
    → (listed_name t p ≡ some name) ⊎ Unlisted t name
unfolding listed_name
listed_name-Located config name p ne v h = absurd (ne refl)
listed_name-Located other name p ne v h = absurd h
listed_name-Located index name p ne v h = inl (ap (listed_name index) h ∙ entry-dir index name v)
listed_name-Located keys name p ne v h = inl (ap (listed_name keys) h ∙ entry-dir keys name v)
listed_name-Located locks name p ne v h = inl (ap (listed_name locks) h ∙ entry-dir locks name v)
listed_name-Located snapshots name p ne v h =
    inl (ap (listed_name snapshots) h ∙ entry-dir snapshots name v)
listed_name-Located blobs name p ne v (inr (inl h)) =
    inl (ap (listed_name blobs) h ∙ entry-dir blobs name v)
listed_name-Located blobs name p ne v (inr (inr (h, d))) = inr (refl, inr d)
listed_name-Located blobs name p ne v (inl (h, l)) = inr (refl, inl l)

object_path-valid_type :
    (t : ObjectType) (name : Name) (p : FilePath)
    → t ≢ config
    → object_path t name ≡ some p
    → valid_type t ≡ true
unfolding object_path
object_path-valid_type config name p ne e = absurd (ne refl)
object_path-valid_type other name p ne e = absurd (ground (arith, e))
object_path-valid_type blobs name p ne e = refl
object_path-valid_type index name p ne e = refl
object_path-valid_type keys name p ne e = refl
object_path-valid_type locks name p ne e = refl
object_path-valid_type snapshots name p ne e = refl

list_objects-list_files :
    (f : Faults) (t : ObjectType) (files : Files)
    → valid_type t ≡ true
    → f.stat_fails ≡ false
    → (list_objects f t files).0 ≡ list_files t files
unfolding list_objects
list_objects-list_files f t files v n = ground (arith, v, n)

-- An object that is not the configuration is in every listing of its type that does not fail, with its name and size,
-- unless it is a data object whose name is shorter than two characters or starts with two dots.
pub list_objects_complete :
    (f : Faults) (t : ObjectType) (name : Name) (p : FilePath) (bs : Content) (files : Files)
    → t ≢ config
    → f.stat_fails ≡ false
    → object_path t name ≡ some p
    → lookup FilePath-discrete p files ≡ some bs
    → Memᴰ (name, length bs) (list_objects f t files).0 ⊎ Unlisted t name
list_objects_complete f t name p bs files ne n e h =
    elim (listed_name-Located t name p ne (object_path-valid_name t name p ne e)
      (object_path-Located t name p e)) [
        | inl l ↦ inl (
            rw (list_objects-list_files f t files (object_path-valid_type t name p ne e) n)
              (list_files-Memᴰ t name p bs files l h))
        | inr u ↦ inr u
      ]
