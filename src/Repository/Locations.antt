-- ===== src/Repository/Locations.antt =====
-- Where objectPath puts the file of each object.
use mathlib.Core.Path.{subst}
use server_monitor.Common.{
  ◌<◌, sym, ◌≡◌, ◌≢◌, ◌⊎◌, inl, inr, refl, ap, ◌∙◌, ℕ_discrete, arith, Bool, true, false, leb,
  if◌then◌else◌, none, some, [], ◌∷◌, length, take,
}
use server_monitor.Repository.Paths.{
  Name, Name-discrete, dot_dot, valid_name, ObjectType, blobs, index, keys, locks, snapshots,
  config, other, dir, FilePath, push, join, object_path, pop,
}

-- The three ways to lay out a file: in a directory of its type, in a fan-out directory of the data, or, where the
-- fan-out would be "..", in the repository's directory.
abbrev pub Located : ObjectType → Name → FilePath → Type 0
Located blobs name p =
    ((p ≡ name ∷ dir blobs ∷ []) × (length name < 2))
    ⊎ ((p ≡ name ∷ take 2 name ∷ dir blobs ∷ []) ⊎ ((p ≡ name ∷ []) × (take 2 name ≡ dot_dot)))
Located config name p = p ≡ dir config ∷ []
Located other name p = ⊥
Located index name p = p ≡ name ∷ dir index ∷ []
Located keys name p = p ≡ name ∷ dir keys ∷ []
Located locks name p = p ≡ name ∷ dir locks ∷ []
Located snapshots name p = p ≡ name ∷ dir snapshots ∷ []

-- A valid name is a part of its own.
push-valid_name : (name : Name) (p : FilePath) → valid_name name ≡ true → push name p ≡ name ∷ p
unfolding push valid_name
push-valid_name name p h = ground arith

-- So is the directory of a type.
push-dir : (t : ObjectType) → t ≢ other → push (dir t) [] ≡ dir t ∷ []
unfolding push dir Name-discrete ℕ_discrete
push-dir blobs h = refl
push-dir index h = refl
push-dir keys h = refl
push-dir locks h = refl
push-dir snapshots h = refl
push-dir config h = refl
push-dir other h = absurd (h refl)

-- A file in the directory of its type.
join-dir :
    (t : ObjectType) (name : Name)
    → t ≢ other
    → valid_name name ≡ true
    → join (dir t ∷ name ∷ []) [] ≡ name ∷ dir t ∷ []
unfolding join
join-dir t name h v = ap (push name) (push-dir t h) ∙ push-valid_name name (dir t ∷ []) v

join-config : join (dir config ∷ []) [] ≡ dir config ∷ []
unfolding join
join-config = push-dir config (λ e. ground arith)

some_if :
    {A : Type 0} (b : Bool) (a p : A) → (if b then some a else none) ≡ some p → (b ≡ true) × (p ≡ a)
some_if true a p h = (refl, ground arith)
some_if false a p h = absurd (ground arith)

in_dir :
    (t : ObjectType) (name : Name) (p : FilePath)
    → t ≢ other
    → (if valid_name name then some (join (dir t ∷ name ∷ []) []) else none) ≡ some p
    → p ≡ name ∷ dir t ∷ []
in_dir t name p ne h =
    let r = some_if (valid_name name) (join (dir t ∷ name ∷ []) []) p h in
    r.1 ∙ join-dir t name ne r.0

push-dot_dot : (s : Name) (p : FilePath) → s ≡ dot_dot → push s p ≡ pop p
unfolding push
push-dot_dot s p e = ground arith

-- A fan-out directory is two characters of a name.
push-take :
    (name : Name) (p : FilePath)
    → take 2 name ≢ dot_dot
    → leb 2 (length name) ≡ true
    → push (take 2 name) p ≡ take 2 name ∷ p
unfolding push
push-take [] p ne h = absurd (ground arith)
push-take (a ∷ []) p ne h = absurd (ground arith)
push-take (a ∷ b ∷ cs) p ne h = ground arith

join_fan :
    (name : Name)
    → valid_name name ≡ true
    → leb 2 (length name) ≡ true
    → Located blobs name (join (dir blobs ∷ take 2 name ∷ name ∷ []) [])
unfolding join
join_fan name v l = elim (Name-discrete (take 2 name) dot_dot) [
  | yes e ↦ inr (
      inr (
        ap (λ q. push name (push (take 2 name) q)) (push-dir blobs (λ o. ground arith))
            ∙ ap (push name) (push-dot_dot (take 2 name) (dir blobs ∷ []) e)
            ∙ push-valid_name name [] v,
        e,
      ))
  | no ne ↦ inr (
      inl (
        ap (λ q. push name (push (take 2 name) q)) (push-dir blobs (λ o. ground arith))
        ∙ ap (push name) (push-take name (dir blobs ∷ []) ne l)
        ∙ push-valid_name name (take 2 name ∷ dir blobs ∷ []) v))
]

in_data :
    (name : Name) (p : FilePath) (long : Bool)
    → leb 2 (length name) ≡ long
    → (if valid_name name
        then some
            (join (if long then dir blobs ∷ take 2 name ∷ name ∷ [] else dir blobs ∷ name ∷ []) [])
        else none)
      ≡ some p
    → Located blobs name p
in_data name p false e h = inl (in_dir blobs name p (λ o. ground arith) h, ground (arith, e))
in_data name p true e h =
    let r = some_if (valid_name name) (join (dir blobs ∷ take 2 name ∷ name ∷ []) []) p h in
    subst (Located blobs name) (sym r.1) (join_fan name r.0 e)

pub object_path-Located :
    (t : ObjectType) (name : Name) (p : FilePath) → object_path t name ≡ some p → Located t name p
unfolding object_path
object_path-Located config name p h = (some_if true (join (dir config ∷ []) []) p h).1 ∙ join-config
object_path-Located other name p h = ground arith
object_path-Located blobs name p h = in_data name p (leb 2 (length name)) refl h
object_path-Located index name p h = in_dir index name p (λ e. ground arith) h
object_path-Located keys name p h = in_dir keys name p (λ e. ground arith) h
object_path-Located locks name p h = in_dir locks name p (λ e. ground arith) h
object_path-Located snapshots name p h = in_dir snapshots name p (λ e. ground arith) h
