-- ===== src/Repository/Injectivity.antt =====
-- The files of different objects (objectPath).
use mathlib.Core.Logic.{if_pos, if_neg}
use server_monitor.Common.{
  ◌≡◌, ◌≢◌, ◌⊎◌, inl, inr, refl, sym, ap, ◌∙◌, arith, ℕ_discrete, Option, none, some, [], ◌∷◌, ite,
  take,
}
use server_monitor.Repository.Paths.{
  Name, Name-discrete, dot_dot, ObjectType, blobs, index, keys, locks, snapshots, config, other,
  dir, FilePath, object_path,
}
use server_monitor.Repository.Locations.{Located, object_path-Located}

-- The type whose directory a name is.
abbrev type_of_dir : Name → Option ObjectType
type_of_dir d = ite (Name-discrete d (dir index)) (some index) (
    ite (Name-discrete d (dir keys)) (some keys) (
      ite (Name-discrete d (dir locks)) (some locks)
        (ite (Name-discrete d (dir snapshots)) (some snapshots) (some blobs))))

-- The type of the object that a file is.
type_of : FilePath → Option ObjectType
type_of [] = none
type_of (n ∷ []) = ite (Name-discrete n (dir config)) (some config) (some blobs)
type_of (n ∷ d ∷ []) = type_of_dir d
type_of (n ∷ f ∷ d ∷ p) = some blobs

type_of-dir :
    (t : ObjectType) (n : Name) → t ≢ other → t ≢ config → type_of (n ∷ dir t ∷ []) ≡ some t
unfolding type_of dir Name-discrete ℕ_discrete
type_of-dir blobs n h k = refl
type_of-dir index n h k = refl
type_of-dir keys n h k = refl
type_of-dir locks n h k = refl
type_of-dir snapshots n h k = refl
type_of-dir config n h k = absurd (k refl)
type_of-dir other n h k = absurd (h refl)

config_not_dotted : (n : Name) → take 2 n ≡ dot_dot → n ≢ dir config
unfolding dir
config_not_dotted n e h = ground arith

type_of-dotted : (n : Name) → take 2 n ≡ dot_dot → type_of (n ∷ []) ≡ some blobs
unfolding type_of
type_of-dotted n e =
    if_neg (Name-discrete n (dir config)) (config_not_dotted n e) (some config) (some blobs)

type_of-config : type_of (dir config ∷ []) ≡ some config
unfolding type_of
type_of-config = if_pos (Name-discrete (dir config) (dir config)) refl (some config) (some blobs)

type_of_fan : (n f d : Name) → type_of (n ∷ f ∷ d ∷ []) ≡ some blobs
unfolding type_of
type_of_fan n f d = refl

ObjectType-discrete : Discrete ObjectType
ObjectType-discrete = hlevel

Located-type_of : (t : ObjectType) (n : Name) (p : FilePath) → Located t n p → type_of p ≡ some t
Located-type_of blobs n p (inl (e, l)) =
    ap type_of e ∙ type_of-dir blobs n (λ o. ground arith) (λ o. ground arith)
Located-type_of blobs n p (inr (inl e)) = ap type_of e ∙ type_of_fan n (take 2 n) (dir blobs)
Located-type_of blobs n p (inr (inr (e, d))) = ap type_of e ∙ type_of-dotted n d
Located-type_of index n p e =
    ap type_of e ∙ type_of-dir index n (λ o. ground arith) (λ o. ground arith)
Located-type_of keys n p e =
    ap type_of e ∙ type_of-dir keys n (λ o. ground arith) (λ o. ground arith)
Located-type_of locks n p e =
    ap type_of e ∙ type_of-dir locks n (λ o. ground arith) (λ o. ground arith)
Located-type_of snapshots n p e =
    ap type_of e ∙ type_of-dir snapshots n (λ o. ground arith) (λ o. ground arith)
Located-type_of other n p e = elim e [ ]
Located-type_of config n p e = ap type_of e ∙ type_of-config

abbrev name_of : FilePath → Name
name_of [] = []
name_of (n ∷ p) = n

Located-name_of :
    (t : ObjectType) (n : Name) (p : FilePath) → t ≢ config → Located t n p → name_of p ≡ n
Located-name_of blobs n p h (inl (e, l)) = ap name_of e
Located-name_of blobs n p h (inr (inl e)) = ap name_of e
Located-name_of blobs n p h (inr (inr (e, d))) = ap name_of e
Located-name_of index n p h e = ap name_of e
Located-name_of keys n p h e = ap name_of e
Located-name_of locks n p h e = ap name_of e
Located-name_of snapshots n p h e = ap name_of e
Located-name_of other n p h e = elim e [ ]
Located-name_of config n p h e = absurd (h refl)

-- Two objects with the same file have the same type, and the same name unless they are the configuration.
pub object_path-injective :
    (t t' : ObjectType) (name name' : Name) (p : FilePath)
    → object_path t name ≡ some p
    → object_path t' name' ≡ some p
    → (t ≡ t') × ((t ≡ config) ⊎ (name ≡ name'))
object_path-injective t t' name name' p h h' =
    let l = object_path-Located t name p h in
    let l' = object_path-Located t' name' p h' in
    let e : t ≡ t' = ground (arith, Located-type_of t name p l, Located-type_of t' name' p l') in
    (
      e,
      elim (ObjectType-discrete t config) [
        | yes c ↦ inl c
        | no nc ↦
            inr (
              sym (Located-name_of t name p nc l) ∙ Located-name_of t' name' p (λ c. nc (e ∙ c)) l')
      ],
    )
