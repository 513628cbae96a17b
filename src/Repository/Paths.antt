-- ===== src/Repository/Paths.antt =====
-- pkg/restserver/blobstore.go and diskstore.go: the names of objects, and the file of each. Text is its bytes.
use Prim.Native.Char.{code}
use Prim.Native.String.{String}
use server_monitor.Common.{
  ℕ, Bool, true, false, not, ◌&&◌, ◌||◌, leb, if◌then◌else◌, ◌==◌, Option, none, some, List, [],
  ◌∷◌, ite, ℕ_discrete, length, take,
}

abbrev pub codes : String → List ℕ
codes String.[] = []
codes (String.◌∷◌ c s) = code c ∷ codes s

abbrev pub Name : Type 0
Name = List ℕ

unfoldable pub Name-discrete : Discrete Name
Name-discrete = hlevel ℕ_discrete

abbrev pub same : Name → Name → Bool
same a b = ite (Name-discrete a b) true false

-- A character of nameRE.
abbrev pub name_char : ℕ → Bool
name_char c =
    leb b'a' c && leb c b'z'
    || leb b'A' c && leb c b'Z'
    || leb b'0' c && leb c b'9'
    || c == b'.'
    || c == b'_'
    || c == b'-'

abbrev pub all_name_chars : Name → Bool
all_name_chars [] = true
all_name_chars (c ∷ cs) = name_char c && all_name_chars cs

abbrev pub upload_temp_prefix : Name
upload_temp_prefix = codes ".upload-"

abbrev pub dot : Name
dot = b'.' ∷ []

abbrev pub dot_dot : Name
dot_dot = b'.' ∷ b'.' ∷ []

unfoldable pub is_upload_temp : Name → Bool
is_upload_temp s = same (take 8 s) upload_temp_prefix

unfoldable pub valid_name : Name → Bool
unfolding is_upload_temp
valid_name s =
    not (same s [] || same s dot || same s dot_dot || not (all_name_chars s) || is_upload_temp s)

-- The types of objects: the five of objectTypes, that of the configuration, and any other text.
pub data ObjectType : Type 0 where
  blobs index keys locks snapshots config other : ObjectType

abbrev pub valid_type : ObjectType → Bool
valid_type blobs = true
valid_type index = true
valid_type keys = true
valid_type locks = true
valid_type snapshots = true
valid_type config = false
valid_type other = false

abbrev pub deletable_type : ObjectType → Bool
deletable_type locks = true
deletable_type blobs = false
deletable_type index = false
deletable_type keys = false
deletable_type snapshots = false
deletable_type config = false
deletable_type other = false

-- The directory of a type.
unfoldable pub dir : ObjectType → Name
dir blobs = codes "data"
dir index = codes "index"
dir keys = codes "keys"
dir locks = codes "locks"
dir snapshots = codes "snapshots"
dir config = codes "config"
dir other = []

-- A path below the repository's directory, its last part first. filepath.Join drops empty and "." parts, and
-- a ".." takes the part before it away.
abbrev pub FilePath : Type 0
FilePath = List Name

abbrev pub pop : FilePath → FilePath
pop [] = []
pop (s ∷ p) = p

unfoldable pub push : Name → FilePath → FilePath
push s p =
    ite (Name-discrete s dot_dot) (pop p)
      (ite (Name-discrete s dot) p (ite (Name-discrete s []) p (s ∷ p)))

-- The parts that objectPath joins.
unfoldable pub join : List Name → FilePath → FilePath
unfolding push
join [] p = p
join (s ∷ ss) p = join ss (push s p)

abbrev pub parts : ObjectType → Name → List Name
parts blobs name =
    if leb 2 (length name) then dir blobs ∷ take 2 name ∷ name ∷ [] else dir blobs ∷ name ∷ []
parts index name = dir index ∷ name ∷ []
parts keys name = dir keys ∷ name ∷ []
parts locks name = dir locks ∷ name ∷ []
parts snapshots name = dir snapshots ∷ name ∷ []
parts config name = dir config ∷ []
parts other name = []

-- objectPath, without the root and the repository, whose name is valid; none is ErrInvalidRef.
unfoldable pub object_path : ObjectType → Name → Option FilePath
object_path config name = some (join (parts config name) [])
object_path other name = none
object_path blobs name = if valid_name name then some (join (parts blobs name) []) else none
object_path index name = if valid_name name then some (join (parts index name) []) else none
object_path keys name = if valid_name name then some (join (parts keys name) []) else none
object_path locks name = if valid_name name then some (join (parts locks name) []) else none
object_path snapshots name = if valid_name name then some (join (parts snapshots name) []) else none
