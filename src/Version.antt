-- ===== src/Version.antt =====
-- pkg/version/version.go: the order of versions. Text is its bytes; a number of strconv.Atoi is an int64,
-- here with 2 ^ 63 added, so that the order of the numbers is theirs.
pub mod Laws
pub mod Order
use server_monitor.Common.{
  ℕ, zero, suc, ◌+◌, ◌-◌, ◌*◌, Bool, true, false, not, ◌&&◌, ◌||◌, ltb, leb, if◌then◌else◌, ◌==◌,
  Option, none, some, List, [], ◌∷◌, ite, length, drop,
}
use server_monitor.Common.Int64.{two63}
use server_monitor.Repository.Paths.{Name, Name-discrete, same}

-- The results -1, 0 and 1.
pub data Cmp : Type 0 where
  less equal greater : Cmp

abbrev pub cmp_nat : ℕ → ℕ → Cmp
cmp_nat a b = if a == b then equal else if ltb a b then less else greater

-- The order of strings: by their bytes.
unfoldable pub cmp_text : Name → Name → Cmp
cmp_text [] [] = equal
cmp_text [] (b ∷ bs) = less
cmp_text (a ∷ as') [] = greater
cmp_text (a ∷ as') (b ∷ bs) = elim (cmp_nat a b) [
  | less ↦ less
  | greater ↦ greater
  | equal ↦ cmp_text as' bs
]

-- strconv.Atoi: an optional sign, and digits.
abbrev pub digits : Name → ℕ → Option ℕ
digits [] n = some n
digits (c ∷ cs) n = if leb b'0' c && leb c b'9' then digits cs (10 * n + (c - b'0')) else none

abbrev pub number : Name → Option ℕ
number [] = none
number (c ∷ cs) = digits (c ∷ cs) 0

abbrev pub in_range : Bool → Option ℕ → Option ℕ
in_range negative none = none
in_range true (some n) = if leb n two63 then some (two63 - n) else none
in_range false (some n) = if ltb n two63 then some (two63 + n) else none

unfoldable pub atoi : Name → Option ℕ
atoi [] = none
atoi (c ∷ cs) =
    if c == b'-'
    then in_range true (number cs)
    else if c == b'+'
    then in_range false (number cs)
    else in_range false (number (c ∷ cs))

-- The text before the first byte c, and the text after it, if there is one.
unfoldable pub cut : ℕ → Name → Name × Name
cut c [] = ([], [])
cut c (x ∷ xs) = let (before, after) = cut c xs in if x == c then ([], xs) else (x ∷ before, after)

-- strings.Split: there is always a first part.
abbrev pub onto_first : ℕ → List Name → List Name
onto_first x [] = (x ∷ []) ∷ []
onto_first x (p ∷ ps) = (x ∷ p) ∷ ps

unfoldable pub split : ℕ → Name → List Name
split c [] = [] ∷ []
split c (x ∷ xs) = let rest = split c xs in if x == c then [] ∷ rest else onto_first x rest

abbrev pub trim_v : Name → Name
trim_v [] = []
trim_v (c ∷ cs) = if c == b'v' then cs else c ∷ cs

unfoldable pub split_prerelease : Name → Name × Name
split_prerelease v = cut b'-' (cut b'+' (trim_v v)).0

abbrev pub or_zero : Option ℕ → ℕ
or_zero none = two63
or_zero (some n) = n

-- coreSegment, for the parts from an index on.
unfoldable pub core_segment : List Name → ℕ
core_segment [] = two63
core_segment (p ∷ ps) = or_zero (atoi p)

-- The loop of compareCore over n more indices.
unfoldable pub core_loop : ℕ → List Name → List Name → Cmp
core_loop zero as' bs = equal
core_loop (suc n) as' bs = elim (cmp_nat (core_segment as') (core_segment bs)) [
  | less ↦ less
  | greater ↦ greater
  | equal ↦ core_loop n (drop 1 as') (drop 1 bs)
]

abbrev pub longer : ℕ → ℕ → ℕ
longer a b = if ltb a b then b else a

unfoldable pub compare_core : Name → Name → Cmp
compare_core a b =
    core_loop (longer (length (split b'.' a)) (length (split b'.' b))) (split b'.' a) (split b'.' b)

-- The switch on two identifiers of prereleases.
abbrev pub compare_parsed : Option ℕ → Option ℕ → Name → Name → Cmp
compare_parsed (some x) (some y) a b = cmp_nat x y
compare_parsed (some x) none a b = less
compare_parsed none (some y) a b = greater
compare_parsed none none a b = cmp_text a b

unfoldable pub compare_identifier : Name → Name → Cmp
compare_identifier a b = compare_parsed (atoi a) (atoi b) a b

-- The loop of comparePrerelease over the common indices, and the tests of the lengths after it.
unfoldable pub prerelease_loop : List Name → List Name → Cmp
prerelease_loop [] [] = equal
prerelease_loop [] (b ∷ bs) = less
prerelease_loop (a ∷ as') [] = greater
prerelease_loop (a ∷ as') (b ∷ bs) = elim (compare_identifier a b) [
  | less ↦ less
  | greater ↦ greater
  | equal ↦ prerelease_loop as' bs
]

unfoldable pub compare_prerelease : Name → Name → Cmp
compare_prerelease a b =
    if same a b
    then equal
    else if same a []
    then greater
    else if same b []
    then less
    else prerelease_loop (split b'.' a) (split b'.' b)

unfoldable pub compare : Name → Name → Cmp
compare a b =
    let (a_core, a_pre) = split_prerelease a in
    let (b_core, b_pre) = split_prerelease b in
    elim (compare_core a_core b_core) [
      | less ↦ less
      | greater ↦ greater
      | equal ↦ compare_prerelease a_pre b_pre
    ]

unfoldable pub is_newer : Name → Name → Bool
is_newer a b = elim (compare a b) [ greater ↦ true | equal ↦ false | less ↦ false ]
