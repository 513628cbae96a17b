-- ===== src/Repository/Holders.antt =====
-- The rows that a secret matches (ResolveTarget in internal/server/storage/backuptargets.go).
use mathlib.Core.List.{Memᴰ}
use server_monitor.Common.{
  ℕ, ◌≡◌, ◌⊎◌, inl, inr, refl, ap, ◌∙◌, arith, true, false, if◌then◌else◌, Option, none, some, List,
  [], ◌∷◌, Bool-cases,
}
use server_monitor.Common.Assoc.{lookup, insert, lookup-insert}
use server_monitor.Repository.Paths.{Name, Name-discrete, same}
use server_monitor.Repository.Targets.{Row, Auth, auth_of, match_hit, answer, load_rows}

-- A row that the server itself stores has the name of the repository and the hash of the secret, and is not revoked.
abbrev pub Holder : (Name → Name) → Name → Name → List (ℕ × Row) → Type 0
Holder token_hash repo secret rows =
    (i : ℕ) × (row : Row) × Memᴰ (i, row) rows
    × (row.served ≡ true)
    × (row.name ≡ repo)
    × (row.hash ≡ token_hash secret)
    × (row.target.revoked ≡ false)

pub same_sound : (a b : Name) → same a b ≡ true → a ≡ b
same_sound a b e = ground (arith, e)

-- An entry of the map that refresh loads was there before, or is one of the rows.
abbrev Loaded : Name → Auth → List (ℕ × Row) → List (Name × Auth) → Type 0
Loaded repo a rows m =
    (lookup Name-discrete repo m ≡ some a)
    ⊎ ((i : ℕ) × (row : Row) × Memᴰ (i, row) rows
        × (row.served ≡ true)
        × (row.name ≡ repo)
        × (auth_of i row ≡ a))

Loaded-row :
    (repo : Name) (a : Auth) (i : ℕ) (row : Row) (rows : List (ℕ × Row)) (m : List (Name × Auth))
    → lookup Name-discrete repo
        (if row.served then insert Name-discrete row.name (auth_of i row) m else m)
      ≡ some a
    → Loaded repo a ((i, row) ∷ rows) m
Loaded-row repo a i row rows m h = elim (Bool-cases row.served) [
  | inl on ↦ elim (Name-discrete row.name repo) [
    | yes e ↦ inr (
      i,
      row,
      Memᴰ.head refl,
      on,
      e,
      ground (arith, h, on, e, lookup-insert Name-discrete row.name repo (auth_of i row) m),
    )
    | no ne ↦
        inl (ground (arith, h, on, ne, lookup-insert Name-discrete row.name repo (auth_of i row) m))
  ]
  | inr off ↦ inl (ground (arith, h, off))
]

load_rows-Loaded :
    (repo : Name) (a : Auth) (rows : List (ℕ × Row)) (m : List (Name × Auth))
    → lookup Name-discrete repo (load_rows rows m) ≡ some a
    → Loaded repo a rows m
unfolding load_rows
load_rows-Loaded repo a [] m h = inl h
load_rows-Loaded repo a ((i, row) ∷ rows) m h =
    let m' = if row.served then insert Name-discrete row.name (auth_of i row) m else m in
    elim (load_rows-Loaded repo a rows m' h) [
      | inl here ↦ Loaded-row repo a i row rows m here
      | inr (j, r, inside, on, named, same') ↦ inr (j, r, Memᴰ.tail inside, on, named, same')
    ]

match_hit-some :
    (o : Option Auth) (candidate : Name) (x : ℕ × ℕ × ℕ)
    → match_hit o candidate ≡ some x
    → (a : Auth) × (o ≡ some a) × (a.hash ≡ candidate) × (a.revoked ≡ false)
match_hit-some none candidate x e = absurd (ground (arith, e))
match_hit-some (some a) candidate x e =
    (a, refl, same_sound a.hash candidate (ground (arith, e)), ground (arith, e))

never_loaded : (repo : Name) (a : Auth) → lookup Name-discrete repo [] ≡ some a → ⊥
unfolding lookup
never_loaded repo a e = ground (arith, e)

pub answer-Holder :
    (token_hash : Name → Name) (repo secret : Name) (rows : List (ℕ × Row)) (x : ℕ × ℕ × ℕ)
    → answer token_hash repo secret (load_rows rows []) ≡ some x
    → Holder token_hash repo secret rows
answer-Holder token_hash repo secret rows x e =
    let (a, l, h, r) =
      match_hit-some (lookup Name-discrete repo (load_rows rows [])) (token_hash secret) x e in
    elim (load_rows-Loaded repo a rows [] l) [
      | inl found ↦ absurd (never_loaded repo a found)
      | inr (i, row, inside, on, named, same') ↦ (
        i,
        row,
        inside,
        on,
        named,
        ap (λ (b : Auth). b.hash) same' ∙ h,
        ap (λ (b : Auth). b.revoked) same' ∙ r,
      )
    ]
