-- ===== src/Spool/Keys.antt =====
-- The keys of a spool, and how often a batch is in it.
use server_monitor.Common.{
  ℕ, ◌+◌, ◌%◌, ◌≤◌, ◌<◌, ◌≡◌, ◌≢◌, refl, arith, Bool, not, ◌==◌, List, [], ◌∷◌, ◌++◌, keep, ite,
  ℕ_discrete,
}
use server_monitor.Spool.{Body, Entry, id_mod, place}

unfoldable pub Body-discrete : Discrete Body
Body-discrete = hlevel ℕ_discrete

-- How often a batch is among the entries.
abbrev pub count : Body → List Entry → ℕ
count x [] = 0
count x ((k, v) ∷ es) = ite (Body-discrete v x) 1 0 + count x es

pub count-append : (x : Body) (es fs : List Entry) → count x (es ++ fs) ≡ count x es + count x fs
count-append x [] fs = omega arith
count-append x (e ∷ es) fs = omega (arith, count-append x es fs)

-- The entries with a key, and the others.
pub count-keep :
    (x : Body) (k : ℕ) (es : List Entry)
    → count x (keep (λ e. e.0 == k) es) + count x (keep (λ e. not (e.0 == k)) es) ≡ count x es
count-keep x k [] = omega arith
count-keep x k ((j, w) ∷ es) = ground (arith, count-keep x k es)

-- No entry has the key.
abbrev pub Fresh : ℕ → List Entry → Type 0
Fresh k [] = Unit
Fresh k ((j, w) ∷ es) = (j ≢ k) × Fresh k es

abbrev pub UniqueKeys : List Entry → Type 0
UniqueKeys [] = Unit
UniqueKeys ((k, v) ∷ es) = Fresh k es × UniqueKeys es

-- The sequence numbers in the keys.
abbrev pub Issued : ℕ → List Entry → Type 0
Issued n [] = Unit
Issued n ((k, v) ∷ es) = (k % id_mod ≤ n) × Issued n es

pub count-place :
    (x v : Body) (k : ℕ) (es : List Entry)
    → Fresh k es
    → count x (place k v es) ≡ ite (Body-discrete v x) 1 0 + count x es
count-place x v k [] f = refl
count-place x v k ((j, w) ∷ es) f = ground (arith, count-place x v k es f.1)

Fresh-place : (i k : ℕ) (v : Body) (es : List Entry) → i ≢ k → Fresh i es → Fresh i (place k v es)
Fresh-place i k v [] ne f = (λ e. ground (arith, ne), tt)
Fresh-place i k v ((j, w) ∷ es) ne f = ground (arith, f, Fresh-place i k v es ne f.1)

pub UniqueKeys-place :
    (k : ℕ) (v : Body) (es : List Entry) → Fresh k es → UniqueKeys es → UniqueKeys (place k v es)
UniqueKeys-place k v [] f u = (tt, tt)
UniqueKeys-place k v ((j, w) ∷ es) f u =
    ground (arith, f, u, UniqueKeys-place k v es f.1 u.1, Fresh-place j k v es (f.0) u.0)

Fresh-keep : (i : ℕ) (p : Entry → Bool) (es : List Entry) → Fresh i es → Fresh i (keep p es)
Fresh-keep i p [] f = tt
Fresh-keep i p ((j, w) ∷ es) f = ground (arith, f, Fresh-keep i p es f.1)

pub UniqueKeys-keep : (p : Entry → Bool) (es : List Entry) → UniqueKeys es → UniqueKeys (keep p es)
UniqueKeys-keep p [] u = tt
UniqueKeys-keep p ((j, w) ∷ es) u =
    ground (arith, u, UniqueKeys-keep p es u.1, Fresh-keep j p es u.0)

pub Issued-keep : (n : ℕ) (p : Entry → Bool) (es : List Entry) → Issued n es → Issued n (keep p es)
Issued-keep n p [] h = tt
Issued-keep n p ((j, w) ∷ es) h = ground (arith, h, Issued-keep n p es h.1)

pub Issued-place :
    (n k : ℕ) (v : Body) (es : List Entry) → k % id_mod ≤ n → Issued n es → Issued n (place k v es)
Issued-place n k v [] hk h = (hk, tt)
Issued-place n k v ((j, w) ∷ es) hk h = ground (arith, h, hk, Issued-place n k v es hk h.1)

pub Issued-mono : (n m : ℕ) (es : List Entry) → n ≤ m → Issued n es → Issued m es
Issued-mono n m [] l h = tt
Issued-mono n m ((j, w) ∷ es) l h = (omega arith, Issued-mono n m es l h.1)

-- A key with a sequence number above all issued ones is new.
pub Issued-Fresh : (n k : ℕ) (es : List Entry) → n < k % id_mod → Issued n es → Fresh k es
Issued-Fresh n k [] l h = tt
Issued-Fresh n k ((j, w) ∷ es) l h = (λ e. ground (arith, h.0), Issued-Fresh n k es l h.1)

-- A key that no entry has picks no entry.
pub Fresh-count :
    (x : Body) (k : ℕ) (es : List Entry) → Fresh k es → count x (keep (λ e. e.0 == k) es) ≡ 0
Fresh-count x k [] f = refl
Fresh-count x k ((j, w) ∷ es) f = ground (arith, f.0, Fresh-count x k es f.1)
