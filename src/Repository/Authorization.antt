-- ===== src/Repository/Authorization.antt =====
-- The credentials of a request (auth in pkg/restserver/server.go).
use server_monitor.Common.{
  ℕ, ◌+◌, ◌-◌, ◌≤◌, ◌≡◌, ◌⊎◌, inl, inr, refl, arith, Bool, true, false, not, if◌then◌else◌, Option,
  none, some, List, ℕ_discrete,
}
use server_monitor.Common.Assoc.{lookup}
use server_monitor.Repository.Paths.{Name, Name-discrete, same, valid_name}
use server_monitor.Repository.Store.{Content, Files}
use server_monitor.Repository.Requests.{Answers, Request, handle}
use server_monitor.Repository.Targets.{Row, Targets, resolve_target, cache_ttl}
use server_monitor.Repository.Resolving.{Coherent, change_used-Coherent, resolve_target-Resolved}
use server_monitor.Repository.Access.{
  Credentials, Access, refused, granted, files_of, target_of, Service, Arrival, access_of,
  authorize, serve_access, serve_arrival,
}
use server_monitor.Repository.Holders.{Holder, same_sound, answer-Holder}

-- The user is the repository, and it holds the secret.
abbrev pub Authentic : (Name → Name) → Name → Option Credentials → List (ℕ × Row) → Type 0
Authentic token_hash repo none rows = ⊥
Authentic token_hash repo (some c) rows =
    (valid_name repo ≡ true) × (c.user ≡ repo) × Holder token_hash repo c.pass rows

access_of-granted :
    (o : Option (Option (ℕ × ℕ × ℕ))) (id : ℕ)
    → access_of o ≡ granted id
    → (x : ℕ × ℕ × ℕ) × (o ≡ some (some x))
access_of-granted none id e = absurd (ground (arith, e))
access_of-granted (some none) id e = absurd (ground (arith, e))
access_of-granted (some (some x)) id e = (x, refl)

-- The two guards of auth.
guards-granted :
    (valid own : Bool) (acc : Access) (t t' : Targets) (id : ℕ)
    → (if◌then◌else◌ {A = Targets × Access}
        (not valid)
        (t, refused 400)
        (if not own then (t, refused 401) else (t', acc))).1
      ≡ granted id
    → (valid ≡ true) × (own ≡ true) × (acc ≡ granted id)
guards-granted true true acc t t' id e = (refl, refl, e)
guards-granted true false acc t t' id e = absurd (ground (arith, e))
guards-granted false own acc t t' id e = absurd (ground (arith, e))

authorize-Authentic :
    (token_hash : Name → Name) (now : ℕ) (fails : Bool) (repo : Name) (c : Option Credentials)
    (t : Targets) (id : ℕ)
    → cache_ttl ≤ now
    → Coherent t
    → (authorize token_hash now fails repo c t).1 ≡ granted id
    → Authentic token_hash repo c t.rows
unfolding authorize
authorize-Authentic token_hash now fails repo none t id l c e = absurd (ground (arith, e))
authorize-Authentic token_hash now fails repo (some k) t id l c e =
    let r = resolve_target-Resolved token_hash now fails repo k.pass t l c in
    let a = (resolve_target token_hash now fails repo k.pass t).1 in
    let g =
      guards-granted (valid_name repo) (same k.user repo) (access_of a) t
        (resolve_target token_hash now fails repo k.pass t).0 id e in
    let (x, h) = access_of-granted a id g.2 in
    (
      g.0,
      same_sound k.user repo g.1,
      elim (r.answered) as (λ o. Holder token_hash repo k.pass t.rows) [
        | inl d ↦ answer-Holder token_hash repo k.pass t.rows x (ground (arith, d, h))
        | inr n ↦ absurd (ground (arith, n, h))
      ],
    )

access-cases : (x : Access) → ((status : ℕ) × (x ≡ refused status)) ⊎ ((id : ℕ) × (x ≡ granted id))
access-cases (refused status) = inl (status, refl)
access-cases (granted id) = inr (id, refl)

-- The statuses with which auth refuses.
abbrev pub Refusal : ℕ → Type 0
Refusal status = (status ≡ 400) ⊎ (status ≡ 401) ⊎ (status ≡ 500)

access_of-Refusal :
    (o : Option (Option (ℕ × ℕ × ℕ))) (status : ℕ) → access_of o ≡ refused status → Refusal status
access_of-Refusal none status e = inr (inr (ground (arith, e)))
access_of-Refusal (some none) status e = inr (inl (ground (arith, e)))
access_of-Refusal (some (some x)) status e = absurd (ground (arith, e))

authorize-Refusal :
    (token_hash : Name → Name) (now : ℕ) (fails : Bool) (repo : Name) (c : Option Credentials)
    (t : Targets) (status : ℕ)
    → (authorize token_hash now fails repo c t).1 ≡ refused status
    → Refusal status
unfolding authorize
authorize-Refusal token_hash now fails repo none t status e = ground (arith, e)
authorize-Refusal token_hash now fails repo (some k) t status e =
    ground
      (arith, e, access_of-Refusal (resolve_target token_hash now fails repo k.pass t).1 status)

serve_access-refused :
    (digest : Content → Name) (max_blob : ℕ) (a : Answers) (q : Request) (repo : Name) (status : ℕ)
    (x : Targets × Access) (files : List (Name × Files))
    → x.1 ≡ refused status
    → Refusal status
    → ((serve_access digest max_blob a q repo x files).0.files ≡ files)
      × Refusal (serve_access digest max_blob a q repo x files).1
unfolding serve_access
serve_access-refused digest max_blob a q repo status (t, refused n) files e r =
    (refl, ground (arith, e, r))
serve_access-refused digest max_blob a q repo status (t, granted id) files e r =
    absurd (ground (arith, e))

guards-Coherent :
    (valid own : Bool) (acc : Access) (t t' : Targets)
    → Coherent t
    → Coherent t'
    → Coherent
        (if◌then◌else◌ {A = Targets × Access}
          (not valid)
          (t, refused 400)
          (if not own then (t, refused 401) else (t', acc))).0
guards-Coherent true true acc t t' c c' = c'
guards-Coherent true false acc t t' c c' = c
guards-Coherent false own acc t t' c c' = c

authorize-Coherent :
    (token_hash : Name → Name) (now : ℕ) (fails : Bool) (repo : Name) (c : Option Credentials)
    (t : Targets)
    → cache_ttl ≤ now
    → Coherent t
    → Coherent (authorize token_hash now fails repo c t).0
unfolding authorize
authorize-Coherent token_hash now fails repo none t l h = h
authorize-Coherent token_hash now fails repo (some k) t l h =
    guards-Coherent (valid_name repo) (same k.user repo)
      (access_of (resolve_target token_hash now fails repo k.pass t).1) t
      (resolve_target token_hash now fails repo k.pass t).0 h
      (resolve_target-Resolved token_hash now fails repo k.pass t l h).coherent

serve_access-Coherent :
    (digest : Content → Name) (max_blob : ℕ) (a : Answers) (q : Request) (repo : Name)
    (x : Targets × Access) (files : List (Name × Files))
    → Coherent x.0
    → Coherent (serve_access digest max_blob a q repo x files).0.targets
unfolding serve_access
serve_access-Coherent digest max_blob a q repo (t, refused status) files h = h
serve_access-Coherent digest max_blob a q repo (t, granted id) files h =
    let target = target_of (lookup ℕ_discrete id t.rows) in
    let r =
      handle digest max_blob a q
        (record { files = files_of (lookup Name-discrete repo files); target = target }) in
    change_used-Coherent id (λ u. u + r.0.target.used - target.used) t h

-- The cache is invalid or agrees with the rows, and the clock is past its lifetime. Then it is so after a request. And
-- the request is answered with 400, 401 or 500 and all files stay as they are, unless the repository has a valid name,
-- is the user of the request, and has a row that is served, with the hash of the secret, and not revoked.
pub serve_arrival-Authentic :
    (digest : Content → Name) (max_blob : ℕ) (token_hash : Name → Name) (x : Arrival) (s : Service)
    → cache_ttl ≤ x.now
    → Coherent s.targets
    → Coherent (serve_arrival digest max_blob token_hash x s).0.targets
      × (Authentic token_hash x.repo x.credentials s.targets.rows
          ⊎ (((serve_arrival digest max_blob token_hash x s).0.files ≡ s.files)
              × Refusal (serve_arrival digest max_blob token_hash x s).1))
unfolding serve_arrival serve_access
serve_arrival-Authentic digest max_blob token_hash x s l c =
    let auth = authorize token_hash x.now x.query_fails x.repo x.credentials s.targets in
    let kept =
      authorize-Coherent token_hash x.now x.query_fails x.repo x.credentials s.targets l c in
    (
      serve_access-Coherent digest max_blob x.answers x.request x.repo auth s.files kept,
      elim (access-cases auth.1) [
        | inl (status, r) ↦ inr (
            serve_access-refused digest max_blob x.answers x.request x.repo status auth s.files r (
              authorize-Refusal token_hash x.now x.query_fails x.repo x.credentials s.targets status
                r))
        | inr (id, g) ↦ inl (
            authorize-Authentic token_hash x.now x.query_fails x.repo x.credentials s.targets id l c
              g)
      ],
    )
