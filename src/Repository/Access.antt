-- ===== src/Repository/Access.antt =====
-- pkg/restserver/server.go: the requests to all repositories, with auth before the handlers.
use server_monitor.Common.{
  ℕ, ◌+◌, ◌-◌, Bool, true, not, if◌then◌else◌, Option, none, some, List, [], ℕ_discrete,
}
use server_monitor.Common.Assoc.{lookup, insert}
use server_monitor.Repository.Paths.{Name, Name-discrete, same, valid_name}
use server_monitor.Repository.Store.{Content, Files}
use server_monitor.Repository.Requests.{Target, Answers, Request, handle}
use server_monitor.Repository.Targets.{Row, Targets, change_used, resolve_target}

pub record Credentials : Type 0 where
  pub user : Name
  pub pass : Name

-- What auth decides: the status of the refusal, or the id of the target.
pub data Access : Type 0 where
  refused : ℕ → Access
  granted : ℕ → Access

-- The files of all repositories, and their targets.
pub record Service : Type 0 where
  pub targets : Targets
  pub files : List (Name × Files)

abbrev pub files_of : Option Files → Files
files_of none = []
files_of (some files) = files

-- Of a target that is gone nothing can be reserved.
abbrev pub target_of : Option Row → Target
target_of none = record { quota = 0; used = 0; revoked = true }
target_of (some row) = row.target

abbrev pub access_of : Option (Option (ℕ × ℕ × ℕ)) → Access
access_of none = refused 500
access_of (some none) = refused 401
access_of (some (some (id, quota, used))) = granted id

-- A request to a repository, with what it carries of basic authentication.
pub record Arrival : Type 0 where
  pub now : ℕ
  pub query_fails : Bool
  pub repo : Name
  pub credentials : Option Credentials
  pub answers : Answers
  pub request : Request

module _ (token_hash : Name → Name) where
  unfoldable pub authorize : ℕ → Bool → Name → Option Credentials → Targets → Targets × Access
  authorize now fails repo none s = (s, refused (if valid_name repo then 401 else 400))
  authorize now fails repo (some c) s =
      let (s', answer) = resolve_target token_hash now fails repo c.pass s in
      if not (valid_name repo)
      then (s, refused 400)
      else if not (same c.user repo)
      then (s, refused 401)
      else (s', access_of answer)

module _ (digest : Content → Name) (max_blob : ℕ) where
  -- The rest of a request; what it reserves and releases is taken over into the target and the cache.
  unfoldable pub serve_access :
      Answers → Request → Name → Targets × Access → List (Name × Files) → Service × ℕ
  serve_access a q repo (t, refused status) files = (record { targets = t; files = files }, status)
  serve_access a q repo (t, granted id) files =
      let target = target_of (lookup ℕ_discrete id t.rows) in
      let (r, status) =
        handle digest max_blob a q
          (record { files = files_of (lookup Name-discrete repo files); target = target }) in
      (
        record {
          targets = change_used id (λ u. u + r.target.used - target.used) t;
          files = insert Name-discrete repo r.files files;
        },
        status,
      )

  unfoldable pub serve_arrival : (Name → Name) → Arrival → Service → Service × ℕ
  serve_arrival token_hash x s =
      serve_access x.answers x.request x.repo
        (authorize token_hash x.now x.query_fails x.repo x.credentials s.targets) s.files
