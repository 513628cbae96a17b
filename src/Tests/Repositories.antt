-- ===== src/Tests/Repositories.antt =====
-- A repository of the REST server at concrete requests.
use mathlib.Core.List.{Memᴰ}
use server_monitor.Common.{
  inl, ◌⊎◌, true, ◌*◌, ◌^◌, ◌≡◌, inr, refl, arith, false, none, some, List, [], ◌∷◌, length,
  ℕ_discrete,
}
use server_monitor.Common.Assoc.{lookup}
use server_monitor.Repository.Paths.{
  Name, codes, blobs, locks, snapshots, FilePath, object_path, dir, valid_name, Name-discrete, join,
}
use server_monitor.Repository.Store.{
  Content, FilePath-discrete, arrived, repo_usage, open_object, create, limit_body,
}
use server_monitor.Repository.Requests.{
  Repo, Answers, Request, post_object, delete_object, handle, post, reserve_usage, after_create,
}
use server_monitor.Repository.Appending.{serve, serve-keeps}
use server_monitor.Repository.Roundtrip.{post-read}
use server_monitor.Repository.Targets.{
  Row, Call, creates, revokes, resolves, resolve_target, new_targets, answer, load_rows,
}
use server_monitor.Repository.Holders.{Holder}
use server_monitor.Repository.Resolving.{run, Coherent, resolve_target-direct}
use server_monitor.Repository.Access.{Service, Arrival, serve_arrival}
use server_monitor.Repository.Authorization.{Authentic, Refusal, serve_arrival-Authentic}
use server_monitor.Repository.Listing.{Unlisted, list_objects, list_objects_complete}
use server_monitor.Repository.Quotas.{Within, serve-Within}

abbrev snapshot : FilePath
snapshot = codes "a1" ∷ codes "snapshots" ∷ []

abbrev lock : FilePath
lock = codes "b2" ∷ codes "locks" ∷ []

abbrev repo : Repo
repo = record {
  files = (snapshot, 1 ∷ 2 ∷ 3 ∷ []) ∷ (lock, 9 ∷ []) ∷ [];
  target = record { quota = 10; used = 4; revoked = false };
}

abbrev fine : Answers
fine = record {
  store = record { stat_fails = false; write_fails = false; open_fails = false };
  reserve_fails = false;
  release_fails = false;
}

-- The first byte as the digest.
abbrev first_byte : Content → Name
first_byte [] = []
first_byte (b ∷ bs) = b ∷ []

-- A lock is deleted, a deletion and an overwriting of the snapshot are refused, a blob is stored, and one that would
-- exceed the quota is refused.
abbrev requests : List (Answers × Request)
requests =
    (fine, post_object blobs (codes "ffee") (some 8) (arrived (1 ∷ 2 ∷ 3 ∷ 4 ∷ 5 ∷ 6 ∷ 7 ∷ 8 ∷ [])))
    ∷ (fine, post_object blobs (codes "ccdd") (some 4) (arrived (4 ∷ 3 ∷ 2 ∷ 1 ∷ [])))
    ∷ (fine, post_object snapshots (codes "a1") (some 2) (arrived (7 ∷ 7 ∷ [])))
    ∷ (fine, delete_object snapshots (codes "a1"))
    ∷ (fine, delete_object locks (codes "b2"))
    ∷ []

serve-keeps_example :
    lookup FilePath-discrete snapshot (serve first_byte 100 requests repo).files
    ≡ some (1 ∷ 2 ∷ 3 ∷ [])
unfolding object_path valid_name Name-discrete ℕ_discrete join dir lookup FilePath-discrete
serve-keeps_example =
    serve-keeps first_byte 100 requests snapshots (codes "a1") snapshot (1 ∷ 2 ∷ 3 ∷ []) repo
      (λ e. ground (arith, e)) refl refl

serve-Within_example : Within 10 (serve first_byte 100 requests repo)
unfolding repo_usage
serve-Within_example =
    serve-Within first_byte 100 10 requests repo
      (record { same_quota = refl; stored = ground arith; within = inr (ground arith) })

abbrev sevens : Content
sevens = 7 ∷ 7 ∷ []

abbrev upload : Request
upload = post_object snapshots (codes "c3") (some 2) (arrived sevens)

upload_status : (handle first_byte 100 fine upload repo).1 ≡ 200
unfolding handle post reserve_usage after_create create object_path valid_name Name-discrete
    ℕ_discrete lookup FilePath-discrete join limit_body
upload_status = refl

post-read_example :
    (stored : Content) × (open_object fine.store snapshots
        (codes "c3")
        (serve first_byte 100 requests (handle first_byte 100 fine upload repo).0).files
      ≡ (some stored, none))
    × (first_byte stored ≡ first_byte sevens)
    × (length stored ≡ length sevens)
post-read_example =
    post-read first_byte 100 fine snapshots (codes "c3") 2 sevens repo requests fine.store
      (λ e. ground (arith, e)) refl upload_status

-- A target is created, resolved with its secret and revoked, while the cache would still be fresh.
abbrev calls : List Call
calls =
    revokes false 1
    ∷ resolves false (40 * 10 ^ 9) (codes "home") (codes "s")
    ∷ creates false 1 (codes "home") (codes "s") true 100
    ∷ []

abbrev plain : Name → Name
plain secret = secret

resolve_target-direct_example :
    (((resolve_target plain
          (41 * 10 ^ 9)
          false
          (codes "home")
          (codes "s")
          (run plain calls new_targets)).1
        ≡ some (
            answer plain
              (codes "home")
              (codes "s")
              (load_rows (run plain calls new_targets).rows [])))
      ⊎ ((false ≡ true)
          × ((resolve_target plain
                (41 * 10 ^ 9)
                false
                (codes "home")
                (codes "s")
                (run plain calls new_targets)).1
              ≡ none)))
    × ((answer plain (codes "home") (codes "s") (load_rows (run plain calls new_targets).rows [])
          ≡ none)
        ⊎ Holder plain (codes "home") (codes "s") (run plain calls new_targets).rows)
resolve_target-direct_example =
    resolve_target-direct plain calls (41 * 10 ^ 9) false (codes "home") (codes "s")
      (tt, (ground arith, (tt, tt))) (ground arith)

-- Two repositories, of which the first has a target, and an upload to it.
abbrev home : Row
home = record {
  name = codes "home";
  hash = codes "s";
  served = true;
  target = record { quota = 10; used = 4; revoked = false };
}

abbrev service : Service
service = record {
  targets = record { rows = (1, home) ∷ []; by_name = []; cached_at = 0 };
  files = (codes "home", repo.files) ∷ (codes "away", repo.files) ∷ [];
}

abbrev arrival : Arrival
arrival = record {
  now = 40 * 10 ^ 9;
  query_fails = false;
  repo = codes "home";
  credentials = some (record { user = codes "home"; pass = codes "s" });
  answers = fine;
  request = upload;
}

serve_arrival-Authentic_example :
    Coherent (serve_arrival first_byte 100 plain arrival service).0.targets
    × (Authentic plain (codes "home") arrival.credentials service.targets.rows
        ⊎ (((serve_arrival first_byte 100 plain arrival service).0.files ≡ service.files)
            × Refusal (serve_arrival first_byte 100 plain arrival service).1))
serve_arrival-Authentic_example =
    serve_arrival-Authentic first_byte 100 plain arrival service (ground arith) (inl refl)

list_objects_complete_example :
    Memᴰ (codes "a1", 3) (list_objects fine.store snapshots repo.files).0
    ⊎ Unlisted snapshots (codes "a1")
unfolding object_path valid_name Name-discrete ℕ_discrete join dir lookup FilePath-discrete
list_objects_complete_example =
    list_objects_complete fine.store snapshots (codes "a1") snapshot (1 ∷ 2 ∷ 3 ∷ []) repo.files
      (λ e. ground (arith, e)) refl refl refl
