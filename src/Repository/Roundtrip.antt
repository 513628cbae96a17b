-- ===== src/Repository/Roundtrip.antt =====
-- Uploads, and reads after them.
use server_monitor.Common.{ℕ, ◌≡◌, ◌≢◌, ap, ◌∙◌, arith, false, none, some, List, length}
use server_monitor.Common.Assoc.{lookup}
use server_monitor.Repository.Paths.{Name, ObjectType, locks, valid_type, FilePath, object_path}
use server_monitor.Repository.Store.{
  Content, FilePath-discrete, Files, Faults, arrived, open_object,
}
use server_monitor.Repository.Requests.{Answers, Repo, Request, post_object, handle, post}
use server_monitor.Repository.Appending.{serve, serve-keeps}
use server_monitor.Repository.Uploads.{if_either, Taken, create-Taken, post-Success}

module _ (digest : Content → Name) where
  -- An upload that was answered with 200.
  handle-Taken :
      (max_blob : ℕ) (a : Answers) (t : ObjectType) (name : Name) (size : ℕ) (bs : Content)
      (r : Repo)
      → (handle digest max_blob a (post_object t name (some size) (arrived bs)) r).1 ≡ 200
      → (p : FilePath) × (object_path t name ≡ some p)
        × Taken digest bs p
            (handle digest max_blob a (post_object t name (some size) (arrived bs)) r).0.files
  unfolding handle
  handle-Taken max_blob a t name size bs r e =
      let P : Repo × ℕ → Type 0 = λ z.
        z.1 ≡ 200 → (p : FilePath) × (object_path t name ≡ some p) × Taken digest bs p z.0.files in
      if_either P (valid_type t) (post digest max_blob a t name size (arrived bs) r) (r, 404)
        (λ u.
          let done = post-Success digest max_blob a t name size (arrived bs) r u in
          let (p, path, (stored, found, twins, lengths)) =
            create-Taken digest a.store t name size bs r.files done.0 in
          (p, path, (stored, ap (lookup FilePath-discrete p) done.1 ∙ found, twins, lengths)))
        (λ u. absurd (ground (arith, u))) e

  open_object-found :
      (f : Faults) (t : ObjectType) (name : Name) (p : FilePath) (bs : Content) (files : Files)
      → f.open_fails ≡ false
      → object_path t name ≡ some p
      → lookup FilePath-discrete p files ≡ some bs
      → open_object f t name files ≡ (some bs, none)
  unfolding open_object
  open_object-found f t name p bs files n e h = ground (arith, n, e, h)

  -- Where the upload of an object that is not a lock was answered with 200, each later read that does not fail gives,
  -- after any requests and faults in between, a content with the digest and the length of what was sent.
  pub post-read :
      (max_blob : ℕ) (a : Answers) (t : ObjectType) (name : Name) (size : ℕ) (bs : Content)
      (r : Repo) (qs : List (Answers × Request)) (f : Faults)
      → t ≢ locks
      → f.open_fails ≡ false
      → (handle digest max_blob a (post_object t name (some size) (arrived bs)) r).1 ≡ 200
      → (stored : Content) × (open_object f t name
            (serve digest max_blob qs
              (handle digest max_blob a (post_object t name (some size) (arrived bs)) r).0).files
          ≡ (some stored, none))
        × (digest stored ≡ digest bs)
        × (length stored ≡ length bs)
  post-read max_blob a t name size bs r qs f ne n e =
      let r' = (handle digest max_blob a (post_object t name (some size) (arrived bs)) r).0 in
      let (p, path, (stored, found, twins, lengths)) = handle-Taken max_blob a t name size bs r e in
      (
        stored,
        open_object-found f t name p stored (serve digest max_blob qs r').files n path
            (serve-keeps digest max_blob qs t name p stored r' ne path found),
        twins,
        lengths,
      )
