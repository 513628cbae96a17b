-- ===== src/Repository/Uploads.antt =====
-- What Create leaves in the files when a handler then answers 200.
use server_monitor.Common.{
  ℕ, ◌≡◌, refl, ap, ◌∙◌, arith, Bool, true, false, not, ◌&&◌, ◌||◌, ltb, if◌then◌else◌, Option,
  none, some, length, is_some,
}
use server_monitor.Common.Assoc.{lookup, lookup-insert_self}
use server_monitor.Repository.Paths.{
  Name, ObjectType, blobs, index, keys, locks, snapshots, config, other, deletable_type, FilePath,
  object_path,
}
use server_monitor.Repository.Store.{
  Content, FilePath-discrete, Files, StoreError, err_identical, err_exists, err_corrupt,
  err_not_found, err_invalid_ref, err_too_large, err_io, Faults, Incoming, arrived, broken,
  oversized, limit_body, write_file, classify_read, classify_duplicate, create_at, create,
  stat_object,
}
use server_monitor.Repository.Requests.{Answers, Repo, reserve_usage, after_create, post}

-- What both branches have.
pub if_either {ℓ} :
    {A : Type ℓ} (P : A → Type 0) (b : Bool) (x y : A) → P x → P y → P (if b then x else y)
if_either P true x y u v = u
if_either P false x y u v = v

module _ (digest : Content → Name) where
  -- A file holds what was sent, or something with its digest and its length.
  abbrev pub Taken : Content → FilePath → Files → Type 0
  Taken bs p files =
      (stored : Content) × (lookup FilePath-discrete p files ≡ some stored)
      × (digest stored ≡ digest bs)
      × (length stored ≡ length bs)

  classify_read-identical :
      (t : ObjectType) (name : Name) (stored bs : Content) (fails : Bool)
      → classify_read digest t name stored fails bs ≡ err_identical
      → digest stored ≡ digest bs
  unfolding classify_read
  classify_read-identical config name stored bs fails e = ground (arith, e)
  classify_read-identical blobs name stored bs fails e = ground (arith, e)
  classify_read-identical index name stored bs fails e = ground (arith, e)
  classify_read-identical keys name stored bs fails e = ground (arith, e)
  classify_read-identical locks name stored bs fails e = ground (arith, e)
  classify_read-identical snapshots name stored bs fails e = ground (arith, e)
  classify_read-identical other name stored bs fails e = ground (arith, e)

  limit_body-arrived :
      (size : ℕ) (bs cs : Content)
      → limit_body size (arrived bs) ≡ arrived cs
      → (cs ≡ bs) × (length bs ≡ size)
  unfolding limit_body
  limit_body-arrived size bs cs b = ground (arith, b)

  classify_duplicate-identical :
      (t : ObjectType) (name : Name) (size : ℕ) (stored bs : Content) (body : Incoming)
      (fails : Bool)
      → limit_body size (arrived bs) ≡ body
      → classify_duplicate digest t name body size stored fails ≡ err_identical
      → (digest stored ≡ digest bs) × (length stored ≡ length bs)
  unfolding classify_duplicate
  classify_duplicate-identical t name size stored bs (arrived cs) fails b e =
      let same_body = limit_body-arrived size bs cs b in
      let twins : digest stored ≡ digest cs =
        classify_read-identical t name stored cs fails (ground (arith, e)) in
      (twins ∙ ap digest same_body.0, ground (arith, e, same_body))
  classify_duplicate-identical t name size stored bs broken fails b e = absurd (ground (arith, e))
  classify_duplicate-identical t name size stored bs oversized fails b e =
      absurd (ground (arith, e))

  -- The results of Create that handlers answer with 200.
  abbrev pub Success : Option StoreError → Type 0
  Success none = Unit
  Success (some e) = e ≡ err_identical

  write_file-Taken :
      (p : FilePath) (size : ℕ) (bs : Content) (body : Incoming) (fails : Bool) (files : Files)
      → limit_body size (arrived bs) ≡ body
      → Success (write_file p body fails files).1
      → Taken bs p (write_file p body fails files).0
  write_file-Taken p size bs (arrived cs) false files b s =
      let same_body = (limit_body-arrived size bs cs b).0 in
      (
        cs,
        lookup-insert_self FilePath-discrete p cs files,
        ap digest same_body,
        ap length same_body,
      )
  write_file-Taken p size bs (arrived cs) true files b s = absurd (ground (arith, s))
  write_file-Taken p size bs broken fails files b s = absurd (ground (arith, s))
  write_file-Taken p size bs oversized fails files b s = absurd (ground (arith, s))

  create_at-Taken :
      (f : Faults) (t : ObjectType) (name : Name) (size : ℕ) (bs : Content) (p : FilePath)
      (o : Option Content) (files : Files)
      → lookup FilePath-discrete p files ≡ o
      → Success (create_at digest f t name size (limit_body size (arrived bs)) p o files).1
      → Taken bs p (create_at digest f t name size (limit_body size (arrived bs)) p o files).0
  unfolding create_at
  create_at-Taken f t name size bs p (some stored) files e s =
      let P : Files × Option StoreError → Type 0 = λ z. Success z.1 → Taken bs p z.0 in
      if_either P f.stat_fails (files, some err_io)
        (
          files,
          some (
              classify_duplicate digest t name (limit_body size (arrived bs)) size stored
                f.open_fails),
        )
        (λ u. absurd (ground (arith, u)))
        (λ u.
          let twins =
            classify_duplicate-identical t name size stored bs (limit_body size (arrived bs))
              f.open_fails refl u in
          (stored, e, twins.0, twins.1))
        s
  create_at-Taken f t name size bs p none files e s =
      let P : Files × Option StoreError → Type 0 = λ z. Success z.1 → Taken bs p z.0 in
      if_either P f.stat_fails (files, some err_io)
        (write_file p (limit_body size (arrived bs)) f.write_fails files)
        (λ u. absurd (ground (arith, u)))
        (write_file-Taken p size bs (limit_body size (arrived bs)) f.write_fails files refl) s

  after_create-Success :
      (a : Answers) (reserved : Bool) (size : ℕ) (r : Repo) (files : Files) (o : Option StoreError)
      → (after_create a reserved size r (files, o)).1 ≡ 200
      → Success o × ((after_create a reserved size r (files, o)).0.files ≡ files)
  unfolding after_create
  after_create-Success a reserved size r files none e = (tt, refl)
  after_create-Success a reserved size r files (some err_identical) e = (refl, refl)
  after_create-Success a reserved size r files (some err_exists) e = absurd (ground (arith, e))
  after_create-Success a reserved size r files (some err_corrupt) e = absurd (ground (arith, e))
  after_create-Success a reserved size r files (some err_not_found) e = absurd (ground (arith, e))
  after_create-Success a reserved size r files (some err_invalid_ref) e = absurd (ground (arith, e))
  after_create-Success a reserved size r files (some err_too_large) e = absurd (ground (arith, e))
  after_create-Success a reserved size r files (some err_io) e = absurd (ground (arith, e))

  pub post-Success :
      (max_blob : ℕ) (a : Answers) (t : ObjectType) (name : Name) (size : ℕ) (body : Incoming)
      (r : Repo)
      → (post digest max_blob a t name size body r).1 ≡ 200
      → Success (create digest a.store t name size (limit_body size body) r.files).1
        × ((post digest max_blob a t name size body r).0.files
            ≡ (create digest a.store t name size (limit_body size body) r.files).0)
  unfolding post
  post-Success max_blob a t name size body r e =
      let made = create digest a.store t name size (limit_body size body) r.files in
      let (target, reserved, failed) = reserve_usage a.reserve_fails size r.target in
      let full =
        not reserved
        && (deletable_type t || not (not (is_some (stat_object a.store t name r.files).1))) in
      let last = after_create a reserved size (record r { target = target }) made in
      let P : Repo × ℕ → Type 0 = λ z. z.1 ≡ 200 → Success made.1 × (z.0.files ≡ made.0) in
      if_either P (ltb max_blob size) (r, 413)
        (if failed then (r, 500) else if full then (r, 413) else last)
        (λ u. absurd (ground (arith, u)))
        (if_either P failed (r, 500) (if full then (r, 413) else last)
          (λ u. absurd (ground (arith, u)))
          (if_either P full (r, 413) last (λ u. absurd (ground (arith, u)))
            (after_create-Success a reserved size (record r { target = target }) made.0 made.1)))
        e

  create_on-Taken :
      (f : Faults) (t : ObjectType) (name : Name) (size : ℕ) (bs : Content) (o : Option FilePath)
      (files : Files)
      → object_path t name ≡ o
      → Success
          (elim o as (λ _. Files × Option StoreError) [
            | none ↦ (files, some err_invalid_ref)
            | some q ↦
                create_at digest f t name size
                  (limit_body size (arrived bs))
                  q
                  (lookup FilePath-discrete q files)
                  files
          ]).1
      → (p : FilePath) × (object_path t name ≡ some p)
        × Taken bs p
            (elim o as (λ _. Files × Option StoreError) [
              | none ↦ (files, some err_invalid_ref)
              | some q ↦
                  create_at digest f t name size
                    (limit_body size (arrived bs))
                    q
                    (lookup FilePath-discrete q files)
                    files
            ]).0
  create_on-Taken f t name size bs none files e s = absurd (ground (arith, s))
  create_on-Taken f t name size bs (some q) files e s =
      (q, e, create_at-Taken f t name size bs q (lookup FilePath-discrete q files) files refl s)

  pub create-Taken :
      (f : Faults) (t : ObjectType) (name : Name) (size : ℕ) (bs : Content) (files : Files)
      → Success (create digest f t name size (limit_body size (arrived bs)) files).1
      → (p : FilePath) × (object_path t name ≡ some p)
        × Taken bs p (create digest f t name size (limit_body size (arrived bs)) files).0
  unfolding create
  create-Taken f t name size bs files s =
      create_on-Taken f t name size bs (object_path t name) files refl s
