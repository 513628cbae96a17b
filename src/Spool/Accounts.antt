-- ===== src/Spool/Accounts.antt =====
-- The batches in a spool and those evicted from it, over its operations.
use mathlib.Core.Path.{subst}
use server_monitor.Common.{
  ℕ, ◌+◌, ◌*◌, ◌%◌, ◌≤◌, ◌<◌, ◌≡◌, refl, ap, sym, ◌∙◌, arith, Bool-cases, inl, inr, Bool, not, leb,
  if◌then◌else◌, ◌==◌, List, [], ◌∷◌, length, keep, ite,
}
use server_monitor.Spool.{
  Body, Entry, id_mod, Bolt, place, BoltLaws, Disk, Stored, evict, drop_loop, drop_oldest, enqueue,
}
use server_monitor.Spool.Keys.{
  Body-discrete, count, count-append, count-keep, Fresh, UniqueKeys, Issued, count-place,
  UniqueKeys-place, UniqueKeys-keep, Issued-keep, Issued-place, Issued-mono, Issued-Fresh,
}

module _ {Bucket : Type 0} (bolt : Bolt Bucket) (laws : BoltLaws bolt) where
  -- The keys of a bucket are unique, and carry sequence numbers that it issued.
  pub record Keyed (b : Bucket) : Type 0 where
    pub unique : UniqueKeys (bolt.entries b)
    pub issued : Issued (bolt.sequence b) (bolt.entries b)

  -- How often a batch is in the spool or among the evicted.
  abbrev pub total : Body → Stored Bucket → ℕ
  total x s = count x (bolt.entries s.bucket) + count x s.evicted

  pub delete-Keyed : (k : ℕ) (b : Bucket) → Keyed b → Keyed (bolt.delete k b)
  delete-Keyed k b h = record {
    unique =
        rw (laws.entries-delete k b)
          (UniqueKeys-keep (λ e. not (e.0 == k)) (bolt.entries b) h.unique);
    issued =
        rw (laws.entries-delete k b, laws.sequence-delete k b)
          (Issued-keep (bolt.sequence b) (λ e. not (e.0 == k)) (bolt.entries b) h.issued);
  }

  evict-total : (x : Body) (k : ℕ) (s : Stored Bucket) → total x (evict bolt k s) ≡ total x s
  evict-total x k s =
      let es = bolt.entries s.bucket in
      omega (
        arith,
        ap (count x) (laws.entries-delete k s.bucket),
        count-keep x k es,
        count-append x (keep (λ e. e.0 == k) es) s.evicted,
      )

  drop_loop-total :
      (x : Body) (min_freed freed : ℕ) (es : List Entry) (s : Stored Bucket)
      → total x (drop_loop bolt min_freed freed es s) ≡ total x s
  unfolding drop_loop
  drop_loop-total x m f [] s = refl
  drop_loop-total x m f ((k, v) ∷ es) s =
      ground (arith, evict-total x k s, drop_loop-total x m (f + length v) es (evict bolt k s))

  drop_loop-Keyed :
      (m f : ℕ) (es : List Entry) (s : Stored Bucket)
      → Keyed s.bucket
      → Keyed (drop_loop bolt m f es s).bucket
  unfolding drop_loop
  drop_loop-Keyed m f [] s h = h
  drop_loop-Keyed m f ((k, v) ∷ es) s h =
      let h' = delete-Keyed k s.bucket h in
      elim (Bool-cases (leb m (f + length v))) [
        | inl e ↦ rw e h'
        | inr e ↦ rw e (drop_loop-Keyed m (f + length v) es (evict bolt k s) h')
      ]

  drop_loop-sequence :
      (m f : ℕ) (es : List Entry) (s : Stored Bucket)
      → bolt.sequence (drop_loop bolt m f es s).bucket ≡ bolt.sequence s.bucket
  unfolding drop_loop
  drop_loop-sequence m f [] s = refl
  drop_loop-sequence m f ((k, v) ∷ es) s = ground (
    arith,
    laws.sequence-delete k s.bucket,
    drop_loop-sequence m (f + length v) es (evict bolt k s),
  )

  -- The write of Enqueue.
  abbrev pub write : ℕ → Body → Bucket → Bucket
  write now body b =
      bolt.put (now * id_mod + bolt.sequence (bolt.next_sequence b)) body (bolt.next_sequence b)

  write_key :
      (now : ℕ) (b : Bucket)
      → bolt.sequence b + 1 < id_mod
      → (now * id_mod + bolt.sequence (bolt.next_sequence b)) % id_mod ≡ bolt.sequence b + 1
  write_key now b h = omega (arith, laws.sequence-next_sequence b)

  -- The entries before the write, in the terms of the bucket after it.
  pub write-entries :
      (now : ℕ) (body : Body) (b : Bucket)
      → bolt.entries (write now body b)
        ≡ place (now * id_mod + bolt.sequence (bolt.next_sequence b)) body (bolt.entries b)
  write-entries now body b =
      laws.entries-put (now * id_mod + bolt.sequence (bolt.next_sequence b)) body
        (bolt.next_sequence b)
      ∙ ap (place (now * id_mod + bolt.sequence (bolt.next_sequence b)) body)
          (laws.entries-next_sequence b)

  write-sequence :
      (now : ℕ) (body : Body) (b : Bucket) → bolt.sequence (write now body b) ≡ bolt.sequence b + 1
  write-sequence now body b =
      laws.sequence-put (now * id_mod + bolt.sequence (bolt.next_sequence b)) body
        (bolt.next_sequence b)
      ∙ laws.sequence-next_sequence b

  write-Fresh :
      (now : ℕ) (b : Bucket)
      → bolt.sequence b + 1 < id_mod
      → Keyed b
      → Fresh (now * id_mod + bolt.sequence (bolt.next_sequence b)) (bolt.entries b)
  write-Fresh now b h i =
      Issued-Fresh (bolt.sequence b) (now * id_mod + bolt.sequence (bolt.next_sequence b))
        (bolt.entries b) (omega (arith, write_key now b h)) i.issued

  write-Keyed :
      (now : ℕ) (body : Body) (b : Bucket)
      → bolt.sequence b + 1 < id_mod
      → Keyed b
      → Keyed (write now body b)
  write-Keyed now body b h i =
      let k : ℕ = now * id_mod + bolt.sequence (bolt.next_sequence b) in
      let es = bolt.entries b in
      record {
        unique =
            subst UniqueKeys (sym (write-entries now body b))
              (UniqueKeys-place k body es (write-Fresh now b h i) i.unique);
        issued =
            subst (λ n. Issued n (bolt.entries (write now body b)))
              (sym (write-sequence now body b))
              (subst (Issued (bolt.sequence b + 1)) (sym (write-entries now body b)) (
                Issued-place (bolt.sequence b + 1) k body es (omega (arith, write_key now b h))
                  (Issued-mono (bolt.sequence b) (bolt.sequence b + 1) es (omega arith) i.issued)));
      }

  write-count :
      (now : ℕ) (x body : Body) (b : Bucket)
      → bolt.sequence b + 1 < id_mod
      → Keyed b
      → count x (bolt.entries (write now body b))
        ≡ ite (Body-discrete body x) 1 0 + count x (bolt.entries b)
  write-count now x body b h i =
      ap (count x) (write-entries now body b)
      ∙ count-place x body (now * id_mod + bolt.sequence (bolt.next_sequence b)) (bolt.entries b)
          (write-Fresh now b h i)

  -- What an Enqueue does to the spool: on success the batch is one more, on an error nothing is.
  pub record Enqueued (x body : Body) (s s' : Stored Bucket) (failed : Bool) : Type 0 where
    pub keyed : Keyed s'.bucket
    pub sequence_le : bolt.sequence s'.bucket ≤ bolt.sequence s.bucket + 1
    pub counted : total x s' ≡ (if failed then 0 else ite (Body-discrete body x) 1 0) + total x s

  pub enqueue-Enqueued :
      (max_bytes now : ℕ) (disk : Disk) (x body : Body) (s : Stored Bucket)
      → Keyed s.bucket
      → bolt.sequence s.bucket + 1 < id_mod
      → Enqueued x body s
          (enqueue bolt max_bytes now disk body s).0
          (enqueue bolt max_bytes now disk body s).1
  unfolding enqueue drop_oldest
  enqueue-Enqueued max_bytes now disk x body s h l =
      let d = drop_loop bolt (length body + 4096) 0 disk.visited s in
      let dk = drop_loop-Keyed (length body + 4096) 0 disk.visited s h in
      let dt = drop_loop-total x (length body + 4096) 0 disk.visited s in
      let ds = drop_loop-sequence (length body + 4096) 0 disk.visited s in
      let dl : bolt.sequence d.bucket + 1 < id_mod = omega (arith, ds) in
      record {
        keyed =
            grind
              (arith, dk, write-Keyed now body d.bucket dl dk, write-Keyed now body s.bucket l h);
        sequence_le =
            ground (arith, ds, write-sequence now body d.bucket, write-sequence now body s.bucket);
        counted =
            ground (
              arith,
              dt,
              write-count now x body d.bucket dl dk,
              write-count now x body s.bucket l h,
            );
      }
