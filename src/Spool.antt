-- ===== src/Spool.antt =====
-- internal/agent/spool/spool.go: the batches that wait on the agent's disk. The bbolt database is a
-- parameter: a bucket with its entries in the order of their keys, and transactions that may fail.
pub mod Accounts
pub mod Keys
pub mod Order
use server_monitor.Common.{
  ℕ, ◌+◌, ◌*◌, ◌^◌, ◌≡◌, Bool, true, false, not, ◌&&◌, ltb, leb, if◌then◌else◌, ◌==◌, Option, none,
  some, List, [], ◌∷◌, ◌++◌, length, keep,
}

-- The bytes of a batch.
abbrev pub Body : Type 0
Body = List ℕ

-- A key is 16 bytes, the time and the sequence number in big-endian order, read as one number: the order
-- of the bytes is the order of the numbers.
abbrev pub Entry : Type 0
Entry = ℕ × Body

abbrev pub id_mod : ℕ
id_mod = 2 ^ 64

-- The bucket of bbolt: its entries in key order, its sequence, and what a committed transaction changes.
pub record Bolt (Bucket : Type 0) : Type 0 where
  pub entries : Bucket → List Entry
  pub sequence : Bucket → ℕ
  pub next_sequence : Bucket → Bucket
  pub put : ℕ → Body → Bucket → Bucket
  pub delete : ℕ → Bucket → Bucket

-- A put in the order of the keys; an entry with the same key is replaced.
abbrev pub place : ℕ → Body → List Entry → List Entry
place k v [] = (k, v) ∷ []
place k v ((j, w) ∷ es) =
    if ltb k j then (k, v) ∷ (j, w) ∷ es else if k == j then (k, v) ∷ es else (j, w) ∷ place k v es

-- What bbolt documents of these operations.
pub record BoltLaws {Bucket : Type 0} (bolt : Bolt Bucket) : Type 0 where
  pub entries-put :
      (k : ℕ) (v : Body) (b : Bucket) → bolt.entries (bolt.put k v b) ≡ place k v (bolt.entries b)
  pub entries-delete :
      (k : ℕ) (b : Bucket)
      → bolt.entries (bolt.delete k b) ≡ keep (λ e. not (e.0 == k)) (bolt.entries b)
  pub entries-next_sequence : (b : Bucket) → bolt.entries (bolt.next_sequence b) ≡ bolt.entries b
  pub sequence-next_sequence :
      (b : Bucket) → bolt.sequence (bolt.next_sequence b) ≡ bolt.sequence b + 1
  pub sequence-put :
      (k : ℕ) (v : Body) (b : Bucket) → bolt.sequence (bolt.put k v b) ≡ bolt.sequence b
  pub sequence-delete : (k : ℕ) (b : Bucket) → bolt.sequence (bolt.delete k b) ≡ bolt.sequence b

-- What the system answers during one Enqueue: the size of the file, if os.Stat gave it, the entries that the
-- cursor of dropOldest visits while they are deleted, and whether the two transactions commit.
pub record Disk : Type 0 where
  pub file_size : Option ℕ
  pub visited : List Entry
  pub drop_commits : Bool
  pub put_commits : Bool

-- A bucket, with the entries that dropOldest removed from it.
pub record Stored (Bucket : Type 0) : Type 0 where
  pub bucket : Bucket
  pub evicted : List Entry

module _ {Bucket : Type 0} (bolt : Bolt Bucket) where
  abbrev evict : ℕ → Stored Bucket → Stored Bucket
  evict k s = record {
    bucket = bolt.delete k s.bucket;
    evicted = keep (λ e. e.0 == k) (bolt.entries s.bucket) ++ s.evicted;
  }

  -- The loop of dropOldest.
  unfoldable pub drop_loop : ℕ → ℕ → List Entry → Stored Bucket → Stored Bucket
  drop_loop min_freed freed [] s = s
  drop_loop min_freed freed ((k, v) ∷ es) s =
      let s' = evict k s in
      let rest = drop_loop min_freed (freed + length v) es s' in
      if leb min_freed (freed + length v) then s' else rest

  -- dropOldest, and whether it failed.
  unfoldable pub drop_oldest : ℕ → Disk → Stored Bucket → Stored Bucket × Bool
  drop_oldest min_freed disk s =
      if disk.drop_commits then (drop_loop min_freed 0 disk.visited s, false) else (s, true)

  abbrev pub over_limit : ℕ → Option ℕ → Bool
  over_limit max_bytes none = false
  over_limit max_bytes (some size) = ltb 0 max_bytes && ltb max_bytes size

  -- Enqueue at a time, and whether it failed.
  unfoldable pub enqueue : ℕ → ℕ → Disk → Body → Stored Bucket → Stored Bucket × Bool
  enqueue max_bytes now disk body s =
      let (dropped, drop_failed) = drop_oldest (length body + 4096) disk s in
      let (s', failed) =
        if over_limit max_bytes disk.file_size then (dropped, drop_failed) else (s, false) in
      let b = bolt.next_sequence s'.bucket in
      let written = record s' { bucket = bolt.put (now * id_mod + bolt.sequence b) body b } in
      if failed then (s', true) else if disk.put_commits then (written, false) else (s', true)

  -- Peek: the first entry, if there is one.
  unfoldable pub peek : Bucket → Option Entry
  peek b = elim (bolt.entries b) [ [] ↦ none | e ∷ es ↦ some e ]

  -- Delete, where the transaction may fail.
  unfoldable pub delete_key : Bool → ℕ → Bucket → Bucket
  delete_key commits k b = if commits then bolt.delete k b else b
