-- ===== src/Spool/Order.antt =====
-- The order of the entries in a spool.
use server_monitor.Common.{
  ℕ, ◌+◌, ◌*◌, ◌/◌, ◌≤◌, ◌<◌, ◌≡◌, refl, arith, false, if◌then◌else◌, Bool, Option, none, some,
  List, [], ◌∷◌, ◌++◌,
}
use server_monitor.Spool.{
  Body, Entry, id_mod, Bolt, place, BoltLaws, Disk, Stored, over_limit, enqueue, peek,
}
use server_monitor.Spool.Keys.{Issued}
use server_monitor.Spool.Accounts.{Keyed, write-entries}

-- The times in the keys.
abbrev pub NotAfter : ℕ → List Entry → Type 0
NotAfter now [] = Unit
NotAfter now ((k, v) ∷ es) = (k / id_mod ≤ now) × NotAfter now es

place-last :
    (now n k : ℕ) (v : Body) (es : List Entry)
    → k ≡ now * id_mod + (n + 1)
    → n + 1 < id_mod
    → NotAfter now es
    → Issued n es
    → place k v es ≡ es ++ ((k, v) ∷ [])
place-last now n k v [] e l a i = refl
place-last now n k v ((j, w) ∷ es) e l a i =
    let before : j < k = omega arith in ground (arith, place-last now n k v es e l a.1 i.1)

-- The first entry of a queue, once one more came behind the others.
abbrev pub first_of : Option Entry → Entry → Option Entry
first_of none e = some e
first_of (some f) e = some f

module _ {Bucket : Type 0} (bolt : Bolt Bucket) (laws : BoltLaws bolt) where
  peek-entries :
      (b b' : Bucket) (failed : Bool) (e : Entry)
      → bolt.entries b' ≡ (if failed then bolt.entries b else bolt.entries b ++ (e ∷ []))
      → peek bolt b' ≡ (if failed then peek bolt b else first_of (peek bolt b) e)
  unfolding peek
  peek-entries b b' failed e h = ground (arith, h)

  enqueue_entries :
      (max_bytes now : ℕ) (disk : Disk) (body : Body) (s : Stored Bucket)
      → over_limit bolt max_bytes disk.file_size ≡ false
      → bolt.sequence s.bucket + 1 < id_mod
      → Keyed bolt laws s.bucket
      → NotAfter now (bolt.entries s.bucket)
      → bolt.entries (enqueue bolt max_bytes now disk body s).0.bucket ≡ (
          if (enqueue bolt max_bytes now disk body s).1
          then bolt.entries s.bucket
          else bolt.entries s.bucket ++ ((now * id_mod + (bolt.sequence s.bucket + 1), body) ∷ []))
  unfolding enqueue
  enqueue_entries max_bytes now disk body s o l h a =
      let k : ℕ = now * id_mod + (bolt.sequence s.bucket + 1) in
      ground (
        arith,
        o,
        write-entries bolt laws now body s.bucket,
        laws.sequence-next_sequence s.bucket,
        place-last now (bolt.sequence s.bucket) k body (bolt.entries s.bucket) refl l a h.issued,
      )

  -- The spool is not over its limit, the keys are its own, and no key is from after now. An Enqueue that succeeds puts
  -- the batch behind all others, and Peek still gives what it gave before, or the batch where it gave nothing; an Enqueue
  -- that fails leaves the entries, and what Peek gives, as they are.
  pub enqueue-append :
      (max_bytes now : ℕ) (disk : Disk) (body : Body) (s : Stored Bucket)
      → over_limit bolt max_bytes disk.file_size ≡ false
      → bolt.sequence s.bucket + 1 < id_mod
      → Keyed bolt laws s.bucket
      → NotAfter now (bolt.entries s.bucket)
      → (bolt.entries (enqueue bolt max_bytes now disk body s).0.bucket ≡ (
          if (enqueue bolt max_bytes now disk body s).1
          then bolt.entries s.bucket
          else bolt.entries s.bucket ++ ((now * id_mod + (bolt.sequence s.bucket + 1), body) ∷ [])))
        × (peek bolt (enqueue bolt max_bytes now disk body s).0.bucket ≡ (
            if (enqueue bolt max_bytes now disk body s).1
            then peek bolt s.bucket
            else first_of (peek bolt s.bucket) (now * id_mod + (bolt.sequence s.bucket + 1), body)))
  enqueue-append max_bytes now disk body s o l h a =
      let e = enqueue_entries max_bytes now disk body s o l h a in
      (
        e,
        peek-entries s.bucket (enqueue bolt max_bytes now disk body s).0.bucket
            (enqueue bolt max_bytes now disk body s).1
            (now * id_mod + (bolt.sequence s.bucket + 1), body) e,
      )
