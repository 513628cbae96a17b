-- ===== src/Transport/Conservation.antt =====
-- Where the batches are that Send took: delivered, refused, in the spool, or evicted from it.
use mathlib.Core.Path.{subst}
use server_monitor.Common.{
  sym, ap, ℕ, ◌+◌, ◌*◌, ◌≤◌, ◌<◌, ◌≡◌, refl, arith, Bool, true, false, if◌then◌else◌, Option, none,
  some, List, [], ◌∷◌, ite,
}
use server_monitor.Spool.{Body, Entry, id_mod, Bolt, BoltLaws, Disk, Stored, peek, delete_key}
use server_monitor.Spool.Keys.{Body-discrete, count, UniqueKeys, count-keep, Fresh-count}
use server_monitor.Spool.Accounts.{Keyed, total, delete-Keyed, enqueue-Enqueued}
use server_monitor.Transport.{
  Answer, SendError, Client, post_bytes, after_post, send, drain_entry, drain_from, drain_round,
  millisecond, Drainer, waiting, returned,
}
use server_monitor.Transport.Posting.{post_bytes-Posted}

abbrev pub one : Body → Body → ℕ
one body x = ite (Body-discrete body x) 1 0

module _ {Bucket : Type 0} (bolt : Bolt Bucket) (laws : BoltLaws bolt) where
  abbrev spooled : Body → Option (Stored Bucket) → ℕ
  spooled x none = 0
  spooled x (some s) = total bolt laws x s

  -- How often a batch was delivered or refused, or is in the spool or evicted from it.
  abbrev pub held : Body → Client Bucket → ℕ
  held x c = count x c.delivered + count x c.refused + spooled x c.spool

  abbrev pub spool_sequence : Option (Stored Bucket) → ℕ
  spool_sequence none = 0
  spool_sequence (some s) = bolt.sequence s.bucket

  abbrev pub KeyedSpool : Option (Stored Bucket) → Type 0
  KeyedSpool none = Unit
  KeyedSpool (some s) = Keyed bolt laws s.bucket

  -- A step keeps the keys of the spool, uses one sequence number at most, and loses nothing.
  pub record Kept (x : Body) (gained : ℕ) (c c' : Client Bucket) : Type 0 where
    pub keyed : KeyedSpool c'.spool
    pub sequence_le : spool_sequence c'.spool ≤ spool_sequence c.spool + 1
    pub kept : gained + held x c ≤ held x c'

  abbrev pub gain : Body → Body → Option SendError → ℕ
  gain x body none = one body x
  gain x body (some _) = 0

  after_post-Kept :
      (max_bytes now : ℕ) (disk : Disk) (x body : Body) (c : Client Bucket)
      (o : Option (Stored Bucket)) (err : SendError)
      → c.spool ≡ o
      → KeyedSpool o
      → spool_sequence o + 1 < id_mod
      → Kept x
          (gain x body (after_post bolt max_bytes now disk body c (some err)).1)
          c
          (after_post bolt max_bytes now disk body c (some err)).0
  unfolding after_post
  after_post-Kept max_bytes now disk x body c none err e h l = record {
    keyed = grind (arith, e, h);
    sequence_le = ground (arith, e);
    kept = ground (arith, e);
  }
  after_post-Kept max_bytes now disk x body c (some s) err e h l =
      let q = enqueue-Enqueued bolt laws max_bytes now disk x body s h l in
      record {
        keyed = grind (arith, q.keyed, e, h);
        sequence_le = ground (arith, q.sequence_le, e);
        kept = ground (arith, q.counted, e);
      }

  post_bytes-Kept :
      (answer : Answer) (x : Body) (e : Entry) (c : Client Bucket)
      → KeyedSpool c.spool
      → Kept x (gain x e.1 (post_bytes answer e c).1) c (post_bytes answer e c).0
  post_bytes-Kept answer x e c h =
      let p = post_bytes-Posted answer e c in
      record {
        keyed = subst KeyedSpool (sym p.same_spool) h;
        sequence_le = ground (arith, p.same_spool);
        kept = ground (arith, p.same_spool, p.same_refused, p.taken);
      }

  after_post-any :
      (max_bytes now : ℕ) (disk : Disk) (x body : Body) (c c' : Client Bucket)
      (err : Option SendError)
      → c'.spool ≡ c.spool
      → spool_sequence c.spool + 1 < id_mod
      → Kept x (gain x body err) c c'
      → Kept x
          (gain x body (after_post bolt max_bytes now disk body c' err).1)
          c
          (after_post bolt max_bytes now disk body c' err).0
  unfolding after_post
  after_post-any max_bytes now disk x body c c' none e l k = k
  after_post-any max_bytes now disk x body c c' (some err) e l k =
      let l' : spool_sequence c'.spool + 1 < id_mod =
        subst (λ o. spool_sequence o + 1 < id_mod) (sym e) l in
      let k' = after_post-Kept max_bytes now disk x body c' c'.spool err refl k.keyed l' in
      record {
        keyed = k'.keyed;
        sequence_le = omega (arith, k'.sequence_le, ap spool_sequence e);
        kept = omega (arith, k.kept, k'.kept);
      }

  pub send-Kept :
      (max_bytes now : ℕ) (answer : Answer) (disk : Disk) (x body : Body) (c : Client Bucket)
      → KeyedSpool c.spool
      → spool_sequence c.spool + 1 < id_mod
      → Kept x
          (gain x body (send bolt max_bytes now answer disk (some body) c).1)
          c
          (send bolt max_bytes now answer disk (some body) c).0
  unfolding send
  send-Kept max_bytes now answer disk x body c h l =
      let p = post_bytes-Posted answer (0, body) c in
      after_post-any max_bytes now disk x body c (post_bytes answer (0, body) c).0
        (post_bytes answer (0, body) c).1 p.same_spool l (post_bytes-Kept answer x (0, body) c h)

  delete_key-total :
      (x body : Body) (key : ℕ) (commits : Bool) (es : List Entry) (s : Stored Bucket)
      → bolt.entries s.bucket ≡ (key, body) ∷ es
      → Keyed bolt laws s.bucket
      → total bolt laws x s
        ≤ one body x
          + total bolt laws x (record s { bucket = delete_key bolt commits key s.bucket })
  unfolding delete_key
  delete_key-total x body key false es s e h = omega arith
  delete_key-total x body key true es s e h =
      let u : UniqueKeys ((key, body) ∷ es) = subst UniqueKeys e h.unique in
      ground
        (arith, laws.entries-delete key s.bucket, e, Fresh-count x key es u.0, count-keep x key es)

  delete_key-Keyed :
      (key : ℕ) (commits : Bool) (b : Bucket)
      → Keyed bolt laws b
      → Keyed bolt laws (delete_key bolt commits key b)
  unfolding delete_key
  delete_key-Keyed key true b h = delete-Keyed bolt laws key b h
  delete_key-Keyed key false b h = h

  delete_key-sequence :
      (key : ℕ) (commits : Bool) (b : Bucket)
      → bolt.sequence (delete_key bolt commits key b) ≡ bolt.sequence b
  unfolding delete_key
  delete_key-sequence key true b = laws.sequence-delete key b
  delete_key-sequence key false b = refl

  drain_entry-Kept :
      (answer : Answer) (commits : Bool) (wait : ℕ) (x body : Body) (key : ℕ) (es : List Entry)
      (s : Stored Bucket) (c : Client Bucket)
      → c.spool ≡ some s
      → bolt.entries s.bucket ≡ (key, body) ∷ es
      → KeyedSpool c.spool
      → Kept x 0 c (drain_entry bolt answer commits wait (key, body) s c).0
  unfolding drain_entry
  drain_entry-Kept answer commits wait x body key es s c e f h =
      let p = post_bytes-Posted answer (key, body) c in
      let hs : Keyed bolt laws s.bucket = subst KeyedSpool e h in
      let t = delete_key-total x body key commits es s f hs in
      record {
        keyed = grind (arith, e, p.same_spool, hs, delete_key-Keyed key commits s.bucket hs);
        sequence_le = ground (arith, e, p.same_spool, delete_key-sequence key commits s.bucket);
        kept = ground (arith, e, p.same_spool, p.same_refused, p.taken, t);
      }

  Kept-refl : (x : Body) (c : Client Bucket) → KeyedSpool c.spool → Kept x 0 c c
  Kept-refl x c h = record { keyed = h; sequence_le = omega arith; kept = omega arith }

  -- What Peek gives is the first entry.
  first-entries :
      (e : Entry) (es : List Entry)
      → (elim es as (λ _. Option Entry) [ [] ↦ none | f ∷ _ ↦ some f ]) ≡ some e
      → (rest : List Entry) × (es ≡ e ∷ rest)
  first-entries e [] h = absurd (ground arith)
  first-entries e (f ∷ es) h = (es, ground arith)

  peek-entries :
      (e : Entry) (b : Bucket)
      → peek bolt b ≡ some e
      → (rest : List Entry) × (bolt.entries b ≡ e ∷ rest)
  unfolding peek
  peek-entries e b h = first-entries e (bolt.entries b) h

  drain_peeked-Kept :
      (answer : Answer) (commits : Bool) (wait : ℕ) (x : Body) (s : Stored Bucket)
      (c : Client Bucket) (o : Option Entry)
      → c.spool ≡ some s
      → KeyedSpool c.spool
      → peek bolt s.bucket ≡ o
      → Kept x 0 c
          (elim o as (λ _. Client Bucket × Drainer) [
            | none ↦ (c, waiting (30000 * millisecond))
            | some e ↦ drain_entry bolt answer commits wait e s c
          ]).0
  drain_peeked-Kept answer commits wait x s c none e h f = Kept-refl x c h
  drain_peeked-Kept answer commits wait x s c (some (key, body)) e h f =
      let (rest, g) = peek-entries (key, body) s.bucket f in
      drain_entry-Kept answer commits wait x body key rest s c e g h

  drain_spool-Kept :
      (answer : Answer) (commits : Bool) (wait : ℕ) (x : Body) (c : Client Bucket) (over : Bool)
      (o : Option (Stored Bucket))
      → c.spool ≡ o
      → KeyedSpool c.spool
      → Kept x 0 c
          (if over then (c, returned) else elim o as (λ _. Client Bucket × Drainer) [
            | none ↦ (c, returned)
            | some s ↦ drain_from bolt answer commits wait s c
          ]).0
  unfolding drain_from
  drain_spool-Kept answer commits wait x c true o e h = Kept-refl x c h
  drain_spool-Kept answer commits wait x c false none e h = Kept-refl x c h
  drain_spool-Kept answer commits wait x c false (some s) e h =
      drain_peeked-Kept answer commits wait x s c (peek bolt s.bucket) e h refl

  pub drain_round-Kept :
      (answer : Answer) (commits : Bool) (wait : ℕ) (x : Body) (c : Client Bucket)
      → KeyedSpool c.spool
      → Kept x 0 c (drain_round bolt answer commits wait c).0
  unfolding drain_round
  drain_round-Kept answer commits wait x c h =
      drain_spool-Kept answer commits wait x c c.deregistered c.spool refl h
