-- ===== src/Transport/Draining.antt =====
-- The drainer while the server takes what it sends.
use server_monitor.Common.{
  ℕ, ◌*◌, ◌≤◌, ◌<◌, ◌≡◌, refl, ap, ◌∙◌, arith, Bool, true, false, not, ◌==◌, some, List, [], ◌∷◌,
  length, keep, All,
}
use server_monitor.Spool.{Body, Entry, Bolt, BoltLaws, Stored, peek, delete_key}
use server_monitor.Spool.Keys.{Fresh, UniqueKeys}
use server_monitor.Transport.{
  Ack, Answer, unreachable, response, Client, drain_entry, drain_from, drain_round, Drainer,
  waiting, millisecond,
}
use server_monitor.Transport.Posting.{handle_ack-deregistered, post_bytes-accepted}
use server_monitor.Transport.Runs.{drain, World, step}

-- Rounds of the drainer with these answers, the first first, whose deletions commit.
unfoldable pub rounds :
    {Bucket : Type 0} → Bolt Bucket → ℕ → List Answer → World Bucket → World Bucket
rounds bolt max_bytes [] w = w
rounds bolt max_bytes (a ∷ as') w = rounds bolt max_bytes as' (step bolt max_bytes (drain a true) w)

-- The batches delivered in this order, the latest first, before those of earlier.
abbrev pub delivered_in_order : List Entry → List Entry → List Entry
delivered_in_order [] ds = ds
delivered_in_order (e ∷ es) ds = delivered_in_order es (e ∷ ds)

-- The server takes the batch.
abbrev pub Accepts : Answer → Type 0
Accepts unreachable = ⊥
Accepts (response status ack) = (200 ≤ status) × (status < 300)

keep-Fresh : (k : ℕ) (es : List Entry) → Fresh k es → keep (λ e. not (e.0 == k)) es ≡ es
keep-Fresh k [] f = refl
keep-Fresh k ((j, v) ∷ es) f = ground (arith, f, keep-Fresh k es f.1)

module _ {Bucket : Type 0} (bolt : Bolt Bucket) (laws : BoltLaws bolt) where
  record Round (e : Entry) (es : List Entry) (c : Client Bucket) (x : Client Bucket × Drainer)
      : Type 0 where
    left : Stored Bucket
    spool : x.0.spool ≡ some left
    remaining : bolt.entries left.bucket ≡ es
    delivered : x.0.delivered ≡ e ∷ c.delivered
    running : x.0.deregistered ≡ false
    again : x.1 ≡ waiting (250 * millisecond)

  drain_entry-Round :
      (status wait : ℕ) (ack : Ack) (k : ℕ) (v : Body) (es : List Entry) (s : Stored Bucket)
      (c : Client Bucket)
      → 200 ≤ status
      → status < 300
      → c.deregistered ≡ false
      → bolt.entries s.bucket ≡ (k, v) ∷ es
      → Fresh k es
      → Round (k, v) es c (drain_entry bolt (response status ack) true wait (k, v) s c)
  unfolding drain_entry delete_key
  drain_entry-Round status wait ack k v es s c lo hi n h f =
      let p = post_bytes-accepted status ack (k, v) c lo hi n in
      rw (drain_entry, p)
        (record {
          left = record s { bucket = bolt.delete k s.bucket };
          spool = refl;
          remaining =
              laws.entries-delete k s.bucket
              ∙ ap (keep (λ e. not (e.0 == k))) h
              ∙ ground (arith, keep-Fresh k es f);
          delivered = ap (λ x. x.0.delivered) p;
          running = ap (λ x. x.0.deregistered) p ∙ handle_ack-deregistered ack c ∙ n;
          again = refl;
        })

  drain_round-entry :
      (a : Answer) (commits : Bool) (wait : ℕ) (e : Entry) (es : List Entry) (s : Stored Bucket)
      (c : Client Bucket)
      → c.deregistered ≡ false
      → c.spool ≡ some s
      → bolt.entries s.bucket ≡ e ∷ es
      → drain_round bolt a commits wait c ≡ drain_entry bolt a commits wait e s c
  unfolding drain_round drain_from peek
  drain_round-entry a commits wait e es s c n h f = ground (arith, n, h, f)

  drain_round-Round :
      (a : Answer) (wait k : ℕ) (v : Body) (es : List Entry) (s : Stored Bucket) (c : Client Bucket)
      → Accepts a
      → c.deregistered ≡ false
      → c.spool ≡ some s
      → bolt.entries s.bucket ≡ (k, v) ∷ es
      → Fresh k es
      → Round (k, v) es c (drain_round bolt a true wait c)
  drain_round-Round unreachable wait k v es s c a n e h f = absurd a
  drain_round-Round (response status ack) wait k v es s c a n e h f =
      rw (drain_round-entry (response status ack) true wait (k, v) es s c n e h)
        (drain_entry-Round status wait ack k v es s c a.0 a.1 n h f)

  -- The drainer runs, and these entries wait in the spool.
  record Waiting (es : List Entry) (w : World Bucket) : Type 0 where
    store : Stored Bucket
    wait : ℕ
    spool : w.client.spool ≡ some store
    waits : bolt.entries store.bucket ≡ es
    runs : w.client.deregistered ≡ false
    drains : w.drainer ≡ waiting wait

  step-Waiting :
      (max_bytes : ℕ) (a : Answer) (k : ℕ) (v : Body) (es : List Entry) (w : World Bucket)
      → Accepts a
      → Fresh k es
      → Waiting ((k, v) ∷ es) w
      → Waiting es (step bolt max_bytes (drain a true) w)
        × ((step bolt max_bytes (drain a true) w).client.delivered ≡ (k, v) ∷ w.client.delivered)
  unfolding step
  step-Waiting max_bytes a k v es w h f o =
      let r = drain_round-Round a o.wait k v es o.store w.client h o.runs o.spool o.waits f in
      rw o.drains (
        record {
          store = r.left;
          wait = 250 * millisecond;
          spool = r.spool;
          waits = r.remaining;
          runs = r.running;
          drains = r.again;
        },
        r.delivered,
      )

  -- The server takes what it is sent, and the deletions commit. Then as many rounds as the spool has entries, with
  -- keys of their own, deliver them in their order, the oldest first, and leave the spool empty.
  pub rounds-empty :
      (max_bytes wait : ℕ) (as' : List Answer) (es : List Entry) (s : Stored Bucket)
      (w : World Bucket)
      → All Accepts as'
      → length as' ≡ length es
      → UniqueKeys es
      → w.client.spool ≡ some s
      → bolt.entries s.bucket ≡ es
      → w.client.deregistered ≡ false
      → w.drainer ≡ waiting wait
      → (left : Stored Bucket) × ((rounds bolt max_bytes as' w).client.spool ≡ some left)
        × (bolt.entries left.bucket ≡ [])
        × ((rounds bolt max_bytes as' w).client.delivered
            ≡ delivered_in_order es w.client.delivered)
  unfolding rounds
  rounds-empty max_bytes wait [] [] s w a l u e h n d = (s, e, h, refl)
  rounds-empty max_bytes wait [] (x ∷ es) s w a l u e h n d = absurd (ground arith)
  rounds-empty max_bytes wait (a ∷ as') [] s w h l u e f n d = absurd (ground arith)
  rounds-empty max_bytes wait (a ∷ as') ((k, v) ∷ es) s w h l u e f n d =
      let o : Waiting ((k, v) ∷ es) w = record {
        store = s;
        wait = wait;
        spool = e;
        waits = f;
        runs = n;
        drains = d;
      } in
      let (next, delivered) = step-Waiting max_bytes a k v es w h.0 u.0 o in
      let (left, spool, remaining, order) =
        rounds-empty max_bytes next.wait as' es next.store (step bolt max_bytes (drain a true) w)
          h.1 (omega arith) u.1 next.spool next.waits next.runs next.drains in
      (left, spool, remaining, order ∙ ap (delivered_in_order es) delivered)
