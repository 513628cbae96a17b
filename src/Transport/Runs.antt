-- ===== src/Transport/Runs.antt =====
-- The transport over any sequence of its steps.
use server_monitor.Common.{
  ℕ, suc, ◌+◌, ◌≤◌, ◌<◌, ◌≡◌, refl, arith, Bool, Option, none, some, List, [], ◌∷◌, length,
}
use server_monitor.Spool.{Body, Entry, id_mod, Bolt, BoltLaws, Disk}
use server_monitor.Spool.Keys.{count}
use server_monitor.Transport.{
  Answer, SendError, Client, send, drain_round, Drainer, waiting, returned,
}
use server_monitor.Transport.Conservation.{
  KeyedSpool, held, gain, send-Kept, drain_round-Kept, spool_sequence,
}

-- Send of a batch, at a time, with what the network and the disk answer; or a round of the drainer, with whether the
-- deletion commits.
pub data Step : Type 0 where
  submit : ℕ → Answer → Disk → Option Body → Step
  drain : Answer → Bool → Step

-- The client, its drainer, and the batches for which Send returned no error.
pub record World (Bucket : Type 0) : Type 0 where
  pub client : Client Bucket
  pub drainer : Drainer
  pub accepted : List Entry

abbrev accept : Option Body → Option SendError → List Entry → List Entry
accept (some body) none es = (0, body) ∷ es
accept (some body) (some _) es = es
accept none err es = es

module _ {Bucket : Type 0} (bolt : Bolt Bucket) (max_bytes : ℕ) where
  abbrev drain_step : Answer → Bool → Drainer → World Bucket → World Bucket
  drain_step answer commits returned w = w
  drain_step answer commits (waiting wait) w =
      let (c, d) = drain_round bolt answer commits wait w.client in
      record w { client = c; drainer = d }

  unfoldable pub step : Step → World Bucket → World Bucket
  step (submit now answer disk body) w =
      let (c, err) = send bolt max_bytes now answer disk body w.client in
      record w { client = c; accepted = accept body err w.accepted }
  step (drain answer commits) w = drain_step answer commits w.drainer w

  -- The steps of a run, the latest first.
  unfoldable pub run : List Step → World Bucket → World Bucket
  run [] w = w
  run (x ∷ xs) w = step x (run xs w)

module _ {Bucket : Type 0} (bolt : Bolt Bucket) (laws : BoltLaws bolt) (max_bytes : ℕ) where
  pub record Conserved (x : Body) (n : ℕ) (w w' : World Bucket) : Type 0 where
    pub keyed : KeyedSpool bolt laws w'.client.spool
    pub sequence_le :
        spool_sequence bolt laws w'.client.spool ≤ spool_sequence bolt laws w.client.spool + n
    pub nothing_lost :
        count x w'.accepted + held bolt laws x w.client
        ≤ count x w.accepted + held bolt laws x w'.client

  drain_step-Conserved :
      (x : Body) (n : ℕ) (answer : Answer) (commits : Bool) (d : Drainer) (w w' : World Bucket)
      → Conserved x n w w'
      → Conserved x (suc n) w (drain_step bolt max_bytes answer commits d w')
  drain_step-Conserved x n answer commits returned w w' k = record {
    keyed = k.keyed;
    sequence_le = omega (arith, k.sequence_le);
    nothing_lost = k.nothing_lost;
  }
  drain_step-Conserved x n answer commits (waiting wait) w w' k =
      let q = drain_round-Kept bolt laws answer commits wait x w'.client k.keyed in
      record {
        keyed = q.keyed;
        sequence_le = omega (arith, k.sequence_le, q.sequence_le);
        nothing_lost = omega (arith, k.nothing_lost, q.kept);
      }

  count-accept :
      (x body : Body) (err : Option SendError) (es : List Entry)
      → count x (accept (some body) err es) ≡ gain bolt laws x body err + count x es
  count-accept x body none es = refl
  count-accept x body (some e) es = omega arith

  send_none :
      (n now : ℕ) (answer : Answer) (disk : Disk) (x : Body) (w w' : World Bucket)
      → Conserved x n w w'
      → Conserved x (suc n) w (step bolt max_bytes (submit now answer disk none) w')
  unfolding step send
  send_none n now answer disk x w w' k = record {
    keyed = k.keyed;
    sequence_le = omega (arith, k.sequence_le);
    nothing_lost = k.nothing_lost;
  }

  submit-Conserved :
      (x : Body) (n now : ℕ) (answer : Answer) (disk : Disk) (body : Option Body)
      (w w' : World Bucket)
      → spool_sequence bolt laws w'.client.spool + 1 < id_mod
      → Conserved x n w w'
      → Conserved x (suc n) w (step bolt max_bytes (submit now answer disk body) w')
  unfolding step
  submit-Conserved x n now answer disk none w w' l k = send_none n now answer disk x w w' k
  submit-Conserved x n now answer disk (some body) w w' l k =
      let q = send-Kept bolt laws max_bytes now answer disk x body w'.client k.keyed l in
      record {
        keyed = q.keyed;
        sequence_le = omega (arith, k.sequence_le, q.sequence_le);
        nothing_lost = omega (
          arith,
          k.nothing_lost,
          q.kept,
          count-accept x body (send bolt max_bytes now answer disk (some body) w'.client).1
              w'.accepted,
        );
      }

  step-Conserved :
      (x : Body) (n : ℕ) (a : Step) (w w' : World Bucket)
      → spool_sequence bolt laws w.client.spool + suc n < id_mod
      → Conserved x n w w'
      → Conserved x (suc n) w (step bolt max_bytes a w')
  unfolding step
  step-Conserved x n (submit now answer disk body) w w' l k =
      submit-Conserved x n now answer disk body w w' (omega (arith, k.sequence_le)) k
  step-Conserved x n (drain answer commits) w w' l k =
      drain_step-Conserved x n answer commits w'.drainer w w' k

  -- The keys of the spool are its own, and its sequence numbers do not run out. Whatever the network, the disk and the
  -- clock do, and in every order of sends and drains, no batch is lost: of each batch there are at least as many
  -- copies delivered, refused for good, in the spool or evicted from it as Send accepted, besides those from before.
  pub run-Conserved :
      (x : Body) (xs : List Step) (w : World Bucket)
      → KeyedSpool bolt laws w.client.spool
      → spool_sequence bolt laws w.client.spool + length xs < id_mod
      → Conserved x (length xs) w (run bolt max_bytes xs w)
  unfolding run
  run-Conserved x [] w h l = record {
    keyed = h;
    sequence_le = omega arith;
    nothing_lost = omega arith;
  }
  run-Conserved x (a ∷ xs) w h l =
      step-Conserved x (length xs) a w (run bolt max_bytes xs w) l
        (run-Conserved x xs w h (omega arith))
