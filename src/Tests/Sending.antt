-- ===== src/Tests/Sending.antt =====
-- The agent's spool and transport at concrete inputs.
use server_monitor.Common.{
  ℕ, ◌+◌, ◌*◌, ◌≡◌, refl, arith, true, false, not, ◌==◌, none, some, List, [], ◌∷◌, keep, ◌++◌,
  if◌then◌else◌,
}
use server_monitor.Spool.{
  Entry, id_mod, Bolt, place, BoltLaws, Disk, Stored, enqueue, peek, delete_key,
}
use server_monitor.Spool.Order.{first_of, enqueue-append}
use server_monitor.Transport.{
  Answer, Ack, unreachable, response, Client, waiting, millisecond, drain_round, send, after_post,
  post_bytes, is_retryable, drain_from, drain_entry, handle_ack,
}
use server_monitor.Transport.Draining.{rounds, rounds-empty}
use server_monitor.Transport.Runs.{step, Step, submit, drain, World, run, Conserved, run-Conserved}

-- A bucket that is the list of its entries, with its sequence.
abbrev Memory : Type 0
Memory = List Entry × ℕ

abbrev memory : Bolt Memory
memory = record {
  entries = λ b. b.0;
  sequence = λ b. b.1;
  next_sequence = λ b. (b.0, b.1 + 1);
  put = λ k v b. (place k v b.0, b.1);
  delete = λ k b. (keep (λ e. not (e.0 == k)) b.0, b.1);
}

abbrev memory_laws : BoltLaws memory
memory_laws = record {
  entries-put = λ k v b. refl;
  entries-delete = λ k b. refl;
  entries-next_sequence = λ b. refl;
  sequence-next_sequence = λ b. refl;
  sequence-put = λ k v b. refl;
  sequence-delete = λ k b. refl;
}

abbrev healthy : Disk
healthy = record { file_size = some 4096; visited = []; drop_commits = true; put_commits = true }

abbrev empty_spool : Stored Memory
empty_spool = record { bucket = ([], 0); evicted = [] }

abbrev one_batch : Stored Memory
one_batch = record { bucket = ((5 * id_mod + 1, 7 ∷ []) ∷ [], 1); evicted = [] }

abbrev new_client : Client Memory
new_client = record {
  spool = some empty_spool;
  deregistered = false;
  applied_interval = 10;
  interval_ch = none;
  control_ch = none;
  browse_ch = false;
  ipban_ch = none;
  delivered = [];
  refused = [];
}

abbrev started : World Memory
started = record { client = new_client; drainer = waiting (1000 * millisecond); accepted = [] }

abbrev plain_ack : Ack
plain_ack = record {
  interval_s = 10;
  latest_agent_version = "";
  auto_upgrade = none;
  upgrade_now = false;
  server_pubkey = "";
  backup_browse_pending = false;
  ipban_version = 0;
}

-- The network is down for two batches; then the server answers to the drainer, whose first deletion fails.
abbrev outage : List Step
outage =
    drain (response 200 plain_ack) true
    ∷ drain (response 204 plain_ack) false
    ∷ submit 6 (response 503 plain_ack) healthy (some (2 ∷ []))
    ∷ submit 5 unreachable healthy (some (1 ∷ []))
    ∷ []

run_delivers :
    (run memory 1000000 outage started).client.delivered
    ≡ (5 * id_mod + 1, 1 ∷ []) ∷ (5 * id_mod + 1, 1 ∷ []) ∷ []
unfolding run step drain_round send after_post post_bytes is_retryable drain_from peek enqueue
    drain_entry handle_ack delete_key
run_delivers = refl

run-Conserved_example :
    Conserved memory memory_laws 1000000 (1 ∷ []) 4 started (run memory 1000000 outage started)
run-Conserved_example =
    run-Conserved memory memory_laws 1000000 (1 ∷ []) outage started
      (record { unique = tt; issued = tt }) (ground arith)

enqueue-append_example :
    ((enqueue memory 1000000 6 healthy (8 ∷ []) one_batch).0.bucket.0 ≡ (
      if (enqueue memory 1000000 6 healthy (8 ∷ []) one_batch).1
      then one_batch.bucket.0
      else one_batch.bucket.0 ++ ((6 * id_mod + (1 + 1), 8 ∷ []) ∷ [])))
    × (peek memory (enqueue memory 1000000 6 healthy (8 ∷ []) one_batch).0.bucket ≡ (
        if (enqueue memory 1000000 6 healthy (8 ∷ []) one_batch).1
        then peek memory one_batch.bucket
        else first_of (peek memory one_batch.bucket) (6 * id_mod + (1 + 1), 8 ∷ [])))
enqueue-append_example =
    enqueue-append memory memory_laws 1000000 6 healthy (8 ∷ []) one_batch refl (ground arith)
      (record { unique = (tt, tt); issued = (ground arith, tt) }) (ground arith, tt)

-- Two batches wait.
abbrev backlog : List Entry
backlog = (5 * id_mod + 1, 7 ∷ []) ∷ (6 * id_mod + 2, 8 ∷ []) ∷ []

abbrev two_batches : Stored Memory
two_batches = record { bucket = (backlog, 2); evicted = [] }

abbrev behind : World Memory
behind = record started { client = record new_client { spool = some two_batches } }

abbrev answers : List Answer
answers = response 200 plain_ack ∷ response 204 plain_ack ∷ []

rounds-empty_example :
    (left : Stored Memory) × ((rounds memory 1000000 answers behind).client.spool ≡ some left)
    × (left.bucket.0 ≡ [])
    × ((rounds memory 1000000 answers behind).client.delivered
        ≡ (6 * id_mod + 2, 8 ∷ []) ∷ (5 * id_mod + 1, 7 ∷ []) ∷ [])
rounds-empty_example =
    rounds-empty memory memory_laws 1000000 (1000 * millisecond) answers backlog two_batches behind
      ((ground arith, ground arith), ((ground arith, ground arith), tt)) refl
      ((λ e. ground (arith, e), tt), (tt, tt)) refl refl refl refl
