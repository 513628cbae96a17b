-- ===== src/Transport.antt =====
-- internal/agent/transport/client.go: sending batches to the server, and draining the spool. What the network,
-- the disk and the clock answer is given with each step; the channels of capacity 1 are options.
pub mod Runs
pub mod Posting
pub mod Conservation
pub mod Draining
use Prim.Native.String.{String}
use server_monitor.Common.{
  ℕ, ◌+◌, ◌*◌, Bool, true, false, not, ◌&&◌, ◌||◌, ltb, leb, if◌then◌else◌, ◌==◌, Option, none,
  some, List, [], ◌∷◌, is_some,
}
use server_monitor.Ipban.Tracker.{is_empty}
use server_monitor.Spool.{Body, Entry, Bolt, Disk, Stored, enqueue, peek, delete_key}

-- The acknowledgement in a response; what is absent is its zero value.
pub record Ack : Type 0 where
  pub interval_s : ℕ
  pub latest_agent_version : String
  pub auto_upgrade : Option Bool
  pub upgrade_now : Bool
  pub server_pubkey : String
  pub backup_browse_pending : Bool
  pub ipban_version : ℕ

pub record ControlUpdate : Type 0 where
  pub latest_version : String
  pub auto_upgrade : Option Bool
  pub upgrade_now : Bool
  pub server_pubkey : String

-- What a request gives: no response, or a status, with the acknowledgement if the body holds one.
pub data Answer : Type 0 where
  unreachable : Answer
  response : ℕ → Ack → Answer

pub data SendError : Type 0 where
  err_deregistered : SendError
  err_http : ℕ → SendError
  err_network : SendError
  err_encode : SendError
  err_spool : SendError

unfoldable pub retryable_status : ℕ → Bool
retryable_status status =
    if status == 408 || status == 429 || status == 404 || status == 405
    then true
    else if leb 300 status && leb status 399
    then true
    else leb 500 status && leb status 599

unfoldable pub is_retryable : Option SendError → Bool
unfolding retryable_status
is_retryable none = false
is_retryable (some err_deregistered) = false
is_retryable (some (err_http status)) = retryable_status status
is_retryable (some err_network) = true
is_retryable (some err_encode) = true
is_retryable (some err_spool) = true

abbrev pub millisecond : ℕ
millisecond = 1000000

unfoldable pub next_backoff : ℕ → ℕ
next_backoff d = if ltb (60000 * millisecond) (d * 2) then 60000 * millisecond else d * 2

-- The client, with the batches that the server took and those that it refused for good.
pub record Client (Bucket : Type 0) : Type 0 where
  pub spool : Option (Stored Bucket)
  pub deregistered : Bool
  pub applied_interval : ℕ
  pub interval_ch : Option ℕ
  pub control_ch : Option ControlUpdate
  pub browse_ch : Bool
  pub ipban_ch : Option ℕ
  pub delivered : List Entry
  pub refused : List Entry

-- The state of drainLoop: the time that it waits, until it returns.
pub data Drainer : Type 0 where
  waiting : ℕ → Drainer
  returned : Drainer

module _ {Bucket : Type 0} where
  -- The part of postBytes that reads the acknowledgement; a full channel of capacity 1 gets the newer value.
  unfoldable pub take_interval : ℕ → Client Bucket → Client Bucket
  take_interval s c =
      if ltb 0 s && not (s == c.applied_interval)
      then record c { applied_interval = s; interval_ch = some s }
      else c

  unfoldable pub take_control : Ack → Client Bucket → Client Bucket
  take_control ack c =
      if not (is_empty ack.latest_agent_version)
        || ack.upgrade_now
        || is_some ack.auto_upgrade
        || not (is_empty ack.server_pubkey)
      then record c {
        control_ch = some (record {
          latest_version = ack.latest_agent_version;
          auto_upgrade = ack.auto_upgrade;
          upgrade_now = ack.upgrade_now;
          server_pubkey = ack.server_pubkey;
        });
      }
      else c

  unfoldable pub handle_ack : Ack → Client Bucket → Client Bucket
  unfolding take_interval take_control
  handle_ack ack c =
      let c' = take_control ack (take_interval ack.interval_s c) in
      record c' {
        browse_ch = ack.backup_browse_pending || c'.browse_ch;
        ipban_ch = if ltb 0 ack.ipban_version then some ack.ipban_version else c'.ipban_ch;
      }

  -- postBytes; the key tells the batch in the lists of the client.
  unfoldable pub post_bytes : Answer → Entry → Client Bucket → Client Bucket × Option SendError
  post_bytes unreachable e c =
      if c.deregistered then (c, some err_deregistered) else (c, some err_network)
  post_bytes (response status ack) e c =
      let c' = handle_ack ack c in
      if c.deregistered
      then (c, some err_deregistered)
      else if leb 200 status && ltb status 300
      then (record c' { delivered = e ∷ c.delivered }, none)
      else if status == 410
      then (record c { deregistered = true }, some err_deregistered)
      else (c, some (err_http status))

  -- The end of Send, for what postBytes gave.
  unfoldable pub after_post :
      Bolt Bucket
      → ℕ
      → ℕ
      → Disk
      → Body
      → Client Bucket
      → Option SendError
      → Client Bucket × Option SendError
  after_post bolt max_bytes now disk body c none = (c, none)
  after_post bolt max_bytes now disk body c (some err) =
      if not (is_retryable (some err))
      then (record c { refused = (0, body) ∷ c.refused }, some err)
      else elim (c.spool) [
        | none ↦ (c, some err)
        | some s ↦
            let (s', failed) = enqueue bolt max_bytes now disk body s in
            (record c { spool = some s' }, if failed then some err_spool else none)
      ]

  -- Send, for what gzipJSON made of the batch.
  unfoldable pub send :
      Bolt Bucket
      → ℕ
      → ℕ
      → Answer
      → Disk
      → Option Body
      → Client Bucket
      → Client Bucket × Option SendError
  send bolt max_bytes now answer disk none c = (c, some err_encode)
  send bolt max_bytes now answer disk (some body) c =
      let (c', err) = post_bytes answer (0, body) c in
      after_post bolt max_bytes now disk body c' err

  -- One round of drainLoop after its wait, for a Peek that succeeded.
  unfoldable pub drain_entry :
      Bolt Bucket
      → Answer
      → Bool
      → ℕ
      → Entry
      → Stored Bucket
      → Client Bucket
      → Client Bucket × Drainer
  drain_entry bolt answer commits wait (key, body) s c =
      let (c', err) = post_bytes answer (key, body) c in
      let removed = record s { bucket = delete_key bolt commits key s.bucket } in
      elim err [
        | none ↦ (record c' { spool = some removed }, waiting (250 * millisecond))
        | some err_deregistered ↦ (c', returned)
        | some e ↦
            if not (is_retryable (some e))
            then (
              record c' { spool = some removed; refused = (key, body) ∷ c.refused },
              waiting (250 * millisecond),
            )
            else (c', waiting (next_backoff wait))
      ]

  unfoldable pub drain_from :
      Bolt Bucket → Answer → Bool → ℕ → Stored Bucket → Client Bucket → Client Bucket × Drainer
  drain_from bolt answer commits wait s c = elim (peek bolt s.bucket) [
    | none ↦ (c, waiting (30000 * millisecond))
    | some e ↦ drain_entry bolt answer commits wait e s c
  ]

  -- A round of drainLoop; without a spool it was never started.
  unfoldable pub drain_round :
      Bolt Bucket → Answer → Bool → ℕ → Client Bucket → Client Bucket × Drainer
  drain_round bolt answer commits wait c =
      if c.deregistered then (c, returned) else elim (c.spool) [
        | none ↦ (c, returned)
        | some s ↦ drain_from bolt answer commits wait s c
      ]
