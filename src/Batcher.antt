-- ===== src/Batcher.antt =====
-- internal/server/ingest/batcher.go: the queue of rows between the handlers and the database. A channel is the
-- list of what it holds; whether a copy to the database succeeds, and the clock, are given with each step.
-- The counters are numbers that do not wrap.
pub mod Accounts
pub mod Shutdown
use server_monitor.Common.{
  ℕ, zero, suc, ◌+◌, ◌-◌, ◌*◌, Bool, true, false, not, ◌&&◌, ltb, leb, if◌then◌else◌, ◌==◌, Option,
  none, some, List, [], ◌∷◌, ◌++◌, length, drop,
}

pub record Row : Type 0 where
  pub time : ℕ
  pub host_id : ℕ
  pub metric : ℕ
  pub labels : List ℕ
  pub value : ℕ

-- The capacity of the channel.
abbrev pub capacity : ℕ
capacity = 200000

-- The batcher with the variables of its loop, and the rows that the database has.
pub record Batcher : Type 0 where
  pub queue : List Row
  pub reserved : ℕ
  pub max_rows : ℕ
  pub retain_rows : ℕ
  pub max_age : ℕ
  pub dropped : ℕ
  pub flushed : ℕ
  pub buf : List Row
  pub retry_at : ℕ
  pub written : List Row

abbrev pub or_default : ℕ → ℕ → ℕ
or_default n d = if n == 0 then d else n

-- NewBatcher; an argument that is not positive is 0 here.
unfoldable pub new_batcher : ℕ → ℕ → Batcher
new_batcher max_rows max_age = record {
  queue = [];
  reserved = 0;
  max_rows = or_default max_rows 50000;
  retain_rows = or_default max_rows 50000 * 4;
  max_age = or_default max_age 2000000000;
  dropped = 0;
  flushed = 0;
  buf = [];
  retry_at = 0;
  written = [];
}

-- Reserve, and whether the queue was full.
unfoldable pub reserve : ℕ → Batcher → Batcher × Bool
reserve n b =
    if n == 0
    then (b, false)
    else if ltb (capacity - length b.queue - b.reserved) n
    then (record b { dropped = b.dropped + n }, true)
    else (record b { reserved = b.reserved + n }, false)

-- CommitReserved; `none` is a send to a full channel, which blocks.
unfoldable pub commit_reserved : List Row → Batcher → Option Batcher
commit_reserved [] b = some b
commit_reserved (r ∷ rs) b =
    let rest =
      commit_reserved rs (record b { queue = b.queue ++ (r ∷ []); reserved = b.reserved - 1 }) in
    if ltb (length b.queue) capacity then rest else none

unfoldable pub release_reserved : ℕ → Batcher → Batcher
release_reserved n b = record b { reserved = b.reserved - n }

-- Enqueue: `none` blocks; the flag tells that the queue was full.
unfoldable pub enqueue : List Row → Batcher → Option (Batcher × Bool)
unfolding reserve
enqueue rows b =
    let (b', full) = reserve (length rows) b in
    if full
    then some (b', true)
    else elim (commit_reserved rows b') [ none ↦ none | some b'' ↦ some (b'', false) ]

-- flush, for whether the copy succeeds.
unfoldable pub flush : ℕ → Bool → Batcher → Batcher
flush now copied b =
    if length b.buf == 0
    then b
    else if copied
    then record b { flushed = b.flushed + length b.buf; written = b.written ++ b.buf; buf = [] }
    else if ltb b.retain_rows (length b.buf)
    then record b {
      retry_at = now + b.max_age;
      dropped = b.dropped + (length b.buf - b.retain_rows);
      buf = drop (length b.buf - b.retain_rows) b.buf;
    }
    else record b { retry_at = now + b.max_age }

-- The case of the loop that receives a row.
unfoldable pub receive : ℕ → Bool → Batcher → Batcher
unfolding flush
receive now copied b = elim (b.queue) [
  | [] ↦ b
  | r ∷ rs ↦
      let b' = record b { queue = rs; buf = b.buf ++ (r ∷ []) } in
      if leb b.max_rows (length b'.buf) && leb b.retry_at now then flush now copied b' else b'
]

-- The attempts of drainAndFlush; each copy may succeed.
unfoldable pub attempts : ℕ → List Bool → Batcher → Batcher
attempts now [] b = b
attempts now (copied ∷ cs) b =
    let rest = attempts now cs (flush now copied b) in if length b.buf == 0 then b else rest

-- The receives of drainAndFlush, until the queue is empty.
unfoldable pub drain_queue : List Row → List Row → List Row
drain_queue [] buf = buf
drain_queue (r ∷ rs) buf = drain_queue rs (buf ++ (r ∷ []))

-- drainAndFlush, with the answers of the three copies; rows that stay in the buffer count as dropped.
unfoldable pub drain_and_flush : ℕ → Bool → Bool → Bool → Batcher → Batcher
drain_and_flush now c₁ c₂ c₃ b =
    let b' =
      attempts now (c₁ ∷ c₂ ∷ c₃ ∷ []) (record b { queue = []; buf = drain_queue b.queue b.buf }) in
    record b' { dropped = b'.dropped + length b'.buf }

-- What can happen: the operations, a row received, the timer.
pub data Step : Type 0 where
  put : List Row → Step
  hold : ℕ → Step
  commit : List Row → Step
  release : ℕ → Step
  take_row : ℕ → Bool → Step
  timer : ℕ → Bool → Step

abbrev pub or_same : Batcher → Option Batcher → Batcher
or_same b none = b
or_same b (some b') = b'

abbrev pub put_result : Batcher → Option (Batcher × Bool) → Batcher
put_result b none = b
put_result b (some (b', full)) = b'

unfoldable pub step : Step → Batcher → Batcher
step (put rows) b = put_result b (enqueue rows b)
step (hold n) b = (reserve n b).0
step (commit rows) b = or_same b (commit_reserved rows b)
step (release n) b = release_reserved n b
step (take_row now copied) b = receive now copied b
step (timer now copied) b = flush now copied b
