-- ===== src/Tests/Ingest.antt =====
-- The batcher of the server at concrete inputs.
use server_monitor.Common.{◌≡◌, refl, arith, true, false, List, [], ◌∷◌}
use server_monitor.Batcher.{
  Row, Batcher, new_batcher, Step, put, hold, commit, release, take_row, timer, step, flush,
  receive, enqueue, release_reserved, commit_reserved, reserve,
}
use server_monitor.Batcher.Accounts.{Accounts}
use server_monitor.Batcher.Shutdown.{run, Legal, taken, refused, run-new_batcher-Accounts}

abbrev row : Row
row = record { time = 100; host_id = 1; metric = 2; labels = 3 ∷ []; value = 42 }

-- Two rows are reserved, one is committed and one released; a third is put. Of the buffer of one row, the first copy
-- fails and the second succeeds.
abbrev busy : List Step
busy =
    timer 20 true ∷ take_row 10 false ∷ put (row ∷ []) ∷ release 1 ∷ commit (row ∷ []) ∷ hold 2 ∷ []

busy_flushed : (run busy (new_batcher 1 5)).flushed ≡ 1
unfolding run new_batcher step flush receive enqueue release_reserved commit_reserved
busy_flushed = refl

busy-Legal : Legal busy (new_batcher 1 5)
unfolding run new_batcher step commit_reserved reserve
busy-Legal = (tt, (tt, (tt, (ground arith, (ground arith, (tt, tt))))))

run-new_batcher-Accounts_example :
    Accounts
      (taken busy (new_batcher 1 5))
      (refused busy (new_batcher 1 5))
      (run busy (new_batcher 1 5))
run-new_batcher-Accounts_example = run-new_batcher-Accounts 1 5 busy busy-Legal

-- A batcher with a row in its queue and one in its buffer.
abbrev full : Batcher
full = record {
  queue = row ∷ [];
  reserved = 0;
  max_rows = 10;
  retain_rows = 40;
  max_age = 5;
  dropped = 1;
  flushed = 0;
  buf = row ∷ [];
  retry_at = 0;
  written = [];
}
