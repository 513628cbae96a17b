-- ===== src/Batcher/Shutdown.antt =====
-- The batcher over every legal sequence of steps.
use server_monitor.Common.{ℕ, ◌+◌, refl, arith, List, [], ◌∷◌}
use server_monitor.Batcher.{Batcher, new_batcher, Step, step}
use server_monitor.Batcher.Accounts.{Accounts, Allowed, taken_by, refused_by, step-Accounts}

-- The steps of a run, the latest first.
unfoldable pub run : List Step → Batcher → Batcher
run [] b = b
run (x ∷ xs) b = step x (run xs b)

abbrev pub Legal : List Step → Batcher → Type 0
Legal [] b = Unit
Legal (x ∷ xs) b = Allowed x (run xs b) × Legal xs b

abbrev pub taken : List Step → Batcher → ℕ
taken [] b = 0
taken (x ∷ xs) b = taken xs b + taken_by x (run xs b)

abbrev pub refused : List Step → Batcher → ℕ
refused [] b = 0
refused (x ∷ xs) b = refused xs b + refused_by x (run xs b)

run-Accounts :
    (t f : ℕ) (xs : List Step) (b : Batcher)
    → Legal xs b
    → Accounts t f b
    → Accounts (t + taken xs b) (f + refused xs b) (run xs b)
unfolding run
run-Accounts t f [] b l a = ground arith
run-Accounts t f (x ∷ xs) b l a =
    let before = run-Accounts t f xs b l.1 a in
    let after = step-Accounts (t + taken xs b) (f + refused xs b) x (run xs b) l.0 before in
    ground (arith, after)

-- A caller commits and releases what it reserved. Then every row that a new batcher took or turned away is, after any
-- steps and whatever copies fail, counted once: as flushed, and so many rows are in the database, as dropped, or it is
-- in the buffer or the queue; and what is reserved is room in the queue.
pub run-new_batcher-Accounts :
    (max_rows max_age : ℕ) (xs : List Step)
    → Legal xs (new_batcher max_rows max_age)
    → Accounts
        (taken xs (new_batcher max_rows max_age))
        (refused xs (new_batcher max_rows max_age))
        (run xs (new_batcher max_rows max_age))
unfolding new_batcher
run-new_batcher-Accounts max_rows max_age xs l =
    let b = new_batcher max_rows max_age in
    let start : Accounts 0 0 b = record { accounted = refl; counted = refl; room = omega arith } in
    ground (arith, run-Accounts 0 0 xs b l start)
