-- ===== src/Batcher/Accounts.antt =====
-- The rows of the batcher, counted (internal/server/ingest/batcher.go).
use mathlib.Core.List.{append-nil, append_assoc}
use server_monitor.Common.{
  ℕ, zero, suc, ◌+◌, ◌-◌, ◌≤◌, ◌≡◌, refl, arith, Bool, false, if◌then◌else◌, some, List, [], ◌∷◌,
  ◌++◌, length, drop, length-append, Bool-cases, inl, inr,
}
use server_monitor.Batcher.{
  Row, capacity, Batcher, reserve, commit_reserved, release_reserved, enqueue, flush, receive, Step,
  put, hold, commit, release, take_row, timer, or_same, put_result, step,
}

-- The rows that the operations took or refused so far.
pub record Accounts (taken refused : ℕ) (b : Batcher) : Type 0 where
  pub accounted : b.flushed + b.dropped + length b.buf + length b.queue ≡ taken + refused
  pub counted : length b.written ≡ b.flushed
  pub room : length b.queue + b.reserved ≤ capacity

pub length-drop {ℓ} : {A : Type ℓ} (n : ℕ) (xs : List A) → length (drop n xs) ≡ length xs - n
length-drop zero xs = omega arith
length-drop (suc n) [] = omega arith
length-drop (suc n) (x ∷ xs) = omega (arith, length-drop n xs)

-- Rows within the reservation are sent without blocking, behind the rows that are there.
pub commit_reserved-append :
    (rows : List Row) (b : Batcher)
    → length rows ≤ b.reserved
    → length b.queue + b.reserved ≤ capacity
    → commit_reserved rows b
      ≡ some (record b { queue = b.queue ++ rows; reserved = b.reserved - length rows })
unfolding commit_reserved
commit_reserved-append [] b h r = ground (arith, append-nil b.queue)
commit_reserved-append (x ∷ rows) b h r =
    let b' = record b { queue = b.queue ++ (x ∷ []); reserved = b.reserved - 1 } in
    ground (
      arith,
      commit_reserved-append rows b' (omega arith) (omega (arith, length-append b.queue (x ∷ []))),
      append_assoc b.queue (x ∷ []) rows,
    )

pub flush-Accounts :
    (t f now : ℕ) (copied : Bool) (b : Batcher) → Accounts t f b → Accounts t f (flush now copied b)
unfolding flush
flush-Accounts t f now copied b a =
    ground (arith, length-append b.written b.buf, length-drop (length b.buf - b.retain_rows) b.buf)

receive-Accounts :
    (t f now : ℕ) (copied : Bool) (b : Batcher) (q : List Row)
    → b.queue ≡ q
    → Accounts t f b
    → Accounts t f (receive now copied b)
unfolding receive
receive-Accounts t f now copied b [] e a = ground (arith, e)
receive-Accounts t f now copied b (r ∷ rs) e a =
    let b' = record b { queue = rs; buf = b.buf ++ (r ∷ []) } in
    let moved : Accounts t f b' = ground (arith, e, length-append b.buf (r ∷ [])) in
    let flushed = flush-Accounts t f now copied b' moved in ground (arith, e, moved, flushed)

reserve-Accounts :
    (t f n : ℕ) (b : Batcher)
    → Accounts t f b
    → Accounts t (if (reserve n b).1 then f + n else f) (reserve n b).0
unfolding reserve
reserve-Accounts t f n b a = ground arith

commit-Accounts :
    (t f : ℕ) (rows : List Row) (b : Batcher)
    → length rows ≤ b.reserved
    → Accounts t f b
    → Accounts (t + length rows) f (or_same b (commit_reserved rows b))
commit-Accounts t f rows b h a =
    ground (arith, commit_reserved-append rows b h a.room, length-append b.queue rows)

-- What a caller may do: it commits and releases what it reserved.
abbrev pub Allowed : Step → Batcher → Type 0
Allowed (put rows) b = Unit
Allowed (hold n) b = Unit
Allowed (commit rows) b = length rows ≤ b.reserved
Allowed (release n) b = n ≤ b.reserved
Allowed (take_row now copied) b = Unit
Allowed (timer now copied) b = Unit

-- The rows that a step adds, and those that it turns away.
abbrev pub taken_by : Step → Batcher → ℕ
taken_by (put rows) b = if (reserve (length rows) b).1 then 0 else length rows
taken_by (hold n) b = 0
taken_by (commit rows) b = length rows
taken_by (release n) b = 0
taken_by (take_row now copied) b = 0
taken_by (timer now copied) b = 0

abbrev pub refused_by : Step → Batcher → ℕ
refused_by (put rows) b = if (reserve (length rows) b).1 then length rows else 0
refused_by (hold n) b = if (reserve n b).1 then n else 0
refused_by (commit rows) b = 0
refused_by (release n) b = 0
refused_by (take_row now copied) b = 0
refused_by (timer now copied) b = 0

reserve_room : (n : ℕ) (b : Batcher) → (reserve n b).1 ≡ false → n ≤ (reserve n b).0.reserved
unfolding reserve
reserve_room n b h = ground arith

put-Accounts :
    (t f : ℕ) (rows : List Row) (b : Batcher)
    → Accounts t f b
    → Accounts
        (t + taken_by (put rows) b)
        (f + refused_by (put rows) b)
        (put_result b (enqueue rows b))
unfolding enqueue
put-Accounts t f rows b a =
    let r = reserve-Accounts t f (length rows) b a in
    elim (Bool-cases (reserve (length rows) b).1) [
      | inl full ↦ ground (arith, full, r)
      | inr room ↦
          let b' = (reserve (length rows) b).0 in
          let sent =
            commit_reserved-append rows b' (reserve_room (length rows) b room)
              (ground (arith, room, r)) in
          ground (arith, room, r, sent, length-append b'.queue rows)
    ]

pub step-Accounts :
    (t f : ℕ) (x : Step) (b : Batcher)
    → Allowed x b
    → Accounts t f b
    → Accounts (t + taken_by x b) (f + refused_by x b) (step x b)
unfolding step release_reserved
step-Accounts t f (put rows) b h a = put-Accounts t f rows b a
step-Accounts t f (hold n) b h a = ground (arith, reserve-Accounts t f n b a)
step-Accounts t f (commit rows) b h a = ground (arith, commit-Accounts t f rows b h a)
step-Accounts t f (release n) b h a = ground arith
step-Accounts t f (take_row now copied) b h a =
    ground (arith, receive-Accounts t f now copied b b.queue refl a)
step-Accounts t f (timer now copied) b h a = ground (arith, flush-Accounts t f now copied b a)
