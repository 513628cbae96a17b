-- ===== src/Ipban/Tracker.antt =====
-- internal/agent/ipban/tracker.go: login failures of each address, bans, and their escalation. A time
-- is the number of nanoseconds since Go's zero time, so the zero time is 0; a duration is an int64
-- pattern. `a.After(now.Add(-d))` is read as now < a + d. The mutex makes each method one step.
pub mod Policies
pub mod Invariant
pub mod Observation
pub mod Pruning
pub mod Listing
pub mod Rates
use Prim.Native.String.{String}
use server_monitor.Common.{
  ℕ, zero, suc, ◌+◌, ◌-◌, Bool, true, false, not, ◌&&◌, ◌||◌, ltb, leb, ◌==◌, if◌then◌else◌, Option,
  none, some, List, [], ◌∷◌, ◌++◌, keep, any, length,
}
use server_monitor.Common.Int64.{lt_i64, mul_i64, time_add}
use server_monitor.Common.Assoc.{lookup, insert, delete, update_all}
use server_monitor.Netip.{Addr, Addr-discrete}

abbrev pub second : ℕ
second = 1000000000

-- 7 * 24 * time.Hour
abbrev pub escalation_window : ℕ
escalation_window = 604800000000000

pub record Policy : Type 0 where
  pub max_retry : ℕ
  pub find_time : ℕ
  pub ban_time : ℕ
  pub ban_time_max : ℕ

-- Policy.normalized, its four steps in order.
unfoldable pub normalized : Policy → Policy
normalized p =
    let max_retry : ℕ = if lt_i64 p.max_retry 1 then 1 else p.max_retry in
    let find_time : ℕ = if lt_i64 0 p.find_time then p.find_time else 600000000000 in
    let ban_time : ℕ = if lt_i64 0 p.ban_time then p.ban_time else 3600000000000 in
    let ban_time_max : ℕ = if lt_i64 p.ban_time_max ban_time then ban_time else p.ban_time_max in
    record {
      max_retry = max_retry;
      find_time = find_time;
      ban_time = ban_time;
      ban_time_max = ban_time_max;
    }

pub record IpState : Type 0 where
  pub failures : List ℕ
  pub bans : ℕ
  pub last_ban : ℕ
  pub banned_until : ℕ
  pub last_user : String

pub record Ban : Type 0 where
  pub ip : Addr
  pub until : ℕ
  pub failures : ℕ
  pub user : String
  pub count : ℕ

pub record Tracker : Type 0 where
  pub policy : Policy
  pub states : List (Addr × IpState)

-- &ipState{}
abbrev pub empty_state : IpState
empty_state = record { failures = []; bans = 0; last_ban = 0; banned_until = 0; last_user = "" }

unfoldable pub new_tracker : Policy → Tracker
new_tracker p = record { policy = normalized p; states = [] }

unfoldable pub set_policy : Policy → Tracker → Tracker
set_policy p t = record t { policy = normalized p }

abbrev pub is_empty : String → Bool
is_empty String.[] = true
is_empty (String.◌∷◌ c s) = false

abbrev pub or_empty : Option IpState → IpState
or_empty none = empty_state
or_empty (some st) = st

-- The loop of the doubling: at most `bans` rounds, while the duration is below the maximum.
unfoldable pub escalate : ℕ → ℕ → ℕ → ℕ
escalate zero dur top = dur
escalate (suc bans) dur top = elim (lt_i64 dur top) [
  | true ↦ escalate bans (mul_i64 dur 2) top
  | false ↦ dur
]

unfoldable pub ban_duration : Policy → ℕ → ℕ
ban_duration p bans =
    let dur = escalate bans p.ban_time p.ban_time_max in
    if lt_i64 p.ban_time_max dur then p.ban_time_max else dur

-- The failures inside the window, and the new one.
unfoldable pub recent_failures : Policy → ℕ → List ℕ → List ℕ
recent_failures p now failures = keep (λ f. ltb now (time_add f p.find_time)) failures

-- The bans that count for the escalation: none, once the last one lies too far back.
unfoldable pub counted_bans : ℕ → IpState → ℕ
counted_bans now st =
    if not (st.last_ban == 0) && ltb escalation_window (now - st.last_ban) then 0 else st.bans

abbrev pub note_user : String → IpState → IpState
note_user user st = if is_empty user then st else record st { last_user = user }

-- The part of Observe that bans.
unfoldable pub ban_now : Policy → Addr → ℕ → List ℕ → IpState → IpState × Option Ban
ban_now p ip now failures st =
    let bans = counted_bans now st in
    let until = time_add now (ban_duration p bans) in
    (
      record st { failures = []; bans = bans + 1; last_ban = now; banned_until = until },
      some (record {
        ip = ip;
        until = until;
        failures = length failures;
        user = st.last_user;
        count = bans + 1;
      }),
    )

-- Observe, on the state of its address.
unfoldable pub observe_state : Policy → Addr → String → ℕ → IpState → IpState × Option Ban
observe_state p ip user now st0 =
    let st = note_user user st0 in
    let failures = recent_failures p now st.failures ++ (now ∷ []) in
    if ltb now st.banned_until
    then (st, none)
    else if lt_i64 (length failures) p.max_retry
    then (record st { failures = failures }, none)
    else ban_now p ip now failures st

unfoldable pub observe : Addr → String → ℕ → Tracker → Tracker × Option Ban
observe ip user now t =
    let (st, ban) =
      observe_state t.policy ip user now (or_empty (lookup Addr-discrete ip t.states)) in
    (record t { states = insert Addr-discrete ip st t.states }, ban)

-- Import: a ban that the kernel still holds.
unfoldable pub import_ban : Addr → ℕ → Tracker → Tracker
import_ban ip until t =
    let st = or_empty (lookup Addr-discrete ip t.states) in
    record t {
      states =
          insert Addr-discrete ip
            (if ltb st.banned_until until then record st { banned_until = until } else st) t.states;
    }

abbrev was_banned : Option IpState → Bool
was_banned none = false
was_banned (some st) = not (st.banned_until == 0)

unfoldable pub unban : Addr → Tracker → Tracker × Bool
unban ip t = (
  record t { states = delete Addr-discrete ip t.states },
  was_banned (lookup Addr-discrete ip t.states),
)

abbrev pub banned_after : ℕ → Option IpState → Bool
banned_after now none = false
banned_after now (some st) = ltb now st.banned_until

unfoldable pub banned : Addr → ℕ → Tracker → Bool
banned ip now t = banned_after now (lookup Addr-discrete ip t.states)

abbrev pub ban_of : Addr → IpState → Ban
ban_of ip st = record {
  ip = ip;
  until = st.banned_until;
  failures = 0;
  user = st.last_user;
  count = st.bans;
}

-- sort.Slice by Until. Entries with the same end may come in any order; here the earlier stays first.
unfoldable pub insert_by_until : Ban → List Ban → List Ban
insert_by_until b [] = b ∷ []
insert_by_until b (c ∷ cs) = if ltb c.until b.until then c ∷ insert_by_until b cs else b ∷ c ∷ cs

-- The loop of ActiveBans over the map, sorted as it goes.
unfoldable pub collect_bans : ℕ → List (Addr × IpState) → List Ban
collect_bans now [] = []
collect_bans now ((ip, st) ∷ rest) =
    if ltb now st.banned_until
    then insert_by_until (ban_of ip st) (collect_bans now rest)
    else collect_bans now rest

unfoldable pub active_bans : ℕ → Tracker → List Ban
active_bans now t = collect_bans now t.states

-- The body of the loop of Prune: the state to keep, if it is kept.
unfoldable pub prune_state : Policy → ℕ → IpState → Option IpState
prune_state p now st =
    if ltb now st.banned_until
    then some st
    else if any (λ f. ltb now (time_add f p.find_time)) st.failures
    then some st
    else if ltb 0 st.bans && leb (now - st.last_ban) escalation_window
    then some (record st { failures = [] })
    else none

-- Prune, with the number of addresses that it forgets.
unfoldable pub prune : ℕ → Tracker → Tracker × ℕ
prune now t =
    let states = update_all (prune_state t.policy now) t.states in
    (record t { states = states }, length t.states - length states)

-- A sliding window of times, in the order in which they were added.
pub record RateWindow : Type 0 where
  pub window : ℕ
  pub stamps : List ℕ

unfoldable pub drop_old : ℕ → ℕ → List ℕ → List ℕ
drop_old now window [] = []
drop_old now window (s ∷ ss) =
    if ltb now (time_add s window) then s ∷ ss else drop_old now window ss

unfoldable pub trim : ℕ → RateWindow → RateWindow
trim now r = record r { stamps = drop_old now r.window r.stamps }

unfoldable pub add_stamp : ℕ → RateWindow → RateWindow
unfolding trim
add_stamp now r = trim now (record r { stamps = r.stamps ++ (now ∷ []) })

-- Count trims too.
unfoldable pub count_stamps : ℕ → RateWindow → RateWindow × ℕ
unfolding trim
count_stamps now r = let r' = trim now r in (r', length r'.stamps)
