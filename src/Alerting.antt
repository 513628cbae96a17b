-- ===== src/Alerting.antt =====
-- internal/server/alerting/evaluator.go: alert rules, the states of their alerts, and notifications. The
-- tables of the database are lists; a statement may fail. SQL's now() and time.Now() are one clock.
pub mod Delays
pub mod Evaluation
pub mod Floats
pub mod Incidents
pub mod Orphans
pub mod Records
use Prim.Native.String.{String}
use server_monitor.Common.{
  ℕ, zero, suc, ◌+◌, ◌*◌, Bool, true, false, not, ◌&&◌, ◌||◌, ltb, leb, if◌then◌else◌, ◌==◌, Option,
  none, some, List, [], ◌∷◌, ◌++◌, ite, keep, ℕ_discrete, is_some,
}
use server_monitor.Common.Assoc.{lookup, insert}

pub data Comparator : Type 0 where
  gt lt ge le eq ne other : Comparator

-- The fields of Rule that evaluation reads. The metric, the window and the aggregate go to the database.
pub record Rule : Type 0 where
  pub id : ℕ
  pub comparator : Comparator
  pub threshold : ℕ
  pub for_s : ℕ
  pub cooldown_s : ℕ
  pub channel_ids : List ℕ
  pub enabled : Bool

pub data State : Type 0 where
  ok pending firing : State

-- A row of alert_states, without its key.
pub record AlertState : Type 0 where
  pub state : State
  pub since : ℕ
  pub last_notified : Option ℕ
  pub last_value : ℕ

-- The key of a row: rule, host, and labels in their printed form.
abbrev pub Key : Type 0
Key = ℕ × ℕ × List ℕ

unfoldable pub Key-discrete : Discrete Key
Key-discrete = hlevel ℕ_discrete

-- A row of alert_history.
pub record Incident : Type 0 where
  pub key : Key
  pub fired_at : ℕ
  pub value : ℕ
  pub resolved_at : Option ℕ

pub data Kind : Type 0 where
  fire resolve : Kind

-- A call of dispatch: what it tells, and the channels that it reaches.
pub record Notification : Type 0 where
  pub kind : Kind
  pub key : Key
  pub value : ℕ
  pub at : ℕ
  pub channels : List ℕ

-- The database, the number of statements that were run, and the notifications sent (the latest first).
pub record World : Type 0 where
  pub states : List (Key × AlertState)
  pub history : List Incident
  pub statements : ℕ
  pub sent : List Notification

pub data Status : Type 0 where
  done failed : Status

-- The channels by id, with whether they are enabled.
abbrev pub Channels : Type 0
Channels = List (ℕ × Bool)

abbrev channel_enabled : Option Bool → Bool
channel_enabled none = false
channel_enabled (some enabled) = enabled

-- dispatch: every enabled channel of the rule gets the notification.
unfoldable pub dispatch : Kind → Rule → Key → ℕ → ℕ → Channels → World → World
dispatch kind r key value now channels w = record w { sent = n ∷ w.sent }
  where
    n : Notification
    n = record {
      kind = kind;
      key = key;
      value = value;
      at = now;
      channels = keep (λ id. channel_enabled (lookup ℕ_discrete id channels)) r.channel_ids;
    }

-- The first open incident of the key is resolved; the history has the newest first.
unfoldable pub resolve_incident : Key → ℕ → List Incident → List Incident
resolve_incident key now [] = []
resolve_incident key now (i ∷ is) =
    ite (Key-discrete i.key key)
      (if is_some i.resolved_at
        then i ∷ resolve_incident key now is
        else record i { resolved_at = some now } ∷ is)
      (i ∷ resolve_incident key now is)

abbrev pub write_state : Key → AlertState → World → World
write_state key st w = record w { states = insert Key-discrete key st w.states }

-- Whether the cooldown since the last notification is over.
abbrev pub may_notify : Rule → Option ℕ → ℕ → Bool
may_notify r none now = true
may_notify r (some at) now = leb (at + r.cooldown_s * 1000000000) now

-- The row that was read, or that of an alert that was never pending.
abbrev pub state_or_ok : ℕ → Option AlertState → AlertState
state_or_ok now none = record { state = ok; since = now; last_notified = none; last_value = 0 }
state_or_ok now (some st) = st

-- Which statements fail, by how many were run before.
module _ (fails : ℕ → Bool) where
  -- One statement: its effect and whether it failed.
  unfoldable pub exec : (World → World) → World → World × Bool
  exec effect w =
      let w' = record w { statements = w.statements + 1 } in
      if fails w.statements then (w', true) else (effect w', false)

  -- An alert whose condition holds, since `since`: it waits, or it fires.
  unfoldable pub fire_or_wait :
      Rule → Key → AlertState → ℕ → ℕ → ℕ → Channels → World → World × Status
  fire_or_wait r key st since value now channels w =
      let (waiting, not_kept) = exec (write_state key (record st { last_value = value })) w in
      let (w₁, not_fired) =
        exec
          (write_state key
            (record { state = firing; since = now; last_notified = some now; last_value = value }))
          w in
      let (w₂, _) =
        exec
          (λ u. record u {
            history =
                record { key = key; fired_at = now; value = value; resolved_at = none } ∷ u.history;
          })
          w₁ in
      if ltb now (since + r.for_s * 1000000000)
      then (waiting, if not_kept then failed else done)
      else if not_fired
      then (w₁, failed)
      else (dispatch fire r key value now channels w₂, done)

  unfoldable pub start_pending : Rule → Key → AlertState → ℕ → ℕ → Channels → World → World × Status
  start_pending r key st value now channels w =
      let st' = record st { state = pending; since = now; last_value = value } in
      let (w', err) = exec (write_state key st') w in
      if err
      then (w', failed)
      else if ltb 0 r.for_s
      then (w', done)
      else fire_or_wait r key st' now value now channels w'

  unfoldable pub stay_firing : Rule → Key → AlertState → ℕ → ℕ → Channels → World → World × Status
  stay_firing r key st value now channels w =
      let st' = record st { last_value = value } in
      let (w₁, err) = exec (write_state key st') w in
      let (w₂, _) = exec (write_state key (record st' { last_notified = some now })) w₁ in
      if err
      then (w₁, failed)
      else if may_notify r st.last_notified now
      then (dispatch fire r key value now channels w₂, done)
      else (w₁, done)

  -- An alert whose condition no longer holds. Only one that fired is reported as resolved.
  unfoldable pub settle : Bool → Rule → Key → AlertState → ℕ → ℕ → Channels → World → World × Status
  settle fired r key st value now channels w =
      let (w₁, err) =
        exec (write_state key (record st { state = ok; since = now; last_value = value })) w in
      let (w₂, _) = exec (λ u. record u { history = resolve_incident key now u.history }) w₁ in
      if err
      then (w₁, failed)
      else if fired
      then (dispatch resolve r key value now channels w₂, done)
      else (w₁, done)

  -- The switch of transition.
  unfoldable pub dispatch_state :
      State → Bool → Rule → Key → AlertState → ℕ → ℕ → Channels → World → World × Status
  dispatch_state ok true r key st value now channels w = start_pending r key st value now channels w
  dispatch_state pending true r key st value now channels w =
      fire_or_wait r key st st.since value now channels w
  dispatch_state firing true r key st value now channels w =
      stay_firing r key st value now channels w
  dispatch_state firing false r key st value now channels w =
      settle true r key st value now channels w
  dispatch_state pending false r key st value now channels w =
      settle false r key st value now channels w
  dispatch_state ok false r key st value now channels w = (w, done)

  unfoldable pub transition : Rule → Key → Bool → ℕ → ℕ → Channels → World → World × Status
  transition r key predicate value now channels w =
      let (w', unread) = exec (λ u. u) w in
      let st = state_or_ok now (lookup Key-discrete key w.states) in
      if unread
      then (w', failed)
      else dispatch_state st.state predicate r key st value now channels w'
