-- ===== src/Backups.antt =====
-- internal/agent/backupsched/scheduler.go: when the backup and the repository check of an agent run. Times
-- are nanoseconds, 0 is Go's zero time, and a jitter that was drawn is an argument.
pub mod Occurrences
pub mod Runs
use server_monitor.Common.{
  ℕ, ◌+◌, ◌-◌, ◌*◌, ◌/◌, ◌%◌, ◌≤◌, ◌<◌, ◌≡◌, Bool, true, false, ltb, leb, if◌then◌else◌, ◌==◌,
  Option, none, some, List, [], ◌∷◌,
}

-- The calendar of the agent's time zone: the number of the day of an instant, where day 0 is a Sunday;
-- the instant of a time of day on a day, by time.Date; and the instants a number of days after and before one, by
-- AddDate.
pub record Calendar : Type 0 where
  pub day : ℕ → ℕ
  pub instant : ℕ → ℕ → ℕ → ℕ
  pub days_after : ℕ → ℕ → ℕ
  pub days_before : ℕ → ℕ → ℕ

-- What package time promises of a time of day that no change of the zone's offset skips on any day: it is later on a
-- later day, an instant lies between that time on an earlier day and on the day after its own, and AddDate leads from
-- it to the same time of another day.
pub record CalendarLaws (cal : Calendar) (hh mm : ℕ) : Type 0 where
  pub later : (d e : ℕ) → d < e → cal.instant d hh mm < cal.instant e hh mm
  pub day_after : (now : ℕ) → now < cal.instant (cal.day now + 1) hh mm
  pub day_before : (now d : ℕ) → d < cal.day now → cal.instant d hh mm ≤ now
  pub forward : (d n : ℕ) → cal.days_after (cal.instant d hh mm) n ≡ cal.instant (d + n) hh mm
  pub backward :
      (d n : ℕ) → n ≤ d → cal.days_before (cal.instant d hh mm) n ≡ cal.instant (d - n) hh mm

module _ (cal : Calendar) where
  unfoldable pub most_recent_daily : ℕ → ℕ → ℕ → ℕ
  most_recent_daily hh mm now =
      let t = cal.instant (cal.day now) hh mm in if ltb now t then cal.days_before t 1 else t

  unfoldable pub next_daily : ℕ → ℕ → ℕ → ℕ
  next_daily hh mm now =
      let t = cal.instant (cal.day now) hh mm in if ltb now t then t else cal.days_after t 1

  unfoldable pub most_recent_weekly : ℕ → ℕ → ℕ → ℕ → ℕ
  most_recent_weekly weekday hh mm now =
      let days_since = (cal.day now % 7 + 7 - weekday) % 7 in
      let t = cal.days_before (cal.instant (cal.day now) hh mm) days_since in
      if ltb now t then cal.days_before t 7 else t

  unfoldable pub next_weekly : ℕ → ℕ → ℕ → ℕ → ℕ
  next_weekly weekday hh mm now =
      let days_until = (weekday + 7 - cal.day now % 7) % 7 in
      let t = cal.days_after (cal.instant (cal.day now) hh mm) days_until in
      if ltb now t then t else cal.days_after t 7

-- time.Time.Unix
abbrev pub unix : ℕ → ℕ
unix t = t / 1000000000

-- arm, for what `recent` and `next` give at `now`.
unfoldable pub arm : ℕ → ℕ → ℕ → ℕ → ℕ → ℕ
arm now last_trigger recent next jitter =
    if ltb last_trigger (unix recent) then now + jitter else next + jitter

abbrev pub reconcile_interval : ℕ
reconcile_interval = 60 * 1000000000

unfoldable pub soonest : ℕ → ℕ → ℕ
soonest next_backup next_check =
    if next_backup == 0
    then next_check
    else if next_check == 0
    then next_backup
    else if ltb next_backup next_check
    then next_backup
    else next_check

unfoldable pub sleep_for : ℕ → ℕ → ℕ → ℕ
unfolding soonest
sleep_for now next_backup next_check =
    let s = soonest next_backup next_check in
    if s == 0
    then reconcile_interval
    else if ltb s now
    then 0
    else if ltb reconcile_interval (s - now)
    then reconcile_interval
    else s - now

pub data Job : Type 0 where
  backup check : Job

pub record ScheduleState : Type 0 where
  pub backup_last_trigger : ℕ
  pub check_last_trigger : ℕ

-- The times of a schedule: of the day, and of the week for the check.
pub record Config : Type 0 where
  pub backup_hh : ℕ
  pub backup_mm : ℕ
  pub check_weekday : ℕ
  pub check_hh : ℕ
  pub check_mm : ℕ

-- The scheduler with the state that Run holds, the state file, and the runs that it started.
pub record Scheduler : Type 0 where
  pub next_backup : ℕ
  pub next_check : ℕ
  pub state : ScheduleState
  pub stored : Option ScheduleState
  pub runs : List (Job × ℕ)

-- saveState, where `saved` tells whether the file could be written.
unfoldable pub save_state : Bool → Scheduler → Scheduler
save_state saved s = record s { stored = if saved then some s.state else s.stored }

-- loadState, and the state of a first start.
unfoldable pub load_state : ℕ → Option ScheduleState → ScheduleState
load_state now none = record { backup_last_trigger = unix now; check_last_trigger = unix now }
load_state now (some st) = st

module _ (cal : Calendar) (cfg : Config) where
  -- Run up to its loop.
  unfoldable pub start : ℕ → Bool → ℕ → ℕ → Option ScheduleState → Scheduler
  unfolding arm load_state
  start now saved jb jc stored =
      let st = load_state now stored in
      record {
        next_backup =
            arm now st.backup_last_trigger (most_recent_daily cal cfg.backup_hh cfg.backup_mm now)
              (next_daily cal cfg.backup_hh cfg.backup_mm now) jb;
        next_check =
            arm now st.check_last_trigger
              (most_recent_weekly cal cfg.check_weekday cfg.check_hh cfg.check_mm now)
              (next_weekly cal cfg.check_weekday cfg.check_hh cfg.check_mm now) jc;
        state = st;
        stored = elim stored [ some old ↦ some old | none ↦ if saved then some st else none ];
        runs = [];
      }

  abbrev pub is_due : ℕ → ℕ → Bool
  is_due next now = if next == 0 then false else leb next now

  unfoldable pub tick_backup : ℕ → Bool → ℕ → Scheduler → Scheduler
  unfolding save_state
  tick_backup now saved jitter s =
      let st = record s.state {
        backup_last_trigger = unix (most_recent_daily cal cfg.backup_hh cfg.backup_mm now);
      } in
      let s' = save_state saved (record s { state = st }) in
      if is_due s.next_backup now
      then record s' {
        next_backup = next_daily cal cfg.backup_hh cfg.backup_mm now + jitter;
        runs = (backup, now) ∷ s.runs;
      }
      else s

  unfoldable pub tick_check : ℕ → Bool → ℕ → Scheduler → Scheduler
  unfolding save_state
  tick_check now saved jitter s =
      let st = record s.state {
        check_last_trigger =
            unix (most_recent_weekly cal cfg.check_weekday cfg.check_hh cfg.check_mm now);
      } in
      let s' = save_state saved (record s { state = st }) in
      if is_due s.next_check now
      then record s' {
        next_check = next_weekly cal cfg.check_weekday cfg.check_hh cfg.check_mm now + jitter;
        runs = (check, now) ∷ s.runs;
      }
      else s

  -- The body of Run's loop, once the timer fired.
  unfoldable pub tick : ℕ → Bool → Bool → ℕ → ℕ → Scheduler → Scheduler
  tick now saved saved' jb jc s = tick_check now saved' jc (tick_backup now saved jb s)
