-- ===== src/Backups/Runs.antt =====
-- The runs of a schedule over starts and rounds of the loop (internal/agent/backupsched/scheduler.go).
use server_monitor.Common.{
  ℕ, ◌+◌, ◌*◌, ◌≤◌, ◌<◌, ◌≡◌, arith, Bool, true, ltb, if◌then◌else◌, ◌==◌, some,
}
use server_monitor.Backups.{
  Calendar, CalendarLaws, most_recent_daily, next_daily, most_recent_weekly, next_weekly, unix, arm,
  reconcile_interval, soonest, sleep_for, ScheduleState, Config, Scheduler, save_state, load_state,
  start, is_due, tick_backup, tick_check, tick,
}
use server_monitor.Backups.Occurrences.{Around, daily-Around, weekly-Around, Around-same}

-- A sleep ends no later than a planned run, and is none where the run is due; 0 is no plan.
abbrev pub InTime : ℕ → ℕ → ℕ → Type 0
InTime now sleep next =
    now + sleep
    ≤ (if next == 0 then now + reconcile_interval else if ltb now next then next else now)

-- The loop sleeps a minute at most; it does not sleep while a planned run is due, nor past the time of one.
pub sleep_for-bounds :
    (now next_backup next_check : ℕ)
    → (sleep_for now next_backup next_check ≤ reconcile_interval)
      × InTime now (sleep_for now next_backup next_check) next_backup
      × InTime now (sleep_for now next_backup next_check) next_check
unfolding sleep_for soonest
sleep_for-bounds now b c = (ground arith, ground arith, ground arith)

module _ (cal : Calendar) (cfg : Config)
    (backup_laws : CalendarLaws cal cfg.backup_hh cfg.backup_mm)
    (check_laws : CalendarLaws cal cfg.check_hh cfg.check_mm) where
  backups-Around :
      (now : ℕ)
      → 0 < cal.day now
      → Around
          (λ d. cal.instant d cfg.backup_hh cfg.backup_mm)
          (most_recent_daily cal cfg.backup_hh cfg.backup_mm now)
          now
          (next_daily cal cfg.backup_hh cfg.backup_mm now)
  backups-Around now h = daily-Around cal cfg.backup_hh cfg.backup_mm backup_laws now h

  checks-Around :
      (now : ℕ)
      → cfg.check_weekday < 7
      → 7 ≤ cal.day now
      → Around
          (λ w. cal.instant (7 * w + cfg.check_weekday) cfg.check_hh cfg.check_mm)
          (most_recent_weekly cal cfg.check_weekday cfg.check_hh cfg.check_mm now)
          now
          (next_weekly cal cfg.check_weekday cfg.check_hh cfg.check_mm now)
  checks-Around now hw h =
      weekly-Around cal cfg.check_hh cfg.check_mm check_laws cfg.check_weekday now hw h

  -- The clock is past day 0. Where some daily occurrence up to now is later, in whole seconds, than the last trigger in
  -- the state file, a start plans the backup at once, but for the jitter.
  pub start-backup_missed :
      (now jb jc : ℕ) (saved : Bool) (st : ScheduleState) (d : ℕ)
      → 0 < cal.day now
      → cal.instant d cfg.backup_hh cfg.backup_mm ≤ now
      → st.backup_last_trigger < unix (cal.instant d cfg.backup_hh cfg.backup_mm)
      → (start cal cfg now saved jb jc (some st)).next_backup ≡ now + jb
  unfolding start arm load_state
  start-backup_missed now jb jc saved st d h hd hl =
      let a = backups-Around now h in ground (arith, a.neighbours d, a.after, hd, hl)

  -- The clock is past day 0. Where a backup is due and its trigger is saved, a start before the next occurrence does not
  -- run it again: it plans the next occurrence, plus the jitter.
  pub tick-start_backup :
      (now now' jb jc jb' jc' : ℕ) (saved saved' : Bool) (s : Scheduler)
      → 0 < cal.day now
      → 0 < cal.day now'
      → is_due cal cfg s.next_backup now ≡ true
      → now ≤ now'
      → now' < next_daily cal cfg.backup_hh cfg.backup_mm now
      → (start cal cfg now' saved' jb' jc' (tick cal cfg now true saved jb jc s).stored).next_backup
        ≡ next_daily cal cfg.backup_hh cfg.backup_mm now + jb'
  unfolding start arm load_state tick tick_backup tick_check save_state
  tick-start_backup now now' jb jc jb' jc' saved saved' s h h' due l l' =
      let same =
        Around-same (λ d. cal.instant d cfg.backup_hh cfg.backup_mm)
          (most_recent_daily cal cfg.backup_hh cfg.backup_mm now) now
          (next_daily cal cfg.backup_hh cfg.backup_mm now)
          (most_recent_daily cal cfg.backup_hh cfg.backup_mm now') now'
          (next_daily cal cfg.backup_hh cfg.backup_mm now') (backups-Around now h)
          (backups-Around now' h') l l' in
      ground (arith, due, same.0, same.1)

  -- The clock is past its first week. Where a check is due and its trigger is saved, a start before the next weekly
  -- occurrence does not run it again: it plans the next occurrence, plus the jitter.
  pub tick-start_check :
      (now now' jb jc jb' jc' : ℕ) (saved saved' : Bool) (s : Scheduler)
      → cfg.check_weekday < 7
      → 7 ≤ cal.day now
      → 7 ≤ cal.day now'
      → is_due cal cfg s.next_check now ≡ true
      → now ≤ now'
      → now' < next_weekly cal cfg.check_weekday cfg.check_hh cfg.check_mm now
      → (start cal cfg now' saved' jb' jc' (tick cal cfg now saved true jb jc s).stored).next_check
        ≡ next_weekly cal cfg.check_weekday cfg.check_hh cfg.check_mm now + jc'
  unfolding start arm load_state tick tick_backup tick_check save_state
  tick-start_check now now' jb jc jb' jc' saved saved' s hw h h' due l l' =
      let same =
        Around-same (λ w. cal.instant (7 * w + cfg.check_weekday) cfg.check_hh cfg.check_mm)
          (most_recent_weekly cal cfg.check_weekday cfg.check_hh cfg.check_mm now) now
          (next_weekly cal cfg.check_weekday cfg.check_hh cfg.check_mm now)
          (most_recent_weekly cal cfg.check_weekday cfg.check_hh cfg.check_mm now') now'
          (next_weekly cal cfg.check_weekday cfg.check_hh cfg.check_mm now')
          (checks-Around now hw h) (checks-Around now' hw h') l l' in
      ground (arith, due, same.0, same.1)
