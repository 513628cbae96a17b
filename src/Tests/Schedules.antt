-- ===== src/Tests/Schedules.antt =====
-- The scheduler of internal/agent/backupsched at concrete inputs.
use server_monitor.Common.{ℕ, ◌+◌, ◌-◌, ◌*◌, ◌/◌, ◌≡◌, refl, arith, true, some, []}
use server_monitor.Backups.{
  Calendar, CalendarLaws, Config, ScheduleState, Scheduler, next_daily, start, tick,
}
use server_monitor.Backups.Runs.{tick-start_backup}

abbrev minute : ℕ
minute = 60 * 1000000000

abbrev day : ℕ
day = 1440 * minute

-- A zone without changes of its offset.
abbrev utc : Calendar
utc = record {
  day = λ now. now / day;
  instant = λ d hh mm. d * day + (hh * 60 + mm) * minute;
  days_after = λ t n. t + n * day;
  days_before = λ t n. t - n * day;
}

abbrev at_two : CalendarLaws utc 2 30
at_two = record {
  later = λ d e h. omega arith;
  day_after = λ now. omega arith;
  day_before = λ now d h. omega arith;
  forward = λ d n. omega arith;
  backward = λ d n h. omega arith;
}

abbrev at_four : CalendarLaws utc 4 0
at_four = record {
  later = λ d e h. omega arith;
  day_after = λ now. omega arith;
  day_before = λ now d h. omega arith;
  forward = λ d n. omega arith;
  backward = λ d n h. omega arith;
}

abbrev plan : Config
plan = record { backup_hh = 2; backup_mm = 30; check_weekday = 0; check_hh = 4; check_mm = 0 }

-- Three in the morning, and five, of the first day of the second week.
abbrev three : ℕ
three = 14 * day + 180 * minute

abbrev five : ℕ
five = 14 * day + 300 * minute

abbrev old : ScheduleState
old = record { backup_last_trigger = 0; check_last_trigger = 0 }

abbrev due : Scheduler
due = record { next_backup = three; next_check = three; state = old; stored = some old; runs = [] }

tick-start_backup_example :
    (start utc plan five true 7 8 (tick utc plan three true true 1 2 due).stored).next_backup
    ≡ next_daily utc 2 30 three + 7
unfolding next_daily
tick-start_backup_example =
    tick-start_backup utc plan at_two at_four three five 1 2 7 8 true true due (omega arith)
      (omega arith) refl (omega arith) (ground arith)
