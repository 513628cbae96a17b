-- ===== src/Backups/Occurrences.antt =====
-- The occurrences of a daily and of a weekly schedule around an instant.
use server_monitor.Common.{
  ℕ, ◌+◌, ◌-◌, ◌*◌, ◌/◌, ◌%◌, ◌≤◌, ◌<◌, ◌≡◌, ◌⊎◌, inl, inr, arith, ℕ_discrete, ltb, if◌then◌else◌,
}
use server_monitor.Backups.{
  Calendar, CalendarLaws, most_recent_daily, next_daily, most_recent_weekly, next_weekly,
}

-- Two neighbours among the occurrences, around an instant.
pub record Around (occurrence : ℕ → ℕ) (recent now next : ℕ) : Type 0 where
  pub not_after : recent ≤ now
  pub after : now < next
  pub neighbours : (d : ℕ) → (occurrence d ≤ recent) ⊎ (next ≤ occurrence d)
  pub recent_occurs : (d : ℕ) × (recent ≡ occurrence d)
  pub next_occurs : (d : ℕ) × (next ≡ occurrence d)

-- The day of the week on or before a day, and that on or after it.
abbrev back : ℕ → ℕ → ℕ
back day weekday = day - (day % 7 + 7 - weekday) % 7

abbrev ahead : ℕ → ℕ → ℕ
ahead day weekday = day + (weekday + 7 - day % 7) % 7

-- They are the day itself, or neighbouring weeks around it.
week_days :
    (day weekday : ℕ)
    → weekday < 7
    → 7 ≤ day
    → (w : ℕ) × (back day weekday ≡ 7 * w + weekday)
      × (((day ≡ 7 * w + weekday) × (ahead day weekday ≡ day) × (1 ≤ w))
          ⊎ ((7 * w + weekday < day)
              × (day < 7 * (w + 1) + weekday)
              × (ahead day weekday ≡ 7 * (w + 1) + weekday)))
week_days day weekday hw h = (
  (day - (day % 7 + 7 - weekday) % 7) / 7,
  omega arith,
  elim (ℕ_discrete (day % 7) weekday) [
    | yes e ↦ inl (omega arith, omega arith, omega arith)
    | no ne ↦ inr (omega arith, omega arith, omega arith)
  ],
)

module _ (cal : Calendar) (hh mm : ℕ) (laws : CalendarLaws cal hh mm) where
  not_before : (d e : ℕ) → d ≤ e → cal.instant d hh mm ≤ cal.instant e hh mm
  not_before d e h = grind (arith, laws.later)

  yesterday :
      (now : ℕ)
      → 0 < cal.day now
      → cal.days_before (cal.instant (cal.day now) hh mm) 1 ≡ cal.instant (cal.day now - 1) hh mm
  yesterday now h = laws.backward (cal.day now) 1 h

  tomorrow :
      (now : ℕ)
      → cal.days_after (cal.instant (cal.day now) hh mm) 1 ≡ cal.instant (cal.day now + 1) hh mm
  tomorrow now = laws.forward (cal.day now) 1

  -- An agent's clock is not on day 0. The most recent occurrence of a daily schedule is not after now, the next one is
  -- after now, and no occurrence is between them.
  pub daily-Around :
      (now : ℕ)
      → 0 < cal.day now
      → Around
          (λ d. cal.instant d hh mm)
          (most_recent_daily cal hh mm now)
          now
          (next_daily cal hh mm now)
  unfolding most_recent_daily next_daily
  daily-Around now h = record {
    not_after = ground (arith, laws.day_before now (cal.day now - 1), yesterday now h);
    after = ground (arith, laws.day_after now, tomorrow now);
    neighbours = λ d. ground (
      arith,
      yesterday now h,
      tomorrow now,
      not_before d (cal.day now - 1),
      not_before d (cal.day now),
      not_before (cal.day now) d,
      not_before (cal.day now + 1) d,
    );
    recent_occurs = (
      (if ltb now (cal.instant (cal.day now) hh mm) then cal.day now - 1 else cal.day now),
      ground (arith, yesterday now h),
    );
    next_occurs = (
      (if ltb now (cal.instant (cal.day now) hh mm) then cal.day now else cal.day now + 1),
      ground (arith, tomorrow now),
    );
  }

  -- A weekly schedule, when the instant is on its day of the week.
  weekly_same :
      (b u w weekday now : ℕ)
      → b ≡ 7 * w + weekday
      → u ≡ b
      → cal.day now ≡ b
      → 1 ≤ w
      → Around
          (λ v. cal.instant (7 * v + weekday) hh mm)
          (if ltb now (cal.instant b hh mm) then cal.instant (b - 7) hh mm else cal.instant b hh mm)
          now
          (if ltb now (cal.instant u hh mm) then cal.instant u hh mm else cal.instant (u + 7) hh mm)
  weekly_same b u w weekday now eb eu ed hw = record {
    not_after = ground (arith, laws.day_before now (b - 7));
    after = ground (arith, laws.day_after now, not_before (cal.day now + 1) (u + 7));
    neighbours = λ v. ground (
      arith,
      not_before (7 * v + weekday) (b - 7),
      not_before (7 * v + weekday) b,
      not_before u (7 * v + weekday),
      not_before (u + 7) (7 * v + weekday),
    );
    recent_occurs = ((if ltb now (cal.instant b hh mm) then w - 1 else w), ground arith);
    next_occurs = ((if ltb now (cal.instant u hh mm) then w else w + 1), ground arith);
  }

  -- A weekly schedule, when the instant is between two of its days.
  weekly_between :
      (b u w weekday now : ℕ)
      → b ≡ 7 * w + weekday
      → u ≡ 7 * (w + 1) + weekday
      → b < cal.day now
      → cal.day now < u
      → Around
          (λ v. cal.instant (7 * v + weekday) hh mm)
          (if ltb now (cal.instant b hh mm) then cal.instant (b - 7) hh mm else cal.instant b hh mm)
          now
          (if ltb now (cal.instant u hh mm) then cal.instant u hh mm else cal.instant (u + 7) hh mm)
  weekly_between b u w weekday now eb eu hb hu = record {
    not_after = ground (arith, laws.day_before now b);
    after = ground (arith, laws.day_after now, not_before (cal.day now + 1) u);
    neighbours = λ v. ground (
      arith,
      laws.day_before now b,
      laws.day_after now,
      not_before (cal.day now + 1) u,
      not_before (7 * v + weekday) b,
      not_before u (7 * v + weekday),
    );
    recent_occurs = (w, ground (arith, laws.day_before now b));
    next_occurs = (w + 1, ground (arith, laws.day_after now, not_before (cal.day now + 1) u));
  }

  most_recent_weekly-instant :
      (weekday now : ℕ)
      → 7 ≤ cal.day now
      → (cal.instant (back (cal.day now) weekday) hh mm ≤ now) ⊎ (7 ≤ back (cal.day now) weekday)
      → most_recent_weekly cal weekday hh mm now ≡ (
          if ltb now (cal.instant (back (cal.day now) weekday) hh mm)
          then cal.instant (back (cal.day now) weekday - 7) hh mm
          else cal.instant (back (cal.day now) weekday) hh mm)
  unfolding most_recent_weekly
  most_recent_weekly-instant weekday now h before =
      let here = laws.backward (cal.day now) ((cal.day now % 7 + 7 - weekday) % 7) (omega arith) in
      elim before [
        | inl e ↦ rw here (ground arith)
        | inr w ↦ rw (here, laws.backward (back (cal.day now) weekday) 7 w)
      ]

  next_weekly-instant :
      (weekday now : ℕ)
      → next_weekly cal weekday hh mm now ≡ (
          if ltb now (cal.instant (ahead (cal.day now) weekday) hh mm)
          then cal.instant (ahead (cal.day now) weekday) hh mm
          else cal.instant (ahead (cal.day now) weekday + 7) hh mm)
  unfolding next_weekly
  next_weekly-instant weekday now = rw (
    laws.forward (cal.day now) ((weekday + 7 - cal.day now % 7) % 7),
    laws.forward (ahead (cal.day now) weekday) 7,
  )

  -- An agent's clock is not in the first week. The most recent occurrence of a weekly schedule is not after now, the
  -- next one is after now, and no occurrence is between them.
  pub weekly-Around :
      (weekday now : ℕ)
      → weekday < 7
      → 7 ≤ cal.day now
      → Around
          (λ w. cal.instant (7 * w + weekday) hh mm)
          (most_recent_weekly cal weekday hh mm now)
          now
          (next_weekly cal weekday hh mm now)
  unfolding most_recent_weekly next_weekly
  weekly-Around weekday now hw h =
      let (w, eb, here) = week_days (cal.day now) weekday hw h in
      let around : (cal.instant (back (cal.day now) weekday) hh mm ≤ now)
            ⊎ (7 ≤ back (cal.day now) weekday)
          → Around (λ w. cal.instant (7 * w + weekday) hh mm)
              (if ltb now (cal.instant (back (cal.day now) weekday) hh mm)
                then cal.instant (back (cal.day now) weekday - 7) hh mm
                else cal.instant (back (cal.day now) weekday) hh mm)
              now
              (if ltb now (cal.instant (ahead (cal.day now) weekday) hh mm)
                then cal.instant (ahead (cal.day now) weekday) hh mm
                else cal.instant (ahead (cal.day now) weekday + 7) hh mm)
          → Around (λ w. cal.instant (7 * w + weekday) hh mm)
              (most_recent_weekly cal weekday hh mm now) now (next_weekly cal weekday hh mm now) =
        λ before a.
          rw (most_recent_weekly-instant weekday now h before, next_weekly-instant weekday now) a in
      elim here [
        | inl (e, eu, hw') ↦ around (inr (omega arith)) (
            weekly_same (back (cal.day now) weekday) (ahead (cal.day now) weekday) w weekday now eb
              (omega arith) (omega arith) hw')
        | inr (hb, hu, eu) ↦ around (inl (laws.day_before now _ (omega arith))) (
            weekly_between (back (cal.day now) weekday) (ahead (cal.day now) weekday) w weekday now
              eb eu (omega arith) (omega arith))
      ]

-- Until the next occurrence, the neighbours of an instant stay what they are.
pub Around-same :
    (occurrence : ℕ → ℕ) (recent now next recent' now' next' : ℕ)
    → Around occurrence recent now next
    → Around occurrence recent' now' next'
    → now ≤ now'
    → now' < next
    → (recent' ≡ recent) × (next' ≡ next)
Around-same occurrence recent now next recent' now' next' a a' h h' =
    let (d, r) = a.recent_occurs in
    let (e, n) = a.next_occurs in
    let (d', r') = a'.recent_occurs in
    let (e', n') = a'.next_occurs in
    (
      ground (
        arith,
        a.neighbours d',
        a'.neighbours d,
        r,
        r',
        a.not_after,
        a.after,
        a'.not_after,
        a'.after,
      ),
      ground (
        arith,
        a.neighbours e',
        a'.neighbours e,
        n,
        n',
        a.not_after,
        a.after,
        a'.not_after,
        a'.after,
      ),
    )
