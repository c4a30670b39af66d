-- ===== src/Settlement/Window.antt =====
-- When windows open: `computeNextWindowMs`, `isWindowOpen`, `isWindowDue` and `cycleIdFromWindowMs` of
-- keeper/src/run/settlement.ts. The UTC parts of a `Date` are computed from the milliseconds since the
-- epoch as ECMAScript defines them: a day has 86,400,000 of them, and day 0 is a Thursday.
use claimrush.Prelude.{
  ℕ, ◌+◌, ◌-◌, ◌*◌, ◌/◌, ◌%◌, ◌≤◌, ◌<◌, ◌≡◌, ◌≢◌, Bool, ◌&&◌, arith, ltb, leb, ◌==◌, if◌then◌else◌,
}
use claimrush.Settlement.Types.{day_ms, week_secs}

-- `d.setUTCHours(hourUtc, 0, 0, 0)`
abbrev pub set_utc_hours : ℕ → ℕ → ℕ
set_utc_hours now hour_utc = now / day_ms * day_ms + hour_utc * 3_600_000

-- `d.getUTCDay()`, with 0 for Sunday.
abbrev pub utc_day : ℕ → ℕ
utc_day ms = (ms / day_ms + 4) % 7

abbrev days_ahead : ℕ → ℕ → ℕ
days_ahead day_of_week current_day =
    if ltb day_of_week current_day then day_of_week + 7 - current_day else day_of_week - current_day

pub compute_next_window_ms : ℕ → ℕ → ℕ → ℕ → ℕ
compute_next_window_ms period_secs day_of_week hour_utc now =
    if leb candidate now then candidate + period_secs * 1000 else candidate
  where
    d : ℕ
    d = set_utc_hours now hour_utc

    candidate : ℕ
    candidate =
        if period_secs % week_secs == 0 then d + days_ahead day_of_week (utc_day d) * day_ms else d

pub is_window_open : ℕ → ℕ → ℕ → Bool
is_window_open window_open window_duration now =
    leb window_open now && ltb now (window_open + window_duration)

unfoldable pub is_window_due : ℕ → ℕ → Bool
is_window_due next_window now = leb next_window now

unfoldable pub cycle_id_from_window_ms : ℕ → ℕ
cycle_id_from_window_ms window_open = window_open / day_ms

-- With a period of one week, the next window opens after the reference time and at most a week later, on
-- the configured day of the week and at the configured hour.
pub compute_next_window_weekly :
    (day_of_week hour_utc now : ℕ)
    → day_of_week < 7
    → hour_utc < 24
    → let next = compute_next_window_ms week_secs day_of_week hour_utc now in
      (now < next)
      × (next ≤ now + 7 * day_ms)
      × (utc_day next ≡ day_of_week)
      × (next % day_ms ≡ hour_utc * 3_600_000)
unfolding compute_next_window_ms
compute_next_window_weekly dow hour now d h = ground arith

-- With a period of whole days that are no whole weeks, the next window opens after the reference time and
-- at most one period later, at the configured hour.
pub compute_next_window_daily :
    (days day_of_week hour_utc now : ℕ)
    → hour_utc < 24
    → days % 7 ≢ 0
    → let next = compute_next_window_ms (days * 86_400) day_of_week hour_utc now in
      (now < next) × (next ≤ now + days * day_ms) × (next % day_ms ≡ hour_utc * 3_600_000)
unfolding compute_next_window_ms
compute_next_window_daily days dow hour now h w = ground arith
