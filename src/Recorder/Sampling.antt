-- ===== src/Recorder/Sampling.antt =====
-- services/camera-recorder/internal/recorder/camera.go, keepEvery and shouldKeep: which frames a
-- timelapse keeps. Times are nanoseconds since Go's zero Time, which is 0; a factor below 2^33
-- keeps the duration within an int64.
pub mod Rate
use instachron.Base.{
  ℕ, zero, suc, ◌+◌, ◌-◌, ◌*◌, ◌/◌, ◌≤◌, ◌<◌, ◌≡◌, refl, arith, Bool, true, false, not, Option,
  none, some, ltb, ◌==◌, if◌then◌else◌,
}

abbrev pub second : ℕ
second = 1_000_000_000

unfoldable pub keep_every : ℕ → ℕ → ℕ
keep_every factor fps = (second * factor) / fps

-- `for !next.After(ts) { next = next.Add(interval) }`, which may not end: none is out of fuel.
unfoldable pub advance : ℕ → ℕ → ℕ → ℕ → Option ℕ
advance zero ts next interval = none
advance (suc fuel) ts next interval =
    let rest = advance fuel ts (next + interval) interval in if ltb ts next then some next else rest

-- The answer and the new value of *next. No more than ts + 1 rounds are needed when the interval is
-- positive: each brings next closer.
unfoldable pub should_keep : ℕ → ℕ → ℕ → Option (Bool × ℕ)
unfolding advance
should_keep ts next interval =
    if next == 0
    then some (true, ts + interval)
    else if ltb ts next
    then some (false, next)
    else elim (advance (suc (suc ts)) ts next interval) [
      | none ↦ none
      | some next' ↦ some (true, next')
    ]
