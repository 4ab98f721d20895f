-- ===== src/Recorder/Sampling/Rate.antt =====
-- How many frames a timelapse keeps, and how far apart.
use native.Mathlib.Nat.{div-eq_of_lt, le-div_iff_mul-le}
use instachron.Recorder.Sampling.{keep_every, second}
use instachron.Base.{◌↔◌}
use instachron.Base.{
  ℕ, zero, suc, ◌+◌, ◌*◌, ◌≤◌, ◌<◌, ◌≡◌, refl, arith, Bool, true, false, max, Option, none, some,
  if◌then◌else◌, List, [], ◌∷◌,
}
use instachron.Recorder.Sampling.{advance, should_keep}
use native.Mathlib.Decide.{dec_lt}

abbrev Advanced : ℕ → ℕ → ℕ → ℕ → Type 0
Advanced ts next interval next' =
    (ts < next')
    × (next' ≤ max next (ts + interval))
    × (next ≤ next')
    × (next ≤ ts → next + interval ≤ next')

advance_total :
    (fuel ts next interval : ℕ)
    → 0 < interval
    → ts < next + fuel
    → (next' : ℕ) × (advance (suc fuel) ts next interval ≡ some next')
      × Advanced ts next interval next'
unfolding advance
advance_total zero ts next interval pos enough =
    (next, ground arith, (omega arith, omega arith, omega arith, λ h. omega arith))
advance_total (suc fuel) ts next interval pos enough =
    let (next', e, (later, top, grows, _)) =
      advance_total fuel ts (next + interval) interval pos (omega arith) in
    elim (dec_lt ts next) [
      | yes early ↦ (next, ground arith, (early, omega arith, omega arith, λ h. omega arith))
      | no due ↦ (next', ground arith, (later, omega arith, omega arith, λ h. omega arith))
    ]

-- What shouldKeep answers for a frame, and the new deadline: on the first frame, before the
-- deadline, and from the deadline on.
pub data Decision (ts next interval : ℕ) : Bool → ℕ → Type 0 where
  first : next ≡ 0 → Decision ts next interval true (ts + interval)
  early : 0 < next → ts < next → Decision ts next interval false next
  due :
      {next' : ℕ}
      → 0 < next
      → next ≤ ts
      → ts < next'
      → next' ≤ ts + interval
      → next + interval ≤ next'
      → Decision ts next interval true next'

-- With a positive interval shouldKeep always answers, and as described.
pub should_keep_total :
    (ts next interval : ℕ)
    → 0 < interval
    → (kept : Bool) × (next' : ℕ) × (should_keep ts next interval ≡ some (kept, next'))
      × Decision ts next interval kept next'
unfolding should_keep
should_keep_total ts zero interval pos = (true, ts + interval, refl, first refl)
should_keep_total ts (suc n) interval pos =
    let next = suc n in
    let (next', e, (after, top, grows, spaced)) =
      advance_total (suc ts) ts next interval pos (omega arith) in
    elim (dec_lt ts next) [
      | yes soon ↦ (false, next, ground arith, early (omega arith) soon)
      | no late ↦ (
        true,
        next',
        ground arith,
        due (omega arith) (omega arith) after (omega arith) (spaced (omega arith)),
      )
    ]

-- The timestamps of frames in the order in which they come, whatever the clock did: how many are
-- kept, and the last deadline.
unfoldable pub keep_all : ℕ → List ℕ → ℕ → Option (ℕ × ℕ)
keep_all interval [] next = some (0, next)
keep_all interval (ts ∷ rest) next = elim (should_keep ts next interval) [
  | none ↦ none
  | some (kept, next') ↦ elim (keep_all interval rest next') [
    | none ↦ none
    | some (count, last) ↦ some ((if kept then suc count else count), last)
  ]
]

-- The latest of the timestamps, and of a time before them.
unfoldable pub latest_of : ℕ → List ℕ → ℕ
latest_of t [] = t
latest_of t (ts ∷ rest) = latest_of (max t ts) rest

latest_of-ge : (t : ℕ) (rest : List ℕ) → t ≤ latest_of t rest
unfolding latest_of
latest_of-ge t [] = omega arith
latest_of-ge t (ts ∷ rest) = omega (arith, latest_of-ge (max t ts) rest)

keep_all_step :
    (interval ts next next' count last : ℕ) (rest : List ℕ) (kept : Bool)
    → should_keep ts next interval ≡ some (kept, next')
    → keep_all interval rest next' ≡ some (count, last)
    → keep_all interval (ts ∷ rest) next ≡ some ((if kept then suc count else count), last)
unfolding keep_all
keep_all_step interval ts next next' count last rest kept e e' = ground arith

Decision-moves :
    (ts next interval t : ℕ) {kept : Bool} {next' : ℕ}
    → Decision ts next interval kept next'
    → 0 < next
    → next ≤ t + interval
    → (next' ≤ max t ts + interval) × (next + (if kept then interval else 0) ≤ next')
Decision-moves ts next interval t (first e) started near = absurd (omega arith)
Decision-moves ts next interval t (early _ soon) started near = (omega arith, omega arith)
Decision-moves ts next interval t (due _ late after top spaced) started near =
    (omega arith, omega arith)

counted :
    (kept : Bool) (interval next next' count last : ℕ)
    → next + (if kept then interval else 0) ≤ next'
    → next' + count * interval ≤ last
    → next + (if kept then suc count else count) * interval ≤ last
counted true interval next next' count last h h' = omega arith
counted false interval next next' count last h h' = omega arith

-- The deadline moves on by at least one interval with every kept frame, and never beyond one
-- interval after the latest frame.
keep_all_from :
    (interval : ℕ) (tss : List ℕ) (t next : ℕ)
    → 0 < interval
    → 0 < next
    → next ≤ t + interval
    → (count : ℕ) × (last : ℕ) × (keep_all interval tss next ≡ some (count, last))
      × (next + count * interval ≤ last)
      × (last ≤ latest_of t tss + interval)
unfolding keep_all latest_of
keep_all_from interval [] t next pos started near = (0, next, refl, omega arith, near)
keep_all_from interval (ts ∷ rest) t next pos started near =
    let (kept, next', e, decision) = should_keep_total ts next interval pos in
    let (top, moved) = Decision-moves ts next interval t decision started near in
    let (count, last, e', moved', top') =
      keep_all_from interval rest (max t ts) next' pos (ground arith) top in
    (
      (if kept then suc count else count),
      last,
      keep_all_step interval ts next next' count last rest kept e e',
      counted kept interval next next' count last moved moved',
      top',
    )

-- With a positive interval, and timestamps in any order, shouldKeep answers for every frame,
-- keeps the first one, and the others that it keeps fit into the time from the first timestamp to
-- the latest, one to an interval.
pub keep_all_rate :
    (interval ts : ℕ) (rest : List ℕ)
    → 0 < interval
    → (count : ℕ) × (last : ℕ) × (keep_all interval (ts ∷ rest) 0 ≡ some (suc count, last))
      × (ts + count * interval ≤ latest_of ts rest)
keep_all_rate interval ts rest pos =
    let (count, last, e, moved, top) =
      keep_all_from interval rest ts (ts + interval) pos (omega arith) (omega arith) in
    (
      count,
      last,
      keep_all_step interval ts 0 (ts + interval) count last rest true (unfold should_keep in refl)
          e,
      omega arith,
    )

-- With a positive output rate, keepEvery is positive exactly when the rate is at most 1e9 frames
-- a second for each unit of the timelapse factor.
pub keep_every-positive :
    (factor fps : ℕ) → 0 < fps → (0 < keep_every factor fps) ↔ (fps ≤ second * factor)
unfolding keep_every
keep_every-positive factor fps positive =
    let law = le-div_iff_mul-le {k = fps} {x = 1} {y = second * factor} positive in
    (λ h. omega (arith, law.0 (omega arith)), λ h. omega (arith, law.1 (omega arith)))

advance_stuck : (fuel ts next : ℕ) → next ≤ ts → advance fuel ts next 0 ≡ none
unfolding advance
advance_stuck zero ts next late = refl
advance_stuck (suc fuel) ts next late =
    ground (arith, advance_stuck fuel ts (next + 0) (omega arith))

-- With an output rate above 1000000000 times the timelapse factor, no amount of fuel ends the
-- loop of shouldKeep for a frame at or after the deadline.
pub keep_every-stuck :
    (factor fps fuel ts next : ℕ)
    → second * factor < fps
    → next ≤ ts
    → advance fuel ts next (keep_every factor fps) ≡ none
unfolding keep_every
keep_every-stuck factor fps fuel ts next fast late =
    rw (div-eq_of_lt fast) (advance_stuck fuel ts next late)
