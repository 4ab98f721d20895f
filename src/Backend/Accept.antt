-- ===== src/Backend/Accept.antt =====
-- internal/server/server.go, ListenAndServe: the accept loop with its backoff. Durations are
-- nanoseconds.
use instachron.Base.{◌∙◌, ap, Bool-cases, inl, inr}
use instachron.Base.{ℕ, zero, suc, ◌+◌, ◌*◌, ◌≤◌, ◌<◌, ◌≡◌, refl, arith, min}
use instachron.Base.{List, [], ◌∷◌, leb, ◌==◌, if◌then◌else◌, keep_if, not}

abbrev pub min_accept_backoff : ℕ
min_accept_backoff = 5_000_000

abbrev pub max_accept_backoff : ℕ
max_accept_backoff = 1_000_000_000

abbrev pub max_consecutive_accept_failures : ℕ
max_consecutive_accept_failures = 64

-- What the loop meets: Accept returns a connection or an error, a connection's handler returns, or
-- the context is cancelled, which makes Accept fail or ends a wait.
pub data Event : Type 0 where
  accepts closes : ℕ → Event
  fails shuts_down : Event

-- `waited` observes the timers since the last accepted connection.
pub record Loop : Type 0 where
  pub backoff : ℕ
  pub failures : ℕ
  pub conns : List ℕ
  pub waited : ℕ

pub data Status : Type 0 where
  running stopped : Loop → Status
  gave_up : ℕ → Loop → Status

unfoldable pub start : Loop
start = record { backoff = min_accept_backoff; failures = 0; conns = []; waited = 0 }

unfoldable pub accept_ok : ℕ → Loop → Loop
accept_ok conn l = record {
  backoff = min_accept_backoff;
  failures = 0;
  conns = conn ∷ l.conns;
  waited = 0;
}

unfoldable pub accept_failed : Loop → Status
accept_failed l =
    if leb max_consecutive_accept_failures (l.failures + 1)
    then gave_up (l.failures + 1) (record l { failures = l.failures + 1 })
    else running (record l {
      failures = l.failures + 1;
      waited = l.waited + l.backoff;
      backoff = min (l.backoff * 2) max_accept_backoff;
    })

unfoldable close_conn : ℕ → Loop → Loop
close_conn conn l = record l { conns = keep_if (λ c. not (c == conn)) l.conns }

unfoldable pub step : Event → Status → Status
unfolding close_conn
step e (stopped l) = stopped l
step e (gave_up n l) = gave_up n l
step (accepts conn) (running l) = running (accept_ok conn l)
step (closes conn) (running l) = running (close_conn conn l)
step fails (running l) = accept_failed l
step shuts_down (running l) = stopped l

unfoldable pub run : List Event → Status → Status
run [] s = s
run (e ∷ es) s = run es (step e s)

-- The pause after `n` failures in a row, and the sum of the first `n` pauses.
pause : ℕ → ℕ
pause zero = min_accept_backoff
pause (suc n) = min (pause n * 2) max_accept_backoff

pauses : ℕ → ℕ
pauses zero = 0
pauses (suc n) = pauses n + pause n

pause_bounds : (n : ℕ) → (min_accept_backoff ≤ pause n) × (pause n ≤ max_accept_backoff)
unfolding pause
pause_bounds zero = omega arith
pause_bounds (suc n) = omega (arith, pause_bounds n)

-- While it runs, the loop's pause and the time that it has waited are those of its failure run.
abbrev IsOnSchedule : Status → Type 0
IsOnSchedule (running l) =
    (l.failures < max_consecutive_accept_failures)
    × (l.backoff ≡ pause l.failures)
    × (l.waited ≡ pauses l.failures)
IsOnSchedule (stopped l) = Unit {0}
IsOnSchedule (gave_up n l) = (n ≡ max_consecutive_accept_failures) × (l.waited ≡ pauses 63)

pause_next :
    (n : ℕ)
    → (pause (n + 1) ≡ min (pause n * 2) max_accept_backoff) × (pauses (n + 1) ≡ pauses n + pause n)
unfolding pause pauses
pause_next n = let e : n + 1 ≡ suc n = omega arith in rw e (refl, refl)

accept_failed-IsOnSchedule : (l : Loop) → IsOnSchedule (running l) → IsOnSchedule (accept_failed l)
unfolding accept_failed
accept_failed-IsOnSchedule l (few, now, total) =
    elim (Bool-cases (leb max_consecutive_accept_failures (l.failures + 1))) [
      | inl last ↦
          let n : l.failures ≡ 63 = ground arith in rw last (omega arith, total ∙ ap pauses n)
      | inr more ↦
          let next = pause_next l.failures in
          rw more (ground arith, omega (arith, next.0), omega (arith, next.1))
    ]

step-IsOnSchedule : (e : Event) (s : Status) → IsOnSchedule s → IsOnSchedule (step e s)
unfolding step
step-IsOnSchedule e (stopped l) h = h
step-IsOnSchedule e (gave_up n l) h = h
step-IsOnSchedule (accepts conn) (running l) h =
    unfold accept_ok pause pauses in (omega arith, refl, refl)
step-IsOnSchedule (closes conn) (running l) h = unfold close_conn in h
step-IsOnSchedule fails (running l) h = accept_failed-IsOnSchedule l h
step-IsOnSchedule shuts_down (running l) h = tt

run-IsOnSchedule : (es : List Event) (s : Status) → IsOnSchedule s → IsOnSchedule (run es s)
unfolding run
run-IsOnSchedule [] s h = h
run-IsOnSchedule (e ∷ es) s h = run-IsOnSchedule es (step e s) (step-IsOnSchedule e s h)

run-start-IsOnSchedule : (es : List Event) → IsOnSchedule (run es (running start))
run-start-IsOnSchedule es =
    run-IsOnSchedule es (running start) (unfold start pause pauses in (omega arith, refl, refl))

pauses_63 : pauses 63 ≡ 56_275_000_000
unfolding pauses pause
pauses_63 = refl

-- Whatever the loop meets: it gives up only at the 64th failure in a row, and then it has waited
-- 56.275 seconds since the last connection; until then every pause is between 5ms and 1s.
run_verdict :
    (es : List Event) (l : Loop)
    → ((n : ℕ)
        → run es (running start) ≡ gave_up n l
        → (n ≡ max_consecutive_accept_failures) × (l.waited ≡ 56_275_000_000))
      × (run es (running start) ≡ running l
          → (l.failures < max_consecutive_accept_failures)
            × (min_accept_backoff ≤ l.backoff)
            × (l.backoff ≤ max_accept_backoff))
run_verdict es l = (
  λ n e. let h = rw e at (run-start-IsOnSchedule es) in (h.0, h.1 ∙ pauses_63),
  λ e.
      let h = rw e at (run-start-IsOnSchedule es) in
      let b = pause_bounds l.failures in (h.0, rw h.1 b.0, rw h.1 b.1),
)

-- When the accept loop gives up, it has seen 64 failures in a row and has waited 56.275 s between
-- them.
pub run_gave_up :
    (es : List Event) (n : ℕ) (l : Loop)
    → run es (running start) ≡ gave_up n l
    → (n ≡ max_consecutive_accept_failures) × (l.waited ≡ 56_275_000_000)
run_gave_up es n l e = (run_verdict es l).0 n e

-- While the accept loop runs, it has seen fewer than 64 failures in a row, and its next pause is
-- between 5 ms and 1 s.
pub run_on_schedule :
    (es : List Event) (l : Loop)
    → run es (running start) ≡ running l
    → (l.failures < max_consecutive_accept_failures)
      × (min_accept_backoff ≤ l.backoff)
      × (l.backoff ≤ max_accept_backoff)
run_on_schedule es l e = (run_verdict es l).1 e
