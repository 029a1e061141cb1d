-- ===== src/Scheduler/Examples.antt =====
-- scheduler.cc: two events, of which one is due, and a third that is added and removed.
use napsteresque.Base.{
  ℕ, ◌+◌, ◌≡◌, refl, Bool, true, false, some, [], ◌∷◌, ◌==◌, if◌then◌else◌, arith, pos, ◌+ℤ◌, ◌-ℤ◌,
  ◌≤ℤ◌, times,
}
use napsteresque.Time.{Time, of_secs, usecs, less, greater_equal, sub}
use napsteresque.Scheduler.{Event, Scheduler, run}
use napsteresque.Scheduler.Passes.{Runs, run-Runs}

-- A reading each second.
abbrev ticks : ℕ → Time
ticks n = of_secs (pos (n + 1000))

ticks-mono : (n : ℕ) → usecs (ticks n) ≤ℤ usecs (ticks (n + 1))
unfolding usecs times ◌+ℤ◌
ticks-mono n = ground arith

-- The handler at 8 fails.
abbrev answer : ℕ → ℕ → Bool
answer f n = if f == 8 then false else true

abbrev hourly : Event
hourly = record {
  last_run = of_secs (pos 500);
  frequency = of_secs (pos 3600);
  name = some (b'h' ∷ []);
  handler = 7;
}

abbrev minutely : Event
minutely = record {
  last_run = of_secs (pos 500);
  frequency = of_secs (pos 60);
  name = some (b'm' ∷ []);
  handler = 8;
}

abbrev two_events : Scheduler
two_events = record {
  events = hourly ∷ minutely ∷ [];
  last_run = of_secs (pos 900);
  interval = of_secs (pos 60);
}

run-Runs_example : Runs (ticks 0) two_events (
  (run ticks answer 0 two_events).0,
  (run ticks answer 0 two_events).1,
  (run ticks answer 0 two_events).3,
)
run-Runs_example =
    run-Runs ticks answer ticks-mono 0 two_events ((refl, omega arith), ((refl, omega arith), tt))
      (refl, omega arith)

-- The event that is due is run, and its failure is the result.
due_runs :
    ((run ticks answer 0 two_events).0 ≡ false)
    × ((run ticks answer 0 two_events).3
        ≡ record { event = minutely; at = of_secs (pos 1003); succeeded = false } ∷ [])
unfolding run less greater_equal sub ◌-ℤ◌ ◌+ℤ◌
due_runs = (refl, refl)
