-- ===== src/Scheduler.antt =====
-- event.cc and scheduler.cc: events, and the scheduler that runs those that are due. A function pointer
-- is a number, 0 for NULL. What the system and the handlers do are parameters: `clock n` is what the
-- n-th call of `Time::now` returns, `call f n` what the handler f returns when n readings of the clock
-- have been made. A handler does not change the scheduler.
pub mod Passes
mod Examples
use napsteresque.Base.{
  ℕ, ◌+◌, Bool, true, false, not, ◌||◌, Option, none, some, List, [], ◌∷◌, ◌++◌, ◌==◌,
  if◌then◌else◌, length, pos, same_bytes,
}
use napsteresque.Time.{Time, of_secs, is_zero, less, greater_equal, sub}

pub record Event : Type 0 where
  pub last_run : Time
  pub frequency : Time
  pub name : Option (List ℕ)
  pub handler : ℕ

-- `Event::Event`
abbrev pub new_event : ℕ → Time → Option (List ℕ) → Event
new_event h f n = record { last_run = of_secs (pos 0); frequency = f; name = n; handler = h }

-- `elapsed` and `ready` at a reading of the clock.
unfoldable pub elapsed : Time → Event → Time
elapsed now e = sub now e.last_run

unfoldable pub ready : Time → Event → Bool
unfolding elapsed
ready now e = greater_equal (elapsed now e) e.frequency

pub record Scheduler : Type 0 where
  pub events : List Event
  pub last_run : Time
  pub interval : Time

-- `Scheduler::Scheduler`
unfoldable pub new : Time → Scheduler
new now = record { events = []; last_run = now; interval = of_secs (pos 60) }

-- `add`; the code does not look at `runfirst`.
unfoldable pub add : ℕ → Time → Option (List ℕ) → Bool → Scheduler → Bool × Scheduler
add function t label runfirst s =
    if (function == 0) || is_zero t
    then (false, s)
    else (true, record s { events = s.events ++ new_event function t label ∷ [] })

-- The events without the first of a label: `none` where there is none, `some none` where `strcmp` is
-- given a NULL name first.
unfoldable pub removed : List ℕ → List Event → Option (Option (List Event))
removed label [] = none
removed label (e ∷ es) =
    let rest = removed label es in
    elim e.name [
      | none ↦ some none
      | some n ↦ if same_bytes n label then some (some es) else elim rest [
        | none ↦ none
        | some none ↦ some none
        | some (some es') ↦ some (some (e ∷ es'))
      ]
    ]

-- `remove`: `none` is the crash.
unfoldable pub remove : List ℕ → Scheduler → Option (Bool × Scheduler)
unfolding removed
remove label s = elim (removed label s.events) [
  | none ↦ some (false, s)
  | some none ↦ none
  | some (some es) ↦ some (true, record s { events = es })
]

unfoldable pub clear : Scheduler → Bool × Scheduler
clear s = (true, record s { events = [] })

unfoldable pub size : Scheduler → ℕ
size s = length s.events

-- An entry of the log: the event as it was, when it was run, and whether it succeeded.
pub record Entry : Type 0 where
  pub event : Event
  pub at : Time
  pub succeeded : Bool

-- What a pass leaves: the events, the flag `failed`, the readings made, and the log.
pub record Pass : Type 0 where
  pub events : List Event
  pub failed : Bool
  pub moment : ℕ
  pub log : List Entry

module _ (clock : ℕ → Time) (call : ℕ → ℕ → Bool) where
  -- `Event::run`
  unfoldable pub run_event : ℕ → Event → Bool × Event
  run_event n e = (call e.handler (n + 1), record e { last_run = clock n })

  -- The loop of `Scheduler::run`.
  unfoldable pub pass : ℕ → Bool → List Event → Pass
  unfolding run_event ready
  pass n failed [] = record { events = []; failed = failed; moment = n; log = [] }
  pass n failed (e ∷ es) =
      let (ok, e') = run_event (n + 1) e in
      let after = pass (n + 1 + 1) (if ok then failed else true) es in
      let waiting = pass (n + 1) failed es in
      if ready (clock n) e
      then record after {
        events = e' ∷ after.events;
        log = record { event = e; at = e'.last_run; succeeded = ok } ∷ after.log;
      }
      else record waiting { events = e ∷ waiting.events }

  -- `Scheduler::run`: its result, the scheduler, the readings made, and the log.
  unfoldable pub run : ℕ → Scheduler → Bool × Scheduler × ℕ × List Entry
  unfolding pass
  run n s =
      let p = pass (n + 1) false s.events in
      if less (sub (clock n) s.last_run) s.interval
      then (true, s, n + 1, [])
      else (not p.failed, record s { events = p.events; last_run = clock n }, p.moment, p.log)
