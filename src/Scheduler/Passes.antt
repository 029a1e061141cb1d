-- ===== src/Scheduler/Passes.antt =====
-- scheduler.cc: a pass runs the events that are due, and no others.
use napsteresque.Base.{
  ℕ, ◌+◌, ◌≡◌, refl, sym, ◌∙◌, ap, ◌⊎◌, inl, inr, Bool, true, false, not, ◌&&◌, ◌||◌, List, [], ◌∷◌,
  if◌then◌else◌, All, arith, Bool-cases, ◌+ℤ◌, ◌≤ℤ◌, leb_ℤ, ltb_ℤ, +ℤ_parts, -ℤ_parts,
}
use napsteresque.Time.{Time, usecs, sub, less}
use napsteresque.Time.Micros.{IsNormal, add_sub-usecs, order_usecs}
use napsteresque.Scheduler.{Event, Scheduler, Entry, elapsed, ready, run_event, pass, run}

-- The event's frequency has passed since its last run.
abbrev pub IsDue : Time → Event → Type 0
IsDue t e = usecs e.last_run +ℤ usecs e.frequency ≤ℤ usecs t

-- How a pass that starts at a time takes the events to those it leaves, with its log. An event that is
-- left alone was not due at the start; one that was run was due, and has the time of its run.
pub data Follows (start : Time) : List Event → List Entry → List Event → Type 0 where
  ends : Follows start [] [] []
  waits :
      {e : Event} {es es' : List Event} {log : List Entry}
      → ¬ IsDue start e
      → Follows start es log es'
      → Follows start (e ∷ es) log (e ∷ es')
  ran :
      {e : Event} {es es' : List Event} {log : List Entry} (at : Time) (ok : Bool)
      → IsDue at e
      → usecs start ≤ℤ usecs at
      → Follows start es log es'
      → Follows start
          (e ∷ es)
          (record { event = e; at = at; succeeded = ok } ∷ log)
          (record e { last_run = at } ∷ es')

abbrev pub all_succeeded : List Entry → Bool
all_succeeded [] = true
all_succeeded (x ∷ log) = x.succeeded && all_succeeded log

abbrev pub HasNormalFrequency : Event → Type 0
HasNormalFrequency e = IsNormal e.frequency

ready-usecs :
    (now : Time) (e : Event)
    → IsNormal e.frequency
    → ready now e ≡ leb_ℤ (usecs e.last_run +ℤ usecs e.frequency) (usecs now)
unfolding ready elapsed
ready-usecs now e v =
    let laws = add_sub-usecs now e.last_run in
    let order = order_usecs (sub now e.last_run) e.frequency laws.2 v in
    let sum = +ℤ_parts (usecs e.last_run) (usecs e.frequency) in
    let difference = -ℤ_parts (usecs now) (usecs e.last_run) in
    order.3 ∙ ap (λ d. leb_ℤ (usecs e.frequency) d) laws.3 ∙ ground (arith, sum, difference)

IsDue-iff :
    (now : Time) (e : Event)
    → IsNormal e.frequency
    → ((ready now e ≡ true) → IsDue now e) × ((ready now e ≡ false) → ¬ IsDue now e)
IsDue-iff now e v =
    let r = ready-usecs now e v in
    (
      (λ h. let w = sym r ∙ h in ground (arith, w)),
      (λ h d. let w = sym r ∙ h in ground (arith, w, d)),
    )

less-usecs :
    (now last interval : Time)
    → IsNormal interval
    → less (sub now last) interval ≡ ltb_ℤ (usecs now) (usecs last +ℤ usecs interval)
less-usecs now last interval v =
    let laws = add_sub-usecs now last in
    let order = order_usecs (sub now last) interval laws.2 v in
    let sum = +ℤ_parts (usecs last) (usecs interval) in
    let difference = -ℤ_parts (usecs now) (usecs last) in
    order.0 ∙ ap (λ d. ltb_ℤ d (usecs interval)) laws.3 ∙ ground (arith, sum, difference)

flag_step :
    (failed ok rest : Bool)
    → ((if ok then failed else true) || not rest) ≡ (failed || not (ok && rest))
flag_step true true rest = refl
flag_step true false rest = refl
flag_step false true rest = refl
flag_step false false rest = refl

-- What a call of `run` may do, at the reading with which it starts: nothing, before the interval has
-- passed; or a pass, which says whether every event that it ran succeeded.
abbrev pub Runs : Time → Scheduler → Bool × Scheduler × List Entry → Type 0
Runs now s (result, s', log) =
    ((¬ (usecs s.last_run +ℤ usecs s.interval ≤ℤ usecs now))
      × (result ≡ true)
      × (s' ≡ s)
      × (log ≡ []))
    ⊎ ((usecs s.last_run +ℤ usecs s.interval ≤ℤ usecs now)
        × Follows now s.events log s'.events
        × (s'.last_run ≡ now)
        × (s'.interval ≡ s.interval)
        × (result ≡ all_succeeded log))

not_or : (b : Bool) → not (false || not b) ≡ b
not_or true = refl
not_or false = refl

module _ (clock : ℕ → Time) (call : ℕ → ℕ → Bool)
    (mono : (n : ℕ) → usecs (clock n) ≤ℤ usecs (clock (n + 1))) where
  pass-Follows :
      (start : Time) (n : ℕ) (failed : Bool) (es : List Event)
      → usecs start ≤ℤ usecs (clock n)
      → All HasNormalFrequency es
      → (Follows start es (pass clock call n failed es).log (pass clock call n failed es).events)
        × ((pass clock call n failed es).failed
            ≡ (failed || not (all_succeeded (pass clock call n failed es).log)))
  unfolding pass run_event
  pass-Follows start n failed [] h v = (ends, ground arith)
  pass-Follows start n failed (e ∷ es) h (v, vs) =
      let ok = call e.handler (n + 1 + 1) in
      let up = mono n in
      let up' = mono (n + 1) in
      let (f, g) =
        pass-Follows start (n + 1 + 1) (if ok then failed else true) es (omega (arith, h, up, up'))
          vs in
      let (f', g') = pass-Follows start (n + 1) failed es (omega (arith, h, up)) vs in
      elim (Bool-cases (ready (clock n) e)) [
        | inl r ↦ rw r (
          ran (clock (n + 1)) ok (let d = (IsDue-iff (clock n) e v).0 r in omega (arith, d, up))
              (omega (arith, h, up)) f,
          g
              ∙ flag_step failed ok (
                  all_succeeded (pass clock call (n + 1 + 1) (if ok then failed else true) es).log),
        )
        | inr r ↦ rw r (waits (λ d. (IsDue-iff (clock n) e v).1 r (omega (arith, h, d))) f', g')
      ]

  -- With a clock that does not go back, and frequencies and an interval with less than a second of
  -- microseconds, a call of `run` does nothing and returns true while the interval since the last pass
  -- has not passed; later it makes a pass. A pass goes through the events in their order, runs every
  -- event that was due at the start of the call and no event that is not due when it is run, none
  -- twice, records the time of each run, and returns true exactly if no event that it ran failed.
  pub run-Runs :
      (n : ℕ) (s : Scheduler)
      → All HasNormalFrequency s.events
      → IsNormal s.interval
      → Runs (clock n) s ((run clock call n s).0, (run clock call n s).1, (run clock call n s).3)
  unfolding run
  run-Runs n s v w =
      let early = less-usecs (clock n) s.last_run s.interval w in
      let (f, g) = pass-Follows (clock n) (n + 1) false s.events (mono n) v in
      elim (Bool-cases (less (sub (clock n) s.last_run) s.interval)) [
        | inl e ↦
            let h = sym early ∙ e in rw e (inl ((λ d. ground (arith, h, d)), refl, refl, refl))
        | inr e ↦
            let h = sym early ∙ e in
            rw e (inr (ground (arith, h), f, refl, refl, ap not g ∙ not_or _))
      ]
