-- ===== src/Ignore/Examples.antt =====
-- ignore.cc: `IgnoreList::test`, and the journal after it.
use napsteresque.Base.{◌≡◌, refl, false, [], ◌∷◌}
use napsteresque.Ignore.{Name, inserts, erases, clears, run, empty, exists, removed, added, update}
use napsteresque.Ignore.Distinct.{replay, exists-run}
use napsteresque.Ignore.Journal.{member, journaled, todo-run}

abbrev a : Name
a = b'A' ∷ []

abbrev b : Name
b = b'b' ∷ []

abbrev capital_b : Name
capital_b = b'B' ∷ []

tested :
    run (inserts a ∷ inserts b ∷ erases a ∷ clears ∷ []) empty
    ≡ record { names = []; todo = removed b ∷ removed a ∷ added b ∷ added a ∷ [] }
unfolding run
tested = refl

-- "b" is found by "B", and not added again.
case_ignored : run (inserts b ∷ inserts capital_b ∷ []) empty ≡ run (inserts b ∷ []) empty
unfolding run
case_ignored = refl

todo-run_example :
    member (run (erases capital_b ∷ inserts a ∷ []) (update (run (inserts b ∷ []) empty))) a
    ≡ journaled
        (run (erases capital_b ∷ inserts a ∷ []) (update (run (inserts b ∷ []) empty))).todo
        (member (update (run (inserts b ∷ []) empty)))
        a
todo-run_example = todo-run (inserts b ∷ []) (erases capital_b ∷ inserts a ∷ []) a (tt, (tt, tt))

exists-run_example :
    exists (run (inserts b ∷ erases capital_b ∷ []) empty) b
    ≡ replay (inserts b ∷ erases capital_b ∷ []) (λ s. false) b
exists-run_example = exists-run (inserts b ∷ erases capital_b ∷ []) b
