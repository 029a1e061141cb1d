-- ===== src/Server/Examples.antt =====
-- server.cc: two connections from one address.
use napsteresque.Base.{ℕ, ◌≡◌, refl, false, none, some, List, [], ◌∷◌, ◌++◌}
use napsteresque.Client.{failed}
use napsteresque.Server.{
  Connection, Turn, idle, Event, accepts, checks_incoming, checks_clients, run,
}
use napsteresque.Server.Round.{IsClean}
use napsteresque.Server.Refine.{Shows, follow_all, empty_hall, run-follow_all, run-IsClean}

abbrev from_home : ℕ → Connection
from_home n = record {
  id = n;
  ip = 7;
  dead = false;
  reader = record { inbox = []; rbuffer = none };
  wqueue = [];
}

abbrev quiet : ℕ → Turn
quiet n = record { readable = none; writable = none }

abbrev hung_up : ℕ → Turn
hung_up n = record { readable = some (failed, []); writable = none }

abbrev twice : List Event
twice = accepts (from_home 1) ∷ checks_incoming ∷ accepts (from_home 2) ∷ checks_incoming ∷ []

-- The first is dead, and goes in the next round.
one_left : (run (twice ++ checks_clients quiet ∷ []) idle).clients ≡ from_home 2 ∷ []
unfolding run
one_left = refl

none_left : (run (twice ++ checks_clients hung_up ∷ []) idle).clients ≡ []
unfolding run
none_left = refl

run-follow_all_example : Shows (run twice idle) (follow_all twice empty_hall)
run-follow_all_example = run-follow_all twice (refl, (tt, (refl, (tt, tt))))

run-IsClean_example : IsClean (run (twice ++ checks_clients quiet ∷ []) idle).clients
run-IsClean_example = run-IsClean twice quiet (refl, (tt, (refl, (tt, tt))))
