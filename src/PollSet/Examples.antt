-- ===== src/PollSet/Examples.antt =====
-- pollset.hh: two sockets, one of them watched twice.
use napsteresque.Base.{ℕ, ◌≡◌, refl, some, List, [], ◌∷◌}
use napsteresque.PollSet.{PollSet}
use napsteresque.PollSet.Ready.{last_watch}

abbrev start : PollSet
start = record { index = λ i. 0; table = λ i. record { fd = 0; events = 0; revents = 0 }; size = 0 }

abbrev watches : List (ℕ × ℕ)
watches = (5, 1) ∷ (3, 5) ∷ (5, 4) ∷ []

abbrev all_ready : ℕ → ℕ → ℕ
all_ready fd events = events

five-last_watch : last_watch 5 watches ≡ some 4
unfolding last_watch
five-last_watch = refl
