-- ===== src/Notify/Examples.antt =====
-- notify.cc: three users, two of whom watch the same name.
use napsteresque.Base.{ℕ, ◌≡◌, refl, true, false, some, List, [], ◌∷◌, arith}
use napsteresque.Ignore.{Name, same_name}
use napsteresque.Notify.{
  empty, insert, range, has_user, erase_pairs, erase_key, insert_key, add_in, add, free_in,
  erase_found, remove_in, remove, destruct,
}
use napsteresque.Notify.Sound.{IsSound}
use napsteresque.Notify.Refine.{
  Call, adds, removes, step, run, answers_of, after_all, watches, run-empty, run_empty-IsSound,
}
use napsteresque.Notify.Replies.{coming_online, notify, arguments}
use napsteresque.Notify.Loop.{arguments-total}

abbrev al : Name
al = b'a' ∷ b'l' ∷ []

abbrev al_shouted : Name
al_shouted = b'A' ∷ b'L' ∷ []

-- Users 1 and 2 watch `al`, user 2 once more by another case, and user 1 leaves.
abbrev history : List Call
history =
    adds al 1
    ∷ adds al 2
    ∷ adds al_shouted 2
    ∷ removes al_shouted 1
    ∷ removes al 1
    ∷ removes al 3
    ∷ []

-- What the calls answer.
answers-history : (run history empty).0 ≡ true ∷ true ∷ false ∷ true ∷ false ∷ false ∷ []
unfolding run step add add_in insert_key insert range has_user remove remove_in erase_found
    erase_pairs free_in erase_key same_name
answers-history = refl

run-empty_example :
    ((run history empty).0 ≡ answers_of history (λ n u. false))
    × (watches (run history empty).1 ≡ after_all history (λ n u. false))
run-empty_example = run-empty history

run_empty-IsSound_example : IsSound (run history empty).1
run_empty-IsSound_example = run_empty-IsSound history

-- User 2 still watches `al`: telling it of that user throws.
notify-al : notify al 5 coming_online (run history empty).1 ≡ true
unfolding notify run step add add_in insert_key insert range has_user remove remove_in erase_found
    erase_pairs free_in erase_key same_name
notify-al = refl

-- Where two users watch a name, whose key is 0, the destructor frees the key twice.
destruct_twice : (destruct (run (adds al 1 ∷ adds al 2 ∷ []) empty).1).freed ≡ 0 ∷ 0 ∷ []
unfolding destruct run step add add_in insert_key insert range has_user same_name
destruct_twice = refl

abbrev two_names : List ℕ
two_names = b'a' ∷ b'l' ∷ b' ' ∷ b'b' ∷ []

arguments-total_example : (words : List Name) × (arguments 6 (some two_names) ≡ some words)
arguments-total_example = arguments-total 6 (some two_names) (omega arith)
