-- ===== src/Ignore.antt =====
-- ignore.hh and ignore.cc: the list of names that a client ignores, and the changes of it that are not
-- yet written to the database. A `char *` is the list of its characters, an iterator its index.
pub mod Names
pub mod Distinct
pub mod Journal
mod Examples
use napsteresque.Base.{
  ℕ, zero, suc, ◌+◌, Bool, true, false, Option, none, some, List, [], ◌∷◌, ltb, ◌&&◌, ◌==◌,
  if◌then◌else◌, length, map,
}

abbrev pub Name : Type 0
Name = List ℕ

abbrev pub lower : ℕ → ℕ
lower c = if ltb 64 c && ltb c 91 then c + 32 else c

unfoldable pub equal : Name → Name → Bool
equal [] [] = true
equal [] (y ∷ t) = false
equal (x ∷ s) [] = false
equal (x ∷ s) (y ∷ t) = if x == y then equal s t else false

-- `!strcasecmp(s, t)`
unfoldable pub same_name : Name → Name → Bool
unfolding equal
same_name s t = equal (map lower s) (map lower t)

pub data Delta : Type 0 where
  added removed : Name → Delta

pub record IgnoreList : Type 0 where
  pub names : List Name
  pub todo : List Delta

abbrev pub empty : IgnoreList
empty = record { names = []; todo = [] }

-- `list::insert` and `list::erase`, and what an iterator points to.
unfoldable pub insert_at : ℕ → Name → List Name → List Name
insert_at zero s xs = s ∷ xs
insert_at (suc n) s [] = s ∷ []
insert_at (suc n) s (x ∷ xs) = x ∷ insert_at n s xs

unfoldable pub erase_at : ℕ → List Name → List Name
erase_at n [] = []
erase_at zero (x ∷ xs) = xs
erase_at (suc n) (x ∷ xs) = x ∷ erase_at n xs

unfoldable pub get : ℕ → List Name → Option Name
get n [] = none
get zero (x ∷ xs) = some x
get (suc n) (x ∷ xs) = get n xs

-- `find`, the index of the first name that is the same but for case, `none` for `end()`.
unfoldable pub find : List Name → Name → Option ℕ
unfolding same_name
find [] s = none
find (x ∷ xs) s =
    if same_name x s then some 0 else elim (find xs s) [ none ↦ none | some n ↦ some (suc n) ]

unfoldable pub exists : IgnoreList → Name → Bool
unfolding find
exists l s = elim (find l.names s) [ none ↦ false | some n ↦ true ]

-- `insert(iterator, const char *)`
unfoldable pub insert_before : ℕ → Name → IgnoreList → IgnoreList
unfolding exists insert_at
insert_before n s l =
    if exists l s then l else record { names = insert_at n s l.names; todo = added s ∷ l.todo }

-- `insert(const char *)`
unfoldable pub insert : Name → IgnoreList → IgnoreList
unfolding insert_before
insert s l = insert_before (length l.names) s l

-- `erase(iterator)`; at `end()` it is undefined, and nothing calls it there.
unfoldable pub erase_iterator : ℕ → IgnoreList → IgnoreList
unfolding erase_at get
erase_iterator n l = elim (get n l.names) [
  | none ↦ l
  | some x ↦ record { names = erase_at n l.names; todo = removed x ∷ l.todo }
]

-- `erase(const char *)`
unfoldable pub erase : Name → IgnoreList → IgnoreList
unfolding find erase_iterator
erase s l = elim (find l.names s) [ none ↦ l | some n ↦ erase_iterator n l ]

-- `clear`: the first name is erased until none is left, one round for each name.
unfoldable pub clear_rounds : List Name → IgnoreList → IgnoreList
unfolding erase_iterator
clear_rounds [] l = l
clear_rounds (x ∷ xs) l = clear_rounds xs (erase_iterator 0 l)

unfoldable pub clear : IgnoreList → IgnoreList
unfolding clear_rounds
clear l = clear_rounds l.names l

-- `update` as it is compiled: the changes are dropped.
unfoldable pub update : IgnoreList → IgnoreList
update l = record l { todo = [] }

-- The calls that a program makes.
pub data Op : Type 0 where
  inserts erases : Name → Op
  inserts_before : ℕ → Name → Op
  clears updates : Op

unfoldable pub step : Op → IgnoreList → IgnoreList
unfolding insert insert_before erase clear update
step (inserts s) l = insert s l
step (erases s) l = erase s l
step (inserts_before n s) l = insert_before n s l
step clears l = clear l
step updates l = update l

unfoldable pub run : List Op → IgnoreList → IgnoreList
unfolding step
run [] l = l
run (o ∷ os) l = run os (step o l)
