-- ===== src/Notify.antt =====
-- notify.hh and notify.cc, whose code stands under `#if 0` at this commit: who is told when a user comes
-- or goes. A user is the number of its object. A key is the memory that `my_strdup` allocates, by
-- number, with the name that stands there.
pub mod Counts
pub mod Agree
pub mod Sound
pub mod Replies
pub mod Refine
pub mod Loop
mod Examples
use napsteresque.Base.{
  ℕ, zero, suc, ◌+◌, Bool, true, false, not, ◌&&◌, ◌||◌, Option, none, some, List, [], ◌∷◌, ltb,
  ◌==◌, if◌then◌else◌, map,
}
use napsteresque.Ignore.{Name, lower, same_name}

pub record Key : Type 0 where
  pub at : ℕ
  pub name : Name

-- A pair of the multimap.
pub record NotifyPair : Type 0 where
  pub key : Key
  pub user : ℕ

-- The pairs in the multimap's order, `notifies` of each user, the number of the next key, and the keys
-- that were freed.
pub record NotifyManager : Type 0 where
  pub entries : List NotifyPair
  pub notifies : ℕ → List Key
  pub next : ℕ
  pub freed : List ℕ

abbrev pub empty : NotifyManager
empty = record { entries = []; notifies = λ u. []; next = 0; freed = [] }

-- `strcasecmp(s, t) < 0`
unfoldable pub below : Name → Name → Bool
below s [] = false
below [] (y ∷ t) = true
below (x ∷ s) (y ∷ t) =
    let rest = below s t in
    if ltb (lower x) (lower y) then true else if lower x == lower y then rest else false

-- `multimap::insert`: behind the pairs whose key is not greater.
unfoldable pub insert : NotifyPair → List NotifyPair → List NotifyPair
unfolding below
insert e [] = e ∷ []
insert e (x ∷ xs) = if below e.key.name x.key.name then e ∷ x ∷ xs else x ∷ insert e xs

-- `equal_range` of a sorted multimap: the pairs whose keys are the same but for case.
unfoldable pub range : Name → List NotifyPair → List NotifyPair
range n [] = []
range n (x ∷ xs) = let rest = range n xs in if same_name x.key.name n then x ∷ rest else rest

unfoldable pub has_user : ℕ → List NotifyPair → Bool
has_user u [] = false
has_user u (x ∷ xs) = if x.user == u then true else has_user u xs

-- The loop of `remove`: all pairs of the range with the user are erased.
unfoldable pub erase_pairs : Name → ℕ → List NotifyPair → List NotifyPair
erase_pairs n u [] = []
erase_pairs n u (x ∷ xs) =
    let rest = erase_pairs n u xs in
    if same_name x.key.name n && (x.user == u) then rest else x ∷ rest

-- The first key of a user's list that is the given memory is erased.
unfoldable pub erase_key : ℕ → List Key → List Key
erase_key at [] = []
erase_key at (k ∷ ks) = let rest = erase_key at ks in if k.at == at then ks else k ∷ rest

abbrev pub set_list : ℕ → List Key → (ℕ → List Key) → ℕ → List Key
set_list u ks f v = if v == u then ks else f v

-- The insertion of `add`, of a key into the map and the user's list.
unfoldable pub insert_key : Key → ℕ → NotifyManager → NotifyManager
insert_key k u s = record s {
  entries = insert (record { key = k; user = u }) s.entries;
  notifies = set_list u (k ∷ s.notifies u) s.notifies;
}

-- `add`, by the range of the name.
unfoldable pub add_in : Name → ℕ → NotifyManager → List NotifyPair → Bool × NotifyManager
add_in n u s [] =
    (true, insert_key (record { at = s.next; name = n }) u (record s { next = suc s.next }))
add_in n u s (x ∷ xs) = if has_user u (x ∷ xs) then (false, s) else (true, insert_key x.key u s)

unfoldable pub add : Name → ℕ → NotifyManager → Bool × NotifyManager
add n u s = add_in n u s (range n s.entries)

-- The end of `remove`, by the range of the key's name: the memory of a key that no pair has any more is
-- freed.
unfoldable pub free_in : Key → NotifyManager → List NotifyPair → NotifyManager
free_in k s [] = record s { freed = k.at ∷ s.freed }
free_in k s (x ∷ xs) = s

-- The pairs of a user in a range are erased, and where there were any, the key in the user's list.
unfoldable pub erase_found : Name → ℕ → Key → Bool → NotifyManager → NotifyManager
erase_found n u k found s = record s {
  entries = erase_pairs n u s.entries;
  notifies = if found then set_list u (erase_key k.at (s.notifies u)) s.notifies else s.notifies;
}

-- `remove`, by the range of the name.
unfoldable pub remove_in : Name → ℕ → NotifyManager → List NotifyPair → Bool × NotifyManager
remove_in n u s [] = (false, s)
remove_in n u s (x ∷ xs) =
    let found = has_user u (x ∷ xs) in
    let s' = erase_found n u x.key found s in
    (found, free_in x.key s' (range x.key.name s'.entries))

unfoldable pub remove : Name → ℕ → NotifyManager → Bool × NotifyManager
remove n u s = remove_in n u s (range n s.entries)

-- The loop of `~NotifyManager`, over the pairs: a key is freed once for each of its pairs.
unfoldable pub delete_keys : List NotifyPair → List ℕ → List ℕ
delete_keys [] freed = freed
delete_keys (x ∷ xs) freed = delete_keys xs (x.key.at ∷ freed)

-- `~NotifyManager`
unfoldable pub destruct : NotifyManager → NotifyManager
unfolding delete_keys
destruct s = record s { freed = delete_keys s.entries s.freed }
