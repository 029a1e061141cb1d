-- ===== src/Notify/Replies.antt =====
-- notify.cc: what users are told, and the handlers of the server, which stand under a second `#if 0`.
-- The server's table of users is a parameter: the name and the line's speed of the user of a name.
use napsteresque.Base.{
  ℕ, zero, suc, Bool, true, false, Option, none, some, List, [], ◌∷◌, ◌++◌, if◌then◌else◌, length,
}
use napsteresque.Args.{get_next_argument_limited}
use napsteresque.Ignore.{Name}
use napsteresque.Notify.{Key, NotifyPair, NotifyManager, range, add, remove}

pub data Status : Type 0 where
  coming_online going_offline : Status

-- COMPUTER_ONLINE, COMPUTER_OFFLINE, NOTIFY_EXISTS, NOTIFY_UNKNOWN, NOTIFY_ENTRY, NOTIFY_LIST and
-- NOTIFY_CLEAR with their arguments.
pub data Reply : Type 0 where
  online : Name → ℕ → Reply
  offline exists unknown entry : Name → Reply
  listed cleared : ℕ → Reply

abbrev pub reply_for : Name → ℕ → Status → Reply
reply_for n speed coming_online = online n speed
reply_for n speed going_offline = offline n

-- `User::write`, of a reply to a user: it throws.
unfoldable pub user_write : ℕ → Reply → Bool
user_write u r = true

-- The loop of `notify`, which says the reply to the user of each pair, up to the first exception:
-- whether it throws.
unfoldable pub tell_range : Reply → List NotifyPair → Bool
unfolding user_write
tell_range r [] = false
tell_range r (x ∷ xs) = let rest = tell_range r xs in if user_write x.user r then true else rest

-- `notify`, of a client with a name and a line's speed: whether it throws. It says to a `User *`, whose
-- `write` is not virtual.
unfoldable pub notify : Name → ℕ → Status → NotifyManager → Bool
unfolding tell_range range
notify n speed status s = tell_range (reply_for n speed status) (range n s.entries)

abbrev pub compname_maxbuf : ℕ
compname_maxbuf = 20

-- What a round of a handler's loop over the names takes, and the loop, with a bound on its rounds.
unfoldable pub arguments : ℕ → Option (List ℕ) → Option (List Name)
arguments zero src = none
arguments (suc fuel) src =
    let n = get_next_argument_limited src compname_maxbuf in
    let rest = arguments fuel n.src in
    if n.found
    then (elim n.begin [
      | none ↦ some []
      | some word ↦ elim rest [ none ↦ none | some words ↦ some (word ∷ words) ]
    ])
    else some []

-- `ListNotifies`: what the caller is told.
unfoldable pub entries_of : List Key → List Reply
entries_of [] = []
entries_of (k ∷ ks) = entry k.name ∷ entries_of ks

unfoldable pub list_notifies : ℕ → NotifyManager → List Reply
unfolding entries_of
list_notifies u s = entries_of (s.notifies u) ++ listed (length (s.notifies u)) ∷ []

-- `RemoveNotify`, of the names that the loop takes.
unfoldable pub remove_notify : List Name → ℕ → NotifyManager → NotifyManager
unfolding remove
remove_notify [] u s = s
remove_notify (n ∷ ns) u s = remove_notify ns u (remove n u s).1

-- The loop of `ClearNotifies`, over a copy of the caller's list.
unfoldable pub clear_keys : List Key → ℕ → NotifyManager → NotifyManager
unfolding remove
clear_keys [] u s = s
clear_keys (k ∷ ks) u s = clear_keys ks u (remove k.name u s).1

unfoldable pub clear_notifies : ℕ → NotifyManager → Reply × NotifyManager
unfolding clear_keys
clear_notifies u s = (cleared (length (s.notifies u)), clear_keys (s.notifies u) u s)

module _ (get_user : Name → Option (Name × ℕ)) where
  unfoldable pub status_reply : Name → Reply
  status_reply n = elim (get_user n) [ none ↦ offline n | some (m, speed) ↦ online m speed ]

  -- `CheckOnline`, of the names that the loop takes: what the requester is told, and the manager.
  unfoldable pub check_online : List Name → ℕ → NotifyManager → List Reply × NotifyManager
  unfolding add status_reply
  check_online [] u s = ([], s)
  check_online (n ∷ ns) u s =
      let (fresh, s') = add n u s in
      let (replies, s'') = check_online ns u s' in
      if fresh then (status_reply n ∷ replies, s'') else (replies, s'')

  -- `AddNotify`, of the names that the loop takes.
  unfoldable pub add_notify : List Name → ℕ → NotifyManager → List Reply × NotifyManager
  unfolding add status_reply
  add_notify [] u s = ([], s)
  add_notify (n ∷ ns) u s =
      let (fresh, s') = add n u s in
      let (replies, s'') = add_notify ns u s' in
      if fresh then (exists n ∷ status_reply n ∷ replies, s'') else (unknown n ∷ replies, s'')
