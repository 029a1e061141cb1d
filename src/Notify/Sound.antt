-- ===== src/Notify/Sound.antt =====
-- notify.cc: the map and the users' lists mirror each other, and no key is used after it is freed.
use napsteresque.Base.{
  ℕ, suc, ◌+◌, ◌≤◌, ◌<◌, ◌≡◌, refl, sym, ap, ◌∙◌, Bool, true, false, not, List, [], ◌∷◌, ◌==◌,
  ==_refl, if◌then◌else◌, All, arith, Bool-cases, inl, inr,
}
use napsteresque.Ignore.{Name, same_name}
use napsteresque.Notify.{
  Key, NotifyPair, NotifyManager, empty, range, has_user, erase_key, set_list, insert_key, add_in,
  add, free_in, erase_found, remove_in, remove,
}
use napsteresque.Notify.Agree.{
  Agrees, AllAgree, insert-AllAgree, erase_pairs-AllAgree, range-Agrees, range_none-Agrees,
  All-weaken, pairs-fresh, Agrees-Names,
}
use napsteresque.Notify.Counts.{
  pairs, count, times, pairs-insert, count-erase_key, All-insert, All-erase_pairs, range_first,
  Names, pairs-erase_pairs, has_user-range, pairs-range_none,
}

-- A key is in a user's list as often as the pair of the two is in the map; that is at most once, and
-- then the key is not freed, and a key is freed at most once; a number yet to come is nowhere.
pub record IsSound (s : NotifyManager) : Type 0 where
  pub mirror : (at u : ℕ) → count at (s.notifies u) ≡ pairs at u s.entries
  pub live : (at u : ℕ) → times at s.freed + pairs at u s.entries ≤ 1
  pub agree : AllAgree s.entries
  pub fresh : All (λ e. e.key.at < s.next) s.entries
  pub freed_before : (at : ℕ) → s.next ≤ at → times at s.freed ≡ 0

pub empty-IsSound : IsSound empty
empty-IsSound = record {
  mirror = λ at u. refl;
  live = λ at u. omega arith;
  agree = tt;
  fresh = tt;
  freed_before = λ at h. refl;
}

count-set_list :
    (at u w : ℕ) (ks : List Key) (f : ℕ → List Key)
    → count at (set_list u ks f w) ≡ (if w == u then count at ks else count at (f w))
count-set_list at u w ks f = ground arith

-- A key that is not freed, agrees with all pairs and has none with the user is inserted.
insert_key-IsSound :
    (k : Key) (u : ℕ) (s : NotifyManager)
    → IsSound s
    → Agrees k s.entries
    → k.at < s.next
    → times k.at s.freed ≡ 0
    → pairs k.at u s.entries ≡ 0
    → IsSound (insert_key k u s)
unfolding insert_key
insert_key-IsSound k u s v a small kept none_yet = record {
  mirror = λ at w.
      (let listed = count-set_list at u w (k ∷ s.notifies u) s.notifies in
        let more = pairs-insert at w (record { key = k; user = u }) s.entries in
        ground (arith, listed, more, v.mirror at w, v.mirror at u));
  live = λ at w.
      (let more = pairs-insert at w (record { key = k; user = u }) s.entries in
        ground (arith, more, v.live at w, kept, none_yet));
  agree = insert-AllAgree k u s.entries a v.agree;
  fresh =
      All-insert (λ e. e.key.at < s.next) (record { key = k; user = u }) s.entries small v.fresh;
  freed_before = v.freed_before;
}

-- A new number.
next-IsSound : (s : NotifyManager) → IsSound s → IsSound (record s { next = suc s.next })
next-IsSound s v = record {
  mirror = v.mirror;
  live = v.live;
  agree = v.agree;
  fresh = All-weaken s.next s.entries v.fresh;
  freed_before = λ at h. v.freed_before at (omega (arith, h));
}

no_pairs :
    (n : Name) (k u : ℕ) (es r : List NotifyPair)
    → Names n k es
    → range n es ≡ r
    → has_user u r ≡ false
    → pairs k u es ≡ 0
no_pairs n k u es r named e b =
    let known = sym (has_user-range n k u es named) ∙ ap (has_user u) e ∙ b in ground (arith, known)

has_user_self : (x : NotifyPair) (xs : List NotifyPair) → has_user x.user (x ∷ xs) ≡ true
unfolding has_user
has_user_self x xs = rw (==_refl x.user) refl

-- The key of a pair is not freed.
range-kept :
    (n : Name) (s : NotifyManager) (xs : List NotifyPair) (x : NotifyPair)
    → IsSound s
    → Names n x.key.at s.entries
    → range n s.entries ≡ x ∷ xs
    → times x.key.at s.freed ≡ 0
range-kept n s xs x v named r =
    let known =
      sym (has_user-range n x.key.at x.user s.entries named)
      ∙ ap (has_user x.user) r
      ∙ has_user_self x xs in
    ground (arith, known, v.live x.key.at x.user)

add_in-IsSound :
    (n : Name) (u : ℕ) (s : NotifyManager) (r : List NotifyPair)
    → range n s.entries ≡ r
    → IsSound s
    → IsSound (add_in n u s r).1
unfolding add_in
add_in-IsSound n u s [] r v =
    insert_key-IsSound (record { at = s.next; name = n }) u (record s { next = suc s.next })
      (next-IsSound s v) (range_none-Agrees n s.next s.entries r v.fresh) (omega arith)
      (v.freed_before s.next (omega arith)) (pairs-fresh s.next u s.entries v.fresh)
add_in-IsSound n u s (x ∷ xs) r v = elim (Bool-cases (has_user u (x ∷ xs))) [
  | inl b ↦ rw b v
  | inr b ↦
      let a = range-Agrees n s.entries xs x v.agree r in
      let (small, same) = range_first (λ e. e.key.at < s.next) n s.entries xs x r v.fresh in
      let named = Agrees-Names n x.key s.entries same a in
      let none_yet = no_pairs n x.key.at u s.entries (x ∷ xs) named r b in
      let kept = range-kept n s xs x v named r in
      rw b (insert_key-IsSound x.key u s v a small kept none_yet)
]

pub add-IsSound : (n : Name) (u : ℕ) (s : NotifyManager) → IsSound s → IsSound (add n u s).1
unfolding add
add-IsSound n u s v = add_in-IsSound n u s (range n s.entries) refl v

erase_found-IsSound :
    (n : Name) (u : ℕ) (k : Key) (found : Bool) (s : NotifyManager)
    → IsSound s
    → Names n k.at s.entries
    → found ≡ not (pairs k.at u s.entries == 0)
    → IsSound (erase_found n u k found s)
unfolding erase_found
erase_found-IsSound n u k found s v named e = record {
  mirror = λ at w.
      (let listed = count-set_list at u w (erase_key k.at (s.notifies u)) s.notifies in
        let fewer = pairs-erase_pairs n k.at u s.entries named at w in
        let shorter = count-erase_key at k.at (s.notifies u) in
        ground (arith, e, listed, fewer, shorter, v.mirror at w, v.mirror at u, v.live at w));
  live = λ at w.
      (let fewer = pairs-erase_pairs n k.at u s.entries named at w in
        ground (arith, fewer, v.live at w));
  agree = erase_pairs-AllAgree n u s.entries v.agree;
  fresh = All-erase_pairs (λ e. e.key.at < s.next) n u s.entries v.fresh;
  freed_before = v.freed_before;
}

free_in-IsSound :
    (k : Key) (s : NotifyManager) (r : List NotifyPair)
    → IsSound s
    → range k.name s.entries ≡ r
    → Agrees k s.entries
    → k.at < s.next
    → times k.at s.freed ≡ 0
    → IsSound (free_in k s r)
unfolding free_in
free_in-IsSound k s (x ∷ xs) v e a small kept = v
free_in-IsSound k s [] v e a small kept = record {
  mirror = v.mirror;
  live = λ at w.
      (let gone = pairs-range_none k.name k.at w s.entries a e in
        ground (arith, gone, kept, v.live at w));
  agree = v.agree;
  fresh = v.fresh;
  freed_before = λ at h. ground (arith, h, small, v.freed_before at h);
}

remove_in-IsSound :
    (n : Name) (u : ℕ) (s : NotifyManager) (r : List NotifyPair)
    → range n s.entries ≡ r
    → IsSound s
    → IsSound (remove_in n u s r).1
unfolding remove_in erase_found
remove_in-IsSound n u s [] r v = v
remove_in-IsSound n u s (x ∷ xs) r v =
    let a = range-Agrees n s.entries xs x v.agree r in
    let (small, same) = range_first (λ e. e.key.at < s.next) n s.entries xs x r v.fresh in
    let named = Agrees-Names n x.key s.entries same a in
    let found = has_user u (x ∷ xs) in
    let s' = erase_found n u x.key found s in
    let known : found ≡ not (pairs x.key.at u s.entries == 0) =
      sym (ap (has_user u) r) ∙ has_user-range n x.key.at u s.entries named in
    free_in-IsSound x.key s' (range x.key.name s'.entries)
      (erase_found-IsSound n u x.key found s v named known) refl
      (All-erase_pairs (λ e. same_name e.key.name x.key.name ≡ (e.key.at == x.key.at)) n u s.entries
        a)
      small (range-kept n s xs x v named r)

pub remove-IsSound : (n : Name) (u : ℕ) (s : NotifyManager) → IsSound s → IsSound (remove n u s).1
unfolding remove
remove-IsSound n u s v = remove_in-IsSound n u s (range n s.entries) refl v
