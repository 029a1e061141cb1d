-- ===== src/Ignore/Distinct.antt =====
-- ignore.cc: the list as a set of names that are told apart without regard to case.
use mathlib.Core.Option.{none-ne-some}
use napsteresque.Base.{
  ℕ, suc, ◌≡◌, refl, sym, ◌∙◌, ◌↔◌, Bool, true, false, not, ◌&&◌, ◌||◌, none, some, List, [], ◌∷◌,
  arith, inl, inr, Bool-cases, Option-cases, map, length,
}
use napsteresque.Ignore.{
  Name, IgnoreList, empty, Delta, removed, equal, same_name, lower, erase_at, get, find, exists,
  insert, insert_before, erase, erase_iterator, clear, clear_rounds, update, Op, inserts, erases,
  inserts_before, clears, updates, step, run,
}
use napsteresque.Ignore.Names.{
  holds, IsDistinct, holds-insert_at, holds_cong, insert_at-IsDistinct, holds-erase_at,
  erase_at-IsDistinct, equal→≡,
}

abbrev pub folded : Name → Name
folded = map lower

abbrev pub NoRepeats : IgnoreList → Type 0
NoRepeats l = IsDistinct folded l.names

find-holds : (xs : List Name) (s : Name) → (find xs s ≡ none) ↔ (holds folded xs s ≡ false)
unfolding find holds
find-holds [] s = ground arith
find-holds (x ∷ xs) s = ground (arith, find-holds xs s)

pub exists-holds : (l : IgnoreList) (s : Name) → exists l s ≡ holds folded l.names s
unfolding exists
exists-holds l s = ground (arith, find-holds l.names s)

-- What `find` returns points to a name that is the same.
pub find-get :
    (xs : List Name) (s : Name) (n : ℕ)
    → find xs s ≡ some n
    → (x : Name) × (get n xs ≡ some x) × (folded x ≡ folded s)
unfolding find get same_name
find-get [] s n e = absurd (none-ne-some n e)
find-get (x ∷ xs) s n e = elim (Bool-cases (equal (folded x) (folded s))) [
  | inl k ↦
      let at_head : find (x ∷ xs) s ≡ some 0 = rw (k) refl in
      let here : 0 ≡ n = cc (at_head, e) in (x, rw (← here) refl, equal→≡ (folded x) (folded s) k)
  | inr k ↦ elim (Option-cases (find xs s)) [
    | inl m ↦
        let failed : find (x ∷ xs) s ≡ none = rw (k, m) refl in
        absurd (none-ne-some n (sym failed ∙ e))
    | inr (p, m) ↦
        let further : find (x ∷ xs) s ≡ some (suc p) = rw (k, m) refl in
        let there : suc p ≡ n = cc (further, e) in
        let (y, g, same) = find-get xs s p m in (y, rw (← there) g, same)
  ]
]

pub clear-names : (l : IgnoreList) → (clear l).names ≡ []
unfolding clear clear_rounds
clear-names l = rounds l.names l.todo
  where
    rounds :
        (xs : List Name) (ds : List Delta)
        → (clear_rounds xs (record { names = xs; todo = ds })).names ≡ []
    rounds [] ds = refl
    rounds (x ∷ xs) ds = rounds xs (removed x ∷ ds)

insert_before-NoRepeats :
    (n : ℕ) (s : Name) (l : IgnoreList) → NoRepeats l → NoRepeats (insert_before n s l)
unfolding insert_before
insert_before-NoRepeats n s l d = elim (Bool-cases (exists l s)) [
  | inl k ↦ rw k d
  | inr k ↦ rw k (insert_at-IsDistinct folded n s l.names (sym (exists-holds l s) ∙ k) d)
]

-- What `erase` does, with the name that it finds.
pub data Erased (s : Name) (l : IgnoreList) : Type 0 where
  absent : holds folded l.names s ≡ false → erase s l ≡ l → Erased s l
  present :
      (n : ℕ) (x : Name)
      → get n l.names ≡ some x
      → folded x ≡ folded s
      → erase s l ≡ record { names = erase_at n l.names; todo = removed x ∷ l.todo }
      → Erased s l

pub erase-Erased : (s : Name) (l : IgnoreList) → Erased s l
unfolding erase
erase-Erased s l = elim (Option-cases (find l.names s)) [
  | inl m ↦ absent ((find-holds l.names s).0 m) (rw (m, erase) refl)
  | inr (n, m) ↦
      let (x, g, same) = find-get l.names s n m in
      present n x g same (rw (m, erase) (rw (g, erase_iterator) refl))
]

erase-NoRepeats : (s : Name) (l : IgnoreList) → NoRepeats l → NoRepeats (erase s l)
erase-NoRepeats s l d = elim (erase-Erased s l) [
  | absent k e ↦ rw e d
  | present n x g same e ↦ rw e (erase_at-IsDistinct folded n l.names d)
]

-- What a call does to the set of names.
unfoldable pub wants : Op → (Name → Bool) → Name → Bool
wants (inserts s) p t = same_name s t || p t
wants (inserts_before n s) p t = same_name s t || p t
wants (erases s) p t = not (same_name s t) && p t
wants clears p t = false
wants updates p t = p t

unfoldable pub replay : List Op → (Name → Bool) → Name → Bool
unfolding wants
replay [] p = p
replay (o ∷ os) p = replay os (wants o p)

pub step-NoRepeats : (o : Op) (l : IgnoreList) → NoRepeats l → NoRepeats (step o l)
unfolding step IsDistinct
step-NoRepeats (inserts s) l d = insert_before-NoRepeats (length l.names) s l d
step-NoRepeats (inserts_before n s) l d = insert_before-NoRepeats n s l d
step-NoRepeats (erases s) l d = erase-NoRepeats s l d
step-NoRepeats clears l d = rw (clear-names l) tt
step-NoRepeats updates l d = d

holds_same :
    (xs : List Name) (s t : Name) → same_name s t ≡ true → holds folded xs s ≡ holds folded xs t
unfolding same_name
holds_same xs s t k = holds_cong folded xs s t (equal→≡ (folded s) (folded t) k)

insert_before-exists :
    (n : ℕ) (s : Name) (l : IgnoreList) (t : Name)
    → exists (insert_before n s l) t ≡ same_name s t || exists l t
unfolding insert_before same_name
insert_before-exists n s l t = elim (Bool-cases (exists l s)) [
  | inl k ↦ rw k (ground (arith, exists-holds l s, exists-holds l t, holds_same l.names s t))
  | inr k ↦ rw k (
      ground (
        arith,
        exists-holds l t,
        exists-holds (insert_before n s l) t,
        holds-insert_at folded n s l.names t,
      ))
]

erase-exists :
    (s : Name) (l : IgnoreList) (t : Name)
    → NoRepeats l
    → exists (erase s l) t ≡ not (same_name s t) && exists l t
unfolding same_name
erase-exists s l t d = elim (erase-Erased s l) [
  | absent k e ↦ rw e (ground (arith, exists-holds l t, holds_same l.names s t))
  | present n x g same e ↦
      rw
        (
          e,
          exists-holds l t,
          exists-holds (record { names = erase_at n l.names; todo = removed x ∷ l.todo }) t,
          ← same,
        )
        (holds-erase_at folded n x l.names t g d)
]

step-exists :
    (o : Op) (l : IgnoreList) (t : Name) → NoRepeats l → exists (step o l) t ≡ wants o (exists l) t
unfolding step wants insert holds update
step-exists (inserts s) l t d = insert_before-exists (length l.names) s l t
step-exists (inserts_before n s) l t d = insert_before-exists n s l t
step-exists (erases s) l t d = erase-exists s l t d
step-exists clears l t d = rw (exists-holds (clear l) t, clear-names l) refl
step-exists updates l t d = exists-holds (update l) t ∙ sym (exists-holds l t)

wants_cong :
    (o : Op) (p q : Name → Bool) → ((t : Name) → p t ≡ q t) → (t : Name) → wants o p t ≡ wants o q t
unfolding wants
wants_cong (inserts s) p q h t = rw (h t) refl
wants_cong (inserts_before n s) p q h t = rw (h t) refl
wants_cong (erases s) p q h t = rw (h t) refl
wants_cong clears p q h t = refl
wants_cong updates p q h t = h t

replay_cong :
    (os : List Op) (p q : Name → Bool)
    → ((t : Name) → p t ≡ q t)
    → (t : Name) → replay os p t ≡ replay os q t
unfolding replay
replay_cong [] p q h t = h t
replay_cong (o ∷ os) p q h t = replay_cong os (wants o p) (wants o q) (wants_cong o p q h) t

run-exists :
    (os : List Op) (l : IgnoreList)
    → NoRepeats l
    → (t : Name) → exists (run os l) t ≡ replay os (exists l) t
unfolding run replay
run-exists [] l d t = refl
run-exists (o ∷ os) l d t =
    run-exists os (step o l) (step-NoRepeats o l d) t
    ∙ replay_cong os (exists (step o l)) (wants o (exists l)) (λ s. step-exists o l s d) t

pub run-NoRepeats : (os : List Op) (l : IgnoreList) → NoRepeats l → NoRepeats (run os l)
unfolding run
run-NoRepeats [] l d = d
run-NoRepeats (o ∷ os) l d = run-NoRepeats os (step o l) (step-NoRepeats o l d)

-- After any calls on a new list, `exists` answers as the set that the calls describe: an insertion adds
-- a name in every case, an erasure takes it out in every case, clearing takes out all, and `update`
-- changes nothing.
pub exists-run : (os : List Op) (t : Name) → exists (run os empty) t ≡ replay os (λ s. false) t
unfolding IsDistinct exists
exists-run os t = run-exists os empty tt t
