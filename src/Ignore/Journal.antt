-- ===== src/Ignore/Journal.antt =====
-- ignore.cc: the list of changes tells what `names` became since the last `update`.
use mathlib.Core.Bool.{true≢false}
use napsteresque.Base.{
  ℕ, ◌≡◌, refl, sym, ap, ◌∙◌, Bool, true, false, some, List, [], ◌∷◌, if◌then◌else◌, arith, inl,
  inr, Bool-cases, length, All,
}
use napsteresque.Ignore.{
  Name, IgnoreList, empty, Delta, added, removed, equal, erase_at, get, exists, insert,
  insert_before, erase, clear, clear_rounds, update, Op, inserts, erases, inserts_before, clears,
  updates, step, run,
}
use napsteresque.Ignore.Names.{
  holds, IsDistinct, holds-insert_at, holds-erase_at, equal_refl, equal→≡,
}
use napsteresque.Ignore.Distinct.{
  NoRepeats, folded, absent, present, erase-Erased, step-NoRepeats, run-NoRepeats,
}

-- The name is in the list, letter by letter.
abbrev pub member : IgnoreList → Name → Bool
member l t = holds (λ s. s) l.names t

-- Whether a database that held the names of `p` holds one after the changes, the newest of which
-- stands first.
unfoldable pub journaled : List Delta → (Name → Bool) → Name → Bool
journaled [] p t = p t
journaled (added s ∷ ds) p t = if equal s t then true else journaled ds p t
journaled (removed s ∷ ds) p t = if equal s t then false else journaled ds p t

-- The call is no `update`.
abbrev pub IsChange : Op → Type 0
IsChange (inserts s) = Unit {0}
IsChange (erases s) = Unit {0}
IsChange (inserts_before n s) = Unit {0}
IsChange clears = Unit {0}
IsChange updates = ⊥

missing : (x : Name) (ys : List Name) → holds folded ys x ≡ false → holds (λ s. s) ys x ≡ false
unfolding holds
missing x [] h = refl
missing x (y ∷ ys) h = elim (Bool-cases (equal y x)) [
  | inl k ↦
      let same : folded y ≡ folded x = ap folded (equal→≡ y x k) in
      let whole : holds folded (y ∷ ys) x ≡ true = rw (same, equal_refl (folded x)) refl in
      absurd (true≢false (sym whole ∙ h))
  | inr k ↦ ground (arith, missing x ys)
]

-- A name that stands in the list once without regard to case stands there once.
exactly-IsDistinct : (xs : List Name) → IsDistinct folded xs → IsDistinct (λ s. s) xs
unfolding IsDistinct holds
exactly-IsDistinct [] d = tt
exactly-IsDistinct (x ∷ xs) d = (missing x xs d.0, exactly-IsDistinct xs d.1)

abbrev Journaled : (Name → Bool) → IgnoreList → Type 0
Journaled p l = (t : Name) → member l t ≡ journaled l.todo p t

insert_before-Journaled :
    (p : Name → Bool) (n : ℕ) (s : Name) (l : IgnoreList)
    → Journaled p l
    → Journaled p (insert_before n s l)
unfolding insert_before journaled
insert_before-Journaled p n s l j t = elim (Bool-cases (exists l s)) [
  | inl k ↦ rw k (j t)
  | inr k ↦ rw k (ground (arith, j t, holds-insert_at (λ s. s) n s l.names t))
]

erased-Journaled :
    (p : Name → Bool) (n : ℕ) (x : Name) (l : IgnoreList)
    → get n l.names ≡ some x
    → NoRepeats l
    → Journaled p l
    → Journaled p (record { names = erase_at n l.names; todo = removed x ∷ l.todo })
unfolding journaled
erased-Journaled p n x l g d j t =
    ground (arith, j t, holds-erase_at (λ s. s) n x l.names t g (exactly-IsDistinct l.names d))

erase-Journaled :
    (p : Name → Bool) (s : Name) (l : IgnoreList)
    → NoRepeats l
    → Journaled p l
    → Journaled p (erase s l)
erase-Journaled p s l d j = elim (erase-Erased s l) [
  | absent k e ↦ rw e j
  | present n x g same e ↦ rw e (erased-Journaled p n x l g d j)
]

clear_rounds-Journaled :
    (p : Name → Bool) (xs : List Name) (ds : List Delta)
    → NoRepeats (record { names = xs; todo = ds })
    → Journaled p (record { names = xs; todo = ds })
    → Journaled p (clear_rounds xs (record { names = xs; todo = ds }))
unfolding clear_rounds IsDistinct
clear_rounds-Journaled p [] ds d j = j
clear_rounds-Journaled p (x ∷ xs) ds d j =
    clear_rounds-Journaled p xs (removed x ∷ ds) d.1
      (erased-Journaled p 0 x (record { names = x ∷ xs; todo = ds }) refl d j)

step-Journaled :
    (p : Name → Bool) (o : Op) (l : IgnoreList)
    → IsChange o
    → NoRepeats l
    → Journaled p l
    → Journaled p (step o l)
unfolding step insert clear
step-Journaled p (inserts s) l c d j = insert_before-Journaled p (length l.names) s l j
step-Journaled p (inserts_before n s) l c d j = insert_before-Journaled p n s l j
step-Journaled p (erases s) l c d j = erase-Journaled p s l d j
step-Journaled p clears l c d j = clear_rounds-Journaled p l.names l.todo d j
step-Journaled p updates l c d j = absurd c

run-Journaled :
    (p : Name → Bool) (os : List Op) (l : IgnoreList)
    → All IsChange os
    → NoRepeats l
    → Journaled p l
    → Journaled p (run os l)
unfolding run
run-Journaled p [] l c d j = j
run-Journaled p (o ∷ os) l c d j =
    run-Journaled p os (step o l) c.1 (step-NoRepeats o l d) (step-Journaled p o l c.0 d j)

-- A database that holds the names of the list at an `update`, and applies the changes made since in
-- the order they were made, holds the names of the list now, letter by letter. The newest change of
-- `todo` stands first, and no `update` is among the later calls.
pub todo-run :
    (before after : List Op) (t : Name)
    → All IsChange after
    → member (run after (update (run before empty))) t
      ≡ journaled
          (run after (update (run before empty))).todo
          (member (update (run before empty)))
          t
unfolding IsDistinct update journaled
todo-run before after t c =
    run-Journaled (member (update (run before empty))) after (update (run before empty)) c
      (run-NoRepeats before empty tt) (λ s. refl) t
