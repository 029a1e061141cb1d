-- ===== src/Notify/Refine.antt =====
-- notify.cc: the manager is the set of who watches whom.
use mathlib.Core.Path.{fun_ext}
use napsteresque.Base.{
  ℕ, ◌≡◌, refl, sym, ap, ◌∙◌, Bool, true, false, not, ◌&&◌, ◌||◌, List, [], ◌∷◌, ◌==◌, All, arith,
  Bool-cases, inl, inr,
}
use napsteresque.Ignore.{Name, same_name}
use napsteresque.Notify.{
  Key, NotifyPair, NotifyManager, empty, insert, range, has_user, erase_pairs, insert_key, add_in,
  add, free_in, erase_found, remove_in, remove,
}
use napsteresque.Notify.Counts.{same_name_cong, same_name_cong_right, range_first}
use napsteresque.Notify.Sound.{IsSound, empty-IsSound, add-IsSound, remove-IsSound}

-- A user watches a name.
abbrev pub watches : NotifyManager → Name → ℕ → Bool
watches s n u = has_user u (range n s.entries)

has_user-insert :
    (e : NotifyPair) (es : List NotifyPair) (m : Name) (v : ℕ)
    → has_user v (range m (insert e es))
      ≡ (same_name e.key.name m && (e.user == v)) || has_user v (range m es)
unfolding has_user range insert
has_user-insert e [] m v = ground arith
has_user-insert e (x ∷ xs) m v = ground (arith, has_user-insert e xs m v)

has_user-erase_pairs :
    (n : Name) (u : ℕ) (es : List NotifyPair) (m : Name) (v : ℕ)
    → has_user v (range m (erase_pairs n u es))
      ≡ has_user v (range m es) && not (same_name n m && (u == v))
unfolding has_user range erase_pairs
has_user-erase_pairs n u [] m v = ground arith
has_user-erase_pairs n u (x ∷ xs) m v = ground (
  arith,
  has_user-erase_pairs n u xs m v,
  same_name_cong x.key.name n m,
  same_name_cong_right x.key.name n m,
)

-- The calls, and the set that they stand for.
pub data Call : Type 0 where
  adds removes : Name → ℕ → Call

unfoldable pub step : Call → NotifyManager → Bool × NotifyManager
step (adds n u) s = add n u s
step (removes n u) s = remove n u s

-- What a call answers, and whether a user watches a name after it.
abbrev pub answer : Call → (Name → ℕ → Bool) → Bool
answer (adds n u) w = not (w n u)
answer (removes n u) w = w n u

abbrev pub after : Call → (Name → ℕ → Bool) → Name → ℕ → Bool
after (adds n u) w m v = (same_name n m && (u == v)) || w m v
after (removes n u) w m v = w m v && not (same_name n m && (u == v))

range-cong : (n m : Name) (es : List NotifyPair) → same_name n m ≡ true → range n es ≡ range m es
unfolding range
range-cong n m [] h = refl
range-cong n m (x ∷ xs) h = rw (same_name_cong_right x.key.name n m h, range-cong n m xs h) refl

pub All-unit : (es : List NotifyPair) → All (λ e. Unit {0}) es
All-unit [] = tt
All-unit (x ∷ xs) = (tt, All-unit xs)

-- A call does to the manager what it does to the set.
abbrev Does : Call → NotifyManager → Bool × NotifyManager → Type 0
Does c s r =
    (r.0 ≡ answer c (watches s))
    × ((m : Name) (v : ℕ) → watches (r.1) m v ≡ after c (watches s) m v)

add_in-watches :
    (n : Name) (u : ℕ) (s : NotifyManager) (r : List NotifyPair)
    → range n s.entries ≡ r
    → Does (adds n u) s (add_in n u s r)
unfolding add_in insert_key has_user
add_in-watches n u s [] r = (
  ap (λ t. not (has_user u t)) (sym r),
  λ m v.
      has_user-insert (record { key = record { at = s.next; name = n }; user = u }) s.entries m v,
)
add_in-watches n u s (x ∷ xs) r =
    let known = ap (has_user u) r in
    elim (Bool-cases (has_user u (x ∷ xs))) [
      | inl b ↦ rw b (
        ap not (sym (known ∙ b)),
        λ m v.
            (let same =
                λ (h : same_name n m ≡ true). ap (has_user v) (range-cong n m s.entries h) in
              ground (arith, known, b, same)),
      )
      | inr b ↦ rw b (
        ap not (sym (known ∙ b)),
        λ m v.
            (let e : NotifyPair = record { key = x.key; user = u } in
              let here = (range_first (λ t. Unit {0}) n s.entries xs x r (All-unit s.entries)).1 in
              has_user-insert e s.entries m v
              ∙ ap (λ t. (t && (u == v)) || watches s m v) (same_name_cong x.key.name n m here)),
      )
    ]

free_in-entries :
    (k : Key) (s : NotifyManager) (r : List NotifyPair) → (free_in k s r).entries ≡ s.entries
unfolding free_in
free_in-entries k s [] = refl
free_in-entries k s (x ∷ xs) = refl

remove_in-watches :
    (n : Name) (u : ℕ) (s : NotifyManager) (r : List NotifyPair)
    → range n s.entries ≡ r
    → Does (removes n u) s (remove_in n u s r)
unfolding remove_in erase_found has_user
remove_in-watches n u s [] r =
    let known = ap (has_user u) r in
    (
      sym known,
      λ m v.
          (let same = λ (h : same_name n m ≡ true). ap (has_user v) (range-cong n m s.entries h) in
            ground (arith, known, same)),
    )
remove_in-watches n u s (x ∷ xs) r =
    let s' = erase_found n u x.key (has_user u (x ∷ xs)) s in
    (
      sym (ap (has_user u) r),
      λ m v.
          ap (λ t. has_user v (range m t)) (free_in-entries x.key s' (range x.key.name s'.entries))
          ∙ has_user-erase_pairs n u s.entries m v,
    )

step-Does : (c : Call) (s : NotifyManager) → Does c s (step c s)
unfolding step add remove
step-Does (adds n u) s = add_in-watches n u s (range n s.entries) refl
step-Does (removes n u) s = remove_in-watches n u s (range n s.entries) refl

step-IsSound : (c : Call) (s : NotifyManager) → IsSound s → IsSound (step c s).1
unfolding step
step-IsSound (adds n u) s v = add-IsSound n u s v
step-IsSound (removes n u) s v = remove-IsSound n u s v

-- A history of calls, what each answers, and the same of the set.
unfoldable pub run : List Call → NotifyManager → List Bool × NotifyManager
unfolding step
run [] s = ([], s)
run (c ∷ cs) s =
    let (answered, s') = step c s in let (answers, s'') = run cs s' in (answered ∷ answers, s'')

abbrev pub answers_of : List Call → (Name → ℕ → Bool) → List Bool
answers_of [] w = []
answers_of (c ∷ cs) w = answer c w ∷ answers_of cs (after c w)

abbrev pub after_all : List Call → (Name → ℕ → Bool) → Name → ℕ → Bool
after_all [] w = w
after_all (c ∷ cs) w = after_all cs (after c w)

run-watches :
    (cs : List Call) (s : NotifyManager) (w : Name → ℕ → Bool)
    → watches s ≡ w
    → ((run cs s).0 ≡ answers_of cs w) × (watches (run cs s).1 ≡ after_all cs w)
unfolding run
run-watches [] s w e = (refl, e)
run-watches (c ∷ cs) s w e =
    let (told, does) = step-Does c s in
    let next : watches (step c s).1 ≡ after c w =
      fun_ext (λ m. fun_ext (λ v. does m v)) ∙ ap (after c) e in
    let (answers, ends) = run-watches cs (step c s).1 (after c w) next in
    (rw (told ∙ ap (answer c) e, answers) refl, ends)

run-IsSound : (cs : List Call) (s : NotifyManager) → IsSound s → IsSound (run cs s).1
unfolding run
run-IsSound [] s v = v
run-IsSound (c ∷ cs) s v = run-IsSound cs (step c s).1 (step-IsSound c s v)

-- After any calls of `add` and `remove` from the empty manager, each has answered as the set of who
-- watches whom answers, with names the same but for case, and the manager watches who the set holds.
pub run-empty :
    (cs : List Call)
    → ((run cs empty).0 ≡ answers_of cs (λ n u. false))
      × (watches (run cs empty).1 ≡ after_all cs (λ n u. false))
unfolding has_user range
run-empty cs = run-watches cs empty (λ n u. false) refl

-- After any calls of `add` and `remove` from the empty manager, a key is in a user's list as often as
-- the pair of both is in the map; that is at most once, and at most once have those calls freed a key,
-- and then no pair has it. The destructor is none of the calls.
pub run_empty-IsSound : (cs : List Call) → IsSound (run cs empty).1
run_empty-IsSound cs = run-IsSound cs empty empty-IsSound
