-- ===== src/Search/Merge.antt =====
-- search.cc: the loop of `jmerge` over several sets finds what is in all of them.
use mathlib.Core.Path.{subst}
use mathlib.Core.List.{append_assoc}
use napsteresque.Base.{
  ℕ, zero, suc, ◌+◌, ◌-◌, ◌≤◌, ◌<◌, ◌≡◌, refl, sym, ap, ◌∙◌, Bool, true, false, ◌&&◌, inl, inr,
  some, List, [], ◌∷◌, ◌++◌, ltb, leb, ◌==◌, if◌then◌else◌, All, arith, Bool-cases, take,
  length-append,
}
use napsteresque.Search.{has, lower_bound, merge}
use napsteresque.Search.Bound.{IsIncreasing, lower_bound-cases}
use napsteresque.Search.Advance.{select, from, select_none, select_skip, select_hit, all_have}
use napsteresque.Search.Rounds.{
  round_past, round_moves, round_matches, round_hits, merge_ends, merge_goes, take_left, ends_eq,
  goes_eq, not_before,
}
use napsteresque.Search.Ring.{Ready, moves-Ready, match-Ready, all_have-All}

module _ (takes : ℕ → Bool) (lists : ℕ) (several : 2 ≤ lists) (small : lists < 256)
    (in_all : ℕ → Bool) (first : List ℕ) (increasing : IsIncreasing first)
    (in_first : (x : ℕ) → in_all x ≡ true → has first x ≡ true) where
  abbrev wanted : ℕ → Bool
  wanted x = in_all x && takes x

  -- What the loop finds from a bound on, with a number of matches left.
  abbrev found : ℕ → ℕ → List ℕ
  found left c = take (suc (left - 1)) (select (from c wanted) first)

  -- What one set does not have is not wanted.
  missing :
      (fuel m c x : ℕ) (s : List ℕ) (front back : List (List ℕ))
      → Ready takes lists several small in_all fuel m c (s ∷ front) back
      → has s x ≡ false
      → wanted x ≡ false
  unfolding all_have
  missing fuel m c x s front back r h =
      let out : in_all x ≡ false = sym (r.same x) ∙ rw h refl in rw out refl

  -- Where the last set but one is matched, `curval` is in all.
  hit-in_all :
      (fuel m c : ℕ) (s : List ℕ) (front back : List (List ℕ))
      → Ready takes lists several small in_all fuel m c (s ∷ front) back
      → m + 1 ≡ lists
      → has s c ≡ true
      → in_all c ≡ true
  unfolding all_have
  hit-in_all fuel m c s [] back r l h = sym (r.same c) ∙ rw (h, all_have-All c back r.have) refl
  hit-in_all fuel m c s (t ∷ front) back r l h =
      absurd (omega (arith, r.long, l, r.matched, length-append front back))

  from-false : (c : ℕ) (x : ℕ) → ((c ≤ x) → wanted x ≡ false) → from c wanted x ≡ false
  from-false c x h = elim (Bool-cases (leb c x)) [
    | inl b ↦ rw (b, h (ground (arith, b))) refl
    | inr b ↦ rw b refl
  ]

  -- What is found from an element of all sets on, if the rest is found from the next.
  found-hit :
      (left c : ℕ)
      → in_all c ≡ true
      → found left c ≡ (
          if takes c
          then if leb left 1 then c ∷ [] else c ∷ found (left - 1) (c + 1)
          else found left (c + 1))
  found-hit left c h = elim (Bool-cases (takes c)) [
    | inl t ↦
        let w : wanted c ≡ true = rw (h, t) refl in
        rw (t, select_hit wanted c first increasing (in_first c h) w)
          (take_left left c (select (from (c + 1) wanted) first))
    | inr t ↦
        let skipped : (x : ℕ) → c ≤ x → x < c + 1 → wanted x ≡ false =
          λ x l u. (let e : x ≡ c = omega (arith, l, u) in rw (e, h, t) refl) in
        rw t (ap (take (suc (left - 1))) (select_skip wanted c (c + 1) first (omega arith) skipped))
  ]

  -- From a bound that nothing wanted lies before.
  found-skip :
      (left c k : ℕ)
      → c ≤ k
      → ((x : ℕ) → c ≤ x → x < k → wanted x ≡ false)
      → found left c ≡ found left k
  found-skip left c k l h = ap (take (suc (left - 1))) (select_skip wanted c k first l h)

  hit_step :
      (fuel left m c : ℕ) (s : List ℕ) (front back : List (List ℕ)) (rest : List ℕ)
      → Ready takes lists several small in_all (suc fuel) m c (s ∷ front) back
      → lower_bound c s ≡ c ∷ rest
      → m + 1 ≡ lists
      → has s c ≡ true
      → ((x : ℕ) → c < x → has s x ≡ has rest x)
      → IsIncreasing rest
      → All (λ y. c < y) rest
      → ((left' k : ℕ)
          → c < k
          → has s k ≡ true
          → merge takes lists fuel left' 1 k (front ++ back ++ s ∷ []) ≡ some (found left' k))
      → merge takes lists (suc fuel) left m c (s ∷ (front ++ back)) ≡ some (found left c)
  unfolding has
  hit_step fuel left m c s front back [] r e l h behind i a later =
      let all : in_all c ≡ true = hit-in_all (suc fuel) m c s front back r l h in
      let gone : select (from (c + 1) wanted) first ≡ [] =
        select_none (from (c + 1) wanted) first (λ x.
          from-false (c + 1) x
            (λ g. missing (suc fuel) m c x s front back r (behind x (omega (arith, g))))) in
      merge_ends takes lists fuel left m c s (front ++ back) true
        (round_hits lists m c s [] e l small)
      ∙ ap some (sym (found-hit left c all ∙ rw gone (ends_eq (takes c) (leb left 1) c)))
  hit_step fuel left m c s front back (k ∷ rest) r e l h behind i (a, as_) later =
      let all : in_all c ≡ true = hit-in_all (suc fuel) m c s front back r l h in
      let there : has s k ≡ true = behind k a ∙ ground arith in
      let skipped : (x : ℕ) → c + 1 ≤ x → x < k → wanted x ≡ false = λ x g u.
        missing (suc fuel) m c x s front back r
          (behind x (omega (arith, g)) ∙ not_before k x rest i.0 u) in
      let next = λ (left' : ℕ).
        later left' k a there
        ∙ ap some (sym (found-skip left' (c + 1) k (omega (arith, a)) skipped)) in
      merge_goes takes lists fuel left m c s (front ++ back) true 1 k
        (round_hits lists m c s (k ∷ rest) e l small)
      ∙ rw (next left, next (left - 1))
          (goes_eq (takes c) (leb left 1) c (found (left - 1) (c + 1)) (found left (c + 1)))
      ∙ ap some (sym (found-hit left c all))

  pub merge-found :
      (fuel left m c : ℕ) (front back : List (List ℕ))
      → Ready takes lists several small in_all fuel m c front back
      → merge takes lists fuel left m c (front ++ back) ≡ some (found left c)
  merge-found zero left m c front back r = absurd (omega (arith, r.enough))
  merge-found (suc fuel) left m c [] back r = absurd (omega (arith, r.long, r.matched, r.few))
  merge-found (suc fuel) left m c (s ∷ front) back r = elim (lower_bound-cases c s r.sorted.0) [
    | inl (e, n) ↦
        let gone : select (from c wanted) first ≡ [] =
          select_none (from c wanted) first
            (λ x. from-false c x (λ l. missing (suc fuel) m c x s front back r (n x l))) in
        merge_ends takes lists fuel left m c s (front ++ back) false (round_past lists m c s e)
        ∙ ap some (sym (ap (take (suc (left - 1))) gone))
    | inr (k, rest, e, l, h, n, behind, i, a) ↦
        let later = λ (left' k' : ℕ) (l' : c < k') (h' : has s k' ≡ true).
          merge-found fuel left' 1 k' (front ++ back) (s ∷ [])
            (moves-Ready takes lists several small in_all fuel m c k' s front back r l' h') in
        elim (Bool-cases (k == c)) [
          | inr other ↦
              merge_goes takes lists fuel left m c s (front ++ back) false 1 k
                (round_moves lists m c s k rest e other)
              ∙ later left k (ground (arith, l, other)) h
              ∙ ap some (
                  sym (
                    found-skip left c k l
                      (λ x g u. missing (suc fuel) m c x s front back r (n x g u))))
          | inl same ↦
              let here : k ≡ c = ground (arith, same) in
              let e' : lower_bound c s ≡ c ∷ rest = e ∙ ap (λ z. z ∷ rest) here in
              let h' : has s c ≡ true = subst (λ z. has s z ≡ true) here h in
              elim (Bool-cases (ltb (m + 1) lists)) [
                | inl more ↦
                    let few : m + 1 < lists = ground (arith, more) in
                    merge_goes takes lists fuel left m c s (front ++ back) false (m + 1) c
                      (round_matches lists m c s rest e' few small)
                    ∙ ap (merge takes lists fuel left (m + 1) c) (append_assoc front back (s ∷ []))
                    ∙ merge-found fuel left (m + 1) c front (back ++ s ∷ []) (
                        match-Ready takes lists several small in_all fuel m c s front back r few h')
                | inr last ↦
                    hit_step fuel left m c s front back rest r e' (ground (arith, last, r.few)) h'
                      (λ x g. behind x (omega (arith, here, g))) i
                      (subst (λ z. All (λ y. z < y) rest) here a) later
              ]
        ]
  ]
