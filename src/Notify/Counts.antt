-- ===== src/Notify/Counts.antt =====
-- notify.cc: how the changes of the multimap and of a user's list change what is counted in them.
use mathlib.Core.Path.{subst}
use napsteresque.Base.{
  ℕ, ◌+◌, ◌-◌, ◌≡◌, refl, sym, ap, ◌∙◌, Bool, true, false, not, ◌&&◌, List, [], ◌∷◌, ◌==◌,
  if◌then◌else◌, map, All, arith, Bool-cases, inl, inr,
}
use napsteresque.Ignore.{Name, lower, equal, same_name}
use napsteresque.Ignore.Names.{equal_refl, equal→≡, equal_sym}
use napsteresque.Notify.{Key, NotifyPair, below, insert, range, has_user, erase_pairs, erase_key}

pub same_name_refl : (s : Name) → same_name s s ≡ true
unfolding same_name
same_name_refl s = equal_refl (map lower s)

pub same_name_sym : (s t : Name) → same_name s t ≡ same_name t s
unfolding same_name
same_name_sym s t = equal_sym (map lower s) (map lower t)

pub same_name_cong : (s t m : Name) → same_name s t ≡ true → same_name s m ≡ same_name t m
unfolding same_name
same_name_cong s t m h = ap (λ k. equal k (map lower m)) (equal→≡ (map lower s) (map lower t) h)

pub same_name_cong_right : (m s t : Name) → same_name s t ≡ true → same_name m s ≡ same_name m t
same_name_cong_right m s t h = same_name_sym m s ∙ same_name_cong s t m h ∙ same_name_sym t m

abbrev pub one_if : Bool → ℕ
one_if b = if b then 1 else 0

-- The pairs of a key and a user, the places of a key in a list, and how often a number is freed.
abbrev pub pairs : ℕ → ℕ → List NotifyPair → ℕ
pairs at u [] = 0
pairs at u (x ∷ xs) = one_if ((x.key.at == at) && (x.user == u)) + pairs at u xs

abbrev pub count : ℕ → List Key → ℕ
count at [] = 0
count at (k ∷ ks) = one_if (k.at == at) + count at ks

abbrev pub times : ℕ → List ℕ → ℕ
times at [] = 0
times at (n ∷ ns) = one_if (n == at) + times at ns

pub pairs-insert :
    (at u : ℕ) (e : NotifyPair) (es : List NotifyPair)
    → pairs at u (insert e es) ≡ one_if ((e.key.at == at) && (e.user == u)) + pairs at u es
unfolding insert
pairs-insert at u e [] = refl
pairs-insert at u e (x ∷ xs) = ground (arith, pairs-insert at u e xs)

pub count-erase_key :
    (at k : ℕ) (ks : List Key) → count at (erase_key k ks) ≡ count at ks - one_if (k == at)
unfolding erase_key
count-erase_key at k [] = ground arith
count-erase_key at k (x ∷ ks) = ground (arith, count-erase_key at k ks)

pub range-cons :
    (n : Name) (y : NotifyPair) (ys : List NotifyPair)
    → same_name y.key.name n ≡ true
    → range n (y ∷ ys) ≡ y ∷ range n ys
unfolding range
range-cons n y ys b = rw b refl

pub range-skip :
    (n : Name) (y : NotifyPair) (ys : List NotifyPair)
    → same_name y.key.name n ≡ false
    → range n (y ∷ ys) ≡ range n ys
unfolding range
range-skip n y ys b = rw b refl

pub range_none_step :
    (n : Name) (y : NotifyPair) (ys : List NotifyPair)
    → range n (y ∷ ys) ≡ []
    → (same_name y.key.name n ≡ false) × (range n ys ≡ [])
unfolding range
range_none_step n y ys r = ground (arith, r)

-- What holds of every pair holds of them after a change.
module _ (P : NotifyPair → Type 0) where
  pub All-insert : (e : NotifyPair) (es : List NotifyPair) → P e → All P es → All P (insert e es)
  unfolding insert
  All-insert e [] p h = (p, tt)
  All-insert e (x ∷ xs) p (h, hs) = elim (Bool-cases (below e.key.name x.key.name)) [
    | inl b ↦ rw b (p, (h, hs))
    | inr b ↦ rw b (h, All-insert e xs p hs)
  ]

  pub All-erase_pairs :
      (n : Name) (u : ℕ) (es : List NotifyPair) → All P es → All P (erase_pairs n u es)
  unfolding erase_pairs
  All-erase_pairs n u [] h = tt
  All-erase_pairs n u (x ∷ xs) (h, hs) =
      elim (Bool-cases (same_name x.key.name n && (x.user == u))) [
        | inl b ↦ rw b (All-erase_pairs n u xs hs)
        | inr b ↦ rw b (h, All-erase_pairs n u xs hs)
      ]

  -- The first pair of a range is a pair.
  pub range_first :
      (n : Name) (es xs : List NotifyPair) (x : NotifyPair)
      → range n es ≡ x ∷ xs
      → All P es
      → P x × (same_name x.key.name n ≡ true)
  unfolding range
  range_first n [] xs x r h = cc r
  range_first n (y ∷ ys) xs x r (h, hs) = elim (Bool-cases (same_name y.key.name n)) [
    | inl b ↦
        let same : y ≡ x = cc (sym (range-cons n y ys b) ∙ r) in
        (subst P same h, ap (λ (e : NotifyPair). same_name e.key.name n) (sym same) ∙ b)
    | inr b ↦ range_first n ys xs x (sym (range-skip n y ys b) ∙ r) hs
  ]

-- A pair has the given key exactly where its name is the same.
abbrev pub Names : Name → ℕ → List NotifyPair → Type 0
Names n k es = All (λ e. same_name e.key.name n ≡ (e.key.at == k)) es

pub pairs-erase_pairs :
    (n : Name) (k u : ℕ) (es : List NotifyPair)
    → Names n k es
    → (at v : ℕ)
    → pairs at v (erase_pairs n u es) ≡ (if (at == k) && (v == u) then 0 else pairs at v es)
unfolding erase_pairs
pairs-erase_pairs n k u [] h at v = ground arith
pairs-erase_pairs n k u (x ∷ xs) (h, hs) at v =
    ground (arith, h, pairs-erase_pairs n k u xs hs at v)

pub has_user-range :
    (n : Name) (k u : ℕ) (es : List NotifyPair)
    → Names n k es
    → has_user u (range n es) ≡ not (pairs k u es == 0)
unfolding has_user range
has_user-range n k u [] h = refl
has_user-range n k u (x ∷ xs) (h, hs) = ground (arith, h, has_user-range n k u xs hs)

pub pairs-range_none :
    (n : Name) (k u : ℕ) (es : List NotifyPair) → Names n k es → range n es ≡ [] → pairs k u es ≡ 0
unfolding range
pairs-range_none n k u [] h r = refl
pairs-range_none n k u (x ∷ xs) (h, hs) r = ground (arith, h, pairs-range_none n k u xs hs)
