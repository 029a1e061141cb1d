-- ===== src/Notify/Agree.antt =====
-- notify.cc: one key has one name, through each change of the multimap.
use mathlib.Core.Path.{subst}
use napsteresque.Base.{
  ℕ, suc, ◌<◌, ◌≡◌, refl, sym, ◌∙◌, true, ◌&&◌, List, [], ◌∷◌, ◌==◌, ==_refl, All, arith,
  Bool-cases, inl, inr,
}
use napsteresque.Ignore.{Name, same_name}
use napsteresque.Notify.{Key, NotifyPair, below, insert, range, erase_pairs}
use napsteresque.Notify.Counts.{
  same_name_refl, same_name_sym, same_name_cong_right, pairs, All-insert, All-erase_pairs,
  range_first, Names, range-cons, range-skip, range_none_step,
}

-- A pair has a key exactly where it has its name.
abbrev pub Agrees : Key → List NotifyPair → Type 0
Agrees k es = Names k.name k.at es

abbrev pub AllAgree : List NotifyPair → Type 0
AllAgree [] = Unit
AllAgree (x ∷ xs) = Agrees x.key xs × AllAgree xs

==_sym : (a b : ℕ) → (a == b) ≡ (b == a)
==_sym a b = ground arith

agrees_back :
    (k : Key) (e : NotifyPair)
    → same_name e.key.name k.name ≡ (e.key.at == k.at)
    → same_name k.name e.key.name ≡ (k.at == e.key.at)
agrees_back k e h = same_name_sym k.name e.key.name ∙ h ∙ ==_sym e.key.at k.at

pub insert-AllAgree :
    (k : Key) (u : ℕ) (es : List NotifyPair)
    → Agrees k es
    → AllAgree es
    → AllAgree (insert (record { key = k; user = u }) es)
unfolding insert
insert-AllAgree k u [] a h = (tt, tt)
insert-AllAgree k u (x ∷ xs) (a, as') (h, hs) = elim (Bool-cases (below k.name x.key.name)) [
  | inl b ↦ rw b ((a, as'), (h, hs))
  | inr b ↦ rw b (
    All-insert (λ e. same_name e.key.name x.key.name ≡ (e.key.at == x.key.at))
        (record { key = k; user = u }) xs (agrees_back k x a) h,
    insert-AllAgree k u xs as' hs,
  )
]

pub erase_pairs-AllAgree :
    (n : Name) (u : ℕ) (es : List NotifyPair) → AllAgree es → AllAgree (erase_pairs n u es)
unfolding erase_pairs
erase_pairs-AllAgree n u [] h = tt
erase_pairs-AllAgree n u (x ∷ xs) (h, hs) =
    elim (Bool-cases (same_name x.key.name n && (x.user == u))) [
      | inl b ↦ rw b (erase_pairs-AllAgree n u xs hs)
      | inr b ↦ rw b (
        All-erase_pairs (λ e. same_name e.key.name x.key.name ≡ (e.key.at == x.key.at)) n u xs h,
        erase_pairs-AllAgree n u xs hs,
      )
    ]

-- The first key of a range agrees with all pairs.
pub range-Agrees :
    (n : Name) (es xs : List NotifyPair) (x : NotifyPair)
    → AllAgree es
    → range n es ≡ x ∷ xs
    → Agrees x.key es
range-Agrees n [] xs x h r = tt
range-Agrees n (y ∷ ys) xs x (h, hs) r = elim (Bool-cases (same_name y.key.name n)) [
  | inl b ↦
      let same : y ≡ x = cc (sym (range-cons n y ys b) ∙ r) in
      let own : same_name y.key.name y.key.name ≡ (y.key.at == y.key.at) =
        same_name_refl y.key.name ∙ sym (==_refl y.key.at) in
      subst (λ (e : NotifyPair). Agrees e.key (y ∷ ys)) same (own, h)
  | inr b ↦
      let rest = sym (range-skip n y ys b) ∙ r in
      let met =
        (range_first (λ e. same_name e.key.name y.key.name ≡ (e.key.at == y.key.at)) n ys xs x rest
          h).0 in
      (agrees_back y.key x met, range-Agrees n ys xs x hs rest)
]

-- A name that has no range is no pair's.
pub range_none-Agrees :
    (n : Name) (at : ℕ) (es : List NotifyPair)
    → range n es ≡ []
    → All (λ e. e.key.at < at) es
    → Names n at es
unfolding range
range_none-Agrees n at [] r h = tt
range_none-Agrees n at (x ∷ xs) r (h, hs) =
    let (other, rest) = range_none_step n x xs r in
    (ground (arith, other, h), range_none-Agrees n at xs rest hs)

pub All-weaken :
    (n : ℕ) (es : List NotifyPair) → All (λ e. e.key.at < n) es → All (λ e. e.key.at < suc n) es
All-weaken n [] h = tt
All-weaken n (x ∷ xs) (h, hs) = (omega (arith, h), All-weaken n xs hs)

pub pairs-fresh :
    (at u : ℕ) (es : List NotifyPair) → All (λ e. e.key.at < at) es → pairs at u es ≡ 0
pairs-fresh at u [] h = refl
pairs-fresh at u (x ∷ xs) (h, hs) = ground (arith, h, pairs-fresh at u xs hs)

-- The names that are the same as a key's are the key's.
pub Agrees-Names :
    (n : Name) (k : Key) (es : List NotifyPair)
    → same_name k.name n ≡ true
    → Agrees k es
    → Names n k.at es
Agrees-Names n k [] e a = tt
Agrees-Names n k (x ∷ xs) e (a, as') =
    (sym (same_name_cong_right x.key.name k.name n e) ∙ a, Agrees-Names n k xs e as')
