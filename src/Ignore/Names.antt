-- ===== src/Ignore/Names.antt =====
-- ignore.cc: what insertion and removal at a place do to membership, for names compared by any key.
use mathlib.Core.Option.{none-ne-some}
use napsteresque.Base.{
  ℕ, zero, suc, ◌≡◌, refl, sym, ◌∙◌, Bool, true, false, not, ◌&&◌, ◌||◌, some, List, [], ◌∷◌,
  if◌then◌else◌, arith, inl, inr, Bool-cases, ==_iff, ==_refl,
}
use napsteresque.Ignore.{Name, equal, insert_at, erase_at, get}

pub equal_refl : (s : Name) → equal s s ≡ true
unfolding equal
equal_refl [] = refl
equal_refl (x ∷ s) = rw (==_refl x) (equal_refl s)

pub equal→≡ : (s t : Name) → equal s t ≡ true → s ≡ t
unfolding equal
equal→≡ [] [] h = refl
equal→≡ [] (y ∷ t) h = ground arith
equal→≡ (x ∷ s) [] h = ground arith
equal→≡ (x ∷ s) (y ∷ t) h = ground (arith, equal→≡ s t, ==_iff x y)

pub equal_sym : (s t : Name) → equal s t ≡ equal t s
unfolding equal
equal_sym [] [] = refl
equal_sym [] (y ∷ t) = refl
equal_sym (x ∷ s) [] = refl
equal_sym (x ∷ s) (y ∷ t) = ground (arith, equal_sym s t)

module _ (key : Name → Name) where
  unfoldable pub holds : List Name → Name → Bool
  holds [] t = false
  holds (x ∷ xs) t = if equal (key x) (key t) then true else holds xs t

  -- No two names of the list have one key.
  unfoldable pub IsDistinct : List Name → Type 0
  unfolding holds
  IsDistinct [] = Unit
  IsDistinct (x ∷ xs) = (holds xs x ≡ false) × IsDistinct xs

  pub holds-insert_at :
      (n : ℕ) (s : Name) (xs : List Name) (t : Name)
      → holds (insert_at n s xs) t ≡ equal (key s) (key t) || holds xs t
  unfolding holds insert_at
  holds-insert_at zero s xs t = ground arith
  holds-insert_at (suc n) s [] t = ground arith
  holds-insert_at (suc n) s (x ∷ xs) t = ground (arith, holds-insert_at n s xs t)

  pub insert_at-IsDistinct :
      (n : ℕ) (s : Name) (xs : List Name)
      → holds xs s ≡ false
      → IsDistinct xs
      → IsDistinct (insert_at n s xs)
  unfolding IsDistinct insert_at
  insert_at-IsDistinct zero s xs e d = (e, d)
  insert_at-IsDistinct (suc n) s [] e d = (refl, tt)
  insert_at-IsDistinct (suc n) s (x ∷ xs) e d =
      ground
        (arith, holds-insert_at n s xs x, equal_sym (key s) (key x), insert_at-IsDistinct n s xs)

  pub holds_cong : (xs : List Name) (s t : Name) → key s ≡ key t → holds xs s ≡ holds xs t
  unfolding holds
  holds_cong [] s t e = refl
  holds_cong (x ∷ xs) s t e = rw (e, holds_cong xs s t e) refl

  get-holds : (n : ℕ) (s : Name) (xs : List Name) → get n xs ≡ some s → holds xs s ≡ true
  unfolding holds get
  get-holds n s [] g = absurd (none-ne-some s g)
  get-holds zero s (x ∷ xs) g = let same : x ≡ s = cc g in rw (same, equal_refl (key s)) refl
  get-holds (suc n) s (x ∷ xs) g = ground (arith, get-holds n s xs g)

  -- A key of the rest is not the key of the head.
  apart :
      (n : ℕ) (s x : Name) (xs : List Name) (t : Name)
      → get n xs ≡ some s
      → holds xs x ≡ false
      → equal (key x) (key t) ≡ true
      → equal (key s) (key t) ≡ false
  apart n s x xs t g d e = elim (Bool-cases (equal (key s) (key t))) [
    | inr f ↦ f
    | inl f ↦
        let same : holds xs s ≡ holds xs x =
          holds_cong xs s x (equal→≡ (key s) (key t) f ∙ sym (equal→≡ (key x) (key t) e)) in
        cc (same, get-holds n s xs g, d)
  ]

  pub holds-erase_at :
      (n : ℕ) (s : Name) (xs : List Name) (t : Name)
      → get n xs ≡ some s
      → IsDistinct xs
      → holds (erase_at n xs) t ≡ not (equal (key s) (key t)) && holds xs t
  unfolding IsDistinct erase_at get
  holds-erase_at n s [] t g d = absurd (none-ne-some s g)
  holds-erase_at zero s (x ∷ xs) t g d =
      let same : x ≡ s = cc g in
      rw (same) (ground (arith, holds_cong xs s t, equal→≡ (key s) (key t)))
  holds-erase_at (suc n) s (x ∷ xs) t g d =
      ground (arith, holds-erase_at n s xs t g d.1, apart n s x xs t g d.0)

  erase_at-holds :
      (n : ℕ) (xs : List Name) (t : Name) → holds xs t ≡ false → holds (erase_at n xs) t ≡ false
  unfolding holds erase_at
  erase_at-holds n [] t h = refl
  erase_at-holds zero (x ∷ xs) t h = ground arith
  erase_at-holds (suc n) (x ∷ xs) t h = ground (arith, erase_at-holds n xs t)

  pub erase_at-IsDistinct : (n : ℕ) (xs : List Name) → IsDistinct xs → IsDistinct (erase_at n xs)
  unfolding IsDistinct erase_at
  erase_at-IsDistinct n [] d = tt
  erase_at-IsDistinct zero (x ∷ xs) d = d.1
  erase_at-IsDistinct (suc n) (x ∷ xs) d = (erase_at-holds n xs x d.0, erase_at-IsDistinct n xs d.1)
