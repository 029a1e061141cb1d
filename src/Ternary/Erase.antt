-- ===== src/Ternary/Erase.antt =====
-- ternary.hh: what `find` reads after `erase`, and that `erase` keeps the order.
use napsteresque.Base.{
  ℕ, ◌<◌, ◌≡◌, refl, ap, sym, ◌∙◌, ◌≢◌, inl, inr, Bool-cases, Option, none, some, List, [], ◌∷◌,
  arith, null, true,
}
use napsteresque.Ternary.Set.{set_erase}
use napsteresque.Ternary.{Tree, leaf, node, rank, find, words, values_of, erase, remaining}
use napsteresque.Ternary.Order.{char_compare-eq, Level, IsOrdered, IsCString, EndsWords}
use napsteresque.Ternary.Prune.{find-prune_self}
use napsteresque.Ternary.Prune.Keep.{find-prune_ne}
use napsteresque.Ternary.Prune.Order.{prune-IsOrdered}
use napsteresque.Ternary.Walk.{put_values, erase_reference, finish_reference}
use napsteresque.Ternary.Walk.Agrees.{erase-erase_reference}

find-put_values_self :
    (t : Tree) (s ws values : List ℕ)
    → find t s ≡ some values
    → find (put_values t s ws) s ≡ some ws
unfolding find put_values
find-put_values_self leaf s ws values e = cc
find-put_values_self (node c lo mid hi vs) [] ws values e =
    ground (arith, find-put_values_self lo [] ws values, find-put_values_self hi [] ws values)
find-put_values_self (node c lo mid hi vs) (x ∷ s) ws values e = ground (
  arith,
  find-put_values_self lo (x ∷ s) ws values,
  find-put_values_self mid s ws values,
  find-put_values_self hi (x ∷ s) ws values,
)

find-put_values_ne : (t : Tree) (s j ws : List ℕ) → j ≢ s → find (put_values t s ws) j ≡ find t j
unfolding find put_values
find-put_values_ne leaf s j ws n = refl
find-put_values_ne (node c lo mid hi vs) [] [] ws n = absurd (n refl)
find-put_values_ne (node c lo mid hi vs) [] (y ∷ j) ws n =
    ground (arith, find-put_values_ne lo [] (y ∷ j) ws n, find-put_values_ne hi [] (y ∷ j) ws n)
find-put_values_ne (node c lo mid hi vs) (x ∷ s) [] ws n =
    ground (arith, find-put_values_ne lo (x ∷ s) [] ws n, find-put_values_ne hi (x ∷ s) [] ws n)
find-put_values_ne (node c lo mid hi vs) (x ∷ s) (y ∷ j) ws n = ground (
  arith,
  find-put_values_ne lo (x ∷ s) (y ∷ j) ws n,
  find-put_values_ne mid s j ws,
  find-put_values_ne hi (x ∷ s) (y ∷ j) ws n,
  char_compare-eq x c,
  char_compare-eq y c,
)

Level-put_values :
    (P : ℕ → Type 0) (t : Tree) (s ws : List ℕ) → Level P t → Level P (put_values t s ws)
unfolding put_values
Level-put_values P leaf s ws h = tt
Level-put_values P (node c lo mid hi vs) [] ws h =
    ground (arith, Level-put_values P lo [] ws h.1, Level-put_values P hi [] ws h.2)
Level-put_values P (node c lo mid hi vs) (x ∷ s) ws h =
    ground (arith, Level-put_values P lo (x ∷ s) ws h.1, Level-put_values P hi (x ∷ s) ws h.2)

EndsWords-put_values :
    (c : ℕ) (t : Tree) (s ws : List ℕ) → EndsWords c t → EndsWords c (put_values t s ws)
unfolding put_values
EndsWords-put_values c leaf s ws h = h
EndsWords-put_values c (node d lo mid hi vs) [] ws h = ground arith
EndsWords-put_values c (node d lo mid hi vs) (x ∷ s) ws h = ground arith

put_values-IsOrdered : (t : Tree) (s ws : List ℕ) → IsOrdered t → IsOrdered (put_values t s ws)
unfolding put_values
put_values-IsOrdered leaf s ws o = tt
put_values-IsOrdered (node c lo mid hi vs) [] ws o = ground (
  arith,
  put_values-IsOrdered lo [] ws o.3,
  put_values-IsOrdered hi [] ws o.5,
  Level-put_values (λ d. rank d < rank c) lo [] ws o.0,
  Level-put_values (λ d. rank c < rank d) hi [] ws o.1,
)
put_values-IsOrdered (node c lo mid hi vs) (x ∷ s) ws o = ground (
  arith,
  put_values-IsOrdered lo (x ∷ s) ws o.3,
  put_values-IsOrdered mid s ws o.4,
  put_values-IsOrdered hi (x ∷ s) ws o.5,
  Level-put_values (λ d. rank d < rank c) lo (x ∷ s) ws o.0,
  Level-put_values (λ d. rank c < rank d) hi (x ∷ s) ws o.1,
  EndsWords-put_values c mid s ws o.2,
)

-- An empty set has no first value.
null_eq_nil : (xs : List ℕ) → null xs ≡ true → xs ≡ []
null_eq_nil [] h = refl
null_eq_nil (x ∷ xs) h = cc

remaining-nil : (valuep : Option ℕ) → remaining valuep [] ≡ []
unfolding remaining set_erase
remaining-nil none = refl
remaining-nil (some v) = refl

module _ (t : Tree) (s : List ℕ) (valuep : Option ℕ) (h : IsCString s) (o : IsOrdered t) where
  reference_self :
      (r : Option (List ℕ))
      → find t s ≡ r
      → values_of (find (finish_reference t s valuep r) s) ≡ remaining valuep (values_of r)
  unfolding finish_reference values_of
  reference_self none e = ap values_of e ∙ sym (remaining-nil valuep)
  reference_self (some values) e = elim (Bool-cases (null (remaining valuep values))) [
    | inl k ↦ rw k (ap values_of (find-prune_self t s h o) ∙ sym (null_eq_nil _ k))
    | inr k ↦ rw k (ap values_of (find-put_values_self t s (remaining valuep values) values e))
  ]

  reference_ne :
      (j : List ℕ) (r : Option (List ℕ)) → j ≢ s → find (finish_reference t s valuep r) j ≡ find t j
  unfolding finish_reference
  reference_ne j none n = refl
  reference_ne j (some values) n = elim (Bool-cases (null (remaining valuep values))) [
    | inl k ↦ rw k (find-prune_ne t s j h n o)
    | inr k ↦ rw k (find-put_values_ne t s j (remaining valuep values) n)
  ]

  reference-IsOrdered : (r : Option (List ℕ)) → IsOrdered (finish_reference t s valuep r)
  unfolding finish_reference
  reference-IsOrdered none = o
  reference-IsOrdered (some values) = elim (Bool-cases (null (remaining valuep values))) [
    | inl k ↦ rw (k, finish_reference) (prune-IsOrdered t s h o)
    | inr k ↦ rw (k, finish_reference) (put_values-IsOrdered t s (remaining valuep values) o)
  ]

  -- `erase` takes exactly the given value, or all of them, from the set of its key.
  pub words-erase_self : words (erase t s valuep) s ≡ remaining valuep (words t s)
  unfolding words erase_reference
  words-erase_self = rw (erase-erase_reference t s valuep) (reference_self (find t s) refl)

  -- Erasing from a search tree, one value or all of a key without NUL, changes what `find` says at no
  -- other key, found or not.
  pub find-erase_ne : (j : List ℕ) → j ≢ s → find (erase t s valuep) j ≡ find t j
  unfolding erase_reference
  find-erase_ne j n = rw (erase-erase_reference t s valuep) (reference_ne j (find t s) n)

  -- Erasing from a search tree, one value or all of a key without NUL, leaves a search tree.
  pub erase-IsOrdered : IsOrdered (erase t s valuep)
  unfolding erase_reference
  erase-IsOrdered = rw (erase-erase_reference t s valuep) (reference-IsOrdered (find t s))
