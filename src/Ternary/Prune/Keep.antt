-- ===== src/Ternary/Prune/Keep.antt =====
-- ternary.hh: the reference removal leaves every other key alone.
use napsteresque.Base.{
  ℕ, ◌≡◌, refl, sym, ◌∙◌, ◌≢◌, inl, inr, Ordering-cases, List, [], ◌∷◌, Ordering, arith, none,
}
use napsteresque.Ternary.{Tree, leaf, node, first, char_compare, find}
use napsteresque.Ternary.Order.{EndsWords, IsOrdered, IsCString, find_step, char_compare-eq}
use napsteresque.Ternary.Prune.{prune, find-relink, find-close, leaf_silent}

-- What is read after the middle subtree changed, if it still answers alike below the same letter.
mid_ne :
    (c : ℕ) (lo mid mid' hi : Tree) (values j : List ℕ)
    → ((y : ℕ) (r : List ℕ) → j ≡ y ∷ r → char_compare y c ≡ Ordering.eq → find mid' r ≡ find mid r)
    → find (node c lo mid' hi values) j ≡ find (node c lo mid hi values) j
unfolding find
mid_ne c lo mid mid' hi values [] same = ground arith
mid_ne c lo mid mid' hi values (y ∷ r) same = ground (arith, same y r refl)

-- Removal of a key leaves what is read at every other key.
pub find-prune_ne :
    (t : Tree) (s j : List ℕ) → IsCString s → j ≢ s → IsOrdered t → find (prune t s) j ≡ find t j
unfolding prune
find-prune_ne leaf s j h n o = refl
find-prune_ne (node c lo mid hi values) [] j h n o = elim (Ordering-cases (char_compare 0 c)) [
  | inl l ↦
      rw (l, prune)
        (find_step c lo (prune lo []) mid hi hi values j (find-prune_ne lo [] j h n o.3) refl)
  | inr (inl e) ↦ rw (e, prune) (find-relink c lo mid hi values j o.0 o.1 (drop mid o.2 e))
  | inr (inr g) ↦
      rw (g, prune)
        (find_step c lo lo mid hi (prune hi []) values j refl (find-prune_ne hi [] j h n o.5))
]
  where
    drop :
        (m : Tree)
        → EndsWords c m
        → char_compare 0 c ≡ Ordering.eq
        → char_compare (first j) c ≡ Ordering.eq
        → find (node c lo m hi values) j ≡ none
    drop leaf ends z e = leaf_silent c lo hi values j n e
    drop (node d l m h' ws) ends z e = absurd (ends (sym (char_compare-eq 0 c z)))
find-prune_ne (node c lo mid hi values) (x ∷ s) j h n o = elim (Ordering-cases (char_compare x c)) [
  | inl l ↦
      rw (l, prune)
        (find_step c lo (prune lo (x ∷ s)) mid hi hi values j (find-prune_ne lo (x ∷ s) j h n o.3)
          refl)
  | inr (inl e) ↦
      rw (e, prune)
        (find-close c lo (prune mid s) hi values j (rw (← char_compare-eq x c e) h.0) o.0 o.1
          ∙ mid_ne c lo mid (prune mid s) hi values j λ y r p q.
            find-prune_ne mid s r h.1
              (λ k. n (cc (p, k, char_compare-eq x c e, char_compare-eq y c q))) o.4)
  | inr (inr g) ↦
      rw (g, prune)
        (find_step c lo lo mid hi (prune hi (x ∷ s)) values j refl
          (find-prune_ne hi (x ∷ s) j h n o.5))
]
