-- ===== src/Ternary/Prune.antt =====
-- ternary.hh: removal of a key by plain recursion, the reference for the loop of `erase`.
pub mod Keep
pub mod Order
use napsteresque.Base.{
  ℕ, ◌≤◌, ◌≡◌, refl, sym, ap, ◌∙◌, ◌≢◌, inl, inr, none, List, [], ◌∷◌, Ordering, Ordering-cases,
  arith,
}
use napsteresque.Ternary.{Tree, leaf, node, rank, first, char_compare, find, graft, relink}
use napsteresque.Ternary.Order.{
  Below, Above, IsOrdered, IsCString, find-Below, find-Above, find_lt, find_gt, find_next,
  char_compare-lt, char_compare-eq, char_compare-gt,
}

-- A node whose word goes nowhere disappears.
unfoldable pub close : ℕ → Tree → Tree → Tree → List ℕ → Tree
close c lo leaf hi values = relink lo hi
close c lo (node d l m h ws) hi values = node c lo (node d l m h ws) hi values

unfoldable pub prune : Tree → List ℕ → Tree
prune leaf s = leaf
prune (node c lo mid hi values) s = elim (char_compare (first s) c) [
  | Ordering.lt ↦ node c (prune lo s) mid hi values
  | Ordering.eq ↦ elim s [ [] ↦ relink lo hi | _ ∷ rest ↦ close c lo (prune mid rest) hi values ]
  | Ordering.gt ↦ node c lo mid (prune hi s) values
]

-- Reading through a graft: left of the seam the grafted tree, right of it the old one.
find-graft_left :
    (t lo : Tree) (b : ℕ) (s : List ℕ)
    → Above b t
    → rank (first s) ≤ b
    → find (graft t lo) s ≡ find lo s
unfolding graft find char_compare
find-graft_left leaf lo b s h k = refl
find-graft_left (node c l m h values) lo b s a k = ground (arith, find-graft_left l lo b s a.1 k)

find-graft_right :
    (t lo : Tree) (b : ℕ) (s : List ℕ)
    → Below b lo
    → b ≤ rank (first s)
    → find (graft t lo) s ≡ find t s
unfolding graft find
find-graft_right leaf lo b s h k = find-Below lo b s h k
find-graft_right (node c l m h values) lo b s below k =
    ground (arith, find-graft_right l lo b s below k)

pub find-leaf : (s : List ℕ) → find leaf s ≡ none
unfolding find
find-leaf s = refl

pub find-relink_left :
    (lo hi : Tree) (b : ℕ) (s : List ℕ)
    → Above b hi
    → rank (first s) ≤ b
    → find (relink lo hi) s ≡ find lo s
unfolding relink
find-relink_left leaf hi b s h k = find-Above hi b s h k ∙ sym (find-leaf s)
find-relink_left (node c l m h values) leaf b s a k = refl
find-relink_left (node c l m h values) (node d l' m' h' ws) b s a k =
    find-graft_left (node d l' m' h' ws) _ b s a k

pub find-relink_right :
    (lo hi : Tree) (b : ℕ) (s : List ℕ)
    → Below b lo
    → b ≤ rank (first s)
    → find (relink lo hi) s ≡ find hi s
unfolding relink
find-relink_right leaf hi b s h k = refl
find-relink_right (node c l m h values) leaf b s a k =
    find-Below (node c l m h values) b s a k ∙ sym (find-leaf s)
find-relink_right (node c l m h values) (node d l' m' h' ws) b s a k =
    find-graft_right (node d l' m' h' ws) _ b s a k

-- Where the dropped node itself answers nothing, dropping it changes no answer.
pub find-relink :
    (c : ℕ) (lo mid hi : Tree) (values j : List ℕ)
    → Below (rank c) lo
    → Above (rank c) hi
    → (char_compare (first j) c ≡ Ordering.eq → find (node c lo mid hi values) j ≡ none)
    → find (relink lo hi) j ≡ find (node c lo mid hi values) j
find-relink c lo mid hi values j below above silent =
    elim (Ordering-cases (char_compare (first j) c)) [
      | inl l ↦
          find-relink_left lo hi (rank c) j above (omega (arith, char_compare-lt _ _ l))
          ∙ sym (find_lt c lo mid hi values j l)
      | inr (inl e) ↦
          find-relink_left lo hi (rank c) j above (omega (arith, ap rank (char_compare-eq _ _ e)))
          ∙ find-Below lo (rank c) j below (omega (arith, ap rank (char_compare-eq _ _ e)))
          ∙ sym (silent e)
      | inr (inr g) ↦
          find-relink_right lo hi (rank c) j below (omega (arith, char_compare-gt _ _ g))
          ∙ sym (find_gt c lo mid hi values j g)
    ]

pub leaf_silent :
    (c : ℕ) (lo hi : Tree) (values j : List ℕ)
    → j ≢ []
    → char_compare (first j) c ≡ Ordering.eq
    → find (node c lo leaf hi values) j ≡ none
leaf_silent c lo hi values [] n e = absurd (n refl)
leaf_silent c lo hi values (y ∷ j) n e = find_next c lo leaf hi values y j e ∙ find-leaf j

first_ne_nil : (j : List ℕ) (c : ℕ) → c ≢ 0 → char_compare (first j) c ≡ Ordering.eq → j ≢ []
first_ne_nil [] c n e h = n (sym (char_compare-eq 0 c e))
first_ne_nil (y ∷ j) c n e h = cc

pub find-close :
    (c : ℕ) (lo mid hi : Tree) (values j : List ℕ)
    → c ≢ 0
    → Below (rank c) lo
    → Above (rank c) hi
    → find (close c lo mid hi values) j ≡ find (node c lo mid hi values) j
unfolding close
find-close c lo leaf hi values j n below above =
    find-relink c lo leaf hi values j below above
      λ e. leaf_silent c lo hi values j (first_ne_nil j c n e) e
find-close c lo (node d l m h ws) hi values j n below above = refl

-- After the removal nothing is found at the key.
pub find-prune_self :
    (t : Tree) (s : List ℕ) → IsCString s → IsOrdered t → find (prune t s) s ≡ none
unfolding prune
find-prune_self leaf s h o = find-leaf s
find-prune_self (node c lo mid hi values) [] h o = elim (Ordering-cases (char_compare 0 c)) [
  | inl l ↦
      rw (l, prune) (find_lt c (prune lo []) mid hi values [] l ∙ find-prune_self lo [] tt o.3)
  | inr (inl e) ↦
      rw (e, prune)
        (find-relink_left lo hi (rank c) [] o.1 (omega (arith, ap rank (char_compare-eq _ _ e)))
          ∙ find-Below lo (rank c) [] o.0 (omega (arith, ap rank (char_compare-eq _ _ e))))
  | inr (inr g) ↦
      rw (g, prune) (find_gt c lo mid (prune hi []) values [] g ∙ find-prune_self hi [] tt o.5)
]
find-prune_self (node c lo mid hi values) (x ∷ s) h o = elim (Ordering-cases (char_compare x c)) [
  | inl l ↦
      rw (l, prune)
        (find_lt c (prune lo (x ∷ s)) mid hi values (x ∷ s) l ∙ find-prune_self lo (x ∷ s) h o.3)
  | inr (inl e) ↦
      rw (e, prune)
        (find-close c lo (prune mid s) hi values (x ∷ s) (rw (← char_compare-eq x c e) h.0) o.0 o.1
          ∙ find_next c lo (prune mid s) hi values x s e
          ∙ find-prune_self mid s h.1 o.4)
  | inr (inr g) ↦
      rw (g, prune)
        (find_gt c lo mid (prune hi (x ∷ s)) values (x ∷ s) g ∙ find-prune_self hi (x ∷ s) h o.5)
]
