-- ===== src/Ternary/Prune/Order.antt =====
-- ternary.hh: the reference removal keeps the tree a search tree.
use napsteresque.Base.{ℕ, ◌≢◌, inl, inr, Ordering-cases, List, [], ◌∷◌, arith}
use native.Mathlib.Nat.{lt_trans}
use napsteresque.Ternary.{Tree, leaf, node, rank, char_compare, relink, graft}
use napsteresque.Ternary.Order.{
  Level, Below, Above, IsOrdered, IsCString, Level-imp, char_compare-eq,
}
use napsteresque.Ternary.Prune.{prune, close}

Level-graft : (P : ℕ → Type 0) (t lo : Tree) → Level P t → Level P lo → Level P (graft t lo)
unfolding graft
Level-graft P leaf lo h k = k
Level-graft P (node c l m r values) lo h k = (h.0, Level-graft P l lo h.1 k, h.2)

Level-relink : (P : ℕ → Type 0) (lo hi : Tree) → Level P lo → Level P hi → Level P (relink lo hi)
unfolding relink
Level-relink P leaf hi h k = k
Level-relink P (node c l m r values) leaf h k = h
Level-relink P (node c l m r values) (node d l' m' r' ws) h k =
    Level-graft P (node d l' m' r' ws) _ k h

Level-close :
    (P : ℕ → Type 0) (c : ℕ) (lo mid hi : Tree) (values : List ℕ)
    → P c
    → Level P lo
    → Level P hi
    → Level P (close c lo mid hi values)
unfolding close
Level-close P c lo leaf hi values p h k = Level-relink P lo hi h k
Level-close P c lo (node d l m r ws) hi values p h k = (p, h, k)

Level-prune : (P : ℕ → Type 0) (t : Tree) (s : List ℕ) → Level P t → Level P (prune t s)
unfolding prune
Level-prune P leaf s h = tt
Level-prune P (node c lo mid hi values) [] h =
    ground (arith, Level-prune P lo [] h.1, Level-prune P hi [] h.2, Level-relink P lo hi h.1 h.2)
Level-prune P (node c lo mid hi values) (x ∷ s) h = ground (
  arith,
  Level-prune P lo (x ∷ s) h.1,
  Level-prune P hi (x ∷ s) h.2,
  Level-close P c lo (prune mid s) hi values h.0 h.1 h.2,
)

graft-IsOrdered :
    (t lo : Tree) (b : ℕ)
    → IsOrdered t
    → Above b t
    → IsOrdered lo
    → Below b lo
    → IsOrdered (graft t lo)
unfolding graft
graft-IsOrdered leaf lo b o a p below = p
graft-IsOrdered (node c l m r values) lo b o a p below = (
  Level-graft _ l lo o.0 (Level-imp (λ d h. lt_trans h a.0) lo below),
  o.1,
  o.2,
  graft-IsOrdered l lo b o.3 a.1 p below,
  o.4,
  o.5,
)

relink-IsOrdered :
    (lo hi : Tree) (b : ℕ)
    → IsOrdered lo
    → Below b lo
    → IsOrdered hi
    → Above b hi
    → IsOrdered (relink lo hi)
unfolding relink
relink-IsOrdered leaf hi b p below o a = o
relink-IsOrdered (node c l m r values) leaf b p below o a = p
relink-IsOrdered (node c l m r values) (node d l' m' r' ws) b p below o a =
    graft-IsOrdered (node d l' m' r' ws) (node c l m r values) b o a p below

close-IsOrdered :
    (c : ℕ) (lo mid hi : Tree) (values : List ℕ)
    → c ≢ 0
    → Below (rank c) lo
    → Above (rank c) hi
    → IsOrdered lo
    → IsOrdered mid
    → IsOrdered hi
    → IsOrdered (close c lo mid hi values)
unfolding close
close-IsOrdered c lo leaf hi values n below above p m o =
    relink-IsOrdered lo hi (rank c) p below o above
close-IsOrdered c lo (node d l m r ws) hi values n below above p q o = (below, above, n, p, q, o)

-- Removal keeps the tree a search tree.
pub prune-IsOrdered : (t : Tree) (s : List ℕ) → IsCString s → IsOrdered t → IsOrdered (prune t s)
unfolding prune
prune-IsOrdered leaf s h o = tt
prune-IsOrdered (node c lo mid hi values) [] h (below, above, ends, ol, om, oh) =
    elim (Ordering-cases (char_compare 0 c)) [
      | inl l ↦
          rw (l, prune)
            (Level-prune _ lo [] below, above, ends, prune-IsOrdered lo [] tt ol, om, oh)
      | inr (inl e) ↦ rw (e, prune) (relink-IsOrdered lo hi (rank c) ol below oh above)
      | inr (inr g) ↦
          rw (g, prune)
            (below, Level-prune _ hi [] above, ends, ol, om, prune-IsOrdered hi [] tt oh)
    ]
prune-IsOrdered (node c lo mid hi values) (x ∷ s) h (below, above, ends, ol, om, oh) =
    elim (Ordering-cases (char_compare x c)) [
      | inl l ↦
          rw (l, prune)
            (Level-prune _ lo (x ∷ s) below, above, ends, prune-IsOrdered lo (x ∷ s) h ol, om, oh)
      | inr (inl e) ↦
          rw (e, prune)
            (close-IsOrdered c lo (prune mid s) hi values (rw (← char_compare-eq x c e) h.0) below
              above ol (prune-IsOrdered mid s h.1 om) oh)
      | inr (inr g) ↦
          rw (g, prune)
            (below, Level-prune _ hi (x ∷ s) above, ends, ol, om, prune-IsOrdered hi (x ∷ s) h oh)
    ]
