-- ===== src/Ternary/Insert.antt =====
-- ternary.hh: what `find` reads after `insert`, and that `insert` keeps the order.
use napsteresque.Base.{
  ap, inl, inr, Ordering-cases, ℕ, ◌≡◌, refl, ◌≢◌, none, some, List, [], ◌∷◌, arith,
}
use napsteresque.Ternary.{
  Tree, leaf, node, first, char_compare, find, chain, insert, words, values_of,
}
use napsteresque.Ternary.Set.{set_insert}
use napsteresque.Ternary.Order.{
  Level, EndsWords, IsOrdered, IsCString, rank_injective, char_compare-lt, char_compare-eq,
  char_compare-gt, char_compare-lt, char_compare-eq, char_compare-gt,
}

find-chain_self : (s : List ℕ) (v : ℕ) → find (chain s v) s ≡ some (set_insert v [])
unfolding find chain char_compare
find-chain_self [] v = ground arith
find-chain_self (c ∷ s) v = ground (arith, find-chain_self s v)

find-chain_ne : (s j : List ℕ) (v : ℕ) → IsCString s → j ≢ s → find (chain s v) j ≡ none
unfolding find chain char_compare
find-chain_ne [] [] v h n = absurd (n refl)
find-chain_ne [] (x ∷ j) v h n = ground arith
find-chain_ne (c ∷ s) [] v h n = ground (arith, rank_injective 0 c)
find-chain_ne (c ∷ s) (x ∷ j) v h n = ground (arith, find-chain_ne s j v, rank_injective x c)

-- After an insertion the key has its old values and the new one.
pub find-insert_self :
    (t : Tree) (s : List ℕ) (v : ℕ) → find (insert t s v) s ≡ some (set_insert v (words t s))
unfolding insert find words
find-insert_self leaf s v = find-chain_self s v
find-insert_self (node c lo mid hi values) [] v =
    ground (arith, find-insert_self lo [] v, find-insert_self hi [] v)
find-insert_self (node c lo mid hi values) (x ∷ s) v =
    ground (
      arith,
      find-insert_self lo (x ∷ s) v,
      find-insert_self mid s v,
      find-insert_self hi (x ∷ s) v,
    )

pub words-insert_self :
    (t : Tree) (s : List ℕ) (v : ℕ) → words (insert t s v) s ≡ set_insert v (words t s)
unfolding words values_of
words-insert_self t s v = ap values_of (find-insert_self t s v)

-- An insertion of a key without NUL into any tree leaves what `find` says at every other key.
pub find-insert_ne :
    (t : Tree) (s j : List ℕ) (v : ℕ) → IsCString s → j ≢ s → find (insert t s v) j ≡ find t j
unfolding insert find
find-insert_ne leaf s j v h n = find-chain_ne s j v h n
find-insert_ne (node c lo mid hi values) [] [] v h n = absurd (n refl)
find-insert_ne (node c lo mid hi values) [] (y ∷ j) v h n =
    ground (arith, find-insert_ne lo [] (y ∷ j) v h n, find-insert_ne hi [] (y ∷ j) v h n)
find-insert_ne (node c lo mid hi values) (x ∷ s) [] v h n =
    ground (arith, find-insert_ne lo (x ∷ s) [] v h n, find-insert_ne hi (x ∷ s) [] v h n)
find-insert_ne (node c lo mid hi values) (x ∷ s) (y ∷ j) v h n = ground (
  arith,
  find-insert_ne lo (x ∷ s) (y ∷ j) v h n,
  find-insert_ne mid s j v h.1,
  find-insert_ne hi (x ∷ s) (y ∷ j) v h n,
  char_compare-eq x c,
  char_compare-eq y c,
)

Level-insert :
    (P : ℕ → Type 0) (t : Tree) (s : List ℕ) (v : ℕ)
    → P (first s)
    → Level P t
    → Level P (insert t s v)
unfolding insert chain
Level-insert P leaf [] v p h = (p, tt, tt)
Level-insert P leaf (x ∷ s) v p h = (p, tt, tt)
Level-insert P (node c lo mid hi values) [] v p h =
    ground (arith, Level-insert P lo [] v p h.1, Level-insert P hi [] v p h.2)
Level-insert P (node c lo mid hi values) (x ∷ s) v p h =
    ground (arith, Level-insert P lo (x ∷ s) v p h.1, Level-insert P hi (x ∷ s) v p h.2)

chain-IsOrdered : (s : List ℕ) (v : ℕ) → IsCString s → IsOrdered (chain s v)
unfolding chain
chain-IsOrdered [] v h = (tt, tt, refl, tt, tt, tt)
chain-IsOrdered (c ∷ []) v h = (tt, tt, h.0, tt, chain-IsOrdered [] v tt, tt)
chain-IsOrdered (c ∷ d ∷ s) v h = (tt, tt, h.0, tt, chain-IsOrdered (d ∷ s) v h.1, tt)

EndsWords-insert : (c : ℕ) (t : Tree) (s : List ℕ) (v : ℕ) → c ≢ 0 → EndsWords c (insert t s v)
unfolding insert chain
EndsWords-insert c leaf [] v h = h
EndsWords-insert c leaf (x ∷ s) v h = h
EndsWords-insert c (node d lo mid hi values) [] v h = ground arith
EndsWords-insert c (node d lo mid hi values) (x ∷ s) v h = ground arith

-- Insertion of a key without NUL keeps a search tree a search tree: at each node the characters in
-- `lo` are below its own and those in `hi` above it, as signed chars, and words end at NUL.
pub insert-IsOrdered :
    (t : Tree) (s : List ℕ) (v : ℕ) → IsCString s → IsOrdered t → IsOrdered (insert t s v)
unfolding insert
insert-IsOrdered leaf s v h o = chain-IsOrdered s v h
insert-IsOrdered (node c lo mid hi values) [] v h (below, above, ends, ol, om, oh) =
    elim (Ordering-cases (char_compare 0 c)) [
      | inl l ↦
          rw (l, insert)
            (
              Level-insert _ lo [] v (char_compare-lt 0 c l) below,
              above,
              ends,
              insert-IsOrdered lo [] v tt ol,
              om,
              oh,
            )
      | inr (inl e) ↦ rw (e, insert) (below, above, ends, ol, om, oh)
      | inr (inr g) ↦
          rw (g, insert)
            (
              below,
              Level-insert _ hi [] v (char_compare-gt 0 c g) above,
              ends,
              ol,
              om,
              insert-IsOrdered hi [] v tt oh,
            )
    ]
insert-IsOrdered (node c lo mid hi values) (x ∷ s) v h (below, above, ends, ol, om, oh) =
    elim (Ordering-cases (char_compare x c)) [
      | inl l ↦
          rw (l, insert)
            (
              Level-insert _ lo (x ∷ s) v (char_compare-lt x c l) below,
              above,
              ends,
              insert-IsOrdered lo (x ∷ s) v h ol,
              om,
              oh,
            )
      | inr (inl e) ↦
          rw (e, insert)
            (
              below,
              above,
              EndsWords-insert c mid s v (rw (← char_compare-eq x c e) h.0),
              ol,
              insert-IsOrdered mid s v h.1 om,
              oh,
            )
      | inr (inr g) ↦
          rw (g, insert)
            (
              below,
              Level-insert _ hi (x ∷ s) v (char_compare-gt x c g) above,
              ends,
              ol,
              om,
              insert-IsOrdered hi (x ∷ s) v h oh,
            )
    ]
