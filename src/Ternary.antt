-- ===== src/Ternary.antt =====
-- ternary.hh: the ternary search tree that indexes shared files by word.
-- A pointer to a node is the tree below it, NULL is `leaf`. A key is the list of its characters;
-- the end of the list is the terminating NUL. The values are numbers (pointers in the program).
pub mod Set
pub mod Order
pub mod Insert
pub mod Prune
pub mod Walk
pub mod Erase
pub mod Refine
mod Examples
use napsteresque.Base.{
  ℕ, ◌+◌, ◌-◌, ◌≡◌, Bool, true, false, Option, none, some, List, [], ◌∷◌, ◌++◌, compare, Ordering,
  ltb, if◌then◌else◌, null, ◌&&◌,
}
use Set.{set_insert, set_erase}

-- `TernaryTree::Node` and its five fields.
pub data Tree : Type 0 where
  leaf : Tree
  node : (c : ℕ) (lo eq hi : Tree) (values : List ℕ) → Tree

-- A `char` is signed: the byte 0x80 is the least. Byte values keep their order by this rank.
pub rank : ℕ → ℕ
rank c = if ltb c 128 then c + 128 else if ltb c 256 then c - 128 else c

-- `*s`
abbrev pub first : List ℕ → ℕ
first [] = 0
first (c ∷ s) = c

-- The sign of `*s - p->c`.
unfoldable pub char_compare : ℕ → ℕ → Ordering
unfolding rank
char_compare a b = compare (rank a) (rank b)

unfoldable pub find : Tree → List ℕ → Option (List ℕ)
find leaf s = none
find (node c lo eq hi values) s = elim (char_compare (first s) c) [
  | Ordering.lt ↦ find lo s
  | Ordering.eq ↦ elim s [ [] ↦ some values | _ ∷ rest ↦ find eq rest ]
  | Ordering.gt ↦ find hi s
]

-- The set that a client sees: a key that is not there has no values (`Search::Go` reads it so).
pub values_of : Option (List ℕ) → List ℕ
values_of none = []
values_of (some values) = values

unfoldable pub words : Tree → List ℕ → List ℕ
unfolding values_of
words t s = values_of (find t s)

-- The second loop of `insert`: one new node for each character left, and one for the NUL.
unfoldable pub chain : List ℕ → ℕ → Tree
chain [] v = node 0 leaf leaf leaf (set_insert v [])
chain (c ∷ s) v = node c leaf (chain s v) leaf []

unfoldable pub insert : Tree → List ℕ → ℕ → Tree
insert leaf s v = chain s v
insert (node c lo eq hi values) s v = elim (char_compare (first s) c) [
  | Ordering.lt ↦ node c (insert lo s v) eq hi values
  | Ordering.eq ↦ elim s [
    | [] ↦ node c lo eq hi (set_insert v values)
    | _ ∷ rest ↦ node c lo (insert eq rest v) hi values
  ]
  | Ordering.gt ↦ node c lo eq (insert hi s v) values
]

-- A place in the tree: the links that lead to it from the root. `pp` and `lbp` of `erase` are the
-- nodes one link above `p` and `lb`.
pub data Link : Type 0 where
  to_lo to_eq to_hi : Link

abbrev pub Place : Type 0
Place = List Link

abbrev pub is_leaf : Tree → Bool
is_leaf leaf = true
is_leaf (node c lo eq hi values) = false

-- The first loop of `erase`: where `p` stops, where `lb` was left (`none` is NULL), and the values
-- there; `none` where `p` runs into NULL.
unfoldable pub walk : Tree → List ℕ → Place → Option Place → Option (Place × Option Place × List ℕ)
walk leaf s here lb = none
walk (node c lo eq hi values) s here lb =
    let lb' = if is_leaf lo && is_leaf hi then lb else some here in
    elim (char_compare (first s) c) [
      | Ordering.lt ↦ walk lo s (here ++ to_lo ∷ []) (some (here ++ to_lo ∷ []))
      | Ordering.eq ↦ elim s [
        | [] ↦ some (here, lb', values)
        | _ ∷ rest ↦ walk eq rest (here ++ to_eq ∷ []) lb'
      ]
      | Ordering.gt ↦ walk hi s (here ++ to_hi ∷ []) (some (here ++ to_hi ∷ []))
    ]

-- `for (p = lbr; p->lo; p = p->lo); p->lo = lbdc;`
unfoldable pub graft : Tree → Tree → Tree
graft leaf t = t
graft (node c lo eq hi values) t = node c (graft lo t) eq hi values

-- What takes the place of `lb`: NULL, `lbr`, or `lbr` with `lbdc` hung on its left.
unfoldable pub relink : Tree → Tree → Tree
relink leaf hi = hi
relink (node c lo eq hi values) leaf = node c lo eq hi values
relink (node c lo eq hi values) (node d l e h ws) = graft (node d l e h ws) (node c lo eq hi values)

unfoldable pub relink_node : Tree → Tree
relink_node leaf = leaf
relink_node (node c lo eq hi values) = relink lo hi

-- A write through the pointer at a place: the node there becomes `f` of it.
unfoldable pub update_at : Place → (Tree → Tree) → Tree → Tree
update_at [] f t = f t
update_at (l ∷ ls) f leaf = leaf
update_at (to_lo ∷ ls) f (node c lo eq hi values) = node c (update_at ls f lo) eq hi values
update_at (to_eq ∷ ls) f (node c lo eq hi values) = node c lo (update_at ls f eq) hi values
update_at (to_hi ∷ ls) f (node c lo eq hi values) = node c lo eq (update_at ls f hi) values

unfoldable pub set_values : List ℕ → Tree → Tree
set_values ws leaf = leaf
set_values ws (node c lo eq hi values) = node c lo eq hi ws

-- `values.erase(*valuep)`, or `values.clear()` where `valuep` is NULL.
unfoldable pub remaining : Option ℕ → List ℕ → List ℕ
remaining (some v) values = set_erase v values
remaining none values = []

unfoldable pub cut : Option Place → Tree → Tree
cut none t = leaf
cut (some lb) t = update_at lb relink_node t

-- The rest of `erase` after the first loop: a node that keeps a value stays, else the tree is cut.
unfoldable pub finish : Tree → Option ℕ → Option (Place × Option Place × List ℕ) → Tree
unfolding cut
finish t valuep none = t
finish t valuep (some (p, lb, values)) =
    let left = remaining valuep values in
    if null left then cut lb t else update_at p (set_values left) t

-- `erase(key, valuep)`, for one value or, where `valuep` is NULL, for all of them.
unfoldable pub erase : Tree → List ℕ → Option ℕ → Tree
unfolding walk finish
erase t s valuep = finish t valuep (walk t s [] none)
