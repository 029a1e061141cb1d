-- ===== src/Ternary/Order.antt =====
-- ternary.hh: the order of a ternary tree, and what `find` reads outside one side of it.
use napsteresque.Base.{ℕ, ◌≤◌, ◌<◌, ◌≡◌, refl, ◌≢◌, none, List, ◌∷◌, All, Ordering, arith}
use napsteresque.Ternary.{Tree, leaf, node, rank, first, char_compare, find}

-- The characters of a node and of all that its `lo` and `hi` links lead to.
abbrev pub Level : (ℕ → Type 0) → Tree → Type 0
Level P leaf = Unit
Level P (node c lo mid hi values) = P c × Level P lo × Level P hi

abbrev pub Below : ℕ → Tree → Type 0
Below b t = Level (λ c. rank c < b) t

abbrev pub Above : ℕ → Tree → Type 0
Above b t = Level (λ c. b < rank c) t

-- A NUL ends a word, and after any other character the word goes on.
abbrev pub EndsWords : ℕ → Tree → Type 0
EndsWords c leaf = c ≡ 0
EndsWords c (node d lo mid hi values) = c ≢ 0

abbrev pub IsOrdered : Tree → Type 0
IsOrdered leaf = Unit
IsOrdered (node c lo mid hi values) =
    Below (rank c) lo
    × Above (rank c) hi
    × EndsWords c mid
    × IsOrdered lo
    × IsOrdered mid
    × IsOrdered hi

-- A C string holds no NUL.
abbrev pub IsCString : List ℕ → Type 0
IsCString s = All (λ c. c ≢ 0) s

-- The rank tells characters apart.
pub rank_injective : (a b : ℕ) → rank a ≡ rank b → a ≡ b
unfolding rank
rank_injective a b h = ground arith

-- What each outcome of the comparison says, for proofs that leave it shut.
pub char_compare-lt : (a b : ℕ) → char_compare a b ≡ Ordering.lt → rank a < rank b
unfolding char_compare
char_compare-lt a b h = ground arith

pub char_compare-eq : (a b : ℕ) → char_compare a b ≡ Ordering.eq → a ≡ b
unfolding char_compare
char_compare-eq a b h = ground (arith, rank_injective a b)

pub char_compare-gt : (a b : ℕ) → char_compare a b ≡ Ordering.gt → rank b < rank a
unfolding char_compare
char_compare-gt a b h = ground arith

pub char_compare_refl : (a : ℕ) → char_compare a a ≡ Ordering.eq
unfolding char_compare
char_compare_refl a = ground arith

-- One step of `find`, with the comparison shut.
pub find_lt :
    (c : ℕ) (lo mid hi : Tree) (values s : List ℕ)
    → char_compare (first s) c ≡ Ordering.lt
    → find (node c lo mid hi values) s ≡ find lo s
unfolding find
find_lt c lo mid hi values s e = rw (e, find)

pub find_gt :
    (c : ℕ) (lo mid hi : Tree) (values s : List ℕ)
    → char_compare (first s) c ≡ Ordering.gt
    → find (node c lo mid hi values) s ≡ find hi s
unfolding find
find_gt c lo mid hi values s e = rw (e, find)

pub find_next :
    (c : ℕ) (lo mid hi : Tree) (values : List ℕ) (x : ℕ) (s : List ℕ)
    → char_compare x c ≡ Ordering.eq
    → find (node c lo mid hi values) (x ∷ s) ≡ find mid s
unfolding find
find_next c lo mid hi values x s e = rw (e, find)

-- The side trees matter for what they answer, not for their shape.
pub find_step :
    (c : ℕ) (lo lo' mid hi hi' : Tree) (values j : List ℕ)
    → find lo' j ≡ find lo j
    → find hi' j ≡ find hi j
    → find (node c lo' mid hi' values) j ≡ find (node c lo mid hi values) j
unfolding find
find_step c lo lo' mid hi hi' values j p q = ground arith

pub Level-imp : {P Q : ℕ → Type 0} → ((c : ℕ) → P c → Q c) → (t : Tree) → Level P t → Level Q t
Level-imp f leaf h = tt
Level-imp f (node c lo mid hi values) (p, l, r) = (f c p, Level-imp f lo l, Level-imp f hi r)

pub find-Below : (t : Tree) (b : ℕ) (s : List ℕ) → Below b t → b ≤ rank (first s) → find t s ≡ none
unfolding find char_compare
find-Below leaf b s h k = refl
find-Below (node c lo mid hi values) b s h k = ground (arith, find-Below hi b s)

pub find-Above : (t : Tree) (b : ℕ) (s : List ℕ) → Above b t → rank (first s) ≤ b → find t s ≡ none
unfolding find char_compare
find-Above leaf b s h k = refl
find-Above (node c lo mid hi values) b s h k = ground (arith, find-Above lo b s)
