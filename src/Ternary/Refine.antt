-- ===== src/Ternary/Refine.antt =====
-- ternary.hh as its clients use it: an index, which is a relation between words and values.
use mathlib.Core.Bool.{false≢true}
use napsteresque.Base.{
  ℕ, ◌≡◌, refl, ap, sym, ◌∙◌, ◌≢◌, inl, inr, Bool, true, false, ◌&&◌, none, some, List, [], ◌∷◌,
  arith, ◌==◌, if◌then◌else◌, Bool-cases,
}
use napsteresque.Ternary.{Tree, leaf, find, words, values_of, insert, erase, remaining}
use napsteresque.Ternary.Set.{
  set_insert, set_erase, contains, IsIncreasing, contains-set_insert, contains-set_erase,
  set_insert-IsIncreasing, set_erase-IsIncreasing,
}
use napsteresque.Ternary.Order.{IsOrdered, IsCString}
use napsteresque.Ternary.Insert.{words-insert_self, find-insert_ne, insert-IsOrdered}
use napsteresque.Ternary.Erase.{words-erase_self, find-erase_ne, erase-IsOrdered}

unfoldable pub same_key : List ℕ → List ℕ → Bool
same_key [] [] = true
same_key [] (y ∷ j) = false
same_key (x ∷ s) [] = false
same_key (x ∷ s) (y ∷ j) = if x == y then same_key s j else false

same_key-eq : (j s : List ℕ) → same_key j s ≡ true → j ≡ s
unfolding same_key
same_key-eq [] [] h = refl
same_key-eq [] (y ∷ j) h = cc
same_key-eq (x ∷ s) [] h = cc
same_key-eq (x ∷ s) (y ∷ j) h = ground (arith, same_key-eq s j)

same_key_refl : (s : List ℕ) → same_key s s ≡ true
unfolding same_key
same_key_refl [] = refl
same_key_refl (x ∷ s) = ground (arith, same_key_refl s)

-- The calls of the public interface.
pub data Op : Type 0 where
  inserts : List ℕ → ℕ → Op
  erases : List ℕ → ℕ → Op
  erases_all : List ℕ → Op

abbrev pub key : Op → List ℕ
key (inserts s v) = s
key (erases s v) = s
key (erases_all s) = s

unfoldable pub step : Tree → Op → Tree
step t (inserts s v) = insert t s v
step t (erases s v) = erase t s (some v)
step t (erases_all s) = erase t s none

unfoldable pub run : Tree → List Op → Tree
run t [] = t
run t (op ∷ ops) = run (step t op) ops

-- The specification: which value stands under which word.
abbrev pub Index : Type 0
Index = List ℕ → ℕ → Bool

unfoldable pub after : Index → Op → Index
after f (inserts s v) j w = if same_key j s && w == v then true else f j w
after f (erases s v) j w = if same_key j s && w == v then false else f j w
after f (erases_all s) j w = if same_key j s then false else f j w

unfoldable pub replay : Index → List Op → Index
replay f [] = f
replay f (op ∷ ops) = replay (after f op) ops

abbrev pub AllCStrings : List Op → Type 0
AllCStrings [] = Unit {0}
AllCStrings (op ∷ ops) = IsCString (key op) × AllCStrings ops

-- The tree is ordered, each set is increasing, and it holds what the index says.
pub record Refines (t : Tree) (f : Index) : Type 0 where
  pub ordered : IsOrdered t
  pub increasing : (j : List ℕ) → IsIncreasing (words t j)
  pub holds : (j : List ℕ) (w : ℕ) → contains w (words t j) ≡ f j w

-- How the sets change under one call: at its key by a function, elsewhere not at all.
changed :
    (t u : Tree) (s : List ℕ) (g : List ℕ → List ℕ)
    → words u s ≡ g (words t s)
    → ((j : List ℕ) → j ≢ s → find u j ≡ find t j)
    → (j : List ℕ) → words u j ≡ (if same_key j s then g (words t j) else words t j)
unfolding words values_of
changed t u s g here elsewhere j = elim (Bool-cases (same_key j s)) [
  | inl e ↦ rw (e, same_key-eq j s e) here
  | inr e ↦ rw e (
      ap values_of
        (elsewhere j (λ k. false≢true (sym e ∙ ap (λ i. same_key i s) k ∙ same_key_refl s))))
]

step-Refines :
    (t : Tree) (f : Index) (op : Op)
    → IsCString (key op)
    → Refines t f
    → Refines (step t op) (after f op)
unfolding step after remaining contains
step-Refines t f (inserts s v) h r = record {
  ordered = insert-IsOrdered t s v h r.ordered;
  increasing =
      λ j. rw (now j) (ground (arith, r.increasing j, set_insert-IsIncreasing v (words t j)));
  holds = λ j w. rw (now j) (ground (arith, r.holds j w, contains-set_insert v w (words t j)));
}
  where
    now :
        (j : List ℕ)
        → words (insert t s v) j ≡ (if same_key j s then set_insert v (words t j) else words t j)
    now =
        changed t (insert t s v) s (set_insert v) (words-insert_self t s v)
          (λ j n. find-insert_ne t s j v h n)
step-Refines t f (erases s v) h r = record {
  ordered = erase-IsOrdered t s (some v) h r.ordered;
  increasing =
      λ j. rw (now j) (ground (arith, r.increasing j, set_erase-IsIncreasing v (words t j)));
  holds = λ j w.
      rw (now j) (ground (arith, r.holds j w, contains-set_erase v w (words t j) (r.increasing j)));
}
  where
    now :
        (j : List ℕ)
        → words (erase t s (some v)) j
          ≡ (if same_key j s then set_erase v (words t j) else words t j)
    now =
        changed t (erase t s (some v)) s (set_erase v) (words-erase_self t s (some v) h r.ordered)
          (find-erase_ne t s (some v) h r.ordered)
step-Refines t f (erases_all s) h r = record {
  ordered = erase-IsOrdered t s none h r.ordered;
  increasing = λ j. rw (now j) (ground (arith, r.increasing j));
  holds = λ j w. rw (now j) (ground (arith, r.holds j w));
}
  where
    now : (j : List ℕ) → words (erase t s none) j ≡ (if same_key j s then [] else words t j)
    now =
        changed t (erase t s none) s (λ _. []) (words-erase_self t s none h r.ordered)
          (find-erase_ne t s none h r.ordered)

-- Any calls of insert and erase, with C strings for keys, take a tree that refines an index to one
-- that refines the index after the same calls.
pub run-Refines :
    (ops : List Op) (t : Tree) (f : Index)
    → AllCStrings ops
    → Refines t f
    → Refines (run t ops) (replay f ops)
unfolding run replay
run-Refines [] t f h r = r
run-Refines (op ∷ ops) t f h r =
    run-Refines ops (step t op) (after f op) h.1 (step-Refines t f op h.0 r)

pub empty-Refines : Refines leaf (λ j w. false)
unfolding words find contains
empty-Refines = record { ordered = tt; increasing = λ j. tt; holds = λ j w. refl }

-- After any calls of `insert` and of `erase`, with or without a value, from the empty tree, a value
-- is in what `find` says of a key exactly if the relation of keys and values that the calls describe
-- holds it: each insertion adds a pair, each erasure takes out one pair or all of a key. The keys of
-- the calls hold no NUL; the key that is looked up is any.
pub index_holds :
    (ops : List Op) (j : List ℕ) (w : ℕ)
    → AllCStrings ops
    → contains w (words (run leaf ops) j) ≡ replay (λ _ _. false) ops j w
index_holds ops j w h = (run-Refines ops leaf _ h empty-Refines).holds j w
