-- ===== src/Ternary/Examples.antt =====
-- ternary.cc: `TernaryTree<int>::test`, and the theorems at small trees.
use napsteresque.Base.{ℕ, ◌≡◌, refl, ap, ◌≢◌, false, none, some, List, [], ◌∷◌, arith, Ordering}
use napsteresque.Ternary.{
  Tree, leaf, char_compare, find, chain, insert, erase, words, values_of, update_at, relink_node,
  relink, graft, remaining, set_values, first,
}
use napsteresque.Ternary.Set.{set_insert, contains, set_erase}
use napsteresque.Ternary.Order.{IsOrdered}
use napsteresque.Ternary.Insert.{insert-IsOrdered}
use napsteresque.Ternary.Erase.{words-erase_self}
use napsteresque.Ternary.Walk.{erase_reference}
use napsteresque.Ternary.Walk.Agrees.{erase-erase_reference}
use napsteresque.Ternary.Refine.{
  Op, inserts, erases, erases_all, run, replay, index_holds, AllCStrings,
}

abbrev dan : List ℕ
dan = b'D' ∷ b'a' ∷ b'n' ∷ []

abbrev foo : List ℕ
foo = b'F' ∷ b'o' ∷ b'o' ∷ []

abbrev bar : List ℕ
bar = b'B' ∷ b'a' ∷ b'r' ∷ []

-- The test of the program, with 9 for -1.
two_dans : Tree
unfolding insert chain set_insert
two_dans = insert (insert leaf dan 23) dan 24

two_dans_found : find two_dans dan ≡ some (23 ∷ 24 ∷ [])
unfolding two_dans find char_compare
two_dans_found = refl

erased_in_turn :
    (words (erase two_dans dan (some 24)) dan ≡ 23 ∷ [])
    × (erase (erase (insert (erase two_dans dan (some 24)) foo 9) dan (some 23)) foo (some 9)
        ≡ leaf)
unfolding two_dans find char_compare insert chain erase remaining words values_of graft relink
    relink_node update_at set_values set_erase
erased_in_turn = (refl, refl)

-- A byte of 0x80 sorts before 'A'.
signed_order : char_compare 0x80 b'A' ≡ Ordering.lt
unfolding char_compare
signed_order = refl

branching : Tree
unfolding two_dans insert chain set_insert
branching = insert (insert two_dans foo 9) bar 7

branching-IsOrdered : IsOrdered branching
unfolding branching two_dans
branching-IsOrdered = insert-IsOrdered (insert two_dans foo 9) bar 7 (omega arith) (
    insert-IsOrdered two_dans foo 9 (omega arith) (
      insert-IsOrdered (insert leaf dan 23) dan 24 (omega arith)
        (insert-IsOrdered leaf dan 23 (omega arith) tt)))

foo_ne_dan : foo ≢ dan
foo_ne_dan e = omega (arith, ap first e)

words-erase_self_example :
    words (erase branching dan none) dan ≡ remaining none (words branching dan)
words-erase_self_example = words-erase_self branching dan none (omega arith) branching-IsOrdered

erase-erase_reference_example : erase branching dan none ≡ erase_reference branching dan none
erase-erase_reference_example = erase-erase_reference branching dan none

abbrev history : List Op
history = inserts dan 23 ∷ inserts foo 9 ∷ inserts dan 24 ∷ erases dan 23 ∷ erases_all foo ∷ []

history_keys : AllCStrings history
history_keys = omega arith

index_holds_example :
    contains 24 (words (run leaf history) dan) ≡ replay (λ _ _. false) history dan 24
index_holds_example = index_holds history dan 24 history_keys
