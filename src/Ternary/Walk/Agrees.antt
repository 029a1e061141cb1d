-- ===== src/Ternary/Walk/Agrees.antt =====
-- ternary.hh: the relinking of `erase` cuts what the plain recursion cuts.
use mathlib.Core.Bool.{false≢true}
use napsteresque.Base.{
  ℕ, ◌≡◌, refl, sym, ap, ◌∙◌, ◌≢◌, inl, inr, Bool, true, false, ◌&&◌, Ordering-cases, Option, List,
  [], ◌∷◌, Ordering, none, some, if◌then◌else◌,
}
use napsteresque.Ternary.{
  Tree, leaf, node, first, char_compare, find, relink, graft, to_lo, to_eq, to_hi, Place, is_leaf,
  relink_node, update_at, set_values, cut, erase, finish, remaining,
}
use napsteresque.Ternary.Prune.{prune, close}
use napsteresque.Ternary.Walk.{
  Trace, shift, shift_here, branch, trace, walk-trace, put_values, erase_reference,
  finish_reference,
}

is_leaf-relink : (lo hi : Tree) → is_leaf (relink lo hi) ≡ (is_leaf lo && is_leaf hi)
unfolding relink graft
is_leaf-relink leaf hi = refl
is_leaf-relink (node c l m r values) leaf = refl
is_leaf-relink (node c l m r values) (node d l' m' r' ws) = refl

-- What the recorded branch says of the tree: without one the walked word is all there is.
abbrev Shape : Option Place → Tree → Type 0
Shape none t = is_leaf (relink_node t) ≡ true
Shape (some q) t = is_leaf (update_at q relink_node t) ≡ false

-- What a walk has to do with the recursions.
abbrev Agrees : Tree → List ℕ → Trace → Type 0
Agrees t s none = find t s ≡ none
Agrees t s (some (p, q, values)) =
    (find t s ≡ some values)
    × (cut q t ≡ prune t s)
    × Shape q t
    × ((ws : List ℕ) → update_at p (set_values ws) t ≡ put_values t s ws)

ne-leaf : (t : Tree) → is_leaf t ≡ false → t ≢ leaf
ne-leaf leaf h e = false≢true (sym h)
ne-leaf (node c lo mid hi values) h e = cc

leaf_of : (t : Tree) → is_leaf t ≡ true → t ≡ leaf
leaf_of leaf h = refl
leaf_of (node c lo mid hi values) h = cc

module _ (c : ℕ) (lo mid hi : Tree) (values s : List ℕ) where
  below_lo :
      (r : Trace)
      → char_compare (first s) c ≡ Ordering.lt
      → Agrees lo s r
      → Agrees (node c lo mid hi values) s (shift (to_lo ∷ []) (some (to_lo ∷ [])) r)
  unfolding find prune put_values update_at cut
  below_lo none e a = rw (e, find) a
  below_lo (some (p, none, vs)) e (f, k, h, u) = (
    rw (e, find) f,
    rw (e, prune) (ap (λ t. node c t mid hi values) (leaf_of (relink_node lo) h ∙ k)),
    refl,
    λ ws. rw (e, put_values) (ap (λ t. node c t mid hi values) (u ws)),
  )
  below_lo (some (p, some q, vs)) e (f, k, h, u) = (
    rw (e, find) f,
    rw (e, prune) (ap (λ t. node c t mid hi values) k),
    refl,
    λ ws. rw (e, put_values) (ap (λ t. node c t mid hi values) (u ws)),
  )

  below_hi :
      (r : Trace)
      → char_compare (first s) c ≡ Ordering.gt
      → Agrees hi s r
      → Agrees (node c lo mid hi values) s (shift (to_hi ∷ []) (some (to_hi ∷ [])) r)
  unfolding find prune put_values update_at cut
  below_hi none e a = rw (e, find) a
  below_hi (some (p, none, vs)) e (f, k, h, u) = (
    rw (e, find) f,
    rw (e, prune) (ap (λ t. node c lo mid t values) (leaf_of (relink_node hi) h ∙ k)),
    refl,
    λ ws. rw (e, put_values) (ap (λ t. node c lo mid t values) (u ws)),
  )
  below_hi (some (p, some q, vs)) e (f, k, h, u) = (
    rw (e, find) f,
    rw (e, prune) (ap (λ t. node c lo mid t values) k),
    refl,
    λ ws. rw (e, put_values) (ap (λ t. node c lo mid t values) (u ws)),
  )

  -- At the end of the word, or below it where nothing else hangs on the word.
  at_branch :
      (b : Bool)
      → (is_leaf lo && is_leaf hi) ≡ b
      → (cut (if b then none else some []) (node c lo mid hi values) ≡ relink lo hi)
        × Shape (if b then none else some []) (node c lo mid hi values)
  unfolding update_at cut relink_node
  at_branch true e = (sym (leaf_of _ (is_leaf-relink lo hi ∙ e)), is_leaf-relink lo hi ∙ e)
  at_branch false e = (refl, is_leaf-relink lo hi ∙ e)

  at_end :
      char_compare 0 c ≡ Ordering.eq
      → Agrees (node c lo mid hi values) [] (some ([], branch lo hi, values))
  unfolding find prune put_values update_at set_values
  at_end e = (
    rw (e, find),
    rw (e, prune) (at_branch _ refl).0,
    (at_branch _ refl).1,
    λ ws. rw (e, put_values),
  )

  below_eq :
      (x : ℕ) (rest : List ℕ) (r : Trace)
      → s ≡ x ∷ rest
      → char_compare x c ≡ Ordering.eq
      → Agrees mid rest r
      → Agrees (node c lo mid hi values) (x ∷ rest) (shift (to_eq ∷ []) (branch lo hi) r)
  unfolding find prune put_values update_at cut close
  below_eq x rest none q e a = rw (e, find) a
  below_eq x rest (some (p, none, vs)) q e (f, k, h, u) = (
    rw (e, find) f,
    rw (e, prune) (rw (← k) (at_branch _ refl).0),
    (at_branch _ refl).1,
    λ ws. rw (e, put_values) (ap (λ t. node c lo t hi values) (u ws)),
  )
  below_eq x rest (some (p, some q', vs)) q e (f, k, h, u) = (
    rw (e, find) f,
    rw (e, prune) (keep (prune mid rest) k),
    refl,
    λ ws. rw (e, put_values) (ap (λ t. node c lo t hi values) (u ws)),
  )
    where
      keep :
          (t : Tree)
          → update_at q' relink_node mid ≡ t
          → node c lo (update_at q' relink_node mid) hi values ≡ close c lo t hi values
      keep leaf k = absurd (ne-leaf _ h k)
      keep (node d l m r ws) k = ap (λ t. node c lo t hi values) k

trace-Agrees : (t : Tree) (s : List ℕ) → Agrees t s (trace t s)
unfolding trace find
trace-Agrees leaf s = refl
trace-Agrees (node c lo mid hi values) [] = elim (Ordering-cases (char_compare 0 c)) [
  | inl l ↦ rw (l, trace) (below_lo c lo mid hi values [] (trace lo []) l (trace-Agrees lo []))
  | inr (inl e) ↦ rw (e, trace) (at_end c lo mid hi values [] e)
  | inr (inr g) ↦
      rw (g, trace) (below_hi c lo mid hi values [] (trace hi []) g (trace-Agrees hi []))
]
trace-Agrees (node c lo mid hi values) (x ∷ s) = elim (Ordering-cases (char_compare x c)) [
  | inl l ↦
      rw (l, trace)
        (below_lo c lo mid hi values (x ∷ s) (trace lo (x ∷ s)) l (trace-Agrees lo (x ∷ s)))
  | inr (inl e) ↦
      rw (e, trace)
        (below_eq c lo mid hi values (x ∷ s) x s (trace mid s) refl e (trace-Agrees mid s))
  | inr (inr g) ↦
      rw (g, trace)
        (below_hi c lo mid hi values (x ∷ s) (trace hi (x ∷ s)) g (trace-Agrees hi (x ∷ s)))
]

finish-finish_reference :
    (t : Tree) (s : List ℕ) (valuep : Option ℕ) (r : Trace)
    → Agrees t s r
    → finish t valuep r ≡ finish_reference t s valuep (find t s)
unfolding finish finish_reference
finish-finish_reference t s valuep none f = rw (f, finish_reference)
finish-finish_reference t s valuep (some (p, q, values)) (f, k, h, u) =
    rw (f, k, u (remaining valuep values), finish_reference)

-- On every tree, key and value, the pointer walk of `erase` with its last branch and its relinking
-- gives the same tree as removal by plain recursion: a node that keeps a value gets the values left,
-- and else the word is pruned.
pub erase-erase_reference :
    (t : Tree) (s : List ℕ) (valuep : Option ℕ) → erase t s valuep ≡ erase_reference t s valuep
unfolding erase erase_reference
erase-erase_reference t s valuep =
    rw (walk-trace t s [] none, shift_here (trace t s))
      (finish-finish_reference t s valuep (trace t s) (trace-Agrees t s))
