-- ===== src/Ternary/Walk.antt =====
-- ternary.hh: the loop of `erase` visits what the plain recursion visits.
pub mod Agrees
use mathlib.Core.List.{append_assoc, append-nil}
use napsteresque.Base.{
  ℕ, ◌≡◌, refl, sym, ap, ◌∙◌, ◌≢◌, inl, inr, Bool-cases, Bool, true, false, ◌&&◌, Ordering-cases,
  Option, List, [], ◌∷◌, ◌++◌, Ordering, arith, none, some, if◌then◌else◌, null,
}
use napsteresque.Ternary.{
  Tree, leaf, node, first, char_compare, find, relink, graft, Link, to_lo, to_eq, to_hi, Place,
  is_leaf, walk, relink_node, update_at, set_values, cut, erase, remaining,
}
use napsteresque.Ternary.Prune.{prune, close}

-- The values under a key replaced, by plain recursion.
unfoldable pub put_values : Tree → List ℕ → List ℕ → Tree
put_values leaf s ws = leaf
put_values (node c lo mid hi values) s ws = elim (char_compare (first s) c) [
  | Ordering.lt ↦ node c (put_values lo s ws) mid hi values
  | Ordering.eq ↦ elim s [
    | [] ↦ node c lo mid hi ws
    | _ ∷ rest ↦ node c lo (put_values mid rest ws) hi values
  ]
  | Ordering.gt ↦ node c lo mid (put_values hi s ws) values
]

-- `erase` by plain recursion.
unfoldable pub finish_reference : Tree → List ℕ → Option ℕ → Option (List ℕ) → Tree
finish_reference t s valuep none = t
finish_reference t s valuep (some values) =
    let left = remaining valuep values in if null left then prune t s else put_values t s left

unfoldable pub erase_reference : Tree → List ℕ → Option ℕ → Tree
unfolding finish_reference
erase_reference t s valuep = finish_reference t s valuep (find t s)

abbrev pub Trace : Type 0
Trace = Option (Place × Option Place × List ℕ)

abbrev pub seen_from : Place → Option Place → Option Place → Option Place
seen_from here lb none = lb
seen_from here lb (some q) = some (here ++ q)

-- The walk of a subtree, seen from above it.
abbrev pub shift : Place → Option Place → Trace → Trace
shift here lb none = none
shift here lb (some (p, q, values)) = some (here ++ p, seen_from here lb q, values)

shift-shift :
    (here : Place) (l : Link) (lb below : Option Place) (r : Trace)
    → shift (here ++ l ∷ []) (seen_from here lb below) r ≡ shift here lb (shift (l ∷ []) below r)
shift-shift here l lb below none = refl
shift-shift here l lb below (some (p, none, values)) = rw append_assoc
shift-shift here l lb below (some (p, some q, values)) = simp append_assoc

pub shift_here : (r : Trace) → shift [] none r ≡ r
shift_here none = refl
shift_here (some (p, none, values)) = refl
shift_here (some (p, some q, values)) = refl

abbrev pub branch : Tree → Tree → Option Place
branch lo hi = if is_leaf lo && is_leaf hi then none else some []

seen_from-branch :
    (here : Place) (lb : Option Place) (lo hi : Tree)
    → seen_from here lb (branch lo hi) ≡ (if is_leaf lo && is_leaf hi then lb else some here)
seen_from-branch here lb lo hi = elim (Bool-cases (is_leaf lo && is_leaf hi)) [
  | inl e ↦ rw e
  | inr e ↦ rw (e, append-nil here)
]

-- The walk by plain recursion, with places below the node at hand.
unfoldable pub trace : Tree → List ℕ → Trace
trace leaf s = none
trace (node c lo mid hi values) s = elim (char_compare (first s) c) [
  | Ordering.lt ↦ shift (to_lo ∷ []) (some (to_lo ∷ [])) (trace lo s)
  | Ordering.eq ↦ elim s [
    | [] ↦ some ([], branch lo hi, values)
    | _ ∷ rest ↦ shift (to_eq ∷ []) (branch lo hi) (trace mid rest)
  ]
  | Ordering.gt ↦ shift (to_hi ∷ []) (some (to_hi ∷ [])) (trace hi s)
]

pub walk-trace :
    (t : Tree) (s : List ℕ) (here : Place) (lb : Option Place)
    → walk t s here lb ≡ shift here lb (trace t s)
unfolding walk trace
walk-trace leaf s here lb = refl
walk-trace (node c lo mid hi values) [] here lb = elim (Ordering-cases (char_compare 0 c)) [
  | inl l ↦
      rw (l, walk, trace)
        (walk-trace lo [] (here ++ to_lo ∷ []) (some (here ++ to_lo ∷ []))
          ∙ shift-shift here to_lo lb (some (to_lo ∷ [])) (trace lo []))
  | inr (inl e) ↦ rw (e, walk, trace) (rw (append-nil here, seen_from-branch here lb lo hi))
  | inr (inr g) ↦
      rw (g, walk, trace)
        (walk-trace hi [] (here ++ to_hi ∷ []) (some (here ++ to_hi ∷ []))
          ∙ shift-shift here to_hi lb (some (to_hi ∷ [])) (trace hi []))
]
walk-trace (node c lo mid hi values) (x ∷ s) here lb = elim (Ordering-cases (char_compare x c)) [
  | inl l ↦
      rw (l, walk, trace)
        (walk-trace lo (x ∷ s) (here ++ to_lo ∷ []) (some (here ++ to_lo ∷ []))
          ∙ shift-shift here to_lo lb (some (to_lo ∷ [])) (trace lo (x ∷ s)))
  | inr (inl e) ↦
      rw (e, walk, trace)
        (walk-trace mid s (here ++ to_eq ∷ []) (if is_leaf lo && is_leaf hi then lb else some here)
          ∙ ap (λ b. shift (here ++ to_eq ∷ []) b (trace mid s))
              (sym (seen_from-branch here lb lo hi))
          ∙ shift-shift here to_eq lb (branch lo hi) (trace mid s))
  | inr (inr g) ↦
      rw (g, walk, trace)
        (walk-trace hi (x ∷ s) (here ++ to_hi ∷ []) (some (here ++ to_hi ∷ []))
          ∙ shift-shift here to_hi lb (some (to_hi ∷ [])) (trace hi (x ∷ s)))
]
