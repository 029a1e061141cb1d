-- ===== src/Search/Advance.antt =====
-- search.cc: the files that are found, as a selection from one set, and how it shrinks by a round.
use mathlib.Core.Bool.{true≢false}
use mathlib.Core.Path.{subst}
use napsteresque.Base.{
  ℕ, ◌+◌, ◌-◌, ◌*◌, ◌≤◌, ◌<◌, ◌≡◌, refl, sym, ◌∙◌, Bool, true, false, not, ◌&&◌, inl, inr, List, [],
  ◌∷◌, ◌++◌, ltb, leb, ◌==◌, if◌then◌else◌, All, arith, Bool-cases,
}
use napsteresque.Search.{has}
use napsteresque.Search.Bound.{IsIncreasing, above, above_anti, has-above}

-- The elements of a list that pass a test, in its order.
unfoldable pub select : (ℕ → Bool) → List ℕ → List ℕ
select f [] = []
select f (x ∷ s) = if f x then x ∷ select f s else select f s

-- A test of the elements from a bound on.
abbrev pub from : ℕ → (ℕ → Bool) → ℕ → Bool
from c f x = leb c x && f x

pub select_cong : (f g : ℕ → Bool) (s : List ℕ) → ((x : ℕ) → f x ≡ g x) → select f s ≡ select g s
unfolding select
select_cong f g [] h = refl
select_cong f g (x ∷ s) h = rw (h x, select_cong f g s h) refl

pub select_none : (f : ℕ → Bool) (s : List ℕ) → ((x : ℕ) → f x ≡ false) → select f s ≡ []
unfolding select
select_none f [] h = refl
select_none f (x ∷ s) h = rw (h x, select_none f s h) refl

-- Nothing passes between two bounds.
pub select_skip :
    (f : ℕ → Bool) (c k : ℕ) (s : List ℕ)
    → c ≤ k
    → ((x : ℕ) → c ≤ x → x < k → f x ≡ false)
    → select (from c f) s ≡ select (from k f) s
select_skip f c k s l h = select_cong (from c f) (from k f) s pointwise
  where
    pointwise : (x : ℕ) → from c f x ≡ from k f x
    pointwise x = elim (Bool-cases (leb c x && not (leb k x))) [
      | inl b ↦ let fails = h x (ground (arith, b)) (ground (arith, b)) in rw fails (ground arith)
      | inr b ↦ ground (arith, b, l)
    ]

select-All :
    (f : ℕ → Bool) (c : ℕ) (s : List ℕ)
    → All (λ y. c < y) s
    → select (from c f) s ≡ select (from (c + 1) f) s
unfolding select
select-All f c [] h = refl
select-All f c (x ∷ s) (h, hs) =
    let low : leb c x ≡ true = ground (arith, h) in
    let high : leb (c + 1) x ≡ true = ground (arith, h) in rw (low, high, select-All f c s hs) refl

has_behind : (x c : ℕ) (s : List ℕ) → All (λ y. x < y) s → has s c ≡ true → x < c
has_behind x c s a h = elim (Bool-cases (ltb x c)) [
  | inl b ↦ ground (arith, b)
  | inr b ↦
      let none_there = has-above x c s a (ground (arith, b)) in
      absurd (true≢false (sym h ∙ none_there))
]

and_assoc : (a b c : Bool) → (a && b && c) ≡ (a && (b && c))
and_assoc true b c = refl
and_assoc false b c = refl

-- An element that passes is the first from itself on.
pub select_hit :
    (f : ℕ → Bool) (c : ℕ) (s : List ℕ)
    → IsIncreasing s
    → has s c ≡ true
    → f c ≡ true
    → select (from c f) s ≡ c ∷ select (from (c + 1) f) s
unfolding select has
select_hit f c [] v h p = absurd (true≢false (sym h))
select_hit f c (x ∷ s) (a, v) h p = elim (Bool-cases (x == c)) [
  | inl e ↦
      let same : x ≡ c = ground (arith, e) in
      rw same (
        let a' = subst (λ z. All (λ y. z < y) s) same a in
        let low : leb c c ≡ true = ground arith in
        let high : leb (c + 1) c ≡ false = ground arith in
        rw (low, high, p, select-All f c s a') refl)
  | inr n ↦
      let behind : has s c ≡ true = ground (arith, h, n) in
      let below : x < c = has_behind x c s a behind in
      let low : leb c x ≡ false = ground (arith, below) in
      let high : leb (c + 1) x ≡ false = ground (arith, below) in
      rw (low, high) (select_hit f c s v behind p)
]

unfoldable pub all_have : List (List ℕ) → ℕ → Bool
all_have [] x = true
all_have (s ∷ ss) x = has s x && all_have ss x

unfoldable pub above_all : ℕ → List (List ℕ) → ℕ
above_all c [] = 0
above_all c (s ∷ ss) = above c s + above_all c ss

pub all_have-append :
    (ss ts : List (List ℕ)) (x : ℕ) → all_have (ss ++ ts) x ≡ (all_have ss x && all_have ts x)
unfolding all_have
all_have-append [] ts x = refl
all_have-append (s ∷ ss) ts x =
    rw (all_have-append ss ts x) (sym (and_assoc (has s x) (all_have ss x) (all_have ts x)))

pub above_all-append :
    (c : ℕ) (ss ts : List (List ℕ)) → above_all c (ss ++ ts) ≡ above_all c ss + above_all c ts
unfolding above_all
above_all-append c [] ts = omega arith
above_all-append c (s ∷ ss) ts = omega (arith, above_all-append c ss ts)

pub above_all_anti : (c k : ℕ) (ss : List (List ℕ)) → c ≤ k → above_all k ss ≤ above_all c ss
unfolding above_all
above_all_anti c k [] h = omega arith
above_all_anti c k (s ∷ ss) h = omega (arith, above_anti c k s h, above_all_anti c k ss h)

-- What remains to be done shrinks when the bound moves to another element, and when a set is matched.
pub shrinks :
    (a b lists m : ℕ) → a < b → m < lists → a * lists + (lists - 1) < b * lists + (lists - m)
shrinks a b lists m h l = grind (arith, h, l)
