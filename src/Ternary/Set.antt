-- ===== src/Ternary/Set.antt =====
-- `set<Value>` of ternary.hh, as an increasing list.
use napsteresque.Base.{
  ℕ, ◌≤◌, ◌<◌, ◌≡◌, refl, Bool, true, false, List, [], ◌∷◌, compare, Ordering, ◌==◌, if◌then◌else◌,
  arith,
}

unfoldable pub set_insert : ℕ → List ℕ → List ℕ
set_insert v [] = v ∷ []
set_insert v (x ∷ xs) = elim (compare v x) [
  | Ordering.lt ↦ v ∷ x ∷ xs
  | Ordering.eq ↦ x ∷ xs
  | Ordering.gt ↦ x ∷ set_insert v xs
]

unfoldable pub set_erase : ℕ → List ℕ → List ℕ
set_erase v [] = []
set_erase v (x ∷ xs) = if v == x then xs else x ∷ set_erase v xs

unfoldable pub contains : ℕ → List ℕ → Bool
contains v [] = false
contains v (x ∷ xs) = if v == x then true else contains v xs

-- Increasing, from a bound.
abbrev pub Above : ℕ → List ℕ → Type 0
Above b [] = Unit {0}
Above b (x ∷ xs) = (b < x) × Above x xs

abbrev pub IsIncreasing : List ℕ → Type 0
IsIncreasing [] = Unit {0}
IsIncreasing (x ∷ xs) = Above x xs

pub contains-set_insert :
    (v w : ℕ) (xs : List ℕ)
    → contains w (set_insert v xs) ≡ (if w == v then true else contains w xs)
unfolding contains set_insert
contains-set_insert v w [] = refl
contains-set_insert v w (x ∷ xs) = ground (arith, contains-set_insert v w xs)

contains-Above : (v b : ℕ) (xs : List ℕ) → Above b xs → v ≤ b → contains v xs ≡ false
unfolding contains
contains-Above v b [] a h = refl
contains-Above v b (x ∷ xs) a h = ground (arith, contains-Above v x xs)

Above-mono : (a b : ℕ) (xs : List ℕ) → a < b → Above b xs → Above a xs
Above-mono a b [] h k = tt
Above-mono a b (x ∷ xs) h k = (omega arith, k.1)

set_insert-Above : (v b : ℕ) (xs : List ℕ) → b < v → Above b xs → Above b (set_insert v xs)
unfolding set_insert
set_insert-Above v b [] h k = (h, tt)
set_insert-Above v b (x ∷ xs) h k = ground (arith, set_insert-Above v x xs)

set_erase-Above : (v b : ℕ) (xs : List ℕ) → Above b xs → Above b (set_erase v xs)
unfolding set_erase
set_erase-Above v b [] k = tt
set_erase-Above v b (x ∷ xs) k = ground (arith, set_erase-Above v x xs, Above-mono b x xs)

pub set_insert-IsIncreasing :
    (v : ℕ) (xs : List ℕ) → IsIncreasing xs → IsIncreasing (set_insert v xs)
unfolding set_insert
set_insert-IsIncreasing v [] k = tt
set_insert-IsIncreasing v (x ∷ xs) k = ground (arith, set_insert-Above v x xs)

pub Above-IsIncreasing : (b : ℕ) (xs : List ℕ) → Above b xs → IsIncreasing xs
Above-IsIncreasing b [] k = tt
Above-IsIncreasing b (x ∷ xs) k = k.1

pub set_erase-IsIncreasing : (v : ℕ) (xs : List ℕ) → IsIncreasing xs → IsIncreasing (set_erase v xs)
unfolding set_erase
set_erase-IsIncreasing v [] k = tt
set_erase-IsIncreasing v (x ∷ xs) k =
    ground (arith, set_erase-Above v x xs, Above-IsIncreasing x xs)

pub contains-set_erase :
    (v w : ℕ) (xs : List ℕ)
    → IsIncreasing xs
    → contains w (set_erase v xs) ≡ (if w == v then false else contains w xs)
unfolding contains set_erase
contains-set_erase v w [] k = ground arith
contains-set_erase v w (x ∷ xs) k =
    ground (arith, contains-set_erase v w xs, contains-Above w x xs k, Above-IsIncreasing x xs k)
