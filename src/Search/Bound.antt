-- ===== src/Search/Bound.antt =====
-- search.cc: the elements of a set from a bound on.
use mathlib.Core.Bool.{true≢false}
use napsteresque.Base.{
  ℕ, suc, ◌≤◌, ◌<◌, ◌≡◌, refl, sym, true, false, ◌⊎◌, inl, inr, List, [], ◌∷◌, ltb, ◌==◌,
  if◌then◌else◌, All, arith, Bool-cases, length,
}
use napsteresque.Search.{has, lower_bound}

-- A set in increasing order.
abbrev pub IsIncreasing : List ℕ → Type 0
IsIncreasing [] = Unit
IsIncreasing (x ∷ s) = All (λ y. x < y) s × IsIncreasing s

-- The number of elements above a bound.
unfoldable pub above : ℕ → List ℕ → ℕ
above c [] = 0
above c (x ∷ s) = if ltb c x then suc (above c s) else above c s

pub above_anti : (c k : ℕ) (s : List ℕ) → c ≤ k → above k s ≤ above c s
unfolding above
above_anti c k [] h = omega arith
above_anti c k (x ∷ s) h = ground (arith, above_anti c k s h)

pub above_lt : (c k : ℕ) (s : List ℕ) → c < k → has s k ≡ true → above k s < above c s
unfolding above has
above_lt c k [] h e = absurd (true≢false (sym e))
above_lt c k (x ∷ s) h e =
    let a = above_anti c k s (omega (arith, h)) in
    elim (Bool-cases (x == k)) [
      | inl same ↦ ground (arith, a, h, same)
      | inr other ↦
          let behind : has s k ≡ true = ground (arith, e, other) in
          ground (arith, a, h, other, above_lt c k s h behind)
    ]

pub above_le : (c : ℕ) (s : List ℕ) → above c s ≤ length s
unfolding above
above_le c [] = omega arith
above_le c (x ∷ s) = ground (arith, above_le c s)

pub has-above : (k x : ℕ) (s : List ℕ) → All (λ y. k < y) s → x ≤ k → has s x ≡ false
unfolding has
has-above k x [] h l = refl
has-above k x (y ∷ s) (h, hs) l = ground (arith, h, l, has-above k x s hs l)

-- What `lower_bound` finds, and what the element behind it is.
pub lower_bound-cases :
    (c : ℕ) (s : List ℕ)
    → IsIncreasing s
    → ((lower_bound c s ≡ []) × ((x : ℕ) → c ≤ x → has s x ≡ false))
      ⊎ ((k : ℕ) × (rest : List ℕ) × (lower_bound c s ≡ k ∷ rest)
          × (c ≤ k)
          × (has s k ≡ true)
          × ((x : ℕ) → c ≤ x → x < k → has s x ≡ false)
          × ((x : ℕ) → k < x → has s x ≡ has rest x)
          × IsIncreasing rest
          × All (λ y. k < y) rest)
unfolding lower_bound has
lower_bound-cases c [] h = inl (refl, λ x l. refl)
lower_bound-cases c (x ∷ s) (h, hs) = elim (Bool-cases (ltb x c)) [
  | inl b ↦ elim (lower_bound-cases c s hs) [
    | inl (e, n) ↦ inl (rw (b, e) refl, λ y l. ground (arith, b, l, n y l))
    | inr (k, rest, e, l, m, n, r, i, a) ↦ inr (
      k,
      rest,
      rw (b, e) refl,
      l,
      ground (arith, b, l, m),
      (λ y l' u. ground (arith, b, l', n y l' u)),
      (λ y u. ground (arith, b, l, u, r y u)),
      i,
      a,
    )
  ]
  | inr b ↦ inr (
    x,
    s,
    rw b refl,
    ground (arith, b),
    ground arith,
    (λ y l u. ground (arith, u, has-above x y s h (omega (arith, u)))),
    (λ y u. ground (arith, u)),
    hs,
    h,
  )
]
