-- ===== src/Search/Rounds.antt =====
-- search.cc: the ways on from a round of the loop of `jmerge`.
use mathlib.Core.Option
use napsteresque.Base.{
  ℕ, suc, ◌+◌, ◌-◌, ◌%◌, ◌<◌, ◌≡◌, refl, Bool, true, false, ◌&&◌, inl, inr, some, List, [], ◌∷◌,
  ◌++◌, leb, ◌==◌, if◌then◌else◌, All, arith, Bool-cases, take, ==_refl,
}
use napsteresque.Search.{has, lower_bound, ends, goes, after_hit, round, merge}
use napsteresque.Search.Bound.{has-above}

module _ (lists m c : ℕ) (s : List ℕ) where
  pub round_past : lower_bound c s ≡ [] → round lists m c s ≡ ends false
  unfolding round
  round_past e = rw (round, e) refl

  pub round_moves :
      (k : ℕ) (rest : List ℕ)
      → lower_bound c s ≡ k ∷ rest
      → (k == c) ≡ false
      → round lists m c s ≡ goes false 1 k
  unfolding round
  round_moves k rest e n = rw (round, e, n) refl

  pub round_matches :
      (rest : List ℕ)
      → lower_bound c s ≡ c ∷ rest
      → m + 1 < lists
      → lists < 256
      → round lists m c s ≡ goes false (m + 1) c
  unfolding round
  round_matches rest e l h =
      let whole : (m + 1) % 256 ≡ m + 1 = omega (arith, l, h) in
      let more : (m + 1 == lists) ≡ false = ground (arith, l) in
      rw (round, e, ==_refl c, whole, more) refl

  pub round_hits :
      (rest : List ℕ)
      → lower_bound c s ≡ c ∷ rest
      → m + 1 ≡ lists
      → lists < 256
      → round lists m c s ≡ after_hit rest
  unfolding round
  round_hits rest e l h =
      let whole : ((m + 1) % 256 == lists) ≡ true =
        (let w : (m + 1) % 256 ≡ lists = omega (arith, l, h) in rw w (==_refl lists)) in
      rw (round, e, ==_refl c, whole) refl

pub take_left :
    (left c : ℕ) (xs : List ℕ)
    → (c ∷ take (left - 1) xs) ≡ (if leb left 1 then c ∷ [] else c ∷ take (suc (left - 1 - 1)) xs)
take_left left c xs = elim (Bool-cases (leb left 1)) [
  | inl b ↦ let spent : left - 1 ≡ 0 = ground (arith, b) in rw (b, spent) refl
  | inr b ↦ let more : suc (left - 1 - 1) ≡ left - 1 = ground (arith, b) in rw (b, more) refl
]

pub ends_eq :
    (b d : Bool) (c : ℕ)
    → (if b then if d then c ∷ [] else c ∷ [] else []) ≡ (if b then c ∷ [] else [])
ends_eq true true c = refl
ends_eq true false c = refl
ends_eq false d c = refl

pub goes_eq :
    (b d : Bool) (c : ℕ) (xs ys : List ℕ)
    → (if b
        then if d then some (c ∷ []) else Option.map (λ (r : List ℕ). c ∷ r) (some xs)
        else some ys)
      ≡ some (if b then if d then c ∷ [] else c ∷ xs else ys)
goes_eq true true c xs ys = refl
goes_eq true false c xs ys = refl
goes_eq false d c xs ys = refl

pub not_before :
    (k x : ℕ) (rest : List ℕ) → All (λ y. k < y) rest → x < k → has (k ∷ rest) x ≡ false
unfolding has
not_before k x rest a u = ground (arith, u, has-above k x rest a (omega (arith, u)))

-- The ways on from a round.
module _ (takes : ℕ → Bool) (lists fuel left m c : ℕ) (s : List ℕ) (ring : List (List ℕ)) where
  pub merge_ends :
      (hit : Bool)
      → round lists m c s ≡ ends hit
      → merge takes lists (suc fuel) left m c (s ∷ ring)
        ≡ some (if hit && takes c then c ∷ [] else [])
  unfolding merge
  merge_ends hit e = rw (merge, e) refl

  pub merge_goes :
      (hit : Bool) (m' c' : ℕ)
      → round lists m c s ≡ goes hit m' c'
      → merge takes lists (suc fuel) left m c (s ∷ ring) ≡ (
          if hit && takes c
          then if leb left 1
            then some (c ∷ [])
            else Option.map
                (λ (r : List ℕ). c ∷ r)
                (merge takes lists fuel (left - 1) m' c' (ring ++ s ∷ []))
          else merge takes lists fuel left m' c' (ring ++ s ∷ []))
  unfolding merge
  merge_goes hit m' c' e = rw (merge, e) refl
