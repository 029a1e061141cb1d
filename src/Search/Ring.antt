-- ===== src/Search/Ring.antt =====
-- search.cc: the sets of a query in the order in which the loop of `jmerge` comes to them.
use mathlib.Core.List.{append_assoc}
use napsteresque.Base.{
  ℕ, suc, ◌+◌, ◌-◌, ◌*◌, ◌≤◌, ◌<◌, ◌≡◌, refl, sym, ap, ◌∙◌, Bool, true, false, ◌&&◌, List, [], ◌∷◌,
  ◌++◌, All, arith, length, length-append,
}
use napsteresque.Search.{has}
use napsteresque.Search.Bound.{IsIncreasing, above_lt}
use napsteresque.Search.Advance.{
  all_have, all_have-append, above_all, above_all-append, above_all_anti, shrinks,
}

All-append : (P : List ℕ → Type 0) (ss ts : List (List ℕ)) → All P ss → All P ts → All P (ss ++ ts)
All-append P [] ts h k = k
All-append P (s ∷ ss) ts (h, hs) k = (h, All-append P ss ts hs k)

pub all_have-All :
    (c : ℕ) (ss : List (List ℕ)) → All (λ s. has s c ≡ true) ss → all_have ss c ≡ true
unfolding all_have
all_have-All c [] h = refl
all_have-All c (s ∷ ss) (h, hs) = rw (h, all_have-All c ss hs) refl

and_comm : (a b : Bool) → (a && b) ≡ (b && a)
and_comm true true = refl
and_comm true false = refl
and_comm false true = refl
and_comm false false = refl

and_true : (a : Bool) → (a && true) ≡ a
and_true true = refl
and_true false = refl

-- To take the set in front to the end changes neither what is in all sets nor what is left to do.
rotated-have :
    (s : List ℕ) (ring : List (List ℕ)) (x : ℕ)
    → all_have (ring ++ s ∷ []) x ≡ all_have (s ∷ ring) x
unfolding all_have
rotated-have s ring x =
    all_have-append ring (s ∷ []) x
    ∙ and_comm (all_have ring x) (has s x && true)
    ∙ ap (λ b. b && all_have ring x) (and_true (has s x))

rotated-above :
    (s : List ℕ) (ring : List (List ℕ)) (c : ℕ)
    → above_all c (ring ++ s ∷ []) ≡ above_all c (s ∷ ring)
unfolding above_all
rotated-above s ring c = omega (arith, above_all-append c ring (s ∷ []))

module _ (takes : ℕ → Bool) (lists : ℕ) (several : 2 ≤ lists) (small : lists < 256)
    (in_all : ℕ → Bool) where
  -- The last `m` sets of the ring have `c`, and the bound on the rounds is enough.
  pub record Ready (fuel m c : ℕ) (front back : List (List ℕ)) : Type 0 where
    pub long : length (front ++ back) ≡ lists
    pub matched : length back ≡ m
    pub few : m < lists
    pub sorted : All IsIncreasing (front ++ back)
    pub have : All (λ s. has s c ≡ true) back
    pub same : (x : ℕ) → all_have (front ++ back) x ≡ in_all x
    pub enough : above_all c (front ++ back) * lists + (lists - m) < fuel

  pub moves-Ready :
      (fuel m c k : ℕ) (s : List ℕ) (front back : List (List ℕ))
      → Ready (suc fuel) m c (s ∷ front) back
      → c < k
      → has s k ≡ true
      → Ready fuel 1 k (front ++ back) (s ∷ [])
  unfolding above_all
  moves-Ready fuel m c k s front back r l h =
      let ring = front ++ back in
      let less : above_all k (ring ++ s ∷ []) < above_all c (s ∷ ring) = omega (
        arith,
        rotated-above s ring k,
        above_lt c k s l h,
        above_all_anti c k ring (omega (arith, l)),
      ) in
      record {
        long = length-append ring (s ∷ []) ∙ omega (arith, r.long);
        matched = refl;
        few = omega (arith, several);
        sorted = All-append IsIncreasing ring (s ∷ []) r.sorted.1 (r.sorted.0, tt);
        have = (h, tt);
        same = λ x. rotated-have s ring x ∙ r.same x;
        enough = omega (
          arith,
          shrinks (above_all k (ring ++ s ∷ [])) (above_all c (s ∷ ring)) lists m less r.few,
          r.enough,
        );
      }

  pub match-Ready :
      (fuel m c : ℕ) (s : List ℕ) (front back : List (List ℕ))
      → Ready (suc fuel) m c (s ∷ front) back
      → m + 1 < lists
      → has s c ≡ true
      → Ready fuel (m + 1) c front (back ++ s ∷ [])
  match-Ready fuel m c s front back r l h =
      let ring = front ++ back in
      let turned : front ++ (back ++ s ∷ []) ≡ ring ++ s ∷ [] =
        sym (append_assoc front back (s ∷ [])) in
      let same_work : above_all c (ring ++ s ∷ []) * lists ≡ above_all c (s ∷ ring) * lists =
        ap (λ n. n * lists) (rotated-above s ring c) in
      record {
        long = ap length turned ∙ length-append ring (s ∷ []) ∙ omega (arith, r.long);
        matched = length-append back (s ∷ []) ∙ omega (arith, r.matched);
        few = l;
        sorted = rw turned (All-append IsIncreasing ring (s ∷ []) r.sorted.1 (r.sorted.0, tt));
        have = All-append (λ t. has t c ≡ true) back (s ∷ []) r.have (h, tt);
        same = λ x. ap (λ t. all_have t x) turned ∙ rotated-have s ring x ∙ r.same x;
        enough = rw turned (omega (arith, same_work, r.enough, l));
      }
