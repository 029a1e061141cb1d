-- ===== src/Search/Answer.antt =====
-- search.cc: `jmerge` against a search of the first set.
use mathlib.Core.Bool.{true≢false}
use napsteresque.Base.{
  ℕ, suc, ◌+◌, ◌-◌, ◌*◌, ◌≤◌, ◌<◌, ◌≡◌, refl, sym, ap, ◌∙◌, Bool, true, false, not, ◌&&◌, ◌||◌,
  null, inl, inr, some, List, [], ◌∷◌, leb, ◌==◌, All, arith, Bool-cases, length, take, backwards,
}
use mathlib.Core.List.{append-nil}
use mathlib.Core.Option
use napsteresque.Search.{
  Search, Library, has, excluded, fits, scan, merge, total, rounds_of, jmerge, require, exclude,
  go_sets, go,
}
use napsteresque.Search.Bound.{IsIncreasing, above_le}
use napsteresque.Search.Advance.{select, from, select_cong, all_have, above_all}
use napsteresque.Search.Ring.{Ready}
use napsteresque.Search.Merge.{merge-found}

scan-select :
    (takes : ℕ → Bool) (left : ℕ) (s : List ℕ)
    → scan takes left s ≡ take (suc (left - 1)) (select takes s)
unfolding scan select
scan-select takes left [] = refl
scan-select takes left (x ∷ s) = elim (Bool-cases (takes x)) [
  | inr n ↦ rw (n, scan-select takes left s) refl
  | inl t ↦ elim (Bool-cases (leb left 1)) [
    | inl b ↦ let spent : left - 1 ≡ 0 = ground (arith, b) in rw (t, b, spent) refl
    | inr b ↦
        let more : left - 1 ≡ suc (left - 1 - 1) = ground (arith, b) in
        rw (t, b)
          (ap (λ r. x ∷ r)
            (scan-select takes (left - 1) s ∙ ap (λ n. take n (select takes s)) (sym more)))
  ]
]

above_all_le : (c : ℕ) (ss : List (List ℕ)) → above_all c ss ≤ total ss
unfolding above_all total
above_all_le c [] = omega arith
above_all_le c (s ∷ ss) = omega (arith, above_le c s, above_all_le c ss)

enough_rounds : (a b lists : ℕ) → a ≤ b → a * lists + (lists - 0) < b * lists + lists + 1
enough_rounds a b lists h = grind (arith, h)

first_has : (s : List ℕ) (ss : List (List ℕ)) (x : ℕ) → all_have (s ∷ ss) x ≡ true → has s x ≡ true
unfolding all_have
first_has s ss x h = elim (Bool-cases (has s x)) [
  | inl t ↦ t
  | inr n ↦
      let out : all_have (s ∷ ss) x ≡ false = rw (all_have, n) refl in
      absurd (true≢false (sym h ∙ out))
]

-- The state with which the loop starts.
initial-Ready :
    (takes : ℕ → Bool) (sets : List (List ℕ)) (several : 2 ≤ length sets)
    (small : length sets < 256)
    → All IsIncreasing sets
    → Ready takes (length sets) several small (all_have sets) (rounds_of sets) 0 0 sets []
unfolding rounds_of
initial-Ready takes sets several small i = record {
  long = ap length (append-nil sets);
  matched = refl;
  few = omega (arith, several);
  sorted = rw append-nil i;
  have = tt;
  same = λ x. ap (λ t. all_have t x) (append-nil sets);
  enough =
      rw append-nil
        (enough_rounds (above_all 0 sets) (total sets) (length sets) (above_all_le 0 sets));
}

from_zero : (f : ℕ → Bool) (s : List ℕ) → select (from 0 f) s ≡ select f s
from_zero f s =
    select_cong (from 0 f) f s (λ x. (let b : leb 0 x ≡ true = ground arith in rw b refl))

-- What a query finds, in the order of the sets: the files of the first set that are in all, that fit
-- the query, and that no excluded word has; of several sets, none that the caller has.
unfoldable pub expected : Search → Library → ℕ → List ℕ → List (List ℕ) → List (List ℕ) → List ℕ
unfolding select all_have
expected search lib caller s [] exclude =
    select (λ x. fits search lib caller x && not (excluded exclude x)) s
expected search lib caller s (t ∷ ss) exclude =
    select
      (λ x.
        all_have (s ∷ t ∷ ss) x
        && (fits search lib caller x && not (caller == lib.client x) && not (excluded exclude x)))
      s

jmerge-expected :
    (search : Search) (lib : Library) (caller : ℕ) (s : List ℕ) (ss exclude : List (List ℕ))
    → IsIncreasing s
    → All IsIncreasing ss
    → length (s ∷ ss) < 256
    → jmerge search lib caller (s ∷ ss) exclude
      ≡ some (
          backwards
            (take (suc (search.max_matches - 1)) (expected search lib caller s ss exclude))
            [])
unfolding jmerge expected
jmerge-expected search lib caller s [] exclude i is_ h =
    ap (λ r. some (backwards r []))
      (scan-select (λ x. fits search lib caller x && not (excluded exclude x)) search.max_matches s)
jmerge-expected search lib caller s (t ∷ ss) exclude i is_ h =
    let sets = s ∷ t ∷ ss in
    let takes = λ (x : ℕ).
      fits search lib caller x && not (caller == lib.client x) && not (excluded exclude x) in
    let several : 2 ≤ length sets = omega arith in
    let start : Ready takes (length sets) several h (all_have sets) (rounds_of sets) 0 0 sets [] =
      initial-Ready takes sets several h (i, is_) in
    ap (Option.map (λ (r : List ℕ). backwards r [])) (
      ap (merge takes (length sets) (rounds_of sets) search.max_matches 0 0) (sym (append-nil sets))
      ∙ merge-found takes (length sets) several h (all_have sets) s i (first_has s (t ∷ ss))
          (rounds_of sets) search.max_matches 0 0 sets [] start)
    ∙ ap (λ r. some (backwards (take (suc (search.max_matches - 1)) r) []))
        (from_zero
          (λ x.
            all_have sets x
            && (fits search lib caller x
                && not (caller == lib.client x)
                && not (excluded exclude x)))
          s)

require-IsIncreasing :
    (index : List ℕ → List ℕ) (terms : List (List ℕ))
    → ((word : List ℕ) → IsIncreasing (index word))
    → All IsIncreasing (require index terms)
unfolding require
require-IsIncreasing index [] h = tt
require-IsIncreasing index ([] ∷ terms) h = elim (Bool-cases (null (index []))) [
  | inl e ↦ rw e (require-IsIncreasing index terms h)
  | inr n ↦ rw n (h [], require-IsIncreasing index terms h)
]
require-IsIncreasing index ((x ∷ word) ∷ terms) h =
    elim (Bool-cases (x == b'-' || null (index (x ∷ word)))) [
      | inl e ↦ rw e (require-IsIncreasing index terms h)
      | inr n ↦ rw n (h (x ∷ word), require-IsIncreasing index terms h)
    ]

length-require :
    (index : List ℕ → List ℕ) (terms : List (List ℕ)) → length (require index terms) ≤ length terms
unfolding require
length-require index [] = omega arith
length-require index ([] ∷ terms) = ground (arith, length-require index terms)
length-require index ((x ∷ word) ∷ terms) = ground (arith, length-require index terms)

-- The answer to the sets of a query, and its size.
unfoldable pub answer : Search → Library → ℕ → List (List ℕ) → List (List ℕ) → List ℕ × ℕ
unfolding expected
answer search lib caller [] exclude = ([], 0)
answer search lib caller (s ∷ ss) exclude =
    let found =
      backwards (take (suc (search.max_matches - 1)) (expected search lib caller s ss exclude))
        [] in
    (found, length found)

go_sets-answer :
    (search : Search) (lib : Library) (caller : ℕ) (sets without : List (List ℕ))
    → All IsIncreasing sets
    → length sets < 256
    → go_sets search lib caller sets without ≡ some (answer search lib caller sets without)
unfolding go_sets answer
go_sets-answer search lib caller [] without i h = refl
go_sets-answer search lib caller (s ∷ ss) without (i, is_) h =
    ap (Option.map (λ (r : List ℕ). (r, length r)))
      (jmerge-expected search lib caller s ss without i is_ h)

-- A query of fewer than 256 words, over an index of sets, comes to an end; its list is the first files
-- that the query finds, as many as it may find and at least one, the last of them first, and
-- `matches` is their number. A word that the index does not have is not required, and no file is found
-- where no word is.
pub go-answer :
    (search : Search) (lib : Library) (caller : ℕ) (index : List ℕ → List ℕ) (terms : List (List ℕ))
    → ((word : List ℕ) → IsIncreasing (index word))
    → length terms < 256
    → go search lib caller index terms
      ≡ some (answer search lib caller (require index terms) (exclude index terms))
unfolding go
go-answer search lib caller index terms i h =
    go_sets-answer search lib caller (require index terms) (exclude index terms)
      (require-IsIncreasing index terms i) (omega (arith, length-require index terms, h))
