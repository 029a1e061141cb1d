-- ===== src/Search.antt =====
-- search.hh and search.cc: the merge of the sets of files under the words of a query. The code stands
-- under `#if 0` at this commit. A `File *` and a `Client *` is a number, a `set` the increasing list of
-- its elements.
pub mod Bound
pub mod Advance
pub mod Ring
pub mod Rounds
pub mod Merge
pub mod Answer
mod Examples
use napsteresque.Base.{
  ℕ, zero, suc, ◌+◌, ◌-◌, ◌*◌, ◌%◌, Bool, true, false, not, ◌&&◌, ◌||◌, Option, none, some, List,
  [], ◌∷◌, ◌++◌, ltb, leb, ◌==◌, if◌then◌else◌, length, null, ℤ, pos, negsuc, ◌-ℤ◌, eq_ℤ, leb_ℤ,
  backwards,
}
use mathlib.Core.Option

-- What a query asks of the speeds, each with the way to compare.
pub record Search : Type 0 where
  pub bitrate : ℤ
  pub bitrate_cmp : ℤ
  pub frequency : ℤ
  pub frequency_cmp : ℤ
  pub linespeed : ℤ
  pub linespeed_cmp : ℤ
  pub max_matches : ℕ

pub data Field : Type 0 where
  by_linespeed by_bitrate by_frequency : Field

abbrev pub value_of : Search → Field → ℤ
value_of s by_linespeed = s.linespeed
value_of s by_bitrate = s.bitrate
value_of s by_frequency = s.frequency

abbrev pub option_of : Search → Field → ℤ
option_of s by_linespeed = s.linespeed_cmp
option_of s by_bitrate = s.bitrate_cmp
option_of s by_frequency = s.frequency_cmp

-- `Search::Compare`
unfoldable pub compare_field : Search → Field → ℤ → Bool
compare_field s field comparator =
    let cmp = comparator -ℤ value_of s field in
    let option = option_of s field in
    if eq_ℤ option (pos 0)
    then eq_ℤ cmp (pos 0)
    else if eq_ℤ option (negsuc 0)
    then leb_ℤ cmp (pos 0)
    else if eq_ℤ option (pos 1)
    then leb_ℤ (pos 0) cmp
    else false

-- The fields of files and clients that the merge reads.
pub record Library : Type 0 where
  pub bitrate : ℕ → ℤ
  pub frequency : ℕ → ℤ
  pub client : ℕ → ℕ
  pub dataport : ℕ → ℕ
  pub linespeed : ℕ → ℤ

-- `find(x) != end()`
unfoldable pub has : List ℕ → ℕ → Bool
has [] x = false
has (y ∷ s) x = (y == x) || has s x

-- The loop over `sExclude`.
unfoldable pub excluded : List (List ℕ) → ℕ → Bool
unfolding has
excluded [] x = false
excluded (s ∷ ss) x = if has s x then true else excluded ss x

-- The condition on a file that is the same in both loops.
unfoldable pub fits : Search → Library → ℕ → ℕ → Bool
unfolding compare_field
fits s lib caller x =
    (not (lib.dataport caller == 0) || not (lib.dataport (lib.client x) == 0))
    && compare_field s by_bitrate (lib.bitrate x)
    && compare_field s by_frequency (lib.frequency x)
    && compare_field s by_linespeed (lib.linespeed (lib.client x))

-- `lower_bound`: the set from the first element that is not below.
unfoldable pub lower_bound : ℕ → List ℕ → List ℕ
lower_bound c [] = []
lower_bound c (x ∷ s) = let rest = lower_bound c s in if ltb x c then rest else x ∷ s

-- The loop over one set, with the number of matches that are left: what is found, in its order.
unfoldable pub scan : (ℕ → Bool) → ℕ → List ℕ → List ℕ
scan takes left [] = []
scan takes left (x ∷ s) =
    let next = scan takes (left - 1) s in
    let others = scan takes left s in
    if takes x then x ∷ (if leb left 1 then [] else next) else others

-- A round of the loop over several sets: it ends the loop, or gives the next `matches` and `curval`;
-- and it says whether `curval` is in all sets. Between a hit and its `matches = 1` the code also counts
-- `matches`, which nothing reads.
pub data Round : Type 0 where
  ends : Bool → Round
  goes : Bool → ℕ → ℕ → Round

abbrev pub after_hit : List ℕ → Round
after_hit [] = ends true
after_hit (k ∷ rest) = goes true 1 k

-- `matches` is an `unsigned char`.
unfoldable pub round : ℕ → ℕ → ℕ → List ℕ → Round
unfolding lower_bound
round lists m c s = elim (lower_bound c s) [
  | [] ↦ ends false
  | k ∷ rest ↦
      if not (k == c)
      then goes false 1 k
      else if (m + 1) % 256 == lists
      then after_hit rest
      else goes false ((m + 1) % 256) c
]

-- The loop, with a bound on its rounds, over the sets in the order in which they come next: what is
-- found, in its order; `none` where the bound is not enough.
unfoldable pub merge : (ℕ → Bool) → ℕ → ℕ → ℕ → ℕ → ℕ → List (List ℕ) → Option (List ℕ)
unfolding round
merge takes lists zero left m c ring = none
merge takes lists (suc fuel) left m c [] = none
merge takes lists (suc fuel) left m c (s ∷ ring) = elim (round lists m c s) [
  | ends hit ↦ some (if hit && takes c then c ∷ [] else [])
  | goes hit m' c' ↦
      let next = merge takes lists fuel (left - 1) m' c' (ring ++ s ∷ []) in
      let others = merge takes lists fuel left m' c' (ring ++ s ∷ []) in
      if hit && takes c
      then if leb left 1 then some (c ∷ []) else Option.map (λ (r : List ℕ). c ∷ r) next
      else others
]

-- The elements of the sets; the loop has a round for each and each set, and some more.
unfoldable pub total : List (List ℕ) → ℕ
total [] = 0
total (s ∷ ss) = length s + total ss

unfoldable pub rounds_of : List (List ℕ) → ℕ
unfolding total
rounds_of sets = total sets * length sets + length sets + 1

-- `Search::jmerge`: `master_list`, to whose front each file goes.
unfoldable pub jmerge : Search → Library → ℕ → List (List ℕ) → List (List ℕ) → Option (List ℕ)
unfolding fits excluded scan merge rounds_of
jmerge search lib caller [] exclude = none
jmerge search lib caller (s ∷ []) exclude = some (
    backwards
      (scan (λ x. fits search lib caller x && not (excluded exclude x)) search.max_matches s) [])
jmerge search lib caller (s ∷ t ∷ ss) exclude =
    let sets = s ∷ t ∷ ss in
    Option.map (λ (r : List ℕ). backwards r [])
      (merge
        (λ x. fits search lib caller x && not (caller == lib.client x) && not (excluded exclude x))
        (length sets) (rounds_of sets) search.max_matches 0 0 sets)

-- The loop of `Go`: the sets of the words that a file must have, or, behind a `-`, must not have. The
-- index gives the set of a word, empty where it has none.
unfoldable pub require : (List ℕ → List ℕ) → List (List ℕ) → List (List ℕ)
require index [] = []
require index ([] ∷ terms) =
    let rest = require index terms in if null (index []) then rest else index [] ∷ rest
require index ((x ∷ word) ∷ terms) =
    let rest = require index terms in
    if x == b'-' || null (index (x ∷ word)) then rest else index (x ∷ word) ∷ rest

unfoldable pub exclude : (List ℕ → List ℕ) → List (List ℕ) → List (List ℕ)
exclude index [] = []
exclude index ([] ∷ terms) = exclude index terms
exclude index ((x ∷ word) ∷ terms) =
    let rest = exclude index terms in
    if not (x == b'-') || null (index word) then rest else index word ∷ rest

-- What `Go` does with the sets: `master_list` and `matches`, where the merge ends.
unfoldable pub go_sets : Search → Library → ℕ → List (List ℕ) → List (List ℕ) → Option (List ℕ × ℕ)
unfolding jmerge
go_sets search lib caller [] without = some ([], 0)
go_sets search lib caller (s ∷ ss) without =
    Option.map (λ (r : List ℕ). (r, length r)) (jmerge search lib caller (s ∷ ss) without)

-- `Search::Go`
unfoldable pub go : Search → Library → ℕ → (List ℕ → List ℕ) → List (List ℕ) → Option (List ℕ × ℕ)
unfolding require exclude go_sets
go search lib caller index terms =
    go_sets search lib caller (require index terms) (exclude index terms)
