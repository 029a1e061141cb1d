-- ===== src/Strsep.antt =====
-- functions.cc: my_strsep.
pub mod Fields
mod Examples
use napsteresque.Base.{ℕ, Bool, true, false, Option, none, some, List, [], ◌∷◌, ◌==◌, if◌then◌else◌}
use napsteresque.Args.{strchr}

-- Whether a character stands in `delim`.
unfoldable pub among : ℕ → List ℕ → Bool
among c [] = false
among c (d ∷ ds) = if c == d then true else among c ds

-- `strpbrk`: what stands before the first character of `delim`, and what follows it.
unfoldable pub strpbrk : List ℕ → List ℕ → Option (List ℕ × List ℕ)
unfolding among
strpbrk [] ds = none
strpbrk (c ∷ s) ds =
    let rest = strpbrk s ds in
    if among c ds
    then some ([], s)
    else elim rest [ none ↦ none | some (word, after) ↦ some (c ∷ word, after) ]

-- The end of the first field where `delim` is one character.
unfoldable pub one_end : List ℕ → ℕ → Option (List ℕ × List ℕ)
unfolding strchr
one_end [] ch = none
one_end (c ∷ s) ch =
    if c == ch
    then some ([], s)
    else elim (strchr ch s) [ none ↦ none | some (word, after) ↦ some (c ∷ word, after) ]

-- `end`, as the field and the rest.
unfoldable pub field_end : List ℕ → List ℕ → Option (List ℕ × List ℕ)
unfolding one_end strpbrk
field_end s [] = none
field_end s (ch ∷ []) = one_end s ch
field_end s (a ∷ b ∷ ds) = strpbrk s (a ∷ b ∷ ds)

-- `my_strsep`: the field that it returns, NULL as `none`, and the new `*stringp`.
unfoldable pub my_strsep : Option (List ℕ) → List ℕ → Option (List ℕ) × Option (List ℕ)
unfolding field_end
my_strsep none delim = (none, none)
my_strsep (some s) delim = elim (field_end s delim) [
  | none ↦ (some s, none)
  | some (word, after) ↦ (some word, some after)
]
