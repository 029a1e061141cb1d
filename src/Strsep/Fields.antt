-- ===== src/Strsep/Fields.antt =====
-- functions.cc: my_strsep takes off the text before the first delimiter, by either of its searches.
use mathlib.Core.Path.{subst}
use napsteresque.Base.{
  ℕ, ◌≡◌, refl, ap, true, false, Option, none, some, List, [], ◌∷◌, ◌++◌, ◌==◌, All, arith,
  Option-cases, Bool-cases, inl, inr,
}
use napsteresque.Args.{strchr}
use napsteresque.Strsep.{among, strpbrk, one_end, field_end, my_strsep}

among_one : (c ch : ℕ) → among c (ch ∷ []) ≡ (c == ch)
unfolding among
among_one c ch = ground arith

strchr-strpbrk : (s : List ℕ) (ch : ℕ) → strchr ch s ≡ strpbrk s (ch ∷ [])
unfolding strchr strpbrk
strchr-strpbrk [] ch = refl
strchr-strpbrk (c ∷ s) ch = elim (Bool-cases (c == ch)) [
  | inl k ↦ rw (among_one c ch, k) refl
  | inr k ↦ rw (among_one c ch, k, strchr-strpbrk s ch) refl
]

one_end-strpbrk : (s : List ℕ) (ch : ℕ) → one_end s ch ≡ strpbrk s (ch ∷ [])
unfolding one_end strpbrk
one_end-strpbrk [] ch = refl
one_end-strpbrk (c ∷ s) ch = elim (Bool-cases (c == ch)) [
  | inl k ↦ rw (among_one c ch, k) refl
  | inr k ↦ rw (among_one c ch, k, strchr-strpbrk s ch) refl
]

abbrev pub NoneAmong : List ℕ → List ℕ → Type 0
NoneAmong ds = All (λ c. among c ds ≡ false)

-- The first field of a text and the text behind it, NULL where no delimiter is in the text.
abbrev pub IsField : List ℕ → List ℕ → Option (List ℕ) × Option (List ℕ) → Type 0
IsField s ds (none, rest) = ⊥
IsField s ds (some f, none) = (f ≡ s) × NoneAmong ds f
IsField s ds (some f, some rest) =
    (d : ℕ) × (among d ds ≡ true) × (s ≡ f ++ d ∷ rest) × NoneAmong ds f

unfoldable at_end : List ℕ → Option (List ℕ × List ℕ) → Option (List ℕ) × Option (List ℕ)
at_end s none = (some s, none)
at_end s (some (word, rest)) = (some word, some rest)

strpbrk-IsField : (s ds : List ℕ) → IsField s ds (at_end s (strpbrk s ds))
unfolding at_end strpbrk
strpbrk-IsField [] ds = (refl, tt)
strpbrk-IsField (c ∷ s) ds = elim (Bool-cases (among c ds)) [
  | inl k ↦ rw k (c, k, refl, tt)
  | inr k ↦ elim (Option-cases (strpbrk s ds)) [
    | inl m ↦
        let (e, clean) = subst (λ o. IsField s ds (at_end s o)) m (strpbrk-IsField s ds) in
        rw (k, m) (refl, (k, clean))
    | inr ((word, rest), m) ↦
        let (d, j, e, clean) = subst (λ o. IsField s ds (at_end s o)) m (strpbrk-IsField s ds) in
        rw (k, m) (d, j, ap (◌∷◌ c) e, (k, clean))
  ]
]

none_among : (s : List ℕ) → NoneAmong [] s
unfolding among
none_among [] = tt
none_among (c ∷ s) = (refl, none_among s)

field_end-IsField : (s ds : List ℕ) → IsField s ds (at_end s (field_end s ds))
unfolding at_end field_end
field_end-IsField s [] = (refl, none_among s)
field_end-IsField s (ch ∷ []) = rw (one_end-strpbrk s ch) (strpbrk-IsField s (ch ∷ []))
field_end-IsField s (a ∷ b ∷ ds) = strpbrk-IsField s (a ∷ b ∷ ds)

-- `my_strsep` returns the text before the first of the delimiters, whichever of its searches it uses,
-- and leaves the text behind that delimiter; without a delimiter in the text it returns the whole and
-- leaves NULL.
pub my_strsep-IsField : (s ds : List ℕ) → IsField s ds (my_strsep (some s) ds)
unfolding my_strsep at_end
my_strsep-IsField s ds = elim (Option-cases (field_end s ds)) [
  | inl m ↦ rw (m, my_strsep) (subst (λ o. IsField s ds (at_end s o)) m (field_end-IsField s ds))
  | inr ((word, rest), m) ↦
      rw (m, my_strsep) (subst (λ o. IsField s ds (at_end s o)) m (field_end-IsField s ds))
]
