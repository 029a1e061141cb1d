-- ===== src/Args/Shrinks.antt =====
-- functions.cc: an argument that is found leaves less of the text.
use mathlib.Core.Path.{subst}
use napsteresque.Base.{
  ℕ, suc, ◌≤◌, ◌<◌, ◌≡◌, ◌⊎◌, refl, false, Option, none, some, List, [], ◌∷◌, ◌==◌, null, length,
  arith, Bool-cases, inl, inr, Option-cases,
}
use napsteresque.Args.{
  strchr, skip_spaces, before_last_quote, starts_quoted, rest_of, Next, quoted, last_quoted,
  next_in, get_next_argument, get_next_argument_limited,
}

-- What is left of a text, with the NUL.
abbrev pub size : Option (List ℕ) → ℕ
size none = 0
size (some s) = suc (length s)

abbrev Shorter : Option (List ℕ × List ℕ) → List ℕ → Type 0
Shorter none s = Unit
Shorter (some r) s = length (r.1) < length s

strchr-Shorter : (c : ℕ) (s : List ℕ) → Shorter (strchr c s) s
unfolding strchr
strchr-Shorter c [] = tt
strchr-Shorter c (x ∷ s) = elim (Bool-cases (x == c)) [
  | inl b ↦ rw b (omega arith)
  | inr b ↦
      let rest = strchr-Shorter c s in
      elim (Option-cases (strchr c s)) [
        | inl e ↦ rw (b, e) tt
        | inr (r, e) ↦
            let known : length (r.1) < length s =
              subst (λ (o : Option (List ℕ × List ℕ)). Shorter o s) e rest in
            rw (b, e) (omega (arith, known))
      ]
]

skip_spaces_shorter : (s : List ℕ) → length (skip_spaces s) ≤ length s
unfolding skip_spaces
skip_spaces_shorter [] = omega arith
skip_spaces_shorter (x ∷ s) = ground (arith, skip_spaces_shorter s)

-- Where an argument is found, less is left.
abbrev pub Leaves : Next → ℕ → Type 0
Leaves n k = (n.found ≡ false) ⊎ (size n.src < k)

quoted-Leaves : (s : List ℕ) → Leaves (quoted s) (suc (length s))
unfolding quoted
quoted-Leaves s = elim (Option-cases (strchr b'"' s)) [
  | inl e ↦ rw (quoted, e) (inl refl)
  | inr (r, e) ↦
      let less = subst (λ (o : Option (List ℕ × List ℕ)). Shorter o s) e (strchr-Shorter b'"' s) in
      rw (quoted, e) (inr (omega (arith, less, skip_spaces_shorter (r.1))))
]

last_quoted-Leaves : (s : List ℕ) → Leaves (last_quoted s) (suc (length s))
unfolding last_quoted
last_quoted-Leaves [] = inl refl
last_quoted-Leaves (x ∷ s) = elim (Option-cases (before_last_quote (x ∷ s))) [
  | inl e ↦ rw (last_quoted, e) (inl refl)
  | inr (p, e) ↦ elim (Bool-cases (null p)) [
    | inl b ↦ rw (last_quoted, e, b) (inl refl)
    | inr b ↦ rw (last_quoted, e, b) (inr (omega arith))
  ]
]

length-rest_of : (s : List ℕ) → length (rest_of s) ≤ length s
length-rest_of [] = omega arith
length-rest_of (x ∷ s) = omega arith

weaker :
    (n : Next) (s t : List ℕ)
    → length t ≤ length s
    → Leaves n (suc (length t))
    → Leaves n (suc (length s))
weaker n s t h (inl f) = inl f
weaker n s t h (inr l) = inr (omega (arith, h, l))

next_in-Leaves : (s : List ℕ) → Leaves (next_in s) (suc (length s))
unfolding next_in
next_in-Leaves s = elim (Bool-cases (starts_quoted s)) [
  | inl q ↦ elim (Option-cases (strchr b' ' s)) [
    | inl e ↦
        rw (next_in, e, q)
          (weaker (last_quoted (rest_of s)) s (rest_of s) (length-rest_of s)
            (last_quoted-Leaves (rest_of s)))
    | inr (r, e) ↦
        rw (next_in, e, q)
          (weaker (quoted (rest_of s)) s (rest_of s) (length-rest_of s) (quoted-Leaves (rest_of s)))
  ]
  | inr q ↦ elim (Option-cases (strchr b' ' s)) [
    | inl e ↦ rw (next_in, e, q) (inr (omega arith))
    | inr (r, e) ↦
        let less =
          subst (λ (o : Option (List ℕ × List ℕ)). Shorter o s) e (strchr-Shorter b' ' s) in
        rw (next_in, e, q) (inr (omega (arith, less, skip_spaces_shorter (r.1))))
  ]
]

pub get_next_argument-Leaves :
    (src : Option (List ℕ)) (limit : ℕ) → Leaves (get_next_argument_limited src limit) (size src)
unfolding get_next_argument_limited get_next_argument
get_next_argument-Leaves none limit = inl refl
get_next_argument-Leaves (some s) limit = elim (next_in-Leaves s) [
  | inl f ↦ inl (rw f refl)
  | inr l ↦ inr l
]
