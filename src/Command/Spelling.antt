-- ===== src/Command/Spelling.antt =====
-- command.cc: one argument of a text packet, as it is printed and as it is read.
use mathlib.Core.Bool.{true≢false}
use mathlib.Core.Option.{none-ne-some}
use mathlib.Core.List.{append_assoc}
use napsteresque.Base.{
  ℕ, ◌<◌, ◌≤◌, ◌^◌, ◌≡◌, refl, sym, ap, ◌∙◌, Bool, true, false, Option, none, some, List, [], ◌∷◌,
  ◌++◌, ◌==◌, if◌then◌else◌, length, null, arith, Bool-cases, Option-cases, inl, inr,
}
use napsteresque.Args.{strchr, skip_spaces, quoted, next_in}
use napsteresque.Command.{Arg, integer, string, octets, print_long, has_space, text}
use napsteresque.Command.Words.{
  Without, strchr-append, Unspaced, IsWord, next_in-word, next_in-last_word, print_long-IsWord,
  skip_spaces-Unspaced,
}

-- Arguments that text can carry: integers, and strings that are not empty and have no NUL and no quote.
abbrev pub Plain : Arg → Type 0
Plain (integer x) = x < 2 ^ 32
Plain (string s) = (1 ≤ length s) × Without b'"' s × Without 0 s
Plain (octets d) = ⊥

-- The argument as characters, without and with its quotes.
abbrev pub value : Arg → List ℕ
value (integer x) = print_long x
value (string s) = s
value (octets d) = d

abbrev pub in_quotes : Arg → Bool
in_quotes (integer x) = false
in_quotes (string s) = has_space s
in_quotes (octets d) = false

abbrev pub spelled : Arg → List ℕ
spelled x = if in_quotes x then b'"' ∷ (value x ++ b'"' ∷ []) else value x

pub text-spelled : (x : Arg) → Plain x → text x ≡ some (spelled x)
unfolding text
text-spelled (integer x) h = refl
text-spelled (string s) h = elim (Bool-cases (has_space s)) [
  | inl k ↦ rw k refl
  | inr k ↦ rw k refl
]
text-spelled (octets d) h = absurd h

strchr-Without : (c : ℕ) (s : List ℕ) → strchr c s ≡ none → Without c s
unfolding strchr
strchr-Without c [] h = tt
strchr-Without c (x ∷ s) h =
    let rest : strchr c s ≡ none = ground (arith, h) in
    ((λ e. ground (arith, h, e)), strchr-Without c s rest)

strchr_more :
    (c : ℕ) (s r : List ℕ) (p : List ℕ × List ℕ)
    → strchr c s ≡ some p
    → (q : List ℕ × List ℕ) × (strchr c (s ++ r) ≡ some q)
unfolding strchr
strchr_more c [] r p h = absurd (none-ne-some p h)
strchr_more c (x ∷ s) r p h = elim (Bool-cases (x == c)) [
  | inl k ↦ (([], s ++ r), rw k refl)
  | inr k ↦ elim (Option-cases (strchr c s)) [
    | inl m ↦
        let none_here : strchr c (x ∷ s) ≡ none = rw (k, m) refl in
        absurd (none-ne-some p (sym none_here ∙ h))
    | inr (o, m) ↦ let (q, e) = strchr_more c s r o m in ((x ∷ q.0, q.1), rw (k, e) refl)
  ]
]

-- A text with a space has one wherever it stands.
spaced : (s : List ℕ) → has_space s ≡ true → (p : List ℕ × List ℕ) × (strchr b' ' s ≡ some p)
spaced s k = elim (Option-cases (strchr b' ' s)) [
  | inl m ↦
      let no : has_space s ≡ false = rw (m, has_space) refl in absurd (true≢false (sym k ∙ no))
  | inr (p, m) ↦ (p, m)
]

unspaced : (s : List ℕ) → has_space s ≡ false → Without b' ' s
unspaced s k = elim (Option-cases (strchr b' ' s)) [
  | inl m ↦ strchr-Without b' ' s m
  | inr (p, m) ↦
      let yes : has_space s ≡ true = rw (m, has_space) refl in absurd (true≢false (sym yes ∙ k))
]

unquoted-IsWord : (x : Arg) → Plain x → in_quotes x ≡ false → IsWord (value x)
unquoted-IsWord (integer x) h k = (print_long-IsWord x).0
unquoted-IsWord (string []) h k = absurd (omega (arith, h.0))
unquoted-IsWord (string (c ∷ s)) h k = (h.1.0, unspaced (c ∷ s) k)
unquoted-IsWord (octets d) h k = absurd h

-- An argument in quotes, and what follows.
next_in-quoted :
    (s rest : List ℕ)
    → has_space s ≡ true
    → Without b'"' s
    → next_in (b'"' ∷ (s ++ b'"' ∷ rest))
      ≡ record { found = true; begin = some s; src = some (skip_spaces rest) }
unfolding next_in quoted
next_in-quoted s rest k w =
    let (p, m) = spaced s k in
    let (q, e) = strchr_more b' ' s (b'"' ∷ rest) p m in
    let here : strchr b' ' (b'"' ∷ (s ++ b'"' ∷ rest)) ≡ some (b'"' ∷ q.0, q.1) =
      rw (strchr, e) refl in
    rw (here, next_in) (rw (strchr-append b'"' s rest w, quoted) refl)

pub next_in-spelled :
    (x : Arg) (r : List ℕ)
    → Plain x
    → Unspaced r
    → next_in (spelled x ++ b' ' ∷ r)
      ≡ record { found = true; begin = some (value x); src = some r }
unfolding skip_spaces
next_in-spelled (integer x) r h u =
    next_in-word (print_long x) r (unquoted-IsWord (integer x) h refl) u
next_in-spelled (string s) r h u = elim (Bool-cases (has_space s)) [
  | inl k ↦
      rw (k, append_assoc s (b'"' ∷ []) (b' ' ∷ r))
        (next_in-quoted s (b' ' ∷ r) k h.1
          ∙ ap (λ t. record { found = true; begin = some s; src = some t }) (skip_one r u))
  | inr k ↦ rw k (next_in-word s r (unquoted-IsWord (string s) h k) u)
]
  where
    skip_one : (r : List ℕ) → Unspaced r → skip_spaces (b' ' ∷ r) ≡ r
    skip_one r u = skip_spaces-Unspaced r u
next_in-spelled (octets d) r h u = absurd h

-- Where `*src` points behind the last argument.
abbrev pub last_src : Arg → Option (List ℕ)
last_src x = if in_quotes x then some [] else none

pub next_in-last_spelled :
    (x : Arg)
    → Plain x
    → next_in (spelled x) ≡ record { found = true; begin = some (value x); src = last_src x }
unfolding skip_spaces
next_in-last_spelled (integer x) h =
    next_in-last_word (print_long x) (unquoted-IsWord (integer x) h refl)
next_in-last_spelled (string s) h = elim (Bool-cases (has_space s)) [
  | inl k ↦ rw k (next_in-quoted s [] k h.1)
  | inr k ↦ rw k (next_in-last_word s (unquoted-IsWord (string s) h k))
]
next_in-last_spelled (octets d) h = absurd h

pub Without-append : (c : ℕ) (s r : List ℕ) → Without c s → Without c r → Without c (s ++ r)
Without-append c [] r h k = k
Without-append c (x ∷ s) r h k = (h.0, Without-append c s r h.1 k)

pub spelled-nonzero : (x : Arg) → Plain x → Without 0 (spelled x)
spelled-nonzero (integer x) h = (print_long-IsWord x).1
spelled-nonzero (string s) h = elim (Bool-cases (has_space s)) [
  | inl k ↦
      rw k
        ((λ e. omega (arith, e)), Without-append 0 s (b'"' ∷ []) h.2 ((λ e. omega (arith, e)), tt))
  | inr k ↦ rw k h.2
]
spelled-nonzero (octets d) h = absurd h

word_start : (w r : List ℕ) → IsWord w → Unspaced (w ++ r) × (null (w ++ r) ≡ false)
word_start [] r h = absurd h
word_start (x ∷ w) r h = (h.1.0, refl)

pub spelled-start :
    (x : Arg) (r : List ℕ) → Plain x → Unspaced (spelled x ++ r) × (null (spelled x ++ r) ≡ false)
spelled-start (integer x) r h = word_start (print_long x) r (unquoted-IsWord (integer x) h refl)
spelled-start (string s) r h = elim (Bool-cases (has_space s)) [
  | inl k ↦ rw k ((λ e. omega (arith, e)), refl)
  | inr k ↦ rw k (word_start s r (unquoted-IsWord (string s) h k))
]
spelled-start (octets d) r h = absurd h
