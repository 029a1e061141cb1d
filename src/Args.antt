-- ===== src/Args.antt =====
-- functions.cc: the splitting of a text command into arguments.
-- A `char *` is the list of the characters before the NUL, and a `char **` that may point to NULL an
-- option of it. The NULs that the functions write fall before the pointer that they move, so they
-- show only as the end of the argument that is returned.
pub mod Shrinks
use napsteresque.Base.{
  ℕ, ◌+◌, ◌-◌, ◌*◌, ◌%◌, ◌^◌, Bool, true, false, not, ◌&&◌, ◌||◌, Option, none, some, List, [], ◌∷◌,
  ltb, leb, ◌==◌, if◌then◌else◌, null, length,
}
use mathlib.Core.Option

-- `strchr`: what stands before the first `c`, and what follows it.
unfoldable pub strchr : ℕ → List ℕ → Option (List ℕ × List ℕ)
strchr c [] = none
strchr c (x ∷ s) =
    if x == c
    then some ([], s)
    else Option.map (λ (r : List ℕ × List ℕ). (x ∷ r.0, r.1)) (strchr c s)

unfoldable pub skip_spaces : List ℕ → List ℕ
skip_spaces [] = []
skip_spaces (x ∷ s) = if x == b' ' then skip_spaces s else x ∷ s

-- What stands before the last quote, if there is one.
unfoldable pub before_last_quote : List ℕ → Option (List ℕ)
before_last_quote [] = none
before_last_quote (x ∷ s) = elim (before_last_quote s) [
  | some p ↦ some (x ∷ p)
  | none ↦ if x == b'"' then some [] else none
]

abbrev pub starts_quoted : List ℕ → Bool
starts_quoted [] = false
starts_quoted (x ∷ s) = x == b'"'

abbrev pub rest_of : List ℕ → List ℕ
rest_of [] = []
rest_of (x ∷ s) = s

-- The result of `get_next_argument`, `begin` (`none` where it is not written) and `*src` (`none` is NULL).
pub record Next : Type 0 where
  pub found : Bool
  pub begin : Option (List ℕ)
  pub src : Option (List ℕ)

-- A quoted argument with a space somewhere behind it.
unfoldable pub quoted : List ℕ → Next
quoted s = elim (strchr b'"' s) [
  | none ↦ record { found = false; begin = some s; src = none }
  | some (word, rest) ↦ record { found = true; begin = some word; src = some (skip_spaces rest) }
]

-- The last argument, after its opening quote: up to the last quote, if that is not at once.
unfoldable pub last_quoted : List ℕ → Next
last_quoted [] = record { found = false; begin = some []; src = none }
last_quoted (x ∷ s) = elim (before_last_quote (x ∷ s)) [
  | none ↦ record { found = false; begin = some (x ∷ s); src = some (x ∷ s) }
  | some p ↦
      if null p
      then record { found = false; begin = some (x ∷ s); src = some (x ∷ s) }
      else record { found = true; begin = some p; src = none }
]

unfoldable pub next_in : List ℕ → Next
unfolding strchr skip_spaces quoted last_quoted
next_in s = elim (strchr b' ' s) [
  | some (word, rest) ↦
      if starts_quoted s
      then quoted (rest_of s)
      else record { found = true; begin = some word; src = some (skip_spaces rest) }
  | none ↦
      if starts_quoted s
      then last_quoted (rest_of s)
      else record { found = not (null s); begin = some s; src = none }
]

-- `get_next_argument(char **, char *&)`
unfoldable pub get_next_argument : Option (List ℕ) → Next
unfolding next_in
get_next_argument none = record { found = false; begin = none; src = none }
get_next_argument (some s) = next_in s

abbrev short_enough : Option (List ℕ) → ℕ → Bool
short_enough none limit = false
short_enough (some s) limit = ltb (length s) limit

-- `get_next_argument(char **, char *&, unsigned long)`: the argument is taken, then its length tested.
unfoldable pub get_next_argument_limited : Option (List ℕ) → ℕ → Next
unfolding get_next_argument
get_next_argument_limited src limit =
    let n = get_next_argument src in record n { found = n.found && short_enough n.begin limit }

abbrev pub is_digit : ℕ → Bool
is_digit c = leb b'0' c && leb c b'9'

abbrev pub ulong_max : ℕ
ulong_max = 2 ^ 32 - 1

-- `strtoul` in base 10 on a 32-bit machine: it stops at the first other character, and sticks at
-- ULONG_MAX.
unfoldable pub scan_digits : ℕ → List ℕ → ℕ
scan_digits n [] = n
scan_digits n (c ∷ s) =
    let rest = scan_digits (n * 10 + (c - b'0')) s in if is_digit c then rest else n

abbrev clamp_ulong : ℕ → ℕ
clamp_ulong n = if ltb ulong_max n then ulong_max else n

unfoldable pub strtoul : List ℕ → ℕ
unfolding scan_digits
strtoul [] = 0
strtoul (c ∷ s) =
    let rest = strtoul s in
    if c == b' ' || (leb 9 c && leb c 13)
    then rest
    else if c == b'-'
    then (2 ^ 32 - clamp_ulong (scan_digits 0 s)) % 2 ^ 32
    else if c == b'+'
    then clamp_ulong (scan_digits 0 s)
    else clamp_ulong (scan_digits 0 (c ∷ s))

-- `get_next_argument(char **, unsigned long &)`: the field is written where an argument is found.
unfoldable pub number_of : Next → Option ℕ
number_of n = elim n.begin [ none ↦ none | some s ↦ if n.found then some (strtoul s) else none ]
