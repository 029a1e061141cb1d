-- ===== src/Command/Words.antt =====
-- functions.cc: what `get_next_argument` and `strtoul` make of an argument as `_flush` prints it.
use napsteresque.Base.{
  ℕ, zero, suc, ◌+◌, ◌-◌, ◌*◌, ◌/◌, ◌%◌, ◌^◌, ◌<◌, ◌≤◌, ◌≡◌, ◌≢◌, refl, ap, ◌∙◌, true, false, none,
  some, List, [], ◌∷◌, ◌++◌, ltb, ◌==◌, if◌then◌else◌, length, All, arith, Bool-cases, inl, inr,
  ==_iff,
}
use napsteresque.Args.{strchr, skip_spaces, next_in, scan_digits, strtoul, is_digit}
use napsteresque.Command.{emit, print_long}

-- Characters that no function below stops at.
abbrev pub Without : ℕ → List ℕ → Type 0
Without c = All (λ x. x ≢ c)

pub strchr-append : (c : ℕ) (w r : List ℕ) → Without c w → strchr c (w ++ c ∷ r) ≡ some (w, r)
unfolding strchr
strchr-append c [] r h = ground arith
strchr-append c (x ∷ w) r h = let e = strchr-append c w r h.1 in ground (arith, e, h.0)

pub strchr-none : (c : ℕ) (w : List ℕ) → Without c w → strchr c w ≡ none
unfolding strchr
strchr-none c [] h = refl
strchr-none c (x ∷ w) h = let e = strchr-none c w h.1 in ground (arith, e, h.0)

-- A text that does not start with a space.
abbrev pub Unspaced : List ℕ → Type 0
Unspaced [] = Unit {0}
Unspaced (x ∷ s) = x ≢ b' '

pub skip_spaces-Unspaced : (r : List ℕ) → Unspaced r → skip_spaces r ≡ r
unfolding skip_spaces
skip_spaces-Unspaced [] h = refl
skip_spaces-Unspaced (x ∷ r) h = ground (arith, h)

abbrev pub IsWord : List ℕ → Type 0
IsWord [] = ⊥
IsWord (x ∷ s) = (x ≢ b'"') × Without b' ' (x ∷ s)

pub next_in-word :
    (w r : List ℕ)
    → IsWord w
    → Unspaced r
    → next_in (w ++ b' ' ∷ r) ≡ record { found = true; begin = some w; src = some r }
unfolding next_in
next_in-word [] r h u = absurd h
next_in-word (x ∷ w) r h u =
    let e : strchr b' ' (x ∷ (w ++ b' ' ∷ r)) ≡ some (x ∷ w, r) =
      strchr-append b' ' (x ∷ w) r h.1 in
    let q : (x == b'"') ≡ false = ground (arith, h.0) in
    rw (e, next_in) (rw (q, skip_spaces-Unspaced r u) refl)

pub next_in-last_word :
    (w : List ℕ) → IsWord w → next_in w ≡ record { found = true; begin = some w; src = none }
unfolding next_in
next_in-last_word [] h = absurd h
next_in-last_word (x ∷ w) h =
    let q : (x == b'"') ≡ false = ground (arith, h.0) in
    rw (strchr-none b' ' (x ∷ w) h.1, next_in) (rw q refl)

-- One decimal digit is read.
scan_digit :
    (n d : ℕ) (s : List ℕ) → d < 10 → scan_digits n ((b'0' + d) ∷ s) ≡ scan_digits (n * 10 + d) s
unfolding scan_digits
scan_digit n d s h =
    let yes : is_digit (b'0' + d) ≡ true = ground (arith, h) in
    let value : n * 10 + (b'0' + d - b'0') ≡ n * 10 + d = omega arith in rw (yes, value) refl

pub scan_digits-emit :
    (f n : ℕ) (out : List ℕ)
    → n < 10 ^ suc f
    → scan_digits 0 (emit (suc f) n out) ≡ scan_digits n out
unfolding emit
scan_digits-emit zero n out h =
    let small : (n / 10 == 0) ≡ true = (==_iff (n / 10) 0).1 (omega (arith, h)) in
    let value : 0 * 10 + n % 10 ≡ n = omega (arith, h) in
    rw (small, emit) (scan_digit 0 (n % 10) out (omega arith) ∙ ap (λ m. scan_digits m out) value)
scan_digits-emit (suc f) n out h = elim (Bool-cases (n / 10 == 0)) [
  | inl k ↦
      let value : 0 * 10 + n % 10 ≡ n = ground (arith, k) in
      rw (k, emit) (scan_digit 0 (n % 10) out (omega arith) ∙ ap (λ m. scan_digits m out) value)
  | inr k ↦
      let value : n / 10 * 10 + n % 10 ≡ n = omega arith in
      rw (k, emit)
        (scan_digits-emit f (n / 10) ((b'0' + n % 10) ∷ out) (omega (arith, h))
          ∙ scan_digit (n / 10) (n % 10) out (omega arith)
          ∙ ap (λ m. scan_digits m out) value)
]

-- The first character is a digit, and all are.
abbrev pub AreDigits : List ℕ → Type 0
AreDigits = All (λ c. (b'0' ≤ c) × (c ≤ b'9'))

pub emit-AreDigits : (f n : ℕ) (out : List ℕ) → AreDigits out → AreDigits (emit f n out)
unfolding emit
emit-AreDigits zero n out h = h
emit-AreDigits (suc f) n out h = elim (Bool-cases (n / 10 == 0)) [
  | inl k ↦ rw (k, emit) ((omega arith, omega arith), h)
  | inr k ↦
      rw (k, emit)
        (emit-AreDigits f (n / 10) ((b'0' + n % 10) ∷ out) ((omega arith, omega arith), h))
]

pub length-emit_pos : (f n : ℕ) (out : List ℕ) → 1 ≤ length (emit (suc f) n out)
unfolding emit
length-emit_pos zero n out = ground arith
length-emit_pos (suc f) n out = ground (arith, length-emit_pos f (n / 10) ((b'0' + n % 10) ∷ out))

abbrev clamped : ℕ → ℕ
clamped n = if ltb (2 ^ 32 - 1) n then 2 ^ 32 - 1 else n

strtoul-digits :
    (s : List ℕ)
    → AreDigits s
    → 1 ≤ length s
    → scan_digits 0 s < 2 ^ 32
    → strtoul s ≡ scan_digits 0 s
unfolding strtoul
strtoul-digits [] h l b = absurd (omega (arith, l))
strtoul-digits (c ∷ s) ((lo, hi), h) l b = ground (arith, lo, hi, b)

strtoul-minus :
    (s : List ℕ)
    → scan_digits 0 s < 2 ^ 32
    → strtoul (b'-' ∷ s) ≡ (2 ^ 32 - scan_digits 0 s) % 2 ^ 32
unfolding strtoul
strtoul-minus s b = ground (arith, b)

-- `strtoul` reads what `%ld` prints, for each 32-bit pattern, the negative numbers by wrapping around.
pub strtoul-print_long : (x : ℕ) → x < 2 ^ 32 → strtoul (print_long x) ≡ x
unfolding print_long scan_digits
strtoul-print_long x h = elim (Bool-cases (ltb x (2 ^ 31))) [
  | inl k ↦
      let value : scan_digits 0 (emit 10 x []) ≡ x = scan_digits-emit 9 x [] (omega (arith, h)) in
      rw (k, print_long)
        (strtoul-digits (emit 10 x []) (emit-AreDigits 10 x [] tt) (length-emit_pos 9 x [])
            (omega (arith, value, h))
          ∙ value)
  | inr k ↦
      let big : 2 ^ 31 ≤ x = ground (arith, k) in
      let value : scan_digits 0 (emit 10 (2 ^ 32 - x) []) ≡ 2 ^ 32 - x =
        scan_digits-emit 9 (2 ^ 32 - x) [] (omega (arith, h, big)) in
      rw (k, print_long)
        (strtoul-minus (emit 10 (2 ^ 32 - x) []) (omega (arith, value, big))
          ∙ omega (arith, value, h, big))
]

AreDigits-unspaced : (s : List ℕ) → AreDigits s → Without b' ' s
AreDigits-unspaced [] h = tt
AreDigits-unspaced (x ∷ s) h = ((λ e. omega (arith, e, h.0)), AreDigits-unspaced s h.1)

AreDigits-IsWord : (s : List ℕ) → AreDigits s → 1 ≤ length s → IsWord s
AreDigits-IsWord [] h l = absurd (omega (arith, l))
AreDigits-IsWord (x ∷ s) h l = ((λ e. omega (arith, e, h.0)), AreDigits-unspaced (x ∷ s) h)

AreDigits-nonzero : (s : List ℕ) → AreDigits s → Without 0 s
AreDigits-nonzero [] h = tt
AreDigits-nonzero (x ∷ s) h = ((λ e. omega (arith, e, h.0)), AreDigits-nonzero s h.1)

pub print_long-IsWord : (x : ℕ) → IsWord (print_long x) × Without 0 (print_long x)
unfolding print_long
print_long-IsWord x = elim (Bool-cases (ltb x (2 ^ 31))) [
  | inl k ↦
      let ds = emit-AreDigits 10 x [] tt in
      rw k (
        AreDigits-IsWord (emit 10 x []) ds (length-emit_pos 9 x []),
        AreDigits-nonzero (emit 10 x []) ds,
      )
  | inr k ↦
      let ds = emit-AreDigits 10 (2 ^ 32 - x) [] tt in
      rw k (
        (
          (λ e. omega (arith, e)),
          ((λ e. omega (arith, e)), AreDigits-unspaced (emit 10 (2 ^ 32 - x) []) ds),
        ),
        ((λ e. omega (arith, e)), AreDigits-nonzero (emit 10 (2 ^ 32 - x) []) ds),
      )
]
