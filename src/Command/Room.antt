-- ===== src/Command/Room.antt =====
-- command.cc: the room that `_flush` asks for, and what it leaves in it.
use napsteresque.Base.{
  ℕ, zero, suc, ◌+◌, ◌-◌, ◌*◌, ◌/◌, ◌%◌, ◌^◌, ◌<◌, ◌≤◌, ◌≡◌, sym, ◌∙◌, none, some, List, [], ◌∷◌,
  ◌++◌, ◌==◌, if◌then◌else◌, length, take, refl, lt→ltb, All, arith, inl, inr, length-append,
  Option-cases, Bool-cases, ltb, ltb→lt,
}
use mathlib.Core.Option.{none-ne-some}
use napsteresque.Command.{
  Command, write_at, write_bytes, flush, f2_code_start, Arg, integer, string, octets, u16_mod,
  arg_size, payload, encode, encode_all, room, emit, print_long, has_space, text, text_all,
}
use napsteresque.Command.Writes.{length-write_at, grow-length, flush_text-fits, flush_f2-fits}

length-take_le : (n : ℕ) (s : List ℕ) → length (take n s) ≤ n
length-take_le zero s = omega arith
length-take_le (suc n) [] = omega arith
length-take_le (suc n) (x ∷ s) = omega (arith, length-take_le n s)

length-payload : (x : Arg) → length (payload x) ≤ arg_size x
unfolding payload
length-payload (integer x) = omega arith
length-payload (string s) = length-take_le (arg_size (string s)) (s ++ 0 ∷ [])
length-payload (octets d) = length-take_le (arg_size (octets d)) d

pub length-emit : (f n : ℕ) (out : List ℕ) → length (emit f n out) ≤ f + length out
unfolding emit
length-emit zero n out = omega arith
length-emit (suc f) n out = ground (arith, length-emit f (n / 10) ((b'0' + n % 10) ∷ out))

length-print_long : (x : ℕ) → length (print_long x) ≤ 11
unfolding print_long
length-print_long x = ground (arith, length-emit 10 x [], length-emit 10 (2 ^ 32 - x) [])

-- The length of a string and its NUL is a U16 (`Arg::size`).
abbrev pub IsShort : Arg → Type 0
IsShort (integer x) = Unit {0}
IsShort (string s) = length s + 1 < u16_mod
IsShort (octets d) = Unit {0}

text-room : (x : Arg) (t : List ℕ) → IsShort x → text x ≡ some t → length t + 1 ≤ 4 + arg_size x + 4
unfolding text arg_size
text-room (integer x) t h e = ground (arith, length-print_long x)
text-room (string s) t h e = ground (arith, length-append s (b'"' ∷ []))
text-room (octets d) t h e = cc

-- The text after one argument whose own text is `u`.
after_piece :
    (at : ℕ) (x : Arg) (xs : List Arg) (u t : List ℕ)
    → text x ≡ some u
    → text_all at (x ∷ xs) ≡ some t
    → (ts : List ℕ) × (text_all (at + length (if 0 == at then u else b' ' ∷ u)) xs ≡ some ts)
      × (length t ≤ length u + 1 + length ts)
unfolding text_all
after_piece at x xs u t k e = elim (Option-cases (text_all (at + length piece) xs)) [
  | inl m ↦
      let failed : text_all at (x ∷ xs) ≡ none = rw (k, text_all) (rw m) in
      absurd (none-ne-some t (sym failed ∙ e))
  | inr (ts, m) ↦
      let whole : text_all at (x ∷ xs) ≡ some (piece ++ ts) = rw (k, text_all) (rw m) in
      let same : piece ++ ts ≡ t = cc (whole, e) in
      (ts, m, rw (← same) (ground (arith, length-append piece ts)))
]
  where
    piece : List ℕ
    piece = if 0 == at then u else b' ' ∷ u

pub text_all-room :
    (at : ℕ) (xs : List Arg) (t : List ℕ)
    → All IsShort xs
    → text_all at xs ≡ some t
    → length t ≤ room xs
unfolding text_all room
text_all-room at [] t h e = ground arith
text_all-room at (x ∷ xs) t h e = elim (Option-cases (text x)) [
  | inl k ↦
      let failed : text_all at (x ∷ xs) ≡ none = rw (k, text_all) in
      absurd (none-ne-some t (sym failed ∙ e))
  | inr (u, k) ↦
      let (ts, m, b) = after_piece at x xs u t k e in
      omega (
        arith,
        text-room x u h.0 k,
        text_all-room (at + length (if 0 == at then u else b' ' ∷ u)) xs ts h.1 m,
      )
]

pub encode_all-room : (xs : List Arg) → length (encode_all xs) + 4 * length xs ≤ room xs
unfolding encode_all encode room
encode_all-room [] = omega arith
encode_all-room (x ∷ xs) =
    omega (arith, length-append (payload x) (encode_all xs), length-payload x, encode_all-room xs)

-- An argument that text form has.
abbrev pub IsText : Arg → Type 0
IsText (octets d) = ⊥
IsText _ = Unit {0}

text-defined : (x : Arg) → IsText x → (t : List ℕ) × (text x ≡ some t)
unfolding text
text-defined (integer x) h = (print_long x, refl)
text-defined (string s) h = elim (Bool-cases (has_space s)) [
  | inl k ↦ (b'"' ∷ (s ++ b'"' ∷ []), rw (k, text) refl)
  | inr k ↦ (s, rw (k, text) refl)
]
text-defined (octets d) h = absurd h

text_all-defined :
    (at : ℕ) (xs : List Arg) → All IsText xs → (t : List ℕ) × (text_all at xs ≡ some t)
unfolding text_all
text_all-defined at [] h = ([], refl)
text_all-defined at (x ∷ xs) (h, hs) =
    let (u, e) = text-defined x h in
    let piece = if 0 == at then u else b' ' ∷ u in
    let (ts, k) = text_all-defined (at + length piece) xs hs in
    (piece ++ ts, rw (e, text_all) (rw k refl))

room_pos : (x : Arg) (xs : List Arg) → 1 ≤ room (x ∷ xs)
unfolding room
room_pos x xs = omega arith

-- `_flush` of one argument or more faults nowhere: whatever the packet holds, what it writes, in text
-- form with spaces, quotes and the last NUL, is inside of the memory that it asked `_grow` for, which
-- has a byte more than the size and the room. A string and its NUL are no longer than a U16 counts, and
-- in text form there is no block of bytes.
pub flush-room :
    (fresh : ℕ → ℕ) (x : Arg) (xs : List Arg) (c : Command)
    → All IsShort (x ∷ xs)
    → (c.code < f2_code_start → All IsText (x ∷ xs))
    → (c' : Command) × (d : List ℕ) × (flush fresh (x ∷ xs) c ≡ some c')
      × (c'.bytes ≡ some d)
      × (length d ≡ c.size + room (x ∷ xs) + 1)
flush-room fresh x xs c short texts =
    let (d, e, l) = grow-length fresh (c.size + room (x ∷ xs)) c (omega (arith, room_pos x xs)) in
    elim (Bool-cases (ltb c.code f2_code_start)) [
      | inl k ↦
          let below = ltb→lt c.code f2_code_start k in
          let (t, m) = text_all-defined c.size (x ∷ xs) (texts below) in
          let w = t ++ 0 ∷ [] in
          let fits : c.size + length w ≤ length d =
            omega (arith, l, length-append t (0 ∷ []), text_all-room c.size (x ∷ xs) t short m) in
          (
            record c { bytes = some (write_at c.size w d); size = (c.size + length t) % u16_mod },
            write_at c.size w d,
            flush_text-fits fresh x xs c d e t below m fits,
            refl,
            length-write_at c.size w d fits ∙ l,
          )
      | inr k ↦
          let w = encode_all (x ∷ xs) in
          let fits : c.size + length w ≤ length d = omega (arith, l, encode_all-room (x ∷ xs)) in
          (
            record c {
              bytes = some (write_at c.size w d);
              size = (c.size + room (x ∷ xs)) % u16_mod;
            },
            write_at c.size w d,
            flush_f2-fits fresh x xs c d e (ground (arith, k)) fits,
            refl,
            length-write_at c.size w d fits ∙ l,
          )
    ]

text-long : (s t : List ℕ) → text (string s) ≡ some t → length s ≤ length t
unfolding text
text-long s t e = ground (arith, length-append s (b'"' ∷ []))

text_all-long : (at : ℕ) (s t : List ℕ) → text_all at (string s ∷ []) ≡ some t → length s ≤ length t
unfolding text_all
text_all-long at s t e = elim (Option-cases (text (string s))) [
  | inl k ↦
      let failed : text_all at (string s ∷ []) ≡ none = rw (k, text_all) in
      absurd (none-ne-some t (sym failed ∙ e))
  | inr (u, k) ↦
      let piece = (if 0 == at then u else b' ' ∷ u) in
      let whole : text_all at (string s ∷ []) ≡ some (piece ++ []) = rw (k, text_all) refl in
      let same : piece ++ [] ≡ t = cc (whole, e) in
      rw (← same) (ground (arith, length-append piece [], text-long s u k))
]

room-string : (s : List ℕ) → room (string s ∷ []) ≡ 8 + (length s + 1) % u16_mod
unfolding room arg_size
room-string s = omega arith

-- A text packet into which a string is packed that is with its NUL of 2^16 bytes or more is written
-- beyond the memory that was asked for, whatever the packet held: the U16 of an argument's size wraps.
pub flush-overruns :
    (fresh : ℕ → ℕ) (s : List ℕ) (c : Command)
    → c.code < f2_code_start
    → u16_mod ≤ length s + 1
    → flush fresh (string s ∷ []) c ≡ none
unfolding flush write_bytes
flush-overruns fresh s c k long =
    let (d, e, l) =
      grow-length fresh (c.size + room (string s ∷ [])) c (omega (arith, room_pos (string s) [])) in
    let (t, m) = text_all-defined c.size (string s ∷ []) (tt, tt) in
    let beyond : length d < c.size + length (t ++ 0 ∷ []) =
      omega (arith, l, length-append t (0 ∷ []), text_all-long c.size s t m, room-string s, long) in
    rw (lt→ltb c.code f2_code_start k, m, e, flush)
      (rw (lt→ltb (length d) (c.size + length (t ++ 0 ∷ [])) beyond) refl)
