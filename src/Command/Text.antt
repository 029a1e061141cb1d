-- ===== src/Command/Text.antt =====
-- command.cc: what text packets carry comes out as it went in.
use mathlib.Core.Bool.{true≢false}
use mathlib.Core.List.{append_assoc, append-nil}
use napsteresque.Base.{
  ℕ, ◌+◌, ◌-◌, ◌%◌, ◌<◌, ◌≡◌, refl, sym, ap, ◌∙◌, true, false, Option, none, some, List, [], ◌∷◌,
  ◌++◌, ◌==◌, length, null, map, drop, All, arith, length-append, drop-drop, lt→ltb,
}
use napsteresque.Args.{Next, next_in, number_of}
use napsteresque.Command.{
  Command, new, Arg, integer, string, octets, f2_code_start, u16_mod, text_all, flush, room,
  write_at, print_long,
}
use napsteresque.Command.Unpack.{
  done, Tag, c_string, int_text, string_text, unshift, unshift_at, unshift_all, unpack, offset_of,
  as_string, as_integer,
}
use napsteresque.Command.Binary.{tag, c_string-append, drop-length}
use napsteresque.Command.Writes.{fresh_bytes, grow-new, length-fresh_bytes, flush_text-fits}
use napsteresque.Command.Room.{IsShort, text_all-room}
use napsteresque.Command.Words.{Without, strtoul-print_long}
use napsteresque.Command.Spelling.{
  Plain, value, spelled, last_src, in_quotes, text-spelled, next_in-spelled, next_in-last_spelled,
  spelled-nonzero, spelled-start, Without-append,
}

-- The arguments behind the first, a space before each.
unfoldable pub more : List Arg → List ℕ
more [] = []
more (x ∷ xs) = b' ' ∷ (spelled x ++ more xs)

text_all-more : (at : ℕ) (xs : List Arg) → 0 < at → All Plain xs → text_all at xs ≡ some (more xs)
unfolding text_all more
text_all-more at [] p h = refl
text_all-more at (x ∷ xs) p h =
    let later : (0 == at) ≡ false = ground (arith, p) in
    let rest = text_all-more (at + length (b' ' ∷ spelled x)) xs (omega (arith, p)) h.1 in
    rw (text-spelled x h.0, text_all) (rw (later, rest, text_all) (rw later refl))

not_null : (s : List ℕ) → null s ≡ false → 0 < length s
not_null [] h = absurd (true≢false h)
not_null (x ∷ s) h = omega arith

length-spelled_pos : (x : Arg) → Plain x → 0 < length (spelled x)
length-spelled_pos x h =
    not_null (spelled x)
      (ap (null {A = ℕ}) (sym (append-nil (spelled x))) ∙ (spelled-start x [] h).1)

text_all-spelled :
    (x : Arg) (xs : List Arg)
    → All Plain (x ∷ xs)
    → text_all 0 (x ∷ xs) ≡ some (spelled x ++ more xs)
unfolding text_all
text_all-spelled x xs h =
    let long : 0 < length (spelled x) = length-spelled_pos x h.0 in
    let rest = text_all-more (0 + length (spelled x)) xs (omega (arith, long)) h.1 in
    rw (text-spelled x h.0, text_all) (rw (rest, text_all) refl)

-- One read from text, when `get_next_argument` says `n`.
module _ (r t : List ℕ) (o : ℕ) (n : Next) (e : c_string r ≡ some t) (full : null t ≡ false)
    (f : next_in t ≡ n) where
  string_text_lem : string_text r o ≡ done (as_string n.begin) (offset_of o t n.src)
  unfolding string_text
  string_text_lem = rw (e, string_text) (rw (full, f) refl)

  int_text_lem : int_text r o ≡ done (as_integer (number_of n)) (offset_of o t n.src)
  unfolding int_text
  int_text_lem = rw (e, int_text) (rw (full, f) refl)

unshift_at-text :
    (code : ℕ) (x : Arg) (r t : List ℕ) (o : ℕ) (src : Option (List ℕ))
    → code < f2_code_start
    → Plain x
    → c_string r ≡ some t
    → null t ≡ false
    → next_in t ≡ record { found = true; begin = some (value x); src = src }
    → unshift_at code (tag x) r o ≡ done (some x) (offset_of o t src)
unfolding unshift_at number_of
unshift_at-text code (integer x) r t o src c h e n f =
    let found =
      int_text_lem r t o (record { found = true; begin = some (print_long x); src = src }) e n f in
    rw (lt→ltb code f2_code_start c)
      (found ∙ ap (λ v. done (some (integer v)) (offset_of o t src)) (strtoul-print_long x h))
unshift_at-text code (string s) r t o src c h e n f =
    rw (lt→ltb code f2_code_start c)
      (string_text_lem r t o (record { found = true; begin = some s; src = src }) e n f)
unshift_at-text code (octets d) r t o src c h e n f = absurd h

-- One round of UNPACK_COMMAND, the offset behind it lost or not.
text_next :
    (t : Tag) (ts : List Tag) (size code o : ℕ) (o' : Option ℕ) (d : List ℕ) (v : Option Arg)
    (vs : List (Option Arg)) (last : Option ℕ)
    → unshift_at code t (drop o d) o ≡ done v o'
    → unshift_all ts (record { size = size; code = code; bytes = some d; offset = o' })
      ≡ some (vs, last)
    → unshift_all (t ∷ ts) (record { size = size; code = code; bytes = some d; offset = some o })
      ≡ some (v ∷ vs, last)
unfolding unshift_all unshift
text_next t ts size code o o' d v vs last p q = rw (p, unshift_all) (rw (q, unshift_all) refl)

more-nonzero : (xs : List Arg) → All Plain xs → Without 0 (more xs)
unfolding more
more-nonzero [] h = tt
more-nonzero (x ∷ xs) h = (
  (λ e. omega (arith, e)),
  Without-append 0 (spelled x) (more xs) (spelled-nonzero x h.0) (more-nonzero xs h.1),
)

line : Arg → List Arg → List ℕ
line x xs = spelled x ++ more xs

line-c_string :
    (x : Arg) (xs : List Arg) (m : List ℕ)
    → All Plain (x ∷ xs)
    → c_string (line x xs ++ 0 ∷ m) ≡ some (line x xs)
unfolding line
line-c_string x xs m h =
    c_string-append (spelled x ++ more xs) m
      (Without-append 0 (spelled x) (more xs) (spelled-nonzero x h.0) (more-nonzero xs h.1))

-- The reads of the arguments of a line that stands at an offset.
unshift_all-line :
    (x : Arg) (xs : List Arg) (size code o : ℕ) (d m : List ℕ)
    → code < f2_code_start
    → All Plain (x ∷ xs)
    → drop o d ≡ line x xs ++ 0 ∷ m
    → (last : Option ℕ) × (unshift_all
          (map tag (x ∷ xs))
          (record { size = size; code = code; bytes = some d; offset = some o })
        ≡ some (map some (x ∷ xs), last))
unfolding line more unshift_all
unshift_all-line x [] size code o d m c h e =
    let t = spelled x ++ [] in
    let found = ap next_in (append-nil (spelled x)) ∙ next_in-last_spelled x h.0 in
    let read =
      unshift_at-text code x (t ++ 0 ∷ m) t o (last_src x) c h.0 (line-c_string x [] m h)
        (spelled-start x [] h.0).1 found in
    let there = ap (λ r. unshift_at code (tag x) r o) e ∙ read in
    (
      offset_of o t (last_src x),
      text_next (tag x) [] size code o (offset_of o t (last_src x)) d (some x) []
          (offset_of o t (last_src x)) there refl,
    )
unshift_all-line x (y ∷ ys) size code o d m c h e =
    let r = spelled y ++ more ys in
    let t = spelled x ++ b' ' ∷ r in
    let w = spelled x ++ b' ' ∷ [] in
    let k = length t - length r in
    let count : k ≡ length w =
      omega (arith, length-append (spelled x) (b' ' ∷ r), length-append (spelled x) (b' ' ∷ [])) in
    let split : t ++ 0 ∷ m ≡ w ++ (r ++ 0 ∷ m) =
      append_assoc (spelled x) (b' ' ∷ r) (0 ∷ m)
      ∙ sym (append_assoc (spelled x) (b' ' ∷ []) (r ++ 0 ∷ m)) in
    let after : drop (o + k) d ≡ r ++ 0 ∷ m =
      ap (λ n. drop (o + n) d) count
      ∙ drop-drop o (length w) d
      ∙ ap (drop (length w)) (e ∙ split)
      ∙ drop-length w (r ++ 0 ∷ m) in
    let found = next_in-spelled x r h.0 (spelled-start y (more ys) h.1.0).0 in
    let read =
      unshift_at-text code x (t ++ 0 ∷ m) t o (some r) c h.0 (line-c_string x (y ∷ ys) m h)
        (spelled-start x (b' ' ∷ r) h.0).1 found in
    let (last, q) = unshift_all-line y ys size code (o + k) d m c h.1 after in
    (
      last,
      text_next (tag x) (map tag (y ∷ ys)) size code o (some (o + k)) d (some x) (map some (y ∷ ys))
          last (ap (λ r. unshift_at code (tag x) r o) e ∙ read) q,
    )

-- The packet that packing makes.
abbrev texted : (ℕ → ℕ) → ℕ → Arg → List Arg → Command
texted fresh code x xs = record {
  size = (0 + length (line x xs)) % u16_mod;
  code = code;
  bytes = some (write_at 0 (line x xs ++ 0 ∷ []) (fresh_bytes fresh (0 + room (x ∷ xs))));
  offset = some 0;
}

flush-texted :
    (fresh : ℕ → ℕ) (code : ℕ) (x : Arg) (xs : List Arg)
    → code < f2_code_start
    → All Plain (x ∷ xs)
    → All IsShort (x ∷ xs)
    → flush fresh (x ∷ xs) (new code) ≡ some (texted fresh code x xs)
unfolding line new
flush-texted fresh code x xs c h short =
    let t = line x xs in
    let n = 0 + room (x ∷ xs) in
    let written = text_all-spelled x xs h in
    flush_text-fits fresh x xs (new code) (fresh_bytes fresh n) (grow-new fresh code n) t c written
      (omega (
        arith,
        length-fresh_bytes fresh n,
        length-append t (0 ∷ []),
        text_all-room 0 (x ∷ xs) t short written,
      ))

-- Packing arguments into a new text packet and unpacking as many of their types gives the arguments
-- back, each of them written: integers of 32 bits, by sprintf and strtoul, negative ones too, and
-- strings, with and without spaces, that are not empty, have no NUL and no quote, and are with their
-- NUL shorter than 2^16, what the U16 of an argument's size counts.
pub unpack-flush_text :
    (fresh : ℕ → ℕ) (code : ℕ) (x : Arg) (xs : List Arg)
    → code < f2_code_start
    → All Plain (x ∷ xs)
    → All IsShort (x ∷ xs)
    → (c : Command) × (last : Option ℕ) × (flush fresh (x ∷ xs) (new code) ≡ some c)
      × (unpack (map tag (x ∷ xs)) c ≡ some (map some (x ∷ xs), last))
unfolding unpack write_at
unpack-flush_text fresh code x xs c h short =
    let m = drop (0 + length (line x xs ++ 0 ∷ [])) (fresh_bytes fresh (0 + room (x ∷ xs))) in
    let (last, q) =
      unshift_all-line x xs ((0 + length (line x xs)) % u16_mod) code 0 ((line x xs ++ 0 ∷ []) ++ m)
        m c h (append_assoc (line x xs) (0 ∷ []) m) in
    (texted fresh code x xs, last, flush-texted fresh code x xs c h short, q)

text_fault :
    (t u : Tag) (size code o : ℕ) (d : List ℕ) (v : Option Arg)
    → unshift_at code t (drop o d) o ≡ done v none
    → unshift_all
        (t ∷ u ∷ [])
        (record { size = size; code = code; bytes = some d; offset = some o })
      ≡ none
unfolding unshift_all unshift
text_fault t u size code o d v p = rw (p, unshift_all) refl

-- After the last argument of a text packet, where it stands without quotes, the offset is lost: a
-- packet of one such argument from which two are unpacked is a read at NULL, whatever the second's
-- type. The argument is an integer of 32 bits, or a string that is not empty, has no NUL and no quote,
-- and is with its NUL shorter than 2^16.
pub unpack-missing :
    (fresh : ℕ → ℕ) (code : ℕ) (x : Arg) (u : Tag)
    → code < f2_code_start
    → Plain x
    → IsShort x
    → in_quotes x ≡ false
    → (c : Command) × (flush fresh (x ∷ []) (new code) ≡ some c)
      × (unpack (tag x ∷ u ∷ []) c ≡ none)
unfolding unpack write_at line more
unpack-missing fresh code x u c h short k =
    let m = drop (0 + length (line x [] ++ 0 ∷ [])) (fresh_bytes fresh (0 + room (x ∷ []))) in
    let t = spelled x ++ [] in
    let lost : last_src x ≡ none = rw k refl in
    let found = ap next_in (append-nil (spelled x)) ∙ next_in-last_spelled x h in
    let read =
      unshift_at-text code x (t ++ 0 ∷ m) t 0 (last_src x) c h (line-c_string x [] m (h, tt))
        (spelled-start x [] h).1 found in
    (
      texted fresh code x [],
      flush-texted fresh code x [] c (h, tt) (short, tt),
      text_fault (tag x) u ((0 + length (line x [])) % u16_mod) code 0 ((line x [] ++ 0 ∷ []) ++ m)
          (some x)
          (ap (λ r. unshift_at code (tag x) r 0) (append_assoc t (0 ∷ []) m)
            ∙ read
            ∙ ap (λ s. done (some x) (offset_of 0 t s)) lost),
    )
