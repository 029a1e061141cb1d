-- ===== src/Command/Binary.antt =====
-- command.cc: what F2 packets carry comes out as it went in.
use mathlib.Core.List.{append_assoc}
use native.Mathlib.Nat.{add-zero, zero-add}
use napsteresque.Base.{
  ℕ, suc, ◌+◌, ◌-◌, ◌*◌, ◌/◌, ◌%◌, ◌^◌, ◌<◌, ◌≤◌, ◌≡◌, ◌≢◌, refl, ap, ◌∙◌, Option, some, List, [],
  ◌∷◌, ◌++◌, length, take, drop, map, All, arith, length-append, le→not_ltb, drop-drop, le→not_ltb,
  drop-drop,
}
use napsteresque.Command.{
  Command, new, Arg, integer, string, octets, f2_code_start, u16_mod, payload, encode, encode_all,
  flush, room, write_at,
}
use napsteresque.Command.Writes.{
  flush_f2-fits, flush_f2-nothing, fresh_bytes, grow-new, length-fresh_bytes,
}
use napsteresque.Command.Room.{encode_all-room}
use napsteresque.Command.Unpack.{
  done, Tag, int_tag, string_tag, data_tag, int_f2, string_f2, data_f2, unshift_at, unshift,
  unshift_all, unpack, c_string, byte_at,
}

-- Arguments that a packet can carry whole.
abbrev pub Fits : Arg → Type 0
Fits (integer x) = x < 2 ^ 32
Fits (string s) = All (λ c. c ≢ 0) s × (length s + 1 < u16_mod)
Fits (octets d) = length d < u16_mod

abbrev pub tag : Arg → Tag
tag (integer x) = int_tag
tag (string s) = string_tag
tag (octets d) = data_tag

take-length : (s r : List ℕ) → take (length s) (s ++ r) ≡ s
take-length [] r = refl
take-length (x ∷ s) r = ap (◌∷◌ x) (take-length s r)

pub drop-length : (s r : List ℕ) → drop (length s) (s ++ r) ≡ r
drop-length [] r = refl
drop-length (x ∷ s) r = drop-length s r

pub c_string-append : (s r : List ℕ) → All (λ c. c ≢ 0) s → c_string (s ++ 0 ∷ r) ≡ some s
unfolding c_string
c_string-append [] r h = refl
c_string-append (x ∷ s) r h = ground (arith, c_string-append s r h.1)

byte_at-append : (s r : List ℕ) (b : ℕ) → byte_at (length s) (s ++ b ∷ r) ≡ some b
unfolding byte_at
byte_at-append [] r b = refl
byte_at-append (x ∷ s) r b = byte_at-append s r b

take_all : (s : List ℕ) → take (length s) s ≡ s
take_all [] = refl
take_all (x ∷ s) = ap (◌∷◌ x) (take_all s)

-- What `data + 4` on looks like to a read of each type.
int_f2-encode :
    (x o : ℕ) (r : List ℕ)
    → x < 2 ^ 32
    → int_f2 (encode (integer x) ++ r) o ≡ done (some (integer x)) (some (o + 8))
unfolding int_f2 encode
int_f2-encode x o r h = ground arith

module _ (s r : List ℕ) (a b o : ℕ) (clean : All (λ c. c ≢ 0) s)
    (e : a * 256 + b ≡ length s + 1) where
  last_byte : byte_at (4 + (a * 256 + b) - 1) (a ∷ b ∷ 0 ∷ 2 ∷ (s ++ 0 ∷ r)) ≡ some 0
  unfolding byte_at
  last_byte =
      let n : 4 + (a * 256 + b) - 1 ≡ suc (suc (suc (suc (length s)))) = omega arith in
      rw n (byte_at-append s r 0)

  string_f2_read :
      string_f2 (a ∷ b ∷ 0 ∷ 2 ∷ (s ++ 0 ∷ r)) o
      ≡ done (some (string s)) (some (o + (4 + (length s + 1))))
  unfolding string_f2
  string_f2_read = ground (arith, last_byte, c_string-append s r clean)

payload-string : (s : List ℕ) → length s + 1 < u16_mod → payload (string s) ≡ s ++ 0 ∷ []
unfolding payload
payload-string s h =
    let n : (length s + 1) % u16_mod ≡ length (s ++ 0 ∷ []) =
      omega (arith, length-append s (0 ∷ [])) in
    rw n (take_all (s ++ 0 ∷ []))

string_f2-encode :
    (s : List ℕ) (o : ℕ) (r : List ℕ)
    → Fits (string s)
    → string_f2 (encode (string s) ++ r) o
      ≡ done (some (string s)) (some (o + (4 + (length s + 1))))
unfolding encode
string_f2-encode s o r (clean, h) =
    rw (payload-string s h, append_assoc s (0 ∷ []) r)
      (string_f2_read s r ((length s + 1) % u16_mod / 256 % 256) ((length s + 1) % u16_mod % 256) o
        clean (omega arith))

data_f2_read :
    (d r : List ℕ) (a b o : ℕ)
    → a * 256 + b ≡ length d
    → data_f2 (a ∷ b ∷ 0 ∷ 3 ∷ (d ++ r)) o ≡ done (some (octets d)) (some (o + (4 + length d)))
unfolding data_f2
data_f2_read d r a b o e = rw e (rw (take-length d r))

payload-octets : (d : List ℕ) → length d < u16_mod → payload (octets d) ≡ d
unfolding payload
payload-octets d h = let n : length d % u16_mod ≡ length d = omega arith in rw n (take_all d)

data_f2-encode :
    (d : List ℕ) (o : ℕ) (r : List ℕ)
    → length d < u16_mod
    → data_f2 (encode (octets d) ++ r) o ≡ done (some (octets d)) (some (o + (4 + length d)))
unfolding encode
data_f2-encode d o r h =
    rw (payload-octets d h)
      (data_f2_read d r (length d % u16_mod / 256 % 256) (length d % u16_mod % 256) o (omega arith))

length-encode_string :
    (s : List ℕ) → length s + 1 < u16_mod → length (encode (string s)) ≡ 4 + (length s + 1)
unfolding encode
length-encode_string s h =
    omega (arith, ap (length {A = ℕ}) (payload-string s h), length-append s (0 ∷ []))

length-encode_octets : (d : List ℕ) → length d < u16_mod → length (encode (octets d)) ≡ 4 + length d
unfolding encode
length-encode_octets d h = omega (arith, ap (length {A = ℕ}) (payload-octets d h))

-- One read takes off one argument, whatever follows.
pub unshift_at-encode :
    (code : ℕ) (x : Arg) (r : List ℕ) (o : ℕ)
    → f2_code_start ≤ code
    → Fits x
    → unshift_at code (tag x) (encode x ++ r) o ≡ done (some x) (some (o + length (encode x)))
unfolding unshift_at encode
unshift_at-encode code (integer x) r o c h =
    rw (le→not_ltb code f2_code_start c)
      (int_f2-encode x o r h ∙ ap (λ n. done (some (integer x)) (some (o + n))) refl)
unshift_at-encode code (string s) r o c h =
    rw (le→not_ltb code f2_code_start c, length-encode_string s h.1) (string_f2-encode s o r h)
unshift_at-encode code (octets d) r o c h = rw (length-encode_octets d h) (data_f2-encode d o r h)

-- One round of UNPACK_COMMAND.
pub unshift_all_next :
    (t : Tag) (ts : List Tag) (size code o o' : ℕ) (d : List ℕ) (v : Option Arg)
    (vs : List (Option Arg)) (last : Option ℕ)
    → unshift_at code t (drop o d) o ≡ done v (some o')
    → unshift_all ts (record { size = size; code = code; bytes = some d; offset = some o' })
      ≡ some (vs, last)
    → unshift_all (t ∷ ts) (record { size = size; code = code; bytes = some d; offset = some o })
      ≡ some (v ∷ vs, last)
unfolding unshift_all unshift
unshift_all_next t ts size code o o' d v vs last p q = rw (p, unshift_all) (rw (q, unshift_all))

pub unshift_all-encode_all :
    (xs : List Arg) (size code o : ℕ) (d r : List ℕ)
    → f2_code_start ≤ code
    → All Fits xs
    → drop o d ≡ encode_all xs ++ r
    → unshift_all
        (map tag xs)
        (record { size = size; code = code; bytes = some d; offset = some o })
      ≡ some (map some xs, some (o + length (encode_all xs)))
unfolding unshift_all encode_all
unshift_all-encode_all [] size code o d r c h e = rw add-zero
unshift_all-encode_all (x ∷ xs) size code o d r c h e =
    unshift_all_next (tag x) (map tag xs) size code o (o + length (encode x)) d (some x)
      (map some xs) _
      (rw (e, append_assoc (encode x) (encode_all xs) r)
        (unshift_at-encode code x (encode_all xs ++ r) o c h.0))
      (rw (unshift_all-encode_all xs size code (o + length (encode x)) d r c h.1 after) (
        ap (λ n. some (map some xs, some n))
          (omega (arith, length-append (encode x) (encode_all xs)))))
  where
    after : drop (o + length (encode x)) d ≡ encode_all xs ++ r
    after =
        drop-drop o (length (encode x)) d
        ∙ ap (drop (length (encode x))) (e ∙ append_assoc (encode x) (encode_all xs) r)
        ∙ drop-length (encode x) (encode_all xs ++ r)

-- The packet that packing makes: the arguments, then bytes as they were and the closing NUL.
abbrev pub packed : (ℕ → ℕ) → ℕ → List Arg → Command
packed fresh code xs = record {
  size = (0 + room xs) % u16_mod;
  code = code;
  bytes = some (write_at 0 (encode_all xs) (fresh_bytes fresh (0 + room xs)));
  offset = some 0;
}

pub flush_f2 :
    (fresh : ℕ → ℕ) (code : ℕ) (xs : List Arg)
    → f2_code_start ≤ code
    → flush fresh xs (new code) ≡ some (packed fresh code xs)
unfolding new
flush_f2 fresh code [] c = flush_f2-nothing fresh code c
flush_f2 fresh code (x ∷ xs) c =
    flush_f2-fits fresh x xs (new code) (fresh_bytes fresh (0 + room (x ∷ xs)))
      (grow-new fresh code (0 + room (x ∷ xs))) c
      (omega (arith, length-fresh_bytes fresh (0 + room (x ∷ xs)), encode_all-room (x ∷ xs)))

-- Packing arguments into a new F2 packet and unpacking as many of their types gives the arguments
-- back, each of them written, and leaves the offset behind the last one, whatever the allocator's
-- bytes. The arguments fit: an integer of 32 bits, a string without NUL and of a size below 2^16, a
-- block of a size below 2^16.
pub unpack-flush :
    (fresh : ℕ → ℕ) (code : ℕ) (xs : List Arg)
    → f2_code_start ≤ code
    → All Fits xs
    → (c : Command) × (flush fresh xs (new code) ≡ some c)
      × (unpack (map tag xs) c ≡ some (map some xs, some (length (encode_all xs))))
unfolding unpack write_at
unpack-flush fresh code xs c h = (
  packed fresh code xs,
  flush_f2 fresh code xs c,
  unshift_all-encode_all xs _ code 0 _ _ c h refl
      ∙ ap (λ n. some (map some xs, some n)) (zero-add _),
)
