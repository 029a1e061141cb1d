-- ===== src/Command/Examples.antt =====
-- command.cc: runs of packing and unpacking.
use napsteresque.Base.{
  ℕ, zero, suc, none, some, List, [], ◌∷◌, ◌≡◌, ◌+◌, length, refl, arith, All, ◌<◌, ◌^◌, ◌-◌,
  Option,
}
use napsteresque.Cert.{repeat}
use napsteresque.Command.{
  Command, Arg, integer, string, octets, new, flush, encode_all, room, text_all, print_long,
  arg_size, u16_mod,
}
use napsteresque.Command.Unpack.{Tag, int_tag, string_tag, unpack}
use napsteresque.Command.Binary.{Fits, unpack-flush}
use napsteresque.Command.Room.{flush-room, flush-overruns}
use napsteresque.Command.Spelling.{Plain}
use napsteresque.Command.Text.{unpack-flush_text, unpack-missing}

abbrev zeros : ℕ → ℕ
zeros n = 0

abbrev ones : ℕ → ℕ
ones n = 1

-- "ab", 7 and the bytes 0 1.
abbrev three : List Arg
three = string (b'a' ∷ b'b' ∷ []) ∷ integer 7 ∷ octets (0 ∷ 1 ∷ []) ∷ []

three-Fits : All Fits three
three-Fits = (
  ((λ e. omega (arith, e), (λ e. omega (arith, e), tt)), omega arith),
  (omega arith, (omega arith, tt)),
)

room-three : room three < u16_mod
unfolding room arg_size
room-three = omega arith

unpack-flush_example :
    (c : Command) × (flush zeros three (new 10000) ≡ some c)
    × (unpack (string_tag ∷ int_tag ∷ Tag.data_tag ∷ []) c
        ≡ some (
          some (string (b'a' ∷ b'b' ∷ [])) ∷ some (integer 7) ∷ some (octets (0 ∷ 1 ∷ [])) ∷ [],
          some (length (encode_all three)),
        ))
unpack-flush_example = unpack-flush zeros 10000 three (omega arith) three-Fits

-- `at` is 1, where a space stands before the text of 2^31: with the NUL it is as long as the room and
-- the byte more that `_grow` gives.
abbrev behind : Command
behind = record { size = 1; code = 19; bytes = some (b'x' ∷ 0 ∷ []); offset = some 0 }

abbrev lowest : Arg
lowest = integer (2 ^ 31)

lowest-text_all : text_all 1 (lowest ∷ []) ≡ some (b' ' ∷ print_long (2 ^ 31))
unfolding text_all
lowest-text_all = refl

lowest-room : 1 + (length (b' ' ∷ print_long (2 ^ 31)) + 1) ≡ 1 + room (lowest ∷ []) + 1
unfolding print_long room arg_size
lowest-room = refl

flush-room_example :
    (c' : Command) × (d : List ℕ) × (flush zeros (lowest ∷ []) behind ≡ some c')
    × (c'.bytes ≡ some d)
    × (length d ≡ 1 + room (lowest ∷ []) + 1)
flush-room_example = flush-room zeros lowest [] behind (tt, tt) (λ k. (tt, tt))

-- Minus one, and "a b" in quotes.
abbrev minus_one : Arg
minus_one = integer (2 ^ 32 - 1)

abbrev quoted_text : Arg
quoted_text = string (b'a' ∷ b' ' ∷ b'b' ∷ [])

quoted_text-Plain : Plain quoted_text
quoted_text-Plain = (
  omega arith,
  ((λ e. omega (arith, e)), ((λ e. omega (arith, e)), ((λ e. omega (arith, e)), tt))),
  ((λ e. omega (arith, e)), ((λ e. omega (arith, e)), ((λ e. omega (arith, e)), tt))),
)

unpack-flush_text_example :
    (c : Command) × (last : Option ℕ) × (flush zeros (minus_one ∷ quoted_text ∷ []) (new 19)
      ≡ some c)
    × (unpack (int_tag ∷ string_tag ∷ []) c ≡ some (some minus_one ∷ some quoted_text ∷ [], last))
unpack-flush_text_example =
    unpack-flush_text zeros 19 minus_one (quoted_text ∷ []) (omega arith)
      (omega arith, (quoted_text-Plain, tt)) (tt, (omega arith, tt))

unpack-missing_example :
    (c : Command) × (flush zeros (minus_one ∷ []) (new 19) ≡ some c)
    × (unpack (int_tag ∷ string_tag ∷ []) c ≡ none)
unpack-missing_example =
    unpack-missing zeros 19 minus_one string_tag (omega arith) (omega arith) tt refl

-- A string of 65535 characters, which with its NUL is counted as none.
length-repeat : (n : ℕ) → length (repeat n b'a') ≡ n
length-repeat zero = refl
length-repeat (suc n) = omega (arith, length-repeat n)

flush-overruns_example : flush zeros (string (repeat 65535 b'a') ∷ []) (new 19) ≡ none
unfolding new
flush-overruns_example =
    flush-overruns zeros (repeat 65535 b'a') (new 19) (omega arith)
      (omega (arith, length-repeat 65535))
