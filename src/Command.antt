-- ===== src/Command.antt =====
-- command.hh and command.cc: a packet, how arguments are packed into it and read back.
-- `data` is the memory from `data` to the end of the allocation, NULL is `none`. Bytes that the
-- allocator leaves as they are come from the parameter `fresh`. An I32 is its bit pattern.
pub mod Unpack
pub mod Binary
pub mod Writes
pub mod Room
pub mod Words
pub mod Spelling
pub mod Text
mod Examples
use napsteresque.Base.{
  ℕ, zero, suc, ◌+◌, ◌-◌, ◌*◌, ◌/◌, ◌%◌, ◌^◌, ◌<◌, ◌≡◌, Bool, true, false, Option, none, some, List,
  [], ◌∷◌, ◌++◌, ltb, leb, ◌==◌, if◌then◌else◌, null, length, take, drop,
}
use napsteresque.Args.{strchr, Next, next_in, number_of}

pub record Command : Type 0 where
  pub size : ℕ
  pub code : ℕ
  pub bytes : Option (List ℕ)
  pub offset : Option ℕ

abbrev pub f2_code_start : ℕ
f2_code_start = 10000

abbrev pub u16_mod : ℕ
u16_mod = 2 ^ 16

-- `Command(Code)`
unfoldable pub new : ℕ → Command
new code = record { size = 0; code = code; bytes = none; offset = some 0 }

-- `Command::Arg`
pub data Arg : Type 0 where
  integer : ℕ → Arg
  string : List ℕ → Arg
  octets : List ℕ → Arg

-- `Arg::size`, a U16.
unfoldable pub arg_size : Arg → ℕ
arg_size (integer x) = 4
arg_size (string s) = (length s + 1) % u16_mod
arg_size (octets d) = length d % u16_mod

-- `Arg::type`: INTEGER, STRING, DATA.
unfoldable pub arg_type : Arg → ℕ
arg_type (integer x) = 1
arg_type (string s) = 2
arg_type (octets d) = 3

-- The bytes that `realloc` keeps, and fresh ones up to the new size.
unfoldable pub pad : (ℕ → ℕ) → ℕ → ℕ → List ℕ → List ℕ
pad fresh zero i d = []
pad fresh (suc n) i [] = fresh i ∷ pad fresh n (i + 1) []
pad fresh (suc n) i (x ∷ d) = x ∷ pad fresh n (i + 1) d

-- `_grow`
unfoldable pub grow : (ℕ → ℕ) → ℕ → Command → Command
unfolding pad
grow fresh s c = elim c.bytes [
  | none ↦ record c { bytes = some (pad fresh s 0 [] ++ 0 ∷ []) }
  | some d ↦ if leb s c.size then c else record c { bytes = some (pad fresh s 0 d ++ 0 ∷ []) }
]

-- The room that `_flush` asks for, 4 bytes more than each argument needs in F2 form.
unfoldable pub room : List Arg → ℕ
unfolding arg_size
room [] = 0
room (x ∷ xs) = 4 + arg_size x + 4 + room xs

abbrev pub be16 : ℕ → List ℕ
be16 x = (x / 256 % 256) ∷ (x % 256) ∷ []

abbrev pub be32 : ℕ → List ℕ
be32 x = (x / 2 ^ 24 % 256) ∷ (x / 2 ^ 16 % 256) ∷ (x / 256 % 256) ∷ (x % 256) ∷ []

unfoldable pub payload : Arg → List ℕ
unfolding arg_size
payload (integer x) = be32 x
payload (string s) = take (arg_size (string s)) (s ++ 0 ∷ [])
payload (octets d) = take (arg_size (octets d)) d

-- One argument in F2 form: size and type in network order, then the value.
unfoldable pub encode : Arg → List ℕ
unfolding payload arg_type
encode x = be16 (arg_size x) ++ (be16 (arg_type x) ++ payload x)

unfoldable pub encode_all : List Arg → List ℕ
unfolding encode
encode_all [] = []
encode_all (x ∷ xs) = encode x ++ encode_all xs

-- `sprintf("%ld")` of an I32: at most ten digits, so ten rounds suffice.
unfoldable pub emit : ℕ → ℕ → List ℕ → List ℕ
emit zero n out = out
emit (suc f) n out =
    let more = emit f (n / 10) ((b'0' + n % 10) ∷ out) in
    if n / 10 == 0 then (b'0' + n % 10) ∷ out else more

unfoldable pub print_long : ℕ → List ℕ
unfolding emit
print_long x = if ltb x (2 ^ 31) then emit 10 x [] else b'-' ∷ emit 10 (2 ^ 32 - x) []

abbrev pub has_space : List ℕ → Bool
has_space s = elim (strchr b' ' s) [ none ↦ false | some _ ↦ true ]

-- One argument in text form; DATA is an assertion failure.
unfoldable pub text : Arg → Option (List ℕ)
unfolding print_long strchr
text (integer x) = some (print_long x)
text (string s) = if has_space s then some (b'"' ∷ (s ++ b'"' ∷ [])) else some s
text (octets d) = none

-- The text of all arguments; `at` is `p - data`, and a space stands before all but the first byte.
unfoldable pub text_all : ℕ → List Arg → Option (List ℕ)
unfolding text
text_all at [] = some []
text_all at (x ∷ xs) = elim (text x) [
  | none ↦ none
  | some t ↦
      let piece = (if 0 == at then t else b' ' ∷ t) in
      elim (text_all (at + length piece) xs) [ none ↦ none | some ts ↦ some (piece ++ ts) ]
]

unfoldable pub write_at : ℕ → List ℕ → List ℕ → List ℕ
write_at n bs d = take n d ++ (bs ++ drop (n + length bs) d)

-- A write beyond the memory, or at NULL, is a fault.
unfoldable pub write_bytes : ℕ → List ℕ → Command → Option Command
write_bytes n bs c = elim c.bytes [
  | none ↦ none
  | some d ↦
      if ltb (length d) (n + length bs)
      then none
      else some (record c { bytes = some (write_at n bs d) })
]

-- `_flush`, `none` where an assertion fails or a write goes beyond what `_grow` allocated: the room is
-- counted by `Arg::size`, which wraps, and `sprintf` writes the whole string. In F2 form the size stays
-- at the room asked for.
unfoldable pub flush : (ℕ → ℕ) → List Arg → Command → Option Command
flush fresh writer c =
    let s = c.size + room writer in
    let grown = grow fresh s c in
    if ltb c.code f2_code_start
    then elim (text_all c.size writer) [
      | none ↦ none
      | some t ↦ elim (write_bytes c.size (if null writer then t else t ++ 0 ∷ []) grown) [
        | none ↦ none
        | some w ↦ some (record w { size = (c.size + length t) % u16_mod })
      ]
    ]
    else elim (write_bytes c.size (encode_all writer) grown) [
      | none ↦ none
      | some w ↦ some (record w { size = s % u16_mod })
    ]

-- `Command(Code, const char *)`: `size` is a U16, and `strcpy` past the memory is a fault.
unfoldable pub from_text : (ℕ → ℕ) → ℕ → List ℕ → Option Command
unfolding grow new write_bytes
from_text fresh code s =
    let c = record (new code) { size = length s % u16_mod } in
    write_bytes 0 (s ++ 0 ∷ []) (grow fresh (length s % u16_mod) c)

-- What the copy constructor and the assignment allocate: the data that `size` counts, a NUL, and the
-- NUL of `_grow`. A read past the memory of `c`, or at NULL, is a fault.
unfoldable pub copied_bytes : Command → Option (Option (List ℕ))
copied_bytes c = if c.size == 0 then some none else elim c.bytes [
  | none ↦ none
  | some d ↦ if ltb (length d) c.size then none else some (some (take c.size d ++ 0 ∷ 0 ∷ []))
]

-- `Command(const Command &)`
unfoldable pub copy : Command → Option Command
unfolding copied_bytes new
copy c = elim (copied_bytes c) [
  | none ↦ none
  | some b ↦ some (record (new c.code) { size = c.size; bytes = b })
]

-- `operator=`: the offset of the target stays as it was.
unfoldable pub assign : Command → Command → Option Command
unfolding copied_bytes
assign target c = elim (copied_bytes c) [
  | none ↦ none
  | some b ↦ some (record target { size = c.size; code = c.code; bytes = b })
]
