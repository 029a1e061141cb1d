-- ===== src/Command/Unpack.antt =====
-- command.cc: `_unshift` for each type, and the reads of UNPACK_COMMAND.
use napsteresque.Base.{
  ℕ, zero, suc, ◌+◌, ◌-◌, ◌*◌, ◌^◌, Option, none, some, List, [], ◌∷◌, ltb, ◌==◌, if◌then◌else◌,
  null, length, take, drop, Bool, true, false, leb,
}
use napsteresque.Args.{next_in, number_of}
use napsteresque.Command.{Command, Arg, integer, string, octets, f2_code_start}

-- A read of a packet: a fault, or the value (`none` where the target keeps its old one) and the
-- new offset (`none` where `reader` ended as NULL, so that `data + offset` is NULL).
pub data Read (A : Type 0) : Type 0 where
  fault : Read A
  done : Option A → Option ℕ → Read A

abbrev pub read16 : List ℕ → Option ℕ
read16 [] = none
read16 (a ∷ []) = none
read16 (a ∷ b ∷ r) = some (a * 256 + b)

abbrev pub read32 : List ℕ → Option ℕ
read32 (a ∷ b ∷ c ∷ d ∷ r) = some (a * 2 ^ 24 + b * 2 ^ 16 + c * 256 + d)
read32 _ = none

-- The string at a pointer: up to the NUL, a fault without one.
unfoldable pub c_string : List ℕ → Option (List ℕ)
c_string [] = none
c_string (x ∷ s) =
    if x == 0 then some [] else elim (c_string s) [ none ↦ none | some r ↦ some (x ∷ r) ]

-- The byte at an index.
unfoldable pub byte_at : ℕ → List ℕ → Option ℕ
byte_at n [] = none
byte_at zero (x ∷ s) = some x
byte_at (suc n) (x ∷ s) = byte_at n s

abbrev pub keeps : {A : Type 0} → ℕ → Read A
keeps o = done none (some o)

-- `_unshift(I32 *)` in F2 form, at a reader `r` that stands at offset `o`.
unfoldable pub int_f2 : List ℕ → ℕ → Read Arg
int_f2 r o = elim (read16 r) [
  | none ↦ fault
  | some s ↦
      if s == 4
      then elim (read16 (drop 2 r)) [
        | none ↦ fault
        | some t ↦
            if t == 1
            then elim (read32 (drop 4 r)) [
              | none ↦ fault
              | some x ↦ done (some (integer x)) (some (o + 8))
            ]
            else keeps o
      ]
      else keeps o
]

-- `_unshift(char **)` in F2 form.
unfoldable pub string_f2 : List ℕ → ℕ → Read Arg
unfolding c_string byte_at
string_f2 r o = elim (read16 r) [
  | none ↦ fault
  | some s ↦ elim (read16 (drop 2 r)) [
    | none ↦ fault
    | some t ↦
        if t == 2
        then if ltb s 1 then keeps o else elim (byte_at (4 + s - 1) r) [
          | none ↦ fault
          | some b ↦
              if b == 0
              then elim (c_string (drop 4 r)) [
                | none ↦ fault
                | some v ↦ done (some (string v)) (some (o + (4 + s)))
              ]
              else keeps o
        ]
        else keeps o
  ]
]

-- `_unshift(Data *)`: a pointer and a size, of which nothing is read yet.
unfoldable pub data_f2 : List ℕ → ℕ → Read Arg
data_f2 r o = elim (read16 r) [
  | none ↦ fault
  | some s ↦ elim (read16 (drop 2 r)) [
    | none ↦ fault
    | some t ↦
        if t == 3 then done (some (octets (take s (drop 4 r)))) (some (o + (4 + s))) else keeps o
  ]
]

abbrev pub offset_of : ℕ → List ℕ → Option (List ℕ) → Option ℕ
offset_of o s none = none
offset_of o s (some r) = some (o + (length s - length r))

abbrev pub as_string : Option (List ℕ) → Option Arg
as_string none = none
as_string (some s) = some (string s)

abbrev pub as_integer : Option ℕ → Option Arg
as_integer none = none
as_integer (some x) = some (integer x)

-- `_unshift(char **)` in text form: what `get_next_argument` stores is kept, found or not.
unfoldable pub string_text : List ℕ → ℕ → Read Arg
unfolding c_string next_in
string_text r o = elim (c_string r) [
  | none ↦ fault
  | some s ↦
      if null s
      then keeps o
      else let n = next_in s in done (as_string n.begin) (offset_of o s n.src)
]

-- `_unshift(I32 *)` in text form.
unfoldable pub int_text : List ℕ → ℕ → Read Arg
unfolding c_string next_in number_of
int_text r o = elim (c_string r) [
  | none ↦ fault
  | some s ↦
      if null s
      then keeps o
      else let n = next_in s in done (as_integer (number_of n)) (offset_of o s n.src)
]

pub data Tag : Type 0 where
  int_tag string_tag data_tag : Tag

unfoldable pub unshift_at : ℕ → Tag → List ℕ → ℕ → Read Arg
unfolding int_f2 string_f2 data_f2 string_text int_text
unshift_at code int_tag r o = if ltb code f2_code_start then int_text r o else int_f2 r o
unshift_at code string_tag r o = if ltb code f2_code_start then string_text r o else string_f2 r o
unshift_at code data_tag r o = data_f2 r o

-- `_unshift`: `reader = data + offset` is NULL, and a fault, where `data` is or the offset is lost.
unfoldable pub unshift : Tag → Command → Read Arg
unfolding unshift_at
unshift t c = elim c.bytes [
  | none ↦ fault
  | some d ↦ elim c.offset [ none ↦ fault | some o ↦ unshift_at c.code t (drop o d) o ]
]

-- The reads one after the other: `none` is a fault, else the values and the last offset.
unfoldable pub unshift_all : List Tag → Command → Option (List (Option Arg) × Option ℕ)
unfolding unshift
unshift_all [] c = some ([], c.offset)
unshift_all (t ∷ ts) c = elim (unshift t c) [
  | fault ↦ none
  | done v o ↦ elim (unshift_all ts (record c { offset = o })) [
    | none ↦ none
    | some (vs, last) ↦ some (v ∷ vs, last)
  ]
]

-- `UNPACK_COMMAND`
unfoldable pub unpack : List Tag → Command → Option (List (Option Arg) × Option ℕ)
unfolding unshift_all
unpack ts c = unshift_all ts (record c { offset = some 0 })

-- `vunpack` from the current offset: `none` is a fault, else the result and the values. Where the
-- offset is lost it is minus the address of the data as an I32, and `high` says whether that is as
-- large as the size.
unfoldable pub vunpack_from : Bool → List Tag → Command → Option (Bool × List (Option Arg))
unfolding unshift
vunpack_from high [] c = some (true, [])
vunpack_from high (t ∷ ts) c =
    if elim c.offset [ none ↦ high | some o ↦ leb c.size o ]
    then some (false, [])
    else elim (unshift t c) [
      | fault ↦ none
      | done v o ↦ elim (vunpack_from high ts (record c { offset = o })) [
        | none ↦ none
        | some (ok, vs) ↦ some (ok, v ∷ vs)
      ]
    ]

-- `Command::unpack` and `Command::vunpack`
unfoldable pub vunpack : Bool → List Tag → Command → Option (Bool × List (Option Arg))
unfolding vunpack_from
vunpack high ts c = vunpack_from high ts (record c { offset = some 0 })
