-- ===== src/File.antt =====
-- file.hh and file.cc: a file that a client shares, how it is read from a command, and the part of its
-- path that is to be indexed. A client is the number of its object.
pub mod Parses
mod Examples
use napsteresque.Base.{
  ℕ, zero, suc, ◌+◌, ◌%◌, ◌^◌, Bool, true, false, not, ◌||◌, Option, none, some, List, [], ◌∷◌,
  ◌++◌, ltb, ◌==◌, if◌then◌else◌, length, take, swap,
}
use napsteresque.Ignore.{same_name}
use napsteresque.Cert.{Outcome, done, overrun, ◌>>=◌}
use napsteresque.Args.{strchr}
use napsteresque.Command.{Command, Arg, integer, string, octets, emit}
use napsteresque.Command.Unpack.{Tag, int_tag, string_tag, unpack}

pub record File : Type 0 where
  pub name : Option (List ℕ)
  pub id : Option (List ℕ)
  pub bitrate : ℕ
  pub frequency : ℕ
  pub duration : ℕ
  pub size : ℕ
  pub songid : ℕ
  pub client : Option ℕ

-- `File()` and `File(Client *)`
abbrev pub new : Option ℕ → File
new c = record {
  name = none;
  id = none;
  bitrate = 0;
  frequency = 0;
  duration = 0;
  size = 0;
  songid = 0;
  client = c;
}

-- `operator ==` of a string: a name that is NULL is read.
unfoldable pub equals : File → List ℕ → Outcome Bool
equals f s = elim f.name [ none ↦ overrun | some n ↦ done (same_name n s) ]

unfoldable pub differs : File → List ℕ → Outcome Bool
differs f s = equals f s >>= λ (b : Bool). done (not b)

-- A word that is unpacked, or what its target held.
abbrev pub word_or : ℕ → Option Arg → ℕ
word_or old (some (integer x)) = x
word_or old _ = old

-- A string that is unpacked: without it the target is not set.
abbrev pub pointer : Option Arg → Option (List ℕ)
pointer (some (string s)) = some s
pointer _ = none

-- FILEID_MINIMUM_LEN
abbrev pub fileid_minimum_len : ℕ
fileid_minimum_len = 32

abbrev pub targets : List Tag
targets = string_tag ∷ string_tag ∷ int_tag ∷ int_tag ∷ int_tag ∷ int_tag ∷ []

-- The end of `Parse`, of the two strings and the file with the four words set: at this commit its last
-- line is `return 0`.
unfoldable pub parse_end : Option (List ℕ) → Option (List ℕ) → File → Outcome (Bool × File)
parse_end name id f = if ltb f.size 3 then done (false, f) else elim id [
  | none ↦ overrun
  | some i ↦ if ltb (length i) fileid_minimum_len then done (false, f) else elim name [
    | none ↦ overrun
    | some n ↦ done (false, record f { name = some n; id = some i })
  ]
]

-- `Parse` of the values that are unpacked.
unfoldable pub parse_values : List (Option Arg) → File → Outcome (Bool × File)
parse_values (n ∷ i ∷ s ∷ b ∷ q ∷ d ∷ []) f = parse_end (pointer n) (pointer i) (record f {
  size = word_or f.size s;
  bitrate = word_or f.bitrate b;
  frequency = word_or f.frequency q;
  duration = word_or f.duration d;
})
parse_values vs f = overrun

-- `Parse`, with PARANOIA as defines.hh sets it.
unfoldable pub parse : Command → File → Outcome (Bool × File)
parse c f = elim (unpack targets c) [ none ↦ overrun | some (vs, last) ↦ parse_values vs f ]

-- `GetSeparator`, `none` for NUL.
unfoldable pub get_separator : List ℕ → Option ℕ
get_separator [] = none
get_separator (c ∷ s) =
    let rest = get_separator s in if (c == b'/') || (c == 92) then some c else rest

-- `strrchr`: what stands before the last place of a character, and what follows it.
unfoldable pub strrchr : ℕ → List ℕ → Option (List ℕ × List ℕ)
strrchr c [] = none
strrchr c (x ∷ s) = elim (strrchr c s) [
  | some (before, behind) ↦ some (x ∷ before, behind)
  | none ↦ if x == c then some ([], s) else none
]

-- The second search from the end, after the last separator became a space: what `path` is.
unfoldable pub second_last : ℕ → List ℕ → List ℕ
second_last sep text = elim (strrchr sep text) [
  | none ↦ text
  | some ([], behind) ↦ text
  | some (x ∷ before, behind) ↦ behind
]

-- `path` in `tokenize`, from the first separator on (`path_begin`).
unfoldable pub path_from : ℕ → List ℕ → List ℕ
path_from sep begin = elim (strrchr sep begin) [
  | none ↦ begin
  | some ([], behind) ↦ begin
  | some (x ∷ before, behind) ↦ second_last sep ((x ∷ before) ++ b' ' ∷ behind)
]

-- `tokenize`: the text that is to be split, `none` where the function returns before. Without a
-- separator the search is for NUL, and `path_begin` is the end of the name.
unfoldable pub tokenize : File → Option (List ℕ)
unfolding path_from strchr get_separator
tokenize f = elim f.name [
  | none ↦ none
  | some n ↦ if ltb (length n) 5 then none else elim (get_separator n) [
    | none ↦ some []
    | some sep ↦ elim (strchr sep n) [
      | none ↦ some (path_from sep n)
      | some (before, behind) ↦ some (path_from sep (sep ∷ behind))
    ]
  ]
]

-- `info_str`: `snprintf` writes at most 1022 characters of the line to `info`.
unfoldable pub info_str : File → Outcome (List ℕ)
unfolding emit
info_str f = elim f.id [
  | none ↦ overrun
  | some i ↦ elim f.name [
    | none ↦ overrun
    | some n ↦
        let words =
          emit 10 f.size [] ++ 9 ∷ (emit 10 f.duration [] ++ 9 ∷ emit 20 f.songid (10 ∷ [])) in
        done (take 1022 (i ++ 9 ∷ (n ++ 9 ∷ words)))
  ]
]
