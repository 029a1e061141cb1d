-- ===== src/Hex.antt =====
-- functions.cc: hex_to_bin and bin_to_hex.
pub mod RoundTrip
mod Examples
use napsteresque.Base.{
  ℕ, ◌+◌, ◌-◌, ◌*◌, ◌/◌, ◌%◌, Option, none, some, List, [], ◌∷◌, ltb, leb, ◌&&◌, if◌then◌else◌,
}

-- The table `_hex_to_bin`
unfoldable pub nibble : ℕ → ℕ
nibble c =
    if leb b'0' c && leb c b'9'
    then c - b'0'
    else if leb b'A' c && leb c b'F'
    then c - b'A' + 10
    else if leb b'a' c && leb c b'f'
    then c - b'a' + 10
    else 0

-- Its value at a `char`: from 128 on that is negative, and the read falls before the table.
unfoldable pub digit_value : ℕ → Option ℕ
unfolding nibble
digit_value c = if ltb 127 c then none else some (nibble c)

-- Two digits make a byte, and a last one that is alone the upper half of one.
unfoldable pub hex_to_bin : List ℕ → Option (List ℕ)
unfolding digit_value
hex_to_bin [] = some []
hex_to_bin (x ∷ []) = elim (digit_value x) [ none ↦ none | some v ↦ some ((v * 16 % 256) ∷ []) ]
hex_to_bin (x ∷ y ∷ s) = elim (digit_value x) [
  | none ↦ none
  | some v ↦ elim (digit_value y) [
    | none ↦ none
    | some w ↦ elim (hex_to_bin s) [ none ↦ none | some out ↦ some ((v * 16 % 256 + w) ∷ out) ]
  ]
]

-- The table `_bin_to_hex`
unfoldable pub digit : ℕ → ℕ
digit n = if ltb n 10 then b'0' + n else b'a' + (n - 10)

unfoldable pub bin_to_hex : List ℕ → List ℕ
unfolding digit
bin_to_hex [] = []
bin_to_hex (x ∷ s) = digit (x / 16) ∷ digit (x % 16) ∷ bin_to_hex s
