-- ===== src/Hex/Examples.antt =====
-- functions.cc: hexadecimal digits of small blocks.
use napsteresque.Base.{◌≡◌, refl, some, [], ◌∷◌, arith}
use napsteresque.Hex.{hex_to_bin, bin_to_hex}
use napsteresque.Hex.RoundTrip.{hex_to_bin-bin_to_hex}

-- A last digit that is alone is the upper half of a byte.
odd : hex_to_bin (b'1' ∷ b'F' ∷ b'2' ∷ []) ≡ some (31 ∷ 32 ∷ [])
unfolding hex_to_bin
odd = refl

hex_to_bin-bin_to_hex_example :
    hex_to_bin (bin_to_hex (0 ∷ 171 ∷ 255 ∷ [])) ≡ some (0 ∷ 171 ∷ 255 ∷ [])
hex_to_bin-bin_to_hex_example =
    hex_to_bin-bin_to_hex (0 ∷ 171 ∷ 255 ∷ []) (omega arith, (omega arith, (omega arith, tt)))
