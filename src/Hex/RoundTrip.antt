-- ===== src/Hex/RoundTrip.antt =====
-- functions.cc: hex_to_bin of what bin_to_hex writes.
use napsteresque.Base.{
  ℕ, ◌+◌, ◌*◌, ◌/◌, ◌%◌, ◌<◌, ◌≡◌, refl, ap, ◌∙◌, some, List, [], ◌∷◌, leb, ◌&&◌, if◌then◌else◌,
  All, arith,
}
use napsteresque.Hex.{digit_value, hex_to_bin, digit, bin_to_hex}

digit_value-digit : (n : ℕ) → n < 16 → digit_value (digit n) ≡ some n
unfolding digit_value digit
digit_value-digit n h = ground arith

one_byte :
    (x y v w : ℕ) (s out : List ℕ)
    → digit_value x ≡ some v
    → digit_value y ≡ some w
    → hex_to_bin s ≡ some out
    → hex_to_bin (x ∷ y ∷ s) ≡ some ((v * 16 % 256 + w) ∷ out)
unfolding hex_to_bin
one_byte x y v w s out e f g = rw (e, hex_to_bin) (rw (f, hex_to_bin) (rw (g, hex_to_bin) refl))

-- The bytes that are printed as digits are read back from them.
pub hex_to_bin-bin_to_hex :
    (bs : List ℕ) → All (λ b. b < 256) bs → hex_to_bin (bin_to_hex bs) ≡ some bs
unfolding hex_to_bin bin_to_hex
hex_to_bin-bin_to_hex [] h = refl
hex_to_bin-bin_to_hex (b ∷ bs) h =
    let whole : b / 16 * 16 % 256 + b % 16 ≡ b = omega (arith, h.0) in
    one_byte (digit (b / 16)) (digit (b % 16)) (b / 16) (b % 16) (bin_to_hex bs) bs
      (digit_value-digit (b / 16) (omega (arith, h.0))) (digit_value-digit (b % 16) (omega arith))
      (hex_to_bin-bin_to_hex bs h.1)
    ∙ ap (λ x. some (x ∷ bs)) whole

abbrev pub lower : ℕ → ℕ
lower c = if leb b'A' c && leb c b'F' then c + 32 else c
