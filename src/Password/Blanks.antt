-- ===== src/Password/Blanks.antt =====
-- functions.cc: what crypt_password does not see, and the form of what it returns.
use napsteresque.Base.{
  ℕ, ◌/◌, ◌%◌, ◌^◌, ◌≡◌, refl, ap, ◌∙◌, ◌||◌, some, List, [], ◌∷◌, ◌++◌, ◌==◌, if◌then◌else◌,
  length, arith, Bool-cases, inl, inr,
}
use napsteresque.Hex.{digit, hex_to_bin, bin_to_hex}
use napsteresque.Hex.RoundTrip.{hex_to_bin-bin_to_hex}
use napsteresque.Password.{Hash, start, mix, hash, hex8, crypt_password}

unfoldable pub unblanked : List ℕ → List ℕ
unblanked [] = []
unblanked (c ∷ s) = let rest = unblanked s in if c == b' ' || c == 9 then rest else c ∷ rest

hash-unblanked : (s : List ℕ) (h : Hash) → hash (unblanked s) h ≡ hash s h
unfolding hash unblanked
hash-unblanked [] h = refl
hash-unblanked (c ∷ s) h = elim (Bool-cases (c == b' ' || c == 9)) [
  | inl k ↦ rw k (hash-unblanked s h)
  | inr k ↦ rw k (rw k (hash-unblanked s (mix c h)))
]

abbrev bytes4 : ℕ → List ℕ
bytes4 x = (x / 2 ^ 24 % 256) ∷ (x / 2 ^ 16 % 256) ∷ (x / 2 ^ 8 % 256) ∷ (x % 256) ∷ []

hex8-bytes4 : (x : ℕ) (r : List ℕ) → hex8 x ++ bin_to_hex r ≡ bin_to_hex (bytes4 x ++ r)
unfolding hex8 bin_to_hex
hex8-bytes4 x r =
    let e1 : x / 2 ^ 28 % 16 ≡ x / 2 ^ 24 % 256 / 16 = omega arith in
    let e2 : x / 2 ^ 24 % 16 ≡ x / 2 ^ 24 % 256 % 16 = omega arith in
    let e3 : x / 2 ^ 20 % 16 ≡ x / 2 ^ 16 % 256 / 16 = omega arith in
    let e4 : x / 2 ^ 16 % 16 ≡ x / 2 ^ 16 % 256 % 16 = omega arith in
    let e5 : x / 2 ^ 12 % 16 ≡ x / 2 ^ 8 % 256 / 16 = omega arith in
    let e6 : x / 2 ^ 8 % 16 ≡ x / 2 ^ 8 % 256 % 16 = omega arith in
    let e7 : x / 16 % 16 ≡ x % 256 / 16 = omega arith in
    let e8 : x % 16 ≡ x % 256 % 16 = omega arith in
    λ i.
      digit (e1 i)
      ∷ digit (e2 i)
      ∷ digit (e3 i)
      ∷ digit (e4 i)
      ∷ digit (e5 i)
      ∷ digit (e6 i)
      ∷ digit (e7 i)
      ∷ digit (e8 i)
      ∷ bin_to_hex r

hex8_pair : (x y : ℕ) → hex8 x ++ hex8 y ≡ bin_to_hex (bytes4 x ++ bytes4 y)
unfolding hex8 bin_to_hex
hex8_pair x y = ap (λ t. hex8 x ++ t) (hex8-bytes4 y []) ∙ hex8-bytes4 x (bytes4 y)

read_pair : (x y : ℕ) → hex_to_bin (hex8 x ++ hex8 y) ≡ some (bytes4 x ++ bytes4 y)
read_pair x y =
    ap hex_to_bin (hex8_pair x y)
    ∙ hex_to_bin-bin_to_hex (bytes4 x ++ bytes4 y) (
      omega arith,
      (
        omega arith,
        (
          omega arith,
          (omega arith, (omega arith, (omega arith, (omega arith, (omega arith, tt))))),
        ),
      ),
    )

-- The password that is stored does not depend on the blanks and tabs of the one that is given, and it
-- is 16 hexadecimal digits, the print of eight bytes.
pub crypt_password-unblanked :
    (s : List ℕ)
    → (crypt_password (unblanked s) ≡ crypt_password s)
      × (length (crypt_password s) ≡ 16)
      × (bs : List ℕ) × (hex_to_bin (crypt_password s) ≡ some bs)
      × (length bs ≡ 8)
unfolding crypt_password hex8
crypt_password-unblanked s =
    let h = hash s start in
    (
      ap (λ (h : Hash). hex8 (h.nr % 2 ^ 31) ++ hex8 (h.nr2 % 2 ^ 31)) (hash-unblanked s start),
      refl,
      bytes4 (h.nr % 2 ^ 31) ++ bytes4 (h.nr2 % 2 ^ 31),
      read_pair (h.nr % 2 ^ 31) (h.nr2 % 2 ^ 31),
      refl,
    )
