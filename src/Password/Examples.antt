-- ===== src/Password/Examples.antt =====
-- functions.cc: a password with a blank.
use napsteresque.Base.{ℕ, ◌≡◌, refl, List, [], ◌∷◌}
use napsteresque.Password.{crypt_password}

abbrev secret : List ℕ
secret = b'a' ∷ b' ' ∷ b'b' ∷ []

-- The print of the two numbers that it starts with.
of_nothing :
    crypt_password []
    ≡ b'5' ∷ b'0' ∷ b'3' ∷ b'0' ∷ b'5' ∷ b'7' ∷ b'3' ∷ b'5' ∷ b'1' ∷ b'2' ∷ b'3' ∷ b'4' ∷ b'5'
      ∷ b'6' ∷ b'7' ∷ b'1' ∷ []
unfolding crypt_password
of_nothing = refl
