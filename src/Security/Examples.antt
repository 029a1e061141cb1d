-- ===== src/Security/Examples.antt =====
-- security.cc: a password that is locked and unlocked.
use napsteresque.Base.{ℕ, ◌≡◌, refl, true, List, [], ◌∷◌, ◌++◌, All, length}
use napsteresque.Cert.{done, repeat}
use napsteresque.Security.{Block, lock_string, unlock_string}
use napsteresque.Security.Secrets.{IsGuarded, unlock_string-lock_string}

abbrev word : List ℕ
word = b'f' ∷ b'o' ∷ b'o' ∷ []

unlock_string-lock_string_example :
    (b : Block) × (locking unlocking : List Block) × (lock_string true (repeat 4 9) (word ++ 0 ∷ [])
      ≡ done (b ∷ locking, repeat (length word) 0 ++ 0 ∷ []))
    × (b.bytes ≡ word ++ 0 ∷ [])
    × (unlock_string true b ≡ done unlocking)
    × All (IsGuarded (repeat 4 9) (length word)) (unlocking ++ (b ∷ locking))
unlock_string-lock_string_example =
    unlock_string-lock_string word [] (repeat 4 9) (refl, (refl, (refl, tt))) refl
