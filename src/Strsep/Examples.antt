-- ===== src/Strsep/Examples.antt =====
-- functions.cc: my_strsep on small texts.
use napsteresque.Base.{ℕ, ◌≡◌, refl, some, List, [], ◌∷◌}
use napsteresque.Strsep.{my_strsep}
use napsteresque.Strsep.Fields.{IsField, my_strsep-IsField}

abbrev a_b : List ℕ
a_b = b'a' ∷ b',' ∷ b'b' ∷ []

taken : my_strsep (some a_b) (b';' ∷ b',' ∷ []) ≡ (some (b'a' ∷ []), some (b'b' ∷ []))
unfolding my_strsep
taken = refl

my_strsep-IsField_example : IsField a_b (b',' ∷ []) (my_strsep (some a_b) (b',' ∷ []))
my_strsep-IsField_example = my_strsep-IsField a_b (b',' ∷ [])
