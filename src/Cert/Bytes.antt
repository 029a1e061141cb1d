-- ===== src/Cert/Bytes.antt =====
-- filecert.cc: what is copied to memory is read back from it.
use napsteresque.Base.{
  ℕ, ◌≤◌, ◌≡◌, refl, sym, ap, false, List, [], ◌∷◌, ◌++◌, ◌==◌, ltb, length, take, drop, All, arith,
  length-append, le→not_ltb,
}
use napsteresque.Cert.{done, fetch, fetch_string, store}

-- A character of a string.
abbrev pub IsChar : ℕ → Type 0
IsChar b = (b == 0) ≡ false

pub take-length : (xs ys : List ℕ) → take (length xs) (xs ++ ys) ≡ xs
take-length [] ys = refl
take-length (x ∷ xs) ys = rw (take-length xs ys) refl

pub drop-length : (xs ys : List ℕ) → drop (length xs) (xs ++ ys) ≡ ys
drop-length [] ys = refl
drop-length (x ∷ xs) ys = drop-length xs ys

pub take-all : (xs : List ℕ) → take (length xs) xs ≡ xs
take-all [] = refl
take-all (x ∷ xs) = ap (λ t. x ∷ t) (take-all xs)

pub fetch-append : (n : ℕ) (xs ys : List ℕ) → length xs ≡ n → fetch n (xs ++ ys) ≡ done (xs, ys)
unfolding fetch
fetch-append n xs ys h =
    let fits : ltb (length (xs ++ ys)) n ≡ false =
      le→not_ltb (length (xs ++ ys)) n (omega (arith, length-append xs ys, h)) in
    rw (fits, sym h, take-length xs ys, drop-length xs ys) refl

pub fetch_string-append : (s ys : List ℕ) → All IsChar s → fetch_string (s ++ 0 ∷ ys) ≡ done (s, ys)
unfolding fetch_string
fetch_string-append [] ys h = refl
fetch_string-append (c ∷ s) ys (h, hs) = rw (h, fetch_string-append s ys hs) refl

pub store-fits :
    (bs buffer : List ℕ)
    → length bs ≤ length buffer
    → store bs buffer ≡ done (bs ++ drop (length bs) buffer)
unfolding store
store-fits [] buffer h = refl
store-fits (b ∷ bs) [] h = absurd (omega (arith, h))
store-fits (b ∷ bs) (x ∷ buffer) h = rw (store-fits bs buffer (omega (arith, h))) refl

pub length-overwritten :
    (bs buffer : List ℕ)
    → length bs ≤ length buffer
    → length (bs ++ drop (length bs) buffer) ≡ length buffer
length-overwritten [] buffer h = refl
length-overwritten (b ∷ bs) [] h = absurd (omega (arith, h))
length-overwritten (b ∷ bs) (x ∷ buffer) h =
    omega (arith, length-overwritten bs buffer (omega (arith, h)))
