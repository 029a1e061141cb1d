-- ===== src/Search/Examples.antt =====
-- search.cc: two words that three files have, and one that is not wanted.
use napsteresque.Base.{
  ℕ, ◌≡◌, refl, inl, inr, Bool-cases, ◌-ℤ◌, backwards, arith, some, List, [], ◌∷◌, ◌==◌,
  if◌then◌else◌, pos,
}
use napsteresque.Search.{Search, Library, require, exclude, go, fits, excluded}
use napsteresque.Search.Bound.{IsIncreasing}
use napsteresque.Search.Answer.{answer, go-answer}

-- At least 128 kbit/s, and any of the other speeds that files have.
abbrev query : Search
query = record {
  bitrate = pos 128;
  bitrate_cmp = pos 1;
  frequency = pos 44100;
  frequency_cmp = pos 0;
  linespeed = pos 0;
  linespeed_cmp = pos 1;
  max_matches = 2;
}

abbrev shelf : Library
shelf = record {
  bitrate = λ x. if x == 7 then pos 64 else pos 160;
  frequency = λ x. pos 44100;
  client = λ x. 3;
  dataport = λ x. 6699;
  linespeed = λ x. pos 4;
}

abbrev index : List ℕ → List ℕ
index [] = []
index (x ∷ word) =
    if x == b'a' then 2 ∷ 5 ∷ 7 ∷ 8 ∷ 9 ∷ [] else if x == b'b' then 1 ∷ 5 ∷ 7 ∷ 9 ∷ [] else []

index-IsIncreasing : (word : List ℕ) → IsIncreasing (index word)
index-IsIncreasing [] = tt
index-IsIncreasing (x ∷ word) = elim (Bool-cases (x == b'a')) [
  | inl a ↦ rw a (
    (omega arith, (omega arith, (omega arith, (omega arith, tt)))),
    (
      (omega arith, (omega arith, (omega arith, tt))),
      ((omega arith, (omega arith, tt)), ((omega arith, tt), (tt, tt))),
    ),
  )
  | inr n ↦ elim (Bool-cases (x == b'b')) [
    | inl b ↦
        rw (n, b)
          (
            (omega arith, (omega arith, (omega arith, tt))),
            ((omega arith, (omega arith, tt)), ((omega arith, tt), (tt, tt))),
          )
    | inr m ↦ rw (n, m) tt
  ]
]

abbrev terms : List (List ℕ)
terms = (b'a' ∷ []) ∷ (b'b' ∷ []) ∷ (b'-' ∷ b'c' ∷ []) ∷ []

go-answer_example :
    go query shelf 1 index terms
    ≡ some (answer query shelf 1 (require index terms) (exclude index terms))
go-answer_example = go-answer query shelf 1 index terms index-IsIncreasing (omega arith)

two_found : answer query shelf 1 (index (b'a' ∷ []) ∷ index (b'b' ∷ []) ∷ []) [] ≡ (9 ∷ 5 ∷ [], 2)
unfolding answer fits excluded ◌-ℤ◌ backwards
two_found = refl
