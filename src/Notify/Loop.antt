-- ===== src/Notify/Loop.antt =====
-- notify.cc: the loops over the names of a command end.
use napsteresque.Base.{
  ℕ, zero, suc, ◌<◌, ◌≡◌, refl, Option, some, List, [], ◌∷◌, arith, Bool-cases, inl, inr,
  Option-cases,
}
use napsteresque.Args.{get_next_argument_limited}
use napsteresque.Args.Shrinks.{size, get_next_argument-Leaves}
use napsteresque.Ignore.{Name}
use napsteresque.Notify.Replies.{compname_maxbuf, arguments}

-- The loop over the names of a command ends: one round for each character, and two more, are enough.
pub arguments-total :
    (fuel : ℕ) (src : Option (List ℕ))
    → size src < fuel
    → (words : List Name) × (arguments fuel src ≡ some words)
unfolding arguments
arguments-total zero src h = absurd (omega (arith, h))
arguments-total (suc fuel) src h =
    let n = get_next_argument_limited src compname_maxbuf in
    elim (get_next_argument-Leaves src compname_maxbuf) [
      | inl f ↦ ([], rw f refl)
      | inr l ↦
          let (words, e) = arguments-total fuel n.src (omega (arith, h, l)) in
          elim (Bool-cases n.found) [
            | inr f ↦ ([], rw f refl)
            | inl f ↦ elim (Option-cases n.begin) [
              | inl b ↦ ([], rw (f, b) refl)
              | inr (w, b) ↦ (w ∷ words, rw (f, b, e) refl)
            ]
          ]
    ]
