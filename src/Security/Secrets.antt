-- ===== src/Security/Secrets.antt =====
-- security.cc: where a secret stands while it is locked and unlocked.
use mathlib.Core.List.{append-nil}
use napsteresque.Base.{
  ℕ, zero, suc, ◌+◌, ◌≡◌, ◌⊎◌, inl, inr, refl, ap, ◌∙◌, true, false, List, [], ◌∷◌, ◌++◌, length,
  drop, All, arith, length-append,
}
use napsteresque.Cert.{done, store, repeat}
use napsteresque.Cert.Bytes.{IsChar, drop-length, store-fits, fetch_string-append}
use napsteresque.Security.{Block, lock_string, unlock_string}

length-repeat : (n : ℕ) → length (repeat n 0) ≡ n
length-repeat zero = refl
length-repeat (suc n) = omega (arith, length-repeat n)

drop-whole : (n : ℕ) (xs : List ℕ) → length xs ≡ n → drop n xs ≡ []
drop-whole zero [] h = refl
drop-whole zero (x ∷ xs) h = absurd (omega (arith, h))
drop-whole (suc n) [] h = refl
drop-whole (suc n) (x ∷ xs) h = drop-whole n xs (omega (arith, h))

-- A block is locked, or has not the secret yet, or has it no longer.
abbrev pub IsGuarded : List ℕ → ℕ → Block → Type 0
IsGuarded fresh n b = (b.locked ≡ true) ⊎ (b.bytes ≡ fresh) ⊎ (b.bytes ≡ repeat n 0 ++ 0 ∷ [])

wipe :
    (text rest : List ℕ)
    → store (repeat (length text) 0) (text ++ 0 ∷ rest) ≡ done (repeat (length text) 0 ++ 0 ∷ rest)
wipe text rest =
    let zeros = repeat (length text) 0 in
    store-fits zeros (text ++ 0 ∷ rest)
      (omega (arith, length-repeat (length text), length-append text (0 ∷ rest)))
    ∙ ap (λ t. done (zeros ++ t))
        (ap (λ n. drop n (text ++ 0 ∷ rest)) (length-repeat (length text))
          ∙ drop-length text (0 ∷ rest))

-- Where `mlock` and `munlock` succeed, `lock_string` copies the string to a new block and wipes it where
-- it stood, `unlock_string` wipes the block, and in every state of the block until it is freed it is
-- locked, or is as memory was before, or is wiped.
pub unlock_string-lock_string :
    (text rest fresh : List ℕ)
    → All IsChar text
    → length fresh ≡ length text + 1
    → (b : Block) × (locking unlocking : List Block) × (lock_string true fresh (text ++ 0 ∷ rest)
        ≡ done (b ∷ locking, repeat (length text) 0 ++ 0 ∷ rest))
      × (b.bytes ≡ text ++ 0 ∷ [])
      × (unlock_string true b ≡ done unlocking)
      × All (IsGuarded fresh (length text)) (unlocking ++ (b ∷ locking))
unfolding lock_string unlock_string
unlock_string-lock_string text rest fresh chars room =
    let b : Block = record { bytes = text ++ 0 ∷ []; locked = true } in
    let before : Block = record { bytes = fresh; locked = false } in
    let pinned : Block = record { bytes = fresh; locked = true } in
    let wiped : Block = record { bytes = repeat (length text) 0 ++ 0 ∷ []; locked = true } in
    let freed : Block = record { bytes = repeat (length text) 0 ++ 0 ∷ []; locked = false } in
    let whole = length-append text (0 ∷ []) in
    let copied : store (text ++ 0 ∷ []) fresh ≡ done (text ++ 0 ∷ []) =
      store-fits (text ++ 0 ∷ []) fresh (omega (arith, whole, room))
      ∙ ap (λ t. done ((text ++ 0 ∷ []) ++ t))
          (drop-whole (length (text ++ 0 ∷ [])) fresh (omega (arith, whole, room)))
      ∙ ap done (append-nil (text ++ 0 ∷ [])) in
    (
      b,
      pinned ∷ before ∷ [],
      freed ∷ wiped ∷ b ∷ [],
      rw (fetch_string-append text rest chars, copied, wipe text rest) refl,
      refl,
      rw (fetch_string-append text [] chars, wipe text []) refl,
      (inr (inr refl), (inl refl, (inl refl, (inl refl, (inl refl, (inr (inl refl), tt)))))),
    )
