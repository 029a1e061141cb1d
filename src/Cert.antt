-- ===== src/Cert.antt =====
-- filecert.hh and filecert.cc: certificates as bytes in memory. This file has what both certificates
-- use of memory; the machine has little-endian words of 32 bits. OpenSSL's HMAC is a parameter.
pub mod Bytes
pub mod File
pub mod FileTrip
pub mod Song
pub mod Strings
pub mod SongTrip
mod Examples
use napsteresque.Base.{
  ℕ, zero, suc, ◌+◌, ◌*◌, ◌/◌, ◌%◌, Bool, true, false, List, [], ◌∷◌, ◌++◌, ◌==◌, ltb,
  if◌then◌else◌, length, take, drop,
}

-- What a function does: it returns, it throws, or it reads or writes outside of its buffer.
pub data Outcome {ℓ} (A : Type ℓ) : Type ℓ where
  done : A → Outcome A
  thrown overrun : Outcome A

infixl 5 ◌>>=◌
abbrev pub ◌>>=◌ {ℓ κ} : {A : Type ℓ} {B : Type κ} → Outcome A → (A → Outcome B) → Outcome B
done a >>= f = f a
thrown >>= f = thrown
overrun >>= f = overrun

-- `memcpy` from a pointer, which then moves on.
unfoldable pub fetch : ℕ → List ℕ → Outcome (List ℕ × List ℕ)
fetch n bs = if ltb (length bs) n then overrun else done (take n bs, drop n bs)

-- `strlen(ptr)`, and the string with its NUL copied.
unfoldable pub fetch_string : List ℕ → Outcome (List ℕ × List ℕ)
fetch_string [] = overrun
fetch_string (b ∷ bs) =
    let rest = fetch_string bs in
    if b == 0 then done ([], bs) else (rest >>= λ (r : List ℕ × List ℕ). done (b ∷ r.0, r.1))

-- `memcpy` to the front of a buffer.
unfoldable pub store : List ℕ → List ℕ → Outcome (List ℕ)
store [] buffer = done buffer
store (b ∷ bs) [] = overrun
store (b ∷ bs) (x ∷ buffer) = store bs buffer >>= λ (rest : List ℕ). done (b ∷ rest)

-- `memset` to one byte.
abbrev pub repeat : ℕ → ℕ → List ℕ
repeat zero x = []
repeat (suc n) x = x ∷ repeat n x
