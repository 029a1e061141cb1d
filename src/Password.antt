-- ===== src/Password.antt =====
-- functions.cc: crypt_password. An `ulong` has 32 bits.
pub mod Blanks
mod Examples
use Prim.Native.Nat.{bit_and, bit_xor}
use napsteresque.Base.{ℕ, ◌+◌, ◌*◌, ◌/◌, ◌%◌, ◌^◌, ◌||◌, List, [], ◌∷◌, ◌++◌, ◌==◌, if◌then◌else◌}
use napsteresque.Hex.{digit}

abbrev pub ulong_mod : ℕ
ulong_mod = 2 ^ 32

pub record Hash : Type 0 where
  pub nr : ℕ
  pub nr2 : ℕ
  pub add : ℕ

abbrev pub start : Hash
start = record { nr = 1345345333; nr2 = 305419889; add = 7 }

-- One character that is no blank: `nr2` takes the new `nr`.
unfoldable pub mix : ℕ → Hash → Hash
mix tmp h =
    let nr = bit_xor h.nr (((bit_and h.nr 63 + h.add) * tmp + h.nr * 256) % ulong_mod) in
    record {
      nr = nr;
      nr2 = (h.nr2 + bit_xor (h.nr2 * 256 % ulong_mod) nr) % ulong_mod;
      add = (h.add + tmp) % ulong_mod;
    }

unfoldable pub hash : List ℕ → Hash → Hash
unfolding mix
hash [] h = h
hash (c ∷ s) h =
    let skipped = hash s h in
    let mixed = hash s (mix c h) in if c == b' ' || c == 9 then skipped else mixed

-- "%08lx" of a number below 2^32
unfoldable pub hex8 : ℕ → List ℕ
unfolding digit
hex8 x =
    digit (x / 2 ^ 28 % 16)
    ∷ digit (x / 2 ^ 24 % 16)
    ∷ digit (x / 2 ^ 20 % 16)
    ∷ digit (x / 2 ^ 16 % 16)
    ∷ digit (x / 2 ^ 12 % 16)
    ∷ digit (x / 2 ^ 8 % 16)
    ∷ digit (x / 16 % 16)
    ∷ digit (x % 16)
    ∷ []

-- `& ((1L << 31) - 1)` leaves the lower 31 bits.
unfoldable pub crypt_password : List ℕ → List ℕ
unfolding hash hex8
crypt_password s = let h = hash s start in hex8 (h.nr % 2 ^ 31) ++ hex8 (h.nr2 % 2 ^ 31)
