-- ===== src/Address/Examples.antt =====
-- address.cc: the 300th call of `ip_str` and the next, and an address that is printed and read.
use napsteresque.Base.{
  ℕ, ◌%◌, ◌^◌, ◌≤◌, ◌<◌, ◌≡◌, refl, ap, ◌∙◌, ◌⊎◌, inl, inr, false, none, List, [], ◌∷◌, length,
  null, arith,
}
use napsteresque.Args.{scan_digits}
use napsteresque.Command.{emit}
use napsteresque.Command.Room.{length-emit}
use napsteresque.Command.Words.{
  Without, AreDigits, emit-AreDigits, length-emit_pos, scan_digits-emit,
}
use napsteresque.Address.{Address, made, of_text, to_text}
use napsteresque.Address.Text.{IsInet, of_text-to_text}

-- Addresses written as one number, which `inet_addr` reads too.
unfoldable decimal : ℕ → List ℕ
decimal n = emit 10 (n % 2 ^ 32) []

unfoldable of_decimal : List ℕ → ℕ
of_decimal s = scan_digits 0 s

-- A digit is no other character.
AreDigits-Without : (c : ℕ) (s : List ℕ) → (c < b'0') ⊎ (b'9' < c) → AreDigits s → Without c s
AreDigits-Without c [] k h = tt
AreDigits-Without c (x ∷ s) k h = ((λ e. omega (arith, e, h.0, k)), AreDigits-Without c s k h.1)

null_of_length : (s : List ℕ) → 1 ≤ length s → null s ≡ false
null_of_length [] h = absurd (omega (arith, h))
null_of_length (x ∷ s) h = refl

decimal-IsInet : IsInet decimal of_decimal
unfolding decimal of_decimal scan_digits
decimal-IsInet = record {
  read = λ n h.
      (let small : n % 2 ^ 32 ≡ n = omega (arith, h) in
        ap (λ m. scan_digits 0 (emit 10 m [])) small ∙ scan_digits-emit 9 n [] (omega (arith, h)));
  filled = λ n. null_of_length (decimal n) (length-emit_pos 9 (n % 2 ^ 32) []);
  short = λ n. omega (arith, length-emit 10 (n % 2 ^ 32) []);
  no_colon = λ n.
      AreDigits-Without b':' (decimal n) (inr (omega arith)) (emit-AreDigits 10 (n % 2 ^ 32) [] tt);
  no_nul = λ n.
      AreDigits-Without 0 (decimal n) (inl (omega arith)) (emit-AreDigits 10 (n % 2 ^ 32) [] tt);
}

abbrev home : Address
home = record { ip = 2130706433; port = 8888 }

of_text-to_text_example : of_text of_decimal (λ name. none) [] (to_text decimal home) 0 ≡ made home
of_text-to_text_example =
    of_text-to_text decimal of_decimal (λ name. none) [] home decimal-IsInet
      (record { ip = omega arith; port = omega arith }) (λ e. omega (arith, e))
