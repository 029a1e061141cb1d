-- ===== src/Address/Text.antt =====
-- address.cc: an address that is printed is read again.
use mathlib.Core.List.{append-nil}
use napsteresque.Base.{
  ℕ, zero, suc, ◌-◌, ◌^◌, ◌%◌, ◌≤◌, ◌<◌, ◌≡◌, ◌≢◌, refl, sym, ap, ◌∙◌, false, Option, List, [], ◌∷◌,
  ◌++◌, ◌==◌, leb, null, length, take, arith, swap, swap-swap, swap_lt,
}
use napsteresque.Args.{scan_digits}
use napsteresque.Command.{emit}
use napsteresque.Command.Words.{
  Without, strchr-append, strchr-none, AreDigits, emit-AreDigits, length-emit_pos, scan_digits-emit,
}
use napsteresque.Address.{
  Address, of_sockaddr, to_sockaddr, atoi, made, until_nul, resolve, of_text, to_text,
}

-- The words fit their fields.
pub record IsAddress (a : Address) : Type 0 where
  pub ip : a.ip < 2 ^ 32
  pub port : a.port < 2 ^ 16

pub of_sockaddr-to_sockaddr : (a : Address) → IsAddress a → of_sockaddr (to_sockaddr a) ≡ a
unfolding of_sockaddr to_sockaddr
of_sockaddr-to_sockaddr a v =
    rw (swap-swap 4 a.ip (omega (arith, v.ip)), swap-swap 2 a.port (omega (arith, v.port))) refl

-- What the code relies on of `inet_ntoa` and `inet_addr`: the text of an address has from 1 to 15
-- characters, none of them a colon or NUL, and it is read as the address.
pub record IsInet (inet_ntoa : ℕ → List ℕ) (inet_addr : List ℕ → ℕ) : Type 0 where
  pub read : (n : ℕ) → n < 2 ^ 32 → inet_addr (inet_ntoa n) ≡ n
  pub filled : (n : ℕ) → null (inet_ntoa n) ≡ false
  pub short : (n : ℕ) → length (inet_ntoa n) ≤ 15
  pub no_colon : (n : ℕ) → Without b':' (inet_ntoa n)
  pub no_nul : (n : ℕ) → Without 0 (inet_ntoa n)

take-short : (n : ℕ) (s : List ℕ) → length s ≤ n → take n s ≡ s
take-short zero [] h = refl
take-short zero (x ∷ s) h = absurd (omega (arith, h))
take-short (suc n) [] h = refl
take-short (suc n) (x ∷ s) h = ap (λ t. x ∷ t) (take-short n s (omega (arith, h)))

atoi-digits :
    (s : List ℕ) → AreDigits s → 1 ≤ length s → scan_digits 0 s < 2 ^ 31 → atoi s ≡ scan_digits 0 s
unfolding atoi
atoi-digits [] h l b = absurd (omega (arith, l))
atoi-digits (c ∷ s) ((lo, hi), h) l b = ground (arith, lo, hi, b)

atoi-emit : (port : ℕ) → port < 2 ^ 16 → atoi (emit 5 port []) % 2 ^ 16 ≡ port
unfolding scan_digits
atoi-emit port h =
    let value : scan_digits 0 (emit 5 port []) ≡ port =
      scan_digits-emit 4 port [] (omega (arith, h)) in
    let read =
      atoi-digits (emit 5 port []) (emit-AreDigits 5 port [] tt) (length-emit_pos 4 port [])
        (omega (arith, value, h)) in
    omega (arith, read, value, h)

module _ (inet_addr : List ℕ → ℕ) (gethostbyname : List ℕ → Option ℕ) where
  resolve-known :
      (n port : ℕ) (host : List ℕ)
      → null host ≡ false
      → inet_addr host ≡ n
      → n ≢ 2 ^ 32 - 1
      → resolve inet_addr gethostbyname host port ≡ made (record { ip = swap 4 n; port = port })
  unfolding resolve
  resolve-known n port host f k b =
      let known : (n == 2 ^ 32 - 1) ≡ false = ground (arith, b) in rw (f, k, known) refl

  of_text-colon :
      (fresh host digits : List ℕ)
      → Without b':' host
      → Without 0 host
      → length host ≤ 246
      → of_text inet_addr gethostbyname fresh (host ++ b':' ∷ digits) 0
        ≡ resolve inet_addr gethostbyname host (atoi digits % 2 ^ 16)
  unfolding of_text
  of_text-colon fresh host digits c z l =
      let inside : leb 256 (length host) ≡ false = ground (arith, l) in
      let beyond : length host - 246 ≡ 0 = omega (arith, l) in
      let ends : until_nul host ≡ host = rw (until_nul, strchr-none 0 host z) refl in
      let copied : take 246 host ++ take (length host - 246) fresh ≡ host =
        rw (beyond, take-short 246 host l) (append-nil host) in
      rw (strchr-append b':' host digits c, inside, copied, ends) refl

-- An address that is printed with its port is read again by the constructor of a host without a port
-- as the same address, if it is not 255.255.255.255: whatever stands in memory, and without a question
-- to the name server.
pub of_text-to_text :
    (inet_ntoa : ℕ → List ℕ) (inet_addr : List ℕ → ℕ) (gethostbyname : List ℕ → Option ℕ)
    (fresh : List ℕ) (a : Address)
    → IsInet inet_ntoa inet_addr
    → IsAddress a
    → a.ip ≢ 2 ^ 32 - 1
    → of_text inet_addr gethostbyname fresh (to_text inet_ntoa a) 0 ≡ made a
unfolding to_text
of_text-to_text inet_ntoa inet_addr gethostbyname fresh a w v b =
    let n = swap 4 a.ip in
    let host = inet_ntoa n in
    let digits = emit 5 a.port [] in
    let text : take 31 host ≡ host = take-short 31 host (omega (arith, w.short n)) in
    let back : swap 4 n ≡ a.ip = swap-swap 4 a.ip (omega (arith, v.ip)) in
    let known : n ≢ 2 ^ 32 - 1 = λ e. b (sym back ∙ ap (swap 4) e) in
    ap (λ h. of_text inet_addr gethostbyname fresh (h ++ b':' ∷ digits) 0) text
    ∙ of_text-colon inet_addr gethostbyname fresh host digits (w.no_colon n) (w.no_nul n)
        (omega (arith, w.short n))
    ∙ resolve-known inet_addr gethostbyname n (atoi digits % 2 ^ 16) host (w.filled n)
        (w.read n (omega (arith, swap_lt 4 a.ip))) known
    ∙ ap made (rw (back, atoi-emit a.port v.port) refl)
