-- ===== src/Base/Words.antt =====
-- Machine words as the bytes of a little-endian memory, and their byte order in the network.
use Prim.Native.Nat.{ℕ, zero, suc, ◌+◌, ◌*◌, ◌/◌, ◌%◌, ◌^◌, ◌<◌}
use mathlib.Core.Path.{◌≡◌, refl, sym, ap, ◌∙◌}
use mathlib.Core.List.{List, [], ◌∷◌, ◌++◌, append-nil}
use native.Mathlib.Omega.{arith}
use napsteresque.Base.Lists.{length, All}

-- A word of so many bytes as it stands in memory, and read back.
unfoldable pub bytes_of : ℕ → ℕ → List ℕ
bytes_of zero x = []
bytes_of (suc n) x = x % 256 ∷ bytes_of n (x / 256)

unfoldable pub word_of : List ℕ → ℕ
word_of [] = 0
word_of (b ∷ bs) = b + 256 * word_of bs

unfoldable pub backwards : List ℕ → List ℕ → List ℕ
backwards [] acc = acc
backwards (b ∷ bs) acc = backwards bs (b ∷ acc)

-- `ntohl` and `ntohll` on such a machine, with 4 and 8 bytes.
unfoldable pub swap : ℕ → ℕ → ℕ
unfolding bytes_of word_of backwards
swap n x = word_of (backwards (bytes_of n x) [])

abbrev pub IsByte : ℕ → Type 0
IsByte b = b < 256

bytes_in : (n x : ℕ) → All IsByte (bytes_of n x)
unfolding bytes_of
bytes_in zero x = tt
bytes_in (suc n) x = (omega arith, bytes_in n (x / 256))

pub length-bytes_of : (n x : ℕ) → length (bytes_of n x) ≡ n
unfolding bytes_of
length-bytes_of zero x = refl
length-bytes_of (suc n) x = rw (length-bytes_of n (x / 256)) refl

pub word_of-bytes_of : (n x : ℕ) → x < 256 ^ n → word_of (bytes_of n x) ≡ x
unfolding bytes_of word_of
word_of-bytes_of zero x h = omega arith
word_of-bytes_of (suc n) x h =
    let ih = word_of-bytes_of n (x / 256) (omega (arith, h)) in omega (arith, ih)

bytes_of-word_of : (bs : List ℕ) → All IsByte bs → bytes_of (length bs) (word_of bs) ≡ bs
unfolding bytes_of word_of
bytes_of-word_of [] h = refl
bytes_of-word_of (b ∷ bs) (h, hs) =
    let low : (b + 256 * word_of bs) % 256 ≡ b = omega (arith, h) in
    let high : (b + 256 * word_of bs) / 256 ≡ word_of bs = omega (arith, h) in
    rw (low, high, bytes_of-word_of bs hs) refl

backwards-backwards : (bs acc r : List ℕ) → backwards (backwards bs acc) r ≡ backwards acc (bs ++ r)
unfolding backwards
backwards-backwards [] acc r = refl
backwards-backwards (b ∷ bs) acc r = backwards-backwards bs (b ∷ acc) r

length-backwards : (bs acc : List ℕ) → length (backwards bs acc) ≡ length bs + length acc
unfolding backwards
length-backwards [] acc = omega arith
length-backwards (b ∷ bs) acc = omega (arith, length-backwards bs (b ∷ acc))

backwards-All : (bs acc : List ℕ) → All IsByte bs → All IsByte acc → All IsByte (backwards bs acc)
unfolding backwards
backwards-All [] acc h k = k
backwards-All (b ∷ bs) acc (h, hs) k = backwards-All bs (b ∷ acc) hs (h, k)

-- `ntohl` undoes itself on every word of its size.
pub swap-swap : (n x : ℕ) → x < 256 ^ n → swap n (swap n x) ≡ x
unfolding swap backwards
swap-swap n x h =
    let bs = bytes_of n x in
    let turned = backwards bs [] in
    let long : length turned ≡ n = omega (arith, length-backwards bs [], length-bytes_of n x) in
    let read : bytes_of n (word_of turned) ≡ turned =
      ap (λ k. bytes_of k (word_of turned)) (sym long)
      ∙ bytes_of-word_of turned (backwards-All bs [] (bytes_in n x) tt) in
    ap (λ t. word_of (backwards t [])) read
    ∙ ap word_of (backwards-backwards bs [] [] ∙ append-nil bs)
    ∙ word_of-bytes_of n x h

word_of-lt : (n : ℕ) (bs : List ℕ) → length bs ≡ n → All IsByte bs → word_of bs < 256 ^ n
unfolding word_of
word_of-lt n [] h hs = rw (sym h) (omega arith)
word_of-lt zero (b ∷ bs) h (k, ks) = absurd (omega (arith, h))
word_of-lt (suc n) (b ∷ bs) h (k, ks) = omega (arith, k, word_of-lt n bs (omega (arith, h)) ks)

pub swap_lt : (n x : ℕ) → swap n x < 256 ^ n
unfolding swap
swap_lt n x =
    let bs = bytes_of n x in
    word_of-lt n (backwards bs []) (omega (arith, length-backwards bs [], length-bytes_of n x))
      (backwards-All bs [] (bytes_in n x) tt)
