-- ===== src/File/Examples.antt =====
-- file.cc: a file that a client shares.
use napsteresque.Base.{ℕ, zero, suc, ◌≡◌, ◌≢◌, refl, false, All, some, none, List, [], ◌∷◌, arith}
use napsteresque.Cert.{done, repeat}
use napsteresque.Command.{Command, string, integer, flush, new}
use napsteresque.Command.Spelling.{Plain}
use napsteresque.Command.Words.{Without}
use napsteresque.File
use napsteresque.File.{File, get_separator, parse, tokenize}
use napsteresque.File.Parses.{parse-flush}

abbrev digits : List ℕ
digits = repeat 32 b'a'

abbrev song : List ℕ
song = b's' ∷ b'.' ∷ b'm' ∷ []

abbrev shared : File.File
shared = record (File.new (some 4)) {
  name = some song;
  id = some digits;
  size = 4000;
  bitrate = 128;
  frequency = 44100;
  duration = 240;
}

repeat-Without : (n x c : ℕ) → x ≢ c → Without c (repeat n x)
repeat-Without zero x c h = tt
repeat-Without (suc n) x c h = (h, repeat-Without n x c h)

packed-Plain :
    All Plain
      (string song ∷ string digits ∷ integer 4000 ∷ integer 128 ∷ integer 44100 ∷ integer 240 ∷ [])
packed-Plain = (
  (
    omega arith,
    ((λ e. omega (arith, e)), ((λ e. omega (arith, e)), ((λ e. omega (arith, e)), tt))),
    ((λ e. omega (arith, e)), ((λ e. omega (arith, e)), ((λ e. omega (arith, e)), tt))),
  ),
  (
    (
      omega arith,
      repeat-Without 32 b'a' b'"' (λ e. omega (arith, e)),
      repeat-Without 32 b'a' 0 (λ e. omega (arith, e)),
    ),
    (omega arith, (omega arith, (omega arith, (omega arith, tt)))),
  ),
)

parse-flush_example :
    (c : Command) × (flush
        (λ k. 0)
        (string song
          ∷ string digits
          ∷ integer 4000
          ∷ integer 128
          ∷ integer 44100
          ∷ integer 240
          ∷ [])
        (new 100)
      ≡ some c)
    × (parse c (File.new (some 4)) ≡ done (false, shared))
parse-flush_example =
    parse-flush (λ k. 0) 100 song digits 4000 128 44100 240 (File.new (some 4)) (omega arith)
      packed-Plain (omega arith) (omega arith) (omega arith) (omega arith)

-- A path of three directories.
abbrev path : List ℕ
path = b'c' ∷ b'/' ∷ b'x' ∷ b'/' ∷ b'd' ∷ b'/' ∷ b'f' ∷ []

abbrev of_path : List ℕ → File.File
of_path s = record (File.new none) { name = some s }

path-tokens : tokenize (of_path path) ≡ some (b'd' ∷ b' ' ∷ b'f' ∷ [])
unfolding tokenize get_separator File.strrchr File.second_last
path-tokens = refl

-- A name without a separator: nothing of it is split.
tokenize-bare : tokenize (of_path (b's' ∷ b'.' ∷ b'm' ∷ b'p' ∷ b'3' ∷ [])) ≡ some []
unfolding tokenize get_separator
tokenize-bare = refl
