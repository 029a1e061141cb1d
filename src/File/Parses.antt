-- ===== src/File/Parses.antt =====
-- file.cc: what `Parse` makes of a command.
use napsteresque.Base.{
  ℕ, ◌+◌, ◌≤◌, ◌<◌, ◌≡◌, refl, false, some, List, [], ◌∷◌, le→not_ltb, length, All,
}
use napsteresque.Cert.{done}
use napsteresque.Command.{Command, integer, string, f2_code_start, u16_mod, flush, new}
use napsteresque.Command.Spelling.{Plain}
use napsteresque.Command.Text.{unpack-flush_text}
use napsteresque.File.{File, parse_end, parse_values, parse}

-- From a text command of a name, an id of 32 characters or more, a size of 3 or more and three more
-- words, packed by `Command`, `Parse` sets every field of the file to what was packed, and returns
-- false. The words are of 32 bits; name and id are not empty, have no NUL and no quote, and are with
-- their NUL shorter than 2^16.
pub parse-flush :
    (fresh : ℕ → ℕ) (code : ℕ) (n i : List ℕ) (s b q d : ℕ) (f : File)
    → code < f2_code_start
    → All Plain (string n ∷ string i ∷ integer s ∷ integer b ∷ integer q ∷ integer d ∷ [])
    → length n + 1 < u16_mod
    → length i + 1 < u16_mod
    → 32 ≤ length i
    → 3 ≤ s
    → (c : Command) × (flush fresh
          (string n ∷ string i ∷ integer s ∷ integer b ∷ integer q ∷ integer d ∷ [])
          (new code)
        ≡ some c)
      × (parse c f
          ≡ done (
            false,
            record f {
              name = some n;
              id = some i;
              size = s;
              bitrate = b;
              frequency = q;
              duration = d;
            },
          ))
unfolding parse parse_values parse_end
parse-flush fresh code n i s b q d f text plain short_name short_id long large =
    let (c, last, packed, read) =
      unpack-flush_text fresh code (string n)
        (string i ∷ integer s ∷ integer b ∷ integer q ∷ integer d ∷ []) text plain
        (short_name, (short_id, (tt, (tt, (tt, (tt, tt)))))) in
    (c, packed, rw (parse, read) (rw (le→not_ltb s 3 large, le→not_ltb (length i) 32 long) refl))
