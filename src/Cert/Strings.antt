-- ===== src/Cert/Strings.antt =====
-- filecert.cc: the head and the strings of a song certificate as bytes.
use napsteresque.Base.{
  word_of-bytes_of, swap-swap, ℕ, ◌+◌, ◌^◌, ◌≤◌, ◌<◌, ◌≡◌, refl, ap, ◌∙◌, Option, none, some, List,
  [], ◌∷◌, ◌++◌, length, All, arith, length-append,
}
use mathlib.Core.List.{append_assoc}
use napsteresque.Cert.{done, fetch_string}
use napsteresque.Cert.Bytes.{IsChar, fetch_string-append}
use napsteresque.Cert.Song.{
  SongCertHead, ntoh, head_bytes, head_of, SongCert, string_bytes, names_bytes, string_size,
  names_size,
}

-- The words fit their fields.
pub record IsHead (h : SongCertHead) : Type 0 where
  pub end_date : h.end_date < 2 ^ 32
  pub date : h.date < 2 ^ 32
  pub duration : h.duration < 2 ^ 32
  pub songid : h.songid < 2 ^ 64

-- `hton`, which is `ntoh`, undoes `ntoh` on every head whose words fit their fields.
pub ntoh-ntoh : (h : SongCertHead) → IsHead h → ntoh (ntoh h) ≡ h
unfolding ntoh
ntoh-ntoh h v =
    rw
      (
        swap-swap 4 h.end_date (omega (arith, v.end_date)),
        swap-swap 4 h.date (omega (arith, v.date)),
        swap-swap 4 h.duration (omega (arith, v.duration)),
        swap-swap 8 h.songid (omega (arith, v.songid)),
      )
      refl

pub head_of-head_bytes : (h : SongCertHead) → IsHead h → head_of (head_bytes h) ≡ h
unfolding head_of head_bytes
head_of-head_bytes h v =
    rw
      (
        word_of-bytes_of 4 h.end_date (omega (arith, v.end_date)),
        word_of-bytes_of 4 h.date (omega (arith, v.date)),
        word_of-bytes_of 4 h.duration (omega (arith, v.duration)),
        word_of-bytes_of 8 h.songid (omega (arith, v.songid)),
      )
      refl

pub length-head_bytes : (h : SongCertHead) → length (head_bytes h) ≡ 24
unfolding head_bytes
length-head_bytes h = refl

-- The characters that a pointer leads to, none where it is NULL.
abbrev pub named : Option (List ℕ) → List ℕ
named none = []
named (some s) = s

pub fetch_string-string_bytes :
    (o : Option (List ℕ)) (r : List ℕ)
    → All IsChar (named o)
    → fetch_string (string_bytes o ++ r) ≡ done (named o, r)
unfolding fetch_string
fetch_string-string_bytes none r h = refl
fetch_string-string_bytes (some s) r h =
    ap fetch_string (append_assoc s (0 ∷ []) r) ∙ fetch_string-append s r h

length-string_bytes :
    (o : Option (List ℕ)) (r : List ℕ) → length (string_bytes o ++ r) ≡ string_size o + length r
length-string_bytes none r = omega arith
length-string_bytes (some s) r =
    omega (arith, length-append (s ++ 0 ∷ []) r, length-append s (0 ∷ []))

string_size_pos : (o : Option (List ℕ)) → 0 < string_size o
string_size_pos none = omega arith
string_size_pos (some s) = omega arith

pub names_size_ge : (c : SongCert) → 6 ≤ names_size c
names_size_ge c = omega (
  arith,
  string_size_pos c.artist,
  string_size_pos c.title,
  string_size_pos c.album,
  string_size_pos c.composer,
  string_size_pos c.orchestra,
  string_size_pos c.soloist,
)

pub length-names_bytes :
    (c : SongCert) (r : List ℕ) → length (names_bytes c r) ≡ names_size c + length r
unfolding names_bytes
length-names_bytes c r = simp length-string_bytes (omega arith)

pub names_bytes-append :
    (c : SongCert) (r t : List ℕ) → names_bytes c r ++ t ≡ names_bytes c (r ++ t)
unfolding names_bytes
names_bytes-append c r t = simp append_assoc

-- The strings of a certificate have no NUL inside.
pub record HasStrings (c : SongCert) : Type 0 where
  pub artist : All IsChar (named c.artist)
  pub title : All IsChar (named c.title)
  pub album : All IsChar (named c.album)
  pub composer : All IsChar (named c.composer)
  pub orchestra : All IsChar (named c.orchestra)
  pub soloist : All IsChar (named c.soloist)
