-- ===== src/Cert/Song.antt =====
-- filecert.hh and filecert.cc: `SongCertHead` and `SongCert`.
use napsteresque.Base.{
  bytes_of, word_of, swap, same_bytes, ℕ, ◌+◌, ◌%◌, ◌^◌, Bool, Option, none, some, List, [], ◌∷◌,
  ◌++◌, ltb, if◌then◌else◌, length, take, drop,
}
use napsteresque.Cert.{Outcome, done, thrown, ◌>>=◌, fetch, fetch_string, store, repeat}

pub record SongCertHead : Type 0 where
  pub version : ℕ
  pub pad : ℕ × ℕ × ℕ
  pub end_date : ℕ
  pub date : ℕ
  pub duration : ℕ
  pub songid : ℕ

unfoldable pub ntoh : SongCertHead → SongCertHead
unfolding swap
ntoh h = record h {
  end_date = swap 4 h.end_date;
  date = swap 4 h.date;
  duration = swap 4 h.duration;
  songid = swap 8 h.songid;
}

-- `sizeof(struct SongCertHead)`
abbrev pub head_size : ℕ
head_size = 24

-- The head in memory.
unfoldable pub head_bytes : SongCertHead → List ℕ
unfolding bytes_of
head_bytes h =
    h.version
    ∷ h.pad.0
    ∷ h.pad.1
    ∷ h.pad.2
    ∷ (bytes_of 4 h.end_date
        ++ (bytes_of 4 h.date ++ (bytes_of 4 h.duration ++ bytes_of 8 h.songid)))

-- What `memcpy(&head, ptr, sizeof(struct SongCertHead))` makes the fields.
unfoldable pub head_of : List ℕ → SongCertHead
unfolding word_of
head_of (v ∷ a ∷ b ∷ c ∷ bs) = record {
  version = v;
  pad = (a, b, c);
  end_date = word_of (take 4 bs);
  date = word_of (take 4 (drop 4 bs));
  duration = word_of (take 4 (drop 8 bs));
  songid = word_of (take 8 (drop 12 bs));
}
head_of _ = record {
  version = 0;
  pad = (0, 0, 0);
  end_date = 0;
  date = 0;
  duration = 0;
  songid = 0;
}

-- A `char *` is the characters before its NUL, `none` where it is NULL.
pub record SongCert : Type 0 where
  pub head : SongCertHead
  pub artist : Option (List ℕ)
  pub title : Option (List ℕ)
  pub album : Option (List ℕ)
  pub composer : Option (List ℕ)
  pub orchestra : Option (List ℕ)
  pub soloist : Option (List ℕ)
  pub signature : List ℕ

-- The constructor, whose `memset` clears all bytes.
abbrev pub new : SongCert
new = record {
  head = record { version = 0; pad = (0, 0, 0); end_date = 0; date = 0; duration = 0; songid = 0 };
  artist = none;
  title = none;
  album = none;
  composer = none;
  orchestra = none;
  soloist = none;
  signature = repeat 20 0;
}

abbrev pub set_artist : List ℕ → SongCert → SongCert
set_artist name c = record c { artist = some name }

abbrev pub set_title : List ℕ → SongCert → SongCert
set_title name c = record c { title = some name }

abbrev pub set_album : List ℕ → SongCert → SongCert
set_album name c = record c { album = some name }

abbrev pub set_composer : List ℕ → SongCert → SongCert
set_composer name c = record c { composer = some name }

abbrev pub set_orchestra : List ℕ → SongCert → SongCert
set_orchestra name c = record c { orchestra = some name }

abbrev pub set_soloist : List ℕ → SongCert → SongCert
set_soloist name c = record c { soloist = some name }

-- The string's bytes and its NUL, a lone NUL for a NULL pointer: what is signed and what is copied.
abbrev pub string_bytes : Option (List ℕ) → List ℕ
string_bytes none = 0 ∷ []
string_bytes (some s) = s ++ 0 ∷ []

-- The six strings, and what follows them.
unfoldable pub names_bytes : SongCert → List ℕ → List ℕ
names_bytes c rest =
    string_bytes c.artist
    ++ (string_bytes c.title
        ++ (string_bytes c.album
            ++ (string_bytes c.composer
                ++ (string_bytes c.orchestra ++ (string_bytes c.soloist ++ rest)))))

-- `sizeof(key)` counts the NUL of the literal.
abbrev pub key : List ℕ
key =
    164 ∷ 71 ∷ 173 ∷ 168 ∷ 9 ∷ 252 ∷ 177 ∷ 93 ∷ 210 ∷ 252 ∷ 254 ∷ 6 ∷ 49 ∷ 153 ∷ 95 ∷ 209 ∷ 150 ∷ 39
    ∷ 226 ∷ 137 ∷ 230 ∷ 13 ∷ 232 ∷ 82 ∷ 219 ∷ 10 ∷ 112 ∷ 112 ∷ 202 ∷ 173 ∷ 88 ∷ 234 ∷ 158 ∷ 36 ∷ 12
    ∷ 74 ∷ 148 ∷ 244 ∷ 163 ∷ 12 ∷ 35 ∷ 235 ∷ 128 ∷ 221 ∷ 8 ∷ 139 ∷ 49 ∷ 15 ∷ 253 ∷ 67 ∷ 209 ∷ 17
    ∷ 28 ∷ 177 ∷ 249 ∷ 101 ∷ 106 ∷ 227 ∷ 40 ∷ 65 ∷ 100 ∷ 34 ∷ 250 ∷ 42 ∷ 0 ∷ []

-- `createSignature`, with HMAC of a key and a message.
unfoldable pub create_signature : (List ℕ → List ℕ → List ℕ) → SongCert → List ℕ
unfolding head_bytes names_bytes
create_signature hmac c = hmac key (head_bytes c.head ++ names_bytes c [])

abbrev pub string_size : Option (List ℕ) → ℕ
string_size none = 1
string_size (some s) = 1 + length s

abbrev pub names_size : SongCert → ℕ
names_size c =
    string_size c.artist
    + string_size c.title
    + string_size c.album
    + string_size c.composer
    + string_size c.orchestra
    + string_size c.soloist

unfoldable pub get_byte_size : SongCert → ℕ
get_byte_size c = (head_size + 20 + names_size c) % 2 ^ 32

unfoldable pub valid_signature : (List ℕ → List ℕ → List ℕ) → SongCert → Bool
unfolding create_signature same_bytes
valid_signature hmac c = same_bytes (create_signature hmac c) (take 20 c.signature)

-- `head.version = 0`
abbrev pub with_version_0 : SongCert → SongCert
with_version_0 c = record c { head = record c.head { version = 0 } }

-- `copyToBytes`: the certificate, whose version it sets, and the buffer.
unfoldable pub copy_to_bytes :
    (List ℕ → List ℕ → List ℕ) → SongCert → List ℕ → ℕ → Outcome (SongCert × List ℕ)
unfolding get_byte_size create_signature head_bytes names_bytes store
copy_to_bytes hmac c buffer size =
    if ltb size (get_byte_size c)
    then thrown
    else (let c' = with_version_0 c in
        store (head_bytes c'.head ++ names_bytes c' (create_signature hmac c')) buffer
        >>= λ (b : List ℕ). done (c', b))

-- `getFromBytes`, of a buffer whose bytes are the list and whose size the caller says.
unfoldable pub get_from_bytes : List ℕ → ℕ → Outcome SongCert
unfolding fetch fetch_string head_of
get_from_bytes buffer size = if ltb size (head_size + 20 + 6) then thrown else do
  (head, p) ← fetch head_size buffer
  (artist, p) ← fetch_string p
  (title, p) ← fetch_string p
  (album, p) ← fetch_string p
  (composer, p) ← fetch_string p
  (orchestra, p) ← fetch_string p
  (soloist, p) ← fetch_string p
  (signature, p) ← fetch 20 p
  done (record {
    head = head_of head;
    artist = some artist;
    title = some title;
    album = some album;
    composer = some composer;
    orchestra = some orchestra;
    soloist = some soloist;
    signature = signature;
  })
