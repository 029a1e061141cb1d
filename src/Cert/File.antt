-- ===== src/Cert/File.antt =====
-- filecert.hh and filecert.cc: `FileCert`.
use napsteresque.Base.{
  bytes_of, word_of, swap, same_bytes, ℕ, Bool, List, [], ◌∷◌, ◌++◌, ◌==◌, ltb, if◌then◌else◌, take,
  drop,
}
use napsteresque.Cert.{Outcome, done, thrown, ◌>>=◌, fetch, store, repeat}

pub record FileCert : Type 0 where
  pub version : ℕ
  pub pad : ℕ × ℕ × ℕ
  pub end_date : ℕ
  pub date : ℕ
  pub file_type : ℕ
  pub bitrate : ℕ
  pub frequency : ℕ
  pub songid : ℕ
  pub md5 : List ℕ
  pub signature : List ℕ

-- The constructor, whose `memset` clears all bytes.
abbrev pub new : FileCert
new = record {
  version = 0;
  pad = (0, 0, 0);
  end_date = 0;
  date = 0;
  file_type = 0;
  bitrate = 0;
  frequency = 0;
  songid = 0;
  md5 = repeat 16 0;
  signature = repeat 20 0;
}

unfoldable pub ntoh : FileCert → FileCert
unfolding swap
ntoh c = record c {
  end_date = swap 4 c.end_date;
  date = swap 4 c.date;
  file_type = swap 4 c.file_type;
  bitrate = swap 4 c.bitrate;
  frequency = swap 4 c.frequency;
  songid = swap 8 c.songid;
}

-- `sizeof(*this)`
abbrev pub cert_size : ℕ
cert_size = 68

-- The first `sizeof(*this) - 20` bytes of the certificate: all that stands before the signature.
unfoldable pub signed_bytes : FileCert → List ℕ
unfolding bytes_of
signed_bytes c =
    c.version
    ∷ c.pad.0
    ∷ c.pad.1
    ∷ c.pad.2
    ∷ (bytes_of 4 c.end_date
        ++ (bytes_of 4 c.date
            ++ (bytes_of 4 c.file_type
                ++ (bytes_of 4 c.bitrate
                    ++ (bytes_of 4 c.frequency ++ (bytes_of 8 c.songid ++ c.md5))))))

-- What `memcpy(this, buffer, sizeof(*this))` makes the fields.
unfoldable pub cert_of : List ℕ → FileCert
unfolding word_of
cert_of (v ∷ a ∷ b ∷ c ∷ bs) = record {
  version = v;
  pad = (a, b, c);
  end_date = word_of (take 4 bs);
  date = word_of (take 4 (drop 4 bs));
  file_type = word_of (take 4 (drop 8 bs));
  bitrate = word_of (take 4 (drop 12 bs));
  frequency = word_of (take 4 (drop 16 bs));
  songid = word_of (take 8 (drop 20 bs));
  md5 = take 16 (drop 28 bs);
  signature = drop 44 bs;
}
cert_of _ = record {
  version = 0;
  pad = (0, 0, 0);
  end_date = 0;
  date = 0;
  file_type = 0;
  bitrate = 0;
  frequency = 0;
  songid = 0;
  md5 = [];
  signature = [];
}

-- `sizeof(key)` counts the NUL of the literal.
abbrev pub key : List ℕ
key =
    164 ∷ 71 ∷ 173 ∷ 168 ∷ 9 ∷ 252 ∷ 177 ∷ 93 ∷ 210 ∷ 252 ∷ 254 ∷ 6 ∷ 49 ∷ 153 ∷ 95 ∷ 209 ∷ 150 ∷ 39
    ∷ 226 ∷ 137 ∷ 230 ∷ 13 ∷ 232 ∷ 82 ∷ 219 ∷ 10 ∷ 112 ∷ 112 ∷ 202 ∷ 173 ∷ 88 ∷ 234 ∷ 158 ∷ 36 ∷ 12
    ∷ 74 ∷ 148 ∷ 244 ∷ 163 ∷ 12 ∷ 35 ∷ 235 ∷ 128 ∷ 221 ∷ 8 ∷ 139 ∷ 49 ∷ 15 ∷ 253 ∷ 67 ∷ 209 ∷ 17
    ∷ 28 ∷ 177 ∷ 249 ∷ 101 ∷ 106 ∷ 227 ∷ 40 ∷ 65 ∷ 100 ∷ 34 ∷ 250 ∷ 42 ∷ 0 ∷ []

-- `createSignature`, with HMAC of a key and a message.
unfoldable pub create_signature : (List ℕ → List ℕ → List ℕ) → FileCert → List ℕ
unfolding signed_bytes
create_signature hmac c = hmac key (signed_bytes c)

-- `getFromBytes`, of a buffer whose bytes are the list and whose size the caller says.
unfoldable pub get_from_bytes : List ℕ → ℕ → Outcome FileCert
unfolding fetch cert_of
get_from_bytes buffer size =
    if ltb size cert_size
    then thrown
    else (do (bs, rest) ← fetch cert_size buffer; done (cert_of bs))

unfoldable pub valid_signature : (List ℕ → List ℕ → List ℕ) → FileCert → Bool
unfolding create_signature same_bytes
valid_signature hmac c = same_bytes (create_signature hmac c) c.signature

-- What `copyToBytes` makes of the certificate.
unfoldable pub sign : (List ℕ → List ℕ → List ℕ) → FileCert → FileCert
unfolding create_signature
sign hmac c =
    let c' : FileCert = record c { version = 0 } in
    record c' { signature = create_signature hmac c' }

-- `copyToBytes`: the certificate and the buffer.
unfoldable pub copy_to_bytes :
    (List ℕ → List ℕ → List ℕ) → FileCert → List ℕ → ℕ → Outcome (FileCert × List ℕ)
unfolding sign signed_bytes store
copy_to_bytes hmac c buffer size =
    if ltb size cert_size
    then thrown
    else (let c' = sign hmac c in
        store (signed_bytes c' ++ c'.signature) buffer >>= λ (b : List ℕ). done (c', b))

-- `File::Type`
abbrev pub type_mp3 : ℕ
type_mp3 = 1

abbrev pub type_wma : ℕ
type_wma = 2

unfoldable pub get_file_type_as_string : FileCert → List ℕ
unfolding swap
get_file_type_as_string c =
    let t = swap 4 c.file_type in
    if t == type_mp3
    then b'm' ∷ b'p' ∷ b'3' ∷ []
    else if t == type_wma
    then b'w' ∷ b'm' ∷ b'a' ∷ []
    else []
