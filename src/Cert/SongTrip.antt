-- ===== src/Cert/SongTrip.antt =====
-- filecert.cc: a song certificate that is copied to bytes and read back.
use napsteresque.Base.{
  same_bytes_refl, ℕ, ◌+◌, ◌%◌, ◌^◌, ◌≤◌, ◌<◌, ◌≡◌, refl, sym, ap, ◌∙◌, true, Option, none, some,
  List, [], ◌++◌, length, take, drop, arith, length-append, le→not_ltb,
}
use mathlib.Core.List.{append_assoc}
use napsteresque.Cert.{done}
use napsteresque.Cert.Bytes.{fetch-append, store-fits, take-all, length-overwritten}
use napsteresque.Cert.Strings.{
  IsHead, length-head_bytes, head_of-head_bytes, named, fetch_string-string_bytes,
  length-names_bytes, names_bytes-append, names_size_ge, HasStrings,
}
use napsteresque.Cert.Song.{
  head_bytes, SongCert, string_bytes, names_bytes, key, create_signature, names_size, get_byte_size,
  valid_signature, with_version_0, copy_to_bytes, get_from_bytes,
}

-- What a certificate is after the trip: its version is 0, no string is NULL, it is signed.
abbrev pub received : (List ℕ → List ℕ → List ℕ) → SongCert → SongCert
received hmac c =
    let c' = with_version_0 c in
    record {
      head = c'.head;
      artist = some (named c.artist);
      title = some (named c.title);
      album = some (named c.album);
      composer = some (named c.composer);
      orchestra = some (named c.orchestra);
      soloist = some (named c.soloist);
      signature = create_signature hmac c';
    }

string_bytes-named : (o : Option (List ℕ)) → string_bytes (some (named o)) ≡ string_bytes o
string_bytes-named none = refl
string_bytes-named (some s) = refl

module _ (hmac : List ℕ → List ℕ → List ℕ) (length-hmac : (k m : List ℕ) → length (hmac k m) ≡ 20)
    (c : SongCert) (v : IsHead c.head) (w : HasStrings c) where
  -- What `copyToBytes` writes.
  abbrev written : List ℕ
  written =
      head_bytes (with_version_0 c).head ++ names_bytes c (create_signature hmac (with_version_0 c))

  length-signature : (d : SongCert) → length (create_signature hmac d) ≡ 20
  unfolding create_signature
  length-signature d = length-hmac key (head_bytes d.head ++ names_bytes d [])

  length-written : length written ≡ 44 + names_size c
  length-written =
      let sig = create_signature hmac (with_version_0 c) in
      omega (
        arith,
        length-append (head_bytes (with_version_0 c).head) (names_bytes c sig),
        length-head_bytes (with_version_0 c).head,
        length-names_bytes c sig,
        length-signature (with_version_0 c),
      )

  zero-IsHead : IsHead (with_version_0 c).head
  zero-IsHead = record {
    end_date = v.end_date;
    date = v.date;
    duration = v.duration;
    songid = v.songid;
  }

  get_from_bytes-written :
      (t : List ℕ) (size : ℕ)
      → 50 ≤ size
      → get_from_bytes (written ++ t) size ≡ done (received hmac c)
  unfolding get_from_bytes names_bytes
  get_from_bytes-written t size h =
      let h0 = (with_version_0 c).head in
      let sig = create_signature hmac (with_version_0 c) in
      rw
        (
          le→not_ltb size 50 h,
          append_assoc (head_bytes h0) (names_bytes c sig) t,
          names_bytes-append c sig t,
          fetch-append 24 (head_bytes h0) (names_bytes c (sig ++ t)) (length-head_bytes h0),
          head_of-head_bytes h0 zero-IsHead,
          fetch_string-string_bytes c.artist _ w.artist,
          fetch_string-string_bytes c.title _ w.title,
          fetch_string-string_bytes c.album _ w.album,
          fetch_string-string_bytes c.composer _ w.composer,
          fetch_string-string_bytes c.orchestra _ w.orchestra,
          fetch_string-string_bytes c.soloist _ w.soloist,
          fetch-append 20 sig t (length-signature (with_version_0 c)),
        )
        refl

  create_signature-received :
      create_signature hmac (received hmac c) ≡ create_signature hmac (with_version_0 c)
  unfolding create_signature names_bytes
  create_signature-received =
      rw
        (
          string_bytes-named c.artist,
          string_bytes-named c.title,
          string_bytes-named c.album,
          string_bytes-named c.composer,
          string_bytes-named c.orchestra,
          string_bytes-named c.soloist,
        )
        refl

  valid_signature-received : valid_signature hmac (received hmac c) ≡ true
  unfolding valid_signature
  valid_signature-received =
      let sig = create_signature hmac (with_version_0 c) in
      let whole : take 20 sig ≡ sig =
        ap (λ n. take n sig) (sym (length-signature (with_version_0 c))) ∙ take-all sig in
      rw (create_signature-received, whole) (same_bytes_refl sig)

  -- A song certificate whose words fit their fields, whose strings have no NUL inside and whose size
  -- fits 32 bits is copied without an exception into a buffer of at least that size; what is read back
  -- from the buffer is the certificate with version 0, with the empty string for every NULL, and with
  -- a new signature, and that signature is valid. HMAC gives 20 bytes.
  pub get_from_bytes-copy_to_bytes :
      (buffer : List ℕ) (size : ℕ)
      → size ≤ length buffer
      → 44 + names_size c < 2 ^ 32
      → 44 + names_size c ≤ size
      → (out : List ℕ) × (copy_to_bytes hmac c buffer size ≡ done (with_version_0 c, out))
        × (length out ≡ length buffer)
        × (get_from_bytes out size ≡ done (received hmac c))
        × (valid_signature hmac (received hmac c) ≡ true)
  unfolding copy_to_bytes get_byte_size
  get_from_bytes-copy_to_bytes buffer size room small fits =
      let rest = drop (length written) buffer in
      let whole : (44 + names_size c) % 2 ^ 32 ≡ 44 + names_size c = omega (arith, small) in
      let short : length written ≤ length buffer = omega (arith, length-written, room, fits) in
      (
        written ++ rest,
        rw (whole, le→not_ltb size (44 + names_size c) fits, store-fits written buffer short) refl,
        length-overwritten written buffer short,
        get_from_bytes-written rest size (omega (arith, names_size_ge c, fits)),
        valid_signature-received,
      )
