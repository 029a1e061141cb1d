-- ===== src/Cert/FileTrip.antt =====
-- filecert.cc: a file certificate that is copied to bytes and read back.
use napsteresque.Base.{
  word_of-bytes_of, swap-swap, same_bytes_refl, ℕ, ◌^◌, ◌≤◌, ◌<◌, ◌≡◌, refl, sym, ap, ◌∙◌, true,
  List, ◌++◌, length, take, drop, arith, length-append, le→not_ltb,
}
use napsteresque.Cert.{done}
use napsteresque.Cert.Bytes.{take-length, drop-length, fetch-append, store-fits, length-overwritten}
use napsteresque.Cert.File.{
  FileCert, ntoh, cert_size, signed_bytes, cert_of, key, create_signature, get_from_bytes,
  valid_signature, sign, copy_to_bytes,
}

-- The words fit their fields, and the MD5 has 16 bytes.
pub record IsCert (c : FileCert) : Type 0 where
  pub end_date : c.end_date < 2 ^ 32
  pub date : c.date < 2 ^ 32
  pub file_type : c.file_type < 2 ^ 32
  pub bitrate : c.bitrate < 2 ^ 32
  pub frequency : c.frequency < 2 ^ 32
  pub songid : c.songid < 2 ^ 64
  pub md5 : length c.md5 ≡ 16

-- `hton`, which is `ntoh`, undoes `ntoh` on a file certificate whose words fit their fields.
pub ntoh-undone : (c : FileCert) → IsCert c → ntoh (ntoh c) ≡ c
unfolding ntoh
ntoh-undone c v =
    rw
      (
        swap-swap 4 c.end_date (omega (arith, v.end_date)),
        swap-swap 4 c.date (omega (arith, v.date)),
        swap-swap 4 c.file_type (omega (arith, v.file_type)),
        swap-swap 4 c.bitrate (omega (arith, v.bitrate)),
        swap-swap 4 c.frequency (omega (arith, v.frequency)),
        swap-swap 8 c.songid (omega (arith, v.songid)),
      )
      refl

pub length-signed_bytes : (c : FileCert) → length c.md5 ≡ 16 → length (signed_bytes c) ≡ 48
unfolding signed_bytes
length-signed_bytes c h = omega (arith, h)

pub cert_of-signed_bytes : (c : FileCert) → IsCert c → cert_of (signed_bytes c ++ c.signature) ≡ c
unfolding cert_of signed_bytes
cert_of-signed_bytes c v =
    let m : take 16 (c.md5 ++ c.signature) ≡ c.md5 =
      ap (λ n. take n (c.md5 ++ c.signature)) (sym v.md5) ∙ take-length c.md5 c.signature in
    let s : drop 16 (c.md5 ++ c.signature) ≡ c.signature =
      ap (λ n. drop n (c.md5 ++ c.signature)) (sym v.md5) ∙ drop-length c.md5 c.signature in
    rw
      (
        word_of-bytes_of 4 c.end_date (omega (arith, v.end_date)),
        word_of-bytes_of 4 c.date (omega (arith, v.date)),
        word_of-bytes_of 4 c.file_type (omega (arith, v.file_type)),
        word_of-bytes_of 4 c.bitrate (omega (arith, v.bitrate)),
        word_of-bytes_of 4 c.frequency (omega (arith, v.frequency)),
        word_of-bytes_of 8 c.songid (omega (arith, v.songid)),
        m,
        s,
      )
      refl

sign-IsCert : (hmac : List ℕ → List ℕ → List ℕ) (c : FileCert) → IsCert c → IsCert (sign hmac c)
unfolding sign
sign-IsCert hmac c v = record {
  end_date = v.end_date;
  date = v.date;
  file_type = v.file_type;
  bitrate = v.bitrate;
  frequency = v.frequency;
  songid = v.songid;
  md5 = v.md5;
}

valid_signature-sign :
    (hmac : List ℕ → List ℕ → List ℕ) (c : FileCert) → valid_signature hmac (sign hmac c) ≡ true
unfolding valid_signature sign create_signature signed_bytes
valid_signature-sign hmac c = same_bytes_refl (create_signature hmac (record c { version = 0 }))

length-signature :
    (hmac : List ℕ → List ℕ → List ℕ) (c : FileCert)
    → ((k m : List ℕ) → length (hmac k m) ≡ 20)
    → length (sign hmac c).signature ≡ 20
unfolding sign create_signature
length-signature hmac c l = l key (signed_bytes (record c { version = 0 }))

-- A file certificate whose words fit their fields is copied without an exception into a buffer of at
-- least 68 bytes; what is read back from the buffer is the certificate as the copy left it, with
-- version 0 and a new signature, and that signature is valid. HMAC gives 20 bytes.
pub get_from_bytes-copied :
    (hmac : List ℕ → List ℕ → List ℕ) (c : FileCert) (buffer : List ℕ) (size : ℕ)
    → ((k m : List ℕ) → length (hmac k m) ≡ 20)
    → IsCert c
    → size ≤ length buffer
    → cert_size ≤ size
    → (out : List ℕ) × (copy_to_bytes hmac c buffer size ≡ done (sign hmac c, out))
      × (length out ≡ length buffer)
      × (get_from_bytes out size ≡ done (sign hmac c))
      × (valid_signature hmac (sign hmac c) ≡ true)
unfolding copy_to_bytes get_from_bytes
get_from_bytes-copied hmac c buffer size l v room fits =
    let c' = sign hmac c in
    let bs = signed_bytes c' ++ c'.signature in
    let whole : length bs ≡ 68 =
      length-append (signed_bytes c') c'.signature
      ∙ omega
          (arith, length-signed_bytes c' (sign-IsCert hmac c v).md5, length-signature hmac c l) in
    let short : length bs ≤ length buffer = omega (arith, whole, room, fits) in
    let rest = drop (length bs) buffer in
    (
      bs ++ rest,
      rw (le→not_ltb size 68 fits, store-fits bs buffer short) refl,
      length-overwritten bs buffer short,
      rw
          (
            le→not_ltb size 68 fits,
            fetch-append 68 bs rest whole,
            cert_of-signed_bytes c' (sign-IsCert hmac c v),
          )
          refl,
      valid_signature-sign hmac c,
    )
