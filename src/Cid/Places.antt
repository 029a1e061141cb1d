-- ===== src/Cid/Places.antt =====
-- cidclient.cc: what is read and written through a pointer into a buffer, by the parts of the buffer.
use mathlib.Core.List.{append_assoc}
use napsteresque.Base.{
  swap-swap, swap_lt, word_of-bytes_of, ℕ, zero, suc, ◌+◌, ◌-◌, ◌^◌, false, ◌<◌, ◌≡◌, refl, sym, ap,
  ◌∙◌, List, [], ◌∷◌, ◌++◌, ltb, length, take, drop, arith, length-append, le→not_ltb, lt→ltb,
}
use napsteresque.Cert.{done, overrun, fetch}
use napsteresque.Cert.Bytes.{take-length, drop-length, fetch-append, store-fits}
use napsteresque.Cert.File
use napsteresque.Cert.File.{FileCert, cert_of, signed_bytes}
use napsteresque.Cert.FileTrip.{IsCert, ntoh-undone, cert_of-signed_bytes, length-signed_bytes}
use napsteresque.Cert.Song
use napsteresque.Cert.Song.{SongCertHead, head_of, head_bytes}
use napsteresque.Cert.Strings.{IsHead, ntoh-ntoh, head_of-head_bytes, length-head_bytes}
use napsteresque.Cid.Packet.{
  PktHeader, BodyHeader, header_ntoh, body_ntoh, header_bytes, body_bytes, header_of, body_of,
}
use napsteresque.Cid.Response.{load, patch, headers, certs_ntoh}

pub drop-front : (at : ℕ) (pre rest : List ℕ) → length pre ≡ at → drop at (pre ++ rest) ≡ rest
drop-front at pre rest h = ap (λ n. drop n (pre ++ rest)) (sym h) ∙ drop-length pre rest

take-front : (at : ℕ) (pre rest : List ℕ) → length pre ≡ at → take at (pre ++ rest) ≡ pre
take-front at pre rest h = ap (λ n. take n (pre ++ rest)) (sym h) ∙ take-length pre rest

pub load-append :
    (at n : ℕ) (pre mid post : List ℕ)
    → length pre ≡ at
    → length mid ≡ n
    → load at n (pre ++ (mid ++ post)) ≡ done mid
unfolding load
load-append at n pre mid post h k =
    rw (drop-front at pre (mid ++ post) h, fetch-append n mid post k) refl

pub patch-append :
    (at : ℕ) (pre mid new post : List ℕ)
    → length pre ≡ at
    → length new ≡ length mid
    → patch at new (pre ++ (mid ++ post)) ≡ done (pre ++ (new ++ post))
unfolding patch
patch-append at pre mid new post h k =
    let whole = length-append pre (mid ++ post) in
    let half = length-append mid post in
    let room : ltb (length (pre ++ (mid ++ post))) (at + length new) ≡ false =
      le→not_ltb (length (pre ++ (mid ++ post))) (at + length new)
        (omega (arith, whole, half, h, k)) in
    rw
      (
        room,
        drop-front at pre (mid ++ post) h,
        take-front at pre (mid ++ post) h,
        store-fits new (mid ++ post) (omega (arith, half, k)),
        drop-front (length new) mid post (sym k),
      )
      refl

pub length-drop : (k : ℕ) (bs : List ℕ) → length (drop k bs) ≡ length bs - k
length-drop zero bs = omega arith
length-drop (suc k) [] = omega arith
length-drop (suc k) (b ∷ bs) = omega (arith, length-drop k bs)

pub load-overrun : (at n : ℕ) (bs : List ℕ) → 0 < n → length bs < at + n → load at n bs ≡ overrun
unfolding load fetch
load-overrun at n bs z h =
    rw (lt→ltb (length (drop at bs)) n (omega (arith, length-drop at bs, z, h))) refl

-- The words fit their fields.
pub record IsHeader (h : PktHeader) : Type 0 where
  pub message_type : h.message_type < 2 ^ 16
  pub body_len : h.body_len < 2 ^ 16

pub record IsBody (b : BodyHeader) : Type 0 where
  pub username_offset : b.username_offset < 2 ^ 16
  pub certs_offset : b.certs_offset < 2 ^ 16
  pub reserved : length b.reserved ≡ 8

pub header_ntoh_undone : (h : PktHeader) → IsHeader h → header_ntoh (header_ntoh h) ≡ h
unfolding header_ntoh
header_ntoh_undone h v =
    rw
      (
        swap-swap 2 h.message_type (omega (arith, v.message_type)),
        swap-swap 2 h.body_len (omega (arith, v.body_len)),
      )
      refl

body_ntoh_undone : (b : BodyHeader) → IsBody b → body_ntoh (body_ntoh b) ≡ b
unfolding body_ntoh
body_ntoh_undone b v =
    rw
      (
        swap-swap 2 b.username_offset (omega (arith, v.username_offset)),
        swap-swap 2 b.certs_offset (omega (arith, v.certs_offset)),
      )
      refl

pub header_of-header_bytes : (h : PktHeader) → IsHeader h → header_of (header_bytes h) ≡ h
unfolding header_of header_bytes
header_of-header_bytes h v =
    rw
      (
        word_of-bytes_of 2 h.message_type (omega (arith, v.message_type)),
        word_of-bytes_of 2 h.body_len (omega (arith, v.body_len)),
      )
      refl

body_of-body_bytes : (b : BodyHeader) → IsBody b → body_of (body_bytes b) ≡ b
unfolding body_of body_bytes
body_of-body_bytes b v =
    rw
      (
        word_of-bytes_of 2 b.username_offset (omega (arith, v.username_offset)),
        word_of-bytes_of 2 b.certs_offset (omega (arith, v.certs_offset)),
      )
      refl

pub length-header_bytes : (h : PktHeader) → length (header_bytes h) ≡ 8
unfolding header_bytes
length-header_bytes h = refl

pub length-body_bytes : (b : BodyHeader) → length b.reserved ≡ 8 → length (body_bytes b) ≡ 16
unfolding body_bytes
length-body_bytes b h = omega (arith, h)

pub header_ntoh-IsHeader : (h : PktHeader) → IsHeader (header_ntoh h)
unfolding header_ntoh
header_ntoh-IsHeader h = record {
  message_type = omega (arith, swap_lt 2 h.message_type);
  body_len = omega (arith, swap_lt 2 h.body_len);
}

body_ntoh-IsBody : (b : BodyHeader) → length b.reserved ≡ 8 → IsBody (body_ntoh b)
unfolding body_ntoh
body_ntoh-IsBody b h = record {
  username_offset = omega (arith, swap_lt 2 b.username_offset);
  certs_offset = omega (arith, swap_lt 2 b.certs_offset);
  reserved = h;
}

pub length-body_ntoh :
    (b : BodyHeader) → length b.reserved ≡ 8 → length (body_bytes (body_ntoh b)) ≡ 16
length-body_ntoh b h = length-body_bytes (body_ntoh b) (body_ntoh-IsBody b h).reserved

-- The headers as they come from the network, and as they stand after.
pub headers_lem :
    (h : PktHeader) (b : BodyHeader) (rest : List ℕ)
    → IsHeader h
    → IsBody b
    → headers (header_bytes (header_ntoh h) ++ (body_bytes (body_ntoh b) ++ rest))
      ≡ done (h, b, header_bytes h ++ (body_bytes b ++ rest))
unfolding headers
headers_lem h b rest v w =
    let h' = header_ntoh h in
    let b' = body_ntoh b in
    let v' = header_ntoh-IsHeader h in
    let w' : IsBody b' = body_ntoh-IsBody b w.reserved in
    let first =
      load-append 0 8 [] (header_bytes h') (body_bytes b' ++ rest) refl (length-header_bytes h') in
    let second =
      load-append 8 16 (header_bytes h') (body_bytes b') rest (length-header_bytes h')
        (length-body_bytes b' w'.reserved) in
    let third =
      patch-append 0 [] (header_bytes h' ++ body_bytes b') (header_bytes h ++ body_bytes b) rest
        refl
        (omega (
          arith,
          length-append (header_bytes h) (body_bytes b),
          length-append (header_bytes h') (body_bytes b'),
          length-header_bytes h,
          length-header_bytes h',
          length-body_bytes b w.reserved,
          length-body_bytes b' w'.reserved,
        )) in
    let written : patch 0 (header_bytes h ++ body_bytes b)
          (header_bytes h' ++ (body_bytes b' ++ rest))
        ≡ done (header_bytes h ++ (body_bytes b ++ rest)) =
      ap (patch 0 (header_bytes h ++ body_bytes b))
        (sym (append_assoc (header_bytes h') (body_bytes b') rest))
      ∙ third
      ∙ ap done (append_assoc (header_bytes h) (body_bytes b) rest) in
    rw
      (
        first,
        second,
        header_of-header_bytes h' v',
        body_of-body_bytes b' w',
        header_ntoh_undone h v,
        body_ntoh_undone b w,
        written,
      )
      refl

ntoh-IsCert : (c : FileCert) → length c.md5 ≡ 16 → IsCert (File.ntoh c)
unfolding File.ntoh
ntoh-IsCert c h = record {
  end_date = omega (arith, swap_lt 4 c.end_date);
  date = omega (arith, swap_lt 4 c.date);
  file_type = omega (arith, swap_lt 4 c.file_type);
  bitrate = omega (arith, swap_lt 4 c.bitrate);
  frequency = omega (arith, swap_lt 4 c.frequency);
  songid = omega (arith, swap_lt 8 c.songid);
  md5 = h;
}

ntoh-IsHead : (h : SongCertHead) → IsHead (Song.ntoh h)
unfolding Song.ntoh
ntoh-IsHead h = record {
  end_date = omega (arith, swap_lt 4 h.end_date);
  date = omega (arith, swap_lt 4 h.date);
  duration = omega (arith, swap_lt 4 h.duration);
  songid = omega (arith, swap_lt 8 h.songid);
}

-- A file certificate in memory.
abbrev pub cert_bytes : FileCert → List ℕ
cert_bytes c = signed_bytes c ++ c.signature

pub length-cert_bytes :
    (c : FileCert) → length c.md5 ≡ 16 → length c.signature ≡ 20 → length (cert_bytes c) ≡ 68
length-cert_bytes c h k =
    omega (arith, length-append (signed_bytes c) c.signature, length-signed_bytes c h, k)

ntoh-kept : (c : FileCert) → ((File.ntoh c).md5 ≡ c.md5) × ((File.ntoh c).signature ≡ c.signature)
unfolding File.ntoh
ntoh-kept c = (refl, refl)

pub length-ntoh :
    (c : FileCert)
    → length c.md5 ≡ 16
    → length c.signature ≡ 20
    → length (cert_bytes (File.ntoh c)) ≡ 68
length-ntoh c h k =
    let (m, s) = ntoh-kept c in length-cert_bytes (File.ntoh c) (ap length m ∙ h) (ap length s ∙ k)

-- The certificates as they come from the network, and as they stand after.
pub certs_ntoh_lem :
    (at : ℕ) (fc : FileCert) (hd : SongCertHead) (pre post : List ℕ)
    → length pre ≡ at
    → IsCert fc
    → length fc.signature ≡ 20
    → IsHead hd
    → certs_ntoh at (pre ++ (cert_bytes (File.ntoh fc) ++ (head_bytes (Song.ntoh hd) ++ post)))
      ≡ done (pre ++ (cert_bytes fc ++ (head_bytes hd ++ post)))
unfolding certs_ntoh
certs_ntoh_lem at fc hd pre post h v k w =
    let fc' = File.ntoh fc in
    let hd' = Song.ntoh hd in
    let old = cert_bytes fc' in
    let new = cert_bytes fc in
    let rest = head_bytes hd' ++ post in
    let before = length-ntoh fc v.md5 k in
    let after = length-cert_bytes fc v.md5 k in
    let first = load-append at 68 pre old rest h before in
    let second = patch-append at pre old new rest h (omega (arith, before, after)) in
    let far : length (pre ++ new) ≡ at + 68 = omega (arith, length-append pre new, h, after) in
    let third =
      load-append (at + 68) 24 (pre ++ new) (head_bytes hd') post far (length-head_bytes hd') in
    let fourth =
      patch-append (at + 68) (pre ++ new) (head_bytes hd') (head_bytes hd) post far
        (omega (arith, length-head_bytes hd, length-head_bytes hd')) in
    rw
      (
        first,
        cert_of-signed_bytes fc' (ntoh-IsCert fc v.md5),
        ntoh-undone fc v,
        second,
        sym (append_assoc pre new rest),
        third,
        head_of-head_bytes hd' (ntoh-IsHead hd),
        ntoh-ntoh hd w,
        fourth,
        append_assoc pre new (head_bytes hd ++ post),
      )
      refl
