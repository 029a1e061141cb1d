-- ===== src/Cid/Response.antt =====
-- cidclient.cc: the two forms of `ResponseReceive`. A pointer into the buffer is its distance from
-- the buffer's first byte; nothing in the code compares it with the buffer's size.
use napsteresque.Base.{
  ℕ, zero, suc, ◌+◌, ◌-◌, ◌%◌, ◌^◌, Bool, true, false, not, Option, none, some, List, [], ◌∷◌, ◌++◌,
  ◌==◌, ltb, if◌then◌else◌, ℤ, pos, negsuc, ◌-ℤ◌, length, take, drop,
}
use napsteresque.Hex.{bin_to_hex}
use napsteresque.Cert.{Outcome, done, overrun, ◌>>=◌, fetch, store}
use napsteresque.Cert.File
use napsteresque.Cert.Song
use napsteresque.Cert.File.{cert_size, signed_bytes, cert_of}
use napsteresque.Cert.Song.{head_size, head_bytes, head_of}
use napsteresque.Cid.{CidClient, Arrival, receive}
use napsteresque.Cid.Packet.{
  PktHeader, BodyHeader, header_ntoh, body_ntoh, header_bytes, body_bytes, header_of, body_of,
  header_len, body_header_len, md5_size,
}

-- Bytes of the buffer from a pointer on, and a write to them.
unfoldable pub load : ℕ → ℕ → List ℕ → Outcome (List ℕ)
unfolding fetch
load at n bs = fetch n (drop at bs) >>= λ (r : List ℕ × List ℕ). done (r.0)

unfoldable pub patch : ℕ → List ℕ → List ℕ → Outcome (List ℕ)
unfolding store
patch at new bs =
    if ltb (length bs) (at + length new)
    then overrun
    else (store new (drop at bs) >>= λ (end : List ℕ). done (take at bs ++ end))

-- `pkt_hdr->NtoH(); pbh->NtoH();`, in place: the headers and the buffer.
unfoldable pub headers : List ℕ → Outcome (PktHeader × BodyHeader × List ℕ)
headers bs = do
  h ← load 0 header_len bs
  b ← load header_len body_header_len bs
  let header = header_ntoh (header_of h)
  let body = body_ntoh (body_of b)
  bs ← patch 0 (header_bytes header ++ body_bytes body) bs
  done (header, body, bs)

-- Where what follows the headers starts: `pbh + 1`.
abbrev pub body_at : ℕ
body_at = header_len + body_header_len

-- The pointers that the second form gives, and the text it writes to `md5txtbuf`.
pub record Response : Type 0 where
  pub username : ℕ
  pub fcert : ℕ
  pub scert : ℕ
  pub scert_size : ℤ
  pub md5txt : Option (List ℕ)

-- `fc->ntoh(); sc->ntoh();`, in place, from the pointer to the certificates.
unfoldable pub certs_ntoh : ℕ → List ℕ → Outcome (List ℕ)
certs_ntoh at bs = do
  f ← load at cert_size bs
  let fc = File.ntoh (cert_of f)
  bs ← patch at (signed_bytes fc ++ fc.signature) bs
  h ← load (at + cert_size) head_size bs
  patch (at + cert_size) (head_bytes (Song.ntoh (head_of h))) bs

abbrev pub with_buffer : List ℕ → CidClient → CidClient
with_buffer bs c = record c { in_buf = some bs }

-- `bin_to_hex(fc->md5, MD5_SIZE, md5txtbuf)`, where the caller has a buffer for it.
unfoldable pub md5_text : Bool → ℕ → List ℕ → Outcome (Option (List ℕ))
md5_text false at bs = done none
md5_text true at bs = load (at + 32) md5_size bs >>= λ (m : List ℕ). done (some (bin_to_hex m))

-- The second half of the second form, after the test of the length, with the pointers to the name and
-- to the certificates.
unfoldable pub give_pointers :
    ℕ → ℕ → ℕ → List ℕ → Bool → CidClient → Outcome (ℤ × Option Response × CidClient)
give_pointers n name_at at bs wants_text c = do
  bs ← (if c.net_to_host then certs_ntoh at bs else done bs)
  text ← md5_text wants_text at bs
  done (
    pos 1,
    some (record {
      username = name_at;
      fcert = at;
      scert = at + cert_size;
      scert_size = pos (n + 1) -ℤ pos (at + cert_size);
      md5txt = text;
    }),
    with_buffer bs c,
  )

-- The second form once a datagram of `n + 1` bytes has come.
unfoldable pub parse_response :
    ℕ → List ℕ → Bool → CidClient → Outcome (ℤ × Option Response × CidClient)
parse_response n bs wants_text c = do
  bs ← patch (n + 1) (0 ∷ []) bs
  (header, body, bs) ← headers bs
  if not ((n + 1 + 2 ^ 32 - header_len) % 2 ^ 32 == header.body_len)
      then done (negsuc 0, none, with_buffer bs c)
      else give_pointers n (body_at + body.username_offset) (body_at + body.certs_offset) bs
          wants_text c

-- The first form, once a datagram of `n + 1` bytes has come.
unfoldable pub parse_blob : ℕ → List ℕ → CidClient → Outcome (ℤ × Option (ℕ × ℕ × ℤ) × CidClient)
parse_blob n bs c = do
  (header, body, bs) ← headers bs
  done (
    pos 1,
    some (
      body_at + body.username_offset,
      body_at + body.certs_offset,
      pos (n + 1) -ℤ pos (body_at + body.certs_offset),
    ),
    with_buffer bs c,
  )

-- The second form: what it returns, the pointers where it gives them, and the client.
unfoldable pub response_receive :
    Arrival → List ℕ → ℕ → Bool → CidClient → Outcome (ℤ × Option Response × CidClient)
response_receive arrival fresh recv_size wants_text c = do
  (len, c) ← receive arrival fresh recv_size c
  elim len [
    | negsuc n ↦ done (negsuc n, none, c)
    | pos m ↦ elim m [
      | zero ↦ done (pos 0, none, c)
      | suc n ↦ elim c.in_buf [ none ↦ overrun | some bs ↦ parse_response n bs wants_text c ]
    ]
  ]

-- The first form: the name's pointer, the certificates' pointer and their size.
unfoldable pub blob_receive :
    Arrival → List ℕ → ℕ → CidClient → Outcome (ℤ × Option (ℕ × ℕ × ℤ) × CidClient)
blob_receive arrival fresh recv_size c = do
  (len, c) ← receive arrival fresh recv_size c
  elim len [
    | negsuc n ↦ done (negsuc n, none, c)
    | pos m ↦ elim m [
      | zero ↦ done (pos 0, none, c)
      | suc n ↦ elim c.in_buf [ none ↦ overrun | some bs ↦ parse_blob n bs c ]
    ]
  ]
