-- ===== src/Cid/Answer.antt =====
-- cidclient.cc: an answer of the service, and what `ResponseReceive` makes of it.
use mathlib.Core.List.{append_assoc}
use napsteresque.Base.{
  ℕ, suc, ◌+◌, ◌≤◌, ◌≡◌, refl, sym, ap, ◌∙◌, true, some, List, [], ◌∷◌, ◌++◌, ==_refl, pos, ◌-ℤ◌,
  int_laws, length, take, drop, All, arith, length-append,
}
use napsteresque.Socket.{Socket}
use napsteresque.Hex.{bin_to_hex}
use napsteresque.Cert.{done, ◌>>=◌, fetch_string}
use napsteresque.Cert.Bytes.{IsChar, fetch_string-append}
use napsteresque.Cert.File
use napsteresque.Cert.File.{FileCert, cert_of, signed_bytes}
use napsteresque.Cert.FileTrip.{IsCert, cert_of-signed_bytes}
use napsteresque.Cert.Song
use napsteresque.Cert.Song.{SongCertHead, head_of, head_bytes}
use napsteresque.Cert.Strings.{IsHead, head_of-head_bytes, length-head_bytes}
use napsteresque.Cid.{CidClient, datagram, receive}
use napsteresque.Cid.Checks.{
  front, length_field, drop-more, receive-datagram, parse_response-headers,
}
use napsteresque.Cid.Packet.{
  PktHeader, BodyHeader, header_ntoh, body_ntoh, header_bytes, body_bytes,
}
use napsteresque.Cid.Response.{
  load, Response, md5_text, give_pointers, parse_response, response_receive, with_buffer,
}
use napsteresque.Cid.Places.{
  drop-front, load-append, IsHeader, IsBody, certs_ntoh_lem, cert_bytes, length-ntoh,
  length-body_ntoh, length-cert_bytes, length-header_bytes, length-body_bytes,
}

words_of : FileCert → List ℕ
words_of c = take 32 (signed_bytes c)

signed_bytes-split : (c : FileCert) → signed_bytes c ≡ words_of c ++ c.md5
unfolding signed_bytes words_of
signed_bytes-split c = refl

length-words_of : (c : FileCert) → length (words_of c) ≡ 32
unfolding signed_bytes words_of
length-words_of c = refl

-- The MD5 stands 32 bytes into the certificate.
load_md5 :
    (at : ℕ) (fc : FileCert) (pre post : List ℕ)
    → length pre ≡ at
    → length fc.md5 ≡ 16
    → load (at + 32) 16 (pre ++ (cert_bytes fc ++ post)) ≡ done fc.md5
load_md5 at fc pre post h k =
    let words = words_of fc in
    let split : pre ++ (cert_bytes fc ++ post)
        ≡ (pre ++ words) ++ (fc.md5 ++ (fc.signature ++ post)) =
      simp (signed_bytes-split fc, append_assoc) refl in
    ap (load (at + 32) 16) split
    ∙ load-append (at + 32) 16 (pre ++ words) fc.md5 (fc.signature ++ post)
        (omega (arith, length-append pre words, h, length-words_of fc)) k

-- The buffer behind the headers: the name, and the certificates.
abbrev pub behind : List ℕ → FileCert → SongCertHead → List ℕ → List ℕ
behind name fc hd tail = (name ++ 0 ∷ []) ++ (cert_bytes fc ++ (head_bytes hd ++ tail))

-- A datagram of the service, in the order of the network.
abbrev pub answer : PktHeader → BodyHeader → List ℕ → FileCert → SongCertHead → List ℕ → List ℕ
answer h b name fc hd tail =
    header_bytes (header_ntoh h)
    ++ (body_bytes (body_ntoh b) ++ behind name (File.ntoh fc) (Song.ntoh hd) tail)

-- What makes it a whole one: the header says how long it is, the body's header where the parts are.
pub record IsAnswer (h : PktHeader) (b : BodyHeader) (name : List ℕ) (fc : FileCert)
    (hd : SongCertHead) (tail : List ℕ) : Type 0 where
  pub header : IsHeader h
  pub body : IsBody b
  pub cert : IsCert fc
  pub signature : length fc.signature ≡ 20
  pub head : IsHead hd
  pub no_nul : All IsChar name
  pub username_offset : b.username_offset ≡ 0
  pub certs_offset : b.certs_offset ≡ length name + 1
  pub body_len : h.body_len ≡ 16 + (length name + 1) + 68 + 24 + length tail

module _ (h : PktHeader) (b : BodyHeader) (name : List ℕ) (fc : FileCert) (hd : SongCertHead)
    (tail : List ℕ) (v : IsAnswer h b name fc hd tail) where
  -- The pointers.
  abbrev pub pointers : Response
  pointers = record {
    username = 24;
    fcert = 24 + (length name + 1);
    scert = 24 + (length name + 1) + 68;
    scert_size = pos (24 + length tail);
    md5txt = some (bin_to_hex fc.md5);
  }

  -- The buffer in the order of the host, with the NUL behind it and what memory held after that.
  abbrev pub in_host_order : List ℕ → List ℕ
  in_host_order rest = front h b ++ behind name fc hd (tail ++ 0 ∷ rest)

  length-front : length (front h b) ≡ 24
  length-front = omega (
    arith,
    length-append (header_bytes h) (body_bytes b),
    length-header_bytes h,
    length-body_bytes b v.body.reserved,
  )

  abbrev before_certs : List ℕ
  before_certs = front h b ++ (name ++ 0 ∷ [])

  length-before_certs : length before_certs ≡ 24 + (length name + 1)
  length-before_certs =
      omega (
        arith,
        length-append (front h b) (name ++ 0 ∷ []),
        length-append name (0 ∷ []),
        length-front,
      )

  give_pointers_lem :
      (n : ℕ) (rest : List ℕ) (c : CidClient)
      → n + 1 ≡ 24 + (length name + 1) + 68 + 24 + length tail
      → c.net_to_host ≡ true
      → give_pointers n 24
          (24 + (length name + 1))
          (front h b ++ behind name (File.ntoh fc) (Song.ntoh hd) (tail ++ 0 ∷ rest))
          true
          c
        ≡ done (pos 1, some pointers, with_buffer (in_host_order rest) c)
  unfolding give_pointers md5_text
  give_pointers_lem n rest c long net =
      let k = length name + 1 in
      let pre = front h b ++ (name ++ 0 ∷ []) in
      let post = tail ++ 0 ∷ rest in
      let at : length pre ≡ 24 + k = length-before_certs in
      let turned = certs_ntoh_lem (24 + k) fc hd pre post at v.cert v.signature v.head in
      let size : pos (n + 1) -ℤ pos (24 + k + 68) ≡ pos (24 + length tail) =
        omega (int_laws, long) in
      let text = load_md5 (24 + k) fc pre (head_bytes hd ++ post) at v.cert.md5 in
      rw net (
        rw
          (
            sym (
                append_assoc (front h b) (name ++ 0 ∷ [])
                  (cert_bytes (File.ntoh fc) ++ (head_bytes (Song.ntoh hd) ++ post))),
            turned,
          )
          (rw
            (
              text,
              size,
              append_assoc (front h b) (name ++ 0 ∷ []) (cert_bytes fc ++ (head_bytes hd ++ post)),
            )
            refl))

  length-answer :
      length (answer h b name fc hd tail) ≡ 24 + (length name + 1) + 68 + 24 + length tail
  length-answer =
      let fc' = File.ntoh fc in
      let hd' = Song.ntoh hd in
      omega (
        arith,
        length-append (header_bytes (header_ntoh h))
            (body_bytes (body_ntoh b) ++ behind name fc' hd' tail),
        length-append (body_bytes (body_ntoh b)) (behind name fc' hd' tail),
        length-append (name ++ 0 ∷ []) (cert_bytes fc' ++ (head_bytes hd' ++ tail)),
        length-append name (0 ∷ []),
        length-append (cert_bytes fc') (head_bytes hd' ++ tail),
        length-append (head_bytes hd') tail,
        length-header_bytes (header_ntoh h),
        length-body_ntoh b v.body.reserved,
        length-ntoh fc v.cert.md5 v.signature,
        length-head_bytes hd',
      )

  parse_response_lem :
      (n x : ℕ) (rest : List ℕ) (c : CidClient)
      → n + 1 ≡ 24 + (length name + 1) + 68 + 24 + length tail
      → c.net_to_host ≡ true
      → parse_response n (answer h b name fc hd tail ++ x ∷ rest) true c
        ≡ done (pos 1, some pointers, with_buffer (in_host_order rest) c)
  parse_response_lem n x rest c long net =
      let parts : behind name (File.ntoh fc) (Song.ntoh hd) tail ++ 0 ∷ rest
          ≡ behind name (File.ntoh fc) (Song.ntoh hd) (tail ++ 0 ∷ rest) =
        simp append_assoc refl in
      let size : length_field n ≡ h.body_len = omega (arith, long, v.body_len, v.header.body_len) in
      let name_at : 24 + b.username_offset ≡ 24 = omega (arith, v.username_offset) in
      let certs_at : 24 + b.certs_offset ≡ 24 + (length name + 1) = omega (arith, v.certs_offset) in
      parse_response-headers n x h b (behind name (File.ntoh fc) (Song.ntoh hd) tail) rest true c
        v.header v.body (length-answer ∙ sym long)
      ∙ rw (size, ==_refl h.body_len, name_at, certs_at, parts)
          (give_pointers_lem n rest c long net)

  fetch_string-name :
      (post : List ℕ)
      → fetch_string (drop 24 (front h b ++ behind name fc hd post))
        ≡ done (name, cert_bytes fc ++ (head_bytes hd ++ post))
  fetch_string-name post =
      let certs = cert_bytes fc ++ (head_bytes hd ++ post) in
      ap fetch_string (
        drop-front 24 (front h b) (behind name fc hd post) length-front
        ∙ append_assoc name (0 ∷ []) certs)
      ∙ fetch_string-append name certs v.no_nul

  load-cert :
      (post : List ℕ)
      → (load (24 + (length name + 1)) 68 (front h b ++ behind name fc hd post) >>= λ (f : List ℕ).
          done (cert_of f))
        ≡ done fc
  load-cert post =
      rw
        (
          sym (
              append_assoc (front h b) (name ++ 0 ∷ []) (cert_bytes fc ++ (head_bytes hd ++ post))),
          load-append (24 + (length name + 1)) 68 before_certs (cert_bytes fc)
              (head_bytes hd ++ post) length-before_certs
              (length-cert_bytes fc v.cert.md5 v.signature),
          cert_of-signed_bytes fc v.cert,
        )
        refl

  load-head :
      (post : List ℕ)
      → (load (24 + (length name + 1) + 68) 24 (front h b ++ behind name fc hd post)
          >>= λ (f : List ℕ). done (head_of f))
        ≡ done hd
  load-head post =
      let far : length (before_certs ++ cert_bytes fc) ≡ 24 + (length name + 1) + 68 = omega (
        arith,
        length-append before_certs (cert_bytes fc),
        length-before_certs,
        length-cert_bytes fc v.cert.md5 v.signature,
      ) in
      let whole : front h b ++ behind name fc hd post
          ≡ (before_certs ++ cert_bytes fc) ++ (head_bytes hd ++ post) =
        simp append_assoc refl in
      rw
        (
          whole,
          load-append (24 + (length name + 1) + 68) 24 (before_certs ++ cert_bytes fc)
              (head_bytes hd) post far (length-head_bytes hd),
          head_of-head_bytes hd v.head,
        )
        refl

  -- A datagram of the service that is whole, is at most `recv_size` long and whose certificates stand
  -- where it says, is answered with 1. The first pointer then leads to the name, the second and third
  -- to the two certificates in the order of the host, the text is the MD5 in hexadecimal digits, and
  -- the size is that of the song certificate.
  pub response_receive-answer :
      (recv_size : ℕ) (fresh : List ℕ) (c : CidClient) (s : Socket)
      → length (answer h b name fc hd tail) ≤ recv_size
      → length fresh ≡ recv_size + 1
      → c.sock ≡ some s
      → c.net_to_host ≡ true
      → (r : Response) × (out : List ℕ) × (c' : CidClient) × (rest : List ℕ) × (response_receive
            (datagram (answer h b name fc hd tail))
            fresh
            recv_size
            true
            c
          ≡ done (pos 1, some r, with_buffer out c'))
        × (fetch_string (drop r.username out) ≡ done (name, rest))
        × ((load r.fcert 68 out >>= λ (f : List ℕ). done (cert_of f)) ≡ done fc)
        × ((load r.scert 24 out >>= λ (f : List ℕ). done (head_of f)) ≡ done hd)
        × (r.scert_size ≡ pos (length (head_bytes hd ++ tail)))
        × (r.md5txt ≡ some (bin_to_hex fc.md5))
  unfolding response_receive receive head_bytes
  response_receive-answer recv_size fresh c s fits room holds net =
      let d = answer h b name fc hd tail in
      let n = 24 + (length name + 1) + 68 + 23 + length tail in
      let (x, rest, over) = drop-more (length d) fresh (omega (arith, fits, room)) in
      let long : length d ≡ suc n = omega (arith, length-answer) in
      let got = receive-datagram d fresh recv_size c s fits room holds in
      let c' : CidClient = record c { in_buf = some (d ++ x ∷ rest); in_len = pos (suc n) } in
      let parsed = parse_response_lem n x rest c' (omega arith) net in
      let out = in_host_order rest in
      (
        pointers,
        out,
        c',
        cert_bytes fc ++ (head_bytes hd ++ (tail ++ 0 ∷ rest)),
        rw (got, over, long, parsed) refl,
        fetch_string-name (tail ++ 0 ∷ rest),
        load-cert (tail ++ 0 ∷ rest),
        load-head (tail ++ 0 ∷ rest),
        ap pos (sym (length-append (head_bytes hd) tail)),
        refl,
      )
