-- ===== src/Cid/Checks.antt =====
-- cidclient.cc: what `ResponseReceive` compares with the datagram, and what it does not.
use mathlib.Core.List.{append_assoc}
use napsteresque.Base.{
  ℕ, zero, suc, ◌+◌, ◌-◌, ◌%◌, ◌^◌, ◌≤◌, ◌<◌, ◌≡◌, refl, sym, ap, ◌∙◌, Bool, true, not, Option,
  none, some, List, [], ◌∷◌, ◌++◌, ◌==◌, ==_refl, ℤ, pos, negsuc, length, take, drop, arith,
  length-append, Bool-cases, inl, inr, ==_iff, if◌then◌else◌,
}
use napsteresque.Socket.{Socket}
use napsteresque.Cert.{Outcome, done, overrun, ◌>>=◌, store}
use napsteresque.Cert.Bytes.{store-fits}
use napsteresque.Cid.{CidClient, datagram, receive}
use napsteresque.Cid.Packet.{
  PktHeader, BodyHeader, header_ntoh, body_ntoh, header_bytes, body_bytes,
}
use napsteresque.Cid.Response.{
  certs_ntoh, give_pointers, parse_response, response_receive, with_buffer,
}
use napsteresque.Cid.Places.{
  length-drop, patch-append, load-overrun, IsHeader, IsBody, headers_lem, length-body_ntoh,
  length-header_bytes, length-body_bytes,
}

abbrev pub front : PktHeader → BodyHeader → List ℕ
front h b = header_bytes h ++ body_bytes b

take-whole : (n : ℕ) (bs : List ℕ) → length bs ≤ n → take n bs ≡ bs
take-whole zero [] h = refl
take-whole (suc n) [] h = refl
take-whole zero (b ∷ bs) h = absurd (omega (arith, h))
take-whole (suc n) (b ∷ bs) h = ap (λ t. b ∷ t) (take-whole n bs (omega (arith, h)))

pub drop-more :
    (n : ℕ) (bs : List ℕ) → n < length bs → (x : ℕ) × (rest : List ℕ) × (drop n bs ≡ x ∷ rest)
drop-more n [] h = absurd (omega (arith, h))
drop-more zero (b ∷ bs) h = (b, bs, refl)
drop-more (suc n) (b ∷ bs) h = drop-more n bs (omega (arith, h))

-- A datagram that fits is in the buffer as a whole.
pub receive-datagram :
    (d fresh : List ℕ) (recv_size : ℕ) (c : CidClient) (s : Socket)
    → length d ≤ recv_size
    → length fresh ≡ recv_size + 1
    → c.sock ≡ some s
    → receive (datagram d) fresh recv_size c
      ≡ done (
        pos (length d),
        record c { in_buf = some (d ++ drop (length d) fresh); in_len = pos (length d) },
      )
unfolding receive
receive-datagram d fresh recv_size c s fits room holds =
    ap
      (λ (o : Option Socket). elim o as (λ t. Outcome (ℤ × CidClient)) [
        | none ↦ overrun
        | some t ↦ store (take recv_size d) fresh >>= λ (buffer : List ℕ). done (
            let len = pos (length (take recv_size d)) in
            (len, record c { in_buf = some buffer; in_len = len }))
      ])
      holds
    ∙ rw (take-whole recv_size d fits, store-fits d fresh (omega (arith, fits, room))) refl

-- The length that the header is compared with: the subtraction is unsigned.
abbrev pub length_field : ℕ → ℕ
length_field n = (n + 1 + 2 ^ 32 - 8) % 2 ^ 32

-- A datagram of `n + 1` bytes that begins with the two headers.
pub parse_response-headers :
    (n x : ℕ) (h : PktHeader) (b : BodyHeader) (body rest : List ℕ) (wants_text : Bool)
    (c : CidClient)
    → IsHeader h
    → IsBody b
    → length (header_bytes (header_ntoh h) ++ (body_bytes (body_ntoh b) ++ body)) ≡ n + 1
    → parse_response n
        ((header_bytes (header_ntoh h) ++ (body_bytes (body_ntoh b) ++ body)) ++ x ∷ rest)
        wants_text
        c
      ≡ (let bs = front h b ++ (body ++ 0 ∷ rest) in
          if not (length_field n == h.body_len)
          then done (negsuc 0, none, with_buffer bs c)
          else give_pointers n (24 + b.username_offset) (24 + b.certs_offset) bs wants_text c)
unfolding parse_response
parse_response-headers n x h b body rest wants_text c v w long =
    let d = header_bytes (header_ntoh h) ++ (body_bytes (body_ntoh b) ++ body) in
    let whole = body ++ 0 ∷ rest in
    let parts : d ++ 0 ∷ rest
        ≡ header_bytes (header_ntoh h) ++ (body_bytes (body_ntoh b) ++ whole) =
      simp append_assoc refl in
    rw
      (
        patch-append (n + 1) d (x ∷ []) (0 ∷ []) rest long refl,
        parts,
        headers_lem h b whole v w,
        sym (append_assoc (header_bytes h) (body_bytes b) whole),
      )
      refl

module _ (h : PktHeader) (b : BodyHeader) (body fresh : List ℕ) (recv_size : ℕ) (wants_text : Bool)
    (c : CidClient) (s : Socket) (v : IsHeader h) (w : IsBody b)
    (fits : 24 + length body ≤ recv_size) (room : length fresh ≡ recv_size + 1)
    (holds : c.sock ≡ some s) where
  abbrev whole_datagram : List ℕ
  whole_datagram = header_bytes (header_ntoh h) ++ (body_bytes (body_ntoh b) ++ body)

  length-whole_datagram : length whole_datagram ≡ suc (23 + length body)
  length-whole_datagram = omega (
    arith,
    length-append (header_bytes (header_ntoh h)) (body_bytes (body_ntoh b) ++ body),
    length-append (body_bytes (body_ntoh b)) body,
    length-header_bytes (header_ntoh h),
    length-body_ntoh b w.reserved,
  )

  -- The buffer after the headers are turned, where memory held `x` and `rest` behind the datagram.
  abbrev turned : List ℕ → List ℕ
  turned rest = front h b ++ (body ++ 0 ∷ rest)

  length-turned :
      (x : ℕ) (rest : List ℕ)
      → drop (length whole_datagram) fresh ≡ x ∷ rest
      → length (turned rest) ≡ recv_size + 1
  length-turned x rest over = omega (
    arith,
    length-append (front h b) (body ++ 0 ∷ rest),
    length-append (header_bytes h) (body_bytes b),
    length-append body (0 ∷ rest),
    length-header_bytes h,
    length-body_bytes b w.reserved,
    length-whole_datagram,
    sym (length-drop (length whole_datagram) fresh) ∙ ap length over,
    room,
    fits,
  )

  -- What a datagram that fits the buffer comes to.
  abbrev Comes : List ℕ → CidClient → Type 0
  Comes bs c' = response_receive (datagram whole_datagram) fresh recv_size wants_text c ≡ (
      if not (length_field (23 + length body) == h.body_len)
      then done (negsuc 0, none, with_buffer bs c')
      else give_pointers (23 + length body) (24 + b.username_offset) (24 + b.certs_offset) bs
          wants_text c')

  response_receive-turned :
      (x : ℕ) (rest : List ℕ)
      → drop (length whole_datagram) fresh ≡ x ∷ rest
      → Comes (turned rest) (record c {
        in_buf = some (whole_datagram ++ x ∷ rest);
        in_len = pos (suc (23 + length body));
      })
  unfolding response_receive
  response_receive-turned x rest over =
      let long = length-whole_datagram in
      let got =
        receive-datagram whole_datagram fresh recv_size c s (omega (arith, fits, long)) room
          holds in
      let c' : CidClient = record c {
        in_buf = some (whole_datagram ++ x ∷ rest);
        in_len = pos (suc (23 + length body));
      } in
      let parsed =
        parse_response-headers (23 + length body) x h b body rest wants_text c' v w
          (omega (arith, long)) in
      rw (got, over, long) parsed

  response_receive-headers :
      (bs : List ℕ) × (c' : CidClient) × (length bs ≡ recv_size + 1)
      × (c'.net_to_host ≡ c.net_to_host)
      × Comes bs c'
  response_receive-headers =
      let (x, rest, over) =
        drop-more (length whole_datagram) fresh
          (omega (arith, fits, room, length-whole_datagram)) in
      (
        turned rest,
        record c {
          in_buf = some (whole_datagram ++ x ∷ rest);
          in_len = pos (suc (23 + length body));
        },
        length-turned x rest over,
        refl,
        response_receive-turned x rest over,
      )

  -- A datagram whose header tells another length than the rest of it has is answered with -1, and no
  -- pointer is given.
  pub response_receive_misfit :
      ¬ (h.body_len ≡ 16 + length body)
      → recv_size < 2 ^ 31
      → (c' : CidClient) × (response_receive (datagram whole_datagram) fresh recv_size wants_text c
          ≡ done (negsuc 0, none, c'))
  response_receive_misfit other small =
      let (bs, c', size, kept, e) = response_receive-headers in
      elim (Bool-cases (length_field (23 + length body) == h.body_len)) [
        | inl t ↦
            let told = (==_iff (length_field (23 + length body)) h.body_len).0 t in
            absurd (other (omega (arith, told, small, fits)))
        | inr f ↦ (with_buffer bs c', e ∙ rw f refl)
      ]

  -- A datagram that fits the buffer and tells its length, whose certificates would stand beyond the
  -- buffer: nothing compares their offset with the length, and they are turned where the offset leads.
  pub response_receive_stray :
      h.body_len ≡ 16 + length body
      → c.net_to_host ≡ true
      → recv_size + 1 < 24 + b.certs_offset + 68
      → response_receive (datagram whole_datagram) fresh recv_size wants_text c ≡ overrun
  unfolding give_pointers certs_ntoh
  response_receive_stray same net far =
      let (bs, c', size, kept, e) = response_receive-headers in
      let told : length_field (23 + length body) ≡ h.body_len = omega (arith, same, v.body_len) in
      let reads =
        load-overrun (24 + b.certs_offset) 68 bs (omega arith) (omega (arith, size, far)) in
      e ∙ rw (told, ==_refl h.body_len, kept ∙ net, reads) refl
