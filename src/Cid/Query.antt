-- ===== src/Cid/Query.antt =====
-- cidclient.cc: what `QuerySend` sends.
use mathlib.Core.List.{append_assoc}
use napsteresque.Base.{
  ℕ, zero, suc, ◌≤◌, ◌<◌, ◌≡◌, refl, sym, ap, ◌∙◌, false, Option, none, some, List, [], ◌∷◌, ◌++◌,
  ◌==◌, ℤ, length, take, drop, All, arith, length-append, le→not_ltb,
}
use napsteresque.Address.{Address}
use napsteresque.Socket.{Socket}
use napsteresque.Cert.{Outcome, done, overrun, fetch, fetch_string, ◌>>=◌}
use napsteresque.Cert.Bytes.{IsChar, fetch_string-append}
use napsteresque.Cid.{CidClient}
use napsteresque.Cid.Packet.{
  PktHeader, header_ntoh, header_bytes, header_of, query_header, query_send,
}
use napsteresque.Cid.Response.{load}
use napsteresque.Cid.Places.{
  IsHeader, header_ntoh-IsHeader, header_ntoh_undone, header_of-header_bytes, length-header_bytes,
  drop-front, load-append,
}

-- What the receiver of a query reads of it.
abbrev pub sent_header : ℕ × ℕ × ℕ → PktHeader
sent_header fresh = record { version = 1; reserved = fresh; message_type = 1024; body_len = 16 }

length-take : (n : ℕ) (bs : List ℕ) → n ≤ length bs → length (take n bs) ≡ n
length-take zero [] h = refl
length-take (suc n) [] h = absurd (omega (arith, h))
length-take zero (b ∷ bs) h = refl
length-take (suc n) (b ∷ bs) h = omega (arith, length-take n bs (omega (arith, h)))

not_zero : (n : ℕ) → 0 < n → (n == 0) ≡ false
not_zero n h = ground arith

fetch-take : (n : ℕ) (bs : List ℕ) → n ≤ length bs → fetch n bs ≡ done (take n bs, drop n bs)
unfolding fetch
fetch-take n bs h = rw (le→not_ltb (length bs) n h) refl

sent_header-IsHeader : (fresh : ℕ × ℕ × ℕ) → IsHeader (sent_header fresh)
sent_header-IsHeader fresh = record { message_type = omega arith; body_len = omega arith }

-- The last step, of a client with a socket and a server.
sent_to :
    (sendto : List ℕ → Address → ℤ) (packet : List ℕ) (c : CidClient) (s : Socket) (a : Address)
    → c.sock ≡ some s
    → c.cliaddr ≡ some a
    → (elim c.sock as (λ t. Outcome (ℤ × Option (Address × List ℕ))) [
      | none ↦ overrun
      | some t ↦ elim c.cliaddr as (λ t. Outcome (ℤ × Option (Address × List ℕ))) [
        | none ↦ overrun
        | some to ↦ done (sendto packet to, some (to, packet))
      ]
    ])
      ≡ done (sendto packet a, some (a, packet))
sent_to sendto packet c s a holds known = rw (holds, known) refl

-- With a socket and a server, a name that is not empty and an MD5 of sixteen bytes, `QuerySend` sends one
-- datagram to the server and returns what the system answers. A receiver that turns the header reads
-- version 1, type 0x0400, length 16 and, in the reserved bytes, what memory held; behind the header it
-- reads the MD5, and then the name, whose NUL is the last byte.
pub query_send-packet :
    (sendto : List ℕ → Address → ℤ) (fresh : ℕ × ℕ × ℕ) (md5 username : List ℕ) (c : CidClient)
    (s : Socket) (a : Address)
    → All IsChar username
    → 0 < length username
    → 16 ≤ length md5
    → c.sock ≡ some s
    → c.cliaddr ≡ some a
    → (packet : List ℕ) × (query_send sendto fresh md5 username c
        ≡ done (sendto packet a, some (a, packet)))
      × ((load 0 8 packet >>= λ (h : List ℕ). done (header_ntoh (header_of h)))
          ≡ done (sent_header fresh))
      × (load 8 16 packet ≡ done (take 16 md5))
      × (fetch_string (drop 24 packet) ≡ done (username, []))
unfolding query_send
query_send-packet sendto fresh md5 username c s a chars named room holds known =
    let h = query_header fresh in
    let m = take 16 md5 in
    let n = username ++ 0 ∷ [] in
    let packet = header_bytes h ++ (m ++ n) in
    let long = length-take 16 md5 room in
    let some_name : (length username == 0) ≡ false = not_zero (length username) named in
    (
      packet,
      rw (some_name, fetch-take 16 md5 room) (sent_to sendto packet c s a holds known),
      rw
          (
            load-append 0 8 [] (header_bytes h) (m ++ n) refl (length-header_bytes h),
            header_of-header_bytes h (header_ntoh-IsHeader (sent_header fresh)),
            header_ntoh_undone (sent_header fresh) (sent_header-IsHeader fresh),
          )
          refl,
      load-append 8 16 (header_bytes h) m n (length-header_bytes h) long,
      ap fetch_string (
            ap (drop 24) (sym (append_assoc (header_bytes h) m n))
            ∙ drop-front 24 (header_bytes h ++ m) n
                (omega (arith, length-append (header_bytes h) m, length-header_bytes h, long)))
          ∙ fetch_string-append username [] chars,
    )
