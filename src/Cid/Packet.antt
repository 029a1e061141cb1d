-- ===== src/Cid/Packet.antt =====
-- cidclient.cc: the headers of a packet, and the query.
use napsteresque.Base.{
  bytes_of, word_of, swap, ℕ, Option, none, some, List, [], ◌∷◌, ◌++◌, ◌==◌, if◌then◌else◌, ℤ, pos,
  length, take, drop,
}
use napsteresque.Address.{Address}
use napsteresque.Cert.{Outcome, done, overrun, ◌>>=◌, fetch}
use napsteresque.Cid.{CidClient}

pub record PktHeader : Type 0 where
  pub version : ℕ
  pub reserved : ℕ × ℕ × ℕ
  pub message_type : ℕ
  pub body_len : ℕ

-- `ContentPktHeader::NtoH`, which `HtoN` is too
unfoldable pub header_ntoh : PktHeader → PktHeader
unfolding swap
header_ntoh h = record h { message_type = swap 2 h.message_type; body_len = swap 2 h.body_len }

pub record BodyHeader : Type 0 where
  pub version : ℕ
  pub pad : ℕ × ℕ × ℕ
  pub username_offset : ℕ
  pub certs_offset : ℕ
  pub reserved : List ℕ

-- `ContentPktBodyHeader::NtoH`, which `HtoN` is too
unfoldable pub body_ntoh : BodyHeader → BodyHeader
unfolding swap
body_ntoh h = record h {
  username_offset = swap 2 h.username_offset;
  certs_offset = swap 2 h.certs_offset;
}

-- The headers in memory.
unfoldable pub header_bytes : PktHeader → List ℕ
unfolding bytes_of
header_bytes h =
    h.version
    ∷ h.reserved.0
    ∷ h.reserved.1
    ∷ h.reserved.2
    ∷ (bytes_of 2 h.message_type ++ bytes_of 2 h.body_len)

unfoldable pub body_bytes : BodyHeader → List ℕ
unfolding bytes_of
body_bytes h =
    h.version
    ∷ h.pad.0
    ∷ h.pad.1
    ∷ h.pad.2
    ∷ (bytes_of 2 h.username_offset ++ (bytes_of 2 h.certs_offset ++ h.reserved))

-- What bytes of memory are as headers.
unfoldable pub header_of : List ℕ → PktHeader
unfolding word_of
header_of (v ∷ a ∷ b ∷ c ∷ bs) = record {
  version = v;
  reserved = (a, b, c);
  message_type = word_of (take 2 bs);
  body_len = word_of (take 2 (drop 2 bs));
}
header_of _ = record { version = 0; reserved = (0, 0, 0); message_type = 0; body_len = 0 }

unfoldable pub body_of : List ℕ → BodyHeader
unfolding word_of
body_of (v ∷ a ∷ b ∷ c ∷ bs) = record {
  version = v;
  pad = (a, b, c);
  username_offset = word_of (take 2 bs);
  certs_offset = word_of (take 2 (drop 2 bs));
  reserved = drop 4 bs;
}
body_of _ = record {
  version = 0;
  pad = (0, 0, 0);
  username_offset = 0;
  certs_offset = 0;
  reserved = [];
}

abbrev pub header_len : ℕ
header_len = 8

abbrev pub body_header_len : ℕ
body_header_len = 16

abbrev pub md5_size : ℕ
md5_size = 16

-- CONTENT_PKTHDR_VERSION_ONE and CONTENT_ID_QUERY_PKT
abbrev pub version_one : ℕ
version_one = 1

abbrev pub query_pkt : ℕ
query_pkt = 1024

-- The header of a query; the code does not set the reserved bytes of the buffer (`fresh`).
unfoldable pub query_header : ℕ × ℕ × ℕ → PktHeader
unfolding header_ntoh
query_header fresh = header_ntoh (record {
  version = version_one;
  reserved = fresh;
  message_type = query_pkt;
  body_len = md5_size;
})

-- `QuerySend`, with what `sendto` answers for a datagram and an address: what it returns, and the
-- datagram that it sent. The MD5 is read from a pointer, the name is the string.
unfoldable pub query_send :
    (List ℕ → Address → ℤ)
    → ℕ × ℕ × ℕ
    → List ℕ
    → List ℕ
    → CidClient
    → Outcome (ℤ × Option (Address × List ℕ))
unfolding query_header header_bytes fetch
query_send sendto fresh md5 username c = if length username == 0 then done (pos 0, none) else do
  (digest, rest) ← fetch md5_size md5
  let packet = header_bytes (query_header fresh) ++ (digest ++ (username ++ 0 ∷ []))
  elim c.sock [
    | none ↦ overrun
    | some s ↦ elim c.cliaddr [
      | none ↦ overrun
      | some to ↦ done (sendto packet to, some (to, packet))
    ]
  ]
