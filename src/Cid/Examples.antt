-- ===== src/Cid/Examples.antt =====
-- cidclient.cc: a client with a server, a query and an answer.
use napsteresque.Base.{
  ℕ, ◌≡◌, refl, true, false, none, some, List, [], ◌∷◌, ◌++◌, pos, length, take, drop, arith,
}
use napsteresque.Address.{Address, any}
use napsteresque.Socket.{Socket, open_socket, listen}
use napsteresque.Hex.{bin_to_hex}
use napsteresque.Cert.{done, overrun, ◌>>=◌, fetch_string, repeat}
use napsteresque.Cert.File
use napsteresque.Cert.File.{FileCert, cert_of}
use napsteresque.Cert.Song.{SongCertHead, head_of, head_bytes}
use napsteresque.Cid.{CidClient, Answers, datagram, close_client, reconnect}
use napsteresque.Cid.Packet.{
  PktHeader, BodyHeader, header_ntoh, body_ntoh, header_bytes, body_bytes, header_of, query_send,
}
use napsteresque.Cid.Response.{Response, load, response_receive, with_buffer}
use napsteresque.Cid.Checks.{response_receive_stray}
use napsteresque.Cid.Answer.{answer, response_receive-answer}
use napsteresque.Cid.Query.{sent_header, query_send-packet}
use napsteresque.Cid.Life.{IsWhole, reconnect-held}

abbrev socket : Socket
socket = record {
  fd = some 7;
  addr = any;
  peer = any;
  flags = record { opened = true; bound = false; connected = false; listening = true };
}

abbrev cid_server : Address
cid_server = record { ip = 3232235521; port = 9000 }

abbrev cid_client : CidClient
cid_client = record {
  in_buf = none;
  in_len = pos 0;
  sock = some socket;
  cliaddr = some cid_server;
  polled = some 7;
  initialized = true;
  net_to_host = true;
}

abbrev file_cert : FileCert
file_cert = record File.new { file_type = 1; bitrate = 128; songid = 77; md5 = repeat 16 7 }

abbrev song_head : SongCertHead
song_head = record {
  version = 0;
  pad = (0, 0, 0);
  end_date = 998000000;
  date = 997000000;
  duration = 240;
  songid = 77;
}

-- The header of an answer to `al` with no strings and signature behind the song certificate's head.
abbrev header : PktHeader
header = record { version = 1; reserved = (0, 0, 0); message_type = 1025; body_len = 111 }

abbrev body : BodyHeader
body = record {
  version = 1;
  pad = (0, 0, 0);
  username_offset = 0;
  certs_offset = 3;
  reserved = repeat 8 0;
}

response_receive-answer_example :
    (r : Response) × (out : List ℕ) × (c' : CidClient) × (rest : List ℕ) × (response_receive
        (datagram (answer header body (b'a' ∷ b'l' ∷ []) file_cert song_head []))
        (repeat 201 0)
        200
        true
        cid_client
      ≡ done (pos 1, some r, with_buffer out c'))
    × (fetch_string (drop r.username out) ≡ done (b'a' ∷ b'l' ∷ [], rest))
    × ((load r.fcert 68 out >>= λ (f : List ℕ). done (cert_of f)) ≡ done file_cert)
    × ((load r.scert 24 out >>= λ (f : List ℕ). done (head_of f)) ≡ done song_head)
    × (r.scert_size ≡ pos (length (head_bytes song_head ++ [])))
    × (r.md5txt ≡ some (bin_to_hex file_cert.md5))
unfolding header_bytes body_bytes body_ntoh File.signed_bytes File.ntoh head_bytes
response_receive-answer_example =
    response_receive-answer header body (b'a' ∷ b'l' ∷ []) file_cert song_head []
      (record {
        header = record { message_type = omega arith; body_len = omega arith };
        body = record {
          username_offset = omega arith;
          certs_offset = omega arith;
          reserved = refl;
        };
        cert = record {
          end_date = omega arith;
          date = omega arith;
          file_type = omega arith;
          bitrate = omega arith;
          frequency = omega arith;
          songid = omega arith;
          md5 = refl;
        };
        signature = refl;
        head = record {
          end_date = omega arith;
          date = omega arith;
          duration = omega arith;
          songid = omega arith;
        };
        no_nul = (refl, (refl, tt));
        username_offset = refl;
        certs_offset = refl;
        body_len = refl;
      })
      200 (repeat 201 0) cid_client socket (omega arith) refl refl refl

-- Certificates that would stand 65,535 bytes behind the headers of a datagram of 32.
abbrev short_header : PktHeader
short_header = record header { body_len = 24 }

abbrev far_body : BodyHeader
far_body = record body { certs_offset = 65535 }

response_receive_stray_example :
    response_receive
      (datagram (
        header_bytes (header_ntoh short_header) ++ (body_bytes (body_ntoh far_body) ++ repeat 8 0)))
      (repeat 65 0)
      64
      false
      cid_client
    ≡ overrun
response_receive_stray_example =
    response_receive_stray short_header far_body (repeat 8 0) (repeat 65 0) 64 false cid_client
      socket (record { message_type = omega arith; body_len = omega arith })
      (record { username_offset = omega arith; certs_offset = omega arith; reserved = refl })
      (omega arith) refl refl refl refl (omega arith)

query_send-packet_example :
    (packet : List ℕ) × (query_send
        (λ d a. pos (length d))
        (1, 2, 3)
        (repeat 16 9)
        (b'a' ∷ b'l' ∷ [])
        cid_client
      ≡ done (pos (length packet), some (cid_server, packet)))
    × ((load 0 8 packet >>= λ (h : List ℕ). done (header_ntoh (header_of h)))
        ≡ done (sent_header (1, 2, 3)))
    × (load 8 16 packet ≡ done (take 16 (repeat 16 9)))
    × (fetch_string (drop 24 packet) ≡ done (b'a' ∷ b'l' ∷ [], []))
query_send-packet_example =
    query_send-packet (λ d a. pos (length d)) (1, 2, 3) (repeat 16 9) (b'a' ∷ b'l' ∷ []) cid_client
      socket cid_server (refl, (refl, tt)) (omega arith) (omega arith) refl refl

-- What `listen` answers for a datagram socket: it refuses.
abbrev refused : Answers
refused = record { opens = some 8; listens = false; fcntl = true }

reconnect-held_example :
    IsWhole cid_client
      (reconnect (λ host. 0) (λ host. none) refused [] (some (b'h' ∷ [])) 9000 cid_client)
reconnect-held_example =
    reconnect-held (λ host. 0) (λ host. none) refused [] (some (b'h' ∷ [])) 9000 cid_client

-- Such a client throws, and has no server.
reconnect-refused :
    (reconnect
      (λ host. 0)
      (λ host. none)
      refused
      []
      (some (b'h' ∷ []))
      9000
      cid_client).client.initialized
    ≡ false
unfolding reconnect close_client open_socket listen
reconnect-refused = refl
