-- ===== src/Cid.antt =====
-- cidclient.hh and cidclient.cc: the client of the service that identifies files by their MD5: its
-- socket and its server. What the calls of the system answer is an argument of each operation.
pub mod Packet
pub mod Response
pub mod Places
pub mod Checks
pub mod Query
pub mod Life
mod Examples
pub mod Answer
use napsteresque.Base.{
  ℕ, ◌+◌, ◌%◌, ◌^◌, Bool, true, false, not, ◌||◌, Option, none, some, List, [], ◌∷◌, ◌++◌, ◌==◌,
  if◌then◌else◌, ℤ, pos, negsuc, length, take,
}
use napsteresque.Address.{Address, Made, of_text}
use napsteresque.Socket.{Socket, new, close, open_socket, listen}
use napsteresque.Cert.{Outcome, done, thrown, overrun, ◌>>=◌, store}

-- A pointer is NULL or the object; `in_buf` is the bytes of the buffer.
pub record CidClient : Type 0 where
  pub in_buf : Option (List ℕ)
  pub in_len : ℤ
  pub sock : Option Socket
  pub cliaddr : Option Address
  pub polled : Option ℕ
  pub initialized : Bool
  pub net_to_host : Bool

-- What an operation does: the client it leaves, what it returns, and the descriptors that it got and
-- closed.
pub record Ended : Type 0 where
  pub client : CidClient
  pub outcome : Outcome ℕ
  pub got : List ℕ
  pub released : List ℕ

unfoldable pub close_client : CidClient → Ended
unfolding close
close_client c = record {
  client = record c { sock = none; initialized = false };
  outcome = done 0;
  got = [];
  released = elim c.sock [ none ↦ [] | some s ↦ (close s).released ];
}

-- What the system answers while a socket is made: `socket`, `listen` and the two `fcntl`.
pub record Answers : Type 0 where
  pub opens : Option ℕ
  pub listens : Bool
  pub fcntl : Bool

-- `cliaddr = new Address(host_name, port); initialized = true; return 0;`
unfoldable pub take_server : Made → CidClient → CidClient × Outcome ℕ
take_server (Made.made a) c = (record c { cliaddr = some a; initialized = true }, done 0)
take_server Made.thrown c = (c, thrown)
take_server Made.overflow c = (c, overrun)

module _ (inet_addr : List ℕ → ℕ) (gethostbyname : List ℕ → Option ℕ) where
  -- `SetServer`: the host's name, NULL or the string, and the port; `fresh` is what `buf` held.
  unfoldable pub set_server : List ℕ → Option (List ℕ) → ℕ → CidClient → CidClient × Outcome ℕ
  set_server fresh none port c = (c, done (if c.initialized then 0 else 1))
  set_server fresh (some host) port c =
      if c.initialized
      then (c, done 0)
      else if port == 0
      then (c, done 1)
      else take_server (of_text inet_addr gethostbyname fresh host (port % 2 ^ 16)) c

  -- `Reconnect`: where `new Socket` throws, `sock` is still NULL.
  unfoldable pub reconnect : Answers → List ℕ → Option (List ℕ) → ℕ → CidClient → Ended
  reconnect answers fresh host port c =
      let d = close_client c in
      let opening = open_socket answers.opens (new none) in
      if opening.threw
      then record d { outcome = thrown }
      else (let listening = listen answers.listens opening.socket in
          let held : CidClient = record d.client { sock = some listening.socket } in
          if listening.threw || not answers.fcntl
          then record d { client = held; outcome = thrown; got = opening.got }
          else (let r = set_server fresh host port (record held { polled = listening.socket.fd }) in
              record d { client = r.0; outcome = r.1; got = opening.got }))

  -- The constructor.
  unfoldable pub construct : Answers → List ℕ → Option (List ℕ) → ℕ → Bool → Ended
  construct answers fresh host port net_to_host = reconnect answers fresh host port (record {
    in_buf = none;
    in_len = pos 0;
    sock = none;
    cliaddr = none;
    polled = none;
    initialized = false;
    net_to_host = net_to_host;
  })

-- The destructor, whose buffer is freed: the descriptors that it closes.
unfoldable pub destruct : CidClient → List ℕ
unfolding close_client
destruct c = (close_client c).released

-- `Poll`, with the answer of `poll` for a descriptor and a timeout.
unfoldable pub poll : (Option ℕ → ℤ → ℤ) → ℤ → CidClient → ℤ
poll answer timeout c = answer c.polled timeout

-- What `recv` answers: a datagram, an error that only says to wait, or another error.
pub data Arrival : Type 0 where
  datagram : List ℕ → Arrival
  again failed : Arrival

-- `Receive`: the new buffer, of `recv_size + 1` bytes, holds the datagram as far as it is asked for,
-- and behind that what memory held (`fresh`).
unfoldable pub receive : Arrival → List ℕ → ℕ → CidClient → Outcome (ℤ × CidClient)
unfolding store
receive arrival fresh recv_size c = elim c.sock [
  | none ↦ overrun
  | some s ↦ elim arrival [
    | datagram d ↦ store (take recv_size d) fresh >>= λ (buffer : List ℕ). done (
        let len = pos (length (take recv_size d)) in
        (len, record c { in_buf = some buffer; in_len = len }))
    | again ↦ done (pos 0, record c { in_buf = some fresh; in_len = pos 0 })
    | failed ↦ done (negsuc 0, record c { in_buf = some fresh; in_len = negsuc 0 })
  ]
]
