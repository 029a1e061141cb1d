-- ===== src/Cid/Life.antt =====
-- cidclient.cc: the descriptors of the client's sockets, and when it has a server.
use napsteresque.Base.{
  ℕ, ◌%◌, ◌^◌, ◌≡◌, refl, ap, Bool, true, false, Option, none, some, List, [], ◌==◌, Bool-cases,
  inl, inr, arith,
}
use napsteresque.Address.{Made, of_text}
use napsteresque.Socket.{Socket, descriptor, new, close, open_socket, listen}
use napsteresque.Cert.{Outcome, done, thrown, overrun}
use napsteresque.Cid.{CidClient, Ended, close_client, Answers, take_server, set_server, reconnect}

-- The descriptor that a client holds.
abbrev pub held : CidClient → List ℕ
held c = elim c.sock [ none ↦ [] | some s ↦ descriptor s.fd ]

-- Whether `Reconnect` returned 0.
abbrev pub succeeded : Outcome ℕ → Bool
succeeded (done n) = n == 0
succeeded thrown = false
succeeded overrun = false

-- What `Reconnect` does with descriptors and with the server.
abbrev pub IsWhole : CidClient → Ended → Type 0
IsWhole c d =
    (d.released ≡ held c) × (held d.client ≡ d.got) × (d.client.initialized ≡ succeeded d.outcome)

-- A step that keeps the socket, and sets the client up exactly where it returns 0.
abbrev Sets : CidClient → CidClient × Outcome ℕ → Type 0
Sets c r = (r.0.sock ≡ c.sock) × (r.0.initialized ≡ succeeded (r.1))

take_server-Sets : (m : Made) (c : CidClient) → c.initialized ≡ false → Sets c (take_server m c)
unfolding take_server
take_server-Sets (Made.made a) c h = (refl, refl)
take_server-Sets Made.thrown c h = (refl, h)
take_server-Sets Made.overflow c h = (refl, h)

module _ (inet_addr : List ℕ → ℕ) (gethostbyname : List ℕ → Option ℕ) where
  set_server-Sets :
      (fresh : List ℕ) (host : Option (List ℕ)) (port : ℕ) (c : CidClient)
      → c.initialized ≡ false
      → Sets c (set_server inet_addr gethostbyname fresh host port c)
  unfolding set_server
  set_server-Sets fresh none port c h = ground arith
  set_server-Sets fresh (some host) port c h =
      let known =
        take_server-Sets (of_text inet_addr gethostbyname fresh host (port % 2 ^ 16)) c h in
      elim (Bool-cases (port == 0)) [ inl z ↦ simp (h, z) (refl, refl) | inr z ↦ simp (h, z) known ]

  reconnect_with :
      (answer : Option ℕ) (l f : Bool) (fresh : List ℕ) (host : Option (List ℕ)) (port : ℕ)
      (c : CidClient)
      → IsWhole c (
          reconnect inet_addr gethostbyname
            (record { opens = answer; listens = l; fcntl = f })
            fresh
            host
            port
            c)
  unfolding reconnect close_client close open_socket listen
  reconnect_with none l f fresh host port c = (refl, refl, refl)
  reconnect_with (some n) false f fresh host port c = (refl, refl, refl)
  reconnect_with (some n) true false fresh host port c = (refl, refl, refl)
  reconnect_with (some n) true true fresh host port c =
      let listener = (listen true (open_socket (some n) (new none)).socket).socket in
      let c' : CidClient = record c {
        sock = some listener;
        initialized = false;
        polled = some n;
      } in
      let (kept, told) = set_server-Sets fresh host port c' refl in
      (refl, ap (λ (o : Option Socket). elim o [ none ↦ [] | some s ↦ descriptor s.fd ]) kept, told)

  -- `Reconnect`, whatever the system answers and however it ends, closes the descriptor that the client
  -- held and no other, the client then holds the one it got, and it has a server exactly where
  -- `Reconnect` returned 0.
  pub reconnect-held :
      (answers : Answers) (fresh : List ℕ) (host : Option (List ℕ)) (port : ℕ) (c : CidClient)
      → IsWhole c (reconnect inet_addr gethostbyname answers fresh host port c)
  reconnect-held answers fresh host port c =
      reconnect_with answers.opens answers.listens answers.fcntl fresh host port c
