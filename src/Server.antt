-- ===== src/Server.antt =====
-- server.cc: the connections that the accept thread hands over, and the rounds of the server over its
-- clients. What poll and the kernel say of a client in one round is a parameter, its `Turn`.
pub mod Live
pub mod Round
pub mod Refine
mod Examples
use napsteresque.Base.{
  ℕ, ◌+◌, Bool, true, false, not, ◌&&◌, Option, none, some, List, [], ◌∷◌, ◌++◌, ◌==◌,
  if◌then◌else◌, map,
}
use napsteresque.Client.{
  Answer, Reader, Outcome, packet, nothing, thrown, Outgoing, Flushed, read, flush,
}

-- A client of the server: its address, the flag `dead`, and what client.cc keeps.
pub record Connection : Type 0 where
  pub id : ℕ
  pub ip : ℕ
  pub dead : Bool
  pub reader : Reader
  pub wqueue : List Outgoing

-- `can_read` with the answers to `read`, and `can_write` with those to `flush`.
pub record Turn : Type 0 where
  pub readable : Option (Answer × List Answer)
  pub writable : Option (List Answer)

pub record Server : Type 0 where
  pub incoming : List Connection
  pub clients : List Connection

abbrev pub idle : Server
idle = record { incoming = []; clients = [] }

-- The loop of `add_connection` at one client.
unfoldable pub mark : ℕ → Connection → Connection
mark ip c = if c.ip == ip then record c { dead = true } else c

unfoldable pub add_connection : Connection → List Connection → List Connection
unfolding mark
add_connection c cs = map (mark c.ip) cs ++ c ∷ []

unfoldable pub add_all : List Connection → List Connection → List Connection
unfolding add_connection
add_all [] cs = cs
add_all (c ∷ new) cs = add_all new (add_connection c cs)

unfoldable pub check_incoming : Server → Server
unfolding add_all
check_incoming s = record { incoming = []; clients = add_all s.incoming s.clients }

-- `lc->read()`, whose packet is deleted: `none` where it throws.
unfoldable pub after_read : Connection → Outcome × Reader → Option Connection
after_read c (packet p, r) = some (record c { reader = r })
after_read c (nothing, r) = some (record c { reader = r })
after_read c (thrown, r) = none

unfoldable pub serve_read : Turn → Connection → Option Connection
unfolding read after_read
serve_read t c = elim t.readable [
  | none ↦ some c
  | some (peeked, ks) ↦ after_read c (read peeked ks c.reader)
]

-- `lc->flush()`
unfoldable pub after_flush : Connection → Flushed → Option Connection
after_flush c f = if f.threw then none else some (record c { wqueue = f.wqueue })

unfoldable pub serve_write : Turn → Connection → Option Connection
unfolding flush after_flush
serve_write t c = elim t.writable [ none ↦ some c | some ks ↦ after_flush c (flush ks c.wqueue) ]

-- One client in `check_clients`: `none` where it is removed.
unfoldable pub serve : Turn → Connection → Option Connection
unfolding serve_read serve_write
serve t c =
    if c.dead then none else elim (serve_read t c) [ none ↦ none | some d ↦ serve_write t d ]

unfoldable pub check_clients : (ℕ → Turn) → List Connection → List Connection
unfolding serve
check_clients turns [] = []
check_clients turns (c ∷ cs) =
    let rest = check_clients turns cs in
    elim (serve (turns c.id) c) [ none ↦ rest | some d ↦ d ∷ rest ]

-- What happens to the server: the accept thread pushes a connection, or the main loop makes a call.
pub data Event : Type 0 where
  accepts : Connection → Event
  checks_incoming : Event
  checks_clients : (ℕ → Turn) → Event

unfoldable pub step : Event → Server → Server
unfolding check_incoming check_clients
step (accepts c) s = record s { incoming = s.incoming ++ c ∷ [] }
step checks_incoming s = check_incoming s
step (checks_clients turns) s = record s { clients = check_clients turns s.clients }

unfoldable pub run : List Event → Server → Server
unfolding step
run [] s = s
run (e ∷ es) s = run es (step e s)
