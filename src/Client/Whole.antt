-- ===== src/Client/Whole.antt =====
-- client.cc, client.hh: a client with its socket, its buffer and its queue, and the ages of these. A
-- `Time` is its microseconds; what the system answers is an argument of each operation.
use napsteresque.Base.{
  ℕ, Bool, false, Option, none, some, List, [], ◌∷◌, ◌++◌, ◌==◌, if◌then◌else◌, null,
}
use napsteresque.Address.{Address}
use napsteresque.Command.{Command}
use napsteresque.Socket.{Socket, Did}
use napsteresque.Socket
use napsteresque.Client.{
  Answer, Incoming, Outgoing, Outcome, packet, nothing, thrown, message, read as read_stream,
  flush as flush_queue,
}

-- `Client`; `flags` is `flags.all`.
pub record Client : Type 0 where
  pub socket : Socket
  pub rbuffer : Option Incoming
  pub rbuffer_age : ℕ
  pub wqueue : List Outgoing
  pub wqueue_age : ℕ
  pub flags : ℕ

-- `_clear`
unfoldable pub clear : Client → Client
clear c = record c { rbuffer = none; flags = 0; rbuffer_age = 0; wqueue_age = 0 }

-- What an operation does: the client it leaves, whether it throws, the descriptors that the system gave
-- it and those that it gave back, and the packets that it deletes.
pub record Done : Type 0 where
  pub client : Client
  pub threw : Bool
  pub got : List ℕ
  pub released : List ℕ
  pub deleted_in : Option Incoming
  pub deleted_out : List Outgoing

-- Two calls of the socket, the second if the first does not throw.
unfoldable pub and_then : Did → (Socket → Did) → Did
and_then d f =
    let e = f d.socket in
    if d.threw then d else record e { got = d.got ++ e.got; released = d.released ++ e.released }

-- The calls of the socket that an operation is, on a cleared client.
unfoldable pub on_socket : Client → Did → Done
on_socket c d = record {
  client = record c { socket = d.socket };
  threw = d.threw;
  got = d.got;
  released = d.released;
  deleted_in = none;
  deleted_out = [];
}

-- What `connect` answers, and what `getsockname` says then.
pub record Connecting : Type 0 where
  pub ok : Bool
  pub name : Option Address

-- The answers to the four calls of `bind`.
pub record Binding : Type 0 where
  pub reuse : Bool
  pub bound : Bool
  pub named : Option Address
  pub joined : Bool

-- `open(type)`, with the answer of `socket`.
unfoldable pub open_type : Option ℕ → Client → Done
unfolding clear on_socket
open_type answer c = on_socket (clear c) (Socket.open_socket answer (clear c).socket)

-- `open(y, type)`
unfoldable pub open_peer : Option ℕ → Connecting → Address → Client → Done
unfolding clear on_socket and_then
open_peer answer connecting y c = on_socket (clear c) (
    and_then (Socket.open_socket answer (clear c).socket)
      (Socket.connect connecting.ok connecting.name y))

-- `open(x, y, type)`: `bind` sets the flag and `getsockname` gives the address, so that `x` itself only
-- reaches the system.
unfoldable pub open_both : Option ℕ → Binding → Connecting → Address → Client → Done
unfolding clear on_socket and_then
open_both answer b connecting y c = on_socket (clear c) (
    and_then
      (and_then (Socket.open_socket answer (clear c).socket)
        (Socket.bind b.reuse b.bound b.named b.joined))
      (Socket.connect connecting.ok connecting.name y))

-- A client before its constructor's body: the list is empty, the fields are what memory holds.
abbrev pub raw : Option ℕ → Option Incoming → ℕ → ℕ → ℕ → Client
raw fd rbuffer rbuffer_age wqueue_age flags = record {
  socket = Socket.new fd;
  rbuffer = rbuffer;
  rbuffer_age = rbuffer_age;
  wqueue = [];
  wqueue_age = wqueue_age;
  flags = flags;
}

-- `Client()`
unfoldable pub construct_plain : Client → Done
unfolding clear on_socket
construct_plain c = on_socket (clear c) (Socket.quiet c.socket false)

-- The constructors: without arguments, with a type, with a peer, and with both addresses.
pub data Opening : Type 0 where
  plain : Opening
  typed : Option ℕ → Opening
  to_peer : Option ℕ → Connecting → Address → Opening
  to_both : Option ℕ → Binding → Connecting → Address → Opening

unfoldable pub born : Opening → Client → Done
unfolding construct_plain open_type open_peer open_both
born plain c = construct_plain c
born (typed answer) c = open_type answer c
born (to_peer answer connecting y) c = open_peer answer connecting y c
born (to_both answer b connecting y) c = open_both answer b connecting y c

-- `close`, which is the destructor too. Neither the pointer `rbuffer` nor an age is set.
unfoldable pub close : Client → Done
close c =
    let d = Socket.close c.socket in
    record {
      client = record c { socket = d.socket; wqueue = [] };
      threw = d.threw;
      got = d.got;
      released = d.released;
      deleted_in = c.rbuffer;
      deleted_out = c.wqueue;
    }

-- The age of the buffer after `read`: it is set where a buffer is made, and reset where a packet is
-- returned.
unfoldable pub age_read : ℕ → Outcome → Option Incoming → Option Incoming → ℕ → ℕ
age_read now (packet _) before later age = 0
age_read now nothing none (some _) age = now
age_read now nothing _ _ age = age
age_read now thrown none (some _) age = now
age_read now thrown _ _ age = age

-- `read`, at the time `now`, of a stream of which the kernel holds `inbox`.
unfoldable pub read : ℕ → Answer → List Answer → List ℕ → Client → Outcome × Client × List ℕ
unfolding age_read
read now peeked ks inbox c =
    let (out, r) = read_stream peeked ks (record { inbox = inbox; rbuffer = c.rbuffer }) in
    let age = age_read now out c.rbuffer r.rbuffer c.rbuffer_age in
    (out, record c { rbuffer = r.rbuffer; rbuffer_age = age }, r.inbox)

-- The age of the queue after `flush`: it is reset where the loop comes to the end.
abbrev pub age_flush : List Outgoing → ℕ → ℕ
age_flush queue age = if null queue then 0 else age

-- `flush`: the bytes, the client, and whether it throws.
unfoldable pub flush : List Answer → Client → List ℕ × Client × Bool
flush ks c =
    let f = flush_queue ks c.wqueue in
    (f.bytes, record c { wqueue = f.wqueue; wqueue_age = age_flush f.wqueue c.wqueue_age }, f.threw)

-- `write`, and `<<`
unfoldable pub write : ℕ → List Answer → Command → Client → List ℕ × Client × Bool
unfolding flush
write now ks m c =
    let c' : Client = record c {
      wqueue = c.wqueue ++ record { whole = message m; at = 0 } ∷ [];
      wqueue_age = if c.wqueue_age == 0 then now else c.wqueue_age;
    } in
    if null c.wqueue then flush ks c' else ([], c', false)

-- `>>`: a `read` that throws where there is no packet.
unfoldable pub read_or_throw :
    ℕ → Answer → List Answer → List ℕ → Client → Outcome × Client × List ℕ
unfolding read
read_or_throw now peeked ks inbox c =
    let (out, c', left) = read now peeked ks inbox c in
    (elim out [ packet p ↦ packet p | nothing ↦ thrown | thrown ↦ thrown ], c', left)

-- What happens to a client that is open.
pub data Use : Type 0 where
  reads takes : ℕ → Answer → List Answer → List ℕ → Use
  writes : ℕ → List Answer → Command → Use
  flushes : List Answer → Use

unfoldable pub use_of : Use → Client → Client
unfolding read read_or_throw write flush
use_of (reads now peeked ks inbox) c = (read now peeked ks inbox c).1
use_of (takes now peeked ks inbox) c = (read_or_throw now peeked ks inbox c).1
use_of (writes now ks m) c = (write now ks m c).1
use_of (flushes ks) c = (flush ks c).1

unfoldable pub uses : List Use → Client → Client
unfolding use_of
uses [] c = c
uses (u ∷ us) c = uses us (use_of u c)
