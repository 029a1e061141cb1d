-- ===== src/Socket.antt =====
-- socket.hh and socket.cc: a socket, its descriptor and its flags. What the calls of the system answer
-- is an argument of each operation. `fd` is `none` where the field is -1.
pub mod Sound
pub mod Descriptors
pub mod Options
mod Examples
use napsteresque.Base.{
  ℕ, Bool, true, false, not, ◌&&◌, Option, none, some, List, [], ◌∷◌, ◌++◌, if◌then◌else◌,
}
use napsteresque.Address.{Address, any, of_sockaddr, to_sockaddr, multicast}

pub record Flags : Type 0 where
  pub opened : Bool
  pub bound : Bool
  pub connected : Bool
  pub listening : Bool

abbrev pub no_flags : Flags
no_flags = record { opened = false; bound = false; connected = false; listening = false }

pub record Socket : Type 0 where
  pub fd : Option ℕ
  pub addr : Address
  pub peer : Address
  pub flags : Flags

-- `Socket()`, which does not set `fd`: it is what memory holds.
abbrev pub new : Option ℕ → Socket
new fd = record { fd = fd; addr = any; peer = any; flags = no_flags }

-- What an operation does: the socket it leaves, whether it throws, the descriptors that the system
-- gave it and those that it gave to `::close`.
pub record Did : Type 0 where
  pub socket : Socket
  pub threw : Bool
  pub got : List ℕ
  pub released : List ℕ

abbrev pub descriptor : Option ℕ → List ℕ
descriptor none = []
descriptor (some n) = n ∷ []

abbrev pub quiet : Socket → Bool → Did
quiet s threw = record { socket = s; threw = threw; got = []; released = [] }

unfoldable pub close : Socket → Did
close s = record {
  socket = record s { fd = none; flags = no_flags };
  threw = false;
  got = [];
  released = descriptor s.fd;
}

-- `if (opened()) close();`, which the destructor is too.
unfoldable pub close_opened : Socket → Did
unfolding close
close_opened s = if s.flags.opened then close s else quiet s false

-- `open`, with the answer of `socket`.
unfoldable pub open_socket : Option ℕ → Socket → Did
unfolding close_opened
open_socket answer s =
    let d = close_opened s in
    elim answer [
      | none ↦ record d { socket = record d.socket { fd = none }; threw = true }
      | some n ↦ record d {
        socket = record d.socket { fd = some n; flags = record d.socket.flags { opened = true } };
        got = n ∷ [];
      }
    ]

-- `operator =` of another socket, with the answer of `dup`.
unfoldable pub assign : Option ℕ → Socket → Socket → Did
unfolding close_opened
assign answer other s =
    let d = close_opened s in
    elim answer [
      | none ↦ record d { socket = record d.socket { fd = none }; threw = true }
      | some n ↦ record d { socket = record other { fd = some n }; got = n ∷ [] }
    ]

-- `bind`, with the answers of `setsockopt`, `bind`, `getsockname`, and of `setsockopt` for a group.
unfoldable pub bind : Bool → Bool → Option Address → Bool → Socket → Did
bind reuse ok name joined s = if not (reuse && ok) then quiet s true else elim name [
  | none ↦ quiet s true
  | some a ↦
      let s' : Socket = record s { addr = a; flags = record s.flags { bound = true } } in
      quiet s' (multicast a && not joined)
]

-- `connect`, with the answers of `connect` and `getsockname`.
unfoldable pub connect : Bool → Option Address → Address → Socket → Did
connect ok name a s =
    let s' : Socket = record s {
      peer = of_sockaddr (to_sockaddr a);
      flags = record s.flags { connected = true };
    } in
    if not ok then quiet s true else if s.flags.bound then quiet s' false else elim name [
      | none ↦ quiet s' false
      | some b ↦ quiet (record s' { addr = b; flags = record s'.flags { bound = true } }) false
    ]

-- `listen`, with the answer of `listen`.
unfoldable pub listen : Bool → Socket → Did
listen ok s =
    if ok
    then quiet (record s { flags = record s.flags { listening = true } }) false
    else quiet s true

-- `accept` of a listener into a socket, with the answer of `accept`.
unfoldable pub accept : Option (ℕ × Address) → Socket → Socket → Did
unfolding close_opened
accept none listener s = quiet s true
accept (some (n, from)) listener s =
    let d = close_opened s in
    record d {
      socket = record {
        fd = some n;
        addr = listener.addr;
        peer = from;
        flags = record { opened = true; bound = true; connected = true; listening = false };
      };
      got = n ∷ [];
    }

-- The calls of a socket, with the answers to each.
pub data Call : Type 0 where
  opens : Option ℕ → Call
  assigns : Option ℕ → Socket → Call
  binds : Bool → Bool → Option Address → Bool → Call
  connects : Bool → Option Address → Address → Call
  listens : Bool → Call
  accepts : Option (ℕ × Address) → Socket → Call
  closes : Call

unfoldable pub step : Call → Socket → Did
step (opens answer) s = open_socket answer s
step (assigns answer other) s = assign answer other s
step (binds reuse ok name joined) s = bind reuse ok name joined s
step (connects ok name a) s = connect ok name a s
step (listens ok) s = listen ok s
step (accepts answer listener) s = accept answer listener s
step closes s = close s

-- Some calls, whether or not they throw, and then the destructor: the descriptors that the socket got
-- and those that it closed.
unfoldable pub life : List Call → Socket → List ℕ × List ℕ
unfolding step close_opened
life [] s = ([], (close_opened s).released)
life (c ∷ cs) s =
    let d = step c s in let later = life cs d.socket in (d.got ++ later.0, d.released ++ later.1)
