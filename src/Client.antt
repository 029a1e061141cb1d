-- ===== src/Client.antt =====
-- client.cc and the calls of socket.cc that it reads and writes by: packets on a connected stream.
-- The kernel is a parameter: each call of recv or send consumes one `Answer`, and the calls behind the
-- last one say EAGAIN. `inbox` is what the kernel holds of the stream for us, `sent` what it took.
pub mod Framing
pub mod Stream
pub mod Progress
pub mod Queue
pub mod Delivery
pub mod Whole
pub mod Ages
mod Examples
use napsteresque.Base.{
  ℕ, zero, suc, ◌+◌, ◌-◌, ◌*◌, Bool, true, false, Option, none, some, List, [], ◌∷◌, ◌++◌, ◌==◌,
  if◌then◌else◌, null, length, take, drop, ltb,
}
use napsteresque.Command.{Command, be16}

-- What a call says: bytes, at least one and up to the number given more; EAGAIN or EINTR; or the end
-- of the stream or another error.
pub data Answer : Type 0 where
  grants : ℕ → Answer
  again failed : Answer

-- `min` of what is asked for and what is granted.
abbrev pub granted : ℕ → ℕ → ℕ
granted k asked = if ltb (k + 1) asked then k + 1 else asked

-- A packet on its way in: `have` is its head and data up to `data + offset`, `offset` is
-- `length have - 4`.
pub record Incoming : Type 0 where
  pub size : ℕ
  pub code : ℕ
  pub have : List ℕ

pub record Reader : Type 0 where
  pub inbox : List ℕ
  pub rbuffer : Option Incoming

pub data Outcome : Type 0 where
  packet : Incoming → Outcome
  nothing thrown : Outcome

-- `full()`: `size == offset`
abbrev pub full : Incoming → Bool
full p = length p.have == p.size + 4

-- `CommandHead` in network order, out of the bytes that MSG_PEEK shows: size and code.
unfoldable pub peek_head : List ℕ → Option (ℕ × ℕ)
peek_head (a ∷ b ∷ c ∷ d ∷ r) = some (a * 256 + b, c * 256 + d)
peek_head _ = none

-- `recv(rbuffer)`: the next bytes of the stream, no more than are missing.
unfoldable pub recv : ℕ → Incoming → List ℕ → Incoming
recv k p inbox = record p { have = p.have ++ take (granted k (p.size + 4 - length p.have)) inbox }

abbrev pub recv_rest : ℕ → Incoming → List ℕ → List ℕ
recv_rest k p inbox = drop (granted k (p.size + 4 - length p.have)) inbox

-- `while (!rbuffer->full())`, and what follows it.
unfoldable pub fill : List Answer → Incoming → List ℕ → Outcome × Reader
unfolding recv
fill [] p inbox =
    if full p
    then (packet p, record { inbox = inbox; rbuffer = none })
    else (nothing, record { inbox = inbox; rbuffer = some p })
fill (grants k ∷ ks) p inbox =
    let rest = fill ks (recv k p inbox) (recv_rest k p inbox) in
    if full p
    then (packet p, record { inbox = inbox; rbuffer = none })
    else if null inbox
    then (nothing, record { inbox = inbox; rbuffer = some p })
    else rest
fill (again ∷ ks) p inbox =
    if full p
    then (packet p, record { inbox = inbox; rbuffer = none })
    else (nothing, record { inbox = inbox; rbuffer = some p })
fill (failed ∷ ks) p inbox =
    if full p
    then (packet p, record { inbox = inbox; rbuffer = none })
    else (thrown, record { inbox = inbox; rbuffer = some p })

-- `Client::read`, with the answer to the peek, of which no byte counts but four, and those to `recv`.
unfoldable pub read : Answer → List Answer → Reader → Outcome × Reader
unfolding fill peek_head
read peeked ks r = elim r.rbuffer [
  | some p ↦ fill ks p r.inbox
  | none ↦ elim peeked [
    | failed ↦ (thrown, r)
    | again ↦ (nothing, r)
    | grants k ↦ elim (peek_head r.inbox) [
      | none ↦ (nothing, r)
      | some (size, code) ↦ fill ks (record { size = size; code = code; have = [] }) r.inbox
    ]
  ]
]

-- What happens to a connection that is read: bytes arrive, or the server reads.
pub data Event : Type 0 where
  arrives : List ℕ → Event
  reads : Answer → List Answer → Event

-- What the server has of it.
unfoldable pub delivered : Outcome → List Incoming × Reader → List Incoming × Reader
delivered (packet p) rest = (p ∷ rest.0, rest.1)
delivered nothing rest = rest
delivered thrown rest = rest

unfoldable pub run : List Event → Reader → List Incoming × Reader
unfolding read delivered
run [] r = ([], r)
run (arrives bs ∷ es) r = run es (record r { inbox = r.inbox ++ bs })
run (reads peeked ks ∷ es) r = let (out, r') = read peeked ks r in delivered out (run es r')

-- A packet on its way out: its head and data, and `offset + 4`.
pub record Outgoing : Type 0 where
  pub whole : List ℕ
  pub at : ℕ

-- The head that `write` puts before the data, and the data that `size` counts.
unfoldable pub message : Command → List ℕ
message c = be16 c.size ++ (be16 c.code ++ take c.size (elim c.bytes [ none ↦ [] | some d ↦ d ]))

abbrev pub sent_out : Outgoing → Bool
sent_out c = c.at == length c.whole

-- `send(com)`: what it sends, and how far the packet is then.
abbrev pub portion : ℕ → Outgoing → List ℕ
portion k c = take (granted k (length c.whole - c.at)) (drop c.at c.whole)

abbrev pub send : ℕ → Outgoing → Outgoing
send k c = record c { at = c.at + granted k (length c.whole - c.at) }

-- How the loop over one packet ends, with the bytes it sends: with the packet sent, and the answers
-- that are left; at EAGAIN; or by an exception.
pub data Sending : Type 0 where
  finished : List ℕ → List Answer → Sending
  blocked broken : List ℕ → Outgoing → Sending

abbrev pub after : List ℕ → Sending → Sending
after bs (finished cs ks) = finished (bs ++ cs) ks
after bs (blocked cs c) = blocked (bs ++ cs) c
after bs (broken cs c) = broken (bs ++ cs) c

-- `while (!com->full())`
unfoldable pub send_packet : List Answer → Outgoing → Sending
send_packet [] c = if sent_out c then finished [] [] else blocked [] c
send_packet (grants k ∷ ks) c =
    let rest = send_packet ks (send k c) in
    if sent_out c then finished [] (grants k ∷ ks) else after (portion k c) rest
send_packet (again ∷ ks) c = if sent_out c then finished [] (again ∷ ks) else blocked [] c
send_packet (failed ∷ ks) c = if sent_out c then finished [] (failed ∷ ks) else broken [] c

-- The bytes that a call sends, the queue that it leaves, and whether it throws.
pub record Flushed : Type 0 where
  pub bytes : List ℕ
  pub wqueue : List Outgoing
  pub threw : Bool

-- `Client::flush`
unfoldable pub flush : List Answer → List Outgoing → Flushed
unfolding send_packet
flush ks [] = record { bytes = []; wqueue = []; threw = false }
flush ks (c ∷ cs) = elim (send_packet ks c) [
  | finished bs left ↦ let f = flush left cs in record f { bytes = bs ++ f.bytes }
  | blocked bs c' ↦ record { bytes = bs; wqueue = c' ∷ cs; threw = false }
  | broken bs c' ↦ record { bytes = bs; wqueue = c' ∷ cs; threw = true }
]

-- `Client::write`: the queue is flushed if it was empty.
unfoldable pub write : List Answer → Command → List Outgoing → Flushed
unfolding flush message
write ks c queue =
    let longer = queue ++ record { whole = message c; at = 0 } ∷ [] in
    if null queue then flush ks longer else record { bytes = []; wqueue = longer; threw = false }

-- What the server does with a connection that is written to.
pub data Call : Type 0 where
  writes : Command → List Answer → Call
  flushes : List Answer → Call

-- The bytes that some calls send, and the queue that they leave.
unfoldable pub run_calls : List Call → List Outgoing → List ℕ × List Outgoing
unfolding write flush
run_calls [] queue = ([], queue)
run_calls (writes c ks ∷ cs) queue =
    let f = write ks c queue in let rest = run_calls cs f.wqueue in (f.bytes ++ rest.0, rest.1)
run_calls (flushes ks ∷ cs) queue =
    let f = flush ks queue in let rest = run_calls cs f.wqueue in (f.bytes ++ rest.0, rest.1)
