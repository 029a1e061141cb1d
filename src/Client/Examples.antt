-- ===== src/Client/Examples.antt =====
-- client.cc: two packets over a stream that comes in pieces.
use napsteresque.Base.{◌≡◌, refl, true, none, some, List, [], ◌∷◌, ◌++◌, arith}
use napsteresque.Command.{Command}
use napsteresque.Client.{
  grants, again, Incoming, packet, Event, arrives, reads, run, Call, writes, flushes, run_calls,
  peek_head, read, message,
}
use napsteresque.Client.Stream.{fresh_reader, arrived, wires, run-packets}
use napsteresque.Client.Framing.{pending}
use napsteresque.Client.Progress.{read-packet}
use napsteresque.Client.Queue.{written, waiting, messages, run_calls-waiting}
use napsteresque.Address.{Address}
use napsteresque.Client.Whole.{
  Client, raw, born, Opening, to_peer, Use, uses, close, open_type, clear, on_socket,
}
use napsteresque.Client.Whole.Use.{reads as reads, writes as writes}
use napsteresque.Client.Ages.{IsAged, uses-born-IsAged}
use napsteresque.Client.Delivery.{received, run-run_calls}

-- Code 19 and the data "ab", and code 20 without data.
abbrev first : Command
first = record { size = 2; code = 19; bytes = some (b'a' ∷ b'b' ∷ 0 ∷ []); offset = some 0 }

abbrev second : Command
second = record { size = 0; code = 20; bytes = none; offset = some 0 }

abbrev calls : List Call
calls =
    writes first (grants 2 ∷ again ∷ [])
    ∷ writes second []
    ∷ flushes (grants 9 ∷ grants 0 ∷ [])
    ∷ []

-- Three bytes go out, then the three others and one of the second packet.
sent : (run_calls calls []).0 ≡ 0 ∷ 2 ∷ 0 ∷ 19 ∷ b'a' ∷ b'b' ∷ 0 ∷ []
unfolding run_calls
sent = refl

abbrev events : List Event
events =
    arrives (0 ∷ 2 ∷ 0 ∷ [])
    ∷ reads (grants 3) []
    ∷ arrives (19 ∷ b'a' ∷ [])
    ∷ reads (grants 3) (grants 9 ∷ [])
    ∷ arrives (b'b' ∷ [])
    ∷ reads (grants 3) (grants 0 ∷ [])
    ∷ []

first_in : (run events fresh_reader).0 ≡ received first ∷ []
unfolding run message
first_in = refl

events-arrived : arrived events ++ 0 ∷ [] ≡ (run_calls calls []).0
unfolding run_calls arrived
events-arrived = refl

run-run_calls_example :
    (rest : List Incoming) × (received first ∷ received second ∷ []
      ≡ (run events fresh_reader).0 ++ rest)
unfolding written
run-run_calls_example =
    run-run_calls calls events (0 ∷ [])
      ((omega arith, omega arith, omega arith), ((omega arith, omega arith, omega arith), tt))
      events-arrived

run_calls-waiting_example :
    waiting [] ++ messages (written calls)
    ≡ (run_calls calls []).0 ++ waiting (run_calls calls []).1
run_calls-waiting_example = run_calls-waiting calls []

abbrev short_packet : Incoming
short_packet = record { size = 1; code = 7; have = 0 ∷ 1 ∷ 0 ∷ 7 ∷ b'x' ∷ [] }

short_head : peek_head short_packet.have ≡ some (1, 7)
unfolding peek_head
short_head = refl

read-packet_example :
    read
      (grants 3)
      (grants 0 ∷ grants 0 ∷ grants 0 ∷ grants 0 ∷ grants 0 ∷ [])
      (record { inbox = 0 ∷ 1 ∷ 0 ∷ 7 ∷ b'x' ∷ 0 ∷ []; rbuffer = none })
    ≡ (packet short_packet, record { inbox = 0 ∷ []; rbuffer = none })
read-packet_example =
    read-packet 3 (grants 0 ∷ grants 0 ∷ grants 0 ∷ grants 0 ∷ grants 0 ∷ [])
      (record { inbox = 0 ∷ 1 ∷ 0 ∷ 7 ∷ b'x' ∷ 0 ∷ []; rbuffer = none }) short_packet (0 ∷ []) tt
      (refl, short_head) (tt, (tt, (tt, (tt, (tt, tt))))) (omega arith) refl

short_wires : arrived (arrives (0 ∷ 1 ∷ []) ∷ []) ++ (0 ∷ 7 ∷ b'x' ∷ []) ≡ wires (short_packet ∷ [])
unfolding arrived wires
short_wires = refl

run-packets_example :
    (rest : List Incoming) × (short_packet ∷ []
      ≡ (run (arrives (0 ∷ 1 ∷ []) ∷ []) fresh_reader).0 ++ rest)
    × (pending (run (arrives (0 ∷ 1 ∷ []) ∷ []) fresh_reader).1 ++ (0 ∷ 7 ∷ b'x' ∷ []) ≡ wires rest)
run-packets_example =
    run-packets (arrives (0 ∷ 1 ∷ []) ∷ []) (short_packet ∷ []) (0 ∷ 7 ∷ b'x' ∷ [])
      ((refl, short_head), tt) short_wires

-- A client to the peer 1.2.3.4:8888, with a buffer in its memory.
abbrev peer : Address
peer = record { ip = 16909060; port = 8888 }

abbrev to_a_peer : Opening
to_a_peer = to_peer (some 5) (record { ok = true; name = none }) peer

abbrev a_day : List Use
a_day =
    writes 100 (grants 2 ∷ []) first
    ∷ reads 120 (grants 3) (grants 0 ∷ []) (0 ∷ 2 ∷ 0 ∷ 19 ∷ b'a' ∷ [])
    ∷ []

abbrev that_day : Client
that_day = (uses a_day (born to_a_peer (raw none (some short_packet) 3 0 7)).client)

that_day-ages : (that_day.rbuffer_age ≡ 120) × (that_day.wqueue_age ≡ 100)
unfolding uses born read napsteresque.Client.flush message
that_day-ages = (refl, refl)

uses-born-IsAged_example : IsAged that_day
uses-born-IsAged_example =
    uses-born-IsAged to_a_peer none (some short_packet) 3 0 7 a_day (refl, (refl, tt))

-- `close` and then the destructor delete one buffer twice.
close-twice : (close (close that_day).client).deleted_in ≡ (close that_day).deleted_in
unfolding close
close-twice = refl

-- A client that is opened again keeps its queue, with no age.
reopened :
    ((open_type (some 6) that_day).client.wqueue ≡ that_day.wqueue)
    × ((open_type (some 6) that_day).client.wqueue_age ≡ 0)
unfolding open_type clear on_socket
reopened = (refl, refl)
