-- ===== src/Client/Delivery.antt =====
-- client.cc: from `write` at one end to `read` at the other.
use mathlib.Core.List.{append_assoc}
use napsteresque.Base.{
  ℕ, zero, suc, ◌+◌, ◌*◌, ◌≤◌, ◌<◌, ◌/◌, ◌%◌, ◌≡◌, refl, sym, ap, ◌∙◌, none, some, List, [], ◌∷◌,
  ◌++◌, length, arith, All, take, map,
}
use napsteresque.Command.{Command, u16_mod}
use napsteresque.Client.{Incoming, peek_head, message, Event, run, Call, run_calls}
use napsteresque.Client.Framing.{IsPacket}
use napsteresque.Client.Stream.{fresh_reader, arrived, wires, run-packets}
use napsteresque.Client.Queue.{waiting, written, messages, run_calls-waiting}

-- A packet whose memory holds what its size says; size and code are U16.
abbrev pub IsAllocated : Command → Type 0
IsAllocated c =
    (c.size < u16_mod)
    × (c.code < u16_mod)
    × (c.size ≤ length (elim c.bytes [ none ↦ [] | some d ↦ d ]))

-- What the other end makes of a packet.
abbrev pub received : Command → Incoming
received c = record { size = c.size; code = c.code; have = message c }

length-take : (n : ℕ) (s : List ℕ) → n ≤ length s → length (take n s) ≡ n
length-take zero s h = refl
length-take (suc n) [] h = absurd (omega (arith, h))
length-take (suc n) (x ∷ s) h = omega (arith, length-take n s (omega (arith, h)))

u16 : (x : ℕ) → x < u16_mod → x / 256 % 256 * 256 + x % 256 ≡ x
u16 x h = omega arith

received-IsPacket : (c : Command) → IsAllocated c → IsPacket (received c)
unfolding message peek_head
received-IsPacket c (s, k, l) =
    let bytes = elim c.bytes as (λ _. List ℕ) [ none ↦ [] | some d ↦ d ] in
    let long : length (take c.size bytes) ≡ c.size = length-take c.size bytes l in
    (omega (arith, long), λ i. some (u16 c.size s i, u16 c.code k i))

written_packets :
    (cs : List Command)
    → All IsAllocated cs
    → (wires (map received cs) ≡ messages cs) × All IsPacket (map received cs)
unfolding wires messages
written_packets [] h = (refl, tt)
written_packets (c ∷ cs) h =
    let (e, w) = written_packets cs h.1 in
    (ap (λ t. message c ++ t) e, (received-IsPacket c h.0, w))

-- Two clients that are connected: what one writes, the other reads. The kernels may take and give the
-- bytes in any portions and at any times; if the stream is delivered in order, that is if the bytes
-- that arrived are a beginning of those sent, then the packets read are the first of those written, in
-- order, with the size, code and data they were written with. The packets are allocated as their size
-- says.
pub run-run_calls :
    (cs : List Call) (es : List Event) (later : List ℕ)
    → All IsAllocated (written cs)
    → arrived es ++ later ≡ (run_calls cs []).0
    → (rest : List Incoming) × (map received (written cs) ≡ (run es fresh_reader).0 ++ rest)
unfolding waiting
run-run_calls cs es later h e =
    let (f, w) = written_packets (written cs) h in
    let s = run_calls cs [] in
    let (rest, g, _) = run-packets es (map received (written cs)) (later ++ waiting s.1) w (
      sym (append_assoc (arrived es) later (waiting s.1))
      ∙ ap (λ t. t ++ waiting s.1) e
      ∙ sym (run_calls-waiting cs [])
      ∙ sym f) in
    (rest, g)
