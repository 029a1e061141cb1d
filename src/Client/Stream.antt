-- ===== src/Client/Stream.antt =====
-- client.cc: the packets that a connection gives, against the stream that was written to it.
use mathlib.Core.Option.{none-ne-some}
use mathlib.Core.List.{append_assoc, append-nil}
use napsteresque.Base.{
  ℕ, ◌+◌, ◌≡◌, refl, sym, ap, ◌∙◌, Option, none, some, List, [], ◌∷◌, ◌++◌, length, length-append,
  arith, All,
}
use napsteresque.Client.{
  Incoming, Reader, Outcome, packet, nothing, thrown, peek_head, read, Event, arrives, reads, run,
  delivered,
}
use napsteresque.Client.Framing.{IsPacket, pending, returned, IsReader, Whole, read-Kept}

abbrev pub fresh_reader : Reader
fresh_reader = record { inbox = []; rbuffer = none }

-- All the bytes that came in.
unfoldable pub arrived : List Event → List ℕ
arrived [] = []
arrived (arrives bs ∷ es) = bs ++ arrived es
arrived (reads peeked ks ∷ es) = arrived es

unfoldable pub wires : List Incoming → List ℕ
wires [] = []
wires (p ∷ ps) = p.have ++ wires ps

pub peek_head-more : (s t : List ℕ) (h : ℕ × ℕ) → peek_head s ≡ some h → peek_head (s ++ t) ≡ some h
unfolding peek_head
peek_head-more (a ∷ b ∷ c ∷ d ∷ s) t h e = e
peek_head-more [] t h e = absurd (none-ne-some h e)
peek_head-more (a ∷ []) t h e = absurd (none-ne-some h e)
peek_head-more (a ∷ b ∷ []) t h e = absurd (none-ne-some h e)
peek_head-more (a ∷ b ∷ c ∷ []) t h e = absurd (none-ne-some h e)

abbrev more : List ℕ → Reader → Reader
more bs r = record r { inbox = r.inbox ++ bs }

more-IsReader : (bs : List ℕ) (r : Reader) → IsReader r → IsReader (more bs r)
more-IsReader bs r h = go r.inbox r.rbuffer h
  where
    go :
        (inbox : List ℕ) (rb : Option Incoming)
        → IsReader (record { inbox = inbox; rbuffer = rb })
        → IsReader (more bs (record { inbox = inbox; rbuffer = rb }))
    go inbox none g = tt
    go inbox (some p) (l, g) = (
      l,
      rw (← append_assoc p.have inbox bs) (peek_head-more (p.have ++ inbox) bs (p.size, p.code) g),
    )

more-pending : (bs : List ℕ) (r : Reader) → pending (more bs r) ≡ pending r ++ bs
more-pending bs r = go r.inbox r.rbuffer
  where
    go :
        (inbox : List ℕ) (rb : Option Incoming)
        → pending (more bs (record { inbox = inbox; rbuffer = rb }))
          ≡ pending (record { inbox = inbox; rbuffer = rb }) ++ bs
    go inbox none = refl
    go inbox (some p) = sym (append_assoc p.have inbox bs)

abbrev Accounted : List ℕ → List Incoming × Reader → Type 0
Accounted bytes s = (bytes ≡ wires s.0 ++ pending s.1) × All IsPacket s.0

delivered-Accounted :
    (out : Outcome) (bytes mid late : List ℕ) (s : List Incoming × Reader)
    → bytes ≡ returned out ++ mid
    → Whole out
    → Accounted (mid ++ late) s
    → Accounted (bytes ++ late) (delivered out s)
unfolding delivered wires
delivered-Accounted (packet p) bytes mid late s e w (f, ps) = (
  rw (e, append_assoc p.have mid late, f, append_assoc p.have (wires s.0) (pending s.1)) refl,
  (w, ps),
)
delivered-Accounted nothing bytes mid late s e w (f, ps) = (rw e f, ps)
delivered-Accounted thrown bytes mid late s e w (f, ps) = (rw e f, ps)

run-Accounted :
    (es : List Event) (r : Reader) → IsReader r → Accounted (pending r ++ arrived es) (run es r)
unfolding run arrived wires
run-Accounted [] r h = (append-nil (pending r), tt)
run-Accounted (arrives bs ∷ es) r h =
    rw (← append_assoc (pending r) bs (arrived es), ← more-pending bs r)
      (run-Accounted es (more bs r) (more-IsReader bs r h))
run-Accounted (reads peeked ks ∷ es) r h =
    let (kept, whole, ok) = read-Kept peeked ks r h in
    let s = read peeked ks r in
    delivered-Accounted s.0 (pending r) (pending s.1) (arrived es) (run es s.1) kept whole
      (run-Accounted es s.1 ok)

-- A stream starts with one packet in one way.
same_start : (s t u v : List ℕ) → length s ≡ length t → s ++ u ≡ t ++ v → (s ≡ t) × (u ≡ v)
same_start [] [] u v l e = (refl, e)
same_start [] (y ∷ t) u v l e = absurd (omega (arith, l))
same_start (x ∷ s) [] u v l e = absurd (omega (arith, l))
same_start (x ∷ s) (y ∷ t) u v l e =
    let (a, b) = same_start s t u v (omega (arith, l)) (cc e) in
    let h : x ≡ y = cc e in (cc (h, a), b)

pub first_packet :
    (p q : Incoming) (u v : List ℕ)
    → IsPacket p
    → IsPacket q
    → p.have ++ u ≡ q.have ++ v
    → (p ≡ q) × (u ≡ v)
first_packet p q u v (l, h) (m, k) e =
    let heads : Path (Option (ℕ × ℕ)) (some (p.size, p.code)) (some (q.size, q.code)) =
      sym (peek_head-more p.have u (p.size, p.code) h)
      ∙ ap peek_head e
      ∙ peek_head-more q.have v (q.size, q.code) k in
    let sizes : p.size ≡ q.size = cc heads in
    let codes : p.code ≡ q.code = cc heads in
    let (haves, rests) = same_start p.have q.have u v (l ∙ ap (λ x. x + 4) sizes ∙ sym m) e in
    (λ i. record { size = sizes i; code = codes i; have = haves i }, rests)

wires_prefix :
    (ds qs : List Incoming) (t : List ℕ)
    → All IsPacket ds
    → All IsPacket qs
    → wires qs ≡ wires ds ++ t
    → (rest : List Incoming) × (qs ≡ ds ++ rest) × (t ≡ wires rest)
unfolding wires
wires_prefix [] qs t d q e = (qs, refl, sym e)
wires_prefix (p ∷ ds) [] t d q e = absurd (
    omega (
      arith,
      ap (length {A = ℕ}) e,
      length-append (p.have ++ wires ds) t,
      length-append p.have (wires ds),
      d.0.0,
    ))
wires_prefix (p ∷ ds) (o ∷ qs) t d q e =
    let (same, rest_same) =
      first_packet p o (wires ds ++ t) (wires qs) d.0 q.0
        (sym (append_assoc p.have (wires ds) t) ∙ sym e) in
    let (rest, a, b) = wires_prefix ds qs t d.1 q.1 (sym rest_same) in (rest, cc (same, a), b)

-- Whatever way the bytes of some packets arrive, split anywhere and read at any times, with any
-- answers of the kernel, the reads return the first of these packets in their order, each whole, and
-- what is not returned is still there: the bytes pending and to come are those of the other packets.
pub run-packets :
    (es : List Event) (qs : List Incoming) (later : List ℕ)
    → All IsPacket qs
    → arrived es ++ later ≡ wires qs
    → (rest : List Incoming) × (qs ≡ (run es fresh_reader).0 ++ rest)
      × (pending (run es fresh_reader).1 ++ later ≡ wires rest)
run-packets es qs later q e =
    let (f, ds) = run-Accounted es fresh_reader tt in
    let s = run es fresh_reader in
    wires_prefix s.0 qs (pending s.1 ++ later) ds q
      (sym e ∙ ap (λ t. t ++ later) f ∙ append_assoc (wires s.0) (pending s.1) later)
