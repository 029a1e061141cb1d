-- ===== src/Client/Framing.antt =====
-- client.cc: `read` loses no byte, and what it returns is one whole packet.
use mathlib.Core.List.{append_assoc}
use napsteresque.Base.{
  ℕ, zero, suc, ◌+◌, ◌-◌, ◌≤◌, ◌≡◌, refl, ap, true, Option, none, some, List, [], ◌∷◌, ◌++◌,
  if◌then◌else◌, null, length, take, drop, arith, length-append, Bool-cases, Option-cases, inl, inr,
  ==_iff,
}
use napsteresque.Client.{
  Answer, grants, again, failed, granted, Incoming, Reader, Outcome, packet, nothing, thrown, full,
  peek_head, recv, recv_rest, fill, read,
}

-- A packet that is complete: ks long as its head says, and of the code that its head says.
abbrev pub IsPacket : Incoming → Type 0
IsPacket p = (length p.have ≡ p.size + 4) × (peek_head p.have ≡ some (p.size, p.code))

-- The bytes that came in and are not returned yet.
abbrev pub pending : Reader → List ℕ
pending r = elim r.rbuffer [ none ↦ r.inbox | some p ↦ p.have ++ r.inbox ]

abbrev pub returned : Outcome → List ℕ
returned (packet p) = p.have
returned nothing = []
returned thrown = []

-- A packet that is being read: its head is known, and it is not too long.
abbrev pub Begun : Incoming → List ℕ → Type 0
Begun p inbox = (length p.have ≤ p.size + 4) × (peek_head (p.have ++ inbox) ≡ some (p.size, p.code))

abbrev pub IsReader : Reader → Type 0
IsReader r = elim r.rbuffer [ none ↦ Unit {0} | some p ↦ Begun p r.inbox ]

abbrev pub Whole : Outcome → Type 0
Whole (packet p) = IsPacket p
Whole nothing = Unit {0}
Whole thrown = Unit {0}

pub take-drop : (n : ℕ) (s : List ℕ) → take n s ++ drop n s ≡ s
take-drop zero s = refl
take-drop (suc n) [] = refl
take-drop (suc n) (x ∷ s) = ap (◌∷◌ x) (take-drop n s)

length-take_le : (n : ℕ) (s : List ℕ) → length (take n s) ≤ n
length-take_le zero s = omega arith
length-take_le (suc n) [] = omega arith
length-take_le (suc n) (x ∷ s) = omega (arith, length-take_le n s)

pub recv-pending :
    (k : ℕ) (p : Incoming) (inbox : List ℕ)
    → (recv k p inbox).have ++ recv_rest k p inbox ≡ p.have ++ inbox
unfolding recv
recv-pending k p inbox =
    rw
      (append_assoc p.have (take (granted k (p.size + 4 - length p.have)) inbox)
        (recv_rest k p inbox))
      (ap (λ t. p.have ++ t) (take-drop (granted k (p.size + 4 - length p.have)) inbox))

granted_le : (k n : ℕ) → granted k n ≤ n
granted_le k n = ground arith

recv_short :
    (k : ℕ) (p : Incoming) (inbox : List ℕ)
    → length p.have ≤ p.size + 4
    → length (recv k p inbox).have ≤ p.size + 4
unfolding recv
recv_short k p inbox l = omega (
  arith,
  length-append p.have (take (granted k (p.size + 4 - length p.have)) inbox),
  length-take_le (granted k (p.size + 4 - length p.have)) inbox,
  granted_le k (p.size + 4 - length p.have),
)

recv-Begun :
    (k : ℕ) (p : Incoming) (inbox : List ℕ)
    → Begun p inbox
    → Begun (recv k p inbox) (recv_rest k p inbox)
unfolding recv
recv-Begun k p inbox (l, h) = (recv_short k p inbox l, rw (recv-pending k p inbox) h)

-- The first four bytes decide the head.
peek_head-append :
    (s t : List ℕ) (h : ℕ × ℕ) → 4 ≤ length s → peek_head (s ++ t) ≡ some h → peek_head s ≡ some h
unfolding peek_head
peek_head-append (a ∷ b ∷ c ∷ d ∷ s) t h l e = e
peek_head-append [] t h l e = absurd (omega (arith, l))
peek_head-append (a ∷ []) t h l e = absurd (omega (arith, l))
peek_head-append (a ∷ b ∷ []) t h l e = absurd (omega (arith, l))
peek_head-append (a ∷ b ∷ c ∷ []) t h l e = absurd (omega (arith, l))

full-IsPacket : (p : Incoming) (inbox : List ℕ) → Begun p inbox → full p ≡ true → IsPacket p
full-IsPacket p inbox (l, h) f =
    let e : length p.have ≡ p.size + 4 = (==_iff (length p.have) (p.size + 4)).0 f in
    (e, peek_head-append p.have inbox (p.size, p.code) (omega (arith, e)) h)

-- What one step of `read` has to give.
abbrev pub Kept : List ℕ → Outcome × Reader → Type 0
Kept before s = (before ≡ returned s.0 ++ pending s.1) × Whole s.0 × IsReader s.1

-- The step that ends a call of `read`, with a packet or with `out`.
abbrev stopped : Incoming → List ℕ → Outcome → Outcome × Reader
stopped p inbox out =
    if full p
    then (packet p, record { inbox = inbox; rbuffer = none })
    else (out, record { inbox = inbox; rbuffer = some p })

stopped-Kept :
    (p : Incoming) (inbox : List ℕ) (out : Outcome)
    → Begun p inbox
    → returned out ≡ []
    → Whole out
    → Kept (p.have ++ inbox) (stopped p inbox out)
stopped-Kept p inbox out h e w = elim (Bool-cases (full p)) [
  | inl f ↦ rw f (refl, full-IsPacket p inbox h f, tt)
  | inr f ↦ rw f (rw e refl, w, h)
]

fill-Kept :
    (ks : List Answer) (p : Incoming) (inbox : List ℕ)
    → Begun p inbox
    → Kept (p.have ++ inbox) (fill ks p inbox)
unfolding fill
fill-Kept [] p inbox h = stopped-Kept p inbox nothing h refl tt
fill-Kept (grants k ∷ ks) p inbox h = elim (Bool-cases (full p)) [
  | inl f ↦ rw f (refl, full-IsPacket p inbox h f, tt)
  | inr f ↦ elim (Bool-cases (null inbox)) [
    | inl z ↦ rw (f, z) (refl, tt, h)
    | inr z ↦
        let further : Kept (p.have ++ inbox) (fill ks (recv k p inbox) (recv_rest k p inbox)) =
          rw (← recv-pending k p inbox)
            (fill-Kept ks (recv k p inbox) (recv_rest k p inbox) (recv-Begun k p inbox h)) in
        rw (f, z) further
  ]
]
fill-Kept (again ∷ ks) p inbox h = stopped-Kept p inbox nothing h refl tt
fill-Kept (failed ∷ ks) p inbox h = stopped-Kept p inbox thrown h refl tt

read_new-Kept :
    (peeked : Answer) (ks : List Answer) (inbox : List ℕ)
    → Kept inbox (read peeked ks (record { inbox = inbox; rbuffer = none }))
unfolding read
read_new-Kept failed ks inbox = (refl, tt, tt)
read_new-Kept again ks inbox = (refl, tt, tt)
read_new-Kept (grants k) ks inbox = elim (Option-cases (peek_head inbox)) [
  | inl m ↦ rw (m, read) (refl, tt, tt)
  | inr ((size, code), m) ↦
      rw (m, read)
        (fill-Kept ks (record { size = size; code = code; have = [] }) inbox (omega arith, m))
]

-- One call of `read`.
pub read-Kept :
    (peeked : Answer) (ks : List Answer) (r : Reader)
    → IsReader r
    → Kept (pending r) (read peeked ks r)
unfolding read
read-Kept peeked ks r h = go r.inbox r.rbuffer h
  where
    go :
        (inbox : List ℕ) (rb : Option Incoming)
        → IsReader (record { inbox = inbox; rbuffer = rb })
        → Kept
            (pending (record { inbox = inbox; rbuffer = rb }))
            (read peeked ks (record { inbox = inbox; rbuffer = rb }))
    go inbox none g = read_new-Kept peeked ks inbox
    go inbox (some p) g = fill-Kept ks p inbox g
