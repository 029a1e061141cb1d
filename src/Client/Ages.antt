-- ===== src/Client/Ages.antt =====
-- client.cc: the ages of the buffer and of the queue tell whether there is one.
use napsteresque.Base.{
  ℕ, ◌≡◌, refl, Bool, true, false, not, Option, none, some, List, [], ◌∷◌, ◌==◌, null, Bool-cases,
  Option-cases, if◌then◌else◌, ◌++◌, inl, inr, arith,
}
use napsteresque.Command.{Command}
use napsteresque.Client.{
  message, Answer, grants, again, failed, Incoming, Outgoing, Outcome, packet, nothing, thrown,
  full, peek_head, recv, recv_rest, fill, read as read_stream, flush as flush_queue,
}
use napsteresque.Client.Whole.{
  Client, raw, born, Opening, plain, typed, to_peer, to_both, Use, reads, takes, writes, flushes,
  use_of, uses, age_read, age_flush, read, read_or_throw, write, flush, clear, on_socket,
  construct_plain, open_type, open_peer, open_both,
}

abbrev pub has_buffer : Option Incoming → Bool
has_buffer none = false
has_buffer (some _) = true

-- Each age is 0 exactly where there is nothing that could be old.
abbrev pub IsAged : Client → Type 0
IsAged c =
    ((c.rbuffer_age == 0) ≡ not (has_buffer c.rbuffer)) × ((c.wqueue_age == 0) ≡ null c.wqueue)

-- A packet that is returned is no longer the buffer; without one, a buffer stays.
abbrev Keeps : Outcome → Option Incoming → Option Incoming → Type 0
Keeps (packet _) before later = has_buffer later ≡ false
Keeps nothing before later = has_buffer before ≡ true → has_buffer later ≡ true
Keeps thrown before later = has_buffer before ≡ true → has_buffer later ≡ true

fill-Keeps :
    (before : Option Incoming) (ks : List Answer) (p : Incoming) (inbox : List ℕ)
    → Keeps (fill ks p inbox).0 before (fill ks p inbox).1.rbuffer
unfolding fill
fill-Keeps before [] p inbox = elim (Bool-cases (full p)) [
  | inl f ↦ rw f refl
  | inr f ↦ rw f (λ _. refl)
]
fill-Keeps before (grants k ∷ ks) p inbox = elim (Bool-cases (full p)) [
  | inl f ↦ rw f refl
  | inr f ↦ elim (Bool-cases (null inbox)) [
    | inl e ↦ rw (f, e) (λ _. refl)
    | inr e ↦ rw (f, e) (fill-Keeps before ks (recv k p inbox) (recv_rest k p inbox))
  ]
]
fill-Keeps before (again ∷ ks) p inbox = elim (Bool-cases (full p)) [
  | inl f ↦ rw f refl
  | inr f ↦ rw f (λ _. refl)
]
fill-Keeps before (failed ∷ ks) p inbox = elim (Bool-cases (full p)) [
  | inl f ↦ rw f refl
  | inr f ↦ rw f (λ _. refl)
]

read-Keeps :
    (peeked : Answer) (ks : List Answer) (inbox : List ℕ) (before : Option Incoming)
    → Keeps
        (read_stream peeked ks (record { inbox = inbox; rbuffer = before })).0
        before
        (read_stream peeked ks (record { inbox = inbox; rbuffer = before })).1.rbuffer
unfolding read_stream
read-Keeps peeked ks inbox (some p) = fill-Keeps (some p) ks p inbox
read-Keeps failed ks inbox none = λ h. h
read-Keeps again ks inbox none = λ h. h
read-Keeps (grants k) ks inbox none = elim (Option-cases (peek_head inbox)) [
  | inl e ↦ rw (Keeps, read_stream, e) (λ h. h)
  | inr ((size, code), e) ↦
      rw (Keeps, read_stream, e)
        (fill-Keeps none ks (record { size = size; code = code; have = [] }) inbox)
]

age_read-has :
    (now age : ℕ) (out : Outcome) (before later : Option Incoming)
    → (now == 0) ≡ false
    → (age == 0) ≡ not (has_buffer before)
    → Keeps out before later
    → (age_read now out before later age == 0) ≡ not (has_buffer later)
unfolding age_read
age_read-has now age (packet p) before none t a k = refl
age_read-has now age (packet p) before (some q) t a k = ground (arith, k)
age_read-has now age nothing none none t a k = a
age_read-has now age nothing none (some q) t a k = t
age_read-has now age nothing (some p) none t a k = ground (arith, k refl)
age_read-has now age nothing (some p) (some q) t a k = a
age_read-has now age thrown none none t a k = a
age_read-has now age thrown none (some q) t a k = t
age_read-has now age thrown (some p) none t a k = ground (arith, k refl)
age_read-has now age thrown (some p) (some q) t a k = a

-- A queue is left only where there was one.
age_flush-null :
    (age : ℕ) (ks : List Answer) (queue : List Outgoing)
    → (age == 0) ≡ null queue
    → (age_flush (flush_queue ks queue).wqueue age == 0) ≡ null (flush_queue ks queue).wqueue
unfolding flush_queue
age_flush-null age ks [] a = refl
age_flush-null age ks (c ∷ cs) a = kept (flush_queue ks (c ∷ cs)).wqueue
  where
    kept : (left : List Outgoing) → (age_flush left age == 0) ≡ null left
    kept [] = refl
    kept (d ∷ ds) = a

-- `write` sets the age of a queue that has none, and keeps that of another.
late-wqueue :
    (now age : ℕ) (queue : List Outgoing) (q : Outgoing)
    → (now == 0) ≡ false
    → (age == 0) ≡ null queue
    → ((if age == 0 then now else age) == 0) ≡ null (queue ++ q ∷ [])
late-wqueue now age [] q t a = rw a t
late-wqueue now age (c ∷ cs) q t a = rw a a

-- The clock does not stand at 0 when a client is read or written to.
abbrev pub IsLate : Use → Type 0
IsLate (reads now _ _ _) = (now == 0) ≡ false
IsLate (takes now _ _ _) = (now == 0) ≡ false
IsLate (writes now _ _) = (now == 0) ≡ false
IsLate (flushes _) = Unit

abbrev pub AllLate : List Use → Type 0
AllLate [] = Unit
AllLate (u ∷ us) = IsLate u × AllLate us

read-IsAged :
    (now : ℕ) (peeked : Answer) (ks : List Answer) (inbox : List ℕ) (c : Client)
    → (now == 0) ≡ false
    → IsAged c
    → IsAged (read now peeked ks inbox c).1
unfolding read
read-IsAged now peeked ks inbox c t (r, w) =
    let (out, later) = read_stream peeked ks (record { inbox = inbox; rbuffer = c.rbuffer }) in
    (
      age_read-has now c.rbuffer_age out c.rbuffer later.rbuffer t r
          (read-Keeps peeked ks inbox c.rbuffer),
      w,
    )

flush-IsAged : (ks : List Answer) (c : Client) → IsAged c → IsAged (flush ks c).1
unfolding flush
flush-IsAged ks c (r, w) = (r, age_flush-null c.wqueue_age ks c.wqueue w)

write-IsAged :
    (now : ℕ) (ks : List Answer) (m : Command) (c : Client)
    → (now == 0) ≡ false
    → IsAged c
    → IsAged (write now ks m c).1
unfolding write
write-IsAged now ks m c t (r, w) =
    let q : Outgoing = record { whole = message m; at = 0 } in
    let c' : Client = record c {
      wqueue = c.wqueue ++ q ∷ [];
      wqueue_age = if c.wqueue_age == 0 then now else c.wqueue_age;
    } in
    let later : IsAged c' = (r, late-wqueue now c.wqueue_age c.wqueue q t w) in
    elim (Bool-cases (null c.wqueue)) [
      | inl e ↦ rw e (flush-IsAged ks c' later)
      | inr e ↦ rw e later
    ]

use_of-IsAged : (u : Use) (c : Client) → IsLate u → IsAged c → IsAged (use_of u c)
unfolding use_of read_or_throw
use_of-IsAged (reads now peeked ks inbox) c t h = read-IsAged now peeked ks inbox c t h
use_of-IsAged (takes now peeked ks inbox) c t h = read-IsAged now peeked ks inbox c t h
use_of-IsAged (writes now ks m) c t h = write-IsAged now ks m c t h
use_of-IsAged (flushes ks) c t h = flush-IsAged ks c h

uses-IsAged : (us : List Use) (c : Client) → AllLate us → IsAged c → IsAged (uses us c)
unfolding uses
uses-IsAged [] c ts h = h
uses-IsAged (u ∷ us) c (t, ts) h = uses-IsAged us (use_of u c) ts (use_of-IsAged u c t h)

born-IsAged :
    (o : Opening) (fd : Option ℕ) (rbuffer : Option Incoming) (ra wa flags : ℕ)
    → IsAged (born o (raw fd rbuffer ra wa flags)).client
unfolding born construct_plain open_type open_peer open_both clear on_socket
born-IsAged plain fd rbuffer ra wa flags = (refl, refl)
born-IsAged (typed _) fd rbuffer ra wa flags = (refl, refl)
born-IsAged (to_peer _ _ _) fd rbuffer ra wa flags = (refl, refl)
born-IsAged (to_both _ _ _ _) fd rbuffer ra wa flags = (refl, refl)

-- A client that any of the constructors has made, whatever memory held and whether or not it throws,
-- and that is then read, written to and flushed in any order, with any answers of the system and at
-- times that are not 0: the age of its buffer is 0 exactly where no packet is half read, and the age of
-- its queue is 0 exactly where no packet waits to be sent.
pub uses-born-IsAged :
    (o : Opening) (fd : Option ℕ) (rbuffer : Option Incoming) (ra wa flags : ℕ) (us : List Use)
    → AllLate us
    → IsAged (uses us (born o (raw fd rbuffer ra wa flags)).client)
uses-born-IsAged o fd rbuffer ra wa flags us ts =
    uses-IsAged us (born o (raw fd rbuffer ra wa flags)).client ts
      (born-IsAged o fd rbuffer ra wa flags)
