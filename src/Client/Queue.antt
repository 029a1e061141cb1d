-- ===== src/Client/Queue.antt =====
-- client.cc: `write` and `flush` send every byte once and in order.
use mathlib.Core.Path.{subst}
use mathlib.Core.List.{append_assoc, append-nil}
use napsteresque.Base.{
  ℕ, ◌-◌, ◌≡◌, refl, sym, ap, ◌∙◌, true, List, [], ◌∷◌, ◌++◌, null, length, drop, Bool-cases, inl,
  inr, ◌⊎◌, ==_iff, drop-drop,
}
use napsteresque.Command.{Command}
use napsteresque.Client.{
  Answer, grants, again, failed, granted, Outgoing, message, sent_out, portion, send, Sending,
  finished, blocked, broken, after, send_packet, flush, write, Call, writes, flushes, run_calls,
}
use napsteresque.Client.Framing.{take-drop}

-- The bytes of a packet, and of a queue, that are not sent yet.
abbrev pub unsent : Outgoing → List ℕ
unsent c = drop c.at c.whole

unfoldable pub waiting : List Outgoing → List ℕ
waiting [] = []
waiting (c ∷ cs) = unsent c ++ waiting cs

drop-length_all : (s : List ℕ) → drop (length s) s ≡ []
drop-length_all [] = refl
drop-length_all (x ∷ s) = drop-length_all s

sent_out-unsent : (c : Outgoing) → sent_out c ≡ true → unsent c ≡ []
sent_out-unsent c f = rw ((==_iff c.at (length c.whole)).0 f) (drop-length_all c.whole)

send-unsent : (k : ℕ) (c : Outgoing) → portion k c ++ unsent (send k c) ≡ unsent c
send-unsent k c =
    ap (λ t. portion k c ++ t) (drop-drop c.at (granted k (length c.whole - c.at)) c.whole)
    ∙ take-drop (granted k (length c.whole - c.at)) (unsent c)

-- A packet's bytes are those sent and those left.
abbrev pub Splits : List ℕ → Sending → Type 0
Splits bytes (finished bs ks) = bytes ≡ bs
Splits bytes (blocked bs c) = bytes ≡ bs ++ unsent c
Splits bytes (broken bs c) = bytes ≡ bs ++ unsent c

after-Splits :
    (bs cs ds : List ℕ) (s : Sending) → bs ++ cs ≡ ds → Splits cs s → Splits ds (after bs s)
after-Splits bs cs ds (finished _ ks) e h = sym e ∙ ap (λ t. bs ++ t) h
after-Splits bs cs ds (blocked rs c) e h =
    sym e ∙ ap (λ t. bs ++ t) h ∙ sym (append_assoc bs rs (unsent c))
after-Splits bs cs ds (broken rs c) e h =
    sym e ∙ ap (λ t. bs ++ t) h ∙ sym (append_assoc bs rs (unsent c))

send_packet-Splits : (ks : List Answer) (c : Outgoing) → Splits (unsent c) (send_packet ks c)
unfolding send_packet
send_packet-Splits [] c = elim (Bool-cases (sent_out c)) [
  | inl f ↦ rw f (sent_out-unsent c f)
  | inr f ↦ rw f refl
]
send_packet-Splits (grants k ∷ ks) c = elim (Bool-cases (sent_out c)) [
  | inl f ↦ rw f (sent_out-unsent c f)
  | inr f ↦ rw f (
      after-Splits (portion k c) (unsent (send k c)) (unsent c) (send_packet ks (send k c))
        (send-unsent k c) (send_packet-Splits ks (send k c)))
]
send_packet-Splits (again ∷ ks) c = elim (Bool-cases (sent_out c)) [
  | inl f ↦ rw f (sent_out-unsent c f)
  | inr f ↦ rw f refl
]
send_packet-Splits (failed ∷ ks) c = elim (Bool-cases (sent_out c)) [
  | inl f ↦ rw f (sent_out-unsent c f)
  | inr f ↦ rw f refl
]

Sending-cases :
    (s : Sending)
    → ((bs : List ℕ) × (ks : List Answer) × (s ≡ finished bs ks))
      ⊎ ((bs : List ℕ) × (c : Outgoing) × (s ≡ blocked bs c))
      ⊎ ((bs : List ℕ) × (c : Outgoing) × (s ≡ broken bs c))
Sending-cases (finished bs ks) = inl (bs, ks, refl)
Sending-cases (blocked bs c) = inr (inl (bs, c, refl))
Sending-cases (broken bs c) = inr (inr (bs, c, refl))

pub flush-waiting :
    (ks : List Answer) (cs : List Outgoing)
    → waiting cs ≡ (flush ks cs).bytes ++ waiting (flush ks cs).wqueue
unfolding flush waiting
flush-waiting ks [] = refl
flush-waiting ks (c ∷ cs) = elim (Sending-cases (send_packet ks c)) [
  | inl (bs, left, e) ↦
      let split : unsent c ≡ bs = subst (Splits (unsent c)) e (send_packet-Splits ks c) in
      let f = flush left cs in
      rw (e, flush)
        (ap (λ t. unsent c ++ t) (flush-waiting left cs)
          ∙ ap (λ t. t ++ (f.bytes ++ waiting f.wqueue)) split
          ∙ sym (append_assoc bs f.bytes (waiting f.wqueue)))
  | inr (inl (bs, c', e)) ↦
      let split : unsent c ≡ bs ++ unsent c' =
        subst (Splits (unsent c)) e (send_packet-Splits ks c) in
      rw (e, flush) (ap (λ t. t ++ waiting cs) split ∙ append_assoc bs (unsent c') (waiting cs))
  | inr (inr (bs, c', e)) ↦
      let split : unsent c ≡ bs ++ unsent c' =
        subst (Splits (unsent c)) e (send_packet-Splits ks c) in
      rw (e, flush) (ap (λ t. t ++ waiting cs) split ∙ append_assoc bs (unsent c') (waiting cs))
]

waiting-append : (cs ds : List Outgoing) → waiting (cs ++ ds) ≡ waiting cs ++ waiting ds
unfolding waiting
waiting-append [] ds = refl
waiting-append (c ∷ cs) ds =
    ap (λ t. unsent c ++ t) (waiting-append cs ds)
    ∙ sym (append_assoc (unsent c) (waiting cs) (waiting ds))

waiting-new :
    (c : Command) (queue : List Outgoing)
    → waiting (queue ++ record { whole = message c; at = 0 } ∷ []) ≡ waiting queue ++ message c
unfolding waiting
waiting-new c queue =
    waiting-append queue (record { whole = message c; at = 0 } ∷ [])
    ∙ ap (λ t. waiting queue ++ t) (append-nil (message c))

pub write-waiting :
    (ks : List Answer) (c : Command) (queue : List Outgoing)
    → waiting queue ++ message c ≡ (write ks c queue).bytes ++ waiting (write ks c queue).wqueue
unfolding write
write-waiting ks c queue = elim (Bool-cases (null queue)) [
  | inl n ↦ rw n (
      sym (waiting-new c queue)
      ∙ flush-waiting ks (queue ++ record { whole = message c; at = 0 } ∷ []))
  | inr n ↦ rw n (sym (waiting-new c queue))
]

-- The packets that some calls write, one after the other.
unfoldable pub written : List Call → List Command
written [] = []
written (writes c ks ∷ cs) = c ∷ written cs
written (flushes ks ∷ cs) = written cs

unfoldable pub messages : List Command → List ℕ
messages [] = []
messages (c ∷ cs) = message c ++ messages cs

-- Behind a call, the bytes that it sends and those that the later ones do.
then_sent :
    (before bs queue now sent rest : List ℕ)
    → before ≡ bs ++ queue
    → queue ++ now ≡ sent ++ rest
    → before ++ now ≡ (bs ++ sent) ++ rest
then_sent before bs queue now sent rest e f =
    ap (λ t. t ++ now) e
    ∙ append_assoc bs queue now
    ∙ ap (λ t. bs ++ t) f
    ∙ sym (append_assoc bs sent rest)

-- Whatever packets are written and flushed, in whatever portions the kernel takes them: what is sent
-- and then what still waits in the queue are the bytes that waited before and then those of the
-- written packets, in order. No byte is lost, doubled or moved, at EAGAIN and at errors too.
pub run_calls-waiting :
    (cs : List Call) (queue : List Outgoing)
    → waiting queue ++ messages (written cs)
      ≡ (run_calls cs queue).0 ++ waiting (run_calls cs queue).1
unfolding run_calls written messages
run_calls-waiting [] queue = append-nil (waiting queue)
run_calls-waiting (writes c ks ∷ cs) queue =
    let f = write ks c queue in
    let rest = run_calls cs f.wqueue in
    sym (append_assoc (waiting queue) (message c) (messages (written cs)))
    ∙ then_sent (waiting queue ++ message c) f.bytes (waiting f.wqueue) (messages (written cs))
        rest.0 (waiting rest.1) (write-waiting ks c queue) (run_calls-waiting cs f.wqueue)
run_calls-waiting (flushes ks ∷ cs) queue =
    let f = flush ks queue in
    let rest = run_calls cs f.wqueue in
    then_sent (waiting queue) f.bytes (waiting f.wqueue) (messages (written cs)) rest.0
      (waiting rest.1) (flush-waiting ks queue) (run_calls-waiting cs f.wqueue)
