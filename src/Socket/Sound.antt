-- ===== src/Socket/Sound.antt =====
-- socket.cc: what each call does with the descriptor of a socket.
use mathlib.Core.Bool.{true≢false}
use mathlib.Core.Option.{none-ne-some}
use mathlib.Core.List.{append-nil}
use napsteresque.Base.{
  ℕ, ◌≡◌, refl, sym, Bool, true, false, ◌⊎◌, inl, inr, Option, none, some, List, [], ◌∷◌, ◌++◌,
  if◌then◌else◌,
}
use napsteresque.Address.{Address, of_sockaddr, to_sockaddr}
use napsteresque.Socket.{
  no_flags, Socket, Did, quiet, descriptor, close, close_opened, open_socket, assign, bind, connect,
  listen, accept, Call, opens, assigns, binds, connects, listens, accepts, closes, step,
}

-- A socket is open and has a descriptor, or it has none and no flag is set.
pub data IsSound : Socket → Type 0 where
  holds :
      (n : ℕ) (addr peer : Address) (b c l : Bool)
      → IsSound (record {
        fd = some n;
        addr = addr;
        peer = peer;
        flags = record { opened = true; bound = b; connected = c; listening = l };
      })
  is_empty :
      (addr peer : Address)
      → IsSound (record { fd = none; addr = addr; peer = peer; flags = no_flags })

-- What the system says of the descriptor -1: it duplicates, binds, connects and listens on none.
abbrev pub Answers : Socket → Call → Type 0
Answers s (opens answer) = Unit
Answers s (assigns answer other) = IsSound other × ((other.flags.opened ≡ true) ⊎ (answer ≡ none))
Answers s (binds reuse ok name joined) = (s.flags.opened ≡ true) ⊎ (reuse ≡ false)
Answers s (connects ok name a) = (s.flags.opened ≡ true) ⊎ (ok ≡ false)
Answers s (listens ok) = (s.flags.opened ≡ true) ⊎ (ok ≡ false)
Answers s (accepts answer listener) = Unit
Answers s closes = Unit

abbrev pub AllAnswer : Socket → List Call → Type 0
AllAnswer s [] = Unit
AllAnswer s (c ∷ cs) = Answers s c × AllAnswer (step c s).socket cs

-- The descriptor that a socket holds.
abbrev pub held : Socket → List ℕ
held s = if s.flags.opened then descriptor s.fd else []

-- What a call does with descriptors: it closes the one held, in the order of time, and keeps the last.
pub record Conserves (s : Socket) (d : Did) : Type 0 where
  pub sound : IsSound d.socket
  pub moved : d.released ++ held d.socket ≡ held s ++ d.got

-- What changes neither the socket nor its descriptor.
append-nil_step : (xs : List ℕ) → [] ++ xs ≡ xs ++ []
append-nil_step xs = sym (append-nil xs)

kept : (s : Socket) → IsSound s → Conserves s (quiet s true)
kept s v = record { sound = v; moved = append-nil_step (held s) }

close_opened-Conserves : (s : Socket) → IsSound s → Conserves s (close_opened s)
unfolding close_opened close
close_opened-Conserves _ (holds n addr peer b c l) = record {
  sound = is_empty addr peer;
  moved = refl;
}
close_opened-Conserves _ (is_empty addr peer) = record { sound = is_empty addr peer; moved = refl }

open_socket-Conserves :
    (answer : Option ℕ) (s : Socket) → IsSound s → Conserves s (open_socket answer s)
unfolding open_socket close_opened close
open_socket-Conserves none _ (holds n addr peer b c l) = record {
  sound = is_empty addr peer;
  moved = refl;
}
open_socket-Conserves none _ (is_empty addr peer) = record {
  sound = is_empty addr peer;
  moved = refl;
}
open_socket-Conserves (some m) _ (holds n addr peer b c l) = record {
  sound = holds m addr peer false false false;
  moved = refl;
}
open_socket-Conserves (some m) _ (is_empty addr peer) = record {
  sound = holds m addr peer false false false;
  moved = refl;
}

assign-Conserves :
    (answer : Option ℕ) (other s : Socket)
    → IsSound other × ((other.flags.opened ≡ true) ⊎ (answer ≡ none))
    → IsSound s
    → Conserves s (assign answer other s)
unfolding assign close_opened close
assign-Conserves none other _ h (holds n addr peer b c l) = record {
  sound = is_empty addr peer;
  moved = refl;
}
assign-Conserves none other _ h (is_empty addr peer) = record {
  sound = is_empty addr peer;
  moved = refl;
}
assign-Conserves (some m) _ _ (holds k addr' peer' b' c' l', h) (holds n addr peer b c l) = record {
  sound = holds m addr' peer' b' c' l';
  moved = refl;
}
assign-Conserves (some m) _ _ (holds k addr' peer' b' c' l', h) (is_empty addr peer) = record {
  sound = holds m addr' peer' b' c' l';
  moved = refl;
}
assign-Conserves (some m) _ _ (is_empty addr' peer', inl h) v = absurd (true≢false (sym h))
assign-Conserves (some m) _ _ (is_empty addr' peer', inr h) v = absurd (none-ne-some m (sym h))

bind-Conserves :
    (reuse ok : Bool) (name : Option Address) (joined : Bool) (s : Socket)
    → (s.flags.opened ≡ true) ⊎ (reuse ≡ false)
    → IsSound s
    → Conserves s (bind reuse ok name joined s)
unfolding bind
bind-Conserves false ok name joined s h v = kept s v
bind-Conserves true false name joined s h v = kept s v
bind-Conserves true true none joined s h v = kept s v
bind-Conserves true true (some a) joined _ h (holds n addr peer b c l) = record {
  sound = holds n a peer true c l;
  moved = refl;
}
bind-Conserves true true (some a) joined _ (inl h) (is_empty addr peer) =
    absurd (true≢false (sym h))
bind-Conserves true true (some a) joined _ (inr h) (is_empty addr peer) = absurd (true≢false h)

connect-Conserves :
    (ok : Bool) (name : Option Address) (a : Address) (s : Socket)
    → (s.flags.opened ≡ true) ⊎ (ok ≡ false)
    → IsSound s
    → Conserves s (connect ok name a s)
unfolding connect
connect-Conserves false name a s h v = kept s v
connect-Conserves true name a _ h (holds n addr peer true c l) = record {
  sound = holds n addr (of_sockaddr (to_sockaddr a)) true true l;
  moved = refl;
}
connect-Conserves true none a _ h (holds n addr peer false c l) = record {
  sound = holds n addr (of_sockaddr (to_sockaddr a)) false true l;
  moved = refl;
}
connect-Conserves true (some b) a _ h (holds n addr peer false c l) = record {
  sound = holds n b (of_sockaddr (to_sockaddr a)) true true l;
  moved = refl;
}
connect-Conserves true name a _ (inl h) (is_empty addr peer) = absurd (true≢false (sym h))
connect-Conserves true name a _ (inr h) (is_empty addr peer) = absurd (true≢false h)

listen-Conserves :
    (ok : Bool) (s : Socket)
    → (s.flags.opened ≡ true) ⊎ (ok ≡ false)
    → IsSound s
    → Conserves s (listen ok s)
unfolding listen
listen-Conserves false s h v = kept s v
listen-Conserves true _ h (holds n addr peer b c l) = record {
  sound = holds n addr peer b c true;
  moved = refl;
}
listen-Conserves true _ (inl h) (is_empty addr peer) = absurd (true≢false (sym h))
listen-Conserves true _ (inr h) (is_empty addr peer) = absurd (true≢false h)

accept-Conserves :
    (answer : Option (ℕ × Address)) (listener s : Socket)
    → IsSound s
    → Conserves s (accept answer listener s)
unfolding accept close_opened close
accept-Conserves none listener s v = kept s v
accept-Conserves (some (m, from)) listener _ (holds n addr peer b c l) = record {
  sound = holds m listener.addr from true true false;
  moved = refl;
}
accept-Conserves (some (m, from)) listener _ (is_empty addr peer) = record {
  sound = holds m listener.addr from true true false;
  moved = refl;
}

close-Conserves : (s : Socket) → IsSound s → Conserves s (close s)
unfolding close
close-Conserves _ (holds n addr peer b c l) = record { sound = is_empty addr peer; moved = refl }
close-Conserves _ (is_empty addr peer) = record { sound = is_empty addr peer; moved = refl }

pub step-Conserves : (c : Call) (s : Socket) → Answers s c → IsSound s → Conserves s (step c s)
unfolding step
step-Conserves (opens answer) s h v = open_socket-Conserves answer s v
step-Conserves (assigns answer other) s h v = assign-Conserves answer other s h v
step-Conserves (binds reuse ok name joined) s h v = bind-Conserves reuse ok name joined s h v
step-Conserves (connects ok name a) s h v = connect-Conserves ok name a s h v
step-Conserves (listens ok) s h v = listen-Conserves ok s h v
step-Conserves (accepts answer listener) s h v = accept-Conserves answer listener s v
step-Conserves closes s h v = close-Conserves s v
