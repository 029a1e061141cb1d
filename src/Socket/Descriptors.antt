-- ===== src/Socket/Descriptors.antt =====
-- socket.cc: every descriptor that a socket gets is closed once.
use mathlib.Core.List.{append_assoc}
use napsteresque.Base.{
  ℕ, ◌≡◌, refl, sym, ap, ◌∙◌, true, false, Option, none, some, List, [], ◌∷◌, ◌++◌,
}
use napsteresque.Address.{any}
use napsteresque.Socket.Sound.{IsSound, holds, is_empty, AllAnswer, held, step-Conserves}
use napsteresque.Socket.{
  Socket, new, close, close_opened, open_socket, accept, Call, opens, assigns, binds, connects,
  listens, accepts, closes, step, life,
}

life-held :
    (cs : List Call) (s : Socket)
    → AllAnswer s cs
    → IsSound s
    → (life cs s).1 ≡ held s ++ (life cs s).0
unfolding life close_opened close
life-held [] _ h (holds n addr peer b c l) = refl
life-held [] _ h (is_empty addr peer) = refl
life-held (c ∷ cs) s (h, hs) v =
    let d = step c s in
    let k = step-Conserves c s h v in
    let later = life cs d.socket in
    ap (λ r. d.released ++ r) (life-held cs d.socket hs k.sound)
    ∙ sym (append_assoc d.released (held d.socket) later.0)
    ∙ ap (λ r. r ++ later.0) k.moved
    ∙ append_assoc (held s) d.got later.0

-- The calls that a socket may start with: it is opened, or a connection is accepted into it.
abbrev pub Starts : Call → Type 0
Starts (opens answer) = Unit
Starts (accepts (some from) listener) = Unit
Starts _ = ⊥

start-Conserves :
    (fd : Option ℕ) (c : Call)
    → Starts c
    → IsSound (step c (new fd)).socket
      × ((step c (new fd)).released ++ held (step c (new fd)).socket ≡ (step c (new fd)).got)
unfolding step open_socket accept close_opened
start-Conserves fd (opens none) h = (is_empty any any, refl)
start-Conserves fd (opens (some n)) h = (holds n any any false false false, refl)
start-Conserves fd (accepts (some (n, from)) listener) h =
    (holds n listener.addr from true true false, refl)
start-Conserves fd (accepts none listener) h = absurd h
start-Conserves fd (assigns answer other) h = absurd h
start-Conserves fd (binds reuse ok name joined) h = absurd h
start-Conserves fd (connects ok name a) h = absurd h
start-Conserves fd (listens ok) h = absurd h
start-Conserves fd closes h = absurd h

-- A socket that starts by being opened or by accepting a connection, with anything in its memory, and
-- then has any calls, which may throw, closes every descriptor that the system gave it, once and in
-- the order it got them, by the end of its destructor. The system refuses calls on the descriptor -1,
-- and the sockets that it is made a copy of are open with a descriptor, or have none and no flag.
pub life-balanced :
    (fd : Option ℕ) (c : Call) (cs : List Call)
    → Starts c
    → AllAnswer (step c (new fd)).socket cs
    → (life (c ∷ cs) (new fd)).1 ≡ (life (c ∷ cs) (new fd)).0
unfolding life
life-balanced fd c cs h hs =
    let d = step c (new fd) in
    let (v, k) = start-Conserves fd c h in
    let later = life cs d.socket in
    ap (λ r. d.released ++ r) (life-held cs d.socket hs v)
    ∙ sym (append_assoc d.released (held d.socket) later.0)
    ∙ ap (λ r. r ++ later.0) k
