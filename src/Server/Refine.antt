-- ===== src/Server/Refine.antt =====
-- server.cc: the clients as a map from addresses to the connections that are served.
use napsteresque.Base.{
  ℕ, false, Option, none, some, List, [], ◌∷◌, ◌++◌, ◌==◌, if◌then◌else◌, ◌≡◌, refl, ap, ◌∙◌, All,
}
use napsteresque.Server.{
  Connection, Turn, Server, idle, add_connection, add_all, check_incoming, check_clients, Event,
  accepts, checks_incoming, checks_clients, step, run,
}
use napsteresque.Server.Live.{OneLive, add_connection-OneLive}
use napsteresque.Server.Round.{
  serving, served, IsClean, serving-check_clients, serving-add_connection, IsClean-OneLive,
  check_clients-IsClean, serving_empty,
}

-- The abstract server: who waits, and who is served at an address.
pub record Hall : Type 0 where
  pub waiting : List Connection
  pub seats : ℕ → Option Connection

abbrev seat : Connection → (ℕ → Option Connection) → ℕ → Option Connection
seat c seats ip = if c.ip == ip then some c else seats ip

unfoldable pub seat_all : List Connection → (ℕ → Option Connection) → ℕ → Option Connection
seat_all [] seats = seats
seat_all (c ∷ cs) seats = seat_all cs (seat c seats)

-- The newest connection of an address takes its seat, and a round keeps a seat as long as its
-- connection is served without an exception.
unfoldable pub follow : Event → Hall → Hall
unfolding seat_all
follow (accepts c) a = record a { waiting = a.waiting ++ c ∷ [] }
follow checks_incoming a = record { waiting = []; seats = seat_all a.waiting a.seats }
follow (checks_clients turns) a = record a { seats = λ ip. served turns (a.seats ip) }

unfoldable pub follow_all : List Event → Hall → Hall
unfolding follow
follow_all [] a = a
follow_all (e ∷ es) a = follow_all es (follow e a)

-- New connections have no flag set (`Client::_clear`).
abbrev pub IsFresh : Connection → Type 0
IsFresh c = c.dead ≡ false

abbrev pub BringsFresh : Event → Type 0
BringsFresh (accepts c) = IsFresh c
BringsFresh checks_incoming = Unit {0}
BringsFresh (checks_clients turns) = Unit {0}

-- The server has one connection alive for each address, and is seen as the hall.
pub record Shows (s : Server) (a : Hall) : Type 0 where
  pub one_live : OneLive s.clients
  pub fresh : All IsFresh s.incoming
  pub waits : s.incoming ≡ a.waiting
  pub serves : (ip : ℕ) → serving s.clients ip ≡ a.seats ip

add_all-OneLive : (new cs : List Connection) → OneLive cs → OneLive (add_all new cs)
unfolding add_all
add_all-OneLive [] cs h = h
add_all-OneLive (c ∷ new) cs h =
    add_all-OneLive new (add_connection c cs) (add_connection-OneLive c cs h)

serving-add_all :
    (new cs : List Connection) (seats : ℕ → Option Connection)
    → All IsFresh new
    → ((ip : ℕ) → serving cs ip ≡ seats ip)
    → (ip : ℕ) → serving (add_all new cs) ip ≡ seat_all new seats ip
unfolding add_all seat_all
serving-add_all [] cs seats h e ip = e ip
serving-add_all (c ∷ new) cs seats h e ip =
    serving-add_all new (add_connection c cs) (seat c seats) h.1
      (λ a. serving-add_connection c cs a h.0 ∙ ap (λ o. if c.ip == a then some c else o) (e a)) ip

All-append :
    (cs : List Connection) (c : Connection)
    → All IsFresh cs
    → IsFresh c
    → All IsFresh (cs ++ c ∷ [])
All-append [] c h k = (k, tt)
All-append (d ∷ cs) c h k = (h.0, All-append cs c h.1 k)

step-Shows :
    (e : Event) (s : Server) (a : Hall) → BringsFresh e → Shows s a → Shows (step e s) (follow e a)
unfolding step follow check_incoming
step-Shows (accepts c) s a f h = record {
  one_live = h.one_live;
  fresh = All-append s.incoming c h.fresh f;
  waits = ap (λ cs. cs ++ c ∷ []) h.waits;
  serves = h.serves;
}
step-Shows checks_incoming s a f h = record {
  one_live = add_all-OneLive s.incoming s.clients h.one_live;
  fresh = tt;
  waits = refl;
  serves = λ ip.
      serving-add_all s.incoming s.clients a.seats h.fresh h.serves ip
      ∙ ap (λ w. seat_all w a.seats ip) h.waits;
}
step-Shows (checks_clients turns) s a f h = record {
  one_live =
      IsClean-OneLive (check_clients turns s.clients)
        (check_clients-IsClean turns s.clients h.one_live);
  fresh = h.fresh;
  waits = h.waits;
  serves =
      λ ip. serving-check_clients turns s.clients ip h.one_live ∙ ap (served turns) (h.serves ip);
}

run-Shows :
    (es : List Event) (s : Server) (a : Hall)
    → All BringsFresh es
    → Shows s a
    → Shows (run es s) (follow_all es a)
unfolding run follow_all
run-Shows [] s a f h = h
run-Shows (e ∷ es) s a f h = run-Shows es (step e s) (follow e a) f.1 (step-Shows e s a f.0 h)

abbrev pub empty_hall : Hall
empty_hall = record { waiting = []; seats = λ ip. none }

-- After any events, whenever connections are accepted and looked at, of two clients from one address
-- the earlier is dead; and the client that is not dead there is the one that took the seat last and was
-- served in each round since without an exception, with what its own reads and flushes made of it.
-- Connections are accepted without flags.
pub run-follow_all :
    (es : List Event) → All BringsFresh es → Shows (run es idle) (follow_all es empty_hall)
unfolding OneLive
run-follow_all es f =
    run-Shows es idle empty_hall f
      (record { one_live = tt; fresh = tt; waits = refl; serves = λ ip. serving_empty ip })

-- After any events and then a round over the clients, none of them is dead and no two are from one
-- address. Connections are accepted without flags.
pub run-IsClean :
    (es : List Event) (turns : ℕ → Turn)
    → All BringsFresh es
    → IsClean (run (es ++ checks_clients turns ∷ []) idle).clients
unfolding run step
run-IsClean es turns f = last es idle (run-follow_all es f).one_live
  where
    last :
        (es : List Event) (s : Server)
        → OneLive (run es s).clients
        → IsClean (run (es ++ checks_clients turns ∷ []) s).clients
    last [] s h = check_clients-IsClean turns s.clients h
    last (e ∷ es) s h = last es (step e s) h
