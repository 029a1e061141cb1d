-- ===== src/Socket/Examples.antt =====
-- socket.cc: a socket that is opened, copied to and closed.
use napsteresque.Base.{◌≡◌, refl, inl, true, false, none, some, List, [], ◌∷◌}
use napsteresque.Address.{Address}
use napsteresque.Socket.{
  Socket, new, Call, opens, assigns, binds, accepts, closes, step, life, open_socket, close_opened,
}
use napsteresque.Socket.Sound.{holds}
use napsteresque.Socket.Descriptors.{life-balanced}

abbrev here : Address
here = record { ip = 2130706433; port = 1234 }

-- Another socket, which holds the descriptor 9.
abbrev other : Socket
other = record {
  fd = some 9;
  addr = here;
  peer = here;
  flags = record { opened = true; bound = true; connected = true; listening = false };
}

-- It is opened as 5, bound, opened again as 6, which fails, and made a copy of the other as 7.
abbrev calls : List Call
calls =
    binds true true (some here) true ∷ opens none ∷ assigns (some 7) other ∷ accepts none other ∷ []

life-balanced_example :
    (life (opens (some 5) ∷ calls) (new (some 3))).1
    ≡ (life (opens (some 5) ∷ calls) (new (some 3))).0
unfolding step open_socket close_opened
life-balanced_example =
    life-balanced (some 3) (opens (some 5)) calls tt
      (inl refl, (tt, ((holds 9 here here true true false, inl refl), (tt, tt))))

-- A socket that was never opened closes what its memory holds.
unopened_close : (life (closes ∷ []) (new (some 3))) ≡ ([], 3 ∷ [])
unfolding life step
unopened_close = refl
