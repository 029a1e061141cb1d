-- ===== src/Server/Round.antt =====
-- server.cc: what one call of `add_connection` or `check_clients` does to the connection of an address.
use mathlib.Core.Bool.{true≢false}
use napsteresque.Base.{
  ℕ, true, false, not, ◌&&◌, Option, none, some, List, [], ◌∷◌, ◌==◌, if◌then◌else◌, ◌≡◌, refl, sym,
  ap, ◌∙◌, arith, Bool-cases, Option-cases, inl, inr, ==_iff,
}
use napsteresque.Server.{Connection, Turn, mark, add_connection, serve, check_clients}
use napsteresque.Server.Live.{from, OneLive, serve-ip}

-- The first client from an address that is not dead.
unfoldable pub serving : List Connection → ℕ → Option Connection
serving [] ip = none
serving (c ∷ cs) ip = if c.ip == ip && not c.dead then some c else serving cs ip

-- No two connections are from one address, and none is dead.
unfoldable pub IsClean : List Connection → Type 0
unfolding from
IsClean [] = Unit {0}
IsClean (c ∷ cs) = (from c.ip cs ≡ false) × (c.dead ≡ false) × IsClean cs

no_clients : (turns : ℕ → Turn) → check_clients turns [] ≡ []
unfolding check_clients
no_clients turns = refl

gone :
    (turns : ℕ → Turn) (c : Connection) (cs : List Connection)
    → serve (turns c.id) c ≡ none
    → check_clients turns (c ∷ cs) ≡ check_clients turns cs
unfolding check_clients
gone turns c cs m = rw (m, check_clients) refl

stays :
    (turns : ℕ → Turn) (c d : Connection) (cs : List Connection)
    → serve (turns c.id) c ≡ some d
    → check_clients turns (c ∷ cs) ≡ d ∷ check_clients turns cs
unfolding check_clients
stays turns c d cs m = rw (m, check_clients) refl

from-check_clients :
    (ip : ℕ) (turns : ℕ → Turn) (cs : List Connection)
    → from ip cs ≡ false
    → from ip (check_clients turns cs) ≡ false
unfolding from
from-check_clients ip turns [] e = rw (no_clients turns) refl
from-check_clients ip turns (c ∷ cs) e = elim (Option-cases (serve (turns c.id) c)) [
  | inl m ↦ rw (gone turns c cs m) (ground (arith, from-check_clients ip turns cs))
  | inr (d, m) ↦
      let (i, _, _) = serve-ip (turns c.id) c d m in
      rw (stays turns c d cs m, i) (ground (arith, from-check_clients ip turns cs))
]

-- A client that stays is the only one from its address.
alone :
    (turns : ℕ → Turn) (c d : Connection) (cs : List Connection)
    → OneLive (c ∷ cs)
    → serve (turns c.id) c ≡ some d
    → from d.ip (check_clients turns cs) ≡ false
unfolding OneLive
alone turns c d cs h m =
    let (i, _, alive) = serve-ip (turns c.id) c d m in
    elim (Bool-cases (from c.ip cs)) [
      | inl k ↦ absurd (true≢false (sym (h.0 k) ∙ alive))
      | inr k ↦ rw i (from-check_clients c.ip turns cs k)
    ]

-- After a round, no dead client is left, and no two are from one address.
pub check_clients-IsClean :
    (turns : ℕ → Turn) (cs : List Connection) → OneLive cs → IsClean (check_clients turns cs)
unfolding IsClean OneLive
check_clients-IsClean turns [] h = rw (no_clients turns) tt
check_clients-IsClean turns (c ∷ cs) h = elim (Option-cases (serve (turns c.id) c)) [
  | inl m ↦ rw (gone turns c cs m) (check_clients-IsClean turns cs h.1)
  | inr (d, m) ↦
      let (_, alive, _) = serve-ip (turns c.id) c d m in
      rw (stays turns c d cs m) (alone turns c d cs h m, alive, check_clients-IsClean turns cs h.1)
]

pub IsClean-OneLive : (cs : List Connection) → IsClean cs → OneLive cs
unfolding IsClean OneLive
IsClean-OneLive [] h = tt
IsClean-OneLive (c ∷ cs) (f, _, h) = (λ e. absurd (true≢false (sym e ∙ f)), IsClean-OneLive cs h)

pub serving-add_connection :
    (c : Connection) (cs : List Connection) (ip : ℕ)
    → c.dead ≡ false
    → serving (add_connection c cs) ip ≡ (if c.ip == ip then some c else serving cs ip)
unfolding serving add_connection mark
serving-add_connection c [] ip h = ground (arith, h)
serving-add_connection c (d ∷ cs) ip h = ground (arith, serving-add_connection c cs ip h)

serving-from_none : (cs : List Connection) (ip : ℕ) → from ip cs ≡ false → serving cs ip ≡ none
unfolding serving from
serving-from_none [] ip h = refl
serving-from_none (c ∷ cs) ip h = ground (arith, serving-from_none cs ip)

-- What a round does to the connection that is served.
abbrev pub served : (ℕ → Turn) → Option Connection → Option Connection
served turns o = elim o [ none ↦ none | some c ↦ serve (turns c.id) c ]

-- Behind a client that is not dead, none is from its address.
none_behind :
    (c : Connection) (cs : List Connection) (ip : ℕ)
    → OneLive (c ∷ cs)
    → c.dead ≡ false
    → (c.ip == ip) ≡ true
    → serving cs ip ≡ none
unfolding OneLive
none_behind c cs ip h alive k =
    let here : c.ip ≡ ip = (==_iff c.ip ip).0 k in
    elim (Bool-cases (from c.ip cs)) [
      | inl f ↦ absurd (true≢false (sym (h.0 f) ∙ alive))
      | inr f ↦ serving-from_none cs ip (ap (λ a. from a cs) (sym here) ∙ f)
    ]

serving-cons :
    (c : Connection) (cs : List Connection) (ip : ℕ)
    → c.dead ≡ false
    → serving (c ∷ cs) ip ≡ (if c.ip == ip then some c else serving cs ip)
unfolding serving
serving-cons c cs ip h = ground (arith, h)

serving-dead_head :
    (c : Connection) (cs : List Connection) (ip : ℕ)
    → c.dead ≡ true
    → serving (c ∷ cs) ip ≡ serving cs ip
unfolding serving
serving-dead_head c cs ip h = ground (arith, h)

at_head :
    (c : Connection) (cs : List Connection) (ip : ℕ)
    → c.dead ≡ false
    → (c.ip == ip) ≡ true
    → serving (c ∷ cs) ip ≡ some c
at_head c cs ip h j = serving-cons c cs ip h ∙ rw j refl

skipped :
    (c : Connection) (cs : List Connection) (ip : ℕ)
    → c.dead ≡ false
    → (c.ip == ip) ≡ false
    → serving (c ∷ cs) ip ≡ serving cs ip
skipped c cs ip h j = serving-cons c cs ip h ∙ rw j refl

pub serving_empty : (ip : ℕ) → serving [] ip ≡ none
unfolding serving
serving_empty ip = refl

-- One client more in front, when the rest is known.
module _ (turns : ℕ → Turn) (c : Connection) (cs : List Connection) (ip : ℕ) (h : OneLive (c ∷ cs))
    (rest : serving (check_clients turns cs) ip ≡ served turns (serving cs ip)) where
  lost :
      serve (turns c.id) c ≡ none
      → serving (check_clients turns cs) ip ≡ served turns (serving (c ∷ cs) ip)
  lost m = elim (Bool-cases c.dead) [
    | inl k ↦ rest ∙ ap (served turns) (sym (serving-dead_head c cs ip k))
    | inr k ↦ elim (Bool-cases (c.ip == ip)) [
      | inl j ↦
          rest
          ∙ ap (served turns) (none_behind c cs ip h k j)
          ∙ sym m
          ∙ ap (served turns) (sym (at_head c cs ip k j))
      | inr j ↦ rest ∙ ap (served turns) (sym (skipped c cs ip k j))
    ]
  ]

  kept :
      (d : Connection)
      → d.ip ≡ c.ip
      → c.dead ≡ false
      → serve (turns c.id) c ≡ some d
      → (if d.ip == ip then some d else serving (check_clients turns cs) ip)
        ≡ served turns (serving (c ∷ cs) ip)
  kept d i was m = elim (Bool-cases (c.ip == ip)) [
    | inl j ↦
        let head : serving (c ∷ cs) ip ≡ some c = at_head c cs ip was j in
        let same : (d.ip == ip) ≡ true = ap (λ a. a == ip) i ∙ j in rw (same, head) (sym m)
    | inr j ↦
        let head : serving (c ∷ cs) ip ≡ serving cs ip = skipped c cs ip was j in
        let other : (d.ip == ip) ≡ false = ap (λ a. a == ip) i ∙ j in rw (other, head) rest
  ]

pub serving-check_clients :
    (turns : ℕ → Turn) (cs : List Connection) (ip : ℕ)
    → OneLive cs
    → serving (check_clients turns cs) ip ≡ served turns (serving cs ip)
unfolding OneLive
serving-check_clients turns [] ip h = rw (no_clients turns, serving_empty ip) refl
serving-check_clients turns (c ∷ cs) ip h =
    let rest = serving-check_clients turns cs ip h.1 in
    elim (Option-cases (serve (turns c.id) c)) [
      | inl m ↦ rw (gone turns c cs m) (lost turns c cs ip h rest m)
      | inr (d, m) ↦
          let (i, alive, was) = serve-ip (turns c.id) c d m in
          rw (stays turns c d cs m)
            (serving-cons d (check_clients turns cs) ip alive ∙ kept turns c cs ip h rest d i was m)
    ]
