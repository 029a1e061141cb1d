-- ===== src/Server/Live.antt =====
-- server.cc: of two connections from one address, the earlier is dead.
use napsteresque.Base.{
  ℕ, Bool, true, false, Option, none, some, List, [], ◌∷◌, ◌==◌, if◌then◌else◌, ◌≡◌, refl, sym, ap,
  ◌∙◌, arith, Bool-cases, Option-cases, inl, inr,
}
use mathlib.Core.Path.{subst}
use mathlib.Core.Bool.{true≢false}
use mathlib.Core.Option.{none-ne-some}
use napsteresque.Client.{Reader, Outcome, packet, nothing, thrown, Flushed, read, flush}
use napsteresque.Server.{
  Connection, Turn, mark, add_connection, after_read, after_flush, serve_read, serve_write, serve,
}

-- Some connection is from the address.
unfoldable pub from : ℕ → List Connection → Bool
from ip [] = false
from ip (c ∷ cs) = if c.ip == ip then true else from ip cs

unfoldable pub OneLive : List Connection → Type 0
unfolding from
OneLive [] = Unit {0}
OneLive (c ∷ cs) = (from c.ip cs ≡ true → c.dead ≡ true) × OneLive cs

mark-ip : (ip : ℕ) (c : Connection) → (mark ip c).ip ≡ c.ip
unfolding mark
mark-ip ip c = ground arith

from-add_connection :
    (ip : ℕ) (c : Connection) (cs : List Connection)
    → from ip (add_connection c cs) ≡ true
    → (c.ip == ip) ≡ false
    → from ip cs ≡ true
unfolding from add_connection
from-add_connection ip c [] e n = ground arith
from-add_connection ip c (d ∷ cs) e n = ground (arith, mark-ip c.ip d, from-add_connection ip c cs)

marked : (ip : ℕ) (c : Connection) → (c.ip == ip) ≡ true → (mark ip c).dead ≡ true
unfolding mark
marked ip c e = rw e refl

unmarked : (ip : ℕ) (c : Connection) → (c.ip == ip) ≡ false → mark ip c ≡ c
unfolding mark
unmarked ip c e = rw e refl

pub add_connection-OneLive :
    (c : Connection) (cs : List Connection) → OneLive cs → OneLive (add_connection c cs)
unfolding OneLive from add_connection
add_connection-OneLive c [] h = (λ e. absurd (true≢false (sym e)), tt)
add_connection-OneLive c (d ∷ cs) h = (earlier, add_connection-OneLive c cs h.1)
  where
    earlier : from (mark c.ip d).ip (add_connection c cs) ≡ true → (mark c.ip d).dead ≡ true
    earlier e = elim (Bool-cases (d.ip == c.ip)) [
      | inl k ↦ marked c.ip d k
      | inr k ↦
          let there : from d.ip (add_connection c cs) ≡ true =
            ap (λ ip. from ip (add_connection c cs)) (sym (mark-ip c.ip d)) ∙ e in
          let other : (c.ip == d.ip) ≡ false = ground (arith, k) in
          rw (unmarked c.ip d k) (h.0 (from-add_connection d.ip c cs there other))
    ]

-- The same connection, with the same flag.
abbrev Kept : Connection → Connection → Type 0
Kept c d = (d.ip ≡ c.ip) × (d.dead ≡ c.dead)

KeptIf : Connection → Option Connection → Type 0
KeptIf c none = Unit {0}
KeptIf c (some d) = Kept c d

after_read-Kept : (c : Connection) (s : Outcome × Reader) → KeptIf c (after_read c s)
unfolding KeptIf after_read
after_read-Kept c (packet p, r) = (refl, refl)
after_read-Kept c (nothing, r) = (refl, refl)
after_read-Kept c (thrown, r) = tt

serve_read-Kept : (t : Turn) (c : Connection) → KeptIf c (serve_read t c)
unfolding KeptIf serve_read
serve_read-Kept t c = elim (Option-cases t.readable) [
  | inl m ↦ rw (m, serve_read) (refl, refl)
  | inr ((peeked, ks), m) ↦ rw (m, serve_read) (after_read-Kept c (read peeked ks c.reader))
]

after_flush-Kept : (c : Connection) (f : Flushed) → KeptIf c (after_flush c f)
unfolding KeptIf after_flush
after_flush-Kept c f = elim (Bool-cases f.threw) [
  | inl k ↦ rw (k, after_flush) tt
  | inr k ↦ rw (k, after_flush) (refl, refl)
]

serve_write-Kept : (t : Turn) (c : Connection) → KeptIf c (serve_write t c)
unfolding KeptIf serve_write
serve_write-Kept t c = elim (Option-cases t.writable) [
  | inl m ↦ rw (m, serve_write) (refl, refl)
  | inr (ks, m) ↦ rw (m, serve_write) (after_flush-Kept c (flush ks c.wqueue))
]

-- A client that stays keeps its address and its flag, and was not dead.
pub serve-ip :
    (t : Turn) (c d : Connection)
    → serve t c ≡ some d
    → (d.ip ≡ c.ip) × (d.dead ≡ false) × (c.dead ≡ false)
unfolding KeptIf serve
serve-ip t c d e = elim (Bool-cases c.dead) [
  | inl k ↦
      let gone : serve t c ≡ none = rw (k, serve) refl in absurd (none-ne-some d (sym gone ∙ e))
  | inr k ↦ elim (Option-cases (serve_read t c)) [
    | inl m ↦
        let gone : serve t c ≡ none = rw (k, serve) (rw m refl) in
        absurd (none-ne-some d (sym gone ∙ e))
    | inr (b, m) ↦
        let (i, f) = subst (KeptIf c) m (serve_read-Kept t c) in
        let writes : serve t c ≡ serve_write t b = rw (k, serve) (rw m refl) in
        let (j, g) = subst (KeptIf b) (sym writes ∙ e) (serve_write-Kept t b) in
        (j ∙ i, g ∙ f ∙ k, k)
  ]
]
