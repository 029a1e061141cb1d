-- ===== src/Client/Progress.antt =====
-- client.cc: a whole packet that is there is returned.
use mathlib.Core.Path.{subst}
use napsteresque.Base.{
  ℕ, zero, suc, ◌+◌, ◌-◌, ◌≤◌, ◌≡◌, refl, sym, ap, ◌∙◌, true, false, Option, none, some, List, [],
  ◌∷◌, ◌++◌, null, length, arith, All, take, drop, Bool-cases, inl, inr, ==_iff, length-append,
}
use napsteresque.Client.{
  Answer, grants, again, failed, Incoming, Reader, packet, peek_head, read, full, fill, recv,
  recv_rest, granted,
}
use napsteresque.Client.Framing.{IsPacket, pending, IsReader, Kept, read-Kept}
use napsteresque.Client.Stream.{first_packet, peek_head-more}

abbrev pub IsGrant : Answer → Type 0
IsGrant (grants k) = Unit {0}
IsGrant again = ⊥
IsGrant failed = ⊥

length-drop : (n : ℕ) (s : List ℕ) → n ≤ length s → length (drop n s) + n ≡ length s
length-drop zero s h = omega arith
length-drop (suc n) [] h = absurd (omega (arith, h))
length-drop (suc n) (x ∷ s) h = omega (arith, length-drop n s (omega (arith, h)))

length-take : (n : ℕ) (s : List ℕ) → n ≤ length s → length (take n s) ≡ n
length-take zero s h = refl
length-take (suc n) [] h = absurd (omega (arith, h))
length-take (suc n) (x ∷ s) h = omega (arith, length-take n s (omega (arith, h)))

granted_bounds : (k n : ℕ) → 1 ≤ n → (1 ≤ granted k n) × (granted k n ≤ n)
granted_bounds k n h = ground arith

abbrev missing : Incoming → ℕ
missing p = p.size + 4 - length p.have

length-recv :
    (k : ℕ) (p : Incoming) (inbox : List ℕ)
    → missing p ≤ length inbox
    → 1 ≤ missing p
    → (length (recv k p inbox).have ≡ length p.have + granted k (missing p))
      × (length (recv_rest k p inbox) + granted k (missing p) ≡ length inbox)
unfolding recv
length-recv k p inbox b n =
    let (low, high) = granted_bounds k (missing p) n in
    (
      length-append p.have (take (granted k (missing p)) inbox)
          ∙ ap (λ x. length p.have + x)
              (length-take (granted k (missing p)) inbox (omega (arith, high, b))),
      length-drop (granted k (missing p)) inbox (omega (arith, high, b)),
    )

not_null : (s : List ℕ) → 1 ≤ length s → null s ≡ false
not_null [] h = absurd (omega (arith, h))
not_null (x ∷ s) h = refl

Filled : List Answer → Incoming → List ℕ → Type 0
Filled ks p inbox =
    (q : Incoming) × (inbox' : List ℕ) × (fill ks p inbox
      ≡ (packet q, record { inbox = inbox'; rbuffer = none }))

-- With enough bytes and answers, `fill` ends with a packet.
fill-packet :
    (ks : List Answer) (p : Incoming) (inbox : List ℕ)
    → All IsGrant ks
    → length p.have ≤ p.size + 4
    → missing p ≤ length inbox
    → missing p ≤ length ks
    → Filled ks p inbox
unfolding fill Filled
fill-packet [] p inbox g h b a =
    let f : full p ≡ true = (==_iff (length p.have) (p.size + 4)).1 (omega (arith, h, a)) in
    (p, inbox, rw f refl)
fill-packet (again ∷ ks) p inbox g h b a = absurd g.0
fill-packet (failed ∷ ks) p inbox g h b a = absurd g.0
fill-packet (grants k ∷ ks) p inbox g h b a = elim (Bool-cases (full p)) [
  | inl f ↦ (p, inbox, rw f refl)
  | inr f ↦
      let n : 1 ≤ missing p = ground (arith, f) in
      let (had, left) = length-recv k p inbox b n in
      let (low, high) = granted_bounds k (missing p) n in
      let z : null inbox ≡ false = not_null inbox (omega (arith, n, b)) in
      let (q, inbox', e) =
        fill-packet ks (recv k p inbox) (recv_rest k p inbox) g.1 (omega (arith, had, high, h))
          (omega (arith, had, left, low, high, b)) (omega (arith, had, low, a)) in
      (q, inbox', rw (f, z) e)
]

-- What `read` does where the head of a packet is there.
read-Filled :
    (k : ℕ) (ks : List Answer) (inbox : List ℕ) (rb : Option Incoming) (q : Incoming) (t : List ℕ)
    → IsReader (record { inbox = inbox; rbuffer = rb })
    → IsPacket q
    → All IsGrant ks
    → q.size + 4 ≤ length ks
    → pending (record { inbox = inbox; rbuffer = rb }) ≡ q.have ++ t
    → (o : Incoming) × (inbox' : List ℕ) × (read
          (grants k)
          ks
          (record { inbox = inbox; rbuffer = rb })
        ≡ (packet o, record { inbox = inbox'; rbuffer = none }))
unfolding read Filled
read-Filled k ks inbox none q t h (l, w) g n e =
    let m : peek_head inbox ≡ some (q.size, q.code) =
      ap peek_head e ∙ peek_head-more q.have t (q.size, q.code) w in
    let long : length inbox ≡ length q.have + length t =
      ap (length {A = ℕ}) e ∙ length-append q.have t in
    let (o, inbox', f) =
      fill-packet ks (record { size = q.size; code = q.code; have = [] }) inbox g (omega arith)
        (omega (arith, long, l)) (omega (arith, n)) in
    (o, inbox', rw (m, read) f)
read-Filled k ks inbox (some p) q t (s, h) (l, w) g n e =
    let m : Path (Option (ℕ × ℕ)) (some (p.size, p.code)) (some (q.size, q.code)) =
      sym h ∙ ap peek_head e ∙ peek_head-more q.have t (q.size, q.code) w in
    let sizes : p.size ≡ q.size = cc m in
    let long : length p.have + length inbox ≡ length q.have + length t =
      sym (length-append p.have inbox) ∙ ap (length {A = ℕ}) e ∙ length-append q.have t in
    fill-packet ks p inbox g s (omega (arith, long, l, sizes)) (omega (arith, n, sizes))

-- Where the bytes that are pending start with a whole packet and the kernel grants every call, however
-- few bytes at a time, one `read` returns that packet and leaves exactly what follows it.
pub read-packet :
    (k : ℕ) (ks : List Answer) (r : Reader) (q : Incoming) (t : List ℕ)
    → IsReader r
    → IsPacket q
    → All IsGrant ks
    → q.size + 4 ≤ length ks
    → pending r ≡ q.have ++ t
    → read (grants k) ks r ≡ (packet q, record { inbox = t; rbuffer = none })
read-packet k ks r q t h w g n e =
    let (o, inbox', f) = read-Filled k ks r.inbox r.rbuffer q t h w g n e in
    let (kept, whole, ok) = subst (Kept (pending r)) f (read-Kept (grants k) ks r h) in
    let (same, left) = first_packet o q inbox' t whole w (sym kept ∙ e) in
    f ∙ (λ i. (packet (same i), record { inbox = left i; rbuffer = none }))
