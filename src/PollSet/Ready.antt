-- ===== src/PollSet/Ready.antt =====
-- pollset.hh: what `ready` says of a descriptor is what the system reported of it.
use Prim.Native.Nat.{bit_and}
use mathlib.Core.Option.{none-ne-some}
use napsteresque.Base.{
  ℕ, ◌<◌, ◌≡◌, refl, sym, ◌∙◌, true, false, not, Option, none, some, List, [], ◌∷◌, ltb, ◌==◌,
  if◌then◌else◌, arith, Bool-cases, Option-cases, inl, inr, ◌⊎◌, ==_iff, ==_refl, lt→ltb,
}
use napsteresque.PollSet.{PollSet, watch, watch_all, poll, ready}

-- The events of the last watch of a descriptor.
unfoldable pub last_watch : ℕ → List (ℕ × ℕ) → Option ℕ
last_watch fd [] = none
last_watch fd ((f, events) ∷ ws) = elim (last_watch fd ws) [
  | some e ↦ some e
  | none ↦ if f == fd then some events else none
]

-- A descriptor's entry is in use, and is of the descriptor and the events.
abbrev Holds : ℕ → ℕ → PollSet → Type 0
Holds fd events p =
    (p.index fd < p.size)
    × ((p.table (p.index fd)).fd ≡ fd)
    × ((p.table (p.index fd)).events ≡ events)

watch-Holds : (fd events : ℕ) (p : PollSet) → Holds fd events (watch fd events p)
unfolding watch
watch-Holds fd events p = rw (==_refl fd) (rw (==_refl p.size) (omega arith, refl, refl))

watch-keeps :
    (fd events f e : ℕ) (p : PollSet)
    → (f == fd) ≡ false
    → Holds fd events p
    → Holds fd events (watch f e p)
unfolding watch
watch-keeps fd events f e p n (l, a, b) =
    let other : (p.size == p.index fd) ≡ false = ground (arith, l) in
    rw n (rw other (omega (arith, l), a, b))

last_watch-absent :
    (f e fd : ℕ) (ws : List (ℕ × ℕ))
    → last_watch fd ((f, e) ∷ ws) ≡ none
    → (last_watch fd ws ≡ none) × ((f == fd) ≡ false)
unfolding last_watch
last_watch-absent f e fd ws n = elim (Option-cases (last_watch fd ws)) [
  | inr (a, m) ↦
      let here : last_watch fd ((f, e) ∷ ws) ≡ some a = rw m refl in
      absurd (none-ne-some a (sym n ∙ here))
  | inl m ↦ elim (Bool-cases (f == fd)) [
    | inr k ↦ (m, k)
    | inl k ↦
        let here : last_watch fd ((f, e) ∷ ws) ≡ some e = rw (m, k) refl in
        absurd (none-ne-some e (sym n ∙ here))
  ]
]

last_watch-cases :
    (f e fd events : ℕ) (ws : List (ℕ × ℕ))
    → last_watch fd ((f, e) ∷ ws) ≡ some events
    → (last_watch fd ws ≡ some events) ⊎ ((last_watch fd ws ≡ none) × (f ≡ fd) × (e ≡ events))
unfolding last_watch
last_watch-cases f e fd events ws h = elim (Option-cases (last_watch fd ws)) [
  | inr (a, m) ↦
      let here : last_watch fd ((f, e) ∷ ws) ≡ some a = rw m refl in inl (m ∙ sym here ∙ h)
  | inl m ↦ elim (Bool-cases (f == fd)) [
    | inl k ↦
        let here : last_watch fd ((f, e) ∷ ws) ≡ some e = rw (m, k) refl in
        inr (m, (==_iff f fd).0 k, cc (here, h))
    | inr k ↦
        let here : last_watch fd ((f, e) ∷ ws) ≡ none = rw (m, k) refl in
        absurd (none-ne-some events (sym here ∙ h))
  ]
]

watch_all-keeps :
    (ws : List (ℕ × ℕ)) (fd events : ℕ) (p : PollSet)
    → last_watch fd ws ≡ none
    → Holds fd events p
    → Holds fd events (watch_all ws p)
unfolding watch_all
watch_all-keeps [] fd events p n h = h
watch_all-keeps ((f, e) ∷ ws) fd events p n h =
    let (m, k) = last_watch-absent f e fd ws n in
    watch_all-keeps ws fd events (watch f e p) m (watch-keeps fd events f e p k h)

watch_all-Holds :
    (ws : List (ℕ × ℕ)) (fd events : ℕ) (p : PollSet)
    → last_watch fd ws ≡ some events
    → Holds fd events (watch_all ws p)
unfolding watch_all last_watch
watch_all-Holds [] fd events p h = absurd (none-ne-some events (sym no_watch ∙ h))
  where
    no_watch : last_watch fd [] ≡ none
    no_watch = refl
watch_all-Holds ((f, e) ∷ ws) fd events p h = elim (last_watch-cases f e fd events ws h) [
  | inl k ↦ watch_all-Holds ws fd events (watch f e p) k
  | inr (m, same, alike) ↦
      watch_all-keeps ws fd events (watch f e p) m (rw (same, alike) (watch-Holds fd events p))
]

-- After any watches of sockets and a poll, `ready` of a socket that was watched is whether one of the
-- events it asks for is among those that the system reported of the socket and of the events of its
-- last watch, wherever its entry stands and however often it was watched.
pub ready-watch_all :
    (ws : List (ℕ × ℕ)) (fd events asked : ℕ) (report : ℕ → ℕ → ℕ) (p : PollSet)
    → last_watch fd ws ≡ some events
    → ready fd asked (poll report (watch_all ws p)) ≡ not (bit_and (report fd events) asked == 0)
unfolding ready poll
ready-watch_all ws fd events asked report p h =
    let (l, a, b) = watch_all-Holds ws fd events p h in
    let used : ltb ((watch_all ws p).index fd) (watch_all ws p).size ≡ true =
      lt→ltb ((watch_all ws p).index fd) (watch_all ws p).size l in
    rw (used, a, b) refl
