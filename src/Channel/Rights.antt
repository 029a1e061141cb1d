-- ===== src/Channel/Rights.antt =====
-- channel.cc, the handlers under `#ifdef WORKS`: what a user may do.
use napsteresque.Base.{
  ◌≡◌, refl, ◌⊎◌, inl, inr, Bool, true, false, not, ◌&&◌, ◌||◌, Option, none, some, List, [], ◌∷◌,
  ◌++◌, map, ltb, if◌then◌else◌, All, arith,
}
use napsteresque.Ignore.{Name}
use napsteresque.Cert.{Outcome, done, thrown, overrun, ◌>>=◌}
use napsteresque.Channel.Handlers.{
  House, Speaker, Room, Chat, Heard, Saying, enlisted, chat, emote, topic_told, cleared, instant,
  remote_instant, moderator, administrator, elite, find_room, has_blank, enter, join_named, speak,
  refused,
}

-- A branch, and a look-up, by their cases.
pub if-cases :
    {B : Type 0} (P : B → Type 0) (b : Bool) (x y : B)
    → (b ≡ true → P x)
    → (b ≡ false → P y)
    → P (if b then x else y)
if-cases P true x y t f = t refl
if-cases P false x y t f = f refl

pub elim-cases :
    {A B : Type 0} (P : B → Type 0) (o : Option A) (x : B) (k : A → B)
    → (o ≡ none → P x)
    → ((a : A) → o ≡ some a → P (k a))
    → P (elim o [ none ↦ x | some a ↦ k a ])
elim-cases P none x k t f = t refl
elim-cases P (some a) x k t f = f a refl

module _ (h : House) (caller : Speaker) (s : Chat) where
  abbrev pub IsTitle : Name → Type 0
  IsTitle t = (n : Name) × (r : Room) × (find_room n s.channels ≡ some r) × (t ≡ r.title)

  -- The conditions of what the handlers do for a user.
  abbrev pub May : Saying → Type 0
  May (chat t text) = (caller.muzzled ≡ false) × IsTitle t × (h.is_on caller t ≡ true)
  May (emote t text) =
      (caller.muzzled ≡ false)
      × IsTitle t
      × (h.is_on caller t ≡ true)
      × ((caller.cloaked && ltb caller.level elite) ≡ false)
  May (enlisted t) =
      (caller.muzzled ≡ false)
      × (((n : Name) × (r : Room) × (find_room n s.channels ≡ some r)
            × (h.require_level caller r.required_level ≡ true)
            × (t ≡ r.title))
          ⊎ ((find_room t s.channels ≡ none)
              × (h.allow_new_channels ≡ true)
              × ((ltb caller.level moderator && (h.bad_word t || has_blank t)) ≡ false)))
  May (topic_told t text) = (h.require_level caller elite ≡ true) × IsTitle t
  May (cleared t reason) = (h.require_level caller administrator ≡ true) × IsTitle t
  May (instant u text) =
      (n : Name) × (lc : Speaker) × (h.local_user n ≡ some lc)
      × (u ≡ lc.name)
      × (h.visible_to lc caller ≡ true)
      × ((caller.muzzled && ltb lc.level moderator) ≡ false)
      × (h.ignoring lc caller ≡ false)
      × (h.ignoring caller lc ≡ false)
  May (remote_instant u text) =
      (n : Name) × (rc : Speaker) × (h.remote_user n ≡ some rc)
      × (u ≡ rc.name)
      × ((caller.muzzled && ltb rc.level moderator) ≡ false)
      × (h.ignoring caller rc ≡ false)
  May _ = Unit

  -- The channels stay, or one of a new name is added, or the caller has the highest level.
  abbrev pub Grown : Chat → Type 0
  Grown s' =
      (s'.channels ≡ s.channels)
      ⊎ (((r : Room) × (s'.channels ≡ r ∷ s.channels) × (find_room r.title s.channels ≡ none))
          ⊎ (h.require_level caller elite ≡ true))

  abbrev pub IsRight : Heard → Type 0
  IsRight (s', acts) = All May acts × Grown s'

  abbrev pub AreRight : Outcome Heard → Type 0
  AreRight (done r) = IsRight r
  AreRight thrown = Unit
  AreRight overrun = Unit

  pub bind-AreRight :
      {A : Type 0} (m : Outcome A) (k : A → Outcome Heard)
      → ((a : A) → AreRight (k a))
      → AreRight (m >>= k)
  bind-AreRight (done a) k r = r a
  bind-AreRight thrown k r = tt
  bind-AreRight overrun k r = tt

  pub All-map :
      {A : Type 0} (f : A → Saying) (xs : List A) (rest : List Saying)
      → ((a : A) → May (f a))
      → All May rest
      → All May (map f xs ++ rest)
  All-map f [] rest m r = r
  All-map f (x ∷ xs) rest m r = (m x, All-map f xs rest m r)

  pub nothing : IsRight (s, [])
  nothing = (tt, inl refl)

  pub told : IsRight (s, refused ∷ [])
  told = ((tt, tt), inl refl)

  enter-IsRight :
      (t : Name) (s' : Chat) → May (enlisted t) → Grown s' → IsRight (enter h caller t s')
  unfolding enter
  enter-IsRight t s' m g =
      if-cases IsRight (h.adds caller t) _ _ (λ _. ((m, (tt, (tt, tt))), g))
        (λ _. ((m, (tt, (tt, tt))), g))

  pub join_named-IsRight : (n : Name) → caller.muzzled ≡ false → IsRight (join_named h caller n s)
  unfolding join_named
  join_named-IsRight n m =
      elim-cases IsRight (find_room n s.channels) _ _
        (λ e.
          if-cases IsRight (not h.allow_new_channels) _ _ (λ _. told)
            (λ a.
              if-cases IsRight (ltb caller.level moderator && (h.bad_word n || has_blank n)) _ _
                (λ _. told)
                (λ b.
                  enter-IsRight n _ (m, inr (e, ground (arith, a), b)) (inr (inl (_, refl, e))))))
        (λ r e.
          if-cases IsRight (h.require_level caller r.required_level) _ _
            (λ l. enter-IsRight r.title s (m, inl (n, r, e, l, refl)) (inl refl)) (λ _. nothing))

  pub speak-IsRight :
      (n : Name) (sayings : Name → List Saying)
      → ((t : Name) → IsTitle t → h.is_on caller t ≡ true → All May (sayings t))
      → IsRight (speak h caller n sayings s)
  unfolding speak
  speak-IsRight n sayings m =
      elim-cases IsRight (find_room n s.channels) _ _ (λ _. told)
        (λ r e.
          if-cases IsRight (not (h.is_on caller r.title)) _ _ (λ _. told)
            (λ on. (m r.title (n, r, e, refl) (ground (arith, on)), inl refl)))
