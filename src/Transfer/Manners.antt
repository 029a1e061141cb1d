-- ===== src/Transfer/Manners.antt =====
-- transfer.cc: whom the handlers talk to.
use mathlib.Core.Path.{subst}
use napsteresque.Base.{
  ℕ, ◌≡◌, ◌⊎◌, inl, inr, refl, true, false, not, ◌&&◌, Option, none, some, List, [], ◌∷◌, ◌==◌,
  if◌then◌else◌, All, arith, Bool-cases, Option-cases,
}
use napsteresque.Ignore.{Name}
use napsteresque.Cert.{Outcome, done, thrown, overrun, ◌>>=◌}
use napsteresque.Command.{Command, Arg}
use napsteresque.Command.Unpack.{string_tag, int_tag}
use napsteresque.Transfer.{
  World, Target, here, there, link, Notice, download_attempt, remote_dl_attempt, download_delayed,
  accept_failed, firewall_response, Sent, say, two_of, word_of_arg, behind_two, unpacked,
  two_strings, polite, linked, delay_to, delay_download, attempt, request_here, request_there,
  request_to, download_request, accept_failed_to, refuse, firewall_to, firewall_transfer,
}

-- The handlers that look whether they are ignored.
pub data Handler : Type 0 where
  delays requests refuses firewalls : Handler

module _ (w : World) where
  unfoldable pub handle : Handler → ℕ → Command → Outcome Sent
  handle delays caller c = delay_download w caller c
  handle requests caller c = download_request w caller c
  handle refuses caller c = refuse w caller c
  handle firewalls caller c = firewall_transfer w caller c

  -- A user here to whom something is said is the caller, or neither ignores the caller nor is hidden
  -- from the caller.
  abbrev pub Heeds : ℕ → Target × Notice → Type 0
  Heeds caller (here u, n) =
      (u ≡ caller) ⊎ ((w.ignoring u caller ≡ false) × (w.visible_to u caller ≡ true))
  Heeds caller (there r, n) = Unit
  Heeds caller (link r, n) = Unit

  abbrev pub AllHeed : ℕ → Outcome Sent → Type 0
  AllHeed caller (done sent) = All (Heeds caller) sent
  AllHeed caller thrown = Unit
  AllHeed caller overrun = Unit

  -- What is found of a user is one that heeds the caller.
  abbrev Met : ℕ → Option ℕ → Type 0
  Met caller none = Unit
  Met caller (some u) = (w.ignoring u caller ≡ false) × (w.visible_to u caller ≡ true)

  Met-of :
      (caller u : ℕ)
      → Met caller (if not (w.ignoring u caller) && w.visible_to u caller then some u else none)
  Met-of caller u = elim (Bool-cases (w.ignoring u caller)) [
    | inl i ↦ rw i tt
    | inr i ↦ elim (Bool-cases (w.visible_to u caller)) [
      | inl v ↦ rw (i, v) (i, v)
      | inr v ↦ rw (i, v) tt
    ]
  ]

  polite-Met : (caller : ℕ) (n : Name) → Met caller (polite w caller n)
  unfolding polite
  polite-Met caller n = elim (Option-cases (w.local_user n)) [
    | inl e ↦ rw (polite, e) tt
    | inr (u, e) ↦ rw (polite, e) (Met-of caller u)
  ]

  polite_found :
      (caller u : ℕ) (n : Name) (notice : Notice)
      → polite w caller n ≡ some u
      → All (Heeds caller) (say (here u) notice)
  polite_found caller u n notice e =
      (inr (subst (λ (o : Option ℕ). Met caller o) e (polite-Met caller n)), tt)

  delay_to-Heeds :
      (caller : ℕ) (n f : Name) (maxdl : ℕ) → All (Heeds caller) (delay_to w caller n f maxdl)
  unfolding delay_to
  delay_to-Heeds caller n f maxdl = elim (Option-cases (w.find_file caller f)) [
    | inl d ↦ rw (delay_to, d) tt
    | inr (file, d) ↦ elim (Option-cases (polite w caller n)) [
      | inr (u, e) ↦
          rw (delay_to, d, e)
            (polite_found caller u n (download_delayed (w.name_of caller) f file.size maxdl) e)
      | inl e ↦ elim (Option-cases (linked w n)) [
        | inl l ↦ rw (delay_to, d, e, l) (inl refl, tt)
        | inr (r, l) ↦ rw (delay_to, d, e, l) (tt, tt)
      ]
    ]
  ]

  refuse_to-Heeds : (caller : ℕ) (n f : Name) → All (Heeds caller) (accept_failed_to w caller n f)
  unfolding accept_failed_to
  refuse_to-Heeds caller n f = elim (Option-cases (polite w caller n)) [
    | inr (u, e) ↦
        rw (accept_failed_to, e) (polite_found caller u n (accept_failed (w.name_of caller) f) e)
    | inl e ↦ elim (Option-cases (w.remote_user n)) [
      | inl l ↦ rw (accept_failed_to, e, l) tt
      | inr (r, l) ↦ rw (accept_failed_to, e, l) (tt, tt)
    ]
  ]

  firewall_to-Heeds : (caller : ℕ) (n f : Name) → All (Heeds caller) (firewall_to w caller n f)
  unfolding firewall_to
  firewall_to-Heeds caller n f = elim (Option-cases (polite w caller n)) [
    | inr (u, e) ↦ elim (Option-cases (w.find_file u f)) [
      | inl d ↦ rw (firewall_to, e, d) tt
      | inr (file, d) ↦
          rw (firewall_to, e, d)
            (polite_found caller u n
              (firewall_response (w.name_of caller) (w.ip caller) (w.data_port caller) f file.id
                (w.line_speed caller))
              e)
    ]
    | inl e ↦ elim (Option-cases (w.remote_user n)) [
      | inl l ↦ rw (firewall_to, e, l) (inl refl, tt)
      | inr (r, l) ↦ rw (firewall_to, e, l) (tt, tt)
    ]
  ]

  attempt-AllHeed :
      (caller : ℕ) (notice : List ℕ → List ℕ → Notice) (t : Target)
      → ((n : Notice) → Heeds caller (t, n))
      → AllHeed caller (attempt w caller notice t)
  unfolding attempt
  attempt-AllHeed caller notice t h = elim (Option-cases (w.public_key caller)) [
    | inl e ↦ rw (attempt, e) tt
    | inr (key, e) ↦ rw (attempt, e) (h _, tt)
  ]

  request_here-AllHeed : (caller u : ℕ) (f : Name) → AllHeed caller (request_here w caller f u)
  unfolding request_here
  request_here-AllHeed caller u f =
      elim (Bool-cases (not (w.ignoring u caller) && w.visible_to u caller)) [
        | inr g ↦ rw g tt
        | inl g ↦ elim (Bool-cases ((w.data_port caller == 0) && (w.data_port u == 0))) [
          | inl p ↦ rw (g, p) (inl refl, tt)
          | inr p ↦
              let known : (w.ignoring u caller ≡ false) × (w.visible_to u caller ≡ true) =
                (ground (arith, g), ground (arith, g)) in
              rw (g, p)
                (attempt-AllHeed caller
                  (λ key cid. download_attempt (w.name_of caller) f key cid (w.line_speed caller))
                  (here u) (λ n. inr known))
        ]
      ]

  request_there-AllHeed : (caller r : ℕ) (f : Name) → AllHeed caller (request_there w caller f r)
  unfolding request_there
  request_there-AllHeed caller r f =
      elim (Bool-cases ((w.data_port caller == 0) && (w.data_port r == 0))) [
        | inl p ↦ rw p (inl refl, tt)
        | inr p ↦ rw p (
            attempt-AllHeed caller
              (λ key cid.
                remote_dl_attempt (w.name_of r) (w.name_of caller) f key cid (w.line_speed caller))
              (link r) (λ n. tt))
      ]

  request_to-AllHeed : (caller : ℕ) (n f : Name) → AllHeed caller (request_to w caller n f)
  unfolding request_to
  request_to-AllHeed caller n f = elim (Option-cases (w.local_user n)) [
    | inr (u, e) ↦ rw (request_to, e) (request_here-AllHeed caller u f)
    | inl e ↦ elim (Option-cases (linked w n)) [
      | inl l ↦ rw (request_to, e, l) (inl refl, tt)
      | inr (r, l) ↦ rw (request_to, e, l) (request_there-AllHeed caller r f)
    ]
  ]

  bind-AllHeed :
      {A : Type 0} (caller : ℕ) (m : Outcome A) (f : A → Outcome Sent)
      → ((a : A) → AllHeed caller (f a))
      → AllHeed caller (m >>= f)
  bind-AllHeed caller (done a) f h = h a
  bind-AllHeed caller thrown f h = tt
  bind-AllHeed caller overrun f h = tt

  -- Whatever the command, the handlers of a delay, a request, a refusal and a transfer behind a firewall
  -- say nothing to a user of this server who ignores the caller or is hidden from the caller, but to the
  -- caller.
  pub handle-AllHeed : (k : Handler) (caller : ℕ) (c : Command) → AllHeed caller (handle k caller c)
  unfolding handle delay_download download_request refuse firewall_transfer
  handle-AllHeed delays caller c =
      bind-AllHeed caller (unpacked (string_tag ∷ string_tag ∷ int_tag ∷ []) c)
        (λ (vs : List (Option Arg)). two_of vs >>= λ (r : Name × Name).
          word_of_arg (behind_two vs) >>= λ (n : ℕ). done (delay_to w caller (r.0) (r.1) n))
        (λ vs.
          bind-AllHeed caller (two_of vs)
            (λ (r : Name × Name).
              word_of_arg (behind_two vs) >>= λ (n : ℕ). done (delay_to w caller (r.0) (r.1) n))
            (λ r.
              bind-AllHeed caller (word_of_arg (behind_two vs))
                (λ (n : ℕ). done (delay_to w caller (r.0) (r.1) n))
                (λ n. delay_to-Heeds caller (r.0) (r.1) n)))
  handle-AllHeed requests caller c = elim (Bool-cases (w.any_resources caller)) [
    | inr a ↦ rw a (inl refl, tt)
    | inl a ↦ rw a (
        bind-AllHeed caller (two_strings c) (λ (r : Name × Name). request_to w caller (r.0) (r.1))
          (λ r. request_to-AllHeed caller (r.0) (r.1)))
  ]
  handle-AllHeed refuses caller c =
      bind-AllHeed caller (two_strings c)
        (λ (r : Name × Name). done (accept_failed_to w caller (r.0) (r.1)))
        (λ r. refuse_to-Heeds caller (r.0) (r.1))
  handle-AllHeed firewalls caller c =
      bind-AllHeed caller (two_strings c)
        (λ (r : Name × Name). done (firewall_to w caller (r.0) (r.1)))
        (λ r. firewall_to-Heeds caller (r.0) (r.1))
