-- ===== src/Share/Sound.antt =====
-- share.cc: what a handler asks for, and which certificates the server keeps.
use mathlib.Core.Bool.{true≢false}
use napsteresque.Base.{
  Bool, not, ◌&&◌, ◌||◌, ==_iff, ℕ, ◌+◌, ◌-◌, ◌≡◌, ◌≢◌, ◌<◌, ◌≤◌, ◌%◌, ◌^◌, ltb, ltb→lt, refl, true,
  false, none, some, List, [], ◌∷◌, ◌==◌, drop, All, arith, Bool-cases, inl, inr, ◌⊎◌,
}
use napsteresque.Cert.{Outcome, done, thrown, overrun, ◌>>=◌, fetch}
use napsteresque.Cert.File.{FileCert}
use napsteresque.Cert.Song.{SongCert, valid_signature}
use napsteresque.Cert
use napsteresque.Share.{
  Setting, Caller, CertEntry, Songs, Act, queried, song_cert, add_file, remove_file, Handled,
  find_song, touch, is_blocked, before_time, data_of, query, outdated, stopped_file, with_cert,
  publish,
}
use napsteresque.Share.Handlers.{Call, adds_song, adds_song2, removes_song, adds_cert, adds_cert2}

-- An entry of the list is under its certificate's id, and the certificate's signature is valid.
abbrev pub IsVouched : (List ℕ → List ℕ → List ℕ) → List CertEntry → Type 0
IsVouched hmac [] = Unit
IsVouched hmac (e ∷ es) =
    (e.songid ≡ e.cert.head.songid) × (valid_signature hmac e.cert ≡ true) × IsVouched hmac es

pub Outcome-cases :
    {A : Type 0} (o : Outcome A) → ((a : A) × (o ≡ done a)) ⊎ ((o ≡ thrown) ⊎ (o ≡ overrun))
Outcome-cases (done a) = inl (a, refl)
Outcome-cases thrown = inr (inl refl)
Outcome-cases overrun = inr (inr refl)

pub find_song-touch :
    (i j now : ℕ) (es : List CertEntry) → find_song i (touch j now es) ≡ find_song i es
unfolding find_song touch
find_song-touch i j now [] = refl
find_song-touch i j now (e ∷ es) = ground (arith, find_song-touch i j now es)

pub touch-IsVouched :
    (hmac : List ℕ → List ℕ → List ℕ) (i now : ℕ) (es : List CertEntry)
    → IsVouched hmac es
    → IsVouched hmac (touch i now es)
unfolding touch
touch-IsVouched hmac i now [] v = v
touch-IsVouched hmac i now (e ∷ es) (a, b, v) = elim (Bool-cases (e.songid == i)) [
  | inl h ↦ rw h (a, b, v)
  | inr h ↦ rw h (a, b, touch-IsVouched hmac i now es v)
]

-- The words of two times, as they stand in memory, signed: the first is not before the second.
abbrev pub NotBefore : ℕ → ℕ → Type 0
NotBefore a b =
    ((a % 2 ^ 32 < 2 ^ 31) × (2 ^ 31 ≤ b % 2 ^ 32))
    ⊎ (((a % 2 ^ 32 < 2 ^ 31) × (b % 2 ^ 32 < 2 ^ 31) × (b % 2 ^ 32 ≤ a % 2 ^ 32))
        ⊎ ((2 ^ 31 ≤ a % 2 ^ 32) × (2 ^ 31 ≤ b % 2 ^ 32) × (b % 2 ^ 32 ≤ a % 2 ^ 32)))

-- The words of a certificate's dates as they stand in memory, which is the order of the network: the
-- end is not before the clock, and the date, where the server has a least one, is not before it.
abbrev pub IsTimely : Setting → ℕ → ℕ → Type 0
IsTimely w end_date date =
    NotBefore end_date w.now × ((w.min_cert_date ≡ 0) ⊎ NotBefore date w.min_cert_date)

-- A file's certificate is signed, its words are timely, and its song is none of those that are blocked.
abbrev pub IsGood : Setting → Songs → FileCert → Type 0
IsGood w s f =
    (Cert.File.valid_signature w.hmac f ≡ true)
    × IsTimely w f.end_date f.date
    × All (λ i. i ≢ f.songid) s.blocked_songs

not_ltb_le : (a b : ℕ) → ltb a b ≡ false → b ≤ a
not_ltb_le a b h = ground (arith, h)

before_time-NotBefore : (a b : ℕ) → before_time a b ≡ false → NotBefore a b
unfolding before_time
before_time-NotBefore a b h =
    let l = not_ltb_le ((a + 2 ^ 31) % 2 ^ 32) ((b + 2 ^ 31) % 2 ^ 32) h in
    elim (Bool-cases (ltb (a % 2 ^ 32) (2 ^ 31))) [
      | inl p ↦
          let below = ltb→lt (a % 2 ^ 32) (2 ^ 31) p in
          elim (Bool-cases (ltb (b % 2 ^ 32) (2 ^ 31))) [
            | inl q ↦
                let under = ltb→lt (b % 2 ^ 32) (2 ^ 31) q in
                inr (inl (below, under, omega (arith, l, below, under)))
            | inr q ↦ inl (below, not_ltb_le (b % 2 ^ 32) (2 ^ 31) q)
          ]
      | inr p ↦
          let high = not_ltb_le (a % 2 ^ 32) (2 ^ 31) p in
          elim (Bool-cases (ltb (b % 2 ^ 32) (2 ^ 31))) [
            | inl q ↦
                let under = ltb→lt (b % 2 ^ 32) (2 ^ 31) q in absurd (omega (arith, l, high, under))
            | inr q ↦
                let over = not_ltb_le (b % 2 ^ 32) (2 ^ 31) q in
                inr (inr (high, over, omega (arith, l, high, over)))
          ]
    ]

outdated-IsTimely :
    (w : Setting) (end_date date : ℕ) → outdated w end_date date ≡ false → IsTimely w end_date date
unfolding outdated
outdated-IsTimely w end_date date h = (
  before_time-NotBefore end_date w.now (or_left (before_time end_date w.now) _ h),
  elim (Bool-cases (w.min_cert_date == 0)) [
    | inl e ↦ inl ((==_iff w.min_cert_date 0).0 e)
    | inr e ↦ inr (
        before_time-NotBefore date w.min_cert_date
          (and_right (w.min_cert_date == 0) _ e (or_right (before_time end_date w.now) _ h)))
  ],
)
  where
    or_left : (a b : Bool) → (a || b) ≡ false → a ≡ false
    or_left true b h = h
    or_left false b h = refl

    or_right : (a b : Bool) → (a || b) ≡ false → b ≡ false
    or_right true b h = absurd (true≢false h)
    or_right false b h = h

    and_right : (a b : Bool) → a ≡ false → (not a && b) ≡ false → b ≡ false
    and_right true b e h = absurd (true≢false e)
    and_right false b e h = h

is_blocked-All : (i : ℕ) (xs : List ℕ) → is_blocked i xs ≡ false → All (λ x. x ≢ i) xs
unfolding is_blocked
is_blocked-All i [] h = tt
is_blocked-All i (x ∷ xs) h = ((λ e. ground (arith, h, e)), is_blocked-All i xs (ground (arith, h)))

-- The certificate that the command of a call holds.
abbrev pub Holds : Call → FileCert → Type 0
Holds (adds_song caller c) f = Cert.File.get_from_bytes (drop 4 (data_of c)) (c.size - 4) ≡ done f
Holds (adds_song2 caller c) f = Cert.File.get_from_bytes (drop 4 (data_of c)) (c.size - 4) ≡ done f
Holds (removes_song caller c) f = Cert.File.get_from_bytes (data_of c) c.size ≡ done f
Holds (adds_cert caller c) f = Cert.File.get_from_bytes (drop 4 (data_of c)) (c.size - 4) ≡ done f
Holds (adds_cert2 caller c) f = Cert.File.get_from_bytes (drop 4 (data_of c)) (c.size - 4) ≡ done f

abbrev pub caller_of : Call → Caller
caller_of (adds_song caller c) = caller
caller_of (adds_song2 caller c) = caller
caller_of (removes_song caller c) = caller
caller_of (adds_cert caller c) = caller
caller_of (adds_cert2 caller c) = caller

module _ (w : Setting) (caller : Caller) (From : FileCert → Type 0) (s : Songs) where
  -- What a handler may ask for, that turns the songs `s` into others.
  abbrev pub IsDue : Songs → Act → Type 0
  IsDue s' (queried md5 name) =
      (caller.can_identify ≡ true)
      × (name ≡ caller.name)
      × ((f : FileCert) × From f × (md5 ≡ f.md5))
  IsDue s' (song_cert md5) =
      (f : FileCert) × From f
      × IsGood w s f
      × (find_song f.songid s.song_certificates ≡ none)
      × (md5 ≡ f.md5)
  IsDue s' (add_file text id) =
      (f : FileCert) × From f
      × IsGood w s f
      × (id ≡ f.songid)
      × ((cert : SongCert) × (find_song id s'.song_certificates ≡ some cert))
  IsDue s' (remove_file text) =
      (f : FileCert) × From f
      × (Cert.File.valid_signature w.hmac f ≡ true)
      × ((cert : SongCert) × (find_song f.songid s.song_certificates ≡ some cert))

  abbrev pub IsFine : Handled → Type 0
  IsFine (s', acts) =
      All (IsDue s') acts
      × (IsVouched w.hmac s.song_certificates → IsVouched w.hmac s'.song_certificates)

  abbrev pub AreFine : Outcome Handled → Type 0
  AreFine (done h) = IsFine h
  AreFine thrown = Unit
  AreFine overrun = Unit

  pub query-IsFine : (f : FileCert) → From f → IsFine (query w caller f.md5 s)
  unfolding query
  query-IsFine f h = elim (Bool-cases caller.can_identify) [
    | inl e ↦ rw e (((refl, refl, (f, h, refl)), tt), λ v. v)
    | inr e ↦ rw e (tt, λ v. v)
  ]

  stopped_file-cases :
      (f : FileCert)
      → From f
      → ((stopped_file w caller f s ≡ none) × IsGood w s f)
        ⊎ ((h : Handled) × (stopped_file w caller f s ≡ some h) × IsFine h)
  unfolding stopped_file
  stopped_file-cases f h = elim (Bool-cases (Cert.File.valid_signature w.hmac f)) [
    | inr e ↦ inr (query w caller f.md5 s, rw e refl, query-IsFine f h)
    | inl e ↦ elim (Bool-cases (outdated w f.end_date f.date)) [
      | inl d ↦ inr (query w caller f.md5 s, rw (e, d) refl, query-IsFine f h)
      | inr d ↦ elim (Bool-cases (is_blocked f.songid s.blocked_songs)) [
        | inl b ↦ inr (
          (record s { num_song_blocks = s.num_song_blocks + 1 }, []),
          rw (e, d, b) refl,
          (tt, λ v. v),
        )
        | inr b ↦ inl (
          rw (e, d, b) refl,
          (e, outdated-IsTimely w f.end_date f.date d, is_blocked-All f.songid s.blocked_songs b),
        )
      ]
    ]
  ]

  pub with_cert-AreFine :
      (p : List ℕ) (size : ℕ) (next : FileCert → Outcome Handled)
      → ((f : FileCert) → Cert.File.get_from_bytes p size ≡ done f → From f)
      → ((f : FileCert) → From f → IsGood w s f → AreFine (next f))
      → AreFine (with_cert w caller p size s next)
  unfolding with_cert
  with_cert-AreFine p size next holds fine =
      elim (Outcome-cases (Cert.File.get_from_bytes p size)) [
        | inr (inl e) ↦ rw (AreFine, with_cert, e) (tt, λ v. v)
        | inr (inr e) ↦ rw (AreFine, with_cert, e) tt
        | inl (f, e) ↦ elim (stopped_file-cases f (holds f e)) [
          | inl (n, good) ↦ rw (AreFine, with_cert, e, n) (fine f (holds f e) good)
          | inr (h, n, ok) ↦ rw (AreFine, with_cert, e, n) ok
        ]
      ]

  pub publish-AreFine :
      (f : FileCert) (line : Outcome (List ℕ)) (s' : Songs)
      → From f
      → IsGood w s f
      → ((cert : SongCert) × (find_song f.songid s'.song_certificates ≡ some cert))
      → (IsVouched w.hmac s.song_certificates → IsVouched w.hmac s'.song_certificates)
      → AreFine (publish w f line s')
  unfolding publish
  publish-AreFine f (done text) s' h good found keeps = (((f, h, good, refl, found), tt), keeps)
  publish-AreFine f thrown s' h good found keeps = tt
  publish-AreFine f overrun s' h good found keeps = tt
