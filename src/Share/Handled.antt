-- ===== src/Share/Handled.antt =====
-- share.cc: each handler, and sequences of their calls.
use mathlib.Core.Path.{subst}
use napsteresque.Base.{
  ℕ, ◌-◌, ◌≡◌, refl, sym, ◌∙◌, true, none, some, List, [], ◌∷◌, ◌==◌, if◌then◌else◌, ltb, take,
  drop, length, All, Bool-cases, Option-cases, inl, inr, ◌⊎◌, ==_iff,
}
use napsteresque.Cert.{Outcome, done, thrown, overrun, ◌>>=◌, fetch}
use napsteresque.Cert.File.{FileCert}
use napsteresque.Cert.Song.{SongCert, valid_signature, get_from_bytes}
use napsteresque.Cert
use napsteresque.Command.{Command, emit}
use napsteresque.Share.{
  Setting, Caller, Songs, Act, remove_file, Handled, find_song, touch, data_of, query, outdated,
  publish, sprintf, song_path,
}
use napsteresque.Share.Handlers.{
  known, add_song, add_song2, remove_known, remove_song, stopped_song, inserted, unknown_song,
  known_or_fresh, add_song_cert, add_song_cert2, Call, adds_song, adds_song2, removes_song,
  adds_cert, adds_cert2, call_handler, run,
}
use napsteresque.Share.Sound.{
  IsVouched, IsGood, Holds, caller_of, IsDue, IsFine, AreFine, query-IsFine, with_cert-AreFine,
  publish-AreFine, Outcome-cases, find_song-touch, touch-IsVouched,
}

module _ (w : Setting) (caller : Caller) (From : FileCert → Type 0) (s : Songs) where
  abbrev touched : FileCert → Songs
  touched f = record s { song_certificates = touch f.songid w.now s.song_certificates }

  used-AreFine :
      (f : FileCert) (cert : SongCert) (line : Outcome (List ℕ))
      → From f
      → IsGood w s f
      → find_song f.songid s.song_certificates ≡ some cert
      → AreFine w caller From s (publish w f line (touched f))
  used-AreFine f cert line h good e =
      publish-AreFine w caller From s f line (touched f) h good
        (cert, find_song-touch f.songid f.songid w.now s.song_certificates ∙ e)
        (touch-IsVouched w.hmac f.songid w.now s.song_certificates)

  bind-AreFine :
      {A : Type 0} (m : Outcome A) (k : A → Outcome Handled)
      → ((a : A) → AreFine w caller From s (k a))
      → AreFine w caller From s (m >>= k)
  bind-AreFine (done a) k h = h a
  bind-AreFine thrown k h = tt
  bind-AreFine overrun k h = tt

  known-AreFine :
      (f : FileCert) (line : SongCert → Outcome (List ℕ))
      → From f
      → IsGood w s f
      → AreFine w caller From s (known w f line s)
  unfolding known
  known-AreFine f line h good = elim (Option-cases (find_song f.songid s.song_certificates)) [
    | inl e ↦ rw (AreFine, known, e) (((f, h, good, e, refl), tt), λ v. v)
    | inr (cert, e) ↦ rw (AreFine, known, e) (used-AreFine f cert (line cert) h good e)
  ]

  remove_known-AreFine :
      (f : FileCert)
      → From f
      → Cert.File.valid_signature w.hmac f ≡ true
      → AreFine w caller From s (remove_known w f s)
  unfolding remove_known
  remove_known-AreFine f h valid = elim (Option-cases (find_song f.songid s.song_certificates)) [
    | inl e ↦ rw (AreFine, remove_known, e) (tt, λ v. v)
    | inr (cert, e) ↦
        rw (AreFine, remove_known, e)
          (bind-AreFine (song_path (emit 10 f.bitrate []) f cert)
            (λ text. sprintf text >>= λ line. done (s, remove_file line ∷ []))
            (λ text.
              bind-AreFine (sprintf text) (λ line. done (s, remove_file line ∷ []))
                (λ line. (((f, h, valid, (cert, e)), tt), λ v. v))))
  ]

  stopped_song-cases :
      (f : FileCert) (cert : SongCert)
      → From f
      → ((stopped_song w caller f cert s ≡ none)
          × (cert.head.songid ≡ f.songid)
          × (valid_signature w.hmac cert ≡ true))
        ⊎ ((h : Handled) × (stopped_song w caller f cert s ≡ some h) × IsFine w caller From s h)
  unfolding stopped_song
  stopped_song-cases f cert h = elim (Bool-cases (cert.head.songid == f.songid)) [
    | inr e ↦ inr ((s, []), rw e refl, (tt, λ v. v))
    | inl e ↦ elim (Bool-cases (valid_signature w.hmac cert)) [
      | inr v ↦ inr (query w caller f.md5 s, rw (e, v) refl, query-IsFine w caller From s f h)
      | inl v ↦ elim (Bool-cases (outdated w cert.head.end_date cert.head.date)) [
        | inl d ↦ inr (query w caller f.md5 s, rw (e, v, d) refl, query-IsFine w caller From s f h)
        | inr d ↦ inl (rw (e, v, d) refl, (==_iff cert.head.songid f.songid).0 e, v)
      ]
    ]
  ]

  find_song-inserted :
      (f : FileCert) (cert : SongCert)
      → cert.head.songid ≡ f.songid
      → find_song f.songid (inserted w cert s).song_certificates ≡ some cert
  unfolding find_song inserted
  find_song-inserted f cert same = rw ((==_iff cert.head.songid f.songid).1 same) refl

  unknown_song-AreFine :
      (f : FileCert) (p : List ℕ) (size : ℕ) (line : SongCert → Outcome (List ℕ))
      → From f
      → IsGood w s f
      → AreFine w caller From s (unknown_song w caller f p size line s)
  unfolding unknown_song inserted
  unknown_song-AreFine f p size line h good = elim (Outcome-cases (get_from_bytes p size)) [
    | inr (inl e) ↦ rw (AreFine, unknown_song, e) (tt, λ v. v)
    | inr (inr e) ↦ rw (AreFine, unknown_song, e) tt
    | inl (cert, e) ↦ elim (stopped_song-cases f cert h) [
      | inr (r, n, ok) ↦ rw (AreFine, unknown_song, e, n) ok
      | inl (n, same, valid) ↦
          rw (AreFine, unknown_song, e, n)
            (publish-AreFine w caller From s f (line cert) (inserted w cert s) h good
              (cert, find_song-inserted f cert same) (λ v. (refl, valid, v)))
    ]
  ]

  known_or_fresh-AreFine :
      (f : FileCert) (p : List ℕ) (size : ℕ) (line : SongCert → Outcome (List ℕ))
      → From f
      → IsGood w s f
      → AreFine w caller From s (known_or_fresh w caller f p size line s)
  unfolding known_or_fresh
  known_or_fresh-AreFine f p size line h good =
      elim (Option-cases (find_song f.songid s.song_certificates)) [
        | inl e ↦ rw (AreFine, known_or_fresh, e) (unknown_song-AreFine f p size line h good)
        | inr (cert, e) ↦ rw (AreFine, known_or_fresh, e) (used-AreFine f cert (line cert) h good e)
      ]

  short-AreFine :
      (n m : ℕ) (o : Outcome Handled)
      → AreFine w caller From s o
      → AreFine w caller From s (if ltb n m then done (s, []) else o)
  short-AreFine n m o h = elim (Bool-cases (ltb n m)) [
    | inl e ↦ rw (AreFine, e) (tt, λ v. v)
    | inr e ↦ rw (AreFine, e) h
  ]

  -- What follows a word that is taken off.
  fetched-AreFine :
      (n : ℕ) (bs : List ℕ) (k : List ℕ × List ℕ → Outcome Handled)
      → AreFine w caller From s (k (take n bs, drop n bs))
      → AreFine w caller From s (fetch n bs >>= k)
  unfolding fetch
  fetched-AreFine n bs k h = elim (Bool-cases (ltb (length bs) n)) [
    | inl e ↦ rw (AreFine, e) tt
    | inr e ↦ rw (AreFine, e) h
  ]

remove_song-AreFine :
    (w : Setting) (caller : Caller) (c : Command) (s : Songs)
    → AreFine w caller (Holds (removes_song caller c)) s (remove_song w c s)
unfolding remove_song
remove_song-AreFine w caller c s =
    let From = Holds (removes_song caller c) in
    short-AreFine w caller From s c.size 68 _
      (elim (Outcome-cases (Cert.File.get_from_bytes (data_of c) c.size)) [
        | inr (inl e) ↦ rw (AreFine, e) (tt, λ v. v)
        | inr (inr e) ↦ rw (AreFine, e) tt
        | inl (f, e) ↦ elim (Bool-cases (Cert.File.valid_signature w.hmac f)) [
          | inr v ↦ rw (AreFine, e, v) (tt, λ v. v)
          | inl v ↦ rw (AreFine, e, v) (remove_known-AreFine w caller From s f e v)
        ]
      ])

-- What a call of any handler asks for is due, and the certificates stay vouched for.
call_handler-AreFine :
    (w : Setting) (c : Call) (s : Songs) → AreFine w (caller_of c) (Holds c) s (call_handler w c s)
unfolding call_handler add_song add_song2 remove_song add_song_cert add_song_cert2
call_handler-AreFine w (adds_song caller c) s =
    let From = Holds (adds_song caller c) in
    short-AreFine w caller From s c.size 72 _ (
      fetched-AreFine w caller From s 4 (data_of c) _ (
        with_cert-AreFine w caller From s (drop 4 (data_of c)) (c.size - 4) _ (λ f h. h)
          (λ f h good. known-AreFine w caller From s f _ h good)))
call_handler-AreFine w (adds_song2 caller c) s =
    let From = Holds (adds_song2 caller c) in
    short-AreFine w caller From s c.size 72 _ (
      fetched-AreFine w caller From s 4 (data_of c) _ (
        fetched-AreFine w caller From s 4 (drop 4 (data_of c)) _ (
          with_cert-AreFine w caller From s (drop 4 (data_of c)) (c.size - 4) _ (λ f h. h)
            (λ f h good. known-AreFine w caller From s f _ h good))))
call_handler-AreFine w (removes_song caller c) s = remove_song-AreFine w caller c s
call_handler-AreFine w (adds_cert caller c) s =
    let From = Holds (adds_cert caller c) in
    short-AreFine w caller From s c.size 122 _ (
      fetched-AreFine w caller From s 4 (data_of c) _ (
        with_cert-AreFine w caller From s (drop 4 (data_of c)) (c.size - 4) _ (λ f h. h)
          (λ f h good. known_or_fresh-AreFine w caller From s f _ _ _ h good)))
call_handler-AreFine w (adds_cert2 caller c) s =
    let From = Holds (adds_cert2 caller c) in
    short-AreFine w caller From s c.size 122 _ (
      fetched-AreFine w caller From s 4 (data_of c) _ (
        fetched-AreFine w caller From s 4 (drop 4 (data_of c)) _ (
          with_cert-AreFine w caller From s (drop 4 (data_of c)) (c.size - 4) _ (λ f h. h)
            (λ f h good. known_or_fresh-AreFine w caller From s f _ _ _ h good))))

-- A handler that returns asks only for what is due. It adds a file, under the id of a song, where the
-- command holds a certificate of that song with a valid signature, a song that is none of those that
-- are blocked, and the server then has a certificate of the song. The end in the file's certificate is
-- not before the clock, and its date not before the least one, where there is one; both are compared
-- as signed words as they stand in memory, where the code leaves them in the order of the network. It
-- queries an MD5 of the command's certificate for the caller's name, where the caller can identify; it
-- asks for a song's certificate that the server does not have, by a file's certificate that passes the
-- same tests; and it removes a file of a signed certificate whose song is known.
pub call_handler-IsDue :
    (w : Setting) (c : Call) (s s' : Songs) (acts : List Act)
    → call_handler w c s ≡ done (s', acts)
    → All (IsDue w (caller_of c) (Holds c) s s') acts
call_handler-IsDue w c s s' acts e =
    (subst (AreFine w (caller_of c) (Holds c) s) e (call_handler-AreFine w c s)).0

-- The worlds of all calls have one HMAC.
abbrev pub AllHmac : (List ℕ → List ℕ → List ℕ) → List (Setting × Call) → Type 0
AllHmac hmac [] = Unit
AllHmac hmac ((w, c) ∷ cs) = (w.hmac ≡ hmac) × AllHmac hmac cs

abbrev pub Keeps : (List ℕ → List ℕ → List ℕ) → Outcome Songs → Type 0
Keeps hmac (done s) = IsVouched hmac s.song_certificates
Keeps hmac thrown = Unit
Keeps hmac overrun = Unit

-- After any calls that do not end in a fault, every certificate of a song that the server keeps has a
-- valid signature and stands under its own id, where that was so before them. All calls have one HMAC.
pub run-Keeps :
    (hmac : List ℕ → List ℕ → List ℕ) (cs : List (Setting × Call)) (s : Songs)
    → AllHmac hmac cs
    → IsVouched hmac s.song_certificates
    → Keeps hmac (run cs s)
unfolding run
run-Keeps hmac [] s hs v = v
run-Keeps hmac ((w, c) ∷ cs) s (h, hs) v = elim (Outcome-cases (call_handler w c s)) [
  | inr (inl e) ↦ rw (Keeps, e) tt
  | inr (inr e) ↦ rw (Keeps, e) tt
  | inl ((t, acts), e) ↦
      rw (Keeps, e)
        (run-Keeps hmac cs t hs (
          subst (λ k. IsVouched k t.song_certificates) h
            ((subst (AreFine w (caller_of c) (Holds c) s) e (call_handler-AreFine w c s)).1
              (subst (λ k. IsVouched k s.song_certificates) (sym h) v))))
]
