-- ===== src/Share/Handlers.antt =====
-- share.cc: AddSong, AddSong2, RemoveSong, AddSongCert and AddSongCert2.
use napsteresque.Base.{
  ℕ, ◌-◌, not, Option, none, some, List, [], ◌∷◌, ◌==◌, ltb, if◌then◌else◌, drop, word_of, swap,
}
use napsteresque.Cert.{Outcome, done, thrown, overrun, ◌>>=◌, fetch}
use napsteresque.Cert.File.{FileCert}
use napsteresque.Cert.Song.{SongCert, get_from_bytes, valid_signature}
use napsteresque.Cert
use napsteresque.Command.{Command, emit, print_long}
use napsteresque.Share.{
  Setting, Caller, Songs, song_cert, remove_file, Handled, find_song, touch, sprintf, song_path,
  duration_of, data_of, query, outdated, with_cert, publish, line_by_size, line_by_duration,
}

module _ (w : Setting) where
  -- The end of AddSong and of AddSong2: the song's certificate is asked for, or it is used.
  unfoldable pub known : FileCert → (SongCert → Outcome (List ℕ)) → Songs → Outcome Handled
  unfolding find_song touch publish
  known f line s = elim (find_song f.songid s.song_certificates) [
    | none ↦ done (s, song_cert f.md5 ∷ [])
    | some cert ↦
        publish w f (line cert)
          (record s { song_certificates = touch f.songid w.now s.song_certificates })
  ]

  unfoldable pub add_song : Caller → Command → Songs → Outcome Handled
  unfolding with_cert known fetch
  add_song caller c s = if ltb c.size 72 then done (s, []) else do
    (size, p) ← fetch 4 (data_of c)
    with_cert w caller p (c.size - 4) s (λ f. known f (line_by_size w (swap 4 (word_of size)) f) s)

  -- AddSong2: `file_size` becomes the duration's word, which stays as it was; the certificate is read
  -- from where the duration stands.
  unfoldable pub add_song2 : Caller → Command → Songs → Outcome Handled
  unfolding with_cert known fetch
  add_song2 caller c s = if ltb c.size 72 then done (s, []) else do
    (size, p) ← fetch 4 (data_of c)
    (duration, q) ← fetch 4 p
    let size = print_long (swap 4 (word_of duration))
    with_cert w caller p (c.size - 4) s
        (λ f. known f (line_by_duration w size (done (word_of duration)) f) s)

  -- The end of RemoveSong.
  unfoldable pub remove_known : FileCert → Songs → Outcome Handled
  unfolding find_song
  remove_known f s = elim (find_song f.songid s.song_certificates) [
    | none ↦ done (s, [])
    | some cert ↦ do
      text ← song_path (emit 10 f.bitrate []) f cert
      line ← sprintf text
      done (s, remove_file line ∷ [])
  ]

  unfoldable pub remove_song : Command → Songs → Outcome Handled
  unfolding remove_known
  remove_song c s =
      if ltb c.size 68 then done (s, []) else elim (Cert.File.get_from_bytes (data_of c) c.size) [
        | thrown ↦ done (s, [])
        | overrun ↦ overrun
        | done f ↦
            if not (Cert.File.valid_signature w.hmac f) then done (s, []) else remove_known f s
      ]

  -- A song's certificate that is not known yet: the tests, with what a handler that they stop has done.
  unfoldable pub stopped_song : Caller → FileCert → SongCert → Songs → Option Handled
  unfolding query outdated
  stopped_song caller f cert s =
      if not (cert.head.songid == f.songid)
      then some (s, [])
      else if not (valid_signature w.hmac cert)
      then some (query w caller f.md5 s)
      else if outdated w cert.head.end_date cert.head.date
      then some (query w caller f.md5 s)
      else none

  -- `SongCertificates.insert`, of an id that is not there.
  unfoldable pub inserted : SongCert → Songs → Songs
  inserted cert s = record s {
    song_certificates =
        record { songid = cert.head.songid; cert = cert; used = w.now } ∷ s.song_certificates;
  }

  -- A song's certificate from `p`, entered and used.
  unfoldable pub unknown_song :
      Caller → FileCert → List ℕ → ℕ → (SongCert → Outcome (List ℕ)) → Songs → Outcome Handled
  unfolding stopped_song inserted publish
  unknown_song caller f p size line s = elim (get_from_bytes p size) [
    | thrown ↦ done (s, [])
    | overrun ↦ overrun
    | done cert ↦ elim (stopped_song caller f cert s) [
      | some h ↦ done h
      | none ↦ publish w f (line cert) (inserted cert s)
    ]
  ]

  -- The end of AddSongCert and AddSongCert2.
  unfoldable pub known_or_fresh :
      Caller → FileCert → List ℕ → ℕ → (SongCert → Outcome (List ℕ)) → Songs → Outcome Handled
  unfolding find_song touch publish unknown_song
  known_or_fresh caller f p size line s = elim (find_song f.songid s.song_certificates) [
    | none ↦ unknown_song caller f p size line s
    | some cert ↦
        publish w f (line cert)
          (record s { song_certificates = touch f.songid w.now s.song_certificates })
  ]

  -- The duration of AddSongCert is that of AddSong.
  unfoldable pub line_with_duration : ℕ → FileCert → SongCert → Outcome (List ℕ)
  line_with_duration size f cert =
      line_by_duration w (emit 10 size []) (duration_of size f cert) f cert

  unfoldable pub add_song_cert : Caller → Command → Songs → Outcome Handled
  unfolding with_cert known_or_fresh fetch
  add_song_cert caller c s = if ltb c.size 122 then done (s, []) else do
    (size, p) ← fetch 4 (data_of c)
    with_cert w caller p (c.size - 4) s (λ f.
        known_or_fresh caller f (drop 68 p) (c.size - 4 - 68)
          (line_with_duration (swap 4 (word_of size)) f) s)

  unfoldable pub add_song_cert2 : Caller → Command → Songs → Outcome Handled
  unfolding with_cert known_or_fresh fetch
  add_song_cert2 caller c s = if ltb c.size 122 then done (s, []) else do
    (size, p) ← fetch 4 (data_of c)
    (duration, q) ← fetch 4 p
    let size = emit 10 (swap 4 (word_of duration)) []
    with_cert w caller p (c.size - 4) s (λ f.
        known_or_fresh caller f (drop 68 p) (c.size - 4 - 68)
          (line_by_duration w size (done (word_of duration)) f) s)

-- A call of a handler.
pub data Call : Type 0 where
  adds_song adds_song2 removes_song adds_cert adds_cert2 : Caller → Command → Call

unfoldable pub call_handler : Setting → Call → Songs → Outcome Handled
unfolding add_song add_song2 remove_song add_song_cert add_song_cert2
call_handler w (adds_song caller c) s = add_song w caller c s
call_handler w (adds_song2 caller c) s = add_song2 w caller c s
call_handler w (removes_song caller c) s = remove_song w c s
call_handler w (adds_cert caller c) s = add_song_cert w caller c s
call_handler w (adds_cert2 caller c) s = add_song_cert2 w caller c s

-- Calls that come one after the other, each in its world; the program ends with a fault.
unfoldable pub run : List (Setting × Call) → Songs → Outcome Songs
unfolding call_handler
run [] s = done s
run ((w, c) ∷ cs) s = call_handler w c s >>= λ (h : Handled). run cs h.0
