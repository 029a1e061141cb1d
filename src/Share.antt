-- ===== src/Share.antt =====
-- share.cc, whose code stands under `#if 0` at this commit: the handlers by which a client shares songs
-- with certificates. The words of a certificate stay in the order of the network, as the code leaves
-- them. What QuerySend, AddFile and RemoveFile are called with is the `Act` of a handler.
pub mod Handlers
pub mod Sound
pub mod Handled
mod Examples
use napsteresque.Base.{
  ℕ, ◌+◌, ◌-◌, ◌/◌, ◌%◌, ◌^◌, Bool, false, not, ◌&&◌, ◌||◌, Option, none, some, List, [], ◌∷◌, ◌++◌,
  ◌==◌, ltb, if◌then◌else◌, length, drop, word_of, swap,
}
use napsteresque.Cert.{Outcome, done, thrown, overrun, ◌>>=◌, fetch}
use napsteresque.Cert.File.{FileCert, get_file_type_as_string}
use napsteresque.Cert.Song.{SongCert}
use napsteresque.Cert
use napsteresque.Command.{Command, emit, print_long}
use napsteresque.Hex.{bin_to_hex}

-- The client that calls: its name, and `can(Client::CAN_IDENTIFY)`.
pub record Caller : Type 0 where
  pub name : List ℕ
  pub can_identify : Bool

-- An entry of SongCertificates: the id, the certificate and when it was last used.
pub record CertEntry : Type 0 where
  pub songid : ℕ
  pub cert : SongCert
  pub used : ℕ

pub record Songs : Type 0 where
  pub song_certificates : List CertEntry
  pub blocked_songs : List ℕ
  pub num_song_queries : ℕ
  pub num_song_blocks : ℕ
  pub total_song_adds : ℕ

-- What a handler asks of the others: a query of an MD5 for a user, the certificate of a song from the
-- caller, and to add a file, identified as a song, or to remove one.
pub data Act : Type 0 where
  queried : List ℕ → List ℕ → Act
  song_cert : List ℕ → Act
  add_file : List ℕ → ℕ → Act
  remove_file : List ℕ → Act

abbrev pub Handled : Type 0
Handled = Songs × List Act

-- The order of `time_t`, which is signed: the upper half of the words stands before the lower one.
unfoldable pub before_time : ℕ → ℕ → Bool
before_time a b = ltb ((a + 2 ^ 31) % 2 ^ 32) ((b + 2 ^ 31) % 2 ^ 32)

-- `SongCertificates.find(songid)`
unfoldable pub find_song : ℕ → List CertEntry → Option SongCert
find_song i [] = none
find_song i (e ∷ es) = if e.songid == i then some e.cert else find_song i es

-- `(*sci).second.second = now`
unfoldable pub touch : ℕ → ℕ → List CertEntry → List CertEntry
touch i now [] = []
touch i now (e ∷ es) =
    let rest = touch i now es in if e.songid == i then record e { used = now } ∷ es else e ∷ rest

unfoldable pub is_blocked : ℕ → List ℕ → Bool
is_blocked i [] = false
is_blocked i (x ∷ xs) = (x == i) || is_blocked i xs

-- PACKET_MAXBUF
abbrev pub packet_maxbuf : ℕ
packet_maxbuf = 16384

-- `sprintf` into `addfile_str`.
unfoldable pub sprintf : List ℕ → Outcome (List ℕ)
sprintf s = if ltb (length s) packet_maxbuf then done s else overrun

-- `%s` of a pointer.
abbrev pub shown : Option (List ℕ) → Outcome (List ℕ)
shown none = overrun
shown (some s) = done s

-- `"%u %s:\\%s - %s.%s"` in quotes, of the bitrate as it is printed.
unfoldable pub song_path : List ℕ → FileCert → SongCert → Outcome (List ℕ)
song_path bitrate f s = do
  album ← shown s.album
  artist ← shown s.artist
  title ← shown s.title
  done (
      b'"'
      ∷ (bitrate
          ++ b' '
            ∷ (album
                ++ b':'
                  ∷ 92
                  ∷ (artist
                      ++ b' '
                        ∷ b'-'
                        ∷ b' '
                        ∷ (title ++ b'.' ∷ (get_file_type_as_string f ++ b'"' ∷ []))))))

-- `" %s %u %u %u %u"`
unfoldable pub song_words : List ℕ → List ℕ → FileCert → ℕ → List ℕ
song_words md5 size f duration =
    b' '
    ∷ (md5
        ++ b' '
          ∷ (size
              ++ b' '
                ∷ (emit 10 f.bitrate []
                    ++ b' ' ∷ (emit 10 f.frequency [] ++ b' ' ∷ emit 10 duration []))))

-- `file_size / 1024` of a signed word, as the unsigned word that the next division makes of it.
unfoldable pub kilobytes : ℕ → ℕ
kilobytes size =
    if ltb size (2 ^ 31) then size / 1024 else (2 ^ 32 - (2 ^ 32 - size) / 1024) % 2 ^ 32

-- `fcert.bitrate ? (file_size / 1024) / (fcert.bitrate / 8) : scert->head.duration`; a division by 0 is
-- the value `overrun`.
unfoldable pub duration_of : ℕ → FileCert → SongCert → Outcome ℕ
unfolding kilobytes
duration_of size f s =
    if f.bitrate == 0
    then done s.head.duration
    else if f.bitrate / 8 == 0
    then overrun
    else done (kilobytes size / (f.bitrate / 8))

-- What the data of a command holds.
abbrev pub data_of : Command → List ℕ
data_of c = elim c.bytes [ none ↦ [] | some d ↦ d ]

-- The HMAC of OpenSSL, the clock, `MinCertDate`, and two things that C leaves undefined and that may
-- end in any way: what is read through a pointer that nothing set (`charmd5`) after a text was written
-- through it, and a `delete` of that pointer or of an array of the stack.
pub record Setting : Type 0 where
  pub hmac : List ℕ → List ℕ → List ℕ
  pub now : ℕ
  pub min_cert_date : ℕ
  pub stray_text : List ℕ → Outcome (List ℕ)
  pub stray_delete : Outcome (Unit {0})

module _ (w : Setting) where
  -- `if (caller->can(Client::CAN_IDENTIFY))`, and what it guards.
  unfoldable pub query : Caller → List ℕ → Songs → Handled
  query caller md5 s =
      if caller.can_identify
      then (record s { num_song_queries = s.num_song_queries + 1 }, queried md5 caller.name ∷ [])
      else (s, [])

  -- The two tests of the dates.
  unfoldable pub outdated : ℕ → ℕ → Bool
  outdated end_date date =
      before_time end_date w.now || (not (w.min_cert_date == 0) && before_time date w.min_cert_date)

  -- The tests of a file's certificate, with what a handler that they stop has done.
  unfoldable pub stopped_file : Caller → FileCert → Songs → Option Handled
  unfolding query outdated is_blocked
  stopped_file caller f s =
      if not (Cert.File.valid_signature w.hmac f)
      then some (query caller f.md5 s)
      else if outdated f.end_date f.date
      then some (query caller f.md5 s)
      else if is_blocked f.songid s.blocked_songs
      then some (record s { num_song_blocks = s.num_song_blocks + 1 }, [])
      else none

  -- `getFromBytes` of the file's certificate, with the exception caught, and the tests.
  unfoldable pub with_cert :
      Caller → List ℕ → ℕ → Songs → (FileCert → Outcome Handled) → Outcome Handled
  unfolding stopped_file
  with_cert caller p size s next = elim (Cert.File.get_from_bytes p size) [
    | thrown ↦ done (s, [])
    | overrun ↦ overrun
    | done f ↦ elim (stopped_file caller f s) [ some h ↦ done h | none ↦ next f ]
  ]

  -- `TotalSongAdds++`, and AddFile of the text.
  unfoldable pub publish : FileCert → Outcome (List ℕ) → Songs → Outcome Handled
  publish f line s = do
    text ← line
    done (record s { total_song_adds = s.total_song_adds + 1 }, add_file text f.songid ∷ [])

  -- The text of AddSong: the bitrate is printed with its sign, and `delete[]` is of an array.
  unfoldable pub line_by_size : ℕ → FileCert → SongCert → Outcome (List ℕ)
  line_by_size size f s = do
    duration ← duration_of size f s
    path ← song_path (print_long f.bitrate) f s
    text ← sprintf (path ++ song_words (bin_to_hex f.md5) (emit 10 size []) f duration)
    freed ← w.stray_delete
    done text

  -- Those of the other handlers: `bin_to_hex` writes to a pointer that nothing set. The size is printed
  -- with its sign (`%d`) by AddSong2.
  unfoldable pub line_by_duration : List ℕ → Outcome ℕ → FileCert → SongCert → Outcome (List ℕ)
  line_by_duration size duration f s = do
    md5 ← w.stray_text (bin_to_hex f.md5)
    seconds ← duration
    path ← song_path (emit 10 f.bitrate []) f s
    text ← sprintf (path ++ song_words md5 size f seconds)
    freed ← w.stray_delete
    done text
