-- ===== src/Share/Examples.antt =====
-- share.cc: a song that is shared with both certificates, and what goes wrong without them.
use napsteresque.Base.{ℕ, false, ◌≡◌, refl, true, some, List, [], ◌∷◌, ◌++◌, ◌^◌, swap, All}
use napsteresque.Cert.{Outcome, done, overrun, repeat, fetch}
use napsteresque.Cert.File.{FileCert, signed_bytes, get_file_type_as_string}
use napsteresque.Cert.Song.{SongCert, SongCertHead}
use napsteresque.Cert
use napsteresque.Command.{Command, emit}
use napsteresque.Hex.{bin_to_hex}
use napsteresque.Share.{
  Setting, Caller, Songs, song_cert, add_file, find_song, data_of, duration_of, outdated,
  before_time, is_blocked, publish, line_by_duration, song_path, song_words, sprintf,
}
use napsteresque.Share.Handlers.{
  adds_song, adds_cert, call_handler, run, add_song_cert, inserted, unknown_song, stopped_song,
  line_with_duration,
}
use napsteresque.Share.Sound.{IsDue, Holds}
use napsteresque.Share.Handled.{call_handler-IsDue, run-Keeps, Keeps}

abbrev zeros : List ℕ → List ℕ → List ℕ
zeros k m = repeat 20 0

abbrev world : Setting
world = record {
  hmac = zeros;
  now = 4;
  min_cert_date = 0;
  stray_text = done;
  stray_delete = done tt;
}

abbrev ann : Caller
ann = record { name = b'a' ∷ b'n' ∷ b'n' ∷ []; can_identify = true }

abbrev file : FileCert
file = record {
  version = 0;
  pad = (0, 0, 0);
  end_date = 5;
  date = 1;
  file_type = 1;
  bitrate = 128;
  frequency = 44100;
  songid = 7;
  md5 = repeat 16 171;
  signature = repeat 20 0;
}

abbrev song : SongCert
song = record {
  head = record {
    version = 0;
    pad = (0, 0, 0);
    end_date = 5;
    date = 1;
    duration = 200;
    songid = 7;
  };
  artist = some (b'A' ∷ []);
  title = some (b'T' ∷ []);
  album = some (b'B' ∷ []);
  composer = some [];
  orchestra = some [];
  soloist = some [];
  signature = repeat 20 0;
}

abbrev file_bytes : List ℕ
file_bytes =
    0
    ∷ 0
    ∷ 0
    ∷ 0
    ∷ 5
    ∷ 0
    ∷ 0
    ∷ 0
    ∷ 1
    ∷ 0
    ∷ 0
    ∷ 0
    ∷ 1
    ∷ 0
    ∷ 0
    ∷ 0
    ∷ 128
    ∷ 0
    ∷ 0
    ∷ 0
    ∷ 68
    ∷ 172
    ∷ 0
    ∷ 0
    ∷ 7
    ∷ 0
    ∷ 0
    ∷ 0
    ∷ 0
    ∷ 0
    ∷ 0
    ∷ 0
    ∷ (repeat 16 171 ++ repeat 20 0)

abbrev song_bytes : List ℕ
song_bytes =
    0
    ∷ 0
    ∷ 0
    ∷ 0
    ∷ 5
    ∷ 0
    ∷ 0
    ∷ 0
    ∷ 1
    ∷ 0
    ∷ 0
    ∷ 0
    ∷ 200
    ∷ 0
    ∷ 0
    ∷ 0
    ∷ 7
    ∷ 0
    ∷ 0
    ∷ 0
    ∷ 0
    ∷ 0
    ∷ 0
    ∷ 0
    ∷ b'A'
    ∷ 0
    ∷ b'T'
    ∷ 0
    ∷ b'B'
    ∷ 0
    ∷ 0
    ∷ 0
    ∷ 0
    ∷ repeat 20 0

-- A file of 1024 bytes with its certificate and the song's.
abbrev both : Command
both = record {
  size = 125;
  code = 0;
  bytes = some (0 ∷ 0 ∷ 4 ∷ 0 ∷ (file_bytes ++ song_bytes));
  offset = some 0;
}

abbrev no_songs : Songs
no_songs = record {
  song_certificates = [];
  blocked_songs = 9 ∷ [];
  num_song_queries = 0;
  num_song_blocks = 0;
  total_song_adds = 0;
}

-- The song's certificate is asked for, since the server has none.
asks-both :
    call_handler world (adds_song ann both) no_songs ≡ done (no_songs, song_cert file.md5 ∷ [])
unfolding call_handler fetch Cert.File.get_from_bytes Cert.File.valid_signature find_song outdated
    before_time is_blocked
asks-both = refl

call_handler-IsDue_example :
    All (IsDue world ann (Holds (adds_song ann both)) no_songs no_songs) (song_cert file.md5 ∷ [])
call_handler-IsDue_example =
    call_handler-IsDue world (adds_song ann both) no_songs no_songs (song_cert file.md5 ∷ [])
      asks-both

-- The song of both certificates is added, and the server keeps the song's.
adds-both :
    (text : List ℕ) × (call_handler world (adds_cert ann both) no_songs
      ≡ done (record (inserted world song no_songs) { total_song_adds = 1 }, add_file text 7 ∷ []))
unfolding call_handler add_song_cert unknown_song stopped_song inserted publish line_with_duration
    line_by_duration fetch Cert.File.get_from_bytes Cert.Song.get_from_bytes
    Cert.File.valid_signature Cert.Song.valid_signature find_song outdated before_time is_blocked
    duration_of song_path song_words sprintf emit get_file_type_as_string bin_to_hex
adds-both = (_, refl)

-- The dates are compared as they are sent: in a world of the year 2001 an end of 127 seconds after 1970
-- passes, since its bytes are those of a word of the year 2037.
abbrev year_2001 : Setting
year_2001 = record world { now = 10 ^ 9 }

outdated-early :
    (outdated year_2001 (swap 4 127) 1 ≡ false) × (before_time 127 year_2001.now ≡ true)
unfolding outdated before_time swap
outdated-early = (refl, refl)

run-Keeps_example : Keeps zeros (run ((world, adds_cert ann both) ∷ []) no_songs)
run-Keeps_example = run-Keeps zeros ((world, adds_cert ann both) ∷ []) no_songs (refl, tt) tt

-- AddSong2 reads the certificate from where the duration stands: of a size, a duration of 200 and a
-- signed certificate, one whose signature is made of the bytes before it fails.
abbrev second : Command
second = record {
  size = 76;
  code = 0;
  bytes = some (0 ∷ 0 ∷ 4 ∷ 0 ∷ 0 ∷ 0 ∷ 0 ∷ 200 ∷ file_bytes);
  offset = some 0;
}

second-first_word :
    fetch 4 (data_of second) ≡ done (0 ∷ 0 ∷ 4 ∷ 0 ∷ [], 0 ∷ 0 ∷ 0 ∷ 200 ∷ file_bytes)
unfolding fetch
second-first_word = refl

-- A bitrate from 1 to 7 divides by 0.
one_bit : duration_of 1024 (record file { bitrate = 1 }) song ≡ overrun
unfolding duration_of
one_bit = refl
