-- ===== src/Cert/Examples.antt =====
-- filecert.cc: certificates of one file and of one song, with a digest in place of HMAC.
use napsteresque.Base.{ℕ, zero, suc, ◌≡◌, refl, true, List, [], ◌∷◌, length, All, arith}
use napsteresque.Cert.{done, repeat}
use napsteresque.Cert.Bytes.{IsChar}
use napsteresque.Cert.File
use napsteresque.Cert.FileTrip.{IsCert, get_from_bytes-copied}
use napsteresque.Cert.Song
use napsteresque.Cert.Strings.{IsHead, HasStrings}
use napsteresque.Cert.SongTrip.{received, get_from_bytes-copy_to_bytes}

-- Twenty bytes out of the sizes of the key and the message.
abbrev digest : List ℕ → List ℕ → List ℕ
digest k m = length k ∷ length m ∷ repeat 18 0

length-digest : (k m : List ℕ) → length (digest k m) ≡ 20
length-digest k m = refl

abbrev file_cert : File.FileCert
file_cert = record File.new {
  version = 1;
  end_date = 998000000;
  date = 997000000;
  file_type = 1;
  bitrate = 128;
  frequency = 44100;
  songid = 18446744073709551615;
  md5 = repeat 16 7;
}

file_cert-IsCert : IsCert file_cert
file_cert-IsCert = record {
  end_date = omega arith;
  date = omega arith;
  file_type = omega arith;
  bitrate = omega arith;
  frequency = omega arith;
  songid = omega arith;
  md5 = refl;
}

get_from_bytes-copied_example :
    (out : List ℕ) × (File.copy_to_bytes digest file_cert (repeat 70 9) 70
      ≡ done (File.sign digest file_cert, out))
    × (length out ≡ length (repeat 70 9))
    × (File.get_from_bytes out 70 ≡ done (File.sign digest file_cert))
    × (File.valid_signature digest (File.sign digest file_cert) ≡ true)
get_from_bytes-copied_example =
    get_from_bytes-copied digest file_cert (repeat 70 9) 70 length-digest file_cert-IsCert
      (omega arith) (omega arith)

abbrev song_head : Song.SongCertHead
song_head = record {
  version = 1;
  pad = (0, 0, 0);
  end_date = 998000000;
  date = 997000000;
  duration = 240;
  songid = 18446744073709551615;
}

-- Three names are set; the others are NULL.
abbrev song_cert : Song.SongCert
song_cert = Song.set_soloist [] (
    Song.set_title (b't' ∷ [])
      (Song.set_artist (b'a' ∷ b'b' ∷ []) (record Song.new { head = song_head })))

song_cert-IsHead : IsHead song_cert.head
song_cert-IsHead = record {
  end_date = omega arith;
  date = omega arith;
  duration = omega arith;
  songid = omega arith;
}

song_cert-HasStrings : HasStrings song_cert
song_cert-HasStrings = record {
  artist = (refl, (refl, tt));
  title = (refl, tt);
  album = tt;
  composer = tt;
  orchestra = tt;
  soloist = tt;
}

get_from_bytes-copy_to_bytes_example :
    (out : List ℕ) × (Song.copy_to_bytes digest song_cert (repeat 60 9) 60
      ≡ done (Song.with_version_0 song_cert, out))
    × (length out ≡ length (repeat 60 9))
    × (Song.get_from_bytes out 60 ≡ done (received digest song_cert))
    × (Song.valid_signature digest (received digest song_cert) ≡ true)
get_from_bytes-copy_to_bytes_example =
    get_from_bytes-copy_to_bytes digest length-digest song_cert song_cert-IsHead
      song_cert-HasStrings (repeat 60 9) 60 (omega arith) (omega arith) (omega arith)

repeat-All : (n : ℕ) → All IsChar (repeat n 65)
repeat-All zero = tt
repeat-All (suc n) = (refl, repeat-All n)
