-- ===== src/Transfer/Examples.antt =====
-- transfer.cc: three users of one server, the third of whom ignores the first.
use napsteresque.Base.{
  ℕ, ◌+◌, ◌≡◌, refl, true, false, ◌&&◌, none, some, [], ◌∷◌, ◌==◌, if◌then◌else◌,
}
use napsteresque.Ignore.{Name, same_name}
use napsteresque.Command.{Command}
use napsteresque.Transfer.{World, here, dl_not_found, download_delayed, delay_to, polite, linked}
use napsteresque.Transfer.Manners.{requests, handle, AllHeed, handle-AllHeed}

abbrev name : ℕ → Name
name n = b'u' ∷ (b'0' + n) ∷ []

abbrev small_world : World
small_world = record {
  local_user =
      λ n. (if same_name n (name 2) then some 2 else if same_name n (name 3) then some 3 else none);
  remote_user = λ n. none;
  ignoring = λ u v. (u == 3) && (v == 1);
  visible_to = λ u v. true;
  find_file = λ u n. if u == 1 then some (record { id = []; size = 4000 }) else none;
  any_resources = λ u. true;
  name_of = name;
  ip = λ u. u;
  data_port = λ u. 6699;
  line_speed = λ u. 3;
  code_identifier = λ u. [];
  public_key = λ u. some (u ∷ []);
  link_allow_downloads = false;
  allow_downloading = true;
}

abbrev song : Name
song = b's' ∷ []

-- A request in the text form, of user 3 and a file.
abbrev request : Command
request = record {
  size = 4;
  code = 203;
  bytes = some (b'u' ∷ b'3' ∷ b' ' ∷ b's' ∷ 0 ∷ []);
  offset = some 0;
}

handle-AllHeed_example : AllHeed small_world 1 (handle small_world requests 1 request)
handle-AllHeed_example = handle-AllHeed small_world requests 1 request

-- Told of a delay for a user who is not here, the caller is sent its own name.
delayed-dl_not_found :
    delay_to small_world 1 (name 9) song 2 ≡ (here 1, dl_not_found (name 1) song) ∷ []
unfolding delay_to polite linked same_name
delayed-dl_not_found = refl

-- User 3, who ignores user 1, is told nothing of the delay.
delayed-ignored : delay_to small_world 1 (name 3) song 2 ≡ (here 1, dl_not_found (name 1) song) ∷ []
unfolding delay_to polite linked same_name
delayed-ignored = refl

delayed-told :
    delay_to small_world 1 (name 2) song 2 ≡ (here 2, download_delayed (name 1) song 4000 2) ∷ []
unfolding delay_to polite linked same_name
delayed-told = refl
