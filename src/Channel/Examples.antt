-- ===== src/Channel/Examples.antt =====
-- channel.cc: a channel with one member.
use napsteresque.Base.{◌≡◌, refl, true, false, none, some, [], ◌∷◌, if◌then◌else◌, leb}
use napsteresque.Ignore.{same_name}
use napsteresque.Channel.{User, Channel, insert, remove}
use napsteresque.Cert.{done}
use napsteresque.Command.{Command}
use napsteresque.Channel.Handlers.{
  House, Speaker, Chat, one_string, chat, remote_chat, refused, instant,
}
use napsteresque.Transfer.{unpacked}
use napsteresque.Channel.Talk.{obey, says, tell_local}

abbrev bob : User
bob = record { id = 1; name = b'b' ∷ b'o' ∷ b'b' ∷ [] }

abbrev amy : User
amy = record { id = 2; name = b'a' ∷ b'm' ∷ b'y' ∷ [] }

abbrev music : Channel
music = record { title = some (b'm' ∷ []); topic = none; members = bob ∷ [] }

-- Of a new user `insert` enters her, and throws; with no name of the channel it faults.
insert-amy :
    (insert amy music
      ≡ some (record { threw = true; channel = record music { members = bob ∷ amy ∷ [] } }))
    × (insert amy (record music { title = none }) ≡ none)
unfolding insert same_name
insert-amy = (refl, refl)

remove-bob :
    remove bob music ≡ some (record { threw = true; channel = record music { members = [] } })
unfolding remove
remove-bob = refl

abbrev carl : Speaker
carl = record { name = b'c' ∷ []; level = 1; muzzled = false; cloaked = false }

abbrev dora : Speaker
dora = record { name = b'd' ∷ []; level = 1; muzzled = false; cloaked = false }

-- A house where all are in all channels, and only the user of the name d is here and sees nobody.
abbrev house : House
house = record {
  require_level = λ u l. leb l u.level;
  is_on = λ u t. true;
  adds = λ u t. true;
  removes = λ u t. true;
  forgets = λ u t. true;
  users = λ t. [];
  allow_new_channels = true;
  bad_word = λ n. false;
  new_level = 0;
  local_user = λ n. if same_name n (b'd' ∷ []) then some dora else none;
  remote_user = λ n. none;
  visible_to = λ u v. same_name u.name (b'd' ∷ []);
  ignoring = λ u v. false;
  link_allow_im = true;
  reader = λ c. some (b'h' ∷ b'i' ∷ []);
}

abbrev rooms : Chat
rooms = record {
  channels = record { title = b'm' ∷ []; topic = none; required_level = 0 } ∷ [];
  chat_messages = 0;
  instant_messages = 0;
}

abbrev to_m : Command
to_m = record {
  size = 4;
  code = 402;
  bytes = some (b'm' ∷ b' ' ∷ b'h' ∷ b'i' ∷ 0 ∷ []);
  offset = some 0;
}

m-chat :
    obey house says carl to_m rooms
    ≡ done (
      record rooms { chat_messages = 1 },
      chat (b'm' ∷ []) (b'h' ∷ b'i' ∷ []) ∷ remote_chat (b'm' ∷ []) (b'h' ∷ b'i' ∷ []) ∷ [],
    )
unfolding obey one_string unpacked same_name
m-chat = refl

-- A user who does not see the sender gets the message of which the sender is told that it is not sent.
told_both :
    (tell_local house carl dora (b'h' ∷ []) rooms).1
    ≡ refused ∷ instant (b'd' ∷ []) (b'h' ∷ []) ∷ []
unfolding tell_local same_name
told_both = refl
