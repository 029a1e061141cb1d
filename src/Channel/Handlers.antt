-- ===== src/Channel/Handlers.antt =====
-- channel.cc, the handlers under `#ifdef WORKS`, and ChannelList of channel.hh. What this commit no
-- longer has (levels, members, links, and the text behind an argument) is the parameter `House`.
use napsteresque.Base.{
  ℕ, ◌+◌, Bool, true, false, not, ◌&&◌, ◌||◌, Option, none, some, List, [], ◌∷◌, ◌++◌, map, ltb,
  if◌then◌else◌, null,
}
use napsteresque.Ignore.{Name, same_name}
use napsteresque.Cert.{Outcome, done, overrun, ◌>>=◌}
use napsteresque.Args.{strchr}
use napsteresque.Command.{Command, Arg, integer, string}
use napsteresque.Command.Unpack.{string_tag, int_tag}
use napsteresque.Transfer.{two_strings, unpacked}

-- User::Level
abbrev pub moderator : ℕ
moderator = 2

abbrev pub administrator : ℕ
administrator = 3

abbrev pub elite : ℕ
elite = 4

pub record Speaker : Type 0 where
  pub name : Name
  pub level : ℕ
  pub muzzled : Bool
  pub cloaked : Bool

pub record Room : Type 0 where
  pub title : Name
  pub topic : Option Name
  pub required_level : ℕ

pub record Chat : Type 0 where
  pub channels : List Room
  pub chat_messages : ℕ
  pub instant_messages : ℕ

pub record House : Type 0 where
  pub require_level : Speaker → ℕ → Bool
  pub is_on : Speaker → Name → Bool
  pub adds : Speaker → Name → Bool
  pub removes : Speaker → Name → Bool
  pub forgets : Speaker → Name → Bool
  pub users : Name → List Name
  pub allow_new_channels : Bool
  pub bad_word : Name → Bool
  pub new_level : ℕ
  pub local_user : Name → Option Speaker
  pub remote_user : Name → Option Speaker
  pub visible_to : Speaker → Speaker → Bool
  pub ignoring : Speaker → Speaker → Bool
  pub link_allow_im : Bool
  pub reader : Command → Option Name

-- What a handler does to others: `refused` tells the caller why it does nothing.
pub data Saying : Type 0 where
  entry entry2 user_line : Name → Saying
  listed list_end list2_end userlist_end refused : Saying
  enlisted delisted added removed remote_join remote_part : Name → Saying
  chat emote remote_chat topic_told clearing cleared instant remote_instant : Name → Name → Saying

abbrev pub Heard : Type 0
Heard = Chat × List Saying

-- `ChannelList::find`
unfoldable pub find_room : Name → List Room → Option Room
find_room n [] = none
find_room n (r ∷ rs) = if same_name n r.title then some r else find_room n rs

-- The first channel of a name, changed through the pointer to it.
unfoldable pub change_room : Name → (Room → Room) → List Room → List Room
change_room n f [] = []
change_room n f (r ∷ rs) =
    let rest = change_room n f rs in if same_name n r.title then f r ∷ rs else r ∷ rest

abbrev pub one_of : List (Option Arg) → Outcome Name
one_of (some (string a) ∷ vs) = done a
one_of _ = overrun

unfoldable pub one_string : Command → Outcome Name
one_string c = unpacked (string_tag ∷ []) c >>= one_of

abbrev pub word_behind : List (Option Arg) → Outcome (Name × ℕ)
word_behind (some (string a) ∷ some (integer x) ∷ vs) = done (a, x)
word_behind _ = overrun

-- `strchr(name, ' ')`
abbrev pub has_blank : Name → Bool
has_blank n = elim (strchr b' ' n) [ none ↦ false | some r ↦ true ]

module _ (h : House) where
  -- `SendChannelListing`
  unfoldable pub send_listing : Chat → Heard
  send_listing s = (s, map (λ (r : Room). entry r.title) s.channels ++ list_end ∷ [])

  -- The end of `JoinChannel`, for a channel that is found or made.
  unfoldable pub enter : Speaker → Name → Chat → Heard
  enter caller t s =
      if h.adds caller t
      then (s, enlisted t ∷ added t ∷ remote_join t ∷ [])
      else (s, enlisted t ∷ delisted t ∷ refused ∷ [])

  unfoldable pub join_named : Speaker → Name → Chat → Heard
  unfolding enter find_room
  join_named caller n s = elim (find_room n s.channels) [
    | some r ↦ if h.require_level caller r.required_level then enter caller r.title s else (s, [])
    | none ↦
        let room : Room = record { title = n; topic = none; required_level = h.new_level } in
        if not h.allow_new_channels
        then (s, refused ∷ [])
        else if ltb caller.level moderator && (h.bad_word n || has_blank n)
        then (s, refused ∷ [])
        else enter caller n (record s { channels = room ∷ s.channels })
  ]

  -- `JoinChannel`
  unfoldable pub join_channel : Speaker → Command → Chat → Outcome Heard
  join_channel caller c s =
      if caller.muzzled then done (s, []) else (one_string c >>= λ n. done (join_named caller n s))

  -- Both forms of `PartChannel`.
  unfoldable pub part_named : Speaker → Name → Chat → Heard
  unfolding find_room
  part_named caller n s = elim (find_room n s.channels) [
    | none ↦ (s, refused ∷ [])
    | some r ↦
        if not (h.removes caller r.title)
        then (s, [])
        else if not (h.forgets caller r.title)
        then (s, removed r.title ∷ [])
        else (s, removed r.title ∷ delisted r.title ∷ remote_part r.title ∷ [])
  ]

  unfoldable pub part_channel : Speaker → Command → Chat → Outcome Heard
  part_channel caller c s = one_string c >>= λ n. done (part_named caller n s)

  -- A message to a channel that the caller is on.
  unfoldable pub speak : Speaker → Name → (Name → List Saying) → Chat → Heard
  unfolding find_room
  speak caller n sayings s = elim (find_room n s.channels) [
    | none ↦ (s, refused ∷ [])
    | some r ↦
        if not (h.is_on caller r.title)
        then (s, refused ∷ [])
        else (record s { chat_messages = s.chat_messages + 1 }, sayings r.title)
  ]

  -- `SendChannelMessage`
  unfoldable pub send_message : Speaker → Command → Chat → Outcome Heard
  unfolding speak
  send_message caller c s = if caller.muzzled then done (s, refused ∷ []) else do
    n ← one_string c
    elim (h.reader c) [
      | none ↦ done (s, [])
      | some text ↦
          if null text
          then done (s, [])
          else done (speak caller n (λ t. chat t text ∷ remote_chat t text ∷ []) s)
    ]

  -- `SendChannelEmote`
  unfoldable pub send_emote : Speaker → Command → Chat → Outcome Heard
  unfolding speak
  send_emote caller c s =
      if caller.muzzled
      then done (s, refused ∷ [])
      else if caller.cloaked && ltb caller.level elite
      then done (s, refused ∷ [])
      else (two_strings c >>= λ ((n, text) : Name × Name).
          done (speak caller n (λ t. emote t text ∷ []) s))

  -- `SetChannelTopic`
  unfoldable pub set_topic : Speaker → Command → Chat → Outcome Heard
  unfolding find_room change_room
  set_topic caller c s = if not (h.require_level caller elite) then done (s, []) else do
    (n, text) ← two_strings c
    elim (find_room n s.channels) [
      | none ↦ done (s, refused ∷ [])
      | some r ↦ done (
        record s {
          channels = change_room n (λ (q : Room). record q { topic = some text }) s.channels;
        },
        topic_told r.title text ∷ [],
      )
    ]

  -- `ChannelSetLevel`
  unfoldable pub set_level : Speaker → Command → Chat → Outcome Heard
  unfolding change_room
  set_level caller c s = if not (h.require_level caller elite) then done (s, []) else do
    vs ← unpacked (string_tag ∷ int_tag ∷ []) c
    (n, level) ← word_behind vs
    done (
      record s {
        channels = change_room n (λ (q : Room). record q { required_level = level }) s.channels;
      },
      [],
    )
