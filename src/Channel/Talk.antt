-- ===== src/Channel/Talk.antt =====
-- channel.cc, the handlers under `#ifdef WORKS`: lists, private messages, and what other servers tell.
use napsteresque.Base.{
  ◌+◌, not, ◌&&◌, none, some, List, [], ◌∷◌, ◌++◌, ◌==◌, map, ltb, if◌then◌else◌, null, ◌||◌,
}
use napsteresque.Ignore.{Name}
use napsteresque.Cert.{Outcome, done, ◌>>=◌}
use napsteresque.Command.{Command}
use napsteresque.Command.Unpack.{string_tag}
use napsteresque.Transfer.{two_strings, two_of, behind_two, unpacked}
use napsteresque.Channel.Handlers.{
  House, Speaker, Room, Chat, Heard, Saying, entry2, user_line, list2_end, userlist_end, refused,
  added, removed, chat, emote, clearing, cleared, instant, remote_instant, moderator, administrator,
  find_room, one_of, one_string, send_listing, join_channel, part_channel, send_message, send_emote,
  set_topic, set_level,
}

module _ (h : House) where
  -- `ChannelInfo`
  unfoldable pub channel_info : Command → Chat → Outcome Heard
  unfolding find_room
  channel_info c s =
      if c.size == 0
      then done (s, map (λ (r : Room). entry2 r.title) s.channels ++ list2_end ∷ [])
      else (one_string c >>= λ n. done (elim (find_room n s.channels) [
        | none ↦ (s, [])
        | some r ↦ (s, entry2 r.title ∷ list2_end ∷ [])
      ]))

  -- `ChannelUserList`
  unfoldable pub user_list : Command → Chat → Outcome Heard
  unfolding find_room
  user_list c s = one_string c >>= λ n. done (elim (find_room n s.channels) [
    | none ↦ (s, [])
    | some r ↦ (s, map user_line (h.users r.title) ++ userlist_end ∷ [])
  ])

  -- `ClearChannel`
  unfoldable pub clear_channel : Speaker → Command → Chat → Outcome Heard
  unfolding find_room
  clear_channel caller c s = if not (h.require_level caller administrator) then done (s, []) else do
    (n, reason) ← two_strings c
    done (elim (find_room n s.channels) [
      | none ↦ (s, [])
      | some r ↦ (s, clearing n reason ∷ cleared r.title reason ∷ [])
    ])

  -- What a user here is told. That the user does not see the caller is told to the caller, and stops
  -- nothing.
  unfoldable pub tell_local : Speaker → Speaker → Name → Chat → Heard
  tell_local caller lc text s =
      let unseen = if not (h.visible_to caller lc) then refused ∷ [] else [] in
      if not (h.visible_to lc caller)
        || (caller.muzzled && ltb lc.level moderator)
        || h.ignoring lc caller
        || h.ignoring caller lc
      then (s, unseen ++ refused ∷ [])
      else (
        record s { instant_messages = s.instant_messages + 1 },
        unseen ++ instant lc.name text ∷ [],
      )

  unfoldable pub tell_remote : Speaker → Speaker → Name → Chat → Heard
  tell_remote caller rc text s =
      if (caller.muzzled && ltb rc.level moderator) || h.ignoring caller rc
      then (s, refused ∷ [])
      else (
        record s { instant_messages = s.instant_messages + 1 },
        remote_instant rc.name text ∷ [],
      )

  unfoldable pub tell_named : Speaker → Name → Name → Chat → Heard
  unfolding tell_local tell_remote
  tell_named caller n text s = elim (h.local_user n) [
    | some lc ↦ tell_local caller lc text s
    | none ↦ elim (if h.link_allow_im then h.remote_user n else none) [
      | some rc ↦ tell_remote caller rc text s
      | none ↦ (s, refused ∷ [])
    ]
  ]

  -- `SendMessage`
  unfoldable pub send_private : Speaker → Command → Chat → Outcome Heard
  unfolding tell_named
  send_private caller c s = do
    n ← one_string c
    elim (h.reader c) [
      | none ↦ done (s, [])
      | some text ↦ if null text then done (s, []) else done (tell_named caller n text s)
    ]

  -- The four handlers of what another server tells of a user and a channel.
  unfoldable pub remote_named : Name → Name → (Name → List Saying) → Chat → Heard
  unfolding find_room
  remote_named user n sayings s = elim (h.remote_user user) [
    | none ↦ (s, [])
    | some client ↦ elim (find_room n s.channels) [ none ↦ (s, []) | some r ↦ (s, sayings r.title) ]
  ]

  -- `RemoteChannelJoin`, `RemoteChannelPart`
  unfoldable pub remote_two : (Name → List Saying) → Command → Chat → Outcome Heard
  unfolding remote_named
  remote_two sayings c s =
      two_strings c >>= λ ((user, n) : Name × Name). done (remote_named user n sayings s)

  -- `RemoteChannelMessage`, `RemoteChannelEmote`
  unfoldable pub remote_three : (Name → Name → Saying) → Command → Chat → Outcome Heard
  unfolding remote_named
  remote_three say c s = do
    vs ← unpacked (string_tag ∷ string_tag ∷ string_tag ∷ []) c
    (user, n) ← two_of vs
    text ← one_of (behind_two vs)
    done (remote_named user n (λ t. say t text ∷ []) s)

-- What comes in: from a user here, or from another server.
pub data Order : Type 0 where
  lists joins parts says emotes sets_topic sets_level informs users clears privately : Order
  remote_joins remote_parts remote_says remote_emotes : Order

unfoldable pub obey : House → Order → Speaker → Command → Chat → Outcome Heard
unfolding send_listing join_channel part_channel send_message send_emote set_topic set_level
    channel_info user_list clear_channel send_private remote_two remote_three
obey h lists caller c s = done (send_listing h s)
obey h joins caller c s = join_channel h caller c s
obey h parts caller c s = part_channel h caller c s
obey h says caller c s = send_message h caller c s
obey h emotes caller c s = send_emote h caller c s
obey h sets_topic caller c s = set_topic h caller c s
obey h sets_level caller c s = set_level h caller c s
obey h informs caller c s = channel_info h c s
obey h users caller c s = user_list h c s
obey h clears caller c s = clear_channel h caller c s
obey h privately caller c s = send_private h caller c s
obey h remote_joins caller c s = remote_two h (λ t. added t ∷ []) c s
obey h remote_parts caller c s = remote_two h (λ t. removed t ∷ []) c s
obey h remote_says caller c s = remote_three h chat c s
obey h remote_emotes caller c s = remote_three h emote c s
