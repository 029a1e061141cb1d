-- ===== src/Channel.antt =====
-- channel.hh and channel.cc with `User::write` of user.cc: the members of a channel, and what they are
-- told. A user stands for the pointer to it, and `title` is the field `name`. The map of the members is
-- a list of them; its order shows only in the order of the messages, none of which arrives.
pub mod Handlers
pub mod Talk
pub mod Rights
pub mod Obeys
mod Examples
use napsteresque.Base.{
  ℕ, Bool, true, false, not, ◌&&◌, Option, none, some, List, [], ◌∷◌, ◌++◌, ◌==◌, null,
  if◌then◌else◌,
}
use napsteresque.Ignore.{Name, same_name}

pub record User : Type 0 where
  pub id : ℕ
  pub name : Name

pub record Channel : Type 0 where
  pub title : Option Name
  pub topic : Option Name
  pub members : List User

-- Whether a call throws, and the channel that it leaves.
pub record Result : Type 0 where
  pub threw : Bool
  pub channel : Channel

-- `User::write` throws.
unfoldable pub write : User → Bool
write u = true

-- A loop that says something to each user, up to the first exception.
unfoldable pub tell : List User → Bool
unfolding write
tell [] = false
tell (u ∷ us) = if write u then true else tell us

-- `members.find(name)`, by names without regard to case.
unfoldable pub find_in : List User → Name → Option User
find_in [] s = none
find_in (u ∷ us) s = if same_name u.name s then some u else find_in us s

unfoldable pub find : Channel → Name → Option User
unfolding find_in
find c s = find_in c.members s

-- The loop of `insert`: for every member, USER_HERE to the new one, and USER_JOIN to the others.
unfoldable pub announce : User → List User → Bool
unfolding write
announce u [] = false
announce u (m ∷ ms) =
    let rest = announce u ms in
    if write u then true else if not (m.id == u.id) && write m then true else rest

-- What says something with the channel's name: packing it is `strlen`, which faults at NULL.
unfoldable pub named : Channel → Result → Option Result
named c r = elim c.title [ none ↦ none | some t ↦ some r ]

-- `insert`, `none` for a fault.
unfoldable pub insert : User → Channel → Option Result
unfolding find write announce named
insert u c = elim (find c u.name) [
  | some m ↦ some (record { threw = false; channel = c })
  | none ↦
      let joined : Channel = record c { members = c.members ++ u ∷ [] } in
      named c (record {
        threw =
            if write u
            then true
            else if announce u joined.members
            then true
            else if write u
            then true
            else write u;
        channel = joined;
      })
]

-- The first member that is the user, taken off.
unfoldable pub without : ℕ → List User → Option (List User)
without id [] = none
without id (m ∷ ms) =
    if m.id == id then some ms else elim (without id ms) [ none ↦ none | some r ↦ some (m ∷ r) ]

-- `remove`, `none` for a fault.
unfoldable pub remove : User → Channel → Option Result
unfolding without tell write named
remove u c = elim (without u.id c.members) [
  | none ↦ some (record { threw = false; channel = c })
  | some ms ↦
      named c
        (record { threw = if tell ms then true else write u; channel = record c { members = ms } })
]

-- `clear`, `none` for a fault.
unfoldable pub clear : Channel → Option Result
unfolding tell named
clear c =
    if null c.members
    then some (record { threw = false; channel = c })
    else named c (
        if tell c.members
        then record { threw = true; channel = c }
        else record { threw = false; channel = record c { members = [] } })

unfoldable pub broadcast : Channel → Result
unfolding tell
broadcast c = record { threw = tell c.members; channel = c }
