-- ===== src/Transfer.antt =====
-- transfer.cc, whose code stands under `#if 0` at this commit: the handlers by which two users agree on
-- a download. Users and links are numbers of their objects. What the server, the users and the
-- certificates' library answer is not in the repository: it is the parameter `World`.
pub mod Manners
mod Examples
use napsteresque.Base.{
  ℕ, ◌+◌, ◌-◌, Bool, true, false, not, ◌&&◌, ◌||◌, Option, none, some, List, [], ◌∷◌, ◌==◌,
  if◌then◌else◌, take,
}
use napsteresque.Ignore.{Name}
use napsteresque.Cert.{Outcome, done, overrun, ◌>>=◌}
use napsteresque.Command.{Command, Arg, integer, string, octets}
use napsteresque.Command.Unpack.{Tag, int_tag, string_tag, unpack}

pub record Shared : Type 0 where
  pub id : List ℕ
  pub size : ℕ

-- GetLocalUser and GetRemoteUser, what a user is and has, and the server's settings.
pub record World : Type 0 where
  pub local_user : Name → Option ℕ
  pub remote_user : Name → Option ℕ
  pub ignoring : ℕ → ℕ → Bool
  pub visible_to : ℕ → ℕ → Bool
  pub find_file : ℕ → Name → Option Shared
  pub any_resources : ℕ → Bool
  pub name_of : ℕ → Name
  pub ip : ℕ → ℕ
  pub data_port : ℕ → ℕ
  pub line_speed : ℕ → ℕ
  pub code_identifier : ℕ → List ℕ
  pub public_key : ℕ → Option (List ℕ)
  pub link_allow_downloads : Bool
  pub allow_downloading : Bool

-- A user here, a user of another server, or that server.
pub data Target : Type 0 where
  here there link : ℕ → Target

-- What is said, by the code and its arguments; `firewall_error` is DOWNLOAD_RESPONSE with firewallerror
-- in place of the id, and 0.
pub data Notice : Type 0 where
  download_delayed remote_dl_delayed : Name → Name → ℕ → ℕ → Notice
  dl_not_found remote_dl_not_found accept_failed : Name → Name → Notice
  remote_accept_failed : Name → Name → Name → Notice
  dl_denied : Option (List ℕ) → Notice
  firewall_error : Name → ℕ → ℕ → Name → Notice
  download_attempt : Name → Name → List ℕ → List ℕ → ℕ → Notice
  remote_dl_attempt : Name → Name → Name → List ℕ → List ℕ → ℕ → Notice
  download_response remote_dl_response firewall_response : Name → ℕ → ℕ → Name → List ℕ → ℕ → Notice
  remote_fw_response : Name → Name → ℕ → ℕ → Name → ℕ → Notice

abbrev pub Sent : Type 0
Sent = List (Target × Notice)

abbrev pub say : Target → Notice → Sent
say t n = (t, n) ∷ []

-- UNPACK_COMMAND of two strings: a pointer that it does not set is read.
abbrev pub two_of : List (Option Arg) → Outcome (Name × Name)
two_of (some (string a) ∷ some (string b) ∷ vs) = done (a, b)
two_of _ = overrun

abbrev pub word_of_arg : List (Option Arg) → Outcome ℕ
word_of_arg (some (integer x) ∷ vs) = done x
word_of_arg _ = overrun

abbrev pub behind_two : List (Option Arg) → List (Option Arg)
behind_two (a ∷ b ∷ vs) = vs
behind_two _ = []

unfoldable pub unpacked : List Tag → Command → Outcome (List (Option Arg))
unfolding unpack
unpacked ts c = elim (unpack ts c) [ none ↦ overrun | some (vs, last) ↦ done vs ]

unfoldable pub two_strings : Command → Outcome (Name × Name)
two_strings c = unpacked (string_tag ∷ string_tag ∷ []) c >>= two_of

module _ (w : World) where
  -- `(lc = GetLocalUser(username)) && !lc->IsIgnoring(caller) && lc->IsVisibleTo(caller)`
  unfoldable pub polite : ℕ → Name → Option ℕ
  polite caller n = elim (w.local_user n) [
    | none ↦ none
    | some u ↦ if not (w.ignoring u caller) && w.visible_to u caller then some u else none
  ]

  -- `LinkAllowDownloads && (rc = GetRemoteUser(username))`
  unfoldable pub linked : Name → Option ℕ
  linked n = if w.link_allow_downloads then w.remote_user n else none

  -- `DelayDownload`, of what is unpacked.
  unfoldable pub delay_to : ℕ → Name → Name → ℕ → Sent
  delay_to caller username filename maxdl = elim (w.find_file caller filename) [
    | none ↦ []
    | some f ↦ elim (polite caller username) [
      | some u ↦ say (here u) (download_delayed (w.name_of caller) filename f.size maxdl)
      | none ↦ elim (linked username) [
        | some r ↦ say (there r) (remote_dl_delayed (w.name_of caller) filename f.size maxdl)
        | none ↦ say (here caller) (dl_not_found (w.name_of caller) filename)
      ]
    ]
  ]

  unfoldable pub delay_download : ℕ → Command → Outcome Sent
  delay_download caller c = do
    vs ← unpacked (string_tag ∷ string_tag ∷ int_tag ∷ []) c
    (username, filename) ← two_of vs
    maxdl ← word_of_arg (behind_two vs)
    done (delay_to caller username filename maxdl)

  -- The key of the caller's certificate: where the library gives none, NULL is read.
  unfoldable pub attempt : ℕ → (List ℕ → List ℕ → Notice) → Target → Outcome Sent
  attempt caller notice t = elim (w.public_key caller) [
    | none ↦ overrun
    | some key ↦ done (say t (notice key (take 9 (w.code_identifier caller))))
  ]

  -- `DownloadRequest` to a user here.
  unfoldable pub request_here : ℕ → Name → ℕ → Outcome Sent
  request_here caller filename u =
      let speed = w.line_speed caller in
      let failed = firewall_error (w.name_of u) (w.ip u) (w.data_port u) filename in
      if not (not (w.ignoring u caller) && w.visible_to u caller)
      then done []
      else if (w.data_port caller == 0) && (w.data_port u == 0)
      then done (say (here caller) failed)
      else attempt caller (λ key cid. download_attempt (w.name_of caller) filename key cid speed)
          (here u)

  unfoldable pub request_there : ℕ → Name → ℕ → Outcome Sent
  request_there caller filename r =
      let speed = w.line_speed caller in
      let failed = firewall_error (w.name_of r) (w.ip r) (w.data_port r) filename in
      if (w.data_port caller == 0) && (w.data_port r == 0)
      then done (say (here caller) failed)
      else attempt caller
          (λ key cid. remote_dl_attempt (w.name_of r) (w.name_of caller) filename key cid speed)
          (link r)

  unfoldable pub request_to : ℕ → Name → Name → Outcome Sent
  request_to caller username filename = elim (w.local_user username) [
    | some u ↦ request_here caller filename u
    | none ↦ elim (linked username) [
      | some r ↦ request_there caller filename r
      | none ↦ done (say (here caller) (dl_not_found username filename))
    ]
  ]

  unfoldable pub download_request : ℕ → Command → Outcome Sent
  download_request caller c =
      if w.any_resources caller
      then (do (username, filename) ← two_strings c; request_to caller username filename)
      else done (say (here caller) (dl_denied c.bytes))

  unfoldable pub accept_failed_to : ℕ → Name → Name → Sent
  accept_failed_to caller username filename = elim (polite caller username) [
    | some u ↦ say (here u) (accept_failed (w.name_of caller) filename)
    | none ↦ elim (w.remote_user username) [
      | some r ↦ say (link r) (remote_accept_failed (w.name_of r) (w.name_of caller) filename)
      | none ↦ []
    ]
  ]

  -- `AcceptFailed`
  unfoldable pub refuse : ℕ → Command → Outcome Sent
  refuse caller c = do
    (username, filename) ← two_strings c
    done (accept_failed_to caller username filename)

  unfoldable pub firewall_to : ℕ → Name → Name → Sent
  firewall_to caller username filename = elim (polite caller username) [
    | some u ↦ elim (w.find_file u filename) [
      | none ↦ []
      | some f ↦ say (here u) (
          firewall_response (w.name_of caller) (w.ip caller) (w.data_port caller) filename f.id
            (w.line_speed caller))
    ]
    | none ↦ elim (w.remote_user username) [
      | some r ↦ say (link r) (
          remote_fw_response username (w.name_of caller) (w.ip caller) (w.data_port caller) filename
            (w.line_speed caller))
      | none ↦ say (here caller) (dl_not_found username filename)
    ]
  ]

  unfoldable pub firewall_transfer : ℕ → Command → Outcome Sent
  firewall_transfer caller c = do
    (username, filename) ← two_strings c
    done (firewall_to caller username filename)

  -- `AllowDownloading && (lc = GetLocalUser(username)) && lc->IsVisibleTo(caller)`
  unfoldable pub seen : ℕ → Name → Option ℕ
  seen caller n = elim (w.local_user n) [
    | none ↦ none
    | some u ↦ if w.allow_downloading && w.visible_to u caller then some u else none
  ]

  -- `DownloadAccepted`, of what is unpacked, with NumTransfers and NumBytesTransfers.
  unfoldable pub accepted_to : ℕ → Name → Name → ℕ × ℕ → Sent × (ℕ × ℕ)
  accepted_to caller username filename (transfers, bytes) =
      let respond = λ (respond_by : Name → ℕ → ℕ → Name → List ℕ → ℕ → Notice) (f : Shared).
        respond_by (w.name_of caller) (w.ip caller) (w.data_port caller) filename f.id
          (w.line_speed caller) in
      elim (seen caller username) [
        | some u ↦ elim (w.find_file caller filename) [
          | none ↦ (say (here u) (dl_not_found (w.name_of u) filename), (transfers, bytes))
          | some f ↦ (say (here u) (respond download_response f), (transfers + 1, bytes + f.size))
        ]
        | none ↦ elim (if w.allow_downloading then linked username else none) [
          | some r ↦ elim (w.find_file caller filename) [
            | none ↦ (
              say (there r) (remote_dl_not_found (w.name_of caller) filename),
              (transfers, bytes),
            )
            | some f ↦ (say (there r) (respond remote_dl_response f), (transfers, bytes))
          ]
          | none ↦ (say (here caller) (accept_failed username filename), (transfers, bytes))
        ]
      ]

  unfoldable pub download_accepted : ℕ → Command → ℕ × ℕ → Outcome (Sent × (ℕ × ℕ))
  download_accepted caller c counters = do
    (username, filename) ← two_strings c
    done (accepted_to caller username filename counters)

-- `DownloadComplete`, of what is unpacked: the caller's downloads, and whether its resources go down.
unfoldable pub complete : ℕ → ℕ → ℕ × Bool
complete success downloading = (downloading - 1, not (success == 0))

unfoldable pub download_complete : Command → ℕ → Outcome (ℕ × Bool)
download_complete c downloading = do
  vs ← unpacked (int_tag ∷ []) c
  success ← word_of_arg vs
  done (complete success downloading)
