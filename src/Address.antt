-- ===== src/Address.antt =====
-- address.hh and address.cc: internet addresses, and the rotating buffer of `Address::ip_str`. What
-- the system makes of a host name and of an address are parameters.
pub mod Text
mod Examples
use napsteresque.Base.{
  ℕ, zero, suc, ◌+◌, ◌-◌, ◌*◌, ◌/◌, ◌%◌, ◌^◌, Bool, true, false, not, ◌&&◌, ◌||◌, Option, none,
  some, List, [], ◌∷◌, ◌++◌, ltb, leb, ◌==◌, if◌then◌else◌, null, length, take, swap,
}
use napsteresque.Args.{strchr, scan_digits}
use napsteresque.Command.{emit}

pub record Address : Type 0 where
  pub ip : ℕ
  pub port : ℕ

-- `Address::ANY`
abbrev pub any : Address
any = record { ip = 0; port = 0 }

-- `struct sockaddr_in`, with its words in the order of the network; the family is AF_INET.
pub record Sockaddr : Type 0 where
  pub s_addr : ℕ
  pub sin_port : ℕ

-- `Address(const sockaddr_in &)`, and `operator =` of one
unfoldable pub of_sockaddr : Sockaddr → Address
unfolding swap
of_sockaddr sin = record { ip = swap 4 sin.s_addr; port = swap 2 sin.sin_port }

-- `operator sockaddr_in`
unfoldable pub to_sockaddr : Address → Sockaddr
unfolding swap
to_sockaddr a = record { s_addr = swap 4 a.ip; sin_port = swap 2 a.port }

unfoldable pub equal : Address → Address → Bool
equal a b = (b.ip == a.ip) && (b.port == a.port)

unfoldable pub unequal : Address → Address → Bool
unequal a b = not (b.ip == a.ip) || not (b.port == a.port)

-- `operator bool`
unfoldable pub is_set : Address → Bool
is_set a = not (a.ip == 0) || not (a.port == 0)

unfoldable pub multicast : Address → Bool
multicast a = a.ip / 2 ^ 28 == 14

-- `atoi` on a 32-bit machine, by its bits: a number beyond the range is the last of it.
unfoldable pub atoi : List ℕ → ℕ
unfolding scan_digits
atoi [] = 0
atoi (c ∷ s) =
    let rest = atoi s in
    let capped = λ (limit n : ℕ). if ltb limit n then limit else n in
    if c == b' ' || (leb 9 c && leb c 13)
    then rest
    else if c == b'-'
    then (2 ^ 32 - capped (2 ^ 31) (scan_digits 0 s)) % 2 ^ 32
    else if c == b'+'
    then capped (2 ^ 31 - 1) (scan_digits 0 s)
    else capped (2 ^ 31 - 1) (scan_digits 0 (c ∷ s))

-- How a constructor ends: with the address, with an exception, or with a write beyond `buf`.
pub data Made : Type 0 where
  made : Address → Made
  thrown overflow : Made

-- A string in memory ends at the first NUL.
abbrev pub until_nul : List ℕ → List ℕ
until_nul s = elim (strchr 0 s) [ none ↦ s | some (before, behind) ↦ before ]

module _ (inet_addr : List ℕ → ℕ) (gethostbyname : List ℕ → Option ℕ) where
  -- The second half of the constructor: the address of a host, at a port.
  unfoldable pub resolve : List ℕ → ℕ → Made
  unfolding swap
  resolve host port =
      if null host
      then made (record { ip = swap 4 0; port = port })
      else if not (inet_addr host == 2 ^ 32 - 1)
      then made (record { ip = swap 4 (inet_addr host); port = port })
      else elim (gethostbyname host) [
        | none ↦ thrown
        | some addr ↦ made (record { ip = swap 4 addr; port = port })
      ]

  -- `Address(const char *, U16)`. Where no port is given, the host is copied up to the colon: 246
  -- characters of it, and behind them, if the colon comes later, what `buf` holds there (`fresh`).
  unfoldable pub of_text : List ℕ → List ℕ → ℕ → Made
  unfolding resolve strchr atoi
  of_text fresh host port = if not (port == 0) then resolve host port else elim (strchr b':' host) [
    | none ↦ resolve host 0
    | some (name, behind) ↦
        if leb 256 (length name)
        then overflow
        else resolve (until_nul (take 246 name ++ take (length name - 246) fresh))
            (atoi behind % 2 ^ 16)
  ]

-- `operator char *`: at most 31 characters of what `inet_ntoa` gives, a colon, and the port by `%hu`.
unfoldable pub to_text : (ℕ → List ℕ) → Address → List ℕ
unfolding swap emit
to_text inet_ntoa a = take 31 (inet_ntoa (swap 4 a.ip)) ++ b':' ∷ emit 5 a.port []

-- `dotcount`: the loop, with a bound on its rounds.
unfoldable pub dotcount_loop : ℕ → ℕ → List ℕ → Option ℕ
unfolding strchr
dotcount_loop zero count s = none
dotcount_loop (suc fuel) count s = elim (strchr b'.' s) [
  | none ↦ some count
  | some (before, behind) ↦ dotcount_loop fuel (count + 1) behind
]

-- There is a round for each character and one more.
unfoldable pub dotcount : List ℕ → Option ℕ
unfolding dotcount_loop
dotcount s = dotcount_loop (length s + 1) 0 s

abbrev pub ip_size : ℕ
ip_size = 32

abbrev pub buffer_size : ℕ
buffer_size = ip_size * 256

-- Where a call at `_buffer_pos` writes and returns, as an index of `_buffer`.
unfoldable pub slot_at : ℕ → ℕ
slot_at pos = if leb buffer_size pos then 0 else pos

-- `_buffer_pos` after a number of calls.
unfoldable pub buffer_pos : ℕ → ℕ
unfolding slot_at
buffer_pos zero = 0
buffer_pos (suc n) = slot_at (buffer_pos n) + ip_size

-- What the call behind `n` others returns.
unfoldable pub ip_str : ℕ → ℕ
unfolding buffer_pos
ip_str n = slot_at (buffer_pos n)
