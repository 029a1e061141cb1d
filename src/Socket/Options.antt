-- ===== src/Socket/Options.antt =====
-- socket.cc: the options of a socket. The kernel is a parameter: what `getsockopt`, `setsockopt` and
-- `fcntl` answer for a descriptor in a state of the kernel, `none` where they fail and the code throws.
use napsteresque.Base.{
  ℕ, ◌+◌, ◌-◌, ◌/◌, ◌%◌, ◌^◌, Bool, not, Option, none, some, ◌==◌, if◌then◌else◌, ℤ, pos, swap,
}
use napsteresque.Time.{Time, of_secs, is_zero, secs}
use napsteresque.Address.{Address}

-- The options, each with its level.
pub data Name : Type 0 where
  so_linger so_type so_rcvbuf so_rcvlowat so_sndbuf so_sndlowat so_reuseaddr : Name
  so_broadcast ip_multicast_ttl ip_add_membership : Name

-- What an option holds: `struct linger`, `struct ip_mreq`, or a number.
abbrev pub Value : Name → Type 0
Value so_linger = Bool × ℤ
Value ip_add_membership = ℕ × ℕ
Value _ = ℕ

abbrev pub bit : Bool → ℕ
bit b = if b then 1 else 0

-- O_NONBLOCK, a bit of the flags of a file.
abbrev pub o_nonblock : ℕ
o_nonblock = 2 ^ 11

abbrev pub has_nonblock : ℕ → Bool
has_nonblock f = f / o_nonblock % 2 == 1

-- A result of the kernel goes on to the rest of the function; a failure throws.
infixl 5 ◌>>=◌
abbrev pub ◌>>=◌ {ℓ κ} : {A : Type ℓ} {B : Type κ} → Option A → (A → Option B) → Option B
none >>= f = none
some a >>= f = f a

pub record Kernel (K : Type 0) : Type 0 where
  pub getopt : ℕ → (n : Name) → K → Option (Value n)
  pub setopt : ℕ → (n : Name) → Value n → K → Option K
  pub getfl : ℕ → K → Option ℕ
  pub setfl : ℕ → ℕ → K → Option K

module _ {K : Type 0} (kernel : Kernel K) (fd : ℕ) where
  unfoldable pub linger : K → Option Time
  linger k = do lin ← kernel.getopt fd so_linger k; some (of_secs (if lin.0 then lin.1 else pos 0))

  unfoldable pub set_linger : Time → K → Option (Time × K)
  set_linger t k = do k' ← kernel.setopt fd so_linger (not (is_zero t), secs t) k; some (t, k')

  unfoldable pub nonblock : K → Option Bool
  nonblock k = do f ← kernel.getfl fd k; some (has_nonblock f)

  unfoldable pub set_nonblock : Bool → K → Option (Bool × K)
  set_nonblock b k = do
    f ← kernel.getfl fd k
    let cleared = if has_nonblock f then f - o_nonblock else f
    k' ← kernel.setfl fd (if b then cleared + o_nonblock else cleared) k
    some (b, k')

  unfoldable pub socket_type : K → Option ℕ
  socket_type k = kernel.getopt fd so_type k

  unfoldable pub recvbuf : K → Option ℕ
  recvbuf k = kernel.getopt fd so_rcvbuf k

  unfoldable pub set_recvbuf : ℕ → K → Option (ℕ × K)
  set_recvbuf s k = do k' ← kernel.setopt fd so_rcvbuf s k; some (s, k')

  unfoldable pub recvlowat : K → Option ℕ
  recvlowat k = kernel.getopt fd so_rcvlowat k

  unfoldable pub set_recvlowat : ℕ → K → Option (ℕ × K)
  set_recvlowat l k = do k' ← kernel.setopt fd so_rcvlowat l k; some (l, k')

  unfoldable pub sendbuf : K → Option ℕ
  sendbuf k = kernel.getopt fd so_sndbuf k

  unfoldable pub set_sendbuf : ℕ → K → Option (ℕ × K)
  set_sendbuf s k = do k' ← kernel.setopt fd so_sndbuf s k; some (s, k')

  unfoldable pub sendlowat : K → Option ℕ
  sendlowat k = kernel.getopt fd so_sndlowat k

  unfoldable pub set_sendlowat : ℕ → K → Option (ℕ × K)
  set_sendlowat l k = do k' ← kernel.setopt fd so_sndlowat l k; some (l, k')

  unfoldable pub reuseaddr : K → Option Bool
  reuseaddr k = do val ← kernel.getopt fd so_reuseaddr k; some (not (val == 0))

  unfoldable pub set_reuseaddr : Bool → K → Option (Bool × K)
  set_reuseaddr b k = do k' ← kernel.setopt fd so_reuseaddr (bit b) k; some (b, k')

  unfoldable pub broadcast : K → Option Bool
  broadcast k = do val ← kernel.getopt fd so_broadcast k; some (not (val == 0))

  unfoldable pub set_broadcast : Bool → K → Option (Bool × K)
  set_broadcast b k = do k' ← kernel.setopt fd so_broadcast (bit b) k; some (b, k')

  unfoldable pub multicast_ttl : K → Option ℕ
  multicast_ttl k = kernel.getopt fd ip_multicast_ttl k

  unfoldable pub set_multicast_ttl : ℕ → K → Option (ℕ × K)
  set_multicast_ttl ttl k = do k' ← kernel.setopt fd ip_multicast_ttl ttl k; some (ttl, k')

  -- The group, in the order of the network, on any interface.
  unfoldable pub multicast_add : Address → K → Option K
  unfolding swap
  multicast_add group k = kernel.setopt fd ip_add_membership (swap 4 group.ip, 0) k
