-- ===== src/Security.antt =====
-- security.hh and security.cc: secrets in locked memory, limits, and the calls for less privilege. What
-- the kernel does is a parameter. Log lines are not modelled.

pub mod Secrets
mod Examples
use napsteresque.Base.{
  ℕ, suc, ◌+◌, ◌-◌, ◌*◌, ◌%◌, ◌^◌, Bool, true, false, not, Option, none, some, List, [], ◌∷◌, ◌++◌,
  ltb, ◌==◌, if◌then◌else◌, ℤ, pos, negsuc, ◌-ℤ◌, ltb_ℤ, eq_ℤ, length,
}
use napsteresque.Cert.{Outcome, done, overrun, ◌>>=◌, fetch_string, store, repeat}

-- A block of memory: its bytes, and whether it is locked.
pub record Block : Type 0 where
  pub bytes : List ℕ
  pub locked : Bool

-- `lock_string`, with the answer of `mlock` and what memory held: the new block after each step, the
-- last of them at the head, and the bytes of the string that was given.
unfoldable pub lock_string : Bool → List ℕ → List ℕ → Outcome (List Block × List ℕ)
unfolding fetch_string store
lock_string ok fresh s = do
  (text, rest) ← fetch_string s
  let before : Block = record { bytes = fresh; locked = false }
  let pinned : Block = record { bytes = fresh; locked = ok }
  bytes ← store (text ++ 0 ∷ []) fresh
  s' ← store (repeat (length text) 0) s
  done (record { bytes = bytes; locked = ok } ∷ pinned ∷ before ∷ [], s')

-- `unlock_string`, with the answer of `munlock`: the block after each step up to `delete[]`.
unfoldable pub unlock_string : Bool → Block → Outcome (List Block)
unfolding fetch_string store
unlock_string ok b = do
  (text, rest) ← fetch_string b.bytes
  bytes ← store (repeat (length text) 0) b.bytes
  let wiped : Block = record b { bytes = bytes }
  done (record wiped { locked = if ok then false else b.locked } ∷ wiped ∷ b ∷ [])

-- A word of 32 bits as a signed number.
unfoldable pub int_of : ℕ → ℤ
unfolding ◌-ℤ◌
int_of v = if ltb v (2 ^ 31) then pos v else pos v -ℤ pos (2 ^ 32)

-- A signed number as a word.
abbrev pub word_of_int : ℤ → ℕ
word_of_int (pos n) = n % 2 ^ 32
word_of_int (negsuc n) = 2 ^ 32 - suc n

-- The limits of a resource, soft and hard, as the kernel in a state tells and sets them.
pub record Kernel (K : Type 0) : Type 0 where
  pub getrlimit : ℕ → K → Option (ℕ × ℕ)
  pub setrlimit : ℕ → ℕ × ℕ → K → Option K
  pub chroot : List ℕ → K → Option K
  pub setreuid : ℕ → K → Option K

module _ {K : Type 0} (kernel : Kernel K) where
  -- The second `getrlimit` of `_set_rlimit`.
  unfoldable pub check_rlimit : ℕ → ℕ → K → ℤ
  unfolding int_of
  check_rlimit r value k = elim (kernel.getrlimit r k) [
    | none ↦ negsuc 0
    | some (soft, hard) ↦ if soft == value then int_of value else negsuc 0
  ]

  -- `_set_rlimit`
  unfoldable pub set_rlimit : ℕ → ℤ → K → ℤ × K
  set_rlimit r size k = elim (kernel.getrlimit r k) [
    | none ↦ (negsuc 0, k)
    | some (soft, hard) ↦
        let value = if ltb_ℤ size (pos 0) then hard else word_of_int size in
        elim (kernel.setrlimit r (value, hard) k) [
          | none ↦ (negsuc 0, k)
          | some k' ↦ (check_rlimit r value k', k')
        ]
  ]

  abbrev pub or_failed : ℤ × K → ℤ × K
  or_failed r = (if ltb_ℤ (r.0) (pos 0) then negsuc 0 else pos 0, r.1)

  -- RLIMIT_NOFILE and RLIMIT_CORE
  unfoldable pub set_dtable_size : ℤ → K → ℤ × K
  set_dtable_size size k = or_failed (set_rlimit 7 size k)

  unfoldable pub set_coredump_size : ℤ → K → ℤ × K
  set_coredump_size size k = or_failed (set_rlimit 4 size k)

  -- `change_root`, with the answer of `getcwd` and the `errno` of a `chroot` that fails.
  unfoldable pub change_root : Option (List ℕ) → ℕ → K → ℤ × K
  change_root none errno k = (negsuc 0, k)
  change_root (some cwd) errno k = elim (kernel.chroot cwd k) [
    | none ↦ (pos 0 -ℤ pos errno, k)
    | some k' ↦ (pos 0, k')
  ]

  -- `change_user`, with the `errno` of a `setreuid` that fails.
  unfoldable pub change_user : ℕ → ℕ → K → ℤ × K
  change_user uid errno k = elim (kernel.setreuid uid k) [
    | none ↦ (pos 0 -ℤ pos errno, k)
    | some k' ↦ (pos 0, k')
  ]

-- `seed_random`, of the process, the microseconds and the counter of cycles: the seed.
unfoldable pub seed_random : ℕ → ℕ → ℕ → ℕ
seed_random pid usec tsc = pid * usec % 2 ^ 32 * tsc % 2 ^ 32
