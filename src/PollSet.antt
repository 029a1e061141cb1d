-- ===== src/PollSet.antt =====
-- pollset.hh: the table of watched descriptors, and the index from a descriptor to its entry. The
-- events that `::poll` reports are a parameter.
pub mod Ready
mod Examples
use Prim.Native.Nat.{bit_and}
use napsteresque.Base.{
  ℕ, suc, ◌+◌, Bool, true, false, not, Option, none, some, List, [], ◌∷◌, ltb, ◌==◌, if◌then◌else◌,
}

-- `struct pollfd`
pub record Entry : Type 0 where
  pub fd : ℕ
  pub events : ℕ
  pub revents : ℕ

-- The arrays are functions of the index.
pub record PollSet : Type 0 where
  pub index : ℕ → ℕ
  pub table : ℕ → Entry
  pub size : ℕ

-- `a[i] = x`
abbrev pub put {ℓ} : {A : Type ℓ} → ℕ → A → (ℕ → A) → ℕ → A
put i x a j = if i == j then x else a j

unfoldable pub watch : ℕ → ℕ → PollSet → PollSet
watch fd events p = record {
  index = put fd p.size p.index;
  table = put p.size (record { fd = fd; events = events; revents = 0 }) p.table;
  size = p.size + 1;
}

unfoldable pub watch_all : List (ℕ × ℕ) → PollSet → PollSet
unfolding watch
watch_all [] p = p
watch_all ((fd, events) ∷ ws) p = watch_all ws (watch fd events p)

-- `poll`, with what the system reports of a descriptor and its events; whether the call fails, and so
-- throws, does not change the set.
unfoldable pub poll : (ℕ → ℕ → ℕ) → PollSet → PollSet
poll report p = record p {
  table = λ i.
      if ltb i p.size
      then record (p.table i) { revents = report (p.table i).fd (p.table i).events }
      else p.table i;
  size = 0;
}

unfoldable pub ready : ℕ → ℕ → PollSet → Bool
ready fd events p = not (bit_and (p.table (p.index fd)).revents events == 0)
