-- ===== src/Data.antt =====
-- data.hh: a pointer (`data`, here `start`) with a size. A pointer is the address of a byte, of 32
-- bits; an I32 that is added is its bit pattern.
pub mod Windows
mod Examples
use napsteresque.Base.{
  ℕ, ◌+◌, ◌-◌, ◌%◌, Bool, not, ◌&&◌, List, [], ◌∷◌, ◌==◌, zero, suc, true, ◌||◌,
}

-- 2^32
abbrev pub word : ℕ
word = 4294967296

pub record Data : Type 0 where
  pub start : ℕ
  pub size : ℕ

-- `operator =`: the left side `d` gets the size of `e`, and keeps its pointer.
unfoldable pub assign : Data → Data → Data
assign d e = record d { size = e.size }

-- `operator +`, and `+=`
unfoldable pub advance : Data → ℕ → Data
advance d x = record { start = (d.start + x) % word; size = (d.size + (word - x)) % word }

-- `operator []`
unfoldable pub get_byte : (ℕ → ℕ) → Data → ℕ → ℕ
get_byte memory d x = memory ((d.start + x) % word)

-- `!memcmp`, of as many bytes as it is given.
unfoldable pub memcmp_same : (ℕ → ℕ) → ℕ → ℕ → ℕ → Bool
memcmp_same memory p q zero = true
memcmp_same memory p q (suc n) =
    (memory p == memory q) && memcmp_same memory ((p + 1) % word) ((q + 1) % word) n

-- `operator ==` and `operator !=`
unfoldable pub equal : (ℕ → ℕ) → Data → Data → Bool
unfolding memcmp_same
equal memory d e = (d.size == e.size) && memcmp_same memory d.start e.start d.size

unfoldable pub unequal : (ℕ → ℕ) → Data → Data → Bool
unfolding memcmp_same
unequal memory d e = not (d.size == e.size) || not (memcmp_same memory d.start e.start d.size)

-- What `Socket::recv` of a command reads into: `Data d(c->data + c->offset, c->size - c->offset)`.
unfoldable pub recv_window : ℕ → ℕ → ℕ → Data
recv_window start size offset = record {
  start = (start + offset) % word;
  size = (size + (word - offset)) % word;
}

-- What `Socket::send` of a command sends: `Data d(c->data, c->size); d += c->offset`.
unfoldable pub send_window : ℕ → ℕ → ℕ → Data
unfolding advance
send_window start size offset = advance (record { start = start; size = size }) offset

-- `offset += ret`
unfoldable pub moved_by : ℕ → ℕ → ℕ
moved_by offset ret = (offset + ret) % word

-- The offset after some calls, with what each returned.
unfoldable pub moved_by_all : List ℕ → ℕ → ℕ
unfolding moved_by
moved_by_all [] offset = offset
moved_by_all (ret ∷ rets) offset = moved_by_all rets (moved_by offset ret)

-- `CommandHead`'s four bytes before the data: `offset = -sizeof(CommandHead)`.
abbrev pub before_head : ℕ
before_head = word - 4
