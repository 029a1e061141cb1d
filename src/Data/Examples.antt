-- ===== src/Data/Examples.antt =====
-- data.hh, data.cc: the test of the source, and the operators on a memory.
use napsteresque.Base.{ℕ, ◌≡◌, refl, true, false, [], ◌∷◌, ◌==◌, arith, ◌||◌, if◌then◌else◌}
use napsteresque.Data.{
  Data, assign, advance, get_byte, equal, unequal, send_window, recv_window, moved_by_all,
  before_head,
}
use napsteresque.Data.Windows.{windows-rest}

-- "Dan" at 100, and "Dad" at 200.
abbrev memory : ℕ → ℕ
memory p =
    if (p == 100) || (p == 200)
    then b'D'
    else if (p == 101) || (p == 201)
    then b'a'
    else if p == 102
    then b'n'
    else if p == 202
    then b'd'
    else 0

abbrev dan : Data
dan = record { start = 100; size = 4 }

abbrev dad : Data
dad = record { start = 200; size = 4 }

-- `data.cc`: `d + 1` is "an", and `d[3]` is the NUL.
dan-an : (memory (advance dan 1).start ≡ b'a') × (get_byte memory dan 3 ≡ 0)
unfolding advance get_byte
dan-an = (refl, refl)

dan-dad : (equal memory dan dad ≡ false) × (unequal memory dan dad ≡ true)
unfolding equal unequal
dan-dad = (refl, refl)

-- The first two bytes are the same.
da-da : equal memory (record { start = 100; size = 2 }) (record { start = 200; size = 2 }) ≡ true
unfolding equal
da-da = refl

-- What is assigned to "Dad" is not "Dan".
assign-dad : (assign dad dan).start ≡ dad.start
unfolding assign
assign-dad = refl

-- Of a command with two bytes, three of the six are sent, and then two.
windows-rest_example :
    (send_window 100 2 (moved_by_all (3 ∷ 2 ∷ []) before_head) ≡ record { start = 101; size = 1 })
    × (recv_window 100 2 (moved_by_all (3 ∷ 2 ∷ []) before_head) ≡ record { start = 101; size = 1 })
    × ((moved_by_all (3 ∷ 2 ∷ []) before_head == 2) ≡ false)
windows-rest_example =
    windows-rest 100 2 (3 ∷ 2 ∷ []) (omega arith) (omega arith) (omega arith) (omega arith)
