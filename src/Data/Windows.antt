-- ===== src/Data/Windows.antt =====
-- data.hh, socket.cc: the bytes of a command that are sent or read, from its head before the data.
use napsteresque.Base.{ℕ, ◌+◌, ◌-◌, ◌%◌, ◌≤◌, ◌<◌, ◌≡◌, refl, ap, ◌∙◌, List, [], ◌∷◌, ◌==◌, arith}
use napsteresque.Data.{Data, word, send_window, recv_window, moved_by, moved_by_all, before_head}

abbrev pub total : List ℕ → ℕ
total [] = 0
total (ret ∷ rets) = ret + total rets

-- The offset of a command of which `at` bytes are sent, the four of its head counted.
abbrev offset_at : ℕ → ℕ
offset_at at = (at + before_head) % word

offset_at-start :
    (start at : ℕ)
    → 4 ≤ start
    → start + at < word + 4
    → (start + offset_at at) % word ≡ start + at - 4
offset_at-start start at l h = omega arith

offset_at-size :
    (size at : ℕ)
    → at ≤ size + 4
    → size + 4 < word
    → (size + (word - offset_at at)) % word ≡ size + 4 - at
offset_at-size size at l h = omega arith

moved_by-offset_at : (at ret : ℕ) → moved_by (offset_at at) ret ≡ offset_at (at + ret)
unfolding moved_by
moved_by-offset_at at ret = omega arith

moved_by_all-offset_at :
    (rets : List ℕ) (at : ℕ) → moved_by_all rets (offset_at at) ≡ offset_at (at + total rets)
unfolding moved_by_all
moved_by_all-offset_at [] at = omega arith
moved_by_all-offset_at (ret ∷ rets) at =
    ap (moved_by_all rets) (moved_by-offset_at at ret)
    ∙ moved_by_all-offset_at rets (at + ret)
    ∙ ap offset_at (omega arith)

offset_at-full :
    (size at : ℕ) → size + 4 < word → at ≤ size + 4 → (offset_at at == size) ≡ (at == size + 4)
offset_at-full size at l h = ground arith

abbrev window : ℕ → ℕ → Data
window p s = record { start = p; size = s }

window-cong : {p q s t : ℕ} → p ≡ q → s ≡ t → window p s ≡ window q t
window-cong e f = rw (e, f) refl

-- A command whose offset starts before the head, after calls of send or recv that moved no more than
-- the head and the data together: the next send and the next recv both have the rest of them, from the
-- byte after those that are done; and the command is full exactly when all are done. The head is in
-- the memory before the data, and the data do not reach the end of the memory.
pub windows-rest :
    (start size : ℕ) (rets : List ℕ)
    → 4 ≤ start
    → start + size < word
    → size + 4 < word
    → total rets ≤ size + 4
    → (send_window start size (moved_by_all rets before_head)
        ≡ record { start = start + total rets - 4; size = size + 4 - total rets })
      × (recv_window start size (moved_by_all rets before_head)
          ≡ record { start = start + total rets - 4; size = size + 4 - total rets })
      × ((moved_by_all rets before_head == size) ≡ (total rets == size + 4))
unfolding send_window recv_window
windows-rest start size rets l h g b =
    let e : moved_by_all rets before_head ≡ offset_at (total rets) =
      moved_by_all-offset_at rets 0
      ∙ ap offset_at {x = 0 + total rets} {y = total rets} (omega arith) in
    let p = offset_at-start start (total rets) l (omega arith) in
    let s = offset_at-size size (total rets) b g in
    rw e (window-cong p s, window-cong p s, offset_at-full size (total rets) g b)
