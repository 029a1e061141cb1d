-- ===== src/Command/Writes.antt =====
-- command.cc: the memory of a packet, and writes that fit into it.
use napsteresque.Base.{
  ℕ, zero, suc, ◌+◌, ◌%◌, ◌<◌, ◌≤◌, ◌≡◌, refl, ap, ◌∙◌, false, some, List, [], ◌∷◌, ◌++◌, length,
  take, drop, leb, lt→ltb, le→not_ltb, arith, inl, inr, length-append, Option-cases,
}
use napsteresque.Cert.Bytes.{length-overwritten}
use napsteresque.Command.{
  Command, new, grow, pad, write_at, write_bytes, flush, f2_code_start, Arg, u16_mod, encode_all,
  room, text_all,
}

pub length-pad : (fresh : ℕ → ℕ) (n i : ℕ) (d : List ℕ) → length (pad fresh n i d) ≡ n
unfolding pad
length-pad fresh zero i d = refl
length-pad fresh (suc n) i [] = omega (arith, length-pad fresh n (i + 1) [])
length-pad fresh (suc n) i (x ∷ d) = omega (arith, length-pad fresh n (i + 1) d)

pub length-write_at :
    (n : ℕ) (bs d : List ℕ) → n + length bs ≤ length d → length (write_at n bs d) ≡ length d
unfolding write_at
length-write_at zero bs d h =
    ap (λ k. length (bs ++ drop k d)) (omega arith) ∙ length-overwritten bs d (omega (arith, h))
length-write_at (suc n) bs [] h = absurd (omega (arith, h))
length-write_at (suc n) bs (x ∷ d) h =
    ap (λ k. length (x ∷ (take n d ++ (bs ++ drop k (x ∷ d))))) (next n (length bs))
    ∙ omega (arith, length-write_at n bs d (omega (arith, h)))
  where
    next : (n m : ℕ) → suc n + m ≡ suc (n + m)
    next n m = omega arith

-- A write that fits leaves the memory as long as it was.
pub write_bytes-fits :
    (n : ℕ) (bs d : List ℕ) (c : Command)
    → c.bytes ≡ some d
    → n + length bs ≤ length d
    → write_bytes n bs c ≡ some (record c { bytes = some (write_at n bs d) })
unfolding write_bytes
write_bytes-fits n bs d c e h =
    rw (e, write_bytes) (rw (le→not_ltb (length d) (n + length bs) h) refl)

-- The memory that `_grow` leaves where more than `size` bytes are asked for.
pub grow-length :
    (fresh : ℕ → ℕ) (s : ℕ) (c : Command)
    → c.size < s
    → (d : List ℕ) × (grow fresh s c ≡ record c { bytes = some d }) × (length d ≡ s + 1)
unfolding grow
grow-length fresh s c h = elim (Option-cases c.bytes) [
  | inl e ↦ (
    pad fresh s 0 [] ++ 0 ∷ [],
    rw (e, grow) refl,
    length-closed (pad fresh s 0 []) (length-pad fresh s 0 []),
  )
  | inr (d, e) ↦
      let more : leb s c.size ≡ false = ground (arith, h) in
      (
        pad fresh s 0 d ++ 0 ∷ [],
        rw (e, grow) (rw more refl),
        length-closed (pad fresh s 0 d) (length-pad fresh s 0 d),
      )
]
  where
    length-closed : (bs : List ℕ) → length bs ≡ s → length (bs ++ 0 ∷ []) ≡ s + 1
    length-closed bs k = omega (arith, length-append bs (0 ∷ []), k)

-- The memory of a new packet: the allocator's bytes, and a NUL.
unfoldable pub fresh_bytes : (ℕ → ℕ) → ℕ → List ℕ
fresh_bytes fresh n = pad fresh n 0 [] ++ 0 ∷ []

pub length-fresh_bytes : (fresh : ℕ → ℕ) (n : ℕ) → length (fresh_bytes fresh n) ≡ n + 1
unfolding fresh_bytes
length-fresh_bytes fresh n =
    omega (arith, length-append (pad fresh n 0 []) (0 ∷ []), length-pad fresh n 0 [])

pub grow-new :
    (fresh : ℕ → ℕ) (code n : ℕ)
    → grow fresh n (new code) ≡ record (new code) { bytes = some (fresh_bytes fresh n) }
unfolding grow new fresh_bytes
grow-new fresh code n = refl

-- A new F2 packet of no arguments holds the NUL of `_grow`.
pub flush_f2-nothing :
    (fresh : ℕ → ℕ) (code : ℕ)
    → f2_code_start ≤ code
    → flush fresh [] (new code)
      ≡ some (record (new code) {
        bytes = some (write_at 0 (encode_all []) (fresh_bytes fresh (0 + room [])));
        size = (0 + room []) % u16_mod;
      })
unfolding flush new grow write_bytes room encode_all fresh_bytes pad write_at
flush_f2-nothing fresh code c = rw (le→not_ltb code f2_code_start c) refl

module _ (fresh : ℕ → ℕ) (x : Arg) (xs : List Arg) (c : Command) (d : List ℕ)
    (e : grow fresh (c.size + room (x ∷ xs)) c ≡ record c { bytes = some d }) where
  -- Packing in text form, where what is written fits.
  pub flush_text-fits :
      (t : List ℕ)
      → c.code < f2_code_start
      → text_all c.size (x ∷ xs) ≡ some t
      → c.size + length (t ++ 0 ∷ []) ≤ length d
      → flush fresh (x ∷ xs) c
        ≡ some (record c {
          bytes = some (write_at c.size (t ++ 0 ∷ []) d);
          size = (c.size + length t) % u16_mod;
        })
  unfolding flush
  flush_text-fits t k m fits =
      rw (lt→ltb c.code f2_code_start k, m, e, flush)
        (rw (write_bytes-fits c.size (t ++ 0 ∷ []) d (record c { bytes = some d }) refl fits) refl)

  -- Packing in F2 form, where what is written fits.
  pub flush_f2-fits :
      f2_code_start ≤ c.code
      → c.size + length (encode_all (x ∷ xs)) ≤ length d
      → flush fresh (x ∷ xs) c
        ≡ some (record c {
          bytes = some (write_at c.size (encode_all (x ∷ xs)) d);
          size = (c.size + room (x ∷ xs)) % u16_mod;
        })
  unfolding flush
  flush_f2-fits k fits =
      rw (le→not_ltb c.code f2_code_start k, e, flush)
        (rw
          (write_bytes-fits c.size (encode_all (x ∷ xs)) d (record c { bytes = some d }) refl fits)
          refl)
