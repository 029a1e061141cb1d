-- ===== src/Time/Micros.antt =====
-- time.hh: times are numbers of microseconds.
use napsteresque.Base.{
  ℕ, ◌+◌, ◌*◌, ◌<◌, ◌≡◌, refl, ◌∙◌, true, false, not, ◌⊎◌, arith, Bool-cases, inl, inr, ℤ, pos,
  negsuc, pos_part, neg_part, ◌+ℤ◌, ◌-ℤ◌, times, quot, rem, ltb_ℤ, leb_ℤ, eq_ℤ, int_laws, +ℤ_parts,
}
use napsteresque.Time.{
  Time, equal, unequal, less, less_equal, greater, greater_equal, is_zero, normalize, add, sub,
  usecs,
}

-- The microseconds are fewer than a second and not negative, as `gettimeofday` gives them.
abbrev pub IsNormal : Time → Type 0
IsNormal t = (neg_part t.tv_usec ≡ 0) × (pos_part t.tv_usec < 1000000)

times_parts :
    (k : ℕ) (a : ℤ) → pos_part (times k a) + neg_part a * k ≡ neg_part (times k a) + pos_part a * k
unfolding times
times_parts k (pos n) = omega arith
times_parts k (negsuc n) = ground arith

quot-rem_parts :
    (a : ℤ)
    → (pos_part (quot a 1000000) * 1000000 + pos_part (rem a 1000000) + neg_part a
        ≡ neg_part (quot a 1000000) * 1000000 + neg_part (rem a 1000000) + pos_part a)
      × (pos_part (rem a 1000000) < 1000000)
      × (neg_part (rem a 1000000) < 1000000)
unfolding quot rem
quot-rem_parts (pos n) = ground arith
quot-rem_parts (negsuc n) = ground arith

-- The two ways through `normalize`.
normalize-cases :
    (t : Time)
    → ((ltb_ℤ (rem t.tv_usec 1000000) (pos 0) ≡ true)
        × (normalize t ≡ record {
          tv_sec = t.tv_sec +ℤ quot t.tv_usec 1000000 -ℤ pos 1;
          tv_usec = rem t.tv_usec 1000000 +ℤ pos 1000000;
        }))
      ⊎ ((ltb_ℤ (rem t.tv_usec 1000000) (pos 0) ≡ false)
          × (normalize t ≡ record {
            tv_sec = t.tv_sec +ℤ quot t.tv_usec 1000000;
            tv_usec = rem t.tv_usec 1000000;
          }))
unfolding normalize
normalize-cases t = elim (Bool-cases (ltb_ℤ (rem t.tv_usec 1000000) (pos 0))) [
  | inl below ↦ inl (below, rw below refl)
  | inr above ↦ inr (above, rw above refl)
]

-- An integer has one sign.
one_sign : (a : ℤ) → (pos_part a ≡ 0) ⊎ (neg_part a ≡ 0)
one_sign (pos n) = inr refl
one_sign (negsuc n) = inl refl

normalize-IsNormal : (t : Time) → IsNormal (normalize t)
normalize-IsNormal t =
    let (a, b, c) = quot-rem_parts t.tv_usec in
    let r = rem t.tv_usec 1000000 in
    let up = +ℤ_parts r (pos 1000000) in
    let s = one_sign r in
    let s' = one_sign (r +ℤ pos 1000000) in
    elim (normalize-cases t) [
      | inl (below, e) ↦ rw e (ground (arith, b, c, below, up, s, s'))
      | inr (above, e) ↦ rw e (ground (arith, b, c, above, s))
    ]

usecs_parts :
    (t : Time)
    → pos_part (usecs t) + neg_part t.tv_sec * 1000000 + neg_part t.tv_usec
      ≡ neg_part (usecs t) + pos_part t.tv_sec * 1000000 + pos_part t.tv_usec
unfolding usecs
usecs_parts t = omega (int_laws, times_parts 1000000 t.tv_sec)

usecs-normalize : (t : Time) → usecs (normalize t) ≡ usecs t
usecs-normalize t =
    let (a, b, c) = quot-rem_parts t.tv_usec in
    elim (normalize-cases t) [
      | inl (below, e) ↦ rw e (
          omega (
            int_laws,
            a,
            usecs_parts t,
            usecs_parts (record {
              tv_sec = t.tv_sec +ℤ quot t.tv_usec 1000000 -ℤ pos 1;
              tv_usec = rem t.tv_usec 1000000 +ℤ pos 1000000;
            }),
          ))
      | inr (above, e) ↦ rw e (
          omega (
            int_laws,
            a,
            usecs_parts t,
            usecs_parts (record {
              tv_sec = t.tv_sec +ℤ quot t.tv_usec 1000000;
              tv_usec = rem t.tv_usec 1000000;
            }),
          ))
    ]

-- Sums and differences of times, whatever their fields, are normal, and they are those of the numbers
-- of microseconds.
pub add_sub-usecs :
    (t u : Time)
    → IsNormal (add t u)
      × (usecs (add t u) ≡ usecs t +ℤ usecs u)
      × IsNormal (sub t u)
      × (usecs (sub t u) ≡ usecs t -ℤ usecs u)
unfolding add sub
add_sub-usecs t u =
    let sum : Time = record { tv_sec = t.tv_sec +ℤ u.tv_sec; tv_usec = t.tv_usec +ℤ u.tv_usec } in
    let difference : Time = record {
      tv_sec = t.tv_sec -ℤ u.tv_sec;
      tv_usec = t.tv_usec -ℤ u.tv_usec;
    } in
    (
      normalize-IsNormal sum,
      usecs-normalize sum ∙ omega (int_laws, usecs_parts t, usecs_parts u, usecs_parts sum),
      normalize-IsNormal difference,
      usecs-normalize difference
          ∙ omega (int_laws, usecs_parts t, usecs_parts u, usecs_parts difference),
    )

-- Between normal times the comparisons are those of the numbers of microseconds, and a time is zero if
-- its number is.
pub order_usecs :
    (t u : Time)
    → IsNormal t
    → IsNormal u
    → (less t u ≡ ltb_ℤ (usecs t) (usecs u))
      × (less_equal t u ≡ leb_ℤ (usecs t) (usecs u))
      × (greater t u ≡ ltb_ℤ (usecs u) (usecs t))
      × (greater_equal t u ≡ leb_ℤ (usecs u) (usecs t))
      × (equal t u ≡ eq_ℤ (usecs t) (usecs u))
      × (unequal t u ≡ not (equal t u))
      × (is_zero t ≡ eq_ℤ (usecs t) (pos 0))
unfolding less less_equal greater greater_equal equal unequal is_zero
order_usecs t u (n, l) (n', l') =
    let p = usecs_parts t in
    let q = usecs_parts u in
    let s = one_sign t.tv_sec in
    let s' = one_sign u.tv_sec in
    (
      ground (arith, p, q, n, l, n', l'),
      ground (arith, p, q, n, l, n', l'),
      ground (arith, p, q, n, l, n', l'),
      ground (arith, p, q, n, l, n', l'),
      ground (arith, p, q, n, l, n', l', s, s'),
      ground arith,
      ground (arith, p, n, l, s),
    )
