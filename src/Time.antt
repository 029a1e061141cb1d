-- ===== src/Time.antt =====
-- time.hh: `Time`, a `timeval`, with its integer operations. Its words are integers: where C's would
-- overflow, what the program does is undefined. `double` is not modelled.
pub mod Micros
mod Examples
use napsteresque.Base.{
  ℕ, Bool, true, false, not, ◌&&◌, ◌||◌, if◌then◌else◌, ℤ, pos, negsuc, pos_part, neg_part, ◌+ℤ◌,
  ◌-ℤ◌, times, quot, rem, ltb_ℤ, leb_ℤ, eq_ℤ,
}

pub record Time : Type 0 where
  pub tv_sec : ℤ
  pub tv_usec : ℤ

-- `Time(time_t)`, and `operator =` of one
abbrev pub of_secs : ℤ → Time
of_secs i = record { tv_sec = i; tv_usec = pos 0 }

unfoldable pub equal : Time → Time → Bool
equal t u = eq_ℤ t.tv_sec u.tv_sec && eq_ℤ t.tv_usec u.tv_usec

unfoldable pub unequal : Time → Time → Bool
unequal t u = not (eq_ℤ t.tv_sec u.tv_sec) || not (eq_ℤ t.tv_usec u.tv_usec)

-- `timercmp`, with the comparison of integers
abbrev pub timercmp : (ℤ → ℤ → Bool) → Time → Time → Bool
timercmp cmp t u = if eq_ℤ t.tv_sec u.tv_sec then cmp t.tv_usec u.tv_usec else cmp t.tv_sec u.tv_sec

unfoldable pub less : Time → Time → Bool
less t u = timercmp ltb_ℤ t u

unfoldable pub less_equal : Time → Time → Bool
less_equal t u = timercmp leb_ℤ t u

unfoldable pub greater : Time → Time → Bool
greater t u = timercmp (λ a b. ltb_ℤ b a) t u

unfoldable pub greater_equal : Time → Time → Bool
greater_equal t u = timercmp (λ a b. leb_ℤ b a) t u

-- `operator !`
unfoldable pub is_zero : Time → Bool
is_zero t = eq_ℤ t.tv_sec (pos 0) && eq_ℤ t.tv_usec (pos 0)

unfoldable pub normalize : Time → Time
unfolding quot rem
normalize t =
    let sec = t.tv_sec +ℤ quot t.tv_usec 1000000 in
    let usec = rem t.tv_usec 1000000 in
    if ltb_ℤ usec (pos 0)
    then record { tv_sec = sec -ℤ pos 1; tv_usec = usec +ℤ pos 1000000 }
    else record { tv_sec = sec; tv_usec = usec }

-- `operator +=` and `operator +`
unfoldable pub add : Time → Time → Time
unfolding normalize
add t u = normalize (record { tv_sec = t.tv_sec +ℤ u.tv_sec; tv_usec = t.tv_usec +ℤ u.tv_usec })

-- `operator -=` and `operator -`
unfoldable pub sub : Time → Time → Time
unfolding normalize
sub t u = normalize (record { tv_sec = t.tv_sec -ℤ u.tv_sec; tv_usec = t.tv_usec -ℤ u.tv_usec })

unfoldable pub increment : Time → Time
increment t = record t { tv_sec = t.tv_sec +ℤ pos 1 }

unfoldable pub decrement : Time → Time
decrement t = record t { tv_sec = t.tv_sec -ℤ pos 1 }

abbrev pub secs : Time → ℤ
secs t = t.tv_sec

unfoldable pub msecs : Time → ℤ
unfolding times quot
msecs t = times 1000 t.tv_sec +ℤ quot t.tv_usec 1000

unfoldable pub usecs : Time → ℤ
unfolding times
usecs t = times 1000000 t.tv_sec +ℤ t.tv_usec
