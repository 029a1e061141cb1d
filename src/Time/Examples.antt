-- ===== src/Time/Examples.antt =====
-- time.hh: three quarters of a second past 2 seconds, and half a second past 5.
use napsteresque.Base.{◌≡◌, refl, pos, negsuc, ◌+ℤ◌, ◌-ℤ◌}
use napsteresque.Time.{Time, sub}

abbrev early : Time
early = record { tv_sec = pos 2; tv_usec = pos 750000 }

abbrev late : Time
late = record { tv_sec = pos 5; tv_usec = pos 500000 }

-- A difference below zero has its microseconds above it.
below_zero : sub early late ≡ record { tv_sec = negsuc 2; tv_usec = pos 250000 }
unfolding sub ◌-ℤ◌ ◌+ℤ◌
below_zero = refl
