-- ===== src/Clock/Tests.antt =====
-- Sums and differences of times.
use eaf.Prelude.{◌+◌, ◌-◌, ◌*◌, ◌^◌, ◌≤◌, ◌≡◌, refl, ◌⊎◌, arith}
use eaf.Prelude.Int.{pos, negsuc}
use eaf.Clock.{
  Clock, fmtclock_ext, addclock_ext, addclock_msec, diffclock, carry, add_sec, add_nsec, fix_nsec,
  first_is_large, subtract,
}
use eaf.Clock.Add.{total, Sums, addclock_ext_lem}
use eaf.Clock.Ignoring.{Shortened, addclock_ext_wraps}
use eaf.Clock.Diff.{Compared, Differs, addclock_msec_lem, diffclock_lem}

abbrev early : Clock
early = record { tv_sec = 3; tv_nsec = 700_000_000 }

abbrev late : Clock
late = record { tv_sec = 5; tv_nsec = 600_000_000 }

-- Not formatted, and past the last second.
abbrev last : Clock
last = record { tv_sec = 2 ^ 64 - 1; tv_nsec = 3_000_000_000 }

sum_of_times :
    addclock_ext last early late 0 ≡ (pos 0, record { tv_sec = 9; tv_nsec = 300_000_000 })
unfolding addclock_ext fmtclock_ext carry add_sec add_nsec fix_nsec
sum_of_times = refl

too_late : addclock_ext early last late 0 ≡ (negsuc 0, early)
unfolding addclock_ext fmtclock_ext carry add_sec add_nsec fix_nsec
too_late = refl

two_overflows : (addclock_ext early last last 1).0 ≡ pos 0
unfolding addclock_ext fmtclock_ext carry add_sec add_nsec fix_nsec
two_overflows = refl

wrong_difference : (diffclock late early).1 ≡ record { tv_sec = 1; tv_nsec = 100_000_000 }
unfolding diffclock first_is_large subtract
wrong_difference = refl

addclock_ext_lem_example : Sums (total early + total late) last (addclock_ext last early late 0)
addclock_ext_lem_example =
    addclock_ext_lem last early late 0 (omega arith, omega arith) (omega arith, omega arith) refl

addclock_ext_wraps_example : Shortened last last (addclock_ext early last last 1)
addclock_ext_wraps_example =
    addclock_ext_wraps early last last 1 (omega arith, omega arith) (omega arith, omega arith) refl

addclock_msec_lem_example : Sums (total early + 2500 * 1_000_000) early (addclock_msec early 2500)
addclock_msec_lem_example = addclock_msec_lem early 2500 (omega arith, omega arith) (omega arith)

diffclock_lem_example :
    Compared (total late) (total early) (diffclock late early).0
    × (((total early ≤ total late) × Differs late early (diffclock late early).1)
        ⊎ ((total late ≤ total early) × Differs early late (diffclock late early).1))
diffclock_lem_example =
    diffclock_lem late early (omega arith, omega arith) (omega arith, omega arith)
