-- ===== src/Clock.antt =====
-- powerpack/src/powerpack/time.c: the arithmetic of eaf_clock_time_t, which is the same on every
-- platform. A function that writes `*dst` takes its old value and returns its new one with the
-- result; as each one reads its other arguments before that write, they may alias.
pub mod Carry
pub mod Add
pub mod Ignoring
pub mod Diff
pub mod Tests
use Prim.Native.Nat.{zero, suc, bit_and}
use eaf.Prelude.{
  ℕ, ◌+◌, ◌-◌, ◌*◌, ◌%◌, ◌^◌, Bool, true, false, not, ◌&&◌, ◌||◌, Option, none, some, ltb, leb,
  ◌==◌, if◌then◌else◌,
}
use eaf.Prelude.Int.{ℤ, pos, negsuc, is_negative}

abbrev pub nsec_in_sec : ℕ
nsec_in_sec = 1_000_000_000

abbrev pub msec_in_sec : ℕ
msec_in_sec = 1000

-- `eaf_clock_time_t`
pub record Clock : Type 0 where
  tv_sec : ℕ
  tv_nsec : ℕ

-- A loop that takes `unit` from `part` and adds 1 to `sec` while it can. The fuel is `part` at its
-- start.
unfoldable pub carry : ℕ → ℕ → ℕ → ℕ → ℕ × ℕ
carry unit zero sec part = (sec, part)
carry unit (suc fuel) sec part = elim (leb unit part) [
  | true ↦ carry unit fuel ((sec + 1) % 2 ^ 64) (part - unit)
  | false ↦ (sec, part)
]

abbrev pub carry_nsec : Clock → Clock
carry_nsec c =
    let (sec, nsec) = carry nsec_in_sec c.tv_nsec c.tv_sec c.tv_nsec in
    record { tv_sec = sec; tv_nsec = nsec }

-- EAF_TIME_IGNORE_OVERFLOW
abbrev pub ignores_overflow : ℕ → Bool
ignores_overflow flags = not (bit_and flags 1 == 0)

-- `0 - flag_overflow`
abbrev pub overflow_result : Bool → ℤ
overflow_result true = negsuc 0
overflow_result false = pos 0

unfoldable pub fmtclock_ext : Clock → Clock → ℕ → ℤ × Clock
fmtclock_ext dst src flags =
    let tmp = carry_nsec src in
    let overflow = ltb tmp.tv_sec src.tv_sec in
    (overflow_result overflow, if overflow && not (ignores_overflow flags) then dst else tmp)

-- The result for an overflow of the first step, which counts as -1, and so many of the others.
abbrev pub sum_result : Bool → ℕ → ℤ
sum_result first others = overflow_result (not (others == (if first then 1 else 0)))

abbrev pub count_true : Bool → ℕ
count_true true = 1
count_true false = 0

-- eaf_time_addclock_ext from "Fix microseconds" on.
unfoldable pub fix_nsec : Clock → Clock → Bool → Bool → ℕ → ℤ × Clock
fix_nsec dst tmp stops first others =
    let fixed = carry_nsec tmp in
    let overflow = ltb fixed.tv_sec tmp.tv_sec in
    let result = sum_result first (others + count_true overflow) in
    (result, if overflow && stops then dst else fixed)

-- The same from "Convert microseconds to seconds" on.
unfoldable pub add_nsec : Clock → Clock → Clock → Bool → Bool → ℕ → ℤ × Clock
add_nsec dst tmp dif stops first others =
    let (sec, nsec) = carry nsec_in_sec dif.tv_nsec tmp.tv_sec dif.tv_nsec in
    let overflow = ltb sec tmp.tv_sec in
    let seen = others + count_true overflow in
    let added : Clock = record { tv_sec = sec; tv_nsec = (tmp.tv_nsec + nsec) % 2 ^ 32 } in
    if overflow && stops then (sum_result first seen, dst) else fix_nsec dst added stops first seen

-- The same from "Add seconds" on.
unfoldable pub add_sec : Clock → Clock → Clock → Bool → Bool → ℤ × Clock
add_sec dst tmp dif stops first =
    let sec = (tmp.tv_sec + dif.tv_sec) % 2 ^ 64 in
    let overflow = ltb sec tmp.tv_sec in
    let seen = count_true overflow in
    let added : Clock = record { tv_sec = sec; tv_nsec = tmp.tv_nsec } in
    if overflow && stops
    then (sum_result first seen, dst)
    else add_nsec dst added dif stops first seen

-- `tmp` is not initialised, and not read if it is not written; so its old value is any clock.
unfoldable pub addclock_ext : Clock → Clock → Clock → ℕ → ℤ × Clock
addclock_ext dst src dif flags =
    let stops = not (ignores_overflow flags) in
    let (formatted, tmp) = fmtclock_ext src src flags in
    let first = is_negative formatted in
    if first && stops then (sum_result first 0, dst) else add_sec dst tmp dif stops first

unfoldable pub addclock : Clock → Clock → ℤ × Clock
addclock dst dif = addclock_ext dst dst dif 0

unfoldable pub addclock_msec : Clock → ℕ → ℤ × Clock
addclock_msec dst msec =
    let (sec, rest) = carry msec_in_sec msec 0 msec in
    addclock dst (record { tv_sec = sec; tv_nsec = rest * 1000 * 1000 % 2 ^ 64 % 2 ^ 32 })

-- `large_t == t1`. Where `t1` and `t2` are the same pointer, both are both.
unfoldable pub first_is_large : Clock → Clock → Bool
first_is_large t1 t2 =
    if ltb t2.tv_sec t1.tv_sec
    then true
    else if ltb t1.tv_sec t2.tv_sec
    then false
    else ltb t2.tv_nsec t1.tv_nsec

unfoldable pub subtract : Clock → Clock → Clock
subtract large little =
    let sec = (large.tv_sec + 2 ^ 64 - little.tv_sec) % 2 ^ 64 in
    if ltb large.tv_nsec little.tv_nsec
    then record {
      tv_sec = (sec + 2 ^ 64 - 1) % 2 ^ 64;
      tv_nsec = (little.tv_nsec + 2 ^ 32 - large.tv_nsec) % 2 ^ 32;
    }
    else record { tv_sec = sec; tv_nsec = (large.tv_nsec + 2 ^ 32 - little.tv_nsec) % 2 ^ 32 }

-- The result and `*diff`.
unfoldable pub diffclock : Clock → Clock → ℤ × Clock
diffclock t1 t2 =
    let first_large = first_is_large t1 t2 in
    let diff = if first_large then subtract t1 t2 else subtract t2 t1 in
    let sign = if first_large then pos 1 else negsuc 0 in
    (if (diff.tv_sec == 0) && (diff.tv_nsec == 0) then pos 0 else sign, diff)
