-- ===== src/Clock/Add.antt =====
-- eaf_time_addclock_ext as an operation on the number of nanoseconds.
use eaf.Prelude.{
  ℕ, ◌+◌, ◌*◌, ◌%◌, ◌^◌, ◌≤◌, ◌<◌, ◌≡◌, refl, ◌⊎◌, inl, inr, Bool, true, false, ltb, not_ltb→le,
  ltb→lt, arith, Bool-cases,
}
use mathlib.Core.Path.{subst}
use eaf.Prelude.Int.{ℤ, pos, negsuc}
use eaf.Clock.{
  Clock, carry, carry_nsec, nsec_in_sec, ignores_overflow, fmtclock_ext, fix_nsec, add_nsec,
  add_sec, addclock_ext,
}
use eaf.Clock.Carry.{carry_lem}

abbrev pub total : Clock → ℕ
total c = c.tv_sec * 1_000_000_000 + c.tv_nsec

-- The least number of nanoseconds that a clock cannot hold.
abbrev pub total_end : ℕ
total_end = 2 ^ 64 * 1_000_000_000

-- A clock in the ranges of its fields.
abbrev pub IsClock : Clock → Type 0
IsClock c = (c.tv_sec < 2 ^ 64) × (c.tv_nsec < 2 ^ 32)

abbrev pub IsFormatted : Clock → Type 0
IsFormatted c = (c.tv_sec < 2 ^ 64) × (c.tv_nsec < 1_000_000_000)

-- Success with a sum, or -1 where the sum is too large, with `dst` as it was.
abbrev pub Sums : ℕ → Clock → ℤ × Clock → Type 0
Sums sum dst after =
    ((after.0 ≡ pos 0) × (total after.1 ≡ sum) × IsFormatted after.1)
    ⊎ ((after ≡ (negsuc 0, dst)) × (total_end ≤ sum))

-- The test `sec' < sec` after an addition sees whether it has wrapped.
pub wraps :
    (sec n after : ℕ)
    → sec < 2 ^ 64
    → n < 2 ^ 64
    → after ≡ (sec + n) % 2 ^ 64
    → ((ltb after sec ≡ false) × (after ≡ sec + n))
      ⊎ ((ltb after sec ≡ true) × (after + 2 ^ 64 ≡ sec + n))
wraps sec n after fits less e = elim (Bool-cases (ltb after sec)) [
  | inl smaller ↦ inr (smaller, omega (arith, ltb→lt after sec smaller, fits, less, e))
  | inr larger ↦ inl (larger, omega (arith, not_ltb→le after sec larger, fits, less, e))
]

-- What a step has made of `sum` nanoseconds, and whether it saw an overflow.
abbrev Stepped : ℕ → Clock → Bool → Type 0
Stepped sum after overflow =
    ((overflow ≡ false) × (total after ≡ sum))
    ⊎ ((overflow ≡ true) × (total after + total_end ≡ sum))

pub carry_nsec_lem :
    (c : Clock)
    → IsClock c
    → IsFormatted (carry_nsec c)
      × Stepped (total c) (carry_nsec c) (ltb (carry_nsec c).tv_sec c.tv_sec)
carry_nsec_lem c (sec_fits, nsec_fits) =
    let done =
      carry_lem nsec_in_sec c.tv_nsec c.tv_sec c.tv_nsec (omega arith) (omega arith) sec_fits in
    let sec_after = (carry nsec_in_sec c.tv_nsec c.tv_sec c.tv_nsec).0 in
    let seen =
      wraps c.tv_sec done.times sec_after sec_fits (omega (arith, done.part_eq, nsec_fits))
        done.sec_eq in
    (
      (omega (arith, done.sec_eq), done.part_small),
      elim seen [
        | inl (fits, e) ↦ inl (fits, omega (arith, e, done.part_eq))
        | inr (over, e) ↦ inr (over, omega (arith, e, done.part_eq))
      ],
    )

fix_nsec_lem :
    (dst tmp : Clock) → IsClock tmp → Sums (total tmp) dst (fix_nsec dst tmp true false 0)
unfolding fix_nsec
fix_nsec_lem dst tmp ok =
    let (formatted, seen) = carry_nsec_lem tmp ok in
    elim seen [
      | inl (fits, e) ↦ rw fits (inl (refl, e, formatted))
      | inr (over, e) ↦ rw over (inr (refl, omega (arith, e)))
    ]

add_nsec_lem :
    (dst tmp dif : Clock)
    → IsFormatted tmp
    → dif.tv_nsec < 2 ^ 32
    → Sums (total tmp + dif.tv_nsec) dst (add_nsec dst tmp dif true false 0)
unfolding add_nsec
add_nsec_lem dst tmp dif (sec_fits, nsec_small) dif_fits =
    let done =
      carry_lem nsec_in_sec dif.tv_nsec tmp.tv_sec dif.tv_nsec (omega arith) (omega arith)
        sec_fits in
    let (sec, nsec) = carry nsec_in_sec dif.tv_nsec tmp.tv_sec dif.tv_nsec in
    let seen =
      wraps tmp.tv_sec done.times sec sec_fits (omega (arith, done.part_eq, dif_fits))
        done.sec_eq in
    elim seen [
      | inl (fits, e) ↦
          let added : Clock = record { tv_sec = sec; tv_nsec = (tmp.tv_nsec + nsec) % 2 ^ 32 } in
          let fixed = fix_nsec_lem dst added (omega (arith, done.sec_eq), omega arith) in
          let same : total added ≡ total tmp + dif.tv_nsec =
            omega (arith, e, done.part_eq, done.part_small, nsec_small) in
          rw fits (subst (λ sum. Sums sum dst (fix_nsec dst added true false 0)) same fixed)
      | inr (over, e) ↦ rw over (inr (refl, omega (arith, e, done.part_eq)))
    ]

add_sec_lem :
    (dst tmp dif : Clock)
    → IsFormatted tmp
    → IsClock dif
    → Sums (total tmp + total dif) dst (add_sec dst tmp dif true false)
unfolding add_sec
add_sec_lem dst tmp dif (sec_fits, nsec_small) (dif_sec_fits, dif_fits) =
    let sec = (tmp.tv_sec + dif.tv_sec) % 2 ^ 64 in
    elim (wraps tmp.tv_sec dif.tv_sec sec sec_fits dif_sec_fits refl) [
      | inl (fits, e) ↦
          let added : Clock = record { tv_sec = sec; tv_nsec = tmp.tv_nsec } in
          let rest = add_nsec_lem dst added dif (omega arith, nsec_small) dif_fits in
          let same : total added + dif.tv_nsec ≡ total tmp + total dif = omega (arith, e) in
          rw fits (subst (λ sum. Sums sum dst (add_nsec dst added dif true false 0)) same rest)
      | inr (over, e) ↦ rw over (inr (refl, omega (arith, e)))
    ]

-- eaf_time_addclock_ext without EAF_TIME_IGNORE_OVERFLOW, of clocks whose fields are in their
-- ranges: it returns 0 and the sum of the times, with less than 1,000,000,000 ns beside the
-- seconds; or -1, with `*dst` as it was, and then the sum is not below 2 ^ 64 seconds.
pub addclock_ext_lem :
    (dst src dif : Clock) (flags : ℕ)
    → IsClock src
    → IsClock dif
    → ignores_overflow flags ≡ false
    → Sums (total src + total dif) dst (addclock_ext dst src dif flags)
unfolding addclock_ext fmtclock_ext
addclock_ext_lem dst src dif flags src_ok dif_ok strict =
    let (formatted, seen) = carry_nsec_lem src src_ok in
    elim seen [
      | inl (fits, e) ↦
          let rest = add_sec_lem dst (carry_nsec src) dif formatted dif_ok in
          rw (strict, fits)
            (subst (λ sum. Sums (sum + total dif) dst (add_sec dst (carry_nsec src) dif true false))
              e rest)
      | inr (over, e) ↦ rw (strict, over) (inr (refl, omega (arith, e)))
    ]
