-- ===== src/Clock/Diff.antt =====
-- eaf_time_addclock, eaf_time_addclock_msec and eaf_time_diffclock.

use eaf.Prelude.{
  ℕ, ◌+◌, ◌*◌, ◌%◌, ◌^◌, ◌≤◌, ◌<◌, ◌≡◌, refl, ◌&&◌, ◌==◌, ◌⊎◌, inl, inr, true, false, ltb,
  not_ltb→le, ltb→lt, arith, Bool-cases,
}
use eaf.Prelude.Int.{ℤ, pos, negsuc}
use eaf.Clock.{
  Clock, carry, msec_in_sec, addclock, addclock_msec, first_is_large, subtract, diffclock,
}
use eaf.Clock.Carry.{carry_lem}
use eaf.Clock.Add.{total, IsClock, IsFormatted, Sums, addclock_ext_lem}
use mathlib.Core.Path.{subst, sym}

-- eaf_time_addclock_msec of a clock whose fields are in their ranges, and of any number of
-- milliseconds that a uint64_t holds: its loop ends, and it returns 0 and the time so much later,
-- with less than 1,000,000,000 ns beside the seconds; or -1, with `*dst` as it was, where that is
-- not below 2 ^ 64 seconds.
pub addclock_msec_lem :
    (dst : Clock) (msec : ℕ)
    → IsClock dst
    → msec < 2 ^ 64
    → Sums (total dst + msec * 1_000_000) dst (addclock_msec dst msec)
unfolding addclock_msec addclock
addclock_msec_lem dst msec ok fits =
    let done = carry_lem msec_in_sec msec 0 msec (omega arith) (omega arith) (omega arith) in
    let (sec, rest) = carry msec_in_sec msec 0 msec in
    let dif : Clock = record { tv_sec = sec; tv_nsec = rest * 1000 * 1000 % 2 ^ 64 % 2 ^ 32 } in
    let same : total dif ≡ msec * 1_000_000 =
      omega (arith, done.sec_eq, done.part_eq, done.part_small, fits) in
    let added = addclock_ext_lem dst dst dif 0 ok (omega (arith, done.sec_eq), omega arith) refl in
    subst (λ more. Sums (total dst + more) dst (addclock dst dif)) same added

-- The result for times `a` and `b`: 1, 0 or -1 for the greater, the same and the less.
pub data Compared (a b : ℕ) : ℤ → Type 0 where
  is_later : b < a → Compared a b (pos 1)
  is_same : a ≡ b → Compared a b (pos 0)
  is_earlier : a < b → Compared a b (negsuc 0)

-- What eaf_time_diffclock stores: the difference, if the nanoseconds of the later time are not
-- fewer; else its seconds are right and its nanoseconds are `little - large`.
abbrev pub Differs : Clock → Clock → Clock → Type 0
Differs large little diff =
    ((little.tv_nsec ≤ large.tv_nsec) × (total diff + total little ≡ total large))
    ⊎ ((large.tv_nsec < little.tv_nsec)
        × (diff.tv_sec + little.tv_sec + 1 ≡ large.tv_sec)
        × (diff.tv_nsec + large.tv_nsec ≡ little.tv_nsec))

subtract_lem :
    (large little : Clock)
    → IsFormatted large
    → IsFormatted little
    → total little ≤ total large
    → Differs large little (subtract large little)
unfolding subtract
subtract_lem large little large_ok little_ok le =
    elim (Bool-cases (ltb large.tv_nsec little.tv_nsec)) [
      | inl borrows ↦
          let less = ltb→lt large.tv_nsec little.tv_nsec borrows in
          rw borrows (inr (less, omega (arith, le, less), omega (arith, less)))
      | inr fits ↦
          let more = not_ltb→le large.tv_nsec little.tv_nsec fits in
          rw fits (inl (more, omega (arith, le, more)))
    ]

first_is_large_lem :
    (t1 t2 : Clock)
    → IsFormatted t1
    → IsFormatted t2
    → ((first_is_large t1 t2 ≡ true) × (total t2 < total t1))
      ⊎ ((first_is_large t1 t2 ≡ false) × (total t1 ≤ total t2))
unfolding first_is_large
first_is_large_lem t1 t2 (fits1, small1) (fits2, small2) =
    elim (Bool-cases (ltb t2.tv_sec t1.tv_sec)) [
      | inl later ↦ rw later (inl (refl, omega (arith, ltb→lt t2.tv_sec t1.tv_sec later, small2)))
      | inr not_later ↦ elim (Bool-cases (ltb t1.tv_sec t2.tv_sec)) [
        | inl earlier ↦
            rw (not_later, earlier)
              (inr (refl, omega (arith, ltb→lt t1.tv_sec t2.tv_sec earlier, small1)))
        | inr not_earlier ↦
            let le = not_ltb→le t2.tv_sec t1.tv_sec not_later in
            let ge = not_ltb→le t1.tv_sec t2.tv_sec not_earlier in
            elim (Bool-cases (ltb t2.tv_nsec t1.tv_nsec)) [
              | inl more ↦
                  rw (not_later, not_earlier, more)
                    (inl (refl, omega (arith, le, ge, ltb→lt t2.tv_nsec t1.tv_nsec more)))
              | inr not_more ↦
                  rw (not_later, not_earlier, not_more)
                    (inr (refl, omega (arith, le, ge, not_ltb→le t2.tv_nsec t1.tv_nsec not_more)))
            ]
      ]
    ]

-- The test of eaf_time_diffclock for times that are the same.
is_zero_lem :
    (large little diff : Clock)
    → IsFormatted little
    → total little ≤ total large
    → Differs large little diff
    → (((diff.tv_sec == 0) && (diff.tv_nsec == 0) ≡ true) × (total large ≡ total little))
      ⊎ (((diff.tv_sec == 0) && (diff.tv_nsec == 0) ≡ false) × (total little < total large))
is_zero_lem large little diff little_ok le differs = ground arith

-- eaf_time_diffclock of two times with less than 1,000,000,000 ns beside the seconds: it returns 1,
-- 0 or -1 as the first is later, the same or earlier. It stores their difference, if the later time
-- has not fewer nanoseconds beside its seconds; else the seconds of the difference, and as
-- nanoseconds by how many they are fewer, in place of 1,000,000,000 less that.
pub diffclock_lem :
    (t1 t2 : Clock)
    → IsFormatted t1
    → IsFormatted t2
    → Compared (total t1) (total t2) (diffclock t1 t2).0
      × (((total t2 ≤ total t1) × Differs t1 t2 (diffclock t1 t2).1)
          ⊎ ((total t1 ≤ total t2) × Differs t2 t1 (diffclock t1 t2).1))
unfolding diffclock
diffclock_lem t1 t2 ok1 ok2 = elim (first_is_large_lem t1 t2 ok1 ok2) [
  | inl (first, less) ↦
      let differs = subtract_lem t1 t2 ok1 ok2 (omega (arith, less)) in
      elim (is_zero_lem t1 t2 (subtract t1 t2) ok2 (omega (arith, less)) differs) [
        | inl (zero, e) ↦ absurd (omega (arith, e, less))
        | inr (apart, more) ↦ rw (first, apart) (is_later less, inl (omega (arith, less), differs))
      ]
  | inr (second, le) ↦
      let differs = subtract_lem t2 t1 ok2 ok1 le in
      elim (is_zero_lem t2 t1 (subtract t2 t1) ok1 le differs) [
        | inl (zero, e) ↦ rw (second, zero) (is_same (sym e), inr (le, differs))
        | inr (apart, less) ↦ rw (second, apart) (is_earlier less, inr (le, differs))
      ]
]
