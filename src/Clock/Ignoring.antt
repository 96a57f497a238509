-- ===== src/Clock/Ignoring.antt =====
-- eaf_time_addclock_ext with EAF_TIME_IGNORE_OVERFLOW: the sum is stored short of some multiple of
-- 2 ^ 64 seconds.
use eaf.Prelude.{
  ℕ, ◌+◌, ◌*◌, ◌%◌, ◌^◌, ◌≤◌, ◌<◌, ◌≡◌, ◌≢◌, refl, ◌⊎◌, inl, inr, Bool, true, false, arith, not,
  ne→false, suc, zero,
}
use mathlib.Core.Path.{subst, ap, ◌∙◌}
use eaf.Prelude.Int.{ℤ, pos, negsuc}
use eaf.Clock.{
  Clock, carry, carry_nsec, nsec_in_sec, ignores_overflow, fmtclock_ext, fix_nsec, add_nsec,
  add_sec, addclock_ext, sum_result, overflow_result,
}
use eaf.Clock.Carry.{carry_lem}
use eaf.Clock.Add.{total, total_end, IsClock, IsFormatted, carry_nsec_lem, wraps}

-- The sum, short of `times` overflows, of which the result counts those and `seen` before.
record Reduced (first : Bool) (seen sum : ℕ) (after : ℤ × Clock) : Type 0 where
  times : ℕ
  result_eq : after.0 ≡ sum_result first (seen + times)
  sum_eq : total after.1 + times * total_end ≡ sum
  formatted : IsFormatted after.1

-- One more overflow before.
once_more :
    {first : Bool} {seen sum : ℕ} {after : ℤ × Clock}
    → Reduced first (seen + 1) sum after
    → Reduced first seen (sum + total_end) after
once_more {first} {seen} reduced =
    let shift : seen + suc reduced.times ≡ seen + 1 + reduced.times = omega arith in
    record {
      times = suc reduced.times;
      result_eq = rw shift reduced.result_eq;
      sum_eq = omega (arith, reduced.sum_eq);
      formatted = reduced.formatted;
    }

none_more :
    {first : Bool} {seen sum : ℕ} {after : ℤ × Clock}
    → Reduced first (seen + 0) sum after
    → Reduced first seen sum after
none_more {first} {seen} reduced =
    let shift : seen + reduced.times ≡ seen + 0 + reduced.times = omega arith in
    record {
      times = reduced.times;
      result_eq = rw shift reduced.result_eq;
      sum_eq = reduced.sum_eq;
      formatted = reduced.formatted;
    }

fix_nsec_wraps :
    (dst tmp : Clock) (first : Bool) (seen : ℕ)
    → IsClock tmp
    → Reduced first seen (total tmp) (fix_nsec dst tmp false first seen)
unfolding fix_nsec
fix_nsec_wraps dst tmp first seen ok =
    let (formatted, step) = carry_nsec_lem tmp ok in
    elim step [
      | inl (fits, e) ↦
          rw fits (record {
            times = 0;
            result_eq = refl;
            sum_eq = omega (arith, e);
            formatted = formatted;
          })
      | inr (over, e) ↦
          rw over (record {
            times = 1;
            result_eq = refl;
            sum_eq = omega (arith, e);
            formatted = formatted;
          })
    ]

add_nsec_wraps :
    (dst tmp dif : Clock) (first : Bool) (seen : ℕ)
    → IsFormatted tmp
    → dif.tv_nsec < 2 ^ 32
    → Reduced first seen (total tmp + dif.tv_nsec) (add_nsec dst tmp dif false first seen)
unfolding add_nsec
add_nsec_wraps dst tmp dif first seen (sec_fits, nsec_small) dif_fits =
    let done =
      carry_lem nsec_in_sec dif.tv_nsec tmp.tv_sec dif.tv_nsec (omega arith) (omega arith)
        sec_fits in
    let (sec, nsec) = carry nsec_in_sec dif.tv_nsec tmp.tv_sec dif.tv_nsec in
    let step =
      wraps tmp.tv_sec done.times sec sec_fits (omega (arith, done.part_eq, dif_fits))
        done.sec_eq in
    let added : Clock = record { tv_sec = sec; tv_nsec = (tmp.tv_nsec + nsec) % 2 ^ 32 } in
    let fixed : (so_far : ℕ)
        → Reduced first so_far (total added) (fix_nsec dst added false first so_far) =
      λ so_far. fix_nsec_wraps dst added first so_far (omega (arith, done.sec_eq), omega arith) in
    elim step [
      | inl (fits, e) ↦
          let same : total added ≡ total tmp + dif.tv_nsec =
            omega (arith, e, done.part_eq, done.part_small, nsec_small) in
          rw fits (
            subst (λ sum. Reduced first seen sum (fix_nsec dst added false first (seen + 0))) same
              (none_more (fixed (seen + 0))))
      | inr (over, e) ↦
          let same : total added + total_end ≡ total tmp + dif.tv_nsec =
            omega (arith, e, done.part_eq, done.part_small, nsec_small) in
          rw over (
            subst (λ sum. Reduced first seen sum (fix_nsec dst added false first (seen + 1))) same
              (once_more (fixed (seen + 1))))
    ]

add_sec_wraps :
    (dst tmp dif : Clock) (first : Bool)
    → IsFormatted tmp
    → IsClock dif
    → Reduced first 0 (total tmp + total dif) (add_sec dst tmp dif false first)
unfolding add_sec
add_sec_wraps dst tmp dif first (sec_fits, nsec_small) (dif_sec_fits, dif_fits) =
    let sec = (tmp.tv_sec + dif.tv_sec) % 2 ^ 64 in
    let added : Clock = record { tv_sec = sec; tv_nsec = tmp.tv_nsec } in
    let rest : (so_far : ℕ)
        → Reduced first so_far (total added + dif.tv_nsec)
            (add_nsec dst added dif false first so_far) =
      λ so_far. add_nsec_wraps dst added dif first so_far (omega arith, nsec_small) dif_fits in
    elim (wraps tmp.tv_sec dif.tv_sec sec sec_fits dif_sec_fits refl) [
      | inl (fits, e) ↦
          let same : total added + dif.tv_nsec ≡ total tmp + total dif = omega (arith, e) in
          rw fits (
            subst (λ sum. Reduced first 0 sum (add_nsec dst added dif false first 0)) same (rest 0))
      | inr (over, e) ↦
          let same : total added + dif.tv_nsec + total_end ≡ total tmp + total dif =
            omega (arith, e) in
          rw over (
            subst (λ sum. Reduced first 0 sum (add_nsec dst added dif false first 1)) same
              (once_more (rest 1)))
    ]

-- The result after `times` overflows in all.
abbrev pub Told : Clock → ℕ → ℤ → Type 0
Told src times result =
    ((times ≡ 0) × (result ≡ pos 0))
    ⊎ ((0 < times) × ((times ≢ 2) ⊎ (total src < total_end)) × (result ≡ negsuc 0))
    ⊎ ((times ≡ 2) × (total_end ≤ total src) × (result ≡ pos 0))

abbrev pub Shortened : Clock → Clock → ℤ × Clock → Type 0
Shortened src dif after =
    (times : ℕ) × (total after.1 + times * total_end ≡ total src + total dif)
    × IsFormatted after.1
    × Told src times after.0

Told-first :
    (src : Clock) (times : ℕ) (result : ℤ)
    → total_end ≤ total src
    → result ≡ sum_result true (0 + times)
    → Told src (suc times) result
Told-first src zero result over e = inr (inl (omega arith, inl (omega arith), e))
Told-first src (suc zero) result over e = inr (inr (refl, over, e))
Told-first src (suc (suc times)) result over e = inr (
    inl (
      omega arith,
      inl (omega arith),
      e ∙ ap (λ b. overflow_result (not b)) (ne→false (0 + suc (suc times)) 1 (omega arith)),
    ))

Told-later :
    (src : Clock) (times : ℕ) (result : ℤ)
    → total src < total_end
    → result ≡ sum_result false (0 + times)
    → Told src times result
Told-later src zero result fits e = inl (refl, e)
Told-later src (suc times) result fits e = inr (
    inl (
      omega arith,
      inr fits,
      e ∙ ap (λ b. overflow_result (not b)) (ne→false (0 + suc times) 0 (omega arith)),
    ))

-- eaf_time_addclock_ext with EAF_TIME_IGNORE_OVERFLOW, of clocks whose fields are in their ranges:
-- it stores the sum short of some number of times 2 ^ 64 seconds, with less than 1,000,000,000 ns
-- beside the seconds. It returns 0 if that number is 0, and also if it is 2 and the first time
-- alone is not below 2 ^ 64 seconds; else -1.
pub addclock_ext_wraps :
    (dst src dif : Clock) (flags : ℕ)
    → IsClock src
    → IsClock dif
    → ignores_overflow flags ≡ true
    → Shortened src dif (addclock_ext dst src dif flags)
unfolding addclock_ext fmtclock_ext
addclock_ext_wraps dst src dif flags src_ok dif_ok ignoring =
    let (formatted, step) = carry_nsec_lem src src_ok in
    elim step [
      | inl (fits, e) ↦
          let rest = add_sec_wraps dst (carry_nsec src) dif false formatted dif_ok in
          let told = Told-later src rest.times _ (omega (arith, e, formatted)) rest.result_eq in
          rw (ignoring, fits) (rest.times, omega (arith, rest.sum_eq, e), rest.formatted, told)
      | inr (over, e) ↦
          let rest = add_sec_wraps dst (carry_nsec src) dif true formatted dif_ok in
          let told = Told-first src rest.times _ (omega (arith, e)) rest.result_eq in
          rw (ignoring, over) (suc rest.times, omega (arith, rest.sum_eq, e), rest.formatted, told)
    ]
