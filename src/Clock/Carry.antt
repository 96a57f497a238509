-- ===== src/Clock/Carry.antt =====
-- The loops of eaf_time_fmtclock_ext and eaf_time_addclock_ext as a division with remainder.
use Prim.Native.Nat.{zero, suc}
use eaf.Prelude.{
  ℕ, ◌+◌, ◌-◌, ◌*◌, ◌%◌, ◌^◌, ◌≤◌, ◌<◌, ◌≡◌, inl, inr, leb, Bool-cases, tests, not_leb→lt, arith,
}
use eaf.Clock.{carry}

-- What a loop has done to `sec` and `part`.
pub record Carried (unit sec part : ℕ) (after : ℕ × ℕ) : Type 0 where
  pub times : ℕ
  pub sec_eq : after.0 ≡ (sec + times) % 2 ^ 64
  pub part_eq : part ≡ times * unit + after.1
  pub part_small : after.1 < unit

-- The fuel of the loops is enough: with `part` rounds, they end with less than a unit.
pub carry_lem :
    (unit fuel sec part : ℕ)
    → 0 < unit
    → part ≤ fuel
    → sec < 2 ^ 64
    → Carried unit sec part (carry unit fuel sec part)
unfolding carry
carry_lem unit zero sec part positive enough fits = record {
  times = 0;
  sec_eq = omega (arith, fits);
  part_eq = omega arith;
  part_small = omega (arith, enough, positive);
}
carry_lem unit (suc fuel) sec part positive enough fits = elim (Bool-cases (leb unit part)) [
  | inl more ↦
      let rest =
        carry_lem unit fuel ((sec + 1) % 2 ^ 64) (part - unit) positive (omega (tests, more))
          (omega arith) in
      rw (more, carry)
        (record {
          times = suc rest.times;
          sec_eq = omega (arith, rest.sec_eq);
          part_eq = omega (tests, more, rest.part_eq);
          part_small = rest.part_small;
        })
  | inr less ↦
      rw (less, carry)
        (record {
          times = 0;
          sec_eq = omega (arith, fits);
          part_eq = omega arith;
          part_small = not_leb→lt unit part less;
        })
]
