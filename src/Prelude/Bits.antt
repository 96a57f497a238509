-- ===== src/Prelude/Bits.antt =====
-- `&` and `|` with masks of consecutive bits, as arithmetic.
use Prim.Native.Nat.{ℕ, zero, suc, ◌+◌, ◌*◌, ◌/◌, ◌%◌, ◌^◌, ◌<◌, ◌-◌, ◌≤◌, min, max}
use Prim.Native.Nat.{digits, bitwise, bit_and, bit_or, bit_and-bitwise, bit_or-bitwise}
use native.Mathlib.Nat.{pow-suc, one-le-pow}
use mathlib.Core.Path.{◌≡◌, refl, ap}
use native.Mathlib.Omega.{arith}

-- One more unit of fuel changes nothing, once there is enough.
module _ (tail : ℕ → ℕ) (digit : ℕ → ℕ → ℕ) where
  spare_fuel :
      (x y less more : ℕ)
      → x ≤ less
      → x ≤ more
      → digits tail digit less x y ≡ digits tail digit more x y
  spare_fuel x y zero zero l m = refl
  spare_fuel zero y zero (suc more) l m = refl
  spare_fuel zero y (suc less) zero l m = refl
  spare_fuel zero y (suc less) (suc more) l m = refl
  spare_fuel (suc x) y zero (suc more) l m = absurd (omega (arith, l))
  spare_fuel (suc x) y (suc less) zero l m = absurd (omega (arith, m))
  spare_fuel (suc x) y (suc less) (suc more) l m =
      let halves = spare_fuel (suc x / 2) (y / 2) less more in
      rw (halves (omega (arith, l)) (omega (arith, m)))

  lowest_digit :
      (x y : ℕ)
      → bitwise tail digit (suc x) y
        ≡ bitwise tail digit (suc x / 2) (y / 2) * 2 + digit (suc x % 2) (y % 2)
  lowest_digit x y =
      let half = suc x / 2 in
      omega (arith, spare_fuel half (y / 2) x half (omega arith) (omega arith))

bit_and_step : (x y : ℕ) → bit_and x y ≡ bit_and (x / 2) (y / 2) * 2 + min (x % 2) (y % 2)
bit_and_step zero y = simp bit_and-bitwise (omega arith)
bit_and_step (suc x) y = simp bit_and-bitwise (lowest_digit (λ t. 0) min x y)

bit_or_step : (x y : ℕ) → bit_or x y ≡ bit_or (x / 2) (y / 2) * 2 + max (x % 2) (y % 2)
bit_or_step zero y = simp bit_or-bitwise (omega arith)
bit_or_step (suc x) y = simp bit_or-bitwise (lowest_digit (λ t. t) max x y)

-- The least number is absorbed by `&` and dropped by `|`.
with_zero : (fuel x : ℕ) → x ≤ fuel → (bit_and x 0 ≡ 0) × (bit_or x 0 ≡ x)
with_zero fuel zero enough = (refl, refl)
with_zero zero (suc x) enough = absurd (omega (arith, enough))
with_zero (suc fuel) (suc x) enough =
    let (low, whole) = with_zero fuel (suc x / 2) (omega (arith, enough)) in
    (omega (arith, low, bit_and_step (suc x) 0), omega (arith, whole, bit_or_step (suc x) 0))

zero-bit_or : (a : ℕ) → bit_or 0 a ≡ a
zero-bit_or a = simp bit_or-bitwise

scale-suc : (q k : ℕ) → q * 2 ^ suc k ≡ 2 * (q * 2 ^ k)
scale-suc q k = omega (arith, ap (λ (t : ℕ). q * t) (pow-suc 2 k))

-- A mask of the `k` low bits keeps the low field of a number.
pub bit_and_low : (k q r : ℕ) → r < 2 ^ k → bit_and (q * 2 ^ k + r) (2 ^ k - 1) ≡ r
bit_and_low zero q r fits = ground (arith, (with_zero q q (omega arith)).0)
bit_and_low (suc k) q r fits = ground (
  arith,
  bit_and_step (q * 2 ^ suc k + r) (2 ^ suc k - 1),
  scale-suc q k,
  pow-suc 2 k,
  one-le-pow k 2,
  bit_and_low k q (r / 2) (omega (arith, pow-suc 2 k)),
)

-- A mask that is clear in the `k` low bits works on the field above them.
pub bit_and_high :
    (k q r m : ℕ) → r < 2 ^ k → bit_and (q * 2 ^ k + r) (m * 2 ^ k) ≡ bit_and q m * 2 ^ k
bit_and_high zero q r m fits = ground arith
bit_and_high (suc k) q r m fits = ground (
  arith,
  bit_and_step (q * 2 ^ suc k + r) (m * 2 ^ suc k),
  scale-suc q k,
  scale-suc m k,
  scale-suc (bit_and q m) k,
  pow-suc 2 k,
  bit_and_high k q (r / 2) m (omega (arith, pow-suc 2 k)),
)

-- `|` of two fields that do not overlap is their sum.
pub bit_or_fields : (k q r : ℕ) → r < 2 ^ k → bit_or (q * 2 ^ k) r ≡ q * 2 ^ k + r
bit_or_fields zero q r fits = ground (arith, (with_zero q q (omega arith)).1)
bit_or_fields (suc k) q r fits = ground (
  arith,
  bit_or_step (q * 2 ^ suc k) r,
  scale-suc q k,
  bit_or_fields k q (r / 2) (omega (arith, pow-suc 2 k)),
)

pub bit_or_fields' : (k q r : ℕ) → r < 2 ^ k → bit_or r (q * 2 ^ k) ≡ q * 2 ^ k + r
bit_or_fields' zero q r fits = ground (arith, zero-bit_or q)
bit_or_fields' (suc k) q r fits = ground (
  arith,
  bit_or_step r (q * 2 ^ suc k),
  scale-suc q k,
  bit_or_fields' k q (r / 2) (omega (arith, pow-suc 2 k)),
)

-- The masks of the message word: 15 bits of receipt, the rest, and 32 bits.
pub bit_and_receipt : (a : ℕ) → bit_and a 0x7fff ≡ a % 2 ^ 15
bit_and_receipt a = ground (arith, bit_and_low 15 (a / 2 ^ 15) (a % 2 ^ 15))

pub bit_and_low32 : (a : ℕ) → bit_and a 0xffff_ffff ≡ a % 2 ^ 32
bit_and_low32 a = ground (arith, bit_and_low 32 (a / 2 ^ 32) (a % 2 ^ 32))

pub bit_and_no_receipt :
    (a : ℕ) → a < 2 ^ 64 → bit_and a 0xffff_ffff_ffff_8000 ≡ a / 2 ^ 15 * 2 ^ 15
bit_and_no_receipt a h =
    ground
      (arith, bit_and_high 15 (a / 2 ^ 15) (a % 2 ^ 15) (2 ^ 49 - 1), bit_and_low 49 0 (a / 2 ^ 15))

pub bit_and_req : (a : ℕ) → bit_and a 0x8000 ≡ a / 2 ^ 15 % 2 * 2 ^ 15
bit_and_req a = ground (
  arith,
  bit_and_high 15 (a / 2 ^ 15) (a % 2 ^ 15) 1,
  bit_and_low 1 (a / 2 ^ 15 / 2) (a / 2 ^ 15 % 2),
)
