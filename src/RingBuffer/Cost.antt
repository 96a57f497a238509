-- ===== src/RingBuffer/Cost.antt =====
-- EAF_ALIGN and eaf_ringbuffer_node_cost: the room of a node.
use Prim.Native.Nat.{bit_and}
use eaf.Prelude.{ℕ, ◌+◌, ◌*◌, ◌/◌, ◌-◌, ◌%◌, ◌^◌, ◌≤◌, ◌<◌, ◌≡◌, arith}
use eaf.Prelude.Bits.{bit_and_high, bit_and_low}
use eaf.RingBuffer.{align, node_cost, heap_cost}

clear_low : (a : ℕ) → a < 2 ^ 64 → bit_and a 0xffff_ffff_ffff_fff8 ≡ a / 8 * 8
clear_low a h =
    ground (arith, bit_and_high 3 (a / 8) (a % 8) (2 ^ 61 - 1), bit_and_low 61 0 (a / 8))

pub align_lem : (n : ℕ) → align n ≡ (n + 7) % 2 ^ 64 / 8 * 8
unfolding align
align_lem n = omega (arith, clear_low ((n + 7) % 2 ^ 64) (omega arith))

pub node_cost_eq : (n : ℕ) → node_cost n ≡ ((48 + n) % 2 ^ 64 + 7) % 2 ^ 64 / 8 * 8
unfolding node_cost
node_cost_eq n = align_lem ((48 + n) % 2 ^ 64)

pub heap_cost_eq : heap_cost ≡ 64
unfolding heap_cost
heap_cost_eq = align_lem 64

pub node_cost-aligned : (n : ℕ) → node_cost n % 8 ≡ 0
node_cost-aligned n = omega (arith, node_cost_eq n)

-- For a size that is not within 55 bytes of the end of `size_t`, eaf_ringbuffer_node_cost is at
-- least the header and the size, less than 8 bytes more, and a multiple of 8.
pub node_cost_bounds :
    (n : ℕ)
    → n + 55 < 2 ^ 64
    → (48 + n ≤ node_cost n) × (node_cost n < 56 + n) × (node_cost n % 8 ≡ 0)
node_cost_bounds n h = omega (arith, node_cost_eq n)
