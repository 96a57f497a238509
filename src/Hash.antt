-- ===== src/Hash.antt =====
-- powerpack/src/powerpack/hash.c: the BKDR hash of 32 and of 64 bits, of the bytes at `data`.
pub mod Polynomial
pub mod Tests
use eaf.Prelude.{ℕ, ◌+◌, ◌*◌, ◌%◌, ◌^◌, List, [], ◌∷◌}

unfoldable pub hash32_bkdr : List ℕ → ℕ → ℕ
hash32_bkdr [] seed = seed
hash32_bkdr (byte ∷ bytes) seed = hash32_bkdr bytes ((seed * 131313 + byte) % 2 ^ 32)

unfoldable pub hash64_bkdr : List ℕ → ℕ → ℕ
hash64_bkdr [] seed = seed
hash64_bkdr (byte ∷ bytes) seed = hash64_bkdr bytes ((seed * 131313 + byte) % 2 ^ 64)
