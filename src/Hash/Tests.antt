-- ===== src/Hash/Tests.antt =====
-- Hashes of three bytes.
use eaf.Prelude.{ℕ, ◌%◌, ◌^◌, ◌≡◌, List, [], ◌∷◌, ◌+◌, arith}
use eaf.Hash.{hash32_bkdr, hash64_bkdr}
use eaf.Hash.Polynomial.{polynomial, hash_bkdr_lem}

abbrev three_bytes : List ℕ
three_bytes = 101 ∷ 97 ∷ 102 ∷ []

abbrev high_seed : ℕ
high_seed = 2 ^ 63 + 5

hash_bkdr_lem_example :
    (hash32_bkdr three_bytes (high_seed % 2 ^ 32)
      ≡ polynomial three_bytes (high_seed % 2 ^ 32) % 2 ^ 32)
    × (hash64_bkdr three_bytes high_seed ≡ polynomial three_bytes high_seed % 2 ^ 64)
    × (hash32_bkdr three_bytes (high_seed % 2 ^ 32) ≡ hash64_bkdr three_bytes high_seed % 2 ^ 32)
hash_bkdr_lem_example = hash_bkdr_lem three_bytes high_seed (omega arith)
