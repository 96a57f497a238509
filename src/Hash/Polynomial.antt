-- ===== src/Hash/Polynomial.antt =====
-- The hashes as a polynomial in the seed and the bytes.
use native.Mathlib.Nat.{pow-suc}
use eaf.Prelude.{ℕ, ◌+◌, ◌*◌, ◌%◌, ◌^◌, ◌<◌, ◌≡◌, List, [], ◌∷◌, length, sym, ◌∙◌, ap, arith}
use eaf.Hash.{hash32_bkdr, hash64_bkdr}

-- The bytes as digits to the base 131313, the first the highest.
abbrev pub value : List ℕ → ℕ
value [] = 0
value (byte ∷ bytes) = byte * 131313 ^ length bytes + value bytes

abbrev pub polynomial : List ℕ → ℕ → ℕ
polynomial bytes seed = seed * 131313 ^ length bytes + value bytes

polynomial_step :
    (byte : ℕ) (bytes : List ℕ) (seed : ℕ)
    → polynomial (byte ∷ bytes) seed ≡ polynomial bytes (seed * 131313 + byte)
polynomial_step byte bytes seed =
    omega (arith, ap (λ (t : ℕ). seed * t) (pow-suc 131313 (length bytes)))

-- Seeds that agree in the low bits give values that do.
low32 :
    (bytes : List ℕ) (a b : ℕ)
    → a % 2 ^ 32 ≡ b % 2 ^ 32
    → polynomial bytes a % 2 ^ 32 ≡ polynomial bytes b % 2 ^ 32
low32 [] a b e = omega (arith, e)
low32 (byte ∷ bytes) a b e =
    let rest = low32 bytes (a * 131313 + byte) (b * 131313 + byte) (omega (arith, e)) in
    rw (polynomial_step byte bytes a, polynomial_step byte bytes b) rest

low64 :
    (bytes : List ℕ) (a b : ℕ)
    → a % 2 ^ 64 ≡ b % 2 ^ 64
    → polynomial bytes a % 2 ^ 64 ≡ polynomial bytes b % 2 ^ 64
low64 [] a b e = omega (arith, e)
low64 (byte ∷ bytes) a b e =
    let rest = low64 bytes (a * 131313 + byte) (b * 131313 + byte) (omega (arith, e)) in
    rw (polynomial_step byte bytes a, polynomial_step byte bytes b) rest

hash32 :
    (bytes : List ℕ) (seed : ℕ)
    → seed < 2 ^ 32
    → hash32_bkdr bytes seed ≡ polynomial bytes seed % 2 ^ 32
unfolding hash32_bkdr
hash32 [] seed fits = omega (arith, fits)
hash32 (byte ∷ bytes) seed fits =
    let next = seed * 131313 + byte in
    hash32 bytes (next % 2 ^ 32) (omega arith)
    ∙ low32 bytes (next % 2 ^ 32) next (omega arith)
    ∙ ap (λ (t : ℕ). t % 2 ^ 32) (sym (polynomial_step byte bytes seed))

hash64 :
    (bytes : List ℕ) (seed : ℕ)
    → seed < 2 ^ 64
    → hash64_bkdr bytes seed ≡ polynomial bytes seed % 2 ^ 64
unfolding hash64_bkdr
hash64 [] seed fits = omega (arith, fits)
hash64 (byte ∷ bytes) seed fits =
    let next = seed * 131313 + byte in
    hash64 bytes (next % 2 ^ 64) (omega arith)
    ∙ low64 bytes (next % 2 ^ 64) next (omega arith)
    ∙ ap (λ (t : ℕ). t % 2 ^ 64) (sym (polynomial_step byte bytes seed))

-- eaf_hash32_bkdr and eaf_hash64_bkdr of seeds of their widths are the low 32 and 64 bits of one
-- number: the seed and the bytes as digits to the base 131313, the seed the highest. So
-- eaf_hash32_bkdr of the low 32 bits of a seed is the low 32 bits of eaf_hash64_bkdr.
pub hash_bkdr_lem :
    (bytes : List ℕ) (seed : ℕ)
    → seed < 2 ^ 64
    → (hash32_bkdr bytes (seed % 2 ^ 32) ≡ polynomial bytes (seed % 2 ^ 32) % 2 ^ 32)
      × (hash64_bkdr bytes seed ≡ polynomial bytes seed % 2 ^ 64)
      × (hash32_bkdr bytes (seed % 2 ^ 32) ≡ hash64_bkdr bytes seed % 2 ^ 32)
hash_bkdr_lem bytes seed fits =
    let short = hash32 bytes (seed % 2 ^ 32) (omega arith) in
    let long = hash64 bytes seed fits in
    let low = low32 bytes (seed % 2 ^ 32) seed (omega arith) in
    (short, long, omega (arith, short, long, low))
