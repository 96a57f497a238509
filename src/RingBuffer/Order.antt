-- ===== src/RingBuffer/Order.antt =====
-- The neighbours of a node in a sequence of nodes, as the links of the ring buffer hold them.
use eaf.Prelude.{List, [], arith, false, if◌then◌else◌, refl, true, ℕ, ◌++◌, ◌==◌, ◌∷◌, ◌≡◌, ◌≢◌}
use eaf.Sequence.{has, Distinct, first, last, push_back, has-last}

-- What follows `p`, and 0 behind the last node.
abbrev pub after : List ℕ → ℕ → ℕ
after [] p = 0
after (x ∷ xs) p = if p == x then first xs 0 else after xs p

-- What stands before `p`, and `b` before the first node.
abbrev pub before : ℕ → List ℕ → ℕ → ℕ
before b [] p = b
before b (x ∷ xs) p = if p == x then b else before x xs p

-- A neighbour stands in the sequence, or is the end.
pub after-ne : (xs : List ℕ) (p q : ℕ) → has p xs ≡ false → p ≢ 0 → after xs q ≢ p
after-ne [] p q o ne = ground arith
after-ne (x ∷ []) p q o ne = ground arith
after-ne (x ∷ y ∷ xs) p q o ne = ground (arith, after-ne (y ∷ xs) p q)

pub before-ne : (b : ℕ) (xs : List ℕ) (p q : ℕ) → has p xs ≡ false → p ≢ b → before b xs q ≢ p
before-ne b [] p q o ne = ground arith
before-ne b (x ∷ xs) p q o ne = ground (arith, before-ne x xs p q)

-- Only the first node sees what stands before the sequence.
pub before-default :
    (b c : ℕ) (xs : List ℕ) (p : ℕ)
    → has p xs ≡ true
    → before b xs p ≡ (if p == first xs 0 then b else before c xs p)
before-default b c [] p i = cc
before-default b c (x ∷ xs) p i = ground arith

-- The neighbours with `p` behind the last node.
pub after-push_back :
    (x : ℕ) (xs : List ℕ) (p q : ℕ)
    → Distinct (x ∷ xs)
    → has p (x ∷ xs) ≡ false
    → has q (x ∷ xs) ≡ true
    → after (x ∷ push_back xs p) q ≡ (if q == last x xs then p else after (x ∷ xs) q)
after-push_back x [] p q d o i = ground arith
after-push_back x (y ∷ xs) p q d o i = ground (arith, after-push_back y xs p q d.1, has-last 0 y xs)

pub after-push_back_self : (xs : List ℕ) (p : ℕ) → has p xs ≡ false → after (push_back xs p) p ≡ 0
after-push_back_self [] p o = ground arith
after-push_back_self (x ∷ xs) p o = ground (arith, after-push_back_self xs p)

pub before-push_back :
    (b : ℕ) (xs : List ℕ) (p q : ℕ) → has q xs ≡ true → before b (push_back xs p) q ≡ before b xs q
before-push_back b [] p q i = cc
before-push_back b (x ∷ xs) p q i = ground (arith, before-push_back x xs p q)

pub before-push_back_self :
    (b : ℕ) (xs : List ℕ) (p : ℕ) → has p xs ≡ false → before b (push_back xs p) p ≡ last b xs
before-push_back_self b [] p o = ground arith
before-push_back_self b (x ∷ xs) p o = ground (arith, before-push_back_self x xs p)

-- One node follows another exactly when that stands before it.
pub adjacent :
    (b : ℕ) (xs : List ℕ) (p q : ℕ)
    → Distinct xs
    → has b xs ≡ false
    → p ≢ 0
    → has p xs ≡ true
    → has q xs ≡ true
    → (after xs q == p) ≡ (before b xs p == q)
adjacent b [] p q d o np ip iq = cc
adjacent b (x ∷ []) p q d o np ip iq = ground arith
adjacent b (x ∷ y ∷ xs) p q d o np ip iq = ground (
  arith,
  adjacent x (y ∷ xs) p q d.1,
  before-default x b (y ∷ xs) p,
  before-ne b (y ∷ xs) x p,
  after-ne (y ∷ xs) x q,
)

-- The ends of a sequence are the nodes with no neighbour there.
pub after-last :
    (b : ℕ) (xs : List ℕ) (q : ℕ)
    → Distinct xs
    → has 0 xs ≡ false
    → has q xs ≡ true
    → (after xs q == 0) ≡ (q == last b xs)
after-last b [] q d o i = cc
after-last b (x ∷ []) q d o i = ground arith
after-last b (x ∷ y ∷ xs) q d o i = ground (arith, after-last x (y ∷ xs) q d.1, has-last 0 y xs)

pub before-first :
    (xs : List ℕ) (q : ℕ)
    → Distinct xs
    → has 0 xs ≡ false
    → has q xs ≡ true
    → (before 0 xs q == 0) ≡ (q == first xs 0)
before-first [] q d o i = cc
before-first (x ∷ []) q d o i = ground arith
before-first (x ∷ y ∷ xs) q d o i = ground (arith, before-ne x (y ∷ xs) 0 q)

-- The neighbours of a node between two parts.
pub after-middle :
    (xs : List ℕ) (p : ℕ) (ys : List ℕ) → has p xs ≡ false → after (xs ++ p ∷ ys) p ≡ first ys 0
after-middle [] p ys o = ground arith
after-middle (x ∷ xs) p ys o = ground (arith, after-middle xs p ys)

pub before-middle :
    (b : ℕ) (xs : List ℕ) (p : ℕ) (ys : List ℕ)
    → has p xs ≡ false
    → before b (xs ++ p ∷ ys) p ≡ last b xs
before-middle b [] p ys o = ground arith
before-middle b (x ∷ xs) p ys o = ground (arith, before-middle x xs p ys)

-- No node is its own neighbour.
pub after_self : (xs : List ℕ) (p : ℕ) → Distinct xs → p ≢ 0 → after xs p ≢ p
after_self [] p d np = ground arith
after_self (x ∷ []) p d np = ground arith
after_self (x ∷ y ∷ xs) p d np = ground (arith, after_self (y ∷ xs) p d.1 np)

pub before_self :
    (b : ℕ) (xs : List ℕ) (p : ℕ) → Distinct xs → has b xs ≡ false → b ≢ p → before b xs p ≢ p
before_self b [] p d o ne = ground arith
before_self b (x ∷ xs) p d o ne = ground (arith, before_self x xs p d.1 d.0)

-- What follows a node of the first of two parts.
pub after-append :
    (xs ys : List ℕ) (p : ℕ)
    → has 0 xs ≡ false
    → has p xs ≡ true
    → after (xs ++ ys) p ≡ (if after xs p == 0 then first ys 0 else after xs p)
after-append [] ys p o i = cc
after-append (x ∷ []) ys p o i = ground arith
after-append (x ∷ y ∷ xs) ys p o i = ground (arith, after-append (y ∷ xs) ys p)

pub has-after : (xs : List ℕ) (p : ℕ) → after xs p ≢ 0 → has (after xs p) xs ≡ true
has-after [] p ne = absurd (ne refl)
has-after (x ∷ []) p ne = ground arith
has-after (x ∷ y ∷ xs) p ne = ground (arith, has-after (y ∷ xs) p)
