-- ===== src/RingBuffer/Erasure.antt =====
-- The neighbours in a sequence of nodes once a node is gone.
use eaf.Prelude.{
  Bool-cases, List, [], ap, arith, false, if◌then◌else◌, inl, inr, refl, sym, true, ℕ, ◌++◌, ◌==◌,
  ◌∷◌, ◌≡◌, ◌≢◌,
}
use eaf.Sequence.{has, Distinct, first, last, erase, push_back, has-last}
use eaf.RingBuffer.Order.{after, before, after-ne, before-ne, before-default}

pub has-erase : (p q : ℕ) (xs : List ℕ) → q ≢ p → has q (erase p xs) ≡ has q xs
has-erase p q [] ne = refl
has-erase p q (x ∷ xs) ne = ground (arith, has-erase p q xs)

pub not-has-erase : (p : ℕ) (xs : List ℕ) → Distinct xs → has p (erase p xs) ≡ false
not-has-erase p [] d = refl
not-has-erase p (x ∷ xs) d = ground (arith, not-has-erase p xs d.1)

pub not-has-erase_out : (p q : ℕ) (xs : List ℕ) → has q xs ≡ false → has q (erase p xs) ≡ false
not-has-erase_out p q [] o = refl
not-has-erase_out p q (x ∷ xs) o = ground (arith, not-has-erase_out p q xs)

pub Distinct-erase : (p : ℕ) (xs : List ℕ) → Distinct xs → Distinct (erase p xs)
Distinct-erase p [] d = tt
Distinct-erase p (x ∷ xs) d = ground (arith, not-has-erase_out p x xs, Distinct-erase p xs d.1)

-- The neighbours once `p` is gone.
pub after-erase :
    (p q : ℕ) (xs : List ℕ)
    → Distinct xs
    → p ≢ 0
    → q ≢ p
    → has q xs ≡ true
    → after (erase p xs) q ≡ (if after xs q == p then after xs p else after xs q)
after-erase p q [] d np ne i = cc
after-erase p q (x ∷ []) d np ne i = ground arith
after-erase p q (x ∷ y ∷ xs) d np ne i =
    ground (arith, after-erase p q (y ∷ xs) d.1 np ne, after-ne (y ∷ xs) p q)

pub before-erase :
    (b p q : ℕ) (xs : List ℕ)
    → Distinct xs
    → b ≢ p
    → q ≢ p
    → has q xs ≡ true
    → before b (erase p xs) q ≡ (if before b xs q == p then before b xs p else before b xs q)
before-erase b p q [] d nb ne i = cc
before-erase b p q (x ∷ []) d nb ne i = ground arith
before-erase b p q (x ∷ y ∷ xs) d nb ne i =
    ground
      (arith, before-erase x p q (y ∷ xs) d.1, before-ne y xs x q, before-default b x (y ∷ xs) q)

pub first-erase :
    (p : ℕ) (xs : List ℕ)
    → first (erase p xs) 0 ≡ (if p == first xs 0 then after xs p else first xs 0)
first-erase p [] = ground arith
first-erase p (x ∷ xs) = ground arith

pub last-erase :
    (b p : ℕ) (xs : List ℕ)
    → Distinct xs
    → has b xs ≡ false
    → b ≢ p
    → last b (erase p xs) ≡ (if p == last b xs then before b xs p else last b xs)
last-erase b p [] d o ne = ground arith
last-erase b p (x ∷ []) d o ne = ground arith
last-erase b p (x ∷ y ∷ xs) d o ne = ground (arith, last-erase x p (y ∷ xs) d.1, has-last 0 y xs)

-- The erasure of a node from two parts that do not share it.
pub erase_out : (p : ℕ) (xs : List ℕ) → has p xs ≡ false → erase p xs ≡ xs
erase_out p [] o = refl
erase_out p (x ∷ xs) o = ground (arith, erase_out p xs)

pub erase-append_apart :
    (p : ℕ) (xs ys : List ℕ)
    → (has p xs ≡ true → has p ys ≡ false)
    → erase p (xs ++ ys) ≡ erase p xs ++ erase p ys
erase-append_apart p [] ys apart = refl
erase-append_apart p (x ∷ xs) ys apart = elim (Bool-cases (p == x)) [
  | inl e ↦ rw e (ap (λ t. xs ++ t) (sym (erase_out p ys (apart (ground arith)))))
  | inr ne ↦ rw ne (ap (λ t. x ∷ t) (erase-append_apart p xs ys (λ i. apart (ground arith))))
]

-- A node that is the first and the last is alone.
pub erase_single :
    (p : ℕ) (xs : List ℕ)
    → Distinct xs
    → has p xs ≡ true
    → p ≡ first xs 0
    → p ≡ last 0 xs
    → erase p xs ≡ []
erase_single p [] d i f l = refl
erase_single p (x ∷ []) d i f l = ground arith
erase_single p (x ∷ y ∷ xs) d i f l = ground (arith, has-last 0 y xs)

pub has-erase_sub : (p q : ℕ) (xs : List ℕ) → has q (erase p xs) ≡ true → has q xs ≡ true
has-erase_sub p q xs i = ground (arith, not-has-erase_out p q xs)

-- A sequence is its nodes but the last, and that.
pub push_back-erase :
    (b : ℕ) (xs : List ℕ) (p : ℕ)
    → Distinct xs
    → has p xs ≡ true
    → p ≡ last b xs
    → push_back (erase p xs) p ≡ xs
push_back-erase b [] p d i l = cc
push_back-erase b (x ∷ []) p d i l = ground arith
push_back-erase b (x ∷ y ∷ xs) p d i l =
    ground (arith, push_back-erase x (y ∷ xs) p d.1, has-last 0 y xs)
