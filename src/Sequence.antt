-- ===== src/Sequence.antt =====
-- What a list of include/eaf/utils/list.h promises: a sequence of distinct nodes. The list itself
-- (NodeList) refines these operations, and the service model is written over them.
use eaf.Prelude.{
  ℕ, ◌+◌, ◌-◌, ◌≡◌, refl, Bool, false, true, ◌||◌, List, [], ◌∷◌, ◌++◌, ◌==◌, if◌then◌else◌, arith,
  append-nil, ℕ_discrete,
}

abbrev pub has : ℕ → List ℕ → Bool
has a [] = false
has a (x ∷ xs) = (a == x) || has a xs

abbrev pub Distinct : List ℕ → Type 0
Distinct [] = Unit {0}
Distinct (x ∷ xs) = (has x xs ≡ false) × Distinct xs

-- The first node, or `d` if there is none.
abbrev pub first : List ℕ → ℕ → ℕ
first [] d = d
first (x ∷ xs) d = x

abbrev pub last : ℕ → List ℕ → ℕ
last d [] = d
last d (x ∷ xs) = last x xs

abbrev pub push_back {ℓ} : {A : Type ℓ} → List A → A → List A
push_back xs x = xs ++ x ∷ []

-- Drops the first occurrence.
abbrev pub erase : ℕ → List ℕ → List ℕ
erase a [] = []
erase a (x ∷ xs) = if a == x then xs else x ∷ erase a xs

-- How often a node stands in a sequence.
abbrev pub count : ℕ → List ℕ → ℕ
count a [] = 0
count a (x ∷ xs) = (if a == x then 1 else 0) + count a xs

pub has-append : (a : ℕ) (xs ys : List ℕ) → has a (xs ++ ys) ≡ (has a xs || has a ys)
has-append a [] ys = refl
has-append a (x ∷ xs) ys = ground (arith, has-append a xs ys)

pub count-append :
    (p : ℕ) (front back : List ℕ) → count p (front ++ back) ≡ count p front + count p back
count-append p [] back = omega arith
count-append p (q ∷ front) back = let rest = count-append p front back in omega (arith, rest)

pub count-erase :
    (a b : ℕ) (xs : List ℕ) → count a (erase b xs) ≡ (if a == b then count a xs - 1 else count a xs)
count-erase a b [] = ground arith
count-erase a b (x ∷ xs) = ground (arith, count-erase a b xs)

pub erase-append : (a : ℕ) (xs ys : List ℕ) → has a xs ≡ false → erase a (xs ++ a ∷ ys) ≡ xs ++ ys
erase-append a [] ys out = ground arith
erase-append a (x ∷ xs) ys out = ground (arith, erase-append a xs ys)

pub last-append : (d a : ℕ) (xs ys : List ℕ) → last d (xs ++ a ∷ ys) ≡ last a ys
last-append d a [] ys = refl
last-append d a (x ∷ xs) ys = last-append x a xs ys

pub first-append : (d a : ℕ) (xs ys : List ℕ) → first (xs ++ a ∷ ys) d ≡ first xs a
first-append d a [] ys = refl
first-append d a (x ∷ xs) ys = refl

-- The last node of a sequence that is not empty stands in it.
pub has-last : (d x : ℕ) (xs : List ℕ) → has (last x xs) (x ∷ xs) ≡ true
has-last d x [] = ground arith
has-last d x (y ∷ xs) = ground (arith, has-last d y xs)

-- A sequence of distinct nodes, split at one of them.
pub Distinct-split :
    (xs : List ℕ) (a : ℕ) (ys : List ℕ)
    → Distinct (xs ++ a ∷ ys)
    → (has a xs ≡ false) × (has a ys ≡ false) × Distinct (xs ++ ys)
Distinct-split [] a ys d = (refl, d.0, d.1)
Distinct-split (x ∷ xs) a ys d =
    let (out, out', d') = Distinct-split xs a ys d.1 in
    (
      ground (arith, has-append x xs (a ∷ ys)),
      out',
      (ground (arith, has-append x xs (a ∷ ys), has-append x xs ys), d'),
    )

pub Distinct-insert :
    (xs : List ℕ) (a : ℕ) (ys : List ℕ)
    → Distinct (xs ++ ys)
    → has a (xs ++ ys) ≡ false
    → Distinct (xs ++ a ∷ ys)
Distinct-insert [] a ys d out = (out, d)
Distinct-insert (x ∷ xs) a ys d out = (
  ground (arith, has-append x xs (a ∷ ys), has-append x xs ys),
  Distinct-insert xs a ys d.1 (ground arith),
)

pub Distinct-push_back :
    (xs : List ℕ) (a : ℕ) → Distinct xs → has a xs ≡ false → Distinct (push_back xs a)
Distinct-push_back xs a d out =
    Distinct-insert xs a [] (rw (append-nil xs) d) (rw (append-nil xs) out)

-- The two parts of a sequence of distinct nodes share none.
pub Distinct-append :
    (xs ys : List ℕ)
    → Distinct (xs ++ ys)
    → Distinct xs × Distinct ys × ((p : ℕ) → has p xs ≡ true → has p ys ≡ false)
Distinct-append [] ys d = (tt, d, λ p i. cc)
Distinct-append (x ∷ xs) ys d =
    let (dx, dy, apart) = Distinct-append xs ys d.1 in
    (
      (ground (arith, has-append x xs ys), dx),
      dy,
      λ p i. elim (ℕ_discrete p x) [
        | yes e ↦ rw e (ground (arith, has-append x xs ys))
        | no ne ↦ apart p (ground arith)
      ],
    )

pub not-has-append :
    (p : ℕ) (xs ys : List ℕ) → has p (xs ++ ys) ≡ false → (has p xs ≡ false) × (has p ys ≡ false)
not-has-append p xs ys o = ground (arith, has-append p xs ys)
