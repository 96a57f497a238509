-- ===== src/RingBuffer/Room.antt =====
-- The layout of the nodes in the cache.
use eaf.Prelude.{ℕ, ◌+◌, ◌≤◌, ◌<◌, ◌≡◌, refl, false, true, List, [], ◌∷◌, ◌++◌, arith}
use eaf.Sequence.{has, first, last, erase}
use eaf.RingBuffer.{Ptr, node_cost}
use eaf.RingBuffer.Ring.{Fits}

-- Each node takes some room.
abbrev pub Sized : (Ptr → ℕ) → List Ptr → Type 0
Sized size xs = (p : Ptr) → has p xs ≡ true → 0 < node_cost (size p)

-- The first address behind the nodes.
abbrev pub edge : (Ptr → ℕ) → Ptr → List Ptr → Ptr
edge size lo [] = lo
edge size lo (x ∷ xs) = edge size (x + node_cost (size x)) xs

module _ (size : Ptr → ℕ) where
  pub edge-last :
      (lo x : Ptr) (xs : List Ptr)
      → edge size lo (x ∷ xs) ≡ last x xs + node_cost (size (last x xs))
  edge-last lo x [] = refl
  edge-last lo x (y ∷ xs) = edge-last lo y xs

  pub Fits-le : (lo : Ptr) (xs : List Ptr) (hi : Ptr) → Fits size lo xs hi → lo ≤ hi
  Fits-le lo [] hi f = f
  Fits-le lo (x ∷ xs) hi f = omega (arith, Fits-le (x + node_cost (size x)) xs hi f.1)

  pub Fits-edge :
      (lo : Ptr) (xs ys : List Ptr) (hi : Ptr)
      → Fits size lo (xs ++ ys) hi
      → edge size lo xs ≤ first ys hi
  Fits-edge lo [] [] hi f = f
  Fits-edge lo [] (y ∷ ys) hi f = f.0
  Fits-edge lo (x ∷ xs) ys hi f = Fits-edge (x + node_cost (size x)) xs ys hi f.1

  pub Fits-lower :
      (lo lo' : Ptr) (xs : List Ptr) (hi : Ptr)
      → lo' ≤ lo
      → Fits size lo xs hi
      → Fits size lo' xs hi
  Fits-lower lo lo' [] hi h f = omega arith
  Fits-lower lo lo' (x ∷ xs) hi h f = (omega arith, f.1)

  pub Fits-insert :
      (lo : Ptr) (xs : List Ptr) (p : Ptr) (ys : List Ptr) (hi : Ptr)
      → Fits size lo (xs ++ ys) hi
      → edge size lo xs ≤ p
      → p + node_cost (size p) ≤ first ys hi
      → Fits size lo (xs ++ p ∷ ys) hi
  Fits-insert lo [] p [] hi f e r = (e, r)
  Fits-insert lo [] p (y ∷ ys) hi f e r = (e, (r, f.1))
  Fits-insert lo (x ∷ xs) p ys hi f e r =
      (f.0, Fits-insert (x + node_cost (size x)) xs p ys hi f.1 e r)

  pub Fits-erase :
      (p lo : Ptr) (xs : List Ptr) (hi : Ptr) → Fits size lo xs hi → Fits size lo (erase p xs) hi
  Fits-erase p lo [] hi f = f
  Fits-erase p lo (x ∷ xs) hi f = ground (
    arith,
    Fits-lower (x + node_cost (size x)) lo xs hi,
    Fits-erase p (x + node_cost (size x)) xs hi f.1,
  )

  -- Each node lies between the bounds, and two nodes do not overlap.
  pub Fits-within :
      (lo : Ptr) (xs : List Ptr) (hi p : Ptr)
      → Fits size lo xs hi
      → has p xs ≡ true
      → (lo ≤ p) × (p + node_cost (size p) ≤ hi)
  Fits-within lo [] hi p f i = cc
  Fits-within lo (x ∷ xs) hi p f i = ground (
    arith,
    Fits-le (x + node_cost (size x)) xs hi f.1,
    Fits-within (x + node_cost (size x)) xs hi p f.1,
  )

  pub Fits-apart :
      (lo : Ptr) (xs : List Ptr) (hi p q : Ptr)
      → Fits size lo xs hi
      → has p xs ≡ true
      → has q xs ≡ true
      → p < q
      → p + node_cost (size p) ≤ q
  Fits-apart lo [] hi p q f ip iq lt = cc
  Fits-apart lo (x ∷ xs) hi p q f ip iq lt = ground (
    arith,
    Fits-within (x + node_cost (size x)) xs hi p f.1,
    Fits-within (x + node_cost (size x)) xs hi q f.1,
    Fits-apart (x + node_cost (size x)) xs hi p q f.1,
  )

  -- An address from the edge on is the address of none of the nodes.
  pub not-has-edge :
      (lo : Ptr) (xs : List Ptr) (p : Ptr)
      → Sized size xs
      → edge size lo xs ≤ p
      → Fits size lo xs (edge size lo xs)
      → has p xs ≡ false
  not-has-edge lo [] p s e f = refl
  not-has-edge lo (x ∷ xs) p s e f = ground (
    arith,
    s x,
    Fits-le (x + node_cost (size x)) xs _ f.1,
    not-has-edge (x + node_cost (size x)) xs p (λ q i. s q (ground arith)),
  )

  -- The nodes on either side of the edge.
  pub Fits-left :
      (lo : Ptr) (xs ys : List Ptr) (hi : Ptr)
      → Fits size lo (xs ++ ys) hi
      → Fits size lo xs (edge size lo xs)
  Fits-left lo [] ys hi f = omega arith
  Fits-left lo (x ∷ xs) ys hi f = (f.0, Fits-left (x + node_cost (size x)) xs ys hi f.1)

  pub Fits-right :
      (lo : Ptr) (xs ys : List Ptr) (hi : Ptr)
      → Fits size lo (xs ++ ys) hi
      → Fits size (edge size lo xs) ys hi
  Fits-right lo [] ys hi f = f
  Fits-right lo (x ∷ xs) ys hi f = Fits-right (x + node_cost (size x)) xs ys hi f.1

  pub not-has-below :
      (lo : Ptr) (xs : List Ptr) (hi p : Ptr) → Fits size lo xs hi → p < lo → has p xs ≡ false
  not-has-below lo [] hi p f l = refl
  not-has-below lo (x ∷ xs) hi p f l =
      ground (arith, not-has-below (x + node_cost (size x)) xs hi p f.1)

pub Fits-same :
    (size size' : Ptr → ℕ) (lo : Ptr) (xs : List Ptr) (hi : Ptr)
    → ((p : Ptr) → has p xs ≡ true → size' p ≡ size p)
    → Fits size lo xs hi
    → Fits size' lo xs hi
Fits-same size size' lo [] hi same f = f
Fits-same size size' lo (x ∷ xs) hi same f = (
  f.0,
  rw (same x (ground arith))
      (Fits-same size size' (x + node_cost (size x)) xs hi (λ p i. same p (ground arith)) f.1),
)

pub edge-same :
    (size size' : Ptr → ℕ) (lo : Ptr) (xs : List Ptr)
    → ((p : Ptr) → has p xs ≡ true → size' p ≡ size p)
    → edge size' lo xs ≡ edge size lo xs
edge-same size size' lo [] same = refl
edge-same size size' lo (x ∷ xs) same =
    rw (same x (ground arith))
      (edge-same size size' (x + node_cost (size x)) xs (λ p i. same p (ground arith)))

-- Nor is one below the first node.
pub not-has-before :
    (size : Ptr → ℕ) (lo : Ptr) (xs : List Ptr) (hi p : Ptr)
    → Fits size lo xs hi
    → p < first xs hi
    → has p xs ≡ false
not-has-before size lo [] hi p f l = refl
not-has-before size lo (x ∷ xs) hi p f l =
    ground (arith, not-has-below size (x + node_cost (size x)) xs hi p f.1)
