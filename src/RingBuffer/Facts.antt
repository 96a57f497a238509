-- ===== src/RingBuffer/Facts.antt =====
-- What the invariant of the ring buffer says of its nodes.
use eaf.Prelude.{
  ◌+◌, if◌then◌else◌, ◌≤◌, ◌<◌, ◌≡◌, refl, ◌≢◌, false, true, List, [], ◌∷◌, ◌++◌, arith, ◌==◌, sym,
  ◌∙◌, ap, Bool-cases, inl, inr,
}
use eaf.Sequence.{has, first, last, has-append, has-last, last-append, push_back}
use eaf.RingBuffer.{Ptr, null, World, node_cost}
use eaf.RingBuffer.Cost.{node_cost_bounds}
use eaf.RingBuffer.Ring.{IsRing}
use eaf.RingBuffer.Room.{Fits-within, Fits-apart}

pub has_swapped : (p : Ptr) (xs ys : List Ptr) → has p (xs ++ ys) ≡ has p (ys ++ xs)
has_swapped p xs ys = ground (arith, has-append p xs ys, has-append p ys xs)

module _ {w : World} {rs ws : List Ptr} (ring : IsRing w rs ws) where
  open ring use {buffer, distinct, laid, sized}

  -- Each node lies in the cache with all of its room.
  pub node_within :
      (p : Ptr)
      → has p (rs ++ ws) ≡ true
      → (w.rb.cache ≤ p) × (p + node_cost (w.mem.size p) ≤ w.rb.cache + w.rb.capacity)
  node_within p i =
      Fits-within w.mem.size w.rb.cache (laid.turned ++ laid.straight) _ p laid.fits
        (has_swapped p laid.turned laid.straight ∙ sym (ap (has p) laid.split) ∙ i)

  pub nodes_apart :
      (p q : Ptr)
      → has p (rs ++ ws) ≡ true
      → has q (rs ++ ws) ≡ true
      → p < q
      → p + node_cost (w.mem.size p) ≤ q
  nodes_apart p q i j =
      let at : (r : Ptr) → has r (rs ++ ws) ≡ true → has r (laid.turned ++ laid.straight) ≡ true =
        λ r k. has_swapped r laid.turned laid.straight ∙ sym (ap (has r) laid.split) ∙ k in
      Fits-apart w.mem.size w.rb.cache (laid.turned ++ laid.straight) _ p q laid.fits (at p i)
        (at q j)

  pub not-has-null : has null (rs ++ ws) ≡ false
  not-has-null = elim (Bool-cases (has null (rs ++ ws))) [
    | inl i ↦ absurd (omega (arith, node_within null i, buffer.not_null))
    | inr o ↦ o
  ]

  pub ne_null : (p : Ptr) → has p (rs ++ ws) ≡ true → p ≢ null
  ne_null p i e = absurd (omega (arith, node_within p i, buffer.not_null))

  pub room : (p : Ptr) → has p (rs ++ ws) ≡ true → 48 + w.mem.size p ≤ node_cost (w.mem.size p)
  room p i = (node_cost_bounds (w.mem.size p) (sized p i)).0

-- The first and the last node of a sequence, if it has one.
pub has-first : (xs : List Ptr) → xs ≢ [] → has (first xs null) xs ≡ true
has-first [] ne = absurd (ne refl)
has-first (x ∷ xs) ne = ground arith

pub has-last_of : (xs : List Ptr) → xs ≢ [] → has (last null xs) xs ≡ true
has-last_of [] ne = absurd (ne refl)
has-last_of (x ∷ xs) ne = has-last null x xs

pub last-push_back : (b p : Ptr) (xs : List Ptr) → last b (push_back xs p) ≡ p
last-push_back b p xs = last-append b p xs []

pub first-push_back :
    (p : Ptr) (xs : List Ptr) → xs ≢ [] → first (push_back xs p) null ≡ first xs null
first-push_back p [] ne = absurd (ne refl)
first-push_back p (x ∷ xs) ne = refl

-- The first of a sequence with one more node.
pub first-or :
    (p : Ptr) (xs : List Ptr)
    → has null xs ≡ false
    → (if first xs null == null then p else first xs null) ≡ first (push_back xs p) null
first-or p [] o = refl
first-or p (x ∷ xs) o = ground arith

pub not_eq_of_out :
    (p q : Ptr) (xs : List Ptr) → has p xs ≡ false → has q xs ≡ true → (q == p) ≡ false
not_eq_of_out p q [] o i = cc
not_eq_of_out p q (x ∷ xs) o i = ground (arith, not_eq_of_out p q xs)

pub last_ne_null :
    (p : Ptr) (xs : List Ptr) → has null xs ≡ false → has p xs ≡ true → last null xs ≢ null
last_ne_null p [] o i = cc
last_ne_null p (x ∷ xs) o i = ground (arith, has-last null x xs)

pub first_ne_null :
    (p : Ptr) (xs : List Ptr) → has null xs ≡ false → has p xs ≡ true → first xs null ≢ null
first_ne_null p [] o i = cc
first_ne_null p (x ∷ xs) o i = ground arith

pub has-first_ne : (xs : List Ptr) → first xs null ≢ null → has (first xs null) xs ≡ true
has-first_ne [] ne = absurd (ne refl)
has-first_ne (x ∷ xs) ne = ground arith
