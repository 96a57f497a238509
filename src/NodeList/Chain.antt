-- ===== src/NodeList/Chain.antt =====
-- The representation of a list of distinct nodes in the heap, and how writes act on it.
use eaf.Prelude.{
  ◌%◌, ◌^◌, ◌≡◌, refl, ap, ◌∙◌, ◌≢◌, false, true, Option, some, List, [], ◌∷◌, ◌++◌, arith, length,
}
use mathlib.Core.Path.{fun_ext}
use eaf.Sequence.{has, Distinct, first, last, has-last}
use eaf.NodeList.{Ptr, null, Node, Handle, Heap, write, M, ◌>>=◌, ◌>>◌, load, set_after, set_before}

abbrev pub cell : Ptr → Ptr → Node
cell before after = record { p_after = after; p_before = before }

-- The nodes `xs`, linked both ways, with `before` and `after` at the two ends.
abbrev pub Chain : Heap → Ptr → List Ptr → Ptr → Type 0
Chain h before [] after = Unit {0}
Chain h before (x ∷ xs) after =
    (h x ≡ some (cell before (first xs after))) × (x ≢ null) × Chain h x xs after

-- The handle of the list of the nodes `xs`.
pub record IsList (h : Heap) (l : Handle) (xs : List Ptr) : Type 0 where
  pub chain : Chain h null xs null
  pub distinct : Distinct xs
  pub head : l.head ≡ first xs null
  pub tail : l.tail ≡ last null xs
  pub size : l.size ≡ length xs % 2 ^ 64

-- `g` differs from `h` at most at the nodes of `xs`.
abbrev pub SameOutside : List Ptr → Heap → Heap → Type 0
SameOutside xs h g = (p : Ptr) → has p xs ≡ false → g p ≡ h p

-- The command ends without a fault, and its result and the heap satisfy `P`.
abbrev pub Yields {ℓ} : {A : Type 0} → Option (A × Heap) → (A → Heap → Type ℓ) → Type ℓ
Yields {A} r P = (a : A) × (g : Heap) × (r ≡ some (a, g)) × P a g

module _ (h : Heap) (p : Ptr) {n : Node} (e : h p ≡ some n) (ne : p ≢ null) where
  pub load-ok : load p h ≡ some (n, h)
  unfolding load
  load-ok = ground arith

  pub set_after-ok : (q : Ptr) → set_after p q h ≡ some (tt, write h p (record n { p_after = q }))
  unfolding set_after
  set_after-ok q = rw (load-ok, ◌>>=◌)

  pub set_before-ok :
      (q : Ptr) → set_before p q h ≡ some (tt, write h p (record n { p_before = q }))
  unfolding set_before
  set_before-ok q = rw (load-ok, ◌>>=◌)

pub ne_of_has : (p q : Ptr) (xs : List Ptr) → has p xs ≡ true → has q xs ≡ false → q ≢ p
ne_of_has p q xs i o e = cc (ap (λ t. has t xs) e)

pub write_self : (h : Heap) (p : Ptr) (n : Node) → write h p n p ≡ some n
write_self h p n = ground arith

pub write_ne : (h : Heap) (p q : Ptr) (n : Node) → q ≢ p → write h p n q ≡ h q
write_ne h p q n ne = ground arith

pub write-write : (h : Heap) (p : Ptr) (m n : Node) → write (write h p m) p n ≡ write h p n
write-write h p m n = fun_ext λ q. ground arith

-- Both links of a node are written, in either order.
module _ (h : Heap) (p : Ptr) {n : Node} (e : h p ≡ some n) (ne : p ≢ null) (a b : Ptr) where
  pub place_after_before :
      {A : Type 0} (k : M A) → (set_after p a >> (set_before p b >> k)) h ≡ k (write h p (cell b a))
  place_after_before k = rw (
    set_after-ok h p e ne a,
    ◌>>=◌,
    set_before-ok (write h p (record n { p_after = a })) p (write_self h p _) ne b,
    write-write h p (record n { p_after = a }) (cell b a),
  )

  pub place_before_after :
      {A : Type 0} (k : M A) → (set_before p b >> (set_after p a >> k)) h ≡ k (write h p (cell b a))
  place_before_after k = rw (
    set_before-ok h p e ne b,
    ◌>>=◌,
    set_after-ok (write h p (record n { p_before = b })) p (write_self h p _) ne a,
    write-write h p (record n { p_before = b }) (cell b a),
  )

module _ (h : Heap) (p : Ptr) {n : Node} (e : h p ≡ some n) (ne : p ≢ null) where
  pub load_then : {A : Type 0} (k : Node → M A) → (load p >>= k) h ≡ k n h
  load_then k = rw (load-ok h p e ne, ◌>>=◌)

  pub set_after_then :
      (q : Ptr) {A : Type 0} (k : M A)
      → (set_after p q >> k) h ≡ k (write h p (record n { p_after = q }))
  set_after_then q k = rw (set_after-ok h p e ne q, ◌>>=◌)

  pub set_before_then :
      (q : Ptr) {A : Type 0} (k : M A)
      → (set_before p q >> k) h ≡ k (write h p (record n { p_before = q }))
  set_before_then q k = rw (set_before-ok h p e ne q, ◌>>=◌)

pub Chain-frame :
    (h g : Heap) (b : Ptr) (xs : List Ptr) (a : Ptr)
    → Chain h b xs a
    → ((p : Ptr) → has p xs ≡ true → g p ≡ h p)
    → Chain g b xs a
Chain-frame h g b [] a c same = tt
Chain-frame h g b (x ∷ xs) a c same =
    (same x (ground arith) ∙ c.0, c.1, Chain-frame h g x xs a c.2 (λ p i. same p (ground arith)))

pub Chain-write :
    (h : Heap) (b : Ptr) (xs : List Ptr) (a p : Ptr) (n : Node)
    → Chain h b xs a
    → has p xs ≡ false
    → Chain (write h p n) b xs a
Chain-write h b xs a p n c out = Chain-frame h _ b xs a c (λ q i. ground arith)

-- A chain splits at any place, and two chains that fit make one.
pub Chain-split :
    (h : Heap) (b : Ptr) (xs : List Ptr) (y : Ptr) (ys : List Ptr) (a : Ptr)
    → Chain h b (xs ++ y ∷ ys) a
    → Chain h b xs y × Chain h (last b xs) (y ∷ ys) a
Chain-split h b [] y ys a c = (tt, c)
Chain-split h b (x ∷ []) y ys a c = ((c.0, c.1, tt), c.2)
Chain-split h b (x ∷ x' ∷ xs) y ys a c =
    let (front, back) = Chain-split h x (x' ∷ xs) y ys a c.2 in ((c.0, c.1, front), back)

pub Chain-join :
    (h : Heap) (b : Ptr) (xs : List Ptr) (ys : List Ptr) (a : Ptr)
    → Chain h b xs (first ys a)
    → Chain h (last b xs) ys a
    → Chain h b (xs ++ ys) a
Chain-join h b [] ys a front back = back
Chain-join h b (x ∷ []) ys a front back = (front.0, front.1, back)
Chain-join h b (x ∷ x' ∷ xs) ys a front back =
    (front.0, front.1, Chain-join h x (x' ∷ xs) ys a front.2 back)

-- The last node of a chain, and what a write to its `p_after` makes of the chain.
pub Chain-last :
    (h : Heap) (b x : Ptr) (xs : List Ptr) (a : Ptr)
    → Chain h b (x ∷ xs) a
    → (n : Node) × (h (last x xs) ≡ some n) × (last x xs ≢ null) × (n.p_after ≡ a)
Chain-last h b x [] a c = (cell b a, c.0, c.1, refl)
Chain-last h b x (y ∷ xs) a c = Chain-last h x y xs a c.2

pub Chain-relink_after :
    (h : Heap) (b x : Ptr) (xs : List Ptr) (a a' : Ptr) {n : Node}
    → Chain h b (x ∷ xs) a
    → Distinct (x ∷ xs)
    → h (last x xs) ≡ some n
    → Chain (write h (last x xs) (record n { p_after = a' })) b (x ∷ xs) a'
Chain-relink_after h b x [] a a' c d e = (ground arith, c.1, tt)
Chain-relink_after h b x (y ∷ xs) a a' c d e = (
  write_ne h _ x _ (ne_of_has _ x (y ∷ xs) (has-last x y xs) d.0) ∙ c.0,
  c.1,
  Chain-relink_after h x y xs a a' c.2 d.1 e,
)

pub Chain-relink_before :
    (h : Heap) (b b' x : Ptr) (xs : List Ptr) (a : Ptr) {n : Node}
    → Chain h b (x ∷ xs) a
    → has x xs ≡ false
    → h x ≡ some n
    → Chain (write h x (record n { p_before = b' })) b' (x ∷ xs) a
Chain-relink_before h b b' x xs a c out e = (ground arith, c.1, Chain-write h x xs a x _ c.2 out)
