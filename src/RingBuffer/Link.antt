-- ===== src/RingBuffer/Link.antt =====
-- The links of the ring buffer after a node has come or gone.
use eaf.Prelude.{ℕ, ◌≡◌, refl, ◌≢◌, false, true, List, [], ◌∷◌, ◌==◌, if◌then◌else◌, arith}
use eaf.Sequence.{has, Distinct, first, last, erase, push_back, has-last, has-append, last-append}
use eaf.RingBuffer.{Ptr, null, Nodes, update}
use eaf.RingBuffer.Order.{
  after-push_back, after-push_back_self, before-push_back, before-push_back_self, adjacent,
  after-last, before-first,
}
use eaf.RingBuffer.Erasure.{
  has-erase, not-has-erase, after-erase, before-erase, first-erase, last-erase,
}
use eaf.RingBuffer.Ring.{IsLinked}
use eaf.RingBuffer.Runs.{inserted}

-- The memory without the node `p`.
abbrev pub unlinked : Nodes → Ptr → Nodes
unlinked m p = record m {
  p_forward = update m.p_forward (m.p_backward p) (m.p_forward p);
  p_backward = update m.p_backward (m.p_forward p) (m.p_backward p);
  p_newer = if m.p_older p == null then m.p_newer else update m.p_newer (m.p_older p) (m.p_newer p);
  p_older = if m.p_newer p == null then m.p_older else update m.p_older (m.p_newer p) (m.p_older p);
}

module _ (m : Nodes) (x : Ptr) (xs : List Ptr) (p : Ptr) (len : ℕ) (np : p ≢ null)
    (linked : IsLinked m (x ∷ xs)) (d : Distinct (x ∷ xs)) (out : has p (x ∷ xs) ≡ false) where
  open linked use {newer, older, forward, backward}

  pub inserted-IsLinked : IsLinked (inserted m p (last x xs) x len) (x ∷ push_back xs p)
  inserted-IsLinked = record {
    newer = λ q i. ground (
      arith,
      newer q,
      after-push_back x xs p q,
      after-push_back_self (x ∷ xs) p,
      has-append q xs (p ∷ []),
      has-last 0 x xs,
    );
    older = λ q i. ground (
      arith,
      older q,
      before-push_back null (x ∷ xs) p q,
      before-push_back_self null (x ∷ xs) p,
      has-append q xs (p ∷ []),
    );
    forward = λ q i. ground (
      arith,
      forward q,
      after-push_back x xs p q,
      has-append q xs (p ∷ []),
      has-last 0 x xs,
      last-append x p xs [],
    );
    backward = λ q i. ground (
      arith,
      backward q,
      before-push_back null (x ∷ xs) p q,
      before-push_back_self null (x ∷ xs) p,
      has-append q xs (p ∷ []),
      last-append x p xs [],
    );
  }

-- The same for any sequence with a node.
pub inserted_at_end :
    (m : Nodes) (xs : List Ptr) (p : Ptr) (len : ℕ)
    → p ≢ null
    → xs ≢ []
    → IsLinked m xs
    → Distinct xs
    → has p xs ≡ false
    → IsLinked (inserted m p (last null xs) (first xs null) len) (push_back xs p)
inserted_at_end m [] p len np some_node linked d out = absurd (some_node refl)
inserted_at_end m (x ∷ xs) p len np some_node linked d out =
    inserted-IsLinked m x xs p len np linked d out

module _ (m : Nodes) (xs : List Ptr) (p : Ptr) (np : p ≢ null) (linked : IsLinked m xs)
    (d : Distinct xs) (on : has p xs ≡ true) (o0 : has null xs ≡ false) where
  open linked use {newer, older, forward, backward}

  pub unlinked-IsLinked : IsLinked (unlinked m p) (erase p xs)
  unlinked-IsLinked = record {
    newer = λ q i. ground (
      arith,
      newer q,
      newer p,
      older p,
      has-erase p q xs,
      not-has-erase p xs d,
      after-erase p q xs d np,
      adjacent null xs p q d o0 np,
      before-first xs p d o0 on,
    );
    older = λ q i. ground (
      arith,
      older q,
      newer p,
      older p,
      has-erase p q xs,
      not-has-erase p xs d,
      before-erase null p q xs d,
      adjacent null xs q p d o0,
      after-last null xs p d o0 on,
    );
    forward = λ q i. ground (
      arith,
      forward q,
      forward p,
      backward p,
      has-erase p q xs,
      not-has-erase p xs d,
      after-erase p q xs d np,
      adjacent null xs p q d o0 np,
      before-first xs p d o0 on,
      first-erase p xs,
      last-erase null p xs d o0,
      after-last null xs p d o0 on,
      after-last null xs q d o0,
    );
    backward = λ q i. ground (
      arith,
      backward q,
      forward p,
      backward p,
      has-erase p q xs,
      not-has-erase p xs d,
      before-erase null p q xs d,
      adjacent null xs q p d o0,
      before-first xs p d o0 on,
      first-erase p xs,
      last-erase null p xs d o0,
      after-last null xs p d o0 on,
      before-first xs q d o0,
    );
  }
