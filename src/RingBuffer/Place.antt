-- ===== src/RingBuffer/Place.antt =====
-- Where a new node finds room: behind the newest node, or at the start of the cache.
use eaf.Prelude.{
  ℕ, ◌+◌, ◌≤◌, ◌<◌, ◌≡◌, refl, sym, ◌≢◌, false, true, List, [], ◌∷◌, ◌++◌, ◌==◌, arith,
  append_assoc, append-nil, eq→true, Bool-cases, inl, inr, subst,
}
use eaf.Sequence.{has, first, last, push_back, has-append}
use eaf.RingBuffer.{Ptr, update, node_cost}
use eaf.RingBuffer.Ring.{Fits, IsLaid}
use eaf.RingBuffer.Room.{
  Sized, edge, edge-last, Fits-edge, Fits-insert, Fits-same, edge-same, Fits-left, Fits-right,
  not-has-edge, not-has-before,
}

module _ (size : Ptr → ℕ) (p : Ptr) (len : ℕ) where
  size_kept :
      (xs : List Ptr)
      → has p xs ≡ false
      → (q : Ptr) → has q xs ≡ true
      → update size p len q ≡ size q
  size_kept xs o q i = elim (Bool-cases (q == p)) [ inl e ↦ ground arith | inr ne ↦ ground arith ]

  -- Room behind the nodes `xs`, before `ys`.
  place_between :
      (lo : Ptr) (xs ys : List Ptr) (hi : Ptr)
      → has p (xs ++ ys) ≡ false
      → Fits size lo (xs ++ ys) hi
      → edge size lo xs ≤ p
      → p + node_cost len ≤ first ys hi
      → Fits (update size p len) lo (xs ++ p ∷ ys) hi
  place_between lo xs ys hi o f e r =
      let kept = size_kept (xs ++ ys) o in
      Fits-insert (update size p len) lo xs p ys hi
        (Fits-same size (update size p len) lo (xs ++ ys) hi kept f)
        (rw
          (edge-same size (update size p len) lo xs
            (λ q i. kept q (ground (arith, has-append q xs ys))))
          e)
        (rw (eq→true p p refl) r)

-- A place for a node: an address of none of the nodes, and the layout with the node there.
abbrev pub Place : Ptr → ℕ → (Ptr → ℕ) → List Ptr → Ptr → ℕ → Type 0
Place cache capacity size xs p len =
    (has p xs ≡ false) × IsLaid cache capacity (update size p len) (push_back xs p)

module _ (cache : Ptr) (capacity : ℕ) (size : Ptr → ℕ) (p : Ptr) (len : ℕ)
    (takes : 0 < node_cost len) (x : Ptr) (xs : List Ptr) where
  -- The nodes have not turned at the end of the cache, and there is room behind the newest.
  pub Place-behind :
      Fits size cache (x ∷ xs) (cache + capacity)
      → Sized size (x ∷ xs)
      → p ≡ last x xs + node_cost (size (last x xs))
      → p + node_cost len ≤ cache + capacity
      → Place cache capacity size (x ∷ xs) p len
  Place-behind f s e r =
      let le : edge size cache (x ∷ xs) ≤ p = omega (arith, edge-last size cache x xs) in
      let f' : Fits size cache ((x ∷ xs) ++ []) (cache + capacity) =
        subst (λ zs. Fits size cache zs (cache + capacity)) (sym (append-nil (x ∷ xs))) f in
      let out = not-has-edge size cache (x ∷ xs) p s le (Fits-left size cache (x ∷ xs) [] _ f') in
      (
        out,
        record {
          turned = [];
          straight = push_back (x ∷ xs) p;
          split = sym (append-nil (push_back (x ∷ xs) p));
          fits =
              place_between size p len cache (x ∷ xs) [] _
                (subst (λ zs. has p zs ≡ false) (sym (append-nil (x ∷ xs))) out) f' le r;
          started = λ q. cc;
        },
      )

  -- There is room at the start of the cache.
  pub Place-at_start :
      Fits size cache (x ∷ xs) (cache + capacity)
      → p ≡ cache
      → p + node_cost len ≤ x
      → Place cache capacity size (x ∷ xs) p len
  Place-at_start f e r =
      let out = not-has-before size cache (x ∷ xs) _ p f (omega arith) in
      (
        out,
        record {
          turned = p ∷ [];
          straight = x ∷ xs;
          split = refl;
          fits = place_between size p len cache [] (x ∷ xs) _ out f (omega arith) r;
          started = λ q. cc;
        },
      )

  -- The nodes have turned, and there is room behind the newest, before the oldest.
  pub Place-turned :
      (t : Ptr) (ts : List Ptr)
      → Fits size cache ((t ∷ ts) ++ x ∷ xs) (cache + capacity)
      → Sized size ((x ∷ xs) ++ t ∷ ts)
      → p ≡ last t ts + node_cost (size (last t ts))
      → p + node_cost len ≤ x
      → Place cache capacity size ((x ∷ xs) ++ t ∷ ts) p len
  Place-turned t ts f s e r =
      let le : edge size cache (t ∷ ts) ≤ p = omega (arith, edge-last size cache t ts) in
      let out_t =
        not-has-edge size cache (t ∷ ts) p
          (λ q i. s q (ground (arith, has-append q (x ∷ xs) (t ∷ ts)))) le
          (Fits-left size cache (t ∷ ts) (x ∷ xs) _ f) in
      let out_x =
        not-has-before size _ (x ∷ xs) _ p (Fits-right size cache (t ∷ ts) (x ∷ xs) _ f)
          (omega arith) in
      (
        ground (arith, has-append p (x ∷ xs) (t ∷ ts)),
        record {
          turned = push_back (t ∷ ts) p;
          straight = x ∷ xs;
          split = append_assoc (x ∷ xs) (t ∷ ts) (p ∷ []);
          fits =
              subst (λ zs. Fits (update size p len) cache zs (cache + capacity))
                (sym (append_assoc (t ∷ ts) (p ∷ []) (x ∷ xs)))
                (place_between size p len cache (t ∷ ts) (x ∷ xs) _
                  (ground (arith, has-append p (t ∷ ts) (x ∷ xs))) f le r);
          started = λ q. cc;
        },
      )

-- Nodes that have not turned stand in ascending order.
first-le-last :
    (size : Ptr → ℕ) (lo x : Ptr) (xs : List Ptr) (hi : Ptr)
    → Fits size lo (x ∷ xs) hi
    → x ≤ last x xs
first-le-last size lo x [] hi f = omega arith
first-le-last size lo x (y ∷ xs) hi f =
    omega (arith, first-le-last size (x + node_cost (size x)) y xs hi f.1, f.1.0)

-- The order of the newest and the oldest node tells whether the nodes have turned.
pub data Turn (cache : Ptr) (capacity : ℕ) (size : Ptr → ℕ) : List Ptr → Type 0 where
  flat :
      (x : Ptr) (xs : List Ptr)
      → Fits size cache (x ∷ xs) (cache + capacity)
      → x ≤ last x xs
      → Turn cache capacity size (x ∷ xs)
  around :
      (x : Ptr) (xs : List Ptr) (t : Ptr) (ts : List Ptr)
      → Fits size cache ((t ∷ ts) ++ x ∷ xs) (cache + capacity)
      → last t ts + node_cost (size (last t ts)) ≤ x
      → Turn cache capacity size ((x ∷ xs) ++ t ∷ ts)

pub Turn-of :
    (cache : Ptr) (capacity : ℕ) (size : Ptr → ℕ) (xs straight turned : List Ptr)
    → xs ≢ []
    → xs ≡ straight ++ turned
    → Fits size cache (turned ++ straight) (cache + capacity)
    → (straight ≡ [] → turned ≡ [])
    → Turn cache capacity size xs
Turn-of cache capacity size xs [] [] ne e f s = absurd (ne e)
Turn-of cache capacity size xs [] (t ∷ ts) ne e f s = absurd (cc (s refl))
Turn-of cache capacity size xs (x ∷ s) [] ne e f st =
    rw (e, append-nil s) (flat x s f (first-le-last size cache x s _ f))
Turn-of cache capacity size xs (x ∷ s) (t ∷ ts) ne e f st = rw e (
    around x s t ts f
      (omega (arith, edge-last size cache t ts, Fits-edge size cache (t ∷ ts) (x ∷ s) _ f)))
