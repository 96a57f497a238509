-- ===== src/NodeList/Push.antt =====
-- eaf_list_push_back and eaf_list_push_front append and prepend a node.
use eaf.Prelude.{
  ◌≡◌, refl, sym, ◌∙◌, ◌≢◌, false, some, List, [], ◌∷◌, arith, ne→false, length-append,
}
use eaf.Sequence
use eaf.Sequence.{has, Distinct, first, last, Distinct-push_back, has-last, last-append}
use eaf.NodeList.{
  Ptr, null, Node, Handle, Heap, write, ◌>>◌, pure, set_after, set_before, set_once, push_back,
  push_front, incr,
}
use eaf.NodeList.Chain.{
  cell, IsList, SameOutside, Yields, place_after_before, place_before_after, set_after_then,
  set_before_then, ne_of_has, write_self, write_ne, Chain-write, Chain-join, Chain-last,
  Chain-relink_after, Chain-relink_before,
}

-- What the insertions promise: the nodes are now `ys`, and no other node has changed.
abbrev pub Lists : Heap → List Ptr → List Ptr → Handle → Heap → Type 0
Lists h changed ys l g = IsList g l ys × SameOutside changed h g

module _ (h : Heap) (n : Ptr) {n0 : Node} (e : h n ≡ some n0) (ne : n ≢ null) where
  set_once_lem : Yields (set_once n h) (Lists h (n ∷ []) (n ∷ []))
  unfolding set_once
  set_once_lem = (
    record { head = n; tail = n; size = 1 },
    write h n (cell null null),
    place_after_before h n e ne null null (pure (record { head = n; tail = n; size = 1 })),
    (
      record {
        chain = (write_self h n _, ne, tt);
        distinct = (refl, tt);
        head = refl;
        tail = refl;
        size = refl;
      },
      λ p o. ground arith,
    ),
  )

module _ (h : Heap) (l : Handle) (n : Ptr) {n0 : Node} (e : h n ≡ some n0) (ne : n ≢ null) where
  -- eaf_list_push_back: on a list of the distinct nodes `xs`, a node outside it goes to the end,
  -- whatever its links were, and no node outside the list changes.
  pub push_back_lem :
      (xs : List Ptr)
      → IsList h l xs
      → has n xs ≡ false
      → Yields (push_back l n h) (Lists h (n ∷ xs) (Sequence.push_back xs n))
  unfolding push_back
  push_back_lem [] is out =
      let (l', g, run, lists) = set_once_lem h n e ne in (l', g, rw is.head run, lists)
  push_back_lem (x ∷ xs) is out =
      let (nt, et, nn, after) = Chain-last h null x xs null is.chain in
      let c = cell (last x xs) null in
      let h2 = write h n c in
      let apart : n ≢ last x xs = ne_of_has _ n (x ∷ xs) (has-last null x xs) out in
      let et2 : h2 (last x xs) ≡ some nt = write_ne h n _ c (λ q. apart (sym q)) ∙ et in
      let g = write h2 (last x xs) (record nt { p_after = n }) in
      let l' : Handle = record { head = x; tail = n; size = incr l.size } in
      let kept = Chain-write h null (x ∷ xs) null n c is.chain out in
      (
        l',
        g,
        rw (is.head, ne→false x null is.chain.1, is.tail)
            (place_after_before h n e ne null (last x xs) (set_after (last x xs) n >> pure l')
              ∙ set_after_then h2 (last x xs) et2 nn n (pure l')),
        (
          record {
            chain =
                Chain-join g null (x ∷ xs) (n ∷ []) null
                  (Chain-relink_after h2 null x xs null n kept is.distinct et2)
                  (write_ne h2 _ n _ apart ∙ write_self h n c, ne, tt);
            distinct = Distinct-push_back (x ∷ xs) n is.distinct out;
            head = refl;
            tail = sym (last-append x n xs []);
            size = omega (arith, is.size, length-append xs (n ∷ []));
          },
          λ p o.
              write_ne h2 _ p _ (ne_of_has _ p (x ∷ xs) (has-last null x xs) (ground arith))
              ∙ write_ne h n p c (ground arith),
        ),
      )

  -- eaf_list_push_front: a node outside the list goes to the front.
  pub push_front_lem :
      (xs : List Ptr)
      → IsList h l xs
      → has n xs ≡ false
      → Yields (push_front l n h) (Lists h (n ∷ xs) (n ∷ xs))
  unfolding push_front
  push_front_lem [] is out =
      let (l', g, run, lists) = set_once_lem h n e ne in (l', g, rw is.head run, lists)
  push_front_lem (x ∷ xs) is out =
      let c = cell null x in
      let h2 = write h n c in
      let apart : n ≢ x = ground arith in
      let ex2 = write_ne h n x c (λ q. apart (sym q)) ∙ is.chain.0 in
      let g = write h2 x (cell n (first xs null)) in
      let l' : Handle = record { head = n; tail = last x xs; size = incr l.size } in
      let kept = Chain-write h null (x ∷ xs) null n c is.chain out in
      (
        l',
        g,
        rw (is.head, ne→false x null is.chain.1, is.tail)
            (place_before_after h n e ne x null (set_before x n >> pure l')
              ∙ set_before_then h2 x ex2 is.chain.1 n (pure l')),
        (
          record {
            chain = (
              write_ne h2 x n _ apart ∙ write_self h n c,
              ne,
              Chain-relink_before h2 null n x xs null kept is.distinct.0 ex2,
            );
            distinct = (out, is.distinct);
            head = refl;
            tail = refl;
            size = omega (arith, is.size);
          },
          λ p o. write_ne h2 x p _ (ground arith) ∙ write_ne h n p c (ground arith),
        ),
      )
