-- ===== src/NodeList/Erase.antt =====
-- eaf_list_erase, eaf_list_pop_front and eaf_list_pop_back take a node out of the list.
use eaf.Prelude.{
  ◌%◌, ◌^◌, ◌≡◌, refl, sym, ap, ◌∙◌, ◌≢◌, true, some, List, [], ◌∷◌, ◌++◌, arith, length,
  length-append, append-nil, eq→true, ne→false, subst,
}
use eaf.Sequence.{
  has, first, last, Distinct-append, Distinct-split, has-last, last-append, not-has-append,
}
use eaf.NodeList.{Ptr, null, Handle, Heap, write, ◌>>=◌, pure, erase, pop_front, pop_back, decr, M}
use eaf.NodeList.Chain.{
  cell, IsList, Yields, SameOutside, load_then, set_after_then, set_before_then, ne_of_has,
  write_ne, Chain-write, Chain-split, Chain-join, Chain-last, Chain-relink_after,
  Chain-relink_before,
}
use eaf.NodeList.Push.{Lists}

has_self : (y : Ptr) (ys : List Ptr) → has y (y ∷ ys) ≡ true
has_self y ys = ground arith

has_second : (n z : Ptr) (zs : List Ptr) → has z (n ∷ z ∷ zs) ≡ true
has_second n z zs = ground arith

abbrev pub rest : List Ptr → List Ptr
rest [] = []
rest (x ∷ xs) = xs

size-erase :
    (ys : List Ptr) (n : Ptr) (zs : List Ptr) (s : Handle)
    → s.size ≡ length (ys ++ n ∷ zs) % 2 ^ 64
    → decr s.size ≡ length (ys ++ zs) % 2 ^ 64
size-erase ys n zs s e = omega (arith, length-append ys (n ∷ zs), length-append ys zs)

module _ (h : Heap) (l : Handle) (n : Ptr) where
  -- eaf_list_erase: a node of the list leaves it, the others keep their order, and no node outside
  -- the list changes.
  pub erase_lem :
      (ys zs : List Ptr)
      → IsList h l (ys ++ n ∷ zs)
      → Yields (erase l n h) (Lists h (ys ++ n ∷ zs) (ys ++ zs))
  unfolding erase
  erase_lem [] [] is = (
    record { head = null; tail = null; size = decr l.size },
    h,
    rw (eq→true l.head n is.head, eq→true l.tail n is.tail),
    (
      record {
        chain = tt;
        distinct = tt;
        head = refl;
        tail = refl;
        size = size-erase [] n [] l is.size;
      },
      λ p o. refl,
    ),
  )
  erase_lem [] (z ∷ zs) is =
      let l' : Handle = record { head = z; tail = l.tail; size = decr l.size } in
      let back = is.chain.2 in
      let n≢tail : l.tail ≢ n = λ q.
        ne_of_has (last z zs) n (z ∷ zs) (has-last null z zs) is.distinct.0 (sym q ∙ is.tail) in
      (
        l',
        write h z (cell null (first zs null)),
        rw (eq→true l.head n is.head, ne→false l.tail n n≢tail)
            (load_then h n is.chain.0 is.chain.1 _
              ∙ set_before_then h z back.0 back.1 null (pure l')),
        (
          record {
            chain = Chain-relink_before h n null z zs null back is.distinct.1.0 back.0;
            distinct = is.distinct.1;
            head = refl;
            tail = is.tail;
            size = size-erase [] n (z ∷ zs) l is.size;
          },
          λ p o. write_ne h z p _ (ground arith),
        ),
      )
  erase_lem (y ∷ ys) [] is =
      let (front, at) = Chain-split h null (y ∷ ys) n [] null is.chain in
      let (nt, et, nn, after) = Chain-last h null y ys n front in
      let (out, _, _) = Distinct-split (y ∷ ys) n [] is.distinct in
      let (dy, _, _) = Distinct-append (y ∷ ys) (n ∷ []) is.distinct in
      let l' : Handle = record { head = l.head; tail = last y ys; size = decr l.size } in
      let head_ne : l.head ≢ n = λ q. ne_of_has y n (y ∷ ys) (ground arith) out (sym q ∙ is.head) in
      let shorter = Chain-relink_after h null y ys n null front dy et in
      let same_list = append-nil (y ∷ ys) in
      (
        l',
        write h (last y ys) (record nt { p_after = null }),
        rw (ne→false l.head n head_ne, eq→true l.tail n (is.tail ∙ last-append null n (y ∷ ys) []))
            (load_then h n at.0 at.1 _ ∙ set_after_then h (last y ys) et nn null (pure l')),
        (
          rw same_list (record {
            chain = shorter;
            distinct = dy;
            head = is.head;
            tail = refl;
            size = size-erase (y ∷ ys) n [] l is.size ∙ ap (λ t. length t % 2 ^ 64) same_list;
          }),
          λ p o. write_ne h (last y ys) p _ (
              ne_of_has _ p (y ∷ ys) (has-last null y ys) (not-has-append p (y ∷ ys) (n ∷ []) o).0),
        ),
      )
  erase_lem (y ∷ ys) (z ∷ zs) is =
      let L = last y ys in
      let (front, at) = Chain-split h null (y ∷ ys) n (z ∷ zs) null is.chain in
      let (nt, et, nn, after) = Chain-last h null y ys n front in
      let (out, out', dyz) = Distinct-split (y ∷ ys) n (z ∷ zs) is.distinct in
      let (dy, dz, apart) = Distinct-append (y ∷ ys) (z ∷ zs) dyz in
      let L_in = has-last null y ys in
      let relinked = record nt { p_after = z } in
      let h1 = write h L relinked in
      let l' : Handle = record { head = l.head; tail = l.tail; size = decr l.size } in
      let head_ne : l.head ≢ n =
        λ q. ne_of_has y n (y ∷ ys) (has_self y ys) out (sym q ∙ is.head) in
      let tail_eq : l.tail ≡ last z zs = is.tail ∙ last-append null n (y ∷ ys) (z ∷ zs) in
      let tail_ne : l.tail ≢ n =
        λ q. ne_of_has (last z zs) n (z ∷ zs) (has-last null z zs) out' (sym q ∙ tail_eq) in
      let n≢L = ne_of_has L n (y ∷ ys) L_in out in
      let z≢L : z ≢ L = λ q. ne_of_has z L (z ∷ zs) (has_self z zs) (apart L L_in) (sym q) in
      let ez1 = write_ne h L z relinked z≢L ∙ at.2.0 in
      let front1 = Chain-relink_after h null y ys n z front dy et in
      let back1 = Chain-write h n (z ∷ zs) null L relinked at.2 (apart L L_in) in
      let (z_out, _, _) = Distinct-split (y ∷ ys) z zs dyz in
      let g = write h1 z (cell L (first zs null)) in
      (
        l',
        g,
        rw (ne→false l.head n head_ne, ne→false l.tail n tail_ne)
            (load_then h n at.0 at.1 _
              ∙ set_after_then h L et nn z _
              ∙ load_then h1 n (write_ne h L n relinked n≢L ∙ at.0) at.1 _
              ∙ set_before_then h1 z ez1 at.2.1 L (pure l')),
        (
          record {
            chain =
                Chain-join g null (y ∷ ys) (z ∷ zs) null
                  (Chain-write h1 null (y ∷ ys) z z _ front1 z_out)
                  (Chain-relink_before h1 n L z zs null back1 dz.0 ez1);
            distinct = dyz;
            head = is.head;
            tail = tail_eq ∙ sym (last-append null z (y ∷ ys) zs);
            size = size-erase (y ∷ ys) n (z ∷ zs) l is.size;
          },
          λ p o.
              let (o_front, o_back) = not-has-append p (y ∷ ys) (n ∷ z ∷ zs) o in
              write_ne h1 z p _ (ne_of_has z p (n ∷ z ∷ zs) (has_second n z zs) o_back)
              ∙ write_ne h L p relinked (ne_of_has L p (y ∷ ys) L_in o_front),
        ),
      )

module _ (h : Heap) (l : Handle) where
  -- eaf_list_pop_front: the oldest node, or `NULL` from the empty list.
  pub pop_front_lem :
      (xs : List Ptr)
      → IsList h l xs
      → Yields
          (pop_front l h)
          (λ (p, l') g. (p ≡ first xs null) × IsList g l' (rest xs) × SameOutside xs h g)
  unfolding pop_front
  pop_front_lem [] is = ((null, l), h, rw (eq→true l.head null is.head), (refl, is, λ p o. refl))
  pop_front_lem (x ∷ xs) is =
      let (l', g, run, lists) = erase_lem h l x [] xs is in
      let take_out : Ptr → M (Ptr × Handle) = λ t. (do l'' ← erase l t; pure (t, l'')) in
      let at : l.head ≡ x = is.head in
      (
        (x, l'),
        g,
        rw (ne→false l.head null (λ q. is.chain.1 (sym at ∙ q)))
            (subst (λ t. take_out t h ≡ some ((x, l'), g)) (sym at) (rw (run, ◌>>=◌))),
        (refl, lists.0, lists.1),
      )

  -- eaf_list_pop_back: the last node; the list is given by what stands before it.
  pub pop_back_lem :
      (xs : List Ptr) (x : Ptr)
      → IsList h l (xs ++ x ∷ [])
      → Yields
          (pop_back l h)
          (λ (p, l') g. (p ≡ x) × IsList g l' xs × SameOutside (xs ++ x ∷ []) h g)
  unfolding pop_back
  pop_back_lem xs x is =
      let (l', g, run, lists) = erase_lem h l x xs [] is in
      let take_out : Ptr → M (Ptr × Handle) = λ t. (do l'' ← erase l t; pure (t, l'')) in
      let at : l.tail ≡ x = is.tail ∙ last-append null x xs [] in
      let (_, x_cell) = Chain-split h null xs x [] null is.chain in
      (
        (x, l'),
        g,
        rw (ne→false l.tail null (λ q. x_cell.1 (sym at ∙ q)))
            (subst (λ t. take_out t h ≡ some ((x, l'), g)) (sym at) (rw (run, ◌>>=◌))),
        (refl, subst (IsList g l') (append-nil xs) lists.0, lists.1),
      )
