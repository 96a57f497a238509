-- ===== src/NodeList/Insert.antt =====
-- eaf_list_insert_before and eaf_list_insert_after put a node beside another.
use mathlib.Core.Path.{fun_ext}
use eaf.Prelude.{
  ◌≡◌, sym, ap, ◌∙◌, ◌≢◌, false, some, List, [], ◌∷◌, ◌++◌, arith, length-append, append_assoc,
  eq→true, ne→false, subst,
}
use eaf.Sequence.{
  has, Distinct, first, last, Distinct-append, Distinct-split, Distinct-insert, has-last,
  last-append, has-append,
}
use eaf.NodeList.{
  Ptr, null, Node, Handle, Heap, write, ◌>>=◌, ◌>>◌, pure, load, set_after, set_before,
  insert_before, insert_after, incr, M,
}
use eaf.NodeList.Chain.{
  cell, Chain, IsList, Yields, SameOutside, place_before_after, load_then, set_after_then,
  set_before_then, ne_of_has, write_self, write_ne, write-write, Chain-write, Chain-split,
  Chain-join, Chain-last, Chain-relink_after, Chain-relink_before,
}
use eaf.NodeList.Push.{Lists, push_back_lem, push_front_lem}

write_comm :
    (h : Heap) (p q : Ptr) (m n : Node) → p ≢ q → write (write h p m) q n ≡ write (write h q n) p m
write_comm h p q m n ne = fun_ext λ a. ground arith

-- A node `n` between two neighbours: `last y ys`, the end of the front part, and `z`.
module _ (h : Heap) (n y : Ptr) (ys : List Ptr) (z : Ptr) (zs : List Ptr)
    (chain : Chain h null (y ∷ ys ++ z ∷ zs) null) (d : Distinct (y ∷ ys ++ z ∷ zs))
    (out : has n (y ∷ ys ++ z ∷ zs) ≡ false) (ne : n ≢ null) where
  abbrev before : Ptr
  before = last y ys

  abbrev placed : Heap
  placed = write h n (cell before z)

  abbrev linked : Node → Heap
  linked nt = write (write placed before (record nt { p_after = n })) z (cell n (first zs null))

  apart : has before (z ∷ zs) ≡ false
  apart = (Distinct-append (y ∷ ys) (z ∷ zs) d).2 before (has-last null y ys)

  out_front : has n (y ∷ ys) ≡ false
  out_front = ground (arith, has-append n (y ∷ ys) (z ∷ zs))

  out_back : has n (z ∷ zs) ≡ false
  out_back = ground (arith, has-append n (y ∷ ys) (z ∷ zs))

  n≢before : n ≢ before
  n≢before = ne_of_has before n (y ∷ ys) (has-last null y ys) out_front

  before≢z : before ≢ z
  before≢z = ground (arith, apart)

  n≢z : n ≢ z
  n≢z = ground (arith, out_back)

  z_out : has z (y ∷ ys) ≡ false
  z_out = (Distinct-split (y ∷ ys) z zs d).0

  head_ne : y ≢ z
  head_ne = ground (arith, z_out)

  outside :
      (p : Ptr)
      → has p (n ∷ y ∷ ys ++ z ∷ zs) ≡ false
      → (p ≢ n) × (has p (y ∷ ys) ≡ false) × (p ≢ z)
  outside p o = ground (arith, has-append p (y ∷ ys) (z ∷ zs))

  -- What the two insertions read on the way, and what they leave.
  record Gap (nt : Node) : Type 0 where
    z_cell : h z ≡ some (cell before (first zs null))
    z_ne : z ≢ null
    z_placed : placed z ≡ some (cell before (first zs null))
    before_placed : placed before ≡ some nt
    before_ne : before ≢ null
    z_linked :
        write placed before (record nt { p_after = n }) z ≡ some (cell before (first zs null))
    before_cell : h before ≡ some nt
    after : nt.p_after ≡ z
    spliced : Chain (linked nt) null (y ∷ ys ++ n ∷ z ∷ zs) null
    same : SameOutside (n ∷ y ∷ ys ++ z ∷ zs) h (linked nt)

  gap : (nt : Node) × Gap nt
  gap =
      let (front, back) = Chain-split h null (y ∷ ys) z zs null chain in
      let (nt, et, nn, after) = Chain-last h null y ys z front in
      let (dy, dz, _) = Distinct-append (y ∷ ys) (z ∷ zs) d in
      let c = cell before z in
      let et2 = write_ne h n before c (λ q. n≢before (sym q)) ∙ et in
      let front2 = Chain-write h null (y ∷ ys) z n c front out_front in
      let back2 = Chain-write h before (z ∷ zs) null n c back out_back in
      let relinked = record nt { p_after = n } in
      let h3 = write placed before relinked in
      let ez3 =
        write_ne placed before z relinked (λ q. before≢z (sym q))
        ∙ write_ne h n z c (λ q. n≢z (sym q))
        ∙ back.0 in
      let front3 = Chain-relink_after placed null y ys z n front2 dy et2 in
      let back3 = Chain-write placed before (z ∷ zs) null before relinked back2 apart in
      let joined =
        Chain-join (linked nt) null (y ∷ ys) (n ∷ z ∷ zs) null
          (Chain-write h3 null (y ∷ ys) n z (cell n (first zs null)) front3 z_out)
          (
            write_ne h3 z n _ n≢z ∙ write_ne placed before n _ n≢before ∙ write_self h n c,
            ne,
            Chain-relink_before h3 before n z zs null back3 dz.0 ez3,
          ) in
      (
        nt,
        record {
          z_cell = back.0;
          z_ne = back.1;
          z_placed = write_ne h n z c (λ q. n≢z (sym q)) ∙ back.0;
          before_placed = et2;
          before_ne = nn;
          z_linked = ez3;
          before_cell = et;
          after = after;
          spliced = joined;
          same = λ p o.
              let (pn, front_out, pz) = outside p o in
              write_ne h3 z p _ pz
              ∙ write_ne placed before p _
                  (ne_of_has before p (y ∷ ys) (has-last null y ys) front_out)
              ∙ write_ne h n p c pn;
        },
      )

-- The new handle: both ends stay, and the size grows by one.
module _ (h g : Heap) (l : Handle) (n y : Ptr) (ys : List Ptr) (z : Ptr) (zs : List Ptr)
    (is : IsList h l (y ∷ ys ++ z ∷ zs)) (out : has n (y ∷ ys ++ z ∷ zs) ≡ false) where
  grown :
      Chain g null (y ∷ ys ++ n ∷ z ∷ zs) null
      → IsList g (record l { size = incr l.size }) (y ∷ ys ++ n ∷ z ∷ zs)
  grown chain = record {
    chain = chain;
    distinct = Distinct-insert (y ∷ ys) n (z ∷ zs) is.distinct out;
    head = is.head;
    tail = is.tail ∙ last-append null z (y ∷ ys) zs ∙ sym (last-append null n (y ∷ ys) (z ∷ zs));
    size =
        omega
          (arith, is.size, length-append (y ∷ ys) (z ∷ zs), length-append (y ∷ ys) (n ∷ z ∷ zs));
  }

-- Just after the end of a front part that is not the whole list.
module _ (h : Heap) (l : Handle) (n : Ptr) {n0 : Node} (e : h n ≡ some n0) (ne : n ≢ null) (y : Ptr)
    (ys : List Ptr) (z : Ptr) (zs : List Ptr) (is : IsList h l (y ∷ ys ++ z ∷ zs))
    (out : has n (y ∷ ys ++ z ∷ zs) ≡ false) where
  insert_after_gap :
      Yields
        (insert_after l (last y ys) n h)
        (Lists h (n ∷ y ∷ ys ++ z ∷ zs) (y ∷ ys ++ n ∷ z ∷ zs))
  unfolding insert_after
  insert_after_gap =
      let L = last y ys in
      let placed = write h n (cell L z) in
      let (nt, f) = gap h n y ys z zs is.chain is.distinct out ne in
      let zc = cell n (first zs null) in
      let n1 = record n0 { p_before = L } in
      let h1 = write h n n1 in
      let linked' = record nt { p_after = n } in
      let l' : Handle = record l { size = incr l.size } in
      let rest : Ptr → M Handle = λ t. set_before t n >> (set_after L n >> pure l') in
      let second : M Handle = load L >>= λ at. rest at.p_after in
      let n≢L = n≢before h n y ys z zs is.chain is.distinct out ne in
      let L≢z = before≢z h n y ys z zs is.chain is.distinct out ne in
      (
        l',
        write (write placed L linked') z zc,
        rw
            (ne→false l.tail L (λ q.
              ne_of_has (last z zs) L (z ∷ zs) (has-last null z zs)
                (apart h n y ys z zs is.chain is.distinct out ne)
                (sym q ∙ is.tail ∙ last-append null z (y ∷ ys) zs)))
            (set_before_then h n e ne L (load L >>= λ at. set_after n at.p_after >> second)
              ∙ load_then h1 L (write_ne h n L n1 (λ q. n≢L (sym q)) ∙ f.before_cell) f.before_ne _
              ∙ set_after_then h1 n (write_self h n n1) ne nt.p_after second
              ∙ ap second (write-write h n n1 _ ∙ ap (λ t. write h n (cell L t)) f.after)
              ∙ load_then placed L f.before_placed f.before_ne _
              ∙ ap (λ t. rest t placed) f.after
              ∙ set_before_then placed z f.z_placed f.z_ne n (set_after L n >> pure l')
              ∙ set_after_then (write placed z zc) L (write_ne placed z L zc L≢z ∙ f.before_placed)
                  f.before_ne n (pure l')
              ∙ ap (λ t. some (l', t)) (write_comm placed z L zc linked' (λ q. L≢z (sym q)))),
        (grown h _ l n y ys z zs is out f.spliced, f.same),
      )

module _ (h : Heap) (l : Handle) (n pos : Ptr) {n0 : Node} (e : h n ≡ some n0) (ne : n ≢ null) where
  -- eaf_list_insert_before: a node outside the list comes to stand just before its node `pos`.
  pub insert_before_lem :
      (ys zs : List Ptr)
      → IsList h l (ys ++ pos ∷ zs)
      → has n (ys ++ pos ∷ zs) ≡ false
      → Yields (insert_before l pos n h) (Lists h (n ∷ ys ++ pos ∷ zs) (ys ++ n ∷ pos ∷ zs))
  unfolding insert_before
  insert_before_lem [] zs is out =
      let (l', g, run, lists) = push_front_lem h l n e ne (pos ∷ zs) is out in
      (l', g, rw (eq→true l.head pos is.head) run, lists)
  insert_before_lem (y ∷ ys) zs is out =
      let L = last y ys in
      let placed = write h n (cell L pos) in
      let (nt, f) = gap h n y ys pos zs is.chain is.distinct out ne in
      let h3 = write placed L (record nt { p_after = n }) in
      let l' : Handle = record l { size = incr l.size } in
      let rest : M Handle = (do
        at ← load pos
        set_after at.p_before n
        set_before pos n
        pure l') in
      (
        l',
        write h3 pos (cell n (first zs null)),
        rw (ne→false l.head pos (rw is.head (head_ne h n y ys pos zs is.chain is.distinct out ne)))
            (load_then h pos f.z_cell f.z_ne _
              ∙ place_before_after h n e ne pos L rest
              ∙ load_then placed pos f.z_placed f.z_ne _
              ∙ set_after_then placed L f.before_placed f.before_ne n (set_before pos n >> pure l')
              ∙ set_before_then h3 pos f.z_linked f.z_ne n (pure l')),
        (grown h _ l n y ys pos zs is out f.spliced, f.same),
      )

  -- eaf_list_insert_after: a node outside the list comes to stand just after its node `pos`.
  pub insert_after_lem :
      (ys zs : List Ptr)
      → IsList h l (ys ++ pos ∷ zs)
      → has n (ys ++ pos ∷ zs) ≡ false
      → Yields (insert_after l pos n h) (Lists h (n ∷ ys ++ pos ∷ zs) (ys ++ pos ∷ n ∷ zs))
  unfolding insert_after
  insert_after_lem ys [] is out =
      let (l', g, run, lists) = push_back_lem h l n e ne (ys ++ pos ∷ []) is out in
      (
        l',
        g,
        rw (eq→true l.tail pos (is.tail ∙ last-append null pos ys [])) run,
        rw (append_assoc ys (pos ∷ []) (n ∷ [])) at lists,
      )
  insert_after_lem [] (z ∷ zs) is out = insert_after_gap h l n e ne pos [] z zs is out
  insert_after_lem (y ∷ ys) (z ∷ zs) is out =
      let e1 : y ∷ ys ++ pos ∷ z ∷ zs ≡ (y ∷ (ys ++ pos ∷ [])) ++ z ∷ zs =
        sym (append_assoc (y ∷ ys) (pos ∷ []) (z ∷ zs)) in
      let e2 = append_assoc (y ∷ ys) (pos ∷ []) (n ∷ z ∷ zs) in
      let last' = last y (ys ++ pos ∷ []) in
      let at_pos : last' ≡ pos = last-append y pos ys [] in
      let got =
        insert_after_gap h l n e ne y (ys ++ pos ∷ []) z zs (subst (IsList h l) e1 is)
          (subst (λ t. has n t ≡ false) e1 out) in
      let after : Ptr → List Ptr → List Ptr → Type 0 =
        λ p xs xs'. Yields (insert_after l p n h) (Lists h (n ∷ xs) xs') in
      subst (λ p. after p (y ∷ ys ++ pos ∷ z ∷ zs) (y ∷ ys ++ pos ∷ n ∷ z ∷ zs)) at_pos
        (subst (λ t. after last' t (y ∷ ys ++ pos ∷ n ∷ z ∷ zs)) (sym e1)
          (subst (after last' (y ∷ (ys ++ pos ∷ []) ++ z ∷ zs)) e2 got))
