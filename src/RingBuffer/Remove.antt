-- ===== src/RingBuffer/Remove.antt =====
-- The ring without a deleted node.
use eaf.Prelude.{
  ℕ, ◌+◌, ◌≡◌, refl, sym, ◌≢◌, false, true, List, [], ◌∷◌, ◌++◌, ◌==◌, if◌then◌else◌, arith,
  Bool-cases, inl, inr, subst, ap, ◌∙◌, append-nil,
}
use eaf.Sequence.{has, Distinct, first, last, erase, Distinct-append, Distinct-split}
use eaf.RingBuffer.{Ptr, null, World, Counter}
use eaf.RingBuffer.Link.{unlinked-IsLinked}
use eaf.RingBuffer.Order.{after, before-first, after-last, after_self, after-middle}
use eaf.RingBuffer.Erasure.{
  erase-append_apart, has-erase_sub, erase_single, first-erase, last-erase, Distinct-erase,
}
use eaf.RingBuffer.Facts.{ne_null, not-has-null, last_ne_null}
use eaf.RingBuffer.Ring.{IsLinked, IsLaid, IsRing, IsCounted, Fits}
use eaf.RingBuffer.Room.{Fits-erase}
use eaf.RingBuffer.Delete.{deleted_world}

started-IsLaid :
    (cache : Ptr) (capacity : ℕ) (size : Ptr → ℕ) (straight turned : List Ptr)
    → Fits size cache (turned ++ straight) (cache + capacity)
    → IsLaid cache capacity size (straight ++ turned)
started-IsLaid cache capacity size [] turned f = record {
  turned = [];
  straight = turned;
  split = sym (append-nil turned);
  fits = subst (λ zs. Fits size cache zs (cache + capacity)) (append-nil turned) f;
  started = λ e. refl;
}
started-IsLaid cache capacity size (x ∷ straight) turned f = record {
  turned = turned;
  straight = x ∷ straight;
  split = refl;
  fits = f;
  started = λ e. cc;
}

erased-IsLaid :
    (cache : Ptr) (capacity : ℕ) (size : Ptr → ℕ) (xs : List Ptr) (p : Ptr)
    → Distinct xs
    → IsLaid cache capacity size xs
    → IsLaid cache capacity size (erase p xs)
erased-IsLaid cache capacity size xs p d laid =
    let s = laid.straight in
    let t = laid.turned in
    let (ds, dt, apart) = Distinct-append s t (subst Distinct laid.split d) in
    subst (IsLaid cache capacity size)
      (sym (ap (erase p) laid.split ∙ erase-append_apart p s t (apart p)))
      (started-IsLaid cache capacity size (erase p s) (erase p t) (
        subst (λ zs. Fits size cache zs (cache + capacity))
          (erase-append_apart p t s (λ i. ground (arith, apart p)))
          (Fits-erase size p cache (t ++ s) _ laid.fits)))

first_kept :
    (rs ws : List Ptr) (p : Ptr)
    → Distinct (rs ++ ws)
    → p ≢ null
    → (if first ws null == p then after (rs ++ ws) p else first ws null) ≡ first (erase p ws) null
first_kept rs [] p d np = ground arith
first_kept rs (y ∷ ws) p d np = ground (arith, after-middle rs y ws (Distinct-split rs y ws d).0)

nil_parts : (xs ys : List Ptr) → xs ++ ys ≡ [] → (xs ≡ []) × (ys ≡ [])
nil_parts [] ys e = (refl, e)
nil_parts (x ∷ xs) ys e = cc

module _ {w : World} {rs ws : List Ptr} (ring : IsRing w rs ws) (p : Ptr)
    (on : has p (rs ++ ws) ≡ true) (c : Counter)
    (counted : IsCounted c w.mem.state (erase p (rs ++ ws))) where
  parts : erase p (rs ++ ws) ≡ erase p rs ++ erase p ws
  parts =
      let (dr, dw, apart) = Distinct-append rs ws ring.distinct in
      erase-append_apart p rs ws (apart p)

  removed_many :
      (w.mem.p_forward p == p) ≡ false
      → IsRing
          (deleted_world (record w { rb = record w.rb { counter = c } }) p)
          (erase p rs)
          (erase p ws)
  removed_many many =
      let d = ring.distinct in
      let np = ne_null ring p on in
      let o = not-has-null ring in
      let at_first = before-first (rs ++ ws) p d o on in
      let at_last = after-last null (rs ++ ws) p d o on in
      let older = ring.linked.older p on in
      let newer = ring.linked.newer p on in
      let forward = ring.linked.forward p on in
      rw many (record {
        buffer = ring.buffer;
        distinct = subst Distinct parts (Distinct-erase p (rs ++ ws) ring.distinct);
        linked = subst (IsLinked _) parts (
            unlinked-IsLinked w.mem (rs ++ ws) p (ne_null ring p on) ring.linked ring.distinct on
              (not-has-null ring));
        laid = subst (IsLaid _ _ _) parts (
            erased-IsLaid w.rb.cache w.rb.capacity w.mem.size (rs ++ ws) p ring.distinct ring.laid);
        aligned = λ q i. ring.aligned q (has-erase_sub p q (rs ++ ws) (ap (has q) parts ∙ i));
        sized = λ q i. ring.sized q (has-erase_sub p q (rs ++ ws) (ap (has q) parts ∙ i));
        counted = subst (IsCounted c w.mem.state) parts counted;
        read = λ q i. ring.read q (has-erase_sub p q rs i);
        unread = λ q i. ring.unread q (has-erase_sub p q ws i);
        head =
            ground (
              arith,
              ring.head,
              at_first,
              at_last,
              older,
              newer,
              forward,
              last-erase null p (rs ++ ws) d o,
              last_ne_null p (rs ++ ws) o on,
            )
            ∙ ap (last null) parts;
        tail =
            ground (arith, ring.tail, at_first, older, newer, first-erase p (rs ++ ws))
            ∙ ap (λ zs. first zs null) parts;
        oldest_reserve = rw (ring.oldest_reserve, newer) (first_kept rs ws p d np);
      })

  alone_parts : (w.mem.p_forward p == p) ≡ true → (erase p rs ≡ []) × (erase p ws ≡ [])
  alone_parts alone =
      let d = ring.distinct in
      let np = ne_null ring p on in
      let o = not-has-null ring in
      let nothing : erase p (rs ++ ws) ≡ [] =
        erase_single p (rs ++ ws) d on
          (ground (arith, ring.linked.forward p on, after_self (rs ++ ws) p d np))
          (ground (arith, ring.linked.forward p on, after_self (rs ++ ws) p d np)) in
      nil_parts (erase p rs) (erase p ws) (sym parts ∙ nothing)

  removed_alone :
      (w.mem.p_forward p == p) ≡ true
      → IsRing
          (deleted_world (record w { rb = record w.rb { counter = c } }) p)
          (erase p rs)
          (erase p ws)
  removed_alone alone =
      let (er, ew) = alone_parts alone in
      rw (alone, er, ew)
        (record {
          buffer = ring.buffer;
          distinct = tt;
          linked = record {
            newer = λ q i. cc;
            older = λ q i. cc;
            forward = λ q i. cc;
            backward = λ q i. cc;
          };
          laid = record {
            turned = [];
            straight = [];
            split = refl;
            fits = omega arith;
            started = λ e. refl;
          };
          aligned = λ q i. cc;
          sized = λ q i. cc;
          counted = record { committed = refl; writing = refl; reading = refl };
          read = λ q i. cc;
          unread = λ q i. cc;
          head = refl;
          tail = refl;
          oldest_reserve = refl;
        })

  -- The ring without `p`, with the counter `c`.
  pub removed-IsRing :
      IsRing
        (deleted_world (record w { rb = record w.rb { counter = c } }) p)
        (erase p rs)
        (erase p ws)
  removed-IsRing = elim (Bool-cases (w.mem.p_forward p == p)) [
    | inl alone ↦ removed_alone alone
    | inr many ↦ removed_many many
  ]
