-- ===== src/RingBuffer/Insert.antt =====
-- _ring_buffer_insert_new_node and the steps around it keep the invariant.
use eaf.Prelude.{
  ℕ, ◌+◌, ◌%◌, ◌^◌, ◌<◌, ◌≡◌, refl, sym, ◌≢◌, false, true, List, [], ◌∷◌, ◌++◌, arith, append_assoc,
  eq→true, ap, ◌∙◌, subst,
}
use eaf.Sequence.{
  has, Distinct, first, last, push_back, has-append, Distinct-push_back, not-has-append,
}
use eaf.RingBuffer.{
  Ptr, null, token_of, stat_writing, is_writing, is_committed, is_reading, World, update,
}
use eaf.RingBuffer.Facts.{
  ne_null, not-has-null, has-first, has-last_of, last-push_back, first-push_back, first-or,
}
use eaf.RingBuffer.Link.{inserted_at_end}
use eaf.RingBuffer.Reserve.{insert_at}
use eaf.RingBuffer.Ring.{IsLinked, IsLaid, IsCounted, IsRing, SameTokens, Yields}
use eaf.RingBuffer.Runs.{inserted_world, insert_at_run}
use eaf.RingBuffer.Tally.{tally-push_back}

-- What a successful reservation promises: the token of a new node, which is the newest.
pub record Reserved (w : World) (rs ws : List Ptr) (len : ℕ) (t : Ptr) (v : World) : Type 0 where
  pub node : Ptr
  pub token : t ≡ token_of node
  pub fresh : has node (rs ++ ws) ≡ false
  pub ring : IsRing v rs (push_back ws node)
  pub kept : SameTokens (rs ++ ws) w.mem v.mem
  pub writing : is_writing (v.mem.state node) ≡ true
  pub size : v.mem.size node ≡ len

module _ {w : World} {rs ws : List Ptr} (ring : IsRing w rs ws) (some_node : rs ++ ws ≢ [])
    (p : Ptr) (len : ℕ) (np : p ≢ null) (out : has p (rs ++ ws) ≡ false) where
  ne_member : (q : Ptr) → has q (rs ++ ws) ≡ true → p ≢ q
  ne_member q i e = cc (ap (λ t. has t (rs ++ ws)) e)

  inserted_counted :
      IsCounted
        (inserted_world w p (last null (rs ++ ws)) (first (rs ++ ws) null) len).rb.counter
        (update w.mem.state p stat_writing)
        (push_back (rs ++ ws) p)
  inserted_counted = record {
    committed = omega (
      arith,
      ring.counted.committed,
      tally-push_back is_committed w.mem.state stat_writing (rs ++ ws) p out,
    );
    writing = omega (
      arith,
      ring.counted.writing,
      tally-push_back is_writing w.mem.state stat_writing (rs ++ ws) p out,
    );
    reading = omega (
      arith,
      ring.counted.reading,
      tally-push_back is_reading w.mem.state stat_writing (rs ++ ws) p out,
    );
  }

  module _ (aligned : p % 8 ≡ 0) (fits : len + 55 < 2 ^ 64)
      (laid : IsLaid w.rb.cache w.rb.capacity
        (update w.mem.size p len)
        (push_back (rs ++ ws) p)) where
    inserted-IsRing :
        IsRing
          (inserted_world w p (last null (rs ++ ws)) (first (rs ++ ws) null) len)
          rs
          (push_back ws p)
    inserted-IsRing =
        let e : push_back (rs ++ ws) p ≡ rs ++ push_back ws p = append_assoc rs ws (p ∷ []) in
        record {
          buffer = ring.buffer;
          distinct = subst Distinct e (Distinct-push_back (rs ++ ws) p ring.distinct out);
          linked =
              subst (IsLinked _) e
                (inserted_at_end w.mem (rs ++ ws) p len np some_node ring.linked ring.distinct out);
          laid = subst (IsLaid _ _ _) e laid;
          aligned =
              λ q i. ground (arith, ring.aligned q, has-append q (rs ++ ws) (p ∷ []), ap (has q) e);
          sized =
              λ q i. ground (arith, ring.sized q, has-append q (rs ++ ws) (p ∷ []), ap (has q) e);
          counted = subst (IsCounted _ _) e inserted_counted;
          read = λ q i. ground (arith, ring.read q, has-append q rs ws, has-append q rs ws);
          unread = λ q i. ground (arith, ring.unread q, has-append q ws (p ∷ []));
          head = sym (ap (last null) (sym e) ∙ last-push_back null p (rs ++ ws));
          tail =
              ring.tail
              ∙ sym (ap (λ zs. first zs null) (sym e) ∙ first-push_back p (rs ++ ws) some_node);
          oldest_reserve =
              rw ring.oldest_reserve
                (first-or p ws (not-has-append null rs ws (not-has-null ring)).1);
        }

    pub insert_at_lem : Yields (insert_at p len w) (Reserved w rs ws len)
    insert_at_lem =
        let h = last null (rs ++ ws) in
        let f = first (rs ++ ws) null in
        let ih = has-last_of (rs ++ ws) some_node in
        let if' = has-first (rs ++ ws) some_node in
        (
          token_of p,
          inserted_world w p h f len,
          insert_at_run p h f len w np (ne_null ring h ih) (ne_null ring f if') (ne_member h ih)
              (ne_member f if') ring.head (ring.linked.forward h ih ∙ rw (eq→true h h refl)),
          record {
            node = p;
            token = refl;
            fresh = out;
            ring = inserted-IsRing;
            kept = λ q i. ground (arith, ne_member q);
            writing = ground arith;
            size = ground arith;
          },
        )
