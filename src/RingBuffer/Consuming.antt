-- ===== src/RingBuffer/Consuming.antt =====
-- eaf_ringbuffer_consume takes the oldest token that is not being read, if it is committed.
use eaf.Prelude.{
  ◌≡◌, refl, sym, ◌≢◌, ◌⊎◌, false, true, some, List, [], ◌∷◌, ◌++◌, if◌then◌else◌, arith, ne→false,
  eq→true, ap, Bool-cases, inl, inr, ◌∙◌, subst, append_assoc,
}
use eaf.Sequence.{has, Distinct, first, last, push_back, has-append, Distinct-split}
use eaf.RingBuffer.{
  Ptr, null, World, update, add64, sub64, token_of, stat_reading, get_state, get_newer, set_state,
  deref, is_writing, is_committed, is_reading, consume,
}
use eaf.RingBuffer.Ring.{IsLaid, IsRing, Yields, IsCounted, IsLinked}
use eaf.RingBuffer.Facts.{ne_null, not_eq_of_out}
use eaf.RingBuffer.Order.{after-middle}
use eaf.RingBuffer.Tally.{tally-update}

-- What consume does with the tokens `ws` that are not being read. The node of the consumed token is
-- then the newest of those being read.
abbrev pub Consumed : World → List Ptr → List Ptr → Ptr → World → Type 0
Consumed w rs [] t v = (t ≡ null) × (v ≡ w)
Consumed w rs (p ∷ ws) t v =
    ((is_committed (w.mem.state p) ≡ false) × (t ≡ null) × (v ≡ w))
    ⊎ ((is_committed (w.mem.state p) ≡ true)
        × (t ≡ token_of p)
        × IsRing v (push_back rs p) ws
        × (v.mem ≡ record w.mem { state = update w.mem.state p stat_reading }))

-- The world in which `p` is read.
abbrev pub consumed_world : World → Ptr → World
consumed_world w p = record {
  rb = record w.rb {
    oldest_reserve = w.mem.p_newer p;
    counter = record w.rb.counter {
      committed = sub64 w.rb.counter.committed 1;
      reading = add64 w.rb.counter.reading 1;
    };
  };
  mem = record w.mem { state = update w.mem.state p stat_reading };
}

consume_run :
    (w : World) (p : Ptr)
    → p ≢ null
    → w.rb.oldest_reserve ≡ p
    → consume w ≡ (
        if is_committed (w.mem.state p)
        then some (token_of p, consumed_world w p)
        else some (null, w))
unfolding consume get_state get_newer set_state
consume_run w p ne e = elim (Bool-cases (is_committed (w.mem.state p))) [
  | inl done ↦ simp (deref, e, ne→false p null ne, done)
  | inr open' ↦ simp (deref, e, ne→false p null ne, open')
]

module _ (w : World) (rs : List Ptr) (p : Ptr) (ws : List Ptr) (ring : IsRing w rs (p ∷ ws))
    (done : is_committed (w.mem.state p) ≡ true) where
  pub consumed-IsRing : IsRing (consumed_world w p) (push_back rs p) ws
  consumed-IsRing =
      let e : rs ++ p ∷ ws ≡ push_back rs p ++ ws = sym (append_assoc rs (p ∷ []) ws) in
      let i : has p (rs ++ p ∷ ws) ≡ true = ground (arith, has-append p rs (p ∷ ws)) in
      let (out, out', d) = Distinct-split rs p ws ring.distinct in
      record {
        buffer = ring.buffer;
        distinct = subst Distinct e ring.distinct;
        linked = subst (IsLinked _) e (record {
          newer = ring.linked.newer;
          older = ring.linked.older;
          forward = ring.linked.forward;
          backward = ring.linked.backward;
        });
        laid = subst (IsLaid _ _ _) e ring.laid;
        aligned = λ q j. ring.aligned q (ap (has q) e ∙ j);
        sized = λ q j. ring.sized q (ap (has q) e ∙ j);
        counted = subst (IsCounted _ _) e (record {
          committed = ground (
            arith,
            ring.counted.committed,
            tally-update is_committed w.mem.state stat_reading (rs ++ p ∷ ws) p ring.distinct i,
          );
          writing = ground (
            arith,
            ring.counted.writing,
            tally-update is_writing w.mem.state stat_reading (rs ++ p ∷ ws) p ring.distinct i,
          );
          reading = ground (
            arith,
            ring.counted.reading,
            tally-update is_reading w.mem.state stat_reading (rs ++ p ∷ ws) p ring.distinct i,
          );
        });
        read = λ q j. ground (arith, ring.read q, has-append q rs (p ∷ []));
        unread = λ q j. rw (not_eq_of_out p q ws out' j) (ring.unread q (ground arith));
        head = ring.head ∙ ap (last null) e;
        tail = ring.tail ∙ ap (λ zs. first zs null) e;
        oldest_reserve = ring.linked.newer p i ∙ after-middle rs p ws out;
      }

-- eaf_ringbuffer_consume on a well-formed ring: if the oldest token that is not being read is
-- committed, it is returned and is being read from then on, and nothing else changes in the
-- nodes; otherwise the call returns NULL and changes nothing.
pub consume_lem :
    {w : World} (rs ws : List Ptr) → IsRing w rs ws → Yields (consume w) (Consumed w rs ws)
unfolding consume
consume_lem {w} rs [] ring =
    (null, w, rw (eq→true w.rb.oldest_reserve null ring.oldest_reserve) refl, (refl, refl))
consume_lem {w} rs (p ∷ ws) ring =
    let ne = ne_null ring p (ground (arith, has-append p rs (p ∷ ws))) in
    elim (Bool-cases (is_committed (w.mem.state p))) [
      | inl done ↦ (
        token_of p,
        consumed_world w p,
        consume_run w p ne ring.oldest_reserve ∙ rw done refl,
        inr (done, refl, consumed-IsRing w rs p ws ring done, refl),
      )
      | inr not_done ↦ (
        null,
        w,
        consume_run w p ne ring.oldest_reserve ∙ rw not_done refl,
        inl (not_done, refl, refl),
      )
    ]
