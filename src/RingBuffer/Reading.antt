-- ===== src/RingBuffer/Reading.antt =====
-- The worlds that the commit of a token that is being read makes, and that they are rings.
use eaf.Prelude.{
  ℕ, ◌≡◌, refl, sym, ◌≢◌, false, true, not, some, List, [], ◌∷◌, ◌++◌, ◌==◌, if◌then◌else◌, arith,
  ne→false, eq→true, Bool-cases, inl, inr, subst, ap, ◌∙◌, append_assoc,
}
use eaf.Prelude.Int.{pos, negsuc}
use eaf.Sequence.{has, Distinct, first, last, erase, has-append, not-has-append, Distinct-append}
use eaf.RingBuffer.{
  Ptr, null, World, Counter, NodeState, add64, sub64, update, is_writing, is_committed, is_reading,
  stat_committed, deref, get_state, get_newer, get_older, set_state, ◌>>=◌,
}
use eaf.RingBuffer.Commit.{
  has_flag, flag_abandon, commit_for_consume_confirm, commit_for_consume_discard, newer_is_reading,
  is_just_older,
}
use eaf.RingBuffer.Facts.{not_eq_of_out, has-first_ne, ne_null, not-has-null}
use eaf.RingBuffer.Order.{adjacent, after, after-append, has-after, after-last}
use eaf.RingBuffer.Erasure.{not-has-erase, has-erase_sub, push_back-erase}
use eaf.RingBuffer.Ring.{IsLinked, IsLaid, IsRing, IsCounted}
use eaf.RingBuffer.Tally.{tally-update, tally-erase}
use eaf.RingBuffer.Delete.{deleted_world, delete_node_run}
use eaf.RingBuffer.Remove.{removed-IsRing}

-- The counter before a node that was read is deleted.
abbrev pub released : Counter → Counter
released c = record c { reading = sub64 c.reading 1 }

-- The world without the node `p`, which was read.
abbrev pub gone_world : World → Ptr → World
gone_world w p = deleted_world (record w { rb = record w.rb { counter = released w.rb.counter } }) p

-- The world in which `p` is committed again.
abbrev pub restored_world : World → Ptr → World
restored_world w p = record {
  rb = record w.rb {
    oldest_reserve = p;
    counter = record w.rb.counter {
      reading = sub64 w.rb.counter.reading 1;
      committed = add64 w.rb.counter.committed 1;
    };
  };
  mem = record w.mem { state = update w.mem.state p stat_committed };
}

pub not_writing :
    (s : NodeState) → is_reading s ≡ true → (is_writing s ≡ false) × (is_committed s ≡ false)
not_writing s r = ground arith

newer_run :
    (w : World) (p : Ptr)
    → p ≢ null
    → newer_is_reading p w
      ≡ some
          (if w.mem.p_newer p == null then false else is_reading (w.mem.state (w.mem.p_newer p)), w)
unfolding newer_is_reading get_newer get_state
newer_run w p np = elim (Bool-cases (w.mem.p_newer p == null)) [
  | inl newest ↦ simp (deref, ne→false p null np, newest)
  | inr more ↦ simp (deref, ne→false p null np, more)
]

just_older_run :
    (w : World) (o p : Ptr)
    → o ≢ null
    → w.rb.oldest_reserve ≡ o
    → w.mem.p_older o ≡ p
    → is_just_older p w ≡ some (true, w)
unfolding is_just_older get_older
just_older_run w o p ne e f = simp (deref, e, f, ne→false o null ne, eq→true p p refl)

module _ {w : World} {rs ws : List Ptr} (ring : IsRing w rs ws) (p : Ptr)
    (on : has p rs ≡ true) where
  pub on_ring : has p (rs ++ ws) ≡ true
  on_ring = ground (arith, has-append p rs ws)

  pub gone_run : commit_for_consume_confirm p w ≡ some (pos 0, gone_world w p)
  unfolding commit_for_consume_confirm
  gone_run =
      rw
        (
          delete_node_run (record w { rb = record w.rb { counter = released w.rb.counter } })
              (rs ++ ws) p ring.linked ring.distinct (not-has-null ring) on_ring
              (ne_null ring p on_ring),
          ◌>>=◌,
        )
        refl

  pub gone-IsRing : IsRing (gone_world w p) (erase p rs) (erase p ws)
  gone-IsRing = removed-IsRing ring p on_ring (released w.rb.counter) (record {
    committed = ground (
      arith,
      ring.read p on,
      ring.counted.committed,
      tally-erase is_committed w.mem.state (rs ++ ws) p on_ring,
      not_writing (w.mem.state p),
    );
    writing = ground (
      arith,
      ring.read p on,
      ring.counted.writing,
      tally-erase is_writing w.mem.state (rs ++ ws) p on_ring,
      not_writing (w.mem.state p),
    );
    reading = ground (
      arith,
      ring.read p on,
      ring.counted.reading,
      tally-erase is_reading w.mem.state (rs ++ ws) p on_ring,
    );
  })

  -- Whether a newer token is being read: `p` is not the newest of them.
  newer_is_reading_run : newer_is_reading p w ≡ some (not (after rs p == null), w)
  newer_is_reading_run =
      let (out, out') = not-has-append null rs ws (not-has-null ring) in
      newer_run w p (ne_null ring p on_ring)
      ∙ ap (λ b. some (b, w))
          (ground (
            arith,
            ring.linked.newer p on_ring,
            after-append rs ws p out on,
            has-after rs p,
            has-first_ne ws,
            ring.read (after rs p),
            ring.unread (first ws null),
          ))

  -- The oldest token that is not being read comes just after the newest that is.
  just_older : after rs p ≡ null → first ws null ≢ null → w.mem.p_older (first ws null) ≡ p
  just_older newest ne =
      let (out, out') = not-has-append null rs ws (not-has-null ring) in
      let i : has (first ws null) (rs ++ ws) ≡ true =
        ground (arith, has-append (first ws null) rs ws, has-first_ne ws ne) in
      ground (
        arith,
        ring.linked.older (first ws null) i,
        adjacent null (rs ++ ws) (first ws null) p ring.distinct (not-has-null ring) ne i on_ring,
        after-append rs ws p out on,
      )

  pub restored-IsRing : after rs p ≡ null → IsRing (restored_world w p) (erase p rs) (p ∷ ws)
  restored-IsRing newest =
      let (out, out') = not-has-append null rs ws (not-has-null ring) in
      let (dr, dw, apart) = Distinct-append rs ws ring.distinct in
      let l : p ≡ last null rs = ground (arith, after-last null rs p dr out on) in
      let e : rs ++ ws ≡ erase p rs ++ p ∷ ws =
        ap (λ zs. zs ++ ws) (sym (push_back-erase null rs p dr on l))
        ∙ append_assoc (erase p rs) (p ∷ []) ws in
      record {
        buffer = ring.buffer;
        distinct = subst Distinct e ring.distinct;
        linked = subst (IsLinked _) e (record {
          newer = ring.linked.newer;
          older = ring.linked.older;
          forward = ring.linked.forward;
          backward = ring.linked.backward;
        });
        laid = subst (IsLaid _ _ _) e ring.laid;
        aligned = λ q j. ring.aligned q (ap (has q) e ∙ j);
        sized = λ q j. ring.sized q (ap (has q) e ∙ j);
        counted = subst (IsCounted _ _) e (record {
          committed = ground (
            arith,
            ring.read p on,
            not_writing (w.mem.state p),
            ring.counted.committed,
            tally-update is_committed w.mem.state stat_committed (rs ++ ws) p ring.distinct on_ring,
          );
          writing = ground (
            arith,
            ring.read p on,
            not_writing (w.mem.state p),
            ring.counted.writing,
            tally-update is_writing w.mem.state stat_committed (rs ++ ws) p ring.distinct on_ring,
          );
          reading = ground (
            arith,
            ring.read p on,
            ring.counted.reading,
            tally-update is_reading w.mem.state stat_committed (rs ++ ws) p ring.distinct on_ring,
          );
        });
        read = λ q j.
            rw (not_eq_of_out p q (erase p rs) (not-has-erase p rs dr) j)
              (ring.read q (has-erase_sub p q rs j));
        unread = λ q j. ground (arith, ring.unread q);
        head = ring.head ∙ ap (last null) e;
        tail = ring.tail ∙ ap (λ zs. first zs null) e;
        oldest_reserve = refl;
      }

  pub restored_run :
      (flags : ℕ)
      → after rs p ≡ null
      → commit_for_consume_discard p flags w ≡ some (pos 0, restored_world w p)
  unfolding commit_for_consume_discard set_state get_newer
  restored_run flags newest =
      let np = ne_null ring p on_ring in
      let busy : newer_is_reading p w ≡ some (false, w) = newer_is_reading_run ∙ rw newest refl in
      let (out, out') = not-has-append null rs ws (not-has-null ring) in
      let next : w.mem.p_newer p ≡ first ws null =
        ground (arith, ring.linked.newer p on_ring, after-append rs ws p out on) in
      let w2 : World = record {
        rb = record w.rb {
          counter = record w.rb.counter {
            reading = sub64 w.rb.counter.reading 1;
            committed = add64 w.rb.counter.committed 1;
          };
        };
        mem = record w.mem { state = update w.mem.state p stat_committed };
      } in
      rw (busy, ◌>>=◌)
        (elim (Bool-cases (w.mem.p_newer p == null)) [
          | inl none_newer ↦ simp (deref, ne→false p null np, none_newer)
          | inr newer ↦
              let ne : first ws null ≢ null = ground arith in
              simp (deref, ne→false p null np, newer)
                (rw
                  (
                    just_older_run w2 (first ws null) p ne ring.oldest_reserve
                        (just_older newest ne),
                    ◌>>=◌,
                  )
                  refl)
        ])

  pub refused_run :
      (flags : ℕ)
      → after rs p ≢ null
      → commit_for_consume_discard p flags w
        ≡ (if has_flag flags flag_abandon then some (pos 0, gone_world w p) else some (negsuc 0, w))
  unfolding commit_for_consume_discard
  refused_run flags more =
      let busy : newer_is_reading p w ≡ some (true, w) =
        newer_is_reading_run ∙ rw (ne→false _ _ more) refl in
      rw (busy, ◌>>=◌)
        (elim (Bool-cases (has_flag flags flag_abandon)) [
          | inl abandon ↦ rw abandon gone_run
          | inr keep ↦ rw keep refl
        ])
