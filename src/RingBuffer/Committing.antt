-- ===== src/RingBuffer/Committing.antt =====
-- eaf_ringbuffer_commit of a token that is being written.
use eaf.Prelude.{
  ℕ, ◌+◌, ◌-◌, ◌≡◌, refl, ◌≢◌, false, true, some, List, ◌++◌, ◌==◌, if◌then◌else◌, arith, ne→false,
  Bool-cases, inl, inr, ◌∙◌,
}
use eaf.Prelude.Int.{ℤ, pos}
use eaf.Sequence.{has, erase}
use eaf.RingBuffer.{
  Ptr, null, World, Counter, Nodes, token_of, add64, sub64, update, is_writing, is_committed,
  is_reading, stat_committed, deref, get_state, set_state, ◌>>=◌,
}
use eaf.RingBuffer.Commit.{
  has_flag, flag_discard, commit, commit_for_write, commit_for_consume, commit_for_write_confirm,
  commit_for_write_discard,
}
use eaf.RingBuffer.Facts.{ne_null, not-has-null}
use eaf.RingBuffer.Ring.{IsRing, IsCounted, Yields}
use eaf.RingBuffer.Tally.{tally-update, tally-erase}
use eaf.RingBuffer.Delete.{deleted_world, delete_node_run}
use eaf.RingBuffer.Remove.{removed-IsRing}

-- The sizes are kept, and so are the states of the nodes other than `p`.
abbrev pub KeptBut : Ptr → Nodes → Nodes → Type 0
KeptBut p m n = (n.size ≡ m.size) × ((q : Ptr) → (q == p) ≡ false → n.state q ≡ m.state q)

-- The commit goes on to the node of its token.
pub commit_at :
    (w : World) (p : Ptr) (flags : ℕ)
    → p ≢ null
    → commit (token_of p) flags w
      ≡ (if is_writing (w.mem.state p)
            then commit_for_write p flags
            else commit_for_consume p flags)
          w
unfolding commit get_state
commit_at w p flags ne =
    let e : p + 40 - 40 ≡ p = omega arith in simp (e, deref, ne→false p null ne)

pub deleted_kept : (w : World) (p : Ptr) → KeptBut p w.mem (deleted_world w p).mem
deleted_kept w p = elim (Bool-cases (w.mem.p_forward p == p)) [
  | inl alone ↦ rw alone (refl, λ q ne. refl)
  | inr many ↦ rw many (refl, λ q ne. refl)
]

-- The world in which `p` is committed.
abbrev pub committed_world : World → Ptr → World
committed_world w p = record {
  rb = record w.rb {
    counter = record w.rb.counter {
      writing = sub64 w.rb.counter.writing 1;
      committed = add64 w.rb.counter.committed 1;
    };
  };
  mem = record w.mem { state = update w.mem.state p stat_committed };
}

-- The counter before a node that was written is deleted.
abbrev dropped : Counter → Counter
dropped c = record c { writing = sub64 c.writing 1 }

module _ {w : World} {rs ws : List Ptr} (ring : IsRing w rs ws) (p : Ptr)
    (on : has p (rs ++ ws) ≡ true) (writing : is_writing (w.mem.state p) ≡ true) where
  confirm_run : commit_for_write_confirm p w ≡ some (pos 0, committed_world w p)
  unfolding commit_for_write_confirm set_state
  confirm_run = simp (deref, ne→false p null (ne_null ring p on))

  pub written-IsRing : IsRing (committed_world w p) rs ws
  written-IsRing =
      let d = ring.distinct in
      record {
        buffer = ring.buffer;
        distinct = d;
        linked = record {
          newer = ring.linked.newer;
          older = ring.linked.older;
          forward = ring.linked.forward;
          backward = ring.linked.backward;
        };
        laid = ring.laid;
        aligned = ring.aligned;
        sized = ring.sized;
        counted = record {
          committed = ground (
            arith,
            ring.counted.committed,
            tally-update is_committed w.mem.state stat_committed (rs ++ ws) p d on,
          );
          writing = ground (
            arith,
            ring.counted.writing,
            tally-update is_writing w.mem.state stat_committed (rs ++ ws) p d on,
          );
          reading = ground (
            arith,
            ring.counted.reading,
            tally-update is_reading w.mem.state stat_committed (rs ++ ws) p d on,
          );
        };
        read = λ q i. ground (arith, ring.read q);
        unread = λ q i. ground (arith, ring.unread q);
        head = ring.head;
        tail = ring.tail;
        oldest_reserve = ring.oldest_reserve;
      }

  dropped-IsCounted : IsCounted (dropped w.rb.counter) w.mem.state (erase p (rs ++ ws))
  dropped-IsCounted = record {
    committed =
        ground
          (arith, ring.counted.committed, tally-erase is_committed w.mem.state (rs ++ ws) p on);
    writing =
        ground (arith, ring.counted.writing, tally-erase is_writing w.mem.state (rs ++ ws) p on);
    reading =
        ground (arith, ring.counted.reading, tally-erase is_reading w.mem.state (rs ++ ws) p on);
  }

  discard_run :
      commit_for_write_discard p w
      ≡ some (
        pos 0,
        deleted_world (record w { rb = record w.rb { counter = dropped w.rb.counter } }) p,
      )
  unfolding commit_for_write_discard
  discard_run =
      rw
        (
          delete_node_run
              (record w {
                rb = record w.rb {
                  counter = record w.rb.counter { writing = sub64 w.rb.counter.writing 1 };
                };
              })
              (rs ++ ws) p ring.linked ring.distinct (not-has-null ring) on (ne_null ring p on),
          ◌>>=◌,
        )
        refl

-- What the commit of a token that is being written does.
abbrev pub Written : World → List Ptr → List Ptr → Ptr → ℕ → ℤ → World → Type 0
Written w rs ws p flags r v =
    (r ≡ pos 0)
    × KeptBut p w.mem v.mem
    × (if has_flag flags flag_discard
        then IsRing v (erase p rs) (erase p ws)
        else IsRing v rs ws × (is_committed (v.mem.state p) ≡ true))

-- eaf_ringbuffer_commit of a token of a well-formed ring that is being written succeeds: with the
-- flag discard its node leaves the ring, and without it the node is committed and keeps its
-- place. The ring is well formed, and the other tokens are as before.
pub commit_written_lem :
    {w : World} {rs ws : List Ptr}
    → IsRing w rs ws
    → (p : Ptr) (flags : ℕ) → has p (rs ++ ws) ≡ true
    → is_writing (w.mem.state p) ≡ true
    → Yields (commit (token_of p) flags w) (Written w rs ws p flags)
unfolding commit_for_write
commit_written_lem {w} {rs} {ws} ring p flags on writing =
    let start = commit_at w p flags (ne_null ring p on) in
    elim (Bool-cases (has_flag flags flag_discard)) [
      | inl discard ↦ (
        pos 0,
        deleted_world (record w { rb = record w.rb { counter = dropped w.rb.counter } }) p,
        start ∙ rw (writing, discard) (discard_run ring p on writing),
        (
          refl,
          deleted_kept (record w { rb = record w.rb { counter = dropped w.rb.counter } }) p,
          rw discard (removed-IsRing ring p on _ (dropped-IsCounted ring p on writing)),
        ),
      )
      | inr confirm ↦ (
        pos 0,
        committed_world w p,
        start ∙ rw (writing, confirm) (confirm_run ring p on writing),
        (
          refl,
          (refl, λ q ne. ground arith),
          rw confirm (written-IsRing ring p on writing, ground arith),
        ),
      )
    ]
