-- ===== src/RingBuffer/Delete.antt =====
-- _ring_buffer_delete_node removes a node from the chains of the ring.
use eaf.Prelude.{
  ◌≡◌, sym, ◌≢◌, false, true, some, List, ◌==◌, ◌&&◌, not, if◌then◌else◌, arith, ne→false,
  Bool-cases, inl, inr,
}
use eaf.Sequence.{has, Distinct}
use eaf.RingBuffer.{
  Ptr, null, World, deref, get_forward, get_backward, get_newer, get_older, set_forward,
  set_backward, set_newer, set_older, delete_node_update_chain, delete_node, ◌>>=◌,
}
use eaf.RingBuffer.Link.{unlinked}
use eaf.RingBuffer.Order.{before-first, after-last, after_self, before_self}
use eaf.RingBuffer.Facts.{last_ne_null, first_ne_null}
use eaf.RingBuffer.Ring.{IsLinked}

-- The world without the node `p`.
abbrev pub deleted_world : World → Ptr → World
deleted_world w p =
    if w.mem.p_forward p == p
    then record w {
      rb = record w.rb {
        head = null;
        tail = null;
        oldest_reserve = null;
        counter = record { committed = 0; writing = 0; reading = 0 };
      };
    }
    else record {
      rb = record w.rb {
        head =
            if not (w.mem.p_older p == null) && (w.mem.p_newer p == null)
            then w.mem.p_older p
            else w.rb.head;
        tail = if w.mem.p_older p == null then w.mem.p_newer p else w.rb.tail;
        oldest_reserve = if w.rb.oldest_reserve == p then w.mem.p_newer p else w.rb.oldest_reserve;
      };
      mem = unlinked w.mem p;
    }

module _ (w : World) (p : Ptr) (np : p ≢ null) (nb : w.mem.p_backward p ≢ null)
    (nf : w.mem.p_forward p ≢ null) (pb : p ≢ w.mem.p_backward p) (po : p ≢ w.mem.p_older p)
    (pn : p ≢ w.mem.p_newer p) where
  chain_run : delete_node_update_chain p w ≡ some (tt, record w { mem = unlinked w.mem p })
  unfolding delete_node_update_chain get_forward get_backward get_newer get_older set_forward
      set_backward set_newer set_older
  chain_run = elim (Bool-cases (w.mem.p_older p == null)) [
    | inl oldest ↦ elim (Bool-cases (w.mem.p_newer p == null)) [
      | inl newest ↦ simp (
        deref,
        oldest,
        newest,
        ne→false p null np,
        ne→false _ _ nb,
        ne→false _ _ nf,
        ne→false _ _ pb,
      )
      | inr newer ↦ simp (
        deref,
        oldest,
        newer,
        ne→false p null np,
        ne→false _ _ nb,
        ne→false _ _ nf,
        ne→false _ _ pb,
      )
    ]
    | inr older ↦ elim (Bool-cases (w.mem.p_newer p == null)) [
      | inl newest ↦ simp (
        deref,
        older,
        newest,
        ne→false p null np,
        ne→false _ _ nb,
        ne→false _ _ nf,
        ne→false _ _ pb,
        ne→false _ _ po,
      )
      | inr newer ↦ simp (
        deref,
        older,
        newer,
        ne→false p null np,
        ne→false _ _ nb,
        ne→false _ _ nf,
        ne→false _ _ pb,
        ne→false _ _ po,
      )
    ]
  ]

-- The deletion of a node of a ring, on any world with its links.
pub delete_node_run :
    (w : World) (xs : List Ptr) (p : Ptr)
    → IsLinked w.mem xs
    → Distinct xs
    → has null xs ≡ false
    → has p xs ≡ true
    → p ≢ null
    → delete_node p w ≡ some (tt, deleted_world w p)
unfolding delete_node get_forward get_newer get_older
delete_node_run w xs p linked d o i np = elim (Bool-cases (w.mem.p_forward p == p)) [
  | inl alone ↦ simp (deref, alone, ne→false p null np)
  | inr more ↦
      let b = linked.backward p i in
      let f = linked.forward p i in
      let at_first = before-first xs p d o i in
      let at_last = after-last null xs p d o i in
      let irreflexive = before_self null xs p d o (λ e. np (sym e)) in
      let po : p ≢ w.mem.p_older p = ground (arith, linked.older p i) in
      let pn : p ≢ w.mem.p_newer p = ground (arith, linked.newer p i, after_self xs p d np) in
      let run =
        chain_run w p np (ground (arith, last_ne_null p xs o i))
          (ground (arith, first_ne_null p xs o i)) (ground arith) po pn in
      let same_newer : (unlinked w.mem p).p_newer p ≡ w.mem.p_newer p = ground arith in
      let same_older : (unlinked w.mem p).p_older p ≡ w.mem.p_older p = ground arith in
      simp (deref, ne→false p null np, more)
        (rw (run, ◌>>=◌, same_newer, same_older)
          (elim (Bool-cases (w.mem.p_older p == null)) [
            | inl oldest ↦ simp oldest
            | inr older ↦ elim (Bool-cases (w.mem.p_newer p == null)) [
              | inl newest ↦ simp (older, newest)
              | inr newer ↦ simp (older, newer)
            ]
          ]))
]
