-- ===== src/RingBuffer/Runs.antt =====
-- The commands of the ring buffer on links, run: what memory they leave.
use eaf.Prelude.{ℕ, ◌≡◌, refl, ◌≢◌, some, ◌==◌, if◌then◌else◌, ne→false, eq→true}
use eaf.RingBuffer.{
  Ptr, null, add64, token_of, ◌>>=◌, stat_writing, Nodes, World, update, ◌>>=◌, deref, get_forward,
  get_backward, get_older, set_forward, set_backward, set_newer, set_older, set_state, set_size,
}
use eaf.RingBuffer.Reserve.{insert_new_node, update_oldest_reserve, insert_at}

-- The memory with a new node `p` of `len` bytes behind the newest node `h`, before `f`.
abbrev pub inserted : Nodes → Ptr → Ptr → Ptr → ℕ → Nodes
inserted m p h f len = record {
  p_forward = update (update m.p_forward p f) h p;
  p_backward = update (update m.p_backward p h) f p;
  p_newer = update (update m.p_newer p null) h p;
  p_older = update m.p_older p h;
  state = update m.state p stat_writing;
  size = update m.size p len;
}

module _ (p h f : Ptr) (len : ℕ) (w : World) (np : p ≢ null) (nh : h ≢ null) (nf : f ≢ null)
    (ph : p ≢ h) (pf : p ≢ f) (eh : w.rb.head ≡ h) (ef : w.mem.p_forward h ≡ f) where
  pub insert_new_node_run :
      insert_new_node p len w
      ≡ some (tt, record { rb = record w.rb { head = p }; mem = inserted w.mem p h f len })
  unfolding insert_new_node get_forward get_backward get_older set_forward set_backward set_newer
      set_older set_state set_size
  insert_new_node_run = simp (
    deref,
    ne→false p null np,
    ne→false h null nh,
    ne→false f null nf,
    eq→true p p refl,
    eh,
    ef,
    ne→false p f pf,
  )

-- The world after the insertion.
abbrev pub inserted_world : World → Ptr → Ptr → Ptr → ℕ → World
inserted_world w p h f len = record {
  rb = record w.rb {
    head = p;
    oldest_reserve = if w.rb.oldest_reserve == null then p else w.rb.oldest_reserve;
    counter = record w.rb.counter { writing = add64 w.rb.counter.writing 1 };
  };
  mem = inserted w.mem p h f len;
}

pub insert_at_run :
    (p h f : Ptr) (len : ℕ) (w : World)
    → p ≢ null
    → h ≢ null
    → f ≢ null
    → p ≢ h
    → p ≢ f
    → w.rb.head ≡ h
    → w.mem.p_forward h ≡ f
    → insert_at p len w ≡ some (token_of p, inserted_world w p h f len)
unfolding insert_at update_oldest_reserve
insert_at_run p h f len w np nh nf ph pf eh ef =
    let w1 : World = record {
      rb = record w.rb { counter = record w.rb.counter { writing = add64 w.rb.counter.writing 1 } };
      mem = w.mem;
    } in
    rw (insert_new_node_run p h f len w1 np nh nf ph pf eh ef, ◌>>=◌) refl
