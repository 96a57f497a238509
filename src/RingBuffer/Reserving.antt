-- ===== src/RingBuffer/Reserving.antt =====
-- eaf_ringbuffer_reserve, without the overwriting of committed nodes.
use eaf.Prelude.{
  ℕ, ◌+◌, ◌^◌, ◌≤◌, ◌<◌, ◌≡◌, refl, sym, ◌≢◌, ◌⊎◌, false, some, List, [], ◌∷◌, ◌++◌, if◌then◌else◌,
  arith, ne→false, eq→true, Bool-cases, inl, inr, ◌∙◌, ltb, ltb→lt,
}
use eaf.Sequence.{first}
use eaf.RingBuffer.{
  Ptr, null, World, update, node_cost, add64, token_of, stat_writing, set_forward, set_backward,
  set_newer, set_older, set_state, set_size, deref,
}
use eaf.RingBuffer.Commit.{has_flag, flag_overwrite}
use eaf.RingBuffer.Reserve.{reserve, reserve_empty, reserve_none_empty, overwrite_if_asked}
use eaf.RingBuffer.Ring.{IsRing, Yields}
use eaf.RingBuffer.Facts.{ne_null, has-first}
use eaf.RingBuffer.Insert.{Reserved, insert_at_lem}
use eaf.RingBuffer.Search.{NoRoom, place, full, search_lem}

-- The world with one node, at the start of the cache.
abbrev pub single_world : World → ℕ → World
single_world w len =
    let p = w.rb.cache in
    let m = w.mem in
    record {
      rb = record w.rb {
        head = p;
        tail = p;
        oldest_reserve = p;
        counter = record w.rb.counter { writing = add64 w.rb.counter.writing 1 };
      };
      mem = record {
        p_forward = update m.p_forward p p;
        p_backward = update m.p_backward p p;
        p_newer = update m.p_newer p null;
        p_older = update m.p_older p null;
        state = update m.state p stat_writing;
        size = update m.size p len;
      };
    }

reserve_empty_run :
    (w : World) (len cost : ℕ)
    → w.rb.cache ≢ null
    → reserve_empty len cost w ≡ (
        if ltb w.rb.capacity cost
        then some (null, w)
        else some (token_of w.rb.cache, single_world w len))
unfolding reserve_empty set_state set_size set_forward set_backward set_newer set_older
reserve_empty_run w len cost ne = elim (Bool-cases (ltb w.rb.capacity cost)) [
  | inl less ↦ rw less refl
  | inr fits ↦ simp (deref, fits, ne→false w.rb.cache null ne)
]

pub single-IsRing :
    {w : World}
    → IsRing w [] []
    → (len : ℕ) → len + 55 < 2 ^ 64
    → node_cost len ≤ w.rb.capacity
    → IsRing (single_world w len) [] (w.rb.cache ∷ [])
single-IsRing {w} ring len small fits = record {
  buffer = ring.buffer;
  distinct = (refl, tt);
  linked = record {
    newer = λ q i. ground arith;
    older = λ q i. ground arith;
    forward = λ q i. ground arith;
    backward = λ q i. ground arith;
  };
  laid = record {
    turned = [];
    straight = w.rb.cache ∷ [];
    split = refl;
    fits = (omega arith, rw (eq→true w.rb.cache w.rb.cache refl) (omega (arith, fits)));
    started = λ e. cc;
  };
  aligned = λ q i. ground (arith, ring.buffer.aligned);
  sized = λ q i. ground arith;
  counted = record {
    committed = rw (eq→true w.rb.cache w.rb.cache refl) (omega (arith, ring.counted.committed));
    writing = rw (eq→true w.rb.cache w.rb.cache refl) (omega (arith, ring.counted.writing));
    reading = rw (eq→true w.rb.cache w.rb.cache refl) (omega (arith, ring.counted.reading));
  };
  read = λ q i. cc;
  unread = λ q i. ground arith;
  head = refl;
  tail = refl;
  oldest_reserve = refl;
}

-- No place in the cache for a node of `cost` bytes.
abbrev pub Full : Ptr → ℕ → (Ptr → ℕ) → List Ptr → ℕ → Type 0
Full cache capacity size [] cost = capacity < cost
Full cache capacity size (x ∷ xs) cost = NoRoom cache capacity size (x ∷ xs) cost

reserve_some :
    (w : World) (len flags : ℕ)
    → w.rb.tail ≢ null
    → reserve len flags w ≡ reserve_none_empty len (node_cost len) flags w
unfolding reserve
reserve_some w len flags ne = rw (ne→false w.rb.tail null ne)

-- The call refuses for the reason `P`, and leaves everything as it was, or makes a new node.
abbrev pub Outcome : World → List Ptr → List Ptr → ℕ → Type 0 → Ptr → World → Type 0
Outcome w rs ws len P t v = ((t ≡ null) × (v ≡ w) × P) ⊎ Reserved w rs ws len t v

module _ {w : World} (len flags : ℕ) (small : len + 55 < 2 ^ 64) where
  module _ (no_overwrite : has_flag flags flag_overwrite ≡ false) where
    reserve_more :
        {rs ws : List Ptr}
        → IsRing w rs ws
        → rs ++ ws ≢ []
        → Yields (reserve len flags w) (
            Outcome w rs ws len
              (NoRoom w.rb.cache w.rb.capacity w.mem.size (rs ++ ws) (node_cost len)))
    unfolding overwrite_if_asked
    reserve_more {rs} {ws} ring some_node =
        let run = reserve_some w len flags (λ e.
          ne_null ring (first (rs ++ ws) null) (has-first (rs ++ ws) some_node)
            (sym ring.tail ∙ e)) in
        elim (search_lem ring some_node len flags small) [
          | place p (out, laid) lo al found ↦
              let (t, v, done, reserved) =
                insert_at_lem ring some_node p len
                  (λ e. absurd (omega (arith, ring.buffer.not_null))) out al small laid in
              (t, v, run ∙ found ∙ done, inr reserved)
          | full no_room found ↦
              (null, w, run ∙ found ∙ rw no_overwrite refl, inl (refl, refl, no_room))
        ]

    -- eaf_ringbuffer_reserve on a well-formed ring, without the flag overwrite and for a length
    -- that is not within 55 bytes of the end of `size_t`: it returns NULL, since there is no room
    -- behind the newest node, between it and the oldest, or at the start of the cache, and
    -- changes nothing; or it returns the token of a new node of that length, the newest, in the
    -- state writing, and the ring is well formed and the other tokens are as before.
    pub reserve_lem :
        (rs ws : List Ptr)
        → IsRing w rs ws
        → Yields (reserve len flags w) (
            Outcome w rs ws len
              (Full w.rb.cache w.rb.capacity w.mem.size (rs ++ ws) (node_cost len)))
    unfolding reserve
    reserve_lem [] [] ring = elim (Bool-cases (ltb w.rb.capacity (node_cost len))) [
      | inl less ↦ (
        null,
        w,
        rw
            (
              eq→true w.rb.tail null ring.tail,
              reserve_empty_run w len (node_cost len)
                  (λ e. absurd (omega (arith, ring.buffer.not_null))),
              less,
            )
            refl,
        inl (refl, refl, ltb→lt _ _ less),
      )
      | inr fits ↦ (
        token_of w.rb.cache,
        single_world w len,
        rw
            (
              eq→true w.rb.tail null ring.tail,
              reserve_empty_run w len (node_cost len)
                  (λ e. absurd (omega (arith, ring.buffer.not_null))),
              fits,
            )
            refl,
        inr (record {
          node = w.rb.cache;
          token = refl;
          fresh = refl;
          ring = single-IsRing ring len small (ground arith);
          kept = λ q i. cc;
          writing = ground arith;
          size = ground arith;
        }),
      )
    ]
    reserve_lem [] (y ∷ ws) ring = reserve_more ring (λ e. cc)
    reserve_lem (x ∷ rs) ws ring = reserve_more ring (λ e. cc)
