-- ===== src/RingBuffer/Setup.antt =====
-- eaf_ringbuffer_init and eaf_ringbuffer_count.
use eaf.Prelude.{
  ℕ, ◌+◌, ◌-◌, ◌*◌, ◌/◌, ◌%◌, ◌^◌, ◌≤◌, ◌<◌, ◌≡◌, refl, ◌⊎◌, false, true, some, List, [], ◌∷◌, ◌++◌,
  ◌==◌, if◌then◌else◌, arith, ne→false, Bool-cases, inl, inr, ap, ◌∙◌, length, leb, leb→le,
  not_leb→lt, length-append,
}
use eaf.Sequence.{has, first}
use eaf.RingBuffer.{
  Ptr, null, World, Counter, NodeState, token_of, add64, sub64, is_writing, is_committed,
  is_reading, deref, get_newer, init, align, heap_cost, count, begin, next, node_cost,
}
use eaf.RingBuffer.Cost.{align_lem, heap_cost_eq}
use eaf.RingBuffer.Facts.{ne_null, room, has_swapped}
use eaf.RingBuffer.Order.{after}
use eaf.RingBuffer.Room.{Sized}
use eaf.RingBuffer.Ring.{IsRing, Yields, Fits, tally}
use eaf.RingBuffer.Tally.{tally-length}

-- An empty ring that takes the memory from `buffer` to its end, behind the structure.
abbrev pub SetUp : World → Ptr → ℕ → Ptr → World → Type 0
SetUp w buffer size h v =
    ((h ≡ null) × (v ≡ w) × (size ≤ (buffer + 7) / 8 * 8 - buffer + 64))
    ⊎ ((buffer ≤ h)
        × (h % 8 ≡ 0)
        × (v.rb.cache ≡ h + 64)
        × (v.rb.cache + v.rb.capacity ≡ buffer + size)
        × (0 < v.rb.capacity)
        × IsRing v [] [])

-- eaf_ringbuffer_init on memory that is not NULL and ends 8 bytes or more before the end of the
-- address space: if the aligned structure leaves no byte of it, the call returns NULL and changes
-- nothing; otherwise it returns the aligned address, and the structure is an empty well-formed
-- ring, whose cache is aligned and is all the memory behind the structure.
pub init_lem :
    (w : World) (buffer : Ptr) (size : ℕ)
    → 0 < buffer
    → buffer + size + 7 < 2 ^ 64
    → Yields (init buffer size w) (SetUp w buffer size)
unfolding init
init_lem w buffer size some_memory bounded =
    let h = align buffer in
    let ah : h ≡ (buffer + 7) / 8 * 8 = omega (arith, align_lem buffer) in
    let lead : sub64 h buffer ≡ h - buffer = omega arith in
    let cost = heap_cost_eq in
    elim (Bool-cases (leb size (add64 (sub64 h buffer) heap_cost))) [
      | inl small ↦ (null, w, rw small refl, inl (refl, refl, omega (arith, leb→le _ _ small)))
      | inr large ↦
          let fits : h - buffer + 64 < size = omega (arith, not_leb→lt _ _ large, lead) in
          let rest : sub64 (sub64 size (sub64 h buffer)) heap_cost ≡ size - (h - buffer) - 64 =
            omega (arith, lead) in
          (
            h,
            record {
              rb = record {
                cache = h + heap_cost;
                capacity = sub64 (sub64 size (sub64 h buffer)) heap_cost;
                head = null;
                tail = null;
                oldest_reserve = null;
                counter = record { committed = 0; writing = 0; reading = 0 };
              };
              mem = w.mem;
            },
            rw large refl,
            inr (
              omega arith,
              omega arith,
              omega arith,
              omega arith,
              omega arith,
              record {
                buffer = record {
                  not_null = omega arith;
                  aligned = omega arith;
                  bounded = omega arith;
                };
                distinct = tt;
                linked = record {
                  newer = λ q i. cc;
                  older = λ q i. cc;
                  forward = λ q i. cc;
                  backward = λ q i. cc;
                };
                laid = record {
                  turned = [];
                  straight = [];
                  split = refl;
                  fits = omega arith;
                  started = λ e. refl;
                };
                aligned = λ q i. cc;
                sized = λ q i. cc;
                counted = record { committed = refl; writing = refl; reading = refl };
                read = λ q i. cc;
                unread = λ q i. cc;
                head = refl;
                tail = refl;
                oldest_reserve = refl;
              },
            ),
          )
    ]

Fits-length :
    (size : Ptr → ℕ) (lo : Ptr) (xs : List Ptr) (hi : Ptr)
    → Fits size lo xs hi
    → Sized size xs
    → lo + length xs ≤ hi
Fits-length size lo [] hi f s = omega arith
Fits-length size lo (x ∷ xs) hi f s = omega (
  arith,
  Fits-length size (x + node_cost (size x)) xs hi f.1 (λ q i. s q (ground arith)),
  s x (ground arith),
)

-- The nodes that are read are counted, and the others are not.
tally_read :
    (state : Ptr → NodeState) (rs ws : List Ptr)
    → ((p : Ptr) → has p rs ≡ true → is_reading (state p) ≡ true)
    → ((p : Ptr) → has p ws ≡ true → is_reading (state p) ≡ false)
    → tally is_reading state (rs ++ ws) ≡ length rs
tally_read state [] [] r u = refl
tally_read state [] (y ∷ ws) r u =
    rw (u y (ground arith)) (omega (arith, tally_read state [] ws r (λ p i. u p (ground arith))))
tally_read state (x ∷ rs) ws r u =
    rw (r x (ground arith)) (omega (arith, tally_read state rs ws (λ p i. r p (ground arith)) u))

module _ {w : World} {rs ws : List Ptr} (ring : IsRing w rs ws) where
  -- The nodes are fewer than the bytes of the cache.
  few_nodes : length (rs ++ ws) ≤ w.rb.capacity
  few_nodes =
      let laid = ring.laid in
      omega (
        arith,
        Fits-length w.mem.size w.rb.cache (laid.turned ++ laid.straight) _ laid.fits (λ q i. omega (
          arith,
          room ring q (ap (has q) laid.split ∙ has_swapped q laid.straight laid.turned ∙ i),
        )),
        length-append laid.turned laid.straight,
        length-append laid.straight laid.turned,
        ap length laid.split,
      )

  -- eaf_ringbuffer_count on a well-formed ring returns the number of its nodes, and the counters
  -- are the numbers of the nodes that are committed, written and read, with no wrap.
  pub count_lem :
      (n : ℕ) × (c : Counter) × (count w ≡ some ((n, c), w))
      × (n ≡ length (rs ++ ws))
      × (c.committed ≡ tally is_committed w.mem.state (rs ++ ws))
      × (c.writing ≡ tally is_writing w.mem.state (rs ++ ws))
      × (c.reading ≡ length rs)
  unfolding count
  count_lem =
      let total = tally-length w.mem.state (rs ++ ws) in
      let few : length (rs ++ ws) < 2 ^ 64 = omega (arith, few_nodes, ring.buffer.bounded) in
      let c1 : w.rb.counter.committed ≡ tally is_committed w.mem.state (rs ++ ws) =
        omega (arith, ring.counted.committed, total, few) in
      let c2 : w.rb.counter.writing ≡ tally is_writing w.mem.state (rs ++ ws) =
        omega (arith, ring.counted.writing, total, few) in
      let c3 : w.rb.counter.reading ≡ tally is_reading w.mem.state (rs ++ ws) =
        omega (arith, ring.counted.reading, total, few) in
      (
        _,
        w.rb.counter,
        refl,
        omega (arith, c1, c2, c3, total, few),
        c1,
        c2,
        c3 ∙ tally_read w.mem.state rs ws ring.read ring.unread,
      )

  -- eaf_ringbuffer_begin on a ring with a node gives the oldest token.
  pub begin_lem : begin w ≡ some (token_of (first (rs ++ ws) null), w)
  unfolding begin
  begin_lem = rw ring.tail refl

  -- eaf_ringbuffer_next gives the token of the next newer node, and NULL after the newest.
  pub next_lem :
      (p : Ptr)
      → has p (rs ++ ws) ≡ true
      → next (token_of p) w
        ≡ some (if after (rs ++ ws) p == null then null else token_of (after (rs ++ ws) p), w)
  unfolding next get_newer
  next_lem p i =
      let e : p + 40 - 40 ≡ p = omega arith in
      let n = ring.linked.newer p i in
      elim (Bool-cases (after (rs ++ ws) p == null)) [
        | inl newest ↦ simp (e, deref, ne→false p null (ne_null ring p i), n, newest)
        | inr newer ↦ simp (e, deref, ne→false p null (ne_null ring p i), n, newer)
      ]
