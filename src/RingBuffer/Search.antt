-- ===== src/RingBuffer/Search.antt =====
-- _ring_buffer_reserve_none_empty finds a place for the new node, or there is none.
use eaf.Prelude.{
  ℕ, ◌+◌, ◌-◌, ◌%◌, ◌^◌, ◌≤◌, ◌<◌, ◌≡◌, refl, sym, ◌≢◌, false, true, List, [], ◌∷◌, ◌++◌,
  if◌then◌else◌, arith, leb→le, not_leb→lt, ne→false, eq→true, ap, Bool-cases, inl, inr, ◌∙◌, ltb,
  leb,
}
use eaf.Sequence.{first, last, has-append, has-last, last-append}
use eaf.RingBuffer.{Ptr, null, World, node_cost, sub64, get_size, get_forward, deref}
use eaf.RingBuffer.Reserve.{reserve_none_empty, insert_at, overwrite_if_asked}
use eaf.RingBuffer.Ring.{Fits, IsBuffer, IsRing}
use eaf.RingBuffer.Facts.{room, has-last_of}
use eaf.RingBuffer.Cost.{node_cost_bounds, node_cost-aligned}
use eaf.RingBuffer.Room.{Sized, Fits-within}
use eaf.RingBuffer.Place.{
  Place, Place-behind, Place-at_start, Place-turned, Turn, flat, around, Turn-of,
}

-- No gap of the cache that the newest node borders on, or that lies at the start, has `cost` bytes.
abbrev pub NoRoom : Ptr → ℕ → (Ptr → ℕ) → List Ptr → ℕ → Type 0
NoRoom cache capacity size xs cost =
    let h = last null xs in
    let f = first xs null in
    (h < f → f < h + node_cost (size h) + cost)
    × (f ≤ h → (cache + capacity < h + node_cost (size h) + cost) × (f < cache + cost))

pub data Found (w : World) (xs : List Ptr) (len flags : ℕ) : Type 0 where
  place :
      (p : Ptr)
      → Place w.rb.cache w.rb.capacity w.mem.size xs p len
      → w.rb.cache ≤ p
      → p % 8 ≡ 0
      → reserve_none_empty len (node_cost len) flags w ≡ insert_at p len w
      → Found w xs len flags
  full :
      NoRoom w.rb.cache w.rb.capacity w.mem.size xs (node_cost len)
      → reserve_none_empty len (node_cost len) flags w
        ≡ overwrite_if_asked len (node_cost len) flags w
      → Found w xs len flags

-- The search, once the head and what follows it are read.
search_run :
    (w : World) (h f : Ptr) (len cost flags : ℕ)
    → h ≢ null
    → w.rb.head ≡ h
    → w.mem.p_forward h ≡ f
    → reserve_none_empty len cost flags w
      ≡ (if ltb h f
            then if leb cost (sub64 f (h + node_cost (w.mem.size h)))
              then insert_at (h + node_cost (w.mem.size h)) len
              else overwrite_if_asked len cost flags
            else if leb cost (sub64 w.rb.capacity (sub64 (h + node_cost (w.mem.size h)) w.rb.cache))
            then insert_at (h + node_cost (w.mem.size h)) len
            else if leb cost (sub64 f w.rb.cache)
            then insert_at w.rb.cache len
            else overwrite_if_asked len cost flags)
          w
unfolding reserve_none_empty get_size get_forward
search_run w h f len cost flags nh eh ef = simp (deref, eh, ne→false h null nh, ef)

module _ (w : World) (len flags : ℕ) (cost : 0 < node_cost len)
    (buffer : IsBuffer w.rb.cache w.rb.capacity) where
  -- The nodes have not turned: the room behind the newest, then that at the start of the cache.
  search_flat :
      (x : Ptr) (xs : List Ptr)
      → Fits w.mem.size w.rb.cache (x ∷ xs) (w.rb.cache + w.rb.capacity)
      → Sized w.mem.size (x ∷ xs)
      → last x xs % 8 ≡ 0
      → x ≤ last x xs
      → w.rb.head ≡ last x xs
      → w.mem.p_forward (last x xs) ≡ x
      → Found w (x ∷ xs) len flags
  search_flat x xs f s al le eh ef =
      let h = last x xs in
      let n = h + node_cost (w.mem.size h) in
      let (lo, hi) = Fits-within w.mem.size w.rb.cache (x ∷ xs) _ h f (has-last null x xs) in
      let behind : sub64 w.rb.capacity (sub64 n w.rb.cache) ≡ w.rb.cache + w.rb.capacity - n =
        omega (arith, buffer.bounded) in
      let front : sub64 x w.rb.cache ≡ x - w.rb.cache = omega (arith, buffer.bounded, f.0) in
      let ahead : ltb h x ≡ false = ground arith in
      let run =
        search_run w h x len (node_cost len) flags (λ e. absurd (omega (arith, buffer.not_null))) eh
          ef in
      elim (Bool-cases (leb (node_cost len) (sub64 w.rb.capacity (sub64 n w.rb.cache)))) [
        | inl fits_behind ↦
            place n
              (Place-behind w.rb.cache w.rb.capacity w.mem.size n len cost x xs f s refl
                (omega (arith, leb→le _ _ fits_behind, behind, hi)))
              (omega (arith, lo)) (omega (arith, al, node_cost-aligned (w.mem.size h)))
              (run ∙ rw (ahead, fits_behind))
        | inr not_behind ↦ elim (Bool-cases (leb (node_cost len) (sub64 x w.rb.cache))) [
          | inl at_start ↦
              place w.rb.cache
                (Place-at_start w.rb.cache w.rb.capacity w.mem.size w.rb.cache len cost x xs f refl
                  (omega (arith, leb→le _ _ at_start, front, f.0, buffer.bounded)))
                (omega arith) buffer.aligned (run ∙ rw (ahead, not_behind, at_start))
          | inr no_start ↦
              full
                (
                  λ lt. absurd (omega (arith, le)),
                  λ o. omega (
                    arith,
                    not_leb→lt _ _ not_behind,
                    not_leb→lt _ _ no_start,
                    behind,
                    front,
                    hi,
                    f.0,
                    buffer.bounded,
                  ),
                )
                (run ∙ rw (ahead, not_behind, no_start))
        ]
      ]

  -- The nodes have turned: the room between the newest and the oldest.
  search_around :
      (x : Ptr) (xs : List Ptr) (t : Ptr) (ts : List Ptr)
      → Fits w.mem.size w.rb.cache ((t ∷ ts) ++ x ∷ xs) (w.rb.cache + w.rb.capacity)
      → Sized w.mem.size ((x ∷ xs) ++ t ∷ ts)
      → last t ts % 8 ≡ 0
      → last t ts + node_cost (w.mem.size (last t ts)) ≤ x
      → w.rb.head ≡ last t ts
      → w.mem.p_forward (last t ts) ≡ x
      → Found w ((x ∷ xs) ++ t ∷ ts) len flags
  search_around x xs t ts f s al le eh ef =
      let h = last t ts in
      let n = h + node_cost (w.mem.size h) in
      let all = (t ∷ ts) ++ x ∷ xs in
      let hi = w.rb.cache + w.rb.capacity in
      let (lo, up) =
        Fits-within w.mem.size w.rb.cache all hi h f
          (ground (arith, has-append h (t ∷ ts) (x ∷ xs), has-last null t ts)) in
      let (lo', up') =
        Fits-within w.mem.size w.rb.cache all hi x f
          (ground (arith, has-append x (t ∷ ts) (x ∷ xs))) in
      let pos' = s h (ground (arith, has-append h (x ∷ xs) (t ∷ ts), has-last null t ts)) in
      let gap : sub64 x n ≡ x - n = omega (arith, buffer.bounded, up', le) in
      let ahead : ltb h x ≡ true = ground arith in
      let end_eq = last-append x t xs ts in
      let run =
        search_run w h x len (node_cost len) flags
          (λ e. absurd (omega (arith, buffer.not_null, lo))) eh ef in
      elim (Bool-cases (leb (node_cost len) (sub64 x n))) [
        | inl fits_gap ↦
            place n
              (Place-turned w.rb.cache w.rb.capacity w.mem.size n len cost x xs t ts f s refl
                (omega (arith, leb→le _ _ fits_gap, gap, le)))
              (omega (arith, lo)) (omega (arith, al, node_cost-aligned (w.mem.size h)))
              (run ∙ rw (ahead, fits_gap))
        | inr no_gap ↦
            full
              (
                λ lt. rw end_eq (omega (arith, not_leb→lt _ _ no_gap, gap, le)),
                λ o. absurd (omega (arith, end_eq, o, pos', le)),
              )
              (run ∙ rw (ahead, no_gap))
      ]

  search-Turn :
      (xs : List Ptr)
      → Turn w.rb.cache w.rb.capacity w.mem.size xs
      → Sized w.mem.size xs
      → last null xs % 8 ≡ 0
      → w.rb.head ≡ last null xs
      → w.mem.p_forward (last null xs) ≡ first xs null
      → Found w xs len flags
  search-Turn xs (flat x xs' f le) s al eh ef = search_flat x xs' f s al le eh ef
  search-Turn xs (around x xs' t ts f le) s al eh ef =
      search_around x xs' t ts f s
        (omega (arith, ap (λ (n : ℕ). n % 8) (last-append x t xs' ts), al)) le
        (eh ∙ last-append x t xs' ts) (sym (ap w.mem.p_forward (last-append x t xs' ts)) ∙ ef)

-- The search on a ring with a node.
pub search_lem :
    {w : World} {rs ws : List Ptr}
    → IsRing w rs ws
    → rs ++ ws ≢ []
    → (len flags : ℕ) → len + 55 < 2 ^ 64
    → Found w (rs ++ ws) len flags
search_lem {w} {rs} {ws} ring some_node len flags small =
    let laid = ring.laid in
    let h = last null (rs ++ ws) in
    search-Turn w len flags (omega (arith, node_cost_bounds len small)) ring.buffer (rs ++ ws)
      (Turn-of w.rb.cache w.rb.capacity w.mem.size (rs ++ ws) laid.straight laid.turned some_node
        laid.split laid.fits laid.started)
      (λ q i. omega (arith, room ring q i)) (ring.aligned h (has-last_of (rs ++ ws) some_node))
      ring.head (ring.linked.forward h (has-last_of (rs ++ ws) some_node) ∙ rw (eq→true h h refl))
