-- ===== src/RingBuffer/Reserve.antt =====
-- eaf_ringbuffer_reserve: a node at the cache of an empty buffer, behind the newest node, at the
-- start of the cache, or in place of the oldest committed nodes.
use eaf.Prelude.{ℕ, zero, suc, ◌+◌, not, ◌&&◌, none, ltb, leb, ◌==◌, if◌then◌else◌}
use eaf.RingBuffer.{
  Ptr, null, add64, sub64, stat_writing, is_committed, M, pure, ◌>>=◌, ◌>>◌, get_forward,
  set_forward, get_backward, set_backward, get_newer, set_newer, get_older, set_older, get_state,
  set_state, get_size, set_size, get_rb, set_rb, set_counter, token_of, node_cost, reinit,
}
use eaf.RingBuffer.Commit.{has_flag, flag_overwrite}

unfoldable pub reserve_empty : ℕ → ℕ → M Ptr
reserve_empty data_len node_size = do
  rb ← get_rb
  if ltb rb.capacity node_size then pure null else (do
    let node = rb.cache
    set_rb (λ r. record r { head = node })
    set_state node stat_writing
    set_size node data_len
    set_forward node node
    set_backward node node
    set_newer node null
    set_older node null
    set_rb (λ r. record r { tail = node; oldest_reserve = node })
    set_counter (λ c. record c { writing = add64 c.writing 1 })
    pure (token_of node))

unfoldable pub update_time_for_new_node : Ptr → M (Unit {0})
update_time_for_new_node new_node = do
  rb ← get_rb
  set_newer new_node null
  set_older new_node rb.head
  older ← get_older new_node
  set_newer older new_node
  set_rb (λ r. record r { head = new_node })

unfoldable pub insert_new_node : Ptr → ℕ → M (Unit {0})
unfolding update_time_for_new_node
insert_new_node new_node data_len = do
  set_state new_node stat_writing
  set_size new_node data_len
  rb ← get_rb
  head_forward ← get_forward rb.head
  set_forward new_node head_forward
  set_backward new_node rb.head
  forward ← get_forward new_node
  set_backward forward new_node
  backward ← get_backward new_node
  set_forward backward new_node
  update_time_for_new_node new_node

unfoldable pub update_oldest_reserve : Ptr → M (Unit {0})
update_oldest_reserve node =
    set_rb (λ r. record r {
      oldest_reserve = if r.oldest_reserve == null then node else r.oldest_reserve;
    })

-- The three statements that follow each successful search for room.
unfoldable pub insert_at : Ptr → ℕ → M Ptr
unfolding insert_new_node update_oldest_reserve
insert_at next_possible_node data_len = do
  set_counter (λ c. record c { writing = add64 c.writing 1 })
  insert_new_node next_possible_node data_len
  update_oldest_reserve next_possible_node
  pure (token_of next_possible_node)

unfoldable pub perform_overwrite : Ptr → Ptr → Ptr → ℕ → ℕ → M Ptr
unfolding update_time_for_new_node
perform_overwrite start_point node_start node_end counter_lost_nodes data_len = do
  newer_node ← get_newer node_end
  set_rb (λ r. record r { tail = if r.tail == r.oldest_reserve then newer_node else r.tail })
  set_rb (λ r. record r { oldest_reserve = newer_node })
  let new_node = start_point
  end_forward ← get_forward node_end
  set_forward new_node end_forward
  forward ← get_forward new_node
  set_backward forward new_node
  start_backward ← get_backward node_start
  set_backward new_node start_backward
  backward ← get_backward new_node
  set_forward backward new_node
  older ← get_older node_start
  newer ← get_newer node_end
  if older == null then pure tt else set_newer older newer
  newer' ← get_newer node_end
  older' ← get_older node_start
  if newer' == null then pure tt else set_older newer' older'
  update_time_for_new_node new_node
  set_counter (λ c. record c {
    committed = sub64 c.committed counter_lost_nodes;
    writing = add64 c.writing 1;
  })
  set_size new_node data_len
  set_state new_node stat_writing
  pure (token_of new_node)

-- The loop that looks for committed nodes with enough room: the last of them, the room, and how
-- many they are. On fuel.
unfoldable pub find_overwrite_end : ℕ → Ptr → ℕ → Ptr → ℕ → M (Ptr × ℕ × ℕ)
find_overwrite_end zero start_point node_size node_end lost = λ w. none
find_overwrite_end (suc fuel) start_point node_size node_end lost = do
  end_size ← get_size node_end
  let sum_size = sub64 (node_end + node_cost end_size) start_point
  forward ← get_forward node_end
  let rest = find_overwrite_end fuel start_point node_size forward (add64 lost 1)
  if not (ltb sum_size node_size) then pure (node_end, sum_size, lost) else (do
    forward_state ← get_state forward
    newer ← get_newer node_end
    if is_committed forward_state && (forward == newer) && ltb node_end forward
        then rest
        else pure (node_end, sum_size, lost))

unfoldable pub overwrite_from : Ptr → ℕ → ℕ → M Ptr
overwrite_from oldest data_len node_size = do
  rb ← get_rb
  backward_node ← get_backward oldest
  start_point ←
      (if ltb backward_node oldest
        then (do
          backward_size ← get_size backward_node
          pure (backward_node + node_cost backward_size))
        else pure rb.cache)
  (node_end, sum_size, lost) ← find_overwrite_end (suc rb.capacity) start_point node_size oldest 1
  if ltb sum_size node_size
      then pure null
      else perform_overwrite start_point oldest node_end lost data_len

unfoldable pub try_overwrite : ℕ → ℕ → M Ptr
try_overwrite data_len node_size = do
  rb ← get_rb
  if rb.oldest_reserve == null then pure null else (do
    s ← get_state rb.oldest_reserve
    if not (is_committed s) then pure null else (do
      forward ← get_forward rb.oldest_reserve
      if forward == rb.oldest_reserve
          then if ltb rb.capacity node_size
            then pure null
            else (do reinit; reserve_empty data_len node_size)
          else overwrite_from rb.oldest_reserve data_len node_size))

-- `(flags & eaf_ringbuffer_flag_overwrite) ? … : NULL`
unfoldable pub overwrite_if_asked : ℕ → ℕ → ℕ → M Ptr
unfolding has_flag
overwrite_if_asked data_len node_size flags =
    if has_flag flags flag_overwrite then try_overwrite data_len node_size else pure null

unfoldable pub reserve_none_empty : ℕ → ℕ → ℕ → M Ptr
reserve_none_empty data_len node_size flags = do
  rb ← get_rb
  head_size ← get_size rb.head
  let next_possible_node = rb.head + node_cost head_size
  forward ← get_forward rb.head
  if ltb rb.head forward
      then if leb node_size (sub64 forward next_possible_node)
        then insert_at next_possible_node data_len
        else overwrite_if_asked data_len node_size flags
      else if leb node_size (sub64 rb.capacity (sub64 next_possible_node rb.cache))
      then insert_at next_possible_node data_len
      else if leb node_size (sub64 forward rb.cache)
      then insert_at rb.cache data_len
      else overwrite_if_asked data_len node_size flags

unfoldable pub reserve : ℕ → ℕ → M Ptr
reserve len flags = do
  let node_size = node_cost len
  rb ← get_rb
  if rb.tail == null then reserve_empty len node_size else reserve_none_empty len node_size flags
