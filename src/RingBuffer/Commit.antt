-- ===== src/RingBuffer/Commit.antt =====
-- The flags of powerpack/include/eaf/powerpack/ringbuffer.h, and eaf_ringbuffer_commit.
use Prim.Native.Nat.{bit_and}
use eaf.Prelude.{ℕ, Bool, false, not, ◌==◌, if◌then◌else◌}
use eaf.Prelude.Int.{ℤ, pos, negsuc}
use eaf.RingBuffer.{
  Ptr, null, add64, sub64, stat_committed, is_writing, is_reading, M, pure, ◌>>=◌, ◌>>◌, get_newer,
  get_older, get_state, set_state, get_rb, set_rb, set_counter, container_of, delete_node,
}

abbrev pub flag_overwrite : ℕ
flag_overwrite = 1

abbrev pub flag_discard : ℕ
flag_discard = 2

abbrev pub flag_abandon : ℕ
flag_abandon = 4

-- `flags & flag`, as a condition.
unfoldable pub has_flag : ℕ → ℕ → Bool
has_flag flags flag = not (bit_and flags flag == 0)

unfoldable pub commit_for_write_confirm : Ptr → M ℤ
commit_for_write_confirm node = do
  set_counter (λ c. record c { writing = sub64 c.writing 1; committed = add64 c.committed 1 })
  set_state node stat_committed
  pure (pos 0)

unfoldable pub commit_for_write_discard : Ptr → M ℤ
commit_for_write_discard node = do
  set_counter (λ c. record c { writing = sub64 c.writing 1 })
  delete_node node
  pure (pos 0)

unfoldable pub commit_for_write : Ptr → ℕ → M ℤ
commit_for_write node flags =
    if has_flag flags flag_discard
    then commit_for_write_discard node
    else commit_for_write_confirm node

unfoldable pub commit_for_consume_confirm : Ptr → M ℤ
commit_for_consume_confirm node = do
  set_counter (λ c. record c { reading = sub64 c.reading 1 })
  delete_node node
  pure (pos 0)

-- `node->chain_time.p_newer != NULL && node->chain_time.p_newer->state == stat_reading`
unfoldable pub newer_is_reading : Ptr → M Bool
newer_is_reading node = do
  newer ← get_newer node
  if newer == null then pure false else (do s ← get_state newer; pure (is_reading s))

-- `rb->node.oldest_reserve != NULL && rb->node.oldest_reserve->chain_time.p_older == node`
unfoldable pub is_just_older : Ptr → M Bool
is_just_older node = do
  rb ← get_rb
  if rb.oldest_reserve == null
      then pure false
      else (do older ← get_older rb.oldest_reserve; pure (older == node))

unfoldable pub commit_for_consume_discard : Ptr → ℕ → M ℤ
commit_for_consume_discard node flags = do
  busy ← newer_is_reading node
  if busy
      then if has_flag flags flag_abandon then commit_for_consume_confirm node else pure (negsuc 0)
      else (do
        set_counter (λ c. record c { reading = sub64 c.reading 1; committed = add64 c.committed 1 })
        set_state node stat_committed
        newer ← get_newer node
        if newer == null
            then (do set_rb (λ r. record r { oldest_reserve = node }); pure (pos 0))
            else (do
              just_older ← is_just_older node
              if just_older
                  then (do set_rb (λ r. record r { oldest_reserve = node }); pure (pos 0))
                  else pure (pos 0)))

unfoldable pub commit_for_consume : Ptr → ℕ → M ℤ
commit_for_consume node flags =
    if has_flag flags flag_discard
    then commit_for_consume_discard node flags
    else commit_for_consume_confirm node

unfoldable pub commit : Ptr → ℕ → M ℤ
commit token flags = do
  let node = container_of token
  s ← get_state node
  if is_writing s then commit_for_write node flags else commit_for_consume node flags
