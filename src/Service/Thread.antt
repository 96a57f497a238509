-- ===== src/Service/Thread.antt =====
-- The body of a group's thread, `_eaf_thread`: it initialises the services of the group, handles
-- messages, tears services down and exits them; and eaf_cleanup.
use eaf.Prelude.{
  ℕ, zero, suc, ◌+◌, Bool, true, false, not, ◌||◌, Option, none, some, List, [], ◌∷◌, ◌==◌, ltb,
  if◌then◌else◌, length,
}
use eaf.Prelude.Int.{ℤ, pos, is_negative}
use eaf.Errno
use eaf.Message
use eaf.Message.{Ptr, null, Msg, dec_ref, get_type, req, rsp, create_rsp, set_receipt}
use eaf.Service.{
  State, exit0, exit1, CtxState, Record, Service, Group, Ctx, User, on_exit, exit_after, Executor,
  eaf_itself,
}
use eaf.Service.Runtime.{
  M, pure, fault, ◌>>=◌, ◌>>◌, context, modify, or_fault, on_memory, malloc, group, service,
  put_group, put_service, has_hook, hook_service_exit_before, hook_service_exit_after,
}
use eaf.Service.Send.{send_rsp, is_running}
use eaf.Service.Life.{Global, is_init, is_teardown}
use eaf.Service.Loop.{
  set_cur_run, set_state_lock, destroy_msg_record, call_back, do_service_init, is_init1,
  thread_loop, pend,
}

abbrev pub is_exit1 : State → Bool
is_exit1 exit1 = true
is_exit1 _ = false

-- A service that neither `_eaf_group_exit` nor the start of the group has to do with.
abbrev pub exits_no_more : Service → Bool
exits_no_more s = is_exit1 s.state || elim s.entry [ none ↦ true | some e ↦ false ]

-- A message of the memory is changed in place.
unfoldable pub change_msg : Ptr → (Msg → Msg) → Message.M (Unit {0})
unfolding Message.load
change_msg p f = Message.◌>>=◌ (Message.load p) (λ m. Message.store p (some (f m)))

-- The start of `_eaf_thread`: the results are those of the platform for the id of the thread and for
-- `eaf_thread_storage_set`. `false` if the thread ends at once.
unfoldable pub thread_enter : ℕ → ℤ → ℕ → M Bool
unfolding group put_group
thread_enter tid storage_ret gi = do
  g ← group gi
  put_group gi (record g { tid = tid })
  if is_negative storage_ret then pure false else pure true

-- A round of its loop that waits for the start: `some false` when the loop has ended, `none` while
-- the thread is blocked, and `some true` where it has taken a post and looks at the state again.
unfoldable pub thread_await : ℕ → M (Option Bool)
unfolding pend
thread_await gi = do
  c ← context
  if not (is_init c.state)
      then pure (some false)
      else (do taken ← pend gi; if taken then pure (some true) else pure none)

module _ (u : User) where
  -- `_eaf_service_teardown_hanle_message_nolock`. A block of `malloc` is wanted: an `assert`.
  unfoldable pub teardown_message : ℕ → ℕ → Record → M (Unit {0})
  unfolding on_memory malloc service send_rsp destroy_msg_record change_msg Message.load
      Message.get_type Message.create_rsp Message.set_receipt Message.dec_ref
  teardown_message gi si r = do
    m ← on_memory (Message.load r.msg)
    elim (get_type m) [
      | rsp ↦ pure tt
      | req ↦ (do
        block ← malloc
        answer ← on_memory (create_rsp block (pos 0) r.msg 0)
        if answer == null then fault else (do
          on_memory (change_msg answer (λ a. set_receipt a Errno.state))
          s ← service gi si
          _ ← send_rsp u s.id r.from answer
          on_memory (dec_ref answer)))
    ]
    destroy_msg_record r

  -- The loop of `_eaf_service_teardown_cleanup_msgq`: `true` when it has ended, with the queue empty,
  -- and `false` if it has gone through all its rounds.
  unfoldable pub teardown_queue : ℕ → ℕ → ℕ → M Bool
  unfolding service put_service teardown_message
  teardown_queue zero gi si = do
    s ← service gi si
    elim s.queue [ [] ↦ pure true | r ∷ rest ↦ pure false ]
  teardown_queue (suc fuel) gi si =
      let later = teardown_queue fuel gi si in
      (do
        s ← service gi si
        elim s.queue [
          | [] ↦ pure true
          | r ∷ rest ↦ (do
            put_service gi si (record s { queue = rest })
            teardown_message gi si r
            later)
        ])

  -- `_eaf_service_teardown_cleanup_msgq`
  unfoldable pub teardown_cleanup_msgq : ℕ → ℕ → M (Unit {0})
  unfolding service put_service teardown_message teardown_queue
  teardown_cleanup_msgq gi si = do
    s ← service gi si
    elim s.cur_msg [
      | none ↦ pure tt
      | some r ↦ (do
        teardown_message gi si r
        s' ← service gi si
        put_service gi si (record s' { cur_msg = none }))
    ]
    s'' ← service gi si
    ended ← teardown_queue (length s''.queue) gi si
    if ended then pure tt else fault

  -- The loop of `_eaf_service_teardown`, for `n` services from place `i` on.
  unfoldable pub teardown_services : ℕ → ℕ → ℕ → M (Unit {0})
  unfolding service set_state_lock call_back teardown_cleanup_msgq
  teardown_services zero i gi = pure tt
  teardown_services (suc n) i gi = do
    s ← service gi i
    (if s.alive then pure tt else elim s.entry [
      | none ↦ pure tt
      | some entry ↦ (do
        set_state_lock gi i exit0
        call_back u gi (on_exit entry.on_exit)
        teardown_cleanup_msgq gi i
        set_state_lock gi i exit1)
    ])
    teardown_services n (suc i) gi

  -- `_eaf_service_teardown`
  unfoldable pub service_teardown : ℕ → M (Unit {0})
  unfolding group teardown_services
  service_teardown gi = do g ← group gi; teardown_services (length g.table) 0 gi

  -- The loop of `_eaf_group_exit`: place `n - 1` down to 0.
  unfoldable pub exit_services : ℕ → ℕ → M (Unit {0})
  unfolding service set_cur_run set_state_lock call_back hook_service_exit_before
      hook_service_exit_after
  exit_services zero gi = pure tt
  exit_services (suc i) gi = do
    s ← service gi i
    (if exits_no_more s then pure tt else (do
      entry ← or_fault s.entry
      set_cur_run gi i
      set_state_lock gi i exit0
      hook_service_exit_before s.id
      call_back u gi (on_exit entry.on_exit)
      hook_service_exit_after s.id
      set_state_lock gi i exit1))
    exit_services i gi

  -- `_eaf_group_exit` with `max_idx`.
  unfoldable pub group_exit : ℕ → ℕ → M (Unit {0})
  unfolding group exit_services
  group_exit gi max_idx = do
    g ← group gi
    exit_services (if ltb (length g.table) max_idx then length g.table else max_idx) gi

  -- The loop of `_eaf_group_init_necessary`, for `n` services from place `i` on.
  unfoldable pub init_from : ℕ → ℕ → ℕ → ℕ → M ℕ
  unfolding service set_cur_run do_service_init
  init_from zero i gi counter = pure counter
  init_from (suc n) i gi counter =
      let later = init_from n (suc i) gi counter in
      let later' = init_from n (suc i) gi (counter + 1) in
      (do
        set_cur_run gi i
        s ← service gi i
        if not (is_init1 s.state) then later else (do do_service_init u gi i; later'))

  -- `_eaf_group_init_necessary`: how many services were initialised.
  unfoldable pub group_init_necessary : ℕ → M ℕ
  unfolding group init_from
  group_init_necessary gi = do g ← group gi; init_from (length g.table) 0 gi 0

  -- `_eaf_thread` from its start to its event loop, once the context has left the state `init`: `true` if the
  -- thread goes on, which it does not if no service was initialised.
  unfoldable pub thread_start : ℕ → M Bool
  unfolding group_init_necessary
  thread_start gi = do
    c ← context
    if not (is_running c.state) then pure false else (do
      count ← group_init_necessary gi
      modify (λ c'. record c' { ready = c'.ready + 1 })
      pure (ltb 0 count))

  -- The loops of `_eaf_thread` while the context is in a state of `test`: at most `fuel` rounds;
  -- `true` when the loop has ended, `false` while the thread waits or has rounds left.
  unfoldable pub loop_while : ℕ → (CtxState → Bool) → ℕ → M Bool
  unfolding thread_loop
  loop_while zero test gi = pure false
  loop_while (suc fuel) test gi =
      let later = loop_while fuel test gi in
      (do
        c ← context
        if not (test c.state)
            then pure true
            else (do again ← thread_loop u gi; if again then later else pure false))

  -- `_eaf_thread` from its event loop on.
  unfoldable pub thread_events : ℕ → ℕ → M Bool
  unfolding loop_while service_teardown group_exit
  thread_events fuel gi = do
    ended ← loop_while fuel is_running gi
    if not ended then pure false else (do
      c ← context
      (if is_teardown c.state then service_teardown gi else pure tt)
      ended' ← loop_while fuel is_teardown gi
      if not ended'
          then pure false
          else (do g ← group gi; group_exit gi (length g.table); pure true))

-- The records of a list are destroyed in order.
unfoldable pub destroy_records : List Record → M (Unit {0})
unfolding destroy_msg_record
destroy_records [] = pure tt
destroy_records (r ∷ rest) = destroy_msg_record r >> destroy_records rest

-- `_eaf_cleanup_msgq`, on the service itself.
unfoldable pub cleanup_msgq : Service → M (Unit {0})
unfolding destroy_records destroy_msg_record
cleanup_msgq s = do
  destroy_records s.queue
  elim s.cur_msg [ none ↦ pure tt | some r ↦ destroy_msg_record r ]

unfoldable pub cleanup_services : List Service → M (Unit {0})
unfolding cleanup_msgq
cleanup_services [] = pure tt
cleanup_services (s ∷ rest) = cleanup_msgq s >> cleanup_services rest

unfoldable pub cleanup_groups : List Group → M (Unit {0})
unfolding cleanup_services
cleanup_groups [] = pure tt
cleanup_groups (g ∷ rest) = cleanup_services g.table >> cleanup_groups rest

-- What eaf_cleanup gives back: its result, the summary, and the messages that are left.
pub record Cleaned : Type 0 where
  pub ret : ℤ
  pub executor : Executor
  pub reason : ℤ
  pub ctx : Global
  pub left : Option Ctx

-- eaf_cleanup, once the threads have ended. `left` is the last state of the freed context.
unfoldable pub cleanup : Global → Option Cleaned
unfolding cleanup_groups
cleanup none =
    some
      (record { ret = Errno.state; executor = eaf_itself; reason = pos 0; ctx = none; left = none })
cleanup (some c) = elim (cleanup_groups c.groups c) [
  | none ↦ none
  | some (_, c') ↦ some (record {
    ret = Errno.success;
    executor = c'.executor;
    reason = c'.reason;
    ctx = none;
    left = some (
        if has_hook (λ k. k.on_exit_after) c'
        then record c' { calls = exit_after ∷ c'.calls }
        else c');
  })
]
