-- ===== src/Service/Loop.antt =====
-- The work of a group's thread: what a callback does, `_eaf_service_resume_message`,
-- `_eaf_do_service_init`, `_eaf_handle_new_message` and `_eaf_service_thread_loop`.
use eaf.Prelude.{
  ℕ, ◌-◌, Bool, true, false, not, Option, none, some, List, [], ◌∷◌, ◌==◌, ltb, if◌then◌else◌,
}
use eaf.Prelude.Int.{is_negative}
use Prim.Native.Nat.{bit_and}
use eaf.Message
use eaf.Message.{Ptr, null, dec_ref, get_type, get_rsp_fn, req, rsp}
use eaf.Service.{
  State, init1, busy, yield, Record, Group, User, Call, on_init, handler, yield_hook, Action,
  yields, exits, tears_down,
}
use eaf.Service.Locked.{set_state_of, finish_service_init, pop_message}
use eaf.Service.Runtime.{
  M, pure, fault, ◌>>=◌, ◌>>◌, context, or_fault, on_memory, group, service, put_group, put_service,
  record_call, hook_message_handle_before, hook_message_handle_after, hook_service_yield,
  hook_service_init_before, hook_service_init_after,
}
use eaf.Service.Send
use eaf.Service.Life.{exit, teardown}

-- EAF_SERVICE_CC0_YIELD
abbrev pub cc0_yield : ℕ
cc0_yield = 1

-- `_eaf_group_check_cc0`
abbrev pub check_cc0 : Group → ℕ → Bool
check_cc0 g mask = ltb 0 (bit_and g.cc0 mask)

unfoldable pub clear_cc0 : ℕ → M (Unit {0})
unfolding group put_group
clear_cc0 gi = do g ← group gi; put_group gi (record g { cc0 = 0 })

unfoldable pub set_cur_run : ℕ → ℕ → M (Unit {0})
unfolding group put_group
set_cur_run gi si = do g ← group gi; put_group gi (record g { cur_run = some si })

-- `_eaf_service_set_state_lock`
unfoldable pub set_state_lock : ℕ → ℕ → State → M (Unit {0})
unfolding group service put_group set_state_of
set_state_lock gi si state = do
  g ← group gi
  s ← service gi si
  put_group gi (set_state_of g si s state)

-- EAF_COROUTINE_YIELD, in the running service of the group: the macro sets the branch, the control
-- bit and the yield hook.
unfoldable pub coroutine_yield : ℕ → ℕ → Ptr → Ptr → M (Unit {0})
unfolding group service put_group put_service
coroutine_yield gi branch fn arg = do
  g ← group gi
  si ← or_fault g.cur_run
  s ← service gi si
  put_service gi si (record s { branch = branch })
  g' ← group gi
  put_group gi (record g' { cc0 = cc0_yield; yield_hook = fn; yield_arg = arg })

-- `_eaf_service_destroy_msg_record`
unfoldable pub destroy_msg_record : Record → M (Unit {0})
unfolding on_memory Message.dec_ref
destroy_msg_record r = on_memory (dec_ref r.msg)

-- `_eaf_service_reset`
unfoldable pub reset : ℕ → ℕ → M (Unit {0})
unfolding service put_service destroy_msg_record
reset gi si = do
  s ← service gi si
  put_service gi si (record s { branch = 0 })
  r ← or_fault s.cur_msg
  destroy_msg_record r
  s' ← service gi si
  put_service gi si (record s' { cur_msg = none })

abbrev pub is_init1 : State → Bool
is_init1 init1 = true
is_init1 _ = false

abbrev pub is_busy : State → Bool
is_busy busy = true
is_busy _ = false

-- `_eaf_get_first_busy_service_lock`
abbrev pub first_busy : Group → Option ℕ
first_busy g = elim g.busy_list [ [] ↦ none | si ∷ rest ↦ some si ]

-- `eaf_compat_sem_pend` on the semaphore of a group, without end: `false` while the thread is blocked
-- in it.
unfoldable pub pend : ℕ → M Bool
unfolding group put_group
pend gi = do
  g ← group gi
  if g.sem == 0 then pure false else (put_group gi (record g { sem = g.sem - 1 }) >> pure true)

module _ (u : User) where
  -- A call of the API by the running service of group `gi`; its result is the caller's.
  unfoldable pub api : ℕ → Action → M (Unit {0})
  unfolding Send.send_req Send.send_rsp Send.resume coroutine_yield exit teardown
  api gi (Action.send_req from to msg) = do _ ← Send.send_req u from to msg; pure tt
  api gi (Action.send_rsp from to msg) = do _ ← Send.send_rsp u from to msg; pure tt
  api gi (Action.resume id) = do _ ← Send.resume id; pure tt
  api gi (yields branch fn arg) = coroutine_yield gi branch fn arg
  api gi (exits reason) = do _ ← exit reason; pure tt
  api gi tears_down = do _ ← teardown; pure tt

  -- What a callback of group `gi` does: its calls of the API, in order.
  unfoldable pub perform : ℕ → List Action → M (Unit {0})
  unfolding api
  perform gi [] = pure tt
  perform gi (a ∷ as') = api gi a >> perform gi as'

  unfoldable pub call_back : ℕ → Call → M (Unit {0})
  unfolding perform record_call
  call_back gi call = do c ← context; record_call call; perform gi (u.acts call c)

  -- `_eaf_group_call_yield_hook`
  unfoldable pub call_yield_hook : ℕ → M (Unit {0})
  unfolding group service call_back
  call_yield_hook gi = do
    g ← group gi
    if g.yield_hook == null then pure tt else (do
      si ← or_fault g.cur_run
      s ← service gi si
      call_back gi (yield_hook g.yield_hook s.id g.yield_arg))

  -- The handler of a request, or that of a response if it has one.
  unfoldable pub call_handler : ℕ → Record → M (Unit {0})
  unfolding on_memory Message.load call_back Message.get_type Message.get_rsp_fn
  call_handler gi r = do
    m ← on_memory (Message.load r.msg)
    elim (get_type m) [
      | req ↦ (do fn ← or_fault r.req_fn; call_back gi (handler fn r.from r.to r.msg))
      | rsp ↦
          let fn = get_rsp_fn m in
          if fn == null then pure tt else call_back gi (handler fn r.from r.to r.msg)
    ]

  unfoldable pub resume_message : ℕ → ℕ → M (Unit {0})
  unfolding service group call_handler set_state_lock call_yield_hook hook_service_yield
      hook_message_handle_after reset
  resume_message gi si = do
    s ← service gi si
    r ← or_fault s.cur_msg
    call_handler gi r
    g ← group gi
    if check_cc0 g cc0_yield
        then (do set_state_lock gi si yield; call_yield_hook gi; hook_service_yield s.id)
        else (do hook_message_handle_after r.from r.to r.msg; reset gi si)

  -- `yield can not be called during init stage`: an `assert`.
  unfoldable pub do_service_init : ℕ → ℕ → M (Unit {0})
  unfolding clear_cc0 service group put_group put_service hook_service_init_before
      hook_service_init_after call_back finish_service_init
  do_service_init gi si = do
    clear_cc0 gi
    s ← service gi si
    hook_service_init_before s.id
    entry ← or_fault s.entry
    call_back gi (on_init entry.on_init)
    g ← group gi
    if check_cc0 g cc0_yield then fault else (do
      s' ← service gi si
      put_service gi si (record s' { branch = 0 })
      hook_service_init_after s.id
      g' ← group gi
      s'' ← service gi si
      put_group gi (finish_service_init g' si s''))

  -- The next message of the queue, handled unless the hook refuses it.
  unfoldable pub start_message : ℕ → ℕ → M (Unit {0})
  unfolding group service put_group pop_message hook_message_handle_before reset resume_message
  start_message gi si = do
    g ← group gi
    s ← service gi si
    put_group gi (pop_message g si s)
    s' ← service gi si
    elim s'.cur_msg [
      | none ↦ pure tt
      | some r ↦ (do
        ret ← hook_message_handle_before u r.from r.to r.msg
        if is_negative ret then reset gi si else resume_message gi si)
    ]

  unfoldable pub handle_new_message : ℕ → ℕ → M (Unit {0})
  unfolding service do_service_init start_message resume_message
  handle_new_message gi si = do
    s ← service gi si
    (if is_init1 s.state then do_service_init gi si else pure tt)
    s' ← service gi si
    if not (is_busy s'.state)
        then fault
        else elim s'.cur_msg [ some r ↦ resume_message gi si | none ↦ start_message gi si ]

  -- `_eaf_service_thread_loop`; `false` if the thread stays in `eaf_compat_sem_pend`, since it has
  -- found no busy service and the semaphore is 0.
  unfoldable pub thread_loop : ℕ → M Bool
  unfolding group put_group pend set_cur_run clear_cc0 handle_new_message
  thread_loop gi = do
    g ← group gi
    elim (first_busy g) [
      | none ↦ pend gi
      | some si ↦ (do
        put_group gi (record g { sem = g.sem - 1 })
        set_cur_run gi si
        clear_cc0 gi
        handle_new_message gi si
        pure true)
    ]
