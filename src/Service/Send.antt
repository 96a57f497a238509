-- ===== src/Service/Send.antt =====
-- Sending and resuming: `_eaf_service_push_msg`, `_eaf_send_req`, `_eaf_send_rsp`, eaf_send_req,
-- eaf_send_rsp and eaf_resume.
use eaf.Prelude.{
  ℕ, Bool, true, false, not, ◌&&◌, Option, none, some, List, [], ◌∷◌, ◌==◌, leb, if◌then◌else◌,
  length,
}
use eaf.Prelude.Int.{ℤ, is_negative}
use eaf.Errno
use eaf.Errno.{eq_int}
use eaf.Message
use eaf.Message.{Ptr, null, Msg, add_ref, dec_ref}
use eaf.Service.{CtxState, Record, Service, User}
use eaf.Service.Locked.{enqueue, resume_service}
use eaf.Service.Runtime.{
  M, pure, ◌>>=◌, ◌>>◌, context, on_memory, malloc, group, service, put_group, post, find_service,
  hook_message_send_before, hook_message_send_after, hook_service_resume,
}

-- The critical section of `_eaf_service_push_msg`, and what follows it: the semaphore is posted, or
-- the reference is given back.
unfoldable pub push_locked : ℕ → ℕ → Record → M ℤ
unfolding group service put_group post enqueue on_memory Message.dec_ref
push_locked gi si r = do
  g ← group gi
  s ← service gi si
  let pushed = enqueue g si s r
  put_group gi pushed.1
  if eq_int pushed.0 Errno.success
      then post gi >> pure Errno.success
      else on_memory (dec_ref r.msg) >> pure pushed.0

-- `_eaf_service_push_msg`; `force` is PUSH_FLAG_FORCE, and `req_fn` what `on_create` sets.
unfoldable pub push_msg : ℕ → ℕ → Ptr → ℕ → ℕ → Option Ptr → Bool → M ℤ
unfolding service malloc on_memory Message.add_ref push_locked
push_msg gi si msg from to req_fn force = do
  s ← service gi si
  if not force && leb s.capacity (length s.queue) then pure Errno.overflow else (do
    block ← malloc
    elim block [
      | none ↦ pure Errno.memory
      | some b ↦
          on_memory (add_ref msg)
          >> push_locked gi si (record { req_fn = req_fn; from = from; to = to; msg = msg })
    ])

-- The handler of a message id: the first row of the table with the id (`NULL` if there is none).
unfoldable pub find_handler : ℕ → List (ℕ × Ptr) → Ptr
find_handler id [] = null
find_handler id ((msg_id, fn) ∷ rest) = if msg_id == id then fn else find_handler id rest

abbrev pub table_of : Service → List (ℕ × Ptr)
table_of s = elim s.entry [ none ↦ [] | some e ↦ e.msg_table ]

-- `req->from = from`
unfoldable pub set_from : Ptr → ℕ → Message.M (Unit {0})
unfolding Message.load
set_from p from =
    Message.◌>>=◌ (Message.load p) (λ m. Message.store p (some (record m { from = from })))

-- `_eaf_send_req`
unfoldable pub send_req_to : ℕ → ℕ → Ptr → M ℤ
unfolding on_memory set_from find_service service find_handler push_msg Message.load
send_req_to from to req = do
  on_memory (set_from req from)
  c ← context
  elim (find_service to c) [
    | none ↦ pure Errno.notfound
    | some (gi, si) ↦ (do
      s ← service gi si
      m ← on_memory (Message.load req)
      let fn = find_handler m.id (table_of s)
      if fn == null then pure Errno.notfound else push_msg gi si req from to (some fn) false)
  ]

-- `_eaf_send_rsp`
unfoldable pub send_rsp_to : ℕ → ℕ → Ptr → M ℤ
unfolding find_service push_msg
send_rsp_to from to rsp = do
  c ← context
  elim (find_service to c) [
    | none ↦ pure Errno.notfound
    | some (gi, si) ↦ push_msg gi si rsp from to none true
  ]

abbrev pub is_running : CtxState → Bool
is_running CtxState.busy = true
is_running _ = false

module _ (u : User) where
  -- What eaf_send_req and eaf_send_rsp share: the state, the hooks, and `send` between them.
  unfoldable pub hooked : M ℤ → ℕ → ℕ → Ptr → M ℤ
  unfolding hook_message_send_before hook_message_send_after
  hooked send from to msg = do
    c ← context
    if not (is_running c.state) then pure Errno.state else (do
      before ← hook_message_send_before u from to msg
      if is_negative before
          then pure before
          else (do ret ← send; hook_message_send_after from to msg ret; pure ret))

  unfoldable pub send_req : ℕ → ℕ → Ptr → M ℤ
  unfolding hooked send_req_to
  send_req from to req = hooked (send_req_to from to req) from to req

  unfoldable pub send_rsp : ℕ → ℕ → Ptr → M ℤ
  unfolding hooked send_rsp_to
  send_rsp from to rsp = hooked (send_rsp_to from to rsp) from to rsp

-- eaf_resume
unfoldable pub resume : ℕ → M ℤ
unfolding find_service hook_service_resume group service put_group post resume_service
resume srv_id = do
  c ← context
  elim (find_service srv_id c) [
    | none ↦ pure Errno.notfound
    | some (gi, si) ↦ (do
      hook_service_resume srv_id
      g ← group gi
      s ← service gi si
      let resumed = resume_service g si s
      put_group gi resumed.1
      if eq_int resumed.0 Errno.success then post gi >> pure resumed.0 else pure resumed.0)
  ]
