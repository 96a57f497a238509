-- ===== src/Service/Life.antt =====
-- The life of the context: eaf_init, eaf_load, eaf_teardown, eaf_exit and eaf_cleanup. The results of
-- `calloc` and of the platform's locks, semaphores and threads are arguments.
use eaf.Prelude.{
  ℕ, zero, suc, ◌+◌, ◌-◌, ◌/◌, ◌%◌, Bool, true, false, not, ◌&&◌, ◌||◌, Option, none, some, List,
  [], ◌∷◌, ltb, if◌then◌else◌, get_elem?, map, length,
}
use eaf.Prelude.Int.{ℤ, pos, is_negative}
use eaf.Errno
use eaf.Message.{Memory, Block}
use eaf.Sequence.{push_back}
use eaf.Service.{
  State, init0, init1, init2, exit1, CtxState, Service, Group, Ctx, Executor, eaf_itself, user,
}
use eaf.Service.Locked.{set_state_of}
use eaf.Service.Runtime.{
  M, pure, ◌>>=◌, ◌>>◌, context, modify, hook_cleanup_before, hook_load_before, hook_load_after,
}

-- `eaf_service_table_t`
pub record ServiceInfo : Type 0 where
  pub srv_id : ℕ
  pub msgq_size : ℕ
  pub attribute : ℕ

-- What the platform answers for a group: `lock_init`, `sem_init` and `thread_init`.
pub record GroupPlatform : Type 0 where
  pub lock : ℤ
  pub sem : ℤ
  pub thread : ℤ

-- Attribute bits: alive is bit 0, lazyload bit 1.
abbrev pub has_bit : ℕ → ℕ → Bool
has_bit n d = ltb 0 (n / d % 2)

-- `_eaf_init_service`
unfoldable pub init_service : ServiceInfo → Service
init_service info = record {
  entry = none;
  alive = has_bit info.attribute 1;
  lazyload = has_bit info.attribute 2;
  id = info.srv_id;
  branch = 0;
  state = init0;
  cur_msg = none;
  queue = [];
  capacity = info.msgq_size;
}

-- Its loop in `_eaf_init_group`: the services are entered, and put on the wait list in order.
unfoldable pub init_services : List ServiceInfo → Group → Group
unfolding init_service
init_services [] g = g
init_services (info ∷ rest) g = init_services rest (record g {
  wait_list = push_back g.wait_list (length g.table);
  table = push_back g.table (init_service info);
})

abbrev pub empty_group : Group
empty_group = record {
  cc0 = 0;
  tid = 0;
  yield_hook = 0;
  yield_arg = 0;
  cur_run = none;
  busy_list = [];
  wait_list = [];
  sem = 0;
  table = [];
}

abbrev pub platform_ok : GroupPlatform → Bool
platform_ok p = not (is_negative p.lock) && (not (is_negative p.sem) && not (is_negative p.thread))

-- `_eaf_init_group`; `none` for -1, after which no group is left.
unfoldable pub init_group : List (List ServiceInfo × GroupPlatform) → Option (List Group)
unfolding init_services
init_group [] = some []
init_group ((info, platform) ∷ rest) =
    let later = init_group rest in
    if not (platform_ok platform)
    then none
    else elim later [ none ↦ none | some gs ↦ some (init_services info empty_group ∷ gs) ]

-- `g_eaf_ctx`
abbrev pub Global : Type 0
Global = Option Ctx

-- The parts of the platform that eaf_init asks: `calloc`, the `ready` semaphore and the thread storage.
pub record Platform : Type 0 where
  pub calloc : Bool
  pub ready : ℤ
  pub tls : ℤ
  pub groups : List (List ServiceInfo × GroupPlatform)

abbrev pub fresh_ctx : List Group → Memory → List Block → Ctx
fresh_ctx gs memory blocks = record {
  state = CtxState.init;
  ready = 0;
  executor = eaf_itself;
  reason = pos 0;
  failure = false;
  groups = gs;
  hook = none;
  memory = memory;
  blocks = blocks;
  calls = [];
}

-- eaf_init. `memory` and `blocks` are the program's memory of messages.
unfoldable pub init : Platform → Memory → List Block → Global → ℤ × Global
unfolding init_group
init p memory blocks (some c) = (Errno.duplicate, some c)
init p memory blocks none =
    if not p.calloc
    then (Errno.memory, none)
    else if is_negative p.ready || is_negative p.tls
    then (Errno.unknown, none)
    else elim (init_group p.groups) [
      | none ↦ (Errno.unknown, none)
      | some gs ↦ (Errno.success, some (fresh_ctx gs memory blocks))
    ]

-- What `_eaf_load_fix_state` makes of a service.
abbrev pub loaded : Service → State
loaded s = elim s.entry [ none ↦ exit1 | some e ↦ if s.lazyload then init2 else init1 ]

-- The inner loop of `_eaf_load_fix_state`, for `n` services from place `j` on.
unfoldable pub fix_services : ℕ → ℕ → Group → Group
unfolding set_state_of
fix_services zero j g = g
fix_services (suc n) j g =
    fix_services n (suc j)
      (elim (get_elem? g.table j) [ none ↦ g | some s ↦ set_state_of g j s (loaded s) ])

unfoldable pub fix_group : Group → Group
unfolding fix_services
fix_group g = fix_services (length g.table) 0 g

abbrev pub post_group : Group → Group
post_group g = record g { sem = g.sem + 1 }

abbrev pub is_init : CtxState → Bool
is_init CtxState.init = true
is_init _ = false

abbrev pub is_teardown : CtxState → Bool
is_teardown CtxState.teardown = true
is_teardown _ = false

abbrev pub is_exit : CtxState → Bool
is_exit CtxState.exit = true
is_exit _ = false

-- eaf_load up to the wait for the threads.
unfoldable pub load_start : M ℤ
unfolding hook_load_before fix_group
load_start = do
  c ← context
  if not (is_init c.state) then pure Errno.state else (do
    hook_load_before
    modify (λ c'. record c' {
      state = CtxState.busy;
      groups = map post_group (map fix_group c'.groups);
    })
    pure Errno.success)

-- The rest of eaf_load: one pend on `ready` for each group. `none` while it has to wait.
unfoldable pub load_finish : M (Option ℤ)
unfolding hook_load_after
load_finish = do
  c ← context
  if ltb c.ready (length c.groups) then pure none else (do
    modify (λ c'. record c' { ready = c'.ready - length c'.groups })
    let ret = if c.failure then Errno.state else Errno.success
    hook_load_after ret
    pure (some ret))

-- `_eaf_exit`
unfoldable pub exit_with : Executor → ℤ → Bool → M ℤ
unfolding hook_cleanup_before
exit_with executor reason teardown = do
  c ← context
  (if not (is_teardown c.state) && not (is_exit c.state) then hook_cleanup_before else pure tt)
  (if not teardown
      then modify (λ c'. record c' { executor = executor; reason = reason })
      else pure tt)
  modify (λ c'. record c' {
    state = if teardown then CtxState.teardown else CtxState.exit;
    groups = map post_group c'.groups;
  })
  pure Errno.success

-- eaf_teardown and eaf_exit, where there is a context.
unfoldable pub teardown : M ℤ
unfolding exit_with
teardown = do
  c ← context
  if is_teardown c.state then pure Errno.state else exit_with user (pos 0) true

unfoldable pub exit : ℤ → M ℤ
unfolding exit_with
exit reason = do
  c ← context
  if is_exit c.state then pure Errno.state else exit_with user reason false

-- A function of the API that fails with `eaf_errno_state` where there is no context.
unfoldable pub with_ctx : M ℤ → Global → Option (ℤ × Global)
with_ctx m none = some (Errno.state, none)
with_ctx m (some c) = elim (m c) [ none ↦ none | some (ret, c') ↦ some (ret, some c') ]
