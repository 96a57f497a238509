-- ===== src/Service.antt =====
-- The data of src/core/service.c, src/core/service.h and include/eaf/core/service.h: services in
-- groups, the context, and the callbacks that the runtime makes.
-- A service is named by its place in its group's table, which stands for the address of the service
-- and of its list node. Code that the runtime calls by pointer is a `Call`.
pub mod Locked
pub mod Runtime
pub mod Keeps
pub mod Send
pub mod Life
pub mod Register
pub mod Loop
pub mod Stable
pub mod Invariant
pub mod Work
pub mod Boot
pub mod Ending
pub mod Other
pub mod Wakeup
pub mod Blocked
pub mod Find
pub mod Delivery
pub mod Registered
pub mod Tests
pub mod ApiTests
pub mod Thread
pub mod Iter
pub mod Walk
pub mod Shutdown
pub mod Drain
pub mod Resumed
use eaf.Prelude.{ℕ, Bool, true, false, Option, none, some, List, [], ◌∷◌}
use eaf.Prelude.Int.{ℤ}
use eaf.Message.{Ptr, Memory, Block}

-- `eaf_service_state_t`
pub data State : Type 0 where
  init0 init1 init2 idle busy yield exit0 exit1 : State

-- `eaf_ctx_state_t`
pub data CtxState : Type 0 where
  init busy teardown exit : CtxState

-- `eaf_entrypoint_t`: the request table (message id and handler), and the two callbacks.
-- A function pointer is a number, 0 for `NULL`.
pub record Entry : Type 0 where
  pub msg_table : List (ℕ × Ptr)
  pub on_init : Ptr
  pub on_exit : Ptr

-- `eaf_msgq_record_t`; `req_fn` is set for requests only.
pub record Record : Type 0 where
  pub req_fn : Option Ptr
  pub from : ℕ
  pub to : ℕ
  pub msg : Ptr

-- `eaf_service_t`
pub record Service : Type 0 where
  pub entry : Option Entry
  pub alive : Bool
  pub lazyload : Bool
  pub id : ℕ
  pub branch : ℕ
  pub state : State
  pub cur_msg : Option Record
  pub queue : List Record
  pub capacity : ℕ

-- `eaf_group_t`; `cc0` is `cc[0]`, a semaphore is its count.
pub record Group : Type 0 where
  pub cc0 : ℕ
  pub tid : ℕ
  pub yield_hook : Ptr
  pub yield_arg : Ptr
  pub cur_run : Option ℕ
  pub busy_list : List ℕ
  pub wait_list : List ℕ
  pub sem : ℕ
  pub table : List Service

-- Who asked for the exit: `eaf_exit_executor_t`.
pub data Executor : Type 0 where
  eaf_itself user : Executor

-- What the runtime calls: the callbacks of a service, and the members of `eaf_hook_t`.
pub data Call : Type 0 where
  on_init on_exit : Ptr → Call
  handler : Ptr → ℕ → ℕ → Ptr → Call
  yield_hook : Ptr → ℕ → Ptr → Call
  service_init_before service_init_after service_exit_before service_exit_after : ℕ → Call
  service_yield service_resume service_register : ℕ → Call
  message_send_before : ℕ → ℕ → Ptr → Call
  message_send_after : ℕ → ℕ → Ptr → ℤ → Call
  message_handle_before message_handle_after : ℕ → ℕ → Ptr → Call
  load_before exit_before exit_after : Call
  load_after : ℤ → Call

-- `eaf_hook_t`: which members are not `NULL`.
pub record Hook : Type 0 where
  pub address : Ptr
  pub on_service_init_before : Bool
  pub on_service_init_after : Bool
  pub on_service_exit_before : Bool
  pub on_service_exit_after : Bool
  pub on_service_yield : Bool
  pub on_service_resume : Bool
  pub on_service_register : Bool
  pub on_message_send_before : Bool
  pub on_message_send_after : Bool
  pub on_message_handle_before : Bool
  pub on_message_handle_after : Bool
  pub on_load_before : Bool
  pub on_load_after : Bool
  pub on_exit_before : Bool
  pub on_exit_after : Bool

-- `eaf_ctx_t`, with the memory of messages, the blocks that the next calls of `malloc` give, and the
-- calls made so far, the latest first.
pub record Ctx : Type 0 where
  pub state : CtxState
  pub ready : ℕ
  pub executor : Executor
  pub reason : ℤ
  pub failure : Bool
  pub groups : List Group
  pub hook : Option Hook
  pub memory : Memory
  pub blocks : List Block
  pub calls : List Call

-- The code that the runtime is linked with: what a callback does, as calls of the API, and what a
-- hook with a result answers. That hooks do
-- not call the API is an assumption of the model, not of the documentation.
pub data Action : Type 0 where
  send_req send_rsp : ℕ → ℕ → Ptr → Action
  resume : ℕ → Action
  yields : ℕ → Ptr → Ptr → Action
  exits : ℤ → Action
  tears_down : Action

pub record User : Type 0 where
  pub acts : Call → Ctx → List Action
  pub answers : Call → Ctx → ℤ
