-- ===== src/Service/Tests.antt =====
-- A program of one group with one service: it is initialised, registered and loaded, its thread starts
-- and sleeps.
use eaf.Prelude.{
  ℕ, zero, suc, ◌≡◌, refl, sym, ◌∙◌, subst, arith, get_elem?, true, false, Option, none, some, List,
  [], ◌∷◌, ◌⊎◌,
}
use eaf.Prelude.Int.{ℤ, pos}
use eaf.Errno
use eaf.Message.{Memory, Msg, update}
use eaf.Service.{
  State, idle, yield, exit1, init0, init1, Service, Group, Entry, Ctx, CtxState, User, Call,
  on_init,
}
use eaf.Service.Locked
use eaf.Service.Life.{Platform, init, load_start, fresh_ctx}
use eaf.Service.Register.{register}
use eaf.Service.Boot.{inits, registers, IsRegistered-IsNew, load_start-IsSound}
use eaf.Service.Thread.{thread_start, thread_await}
use eaf.Service.Loop.{thread_loop, pend}
use eaf.Service.Wakeup.{Reaches, loads, starts, loops, Reaches-IsSound}
use eaf.Service.Blocked.{looks, resumes, no_lost_wakeup}
use eaf.Service.Keeps.{Everywhere, At}
use eaf.Service.Invariant.{IsSound}
use eaf.Service.Runtime.{find_service}
use eaf.Service.Send.{push_msg, resume}
use eaf.Service.Locked.{resume_service}
use eaf.Service.Delivery.{IsPushed, push_msg_lem}
use eaf.Service.Find.{UniqueIds, find_service_lem}
use eaf.Service.Registered.{IsEntered, register_lem}

-- Callbacks that do nothing.
abbrev pub quiet : User
quiet = record { acts = λ call c. []; answers = λ call c. pos 0 }

abbrev no_memory : Memory
no_memory p = none

abbrev platform : Platform
platform = record {
  calloc = true;
  ready = pos 0;
  tls = pos 0;
  groups =
      (
        record { srv_id = 5; msgq_size = 2; attribute = 0 } ∷ [],
        record { lock = pos 0; sem = pos 0; thread = pos 0 },
      )
      ∷ [];
}

abbrev pub entry : Entry
entry = record { msg_table = (7, 100) ∷ []; on_init = 1; on_exit = 2 }

abbrev pub service_with : Option Entry → State → Service
service_with e state = record {
  entry = e;
  alive = false;
  lazyload = false;
  id = 5;
  branch = 0;
  state = state;
  cur_msg = none;
  queue = [];
  capacity = 2;
}

abbrev pub group_of : List ℕ → List ℕ → ℕ → Option ℕ → Service → Group
group_of busy_list wait_list sem cur_run s = record {
  cc0 = 0;
  tid = 0;
  yield_hook = 0;
  yield_arg = 0;
  cur_run = cur_run;
  busy_list = busy_list;
  wait_list = wait_list;
  sem = sem;
  table = s ∷ [];
}

abbrev initialised : Ctx
initialised = fresh_ctx (group_of [] (0 ∷ []) 0 none (service_with none init0) ∷ []) no_memory []

abbrev registered : Ctx
registered =
    fresh_ctx (group_of [] (0 ∷ []) 0 none (service_with (some entry) init0) ∷ []) no_memory []

abbrev pub running : Group → ℕ → List Call → Ctx
running g ready calls = record registered {
  state = CtxState.busy;
  groups = g ∷ [];
  ready = ready;
  calls = calls;
}

abbrev loaded : Ctx
loaded = running (group_of (0 ∷ []) [] 1 none (service_with (some entry) init1)) 0 []

abbrev started : Ctx
started =
    running (group_of [] (0 ∷ []) 1 (some 0) (service_with (some entry) idle)) 1 (on_init 1 ∷ [])

abbrev pub asleep : Ctx
asleep =
    running (group_of [] (0 ∷ []) 0 (some 0) (service_with (some entry) idle)) 1 (on_init 1 ∷ [])

inits_test : init platform no_memory [] none ≡ (Errno.success, some initialised)
unfolding init
inits_test = refl

registers_test : register quiet 5 entry initialised ≡ some (Errno.success, registered)
unfolding register
registers_test = refl

loads_test : load_start registered ≡ some (Errno.success, loaded)
unfolding load_start
loads_test = refl

starts_test : thread_start quiet 0 loaded ≡ some (true, started)
unfolding thread_start Locked.set_state_of
starts_test = refl

pends_test : thread_loop quiet 0 started ≡ some (true, asleep)
unfolding thread_loop pend
pends_test = refl

sleeps_test : thread_loop quiet 0 asleep ≡ some (false, asleep)
unfolding thread_loop pend
sleeps_test = refl

blocks_test : pend 0 asleep ≡ some (false, asleep)
unfolding pend
blocks_test = refl

-- The loop that waits for the start ends once the program is loaded, and blocks before.
awaits_test : thread_await 0 loaded ≡ some (some false, loaded)
unfolding thread_await
awaits_test = refl

blocked_at_start_test : thread_await 0 registered ≡ some (none, registered)
unfolding thread_await pend
blocked_at_start_test = refl

-- Another thread resumes the service, which does not yield.
resumes_test : resume 5 asleep ≡ some (Errno.state, asleep)
unfolding resume resume_service
resumes_test = refl

Reaches-asleep : Reaches quiet asleep
Reaches-asleep =
    loops started asleep 0 true
      (starts loaded started 0 true
        (loads registered loaded
          (registers initialised registered 5 entry Errno.success
            (inits platform no_memory [] initialised inits_test) registers_test)
          loads_test)
        starts_test)
      pends_test

Reaches-IsSound_example : Everywhere IsSound asleep
Reaches-IsSound_example = Reaches-IsSound quiet asleep Reaches-asleep

no_lost_wakeup_example :
    (((service_with (some entry) idle).queue ≡ [])
      × ((service_with (some entry) idle).cur_msg ≡ none))
    ⊎ ((idle ≡ yield) ⊎ (idle ≡ exit1))
no_lost_wakeup_example =
    no_lost_wakeup quiet asleep asleep 0 0
      (group_of [] (0 ∷ []) 0 (some 0) (service_with (some entry) idle))
      (service_with (some entry) idle)
      (resumes asleep asleep 5 Errno.state
        (looks asleep (group_of [] (0 ∷ []) 0 (some 0) (service_with (some entry) idle))
          Reaches-asleep refl refl)
        resumes_test)
      blocks_test refl refl

load_start-IsSound_example : Everywhere IsSound loaded
load_start-IsSound_example =
    load_start-IsSound registered loaded
      (IsRegistered-IsNew quiet registered (
        registers initialised registered 5 entry Errno.success
          (inits platform no_memory [] initialised inits_test) registers_test))
      loads_test

-- A message waits at address 40, and one block is left.
abbrev sample : Msg
sample = record { id = 7; from = 9; encs = 0x8000; uuid = 40; orig = 0; refcnt = 1; size = 0 }

abbrev sending : Ctx
sending = record asleep {
  memory = update no_memory 40 (some sample);
  blocks = some (60, sample) ∷ [];
}

abbrev sleepy : Group
sleepy = group_of [] (0 ∷ []) 0 (some 0) (service_with (some entry) idle)

push_msg_lem_example :
    (ret : ℤ) × (c' : Ctx) × (push_msg 0 0 40 9 5 (some 100) false sending ≡ some (ret, c'))
    × ((ret ≡ Errno.success)
        × IsPushed sending 0 0 sleepy
            (service_with (some entry) idle)
            (record { req_fn = some 100; from = 9; to = 5; msg = 40 })
            sample
            c')
push_msg_lem_example =
    push_msg_lem sending 0 0 (service_with (some entry) idle) sleepy 40 9 5 (some 100) false sample
      refl refl refl (omega arith) (omega arith)

only : {A : Type 0} (x y : A) (i : ℕ) → get_elem? (x ∷ []) i ≡ some y → (i ≡ 0) × (x ≡ y)
only x y zero e = (refl, cc)
only x y (suc i) e = cc

At-zero : (gi si : ℕ) (s : Service) → At initialised gi si s → (gi ≡ 0) × (si ≡ 0)
At-zero gi si s (g, at, at') =
    let (gq, g_is) = only (group_of [] (0 ∷ []) 0 none (service_with none init0)) g gi at in
    let at2 : get_elem? (service_with none init0 ∷ []) si ≡ some s =
      subst (λ x. get_elem? x.table si ≡ some s) (sym g_is) at' in
    (gq, (only (service_with none init0) s si at2).0)

unique : UniqueIds initialised
unfolding UniqueIds
unique gi si gj sj s t at bt e =
    let (gq, sq) = At-zero gi si s at in
    let (hq, tq) = At-zero gj sj t bt in (gq ∙ sym hq, sq ∙ sym tq)

register_lem_example : IsEntered 5 entry initialised registered
register_lem_example = register_lem quiet 5 entry initialised registered unique registers_test

find_service_lem_example :
    ((gi si : ℕ)
      → find_service 5 registered ≡ some (gi, si)
      → (s : Service) × (e : Entry) × At registered gi si s × (s.id ≡ 5) × (s.entry ≡ some e))
    × (UniqueIds registered
        → (gi si : ℕ) (s : Service) (e : Entry) → At registered gi si s
        → s.id ≡ 5
        → s.entry ≡ some e
        → find_service 5 registered ≡ some (gi, si))
find_service_lem_example = find_service_lem 5 registered
