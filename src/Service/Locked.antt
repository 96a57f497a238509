-- ===== src/Service/Locked.antt =====
-- The critical sections of src/core/service.c, which work on one group under its lock.
pub mod Lists
pub mod Settled
use eaf.Prelude.{
  ℕ, zero, suc, Bool, true, false, not, Option, none, some, List, [], ◌∷◌, if◌then◌else◌, get_elem?,
  set, length, ltb,
}
use eaf.Prelude.Int.{ℤ}
use eaf.Errno
use eaf.Sequence.{erase, push_back}
use eaf.Service.{
  State, init0, init1, init2, idle, busy, yield, exit0, exit1, Record, Service, Group, Entry,
}

abbrev pub put_service : Group → ℕ → Service → Group
put_service g i s = record g { table = set g.table i s }

-- The states of a service on `wait_list`; one in another state is on `busy_list`.
abbrev pub waits : State → Bool
waits init0 = true
waits init1 = false
waits init2 = true
waits idle = true
waits busy = false
waits yield = true
waits exit0 = false
waits exit1 = true

-- `_eaf_service_set_state_nolock`
unfoldable pub set_state_of : Group → ℕ → Service → State → Group
set_state_of g i s state =
    let left =
      if waits s.state
      then record g { wait_list = erase i g.wait_list }
      else record g { busy_list = erase i g.busy_list } in
    let entered =
      if waits state
      then record left { wait_list = push_back left.wait_list i }
      else record left { busy_list = push_back left.busy_list i } in
    put_service entered i (record s { state = state })

-- The same, of the service in place `i`. The code has a pointer to it, so it is there.
abbrev pub set_state : Group → ℕ → State → Group
set_state g i state = elim (get_elem? g.table i) [ none ↦ g | some s ↦ set_state_of g i s state ]

-- The part of `_eaf_service_push_msg` under the lock.
unfoldable pub enqueue : Group → ℕ → Service → Record → ℤ × Group
enqueue g i s r =
    let woken = λ (state : State).
      let s' = record s { state = state; queue = push_back s.queue r } in
      put_service (set_state_of g i s state) i s' in
    elim s.state [
      | exit0 ↦ (Errno.state, g)
      | init2 ↦ (Errno.success, woken init1)
      | idle ↦ (Errno.success, woken busy)
      | _ ↦ (Errno.success, put_service g i (record s { queue = push_back s.queue r }))
    ]

-- `_eaf_group_finish_service_init_lock`
unfoldable pub finish_service_init : Group → ℕ → Service → Group
finish_service_init g i s =
    let g' = set_state_of g i s idle in if ltb 0 (length s.queue) then set_state g' i busy else g'

-- The part of `_eaf_handle_new_message` under the lock: the next message, or the service is idle.
unfoldable pub pop_message : Group → ℕ → Service → Group
pop_message g i s = elim s.queue [
  | [] ↦ set_state_of g i s idle
  | r ∷ rest ↦ put_service g i (record s { cur_msg = some r; queue = rest })
]

-- The part of `eaf_resume` under the lock.
unfoldable pub resume_service : Group → ℕ → Service → ℤ × Group
resume_service g i s = elim s.state [
  | yield ↦ (Errno.success, set_state_of g i s busy)
  | _ ↦ (Errno.state, g)
]
