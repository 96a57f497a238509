-- ===== src/Service/ApiTests.antt =====
-- Runs of eaf_exit, eaf_resume and the iterators on a program of one group with one service.
use eaf.Prelude.{true, none, ◌≡◌, refl, inl, some, [], ◌∷◌, arith}
use eaf.Prelude.Int.{ℤ, pos}
use eaf.Errno
use eaf.Service.Drain.{Drained, Handles, teardown_queue_lem}
use eaf.Service.Thread.{teardown_message, teardown_queue}
use eaf.Message.{Msg, update}
use eaf.Service.{exit0, Service, idle, yield, user, CtxState, Ctx, Group}
use eaf.Service.Runtime.{find_service}
use eaf.Service.Life.{exit}
use eaf.Service.Send.{resume}
use eaf.Service.Shutdown.{IsClosed, exit-IsClosed}
use eaf.Service.Resumed.{IsResumed, resume_lem}
use eaf.Service.Iter.{group_begin, group_next, service_begin, service_next}
use eaf.Service.Walk.{walk, group_next_lem, service_next_lem}
use eaf.Service.Tests.{quiet, entry, service_with, group_of, running, asleep}

abbrev left : Ctx
left = record asleep {
  state = CtxState.exit;
  executor = user;
  reason = pos 3;
  groups =
      record (group_of [] (0 ∷ []) 0 (some 0) (service_with (some entry) idle)) { sem = 1 } ∷ [];
}

exits_test : exit (pos 3) asleep ≡ some (Errno.success, left)
unfolding exit
exits_test = refl

exit-IsClosed_example : IsClosed quiet left
exit-IsClosed_example = exit-IsClosed quiet (pos 3) asleep left (inl exits_test)

abbrev waiting : Group
waiting = group_of [] (0 ∷ []) 0 (some 0) (service_with (some entry) yield)

found_test : find_service 5 (running waiting 1 []) ≡ some (0, 0)
unfolding find_service
found_test = refl

resume_lem_example :
    (ret : ℤ) × (c' : Ctx) × (resume 5 (running waiting 1 []) ≡ some (ret, c'))
    × ((ret ≡ Errno.success) × IsResumed 0 0 waiting (service_with (some entry) yield) c')
resume_lem_example =
    resume_lem (running waiting 1 []) 5 0 0 (service_with (some entry) yield) waiting found_test
      refl refl

group_next_lem_example : walk (group_next asleep) 3 (group_begin asleep) ≡ 0 ∷ []
group_next_lem_example = group_next_lem asleep 0 3 refl (omega arith) (omega arith)

service_next_lem_example : walk (service_next waiting) 1 (service_begin waiting) ≡ 0 ∷ []
service_next_lem_example = service_next_lem waiting 0 1 refl (omega arith) (omega arith)

-- A response waits in the queue of a service that is torn down.
abbrev answer : Msg
answer = record { id = 7; from = 9; encs = 0; uuid = 40; orig = 0; refcnt = 1; size = 0 }

abbrev dying : Service
dying = record (service_with (some entry) exit0) {
  queue = record { req_fn = none; from = 9; to = 5; msg = 40 } ∷ [];
}

abbrev torn : Ctx
torn = record (running (group_of (0 ∷ []) [] 0 (some 0) dying) 1 []) {
  state = CtxState.teardown;
  memory = update (λ p. none) 40 (some answer);
}

abbrev drained : Ctx
drained = record torn {
  groups = group_of (0 ∷ []) [] 0 (some 0) (record dying { queue = [] }) ∷ [];
  memory = update (update torn.memory 40 (some (record answer { refcnt = 0 }))) 40 none;
}

-- The loop ends, and frees the response.
ends_test : teardown_queue quiet 1 0 0 torn ≡ some (true, drained)
unfolding teardown_queue
ends_test = refl

Handles-dying : Handles quiet 0 0 (group_of (0 ∷ []) [] 0 (some 0) dying) dying dying.queue torn
unfolding teardown_message
Handles-dying = (drained, refl, tt)

teardown_queue_lem_example :
    Drained quiet 0 0
      (group_of (0 ∷ []) [] 0 (some 0) dying)
      dying
      torn.groups
      (teardown_queue quiet 1 0 0 torn)
teardown_queue_lem_example =
    teardown_queue_lem quiet 0 0 1 torn (group_of (0 ∷ []) [] 0 (some 0) dying) dying refl refl refl
      (omega arith) Handles-dying
