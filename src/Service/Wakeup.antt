-- ===== src/Service/Wakeup.antt =====
-- The steps of a loaded program, in any order of its threads, and what every reachable context has.
use eaf.Prelude.{ℕ, ◌-◌, ◌≡◌, Bool, true, false, Option, none, some, ◌==◌, subst}
use eaf.Prelude.Int.{ℤ}
use eaf.Message.{Ptr}
use eaf.Service.{Group, Ctx, User}
use eaf.Service.Runtime.{M, pure, ◌>>◌, get_group, put_group}
use eaf.Service.Keeps.{
  Keeps, Everywhere, Stays, Keeps-then, Keeps-pure, Stays-if_at, reads_group, Keeps-put_group,
}
use eaf.Service.Stable.{send_req-Keeps, send_rsp-Keeps, resume-Keeps, exit-Keeps, teardown-Keeps}
use eaf.Service.Invariant.{IsSound, sem-IsSound, stable-IsSound}
use eaf.Service.Ending.{
  set_cur_run-Keeps, thread_start-Keeps, service_teardown-Keeps, group_exit-Keeps,
}
use eaf.Service.Thread.{thread_start, service_teardown, group_exit}
use eaf.Service.Work.Calls.{clear_cc0-Keeps}
use eaf.Service.Work.{handle_new_message-Keeps}
use eaf.Service.Send.{send_req, send_rsp, resume}
use eaf.Errno
use eaf.Service.Life.{exit, teardown, load_start}
use eaf.Service.Boot.{IsRegistered, IsRegistered-IsNew, load_start-IsSound}
use eaf.Service.Loop.{set_cur_run, clear_cc0, handle_new_message, thread_loop, pend, first_busy}

abbrev I : Ctx → Type 0
I = Everywhere IsSound

pend-Keeps : (gi : ℕ) → Keeps I (pend gi)
unfolding pend
pend-Keeps gi c v = reads_group IsSound gi c _ λ g at.
    Stays-if_at I c (g.sem == 0) (pure false) _ v (
      Keeps-put_group IsSound gi c g (record g { sem = g.sem - 1 }) (pure true) at v
        (sem-IsSound gi g (g.sem - 1) (v gi g at)) (Keeps-pure I true))

thread_loop-Keeps : (u : User) (gi : ℕ) → Keeps I (thread_loop u gi)
unfolding thread_loop
thread_loop-Keeps u gi c v = reads_group IsSound gi c _ λ g at. by_busy g at (first_busy g)
  where
    by_busy :
        (g : Group)
        → get_group c gi ≡ some g
        → (o : Option ℕ)
        → Stays I (
            (elim o as (λ _. M Bool) [
              | none ↦ pend gi
              | some si ↦ (do
                put_group gi (record g { sem = g.sem - 1 })
                set_cur_run gi si
                clear_cc0 gi
                handle_new_message u gi si
                pure true)
            ])
              c)
    by_busy g at none = pend-Keeps gi c v
    by_busy g at (some si) =
        Keeps-put_group IsSound gi c g (record g { sem = g.sem - 1 }) _ at v
          (sem-IsSound gi g (g.sem - 1) (v gi g at))
          (Keeps-then I (set_cur_run gi si) _ (set_cur_run-Keeps gi si) (
            Keeps-then I (clear_cc0 gi) _ (clear_cc0-Keeps IsSound stable-IsSound u gi) (
              Keeps-then I (handle_new_message u gi si) (pure true)
                (handle_new_message-Keeps gi si u) (Keeps-pure I true))))

-- The contexts of a loaded program: each thread makes its rounds, and any thread calls the API. A
-- thread that is blocked in its semaphore takes a post when there is one (`wakes`).
pub data Reaches (u : User) : Ctx → Type 0 where
  loads : (c c' : Ctx) → IsRegistered u c → load_start c ≡ some (Errno.success, c') → Reaches u c'
  loops :
      (c c' : Ctx) (gi : ℕ) (b : Bool)
      → Reaches u c
      → thread_loop u gi c ≡ some (b, c')
      → Reaches u c'
  wakes : (c c' : Ctx) (gi : ℕ) (b : Bool) → Reaches u c → pend gi c ≡ some (b, c') → Reaches u c'
  starts :
      (c c' : Ctx) (gi : ℕ) (b : Bool)
      → Reaches u c
      → thread_start u gi c ≡ some (b, c')
      → Reaches u c'
  tears_services :
      (c c' : Ctx) (gi : ℕ) → Reaches u c → service_teardown u gi c ≡ some (tt, c') → Reaches u c'
  exits_services :
      (c c' : Ctx) (gi max_idx : ℕ)
      → Reaches u c
      → group_exit u gi max_idx c ≡ some (tt, c')
      → Reaches u c'
  sends_req :
      (c c' : Ctx) (from to : ℕ) (req : Ptr) (ret : ℤ)
      → Reaches u c
      → send_req u from to req c ≡ some (ret, c')
      → Reaches u c'
  sends_rsp :
      (c c' : Ctx) (from to : ℕ) (rsp : Ptr) (ret : ℤ)
      → Reaches u c
      → send_rsp u from to rsp c ≡ some (ret, c')
      → Reaches u c'
  resumes :
      (c c' : Ctx) (id : ℕ) (ret : ℤ) → Reaches u c → resume id c ≡ some (ret, c') → Reaches u c'
  exits :
      (c c' : Ctx) (reason ret : ℤ) → Reaches u c → exit reason c ≡ some (ret, c') → Reaches u c'
  tears_down : (c c' : Ctx) (ret : ℤ) → Reaches u c → teardown c ≡ some (ret, c') → Reaches u c'

pub Stays-at :
    {A : Type 0} (I : Ctx → Type 0) (m : M A) (c c' : Ctx) (a : A)
    → Keeps I m
    → m c ≡ some (a, c')
    → I c
    → I c'
Stays-at I m c c' a k e v = subst (Stays I) e (k c v)

-- Every context of a loaded program is sound: each service stands on exactly the list that its state
-- asks for, and one that is idle or awaits its first request has neither a queued message nor a
-- current one.
pub Reaches-IsSound : (u : User) (c : Ctx) → Reaches u c → Everywhere IsSound c
Reaches-IsSound u _ (Reaches.loads c c' r e) = load_start-IsSound c c' (IsRegistered-IsNew u c r) e
Reaches-IsSound u _ (Reaches.loops c c' gi b r e) =
    Stays-at I (thread_loop u gi) c c' b (thread_loop-Keeps u gi) e (Reaches-IsSound u c r)
Reaches-IsSound u _ (Reaches.wakes c c' gi b r e) =
    Stays-at I (pend gi) c c' b (pend-Keeps gi) e (Reaches-IsSound u c r)
Reaches-IsSound u _ (Reaches.starts c c' gi b r e) =
    Stays-at I (thread_start u gi) c c' b (thread_start-Keeps u gi) e (Reaches-IsSound u c r)
Reaches-IsSound u _ (Reaches.tears_services c c' gi r e) =
    Stays-at I (service_teardown u gi) c c' tt (service_teardown-Keeps u gi) e
      (Reaches-IsSound u c r)
Reaches-IsSound u _ (Reaches.exits_services c c' gi max_idx r e) =
    Stays-at I (group_exit u gi max_idx) c c' tt (group_exit-Keeps u gi max_idx) e
      (Reaches-IsSound u c r)
Reaches-IsSound u _ (Reaches.sends_req c c' from to req ret r e) =
    Stays-at I (send_req u from to req) c c' ret
      (send_req-Keeps IsSound stable-IsSound u from to req) e (Reaches-IsSound u c r)
Reaches-IsSound u _ (Reaches.sends_rsp c c' from to rsp ret r e) =
    Stays-at I (send_rsp u from to rsp) c c' ret
      (send_rsp-Keeps IsSound stable-IsSound u from to rsp) e (Reaches-IsSound u c r)
Reaches-IsSound u _ (Reaches.resumes c c' id ret r e) =
    Stays-at I (resume id) c c' ret (resume-Keeps IsSound stable-IsSound id) e
      (Reaches-IsSound u c r)
Reaches-IsSound u _ (Reaches.exits c c' reason ret r e) =
    Stays-at I (exit reason) c c' ret (exit-Keeps IsSound stable-IsSound reason) e
      (Reaches-IsSound u c r)
Reaches-IsSound u _ (Reaches.tears_down c c' ret r e) =
    Stays-at I teardown c c' ret (teardown-Keeps IsSound stable-IsSound) e (Reaches-IsSound u c r)
