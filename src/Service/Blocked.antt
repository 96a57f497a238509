-- ===== src/Service/Blocked.antt =====
-- A thread that is blocked in the semaphore of its group, while other threads work and call the API: it
-- leaves no service with work behind.
use eaf.Prelude.{
  ℕ, zero, suc, ◌<◌, ◌≡◌, ◌≢◌, refl, sym, ap, ◌∙◌, Bool, true, false, Option, none, some, List, [],
  ◌∷◌, ◌==◌, if◌then◌else◌, get_elem?, subst, arith, ◌⊎◌, inl, inr, Bool-cases, ==_iff, ◌-◌,
}
use eaf.Prelude.Int.{ℤ}
use eaf.Errno
use eaf.Errno.{eq_int}
use eaf.Message.{Ptr}
use eaf.Sequence.{count}
use eaf.Service.{
  State, init0, init1, init2, idle, busy, yield, exit0, exit1, Record, Service, Group, Ctx, User,
}
use eaf.Service.Locked.{enqueue, resume_service}
use eaf.Service.Runtime.{pure, ◌>>=◌, ◌>>◌, get_group, put_group}
use eaf.Service.Keeps.{Everywhere, some_eq, group-at}
use eaf.Service.Locked.Lists.{on_busy, on_list}
use eaf.Service.Locked.Settled.{Calm}
use eaf.Service.Delivery.Enqueue.{is_exit0, enqueue_refused, enqueue_accepted}
use eaf.Service.Invariant.{IsSound}
use eaf.Service.Stable.{
  IsStable, posted_if, send_req-Keeps, send_rsp-Keeps, resume-Keeps, exit-Keeps, teardown-Keeps,
}
use eaf.Service.Other.{
  pend-Keeps, thread_loop-Keeps, thread_start-Keeps, service_teardown-Keeps, group_exit-Keeps,
}
use eaf.Service.Send.{send_req, send_rsp, resume}
use eaf.Service.Life.{exit, teardown, post_group}
use eaf.Service.Loop.{first_busy, pend, thread_loop}
use eaf.Service.Thread.{thread_start, service_teardown, group_exit}
use eaf.Service.Wakeup.{Reaches, Stays-at, Reaches-IsSound}

-- The thread of group `gi` has looked for a busy service, found none, and has not taken a post since:
-- it is in `eaf_compat_sem_pend` or on its way there. The threads of other groups make their rounds,
-- start and end, and any thread calls the API.
pub data Waits (u : User) (gi : ℕ) : Ctx → Type 0 where
  looks :
      (c : Ctx) (g : Group)
      → Reaches u c
      → get_group c gi ≡ some g
      → first_busy g ≡ none
      → Waits u gi c
  others_loop :
      (c c' : Ctx) (gj : ℕ) (b : Bool)
      → gj ≢ gi
      → Waits u gi c
      → thread_loop u gj c ≡ some (b, c')
      → Waits u gi c'
  others_wake :
      (c c' : Ctx) (gj : ℕ) (b : Bool)
      → gj ≢ gi
      → Waits u gi c
      → pend gj c ≡ some (b, c')
      → Waits u gi c'
  others_start :
      (c c' : Ctx) (gj : ℕ) (b : Bool)
      → gj ≢ gi
      → Waits u gi c
      → thread_start u gj c ≡ some (b, c')
      → Waits u gi c'
  others_tear_services :
      (c c' : Ctx) (gj : ℕ)
      → gj ≢ gi
      → Waits u gi c
      → service_teardown u gj c ≡ some (tt, c')
      → Waits u gi c'
  others_exit_services :
      (c c' : Ctx) (gj max_idx : ℕ)
      → gj ≢ gi
      → Waits u gi c
      → group_exit u gj max_idx c ≡ some (tt, c')
      → Waits u gi c'
  sends_req :
      (c c' : Ctx) (from to : ℕ) (req : Ptr) (ret : ℤ)
      → Waits u gi c
      → send_req u from to req c ≡ some (ret, c')
      → Waits u gi c'
  sends_rsp :
      (c c' : Ctx) (from to : ℕ) (rsp : Ptr) (ret : ℤ)
      → Waits u gi c
      → send_rsp u from to rsp c ≡ some (ret, c')
      → Waits u gi c'
  resumes :
      (c c' : Ctx) (id : ℕ) (ret : ℤ) → Waits u gi c → resume id c ≡ some (ret, c') → Waits u gi c'
  exits :
      (c c' : Ctx) (reason ret : ℤ) → Waits u gi c → exit reason c ≡ some (ret, c') → Waits u gi c'
  tears_down : (c c' : Ctx) (ret : ℤ) → Waits u gi c → teardown c ≡ some (ret, c') → Waits u gi c'

Waits-Reaches : (u : User) (gi : ℕ) (c : Ctx) → Waits u gi c → Reaches u c
Waits-Reaches u gi _ (looks c g r at e) = r
Waits-Reaches u gi _ (others_loop c c' gj b ne w e) =
    Reaches.loops c c' gj b (Waits-Reaches u gi c w) e
Waits-Reaches u gi _ (others_wake c c' gj b ne w e) =
    Reaches.wakes c c' gj b (Waits-Reaches u gi c w) e
Waits-Reaches u gi _ (others_start c c' gj b ne w e) =
    Reaches.starts c c' gj b (Waits-Reaches u gi c w) e
Waits-Reaches u gi _ (others_tear_services c c' gj ne w e) =
    Reaches.tears_services c c' gj (Waits-Reaches u gi c w) e
Waits-Reaches u gi _ (others_exit_services c c' gj max_idx ne w e) =
    Reaches.exits_services c c' gj max_idx (Waits-Reaches u gi c w) e
Waits-Reaches u gi _ (sends_req c c' from to req ret w e) =
    Reaches.sends_req c c' from to req ret (Waits-Reaches u gi c w) e
Waits-Reaches u gi _ (sends_rsp c c' from to rsp ret w e) =
    Reaches.sends_rsp c c' from to rsp ret (Waits-Reaches u gi c w) e
Waits-Reaches u gi _ (resumes c c' id ret w e) =
    Reaches.resumes c c' id ret (Waits-Reaches u gi c w) e
Waits-Reaches u gi _ (exits c c' reason ret w e) =
    Reaches.exits c c' reason ret (Waits-Reaches u gi c w) e
Waits-Reaches u gi _ (tears_down c c' ret w e) =
    Reaches.tears_down c c' ret (Waits-Reaches u gi c w) e

-- No service of the group is busy, or a post is left for its thread.
abbrev IsAwaited : Group → Type 0
IsAwaited g = (g.busy_list ≡ []) ⊎ (0 < g.sem)

module _ (gi : ℕ) where
  abbrev Awaited : ℕ → Group → Type 0
  Awaited gj g = gj ≡ gi → IsAwaited g

  posted : (g : Group) → IsAwaited (post_group g)
  posted g = inr (omega arith)

  -- A critical section that succeeds is followed by a post; one that fails changes nothing.
  posted_if-IsAwaited :
      (out : ℤ × Group) (g : Group)
      → ((out.0 ≡ Errno.success) ⊎ (out.1 ≡ g))
      → IsAwaited g
      → IsAwaited (posted_if out)
  posted_if-IsAwaited (ret, g1) g (inl done) v = rw done (posted g1)
  posted_if-IsAwaited (ret, g1) g (inr same) v = elim (Bool-cases (eq_int ret Errno.success)) [
    | inl done ↦ rw done (posted g1)
    | inr failed ↦ rw failed (subst IsAwaited (sym same) v)
  ]

  enqueue-outcome :
      (si : ℕ) (g : Group) (s : Service) (r : Record)
      → get_elem? g.table si ≡ some s
      → ((enqueue g si s r).0 ≡ Errno.success) ⊎ ((enqueue g si s r).1 ≡ g)
  enqueue-outcome si g s r at = elim (Bool-cases (is_exit0 s.state)) [
    | inl out ↦ inr (ap (λ x. x.1) (enqueue_refused g si s r at out))
    | inr in_use ↦ inl (enqueue_accepted g si s r at in_use).0
  ]

  resume_service-outcome :
      (si : ℕ) (g : Group) (s : Service)
      → ((resume_service g si s).0 ≡ Errno.success) ⊎ ((resume_service g si s).1 ≡ g)
  unfolding resume_service
  resume_service-outcome si g s = by_state s.state refl
    where
      by_state :
          (state : State)
          → s.state ≡ state
          → ((resume_service g si s).0 ≡ Errno.success) ⊎ ((resume_service g si s).1 ≡ g)
      by_state yield e = inl (rw (e, resume_service) refl)
      by_state _ e = inr (rw (e, resume_service) refl)

  stable-Awaited : IsStable Awaited
  stable-Awaited = record {
    posted = λ gj g p same. posted g;
    yielded = λ gj g cc0 fn arg p same. p same;
    enqueued = λ gj si g s r at p same.
        posted_if-IsAwaited (enqueue g si s r) g (enqueue-outcome si g s r at) (p same);
    resumed = λ gj si g s at p same.
        posted_if-IsAwaited (resume_service g si s) g (resume_service-outcome si g s) (p same);
    branched = λ gj si g s branch at p same. p same;
  }

  abbrev A : Ctx → Type 0
  A = Everywhere Awaited

  -- What the thread of another group does to its own group does not matter.
  free : (gj : ℕ) → gj ≢ gi → (g : Group) → Awaited gj g
  free gj ne g same = absurd (ne same)

  no_busy : (g : Group) → first_busy g ≡ none → g.busy_list ≡ []
  no_busy g e = by_list g.busy_list e
    where
      by_list :
          (bs : List ℕ)
          → (elim bs as (λ _. Option ℕ) [ [] ↦ none | si ∷ rest ↦ some si ]) ≡ none
          → bs ≡ []
      by_list [] e1 = refl
      by_list (si ∷ rest) e1 = cc

  Waits-Awaited : (u : User) (c : Ctx) → Waits u gi c → A c
  Waits-Awaited u _ (looks c g r at e) = λ gj h at' same.
      let at2 = subst (λ x. get_group c x ≡ some h) same at' in
      inl (subst (λ x. x.busy_list ≡ []) (some_eq g h (sym at ∙ at2)) (no_busy g e))
  Waits-Awaited u _ (others_loop c c' gj b ne w e) =
      Stays-at A (thread_loop u gj) c c' b
        (thread_loop-Keeps Awaited stable-Awaited u gj (free gj ne)) e (Waits-Awaited u c w)
  Waits-Awaited u _ (others_wake c c' gj b ne w e) =
      Stays-at A (pend gj) c c' b (pend-Keeps Awaited stable-Awaited u gj (free gj ne)) e
        (Waits-Awaited u c w)
  Waits-Awaited u _ (others_start c c' gj b ne w e) =
      Stays-at A (thread_start u gj) c c' b
        (thread_start-Keeps Awaited stable-Awaited u gj (free gj ne)) e (Waits-Awaited u c w)
  Waits-Awaited u _ (others_tear_services c c' gj ne w e) =
      Stays-at A (service_teardown u gj) c c' tt
        (service_teardown-Keeps Awaited stable-Awaited u gj (free gj ne)) e (Waits-Awaited u c w)
  Waits-Awaited u _ (others_exit_services c c' gj max_idx ne w e) =
      Stays-at A (group_exit u gj max_idx) c c' tt
        (group_exit-Keeps Awaited stable-Awaited u gj (free gj ne) max_idx) e (Waits-Awaited u c w)
  Waits-Awaited u _ (sends_req c c' from to req ret w e) =
      Stays-at A (send_req u from to req) c c' ret
        (send_req-Keeps Awaited stable-Awaited u from to req) e (Waits-Awaited u c w)
  Waits-Awaited u _ (sends_rsp c c' from to rsp ret w e) =
      Stays-at A (send_rsp u from to rsp) c c' ret
        (send_rsp-Keeps Awaited stable-Awaited u from to rsp) e (Waits-Awaited u c w)
  Waits-Awaited u _ (resumes c c' id ret w e) =
      Stays-at A (resume id) c c' ret (resume-Keeps Awaited stable-Awaited id) e
        (Waits-Awaited u c w)
  Waits-Awaited u _ (exits c c' reason ret w e) =
      Stays-at A (exit reason) c c' ret (exit-Keeps Awaited stable-Awaited reason) e
        (Waits-Awaited u c w)
  Waits-Awaited u _ (tears_down c c' ret w e) =
      Stays-at A teardown c c' ret (teardown-Keeps Awaited stable-Awaited) e (Waits-Awaited u c w)

  -- A pend that blocks has found no post.
  blocked-sem :
      (c c' : Ctx) (g : Group) → pend gi c ≡ some (false, c') → get_group c gi ≡ some g → g.sem ≡ 0
  unfolding pend put_group
  blocked-sem c c' g e at = by_sem (g.sem == 0) refl (sym (rw (group-at c gi g at, ◌>>=◌) refl) ∙ e)
    where
      by_sem :
          (b : Bool)
          → (g.sem == 0) ≡ b
          → (if b then pure false else (put_group gi (record g { sem = g.sem - 1 }) >> pure true)) c
            ≡ some (false, c')
          → g.sem ≡ 0
      by_sem true is e1 = (==_iff g.sem 0).0 is
      by_sem false is e1 = cc

  blocked-busy :
      (u : User) (c c' : Ctx) (g : Group)
      → Waits u gi c
      → pend gi c ≡ some (false, c')
      → get_group c gi ≡ some g
      → g.busy_list ≡ []
  blocked-busy u c c' g w e at = elim (Waits-Awaited u c w gi g at refl) [
    | inl none_busy ↦ none_busy
    | inr post_left ↦ absurd (omega (arith, post_left, blocked-sem c c' g e at))
  ]

-- While the thread of a group of a loaded program is blocked in its semaphore, after it has found no
-- busy service, and whatever other threads have done since, each call of the API being over: each
-- service of the group has no queued and no current message, or waits for the program's own eaf_resume
-- (`yield`), or has ended (`exit1`).
pub no_lost_wakeup :
    (u : User) (c c' : Ctx) (gi si : ℕ) (g : Group) (s : Service)
    → Waits u gi c
    → pend gi c ≡ some (false, c')
    → get_group c gi ≡ some g
    → get_elem? g.table si ≡ some s
    → ((s.queue ≡ []) × (s.cur_msg ≡ none)) ⊎ ((s.state ≡ yield) ⊎ (s.state ≡ exit1))
no_lost_wakeup u c c' gi si g s w e at at' = by_state s.state refl
  where
    Result : Type 0
    Result = ((s.queue ≡ []) × (s.cur_msg ≡ none)) ⊎ ((s.state ≡ yield) ⊎ (s.state ≡ exit1))

    sound : IsSound gi g
    sound = Reaches-IsSound u c (Waits-Reaches u gi c w) gi g at

    calm : (state : State) → s.state ≡ state → Calm state s.queue s.cur_msg
    calm state is = subst (λ x. Calm x s.queue s.cur_msg) is (sound.1 si s at')

    not_busy : (state : State) → s.state ≡ state → on_busy state ≡ 0
    not_busy state is =
        ap on_busy (sym is)
        ∙ ap (on_list on_busy) (sym at')
        ∙ sym (sound.0.busy si)
        ∙ ap (count si) (blocked-busy gi u c c' g w e at)

    one_is_not_zero : suc zero ≡ zero → Result
    one_is_not_zero q = absurd (omega arith)

    by_state : (state : State) → s.state ≡ state → Result
    by_state yield is = inr (inl is)
    by_state exit1 is = inr (inr is)
    by_state idle is = inl (calm idle is)
    by_state init2 is = inl (calm init2 is)
    by_state init0 is = absurd (calm init0 is)
    by_state init1 is = one_is_not_zero (not_busy init1 is)
    by_state busy is = one_is_not_zero (not_busy busy is)
    by_state exit0 is = one_is_not_zero (not_busy exit0 is)
