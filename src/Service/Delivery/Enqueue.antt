-- ===== src/Service/Delivery/Enqueue.antt =====
-- What the critical section of `_eaf_service_push_msg` makes of a service.
use eaf.Prelude.{ℕ, ◌≡◌, refl, sym, ap, ◌∙◌, Bool, true, false, some, get_elem?, set, arith}
use eaf.Prelude.Int.{ℤ}
use eaf.Errno
use eaf.Errno.{eq_int}
use eaf.Sequence.{push_back}
use eaf.Service.{
  State, init0, init1, init2, idle, busy, yield, exit0, exit1, Record, Service, Group,
}
use eaf.Service.Locked.{put_service, set_state_of, enqueue}
use eaf.Service.Locked.Lists.{get_elem?-set, set_state_of-at}

-- The state of a service that has got a message.
abbrev pub woken : State → State
woken init2 = init1
woken idle = busy
woken state = state

abbrev pub is_exit0 : State → Bool
is_exit0 exit0 = true
is_exit0 _ = false

-- The service with the message, in its group.
abbrev IsQueued : Group → ℕ → Service → Record → Group → Type 0
IsQueued g si s r g' =
    (get_elem? g'.table si ≡ some (record s { state = woken s.state; queue = push_back s.queue r }))
    × (g'.sem ≡ g.sem)

set_state_of-sem :
    (g : Group) (i : ℕ) (s : Service) (state : State) → (set_state_of g i s state).sem ≡ g.sem
unfolding set_state_of
set_state_of-sem g i s state = ground arith

module _ (g : Group) (si : ℕ) (s : Service) (r : Record) (at : get_elem? g.table si ≡ some s) where
  pub enqueue_refused : is_exit0 s.state ≡ true → enqueue g si s r ≡ (Errno.state, g)
  unfolding enqueue
  enqueue_refused e = by_state s.state refl e
    where
      by_state :
          (state : State)
          → s.state ≡ state
          → is_exit0 state ≡ true
          → enqueue g si s r ≡ (Errno.state, g)
      by_state exit0 is e' = rw (is, enqueue) refl
      by_state init0 is e' = cc
      by_state init1 is e' = cc
      by_state init2 is e' = cc
      by_state idle is e' = cc
      by_state busy is e' = cc
      by_state yield is e' = cc
      by_state exit1 is e' = cc

  pub enqueue_accepted :
      is_exit0 s.state ≡ false
      → ((enqueue g si s r).0 ≡ Errno.success) × IsQueued g si s r (enqueue g si s r).1
  unfolding enqueue
  enqueue_accepted e = by_state s.state refl e
    where
      Result : Type 0
      Result = ((enqueue g si s r).0 ≡ Errno.success) × IsQueued g si s r (enqueue g si s r).1

      queued : State → Service
      queued state = record s { state = state; queue = push_back s.queue r }

      -- The service is written to a group that has it, with the group's semaphore.
      lands :
          (g0 : Group) (t : Service) (state : State)
          → get_elem? g0.table si ≡ some t
          → g0.sem ≡ g.sem
          → woken s.state ≡ state
          → enqueue g si s r ≡ (Errno.success, put_service g0 si (queued state))
          → Result
      lands g0 t state at0 sem0 w q =
          let at_place : get_elem? (set g0.table si (queued state)) si ≡ some (queued state) =
            ground (arith, get_elem?-set g0.table si si (queued state) t at0) in
          (
            ap (λ x. x.0) q,
            (
              ap (λ x. get_elem? x.1.table si) q ∙ at_place ∙ ap (λ x. some (queued x)) (sym w),
              ap (λ x. x.1.sem) q ∙ sem0,
            ),
          )

      plain : State → ℤ × Group
      plain state = (Errno.success, put_service g si (queued state))

      kept :
          (state : State)
          → woken s.state ≡ state
          → enqueue g si s r ≡ (Errno.success, put_service g si (queued state))
          → Result
      kept state w q = lands g s state at refl w q

      moved :
          (state : State)
          → woken s.state ≡ state
          → enqueue g si s r
            ≡ (Errno.success, put_service (set_state_of g si s state) si (queued state))
          → Result
      moved state w q =
          lands (set_state_of g si s state) (record s { state = state }) state
            (set_state_of-at g si s state at) (set_state_of-sem g si s state) w q

      by_state : (state : State) → s.state ≡ state → is_exit0 state ≡ false → Result
      by_state exit0 is e' = cc
      by_state init2 is e' = moved init1 (rw is refl) (simp (is, enqueue) refl)
      by_state idle is e' = moved busy (rw is refl) (simp (is, enqueue) refl)
      by_state init0 is e' = kept init0 (rw is refl) (rw (is, enqueue) (ap plain is))
      by_state init1 is e' = kept init1 (rw is refl) (rw (is, enqueue) (ap plain is))
      by_state busy is e' = kept busy (rw is refl) (rw (is, enqueue) (ap plain is))
      by_state yield is e' = kept yield (rw is refl) (rw (is, enqueue) (ap plain is))
      by_state exit1 is e' = kept exit1 (rw is refl) (rw (is, enqueue) (ap plain is))
