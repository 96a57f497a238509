-- ===== src/Service/Locked/Settled.antt =====
-- No critical section leaves work on a service that waits for nobody: a service that is idle, or that
-- is not initialised yet and would be only by a request, has no message.
use eaf.Prelude.{
  ℕ, zero, suc, lt→ltb, ◌≡◌, refl, ap, ◌∙◌, true, false, Option, none, some, List, [], ◌∷◌, ◌==◌,
  sym, subst, get_elem?, set, length, arith, ltb, Bool-cases, inl, inr,
}
use eaf.Sequence.{push_back}
use eaf.Service.{
  State, init0, init1, init2, idle, busy, yield, exit0, exit1, Record, Service, Group,
}
use eaf.Service.Locked.{
  put_service, set_state_of, enqueue, finish_service_init, pop_message, resume_service,
}
use eaf.Service.Locked.Lists.{get_elem?-set, set_state_of-at, set_state-at}

-- What a state says of the queue and of the current message. After eaf_load nothing is in init0.
abbrev pub Calm : State → List Record → Option Record → Type 0
Calm init0 queue cur = ⊥
Calm init1 queue cur = cur ≡ none
Calm init2 queue cur = (queue ≡ []) × (cur ≡ none)
Calm idle queue cur = (queue ≡ []) × (cur ≡ none)
Calm _ queue cur = Unit {0}

abbrev pub CalmService : Service → Type 0
CalmService s = Calm s.state s.queue s.cur_msg

abbrev pub IsSettled : Group → Type 0
IsSettled g = (i : ℕ) (s : Service) → get_elem? g.table i ≡ some s → CalmService s

some_eq : (s t : Service) → some s ≡ some t → s ≡ t
some_eq s t e = cc

-- A write to one service.
pub put_service-IsSettled :
    (g : Group) (i : ℕ) (s s' : Service)
    → get_elem? g.table i ≡ some s
    → IsSettled g
    → CalmService s'
    → IsSettled (put_service g i s')
put_service-IsSettled g i s s' at v calm j t e = elim (Bool-cases (j == i)) [
  | inl here ↦ subst CalmService (some_eq s' t (sym (got here))) calm
  | inr other ↦ v j t (sym (moved other) ∙ e)
]
  where
    moved : (j == i) ≡ false → get_elem? (set g.table i s') j ≡ get_elem? g.table j
    moved other = get_elem?-set g.table i j s' s at ∙ rw other

    got : (j == i) ≡ true → some t ≡ some s'
    got here = sym e ∙ get_elem?-set g.table i j s' s at ∙ rw here

pub set_state_of-table :
    (g : Group) (i : ℕ) (s : Service) (state : State)
    → (set_state_of g i s state).table ≡ set g.table i (record s { state = state })
unfolding set_state_of
set_state_of-table g i s state = ground arith

pub set-set {ℓ} : {A : Type ℓ} (xs : List A) (i : ℕ) (u v : A) → set (set xs i u) i v ≡ set xs i v
set-set [] i u v = refl
set-set (x ∷ xs) zero u v = refl
set-set (x ∷ xs) (suc i) u v = ap (λ t. x ∷ t) (set-set xs i u v)

pub IsSettled-by_table : (g g' : Group) → g'.table ≡ g.table → IsSettled g → IsSettled g'
IsSettled-by_table g g' same v i s e = v i s (subst (λ x. get_elem? x i ≡ some s) same e)

module _ (g : Group) (i : ℕ) (s : Service) (at : get_elem? g.table i ≡ some s)
    (v : IsSettled g) where
  pub set_state_of-IsSettled :
      (state : State) → Calm state s.queue s.cur_msg → IsSettled (set_state_of g i s state)
  set_state_of-IsSettled state calm j t e =
      put_service-IsSettled g i s (record s { state = state }) at v calm j t
        (subst (λ x. get_elem? x j ≡ some t) (set_state_of-table g i s state) e)

  woken-IsSettled :
      (state : State) (s' : Service)
      → Calm state s.queue s.cur_msg
      → CalmService s'
      → IsSettled (put_service (set_state_of g i s state) i s')
  woken-IsSettled state s' calm =
      put_service-IsSettled (set_state_of g i s state) i (record s { state = state }) s'
        (set_state_of-at g i s state at) (set_state_of-IsSettled state calm)

  -- What the service's own state says of it.
  Calm-at : (state : State) → s.state ≡ state → Calm state s.queue s.cur_msg
  Calm-at state e = subst (λ x. Calm x s.queue s.cur_msg) e (v i s at)

  pub enqueue-IsSettled : (r : Record) → IsSettled (enqueue g i s r).1
  unfolding enqueue
  enqueue-IsSettled r = by_state s.state refl
    where
      queued : Service
      queued = record s { queue = push_back s.queue r }

      stays :
          (state : State)
          → s.state ≡ state
          → Calm state queued.queue s.cur_msg
          → IsSettled (put_service g i queued)
      stays state e calm =
          put_service-IsSettled g i s queued at v
            (subst (λ x. Calm x queued.queue s.cur_msg) (sym e) calm)

      by_state : (state : State) → s.state ≡ state → IsSettled (enqueue g i s r).1
      by_state exit0 e = rw (e, enqueue) v
      by_state init2 e =
          rw (e, enqueue) (woken-IsSettled init1 _ (Calm-at init2 e).1 (Calm-at init2 e).1)
      by_state idle e = rw (e, enqueue) (woken-IsSettled busy _ tt tt)
      by_state init0 e = absurd (Calm-at init0 e)
      by_state init1 e = rw (e, enqueue) (stays init1 e (Calm-at init1 e))
      by_state busy e = rw (e, enqueue) (stays busy e tt)
      by_state yield e = rw (e, enqueue) (stays yield e tt)
      by_state exit1 e = rw (e, enqueue) (stays exit1 e tt)

  pub resume_service-IsSettled : IsSettled (resume_service g i s).1
  unfolding resume_service
  resume_service-IsSettled = by_state s.state refl
    where
      by_state : (state : State) → s.state ≡ state → IsSettled (resume_service g i s).1
      by_state yield e = rw (e, resume_service) (set_state_of-IsSettled busy tt)
      by_state _ e = rw (e, resume_service) v

  -- The service has no current message when its next one is taken.
  pub pop_message-IsSettled : s.state ≡ busy → s.cur_msg ≡ none → IsSettled (pop_message g i s)
  unfolding pop_message
  pop_message-IsSettled is_busy no_cur = by_queue s.queue refl
    where
      by_queue : (q : List Record) → s.queue ≡ q → IsSettled (pop_message g i s)
      by_queue [] e = rw (e, pop_message) (set_state_of-IsSettled idle (e, no_cur))
      by_queue (r ∷ rest) e =
          rw (e, pop_message)
            (put_service-IsSettled g i s (record s { cur_msg = some r; queue = rest }) at v
              (subst (λ x. Calm x rest (some r)) (sym is_busy) tt))

  pub finish_service_init-IsSettled : s.cur_msg ≡ none → IsSettled (finish_service_init g i s)
  unfolding finish_service_init
  finish_service_init-IsSettled no_cur = by_queue s.queue refl
    where
      still_idle : Group
      still_idle = set_state_of g i s idle

      by_queue : (q : List Record) → s.queue ≡ q → IsSettled (finish_service_init g i s)
      by_queue [] e =
          let empty : ltb 0 (length s.queue) ≡ false = rw e in
          rw empty (set_state_of-IsSettled idle (e, no_cur))
      by_queue (r ∷ rest) e =
          let filled : ltb 0 (length s.queue) ≡ true =
            rw e (lt→ltb 0 (suc (length rest)) (omega arith)) in
          let busy_now = record s { state = busy } in
          rw
            (
              filled,
              set_state-at still_idle i (record s { state = idle }) busy
                  (set_state_of-at g i s idle at),
            )
            (IsSettled-by_table (put_service g i busy_now)
              (set_state_of still_idle i (record s { state = idle }) busy)
              (set_state_of-table still_idle i (record s { state = idle }) busy
                ∙ ap (λ x. set x i busy_now) (set_state_of-table g i s idle)
                ∙ set-set g.table i (record s { state = idle }) busy_now)
              (put_service-IsSettled g i s busy_now at v tt))
