-- ===== src/Service/Locked/Lists.antt =====
-- Every critical section keeps each service on exactly one of the group's two lists: on `busy_list`
-- in the states init1, busy and exit0, else on `wait_list`.
use eaf.Prelude.{
  ℕ, zero, suc, ◌≡◌, refl, ap, Option, none, some, List, [], ◌∷◌, ◌==◌, if◌then◌else◌, get_elem?,
  set, length, arith, ltb, Bool-cases, inl, inr,
}
use eaf.Sequence.{count, count-append, count-erase, erase, push_back}
use eaf.Service.{
  State, init0, init1, init2, idle, busy, yield, exit0, exit1, Record, Service, Group,
}
use eaf.Service.Locked.{
  put_service, waits, set_state_of, set_state, enqueue, finish_service_init, pop_message,
  resume_service,
}

-- A write to a place that is there.
pub get_elem?-set {ℓ} :
    {A : Type ℓ} (xs : List A) (i j : ℕ) (v u : A)
    → get_elem? xs i ≡ some u
    → get_elem? (set xs i v) j ≡ (if j == i then some v else get_elem? xs j)
get_elem?-set [] i j v u e = cc
get_elem?-set (x ∷ xs) zero zero v u e = refl
get_elem?-set (x ∷ xs) zero (suc j) v u e = ground arith
get_elem?-set (x ∷ xs) (suc i) zero v u e = ground arith
get_elem?-set (x ∷ xs) (suc i) (suc j) v u e = ground (arith, get_elem?-set xs i j v u e)

-- How often a service stands on the list of one kind.
abbrev pub on_list : (State → ℕ) → Option Service → ℕ
on_list kind none = 0
on_list kind (some s) = kind s.state

abbrev pub on_wait : State → ℕ
on_wait state = if waits state then 1 else 0

abbrev pub on_busy : State → ℕ
on_busy state = if waits state then 0 else 1

pub record IsListed (g : Group) : Type 0 where
  pub wait : (i : ℕ) → count i g.wait_list ≡ on_list on_wait (get_elem? g.table i)
  pub busy : (i : ℕ) → count i g.busy_list ≡ on_list on_busy (get_elem? g.table i)

pub same_lists :
    (g g' : Group)
    → g'.table ≡ g.table
    → g'.wait_list ≡ g.wait_list
    → g'.busy_list ≡ g.busy_list
    → IsListed g
    → IsListed g'
same_lists g g' et ew eb v = record {
  wait = λ i. ground (arith, v.wait i, et, ew);
  busy = λ i. ground (arith, v.busy i, et, eb);
}

module _ (g : Group) (i : ℕ) (s : Service) (at : get_elem? g.table i ≡ some s)
    (v : IsListed g) where
  set_state_of-wait :
      (state : State) (j : ℕ)
      → count j (set_state_of g i s state).wait_list
        ≡ on_list on_wait (get_elem? (set_state_of g i s state).table j)
  unfolding set_state_of
  set_state_of-wait state j = ground (
    arith,
    v.wait j,
    ap (on_list on_wait) at,
    get_elem?-set g.table i j (record s { state = state }) s at,
    count-append j (erase i g.wait_list) (i ∷ []),
    count-append j g.wait_list (i ∷ []),
    count-erase j i g.wait_list,
  )

  set_state_of-busy :
      (state : State) (j : ℕ)
      → count j (set_state_of g i s state).busy_list
        ≡ on_list on_busy (get_elem? (set_state_of g i s state).table j)
  unfolding set_state_of
  set_state_of-busy state j = ground (
    arith,
    v.busy j,
    ap (on_list on_busy) at,
    get_elem?-set g.table i j (record s { state = state }) s at,
    count-append j (erase i g.busy_list) (i ∷ []),
    count-append j g.busy_list (i ∷ []),
    count-erase j i g.busy_list,
  )

  pub set_state_of-IsListed : (state : State) → IsListed (set_state_of g i s state)
  set_state_of-IsListed state = record {
    wait = set_state_of-wait state;
    busy = set_state_of-busy state;
  }

  -- A change of a service that leaves its state alone.
  pub put_service-IsListed : (s' : Service) → s'.state ≡ s.state → IsListed (put_service g i s')
  put_service-IsListed s' e = record {
    wait = λ j.
        ground (
          arith,
          v.wait j,
          ap (on_list on_wait) at,
          get_elem?-set g.table i j s' s at,
          ap on_wait e,
        );
    busy = λ j.
        ground (
          arith,
          v.busy j,
          ap (on_list on_busy) at,
          get_elem?-set g.table i j s' s at,
          ap on_busy e,
        );
  }

pub set_state-at :
    (g : Group) (i : ℕ) (s : Service) (state : State)
    → get_elem? g.table i ≡ some s
    → set_state g i state ≡ set_state_of g i s state
set_state-at g i s state at =
    let of_found : Option Service → Group =
      λ o. elim o [ none ↦ g | some s' ↦ set_state_of g i s' state ] in
    ap of_found at

pub set_state_of-at :
    (g : Group) (i : ℕ) (s : Service) (state : State)
    → get_elem? g.table i ≡ some s
    → get_elem? (set_state_of g i s state).table i ≡ some (record s { state = state })
unfolding set_state_of
set_state_of-at g i s state at =
    ground (arith, get_elem?-set g.table i i (record s { state = state }) s at)

module _ (g : Group) (i : ℕ) (s : Service) (at : get_elem? g.table i ≡ some s)
    (v : IsListed g) where
  pub pop_message-IsListed : IsListed (pop_message g i s)
  unfolding pop_message
  pop_message-IsListed = by_queue s.queue refl
    where
      by_queue : (q : List Record) → s.queue ≡ q → IsListed (pop_message g i s)
      by_queue [] e = rw (e, pop_message) (set_state_of-IsListed g i s at v idle)
      by_queue (r ∷ rest) e =
          rw (e, pop_message)
            (put_service-IsListed g i s at v (record s { cur_msg = some r; queue = rest }) refl)

  woken-IsListed :
      (state : State) (s' : Service)
      → s'.state ≡ state
      → IsListed (put_service (set_state_of g i s state) i s')
  woken-IsListed state s' e =
      put_service-IsListed (set_state_of g i s state) i (record s { state = state })
        (set_state_of-at g i s state at) (set_state_of-IsListed g i s at v state) s' e

  pub enqueue-IsListed : (r : Record) → IsListed (enqueue g i s r).1
  unfolding enqueue
  enqueue-IsListed r = by_state s.state refl
    where
      queued : Service
      queued = record s { queue = push_back s.queue r }

      by_state : (state : State) → s.state ≡ state → IsListed (enqueue g i s r).1
      by_state exit0 e = rw (e, enqueue) v
      by_state init2 e = rw (e, enqueue) (woken-IsListed init1 _ refl)
      by_state idle e = rw (e, enqueue) (woken-IsListed busy _ refl)
      by_state init0 e = rw (e, enqueue) (put_service-IsListed g i s at v queued refl)
      by_state init1 e = rw (e, enqueue) (put_service-IsListed g i s at v queued refl)
      by_state busy e = rw (e, enqueue) (put_service-IsListed g i s at v queued refl)
      by_state yield e = rw (e, enqueue) (put_service-IsListed g i s at v queued refl)
      by_state exit1 e = rw (e, enqueue) (put_service-IsListed g i s at v queued refl)

  pub resume_service-IsListed : IsListed (resume_service g i s).1
  unfolding resume_service
  resume_service-IsListed = by_state s.state refl
    where
      by_state : (state : State) → s.state ≡ state → IsListed (resume_service g i s).1
      by_state yield e = rw (e, resume_service) (set_state_of-IsListed g i s at v busy)
      by_state _ e = rw (e, resume_service) v

  pub finish_service_init-IsListed : IsListed (finish_service_init g i s)
  unfolding finish_service_init
  finish_service_init-IsListed = elim (Bool-cases (ltb 0 (length s.queue))) [
    | inl some_left ↦
        rw
          (
            some_left,
            set_state-at (set_state_of g i s idle) i (record s { state = idle }) busy
                (set_state_of-at g i s idle at),
          )
          (set_state_of-IsListed (set_state_of g i s idle) i (record s { state = idle })
            (set_state_of-at g i s idle at) idle_listed busy)
    | inr none_left ↦ rw none_left idle_listed
  ]
    where
      idle_listed : IsListed (set_state_of g i s idle)
      idle_listed = set_state_of-IsListed g i s at v idle
