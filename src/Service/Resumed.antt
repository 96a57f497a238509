-- ===== src/Service/Resumed.antt =====
-- What eaf_resume does on each of its branches.
use eaf.Prelude.{
  ℕ, ◌+◌, ◌≡◌, refl, sym, ap, subst, ◌∷◌, ◌∙◌, Bool, true, false, Option, none, some, if◌then◌else◌,
  get_elem?, arith,
}
use eaf.Prelude.Int.{ℤ}
use eaf.Errno
use eaf.Errno.{eq_int}
use eaf.Sequence.{push_back}
use eaf.Service.{
  State, init0, init1, init2, idle, busy, yield, exit0, exit1, Service, Group, Ctx, service_resume,
}
use eaf.Service.Locked.{set_state_of, resume_service}
use eaf.Service.Locked.Lists.{get_elem?-set, set_state_of-at}
use eaf.Service.Runtime.{
  M, pure, ◌>>=◌, ◌>>◌, get_group, get_service, with_group, group, service, put_group, post,
  find_service, has_hook, hook_void, hook_service_resume, record_call,
}
use eaf.Service.Keeps.{group-at, service-at}
use eaf.Service.Delivery.{set_same}
use eaf.Service.Send.{resume}

abbrev pub is_yield : State → Bool
is_yield yield = true
is_yield _ = false

-- The service is busy, after the other busy ones, and the semaphore of its group is posted.
abbrev pub IsResumed : ℕ → ℕ → Group → Service → Ctx → Type 0
IsResumed gi si g s c' =
    (g' : Group) × (get_group c' gi ≡ some g')
    × (get_elem? g'.table si ≡ some (record s { state = busy }))
    × (g'.busy_list ≡ push_back g.busy_list si)
    × (g'.sem ≡ g.sem + 1)

module _ (gi si : ℕ) (s : Service) (g : Group) (at' : get_elem? g.table si ≡ some s) where
  not_yielded : is_yield s.state ≡ false → resume_service g si s ≡ (Errno.state, g)
  unfolding resume_service
  not_yielded e = by_state s.state refl e
    where
      by_state :
          (state : State)
          → s.state ≡ state
          → is_yield state ≡ false
          → resume_service g si s ≡ (Errno.state, g)
      by_state yield is e' = cc
      by_state _ is e' = rw (is, resume_service) refl

  yielded :
      is_yield s.state ≡ true
      → (resume_service g si s ≡ (Errno.success, set_state_of g si s busy))
        × ((set_state_of g si s busy).busy_list ≡ push_back g.busy_list si)
        × ((set_state_of g si s busy).sem ≡ g.sem)
  unfolding resume_service set_state_of
  yielded e = by_state s.state refl e
    where
      by_state :
          (state : State)
          → s.state ≡ state
          → is_yield state ≡ true
          → (resume_service g si s ≡ (Errno.success, set_state_of g si s busy))
            × ((set_state_of g si s busy).busy_list ≡ push_back g.busy_list si)
            × ((set_state_of g si s busy).sem ≡ g.sem)
      by_state yield is e' = ((simp (is, resume_service) refl), (simp is refl), (simp is refl))
      by_state init0 is e' = cc
      by_state init1 is e' = cc
      by_state init2 is e' = cc
      by_state idle is e' = cc
      by_state busy is e' = cc
      by_state exit0 is e' = cc
      by_state exit1 is e' = cc

  -- The critical section and what follows it, at a context that has the group.
  after : ℤ × Group → M ℤ
  after resumed =
      put_group gi resumed.1
      >> (if eq_int resumed.0 Errno.success then post gi >> pure resumed.0 else pure resumed.0)

  section-refused :
      (c1 : Ctx)
      → get_group c1 gi ≡ some g
      → is_yield s.state ≡ false
      → after (resume_service g si s) c1 ≡ some (Errno.state, c1)
  unfolding after put_group
  section-refused c1 at e =
      ap (λ x. after x c1) (not_yielded e)
      ∙ ap (λ x. some (Errno.state, record c1 { groups = x })) (set_same c1.groups gi g at)

  section-IsResumed :
      (c1 : Ctx)
      → get_group c1 gi ≡ some g
      → is_yield s.state ≡ true
      → (c' : Ctx) × (after (resume_service g si s) c1 ≡ some (Errno.success, c'))
        × IsResumed gi si g s c'
  unfolding after put_group post
  section-IsResumed c1 at e =
      let (run, busy_now, sem_now) = yielded e in
      let g1 = set_state_of g si s busy in
      let c2 = with_group c1 gi g1 in
      let at2 : get_group c2 gi ≡ some g1 = ground (arith, get_elem?-set c1.groups gi gi g1 g at) in
      let g2 = record g1 { sem = g1.sem + 1 } in
      let at3 : get_group (with_group c2 gi g2) gi ≡ some g2 =
        ground (arith, get_elem?-set c2.groups gi gi g2 g1 at2) in
      (
        with_group c2 gi g2,
        ap (λ x. after x c1) run ∙ rw (◌>>◌, ◌>>=◌, group-at c2 gi g1 at2) refl,
        (g2, at3, set_state_of-at g si s busy at', busy_now, ap (λ x. x + 1) sem_now),
      )

-- eaf_resume of a service that the search finds always returns: a service in the state yield is
-- made busy, after the other busy services, and its group's semaphore is posted; in any other state
-- the call fails with eaf_errno_state and no group changes.
pub resume_lem :
    (c : Ctx) (id gi si : ℕ) (s : Service) (g : Group)
    → find_service id c ≡ some (gi, si)
    → get_group c gi ≡ some g
    → get_elem? g.table si ≡ some s
    → (ret : ℤ) × (c' : Ctx) × (resume id c ≡ some (ret, c'))
      × (if is_yield s.state
          then (ret ≡ Errno.success) × IsResumed gi si g s c'
          else (ret ≡ Errno.state) × (c'.groups ≡ c.groups))
unfolding resume hook_service_resume hook_void record_call after
resume_lem c id gi si s g found at at' =
    subst (Result (is_yield s.state)) (sym (ap looked found))
      (by_hook (has_hook (λ k. k.on_service_resume) c))
  where
    Result : Bool → Option (ℤ × Ctx) → Type 0
    Result is_yielded x =
        (ret : ℤ) × (c' : Ctx) × (x ≡ some (ret, c'))
        × (if is_yielded
            then (ret ≡ Errno.success) × IsResumed gi si g s c'
            else (ret ≡ Errno.state) × (c'.groups ≡ c.groups))

    locked : ℕ → ℕ → M ℤ
    locked gj sj = do
      h ← group gj
      t ← service gj sj
      let resumed = resume_service h sj t
      put_group gj resumed.1
      if eq_int resumed.0 Errno.success then post gj >> pure resumed.0 else pure resumed.0

    looked : Option (ℕ × ℕ) → Option (ℤ × Ctx)
    looked o =
        (elim o as (λ _. M ℤ) [
          | none ↦ pure Errno.notfound
          | some (gj, sj) ↦ hook_service_resume id >> locked gj sj
        ])
          c

    by_state :
        (c1 : Ctx)
        → get_group c1 gi ≡ some g
        → c1.groups ≡ c.groups
        → (b : Bool) → is_yield s.state ≡ b
        → Result b (after gi si s g at' (resume_service g si s) c1)
    by_state c1 at1 same true e =
        let (c', run, done) = section-IsResumed gi si s g at' c1 at1 e in
        (Errno.success, c', run, (refl, done))
    by_state c1 at1 same false e =
        (Errno.state, c1, section-refused gi si s g at' c1 at1 e, (refl, same))

    by_ctx :
        (c1 : Ctx)
        → get_group c1 gi ≡ some g
        → c1.groups ≡ c.groups
        → Result (is_yield s.state) (locked gi si c1)
    by_ctx c1 at1 same =
        let there : get_service c1 gi si ≡ some s = rw (get_service, at1) at' in
        let run : locked gi si c1 ≡ after gi si s g at' (resume_service g si s) c1 =
          rw (group-at c1 gi g at1, ◌>>=◌, service-at c1 gi si s there) refl in
        subst (Result (is_yield s.state)) (sym run) (by_state c1 at1 same (is_yield s.state) refl)

    by_hook :
        (b : Bool)
        → Result
            (is_yield s.state)
            (elim (if b then record_call (service_resume id) c else some (tt, c)) [
              | none ↦ none
              | some (a, c1) ↦ locked gi si c1
            ])
    by_hook true = by_ctx (record c { calls = service_resume id ∷ c.calls }) at refl
    by_hook false = by_ctx c at refl
