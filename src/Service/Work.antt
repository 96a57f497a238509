-- ===== src/Service/Work.antt =====
-- What a round of a group's thread keeps of every group: the handling of messages, the
-- initialisation of services, and the thread's loop.
pub mod Messages
pub mod Calls
use eaf.Prelude.{
  ℕ, ◌-◌, ◌≡◌, refl, sym, ltb, length, Bool-cases, inl, inr, ap, ◌∙◌, Bool, true, false, not,
  Option, none, some, List, [], ◌∷◌, ◌==◌, if◌then◌else◌, get_elem?, subst,
}
use eaf.Prelude.Int.{is_negative}
use eaf.Message
use eaf.Message.{Ptr, null, get_type, get_rsp_fn, req, rsp}
use eaf.Service.{
  State, init0, init1, init2, idle, busy, yield, exit0, exit1, Record, Service, Group, Ctx, User,
  Call, handler, on_init, yield_hook,
}
use eaf.Service.Locked
use eaf.Service.Locked.{set_state_of, finish_service_init, pop_message}
use eaf.Service.Locked.Lists.{
  IsListed, set_state-at, set_state_of-at, set_state_of-IsListed, put_service-IsListed,
  pop_message-IsListed, finish_service_init-IsListed,
}
use eaf.Service.Locked.Settled.{
  IsSettled, Calm, CalmService, set_state_of-IsSettled, put_service-IsSettled,
  pop_message-IsSettled, finish_service_init-IsSettled,
}
use eaf.Service.Runtime.{
  M, pure, fault, ◌>>=◌, ◌>>◌, or_fault, get_group, get_service, group, service, put_group,
  put_service, on_memory, hook_service_yield, hook_message_handle_after, hook_message_handle_before,
  hook_service_init_before, hook_service_init_after,
}
use eaf.Service.Keeps.{
  Keeps, Everywhere, Stays, Keeps-bind, Keeps-then, Keeps-pure, Keeps-if, Keeps-or_fault,
  Keeps-locked, Keeps-group, Keeps-service, Keeps-changed, Keeps-on_memory, Keeps-hook_void,
  Keeps-hook_int, some_eq, At, At-unique, Stays-then, Keeps-last_group, Keeps-last_locked,
  Keeps-last_changed, reads_service, reads_group, Keeps-put_group, Stays-if,
}
use eaf.Service.Stable.{IsStable, call_back-Keeps}
use eaf.Service.Invariant.{
  set_state_of-IsFree, IsSound, IsFree, IsSoundFree, stable-IsSound, stable-IsSoundFree,
}
use eaf.Service.Loop.{
  call_handler, call_yield_hook, set_state_lock, reset, resume_message, start_message,
  do_service_init, handle_new_message, thread_loop, set_cur_run, clear_cc0, check_cc0, cc0_yield,
  destroy_msg_record, is_busy, is_init1, call_back,
}
use eaf.Service.Work.Messages.{forgets, I, resume_message-Keeps, taken-Keeps}
use eaf.Service.Work.Calls.{call_handler-Keeps, call_yield_hook-Keeps, clear_cc0-Keeps}

module _ (gi si : ℕ) (u : User) where
  -- A busy service without a current message takes its next one.
  start_message-Keeps :
      (c : Ctx) (s0 : Service)
      → At c gi si s0
      → s0.state ≡ busy
      → s0.cur_msg ≡ none
      → I c
      → Stays I (start_message u gi si c)
  unfolding start_message
  start_message-Keeps c s0 at0 is_busy no_cur v = reads_group IsSound gi c _ λ g at.
      reads_service IsSound gi c si _ λ s h ht ht'.
        let same = At-unique c gi si s s0 (h, ht, ht') at0 in
        let at' = subst (λ x. get_elem? x.table si ≡ some s) (some_eq h g (sym ht ∙ at)) ht' in
        Keeps-put_group IsSound gi c g (pop_message g si s) _ at v
          (
            pop_message-IsListed g si s at' (v gi g at).0,
            pop_message-IsSettled g si s at' (v gi g at).1 (ap (λ x. x.state) same ∙ is_busy)
                (ap (λ x. x.cur_msg) same ∙ no_cur),
          )
          (taken-Keeps gi si u)

  abbrev runs : M (Unit {0})
  runs = service gi si >>= λ s'.
      if not (is_busy s'.state)
      then fault
      else elim s'.cur_msg [ some r ↦ resume_message u gi si | none ↦ start_message u gi si ]

  -- The service is busy: a message under way is resumed, or the next one taken.
  runs-Keeps : Keeps I runs
  runs-Keeps c v =
      reads_service IsSound gi c si _ λ s g at at'. by_state s (g, at, at') s.state refl
    where
      by_cur :
          (s : Service) (at : At c gi si s) (o : Option Record)
          → s.state ≡ busy
          → s.cur_msg ≡ o
          → Stays I (
              elim o as (λ _. M (Unit {0})) [
                | some r ↦ resume_message u gi si
                | none ↦ start_message u gi si
              ]
                c)
      by_cur s at none b e = start_message-Keeps c s at b e v
      by_cur s at (some r) b e = resume_message-Keeps gi si u c v

      Ran : Service → State → Type 0
      Ran s state = Stays I (
          (if not (is_busy state) then fault else elim s.cur_msg [
            | some r ↦ resume_message u gi si
            | none ↦ start_message u gi si
          ])
            c)

      by_state : (s : Service) (at : At c gi si s) (state : State) → s.state ≡ state → Ran s state
      by_state s at busy b = by_cur s at s.cur_msg b refl
      by_state s at init0 b = tt
      by_state s at init1 b = tt
      by_state s at init2 b = tt
      by_state s at idle b = tt
      by_state s at yield b = tt
      by_state s at exit0 b = tt
      by_state s at exit1 b = tt

  abbrev J : Ctx → Type 0
  J = Everywhere (IsSoundFree gi si)

  finish_service_init-IsFree :
      (g : Group) (s : Service)
      → get_elem? g.table si ≡ some s
      → IsFree gi si gi g
      → IsFree gi si gi (finish_service_init g si s)
  unfolding finish_service_init
  finish_service_init-IsFree g s at v = elim (Bool-cases (ltb 0 (length s.queue))) [
    | inl some_left ↦
        rw (some_left, set_state-at still_idle si (record s { state = idle }) busy now)
          (set_state_of-IsFree still_idle si (record s { state = idle }) now gi si gi busy
            idle_free)
    | inr none_left ↦ rw none_left idle_free
  ]
    where
      still_idle : Group
      still_idle = set_state_of g si s idle

      now : get_elem? still_idle.table si ≡ some (record s { state = idle })
      now = set_state_of-at g si s idle at

      idle_free : IsFree gi si gi still_idle
      idle_free = set_state_of-IsFree g si s at gi si gi idle v

  -- The service that is initialised has no message, so it is idle, or busy if one has come.
  do_service_init-Keeps : Keeps J (do_service_init u gi si)
  unfolding do_service_init hook_service_init_before hook_service_init_after
  do_service_init-Keeps = Keeps-then J (clear_cc0 gi) _ (clear_cc0-Keeps P stable u gi) (
      Keeps-service P gi si _ λ s.
        Keeps-then J (hook_service_init_before s.id) _ (Keeps-hook_void P _ _) (
          Keeps-bind J (or_fault s.entry) _ (Keeps-or_fault J s.entry) λ entry.
            Keeps-then J (call_back u gi (on_init entry.on_init)) _
              (call_back-Keeps P stable u gi (on_init entry.on_init))
              (Keeps-group P gi _ λ g.
                Keeps-if J (check_cc0 g cc0_yield) fault _ (λ c v. tt)
                  (Keeps-changed P gi si (λ s'. record s' { branch = 0 }) _
                    (λ g' s' at p. stable.branched gi si g' s' 0 at p)
                    λ s'. Keeps-then J (hook_service_init_after s.id) _ (Keeps-hook_void P _ _) (
                      Keeps-last_locked P gi si (λ g'' s''. finish_service_init g'' si s'')
                        finished)))))
    where
      P : ℕ → Group → Type 0
      P = IsSoundFree gi si

      stable : IsStable P
      stable = stable-IsSoundFree gi si

      finished :
          (g : Group) (s : Service)
          → get_elem? g.table si ≡ some s
          → P gi g
          → P gi (finish_service_init g si s)
      finished g s at p = (
        (
          finish_service_init-IsListed g si s at p.0.0,
          finish_service_init-IsSettled g si s at p.0.1 (p.1 refl s at),
        ),
        finish_service_init-IsFree g s at p.1,
      )

  weakens : {A : Type 0} (r : Option (A × Ctx)) → Stays J r → Stays I r
  weakens none v = tt
  weakens (some (a, c)) v = λ gj g e. (v gj g e).0

  -- A service in state init1 is initialised.
  pub initialises-Keeps :
      (c : Ctx) (g : Group) (s : Service)
      → I c
      → get_group c gi ≡ some g
      → get_elem? g.table si ≡ some s
      → s.state ≡ init1
      → Stays I (do_service_init u gi si c)
  initialises-Keeps c g s v at at' e =
      weakens (do_service_init u gi si c)
        (do_service_init-Keeps c λ gj h ht. (v gj h ht, free gj h ht))
    where
      no_cur : s.cur_msg ≡ none
      no_cur = subst (λ x. Calm x s.queue s.cur_msg) e ((v gi g at).1 si s at')

      free : (gj : ℕ) (h : Group) → get_group c gj ≡ some h → IsFree gi si gj h
      free gj h ht same t here =
          ap (λ x. x.cur_msg)
            (At-unique c gi si t s (h, subst (λ x. get_group c x ≡ some h) same ht, here)
              (g, at, at'))
          ∙ no_cur

  pub handle_new_message-Keeps : Keeps I (handle_new_message u gi si)
  unfolding handle_new_message
  handle_new_message-Keeps c v = reads_service IsSound gi c si _ λ s g at at'.
      Stays-then I (if is_init1 s.state then do_service_init u gi si else pure tt) runs c
        (initialised s g at at' s.state refl) runs-Keeps
    where
      initialised :
          (s : Service) (g : Group)
          → get_group c gi ≡ some g
          → get_elem? g.table si ≡ some s
          → (state : State) → s.state ≡ state
          → Stays I ((if is_init1 state then do_service_init u gi si else pure tt) c)
      initialised s g at at' init1 e = initialises-Keeps c g s v at at' e
      initialised s g at at' _ e = v
