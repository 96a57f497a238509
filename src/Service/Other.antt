-- ===== src/Service/Other.antt =====
-- What the thread of a group keeps of the other groups: a property that the API keeps, and that says
-- nothing of the thread's own group.
use eaf.Prelude.{
  ℕ, zero, suc, ◌+◌, ◌-◌, not, Bool, true, false, ◌≡◌, refl, sym, ap, subst, set, get_elem?,
  Option-cases, inl, inr, Option, none, some, List, [], ◌∷◌, ◌==◌, if◌then◌else◌, length, ltb,
}
use eaf.Prelude.Int.{pos, is_negative}
use eaf.Errno
use eaf.Message
use eaf.Message.{get_type, req, rsp, create_rsp, set_receipt, dec_ref, null}
use eaf.Service.{
  State, exit0, exit1, yield, Record, Service, Group, Ctx, User, Entry, on_init, on_exit,
}
use eaf.Service.Locked
use eaf.Service.Locked.{set_state_of, pop_message, finish_service_init}
use eaf.Service.Runtime
use eaf.Service.Runtime.{
  M, pure, fault, ◌>>=◌, ◌>>◌, context, or_fault, on_memory, malloc, group, service, put_group,
  hook_message_handle_before, hook_message_handle_after, hook_service_yield,
  hook_service_init_before, hook_service_init_after, hook_service_exit_before,
  hook_service_exit_after,
}
use eaf.Service.Keeps.{
  Keeps, Everywhere, Keeps-bind, Keeps-then, Keeps-pure, Keeps-if, Keeps-or_fault, Keeps-locked,
  Keeps-group, Keeps-service, Keeps-changed, Keeps-on_memory, Keeps-malloc, Keeps-hook_void,
  Keeps-hook_int, Keeps-last_group, Keeps-last_locked, Keeps-last_changed, Everywhere-with,
}
use eaf.Service.Stable.{IsStable, call_back-Keeps, send_rsp-Keeps}
use eaf.Service.Send.{send_rsp, is_running}
use eaf.Service.Work.Calls.{call_handler-Keeps, call_yield_hook-Keeps, clear_cc0-Keeps}
use eaf.Service.Loop.{
  clear_cc0, set_cur_run, set_state_lock, reset, destroy_msg_record, is_init1, is_busy,
  call_handler, call_yield_hook, call_back, check_cc0, cc0_yield, resume_message, do_service_init,
  start_message, handle_new_message, thread_loop, pend, first_busy,
}
use eaf.Service.Thread.{
  change_msg, teardown_message, teardown_queue, teardown_cleanup_msgq, teardown_services,
  service_teardown, exit_services, group_exit, init_from, group_init_necessary, thread_start,
  exits_no_more,
}

set-outside {ℓ} :
    {A : Type ℓ} (xs : List A) (i : ℕ) (v : A) → get_elem? xs i ≡ none → set xs i v ≡ xs
set-outside [] i v e = refl
set-outside (x ∷ xs) zero v e = cc
set-outside (x ∷ xs) (suc i) v e = ap (λ t. x ∷ t) (set-outside xs i v e)

module _ (P : ℕ → Group → Type 0) (stable : IsStable P) (u : User) (gi : ℕ)
    (free : (g : Group) → P gi g) where
  abbrev I : Ctx → Type 0
  I = Everywhere P

  put_group-Keeps : (g : Group) → Keeps I (put_group gi g)
  unfolding put_group
  put_group-Keeps g c v = elim (Option-cases (Runtime.get_group c gi)) [
    | inl outside ↦
        subst (λ gs. I (record c { groups = gs })) (sym (set-outside c.groups gi g outside)) v
    | inr (g0, at) ↦ Everywhere-with P c gi g0 g at v (free g)
  ]

  set_cur_run-Keeps : (si : ℕ) → Keeps I (set_cur_run gi si)
  unfolding set_cur_run
  set_cur_run-Keeps si = Keeps-last_group P gi (λ g. record g { cur_run = some si }) (λ g p. free _)

  state_lock-Keeps : (si : ℕ) (state : State) → Keeps I (set_state_lock gi si state)
  unfolding set_state_lock
  state_lock-Keeps si state =
      Keeps-last_locked P gi si (λ g s. set_state_of g si s state) (λ g s at p. free _)

  module _ (si : ℕ) where
    put_service-Keeps : (s : Service) → Keeps I (Runtime.put_service gi si s)
    unfolding Runtime.put_service put_group
    put_service-Keeps s = Keeps-last_group P gi (λ g. Locked.put_service g si s) (λ g p. free _)

    reset-Keeps : Keeps I (reset gi si)
    unfolding reset destroy_msg_record
    reset-Keeps =
        Keeps-changed P gi si (λ s. record s { branch = 0 }) _ (λ g s at p. free _)
          λ s. Keeps-bind I (or_fault s.cur_msg) _ (Keeps-or_fault I s.cur_msg) λ r.
            Keeps-then I (on_memory (dec_ref r.msg)) _ (Keeps-on_memory P (dec_ref r.msg)) (
              Keeps-last_changed P gi si (λ s'. record s' { cur_msg = none }) (λ g s' at p. free _))

    resume_message-Keeps : Keeps I (resume_message u gi si)
    unfolding resume_message hook_message_handle_after hook_service_yield
    resume_message-Keeps = Keeps-service P gi si _ λ s.
        Keeps-bind I (or_fault s.cur_msg) _ (Keeps-or_fault I s.cur_msg) λ r.
          Keeps-then I (call_handler u gi r) _ (call_handler-Keeps P stable u gi r) (
            Keeps-group P gi _ λ g.
              Keeps-if I (check_cc0 g cc0_yield) _ _
                (Keeps-then I (set_state_lock gi si yield) _ (state_lock-Keeps si yield) (
                  Keeps-then I (call_yield_hook u gi) _ (call_yield_hook-Keeps P stable u gi)
                    (Keeps-hook_void P _ _)))
                (Keeps-then I (hook_message_handle_after r.from r.to r.msg) (reset gi si)
                  (Keeps-hook_void P _ _) reset-Keeps))

    do_service_init-Keeps : Keeps I (do_service_init u gi si)
    unfolding do_service_init hook_service_init_before hook_service_init_after
    do_service_init-Keeps = Keeps-then I (clear_cc0 gi) _ (clear_cc0-Keeps P stable u gi) (
        Keeps-service P gi si _ λ s.
          Keeps-then I (hook_service_init_before s.id) _ (Keeps-hook_void P _ _) (
            Keeps-bind I (or_fault s.entry) _ (Keeps-or_fault I s.entry) λ entry.
              Keeps-then I (call_back u gi (on_init entry.on_init)) _
                (call_back-Keeps P stable u gi (on_init entry.on_init))
                (Keeps-group P gi _ λ g.
                  Keeps-if I (check_cc0 g cc0_yield) fault _ (λ c v. tt)
                    (Keeps-changed P gi si (λ s'. record s' { branch = 0 }) _ (λ g' s' at p. free _)
                      λ s'. Keeps-then I (hook_service_init_after s.id) _ (Keeps-hook_void P _ _) (
                        Keeps-last_locked P gi si (λ g'' s''. finish_service_init g'' si s'')
                          (λ g'' s'' at p. free _))))))

    start_message-Keeps : Keeps I (start_message u gi si)
    unfolding start_message hook_message_handle_before
    start_message-Keeps =
        Keeps-locked P gi si (λ g s. pop_message g si s) _ (λ g s at p. free _)
          λ g s. Keeps-service P gi si _ λ s'. by_cur s'.cur_msg
      where
        by_cur :
            (o : Option Record)
            → Keeps I (elim o [
              | none ↦ pure tt
              | some r ↦ (do
                ret ← hook_message_handle_before u r.from r.to r.msg
                if is_negative ret then reset gi si else resume_message u gi si)
            ])
        by_cur none = Keeps-pure I tt
        by_cur (some r) =
            Keeps-bind I (hook_message_handle_before u r.from r.to r.msg) _ (Keeps-hook_int P u _ _)
              λ ret. Keeps-if I (is_negative ret) _ _ reset-Keeps resume_message-Keeps

    handle_new_message-Keeps : Keeps I (handle_new_message u gi si)
    unfolding handle_new_message
    handle_new_message-Keeps = Keeps-service P gi si _ λ s.
        Keeps-then I _ _
          (Keeps-if I (is_init1 s.state) _ (pure tt) do_service_init-Keeps (Keeps-pure I tt))
          (Keeps-service P gi si _
            λ s'. Keeps-if I (not (is_busy s'.state)) fault _ (λ c v. tt) (by_cur s'.cur_msg))
      where
        by_cur :
            (o : Option Record)
            → Keeps I (elim o as (λ _. M (Unit {0})) [
              | some r ↦ resume_message u gi si
              | none ↦ start_message u gi si
            ])
        by_cur none = start_message-Keeps
        by_cur (some r) = resume_message-Keeps

    teardown_message-Keeps : (r : Record) → Keeps I (teardown_message u gi si r)
    unfolding teardown_message destroy_msg_record
    teardown_message-Keeps r =
        Keeps-bind I (on_memory (Message.load r.msg)) _ (Keeps-on_memory P (Message.load r.msg))
          λ m.
            Keeps-then I _ (on_memory (dec_ref r.msg)) (by_type (get_type m))
              (Keeps-on_memory P (dec_ref r.msg))
      where
        by_type :
            (t : Message.MsgType)
            → Keeps I (elim t [
              | rsp ↦ pure tt
              | req ↦ (do
                block ← malloc
                answer ← on_memory (create_rsp block (pos 0) r.msg 0)
                if answer == null then fault else (do
                  on_memory (change_msg answer (λ a. set_receipt a Errno.state))
                  s ← service gi si
                  _ ← send_rsp u s.id r.from answer
                  on_memory (dec_ref answer)))
            ])
        by_type rsp = Keeps-pure I tt
        by_type req = Keeps-bind I malloc _ (Keeps-malloc P) λ block.
            Keeps-bind I (on_memory (create_rsp block (pos 0) r.msg 0)) _
              (Keeps-on_memory P (create_rsp block (pos 0) r.msg 0))
              λ answer.
                Keeps-if I (answer == null) fault _ (λ c v. tt)
                  (Keeps-then I (on_memory (change_msg answer (λ a. set_receipt a Errno.state))) _
                    (Keeps-on_memory P (change_msg answer (λ a. set_receipt a Errno.state)))
                    (Keeps-service P gi si _ λ s.
                      Keeps-bind I (send_rsp u s.id r.from answer) _
                        (send_rsp-Keeps P stable u s.id r.from answer)
                        λ ret. Keeps-on_memory P (dec_ref answer)))

    teardown_queue-Keeps : (n : ℕ) → Keeps I (teardown_queue u n gi si)
    unfolding teardown_queue
    teardown_queue-Keeps zero = Keeps-service P gi si _ λ s. by_queue s.queue
      where
        by_queue :
            (q : List Record)
            → Keeps I (elim q as (λ _. M Bool) [ [] ↦ pure true | r ∷ rest ↦ pure false ])
        by_queue [] = Keeps-pure I true
        by_queue (r ∷ rest) = Keeps-pure I false
    teardown_queue-Keeps (suc n) =
        Keeps-service P gi si _ λ s. by_queue s s.queue (teardown_queue-Keeps n)
      where
        by_queue :
            (s : Service) (q : List Record)
            → Keeps I (teardown_queue u n gi si)
            → Keeps I (elim q as (λ _. M Bool) [
              | [] ↦ pure true
              | r ∷ rest ↦ (do
                Runtime.put_service gi si (record s { queue = rest })
                teardown_message u gi si r
                teardown_queue u n gi si)
            ])
        by_queue s [] later = Keeps-pure I true
        by_queue s (r ∷ rest) later =
            Keeps-then I _ _ (put_service-Keeps (record s { queue = rest }))
              (Keeps-then I (teardown_message u gi si r) _ (teardown_message-Keeps r) later)

    teardown_cleanup_msgq-Keeps : Keeps I (teardown_cleanup_msgq u gi si)
    unfolding teardown_cleanup_msgq
    teardown_cleanup_msgq-Keeps = Keeps-service P gi si _ λ s. Keeps-then I _ _ (by_cur s.cur_msg) (
        Keeps-service P gi si _ λ s''.
          Keeps-bind I (teardown_queue u (length s''.queue) gi si) _
            (teardown_queue-Keeps (length s''.queue))
            λ ended. Keeps-if I ended (pure tt) fault (Keeps-pure I tt) (λ c v. tt))
      where
        by_cur :
            (o : Option Record)
            → Keeps I (elim o as (λ _. M (Unit {0})) [
              | none ↦ pure tt
              | some r ↦ (do
                teardown_message u gi si r
                s' ← service gi si
                Runtime.put_service gi si (record s' { cur_msg = none }))
            ])
        by_cur none = Keeps-pure I tt
        by_cur (some r) =
            Keeps-then I (teardown_message u gi si r) _ (teardown_message-Keeps r) (
              Keeps-last_changed P gi si (λ s'. record s' { cur_msg = none }) (λ g s' at p. free _))

    -- A service that the teardown does not spare.
    ends-Keeps :
        (o : Option Entry)
        → Keeps I (elim o as (λ _. M (Unit {0})) [
          | none ↦ pure tt
          | some entry ↦ (do
            set_state_lock gi si exit0
            call_back u gi (on_exit entry.on_exit)
            teardown_cleanup_msgq u gi si
            set_state_lock gi si exit1)
        ])
    ends-Keeps none = Keeps-pure I tt
    ends-Keeps (some entry) =
        Keeps-then I (set_state_lock gi si exit0) _ (state_lock-Keeps si exit0) (
          Keeps-then I (call_back u gi (on_exit entry.on_exit)) _
            (call_back-Keeps P stable u gi (on_exit entry.on_exit))
            (Keeps-then I (teardown_cleanup_msgq u gi si) _ teardown_cleanup_msgq-Keeps
              (state_lock-Keeps si exit1)))

  pub pend-Keeps : Keeps I (pend gi)
  unfolding pend
  pend-Keeps = Keeps-group P gi _ λ g. Keeps-if I (g.sem == 0) (pure false) _ (Keeps-pure I false) (
      Keeps-then I (put_group gi (record g { sem = g.sem - 1 })) (pure true) (put_group-Keeps _)
        (Keeps-pure I true))

  pub thread_loop-Keeps : Keeps I (thread_loop u gi)
  unfolding thread_loop
  thread_loop-Keeps = Keeps-group P gi _ λ g. by_busy g (first_busy g)
    where
      by_busy :
          (g : Group) (o : Option ℕ)
          → Keeps I (elim o as (λ _. M Bool) [
            | none ↦ pend gi
            | some si ↦ (do
              put_group gi (record g { sem = g.sem - 1 })
              set_cur_run gi si
              clear_cc0 gi
              handle_new_message u gi si
              pure true)
          ])
      by_busy g none = pend-Keeps
      by_busy g (some si) =
          Keeps-then I (put_group gi (record g { sem = g.sem - 1 })) _ (put_group-Keeps _) (
            Keeps-then I (set_cur_run gi si) _ (set_cur_run-Keeps si) (
              Keeps-then I (clear_cc0 gi) _ (clear_cc0-Keeps P stable u gi) (
                Keeps-then I (handle_new_message u gi si) (pure true) (handle_new_message-Keeps si)
                  (Keeps-pure I true))))

  init_from-Keeps : (n i counter : ℕ) → Keeps I (init_from u n i gi counter)
  unfolding init_from
  init_from-Keeps zero i counter = Keeps-pure I counter
  init_from-Keeps (suc n) i counter = Keeps-then I (set_cur_run gi i) _ (set_cur_run-Keeps i) (
      Keeps-service P gi i _ λ s.
        Keeps-if I (not (is_init1 s.state)) _ _ (init_from-Keeps n (suc i) counter) (
          Keeps-then I (do_service_init u gi i) _ (do_service_init-Keeps i)
            (init_from-Keeps n (suc i) (counter + 1))))

  pub thread_start-Keeps : Keeps I (thread_start u gi)
  unfolding thread_start group_init_necessary
  thread_start-Keeps c v =
      Keeps-if I (not (is_running c.state)) _ _ (Keeps-pure I false)
        (Keeps-bind I (group gi >>= λ g. init_from u (length g.table) 0 gi 0) _
          (Keeps-group P gi _ λ g. init_from-Keeps (length g.table) 0 0) (λ count c' v'. v'))
        c v

  teardown_services-Keeps : (n i : ℕ) → Keeps I (teardown_services u n i gi)
  unfolding teardown_services
  teardown_services-Keeps zero i = Keeps-pure I tt
  teardown_services-Keeps (suc n) i = Keeps-service P gi i _ λ s.
      Keeps-then I _ (teardown_services u n (suc i) gi)
        (Keeps-if I s.alive (pure tt) _ (Keeps-pure I tt) (ends-Keeps i s.entry))
        (teardown_services-Keeps n (suc i))

  pub service_teardown-Keeps : Keeps I (service_teardown u gi)
  unfolding service_teardown
  service_teardown-Keeps = Keeps-group P gi _ λ g. teardown_services-Keeps (length g.table) 0

  exit_services-Keeps : (n : ℕ) → Keeps I (exit_services u n gi)
  unfolding exit_services hook_service_exit_before hook_service_exit_after
  exit_services-Keeps zero = Keeps-pure I tt
  exit_services-Keeps (suc i) = Keeps-service P gi i _ λ s.
      Keeps-then I _ (exit_services u i gi)
        (Keeps-if I (exits_no_more s) (pure tt) _ (Keeps-pure I tt) (
          Keeps-bind I (or_fault s.entry) _ (Keeps-or_fault I s.entry) λ entry.
            Keeps-then I (set_cur_run gi i) _ (set_cur_run-Keeps i) (
              Keeps-then I (set_state_lock gi i exit0) _ (state_lock-Keeps i exit0) (
                Keeps-then I (hook_service_exit_before s.id) _ (Keeps-hook_void P _ _) (
                  Keeps-then I (call_back u gi (on_exit entry.on_exit)) _
                    (call_back-Keeps P stable u gi (on_exit entry.on_exit))
                    (Keeps-then I (hook_service_exit_after s.id) _ (Keeps-hook_void P _ _)
                      (state_lock-Keeps i exit1)))))))
        (exit_services-Keeps i)

  pub group_exit-Keeps : (max_idx : ℕ) → Keeps I (group_exit u gi max_idx)
  unfolding group_exit
  group_exit-Keeps max_idx =
      Keeps-group P gi _
        λ g. exit_services-Keeps (if ltb (length g.table) max_idx then length g.table else max_idx)
