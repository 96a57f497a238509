-- ===== src/Service/Ending.antt =====
-- What a group's thread keeps of every group outside its event loop: when it starts, tears services
-- down and exits them.
use eaf.Prelude.{
  ℕ, zero, suc, ◌+◌, ◌≡◌, refl, not, Bool, true, false, Option, none, some, List, [], ◌∷◌, ◌==◌,
  ltb, length, if◌then◌else◌, get_elem?, subst,
}
use eaf.Prelude.Int.{pos}
use eaf.Errno
use eaf.Message
use eaf.Message.{Ptr, null, get_type, req, rsp, create_rsp, set_receipt, dec_ref}
use eaf.Service.{
  State, init0, init1, init2, idle, busy, yield, exit0, exit1, Record, Service, Group, Ctx, User,
  Entry, on_exit,
}
use eaf.Service.Locked.{set_state_of}
use eaf.Service.Locked.Lists.{same_lists, set_state_of-IsListed, put_service-IsListed}
use eaf.Service.Locked.Settled.{Calm, set_state_of-IsSettled, put_service-IsSettled}
use eaf.Service.Runtime
use eaf.Service.Runtime.{
  M, pure, fault, ◌>>=◌, ◌>>◌, context, modify, or_fault, on_memory, malloc, group, service,
  hook_service_exit_before, hook_service_exit_after,
}
use eaf.Service.Keeps.{
  Keeps, Everywhere, Stays, Keeps-bind, Keeps-then, Keeps-pure, Keeps-if, Keeps-or_fault,
  Keeps-group, Keeps-service, Keeps-on_memory, Keeps-malloc, Keeps-hook_void, Keeps-last_group,
  Keeps-last_locked, Keeps-last_changed, reads_service, Keeps-put_service, Stays-then, Stays-if_at,
}
use eaf.Service.Stable.{call_back-Keeps, send_rsp-Keeps}
use eaf.Service.Invariant.{IsSound, stable-IsSound}
use eaf.Service.Work.Messages.{forgets}
use eaf.Service.Work.{initialises-Keeps}
use eaf.Service.Send.{send_rsp, is_running}
use eaf.Service.Loop.{
  set_cur_run, set_state_lock, destroy_msg_record, call_back, do_service_init, is_init1,
}
use eaf.Service.Thread.{
  change_msg, teardown_message, teardown_queue, teardown_cleanup_msgq, teardown_services,
  service_teardown, exit_services, group_exit, init_from, group_init_necessary, thread_start,
  exits_no_more,
}

abbrev I : Ctx → Type 0
I = Everywhere IsSound

pub set_cur_run-Keeps : (gi si : ℕ) → Keeps I (set_cur_run gi si)
unfolding set_cur_run
set_cur_run-Keeps gi si =
    Keeps-last_group IsSound gi (λ g. record g { cur_run = some si })
      λ g p. (same_lists g (record g { cur_run = some si }) refl refl refl p.0, p.1)

-- What comes of one service at the start of its group.
start_service :
    (u : User) (gi i : ℕ) (later later' : M ℕ) (s : Service) (g : Group) (c : Ctx)
    → Keeps I later
    → Keeps I later'
    → I c
    → Runtime.get_group c gi ≡ some g
    → get_elem? g.table i ≡ some s
    → (state : State) → s.state ≡ state
    → Stays I ((if not (is_init1 state) then later else (do_service_init u gi i >> later')) c)
start_service u gi i later later' s g c k k' v at at' init1 e =
    Stays-then I (do_service_init u gi i) later' c (initialises-Keeps gi i u c g s v at at' e) k'
start_service u gi i later later' s g c k k' v at at' _ e = k c v

init_from-Keeps : (u : User) (n i gi counter : ℕ) → Keeps I (init_from u n i gi counter)
unfolding init_from
init_from-Keeps u zero i gi counter = Keeps-pure I counter
init_from-Keeps u (suc n) i gi counter =
    Keeps-then I (set_cur_run gi i) _ (set_cur_run-Keeps gi i) λ c v.
      reads_service IsSound gi c i _ λ s g at at'.
        start_service u gi i (init_from u n (suc i) gi counter)
          (init_from u n (suc i) gi (counter + 1)) s g c (init_from-Keeps u n (suc i) gi counter)
          (init_from-Keeps u n (suc i) gi (counter + 1)) v at at' s.state refl

pub thread_start-Keeps : (u : User) (gi : ℕ) → Keeps I (thread_start u gi)
unfolding thread_start group_init_necessary
thread_start-Keeps u gi c v = Stays-if_at I c (not (is_running c.state)) _ _ v (
    Keeps-bind I (group gi >>= λ g. init_from u (length g.table) 0 gi 0) _
      (Keeps-group IsSound gi _ λ g. init_from-Keeps u (length g.table) 0 gi 0) (λ count c' v'. v')
      c v)

state_lock-Keeps :
    (gi si : ℕ) (state : State)
    → ((queue : List Record) (cur : Option Record) → Calm state queue cur)
    → Keeps I (set_state_lock gi si state)
unfolding set_state_lock
state_lock-Keeps gi si state calm =
    Keeps-last_locked IsSound gi si (λ g s. set_state_of g si s state)
      λ g s at p. (
        set_state_of-IsListed g si s at p.0 state,
        set_state_of-IsSettled g si s at p.1 state (calm s.queue s.cur_msg),
      )

module _ (u : User) (gi si : ℕ) where
  teardown_message-Keeps : (r : Record) → Keeps I (teardown_message u gi si r)
  unfolding teardown_message destroy_msg_record
  teardown_message-Keeps r =
      Keeps-bind I (on_memory (Message.load r.msg)) _ (Keeps-on_memory IsSound (Message.load r.msg))
        λ m.
          Keeps-then I _ (on_memory (dec_ref r.msg)) (by_type (get_type m))
            (Keeps-on_memory IsSound (dec_ref r.msg))
    where
      by_type :
          (t : Message.MsgType)
          → Keeps I (elim t [
            | rsp ↦ pure tt
            | req ↦ (do
              block ← malloc
              answer ← on_memory (create_rsp block (pos 0) r.msg 0)
              if answer == null then fault else (do
                on_memory (change_msg answer (λ a. set_receipt a Errno.state))
                s ← service gi si
                _ ← send_rsp u s.id r.from answer
                on_memory (dec_ref answer)))
          ])
      by_type rsp = Keeps-pure I tt
      by_type req = Keeps-bind I malloc _ (Keeps-malloc IsSound) λ block.
          Keeps-bind I (on_memory (create_rsp block (pos 0) r.msg 0)) _
            (Keeps-on_memory IsSound (create_rsp block (pos 0) r.msg 0))
            λ answer.
              Keeps-if I (answer == null) fault _ (λ c v. tt)
                (Keeps-then I (on_memory (change_msg answer (λ a. set_receipt a Errno.state))) _
                  (Keeps-on_memory IsSound (change_msg answer (λ a. set_receipt a Errno.state)))
                  (Keeps-service IsSound gi si _ λ s.
                    Keeps-bind I (send_rsp u s.id r.from answer) _
                      (send_rsp-Keeps IsSound stable-IsSound u s.id r.from answer)
                      λ ret. Keeps-on_memory IsSound (dec_ref answer)))

  -- What is left of a queue that was not empty.
  drops :
      (state : State) (r : Record) (rest : List Record) (cur : Option Record)
      → Calm state (r ∷ rest) cur
      → Calm state rest cur
  drops init0 r rest cur v = v
  drops init1 r rest cur v = v
  drops init2 r rest cur v = absurd (cc v.0)
  drops idle r rest cur v = absurd (cc v.0)
  drops busy r rest cur v = tt
  drops yield r rest cur v = tt
  drops exit0 r rest cur v = tt
  drops exit1 r rest cur v = tt

  -- One round of the loop over the queue.
  teardown_round :
      (s : Service) (g : Group) (later : M Bool) (c : Ctx)
      → Keeps I later
      → I c
      → Runtime.get_group c gi ≡ some g
      → get_elem? g.table si ≡ some s
      → (q : List Record) → s.queue ≡ q
      → Stays I (
          (elim q as (λ _. M Bool) [
            | [] ↦ pure true
            | r ∷ rest ↦ (do
              Runtime.put_service gi si (record s { queue = rest })
              teardown_message u gi si r
              later)
          ])
            c)
  teardown_round s g later c k v at at' [] e = v
  teardown_round s g later c k v at at' (r ∷ rest) e =
      Keeps-put_service IsSound gi c si s (record s { queue = rest }) g _ at v
        (
          put_service-IsListed g si s at' (v gi g at).0 (record s { queue = rest }) refl,
          put_service-IsSettled g si s (record s { queue = rest }) at' (v gi g at).1
              (drops s.state r rest s.cur_msg
                (subst (λ x. Calm s.state x s.cur_msg) e ((v gi g at).1 si s at'))),
        )
        (Keeps-then I (teardown_message u gi si r) later (teardown_message-Keeps r) k)

  teardown_queue-Keeps : (n : ℕ) → Keeps I (teardown_queue u n gi si)
  unfolding teardown_queue
  teardown_queue-Keeps zero = Keeps-service IsSound gi si _ λ s. by_queue s.queue
    where
      by_queue :
          (q : List Record)
          → Keeps I (elim q as (λ _. M Bool) [ [] ↦ pure true | r ∷ rest ↦ pure false ])
      by_queue [] = Keeps-pure I true
      by_queue (r ∷ rest) = Keeps-pure I false
  teardown_queue-Keeps (suc n) = λ c v. reads_service IsSound gi c si _ λ s g at at'.
      teardown_round s g (teardown_queue u n gi si) c (teardown_queue-Keeps n) v at at' s.queue refl

  teardown_cleanup_msgq-Keeps : Keeps I (teardown_cleanup_msgq u gi si)
  unfolding teardown_cleanup_msgq
  teardown_cleanup_msgq-Keeps = Keeps-service IsSound gi si _ λ s.
      Keeps-then I _ _ (by_cur s.cur_msg) (
        Keeps-service IsSound gi si _ λ s''.
          Keeps-bind I (teardown_queue u (length s''.queue) gi si) _
            (teardown_queue-Keeps (length s''.queue))
            λ ended. Keeps-if I ended (pure tt) fault (Keeps-pure I tt) (λ c v. tt))
    where
      by_cur :
          (o : Option Record)
          → Keeps I (elim o as (λ _. M (Unit {0})) [
            | none ↦ pure tt
            | some r ↦ (do
              teardown_message u gi si r
              s' ← service gi si
              Runtime.put_service gi si (record s' { cur_msg = none }))
          ])
      by_cur none = Keeps-pure I tt
      by_cur (some r) = Keeps-then I (teardown_message u gi si r) _ (teardown_message-Keeps r) (
          Keeps-last_changed IsSound gi si (λ s'. record s' { cur_msg = none })
            λ g s' at p. (
              put_service-IsListed g si s' at p.0 (record s' { cur_msg = none }) refl,
              put_service-IsSettled g si s' (record s' { cur_msg = none }) at p.1
                  (forgets s'.state s'.queue s'.cur_msg (p.1 si s' at)),
            ))

  -- A service that the teardown does not spare.
  ends-Keeps :
      (o : Option Entry)
      → Keeps I (elim o as (λ _. M (Unit {0})) [
        | none ↦ pure tt
        | some entry ↦ (do
          set_state_lock gi si exit0
          call_back u gi (on_exit entry.on_exit)
          teardown_cleanup_msgq u gi si
          set_state_lock gi si exit1)
      ])
  ends-Keeps none = Keeps-pure I tt
  ends-Keeps (some entry) =
      Keeps-then I (set_state_lock gi si exit0) _ (state_lock-Keeps gi si exit0 (λ queue cur. tt)) (
        Keeps-then I (call_back u gi (on_exit entry.on_exit)) _
          (call_back-Keeps IsSound stable-IsSound u gi (on_exit entry.on_exit))
          (Keeps-then I (teardown_cleanup_msgq u gi si) _ teardown_cleanup_msgq-Keeps
            (state_lock-Keeps gi si exit1 (λ queue cur. tt))))

module _ (u : User) (gi : ℕ) where
  teardown_services-Keeps : (n i : ℕ) → Keeps I (teardown_services u n i gi)
  unfolding teardown_services
  teardown_services-Keeps zero i = Keeps-pure I tt
  teardown_services-Keeps (suc n) i = Keeps-service IsSound gi i _ λ s.
      Keeps-then I _ (teardown_services u n (suc i) gi)
        (Keeps-if I s.alive (pure tt) _ (Keeps-pure I tt) (ends-Keeps u gi i s.entry))
        (teardown_services-Keeps n (suc i))

  pub service_teardown-Keeps : Keeps I (service_teardown u gi)
  unfolding service_teardown
  service_teardown-Keeps = Keeps-group IsSound gi _ λ g. teardown_services-Keeps (length g.table) 0

  exit_services-Keeps : (n : ℕ) → Keeps I (exit_services u n gi)
  unfolding exit_services hook_service_exit_before hook_service_exit_after
  exit_services-Keeps zero = Keeps-pure I tt
  exit_services-Keeps (suc i) = Keeps-service IsSound gi i _ λ s.
      Keeps-then I _ (exit_services u i gi)
        (Keeps-if I (exits_no_more s) (pure tt) _ (Keeps-pure I tt) (
          Keeps-bind I (or_fault s.entry) _ (Keeps-or_fault I s.entry) λ entry.
            Keeps-then I (set_cur_run gi i) _ (set_cur_run-Keeps gi i) (
              Keeps-then I (set_state_lock gi i exit0) _
                (state_lock-Keeps gi i exit0 (λ queue cur. tt))
                (Keeps-then I (hook_service_exit_before s.id) _ (Keeps-hook_void IsSound _ _) (
                  Keeps-then I (call_back u gi (on_exit entry.on_exit)) _
                    (call_back-Keeps IsSound stable-IsSound u gi (on_exit entry.on_exit))
                    (Keeps-then I (hook_service_exit_after s.id) _ (Keeps-hook_void IsSound _ _)
                      (state_lock-Keeps gi i exit1 (λ queue cur. tt))))))))
        (exit_services-Keeps i)

  pub group_exit-Keeps : (max_idx : ℕ) → Keeps I (group_exit u gi max_idx)
  unfolding group_exit
  group_exit-Keeps max_idx =
      Keeps-group IsSound gi _
        λ g. exit_services-Keeps (if ltb (length g.table) max_idx then length g.table else max_idx)
