-- ===== src/Service/Work/Messages.antt =====
-- What the handling of a current message keeps of every group.
use eaf.Prelude.{ℕ, refl, Option, none, some, List, if◌then◌else◌}
use eaf.Prelude.Int.{is_negative}
use eaf.Message
use eaf.Message.{Ptr, null, get_type, get_rsp_fn, req, rsp}
use eaf.Service.{State, init0, init1, init2, idle, busy, yield, exit0, exit1, Record, Ctx, User}
use eaf.Service.Locked.{set_state_of}
use eaf.Service.Locked.Lists.{set_state_of-IsListed, put_service-IsListed}
use eaf.Service.Locked.Settled.{Calm, set_state_of-IsSettled, put_service-IsSettled}
use eaf.Service.Runtime.{
  pure, ◌>>=◌, or_fault, service, on_memory, hook_service_yield, hook_message_handle_after,
  hook_message_handle_before,
}
use eaf.Service.Keeps.{
  Keeps, Everywhere, Keeps-bind, Keeps-then, Keeps-pure, Keeps-if, Keeps-or_fault, Keeps-group,
  Keeps-service, Keeps-changed, Keeps-on_memory, Keeps-hook_void, Keeps-hook_int, Keeps-last_locked,
  Keeps-last_changed,
}
use eaf.Service.Invariant.{IsSound, stable-IsSound}
use eaf.Service.Loop.{
  call_handler, call_yield_hook, set_state_lock, reset, resume_message, check_cc0, cc0_yield,
  destroy_msg_record,
}
use eaf.Service.Work.Calls.{call_handler-Keeps, call_yield_hook-Keeps}

pub forgets :
    (state : State) (queue : List Record) (cur : Option Record)
    → Calm state queue cur
    → Calm state queue none
forgets init0 queue cur v = v
forgets init1 queue cur v = refl
forgets init2 queue cur v = (v.0, refl)
forgets idle queue cur v = (v.0, refl)
forgets busy queue cur v = tt
forgets yield queue cur v = tt
forgets exit0 queue cur v = tt
forgets exit1 queue cur v = tt

abbrev pub I : Ctx → Type 0
I = Everywhere IsSound

module _ (gi si : ℕ) where
  reset-Keeps : Keeps I (reset gi si)
  unfolding reset destroy_msg_record
  reset-Keeps =
      Keeps-changed IsSound gi si (λ s. record s { branch = 0 }) _
        (λ g s at p. stable-IsSound.branched gi si g s 0 at p)
        λ s. Keeps-bind I (or_fault s.cur_msg) _ (Keeps-or_fault I s.cur_msg) λ r.
          Keeps-then I (on_memory (Message.dec_ref r.msg)) _
            (Keeps-on_memory IsSound (Message.dec_ref r.msg))
            (Keeps-last_changed IsSound gi si (λ s'. record s' { cur_msg = none })
              λ g s' at p. (
                put_service-IsListed g si s' at p.0 (record s' { cur_msg = none }) refl,
                put_service-IsSettled g si s' (record s' { cur_msg = none }) at p.1
                    (forgets s'.state s'.queue s'.cur_msg (p.1 si s' at)),
              ))

  yields-Keeps : Keeps I (set_state_lock gi si yield)
  unfolding set_state_lock
  yields-Keeps =
      Keeps-last_locked IsSound gi si (λ g s. set_state_of g si s yield)
        λ g s at p.
          (set_state_of-IsListed g si s at p.0 yield, set_state_of-IsSettled g si s at p.1 yield tt)

  pub resume_message-Keeps : (u : User) → Keeps I (resume_message u gi si)
  unfolding resume_message hook_message_handle_after hook_service_yield
  resume_message-Keeps u = Keeps-service IsSound gi si _ λ s.
      Keeps-bind I (or_fault s.cur_msg) _ (Keeps-or_fault I s.cur_msg) λ r.
        Keeps-then I (call_handler u gi r) _ (call_handler-Keeps IsSound stable-IsSound u gi r) (
          Keeps-group IsSound gi _ λ g.
            Keeps-if I (check_cc0 g cc0_yield) _ _
              (Keeps-then I (set_state_lock gi si yield) _ yields-Keeps (
                Keeps-then I (call_yield_hook u gi) _
                  (call_yield_hook-Keeps IsSound stable-IsSound u gi)
                  (Keeps-hook_void IsSound _ _)))
              (Keeps-then I (hook_message_handle_after r.from r.to r.msg) (reset gi si)
                (Keeps-hook_void IsSound _ _) reset-Keeps))

  -- What follows the next message's removal from the queue.
  pub taken-Keeps :
      (u : User)
      → Keeps I (
          service gi si >>= λ s'. elim s'.cur_msg [
            | none ↦ pure tt
            | some r ↦ (do
              ret ← hook_message_handle_before u r.from r.to r.msg
              if is_negative ret then reset gi si else resume_message u gi si)
          ])
  unfolding hook_message_handle_before
  taken-Keeps u = Keeps-service IsSound gi si _ λ s'. by_cur s'.cur_msg
    where
      by_cur :
          (o : Option Record)
          → Keeps I (elim o [
            | none ↦ pure tt
            | some r ↦ (do
              ret ← hook_message_handle_before u r.from r.to r.msg
              if is_negative ret then reset gi si else resume_message u gi si)
          ])
      by_cur none = Keeps-pure I tt
      by_cur (some r) =
          Keeps-bind I (hook_message_handle_before u r.from r.to r.msg) _
            (Keeps-hook_int IsSound u _ _)
            λ ret. Keeps-if I (is_negative ret) _ _ reset-Keeps (resume_message-Keeps u)
