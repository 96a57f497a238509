-- ===== src/Service/Work/Calls.antt =====
-- What the callbacks of a message and of a yield keep of every group.
use eaf.Prelude.{ℕ, ◌==◌, if◌then◌else◌}
use eaf.Message
use eaf.Message.{Ptr, null, get_type, get_rsp_fn, req, rsp}
use eaf.Service.{Record, Group, Ctx, User, handler, yield_hook}
use eaf.Service.Runtime.{pure, ◌>>=◌, or_fault, on_memory}
use eaf.Service.Keeps.{
  Keeps, Everywhere, Keeps-bind, Keeps-pure, Keeps-if, Keeps-or_fault, Keeps-group, Keeps-service,
  Keeps-on_memory, Keeps-last_group,
}
use eaf.Service.Stable.{IsStable, call_back-Keeps}
use eaf.Service.Loop.{call_handler, call_yield_hook, clear_cc0, call_back}

module _ (P : ℕ → Group → Type 0) (stable : IsStable P) (u : User) (gi : ℕ) where
  pub call_handler-Keeps : (r : Record) → Keeps (Everywhere P) (call_handler u gi r)
  unfolding call_handler
  call_handler-Keeps r =
      Keeps-bind I (on_memory (Message.load r.msg)) _ (Keeps-on_memory P (Message.load r.msg))
        λ m. by_type m (get_type m)
    where
      I : Ctx → Type 0
      I = Everywhere P

      by_type :
          (m : Message.Msg) (t : Message.MsgType)
          → Keeps I (elim t [
            | req ↦ (do fn ← or_fault r.req_fn; call_back u gi (handler fn r.from r.to r.msg))
            | rsp ↦
                let fn = get_rsp_fn m in
                if fn == null then pure tt else call_back u gi (handler fn r.from r.to r.msg)
          ])
      by_type m req =
          Keeps-bind I (or_fault r.req_fn) _ (Keeps-or_fault I r.req_fn)
            λ fn. call_back-Keeps P stable u gi (handler fn r.from r.to r.msg)
      by_type m rsp =
          Keeps-if I (get_rsp_fn m == null) (pure tt) _ (Keeps-pure I tt)
            (call_back-Keeps P stable u gi (handler (get_rsp_fn m) r.from r.to r.msg))

  pub call_yield_hook-Keeps : Keeps (Everywhere P) (call_yield_hook u gi)
  unfolding call_yield_hook
  call_yield_hook-Keeps = Keeps-group P gi _ λ g.
      Keeps-if I (g.yield_hook == null) (pure tt) _ (Keeps-pure I tt) (
        Keeps-bind I (or_fault g.cur_run) _ (Keeps-or_fault I g.cur_run) λ si.
          Keeps-service P gi si _
            λ s. call_back-Keeps P stable u gi (yield_hook g.yield_hook s.id g.yield_arg))
    where
      I : Ctx → Type 0
      I = Everywhere P

  pub clear_cc0-Keeps : Keeps (Everywhere P) (clear_cc0 gi)
  unfolding clear_cc0
  clear_cc0-Keeps =
      Keeps-last_group P gi (λ g. record g { cc0 = 0 })
        λ g p. stable.yielded gi g 0 g.yield_hook g.yield_arg p
