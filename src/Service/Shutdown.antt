-- ===== src/Service/Shutdown.antt =====
-- What eaf_exit and eaf_teardown leave: the context takes no more messages.
use eaf.Prelude.{
  ℕ, ◌≡◌, refl, sym, ap, Bool, true, false, not, ◌&&◌, ◌⊎◌, inl, inr, Option, none, some, map,
  if◌then◌else◌,
}
use eaf.Prelude.Int.{ℤ, pos}
use eaf.Errno
use eaf.Message.{Ptr}
use eaf.Service.{Ctx, CtxState, User, user, Executor}
use eaf.Service.Runtime.{M, pure, ◌>>◌, modify, hook_cleanup_before}
use eaf.Service.Send.{send_req, send_rsp, hooked, is_running}
use eaf.Service.Life.{exit, teardown, exit_with, post_group, is_exit, is_teardown}

abbrev leaving : Bool → CtxState
leaving td = if td then CtxState.teardown else CtxState.exit

-- The context after the last two commands of `_eaf_exit`.
left_state :
    (m : M (Unit {0})) (td : Bool) (c c' : Ctx)
    → (m
          >> (modify (λ c1. record c1 { state = leaving td; groups = map post_group c1.groups })
              >> pure Errno.success))
        c
      ≡ some (Errno.success, c')
    → c'.state ≡ leaving td
left_state m td c c' e = by_result (m c) e
  where
    state_of : Option (ℤ × Ctx) → CtxState
    state_of none = c'.state
    state_of (some (r, x)) = x.state

    by_result :
        (r : Option (Unit {0} × Ctx))
        → Path
            (Option (ℤ × Ctx))
            (elim r as (λ _. Option (ℤ × Ctx)) [
              | none ↦ none
              | some (a, c1) ↦ some (
                Errno.success,
                record c1 { state = leaving td; groups = map post_group c1.groups },
              )
            ])
            (some (Errno.success, c'))
        → c'.state ≡ leaving td
    by_result none e1 = cc
    by_result (some (a, c1)) e1 = sym (ap state_of e1)

left_after :
    (m k : M (Unit {0})) (td : Bool) (c c' : Ctx)
    → (m
          >> (k
              >> (modify (λ c1. record c1 { state = leaving td; groups = map post_group c1.groups })
                  >> pure Errno.success)))
        c
      ≡ some (Errno.success, c')
    → c'.state ≡ leaving td
left_after m k td c c' e = by_result (m c) e
  where
    last : M ℤ
    last =
        k
        >> (modify (λ c1. record c1 { state = leaving td; groups = map post_group c1.groups })
            >> pure Errno.success)

    by_result :
        (r : Option (Unit {0} × Ctx))
        → Path
            (Option (ℤ × Ctx))
            (elim r as (λ _. Option (ℤ × Ctx)) [ none ↦ none | some (a, c1) ↦ last c1 ])
            (some (Errno.success, c'))
        → c'.state ≡ leaving td
    by_result none e1 = cc
    by_result (some (a, c1)) e1 = left_state k td c1 c' e1

exit_with-state :
    (executor : Executor) (reason : ℤ) (td : Bool) (c c' : Ctx)
    → exit_with executor reason td c ≡ some (Errno.success, c')
    → c'.state ≡ leaving td
unfolding exit_with
exit_with-state executor reason td c c' e =
    left_after
      (if not (is_teardown c.state) && not (is_exit c.state) then hook_cleanup_before else pure tt)
      (if not td
        then modify (λ c1. record c1 { executor = executor; reason = reason })
        else pure tt)
      td c c' e

-- The message functions refuse every message, and change nothing.
abbrev pub IsClosed : User → Ctx → Type 0
IsClosed u c =
    (from to : ℕ) (msg : Ptr)
    → (send_req u from to msg c ≡ some (Errno.state, c))
      × (send_rsp u from to msg c ≡ some (Errno.state, c))

pub not_running : (u : User) (c : Ctx) → is_running c.state ≡ false → IsClosed u c
unfolding send_req send_rsp hooked
not_running u c stopped from to msg = (rw stopped refl, rw stopped refl)

-- The state that a call leaves where it succeeds, and which it does not where it is too late.
guarded :
    (late : Bool) (m : M ℤ) (td : Bool) (c c' : Ctx)
    → (m c ≡ some (Errno.success, c') → c'.state ≡ leaving td)
    → (if late then pure Errno.state else m) c ≡ some (Errno.success, c')
    → c'.state ≡ leaving td
guarded false m td c c' k e = k e
guarded true m td c c' k e = absurd (refused e)
  where
    refused : Path (Option (ℤ × Ctx)) (some (Errno.state, c)) (some (Errno.success, c')) → ⊥
    refused e1 = cc

-- In the context that a successful call of eaf_exit or eaf_teardown leaves, eaf_send_req and
-- eaf_send_rsp return eaf_errno_state for every message, and leave the context as it is.
pub exit-IsClosed :
    (u : User) (reason : ℤ) (c c' : Ctx)
    → (exit reason c ≡ some (Errno.success, c')) ⊎ (teardown c ≡ some (Errno.success, c'))
    → IsClosed u c'
unfolding exit teardown
exit-IsClosed u reason c c' (inl e) = not_running u c' (
    ap is_running (
      guarded (is_exit c.state) (exit_with user reason false) false c c'
        (exit_with-state user reason false c c') e))
exit-IsClosed u reason c c' (inr e) = not_running u c' (
    ap is_running (
      guarded (is_teardown c.state) (exit_with user (pos 0) true) true c c'
        (exit_with-state user (pos 0) true c c') e))
