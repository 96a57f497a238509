-- ===== src/Service/Stable.antt =====
-- What the functions of the API keep of every group, whatever the callbacks of the program call.
use eaf.Prelude.{
  ℕ, zero, suc, ◌≡◌, refl, sym, Bool, true, false, Option, none, some, List, [], ◌∷◌, ◌==◌, map,
  if◌then◌else◌, get_elem?, leb, length, not, ◌&&◌, subst, ap, ◌∙◌, arith,
}
use eaf.Prelude.Int.{ℤ, pos, is_negative}
use eaf.Errno
use eaf.Errno.{eq_int}
use eaf.Message
use eaf.Message.{Ptr, null}
use eaf.Service.{
  Service, Group, Ctx, Call, User, Record, Action, yields, exits, tears_down, CtxState, user,
  service_resume, exit_before, Executor,
}
use eaf.Service.Locked
use eaf.Service.Locked.{enqueue, resume_service}
use eaf.Service.Runtime.{
  M, pure, ◌>>=◌, ◌>>◌, modify, record_call, on_memory, malloc, group, service, put_group, post,
  find_service, hook_service_resume, get_group, with_group,
}
use eaf.Service.Locked.Lists.{get_elem?-set}
use eaf.Service.Locked.Settled.{set-set}
use eaf.Service.Keeps.{
  Stays, reads_group, reads_service, Everywhere-with, group-at, some_eq, Keeps, Everywhere,
  Keeps-bind, Keeps-then, Keeps-pure, Keeps-if, Keeps-or_fault, Keeps-group, Keeps-service,
  Keeps-changed, Keeps-on_memory, Keeps-malloc, Keeps-hook_void, Keeps-hook_int, Keeps-last_group,
  Keeps-record_call,
}
use eaf.Service.Send.{
  push_locked, push_msg, send_req_to, send_rsp_to, hooked, send_req, send_rsp, resume, find_handler,
  table_of, set_from, is_running,
}
use eaf.Service.Life.{post_group, is_teardown, is_exit, exit_with, teardown, exit}
use eaf.Service.Loop.{coroutine_yield, api, perform, call_back, cc0_yield}

-- The group that a critical section leaves, with its semaphore posted if it succeeded.
abbrev pub posted_if : ℤ × Group → Group
posted_if (ret, g) = if eq_int ret Errno.success then post_group g else g

-- A property of groups that the API keeps: a critical section that wakes the thread of a group keeps
-- it together with the post of the semaphore that follows.
pub record IsStable (P : ℕ → Group → Type 0) : Type 0 where
  pub posted : (gi : ℕ) (g : Group) → P gi g → P gi (post_group g)
  pub yielded :
      (gi : ℕ) (g : Group) (cc0 : ℕ) (fn arg : Ptr)
      → P gi g
      → P gi (record g { cc0 = cc0; yield_hook = fn; yield_arg = arg })
  pub enqueued :
      (gi si : ℕ) (g : Group) (s : Service) (r : Record)
      → get_elem? g.table si ≡ some s
      → P gi g
      → P gi (posted_if (enqueue g si s r))
  pub resumed :
      (gi si : ℕ) (g : Group) (s : Service)
      → get_elem? g.table si ≡ some s
      → P gi g
      → P gi (posted_if (resume_service g si s))
  pub branched :
      (gi si : ℕ) (g : Group) (s : Service) (branch : ℕ)
      → get_elem? g.table si ≡ some s
      → P gi g
      → P gi (Locked.put_service g si (record s { branch = branch }))

get_elem?-map {ℓ κ} :
    {A : Type ℓ} {B : Type κ} (f : A → B) (xs : List A) (i : ℕ) (y : B)
    → get_elem? (map f xs) i ≡ some y
    → (x : A) × (get_elem? xs i ≡ some x) × (y ≡ f x)
get_elem?-map f [] i y e = cc
get_elem?-map f (x ∷ xs) zero y e = (x, refl, (cc))
get_elem?-map f (x ∷ xs) (suc i) y e = get_elem?-map f xs i y e

module _ (P : ℕ → Group → Type 0) (stable : IsStable P) where
  abbrev I : Ctx → Type 0
  I = Everywhere P

  -- A critical section, and the post that follows where it succeeded.
  woken-Stays :
      {B : Type 0} (gi : ℕ) (c : Ctx) (g : Group) (out : ℤ × Group) (done failed : M B)
      → get_group c gi ≡ some g
      → I c
      → P gi (posted_if out)
      → Keeps I done
      → Keeps I failed
      → Stays I (
          (put_group gi out.1 >> (if eq_int out.0 Errno.success then post gi >> done else failed))
            c)
  unfolding put_group post
  woken-Stays gi c g (ret, g1) done failed at v p kd kf = by_result (eq_int ret Errno.success) p
    where
      c1 : Ctx
      c1 = with_group c gi g1

      at1 : get_group c1 gi ≡ some g1
      at1 = ground (arith, get_elem?-set c.groups gi gi g1 g at)

      same : with_group c1 gi (post_group g1) ≡ with_group c gi (post_group g1)
      same = ap (λ gs. record c { groups = gs }) (set-set c.groups gi g1 (post_group g1))

      by_result :
          (ok : Bool)
          → P gi (if ok then post_group g1 else g1)
          → Stays I ((if ok then post gi >> done else failed) c1)
      by_result true p1 =
          rw (group-at c1 gi g1 at1, ◌>>=◌)
            (kd (with_group c1 gi (post_group g1))
              (subst I (sym same) (Everywhere-with P c gi g (post_group g1) at v p1)))
      by_result false p1 = kf c1 (Everywhere-with P c gi g g1 at v p1)

  woken-Keeps :
      {B : Type 0} (gi si : ℕ) (F : Group → Service → ℤ × Group)
      (done failed : Group → Service → M B)
      → ((g : Group) (s : Service)
          → get_elem? g.table si ≡ some s
          → P gi g
          → P gi (posted_if (F g s)))
      → ((g : Group) (s : Service) → Keeps I (done g s))
      → ((g : Group) (s : Service) → Keeps I (failed g s))
      → Keeps I (
          group gi >>= λ g. service gi si >>= λ s.
          put_group gi (F g s).1
          >> (if eq_int (F g s).0 Errno.success then post gi >> done g s else failed g s))
  woken-Keeps gi si F done failed pf kd kf c v = reads_group P gi c _ λ g at.
      reads_service P gi c si _ λ s h ht ht'.
        let at' = subst (λ x. get_elem? x.table si ≡ some s) (some_eq h g (sym ht ∙ at)) ht' in
        woken-Stays gi c g (F g s) (done g s) (failed g s) at v (pf g s at' (v gi g at)) (kd g s)
          (kf g s)

  push_locked-Keeps : (gi si : ℕ) (r : Record) → Keeps I (push_locked gi si r)
  unfolding push_locked
  push_locked-Keeps gi si r =
      woken-Keeps gi si (λ g s. enqueue g si s r) _ _ (λ g s at p. stable.enqueued gi si g s r at p)
        (λ g s. Keeps-pure I Errno.success)
        (λ g s.
          Keeps-then I _ (pure (enqueue g si s r).0) (Keeps-on_memory P (Message.dec_ref r.msg))
            (Keeps-pure I (enqueue g si s r).0))

  push_msg-Keeps :
      (gi si : ℕ) (msg : Ptr) (from to : ℕ) (req_fn : Option Ptr) (force : Bool)
      → Keeps I (push_msg gi si msg from to req_fn force)
  unfolding push_msg
  push_msg-Keeps gi si msg from to req_fn force = Keeps-service P gi si _ λ s.
      Keeps-if I (not force && leb s.capacity (length s.queue)) _ _ (Keeps-pure I Errno.overflow)
        (Keeps-bind I malloc _ (Keeps-malloc P) (by_block s))
    where
      r : Record
      r = record { req_fn = req_fn; from = from; to = to; msg = msg }

      by_block :
          (s : Service) (block : Message.Block)
          → Keeps I (elim block [
            | none ↦ pure Errno.memory
            | some b ↦ on_memory (Message.add_ref msg) >> push_locked gi si r
          ])
      by_block s none = Keeps-pure I Errno.memory
      by_block s (some b) =
          Keeps-then I _ (push_locked gi si r) (Keeps-on_memory P (Message.add_ref msg))
            (push_locked-Keeps gi si r)

  send_req_to-Keeps : (from to : ℕ) (req : Ptr) → Keeps I (send_req_to from to req)
  unfolding send_req_to
  send_req_to-Keeps from to req =
      Keeps-then I _ _ (Keeps-on_memory P (set_from req from))
        λ c v. by_place (find_service to c) c v
    where
      by_place :
          (o : Option (ℕ × ℕ))
          → Keeps I (elim o [
            | none ↦ pure Errno.notfound
            | some (gi, si) ↦ (do
              s ← service gi si
              m ← on_memory (Message.load req)
              let fn = find_handler m.id (table_of s)
              if fn == null
                  then pure Errno.notfound
                  else push_msg gi si req from to (some fn) false)
          ])
      by_place none = Keeps-pure I Errno.notfound
      by_place (some (gi, si)) = Keeps-service P gi si _ λ s.
          Keeps-bind I _ _ (Keeps-on_memory P (Message.load req)) λ m.
            Keeps-if I (find_handler m.id (table_of s) == null) _ _ (Keeps-pure I Errno.notfound)
              (push_msg-Keeps gi si req from to (some (find_handler m.id (table_of s))) false)

  send_rsp_to-Keeps : (from to : ℕ) (rsp : Ptr) → Keeps I (send_rsp_to from to rsp)
  unfolding send_rsp_to
  send_rsp_to-Keeps from to rsp c v = by_place (find_service to c) c v
    where
      by_place :
          (o : Option (ℕ × ℕ))
          → Keeps I (elim o [
            | none ↦ pure Errno.notfound
            | some (gi, si) ↦ push_msg gi si rsp from to none true
          ])
      by_place none = Keeps-pure I Errno.notfound
      by_place (some (gi, si)) = push_msg-Keeps gi si rsp from to none true

  hooked-Keeps :
      (u : User) (send : M ℤ) (from to : ℕ) (msg : Ptr)
      → Keeps I send
      → Keeps I (hooked u send from to msg)
  unfolding hooked
  hooked-Keeps u send from to msg ks c v =
      Keeps-if I (not (is_running c.state)) _ _ (Keeps-pure I Errno.state)
        (Keeps-bind I _ _ (Keeps-hook_int P u _ _) λ before.
          Keeps-if I (is_negative before) _ _ (Keeps-pure I before) (
            Keeps-bind I send _ ks
              λ ret. Keeps-then I _ (pure ret) (Keeps-hook_void P _ _) (Keeps-pure I ret)))
        c v

  pub send_req-Keeps : (u : User) (from to : ℕ) (req : Ptr) → Keeps I (send_req u from to req)
  unfolding send_req
  send_req-Keeps u from to req =
      hooked-Keeps u (send_req_to from to req) from to req (send_req_to-Keeps from to req)

  pub send_rsp-Keeps : (u : User) (from to : ℕ) (rsp : Ptr) → Keeps I (send_rsp u from to rsp)
  unfolding send_rsp
  send_rsp-Keeps u from to rsp =
      hooked-Keeps u (send_rsp_to from to rsp) from to rsp (send_rsp_to-Keeps from to rsp)

  pub resume-Keeps : (id : ℕ) → Keeps I (resume id)
  unfolding resume
  resume-Keeps id c v = by_place (find_service id c) c v
    where
      by_place :
          (o : Option (ℕ × ℕ))
          → Keeps I (elim o [
            | none ↦ pure Errno.notfound
            | some (gi, si) ↦ (do
              hook_service_resume id
              g ← group gi
              s ← service gi si
              let resumed = resume_service g si s
              put_group gi resumed.1
              if eq_int resumed.0 Errno.success then post gi >> pure resumed.0 else pure resumed.0)
          ])
      by_place none = Keeps-pure I Errno.notfound
      by_place (some (gi, si)) =
          Keeps-then I _ _ (Keeps-hook_void P (λ k. k.on_service_resume) (service_resume id)) (
            woken-Keeps gi si (λ g s. resume_service g si s) _ _
              (λ g s at p. stable.resumed gi si g s at p)
              (λ g s. Keeps-pure I (resume_service g si s).0)
              (λ g s. Keeps-pure I (resume_service g si s).0))

  coroutine_yield-Keeps :
      (gi branch : ℕ) (fn arg : Ptr) → Keeps I (coroutine_yield gi branch fn arg)
  unfolding coroutine_yield
  coroutine_yield-Keeps gi branch fn arg = Keeps-group P gi _ λ g.
      Keeps-bind I _ _ (Keeps-or_fault I g.cur_run) λ si.
        Keeps-changed P gi si (λ s. record s { branch = branch }) _
          (λ g' s at p. stable.branched gi si g' s branch at p)
          (λ s. Keeps-last_group P gi _ (λ g' p. stable.yielded gi g' cc0_yield fn arg p))

  posted_all :
      (c : Ctx) (state : CtxState)
      → Everywhere P c
      → Everywhere P (record c { state = state; groups = map post_group c.groups })
  posted_all c state v gi g e =
      let (g0, at, same) = get_elem?-map post_group c.groups gi g e in
      subst (P gi) (sym same) (stable.posted gi g0 (v gi g0 at))

  exit_with-Keeps :
      (executor : Executor) (reason : ℤ) (teardown : Bool)
      → Keeps I (exit_with executor reason teardown)
  unfolding exit_with
  exit_with-Keeps executor reason td c v =
      Keeps-then I _ _
        (Keeps-if I (not (is_teardown c.state) && not (is_exit c.state)) _ (pure tt)
          (Keeps-hook_void P (λ k. k.on_exit_before) exit_before) (Keeps-pure I tt))
        (Keeps-then I _ _ (Keeps-if I (not td) _ (pure tt) (λ c' v'. v') (Keeps-pure I tt)) (
          Keeps-then I
            (modify (λ c'. record c' { state = left; groups = map post_group c'.groups }))
            (pure Errno.success) (λ c' v'. posted_all c' left v') (Keeps-pure I Errno.success)))
        c v
    where
      left : CtxState
      left = if td then CtxState.teardown else CtxState.exit

  pub teardown-Keeps : Keeps I teardown
  unfolding teardown
  teardown-Keeps c v =
      Keeps-if I (is_teardown c.state) _ _ (Keeps-pure I Errno.state)
        (exit_with-Keeps user (pos 0) true) c v

  pub exit-Keeps : (reason : ℤ) → Keeps I (exit reason)
  unfolding exit
  exit-Keeps reason c v =
      Keeps-if I (is_exit c.state) _ _ (Keeps-pure I Errno.state)
        (exit_with-Keeps user reason false) c v

  discards : {A : Type 0} (m : M A) → Keeps I m → Keeps I (m >>= λ _. pure tt)
  discards m km = Keeps-bind I m (λ _. pure tt) km (λ _. Keeps-pure I tt)

  -- Every call of the API keeps the property, of whatever group it is made.
  pub api-Keeps : (u : User) (gi : ℕ) (a : Action) → Keeps I (api u gi a)
  unfolding api
  api-Keeps u gi (Action.send_req from to msg) = discards _ (send_req-Keeps u from to msg)
  api-Keeps u gi (Action.send_rsp from to msg) = discards _ (send_rsp-Keeps u from to msg)
  api-Keeps u gi (Action.resume id) = discards _ (resume-Keeps id)
  api-Keeps u gi (yields branch fn arg) = coroutine_yield-Keeps gi branch fn arg
  api-Keeps u gi (exits reason) = discards _ (exit-Keeps reason)
  api-Keeps u gi tears_down = discards _ teardown-Keeps

  perform-Keeps : (u : User) (gi : ℕ) (as' : List Action) → Keeps I (perform u gi as')
  unfolding perform
  perform-Keeps u gi [] = Keeps-pure I tt
  perform-Keeps u gi (a ∷ as') =
      Keeps-then I (api u gi a) (perform u gi as') (api-Keeps u gi a) (perform-Keeps u gi as')

  pub call_back-Keeps : (u : User) (gi : ℕ) (call : Call) → Keeps I (call_back u gi call)
  unfolding call_back
  call_back-Keeps u gi call c v =
      Keeps-then I (record_call call) (perform u gi (u.acts call c)) (Keeps-record_call P call)
        (perform-Keeps u gi (u.acts call c)) c v
