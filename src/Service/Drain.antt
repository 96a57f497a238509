-- ===== src/Service/Drain.antt =====
-- The loop of `_eaf_service_teardown_cleanup_msgq` ends: no message comes in while it runs.
use eaf.Prelude.{
  ℕ, zero, suc, ◌≤◌, ◌≡◌, refl, sym, ap, ◌∙◌, false, Option, none, some, List, [], ◌∷◌, ◌==◌,
  length, if◌then◌else◌, get_elem?, set, subst, arith, Bool, true,
}
use eaf.Prelude.Int.{pos}
use eaf.Errno
use eaf.Message
use eaf.Message.{Ptr, null, get_type, req, rsp, create_rsp, set_receipt, dec_ref}
use eaf.Service.{Record, Service, Group, Ctx, User}
use eaf.Service.Locked
use eaf.Service.Locked.Lists.{get_elem?-set}
use eaf.Service.Locked.Settled.{set-set}
use eaf.Service.Runtime
use eaf.Service.Runtime.{
  M, pure, fault, ◌>>=◌, ◌>>◌, on_memory, malloc, service, get_group, get_service, with_group,
  put_group,
}
use eaf.Service.Keeps.{
  some_eq, Keeps, Stays, Keeps-bind, Keeps-then, Keeps-pure, Keeps-if, group-at, service-at,
}
use eaf.Service.Send.{send_rsp, is_running}
use eaf.Service.Shutdown.{not_running}
use eaf.Service.Loop.{destroy_msg_record}
use eaf.Service.Thread.{change_msg, teardown_message, teardown_queue}

-- The context does not run, and has these groups.
abbrev IsQuiet : List Group → Ctx → Type 0
IsQuiet gs c = (is_running c.state ≡ false) × (c.groups ≡ gs)

module _ (u : User) (gi si : ℕ) (gs : List Group) where
  abbrev Q : Ctx → Type 0
  Q = IsQuiet gs

  on_memory-Keeps : {A : Type 0} (m : Message.M A) → Keeps Q (on_memory m)
  unfolding on_memory
  on_memory-Keeps {A} m c v = by_result (m c.memory)
    where
      by_result :
          (r : Option (A × Message.Memory))
          → Stays Q (elim r [ none ↦ none | some (a, h) ↦ some (a, record c { memory = h }) ])
      by_result none = tt
      by_result (some (a, h)) = v

  malloc-Keeps : Keeps Q malloc
  unfolding malloc
  malloc-Keeps c v = by_blocks c.blocks
    where
      by_blocks :
          (bs : List Message.Block)
          → Stays Q
              (elim bs [ [] ↦ some (none, c) | b ∷ rest ↦ some (b, record c { blocks = rest }) ])
      by_blocks [] = v
      by_blocks (b ∷ rest) = v

  service-Keeps : Keeps Q (service gi si)
  unfolding service
  service-Keeps c v = by_service (get_service c gi si)
    where
      by_service : (o : Option Service) → Stays Q (elim o [ none ↦ none | some s ↦ some (s, c) ])
      by_service none = tt
      by_service (some s) = v

  send_rsp-Keeps : (from to : ℕ) (msg : Ptr) → Keeps Q (send_rsp u from to msg)
  send_rsp-Keeps from to msg c v = subst (Stays Q) (sym (not_running u c v.0 from to msg).1) v

  message-Keeps : (r : Record) → Keeps Q (teardown_message u gi si r)
  unfolding teardown_message destroy_msg_record
  message-Keeps r =
      Keeps-bind Q (on_memory (Message.load r.msg)) _ (on_memory-Keeps (Message.load r.msg)) λ m.
        Keeps-then Q _ (on_memory (dec_ref r.msg)) (by_type (get_type m))
          (on_memory-Keeps (dec_ref r.msg))
    where
      by_type :
          (t : Message.MsgType)
          → Keeps Q (elim t [
            | rsp ↦ pure tt
            | req ↦ (do
              block ← malloc
              answer ← on_memory (create_rsp block (pos 0) r.msg 0)
              if answer == null then fault else (do
                on_memory (change_msg answer (λ a. set_receipt a Errno.state))
                s ← service gi si
                _ ← send_rsp u s.id r.from answer
                on_memory (dec_ref answer)))
          ])
      by_type rsp = Keeps-pure Q tt
      by_type req = Keeps-bind Q malloc _ malloc-Keeps λ block.
          Keeps-bind Q (on_memory (create_rsp block (pos 0) r.msg 0)) _
            (on_memory-Keeps (create_rsp block (pos 0) r.msg 0))
            λ answer.
              Keeps-if Q (answer == null) fault _ (λ c v. tt)
                (Keeps-then Q (on_memory (change_msg answer (λ a. set_receipt a Errno.state))) _
                  (on_memory-Keeps (change_msg answer (λ a. set_receipt a Errno.state)))
                  (Keeps-bind Q (service gi si) _ service-Keeps λ s.
                    Keeps-bind Q (send_rsp u s.id r.from answer) _
                      (send_rsp-Keeps s.id r.from answer) λ ret. on_memory-Keeps (dec_ref answer)))

set-same {ℓ} :
    {A : Type ℓ} (xs : List A) (i : ℕ) (x : A) → get_elem? xs i ≡ some x → set xs i x ≡ xs
set-same [] i x e = refl
set-same (y ∷ xs) zero x e = ap (λ t. t ∷ xs) (sym (some_eq y x e))
set-same (y ∷ xs) (suc i) x e = ap (λ t. y ∷ t) (set-same xs i x e)

-- The groups of a context, with the queue of one service replaced.
abbrev pub with_queue : List Group → ℕ → ℕ → Group → Service → List Record → List Group
with_queue gs gi si g s q = set gs gi (Locked.put_service g si (record s { queue = q }))

module _ (u : User) (gi si : ℕ) (g : Group) (s : Service) where
  -- The service with the rest of its queue, in its group.
  abbrev left : List Record → Group
  left q = Locked.put_service g si (record s { queue = q })

  -- The messages of a queue are handled one after the other without a fault, each when it has left
  -- the queue.
  abbrev pub Handles : List Record → Ctx → Type 0
  Handles [] c = Unit {0}
  Handles (r ∷ rest) c =
      (c' : Ctx) × (teardown_message u gi si r (with_group c gi (left rest)) ≡ some (tt, c'))
      × Handles rest c'

  -- The loop has come to its end, and no group has changed but for the queue, which is empty.
  abbrev pub Drained : List Group → Option (Bool × Ctx) → Type 0
  Drained gs after =
      (c' : Ctx) × (after ≡ some (true, c')) × (c'.groups ≡ with_queue gs gi si g s [])

  module _ (gs : List Group) (at : get_elem? gs gi ≡ some g)
      (at' : get_elem? g.table si ≡ some s) where
    in_table : (q : List Record) → get_elem? (left q).table si ≡ some (record s { queue = q })
    in_table q = ground (arith, get_elem?-set g.table si si (record s { queue = q }) s at')

    in_groups :
        (q : List Record) (c : Ctx)
        → c.groups ≡ with_queue gs gi si g s q
        → get_group c gi ≡ some (left q)
    in_groups q c e =
        ap (λ x. get_elem? x gi) e ∙ ground (arith, get_elem?-set gs gi gi (left q) g at)

    -- A read of the service.
    read :
        (q : List Record) (c : Ctx) (k : Service → M Bool)
        → c.groups ≡ with_queue gs gi si g s q
        → (service gi si >>= k) c ≡ k (record s { queue = q }) c
    read q c k e =
        let there : get_service c gi si ≡ some (record s { queue = q }) =
          rw (get_service, in_groups q c e) (in_table q) in
        rw (service-at c gi si (record s { queue = q }) there, ◌>>=◌) refl

    -- A message leaves the queue.
    pops :
        (r : Record) (rest : List Record) (c : Ctx)
        → c.groups ≡ with_queue gs gi si g s (r ∷ rest)
        → Runtime.put_service gi si (record s { queue = rest }) c
          ≡ some (tt, with_group c gi (left rest))
    unfolding Runtime.put_service put_group
    pops r rest c e =
        let same = set-set g.table si (record s { queue = r ∷ rest }) (record s { queue = rest }) in
        rw (group-at c gi (left (r ∷ rest)) (in_groups (r ∷ rest) c e), ◌>>=◌)
          (ap (λ t. some (tt, with_group c gi (record g { table = t }))) same)

    -- Its handling keeps the groups.
    handled :
        (r : Record) (q rest : List Record) (c c' : Ctx)
        → is_running c.state ≡ false
        → c.groups ≡ with_queue gs gi si g s q
        → teardown_message u gi si r (with_group c gi (left rest)) ≡ some (tt, c')
        → (is_running c'.state ≡ false) × (c'.groups ≡ with_queue gs gi si g s rest)
    handled r q rest c c' stopped e run =
        let c1 = with_group c gi (left rest) in
        let same : c1.groups ≡ with_queue gs gi si g s rest =
          ap (λ x. set x gi (left rest)) e ∙ set-set gs gi (left q) (left rest) in
        let quiet =
          subst (Stays (IsQuiet c1.groups)) run
            (message-Keeps u gi si c1.groups r c1 (stopped, refl)) in
        (quiet.0, quiet.1 ∙ same)

    drains :
        (fuel : ℕ) (q : List Record) (c : Ctx)
        → is_running c.state ≡ false
        → c.groups ≡ with_queue gs gi si g s q
        → length q ≤ fuel
        → Handles q c
        → Drained gs (teardown_queue u fuel gi si c)
    unfolding teardown_queue
    drains zero [] c stopped e enough runs = (c, read [] c _ e, e)
    drains zero (r ∷ rest) c stopped e enough runs = absurd (omega (arith, enough))
    drains (suc fuel) [] c stopped e enough runs = (c, read [] c _ e, e)
    drains (suc fuel) (r ∷ rest) c stopped e enough (c', run, runs) =
        let next = handled r (r ∷ rest) rest c c' stopped e run in
        let (ended, later, groups) =
          drains fuel rest c' next.0 next.1 (omega (arith, enough)) runs in
        (ended, read (r ∷ rest) c _ e ∙ rw (pops r rest c e, ◌>>=◌, run) later, groups)

    whole : with_queue gs gi si g s s.queue ≡ gs
    whole =
        ap (λ t. set gs gi (record g { table = t })) (set-same g.table si s at')
        ∙ set-same gs gi g at

-- `_eaf_service_teardown_cleanup_msgq` in a context that no longer runs, where the handling of each
-- message of the queue in its turn does not fault: with fuel for the length of the queue or more, its
-- loop comes to its end; then the queue is empty, and nothing else of any group has changed, so no
-- message has come in.
pub teardown_queue_lem :
    (u : User) (gi si fuel : ℕ) (c : Ctx) (g : Group) (s : Service)
    → is_running c.state ≡ false
    → get_group c gi ≡ some g
    → get_elem? g.table si ≡ some s
    → length s.queue ≤ fuel
    → Handles u gi si g s s.queue c
    → Drained u gi si g s c.groups (teardown_queue u fuel gi si c)
teardown_queue_lem u gi si fuel c g s stopped at at' enough runs =
    drains u gi si g s c.groups at at' fuel s.queue c stopped
      (sym (whole u gi si g s c.groups at at')) enough runs
