-- ===== src/Service/Delivery.antt =====
-- What `_eaf_service_push_msg` does on each of its branches.
pub mod Enqueue
use eaf.Prelude.{
  ℕ, zero, suc, ◌+◌, ◌^◌, ◌<◌, ◌≡◌, ◌≢◌, refl, sym, ap, ◌∙◌, Bool, true, false, not, ◌&&◌, ◌||◌,
  Option, none, some, List, [], ◌∷◌, leb, length, if◌then◌else◌, get_elem?, set, subst, arith,
}
use eaf.Prelude.Int.{ℤ, negsuc}
use eaf.Errno
use eaf.Errno.{eq_int}
use eaf.Sequence.{push_back}
use eaf.Message.{Ptr, Msg, Memory, Block, update, add_ref, dec_ref}
use eaf.Message.Memory.{update_at, update_same, update_twice}
use eaf.Message.Refs.{counted, held, held_pos, add_ref_step, dec_ref_step}
use eaf.Service.{
  State, init0, init1, init2, idle, busy, yield, exit0, exit1, Record, Service, Group, Ctx,
}
use eaf.Service.Locked.{put_service, set_state_of, enqueue}
use eaf.Service.Locked.Lists.{get_elem?-set, set_state_of-at}
use eaf.Service.Runtime.{
  M, pure, ◌>>=◌, ◌>>◌, get_group, get_service, with_group, put_group, post, malloc, on_memory,
}
use eaf.Service.Keeps.{some_eq, group-at, service-at}
use eaf.Service.Send.{push_msg, push_locked}
use eaf.Service.Delivery.Enqueue.{woken, is_exit0, enqueue_refused, enqueue_accepted}

-- `_eaf_service_push_msg` puts the message in the queue of the service, and takes a reference.
abbrev pub IsPushed : Ctx → ℕ → ℕ → Group → Service → Record → Msg → Ctx → Type 0
IsPushed c gi si g s r m c' =
    (g' : Group) × (get_group c' gi ≡ some g')
    × (get_elem? g'.table si
        ≡ some (record s { state = woken s.state; queue = push_back s.queue r }))
    × (g'.sem ≡ g.sem + 1)
    × (c'.memory ≡ update c.memory r.msg (some (counted m (suc m.refcnt))))

pub set_same {ℓ} :
    {A : Type ℓ} (xs : List A) (i : ℕ) (x : A) → get_elem? xs i ≡ some x → set xs i x ≡ xs
set_same [] i x e = refl
set_same (y ∷ xs) zero x e = ap (λ t. t ∷ xs) (sym (some_eq y x e))
set_same (y ∷ xs) (suc i) x e = ap (λ t. y ∷ t) (set_same xs i x e)

module _ (c : Ctx) (gi si : ℕ) (s : Service) (g : Group) (r : Record) (m : Msg)
    (at : get_group c gi ≡ some g) (at' : get_elem? g.table si ≡ some s)
    (stored : c.memory r.msg ≡ some m) (held_once : 0 < m.refcnt)
    (small : suc m.refcnt < 2 ^ 64) where
  taken : Memory
  taken = update c.memory r.msg (some (counted m (suc m.refcnt)))

  take_ref :
      (rest : List Block)
      → on_memory (add_ref r.msg) (record c { blocks = rest })
        ≡ some (tt, record c { blocks = rest; memory = taken })
  unfolding on_memory taken
  take_ref rest = rw (on_memory, add_ref_step r.msg m c.memory m.refcnt stored small) refl

  -- The reference is given back.
  give_ref :
      (c1 : Ctx)
      → c1.memory ≡ taken
      → on_memory (dec_ref r.msg) c1 ≡ some (tt, record c1 { memory = c.memory })
  unfolding on_memory taken
  give_ref c1 mem1 =
      rw
        (
          on_memory,
          mem1,
          dec_ref_step r.msg m taken m.refcnt (update_at c.memory r.msg _) small,
          back,
        )
        refl
    where
      back : update taken r.msg (held m m.refcnt) ≡ c.memory
      back =
          update_twice c.memory r.msg _ _
          ∙ update_same c.memory r.msg (held m m.refcnt)
              (stored ∙ sym (held_pos m m.refcnt held_once))

  push_accepted :
      (c1 : Ctx)
      → get_group c1 gi ≡ some g
      → c1.memory ≡ taken
      → is_exit0 s.state ≡ false
      → (c' : Ctx) × (push_locked gi si r c1 ≡ some (Errno.success, c'))
        × IsPushed c gi si g s r m c'
  unfolding push_locked post taken put_group
  push_accepted c1 at1 mem1 e =
      let (ret, queued) = enqueue_accepted g si s r at' e in
      let g1 = (enqueue g si s r).1 in
      let c2 = with_group c1 gi g1 in
      let at2 : get_group c2 gi ≡ some g1 =
        ground (arith, get_elem?-set c1.groups gi gi g1 g at1) in
      let g2 = record g1 { sem = g1.sem + 1 } in
      let at3 : get_group (with_group c2 gi g2) gi ≡ some g2 =
        ground (arith, get_elem?-set c2.groups gi gi g2 g1 at2) in
      let there : get_service c1 gi si ≡ some s = rw (get_service, at1) at' in
      (
        with_group c2 gi g2,
        rw (group-at c1 gi g at1, ◌>>=◌, service-at c1 gi si s there, ret, group-at c2 gi g1 at2)
            refl,
        (g2, at3, queued.0, ap (λ x. x + 1) queued.1, mem1),
      )

  push_refused :
      (c1 : Ctx)
      → get_group c1 gi ≡ some g
      → c1.memory ≡ taken
      → is_exit0 s.state ≡ true
      → push_locked gi si r c1 ≡ some (Errno.state, record c1 { memory = c.memory })
  unfolding push_locked put_group
  push_refused c1 at1 mem1 e =
      let there : get_service c1 gi si ≡ some s = rw (get_service, at1) at' in
      rw (group-at c1 gi g at1, ◌>>=◌, service-at c1 gi si s there) refl
      ∙ ap (λ x. after x c1) (enqueue_refused g si s r at' e)
      ∙ rw (◌>>◌, ◌>>=◌, give_ref (with_group c1 gi g) mem1, set_same c1.groups gi g at1) refl
    where
      after : ℤ × Group → M ℤ
      after pushed =
          put_group gi pushed.1
          >> (if eq_int pushed.0 Errno.success
              then post gi >> pure Errno.success
              else on_memory (dec_ref r.msg) >> pure pushed.0)

-- Whether a message is taken: the queue of a request is below its capacity, the allocator gives a
-- block, and the service does not exit.
abbrev pub accepts : Service → Bool → List Block → Bool
accepts s force [] = false
accepts s force (none ∷ rest) = false
accepts s force (some b ∷ rest) =
    (force || not (leb s.capacity (length s.queue))) && not (is_exit0 s.state)

-- `_eaf_service_push_msg`, to a service that is there and of a message that is allocated, has a
-- reference and a count that does not overflow, always returns. A message that is taken is appended to
-- the queue of its service, which is woken if it was idle or awaits its first request; the message has
-- one more reference, and the semaphore of the group is posted. Otherwise the call fails, and changes
-- no group, no message and no reference count.
pub push_msg_lem :
    (c : Ctx) (gi si : ℕ) (s : Service) (g : Group) (msg : Ptr) (from to : ℕ) (req_fn : Option Ptr)
    (force : Bool) (m : Msg)
    → get_group c gi ≡ some g
    → get_elem? g.table si ≡ some s
    → c.memory msg ≡ some m
    → 0 < m.refcnt
    → suc m.refcnt < 2 ^ 64
    → (ret : ℤ) × (c' : Ctx) × (push_msg gi si msg from to req_fn force c ≡ some (ret, c'))
      × (if accepts s force c.blocks
          then (ret ≡ Errno.success)
            × IsPushed c gi si g s
                (record { req_fn = req_fn; from = from; to = to; msg = msg })
                m
                c'
          else (ret ≢ Errno.success) × (c'.groups ≡ c.groups) × (c'.memory ≡ c.memory))
unfolding push_msg malloc
push_msg_lem c gi si s g msg from to req_fn force m at at' stored held_once small =
    let there : get_service c gi si ≡ some s = rw (get_service, at) at' in
    subst (λ x. Result x (accepts s force c.blocks))
      (sym (rw (service-at c gi si s there, ◌>>=◌) refl))
      (subst (Result _) (accepted c.blocks) (by_room force (leb s.capacity (length s.queue))))
  where
    r : Record
    r = record { req_fn = req_fn; from = from; to = to; msg = msg }

    Result : Option (ℤ × Ctx) → Bool → Type 0
    Result x ok =
        (ret : ℤ) × (c' : Ctx) × (x ≡ some (ret, c'))
        × (if ok
            then (ret ≡ Errno.success) × IsPushed c gi si g s r m c'
            else (ret ≢ Errno.success) × (c'.groups ≡ c.groups) × (c'.memory ≡ c.memory))

    body : Option (Block × Ctx) → Option (ℤ × Ctx)
    body o = elim o [
      | none ↦ none
      | some (block, c1) ↦
          (elim block as (λ _. M ℤ) [
            | none ↦ pure Errno.memory
            | some b ↦ on_memory (add_ref msg) >> push_locked gi si r
          ])
            c1
    ]

    allocated : List Block → Option (Block × Ctx)
    allocated bs = elim bs [ [] ↦ some (none, c) | b ∷ rest ↦ some (b, record c { blocks = rest }) ]

    failed : (n : ℕ) → negsuc n ≢ Errno.success
    failed n e = cc

    -- The message, with its reference taken, meets the service.
    meets :
        (rest : List Block) (out : Bool)
        → is_exit0 s.state ≡ out
        → Result
            (push_locked gi si r (record c {
              blocks = rest;
              memory = taken c gi si s g r m at at' stored held_once small;
            }))
            (not out)
    meets rest false e =
        let c1 = record c {
          blocks = rest;
          memory = taken c gi si s g r m at at' stored held_once small;
        } in
        let (c', run, pushed) =
          push_accepted c gi si s g r m at at' stored held_once small c1 at refl e in
        (Errno.success, c', run, (refl, pushed))
    meets rest true e =
        let c1 = record c {
          blocks = rest;
          memory = taken c gi si s g r m at at' stored held_once small;
        } in
        (
          Errno.state,
          record c { blocks = rest },
          push_refused c gi si s g r m at at' stored held_once small c1 at refl e,
          (failed 3, refl, refl),
        )

    next : Option (Unit {0} × Ctx) → Option (ℤ × Ctx)
    next o = elim o [ none ↦ none | some (a, c1) ↦ push_locked gi si r c1 ]

    taken_by : List Block → Bool → Bool
    taken_by bs ok = elim bs [ [] ↦ false | b ∷ rest ↦ elim b [ none ↦ false | some x ↦ ok ] ]

    by_blocks :
        (bs : List Block) → Result (body (allocated bs)) (taken_by bs (not (is_exit0 s.state)))
    by_blocks [] = (Errno.memory, c, refl, (failed 2, refl, refl))
    by_blocks (none ∷ rest) =
        (Errno.memory, record c { blocks = rest }, refl, (failed 2, refl, refl))
    by_blocks (some b ∷ rest) =
        subst (λ x. Result (next x) (not (is_exit0 s.state)))
          (sym (take_ref c gi si s g r m at at' stored held_once small rest))
          (meets rest (is_exit0 s.state) refl)

    full_up : (bs : List Block) → Result (some (Errno.overflow, c)) (taken_by bs false)
    full_up [] = (Errno.overflow, c, refl, (failed 5, refl, refl))
    full_up (none ∷ rest) = (Errno.overflow, c, refl, (failed 5, refl, refl))
    full_up (some b ∷ rest) = (Errno.overflow, c, refl, (failed 5, refl, refl))

    tried : M ℤ
    tried = malloc >>= λ block. elim block [
      | none ↦ pure Errno.memory
      | some b ↦ on_memory (add_ref msg) >> push_locked gi si r
    ]

    by_room :
        (forced full : Bool)
        → Result
            ((if not forced && full then pure Errno.overflow else tried) c)
            (taken_by c.blocks ((forced || not full) && not (is_exit0 s.state)))
    by_room true full = by_blocks c.blocks
    by_room false false = by_blocks c.blocks
    by_room false true = full_up c.blocks

    accepted :
        (bs : List Block)
        → taken_by bs ((force || not (leb s.capacity (length s.queue))) && not (is_exit0 s.state))
          ≡ accepts s force bs
    accepted [] = refl
    accepted (none ∷ rest) = refl
    accepted (some b ∷ rest) = refl
