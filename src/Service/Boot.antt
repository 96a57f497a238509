-- ===== src/Service/Boot.antt =====
-- The way to a loaded program: what eaf_init, eaf_register and eaf_load make of the groups.
pub mod Fix
pub mod Enter
pub mod New
use eaf.Prelude.{
  ℕ, zero, suc, ◌+◌, ◌<◌, ◌≡◌, refl, sym, ap, ◌∙◌, Bool, true, false, not, ◌||◌, Option, none, some,
  List, [], ◌∷◌, ◌==◌, map, if◌then◌else◌, get_elem?, set, subst, length, length-set, arith,
  Bool-cases, inl, inr,
}
use eaf.Prelude.Int.{ℤ, is_negative}
use eaf.Errno
use eaf.Message.{Memory, Block}
use eaf.Sequence.{count-append, push_back}
use eaf.Service.{
  init0, init1, init2, exit1, Service, Group, Ctx, User, Entry, Hook, CtxState, load_before,
}
use eaf.Service.Locked.{put_service, set_state_of}
use eaf.Service.Locked.Lists.{IsListed, set_state_of-IsListed, put_service-IsListed, get_elem?-set}
use eaf.Service.Locked.Settled.{Calm, CalmService, set_state_of-table}
use eaf.Service.Runtime
use eaf.Service.Runtime.{
  M, pure, ◌>>=◌, ◌>>◌, service, get_group, modify, hook_service_register, hook_load_before,
  has_hook, hook_void, record_call,
}
use eaf.Service.Keeps.{
  Keeps, Everywhere, Stays, Keeps-pure, Stays-if_at, Keeps-if, Keeps-bind, Keeps-hook_int,
  Keeps-changed,
}
use eaf.Service.Invariant.{IsSound, stable-IsSound}
use eaf.Service.Life.{
  ServiceInfo, GroupPlatform, Platform, init_service, init_services, init_group, init, empty_group,
  fresh_ctx, platform_ok, is_init, load_start, Global, fix_group, fix_services, loaded, post_group,
}
use eaf.Service.Register.{register, inject, uninject, find_to_register, hook_address}
use eaf.Service.Boot.Fix.{fix_group-IsSound, get_elem?-map}
use eaf.Service.Boot.Enter.{entered, register-Keeps}
use eaf.Service.Boot.New.{IsNewService, IsNew, init_group-IsNew}

loads_groups : List Group → List Group
loads_groups gs = map post_group (map fix_group gs)

fixed_everywhere :
    (gs : List Group)
    → ((gi : ℕ) (g : Group) → get_elem? gs gi ≡ some g → IsNew gi g)
    → (gi : ℕ) (g : Group) → get_elem? (loads_groups gs) gi ≡ some g
    → IsSound gi g
unfolding loads_groups
fixed_everywhere gs v gi g e =
    let (g1, at1, e1) = get_elem?-map post_group (map fix_group gs) gi g e in
    let (g0, at0, e0) = get_elem?-map fix_group gs gi g1 at1 in
    subst (IsSound gi) (ap post_group e0 ∙ e1)
      (stable-IsSound.posted gi (fix_group g0) (fix_group-IsSound gi g0 (v gi g0 at0)))

-- Where no service of any group is loaded yet (each is in the state init0 on the wait list, without a
-- message), a successful eaf_load leaves each service on the list of its new state, and none in init0;
-- those that await a request or their initialisation have no message.
pub load_start-IsSound :
    (c c' : Ctx)
    → Everywhere IsNew c
    → load_start c ≡ some (Errno.success, c')
    → Everywhere IsSound c'
unfolding load_start hook_load_before hook_void record_call loads_groups
load_start-IsSound c c' v e = by_state (is_init c.state) e
  where
    Loaded : Option (ℤ × Ctx) → Type 0
    Loaded r = r ≡ some (Errno.success, c')

    after : Ctx → Ctx
    after c1 = record c1 { state = CtxState.busy; groups = loads_groups c1.groups }

    loaded_ctx : (c1 : Ctx) → Loaded (some (Errno.success, after c1)) → after c1 ≡ c'
    loaded_ctx c1 e1 = ap (λ r. elim r [ none ↦ c' | some x ↦ x.1 ]) e1

    by_ctx :
        (c1 : Ctx)
        → Everywhere IsNew c1
        → Loaded (some (Errno.success, after c1))
        → Everywhere IsSound c'
    by_ctx c1 v1 e1 = subst (Everywhere IsSound) (loaded_ctx c1 e1) (fixed_everywhere c1.groups v1)

    by_hook :
        (b : Bool)
        → Loaded (elim (if b then record_call load_before c else some (tt, c)) [
          | none ↦ none
          | some (a, c1) ↦ some (Errno.success, after c1)
        ])
        → Everywhere IsSound c'
    by_hook true e1 = by_ctx (record c { calls = load_before ∷ c.calls }) v e1
    by_hook false e1 = by_ctx c v e1

    by_state :
        (b : Bool)
        → Loaded (
            (if not b
                then pure Errno.state
                else (hook_load_before >> (modify after >> pure Errno.success)))
              c)
        → Everywhere IsSound c'
    by_state true e1 = by_hook (has_hook (λ k. k.on_load_before) c) e1
    by_state false e1 = absurd (failed e1)
      where
        failed : Loaded (some (Errno.state, c)) → ⊥
        failed e2 = cc

-- What eaf_init and the calls of eaf_register, eaf_inject and eaf_uninject after it give.
pub data IsRegistered (u : User) : Ctx → Type 0 where
  inits :
      (p : Platform) (memory : Memory) (blocks : List Block) (c : Ctx)
      → init p memory blocks none ≡ (Errno.success, some c)
      → IsRegistered u c
  registers :
      (c c' : Ctx) (id : ℕ) (entry : Entry) (ret : ℤ)
      → IsRegistered u c
      → register u id entry c ≡ some (ret, c')
      → IsRegistered u c'
  injects :
      (c c' : Ctx) (hook_size : ℕ) (hook : Hook) (size : ℕ) (ret : ℤ)
      → IsRegistered u c
      → inject hook_size hook size c ≡ some (ret, c')
      → IsRegistered u c'
  uninjects :
      (c c' : Ctx) (address : ℕ) (ret : ℤ)
      → IsRegistered u c
      → uninject address c ≡ some (ret, c')
      → IsRegistered u c'

init-IsNew :
    (p : Platform) (memory : Memory) (blocks : List Block) (c : Ctx)
    → init p memory blocks none ≡ (Errno.success, some c)
    → Everywhere IsNew c
unfolding init
init-IsNew p memory blocks c e = by_calloc p.calloc e
  where
    Answers : ℤ × Global → Type 0
    Answers r = r ≡ (Errno.success, some c)

    by_groups :
        (o : Option (List Group))
        → init_group p.groups ≡ o
        → Answers (elim o [
          | none ↦ (Errno.unknown, none)
          | some gs ↦ (Errno.success, some (fresh_ctx gs memory blocks))
        ])
        → Everywhere IsNew c
    by_groups none made e1 = absurd (cc e1)
    by_groups (some gs) made e1 =
        let same : fresh_ctx gs memory blocks ≡ c = cc in
        subst (Everywhere IsNew) same (λ gi g at. init_group-IsNew p.groups gs made gi g at)

    by_failure :
        (b : Bool)
        → Answers (
            if b then (Errno.unknown, none) else elim (init_group p.groups) [
              | none ↦ (Errno.unknown, none)
              | some gs ↦ (Errno.success, some (fresh_ctx gs memory blocks))
            ])
        → Everywhere IsNew c
    by_failure true e1 = absurd (unknown e1)
      where
        unknown : Answers (Errno.unknown, none) → ⊥
        unknown e2 = cc
    by_failure false e1 = by_groups (init_group p.groups) refl e1

    by_calloc :
        (b : Bool)
        → Answers (
            if not b
            then (Errno.memory, none)
            else if is_negative p.ready || is_negative p.tls
            then (Errno.unknown, none)
            else elim (init_group p.groups) [
              | none ↦ (Errno.unknown, none)
              | some gs ↦ (Errno.success, some (fresh_ctx gs memory blocks))
            ])
        → Everywhere IsNew c
    by_calloc true e1 = by_failure (is_negative p.ready || is_negative p.tls) e1
    by_calloc false e1 = absurd (exhausted e1)
      where
        exhausted : Answers (Errno.memory, none) → ⊥
        exhausted e2 = cc

inject-Keeps :
    (hook_size : ℕ) (hook : Hook) (size : ℕ) → Keeps (Everywhere IsNew) (inject hook_size hook size)
unfolding inject
inject-Keeps hook_size hook size c v =
    Stays-if_at (Everywhere IsNew) c (not (size == hook_size)) _ _ v (by_hook c.hook)
  where
    by_hook :
        (o : Option Hook)
        → Stays (Everywhere IsNew) (
            elim o as (λ _. M ℤ) [
              | some k ↦ pure Errno.duplicate
              | none ↦ modify (λ c'. record c' { hook = some hook }) >> pure Errno.success
            ]
              c)
    by_hook none = v
    by_hook (some k) = v

uninject-Keeps : (address : ℕ) → Keeps (Everywhere IsNew) (uninject address)
unfolding uninject
uninject-Keeps address c v =
    Stays-if_at (Everywhere IsNew) c (not (hook_address c.hook == address)) _ _ v v

pub IsRegistered-IsNew : (u : User) (c : Ctx) → IsRegistered u c → Everywhere IsNew c
IsRegistered-IsNew u c (inits p memory blocks _ e) = init-IsNew p memory blocks c e
IsRegistered-IsNew u _ (registers c c' id entry ret r e) =
    subst (Stays (Everywhere IsNew)) e (register-Keeps u id entry c (IsRegistered-IsNew u c r))
IsRegistered-IsNew u _ (injects c c' hook_size hook size ret r e) =
    subst (Stays (Everywhere IsNew)) e
      (inject-Keeps hook_size hook size c (IsRegistered-IsNew u c r))
IsRegistered-IsNew u _ (uninjects c c' address ret r e) =
    subst (Stays (Everywhere IsNew)) e (uninject-Keeps address c (IsRegistered-IsNew u c r))
