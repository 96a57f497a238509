-- ===== src/Service/Keeps.antt =====
-- Rules for what the commands of the runtime keep: a property `P` of every group of the context.
pub mod Basic
use eaf.Prelude.{
  ℕ, ◌≡◌, refl, sym, ap, ◌∙◌, Bool, true, false, Option, none, some, List, [], ◌∷◌, ◌==◌,
  if◌then◌else◌, get_elem?, set, arith, Bool-cases, inl, inr, subst,
}
use eaf.Message
use eaf.Service.{Service, Group, Ctx, Call, Hook, User}
use eaf.Service.Locked.Lists.{get_elem?-set}
use eaf.Service.Locked
use eaf.Service.Runtime.{
  M, pure, ◌>>=◌, ◌>>◌, or_fault, on_memory, malloc, get_group, get_service, with_group, group,
  service, put_group, put_service, record_call, hook_void, hook_int, has_hook,
}
pub use eaf.Service.Keeps.Basic.{
  Stays, Keeps, Keeps-bind, Stays-then, Keeps-then, Keeps-pure, Keeps-if, Stays-if_at, Stays-if,
  Keeps-or_fault, Everywhere, some_eq, Everywhere-with, At, At-unique, group-none, group-at,
  service-none, service-at, place_of,
}

module _ (P : ℕ → Group → Type 0) {B : Type 0} (gi : ℕ) where
  -- A group is read, and goes into the rest of the command.
  pub reads_group :
      (c : Ctx) (k : Group → M B)
      → ((g : Group) → get_group c gi ≡ some g → Stays (Everywhere P) (k g c))
      → Stays (Everywhere P) ((group gi >>= k) c)
  reads_group c k kk = by_group (get_group c gi) refl
    where
      by_group : (o : Option Group) → get_group c gi ≡ o → Stays (Everywhere P) ((group gi >>= k) c)
      by_group none e = rw (group-none c gi e, ◌>>=◌) tt
      by_group (some g) e = rw (group-at c gi g e, ◌>>=◌) (kk g e)

  -- So a service, with the group that it stands in.
  pub reads_service :
      (c : Ctx) (si : ℕ) (k : Service → M B)
      → ((s : Service) (g : Group)
          → get_group c gi ≡ some g
          → get_elem? g.table si ≡ some s
          → Stays (Everywhere P) (k s c))
      → Stays (Everywhere P) ((service gi si >>= k) c)
  reads_service c si k kk = by_service (get_service c gi si) refl
    where
      by_service :
          (o : Option Service)
          → get_service c gi si ≡ o
          → Stays (Everywhere P) ((service gi si >>= k) c)
      by_service none e = rw (service-none c gi si e, ◌>>=◌) tt
      by_service (some s) e =
          let (g, at, at') = place_of c gi si s e in
          rw (service-at c gi si s e, ◌>>=◌) (kk s g at at')

  -- A group is written back.
  pub Keeps-put_group :
      (c : Ctx) (g0 g : Group) (k : M B)
      → get_group c gi ≡ some g0
      → Everywhere P c
      → P gi g
      → Keeps (Everywhere P) k
      → Stays (Everywhere P) ((put_group gi g >> k) c)
  unfolding put_group
  Keeps-put_group c g0 g k at v p kk = kk (with_group c gi g) (Everywhere-with P c gi g0 g at v p)

  -- A critical section: the group and one of its services are read, and the group is written.
  pub Keeps-locked :
      (si : ℕ) (F : Group → Service → Group) (k : Group → Service → M B)
      → ((g : Group) (s : Service) → get_elem? g.table si ≡ some s → P gi g → P gi (F g s))
      → ((g : Group) (s : Service) → Keeps (Everywhere P) (k g s))
      → Keeps
          (Everywhere P)
          (group gi >>= λ g. service gi si >>= λ s. put_group gi (F g s) >> k g s)
  Keeps-locked si F k pf kk c v = reads_group c _ λ g at.
      reads_service c si (λ s. put_group gi (F g s) >> k g s)
        λ s g' at1 at2.
          let same = some_eq g' g (sym at1 ∙ at) in
          let at3 = subst (λ t. get_elem? t.table si ≡ some s) same at2 in
          Keeps-put_group c g (F g s) (k g s) at v (pf g s at3 (v gi g at)) (kk g s)

  -- A service is read, and written back changed.
  pub Keeps-put_service :
      (c : Ctx) (si : ℕ) (s s' : Service) (g : Group) (k : M B)
      → get_group c gi ≡ some g
      → Everywhere P c
      → P gi (Locked.put_service g si s')
      → Keeps (Everywhere P) k
      → Stays (Everywhere P) ((put_service gi si s' >> k) c)
  unfolding put_service
  Keeps-put_service c si s s' g k at v p kk =
      rw (group-at c gi g at, ◌>>=◌) (Keeps-put_group c g (Locked.put_service g si s') k at v p kk)

  pub Keeps-changed :
      (si : ℕ) (f : Service → Service) (k : Service → M B)
      → ((g : Group) (s : Service)
          → get_elem? g.table si ≡ some s
          → P gi g
          → P gi (Locked.put_service g si (f s)))
      → ((s : Service) → Keeps (Everywhere P) (k s))
      → Keeps (Everywhere P) (service gi si >>= λ s. put_service gi si (f s) >> k s)
  Keeps-changed si f k pf kk c v =
      reads_service c si _
        λ s g at at'. Keeps-put_service c si s (f s) g (k s) at v (pf g s at' (v gi g at)) (kk s)

  -- A group is read and written back.
  pub Keeps-changed_group :
      (F : Group → Group) (k : Group → M B)
      → ((g : Group) → P gi g → P gi (F g))
      → ((g : Group) → Keeps (Everywhere P) (k g))
      → Keeps (Everywhere P) (group gi >>= λ g. put_group gi (F g) >> k g)
  Keeps-changed_group F k pf kk c v =
      reads_group c _ λ g at. Keeps-put_group c g (F g) (k g) at v (pf g (v gi g at)) (kk g)

  pub Keeps-group :
      (k : Group → M B)
      → ((g : Group) → Keeps (Everywhere P) (k g))
      → Keeps (Everywhere P) (group gi >>= k)
  Keeps-group k kk c v = reads_group c k λ g at. kk g c v

  pub Keeps-service :
      (si : ℕ) (k : Service → M B)
      → ((s : Service) → Keeps (Everywhere P) (k s))
      → Keeps (Everywhere P) (service gi si >>= k)
  Keeps-service si k kk c v = reads_service c si k λ s g at at'. kk s c v

-- The commands that leave the groups alone.
module _ (P : ℕ → Group → Type 0) where
  pub Keeps-on_memory : {A : Type 0} (m : Message.M A) → Keeps (Everywhere P) (on_memory m)
  unfolding on_memory
  Keeps-on_memory {A} m c v = by_result (m c.memory)
    where
      by_result :
          (r : Option (A × Message.Memory))
          → Stays
              (Everywhere P)
              (elim r [ none ↦ none | some (a, h) ↦ some (a, record c { memory = h }) ])
      by_result none = tt
      by_result (some (a, h)) = v

  pub Keeps-malloc : Keeps (Everywhere P) malloc
  unfolding malloc
  Keeps-malloc c v = by_blocks c.blocks
    where
      by_blocks :
          (bs : List Message.Block)
          → Stays
              (Everywhere P)
              (elim bs [ [] ↦ some (none, c) | b ∷ rest ↦ some (b, record c { blocks = rest }) ])
      by_blocks [] = v
      by_blocks (b ∷ rest) = v

  pub Keeps-record_call : (call : Call) → Keeps (Everywhere P) (record_call call)
  unfolding record_call
  Keeps-record_call call c v = v

  pub Keeps-hook_void : (k : Hook → Bool) (call : Call) → Keeps (Everywhere P) (hook_void k call)
  unfolding hook_void
  Keeps-hook_void k call c v = Stays-if (Everywhere P) (has_hook k c) _ _ v v

  pub Keeps-hook_int :
      (u : User) (k : Hook → Bool) (call : Call) → Keeps (Everywhere P) (hook_int u k call)
  unfolding hook_int
  Keeps-hook_int u k call c v = Stays-if (Everywhere P) (has_hook k c) _ _ v v

  -- A write to the group that ends a command.
  pub Keeps-last_group :
      (gi : ℕ) (F : Group → Group)
      → ((g : Group) → P gi g → P gi (F g))
      → Keeps (Everywhere P) (group gi >>= λ g. put_group gi (F g))
  unfolding put_group
  Keeps-last_group gi F pf c v =
      reads_group P gi c _ λ g at. Everywhere-with P c gi g (F g) at v (pf g (v gi g at))

  pub Keeps-last_locked :
      (gi si : ℕ) (F : Group → Service → Group)
      → ((g : Group) (s : Service) → get_elem? g.table si ≡ some s → P gi g → P gi (F g s))
      → Keeps (Everywhere P) (group gi >>= λ g. service gi si >>= λ s. put_group gi (F g s))
  unfolding put_group
  Keeps-last_locked gi si F pf c v =
      Keeps-locked P gi si F (λ g s. pure tt) pf (λ g s c' v'. v') c v

  pub Keeps-last_changed :
      (gi si : ℕ) (f : Service → Service)
      → ((g : Group) (s : Service)
          → get_elem? g.table si ≡ some s
          → P gi g
          → P gi (Locked.put_service g si (f s)))
      → Keeps (Everywhere P) (service gi si >>= λ s. put_service gi si (f s))
  unfolding put_service put_group
  Keeps-last_changed gi si f pf c v = reads_service P gi c si _ λ s g at at'.
      rw (group-at c gi g at, ◌>>=◌)
        (Everywhere-with P c gi g (Locked.put_service g si (f s)) at v (pf g s at' (v gi g at)))
