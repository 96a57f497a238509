-- ===== src/Service/Runtime.antt =====
-- Commands of src/core/service.c: they change the context, or fault (an access to what is not there,
-- or an `assert` that fails). The hooks, the search for a service, and access to the tables.
pub use eaf.Prelude.Commands.{pure, ◌>>=◌, ◌>>◌}
use eaf.Prelude.{
  ℕ, suc, ◌+◌, Bool, false, Option, none, some, List, [], ◌∷◌, ◌==◌, if◌then◌else◌, get_elem?, set,
}
use eaf.Prelude.Int.{ℤ, pos}
use eaf.Message
use eaf.Message.{Ptr, Block}
use eaf.Service.{
  Service, Group, Hook, Ctx, Call, User, service_init_before, service_init_after,
  service_exit_before, service_exit_after, service_yield, service_resume, service_register,
  message_send_before, message_send_after, message_handle_before, message_handle_after, load_before,
  load_after, exit_before,
}

abbrev pub M : Type 0 → Type 0
M A = Ctx → Option (A × Ctx)

abbrev pub fault : {A : Type 0} → M A
fault c = none

abbrev pub context : M Ctx
context c = some (c, c)

abbrev pub modify : (Ctx → Ctx) → M (Unit {0})
modify f c = some (tt, f c)

abbrev pub or_fault : {A : Type 0} → Option A → M A
or_fault none = fault
or_fault (some a) = pure a

-- A command of the message memory.
unfoldable pub on_memory : {A : Type 0} → Message.M A → M A
on_memory m c = elim (m c.memory) [ none ↦ none | some (a, h) ↦ some (a, record c { memory = h }) ]

-- The next block of `malloc`; none is left when the memory is used up.
unfoldable pub malloc : M Block
malloc c = elim c.blocks [ [] ↦ some (none, c) | b ∷ rest ↦ some (b, record c { blocks = rest }) ]

abbrev pub get_group : Ctx → ℕ → Option Group
get_group c gi = get_elem? c.groups gi

abbrev pub get_service : Ctx → ℕ → ℕ → Option Service
get_service c gi si = elim (get_group c gi) [ none ↦ none | some g ↦ get_elem? g.table si ]

abbrev pub with_group : Ctx → ℕ → Group → Ctx
with_group c gi g = record c { groups = set c.groups gi g }

unfoldable pub group : ℕ → M Group
group gi c = elim (get_group c gi) [ none ↦ none | some g ↦ some (g, c) ]

unfoldable pub service : ℕ → ℕ → M Service
service gi si c = elim (get_service c gi si) [ none ↦ none | some s ↦ some (s, c) ]

unfoldable pub put_group : ℕ → Group → M (Unit {0})
put_group gi g = modify (λ c. with_group c gi g)

unfoldable pub put_service : ℕ → ℕ → Service → M (Unit {0})
unfolding group put_group
put_service gi si s = do g ← group gi; put_group gi (record g { table = set g.table si s })

-- `eaf_compat_sem_post` on the semaphore of a group.
unfoldable pub post : ℕ → M (Unit {0})
unfolding group put_group
post gi = do g ← group gi; put_group gi (record g { sem = g.sem + 1 })

unfoldable pub record_call : Call → M (Unit {0})
record_call call = modify (λ c. record c { calls = call ∷ c.calls })

abbrev pub has_hook : (Hook → Bool) → Ctx → Bool
has_hook member c = elim c.hook [ none ↦ false | some k ↦ member k ]

-- A hook without a result, and one with a result (0 if it is not there).
unfoldable pub hook_void : (Hook → Bool) → Call → M (Unit {0})
unfolding record_call
hook_void member call c = if has_hook member c then record_call call c else some (tt, c)

module _ (u : User) where
  unfoldable pub hook_int : (Hook → Bool) → Call → M ℤ
  unfolding record_call
  hook_int member call c =
      if has_hook member c then (record_call call >> pure (u.answers call c)) c else some (pos 0, c)

  unfoldable pub hook_message_handle_before : ℕ → ℕ → Ptr → M ℤ
  unfolding hook_int
  hook_message_handle_before from to msg =
      hook_int (λ k. k.on_message_handle_before) (message_handle_before from to msg)

  unfoldable pub hook_service_register : ℕ → M ℤ
  unfolding hook_int
  hook_service_register id = hook_int (λ k. k.on_service_register) (service_register id)

  unfoldable pub hook_message_send_before : ℕ → ℕ → Ptr → M ℤ
  unfolding hook_int
  hook_message_send_before from to msg =
      hook_int (λ k. k.on_message_send_before) (message_send_before from to msg)

unfoldable pub hook_message_handle_after : ℕ → ℕ → Ptr → M (Unit {0})
unfolding hook_void
hook_message_handle_after from to msg =
    hook_void (λ k. k.on_message_handle_after) (message_handle_after from to msg)

unfoldable pub hook_message_send_after : ℕ → ℕ → Ptr → ℤ → M (Unit {0})
unfolding hook_void
hook_message_send_after from to msg ret =
    hook_void (λ k. k.on_message_send_after) (message_send_after from to msg ret)

unfoldable pub hook_service_yield : ℕ → M (Unit {0})
unfolding hook_void
hook_service_yield id = hook_void (λ k. k.on_service_yield) (service_yield id)

unfoldable pub hook_service_resume : ℕ → M (Unit {0})
unfolding hook_void
hook_service_resume id = hook_void (λ k. k.on_service_resume) (service_resume id)

unfoldable pub hook_service_init_before : ℕ → M (Unit {0})
unfolding hook_void
hook_service_init_before id = hook_void (λ k. k.on_service_init_before) (service_init_before id)

unfoldable pub hook_service_init_after : ℕ → M (Unit {0})
unfolding hook_void
hook_service_init_after id = hook_void (λ k. k.on_service_init_after) (service_init_after id)

unfoldable pub hook_service_exit_before : ℕ → M (Unit {0})
unfolding hook_void
hook_service_exit_before id = hook_void (λ k. k.on_service_exit_before) (service_exit_before id)

unfoldable pub hook_service_exit_after : ℕ → M (Unit {0})
unfolding hook_void
hook_service_exit_after id = hook_void (λ k. k.on_service_exit_after) (service_exit_after id)

unfoldable pub hook_cleanup_before : M (Unit {0})
unfolding hook_void
hook_cleanup_before = hook_void (λ k. k.on_exit_before) exit_before

unfoldable pub hook_load_before : M (Unit {0})
unfolding hook_void
hook_load_before = hook_void (λ k. k.on_load_before) load_before

unfoldable pub hook_load_after : ℤ → M (Unit {0})
unfolding hook_void
hook_load_after ret = hook_void (λ k. k.on_load_after) (load_after ret)

-- The loops of `_eaf_service_find_service`: the first service with the id, from place `si` on of the
-- services, and from group `gi` on.
unfoldable pub find_in_table : ℕ → ℕ → List Service → Option (ℕ × Service)
find_in_table id si [] = none
find_in_table id si (s ∷ rest) = if s.id == id then some (si, s) else find_in_table id (suc si) rest

unfoldable pub find_in_groups : ℕ → ℕ → List Group → Option (ℕ × ℕ × Service)
unfolding find_in_table
find_in_groups id gi [] = none
find_in_groups id gi (g ∷ rest) =
    let later = find_in_groups id (suc gi) rest in
    elim (find_in_table id 0 g.table) [ none ↦ later | some (si, s) ↦ some (gi, si, s) ]

-- `_eaf_service_find_service`: the place of the service, unless it has no entry.
unfoldable pub find_service : ℕ → Ctx → Option (ℕ × ℕ)
unfolding find_in_groups
find_service id c = elim (find_in_groups id 0 c.groups) [
  | none ↦ none
  | some (gi, si, s) ↦ elim s.entry [ none ↦ none | some e ↦ some (gi, si) ]
]
