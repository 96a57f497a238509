-- ===== src/Service/Register.antt =====
-- eaf_register, eaf_inject and eaf_uninject.
use eaf.Prelude.{ℕ, suc, ◌||◌, not, Option, none, some, List, [], ◌∷◌, ◌==◌, if◌then◌else◌}
use eaf.Prelude.Int.{ℤ, is_negative}
use eaf.Errno
use eaf.Service.{Service, Group, Entry, Hook, User}
use eaf.Service.Runtime.{
  M, pure, ◌>>=◌, ◌>>◌, context, modify, service, put_service, find_in_table, hook_service_register,
}
use eaf.Service.Life.{is_init}

-- The two loops of eaf_register. The `break` leaves the inner one only, so a later group that has the
-- id wins.
unfoldable pub find_to_register : ℕ → ℕ → List Group → Option (ℕ × ℕ × Service)
unfolding find_in_table
find_to_register id gi [] = none
find_to_register id gi (g ∷ rest) = elim (find_to_register id (suc gi) rest) [
  | some found ↦ some found
  | none ↦ elim (find_in_table id 0 g.table) [ none ↦ none | some (si, s) ↦ some (gi, si, s) ]
]

-- eaf_register, where there is a context.
unfoldable pub register : User → ℕ → Entry → M ℤ
unfolding find_to_register service put_service hook_service_register
register u id entry = do
  c ← context
  if not (is_init c.state)
      then pure Errno.state
      else if (entry.on_init == 0) || (entry.on_exit == 0)
      then pure Errno.invalid
      else elim (find_to_register id 0 c.groups) [
        | none ↦ pure Errno.notfound
        | some (gi, si, found) ↦ elim found.entry [
          | some e ↦ pure Errno.duplicate
          | none ↦ (do
            ret ← hook_service_register u id
            if is_negative ret then pure ret else (do
              s ← service gi si
              put_service gi si (record s { entry = some entry })
              pure Errno.success))
        ]
      ]

-- eaf_inject; `hook_size` is `sizeof(eaf_hook_t)`.
unfoldable pub inject : ℕ → Hook → ℕ → M ℤ
inject hook_size hook size = do
  c ← context
  if not (size == hook_size) then pure Errno.invalid else elim c.hook [
    | some k ↦ pure Errno.duplicate
    | none ↦ modify (λ c'. record c' { hook = some hook }) >> pure Errno.success
  ]

abbrev pub hook_address : Option Hook → ℕ
hook_address none = 0
hook_address (some k) = k.address

-- eaf_uninject of the hook at an address; `NULL`, which is 0, matches where there is none.
unfoldable pub uninject : ℕ → M ℤ
uninject address = do
  c ← context
  if not (hook_address c.hook == address)
      then pure Errno.invalid
      else (do modify (λ c'. record c' { hook = none }); pure Errno.success)
