-- ===== src/Service/Boot/Enter.antt =====
-- What eaf_register keeps of groups that are not loaded.
use eaf.Prelude.{
  ℕ, ◌≡◌, refl, sym, ◌∙◌, not, ◌||◌, Option, none, some, ◌==◌, if◌then◌else◌, get_elem?, set, subst,
  Bool-cases, inl, inr,
}
use eaf.Prelude.Int.{ℤ, is_negative}
use eaf.Errno
use eaf.Service.{Service, Group, Ctx, User, Entry}
use eaf.Service.Locked.{put_service}
use eaf.Service.Locked.Lists.{put_service-IsListed, get_elem?-set}
use eaf.Service.Runtime
use eaf.Service.Runtime.{
  M, pure, ◌>>=◌, ◌>>◌, service, get_group, modify, hook_service_register, hook_load_before,
  has_hook, hook_void, record_call,
}
use eaf.Service.Keeps.{
  Keeps, Everywhere, Stays, Keeps-pure, Stays-if_at, Keeps-if, Keeps-bind, Keeps-hook_int,
  Keeps-changed,
}
use eaf.Service.Life.{is_init}
use eaf.Service.Register.{register, find_to_register}
use eaf.Service.Keeps.{some_eq}
use eaf.Service.Boot.New.{IsNewService, IsNew}

-- A service gets its entry.
pub entered :
    (entry : Entry) (gi : ℕ) (g : Group) (si : ℕ) (s : Service)
    → get_elem? g.table si ≡ some s
    → IsNew gi g
    → IsNew gi (put_service g si (record s { entry = some entry }))
entered entry gi g si s at p = (
  put_service-IsListed g si s at p.0 (record s { entry = some entry }) refl,
  λ i t e. elim (Bool-cases (i == si)) [
    | inl here ↦
        subst IsNewService (some_eq (record s { entry = some entry }) t (sym (got i ∙ rw here) ∙ e))
          (p.1 si s at)
    | inr other ↦ p.1 i t (sym (got i ∙ rw other) ∙ e)
  ],
)
  where
    got :
        (i : ℕ)
        → get_elem? (set g.table si (record s { entry = some entry })) i
          ≡ (if i == si then some (record s { entry = some entry }) else get_elem? g.table i)
    got i = get_elem?-set g.table si i (record s { entry = some entry }) s at

pub register-Keeps :
    (u : User) (id : ℕ) (entry : Entry) → Keeps (Everywhere IsNew) (register u id entry)
unfolding register hook_service_register
register-Keeps u id entry c v = Stays-if_at N c (not (is_init c.state)) _ _ v (
    Stays-if_at N c ((entry.on_init == 0) || (entry.on_exit == 0)) _ _ v
      (by_found (find_to_register id 0 c.groups)))
  where
    N : Ctx → Type 0
    N = Everywhere IsNew

    written : ℕ → ℕ → M ℤ
    written gi si = hook_service_register u id >>= λ ret. if is_negative ret then pure ret else (do
      s ← service gi si
      Runtime.put_service gi si (record s { entry = some entry })
      pure Errno.success)

    written-Keeps : (gi si : ℕ) → Keeps N (written gi si)
    written-Keeps gi si =
        Keeps-bind N (hook_service_register u id) _ (Keeps-hook_int IsNew u _ _) λ ret.
          Keeps-if N (is_negative ret) (pure ret) _ (Keeps-pure N ret) (
            Keeps-changed IsNew gi si (λ s. record s { entry = some entry }) _
              (λ g s at p. entered entry gi g si s at p) (λ s. Keeps-pure N Errno.success))

    by_entry :
        (o : Option Entry) (gi si : ℕ)
        → Stays N (elim o as (λ _. M ℤ) [ some e ↦ pure Errno.duplicate | none ↦ written gi si ] c)
    by_entry none gi si = written-Keeps gi si c v
    by_entry (some e) gi si = v

    by_found :
        (o : Option (ℕ × ℕ × Service))
        → Stays N (
            elim o as (λ _. M ℤ) [
              | none ↦ pure Errno.notfound
              | some (gi, si, found) ↦ elim found.entry [
                | some e ↦ pure Errno.duplicate
                | none ↦ written gi si
              ]
            ]
              c)
    by_found none = v
    by_found (some (gi, si, found)) = by_entry found.entry gi si
