-- ===== src/Service/Registered.antt =====
-- eaf_register, and the search for the service that it registers.
use eaf.Prelude.{
  ℕ, suc, ◌≡◌, refl, sym, ap, ◌∙◌, Bool, true, false, not, ◌||◌, Option, none, some, List, [], ◌∷◌,
  ◌==◌, if◌then◌else◌, get_elem?, set, subst, arith, Bool-cases, inl, inr,
}
use eaf.Prelude.Int
use eaf.Prelude.Int.{ℤ, pos, is_negative}
use eaf.Errno
use eaf.Service.{Service, Group, Ctx, User, Entry, service_register}
use eaf.Service.Locked
use eaf.Service.Locked.Lists.{get_elem?-set}
use eaf.Service.Runtime
use eaf.Service.Runtime.{
  M, pure, ◌>>=◌, ◌>>◌, get_group, get_service, with_group, service, find_in_table, find_service,
  has_hook, hook_int, hook_service_register, record_call,
}
use eaf.Service.Life.{is_init}
use eaf.Service.Register.{find_to_register, register}
use eaf.Service.Keeps.{At, some_eq, group-at, service-at}
use eaf.Service.Find.{
  FoundIn, FoundInGroups, find_in_table_lem, first_group, later_group, no_group, UniqueIds,
  find_service_lem,
}

find_to_register_lem :
    (id k : ℕ) (gs : List Group) → FoundInGroups id k gs (find_to_register id k gs)
unfolding find_to_register FoundInGroups
find_to_register_lem id k [] = λ i si g t e. cc
find_to_register_lem id k (g ∷ gs) =
    by_later (find_to_register id (suc k) gs) (find_to_register_lem id (suc k) gs)
      (find_in_table id 0 g.table) (find_in_table_lem id 0 g.table)
  where
    by_later :
        (later : Option (ℕ × ℕ × Service))
        → FoundInGroups id (suc k) gs later
        → (o : Option (ℕ × Service)) → FoundIn id 0 g.table o
        → FoundInGroups id k (g ∷ gs) (elim later [
          | some found ↦ some found
          | none ↦ elim o [ none ↦ none | some (si, s) ↦ some (k, si, s) ]
        ])
    by_later (some (gi, si, s)) fl o f = later_group id k g gs gi si s fl
    by_later none fl (some (si, s)) f = first_group id k g gs si s f
    by_later none fl none f = no_group id k g gs f fl

-- A service of a context is replaced.
module _ (c : Ctx) (gi si : ℕ) (s s' : Service) (g : Group) (at : get_group c gi ≡ some g)
    (at' : get_elem? g.table si ≡ some s) where
  changed : Ctx
  changed = with_group c gi (Locked.put_service g si s')

  At-changed : At changed gi si s'
  unfolding changed
  At-changed = (
    Locked.put_service g si s',
    ground (arith, get_elem?-set c.groups gi gi (Locked.put_service g si s') g at),
    ground (arith, get_elem?-set g.table si si s' s at'),
  )

  -- Every service of the changed context was one before, at the same place, with the same id.
  origin :
      s'.id ≡ s.id
      → (gj sj : ℕ) (t : Service) → At changed gj sj t
      → (t0 : Service) × At c gj sj t0 × (t0.id ≡ t.id)
  unfolding changed
  origin same gj sj t (h, bt, bt') = elim (Bool-cases (gj == gi)) [
    | inl here ↦
        let g_is : Locked.put_service g si s' ≡ h =
          some_eq (Locked.put_service g si s') h
            (sym (get_elem?-set c.groups gi gj (Locked.put_service g si s') g at ∙ rw here) ∙ bt) in
        let gq : gj ≡ gi = ground arith in
        let bt2 : get_elem? (set g.table si s') sj ≡ some t =
          subst (λ x. get_elem? x.table sj ≡ some t) (sym g_is) bt' in
        let at2 : get_group c gj ≡ some g = rw gq at in
        elim (Bool-cases (sj == si)) [
          | inl there ↦
              let sq : sj ≡ si = ground arith in
              let t_is : s' ≡ t =
                some_eq s' t (sym (get_elem?-set g.table si sj s' s at' ∙ rw there) ∙ bt2) in
              (s, (g, at2, (rw sq at')), sym same ∙ ap (λ x. x.id) t_is)
          | inr other ↦
              (t, (g, at2, sym (get_elem?-set g.table si sj s' s at' ∙ rw other) ∙ bt2), refl)
        ]
    | inr other ↦ (
      t,
      (
        h,
        sym (get_elem?-set c.groups gi gj (Locked.put_service g si s') g at ∙ rw other) ∙ bt,
        bt',
      ),
      refl,
    )
  ]

  changed-UniqueIds : s'.id ≡ s.id → UniqueIds c → UniqueIds changed
  unfolding UniqueIds
  changed-UniqueIds same unique gj sj gk sk t w bt bw e =
      let (t0, bt0, e0) = origin same gj sj t bt in
      let (w0, bw0, e1) = origin same gk sk w bw in
      unique gj sj gk sk t0 w0 bt0 bw0 (e0 ∙ e ∙ sym e1)

-- What a registration leaves: the service with the id has the entry, and the search finds it.
abbrev pub IsEntered : ℕ → Entry → Ctx → Ctx → Type 0
IsEntered id entry c c' =
    (gi : ℕ) × (si : ℕ) × (s : Service) × At c gi si s
    × (s.id ≡ id)
    × (s.entry ≡ none)
    × At c' gi si (record s { entry = some entry })
    × (find_service id c' ≡ some (gi, si))

abbrev Done : Ctx → Option (ℤ × Ctx) → Type 0
Done c' r = r ≡ some (Errno.success, c')

with_entry : Entry → ℕ → ℕ → M ℤ
with_entry entry gi si = do
  s ← service gi si
  Runtime.put_service gi si (record s { entry = some entry })
  pure Errno.success

-- The registration itself, after the hook.
module _ (id : ℕ) (entry : Entry) (c c1 c' : Ctx) (groups_same : c1.groups ≡ c.groups)
    (unique : UniqueIds c) where
  unique1 : UniqueIds c1
  unfolding UniqueIds
  unique1 gi si gj sj s t (g, at, at') (h, bt, bt') e =
      unique gi si gj sj s t (g, ap (λ x. get_elem? x gi) (sym groups_same) ∙ at, at')
        (h, ap (λ x. get_elem? x gj) (sym groups_same) ∙ bt, bt') e

  entered :
      (gi si : ℕ) (s : Service)
      → At c gi si s
      → s.id ≡ id
      → s.entry ≡ none
      → with_entry entry gi si c1 ≡ some (Errno.success, c')
      → IsEntered id entry c c'
  unfolding Runtime.put_service Runtime.put_group with_entry changed
  entered gi si s (g, at, at') same no_entry run =
      let at1 : get_group c1 gi ≡ some g = ap (λ x. get_elem? x gi) groups_same ∙ at in
      let there : get_service c1 gi si ≡ some s = rw (get_service, at1) at' in
      let s' = record s { entry = some entry } in
      let c2 = changed c1 gi si s s' g at1 at' in
      let ran : with_entry entry gi si c1 ≡ some (Errno.success, c2) =
        rw (service-at c1 gi si s there, ◌>>=◌, group-at c1 gi g at1) refl in
      let c_is : c2 ≡ c' = ap (λ r. elim r [ none ↦ c2 | some x ↦ x.1 ]) (sym ran ∙ run) in
      let now = At-changed c1 gi si s s' g at1 at' in
      let found =
        (find_service_lem id c2).1 (changed-UniqueIds c1 gi si s s' g at1 at' refl unique1) gi si s'
          entry now same refl in
      (
        gi,
        si,
        s,
        (g, at, at'),
        same,
        no_entry,
        subst (λ x. At x gi si s') c_is now,
        subst (λ x. find_service id x ≡ some (gi, si)) c_is found,
      )

  hooked :
      (ret : ℤ) (gi si : ℕ) (s : Service)
      → At c gi si s
      → s.id ≡ id
      → s.entry ≡ none
      → Done c' ((if is_negative ret then pure ret else with_entry entry gi si) c1)
      → IsEntered id entry c c'
  hooked ret gi si s at same no_entry run = elim (Bool-cases (is_negative ret)) [
    | inl negative ↦ absurd (refused ret negative (rw negative at run))
    | inr other ↦ entered gi si s at same no_entry (rw other at run)
  ]
    where
      ret_of : Option (ℤ × Ctx) → ℤ
      ret_of none = pos 0
      ret_of (some (r, x)) = r

      refused : (r : ℤ) → is_negative r ≡ true → Done c' (some (r, c1)) → ⊥
      refused r negative e =
          let zero_ret : r ≡ pos 0 = ap ret_of e in
          let impossible : is_negative (pos 0) ≡ true = ap is_negative (sym zero_ret) ∙ negative in
          cc impossible

-- A registration that succeeds, where no two services have the same id: the service with the id had
-- no entry, has the one given now, and `_eaf_service_find_service` finds it.
pub register_lem :
    (u : User) (id : ℕ) (entry : Entry) (c c' : Ctx)
    → UniqueIds c
    → register u id entry c ≡ some (Errno.success, c')
    → IsEntered id entry c c'
unfolding register hook_service_register hook_int record_call FoundInGroups with_entry
register_lem u id entry c c' unique run = by_state (is_init c.state) run
  where
    Ran : Option (ℤ × Ctx) → Type 0
    Ran = Done c'

    stored : ℕ → ℕ → M ℤ
    stored gi si = hook_service_register u id >>= λ ret.
        if is_negative ret then pure ret else with_entry entry gi si

    searched : Option (ℕ × ℕ × Service) → M ℤ
    searched o = elim o [
      | none ↦ pure Errno.notfound
      | some (gi, si, found) ↦ elim found.entry [
        | some e ↦ pure Errno.duplicate
        | none ↦ stored gi si
      ]
    ]

    fails : (n : ℕ) → Ran (some (Int.negsuc n, c)) → IsEntered id entry c c'
    fails n e = absurd (never e)
      where
        never : Ran (some (Int.negsuc n, c)) → ⊥
        never e2 = cc

    by_hook :
        (b : Bool) (gi si : ℕ) (s : Service)
        → At c gi si s
        → s.id ≡ id
        → s.entry ≡ none
        → Ran
            (elim (if b
              then (record_call (service_register id) >> pure (u.answers (service_register id) c)) c
              else some (pos 0, c)) [
                | none ↦ none
                | some (ret, c1) ↦ (if is_negative ret then pure ret else with_entry entry gi si) c1
              ])
        → IsEntered id entry c c'
    by_hook true gi si s at same no_entry e =
        hooked id entry c (record c { calls = service_register id ∷ c.calls }) c' refl unique
          (u.answers (service_register id) c) gi si s at same no_entry e
    by_hook false gi si s at same no_entry e =
        hooked id entry c c c' refl unique (pos 0) gi si s at same no_entry e

    by_entry :
        (o : Option Entry) (gi si : ℕ) (s : Service)
        → At c gi si s
        → s.id ≡ id
        → s.entry ≡ o
        → Ran ((elim o as (λ _. M ℤ) [ some e ↦ pure Errno.duplicate | none ↦ stored gi si ]) c)
        → IsEntered id entry c c'
    by_entry none gi si s at same no_entry e =
        by_hook (has_hook (λ k. k.on_service_register) c) gi si s at same no_entry e
    by_entry (some old) gi si s at same has_entry e = fails 1 e

    by_found :
        (o : Option (ℕ × ℕ × Service))
        → FoundInGroups id 0 c.groups o
        → Ran (searched o c)
        → IsEntered id entry c c'
    by_found none f e = fails 4 e
    by_found (some (gi, si, s)) (j, g, q, at, at', same) e =
        let place : gi ≡ j = omega (arith, q) in
        by_entry s.entry gi si s (g, (rw place at), at') same refl e

    by_entry_points :
        (b : Bool)
        → Ran ((if b then pure Errno.invalid else searched (find_to_register id 0 c.groups)) c)
        → IsEntered id entry c c'
    by_entry_points true e = fails 7 e
    by_entry_points false e =
        by_found (find_to_register id 0 c.groups) (find_to_register_lem id 0 c.groups) e

    by_state :
        (b : Bool)
        → Ran (
            (if not b
                then pure Errno.state
                else if (entry.on_init == 0) || (entry.on_exit == 0)
                then pure Errno.invalid
                else searched (find_to_register id 0 c.groups))
              c)
        → IsEntered id entry c c'
    by_state true e = by_entry_points ((entry.on_init == 0) || (entry.on_exit == 0)) e
    by_state false e = fails 3 e
