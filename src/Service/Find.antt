-- ===== src/Service/Find.antt =====
-- The search for a service by its id, and what eaf_register makes of it.
use eaf.Prelude.{
  ℕ, zero, suc, ◌+◌, ◌≡◌, ◌≢◌, refl, sym, ap, ◌∙◌, Option, none, some, List, [], ◌∷◌, ◌==◌,
  get_elem?, subst, arith, Bool-cases, inl, inr,
}
use eaf.Service.{Service, Group, Ctx, Entry}
use eaf.Service.Runtime.{get_group, find_in_table, find_in_groups, find_service}
use eaf.Service.Keeps.{At, At-unique, some_eq}

-- A search through a table gives a service with the id, or there is none.
unfoldable pub FoundIn : ℕ → ℕ → List Service → Option (ℕ × Service) → Type 0
FoundIn id k xs none = (i : ℕ) (t : Service) → get_elem? xs i ≡ some t → t.id ≢ id
FoundIn id k xs (some (si, s)) = (j : ℕ) × (si ≡ k + j) × (get_elem? xs j ≡ some s) × (s.id ≡ id)

pub find_in_table_lem : (id k : ℕ) (xs : List Service) → FoundIn id k xs (find_in_table id k xs)
unfolding find_in_table FoundIn
find_in_table_lem id k [] = λ i t e. cc
find_in_table_lem id k (x ∷ xs) = elim (Bool-cases (x.id == id)) [
  | inl here ↦ rw here (0, (omega arith), refl, (ground arith))
  | inr other ↦
      rw other
        (later (find_in_table id (suc k) xs) (ground arith) (find_in_table_lem id (suc k) xs))
]
  where
    later :
        (o : Option (ℕ × Service)) → x.id ≢ id → FoundIn id (suc k) xs o → FoundIn id k (x ∷ xs) o
    later none ne f = λ i t e. by_place i e
      where
        by_place : (i : ℕ) {t : Service} → get_elem? (x ∷ xs) i ≡ some t → t.id ≢ id
        by_place zero {t} e = λ q. ne (ap (λ y. y.id) (some_eq x t e) ∙ q)
        by_place (suc i) {t} e = f i t e
    later (some (si, s)) ne (j, e, at, q) = (suc j, (omega (arith, e)), at, q)

unfoldable pub FoundInGroups : ℕ → ℕ → List Group → Option (ℕ × ℕ × Service) → Type 0
FoundInGroups id k gs none =
    (i si : ℕ) (g : Group) (t : Service)
    → get_elem? gs i ≡ some g
    → get_elem? g.table si ≡ some t
    → t.id ≢ id
FoundInGroups id k gs (some (gi, si, s)) =
    (j : ℕ) × (g : Group) × (gi ≡ k + j)
    × (get_elem? gs j ≡ some g)
    × (get_elem? g.table si ≡ some s)
    × (s.id ≡ id)

-- What is found in the first group, in a later one, or nowhere.
module _ (id k : ℕ) (g : Group) (gs : List Group) where
  pub first_group :
      (si : ℕ) (s : Service)
      → FoundIn id 0 g.table (some (si, s))
      → FoundInGroups id k (g ∷ gs) (some (k, si, s))
  unfolding FoundIn FoundInGroups
  first_group si s (j, e, at, q) = (
    0,
    g,
    (omega arith),
    refl,
    subst (λ x. get_elem? g.table x ≡ some s) (omega (arith, e)) at,
    q,
  )

  pub later_group :
      (gi si : ℕ) (s : Service)
      → FoundInGroups id (suc k) gs (some (gi, si, s))
      → FoundInGroups id k (g ∷ gs) (some (gi, si, s))
  unfolding FoundInGroups
  later_group gi si s (j, h, e, at, at', q) = (suc j, h, (omega (arith, e)), at, at', q)

  pub no_group :
      FoundIn id 0 g.table none
      → FoundInGroups id (suc k) gs none
      → FoundInGroups id k (g ∷ gs) none
  unfolding FoundIn FoundInGroups
  no_group f fl = λ i si h t at at'. by_place i si at at'
    where
      by_place :
          (i si : ℕ) {h : Group} {t : Service}
          → get_elem? (g ∷ gs) i ≡ some h
          → get_elem? h.table si ≡ some t
          → t.id ≢ id
      by_place zero si {h} {t} at at' =
          f si t (subst (λ x. get_elem? x.table si ≡ some t) (sym (some_eq g h at)) at')
      by_place (suc i) si {h} {t} at at' = fl i si h t at at'

find_in_groups_lem : (id k : ℕ) (gs : List Group) → FoundInGroups id k gs (find_in_groups id k gs)
unfolding find_in_groups FoundInGroups
find_in_groups_lem id k [] = λ i si g t e. cc
find_in_groups_lem id k (g ∷ gs) =
    by_table (find_in_table id 0 g.table) (find_in_table_lem id 0 g.table)
      (find_in_groups id (suc k) gs) (find_in_groups_lem id (suc k) gs)
  where
    by_table :
        (o : Option (ℕ × Service))
        → FoundIn id 0 g.table o
        → (later : Option (ℕ × ℕ × Service)) → FoundInGroups id (suc k) gs later
        → FoundInGroups id k (g ∷ gs) (elim o [ none ↦ later | some (si, s) ↦ some (k, si, s) ])
    by_table (some (si, s)) f later fl = first_group id k g gs si s f
    by_table none f none fl = no_group id k g gs f fl
    by_table none f (some (gi, si, s)) fl = later_group id k g gs gi si s fl

-- No two services have the same id.
unfoldable pub UniqueIds : Ctx → Type 0
UniqueIds c =
    (gi si gj sj : ℕ) (s t : Service)
    → At c gi si s
    → At c gj sj t
    → s.id ≡ t.id
    → (gi ≡ gj) × (si ≡ sj)

-- `_eaf_service_find_service` finds registered services only: what it finds has the id and an
-- entry. Where ids are unique it finds each of them.
pub find_service_lem :
    (id : ℕ) (c : Ctx)
    → ((gi si : ℕ)
        → find_service id c ≡ some (gi, si)
        → (s : Service) × (e : Entry) × At c gi si s × (s.id ≡ id) × (s.entry ≡ some e))
      × (UniqueIds c
          → (gi si : ℕ) (s : Service) (e : Entry) → At c gi si s
          → s.id ≡ id
          → s.entry ≡ some e
          → find_service id c ≡ some (gi, si))
unfolding find_service UniqueIds FoundInGroups
find_service_lem id c = (
  λ gi si found.
      sound (find_in_groups id 0 c.groups) (find_in_groups_lem id 0 c.groups) gi si found,
  λ unique gi si s e at same has_entry.
      complete (find_in_groups id 0 c.groups) (find_in_groups_lem id 0 c.groups) unique gi si s e at
        same has_entry,
)
  where
    looked : Option (ℕ × ℕ × Service) → Option (ℕ × ℕ)
    looked o = elim o [
      | none ↦ none
      | some (gi, si, s) ↦ elim s.entry [ none ↦ none | some e ↦ some (gi, si) ]
    ]

    sound :
        (o : Option (ℕ × ℕ × Service))
        → FoundInGroups id 0 c.groups o
        → (gi si : ℕ) → looked o ≡ some (gi, si)
        → (s : Service) × (e : Entry) × At c gi si s × (s.id ≡ id) × (s.entry ≡ some e)
    sound none f gi si found = cc
    sound (some (gj, sj, s)) (j, g, q, at, at', same) gi si found = by_entry s.entry refl found
      where
        by_entry :
            (o : Option Entry)
            → s.entry ≡ o
            → (elim o as (λ _. Option (ℕ × ℕ)) [ none ↦ none | some e ↦ some (gj, sj) ])
              ≡ some (gi, si)
            → (s : Service) × (e : Entry) × At c gi si s × (s.id ≡ id) × (s.entry ≡ some e)
        by_entry none en found' = cc
        by_entry (some e) en found' =
            let gj_is : gj ≡ gi = cc in
            let gq : j ≡ gi = omega (arith, q, gj_is) in
            let sq : sj ≡ si = cc in
            (
              s,
              e,
              (
                g,
                subst (λ x. get_group c x ≡ some g) gq at,
                subst (λ x. get_elem? g.table x ≡ some s) sq at',
              ),
              same,
              en,
            )

    complete :
        (o : Option (ℕ × ℕ × Service))
        → FoundInGroups id 0 c.groups o
        → UniqueIds c
        → (gi si : ℕ) (s : Service) (e : Entry) → At c gi si s
        → s.id ≡ id
        → s.entry ≡ some e
        → looked o ≡ some (gi, si)
    complete none f unique gi si s e (g, at, at') same has_entry = absurd (f gi si g s at at' same)
    complete (some (gj, sj, t)) (j, h, q, bt, bt', same') unique gi si s e (g, at, at') same
          has_entry =
        let j_is : gj ≡ j = omega (arith, q) in
        let (gq, sq) = unique j sj gi si t s (h, bt, bt') (g, at, at') (same' ∙ sym same) in
        let place = subst (λ x. At c gi x t) sq (subst (λ x. At c x sj t) gq (h, bt, bt')) in
        let t_is : t ≡ s = At-unique c gi si t s place (g, at, at') in
        let entry_is : t.entry ≡ some e = ap (λ x. x.entry) t_is ∙ has_entry in
        rw (entry_is, j_is, gq, sq) refl
