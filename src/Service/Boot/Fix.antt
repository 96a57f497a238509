-- ===== src/Service/Boot/Fix.antt =====
-- `_eaf_load_fix_state` of one group: each service gets the state and the list that its entry asks for.
use eaf.Prelude.{
  ℕ, zero, suc, ◌+◌, ◌<◌, ◌≡◌, refl, sym, ap, ◌∙◌, Bool, true, false, Option, none, some, List, [],
  ◌∷◌, ◌==◌, map, if◌then◌else◌, get_elem?, set, subst, length, length-set, arith, Bool-cases, inl,
  inr,
}
use eaf.Service.{init1, init2, exit1, Service, Group, Entry}
use eaf.Service.Locked.{set_state_of}
use eaf.Service.Locked.Lists.{IsListed, set_state_of-IsListed, get_elem?-set}
use eaf.Service.Locked.Settled.{Calm, CalmService, set_state_of-table}
use eaf.Service.Invariant.{IsSound}
use eaf.Service.Life.{fix_group, fix_services, loaded}
use eaf.Service.Keeps.{some_eq}
use eaf.Service.Boot.New.{IsNew}

-- `_eaf_load_fix_state` of a group

-- A service that has no message yet, and is settled if its place is below `j`.
IsFixed : ℕ → Service → ℕ → Type 0
IsFixed j s i = (s.queue ≡ []) × (s.cur_msg ≡ none) × (i < j → CalmService s)

Fixed : ℕ → ℕ → Group → Type 0
Fixed m j g =
    IsListed g
    × (length g.table ≡ m)
    × ((i : ℕ) (s : Service) → get_elem? g.table i ≡ some s → IsFixed j s i)

loaded-Calm : (s : Service) → Calm (loaded s) [] none
loaded-Calm s = by_entry s.entry s.lazyload
  where
    by_entry :
        (o : Option Entry) (lazy : Bool)
        → Calm (elim o [ none ↦ exit1 | some e ↦ if lazy then init2 else init1 ]) [] none
    by_entry none lazy = tt
    by_entry (some e) true = (refl, refl)
    by_entry (some e) false = refl

fix_service-Fixed :
    (m j : ℕ) (g : Group) (s : Service)
    → get_elem? g.table j ≡ some s
    → Fixed m j g
    → Fixed m (suc j) (set_state_of g j s (loaded s))
unfolding Fixed IsFixed
fix_service-Fixed m j g s at v = (
  set_state_of-IsListed g j s at v.0 (loaded s),
  ap length (set_state_of-table g j s (loaded s)) ∙ length-set g.table j fixed ∙ v.1,
  λ i t e. elim (Bool-cases (i == j)) [
    | inl here ↦ here_fixed i t (some_eq fixed t (sym (got i ∙ rw here) ∙ sym (moved i) ∙ e))
    | inr other ↦ other_fixed i t other (v.2 i t (sym (got i ∙ rw other) ∙ sym (moved i) ∙ e))
  ],
)
  where
    fixed : Service
    fixed = record s { state = loaded s }

    moved :
        (i : ℕ)
        → get_elem? (set_state_of g j s (loaded s)).table i ≡ get_elem? (set g.table j fixed) i
    moved i = ap (λ x. get_elem? x i) (set_state_of-table g j s (loaded s))

    got :
        (i : ℕ)
        → get_elem? (set g.table j fixed) i ≡ (if i == j then some fixed else get_elem? g.table i)
    got i = get_elem?-set g.table j i fixed s at

    calm : Calm (loaded s) s.queue s.cur_msg
    calm = rw ((v.2 j s at).0, (v.2 j s at).1) (loaded-Calm s)

    here_fixed : (i : ℕ) (t : Service) → fixed ≡ t → IsFixed (suc j) t i
    here_fixed i t e =
        subst (λ x. IsFixed (suc j) x i) e ((v.2 j s at).0, (v.2 j s at).1, λ l. calm)

    other_fixed : (i : ℕ) (t : Service) → (i == j) ≡ false → IsFixed j t i → IsFixed (suc j) t i
    other_fixed i t other w = (w.0, w.1, λ l. w.2 (ground arith))

fix_step-Fixed :
    (m j : ℕ) (g : Group)
    → Fixed m j g
    → Fixed m
        (suc j)
        (elim (get_elem? g.table j) [ none ↦ g | some s ↦ set_state_of g j s (loaded s) ])
unfolding Fixed IsFixed
fix_step-Fixed m j g v = by_place (get_elem? g.table j) refl
  where
    no_such : (t : Service) → none ≡ some t → IsFixed (suc j) t j
    no_such t e = cc

    nothing :
        get_elem? g.table j ≡ none
        → (i : ℕ) (t : Service) → get_elem? g.table i ≡ some t
        → IsFixed (suc j) t i
    nothing none_there i t e = elim (Bool-cases (i == j)) [
      | inl here ↦
          let same : i ≡ j = ground arith in
          let absent : get_elem? g.table i ≡ none = rw same none_there in
          subst (IsFixed (suc j) t) (sym same) (no_such t (sym absent ∙ e))
      | inr other ↦ ((v.2 i t e).0, (v.2 i t e).1, λ l. (v.2 i t e).2 (ground arith))
    ]

    by_place :
        (o : Option Service)
        → get_elem? g.table j ≡ o
        → Fixed m (suc j) (elim o [ none ↦ g | some s ↦ set_state_of g j s (loaded s) ])
    by_place none e = (v.0, v.1, nothing e)
    by_place (some s) e = fix_service-Fixed m j g s e v

fix_services-Fixed : (m n j : ℕ) (g : Group) → Fixed m j g → Fixed m (n + j) (fix_services n j g)
unfolding fix_services
fix_services-Fixed m zero j g v = subst (λ x. Fixed m x g) (omega arith) v
fix_services-Fixed m (suc n) j g v =
    subst (λ x. Fixed m x (fix_services (suc n) j g)) (omega arith)
      (fix_services-Fixed m n (suc j) _ (fix_step-Fixed m j g v))

at_bound {ℓ} : {A : Type ℓ} (xs : List A) (i : ℕ) (x : A) → get_elem? xs i ≡ some x → i < length xs
at_bound [] i x e = cc
at_bound (y ∷ xs) zero x e = omega arith
at_bound (y ∷ xs) (suc i) x e = omega (arith, at_bound xs i x e)

pub fix_group-IsSound : (gi : ℕ) (g : Group) → IsNew gi g → IsSound gi (fix_group g)
unfolding fix_group Fixed IsFixed
fix_group-IsSound gi g v =
    (done.0, λ i s e. (done.2 i s e).2 (omega (arith, at_bound (fix_group g).table i s e, done.1)))
  where
    done : Fixed (length g.table) (length g.table + 0) (fix_group g)
    done =
        fix_services-Fixed (length g.table) (length g.table) 0 g
          (v.0, refl, λ i s e. ((v.1 i s e).1, (v.1 i s e).2, λ l. absurd (omega arith)))

pub get_elem?-map {ℓ κ} :
    {A : Type ℓ} {B : Type κ} (f : A → B) (xs : List A) (i : ℕ) (y : B)
    → get_elem? (map f xs) i ≡ some y
    → (x : A) × (get_elem? xs i ≡ some x) × (f x ≡ y)
get_elem?-map f [] i y e = cc
get_elem?-map f (x ∷ xs) zero y e = (x, refl, (cc))
get_elem?-map f (x ∷ xs) (suc i) y e = get_elem?-map f xs i y e
