-- ===== src/Service/Boot/New.antt =====
-- What eaf_init makes of the groups.
use eaf.Prelude.{
  ℕ, zero, suc, ◌≡◌, refl, sym, ◌∙◌, Bool, true, false, not, Option, none, some, List, [], ◌∷◌,
  ◌==◌, if◌then◌else◌, get_elem?, subst, length, arith, Bool-cases, inl, inr,
}
use eaf.Sequence.{count-append, push_back}
use eaf.Service.{init0, Service, Group}
use eaf.Service.Locked.Lists.{IsListed}
use eaf.Service.Life.{
  ServiceInfo, GroupPlatform, init_service, init_services, init_group, empty_group, platform_ok,
}
use eaf.Service.Keeps.{some_eq}

-- A service that has not been loaded, and the groups before eaf_load.
abbrev pub IsNewService : Service → Type 0
IsNewService s = (s.state ≡ init0) × (s.queue ≡ []) × (s.cur_msg ≡ none)

abbrev pub IsNew : ℕ → Group → Type 0
IsNew gi g = IsListed g × ((i : ℕ) (s : Service) → get_elem? g.table i ≡ some s → IsNewService s)

get_elem?-append {ℓ} :
    {A : Type ℓ} (xs : List A) (x : A) (i : ℕ)
    → get_elem? (push_back xs x) i ≡ (if i == length xs then some x else get_elem? xs i)
get_elem?-append [] x zero = refl
get_elem?-append [] x (suc i) = ground arith
get_elem?-append (y ∷ xs) x zero = ground arith
get_elem?-append (y ∷ xs) x (suc i) = ground (arith, get_elem?-append xs x i)

get_elem?-beyond {ℓ} : {A : Type ℓ} (xs : List A) → get_elem? xs (length xs) ≡ none
get_elem?-beyond [] = refl
get_elem?-beyond (x ∷ xs) = get_elem?-beyond xs

init_services-IsNew :
    (gi : ℕ) (infos : List ServiceInfo) (g : Group) → IsNew gi g → IsNew gi (init_services infos g)
unfolding init_services init_service
init_services-IsNew gi [] g v = v
init_services-IsNew gi (info ∷ rest) g v = init_services-IsNew gi rest _ (
  record {
    wait = λ i. ground (
      arith,
      v.0.wait i,
      count-append i g.wait_list (length g.table ∷ []),
      get_elem?-append g.table (init_service info) i,
      get_elem?-beyond g.table,
      is_init0,
    );
    busy = λ i. ground (
      arith,
      v.0.busy i,
      get_elem?-append g.table (init_service info) i,
      get_elem?-beyond g.table,
      is_init0,
    );
  },
  news,
)
  where
    is_init0 : (init_service info).state ≡ init0
    is_init0 = refl

    new : IsNewService (init_service info)
    new = (refl, refl, refl)

    news :
        (i : ℕ) (s : Service)
        → get_elem? (push_back g.table (init_service info)) i ≡ some s
        → IsNewService s
    news i s e = elim (Bool-cases (i == length g.table)) [
      | inl here ↦
          subst IsNewService
            (some_eq (init_service info) s
              (sym (get_elem?-append g.table (init_service info) i ∙ rw here) ∙ e))
            new
      | inr other ↦ v.1 i s (sym (get_elem?-append g.table (init_service info) i ∙ rw other) ∙ e)
    ]

empty-IsNew : (gi : ℕ) → IsNew gi empty_group
empty-IsNew gi = (record { wait = λ i. refl; busy = λ i. refl }, λ i s e. cc)

pub init_group-IsNew :
    (ps : List (List ServiceInfo × GroupPlatform)) (gs : List Group)
    → init_group ps ≡ some gs
    → (gi : ℕ) (g : Group) → get_elem? gs gi ≡ some g
    → IsNew gi g
unfolding init_group
init_group-IsNew [] gs e gi g at = cc
init_group-IsNew ((infos, p) ∷ rest) gs e gi g at =
    by_platform (platform_ok p) (λ hs later gj at'. init_group-IsNew rest hs later gj g at') e
  where
    Later : Type 0
    Later =
        (hs : List Group)
        → init_group rest ≡ some hs
        → (gj : ℕ) → get_elem? hs gj ≡ some g
        → IsNew gi g

    first' : Group
    first' = init_services infos empty_group

    tail_of : Option (List Group) → Option (List Group)
    tail_of o = elim o [ none ↦ none | some hs ↦ some (first' ∷ hs) ]

    at_place :
        (ih : Later) (hs : List Group)
        → init_group rest ≡ some hs
        → (gj : ℕ) → get_elem? (first' ∷ hs) gj ≡ some g
        → IsNew gi g
    at_place ih hs later zero at' =
        subst (IsNew gi) (cc) (init_services-IsNew gi infos empty_group (empty-IsNew gi))
    at_place ih hs later (suc gj) at' = ih hs later gj at'

    by_rest :
        (ih : Later) (o : Option (List Group))
        → init_group rest ≡ o
        → tail_of o ≡ some gs
        → IsNew gi g
    by_rest ih none later e' = cc
    by_rest ih (some hs) later e' =
        let same : first' ∷ hs ≡ gs = cc in
        at_place ih hs later gi (subst (λ x. get_elem? x gi ≡ some g) (sym same) at)

    by_platform :
        (b : Bool)
        → Later
        → (if not b then none else tail_of (init_group rest)) ≡ some gs
        → IsNew gi g
    by_platform true ih e' = by_rest ih (init_group rest) refl e'
    by_platform false ih e' = cc
