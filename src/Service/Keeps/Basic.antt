-- ===== src/Service/Keeps/Basic.antt =====
-- What a command keeps of the context: sequencing, branches, and reads of groups and services.
use eaf.Prelude.{
  ℕ, ◌≡◌, refl, sym, ap, ◌∙◌, Bool, true, false, Option, none, some, ◌==◌, if◌then◌else◌, get_elem?,
  set, arith, Bool-cases, inl, inr, subst,
}
use eaf.Service.{Service, Group, Ctx}
use eaf.Service.Locked.Lists.{get_elem?-set}
use eaf.Service.Runtime.{
  M, pure, ◌>>=◌, ◌>>◌, or_fault, get_group, get_service, with_group, group, service,
}

-- `P` of the context that a command leaves; a command that faults leaves none.
abbrev pub Stays : {A : Type 0} → (Ctx → Type 0) → Option (A × Ctx) → Type 0
Stays I none = Unit {0}
Stays I (some (a, c)) = I c

abbrev pub Keeps : {A : Type 0} → (Ctx → Type 0) → M A → Type 0
Keeps I m = (c : Ctx) → I c → Stays I (m c)

module _ (I : Ctx → Type 0) where
  Stays-bind :
      {A B : Type 0} (r : Option (A × Ctx)) (f : A → M B)
      → Stays I r
      → ((a : A) → Keeps I (f a))
      → Stays I (elim r [ none ↦ none | some (a, c) ↦ f a c ])
  Stays-bind none f s k = tt
  Stays-bind (some (a, c)) f s k = k a c s

  pub Keeps-bind :
      {A B : Type 0} (m : M A) (f : A → M B)
      → Keeps I m
      → ((a : A) → Keeps I (f a))
      → Keeps I (m >>= f)
  Keeps-bind m f km kf c i = Stays-bind (m c) f (km c i) kf

  -- A command that leaves `I` at this context, then one that keeps it.
  pub Stays-then :
      {B : Type 0} (m : M (Unit {0})) (k : M B) (c : Ctx)
      → Stays I (m c)
      → Keeps I k
      → Stays I ((m >> k) c)
  Stays-then m k c s kk = Stays-bind (m c) (λ _. k) s (λ _. kk)

  pub Keeps-then :
      {B : Type 0} (m : M (Unit {0})) (k : M B) → Keeps I m → Keeps I k → Keeps I (m >> k)
  Keeps-then m k km kk = Keeps-bind m (λ _. k) km (λ _. kk)

  pub Keeps-pure : {A : Type 0} (a : A) → Keeps I (pure a)
  Keeps-pure a c i = i

  pub Keeps-if :
      {A : Type 0} (b : Bool) (m n : M A) → Keeps I m → Keeps I n → Keeps I (if b then m else n)
  Keeps-if true m n km kn = km
  Keeps-if false m n km kn = kn

  -- The same, of commands that run at one context.
  pub Stays-if_at :
      {A : Type 0} (c : Ctx) (b : Bool) (m n : M A)
      → Stays I (m c)
      → Stays I (n c)
      → Stays I ((if b then m else n) c)
  Stays-if_at c true m n sm sn = sm
  Stays-if_at c false m n sm sn = sn

  pub Stays-if :
      {A : Type 0} (b : Bool) (x y : Option (A × Ctx))
      → Stays I x
      → Stays I y
      → Stays I (if b then x else y)
  Stays-if true x y sx sy = sx
  Stays-if false x y sx sy = sy

  pub Keeps-or_fault : {A : Type 0} (o : Option A) → Keeps I (or_fault o)
  Keeps-or_fault none c i = tt
  Keeps-or_fault (some a) c i = i

-- Every group of the context.
abbrev pub Everywhere : (ℕ → Group → Type 0) → Ctx → Type 0
Everywhere P c = (gi : ℕ) (g : Group) → get_group c gi ≡ some g → P gi g

pub some_eq {ℓ} : {A : Type ℓ} (a b : A) → some a ≡ some b → a ≡ b
some_eq a b e = cc

module _ (P : ℕ → Group → Type 0) where
  -- A write of a group.
  pub Everywhere-with :
      (c : Ctx) (gi : ℕ) (g0 g : Group)
      → get_group c gi ≡ some g0
      → Everywhere P c
      → P gi g
      → Everywhere P (with_group c gi g)
  Everywhere-with c gi g0 g at v p gj h e = elim (Bool-cases (gj == gi)) [
    | inl here ↦
        let same : gj ≡ gi = ground arith in
        subst (λ t. P t h) (sym same) (subst (P gi) (some_eq g h (sym (sym e ∙ got ∙ rw here))) p)
    | inr other ↦ v gj h (sym (got ∙ rw other) ∙ e)
  ]
    where
      got : get_elem? (set c.groups gi g) gj ≡ (if gj == gi then some g else get_group c gj)
      got = get_elem?-set c.groups gi gj g g0 at

-- Service `si` of group `gi` is `s`.
abbrev pub At : Ctx → ℕ → ℕ → Service → Type 0
At c gi si s = (g : Group) × (get_group c gi ≡ some g) × (get_elem? g.table si ≡ some s)

pub At-unique : (c : Ctx) (gi si : ℕ) (s t : Service) → At c gi si s → At c gi si t → s ≡ t
At-unique c gi si s t (g, at, at') (h, bt, bt') =
    some_eq s t (sym at' ∙ ap (λ x. get_elem? x.table si) (some_eq g h (sym at ∙ bt)) ∙ bt')

-- What the reads of a group and of a service give.
module _ (c : Ctx) (gi : ℕ) where
  pub group-none : get_group c gi ≡ none → group gi c ≡ none
  unfolding group
  group-none e = ground (arith, e)

  pub group-at : (g : Group) → get_group c gi ≡ some g → group gi c ≡ some (g, c)
  unfolding group
  group-at g e = ground (arith, e)

  pub service-none : (si : ℕ) → get_service c gi si ≡ none → service gi si c ≡ none
  unfolding service
  service-none si e = ground (arith, e)

  pub service-at :
      (si : ℕ) (s : Service) → get_service c gi si ≡ some s → service gi si c ≡ some (s, c)
  unfolding service
  service-at si s e = ground (arith, e)

-- A service that is there stands in a group that is there.
pub place_of :
    (c : Ctx) (gi si : ℕ) (s : Service)
    → get_service c gi si ≡ some s
    → (g : Group) × (get_group c gi ≡ some g) × (get_elem? g.table si ≡ some s)
place_of c gi si s e = by_group (get_group c gi) refl
  where
    looked : Option Group → Option Service
    looked o = elim o [ none ↦ none | some g ↦ get_elem? g.table si ]

    found : (o : Option Group) → get_group c gi ≡ o → looked o ≡ some s
    found o at = subst (λ t. looked t ≡ some s) at e

    by_group :
        (o : Option Group)
        → get_group c gi ≡ o
        → (g : Group) × (get_group c gi ≡ some g) × (get_elem? g.table si ≡ some s)
    by_group none at = cc (found none at)
    by_group (some g) at = (g, at, found (some g) at)
