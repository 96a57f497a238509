-- ===== src/Service/Walk.antt =====
-- The iterators over groups and services visit every place once.
use eaf.Prelude.{
  ℕ, zero, suc, ◌+◌, ◌^◌, ◌<◌, ◌≤◌, ◌≡◌, ap, ◌∙◌, Option, none, some, List, [], ◌∷◌, arith, length,
}
use eaf.Service.{Group, Ctx}
use eaf.Service.Iter.{group_begin, group_next, service_begin, service_next}

-- The places that a loop visits which starts at `i` and goes on by `next`, at most `fuel` of them.
abbrev pub walk : (ℕ → Option ℕ) → ℕ → ℕ → List ℕ
walk next zero i = []
walk next (suc fuel) i =
    let later = λ (j : ℕ). walk next fuel j in i ∷ (elim (next i) [ none ↦ [] | some j ↦ later j ])

-- `n` places from `i` on.
abbrev pub places : ℕ → ℕ → List ℕ
places i zero = []
places i (suc n) = i ∷ places (suc i) n

-- A step that goes to the following place, up to the last of `n`.
IsStep : (ℕ → Option ℕ) → ℕ → Type 0
IsStep next n =
    ((i : ℕ) → suc i < n → next i ≡ some (suc i)) × ((i : ℕ) → n ≤ suc i → next i ≡ none)

walk-IsStep :
    (next : ℕ → Option ℕ) (n : ℕ)
    → IsStep next n
    → (left fuel i : ℕ) → i + suc left ≡ n
    → left < fuel
    → walk next fuel i ≡ places i (suc left)
unfolding IsStep
walk-IsStep next n step left zero i at enough = absurd (omega (arith, enough))
walk-IsStep next n step zero (suc fuel) i at enough =
    ap (λ o. i ∷ (elim o as (λ _. List ℕ) [ none ↦ [] | some j ↦ walk next fuel j ]))
      (step.1 i (omega (arith, at)))
walk-IsStep next n step (suc left) (suc fuel) i at enough =
    ap (λ o. i ∷ (elim o as (λ _. List ℕ) [ none ↦ [] | some j ↦ walk next fuel j ]))
      (step.0 i (omega (arith, at)))
    ∙ ap (λ t. i ∷ t)
        (walk-IsStep next n step left fuel (suc i) (omega (arith, at)) (omega (arith, enough)))

-- A loop from eaf_group_begin by eaf_group_next visits each group once, in order, and ends, whatever
-- fuel beyond the number of groups it has. There is a group, and their number is a size_t.
pub group_next_lem :
    (c : Ctx) (n fuel : ℕ)
    → length c.groups ≡ suc n
    → suc n < 2 ^ 64
    → n < fuel
    → walk (group_next c) fuel (group_begin c) ≡ places 0 (suc n)
unfolding group_next group_begin IsStep
group_next_lem c n fuel size small enough =
    walk-IsStep (group_next c) (suc n)
      ((λ i l. ground (arith, size)), (λ i l. ground (arith, size))) n fuel 0 (omega arith) enough

-- A loop from eaf_service_begin by eaf_service_next over the services of a group with one or more, as
-- a size_t, visits each once, in order, and ends, whatever fuel beyond their number it has.
pub service_next_lem :
    (g : Group) (n fuel : ℕ)
    → length g.table ≡ suc n
    → suc n < 2 ^ 64
    → n < fuel
    → walk (service_next g) fuel (service_begin g) ≡ places 0 (suc n)
unfolding service_next service_begin IsStep
service_next_lem g n fuel size small enough =
    walk-IsStep (service_next g) (suc n)
      ((λ i l. ground (arith, size)), (λ i l. ground (arith, size))) n fuel 0 (omega arith) enough
