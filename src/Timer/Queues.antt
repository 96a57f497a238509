-- ===== src/Timer/Queues.antt =====
-- How often an address stands in a queue of the timer, and how many records of a queue are for a
-- request.
use eaf.Prelude.{
  ◌∙◌, ℕ, ◌+◌, ◌<◌, ◌≡◌, refl, ap, Bool, true, false, List, [], ◌∷◌, ◌==◌, inl, inr, Bool-cases,
  arith, ==_iff, eq→true,
}
use eaf.Timer.{erase, push_back}

abbrev pub bit : Bool → ℕ
bit true = 1
bit false = 0

abbrev pub count : ℕ → List ℕ → ℕ
count q [] = 0
count q (p ∷ queue) = bit (p == q) + count q queue

-- The records of a queue with the uuid `u`.
abbrev pub waiting : ℕ → (ℕ → ℕ) → List ℕ → ℕ
waiting u uuids [] = 0
waiting u uuids (p ∷ queue) = bit (uuids p == u) + waiting u uuids queue

pub count-push_back :
    (q p : ℕ) (queue : List ℕ) → count q (push_back queue p) ≡ count q queue + bit (p == q)
count-push_back q p [] = omega arith
count-push_back q p (x ∷ queue) = omega (arith, count-push_back q p queue)

pub waiting-push_back :
    (u p : ℕ) (uuids : ℕ → ℕ) (queue : List ℕ)
    → waiting u uuids (push_back queue p) ≡ waiting u uuids queue + bit (uuids p == u)
waiting-push_back u p uuids [] = omega arith
waiting-push_back u p uuids (x ∷ queue) = omega (arith, waiting-push_back u p uuids queue)

pub equal : (p q : ℕ) → (p == q) ≡ true → p ≡ q
equal p q h = (==_iff p q).0 h

-- What stands in a queue whose first is another stands in the rest.
in_rest : (p x n : ℕ) → (p == x) ≡ false → 0 < bit (x == p) + n → 0 < n
in_rest p x n other h = ground arith

pub first-count : (p : ℕ) (queue : List ℕ) → 0 < count p (p ∷ queue)
first-count p queue = omega (arith, ap bit (eq→true p p refl))

pub count-erase :
    (q p : ℕ) (queue : List ℕ)
    → 0 < count p queue
    → count q (erase p queue) + bit (p == q) ≡ count q queue
count-erase q p [] h = absurd (omega (arith, h))
count-erase q p (x ∷ queue) h = elim (Bool-cases (p == x)) [
  | inl same ↦ rw same (rw (equal p x same) (omega arith))
  | inr other ↦
      rw other (omega (arith, count-erase q p queue (in_rest p x (count p queue) other h)))
]

pub waiting-erase :
    (u p : ℕ) (uuids : ℕ → ℕ) (queue : List ℕ)
    → 0 < count p queue
    → waiting u uuids (erase p queue) + bit (uuids p == u) ≡ waiting u uuids queue
waiting-erase u p uuids [] h = absurd (omega (arith, h))
waiting-erase u p uuids (x ∷ queue) h = elim (Bool-cases (p == x)) [
  | inl same ↦ rw same (rw (equal p x same) (omega arith))
  | inr other ↦
      rw other (omega (arith, waiting-erase u p uuids queue (in_rest p x (count p queue) other h)))
]

-- What the addresses outside a queue hold does not matter.
pub waiting-same :
    (u : ℕ) (before after : ℕ → ℕ) (queue : List ℕ)
    → ((q : ℕ) → 0 < count q queue → after q ≡ before q)
    → waiting u after queue ≡ waiting u before queue
waiting-same u before after [] same = refl
waiting-same u before after (p ∷ queue) same =
    let rest = waiting-same u before after queue (λ q h. same q (omega (arith, h))) in
    rw (same p (first-count p queue), rest) refl

-- One occurrence more or less at `p`.
module _ (p : ℕ) (queue : List ℕ) where
  pub push-here : count p (push_back queue p) ≡ count p queue + 1
  push-here = count-push_back p p queue ∙ ap (λ b. count p queue + bit b) (eq→true p p refl)

  pub push-other : (q : ℕ) → (p == q) ≡ false → count q (push_back queue p) ≡ count q queue
  push-other q other = omega (arith, count-push_back q p queue, ap bit other)

  pub erase-here : 0 < count p queue → count p (erase p queue) + 1 ≡ count p queue
  erase-here h = omega (arith, count-erase p p queue h, ap bit (eq→true p p refl))

  pub erase-other :
      0 < count p queue → (q : ℕ) → (p == q) ≡ false → count q (erase p queue) ≡ count q queue
  erase-other h q other = omega (arith, count-erase q p queue h, ap bit other)

module _ {p : ℕ} {queue rest : List ℕ} (e : queue ≡ p ∷ rest) where
  pub first-here : count p rest + 1 ≡ count p queue
  first-here = omega (arith, ap (count p) e, ap bit (eq→true p p refl))

  pub first-other : (q : ℕ) → (p == q) ≡ false → count q rest ≡ count q queue
  first-other q other = omega (arith, ap (count q) e, ap bit other)
