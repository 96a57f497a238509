-- ===== src/RingBuffer/Tally.antt =====
-- How many nodes are in a state, as nodes come, go and change their state.
use eaf.Prelude.{ℕ, ◌+◌, ◌≡◌, refl, Bool, false, true, List, [], ◌∷◌, if◌then◌else◌, arith, length}
use eaf.Sequence.{has, Distinct, erase, push_back}
use eaf.RingBuffer.{
  Ptr, NodeState, stat_writing, stat_committed, stat_reading, is_writing, is_committed, is_reading,
  update,
}
use eaf.RingBuffer.Ring.{tally}

abbrev pub one_if : Bool → ℕ
one_if b = if b then 1 else 0

module _ (f : NodeState → Bool) where
  pub tally-push_back :
      (state : Ptr → NodeState) (s : NodeState) (xs : List Ptr) (p : Ptr)
      → has p xs ≡ false
      → tally f (update state p s) (push_back xs p) ≡ tally f state xs + one_if (f s)
  tally-push_back state s [] p o = ground arith
  tally-push_back state s (x ∷ xs) p o = ground (arith, tally-push_back state s xs p)

  tally-out :
      (state : Ptr → NodeState) (s : NodeState) (xs : List Ptr) (p : Ptr)
      → has p xs ≡ false
      → tally f (update state p s) xs ≡ tally f state xs
  tally-out state s [] p o = refl
  tally-out state s (x ∷ xs) p o = ground (arith, tally-out state s xs p)

  pub tally-update :
      (state : Ptr → NodeState) (s : NodeState) (xs : List Ptr) (p : Ptr)
      → Distinct xs
      → has p xs ≡ true
      → tally f (update state p s) xs + one_if (f (state p)) ≡ tally f state xs + one_if (f s)
  tally-update state s [] p d i = cc
  tally-update state s (x ∷ xs) p d i =
      ground (arith, tally-update state s xs p d.1, tally-out state s xs p)

  pub tally-erase :
      (state : Ptr → NodeState) (xs : List Ptr) (p : Ptr)
      → has p xs ≡ true
      → tally f state (erase p xs) + one_if (f (state p)) ≡ tally f state xs
  tally-erase state [] p i = cc
  tally-erase state (x ∷ xs) p i = ground (arith, tally-erase state xs p)

-- Each node is in one of the states.
one_state :
    (s : NodeState) → one_if (is_committed s) + one_if (is_reading s) + one_if (is_writing s) ≡ 1
one_state stat_writing = refl
one_state stat_committed = refl
one_state stat_reading = refl

pub tally-length :
    (state : Ptr → NodeState) (xs : List Ptr)
    → tally is_committed state xs + tally is_reading state xs + tally is_writing state xs
      ≡ length xs
tally-length state [] = omega arith
tally-length state (x ∷ xs) = omega (arith, one_state (state x), tally-length state xs)
