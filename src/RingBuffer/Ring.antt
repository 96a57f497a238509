-- ===== src/RingBuffer/Ring.antt =====
-- The invariant of the ring buffer: its nodes, oldest first, linked in time and around the buffer,
-- and laid out in the cache without an overlap.
use eaf.Prelude.{
  ℕ, ◌+◌, ◌%◌, ◌^◌, ◌≤◌, ◌<◌, ◌≡◌, Bool, false, true, Option, some, List, [], ◌∷◌, ◌++◌, ◌==◌,
  if◌then◌else◌,
}
use eaf.Sequence.{has, Distinct, first, last}
use eaf.RingBuffer.{
  Ptr, null, NodeState, is_writing, is_committed, is_reading, Nodes, Counter, World, node_cost,
}
use eaf.RingBuffer.Order.{after, before}

-- The links of the nodes `xs`: to the neighbours in time, and around the buffer in the same order.
pub record IsLinked (m : Nodes) (xs : List Ptr) : Type 0 where
  pub newer : (p : Ptr) → has p xs ≡ true → m.p_newer p ≡ after xs p
  pub older : (p : Ptr) → has p xs ≡ true → m.p_older p ≡ before null xs p
  pub forward :
      (p : Ptr)
      → has p xs ≡ true
      → m.p_forward p ≡ (if p == last null xs then first xs null else after xs p)
  pub backward :
      (p : Ptr)
      → has p xs ≡ true
      → m.p_backward p ≡ (if p == first xs null then last null xs else before null xs p)

-- The nodes stand in ascending order between `lo` and `hi`, each with room for its token.
abbrev pub Fits : (Ptr → ℕ) → Ptr → List Ptr → Ptr → Type 0
Fits size lo [] hi = lo ≤ hi
Fits size lo (x ∷ xs) hi = (lo ≤ x) × Fits size (x + node_cost (size x)) xs hi

-- The cache holds the nodes: those since the last turn at its end stand before the older ones.
pub record IsLaid (cache : Ptr) (capacity : ℕ) (size : Ptr → ℕ) (xs : List Ptr) : Type 0 where
  pub turned : List Ptr
  pub straight : List Ptr
  pub split : xs ≡ straight ++ turned
  pub fits : Fits size cache (turned ++ straight) (cache + capacity)
  pub started : straight ≡ [] → turned ≡ []

-- How many nodes are in a state.
abbrev pub tally : (NodeState → Bool) → (Ptr → NodeState) → List Ptr → ℕ
tally f state [] = 0
tally f state (x ∷ xs) = (if f (state x) then 1 else 0) + tally f state xs

pub record IsCounted (counter : Counter) (state : Ptr → NodeState) (xs : List Ptr) : Type 0 where
  pub committed : counter.committed ≡ tally is_committed state xs % 2 ^ 64
  pub writing : counter.writing ≡ tally is_writing state xs % 2 ^ 64
  pub reading : counter.reading ≡ tally is_reading state xs % 2 ^ 64

-- The buffer is aligned memory that does not reach the end of the address space.
pub record IsBuffer (cache : Ptr) (capacity : ℕ) : Type 0 where
  pub not_null : 0 < cache
  pub aligned : cache % 8 ≡ 0
  pub bounded : cache + capacity < 2 ^ 64

-- The tokens `rs` are being read, and the newer ones `ws` are not.
pub record IsRing (w : World) (rs ws : List Ptr) : Type 0 where
  pub buffer : IsBuffer w.rb.cache w.rb.capacity
  pub distinct : Distinct (rs ++ ws)
  pub linked : IsLinked w.mem (rs ++ ws)
  pub laid : IsLaid w.rb.cache w.rb.capacity w.mem.size (rs ++ ws)
  pub aligned : (p : Ptr) → has p (rs ++ ws) ≡ true → p % 8 ≡ 0
  pub sized : (p : Ptr) → has p (rs ++ ws) ≡ true → w.mem.size p + 55 < 2 ^ 64
  pub counted : IsCounted w.rb.counter w.mem.state (rs ++ ws)
  pub read : (p : Ptr) → has p rs ≡ true → is_reading (w.mem.state p) ≡ true
  pub unread : (p : Ptr) → has p ws ≡ true → is_reading (w.mem.state p) ≡ false
  pub head : w.rb.head ≡ last null (rs ++ ws)
  pub tail : w.rb.tail ≡ first (rs ++ ws) null
  pub oldest_reserve : w.rb.oldest_reserve ≡ first ws null

-- The tokens of `xs`, with what their users rely on, are the same in both memories.
abbrev pub SameTokens : List Ptr → Nodes → Nodes → Type 0
SameTokens xs m n = (p : Ptr) → has p xs ≡ true → (n.state p ≡ m.state p) × (n.size p ≡ m.size p)

-- The command ends without a fault, and its result and the world satisfy `P`.
abbrev pub Yields {ℓ} : {A : Type 0} → Option (A × World) → (A → World → Type ℓ) → Type ℓ
Yields {A} r P = (a : A) × (v : World) × (r ≡ some (a, v)) × P a v
