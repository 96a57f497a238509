-- ===== src/RingBuffer.antt =====
-- powerpack/src/powerpack/ringbuffer.c: the ring buffer. The memory is seen as a node at each
-- address; a dereference of `NULL` is a fault (`none`). Sizes are those of a machine with 64 bits.
-- A token is the address of the field `token` of its node, so `EAF_CONTAINER_OF` is a subtraction.
pub mod Commit
pub mod Reserve
pub mod Order
pub mod Erasure
pub mod Runs
pub mod Ring
pub mod Cost
pub mod Link
pub mod Room
pub mod Tally
pub mod Facts
pub mod Insert
pub mod Place
pub mod Search
pub mod Reserving
pub mod Consuming
pub mod Delete
pub mod Remove
pub mod Committing
pub mod Reading
pub mod Releasing
pub mod Setup
pub mod Visit
pub mod Held
pub mod HeldEnds
pub mod Protocol
pub mod Trip
pub mod Tests
pub use eaf.Prelude.Commands.{pure, ◌>>=◌, ◌>>◌}
use Prim.Native.Nat.{bit_and}
use eaf.Prelude.{
  ℕ, ◌+◌, ◌-◌, ◌%◌, ◌^◌, Bool, true, false, not, ◌&&◌, Option, none, some, ltb, leb, ◌==◌,
  if◌then◌else◌,
}
use eaf.Prelude.Int.{ℤ, pos, negsuc}

abbrev pub Ptr : Type 0
Ptr = ℕ

abbrev pub null : Ptr
null = 0

-- `size_t`
abbrev pub add64 : ℕ → ℕ → ℕ
add64 a b = (a + b) % 2 ^ 64

abbrev pub sub64 : ℕ → ℕ → ℕ
sub64 a b = (a + 2 ^ 64 - b) % 2 ^ 64

-- `ring_buffer_node_state_t`
pub data NodeState : Type 0 where
  stat_writing : NodeState
  stat_committed : NodeState
  stat_reading : NodeState

abbrev pub is_writing : NodeState → Bool
is_writing stat_writing = true
is_writing _ = false

abbrev pub is_committed : NodeState → Bool
is_committed stat_committed = true
is_committed _ = false

abbrev pub is_reading : NodeState → Bool
is_reading stat_reading = true
is_reading _ = false

-- The memory as nodes, `ring_buffer_node_t`, with a map for each field: the places in the buffer and
-- in time, the state, and the size of the token.
pub record Nodes : Type 0 where
  pub p_forward : Ptr → Ptr
  pub p_backward : Ptr → Ptr
  pub p_newer : Ptr → Ptr
  pub p_older : Ptr → Ptr
  pub state : Ptr → NodeState
  pub size : Ptr → ℕ

-- `eaf_ringbuffer_counter_t`
pub record Counter : Type 0 where
  pub committed : ℕ
  pub writing : ℕ
  pub reading : ℕ

-- `struct eaf_ringbuffer`
pub record Ringbuffer : Type 0 where
  pub cache : Ptr
  pub capacity : ℕ
  pub head : Ptr
  pub tail : Ptr
  pub oldest_reserve : Ptr
  pub counter : Counter

pub record World : Type 0 where
  pub rb : Ringbuffer
  pub mem : Nodes

abbrev pub M : Type 0 → Type 0
M A = World → Option (A × World)

abbrev pub update : {A : Type 0} → (Ptr → A) → Ptr → A → Ptr → A
update f p v q = if q == p then v else f q

-- A pointer is followed.
unfoldable pub deref : Ptr → M (Unit {0})
deref p w = if p == null then none else some (tt, w)

-- The reads of the fields of `*p`.
unfoldable pub get_forward : Ptr → M Ptr
unfolding deref
get_forward p = do deref p; λ w. some (w.mem.p_forward p, w)

unfoldable pub get_backward : Ptr → M Ptr
unfolding deref
get_backward p = do deref p; λ w. some (w.mem.p_backward p, w)

unfoldable pub get_newer : Ptr → M Ptr
unfolding deref
get_newer p = do deref p; λ w. some (w.mem.p_newer p, w)

unfoldable pub get_older : Ptr → M Ptr
unfolding deref
get_older p = do deref p; λ w. some (w.mem.p_older p, w)

unfoldable pub get_state : Ptr → M NodeState
unfolding deref
get_state p = do deref p; λ w. some (w.mem.state p, w)

unfoldable pub get_size : Ptr → M ℕ
unfolding deref
get_size p = do deref p; λ w. some (w.mem.size p, w)

-- The assignments to them.
abbrev pub set_mem : (Nodes → Nodes) → M (Unit {0})
set_mem f w = some (tt, record w { mem = f w.mem })

unfoldable pub set_forward : Ptr → Ptr → M (Unit {0})
unfolding deref
set_forward p q = do deref p; set_mem (λ m. record m { p_forward = update m.p_forward p q })

unfoldable pub set_backward : Ptr → Ptr → M (Unit {0})
unfolding deref
set_backward p q = do deref p; set_mem (λ m. record m { p_backward = update m.p_backward p q })

unfoldable pub set_newer : Ptr → Ptr → M (Unit {0})
unfolding deref
set_newer p q = do deref p; set_mem (λ m. record m { p_newer = update m.p_newer p q })

unfoldable pub set_older : Ptr → Ptr → M (Unit {0})
unfolding deref
set_older p q = do deref p; set_mem (λ m. record m { p_older = update m.p_older p q })

unfoldable pub set_state : Ptr → NodeState → M (Unit {0})
unfolding deref
set_state p s = do deref p; set_mem (λ m. record m { state = update m.state p s })

unfoldable pub set_size : Ptr → ℕ → M (Unit {0})
unfolding deref
set_size p n = do deref p; set_mem (λ m. record m { size = update m.size p n })

abbrev pub get_rb : M Ringbuffer
get_rb w = some (w.rb, w)

abbrev pub set_rb : (Ringbuffer → Ringbuffer) → M (Unit {0})
set_rb f w = some (tt, record w { rb = f w.rb })

-- The assignment to fields of `rb->counter`.
abbrev pub set_counter : (Counter → Counter) → M (Unit {0})
set_counter f = set_rb (λ r. record r { counter = f r.counter })

abbrev pub sizeof_pointer : ℕ
sizeof_pointer = 8

abbrev pub sizeof_node : ℕ
sizeof_node = 48

abbrev pub sizeof_ringbuffer : ℕ
sizeof_ringbuffer = 64

-- `&node->token`, and the node of a token.
abbrev pub token_of : Ptr → Ptr
token_of node = node + 40

abbrev pub container_of : Ptr → Ptr
container_of token = token - 40

-- `EAF_ALIGN(size, sizeof(void*))`
unfoldable pub align : ℕ → ℕ
align size = bit_and (add64 size (sizeof_pointer - 1)) 0xffff_ffff_ffff_fff8

unfoldable pub node_cost : ℕ → ℕ
node_cost size = align (add64 sizeof_node size)

unfoldable pub heap_cost : ℕ
heap_cost = align sizeof_ringbuffer

unfoldable pub reinit : M (Unit {0})
reinit = do
  set_counter (λ c. record { committed = 0; writing = 0; reading = 0 })
  set_rb (λ r. record r { head = null; tail = null; oldest_reserve = null })

-- The buffer that is set up is the structure at the aligned address; `NULL` if there is no room for a
-- node behind it.
unfoldable pub init : Ptr → ℕ → M Ptr
unfolding reinit
init buffer size =
    let handler = align buffer in
    let leading_align_size = sub64 handler buffer in
    if leb size (add64 leading_align_size heap_cost) then pure null else (do
      set_rb (λ r. record r {
        cache = handler + heap_cost;
        capacity = sub64 (sub64 size leading_align_size) heap_cost;
      })
      reinit
      pure handler)

-- The token that was committed longest ago; it is read from now on.
unfoldable pub consume : M Ptr
consume = do
  rb ← get_rb
  if rb.oldest_reserve == null then pure null else (do
    s ← get_state rb.oldest_reserve
    if not (is_committed s) then pure null else (do
      set_counter (λ c. record c { committed = sub64 c.committed 1; reading = add64 c.reading 1 })
      let token_node = rb.oldest_reserve
      newer ← get_newer rb.oldest_reserve
      set_rb (λ r. record r { oldest_reserve = newer })
      set_state token_node stat_reading
      pure (token_of token_node)))

unfoldable pub delete_node_update_chain : Ptr → M (Unit {0})
delete_node_update_chain node = do
  backward ← get_backward node
  forward ← get_forward node
  set_forward backward forward
  forward' ← get_forward node
  backward' ← get_backward node
  set_backward forward' backward'
  older ← get_older node
  newer ← get_newer node
  if older == null then pure tt else set_newer older newer
  newer' ← get_newer node
  older' ← get_older node
  if newer' == null then pure tt else set_older newer' older'

unfoldable pub delete_node : Ptr → M (Unit {0})
unfolding reinit
delete_node node = do
  forward ← get_forward node
  if forward == node then reinit else (do
    delete_node_update_chain node
    newer ← get_newer node
    set_rb (λ r. record r {
      oldest_reserve = if r.oldest_reserve == node then newer else r.oldest_reserve;
    })
    older ← get_older node
    if older == null
        then set_rb (λ r. record r { tail = newer })
        else if newer == null
        then set_rb (λ r. record r { head = older })
        else pure tt)

unfoldable pub count : M (ℕ × Counter)
count = do rb ← get_rb; let c = rb.counter; pure (add64 (add64 c.committed c.reading) c.writing, c)

unfoldable pub begin : M Ptr
begin = do rb ← get_rb; pure (token_of rb.tail)

unfoldable pub next : Ptr → M Ptr
next token = do
  newer ← get_newer (container_of token)
  if newer == null then pure null else pure (token_of newer)
