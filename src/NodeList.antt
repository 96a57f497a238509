-- ===== src/NodeList.antt =====
-- src/utils/list.c: the intrusive doubly linked list. The nodes stand in the caller's memory, a heap
-- of nodes by address; a dereference of `NULL` or of an address that holds no node is a fault
-- (`none`). A function that changes `*handler` returns the new handle.
pub mod Chain
pub mod Push
pub mod Insert
pub mod Erase
pub mod Tests
pub use eaf.Prelude.Commands.{pure, ◌>>=◌, ◌>>◌}
use eaf.Prelude.{ℕ, ◌+◌, ◌-◌, ◌%◌, ◌^◌, ◌&&◌, Option, none, some, ◌==◌, if◌then◌else◌}

abbrev pub Ptr : Type 0
Ptr = ℕ

abbrev pub null : Ptr
null = 0

-- `eaf_list_node_t`
pub record Node : Type 0 where
  pub p_after : Ptr
  pub p_before : Ptr

-- `eaf_list_t`
pub record Handle : Type 0 where
  pub head : Ptr
  pub tail : Ptr
  pub size : ℕ

abbrev pub Heap : Type 0
Heap = Ptr → Option Node

abbrev pub write : Heap → Ptr → Node → Heap
write h p n a = if a == p then some n else h a

-- A command may fault.
abbrev pub M : Type 0 → Type 0
M A = Heap → Option (A × Heap)

-- `*p`
unfoldable pub load : Ptr → M Node
load p h = if p == null then none else elim (h p) [ none ↦ none | some n ↦ some (n, h) ]

-- `p->p_after = q` and `p->p_before = q`
unfoldable pub set_after : Ptr → Ptr → M (Unit {0})
set_after p q = do n ← load p; λ h. some (tt, write h p (record n { p_after = q }))

unfoldable pub set_before : Ptr → Ptr → M (Unit {0})
set_before p q = do n ← load p; λ h. some (tt, write h p (record n { p_before = q }))

-- `size++` and `size--` on a `size_t`
abbrev pub incr : ℕ → ℕ
incr n = (n + 1) % 2 ^ 64

abbrev pub decr : ℕ → ℕ
decr n = (n + 2 ^ 64 - 1) % 2 ^ 64

unfoldable pub init : Handle
init = record { head = null; tail = null; size = 0 }

unfoldable pub set_once : Ptr → M Handle
set_once node = do
  set_after node null
  set_before node null
  pure (record { head = node; tail = node; size = 1 })

unfoldable pub push_back : Handle → Ptr → M Handle
push_back l node = if l.head == null then set_once node else (do
  set_after node null
  set_before node l.tail
  set_after l.tail node
  pure (record l { tail = node; size = incr l.size }))

unfoldable pub push_front : Handle → Ptr → M Handle
push_front l node = if l.head == null then set_once node else (do
  set_before node null
  set_after node l.head
  set_before l.head node
  pure (record l { head = node; size = incr l.size }))

unfoldable pub insert_before : Handle → Ptr → Ptr → M Handle
insert_before l pos node = if l.head == pos then push_front l node else (do
  before ← load pos
  set_before node before.p_before
  set_after node pos
  at ← load pos
  set_after at.p_before node
  set_before pos node
  pure (record l { size = incr l.size }))

unfoldable pub insert_after : Handle → Ptr → Ptr → M Handle
insert_after l pos node = if l.tail == pos then push_back l node else (do
  set_before node pos
  at ← load pos
  set_after node at.p_after
  at' ← load pos
  set_before at'.p_after node
  set_after pos node
  pure (record l { size = incr l.size }))

unfoldable pub begin : Handle → Ptr
begin l = l.head

unfoldable pub end : Handle → Ptr
end l = l.tail

unfoldable pub next : Ptr → M Ptr
next node = do n ← load node; pure n.p_after

unfoldable pub prev : Ptr → M Ptr
prev node = do n ← load node; pure n.p_before

-- The two middle branches, the head and the tail of a longer list, and the node inside it.
unfoldable pub erase : Handle → Ptr → M Handle
erase l node =
    let size = decr l.size in
    if (l.head == node) && (l.tail == node)
    then pure (record { head = null; tail = null; size = size })
    else if l.head == node
    then (do
      n ← load node
      set_before n.p_after null
      pure (record l { head = n.p_after; size = size }))
    else if l.tail == node
    then (do
      n ← load node
      set_after n.p_before null
      pure (record l { tail = n.p_before; size = size }))
    else (do
      n ← load node
      set_after n.p_before n.p_after
      n' ← load node
      set_before n'.p_after n'.p_before
      pure (record l { size = size }))

unfoldable pub pop_front : Handle → M (Ptr × Handle)
pop_front l =
    let node = l.head in
    if node == null then pure (null, l) else (do l' ← erase l node; pure (node, l'))

unfoldable pub pop_back : Handle → M (Ptr × Handle)
pop_back l =
    let node = l.tail in
    if node == null then pure (null, l) else (do l' ← erase l node; pure (node, l'))

unfoldable pub size : Handle → ℕ
size l = l.size
