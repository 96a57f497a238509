-- ===== src/Message.antt =====
-- src/core/message.c and src/core/message.h: messages, their encoded word and their reference count.
-- Messages stand in memory by address; an access to one that is not allocated is a fault (`none`).
-- `malloc` and `lock_init` belong to the platform: their results are arguments. A block comes with
-- the contents that it happens to have. The payload bytes and the lock are left out.
pub mod Memory
pub mod Encs
pub mod Refs
pub mod Reply
pub mod Tests
pub use eaf.Prelude.Commands.{pure, ◌>>=◌, ◌>>◌}
use eaf.Prelude.{
  ℕ, zero, suc, ◌+◌, ◌-◌, ◌*◌, ◌/◌, ◌%◌, ◌^◌, Bool, Option, none, some, ◌==◌, ltb, if◌then◌else◌,
}
use eaf.Prelude.Int.{ℤ, pos, negsuc, is_negative}
use Prim.Native.Nat.{bit_and, bit_or}

abbrev pub Ptr : Type 0
Ptr = ℕ

abbrev pub null : Ptr
null = 0

-- `eaf_msg_full_t` with its `eaf_msg_t`; `orig` holds a function pointer.
pub record Msg : Type 0 where
  pub id : ℕ
  pub from : ℕ
  pub encs : ℕ
  pub uuid : ℕ
  pub orig : Ptr
  pub refcnt : ℕ
  pub size : ℕ

abbrev pub Memory : Type 0
Memory = Ptr → Option Msg

abbrev pub update : Memory → Ptr → Option Msg → Memory
update h p m a = if a == p then m else h a

-- What `malloc` gives: `NULL`, or a block with its contents.
abbrev pub Block : Type 0
Block = Option (Ptr × Msg)

abbrev pub M : Type 0 → Type 0
M A = Memory → Option (A × Memory)

unfoldable pub load : Ptr → M Msg
load p h = elim (h p) [ none ↦ none | some m ↦ some (m, h) ]

abbrev pub store : Ptr → Option Msg → M (Unit {0})
store p m h = some (tt, update h p m)

-- EAF_MSG_ENCS_REQ
abbrev pub encs_req : ℕ
encs_req = 0x8000

abbrev pub no_service : ℕ
no_service = 0xffff_ffff

unfoldable pub create : Block → ℤ → ℕ → ℕ → M Ptr
create none lock id size = pure null
create (some (p, junk)) lock id size = if is_negative lock then pure null else (do
  store p (some (record junk { id = id; from = no_service; refcnt = 1; size = size }))
  pure p)

unfoldable pub create_req : Block → ℤ → ℕ → ℕ → Ptr → M Ptr
unfolding create load
create_req block lock msg_id size rsp_fn = do
  p ← create block lock msg_id size
  if p == null then pure null else (do
    m ← load p
    store p (some (record m { encs = encs_req; uuid = p; orig = rsp_fn }))
    pure p)

unfoldable pub create_rsp : Block → ℤ → Ptr → ℕ → M Ptr
unfolding create load
create_rsp block lock req size = do
  r ← load req
  p ← create block lock r.id size
  if p == null then pure null else (do
    r' ← load req
    m ← load p
    store p (some (record m { encs = 0; uuid = r'.uuid; orig = r'.orig }))
    pure p)

unfoldable pub add_ref : Ptr → M (Unit {0})
unfolding load
add_ref p = do m ← load p; store p (some (record m { refcnt = (m.refcnt + 1) % 2 ^ 64 }))

-- `_eaf_msg_destroy`
unfoldable pub destroy : Ptr → M (Unit {0})
destroy p = store p none

unfoldable pub dec_ref : Ptr → M (Unit {0})
unfolding load destroy
dec_ref p = do
  m ← load p
  let left = (m.refcnt + 2 ^ 64 - 1) % 2 ^ 64
  store p (some (record m { refcnt = left }))
  if left == 0 then destroy p else pure tt

-- The data pointer is given by the message that it points into; `NULL` for an empty payload.
unfoldable pub get_data : Ptr → M (Option Ptr × ℕ)
unfolding load
get_data p = do m ← load p; pure (if m.size == 0 then none else some p, m.size)

pub data MsgType : Type 0 where
  req rsp : MsgType

unfoldable pub is_req : ℕ → Bool
is_req encs = ltb 0 (bit_and encs encs_req)

unfoldable pub get_type : Msg → MsgType
unfolding is_req
get_type m = if is_req m.encs then req else rsp

unfoldable pub set_rsp_fn : Msg → Ptr → Msg
set_rsp_fn m fn = record m { orig = fn }

unfoldable pub get_rsp_fn : Msg → Ptr
get_rsp_fn m = m.orig

-- `receipt < 0 ? -receipt : receipt`
abbrev pub magnitude : ℤ → ℕ
magnitude (pos n) = n
magnitude (negsuc n) = suc n

-- `-(int)n`
abbrev pub negated : ℕ → ℤ
negated zero = pos 0
negated (suc n) = negsuc n

unfoldable pub set_receipt : Msg → ℤ → Msg
set_receipt m receipt =
    let cleared = bit_and m.encs 0xffff_ffff_ffff_8000 in
    record m { encs = bit_or cleared (bit_and (magnitude receipt) 0x7fff) }

unfoldable pub get_receipt : Msg → ℤ
get_receipt m = negated (bit_and m.encs 0x7fff)

-- `(uint64_t)i` of an `int`, and `(int)n` of the low 32 bits.
abbrev pub to_u64 : ℤ → ℕ
to_u64 (pos n) = n % 2 ^ 64
to_u64 (negsuc n) = 2 ^ 64 - suc n

abbrev pub to_int : ℕ → ℤ
to_int n = if ltb n (2 ^ 31) then pos n else negsuc (2 ^ 32 - 1 - n)

unfoldable pub set_token : Msg → ℤ → Msg
set_token m token =
    let cleared = bit_and m.encs 0xffff_ffff in
    record m { encs = bit_or cleared (to_u64 token * 2 ^ 32 % 2 ^ 64) }

unfoldable pub get_token : Msg → ℤ
get_token m = to_int (m.encs / 2 ^ 32 % 2 ^ 32)
