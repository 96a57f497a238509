-- ===== src/Message/Encs.antt =====
-- The fields of the encoded word `encs`: receipt in bits 0 to 14, the request bit 15, the token in
-- bits 32 to 63.
use eaf.Prelude.{
  ℕ, ◌+◌, ◌*◌, ◌/◌, ◌%◌, ◌^◌, ◌<◌, ◌≡◌, ap, sym, refl, ◌∙◌, arith, if◌then◌else◌, ltb,
}
use eaf.Prelude.Bits.{
  bit_and_receipt, bit_and_low32, bit_and_no_receipt, bit_and_req, bit_or_fields, bit_or_fields',
}
use eaf.Prelude.Int.{ℤ, pos, negsuc}
use eaf.Message.{
  Msg, MsgType, req, rsp, to_int, magnitude, negated, to_u64, get_type, set_receipt, get_receipt,
  set_token, get_token,
}

-- The word as a number, after each of the two writes.
set_receipt-encs :
    (m : Msg) (r : ℤ)
    → m.encs < 2 ^ 64
    → (set_receipt m r).encs ≡ m.encs / 2 ^ 15 * 2 ^ 15 + magnitude r % 2 ^ 15
unfolding set_receipt
set_receipt-encs m r h =
    rw (bit_and_no_receipt m.encs h, bit_and_receipt (magnitude r))
      (bit_or_fields 15 (m.encs / 2 ^ 15) (magnitude r % 2 ^ 15) (omega arith))

set_token-encs :
    (m : Msg) (t : ℤ) → (set_token m t).encs ≡ to_u64 t % 2 ^ 32 * 2 ^ 32 + m.encs % 2 ^ 32
unfolding set_token
set_token-encs m t =
    rw
      (
        bit_and_low32 m.encs,
        (let e : to_u64 t * 2 ^ 32 % 2 ^ 64 ≡ to_u64 t % 2 ^ 32 * 2 ^ 32 = omega arith in e),
      )
      (bit_or_fields' 32 (to_u64 t % 2 ^ 32) (m.encs % 2 ^ 32) (omega arith))

-- A message's word is a `uint64_t`.
abbrev pub IsWord : Msg → Type 0
IsWord m = m.encs < 2 ^ 64

-- The three fields as arithmetic.
receipt_field : (m : Msg) → get_receipt m ≡ negated (m.encs % 2 ^ 15)
unfolding get_receipt
receipt_field m = ap negated (bit_and_receipt m.encs)

abbrev type_of : ℕ → MsgType
type_of bit = if ltb 0 bit then req else rsp

type_field : (m : Msg) → get_type m ≡ type_of (m.encs / 2 ^ 15 % 2)
unfolding get_type
type_field m = ground (arith, bit_and_req m.encs)

abbrev token_of : ℕ → ℤ
token_of encs = to_int (encs / 2 ^ 32 % 2 ^ 32)

token_field : (m : Msg) → get_token m ≡ token_of m.encs
unfolding get_token
token_field m = refl

module _ (m m' : Msg) where
  same_type : m'.encs / 2 ^ 15 % 2 ≡ m.encs / 2 ^ 15 % 2 → get_type m' ≡ get_type m
  same_type e = type_field m' ∙ ap type_of e ∙ sym (type_field m)

  same_receipt : m'.encs % 2 ^ 15 ≡ m.encs % 2 ^ 15 → get_receipt m' ≡ get_receipt m
  same_receipt e = receipt_field m' ∙ ap negated e ∙ sym (receipt_field m)

  same_token : m'.encs / 2 ^ 32 % 2 ^ 32 ≡ m.encs / 2 ^ 32 % 2 ^ 32 → get_token m' ≡ get_token m
  same_token e = token_field m' ∙ ap to_int e ∙ sym (token_field m)

-- eaf_msg_set_receipt stores the magnitude of the receipt, modulo 2^15: eaf_msg_get_receipt returns
-- its negation, whatever the sign was. The type and the token of the message stay, and the word
-- stays within 64 bits.
pub set_receipt_lem :
    (m : Msg) (r : ℤ)
    → IsWord m
    → (get_receipt (set_receipt m r) ≡ negated (magnitude r % 2 ^ 15))
      × (get_type (set_receipt m r) ≡ get_type m)
      × (get_token (set_receipt m r) ≡ get_token m)
      × IsWord (set_receipt m r)
set_receipt_lem m r h =
    let m' = set_receipt m r in
    let e = set_receipt-encs m r h in
    (
      receipt_field m' ∙ ap negated (omega (arith, e)),
      same_type m m' (omega (arith, e)),
      same_token m m' (omega (arith, e)),
      omega (arith, e),
    )

-- An `int`.
abbrev pub IsInt : ℤ → Type 0
IsInt (pos n) = n < 2 ^ 31
IsInt (negsuc n) = n < 2 ^ 31

to_int-to_u64 : (t : ℤ) → IsInt t → to_int (to_u64 t % 2 ^ 32) ≡ t
to_int-to_u64 (pos n) h = ground arith
to_int-to_u64 (negsuc n) h = ground arith

-- eaf_msg_get_token returns the token that eaf_msg_set_token stored, for every `int`. The type and
-- the receipt of the message stay, and the word stays within 64 bits.
pub set_token_lem :
    (m : Msg) (t : ℤ)
    → IsInt t
    → (get_token (set_token m t) ≡ t)
      × (get_type (set_token m t) ≡ get_type m)
      × (get_receipt (set_token m t) ≡ get_receipt m)
      × IsWord (set_token m t)
set_token_lem m t h =
    let m' = set_token m t in
    let e = set_token-encs m t in
    (
      token_field m' ∙ ap to_int (omega (arith, e)) ∙ to_int-to_u64 t h,
      same_type m m' (omega (arith, e)),
      same_receipt m m' (omega (arith, e)),
      omega (arith, e),
    )
