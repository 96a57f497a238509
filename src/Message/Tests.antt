-- ===== src/Message/Tests.antt =====
-- Runs of src/core/message.c on small memories.
use eaf.Prelude.{◌%◌, ◌^◌, ◌≡◌, refl, none, some, arith}
use eaf.Prelude.Int.{pos, negsuc}
use eaf.Message.{
  Msg, Memory, ◌>>=◌, ◌>>◌, create_req, create_rsp, add_ref, dec_ref, get_type, get_receipt,
  get_token, get_rsp_fn, set_receipt, set_token, req, rsp, negated, magnitude, update,
}
use eaf.Message.Encs.{IsWord, set_receipt_lem, set_token_lem}
use eaf.Message.Refs.{times, freed_at_last_ref}
use eaf.Message.Reply.{response_answers_request}

-- A request with the receipt 5 and the token 3.
abbrev sample : Msg
sample = record {
  id = 7;
  from = 1;
  encs = 0x3_0000_8005;
  uuid = 40;
  orig = 9;
  refcnt = 1;
  size = 0;
}

abbrev empty_memory : Memory
empty_memory a = none

abbrev with_sample : Memory
with_sample = update empty_memory 40 (some sample)

reads_test : (get_receipt sample ≡ negsuc 4) × (get_token sample ≡ pos 3) × (get_type sample ≡ req)
unfolding get_receipt get_token get_type
reads_test = (refl, refl, refl)

set_receipt_lem_example :
    (get_receipt (set_receipt sample (pos 12)) ≡ negated (magnitude (pos 12) % 2 ^ 15))
    × (get_type (set_receipt sample (pos 12)) ≡ get_type sample)
    × (get_token (set_receipt sample (pos 12)) ≡ get_token sample)
    × IsWord (set_receipt sample (pos 12))
set_receipt_lem_example = set_receipt_lem sample (pos 12) (omega arith)

set_token_lem_example :
    (get_token (set_token sample (negsuc 41)) ≡ negsuc 41)
    × (get_type (set_token sample (negsuc 41)) ≡ get_type sample)
    × (get_receipt (set_token sample (negsuc 41)) ≡ get_receipt sample)
    × IsWord (set_token sample (negsuc 41))
set_token_lem_example = set_token_lem sample (negsuc 41) (omega arith)

freed_at_last_ref_example :
    (times 2 (add_ref 40) >> times 3 (dec_ref 40)) with_sample
    ≡ some (tt, update with_sample 40 none)
freed_at_last_ref_example =
    freed_at_last_ref 40 sample 2 2 with_sample refl (omega arith) (omega arith)

response_answers_request_example :
    (h' : Memory) × (a : Msg) × (q : Msg) × ((create_req (some (40, sample)) (pos 0) 8 16 77
          >>= λ t. create_rsp (some (50, sample)) (pos 0) t 4)
        empty_memory
      ≡ some (50, h'))
    × (h' 50 ≡ some a)
    × (h' 40 ≡ some q)
    × (get_type a ≡ rsp)
    × (get_type q ≡ req)
    × (get_receipt a ≡ pos 0)
    × (get_token a ≡ pos 0)
    × (get_rsp_fn a ≡ 77)
    × (a.id ≡ q.id)
    × (a.uuid ≡ q.uuid)
    × (a.refcnt ≡ 1)
    × (q.refcnt ≡ 1)
response_answers_request_example =
    response_answers_request 50 40 sample sample 8 16 4 77 empty_memory (omega arith) (omega arith)
      (omega arith)
