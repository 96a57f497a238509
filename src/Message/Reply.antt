-- ===== src/Message/Reply.antt =====
-- eaf_msg_create_req and eaf_msg_create_rsp: what a response takes over from its request.
use eaf.Message.Memory.{update_twice, update_at}
use eaf.Prelude.{
  ℕ, ◌≡◌, ◌≢◌, refl, ap, sym, none, some, Option, arith, ne→false, eq→true, if◌then◌else◌,
}
use eaf.Prelude.Int.{ℤ, pos, negsuc, is_negative}
use eaf.Message.{
  Ptr, null, Msg, Memory, Block, rsp, req, update, ◌>>=◌, create_req, create_rsp, no_service,
  encs_req, get_type, get_receipt, get_token, get_rsp_fn,
}

-- The response to `q`, of `size` bytes.
abbrev pub response : Msg → ℕ → Msg
response q size = record {
  id = q.id;
  from = no_service;
  encs = 0;
  uuid = q.uuid;
  orig = q.orig;
  refcnt = 1;
  size = size;
}

abbrev pub request : Ptr → ℕ → ℕ → Ptr → Msg
request p id size fn = record {
  id = id;
  from = no_service;
  encs = encs_req;
  uuid = p;
  orig = fn;
  refcnt = 1;
  size = size;
}

-- Whether a message was allocated: the block, if there is one and the lock could be made.
abbrev pub allocated : Block → ℤ → Option Ptr
allocated none lock = none
allocated (some (p, junk)) lock = if is_negative lock then none else some p

-- A block of `malloc` is not `NULL`, and does not hold the message `r`.
abbrev pub IsFresh : Block → Ptr → Type 0
IsFresh none r = Unit {0}
IsFresh (some (p, junk)) r = (p ≢ null) × (p ≢ r)

-- eaf_msg_create_req gives a request of one reference that is its own uuid, or `NULL` and an
-- unchanged memory.
pub create_req_lem :
    (block : Block) (lock : ℤ) (id size : ℕ) (fn : Ptr) (h : Memory)
    → IsFresh block null
    → create_req block lock id size fn h
      ≡ some (elim (allocated block lock) [
        | none ↦ (null, h)
        | some p ↦ (p, update h p (some (request p id size fn)))
      ])
unfolding create_req
create_req_lem none lock id size fn h fresh = refl
create_req_lem (some (p, junk)) (negsuc l) id size fn h fresh = refl
create_req_lem (some (p, junk)) (pos l) id size fn h fresh =
    rw (ne→false p null fresh.0, ◌>>=◌, eq→true p p refl)
      (ap (λ g. some (p, g)) (update_twice h p _ _))

pub create_rsp_lem :
    (block : Block) (lock : ℤ) (r : Ptr) (size : ℕ) (q : Msg) (h : Memory)
    → h r ≡ some q
    → IsFresh block r
    → create_rsp block lock r size h
      ≡ some (elim (allocated block lock) [
        | none ↦ (null, h)
        | some p ↦ (p, update h p (some (response q size)))
      ])
unfolding create_rsp
create_rsp_lem none lock r size q h e fresh = ground arith
create_rsp_lem (some (p, junk)) (negsuc l) r size q h e fresh = ground arith
create_rsp_lem (some (p, junk)) (pos l) r size q h e fresh =
    let apart : r ≢ p = λ t. fresh.1 (sym t) in
    rw (e, ◌>>=◌, ne→false p null fresh.0, ne→false r p apart, e, eq→true p p refl)
      (ap (λ g. some (p, g)) (update_twice h p _ _))

-- A response answers its request: made from a request that was itself made with the handler `fn`, it
-- is of response type, with no receipt and no token, carries the request's message id and uuid, and
-- eaf_msg_get_rsp_fn finds the handler `fn` on it. Both messages have one reference, and the request
-- is still a request.
pub response_answers_request :
    (p r : Ptr) (junk junk' : Msg) (id size size' : ℕ) (fn : Ptr) (h : Memory)
    → p ≢ null
    → r ≢ null
    → p ≢ r
    → (h' : Memory) × (a : Msg) × (q : Msg) × ((create_req (some (r, junk)) (pos 0) id size fn
            >>= λ t. create_rsp (some (p, junk')) (pos 0) t size')
          h
        ≡ some (p, h'))
      × (h' p ≡ some a)
      × (h' r ≡ some q)
      × (get_type a ≡ rsp)
      × (get_type q ≡ req)
      × (get_receipt a ≡ pos 0)
      × (get_token a ≡ pos 0)
      × (get_rsp_fn a ≡ fn)
      × (a.id ≡ q.id)
      × (a.uuid ≡ q.uuid)
      × (a.refcnt ≡ 1)
      × (q.refcnt ≡ 1)
unfolding get_type get_receipt get_token get_rsp_fn
response_answers_request p r junk junk' id size size' fn h pn rn pr =
    let q = request r id size fn in
    let a = response q size' in
    let h1 = update h r (some q) in
    (
      update h1 p (some a),
      a,
      q,
      rw (create_req_lem (some (r, junk)) (pos 0) id size fn h (rn, rn), ◌>>=◌)
          (create_rsp_lem (some (p, junk')) (pos 0) r size' q h1 (update_at h r _) (pn, pr)),
      update_at h1 p _,
      ground arith,
      refl,
      refl,
      refl,
      refl,
      refl,
      refl,
      refl,
      refl,
      refl,
    )
