-- ===== src/RingBuffer/Protocol.antt =====
-- The runs of a ring buffer under the protocol of powerpack/include/eaf/powerpack/ringbuffer.h: each
-- token is committed by the one that holds it. Committed nodes are not overwritten.
use eaf.Prelude.{
  ℕ, ◌+◌, ◌-◌, ◌%◌, ◌^◌, ◌≤◌, ◌<◌, ◌≡◌, refl, sym, ◌≢◌, false, true, Option, some, List, [], ◌∷◌,
  ◌++◌, ◌||◌, arith, Bool-cases, inl, inr, ap, ◌∙◌, subst,
}
use eaf.Service.Keeps.Basic.{some_eq}
use eaf.Prelude.Int.{ℤ, pos, negsuc}
use eaf.Sequence.{has, has-append, erase}
use eaf.RingBuffer.{Ptr, null, World, token_of, container_of, init, consume}
use eaf.RingBuffer.Commit.{commit, has_flag, flag_overwrite}
use eaf.RingBuffer.Reserve.{reserve}
use eaf.RingBuffer.Ring.{Yields}
use eaf.RingBuffer.Facts.{node_within, nodes_apart, room}
use eaf.RingBuffer.Reserving.{reserve_lem}
use eaf.RingBuffer.Consuming.{consume_lem}
use eaf.RingBuffer.Committing.{commit_written_lem}
use eaf.RingBuffer.Releasing.{commit_read_lem}
use eaf.RingBuffer.Setup.{init_lem}
use eaf.RingBuffer.Held.{
  IsHeld, reserved-IsHeld, not_reserved-IsHeld, Consumed-IsHeld, not-Consumed-IsHeld,
}
use eaf.RingBuffer.HeldEnds.{Written-IsHeld, Released-IsHeld, refused-IsHeld}

-- The worlds that the calls reach, with the tokens that are held to be written and to be read.
pub data Reached : World → List Ptr → List Ptr → Type 0 where
  set_up :
      (w : World) {v : World} (h buffer : Ptr) (size : ℕ)
      → 0 < buffer
      → buffer + size + 7 < 2 ^ 64
      → init buffer size w ≡ some (h, v)
      → h ≢ null
      → Reached v [] []
  reserved :
      {w v : World} {ts qs : List Ptr} {t : Ptr}
      → Reached w ts qs
      → (len flags : ℕ) → len + 55 < 2 ^ 64
      → has_flag flags flag_overwrite ≡ false
      → reserve len flags w ≡ some (t, v)
      → t ≢ null
      → Reached v (t ∷ ts) qs
  not_reserved :
      {w v : World} {ts qs : List Ptr}
      → Reached w ts qs
      → (len flags : ℕ) → len + 55 < 2 ^ 64
      → has_flag flags flag_overwrite ≡ false
      → reserve len flags w ≡ some (null, v)
      → Reached v ts qs
  consumed :
      {w v : World} {ts qs : List Ptr} {t : Ptr}
      → Reached w ts qs
      → consume w ≡ some (t, v)
      → t ≢ null
      → Reached v ts (t ∷ qs)
  not_consumed :
      {w v : World} {ts qs : List Ptr}
      → Reached w ts qs
      → consume w ≡ some (null, v)
      → Reached v ts qs
  written :
      {w v : World} {ts qs : List Ptr} {r : ℤ}
      → Reached w ts qs
      → (t : Ptr) (flags : ℕ) → has t ts ≡ true
      → commit t flags w ≡ some (r, v)
      → Reached v (erase t ts) qs
  released :
      {w v : World} {ts qs : List Ptr}
      → Reached w ts qs
      → (t : Ptr) (flags : ℕ) → has t qs ≡ true
      → commit t flags w ≡ some (pos 0, v)
      → Reached v ts (erase t qs)
  refused :
      {w v : World} {ts qs : List Ptr}
      → Reached w ts qs
      → (t : Ptr) (flags : ℕ) → has t qs ≡ true
      → commit t flags w ≡ some (negsuc 0, v)
      → Reached v ts qs

-- The run that a theorem gives is the one that was made.
pub same_run {ℓ} :
    {A : Type 0} {o : Option (A × World)} {a : A} {v : World} {P : A → World → Type ℓ}
    → o ≡ some (a, v)
    → Yields o P
    → P a v
same_run {A} {a} {v} {P} e (b, u, run, p) =
    subst (λ (x : A × World). P x.0 x.1) (some_eq (b, u) (a, v) (sym run ∙ e)) p

-- In every such run the ring is well formed; a token that is held for writing is of a node in the
-- state writing, and one that is held for reading is of a node that is being read.
pub Reached-IsHeld : {w : World} {ts qs : List Ptr} → Reached w ts qs → IsHeld w ts qs
Reached-IsHeld (set_up w h buffer size pos_ bounded run ne) =
    elim (same_run run (init_lem w buffer size pos_ bounded)) [
      | inl none_ ↦ absurd (ne none_.0)
      | inr made ↦ record {
        rs = [];
        ws = [];
        ring = made.5;
        write_once = tt;
        read_once = tt;
        writers = λ t i. cc;
        readers = λ t i. cc;
      }
    ]
Reached-IsHeld (reserved r len flags small no_ow run ne) =
    let h = Reached-IsHeld r in
    reserved-IsHeld h (same_run run (reserve_lem len flags small no_ow h.rs h.ws h.ring)) ne
Reached-IsHeld (not_reserved r len flags small no_ow run) =
    let h = Reached-IsHeld r in
    not_reserved-IsHeld h (same_run run (reserve_lem len flags small no_ow h.rs h.ws h.ring)) refl
Reached-IsHeld (consumed r run ne) =
    let h = Reached-IsHeld r in
    Consumed-IsHeld h h.ws refl (same_run run (consume_lem h.rs h.ws h.ring)) ne
Reached-IsHeld (not_consumed r run) =
    let h = Reached-IsHeld r in
    not-Consumed-IsHeld h h.ws (same_run run (consume_lem h.rs h.ws h.ring)) refl
Reached-IsHeld (written {w} {v} {ts} {qs} r' t flags held run) =
    let h = Reached-IsHeld r' in
    let (p, e, on, wr) = h.writers t held in
    subst (λ x. IsHeld v (erase x ts) qs) (sym e)
      (Written-IsHeld h p flags (ap (λ x. has x ts) (sym e) ∙ held) on (
        same_run (ap (λ x. commit x flags w) (sym e) ∙ run)
          (commit_written_lem h.ring p flags (ground (arith, has-append p h.rs h.ws)) wr)))
Reached-IsHeld (released {w} {v} {ts} {qs} r t flags held run) =
    let h = Reached-IsHeld r in
    let (p, e, on) = h.readers t held in
    subst (λ x. IsHeld v ts (erase x qs)) (sym e)
      (Released-IsHeld h p flags (ap (λ x. has x qs) (sym e) ∙ held) on
        (same_run (ap (λ x. commit x flags w) (sym e) ∙ run) (commit_read_lem h.ring p flags on)))
Reached-IsHeld (refused {w} r t flags held run) =
    let h = Reached-IsHeld r in
    let (p, e, on) = h.readers t held in
    refused-IsHeld h p flags
      (same_run (ap (λ x. commit x flags w) (sym e) ∙ run) (commit_read_lem h.ring p flags on))

held_node :
    {w : World} {ts qs : List Ptr} (h : IsHeld w ts qs) (t : Ptr)
    → (has t ts || has t qs) ≡ true
    → (p : Ptr) × (t ≡ token_of p) × (has p (h.rs ++ h.ws) ≡ true)
held_node {ts} h t i = elim (Bool-cases (has t ts)) [
  | inl wr ↦ let (p, e, on, st) = h.writers t wr in (p, e, ground (arith, has-append p h.rs h.ws))
  | inr rd ↦
      let (p, e, on) = h.readers t (ground arith) in (p, e, ground (arith, has-append p h.rs h.ws))
]

-- In every run in which no reservation overwrites and none is within 55 bytes of the end of
-- `size_t`: two tokens that are held are aligned, lie with their data in the cache behind room
-- for a header, and the first by address ends where the header of the second begins, or before.
pub held_apart :
    {w : World} {ts qs : List Ptr}
    → Reached w ts qs
    → (t u : Ptr) → (has t ts || has t qs) ≡ true
    → (has u ts || has u qs) ≡ true
    → (w.rb.cache + 40 ≤ t)
      × (t % 8 ≡ 0)
      × (t + 8 + w.mem.size (container_of t) ≤ w.rb.cache + w.rb.capacity)
      × (t < u → t + 8 + w.mem.size (container_of t) + 40 ≤ u)
held_apart {w} {ts} {qs} r t u i j =
    let h = Reached-IsHeld r in
    let (p, ep, ip) = held_node h t i in
    let (q, eq, iq) = held_node h u j in
    let e : t - 40 ≡ p = omega arith in
    let (lo, hi) = node_within h.ring p ip in
    rw e (
      omega (arith, lo),
      omega (arith, h.ring.aligned p ip),
      omega (arith, hi, room h.ring p ip),
      λ lt. omega (arith, nodes_apart h.ring p q ip iq (omega arith), room h.ring p ip),
    )
