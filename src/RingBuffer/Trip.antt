-- ===== src/RingBuffer/Trip.antt =====
-- A token from eaf_ringbuffer_reserve over eaf_ringbuffer_commit to eaf_ringbuffer_consume.
use eaf.Prelude.{
  ℕ, ◌-◌, ◌+◌, ◌^◌, ◌<◌, ◌≡◌, sym, ◌≢◌, Bool, true, if◌then◌else◌, false, some, List, [], ◌∷◌,
  arith, ap, ◌∙◌, inl, inr,
}
use eaf.Prelude.Int.{pos}
use eaf.Sequence.{has-append}
use eaf.RingBuffer.{Ptr, null, World, container_of, is_committed, consume}
use eaf.RingBuffer.Commit.{commit, has_flag, flag_overwrite, flag_discard}
use eaf.RingBuffer.Committing.{commit_written_lem}
use eaf.RingBuffer.Consuming.{consume_lem}
use eaf.RingBuffer.Protocol.{same_run}
use eaf.RingBuffer.Reserve.{reserve}
use eaf.RingBuffer.Reserving.{reserve_lem}
use eaf.RingBuffer.Ring.{IsRing}
use eaf.RingBuffer.Insert.{Reserved}

-- The calls that hand the token `t` of `len` bytes from a writer to a reader.
pub record Handed (v : World) (t : Ptr) (len flags : ℕ) : Type 0 where
  pub committed : World
  pub read : World
  pub commits : commit t flags v ≡ some (pos 0, committed)
  pub consumes : consume committed ≡ some (t, read)
  pub whole : read.mem.size (container_of t) ≡ len

confirmed {ℓ} : (A B : Type ℓ) (b : Bool) → b ≡ false → (if b then A else B) → B
confirmed A B true e x = cc
confirmed A B false e x = x

handed :
    {w v u : World} {rs : List Ptr} {t : Ptr}
    → IsRing w rs []
    → (len : ℕ) {flags : ℕ} (r : Reserved w rs [] len t v) → u.mem.size ≡ v.mem.size
    → commit t flags v ≡ some (pos 0, u)
    → IsRing u rs (r.node ∷ []) × (is_committed (u.mem.state r.node) ≡ true)
    → Handed v t len flags
handed {w} {v} {u} {rs} {t} ring len r sizes commits (ring', c) =
    let p = r.node in
    let (t', x, consumes, got) = consume_lem rs (p ∷ []) ring' in
    elim got [
      | inl not_committed ↦ absurd (cc (c, not_committed.0))
      | inr (c', et, ring'', em) ↦ record {
        committed = u;
        read = x;
        commits = commits;
        consumes = consumes ∙ ap (λ y. some (y, x)) (et ∙ sym r.token);
        whole =
            let e : t - 40 ≡ p = omega (arith, r.token) in
            ap (λ m. m.size (t - 40)) em ∙ ap (λ f. f (t - 40)) sizes ∙ ap v.mem.size e ∙ r.size;
      }
    ]

-- On a well-formed ring in which every token is being read, a token that eaf_ringbuffer_reserve
-- returns, without overwriting and for a length that is not within 55 bytes of the end of
-- `size_t`, can be committed without the flag discard, and the next eaf_ringbuffer_consume
-- returns it, with the length that was reserved.
pub transfer_lem :
    {w v : World} {rs : List Ptr} {t : Ptr}
    → IsRing w rs []
    → (len flags flags' : ℕ) → len + 55 < 2 ^ 64
    → has_flag flags flag_overwrite ≡ false
    → has_flag flags' flag_discard ≡ false
    → reserve len flags w ≡ some (t, v)
    → t ≢ null
    → Handed v t len flags'
transfer_lem {w} {v} {rs} {t} ring len flags flags' small no_ow confirm run ne =
    elim (same_run run (reserve_lem len flags small no_ow rs [] ring)) [
      | inl refused ↦ absurd (ne refused.0)
      | inr r ↦
          let p = r.node in
          let (z, u, commits, (ez, kept, done)) =
            commit_written_lem r.ring p flags' (ground (arith, has-append p rs (p ∷ [])))
              r.writing in
          handed ring len r kept.0
            (ap (λ x. commit x flags' v) r.token ∙ commits ∙ ap (λ x. some (x, u)) ez)
            (confirmed _ _ (has_flag flags' flag_discard) confirm done)
    ]
