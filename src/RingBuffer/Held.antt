-- ===== src/RingBuffer/Held.antt =====
-- The tokens that are held, and that reservations and consumptions keep them in the ring.
use eaf.Prelude.{
  ℕ, ◌≡◌, sym, ◌≢◌, ◌⊎◌, Bool, false, true, List, [], ◌∷◌, ◌==◌, if◌then◌else◌, arith, Bool-cases,
  inl, inr, ap, ◌∙◌, subst, ℕ_discrete,
}
use eaf.Sequence.{has, Distinct, has-append, not-has-append, push_back, Distinct-append}
use eaf.RingBuffer.{Ptr, null, World, NodeState, token_of, is_writing, is_committed}
use eaf.RingBuffer.Ring.{IsRing}
use eaf.RingBuffer.Reserving.{Outcome}
use eaf.RingBuffer.Consuming.{Consumed}

-- The nodes of the tokens that are held.
pub record IsHeld (w : World) (ts qs : List Ptr) : Type 0 where
  pub rs : List Ptr
  pub ws : List Ptr
  pub ring : IsRing w rs ws
  pub write_once : Distinct ts
  pub read_once : Distinct qs
  pub writers :
      (t : Ptr)
      → has t ts ≡ true
      → (p : Ptr) × (t ≡ token_of p) × (has p ws ≡ true) × (is_writing (w.mem.state p) ≡ true)
  pub readers : (t : Ptr) → has t qs ≡ true → (p : Ptr) × (t ≡ token_of p) × (has p rs ≡ true)

token_of-inj : (p q : Ptr) → token_of p ≡ token_of q → p ≡ q
token_of-inj p q e = omega arith

not_both : (s : NodeState) → is_committed s ≡ true → is_writing s ≡ false
not_both s c = ground arith

pub either_if {ℓ} : {A B : Type ℓ} (b : Bool) → (if b then A else B) → A ⊎ B
either_if true a = inl a
either_if false b = inr b

-- A token of a node that is new, or that has changed its part, is not among others.
not_among :
    (p : Ptr) (xs ts : List Ptr)
    → has p xs ≡ false
    → ((t : Ptr) → has t ts ≡ true → (q : Ptr) × (t ≡ token_of q) × (has q xs ≡ true))
    → has (token_of p) ts ≡ false
not_among p xs ts out held = elim (Bool-cases (has (token_of p) ts)) [
  | inl i ↦
      let (q, e, on) = held (token_of p) i in absurd (cc (ap (λ r. has r xs) (token_of-inj p q e)))
  | inr o ↦ o
]

module _ {w v : World} {ts qs : List Ptr} (h : IsHeld w ts qs) where
  open h use {rs, ws, ring, write_once, read_once, writers, readers}

  -- A reservation.
  pub reserved-IsHeld :
      {t : Ptr} {len : ℕ} {P : Type 0} → Outcome w rs ws len P t v → t ≢ null → IsHeld v (t ∷ ts) qs
  reserved-IsHeld (inl (e, same, p)) ne = absurd (ne e)
  reserved-IsHeld {t} (inr r) ne =
      let p = r.node in
      let (out_r, out_w) = not-has-append p rs ws r.fresh in
      record {
        rs = rs;
        ws = push_back ws p;
        ring = r.ring;
        write_once = (
          rw r.token
              (not_among p ws ts out_w (λ t i. let (q, e, on, wr) = writers t i in (q, e, on))),
          write_once,
        );
        read_once = read_once;
        writers = λ t' i. elim (ℕ_discrete t' t) [
          | yes e ↦ (p, e ∙ r.token, ground (arith, has-append p ws (p ∷ [])), r.writing)
          | no ne' ↦
              let (q, e, on, wr) = writers t' (ground arith) in
              (
                q,
                e,
                ground (arith, has-append q ws (p ∷ [])),
                ap is_writing (r.kept q (ground (arith, has-append q rs ws))).0 ∙ wr,
              )
        ];
        readers = readers;
      }

  pub not_reserved-IsHeld :
      {t : Ptr} {len : ℕ} {P : Type 0} → Outcome w rs ws len P t v → t ≡ null → IsHeld v ts qs
  not_reserved-IsHeld (inl (e, same, p)) z = subst (λ u. IsHeld u ts qs) (sym same) h
  not_reserved-IsHeld (inr r) z = absurd (omega (arith, r.token, z))

  -- A consumption.
  pub Consumed-IsHeld :
      (ws' : List Ptr) {t : Ptr}
      → ws ≡ ws'
      → Consumed w rs ws' t v
      → t ≢ null
      → IsHeld v ts (t ∷ qs)
  Consumed-IsHeld [] e (z, same) ne = absurd (ne z)
  Consumed-IsHeld (p ∷ ws') e (inl (nc, z, same)) ne = absurd (ne z)
  Consumed-IsHeld (p ∷ ws') {t} e (inr (c, et, ring', em)) ne =
      let (dr, dw, apart) = Distinct-append rs ws ring.distinct in
      let out : has p rs ≡ false = ground (arith, apart p, ap (has p) e) in
      record {
        rs = push_back rs p;
        ws = ws';
        ring = ring';
        write_once = write_once;
        read_once = (rw et (not_among p rs qs out readers), read_once);
        writers = λ t' i.
            let (q, eq, on, wr) = writers t' i in
            let other : (q == p) ≡ false = ground (arith, not_both (w.mem.state p) c) in
            (
              q,
              eq,
              ground (arith, ap (has q) e),
              ap (λ m. is_writing (m.state q)) em ∙ rw other wr,
            );
        readers = λ t' i. elim (ℕ_discrete t' t) [
          | yes e' ↦ (p, e' ∙ et, ground (arith, has-append p rs (p ∷ [])))
          | no ne' ↦
              let (q, eq, on) = readers t' (ground arith) in
              (q, eq, ground (arith, has-append q rs (p ∷ [])))
        ];
      }

  pub not-Consumed-IsHeld :
      (ws' : List Ptr) {t : Ptr} → Consumed w rs ws' t v → t ≡ null → IsHeld v ts qs
  not-Consumed-IsHeld [] (z, same) n = subst (λ u. IsHeld u ts qs) (sym same) h
  not-Consumed-IsHeld (p ∷ ws') (inl (nc, z, same)) n = subst (λ u. IsHeld u ts qs) (sym same) h
  not-Consumed-IsHeld (p ∷ ws') (inr (c, et, ring', em)) n = absurd (omega (arith, et, n))
