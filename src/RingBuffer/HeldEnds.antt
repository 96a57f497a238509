-- ===== src/RingBuffer/HeldEnds.antt =====
-- The commits keep the tokens that are held in the ring.
use eaf.Prelude.{ℕ, ◌≡◌, sym, ◌≢◌, true, List, ◌∷◌, ◌==◌, arith, ne→false, inl, inr, ap, ◌∙◌, subst}
use eaf.Prelude.Int.{ℤ, pos, negsuc}
use eaf.Sequence.{has, erase, Distinct-append}
use eaf.RingBuffer.{Ptr, null, World, token_of, is_writing}
use eaf.RingBuffer.Commit.{has_flag, flag_discard, flag_abandon}
use eaf.RingBuffer.Ring.{IsRing}
use eaf.RingBuffer.Committing.{Written, KeptBut}
use eaf.RingBuffer.Releasing.{Released}
use eaf.RingBuffer.Order.{after}
use eaf.RingBuffer.Erasure.{has-erase, has-erase_sub, not-has-erase, Distinct-erase}
use eaf.RingBuffer.Held.{IsHeld, either_if}

Released-IsRing :
    (w v : World) (rs ws : List Ptr) (p : Ptr) (flags : ℕ)
    → Released w rs ws p flags (pos 0) v
    → KeptBut p w.mem v.mem
      × (ws' : List Ptr) × IsRing v (erase p rs) ws'
      × ((q : Ptr) → has q ws ≡ true → has q ws' ≡ true)
Released-IsRing w v rs ws p flags done = elim (either_if (has_flag flags flag_discard) done) [
  | inl discard ↦ elim (either_if (after rs p == null) discard) [
    | inl back ↦ (back.1, p ∷ ws, back.2, λ q i. ground arith)
    | inr busy ↦ elim (either_if (has_flag flags flag_abandon) busy) [
      | inl gone ↦ (gone.1, ws, gone.2, λ q i. i)
      | inr keep ↦ absurd (cc keep.0)
    ]
  ]
  | inr gone ↦ (gone.1, ws, gone.2, λ q i. i)
]

module _ {w v : World} {ts qs : List Ptr} (h : IsHeld w ts qs) where
  open h use {rs, ws, ring, write_once, read_once, writers, readers}

  -- The end of a write.
  pub Written-IsHeld :
      {r : ℤ} (p : Ptr) (flags : ℕ)
      → has (token_of p) ts ≡ true
      → has p ws ≡ true
      → Written w rs ws p flags r v
      → IsHeld v (erase (token_of p) ts) qs
  Written-IsHeld p flags held on (z, kept, after') =
      let (dr, dw, apart) = Distinct-append rs ws ring.distinct in
      let others : (t : Ptr)
          → has t (erase (token_of p) ts) ≡ true
          → (q : Ptr) × (t ≡ token_of q)
            × (has q ws ≡ true)
            × (is_writing (v.mem.state q) ≡ true)
            × (q ≢ p) =
        λ t i.
          let (q, e, on_q, wr) = writers t (has-erase_sub (token_of p) t ts i) in
          let ne : q ≢ p = λ eq. cc (
            not-has-erase (token_of p) ts write_once,
            ap (λ x. has (token_of x) (erase (token_of p) ts)) eq,
            ap (λ x. has x (erase (token_of p) ts)) e,
          ) in
          (q, e, on_q, ap is_writing (kept.1 q (ne→false q p ne)) ∙ wr, ne) in
      elim (either_if (has_flag flags flag_discard) after') [
        | inl ring' ↦ record {
          rs = erase p rs;
          ws = erase p ws;
          ring = ring';
          write_once = Distinct-erase (token_of p) ts write_once;
          read_once = read_once;
          writers = λ t i.
              let (q, e, on_q, wr, ne) = others t i in (q, e, has-erase p q ws ne ∙ on_q, wr);
          readers = λ t i.
              let (q, e, on_q) = readers t i in
              (q, e, has-erase p q rs (λ eq. cc (apart q on_q, ap (λ x. has x ws) eq)) ∙ on_q);
        }
        | inr (ring', c) ↦ record {
          rs = rs;
          ws = ws;
          ring = ring';
          write_once = Distinct-erase (token_of p) ts write_once;
          read_once = read_once;
          writers = λ t i. let (q, e, on_q, wr, ne) = others t i in (q, e, on_q, wr);
          readers = readers;
        }
      ]

  -- The end of a reading that succeeds, and one that fails.
  pub Released-IsHeld :
      (p : Ptr) (flags : ℕ)
      → has (token_of p) qs ≡ true
      → has p rs ≡ true
      → Released w rs ws p flags (pos 0) v
      → IsHeld v ts (erase (token_of p) qs)
  Released-IsHeld p flags held on done =
      let (dr, dw, apart) = Distinct-append rs ws ring.distinct in
      let (kept, ws', ring', more) = Released-IsRing w v rs ws p flags done in
      record {
        rs = erase p rs;
        ws = ws';
        ring = ring';
        write_once = write_once;
        read_once = Distinct-erase (token_of p) qs read_once;
        writers = λ t i.
            let (q, e, on_q, wr) = writers t i in
            let ne : q ≢ p = λ eq. cc (apart p on, ap (λ x. has x ws) eq) in
            (q, e, more q on_q, ap is_writing (kept.1 q (ne→false q p ne)) ∙ wr);
        readers = λ t i.
            let (q, e, on_q) = readers t (has-erase_sub (token_of p) t qs i) in
            let ne : q ≢ p = λ eq. cc (
              not-has-erase (token_of p) qs read_once,
              ap (λ x. has (token_of x) (erase (token_of p) qs)) eq,
              ap (λ x. has x (erase (token_of p) qs)) e,
            ) in
            (q, e, has-erase p q rs ne ∙ on_q);
      }

  pub refused-IsHeld :
      (p : Ptr) (flags : ℕ) → Released w rs ws p flags (negsuc 0) v → IsHeld v ts qs
  refused-IsHeld p flags done = elim (either_if (has_flag flags flag_discard) done) [
    | inl discard ↦ elim (either_if (after rs p == null) discard) [
      | inl back ↦ absurd (cc back.0)
      | inr busy ↦ elim (either_if (has_flag flags flag_abandon) busy) [
        | inl gone ↦ absurd (cc gone.0)
        | inr keep ↦ subst (λ u. IsHeld u ts qs) (sym keep.1) h
      ]
    ]
    | inr gone ↦ absurd (cc gone.0)
  ]
