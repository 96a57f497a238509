-- ===== src/RingBuffer/Visit.antt =====
-- The iteration over the tokens by eaf_ringbuffer_begin and eaf_ringbuffer_next.
use eaf.Prelude.{
  ℕ, zero, suc, ◌≡◌, refl, sym, ◌≢◌, true, some, none, List, [], ◌∷◌, ◌++◌, ◌==◌, if◌then◌else◌,
  arith, ne→false, ap, ◌∙◌, subst, append_assoc, map, length,
}
use eaf.Sequence.{has, Distinct, first, has-append, Distinct-split, push_back}
use eaf.RingBuffer.{Ptr, null, World, M, token_of, begin, next, pure, ◌>>=◌}
use eaf.RingBuffer.Facts.{ne_null}
use eaf.RingBuffer.Order.{after, after-middle}
use eaf.RingBuffer.Ring.{IsRing}
use eaf.RingBuffer.Setup.{begin_lem, next_lem}

-- `for (t = begin(); t != NULL; t = next(t))`, with the tokens that it sees; `none` if the fuel runs
-- out.
unfoldable pub visit : ℕ → Ptr → M (List Ptr)
visit zero token = λ w. none
visit (suc fuel) token =
    let rest = next token >>= visit fuel in
    if token == null then pure [] else (do tokens ← rest; pure (token ∷ tokens))

visit_step :
    (fuel : ℕ) (t t' : Ptr) (ts : List Ptr) (w : World)
    → t ≢ null
    → next t w ≡ some (t', w)
    → visit fuel t' w ≡ some (ts, w)
    → visit (suc fuel) t w ≡ some (t ∷ ts, w)
unfolding visit
visit_step fuel t t' ts w ne e rest = rw (ne→false t null ne, ◌>>=◌, e, ◌>>=◌, rest) refl

middle :
    {w : World} {rs ws : List Ptr} (ring : IsRing w rs ws) (front : List Ptr) (p : Ptr)
    (back : List Ptr)
    → rs ++ ws ≡ front ++ p ∷ back
    → (has p (rs ++ ws) ≡ true) × (after (rs ++ ws) p ≡ first back null)
middle {w} {rs} {ws} ring front p back e = (
  ap (has p) e ∙ ground (arith, has-append p front (p ∷ back)),
  ap (λ zs. after zs p) e
      ∙ after-middle front p back (Distinct-split front p back (subst Distinct e ring.distinct)).0,
)

visit_from :
    {w : World} {rs ws : List Ptr} (ring : IsRing w rs ws) (front : List Ptr) (p : Ptr)
    (back : List Ptr)
    → rs ++ ws ≡ front ++ p ∷ back
    → visit (suc (suc (length back))) (token_of p) w ≡ some (map token_of (p ∷ back), w)
unfolding visit
visit_from {w} {rs} {ws} ring front p [] e =
    let (i, n) = middle ring front p [] e in
    visit_step 1 (token_of p) null [] w (λ z. absurd (omega (arith, z)))
      (next_lem ring p i ∙ rw n refl) refl
visit_from {w} {rs} {ws} ring front p (q ∷ back) e =
    let (i, n) = middle ring front p (q ∷ back) e in
    let rest =
      visit_from ring (push_back front p) q back
        (e ∙ sym (append_assoc front (p ∷ []) (q ∷ back))) in
    let (j, m) =
      middle ring (push_back front p) q back (e ∙ sym (append_assoc front (p ∷ []) (q ∷ back))) in
    visit_step (suc (suc (length back))) (token_of p) (token_of q) (map token_of (q ∷ back)) w
      (λ z. absurd (omega (arith, z)))
      (next_lem ring p i ∙ rw (n, ne→false q null (ne_null ring q j)) refl) rest

-- On a well-formed ring with a node, the loop from eaf_ringbuffer_begin by eaf_ringbuffer_next
-- ends, with one round of fuel for each node and one more, and sees each token once, from the
-- oldest to the newest.
pub visit_lem :
    {w : World} (rs ws : List Ptr)
    → IsRing w rs ws
    → rs ++ ws ≢ []
    → (begin >>= visit (suc (length (rs ++ ws)))) w ≡ some (map token_of (rs ++ ws), w)
visit_lem {w} rs ws ring ne = go (rs ++ ws) refl ne
  where
    go :
        (xs : List Ptr)
        → rs ++ ws ≡ xs
        → xs ≢ []
        → (begin >>= visit (suc (length xs))) w ≡ some (map token_of xs, w)
    go [] e ne = absurd (ne refl)
    go (x ∷ xs) e ne =
        rw (begin_lem ring ∙ ap (λ zs. some (token_of (first zs null), w)) e, ◌>>=◌)
          (visit_from ring [] x xs e)
