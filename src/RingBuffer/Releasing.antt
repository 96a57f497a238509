-- ===== src/RingBuffer/Releasing.antt =====
-- eaf_ringbuffer_commit of a token that is being read.
use eaf.Prelude.{
  ℕ, ◌≡◌, refl, true, List, ◌∷◌, ◌==◌, if◌then◌else◌, arith, ne→false, Bool-cases, inl, inr, subst,
  ◌∙◌, ℕ_discrete,
}
use eaf.Prelude.Int.{ℤ, pos, negsuc}
use eaf.Sequence.{has, erase, Distinct-append}
use eaf.RingBuffer.{Ptr, null, World, token_of, is_committed}
use eaf.RingBuffer.Commit.{has_flag, flag_discard, flag_abandon, commit, commit_for_consume}
use eaf.RingBuffer.Facts.{ne_null}
use eaf.RingBuffer.Order.{after}
use eaf.RingBuffer.Erasure.{erase_out}
use eaf.RingBuffer.Ring.{IsRing, Yields}
use eaf.RingBuffer.Committing.{KeptBut, commit_at, deleted_kept}
use eaf.RingBuffer.Reading.{
  released, gone_world, restored_world, not_writing, on_ring, gone_run, gone-IsRing,
  restored-IsRing, restored_run, refused_run,
}

-- What the commit of a token that is being read does: the node goes, or is committed again if it is
-- the newest of them; else the call fails, unless the token is abandoned.
abbrev pub Released : World → List Ptr → List Ptr → Ptr → ℕ → ℤ → World → Type 0
Released w rs ws p flags r v =
    if has_flag flags flag_discard
    then if after rs p == null
      then (r ≡ pos 0)
        × KeptBut p w.mem v.mem
        × IsRing v (erase p rs) (p ∷ ws)
        × (is_committed (v.mem.state p) ≡ true)
      else if has_flag flags flag_abandon
      then (r ≡ pos 0) × KeptBut p w.mem v.mem × IsRing v (erase p rs) ws
      else (r ≡ negsuc 0) × (v ≡ w)
    else (r ≡ pos 0) × KeptBut p w.mem v.mem × IsRing v (erase p rs) ws

-- eaf_ringbuffer_commit of a token of a well-formed ring that is being read: without the flag
-- discard its node leaves the ring. With it, if it is the newest of those being read, it is
-- committed again, and the oldest of those that are not read; if not, its node leaves the ring
-- with the flag abandon, and without it the call returns -1 and changes nothing. The ring is well
-- formed, and the other tokens are as before.
pub commit_read_lem :
    {w : World} {rs ws : List Ptr}
    → IsRing w rs ws
    → (p : Ptr) (flags : ℕ) → has p rs ≡ true
    → Yields (commit (token_of p) flags w) (Released w rs ws p flags)
unfolding commit_for_consume
commit_read_lem {w} {rs} {ws} ring p flags on =
    let start = commit_at w p flags (ne_null ring p (on_ring ring p on)) in
    let (w_no, c_no) = not_writing (w.mem.state p) (ring.read p on) in
    let (dr, dw, apart) = Distinct-append rs ws ring.distinct in
    let gone : IsRing (gone_world w p) (erase p rs) ws =
      subst (IsRing _ _) (erase_out p ws (apart p on)) (gone-IsRing ring p on) in
    let kept = deleted_kept (record w { rb = record w.rb { counter = released w.rb.counter } }) p in
    elim (Bool-cases (has_flag flags flag_discard)) [
      | inl discard ↦ elim (ℕ_discrete (after rs p) null) [
        | yes newest ↦ (
          pos 0,
          restored_world w p,
          start ∙ rw (w_no, discard) (restored_run ring p on flags newest),
          rw (discard, newest)
              (refl, (refl, λ q ne. ground arith), restored-IsRing ring p on newest, ground arith),
        )
        | no more ↦ elim (Bool-cases (has_flag flags flag_abandon)) [
          | inl abandon ↦ (
            pos 0,
            gone_world w p,
            start ∙ rw (w_no, discard) (refused_run ring p on flags more ∙ rw abandon refl),
            rw (discard, ne→false _ _ more, abandon) (refl, kept, gone),
          )
          | inr keep ↦ (
            negsuc 0,
            w,
            start ∙ rw (w_no, discard) (refused_run ring p on flags more ∙ rw keep refl),
            rw (discard, ne→false _ _ more, keep) (refl, refl),
          )
        ]
      ]
      | inr confirm ↦ (
        pos 0,
        gone_world w p,
        start ∙ rw (w_no, confirm) (gone_run ring p on),
        rw confirm (refl, kept, gone),
      )
    ]
