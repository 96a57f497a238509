-- ===== src/Timer/Notified.antt =====
-- _timer_on_uv_notify as steps of a run.
use Prim.Native.Nat.{suc, zero}
use eaf.Prelude.{
  ℕ, ◌≤◌, ◌≡◌, refl, sym, ap, ◌∙◌, true, false, List, [], ◌∷◌, ◌⊎◌, inl, inr, Bool-cases, arith,
  length,
}
use mathlib.Core.Path.{subst}
use eaf.Prelude.Int.{ℤ, is_negative}
use eaf.Timer.{
  Request, World, handle_round, handle_idle_record, start_failed, send_delay_rsp, close_busy_round,
  close_idle_round, close_busy, close_idle, close_all_timer, handle_idles, on_uv_notify,
}
use eaf.Timer.Runs.{Reached, notified, busy_dropped, idle_dropped}

List-cases : (queue : List ℕ) → (queue ≡ []) ⊎ ((p : ℕ) × (rest : List ℕ) × (queue ≡ p ∷ rest))
List-cases [] = inl refl
List-cases (p ∷ rest) = inr (p, rest, refl)

round-idle_queue :
    (w : World) (init_ret start_ret : ℤ) (p : ℕ) (rest : List ℕ)
    → (handle_round init_ret start_ret p rest w).idle_queue ≡ rest
unfolding handle_round handle_idle_record start_failed send_delay_rsp
round-idle_queue w init_ret start_ret p rest = elim (Bool-cases (is_negative init_ret)) [
  | inl failed ↦ rw failed refl
  | inr ready ↦ elim (Bool-cases (is_negative start_ret)) [
    | inl failed ↦ rw (ready, failed) refl
    | inr started ↦ rw (ready, started) refl
  ]
]

-- A round of the loop, and its end.
module _ (init_ret start_ret : ℕ → ℤ) (fuel : ℕ) (w : World) where
  handle_idles-end : w.idle_queue ≡ [] → handle_idles init_ret start_ret (suc fuel) w ≡ w
  unfolding handle_idles
  handle_idles-end e =
      ap
        (λ (queue : List ℕ). elim queue [
          | [] ↦ w
          | p ∷ rest ↦
              handle_idles init_ret start_ret fuel
                (handle_round (init_ret p) (start_ret p) p rest w)
        ])
        e

  handle_idles-more :
      (p : ℕ) (rest : List ℕ)
      → w.idle_queue ≡ p ∷ rest
      → handle_idles init_ret start_ret (suc fuel) w
        ≡ handle_idles init_ret start_ret fuel (handle_round (init_ret p) (start_ret p) p rest w)
  unfolding handle_idles
  handle_idles-more p rest e =
      ap
        (λ (queue : List ℕ). elim queue [
          | [] ↦ w
          | p ∷ rest ↦
              handle_idles init_ret start_ret fuel
                (handle_round (init_ret p) (start_ret p) p rest w)
        ])
        e

handle_idles_lem :
    (init_ret start_ret : ℕ → ℤ) (fuel : ℕ) {made dropped : List Request} (w : World)
    → Reached made dropped w
    → length w.idle_queue ≤ fuel
    → Reached made dropped (handle_idles init_ret start_ret fuel w)
      × ((handle_idles init_ret start_ret fuel w).idle_queue ≡ [])
unfolding handle_idles
handle_idles_lem init_ret start_ret zero w run enough = elim (List-cases w.idle_queue) [
  | inl none ↦ (run, none)
  | inr (p, rest, e) ↦ absurd (omega (arith, enough, ap length e))
]
handle_idles_lem init_ret start_ret (suc fuel) {made} {dropped} w run enough =
    elim (List-cases w.idle_queue) [
      | inl none ↦
          subst (λ after. Reached made dropped after × (after.idle_queue ≡ []))
            (sym (handle_idles-end init_ret start_ret fuel w none)) (run, none)
      | inr (p, rest, e) ↦
          let after = handle_round (init_ret p) (start_ret p) p rest w in
          let fewer = ap length (round-idle_queue w (init_ret p) (start_ret p) p rest) in
          subst (λ after. Reached made dropped after × (after.idle_queue ≡ []))
            (sym (handle_idles-more init_ret start_ret fuel w p rest e))
            (handle_idles_lem init_ret start_ret fuel after
              (notified (init_ret p) (start_ret p) p rest run e)
              (omega (arith, enough, fewer, ap length e)))
    ]

-- What closing leads to from a run.
abbrev Closes : List Request → List ℕ → List ℕ → World → Type 0
Closes made idle busy after =
    (dropped : List Request) × Reached made dropped after
    × (after.looping ≡ false)
    × (after.idle_queue ≡ idle)
    × (after.busy_queue ≡ busy)

-- A round of the loop, and its end.
module _ (fuel : ℕ) (w : World) where
  close_busy-end : w.busy_queue ≡ [] → close_busy (suc fuel) w ≡ w
  unfolding close_busy
  close_busy-end e =
      ap
        (λ (queue : List ℕ). elim queue [
          | [] ↦ w
          | p ∷ rest ↦ close_busy fuel (close_busy_round p rest w)
        ])
        e

  close_busy-more :
      (p : ℕ) (rest : List ℕ)
      → w.busy_queue ≡ p ∷ rest
      → close_busy (suc fuel) w ≡ close_busy fuel (close_busy_round p rest w)
  unfolding close_busy
  close_busy-more p rest e =
      ap
        (λ (queue : List ℕ). elim queue [
          | [] ↦ w
          | p ∷ rest ↦ close_busy fuel (close_busy_round p rest w)
        ])
        e

close_busy_lem :
    (fuel : ℕ) {made dropped : List Request} (w : World)
    → Reached made dropped w
    → w.looping ≡ false
    → length w.busy_queue ≤ fuel
    → Closes made w.idle_queue [] (close_busy fuel w)
unfolding close_busy close_busy_round
close_busy_lem zero w run over enough = elim (List-cases w.busy_queue) [
  | inl none ↦ (_, run, over, refl, none)
  | inr (p, rest, e) ↦ absurd (omega (arith, enough, ap length e))
]
close_busy_lem (suc fuel) {made} w run over enough = elim (List-cases w.busy_queue) [
  | inl none ↦
      subst (Closes made w.idle_queue []) (sym (close_busy-end fuel w none))
        (_, run, over, refl, none)
  | inr (p, rest, e) ↦ subst (Closes made w.idle_queue []) (sym (close_busy-more fuel w p rest e)) (
      close_busy_lem fuel (close_busy_round p rest w) (busy_dropped p rest run over e) over
        (omega (arith, enough, ap length e)))
]

-- A round of the loop, and its end.
module _ (fuel : ℕ) (w : World) where
  close_idle-end : w.idle_queue ≡ [] → close_idle (suc fuel) w ≡ w
  unfolding close_idle
  close_idle-end e =
      ap
        (λ (queue : List ℕ). elim queue [
          | [] ↦ w
          | p ∷ rest ↦ close_idle fuel (close_idle_round p rest w)
        ])
        e

  close_idle-more :
      (p : ℕ) (rest : List ℕ)
      → w.idle_queue ≡ p ∷ rest
      → close_idle (suc fuel) w ≡ close_idle fuel (close_idle_round p rest w)
  unfolding close_idle
  close_idle-more p rest e =
      ap
        (λ (queue : List ℕ). elim queue [
          | [] ↦ w
          | p ∷ rest ↦ close_idle fuel (close_idle_round p rest w)
        ])
        e

close_idle_lem :
    (fuel : ℕ) {made dropped : List Request} (w : World)
    → Reached made dropped w
    → w.looping ≡ false
    → length w.idle_queue ≤ fuel
    → Closes made [] w.busy_queue (close_idle fuel w)
unfolding close_idle close_idle_round
close_idle_lem zero w run over enough = elim (List-cases w.idle_queue) [
  | inl none ↦ (_, run, over, none, refl)
  | inr (p, rest, e) ↦ absurd (omega (arith, enough, ap length e))
]
close_idle_lem (suc fuel) {made} w run over enough = elim (List-cases w.idle_queue) [
  | inl none ↦
      subst (Closes made [] w.busy_queue) (sym (close_idle-end fuel w none))
        (_, run, over, none, refl)
  | inr (p, rest, e) ↦ subst (Closes made [] w.busy_queue) (sym (close_idle-more fuel w p rest e)) (
      close_idle_lem fuel (close_idle_round p rest w) (idle_dropped p rest run over e) over
        (omega (arith, enough, ap length e)))
]

-- What _timer_on_uv_notify leads to from a run in the state `w`.
abbrev pub Notified : List Request → List Request → World → World → Type 0
Notified made dropped w after =
    ((w.looping ≡ true) × Reached made dropped after × (after.idle_queue ≡ []))
    ⊎ ((w.looping ≡ false)
        × (closed : List Request) × Reached made closed after
        × (after.idle_queue ≡ [])
        × (after.busy_queue ≡ []))

-- _timer_on_uv_notify in a run, whatever the results of libuv: its loops end, what it does is a
-- continuation of the run, and `idle_queue` is empty then; after the end of the service `busy_queue`
-- is, too.
pub on_uv_notify_lem :
    (init_ret start_ret : ℕ → ℤ) {made dropped : List Request} (w : World)
    → Reached made dropped w
    → Notified made dropped w (on_uv_notify init_ret start_ret w)
unfolding on_uv_notify close_all_timer
on_uv_notify_lem init_ret start_ret w run = elim (Bool-cases w.looping) [
  | inl looping ↦
      let (after, none) =
        handle_idles_lem init_ret start_ret (length w.idle_queue) w run (omega arith) in
      simp looping (inl (refl, after, none))
  | inr over ↦
      let (dropped_busy, run_busy, over_busy, same_idle, no_busy) =
        close_busy_lem (length w.busy_queue) w run over (omega arith) in
      let closed = close_busy (length w.busy_queue) w in
      let (dropped_idle, run_idle, over_idle, no_idle, same_busy) =
        close_idle_lem (length closed.idle_queue) closed run_busy over_busy (omega arith) in
      simp over (inr (refl, dropped_idle, run_idle, no_idle, same_busy ∙ no_busy))
]
