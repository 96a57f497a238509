-- ===== src/Timer/Steps.antt =====
-- Each step of the timer keeps the place of all records but one.
use eaf.Prelude.{ℕ, ◌<◌, ◌≡◌, refl, List, ◌∷◌, arith, eq→true}
use eaf.Timer.{
  unused, still, running, closing, World, set_timer, on_active, on_timer_close, send_delay_rsp,
  close_busy_round, close_idle_round,
}
use eaf.Timer.Queues.{
  push-here, push-other, erase-here, erase-other, first-here, first-other, count,
}
use eaf.Timer.Placed.{
  nowhere, dies, IsPlaced, moved, running-runs, closing-dies, idle-waits, busy-runs,
}

pub fired-IsPlaced :
    (w : World) (p : ℕ)
    → (w.records p).timer ≡ running
    → IsPlaced w
    → IsPlaced (on_active p (set_timer p still w))
unfolding on_active send_delay_rsp
fired-IsPlaced w p e placed =
    let (idle, busy, dead, live, timer) = running-runs e (placed p) in
    let in_busy : 0 < count p w.busy_queue = omega (arith, busy) in
    moved p placed
      (λ q other. (
        refl,
        erase-other p w.busy_queue in_busy q other,
        push-other p w.dead_queue q other,
        refl,
        rw other refl,
      ))
      (dies (
        idle,
        omega (arith, erase-here p w.busy_queue in_busy, busy),
        omega (arith, push-here p w.dead_queue, dead),
        live,
        rw (eq→true p p refl) refl,
      ))

pub closed-IsPlaced :
    (w : World) (p : ℕ)
    → (w.records p).timer ≡ closing
    → IsPlaced w
    → IsPlaced (on_timer_close p (set_timer p unused w))
unfolding on_timer_close
closed-IsPlaced w p e placed =
    let (idle, busy, dead, live, timer) = closing-dies e (placed p) in
    let in_dead : 0 < count p w.dead_queue = omega (arith, dead) in
    let in_live : 0 < count p w.live = omega (arith, live) in
    moved p placed
      (λ q other. (
        refl,
        refl,
        erase-other p w.dead_queue in_dead q other,
        erase-other p w.live in_live q other,
        rw other refl,
      ))
      (nowhere (
        idle,
        busy,
        omega (arith, erase-here p w.dead_queue in_dead, dead),
        omega (arith, erase-here p w.live in_live, live),
        rw (eq→true p p refl) refl,
      ))

pub busy_dropped-IsPlaced :
    (w : World) (p : ℕ) (rest : List ℕ)
    → w.busy_queue ≡ p ∷ rest
    → IsPlaced w
    → IsPlaced (close_busy_round p rest w)
unfolding close_busy_round
busy_dropped-IsPlaced w p rest e placed =
    let (idle, busy, dead, live, timer) = busy-runs (omega (arith, first-here e)) (placed p) in
    moved p placed
      (λ q other.
        (refl, first-other e q other, push-other p w.dead_queue q other, refl, rw other refl))
      (dies (
        idle,
        omega (arith, first-here e, busy),
        omega (arith, push-here p w.dead_queue, dead),
        live,
        rw (eq→true p p refl) refl,
      ))

pub idle_dropped-IsPlaced :
    (w : World) (p : ℕ) (rest : List ℕ)
    → w.idle_queue ≡ p ∷ rest
    → IsPlaced w
    → IsPlaced (close_idle_round p rest w)
unfolding close_idle_round
idle_dropped-IsPlaced w p rest e placed =
    let (idle, busy, dead, live, timer) = idle-waits (omega (arith, first-here e)) (placed p) in
    let in_live : 0 < count p w.live = omega (arith, live) in
    moved p placed
      (λ q other. (first-other e q other, refl, refl, erase-other p w.live in_live q other, refl))
      (nowhere (
        omega (arith, first-here e, idle),
        busy,
        dead,
        omega (arith, erase-here p w.live in_live, live),
        timer,
      ))
