-- ===== src/Timer/Arrivals.antt =====
-- A request, and the round that starts its timer, keep the place of all records but one.
use eaf.Prelude.{ℕ, ◌<◌, ◌≡◌, refl, ap, ◌∙◌, List, ◌∷◌, inl, inr, Bool-cases, arith, eq→true}
use eaf.Prelude.Int.{ℤ, is_negative}
use eaf.Timer.{
  Request, World, push_back, handle_round, handle_idle_record, start_failed, send_delay_rsp,
  on_req_delay,
}
use eaf.Timer.Queues.{
  push-here, push-other, erase-here, erase-other, first-here, first-other, bit, count, first-count,
}
use eaf.Timer.Placed.{
  nowhere, waits, runs, dies, IsPlaced, same-Stands, moved, fresh-nowhere, idle-waits,
}

pub requested-IsPlaced :
    (w : World) (block : ℕ) (async_ret : ℤ) (from : ℕ) (msg : Request) (msec : ℕ)
    → count block w.live ≡ 0
    → IsPlaced w
    → IsPlaced (on_req_delay block async_ret from msg msec w)
unfolding on_req_delay send_delay_rsp
requested-IsPlaced w block async_ret from msg msec fresh placed =
    let (idle, busy, dead, live, timer) = fresh-nowhere fresh (placed block) in
    let queued = push_back w.idle_queue block in
    let here = ap bit (eq→true block block refl) in
    elim (Bool-cases w.looping) [
      | inr refused ↦ rw refused (λ q. same-Stands w _ (refl, refl, refl, refl, refl) (placed q))
      | inl looping ↦ elim (Bool-cases (is_negative async_ret)) [
        | inl failed ↦
            let in_queue : 0 < count block queued = omega (arith, push-here block w.idle_queue) in
            let in_live : 0 < count block (block ∷ w.live) = first-count block w.live in
            rw (looping, failed)
              (moved block placed
                (λ q other. (
                  erase-other block queued in_queue q other ∙ push-other block w.idle_queue q other,
                  refl,
                  refl,
                  omega (arith, erase-other block (block ∷ w.live) in_live q other, ap bit other),
                  rw other refl,
                ))
                (nowhere (
                  omega
                      (arith, erase-here block queued in_queue, push-here block w.idle_queue, idle),
                  busy,
                  dead,
                  omega (arith, erase-here block (block ∷ w.live) in_live, live, here),
                  rw (eq→true block block refl) refl,
                )))
        | inr sent ↦
            rw (looping, sent)
              (moved block placed
                (λ q other. (
                  push-other block w.idle_queue q other,
                  refl,
                  refl,
                  omega (arith, ap bit other),
                  rw other refl,
                ))
                (waits (
                  omega (arith, push-here block w.idle_queue, idle),
                  busy,
                  dead,
                  omega (arith, live, here),
                  rw (eq→true block block refl) refl,
                )))
      ]
    ]

pub notified-IsPlaced :
    (w : World) (init_ret start_ret : ℤ) (p : ℕ) (rest : List ℕ)
    → w.idle_queue ≡ p ∷ rest
    → IsPlaced w
    → IsPlaced (handle_round init_ret start_ret p rest w)
unfolding handle_round handle_idle_record start_failed send_delay_rsp
notified-IsPlaced w init_ret start_ret p rest e placed =
    let (idle, busy, dead, live, timer) = idle-waits (omega (arith, first-here e)) (placed p) in
    let here = eq→true p p refl in
    let queued = push_back w.busy_queue p in
    let in_queue : 0 < count p queued = omega (arith, push-here p w.busy_queue) in
    let in_live : 0 < count p w.live = omega (arith, live) in
    elim (Bool-cases (is_negative init_ret)) [
      | inl failed ↦ rw failed (
          moved p placed
            (λ q other.
              (first-other e q other, refl, refl, erase-other p w.live in_live q other, refl))
            (nowhere (
              omega (arith, first-here e, idle),
              busy,
              dead,
              omega (arith, erase-here p w.live in_live, live),
              timer,
            )))
      | inr ready ↦ elim (Bool-cases (is_negative start_ret)) [
        | inl failed ↦
            rw (ready, failed)
              (moved p placed
                (λ q other. (
                  first-other e q other,
                  erase-other p queued in_queue q other ∙ push-other p w.busy_queue q other,
                  push-other p w.dead_queue q other,
                  refl,
                  rw other refl,
                ))
                (dies (
                  omega (arith, first-here e, idle),
                  omega (arith, erase-here p queued in_queue, push-here p w.busy_queue, busy),
                  omega (arith, push-here p w.dead_queue, dead),
                  live,
                  rw here refl,
                )))
        | inr started ↦
            rw (ready, started)
              (moved p placed
                (λ q other. (
                  first-other e q other,
                  push-other p w.busy_queue q other,
                  refl,
                  refl,
                  rw other refl,
                ))
                (runs (
                  omega (arith, first-here e, idle),
                  omega (arith, push-here p w.busy_queue, busy),
                  dead,
                  live,
                  rw here refl,
                )))
      ]
    ]
