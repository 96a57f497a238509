-- ===== src/Timer/Kept.antt =====
-- No request of the timer is lost, and none is answered twice.
use eaf.Prelude.{
  ℕ, ◌+◌, ◌<◌, ◌≡◌, refl, ap, ◌∙◌, List, ◌∷◌, ◌==◌, inl, inr, Bool-cases, arith, eq→true,
}
use eaf.Prelude.Int.{ℤ, is_negative}
use eaf.Timer.{
  Request, Handle, unused, still, running, closing, World, erase, push_back, set_record, set_timer,
  on_active, on_timer_close, handle_round, handle_idle_record, start_failed, send_delay_rsp,
  close_busy_round, close_idle_round, on_req_delay,
}
use eaf.Timer.Queues.{
  push-here, bit, count, waiting, waiting-push_back, waiting-erase, waiting-same, equal,
}
use eaf.Timer.Placed.{IsPlaced, running-runs, fresh-nowhere}
use eaf.Timer.Runs.{requests, answers, uuids}

-- The requests with the uuid `u` are answered, wait in the queues, or were dropped.
abbrev pub IsKept : ℕ → List Request → List Request → World → Type 0
IsKept u made dropped w =
    requests u made
    ≡ answers u w.sent
      + waiting u (uuids w) w.idle_queue
      + waiting u (uuids w) w.busy_queue
      + requests u dropped

-- A change of a handle keeps the requests.
uuids-set_timer :
    (p : ℕ) (timer : Handle) (w : World) (q : ℕ) → uuids (set_timer p timer w) q ≡ uuids w q
uuids-set_timer p timer w q = elim (Bool-cases (p == q)) [
  | inl same ↦ rw (same, uuids) (ap (uuids w) (equal p q same))
  | inr other ↦ rw (other, uuids) refl
]

module _ (u p : ℕ) (timer : Handle) (w : World) where
  waiting-set_timer :
      (queue : List ℕ) → waiting u (uuids (set_timer p timer w)) queue ≡ waiting u (uuids w) queue
  waiting-set_timer queue =
      waiting-same u (uuids w) (uuids (set_timer p timer w)) queue
        (λ q h. uuids-set_timer p timer w q)

pub fired-IsKept :
    (u : ℕ) (made dropped : List Request) (w : World) (p : ℕ)
    → (w.records p).timer ≡ running
    → IsPlaced w
    → IsKept u made dropped w
    → IsKept u made dropped (on_active p (set_timer p still w))
unfolding on_active send_delay_rsp
fired-IsKept u made dropped w p e placed kept =
    let (idle, busy, dead, live, timer) = running-runs e (placed p) in
    let stopped = set_timer p still w in
    let after = set_timer p closing stopped in
    let same : (queue : List ℕ) → waiting u (uuids after) queue ≡ waiting u (uuids w) queue =
      λ queue. waiting-set_timer u p closing stopped queue ∙ waiting-set_timer u p still w queue in
    omega (
      arith,
      kept,
      same w.idle_queue,
      same (erase p w.busy_queue),
      waiting-erase u p (uuids w) w.busy_queue (omega (arith, busy)),
      ap (λ v. bit (v == u)) (uuids-set_timer p still w p),
    )

pub closed-IsKept :
    (u : ℕ) (made dropped : List Request) (w : World) (p : ℕ)
    → IsKept u made dropped w
    → IsKept u made dropped (on_timer_close p (set_timer p unused w))
unfolding on_timer_close
closed-IsKept u made dropped w p kept =
    let same = waiting-set_timer u p unused w in
    omega (arith, kept, same w.idle_queue, same w.busy_queue)

pub busy_dropped-IsKept :
    (u : ℕ) (made dropped : List Request) (w : World) (p : ℕ) (rest : List ℕ)
    → w.busy_queue ≡ p ∷ rest
    → IsKept u made dropped w
    → IsKept u made ((w.records p).req ∷ dropped) (close_busy_round p rest w)
unfolding close_busy_round
busy_dropped-IsKept u made dropped w p rest e kept =
    let same = waiting-set_timer u p closing w in
    omega (arith, kept, same w.idle_queue, same rest, ap (waiting u (uuids w)) e)

pub idle_dropped-IsKept :
    (u : ℕ) (made dropped : List Request) (w : World) (p : ℕ) (rest : List ℕ)
    → w.idle_queue ≡ p ∷ rest
    → IsKept u made dropped w
    → IsKept u made ((w.records p).req ∷ dropped) (close_idle_round p rest w)
unfolding close_idle_round
idle_dropped-IsKept u made dropped w p rest e kept = omega (arith, kept, ap (waiting u (uuids w)) e)

-- The record of a new request, at an address that is in no queue.
module _ (u block msec : ℕ) (msg : Request) (w : World) where
  abbrev filled : World
  filled = set_record block (record { timer = unused; req = msg; msec = msec }) w

  filled-here : uuids filled block ≡ msg.uuid
  filled-here = rw (eq→true block block refl, uuids) refl

  filled-other :
      (queue : List ℕ)
      → count block queue ≡ 0
      → waiting u (uuids filled) queue ≡ waiting u (uuids w) queue
  filled-other queue none = waiting-same u (uuids w) (uuids filled) queue (λ q h.
      elim (Bool-cases (block == q)) [
        | inl same ↦ absurd (omega (arith, h, none, ap (λ a. count a queue) (equal block q same)))
        | inr other ↦ rw (other, uuids) refl
      ])

pub requested-IsKept :
    (u : ℕ) (made dropped : List Request) (w : World) (block : ℕ) (async_ret : ℤ) (from : ℕ)
    (msg : Request) (msec : ℕ)
    → count block w.live ≡ 0
    → IsPlaced w
    → IsKept u made dropped w
    → IsKept u (msg ∷ made) dropped (on_req_delay block async_ret from msg msec w)
unfolding on_req_delay send_delay_rsp
requested-IsKept u made dropped w block async_ret from msg msec fresh placed kept =
    let (idle, busy, dead, live, timer) = fresh-nowhere fresh (placed block) in
    let after = uuids (filled u block msec msg w) in
    let queued = push_back w.idle_queue block in
    let same_idle = filled-other u block msec msg w w.idle_queue idle in
    let same_busy = filled-other u block msec msg w w.busy_queue busy in
    let pushed = waiting-push_back u block after w.idle_queue in
    let here = ap (λ v. bit (v == u)) (filled-here u block msec msg w) in
    elim (Bool-cases w.looping) [
      | inr refused ↦ rw refused (omega (arith, kept))
      | inl looping ↦ elim (Bool-cases (is_negative async_ret)) [
        | inl failed ↦
            let in_queue : 0 < count block queued = omega (arith, push-here block w.idle_queue) in
            rw (looping, failed)
              (omega (
                arith,
                kept,
                same_idle,
                same_busy,
                pushed,
                here,
                waiting-erase u block after queued in_queue,
              ))
        | inr sent ↦ rw (looping, sent) (omega (arith, kept, same_idle, same_busy, pushed, here))
      ]
    ]

pub notified-IsKept :
    (u : ℕ) (made dropped : List Request) (w : World) (init_ret start_ret : ℤ) (p : ℕ)
    (rest : List ℕ)
    → w.idle_queue ≡ p ∷ rest
    → IsKept u made dropped w
    → IsKept u made dropped (handle_round init_ret start_ret p rest w)
unfolding handle_round handle_idle_record start_failed send_delay_rsp
notified-IsKept u made dropped w init_ret start_ret p rest e kept =
    let first = ap (waiting u (uuids w)) e in
    let same = waiting-set_timer u p in
    let queued = push_back w.busy_queue p in
    let pushed = waiting-push_back u p (uuids w) w.busy_queue in
    elim (Bool-cases (is_negative init_ret)) [
      | inl failed ↦ rw failed (omega (arith, kept, first))
      | inr ready ↦
          let stopped = set_timer p still w in
          let kept_uuids = ap (λ v. bit (v == u)) (uuids-set_timer p still w p) in
          elim (Bool-cases (is_negative start_ret)) [
            | inl failed ↦
                let in_queue : 0 < count p queued = omega (arith, push-here p w.busy_queue) in
                rw (ready, failed)
                  (omega (
                    arith,
                    kept,
                    first,
                    kept_uuids,
                    pushed,
                    same closing stopped rest,
                    same still w rest,
                    same closing stopped (erase p queued),
                    same still w (erase p queued),
                    waiting-erase u p (uuids w) queued in_queue,
                  ))
            | inr started ↦
                rw (ready, started)
                  (omega (
                    arith,
                    kept,
                    first,
                    pushed,
                    same running stopped rest,
                    same still w rest,
                    same running stopped queued,
                    same still w queued,
                  ))
          ]
    ]
