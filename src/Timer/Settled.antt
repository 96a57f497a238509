-- ===== src/Timer/Settled.antt =====
-- What holds in every run of the timer.
use eaf.Prelude.{◌+◌, ◌∷◌, ℕ, ◌≡◌, refl, ap, ◌∙◌, false, List, [], ◌⊎◌, inl, inr, Bool-cases, arith}
use eaf.Prelude.Int.{ℤ, is_negative}
use eaf.Timer.{
  Answer, Request, World, on_active, on_timer_close, handle_round, handle_idle_record, start_failed,
  send_delay_rsp, close_busy_round, close_idle_round, on_req_delay, on_init, on_exit,
}
use eaf.Timer.Queues.{count, waiting}
use eaf.Timer.Placed.{nowhere, IsPlaced, same-Stands}
use eaf.Timer.Arrivals.{requested-IsPlaced, notified-IsPlaced}
use eaf.Timer.Steps.{fired-IsPlaced, closed-IsPlaced, busy_dropped-IsPlaced, idle_dropped-IsPlaced}
use eaf.Timer.Kept.{
  IsKept, fired-IsKept, closed-IsKept, requested-IsKept, notified-IsKept, busy_dropped-IsKept,
  idle_dropped-IsKept,
}
use eaf.Timer.Runs.{
  delivered, refused, requests, Reached, IsBlank, begun, requested, notified, fired, closed, ended,
  busy_dropped, idle_dropped, answers, uuids,
}

module _ {w : World} (blank : IsBlank w) where
  begun-IsPlaced : IsPlaced (on_init w)
  unfolding on_init
  begun-IsPlaced q = nowhere (
    ap (count q) blank.no_idle,
    ap (count q) blank.no_busy,
    ap (count q) blank.no_dead,
    ap (count q) blank.no_live,
    blank.none_used q,
  )

  begun-IsKept : (u : ℕ) → IsKept u [] [] (on_init w)
  unfolding on_init
  begun-IsKept u = omega (
    arith,
    ap (answers u) blank.no_sent,
    ap (waiting u (uuids w)) blank.no_idle,
    ap (waiting u (uuids w)) blank.no_busy,
  )

-- In a run, a record that is not freed stands once, in one queue, and its timer is unused in
-- `idle_queue`, runs in `busy_queue` and closes in `dead_queue`; what is freed is in none.
pub Reached-IsPlaced :
    {made dropped : List Request} {w : World} → Reached made dropped w → IsPlaced w
unfolding on_exit
Reached-IsPlaced (begun w blank) = begun-IsPlaced blank
Reached-IsPlaced (requested {w} block async_ret from msg msec before fresh) =
    requested-IsPlaced w block async_ret from msg msec fresh (Reached-IsPlaced before)
Reached-IsPlaced (notified {w} init_ret start_ret p rest before e) =
    notified-IsPlaced w init_ret start_ret p rest e (Reached-IsPlaced before)
Reached-IsPlaced (fired {w} p before e) = fired-IsPlaced w p e (Reached-IsPlaced before)
Reached-IsPlaced (closed {w} p before e) = closed-IsPlaced w p e (Reached-IsPlaced before)
Reached-IsPlaced (ended {w} before) =
    λ q. same-Stands w _ (refl, refl, refl, refl, refl) (Reached-IsPlaced before q)
Reached-IsPlaced (busy_dropped {w} p rest before over e) =
    busy_dropped-IsPlaced w p rest e (Reached-IsPlaced before)
Reached-IsPlaced (idle_dropped {w} p rest before over e) =
    idle_dropped-IsPlaced w p rest e (Reached-IsPlaced before)

Reached-IsKept :
    {made dropped : List Request} {w : World} (u : ℕ)
    → Reached made dropped w
    → IsKept u made dropped w
unfolding on_exit
Reached-IsKept u (begun w blank) = begun-IsKept blank u
Reached-IsKept u (requested {made} {dropped} {w} block async_ret from msg msec before fresh) =
    requested-IsKept u made dropped w block async_ret from msg msec fresh (Reached-IsPlaced before)
      (Reached-IsKept u before)
Reached-IsKept u (notified {made} {dropped} {w} init_ret start_ret p rest before e) =
    notified-IsKept u made dropped w init_ret start_ret p rest e (Reached-IsKept u before)
Reached-IsKept u (fired {made} {dropped} {w} p before e) =
    fired-IsKept u made dropped w p e (Reached-IsPlaced before) (Reached-IsKept u before)
Reached-IsKept u (closed {made} {dropped} {w} p before e) =
    closed-IsKept u made dropped w p (Reached-IsKept u before)
Reached-IsKept u (ended before) = Reached-IsKept u before
Reached-IsKept u (busy_dropped {made} {dropped} {w} p rest before over e) =
    busy_dropped-IsKept u made dropped w p rest e (Reached-IsKept u before)
Reached-IsKept u (idle_dropped {made} {dropped} {w} p rest before over e) =
    idle_dropped-IsKept u made dropped w p rest e (Reached-IsKept u before)

-- Only the end of the service changes `looping`.
requested-looping :
    (w : World) (block : ℕ) (async_ret : ℤ) (from : ℕ) (msg : Request) (msec : ℕ)
    → (on_req_delay block async_ret from msg msec w).looping ≡ w.looping
unfolding on_req_delay send_delay_rsp
requested-looping w block async_ret from msg msec = elim (Bool-cases w.looping) [
  | inr over ↦ rw over refl
  | inl looping ↦ elim (Bool-cases (is_negative async_ret)) [
    | inl failed ↦ rw (looping, failed) refl
    | inr sent ↦ rw (looping, sent) refl
  ]
]

notified-looping :
    (w : World) (init_ret start_ret : ℤ) (p : ℕ) (rest : List ℕ)
    → (handle_round init_ret start_ret p rest w).looping ≡ w.looping
unfolding handle_round handle_idle_record start_failed send_delay_rsp
notified-looping w init_ret start_ret p rest = elim (Bool-cases (is_negative init_ret)) [
  | inl failed ↦ rw failed refl
  | inr ready ↦ elim (Bool-cases (is_negative start_ret)) [
    | inl failed ↦ rw (ready, failed) refl
    | inr started ↦ rw (ready, started) refl
  ]
]

dropped-looping :
    {made dropped : List Request} {w : World}
    → Reached made dropped w
    → (dropped ≡ []) ⊎ (w.looping ≡ false)
unfolding on_exit on_active on_timer_close close_busy_round close_idle_round send_delay_rsp
dropped-looping (begun w blank) = inl refl
dropped-looping (requested {w} block async_ret from msg msec before fresh) =
    elim (dropped-looping before) [
      | inl none ↦ inl none
      | inr over ↦ inr (requested-looping w block async_ret from msg msec ∙ over)
    ]
dropped-looping (notified {w} init_ret start_ret p rest before e) = elim (dropped-looping before) [
  | inl none ↦ inl none
  | inr over ↦ inr (notified-looping w init_ret start_ret p rest ∙ over)
]
dropped-looping (fired p before e) = dropped-looping before
dropped-looping (closed p before e) = dropped-looping before
dropped-looping (ended before) = inr refl
dropped-looping (busy_dropped p rest before over e) = inr over
dropped-looping (idle_dropped p rest before over e) = inr over

answers-split : (u : ℕ) (sent : List Answer) → answers u sent ≡ delivered u sent + refused u sent
answers-split u [] = refl
answers-split u (answer ∷ sent) = elim (Bool-cases (is_negative answer.send_ret)) [
  | inl failed ↦ rw failed (omega (arith, answers-split u sent))
  | inr accepted ↦ rw accepted (omega (arith, answers-split u sent))
]

-- What has become of the requests with the uuid `u`.
abbrev pub IsAccounted : ℕ → List Request → List Request → World → Type 0
IsAccounted u made dropped w =
    requests u made
    ≡ delivered u w.sent
      + refused u w.sent
      + waiting u (uuids w) w.idle_queue
      + waiting u (uuids w) w.busy_queue
      + requests u dropped

-- In every run of the timer, whatever the results of libuv and of eaf_send_rsp and the order of the
-- calls: the requests with a uuid are as many as the responses with it that eaf_send_rsp has accepted,
-- those that it has refused, which are not sent again, the records for it that wait in `idle_queue` or
-- `busy_queue`, and those that the end of the service dropped; and none is dropped before that end.
pub answered_once :
    {made dropped : List Request} {w : World}
    → Reached made dropped w
    → ((u : ℕ) → IsAccounted u made dropped w) × ((dropped ≡ []) ⊎ (w.looping ≡ false))
answered_once {w} run =
    ((λ u. omega (arith, Reached-IsKept u run, answers-split u w.sent)), dropped-looping run)
