-- ===== src/Timer/Runs.antt =====
-- The runs of the timer: requests, and what libuv calls, in any order.
use eaf.Prelude.{not, ◌&&◌, ℕ, ◌+◌, ◌≡◌, false, List, [], ◌∷◌, ◌==◌}
use eaf.Prelude.Int.{ℤ, is_negative}
use eaf.Timer.{
  Request, unused, still, running, closing, World, Answer, set_timer, on_active, on_timer_close,
  handle_round, close_busy_round, close_idle_round, on_req_delay, on_init, on_exit,
}
use eaf.Timer.Queues.{bit, count}

-- Before eaf_load: no record is there.
pub record IsBlank (w : World) : Type 0 where
  pub no_idle : w.idle_queue ≡ []
  pub no_busy : w.busy_queue ≡ []
  pub no_dead : w.dead_queue ≡ []
  pub no_live : w.live ≡ []
  pub no_sent : w.sent ≡ []
  pub none_used : (p : ℕ) → (w.records p).timer ≡ unused

-- Runs: the requests made, the requests of the records that the end of the service freed or closed, and
-- the state. malloc gives an address that is not in use. libuv calls _timer_on_active for a timer
-- that runs, and stops it first, and _timer_on_timer_close once for a timer that closes. The records
-- are closed when `looping` is 0; the loop that handles them reads it once, before its first round.
pub data Reached : List Request → List Request → World → Type 0 where
  begun : (w : World) → IsBlank w → Reached [] [] (on_init w)
  requested :
      {made dropped : List Request} {w : World} (block : ℕ) (async_ret : ℤ) (from : ℕ)
      (msg : Request) (msec : ℕ)
      → Reached made dropped w
      → count block w.live ≡ 0
      → Reached (msg ∷ made) dropped (on_req_delay block async_ret from msg msec w)
  notified :
      {made dropped : List Request} {w : World} (init_ret start_ret : ℤ) (p : ℕ) (rest : List ℕ)
      → Reached made dropped w
      → w.idle_queue ≡ p ∷ rest
      → Reached made dropped (handle_round init_ret start_ret p rest w)
  fired :
      {made dropped : List Request} {w : World} (p : ℕ)
      → Reached made dropped w
      → (w.records p).timer ≡ running
      → Reached made dropped (on_active p (set_timer p still w))
  closed :
      {made dropped : List Request} {w : World} (p : ℕ)
      → Reached made dropped w
      → (w.records p).timer ≡ closing
      → Reached made dropped (on_timer_close p (set_timer p unused w))
  ended :
      {made dropped : List Request} {w : World}
      → Reached made dropped w
      → Reached made dropped (on_exit w)
  busy_dropped :
      {made dropped : List Request} {w : World} (p : ℕ) (rest : List ℕ)
      → Reached made dropped w
      → w.looping ≡ false
      → w.busy_queue ≡ p ∷ rest
      → Reached made ((w.records p).req ∷ dropped) (close_busy_round p rest w)
  idle_dropped :
      {made dropped : List Request} {w : World} (p : ℕ) (rest : List ℕ)
      → Reached made dropped w
      → w.looping ≡ false
      → w.idle_queue ≡ p ∷ rest
      → Reached made ((w.records p).req ∷ dropped) (close_idle_round p rest w)

-- The requests, and the responses, with the uuid `u`.
abbrev pub requests : ℕ → List Request → ℕ
requests u [] = 0
requests u (msg ∷ made) = bit (msg.uuid == u) + requests u made

abbrev pub answers : ℕ → List Answer → ℕ
answers u [] = 0
answers u (answer ∷ sent) = bit (answer.uuid == u) + answers u sent

-- Those that eaf_send_rsp has accepted, and those that it has refused.
abbrev pub delivered : ℕ → List Answer → ℕ
delivered u [] = 0
delivered u (answer ∷ sent) =
    bit (not (is_negative answer.send_ret) && (answer.uuid == u)) + delivered u sent

abbrev pub refused : ℕ → List Answer → ℕ
refused u [] = 0
refused u (answer ∷ sent) = bit (is_negative answer.send_ret && (answer.uuid == u)) + refused u sent

abbrev pub uuids : World → ℕ → ℕ
uuids w p = (w.records p).req.uuid
