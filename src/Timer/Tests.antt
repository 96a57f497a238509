-- ===== src/Timer/Tests.antt =====
-- A request whose timer expires, and whose response eaf_send_rsp refuses, and the end of the service with one that has not.
use eaf.Prelude.{◌==◌, if◌then◌else◌, ℕ, ◌≡◌, refl, true, false, [], ◌∷◌, ◌⊎◌}
use eaf.Prelude.Int.{pos, negsuc}
use eaf.Timer.{
  World, Request, unused, on_init, on_req_delay, handle_round, handle_idle_record, set_timer, still,
  on_active, on_exit, close_busy_round, send_delay_rsp, on_uv_notify, handle_idles, close_all_timer,
  close_busy, close_idle, all_closed, on_timer_close, start_failed,
}
use eaf.Timer.Runs.{Reached, IsBlank, begun, requested, notified, fired, ended, busy_dropped}
use eaf.Timer.Settled.{IsAccounted, answered_once}
use eaf.Timer.Notified.{Notified, on_uv_notify_lem}

abbrev blank : World
blank = record {
  inited = true;
  looping = false;
  inited_notifier = true;
  idle_queue = [];
  busy_queue = [];
  dead_queue = [];
  records = λ p. record {
    timer = unused;
    req = record { id = 0; from = 0; uuid = 0; orig = 0 };
    msec = 0;
  };
  live = [];
  sent = [];
  deliver = λ sent to req. if req.uuid == 1 then negsuc 3 else pos 0;
}

blank-IsBlank : IsBlank blank
blank-IsBlank = record {
  no_idle = refl;
  no_busy = refl;
  no_dead = refl;
  no_live = refl;
  no_sent = refl;
  none_used = λ p. refl;
}

abbrev delay : ℕ → Request
delay uuid = record { id = 0x10001; from = 7; uuid = uuid; orig = 3 }

-- Two requests, at 64 and 128, whose timers are started.
abbrev requested_world : World
requested_world =
    on_req_delay 128 (pos 0) 7 (delay 2) 500
      (handle_round (pos 0) (pos 0) 64 [] (on_req_delay 64 (pos 0) 7 (delay 1) 100 (on_init blank)))

abbrev two_started : World
two_started = handle_round (pos 0) (pos 0) 128 [] requested_world

abbrev one_fired : World
one_fired = on_active 64 (set_timer 64 still two_started)

abbrev one_dropped : World
one_dropped = close_busy_round 128 [] (on_exit one_fired)

requested_run : Reached (delay 2 ∷ delay 1 ∷ []) [] requested_world
unfolding on_init on_req_delay handle_round handle_idle_record
requested_run =
    requested 128 (pos 0) 7 (delay 2) 500
      (notified (pos 0) (pos 0) 64 []
        (requested 64 (pos 0) 7 (delay 1) 100 (begun blank blank-IsBlank) refl) refl)
      refl

two_requests : Reached (delay 2 ∷ delay 1 ∷ []) [] two_started
unfolding on_init on_req_delay handle_round handle_idle_record
two_requests = notified (pos 0) (pos 0) 128 [] requested_run refl

dropped_run : Reached (delay 2 ∷ delay 1 ∷ []) (delay 2 ∷ []) one_dropped
unfolding on_init on_req_delay handle_round handle_idle_record on_active send_delay_rsp on_exit
dropped_run = busy_dropped 128 [] (ended (fired 64 two_requests refl)) refl refl

answered_once_example :
    ((u : ℕ) → IsAccounted u (delay 2 ∷ delay 1 ∷ []) (delay 2 ∷ []) one_dropped)
    × ((delay 2 ∷ [] ≡ []) ⊎ (one_dropped.looping ≡ false))
answered_once_example = answered_once dropped_run

on_uv_notify_lem_example :
    Notified
      (delay 2 ∷ delay 1 ∷ [])
      []
      requested_world
      (on_uv_notify (λ p. pos 0) (λ p. negsuc 0) requested_world)
on_uv_notify_lem_example =
    on_uv_notify_lem (λ p. pos 0) (λ p. negsuc 0) requested_world requested_run

-- libuv refuses the timer of the record at 128.
one_refused : (on_uv_notify (λ p. pos 0) (λ p. negsuc 0) requested_world).dead_queue ≡ 128 ∷ []
unfolding on_init on_req_delay handle_round handle_idle_record on_uv_notify handle_idles
    start_failed send_delay_rsp
one_refused = refl

all_gone :
    all_closed (on_timer_close 64 (on_timer_close 128 (close_all_timer (on_exit one_fired)))) ≡ true
unfolding on_init on_req_delay handle_round handle_idle_record on_active send_delay_rsp on_exit
    close_all_timer close_busy close_idle close_busy_round all_closed on_timer_close
all_gone = refl
