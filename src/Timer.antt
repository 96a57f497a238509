-- ===== src/Timer.antt =====
-- powerpack/src/powerpack/timer.c: the service that answers a request after a delay. A record is named
-- by its address, and its node stands at its start; so a queue is a list of addresses. Results of
-- libuv, of the hooks and of eaf_register are arguments; a function that libuv calls is a function of
-- the record whose handle it gets. What is done between two calls of `uv_mutex_lock` is one step.
pub mod Queues
pub mod Runs
pub mod Placed
pub mod Steps
pub mod Arrivals
pub mod Kept
pub mod Settled
pub mod Notified
pub mod Tests
use Prim.Native.Nat.{zero, suc}
use eaf.Prelude.{ℕ, ◌+◌, Bool, true, false, not, List, [], ◌∷◌, ◌++◌, ◌==◌, if◌then◌else◌, length}
use eaf.Prelude.Int.{ℤ, pos, negsuc, is_negative}
use eaf.Errno

-- What `record->data.req = *msg` copies of a message.
pub record Request : Type 0 where
  id : ℕ
  from : ℕ
  uuid : ℕ
  orig : ℕ

-- What libuv does with the handle of a record: it is not in use, or stands still, runs, or will be
-- passed to _timer_on_timer_close.
pub data Handle : Type 0 where
  unused : Handle
  still : Handle
  running : Handle
  closing : Handle

-- `timer_record_t`
pub record Record : Type 0 where
  timer : Handle
  req : Request
  msec : ℕ

-- A response that was given to eaf_send_rsp, with what that returned.
pub record Answer : Type 0 where
  to : ℕ
  id : ℕ
  uuid : ℕ
  orig : ℕ
  ret : ℤ
  send_ret : ℤ

-- `timer_ctx_t`, the records by address, the addresses that malloc has given and that are not freed,
-- and the responses, the last first. `deliver` is what eaf_send_rsp returns for a response of the
-- request to a service, after the responses before it: any function, so that it may fail.
pub record World : Type 0 where
  inited : Bool
  looping : Bool
  inited_notifier : Bool
  idle_queue : List ℕ
  busy_queue : List ℕ
  dead_queue : List ℕ
  records : ℕ → Record
  live : List ℕ
  sent : List Answer
  deliver : List Answer → ℕ → Request → ℤ

abbrev pub erase : ℕ → List ℕ → List ℕ
erase p [] = []
erase p (q ∷ queue) = if p == q then queue else q ∷ erase p queue

abbrev pub push_back : List ℕ → ℕ → List ℕ
push_back queue p = queue ++ p ∷ []

abbrev pub set_record : ℕ → Record → World → World
set_record p r w = record w { records = λ q. if p == q then r else w.records q }

abbrev pub set_timer : ℕ → Handle → World → World
set_timer p timer w = set_record p (record (w.records p) { timer = timer }) w

abbrev pub free : ℕ → World → World
free p w = record w { live = erase p w.live }

-- The response of eaf_msg_create_rsp has the id and the constant part of the request. The code
-- asserts that there was memory for it, and goes on whatever eaf_send_rsp returns.
unfoldable pub send_delay_rsp : ℕ → Request → ℤ → World → World
send_delay_rsp to req ret w =
    let answer : Answer = record {
      to = to;
      id = req.id;
      uuid = req.uuid;
      orig = req.orig;
      ret = ret;
      send_ret = w.deliver w.sent to req;
    } in
    record w { sent = answer ∷ w.sent }

unfoldable pub on_timer_close : ℕ → World → World
on_timer_close p w = free p (record w { dead_queue = erase p w.dead_queue })

abbrev pub busy_to_dead : ℕ → World → World
busy_to_dead p w = record w {
  busy_queue = erase p w.busy_queue;
  dead_queue = push_back w.dead_queue p;
}

unfoldable pub on_active : ℕ → World → World
on_active p w =
    let req = (w.records p).req in
    set_timer p closing (busy_to_dead p (send_delay_rsp req.from req Errno.success w))

-- `err_start_timer`
unfoldable pub start_failed : ℕ → World → World
start_failed p w =
    let req = (w.records p).req in
    set_timer p closing (send_delay_rsp req.from req Errno.unknown (busy_to_dead p w))

-- The results are those of uv_timer_init and uv_timer_start.
unfoldable pub handle_idle_record : ℤ → ℤ → ℕ → World → World
handle_idle_record init_ret start_ret p w =
    if is_negative init_ret
    then (let req = (w.records p).req in free p (send_delay_rsp req.from req Errno.unknown w))
    else (let started = set_timer p still w in
        let busy = record started { busy_queue = push_back w.busy_queue p } in
        if is_negative start_ret then start_failed p busy else set_timer p running busy)

-- The loops of _timer_close_all_timer: a round of each.
unfoldable pub close_busy_round : ℕ → List ℕ → World → World
close_busy_round p rest w =
    set_timer p closing (record w { busy_queue = rest; dead_queue = push_back w.dead_queue p })

unfoldable pub close_idle_round : ℕ → List ℕ → World → World
close_idle_round p rest w = free p (record w { idle_queue = rest })

-- The fuel of the loops is the length of the queue, which no round makes longer.
unfoldable pub close_busy : ℕ → World → World
close_busy zero w = w
close_busy (suc fuel) w = elim (w.busy_queue) [
  | [] ↦ w
  | p ∷ rest ↦ close_busy fuel (close_busy_round p rest w)
]

unfoldable pub close_idle : ℕ → World → World
close_idle zero w = w
close_idle (suc fuel) w = elim (w.idle_queue) [
  | [] ↦ w
  | p ∷ rest ↦ close_idle fuel (close_idle_round p rest w)
]

unfoldable pub close_all_timer : World → World
close_all_timer w =
    let closed = close_busy (length w.busy_queue) w in close_idle (length closed.idle_queue) closed

-- A round of the loop of _timer_on_uv_notify, and the loop.
unfoldable pub handle_round : ℤ → ℤ → ℕ → List ℕ → World → World
handle_round init_ret start_ret p rest w =
    handle_idle_record init_ret start_ret p (record w { idle_queue = rest })

unfoldable pub handle_idles : (ℕ → ℤ) → (ℕ → ℤ) → ℕ → World → World
handle_idles init_ret start_ret zero w = w
handle_idles init_ret start_ret (suc fuel) w = elim (w.idle_queue) [
  | [] ↦ w
  | p ∷ rest ↦
      handle_idles init_ret start_ret fuel (handle_round (init_ret p) (start_ret p) p rest w)
]

-- The results are those of libuv for each record.
unfoldable pub on_uv_notify : (ℕ → ℤ) → (ℕ → ℤ) → World → World
on_uv_notify init_ret start_ret w =
    if not w.looping
    then close_all_timer w
    else handle_idles init_ret start_ret (length w.idle_queue) w

-- `block` is what malloc gives, which the code asserts not to be NULL.
unfoldable pub on_req_delay : ℕ → ℤ → ℕ → Request → ℕ → World → World
on_req_delay block async_ret from msg msec w =
    if not w.looping
    then send_delay_rsp from msg Errno.state w
    else (let r : Record = record { timer = unused; req = msg; msec = msec } in
        let made = set_record block r (record w { live = block ∷ w.live }) in
        let queued = push_back w.idle_queue block in
        if is_negative async_ret
        then free block (
            send_delay_rsp from msg Errno.unknown (record made { idle_queue = erase block queued }))
        else record made { idle_queue = queued })

unfoldable pub on_init : World → World
on_init w = record w { looping = true }

-- _timer_on_exit up to its loop, which waits until the queues are empty.
unfoldable pub on_exit : World → World
on_exit w = record w { looping = false }

unfoldable pub all_closed : World → Bool
all_closed w = length w.busy_queue + length w.idle_queue + length w.dead_queue == 0

unfoldable pub on_libuv_loop_init : ℤ → World → ℤ × World
on_libuv_loop_init async_ret w =
    if is_negative async_ret then (negsuc 0, w) else (pos 0, record w { inited_notifier = true })

-- eaf_timer_init. What it undoes on failure is not in the state of the timer.
unfoldable pub timer_init : ℤ → ℤ → ℤ → World → ℤ × World
timer_init mutex_ret hook_ret register_ret w =
    if w.inited
    then (Errno.duplicate, w)
    else if is_negative mutex_ret
    then (Errno.unknown, w)
    else if is_negative hook_ret
    then (hook_ret, w)
    else if is_negative register_ret
    then (register_ret, w)
    else (Errno.success, record w { inited = true })

unfoldable pub timer_exit : World → World
timer_exit w = if not w.inited then w else record w { inited = false }
