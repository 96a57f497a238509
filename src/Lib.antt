-- ===== src/Lib.antt =====
-- EAF, the embedded application framework: a program is a table of groups, each with a thread and
-- a table of services that send each other requests and responses.
--
-- The parts, and the files that model them:
--   include/eaf/utils/errno.h, src/utils/errno.c: Errno. The codes, and eaf_strerror.
--   src/utils/list.c: NodeList. The intrusive list over an explicit heap of nodes by address. NULL is
--     the address 0; a dereference of what is not there is a fault. Each eaf_list_<f> is
--     NodeList.<f>; one that changes `*handler` returns the handle. Chain says how the heap
--     represents a list, and Push, Insert and Erase hold the proofs.
--   src/core/message.c, src/core/message.h: Message. Messages by address, with the encoded word, the
--     uuid, the response handler and the reference count. Each eaf_msg_<f> is Message.<f>. Results of
--     malloc and of the lock's initialisation are arguments.
--   src/core/service.c, src/core/service.h, include/eaf/core/service.h: Service. Its data are the
--     services, groups and the context as records; a service is named by its group's place and its
--     own, which stand for its address and that of its list node, so that busy_list and wait_list
--     are lists of places. Service/Locked has the code under the lock of a group; Runtime the
--     commands, hooks and the search for a service; Send the sending and resuming; Register the
--     registration and injection; Life eaf_init, eaf_load, eaf_teardown and eaf_exit; Loop the
--     handling of messages and a round of a thread; Thread the body of a thread, its teardown and
--     eaf_cleanup; Iter the iterators. Other modules below Service hold proofs: Keeps and Stable the
--     rules for commands that keep a property of every group, Invariant the invariant of a group,
--     Work and Ending that the threads keep it, Boot how a program comes to be loaded, Wakeup what a
--     loaded program reaches, Other and Blocked what others do while a thread waits, and Delivery, Resumed, Find, Registered, Walk, Shutdown and Drain the
--     results of single functions.
--   powerpack/src/powerpack/ringbuffer.c, powerpack/include/eaf/powerpack/ringbuffer.h: RingBuffer.
--     The memory is a map from addresses for each field of a node, and a token is an address. Each
--     eaf_ringbuffer_<f> and _ring_buffer_<f> is RingBuffer.<f>, those that commit in Commit, those that
--     reserve in Reserve. Ring has the invariant, Protocol the runs; Order, Erasure, Room, Tally and
--     Link are on sequences, layout, counters and links, and the others on single functions.
--   powerpack/src/powerpack/time.c, powerpack/include/eaf/powerpack/time.h: Clock. The arithmetic of
--     eaf_clock_time_t; each eaf_time_<f> is Clock.<f>, with the old `*dst` as its first argument.
--   powerpack/src/powerpack/hash.c: Hash. Each eaf_<f> is Hash.<f>, of the list of the bytes.
--   powerpack/src/powerpack/timer.c, powerpack/src/powerpack/timer.h: Timer. A record is an address,
--     a queue a list of them; each _timer_<f> is Timer.<f>. Queues counts in queues, Runs has the runs,
--     Placed, Steps and Arrivals where records stand, Kept and Settled what becomes of requests,
--     Notified the loops.
--   Prelude and Sequence hold what the parts share; Prelude.Commands the commands that may fault.
--
-- How the parts interact. eaf_send_req finds the service and its handler, takes a reference of the
-- message and queues it in the service, which it makes busy; it posts the semaphore of the group. The
-- thread of the group takes the first busy service, initialises it if that was delayed, and calls the
-- handler of its message. A callback may call the API; a handler that yields leaves its message as
-- the current one until eaf_resume. What the program's callbacks do is a parameter (`User`): a list
-- of calls of the API for each call, which may depend on the context.
--
-- Concurrency. A round of a thread and a call of the API by another thread are the steps of the
-- relation Service.Wakeup.Reaches, in any order; Service.Blocked.Waits has those of the other threads
-- while one waits in its semaphore. A step is not interrupted by another: a round with its callbacks is
-- one step, so calls of other threads in the middle of a handler are not seen, nor is a thread
-- between the capacity check of `_eaf_service_push_msg` and its critical section, or between that and
-- the post of the semaphore. The relation lets a thread make rounds after its own has ended.
--
-- Machine integers. Counts that are size_t wrap at 2 ^ 64 where the code can reach that (list sizes,
-- reference counts, `size - 1` of the iterators); the semaphore's count is not bounded. An int is the
-- ℤ of Prelude.Int; the conversions of receipts and tokens write out their bits.
--
-- Fuel. teardown_queue has the length of the queue as fuel, and returns `false` with messages left;
-- Service.Drain says when that is enough. loop_while has rounds as fuel, and returns `false`
-- when they run out or the thread waits. find_overwrite_end has as fuel the capacity and one more, since each
-- round moves on to a higher address in the cache. Clock.carry has what its loop counts down as fuel;
-- Clock.Carry says that it is enough. The loops of the timer have the length of their queue at the
-- start, which Timer.Notified shows to be enough; the requests that come in between two rounds are for
-- the steps of Timer.Runs. Other loops are structural.
--
-- The timer. eaf_send_rsp may fail at any time (`deliver`). libuv is a parameter: its results are
-- arguments, and it calls _timer_on_active for a timer
-- that runs and _timer_on_timer_close once for one that closes. Rounds of the loops are the steps of
-- Timer.Runs, since they leave the lock between rounds and requests may come in.
--
-- The ring buffer. A node at an address has one value, so writes through pointers to memory that
-- overlaps at different addresses are not seen; Protocol.held_apart says that live nodes do not
-- overlap. Sizes are those of a machine with 64 bits: 48 bytes for the header of a node, of which 40
-- stand before the token, and 64 for the structure.
--
-- Hooks of eaf_hook_t are assumed not to call the API, which its documentation does not say.
--
-- Not modelled: the payload of messages, locks (a critical section is one function), the address
-- arithmetic of eaf_init, eaf_service_self and eaf_service_get_local; the platform layer src/compat
-- and src/infra, which wraps the system; src/utils/map_low.c, a copy of the red-black tree of the Linux
-- kernel; src/utils/map.c over it; the functions of time.c that read a clock; the other parts of powerpack,
-- most of which stand on libuv.
pub mod Prelude
pub mod Sequence
pub mod NodeList
pub mod Message
pub mod Clock
pub mod Hash
pub mod Timer
pub mod Errno
pub mod Service
pub mod RingBuffer
