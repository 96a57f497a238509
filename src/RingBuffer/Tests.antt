-- ===== src/RingBuffer/Tests.antt =====
-- Runs of the ring buffer on 400 bytes at the address 1003, which leave 331 bytes for nodes from 1072
-- on.
use eaf.Prelude.{ℕ, ◌+◌, ◌%◌, ◌≤◌, ◌<◌, ◌≡◌, refl, some, [], ◌∷◌, arith}
use eaf.RingBuffer.{
  World, Counter, stat_reading, init, consume, count, begin, align, node_cost, heap_cost, ◌>>=◌,
  set_state, set_size, set_forward, set_backward, set_newer, set_older,
}
use eaf.RingBuffer.Commit.{commit, has_flag}
use eaf.RingBuffer.Reserve.{reserve, reserve_empty}
use eaf.RingBuffer.Ring.{IsRing, Yields}
use eaf.RingBuffer.Reserving.{single_world, single-IsRing, reserve_lem, Outcome}
use eaf.RingBuffer.Cost.{node_cost_bounds}
use eaf.RingBuffer.Committing.{committed_world, written-IsRing, commit_written_lem, Written}
use eaf.RingBuffer.Consuming.{consumed_world, consumed-IsRing, consume_lem, Consumed}
use eaf.RingBuffer.Releasing.{commit_read_lem, Released}
use eaf.RingBuffer.Protocol.{Reached, set_up, reserved, Reached-IsHeld, held_apart}
use eaf.RingBuffer.Held.{IsHeld}
use eaf.RingBuffer.Trip.{Handed, transfer_lem}
use eaf.RingBuffer.Setup.{init_lem, SetUp, count_lem}
use eaf.RingBuffer.Visit.{visit, visit_lem}

-- The memory before the first call.
abbrev blank : World
blank = record {
  rb = record {
    cache = 0;
    capacity = 0;
    head = 7;
    tail = 7;
    oldest_reserve = 7;
    counter = record { committed = 7; writing = 7; reading = 7 };
  };
  mem = record {
    p_forward = λ p. 7;
    p_backward = λ p. 7;
    p_newer = λ p. 7;
    p_older = λ p. 7;
    state = λ p. stat_reading;
    size = λ p. 7;
  };
}

init_lem_example : Yields (init 1003 400 blank) (SetUp blank 1003 400)
init_lem_example = init_lem blank 1003 400 (omega arith) (omega arith)

-- The ring that it sets up.
abbrev empty : World
empty = record blank {
  rb = record {
    cache = 1072;
    capacity = 331;
    head = 0;
    tail = 0;
    oldest_reserve = 0;
    counter = record { committed = 0; writing = 0; reading = 0 };
  };
}

init_run : init 1003 400 blank ≡ some (1008, empty)
unfolding init align heap_cost
init_run = refl

init_too_small : init 1003 69 blank ≡ some (0, blank)
unfolding init align heap_cost
init_too_small = refl

empty-IsRing : IsRing empty [] []
empty-IsRing = record {
  buffer = omega arith;
  distinct = tt;
  linked = record {
    newer = λ q i. cc;
    older = λ q i. cc;
    forward = λ q i. cc;
    backward = λ q i. cc;
  };
  laid = record {
    turned = [];
    straight = [];
    split = refl;
    fits = omega arith;
    started = λ e. refl;
  };
  aligned = λ q i. cc;
  sized = λ q i. cc;
  counted = omega arith;
  read = λ q i. cc;
  unread = λ q i. cc;
  head = refl;
  tail = refl;
  oldest_reserve = refl;
}

reserve_lem_example : Yields (reserve 20 0 empty) (Outcome empty [] [] 20 (331 < node_cost 20))
unfolding has_flag
reserve_lem_example = reserve_lem 20 0 (omega arith) refl [] [] empty-IsRing

cost_20 : node_cost 20 ≡ 72
unfolding node_cost align
cost_20 = refl

-- One node that is being written.
one-IsRing : IsRing (single_world empty 20) [] (1072 ∷ [])
one-IsRing = single-IsRing empty-IsRing 20 (omega arith) (omega (arith, cost_20))

visit_lem_example :
    (begin >>= visit 2) (single_world empty 20) ≡ some (1112 ∷ [], single_world empty 20)
visit_lem_example = visit_lem [] (1072 ∷ []) one-IsRing (λ e. cc)

count_lem_example :
    (n : ℕ) × (c : Counter) × (count (single_world empty 20) ≡ some ((n, c), single_world empty 20))
    × (n ≡ 1)
    × (c.committed ≡ 0)
    × (c.writing ≡ 1)
    × (c.reading ≡ 0)
count_lem_example = count_lem one-IsRing

node_cost_bounds_example :
    (48 + 20 ≤ node_cost 20) × (node_cost 20 < 56 + 20) × (node_cost 20 % 8 ≡ 0)
node_cost_bounds_example = node_cost_bounds 20 (omega arith)

commit_written_lem_example :
    Yields
      (commit 1112 2 (single_world empty 20))
      (Written (single_world empty 20) [] (1072 ∷ []) 1072 2)
commit_written_lem_example = commit_written_lem one-IsRing 1072 2 refl refl

-- The node is committed, and read.
abbrev full_ring : World
full_ring = committed_world (single_world empty 20) 1072

full-IsRing : IsRing full_ring [] (1072 ∷ [])
full-IsRing = written-IsRing one-IsRing 1072 refl refl

consume_lem_example : Yields (consume full_ring) (Consumed full_ring [] (1072 ∷ []))
consume_lem_example = consume_lem [] (1072 ∷ []) full-IsRing

read-IsRing : IsRing (consumed_world full_ring 1072) (1072 ∷ []) []
read-IsRing = consumed-IsRing full_ring [] 1072 [] full-IsRing refl

commit_read_lem_example :
    Yields
      (commit 1112 2 (consumed_world full_ring 1072))
      (Released (consumed_world full_ring 1072) (1072 ∷ []) [] 1072 2)
commit_read_lem_example = commit_read_lem read-IsRing 1072 2 refl

reserve_run : reserve 20 0 empty ≡ some (1112, single_world empty 20)
unfolding reserve reserve_empty node_cost align set_state set_size set_forward set_backward
    set_newer set_older
reserve_run = refl

transfer_lem_example : Handed (single_world empty 20) 1112 20 0
unfolding has_flag
transfer_lem_example =
    transfer_lem empty-IsRing 20 0 0 (omega arith) refl refl reserve_run
      (λ e. absurd (omega (arith, e)))

-- Two calls that have reached a buffer with a token.
some_reached : Reached (single_world empty 20) (1112 ∷ []) []
unfolding has_flag
some_reached =
    reserved
      (set_up blank 1008 1003 400 (omega arith) (omega arith) init_run
        (λ e. absurd (omega (arith, e))))
      20 0 (omega arith) refl reserve_run (λ e. absurd (omega (arith, e)))

Reached-IsHeld_example : IsHeld (single_world empty 20) (1112 ∷ []) []
Reached-IsHeld_example = Reached-IsHeld some_reached

held_apart_example :
    (1112 ≤ 1112)
    × (1112 % 8 ≡ 0)
    × (1112 + 8 + 20 ≤ 1072 + 331)
    × (1112 < 1112 → 1112 + 8 + 20 + 40 ≤ 1112)
held_apart_example = held_apart some_reached 1112 1112 refl refl
