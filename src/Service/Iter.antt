-- ===== src/Service/Iter.antt =====
-- The iterators over groups and services of src/core/service.c. An iterator is the place of what it
-- points at; `size - 1` is taken on a `size_t`.
use eaf.Prelude.{ℕ, ◌+◌, ◌-◌, ◌%◌, ◌^◌, Option, none, some, leb, length, if◌then◌else◌}
use eaf.Service.{Service, Group, Ctx}

abbrev pub minus_one : ℕ → ℕ
minus_one n = (n + 2 ^ 64 - 1) % 2 ^ 64

unfoldable pub group_begin : Ctx → ℕ
group_begin c = 0

unfoldable pub group_size : Ctx → ℕ
group_size c = length c.groups

unfoldable pub group_next : Ctx → ℕ → Option ℕ
group_next c index = if leb (minus_one (length c.groups)) index then none else some (index + 1)

unfoldable pub service_begin : Group → ℕ
service_begin g = 0

unfoldable pub service_next : Group → ℕ → Option ℕ
service_next g index = if leb (minus_one (length g.table)) index then none else some (index + 1)

unfoldable pub message_queue_size : Service → ℕ
message_queue_size s = length s.queue

unfoldable pub message_queue_capacity : Service → ℕ
message_queue_capacity s = s.capacity
