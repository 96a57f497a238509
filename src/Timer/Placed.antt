-- ===== src/Timer/Placed.antt =====
-- Where a record is: in one of the queues as what libuv does with its handle says, or freed.
use mathlib.Core.Path.{subst}
use eaf.Prelude.{ℕ, ◌+◌, ◌<◌, ◌≡◌, sym, ap, ◌∙◌, false, ◌==◌, inl, inr, Bool-cases, arith}
use eaf.Timer.{Handle, unused, still, running, closing, World}
use eaf.Timer.Queues.{count, equal}

abbrev pub Placed : World → ℕ → ℕ → ℕ → ℕ → Handle → Type 0
Placed w q idle busy dead timer =
    (count q w.idle_queue ≡ idle)
    × (count q w.busy_queue ≡ busy)
    × (count q w.dead_queue ≡ dead)
    × (count q w.live ≡ idle + busy + dead)
    × ((w.records q).timer ≡ timer)

pub data Stands (w : World) (q : ℕ) : Type 0 where
  nowhere : Placed w q 0 0 0 unused → Stands w q
  waits : Placed w q 1 0 0 unused → Stands w q
  runs : Placed w q 0 1 0 running → Stands w q
  dies : Placed w q 0 0 1 closing → Stands w q

abbrev pub IsPlaced : World → Type 0
IsPlaced w = (q : ℕ) → Stands w q

-- What a step leaves as it was for a record.
abbrev pub Same : World → World → ℕ → Type 0
Same w after q =
    (count q after.idle_queue ≡ count q w.idle_queue)
    × (count q after.busy_queue ≡ count q w.busy_queue)
    × (count q after.dead_queue ≡ count q w.dead_queue)
    × (count q after.live ≡ count q w.live)
    × ((after.records q).timer ≡ (w.records q).timer)

module _ (w after : World) {q : ℕ} (same : Same w after q) where
  same-Placed : {i b d : ℕ} {timer : Handle} → Placed w q i b d timer → Placed after q i b d timer
  same-Placed (idle, busy, dead, live, timer) =
      let (idle', busy', dead', live', timer') = same in
      (idle' ∙ idle, busy' ∙ busy, dead' ∙ dead, live' ∙ live, timer' ∙ timer)

  pub same-Stands : Stands w q → Stands after q
  same-Stands (nowhere h) = nowhere (same-Placed h)
  same-Stands (waits h) = waits (same-Placed h)
  same-Stands (runs h) = runs (same-Placed h)
  same-Stands (dies h) = dies (same-Placed h)

-- A step for one record.
pub moved :
    {w after : World} (p : ℕ)
    → IsPlaced w
    → ((q : ℕ) → (p == q) ≡ false → Same w after q)
    → Stands after p
    → IsPlaced after
moved {w} {after} p placed others here q = elim (Bool-cases (p == q)) [
  | inl same ↦ subst (Stands after) (equal p q same) here
  | inr other ↦ same-Stands w after (others q other) (placed q)
]

-- The place of a record from what its handle does, and from the queues.
abbrev kind : Handle → ℕ
kind unused = 0
kind still = 1
kind running = 2
kind closing = 3

module _ {w : World} {p : ℕ} where
  pub running-runs : (w.records p).timer ≡ running → Stands w p → Placed w p 0 1 0 running
  running-runs e (nowhere (i, b, d, l, t)) = absurd (omega (arith, ap kind (sym t ∙ e)))
  running-runs e (waits (i, b, d, l, t)) = absurd (omega (arith, ap kind (sym t ∙ e)))
  running-runs e (runs h) = h
  running-runs e (dies (i, b, d, l, t)) = absurd (omega (arith, ap kind (sym t ∙ e)))

  pub closing-dies : (w.records p).timer ≡ closing → Stands w p → Placed w p 0 0 1 closing
  closing-dies e (nowhere (i, b, d, l, t)) = absurd (omega (arith, ap kind (sym t ∙ e)))
  closing-dies e (waits (i, b, d, l, t)) = absurd (omega (arith, ap kind (sym t ∙ e)))
  closing-dies e (runs (i, b, d, l, t)) = absurd (omega (arith, ap kind (sym t ∙ e)))
  closing-dies e (dies h) = h

  pub fresh-nowhere : count p w.live ≡ 0 → Stands w p → Placed w p 0 0 0 unused
  fresh-nowhere e (nowhere h) = h
  fresh-nowhere e (waits (i, b, d, l, t)) = absurd (omega (arith, l, e))
  fresh-nowhere e (runs (i, b, d, l, t)) = absurd (omega (arith, l, e))
  fresh-nowhere e (dies (i, b, d, l, t)) = absurd (omega (arith, l, e))

  pub idle-waits : 0 < count p w.idle_queue → Stands w p → Placed w p 1 0 0 unused
  idle-waits e (nowhere (i, b, d, l, t)) = absurd (omega (arith, i, e))
  idle-waits e (waits h) = h
  idle-waits e (runs (i, b, d, l, t)) = absurd (omega (arith, i, e))
  idle-waits e (dies (i, b, d, l, t)) = absurd (omega (arith, i, e))

  pub busy-runs : 0 < count p w.busy_queue → Stands w p → Placed w p 0 1 0 running
  busy-runs e (nowhere (i, b, d, l, t)) = absurd (omega (arith, b, e))
  busy-runs e (waits (i, b, d, l, t)) = absurd (omega (arith, b, e))
  busy-runs e (runs h) = h
  busy-runs e (dies (i, b, d, l, t)) = absurd (omega (arith, b, e))
