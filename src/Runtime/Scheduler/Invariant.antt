-- ===== src/Runtime/Scheduler/Invariant.antt =====
-- The well-formed schedulers.
use systemscope.Base.{ℕ, ◌<◌, ◌^◌, ◌≡◌, true, false, Option, some, none, All}
use systemscope.Runtime.Scheduler.{EventKey, PhaseOrder, Event, Scheduler, count_ok}
use systemscope.Runtime.Scheduler.Order.{Before, IsOrdered}

module _ {Phase : Type 0} where
  abbrev pub WasAssigned : ℕ → Option (EventKey Phase) → Type 0
  WasAssigned next none = Unit
  WasAssigned next (some last) = last.sequence < next

module _ {Phase : Type 0} (order : PhaseOrder Phase) where
  -- The key is after the last dispatched one, and that one's number was assigned.
  abbrev pub IsAfter : Option (EventKey Phase) → EventKey Phase → Type 0
  IsAfter none k = Unit
  IsAfter (some last) k = Before order last k

  module _ {T : Type 0} where
    -- What a pending event satisfies.
    pub record IsPending (last : Option (EventKey Phase)) (next : ℕ) (e : Event Phase T)
        : Type 0 where
      pub assigned : e.key.sequence < next
      pub no_observe : order.phase_eqb e.key.phase order.observe ≡ false
      pub later : IsAfter last e.key

    pub record IsScheduler (s : Scheduler Phase T) : Type 0 where
      pub ordered : IsOrdered order s.heap
      pub pending : All (IsPending s.last_dispatched s.next_sequence) s.heap
      pub bound : s.next_sequence < 2 ^ 64
      pub last_assigned : WasAssigned s.next_sequence s.last_dispatched
      pub counted : count_ok s.config s.last_dispatched s.dispatched_in_phase ≡ true
