-- ===== src/Runtime/Scheduler/Examples.antt =====
-- A scheduler of two events in five phases.
use systemscope.Base.{
  ℕ, ◌≡◌, refl, ◌&&◌, ◌||◌, some, none, ok, [], ◌∷◌, ltb, ◌==◌, arith, sym, ap, ◌∙◌, if◌then◌else◌,
}
use systemscope.Runtime.Scheduler.{EventKey, PhaseOrder, Scheduler, scheduler_new, schedule, pop}
use systemscope.Runtime.Scheduler.Invariant.{IsScheduler}
use systemscope.Runtime.Scheduler.Schedule.{IsScheduled, schedule-IsScheduled}
use systemscope.Runtime.Scheduler.Pop.{IsPopped, pop-IsPopped}
use systemscope.Runtime.Scheduler.Runs.{Run, IsOrderly, Run-IsOrderly}

data FivePhases : Type 0 where
  request transfer complete commit observe : FivePhases

abbrev number : FivePhases → ℕ
number FivePhases.request = 0
number FivePhases.transfer = 1
number FivePhases.complete = 2
number FivePhases.commit = 3
number FivePhases.observe = 4

abbrev from_number : ℕ → FivePhases
from_number n =
    if n == 0
    then FivePhases.request
    else if n == 1
    then FivePhases.transfer
    else if n == 2
    then FivePhases.complete
    else if n == 3
    then FivePhases.commit
    else FivePhases.observe

from_number-number : (p : FivePhases) → from_number (number p) ≡ p
from_number-number FivePhases.request = refl
from_number-number FivePhases.transfer = refl
from_number-number FivePhases.complete = refl
from_number-number FivePhases.commit = refl
from_number-number FivePhases.observe = refl

abbrev five : PhaseOrder FivePhases
five = record {
  request = FivePhases.request;
  observe = FivePhases.observe;
  phase_eqb = λ p q. number p == number q;
  phase_ltb = λ p q. ltb (number p) (number q);
  key_ltb = λ a b.
      ltb a.tick b.tick
      || (a.tick == b.tick
          && (ltb (number a.phase) (number b.phase)
              || (number a.phase == number b.phase && ltb a.sequence b.sequence)));
  rank = number;
  rank-request = refl;
  rank-injective = λ p q e. sym (from_number-number p) ∙ ap from_number e ∙ from_number-number q;
  phase_eqb-rank = λ p q. refl;
  phase_ltb-rank = λ p q. refl;
  key_ltb-lexicographic = λ a b. refl;
}

abbrev empty : Scheduler FivePhases ℕ
empty = scheduler_new (record { max_events_per_phase = 10 })

empty-IsScheduler : IsScheduler five empty
unfolding scheduler_new
empty-IsScheduler = record {
  ordered = tt;
  pending = tt;
  bound = omega arith;
  last_assigned = tt;
  counted = refl;
}

-- An event at tick 5, then one at tick 2, then both dispatched.
abbrev first_key : EventKey FivePhases
first_key = record { tick = 5; phase = FivePhases.request; sequence = 0 }

abbrev second_key : EventKey FivePhases
second_key = record { tick = 2; phase = FivePhases.commit; sequence = 1 }

abbrev one_pending : Scheduler FivePhases ℕ
one_pending = record {
  config = record { max_events_per_phase = 10 };
  last_dispatched = none;
  dispatched_in_phase = 0;
  next_sequence = 1;
  heap = record { key = first_key; payload = 40 } ∷ [];
}

abbrev two_pending : Scheduler FivePhases ℕ
two_pending = record one_pending {
  next_sequence = 2;
  heap = record { key = second_key; payload = 41 } ∷ record { key = first_key; payload = 40 } ∷ [];
}

abbrev one_left : Scheduler FivePhases ℕ
one_left = record two_pending {
  last_dispatched = some second_key;
  dispatched_in_phase = 1;
  heap = record { key = first_key; payload = 40 } ∷ [];
}

abbrev none_left : Scheduler FivePhases ℕ
none_left = record one_left { last_dispatched = some first_key; heap = [] }

schedule_first : schedule five empty 5 FivePhases.request 40 ≡ ok (first_key, one_pending)
unfolding schedule scheduler_new
schedule_first = refl

schedule_second : schedule five one_pending 2 FivePhases.commit 41 ≡ ok (second_key, two_pending)
unfolding schedule
schedule_second = refl

pop_second : pop five two_pending ≡ ok (some (record { key = second_key; payload = 41 }), one_left)
unfolding pop
pop_second = refl

pop_first : pop five one_left ≡ ok (some (record { key = first_key; payload = 40 }), none_left)
unfolding pop
pop_first = refl

two_dispatched : Run five empty (second_key ∷ first_key ∷ []) none_left
two_dispatched = Run.scheduled 5 FivePhases.request 40 schedule_first (
    Run.scheduled 2 FivePhases.commit 41 schedule_second
      (Run.dispatched pop_second (Run.dispatched pop_first Run.done)))

Run-IsOrderly_example : IsOrderly five empty (second_key ∷ first_key ∷ []) none_left
Run-IsOrderly_example = Run-IsOrderly five empty-IsScheduler two_dispatched

one_pending-IsScheduler : IsScheduler five one_pending
one_pending-IsScheduler =
    (schedule-IsScheduled five empty 5 FivePhases.request 40 empty-IsScheduler schedule_first).valid

pop-IsPopped_example : IsPopped five one_pending one_pending.heap (pop five one_pending)
pop-IsPopped_example = pop-IsPopped five one_pending one_pending-IsScheduler

schedule-IsScheduled_example :
    IsScheduled five empty 5 FivePhases.request 40 (first_key, one_pending)
schedule-IsScheduled_example =
    schedule-IsScheduled five empty 5 FivePhases.request 40 empty-IsScheduler schedule_first
