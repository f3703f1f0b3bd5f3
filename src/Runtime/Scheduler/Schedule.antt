-- ===== src/Runtime/Scheduler/Schedule.antt =====
-- Laws of `schedule`.
use systemscope.Base.{
  ℕ, ◌+◌, ◌<◌, ◌^◌, ◌≡◌, ◌≢◌, refl, ap, Bool, false, not, ◌&&◌, ◌||◌, Option, some, none, ok, List,
  [], ◌∷◌, arith, All-map, ◌++◌, split_ok, if-cases, ltb, leb, ◌==◌, is_ok, subst_ok,
}
use systemscope.Runtime.Scheduler.{
  EventKey, PhaseOrder, Event, Scheduler, insert_by, schedule, now, phase, by_key, key_tick,
  key_phase,
}
use systemscope.Runtime.Scheduler.Order.{All-insert_by, insert_by-IsOrdered}
use systemscope.Runtime.Scheduler.Invariant.{IsAfter, WasAssigned, IsPending, IsScheduler}

module _ {Phase : Type 0} (order : PhaseOrder Phase) where
  still_assigned :
      (last : Option (EventKey Phase)) (next : ℕ)
      → WasAssigned next last
      → WasAssigned (next + 1) last
  still_assigned none next w = tt
  still_assigned (some k) next w = omega (arith, w)

  module _ {T : Type 0} where
    -- An event may be scheduled at a tick and a phase when it is not for `Observe`, not in the past,
    -- not in an earlier phase of the current tick, and a number is left for it.
    abbrev pub may_schedule : Scheduler Phase T → ℕ → Phase → Bool
    may_schedule s tick requested =
        not (order.phase_eqb requested order.observe)
        && (ltb (now s) tick
            || (tick == now s && leb (order.rank (phase order s)) (order.rank requested)))
        && ltb (s.next_sequence + 1) (2 ^ 64)

    scheduled_later :
        (s : Scheduler Phase T) (tick : ℕ) (requested : Phase) (last : Option (EventKey Phase))
        → ltb tick (key_tick last) ≡ false
        → (tick == key_tick last && order.phase_ltb requested (key_phase order last)) ≡ false
        → WasAssigned s.next_sequence last
        → IsAfter order last (record { tick = tick; phase = requested; sequence = s.next_sequence })
    scheduled_later s tick requested none a b w = tt
    scheduled_later s tick requested (some k) a b w = ground (
      arith,
      a,
      b,
      w,
      order.phase_ltb-rank requested k.phase,
      order.key_ltb-lexicographic k
          (record { tick = tick; phase = requested; sequence = s.next_sequence }),
    )

    still-IsPending :
        (last : Option (EventKey Phase)) (next : ℕ) (e : Event Phase T)
        → IsPending order last next e
        → IsPending order last (next + 1) e
    still-IsPending last next e p = record {
      assigned = omega (arith, p.assigned);
      no_observe = p.no_observe;
      later = p.later;
    }

    -- `schedule` succeeds exactly when the event may be scheduled.
    schedule_iff :
        (s : Scheduler Phase T) (tick : ℕ) (requested : Phase) (payload : T)
        → is_ok (schedule order s tick requested payload) ≡ may_schedule s tick requested
    unfolding schedule
    schedule_iff s tick requested payload =
        ground (arith, order.phase_ltb-rank requested (phase order s))

    -- The event is put somewhere into the queue, which is else unchanged.
    pub record IsInserted (e : Event Phase T) (es es' : List (Event Phase T)) : Type 0 where
      pub front : List (Event Phase T)
      pub back : List (Event Phase T)
      pub old : es ≡ front ++ back
      pub new : es' ≡ front ++ e ∷ back

    insert_by-IsInserted :
        (e : Event Phase T) (es : List (Event Phase T))
        → IsInserted e es (insert_by (by_key order) e es)
    unfolding insert_by
    insert_by-IsInserted e [] = record { front = []; back = []; old = refl; new = refl }
    insert_by-IsInserted e (f ∷ es) =
        let i = insert_by-IsInserted e es in
        if-cases (IsInserted e (f ∷ es)) (order.key_ltb f.key e.key)
          (λ t. record {
            front = f ∷ i.front;
            back = i.back;
            old = ap (λ x. f ∷ x) i.old;
            new = ap (λ x. f ∷ x) i.new;
          })
          (λ t. record { front = []; back = f ∷ es; old = refl; new = refl })

    -- The new event has the next number, and the scheduler is well-formed again.
    pub record IsScheduled (s : Scheduler Phase T) (tick : ℕ) (requested : Phase) (payload : T)
        (r : EventKey Phase × Scheduler Phase T) : Type 0 where
      pub key : r.0 ≡ record { tick = tick; phase = requested; sequence = s.next_sequence }
      pub valid : IsScheduler order r.1
      pub next : r.1.next_sequence ≡ s.next_sequence + 1
      pub last : r.1.last_dispatched ≡ s.last_dispatched
      pub inserted : IsInserted (record { key = r.0; payload = payload }) s.heap r.1.heap

    schedule_step-IsScheduled :
        (s : Scheduler Phase T) (tick : ℕ) (requested : Phase) (payload : T)
        → IsScheduler order s
        → order.phase_eqb requested order.observe ≡ false
        → ltb tick (now s) ≡ false
        → (tick == now s && order.phase_ltb requested (phase order s)) ≡ false
        → s.next_sequence + 1 < 2 ^ 64
        → (let key : EventKey Phase = record {
          tick = tick;
          phase = requested;
          sequence = s.next_sequence;
        } in
            IsScheduled s tick requested payload (
              key,
              record s {
                next_sequence = s.next_sequence + 1;
                heap = insert_by (by_key order) (record { key = key; payload = payload }) s.heap;
              },
            ))
    unfolding now phase
    schedule_step-IsScheduled s tick requested payload h o a b l =
        let key : EventKey Phase = record {
          tick = tick;
          phase = requested;
          sequence = s.next_sequence;
        } in
        let e : Event Phase T = record { key = key; payload = payload } in
        record {
          key = refl;
          next = refl;
          last = refl;
          inserted = insert_by-IsInserted e s.heap;
          valid = record {
            ordered =
                insert_by-IsOrdered order e s.heap
                  (All-map {P = IsPending order s.last_dispatched s.next_sequence}
                    {Q = λ f. f.key.sequence ≢ s.next_sequence} (λ f p. omega (arith, p.assigned))
                    s.heap h.pending)
                  h.ordered;
            pending =
                All-insert_by order (IsPending order s.last_dispatched (s.next_sequence + 1))
                  (by_key order) e s.heap
                  (record {
                    assigned = omega arith;
                    no_observe = o;
                    later = scheduled_later s tick requested s.last_dispatched a b h.last_assigned;
                  })
                  (All-map {P = IsPending order s.last_dispatched s.next_sequence}
                    {Q = IsPending order s.last_dispatched (s.next_sequence + 1)}
                    (still-IsPending s.last_dispatched s.next_sequence) s.heap h.pending);
            bound = l;
            last_assigned = still_assigned s.last_dispatched s.next_sequence h.last_assigned;
            counted = h.counted;
          };
        }

    -- When `schedule` succeeds on a well-formed scheduler, the key has the given tick and phase and
    -- the next number, the event is put into the queue, which is else unchanged, and the scheduler
    -- is well-formed again.
    pub schedule-IsScheduled :
        (s : Scheduler Phase T) (tick : ℕ) (requested : Phase) (payload : T)
        {r : EventKey Phase × Scheduler Phase T}
        → IsScheduler order s
        → schedule order s tick requested payload ≡ ok r
        → IsScheduled s tick requested payload r
    unfolding schedule
    schedule-IsScheduled s tick requested payload h = split_ok Good _ _ λ o. split_ok Good _ _ λ a.
        split_ok Good _ _ λ b. split_ok Good _ _ λ l e.
          subst_ok Good e
            (schedule_step-IsScheduled s tick requested payload h o a b (ground (arith, l)))
      where
        Good : EventKey Phase × Scheduler Phase T → Type 0
        Good = IsScheduled s tick requested payload
