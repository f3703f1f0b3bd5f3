-- ===== src/Runtime/Scheduler/Runs.antt =====
-- Runs of the scheduler: any interleaving of `schedule` and `pop`.
use systemscope.Base.{ℕ, ◌≡◌, subst, Option, some, none, Result, ok, List, [], ◌∷◌, All, All-map}
use systemscope.Runtime.Scheduler.{EventKey, PhaseOrder, Event, Scheduler, SimError, schedule, pop}
use systemscope.Runtime.Scheduler.Order.{Before, Before-trans}
use systemscope.Runtime.Scheduler.Invariant.{IsAfter, IsScheduler}
use systemscope.Runtime.Scheduler.Schedule.{schedule-IsScheduled}
use systemscope.Runtime.Scheduler.Pop.{IsPopped, pop-IsPopped}

module _ {Phase : Type 0} (order : PhaseOrder Phase) where
  abbrev pub IsAscendingKeys : List (EventKey Phase) → Type 0
  IsAscendingKeys [] = Unit
  IsAscendingKeys (k ∷ ks) = All (λ l. Before order k l) ks × IsAscendingKeys ks

  All-IsAfter :
      (last : Option (EventKey Phase)) (k : EventKey Phase) (ks : List (EventKey Phase))
      → IsAfter order last k
      → All (λ l. Before order k l) ks
      → All (IsAfter order last) ks
  All-IsAfter none k ks b a =
      All-map {P = λ l. Before order k l} {Q = IsAfter order none} (λ l h. tt) ks a
  All-IsAfter (some j) k ks b a =
      All-map {P = λ l. Before order k l} {Q = λ l. Before order j l}
        (λ l h. Before-trans order j k l b h) ks a

  module _ {T : Type 0} where
    -- The keys that are dispatched on the way from one scheduler to another.
    pub data Run : Scheduler Phase T → List (EventKey Phase) → Scheduler Phase T → Type 0 where
      done : {s : Scheduler Phase T} → Run s [] s
      scheduled :
          {s s1 s2 : Scheduler Phase T} {ks : List (EventKey Phase)} {k : EventKey Phase} (tick : ℕ)
          (phase : Phase) (payload : T)
          → schedule order s tick phase payload ≡ ok (k, s1)
          → Run s1 ks s2
          → Run s ks s2
      dispatched :
          {s s1 s2 : Scheduler Phase T} {ks : List (EventKey Phase)} {e : Event Phase T}
          → pop order s ≡ ok (some e, s1)
          → Run s1 ks s2
          → Run s (e.key ∷ ks) s2

    record IsDispatched (s : Scheduler Phase T) (e : Event Phase T) (s' : Scheduler Phase T)
        : Type 0 where
      later : IsAfter order s.last_dispatched e.key
      valid : IsScheduler order s'
      last : s'.last_dispatched ≡ some e.key

    abbrev Dispatches : Scheduler Phase T → Option (Event Phase T) × Scheduler Phase T → Type 0
    Dispatches s (none, s') = Unit
    Dispatches s (some e, s') = IsDispatched s e s'

    abbrev Results :
        Scheduler Phase T
        → Result (Option (Event Phase T) × Scheduler Phase T) (SimError Phase)
        → Type 0
    Results s (ok r) = Dispatches s r
    Results s (Result.err x) = Unit

    results :
        {s : Scheduler Phase T} {es : List (Event Phase T)}
        {r : Result (Option (Event Phase T) × Scheduler Phase T) (SimError Phase)}
        → IsPopped order s es r
        → Results s r
    results IsPopped.nothing = tt
    results (IsPopped.livelock e es n t c) = tt
    results (IsPopped.popped e es s' n c l a v h k g q) = record { later = l; valid = v; last = k }

    pop-IsDispatched :
        {s s' : Scheduler Phase T} {e : Event Phase T}
        → IsScheduler order s
        → pop order s ≡ ok (some e, s')
        → IsDispatched s e s'
    pop-IsDispatched {s} h p = subst (Results s) p (results (pop-IsPopped order s h))

    pub record IsOrderly (s : Scheduler Phase T) (ks : List (EventKey Phase))
        (s' : Scheduler Phase T) : Type 0 where
      pub ascending : IsAscendingKeys ks
      pub later : All (IsAfter order s.last_dispatched) ks
      pub valid : IsScheduler order s'

    -- In any interleaving of successful `schedule` and `pop` calls from a well-formed scheduler, the
    -- dispatched keys are strictly ascending and after the key dispatched before, and the scheduler
    -- stays well-formed.
    pub Run-IsOrderly :
        {s s' : Scheduler Phase T} {ks : List (EventKey Phase)}
        → IsScheduler order s
        → Run s ks s'
        → IsOrderly s ks s'
    Run-IsOrderly h done = record { ascending = tt; later = tt; valid = h }
    Run-IsOrderly {s} {ks = ks} h (scheduled tick phase payload e r) =
        let d = schedule-IsScheduled order s tick phase payload h e in
        let o = Run-IsOrderly d.valid r in
        record {
          ascending = o.ascending;
          later = subst (λ l. All (IsAfter order l) ks) d.last o.later;
          valid = o.valid;
        }
    Run-IsOrderly {s} h (dispatched {ks} {e} p r) =
        let d = pop-IsDispatched h p in
        let o = Run-IsOrderly d.valid r in
        let a = subst (λ l. All (IsAfter order l) ks) d.last o.later in
        record {
          ascending = (a, o.ascending);
          later = (d.later, All-IsAfter s.last_dispatched e.key ks d.later a);
          valid = o.valid;
        }
