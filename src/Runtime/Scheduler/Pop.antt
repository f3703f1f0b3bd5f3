-- ===== src/Runtime/Scheduler/Pop.antt =====
-- Laws of `pop`.
use systemscope.Base.{
  ℕ, ◌≤◌, ◌<◌, ◌^◌, ◌≡◌, refl, ap, false, ◌+◌, if◌then◌else◌, Option, some, none, Result, ok, err,
  List, [], ◌∷◌, arith, All, ltb→lt, if-cases, ltb,
}
use systemscope.Runtime.Scheduler.{
  PhaseOrder, EventKey, Event, Scheduler, same_phase, SimError, pop, phase_count, pop_heap,
}
use systemscope.Runtime.Scheduler.Order.{Before, IsOrdered}
use systemscope.Runtime.Scheduler.Invariant.{IsAfter, IsPending, IsScheduler}

module _ {Phase : Type 0} (order : PhaseOrder Phase) where
  -- The two keys are of one tick and phase.
  abbrev pub IsSamePhase : EventKey Phase → EventKey Phase → Type 0
  IsSamePhase a b = (a.tick ≡ b.tick) × (a.phase ≡ b.phase)

  -- The event of the key is the `n`th of its tick and phase, after the last key, when the last one was
  -- the `m`th of its own.
  pub data IsNth (m : ℕ) : Option (EventKey Phase) → EventKey Phase → ℕ → Type 0 where
    first : (k : EventKey Phase) → IsNth m none k 1
    moves : (l k : EventKey Phase) → ¬ IsSamePhase l k → IsNth m (some l) k 1
    stays : (l k : EventKey Phase) → IsSamePhase l k → IsNth m (some l) k (m + 1)

  module _ {T : Type 0} where
    phase_count-IsNth :
        (s : Scheduler Phase T) (k : EventKey Phase)
        → IsNth s.dispatched_in_phase s.last_dispatched k (phase_count order s k)
    phase_count-IsNth s k = nth s.dispatched_in_phase s.last_dispatched
      where
        nth :
            (m : ℕ) (l : Option (EventKey Phase))
            → IsNth m l k (if same_phase order l k then m + 1 else 1)
        nth m none = IsNth.first k
        nth m (some l) =
            let test = order.phase_eqb-rank l.phase k.phase in
            if-cases (IsNth m (some l) k) (same_phase order (some l) k)
              (λ t.
                let rank : order.rank l.phase ≡ order.rank k.phase = ground (arith, test, t) in
                IsNth.stays l k (ground (arith, t), order.rank-injective l.phase k.phase rank))
              (λ t. IsNth.moves l k (λ (a, b).
                let rank : order.rank l.phase ≡ order.rank k.phase = ap order.rank b in
                absurd (ground (arith, test, t, a, rank))))

    -- What a pop does, on a queue of pending events.
    pub data IsPopped (s : Scheduler Phase T)
        : List (Event Phase T)
          → Result (Option (Event Phase T) × Scheduler Phase T) (SimError Phase)
          → Type 0 where
      nothing : IsPopped s [] (ok (none, s))
      livelock :
          (e : Event Phase T) (es : List (Event Phase T))
          → (n : ℕ) → IsNth s.dispatched_in_phase s.last_dispatched e.key n
          → s.config.max_events_per_phase < n
          → IsPopped s (e ∷ es) (
              err
                (SimError.same_tick_livelock e.key.tick e.key.phase s.config.max_events_per_phase))
      popped :
          (e : Event Phase T) (es : List (Event Phase T)) (s' : Scheduler Phase T)
          → IsNth s.dispatched_in_phase s.last_dispatched e.key s'.dispatched_in_phase
          → s'.dispatched_in_phase ≤ s.config.max_events_per_phase
          → IsAfter order s.last_dispatched e.key
          → All (λ f. Before order e.key f.key) es
          → IsScheduler order s'
          → s'.heap ≡ es
          → s'.last_dispatched ≡ some e.key
          → s'.config ≡ s.config
          → s'.next_sequence ≡ s.next_sequence
          → IsPopped s (e ∷ es) (ok (some e, s'))

    module _ (s : Scheduler Phase T) (e : Event Phase T) (es : List (Event Phase T))
        (n : s.next_sequence < 2 ^ 64) (p : IsPending order s.last_dispatched s.next_sequence e)
        (ps : All (IsPending order s.last_dispatched s.next_sequence) es)
        (c : phase_count order s e.key ≤ s.config.max_events_per_phase) where
      abbrev advanced : Scheduler Phase T
      advanced = record s {
        last_dispatched = some e.key;
        dispatched_in_phase = phase_count order s e.key;
        heap = es;
      }

      popped-IsPending :
          (fs : List (Event Phase T))
          → All (λ f. Before order e.key f.key) fs
          → All (IsPending order s.last_dispatched s.next_sequence) fs
          → All (IsPending order (some e.key) s.next_sequence) fs
      popped-IsPending [] a q = tt
      popped-IsPending (f ∷ fs) (b, a) (q, qs) = (
        record { assigned = q.assigned; no_observe = q.no_observe; later = b },
        popped-IsPending fs a qs,
      )

      advanced-IsScheduler :
          IsOrdered order es → All (λ f. Before order e.key f.key) es → IsScheduler order advanced
      advanced-IsScheduler o a = record {
        ordered = o;
        pending = popped-IsPending es a ps;
        bound = n;
        last_assigned = p.assigned;
        counted = ground (arith, c);
      }

    pop_heap-IsPopped :
        (s : Scheduler Phase T) (es : List (Event Phase T))
        → s.heap ≡ es
        → s.next_sequence < 2 ^ 64
        → IsOrdered order es
        → All (IsPending order s.last_dispatched s.next_sequence) es
        → IsPopped s es (pop_heap order s es)
    pop_heap-IsPopped s [] h n o ps = nothing
    pop_heap-IsPopped s (e ∷ es) h n (a, o) (p, ps) =
        if-cases (IsPopped s (e ∷ es))
          (ltb s.config.max_events_per_phase (phase_count order s e.key))
          (λ t. livelock e es _ (phase_count-IsNth s e.key) (ltb→lt _ _ t))
          (λ t.
            let c = within s.config.max_events_per_phase (phase_count order s e.key) t in
            popped e es _ (phase_count-IsNth s e.key) c p.later a
              (advanced-IsScheduler s e es n p ps c o a) refl refl refl refl)
      where
        within : (x y : ℕ) → ltb x y ≡ false → y ≤ x
        within x y t = ground (arith, t)

    -- On a well-formed scheduler `pop` gives nothing when nothing is pending; reports a livelock when
    -- the next event would be one more of its tick and phase than the limit; and else gives the event
    -- whose key is before all other pending keys and after the last dispatched one, and leaves a
    -- well-formed scheduler with the other events pending. The count starts at 1 in a tick and phase,
    -- and goes up by 1 with each event of the same ones.
    pub pop-IsPopped :
        (s : Scheduler Phase T) → IsScheduler order s → IsPopped s s.heap (pop order s)
    unfolding pop
    pop-IsPopped s h = pop_heap-IsPopped s s.heap refl h.bound h.ordered h.pending
