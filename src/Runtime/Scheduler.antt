-- ===== src/Runtime/Scheduler.antt =====
-- runtime/src/scheduler.rs: the event scheduler. The binary heap is the list of its entries in the
-- order in which they are popped. `Phase` and the order of event keys are the contracts crate's:
-- parameters, with the documented order as laws (docs/m0-design.md, section 4.1).
mod Examples
pub mod Order
pub mod Invariant
pub mod Schedule
pub mod Pop
pub mod Runs
use systemscope.Base.{
  ℕ, suc, ◌+◌, ◌^◌, Bool, true, false, not, ◌&&◌, ◌||◌, ◌≡◌, ◌↔◌, Option, none, some, Result, ok,
  err, List, [], ◌∷◌, ltb, leb, ◌==◌, if◌then◌else◌,
}

pub record EventKey (Phase : Type 0) : Type 0 where
  pub tick : ℕ
  pub phase : Phase
  pub sequence : ℕ

-- What the scheduler uses of phases and keys, and its documented behaviour: a phase has a number,
-- `Request` the lowest, phases compare by it, and keys compare by tick, phase and sequence.
pub record PhaseOrder (Phase : Type 0) : Type 0 where
  pub request : Phase
  pub observe : Phase
  pub phase_eqb : Phase → Phase → Bool
  pub phase_ltb : Phase → Phase → Bool
  pub key_ltb : EventKey Phase → EventKey Phase → Bool
  pub rank : Phase → ℕ
  pub rank-request : rank request ≡ 0
  pub rank-injective : (p q : Phase) → rank p ≡ rank q → p ≡ q
  pub phase_eqb-rank : (p q : Phase) → phase_eqb p q ≡ (rank p == rank q)
  pub phase_ltb-rank : (p q : Phase) → phase_ltb p q ≡ ltb (rank p) (rank q)
  pub key_ltb-lexicographic :
      (a b : EventKey Phase)
      → key_ltb a b ≡ (
          ltb a.tick b.tick
          || (a.tick == b.tick
              && (ltb (rank a.phase) (rank b.phase)
                  || (rank a.phase == rank b.phase && ltb a.sequence b.sequence))))

pub record Event (Phase T : Type 0) : Type 0 where
  pub key : EventKey Phase
  pub payload : T

pub record SchedulerConfig : Type 0 where
  pub max_events_per_phase : ℕ

pub record SchedulerSnapshot (Phase T : Type 0) : Type 0 where
  pub last_dispatched : Option (EventKey Phase)
  pub dispatched_in_phase : ℕ
  pub next_sequence : ℕ
  pub queue : List (Event Phase T)

pub data SchedulerRestoreError (Phase : Type 0) : Type 0 where
  duplicate_sequence : ℕ → SchedulerRestoreError Phase
  sequence_not_yet_assigned : ℕ → SchedulerRestoreError Phase
  event_before_cursor : EventKey Phase → SchedulerRestoreError Phase
  observe_phase_event : EventKey Phase → SchedulerRestoreError Phase
  invalid_phase_count : ℕ → SchedulerRestoreError Phase

-- The errors that the scheduler reports.
pub data SimError (Phase : Type 0) : Type 0 where
  phase_violation : (now : ℕ) (current : Phase) (tick : ℕ) (requested : Phase) → SimError Phase
  past_tick : (now requested : ℕ) → SimError Phase
  sequence_overflow : SimError Phase
  same_tick_livelock : (tick : ℕ) (phase : Phase) (limit : ℕ) → SimError Phase

pub record Scheduler (Phase T : Type 0) : Type 0 where
  pub config : SchedulerConfig
  pub last_dispatched : Option (EventKey Phase)
  pub dispatched_in_phase : ℕ
  pub next_sequence : ℕ
  pub heap : List (Event Phase T)

module _ {A : Type 0} (before : A → A → Bool) where
  -- A stable sort, by insertion in front of the elements that are not before.
  unfoldable pub insert_by : A → List A → List A
  insert_by x [] = x ∷ []
  insert_by x (y ∷ ys) = let rest = insert_by x ys in if before y x then y ∷ rest else x ∷ y ∷ ys

  unfoldable pub sort_by : List A → List A
  unfolding insert_by
  sort_by [] = []
  sort_by (x ∷ xs) = insert_by x (sort_by xs)

module _ {Phase : Type 0} where
  abbrev pub key_tick : Option (EventKey Phase) → ℕ
  key_tick (some k) = k.tick
  key_tick none = 0

  abbrev pub count_ok : SchedulerConfig → Option (EventKey Phase) → ℕ → Bool
  count_ok config none n = n == 0
  count_ok config (some k) n = leb 1 n && leb n config.max_events_per_phase

module _ {Phase : Type 0} (order : PhaseOrder Phase) where
  abbrev pub key_phase : Option (EventKey Phase) → Phase
  key_phase (some k) = k.phase
  key_phase none = order.request

  abbrev pub same_phase : Option (EventKey Phase) → EventKey Phase → Bool
  same_phase none next = false
  same_phase (some last) next = last.tick == next.tick && order.phase_eqb last.phase next.phase

  -- `key <= last`.
  abbrev pub not_after : Option (EventKey Phase) → EventKey Phase → Bool
  not_after none key = false
  not_after (some last) key = not (order.key_ltb last key)

module _ {Phase T : Type 0} where
  abbrev pub by_sequence : Event Phase T → Event Phase T → Bool
  by_sequence a b = ltb a.key.sequence b.key.sequence

  unfoldable pub scheduler_new : SchedulerConfig → Scheduler Phase T
  scheduler_new config = record {
    config = config;
    last_dispatched = none;
    dispatched_in_phase = 0;
    next_sequence = 0;
    heap = [];
  }

  unfoldable pub now : Scheduler Phase T → ℕ
  now s = key_tick s.last_dispatched

  abbrev pub first_key : List (Event Phase T) → Option (EventKey Phase)
  first_key [] = none
  first_key (e ∷ es) = some e.key

  unfoldable pub peek_key : Scheduler Phase T → Option (EventKey Phase)
  peek_key s = first_key s.heap

  -- The first event of a queue sorted by sequence that has the sequence of the next one.
  pub first_duplicate : List (Event Phase T) → Option ℕ
  first_duplicate [] = none
  first_duplicate (a ∷ []) = none
  first_duplicate (a ∷ b ∷ es) =
      let rest = first_duplicate (b ∷ es) in
      if a.key.sequence == b.key.sequence then some a.key.sequence else rest

module _ {Phase : Type 0} (order : PhaseOrder Phase) {T : Type 0} where
  abbrev pub by_key : Event Phase T → Event Phase T → Bool
  by_key a b = order.key_ltb a.key b.key

  unfoldable pub phase : Scheduler Phase T → Phase
  phase s = key_phase order s.last_dispatched

  unfoldable pub schedule :
      Scheduler Phase T
      → ℕ
      → Phase
      → T
      → Result (EventKey Phase × Scheduler Phase T) (SimError Phase)
  unfolding now phase insert_by
  schedule s tick requested payload =
      let violation = SimError.phase_violation (now s) (phase s) tick requested in
      let sequence = s.next_sequence in
      let key : EventKey Phase = record { tick = tick; phase = requested; sequence = sequence } in
      if order.phase_eqb requested order.observe
      then err violation
      else if ltb tick (now s)
      then err (SimError.past_tick (now s) tick)
      else if tick == now s && order.phase_ltb requested (phase s)
      then err violation
      else if leb (2 ^ 64) (sequence + 1)
      then err SimError.sequence_overflow
      else ok (
        key,
        record s {
          next_sequence = sequence + 1;
          heap = insert_by by_key (record { key = key; payload = payload }) s.heap;
        },
      )

  abbrev pub phase_count : Scheduler Phase T → EventKey Phase → ℕ
  phase_count s next =
      if same_phase order s.last_dispatched next then s.dispatched_in_phase + 1 else 1

  abbrev pub pop_heap :
      Scheduler Phase T
      → List (Event Phase T)
      → Result (Option (Event Phase T) × Scheduler Phase T) (SimError Phase)
  pop_heap s [] = ok (none, s)
  pop_heap s (event ∷ rest) =
      if ltb s.config.max_events_per_phase (phase_count s event.key)
      then err
          (SimError.same_tick_livelock event.key.tick event.key.phase s.config.max_events_per_phase)
      else ok (
        some event,
        record s {
          last_dispatched = some event.key;
          dispatched_in_phase = phase_count s event.key;
          heap = rest;
        },
      )

  unfoldable pub pop :
      Scheduler Phase T → Result (Option (Event Phase T) × Scheduler Phase T) (SimError Phase)
  pop s = pop_heap s s.heap

  unfoldable pub snapshot : Scheduler Phase T → SchedulerSnapshot Phase T
  unfolding sort_by
  snapshot s = record {
    last_dispatched = s.last_dispatched;
    dispatched_in_phase = s.dispatched_in_phase;
    next_sequence = s.next_sequence;
    queue = sort_by by_key s.heap;
  }

  -- The loop over the queue of `restore`: the first error.
  pub check_events :
      Option (EventKey Phase) → ℕ → List (Event Phase T) → Option (SchedulerRestoreError Phase)
  check_events last next [] = none
  check_events last next (e ∷ es) =
      let rest = check_events last next es in
      if leb next e.key.sequence
      then some (SchedulerRestoreError.sequence_not_yet_assigned e.key.sequence)
      else if order.phase_eqb e.key.phase order.observe
      then some (SchedulerRestoreError.observe_phase_event e.key)
      else if not_after order last e.key
      then some (SchedulerRestoreError.event_before_cursor e.key)
      else rest

  -- `restore` once the counter is checked and the queue is sorted by sequence.
  abbrev pub restore_queue :
      SchedulerConfig
      → SchedulerSnapshot Phase T
      → List (Event Phase T)
      → Result (Scheduler Phase T) (SchedulerRestoreError Phase)
  restore_queue config snap queue = elim (first_duplicate queue) [
    | some n ↦ err (SchedulerRestoreError.duplicate_sequence n)
    | none ↦ elim (check_events snap.last_dispatched snap.next_sequence queue) [
      | some e ↦ err e
      | none ↦ ok (record {
        config = config;
        last_dispatched = snap.last_dispatched;
        dispatched_in_phase = snap.dispatched_in_phase;
        next_sequence = snap.next_sequence;
        heap = sort_by by_key queue;
      })
    ]
  ]

  unfoldable pub restore :
      SchedulerConfig
      → SchedulerSnapshot Phase T
      → Result (Scheduler Phase T) (SchedulerRestoreError Phase)
  unfolding sort_by first_duplicate check_events
  restore config snap =
      if not (count_ok config snap.last_dispatched snap.dispatched_in_phase)
      then err (SchedulerRestoreError.invalid_phase_count snap.dispatched_in_phase)
      else restore_queue config snap (sort_by by_sequence snap.queue)
