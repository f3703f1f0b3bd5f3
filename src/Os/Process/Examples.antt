-- ===== src/Os/Process/Examples.antt =====
-- A table of a running process and a ready one, with the creation of a third in flight.
use systemscope.Base.{
  ℕ, ◌≡◌, refl, true, false, Option, none, some, ok, err, List, [], ◌∷◌, ◌++◌, ◌⊎◌, ◌↔◌, ◌+◌, arith,
  replicate, is_some,
}
use systemscope.Os.Frames.{Frames, owner, owned_by}
use systemscope.Os.Frames.Laws.{IsPool}
use systemscope.Os.Process.{
  ProcState, Context, Region, Pcb, Processes, Violation, find_pcb, admit, yield_current,
  schedule_next, end_current,
}
use systemscope.Os.Process.Check.{check}
use systemscope.Os.Process.Table.{IsTable}
use systemscope.Os.Process.Table.Checked.{check-IsTable}
use systemscope.Os.Process.Transitions.{
  IsDispatched, IsYielded, schedule_next-IsDispatched, yield_current-IsYielded,
}
use systemscope.Os.Process.Endings.{IsTerminal, IsEnded, end_current-IsEnded}
use systemscope.Os.Process.Admission.{Fits, IsAdmitted, admit-IsAdmitted}
use systemscope.Os.Process.Contexts.{context_initial, to_frame, from_frame, from_frame-to_frame}

abbrev entry_context : Context
entry_context = record { regs = replicate 31 7; pc = 0x10000; sstatus = 0 }

abbrev region_of : ℕ → List Region
region_of frame =
    record {
      va = 0x10000;
      perms = record { read = true; write = true; execute = false };
      frames = frame ∷ [];
    }
    ∷ []

abbrev block : ℕ → ProcState → Option Context → ℕ → Pcb
block pid state context root = record {
  pid = pid;
  state = state;
  context = context;
  root = root;
  tables = root ∷ [];
  regions = region_of (root + 1);
}

abbrev pool : Frames
pool = record { base = 0x80; owners = 1 ∷ 1 ∷ 2 ∷ 2 ∷ 3 ∷ 3 ∷ 0 ∷ [] }

abbrev table : Processes
table = record {
  pcbs =
      block 1 ProcState.running none 0x80 ∷ block 2 ProcState.ready (some entry_context) 0x82 ∷ [];
  queue = 2 ∷ [];
  current = some 1;
  frames = pool;
}

abbrev third : Pcb
third = block 3 ProcState.ready (some entry_context) 0x84

abbrev in_flight : Option (ℕ × List ℕ)
in_flight = some (3, 0x84 ∷ 0x85 ∷ [])

pool-IsPool : IsPool pool
pool-IsPool = record { bound = omega arith }

table_checked : check table 3 in_flight ≡ none
unfolding check owner
table_checked = refl

table-IsTable : IsTable 3 table in_flight
table-IsTable = (check-IsTable 3 table in_flight pool-IsPool).0 table_checked

check-IsTable_example : (check table 3 in_flight ≡ none) ↔ IsTable 3 table in_flight
check-IsTable_example = check-IsTable 3 table in_flight pool-IsPool

schedule_next-IsDispatched_example :
    ((is_some table.current ≡ true)
      × (schedule_next table ≡ (table, err Violation.schedule_running)))
    ⊎ ((table.current ≡ none) × (table.queue ≡ []) × (schedule_next table ≡ (table, ok none)))
    ⊎ ((table.current ≡ none)
        × ((pid : ℕ) × (context : Context) × (s' : Processes) × (schedule_next table
              ≡ (s', ok (some (pid, context))))
            × IsDispatched 3 in_flight table pid context s'))
schedule_next-IsDispatched_example = schedule_next-IsDispatched 3 in_flight table table-IsTable

yield_current-IsYielded_example :
    ((table.current ≡ none)
      × (yield_current table entry_context ≡ (table, err Violation.yield_idle)))
    ⊎ ((pid : ℕ) × (s' : Processes) × (table.current ≡ some pid)
        × (yield_current table entry_context ≡ (s', ok pid))
        × IsYielded 3 in_flight table pid entry_context s')
yield_current-IsYielded_example =
    yield_current-IsYielded 3 in_flight table entry_context table-IsTable

end_current-IsEnded_example :
    ((¬ IsTerminal (ProcState.exited 5))
      × (end_current table (ProcState.exited 5) ≡ some (table, err Violation.not_terminal)))
    ⊎ (IsTerminal (ProcState.exited 5)
        × (table.current ≡ none)
        × (end_current table (ProcState.exited 5) ≡ some (table, err Violation.end_idle)))
    ⊎ (IsTerminal (ProcState.exited 5)
        × ((pid : ℕ) × (p : Pcb) × (s' : Processes) × (table.current ≡ some pid)
            × (find_pcb pid table.pcbs ≡ some p)
            × (end_current table (ProcState.exited 5) ≡ some (s', ok pid))
            × IsEnded 3 in_flight table (ProcState.exited 5) pid p s'))
end_current-IsEnded_example =
    end_current-IsEnded 3 in_flight table (ProcState.exited 5) table-IsTable

admit-IsAdmitted_example :
    (Fits table (0x84 ∷ 0x85 ∷ []) third
      × ((s' : Processes) × (admit table third ≡ (s', ok tt)) × IsAdmitted 3 table third s'))
    ⊎ ((Fits table (0x84 ∷ 0x85 ∷ []) third → ⊥)
        × ((v : Violation) × (admit table third ≡ (table, err v))))
admit-IsAdmitted_example =
    admit-IsAdmitted 3 table 3 (0x84 ∷ 0x85 ∷ []) third table-IsTable refl (refl, tt)

from_frame-to_frame_example : from_frame (to_frame entry_context ++ 1 ∷ []) ≡ some entry_context
from_frame-to_frame_example =
    from_frame-to_frame entry_context (1 ∷ []) refl (omega arith) (omega arith) (omega arith)

-- The table after each step of a short life: the first process yields, the second runs and exits.
yielded_queue : (yield_current table entry_context).0.queue ≡ 2 ∷ 1 ∷ []
unfolding yield_current
yielded_queue = refl

idle_schedule : (schedule_next (record table { queue = []; current = none })).1 ≡ ok none
unfolding schedule_next
idle_schedule = refl

admitted_queue : (admit table third).0.queue ≡ 2 ∷ 3 ∷ []
unfolding admit owned_by
admitted_queue = refl

initial_sp : (context_initial 0x10000 0x8000).regs ≡ 0 ∷ 0x8000 ∷ replicate 29 0
unfolding context_initial
initial_sp = refl
