-- ===== src/Os/Process/Table.antt =====
-- The invariant of the process table.
pub mod Blocks
pub mod Queue
pub mod Checked
use systemscope.Base.{
  ℕ, ◌≤◌, ◌<◌, ◌≡◌, Bool, false, Option, none, some, List, [], ◌∷◌, contains, ◌==◌,
}
use systemscope.Os.Process.{ProcState, Context, Region, Pcb, Processes, is_running, find_pcb}
use systemscope.Os.Process.Check.{ready_in, claims}
use systemscope.Os.Process.Accounts.{IsDistinct, IsAccounted}

-- A process that is not over has its root table first among its tables, and regions.
abbrev pub IsRooted : List ℕ → ℕ → Type 0
IsRooted [] root = ⊥
IsRooted (t ∷ ts) root = t ≡ root

abbrev pub HasRegions : List Region → Type 0
HasRegions [] = ⊥
HasRegions (r ∷ rs) = Unit

abbrev pub Holds : Option Context → Type 0
Holds none = ⊥
Holds (some c) = Unit

abbrev pub IsLive : Pcb → Type 0
IsLive p = IsRooted p.tables p.root × HasRegions p.regions

abbrev pub IsOver : Pcb → Type 0
IsOver p = (p.context ≡ none) × (p.tables ≡ []) × (p.regions ≡ [])

-- Only a ready process holds a context; a process that is over owns nothing.
abbrev pub StateOf : ProcState → Pcb → Type 0
StateOf ProcState.ready p = Holds p.context × IsLive p
StateOf ProcState.running p = (p.context ≡ none) × IsLive p
StateOf (ProcState.exited status) p = IsOver p
StateOf (ProcState.faulted cause epc tval) p = IsOver p

-- The PIDs ascend from above `last` to at most `images`.
abbrev pub IsOrdered : ℕ → ℕ → List Pcb → Type 0
IsOrdered images last [] = Unit
IsOrdered images last (p ∷ ps) =
    (last < p.pid) × (p.pid ≤ images) × StateOf p.state p × IsOrdered images p.pid ps

abbrev pub running_in : ℕ → List Pcb → Bool
running_in pid ps = elim (find_pcb pid ps) [ none ↦ false | some p ↦ is_running p.state ]

abbrev pub current_is : Option ℕ → ℕ → Bool
current_is none pid = false
current_is (some x) pid = x == pid

abbrev pub IsCreation : ℕ → List Pcb → Option (ℕ × List ℕ) → Type 0
IsCreation images ps none = Unit
IsCreation images ps (some (pid, frames)) = (0 < pid) × (pid ≤ images) × (find_pcb pid ps ≡ none)

pub record IsTable (images : ℕ) (s : Processes) (creating : Option (ℕ × List ℕ)) : Type 0 where
  pub ordered : IsOrdered images 0 s.pcbs
  pub current : (pid : ℕ) → current_is s.current pid ≡ running_in pid s.pcbs
  pub distinct : IsDistinct s.queue
  pub queued : (pid : ℕ) → contains pid s.queue ≡ ready_in pid s.pcbs
  pub creation : IsCreation images s.pcbs creating
  pub accounted : IsAccounted s.frames (claims s.pcbs creating)
