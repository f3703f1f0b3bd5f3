-- ===== src/Os/Process.antt =====
-- components/os/src/process.rs, with `Region` of space.rs: the process table, the run queue, the
-- running PID and the frames that processes own. An outer `none` is a failed `expect` of
-- `Frames::release`, or the panic of an index; a method gives the table that it leaves beside its
-- result.
mod Examples
pub mod Accounts
pub mod Check
pub mod Table
pub mod Update
pub mod Transitions
pub mod Contexts
pub mod Claims
pub mod Endings
pub mod Sorted
pub mod Creation
pub mod Admission
use systemscope.Base.{
  ℕ, Bool, true, false, not, ◌&&◌, ◌||◌, Option, none, some, Result, ok, err, List, [], ◌∷◌, ◌++◌,
  leb, ◌==◌, if◌then◌else◌, is_some,
}
use systemscope.Os.Frames.{Frames, FrameError, owned_by, release}
use systemscope.Os.Pte.{Perms}

pub data ProcState : Type 0 where
  ready running : ProcState
  exited : (status : ℕ) → ProcState
  faulted : (cause epc tval : ℕ) → ProcState

abbrev pub is_terminal : ProcState → Bool
is_terminal ProcState.ready = false
is_terminal ProcState.running = false
is_terminal (ProcState.exited status) = true
is_terminal (ProcState.faulted cause epc tval) = true

-- The tests `state == Ready` and `state == Running`.
abbrev pub is_ready : ProcState → Bool
is_ready ProcState.ready = true
is_ready ProcState.running = false
is_ready (ProcState.exited status) = false
is_ready (ProcState.faulted cause epc tval) = false

abbrev pub is_running : ProcState → Bool
is_running ProcState.running = true
is_running ProcState.ready = false
is_running (ProcState.exited status) = false
is_running (ProcState.faulted cause epc tval) = false

pub record Context : Type 0 where
  pub regs : List ℕ
  pub pc : ℕ
  pub sstatus : ℕ

pub record Region : Type 0 where
  pub va : ℕ
  pub perms : Perms
  pub frames : List ℕ

pub record Pcb : Type 0 where
  pub pid : ℕ
  pub state : ProcState
  pub context : Option Context
  pub root : ℕ
  pub tables : List ℕ
  pub regions : List Region

abbrev pub region_frames : List Region → List ℕ
region_frames [] = []
region_frames (r ∷ rs) = r.frames ++ region_frames rs

-- `Pcb::frames`.
abbrev pub pcb_frames : Pcb → List ℕ
pcb_frames p = p.tables ++ region_frames p.regions

-- A `Violation` for each message.
pub data Violation : Type 0 where
  pid_not_above not_ready_with_context frames_not_reserved : Violation
  yield_idle no_pcb : Violation
  not_terminal end_idle frame_not_owned : Violation
  schedule_running queued_no_pcb queued_no_context queued_not_ready : Violation
  pids_not_ascending context_mismatch frames_mismatch root_mismatch : Violation
  two_running current_not_running queued_twice queue_not_ready ready_not_queued : Violation
  bad_creation frame_owned_twice frame_outside_pool owners_mismatch : Violation

pub record Processes : Type 0 where
  pub pcbs : List Pcb
  pub queue : List ℕ
  pub current : Option ℕ
  pub frames : Frames

-- `Processes::new`.
unfoldable pub processes_new : Frames → Processes
processes_new frames = record { pcbs = []; queue = []; current = none; frames = frames }

-- `Processes::pcb`.
abbrev pub find_pcb : ℕ → List Pcb → Option Pcb
find_pcb pid [] = none
find_pcb pid (p ∷ ps) = if p.pid == pid then some p else find_pcb pid ps

-- A write through `pcb_mut`.
abbrev pub update_pcb : ℕ → (Pcb → Pcb) → List Pcb → List Pcb
update_pcb pid f [] = []
update_pcb pid f (p ∷ ps) = if p.pid == pid then f p ∷ ps else p ∷ update_pcb pid f ps

-- `sort_unstable` on numbers.
abbrev pub insert : ℕ → List ℕ → List ℕ
insert x [] = x ∷ []
insert x (y ∷ ys) = if leb x y then x ∷ y ∷ ys else y ∷ insert x ys

abbrev pub sort : List ℕ → List ℕ
sort [] = []
sort (x ∷ xs) = insert x (sort xs)

-- Equality of two vectors.
abbrev pub list_eq : List ℕ → List ℕ → Bool
list_eq [] [] = true
list_eq [] (y ∷ ys) = false
list_eq (x ∷ xs) [] = false
list_eq (x ∷ xs) (y ∷ ys) = (x == y) && list_eq xs ys

-- `self.pcbs.last().is_some_and(|p| p.pid >= pid)`.
abbrev pub last_not_below : List Pcb → ℕ → Bool
last_not_below [] pid = false
last_not_below (p ∷ []) pid = leb pid p.pid
last_not_below (p ∷ q ∷ ps) pid = last_not_below (q ∷ ps) pid

unfoldable pub admit : Processes → Pcb → Processes × Result (Unit {0}) Violation
admit s pcb =
    if last_not_below s.pcbs pcb.pid
    then (s, err Violation.pid_not_above)
    else if not (is_ready pcb.state) || not (is_some pcb.context)
    then (s, err Violation.not_ready_with_context)
    else if not (list_eq (sort (pcb_frames pcb)) (owned_by s.frames pcb.pid))
    then (s, err Violation.frames_not_reserved)
    else (record s { queue = s.queue ++ pcb.pid ∷ []; pcbs = s.pcbs ++ pcb ∷ [] }, ok tt)

abbrev pub yielded : Context → Pcb → Pcb
yielded context p = record p { state = ProcState.ready; context = some context }

abbrev pub yield_as : Option ℕ → Processes → Context → Processes × Result ℕ Violation
yield_as none s context = (s, err Violation.yield_idle)
yield_as (some pid) s context =
    if is_some (find_pcb pid s.pcbs)
    then (
      record s {
        pcbs = update_pcb pid (yielded context) s.pcbs;
        queue = s.queue ++ pid ∷ [];
        current = none;
      },
      ok pid,
    )
    else (s, err Violation.no_pcb)

unfoldable pub yield_current : Processes → Context → Processes × Result ℕ Violation
yield_current s context = yield_as s.current s context

abbrev pub ended : ProcState → Pcb → Pcb
ended state p = record p { state = state; context = none; tables = []; regions = [] }

-- The table after `release`; an error of it leaves the pool as it was.
abbrev pub end_released : Processes → ℕ → Result Frames FrameError → Processes × Result ℕ Violation
end_released s pid (ok f) = (record s { frames = f; current = none }, ok pid)
end_released s pid (err e) = (s, err Violation.frame_not_owned)

abbrev pub end_of : ProcState → Processes → ℕ → Option Pcb → Option (Processes × Result ℕ Violation)
end_of state s pid none = some (s, err Violation.no_pcb)
end_of state s pid (some pcb) = elim (release s.frames pid (pcb_frames pcb)) [
  | none ↦ none
  | some r ↦ some (end_released (record s { pcbs = update_pcb pid (ended state) s.pcbs }) pid r)
]

abbrev pub end_as : ProcState → Option ℕ → Processes → Option (Processes × Result ℕ Violation)
end_as state none s = some (s, err Violation.end_idle)
end_as state (some pid) s = end_of state s pid (find_pcb pid s.pcbs)

unfoldable pub end_current : Processes → ProcState → Option (Processes × Result ℕ Violation)
end_current s state =
    if not (is_terminal state)
    then some (s, err Violation.not_terminal)
    else end_as state s.current s

abbrev pub dispatched : Pcb → Pcb
dispatched p = record p { state = ProcState.running; context = none }

abbrev pub taken_context : Pcb → Pcb
taken_context p = record p { context = none }

-- The queue has lost its head `pid`; `context.take()` happens before the state is looked at.
abbrev pub schedule_context :
    Processes → ℕ → Pcb → Option Context → Processes × Result (Option (ℕ × Context)) Violation
schedule_context s pid p none = (s, err Violation.queued_no_context)
schedule_context s pid p (some context) =
    if not (is_ready p.state)
    then (record s { pcbs = update_pcb pid taken_context s.pcbs }, err Violation.queued_not_ready)
    else (
      record s { pcbs = update_pcb pid dispatched s.pcbs; current = some pid },
      ok (some (pid, context)),
    )

abbrev pub schedule_pcb :
    Processes → ℕ → Option Pcb → Processes × Result (Option (ℕ × Context)) Violation
schedule_pcb s pid none = (s, err Violation.queued_no_pcb)
schedule_pcb s pid (some p) = schedule_context s pid p p.context

abbrev pub schedule_from : Processes → List ℕ → Processes × Result (Option (ℕ × Context)) Violation
schedule_from s [] = (s, ok none)
schedule_from s (pid ∷ queue) = schedule_pcb (record s { queue = queue }) pid (find_pcb pid s.pcbs)

unfoldable pub schedule_next : Processes → Processes × Result (Option (ℕ × Context)) Violation
schedule_next s =
    if is_some s.current then (s, err Violation.schedule_running) else schedule_from s s.queue
