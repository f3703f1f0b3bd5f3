-- ===== src/Os/Process/Check.antt =====
-- components/os/src/process.rs: `Processes::check`. `none` is `Ok(())`.
use systemscope.Base.{
  ℕ, suc, ◌+◌, ◌-◌, ◌%◌, ◌^◌, Bool, true, false, not, ◌&&◌, ◌||◌, Option, none, some, Result, ok,
  err, List, [], ◌∷◌, ◌++◌, leb, ltb, ◌==◌, ◌!=◌, if◌then◌else◌, length, get_elem?, replicate, set,
  contains, is_some,
}
use systemscope.Os.Frames.{Frames, owner, owner_is}
use systemscope.Os.Process.{
  Pcb, Processes, Violation, is_ready, is_running, is_terminal, pcb_frames, find_pcb, Region,
}

-- A later check is made when the earlier ones pass.
infixr 20 ◌and_then◌
abbrev pub ◌and_then◌ : Option Violation → Option Violation → Option Violation
none and_then v = v
some e and_then v = some e

-- `a != b` on `bool`.
abbrev pub differs : Bool → Bool → Bool
differs true b = not b
differs false b = b

abbrev pub no_tables : List ℕ → Bool
no_tables [] = true
no_tables (t ∷ ts) = false

abbrev pub no_regions : List Region → Bool
no_regions [] = true
no_regions (r ∷ rs) = false

-- `tables[0] != root`; no index is out of range, since a live process has tables here.
abbrev pub wrong_root : List ℕ → ℕ → Bool
wrong_root [] root = false
wrong_root (t ∷ ts) root = t != root

-- One round of the loop on the PCBs, after the PID `last`.
abbrev pub check_pcb : ℕ → ℕ → Pcb → Option Violation
check_pcb images last p =
    if leb p.pid last || ltb images p.pid
    then some Violation.pids_not_ascending
    else if differs (is_ready p.state) (is_some p.context)
    then some Violation.context_mismatch
    else if differs (is_terminal p.state) (no_tables p.tables)
        || differs (is_terminal p.state) (no_regions p.regions)
    then some Violation.frames_mismatch
    else if not (is_terminal p.state) && wrong_root p.tables p.root
    then some Violation.root_mismatch
    else none

abbrev pub check_pcbs : ℕ → ℕ → List Pcb → Option Violation
check_pcbs images last [] = none
check_pcbs images last (p ∷ ps) = check_pcb images last p and_then check_pcbs images p.pid ps

-- The PIDs that are `Running`.
abbrev pub running_pids : List Pcb → List ℕ
running_pids [] = []
running_pids (p ∷ ps) = if is_running p.state then p.pid ∷ running_pids ps else running_pids ps

abbrev pub check_running : List ℕ → Option ℕ → Option Violation
check_running [] none = none
check_running [] (some pid) = some Violation.current_not_running
check_running (x ∷ []) none = some Violation.current_not_running
check_running (x ∷ []) (some pid) = if x == pid then none else some Violation.current_not_running
check_running (x ∷ y ∷ xs) current = some Violation.two_running

-- `self.pcb(pid).map(|p| p.state) == Some(Ready)`.
abbrev pub ready_in : ℕ → List Pcb → Bool
ready_in pid ps = elim (find_pcb pid ps) [ none ↦ false | some p ↦ is_ready p.state ]

abbrev pub queue_test : List Pcb → List ℕ → ℕ → Option Violation
queue_test ps seen pid =
    if contains pid seen
    then some Violation.queued_twice
    else if not (ready_in pid ps)
    then some Violation.queue_not_ready
    else none

-- The loop on the queue, with the PIDs seen.
abbrev pub check_queue : List Pcb → List ℕ → List ℕ → Option Violation
check_queue ps seen [] = none
check_queue ps seen (pid ∷ queue) =
    queue_test ps seen pid and_then check_queue ps (seen ++ pid ∷ []) queue

abbrev pub queued_test : List ℕ → Pcb → Option Violation
queued_test queue p =
    if is_ready p.state && not (contains p.pid queue) then some Violation.ready_not_queued else none

abbrev pub check_queued : List ℕ → List Pcb → Option Violation
check_queued queue [] = none
check_queued queue (p ∷ ps) = queued_test queue p and_then check_queued queue ps

abbrev pub check_creating : ℕ → List Pcb → Option (ℕ × List ℕ) → Option Violation
check_creating images ps none = none
check_creating images ps (some (pid, frames)) =
    if pid == 0 || is_some (find_pcb pid ps) || ltb images pid
    then some Violation.bad_creation
    else none

-- The frames that the loop on `owners` goes through, each with its process.
abbrev pub with_pid : ℕ → List ℕ → List (ℕ × ℕ)
with_pid pid [] = []
with_pid pid (ppn ∷ ppns) = (pid, ppn) ∷ with_pid pid ppns

abbrev pub creation_claims : Option (ℕ × List ℕ) → List (ℕ × ℕ)
creation_claims none = []
creation_claims (some (pid, frames)) = with_pid pid frames

abbrev pub claims : List Pcb → Option (ℕ × List ℕ) → List (ℕ × ℕ)
claims [] creating = creation_claims creating
claims (p ∷ ps) creating = with_pid p.pid (pcb_frames p) ++ claims ps creating

-- `ppn.checked_sub(base).and_then(|i| expected.get_mut(i))`.
abbrev pub slot : ℕ → List ℕ → ℕ → Option ℕ
slot base expected ppn = if ltb ppn base then none else get_elem? expected (ppn - base)

-- The loop that fills `expected`.
unfoldable pub claim : ℕ → List ℕ → List (ℕ × ℕ) → Result (List ℕ) Violation
claim base expected [] = ok expected
claim base expected ((pid, ppn) ∷ cs) =
    let rest = claim base (set expected (ppn - base) pid) cs in
    elim (slot base expected ppn) [
      | none ↦ err Violation.frame_outside_pool
      | some o ↦ if o == 0 then rest else err Violation.frame_owned_twice
    ]

-- The last loop, from index `i` on.
unfoldable pub check_owners : Frames → ℕ → List ℕ → Option Violation
check_owners f i [] = none
check_owners f i (o ∷ os) =
    (if not (owner_is (owner f (f.base + i % 2 ^ 32)) o)
      then some Violation.owners_mismatch
      else none)
    and_then check_owners f (suc i) os

unfoldable pub check_frames : Frames → List (ℕ × ℕ) → Option Violation
unfolding claim check_owners
check_frames f cs = elim (claim f.base (replicate (length f.owners) 0) cs) [
  | err v ↦ some v
  | ok expected ↦ check_owners f 0 expected
]

unfoldable pub check : Processes → ℕ → Option (ℕ × List ℕ) → Option Violation
unfolding check_frames
check s images creating =
    check_pcbs images 0 s.pcbs
    and_then check_running (running_pids s.pcbs) s.current
    and_then check_queue s.pcbs [] s.queue
    and_then check_queued s.queue s.pcbs
    and_then check_creating images s.pcbs creating
    and_then check_frames s.frames (claims s.pcbs creating)
