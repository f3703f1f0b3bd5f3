-- ===== src/Os/Process/Table/Checked.antt =====
-- `check` decides the invariant of the process table.
use systemscope.Base.{ℕ, ◌<◌, ◌≡◌, refl, Option, none, some, List, [], ◌∷◌, ◌++◌, arith, ◌↔◌}
use systemscope.Os.Frames.Laws.{IsPool}
use systemscope.Os.Process.{Pcb, Processes, pcb_frames, Violation}
use systemscope.Os.Process.Check.{
  check, ◌and_then◌, check_creating, claims, with_pid, creation_claims,
}
use systemscope.Os.Process.Accounts.{ArePids}
use systemscope.Os.Process.Accounts.Counted.{check_frames-IsAccounted, IsAccounted-check_frames}
use systemscope.Os.Process.Table.{IsTable, IsOrdered, IsCreation}
use systemscope.Os.Process.Table.Blocks.{and_then-none, check_pcbs-IsOrdered, IsOrdered-check_pcbs}
use systemscope.Os.Process.Table.Queue.{check_running_iff, check_queue_iff}

check_creating_iff :
    (images : ℕ) (ps : List Pcb) (c : Option (ℕ × List ℕ))
    → (check_creating images ps c ≡ none) ↔ IsCreation images ps c
check_creating_iff images ps none = (λ h. tt, λ h. refl)
check_creating_iff images ps (some (pid, fs)) =
    (λ h. (ground (arith, h), ground (arith, h), ground (arith, h)), λ h. ground (arith, h))

with_pid-ArePids :
    (pid : ℕ) (fs : List ℕ) (cs : List (ℕ × ℕ))
    → 0 < pid
    → ArePids cs
    → ArePids (with_pid pid fs ++ cs)
with_pid-ArePids pid [] cs h a = a
with_pid-ArePids pid (f ∷ fs) cs h a =
    (λ e. absurd (omega (arith, e)), with_pid-ArePids pid fs cs h a)

creation-ArePids :
    (images : ℕ) (ps : List Pcb) (c : Option (ℕ × List ℕ))
    → IsCreation images ps c
    → ArePids (creation_claims c)
creation-ArePids images ps none h = tt
creation-ArePids images ps (some (pid, [])) h = tt
creation-ArePids images ps (some (pid, f ∷ fs)) (p, b, n) =
    (λ e. absurd (omega (arith, e)), creation-ArePids images ps (some (pid, fs)) (p, b, n))

claims-ArePids :
    (images last : ℕ) (ps : List Pcb) (c : Option (ℕ × List ℕ))
    → IsOrdered images last ps
    → ArePids (creation_claims c)
    → ArePids (claims ps c)
claims-ArePids images last [] c o h = h
claims-ArePids images last (p ∷ ps) c (a, b, st, o) h =
    with_pid-ArePids p.pid (pcb_frames p) (claims ps c) (omega arith)
      (claims-ArePids images p.pid ps c o h)

-- Six tests in a row.
passed :
    (a b c d e f : Option Violation)
    → (a and_then b and_then c and_then d and_then e and_then f) ≡ none
    → (a ≡ none) × (b ≡ none) × (c ≡ none) × (d ≡ none) × (e ≡ none) × (f ≡ none)
passed a b c d e f h =
    let (h1, r1) = (and_then-none a (b and_then c and_then d and_then e and_then f)).0 h in
    let (h2, r2) = (and_then-none b (c and_then d and_then e and_then f)).0 r1 in
    let (h3, r3) = (and_then-none c (d and_then e and_then f)).0 r2 in
    let (h4, r4) = (and_then-none d (e and_then f)).0 r3 in
    let (h5, h6) = (and_then-none e f).0 r4 in (h1, h2, h3, h4, h5, h6)

-- `check` passes exactly when the table satisfies the invariant, for a frame pool below 2 ^ 32.
pub check-IsTable :
    (images : ℕ) (s : Processes) (creating : Option (ℕ × List ℕ))
    → IsPool s.frames
    → (check s images creating ≡ none) ↔ IsTable images s creating
unfolding check
check-IsTable images s creating pool = (to, from)
  where
    pids :
        IsOrdered images 0 s.pcbs
        → IsCreation images s.pcbs creating
        → ArePids (claims s.pcbs creating)
    pids o c = claims-ArePids images 0 s.pcbs creating o (creation-ArePids images s.pcbs creating c)

    to : check s images creating ≡ none → IsTable images s creating
    to h =
        let (h1, h2, h3, h4, h5, h6) = passed _ _ _ _ _ _ h in
        let o = check_pcbs-IsOrdered images 0 s.pcbs h1 in
        let (d, q) = (check_queue_iff images s.queue s.pcbs o).0 (h3, h4) in
        let c = (check_creating_iff images s.pcbs creating).0 h5 in
        record {
          ordered = o;
          current = (check_running_iff images s.pcbs s.current o).0 h2;
          distinct = d;
          queued = q;
          creation = c;
          accounted = check_frames-IsAccounted s.frames pool (claims s.pcbs creating) (pids o c) h6;
        }

    from : IsTable images s creating → check s images creating ≡ none
    from t =
        let (q, r) = (check_queue_iff images s.queue s.pcbs t.ordered).1 (t.distinct, t.queued) in
        rw
          (
            check,
            IsOrdered-check_pcbs images 0 s.pcbs t.ordered,
            (check_running_iff images s.pcbs s.current t.ordered).1 t.current,
            q,
            r,
            (check_creating_iff images s.pcbs creating).1 t.creation,
          )
          (IsAccounted-check_frames s.frames pool (claims s.pcbs creating)
            (pids t.ordered t.creation) t.accounted)
