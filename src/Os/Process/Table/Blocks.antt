-- ===== src/Os/Process/Table/Blocks.antt =====
-- The tests that `check` makes of each block, and what they say of it.
use systemscope.Base.{
  ℕ, ◌≤◌, ◌<◌, ◌≡◌, refl, Bool, true, false, not, Option, none, some, List, [], ◌∷◌, arith, ◌&&◌,
  ◌↔◌, is_some,
}
use systemscope.Os.Process.{ProcState, Context, Region, Pcb, Violation, is_ready, is_terminal}
use systemscope.Os.Process.Check.{
  check_pcb, check_pcbs, no_tables, no_regions, wrong_root, differs, ◌and_then◌,
}
use systemscope.Os.Process.Table.{IsRooted, HasRegions, Holds, StateOf, IsOrdered}

pub and_then-none : (a b : Option Violation) → ((a and_then b) ≡ none) ↔ ((a ≡ none) × (b ≡ none))
and_then-none none b = (λ h. (refl, h), λ h. h.1)
and_then-none (some v) b = (λ h. absurd cc, λ h. absurd (ground (arith, h.0)))

-- The tests of a block, as equations.
record IsTested (images last : ℕ) (p : Pcb) : Type 0 where
  above : last < p.pid
  bound : p.pid ≤ images
  context : is_some p.context ≡ is_ready p.state
  tables : no_tables p.tables ≡ is_terminal p.state
  regions : no_regions p.regions ≡ is_terminal p.state
  rooted : (not (is_terminal p.state) && wrong_root p.tables p.root) ≡ false

differs-false : (a b : Bool) → (differs a b ≡ false) ↔ (b ≡ a)
differs-false true b = (λ h. ground (arith, h), λ h. ground (arith, h))
differs-false false b = (λ h. h, λ h. h)

check_pcb-IsTested :
    (images last : ℕ) (p : Pcb) → check_pcb images last p ≡ none → IsTested images last p
check_pcb-IsTested images last p h = record {
  above = ground (arith, h);
  bound = ground (arith, h);
  context = (differs-false (is_ready p.state) (is_some p.context)).0 (ground (arith, h));
  tables = (differs-false (is_terminal p.state) (no_tables p.tables)).0 (ground (arith, h));
  regions = (differs-false (is_terminal p.state) (no_regions p.regions)).0 (ground (arith, h));
  rooted = ground (arith, h);
}

IsTested-check_pcb :
    (images last : ℕ) (p : Pcb) → IsTested images last p → check_pcb images last p ≡ none
IsTested-check_pcb images last p t = ground (
  arith,
  t.above,
  t.bound,
  t.rooted,
  (differs-false (is_ready p.state) (is_some p.context)).1 t.context,
  (differs-false (is_terminal p.state) (no_tables p.tables)).1 t.tables,
  (differs-false (is_terminal p.state) (no_regions p.regions)).1 t.regions,
)

-- The parts of a block against its state.
no_context : (c : Option Context) → (is_some c ≡ false) ↔ (c ≡ none)
no_context none = (λ h. refl, λ h. refl)
no_context (some c) = (λ h. absurd cc, λ h. absurd cc)

holds : (c : Option Context) → (is_some c ≡ true) ↔ Holds c
holds none = (λ h. absurd cc, λ h. absurd h)
holds (some c) = (λ h. tt, λ h. refl)

IsRooted-of :
    (ts : List ℕ) (root : ℕ)
    → ((no_tables ts ≡ false) × (wrong_root ts root ≡ false)) ↔ IsRooted ts root
IsRooted-of [] root = (λ h. absurd (ground (arith, h.0)), λ h. absurd h)
IsRooted-of (t ∷ ts) root = (λ h. ground (arith, h.1), λ h. (refl, ground (arith, h)))

has_regions : (rs : List Region) → (no_regions rs ≡ false) ↔ HasRegions rs
has_regions [] = (λ h. absurd cc, λ h. absurd h)
has_regions (r ∷ rs) = (λ h. tt, λ h. refl)

empty_tables : (ts : List ℕ) → (no_tables ts ≡ true) ↔ (ts ≡ [])
empty_tables [] = (λ h. refl, λ h. refl)
empty_tables (t ∷ ts) = (λ h. absurd cc, λ h. absurd cc)

empty_regions : (rs : List Region) → (no_regions rs ≡ true) ↔ (rs ≡ [])
empty_regions [] = (λ h. refl, λ h. refl)
empty_regions (r ∷ rs) = (λ h. absurd cc, λ h. absurd cc)

-- The conditions on a block, as the state has them.
module _ (state : ProcState) (p : Pcb) where
  abbrev Parts : Type 0
  Parts =
      (is_some p.context ≡ is_ready state)
      × (no_tables p.tables ≡ is_terminal state)
      × (no_regions p.regions ≡ is_terminal state)
      × ((not (is_terminal state) && wrong_root p.tables p.root) ≡ false)

Parts-StateOf : (state : ProcState) (p : Pcb) → Parts state p → StateOf state p
Parts-StateOf ProcState.ready p (c, t, r, w) =
    ((holds p.context).0 c, ((IsRooted-of p.tables p.root).0 (t, w), (has_regions p.regions).0 r))
Parts-StateOf ProcState.running p (c, t, r, w) = (
  (no_context p.context).0 c,
  ((IsRooted-of p.tables p.root).0 (t, w), (has_regions p.regions).0 r),
)
Parts-StateOf (ProcState.exited _) p (c, t, r, w) =
    ((no_context p.context).0 c, (empty_tables p.tables).0 t, (empty_regions p.regions).0 r)
Parts-StateOf (ProcState.faulted _ _ _) p (c, t, r, w) =
    ((no_context p.context).0 c, (empty_tables p.tables).0 t, (empty_regions p.regions).0 r)

StateOf-Parts : (state : ProcState) (p : Pcb) → StateOf state p → Parts state p
StateOf-Parts ProcState.ready p (c, (t, r)) =
    let (n, w) = (IsRooted-of p.tables p.root).1 t in
    ((holds p.context).1 c, n, (has_regions p.regions).1 r, w)
StateOf-Parts ProcState.running p (c, (t, r)) =
    let (n, w) = (IsRooted-of p.tables p.root).1 t in
    ((no_context p.context).1 c, n, (has_regions p.regions).1 r, w)
StateOf-Parts (ProcState.exited _) p (c, t, r) =
    ((no_context p.context).1 c, (empty_tables p.tables).1 t, (empty_regions p.regions).1 r, refl)
StateOf-Parts (ProcState.faulted _ _ _) p (c, t, r) =
    ((no_context p.context).1 c, (empty_tables p.tables).1 t, (empty_regions p.regions).1 r, refl)

pub check_pcbs-IsOrdered :
    (images last : ℕ) (ps : List Pcb) → check_pcbs images last ps ≡ none → IsOrdered images last ps
check_pcbs-IsOrdered images last [] h = tt
check_pcbs-IsOrdered images last (p ∷ ps) h =
    let (here, later) = (and_then-none _ _).0 h in
    let t = check_pcb-IsTested images last p here in
    (
      t.above,
      t.bound,
      Parts-StateOf p.state p (t.context, t.tables, t.regions, t.rooted),
      check_pcbs-IsOrdered images p.pid ps later,
    )

pub IsOrdered-check_pcbs :
    (images last : ℕ) (ps : List Pcb) → IsOrdered images last ps → check_pcbs images last ps ≡ none
IsOrdered-check_pcbs images last [] h = refl
IsOrdered-check_pcbs images last (p ∷ ps) (a, b, st, h) =
    let (c, t, r, w) = StateOf-Parts p.state p st in
    (and_then-none _ _).1 (
      IsTested-check_pcb images last p
          (record { above = a; bound = b; context = c; tables = t; regions = r; rooted = w }),
      IsOrdered-check_pcbs images p.pid ps h,
    )
