-- ===== src/Os/Process/Admission.antt =====
-- The admission of the process whose creation was in flight.
use systemscope.Base.{
  ℕ, ◌≤◌, ◌<◌, ◌≡◌, ◌≢◌, refl, sym, subst, true, false, not, Option, none, some, List, [], ◌∷◌,
  ◌++◌, arith, All, contains, ◌==◌, Bool-cases, inl, inr, ◌||◌, ◌⊎◌, ok, err, is_some,
}
use systemscope.Os.Frames.{owned_by}
use systemscope.Os.Process.{
  Context, Pcb, Processes, Violation, ProcState, is_ready, pcb_frames, find_pcb, last_not_below,
  admit, sort, list_eq,
}
use systemscope.Os.Process.Check.{claims, with_pid}
use systemscope.Os.Process.Accounts.{IsDistinct, IsAccounted}
use systemscope.Os.Process.Table.{StateOf, IsTable, IsOrdered, IsLive, Holds}
use systemscope.Os.Process.Table.Queue.{contains-append}
use systemscope.Os.Process.Update.{is_ready-eq}
use systemscope.Os.Process.Transitions.{IsDistinct-snoc}
use systemscope.Os.Process.Claims.{join_claims, all_frames}
use systemscope.Os.Process.Creation.{find_pcb-snoc, IsOrdered-snoc, claims-creation, claims-snoc}
use systemscope.Os.Process.Creation.Reordered.{reordered-IsAccounted, frames_test}

-- What `admit` asks of a block for the creation of `fs`: a ready state with a context, a PID above
-- every process, and the reserved frames, each once.
pub record Fits (s : Processes) (fs : List ℕ) (pcb : Pcb) : Type 0 where
  pub above : (j : ℕ) → is_some (find_pcb j s.pcbs) ≡ true → j < pcb.pid
  pub ready : pcb.state ≡ ProcState.ready
  pub context : Holds pcb.context
  pub single : IsDistinct (pcb_frames pcb)
  pub same : (x : ℕ) → contains x (pcb_frames pcb) ≡ contains x fs

pub record IsAdmitted (images : ℕ) (s : Processes) (pcb : Pcb) (s' : Processes) : Type 0 where
  pub queue : s'.queue ≡ s.queue ++ pcb.pid ∷ []
  pub pcbs : s'.pcbs ≡ s.pcbs ++ pcb ∷ []
  pub current : s'.current ≡ s.current
  pub frames : s'.frames ≡ s.frames
  pub table : IsTable images s' none

-- The test of the last PID.
last-above :
    (images last : ℕ) (ps : List Pcb) (pid j : ℕ)
    → IsOrdered images last ps
    → last_not_below ps pid ≡ false
    → is_some (find_pcb j ps) ≡ true
    → j < pid
last-above images last [] pid j o l h = absurd cc
last-above images last (p ∷ []) pid j o l h = ground (arith, l, h)
last-above images last (p ∷ q ∷ ps) pid j (a, b, st, o) l h =
    let rest = last-above images p.pid (q ∷ ps) pid q.pid o l (ground arith) in
    elim (Bool-cases (p.pid == j)) [
      | inl e ↦ ground (arith, e, o.0, rest)
      | inr n ↦ last-above images p.pid (q ∷ ps) pid j o l (ground (arith, h, n))
    ]

last-found :
    (ps : List Pcb) (pid : ℕ)
    → last_not_below ps pid ≡ true
    → (j : ℕ) × (is_some (find_pcb j ps) ≡ true) × (pid ≤ j)
last-found [] pid l = absurd cc
last-found (p ∷ []) pid l = (p.pid, ground arith, ground (arith, l))
last-found (p ∷ q ∷ ps) pid l =
    let (j, h, m) = last-found (q ∷ ps) pid l in (j, ground (arith, h), m)

context-Holds : (c : Option Context) → is_some c ≡ true → Holds c
context-Holds none h = absurd cc
context-Holds (some c) h = tt

Holds-context : (c : Option Context) → Holds c → is_some c ≡ true
Holds-context none h = absurd h
Holds-context (some c) h = refl

-- No claim of the table is of a PID that it does not have.
absent_pids :
    (pid : ℕ) (ps : List Pcb) → find_pcb pid ps ≡ none → All (λ c. c.0 ≢ pid) (claims ps none)
absent_pids pid [] h = tt
absent_pids pid (p ∷ ps) h =
    join_claims (λ c. c.0 ≢ pid) p.pid (pcb_frames p) (claims ps none)
      (all_frames (λ x. p.pid ≢ pid) (pcb_frames p) (λ x e. absurd (ground (arith, h, e))))
      (absent_pids pid ps (ground (arith, h)))

module _ (images : ℕ) (s : Processes) (pid : ℕ) (fs : List ℕ) (pcb : Pcb)
    (t : IsTable images s (some (pid, fs))) (same : pcb.pid ≡ pid) (live : IsLive pcb) where
  abbrev others : List (ℕ × ℕ)
  others = claims s.pcbs none

  positive : pid ≢ 0
  positive e = absurd (omega (arith, e, t.creation.0))

  others_pids : All (λ c. c.0 ≢ pid) others
  others_pids = absent_pids pid s.pcbs t.creation.2

  accounted : IsAccounted s.frames (others ++ with_pid pid fs)
  accounted = subst (IsAccounted s.frames) (claims-creation s.pcbs (some (pid, fs))) t.accounted

  abbrev admitted : Processes
  admitted = record s { queue = s.queue ++ pcb.pid ∷ []; pcbs = s.pcbs ++ pcb ∷ [] }

  admitted-IsTable :
      last_not_below s.pcbs pcb.pid ≡ false → Fits s fs pcb → IsTable images admitted none
  admitted-IsTable l f =
      let st : StateOf pcb.state pcb = subst (λ x. StateOf x pcb) (sym f.ready) (f.context, live) in
      let found = λ (j : ℕ). find_pcb-snoc j s.pcbs pcb in
      record {
        ordered =
            IsOrdered-snoc images 0 s.pcbs pcb t.ordered (omega (arith, t.creation.0, same)) l
              (omega (arith, t.creation.1, same)) st;
        current = λ j. ground (arith, found j, t.current j, t.creation.2, same, f.ready);
        distinct =
            IsDistinct-snoc s.queue pcb.pid t.distinct
              (ground (arith, t.queued pcb.pid, t.creation.2, same));
        queued = λ j. ground (
          arith,
          found j,
          t.queued j,
          t.creation.2,
          same,
          f.ready,
          contains-append j s.queue (pcb.pid ∷ []),
        );
        creation = tt;
        accounted = subst (IsAccounted s.frames) (sym (claims-snoc s.pcbs pcb)) (
            subst (λ n. IsAccounted s.frames (others ++ with_pid n (pcb_frames pcb))) (sym same)
              (reordered-IsAccounted s.frames others pid fs positive others_pids accounted
                (pcb_frames pcb) f.single f.same));
      }

  -- The three tests of `admit` together.
  tests_Fits :
      last_not_below s.pcbs pcb.pid ≡ false
      → (is_ready pcb.state ≡ true) × (is_some pcb.context ≡ true)
      → list_eq (sort (pcb_frames pcb)) (owned_by s.frames pcb.pid) ≡ true
      → Fits s fs pcb
  tests_Fits l r h =
      let (d, e) =
        (frames_test s.frames others pid fs positive others_pids accounted (pcb_frames pcb)).0
          (subst (λ n. list_eq (sort (pcb_frames pcb)) (owned_by s.frames n) ≡ true) same h) in
      record {
        above = λ j k. last-above images 0 s.pcbs pcb.pid j t.ordered l k;
        ready = is_ready-eq pcb.state r.0;
        context = context-Holds pcb.context r.1;
        single = d;
        same = e;
      }

  Fits-list_eq : Fits s fs pcb → list_eq (sort (pcb_frames pcb)) (owned_by s.frames pcb.pid) ≡ true
  Fits-list_eq f =
      subst (λ n. list_eq (sort (pcb_frames pcb)) (owned_by s.frames n) ≡ true) (sym same)
        ((frames_test s.frames others pid fs positive others_pids accounted (pcb_frames pcb)).1
          (f.single, f.same))

  Fits-last : Fits s fs pcb → last_not_below s.pcbs pcb.pid ≡ true → ⊥
  Fits-last f l =
      let (j, h, m) = last-found s.pcbs pcb.pid l in absurd (omega (arith, f.above j h, m))

-- For a table that satisfies the invariant with the creation of `pid` in flight, and a block of
-- `pid` with a root table and regions, `admit` succeeds exactly when the block is ready with a
-- context, its PID is above every process, and its frames are the reserved ones, each once. Then it
-- is queued last, the frame pool is as it was, and the invariant holds with no creation in flight;
-- else nothing has changed.
pub admit-IsAdmitted :
    (images : ℕ) (s : Processes) (pid : ℕ) (fs : List ℕ) (pcb : Pcb)
    → IsTable images s (some (pid, fs))
    → pcb.pid ≡ pid
    → IsLive pcb
    → (Fits s fs pcb
        × ((s' : Processes) × (admit s pcb ≡ (s', ok tt)) × IsAdmitted images s pcb s'))
      ⊎ ((Fits s fs pcb → ⊥) × ((v : Violation) × (admit s pcb ≡ (s, err v))))
unfolding admit
admit-IsAdmitted images s pid fs pcb t same live =
    elim (Bool-cases (last_not_below s.pcbs pcb.pid)) [
      | inl l ↦ inr (
        λ f. Fits-last images s pid fs pcb t same live f l,
        (Violation.pid_not_above, ground (arith, l)),
      )
      | inr l ↦ elim (Bool-cases (not (is_ready pcb.state) || not (is_some pcb.context))) [
        | inl b ↦ inr (
          λ f. absurd (ground (arith, b, f.ready, Holds-context pcb.context f.context)),
          (Violation.not_ready_with_context, ground (arith, l, b)),
        )
        | inr r ↦ elim (Bool-cases (list_eq (sort (pcb_frames pcb)) (owned_by s.frames pcb.pid))) [
          | inr n ↦ inr (
            λ f. absurd (cc (n, Fits-list_eq images s pid fs pcb t same live f)),
            (Violation.frames_not_reserved, ground (arith, l, r, n)),
          )
          | inl h ↦
              let f =
                tests_Fits images s pid fs pcb t same live l (ground (arith, r), ground (arith, r))
                  h in
              inl (
                f,
                (
                  admitted images s pid fs pcb t same live,
                  ground (arith, l, r, h),
                  record {
                    queue = refl;
                    pcbs = refl;
                    current = refl;
                    frames = refl;
                    table = admitted-IsTable images s pid fs pcb t same live l f;
                  },
                ),
              )
        ]
      ]
    ]
