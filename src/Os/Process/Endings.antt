-- ===== src/Os/Process/Endings.antt =====
-- The end of a process: its frames are free again.
use systemscope.Base.{
  ℕ, ◌≡◌, ◌≢◌, refl, sym, ◌∙◌, subst, true, false, Option, none, some, List, [], ◌∷◌, arith, All,
  All-map, All-both, contains, ◌==◌, Bool-cases, inl, inr, ◌⊎◌, ok, err, Option-cases,
}
use mathlib.Core.Option.{none-ne-some, some-injective}
use systemscope.Os.Frames.{Frames, owner}
use systemscope.Os.Frames.Release.{IsReleased, Owned, Owned-Blames, release-IsReleased}
use systemscope.Os.Process.{
  ProcState, Pcb, Processes, Violation, is_terminal, is_ready, is_running, pcb_frames, find_pcb,
  update_pcb, ended, end_current,
}
use systemscope.Os.Process.Check.{creation_claims}
use systemscope.Os.Process.Table.{StateOf, IsTable, IsCreation}
use systemscope.Os.Process.Update.{
  is_running-eq, find_pcb-IsFound, find_pcb-update, update-IsOrdered, IsCreation-update,
}
use systemscope.Os.Process.Transitions.{running_in-found}
use systemscope.Os.Process.Claims.{
  left, left_pids, contains-claims, All-left, left-IsAccounted, found_frames,
}
use systemscope.Os.Process.Accounts.{ppns_of, claim_at}
use systemscope.Os.Frames.Sets.{at_element}

-- The states of a process that is over.
abbrev pub IsTerminal : ProcState → Type 0
IsTerminal ProcState.ready = ⊥
IsTerminal ProcState.running = ⊥
IsTerminal (ProcState.exited status) = Unit
IsTerminal (ProcState.faulted cause epc tval) = Unit

is_terminal_cases :
    (st : ProcState)
    → ((is_terminal st ≡ true) × IsTerminal st) ⊎ ((is_terminal st ≡ false) × ¬ IsTerminal st)
is_terminal_cases ProcState.ready = inr (refl, λ h. h)
is_terminal_cases ProcState.running = inr (refl, λ h. h)
is_terminal_cases (ProcState.exited status) = inl (refl, tt)
is_terminal_cases (ProcState.faulted cause epc tval) = inl (refl, tt)

-- The block `q` of the process with the block `p`, which is over with `state`.
pub record IsOver (state : ProcState) (p q : Pcb) : Type 0 where
  pub pid : q.pid ≡ p.pid
  pub ends : q.state ≡ state
  pub context : q.context ≡ none
  pub tables : q.tables ≡ []
  pub regions : q.regions ≡ []
  pub root : q.root ≡ p.root

-- The running process `p` is over with `state`; the frames that it owned are free, and no other frame,
-- process or queue entry has changed.
pub record IsEnded (images : ℕ) (creating : Option (ℕ × List ℕ)) (s : Processes) (state : ProcState)
    (pid : ℕ) (p : Pcb) (s' : Processes) : Type 0 where
  pub freed : (x : ℕ) → owner s.frames x ≡ some pid → owner s'.frames x ≡ some 0
  pub kept : (x : ℕ) → owner s.frames x ≢ some pid → owner s'.frames x ≡ owner s.frames x
  pub current : s'.current ≡ none
  pub queue : s'.queue ≡ s.queue
  pub last : Pcb
  pub found : find_pcb pid s'.pcbs ≡ some last
  pub over : IsOver state p last
  pub others : (j : ℕ) → j ≢ pid → find_pcb j s'.pcbs ≡ find_pcb j s.pcbs
  pub table : IsTable images s' creating

over_state : (st : ProcState) (p : Pcb) → is_terminal st ≡ true → StateOf st (ended st p)
over_state ProcState.ready p h = absurd cc
over_state ProcState.running p h = absurd cc
over_state (ProcState.exited status) p h = (refl, refl, refl)
over_state (ProcState.faulted cause epc tval) p h = (refl, refl, refl)

-- The creation in flight is of another process.
creation_other :
    (images pid : ℕ) (ps : List Pcb) (p : Pcb) (c : Option (ℕ × List ℕ))
    → find_pcb pid ps ≡ some p
    → IsCreation images ps c
    → All (λ c. c.0 ≢ pid) (creation_claims c)
creation_other images pid ps p none h i = tt
creation_other images pid ps p (some (x, [])) h i = tt
creation_other images pid ps p (some (x, f ∷ fs)) h (a, b, n) = (
  λ e. absurd (none-ne-some p (sym (subst (λ y. find_pcb y ps ≡ none) e n) ∙ h)),
  creation_other images pid ps p (some (x, fs)) h (a, b, n),
)

module _ (images : ℕ) (creating : Option (ℕ × List ℕ)) (s : Processes)
    (t : IsTable images s creating) (state : ProcState) (terminal : is_terminal state ≡ true)
    (pid : ℕ) (p : Pcb) (runs : s.current ≡ some pid) (f : find_pcb pid s.pcbs ≡ some p) where
  abbrev after : Frames → Processes
  after frames = record s {
    pcbs = update_pcb pid (ended state) s.pcbs;
    current = none;
    frames = frames;
  }

  frames-Owned : All (Owned s.frames pid) (pcb_frames p)
  frames-Owned =
      let above = (find_pcb-IsFound images 0 pid s.pcbs p t.ordered f).above in
      All-map (λ x h. (h, λ e. absurd (omega (arith, above, e)))) (pcb_frames p)
        (found_frames pid state creating (λ c. owner s.frames c.1 ≡ some c.0) s.pcbs p f
          t.accounted.owned)

  -- A frame that the process owns is among its claims: after the release no claim of it is left.
  owned-listed : (x : ℕ) → owner s.frames x ≡ some pid → contains x (pcb_frames p) ≡ true
  owned-listed x o = elim (Bool-cases (contains x (pcb_frames p))) [
    | inl e ↦ e
    | inr e ↦
        let above = (find_pcb-IsFound images 0 pid s.pcbs p t.ordered f).above in
        let split = contains-claims pid state creating x s.pcbs p f in
        let rest = left pid state creating s.pcbs in
        elim (Bool-cases (contains x (ppns_of rest))) [
          | inr n ↦
              let free = t.accounted.others x pid o (ground (arith, split, e, n)) in
              absurd (omega (arith, above, free))
          | inl c ↦
              let others =
                left_pids pid state creating images 0 s.pcbs p t.ordered f
                  (creation_other images pid s.pcbs p creating f t.creation) in
              let owned =
                All-left pid state creating (λ c. owner s.frames c.1 ≡ some c.0) s.pcbs
                  t.accounted.owned in
              let (q, (w, n)) =
                claim_at (λ c. (owner s.frames c.1 ≡ some c.0) × (c.0 ≢ pid)) x rest
                  (All-both (λ c. owner s.frames c.1 ≡ some c.0) (λ c. c.0 ≢ pid) rest owned others)
                  c in
              absurd (n (some-injective _ _ (sym w ∙ o)))
        ]
  ]

  after-IsTable :
      (frames : Frames)
      → is_running p.state ≡ true
      → IsReleased s.frames (pcb_frames p) frames
      → IsTable images (after frames) creating
  after-IsTable frames r free =
      let found = λ (j : ℕ). find_pcb-update pid (ended state) (λ x. refl) j s.pcbs p f in
      record {
        ordered =
            update-IsOrdered pid (ended state) (λ x. refl) images 0 s.pcbs p t.ordered f
              (over_state state p terminal);
        current = λ j. ground (arith, found j, t.current j, runs, tests state terminal);
        distinct = t.distinct;
        queued = λ j.
            ground (arith, found j, t.queued j, is_running-eq p.state r, f, tests state terminal);
        creation =
            IsCreation-update images pid (ended state) s.pcbs (update_pcb pid (ended state) s.pcbs)
              p creating f found t.creation;
        accounted =
            left-IsAccounted pid state creating images s.pcbs p s.frames frames t.ordered f
              (creation_other images pid s.pcbs p creating f t.creation) t.accounted free;
      }
    where
      tests :
          (st : ProcState) → is_terminal st ≡ true → (is_running st ≡ false) × (is_ready st ≡ false)
      tests ProcState.ready h = absurd cc
      tests ProcState.running h = absurd cc
      tests (ProcState.exited _) h = (refl, refl)
      tests (ProcState.faulted _ _ _) h = (refl, refl)

  end-IsEnded :
      is_running p.state ≡ true
      → (s' : Processes) × (end_current s state ≡ some (s', ok pid))
        × IsEnded images creating s state pid p s'
  unfolding end_current
  end-IsEnded r = elim (release-IsReleased s.frames pid (pcb_frames p)) [
    | inr (e, h, b) ↦ absurd (Owned-Blames b frames-Owned)
    | inl (a, (frames, h, free)) ↦ (
      after frames,
      ground (arith, terminal, runs, f, h),
      record {
        freed = λ x o. free.owners x ∙ rw (owned-listed x o) refl;
        kept = λ x n. elim (Bool-cases (contains x (pcb_frames p))) [
          | inl e ↦ absurd (
              n (
                at_element (λ x. owner s.frames x ≡ some pid) x (pcb_frames p)
                  (found_frames pid state creating (λ c. owner s.frames c.1 ≡ some c.0) s.pcbs p f
                    t.accounted.owned)
                  e))
          | inr e ↦ free.owners x ∙ rw e refl
        ];
        current = refl;
        queue = refl;
        last = ended state p;
        found =
            (let own : (pid == pid) ≡ true = ground arith in
              rw own at (find_pcb-update pid (ended state) (λ x. refl) pid s.pcbs p f));
        over = record {
          pid = refl;
          ends = refl;
          context = refl;
          tables = refl;
          regions = refl;
          root = refl;
        };
        others = λ j n.
            let other : (j == pid) ≡ false = ground (arith, n) in
            rw other at (find_pcb-update pid (ended state) (λ x. refl) j s.pcbs p f);
        table = after-IsTable frames r free;
      },
    )
  ]

-- On a table that satisfies the invariant, `end_current` never fails the `expect` of `release`. It
-- fails exactly for a state that is not terminal or where no process runs, with no change; else it
-- ends the running process with the state, frees exactly the frames that it owns, and keeps the
-- invariant.
pub end_current-IsEnded :
    (images : ℕ) (creating : Option (ℕ × List ℕ)) (s : Processes) (state : ProcState)
    → IsTable images s creating
    → ((¬ IsTerminal state) × (end_current s state ≡ some (s, err Violation.not_terminal)))
      ⊎ (IsTerminal state
          × (s.current ≡ none)
          × (end_current s state ≡ some (s, err Violation.end_idle)))
      ⊎ (IsTerminal state
          × ((pid : ℕ) × (p : Pcb) × (s' : Processes) × (s.current ≡ some pid)
              × (find_pcb pid s.pcbs ≡ some p)
              × (end_current s state ≡ some (s', ok pid))
              × IsEnded images creating s state pid p s'))
unfolding end_current
end_current-IsEnded images creating s state t = elim (is_terminal_cases state) [
  | inr (l, n) ↦ inl (n, ground (arith, l))
  | inl (o, w) ↦ elim (Option-cases s.current) [
    | inl idle ↦ inr (inl (w, idle, ground (arith, o, idle)))
    | inr (pid, e) ↦
        let (p, f, r) = running_in-found pid s.pcbs (sym (t.current pid) ∙ rw e (ground arith)) in
        let (s', h, k) = end-IsEnded images creating s t state o pid p e f r in
        inr (inr (w, (pid, p, s', e, f, h, k)))
  ]
]
