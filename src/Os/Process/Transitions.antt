-- ===== src/Os/Process/Transitions.antt =====
-- The transitions that keep every frame: dispatching and yielding.
use systemscope.Base.{
  ℕ, ◌≡◌, refl, sym, ◌∙◌, subst, true, false, Option, none, some, List, [], ◌∷◌, ◌++◌, arith,
  contains, inl, inr, ◌⊎◌, ok, err, Option-cases, is_some,
}
use systemscope.Os.Process.{
  Context, Pcb, Processes, Violation, is_ready, is_running, find_pcb, update_pcb, schedule_next,
  yield_current, dispatched, yielded, schedule_from,
}
use systemscope.Os.Process.Check.{ready_in}
use systemscope.Os.Process.Accounts.{IsDistinct, IsAccounted}
use systemscope.Os.Process.Table.{StateOf, IsTable, running_in, IsLive, Holds}
use systemscope.Os.Process.Table.Queue.{contains-append}
use systemscope.Os.Process.Update.{
  is_ready-eq, is_running-eq, find_pcb-IsFound, find_pcb-update, update-IsOrdered, claims-update,
  IsCreation-update,
}

-- The queue's head `pid` becomes the running process, and its context leaves its block.
pub record IsDispatched (images : ℕ) (creating : Option (ℕ × List ℕ)) (s : Processes) (pid : ℕ)
    (context : Context) (s' : Processes) : Type 0 where
  pub head : s.queue ≡ pid ∷ s'.queue
  pub current : s'.current ≡ some pid
  pub saved : (p : Pcb) × (find_pcb pid s.pcbs ≡ some p) × (p.context ≡ some context)
  pub table : IsTable images s' creating

-- The running process is ready again with `context`, at the queue's tail.
pub record IsYielded (images : ℕ) (creating : Option (ℕ × List ℕ)) (s : Processes) (pid : ℕ)
    (context : Context) (s' : Processes) : Type 0 where
  pub tail : s'.queue ≡ s.queue ++ pid ∷ []
  pub current : s'.current ≡ none
  pub saved : (p : Pcb) × (find_pcb pid s'.pcbs ≡ some p) × (p.context ≡ some context)
  pub table : IsTable images s' creating

-- A ready block has its context.
ready_block :
    (p : Pcb)
    → StateOf p.state p
    → is_ready p.state ≡ true
    → (c : Context) × (p.context ≡ some c) × IsLive p
ready_block p st r =
    let (h, l) = subst (λ x. StateOf x p) (is_ready-eq p.state r) st in
    elim (Option-cases p.context) [ inl e ↦ absurd (subst Holds e h) | inr (c, e) ↦ (c, e, l) ]

ready_in-found :
    (pid : ℕ) (ps : List Pcb)
    → ready_in pid ps ≡ true
    → (p : Pcb) × (find_pcb pid ps ≡ some p) × (is_ready p.state ≡ true)
ready_in-found pid ps h = elim (Option-cases (find_pcb pid ps)) [
  | inl e ↦ absurd (ground (arith, h, e))
  | inr (p, e) ↦ (p, e, ground (arith, h, e))
]

pub running_in-found :
    (pid : ℕ) (ps : List Pcb)
    → running_in pid ps ≡ true
    → (p : Pcb) × (find_pcb pid ps ≡ some p) × (is_running p.state ≡ true)
running_in-found pid ps h = elim (Option-cases (find_pcb pid ps)) [
  | inl e ↦ absurd (ground (arith, h, e))
  | inr (p, e) ↦ (p, e, ground (arith, h, e))
]

pub IsDistinct-snoc :
    (xs : List ℕ) (x : ℕ) → IsDistinct xs → contains x xs ≡ false → IsDistinct (xs ++ x ∷ [])
IsDistinct-snoc [] x d n = (refl, tt)
IsDistinct-snoc (y ∷ xs) x (c, d) n = (
  ground (arith, c, n, contains-append y xs (x ∷ [])),
  IsDistinct-snoc xs x d (ground (arith, n)),
)

module _ (images : ℕ) (creating : Option (ℕ × List ℕ)) (s : Processes)
    (t : IsTable images s creating) where
  dispatched-IsTable :
      (pid : ℕ) (q : List ℕ) (p : Pcb)
      → s.current ≡ none
      → s.queue ≡ pid ∷ q
      → find_pcb pid s.pcbs ≡ some p
      → is_ready p.state ≡ true
      → IsTable images
          (record s { queue = q; pcbs = update_pcb pid dispatched s.pcbs; current = some pid })
          creating
  dispatched-IsTable pid q p idle e f r =
      let (c, h, live) =
        ready_block p (find_pcb-IsFound images 0 pid s.pcbs p t.ordered f).state r in
      let found = λ (j : ℕ). find_pcb-update pid dispatched (λ x. refl) j s.pcbs p f in
      let dist = subst IsDistinct e t.distinct in
      record {
        ordered =
            update-IsOrdered pid dispatched (λ x. refl) images 0 s.pcbs p t.ordered f (refl, live);
        current = λ j. ground (arith, found j, t.current j, idle);
        distinct = dist.1;
        queued = λ j. ground (arith, found j, t.queued j, e, dist.0);
        creation =
            IsCreation-update images pid dispatched s.pcbs (update_pcb pid dispatched s.pcbs) p
              creating f found t.creation;
        accounted =
            subst (IsAccounted s.frames)
              (sym (claims-update pid dispatched (λ x. refl) (λ x. refl) s.pcbs creating))
              t.accounted;
      }

  yielded-IsTable :
      (pid : ℕ) (context : Context) (p : Pcb)
      → s.current ≡ some pid
      → find_pcb pid s.pcbs ≡ some p
      → is_running p.state ≡ true
      → IsTable images
          (record s {
            queue = s.queue ++ pid ∷ [];
            pcbs = update_pcb pid (yielded context) s.pcbs;
            current = none;
          })
          creating
  yielded-IsTable pid context p runs f r =
      let st = (find_pcb-IsFound images 0 pid s.pcbs p t.ordered f).state in
      let live = (subst (λ x. StateOf x p) (is_running-eq p.state r) st).1 in
      let found = λ (j : ℕ). find_pcb-update pid (yielded context) (λ x. refl) j s.pcbs p f in
      record {
        ordered =
            update-IsOrdered pid (yielded context) (λ x. refl) images 0 s.pcbs p t.ordered f
              (tt, live);
        current = λ j. ground (arith, found j, t.current j, runs);
        distinct =
            IsDistinct-snoc s.queue pid t.distinct
              (ground (arith, t.queued pid, f, is_running-eq p.state r));
        queued = λ j. ground (arith, found j, t.queued j, contains-append j s.queue (pid ∷ []));
        creation =
            IsCreation-update images pid (yielded context) s.pcbs
              (update_pcb pid (yielded context) s.pcbs) p creating f found t.creation;
        accounted =
            subst (IsAccounted s.frames)
              (sym (claims-update pid (yielded context) (λ x. refl) (λ x. refl) s.pcbs creating))
              t.accounted;
      }

  schedule_from-IsDispatched :
      (queue : List ℕ)
      → s.queue ≡ queue
      → s.current ≡ none
      → ((queue ≡ []) × (schedule_from s queue ≡ (s, ok none)))
        ⊎ ((pid : ℕ) × (context : Context) × (s' : Processes) × (schedule_from s queue
              ≡ (s', ok (some (pid, context))))
            × IsDispatched images creating s pid context s')
  schedule_from-IsDispatched [] e idle = inl (refl, refl)
  schedule_from-IsDispatched (pid ∷ q) e idle =
      let (p, f, r) = ready_in-found pid s.pcbs (sym (t.queued pid) ∙ rw e (ground arith)) in
      let (c, h, live) =
        ready_block p (find_pcb-IsFound images 0 pid s.pcbs p t.ordered f).state r in
      inr (
        pid,
        c,
        record s { queue = q; pcbs = update_pcb pid dispatched s.pcbs; current = some pid },
        ground (arith, f, h, r),
        record {
          head = e;
          current = refl;
          saved = (p, f, h);
          table = dispatched-IsTable pid q p idle e f r;
        },
      )

-- On a table that satisfies the invariant, `schedule_next` fails exactly while a process runs, and
-- gives nothing exactly when the queue is empty, with no change. Else it takes the queue's head,
-- makes it the running process, gives the context that was saved for it, and keeps the invariant.
pub schedule_next-IsDispatched :
    (images : ℕ) (creating : Option (ℕ × List ℕ)) (s : Processes)
    → IsTable images s creating
    → ((is_some s.current ≡ true) × (schedule_next s ≡ (s, err Violation.schedule_running)))
      ⊎ ((s.current ≡ none) × (s.queue ≡ []) × (schedule_next s ≡ (s, ok none)))
      ⊎ ((s.current ≡ none)
          × ((pid : ℕ) × (context : Context) × (s' : Processes) × (schedule_next s
                ≡ (s', ok (some (pid, context))))
              × IsDispatched images creating s pid context s'))
unfolding schedule_next
schedule_next-IsDispatched images creating s t = elim (Option-cases s.current) [
  | inr (pid, e) ↦ inl (ground (arith, e), ground (arith, e))
  | inl idle ↦ elim (schedule_from-IsDispatched images creating s t s.queue refl idle) [
    | inl (e, r) ↦ inr (inl (idle, e, ground (arith, idle, r)))
    | inr (pid, c, s', r, d) ↦ inr (inr (idle, (pid, c, s', ground (arith, idle, r), d)))
  ]
]

-- On a table that satisfies the invariant, `yield_current` fails exactly when no process runs, with
-- no change. Else the running process is ready again with the given context, at the queue's tail,
-- no process runs, and the invariant holds.
pub yield_current-IsYielded :
    (images : ℕ) (creating : Option (ℕ × List ℕ)) (s : Processes) (context : Context)
    → IsTable images s creating
    → ((s.current ≡ none) × (yield_current s context ≡ (s, err Violation.yield_idle)))
      ⊎ ((pid : ℕ) × (s' : Processes) × (s.current ≡ some pid)
          × (yield_current s context ≡ (s', ok pid))
          × IsYielded images creating s pid context s')
unfolding yield_current
yield_current-IsYielded images creating s context t = elim (Option-cases s.current) [
  | inl idle ↦ inl (idle, ground (arith, idle))
  | inr (pid, e) ↦
      let (p, f, r) = running_in-found pid s.pcbs (sym (t.current pid) ∙ rw e (ground arith)) in
      inr (
        pid,
        record s {
          queue = s.queue ++ pid ∷ [];
          pcbs = update_pcb pid (yielded context) s.pcbs;
          current = none;
        },
        e,
        ground (arith, e, f),
        record {
          tail = refl;
          current = refl;
          saved = (
            yielded context p,
            ground (arith, find_pcb-update pid (yielded context) (λ x. refl) pid s.pcbs p f),
            refl,
          );
          table = yielded-IsTable images creating s t pid context p e f r;
        },
      )
]
