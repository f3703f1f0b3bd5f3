-- ===== src/Os/Process/Table/Queue.antt =====
-- The tests that `check` makes of the run queue and the running process.
use systemscope.Base.{
  ℕ, ◌≤◌, ◌<◌, ◌≡◌, refl, sym, ◌∙◌, true, false, Option, none, some, List, [], ◌∷◌, ◌++◌, arith,
  All, All-map, contains, IsAscending, ◌||◌, ◌↔◌, if-cases,
}
use systemscope.Os.Frames.Sets.{at_element, All-contains}
use systemscope.Os.Process.{Pcb, is_running, find_pcb}
use systemscope.Os.Process.Check.{
  check_running, check_queue, check_queued, queue_test, queued_test, running_pids, ready_in,
}
use systemscope.Os.Process.Accounts.{IsDistinct}
use systemscope.Os.Process.Table.{IsOrdered, running_in, current_is}
use systemscope.Os.Process.Table.Blocks.{and_then-none}

-- No process has a PID at or below the start.
pub find_pcb-below :
    (images last pid : ℕ) (ps : List Pcb)
    → IsOrdered images last ps
    → pid ≤ last
    → find_pcb pid ps ≡ none
find_pcb-below images last pid [] o h = refl
find_pcb-below images last pid (p ∷ ps) (a, b, st, o) h =
    ground (arith, a, h, find_pcb-below images p.pid pid ps o (omega arith))

module _ (images : ℕ) where
  running_pids-ge :
      (last : ℕ) (ps : List Pcb) → IsOrdered images last ps → All (λ x. last < x) (running_pids ps)
  running_pids-ge last [] o = tt
  running_pids-ge last (p ∷ ps) (a, b, st, o) =
      let rest = All-map {Q = λ x. last < x} (λ x h. omega arith) _ (running_pids-ge p.pid ps o) in
      if-cases (All (λ x. last < x)) (is_running p.state) (λ e. (a, rest)) (λ e. rest)

  running_pids-IsAscending :
      (last : ℕ) (ps : List Pcb) → IsOrdered images last ps → IsAscending (running_pids ps)
  running_pids-IsAscending last [] o = tt
  running_pids-IsAscending last (p ∷ ps) (a, b, st, o) =
      let rest = running_pids-IsAscending p.pid ps o in
      if-cases IsAscending (is_running p.state) (λ e. (running_pids-ge p.pid ps o, rest))
        (λ e. rest)

  contains-running_pids :
      (last pid : ℕ) (ps : List Pcb)
      → IsOrdered images last ps
      → contains pid (running_pids ps) ≡ running_in pid ps
  contains-running_pids last pid [] o = refl
  contains-running_pids last pid (p ∷ ps) (a, b, st, o) =
      ground (arith, contains-running_pids p.pid pid ps o, find_pcb-below images p.pid pid ps o)

check_running-current :
    (rs : List ℕ) (c : Option ℕ)
    → check_running rs c ≡ none
    → (pid : ℕ) → current_is c pid ≡ contains pid rs
check_running-current [] none h pid = refl
check_running-current [] (some x) h pid = absurd cc
check_running-current (x ∷ []) none h pid = absurd cc
check_running-current (x ∷ []) (some y) h pid = ground (arith, h)
check_running-current (x ∷ y ∷ rs) c h pid = absurd cc

current-check_running :
    (rs : List ℕ) (c : Option ℕ)
    → IsAscending rs
    → ((pid : ℕ) → current_is c pid ≡ contains pid rs)
    → check_running rs c ≡ none
current-check_running [] none a h = refl
current-check_running [] (some x) a h = ground (arith, h x)
current-check_running (x ∷ []) none a h = ground (arith, h x)
current-check_running (x ∷ []) (some y) a h = ground (arith, h x)
current-check_running (x ∷ y ∷ rs) none a h = ground (arith, h x)
current-check_running (x ∷ y ∷ rs) (some z) ((l, _), a) h = ground (arith, h x, h y, l)

pub check_running_iff :
    (images : ℕ) (ps : List Pcb) (c : Option ℕ)
    → IsOrdered images 0 ps
    → (check_running (running_pids ps) c ≡ none)
      ↔ ((pid : ℕ) → current_is c pid ≡ running_in pid ps)
check_running_iff images ps c o = (
  λ h pid.
      check_running-current (running_pids ps) c h pid ∙ contains-running_pids images 0 pid ps o,
  λ h.
      current-check_running (running_pids ps) c (running_pids-IsAscending images 0 ps o)
        (λ pid. h pid ∙ sym (contains-running_pids images 0 pid ps o)),
)

pub contains-append :
    (x : ℕ) (xs ys : List ℕ) → contains x (xs ++ ys) ≡ (contains x xs || contains x ys)
contains-append x [] ys = refl
contains-append x (y ∷ xs) ys = ground (arith, contains-append x xs ys)

-- The queue against the PIDs seen before it.
module _ (ps : List Pcb) where
  abbrev Unseen : List ℕ → List ℕ → Type 0
  Unseen seen q = All (λ x. contains x seen ≡ false) q

  abbrev AllReady : List ℕ → Type 0
  AllReady q = All (λ x. ready_in x ps ≡ true) q

  Unseen-later :
      (pid : ℕ) (seen q : List ℕ)
      → Unseen (seen ++ pid ∷ []) q
      → Unseen seen q × (contains pid q ≡ false)
  Unseen-later pid seen [] u = (tt, refl)
  Unseen-later pid seen (x ∷ q) (n, u) =
      let (v, c) = Unseen-later pid seen q u in
      let e = contains-append x seen (pid ∷ []) in
      ((ground (arith, n, e), v), ground (arith, n, e, c))

  later-Unseen :
      (pid : ℕ) (seen q : List ℕ)
      → Unseen seen q
      → contains pid q ≡ false
      → Unseen (seen ++ pid ∷ []) q
  later-Unseen pid seen [] u c = tt
  later-Unseen pid seen (x ∷ q) (n, u) c = (
    ground (arith, n, c, contains-append x seen (pid ∷ [])),
    later-Unseen pid seen q u (ground (arith, c)),
  )

  check_queue-IsDistinct :
      (seen q : List ℕ) → check_queue ps seen q ≡ none → IsDistinct q × Unseen seen q × AllReady q
  check_queue-IsDistinct seen [] h = (tt, tt, tt)
  check_queue-IsDistinct seen (pid ∷ q) h =
      let (a, c) =
        (and_then-none (queue_test ps seen pid) (check_queue ps (seen ++ pid ∷ []) q)).0 h in
      let (d, u, r) = check_queue-IsDistinct (seen ++ pid ∷ []) q c in
      let (v, n) = Unseen-later pid seen q u in
      ((n, d), (ground (arith, a), v), (ground (arith, a), r))

  IsDistinct-check_queue :
      (seen q : List ℕ) → IsDistinct q → Unseen seen q → AllReady q → check_queue ps seen q ≡ none
  IsDistinct-check_queue seen [] d u r = refl
  IsDistinct-check_queue seen (pid ∷ q) (n, d) (s, u) (y, r) =
      let rest = IsDistinct-check_queue (seen ++ pid ∷ []) q d (later-Unseen pid seen q u n) r in
      rw (s, y) rest

check_queued-ready :
    (images last : ℕ) (q : List ℕ) (ps : List Pcb)
    → IsOrdered images last ps
    → check_queued q ps ≡ none
    → (pid : ℕ) → ready_in pid ps ≡ true
    → contains pid q ≡ true
check_queued-ready images last q [] o h pid r = absurd cc
check_queued-ready images last q (p ∷ ps) (a, b, st, o) h pid r =
    let (x, y) = (and_then-none (queued_test q p) (check_queued q ps)).0 h in
    ground (arith, x, r, check_queued-ready images p.pid q ps o y pid)

ready-check_queued :
    (images last : ℕ) (q : List ℕ) (ps : List Pcb)
    → IsOrdered images last ps
    → ((pid : ℕ) → ready_in pid ps ≡ true → contains pid q ≡ true)
    → check_queued q ps ≡ none
ready-check_queued images last q [] o h = refl
ready-check_queued images last q (p ∷ ps) (a, b, st, o) h =
    let later =
      ready-check_queued images p.pid q ps o
        (λ pid r. h pid (ground (arith, r, find_pcb-below images p.pid pid ps o))) in
    ground (arith, h p.pid, later)

-- The two tests of the queue: it has every ready process once, and nothing else.
pub check_queue_iff :
    (images : ℕ) (q : List ℕ) (ps : List Pcb)
    → IsOrdered images 0 ps
    → ((check_queue ps [] q ≡ none) × (check_queued q ps ≡ none))
      ↔ (IsDistinct q × ((pid : ℕ) → contains pid q ≡ ready_in pid ps))
check_queue_iff images q ps o = (to, from)
  where
    all_unseen : (q : List ℕ) → Unseen ps [] q
    all_unseen [] = tt
    all_unseen (x ∷ q) = (refl, all_unseen q)

    to :
        (check_queue ps [] q ≡ none) × (check_queued q ps ≡ none)
        → IsDistinct q × ((pid : ℕ) → contains pid q ≡ ready_in pid ps)
    to (h, k) =
        let (d, u, r) = check_queue-IsDistinct ps [] q h in
        (
          d,
          λ pid. ground (
            arith,
            at_element (λ x. ready_in x ps ≡ true) pid q r,
            check_queued-ready images 0 q ps o k pid,
          ),
        )

    from :
        IsDistinct q × ((pid : ℕ) → contains pid q ≡ ready_in pid ps)
        → (check_queue ps [] q ≡ none) × (check_queued q ps ≡ none)
    from (d, e) = (
      IsDistinct-check_queue ps [] q d (all_unseen q)
          (All-contains (λ x. ready_in x ps ≡ true) q (λ x c. sym (e x) ∙ c)),
      ready-check_queued images 0 q ps o (λ pid r. e pid ∙ r),
    )
