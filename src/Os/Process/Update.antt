-- ===== src/Os/Process/Update.antt =====
-- A change of one process control block.
use systemscope.Base.{
  ℕ, ◌≤◌, ◌<◌, ◌≡◌, refl, ap, sym, ◌∙◌, subst, true, Option, none, some, List, [], ◌∷◌, ◌++◌, arith,
  ◌==◌, ==_iff, if◌then◌else◌, Bool-cases, inl, inr,
}
use systemscope.Os.Process.{ProcState, Pcb, is_ready, is_running, pcb_frames, find_pcb, update_pcb}
use systemscope.Os.Process.Check.{claims, with_pid}
use systemscope.Os.Process.Table.{StateOf, IsOrdered, IsCreation}

-- What a state's tests say of it.
pub is_ready-eq : (st : ProcState) → is_ready st ≡ true → st ≡ ProcState.ready
is_ready-eq ProcState.ready h = refl
is_ready-eq ProcState.running h = absurd cc
is_ready-eq (ProcState.exited status) h = absurd cc
is_ready-eq (ProcState.faulted cause epc tval) h = absurd cc

pub is_running-eq : (st : ProcState) → is_running st ≡ true → st ≡ ProcState.running
is_running-eq ProcState.running h = refl
is_running-eq ProcState.ready h = absurd cc
is_running-eq (ProcState.exited status) h = absurd cc
is_running-eq (ProcState.faulted cause epc tval) h = absurd cc

-- The block that is found.
pub record IsFound (images pid : ℕ) (p : Pcb) : Type 0 where
  pub same : p.pid ≡ pid
  pub above : 0 < pid
  pub bound : pid ≤ images
  pub state : StateOf p.state p

pub find_pcb-IsFound :
    (images last pid : ℕ) (ps : List Pcb) (p : Pcb)
    → IsOrdered images last ps
    → find_pcb pid ps ≡ some p
    → IsFound images pid p
find_pcb-IsFound images last pid [] p o h = absurd cc
find_pcb-IsFound images last pid (q ∷ ps) p (a, b, st, o) h = elim (Bool-cases (q.pid == pid)) [
  | inl e ↦
      let eq : q.pid ≡ pid = (==_iff q.pid pid).0 e in
      let is : q ≡ p = ground (arith, h, e) in
      subst (λ x. IsFound images pid x) is
        (record {
          same = eq;
          above = omega (arith, a, eq);
          bound = omega (arith, b, eq);
          state = st;
        })
  | inr n ↦ find_pcb-IsFound images q.pid pid ps p o (ground (arith, h, n))
]

module _ (pid : ℕ) (f : Pcb → Pcb) (keeps : (q : Pcb) → (f q).pid ≡ q.pid) where
  pub find_pcb-update :
      (j : ℕ) (ps : List Pcb) (p : Pcb)
      → find_pcb pid ps ≡ some p
      → find_pcb j (update_pcb pid f ps) ≡ (if j == pid then some (f p) else find_pcb j ps)
  find_pcb-update j [] p h = absurd cc
  find_pcb-update j (q ∷ ps) p h = ground (arith, h, keeps q, find_pcb-update j ps p)

  pub update-IsOrdered :
      (images last : ℕ) (ps : List Pcb) (p : Pcb)
      → IsOrdered images last ps
      → find_pcb pid ps ≡ some p
      → StateOf (f p).state (f p)
      → IsOrdered images last (update_pcb pid f ps)
  update-IsOrdered images last [] p o h st = tt
  update-IsOrdered images last (q ∷ ps) p (a, b, s, o) h st = elim (Bool-cases (q.pid == pid)) [
    | inl e ↦
        let is : q ≡ p = ground (arith, h, e) in
        rw e (
          rw (keeps q) a,
          rw (keeps q) b,
          subst (λ x. StateOf (f x).state (f x)) (sym is) st,
          rw (keeps q) o,
        )
    | inr n ↦ rw n (a, b, s, update-IsOrdered images q.pid ps p o (ground (arith, h, n)) st)
  ]

  -- A change that keeps the frames keeps the claims.
  pub claims-update :
      ((q : Pcb) → pcb_frames (f q) ≡ pcb_frames q)
      → (ps : List Pcb) (c : Option (ℕ × List ℕ)) → claims (update_pcb pid f ps) c ≡ claims ps c
  claims-update same [] c = refl
  claims-update same (q ∷ ps) c = elim (Bool-cases (q.pid == pid)) [
    | inl e ↦ rw (e, keeps q, same q) refl
    | inr n ↦ rw n (ap (λ t. with_pid q.pid (pcb_frames q) ++ t) (claims-update same ps c))
  ]

pub IsCreation-update :
    (images pid : ℕ) (f : Pcb → Pcb) (ps ps' : List Pcb) (p : Pcb) (c : Option (ℕ × List ℕ))
    → find_pcb pid ps ≡ some p
    → ((j : ℕ) → find_pcb j ps' ≡ (if j == pid then some (f p) else find_pcb j ps))
    → IsCreation images ps c
    → IsCreation images ps' c
IsCreation-update images pid f ps ps' p none h e i = tt
IsCreation-update images pid f ps ps' p (some (x, fs)) h e (a, b, n) =
    (a, b, e x ∙ ground (arith, h, n))
