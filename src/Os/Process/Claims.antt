-- ===== src/Os/Process/Claims.antt =====
-- The claims of a table from which one process has gone.
use systemscope.Base.{
  ℕ, ◌≤◌, ◌≡◌, ◌≢◌, refl, ap, sym, ◌∙◌, subst, false, Option, some, List, [], ◌∷◌, ◌++◌, arith, All,
  All-map, All-both, contains, ◌==◌, ==_iff, Bool-cases, inl, inr, ◌||◌,
}
use mathlib.Core.Option.{some-injective}
use systemscope.Os.Frames.{Frames, owner}
use systemscope.Os.Frames.Sets.{at_element}
use systemscope.Os.Frames.Release.{IsReleased}
use systemscope.Os.Process.{ProcState, Pcb, pcb_frames, find_pcb, update_pcb, ended}
use systemscope.Os.Process.Check.{claims, with_pid, creation_claims}
use systemscope.Os.Process.Accounts.{IsDistinct, IsAccounted, ppns_of}
use systemscope.Os.Process.Table.{IsOrdered}
use systemscope.Os.Process.Table.Queue.{contains-append}

pub ppns_of-with_pid :
    (pid : ℕ) (fs : List ℕ) (cs : List (ℕ × ℕ)) → ppns_of (with_pid pid fs ++ cs) ≡ fs ++ ppns_of cs
ppns_of-with_pid pid [] cs = refl
ppns_of-with_pid pid (x ∷ fs) cs = ap (λ t. x ∷ t) (ppns_of-with_pid pid fs cs)

pub split_claims {κ} :
    (P : ℕ × ℕ → Type κ) (pid : ℕ) (fs : List ℕ) (cs : List (ℕ × ℕ))
    → All P (with_pid pid fs ++ cs)
    → All (λ x. P (pid, x)) fs × All P cs
split_claims P pid [] cs h = (tt, h)
split_claims P pid (x ∷ fs) cs (p, h) = let (a, b) = split_claims P pid fs cs h in ((p, a), b)

pub join_claims {κ} :
    (P : ℕ × ℕ → Type κ) (pid : ℕ) (fs : List ℕ) (cs : List (ℕ × ℕ))
    → All (λ x. P (pid, x)) fs
    → All P cs
    → All P (with_pid pid fs ++ cs)
join_claims P pid [] cs a h = h
join_claims P pid (x ∷ fs) cs (p, a) h = (p, join_claims P pid fs cs a h)

pub all_frames {κ} : (P : ℕ → Type κ) (fs : List ℕ) → ((x : ℕ) → P x) → All P fs
all_frames P [] h = tt
all_frames P (x ∷ fs) h = (h x, all_frames P fs h)

IsDistinct-later : (xs ys : List ℕ) → IsDistinct (xs ++ ys) → IsDistinct ys
IsDistinct-later [] ys d = d
IsDistinct-later (x ∷ xs) ys (n, d) = IsDistinct-later xs ys d

-- A list with fewer elements after the same start.
IsDistinct-fewer :
    (xs ys zs : List ℕ)
    → IsDistinct (xs ++ ys)
    → IsDistinct zs
    → ((x : ℕ) → contains x ys ≡ false → contains x zs ≡ false)
    → IsDistinct (xs ++ zs)
IsDistinct-fewer [] ys zs d e h = e
IsDistinct-fewer (x ∷ xs) ys zs (n, d) e h = (
  ground (arith, n, contains-append x xs ys, contains-append x xs zs, h x),
  IsDistinct-fewer xs ys zs d e h,
)

-- The claims of the processes after `last` and of the creation, where it is another process.
pub other_pids :
    (images last pid : ℕ) (ps : List Pcb) (c : Option (ℕ × List ℕ))
    → IsOrdered images last ps
    → pid ≤ last
    → All (λ c. c.0 ≢ pid) (creation_claims c)
    → All (λ c. c.0 ≢ pid) (claims ps c)
other_pids images last pid [] c o h a = a
other_pids images last pid (p ∷ ps) c (l, b, st, o) h a =
    join_claims (λ c. c.0 ≢ pid) p.pid (pcb_frames p) (claims ps c)
      (all_frames (λ x. p.pid ≢ pid) (pcb_frames p) (λ x e. absurd (omega (arith, e))))
      (other_pids images p.pid pid ps c o (omega arith) a)

module _ (pid : ℕ) (st : ProcState) (c : Option (ℕ × List ℕ)) where
  abbrev pub left : List Pcb → List (ℕ × ℕ)
  left ps = claims (update_pcb pid (ended st) ps) c

  pub contains-claims :
      (x : ℕ) (ps : List Pcb) (p : Pcb)
      → find_pcb pid ps ≡ some p
      → contains x (ppns_of (claims ps c))
        ≡ (contains x (pcb_frames p) || contains x (ppns_of (left ps)))
  contains-claims x [] p h = absurd cc
  contains-claims x (q ∷ ps) p h = elim (Bool-cases (q.pid == pid)) [
    | inl e ↦
        let is : q ≡ p = ground (arith, h, e) in
        subst
          (λ (r : Pcb).
            contains x (ppns_of (claims (q ∷ ps) c))
            ≡ (contains x (pcb_frames r) || contains x (ppns_of (left (q ∷ ps)))))
          is
          (rw (e, ppns_of-with_pid q.pid (pcb_frames q) (claims ps c))
            (contains-append x (pcb_frames q) (ppns_of (claims ps c))))
    | inr n ↦
        rw
          (
            n,
            ppns_of-with_pid q.pid (pcb_frames q) (claims ps c),
            ppns_of-with_pid q.pid (pcb_frames q) (left ps),
          )
          (ground (
            arith,
            contains-append x (pcb_frames q) (ppns_of (claims ps c)),
            contains-append x (pcb_frames q) (ppns_of (left ps)),
            contains-claims x ps p (ground (arith, h, n)),
          ))
  ]

  pub All-left {κ} : (P : ℕ × ℕ → Type κ) (ps : List Pcb) → All P (claims ps c) → All P (left ps)
  All-left P [] h = h
  All-left P (q ∷ ps) h =
      let (a, b) = split_claims P q.pid (pcb_frames q) (claims ps c) h in
      elim (Bool-cases (q.pid == pid)) [
        | inl e ↦ rw e b
        | inr n ↦ rw n (join_claims P q.pid (pcb_frames q) (left ps) a (All-left P ps b))
      ]

  left-IsDistinct :
      (ps : List Pcb) (p : Pcb)
      → find_pcb pid ps ≡ some p
      → IsDistinct (ppns_of (claims ps c))
      → IsDistinct (ppns_of (left ps))
  left-IsDistinct [] p h d = d
  left-IsDistinct (q ∷ ps) p h d =
      let d' = subst IsDistinct (ppns_of-with_pid q.pid (pcb_frames q) (claims ps c)) d in
      let tail = IsDistinct-later (pcb_frames q) (ppns_of (claims ps c)) d' in
      elim (Bool-cases (q.pid == pid)) [
        | inl e ↦ rw e tail
        | inr n ↦
            let f : find_pcb pid ps ≡ some p = ground (arith, h, n) in
            rw (n, ppns_of-with_pid q.pid (pcb_frames q) (left ps))
              (IsDistinct-fewer (pcb_frames q) (ppns_of (claims ps c)) (ppns_of (left ps)) d'
                (left-IsDistinct ps p f tail) (λ x m. ground (arith, m, contains-claims x ps p f)))
      ]

  pub left_pids :
      (images last : ℕ) (ps : List Pcb) (p : Pcb)
      → IsOrdered images last ps
      → find_pcb pid ps ≡ some p
      → All (λ c. c.0 ≢ pid) (creation_claims c)
      → All (λ c. c.0 ≢ pid) (left ps)
  left_pids images last [] p o h a = a
  left_pids images last (q ∷ ps) p (l, b, s, o) h a = elim (Bool-cases (q.pid == pid)) [
    | inl e ↦ rw e (other_pids images q.pid pid ps c o (omega (arith, (==_iff q.pid pid).0 e)) a)
    | inr n ↦ rw n (
        join_claims (λ c. c.0 ≢ pid) q.pid (pcb_frames q) (left ps)
          (all_frames (λ x. q.pid ≢ pid) (pcb_frames q) (λ x e. ground (arith, e, n)))
          (left_pids images q.pid ps p o (ground (arith, h, n)) a))
  ]

  -- The frames of the block that is found, among the claims.
  pub found_frames :
      (P : ℕ × ℕ → Type 0) (ps : List Pcb) (p : Pcb)
      → find_pcb pid ps ≡ some p
      → All P (claims ps c)
      → All (λ x. P (pid, x)) (pcb_frames p)
  found_frames P [] p h a = absurd cc
  found_frames P (q ∷ ps) p h a =
      let (b, d) = split_claims P q.pid (pcb_frames q) (claims ps c) a in
      elim (Bool-cases (q.pid == pid)) [
        | inl e ↦
            let is : q ≡ p = ground (arith, h, e) in
            subst (λ (r : Pcb). All (λ x. P (pid, x)) (pcb_frames r)) is
              (subst (λ n. All (λ x. P (n, x)) (pcb_frames q)) ((==_iff q.pid pid).0 e) b)
        | inr n ↦ found_frames P ps p (ground (arith, h, n)) d
      ]

  pub left-IsAccounted :
      (images : ℕ) (ps : List Pcb) (p : Pcb) (f f' : Frames)
      → IsOrdered images 0 ps
      → find_pcb pid ps ≡ some p
      → All (λ c. c.0 ≢ pid) (creation_claims c)
      → IsAccounted f (claims ps c)
      → IsReleased f (pcb_frames p) f'
      → IsAccounted f' (left ps)
  left-IsAccounted images ps p f f' o h n a r =
      let mine = found_frames (λ c. owner f c.1 ≡ some c.0) ps p h a.owned in
      let kept =
        All-both (λ c. owner f c.1 ≡ some c.0) (λ c. c.0 ≢ pid) (left ps)
          (All-left (λ c. owner f c.1 ≡ some c.0) ps a.owned) (left_pids images 0 ps p o h n) in
      record {
        owned =
            All-map
              (λ k w. elim (Bool-cases (contains k.1 (pcb_frames p))) [
                | inl t ↦ absurd (
                    w.1 (
                      some-injective _ _ (
                        sym w.0
                        ∙ at_element (λ x. owner f x ≡ some pid) k.1 (pcb_frames p) mine t)))
                | inr m ↦ r.owners k.1 ∙ rw m w.0
              ])
              (left ps) kept;
        single = left-IsDistinct ps p h a.single;
        others =
            λ x u own m. ground (arith, own, m, r.owners x, contains-claims x ps p h, a.others x u);
      }
