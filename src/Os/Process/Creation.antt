-- ===== src/Os/Process/Creation.antt =====
-- The claims of the creation in flight, beside those of the processes in the table.
pub mod Reordered
use mathlib.Core.List.{append_assoc, append-nil}
use mathlib.Core.Option.{some-injective}
use systemscope.Base.{
  ℕ, ◌≤◌, ◌<◌, ◌≡◌, ◌≢◌, refl, ap, sym, ◌∙◌, subst, true, false, Option, none, some, List, [], ◌∷◌,
  ◌++◌, arith, All, All-both, contains, IsAscending, ◌==◌, if◌then◌else◌, Bool-cases, inl, inr,
  ◌||◌, ◌↔◌,
}
use systemscope.Os.Frames.{Frames, owner, owner_is, owned_by}
use systemscope.Os.Frames.Sets.{at_element, All-contains}
use systemscope.Os.Frames.Owned.{owned_by-IsAscending, contains-owned_by}
use systemscope.Os.Process.{Pcb, pcb_frames, find_pcb, last_not_below, sort, list_eq}
use systemscope.Os.Process.Check.{claims, with_pid, creation_claims}
use systemscope.Os.Process.Accounts.{IsDistinct, IsAccounted, ppns_of, claim_at}
use systemscope.Os.Process.Table.{StateOf, IsOrdered}
use systemscope.Os.Process.Table.Queue.{contains-append}
use systemscope.Os.Process.Sorted.{
  contains-sort, sort-IsDistinct, IsAscending-IsDistinct, sort-IsAscending, ascending-ext,
  list_eq-eq, list_eq_refl,
}

pub find_pcb-snoc :
    (j : ℕ) (ps : List Pcb) (p : Pcb)
    → find_pcb j (ps ++ p ∷ [])
      ≡ (elim (find_pcb j ps) [ some q ↦ some q | none ↦ if p.pid == j then some p else none ])
find_pcb-snoc j [] p = refl
find_pcb-snoc j (q ∷ ps) p = ground (arith, find_pcb-snoc j ps p)

-- The last PID is below the new one, so all are.
last-lt :
    (images : ℕ) (p : Pcb) (ps : List Pcb) (pid : ℕ)
    → IsOrdered images p.pid ps
    → last_not_below (p ∷ ps) pid ≡ false
    → p.pid < pid
last-lt images p [] pid o h = ground (arith, h)
last-lt images p (q ∷ ps) pid (a, b, st, o) h =
    let l = last-lt images q ps pid o h in omega (arith, a, l)

pub IsOrdered-snoc :
    (images last : ℕ) (ps : List Pcb) (p : Pcb)
    → IsOrdered images last ps
    → last < p.pid
    → last_not_below ps p.pid ≡ false
    → p.pid ≤ images
    → StateOf p.state p
    → IsOrdered images last (ps ++ p ∷ [])
IsOrdered-snoc images last [] p o a l b st = (a, b, st, tt)
IsOrdered-snoc images last (q ∷ ps) p (c, d, sq, o) a l b st = (
  c,
  d,
  sq,
  IsOrdered-snoc images q.pid ps p o (last-lt images q ps p.pid o l) (later q ps p.pid l) b st,
)
  where
    later :
        (q : Pcb) (ps : List Pcb) (pid : ℕ)
        → last_not_below (q ∷ ps) pid ≡ false
        → last_not_below ps pid ≡ false
    later q [] pid l = refl
    later q (r ∷ ps) pid l = l

-- The claims of the processes in the table, before those of a creation.
pub claims-creation :
    (ps : List Pcb) (c : Option (ℕ × List ℕ)) → claims ps c ≡ claims ps none ++ creation_claims c
claims-creation [] c = refl
claims-creation (p ∷ ps) c =
    rw (claims-creation ps c)
      (sym (append_assoc (with_pid p.pid (pcb_frames p)) (claims ps none) (creation_claims c)))

pub claims-snoc :
    (ps : List Pcb) (p : Pcb)
    → claims (ps ++ p ∷ []) none ≡ claims ps none ++ with_pid p.pid (pcb_frames p)
claims-snoc [] p = append-nil (with_pid p.pid (pcb_frames p))
claims-snoc (q ∷ ps) p = rw (claims-snoc ps p) (
    sym (
      append_assoc (with_pid q.pid (pcb_frames q)) (claims ps none)
        (with_pid p.pid (pcb_frames p))))

-- The frames of claims, and of lists of claims one after the other.
pub ppns_of-append : (cs ds : List (ℕ × ℕ)) → ppns_of (cs ++ ds) ≡ ppns_of cs ++ ppns_of ds
ppns_of-append [] ds = refl
ppns_of-append ((pid, x) ∷ cs) ds = ap (λ t. x ∷ t) (ppns_of-append cs ds)

pub ppns_of-one : (pid : ℕ) (fs : List ℕ) → ppns_of (with_pid pid fs) ≡ fs
ppns_of-one pid [] = refl
ppns_of-one pid (x ∷ fs) = ap (λ t. x ∷ t) (ppns_of-one pid fs)

pub All-append {ℓ κ} :
    {A : Type ℓ} (P : A → Type κ) (xs ys : List A) → (All P xs × All P ys) ↔ All P (xs ++ ys)
All-append P [] ys = (λ h. h.1, λ h. (tt, h))
All-append P (x ∷ xs) ys = (
  λ h. (h.0.0, (All-append P xs ys).0 (h.0.1, h.1)),
  λ h. let (a, b) = (All-append P xs ys).1 h.1 in ((h.0, a), b),
)

pub with_pid-All {κ} :
    (P : ℕ × ℕ → Type κ) (pid : ℕ) (fs : List ℕ)
    → All P (with_pid pid fs)
    → All (λ x. P (pid, x)) fs
with_pid-All P pid [] h = tt
with_pid-All P pid (x ∷ fs) (p, h) = (p, with_pid-All P pid fs h)

pub All-with_pid {κ} :
    (P : ℕ × ℕ → Type κ) (pid : ℕ) (fs : List ℕ)
    → All (λ x. P (pid, x)) fs
    → All P (with_pid pid fs)
All-with_pid P pid [] h = tt
All-with_pid P pid (x ∷ fs) (p, h) = (p, All-with_pid P pid fs h)

pub IsDistinct-first : (xs ys : List ℕ) → IsDistinct (xs ++ ys) → IsDistinct xs
IsDistinct-first [] ys d = tt
IsDistinct-first (x ∷ xs) ys (n, d) =
    (ground (arith, n, contains-append x xs ys), IsDistinct-first xs ys d)

pub IsDistinct-join :
    (xs ys : List ℕ)
    → IsDistinct xs
    → IsDistinct ys
    → ((x : ℕ) → contains x xs ≡ true → contains x ys ≡ false)
    → IsDistinct (xs ++ ys)
IsDistinct-join [] ys d e h = e
IsDistinct-join (x ∷ xs) ys (n, d) e h = (
  ground (arith, n, contains-append x xs ys, h x),
  IsDistinct-join xs ys d e (λ z t. h z (ground (arith, t))),
)
