-- ===== src/Os/Frames/Owned.antt =====
-- What `owned_by` lists.
use systemscope.Base.{
  ℕ, zero, suc, ◌+◌, ◌≤◌, ◌≡◌, refl, List, [], ◌∷◌, arith, All, All-map, contains, IsAscending,
  ◌==◌, if-cases, inl, inr, get_elem?,
}
use systemscope.Os.Frames.{Frames, owner, owner_is, owned_by, owned_from}
use systemscope.Os.Frames.Sets.{contains-below}
use systemscope.Os.Frames.Laws.{owner-entry, owner-below, below_or_at}

-- The frames that the pool lists for a process.
owned_from-ge : (pid ppn : ℕ) (os : List ℕ) → All (λ x. ppn ≤ x) (owned_from pid ppn os)
unfolding owned_from
owned_from-ge pid ppn [] = tt
owned_from-ge pid ppn (o ∷ os) =
    let rest =
      All-map {Q = λ x. ppn ≤ x} (λ x h. omega (arith, h)) _ (owned_from-ge pid (suc ppn) os) in
    if-cases (All (λ x. ppn ≤ x)) (o == pid) (λ e. (omega arith, rest)) (λ e. rest)

owned_from-IsAscending : (pid ppn : ℕ) (os : List ℕ) → IsAscending (owned_from pid ppn os)
unfolding owned_from
owned_from-IsAscending pid ppn [] = tt
owned_from-IsAscending pid ppn (o ∷ os) =
    let rest = owned_from-IsAscending pid (suc ppn) os in
    if-cases IsAscending (o == pid)
      (λ e. (All-map (λ x h. omega (arith, h)) _ (owned_from-ge pid (suc ppn) os), rest))
      (λ e. rest)

contains-owned_from :
    (pid ppn j : ℕ) (os : List ℕ)
    → contains (ppn + j) (owned_from pid ppn os) ≡ owner_is (get_elem? os j) pid
unfolding owned_from
contains-owned_from pid ppn j [] = refl
contains-owned_from pid ppn zero (o ∷ os) = ground (
  arith,
  contains-below (ppn + 0) _ (All-map (λ i h. omega (arith, h)) _ (owned_from-ge pid (suc ppn) os)),
)
contains-owned_from pid ppn (suc j) (o ∷ os) =
    ground (arith, contains-owned_from pid (suc ppn) j os)

pub owned_by-IsAscending : (f : Frames) (pid : ℕ) → IsAscending (owned_by f pid)
unfolding owned_by
owned_by-IsAscending f pid = owned_from-IsAscending pid f.base f.owners

pub contains-owned_by :
    (f : Frames) (pid x : ℕ) → contains x (owned_by f pid) ≡ owner_is (owner f x) pid
unfolding owned_by
contains-owned_by f pid x = elim (below_or_at f.base x) [
  | inl b ↦
      let above = owned_from-ge pid f.base f.owners in
      rw (owner-below f x b) (contains-below x _ (All-map (λ y h. omega (arith, h, b)) _ above))
  | inr (j, e) ↦ rw (e, owner-entry f j) (contains-owned_from pid f.base j f.owners)
]
