-- ===== src/Os/Process/Accounts.antt =====
-- The frame pool against the frames that the processes list.
pub mod Counted
use systemscope.Base.{
  ℕ, zero, suc, ◌+◌, ◌-◌, ◌%◌, ◌^◌, ◌≤◌, ◌≡◌, ◌≢◌, refl, sym, ◌∙◌, subst, true, false, none, some,
  ok, List, [], ◌∷◌, arith, length, length-set, length-replicate, get_elem?, get_elem?-replicate,
  get_or, get_or-get_elem?, get_elem?-past, get_elem?-set_self, get_elem?-set_ne, replicate, set,
  All, All-map, All-both, contains, ◌==◌, ==_iff, if◌then◌else◌, Bool-cases, Option-cases,
  Result-cases, inl, inr,
}
use systemscope.Os.Frames.{Frames, owner, index}
use systemscope.Os.Frames.Laws.{IsPool, owner-entry, owner-below, below_or_at, in_range}
use systemscope.Os.Process.Check.{slot, claim, check_owners, check_frames}

abbrev pub ppns_of : List (ℕ × ℕ) → List ℕ
ppns_of [] = []
ppns_of ((pid, ppn) ∷ cs) = ppn ∷ ppns_of cs

-- No element twice.
abbrev pub IsDistinct : List ℕ → Type 0
IsDistinct [] = Unit
IsDistinct (x ∷ xs) = (contains x xs ≡ false) × IsDistinct xs

-- Every claimed frame is owned by its claimant and claimed once, and every other frame of the pool
-- is free.
pub record IsAccounted (f : Frames) (cs : List (ℕ × ℕ)) : Type 0 where
  pub owned : All (λ c. owner f c.1 ≡ some c.0) cs
  pub single : IsDistinct (ppns_of cs)
  pub others : (ppn o : ℕ) → owner f ppn ≡ some o → contains ppn (ppns_of cs) ≡ false → o ≡ 0

-- A claim of a frame that is among the claims.
pub claim_at {κ} :
    (P : ℕ × ℕ → Type κ) (ppn : ℕ) (cs : List (ℕ × ℕ))
    → All P cs
    → contains ppn (ppns_of cs) ≡ true
    → (pid : ℕ) × P (pid, ppn)
claim_at P ppn [] h e = absurd cc
claim_at P ppn ((pid, q) ∷ cs) (p, h) e = elim (Bool-cases (ppn == q)) [
  | inl t ↦ (pid, subst (λ x. P (pid, x)) (sym ((==_iff ppn q).0 t)) p)
  | inr n ↦ claim_at P ppn cs h (ground (arith, e, n))
]

-- A write through a slot.
slot-set :
    (base : ℕ) (e : List ℕ) (p q v x : ℕ)
    → slot base e p ≡ some x
    → slot base (set e (p - base) v) q ≡ (if q == p then some v else slot base e q)
slot-set base e p q v x h = ground (
  arith,
  in_range e (p - base) x,
  get_elem?-set_self e (p - base) v,
  get_elem?-set_ne e (p - base) (q - base) v,
)

-- What the loop leaves in `e'`.
pub record IsClaimed (base : ℕ) (e e' : List ℕ) (cs : List (ℕ × ℕ)) : Type 0 where
  pub was_free : All (λ c. slot base e c.1 ≡ some 0) cs
  pub after : All (λ c. slot base e' c.1 ≡ some c.0) cs
  pub single : IsDistinct (ppns_of cs)
  pub others : (ppn : ℕ) → contains ppn (ppns_of cs) ≡ false → slot base e' ppn ≡ slot base e ppn
  pub size : length e' ≡ length e

-- The cases of a round.
claim-cons :
    (base : ℕ) (e : List ℕ) (pid ppn : ℕ) (cs : List (ℕ × ℕ)) {e' : List ℕ}
    → claim base e ((pid, ppn) ∷ cs) ≡ ok e'
    → (slot base e ppn ≡ some 0) × (claim base (set e (ppn - base) pid) cs ≡ ok e')
unfolding claim
claim-cons base e pid ppn cs h = ground (arith, h)

module _ (base pid ppn : ℕ) (positive : pid ≢ 0) (e e' : List ℕ) (cs : List (ℕ × ℕ)) where
  claim_step :
      slot base e ppn ≡ some 0
      → IsClaimed base (set e (ppn - base) pid) e' cs
      → IsClaimed base e e' ((pid, ppn) ∷ cs)
  claim_step z c = elim (Bool-cases (contains ppn (ppns_of cs))) [
    | inl t ↦
        let (p, s) =
          claim_at (λ c. slot base (set e (ppn - base) pid) c.1 ≡ some 0) ppn cs c.was_free t in
        absurd (positive (ground (arith, s, slot-set base e ppn ppn pid 0 z)))
    | inr n ↦ record {
      was_free = (z, All-map was_free_of cs c.was_free);
      after = (c.others ppn n ∙ (slot-set base e ppn ppn pid 0 z ∙ ground arith), c.after);
      single = (n, c.single);
      others = λ q h. ground (arith, h, c.others q, slot-set base e ppn q pid 0 z);
      size = c.size ∙ length-set e (ppn - base) pid;
    }
  ]
    where
      was_free_of :
          (c : ℕ × ℕ) → slot base (set e (ppn - base) pid) c.1 ≡ some 0 → slot base e c.1 ≡ some 0
      was_free_of c h = ground (arith, h, slot-set base e ppn c.1 pid 0 z)

abbrev pub ArePids : List (ℕ × ℕ) → Type 0
ArePids cs = All (λ c. c.0 ≢ 0) cs

pub claim-IsClaimed :
    (base : ℕ) (e e' : List ℕ) (cs : List (ℕ × ℕ))
    → ArePids cs
    → claim base e cs ≡ ok e'
    → IsClaimed base e e' cs
unfolding claim
claim-IsClaimed base e e' [] ps h =
    let same : e ≡ e' = ground (arith, h) in
    subst (λ x. IsClaimed base e x []) same
      (record { was_free = tt; after = tt; single = tt; others = λ ppn n. refl; size = refl })
claim-IsClaimed base e e' ((pid, ppn) ∷ cs) (p, ps) h =
    let (z, r) = claim-cons base e pid ppn cs h in
    claim_step base pid ppn p e e' cs z (claim-IsClaimed base (set e (ppn - base) pid) e' cs ps r)

pub claim-ok :
    (base : ℕ) (e : List ℕ) (cs : List (ℕ × ℕ))
    → All (λ c. slot base e c.1 ≡ some 0) cs
    → IsDistinct (ppns_of cs)
    → (e' : List ℕ) × (claim base e cs ≡ ok e')
unfolding claim
claim-ok base e [] b d = (e, refl)
claim-ok base e ((pid, ppn) ∷ cs) (z, b) (n, d) =
    let (e', r) = claim-ok base (set e (ppn - base) pid) cs (kept cs b n) d in
    (e', ground (arith, z, r))
  where
    kept :
        (l : List (ℕ × ℕ))
        → All (λ c. slot base e c.1 ≡ some 0) l
        → contains ppn (ppns_of l) ≡ false
        → All (λ c. slot base (set e (ppn - base) pid) c.1 ≡ some 0) l
    kept [] h m = tt
    kept ((a, q) ∷ l) (y, h) m =
        (ground (arith, y, m, slot-set base e ppn q pid 0 z), kept l h (ground (arith, m)))
