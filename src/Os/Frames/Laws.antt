-- ===== src/Os/Frames/Laws.antt =====
-- Laws of the frame allocator.
use systemscope.Base.{
  ℕ, suc, ◌+◌, ◌-◌, ◌≤◌, ◌<◌, ◌%◌, ◌^◌, ◌≡◌, ◌≢◌, refl, ap, sym, ◌∙◌, false, none, some, List, [],
  ◌∷◌, map, arith, length, get_elem?, take, All, All-map, All-take, contains, IsAscending,
  take-IsAscending, if◌then◌else◌, Bool-cases, inl, inr, ◌⊎◌, ltb, subst, get_or-get_elem?,
  get_elem?-past,
}
use systemscope.Os.Frames.{Frames, owner, index, reserve, free_indices, set_all, free_count}
use systemscope.Os.Frames.Sets.{
  contains-free_indices, free_indices-zero, free_indices-IsAscending, take-lowest, length-take,
  length-take_short, get_elem?-set_all, length-free_indices,
}

-- The pool's frames are below 2 ^ 32.
pub record IsPool (f : Frames) : Type 0 where
  pub bound : f.base + length f.owners ≤ 2 ^ 32

-- `n` frames, ascending, that were free and now are `pid`'s; the free frames left are above them,
-- and no other frame has changed.
pub record IsReserved (f : Frames) (pid n : ℕ) (ppns : List ℕ) (f' : Frames) : Type 0 where
  pub count : length ppns ≡ n
  pub ascending : IsAscending ppns
  pub were_free : All (λ p. owner f p ≡ some 0) ppns
  pub lowest : (p : ℕ) → owner f p ≡ some 0 → contains p ppns ≡ false → All (λ q. q < p) ppns
  pub owners : (p : ℕ) → owner f' p ≡ (if contains p ppns then some pid else owner f p)
  pub base : f'.base ≡ f.base

pub owner-entry : (f : Frames) (i : ℕ) → owner f (f.base + i) ≡ get_elem? f.owners i
unfolding owner index
owner-entry f i = ground (arith, get_or-get_elem? f.owners i 0, get_elem?-past f.owners i)

pub owner-below : (f : Frames) (p : ℕ) → p < f.base → owner f p ≡ none
unfolding owner index
owner-below f p h = ground arith

-- The frames of a list of indices.
frames_of : ℕ → List ℕ → List ℕ
frames_of b is = map (λ i. b + i % 2 ^ 32) is

contains-frames_of :
    (b m i : ℕ) (is : List ℕ)
    → b + m ≤ 2 ^ 32
    → All (λ j. j < m) is
    → contains (b + i) (frames_of b is) ≡ contains i is
unfolding frames_of
contains-frames_of b m i [] h a = refl
contains-frames_of b m i (j ∷ is) h (l, a) = ground (arith, contains-frames_of b m i is h a)

contains-frames_of_below :
    (b m p : ℕ) (is : List ℕ)
    → b + m ≤ 2 ^ 32
    → All (λ j. j < m) is
    → p < b
    → contains p (frames_of b is) ≡ false
unfolding frames_of
contains-frames_of_below b m p [] h a l = refl
contains-frames_of_below b m p (j ∷ is) h (k, a) l =
    ground (arith, contains-frames_of_below b m p is h a l)

All-frames_of {κ} :
    (P : ℕ → Type κ) (b m : ℕ) (is : List ℕ)
    → b + m ≤ 2 ^ 32
    → All (λ j. j < m) is
    → All (λ i. P (b + i)) is
    → All P (frames_of b is)
unfolding frames_of
All-frames_of P b m [] h a ps = tt
All-frames_of P b m (j ∷ is) h (k, a) (p, ps) =
    (subst P (omega arith) p, All-frames_of P b m is h a ps)

frames_of-IsAscending :
    (b m : ℕ) (is : List ℕ)
    → b + m ≤ 2 ^ 32
    → All (λ j. j < m) is
    → IsAscending is
    → IsAscending (frames_of b is)
unfolding frames_of
frames_of-IsAscending b m [] h a s = tt
frames_of-IsAscending b m (j ∷ is) h (k, a) (l, s) = (
  All-frames_of _ b m is h a (All-map (λ i e. omega arith) is l),
  frames_of-IsAscending b m is h a s,
)

length-frames_of : (b : ℕ) (is : List ℕ) → length (frames_of b is) ≡ length is
unfolding frames_of
length-frames_of b [] = refl
length-frames_of b (j ∷ is) = ap suc (length-frames_of b is)

-- A frame is below the base, or at an index from it.
pub below_or_at : (b p : ℕ) → (p < b) ⊎ ((i : ℕ) × (p ≡ b + i))
below_or_at b p = elim (Bool-cases (ltb p b)) [
  | inl e ↦ inl (ground (arith, e))
  | inr e ↦ inr (p - b, ground (arith, e))
]

pub in_range : (os : List ℕ) (i v : ℕ) → get_elem? os i ≡ some v → i < length os
in_range os i v e = ground (arith, e, get_elem?-past os i)

module _ (f : Frames) (pool : IsPool f) (pid n : ℕ) where
  abbrev taken : List ℕ
  taken = take n (free_indices 0 f.owners)

  abbrev after : Frames
  after = record f { owners = set_all f.owners taken pid }

  taken_zero : All (λ i. get_elem? f.owners i ≡ some 0) taken
  taken_zero = All-take _ n _ (free_indices-zero f.owners)

  taken_bound : All (λ i. i < length f.owners) taken
  taken_bound = All-map (λ i e. in_range f.owners i 0 e) taken taken_zero

  owner-after_at :
      (i : ℕ)
      → owner after (f.base + i) ≡ (
          if contains (f.base + i) (frames_of f.base taken) then some pid else owner f (f.base + i))
  owner-after_at i =
      rw (contains-frames_of f.base (length f.owners) i taken pool.bound taken_bound) (
        rw (owner-entry f i)
          (owner-entry after i ∙ get_elem?-set_all f.owners taken pid i taken_bound))

  lowest_at :
      (i : ℕ)
      → owner f (f.base + i) ≡ some 0
      → contains (f.base + i) (frames_of f.base taken) ≡ false
      → All (λ q. q < f.base + i) (frames_of f.base taken)
  lowest_at i o c = All-frames_of _ f.base (length f.owners) taken pool.bound taken_bound (
      All-map (λ j e. omega arith) taken
        (take-lowest n i _ (free_indices-IsAscending 0 f.owners)
          (ground (arith, contains-free_indices 0 i f.owners, owner-entry f i, o))
          (sym (contains-frames_of f.base (length f.owners) i taken pool.bound taken_bound) ∙ c)))

  owner-after :
      (p : ℕ)
      → owner after p ≡ (if contains p (frames_of f.base taken) then some pid else owner f p)
  owner-after p = elim (below_or_at f.base p) [
    | inl l ↦
        rw (contains-frames_of_below f.base (length f.owners) p taken pool.bound taken_bound l)
          (owner-below after p l ∙ sym (owner-below f p l))
    | inr (i, e) ↦ rw e (owner-after_at i)
  ]

  taken_lowest :
      (p : ℕ)
      → owner f p ≡ some 0
      → contains p (frames_of f.base taken) ≡ false
      → All (λ q. q < p) (frames_of f.base taken)
  taken_lowest p o c = elim (below_or_at f.base p) [
    | inl l ↦ absurd (cc (owner-below f p l))
    | inr (i, e) ↦ rw e (
        lowest_at i (subst (λ x. owner f x ≡ some 0) e o)
          (subst (λ x. contains x (frames_of f.base taken) ≡ false) e c))
  ]

  taken-IsReserved : length taken ≡ n → IsReserved f pid n (frames_of f.base taken) after
  taken-IsReserved e = record {
    count = length-frames_of f.base taken ∙ e;
    ascending =
        frames_of-IsAscending f.base (length f.owners) taken pool.bound taken_bound
          (take-IsAscending n _ (free_indices-IsAscending 0 f.owners));
    were_free =
        All-frames_of _ f.base (length f.owners) taken pool.bound taken_bound
          (All-map (λ i h. owner-entry f i ∙ h) taken taken_zero);
    lowest = taken_lowest;
    owners = owner-after;
    base = refl;
  }

-- For a process other than 0, `reserve` on a pool below 2 ^ 32 gives nothing exactly when fewer
-- than `n` frames are free; else it gives the `n` lowest free frames, ascending, makes `pid` their
-- owner, and changes no other frame.
pub reserve-IsReserved :
    (f : Frames)
    → IsPool f
    → (pid n : ℕ) → pid ≢ 0
    → ((free_count f < n) × (reserve f pid n ≡ some none))
      ⊎ ((ppns : List ℕ) × (f' : Frames) × (reserve f pid n ≡ some (some (ppns, f')))
          × IsReserved f pid n ppns f')
unfolding reserve free_count frames_of
reserve-IsReserved f pool pid n h = elim (Bool-cases (ltb (free_count f) n)) [
  | inl e ↦ inl (
    ground (arith, e),
    ground
        (arith, e, length-free_indices 0 f.owners, length-take_short n (free_indices 0 f.owners)),
  )
  | inr e ↦ inr (
    frames_of f.base (taken f pool pid n),
    after f pool pid n,
    ground
        (arith, e, length-free_indices 0 f.owners, length-take_short n (free_indices 0 f.owners)),
    taken-IsReserved f pool pid n
        (length-take n _ (ground (arith, e, length-free_indices 0 f.owners))),
  )
]
