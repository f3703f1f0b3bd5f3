-- ===== src/Os/Frames/Release.antt =====
-- Laws of `release`: whom it blames, what it frees, and that it undoes `reserve`.
use systemscope.Base.{
  ℕ, ◌+◌, ◌-◌, ◌<◌, ◌≡◌, ◌≢◌, refl, ap, sym, ◌∙◌, none, some, List, [], ◌∷◌, arith, length,
  get_elem?, set, All, All-map, contains, ◌==◌, ◌&&◌, not, ok, err, ◌⊎◌, if◌then◌else◌, Bool-cases,
  Option-cases, inl, inr, subst, get_elem?-set_self, get_elem?-set_ne, get_elem?-ext,
}
use mathlib.Core.Option.{some-injective, none-ne-some}
use systemscope.Os.Frames.Sets.{All-contains, at_element}
use systemscope.Os.Frames.{
  Frames, FrameError, owner, index, reserve, release, check_release, clear_all,
}
use systemscope.Os.Frames.Laws.{
  IsPool, IsReserved, reserve-IsReserved, owner-entry, owner-below, below_or_at,
}

-- A frame that `pid` may free.
abbrev pub Owned : Frames → ℕ → ℕ → Type 0
Owned f pid p = (owner f p ≡ some pid) × (pid ≢ 0)

-- The error names the first frame of the list that `pid` may not free, and why.
pub data Blames (f : Frames) (pid : ℕ) : List ℕ → FrameError → Type 0 where
  outside :
      {p : ℕ} {ps : List ℕ} → owner f p ≡ none → Blames f pid (p ∷ ps) (FrameError.outside_pool p)
  foreign :
      {p o : ℕ} {ps : List ℕ}
      → owner f p ≡ some o
      → (o ≢ pid) ⊎ (pid ≡ 0)
      → Blames f pid (p ∷ ps) (FrameError.not_owned p)
  later :
      {p : ℕ} {ps : List ℕ} {e : FrameError}
      → Owned f pid p
      → Blames f pid ps e
      → Blames f pid (p ∷ ps) e

-- The frames of the list are free, and no other frame has changed.
pub record IsReleased (f : Frames) (ppns : List ℕ) (f' : Frames) : Type 0 where
  pub owners : (p : ℕ) → owner f' p ≡ (if contains p ppns then some 0 else owner f p)
  pub base : f'.base ≡ f.base

index-owner :
    (f : Frames) (p o : ℕ)
    → owner f p ≡ some o
    → (i : ℕ) × (index f p ≡ some i) × (p ≡ f.base + i) × (i < length f.owners)
unfolding owner index
index-owner f p o e = (p - f.base, ground (arith, e), ground (arith, e), ground (arith, e))

owner-set :
    (f : Frames) (i q : ℕ)
    → i < length f.owners
    → owner (record f { owners = set f.owners i 0 }) q
      ≡ (if q == f.base + i then some 0 else owner f q)
owner-set f i q l = elim (below_or_at f.base q) [
  | inl b ↦
      ground (arith, owner-below f q b, owner-below (record f { owners = set f.owners i 0 }) q b)
  | inr (j, e) ↦ ground (
    arith,
    e,
    owner-entry f j,
    owner-entry (record f { owners = set f.owners i 0 }) j,
    get_elem?-set_self f.owners i 0 l,
    get_elem?-set_ne f.owners i j 0,
  )
]

-- The second loop, when the first has passed: every frame is in the pool.
clear_all-IsReleased :
    (f : Frames) (ppns : List ℕ)
    → All (λ p. (o : ℕ) × (owner f p ≡ some o)) ppns
    → (f' : Frames) × (clear_all f ppns ≡ some f') × IsReleased f ppns f'
unfolding clear_all
clear_all-IsReleased f [] h = (f, refl, record { owners = λ p. refl; base = refl })
clear_all-IsReleased f (p ∷ ppns) ((o, e), h) =
    let (i, at, p_is, l) = index-owner f p o e in
    let f1 = record f { owners = set f.owners i 0 } in
    let still =
      All-map {P = λ q. (o : ℕ) × (owner f q ≡ some o)} {Q = λ q. (o : ℕ) × (owner f1 q ≡ some o)}
        (λ q (o, e). still_owned q i o l e) ppns h in
    let (f', done, free) = clear_all-IsReleased f1 ppns still in
    (
      f',
      rw (clear_all, at) done,
      record {
        owners = λ q. ground (arith, free.owners q, owner-set f i q l, p_is);
        base = free.base;
      },
    )
  where
    still_owned :
        (q i o : ℕ)
        → i < length f.owners
        → owner f q ≡ some o
        → (o' : ℕ) × (owner (record f { owners = set f.owners i 0 }) q ≡ some o')
    still_owned q i o l e = elim (Bool-cases (q == f.base + i)) [
      | inl t ↦ (0, ground (arith, t, owner-set f i q l))
      | inr t ↦ (o, ground (arith, t, e, owner-set f i q l))
    ]

-- The first loop.
check_release-Blames :
    (f : Frames) (pid : ℕ) (ppns : List ℕ)
    → ((check_release f pid ppns ≡ none) × All (Owned f pid) ppns)
      ⊎ ((e : FrameError) × (check_release f pid ppns ≡ some e) × Blames f pid ppns e)
unfolding check_release
check_release-Blames f pid [] = inl (refl, tt)
check_release-Blames f pid (p ∷ ppns) = elim (Option-cases (owner f p)) [
  | inl n ↦ inr (FrameError.outside_pool p, rw (check_release, n) refl, outside n)
  | inr (o, e) ↦ elim (Bool-cases (o == pid && not (pid == 0))) [
    | inl t ↦ elim (check_release-Blames f pid ppns) [
      | inl (c, a) ↦ inl (
        rw (check_release, e) (ground (arith, t, c)),
        ((ground (arith, t, e), ground (arith, t)), a),
      )
      | inr (x, c, b) ↦ inr (
        x,
        rw (check_release, e) (ground (arith, t, c)),
        later (ground (arith, t, e), ground (arith, t)) b,
      )
    ]
    | inr t ↦ inr (
      FrameError.not_owned p,
      rw (check_release, e) (ground (arith, t)),
      foreign e (ground (arith, t)),
    )
  ]
]

-- `release` never fails its `expect`. It frees every listed frame and changes no other when `pid`,
-- which is not 0, owns all of them; else its error names the first frame that is outside the pool
-- or that `pid` does not own.
pub release-IsReleased :
    (f : Frames) (pid : ℕ) (ppns : List ℕ)
    → (All (Owned f pid) ppns
        × ((f' : Frames) × (release f pid ppns ≡ some (ok f')) × IsReleased f ppns f'))
      ⊎ ((e : FrameError) × (release f pid ppns ≡ some (err e)) × Blames f pid ppns e)
unfolding release
release-IsReleased f pid ppns = elim (check_release-Blames f pid ppns) [
  | inl (c, a) ↦
      let (f', done, free) = clear_all-IsReleased f ppns (
        All-map {P = Owned f pid} {Q = λ q. (o : ℕ) × (owner f q ≡ some o)} (λ q h. (pid, h.0)) ppns
          a) in
      inl (a, (f', rw (release, c) (rw done refl), free))
  | inr (e, c, b) ↦ inr (e, rw (release, c) refl, b)
]

-- Pools with the same base and the same owner of every frame are equal.
owner-ext : (f g : Frames) → f.base ≡ g.base → ((p : ℕ) → owner f p ≡ owner g p) → f ≡ g
owner-ext f g b h = λ i. record { base = b i; owners = owners_path i }
  where
    owners_path : f.owners ≡ g.owners
    owners_path = get_elem?-ext f.owners g.owners λ i.
        sym (owner-entry f i)
        ∙ h (f.base + i)
        ∙ subst (λ c. owner g (c + i) ≡ get_elem? g.owners i) (sym b) (owner-entry g i)

pub Owned-Blames :
    {f : Frames} {pid : ℕ} {ppns : List ℕ} {e : FrameError}
    → Blames f pid ppns e
    → All (Owned f pid) ppns
    → ⊥
Owned-Blames (outside {p} {ps} h) a = none-ne-some _ (sym h ∙ a.0.0)
Owned-Blames (foreign h (inl d)) a = d (some-injective _ _ (sym h ∙ a.0.0))
Owned-Blames (foreign h (inr z)) a = a.0.1 z
Owned-Blames (later o b) a = Owned-Blames b a.1

module _ (f : Frames) (pid n : ℕ) (d : pid ≢ 0) where
  reserved-Owned :
      (ppns : List ℕ) (f' : Frames) → IsReserved f pid n ppns f' → All (Owned f' pid) ppns
  reserved-Owned ppns f' r = All-contains (Owned f' pid) ppns λ p c. (r.owners p ∙ rw c refl, d)

  undone :
      (ppns : List ℕ) (f' g : Frames) → IsReserved f pid n ppns f' → IsReleased f' ppns g → g ≡ f
  undone ppns f' g r s = owner-ext g f (s.base ∙ r.base) λ p. elim (Bool-cases (contains p ppns)) [
    | inl c ↦ s.owners p ∙ rw c (sym (at_element (λ q. owner f q ≡ some 0) p ppns r.were_free c))
    | inr c ↦ s.owners p ∙ rw c (r.owners p ∙ rw c refl)
  ]

  release_reserved :
      (ppns : List ℕ) (f' : Frames) → IsReserved f pid n ppns f' → release f' pid ppns ≡ some (ok f)
  release_reserved ppns f' r = elim (release-IsReleased f' pid ppns) [
    | inl (a, (g, e, s)) ↦ e ∙ ap (λ x. some (ok x)) (undone ppns f' g r s)
    | inr (e, h, b) ↦ absurd (Owned-Blames b (reserved-Owned ppns f' r))
  ]

-- Releasing what `reserve` gave, for the same process, restores the pool as it was.
pub release-reserve :
    (f : Frames)
    → IsPool f
    → (pid n : ℕ) → pid ≢ 0
    → (ppns : List ℕ) (f' : Frames) → reserve f pid n ≡ some (some (ppns, f'))
    → release f' pid ppns ≡ some (ok f)
release-reserve f pool pid n d ppns f' e = elim (reserve-IsReserved f pool pid n d) [
  | inl (l, h) ↦ absurd (none-ne-some _ (some-injective _ _ (sym h ∙ e)))
  | inr (qs, g, h, r) ↦
      subst (λ x. release x.1 pid x.0 ≡ some (ok f))
        (some-injective _ _ (some-injective _ _ (sym h ∙ e))) (release_reserved f pid n d qs g r)
]
