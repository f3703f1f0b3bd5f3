-- ===== src/Os/Process/Accounts/Counted.antt =====
-- `check` counts the frames of the pool: it passes exactly when they are accounted for.
use systemscope.Base.{
  ℕ, zero, suc, ◌+◌, ◌-◌, ◌%◌, ◌^◌, ◌≤◌, ◌≡◌, refl, sym, ◌∙◌, subst, none, some, List, [], ◌∷◌,
  arith, length, length-replicate, get_elem?, get_elem?-replicate, get_or, get_or-get_elem?,
  get_elem?-past, replicate, All-map, All-both, contains, Bool-cases, Option-cases, Result-cases,
  inl, inr,
}
use systemscope.Os.Frames.{Frames, owner, index}
use systemscope.Os.Frames.Laws.{IsPool, owner-entry, owner-below, below_or_at, in_range}
use systemscope.Os.Process.Check.{slot, claim, check_owners, check_frames}
use systemscope.Os.Process.Accounts.{
  IsClaimed, IsAccounted, ArePids, ppns_of, claim_at, claim-IsClaimed, claim-ok,
}

check_owners-none :
    (f : Frames) (i : ℕ) (os : List ℕ)
    → check_owners f i os ≡ none
    → i + length os ≤ 2 ^ 32
    → (j o : ℕ) → get_elem? os j ≡ some o
    → owner f (f.base + (i + j)) ≡ some o
unfolding check_owners
check_owners-none f i [] h b j o e = absurd cc
check_owners-none f i (x ∷ os) h b zero o e = ground (arith, h, e, owner f (f.base + i % 2 ^ 32))
check_owners-none f i (x ∷ os) h b (suc j) o e =
    subst (λ k. owner f (f.base + k) ≡ some o) (omega arith)
      (check_owners-none f (suc i) os (ground (arith, h)) (omega arith) j o e)

none-check_owners :
    (f : Frames) (i : ℕ) (os : List ℕ)
    → i + length os ≤ 2 ^ 32
    → ((j o : ℕ) → get_elem? os j ≡ some o → owner f (f.base + (i + j)) ≡ some o)
    → check_owners f i os ≡ none
unfolding check_owners
none-check_owners f i [] b h = refl
none-check_owners f i (x ∷ os) b h =
    let here : owner f (f.base + i % 2 ^ 32) ≡ some x =
      subst (λ k. owner f (f.base + k) ≡ some x) (omega arith) (h 0 x refl) in
    let later =
      none-check_owners f (suc i) os (omega arith)
        (λ j o e. subst (λ k. owner f (f.base + k) ≡ some o) (omega arith) (h (suc j) o e)) in
    ground (arith, here, later)

module _ (f : Frames) (pool : IsPool f) where
  abbrev zeros : List ℕ
  zeros = replicate (length f.owners) 0

  -- Before the loop, a slot is 0 wherever the pool has a frame.
  slot-zeros : (ppn o : ℕ) → owner f ppn ≡ some o → slot f.base zeros ppn ≡ some 0
  unfolding owner index
  slot-zeros ppn o h =
      ground (arith, h, get_elem?-replicate {A = ℕ} (length f.owners) (ppn - f.base) 0)

  slot_zero : (ppn o : ℕ) → slot f.base zeros ppn ≡ some o → o ≡ 0
  slot_zero ppn o h =
      ground (arith, h, get_elem?-replicate {A = ℕ} (length f.owners) (ppn - f.base) 0)

  slot-eq-owner :
      (e : List ℕ)
      → length e ≡ length f.owners
      → ((j o : ℕ) → get_elem? e j ≡ some o → owner f (f.base + j) ≡ some o)
      → (ppn : ℕ) → owner f ppn ≡ slot f.base e ppn
  slot-eq-owner e l h ppn = elim (below_or_at f.base ppn) [
    | inl b ↦ ground (arith, owner-below f ppn b)
    | inr (i, at) ↦ rw at (elim (Option-cases (get_elem? e i)) [
      | inl n ↦
          ground (arith, n, owner-entry f i, get_elem?-past f.owners i, get_or-get_elem? e i 0)
      | inr (o, s) ↦ ground (arith, s, h i o s)
    ])
  ]

  slot_in :
      (e : List ℕ) (j o : ℕ)
      → get_elem? e j ≡ some o
      → length e ≡ length f.owners
      → (x : ℕ) × (owner f (f.base + j) ≡ some x)
  slot_in e j o h l = (
    get_or f.owners j 0,
    ground (arith, owner-entry f j, in_range e j o h, get_or-get_elem? f.owners j 0),
  )

  pub check_frames-IsAccounted :
      (cs : List (ℕ × ℕ)) → ArePids cs → check_frames f cs ≡ none → IsAccounted f cs
  unfolding check_frames
  check_frames-IsAccounted cs ps h = elim (Result-cases (claim f.base zeros cs)) [
    | inr (v, e) ↦ absurd (ground (arith, h, e))
    | inl (e', e) ↦
        let c = claim-IsClaimed f.base zeros e' cs ps e in
        let size = c.size ∙ length-replicate {A = ℕ} (length f.owners) 0 in
        let same = slot-eq-owner e' size (λ j o g.
          subst (λ k. owner f (f.base + k) ≡ some o) (omega arith)
            (check_owners-none f 0 e' (ground (arith, h, e)) (rw size (omega (arith, pool.bound))) j
              o g)) in
        record {
          owned = All-map (λ c h. same c.1 ∙ h) cs c.after;
          single = c.single;
          others = λ ppn o own n. slot_zero ppn o (ground (arith, own, same ppn, c.others ppn n));
        }
  ]

  pub IsAccounted-check_frames :
      (cs : List (ℕ × ℕ)) → ArePids cs → IsAccounted f cs → check_frames f cs ≡ none
  unfolding check_frames
  IsAccounted-check_frames cs ps a =
      let (e', e) =
        claim-ok f.base zeros cs (All-map (λ c h. slot-zeros c.1 c.0 h) cs a.owned) a.single in
      let c = claim-IsClaimed f.base zeros e' cs ps e in
      let size = c.size ∙ length-replicate {A = ℕ} (length f.owners) 0 in
      rw (check_frames, e)
        (none-check_owners f 0 e' (rw size (omega (arith, pool.bound))) (λ j o g.
          subst (λ k. owner f (f.base + k) ≡ some o) (omega arith) (owner_of e' c size j o g)))
    where
      -- A slot of the result is the owner of its frame.
      owner_of :
          (e' : List ℕ)
          → IsClaimed f.base zeros e' cs
          → length e' ≡ length f.owners
          → (j o : ℕ) → get_elem? e' j ≡ some o
          → owner f (f.base + j) ≡ some o
      owner_of e' c size j o g = elim (Bool-cases (contains (f.base + j) (ppns_of cs))) [
        | inl t ↦
            let (pid, (s, w)) =
              claim_at _ (f.base + j) cs
                (All-both (λ c. slot f.base e' c.1 ≡ some c.0) (λ c. owner f c.1 ≡ some c.0) cs
                  c.after a.owned)
                t in
            w ∙ (sym s ∙ ground (arith, g))
        | inr n ↦
            let (x, own) = slot_in e' j o g size in
            ground (
              arith,
              g,
              own,
              c.others (f.base + j) n,
              a.others (f.base + j) x own n,
              slot_zero (f.base + j) o,
            )
      ]
