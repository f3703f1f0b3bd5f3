-- ===== src/Rv32i/Sv32/Walk.antt =====
-- A walk always ends, and it gives the addresses that the page tables map.
use systemscope.Base.{
  ℕ, ◌/◌, ◌^◌, ◌<◌, ◌≡◌, ◌↔◌, refl, sym, ap, ◌∙◌, subst, Bool, true, false, not, ◌||◌, Option, none,
  some, Result, ok, err, arith, bit_and, Bool-cases, inl, inr, ◌⊎◌,
}
use systemscope.Base.Word.{has}
use systemscope.Rv32i.Privilege.{Privilege, is_machine, satp_mode, satp_ppn}
use systemscope.Rv32i.Sv32.{
  Access, Context, Fault, Step, step, pte_address, walk, sv32_translate, after_step,
}
use systemscope.Rv32i.Sv32.Pages.{Maps, entry_at}
use systemscope.Rv32i.Sv32.Steps.{
  pte_address-entry, step-zero-leaf, step-one-leaf, step-one-next, step-zero-ne-next,
}

Step-cases :
    (s : Step)
    → ((t : ℕ) × (s ≡ Step.next t)) ⊎ (((pa : ℕ) × (s ≡ Step.leaf pa)) ⊎ (s ≡ Step.page_fault))
Step-cases (Step.next t) = inl (t, refl)
Step-cases (Step.leaf pa) = inr (inl (pa, refl))
Step-cases Step.page_fault = inr (inr refl)

module _ (ctx : Context) (va level : ℕ) where
  -- One round of the loop on the answer to its read.
  abbrev round : Option ℕ → (ℕ → Option (Result ℕ Fault)) → Option (Result ℕ Fault)
  round o descend = elim o [
    | none ↦ some (err Fault.access)
    | some pte ↦ after_step (step ctx va level pte) descend
  ]

  round-ends :
      (o : Option ℕ) (descend : ℕ → Option (Result ℕ Fault))
      → ((pte t : ℕ)
          → step ctx va level pte ≡ Step.next t
          → (r : Result ℕ Fault) × (descend t ≡ some r))
      → (r : Result ℕ Fault) × (round o descend ≡ some r)
  round-ends none descend h = (err Fault.access, refl)
  round-ends (some pte) descend h = elim (Step-cases (step ctx va level pte)) [
    | inl (t, e) ↦ rw e (h pte t e)
    | inr (inl (pa, e)) ↦ (ok pa, rw e)
    | inr (inr e) ↦ (err Fault.page, rw e)
  ]

  -- A round that gives an address read a leaf, or went on to a table that gives it.
  round-ok :
      (o : Option ℕ) (descend : ℕ → Option (Result ℕ Fault)) {pa : ℕ}
      → round o descend ≡ some (ok pa)
      → (pte : ℕ) × (o ≡ some pte)
        × ((step ctx va level pte ≡ Step.leaf pa)
            ⊎ ((t : ℕ) × (step ctx va level pte ≡ Step.next t) × (descend t ≡ some (ok pa))))
  round-ok none descend e = cc
  round-ok (some pte) descend e = elim (Step-cases (step ctx va level pte)) [
    | inl (t, n) ↦ (pte, refl, inr (t, n, rw n at e))
    | inr (inl (a, l)) ↦ (pte, refl, inl (l ∙ ap Step.leaf (address (rw l at e))))
    | inr (inr f) ↦ absurd (no_address (rw f at e))
  ]
    where
      address : {a b : ℕ} → ◌≡◌ {A = Option (Result ℕ Fault)} (some (ok a)) (some (ok b)) → a ≡ b
      address e = cc

      no_address :
          {b : ℕ} → ◌≡◌ {A = Option (Result ℕ Fault)} (some (err Fault.page)) (some (ok b)) → ⊥
      no_address e = cc

module _ (read_pte : ℕ → Option ℕ) (ctx : Context) (va : ℕ) where
  walk-ends : (table : ℕ) → (r : Result ℕ Fault) × (walk read_pte ctx va 1 table ≡ some r)
  unfolding walk
  walk-ends table = round-ends ctx va 1 (read_pte (pte_address table va 1)) _ λ _ t _.
      round-ends ctx va 0 (read_pte (pte_address t va 0)) _
        λ pte u e. absurd (step-zero-ne-next ctx va pte u e)

  -- The same entry by either form of its address.
  at_entry :
      (table level : ℕ) {pte : ℕ}
      → read_pte (pte_address table va level) ≡ some pte
      → read_pte (entry_at table va level) ≡ some pte
  at_entry table level e = ap read_pte (sym (pte_address-entry table va level)) ∙ e

  of_entry :
      (table level : ℕ) {pte : ℕ}
      → read_pte (entry_at table va level) ≡ some pte
      → read_pte (pte_address table va level) ≡ some pte
  of_entry table level e = ap read_pte (pte_address-entry table va level) ∙ e

  -- The second round's leaf, behind a pointer.
  small_page_of :
      (table pointer t : ℕ) {pa : ℕ}
      → read_pte (pte_address table va 1) ≡ some pointer
      → step ctx va 1 pointer ≡ Step.next t
      → walk read_pte ctx va 0 t ≡ some (ok pa)
      → Maps read_pte ctx va table pa
  unfolding walk
  small_page_of table pointer t {pa} r n d =
      let (i, x) = (step-one-next ctx va pointer t).0 n in
      let (pte, q, end) = round-ok ctx va 0 (read_pte (pte_address t va 0)) _ d in
      elim end [
        | inl l ↦
            let (p, y) = (step-zero-leaf ctx va pte pa).0 l in
            Maps.small_page pointer pte (at_entry table 1 r) i
              (subst (λ u. read_pte (entry_at u va 0) ≡ some pte) x (at_entry t 0 q)) p y
        | inr next ↦ absurd (step-zero-ne-next ctx va pte next.0 next.1)
      ]

  walk-Maps :
      (table : ℕ) {pa : ℕ}
      → walk read_pte ctx va 1 table ≡ some (ok pa)
      → Maps read_pte ctx va table pa
  unfolding walk
  walk-Maps table {pa} e =
      let (pte, r, end) = round-ok ctx va 1 (read_pte (pte_address table va 1)) _ e in
      elim end [
        | inl l ↦
            let (p, a, x) = (step-one-leaf ctx va pte pa).0 l in
            Maps.megapage pte (at_entry table 1 r) p a x
        | inr (t, n, d) ↦ small_page_of table pte t r n d
      ]

  Maps-walk :
      (table : ℕ) {pa : ℕ}
      → Maps read_pte ctx va table pa
      → walk read_pte ctx va 1 table ≡ some (ok pa)
  unfolding walk
  Maps-walk table {pa} (Maps.megapage pte r p a x) =
      rw (of_entry table 1 r, walk) (rw ((step-one-leaf ctx va pte pa).1 (p, a, x)))
  Maps-walk table {pa} (Maps.small_page pointer pte r i q p x) =
      let next = (step-one-next ctx va pointer (pointer / 2 ^ 10)).1 (i, refl) in
      rw (of_entry table 1 r, walk)
        (rw next (
          rw (of_entry (pointer / 2 ^ 10) 0 q, walk)
            (rw ((step-zero-leaf ctx va pte pa).1 (p, x)))))

module _ (read_pte : ℕ → Option ℕ) where
  -- Whatever the memory answers, a translation ends with an address or a fault: the loop's level
  -- never falls below 0.
  sv32_translate-total :
      (satp : ℕ) (p : Privilege) (sum mxr : Bool) (a : Access) (va : ℕ)
      → (r : Result ℕ Fault) × (sv32_translate read_pte satp p sum mxr a va ≡ some r)
  unfolding sv32_translate
  sv32_translate-total satp p sum mxr a va =
      elim (Bool-cases (is_machine p || not (has satp satp_mode))) [
        | inl e ↦ (ok va, rw e)
        | inr e ↦
            let (r, t) =
              walk-ends read_pte (record { privilege = p; sum = sum; mxr = mxr; access = a }) va
                (bit_and satp satp_ppn) in
            (r, rw e t)
      ]

  -- Below machine mode with the Sv32 mode set, an access is translated to an address exactly when
  -- the page tables from the root in `satp` map its page there and permit the access.
  pub sv32_translate-Maps :
      (satp : ℕ) (p : Privilege) (sum mxr : Bool) (a : Access) (va pa : ℕ)
      → is_machine p ≡ false
      → has satp satp_mode ≡ true
      → (sv32_translate read_pte satp p sum mxr a va ≡ some (ok pa))
        ↔ Maps read_pte
            (record { privilege = p; sum = sum; mxr = mxr; access = a })
            va
            (bit_and satp satp_ppn)
            pa
  unfolding sv32_translate
  sv32_translate-Maps satp p sum mxr a va pa m h =
      rw (m, h) (walk-Maps read_pte _ va _, Maps-walk read_pte _ va _)

  -- An address that a translation of a word gives has 34 bits, where the memory gives words.
  sv32_translate-lt :
      (satp : ℕ) (p : Privilege) (sum mxr : Bool) (a : Access) (va pa : ℕ)
      → ((at pte : ℕ) → read_pte at ≡ some pte → pte < 2 ^ 32)
      → va < 2 ^ 32
      → sv32_translate read_pte satp p sum mxr a va ≡ some (ok pa)
      → pa < 2 ^ 34
  unfolding sv32_translate
  sv32_translate-lt satp p sum mxr a va pa words h e =
      elim (Bool-cases (is_machine p || not (has satp satp_mode))) [
        | inl b ↦ ground (arith, b)
        | inr t ↦ bound (walk-Maps read_pte _ va _ (rw (t, sv32_translate) at e))
      ]
    where
      bound : {c : Context} {r : ℕ} → Maps read_pte c va r pa → pa < 2 ^ 34
      bound (Maps.megapage pte r p a x) = omega (arith, words _ pte r)
      bound (Maps.small_page pointer pte r i q p x) = omega (arith, words _ pte q)
