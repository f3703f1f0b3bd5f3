-- ===== src/Os/Syscall/Walking.antt =====
-- The kernel's walk for a user's buffer, against the processor's walk.
use systemscope.Base.{
  ℕ, ◌+◌, ◌*◌, ◌/◌, ◌%◌, ◌^◌, ◌<◌, ◌≡◌, refl, sym, ◌∙◌, false, ◌!=◌, Option, some, none, Result, ok,
  err, arith, bit_and, bit_or, Bool-cases, inl, inr,
}
use systemscope.Base.Bits.{bit_and_mask, bit_and_add, bit_or_add}
use systemscope.Base.Word.{◌>>◌}
use systemscope.Rv32i.Privilege.{Privilege}
use systemscope.Rv32i.Sv32
use systemscope.Rv32i.Sv32.{
  Access, Context, Fault, Step, step, sv32_translate, after_step, walk, leaf_address,
}
use systemscope.Rv32i.Sv32.Steps.{flags, leaf_address-one, leaf_address-zero, pte_address-entry}
use systemscope.Os.Pte.{satp}
use systemscope.Os.Pte.Walked.{satp-mode, satp-root}
use systemscope.Os.Syscall.{WalkStep, walk_step, pte_address, after_walk, translate}

-- A load of user mode, without SUM and MXR.
abbrev user_load : Context
user_load = record { privilege = Privilege.user; sum = false; mxr = false; access = Access.load }

-- The processor's step that the kernel's stands for.
abbrev as_step : WalkStep → ℕ → Step
as_step (WalkStep.next table) va = Step.next table
as_step (WalkStep.page_at ppn) va = Step.leaf (ppn * 2 ^ 12 + va % 2 ^ 12)
as_step WalkStep.fault va = Step.page_fault

either_flag : (p : ℕ) → bit_and p 10 ≡ bit_and p 8 + bit_and p 2
either_flag p = bit_and_add p 8 2 refl

step-walk_step_zero : (va pte : ℕ) → step user_load va 0 pte ≡ as_step (walk_step pte 0 va) va
unfolding step walk_step
step-walk_step_zero va pte = ground (arith, flags pte, either_flag pte, leaf_address-zero va pte)

megapage :
    (va pte : ℕ)
    → bit_and (pte / 2 ^ 10) 0x3FF ≡ 0
    → leaf_address va 1 pte ≡ bit_or (pte >> 10) (bit_and (va >> 12) 0x3FF) * 2 ^ 12 + va % 2 ^ 12
megapage va pte h =
    let z : pte / 2 ^ 10 % 2 ^ 10 ≡ 0 = sym (bit_and_mask 10 (pte / 2 ^ 10)) ∙ h in
    let m = bit_and_mask 10 (va / 2 ^ 12) in
    let o = bit_or_add 10 (pte / 2 ^ 10) (bit_and (va / 2 ^ 12) 0x3FF) z (omega (arith, m)) in
    leaf_address-one va pte ∙ omega (arith, o, m, z)

step-walk_step_one : (va pte : ℕ) → step user_load va 1 pte ≡ as_step (walk_step pte 1 va) va
unfolding step walk_step
step-walk_step_one va pte = elim (Bool-cases (bit_and (pte >> 10) 0x3FF != 0)) [
  | inl e ↦ rw e (ground (arith, flags pte, either_flag pte))
  | inr e ↦ rw (e, megapage va pte (ground (arith, e))) (ground (arith, flags pte, either_flag pte))
]

entry_one : (table va : ℕ) → va < 2 ^ 32 → pte_address table va 1 ≡ Sv32.pte_address table va 1
unfolding pte_address
entry_one table va h = omega (arith, pte_address-entry table va 1)

entry_zero : (table va : ℕ) → pte_address table va 0 ≡ Sv32.pte_address table va 0
unfolding pte_address
entry_zero table va = omega (arith, pte_address-entry table va 0, bit_and_mask 10 (va / 2 ^ 12))

no_pointer : (pte va t : ℕ) → walk_step pte 0 va ≡ WalkStep.next t → ⊥
unfolding walk_step
no_pointer pte va t h = absurd (ground (arith, h))

-- The processor's result for the kernel's.
abbrev pub as_result : Option ℕ → Result ℕ Fault
as_result none = err Fault.page
as_result (some pa) = ok pa

after_same :
    (w : WalkStep) (va : ℕ) (d : ℕ → Option ℕ) (e : ℕ → Option (Result ℕ Fault))
    → ((t : ℕ) → w ≡ WalkStep.next t → e t ≡ some (as_result (d t)))
    → after_step (as_step w va) e ≡ some (as_result (after_walk w va d))
after_same (WalkStep.next table) va d e h = h table refl
after_same (WalkStep.page_at ppn) va d e h = rw (bit_and_mask 12 va) refl
after_same WalkStep.fault va d e h = refl

module _ (read_pte : ℕ → ℕ) (va : ℕ) (word : va < 2 ^ 32) where
  walk_zero :
      (table : ℕ)
      → walk (λ a. some (read_pte a)) user_load va 0 table
        ≡ some (
            as_result
              (after_walk (walk_step (read_pte (pte_address table va 0)) 0 va) va (λ _. none)))
  unfolding walk
  walk_zero table =
      rw (sym (entry_zero table va), step-walk_step_zero va (read_pte (pte_address table va 0)))
        (after_same (walk_step (read_pte (pte_address table va 0)) 0 va) va (λ _. none) (λ _. none)
          (λ t e. absurd (no_pointer (read_pte (pte_address table va 0)) va t e)))

  -- The kernel's walk for a user's buffer and the processor's walk of a load in user mode, without
  -- MXR and under the `satp` that the kernel writes for the root table, agree: they give the same
  -- address, or the kernel refuses the buffer and the processor raises a page fault.
  pub sv32_translate-translate :
      (root : ℕ)
      → root < 2 ^ 22
      → sv32_translate
          (λ a. some (read_pte a))
          (satp root)
          Privilege.user
          false
          false
          Access.load
          va
        ≡ some (as_result (translate read_pte root va))
  unfolding sv32_translate walk translate
  sv32_translate-translate root h =
      let r : root % 2 ^ 22 ≡ root = omega (arith, h) in
      rw
        (
          sv32_translate,
          satp-mode root,
          satp-root root,
          r,
          walk,
          sym (entry_one root va word),
          step-walk_step_one va (read_pte (pte_address root va 1)),
        )
        (after_same (walk_step (read_pte (pte_address root va 1)) 1 va) va _ _ (λ t e. walk_zero t))
