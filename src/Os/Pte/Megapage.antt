-- ===== src/Os/Pte/Megapage.antt =====
-- The kernel's megapage, as the CPU's walk reads it.
use systemscope.Base.{
  ◌/◌, ℕ, ◌+◌, ◌*◌, ◌%◌, ◌^◌, ◌≡◌, refl, ap, ◌∙◌, Bool, Option, some, ok, err, arith,
}
use systemscope.Base.Bits.{bit_and_mask, bit_and_digit}
use systemscope.Rv32i.Privilege.{Privilege}
use systemscope.Rv32i.Sv32.{
  Access, Context, Fault, Step, step, pte_address, sv32_translate, leaf_address, walk,
}
use systemscope.Rv32i.Sv32.Steps.{leaf_address-one}
use systemscope.Os.Pte.{kernel_megapage, satp}
use systemscope.Os.Pte.Walked.{entry-fields, satp-mode, satp-root}

abbrev mode_of : Privilege → Bool → Bool → Access → Context
mode_of p sum mxr a = record { privilege = p; sum = sum; mxr = mxr; access = a }

-- The walk's steps at the kernel's megapage.
step-megapage_user :
    (sum mxr : Bool) (a : Access) (va q : ℕ)
    → step (mode_of Privilege.user sum mxr a) va 1 (q * 2 ^ 10 + 0xef) ≡ Step.page_fault
unfolding step
step-megapage_user sum mxr a va q =
    let pte = q * 2 ^ 10 + 0xef in ground (arith, bit_and_digit 1 pte, bit_and_digit 4 pte)

step-megapage_supervisor :
    (sum mxr : Bool) (a : Access) (va q : ℕ)
    → q % 2 ^ 10 ≡ 0
    → step (mode_of Privilege.supervisor sum mxr a) va 1 (q * 2 ^ 10 + 0xef)
      ≡ Step.leaf (leaf_address va 1 (q * 2 ^ 10 + 0xef))
unfolding step
step-megapage_supervisor sum mxr a va q h =
    let pte = q * 2 ^ 10 + 0xef in
    let shifted : pte / 2 ^ 10 ≡ q = omega arith in
    ground (
      arith,
      shifted,
      bit_and_mask 10 (pte / 2 ^ 10),
      bit_and_digit 0 pte,
      bit_and_digit 1 pte,
      bit_and_digit 2 pte,
      bit_and_digit 3 pte,
      bit_and_digit 4 pte,
      bit_and_digit 6 pte,
      bit_and_digit 7 pte,
    )

kernel_megapage-fields : (ppn : ℕ) → kernel_megapage ppn ≡ ppn % 2 ^ 22 * 2 ^ 10 + 0xef
unfolding kernel_megapage
kernel_megapage-fields ppn = entry-fields ppn 0xef (omega arith)

-- Where the root table has the kernel's megapage at an aligned page, supervisor mode may access
-- every address of it in every way, and user mode none.
pub sv32_translate-kernel_megapage :
    (read_pte : ℕ → Option ℕ) (root va ppn : ℕ) (sum mxr : Bool) (a : Access)
    → read_pte (pte_address (root % 2 ^ 22) va 1) ≡ some (kernel_megapage ppn)
    → ppn % 2 ^ 10 ≡ 0
    → (sv32_translate read_pte (satp root) Privilege.supervisor sum mxr a va
        ≡ some (ok (ppn % 2 ^ 22 * 2 ^ 12 + va % 2 ^ 22)))
      × (sv32_translate read_pte (satp root) Privilege.user sum mxr a va ≡ some (err Fault.page))
unfolding sv32_translate walk
sv32_translate-kernel_megapage read_pte root va ppn sum mxr a r h =
    let q = ppn % 2 ^ 22 in
    let e = r ∙ ap (λ x. some x) (kernel_megapage-fields ppn) in
    (
      rw (sv32_translate, satp-mode root, satp-root root, walk, e)
          (rw (step-megapage_supervisor sum mxr a va q (omega arith))
            (ap (λ x. some (ok x)) (leaf_address-one va (q * 2 ^ 10 + 0xef) ∙ omega arith))),
      rw (sv32_translate, satp-mode root, satp-root root, walk, e)
          (rw (step-megapage_user sum mxr a va q) refl),
    )
