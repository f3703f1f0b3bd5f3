-- ===== src/Os/Pte/Walked.antt =====
-- The page tables that the kernel writes, as the CPU's walk reads them.
use systemscope.Base.{
  ℕ, ◌+◌, ◌*◌, ◌%◌, ◌^◌, ◌<◌, ◌≡◌, refl, ap, ◌∙◌, Bool, true, false, not, ◌&&◌, ◌||◌, Option, some,
  none, ok, err, arith, bit_and, if◌then◌else◌,
}
use systemscope.Base.Bits.{bit_and_mask, bit_and_digit, bit_or_add}
use systemscope.Base.Word.{from_bool, has}
use systemscope.Rv32i.Privilege.{Privilege, satp_mode, satp_ppn}
use systemscope.Rv32i.Sv32.{
  Access, Context, Fault, Step, step, pte_address, sv32_translate, leaf_address, after_step, walk,
  is_fetch,
}
use systemscope.Rv32i.Sv32.Steps.{leaf_address-zero, step-one-next}
use systemscope.Os.Pte.{Perms, perm_bits, entry, user_leaf, pointer, satp}

-- The flags of a user leaf.
abbrev leaf_flags : Bool → Bool → Bool → ℕ
leaf_flags r w x = 0x51 + from_bool r * 2 + from_bool w * 0x84 + from_bool x * 8

pub entry-fields :
    (ppn flags : ℕ) → flags < 2 ^ 10 → entry ppn flags ≡ ppn % 2 ^ 22 * 2 ^ 10 + flags
unfolding entry
entry-fields ppn flags h =
    rw (bit_and_mask 22 ppn)
      (bit_or_add 10 (ppn % 2 ^ 22 * 2 ^ 10 % 2 ^ 32) flags (omega arith) h ∙ omega arith)

abbrev perms_of : Bool → Bool → Bool → Perms
perms_of r w x = record { read = r; write = w; execute = x }

user_leaf-fields :
    (ppn : ℕ) (r w x : Bool)
    → user_leaf ppn (perms_of r w x) ≡ ppn % 2 ^ 22 * 2 ^ 10 + leaf_flags r w x
unfolding user_leaf perm_bits
user_leaf-fields ppn false false false = entry-fields ppn _ (omega arith)
user_leaf-fields ppn false false true = entry-fields ppn _ (omega arith)
user_leaf-fields ppn false true false = entry-fields ppn _ (omega arith)
user_leaf-fields ppn false true true = entry-fields ppn _ (omega arith)
user_leaf-fields ppn true false false = entry-fields ppn _ (omega arith)
user_leaf-fields ppn true false true = entry-fields ppn _ (omega arith)
user_leaf-fields ppn true true false = entry-fields ppn _ (omega arith)
user_leaf-fields ppn true true true = entry-fields ppn _ (omega arith)

-- What a page's permissions allow of user mode.
abbrev pub perms_allow : Access → Bool → Perms → Bool
perms_allow Access.fetch mxr p = p.execute
perms_allow Access.load mxr p = p.read || (mxr && p.execute)
perms_allow Access.store mxr p = p.write

abbrev user_mode : Bool → Bool → Access → Context
user_mode sum mxr a = record { privilege = Privilege.user; sum = sum; mxr = mxr; access = a }

-- The walk's step at an entry with the flags of a user leaf, in user mode.
step-flags :
    (sum mxr : Bool) (a : Access) (va q : ℕ) (r w x : Bool)
    → (not w || r) ≡ true
    → step (user_mode sum mxr a) va 0 (q * 2 ^ 10 + leaf_flags r w x) ≡ (
        if perms_allow a mxr (perms_of r w x)
        then Step.leaf (leaf_address va 0 (q * 2 ^ 10 + leaf_flags r w x))
        else Step.page_fault)
unfolding step
step-flags sum mxr a va q r w x h =
    let pte = q * 2 ^ 10 + leaf_flags r w x in
    ground (
      arith,
      bit_and_digit 0 pte,
      bit_and_digit 1 pte,
      bit_and_digit 2 pte,
      bit_and_digit 3 pte,
      bit_and_digit 4 pte,
      bit_and_digit 6 pte,
      bit_and_digit 7 pte,
    )

step-user_leaf :
    (sum mxr : Bool) (a : Access) (va ppn : ℕ) (p : Perms)
    → (not p.write || p.read) ≡ true
    → step (user_mode sum mxr a) va 0 (user_leaf ppn p) ≡ (
        if perms_allow a mxr p
        then Step.leaf (ppn % 2 ^ 22 * 2 ^ 12 + va % 2 ^ 12)
        else Step.page_fault)
step-user_leaf sum mxr a va ppn p h =
    let pte = ppn % 2 ^ 22 * 2 ^ 10 + leaf_flags p.read p.write p.execute in
    let at : leaf_address va 0 pte ≡ ppn % 2 ^ 22 * 2 ^ 12 + va % 2 ^ 12 =
      leaf_address-zero va pte ∙ ground arith in
    rw (user_leaf-fields ppn p.read p.write p.execute) (
      step-flags sum mxr a va (ppn % 2 ^ 22) p.read p.write p.execute h
      ∙ ap (λ i. if perms_allow a mxr p then Step.leaf i else Step.page_fault) at)

-- The walk's step at a pointer.
step-pointer : (ctx : Context) (va ppn : ℕ) → step ctx va 1 (pointer ppn) ≡ Step.next (ppn % 2 ^ 22)
unfolding pointer
step-pointer ctx va ppn =
    let e = entry-fields ppn 1 (omega arith) in
    (step-one-next ctx va (entry ppn 1) (ppn % 2 ^ 22)).1 (
      rw e (
        (omega arith, omega arith, omega arith, omega arith, omega arith, omega arith, omega arith),
        omega arith,
      ))

satp-fields : (root : ℕ) → satp root ≡ 2 ^ 31 + root % 2 ^ 22
unfolding satp
satp-fields root =
    rw (bit_and_mask 22 root) (bit_or_add 22 (2 ^ 31) (root % 2 ^ 22) refl (omega arith))

pub satp-mode : (root : ℕ) → has (satp root) satp_mode ≡ true
satp-mode root = rw (satp-fields root) (ground (arith, bit_and_digit 31 (2 ^ 31 + root % 2 ^ 22)))

pub satp-root : (root : ℕ) → bit_and (satp root) satp_ppn ≡ root % 2 ^ 22
satp-root root = rw (satp-fields root) (bit_and_mask 22 (2 ^ 31 + root % 2 ^ 22) ∙ omega arith)

step-supervisor_user_leaf :
    (sum mxr : Bool) (a : Access) (va ppn : ℕ) (p : Perms)
    → (sum && not (is_fetch a)) ≡ false
    → step
        (record { privilege = Privilege.supervisor; sum = sum; mxr = mxr; access = a })
        va
        0
        (user_leaf ppn p)
      ≡ Step.page_fault
unfolding step
step-supervisor_user_leaf sum mxr a va ppn p h =
    let pte = ppn % 2 ^ 22 * 2 ^ 10 + leaf_flags p.read p.write p.execute in
    rw (user_leaf-fields ppn p.read p.write p.execute) (
      ground (
        arith,
        h,
        bit_and_digit 1 pte,
        bit_and_digit 3 pte,
        bit_and_digit 4 pte,
        bit_and_digit 6 pte,
        bit_and_digit 7 pte,
      ))

-- The memory holds the tables that map the page of `va` to the frame `page` with `p`.
pub record Mapped (read_pte : ℕ → Option ℕ) (root va page : ℕ) (p : Perms) : Type 0 where
  pub table : ℕ
  pub at_root : read_pte (pte_address (root % 2 ^ 22) va 1) ≡ some (pointer table)
  pub at_table : read_pte (pte_address (table % 2 ^ 22) va 0) ≡ some (user_leaf page p)

module _ (read_pte : ℕ → Option ℕ) where
  -- The walk over such tables comes to the step at the leaf.
  walk-Mapped :
      (ctx : Context) (root va page : ℕ) (p : Perms)
      → Mapped read_pte root va page p
      → walk read_pte ctx va 1 (root % 2 ^ 22)
        ≡ after_step (step ctx va 0 (user_leaf page p)) (λ _. none)
  unfolding walk
  walk-Mapped ctx root va page p m =
      rw (walk, m.at_root, step-pointer ctx va m.table, walk, m.at_table) refl

  -- In user mode, under the `satp` and the page tables that the kernel writes, a virtual address is
  -- translated to its frame exactly as the page's permissions allow; else the access is a page
  -- fault. The permissions do not have W without R.
  pub sv32_translate-user_leaf :
      (root va page : ℕ) (p : Perms) (sum mxr : Bool) (a : Access)
      → Mapped read_pte root va page p
      → (not p.write || p.read) ≡ true
      → sv32_translate read_pte (satp root) Privilege.user sum mxr a va
        ≡ some (
            if perms_allow a mxr p
            then ok (page % 2 ^ 22 * 2 ^ 12 + va % 2 ^ 12)
            else err Fault.page)
  unfolding sv32_translate
  sv32_translate-user_leaf root va page p sum mxr a m h =
      rw (sv32_translate, satp-mode root, satp-root root)
        (walk-Mapped (user_mode sum mxr a) root va page p m
          ∙ rw (step-user_leaf sum mxr a va page p h) (split (perms_allow a mxr p) _))
    where
      split :
          (b : Bool) (pa : ℕ)
          → after_step (if b then Step.leaf pa else Step.page_fault) (λ _. none)
            ≡ some (if b then ok pa else err Fault.page)
      split true pa = refl
      split false pa = refl

  -- In supervisor mode, the kernel itself reaches no user page: without SUM every access is a page
  -- fault, and a fetch always is.
  sv32_translate-supervisor_user_leaf :
      (root va page : ℕ) (p : Perms) (sum mxr : Bool) (a : Access)
      → Mapped read_pte root va page p
      → (sum && not (is_fetch a)) ≡ false
      → sv32_translate read_pte (satp root) Privilege.supervisor sum mxr a va
        ≡ some (err Fault.page)
  unfolding sv32_translate
  sv32_translate-supervisor_user_leaf root va page p sum mxr a m h =
      rw (sv32_translate, satp-mode root, satp-root root)
        (walk-Mapped (record { privilege = Privilege.supervisor; sum = sum; mxr = mxr; access = a })
            root va page p m
          ∙ rw (step-supervisor_user_leaf sum mxr a va page p h) refl)
