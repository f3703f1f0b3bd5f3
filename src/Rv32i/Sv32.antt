-- ===== src/Rv32i/Sv32.antt =====
-- components/rv32i/src/sv32.rs: the Sv32 page-table walk. `read_pte`, which reads a page-table
-- entry over the bus, is a parameter.
mod Examples
pub mod Walk
pub mod Pages
pub mod Steps
use systemscope.Base.{
  ℕ, zero, suc, ◌+◌, ◌*◌, ◌-◌, ◌%◌, ◌/◌, ◌^◌, Bool, true, false, not, ◌&&◌, ◌||◌, Option, none,
  some, Result, ok, err, bit_and, bit_or, ◌==◌, ◌!=◌, if◌then◌else◌,
}
use systemscope.Base.Word.{◌>>◌, has}
use systemscope.Rv32i.Execute.{TrapCause}
use systemscope.Rv32i.Privilege.{Privilege, is_machine, satp_mode, satp_ppn}

abbrev pub pte_v : ℕ
pte_v = 2 ^ 0

abbrev pub pte_r : ℕ
pte_r = 2 ^ 1

abbrev pub pte_w : ℕ
pte_w = 2 ^ 2

abbrev pub pte_x : ℕ
pte_x = 2 ^ 3

abbrev pub pte_u : ℕ
pte_u = 2 ^ 4

abbrev pub pte_a : ℕ
pte_a = 2 ^ 6

abbrev pub pte_d : ℕ
pte_d = 2 ^ 7

abbrev pub page_size : ℕ
page_size = 4096

pub data Access : Type 0 where
  fetch load store : Access

abbrev pub page_fault_of : Access → TrapCause
page_fault_of Access.fetch = TrapCause.instruction_page_fault
page_fault_of Access.load = TrapCause.load_page_fault
page_fault_of Access.store = TrapCause.store_page_fault

abbrev pub access_fault_of : Access → TrapCause
access_fault_of Access.fetch = TrapCause.instruction_access_fault
access_fault_of Access.load = TrapCause.load_access_fault
access_fault_of Access.store = TrapCause.store_access_fault

pub record Context : Type 0 where
  pub privilege : Privilege
  pub sum : Bool
  pub mxr : Bool
  pub access : Access

pub data Fault : Type 0 where
  page access : Fault

-- `Fault::cause`.
unfoldable pub fault_cause : Fault → Access → TrapCause
fault_cause Fault.page a = page_fault_of a
fault_cause Fault.access a = access_fault_of a

pub data Step : Type 0 where
  next : (table : ℕ) → Step
  leaf : (pa : ℕ) → Step
  page_fault : Step

unfoldable pub vpn : ℕ → ℕ → ℕ
vpn va level = bit_and (va >> (12 + 10 * level)) 0x3FF

unfoldable pub pte_address : ℕ → ℕ → ℕ → ℕ
unfolding vpn
pte_address table va level = table * page_size + vpn va level * 4

abbrev pub is_fetch : Access → Bool
is_fetch Access.fetch = true
is_fetch _ = false

abbrev pub is_store : Access → Bool
is_store Access.store = true
is_store _ = false

-- The three conditions on a leaf.
abbrev pub user_ok : Privilege → Context → ℕ → Bool
user_ok Privilege.user ctx pte = has pte pte_u
user_ok Privilege.supervisor ctx pte = not (has pte pte_u) || (ctx.sum && not (is_fetch ctx.access))
user_ok Privilege.machine ctx pte = true

abbrev pub allowed : Access → Context → ℕ → Bool
allowed Access.fetch ctx pte = has pte pte_x
allowed Access.load ctx pte = has pte pte_r || (ctx.mxr && has pte pte_x)
allowed Access.store ctx pte = has pte pte_w

abbrev pub dirty_ok : Context → ℕ → Bool
dirty_ok ctx pte = not (is_store ctx.access) || has pte pte_d

-- The address of a leaf; the `u64` shifts lose nothing.
abbrev pub leaf_address : ℕ → ℕ → ℕ → ℕ
leaf_address va level pte =
    if level == 1
    then bit_or ((pte >> 20) * 2 ^ 22) (bit_and va 0x003F_FFFF)
    else bit_or ((pte >> 10) * 2 ^ 12) (bit_and va 0xFFF)

unfoldable pub step : Context → ℕ → ℕ → ℕ → Step
step ctx va level pte =
    let ppn = pte >> 10 in
    if not (has pte pte_v) || (not (has pte pte_r) && has pte pte_w)
    then Step.page_fault
    else if not (has pte pte_r) && not (has pte pte_x)
    then (if level == 0 || has pte (bit_or (bit_or pte_d pte_a) pte_u)
        then Step.page_fault
        else Step.next ppn)
    else if level == 1 && bit_and ppn 0x3FF != 0
    then Step.page_fault
    else if not (user_ok ctx.privilege ctx pte)
        || not (allowed ctx.access ctx pte)
        || not (has pte pte_a)
        || not (dirty_ok ctx pte)
    then Step.page_fault
    else Step.leaf (leaf_address va level pte)

-- What a step leaves to do; `none` is the underflow of `level -= 1`.
abbrev pub after_step : Step → (ℕ → Option (Result ℕ Fault)) → Option (Result ℕ Fault)
after_step (Step.next table) descend = descend table
after_step (Step.leaf pa) descend = some (ok pa)
after_step Step.page_fault descend = some (err Fault.page)

module _ (read_pte : ℕ → Option ℕ) where
  -- The loop at `level` and `table`.
  unfoldable pub walk : Context → ℕ → ℕ → ℕ → Option (Result ℕ Fault)
  walk ctx va zero table = elim (read_pte (pte_address table va 0)) [
    | none ↦ some (err Fault.access)
    | some pte ↦ after_step (step ctx va 0 pte) (λ _. none)
  ]
  walk ctx va (suc level) table = elim (read_pte (pte_address table va (suc level))) [
    | none ↦ some (err Fault.access)
    | some pte ↦ after_step (step ctx va (suc level) pte) (λ next. walk ctx va level next)
  ]

  unfoldable pub sv32_translate : ℕ → Privilege → Bool → Bool → Access → ℕ → Option (Result ℕ Fault)
  unfolding walk
  sv32_translate satp privilege sum mxr kind va =
      if is_machine privilege || not (has satp satp_mode)
      then some (ok va)
      else walk (record { privilege = privilege; sum = sum; mxr = mxr; access = kind }) va 1
          (bit_and satp satp_ppn)
