-- ===== src/Rv32i/Memory/Prepared.antt =====
-- The preparation of a load or a store.
use systemscope.Base.{
  zero, suc, [], ◌/◌, subst, ap₂, Result, err, ℕ, ◌+◌, ◌-◌, ◌%◌, ◌^◌, ◌≤◌, ◌<◌, ◌≡◌, ◌≢◌, refl, ok,
  arith, bit_and, ◌!=◌, Bool-cases, inl, inr, List, ◌∷◌, length,
}
use systemscope.Base.Bits.{bit_and_mask}
use systemscope.Base.Word.{◌+%◌}
use systemscope.Rv32i.Instr.{LoadOp, StoreOp, Instr}
use systemscope.Rv32i.Execute.{TrapCause}
use systemscope.Rv32i.Memory.{
  MemWidth, LoadExtension, MemoryPlan, MemoryPrep, bytes, low_bytes, load_width, load_extension,
  store_width, NotMemory, prepare_memory, check_aligned,
}

abbrev pub plan_addr : MemoryPlan → ℕ
plan_addr (MemoryPlan.load_plan p) = p.addr
plan_addr (MemoryPlan.store_plan p) = p.addr

-- The number of bytes that a plan accesses.
abbrev pub plan_size : MemoryPlan → ℕ
plan_size (MemoryPlan.load_plan p) = bytes p.width
plan_size (MemoryPlan.store_plan p) = length p.bytes_out

abbrev pub load_size : LoadOp → ℕ
load_size LoadOp.b = 1
load_size LoadOp.bu = 1
load_size LoadOp.h = 2
load_size LoadOp.hu = 2
load_size LoadOp.w = 4

abbrev pub store_size : StoreOp → ℕ
store_size StoreOp.b = 1
store_size StoreOp.h = 2
store_size StoreOp.w = 4

-- The bytes that an instruction accesses.
abbrev pub access_size : Instr → ℕ
access_size (Instr.load op _ _ _) = load_size op
access_size (Instr.store op _ _ _) = store_size op
access_size _ = 0

abbrev pub access_offset : Instr → ℕ
access_offset (Instr.load _ _ _ offset) = offset
access_offset (Instr.store _ _ _ offset) = offset
access_offset _ = 0

-- The low `n` bytes of a number, the lowest first.
abbrev pub little_endian : ℕ → ℕ → List ℕ
little_endian zero v = []
little_endian (suc n) v = v % 256 ∷ little_endian n (v / 256)

-- How a load extends what it reads; a word is not extended.
abbrev pub Extends : LoadOp → LoadExtension → Type 0
Extends LoadOp.b x = x ≡ LoadExtension.signed
Extends LoadOp.h x = x ≡ LoadExtension.signed
Extends LoadOp.bu x = x ≡ LoadExtension.unsigned
Extends LoadOp.hu x = x ≡ LoadExtension.unsigned
Extends LoadOp.w x = Unit

-- What a plan keeps of its instruction, at `pc` and with the value `v` of `rs2`.
abbrev pub Carries : Instr → ℕ → ℕ → MemoryPlan → Type 0
Carries (Instr.load op rd _ _) pc v (MemoryPlan.load_plan p) =
    (p.rd ≡ rd) × Extends op p.extension × (p.next_pc ≡ (pc + 4) % 2 ^ 32)
Carries (Instr.store op _ _ _) pc v (MemoryPlan.store_plan p) =
    (p.bytes_out ≡ little_endian (store_size op) v) × (p.next_pc ≡ (pc + 4) % 2 ^ 32)
Carries _ pc v _ = ⊥

abbrev pub TrapsAs : Instr → TrapCause → Type 0
TrapsAs (Instr.load _ _ _ _) c = c ≡ TrapCause.load_address_misaligned
TrapsAs (Instr.store _ _ _ _) c = c ≡ TrapCause.store_address_misaligned
TrapsAs _ c = ⊥

-- A plan of an aligned access of `n` bytes at `addr`, or the trap of a misaligned one.
abbrev pub IsAligned : ℕ → ℕ → (TrapCause → Type 0) → (MemoryPlan → Type 0) → MemoryPrep → Type 0
IsAligned n addr c q (MemoryPrep.request plan) = (addr % n ≡ 0) × (addr + n ≤ 2 ^ 32) × q plan
IsAligned n addr c q (MemoryPrep.misaligned t) = (t.tval ≡ addr) × (addr % n ≢ 0) × c t.cause

abbrev pub access_addr : Instr → ℕ → ℕ
access_addr i rs1 = (rs1 + access_offset i) % 2 ^ 32

-- The plan of an instruction.
abbrev pub IsPlan : Instr → ℕ → ℕ → ℕ → MemoryPlan → Type 0
IsPlan i pc rs1 rs2 plan =
    (plan_addr plan ≡ access_addr i rs1) × (plan_size plan ≡ access_size i) × Carries i pc rs2 plan

abbrev pub IsAccess : Instr → Type 0
IsAccess (Instr.load _ _ _ _) = Unit
IsAccess (Instr.store _ _ _ _) = Unit
IsAccess _ = ⊥

abbrev pub IsPrepared : Instr → ℕ → ℕ → ℕ → Result MemoryPrep NotMemory → Type 0
IsPrepared i pc rs1 rs2 (ok prep) =
    IsAligned (access_size i) (access_addr i rs1) (TrapsAs i) (IsPlan i pc rs1 rs2) prep
IsPrepared i pc rs1 rs2 (err e) = ¬ IsAccess i

mask_width : (width : MemWidth) (addr : ℕ) → bit_and addr (bytes width - 1) ≡ addr % bytes width
mask_width MemWidth.byte addr = omega (arith, bit_and_mask 0 addr)
mask_width MemWidth.half addr = bit_and_mask 1 addr
mask_width MemWidth.word addr = bit_and_mask 2 addr

fits :
    (width : MemWidth) (addr : ℕ)
    → addr < 2 ^ 32
    → addr % bytes width ≡ 0
    → addr + bytes width ≤ 2 ^ 32
fits MemWidth.byte addr h e = omega arith
fits MemWidth.half addr h e = omega arith
fits MemWidth.word addr h e = omega arith

check_aligned-IsAligned :
    (addr n : ℕ) (width : MemWidth) (cause : TrapCause) (plan : MemoryPlan) (c : TrapCause → Type 0)
    (q : MemoryPlan → Type 0)
    → addr < 2 ^ 32
    → bytes width ≡ n
    → c cause
    → q plan
    → IsAligned n addr c q (check_aligned addr width cause plan)
unfolding check_aligned
check_aligned-IsAligned addr n width cause plan c q h e x y =
    subst (λ n. IsAligned n addr c q (check_aligned addr width cause plan)) e
      (elim (Bool-cases (bit_and addr (bytes width - 1) != 0)) [
        | inl f ↦ rw f (refl, ground (arith, mask_width width addr, f), x)
        | inr f ↦
            let aligned : addr % bytes width ≡ 0 = ground (arith, mask_width width addr, f) in
            rw f (aligned, fits width addr h aligned, y)
      ])

bytes-load_width : (op : LoadOp) → bytes (load_width op) ≡ load_size op
bytes-load_width LoadOp.b = refl
bytes-load_width LoadOp.bu = refl
bytes-load_width LoadOp.h = refl
bytes-load_width LoadOp.hu = refl
bytes-load_width LoadOp.w = refl

load_extension-Extends : (op : LoadOp) → Extends op (load_extension op)
load_extension-Extends LoadOp.b = refl
load_extension-Extends LoadOp.bu = refl
load_extension-Extends LoadOp.h = refl
load_extension-Extends LoadOp.hu = refl
load_extension-Extends LoadOp.w = tt

-- The width of a store, the number of its bytes, and the bytes.
store_width_lem :
    (op : StoreOp) (v : ℕ)
    → (bytes (store_width op) ≡ store_size op)
      × (length (low_bytes (store_width op) v) ≡ store_size op)
      × (low_bytes (store_width op) v ≡ little_endian (store_size op) v)
store_width_lem StoreOp.b v = (refl, refl, refl)
store_width_lem StoreOp.h v = (refl, refl, refl)
store_width_lem StoreOp.w v =
    let second : v / 2 ^ 16 % 256 ≡ v / 256 / 256 % 256 = omega arith in
    let third : v / 2 ^ 24 % 256 ≡ v / 256 / 256 / 256 % 256 = omega arith in
    (refl, refl, ap₂ (λ x y. v % 256 ∷ v / 256 % 256 ∷ x ∷ y ∷ []) second third)

-- A load or store, and nothing else, is prepared. It is of 1, 2 or 4 bytes at `rs1` plus its offset,
-- modulo 2 ^ 32. If that address is a multiple of their number, the plan is of these bytes, which
-- end by 2 ^ 32: a load keeps its register and its extension, a store sends the low bytes of `rs2`,
-- the lowest first, and the next pc is the following word. Else it traps with the address and the
-- cause of its kind.
pub prepare_memory-IsPrepared :
    (i : Instr) (pc rs1 rs2 : ℕ) → IsPrepared i pc rs1 rs2 (prepare_memory i pc rs1 rs2)
unfolding prepare_memory
prepare_memory-IsPrepared (Instr.load op rd r offset) pc a b =
    check_aligned-IsAligned (a +% offset) (load_size op) (load_width op) _ _
      (TrapsAs (Instr.load op rd r offset)) (IsPlan (Instr.load op rd r offset) pc a b)
      (omega arith) (bytes-load_width op) refl
      (refl, bytes-load_width op, (refl, load_extension-Extends op, refl))
prepare_memory-IsPrepared (Instr.store op r q offset) pc a b =
    let (width, size, sent) = store_width_lem op b in
    check_aligned-IsAligned (a +% offset) (store_size op) (store_width op) _ _
      (TrapsAs (Instr.store op r q offset)) (IsPlan (Instr.store op r q offset) pc a b)
      (omega arith) width refl (refl, size, (sent, refl))
prepare_memory-IsPrepared _ pc a b = λ h. h
