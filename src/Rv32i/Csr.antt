-- ===== src/Rv32i/Csr.antt =====
-- components/rv32i/src/csr.rs: the machine CSRs, the Zicsr words, `MRET` and the machine external
-- interrupt. A method on `&mut self` returns the new file.
mod Examples
pub mod Laws
use systemscope.Base.{
  ℕ, ◌%◌, ◌^◌, Bool, true, false, ◌&&◌, ◌||◌, Option, none, some, List, [], ◌∷◌, bit_and, bit_or,
  ◌==◌, ◌!=◌, if◌then◌else◌,
}
use systemscope.Base.Word.{◌<<◌, ◌>>◌, complement, has, from_bool}
use systemscope.Rv32i.Instr.{Reg, reg_field}

abbrev pub mstatus_csr : ℕ
mstatus_csr = 0x300

abbrev pub mie_csr : ℕ
mie_csr = 0x304

abbrev pub mtvec_csr : ℕ
mtvec_csr = 0x305

abbrev pub mscratch_csr : ℕ
mscratch_csr = 0x340

abbrev pub mepc_csr : ℕ
mepc_csr = 0x341

abbrev pub mcause_csr : ℕ
mcause_csr = 0x342

abbrev pub mtval_csr : ℕ
mtval_csr = 0x343

abbrev pub mip_csr : ℕ
mip_csr = 0x344

-- `slice.contains`.
abbrev pub contains : List ℕ → ℕ → Bool
contains [] n = false
contains (c ∷ cs) n = n == c || contains cs n

abbrev pub supported : List ℕ
supported =
    mstatus_csr ∷ mie_csr ∷ mip_csr ∷ mtvec_csr ∷ mscratch_csr ∷ mepc_csr ∷ mcause_csr ∷ mtval_csr
    ∷ []

unfoldable pub is_supported : ℕ → Bool
is_supported number = contains supported number

abbrev pub mret_word : ℕ
mret_word = 0x3020_0073

abbrev pub mstatus_mie : ℕ
mstatus_mie = 2 ^ 3

abbrev pub mstatus_mpie : ℕ
mstatus_mpie = 2 ^ 7

abbrev pub mstatus_mpp : ℕ
mstatus_mpp = 0x1800

abbrev pub mei_bit : ℕ
mei_bit = 2 ^ 11

abbrev pub mei_cause : ℕ
mei_cause = 0x8000_000b

pub data CsrOp : Type 0 where
  write set clear : CsrOp

unfoldable pub csr_apply : CsrOp → ℕ → ℕ → ℕ
csr_apply CsrOp.write old operand = operand
csr_apply CsrOp.set old operand = bit_or old operand
csr_apply CsrOp.clear old operand = bit_and old (complement operand)

pub data CsrSource : Type 0 where
  reg : Reg → CsrSource
  imm : ℕ → CsrSource

pub data PrivInstr : Type 0 where
  csr : (op : CsrOp) (rd : Reg) (src : CsrSource) (number : ℕ) → PrivInstr
  mret : PrivInstr

abbrev is_nonzero : CsrSource → Bool
is_nonzero (CsrSource.reg rs1) = rs1.index != 0
is_nonzero (CsrSource.imm uimm) = uimm != 0

-- `PrivInstr::writes`.
unfoldable pub priv_writes : PrivInstr → Bool
priv_writes (PrivInstr.csr CsrOp.write _ _ _) = true
priv_writes (PrivInstr.csr _ _ src _) = is_nonzero src
priv_writes PrivInstr.mret = false

unfoldable pub csr_op : ℕ → Option CsrOp
csr_op funct3 =
    if bit_and funct3 0b11 == 1
    then some CsrOp.write
    else if bit_and funct3 0b11 == 2
    then some CsrOp.set
    else if bit_and funct3 0b11 == 3
    then some CsrOp.clear
    else none

unfoldable pub decode_privileged : ℕ → Option PrivInstr
unfolding csr_op
decode_privileged word =
    let funct3 = bit_and (word >> 12) 0x7 in
    let src =
      if bit_and funct3 0b100 == 0
      then CsrSource.reg (reg_field word 15)
      else CsrSource.imm (bit_and (word >> 15) 0x1f % 2 ^ 8) in
    if word == mret_word
    then some PrivInstr.mret
    else if bit_and word 0x7f != 0b111_0011
    then none
    else elim (csr_op funct3) [
      | some op ↦ some (PrivInstr.csr op (reg_field word 7) src ((word >> 20) % 2 ^ 16))
      | none ↦ none
    ]

pub record CsrFile : Type 0 where
  pub mie : Bool
  pub mpie : Bool
  pub meie : Bool
  pub mtvec : ℕ
  pub mscratch : ℕ
  pub mepc : ℕ
  pub mcause : ℕ
  pub mtval : ℕ
  pub irq_level : Bool

unfoldable pub csr_new : CsrFile
csr_new = record {
  mie = false;
  mpie = false;
  meie = false;
  mtvec = 0;
  mscratch = 0;
  mepc = 0;
  mcause = 0;
  mtval = 0;
  irq_level = false;
}

unfoldable pub csr_mstatus : CsrFile → ℕ
csr_mstatus c = bit_or (bit_or (from_bool c.mie << 3) (from_bool c.mpie << 7)) mstatus_mpp

unfoldable pub csr_read : CsrFile → ℕ → Option ℕ
unfolding csr_mstatus
csr_read c number =
    if number == mstatus_csr
    then some (csr_mstatus c)
    else if number == mie_csr
    then some (from_bool c.meie << 11)
    else if number == mip_csr
    then some (from_bool c.irq_level << 11)
    else if number == mtvec_csr
    then some c.mtvec
    else if number == mscratch_csr
    then some c.mscratch
    else if number == mepc_csr
    then some c.mepc
    else if number == mcause_csr
    then some c.mcause
    else if number == mtval_csr
    then some c.mtval
    else none

-- `none` is a write that the file does not support, which changes nothing.
unfoldable pub csr_write : CsrFile → ℕ → ℕ → Option CsrFile
csr_write c number value =
    if number == mstatus_csr
    then some (record c { mie = has value mstatus_mie; mpie = has value mstatus_mpie })
    else if number == mie_csr
    then some (record c { meie = has value mei_bit })
    else if number == mip_csr
    then some c
    else if number == mtvec_csr
    then some (record c { mtvec = bit_and value (complement 0b11) })
    else if number == mscratch_csr
    then some (record c { mscratch = value })
    else if number == mepc_csr
    then some (record c { mepc = bit_and value (complement 0b11) })
    else if number == mcause_csr
    then some (record c { mcause = value })
    else if number == mtval_csr
    then some (record c { mtval = value })
    else none

unfoldable pub csr_mret : CsrFile → CsrFile × ℕ
csr_mret c = (record c { mie = c.mpie; mpie = true }, c.mepc)

unfoldable pub csr_mei_eligible : CsrFile → Bool
csr_mei_eligible c = c.mie && c.meie && c.irq_level

unfoldable pub csr_take_mei : CsrFile → ℕ → CsrFile × ℕ
csr_take_mei c next_pc =
    (record c { mepc = next_pc; mcause = mei_cause; mtval = 0; mpie = c.mie; mie = false }, c.mtvec)
