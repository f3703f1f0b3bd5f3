-- ===== src/Rv32i/Decode/Operands.antt =====
-- The documented ranges of a decoded instruction's operands.
use systemscope.Base.{ℕ, ◌+◌, ◌%◌, ◌^◌, ◌≤◌, ◌<◌, ◌≡◌, ◌⊎◌}
use systemscope.Rv32i.Instr.{Reg, Instr}

abbrev pub IsReg : Reg → Type 0
IsReg r = r.index < 32

-- A bit pattern of 32 bits that stands for a value in `-n .. n`.
abbrev pub IsSigned : ℕ → ℕ → Type 0
IsSigned n x = (x < n) ⊎ ((2 ^ 32 ≤ x + n) × (x < 2 ^ 32))

abbrev pub InRange : Instr → Type 0
InRange (Instr.lui rd imm) = IsReg rd × (imm < 2 ^ 32) × (imm % 2 ^ 12 ≡ 0)
InRange (Instr.auipc rd imm) = IsReg rd × (imm < 2 ^ 32) × (imm % 2 ^ 12 ≡ 0)
InRange (Instr.jal rd offset) = IsReg rd × IsSigned (2 ^ 20) offset × (offset % 2 ≡ 0)
InRange (Instr.jalr rd rs1 offset) = IsReg rd × IsReg rs1 × IsSigned (2 ^ 11) offset
InRange (Instr.branch op rs1 rs2 offset) =
    IsReg rs1 × IsReg rs2 × IsSigned (2 ^ 12) offset × (offset % 2 ≡ 0)
InRange (Instr.load op rd rs1 offset) = IsReg rd × IsReg rs1 × IsSigned (2 ^ 11) offset
InRange (Instr.store op rs1 rs2 offset) = IsReg rs1 × IsReg rs2 × IsSigned (2 ^ 11) offset
InRange (Instr.op_imm op rd rs1 imm) = IsReg rd × IsReg rs1 × IsSigned (2 ^ 11) imm
InRange (Instr.shift_imm op rd rs1 shamt) = IsReg rd × IsReg rs1 × (shamt < 32)
InRange (Instr.op op rd rs1 rs2) = IsReg rd × IsReg rs1 × IsReg rs2
InRange _ = Unit
