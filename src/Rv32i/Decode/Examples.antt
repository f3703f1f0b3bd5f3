-- ===== src/Rv32i/Decode/Examples.antt =====
-- Runs of the decoder, and its laws at words of a program.
use systemscope.Base.{◌≡◌, refl, ok, inr, arith}
use systemscope.Rv32i.Immediate.{imm_i}
use systemscope.Rv32i.Instr.{BranchOp, ImmOp, Instr, reg_field}
use systemscope.Rv32i.Decode.{decode}
use systemscope.Rv32i.Decode.Sound.{IsDecoded, decode_sound}
use systemscope.Rv32i.Decode.Complete.{decode_complete}

-- `addi x5, x5, -1` and `beq x1, x2, -4`.
abbrev addi_down : Instr
addi_down = Instr.op_imm ImmOp.addi (record { index = 5 }) (record { index = 5 }) 0xffff_ffff

abbrev beq_back : Instr
beq_back = Instr.branch BranchOp.eq (record { index = 1 }) (record { index = 2 }) 0xffff_fffc

decode_addi : decode 0xfff2_8293 ≡ ok addi_down
unfolding decode reg_field imm_i
decode_addi = refl

decode_sound_example : IsDecoded 0xfff2_8293 addi_down
decode_sound_example = decode_sound 0xfff2_8293 (omega arith) decode_addi

decode_complete_example : decode 0xfe20_8ee3 ≡ ok beq_back
decode_complete_example =
    decode_complete 0xfe20_8ee3 beq_back (omega arith)
      (omega arith, omega arith, inr (omega arith, omega arith), refl) refl
