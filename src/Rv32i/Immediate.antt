-- ===== src/Rv32i/Immediate.antt =====
-- components/rv32i/src/immediate.rs: the immediates of an instruction word, as bit patterns.
pub mod Layout
use systemscope.Base.{ℕ, bit_and, bit_or}
use systemscope.Base.Word.{◌>>◌, ◌<<◌, ◌>>ₐ◌}

unfoldable pub imm_i : ℕ → ℕ
imm_i word = word >>ₐ 20

unfoldable pub imm_s : ℕ → ℕ
imm_s word = bit_or (word >>ₐ 25 << 5) (bit_and (word >> 7) 0x1f)

unfoldable pub imm_b : ℕ → ℕ
imm_b word =
    bit_or
      (bit_or (bit_or (word >>ₐ 31 << 12) (bit_and (word >> 7) 0x1 << 11))
        (bit_and (word >> 25) 0x3f << 5))
      (bit_and (word >> 8) 0xf << 1)

unfoldable pub imm_u : ℕ → ℕ
imm_u word = bit_and word 0xffff_f000

unfoldable pub imm_j : ℕ → ℕ
imm_j word =
    bit_or
      (bit_or (bit_or (word >>ₐ 31 << 20) (bit_and word 0x000f_f000))
        (bit_and (word >> 20) 0x1 << 11))
      (bit_and (word >> 21) 0x3ff << 1)
