-- ===== src/Rv32i/Regfile.antt =====
-- components/rv32i/src/regfile.rs: `x1` to `x31` are stored, and `x0` is not.
pub mod Laws
use systemscope.Base.{ℕ, zero, suc, List, get_or, set, replicate}
use systemscope.Rv32i.Instr.{Reg}

pub record RegisterFile : Type 0 where
  pub x : List ℕ

unfoldable pub regfile_new : RegisterFile
regfile_new = record { x = replicate 31 0 }

-- `checked_sub(1)` of the index: register `i + 1` is at `x[i]`. A `Reg` is below 32,
-- so the index is in range and the default and the ignored write are not met.
pub read_index : List ℕ → ℕ → ℕ
read_index x zero = 0
read_index x (suc i) = get_or x i 0

pub write_index : List ℕ → ℕ → ℕ → List ℕ
write_index x zero value = x
write_index x (suc i) value = set x i value

unfoldable pub regfile_read : RegisterFile → Reg → ℕ
unfolding read_index
regfile_read f reg = read_index f.x reg.index

unfoldable pub regfile_write : RegisterFile → Reg → ℕ → RegisterFile
unfolding write_index
regfile_write f reg value = record { x = write_index f.x reg.index value }
