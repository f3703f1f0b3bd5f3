-- ===== src/Rv32i/Regfile/Laws.antt =====
-- The register file keeps what is written, except in `x0`.
use systemscope.Base.{
  ℕ, zero, suc, ◌<◌, ◌≡◌, refl, arith, length, length-set, get_or-set_self, get_or-set_ne, ◌==◌,
  if◌then◌else◌,
}
use systemscope.Rv32i.Instr.{Reg}
use systemscope.Rv32i.Regfile.{
  RegisterFile, regfile_new, regfile_read, regfile_write, read_index, write_index,
}

-- Thirty-one registers are stored.
abbrev pub IsFile : RegisterFile → Type 0
IsFile f = length f.x ≡ 31

pub regfile_new-IsFile : IsFile regfile_new
unfolding regfile_new
regfile_new-IsFile = refl

pub regfile_write-IsFile :
    (f : RegisterFile) (reg : Reg) (v : ℕ) → IsFile f → IsFile (regfile_write f reg v)
unfolding regfile_write
regfile_write-IsFile f reg v h = go reg.index
  where
    go : (i : ℕ) → length (write_index f.x i v) ≡ 31
    go zero = h
    go (suc i) = omega (arith, length-set f.x i v)

-- Reading register `r` after a write to `s`, both below 32: `x0` reads 0, the written register
-- reads the value, and every other register reads as before.
regfile_read-regfile_write :
    (f : RegisterFile) (r s : Reg) (v : ℕ)
    → IsFile f
    → r.index < 32
    → regfile_read (regfile_write f s v) r
      ≡ (if r.index == 0 then 0 else if r.index == s.index then v else regfile_read f r)
unfolding regfile_read regfile_write
regfile_read-regfile_write f r s v h l = go r.index s.index l
  where
    go :
        (i j : ℕ)
        → i < 32
        → read_index (write_index f.x j v) i
          ≡ (if i == 0 then 0 else if i == j then v else read_index f.x i)
    go zero j l = refl
    go (suc i) zero l = ground arith
    go (suc i) (suc j) l = ground (arith, get_or-set_self f.x i v 0, get_or-set_ne f.x j i v 0)
