-- ===== src/Rv32i/Cpu/Wf/Csrs.antt =====
-- Reads and writes of the CPU's CSRs keep words, under every profile.
use systemscope.Base.{ℕ, ◌≡◌, refl, true, Option, none, some, arith, is_some, ◌∙◌}
use systemscope.Base.Bits.{bit_and-lt, bit_or-lt}
use systemscope.Base.Word.{◌<<◌, complement, from_bool}
use systemscope.Rv32i.Csr.{CsrFile, CsrOp, csr_apply, csr_read, csr_write, csr_mstatus, mstatus_mpp}
use systemscope.Rv32i.Csr.Laws.{IsCsrFile, csr_write-IsCsrFile, is_some-csr}
use systemscope.Rv32i.Privilege.{
  M3State, m3_read, m3_write, m3_mstatus, m3_sstatus, satp_write, write_sstatus, satp_asid,
  spp_bits, privilege_bits, mstatus_mpp_shift,
}
use systemscope.Rv32i.Privilege.Laws.{IsM3State, m3_write-IsHart}
use systemscope.Rv32i.Privilege.Csrs.{is_some-m3}
use systemscope.Rv32i.Cpu.State.{
  Rv32iProfile, Rv32iCpu, read_csr, with_csrs, with_hart, write_csr, read_under, write_under,
}
use systemscope.Rv32i.Cpu.Wf.{IsWord, AreWords, IsArch, supports}
use systemscope.Rv32i.Cpu.Wf.Effects.{Yields, Every}

pub csr_apply-IsWord :
    (op : CsrOp) (old x : ℕ) → IsWord old → IsWord x → IsWord (csr_apply op old x)
unfolding csr_apply
csr_apply-IsWord CsrOp.write old x h l = l
csr_apply-IsWord CsrOp.set old x h l = bit_or-lt 32 old x h l
csr_apply-IsWord CsrOp.clear old x h l = bit_and-lt 32 old (complement x) h

csr_mstatus-IsWord : (c : CsrFile) → IsWord (csr_mstatus c)
unfolding csr_mstatus
csr_mstatus-IsWord c =
    bit_or-lt 32 _ mstatus_mpp
      (bit_or-lt 32 (from_bool c.mie << 3) (from_bool c.mpie << 7) (omega arith) (omega arith))
      (omega arith)

csr_read-IsWord : (c : CsrFile) (n : ℕ) → IsCsrFile c → Every IsWord (csr_read c n)
unfolding csr_read
csr_read-IsWord c n h = ground (arith, csr_mstatus-IsWord c)

m3_sstatus-IsWord : (s : M3State) → IsWord (m3_sstatus s)
unfolding m3_sstatus
m3_sstatus-IsWord s =
    bit_or-lt 32 _ (from_bool s.mxr << 19)
      (bit_or-lt 32 _ (from_bool s.sum << 18)
        (bit_or-lt 32 _ (spp_bits s.spp << 8)
          (bit_or-lt 32 (from_bool s.sie << 1) (from_bool s.spie << 5) (omega arith) (omega arith))
          (omega arith))
        (omega arith))
      (omega arith)

m3_mstatus-IsWord : (s : M3State) (c : CsrFile) → IsWord (m3_mstatus s c)
unfolding m3_mstatus
m3_mstatus-IsWord s c =
    bit_or-lt 32 _ (privilege_bits s.mpp << mstatus_mpp_shift)
      (bit_or-lt 32 _ (from_bool c.mpie << 7)
        (bit_or-lt 32 (m3_sstatus s) (from_bool c.mie << 3) (m3_sstatus-IsWord s) (omega arith))
        (omega arith))
      (omega arith)

m3_read-IsWord :
    (s : M3State) (c : CsrFile) (n : ℕ)
    → IsM3State s
    → AreWords s
    → IsCsrFile c
    → Every IsWord (m3_read s c n)
unfolding m3_read
m3_read-IsWord s c n h w k =
    ground (arith, m3_mstatus-IsWord s c, m3_sstatus-IsWord s, csr_read-IsWord c n k)

satp_write-IsWord : (v : ℕ) → IsWord v → IsWord (satp_write v)
unfolding satp_write
satp_write-IsWord v l = bit_and-lt 32 v (complement satp_asid) l

m3_write-AreWords :
    (s : M3State) (c : CsrFile) (n v : ℕ)
    → AreWords s
    → IsWord v
    → Every (λ (q : M3State × CsrFile). AreWords q.0) (m3_write s c n v)
unfolding m3_write write_sstatus csr_write
m3_write-AreWords s c n v h l = ground (arith, satp_write-IsWord v l)

-- A property of the value, where there is one.
answered : {A : Type 0} (P : A → Type 0) (o : Option A) → Every P o → is_some o ≡ true → Yields P o
answered P (some a) h e = h
answered P none h e = cc

-- What a CSR write left: only the CSRs changed, and they are as well formed as before.
pub record IsWritten (c d : Rv32iCpu) : Type 0 where
  pub legal : IsArch d
  pub frame : d ≡ record c { csrs = d.csrs; m3 = d.m3 }

module _ (c : Rv32iCpu) (h : IsArch c) (n : ℕ) where
  read_under-Yields : (p : Rv32iProfile) → supports p n ≡ true → Yields IsWord (read_under p c n)
  read_under-Yields Rv32iProfile.m1 s =
      answered IsWord _ (csr_read-IsWord c.csrs n h.csrs_legal) ((is_some-csr c.csrs n 0).0 ∙ s)
  read_under-Yields Rv32iProfile.m2 s =
      answered IsWord _ (csr_read-IsWord c.csrs n h.csrs_legal) ((is_some-csr c.csrs n 0).0 ∙ s)
  read_under-Yields Rv32iProfile.m3 s =
      answered IsWord _ (m3_read-IsWord c.m3 c.csrs n h.hart_legal h.hart_words h.csrs_legal)
        ((is_some-m3 c.m3 c.csrs n 0).0 ∙ s)

  -- A supported CSR reads a word.
  pub read_csr-Yields : supports c.config.profile n ≡ true → Yields IsWord (read_csr c n)
  unfolding read_csr
  read_csr-Yields = read_under-Yields c.config.profile

  module _ (v : ℕ) (l : IsWord v) where
    with_csrs-IsWritten :
        (o : Option CsrFile)
        → csr_write c.csrs n v ≡ o
        → is_some o ≡ true
        → Yields (IsWritten c) (with_csrs c o)
    with_csrs-IsWritten none e s = absurd cc
    with_csrs-IsWritten (some m) e s = record {
      legal = record {
        pc_target = h.pc_target;
        regs_words = h.regs_words;
        csrs_legal = csr_write-IsCsrFile c.csrs n v h.csrs_legal l e;
        hart_legal = h.hart_legal;
        hart_words = h.hart_words;
      };
      frame = refl;
    }

    with_hart-IsWritten :
        (o : Option (M3State × CsrFile))
        → m3_write c.m3 c.csrs n v ≡ o
        → is_some o ≡ true
        → Every (λ (q : M3State × CsrFile). AreWords q.0) o
        → Yields (IsWritten c) (with_hart c o)
    with_hart-IsWritten none e s w = absurd cc
    with_hart-IsWritten (some (hart, m)) e s w =
        let (legal, file) = m3_write-IsHart c.m3 c.csrs n v h.hart_legal h.csrs_legal l e in
        record {
          legal = record {
            pc_target = h.pc_target;
            regs_words = h.regs_words;
            csrs_legal = file;
            hart_legal = legal;
            hart_words = w;
          };
          frame = refl;
        }

    write_under-Yields :
        (p : Rv32iProfile) → supports p n ≡ true → Yields (IsWritten c) (write_under p c n v)
    write_under-Yields Rv32iProfile.m1 s =
        with_csrs-IsWritten _ refl ((is_some-csr c.csrs n v).1 ∙ s)
    write_under-Yields Rv32iProfile.m2 s =
        with_csrs-IsWritten _ refl ((is_some-csr c.csrs n v).1 ∙ s)
    write_under-Yields Rv32iProfile.m3 s =
        with_hart-IsWritten _ refl ((is_some-m3 c.m3 c.csrs n v).1 ∙ s)
          (m3_write-AreWords c.m3 c.csrs n v h.hart_words l)

    -- A write of a word to a supported CSR succeeds.
    pub write_csr-Yields :
        supports c.config.profile n ≡ true → Yields (IsWritten c) (write_csr c n v)
    unfolding write_csr
    write_csr-Yields = write_under-Yields c.config.profile
