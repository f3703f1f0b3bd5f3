-- ===== src/Rv32i/Privilege/Laws.antt =====
-- The invariant of the supervisor state, kept by every operation.
use systemscope.Base.{
  ℕ, ◌+◌, ◌*◌, ◌/◌, ◌%◌, ◌^◌, ◌<◌, ◌≡◌, ◌↔◌, refl, Bool, true, ◌||◌, Option, none, some, arith,
  bit_and, ◌==◌, if◌then◌else◌, split_some, subst_some,
}
use systemscope.Base.Bits.{bit_and_mask, bit_and_shifted, bit_and_digit, bit_and_add}
use systemscope.Base.Word.{complement, digit, clear_low_two}
use systemscope.Rv32i.Csr.{CsrFile, csr_write, mstatus_csr}
use systemscope.Rv32i.Csr.Laws.{IsCsrFile, csr_write-IsCsrFile}
use systemscope.Rv32i.Privilege.{
  Privilege, M3State, m3_new, m3_write, write_sstatus, satp_write, satp_reachable, medeleg_mask,
  is_machine_csr, sstatus_csr, sie_csr, stvec_csr, sscratch_csr, sepc_csr, scause_csr, stval_csr,
  sip_csr, satp_csr, medeleg_csr, mideleg_csr, legal_mpp, mstatus_mpp_shift, with_machine,
}

-- `stvec` and `sepc` are aligned words, `medeleg` has none of the bits that cannot be delegated,
-- and `satp` has no address-space number.
pub record IsM3State (s : M3State) : Type 0 where
  pub stvec_aligned : s.stvec % 4 ≡ 0
  pub sepc_aligned : s.sepc % 4 ≡ 0
  pub stvec_word : s.stvec < 2 ^ 32
  pub sepc_word : s.sepc < 2 ^ 32
  pub medeleg_low : s.medeleg < 2 ^ 16
  pub ecall_s_stays : digit 9 s.medeleg ≡ 0
  pub ecall_m_stays : digit 11 s.medeleg ≡ 0
  pub satp_legal : satp_reachable s.satp ≡ true

medeleg_bits :
    (v : ℕ) → bit_and v medeleg_mask ≡ v % 2 ^ 9 + v / 2 ^ 12 % 4 * 2 ^ 12 + digit 15 v * 2 ^ 15
medeleg_bits v = omega (
  arith,
  bit_and_add v 0x1ff 0xb000 refl,
  bit_and_add v 0x3000 0x8000 refl,
  bit_and_mask 9 v,
  bit_and_shifted 12 v 3,
  bit_and_mask 2 (v / 2 ^ 12),
  bit_and_digit 15 v,
)

satp_bits : (v : ℕ) → satp_write v ≡ v % 2 ^ 22 + digit 31 v * 2 ^ 31
unfolding satp_write
satp_bits v =
    omega (arith, bit_and_add v 0x3fffff 0x80000000 refl, bit_and_mask 22 v, bit_and_digit 31 v)

pub satp_reachable_iff : (v : ℕ) → (satp_reachable v ≡ true) ↔ (v / 2 ^ 22 % 2 ^ 9 ≡ 0)
unfolding satp_reachable
satp_reachable_iff v = ground (arith, bit_and_shifted 22 v 0x1ff, bit_and_mask 9 (v / 2 ^ 22))

pub m3_new-IsM3State : IsM3State m3_new
unfolding m3_new
m3_new-IsM3State = record {
  stvec_aligned = refl;
  sepc_aligned = refl;
  stvec_word = omega arith;
  sepc_word = omega arith;
  medeleg_low = omega arith;
  ecall_s_stays = refl;
  ecall_m_stays = refl;
  satp_legal = (satp_reachable_iff 0).1 refl;
}

-- Both parts of the hart's privileged state are well formed.
abbrev pub IsHart : M3State × CsrFile → Type 0
IsHart p = IsM3State p.0 × IsCsrFile p.1

module _ (s : M3State) (h : IsM3State s) where
  sstatus_keeps : (v : ℕ) (p : Privilege) → IsM3State (write_sstatus (record s { mpp = p }) v)
  unfolding write_sstatus
  sstatus_keeps v p = ground arith

  medeleg_keeps : (v : ℕ) → IsM3State (record s { medeleg = bit_and v medeleg_mask })
  medeleg_keeps v = ground (arith, medeleg_bits v)

  stvec_keeps : (v : ℕ) → v < 2 ^ 32 → IsM3State (record s { stvec = bit_and v (complement 3) })
  stvec_keeps v l = ground (arith, clear_low_two v l)

  sepc_keeps : (v : ℕ) → v < 2 ^ 32 → IsM3State (record s { sepc = bit_and v (complement 3) })
  sepc_keeps v l = ground (arith, clear_low_two v l)

  satp_keeps : (v : ℕ) → IsM3State (record s { satp = satp_write v })
  satp_keeps v =
      let ok : satp_reachable (satp_write v) ≡ true =
        (satp_reachable_iff (satp_write v)).1 (omega (arith, satp_bits v)) in
      ground (arith, ok)

-- A write of a word by any CSR number keeps the state well formed.
pub m3_write-IsHart :
    (s : M3State) (m : CsrFile) (n v : ℕ) {p : M3State × CsrFile}
    → IsM3State s
    → IsCsrFile m
    → v < 2 ^ 32
    → m3_write s m n v ≡ some p
    → IsHart p
unfolding m3_write
m3_write-IsHart s m n v {p} h g l =
    arm (n == mstatus_csr) _
      (sstatus_keeps s h v (legal_mpp (v / 2 ^ mstatus_mpp_shift)), ground arith)
      (arm (n == sstatus_csr) _ (sstatus_keeps s h v s.mpp, g)
        (arm (n == medeleg_csr) _ (medeleg_keeps s h v, g)
          (arm (n == mideleg_csr || n == sie_csr || n == sip_csr) _ (h, g)
            (arm (n == stvec_csr) _ (stvec_keeps s h v l, g)
              (arm (n == sscratch_csr) _ (ground arith, g)
                (arm (n == sepc_csr) _ (sepc_keeps s h v l, g)
                  (arm (n == scause_csr) _ (ground arith, g)
                    (arm (n == stval_csr) _ (ground arith, g)
                      (arm (n == satp_csr) _ (satp_keeps s h v, g)
                        (split_some IsHart (is_machine_csr n) (λ _. machine (csr_write m n v) refl)
                          (λ e. cc)))))))))))
  where
    arm :
        (b : Bool) (x : M3State × CsrFile) {y : Option (M3State × CsrFile)}
        → IsHart x
        → (y ≡ some p → IsHart p)
        → (if b then some x else y) ≡ some p
        → IsHart p
    arm b x k = split_some IsHart b λ _ e. subst_some IsHart e k

    machine : (o : Option CsrFile) → csr_write m n v ≡ o → with_machine s o ≡ some p → IsHart p
    machine (some m') e q = subst_some IsHart q (h, csr_write-IsCsrFile m n v g l e)
    machine none e q = cc
