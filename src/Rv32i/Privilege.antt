-- ===== src/Rv32i/Privilege.antt =====
-- components/rv32i/src/privilege.rs: the modes, the supervisor CSRs, delegated exceptions and the
-- interrupt with modes. A method on `&mut self` and `&mut CsrFile` returns what it changes.
mod Examples
pub mod Csrs
pub mod Laws
pub mod Traps
pub mod Words
use systemscope.Base.{
  ℕ, ◌+◌, ◌%◌, ◌^◌, Bool, true, false, not, ◌&&◌, ◌||◌, Option, none, some, List, [], ◌∷◌, ◌++◌,
  bit_and, bit_or, ◌==◌, ◌!=◌, ltb, leb, if◌then◌else◌,
}
use systemscope.Base.Word.{◌<<◌, ◌>>◌, complement, has, from_bool}
use systemscope.Rv32i.Csr.{
  CsrFile, contains, supported, csr_read, csr_write, csr_take_mei, mstatus_csr, mie_csr, mip_csr,
  mtvec_csr, mscratch_csr, mepc_csr, mcause_csr, mtval_csr, mstatus_mie, mstatus_mpie,
}
use systemscope.Rv32i.Execute.{TrapCause, code}

abbrev pub sstatus_csr : ℕ
sstatus_csr = 0x100

abbrev pub sie_csr : ℕ
sie_csr = 0x104

abbrev pub stvec_csr : ℕ
stvec_csr = 0x105

abbrev pub sscratch_csr : ℕ
sscratch_csr = 0x140

abbrev pub sepc_csr : ℕ
sepc_csr = 0x141

abbrev pub scause_csr : ℕ
scause_csr = 0x142

abbrev pub stval_csr : ℕ
stval_csr = 0x143

abbrev pub sip_csr : ℕ
sip_csr = 0x144

abbrev pub satp_csr : ℕ
satp_csr = 0x180

abbrev pub medeleg_csr : ℕ
medeleg_csr = 0x302

abbrev pub mideleg_csr : ℕ
mideleg_csr = 0x303

abbrev pub m3_supported : List ℕ
m3_supported =
    mstatus_csr ∷ mie_csr ∷ mip_csr ∷ mtvec_csr ∷ mscratch_csr ∷ mepc_csr ∷ mcause_csr ∷ mtval_csr
    ∷ sstatus_csr ∷ sie_csr ∷ sip_csr ∷ stvec_csr ∷ sscratch_csr ∷ sepc_csr ∷ scause_csr ∷ stval_csr
    ∷ satp_csr ∷ medeleg_csr ∷ mideleg_csr ∷ []

unfoldable pub m3_is_supported : ℕ → Bool
m3_is_supported csr = contains m3_supported csr

abbrev pub sret_word : ℕ
sret_word = 0x1020_0073

abbrev pub mstatus_sie : ℕ
mstatus_sie = 2 ^ 1

abbrev pub mstatus_spie : ℕ
mstatus_spie = 2 ^ 5

abbrev pub mstatus_spp : ℕ
mstatus_spp = 2 ^ 8

abbrev pub mstatus_mpp_shift : ℕ
mstatus_mpp_shift = 11

abbrev pub mstatus_sum : ℕ
mstatus_sum = 2 ^ 18

abbrev pub mstatus_mxr : ℕ
mstatus_mxr = 2 ^ 19

abbrev pub sstatus_mask : ℕ
sstatus_mask = 0xC0122

abbrev pub medeleg_mask : ℕ
medeleg_mask = 0xB1FF

abbrev pub satp_mode : ℕ
satp_mode = 2 ^ 31

abbrev pub satp_asid : ℕ
satp_asid = 0x7FC0_0000

abbrev pub satp_ppn : ℕ
satp_ppn = 0x003F_FFFF

pub data Privilege : Type 0 where
  user supervisor machine : Privilege

abbrev pub privilege_bits : Privilege → ℕ
privilege_bits Privilege.user = 0
privilege_bits Privilege.supervisor = 1
privilege_bits Privilege.machine = 3

unfoldable pub privilege_from_bits : ℕ → Option Privilege
privilege_from_bits bits =
    if bits == 0
    then some Privilege.user
    else if bits == 1
    then some Privilege.supervisor
    else if bits == 3
    then some Privilege.machine
    else none

abbrev pub is_machine : Privilege → Bool
is_machine Privilege.machine = true
is_machine _ = false

pub data Spp : Type 0 where
  user supervisor : Spp

abbrev pub spp_bits : Spp → ℕ
spp_bits Spp.user = 0
spp_bits Spp.supervisor = 1

abbrev pub spp_privilege : Spp → Privilege
spp_privilege Spp.user = Privilege.user
spp_privilege Spp.supervisor = Privilege.supervisor

unfoldable pub legal_mpp : ℕ → Privilege
legal_mpp field =
    if bit_and field 0b11 == 1
    then Privilege.supervisor
    else if bit_and field 0b11 == 3
    then Privilege.machine
    else Privilege.user

unfoldable pub accessible : ℕ → Privilege → Bool → Bool
accessible csr privilege writes =
    leb (bit_and (csr >> 8) 0b11) (privilege_bits privilege)
    && not (writes && bit_and (csr >> 10) 0b11 == 0b11)

unfoldable pub satp_write : ℕ → ℕ
satp_write value = bit_and value (complement satp_asid)

unfoldable pub satp_reachable : ℕ → Bool
satp_reachable value = bit_and value satp_asid == 0

pub data SupervisorInstr : Type 0 where
  sret sfence_vma : SupervisorInstr

unfoldable pub decode_supervisor : ℕ → Option SupervisorInstr
decode_supervisor word =
    if word == sret_word
    then some SupervisorInstr.sret
    else if bit_and word 0xFE00_7FFF == 0x1200_0073
    then some SupervisorInstr.sfence_vma
    else none

pub record M3State : Type 0 where
  pub privilege : Privilege
  pub sie : Bool
  pub spie : Bool
  pub spp : Spp
  pub mpp : Privilege
  pub sum : Bool
  pub mxr : Bool
  pub medeleg : ℕ
  pub stvec : ℕ
  pub sscratch : ℕ
  pub sepc : ℕ
  pub scause : ℕ
  pub stval : ℕ
  pub satp : ℕ

unfoldable pub m3_new : M3State
m3_new = record {
  privilege = Privilege.machine;
  sie = false;
  spie = false;
  spp = Spp.user;
  mpp = Privilege.user;
  sum = false;
  mxr = false;
  medeleg = 0;
  stvec = 0;
  sscratch = 0;
  sepc = 0;
  scause = 0;
  stval = 0;
  satp = 0;
}

unfoldable pub m3_sstatus : M3State → ℕ
m3_sstatus s =
    bit_or
      (bit_or (bit_or (bit_or (from_bool s.sie << 1) (from_bool s.spie << 5)) (spp_bits s.spp << 8))
        (from_bool s.sum << 18))
      (from_bool s.mxr << 19)

unfoldable pub m3_mstatus : M3State → CsrFile → ℕ
unfolding m3_sstatus
m3_mstatus s m =
    bit_or (bit_or (bit_or (m3_sstatus s) (from_bool m.mie << 3)) (from_bool m.mpie << 7))
      (privilege_bits s.mpp << mstatus_mpp_shift)

-- The machine CSRs that both profiles keep in the M2 file.
abbrev pub is_machine_csr : ℕ → Bool
is_machine_csr csr =
    csr == mie_csr
    || csr == mip_csr
    || csr == mtvec_csr
    || csr == mscratch_csr
    || csr == mepc_csr
    || csr == mcause_csr
    || csr == mtval_csr

unfoldable pub m3_read : M3State → CsrFile → ℕ → Option ℕ
unfolding m3_mstatus m3_sstatus csr_read
m3_read s m csr =
    if csr == mstatus_csr
    then some (m3_mstatus s m)
    else if csr == sstatus_csr
    then some (m3_sstatus s)
    else if csr == medeleg_csr
    then some s.medeleg
    else if csr == mideleg_csr || csr == sie_csr || csr == sip_csr
    then some 0
    else if csr == stvec_csr
    then some s.stvec
    else if csr == sscratch_csr
    then some s.sscratch
    else if csr == sepc_csr
    then some s.sepc
    else if csr == scause_csr
    then some s.scause
    else if csr == stval_csr
    then some s.stval
    else if csr == satp_csr
    then some s.satp
    else if is_machine_csr csr
    then csr_read m csr
    else none

unfoldable pub write_sstatus : M3State → ℕ → M3State
write_sstatus s value = record s {
  sie = has value mstatus_sie;
  spie = has value mstatus_spie;
  spp = if has value mstatus_spp then Spp.supervisor else Spp.user;
  sum = has value mstatus_sum;
  mxr = has value mstatus_mxr;
}

abbrev pub with_machine : M3State → Option CsrFile → Option (M3State × CsrFile)
with_machine s (some m) = some (s, m)
with_machine s none = none

unfoldable pub m3_write : M3State → CsrFile → ℕ → ℕ → Option (M3State × CsrFile)
unfolding write_sstatus legal_mpp satp_write csr_write
m3_write s m csr value =
    if csr == mstatus_csr
    then some (
      write_sstatus (record s { mpp = legal_mpp (value >> mstatus_mpp_shift) }) value,
      record m { mie = has value mstatus_mie; mpie = has value mstatus_mpie },
    )
    else if csr == sstatus_csr
    then some (write_sstatus s value, m)
    else if csr == medeleg_csr
    then some (record s { medeleg = bit_and value medeleg_mask }, m)
    else if csr == mideleg_csr || csr == sie_csr || csr == sip_csr
    then some (s, m)
    else if csr == stvec_csr
    then some (record s { stvec = bit_and value (complement 0b11) }, m)
    else if csr == sscratch_csr
    then some (record s { sscratch = value }, m)
    else if csr == sepc_csr
    then some (record s { sepc = bit_and value (complement 0b11) }, m)
    else if csr == scause_csr
    then some (record s { scause = value }, m)
    else if csr == stval_csr
    then some (record s { stval = value }, m)
    else if csr == satp_csr
    then some (record s { satp = satp_write value }, m)
    else if is_machine_csr csr
    then with_machine s (csr_write m csr value)
    else none

unfoldable pub m3_mret : M3State → CsrFile → M3State × CsrFile × ℕ
m3_mret s m = (
  record s { privilege = s.mpp; mpp = Privilege.user },
  record m { mie = m.mpie; mpie = true },
  m.mepc,
)

unfoldable pub m3_sret : M3State → M3State × ℕ
m3_sret s = (
  record s { privilege = spp_privilege s.spp; spp = Spp.user; sie = s.spie; spie = true },
  s.sepc,
)

unfoldable pub translates : M3State → Bool
translates s = not (is_machine s.privilege) && has s.satp satp_mode

unfoldable pub root : M3State → ℕ
root s = bit_and s.satp satp_ppn

unfoldable pub delegates : M3State → TrapCause → Bool
unfolding code
delegates s cause = not (is_machine s.privilege) && bit_and (s.medeleg >> code cause) 1 == 1

-- The entry once `SPP` is known.
abbrev pub enter_supervisor : M3State → Spp → TrapCause → ℕ → ℕ → Option (M3State × ℕ)
enter_supervisor s spp cause pc tval = some (
  record s {
    spp = spp;
    sepc = pc;
    scause = code cause;
    stval = tval;
    spie = s.sie;
    sie = false;
    privilege = Privilege.supervisor;
  },
  bit_and s.stvec (complement 0b11),
)

-- `match self.privilege`: in machine mode nothing is delivered.
abbrev pub from_mode : Privilege → M3State → TrapCause → ℕ → ℕ → Option (M3State × ℕ)
from_mode Privilege.user s cause pc tval = enter_supervisor s Spp.user cause pc tval
from_mode Privilege.supervisor s cause pc tval = enter_supervisor s Spp.supervisor cause pc tval
from_mode Privilege.machine s cause pc tval = none

unfoldable pub take_exception : M3State → TrapCause → ℕ → ℕ → Option (M3State × ℕ)
unfolding delegates
take_exception s cause pc tval =
    if delegates s cause then from_mode s.privilege s cause pc tval else none

unfoldable pub m3_mei_eligible : M3State → CsrFile → Bool
m3_mei_eligible s m = m.irq_level && m.meie && (ltb (privilege_bits s.privilege) 3 || m.mie)

unfoldable pub m3_take_mei : M3State → CsrFile → ℕ → M3State × CsrFile × ℕ
unfolding csr_take_mei
m3_take_mei s m next_pc =
    let (m', pc) = csr_take_mei m next_pc in
    (record s { mpp = s.privilege; privilege = Privilege.machine }, m', pc)
