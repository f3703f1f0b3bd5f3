-- ===== src/Rv32i/Privilege/Examples.antt =====
-- The supervisor state at concrete values.
use systemscope.Base.{not, ◌||◌, ◌≡◌, refl, true, false, some, arith}
use systemscope.Rv32i.Csr.{CsrFile, csr_new}
use systemscope.Rv32i.Execute.{TrapCause}
use systemscope.Rv32i.Privilege.{
  Privilege, Spp, M3State, is_machine, satp_reachable, m3_write, take_exception, m3_mret,
  m3_take_mei, m3_mei_eligible,
}
use systemscope.Rv32i.Privilege.Laws.{IsM3State}
use systemscope.Rv32i.Privilege.Traps.{IsDelivered, take_exception-IsDelivered, m3_mret-m3_take_mei}

-- User mode, with environment calls and page faults delegated to a handler at 0x400.
abbrev user_state : M3State
user_state = record {
  privilege = Privilege.user;
  sie = true;
  spie = false;
  spp = Spp.supervisor;
  mpp = Privilege.user;
  sum = false;
  mxr = true;
  medeleg = 0xb100;
  stvec = 0x400;
  sscratch = 0;
  sepc = 0;
  scause = 0;
  stval = 0;
  satp = 0x8000_0005;
}

abbrev enabled_file : CsrFile
enabled_file = record csr_new { meie = true; irq_level = true; mtvec = 0x80 }

user_state-IsM3State : IsM3State user_state
unfolding satp_reachable
user_state-IsM3State = record {
  stvec_aligned = refl;
  sepc_aligned = refl;
  stvec_word = omega arith;
  sepc_word = omega arith;
  medeleg_low = omega arith;
  ecall_s_stays = refl;
  ecall_m_stays = refl;
  satp_legal = refl;
}

abbrev trapped : M3State
trapped = record user_state {
  spp = Spp.user;
  sepc = 0x1004;
  scause = 8;
  spie = true;
  sie = false;
  privilege = Privilege.supervisor;
}

take_ecall :
    take_exception user_state TrapCause.environment_call_from_u 0x1004 0 ≡ some (trapped, 0x400)
unfolding take_exception
take_ecall = refl

eligible : m3_mei_eligible user_state enabled_file ≡ true
unfolding m3_mei_eligible csr_new
eligible = refl

write_stvec :
    m3_write user_state csr_new 0x105 0x803 ≡ some (record user_state { stvec = 0x800 }, csr_new)
unfolding m3_write
write_stvec = refl

take_exception-IsDelivered_example :
    IsDelivered user_state TrapCause.environment_call_from_u 0x1004 0 (trapped, 0x400)
take_exception-IsDelivered_example =
    take_exception-IsDelivered user_state TrapCause.environment_call_from_u 0x1004 0
      user_state-IsM3State refl (omega arith) take_ecall

m3_mret-m3_take_mei_example :
    let (s', m', target) = m3_take_mei user_state enabled_file 0x1008 in
    let (s'', m'', back) = m3_mret s' m' in
    (enabled_file.irq_level ≡ true)
    × (enabled_file.meie ≡ true)
    × ((not (is_machine user_state.privilege) || enabled_file.mie) ≡ true)
    × (s'.privilege ≡ Privilege.machine)
    × (target ≡ enabled_file.mtvec)
    × (m3_mei_eligible s' m' ≡ false)
    × (s''.privilege ≡ Privilege.user)
    × (m''.mie ≡ enabled_file.mie)
    × (back ≡ 0x1008)
    × (m3_mei_eligible s'' m'' ≡ true)
m3_mret-m3_take_mei_example = m3_mret-m3_take_mei user_state enabled_file 0x1008 eligible
