-- ===== src/Rv32i/Csr/Examples.antt =====
-- The machine CSRs at concrete values.
use systemscope.Base.{◌≡◌, refl, true, false, some, ◌==◌, if◌then◌else◌, arith}
use systemscope.Rv32i.Csr.{CsrFile, csr_read, csr_write, csr_mei_eligible}
use systemscope.Rv32i.Csr.Laws.{IsCsrFile, stored, csr_read-csr_write}

-- Interrupts enabled, a handler at 0x80, and the line raised.
abbrev enabled : CsrFile
enabled = record {
  mie = true;
  mpie = false;
  meie = true;
  mtvec = 0x80;
  mscratch = 7;
  mepc = 0;
  mcause = 0;
  mtval = 0;
  irq_level = true;
}

abbrev with_mepc : CsrFile
with_mepc = record enabled { mepc = 0x104 }

enabled-IsCsrFile : IsCsrFile enabled
enabled-IsCsrFile = omega arith

write_mepc : csr_write enabled 0x341 0x107 ≡ some with_mepc
unfolding csr_write
write_mepc = refl

enabled-eligible : csr_mei_eligible enabled ≡ true
unfolding csr_mei_eligible
enabled-eligible = refl

csr_read-csr_write_example :
    csr_read with_mepc 0x341
    ≡ (if 0x341 == 0x341 then some (stored enabled 0x341 0x107) else csr_read enabled 0x341)
csr_read-csr_write_example = csr_read-csr_write enabled 0x341 0x107 (omega arith) write_mepc 0x341
