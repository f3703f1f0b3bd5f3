-- ===== src/Rv32i/Examples.antt =====
-- Execution, memory access and the register file at concrete values.
use systemscope.Base.{◌≡◌, refl, ok, arith}
use systemscope.Rv32i.Instr.{Instr, LoadOp, RegOp}
use systemscope.Rv32i.Execute.{ExecOutcome, writes, execute_alu, execute_control}
use systemscope.Rv32i.Memory.{
  MemWidth, LoadExtension, LoadPlan, MemoryPlan, MemoryPrep, MemMsg, ReadOutcome, low_bytes,
  prepare_memory, complete_memory,
}
use systemscope.Rv32i.Memory.Laws.{load-store_bytes}
use systemscope.Rv32i.Memory.Prepared.{IsPrepared, prepare_memory-IsPrepared}

abbrev jal_far : Instr
jal_far = Instr.jal (record { index = 1 }) 0x800

abbrev sub_instr : Instr
sub_instr = Instr.op RegOp.sub (record { index = 3 }) (record { index = 1 }) (record { index = 2 })

abbrev load_half : Instr
load_half = Instr.load LoadOp.h (record { index = 4 }) (record { index = 1 }) 2

abbrev half_plan : LoadPlan
half_plan = record {
  rd = record { index = 4 };
  addr = 0x102;
  width = MemWidth.half;
  extension = LoadExtension.signed;
  next_pc = 0x14;
}

run_jal :
    execute_control jal_far 0x100 0 0
    ≡ ok (ExecOutcome.effect (writes (record { index = 1 }) 0x104 0x900))
unfolding execute_control
run_jal = refl

run_sub : execute_alu sub_instr 0x100 3 5 ≡ ok (writes (record { index = 3 }) 0xffff_fffe 0x104)
unfolding execute_alu
run_sub = refl

run_prepare :
    prepare_memory load_half 0x10 0x100 0 ≡ ok (MemoryPrep.request (MemoryPlan.load_plan half_plan))
unfolding prepare_memory
run_prepare = refl

prepare_memory-IsPrepared_example :
    IsPrepared load_half 0x10 0x100 0 (prepare_memory load_half 0x10 0x100 0)
prepare_memory-IsPrepared_example = prepare_memory-IsPrepared load_half 0x10 0x100 0

load-store_bytes_example :
    complete_memory
      (MemoryPlan.load_plan half_plan)
      (MemMsg.read_resp (ReadOutcome.bytes_in (low_bytes MemWidth.half 0x1_8001)))
    ≡ ok (ExecOutcome.effect (writes (record { index = 4 }) 0xffff_8001 0x14))
load-store_bytes_example = load-store_bytes half_plan 0x1_8001 (omega arith)
