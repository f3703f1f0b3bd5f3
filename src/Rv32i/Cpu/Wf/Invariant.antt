-- ===== src/Rv32i/Cpu/Wf/Invariant.antt =====
-- The CPU stays well formed, whatever the runtime delivers.
use systemscope.Base.{◌%◌, ◌^◌, ◌<◌, arith, if-cases, ◌!=◌}
use systemscope.Rv32i.Regfile.{regfile_new}
use systemscope.Rv32i.Csr.Laws.{csr_new-IsCsrFile}
use systemscope.Rv32i.Privilege.{m3_new}
use systemscope.Rv32i.Privilege.Laws.{m3_new-IsM3State}
use systemscope.Rv32i.Cpu.State.{Rv32iConfig, Rv32iCpu, cpu_new, SimContext}
use systemscope.Rv32i.Cpu.Handlers.{wake, Delivered, handle_event}
use systemscope.Rv32i.Cpu.Wf.{IsCpu, AreWords}
use systemscope.Rv32i.Cpu.Wf.Keeps.{CarriesBytes, NewCpu, wake_in-Keeps, on_port-Keeps}

-- The CPU stays well formed in every handler, also when the handler fails: `pc` an aligned word,
-- registers and CSRs legal words, the count below its limit until the CPU halts, and the state with
-- all that its next event needs. The bytes of a response are bytes.
pub handle_event-IsCpu :
    (ctx : SimContext) (c : Rv32iCpu) (e : Delivered)
    → IsCpu c
    → CarriesBytes e
    → IsCpu (handle_event ctx c e).cpu
unfolding handle_event wake
handle_event-IsCpu ctx c (Delivered.wake_token token) h y =
    wake_in-Keeps ctx c h c.state token h.counts h.holds
handle_event-IsCpu ctx c (Delivered.message port msg) h y =
    on_port-Keeps ctx c h c.config.profile port msg y

m3_new-AreWords : AreWords m3_new
unfolding m3_new
m3_new-AreWords = record {
  sscratch_word = omega arith;
  scause_word = omega arith;
  stval_word = omega arith;
  satp_word = omega arith;
}

-- A new CPU is refused exactly for a misaligned entry, and else it is well formed. The entry is a
-- word, and the limit is a nonzero `u64`.
pub cpu_new-IsCpu :
    (config : Rv32iConfig)
    → config.entry < 2 ^ 32
    → 0 < config.max_instructions
    → config.max_instructions < 2 ^ 64
    → NewCpu config (cpu_new config)
unfolding cpu_new regfile_new
cpu_new-IsCpu config w p l =
    if-cases (NewCpu config) (config.entry % 4 != 0) (λ e. ground arith)
      (λ e. (
        ground arith,
        record {
          arch = record {
            pc_target = (ground arith, w);
            regs_words = omega arith;
            csrs_legal = csr_new-IsCsrFile;
            hart_legal = m3_new-IsM3State;
            hart_words = m3_new-AreWords;
          };
          limit_fits = l;
          txn_fits = omega arith;
          counts = p;
          holds = tt;
        },
      ))
