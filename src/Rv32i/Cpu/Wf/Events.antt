-- ===== src/Rv32i/Cpu/Wf/Events.antt =====
-- Every event keeps a CPU well formed.
use systemscope.Base.{
  ℕ, zero, suc, ◌+◌, ◌%◌, ◌^◌, ◌<◌, ◌≤◌, ◌≡◌, refl, sym, subst, Option, none, some, Result, ok, err,
  arith, if-cases, List, [], ◌∷◌, All, length, Option-cases, inl, inr,
}
use systemscope.Rv32i.Execute.{ExecOutcome, PendingTrap}
use systemscope.Rv32i.Memory.{
  MemWidth, LoadExtension, MemoryPlan, MemMsg, ReadOutcome, WriteOutcome, assemble, complete_memory,
  complete_load, complete_store, LoadPlan, StorePlan,
}
use systemscope.Rv32i.Sv32
use systemscope.Rv32i.Sv32.{Fault}
use systemscope.Rv32i.Cpu.Isa.{Outcome, Step}
use systemscope.Rv32i.Cpu.State.{
  Rv32iCpu, State, Walk, Purpose, cpu_isa, translating, walk_va, purpose_va, CpuFault, MemReq, Call,
  SimContext,
}
use systemscope.Rv32i.Cpu.Calls.{send_as}
use systemscope.Rv32i.Cpu.Handlers.{
  proceed, read_word, executed, fetched, completed, purpose_insn, walk_leaf, walk_down, walk_fault,
  walk_step, walk_read,
}
use systemscope.Rv32i.Cpu.Wf.{
  IsWord, IsExec, HasWord, IsPlan, IsStep, IsPurpose, IsWalk, IsCpu, IsLive, Holds, AreBytes,
}
use systemscope.Rv32i.Cpu.Wf.Effects.{Yields, Every}
use systemscope.Rv32i.Cpu.Wf.Decoding.{step-Yields}
use systemscope.Rv32i.Cpu.Wf.Traps.{live-IsCpu, ask-Holds}

-- A bound on every value of a result.
abbrev pub EachOk : {A E : Type 0} → (A → Type 0) → Result A E → Type 0
EachOk P (ok a) = P a
EachOk P (err e) = Unit

assemble-IsWord :
    (w : MemWidth) (x : LoadExtension) (l : List ℕ)
    → All (λ b. b < 256) l
    → Every IsWord (assemble w x l)
unfolding assemble
assemble-IsWord MemWidth.byte LoadExtension.signed (b ∷ []) h = ground arith
assemble-IsWord MemWidth.byte LoadExtension.unsigned (b ∷ []) h = ground arith
assemble-IsWord MemWidth.half LoadExtension.signed (b0 ∷ b1 ∷ []) h = ground arith
assemble-IsWord MemWidth.half LoadExtension.unsigned (b0 ∷ b1 ∷ []) h = ground arith
assemble-IsWord MemWidth.word x (b0 ∷ b1 ∷ b2 ∷ b3 ∷ []) h = ground arith
assemble-IsWord _ _ _ h = ground arith

load-IsExec :
    (plan : LoadPlan) (r : ReadOutcome)
    → IsPlan (MemoryPlan.load_plan plan)
    → AreBytes (MemMsg.read_resp r)
    → EachOk IsExec (complete_load plan r)
unfolding complete_load
load-IsExec plan ReadOutcome.access_fault h b = h.0
load-IsExec plan (ReadOutcome.bytes_in l) h b =
    let word = assemble-IsWord plan.width plan.extension l b in
    elim (Option-cases (assemble plan.width plan.extension l)) [
      | inl e ↦ rw (complete_load, e) tt
      | inr (v, e) ↦ rw (complete_load, e) (subst (Every IsWord) e word, h.1)
    ]

store-IsExec :
    (plan : StorePlan) (r : WriteOutcome)
    → IsPlan (MemoryPlan.store_plan plan)
    → IsExec (complete_store plan r)
unfolding complete_store
store-IsExec plan WriteOutcome.done h = (tt, h.1)
store-IsExec plan WriteOutcome.access_fault h = h.0

pub complete_memory-IsExec :
    (plan : MemoryPlan) (msg : MemMsg)
    → IsPlan plan
    → AreBytes msg
    → EachOk IsExec (complete_memory plan msg)
unfolding complete_memory
complete_memory-IsExec (MemoryPlan.load_plan plan) (MemMsg.read_resp r) h b = load-IsExec plan r h b
complete_memory-IsExec (MemoryPlan.store_plan plan) (MemMsg.write_resp r) h b =
    store-IsExec plan r h
complete_memory-IsExec _ _ h b = tt

pub read_word-IsWord :
    (length kind : CpuFault) (msg : MemMsg)
    → AreBytes msg
    → EachOk (Every IsWord) (read_word length kind msg)
read_word-IsWord length kind (MemMsg.read_resp (ReadOutcome.bytes_in (b0 ∷ b1 ∷ b2 ∷ b3 ∷ []))) h =
    omega arith
read_word-IsWord length kind _ h = ground arith

-- A pointer to a next table is found above level 0 only.
abbrev pub Descends : ℕ → Sv32.Step → Type 0
Descends zero (Sv32.Step.next table) = ⊥
Descends _ _ = Unit

pub step-Descends :
    (x : Sv32.Context) (va level pte : ℕ) → Descends level (Sv32.step x va level pte)
unfolding Sv32.step
step-Descends x va level pte = ground arith

abbrev StepHasWord : Option ℕ → Step → Type 0
StepHasWord insn (Step.done o) = HasWord insn o
StepHasWord none (Step.memory plan) = ⊥
StepHasWord (some w) (Step.memory plan) = Unit

some_word : (w : ℕ) (s : Step) → StepHasWord (some w) s
some_word w (Step.done o) = tt
some_word w (Step.memory plan) = tt

trap_word : (o : Option ℕ) (t : PendingTrap) → HasWord o (Outcome.exec (ExecOutcome.trap t))
trap_word none t = tt
trap_word (some w) t = tt

purpose_va-IsWord : (pc : ℕ) (p : Purpose) → IsWord pc → IsPurpose p → IsWord (purpose_va p pc)
purpose_va-IsWord pc Purpose.fetch h k = h
purpose_va-IsWord pc (Purpose.access insn (MemoryPlan.load_plan plan)) h k = k.0
purpose_va-IsWord pc (Purpose.access insn (MemoryPlan.store_plan plan)) h k = k.0

module _ (ctx : SimContext) (c : Rv32iCpu) (l : IsLive c) where
  pub send_as-Holds :
      (next : Option ℕ) (req : MemReq) (waiting : ℕ → State)
      → Yields (λ n. n ≡ (c.next_txn + 1) % 2 ^ 64) next
      → IsCpu (record c { next_txn = (c.next_txn + 1) % 2 ^ 64; state = waiting c.next_txn })
      → IsCpu c
      → Holds ctx (send_as next ctx c req waiting)
  send_as-Holds none req waiting y h k = absurd y
  send_as-Holds (some n) req waiting y h k =
      if-cases (Holds ctx) (ctx.refuses (Call.request c.next_txn req))
        (λ e. record {
          keeps = k;
          proceeds = λ g. let x = g (Call.request c.next_txn req) in absurd cc;
        })
        (λ e. record {
          keeps =
              subst (λ m. IsCpu (record c { next_txn = m; state = waiting c.next_txn })) (sym y) h;
          proceeds = λ g. refl;
        })

  pub proceed-Holds :
      (insn : Option ℕ) (s : Step) (pa : Option ℕ)
      → IsStep c.config.profile s
      → StepHasWord insn s
      → Holds ctx (proceed ctx c insn s pa)
  unfolding proceed
  proceed-Holds insn (Step.done o) pa h w = ask-Holds ctx _ _ (live-IsCpu c _ l l.below (h, w))
  proceed-Holds none (Step.memory plan) pa h w = absurd w
  proceed-Holds (some insn) (Step.memory plan) pa h w =
      if-cases (Holds ctx) (translating c)
        (λ _. ask-Holds ctx _ _ (live-IsCpu c _ l l.below (h, omega arith)))
        (λ _. ask-Holds ctx _ _ (live-IsCpu c _ l l.below h))

  executed-Holds :
      (w : ℕ) (s : Option Step)
      → Yields (IsStep c.config.profile) s
      → Holds ctx (executed ctx c w s)
  executed-Holds w none y = absurd y
  executed-Holds w (some s) y = proceed-Holds (some w) s none y (some_word w s)

  pub fetched-Holds : (o : Option ℕ) → Every IsWord o → Holds ctx (fetched ctx c (ok o))
  unfolding cpu_isa
  fetched-Holds none h = proceed-Holds none _ none l.arch.pc_target.1 tt
  fetched-Holds (some w) h =
      executed-Holds w _
        (step-Yields w c.pc c.regs h l.arch.pc_target l.arch.regs_words c.config.profile c.m3)

  pub completed-Holds :
      (insn : ℕ) (pa : Option ℕ) (o : ExecOutcome)
      → IsExec o
      → Holds ctx (completed ctx c insn pa (ok o))
  completed-Holds insn pa o h = proceed-Holds (some insn) _ _ h tt

  walk_va-IsWord : (w : Walk) → IsWalk w → IsWord (walk_va c w)
  unfolding walk_va
  walk_va-IsWord w h = purpose_va-IsWord c.pc w.purpose l.arch.pc_target.1 h.0

  walk_fault-Holds : (w : Walk) (f : Fault) → IsWalk w → Holds ctx (walk_fault ctx c w f)
  walk_fault-Holds w f h =
      ask-Holds ctx _ _
        (live-IsCpu c _ l l.below (walk_va-IsWord w h, trap_word (purpose_insn w.purpose) _))

  walk_leaf-Holds : (p : Purpose) (pa : ℕ) → IsPurpose p → Holds ctx (walk_leaf ctx c p pa)
  walk_leaf-Holds Purpose.fetch pa h = ask-Holds ctx _ _ (live-IsCpu c _ l l.below tt)
  walk_leaf-Holds (Purpose.access insn plan) pa h = ask-Holds ctx _ _ (live-IsCpu c _ l l.below h)

  walk_down-Holds :
      (p : Purpose) (level t : ℕ)
      → Descends level (Sv32.Step.next t)
      → IsPurpose p
      → level ≤ 1
      → Holds ctx (walk_down ctx c p level t)
  walk_down-Holds p zero t d h k = absurd d
  walk_down-Holds p (suc level) t d h k =
      ask-Holds ctx _ _ (live-IsCpu c _ l l.below (h, omega arith))

  walk_step-Holds :
      (w : Walk) (s : Sv32.Step) → Descends w.level s → IsWalk w → Holds ctx (walk_step ctx c w s)
  walk_step-Holds w (Sv32.Step.next t) d h = walk_down-Holds w.purpose w.level t d h.0 h.1
  walk_step-Holds w (Sv32.Step.leaf pa) d h = walk_leaf-Holds w.purpose pa h.0
  walk_step-Holds w Sv32.Step.page_fault d h = walk_fault-Holds w Fault.page h

  pub walk_read-Holds : (w : Walk) (o : Option ℕ) → IsWalk w → Holds ctx (walk_read ctx c w (ok o))
  walk_read-Holds w none h = walk_fault-Holds w Fault.access h
  walk_read-Holds w (some pte) h = walk_step-Holds w _ (step-Descends _ (walk_va c w) w.level pte) h
