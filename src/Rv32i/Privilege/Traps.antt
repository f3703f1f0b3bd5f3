-- ===== src/Rv32i/Privilege/Traps.antt =====
-- Exception delivery and interrupt entry, and the returns from them.
use systemscope.Base.{
  ltb, ◌||◌, Option, List, [], ◌∷◌, get_elem?, ℕ, ◌/◌, ◌%◌, ◌^◌, ◌<◌, ◌≡◌, refl, ◌∙◌, Bool, true,
  false, not, ◌&&◌, some, none, arith, bit_and, ◌==◌, is_some, if◌then◌else◌, split_some,
  subst_some,
}
use systemscope.Base.Bits.{bit_and-one}
use systemscope.Base.Word.{digit, clear_low_two}
use systemscope.Rv32i.Csr.{CsrFile}
use systemscope.Rv32i.Execute.{TrapCause, code}
use systemscope.Rv32i.Privilege.{
  Privilege, M3State, privilege_bits, is_machine, delegates, take_exception, from_mode, m3_sret,
  m3_mret, m3_take_mei, m3_mei_eligible,
}
use systemscope.Rv32i.Privilege.Laws.{IsM3State}

-- The exceptions in the order of their numbers in the privileged specification, 10 and 14 of which are
-- reserved.
abbrev pub numbered_causes : List (Option TrapCause)
numbered_causes =
    some TrapCause.instruction_address_misaligned
    ∷ some TrapCause.instruction_access_fault
    ∷ some TrapCause.illegal_instruction
    ∷ some TrapCause.breakpoint
    ∷ some TrapCause.load_address_misaligned
    ∷ some TrapCause.load_access_fault
    ∷ some TrapCause.store_address_misaligned
    ∷ some TrapCause.store_access_fault
    ∷ some TrapCause.environment_call_from_u
    ∷ some TrapCause.environment_call_from_s
    ∷ none
    ∷ some TrapCause.environment_call
    ∷ some TrapCause.instruction_page_fault
    ∷ some TrapCause.load_page_fault
    ∷ none
    ∷ some TrapCause.store_page_fault
    ∷ []

code-numbered : (c : TrapCause) → get_elem? numbered_causes (code c) ≡ some (some c)
unfolding code
code-numbered TrapCause.instruction_address_misaligned = refl
code-numbered TrapCause.instruction_access_fault = refl
code-numbered TrapCause.illegal_instruction = refl
code-numbered TrapCause.breakpoint = refl
code-numbered TrapCause.load_address_misaligned = refl
code-numbered TrapCause.load_access_fault = refl
code-numbered TrapCause.store_address_misaligned = refl
code-numbered TrapCause.store_access_fault = refl
code-numbered TrapCause.environment_call_from_u = refl
code-numbered TrapCause.environment_call_from_s = refl
code-numbered TrapCause.environment_call = refl
code-numbered TrapCause.instruction_page_fault = refl
code-numbered TrapCause.load_page_fault = refl
code-numbered TrapCause.store_page_fault = refl

-- What the delivery of an exception of the instruction at `pc` did to the state.
pub record IsDelivered (s : M3State) (cause : TrapCause) (pc tval : ℕ) (q : M3State × ℕ)
    : Type 0 where
  pub in_supervisor : q.0.privilege ≡ Privilege.supervisor
  pub masked : q.0.sie ≡ false
  pub scause_set : q.0.scause ≡ code cause
  pub numbered : get_elem? numbered_causes q.0.scause ≡ some (some cause)
  pub stval_set : q.0.stval ≡ tval
  pub handler : q.1 ≡ s.stvec
  pub returns_to : (m3_sret q.0).1 ≡ pc
  pub returns_in : (m3_sret q.0).0.privilege ≡ s.privilege
  pub unmasks : (m3_sret q.0).0.sie ≡ s.sie
  pub well_formed : IsM3State q.0

entered :
    (s : M3State) (cause : TrapCause) (pc tval : ℕ)
    → IsM3State s
    → pc % 4 ≡ 0
    → pc < 2 ^ 32
    → (p : Privilege) {q : M3State × ℕ} → s.privilege ≡ p
    → from_mode p s cause pc tval ≡ some q
    → IsDelivered s cause pc tval q
unfolding m3_sret
entered s cause pc tval h a l Privilege.user {q} m e =
    subst_some (IsDelivered s cause pc tval) e (record {
      in_supervisor = refl;
      masked = refl;
      scause_set = refl;
      numbered = code-numbered cause;
      stval_set = refl;
      handler = omega (arith, clear_low_two s.stvec h.stvec_word);
      returns_to = refl;
      returns_in = cc;
      unmasks = refl;
      well_formed = ground arith;
    })
entered s cause pc tval h a l Privilege.supervisor {q} m e =
    subst_some (IsDelivered s cause pc tval) e (record {
      in_supervisor = refl;
      masked = refl;
      scause_set = refl;
      numbered = code-numbered cause;
      stval_set = refl;
      handler = omega (arith, clear_low_two s.stvec h.stvec_word);
      returns_to = refl;
      returns_in = cc;
      unmasks = refl;
      well_formed = ground arith;
    })
entered s cause pc tval h a l Privilege.machine m e = cc

-- A delivered exception puts a well-formed hart in supervisor mode at the handler, with the number
-- of its cause and its value recorded and interrupts masked, and `SRET` goes back to the mode, the interrupt enable
-- and the `pc` of the instruction that raised it. The `pc` is an aligned word.
pub take_exception-IsDelivered :
    (s : M3State) (cause : TrapCause) (pc tval : ℕ) {q : M3State × ℕ}
    → IsM3State s
    → pc % 4 ≡ 0
    → pc < 2 ^ 32
    → take_exception s cause pc tval ≡ some q
    → IsDelivered s cause pc tval q
unfolding take_exception
take_exception-IsDelivered s cause pc tval h a l =
    split_some (IsDelivered s cause pc tval) (delegates s cause)
      (λ _. entered s cause pc tval h a l s.privilege refl) (λ e. cc)

by_mode :
    (s : M3State) (cause : TrapCause) (pc tval : ℕ) (p : Privilege) (b : Bool)
    → is_some (if not (is_machine p) && b then from_mode p s cause pc tval else none)
      ≡ (not (is_machine p) && b)
by_mode s cause pc tval Privilege.user true = refl
by_mode s cause pc tval _ true = refl
by_mode s cause pc tval Privilege.user false = refl
by_mode s cause pc tval _ false = refl

delivered-is_some :
    (s : M3State) (cause : TrapCause) (pc tval : ℕ)
    → is_some (take_exception s cause pc tval)
      ≡ (not (is_machine s.privilege) && digit (code cause) s.medeleg == 1)
unfolding take_exception
delivered-is_some s cause pc tval =
    by_mode s cause pc tval s.privilege (bit_and (s.medeleg / 2 ^ code cause) 1 == 1)
    ∙ rw (bit_and-one (s.medeleg / 2 ^ code cause))

-- An exception is delivered to supervisor mode exactly when it was raised below machine mode and
-- `medeleg` has the bit of its cause; in a well-formed state no environment call of supervisor or
-- machine mode is.
is_some-take_exception :
    (s : M3State) (cause : TrapCause) (pc tval : ℕ)
    → IsM3State s
    → (is_some (take_exception s cause pc tval)
        ≡ (not (is_machine s.privilege) && digit (code cause) s.medeleg == 1))
      × (is_some (take_exception s TrapCause.environment_call_from_s pc tval) ≡ false)
      × (is_some (take_exception s TrapCause.environment_call pc tval) ≡ false)
unfolding code
is_some-take_exception s cause pc tval h = (
  delivered-is_some s cause pc tval,
  ground (arith, delivered-is_some s TrapCause.environment_call_from_s pc tval),
  ground (arith, delivered-is_some s TrapCause.environment_call pc tval),
)

mode_allows :
    (p : Privilege) (mie : Bool) → (ltb (privilege_bits p) 3 || mie) ≡ (not (is_machine p) || mie)
mode_allows Privilege.user mie = refl
mode_allows Privilege.supervisor mie = refl
mode_allows Privilege.machine mie = refl

-- An interrupt is eligible only when its line is up and it is enabled, by `meie` and, in machine mode,
-- by `mie`. An eligible interrupt enters machine mode at `mtvec` with its saved mode, and is not eligible in
-- its handler; `MRET` goes back to the mode, the interrupt enable and the `pc` it came from.
pub m3_mret-m3_take_mei :
    (s : M3State) (m : CsrFile) (pc : ℕ)
    → m3_mei_eligible s m ≡ true
    → let (s', m', target) = m3_take_mei s m pc in
      let (s'', m'', back) = m3_mret s' m' in
      (m.irq_level ≡ true)
      × (m.meie ≡ true)
      × ((not (is_machine s.privilege) || m.mie) ≡ true)
      × (s'.privilege ≡ Privilege.machine)
      × (target ≡ m.mtvec)
      × (m3_mei_eligible s' m' ≡ false)
      × (s''.privilege ≡ s.privilege)
      × (m''.mie ≡ m.mie)
      × (back ≡ pc)
      × (m3_mei_eligible s'' m'' ≡ true)
unfolding m3_take_mei m3_mret m3_mei_eligible
m3_mret-m3_take_mei s m pc h =
    let mode = mode_allows s.privilege m.mie in
    (
      ground arith,
      ground arith,
      ground (arith, h, mode),
      refl,
      refl,
      ground arith,
      refl,
      refl,
      refl,
      h,
    )
