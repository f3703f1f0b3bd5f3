-- ===== src/Rv32i/Privilege/Words.antt =====
-- No word is an instruction of two of the decoders.
use systemscope.Base.{
  Bool, refl, ℕ, ◌%◌, ◌/◌, ◌^◌, ◌<◌, ◌≡◌, ◌≢◌, ◌+◌, ◌*◌, refl, true, false, arith, bit_and, is_some,
  is_ok, ◌&&◌, ◌⊎◌, inl, inr, Result-cases, ap,
}
use systemscope.Base.Bits.{bit_and_mask, bit_and_add, bit_and_shifted}
use systemscope.Rv32i.Instr.{Instr}
use systemscope.Rv32i.Decode.{decode}
use systemscope.Rv32i.Decode.Encode.{Encodes}
use systemscope.Rv32i.Decode.Sound.{decode_sound}
use systemscope.Rv32i.Csr.{decode_privileged, csr_op}
use systemscope.Rv32i.Privilege.{decode_supervisor}

-- A word that RV32I decodes and that has the SYSTEM opcode is `ECALL` or `EBREAK`.
system_word : (w : ℕ) (i : Instr) → Encodes i w → w % 128 ≡ 0x73 → (w ≡ 0x73) ⊎ (w ≡ 0x100073)
system_word w Instr.ecall e o = inl e
system_word w Instr.ebreak e o = inr e
system_word w Instr.fence e o = absurd (omega (arith, e.0))
system_word w (Instr.lui a b) e o = absurd (omega (arith, e))
system_word w (Instr.auipc a b) e o = absurd (omega (arith, e))
system_word w (Instr.jal a b) e o = absurd (omega (arith, e))
system_word w (Instr.jalr a b c) e o = absurd (omega (arith, e))
system_word w (Instr.branch a b c d) e o = absurd (omega (arith, e))
system_word w (Instr.load a b c d) e o = absurd (omega (arith, e))
system_word w (Instr.store a b c d) e o = absurd (omega (arith, e))
system_word w (Instr.op_imm a b c d) e o = absurd (omega (arith, e))
system_word w (Instr.shift_imm a b c d) e o = absurd (omega (arith, e))
system_word w (Instr.op a b c d) e o = absurd (omega (arith, e))

-- A word that passes the supervisor's mask test, by its fields.
supervisor_mask : (w : ℕ) → bit_and w 0xFE00_7FFF ≡ w / 2 ^ 25 % 2 ^ 7 * 2 ^ 25 + w % 2 ^ 15
supervisor_mask w = omega (
  arith,
  bit_and_add w 0xFE00_0000 0x7FFF refl,
  bit_and_shifted 25 w 0x7F,
  bit_and_mask 7 (w / 2 ^ 25),
  bit_and_mask 15 w,
)

privileged_word :
    (w : ℕ) → is_some (decode_privileged w) ≡ true → (w % 128 ≡ 0x73) × (w ≢ 0x73) × (w ≢ 0x100073)
unfolding decode_privileged csr_op
privileged_word w e =
    ground (
      arith,
      bit_and_mask 7 w,
      bit_and_mask 3 (w / 2 ^ 12),
      bit_and_mask 2 (bit_and (w / 2 ^ 12) 7),
    )

supervisor_word :
    (w : ℕ) → is_some (decode_supervisor w) ≡ true → (w % 128 ≡ 0x73) × (w ≢ 0x73) × (w ≢ 0x100073)
unfolding decode_supervisor
supervisor_word w e = ground (arith, supervisor_mask w)

and_false : (a b : Bool) → (a ≡ true → b ≡ false) → (a && b) ≡ false
and_false true b f = f refl
and_false false b f = refl

exclusive : (w : ℕ) → (is_some (decode_privileged w) && is_some (decode_supervisor w)) ≡ false
unfolding decode_privileged decode_supervisor csr_op
exclusive w = ground (arith, supervisor_mask w, bit_and_mask 3 (w / 2 ^ 12))

undecoded :
    (w : ℕ) → w < 2 ^ 32 → (w % 128 ≡ 0x73) × (w ≢ 0x73) × (w ≢ 0x100073) → is_ok (decode w) ≡ false
undecoded w h (o, n, m) = elim (Result-cases (decode w)) [
  | inl (i, e) ↦ elim (system_word w i (decode_sound w h e).encodes o) [
    | inl a ↦ absurd (n a)
    | inr b ↦ absurd (m b)
  ]
  | inr (x, e) ↦ ap is_ok e
]

-- No word below 2 ^ 32 is accepted by two of the three decoders: the RV32I decoder, the decoder of
-- the privileged instructions, and that of the supervisor's.
decoders_disjoint :
    (w : ℕ)
    → w < 2 ^ 32
    → ((is_some (decode_privileged w) && is_ok (decode w)) ≡ false)
      × ((is_some (decode_supervisor w) && is_ok (decode w)) ≡ false)
      × ((is_some (decode_privileged w) && is_some (decode_supervisor w)) ≡ false)
decoders_disjoint w h = (
  and_false _ _ λ e. undecoded w h (privileged_word w e),
  and_false _ _ λ e. undecoded w h (supervisor_word w e),
  exclusive w,
)
