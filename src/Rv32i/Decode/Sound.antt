-- ===== src/Rv32i/Decode/Sound.antt =====
-- What a decoded word is: the format's encoding of its instruction, with operands in range.
use mathlib.Core.Option
use mathlib.Core.Option.{some-injective}
use systemscope.Base.{
  ℕ, ◌/◌, ◌%◌, ◌^◌, ◌<◌, ◌≡◌, refl, subst, Option, none, some, ok, arith, bit_and, inl, inr,
  Option-cases, ◌==◌, ==_iff, &&_true, ◌&&◌, Bool, true, false, if◌then◌else◌,
}
use systemscope.Base.Bits.{bit_and_mask}
use systemscope.Rv32i.Immediate.{imm_i, imm_u, imm_j}
use systemscope.Rv32i.Immediate.Layout.{imm_u-fields, imm_b-fields, imm_j-fields}
use systemscope.Rv32i.Instr.{Instr, reg_field}
use systemscope.Rv32i.Decode.{
  decode, decode_opcode, decode_branch, decode_load, decode_store, decode_op, decode_op_imm,
  decode_shift, lui_opcode, auipc_opcode, jal_opcode, jalr_opcode, branch_opcode, load_opcode,
  store_opcode, op_imm_opcode, op_opcode, misc_mem_opcode, system_opcode, ecall_word, ebreak_word,
  imm_op,
}
use systemscope.Rv32i.Decode.Encode.{Encodes}
use systemscope.Rv32i.Decode.Operands.{InRange}
use systemscope.Rv32i.Decode.Fields.{
  reg_field-index, branch_op-funct3, load_op-funct3, store_op-funct3, imm_op-funct3,
  shift_op-functs, reg_op-functs, i_type_of, s_type_of, b_type_of, u_type_of, j_type_of,
  imm_i-IsSigned, imm_s-IsSigned, imm_b-IsSigned, imm_j-IsSigned,
}

pub record IsDecoded (w : ℕ) (i : Instr) : Type 0 where
  pub encodes : Encodes i w
  pub in_range : InRange i

-- A property of the values of `f` holds of what `Option.map f` gives.
map_some {ℓ κ} :
    {A : Type ℓ} (P : Instr → Type κ) (f : A → Instr) (o : Option A) {i : Instr}
    → ((a : A) → o ≡ some a → P (f a))
    → Option.map f o ≡ some i
    → P i
map_some P f (some a) k e = subst P (some-injective _ _ e) (k a refl)
map_some P f none k e = cc

module _ (w : ℕ) (h : w < 2 ^ 32) where
  abbrev f3 : ℕ
  f3 = bit_and (w / 2 ^ 12) 0x7

  decode_branch-IsDecoded : {i : Instr} → w % 128 ≡ 0x63 → decode_branch w ≡ some i → IsDecoded w i
  unfolding decode_branch
  decode_branch-IsDecoded o = map_some (IsDecoded w) _ _ λ op e. record {
    encodes =
        omega (
          arith,
          reg_field-index,
          b_type_of w h,
          bit_and_mask 3 (w / 2 ^ 12),
          branch_op-funct3 f3 e,
        );
    in_range = omega (arith, reg_field-index, imm_b-IsSigned w h, imm_b-fields w h);
  }

  decode_load-IsDecoded : {i : Instr} → w % 128 ≡ 0x03 → decode_load w ≡ some i → IsDecoded w i
  unfolding decode_load
  decode_load-IsDecoded o = map_some (IsDecoded w) _ _ λ op e. record {
    encodes =
        omega
          (arith, reg_field-index, i_type_of w h, bit_and_mask 3 (w / 2 ^ 12), load_op-funct3 f3 e);
    in_range = omega (arith, reg_field-index, imm_i-IsSigned w h);
  }

  decode_store-IsDecoded : {i : Instr} → w % 128 ≡ 0x23 → decode_store w ≡ some i → IsDecoded w i
  unfolding decode_store
  decode_store-IsDecoded o = map_some (IsDecoded w) _ _ λ op e. record {
    encodes =
        omega (
          arith,
          reg_field-index,
          s_type_of w h,
          bit_and_mask 3 (w / 2 ^ 12),
          store_op-funct3 f3 e,
        );
    in_range = omega (arith, reg_field-index, imm_s-IsSigned w h);
  }

  decode_op-IsDecoded : {i : Instr} → w % 128 ≡ 0x33 → decode_op w ≡ some i → IsDecoded w i
  unfolding decode_op
  decode_op-IsDecoded o = map_some (IsDecoded w) _ _ λ op e. record {
    encodes =
        omega
          (arith, reg_field-index, bit_and_mask 3 (w / 2 ^ 12), reg_op-functs (w / 2 ^ 25) f3 e);
    in_range = omega (arith, reg_field-index);
  }

  decode_shift-IsDecoded : {i : Instr} → w % 128 ≡ 0x13 → decode_shift w ≡ some i → IsDecoded w i
  unfolding decode_shift
  decode_shift-IsDecoded o = map_some (IsDecoded w) _ _ λ op e. record {
    encodes = omega (
      arith,
      reg_field-index,
      bit_and_mask 5 (w / 2 ^ 20),
      bit_and_mask 3 (w / 2 ^ 12),
      shift_op-functs f3 (w / 2 ^ 25) e,
    );
    in_range = omega (arith, reg_field-index, bit_and_mask 5 (w / 2 ^ 20));
  }

  decode_op_imm-IsDecoded : {i : Instr} → w % 128 ≡ 0x13 → decode_op_imm w ≡ some i → IsDecoded w i
  unfolding decode_op_imm
  decode_op_imm-IsDecoded o e = elim (Option-cases (imm_op f3)) [
    | inl n ↦ decode_shift-IsDecoded o (rw (n, decode_op_imm) at e)
    | inr (op, f) ↦ subst (IsDecoded w) (some-injective _ _ (rw (f, decode_op_imm) at e)) (record {
      encodes =
          omega (
            arith,
            reg_field-index,
            i_type_of w h,
            bit_and_mask 3 (w / 2 ^ 12),
            imm_op-funct3 f3 f,
          );
      in_range = omega (arith, reg_field-index, imm_i-IsSigned w h);
    })
  ]

  opcode_is : (k : ℕ) → (bit_and w 0x7f == k) ≡ true → w % 128 ≡ k
  opcode_is k e = omega (arith, (==_iff (bit_and w 0x7f) k).0 e, bit_and_mask 7 w)

  lui-IsDecoded : w % 128 ≡ 0x37 → IsDecoded w (Instr.lui (reg_field w 7) (imm_u w))
  lui-IsDecoded o = record {
    encodes = omega (arith, u_type_of w h, reg_field-index);
    in_range = omega (arith, reg_field-index, imm_u-fields w h);
  }

  auipc-IsDecoded : w % 128 ≡ 0x17 → IsDecoded w (Instr.auipc (reg_field w 7) (imm_u w))
  auipc-IsDecoded o = record {
    encodes = omega (arith, u_type_of w h, reg_field-index);
    in_range = omega (arith, reg_field-index, imm_u-fields w h);
  }

  jal-IsDecoded : w % 128 ≡ 0x6f → IsDecoded w (Instr.jal (reg_field w 7) (imm_j w))
  jal-IsDecoded o = record {
    encodes = omega (arith, j_type_of w h, reg_field-index);
    in_range = omega (arith, reg_field-index, imm_j-IsSigned w h, imm_j-fields w h);
  }

  jalr-IsDecoded :
      w % 128 ≡ 0x67 → f3 ≡ 0 → IsDecoded w (Instr.jalr (reg_field w 7) (reg_field w 15) (imm_i w))
  jalr-IsDecoded o f = record {
    encodes = omega (arith, i_type_of w h, reg_field-index, bit_and_mask 3 (w / 2 ^ 12));
    in_range = omega (arith, reg_field-index, imm_i-IsSigned w h);
  }

  fence-IsDecoded : w % 128 ≡ 0x0f → f3 ≡ 0 → IsDecoded w Instr.fence
  fence-IsDecoded o f = record {
    encodes = omega (arith, bit_and_mask 3 (w / 2 ^ 12));
    in_range = tt;
  }

  -- The arms of the match, in turn.
  decode_opcode-IsDecoded : {i : Instr} → decode_opcode w (bit_and w 0x7f) ≡ some i → IsDecoded w i
  unfolding decode_opcode
  decode_opcode-IsDecoded {i} =
      arm (o == lui_opcode) (λ t. value (lui-IsDecoded (opcode_is _ t)))
        (arm (o == auipc_opcode) (λ t. value (auipc-IsDecoded (opcode_is _ t)))
          (arm (o == jal_opcode) (λ t. value (jal-IsDecoded (opcode_is _ t)))
            (arm (o == jalr_opcode && f3 == 0)
              (λ t. value (jalr-IsDecoded (opcode_is _ (&&_true _ _ t).0) (f3_is _ t)))
              (arm (o == branch_opcode) (λ t. decode_branch-IsDecoded (opcode_is _ t))
                (arm (o == load_opcode) (λ t. decode_load-IsDecoded (opcode_is _ t))
                  (arm (o == store_opcode) (λ t. decode_store-IsDecoded (opcode_is _ t))
                    (arm (o == op_imm_opcode) (λ t. decode_op_imm-IsDecoded (opcode_is _ t))
                      (arm (o == op_opcode) (λ t. decode_op-IsDecoded (opcode_is _ t))
                        (arm (o == misc_mem_opcode && f3 == 0)
                          (λ t. value (fence-IsDecoded (opcode_is _ (&&_true _ _ t).0) (f3_is _ t)))
                          (arm (o == system_opcode && w == ecall_word)
                            (λ t. value (record { encodes = word_is _ _ t; in_range = tt }))
                            (arm (o == system_opcode && w == ebreak_word)
                              (λ t. value (record { encodes = word_is _ _ t; in_range = tt }))
                              (λ e. cc))))))))))))
    where
      o : ℕ
      o = bit_and w 0x7f

      f3_is : (b : Bool) → (b && f3 == 0) ≡ true → f3 ≡ 0
      f3_is b t = (==_iff f3 0).0 (&&_true b _ t).1

      word_is : (b : Bool) (k : ℕ) → (b && w == k) ≡ true → w ≡ k
      word_is b k t = (==_iff w k).0 (&&_true b _ t).1

      arm :
          (b : Bool) {x y : Option Instr}
          → (b ≡ true → x ≡ some i → IsDecoded w i)
          → (y ≡ some i → IsDecoded w i)
          → (if b then x else y) ≡ some i
          → IsDecoded w i
      arm true f g e = f refl e
      arm false f g e = g e

      value : {j : Instr} → IsDecoded w j → some j ≡ some i → IsDecoded w i
      value d e = subst (IsDecoded w) (some-injective _ _ e) d

  -- A word below 2 ^ 32 that decodes is an encoding of the decoded instruction in the format of
  -- its opcode, and the instruction's registers, immediate and shift amount are in range.
  pub decode_sound : {i : Instr} → decode w ≡ ok i → IsDecoded w i
  unfolding decode
  decode_sound e = elim (Option-cases (decode_opcode w (bit_and w 0x7f))) [
    | inl n ↦ absurd (ground (arith, n))
    | inr (j, s) ↦ decode_opcode-IsDecoded (ground (arith, s))
  ]
