-- ===== src/Rv32i/Immediate/Layout.antt =====
-- The immediates as sums of their fields.
use systemscope.Base.{ℕ, ◌+◌, ◌*◌, ◌/◌, ◌%◌, ◌-◌, ◌^◌, ◌<◌, ◌≡◌, refl, bit_and, arith}
use systemscope.Base.Bits.{bit_or_fields, bit_or_add, bit_and_mask, bit_and_shifted}
use systemscope.Base.Word.{digit, ◌>>◌, ◌<<◌, ◌>>ₐ◌}
use systemscope.Rv32i.Immediate.{imm_i, imm_s, imm_b, imm_u, imm_j}

-- The sign bit, word[31], copied into bit `k` and every bit above it.
abbrev pub sign_above : ℕ → ℕ → ℕ
sign_above k word = digit 31 word * (2 ^ 32 - 2 ^ k)

sar_31 : (w : ℕ) → w < 2 ^ 32 → w >>ₐ 31 ≡ digit 31 w * (2 ^ 32 - 1)
sar_31 w h = ground arith

-- imm[11:0] is word[31:20].
pub imm_i-fields : (w : ℕ) → w < 2 ^ 32 → imm_i w ≡ sign_above 11 w + w / 2 ^ 20 % 2 ^ 11
unfolding imm_i
imm_i-fields w h = ground arith

-- imm[11:5] is word[31:25], and imm[4:0] is word[11:7].
pub imm_s-fields :
    (w : ℕ)
    → w < 2 ^ 32
    → imm_s w ≡ sign_above 11 w + w / 2 ^ 25 % 2 ^ 6 * 2 ^ 5 + w / 2 ^ 7 % 2 ^ 5
unfolding imm_s
imm_s-fields w h =
    ground
      (arith, bit_and_mask 5 (w / 2 ^ 7), bit_or_fields 5 ((w >>ₐ 25) % 2 ^ 27) (w / 2 ^ 7 % 2 ^ 5))

-- imm[12] is word[31], imm[11] is word[7], imm[10:5] is word[30:25], imm[4:1] is word[11:8].
pub imm_b-fields :
    (w : ℕ)
    → w < 2 ^ 32
    → imm_b w
      ≡ sign_above 12 w + digit 7 w * 2 ^ 11 + w / 2 ^ 25 % 2 ^ 6 * 2 ^ 5 + w / 2 ^ 8 % 2 ^ 4 * 2
unfolding imm_b
imm_b-fields w h =
    let t : w >>ₐ 31 << 12 ≡ sign_above 12 w = ground arith in
    let d7 : bit_and (w >> 7) 0x1 << 11 ≡ digit 7 w * 2 ^ 11 =
      ground (arith, bit_and_mask 1 (w / 2 ^ 7)) in
    let d25 : bit_and (w >> 25) 0x3f << 5 ≡ w / 2 ^ 25 % 2 ^ 6 * 2 ^ 5 =
      ground (arith, bit_and_mask 6 (w / 2 ^ 25)) in
    let d8 : bit_and (w >> 8) 0xf << 1 ≡ w / 2 ^ 8 % 2 ^ 4 * 2 =
      ground (arith, bit_and_mask 4 (w / 2 ^ 8)) in
    rw
      (
        t,
        d7,
        d25,
        d8,
        bit_or_add 12 (sign_above 12 w) (digit 7 w * 2 ^ 11) (omega arith) (omega arith),
        bit_or_add 11 (sign_above 12 w + digit 7 w * 2 ^ 11) (w / 2 ^ 25 % 2 ^ 6 * 2 ^ 5)
            (omega arith) (omega arith),
        bit_or_add 5 (sign_above 12 w + digit 7 w * 2 ^ 11 + w / 2 ^ 25 % 2 ^ 6 * 2 ^ 5)
            (w / 2 ^ 8 % 2 ^ 4 * 2) (omega arith) (omega arith),
      )
      refl

-- imm[31:12] is word[31:12].
pub imm_u-fields : (w : ℕ) → w < 2 ^ 32 → imm_u w ≡ w / 2 ^ 12 * 2 ^ 12
unfolding imm_u
imm_u-fields w h = omega (arith, bit_and_shifted 12 w (2 ^ 20 - 1), bit_and_mask 20 (w / 2 ^ 12))

-- imm[20] is word[31], imm[19:12] is word[19:12], imm[11] is word[20], imm[10:1] is word[30:21].
pub imm_j-fields :
    (w : ℕ)
    → w < 2 ^ 32
    → imm_j w
      ≡ sign_above 20 w
        + w / 2 ^ 12 % 2 ^ 8 * 2 ^ 12
        + digit 20 w * 2 ^ 11
        + w / 2 ^ 21 % 2 ^ 10 * 2
unfolding imm_j
imm_j-fields w h =
    let t : w >>ₐ 31 << 20 ≡ sign_above 20 w = ground arith in
    let d12 : bit_and w 0x000f_f000 ≡ w / 2 ^ 12 % 2 ^ 8 * 2 ^ 12 =
      ground (arith, bit_and_shifted 12 w 0xff, bit_and_mask 8 (w / 2 ^ 12)) in
    let d20 : bit_and (w >> 20) 0x1 << 11 ≡ digit 20 w * 2 ^ 11 =
      ground (arith, bit_and_mask 1 (w / 2 ^ 20)) in
    let d21 : bit_and (w >> 21) 0x3ff << 1 ≡ w / 2 ^ 21 % 2 ^ 10 * 2 =
      ground (arith, bit_and_mask 10 (w / 2 ^ 21)) in
    rw
      (
        t,
        d12,
        d20,
        d21,
        bit_or_add 20 (sign_above 20 w) (w / 2 ^ 12 % 2 ^ 8 * 2 ^ 12) (omega arith) (omega arith),
        bit_or_add 12 (sign_above 20 w + w / 2 ^ 12 % 2 ^ 8 * 2 ^ 12) (digit 20 w * 2 ^ 11)
            (omega arith) (omega arith),
        bit_or_add 11 (sign_above 20 w + w / 2 ^ 12 % 2 ^ 8 * 2 ^ 12 + digit 20 w * 2 ^ 11)
            (w / 2 ^ 21 % 2 ^ 10 * 2) (omega arith) (omega arith),
      )
      refl
