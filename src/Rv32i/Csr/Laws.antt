-- ===== src/Rv32i/Csr/Laws.antt =====
-- The write rules of the machine CSRs, their invariant, and interrupt entry and return.
use systemscope.Base.{
  ℕ, zero, suc, ◌+◌, ◌*◌, ◌/◌, ◌%◌, ◌^◌, ◌<◌, ◌≡◌, refl, Bool, true, false, Option, some, arith,
  bit_and, bit_or, ◌==◌, ◌!=◌, if◌then◌else◌, is_some, split_some, subst_some, ==_iff,
}
use native.Mathlib.Nat.{one-le-pow}
use systemscope.Base.Bits.{bit_and_digit, bit_and_add}
use systemscope.Base.Word.{◌<<◌, complement, has, from_bool, clear_low_two}
use systemscope.Rv32i.Csr.{
  CsrFile, csr_new, csr_mstatus, csr_read, csr_write, csr_mret, csr_take_mei, csr_mei_eligible,
  is_supported, mstatus_csr, mie_csr, mip_csr, mtvec_csr, mepc_csr, mscratch_csr, mcause_csr,
  mtval_csr, mei_bit, mei_cause, mstatus_mie, mstatus_mpie, mstatus_mpp,
}

-- `mtvec` and `mepc` are aligned, and every CSR is a word.
pub record IsCsrFile (c : CsrFile) : Type 0 where
  pub mtvec_aligned : c.mtvec % 4 ≡ 0
  pub mepc_aligned : c.mepc % 4 ≡ 0
  pub mtvec_word : c.mtvec < 2 ^ 32
  pub mscratch_word : c.mscratch < 2 ^ 32
  pub mepc_word : c.mepc < 2 ^ 32
  pub mcause_word : c.mcause < 2 ^ 32
  pub mtval_word : c.mtval < 2 ^ 32

pub csr_new-IsCsrFile : IsCsrFile csr_new
unfolding csr_new
csr_new-IsCsrFile = omega arith

-- A write of a word by any CSR number that answers keeps `mtvec` and `mepc` aligned and every CSR
-- a word.
pub csr_write-IsCsrFile :
    (c : CsrFile) (n v : ℕ) {c' : CsrFile}
    → IsCsrFile c
    → v < 2 ^ 32
    → csr_write c n v ≡ some c'
    → IsCsrFile c'
unfolding csr_write
csr_write-IsCsrFile c n v h l e = ground (arith, clear_low_two v l)

pub csr_take_mei-IsCsrFile :
    (c : CsrFile) (pc : ℕ)
    → IsCsrFile c
    → pc % 4 ≡ 0
    → pc < 2 ^ 32
    → IsCsrFile (csr_take_mei c pc).0 × ((csr_take_mei c pc).1 % 4 ≡ 0)
unfolding csr_take_mei
csr_take_mei-IsCsrFile c pc h a l = omega arith

-- What a supported CSR reads after a write: the implemented bits of the value. `mip` keeps what it
-- read.
abbrev pub stored : CsrFile → ℕ → ℕ → ℕ
stored c n v =
    if n == mstatus_csr
    then bit_and v 0x88 + 0x1800
    else if n == mie_csr
    then bit_and v 0x800
    else if n == mip_csr
    then from_bool c.irq_level << 11
    else if n == mtvec_csr
    then v / 4 * 4
    else if n == mepc_csr
    then v / 4 * 4
    else v

mstatus_value :
    (c : CsrFile) → csr_mstatus c ≡ from_bool c.mie * 8 + from_bool c.mpie * 128 + 0x1800
unfolding csr_mstatus
mstatus_value c = go c.mie c.mpie
  where
    go :
        (a b : Bool)
        → bit_or (bit_or (from_bool a << 3) (from_bool b << 7)) mstatus_mpp
          ≡ from_bool a * 8 + from_bool b * 128 + 0x1800
    go true true = refl
    go true false = refl
    go false true = refl
    go false false = refl

two_pow_pos : (k : ℕ) → 0 < 2 ^ k
two_pow_pos k = one-le-pow k 2 (omega arith)

from_digit : (d t : ℕ) → d < 2 → 0 < t → from_bool (d * t != 0) * t ≡ d * t
from_digit zero t h p = ground arith
from_digit (suc zero) t h p = ground arith
from_digit (suc (suc d)) t h p = absurd (omega arith)

-- A tested bit, put back in its place, is the bit.
pub from_has : (k v : ℕ) → from_bool (has v (2 ^ k)) * 2 ^ k ≡ bit_and v (2 ^ k)
from_has k v =
    rw (bit_and_digit k v) (from_digit (v / 2 ^ k % 2) (2 ^ k) (omega arith) (two_pow_pos k))

pub split_88 : (v : ℕ) → bit_and v 0x88 ≡ bit_and v 8 + bit_and v 128
split_88 v = bit_and_add v 8 128 refl

-- The reads of `c'` are those of `c`, but for CSR `n`, which reads `r`.
abbrev Changes : CsrFile → ℕ → ℕ → CsrFile → Type 0
Changes c n r c' = (m : ℕ) → csr_read c' m ≡ (if m == n then some r else csr_read c m)

module _ (c : CsrFile) (v : ℕ) where
  write_mstatus :
      Changes c mstatus_csr
        (bit_and v 0x88 + 0x1800)
        (record c { mie = has v mstatus_mie; mpie = has v mstatus_mpie })
  unfolding csr_read
  write_mstatus m = ground (
    arith,
    mstatus_value (record c { mie = has v mstatus_mie; mpie = has v mstatus_mpie }),
    from_has 3 v,
    from_has 7 v,
    split_88 v,
  )

  write_mie : Changes c mie_csr (bit_and v 0x800) (record c { meie = has v mei_bit })
  unfolding csr_read
  write_mie m = ground (arith, from_has 11 v)

  write_mip : Changes c mip_csr (from_bool c.irq_level << 11) c
  unfolding csr_read
  write_mip m = ground arith

  write_mtvec :
      Changes c mtvec_csr (bit_and v (complement 3)) (record c { mtvec = bit_and v (complement 3) })
  unfolding csr_read
  write_mtvec m = ground arith

  write_mepc :
      Changes c mepc_csr (bit_and v (complement 3)) (record c { mepc = bit_and v (complement 3) })
  unfolding csr_read
  write_mepc m = ground arith

  write_mscratch : Changes c mscratch_csr v (record c { mscratch = v })
  unfolding csr_read
  write_mscratch m = ground arith

  write_mcause : Changes c mcause_csr v (record c { mcause = v })
  unfolding csr_read
  write_mcause m = ground arith

  write_mtval : Changes c mtval_csr v (record c { mtval = v })
  unfolding csr_read
  write_mtval m = ground arith

-- A read after a write of a word: the written CSR reads what it stores of the value, and every
-- other CSR reads as before.
pub csr_read-csr_write :
    (c : CsrFile) (n v : ℕ) {c' : CsrFile}
    → v < 2 ^ 32
    → csr_write c n v ≡ some c'
    → (m : ℕ) → csr_read c' m ≡ (if m == n then some (stored c n v) else csr_read c m)
unfolding csr_write
csr_read-csr_write c n v {c'} l = arm mstatus_csr _ (write_mstatus c v) refl (
    arm mie_csr _ (write_mie c v) refl (
      arm mip_csr _ (write_mip c v) refl (
        arm mtvec_csr _ (write_mtvec c v) (clear_low_two v l) (
          arm mscratch_csr _ (write_mscratch c v) refl (
            arm mepc_csr _ (write_mepc c v) (clear_low_two v l) (
              arm mcause_csr _ (write_mcause c v) refl
                (arm mtval_csr _ (write_mtval c v) refl (λ e. cc))))))))
  where
    Good : CsrFile → Type 0
    Good = Changes c n (stored c n v)

    arm :
        (k : ℕ) {r : ℕ} (x : CsrFile) {y : Option CsrFile}
        → Changes c k r x
        → r ≡ stored c k v
        → (y ≡ some c' → Good c')
        → (if n == k then some x else y) ≡ some c'
        → Good c'
    arm k x h s =
        split_some Good (n == k) λ t e.
          let same : n ≡ k = (==_iff n k).0 t in subst_some Good e (λ m. rw (same, ← s) (h m))

-- Reads and writes answer exactly the supported CSRs.
pub is_some-csr :
    (c : CsrFile) (n v : ℕ)
    → (is_some (csr_read c n) ≡ is_supported n) × (is_some (csr_write c n v) ≡ is_supported n)
unfolding csr_read csr_write is_supported
is_some-csr c n v = (ground arith, ground arith)

-- An interrupt that is eligible when its handler is entered is gone inside the handler, and `MRET`
-- goes back to the interrupted `pc` with interrupts enabled as before.
csr_mret-csr_take_mei :
    (c : CsrFile) (pc : ℕ)
    → csr_mei_eligible c ≡ true
    → let entered = (csr_take_mei c pc).0 in
      (csr_mei_eligible entered ≡ false)
      × ((csr_take_mei c pc).1 ≡ c.mtvec)
      × (entered.mcause ≡ mei_cause)
      × ((csr_mret entered).1 ≡ pc)
      × ((csr_mret entered).0.mie ≡ c.mie)
      × (csr_mei_eligible (csr_mret entered).0 ≡ true)
unfolding csr_mei_eligible csr_take_mei csr_mret
csr_mret-csr_take_mei c pc h = (refl, refl, refl, refl, refl, h)
