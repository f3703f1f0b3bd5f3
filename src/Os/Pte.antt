-- ===== src/Os/Pte.antt =====
-- components/os/src/pte.rs, with `perm_bits` of components/os/src/image.rs and `Perms` of
-- elf/src/user.rs: the page-table entries and the `satp` value that the kernel writes.
pub mod Walked
pub mod Megapage
use systemscope.Base.{ℕ, ◌*◌, ◌%◌, ◌^◌, Bool, bit_and, bit_or, if◌then◌else◌}
use systemscope.Base.Word.{◌<<◌, from_bool}

pub record Perms : Type 0 where
  pub read : Bool
  pub write : Bool
  pub execute : Bool

-- `perm_bits`; a `u8`.
unfoldable pub perm_bits : Perms → ℕ
perm_bits p =
    bit_or (bit_or (from_bool p.read * 2 ^ 1 % 2 ^ 8) (from_bool p.write * 2 ^ 2 % 2 ^ 8))
      (from_bool p.execute * 2 ^ 3 % 2 ^ 8)

abbrev v_bit : ℕ
v_bit = 2 ^ 0

abbrev r_bit : ℕ
r_bit = 2 ^ 1

abbrev w_bit : ℕ
w_bit = 2 ^ 2

abbrev x_bit : ℕ
x_bit = 2 ^ 3

abbrev u_bit : ℕ
u_bit = 2 ^ 4

abbrev g_bit : ℕ
g_bit = 2 ^ 5

abbrev a_bit : ℕ
a_bit = 2 ^ 6

abbrev d_bit : ℕ
d_bit = 2 ^ 7

abbrev satp_sv32 : ℕ
satp_sv32 = 2 ^ 31

unfoldable pub entry : ℕ → ℕ → ℕ
entry ppn flags = bit_or (bit_and ppn 0x3F_FFFF << 10) flags

unfoldable pub user_leaf : ℕ → Perms → ℕ
unfolding entry perm_bits
user_leaf ppn perms =
    let dirty = if perms.write then d_bit else 0 in
    entry ppn (bit_or (bit_or (bit_or (bit_or v_bit (perm_bits perms)) u_bit) a_bit) dirty)

unfoldable pub pointer : ℕ → ℕ
unfolding entry
pointer ppn = entry ppn v_bit

unfoldable pub kernel_megapage : ℕ → ℕ
unfolding entry
kernel_megapage ppn =
    entry ppn (
      bit_or (bit_or (bit_or (bit_or (bit_or (bit_or v_bit r_bit) w_bit) x_bit) g_bit) a_bit) d_bit)

unfoldable pub mmio_megapage : ℕ → ℕ
unfolding entry
mmio_megapage ppn =
    entry ppn (bit_or (bit_or (bit_or (bit_or (bit_or v_bit r_bit) w_bit) g_bit) a_bit) d_bit)

unfoldable pub satp : ℕ → ℕ
satp root = bit_or satp_sv32 (bit_and root 0x3F_FFFF)
