-- ===== src/Os/Syscall/Examples.antt =====
-- A buffer across a page, and a user page behind two tables.
use systemscope.Base.{ℕ, ◌≡◌, refl, false, some, arith, contains, ◌==◌, if◌then◌else◌}
use systemscope.Rv32i.Privilege.{Privilege}
use systemscope.Rv32i.Sv32
use systemscope.Rv32i.Sv32.{sv32_translate}
use systemscope.Os.Core.{chunks}
use systemscope.Os.Pte.{satp}
use systemscope.Os.Syscall.{Buffer, translate, is_chunk_start, decode_syscall, Syscall}
use systemscope.Os.Syscall.Buffers.{starts, is_chunk_start-chunks}
use systemscope.Os.Syscall.Walking.{as_result, sv32_translate-translate}

abbrev user_buffer : Buffer
user_buffer = record { sepc = 0x10000; buf = 0x1_0FF8; n = 0x20 }

is_chunk_start-chunks_example :
    is_chunk_start user_buffer 8 ≡ contains 0x1_1000 (starts (chunks 0x1_0FF8 0x20))
is_chunk_start-chunks_example = is_chunk_start-chunks user_buffer 8

-- A root table at page 1 with a pointer to page 2, where page 5 is mapped for the user.
abbrev entries : ℕ → ℕ
entries at = if at == 0x1000 then 0x801 else if at == 0x200c then 0x145f else 0

sv32_translate-translate_example :
    sv32_translate
      (λ a. some (entries a))
      (satp 1)
      Privilege.user
      false
      false
      Sv32.Access.load
      0x3123
    ≡ some (as_result (translate entries 1 0x3123))
sv32_translate-translate_example =
    sv32_translate-translate entries 0x3123 (omega arith) 1 (omega arith)

translated : translate entries 1 0x3123 ≡ some 0x5123
unfolding translate
translated = refl

exit_group_number : decode_syscall 94 ≡ Syscall.exit_group
unfolding decode_syscall
exit_group_number = refl
