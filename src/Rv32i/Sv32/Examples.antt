-- ===== src/Rv32i/Sv32/Examples.antt =====
-- The walk over a page table of two pages.
use systemscope.Base.{
  ℕ, ◌≡◌, ◌<◌, ◌^◌, ◌↔◌, refl, false, Option, none, some, ok, arith, ◌==◌, if◌then◌else◌, bit_and,
}
use systemscope.Rv32i.Privilege.{Privilege, satp_ppn}
use systemscope.Rv32i.Sv32.{Access, pte_address, step, sv32_translate}
use systemscope.Rv32i.Sv32.Pages.{Maps}
use systemscope.Rv32i.Sv32.Walk.{sv32_translate-Maps}

-- A root table at page 1 with a pointer to page 2, where page 5 is mapped for the user.
abbrev pages : ℕ → Option ℕ
pages at = if at == 0x1000 then some 0x801 else if at == 0x200c then some 0x145f else none

abbrev satp : ℕ
satp = 0x8000_0001

pages-lt : (at pte : ℕ) → pages at ≡ some pte → pte < 2 ^ 32
pages-lt at pte e = ground arith

translate_load :
    sv32_translate pages satp Privilege.user false false Access.load 0x3123 ≡ some (ok 0x5123)
unfolding sv32_translate pte_address step
translate_load = refl

sv32_translate-Maps_example :
    (sv32_translate pages satp Privilege.user false false Access.load 0x3123 ≡ some (ok 0x5123))
    ↔ Maps pages
        (record { privilege = Privilege.user; sum = false; mxr = false; access = Access.load })
        0x3123
        (bit_and satp satp_ppn)
        0x5123
sv32_translate-Maps_example =
    sv32_translate-Maps pages satp Privilege.user false false Access.load 0x3123 0x5123 refl refl
