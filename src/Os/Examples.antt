-- ===== src/Os/Examples.antt =====
-- A pool of four frames, and a user page behind two tables.
use systemscope.Base.{
  ◌%◌, ◌^◌, ℕ, ◌<◌, ◌≡◌, ◌⊎◌, refl, true, false, Option, none, some, ok, err, List, [], ◌∷◌, All,
  arith, ◌==◌, if◌then◌else◌,
}
use systemscope.Os.Frames.{Frames, FrameError, reserve, release, free_count}
use systemscope.Os.Frames.Laws.{IsPool, IsReserved, reserve-IsReserved}
use systemscope.Os.Frames.Release.{Owned, Blames, IsReleased, release-IsReleased, release-reserve}
use systemscope.Os.Pte.Megapage.{sv32_translate-kernel_megapage}
use systemscope.Os.Pte.{kernel_megapage, Perms, satp, user_leaf, pointer}
use systemscope.Os.Pte.Walked.{Mapped, sv32_translate-user_leaf}
use systemscope.Rv32i.Privilege.{Privilege}
use systemscope.Rv32i.Sv32.{Access, Fault, pte_address, sv32_translate}

abbrev pool : Frames
pool = record { base = 0x80; owners = 0 ∷ 3 ∷ 0 ∷ 0 ∷ [] }

abbrev pool_after : Frames
pool_after = record { base = 0x80; owners = 7 ∷ 3 ∷ 7 ∷ 0 ∷ [] }

pool-IsPool : IsPool pool
pool-IsPool = record { bound = omega arith }

reserve_two : reserve pool 7 2 ≡ some (some (0x80 ∷ 0x82 ∷ [], pool_after))
unfolding reserve
reserve_two = refl

reserve-IsReserved_example :
    ((free_count pool < 2) × (reserve pool 7 2 ≡ some none))
    ⊎ ((ppns : List ℕ) × (f' : Frames) × (reserve pool 7 2 ≡ some (some (ppns, f')))
        × IsReserved pool 7 2 ppns f')
reserve-IsReserved_example = reserve-IsReserved pool pool-IsPool 7 2 (λ e. omega (arith, e))

release-IsReleased_example :
    (All (Owned pool_after 7) (0x82 ∷ 0x81 ∷ [])
      × ((f' : Frames) × (release pool_after 7 (0x82 ∷ 0x81 ∷ []) ≡ some (ok f'))
          × IsReleased pool_after (0x82 ∷ 0x81 ∷ []) f'))
    ⊎ ((e : FrameError) × (release pool_after 7 (0x82 ∷ 0x81 ∷ []) ≡ some (err e))
        × Blames pool_after 7 (0x82 ∷ 0x81 ∷ []) e)
release-IsReleased_example = release-IsReleased pool_after 7 (0x82 ∷ 0x81 ∷ [])

release-reserve_example : release pool_after 7 (0x80 ∷ 0x82 ∷ []) ≡ some (ok pool)
release-reserve_example =
    release-reserve pool pool-IsPool 7 2 (λ e. omega (arith, e)) (0x80 ∷ 0x82 ∷ []) pool_after
      reserve_two

-- A read-only page at frame 0x90, its table at frame 0x81, the root at frame 0x80.
abbrev read_only : Perms
read_only = record { read = true; write = false; execute = false }

abbrev tables : ℕ → Option ℕ
tables at =
    if at == 0x80000
    then some (pointer 0x81)
    else if at == 0x8100c
    then some (user_leaf 0x90 read_only)
    else none

tables-Mapped : Mapped tables 0x80 0x3123 0x90 read_only
unfolding pte_address
tables-Mapped = record { table = 0x81; at_root = at_root_entry; at_table = at_leaf }
  where
    at_root_entry : tables 0x80000 ≡ some (pointer 0x81)
    at_root_entry = refl

    at_leaf : tables 0x8100c ≡ some (user_leaf 0x90 read_only)
    at_leaf = refl

sv32_translate-user_leaf_example :
    sv32_translate tables (satp 0x80) Privilege.user false false Access.load 0x3123
    ≡ some (ok 0x90123)
sv32_translate-user_leaf_example =
    sv32_translate-user_leaf tables 0x80 0x3123 0x90 read_only false false Access.load tables-Mapped
      refl

-- The kernel's megapage at 0x8000_0000, in the root table at frame 0x80.
abbrev kernel_table : ℕ → Option ℕ
kernel_table at = if at == 0x80800 then some (kernel_megapage 0x80000) else none

kernel_entry :
    kernel_table (pte_address (0x80 % 2 ^ 22) 0x8012_3456 1) ≡ some (kernel_megapage 0x80000)
unfolding pte_address
kernel_entry = refl

sv32_translate-kernel_megapage_example :
    (sv32_translate kernel_table
        (satp 0x80)
        Privilege.supervisor
        false
        false
        Access.store
        0x8012_3456
      ≡ some (ok 0x8012_3456))
    × (sv32_translate kernel_table (satp 0x80) Privilege.user false false Access.store 0x8012_3456
        ≡ some (err Fault.page))
sv32_translate-kernel_megapage_example =
    sv32_translate-kernel_megapage kernel_table 0x80 0x8012_3456 0x80000 false false Access.store
      kernel_entry refl
