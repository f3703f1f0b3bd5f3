-- ===== src/Rv32i/Sv32/Pages.antt =====
-- What the privileged specification says of a page-table entry, on its binary digits.
use systemscope.Base.{ℕ, ◌+◌, ◌*◌, ◌/◌, ◌%◌, ◌^◌, ◌≡◌, ◌⊎◌, true, Option, some}
use systemscope.Base.Word.{digit}
use systemscope.Rv32i.Privilege.{Privilege}
use systemscope.Rv32i.Sv32.{Access, Context}

-- Digit `k` of an entry is set, or clear.
abbrev pub Has : ℕ → ℕ → Type 0
Has k pte = digit k pte ≡ 1

abbrev pub IsClear : ℕ → ℕ → Type 0
IsClear k pte = digit k pte ≡ 0

-- V is 1, and W is not set without R.
abbrev pub IsValid : ℕ → Type 0
IsValid pte = Has 0 pte × (Has 1 pte ⊎ IsClear 2 pte)

-- A user page is for user mode, and for loads and stores of supervisor mode under SUM; any other
-- page is not for user mode.
abbrev pub ModeMay : Privilege → Context → ℕ → Type 0
ModeMay Privilege.user ctx pte = Has 4 pte
ModeMay Privilege.supervisor ctx pte =
    IsClear 4 pte ⊎ ((ctx.sum ≡ true) × ((ctx.access ≡ Access.load) ⊎ (ctx.access ≡ Access.store)))
ModeMay Privilege.machine ctx pte = Unit

-- A fetch wants X; a load wants R, or X under MXR; a store wants W and D.
abbrev pub AccessMay : Access → Context → ℕ → Type 0
AccessMay Access.fetch ctx pte = Has 3 pte
AccessMay Access.load ctx pte = Has 1 pte ⊎ ((ctx.mxr ≡ true) × Has 3 pte)
AccessMay Access.store ctx pte = Has 2 pte × Has 7 pte

-- A valid entry that is no pointer, has A set, and allows the access.
abbrev pub Permits : Context → ℕ → Type 0
Permits ctx pte =
    IsValid pte
    × (Has 1 pte ⊎ Has 3 pte)
    × Has 6 pte
    × ModeMay ctx.privilege ctx pte
    × AccessMay ctx.access ctx pte

-- A valid entry with R, W, X, D, A and U clear.
abbrev pub IsPointer : ℕ → Type 0
IsPointer pte =
    Has 0 pte
    × IsClear 1 pte
    × IsClear 2 pte
    × IsClear 3 pte
    × IsClear 4 pte
    × IsClear 6 pte
    × IsClear 7 pte

-- The address of the entry for `va` at a level of the table at page `table`.
abbrev pub entry_at : ℕ → ℕ → ℕ → ℕ
entry_at table va level = table * 4096 + va / 2 ^ (12 + 10 * level) % 2 ^ 10 * 4

-- `va` is mapped to `pa` from the root table: by a 4 KiB page behind a pointer, or by a megapage
-- that is aligned.
pub data Maps (read_pte : ℕ → Option ℕ) (ctx : Context) (va root pa : ℕ) : Type 0 where
  megapage :
      (pte : ℕ)
      → read_pte (entry_at root va 1) ≡ some pte
      → Permits ctx pte
      → pte / 2 ^ 10 % 2 ^ 10 ≡ 0
      → pa ≡ pte / 2 ^ 20 * 2 ^ 22 + va % 2 ^ 22
      → Maps read_pte ctx va root pa
  small_page :
      (pointer pte : ℕ)
      → read_pte (entry_at root va 1) ≡ some pointer
      → IsPointer pointer
      → read_pte (entry_at (pointer / 2 ^ 10) va 0) ≡ some pte
      → Permits ctx pte
      → pa ≡ pte / 2 ^ 10 * 2 ^ 12 + va % 2 ^ 12
      → Maps read_pte ctx va root pa
