-- ===== src/Os/Core/Examples.antt =====
-- A script operation on a frame that crosses a page.
use systemscope.Base.{◌≡◌, refl, [], ◌∷◌}
use systemscope.Os.Core.{KernelConfig, Op, Operation, chunks}
use systemscope.Os.Core.Tiles.{IsTiling, chunks-IsTiling}

abbrev config : KernelConfig
config = record { trap_frame = 0xFF8; uart_tx = 0x1000_0000 }

abbrev begun : Operation
begun = record { op = Op.script; step = 0; working = [] }

-- The frame starts 8 bytes before a page's end.
first_chunks : chunks 0xFF8 0x20 ≡ (0xFF8, 8) ∷ (0x1000, 16) ∷ (0x1010, 8) ∷ []
unfolding chunks
first_chunks = refl

chunks-IsTiling_example : IsTiling 0xFF8 0x1018 (chunks 0xFF8 0x20)
chunks-IsTiling_example = chunks-IsTiling 0xFF8 0x20
