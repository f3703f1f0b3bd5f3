-- ===== src/Rv32i/Memory/Laws.antt =====
-- What a load gives of the bytes that a store sends, and which responses complete a plan.
use systemscope.Base.{
  ℕ, ◌+◌, ◌-◌, ◌%◌, ◌^◌, ◌<◌, ◌≡◌, refl, Bool, true, false, ◌==◌, Option-cases, is_some, is_ok,
  some, ok, arith, ltb, if◌then◌else◌, inl, inr, List, ◌∷◌, length,
}
use systemscope.Rv32i.Execute.{ExecOutcome, writes}
use systemscope.Rv32i.Memory.{
  MemWidth, LoadExtension, LoadPlan, MemoryPlan, MemMsg, ReadOutcome, bytes, low_bytes, assemble,
  complete_load, complete_memory,
}

-- The register value of a load: the low `8 * bytes` bits of `v`, extended.
abbrev pub extended : MemWidth → LoadExtension → ℕ → ℕ
extended MemWidth.byte LoadExtension.unsigned v = v % 2 ^ 8
extended MemWidth.byte LoadExtension.signed v =
    if ltb (v % 2 ^ 8) (2 ^ 7) then v % 2 ^ 8 else 2 ^ 32 - 2 ^ 8 + v % 2 ^ 8
extended MemWidth.half LoadExtension.unsigned v = v % 2 ^ 16
extended MemWidth.half LoadExtension.signed v =
    if ltb (v % 2 ^ 16) (2 ^ 15) then v % 2 ^ 16 else 2 ^ 32 - 2 ^ 16 + v % 2 ^ 16
extended MemWidth.word _ v = v

assemble-low_bytes :
    (width : MemWidth) (x : LoadExtension) (v : ℕ)
    → v < 2 ^ 32
    → assemble width x (low_bytes width v) ≡ some (extended width x v)
unfolding assemble
assemble-low_bytes MemWidth.byte LoadExtension.unsigned v h = refl
assemble-low_bytes MemWidth.byte LoadExtension.signed v h = ground arith
assemble-low_bytes MemWidth.half LoadExtension.unsigned v h = ground arith
assemble-low_bytes MemWidth.half LoadExtension.signed v h = ground arith
assemble-low_bytes MemWidth.word LoadExtension.signed v h = ground arith
assemble-low_bytes MemWidth.word LoadExtension.unsigned v h = ground arith

-- A load that is answered with the bytes a store of the same width sends for the word `v` retires
-- with the low bytes of `v`, extended as the load says, in its destination.
pub load-store_bytes :
    (p : LoadPlan) (v : ℕ)
    → v < 2 ^ 32
    → complete_memory
        (MemoryPlan.load_plan p)
        (MemMsg.read_resp (ReadOutcome.bytes_in (low_bytes p.width v)))
      ≡ ok (ExecOutcome.effect (writes p.rd (extended p.width p.extension v) p.next_pc))
unfolding complete_memory
load-store_bytes p v h = rw (assemble-low_bytes p.width p.extension v h, complete_load)

-- Whether a response is of the kind that a plan waits for, and a load's bytes as many as it asked.
abbrev pub answers : MemoryPlan → MemMsg → Bool
answers (MemoryPlan.load_plan p) (MemMsg.read_resp (ReadOutcome.bytes_in l)) =
    length l == bytes p.width
answers (MemoryPlan.load_plan p) (MemMsg.read_resp ReadOutcome.access_fault) = true
answers (MemoryPlan.store_plan p) (MemMsg.write_resp _) = true
answers _ _ = false

is_some-assemble :
    (width : MemWidth) (x : LoadExtension) (l : List ℕ)
    → is_some (assemble width x l) ≡ (length l == bytes width)
unfolding assemble
is_some-assemble MemWidth.byte LoadExtension.signed (a ∷ b ∷ r) = ground arith
is_some-assemble MemWidth.half LoadExtension.signed (a ∷ b ∷ c ∷ r) = ground arith
is_some-assemble MemWidth.word LoadExtension.signed (a ∷ b ∷ c ∷ d ∷ e ∷ r) = ground arith
is_some-assemble _ _ _ = ground arith

-- A plan completes exactly with a response of its kind, and a load's bytes only in the number
-- that it asked for; every other response is an error.
pub is_ok-complete_memory :
    (p : MemoryPlan) (m : MemMsg) → is_ok (complete_memory p m) ≡ answers p m
unfolding complete_memory
is_ok-complete_memory (MemoryPlan.load_plan p) (MemMsg.read_resp (ReadOutcome.bytes_in l)) =
    elim (Option-cases (assemble p.width p.extension l)) [
      | inl n ↦ ground (arith, n, is_some-assemble p.width p.extension l)
      | inr (v, e) ↦ ground (arith, e, is_some-assemble p.width p.extension l)
    ]
is_ok-complete_memory (MemoryPlan.load_plan p) (MemMsg.read_resp ReadOutcome.access_fault) = refl
is_ok-complete_memory (MemoryPlan.store_plan p) (MemMsg.write_resp _) = refl
is_ok-complete_memory _ _ = refl
