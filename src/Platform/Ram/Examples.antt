-- ===== src/Platform/Ram/Examples.antt =====
-- The RAM on concrete inputs.
use systemscope.Base.{
  some, true, ℕ, ◌+◌, ◌-◌, ◌^◌, ◌≡◌, refl, false, none, List, [], ◌∷◌, arith, ltb, ◌==◌,
  if◌then◌else◌, is_ok, err,
}
use systemscope.Rv32i.Cpu.State.{MemReq}
use systemscope.Platform.Ram.{Ram, Access, Incoming, load, store, ram_event}
use systemscope.Platform.Ram.New.{
  Segment, RamConfigError, ram_new, spans_of, sort_spans, insert_span, first_overlap,
}
use systemscope.Platform.Ram.New.Built.{IsNew, ram_new-IsNew}
use systemscope.Platform.Ram.Pages.{IsRam, byte_at, overlay}
use systemscope.Platform.Ram.Contents.{flat_bytes, load-store}
use systemscope.Platform.Ram.Canonical.{stores, overlays, stores-pages}
use systemscope.Platform.Ram.Slices.{get_or-all_zero}
use systemscope.Platform.Ram.Outcomes.{IsHandled, ram_event-IsHandled}
use systemscope.Rv32i.Memory.{MemMsg, ReadOutcome}
use systemscope.Platform.Ram.Serving.{
  first_byte, request_len, AccessLaws, IsServed, ram_event-IsServed,
}

abbrev pub blank : Ram
blank = record { size = 0x2000; pages = λ _. none }

pub blank-IsRam : IsRam blank
blank-IsRam k = tt

-- Four bytes over the end of the first page.
abbrev across : List ℕ
across = 1 ∷ 2 ∷ 3 ∷ 4 ∷ []

load-store_example :
    load (store blank 0xffe across) 0xfff 4
    ≡ flat_bytes (λ a. overlay 0xffe across a (byte_at blank a)) 0xfff 4
load-store_example = load-store blank 0xffe across 0xfff 4 blank-IsRam (omega arith)

-- A byte that is written, and then zeroed, at the start of an absent page.
abbrev zeroed : List (ℕ × List ℕ)
zeroed = (0x1000, 7 ∷ []) ∷ (0x1000, 0 ∷ []) ∷ []

zeroed_bytes : (a : ℕ) → overlays (byte_at blank) zeroed a ≡ overlays (byte_at blank) [] a
unfolding byte_at
zeroed_bytes a = ground (arith, get_or-all_zero (0 ∷ []) (a - 0x1000) refl)

stores-pages_example :
    ((a : ℕ) → byte_at (stores blank zeroed) a ≡ overlays (byte_at blank) zeroed a)
    × ((stores blank zeroed).pages 1 ≡ (stores blank []).pages 1)
stores-pages_example =
    stores-pages blank zeroed [] 1 blank-IsRam ((omega arith, tt), ((omega arith, tt), tt)) tt
      zeroed_bytes

abbrev pub checked : MemReq → Access
checked req =
    if request_len req == 0
    then Access.empty
    else if ltb (2 ^ 64) (first_byte req + request_len req)
    then Access.out_of_range
    else Access.bytes (first_byte req) (first_byte req + request_len req - 1)

pub checked-AccessLaws : AccessLaws checked
checked-AccessLaws = record {
  of_none = λ req e. ground arith;
  of_past = λ req p e. ground arith;
  of_span = λ req p e. ground arith;
}

ram_event-IsHandled_example :
    IsHandled
      (λ _. false)
      blank
      7
      (MemReq.write 0x1ffc across)
      (ram_event checked (λ _. false) blank (Incoming.request 7 (MemReq.write 0x1ffc across)))
ram_event-IsHandled_example =
    ram_event-IsHandled checked (λ _. false) blank 7 (MemReq.write 0x1ffc across) checked-AccessLaws
      (omega arith) blank-IsRam (omega arith)

-- A read that is a byte too far.
too_far :
    (ram_event checked (λ _. false) blank (Incoming.request 7 (MemReq.read 0x1ffd 4))).sent
    ≡ some (7, MemMsg.read_resp ReadOutcome.access_fault)
unfolding ram_event
too_far = refl

ram_event-IsServed_example :
    IsServed 7
      (MemReq.write 0x1ffc across)
      (ram_event checked (λ _. false) blank (Incoming.request 7 (MemReq.write 0x1ffc across)))
ram_event-IsServed_example =
    ram_event-IsServed checked (λ _. false) blank 7 (MemReq.write 0x1ffc across) checked-AccessLaws
      (λ _. refl) (omega arith) blank-IsRam (omega arith) (omega arith)

-- Two segments that adjoin, out of order, and two that share a byte.
abbrev program : List Segment
program =
    record { offset = 2; contents = 5 ∷ 6 ∷ [] } ∷ record { offset = 0; contents = 7 ∷ 8 ∷ [] } ∷ []

program_fits : is_ok (ram_new 4 program) ≡ true
unfolding ram_new spans_of sort_spans insert_span first_overlap
program_fits = refl

program_overlaps :
    ram_new 8 (record { offset = 1; contents = 5 ∷ [] } ∷ program)
    ≡ err (RamConfigError.segments_overlap 0 2)
unfolding ram_new spans_of sort_spans insert_span first_overlap
program_overlaps = refl

ram_new-IsNew_example : IsNew 4 program (ram_new 4 program)
ram_new-IsNew_example = ram_new-IsNew 4 program (omega arith)
