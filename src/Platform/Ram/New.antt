-- ===== src/Platform/Ram/New.antt =====
-- components/platform/src/ram.rs: `Ram::new`, which places the segments of an image. The hash of the
-- image is only kept.
pub mod Spans
pub mod Placed
pub mod Built
use systemscope.Base.{
  ℕ, zero, suc, ◌+◌, ◌^◌, Bool, ◌&&◌, ◌||◌, Option, none, some, Result, ok, err, List, [], ◌∷◌,
  length, ltb, leb, ◌==◌, if◌then◌else◌,
}
use systemscope.Platform.Ram.{Ram, store}

abbrev pub max_size : ℕ
max_size = 2 ^ 32

pub record Segment : Type 0 where
  pub offset : ℕ
  pub contents : List ℕ

pub data RamConfigError : Type 0 where
  zero_size : RamConfigError
  too_large : (size : ℕ) → RamConfigError
  segment_out_of_range : (index : ℕ) → RamConfigError
  segments_overlap : (a b : ℕ) → RamConfigError

-- A half-open span, with the index of its segment.
pub record Span : Type 0 where
  pub start : ℕ
  pub past : ℕ
  pub index : ℕ

abbrev pub segment_end : Segment → ℕ
segment_end s = s.offset + length s.contents

abbrev pub with_span :
    Segment → ℕ → Result (List Span) RamConfigError → Result (List Span) RamConfigError
with_span s i (err e) = err e
with_span s i (ok spans) =
    if ltb s.offset (segment_end s)
    then ok (record { start = s.offset; past = segment_end s; index = i } ∷ spans)
    else ok spans

-- The first loop. An end past `u64::MAX` is past the size too.
unfoldable pub spans_of : ℕ → ℕ → List Segment → Result (List Span) RamConfigError
spans_of size i [] = ok []
spans_of size i (s ∷ segments) =
    let rest = spans_of size (suc i) segments in
    if ltb size (segment_end s)
    then err (RamConfigError.segment_out_of_range i)
    else with_span s i rest

-- The order of the tuples, and `sort_unstable` by it.
abbrev pub before : Span → Span → Bool
before a b =
    ltb a.start b.start
    || (a.start == b.start && (ltb a.past b.past || (a.past == b.past && leb a.index b.index)))

unfoldable pub insert_span : Span → List Span → List Span
insert_span x [] = x ∷ []
insert_span x (y ∷ l) = let rest = insert_span x l in if before x y then x ∷ y ∷ l else y ∷ rest

unfoldable pub sort_spans : List Span → List Span
sort_spans [] = []
sort_spans (x ∷ l) = insert_span x (sort_spans l)

abbrev pub min_of : ℕ → ℕ → ℕ
min_of a b = if leb a b then a else b

abbrev pub max_of : ℕ → ℕ → ℕ
max_of a b = if leb a b then b else a

-- The first pair of neighbours that overlap.
unfoldable pub first_overlap : List Span → Option (ℕ × ℕ)
first_overlap (a ∷ b ∷ l) =
    let rest = first_overlap (b ∷ l) in
    if ltb b.start a.past then some (min_of a.index b.index, max_of a.index b.index) else rest
first_overlap _ = none

unfoldable pub place : Ram → List Segment → Ram
place r [] = r
place r (s ∷ segments) = place (store r s.offset s.contents) segments

abbrev pub blank_ram : ℕ → Ram
blank_ram size = record { size = size; pages = λ _. none }

abbrev pub placed_unless : ℕ → List Segment → Option (ℕ × ℕ) → Result Ram RamConfigError
placed_unless size segments (some (a, b)) = err (RamConfigError.segments_overlap a b)
placed_unless size segments none = ok (place (blank_ram size) segments)

abbrev pub placed_in :
    ℕ → List Segment → Result (List Span) RamConfigError → Result Ram RamConfigError
placed_in size segments (err e) = err e
placed_in size segments (ok spans) = placed_unless size segments (first_overlap (sort_spans spans))

unfoldable pub ram_new : ℕ → List Segment → Result Ram RamConfigError
ram_new size segments =
    if size == 0
    then err RamConfigError.zero_size
    else if ltb max_size size
    then err (RamConfigError.too_large size)
    else placed_in size segments (spans_of size 0 segments)
