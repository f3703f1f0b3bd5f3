-- ===== src/Platform/Ram/New/Built.antt =====
-- What `Ram::new` gives for an image.
use systemscope.Base.{
  ℕ, zero, suc, ◌+◌, ◌^◌, ◌≤◌, ◌<◌, ◌≡◌, refl, subst, Bool, true, false, Option, none, some, Result,
  ok, err, List, [], ◌∷◌, All, arith, ltb, leb, ◌==◌, if-cases,
}
use systemscope.Platform.Ram.{Ram}
use systemscope.Platform.Ram.Pages.{IsRam}
use systemscope.Platform.Ram.New.{
  Segment, RamConfigError, Span, segment_end, with_span, spans_of, sort_spans, first_overlap,
  blank_ram, placed_unless, placed_in, ram_new, max_size,
}
use systemscope.Platform.Ram.New.Spans.{segments_apart, Pairwise, checked-Pairwise}
use systemscope.Platform.Ram.New.Placed.{AreImages, Holds, place-IsRam, place-Holds, place-size}

-- Whether the segment at an index reaches past the end.
abbrev pub reaches_past : ℕ → List Segment → ℕ → Bool
reaches_past size [] k = false
reaches_past size (s ∷ segments) zero = ltb size (segment_end s)
reaches_past size (s ∷ segments) (suc k) = reaches_past size segments k

-- The error of the first loop names a segment that reaches past the end.
abbrev IsBlamed : ℕ → ℕ → List Segment → Result (List Span) RamConfigError → Type 0
IsBlamed size i segments (err (RamConfigError.segment_out_of_range j)) =
    (k : ℕ) × (j ≡ i + k) × (reaches_past size segments k ≡ true)
IsBlamed size i segments (err _) = ⊥
IsBlamed size i segments (ok spans) = Unit

with_span-IsBlamed :
    (size i : ℕ) (s : Segment) (segments : List Segment) (r : Result (List Span) RamConfigError)
    → IsBlamed size (suc i) segments r
    → IsBlamed size i (s ∷ segments) (with_span s i r)
with_span-IsBlamed size i s segments (ok spans) h =
    if-cases (IsBlamed size i (s ∷ segments)) (ltb s.offset (segment_end s)) (λ _. tt) (λ _. tt)
with_span-IsBlamed size i s segments (err (RamConfigError.segment_out_of_range j)) (k, e, h) =
    (suc k, omega arith, h)
with_span-IsBlamed size i s segments (err RamConfigError.zero_size) h = h
with_span-IsBlamed size i s segments (err (RamConfigError.too_large n)) h = h
with_span-IsBlamed size i s segments (err (RamConfigError.segments_overlap a b)) h = h

spans_of-IsBlamed :
    (size i : ℕ) (segments : List Segment) → IsBlamed size i segments (spans_of size i segments)
unfolding spans_of
spans_of-IsBlamed size i [] = tt
spans_of-IsBlamed size i (s ∷ segments) =
    if-cases (IsBlamed size i (s ∷ segments)) (ltb size (segment_end s)) (λ e. (0, omega arith, e))
      (λ _. with_span-IsBlamed size i s segments _ (spans_of-IsBlamed size (suc i) segments))

-- What `Ram::new` gives.
abbrev pub IsNew : ℕ → List Segment → Result Ram RamConfigError → Type 0
IsNew size segments (ok r) =
    (0 < size)
    × (size ≤ 2 ^ 32)
    × (r.size ≡ size)
    × IsRam r
    × All (λ s. leb (segment_end s) size ≡ true) segments
    × Pairwise segments_apart segments
    × Holds r segments
IsNew size segments (err RamConfigError.zero_size) = size ≡ 0
IsNew size segments (err (RamConfigError.too_large n)) = (n ≡ size) × (2 ^ 32 < size)
IsNew size segments (err (RamConfigError.segment_out_of_range j)) =
    reaches_past size segments j ≡ true
IsNew size segments (err (RamConfigError.segments_overlap a b)) = (0 < size) × (size ≤ 2 ^ 32)

module _ (size : ℕ) (segments : List Segment) (b : AreImages segments) (p : 0 < size)
    (l : size ≤ 2 ^ 32) where
  unless-IsNew :
      (o : Option (ℕ × ℕ))
      → (o ≡ none
          → All (λ s. leb (segment_end s) size ≡ true) segments × Pairwise segments_apart segments)
      → IsNew size segments (placed_unless size segments o)
  unless-IsNew (some (x, y)) h = (p, l)
  unless-IsNew none h =
      let (fit, apart) = h refl in
      let blank : IsRam (blank_ram size) = λ k. tt in
      (
        p,
        l,
        place-size (blank_ram size) segments,
        place-IsRam (blank_ram size) segments blank b,
        fit,
        apart,
        place-Holds (blank_ram size) segments blank b apart,
      )

  in-IsNew :
      (r : Result (List Span) RamConfigError)
      → spans_of size 0 segments ≡ r
      → IsBlamed size 0 segments r
      → IsNew size segments (placed_in size segments r)
  in-IsNew (err (RamConfigError.segment_out_of_range j)) q (k, e, h) =
      let same : k ≡ j = omega arith in subst (λ m. reaches_past size segments m ≡ true) same h
  in-IsNew (err RamConfigError.zero_size) q h = absurd h
  in-IsNew (err (RamConfigError.too_large n)) q h = absurd h
  in-IsNew (err (RamConfigError.segments_overlap x y)) q h = absurd h
  in-IsNew (ok spans) q h =
      unless-IsNew (first_overlap (sort_spans spans)) (checked-Pairwise size segments spans q)

-- A RAM is built only for a size of 1 to 2 ^ 32 bytes, and then it is well formed and of that size,
-- every segment of its image fits in it, no two of them share a byte, and each reads back as given.
-- A size of 0 and one above 2 ^ 32 are reported as such, and a segment that is reported out of range
-- reaches past the size. The bytes of segments are bytes.
pub ram_new-IsNew :
    (size : ℕ) (segments : List Segment)
    → AreImages segments
    → IsNew size segments (ram_new size segments)
unfolding ram_new
ram_new-IsNew size segments b =
    if-cases (IsNew size segments) (size == 0) (λ e. ground arith)
      (λ e.
        if-cases (IsNew size segments) (ltb max_size size) (λ f. (refl, ground arith))
          (λ f.
            in-IsNew size segments b (ground arith) (ground arith) (spans_of size 0 segments) refl
              (spans_of-IsBlamed size 0 segments)))
