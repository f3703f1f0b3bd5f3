-- ===== src/Platform/Ram/New/Spans.antt =====
-- The search for overlapping segments finds them.
use systemscope.Base.{
  ℕ, suc, ◌≤◌, ◌≡◌, refl, Bool, true, false, ◌||◌, none, Result, ok, err, List, [], ◌∷◌, length,
  All, arith, ltb, leb, ◌==◌, if-cases, Bool-cases, inl, inr, split_ok, subst_ok,
}
use systemscope.Platform.Ram.New.{
  Segment, RamConfigError, Span, segment_end, with_span, spans_of, before, insert_span, sort_spans,
  first_overlap,
}

-- Two spans that share nothing.
abbrev pub spans_apart : Span → Span → Bool
spans_apart a b = leb a.past b.start || leb b.past a.start

-- Two segments that share no byte.
abbrev pub segments_apart : Segment → Segment → Bool
segments_apart s t =
    leb (segment_end s) t.offset
    || leb (segment_end t) s.offset
    || length s.contents == 0
    || length t.contents == 0

abbrev pub Pairwise : {A : Type 0} → (A → A → Bool) → List A → Type 0
Pairwise p [] = Unit
Pairwise p (x ∷ l) = All (λ y. p x y ≡ true) l × Pairwise p l

abbrev IsSorted : List Span → Type 0
IsSorted [] = Unit
IsSorted (x ∷ l) = All (λ (y : Span). x.start ≤ y.start) l × IsSorted l

All-insert :
    (P : Span → Type 0) (x : Span) (l : List Span) → P x → All P l → All P (insert_span x l)
unfolding insert_span
All-insert P x [] h k = (h, tt)
All-insert P x (y ∷ l) h k =
    if-cases (All P) (before x y) (λ _. (h, k)) (λ _. (k.0, All-insert P x l h k.1))

All-weaken :
    (a b : ℕ) (l : List Span)
    → a ≤ b
    → All (λ (y : Span). b ≤ y.start) l
    → All (λ (y : Span). a ≤ y.start) l
All-weaken a b [] h k = tt
All-weaken a b (y ∷ l) h k = (let first = k.0 in omega arith, All-weaken a b l h k.1)

insert-IsSorted : (x : Span) (l : List Span) → IsSorted l → IsSorted (insert_span x l)
unfolding insert_span
insert-IsSorted x [] h = (tt, tt)
insert-IsSorted x (y ∷ l) h =
    if-cases IsSorted (before x y)
      (λ e.
        let le : x.start ≤ y.start = ground arith in ((le, All-weaken x.start y.start l le h.0), h))
      (λ e.
        let ge : y.start ≤ x.start = ground arith in
        (All-insert (λ (z : Span). y.start ≤ z.start) x l ge h.0, insert-IsSorted x l h.1))

sort-IsSorted : (l : List Span) → IsSorted (sort_spans l)
unfolding sort_spans
sort-IsSorted [] = tt
sort-IsSorted (x ∷ l) = insert-IsSorted x (sort_spans l) (sort-IsSorted l)

-- Past its neighbour, a span is past all that follow.
beyond-All :
    (a : ℕ) (l : List Span) (x : Span)
    → x.past ≤ a
    → All (λ (y : Span). a ≤ y.start) l
    → All (λ y. spans_apart x y ≡ true) l
beyond-All a [] x h k = tt
beyond-All a (y ∷ l) x h k = (let first = k.0 in ground arith, beyond-All a l x h k.1)

none-Pairwise : (l : List Span) → IsSorted l → first_overlap l ≡ none → Pairwise spans_apart l
unfolding first_overlap
none-Pairwise [] h e = tt
none-Pairwise (x ∷ []) h e = (tt, tt)
none-Pairwise (x ∷ y ∷ l) h e = elim (Bool-cases (ltb y.start x.past)) [
  | inl t ↦ absurd (let bad = rw (first_overlap, t) at e in cc)
  | inr f ↦ (
    (ground arith, beyond-All y.start l x (ground arith) h.1.0),
    none-Pairwise (y ∷ l) h.1 (rw (first_overlap, f) at e),
  )
]

insert-All :
    (P : Span → Type 0) (x : Span) (l : List Span) → All P (insert_span x l) → P x × All P l
unfolding insert_span
insert-All P x [] = λ h. (h.0, tt)
insert-All P x (y ∷ l) =
    if-cases (λ m. All P m → P x × All P (y ∷ l)) (before x y) (λ _ h. (h.0, h.1))
      (λ _ h. let (first, rest) = insert-All P x l h.1 in (first, (h.0, rest)))

spans_apart-sym : (x y : Span) → spans_apart x y ≡ true → spans_apart y x ≡ true
spans_apart-sym x y h = ground arith

insert-Pairwise :
    (x : Span) (l : List Span)
    → Pairwise spans_apart (insert_span x l)
    → All (λ y. spans_apart x y ≡ true) l × Pairwise spans_apart l
unfolding insert_span
insert-Pairwise x [] = λ h. (tt, tt)
insert-Pairwise x (y ∷ l) =
    if-cases
      (λ m.
        Pairwise spans_apart m
        → All (λ z. spans_apart x z ≡ true) (y ∷ l) × Pairwise spans_apart (y ∷ l))
      (before x y) (λ _ h. (h.0, h.1))
      (λ _ h.
        let (from_y, from_l) = insert-All (λ z. spans_apart y z ≡ true) x l h.0 in
        let (from_x, rest) = insert-Pairwise x l h.1 in
        ((spans_apart-sym y x from_y, from_x), (from_l, rest)))

sort-Pairwise : (l : List Span) → Pairwise spans_apart (sort_spans l) → Pairwise spans_apart l
unfolding sort_spans
sort-Pairwise [] h = tt
sort-Pairwise (x ∷ l) h =
    let (first, rest) = insert-Pairwise x (sort_spans l) h in
    (sorted-All x l first, sort-Pairwise l rest)
  where
    sorted-All :
        (x : Span) (l : List Span)
        → All (λ z. spans_apart x z ≡ true) (sort_spans l)
        → All (λ z. spans_apart x z ≡ true) l
    sorted-All x [] h = tt
    sorted-All x (y ∷ l) h =
        let (first, rest) = insert-All (λ z. spans_apart x z ≡ true) y (sort_spans l) h in
        (first, sorted-All x l rest)

-- The span of a segment; an empty one has none.
abbrev IsSpanOf : Segment → Span → Type 0
IsSpanOf s x = (x.start ≡ s.offset) × (x.past ≡ segment_end s)

-- What the first loop gives where it succeeds: every segment fits, and two segments are apart if
-- their spans are.
record AreSpans (size : ℕ) (segments : List Segment) (spans : List Span) : Type 0 where
  fit : All (λ s. leb (segment_end s) size ≡ true) segments
  from :
      (s : Segment) (x : Span)
      → IsSpanOf s x
      → All (λ y. spans_apart x y ≡ true) spans
      → All (λ t. segments_apart s t ≡ true) segments
  among : Pairwise spans_apart spans → Pairwise segments_apart segments

module _ (size : ℕ) (s : Segment) (segments : List Segment) (rest : List Span)
    (known : AreSpans size segments rest) (fits : ltb size (segment_end s) ≡ false) where
  nonempty_span :
      (i : ℕ)
      → AreSpans size
          (s ∷ segments)
          (record { start = s.offset; past = segment_end s; index = i } ∷ rest)
  nonempty_span i = record {
    fit = (ground arith, known.fit);
    from = λ t x p h. let near = h.0 in (ground arith, known.from t x p h.1);
    among = λ h. (
      known.from s (record { start = s.offset; past = segment_end s; index = i }) (refl, refl) h.0,
      known.among h.1,
    );
  }

  apart_empty :
      ltb s.offset (segment_end s) ≡ false
      → (l : List Segment) → All (λ t. segments_apart s t ≡ true) l
  apart_empty e [] = tt
  apart_empty e (t ∷ l) = (ground arith, apart_empty e l)

  empty_span : ltb s.offset (segment_end s) ≡ false → AreSpans size (s ∷ segments) rest
  empty_span e = record {
    fit = (ground arith, known.fit);
    from = λ t x p h. (ground arith, known.from t x p h);
    among = λ h. (apart_empty e segments, known.among h);
  }

with_rest :
    (size i : ℕ) (s : Segment) (segments : List Segment) (spans : List Span)
    → ltb size (segment_end s) ≡ false
    → (r : Result (List Span) RamConfigError)
    → ((rest : List Span) → r ≡ ok rest → AreSpans size segments rest)
    → with_span s i r ≡ ok spans
    → AreSpans size (s ∷ segments) spans
with_rest size i s segments spans fits (err e) known = λ k. absurd cc
with_rest size i s segments spans fits (ok rest) known =
    if-cases (λ r. r ≡ ok spans → AreSpans size (s ∷ segments) spans) (ltb s.offset (segment_end s))
      (λ full k.
        subst_ok (AreSpans size (s ∷ segments)) k
          (nonempty_span size s segments rest (known rest refl) fits i))
      (λ none_of k.
        subst_ok (AreSpans size (s ∷ segments)) k
          (empty_span size s segments rest (known rest refl) fits none_of))

spans_of-AreSpans :
    (size i : ℕ) (segments : List Segment) (spans : List Span)
    → spans_of size i segments ≡ ok spans
    → AreSpans size segments spans
unfolding spans_of
spans_of-AreSpans size i [] spans = λ e. record { fit = tt; from = λ s x p h. tt; among = λ h. tt }
spans_of-AreSpans size i (s ∷ segments) spans =
    split_ok (AreSpans size (s ∷ segments)) (ltb size (segment_end s)) _ (λ fits.
      with_rest size i s segments spans fits (spans_of size (suc i) segments)
        (spans_of-AreSpans size (suc i) segments))

-- Segments that pass both checks fit in the size, and no two of them share a byte.
pub checked-Pairwise :
    (size : ℕ) (segments : List Segment) (spans : List Span)
    → spans_of size 0 segments ≡ ok spans
    → first_overlap (sort_spans spans) ≡ none
    → All (λ s. leb (segment_end s) size ≡ true) segments × Pairwise segments_apart segments
checked-Pairwise size segments spans e f =
    let known = spans_of-AreSpans size 0 segments spans e in
    (
      known.fit,
      known.among (sort-Pairwise spans (none-Pairwise (sort_spans spans) (sort-IsSorted spans) f)),
    )
