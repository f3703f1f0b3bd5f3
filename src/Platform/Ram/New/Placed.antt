-- ===== src/Platform/Ram/New/Placed.antt =====
-- The segments of an image that do not overlap read back once they are placed.
use systemscope.Base.{
  ℕ, zero, suc, ◌+◌, ◌-◌, ◌<◌, ◌≡◌, refl, sym, ap, ◌∙◌, Bool, true, not, ◌&&◌, List, [], ◌∷◌,
  length, get_or, take, All, arith, ltb, leb, ◌==◌, if-cases,
}
use systemscope.Platform.Ram.{Ram, load, store, store_loop, put, chunk_len, drop}
use systemscope.Platform.Ram.Pages.{IsRam, byte_at, overlay}
use systemscope.Platform.Ram.Contents.{load-flat_bytes, flat_bytes-ext, store-IsRam, store-byte_at}
use systemscope.Platform.Ram.New.{Segment, segment_end, place}
use systemscope.Platform.Ram.New.Spans.{segments_apart, Pairwise}

-- The bytes of segments are bytes.
abbrev pub AreImages : List Segment → Type 0
AreImages segments = All (λ (s : Segment). All (λ b. b < 256) s.contents) segments

abbrev misses : ℕ → Segment → Bool
misses a s = not (leb s.offset a && ltb a (segment_end s))

place-misses :
    (r : Ram) (segments : List Segment) (a : ℕ)
    → IsRam r
    → AreImages segments
    → All (λ s. misses a s ≡ true) segments
    → byte_at (place r segments) a ≡ byte_at r a
unfolding place
place-misses r [] a h b m = refl
place-misses r (s ∷ segments) a h b m =
    let stored = store-byte_at r s.offset s.contents a h b.0 in
    let miss = m.0 in
    place-misses (store r s.offset s.contents) segments a (store-IsRam r s.offset s.contents h b.0)
      b.1 m.1
    ∙ stored
    ∙ ground arith

pub place-IsRam :
    (r : Ram) (segments : List Segment) → IsRam r → AreImages segments → IsRam (place r segments)
unfolding place
place-IsRam r [] h b = h
place-IsRam r (s ∷ segments) h b =
    place-IsRam (store r s.offset s.contents) segments (store-IsRam r s.offset s.contents h b.0) b.1

apart-misses :
    (s : Segment) (i : ℕ) (l : List Segment)
    → i < length s.contents
    → All (λ t. segments_apart s t ≡ true) l
    → All (λ t. misses (s.offset + i) t ≡ true) l
apart-misses s i [] k h = tt
apart-misses s i (t ∷ l) k h = (let near = h.0 in ground arith, apart-misses s i l k h.1)

placed_byte :
    (offset : ℕ) (payload : List ℕ) (i old : ℕ)
    → i < length payload
    → overlay offset payload (offset + i) old ≡ get_or payload i 0
placed_byte offset payload i old k =
    let shift : offset + i - offset ≡ i = omega arith in
    ground (arith, ap (λ j. get_or payload j 0) shift)

-- Every segment can be read back.
abbrev pub Holds : Ram → List Segment → Type 0
Holds r segments = All (λ (s : Segment). load r s.offset (length s.contents) ≡ s.contents) segments

pub place-Holds :
    (r : Ram) (segments : List Segment)
    → IsRam r
    → AreImages segments
    → Pairwise segments_apart segments
    → Holds (place r segments) segments
unfolding place
place-Holds r [] h b p = tt
place-Holds r (s ∷ segments) h b p =
    let next = store r s.offset s.contents in
    let legal = store-IsRam r s.offset s.contents h b.0 in
    let final = place next segments in
    (
      load-flat_bytes final s.offset (length s.contents) (place-IsRam next segments legal b.1)
          ∙ sym (
              flat_bytes-ext (byte_at final) s.offset (length s.contents) s.contents refl (λ i k.
                sym (
                  place-misses next segments (s.offset + i) legal b.1
                    (apart-misses s i segments k p.0)
                  ∙ store-byte_at r s.offset s.contents (s.offset + i) h b.0
                  ∙ placed_byte s.offset s.contents i (byte_at r (s.offset + i)) k))),
      place-Holds next segments legal b.1 p.1,
    )

store_loop-size :
    (fuel : ℕ) (r : Ram) (at : ℕ) (payload : List ℕ) → (store_loop fuel r at payload).size ≡ r.size
unfolding store_loop
store_loop-size zero r at payload = refl
store_loop-size (suc fuel) r at payload =
    let n = chunk_len at (length payload) in
    if-cases (λ (s : Ram). s.size ≡ r.size) (length payload == 0) (λ _. refl)
      (λ _. store_loop-size fuel (put r at (take n payload)) (at + n) (drop n payload))

store-size : (r : Ram) (offset : ℕ) (payload : List ℕ) → (store r offset payload).size ≡ r.size
unfolding store
store-size r offset payload = store_loop-size (length payload) r offset payload

pub place-size : (r : Ram) (segments : List Segment) → (place r segments).size ≡ r.size
unfolding place
place-size r [] = refl
place-size r (s ∷ segments) =
    place-size (store r s.offset s.contents) segments ∙ store-size r s.offset s.contents
