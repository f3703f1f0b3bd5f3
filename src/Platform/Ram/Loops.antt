-- ===== src/Platform/Ram/Loops.antt =====
-- The loops of a load and of a store.
use systemscope.Base.{
  ℕ, zero, suc, ◌+◌, ◌-◌, ◌/◌, ◌%◌, ◌≤◌, ◌<◌, ◌≡◌, refl, ap, subst, ◌∙◌, List, ◌++◌, arith, length,
  take, get_or, All, All-take, ltb, leb, ◌==◌, if-cases, length-append, Bool-cases, inl, inr,
}
use systemscope.Platform.Ram.{Ram, drop, chunk_len, page_bytes, put, load_loop, store_loop}
use systemscope.Platform.Ram.Slices.{
  get_or-append, get_or-take, get_or-drop, length-take, length-drop,
}
use systemscope.Platform.Ram.Pages.{IsRam, byte_at, overlay, All-drop}
use systemscope.Platform.Ram.Chunks.{
  chunk_len-fits, IsSlice, page_bytes-IsSlice, put-byte_at, put-IsRam,
}

-- Slices that adjoin are a slice.
append-IsSlice :
    (r : Ram) (at n m : ℕ) (xs ys : List ℕ)
    → IsSlice r at n xs
    → IsSlice r (at + n) m ys
    → IsSlice r at (n + m) (xs ++ ys)
unfolding IsSlice
append-IsSlice r at n m xs ys (lx, fx) (ly, fy) = (
  omega (arith, length-append xs ys),
  λ i k. elim (Bool-cases (ltb i n)) [
    | inl e ↦ let here = fx i (ground arith) in ground (arith, get_or-append xs ys i)
    | inr e ↦
        let there = fy (i - n) (ground arith) in
        let same : at + n + (i - n) ≡ at + i = ground arith in ground (arith, get_or-append xs ys i)
  ],
)

pub load_loop-IsSlice :
    (fuel : ℕ) (r : Ram) (at left : ℕ)
    → IsRam r
    → left ≤ fuel
    → IsSlice r at left (load_loop fuel r at left)
unfolding load_loop IsSlice
load_loop-IsSlice zero r at left h l = (omega arith, λ i k. absurd (omega arith))
load_loop-IsSlice (suc fuel) r at left h l =
    let n = chunk_len at left in
    let (fits, short, moves) = chunk_len-fits at left in
    if-cases (IsSlice r at left) (left == 0) (λ e. (ground arith, λ i k. absurd (ground arith)))
      (λ e.
        let some_left : 0 < left = ground arith in
        let step = moves some_left in
        let all : n + (left - n) ≡ left = omega arith in
        subst
          (λ m. IsSlice r at m (
            page_bytes (r.pages (at / 4096)) (at % 4096) n ++ load_loop fuel r (at + n) (left - n)))
          all
          (append-IsSlice r at n (left - n) _ _
            (page_bytes-IsSlice r at n (r.pages (at / 4096)) refl (h (at / 4096)) fits)
            (load_loop-IsSlice fuel r (at + n) (left - n) h (omega arith))))

-- `s` is `r` with the bytes written, and is well formed.
unfoldable pub IsStored : Ram → ℕ → List ℕ → Ram → Type 0
IsStored r at payload s = IsRam s × ((a : ℕ) → byte_at s a ≡ overlay at payload a (byte_at r a))

-- Two writes in a row, the second where the first ends.
overlay-overlay :
    (at n : ℕ) (payload : List ℕ) (a old : ℕ)
    → n ≤ length payload
    → overlay (at + n) (drop n payload) a (overlay at (take n payload) a old)
      ≡ overlay at payload a old
overlay-overlay at n payload a old l = elim (Bool-cases (leb (at + n) a)) [
  | inl e ↦
      let back : n + (a - (at + n)) ≡ a - at = ground arith in
      ground (
        arith,
        length-take n payload l,
        length-drop n payload,
        get_or-drop n payload (a - (at + n)) ∙ ap (λ i. get_or payload i 0) back,
      )
  | inr e ↦ ground (arith, length-take n payload l, get_or-take n payload (a - at))
]

pub store_loop-byte_at :
    (fuel : ℕ) (r : Ram) (at : ℕ) (payload : List ℕ)
    → IsRam r
    → All (λ b. b < 256) payload
    → length payload ≤ fuel
    → IsStored r at payload (store_loop fuel r at payload)
unfolding store_loop IsStored
store_loop-byte_at zero r at payload h b l = (h, λ a. ground arith)
store_loop-byte_at (suc fuel) r at payload h b l =
    let n = chunk_len at (length payload) in
    let (fits, short, moves) = chunk_len-fits at (length payload) in
    let width = length-take n payload short in
    if-cases (IsStored r at payload) (length payload == 0) (λ e. (h, λ a. ground arith))
      (λ e.
        let some_left : 0 < length payload = ground arith in
        let step = moves some_left in
        let chunk = take n payload in
        let (kept, flat) =
          store_loop-byte_at fuel (put r at chunk) (at + n) (drop n payload)
            (put-IsRam r at chunk h (omega arith) (All-take (λ b. b < 256) n payload b))
            (All-drop (λ b. b < 256) n payload b) (omega (arith, length-drop n payload)) in
        (
          kept,
          λ a.
              flat a
              ∙ ap (overlay (at + n) (drop n payload) a) (put-byte_at r at chunk a h (omega arith))
              ∙ overlay-overlay at n payload a (byte_at r a) short,
        ))
