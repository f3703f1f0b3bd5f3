-- ===== src/Platform/Ram/Chunks.antt =====
-- One round of a load or a store: a chunk within one page.
use systemscope.Base.{
  ℕ, ◌+◌, ◌-◌, ◌/◌, ◌%◌, ◌≤◌, ◌<◌, ◌≡◌, ◌≢◌, refl, sym, ap, ◌∙◌, Option, none, some, List, arith,
  length, get_or, All, ◌==◌, ==_iff, if-cases, length-replicate,
}
use systemscope.Platform.Ram.{Ram, drop, chunk_len, page_bytes, put}
use systemscope.Platform.Ram.Slices.{
  get_or-take, get_or-drop, get_or-replicate, length-take, length-drop,
}
use systemscope.Platform.Ram.Pages.{
  IsEntry, IsRam, byte_in, byte_at, overlay, byte_in-written, IsEntry-written,
}

-- A chunk stays in its page.
pub chunk_len-fits :
    (at left : ℕ)
    → (at % 4096 + chunk_len at left ≤ 4096)
      × (chunk_len at left ≤ left)
      × (0 < left → 0 < chunk_len at left)
chunk_len-fits at left = (ground arith, ground arith, λ h. ground arith)

-- The bytes of one round of `load`.
unfoldable pub IsSlice : Ram → ℕ → ℕ → List ℕ → Type 0
IsSlice r at n l = (length l ≡ n) × ((i : ℕ) → i < n → get_or l i 0 ≡ byte_at r (at + i))

byte_at-in_page :
    (r : Ram) (at i : ℕ)
    → at % 4096 + i < 4096
    → byte_at r (at + i) ≡ byte_in (r.pages (at / 4096)) (at % 4096 + i)
unfolding byte_at
byte_at-in_page r at i h =
    let page : (at + i) / 4096 ≡ at / 4096 = omega arith in
    let offset : (at + i) % 4096 ≡ at % 4096 + i = omega arith in rw (page, offset) refl

pub page_bytes-IsSlice :
    (r : Ram) (at n : ℕ) (o : Option (List ℕ))
    → r.pages (at / 4096) ≡ o
    → IsEntry o
    → at % 4096 + n ≤ 4096
    → IsSlice r at n (page_bytes o (at % 4096) n)
unfolding IsSlice byte_at
page_bytes-IsSlice r at n (some page) e h l =
    let full = h.full in
    (
      length-take n (drop (at % 4096) page) (omega (arith, length-drop (at % 4096) page)),
      λ i k.
          ground (arith, get_or-take n (drop (at % 4096) page) i, get_or-drop (at % 4096) page i)
          ∙ ap (λ x. byte_in x (at % 4096 + i)) (sym e)
          ∙ sym (byte_at-in_page r at i (omega arith)),
    )
page_bytes-IsSlice r at n none e h l = (
  length-replicate n 0,
  λ i k.
      get_or-replicate n i
      ∙ ap (λ x. byte_in x (at % 4096 + i)) (sym e)
      ∙ sym (byte_at-in_page r at i (omega arith)),
)

-- The same byte, by its offset in a page.
overlay-in_page :
    (at : ℕ) (chunk : List ℕ) (a old : ℕ)
    → a / 4096 ≡ at / 4096
    → at % 4096 + length chunk ≤ 4096
    → overlay (at % 4096) chunk (a % 4096) old ≡ overlay at chunk a old
overlay-in_page at chunk a old e l =
    let shift : a % 4096 - at % 4096 ≡ a - at = omega arith in ground (arith, shift)

overlay-off_page :
    (at : ℕ) (chunk : List ℕ) (a old : ℕ)
    → a / 4096 ≢ at / 4096
    → at % 4096 + length chunk ≤ 4096
    → old ≡ overlay at chunk a old
overlay-off_page at chunk a old e l = ground arith

pub put-byte_at :
    (r : Ram) (at : ℕ) (chunk : List ℕ) (a : ℕ)
    → IsRam r
    → at % 4096 + length chunk ≤ 4096
    → byte_at (put r at chunk) a ≡ overlay at chunk a (byte_at r a)
unfolding byte_at
put-byte_at r at chunk a h l =
    let old = byte_in (r.pages (a / 4096)) (a % 4096) in
    if-cases (λ o. byte_in o (a % 4096) ≡ overlay at chunk a old) (a / 4096 == at / 4096)
      (λ e.
        let q = (==_iff (a / 4096) (at / 4096)).0 e in
        byte_in-written (r.pages (at / 4096)) (at % 4096) chunk (a % 4096) (h (at / 4096)) l
        ∙ overlay-in_page at chunk a _ q l
        ∙ ap (λ k. overlay at chunk a (byte_in (r.pages k) (a % 4096))) (sym q))
      (λ e. overlay-off_page at chunk a old (ground arith) l)

pub put-IsRam :
    (r : Ram) (at : ℕ) (chunk : List ℕ)
    → IsRam r
    → at % 4096 + length chunk ≤ 4096
    → All (λ b. b < 256) chunk
    → IsRam (put r at chunk)
put-IsRam r at chunk h l b k =
    if-cases IsEntry (k == at / 4096) (λ _. IsEntry-written _ _ chunk (h (at / 4096)) l b)
      (λ _. h k)
