-- ===== src/Platform/Ram/Canonical.antt =====
-- The one form of the pages, whatever was stored on the way to their contents.
use systemscope.Base.{
  ℕ, suc, ◌+◌, ◌*◌, ◌/◌, ◌%◌, ◌<◌, ◌≡◌, refl, sym, ap, ap₂, true, Option, none, some, List, [], ◌∷◌,
  arith, length, get_or, All, ◌∙◌,
}
use systemscope.Platform.Ram.{Ram, store, all_zero}
use systemscope.Platform.Ram.Pages.{IsPage, IsEntry, IsRam, byte_in, byte_at, overlay}
use systemscope.Platform.Ram.Contents.{store-IsRam, store-byte_at}

zeros-all_zero : (l : List ℕ) → ((i : ℕ) → i < length l → get_or l i 0 ≡ 0) → all_zero l ≡ true
zeros-all_zero [] h = refl
zeros-all_zero (x ∷ l) h =
    let first = h 0 (omega arith) in
    let rest = zeros-all_zero l (λ i k. h (suc i) (omega arith)) in ground arith

list-ext :
    (xs ys : List ℕ)
    → length xs ≡ length ys
    → ((i : ℕ) → i < length xs → get_or xs i 0 ≡ get_or ys i 0)
    → xs ≡ ys
list-ext [] [] n h = refl
list-ext [] (y ∷ ys) n h = absurd (omega arith)
list-ext (x ∷ xs) [] n h = absurd (omega arith)
list-ext (x ∷ xs) (y ∷ ys) n h =
    ap₂ (λ z zs. z ∷ zs) (h 0 (omega arith))
      (list-ext xs ys (omega arith) (λ i k. h (suc i) (omega arith)))

-- A page that is kept has a byte that is not zero.
not_blank : (page : List ℕ) → IsPage page → ((i : ℕ) → i < 4096 → get_or page i 0 ≡ 0) → ⊥
not_blank page h z =
    let full = h.full in
    let one = h.nonzero in let blank = zeros-all_zero page (λ i k. z i (omega arith)) in absurd cc

same_page :
    (o p : Option (List ℕ))
    → IsEntry o
    → IsEntry p
    → ((i : ℕ) → i < 4096 → byte_in o i ≡ byte_in p i)
    → o ≡ p
same_page none none h k e = refl
same_page none (some q) h k e = absurd (not_blank q k (λ i l. sym (e i l)))
same_page (some p) none h k e = absurd (not_blank p h e)
same_page (some p) (some q) h k e =
    let full = h.full in
    let wide = k.full in ap some (list-ext p q (omega arith) (λ i l. e i (omega arith)))

-- Two well-formed RAMs with the same bytes have the same pages.
pages-determined :
    (r s : Ram) (k : ℕ)
    → IsRam r
    → IsRam s
    → ((a : ℕ) → byte_at r a ≡ byte_at s a)
    → r.pages k ≡ s.pages k
unfolding byte_at
pages-determined r s k h g e = same_page (r.pages k) (s.pages k) (h k) (g k) (λ i l.
    let page : (k * 4096 + i) / 4096 ≡ k = omega arith in
    let offset : (k * 4096 + i) % 4096 ≡ i = omega arith in rw (page, offset) at (e (k * 4096 + i)))

-- A sequence of stores, each with its offset.
abbrev pub stores : Ram → List (ℕ × List ℕ) → Ram
stores r [] = r
stores r ((offset, payload) ∷ ws) = stores (store r offset payload) ws

abbrev pub AreBytes : List (ℕ × List ℕ) → Type 0
AreBytes ws = All (λ w. All (λ b. b < 256) w.1) ws

stores-IsRam : (r : Ram) (ws : List (ℕ × List ℕ)) → IsRam r → AreBytes ws → IsRam (stores r ws)
stores-IsRam r [] h b = h
stores-IsRam r ((offset, payload) ∷ ws) h (b, bs) =
    stores-IsRam (store r offset payload) ws (store-IsRam r offset payload h b) bs

-- The bytes after the stores.
abbrev pub overlays : (ℕ → ℕ) → List (ℕ × List ℕ) → ℕ → ℕ
overlays f [] = f
overlays f ((offset, payload) ∷ ws) = overlays (λ a. overlay offset payload a (f a)) ws

overlays-cong :
    (ws : List (ℕ × List ℕ)) (f g : ℕ → ℕ) (a : ℕ)
    → ((a : ℕ) → f a ≡ g a)
    → overlays f ws a ≡ overlays g ws a
overlays-cong [] f g a h = h a
overlays-cong ((offset, payload) ∷ ws) f g a h =
    overlays-cong ws _ _ a (λ a. ap (overlay offset payload a) (h a))

stores-overlays :
    (r : Ram) (ws : List (ℕ × List ℕ)) (a : ℕ)
    → IsRam r
    → AreBytes ws
    → byte_at (stores r ws) a ≡ overlays (byte_at r) ws a
stores-overlays r [] a h b = refl
stores-overlays r ((offset, payload) ∷ ws) a h (b, bs) =
    stores-overlays (store r offset payload) ws a (store-IsRam r offset payload h b) bs
    ∙ overlays-cong ws _ _ a (λ a. store-byte_at r offset payload a h b)

-- A sequence of stores leaves the bytes that it writes, each over those before. Two sequences that
-- write the same bytes over one RAM, in whatever order and pieces and with whatever is overwritten in
-- between, leave the same pages; so a page that was absent, and is written and zeroed again, is
-- absent. The RAM is well formed, and bytes are stored.
pub stores-pages :
    (r : Ram) (ws vs : List (ℕ × List ℕ)) (k : ℕ)
    → IsRam r
    → AreBytes ws
    → AreBytes vs
    → ((a : ℕ) → overlays (byte_at r) ws a ≡ overlays (byte_at r) vs a)
    → ((a : ℕ) → byte_at (stores r ws) a ≡ overlays (byte_at r) ws a)
      × ((stores r ws).pages k ≡ (stores r vs).pages k)
stores-pages r ws vs k h b c e = (
  λ a. stores-overlays r ws a h b,
  pages-determined (stores r ws) (stores r vs) k (stores-IsRam r ws h b) (stores-IsRam r vs h c)
      (λ a. stores-overlays r ws a h b ∙ e a ∙ sym (stores-overlays r vs a h c)),
)
