-- ===== src/Platform/Ram/Pages.antt =====
-- The pages of the RAM: which are kept, and what a write to one page does.
use systemscope.Base.{
  ℕ, zero, suc, ◌+◌, ◌-◌, ◌/◌, ◌%◌, ◌≤◌, ◌<◌, ◌≡◌, sym, ap, true, false, ◌&&◌, Option, none, some,
  List, [], ◌∷◌, ◌++◌, arith, length, take, replicate, get_or, All, ltb, leb, if◌then◌else◌,
  if-cases, length-replicate, All-take, ◌∙◌,
}
use systemscope.Platform.Ram.{Ram, drop, splice, all_zero, written}
use systemscope.Platform.Ram.Slices.{
  get_or-splice, get_or-replicate, length-splice, get_or-all_zero, all_zero-append,
}

-- A page that is kept: 4096 bytes, not all of them zero.
pub record IsPage (page : List ℕ) : Type 0 where
  pub full : length page ≡ 4096
  pub nonzero : all_zero page ≡ false
  pub are_bytes : All (λ b. b < 256) page

abbrev pub IsEntry : Option (List ℕ) → Type 0
IsEntry (some page) = IsPage page
IsEntry none = Unit

abbrev pub IsRam : Ram → Type 0
IsRam r = (k : ℕ) → IsEntry (r.pages k)

abbrev pub byte_in : Option (List ℕ) → ℕ → ℕ
byte_in (some page) i = get_or page i 0
byte_in none i = 0

-- The flat memory that the pages stand for.
unfoldable pub byte_at : Ram → ℕ → ℕ
byte_at r a = byte_in (r.pages (a / 4096)) (a % 4096)

-- The byte at `a` once `bytes` are written at `offset`, over the byte `old`.
abbrev pub overlay : ℕ → List ℕ → ℕ → ℕ → ℕ
overlay offset payload a old =
    if leb offset a && ltb a (offset + length payload) then get_or payload (a - offset) 0 else old

over_blank :
    (page : List ℕ) (start : ℕ) (chunk : List ℕ) (i : ℕ)
    → length page ≡ 4096
    → get_or page i 0 ≡ 0
    → start + length chunk ≤ 4096
    → get_or (splice page start chunk) i 0 ≡ overlay start chunk i 0
over_blank page start chunk i n z l =
    get_or-splice page start chunk i (omega arith) ∙ ap (overlay start chunk i) z

no_bytes :
    (start : ℕ) (chunk : List ℕ) (i : ℕ) → all_zero chunk ≡ true → 0 ≡ overlay start chunk i 0
no_bytes start chunk i e = ground (arith, get_or-all_zero chunk (i - start) e)

pub byte_in-written :
    (o : Option (List ℕ)) (start : ℕ) (chunk : List ℕ) (i : ℕ)
    → IsEntry o
    → start + length chunk ≤ 4096
    → byte_in (written o start chunk) i ≡ overlay start chunk i (byte_in o i)
byte_in-written (some page) start chunk i h l =
    let full = h.full in
    let bytes = get_or-splice page start chunk i (omega arith) in
    if-cases (λ o. byte_in o i ≡ overlay start chunk i (get_or page i 0))
      (all_zero (splice page start chunk)) {x = none} {y = some (splice page start chunk)}
      (λ e. sym (get_or-all_zero (splice page start chunk) i e) ∙ bytes) (λ e. bytes)
byte_in-written none start chunk i h l =
    if-cases (λ o. byte_in o i ≡ overlay start chunk i 0) (all_zero chunk) {x = none}
      {y = some (splice (replicate 4096 0) start chunk)} (λ e. no_bytes start chunk i e)
      (λ e.
        over_blank (replicate 4096 0) start chunk i (length-replicate {A = ℕ} 4096 0)
          (get_or-replicate 4096 i) l)

All-append : (P : ℕ → Type 0) (xs ys : List ℕ) → All P xs → All P ys → All P (xs ++ ys)
All-append P [] ys h k = k
All-append P (x ∷ xs) ys h k = (h.0, All-append P xs ys h.1 k)

pub All-drop : (P : ℕ → Type 0) (n : ℕ) (xs : List ℕ) → All P xs → All P (drop n xs)
All-drop P zero xs h = h
All-drop P (suc n) [] h = tt
All-drop P (suc n) (x ∷ xs) h = All-drop P n xs h.1

All-replicate : (n : ℕ) → All (λ b. b < 256) (replicate n 0)
All-replicate zero = tt
All-replicate (suc n) = (omega arith, All-replicate n)

All-splice :
    (P : ℕ → Type 0) (page : List ℕ) (start : ℕ) (chunk : List ℕ)
    → All P page
    → All P chunk
    → All P (splice page start chunk)
All-splice P page start chunk h k =
    All-append P (take start page) (chunk ++ drop (start + length chunk) page)
      (All-take P start page h)
      (All-append P chunk (drop (start + length chunk) page) k
        (All-drop P (start + length chunk) page h))

nonzero-splice :
    (page : List ℕ) (start : ℕ) (chunk : List ℕ)
    → all_zero chunk ≡ false
    → all_zero (splice page start chunk) ≡ false
nonzero-splice page start chunk e =
    let tail = drop (start + length chunk) page in
    ground (arith, all_zero-append (take start page) (chunk ++ tail), all_zero-append chunk tail, e)

pub IsEntry-written :
    (o : Option (List ℕ)) (start : ℕ) (chunk : List ℕ)
    → IsEntry o
    → start + length chunk ≤ 4096
    → All (λ b. b < 256) chunk
    → IsEntry (written o start chunk)
IsEntry-written (some page) start chunk h l k =
    let full = h.full in
    if-cases IsEntry (all_zero (splice page start chunk)) {x = none}
      {y = some (splice page start chunk)} (λ e. tt)
      (λ e. record {
        full = (let n = length-splice page start chunk (omega arith) in omega arith);
        nonzero = e;
        are_bytes = All-splice (λ b. b < 256) page start chunk h.are_bytes k;
      })
IsEntry-written none start chunk h l k =
    let zeros : List ℕ = replicate 4096 0 in
    let wide = length-replicate {A = ℕ} 4096 0 in
    if-cases IsEntry (all_zero chunk) {x = none} {y = some (splice zeros start chunk)} (λ e. tt)
      (λ e. record {
        full = (let n = length-splice zeros start chunk (omega arith) in omega arith);
        nonzero = nonzero-splice zeros start chunk e;
        are_bytes = All-splice (λ b. b < 256) zeros start chunk (All-replicate 4096) k;
      })
