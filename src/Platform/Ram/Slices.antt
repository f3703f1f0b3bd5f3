-- ===== src/Platform/Ram/Slices.antt =====
-- Slices of lists of bytes, byte by byte.
use systemscope.Base.{
  ℕ, zero, suc, ◌+◌, ◌-◌, ◌≤◌, ◌≡◌, refl, ap, true, ◌&&◌, List, [], ◌∷◌, ◌++◌, arith, length, take,
  replicate, get_or, ltb, leb, if◌then◌else◌, length-append,
}
use systemscope.Platform.Ram.{drop, splice, all_zero}

pub get_or-append :
    (xs ys : List ℕ) (i : ℕ)
    → get_or (xs ++ ys) i 0
      ≡ (if ltb i (length xs) then get_or xs i 0 else get_or ys (i - length xs) 0)
get_or-append [] ys i = ground arith
get_or-append (x ∷ xs) ys zero = ground arith
get_or-append (x ∷ xs) ys (suc i) = ground (arith, get_or-append xs ys i)

pub get_or-take :
    (n : ℕ) (xs : List ℕ) (i : ℕ) → get_or (take n xs) i 0 ≡ (if ltb i n then get_or xs i 0 else 0)
get_or-take zero xs i = ground arith
get_or-take (suc n) [] i = ground arith
get_or-take (suc n) (x ∷ xs) zero = ground arith
get_or-take (suc n) (x ∷ xs) (suc i) = ground (arith, get_or-take n xs i)

pub get_or-drop : (n : ℕ) (xs : List ℕ) (i : ℕ) → get_or (drop n xs) i 0 ≡ get_or xs (n + i) 0
get_or-drop zero xs i = ground arith
get_or-drop (suc n) [] i = refl
get_or-drop (suc n) (x ∷ xs) i = ground (arith, get_or-drop n xs i)

pub get_or-replicate : (n i : ℕ) → get_or {A = ℕ} (replicate n 0) i 0 ≡ 0
get_or-replicate zero i = refl
get_or-replicate (suc n) zero = refl
get_or-replicate (suc n) (suc i) = get_or-replicate n i

pub length-take : (n : ℕ) (xs : List ℕ) → n ≤ length xs → length (take n xs) ≡ n
length-take zero xs h = ground arith
length-take (suc n) [] h = absurd (omega arith)
length-take (suc n) (x ∷ xs) h = ap suc (length-take n xs (omega arith))

pub length-drop : (n : ℕ) (xs : List ℕ) → length (drop n xs) ≡ length xs - n
length-drop zero xs = omega arith
length-drop (suc n) [] = omega arith
length-drop (suc n) (x ∷ xs) = omega (arith, length-drop n xs)

-- A byte of a page after a write at `start`.
pub get_or-splice :
    (page : List ℕ) (start : ℕ) (chunk : List ℕ) (i : ℕ)
    → start + length chunk ≤ length page
    → get_or (splice page start chunk) i 0 ≡ (
        if leb start i && ltb i (start + length chunk)
        then get_or chunk (i - start) 0
        else get_or page i 0)
get_or-splice page start chunk i h =
    let tail = drop (start + length chunk) page in
    ground (
      arith,
      get_or-append (take start page) (chunk ++ tail) i,
      length-take start page (omega arith),
      get_or-take start page i,
      get_or-append chunk tail (i - start),
      get_or-drop (start + length chunk) page (i - start - length chunk),
    )

pub length-splice :
    (page : List ℕ) (start : ℕ) (chunk : List ℕ)
    → start + length chunk ≤ length page
    → length (splice page start chunk) ≡ length page
length-splice page start chunk h = omega (
  arith,
  length-append (take start page) (chunk ++ drop (start + length chunk) page),
  length-append chunk (drop (start + length chunk) page),
  length-take start page (omega arith),
  length-drop (start + length chunk) page,
)

pub get_or-all_zero : (xs : List ℕ) (i : ℕ) → all_zero xs ≡ true → get_or xs i 0 ≡ 0
get_or-all_zero [] i h = refl
get_or-all_zero (x ∷ xs) zero h = ground arith
get_or-all_zero (x ∷ xs) (suc i) h = get_or-all_zero xs i (ground arith)

pub all_zero-append : (xs ys : List ℕ) → all_zero (xs ++ ys) ≡ (all_zero xs && all_zero ys)
all_zero-append [] ys = refl
all_zero-append (x ∷ xs) ys = ground (arith, all_zero-append xs ys)
