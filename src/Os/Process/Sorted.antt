-- ===== src/Os/Process/Sorted.antt =====
-- Sorted vectors of frames.
use systemscope.Base.{
  ℕ, ◌≤◌, ◌<◌, ◌≡◌, refl, ap₂, sym, ◌∙◌, true, false, List, [], ◌∷◌, arith, All, All-map, contains,
  IsAscending, leb, ◌==◌, if-cases, Bool-cases, inl, inr, ◌||◌,
}
use systemscope.Os.Frames.Sets.{contains-below}
use systemscope.Os.Process.{insert, sort, list_eq}
use systemscope.Os.Process.Accounts.{IsDistinct}

contains-insert : (z x : ℕ) (ys : List ℕ) → contains z (insert x ys) ≡ (z == x || contains z ys)
contains-insert z x [] = refl
contains-insert z x (y ∷ ys) = ground (arith, contains-insert z x ys)

pub contains-sort : (z : ℕ) (xs : List ℕ) → contains z (sort xs) ≡ contains z xs
contains-sort z [] = refl
contains-sort z (x ∷ xs) = ground (arith, contains-insert z x (sort xs), contains-sort z xs)

insert-IsDistinct :
    (x : ℕ) (ys : List ℕ) → IsDistinct (insert x ys) → (contains x ys ≡ false) × IsDistinct ys
insert-IsDistinct x [] d = (refl, tt)
insert-IsDistinct x (y ∷ ys) d = elim (Bool-cases (leb x y)) [
  | inl l ↦ let (n, r) = (rw l at d) in (n, r)
  | inr g ↦
      let (n, r) = (rw g at d) in
      let (m, k) = insert-IsDistinct x ys r in
      (ground (arith, m, g), (ground (arith, n, contains-insert y x ys), k))
]

pub sort-IsDistinct : (xs : List ℕ) → IsDistinct (sort xs) → IsDistinct xs
sort-IsDistinct [] d = tt
sort-IsDistinct (x ∷ xs) d =
    let (n, r) = insert-IsDistinct x (sort xs) d in
    (sym (contains-sort x xs) ∙ n, sort-IsDistinct xs r)

pub IsAscending-IsDistinct : (xs : List ℕ) → IsAscending xs → IsDistinct xs
IsAscending-IsDistinct [] a = tt
IsAscending-IsDistinct (x ∷ xs) (l, a) = (contains-below x xs l, IsAscending-IsDistinct xs a)

All-insert : (z x : ℕ) (ys : List ℕ) → z < x → All (λ y. z < y) ys → All (λ y. z < y) (insert x ys)
All-insert z x [] h a = (h, tt)
All-insert z x (y ∷ ys) h (b, a) =
    if-cases (All (λ y. z < y)) (leb x y) (λ e. (h, (b, a))) (λ e. (b, All-insert z x ys h a))

insert-IsAscending :
    (x : ℕ) (ys : List ℕ) → IsAscending ys → contains x ys ≡ false → IsAscending (insert x ys)
insert-IsAscending x [] a n = (tt, tt)
insert-IsAscending x (y ∷ ys) (l, a) n =
    if-cases IsAscending (leb x y)
      (λ e.
        let lt : x < y = ground (arith, e, n) in
        ((lt, All-map (λ z h. omega (arith, lt)) ys l), (l, a)))
      (λ e.
        (All-insert y x ys (ground (arith, e)) l, insert-IsAscending x ys a (ground (arith, n))))

pub sort-IsAscending : (xs : List ℕ) → IsDistinct xs → IsAscending (sort xs)
sort-IsAscending [] d = tt
sort-IsAscending (x ∷ xs) (n, d) =
    insert-IsAscending x (sort xs) (sort-IsAscending xs d) (contains-sort x xs ∙ n)

-- Ascending lists with the same elements are equal.
pub ascending-ext :
    (xs ys : List ℕ)
    → IsAscending xs
    → IsAscending ys
    → ((z : ℕ) → contains z xs ≡ contains z ys)
    → xs ≡ ys
ascending-ext [] [] a b h = refl
ascending-ext [] (y ∷ ys) a b h = absurd (ground (arith, h y))
ascending-ext (x ∷ xs) [] a b h = absurd (ground (arith, h x))
ascending-ext (x ∷ xs) (y ∷ ys) (l, a) (m, b) h =
    let same : x ≡ y = ground (arith, h x, h y, contains_above x y ys m, contains_above y x xs l) in
    ap₂ ◌∷◌ same (
      ascending-ext xs ys a b
        (λ z. ground (arith, h z, same, contains-below x xs l, contains-below y ys m)))
  where
    -- A value at most the head of an ascending list is not in its tail.
    contains_above : (x y : ℕ) (ys : List ℕ) → All (λ z. y < z) ys → x ≤ y → contains x ys ≡ false
    contains_above x y ys m h =
        contains-below x ys (All-map {Q = λ z. x < z} (λ z k. omega (arith, h, k)) ys m)

pub list_eq-eq : (xs ys : List ℕ) → list_eq xs ys ≡ true → xs ≡ ys
list_eq-eq [] [] h = refl
list_eq-eq [] (y ∷ ys) h = absurd cc
list_eq-eq (x ∷ xs) [] h = absurd cc
list_eq-eq (x ∷ xs) (y ∷ ys) h = ground (arith, h, list_eq-eq xs ys)

pub list_eq_refl : (xs : List ℕ) → list_eq xs xs ≡ true
list_eq_refl [] = refl
list_eq_refl (x ∷ xs) = ground (arith, list_eq_refl xs)
