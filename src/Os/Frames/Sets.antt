-- ===== src/Os/Frames/Sets.antt =====
-- The lists of indices that `reserve` and `release` work on.
use systemscope.Base.{
  ℕ, zero, suc, ◌+◌, ◌≤◌, ◌<◌, ◌≡◌, refl, ap, sym, Bool, true, false, none, some, List, [], ◌∷◌,
  arith, length, get_elem?, set, take, All, All-map, contains, IsAscending, ◌==◌, if◌then◌else◌,
  Bool-cases, ==_iff, if-cases, subst, length-set, get_elem?-set_self, get_elem?-set_ne, inl, inr,
  ltb,
}
use systemscope.Os.Frames.{count_free, free_indices, set_all}

-- Whether the entry at an index is 0.
abbrev pub is_free : List ℕ → ℕ → Bool
is_free os j = elim (get_elem? os j) [ none ↦ false | some o ↦ o == 0 ]

pub length-free_indices : (k : ℕ) (os : List ℕ) → length (free_indices k os) ≡ count_free os
unfolding free_indices count_free
length-free_indices k [] = refl
length-free_indices k (o ∷ os) = ground (arith, length-free_indices (suc k) os)

at_least : (k : ℕ) → k ≤ k
at_least k = omega arith

-- The indices from `k` on are at least `k`.
pub free_indices-ge : (k : ℕ) (os : List ℕ) → All (λ i. k ≤ i) (free_indices k os)
unfolding free_indices
free_indices-ge k [] = tt
free_indices-ge k (o ∷ os) =
    let rest =
      All-map {P = λ i. suc k ≤ i} {Q = λ i. k ≤ i} (λ i h. omega arith) _
        (free_indices-ge (suc k) os) in
    if-cases (All (λ i. k ≤ i)) (o == 0) (λ e. (at_least k, rest)) (λ e. rest)

pub free_indices-IsAscending : (k : ℕ) (os : List ℕ) → IsAscending (free_indices k os)
unfolding free_indices
free_indices-IsAscending k [] = tt
free_indices-IsAscending k (o ∷ os) =
    let rest = free_indices-IsAscending (suc k) os in
    if-cases IsAscending (o == 0) (λ e. (free_indices-ge (suc k) os, rest)) (λ e. rest)

-- A value below all elements is no element.
pub contains-below : (x : ℕ) (xs : List ℕ) → All (λ y. x < y) xs → contains x xs ≡ false
contains-below x [] h = refl
contains-below x (y ∷ ys) (l, h) = ground (arith, contains-below x ys h)

-- An index is listed exactly when its entry is 0.
pub contains-free_indices :
    (k j : ℕ) (os : List ℕ) → contains (k + j) (free_indices k os) ≡ is_free os j
unfolding free_indices
contains-free_indices k j [] = refl
contains-free_indices k zero (o ∷ os) =
    ground (
      arith,
      contains-below (k + 0) _ (All-map (λ i h. omega arith) _ (free_indices-ge (suc k) os)),
    )
contains-free_indices k (suc j) (o ∷ os) = ground (arith, contains-free_indices (suc k) j os)

pub All-contains {κ} :
    (P : ℕ → Type κ) (xs : List ℕ) → ((x : ℕ) → contains x xs ≡ true → P x) → All P xs
All-contains P [] f = tt
All-contains P (x ∷ xs) f = (f x (ground arith), All-contains P xs (λ y e. f y (ground (arith, e))))

pub at_element {κ} : (P : ℕ → Type κ) (x : ℕ) (xs : List ℕ) → All P xs → contains x xs ≡ true → P x
at_element P x [] h e = absurd cc
at_element P x (y ∷ ys) (p, h) e = elim (Bool-cases (x == y)) [
  | inl t ↦ subst P (omega (arith, (==_iff x y).0 t)) p
  | inr f ↦ at_element P x ys h (ground (arith, e))
]

is_free_zero : (os : List ℕ) (i : ℕ) → is_free os i ≡ true → get_elem? os i ≡ some 0
is_free_zero os i h = ground (arith, h)

-- Each listed index has the entry 0.
pub free_indices-zero : (os : List ℕ) → All (λ i. get_elem? os i ≡ some 0) (free_indices 0 os)
free_indices-zero os =
    All-contains (λ i. get_elem? os i ≡ some 0) (free_indices 0 os)
      λ i e. is_free_zero os i (ground (arith, e, contains-free_indices 0 i os))

-- A listed index that the first `n` leave out is above all of them.
pub take-lowest :
    (n j : ℕ) (xs : List ℕ)
    → IsAscending xs
    → contains j xs ≡ true
    → contains j (take n xs) ≡ false
    → All (λ i. i < j) (take n xs)
take-lowest zero j xs a c d = tt
take-lowest (suc n) j [] a c d = tt
take-lowest (suc n) j (x ∷ xs) (a, s) c d = elim (Bool-cases (j == x)) [
  | inl e ↦ absurd (ground (arith, d))
  | inr e ↦ (
    at_element (λ y. x < y) j xs a (ground (arith, c)),
    take-lowest n j xs s (ground (arith, c)) (ground (arith, d)),
  )
]

pub length-take : (n : ℕ) (xs : List ℕ) → n ≤ length xs → length (take n xs) ≡ n
length-take zero xs h = refl
length-take (suc n) [] h = omega arith
length-take (suc n) (x ∷ xs) h = ap suc (length-take n xs (omega arith))

pub length-take_short : (n : ℕ) (xs : List ℕ) → ltb (length (take n xs)) n ≡ ltb (length xs) n
length-take_short zero xs = ground arith
length-take_short (suc n) [] = refl
length-take_short (suc n) (x ∷ xs) = ground (arith, length-take_short n xs)

-- What an index holds after the writes.
pub get_elem?-set_all :
    (os is : List ℕ) (v j : ℕ)
    → All (λ i. i < length os) is
    → get_elem? (set_all os is v) j ≡ (if contains j is then some v else get_elem? os j)
unfolding set_all
get_elem?-set_all os [] v j h = refl
get_elem?-set_all os (i ∷ is) v j (l, h) = ground (
  arith,
  get_elem?-set_all (set os i v) is v j
      (subst (λ n. All (λ a. a < n) is) (sym (length-set os i v)) h),
  get_elem?-set_self os i v l,
  get_elem?-set_ne os i j v,
)
