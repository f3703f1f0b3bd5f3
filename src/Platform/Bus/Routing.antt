-- ===== src/Platform/Bus/Routing.antt =====
-- The region that a request goes to.
use systemscope.Base.{
  ℕ, zero, suc, ◌+◌, ◌≤◌, ◌≡◌, ◌↔◌, refl, ap, subst, ◌∙◌, Bool, true, false, ◌&&◌, not, Option,
  none, some, List, [], ◌∷◌, arith, All, leb, get_elem?, Bool-cases, inl, inr,
}
use systemscope.Platform.Bus.{Region, last, holds, position, routed, route}

-- Two regions that `new` lets stand beside one another.
abbrev pub apart : Region → Region → Bool
apart r s = not (leb r.base (last s) && leb s.base (last r))

abbrev pub IsDisjoint : List Region → Type 0
IsDisjoint [] = Unit
IsDisjoint (r ∷ rs) = All (λ s. apart r s ≡ true) rs × IsDisjoint rs

-- The code's tests of a region, at index `i`.
pub record Contains (rs : List Region) (first end_at i : ℕ) (r : Region) : Type 0 where
  pub at : get_elem? rs i ≡ some r
  pub start : holds r first ≡ true
  pub finish : end_at ≤ last r

get_elem?-apart :
    (r s : Region) (rs : List Region) (j first : ℕ)
    → All (λ t. apart r t ≡ true) rs
    → get_elem? rs j ≡ some s
    → holds s first ≡ true
    → holds r first ≡ false
get_elem?-apart r s [] j first d e h = absurd cc
get_elem?-apart r s (t ∷ rs) zero first (a, d) e h =
    let same : t ≡ s = cc in let h' : holds t first ≡ true = rw (same) h in ground (arith, a, h')
get_elem?-apart r s (t ∷ rs) (suc j) first (a, d) e h = get_elem?-apart r s rs j first d e h

position-hit :
    (k : ℕ) (rs : List Region) (first j : ℕ) (r : Region)
    → IsDisjoint rs
    → get_elem? rs j ≡ some r
    → holds r first ≡ true
    → position k rs first ≡ some (k + j, r)
position-hit k [] first j r d e h = absurd cc
position-hit k (s ∷ rs) first zero r d e h =
    let same : s ≡ r = cc in
    let h' : holds s first ≡ true = rw (same) h in
    let at : k ≡ k + 0 = omega arith in rw (h', same) (ap (λ i. some (i, r)) at)
position-hit k (s ∷ rs) first (suc j) r (a, d) e h =
    let rest = position-hit (suc k) rs first j r d e h in
    let other = get_elem?-apart s r rs j first a e h in
    let at : suc k + j ≡ k + suc j = omega arith in rw (other, rest) (ap (λ i. some (i, r)) at)

position-Found :
    (k : ℕ) (rs : List Region) (first i : ℕ) (r : Region)
    → position k rs first ≡ some (i, r)
    → (j : ℕ) × (i ≡ k + j) × (get_elem? rs j ≡ some r) × (holds r first ≡ true)
position-Found k [] first i r e = absurd cc
position-Found k (s ∷ rs) first i r e = elim (Bool-cases (holds s first)) [
  | inl h ↦
      let same : Path (Option (ℕ × Region)) (some (k, s)) (some (i, r)) = rw (h) at e in
      let at : k ≡ i = cc in
      let found : s ≡ r = cc in
      (0, omega arith, ap some found, subst (λ t. holds t first ≡ true) found h)
  | inr h ↦
      let (j, a, b, c) = position-Found (suc k) rs first i r (rw (h) at e) in
      (suc j, omega arith, b, c)
]

routed-Contains :
    (rs : List Region) (first end_at i : ℕ) (r : Region) (o : Option (ℕ × Region))
    → position 0 rs first ≡ o
    → routed end_at o ≡ some (i, r)
    → Contains rs first end_at i r
routed-Contains rs first end_at i r none p e = absurd cc
routed-Contains rs first end_at i r (some (j, s)) p e = elim (Bool-cases (leb end_at (last s))) [
  | inl f ↦
      let same : Path (Option (ℕ × Region)) (some (j, s)) (some (i, r)) = rw (f) at e in
      let found : s ≡ r = cc in
      let (n, a, b, c) = position-Found 0 rs first i r (p ∙ same) in
      record {
        at = subst (λ n. get_elem? rs n ≡ some r) (omega arith) b;
        start = c;
        finish = ground (arith, f, ap last found);
      }
  | inr f ↦ let clash : Path (Option (ℕ × Region)) none (some (i, r)) = rw (f) at e in absurd cc
]

-- In regions that do not overlap, as `new` checks, the search finds the one region that passes the
-- tests.
pub route-Contains :
    (rs : List Region) (first end_at i : ℕ) (r : Region)
    → IsDisjoint rs
    → (route rs first end_at ≡ some (i, r)) ↔ Contains rs first end_at i r
unfolding route
route-Contains rs first end_at i r d = (
  λ e. routed-Contains rs first end_at i r (position 0 rs first) refl e,
  λ c.
      let fits : leb end_at (last r) ≡ true = ground (arith, c.finish) in
      let at : 0 + i ≡ i = omega arith in
      rw (position-hit 0 rs first i r d c.at c.start, fits) (ap (λ i. some (i, r)) at),
)

pub route_sound :
    (rs : List Region) (first end_at i : ℕ) (r : Region)
    → route rs first end_at ≡ some (i, r)
    → Contains rs first end_at i r
unfolding route
route_sound rs first end_at i r e = routed-Contains rs first end_at i r (position 0 rs first) refl e
